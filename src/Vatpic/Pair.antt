-- ===== src/Vatpic/Pair.antt =====
-- The master and the slave controller, `struct vatpic` of bios/vmm/io/vatpic.c: the pins, the
-- notification of the CPU, the acceptance of a vector, and the I/O ports.
pub mod Notify
pub mod Valid
use bhyve_experiments.Base.{
  ℕ, zero, suc, ◌+◌, ◌-◌, ◌/◌, ◌%◌, ◌<◌, Bool, true, false, not, ◌&&◌, ◌||◌,
}
use bhyve_experiments.Base.{List, [], ◌∷◌, Option, none, some, bit_and, bit_or, ◌==◌, ltb, leb}
use bhyve_experiments.Base.{if◌then◌else◌, get_or, set, ◌>>=◌}
use bhyve_experiments.Base.Bits.{any_of, has_bit, set_bit, clear_bit}
use bhyve_experiments.Base.Int.{ℤ, pos, incr, decr, equals, positive}
use bhyve_experiments.Vatpic.Chip.{
  Atpic, get_highest_irrpin, icw1, icw2, icw3, icw4, ocw1, ocw2, ocw3,
}
use bhyve_experiments.Vatpic.Chip.{ocw3_ris, pin_accepted, zeroed}

-- The calls by which the CPU is told: `lapic_set_local_intr(vm, -1, APIC_LVT_LINT0)` and
-- `vioapic_pulse_irq(vm, 0)`.
pub data Signal : Type 0 where
  local_lint0 ioapic_pulse : Signal

-- `struct vatpic`; `signals` are the calls made so far, the last one first.
pub record Vatpic : Type 0 where
  pub master : Atpic
  pub slave : Atpic
  pub elc0 : ℕ
  pub elc1 : ℕ
  pub signals : List Signal

pub data IrqState : Type 0 where
  assert deassert pulse : IrqState

pub data Trigger : Type 0 where
  edge level : Trigger

-- 0, EINVAL and -1
pub data Status : Type 0 where
  ok einval failed : Status

-- `vatpic_init`
unfoldable pub init : Vatpic
init = record { master = zeroed; slave = zeroed; elc0 = 0; elc1 = 0; signals = [] }

abbrev is_some : Option ℕ → Bool
is_some none = false
is_some (some pin) = true

abbrev pub pending : Atpic → Bool
pending a = is_some (get_highest_irrpin a)

-- The count, request and level of one pin of a chip: `vatpic_set_pinstate` without its call of
-- `vatpic_notify_intr`.
unfoldable pub move_pin : Atpic → ℕ → ℕ → Bool → Atpic
move_pin a elc pin newstate = record a {
  acnt = set a.acnt pin newcnt;
  request =
      if equals oldcnt 0 && equals newcnt 1 || positive newcnt && has_bit elc pin
      then set_bit a.request pin
      else if equals oldcnt 1 && equals newcnt 0 && has_bit elc pin
      then clear_bit a.request pin
      else a.request;
}
  where
    oldcnt : ℤ
    oldcnt = get_or a.acnt pin (pos 0)

    newcnt : ℤ
    newcnt = if newstate then incr oldcnt else decr oldcnt

-- `pin >> 3` chooses the chip and `pin & 0x7` its pin.
unfoldable pub move_line : Vatpic → ℕ → Bool → Vatpic
move_line v pin newstate =
    if pin / 8 == 0
    then record v { master = move_pin v.master v.elc0 (pin % 8) newstate }
    else record v { slave = move_pin v.slave v.elc1 (pin % 8) newstate }

-- The second half of `vatpic_notify_intr`: the master tells the CPU.
unfoldable pub notify_master : Vatpic → Vatpic
notify_master v =
    if not v.master.intr_raised && pending v.master
    then record v {
      master = record m { intr_raised = true };
      signals = ioapic_pulse ∷ local_lint0 ∷ v.signals;
    }
    else v
  where
    m : Atpic
    m = v.master

-- The slave has an interrupt that it has not raised yet.
abbrev pub slave_wants : Vatpic → Bool
slave_wants v = not v.slave.intr_raised && pending v.slave

abbrev pub raise_slave : Vatpic → Vatpic
raise_slave v = let s = v.slave in record v { slave = record s { intr_raised = true } }

-- `vatpic_notify_intr`, with its calls of itself by way of `vatpic_set_pinstate` as `again`: the
-- slave's request is cascaded to pin 2 of the master.
unfoldable pub notify_body : (Vatpic → Option Vatpic) → Vatpic → Option Vatpic
notify_body again v =
    if slave_wants v
    then (do
      up ← again (move_line (raise_slave v) 2 true)
      down ← again (move_line up 2 false)
      some (notify_master down))
    else some (notify_master v)

-- `none` means that the fuel has run out.
unfoldable pub notify_fuel : ℕ → Vatpic → Option Vatpic
notify_fuel zero v = none
notify_fuel (suc fuel) v = notify_body (notify_fuel fuel) v

abbrev from_some : Vatpic → Option Vatpic → Vatpic
from_some v none = v
from_some v (some w) = w

-- Two rounds are always enough: `notify_returns` in `Pair.Notify`.
unfoldable pub notify_intr : Vatpic → Vatpic
notify_intr v = from_some v (notify_fuel 2 v)

unfoldable pub set_pinstate : Vatpic → ℕ → Bool → Vatpic
set_pinstate v pin newstate = notify_intr (move_line v pin newstate)

-- the chip `atpic[which >> 3]`
abbrev pub chip_of : Vatpic → ℕ → Atpic
chip_of v irq = if irq / 8 == 0 then v.master else v.slave

-- `vatpic_set_irqstate`, for irqs that are not negative
unfoldable pub set_irqstate : Vatpic → ℕ → IrqState → Vatpic × Status
set_irqstate v irq irqstate =
    if ltb 15 irq then (v, einval) else if not (chip_of v irq).ready then (v, ok) else (
      elim irqstate [
        | assert ↦ set_pinstate v irq true
        | deassert ↦ set_pinstate v irq false
        | pulse ↦ set_pinstate (set_pinstate v irq true) irq false
      ],
      ok,
    )

abbrev is_level : Trigger → Bool
is_level level = true
is_level edge = false

-- the IRQs that must be edge triggered
abbrev pub edge_only : ℕ → Bool
edge_only irq = irq == 0 || irq == 1 || irq == 2 || irq == 8 || irq == 13

unfoldable pub set_irq_trigger : Vatpic → ℕ → Trigger → Vatpic × Status
set_irq_trigger v irq trigger =
    if ltb 15 irq then (v, einval) else if is_level trigger && edge_only irq then (v, einval) else (
      if irq / 8 == 0 then record v { elc0 = moved v.elc0 } else record v { elc1 = moved v.elc1 },
      ok,
    )
  where
    moved : ℕ → ℕ
    moved elc = if is_level trigger then set_bit elc (irq % 8) else clear_bit elc (irq % 8)

abbrev pub pin_or_spurious : Option ℕ → ℕ
pin_or_spurious none = 7
pin_or_spurious (some pin) = pin

-- `vatpic_pending_intr`: the vector; pin 2 of the master leads to the slave, and with no pin
-- active it is the spurious vector.
unfoldable pub pending_intr : Vatpic → ℕ
pending_intr v =
    if from_slave (get_highest_irrpin v.master)
    then v.slave.irq_base + pin_or_spurious (get_highest_irrpin v.slave)
    else v.master.irq_base + pin_or_spurious (get_highest_irrpin v.master)
  where
    from_slave : Option ℕ → Bool
    from_slave none = false
    from_slave (some pin) = pin == 2

-- `vatpic_intr_accepted`; `vector & ~0x7` is `vector - vector % 8`.
unfoldable pub intr_accepted : Vatpic → ℕ → Vatpic
intr_accepted v vector = notify_intr accepted
  where
    accepted : Vatpic
    accepted =
        if vector - vector % 8 == v.slave.irq_base
        then record v {
          slave = pin_accepted v.slave (vector % 8);
          master = pin_accepted v.master 2;
        }
        else record v { master = pin_accepted v.master (vector % 8) }
