-- ===== src/Vatpic/Pair/Valid.antt =====
-- The two controllers stay well formed, and some IRQs can never be level triggered.
use bhyve_experiments.Base.{ℕ, ◌%◌, ◌<◌, Bool, true, false, ◌≡◌}
use bhyve_experiments.Base.{arith, length-set, inl, inr, Bool-cases}
use bhyve_experiments.Base.{if◌then◌else◌, get_or, ◌==◌}
use bhyve_experiments.Base.Int.{pos, incr, decr}
use bhyve_experiments.Base.Bits.{has_bit, set_bit, clear_bit, set_bit-lt, clear_bit-lt}
use bhyve_experiments.Base.Bits.{has_bit-set_bit, has_bit-clear_bit}
use bhyve_experiments.Vatpic.Chip.{Atpic}
use bhyve_experiments.Vatpic.Chip.Valid.{IsChip, pin_accepted-IsChip, zeroed-IsChip}
use bhyve_experiments.Vatpic.Pair.{
  Vatpic, IrqState, Trigger, edge, level, init, move_pin, move_line, notify_master, notify_intr,
  set_pinstate, set_irqstate, set_irq_trigger, intr_accepted, raise_slave, slave_wants,
}
use bhyve_experiments.Vatpic.Pair.Notify.{notify_intr_lem, cascade}

-- the trigger mode of the heart beat timer, the keyboard, the cascade, the clock and the floating
-- point error: IRQs 0, 1, 2, 8 and 13
pub record IsElc (elc0 elc1 : ℕ) : Type 0 where
  pub byte0 : elc0 < 256
  pub byte1 : elc1 < 256
  pub irq0 : has_bit elc0 0 ≡ false
  pub irq1 : has_bit elc0 1 ≡ false
  pub irq2 : has_bit elc0 2 ≡ false
  pub irq8 : has_bit elc1 0 ≡ false
  pub irq13 : has_bit elc1 5 ≡ false

pub record IsValid (v : Vatpic) : Type 0 where
  pub masters : IsChip v.master
  pub slaves : IsChip v.slave
  pub edges : IsElc v.elc0 v.elc1

move_pin-IsChip :
    (a : Atpic) (elc pin : ℕ) (b : Bool) → pin < 8 → IsChip a → IsChip (move_pin a elc pin b)
unfolding move_pin
move_pin-IsChip a elc pin b l c = ground (
  arith,
  set_bit-lt a.request pin c.requests l,
  clear_bit-lt a.request pin c.requests l,
  length-set a.acnt pin (incr (get_or a.acnt pin (pos 0))),
  length-set a.acnt pin (decr (get_or a.acnt pin (pos 0))),
)

pub move_line-IsValid : (v : Vatpic) (pin : ℕ) (b : Bool) → IsValid v → IsValid (move_line v pin b)
unfolding move_line
move_line-IsValid v pin b h = ground (
  arith,
  move_pin-IsChip v.master v.elc0 (pin % 8) b (omega arith) h.masters,
  move_pin-IsChip v.slave v.elc1 (pin % 8) b (omega arith) h.slaves,
)

notify_master-IsValid : (v : Vatpic) → IsValid v → IsValid (notify_master v)
unfolding notify_master
notify_master-IsValid v h = ground arith

raise_slave-IsValid : (v : Vatpic) → IsValid v → IsValid (raise_slave v)
raise_slave-IsValid v h = ground arith

cascade-IsValid : (v : Vatpic) → IsValid v → IsValid (cascade v)
unfolding cascade
cascade-IsValid v h = notify_master-IsValid _ (
    move_line-IsValid _ 2 false
      (notify_master-IsValid _ (move_line-IsValid _ 2 true (raise_slave-IsValid v h))))

pub notify_intr-IsValid : (v : Vatpic) → IsValid v → IsValid (notify_intr v)
notify_intr-IsValid v h = rw (notify_intr_lem v) (notify_master-IsValid _ first)
  where
    first : IsValid (if slave_wants v then cascade v else v)
    first = elim (Bool-cases (slave_wants v)) [
      | inl e ↦ rw e (cascade-IsValid v h)
      | inr e ↦ rw e h
    ]

pub set_pinstate-IsValid :
    (v : Vatpic) (pin : ℕ) (b : Bool) → IsValid v → IsValid (set_pinstate v pin b)
unfolding set_pinstate
set_pinstate-IsValid v pin b h = notify_intr-IsValid _ (move_line-IsValid v pin b h)

-- `vatpic_assert_irq`, `vatpic_deassert_irq` and `vatpic_pulse_irq` keep the invariant.
pub set_irqstate-IsValid :
    (v : Vatpic) (irq : ℕ) (s : IrqState) → IsValid v → IsValid (set_irqstate v irq s).0
unfolding set_irqstate
set_irqstate-IsValid v irq s h = ground (
  arith,
  set_pinstate-IsValid v irq true h,
  set_pinstate-IsValid v irq false h,
  set_pinstate-IsValid (set_pinstate v irq true) irq false (set_pinstate-IsValid v irq true h),
)

-- `vatpic_intr_accepted` keeps the invariant, for any vector.
pub intr_accepted-IsValid : (v : Vatpic) (vector : ℕ) → IsValid v → IsValid (intr_accepted v vector)
unfolding intr_accepted
intr_accepted-IsValid v vector h = notify_intr-IsValid _ (
    ground (
      arith,
      pin_accepted-IsChip v.slave (vector % 8) (omega arith) h.slaves,
      pin_accepted-IsChip v.master (vector % 8) (omega arith) h.masters,
      pin_accepted-IsChip v.master 2 (omega arith) h.masters,
    ))

-- `vatpic_init` sets the invariant up.
pub init-IsValid : IsValid init
unfolding init has_bit
init-IsValid = record { masters = zeroed-IsChip; slaves = zeroed-IsChip; edges = ground arith }

-- Setting or clearing one bit of an edge/level register, other than those that stay clear.
set0-IsElc : (elc0 elc1 k : ℕ) → k < 8 → 2 < k → IsElc elc0 elc1 → IsElc (set_bit elc0 k) elc1
set0-IsElc elc0 elc1 k l p h = ground (
  arith,
  set_bit-lt elc0 k h.byte0 l,
  has_bit-set_bit elc0 k 0 h.byte0 l (omega arith),
  has_bit-set_bit elc0 k 1 h.byte0 l (omega arith),
  has_bit-set_bit elc0 k 2 h.byte0 l (omega arith),
)

set1-IsElc :
    (elc0 elc1 k : ℕ)
    → k < 8
    → (k == 0) ≡ false
    → (k == 5) ≡ false
    → IsElc elc0 elc1
    → IsElc elc0 (set_bit elc1 k)
set1-IsElc elc0 elc1 k l p q h = ground (
  arith,
  set_bit-lt elc1 k h.byte1 l,
  has_bit-set_bit elc1 k 0 h.byte1 l (omega arith),
  has_bit-set_bit elc1 k 5 h.byte1 l (omega arith),
)

clear0-IsElc : (elc0 elc1 k : ℕ) → k < 8 → IsElc elc0 elc1 → IsElc (clear_bit elc0 k) elc1
clear0-IsElc elc0 elc1 k l h = ground (
  arith,
  clear_bit-lt elc0 k h.byte0 l,
  has_bit-clear_bit elc0 k 0 h.byte0 l (omega arith),
  has_bit-clear_bit elc0 k 1 h.byte0 l (omega arith),
  has_bit-clear_bit elc0 k 2 h.byte0 l (omega arith),
)

clear1-IsElc : (elc0 elc1 k : ℕ) → k < 8 → IsElc elc0 elc1 → IsElc elc0 (clear_bit elc1 k)
clear1-IsElc elc0 elc1 k l h = ground (
  arith,
  clear_bit-lt elc1 k h.byte1 l,
  has_bit-clear_bit elc1 k 0 h.byte1 l (omega arith),
  has_bit-clear_bit elc1 k 5 h.byte1 l (omega arith),
)

-- `vatpic_set_irq_trigger` keeps the invariant.
pub set_irq_trigger-IsValid :
    (v : Vatpic) (irq : ℕ) (t : Trigger) → IsValid v → IsValid (set_irq_trigger v irq t).0
unfolding set_irq_trigger
set_irq_trigger-IsValid v irq level h = ground (
  arith,
  set0-IsElc v.elc0 v.elc1 (irq % 8) (omega arith),
  set1-IsElc v.elc0 v.elc1 (irq % 8) (omega arith),
)
set_irq_trigger-IsValid v irq edge h = ground (
  arith,
  clear0-IsElc v.elc0 v.elc1 (irq % 8) (omega arith) h.edges,
  clear1-IsElc v.elc0 v.elc1 (irq % 8) (omega arith) h.edges,
)
