-- ===== src/PciIrq.antt =====
-- The router of PCI interrupt pins to IRQs, bios/bhyve/pci_irq.c. A failing `assert` is `none`, and
-- `pirqs` and `irq_counts` are lists of 8 and 16.
pub mod Level
pub mod Alloc
pub mod Valid
pub mod Calls
pub mod Route
pub mod Reach
pub mod Pins
pub mod Lines
mod Tests
use bhyve_experiments.Base.{
  ℕ, zero, suc, ◌+◌, ◌-◌, ◌%◌, ◌^◌, Bool, true, false, not, ◌&&◌, ◌||◌, List, [], ◌∷◌, ◌++◌,
  bit_and,
}
use bhyve_experiments.Base.{
  Option, none, some, ltb, ◌==◌, if◌then◌else◌, get_or, set, drop, replicate, ◌>>=◌,
}
use bhyve_experiments.Base.Bits.{any_of}
use bhyve_experiments.Base.Int.{ℤ, pos, negsuc, incr, decr, equals}

abbrev pub pirq_dis : ℕ
pirq_dis = 0x80

abbrev pub pirq_irq_mask : ℕ
pirq_irq_mask = 0x0f

-- `PIRQ_DIS | PIRQ_IRQ`
abbrev pub pirq_bits : ℕ
pirq_bits = 0x8f

abbrev pub irq_disabled : ℕ
irq_disabled = 0xff

-- `IRQ_PERMITTED`
unfoldable pub irq_permitted : ℕ → Bool
irq_permitted irq = any_of (2 ^ irq) 0xdef8

-- `struct pirq`, less the lock
pub record Pirq : Type 0 where
  pub reg : ℕ
  pub use_count : ℕ
  pub active_count : ℤ

-- What is called outside: an ISA IRQ with the I/O APIC pin that goes with it (`none` is -1), a pin
-- of the I/O APIC alone, and `vm_isa_set_irq_trigger` with `LEVEL_TRIGGER`.
pub data Signal : Type 0 where
  isa_assert : ℕ → Option ℕ → Signal
  isa_deassert : ℕ → Option ℕ → Signal
  ioapic_assert : ℕ → Signal
  ioapic_deassert : ℕ → Signal
  level_trigger : ℕ → Signal

-- The variables of the file, and the calls that were made, oldest first.
pub record Router : Type 0 where
  pub pirqs : List Pirq
  pub irq_counts : List ℕ
  pub pirq_cold : Bool
  pub signals : List Signal

-- The fields of `struct pci_devinst` that the router reads; `pin` and the others of `pi_lintr`.
pub record Devinst : Type 0 where
  pub slot : ℕ
  pub pin : ℕ
  pub pirq_pin : ℕ
  pub ioapic_irq : ℕ

abbrev pub fresh_pirq : Pirq
fresh_pirq = record { reg = pirq_dis; use_count = 0; active_count = pos 0 }

abbrev pub the_irq : Pirq → ℕ
the_irq p = bit_and p.reg pirq_irq_mask

unfoldable pub pirq_valid_irq : ℕ → Bool
pirq_valid_irq reg =
    if any_of reg pirq_dis then false else irq_permitted (bit_and reg pirq_irq_mask)

-- `assert(pin > 0 && pin <= nitems(pirqs))`
abbrev pub pin_ok : ℕ → Bool
pin_ok pin = ltb 0 pin && ltb pin 9

abbrev pub pirq_at : Router → ℕ → Pirq
pirq_at r i = get_or r.pirqs i fresh_pirq

-- One entry of `pirqs` changes, with what it calls.
abbrev pub update : Router → ℕ → Pirq × List Signal → Router
update r i (p, called) = record r { pirqs = set r.pirqs i p; signals = r.signals ++ called }

pub pirq_read : Router → ℕ → Option ℕ
pirq_read r pin = if pin_ok pin then some (pirq_at r (pin - 1)).reg else none

abbrev pub drives : Pirq → Bool
drives p = not (equals p.active_count 0) && pirq_valid_irq p.reg

-- `pirq_write` under the lock
unfoldable pub write_pirq : Pirq → ℕ → Pirq × List Signal
write_pirq p val =
    let p' = record p { reg = bit_and val pirq_bits } in
    if p.reg == bit_and val pirq_bits then (p, []) else (
      p',
      (if drives p then isa_deassert (the_irq p) none ∷ [] else [])
          ++ (if drives p' then isa_assert (the_irq p') none ∷ [] else []),
    )

unfoldable pub pirq_write : Router → ℕ → ℕ → Option Router
pirq_write r pin val =
    if pin_ok pin then some (update r (pin - 1) (write_pirq (pirq_at r (pin - 1)) val)) else none

unfoldable pub pci_irq_reserve : Router → ℕ → Option Router
pci_irq_reserve r irq =
    let count = get_or r.irq_counts irq 0 in
    if ltb irq 16 && r.pirq_cold && (count == 0 || count == irq_disabled)
    then some (record r { irq_counts = set r.irq_counts irq irq_disabled })
    else none

-- The counts are of type u_char.
unfoldable pub pci_irq_use : Router → ℕ → Option Router
pci_irq_use r irq =
    let count = get_or r.irq_counts irq 0 in
    if ltb irq 16 && r.pirq_cold && not (count == irq_disabled)
    then some (record r { irq_counts = set r.irq_counts irq ((count + 1) % 2 ^ 8) })
    else none

-- the counts of `n` IRQs from `irq` on
abbrev pub init_counts : ℕ → ℕ → List ℕ
init_counts zero irq = []
init_counts (suc n) irq = (if irq_permitted irq then 0 else irq_disabled) ∷ init_counts n (irq + 1)

-- The calls made before are kept.
unfoldable pub pci_irq_init : Router → Router
pci_irq_init r = record r { pirqs = replicate 8 fresh_pirq; irq_counts = init_counts 16 0 }

-- `pci_irq_assert` under the lock, with the call that follows it
unfoldable pub assert_pirq : Pirq → ℕ → Pirq × List Signal
assert_pirq p ioapic_irq =
    let p' = record p { active_count = incr p.active_count } in
    (
      p',
      if equals p'.active_count 1 && pirq_valid_irq p.reg
          then isa_assert (the_irq p) (some ioapic_irq) ∷ []
          else ioapic_assert ioapic_irq ∷ [],
    )

unfoldable pub pci_irq_assert : Router → Devinst → Option Router
pci_irq_assert r pi =
    let i = pi.pirq_pin - 1 in
    if pi.pirq_pin == 0
    then some (record r { signals = r.signals ++ ioapic_assert pi.ioapic_irq ∷ [] })
    else if pin_ok pi.pirq_pin
    then some (update r i (assert_pirq (pirq_at r i) pi.ioapic_irq))
    else none

-- `pci_irq_deassert` under the lock, with the call that follows it
unfoldable pub deassert_pirq : Pirq → ℕ → Pirq × List Signal
deassert_pirq p ioapic_irq =
    let p' = record p { active_count = decr p.active_count } in
    (
      p',
      if equals p'.active_count 0 && pirq_valid_irq p.reg
          then isa_deassert (the_irq p) (some ioapic_irq) ∷ []
          else ioapic_deassert ioapic_irq ∷ [],
    )

unfoldable pub pci_irq_deassert : Router → Devinst → Option Router
pci_irq_deassert r pi =
    let i = pi.pirq_pin - 1 in
    if pi.pirq_pin == 0
    then some (record r { signals = r.signals ++ ioapic_deassert pi.ioapic_irq ∷ [] })
    else if pin_ok pi.pirq_pin
    then some (update r i (deassert_pirq (pirq_at r i) pi.ioapic_irq))
    else none

-- The loop over the pins from `pin` on, with `best_pin` and `best_count`
unfoldable pub find_pin : List Pirq → ℕ → ℕ → ℕ → ℕ
find_pin [] pin best_pin best_count = best_pin
find_pin (p ∷ ps) pin best_pin best_count =
    let better = ltb p.use_count best_count in
    find_pin ps (pin + 1) (if better then pin else best_pin)
      (if better then p.use_count else best_count)

-- one round of the loop over the IRQs: `best_irq` with `best_count`, `none` for -1
unfoldable pub better_irq : ℕ → ℕ → Option (ℕ × ℕ) → Option (ℕ × ℕ)
better_irq count irq none = if count == irq_disabled then none else some (irq, count)
better_irq count irq (some (best_irq, best_count)) =
    if not (count == irq_disabled) && ltb count best_count
    then some (irq, count)
    else some (best_irq, best_count)

unfoldable pub find_irq : List ℕ → ℕ → Option (ℕ × ℕ) → Option (ℕ × ℕ)
find_irq [] irq best = best
find_irq (count ∷ counts) irq best = find_irq counts (irq + 1) (better_irq count irq best)

-- `pirqs[best_pin].reg = best_irq` and what goes with it
unfoldable pub route : Router → ℕ → Option (ℕ × ℕ) → Option Router
route r i none = none
route r i (some (irq, count)) = some (record r {
  irq_counts = set r.irq_counts irq ((count + 1) % 2 ^ 8);
  pirqs = set r.pirqs i (record (pirq_at r i) { reg = irq });
  signals = r.signals ++ level_trigger irq ∷ [];
})

-- `bootrom` is the answer of `lpc_bootrom`.
unfoldable pub choose_pin : Bool → Router → Devinst → ℕ
choose_pin bootrom r pi =
    if bootrom
    then (4 + pi.slot + pi.pin) % 8
    else find_pin (drop 1 r.pirqs) 1 0 (pirq_at r 0).use_count

-- `pirqs[best_pin].use_count++`, after which the counts of IRQs are fixed
unfoldable pub use_pin : Router → ℕ → Router
use_pin r i =
    let p = pirq_at r i in
    record r { pirq_cold = false; pirqs = set r.pirqs i (record p { use_count = p.use_count + 1 }) }

unfoldable pub pirq_alloc_pin : Bool → Router → Devinst → Option (Router × ℕ)
pirq_alloc_pin bootrom r pi =
    let i = choose_pin bootrom r pi in
    let p = pirq_at r i in
    let used = record r {
      pirq_cold = false;
      pirqs = set r.pirqs i (record p { use_count = p.use_count + 1 });
    } in
    if p.reg == pirq_dis
    then (do routed ← route used i (find_irq r.irq_counts 0 none); some (routed, i + 1))
    else some (used, i + 1)

pub pirq_irq : Router → ℕ → Option ℕ
pirq_irq r pin = if pin_ok pin then some (the_irq (pirq_at r (pin - 1))) else none
