-- ===== src/PciIrq/Calls.antt =====
-- The calls of the guest and of the devices keep the tables in order and the lines at their levels.
use bhyve_experiments.Base.{ℕ, suc, ◌+◌, ◌-◌, ◌<◌, ◌≡◌, refl, true}
use bhyve_experiments.Base.{
  inl, inr, Bool-cases, List, [], ◌∷◌, ◌++◌, arith, some, none, Option, ◌==◌,
}
use bhyve_experiments.Base.{◌⊎◌}
use bhyve_experiments.Base.Int.{pos}
use bhyve_experiments.PciIrq.{Pirq, Signal, Router, Devinst, pirq_at}
use bhyve_experiments.PciIrq.{write_pirq, assert_pirq, deassert_pirq, update, pirq_write, pin_ok}
use bhyve_experiments.PciIrq.{pci_irq_assert, pci_irq_deassert}
use bhyve_experiments.PciIrq.{ioapic_assert, ioapic_deassert}
use bhyve_experiments.PciIrq.Level.{
  Balanced, update-Balanced, write_pirq-Agree, assert_pirq-Agree, deassert_pirq-Agree,
}
use bhyve_experiments.PciIrq.Level.{
  asserts, deasserts, asserts-append, deasserts-append, routed, one,
}
use bhyve_experiments.PciIrq.Valid.{IsValid, PirqIsValid}
use bhyve_experiments.PciIrq.Valid.{
  write_pirq-IsValid, assert_pirq-IsValid, deassert_pirq-IsValid, update-IsValid,
}

-- the tables are in order, and every IRQ line has the level that the pins call for
abbrev pub Good : Router → Type 0
Good r = IsValid r × ((n : ℕ) → Balanced n r)

-- If there is a result, it satisfies the predicate.
abbrev pub All {ℓ} : {A : Type ℓ} → (A → Type 0) → Option A → Type 0
All P none = Unit
All P (some a) = P a

pin_index : (pin : ℕ) → pin_ok pin ≡ true → pin - 1 < 8
pin_index pin h = ground arith

pub update-Good :
    (r : Router) (i : ℕ) (change : Pirq × List Signal)
    → i < 8
    → Good r
    → PirqIsValid change.0
    → ((n : ℕ)
        → asserts n change.1 + one (routed n (pirq_at r i))
          ≡ deasserts n change.1 + one (routed n change.0))
    → Good (update r i change)
update-Good r i change l (v, b) h agree = (
  update-IsValid r i change l v h,
  λ n. update-Balanced n r i change (omega (arith, v.width)) (agree n) (b n),
)

pub pirq_write-Good :
    (r : Router) (pin val : ℕ) → val < 256 → Good r → All Good (pirq_write r pin val)
unfolding pirq_write
pirq_write-Good r pin val h g = elim (Bool-cases (pin_ok pin)) [
  | inl e ↦ rw e (
      update-Good r (pin - 1) (write_pirq (pirq_at r (pin - 1)) val) (pin_index pin e) g
        (write_pirq-IsValid (pirq_at r (pin - 1)) val h (g.0.pins (pin - 1)))
        (λ n. write_pirq-Agree n (pirq_at r (pin - 1)) val))
  | inr e ↦ rw e tt
]

-- a signal that is for the I/O APIC alone
pub signal-Good :
    (r : Router) (s : Signal)
    → ((n : ℕ) → (asserts n (s ∷ []) ≡ 0) × (deasserts n (s ∷ []) ≡ 0))
    → Good r
    → Good (record r { signals = r.signals ++ s ∷ [] })
signal-Good r s silent (v, b) = (
  record { width = v.width; irqs = v.irqs; pins = v.pins; reserved = v.reserved },
  λ n. omega (
    arith,
    b n,
    (silent n).0,
    (silent n).1,
    asserts-append n r.signals (s ∷ []),
    deasserts-append n r.signals (s ∷ []),
  ),
)

pub pci_irq_assert-Good : (r : Router) (pi : Devinst) → Good r → All Good (pci_irq_assert r pi)
unfolding pci_irq_assert
pci_irq_assert-Good r pi g = elim (Bool-cases (pi.pirq_pin == 0)) [
  | inl e ↦ rw e (signal-Good r (ioapic_assert pi.ioapic_irq) (λ n. (refl, refl)) g)
  | inr e ↦ elim (Bool-cases (pin_ok pi.pirq_pin)) [
    | inl ok ↦
        let i = pi.pirq_pin - 1 in
        let (k, active) = (g.0.pins i).0 in
        rw (e, ok)
          (update-Good r i (assert_pirq (pirq_at r i) pi.ioapic_irq) (pin_index pi.pirq_pin ok) g
            (assert_pirq-IsValid (pirq_at r i) pi.ioapic_irq (g.0.pins i))
            (λ n. assert_pirq-Agree n (pirq_at r i) pi.ioapic_irq k active))
    | inr bad ↦ rw (e, bad) tt
  ]
]

-- A device deasserts what is asserted: its pin, if it has one, has an active device.
abbrev pub IsActive : Router → Devinst → Type 0
IsActive r pi =
    (pi.pirq_pin ≡ 0) ⊎ ((k : ℕ) × ((pirq_at r (pi.pirq_pin - 1)).active_count ≡ pos (suc k)))

pub pci_irq_deassert-Good :
    (r : Router) (pi : Devinst) → IsActive r pi → Good r → All Good (pci_irq_deassert r pi)
unfolding pci_irq_deassert
pci_irq_deassert-Good r pi (inl none_pin) g =
    let e : (pi.pirq_pin == 0) ≡ true = ground arith in
    rw e (signal-Good r (ioapic_deassert pi.ioapic_irq) (λ n. (refl, refl)) g)
pci_irq_deassert-Good r pi (inr (k, active)) g = elim (Bool-cases (pi.pirq_pin == 0)) [
  | inl e ↦ rw e (signal-Good r (ioapic_deassert pi.ioapic_irq) (λ n. (refl, refl)) g)
  | inr e ↦ elim (Bool-cases (pin_ok pi.pirq_pin)) [
    | inl ok ↦
        let i = pi.pirq_pin - 1 in
        rw (e, ok)
          (update-Good r i (deassert_pirq (pirq_at r i) pi.ioapic_irq) (pin_index pi.pirq_pin ok) g
            (deassert_pirq-IsValid (pirq_at r i) pi.ioapic_irq k active (g.0.pins i))
            (λ n. deassert_pirq-Agree n (pirq_at r i) pi.ioapic_irq k active))
    | inr bad ↦ rw (e, bad) tt
  ]
]
