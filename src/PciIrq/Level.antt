-- ===== src/PciIrq/Level.antt =====
-- The IRQ lines that the pins of the router share.
use bhyve_experiments.Base.{ℕ, zero, suc, ◌+◌, ◌<◌, ◌≡◌, Bool, ◌&&◌}
use bhyve_experiments.Base.{List, [], ◌∷◌, ◌++◌, arith, if◌then◌else◌, ◌==◌}
use bhyve_experiments.Base.{length, get_or, set}
use bhyve_experiments.Base.Int.{pos, incr, decr}
use bhyve_experiments.PciIrq.{
  Pirq, Signal, Router, isa_assert, isa_deassert, ioapic_assert, ioapic_deassert,
}
use bhyve_experiments.PciIrq.{level_trigger, the_irq, drives, fresh_pirq, update}
use bhyve_experiments.PciIrq.{pirq_at, write_pirq, assert_pirq, deassert_pirq}

abbrev pub one : Bool → ℕ
one b = if b then 1 else 0

-- how often IRQ `n` was asserted and deasserted
abbrev pub asserts : ℕ → List Signal → ℕ
asserts n [] = 0
asserts n (isa_assert irq _ ∷ s) = one (irq == n) + asserts n s
asserts n (isa_deassert irq _ ∷ s) = asserts n s
asserts n (ioapic_assert _ ∷ s) = asserts n s
asserts n (ioapic_deassert _ ∷ s) = asserts n s
asserts n (level_trigger _ ∷ s) = asserts n s

abbrev pub deasserts : ℕ → List Signal → ℕ
deasserts n [] = 0
deasserts n (isa_assert irq _ ∷ s) = deasserts n s
deasserts n (isa_deassert irq _ ∷ s) = one (irq == n) + deasserts n s
deasserts n (ioapic_assert _ ∷ s) = deasserts n s
deasserts n (ioapic_deassert _ ∷ s) = deasserts n s
deasserts n (level_trigger _ ∷ s) = deasserts n s

-- The pin has an active device and is routed to IRQ `n`.
abbrev pub routed : ℕ → Pirq → Bool
routed n p = drives p && (the_irq p == n)

abbrev pub driving : ℕ → List Pirq → ℕ
driving n [] = 0
driving n (p ∷ ps) = one (routed n p) + driving n ps

-- What a change of one pin calls, and the change, agree on the line `n`.
abbrev pub Agree : ℕ → Pirq → Pirq × List Signal → Type 0
Agree n p (p', called) =
    asserts n called + one (routed n p) ≡ deasserts n called + one (routed n p')

pub write_pirq-Agree : (n : ℕ) (p : Pirq) (val : ℕ) → Agree n p (write_pirq p val)
unfolding write_pirq
write_pirq-Agree n p val = ground arith

pub assert_pirq-Agree :
    (n : ℕ) (p : Pirq) (io k : ℕ) → p.active_count ≡ pos k → Agree n p (assert_pirq p io)
unfolding assert_pirq incr
assert_pirq-Agree n p io k h = rw h (ground arith)

pub deassert_pirq-Agree :
    (n : ℕ) (p : Pirq) (io k : ℕ) → p.active_count ≡ pos (suc k) → Agree n p (deassert_pirq p io)
unfolding deassert_pirq decr
deassert_pirq-Agree n p io k h = rw h (ground arith)

pub asserts-append : (n : ℕ) (s t : List Signal) → asserts n (s ++ t) ≡ asserts n s + asserts n t
asserts-append n [] t = omega arith
asserts-append n (isa_assert irq _ ∷ s) t = omega (arith, asserts-append n s t)
asserts-append n (isa_deassert irq _ ∷ s) t = asserts-append n s t
asserts-append n (ioapic_assert _ ∷ s) t = asserts-append n s t
asserts-append n (ioapic_deassert _ ∷ s) t = asserts-append n s t
asserts-append n (level_trigger _ ∷ s) t = asserts-append n s t

pub deasserts-append :
    (n : ℕ) (s t : List Signal) → deasserts n (s ++ t) ≡ deasserts n s + deasserts n t
deasserts-append n [] t = omega arith
deasserts-append n (isa_assert irq _ ∷ s) t = deasserts-append n s t
deasserts-append n (isa_deassert irq _ ∷ s) t = omega (arith, deasserts-append n s t)
deasserts-append n (ioapic_assert _ ∷ s) t = deasserts-append n s t
deasserts-append n (ioapic_deassert _ ∷ s) t = deasserts-append n s t
deasserts-append n (level_trigger _ ∷ s) t = deasserts-append n s t

pub driving-set :
    (n : ℕ) (ps : List Pirq) (i : ℕ) (p : Pirq)
    → i < length ps
    → driving n (set ps i p) + one (routed n (get_or ps i fresh_pirq))
      ≡ driving n ps + one (routed n p)
driving-set n [] i p h = absurd (omega arith)
driving-set n (x ∷ ps) zero p h = omega arith
driving-set n (x ∷ ps) (suc i) p h = omega (arith, driving-set n ps i p (omega arith))

-- Each assertion of IRQ `n` was undone, except one for each pin that drives it.
abbrev pub Balanced : ℕ → Router → Type 0
Balanced n r = asserts n r.signals ≡ deasserts n r.signals + driving n r.pirqs

pub update-Balanced :
    (n : ℕ) (r : Router) (i : ℕ) (change : Pirq × List Signal)
    → i < length r.pirqs
    → Agree n (pirq_at r i) change
    → Balanced n r
    → Balanced n (update r i change)
update-Balanced n r i (p, called) h a b = omega (
  arith,
  asserts-append n r.signals called,
  deasserts-append n r.signals called,
  driving-set n r.pirqs i p h,
)
