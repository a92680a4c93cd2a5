-- ===== src/PciIrq/Lines.antt =====
-- A device that asserts its pin and deasserts it again.
use bhyve_experiments.Base.{
  ℕ, zero, suc, ◌+◌, ◌≡◌, refl, sym, ap, ◌∙◌, Bool, true, false, [], ◌∷◌, arith,
}
use bhyve_experiments.Base.{some, if◌then◌else◌, ◌&&◌, ◌==◌}
use bhyve_experiments.Base.Int.{pos, incr, decr, equals}
use bhyve_experiments.PciIrq.{
  Pirq, Signal, assert_pirq, deassert_pirq, isa_assert, isa_deassert, pirq_valid_irq, the_irq,
}
use bhyve_experiments.PciIrq.{ioapic_assert, ioapic_deassert}

-- The pin as the first and as a further device of it finds it
abbrev pub is_first : Pirq → Bool
is_first p = equals p.active_count 0 && pirq_valid_irq p.reg

one_more_back : (k : ℕ) → decr (pos (k + 1)) ≡ pos k
unfolding decr
one_more_back k = let e : k + 1 ≡ suc k = omega arith in rw e

one_more_first : (k : ℕ) → (k + 1 == 1) ≡ (k == 0)
one_more_first zero = refl
one_more_first (suc k) = ground arith

either_one : (b : Bool) (s t : Signal) → (if b then s ∷ [] else t ∷ []) ≡ (if b then s else t) ∷ []
either_one true s t = refl
either_one false s t = refl

-- A device asserts its pin and deasserts it: the pin is as before. The one call to raise a line is
-- undone by one call to lower the same one: the IRQ of the pin if the device was the first on a pin
-- that is enabled, or else the line at the I/O APIC alone. The count of devices was not negative.
pub deassert_pirq-assert_pirq :
    (p : Pirq) (io k : ℕ)
    → p.active_count ≡ pos k
    → let (p', raised) = assert_pirq p io in
      let (p'', lowered) = deassert_pirq p' io in
      (p'' ≡ p)
      × (raised ≡ (if is_first p then isa_assert (the_irq p) (some io) else ioapic_assert io) ∷ [])
      × (lowered
          ≡ (if is_first p then isa_deassert (the_irq p) (some io) else ioapic_deassert io) ∷ [])
unfolding assert_pirq deassert_pirq incr decr
deassert_pirq-assert_pirq p io k h =
    let restored : decr (incr p.active_count) ≡ p.active_count =
      ap (λ z. decr (incr z)) h ∙ one_more_back k ∙ sym h in
    let was_first : equals (incr p.active_count) 1 ≡ equals p.active_count 0 =
      ap (λ z. equals (incr z) 1) h ∙ one_more_first k ∙ sym (ap (λ z. equals z 0) h) in
    (
      ap (λ z. record p { active_count = z }) restored,
      rw was_first (either_one (is_first p) _ _),
      rw restored (either_one (is_first p) _ _),
    )
