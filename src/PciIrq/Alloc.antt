-- ===== src/PciIrq/Alloc.antt =====
-- The choice of a pin and of an IRQ, `pirq_alloc_pin`.
use bhyve_experiments.Base.{ℕ, suc, ◌+◌, ◌≤◌, ◌<◌, ◌≡◌, ◌≢◌, refl, ap, ◌∙◌, subst, true, false, not}
use bhyve_experiments.Base.{
  inl, inr, Bool-cases, List, [], ◌∷◌, arith, some, none, Option, ◌==◌, ◌&&◌,
}
use bhyve_experiments.Base.{length, get_or, ltb, ltb→lt}
use native.Mathlib.Decide.{dec_lt}
use bhyve_experiments.PciIrq.{Pirq, fresh_pirq, find_pin, better_irq, find_irq}
use bhyve_experiments.PciIrq.{irq_disabled}

below-suc : (P : ℕ → Type 0) (n : ℕ) → ((j : ℕ) → j < n → P j) → P n → (j : ℕ) → j < n + 1 → P j
below-suc P n below here j h = elim (dec_lt j n) [
  | yes p ↦ below j p
  | no p ↦ let same_j : n ≡ j = omega arith in subst P same_j here
]

-- the first entry is that of the round, the others those of the rounds after it
tail_entries :
    (p : Pirq) (ps : List Pirq) (count : ℕ → ℕ) (pin : ℕ)
    → ((j : ℕ) → j < length (p ∷ ps) → (get_or (p ∷ ps) j fresh_pirq).use_count ≡ count (pin + j))
    → (p.use_count ≡ count pin)
      × ((j : ℕ) → j < length ps → (get_or ps j fresh_pirq).use_count ≡ count (pin + 1 + j))
tail_entries p ps count pin h = (
  h 0 (omega arith) ∙ ap count (omega arith),
  λ j l. h (suc j) (omega arith) ∙ ap count (omega arith),
)

not_less : (a b : ℕ) → ltb a b ≡ false → b ≤ a
not_less a b h = ground arith

pub find_pin_least :
    (count : ℕ → ℕ) (ps : List Pirq) (pin best : ℕ)
    → ((j : ℕ) → j < length ps → (get_or ps j fresh_pirq).use_count ≡ count (pin + j))
    → best < pin
    → ((j : ℕ) → j < pin → count best ≤ count j)
    → let b = find_pin ps pin best (count best) in
      (b < pin + length ps) × ((j : ℕ) → j < pin + length ps → count b ≤ count j)
unfolding find_pin
find_pin_least count [] pin best h l m = (omega arith, λ j lt. m j (omega arith))
find_pin_least count (p ∷ ps) pin best h l m =
    let (first, others) = tail_entries p ps count pin h in
    elim (Bool-cases (ltb p.use_count (count best))) [
      | inl e ↦
          rw (e, first)
            (let better : (j : ℕ) → j < pin → count pin ≤ count j =
                λ j lt. omega (arith, m j lt, ltb→lt p.use_count (count best) e, first) in
              let (b_lt, b_least) =
                find_pin_least count ps (pin + 1) pin others (omega arith)
                  (below-suc (λ j. count pin ≤ count j) pin better (omega arith)) in
              (omega arith, λ j lt. b_least j (omega arith)))
      | inr e ↦ rw e (
          let (b_lt, b_least) = find_pin_least count ps (pin + 1) best others (omega arith) (
            below-suc (λ j. count best ≤ count j) pin m
              (omega (arith, not_less p.use_count (count best) e, first))) in
          (omega arith, λ j lt. b_least j (omega arith)))
    ]

-- What the scan over the IRQs below `irq` has found: an enabled one of the smallest count.
abbrev pub Best : (ℕ → ℕ) → ℕ → Option (ℕ × ℕ) → Type 0
Best count irq none = (j : ℕ) → j < irq → count j ≡ irq_disabled
Best count irq (some (best, least)) =
    (best < irq)
    × (least ≡ count best)
    × (least ≢ irq_disabled)
    × ((j : ℕ) → j < irq → count j ≢ irq_disabled → least ≤ count j)

is_disabled : (c : ℕ) → (c == irq_disabled) ≡ true → c ≡ irq_disabled
is_disabled c h = ground arith

is_enabled : (c : ℕ) → (c == irq_disabled) ≡ false → c ≢ irq_disabled
is_enabled c h = ground arith

takes :
    (c least : ℕ)
    → (not (c == irq_disabled) && ltb c least) ≡ true
    → (c ≢ irq_disabled) × (c < least)
takes c least h = ground arith

keeps :
    (c least : ℕ) → (not (c == irq_disabled) && ltb c least) ≡ false → c ≢ irq_disabled → least ≤ c
keeps c least h d = ground arith

better_irq-Best :
    (count : ℕ → ℕ) (irq : ℕ) (best : Option (ℕ × ℕ))
    → Best count irq best
    → Best count (irq + 1) (better_irq (count irq) irq best)
unfolding better_irq
better_irq-Best count irq none h = elim (Bool-cases (count irq == irq_disabled)) [
  | inl e ↦ rw e (below-suc (λ j. count j ≡ irq_disabled) irq h (is_disabled (count irq) e))
  | inr e ↦ rw e (
    omega arith,
    refl,
    is_enabled (count irq) e,
    below-suc (λ j. count j ≢ irq_disabled → count irq ≤ count j) irq (λ j l d. absurd (d (h j l)))
        (λ d. omega arith),
  )
]
better_irq-Best count irq (some (b, least)) (b_lt, at_b, enabled, below) =
    elim (Bool-cases (not (count irq == irq_disabled) && ltb (count irq) least)) [
      | inl e ↦ rw e (
        omega arith,
        refl,
        (takes (count irq) least e).0,
        below-suc (λ j. count j ≢ irq_disabled → count irq ≤ count j) irq
            (λ j l d. omega (arith, below j l d, (takes (count irq) least e).1)) (λ d. omega arith),
      )
      | inr e ↦ rw e (
        omega arith,
        at_b,
        enabled,
        below-suc (λ j. count j ≢ irq_disabled → least ≤ count j) irq below
            (keeps (count irq) least e),
      )
    ]

pub find_irq-Best :
    (count : ℕ → ℕ) (counts : List ℕ) (irq : ℕ) (best : Option (ℕ × ℕ))
    → ((j : ℕ) → j < length counts → get_or counts j 0 ≡ count (irq + j))
    → Best count irq best
    → Best count (irq + length counts) (find_irq counts irq best)
unfolding find_irq
find_irq-Best count [] irq best h b =
    let none_left : irq ≡ irq + 0 = omega arith in subst (λ k. Best count k best) none_left b
find_irq-Best count (c ∷ counts) irq best h b =
    let first : c ≡ count irq = h 0 (omega arith) ∙ ap count (omega arith) in
    let ends : irq + 1 + length counts ≡ irq + suc (length counts) = omega arith in
    let found =
      find_irq-Best count counts (irq + 1) (better_irq c irq best)
        (λ j l. h (suc j) (omega arith) ∙ ap count (omega arith))
        (rw first (better_irq-Best count irq best b)) in
    subst (λ k. Best count k (find_irq counts (irq + 1) (better_irq c irq best))) ends found
