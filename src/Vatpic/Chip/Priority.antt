-- ===== src/Vatpic/Chip/Priority.antt =====
-- The priority logic of a controller, against the levels in the order of rotation.
use bhyve_experiments.Base.{ℕ, zero, suc, ◌+◌, ◌%◌, ◌≤◌, ◌<◌, Bool, true, false, not, ◌&&◌, ◌≡◌}
use bhyve_experiments.Base.{refl, sym, subst, ◌∙◌, inl, inr, none, some, arith, Bool-cases}
use bhyve_experiments.Base.{if◌then◌else◌, ◌==◌}
use bhyve_experiments.Base.Bits.{has_bit, has_bit-clear_bit, all_below, all_below_at}
use native.Mathlib.Decide.{dec_le}
use bhyve_experiments.Vatpic.Chip.{Atpic, scan_isr, scan_irr, serviced}
use bhyve_experiments.Vatpic.Chip.{get_highest_isrpin, get_highest_irrpin}

-- the pin at level `k` of priority, of which 0 is the highest
unfoldable pub nth_pin : Atpic → ℕ → ℕ
nth_pin a k = (a.lowprio + 1 + k) % 8

-- an interrupt is requested at the pin and not masked
abbrev pub wanted : Atpic → ℕ → Bool
wanted a pin = has_bit a.request pin && not (has_bit a.mask pin)

-- the level in service is one that a non-specific end of interrupt clears
abbrev pub ends : Atpic → ℕ → Bool
ends a pin = has_bit a.service pin && not (not (a.smm == 0) && has_bit a.mask pin)

nth_pin-suc : (a : Atpic) (k : ℕ) → (nth_pin a k + 1) % 8 ≡ nth_pin a (suc k)
unfolding nth_pin
nth_pin-suc a k = omega arith

pub nth_pin-lt : (a : Atpic) (k : ℕ) → nth_pin a k < 8
unfolding nth_pin
nth_pin-lt a k = omega arith

-- The pin was found at a level from `k` on: it is wanted, no level from `k` to it is in service,
-- and none before it is wanted.
pub record Found (a : Atpic) (k last pin : ℕ) : Type 0 where
  pub rank : ℕ
  pub from : k ≤ rank
  pub below : rank < last
  pub at : pin ≡ nth_pin a rank
  pub asked : wanted a pin ≡ true
  pub free : (j : ℕ) → k ≤ j → j ≤ rank → has_bit (serviced a) (nth_pin a j) ≡ false
  pub first : (j : ℕ) → k ≤ j → j < rank → wanted a (nth_pin a j) ≡ false

-- a property of the levels from `suc k` on, and of `k`
and_next : (P : ℕ → Type 0) (k j : ℕ) → P k → (suc k ≤ j → P j) → k ≤ j → P j
and_next P k j here later h = elim (dec_le (suc k) j) [
  | yes p ↦ later p
  | no p ↦ let e : k ≡ j = omega arith in subst P e here
]

scan_irr-zero : (pin : ℕ) (a : Atpic) → scan_irr zero pin a ≡ none
unfolding scan_irr
scan_irr-zero pin a = refl

scan_irr-suc :
    (n k : ℕ) (a : Atpic)
    → scan_irr (suc n) (nth_pin a k) a ≡ (
        if has_bit (serviced a) (nth_pin a k)
        then none
        else if wanted a (nth_pin a k)
        then some (nth_pin a k)
        else scan_irr n (nth_pin a (suc k)) a)
unfolding scan_irr
scan_irr-suc n k a = rw (nth_pin-suc a k)

earlier :
    (a : Atpic) (k last pin : ℕ)
    → has_bit (serviced a) (nth_pin a k) ≡ false
    → wanted a (nth_pin a k) ≡ false
    → Found a (suc k) last pin
    → Found a k last pin
earlier a k last pin s w f = record {
  rank = f.rank;
  from = omega arith;
  below = f.below;
  at = f.at;
  asked = f.asked;
  free = λ j p q.
      and_next (λ i. i ≤ f.rank → has_bit (serviced a) (nth_pin a i) ≡ false) k j (λ _. s)
        (λ r. f.free j r) p q;
  first = λ j p q.
      and_next (λ i. i < f.rank → wanted a (nth_pin a i) ≡ false) k j (λ _. w) (λ r. f.first j r) p
        q;
}

only_here :
    (a : Atpic) (k j : ℕ)
    → has_bit (serviced a) (nth_pin a k) ≡ false
    → k ≤ j
    → j ≤ k
    → has_bit (serviced a) (nth_pin a j) ≡ false
only_here a k j s p q =
    let e : k ≡ j = omega arith in subst (λ i. has_bit (serviced a) (nth_pin a i) ≡ false) e s

Found-here :
    (a : Atpic) (k last pin : ℕ)
    → k < last
    → has_bit (serviced a) (nth_pin a k) ≡ false
    → wanted a (nth_pin a k) ≡ true
    → pin ≡ nth_pin a k
    → Found a k last pin
Found-here a k last pin l s w e = record {
  rank = k;
  from = omega arith;
  below = l;
  at = e;
  asked = rw e w;
  free = λ j p q. only_here a k j s p q;
  first = λ j p q. absurd (omega arith);
}

scan_irr-Found :
    (n k last : ℕ) (a : Atpic) (pin : ℕ)
    → n + k ≡ last
    → scan_irr n (nth_pin a k) a ≡ some pin
    → Found a k last pin
scan_irr-Found zero k last a pin e h = cc (scan_irr-zero (nth_pin a k) a)
scan_irr-Found (suc n) k last a pin e h = elim (Bool-cases (has_bit (serviced a) (nth_pin a k))) [
  | inl s ↦ absurd (ground (arith, scan_irr-suc n k a))
  | inr s ↦ elim (Bool-cases (wanted a (nth_pin a k))) [
    | inl w ↦ Found-here a k last pin (omega arith) s w (ground (arith, scan_irr-suc n k a))
    | inr w ↦
        earlier a k last pin s w
          (scan_irr-Found n (suc k) last a pin (omega arith) (ground (arith, scan_irr-suc n k a)))
  ]
]

no_pin :
    (n k i : ℕ) (a : Atpic)
    → scan_irr (suc n) (nth_pin a k) a ≡ none
    → k ≡ i
    → has_bit (serviced a) (nth_pin a k) ≡ false
    → wanted a (nth_pin a i) ≡ true
    → ⊥
no_pin n k i a h e s w = let w' = rw (← e) at w in ground (arith, scan_irr-suc n k a)

scan_irr-none :
    (n k last : ℕ) (a : Atpic)
    → n + k ≡ last
    → scan_irr n (nth_pin a k) a ≡ none
    → (i : ℕ) → k ≤ i
    → i < last
    → wanted a (nth_pin a i) ≡ true
    → (j : ℕ) × (k ≤ j) × (j ≤ i) × (has_bit (serviced a) (nth_pin a j) ≡ true)
scan_irr-none zero k last a e h i p q w = absurd (omega arith)
scan_irr-none (suc n) k last a e h i p q w =
    elim (Bool-cases (has_bit (serviced a) (nth_pin a k))) [
      | inl s ↦ (k, omega arith, p, s)
      | inr s ↦ elim (dec_le (suc k) i) [
        | yes r ↦
            let (j, f, t, b) =
              scan_irr-none n (suc k) last a (omega arith) (ground (arith, scan_irr-suc n k a)) i r
                q w in
            (j, omega arith, t, b)
        | no r ↦ absurd (no_pin n k i a h (omega arith) s w)
      ]
    ]

first_pin : (a : Atpic) → nth_pin a 0 ≡ (a.lowprio + 1) % 8
unfolding nth_pin
first_pin a = omega arith

irrpin-scan : (a : Atpic) → get_highest_irrpin a ≡ scan_irr 8 (nth_pin a 0) a
unfolding get_highest_irrpin
irrpin-scan a = rw (first_pin a)

isrpin-scan : (a : Atpic) → get_highest_isrpin a ≡ scan_isr 8 (nth_pin a 0) a
unfolding get_highest_isrpin
isrpin-scan a = rw (first_pin a)

pub highest_irrpin-Found : (a : Atpic) (pin : ℕ) → get_highest_irrpin a ≡ some pin → Found a 0 8 pin
highest_irrpin-Found a pin h = scan_irr-Found 8 0 8 a pin refl (sym (irrpin-scan a) ∙ h)

-- Does a level in service lock out its own level and those below? In special mask mode none does, and
-- in special fully nested mode that of the slave does not.
abbrev pub locks : Atpic → ℕ → Bool
locks a pin = has_bit a.service pin && (a.smm == 0 && not (a.sfn && pin == 2))

-- The pin at a rank of the priorities is the first one that is wanted, and no level from the highest
-- down to its own locks it out.
pub record FirstWanted (a : Atpic) (pin : ℕ) : Type 0 where
  pub rank : ℕ
  pub small : rank < 8
  pub at_rank : pin ≡ nth_pin a rank
  pub is_wanted : wanted a pin ≡ true
  pub not_locked : (j : ℕ) → j ≤ rank → locks a (nth_pin a j) ≡ false
  pub first_one : (j : ℕ) → j < rank → wanted a (nth_pin a j) ≡ false

no_bits_below : all_below 8 (λ k. not (has_bit 0 k)) ≡ true
unfolding all_below has_bit
no_bits_below = refl

no_bits : (k : ℕ) → k < 8 → has_bit 0 k ≡ false
no_bits k h = let t : not (has_bit 0 k) ≡ true = all_below_at 8 k _ no_bits_below h in ground arith

has_bit-serviced :
    (a : Atpic) (pin : ℕ) → a.service < 256 → pin < 8 → has_bit (serviced a) pin ≡ locks a pin
unfolding serviced
has_bit-serviced a pin byte small = elim (Bool-cases (a.smm == 0)) [
  | inr e ↦ rw e (no_bits pin small ∙ ground arith)
  | inl e ↦ elim (Bool-cases a.sfn) [
    | inr d ↦ rw (e, d) (ground arith)
    | inl d ↦ rw (e, d) (has_bit-clear_bit a.service 2 pin byte (omega arith) small ∙ ground arith)
  ]
]

-- With a service register of 8 bits: the pin that a controller would interrupt for is the first in the
-- order of priority that is requested and not masked, and no level in service, from the highest down to
-- its own, locks it out: in special mask mode none does, and in special fully nested mode that of the
-- slave does not.
pub highest_irrpin_sound :
    (a : Atpic) (pin : ℕ) → a.service < 256 → get_highest_irrpin a ≡ some pin → FirstWanted a pin
highest_irrpin_sound a pin byte h =
    let found = highest_irrpin-Found a pin h in
    record {
      rank = found.rank;
      small = found.below;
      at_rank = found.at;
      is_wanted = found.asked;
      not_locked = λ j l.
          sym (has_bit-serviced a (nth_pin a j) byte (nth_pin-lt a j))
          ∙ found.free j (omega arith) l;
      first_one = λ j l. found.first j (omega arith) l;
    }

-- If a controller finds no pin, every pin that is requested and not masked is locked out by a
-- level in service of the same or a higher priority.
pub highest_irrpin_complete :
    (a : Atpic)
    → get_highest_irrpin a ≡ none
    → (i : ℕ) → i < 8
    → wanted a (nth_pin a i) ≡ true
    → (j : ℕ) × (j ≤ i) × (has_bit (serviced a) (nth_pin a j) ≡ true)
highest_irrpin_complete a h i l w =
    let (j, f, t, b) = scan_irr-none 8 0 8 a refl (sym (irrpin-scan a) ∙ h) i (omega arith) l w in
    (j, t, b)

scan_isr-suc :
    (n k : ℕ) (a : Atpic)
    → scan_isr (suc n) (nth_pin a k) a
      ≡ (if ends a (nth_pin a k) then some (nth_pin a k) else scan_isr n (nth_pin a (suc k)) a)
unfolding scan_isr
scan_isr-suc n k a = rw (nth_pin-suc a k) (ground arith)

-- If the level at rank `i` ends, and none before it, a non-specific end of interrupt ends it.
scan_isr-some :
    (n k i : ℕ) (a : Atpic)
    → k ≤ i
    → i < n + k
    → ends a (nth_pin a i) ≡ true
    → ((j : ℕ) → k ≤ j → j < i → ends a (nth_pin a j) ≡ false)
    → scan_isr n (nth_pin a k) a ≡ some (nth_pin a i)
scan_isr-some zero k i a p q e before = absurd (omega arith)
scan_isr-some (suc n) k i a p q e before = elim (dec_le (suc k) i) [
  | yes r ↦ ground (
    arith,
    before k (omega arith) r,
    scan_isr-suc n k a,
    scan_isr-some n (suc k) i a r (omega arith) e (λ j f t. before j (omega arith) t),
  )
  | no r ↦ let same_rank : i ≡ k = omega arith in ground (arith, scan_isr-suc n k a)
]

-- A non-specific end of interrupt goes to the first level in the order of priority that is in
-- service, and not masked when the special mask mode is on.
pub highest_isrpin_lem :
    (a : Atpic) (i : ℕ)
    → i < 8
    → ends a (nth_pin a i) ≡ true
    → ((j : ℕ) → j < i → ends a (nth_pin a j) ≡ false)
    → get_highest_isrpin a ≡ some (nth_pin a i)
highest_isrpin_lem a i l e before =
    isrpin-scan a ∙ scan_isr-some 8 0 i a (omega arith) (omega arith) e (λ j f t. before j t)
