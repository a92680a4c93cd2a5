-- ===== src/Vlapic/Vectors/Laws.antt =====
-- What a register of vectors holds after a vector is set or cleared, and which one is the highest.
use bhyve_experiments.Base.{
  ℕ, zero, suc, ◌+◌, ◌-◌, ◌*◌, ◌/◌, ◌%◌, ◌^◌, ◌<◌, ◌≡◌, ◌≢◌, inl, inr, refl, sym, ap, ◌∙◌, arith,
  Bool, true, false, not, ◌&&◌, ◌||◌, List, Option, none, some, bit_and, bit_or, bit_xor, get_or,
  length, set, if◌then◌else◌, ◌==◌, ltb, Bool-cases, get_or-set_self, get_or-set_ne, length-set,
  subst,
}
use bhyve_experiments.Base.Bits.{any_of, all_below, all_below_at}
use bhyve_experiments.Base.Words.{digit, digit-le, digit-bit_and, digit-bit_or, any_of-pow}
use bhyve_experiments.Vlapic.Vectors.{
  has_vec, set_vec, clear_vec, word_of, fls_below, fls, highest_below, highest,
}

abbrev power_digit : ℕ → ℕ → Bool
power_digit k j = digit j (2 ^ k) == (if k == j then 1 else 0)

abbrev mask_digit : ℕ → ℕ → Bool
mask_digit k j = digit j (bit_xor 0xffffffff (2 ^ k)) == (if k == j then 0 else 1)

power_table : all_below 32 (λ k. all_below 32 (λ j. power_digit k j && mask_digit k j)) ≡ true
unfolding all_below
power_table = refl

power_at :
    (k j : ℕ)
    → k < 32
    → j < 32
    → (digit j (2 ^ k) ≡ (if k == j then 1 else 0))
      × (digit j (bit_xor 0xffffffff (2 ^ k)) ≡ (if k == j then 0 else 1))
power_at k j hk hj =
    let at =
      all_below_at 32 j (λ i. power_digit k i && mask_digit k i)
        (all_below_at 32 k (λ i. all_below 32 (λ n. power_digit i n && mask_digit i n)) power_table
          hk)
        hj in
    (ground arith, ground arith)

set_word :
    (x k j : ℕ) → k < 32 → j < 32 → any_of (bit_or x (2 ^ k)) (2 ^ j) ≡ (k == j || any_of x (2 ^ j))
set_word x k j hk hj =
    any_of-pow j (bit_or x (2 ^ k))
    ∙ ap (λ d. d == 1) (digit-bit_or j x (2 ^ k))
    ∙ ground (arith, (power_at k j hk hj).0, digit-le j x)
    ∙ ap (λ b. k == j || b) (sym (any_of-pow j x))

clear_word :
    (x k j : ℕ)
    → k < 32
    → j < 32
    → any_of (bit_and x (bit_xor 0xffffffff (2 ^ k))) (2 ^ j) ≡ (not (k == j) && any_of x (2 ^ j))
clear_word x k j hk hj =
    any_of-pow j (bit_and x (bit_xor 0xffffffff (2 ^ k)))
    ∙ ap (λ d. d == 1) (digit-bit_and j x (bit_xor 0xffffffff (2 ^ k)))
    ∙ ground (arith, (power_at k j hk hj).1, digit-le j x)
    ∙ ap (λ b. not (k == j) && b) (sym (any_of-pow j x))

-- A register that holds what `f` makes of one of its words at the place of that word
module _ (w : List ℕ) (v u x : ℕ) where
  here : v / 32 ≡ u / 32 → v / 32 < length w → word_of (set w (v / 32) x) u ≡ x
  here e h = ap (λ i. get_or (set w (v / 32) x) i 0) (sym e) ∙ get_or-set_self w (v / 32) x 0 h

  elsewhere : v / 32 ≢ u / 32 → word_of (set w (v / 32) x) u ≡ word_of w u
  elsewhere d = get_or-set_ne w (v / 32) (u / 32) x 0 d

pub has_vec-set_vec :
    (w : List ℕ) (v u : ℕ)
    → length w ≡ 8
    → v < 256
    → has_vec (set_vec w v) u ≡ (v == u || has_vec w u)
unfolding has_vec set_vec
has_vec-set_vec w v u l h = elim (Bool-cases (v / 32 == u / 32)) [
  | inl e ↦
      let q : v / 32 ≡ u / 32 = ground arith in
      let place : (v % 32 == u % 32) ≡ (v == u) = ground arith in
      ap (λ x. any_of x (2 ^ (u % 32)))
        (here w v u (bit_or (word_of w v) (2 ^ (v % 32))) q (omega arith))
      ∙ set_word (word_of w v) (v % 32) (u % 32) (omega arith) (omega arith)
      ∙ ap (λ b. b || any_of (word_of w v) (2 ^ (u % 32))) place
      ∙ ap (λ i. v == u || any_of (get_or w i 0) (2 ^ (u % 32))) q
  | inr e ↦
      let q : v / 32 ≢ u / 32 = ground arith in
      let place : (v == u) ≡ false = ground arith in
      ap (λ x. any_of x (2 ^ (u % 32))) (elsewhere w v u (bit_or (word_of w v) (2 ^ (v % 32))) q)
      ∙ ap (λ b. b || any_of (word_of w u) (2 ^ (u % 32))) (sym place)
]

pub has_vec-clear_vec :
    (w : List ℕ) (v u : ℕ)
    → length w ≡ 8
    → v < 256
    → has_vec (clear_vec w v) u ≡ (not (v == u) && has_vec w u)
unfolding has_vec clear_vec
has_vec-clear_vec w v u l h = elim (Bool-cases (v / 32 == u / 32)) [
  | inl e ↦
      let q : v / 32 ≡ u / 32 = ground arith in
      let place : (v % 32 == u % 32) ≡ (v == u) = ground arith in
      ap (λ x. any_of x (2 ^ (u % 32)))
        (here w v u (bit_and (word_of w v) (bit_xor 0xffffffff (2 ^ (v % 32)))) q (omega arith))
      ∙ clear_word (word_of w v) (v % 32) (u % 32) (omega arith) (omega arith)
      ∙ ap (λ b. not b && any_of (word_of w v) (2 ^ (u % 32))) place
      ∙ ap (λ i. not (v == u) && any_of (get_or w i 0) (2 ^ (u % 32))) q
  | inr e ↦
      let q : v / 32 ≢ u / 32 = ground arith in
      let place : (v == u) ≡ false = ground arith in
      ap (λ x. any_of x (2 ^ (u % 32)))
        (elsewhere w v u (bit_and (word_of w v) (bit_xor 0xffffffff (2 ^ (v % 32)))) q)
      ∙ ap (λ b. not b && any_of (word_of w u) (2 ^ (u % 32))) (sym place)
]

pub length-set_vec : (w : List ℕ) (v : ℕ) → length (set_vec w v) ≡ length w
unfolding set_vec
length-set_vec w v = length-set w (v / 32) (bit_or (word_of w v) (2 ^ (v % 32)))

pub length-clear_vec : (w : List ℕ) (v : ℕ) → length (clear_vec w v) ≡ length w
unfolding clear_vec
length-clear_vec w v =
    length-set w (v / 32) (bit_and (word_of w v) (bit_xor 0xffffffff (2 ^ (v % 32))))

-- the highest bit that is set among the `n` lowest, if there is one
data Fls (n x : ℕ) : ℕ → Type 0 where
  no_bit : ((j : ℕ) → j < n → any_of x (2 ^ j) ≡ false) → Fls n x 0
  top_bit :
      (k : ℕ)
      → k < n
      → any_of x (2 ^ k) ≡ true
      → ((j : ℕ) → k < j → j < n → any_of x (2 ^ j) ≡ false)
      → Fls n x (k + 1)

fls_below-Fls : (n x : ℕ) → Fls n x (fls_below n x)
unfolding fls_below
fls_below-Fls zero x = no_bit (λ j h. absurd (omega arith))
fls_below-Fls (suc n) x = elim (Bool-cases (any_of x (2 ^ n))) [
  | inl e ↦ rw e (top_bit n (omega arith) e (λ j l h. absurd (omega arith)))
  | inr e ↦ rw e (without n x (fls_below n x) e (fls_below-Fls n x))
]
  where
    at_top : (n x j : ℕ) → any_of x (2 ^ n) ≡ false → j ≡ n → any_of x (2 ^ j) ≡ false
    at_top n x j e q = ap (λ i. any_of x (2 ^ i)) q ∙ e

    without : (n x r : ℕ) → any_of x (2 ^ n) ≡ false → Fls n x r → Fls (suc n) x r
    without n x _ e (no_bit none_set) = no_bit (λ j h. elim (Bool-cases (j == n)) [
      | inl q ↦ at_top n x j e (ground arith)
      | inr q ↦ none_set j (ground arith)
    ])
    without n x _ e (top_bit k l is_set above) = top_bit k (omega arith) is_set (λ j g h.
        elim (Bool-cases (j == n)) [
          | inl q ↦ at_top n x j e (ground arith)
          | inr q ↦ above j g (ground arith)
        ])

-- the highest vector below `m`, if there is one
pub data Highest (m : ℕ) (w : List ℕ) : Option ℕ → Type 0 where
  no_vec : ((u : ℕ) → u < m → has_vec w u ≡ false) → Highest m w none
  top_vec :
      (v : ℕ)
      → v < m
      → has_vec w v ≡ true
      → ((u : ℕ) → v < u → u < m → has_vec w u ≡ false)
      → Highest m w (some v)

in_word :
    (w : List ℕ) (i j u : ℕ) → u ≡ i * 32 + j → j < 32 → has_vec w u ≡ any_of (get_or w i 0) (2 ^ j)
unfolding has_vec
in_word w i j u e h =
    let quotient : u / 32 ≡ i = omega arith in
    let rest : u % 32 ≡ j = omega arith in
    ap (λ q. any_of (get_or w q 0) (2 ^ (u % 32))) quotient
    ∙ ap (λ r. any_of (get_or w i 0) (2 ^ r)) rest

-- one word more
next_word :
    (w : List ℕ) (i b : ℕ) (o : Option ℕ)
    → Fls 32 (get_or w i 0) b
    → Highest (i * 32) w o
    → Highest (suc i * 32) w (if b == 0 then o else some (i * 32 + (b - 1)))
next_word w i _ _ (no_bit clear) (no_vec none_below) = no_vec (λ u h.
    elim (Bool-cases (ltb u (i * 32))) [
      | inl e ↦ none_below u (ground arith)
      | inr e ↦
          in_word w i (u - i * 32) u (ground arith) (ground arith)
          ∙ clear (u - i * 32) (ground arith)
    ])
next_word w i _ _ (no_bit clear) (top_vec v l there above) = top_vec v (omega arith) there (λ u g h.
    elim (Bool-cases (ltb u (i * 32))) [
      | inl e ↦ above u g (ground arith)
      | inr e ↦
          in_word w i (u - i * 32) u (ground arith) (ground arith)
          ∙ clear (u - i * 32) (ground arith)
    ])
next_word w i _ o (top_bit k l is_set above) rest =
    let some_bit : (k + 1 == 0) ≡ false = ground arith in
    rw some_bit (
      top_vec (i * 32 + (k + 1 - 1)) (omega arith)
        (in_word w i k (i * 32 + (k + 1 - 1)) (omega arith) l ∙ is_set)
        (λ u g h.
          in_word w i (u - i * 32) u (omega arith) (omega arith)
          ∙ above (u - i * 32) (omega arith) (omega arith)))

highest_below-Highest : (i : ℕ) (w : List ℕ) → Highest (i * 32) w (highest_below i w)
unfolding highest_below
highest_below-Highest zero w = no_vec (λ u h. absurd (omega arith))
highest_below-Highest (suc i) w =
    next_word w i (fls (get_or w i 0)) (highest_below i w) (fls_below-Fls 32 (get_or w i 0))
      (highest_below-Highest i w)

-- The loop finds the highest of the 256 vectors that is set.
pub highest-Highest : (w : List ℕ) → Highest 256 w (highest w)
highest-Highest w = highest_below-Highest 8 w

some_same : (t v : ℕ) → some t ≡ some v → t ≡ v
some_same t v q = cc

pub highest-some :
    (w : List ℕ) (v : ℕ)
    → highest w ≡ some v
    → (v < 256) × (has_vec w v ≡ true) × ((u : ℕ) → v < u → u < 256 → has_vec w u ≡ false)
highest-some w v e = at (highest w) (highest-Highest w) e
  where
    at :
        (o : Option ℕ)
        → Highest 256 w o
        → o ≡ some v
        → (v < 256) × (has_vec w v ≡ true) × ((u : ℕ) → v < u → u < 256 → has_vec w u ≡ false)
    at _ (no_vec clear) q = cc
    at _ (top_vec t l there above) q =
        subst
          (λ r.
            (r < 256) × (has_vec w r ≡ true) × ((u : ℕ) → r < u → u < 256 → has_vec w u ≡ false))
          (some_same t v q) (l, there, above)

pub highest-none : (w : List ℕ) → highest w ≡ none → (u : ℕ) → u < 256 → has_vec w u ≡ false
highest-none w e = at (highest w) (highest-Highest w) e
  where
    at : (o : Option ℕ) → Highest 256 w o → o ≡ none → (u : ℕ) → u < 256 → has_vec w u ≡ false
    at _ (no_vec clear) q = clear
    at _ (top_vec t l there above) q = cc
