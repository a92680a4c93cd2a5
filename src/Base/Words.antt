-- ===== src/Base/Words.antt =====
-- The binary digits of `x & y`, `x | y` and `x ^ y` for numbers of every size, and the tests and
-- changes of single bits of a machine word.
use Prim.Native.Nat.{
  ℕ, zero, suc, ◌+◌, ◌*◌, ◌-◌, ◌/◌, ◌%◌, ◌^◌, ◌≤◌, ◌<◌, min, max, bit_and, bit_or, digits, bitwise,
}
use Prim.Native.Nat.{bit_and-bitwise, bit_or-bitwise}
use mathlib.Core.Path.{◌≡◌, refl, ap, ◌∙◌}
use native.Mathlib.Omega.{arith}
use native.Mathlib.Nat.{pow-suc, div-add-mod, add-mul-mod_self_left, mod-eq_of_lt, mod-lt}
use native.Mathlib.Decide.{dec_le}
use mathlib.Core.Logic.{◌⊎◌, inl, inr}
use bhyve_experiments.Base.Tests.{◌==◌}
use bhyve_experiments.Base.Bits.{any_of}

-- digit `k` of a number, from the lowest on
abbrev pub digit : ℕ → ℕ → ℕ
digit zero x = x % 2
digit (suc k) x = digit k (x / 2)

module _ (z : ℕ → ℕ) (f : ℕ → ℕ → ℕ) where
  digits_enough : (n m a b : ℕ) → a ≤ n → a ≤ m → digits z f n a b ≡ digits z f m a b
  digits_enough zero zero a b p q = refl
  digits_enough zero (suc m) zero b p q = refl
  digits_enough zero (suc m) (suc a) b p q = absurd (omega arith)
  digits_enough (suc n) zero zero b p q = refl
  digits_enough (suc n) zero (suc a) b p q = absurd (omega arith)
  digits_enough (suc n) (suc m) zero b p q = refl
  digits_enough (suc n) (suc m) (suc a) b p q =
      ap (λ t. t * 2 + f (suc a % 2) (b % 2))
        (digits_enough n m (suc a / 2) (b / 2) (omega arith) (omega arith))

  bitwise_step :
      ((b : ℕ) → z b ≡ z (b / 2) * 2 + f 0 (b % 2))
      → (a b : ℕ) → bitwise z f a b ≡ bitwise z f (a / 2) (b / 2) * 2 + f (a % 2) (b % 2)
  bitwise_step law zero b = law b
  bitwise_step law (suc a) b =
      ap (λ t. t * 2 + f (suc a % 2) (b % 2))
        (digits_enough a (suc a / 2) (suc a / 2) (b / 2) (omega arith) (omega arith))

pub bit_and_step : (a b : ℕ) → bit_and a b ≡ bit_and (a / 2) (b / 2) * 2 + min (a % 2) (b % 2)
bit_and_step a b = omega (
  arith,
  bit_and-bitwise a b,
  bit_and-bitwise (a / 2) (b / 2),
  bitwise_step (λ n. 0) min (λ n. omega arith) a b,
)

bit_or_step : (a b : ℕ) → bit_or a b ≡ bit_or (a / 2) (b / 2) * 2 + max (a % 2) (b % 2)
bit_or_step a b = omega (
  arith,
  bit_or-bitwise a b,
  bit_or-bitwise (a / 2) (b / 2),
  bitwise_step (λ n. n) max (λ n. omega arith) a b,
)

pub digit-le : (k x : ℕ) → digit k x ≤ 1
digit-le zero x = omega arith
digit-le (suc k) x = digit-le k (x / 2)

pub digit-bit_and : (k a b : ℕ) → digit k (bit_and a b) ≡ min (digit k a) (digit k b)
digit-bit_and zero a b = omega (arith, bit_and_step a b)
digit-bit_and (suc k) a b =
    let half : bit_and a b / 2 ≡ bit_and (a / 2) (b / 2) = omega (arith, bit_and_step a b) in
    ap (digit k) half ∙ digit-bit_and k (a / 2) (b / 2)

pub digit-bit_or : (k a b : ℕ) → digit k (bit_or a b) ≡ max (digit k a) (digit k b)
digit-bit_or zero a b = omega (arith, bit_or_step a b)
digit-bit_or (suc k) a b =
    let half : bit_or a b / 2 ≡ bit_or (a / 2) (b / 2) = omega (arith, bit_or_step a b) in
    ap (digit k) half ∙ digit-bit_or k (a / 2) (b / 2)

digits_zero : (n a : ℕ) → digits (λ b. 0) min n a 0 ≡ 0
digits_zero zero a = refl
digits_zero (suc n) zero = refl
digits_zero (suc n) (suc a) = omega (arith, digits_zero n (suc a / 2))

pub bit_and-zero : (a : ℕ) → bit_and a 0 ≡ 0
bit_and-zero a = bit_and-bitwise a 0 ∙ digits_zero a a

-- A mask of one bit picks that digit.
bit_and-pow : (k a : ℕ) → bit_and a (2 ^ k) ≡ digit k a * 2 ^ k
bit_and-pow zero a = omega (arith, bit_and_step a 1, bit_and-zero (a / 2))
bit_and-pow (suc k) a = omega (
  arith,
  bit_and_step a (2 ^ suc k),
  pow-suc 2 k,
  bit_and-pow k (a / 2),
  ap (λ t. bit_and (a / 2) t) (half_pow k),
  ap (λ t. digit k (a / 2) * t) (pow-suc 2 k),
)
  where
    half_pow : (k : ℕ) → 2 ^ suc k / 2 ≡ 2 ^ k
    half_pow k = omega (arith, pow-suc 2 k)

pub pow-pos : (k : ℕ) → 0 < 2 ^ k
pow-pos zero = omega arith
pow-pos (suc k) = omega (arith, pow-suc 2 k, pow-pos k)

digit_cases : (k a : ℕ) → (digit k a ≡ 0) ⊎ (digit k a ≡ 1)
digit_cases k a = elim (dec_le (digit k a) 0) [
  | yes p ↦ inl (omega arith)
  | no p ↦ inr (omega (arith, digit-le k a))
]

-- `(a & (1 << k)) != 0`
pub any_of-pow : (k a : ℕ) → any_of a (2 ^ k) ≡ (digit k a == 1)
unfolding any_of
any_of-pow k a = elim (digit_cases k a) [
  | inl e ↦ rw (bit_and-pow k a, e) (ground arith)
  | inr e ↦ rw (bit_and-pow k a, e) (ground (arith, pow-pos k))
]

digits_all : (n a : ℕ) → a ≤ n → digits (λ b. b) max n a 0 ≡ a
digits_all zero zero h = refl
digits_all zero (suc a) h = absurd (omega arith)
digits_all (suc n) zero h = refl
digits_all (suc n) (suc a) h = omega (arith, digits_all n (suc a / 2) (omega arith))

bit_or-zero : (a : ℕ) → bit_or a 0 ≡ a
bit_or-zero a = bit_or-bitwise a 0 ∙ digits_all a a (omega arith)

-- `(q << k) | r` where `r` has no more than `k` bits
pub bit_or-fields : (k q r : ℕ) → r < 2 ^ k → bit_or (q * 2 ^ k) r ≡ q * 2 ^ k + r
bit_or-fields zero q r h =
    let none_left : r ≡ 0 = omega arith in rw none_left (bit_or-zero (q * 2 ^ 0) ∙ omega arith)
bit_or-fields (suc k) q r h =
    let doubled : q * 2 ^ suc k ≡ 2 * (q * 2 ^ k) =
      omega (arith, ap (λ (t : ℕ). q * t) (pow-suc 2 k)) in
    let half : q * 2 ^ suc k / 2 ≡ q * 2 ^ k = omega arith in
    omega (
      arith,
      bit_or_step (q * 2 ^ suc k) r,
      ap (λ t. bit_or t (r / 2)) half,
      bit_or-fields k q (r / 2) (omega (arith, pow-suc 2 k)),
    )

-- A number below `2 ^ k` has no digit from `k` on.
pub digit-small : (k j x : ℕ) → x < 2 ^ k → k ≤ j → digit j x ≡ 0
digit-small zero zero x h l = omega arith
digit-small zero (suc j) x h l =
    let none_left : x / 2 ≡ x = omega arith in
    ap (digit j) none_left ∙ digit-small zero j x h (omega arith)
digit-small (suc k) zero x h l = absurd (omega arith)
digit-small (suc k) (suc j) x h l =
    digit-small k j (x / 2) (omega (arith, pow-suc 2 k)) (omega arith)

half_shift : (k x : ℕ) → (x * 2 ^ suc k / 2 ≡ x * 2 ^ k) × (x * 2 ^ suc k % 2 ≡ 0)
half_shift k x =
    let doubled : x * 2 ^ suc k ≡ 2 * (x * 2 ^ k) =
      omega (arith, ap (λ (t : ℕ). x * t) (pow-suc 2 k)) in
    (omega arith, omega arith)

-- the digits of `x << k`
pub digit-shift : (k j x : ℕ) → digit (k + j) (x * 2 ^ k) ≡ digit j x
digit-shift zero j x = cc (unshifted, ap (λ i. digit i x) (start j))
  where
    unshifted : x * 2 ^ 0 ≡ x
    unshifted = omega arith

    start : (j : ℕ) → 0 + j ≡ j
    start j = omega arith
digit-shift (suc k) j x =
    let next : suc k + j ≡ suc (k + j) = omega arith in
    ap (λ i. digit i (x * 2 ^ suc k)) next
    ∙ ap (digit (k + j)) (half_shift k x).0
    ∙ digit-shift k j x

pub digit-shift_low : (k j x : ℕ) → j < k → digit j (x * 2 ^ k) ≡ 0
digit-shift_low zero j x h = absurd (omega arith)
digit-shift_low (suc k) zero x h = (half_shift k x).1
digit-shift_low (suc k) (suc j) x h =
    ap (digit j) (half_shift k x).0 ∙ digit-shift_low k j x (omega arith)

mul_twice : (m q : ℕ) → 2 * m * q ≡ 2 * (m * q)
mul_twice m q = ground arith

pub mod_step : (k x : ℕ) → x % 2 ^ suc k ≡ 2 * (x / 2 % 2 ^ k) + x % 2
mod_step k x =
    let pos : 0 < 2 ^ k = pow-pos k in
    let whole : x ≡ (2 * (x / 2 % 2 ^ k) + x % 2) + 2 ^ suc k * (x / 2 / 2 ^ k) = omega (
      arith,
      div-add-mod (x / 2) (2 ^ k),
      ap (λ (t : ℕ). t * (x / 2 / 2 ^ k)) (pow-suc 2 k),
      mul_twice (2 ^ k) (x / 2 / 2 ^ k),
    ) in
    ap (λ (t : ℕ). t % 2 ^ suc k) whole
    ∙ add-mul-mod_self_left (2 * (x / 2 % 2 ^ k) + x % 2) (2 ^ suc k) (x / 2 / 2 ^ k)
    ∙ mod-eq_of_lt (omega (arith, pow-suc 2 k, mod-lt (x / 2) pos))

-- `x & (2^k - 1)`
pub bit_and-mask : (k x : ℕ) → bit_and x (2 ^ k - 1) ≡ x % 2 ^ k
bit_and-mask zero x = bit_and-zero x ∙ omega arith
bit_and-mask (suc k) x =
    let low : ((2 ^ suc k - 1) / 2 ≡ 2 ^ k - 1) × ((2 ^ suc k - 1) % 2 ≡ 1) =
      (omega (arith, pow-suc 2 k, pow-pos k), omega (arith, pow-suc 2 k, pow-pos k)) in
    let split : x % 2 ^ suc k ≡ 2 * (x / 2 % 2 ^ k) + x % 2 = mod_step k x in
    omega (
      arith,
      split,
      bit_and_step x (2 ^ suc k - 1),
      ap (bit_and (x / 2)) low.0,
      bit_and-mask k (x / 2),
      low.1,
    )

cut_step :
    (k n x : ℕ) → x / 2 % 2 ^ n % 2 ^ k ≡ x / 2 % 2 ^ k → x % 2 ^ suc n % 2 ^ suc k ≡ x % 2 ^ suc k
cut_step k n x h =
    let cut : x % 2 ^ suc n ≡ 2 * (x / 2 % 2 ^ n) + x % 2 = mod_step n x in
    let half : x % 2 ^ suc n / 2 ≡ x / 2 % 2 ^ n = omega arith in
    omega (arith, mod_step k (x % 2 ^ suc n), ap (λ (t : ℕ). t % 2 ^ k) half, mod_step k x)

-- A word that is cut to more digits first
pub mod_pow : (k j x : ℕ) → x % 2 ^ (k + j) % 2 ^ k ≡ x % 2 ^ k
mod_pow zero j x = omega arith
mod_pow (suc k) j x =
    let next : suc k + j ≡ suc (k + j) = omega arith in
    ap (λ (t : ℕ). x % 2 ^ t % 2 ^ suc k) next ∙ cut_step k (k + j) x (mod_pow k j (x / 2))
