-- ===== src/Base/Bits.antt =====
-- The bits of a byte: `x & (1 << k)`, `x | (1 << k)` and `x & ~(1 << k)` of a uint8_t, with the
-- laws of single bits, checked over all bytes.
use Prim.Native.Nat.{ℕ, zero, suc, ◌^◌, ◌<◌, bit_and, bit_or, bit_xor}
use mathlib.Core.Path.{◌≡◌, refl}
use mathlib.Core.Bool.{Bool, true, not, ◌&&◌, ◌||◌}
use native.Mathlib.Omega.{arith}
use bhyve_experiments.Base.Tests.{ltb, ◌==◌, if◌then◌else◌, same, same_eq, ltb→lt, and_parts}

-- `(x & m) != 0`
unfoldable pub any_of : ℕ → ℕ → Bool
any_of x m = not (bit_and x m == 0)

-- `x & ~m`, of a byte
unfoldable pub clear_mask : ℕ → ℕ → ℕ
clear_mask x m = bit_and x (bit_xor 255 m)

-- `if (b) x |= m;`
unfoldable pub raise_if : Bool → ℕ → ℕ → ℕ
raise_if b x m = if b then bit_or x m else x

-- `(x & (1 << k)) != 0`
unfoldable pub has_bit : ℕ → ℕ → Bool
unfolding any_of
has_bit x k = any_of x (2 ^ k)

-- `x | (1 << k)`
unfoldable pub set_bit : ℕ → ℕ → ℕ
set_bit x k = bit_or x (2 ^ k)

-- `x & ~(1 << k)`, of a byte
unfoldable pub clear_bit : ℕ → ℕ → ℕ
clear_bit x k = bit_and x (bit_xor 255 (2 ^ k))

-- Does the test hold of every number below the bound?
unfoldable pub all_below : ℕ → (ℕ → Bool) → Bool
all_below zero holds = true
all_below (suc n) holds = holds n && all_below n holds

pub all_below_at : (n x : ℕ) (holds : ℕ → Bool) → all_below n holds ≡ true → x < n → holds x ≡ true
unfolding all_below
all_below_at zero x holds h lt = absurd (omega arith)
all_below_at (suc n) x holds h lt = ground (arith, all_below_at n x holds)

abbrev bit_laws : ℕ → ℕ → ℕ → Bool
bit_laws x k j =
    same (has_bit (set_bit x k) j) (k == j || has_bit x j)
    && same (has_bit (clear_bit x k) j) (not (k == j) && has_bit x j)

bit_laws_table : all_below 256 (λ x. all_below 8 (λ k. all_below 8 (λ j. bit_laws x k j))) ≡ true
unfolding all_below has_bit set_bit clear_bit
bit_laws_table = refl

bit_laws_hold : (x k j : ℕ) → x < 256 → k < 8 → j < 8 → bit_laws x k j ≡ true
bit_laws_hold x k j hx hk hj =
    all_below_at 8 j _ (all_below_at 8 k _ (all_below_at 256 x _ bit_laws_table hx) hk) hj

pub has_bit-set_bit :
    (x k j : ℕ) → x < 256 → k < 8 → j < 8 → has_bit (set_bit x k) j ≡ (k == j || has_bit x j)
has_bit-set_bit x k j hx hk hj = same_eq _ _ (and_parts _ _ (bit_laws_hold x k j hx hk hj)).0

pub has_bit-clear_bit :
    (x k j : ℕ)
    → x < 256
    → k < 8
    → j < 8
    → has_bit (clear_bit x k) j ≡ (not (k == j) && has_bit x j)
has_bit-clear_bit x k j hx hk hj = same_eq _ _ (and_parts _ _ (bit_laws_hold x k j hx hk hj)).1

byte_laws_table :
    all_below 256 (λ x. all_below 8 (λ k. ltb (set_bit x k) 256 && (ltb (clear_bit x k) 256)))
    ≡ true
unfolding all_below set_bit clear_bit
byte_laws_table = refl

pub set_bit-lt : (x k : ℕ) → x < 256 → k < 8 → set_bit x k < 256
set_bit-lt x k hx hk =
    ltb→lt _ _ (and_parts _ _ (all_below_at 8 k _ (all_below_at 256 x _ byte_laws_table hx) hk)).0

pub clear_bit-lt : (x k : ℕ) → x < 256 → k < 8 → clear_bit x k < 256
clear_bit-lt x k hx hk =
    ltb→lt _ _ (and_parts _ _ (all_below_at 8 k _ (all_below_at 256 x _ byte_laws_table hx) hk)).1
