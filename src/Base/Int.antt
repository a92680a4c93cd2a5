-- ===== src/Base/Int.antt =====
-- Signed counters over the native numbers, under the library's names: what a C `int` that is only
-- stepped up and down needs.
use bhyve_experiments.Base.{ℕ, zero, suc, ◌+◌, Bool, false, ◌==◌, ltb}

-- `negsuc n` is -(n + 1).
pub data ℤ : Type 0 where
  pos : ℕ → ℤ
  negsuc : ℕ → ℤ

unfoldable pub incr : ℤ → ℤ
incr (pos n) = pos (n + 1)
incr (negsuc zero) = pos 0
incr (negsuc (suc n)) = negsuc n

unfoldable pub decr : ℤ → ℤ
decr (pos zero) = negsuc 0
decr (pos (suc n)) = pos n
decr (negsuc n) = negsuc (n + 1)

-- `z == n`
abbrev pub equals : ℤ → ℕ → Bool
equals (pos m) n = m == n
equals (negsuc m) n = false

-- `z > 0`
abbrev pub positive : ℤ → Bool
positive (pos m) = ltb 0 m
positive (negsuc m) = false
