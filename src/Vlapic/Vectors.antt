-- ===== src/Vlapic/Vectors.antt =====
-- A register of 256 vectors in eight words of 32 bits, such as IRR, ISR and TMR of bios/vmm/io/vlapic.c.
pub mod Laws
use bhyve_experiments.Base.{
  ℕ, zero, suc, ◌+◌, ◌-◌, ◌*◌, ◌/◌, ◌%◌, ◌^◌, Bool, List, Option, none, some, bit_and, bit_or,
  bit_xor, get_or, set, if◌then◌else◌, ◌==◌,
}
use bhyve_experiments.Base.Bits.{any_of}

-- `irrptr[(vector / 32) * 4]`; the words stand 16 bytes apart.
abbrev pub word_of : List ℕ → ℕ → ℕ
word_of w v = get_or w (v / 32) 0

-- `irrptr[idx] & (1 << (vector % 32))`
unfoldable pub has_vec : List ℕ → ℕ → Bool
has_vec w v = any_of (word_of w v) (2 ^ (v % 32))

-- `irrptr[idx] |= 1 << (vector % 32)`
unfoldable pub set_vec : List ℕ → ℕ → List ℕ
set_vec w v = set w (v / 32) (bit_or (word_of w v) (2 ^ (v % 32)))

-- `irrptr[idx] &= ~(1 << (vector % 32))`
unfoldable pub clear_vec : List ℕ → ℕ → List ℕ
clear_vec w v = set w (v / 32) (bit_and (word_of w v) (bit_xor 0xffffffff (2 ^ (v % 32))))

-- `fls` of the `n` lowest bits: the number of the highest bit that is set, from 1 on, or 0
unfoldable pub fls_below : ℕ → ℕ → ℕ
fls_below zero x = 0
fls_below (suc n) x = let rest = fls_below n x in if any_of x (2 ^ n) then n + 1 else rest

abbrev pub fls : ℕ → ℕ
fls x = fls_below 32 x

-- The loop over the words from the highest on, with `i` of them left: the highest vector
unfoldable pub highest_below : ℕ → List ℕ → Option ℕ
highest_below zero w = none
highest_below (suc i) w =
    let rest = highest_below i w in
    let bitpos = fls (get_or w i 0) in if bitpos == 0 then rest else some (i * 32 + (bitpos - 1))

abbrev pub highest : List ℕ → Option ℕ
highest w = highest_below 8 w
