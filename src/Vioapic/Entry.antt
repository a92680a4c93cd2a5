-- ===== src/Vioapic/Entry.antt =====
-- What a write of one half of an entry makes of it.
use bhyve_experiments.Base.{
  ℕ, ◌+◌, ◌-◌, ◌*◌, ◌^◌, ◌<◌, ◌≡◌, refl, sym, ap, ◌∙◌, arith, Bool, true, false,
}
use bhyve_experiments.Base.{
  bit_and, ltb, leb, ◌==◌, if◌then◌else◌, ◌||◌, ◌&&◌, ==_iff, not, and_parts,
}
use native.Mathlib.Decide.{dec_lt}
use bhyve_experiments.Base.Bits.{all_below, all_below_at}
use bhyve_experiments.Base.Words.{
  digit, digit-bit_or, digit-bit_and, digit-le, digit-small, digit-shift, digit-shift_low,
}
use bhyve_experiments.Vioapic.{with_half}

abbrev bit : Bool → ℕ
bit b = if b then 1 else 0

-- the delivery status and the remote IRR, which the guest cannot write
abbrev pub is_read_only : ℕ → Bool
is_read_only j = j == 12 || j == 14

masks_table :
    all_below 64 (λ j.
      (digit j 0xffffffff == bit (ltb j 32))
      && (digit j 0xffffffff00005000 == bit (leb 32 j || is_read_only j))
      && (digit j 0xffffffffffffafff == bit (not (is_read_only j))))
    ≡ true
unfolding all_below
masks_table = refl

masks_at :
    (j : ℕ)
    → j < 64
    → (digit j 0xffffffff ≡ bit (ltb j 32))
      × (digit j 0xffffffff00005000 ≡ bit (leb 32 j || is_read_only j))
      × (digit j 0xffffffffffffafff ≡ bit (not (is_read_only j)))
masks_at j h =
    let (ab, c) = and_parts _ _ (all_below_at 64 j _ masks_table h) in
    let (a, b) = and_parts _ _ ab in ((==_iff _ _).0 a, (==_iff _ _).0 b, (==_iff _ _).0 c)

shifted : (word j : ℕ) → digit j (word * 2 ^ 32) ≡ (if ltb j 32 then 0 else digit (j - 32) word)
shifted word j = elim (dec_lt j 32) [
  | yes p ↦ digit-shift_low 32 j word p ∙ sym (at_low j (digit (j - 32) word) p)
  | no p ↦
      let split : j ≡ 32 + (j - 32) = omega arith in
      ap (λ i. digit i (word * 2 ^ 32)) split
      ∙ digit-shift 32 (j - 32) word
      ∙ sym (at_high j (digit (j - 32) word) p)
]
  where
    at_low : (j d : ℕ) → j < 32 → (if ltb j 32 then 0 else d) ≡ 0
    at_low j d h = ground arith

    at_high : (j d : ℕ) → ¬ (j < 32) → (if ltb j 32 then 0 else d) ≡ d
    at_high j d h = ground arith

-- A write of a word of 32 bits to the upper half of an entry, of 64 bits, replaces its upper 32 bits; a write of the lower half
-- replaces the lower 32 bits but the delivery status and the remote IRR. All other bits of the
-- entry stay.
pub digit-with_half :
    (upper : Bool) (word reg j : ℕ)
    → word < 2 ^ 32
    → j < 64
    → digit j (with_half upper word reg) ≡ (
        if upper
        then (if ltb j 32 then digit j reg else digit (j - 32) word)
        else if ltb j 32 && not (is_read_only j)
        then digit j word
        else digit j reg)
unfolding with_half
digit-with_half true word reg j h l =
    digit-bit_or j (bit_and reg 0xffffffff) (bit_and (word * 2 ^ 32) 0xffffffffffffafff)
    ∙ ground (
      arith,
      digit-bit_and j reg 0xffffffff,
      digit-bit_and j (word * 2 ^ 32) 0xffffffffffffafff,
      (masks_at j l).0,
      (masks_at j l).2,
      shifted word j,
      digit-le j reg,
      digit-le (j - 32) word,
    )
digit-with_half false word reg j h l =
    digit-bit_or j (bit_and reg 0xffffffff00005000) (bit_and word 0xffffffffffffafff)
    ∙ ground (
      arith,
      digit-bit_and j reg 0xffffffff00005000,
      digit-bit_and j word 0xffffffffffffafff,
      (masks_at j l).1,
      (masks_at j l).2,
      digit-small 32 j word h,
      digit-le j reg,
      digit-le j word,
    )
