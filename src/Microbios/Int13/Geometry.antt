-- ===== src/Microbios/Int13/Geometry.antt =====
-- Cylinders, heads and sectors.
use bhyve_experiments.Base.{
  ℕ, ◌+◌, ◌-◌, ◌*◌, ◌/◌, ◌%◌, ◌^◌, ◌≤◌, ◌<◌, ◌≡◌, ◌↔◌, refl, sym, ap, ◌∙◌, arith, true,
}
use bhyve_experiments.Base.{bit_and, bit_or, ◌==◌, ==_iff}
use bhyve_experiments.Base.Bits.{all_below, all_below_at}
use bhyve_experiments.Base.Words.{bit_or-fields}
use native.Mathlib.Decide.{dec_lt}
use bhyve_experiments.Microbios.{Regs, Bios, Disk, done, chs_lba, reg_hibyte, reg_lobyte, clear_cf}
use bhyve_experiments.Microbios.Int13.{chs_cylinder, chs_sector, chs_parameters, told_regs}

high_table : all_below 256 (λ l. bit_and l 0xc0 * 4 == l / 64 * 256) ≡ true
unfolding all_below
high_table = refl

join_table : all_below 256 (λ h. all_below 4 (λ q. bit_or h (q * 256) == h + q * 256)) ≡ true
unfolding all_below
join_table = refl

-- the cylinder of CX as a number
chs_cylinder_sum : (r : Regs) → chs_cylinder r ≡ reg_hibyte r.ecx + reg_lobyte r.ecx / 64 * 256
unfolding chs_cylinder
chs_cylinder_sum r =
    ap (bit_or (reg_hibyte r.ecx))
      ((==_iff _ _).0 (all_below_at 256 (reg_lobyte r.ecx) _ high_table (omega arith)))
    ∙ (==_iff _ _).0 (
        all_below_at 4 (reg_lobyte r.ecx / 64) _
          (all_below_at 256 (reg_hibyte r.ecx) _ join_table (omega arith)) (omega arith))

-- A disk has the sector.
abbrev pub HasChs : Disk → ℕ → ℕ → ℕ → Type 0
HasChs d cylinder head sector = (cylinder < d.c) × (head < d.h) × (0 < sector) × (sector ≤ d.s)

mul_mono : (a b s : ℕ) → a ≤ b → a * s ≤ b * s
mul_mono a b s h = grind arith

below_product : (a b s x : ℕ) → a < b → x < s → a * s + x < b * s
below_product a b s x h l =
    omega (arith, mul_mono (a + 1) b s (omega arith), ap (λ (t : ℕ). t) (next_row a s))
  where
    next_row : (a s : ℕ) → (a + 1) * s ≡ a * s + s
    next_row a s = grind arith

radix_unique : (a b s x y : ℕ) → x < s → y < s → a * s + x ≡ b * s + y → (a ≡ b) × (x ≡ y)
radix_unique a b s x y hx hy e = elim (dec_lt a b) [
  | yes p ↦ absurd (omega (arith, below_product a b s x p hx))
  | no p ↦ elim (dec_lt b a) [
    | yes q ↦ absurd (omega (arith, below_product b a s y q hy))
    | no q ↦
        let same_row : a ≡ b = omega arith in
        (same_row, omega (arith, ap (λ (t : ℕ). t * s) same_row))
  ]
]

module _ (d : Disk) (fits : d.c * d.h * d.s ≤ 2 ^ 32) where
  chs_lba_value :
      (c h s : ℕ)
      → HasChs d c h s
      → (chs_lba d c h s ≡ (c * d.h + h) * d.s + (s - 1)) × (chs_lba d c h s < d.c * d.h * d.s)
  unfolding chs_lba
  chs_lba_value c h s (hc, hh, hs, le) =
      let inside =
        below_product (c * d.h + h) (d.c * d.h) d.s (s - 1) (below_product c d.c d.h h hc hh)
          (omega arith) in
      (omega arith, omega arith)

  -- On a disk of at most 2^32 sectors, the sectors that the disk has by cylinder, head and sector
  -- have numbers below the number of sectors, and no two of them have the same.
  pub chs_lba_unique :
      (c h s c' h' s' : ℕ)
      → HasChs d c h s
      → HasChs d c' h' s'
      → (chs_lba d c h s < d.c * d.h * d.s)
        × ((chs_lba d c h s ≡ chs_lba d c' h' s') ↔ ((c ≡ c') × (h ≡ h') × (s ≡ s')))
  chs_lba_unique c h s c' h' s' v v' = (
    (chs_lba_value c h s v).1,
    (
      λ e.
          let (rows, sectors) =
            radix_unique (c * d.h + h) (c' * d.h + h') d.s (s - 1) (s' - 1) (omega arith)
              (omega arith) (sym (chs_lba_value c h s v).0 ∙ e ∙ (chs_lba_value c' h' s' v').0) in
          let (cylinders, heads) = radix_unique c c' d.h h h' v.1 v'.1 rows in
          (cylinders, heads, omega arith),
      λ (ec, eh, es). cc (ec, eh, es),
    ),
  )

cylinder_table : all_below 1024 (λ k. bit_and (k * 64) 0xffc0 == k * 64) ≡ true
unfolding all_below
cylinder_table = refl

-- CX as function 08h gives it
told_ecx :
    (c s : ℕ)
    → 0 < c
    → c ≤ 1024
    → bit_or (bit_and ((c + (2 ^ 32 - 1)) * 2 ^ 6 % 2 ^ 32) 0xffc0) (s % 2 ^ 6)
      ≡ (c - 1) * 64 + s % 64
told_ecx c s low high =
    let plain : (c + (2 ^ 32 - 1)) * 2 ^ 6 % 2 ^ 32 ≡ (c - 1) * 64 = omega arith in
    ap (λ t. bit_or (bit_and t 0xffc0) (s % 64)) plain
    ∙ ap (λ t. bit_or t (s % 64))
        ((==_iff _ _).0 (all_below_at 1024 (c - 1) _ cylinder_table (omega arith)))
    ∙ bit_or-fields 6 (c - 1) (s % 64) (omega arith)

decoded :
    (r : Regs) (k s : ℕ)
    → r.ecx ≡ k * 64 + s % 64
    → k < 1024
    → (chs_cylinder r ≡ k / 4 + k % 4 * 256) × (chs_sector r ≡ s % 64)
decoded r k s e h = (omega (arith, chs_cylinder_sum r), omega arith)

same_cylinder : (k : ℕ) → k < 1024 → (k / 4 + k % 4 * 256 ≡ k) ↔ (k % 341 ≡ 0)
same_cylinder k h = (λ e. omega arith, λ e. omega arith)

-- What function 08h puts into CX for a disk of 1 to 1024 cylinders and at most 63 sectors to a
-- track, functions 02h and 03h take for the disk's sectors, and for its last cylinder with the two
-- lowest bits above the others: it is the last cylinder exactly if that is a multiple of 341.
pub chs_cylinder-chs_parameters :
    (m : Bios) (r : Regs) (d : Disk)
    → 0 < d.c
    → d.c ≤ 1024
    → d.s < 64
    → (w : Bios) × (told : Regs) × (chs_parameters m r d ≡ done w told)
      × (w.vcpu.rcx ≡ told.ecx)
      × (chs_sector told ≡ d.s)
      × (chs_cylinder told ≡ (d.c - 1) / 4 + (d.c - 1) % 4 * 256)
      × ((chs_cylinder told ≡ d.c - 1) ↔ ((d.c - 1) % 341 ≡ 0))
unfolding chs_parameters clear_cf told_regs
chs_cylinder-chs_parameters m r d low high short =
    let found = decoded told (d.c - 1) d.s (told_ecx d.c d.s low high) (omega arith) in
    (
      _,
      told,
      refl,
      refl,
      omega (arith, found.1),
      found.0,
      rw found.0 (same_cylinder (d.c - 1) (omega arith)),
    )
  where
    told : Regs
    told = told_regs r d
