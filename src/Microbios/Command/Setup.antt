-- ===== src/Microbios/Command/Setup.antt =====
-- The memory map that the set-up of the shared data makes.
use bhyve_experiments.Base.{ℕ, ◌+◌, ◌^◌, ◌<◌, ◌≡◌, refl, arith, List, [], ◌∷◌, length}
use bhyve_experiments.Microbios.{Bios, Env, E820Entry}
use bhyve_experiments.Microbios.Command.{setup_shared}

-- The entries lie one behind the other, from `a` to `b`.
abbrev pub Covers : ℕ → ℕ → List E820Entry → Type 0
Covers a b [] = a ≡ b
Covers a b (e ∷ es) = (e.addr ≡ a) × (0 < e.size) × Covers (a + e.size) b es

-- Where the guest has more than 1 MB of low memory and no table was made before, the table has four
-- entries that are not empty and cover the memory from 0 to its end without gaps and overlaps. A
-- second set-up leaves the table as it is.
pub setup_shared-Covers :
    (env : Env) (m : Bios)
    → 0x100000 < env.lowmem
    → env.lowmem < 2 ^ 32
    → m.e820_tbl ≡ []
    → let w = setup_shared env m in
      Covers 0 env.lowmem w.e820_tbl
      × (length w.e820_tbl ≡ 4)
      × ((setup_shared env w).e820_tbl ≡ w.e820_tbl)
unfolding setup_shared
setup_shared-Covers env m low high h = rw h (omega arith, refl, refl)
