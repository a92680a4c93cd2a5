-- ===== src/Virtio/Device/Search.antt =====
-- The search for the register at an offset.
use bhyve_experiments.Base.{
  ℕ, ◌<◌, ◌^◌, ◌≡◌, arith, List, [], ◌∷◌, Option, none, some, if◌then◌else◌, ◌==◌,
}
use bhyve_experiments.Virtio.Device.{ConfigReg, config_regs, find_between, vi_find_cr}

-- the first register of the table with the offset
abbrev pub first_with : List ConfigReg → ℕ → Option ConfigReg
first_with [] offset = none
first_with (cr ∷ crs) offset = if cr.offset == offset then some cr else first_with crs offset

-- At every offset that is not negative (an `int` below 2^31), the binary search of `vi_find_cr` ends, reads
-- the table only at its 10 places, and finds what a search through the table from its start finds: the
-- register with this offset, or none.
pub find_cr-first_with : (n : ℕ) → n < 2 ^ 31 → vi_find_cr n ≡ some (first_with config_regs n)
unfolding vi_find_cr find_between
find_cr-first_with n h = ground arith
