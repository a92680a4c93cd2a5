-- ===== src/Vatpic/Chip/Valid.antt =====
-- The registers of a controller stay in range.
use bhyve_experiments.Base.{ℕ, zero, suc, ◌+◌, ◌%◌, ◌≤◌, ◌<◌, Bool, true, ◌&&◌, ◌≡◌, refl}
use bhyve_experiments.Base.{Option, none, some, arith, ◌==◌, ==_iff, length, ltb, leb}
use bhyve_experiments.Base.{bit_and, ltb→lt, leb→le, and_parts}
use bhyve_experiments.Base.Bits.{any_of, all_below, all_below_at}
use bhyve_experiments.Base.Bits.{set_bit-lt, clear_bit-lt}
use bhyve_experiments.Vatpic.Chip.{
  Atpic, zeroed, icw1, icw2, icw3, icw4, ocw1, ocw2, ocw3, pin_accepted, ocw2_r, end_of_interrupt,
  get_highest_irrpin, get_highest_isrpin, scan_isr,
}
use bhyve_experiments.Vatpic.Chip.Priority.{highest_irrpin-Found, nth_pin-lt}

pub record IsChip (a : Atpic) : Type 0 where
  pub requests : a.request < 256
  pub services : a.service < 256
  pub masks : a.mask < 256
  pub lowest : a.lowprio < 8
  pub base_byte : a.irq_base < 256
  pub base_aligned : a.irq_base % 8 ≡ 0
  pub words : a.icw_num ≤ 4
  pub pins : length a.acnt ≡ 8
  pub reading : a.rd_cmd_reg ≤ 1

-- the masks by which the command words take their fields
abbrev field_laws : ℕ → Bool
field_laws x =
    ltb (bit_and x 0xf8) 256
    && ((bit_and x 0xf8 % 8 == 0)
        && (ltb (bit_and x 0x7) 8 && (leb (bit_and x 0x1) 1 && ltb (bit_and x 0xff) 256)))

field_table : all_below 256 field_laws ≡ true
unfolding all_below
field_table = refl

pub field_laws_hold :
    (x : ℕ)
    → x < 256
    → (bit_and x 0xf8 < 256)
      × (bit_and x 0xf8 % 8 ≡ 0)
      × (bit_and x 0x7 < 8)
      × (bit_and x 0x1 ≤ 1)
      × (bit_and x 0xff < 256)
field_laws_hold x h =
    let a = and_parts _ _ (all_below_at 256 x field_laws field_table h) in
    let b = and_parts _ _ a.1 in
    let c = and_parts _ _ b.1 in
    let d = and_parts _ _ c.1 in
    (ltb→lt _ _ a.0, (==_iff _ _).0 b.0, ltb→lt _ _ c.0, leb→le _ _ d.0, ltb→lt _ _ d.1)

pub zeroed-IsChip : IsChip zeroed
unfolding zeroed
zeroed-IsChip = omega arith

pub irrpin-lt : (a : Atpic) (pin : ℕ) → get_highest_irrpin a ≡ some pin → pin < 8
irrpin-lt a pin h = let f = highest_irrpin-Found a pin h in rw f.at (nth_pin-lt a f.rank)

scan_isr-lt : (n pin found : ℕ) (a : Atpic) → pin < 8 → scan_isr n pin a ≡ some found → found < 8
unfolding scan_isr
scan_isr-lt zero pin found a l h = cc
scan_isr-lt (suc n) pin found a l h =
    ground (arith, scan_isr-lt n ((pin + 1) % 8) found a (omega arith))

isrpin-lt : (a : Atpic) (pin : ℕ) → get_highest_isrpin a ≡ some pin → pin < 8
unfolding get_highest_isrpin
isrpin-lt a pin h = scan_isr-lt 8 ((a.lowprio + 1) % 8) pin a (omega arith) h

pub pin_accepted-IsChip : (a : Atpic) (pin : ℕ) → pin < 8 → IsChip a → IsChip (pin_accepted a pin)
unfolding pin_accepted
pin_accepted-IsChip a pin l v =
    ground (arith, set_bit-lt a.service pin v.services l, clear_bit-lt a.request pin v.requests l)

pub icw1-IsChip : (a : Atpic) (val : ℕ) → IsChip a → IsChip (icw1 a val).0
unfolding icw1
icw1-IsChip a val v = ground arith

end-IsChip :
    (a : Atpic) (o : Option ℕ)
    → ((pin : ℕ) → o ≡ some pin → pin < 8)
    → IsChip a
    → IsChip (end_of_interrupt a o)
unfolding end_of_interrupt
end-IsChip a none l v = v
end-IsChip a (some pin) l v =
    ground (arith, l pin refl, clear_bit-lt a.service pin v.services (l pin refl))

pub ocw2-IsChip : (a : Atpic) (val : ℕ) → val < 256 → IsChip a → IsChip (ocw2 a val).0
unfolding ocw2
ocw2-IsChip a val h v = ground (
  arith,
  field_laws_hold val h,
  end-IsChip rotated (some (bit_and val 0x7)) specific same,
  end-IsChip rotated (get_highest_isrpin rotated) (isrpin-lt rotated) same,
)
  where
    rotated : Atpic
    rotated = record a { rotate = any_of val ocw2_r }

    same : IsChip rotated
    same = ground arith

    specific : (pin : ℕ) → some (bit_and val 0x7) ≡ some pin → pin < 8
    specific pin e = ground (arith, field_laws_hold val h)

pub ocw3-IsChip : (a : Atpic) (val : ℕ) → val < 256 → IsChip a → IsChip (ocw3 a val).0
unfolding ocw3
ocw3-IsChip a val h v = ground (arith, field_laws_hold val h)

-- The other command words, at the states in which `vatpic_write` passes them on.
pub icw2-IsChip :
    (a : Atpic) (val : ℕ) → val < 256 → a.icw_num ≡ 2 → IsChip a → IsChip (icw2 a val).0
unfolding icw2
icw2-IsChip a val h n v = ground (arith, field_laws_hold val h)

pub icw3-IsChip : (a : Atpic) (val : ℕ) → a.icw_num ≡ 3 → IsChip a → IsChip (icw3 a val).0
unfolding icw3
icw3-IsChip a val n v = ground arith

pub icw4-IsChip :
    (is_master : Bool) (a : Atpic) (val : ℕ) → IsChip a → IsChip (icw4 is_master a val).0
unfolding icw4
icw4-IsChip is_master a val v = ground arith

pub ocw1-IsChip : (a : Atpic) (val : ℕ) → val < 256 → IsChip a → IsChip (ocw1 a val).0
unfolding ocw1
ocw1-IsChip a val h v = ground (arith, field_laws_hold val h)
