-- ===== src/Vatpic/Ports/Valid.antt =====
-- The I/O handlers keep the controllers well formed, and so does every sequence of calls.
use bhyve_experiments.Base.{
  ℕ, ◌%◌, ◌<◌, Bool, true, false, not, ◌&&◌, ◌||◌, ◌≡◌, refl, Option, none, some,
}
use bhyve_experiments.Base.{arith, bit_and, ltb}
use bhyve_experiments.Base.Bits.{has_bit, all_below, all_below_at}
use bhyve_experiments.Vatpic.Chip.{Atpic, icw1, get_highest_irrpin}
use bhyve_experiments.Vatpic.Chip.Valid.{
  IsChip, irrpin-lt, pin_accepted-IsChip, icw1-IsChip, icw2-IsChip, icw3-IsChip, icw4-IsChip,
  ocw1-IsChip, ocw2-IsChip, ocw3-IsChip,
}
use bhyve_experiments.Vatpic.Pair.{Vatpic}
use bhyve_experiments.Vatpic.Pair.Valid.{IsValid, notify_intr-IsValid}
use bhyve_experiments.Vatpic.Ports.{
  Which, master, slave, chip, put, is_master, poll_chip, read_chip, read, write_ocw, write_chip,
  write, handler, elc_handler,
}

poll_chip-IsChip :
    (a : Atpic) (o : Option ℕ)
    → ((pin : ℕ) → o ≡ some pin → pin < 8)
    → IsChip a
    → IsChip (poll_chip a o).0
unfolding poll_chip
poll_chip-IsChip a none l v = v
poll_chip-IsChip a (some pin) l v = pin_accepted-IsChip a pin (l pin refl) v

read_chip-IsChip : (a : Atpic) (port : ℕ) → IsChip a → IsChip (read_chip a port).0
unfolding read_chip
read_chip-IsChip a port v =
    ground (arith, poll_chip-IsChip polled (get_highest_irrpin polled) (irrpin-lt polled) same)
  where
    polled : Atpic
    polled = record a { poll = false }

    same : IsChip polled
    same = ground arith

write_ocw-IsChip :
    (a : Atpic) (val : ℕ) (error : Bool) → val < 256 → IsChip a → IsChip (write_ocw a val error).0
unfolding write_ocw
write_ocw-IsChip a val error h v = ground (arith, ocw2-IsChip a val h v, ocw3-IsChip a val h v)

write_chip-IsChip :
    (m : Bool) (a : Atpic) (port val : ℕ)
    → val < 256
    → IsChip a
    → IsChip (write_chip m a port val).0
unfolding write_chip
write_chip-IsChip m a port val h v = ground (
  arith,
  icw2-IsChip a val h,
  icw3-IsChip a val,
  icw4-IsChip m a val v,
  ocw1-IsChip a val h v,
  write_ocw-IsChip a val false h v,
  write_ocw-IsChip (icw1 a val).0 val (icw1 a val).1 h (icw1-IsChip a val v),
)

put-IsValid :
    (which : Which) (a : Atpic) (v : Vatpic) → IsChip a → IsValid v → IsValid (put which a v)
put-IsValid master a v c h = ground arith
put-IsValid slave a v c h = ground arith

chip-IsChip : (which : Which) (v : Vatpic) → IsValid v → IsChip (chip which v)
chip-IsChip master v h = h.masters
chip-IsChip slave v h = h.slaves

read-IsValid : (v : Vatpic) (which : Which) (port : ℕ) → IsValid v → IsValid (read v which port).0
unfolding read
read-IsValid v which port h =
    put-IsValid which _ v (read_chip-IsChip (chip which v) port (chip-IsChip which v h)) h

write-IsValid :
    (v : Vatpic) (which : Which) (port eax : ℕ) → IsValid v → IsValid (write v which port eax).0
unfolding write
write-IsValid v which port eax h = ground (arith, stored, notify_intr-IsValid _ stored)
  where
    stored : IsValid (put which (write_chip (is_master which) (chip which v) port (eax % 256)).0 v)
    stored =
        put-IsValid which _ v
          (write_chip-IsChip (is_master which) (chip which v) port (eax % 256) (omega arith)
            (chip-IsChip which v h))
          h

-- The handlers of the master's and the slave's ports keep the invariant.
pub handler-IsValid :
    (which : Which) (v : Vatpic) (into_guest : Bool) (port bytes eax : ℕ)
    → IsValid v
    → IsValid (handler which v into_guest port bytes eax).0
unfolding handler
handler-IsValid which v into_guest port bytes eax h =
    ground (arith, read-IsValid v which port h, write-IsValid v which port eax h)

-- what a write leaves in the edge/level registers
abbrev elc_laws : ℕ → Bool
elc_laws x =
    let a = bit_and x 0xf8 in
    let b = bit_and x 0xde in
    (ltb a 256 && ltb b 256)
    && not (has_bit a 0 || (has_bit a 1 || (has_bit a 2 || (has_bit b 0 || has_bit b 5))))

elc_table : all_below 256 elc_laws ≡ true
unfolding all_below has_bit
elc_table = refl

elc_fields :
    (x : ℕ)
    → x < 256
    → (bit_and x 0xf8 < 256)
      × (bit_and x 0xde < 256)
      × (has_bit (bit_and x 0xf8) 0 ≡ false)
      × (has_bit (bit_and x 0xf8) 1 ≡ false)
      × (has_bit (bit_and x 0xf8) 2 ≡ false)
      × (has_bit (bit_and x 0xde) 0 ≡ false)
      × (has_bit (bit_and x 0xde) 5 ≡ false)
elc_fields x h = ground (arith, all_below_at 256 x elc_laws elc_table h)

-- `vatpic_elc_handler` keeps the invariant.
pub elc_handler-IsValid :
    (v : Vatpic) (into_guest : Bool) (port bytes eax : ℕ)
    → IsValid v
    → IsValid (elc_handler v into_guest port bytes eax).0
unfolding elc_handler
elc_handler-IsValid v into_guest port bytes eax h =
    ground (arith, elc_fields (eax % 256) (omega arith))
