-- ===== src/Vatpic/Ports/Deliver.antt =====
-- From an IRQ line to the vector that the CPU is given.
use bhyve_experiments.Base.{ℕ, ◌-◌, ◌%◌, ◌<◌, true, false, not, ◌≡◌}
use bhyve_experiments.Base.{arith, length, ◌==◌, if◌then◌else◌}
use bhyve_experiments.Base.{get_or, set, get_or-set_self, length-set, Option-cases, ◌⊎◌, inl, inr}
use bhyve_experiments.Base.Int.{pos, incr, decr}
use bhyve_experiments.Base.Bits.{
  has_bit, set_bit, set_bit-lt, clear_bit, has_bit-set_bit, has_bit-clear_bit,
}
use bhyve_experiments.Vatpic.Chip.{Atpic, get_highest_irrpin}
use bhyve_experiments.Vatpic.Chip.Valid.{IsChip, irrpin-lt}
use bhyve_experiments.Vatpic.Pair.{Vatpic, pin_or_spurious, move_pin, pending_intr}
use bhyve_experiments.Vatpic.Pair.Valid.{IsValid}

-- the chip after the rise of a pin that nobody asserted
abbrev risen : Atpic → ℕ → Atpic
risen a pin = record a { acnt = set a.acnt pin (pos 1); request = set_bit a.request pin }

rise :
    (a : Atpic) (elc pin : ℕ)
    → get_or a.acnt pin (pos 0) ≡ pos 0
    → move_pin a elc pin true ≡ risen a pin
unfolding move_pin incr
rise a elc pin z = rw z

fall :
    (a : Atpic) (elc pin : ℕ)
    → get_or a.acnt pin (pos 0) ≡ pos 1
    → move_pin a elc pin false ≡ record a {
      acnt = set a.acnt pin (pos 0);
      request = if has_bit elc pin then clear_bit a.request pin else a.request;
    }
unfolding move_pin decr
fall a elc pin z = rw z

-- A line that nobody asserts is asserted and deasserted again: an edge triggered pin keeps its
-- request, a level triggered one loses it, the requests of the other pins and the count are as
-- before.
pub pulse_pin :
    (a : Atpic) (elc pin other : ℕ)
    → IsChip a
    → pin < 8
    → other < 8
    → get_or a.acnt pin (pos 0) ≡ pos 0
    → let b = move_pin (move_pin a elc pin true) elc pin false in
      (has_bit b.request other
        ≡ (if pin == other then not (has_bit elc pin) else has_bit a.request other))
      × (get_or b.acnt pin (pos 0) ≡ pos 0)
pulse_pin a elc pin other c l m z = rw (rise a elc pin z) (
    rw (fall (risen a pin) elc pin (get_or-set_self a.acnt pin (pos 1) (pos 0) here)) (
      ground (
        arith,
        get_or-set_self (set a.acnt pin (pos 1)) pin (pos 0) (pos 0)
            (rw (length-set a.acnt pin (pos 1)) here),
        set_bit-lt a.request pin c.requests l,
        has_bit-set_bit a.request pin other c.requests l m,
        has_bit-clear_bit (set_bit a.request pin) pin other (set_bit-lt a.request pin c.requests l)
            l m,
      )))
  where
    here : pin < length a.acnt
    here = omega arith

spurious-lt : (a : Atpic) → pin_or_spurious (get_highest_irrpin a) < 8
spurious-lt a = elim (Option-cases (get_highest_irrpin a)) [
  | inl e ↦ rw e (omega arith)
  | inr f ↦ rw f.1 (irrpin-lt a f.0 f.1)
]

-- The vector for the CPU is the base of one of the controllers and a pin of it.
pub pending_intr_range :
    (v : Vatpic)
    → IsValid v
    → let vector = pending_intr v in
      (vector < 256)
      × ((vector - vector % 8 ≡ v.master.irq_base) ⊎ (vector - vector % 8 ≡ v.slave.irq_base))
unfolding pending_intr
pending_intr_range v h =
    ground (arith, h.masters, h.slaves, spurious-lt v.master, spurious-lt v.slave)
