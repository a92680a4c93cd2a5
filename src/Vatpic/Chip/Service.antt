-- ===== src/Vatpic/Chip/Service.antt =====
-- From the acceptance of a pin to its end of interrupt.
use bhyve_experiments.Base.{ℕ, ◌<◌, Bool, true, false, ◌≡◌, ◌≢◌, refl, sym}
use bhyve_experiments.Base.{ap, ◌∙◌, some, arith, ◌==◌, if◌then◌else◌}
use bhyve_experiments.Base.{subst}
use bhyve_experiments.Base.Bits.{has_bit, set_bit, clear_bit, any_of, all_below, all_below_at}
use bhyve_experiments.Base.Bits.{has_bit-set_bit}
use bhyve_experiments.Vatpic.Chip.{
  Atpic, get_highest_irrpin, get_highest_isrpin, pin_accepted, ocw2,
}
use bhyve_experiments.Vatpic.Chip.{serviced, ocw2_eoi, ocw2_sl, ocw2_r}
use bhyve_experiments.Vatpic.Chip.Priority.{Found, ends, nth_pin, nth_pin-lt}
use bhyve_experiments.Vatpic.Chip.Priority.{highest_irrpin-Found, highest_isrpin_lem}

-- neither the special mask mode, nor the special fully nested mode, nor automatic end of interrupt
pub record IsPlain (a : Atpic) : Type 0 where
  pub unmasked : a.smm ≡ 0
  pub nested : a.sfn ≡ false
  pub manual : a.aeoi ≡ false

-- Clearing a bit that was just set gives the byte back.
undo_table :
    all_below 256
      (λ x. all_below 8 (λ k. if has_bit x k then true else clear_bit (set_bit x k) k == x))
    ≡ true
unfolding all_below has_bit set_bit clear_bit
undo_table = refl

clear_bit-set_bit :
    (x k : ℕ) → x < 256 → k < 8 → has_bit x k ≡ false → clear_bit (set_bit x k) k ≡ x
clear_bit-set_bit x k hx hk e =
    ground (arith, all_below_at 8 k _ (all_below_at 256 x _ undo_table hx) hk)

-- different levels are different pins
nth_pin-injective : (a : Atpic) (i j : ℕ) → i < 8 → j < i → nth_pin a i ≢ nth_pin a j
unfolding nth_pin
nth_pin-injective a i j l t = omega arith

module _ (a : Atpic) (pin : ℕ) (plain : IsPlain a) (byte : a.service < 256) where
  plain_serviced : serviced a ≡ a.service
  unfolding serviced
  plain_serviced = ground arith

  plain_ends : (p : ℕ) → ends (pin_accepted a pin) p ≡ has_bit (set_bit a.service pin) p
  unfolding pin_accepted
  plain_ends p = ground arith

  same_order : (k : ℕ) → nth_pin (pin_accepted a pin) k ≡ nth_pin a k
  unfolding pin_accepted nth_pin
  same_order k = ground arith

  module _ (f : Found a 0 8 pin) where
    at_rank : ends (pin_accepted a pin) (nth_pin (pin_accepted a pin) f.rank) ≡ true
    at_rank =
        rw (same_order f.rank, plain_ends (nth_pin a f.rank), ← f.at)
          (rw (has_bit-set_bit a.service pin pin byte pin-lt pin-lt) (ground arith))
      where
        pin-lt : pin < 8
        pin-lt = rw f.at (nth_pin-lt a f.rank)

    above_rank :
        (j : ℕ) → j < f.rank → ends (pin_accepted a pin) (nth_pin (pin_accepted a pin) j) ≡ false
    above_rank j t =
        rw (same_order j, plain_ends (nth_pin a j))
          (rw (has_bit-set_bit a.service pin (nth_pin a j) byte pin-lt (nth_pin-lt a j)) (
            ground (
              arith,
              nth_pin-injective a f.rank j f.below t,
              f.at,
              plain_serviced,
              f.free j (omega arith) (omega arith),
            )))
      where
        pin-lt : pin < 8
        pin-lt = rw f.at (nth_pin-lt a f.rank)

    -- What a plain controller accepts is what a non-specific end of interrupt goes to.
    accepted_ends : get_highest_isrpin (pin_accepted a pin) ≡ some pin
    accepted_ends =
        highest_isrpin_lem (pin_accepted a pin) f.rank f.below at_rank above_rank
        ∙ ap some (same_order f.rank ∙ sym f.at)

    not_serviced : has_bit a.service pin ≡ false
    not_serviced =
        subst (λ s. has_bit s pin ≡ false) plain_serviced
          (subst (λ p. has_bit (serviced a) p ≡ false) (sym f.at)
            (f.free f.rank (omega arith) (omega arith)))

    found_lt : pin < 8
    found_lt = rw f.at (nth_pin-lt a f.rank)

    accepted_service : clear_bit (pin_accepted a pin).service pin ≡ a.service
    unfolding pin_accepted
    accepted_service = ground (arith, clear_bit-set_bit a.service pin byte found_lt not_serviced)

-- The rotate bit does not enter into the priority logic.
isrpin-rotate :
    (a : Atpic) (r : Bool) → get_highest_isrpin (record a { rotate = r }) ≡ get_highest_isrpin a
unfolding get_highest_isrpin
isrpin-rotate a r = refl

lowprio-accepted : (a : Atpic) (pin : ℕ) → IsPlain a → (pin_accepted a pin).lowprio ≡ a.lowprio
unfolding pin_accepted
lowprio-accepted a pin plain = ground arith

-- Of a controller in plain mode (no special mask, no special fully nested mode, no automatic end
-- of interrupt) that accepts the pin which it interrupts for, a non-specific end of interrupt ends
-- that pin: the levels in service are those before the acceptance. With the rotate bit of the
-- command the pin becomes the lowest priority; without it the order stays.
pub eoi-accepted :
    (a : Atpic) (pin val : ℕ)
    → IsPlain a
    → a.service < 256
    → get_highest_irrpin a ≡ some pin
    → any_of val ocw2_eoi ≡ true
    → any_of val ocw2_sl ≡ false
    → let b = (ocw2 (pin_accepted a pin) val).0 in
      (b.service ≡ a.service) × (b.lowprio ≡ (if any_of val ocw2_r then pin else a.lowprio))
unfolding ocw2
eoi-accepted a pin val plain byte h eoi sl =
    let f = highest_irrpin-Found a pin h in
    rw
      (
        eoi,
        sl,
        isrpin-rotate (pin_accepted a pin) (any_of val ocw2_r),
        accepted_ends a pin plain byte f,
      )
      (accepted_service a pin plain byte f, rw (lowprio-accepted a pin plain))
