-- ===== src/PciIrq/Pins.antt =====
-- What a pin shows: its register, its devices, and the IRQ that it is given.
use bhyve_experiments.Base.{
  ℕ, ◌+◌, ◌-◌, ◌%◌, ◌^◌, ◌≤◌, ◌<◌, ◌≡◌, ◌≢◌, refl, ap, ◌∙◌, subst, true, false,
}
use bhyve_experiments.Base.{
  inl, inr, Bool-cases, Option-cases, List, [], ◌∷◌, ◌++◌, arith, some, none, if◌then◌else◌,
}
use bhyve_experiments.Base.{◌==◌, ==_iff, bit_and, length-set}
use bhyve_experiments.Base.{length, get_or, set, drop, get_or-set_self, get_or-set_ne}
use bhyve_experiments.PciIrq.{
  Pirq, Signal, Router, Devinst, fresh_pirq, pirq_at, irq_permitted, irq_disabled, pirq_bits,
}
use bhyve_experiments.PciIrq.{pirq_write, pirq_read, pin_ok, write_pirq, update, level_trigger}
use bhyve_experiments.PciIrq.{
  route, use_pin, choose_pin, find_pin, find_irq, pirq_alloc_pin, pirq_dis,
}
use bhyve_experiments.PciIrq.Alloc.{Best}
use bhyve_experiments.PciIrq.Valid.{IsValid, permitted}
use bhyve_experiments.PciIrq.Route.{found-Best, least_pin}

-- the router after pin `i` was given IRQ `irq`
abbrev after_route : Router → ℕ → ℕ → ℕ → Router
after_route r i irq count = record r {
  irq_counts = set r.irq_counts irq ((count + 1) % 2 ^ 8);
  pirqs = set r.pirqs i (record (pirq_at r i) { reg = irq });
  signals = r.signals ++ level_trigger irq ∷ [];
}

pirq_at-use_pin :
    (r : Router) (i : ℕ)
    → i < length r.pirqs
    → pirq_at (use_pin r i) i ≡ record (pirq_at r i) { use_count = (pirq_at r i).use_count + 1 }
unfolding use_pin
pirq_at-use_pin r i l = get_or-set_self r.pirqs i _ fresh_pirq l

pirq_at-after_route :
    (r : Router) (i irq count : ℕ)
    → i < length r.pirqs
    → pirq_at (after_route (use_pin r i) i irq count) i
      ≡ record (pirq_at r i) { reg = irq; use_count = (pirq_at r i).use_count + 1 }
unfolding use_pin
pirq_at-after_route r i irq count l =
    get_or-set_self (use_pin r i).pirqs i _ fresh_pirq (omega (arith, length-set r.pirqs i used))
    ∙ ap (λ (p : Pirq). record p { reg = irq }) (pirq_at-use_pin r i l)
  where
    used : Pirq
    used = record (pirq_at r i) { use_count = (pirq_at r i).use_count + 1 }

-- The pin that was given is one that was used least, and if it had no IRQ, it has one now that
-- devices may have, and that was used least of those that were not disabled.
abbrev pub IsLeastUsed : Router → Router → ℕ → Type 0
IsLeastUsed r w i =
    (i < 8)
    × ((j : ℕ) → j < 8 → (pirq_at r i).use_count ≤ (pirq_at r j).use_count)
    × ((pirq_at w i).use_count ≡ (pirq_at r i).use_count + 1)
    × ((pirq_at r i).reg ≡ pirq_dis → irq_permitted (pirq_at w i).reg ≡ true)
    × ((pirq_at r i).reg ≡ pirq_dis
        → (j : ℕ) → j < 16
        → get_or r.irq_counts j 0 ≢ irq_disabled
        → get_or r.irq_counts (pirq_at w i).reg 0 ≤ get_or r.irq_counts j 0)

-- In a router in order with an IRQ that is not disabled, and without an external boot ROM, a device
-- gets a pin that was used least; if the pin had no IRQ, it is routed to one that devices may have and that
-- was used least. No check in the code fails.
pub alloc_pin_least :
    (r : Router) (pi : Devinst) (n : ℕ)
    → IsValid r
    → n < 16
    → get_or r.irq_counts n 0 ≢ irq_disabled
    → (w : Router) × (i : ℕ) × (pirq_alloc_pin false r pi ≡ some (w, i + 1)) × IsLeastUsed r w i
unfolding pirq_alloc_pin choose_pin route use_pin
alloc_pin_least r pi n v n_lt enabled = elim (Bool-cases ((pirq_at r i).reg == pirq_dis)) [
  | inr e ↦ rw e (
    use_pin r i,
    i,
    refl,
    (
      i_lt,
      i_least,
      ap (λ (p : Pirq). p.use_count) (pirq_at-use_pin r i short),
      λ d. absurd (ground arith),
      λ d. absurd (ground arith),
    ),
  )
  | inl e ↦ elim (Option-cases (find_irq r.irq_counts 0 none)) [
    | inl f ↦
        absurd (enabled (subst (Best (λ j. get_or r.irq_counts j 0) 16) f (found-Best r v) n n_lt))
    | inr ((irq, c), f) ↦
        let (irq_lt, at_irq, on, least) =
          subst (Best (λ j. get_or r.irq_counts j 0) 16) f (found-Best r v) in
        let here = pirq_at-after_route r i irq c short in
        rw (e, f)
          (
            after_route (use_pin r i) i irq c,
            i,
            refl,
            (
              i_lt,
              i_least,
              ap (λ (p : Pirq). p.use_count) here,
              λ d. rw here (permitted r irq v irq_lt (λ q. on (at_irq ∙ q))),
              λ d j l o. rw here (omega (arith, least j l o, at_irq)),
            ),
          )
  ]
]
  where
    i : ℕ
    i = find_pin (drop 1 r.pirqs) 1 0 (pirq_at r 0).use_count

    i_lt : i < 8
    i_lt = (least_pin r v).0

    i_least : (j : ℕ) → j < 8 → (pirq_at r i).use_count ≤ (pirq_at r j).use_count
    i_least = (least_pin r v).1

    short : i < length r.pirqs
    short = omega (arith, i_lt, v.width)

pin_number : (pin : ℕ) → 0 < pin → pin < 9 → pin_ok pin ≡ true
pin_number pin low high = ground arith

pirq_write-update :
    (r : Router) (pin val : ℕ)
    → pin_ok pin ≡ true
    → pirq_write r pin val ≡ some (update r (pin - 1) (write_pirq (pirq_at r (pin - 1)) val))
unfolding pirq_write
pirq_write-update r pin val h = rw h

write_pirq_reg : (p : Pirq) (val : ℕ) → (write_pirq p val).0.reg ≡ bit_and val pirq_bits
unfolding write_pirq
write_pirq_reg p val = elim (Bool-cases (p.reg == bit_and val pirq_bits)) [
  | inl e ↦ rw e ((==_iff _ _).0 e)
  | inr e ↦ rw e
]

-- In a router in order, the register of pin `pin`, after a write of `val` to it, reads as the bits of `val` that the
-- register has; every other register reads as before. The pins are 1 to 8.
pub pirq_read-pirq_write :
    (r : Router) (pin val : ℕ)
    → IsValid r
    → 0 < pin
    → pin < 9
    → (w : Router) × (pirq_write r pin val ≡ some w)
      × (pirq_read w pin ≡ some (bit_and val pirq_bits))
      × ((other : ℕ) → 0 < other → other ≢ pin → pirq_read w other ≡ pirq_read r other)
unfolding pirq_read
pirq_read-pirq_write r pin val v low high = (
  update r (pin - 1) change,
  pirq_write-update r pin val (pin_number pin low high),
  rw (pin_number pin low high) (
      ap some (
        ap (λ (p : Pirq). p.reg)
          (get_or-set_self r.pirqs (pin - 1) change.0 fresh_pirq (omega (arith, v.width)))
        ∙ write_pirq_reg (pirq_at r (pin - 1)) val)),
  λ other l d.
      ap (λ (p : Pirq). if pin_ok other then some p.reg else none)
        (get_or-set_ne r.pirqs (pin - 1) (other - 1) change.0 fresh_pirq (λ e. omega arith)),
)
  where
    change : Pirq × List Signal
    change = write_pirq (pirq_at r (pin - 1)) val
