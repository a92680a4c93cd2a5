-- ===== src/Vioapic/Valid.antt =====
-- The table of the I/O APIC under one call, bios/vmm/io/vioapic.c.
use bhyve_experiments.Base.{
  ℕ, zero, suc, ◌%◌, ◌^◌, ◌<◌, ◌≡◌, refl, sym, ap, ◌∙◌, subst, arith, Bool, true, false, inl, inr,
  Bool-cases,
}
use bhyve_experiments.Base.{
  List, [], ◌∷◌, length, get_or, set, length-set, get_or-set_self, get_or-set_ne, leb, ◌==◌,
  if◌then◌else◌, ◌&&◌, ◌||◌, not,
}
use bhyve_experiments.Vioapic.{after_eoi}
use native.Mathlib.Decide.{ℕ_discrete}
use bhyve_experiments.Vioapic.{
  Vioapic, Rte, Signal, IrqState, assert_irq, deassert_irq, pulse_irq, fresh_entry, with_pin,
  set_pinstate, set_irqstate,
}
use bhyve_experiments.Vioapic.{
  write, write_entry, mmio_write, is_redirection, is_upper, pin_of, eoi_pin, eoi_pins,
  redir_entries, offset_of,
}
use bhyve_experiments.Vioapic.Pending.{
  IsPending, set_pinstate-IsPending, write_entry-IsPending, eoi_pin-IsPending,
}

-- every pin of the table, and that there are 32
abbrev pub IsValid : Vioapic → Type 0
IsValid v =
    (length v.rtbl ≡ redir_entries) × ((pin : ℕ) → IsPending (get_or v.rtbl pin fresh_entry))

pub with_pin-IsValid :
    (v : Vioapic) (pin : ℕ) (change : Rte → Rte × List Signal)
    → ((e : Rte) → IsPending e → IsPending (change e).0)
    → pin < redir_entries
    → IsValid v
    → IsValid (with_pin v pin change)
with_pin-IsValid v pin change keeps l (width, h) = (
  length-set v.rtbl pin e' ∙ width,
  λ i. elim (ℕ_discrete pin i) [
    | yes q ↦
        subst (λ k. IsPending (get_or (set v.rtbl pin e') k fresh_entry)) q
          (subst IsPending (sym (get_or-set_self v.rtbl pin e' fresh_entry (omega (arith, width))))
            (keeps e (h pin)))
    | no d ↦ subst IsPending (sym (get_or-set_ne v.rtbl pin i e' fresh_entry d)) (h i)
  ],
)
  where
    e : Rte
    e = get_or v.rtbl pin fresh_entry

    e' : Rte
    e' = (change e).0

pub in_table : (irq : ℕ) → leb redir_entries irq ≡ false → irq < redir_entries
in_table irq h = ground arith

pub set_irqstate-IsValid :
    (v : Vioapic) (irq : ℕ) (state : IrqState) → IsValid v → IsValid (set_irqstate v irq state).0
unfolding set_irqstate
set_irqstate-IsValid v irq assert_irq h = elim (Bool-cases (leb redir_entries irq)) [
  | inl q ↦ rw q h
  | inr q ↦
      rw q (
        with_pin-IsValid v irq (set_pinstate true) (set_pinstate-IsPending true) (in_table irq q) h)
]
set_irqstate-IsValid v irq deassert_irq h = elim (Bool-cases (leb redir_entries irq)) [
  | inl q ↦ rw q h
  | inr q ↦ rw q (
      with_pin-IsValid v irq (set_pinstate false) (set_pinstate-IsPending false) (in_table irq q) h)
]
set_irqstate-IsValid v irq pulse_irq h = elim (Bool-cases (leb redir_entries irq)) [
  | inl q ↦ rw q h
  | inr q ↦ rw q (
      with_pin-IsValid (with_pin v irq (set_pinstate true)) irq (set_pinstate false)
        (set_pinstate-IsPending false) (in_table irq q)
        (with_pin-IsValid v irq (set_pinstate true) (set_pinstate-IsPending true) (in_table irq q)
          h))
]

pub redirected : (regnum : ℕ) → is_redirection regnum ≡ true → pin_of regnum < redir_entries
redirected regnum h = ground arith

write-IsValid : (v : Vioapic) (addr word : ℕ) → IsValid v → IsValid (write v addr word)
unfolding write
write-IsValid v addr word h = elim (Bool-cases (addr % 2 ^ 8 == 0x00)) [
  | inl q ↦ rw q h
  | inr q ↦ elim (Bool-cases (is_redirection (addr % 2 ^ 8))) [
    | inl p ↦
        rw (q, p)
          (with_pin-IsValid v (pin_of (addr % 2 ^ 8)) (write_entry (is_upper (addr % 2 ^ 8)) word)
            (λ e k. write_entry-IsPending (is_upper (addr % 2 ^ 8)) word e)
            (redirected (addr % 2 ^ 8) p) h)
    | inr p ↦ rw (q, p) h
  ]
]

pick : (b : Bool) (v w : Vioapic) → IsValid v → IsValid w → IsValid (if b then v else w)
pick true v w h k = h
pick false v w h k = k

pub mmio_write-IsValid :
    (v : Vioapic) (gpa size val : ℕ) → IsValid v → IsValid (mmio_write v gpa size val)
unfolding mmio_write
mmio_write-IsValid v gpa size val h =
    pick (not (size == 4) || not (offset_of gpa == 0x00) && not (offset_of gpa == 0x10)) _ _ h
      (pick (offset_of gpa == 0x00) _ _ h (write-IsValid v v.ioregsel (val % 2 ^ 32) h))

eoi_pins-IsPending :
    (vector : ℕ) (t : List Rte)
    → ((pin : ℕ) → IsPending (get_or t pin fresh_entry))
    → (length (eoi_pins vector t).0 ≡ length t)
      × ((pin : ℕ) → IsPending (get_or (eoi_pins vector t).0 pin fresh_entry))
unfolding eoi_pins
eoi_pins-IsPending vector [] h = (refl, h)
eoi_pins-IsPending vector (e ∷ t) h =
    let (width, rest) = eoi_pins-IsPending vector t (λ pin. h (suc pin)) in (ap suc width, at rest)
  where
    at :
        ((pin : ℕ) → IsPending (get_or (eoi_pins vector t).0 pin fresh_entry))
        → (pin : ℕ)
        → IsPending (get_or ((eoi_pin vector e).0 ∷ (eoi_pins vector t).0) pin fresh_entry)
    at rest zero = eoi_pin-IsPending vector e (h 0)
    at rest (suc pin) = rest pin

pub after_eoi-IsValid :
    (v : Vioapic) (vector : ℕ) → IsValid v → IsValid (after_eoi v (eoi_pins vector v.rtbl))
after_eoi-IsValid v vector (width, h) =
    let (same_width, pins) = eoi_pins-IsPending vector v.rtbl h in (same_width ∙ width, pins)
