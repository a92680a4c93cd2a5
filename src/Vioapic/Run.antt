-- ===== src/Vioapic/Run.antt =====
-- Every sequence of calls into the I/O APIC.
use bhyve_experiments.Base.{
  ℕ, zero, suc, ◌%◌, ◌^◌, ◌<◌, ◌≡◌, refl, sym, subst, arith, Bool, true, false, inl, inr,
  Bool-cases,
}
use bhyve_experiments.Base.{
  List, [], ◌∷◌, length, get_or, replicate, leb, ◌==◌, if◌then◌else◌, ◌&&◌, ◌||◌, not, Option, some,
  ◌>>=◌, bit_and, ltb,
}
use bhyve_experiments.Base.Ends.{Ends, ended, then-Ends}
use bhyve_experiments.Vioapic.{after_eoi, ioart_intvec}
use bhyve_experiments.Vioapic.Sent.{set_pinstate-Sent, write_entry-Told}
use bhyve_experiments.Vioapic.Tell.{
  pin_at, IsTold, IsKept, IsKept-IsTold, same-IsKept, then-IsKept, with_pin-IsKept, with_pin-IsTold,
  after_eoi-IsTold,
}
use bhyve_experiments.Vioapic.{
  Vioapic, Rte, IrqState, assert_irq, deassert_irq, pulse_irq, fresh_entry, with_pin, set_pinstate,
  set_irqstate,
}
use bhyve_experiments.Vioapic.{
  write, write_entry, mmio_write, is_redirection, is_upper, pin_of, eoi_pins, process_eoi,
  vioapic_init, redir_entries, offset_of,
}
use bhyve_experiments.Vioapic.Pending.{IsPending, set_pinstate-IsPending}
use bhyve_experiments.Vioapic.Valid.{
  IsValid, set_irqstate-IsValid, mmio_write-IsValid, after_eoi-IsValid, with_pin-IsValid, in_table,
  redirected,
}

-- a call that changes the I/O APIC: an IRQ line, a write of the guest, the end of an interrupt
pub data Call : Type 0 where
  line : ℕ → IrqState → Call
  mmio : ℕ → ℕ → ℕ → Call
  eoi : ℕ → Call

-- the state after a call: `none` if an assertion fails
unfoldable pub call : Call → Vioapic → Option Vioapic
call (line irq state) v = some (set_irqstate v irq state).0
call (mmio gpa size val) v = some (mmio_write v gpa size val)
call (eoi vector) v = process_eoi v vector

unfoldable pub calls : List Call → Vioapic → Option Vioapic
calls [] v = some v
calls (c ∷ rest) v = call c v >>= calls rest

-- The vector of an end of interrupt has 8 bits.
unfoldable pub IsSound : Call → Type 0
IsSound (line irq state) = Unit {0}
IsSound (mmio gpa size val) = Unit {0}
IsSound (eoi vector) = vector < 256

unfoldable pub AllSound : List Call → Type 0
AllSound [] = Unit {0}
AllSound (c ∷ rest) = IsSound c × AllSound rest

-- The call ends the interrupt of the pin.
unfoldable pub answers : Call → Rte → Bool
answers (line irq state) e = false
answers (mmio gpa size val) e = false
answers (eoi vector) e = bit_and e.reg ioart_intvec == vector

result_of :
    {P : Vioapic → Type 0} → {x : Option Vioapic} → Ends P x → (v : Vioapic) × (x ≡ some v) × P v
result_of (ended v p) = (v, refl, p)

-- A state and what a call makes of it
abbrev After : Call → Vioapic → Vioapic → Type 0
After c v w = IsValid w × ((pin : ℕ) → IsTold (answers c (pin_at v pin)) v w pin)

kept-IsTold : (v w : Vioapic) → ((pin : ℕ) → IsKept v w pin) → (pin : ℕ) → IsTold false v w pin
kept-IsTold v w h pin = IsKept-IsTold v w pin (h pin)

inside : (v : Vioapic) (irq : ℕ) → IsValid v → leb redir_entries irq ≡ false → irq < length v.rtbl
inside v irq (width, h) q = omega (arith, in_table irq q)

set_irqstate-IsKept :
    (v : Vioapic) (irq : ℕ) (state : IrqState)
    → IsValid v
    → (pin : ℕ) → IsKept v (set_irqstate v irq state).0 pin
unfolding set_irqstate
set_irqstate-IsKept v irq assert_irq h pin = elim (Bool-cases (leb redir_entries irq)) [
  | inl q ↦ rw q (same-IsKept v v pin refl refl)
  | inr q ↦
      rw q
        (with_pin-IsKept v irq (set_pinstate true) (inside v irq h q) (set_pinstate-Sent true) pin)
]
set_irqstate-IsKept v irq deassert_irq h pin = elim (Bool-cases (leb redir_entries irq)) [
  | inl q ↦ rw q (same-IsKept v v pin refl refl)
  | inr q ↦
      rw q (
        with_pin-IsKept v irq (set_pinstate false) (inside v irq h q) (set_pinstate-Sent false) pin)
]
set_irqstate-IsKept v irq pulse_irq h pin = elim (Bool-cases (leb redir_entries irq)) [
  | inl q ↦ rw q (same-IsKept v v pin refl refl)
  | inr q ↦
      let up = with_pin v irq (set_pinstate true) in
      let held =
        with_pin-IsValid v irq (set_pinstate true) (set_pinstate-IsPending true) (in_table irq q)
          h in
      rw q (
        then-IsKept v up (with_pin up irq (set_pinstate false)) pin
          (with_pin-IsKept v irq (set_pinstate true) (inside v irq h q) (set_pinstate-Sent true)
            pin)
          (with_pin-IsKept up irq (set_pinstate false) (inside up irq held q)
            (set_pinstate-Sent false) pin))
]

untouched :
    (v w : Vioapic) (pin : ℕ) → w.rtbl ≡ v.rtbl → w.signals ≡ v.signals → IsTold false v w pin
untouched v w pin same silent = IsKept-IsTold v w pin (same-IsKept v w pin same silent)

write-IsTold :
    (v : Vioapic) (addr word : ℕ)
    → word < 2 ^ 32
    → IsValid v
    → (pin : ℕ) → IsTold false v (write v addr word) pin
unfolding write
write-IsTold v addr word small h pin = elim (Bool-cases (addr % 2 ^ 8 == 0x00)) [
  | inl q ↦ rw q (untouched v (record v { id = bit_and word 0xff000000 }) pin refl refl)
  | inr q ↦ elim (Bool-cases (is_redirection (addr % 2 ^ 8))) [
    | inl p ↦
        rw (q, p)
          (with_pin-IsTold v (pin_of (addr % 2 ^ 8)) (write_entry (is_upper (addr % 2 ^ 8)) word)
            (omega (arith, h.0, redirected (addr % 2 ^ 8) p))
            (λ e. write_entry-Told (is_upper (addr % 2 ^ 8)) word e small) pin)
    | inr p ↦ rw (q, p) (untouched v v pin refl refl)
  ]
]

either-IsTold :
    (u : Vioapic) (b : Bool) (v w : Vioapic) (pin : ℕ)
    → IsTold false u v pin
    → IsTold false u w pin
    → IsTold false u (if b then v else w) pin
either-IsTold u true v w pin p q = p
either-IsTold u false v w pin p q = q

mmio_write-IsTold :
    (v : Vioapic) (gpa size val : ℕ)
    → IsValid v
    → (pin : ℕ) → IsTold false v (mmio_write v gpa size val) pin
unfolding mmio_write
mmio_write-IsTold v gpa size val h pin =
    let selects = record v { ioregsel = val % 2 ^ 32 } in
    let rest = if offset_of gpa == 0x00 then selects else write v v.ioregsel (val % 2 ^ 32) in
    either-IsTold v (not (size == 4) || not (offset_of gpa == 0x00) && not (offset_of gpa == 0x10))
      v rest pin (untouched v v pin refl refl)
      (either-IsTold v (offset_of gpa == 0x00) selects (write v v.ioregsel (val % 2 ^ 32)) pin
        (untouched v selects pin refl refl)
        (write-IsTold v v.ioregsel (val % 2 ^ 32) (omega arith) h pin))

process_eoi_lem :
    (v : Vioapic) (vector : ℕ)
    → ltb vector 256 ≡ true
    → process_eoi v vector ≡ some (after_eoi v (eoi_pins vector v.rtbl))
unfolding process_eoi
process_eoi_lem v vector byte = rw byte refl

call-Ends : (c : Call) (v : Vioapic) → IsSound c → IsValid v → Ends (After c v) (call c v)
unfolding call IsSound answers
call-Ends (line irq state) v s h = ended _ (
  set_irqstate-IsValid v irq state h,
  kept-IsTold v (set_irqstate v irq state).0 (set_irqstate-IsKept v irq state h),
)
call-Ends (mmio gpa size val) v s h =
    ended _ (mmio_write-IsValid v gpa size val h, mmio_write-IsTold v gpa size val h)
call-Ends (eoi vector) v s h =
    let byte : ltb vector 256 ≡ true = ground arith in
    rw (process_eoi_lem v vector byte)
      (ended _ (after_eoi-IsValid v vector h, after_eoi-IsTold v vector))

calls-Ends : (l : List Call) (v : Vioapic) → AllSound l → IsValid v → Ends IsValid (calls l v)
unfolding calls AllSound
calls-Ends [] v s h = ended v h
calls-Ends (c ∷ rest) v (s, sound) h =
    then-Ends (After c v) IsValid (call c v) (calls rest) (call-Ends c v s h)
      (λ w k. calls-Ends rest w sound k.0)

get_or-replicate : (n pin : ℕ) (e : Rte) → get_or (replicate n e) pin e ≡ e
get_or-replicate zero pin e = refl
get_or-replicate (suc n) zero e = refl
get_or-replicate (suc n) (suc pin) e = get_or-replicate n pin e

init-IsPending : IsValid vioapic_init
init-IsPending = (
  refl,
  λ pin.
      subst IsPending (sym (get_or-replicate redir_entries pin fresh_entry))
        (λ a level clear. absurd (omega arith)),
)

-- After any calls from the initial state on (IRQ lines that are asserted, deasserted or pulsed, writes of
-- the guest to the registers, ends of interrupts whose vectors have 8 bits), and one more call: no assertion
-- fails, and in the new state, for each pin:
-- a pin that is asserted, level-triggered and not masked waits for an EOI (its remote IRR is set); and a
-- pin that waits for an EOI either did so before, and the call is not an EOI of its vector, or the call has
-- sent its interrupt, with its destination, modes and vector, in this call.
pub calls-IsPending :
    (l : List Call) (c : Call)
    → AllSound l
    → IsSound c
    → (v : Vioapic) × (w : Vioapic) × (calls l vioapic_init ≡ some v)
      × (call c v ≡ some w)
      × ((pin : ℕ) → IsPending (pin_at w pin) × IsTold (answers c (pin_at v pin)) v w pin)
calls-IsPending l c sound s =
    let (v, before, h) = result_of (calls-Ends l vioapic_init sound init-IsPending) in
    let (w, now, k) = result_of (call-Ends c v s h) in
    (v, w, before, now, λ pin. (k.0.1 pin, k.1 pin))
