-- ===== src/Vioapic/Pending.antt =====
-- One entry of the I/O APIC, bios/vmm/io/vioapic.c, and whether it waits for an EOI.
use bhyve_experiments.Base.{
  ℕ, zero, suc, ◌%◌, ◌^◌, ◌≡◌, ◌≢◌, sym, ap, ◌∙◌, arith, Bool, true, false, not, ◌&&◌,
}
use bhyve_experiments.Base.{inl, inr, Bool-cases, bit_and, bit_or, ◌==◌, if◌then◌else◌, ◌||◌}
use bhyve_experiments.Base.Bits.{any_of}
use bhyve_experiments.Base.Int.{ℤ, pos, negsuc, incr, decr, equals, positive}
use bhyve_experiments.Base.Words.{digit, digit-bit_or, digit-le, any_of-pow}
use bhyve_experiments.Vioapic.{
  Rte, send_intr, set_pinstate, counted, can_send, write_entry, with_half, eoi_pin,
}
use bhyve_experiments.Vioapic.{ioart_intmask, ioart_rem_irr, ioart_trgrlvl, ioart_intvec}

-- An entry whose pin is asserted, level-triggered and not masked waits for its EOI: `IOART_REM_IRR`
-- is set, which it is when the interrupt is delivered.
abbrev pub IsPending : Rte → Type 0
IsPending e = positive e.acnt ≡ true → digit 15 e.reg ≡ 1 → digit 16 e.reg ≡ 0 → digit 14 e.reg ≡ 1

low_digits : (x : ℕ) → (digit 15 (x % 2 ^ 32) ≡ digit 15 x) × (digit 16 (x % 2 ^ 32) ≡ digit 16 x)
low_digits x = (omega arith, omega arith)

level_test : (x : ℕ) → any_of (x % 2 ^ 32) ioart_trgrlvl ≡ (digit 15 x == 1)
level_test x = any_of-pow 15 (x % 2 ^ 32) ∙ ap (λ d. d == 1) (low_digits x).0

mask_test : (x : ℕ) → any_of (x % 2 ^ 32) ioart_intmask ≡ (digit 16 x == 1)
mask_test x = any_of-pow 16 (x % 2 ^ 32) ∙ ap (λ d. d == 1) (low_digits x).1

raised :
    (x : ℕ)
    → (digit 14 (bit_or x ioart_rem_irr) ≡ 1)
      × (digit 15 (bit_or x ioart_rem_irr) ≡ digit 15 x)
      × (digit 16 (bit_or x ioart_rem_irr) ≡ digit 16 x)
raised x = (
  digit-bit_or 14 x ioart_rem_irr ∙ omega (arith, digit-le 14 x),
  digit-bit_or 15 x ioart_rem_irr ∙ omega (arith, digit-le 15 x),
  digit-bit_or 16 x ioart_rem_irr ∙ omega (arith, digit-le 16 x),
)

is_one : (d : ℕ) → (d == 1) ≡ true → d ≡ 1
is_one d h = ground arith

not_one : (d : ℕ) → (d == 1) ≡ false → d ≢ 1
not_one d h = ground arith

-- A delivery leaves the entry waiting for its EOI.
send_intr-IsPending : (e : Rte) → IsPending (send_intr e).0
unfolding send_intr
send_intr-IsPending e = elim (Bool-cases (digit 16 e.reg == 1)) [
  | inl masked ↦
      rw (mask_test e.reg, masked)
        (λ a level open_. absurd (omega (arith, is_one (digit 16 e.reg) masked)))
  | inr clear ↦ elim (Bool-cases (digit 15 e.reg == 1)) [
    | inl level ↦ rw (mask_test e.reg, clear, level_test e.reg, level) (λ a b c. (raised e.reg).0)
    | inr edge ↦
        rw (mask_test e.reg, clear, level_test e.reg, edge)
          (λ a level b. absurd (not_one (digit 15 e.reg) edge level))
  ]
]

still_positive :
    (z : ℤ) (newstate : Bool)
    → (equals z 0 && equals (if newstate then incr z else decr z) 1) ≡ false
    → positive (if newstate then incr z else decr z) ≡ true
    → positive z ≡ true
unfolding incr decr
still_positive (pos zero) true e p = ground arith
still_positive (pos (suc k)) true e p = ground arith
still_positive (negsuc zero) true e p = ground arith
still_positive (negsuc (suc k)) true e p = ground arith
still_positive (pos zero) false e p = ground arith
still_positive (pos (suc k)) false e p = ground arith
still_positive (negsuc k) false e p = ground arith

pub set_pinstate-IsPending :
    (newstate : Bool) (e : Rte) → IsPending e → IsPending (set_pinstate newstate e).0
unfolding set_pinstate
set_pinstate-IsPending newstate e h =
    elim (Bool-cases (equals e.acnt 0 && equals (counted e newstate).acnt 1)) [
      | inl q ↦ rw q (send_intr-IsPending (counted e newstate))
      | inr q ↦ rw q (λ a level clear. h (still_positive e.acnt newstate q a) level clear)
    ]

waits :
    (x y : ℕ) (p : Bool) → (not (x == 1) && not (y == 1) && p) ≡ false → p ≡ true → x ≡ 0 → y ≡ 1
waits x y p q a clear = ground arith

cannot_send :
    (e : Rte)
    → can_send e ≡ false
    → positive e.acnt ≡ true
    → digit 16 e.reg ≡ 0
    → digit 14 e.reg ≡ 1
cannot_send e q a clear =
    waits (digit 16 e.reg) (digit 14 e.reg) (positive e.acnt)
      (ap (λ b. not b && not (digit 14 e.reg == 1) && positive e.acnt) (sym (any_of-pow 16 e.reg))
        ∙ ap (λ b. not (any_of e.reg ioart_intmask) && not b && positive e.acnt)
            (sym (any_of-pow 14 e.reg))
        ∙ q)
      a clear

pub write_entry-IsPending :
    (upper : Bool) (word : ℕ) (e : Rte) → IsPending (write_entry upper word e).0
unfolding write_entry
write_entry-IsPending upper word e = elim (Bool-cases (can_send written)) [
  | inl q ↦ rw q (send_intr-IsPending written)
  | inr q ↦ rw q (λ a level clear. cannot_send written q a clear)
]
  where
    written : Rte
    written = record e { reg = with_half upper word e.reg }

pub eoi_pin-IsPending : (vector : ℕ) (e : Rte) → IsPending e → IsPending (eoi_pin vector e).0
unfolding eoi_pin
eoi_pin-IsPending vector e h =
    elim (Bool-cases
      (not (any_of e.reg ioart_rem_irr) || not (bit_and e.reg ioart_intvec == vector))) [
        | inl q ↦ rw q h
        | inr q ↦ elim (Bool-cases (positive e.acnt)) [
          | inl p ↦ rw (q, p) (send_intr-IsPending answered)
          | inr p ↦ rw (q, p) (λ a. cc)
        ]
      ]
  where
    answered : Rte
    answered = record e { reg = bit_and e.reg 0xffffffffffffbfff }
