-- ===== src/Vioapic/Sent.antt =====
-- The interrupts that the I/O APIC sends for one entry, bios/vmm/io/vioapic.c.
use bhyve_experiments.Base.{
  ℕ, ◌%◌, ◌/◌, ◌^◌, ◌<◌, ◌≡◌, ◌≢◌, ◌⊎◌, refl, sym, ap, ◌∙◌, arith, Bool, true, false, not, ◌&&◌,
  List, [], ◌∷◌, ◌++◌,
}
use bhyve_experiments.Base.{
  inl, inr, Bool-cases, bit_and, bit_or, ◌==◌, if◌then◌else◌, ◌||◌, ltb, ◌-◌, bit_xor,
}
use bhyve_experiments.Base.Bits.{any_of}
use bhyve_experiments.Base.Int.{equals, positive}
use bhyve_experiments.Base.Words.{digit, digit-bit_and, digit-le, any_of-pow, bit_and-mask}
use bhyve_experiments.Vioapic.{
  Rte, Signal, deliver, rendezvous, send_intr, set_pinstate, counted, can_send, write_entry,
  with_half, eoi_pin,
}
use bhyve_experiments.Vioapic.{
  ioart_intmask, ioart_rem_irr, ioart_trgrlvl, ioart_destmod, ioart_delmod, ioart_intvec,
}
use bhyve_experiments.Vioapic.Entry.{digit-with_half, is_read_only}

-- a signal that is one of a list
pub data Among (s : Signal) : List Signal → Type 0 where
  first : (l : List Signal) → Among s (s ∷ l)
  later : (t : Signal) (l : List Signal) → Among s l → Among s (t ∷ l)

pub left-Among : (s : Signal) (k l : List Signal) → Among s k → Among s (k ++ l)
left-Among s _ l (first k) = first (k ++ l)
left-Among s _ l (later t k h) = later t (k ++ l) (left-Among s k l h)

pub right-Among : (s : Signal) (k l : List Signal) → Among s l → Among s (k ++ l)
right-Among s [] l h = h
right-Among s (t ∷ k) l h = later t (k ++ l) (right-Among s k l h)

-- the interrupt of a level-triggered entry: to the destination in its top byte, in physical mode if bit
-- 11 is clear, in the delivery mode of the bits 8 to 10, with the vector in its low byte
abbrev pub message : ℕ → Signal
message reg =
    deliver true (reg / 2 ^ 56) (digit 11 reg == 0) (bit_and (reg % 2 ^ 32) ioart_delmod)
      (reg % 2 ^ 8)

-- The interrupt of an entry is among the signals, and the entry now waits for its EOI.
abbrev pub Sent : Rte → List Signal → Type 0
Sent e called = (reg : ℕ) × (e.reg ≡ bit_or reg ioart_rem_irr) × Among (message reg) called

message_lem :
    (x : ℕ)
    → deliver true
        (x / 2 ^ 32 / 2 ^ 24)
        (not (any_of (x % 2 ^ 32) ioart_destmod))
        (bit_and (x % 2 ^ 32) ioart_delmod)
        (bit_and (x % 2 ^ 32) ioart_intvec)
      ≡ message x
message_lem x =
    let top : x / 2 ^ 32 / 2 ^ 24 ≡ x / 2 ^ 56 = omega arith in
    let same : digit 11 (x % 2 ^ 32) ≡ digit 11 x = omega arith in
    let vector : x % 2 ^ 32 % 2 ^ 8 ≡ x % 2 ^ 8 = omega arith in
    let physical : not (digit 11 x == 1) ≡ (digit 11 x == 0) = ground (arith, digit-le 11 x) in
    rw (top, any_of-pow 11 (x % 2 ^ 32), same, physical, bit_and-mask 8 (x % 2 ^ 32), vector) refl

pub send_intr-Sent :
    (e : Rte) → ((send_intr e).0.reg ≡ e.reg) ⊎ Sent (send_intr e).0 (send_intr e).1
unfolding send_intr
send_intr-Sent e = elim (Bool-cases (any_of (e.reg % 2 ^ 32) ioart_intmask)) [
  | inl masked ↦ rw masked (inl refl)
  | inr clear ↦ elim (Bool-cases (any_of (e.reg % 2 ^ 32) ioart_trgrlvl)) [
    | inl level ↦ rw (clear, level, message_lem e.reg) (inr (e.reg, refl, first []))
    | inr edge ↦ rw (clear, edge) (inl refl)
  ]
]

pub set_pinstate-Sent :
    (newstate : Bool) (e : Rte)
    → ((set_pinstate newstate e).0.reg ≡ e.reg)
      ⊎ Sent (set_pinstate newstate e).0 (set_pinstate newstate e).1
unfolding set_pinstate
set_pinstate-Sent newstate e =
    elim (Bool-cases (equals e.acnt 0 && equals (counted e newstate).acnt 1)) [
      | inl q ↦ rw q (send_intr-Sent (counted e newstate))
      | inr q ↦ rw q (inl refl)
    ]

-- What a call makes of a pin: the pin does not wait for an EOI, or it did so before and was not answered,
-- or the call has sent its interrupt.
abbrev pub Told : Bool → Rte → Rte × List Signal → Type 0
Told answered e (e', called) =
    (digit 14 e'.reg ≡ 0) ⊎ ((digit 14 e.reg ≡ 1) × (answered ≡ false)) ⊎ Sent e' called

zero_or_one : (x : ℕ) → (digit 14 x ≡ 0) ⊎ (digit 14 x ≡ 1)
zero_or_one x = elim (Bool-cases (digit 14 x == 0)) [
  | inl e ↦ inl (ground arith)
  | inr e ↦ inr (omega (arith, digit-le 14 x, not_zero (digit 14 x) e))
]
  where
    not_zero : (d : ℕ) → (d == 0) ≡ false → d ≢ 0
    not_zero d h = ground arith

-- a pin whose remote IRR is as before, or that has sent
pub same-Told :
    (e : Rte) (r : Rte × List Signal)
    → (digit 14 r.0.reg ≡ digit 14 e.reg) ⊎ Sent r.0 r.1
    → Told false e r
same-Told e r (inl same) = elim (zero_or_one r.0.reg) [
  | inl z ↦ inl z
  | inr o ↦ inr (inl (sym same ∙ o, refl))
]
same-Told e r (inr s) = inr (inr s)

pub write_entry-Told :
    (upper : Bool) (word : ℕ) (e : Rte) → word < 2 ^ 32 → Told false e (write_entry upper word e)
unfolding write_entry
write_entry-Told upper word e small =
    same-Told e (write_entry upper word e) (elim (Bool-cases (can_send written)) [
      | inl q ↦ rw q (sent (send_intr-Sent written))
      | inr q ↦ rw q (inl kept)
    ])
  where
    written : Rte
    written = record e { reg = with_half upper word e.reg }

    kept : digit 14 written.reg ≡ digit 14 e.reg
    kept = digit-with_half upper word e.reg 14 small (omega arith) ∙ by_half upper
      where
        by_half :
            (b : Bool)
            → (if b
                then (if ltb 14 32 then digit 14 e.reg else digit (14 - 32) word)
                else if ltb 14 32 && not (is_read_only 14)
                then digit 14 word
                else digit 14 e.reg)
              ≡ digit 14 e.reg
        by_half true = refl
        by_half false = refl

    told : List Signal
    told = if any_of (bit_xor e.reg written.reg) 0xfffffffffffedfff then rendezvous ∷ [] else []

    sent :
        ((send_intr written).0.reg ≡ written.reg) ⊎ Sent (send_intr written).0 (send_intr written).1
        → (digit 14 (send_intr written).0.reg ≡ digit 14 e.reg)
          ⊎ Sent (send_intr written).0 (told ++ (send_intr written).1)
    sent (inl same) = inl (ap (digit 14) same ∙ kept)
    sent (inr (reg, now, among)) =
        inr (reg, now, right-Among (message reg) told (send_intr written).1 among)

pub eoi_pin-Told :
    (vector : ℕ) (e : Rte) → Told (bit_and e.reg ioart_intvec == vector) e (eoi_pin vector e)
unfolding eoi_pin
eoi_pin-Told vector e =
    elim (Bool-cases
      (not (any_of e.reg ioart_rem_irr) || not (bit_and e.reg ioart_intvec == vector))) [
        | inl q ↦ rw q (untouched q)
        | inr q ↦ elim (Bool-cases (positive e.acnt)) [
          | inl p ↦ rw (q, p) (again (send_intr-Sent answered))
          | inr p ↦ rw (q, p) (inl cleared)
        ]
      ]
  where
    answered : Rte
    answered = record e { reg = bit_and e.reg 0xffffffffffffbfff }

    cleared : digit 14 answered.reg ≡ 0
    cleared = digit-bit_and 14 e.reg 0xffffffffffffbfff ∙ omega (arith, digit-le 14 e.reg)

    untouched :
        (not (any_of e.reg ioart_rem_irr) || not (bit_and e.reg ioart_intvec == vector)) ≡ true
        → Told (bit_and e.reg ioart_intvec == vector) e (e, [])
    untouched q = elim (zero_or_one e.reg) [
      | inl z ↦ inl z
      | inr o ↦
          let waits : any_of e.reg ioart_rem_irr ≡ true = any_of-pow 14 e.reg ∙ rw o refl in
          inr (inl (o, ground arith))
    ]

    again :
        ((send_intr answered).0.reg ≡ answered.reg)
          ⊎ Sent (send_intr answered).0 (send_intr answered).1
        → Told (bit_and e.reg ioart_intvec == vector) e (send_intr answered)
    again (inl same) = inl (ap (digit 14) same ∙ cleared)
    again (inr s) = inr (inr s)
