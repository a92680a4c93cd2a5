-- ===== src/Inout/Register.antt =====
-- Which handlers a registration replaces.
use bhyve_experiments.Base.{
  ℕ, zero, suc, ◌+◌, ◌≡◌, inl, inr, refl, sym, ap, ◌∙◌, arith, Bool, true, false, ◌&&◌, some,
  if◌then◌else◌, ltb, leb, ◌==◌, Bool-cases,
}
use bhyve_experiments.Base.Int.{ℤ, pos, negsuc}
use bhyve_experiments.Inout.{
  PortHandler, InoutPort, Handlers, verify_ioport, is_default, all_free, all_set, register_inout,
}

-- the port is one of `n` from `i` on
abbrev pub within : ℕ → ℕ → ℕ → Bool
within i n p = leb i p && ltb p (i + n)

free_within :
    (t : Handlers) (n i p : ℕ)
    → all_free t i n ≡ true
    → within i n p ≡ true
    → is_default (t p) ≡ true
unfolding all_free
free_within t zero i p h w = ground arith
free_within t (suc n) i p h w = elim (Bool-cases (p == i)) [
  | inl e ↦
      let same : i ≡ p = ground arith in
      let here : is_default (t i) ≡ true = ground arith in
      sym (ap (λ q. is_default (t q)) same) ∙ here
  | inr e ↦
      let rest : all_free t (i + 1) n ≡ true = ground arith in
      let later : within (i + 1) n p ≡ true = ground arith in free_within t n (i + 1) p rest later
]

taken_within :
    (t : Handlers) (n i : ℕ)
    → all_free t i n ≡ false
    → (p : ℕ) × (within i n p ≡ true) × (is_default (t p) ≡ false)
unfolding all_free
taken_within t zero i h = cc
taken_within t (suc n) i h = elim (Bool-cases (is_default (t i))) [
  | inl e ↦
      let rest : all_free t (i + 1) n ≡ false = ground arith in
      let (p, w, taken) = taken_within t n (i + 1) rest in
      let here : within i (suc n) p ≡ true = ground arith in (p, here, taken)
  | inr e ↦ let here : within i (suc n) i ≡ true = ground arith in (i, here, e)
]

all_set_at :
    (t : Handlers) (e : PortHandler) (n i p : ℕ)
    → all_set t e i n p ≡ (if within i n p then e else t p)
unfolding all_set
all_set_at t e zero i p = ground arith
all_set_at t e (suc n) i p =
    all_set_at (λ q. if q == i then e else t q) e n (i + 1) p ∙ joined_at (t p)
  where
    joined_at :
        (old : PortHandler)
        → (if within (i + 1) n p then e else (if p == i then e else old))
          ≡ (if within i (suc n) p then e else old)
    joined_at old = ground arith

-- What comes of a registration: it takes a range that was free, or leaves everything as it was
-- because a port of its range was taken.
pub data Registered (t : Handlers) (iop : InoutPort) : Handlers → ℤ → Type 0 where
  takes :
      (t' : Handlers)
      → ((p : ℕ) → within iop.port iop.size p ≡ true → is_default (t p) ≡ true)
      → ((p : ℕ) → t' p ≡ (if within iop.port iop.size p then iop.entry else t p))
      → Registered t iop t' (pos 0)
  refuses :
      (p : ℕ)
      → within iop.port iop.size p ≡ true
      → is_default (t p) ≡ false
      → Registered t iop t (negsuc 0)

-- A registration within the ports that is not of the default handler ends without a failed assertion. It
-- returns 0 if all ports of its range were free, and then exactly these have the new handler; or -1
-- if one of them was taken, and then nothing has changed.
pub register_inout-Registered :
    (t : Handlers) (iop : InoutPort)
    → verify_ioport iop.port iop.size ≡ true
    → is_default iop.entry ≡ false
    → (t' : Handlers) × (err : ℤ) × (register_inout t iop ≡ some (t', err))
      × Registered t iop t' err
unfolding register_inout
register_inout-Registered t iop inside own = elim (Bool-cases (all_free t iop.port iop.size)) [
  | inl free ↦ (
    all_set t iop.entry iop.port iop.size,
    pos 0,
    rw (inside, own, free) refl,
    takes (all_set t iop.entry iop.port iop.size) (λ p. free_within t iop.size iop.port p free)
        (λ p. all_set_at t iop.entry iop.size iop.port p),
  )
  | inr taken ↦
      let (p, w, busy) = taken_within t iop.size iop.port taken in
      (t, negsuc 0, rw (inside, own, taken) refl, refuses p w busy)
]
