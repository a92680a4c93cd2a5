-- ===== src/Vioapic/Tell.antt =====
-- What one call into the I/O APIC, bios/vmm/io/vioapic.c, makes of each pin.
use bhyve_experiments.Base.{
  ℕ, zero, suc, ◌<◌, ◌≡◌, ◌⊎◌, refl, sym, ap, ◌∙◌, subst, Bool, false, inl, inr, List, [], ◌∷◌,
  ◌++◌, length, get_or, set, get_or-set_self, get_or-set_ne, bit_and, ◌==◌,
}
use native.Mathlib.Decide.{ℕ_discrete}
use bhyve_experiments.Base.Words.{digit}
use bhyve_experiments.Vioapic.{
  Vioapic, Rte, Signal, fresh_entry, with_pin, eoi_pin, eoi_pins, after_eoi, ioart_intvec,
}
use bhyve_experiments.Vioapic.Sent.{
  Sent, Told, same-Told, Among, left-Among, right-Among, message, eoi_pin-Told,
}

abbrev pub pin_at : Vioapic → ℕ → Rte
pin_at v pin = get_or v.rtbl pin fresh_entry

-- a pin under a call that was made with some more signals: `answered` if the call is the end of its
-- interrupt.
pub record IsTold (answered : Bool) (v w : Vioapic) (pin : ℕ) : Type 0 where
  pub called : List Signal
  pub appended : w.signals ≡ v.signals ++ called
  pub told : Told answered (pin_at v pin) (pin_at w pin, called)

-- A pin whose entry is as before, or that has sent
pub record IsKept (v w : Vioapic) (pin : ℕ) : Type 0 where
  pub called : List Signal
  pub appended : w.signals ≡ v.signals ++ called
  pub kept : ((pin_at w pin).reg ≡ (pin_at v pin).reg) ⊎ Sent (pin_at w pin) called

pub IsKept-IsTold : (v w : Vioapic) (pin : ℕ) → IsKept v w pin → IsTold false v w pin
IsKept-IsTold v w pin k = record {
  called = k.called;
  appended = k.appended;
  told =
      same-Told (pin_at v pin) (pin_at w pin, k.called)
        (elim k.kept [ inl same ↦ inl (ap (digit 14) same) | inr s ↦ inr s ]);
}

append_nil : (l : List Signal) → l ++ [] ≡ l
append_nil [] = refl
append_nil (x ∷ l) = ap (λ (t : List Signal). x ∷ t) (append_nil l)

append_assoc : (k l m : List Signal) → (k ++ l) ++ m ≡ k ++ (l ++ m)
append_assoc [] l m = refl
append_assoc (x ∷ k) l m = ap (λ (t : List Signal). x ∷ t) (append_assoc k l m)

pub same-IsKept :
    (v w : Vioapic) (pin : ℕ) → w.rtbl ≡ v.rtbl → w.signals ≡ v.signals → IsKept v w pin
same-IsKept v w pin same silent = record {
  called = [];
  appended = silent ∙ sym (append_nil v.signals);
  kept = inl (ap (λ (t : List Rte). (get_or t pin fresh_entry).reg) same);
}

pub then-IsKept : (u v w : Vioapic) (pin : ℕ) → IsKept u v pin → IsKept v w pin → IsKept u w pin
then-IsKept u v w pin k l = record {
  called = k.called ++ l.called;
  appended =
      l.appended
      ∙ ap (λ (t : List Signal). t ++ l.called) k.appended
      ∙ append_assoc u.signals k.called l.called;
  kept = both k.kept l.kept;
}
  where
    both :
        ((pin_at v pin).reg ≡ (pin_at u pin).reg) ⊎ Sent (pin_at v pin) k.called
        → ((pin_at w pin).reg ≡ (pin_at v pin).reg) ⊎ Sent (pin_at w pin) l.called
        → ((pin_at w pin).reg ≡ (pin_at u pin).reg) ⊎ Sent (pin_at w pin) (k.called ++ l.called)
    both p (inr (reg, now, among)) =
        inr (reg, now, right-Among (message reg) k.called l.called among)
    both (inl same) (inl also) = inl (also ∙ same)
    both (inr (reg, now, among)) (inl also) =
        inr (reg, also ∙ now, left-Among (message reg) k.called l.called among)

-- a change of one pin, seen from each of them
pub with_pin_at :
    (P : Rte → Rte × List Signal → Type 0) (v : Vioapic) (pin : ℕ)
    (change : Rte → Rte × List Signal)
    → pin < length v.rtbl
    → ((e : Rte) (l : List Signal) → P e (e, l))
    → ((e : Rte) → P e (change e))
    → (i : ℕ) → P (pin_at v i) (pin_at (with_pin v pin change) i, (change (pin_at v pin)).1)
with_pin_at P v pin change there others does i = elim (ℕ_discrete pin i) [
  | yes q ↦
      subst (λ k. P (pin_at v k) (get_or (set v.rtbl pin e') k fresh_entry, called)) q
        (subst (λ r. P (pin_at v pin) (r, called))
          (sym (get_or-set_self v.rtbl pin e' fresh_entry there)) (does (pin_at v pin)))
  | no d ↦
      subst (λ r. P (pin_at v i) (r, called)) (sym (get_or-set_ne v.rtbl pin i e' fresh_entry d))
        (others (pin_at v i) called)
]
  where
    e' : Rte
    e' = (change (pin_at v pin)).0

    called : List Signal
    called = (change (pin_at v pin)).1

pub with_pin-IsKept :
    (v : Vioapic) (pin : ℕ) (change : Rte → Rte × List Signal)
    → pin < length v.rtbl
    → ((e : Rte) → ((change e).0.reg ≡ e.reg) ⊎ Sent (change e).0 (change e).1)
    → (i : ℕ) → IsKept v (with_pin v pin change) i
with_pin-IsKept v pin change there does i = record {
  called = (change (pin_at v pin)).1;
  appended = refl;
  kept =
      with_pin_at (λ e r. (r.0.reg ≡ e.reg) ⊎ Sent r.0 r.1) v pin change there (λ e l. inl refl)
        does i;
}

pub with_pin-IsTold :
    (v : Vioapic) (pin : ℕ) (change : Rte → Rte × List Signal)
    → pin < length v.rtbl
    → ((e : Rte) → Told false e (change e))
    → (i : ℕ) → IsTold false v (with_pin v pin change) i
with_pin-IsTold v pin change there does i = record {
  called = (change (pin_at v pin)).1;
  appended = refl;
  told =
      with_pin_at (λ e r. Told false e r) v pin change there (λ e l. same-Told e (e, l) (inl refl))
        does i;
}

wider :
    (b : Bool) (e e' : Rte) (k l : List Signal)
    → ((s : Signal) → Among s k → Among s l)
    → Told b e (e', k)
    → Told b e (e', l)
wider b e e' k l f (inl z) = inl z
wider b e e' k l f (inr (inl p)) = inr (inl p)
wider b e e' k l f (inr (inr (reg, now, among))) = inr (inr (reg, now, f (message reg) among))

eoi_pins-Told :
    (vector : ℕ) (t : List Rte) (pin : ℕ)
    → let e = get_or t pin fresh_entry in
      Told
        (bit_and e.reg ioart_intvec == vector)
        e
        (get_or (eoi_pins vector t).0 pin fresh_entry, (eoi_pins vector t).1)
unfolding eoi_pins
eoi_pins-Told vector [] pin = inl refl
eoi_pins-Told vector (e ∷ t) zero =
    wider _ e (eoi_pin vector e).0 (eoi_pin vector e).1 _
      (λ s. left-Among s (eoi_pin vector e).1 (eoi_pins vector t).1) (eoi_pin-Told vector e)
eoi_pins-Told vector (e ∷ t) (suc pin) =
    wider _ (get_or t pin fresh_entry) (get_or (eoi_pins vector t).0 pin fresh_entry)
      (eoi_pins vector t).1 _ (λ s. right-Among s (eoi_pin vector e).1 (eoi_pins vector t).1)
      (eoi_pins-Told vector t pin)

pub after_eoi-IsTold :
    (v : Vioapic) (vector pin : ℕ)
    → IsTold
        (bit_and (pin_at v pin).reg ioart_intvec == vector)
        v
        (after_eoi v (eoi_pins vector v.rtbl))
        pin
after_eoi-IsTold v vector pin = record {
  called = (eoi_pins vector v.rtbl).1;
  appended = refl;
  told = eoi_pins-Told vector v.rtbl pin;
}
