-- ===== src/Vlapic/Eoi.antt =====
-- The end of an interrupt, `vlapic_process_eoi` of bios/vmm/io/vlapic.c, alone and behind an
-- acceptance.
use bhyve_experiments.Base.Ends.{Ends, ended}
use bhyve_experiments.Base.{
  ℕ, ◌+◌, ◌<◌, ◌≤◌, ◌≡◌, inl, inr, refl, sym, ap, ◌∙◌, subst, arith, true, false, not, ◌&&◌, [],
  ◌∷◌, ◌++◌, none, some, if◌then◌else◌,
}
use bhyve_experiments.Base.{leb, ◌==◌, ◌>>=◌, Bool-cases, Option-cases}
use bhyve_experiments.Vlapic.Vectors.{highest, has_vec, set_vec, clear_vec}
use bhyve_experiments.Vlapic.Vectors.Laws.{
  highest-some, highest-none, has_vec-set_vec, has_vec-clear_vec,
}
use bhyve_experiments.Vlapic.Apic.{
  Vlapic, Service, ioapic_eoi, isrvec_stk_size, new_ppr, update_ppr, popped, pushed, told_ioapic,
  end_vector, process_eoi, intr_accepted,
}
use bhyve_experiments.Vlapic.Apic.Stack.{IsStack, entry, few, stack_ok-IsStack}
use bhyve_experiments.Vlapic.Apic.Moves.{
  pushed-IsStack, popped-IsStack, top_entry, old_entry, new_entry,
}
use bhyve_experiments.Vlapic.Good.{IsGood, Offers}
use bhyve_experiments.Vlapic.Offer.{served_below}

-- What the end of an interrupt makes of an APIC: nothing if no vector is in service. Else exactly the
-- highest vector leaves, and the I/O APIC is told if it is level-triggered.
pub data EoiOf (v : Vlapic) : Vlapic → Type 0 where
  gratuitous : ((u : ℕ) → u < 256 → has_vec v.serv.isr u ≡ false) → EoiOf v v
  top_ended :
      (t : ℕ) (w : Vlapic)
      → t < 256
      → has_vec v.serv.isr t ≡ true
      → ((u : ℕ) → t < u → u < 256 → has_vec v.serv.isr u ≡ false)
      → ((u : ℕ) → u < 256 → has_vec w.serv.isr u ≡ (not (t == u) && has_vec v.serv.isr u))
      → w.serv.isrvec_stk_top + 1 ≡ v.serv.isrvec_stk_top
      → w.serv.isrvec_stk ≡ v.serv.isrvec_stk
      → w.irr ≡ v.irr
      → w.effects ≡ (if has_vec v.tmr t then v.effects ++ ioapic_eoi t ∷ [] else v.effects)
      → EoiOf v w

updated : (v : Vlapic) → IsStack v.serv → update_ppr v ≡ some (record v { ppr = new_ppr v })
unfolding update_ppr
updated v ok = rw (stack_ok-IsStack v.serv ok) refl

abbrev below_of : Vlapic → ℕ → Vlapic
below_of v t =
    let below : Vlapic = record v { serv = popped v.serv t } in
    told_ioapic t (record below { ppr = new_ppr below })

module _ (v : Vlapic) (ok : IsStack v.serv) where
  ended_at : (t : ℕ) → highest v.serv.isr ≡ some t → end_vector v (some t) ≡ some (below_of v t)
  ended_at t e =
      let used : (v.serv.isrvec_stk_top == 0) ≡ false =
        ground (arith, (top_entry v.serv ok t e).0) in
      let below : Vlapic = record v { serv = popped v.serv t } in
      rw used (
        ap (λ o. o >>= (λ w. some (told_ioapic t w)))
          (updated below (popped-IsStack v.serv ok t e)))

  eoi_at : (t : ℕ) → highest v.serv.isr ≡ some t → process_eoi v ≡ some (below_of v t)
  unfolding process_eoi
  eoi_at t e = ap (end_vector v) e ∙ ended_at t e

  eoi_none : highest v.serv.isr ≡ none → process_eoi v ≡ some v
  unfolding process_eoi
  eoi_none e = ap (end_vector v) e

  below_serv : (t : ℕ) → (below_of v t).serv ≡ popped v.serv t
  below_serv t = ground arith

  -- With a stack that agrees with ISR the end of an interrupt comes to no panic. It changes nothing if
  -- no vector is in service; else exactly the highest one leaves ISR and the stack, the requests stay,
  -- and the I/O APIC is told of it just if it is level-triggered.
  pub process_eoi-EoiOf : Ends (EoiOf v) (process_eoi v)
  process_eoi-EoiOf = elim (Option-cases (highest v.serv.isr)) [
    | inl e ↦ rw (eoi_none e) (ended v (gratuitous (highest-none v.serv.isr e)))
    | inr (t, e) ↦
        let (small, is_set, above) = highest-some v.serv.isr t e in
        let serv = below_serv t in
        rw (eoi_at t e) (
          ended (below_of v t) (
            top_ended t (below_of v t) small is_set above
              (λ u h.
                ap (λ (s : Service). has_vec s.isr u) serv
                ∙ has_vec-clear_vec v.serv.isr t u ok.width small)
              (omega
                (arith, ap (λ (s : Service). s.isrvec_stk_top) serv, (top_entry v.serv ok t e).0))
              (ap (λ (s : Service). s.isrvec_stk) serv) (ground arith) (ground arith)))
  ]

-- Two descriptions of the same interrupts in service
pub record SameService (s t : Service) : Type 0 where
  pub same_isr : (u : ℕ) → u < 256 → has_vec t.isr u ≡ has_vec s.isr u
  pub same_top : t.isrvec_stk_top ≡ s.isrvec_stk_top
  pub same_entries : (i : ℕ) → i ≤ s.isrvec_stk_top → entry t i ≡ entry s i

module _ (v : Vlapic) (vector : ℕ) (good : IsGood v) (offers : Offers v (some vector)) where
  fresh : has_vec v.serv.isr vector ≡ false
  fresh = elim (Bool-cases (has_vec v.serv.isr vector)) [
    | inl e ↦
        let (small, over) = offers.above vector refl in
        absurd (omega (arith, (served_below v.serv good.stack vector small e).1))
    | inr e ↦ e
  ]

  -- the accepted vector is then the highest one in service.
  highest-pushed : highest (pushed v.serv vector).isr ≡ some vector
  highest-pushed =
      let (small, over) = offers.above vector refl in
      let ok = pushed-IsStack v.serv good.stack vector small over in
      elim (Option-cases (highest (pushed v.serv vector).isr)) [
        | inl e ↦
            let held : has_vec (pushed v.serv vector).isr vector ≡ true =
              has_vec-set_vec v.serv.isr vector vector good.stack.width small ∙ ground arith in
            cc (highest-none (pushed v.serv vector).isr e vector small, held)
        | inr (t, e) ↦
            let at_top = (top_entry (pushed v.serv vector) ok t e).1 in
            let same : t ≡ vector = sym at_top ∙ new_entry v.serv good.stack vector in
            e ∙ ap (λ (n : ℕ). some n) same
      ]

  taken_back : SameService v.serv (popped (pushed v.serv vector) vector)
  taken_back =
      let (small, over) = offers.above vector refl in
      let ok = pushed-IsStack v.serv good.stack vector small over in
      record {
        same_isr = λ u h.
            has_vec-clear_vec (set_vec v.serv.isr vector) vector u ok.width small
            ∙ ap (λ b. not (vector == u) && b)
                (has_vec-set_vec v.serv.isr vector u good.stack.width small)
            ∙ elim (Bool-cases (vector == u)) [
              | inl e ↦
                  let p : vector ≡ u = ground arith in
                  rw e (sym (sym (ap (has_vec v.serv.isr) p) ∙ fresh))
              | inr e ↦ rw e refl
            ];
        same_top = omega arith;
        same_entries = λ i h. old_entry v.serv good.stack vector i h;
      }

-- The acceptance of a vector that the search has given, and the end of the interrupt, leave the
-- interrupts in service as they were.
pub accept-eoi_SameService :
    (v : Vlapic) (vector : ℕ)
    → IsGood v
    → Offers v (some vector)
    → Ends (λ w. SameService v.serv w.serv) (intr_accepted v vector >>= process_eoi)
unfolding intr_accepted
accept-eoi_SameService v vector good offers =
    let (small, over) = offers.above vector refl in
    let ok = pushed-IsStack v.serv good.stack vector small over in
    let free : leb isrvec_stk_size (v.serv.isrvec_stk_top + 1) ≡ false =
      ground (arith, few v.serv good.stack) in
    let w : Vlapic = record v { irr = clear_vec v.irr vector; serv = pushed v.serv vector } in
    let end = eoi_at w ok vector (highest-pushed v vector good offers) in
    rw (free, end)
      (ended (below_of w vector) (
        subst (SameService v.serv) (sym (below_serv w ok vector))
          (taken_back v vector good offers)))
