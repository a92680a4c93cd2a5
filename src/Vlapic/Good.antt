-- ===== src/Vlapic/Good.antt =====
-- What one local APIC, bios/vmm/io/vlapic.c, is to keep between two calls, and its calls for the
-- priorities.
use bhyve_experiments.Base.Ends.{Ends, ended, then-Ends, weaker-Ends}
use bhyve_experiments.Base.{
  ℕ, ◌*◌, ◌^◌, ◌<◌, ◌≡◌, inl, inr, refl, sym, subst, arith, false, Option, none, some,
}
use bhyve_experiments.Base.{leb, ◌==◌, Bool-cases}
use bhyve_experiments.Vlapic.Vectors.{highest}
use bhyve_experiments.Vlapic.Apic.{
  Vlapic, prio, new_ppr, update_ppr, popped, told_ioapic, end_vector, process_eoi, set_tpr, set_cr8,
}
use bhyve_experiments.Vlapic.Apic.Stack.{IsStack, entry, stack_ok-IsStack}
use bhyve_experiments.Vlapic.Apic.Moves.{popped-IsStack, top_entry}
use bhyve_experiments.Vlapic.Keeps.{Keeps, then-Keeps, plain-Keeps}

pub record IsGood (v : Vlapic) : Type 0 where
  pub stack : IsStack v.serv
  pub word : v.icr_hi < 2 ^ 32

-- the vector that a search has given, if any, has a priority above those in service.
pub record Offers (v : Vlapic) (o : Option ℕ) : Type 0 where
  pub above :
      (vector : ℕ)
      → o ≡ some vector
      → (vector < 256) × (prio (entry v.serv v.serv.isrvec_stk_top) < prio vector)

pub none-Offers : (v : Vlapic) → Offers v none
none-Offers v = record { above = λ vector e. cc }

pub IsGood-Keeps : (v w : Vlapic) → IsGood v → Keeps v w → IsGood w
IsGood-Keeps v w good kept = record {
  stack = subst IsStack (sym kept.kept_serv) good.stack;
  word = omega (arith, good.word, kept.kept_hi);
}

pub Offers-Keeps : (v w : Vlapic) (o : Option ℕ) → Offers v o → Keeps v w → Offers w o
Offers-Keeps v w o offers kept = record {
  above = λ vector e.
      subst (λ s. (vector < 256) × (prio (entry s s.isrvec_stk_top) < prio vector))
        (sym kept.kept_serv) (offers.above vector e);
}

pub update_ppr-Ends :
    (v : Vlapic)
    → IsStack v.serv
    → Ends (λ w. Keeps v w × (w.ppr ≡ new_ppr v) × (w.irr ≡ v.irr)) (update_ppr v)
unfolding update_ppr
update_ppr-Ends v ok =
    rw (stack_ok-IsStack v.serv ok) (ended _ (plain-Keeps v _ refl refl, refl, refl))

module _ (v : Vlapic) (good : IsGood v) where
  told-Keeps : (vector : ℕ) (w : Vlapic) → Keeps w (told_ioapic vector w)
  told-Keeps vector w = record { kept_serv = ground arith; kept_hi = ground arith }

  end_vector-Ends : (o : Option ℕ) → highest v.serv.isr ≡ o → Ends IsGood (end_vector v o)
  end_vector-Ends none e = ended v good
  end_vector-Ends (some vector) e =
      let used : (v.serv.isrvec_stk_top == 0) ≡ false =
        ground (arith, (top_entry v.serv good.stack vector e).0) in
      let below : Vlapic = record v { serv = popped v.serv vector } in
      let rest : IsGood below = record {
        stack = popped-IsStack v.serv good.stack vector e;
        word = good.word;
      } in
      rw used (
        then-Ends (λ w. Keeps below w × (w.ppr ≡ new_ppr below) × (w.irr ≡ below.irr)) IsGood
          (update_ppr below) (λ w. some (told_ioapic vector w)) (update_ppr-Ends below rest.stack)
          (λ w k.
            ended (told_ioapic vector w)
              (IsGood-Keeps below _ rest (then-Keeps below w _ k.0 (told-Keeps vector w)))))

  pub process_eoi-Ends : Ends IsGood (process_eoi v)
  unfolding process_eoi
  process_eoi-Ends = end_vector-Ends (highest v.serv.isr) refl

  pub update-IsGood : Ends IsGood (update_ppr v)
  update-IsGood =
      weaker-Ends _ IsGood (update_ppr v) (update_ppr-Ends v good.stack)
        (λ w k. IsGood-Keeps v w good k.0)

  pub set_tpr-Ends : (val : ℕ) → Ends IsGood (set_tpr v val)
  unfolding set_tpr
  set_tpr-Ends val = elim (Bool-cases (v.tpr == val)) [
    | inl e ↦ rw e (ended v good)
    | inr e ↦
        let w : Vlapic = record v { tpr = val } in
        rw e (
          weaker-Ends _ IsGood (update_ppr w) (update_ppr-Ends w good.stack)
            (λ u k. IsGood-Keeps v u good (then-Keeps v w u (plain-Keeps v w refl refl) k.0)))
  ]

  pub set_cr8-Ends : (val : ℕ) → Ends IsGood (set_cr8 v val)
  unfolding set_cr8
  set_cr8-Ends val = elim (Bool-cases (leb 16 val)) [
    | inl e ↦ rw e (ended _ (IsGood-Keeps v _ good (plain-Keeps v _ refl refl)))
    | inr e ↦ rw e (set_tpr-Ends (val * 16))
  ]
