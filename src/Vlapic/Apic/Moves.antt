-- ===== src/Vlapic/Apic/Moves.antt =====
-- What a vector that is accepted, and the end of the highest one, do to the stack of vectors in
-- service.
use bhyve_experiments.Base.{
  ℕ, ◌+◌, ◌-◌, ◌<◌, ◌≤◌, ◌≡◌, ◌≢◌, inl, inr, refl, sym, ap, ◌∙◌, arith, Bool, true, false, not,
  ◌&&◌, ◌||◌, some,
}
use bhyve_experiments.Base.{◌==◌, length-set, get_or-set_self, get_or-set_ne, Bool-cases}
use bhyve_experiments.Vlapic.Vectors.{has_vec, set_vec, clear_vec, highest}
use bhyve_experiments.Vlapic.Vectors.Laws.{
  has_vec-set_vec, has_vec-clear_vec, length-set_vec, length-clear_vec, highest-some,
}
use bhyve_experiments.Vlapic.Apic.{Service, prio, pushed, popped}
use bhyve_experiments.Vlapic.Apic.Stack.{IsStack, entry, few}

module _ (s : Service) (ok : IsStack s) where
  -- the entry that an accepted vector gets, and those before it
  pub new_entry : (vector : ℕ) → entry (pushed s vector) (s.isrvec_stk_top + 1) ≡ vector
  new_entry vector =
      get_or-set_self s.isrvec_stk (s.isrvec_stk_top + 1) vector 0
        (omega (arith, ok.room, few s ok))

  pub old_entry : (vector i : ℕ) → i ≤ s.isrvec_stk_top → entry (pushed s vector) i ≡ entry s i
  old_entry vector i h =
      get_or-set_ne s.isrvec_stk (s.isrvec_stk_top + 1) i vector 0 (λ e. omega arith)

  -- A vector of a higher priority than the top can be accepted.
  pub pushed-IsStack :
      (vector : ℕ)
      → vector < 256
      → prio (entry s s.isrvec_stk_top) < prio vector
      → IsStack (pushed s vector)
  pushed-IsStack vector small above = record {
    width = length-set_vec s.isr vector ∙ ok.width;
    room = length-set s.isrvec_stk (s.isrvec_stk_top + 1) vector ∙ ok.room;
    bottom = old_entry vector 0 (omega arith) ∙ ok.bottom;
    increase = λ i j l h b. elim (Bool-cases (j == s.isrvec_stk_top + 1)) [
      | inl q ↦
          let last : j ≡ s.isrvec_stk_top + 1 = ground arith in
          let value : entry (pushed s vector) j ≡ vector =
            ap (entry (pushed s vector)) last ∙ new_entry vector in
          omega (arith, value, old_entry vector i (omega arith), below_top i l (omega arith))
      | inr q ↦
          let old : j ≤ s.isrvec_stk_top = ground arith in
          omega (
            arith,
            old_entry vector i (omega arith),
            old_entry vector j old,
            ok.increase i j l h old,
          )
    ];
    range = λ i l b. elim (Bool-cases (i == s.isrvec_stk_top + 1)) [
      | inl q ↦
          let last : i ≡ s.isrvec_stk_top + 1 = ground arith in
          let value : entry (pushed s vector) i ≡ vector =
            ap (entry (pushed s vector)) last ∙ new_entry vector in
          (omega arith, omega arith)
      | inr q ↦
          let old : i ≤ s.isrvec_stk_top = ground arith in
          let value = old_entry vector i old in
          (omega (arith, (ok.range i l old).0), omega (arith, (ok.range i l old).1))
    ];
    served = λ i l b. elim (Bool-cases (i == s.isrvec_stk_top + 1)) [
      | inl q ↦
          let last : i ≡ s.isrvec_stk_top + 1 = ground arith in
          let value : entry (pushed s vector) i ≡ vector =
            ap (entry (pushed s vector)) last ∙ new_entry vector in
          ap (has_vec (set_vec s.isr vector)) value
          ∙ has_vec-set_vec s.isr vector vector ok.width small
          ∙ ground arith
      | inr q ↦
          let old : i ≤ s.isrvec_stk_top = ground arith in
          let there = ok.served i l old in
          ap (has_vec (set_vec s.isr vector)) (old_entry vector i old)
          ∙ has_vec-set_vec s.isr vector (entry s i) ok.width small
          ∙ ground arith
    ];
    stacked = λ v h is_set. elim (Bool-cases (vector == v)) [
      | inl q ↦
          let same : vector ≡ v = ground arith in
          (s.isrvec_stk_top + 1, omega arith, omega arith, new_entry vector ∙ same)
      | inr q ↦
          let old : has_vec s.isr v ≡ true =
            sym (ap (λ b. b || has_vec s.isr v) q)
            ∙ sym (has_vec-set_vec s.isr vector v ok.width small)
            ∙ is_set in
          let (i, l, b, e) = ok.stacked v h old in (i, l, omega arith, old_entry vector i b ∙ e)
    ];
  }
    where
      below_top : (i : ℕ) → 1 ≤ i → i ≤ s.isrvec_stk_top → prio (entry s i) < prio vector
      below_top i l h = elim (Bool-cases (i == s.isrvec_stk_top)) [
        | inl q ↦ let top : i ≡ s.isrvec_stk_top = ground arith in omega (arith, ap (entry s) top)
        | inr q ↦
            let under : i < s.isrvec_stk_top = ground arith in
            omega (arith, ok.increase i s.isrvec_stk_top l under (omega arith))
      ]

  module _ (v : ℕ) (is_highest : highest s.isr ≡ some v) where
    -- The highest vector in service is on top of the stack.
    pub top_entry : (1 ≤ s.isrvec_stk_top) × (entry s s.isrvec_stk_top ≡ v)
    top_entry =
        let (small, is_set, above) = highest-some s.isr v is_highest in
        let (i, l, b, e) = ok.stacked v small is_set in
        let used : 1 ≤ s.isrvec_stk_top = omega arith in
        elim (Bool-cases (i == s.isrvec_stk_top)) [
          | inl q ↦
              let top : i ≡ s.isrvec_stk_top = ground arith in (used, ap (entry s) (sym top) ∙ e)
          | inr q ↦
              let under : i < s.isrvec_stk_top = ground arith in
              let higher : v < entry s s.isrvec_stk_top =
                omega (arith, ok.increase i s.isrvec_stk_top l under (omega arith)) in
              cc (
                above (entry s s.isrvec_stk_top) higher
                    (ok.range s.isrvec_stk_top used (omega arith)).1,
                ok.served s.isrvec_stk_top used (omega arith),
              )
        ]

    pub popped-IsStack : IsStack (popped s v)
    popped-IsStack = record {
      width = length-clear_vec s.isr v ∙ ok.width;
      room = ok.room;
      bottom = ok.bottom;
      increase = λ i j l h b. ok.increase i j l h (omega arith);
      range = λ i l b. ok.range i l (omega arith);
      served = λ i l b.
          let under = ok.increase i s.isrvec_stk_top l (omega (arith, top_entry.0)) (omega arith) in
          let other : (v == entry s i) ≡ false = ground (arith, top_entry.1) in
          let there = ok.served i l (omega arith) in
          has_vec-clear_vec s.isr v (entry s i) ok.width (highest-some s.isr v is_highest).0
          ∙ rw (other, there) refl;
      stacked = λ u h is_set.
          let (different, there) = still_set u h is_set in
          let (i, l, b, e) = ok.stacked u h there in
          let under : i ≤ s.isrvec_stk_top - 1 = elim (Bool-cases (i == s.isrvec_stk_top)) [
            | inl q ↦
                let top : i ≡ s.isrvec_stk_top = ground arith in
                absurd (different (sym top_entry.1 ∙ ap (entry s) (sym top) ∙ e))
            | inr q ↦ ground arith
          ] in
          (i, l, under, e);
    }
      where
        split : (a b : Bool) → (not a && b) ≡ true → (a ≡ false) × (b ≡ true)
        split a b h = ground arith

        still_set :
            (u : ℕ)
            → u < 256
            → has_vec (clear_vec s.isr v) u ≡ true
            → (v ≢ u) × (has_vec s.isr u ≡ true)
        still_set u h is_set =
            let (other, there) = split (v == u) (has_vec s.isr u) (
              sym (has_vec-clear_vec s.isr v u ok.width (highest-some s.isr v is_highest).0)
              ∙ is_set) in
            (λ e. ground arith, there)
