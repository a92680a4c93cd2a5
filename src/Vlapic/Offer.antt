-- ===== src/Vlapic/Offer.antt =====
-- The search for an interrupt, `vlapic_pending_intr`, and the acceptance of what it has given,
-- `vlapic_intr_accepted`, of bios/vmm/io/vlapic.c.
use bhyve_experiments.Base.Ends.{Ends, ended, then-Ends, weaker-Ends}
use bhyve_experiments.Base.{
  ℕ, ◌+◌, ◌/◌, ◌<◌, ◌≤◌, ◌≡◌, ◌↔◌, inl, inr, refl, sym, ap, ◌∙◌, subst, arith, true, false, List,
  Option, none, some, bit_and,
}
use bhyve_experiments.Base.{ltb, leb, ◌==◌, Bool-cases}
use bhyve_experiments.Base.Bits.{all_below, all_below_at}
use bhyve_experiments.Vlapic.Vectors.{highest, has_vec}
use bhyve_experiments.Vlapic.Vectors.Laws.{Highest, highest-Highest, no_vec, top_vec}
use bhyve_experiments.Vlapic.Apic.{
  Vlapic, Service, prio, isrvec_stk_size, new_ppr, update_ppr, deliverable, pending_intr,
  intr_accepted,
}
use bhyve_experiments.Vlapic.Apic.Stack.{IsStack, entry, few}
use bhyve_experiments.Vlapic.Apic.Moves.{pushed-IsStack}
use bhyve_experiments.Vlapic.Keeps.{Keeps}
use bhyve_experiments.Vlapic.Good.{IsGood, Offers, IsGood-Keeps, update_ppr-Ends}

high_table : all_below 256 (λ x. bit_and x 0xf0 / 16 == x / 16) ≡ true
unfolding all_below
high_table = refl

-- the stack's top has no more than 8 bits.
top_small : (v : Vlapic) → IsStack v.serv → entry v.serv v.serv.isrvec_stk_top < 256
top_small v ok = elim (Bool-cases (v.serv.isrvec_stk_top == 0)) [
  | inl e ↦
      let p : v.serv.isrvec_stk_top ≡ 0 = ground arith in
      omega (arith, ap (entry v.serv) p, ok.bottom)
  | inr e ↦ (ok.range v.serv.isrvec_stk_top (ground arith) (omega arith)).1
]

-- The processor priority is the higher one of the task priority and the class in service.
ppr_covers :
    (v : Vlapic)
    → IsStack v.serv
    → (prio (entry v.serv v.serv.isrvec_stk_top) ≤ prio (new_ppr v))
      × (prio v.tpr ≤ prio (new_ppr v))
      × ((p : ℕ)
          → prio (entry v.serv v.serv.isrvec_stk_top) < p
          → prio v.tpr < p
          → prio (new_ppr v) < p)
ppr_covers v ok =
    let top = entry v.serv v.serv.isrvec_stk_top in
    let high : (bit_and top 0xf0 / 16 == top / 16) ≡ true =
      all_below_at 256 top (λ x. bit_and x 0xf0 / 16 == x / 16) high_table (top_small v ok) in
    (ground arith, ground arith, λ p a b. ground arith)

-- the priority of a vector in service is at most that of the top
pub served_below :
    (s : Service)
    → IsStack s
    → (u : ℕ) → u < 256
    → has_vec s.isr u ≡ true
    → (1 ≤ s.isrvec_stk_top) × (prio u ≤ prio (entry s s.isrvec_stk_top))
served_below s ok u h is_set =
    let (i, l, b, e) = ok.stacked u h is_set in
    elim (Bool-cases (i == s.isrvec_stk_top)) [
      | inl q ↦
          let p : i ≡ s.isrvec_stk_top = ground arith in
          (omega arith, omega (arith, ap (entry s) p, e))
      | inr q ↦ (
        omega arith,
        omega (arith, e, ok.increase i s.isrvec_stk_top l (ground arith) (omega arith)),
      )
    ]

-- The vector that the CPU is to take: it is the highest one that is requested, and of a priority above
-- the task priority and above those of all vectors in service.
pub record Pending (v : Vlapic) (vector : ℕ) : Type 0 where
  pub vector_small : vector < 256
  pub requested : has_vec v.irr vector ≡ true
  pub is_highest : (u : ℕ) → vector < u → u < 256 → has_vec v.irr u ≡ false
  pub over_tpr : prio v.tpr < prio vector
  pub over_served : (u : ℕ) → u < 256 → has_vec v.serv.isr u ≡ true → prio u < prio vector

module _ (v : Vlapic) (ok : IsStack v.serv) where
  top_under :
      (vector : ℕ) → Pending v vector → prio (entry v.serv v.serv.isrvec_stk_top) < prio vector
  top_under vector p = elim (Bool-cases (v.serv.isrvec_stk_top == 0)) [
    | inl e ↦
        let q : v.serv.isrvec_stk_top ≡ 0 = ground arith in
        omega (arith, ap (entry v.serv) q, ok.bottom, p.over_tpr)
    | inr e ↦
        let used : 1 ≤ v.serv.isrvec_stk_top = ground arith in
        p.over_served (entry v.serv v.serv.isrvec_stk_top) (top_small v ok)
          (ok.served v.serv.isrvec_stk_top used (omega arith))
  ]

  Pending-over :
      (vector : ℕ)
      → vector < 256
      → has_vec v.irr vector ≡ true
      → ((u : ℕ) → vector < u → u < 256 → has_vec v.irr u ≡ false)
      → prio (new_ppr v) < prio vector
      → Pending v vector
  Pending-over vector small is_set clear over = record {
    vector_small = small;
    requested = is_set;
    is_highest = clear;
    over_tpr = omega (arith, (ppr_covers v ok).1);
    over_served =
        λ u h served. omega (arith, (ppr_covers v ok).0, (served_below v.serv ok u h served).1);
  }

  -- Two vectors that are the highest requested ones are the same.
  one_highest :
      (a b : ℕ)
      → a < 256
      → has_vec v.irr a ≡ true
      → ((u : ℕ) → a < u → u < 256 → has_vec v.irr u ≡ false)
      → Pending v b
      → a ≡ b
  one_highest a b small is_set clear p = elim (Bool-cases (ltb a b)) [
    | inl e ↦ cc (clear b (ground arith) p.vector_small, p.requested)
    | inr e ↦ elim (Bool-cases (ltb b a)) [
      | inl d ↦ cc (p.is_highest a (ground arith) small, is_set)
      | inr d ↦ ground arith
    ]
  ]

  module _ (w : Vlapic) (at_ppr : w.ppr ≡ new_ppr v) (vector : ℕ) where
    deliverable-Pending :
        (o : Option ℕ) → Highest 256 v.irr o → deliverable w o ≡ some vector → Pending v vector
    unfolding deliverable
    deliverable-Pending _ (no_vec clear) e = cc
    deliverable-Pending _ (top_vec t l there above) e =
        elim (Bool-cases (ltb (prio w.ppr) (prio t))) [
          | inl b ↦
              let over : prio (new_ppr v) < prio t = ground arith in
              let same : some t ≡ some vector = sym (rw b refl) ∙ e in
              subst (Pending v) (same_some t vector same) (Pending-over t l there above over)
          | inr b ↦ let gone : deliverable w (some t) ≡ none = rw b refl in cc
        ]
      where
        same_some : (t u : ℕ) → some t ≡ some u → t ≡ u
        same_some t u q = cc

    Pending-deliverable :
        (o : Option ℕ) → Highest 256 v.irr o → Pending v vector → deliverable w o ≡ some vector
    unfolding deliverable
    Pending-deliverable _ (no_vec clear) p = cc (clear vector p.vector_small, p.requested)
    Pending-deliverable _ (top_vec t l there above) p =
        let same : t ≡ vector = one_highest t vector l there above p in
        let over = (ppr_covers v ok).2 (prio vector) (top_under vector p) p.over_tpr in
        let yes_over : ltb (prio w.ppr) (prio t) ≡ true = ground (arith, ap prio same) in
        rw yes_over (ap (λ (n : ℕ). some n) same)

-- With the state that the calls leave, the search ends. It gives exactly the vector that the CPU is to
-- take, and changes nothing of the interrupts in service.
pub pending_intr-Pending :
    (v : Vlapic)
    → IsGood v
    → Ends
        (λ r. Keeps v r.0 × ((vector : ℕ) → (r.1 ≡ some vector) ↔ Pending v vector))
        (pending_intr v)
unfolding pending_intr
pending_intr-Pending v good =
    then-Ends _ (λ r. Keeps v r.0 × ((vector : ℕ) → (r.1 ≡ some vector) ↔ Pending v vector))
      (update_ppr v) (λ w. some (w, deliverable w (highest w.irr))) (update_ppr-Ends v good.stack)
      (λ w k.
        let found =
          subst (λ (q : List ℕ). Highest 256 v.irr (highest q)) (sym k.2) (highest-Highest v.irr) in
        ended (w, deliverable w (highest w.irr))
          (
            k.0,
            λ vector. (
              deliverable-Pending v good.stack w k.1 vector (highest w.irr) found,
              Pending-deliverable v good.stack w k.1 vector (highest w.irr) found,
            ),
          ))

-- What it gives can be accepted.
pub pending_intr-Offers :
    (v : Vlapic) → IsGood v → Ends (λ r. IsGood r.0 × Offers r.0 r.1) (pending_intr v)
pending_intr-Offers v good =
    weaker-Ends _ (λ r. IsGood r.0 × Offers r.0 r.1) (pending_intr v) (pending_intr-Pending v good)
      (λ r k. (
        IsGood-Keeps v r.0 good k.0,
        record {
          above = λ vector e.
              let p = (k.1 vector).0 e in
              (
                p.vector_small,
                subst (λ s. prio (entry s s.isrvec_stk_top) < prio vector) (sym k.0.kept_serv)
                    (top_under v good.stack vector p),
              );
        },
      ))

pub intr_accepted-Ends :
    (v : Vlapic) (vector : ℕ)
    → IsGood v
    → Offers v (some vector)
    → Ends IsGood (intr_accepted v vector)
unfolding intr_accepted
intr_accepted-Ends v vector good offers =
    let (small, over) = offers.above vector refl in
    let free : leb isrvec_stk_size (v.serv.isrvec_stk_top + 1) ≡ false =
      ground (arith, few v.serv good.stack) in
    rw free (
      ended _
        (record { stack = pushed-IsStack v.serv good.stack vector small over; word = good.word }))
