-- ===== src/Vlapic/Apic/Stack.antt =====
-- The stack of vectors in service and ISR, with the checks of `vlapic_update_ppr`, of
-- bios/vmm/io/vlapic.c.
use bhyve_experiments.Base.{
  ℕ, zero, suc, ◌+◌, ◌<◌, ◌≤◌, ◌≡◌, inl, inr, refl, ap, arith, true, false, not, ◌&&◌, ◌||◌,
}
use bhyve_experiments.Base.{ltb, ◌==◌, get_or, length, Bool-cases}
use bhyve_experiments.Vlapic.Vectors.{has_vec}
use bhyve_experiments.Vlapic.Apic.{Service, prio, prios_increase, in_sync, stack_ok}

-- the entry of the stack at an index
abbrev pub entry : Service → ℕ → ℕ
entry s i = get_or s.isrvec_stk i 0

-- The entries from 1 to the top are the vectors in service, with priorities that increase.
pub record IsStack (s : Service) : Type 0 where
  pub width : length s.isr ≡ 8
  pub room : length s.isrvec_stk ≡ 17
  pub bottom : entry s 0 ≡ 0
  pub increase :
      (i j : ℕ) → 1 ≤ i → i < j → j ≤ s.isrvec_stk_top → prio (entry s i) < prio (entry s j)
  pub range : (i : ℕ) → 1 ≤ i → i ≤ s.isrvec_stk_top → (16 ≤ entry s i) × (entry s i < 256)
  pub served : (i : ℕ) → 1 ≤ i → i ≤ s.isrvec_stk_top → has_vec s.isr (entry s i) ≡ true
  pub stacked :
      (v : ℕ)
      → v < 256
      → has_vec s.isr v ≡ true
      → (i : ℕ) × (1 ≤ i) × (i ≤ s.isrvec_stk_top) × (entry s i ≡ v)

module _ (s : Service) (ok : IsStack s) where
  -- Each entry has at least its index as its priority, so that there are at most 15.
  deep : (i : ℕ) → 1 ≤ i → i ≤ s.isrvec_stk_top → i ≤ prio (entry s i)
  deep zero l h = omega arith
  deep (suc zero) l h = omega (arith, (ok.range 1 l h).0)
  deep (suc (suc i)) l h = omega (
    arith,
    deep (suc i) (omega arith) (omega arith),
    ok.increase (suc i) (suc (suc i)) (omega arith) (omega arith) h,
  )

  pub few : s.isrvec_stk_top ≤ 15
  few = elim (Bool-cases (s.isrvec_stk_top == 0)) [
    | inl e ↦ ground arith
    | inr e ↦
        let used : 1 ≤ s.isrvec_stk_top = ground arith in
        omega (
          arith,
          deep s.isrvec_stk_top used (omega arith),
          (ok.range s.isrvec_stk_top used (omega arith)).1,
        )
  ]

  prios_hold :
      (n i last : ℕ)
      → 1 ≤ i
      → i + n ≡ s.isrvec_stk_top + 1
      → (0 < n → last ≤ prio (entry s i))
      → prios_increase s.isrvec_stk last i n ≡ true
  unfolding prios_increase
  prios_hold zero i last l e h = refl
  prios_hold (suc n) i last l e h =
      let low : ltb (prio (entry s i)) last ≡ false = ground (arith, h (omega arith)) in
      rw low (
        prios_hold n (i + 1) (prio (entry s i) + 1) (omega arith) (omega arith)
          (λ more. omega (arith, ok.increase i (i + 1) l (omega arith) (omega arith))))

  sync_hold :
      (n i v : ℕ)
      → v + n ≡ 256
      → 1 ≤ i
      → ((j : ℕ) → 1 ≤ j → j < i → entry s j < v)
      → ((j : ℕ) → i ≤ j → j ≤ s.isrvec_stk_top → v ≤ entry s j)
      → in_sync s i v n ≡ true
  unfolding in_sync
  sync_hold zero i v e l below above = refl
  sync_hold (suc n) i v e l below above = elim (Bool-cases (has_vec s.isr v)) [
    | inr clear ↦ rw clear (
        sync_hold n i (v + 1) (omega arith) l (λ j a b. omega (arith, below j a b))
          (λ j a b. elim (Bool-cases (entry s j == v)) [
            | inl same ↦
                let q : entry s j ≡ v = ground arith in
                cc (ok.served j (omega arith) b, ap (has_vec s.isr) q, clear)
            | inr other ↦ ground (arith, above j a b)
          ]))
    | inl is_set ↦
        let (j, low, high, same) = ok.stacked v (omega arith) is_set in
        let reached : i ≤ j = elim (Bool-cases (ltb j i)) [
          | inl early ↦ omega (arith, below j low (ground arith))
          | inr late ↦ ground arith
        ] in
        let at : entry s i ≡ v = elim (Bool-cases (i == j)) [
          | inl e' ↦ ground arith
          | inr d ↦
              omega
                (arith, above i (omega arith) (omega arith), ok.increase i j l (ground arith) high)
        ] in
        let fits : (ltb s.isrvec_stk_top i || not (entry s i == v)) ≡ false = ground arith in
        rw (is_set, fits)
          (sync_hold n (i + 1) (v + 1) (omega arith) (omega arith)
            (λ k a b. elim (Bool-cases (k == i)) [
              | inl q ↦ let p : k ≡ i = ground arith in omega (arith, ap (entry s) p, at)
              | inr q ↦ ground (arith, below k a)
            ])
            (λ k a b. omega (arith, ok.increase i k l (omega arith) b)))
  ]

  pub stack_ok-IsStack : stack_ok s ≡ true
  unfolding stack_ok
  stack_ok-IsStack =
      let increasing : prios_increase s.isrvec_stk 0 1 s.isrvec_stk_top ≡ true =
        prios_hold s.isrvec_stk_top 1 0 (omega arith) (omega arith) (λ h. omega arith) in
      let agree : in_sync s 1 0 256 ≡ true =
        sync_hold 256 1 0 refl (omega arith) (λ j a b. absurd (omega arith))
          (λ j a b. omega arith) in
      let empty : (s.isrvec_stk_top == 0 && not (entry s s.isrvec_stk_top == 0)) ≡ false =
        elim (Bool-cases (s.isrvec_stk_top == 0)) [
          | inl e ↦
              let zero_top : s.isrvec_stk_top ≡ 0 = ground arith in
              ground (arith, ap (entry s) zero_top, ok.bottom)
          | inr e ↦ rw e refl
        ] in
      rw (empty, increasing, agree) refl
