-- ===== src/Vlapic/Destinations.antt =====
-- Which virtual CPUs an interrupt reaches, `vlapic_calcdest` of bios/vmm/io/vlapic.c.
use bhyve_experiments.Vlapic.Logical.{is_logical, is_addressed-logical}
use bhyve_experiments.Base.Ends.{Ends, ended}
use bhyve_experiments.Base.{
  ℕ, zero, suc, ◌+◌, ◌^◌, ◌<◌, ◌≡◌, inl, inr, refl, sym, ap, ◌∙◌, arith, Bool, true, false, not,
  ◌&&◌, ◌||◌, List, [], ◌∷◌, if◌then◌else◌,
}
use bhyve_experiments.Base.{ltb, leb, ◌==◌, Bool-cases}
use bhyve_experiments.Vlapic.Machine.{
  Machine, active_from, active_cpus, is_in, is_addressed, addressed, calcdest,
}

abbrev pub broadcast : ℕ → Bool → Bool
broadcast dest x2apic_dest = x2apic_dest && dest == 0xffffffff || not x2apic_dest && dest == 0xff

-- Is an interrupt meant for a CPU? It is active, and the destination is a broadcast, its number, or a
-- logical one that its APIC is among.
abbrev pub is_meant : Machine → ℕ → Bool → Bool → ℕ → Bool
is_meant m dest phys x2apic_dest j =
    (ltb j m.maxcpus && m.active j)
    && (broadcast dest x2apic_dest
        || (if phys then j == dest else is_logical (m.lapics j) dest x2apic_dest))

-- The CPUs that are reached: all that are meant, or only the lowest one of them.
pub data Reached (meant : ℕ → Bool) (single : Bool) : List ℕ → Type 0 where
  everyone :
      (cpus : List ℕ)
      → single ≡ false
      → ((j : ℕ) → is_in j cpus ≡ meant j)
      → Reached meant single cpus
  nobody : ((j : ℕ) → meant j ≡ false) → Reached meant single []
  lowest :
      (k : ℕ)
      → single ≡ true
      → meant k ≡ true
      → ((j : ℕ) → j < k → meant j ≡ false)
      → Reached meant single (k ∷ [])

is_in-active_from :
    (active : ℕ → Bool) (n i j : ℕ)
    → is_in j (active_from active i n) ≡ ((leb i j && ltb j (i + n)) && active j)
is_in-active_from active zero i j = ground arith
is_in-active_from active (suc n) i j =
    let ih = is_in-active_from active n (i + 1) j in
    elim (Bool-cases (j == i)) [
      | inl e ↦
          let p : j ≡ i = ground arith in
          elim (Bool-cases (active i)) [
            | inl a ↦ rw a (ground (arith, ap active p))
            | inr a ↦ rw a (ih ∙ ground (arith, ap active p))
          ]
      | inr e ↦ elim (Bool-cases (active i)) [
        | inl a ↦ rw (a, e, ih) (ground arith)
        | inr a ↦ rw (a, ih) (ground arith)
      ]
    ]

is_in-active_cpus :
    (m : Machine) (j : ℕ) → is_in j (active_cpus m) ≡ (ltb j m.maxcpus && m.active j)
unfolding active_cpus
is_in-active_cpus m j = is_in-active_from m.active m.maxcpus 0 j ∙ ground arith

is_in-addressed :
    (f : ℕ → Bool) (cpus : List ℕ) (j : ℕ)
    → is_in j (addressed f false cpus) ≡ (is_in j cpus && f j)
unfolding addressed
is_in-addressed f [] j = refl
is_in-addressed f (i ∷ cpus) j =
    let ih = is_in-addressed f cpus j in
    elim (Bool-cases (j == i)) [
      | inl e ↦
          let p : j ≡ i = ground arith in
          elim (Bool-cases (f i)) [
            | inl a ↦ rw a (ground (arith, ap f p))
            | inr a ↦ rw (a, ih) (ground (arith, ap f p))
          ]
      | inr e ↦ elim (Bool-cases (f i)) [ inl a ↦ rw (a, e, ih) refl | inr a ↦ rw (a, e, ih) refl ]
    ]

-- The CPUs from `i` on, of which there are `n`, that an interrupt is meant for
abbrev meant_from : (ℕ → Bool) → (ℕ → Bool) → ℕ → ℕ → ℕ → Bool
meant_from active f i n j = (leb i j && ltb j (i + n)) && (active j && f j)

module _ (active f : ℕ → Bool) where
  -- one CPU more that is not meant
  same_further :
      (i n j : ℕ)
      → (active i && f i) ≡ false
      → meant_from active f i (suc n) j ≡ meant_from active f (i + 1) n j
  same_further i n j h = elim (Bool-cases (j == i)) [
    | inl e ↦
        let p : j ≡ i = ground arith in
        let clear : (active j && f j) ≡ false = ap (λ t. active t && f t) p ∙ h in
        rw clear (ground arith)
    | inr e ↦
        let range : (leb i j && ltb j (i + suc n)) ≡ (leb (i + 1) j && ltb j (i + 1 + n)) =
          ground arith in
        rw range refl
  ]

  further :
      (i n : ℕ) (cpus : List ℕ)
      → (active i && f i) ≡ false
      → Reached (meant_from active f (i + 1) n) true cpus
      → Reached (meant_from active f i (suc n)) true cpus
  further i n _ h (everyone cpus e all) = cc
  further i n _ h (nobody clear) = nobody (λ j. same_further i n j h ∙ clear j)
  further i n _ h (lowest k e there clear) =
      lowest k e (same_further i n k h ∙ there) (λ j l. same_further i n j h ∙ clear j l)

  addressed-Reached :
      (n i : ℕ) → Reached (meant_from active f i n) true (addressed f true (active_from active i n))
  unfolding addressed
  addressed-Reached zero i = nobody (λ j. ground arith)
  addressed-Reached (suc n) i =
      let rest = addressed-Reached n (i + 1) in
      elim (Bool-cases (active i)) [
        | inr a ↦ rw a (further i n _ (rw a refl) rest)
        | inl a ↦ elim (Bool-cases (f i)) [
          | inl b ↦ rw (a, b) (lowest i refl (ground arith) (λ j h. ground arith))
          | inr b ↦ rw (a, b) (further i n _ (rw (a, b) refl) rest)
        ]
      ]

same-Reached :
    (f g : ℕ → Bool) (single : Bool) (cpus : List ℕ)
    → ((j : ℕ) → g j ≡ f j)
    → Reached f single cpus
    → Reached g single cpus
same-Reached f g single _ h (everyone cpus e all) = everyone cpus e (λ j. all j ∙ sym (h j))
same-Reached f g single _ h (nobody clear) = nobody (λ j. h j ∙ clear j)
same-Reached f g single _ h (lowest k e there clear) =
    lowest k e (h k ∙ there) (λ j l. h j ∙ clear j l)

module _ (m : Machine) (dest : ℕ) (x2 : Bool) (e : broadcast dest x2 ≡ false) (j : ℕ) where
  physical_meant : is_meant m dest true x2 j ≡ (j == dest && (ltb dest m.maxcpus && m.active dest))
  physical_meant = elim (Bool-cases (j == dest)) [
    | inl q ↦
        let p : j ≡ dest = ground arith in
        ap (λ b. (ltb j m.maxcpus && m.active j) && (b || j == dest)) e
        ∙ rw q (ap (λ n. (ltb n m.maxcpus && m.active n) && true) p ∙ ground arith)
    | inr q ↦ ap (λ b. (ltb j m.maxcpus && m.active j) && (b || j == dest)) e ∙ rw q (ground arith)
  ]

  logical_meant :
      is_meant m dest false x2 j
      ≡ ((ltb j m.maxcpus && m.active j) && is_addressed (m.lapics j) dest x2)
  logical_meant =
      ap (λ b. (ltb j m.maxcpus && m.active j) && (b || is_logical (m.lapics j) dest x2)) e
      ∙ ap (λ b. (ltb j m.maxcpus && m.active j) && b)
          (sym (is_addressed-logical (m.lapics j) dest x2))

lowest_of :
    (m : Machine) (dest : ℕ) (x2 : Bool)
    → broadcast dest x2 ≡ false
    → Reached
        (is_meant m dest false x2)
        true
        (addressed (λ i. is_addressed (m.lapics i) dest x2) true (active_cpus m))
unfolding active_cpus
lowest_of m dest x2 e =
    let f = λ (i : ℕ). is_addressed (m.lapics i) dest x2 in
    same-Reached (meant_from m.active f 0 m.maxcpus) (is_meant m dest false x2) true _
      (λ j. logical_meant m dest x2 e j ∙ ground arith) (addressed-Reached m.active f m.maxcpus 0)

-- With a destination below 2 ^ 31 an interrupt reaches all CPUs that it is meant for. With the lowest
-- priority and a logical destination that is no broadcast it reaches one of them, that of the lowest
-- number, if there is any.
pub calcdest-Reached :
    (m : Machine) (dest : ℕ) (phys lowprio x2apic_dest : Bool)
    → dest < 2 ^ 31
    → Ends
        (Reached
          (is_meant m dest phys x2apic_dest)
          (lowprio && (not phys && not (broadcast dest x2apic_dest))))
        (calcdest m dest phys lowprio x2apic_dest)
unfolding calcdest
calcdest-Reached m dest phys lowprio x2 small =
    let signed : leb (2 ^ 31) dest ≡ false = ground arith in
    elim (Bool-cases (broadcast dest x2)) [
      | inl e ↦ rw e (
          ended (active_cpus m)
            (everyone (active_cpus m) (ground arith) (λ j. is_in-active_cpus m j ∙ ground arith)))
      | inr e ↦ elim (Bool-cases phys) [
        | inl d ↦ elim (Bool-cases (ltb dest m.maxcpus && m.active dest)) [
          | inl c ↦
              rw (e, d, signed, c)
                (ended (dest ∷ []) (
                  everyone (dest ∷ []) (ground arith)
                    (λ j. sym (physical_meant m dest x2 e j ∙ rw c (ground arith)))))
          | inr c ↦
              rw (e, d, signed, c)
                (ended [] (
                  everyone [] (ground arith)
                    (λ j. sym (physical_meant m dest x2 e j ∙ rw c (ground arith)))))
        ]
        | inr d ↦ elim (Bool-cases lowprio) [
          | inl c ↦
              rw (e, d, c)
                (ended (addressed (λ i. is_addressed (m.lapics i) dest x2) true (active_cpus m))
                  (lowest_of m dest x2 e))
          | inr c ↦
              rw (e, d, c)
                (ended _ (
                  everyone _ refl (λ j.
                    is_in-addressed (λ i. is_addressed (m.lapics i) dest x2) (active_cpus m) j
                    ∙ ap (λ b. b && is_addressed (m.lapics j) dest x2) (is_in-active_cpus m j)
                    ∙ sym (logical_meant m dest x2 e j))))
        ]
      ]
    ]
