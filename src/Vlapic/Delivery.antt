-- ===== src/Vlapic/Delivery.antt =====
-- What an interrupt of a device or an MSI does to the APICs that it reaches, `vlapic_deliver_intr` of
-- bios/vmm/io/vlapic.c with `lapic_set_intr` of bios/vmm/vmm_lapic.c.
use bhyve_experiments.Base.Ends.{Ends, ended, then-Ends}
use bhyve_experiments.Base.{
  ℕ, ◌^◌, ◌<◌, ◌≤◌, ◌≡◌, ◌⊎◌, inl, inr, refl, sym, ap, ◌∙◌, arith, Bool, true, false, not, ◌&&◌,
  ◌||◌, List, [], ◌∷◌, some, if◌then◌else◌,
}
use bhyve_experiments.Base.{ltb, leb, ◌==◌, Bool-cases, length, ltb→lt}
use bhyve_experiments.Base.Bits.{any_of}
use bhyve_experiments.Vlapic.Vectors.{has_vec, set_vec}
use bhyve_experiments.Vlapic.Vectors.Laws.{has_vec-set_vec, length-set_vec}
use bhyve_experiments.Vlapic.Apic.{Vlapic, svr_enabled, set_ready, set_intr_ready}
use bhyve_experiments.Vlapic.Machine.{
  Machine, is_in, take_intr, lapic_set_intr, for_each, deliver_one, deliver_intr, calcdest,
  delmode_fixed, delmode_lowprio, delmode_extint,
}
use bhyve_experiments.Vlapic.Destinations.{
  Reached, everyone, nobody, lowest, is_meant, broadcast, calcdest-Reached,
}

-- The request of a vector at some CPUs: just those whose APIC is enabled have it, beside what they had.
pub record Requested (vec : ℕ) (cpus : List ℕ) (m n : Machine) : Type 0 where
  pub requests :
      (j u : ℕ)
      → u < 256
      → has_vec (n.lapics j).irr u
        ≡ ((is_in j cpus && (svr_enabled (m.lapics j) && vec == u)) || has_vec (m.lapics j).irr u)
  pub same_enabled : (j : ℕ) → svr_enabled (n.lapics j) ≡ svr_enabled (m.lapics j)
  pub same_width : (j : ℕ) → length (n.lapics j).irr ≡ length (m.lapics j).irr
  pub same_maxcpus : n.maxcpus ≡ m.maxcpus

module _ (vec : ℕ) (low : 16 ≤ vec) (high : vec < 256) where
  taken_irr :
      (v : Vlapic) → (take_intr vec v).irr ≡ (if svr_enabled v then set_vec v.irr vec else v.irr)
  unfolding set_intr_ready set_ready
  taken_irr v = ground arith

  taken_svr : (v : Vlapic) → (take_intr vec v).svr ≡ v.svr
  unfolding set_intr_ready set_ready
  taken_svr v = ground arith

  taken_has :
      (v : Vlapic) (u : ℕ)
      → length v.irr ≡ 8
      → has_vec (take_intr vec v).irr u ≡ ((svr_enabled v && vec == u) || has_vec v.irr u)
  taken_has v u wide = ap (λ w. has_vec w u) (taken_irr v) ∙ elim (Bool-cases (svr_enabled v)) [
    | inl e ↦ rw e (has_vec-set_vec v.irr vec u wide high)
    | inr e ↦ rw e refl
  ]

  taken_width : (v : Vlapic) → length (take_intr vec v).irr ≡ length v.irr
  taken_width v = ap length (taken_irr v) ∙ elim (Bool-cases (svr_enabled v)) [
    | inl e ↦ rw e (length-set_vec v.irr vec)
    | inr e ↦ rw e refl
  ]

  set_intr-Requested :
      (m : Machine) (cpu : ℕ)
      → cpu < m.maxcpus
      → ((j : ℕ) → length (m.lapics j).irr ≡ 8)
      → Requested vec (cpu ∷ []) m (lapic_set_intr m cpu vec).0
  unfolding lapic_set_intr
  set_intr-Requested m cpu within wide =
      let a : leb m.maxcpus cpu ≡ false = ground arith in
      let b : (ltb vec 16 || ltb 255 vec) ≡ false = ground arith in
      rw (a, b)
        (record {
          requests = λ j u h. elim (Bool-cases (j == cpu)) [
            | inl e ↦
                let p : j ≡ cpu = ground arith in
                rw e (
                  taken_has (m.lapics cpu) u (wide cpu)
                  ∙ ap (λ n. (svr_enabled (m.lapics n) && vec == u) || has_vec (m.lapics n).irr u)
                      (sym p))
            | inr e ↦ rw e refl
          ];
          same_enabled = λ j. elim (Bool-cases (j == cpu)) [
            | inl e ↦
                let p : j ≡ cpu = ground arith in
                rw e (
                  ap (λ s. any_of s 0x100) (taken_svr (m.lapics cpu))
                  ∙ ap (λ n. svr_enabled (m.lapics n)) (sym p))
            | inr e ↦ rw e refl
          ];
          same_width = λ j. elim (Bool-cases (j == cpu)) [
            | inl e ↦
                let p : j ≡ cpu = ground arith in
                rw e (taken_width (m.lapics cpu) ∙ ap (λ n. length (m.lapics n).irr) (sym p))
            | inr e ↦ rw e refl
          ];
          same_maxcpus = refl;
        })

  both-Requested :
      (c : ℕ) (cpus : List ℕ) (m n k : Machine)
      → Requested vec (c ∷ []) m n
      → Requested vec cpus n k
      → Requested vec (c ∷ cpus) m k
  both-Requested c cpus m n k p q = record {
    requests = λ j u h. q.requests j u h ∙ ground (arith, p.requests j u h, p.same_enabled j);
    same_enabled = λ j. q.same_enabled j ∙ p.same_enabled j;
    same_width = λ j. q.same_width j ∙ p.same_width j;
    same_maxcpus = q.same_maxcpus ∙ p.same_maxcpus;
  }

  module _ (delmode : ℕ) (plain : (delmode == delmode_extint) ≡ false) where
    deliver_one-Requested :
        (m : Machine) (cpu : ℕ)
        → cpu < m.maxcpus
        → ((j : ℕ) → length (m.lapics j).irr ≡ 8)
        → Requested vec (cpu ∷ []) m (deliver_one delmode vec cpu m)
    unfolding deliver_one
    deliver_one-Requested m cpu within wide = rw plain (set_intr-Requested m cpu within wide)

    for_each-Requested :
        (cpus : List ℕ) (m : Machine)
        → ((j : ℕ) → is_in j cpus ≡ true → j < m.maxcpus)
        → ((j : ℕ) → length (m.lapics j).irr ≡ 8)
        → Requested vec cpus m (for_each (deliver_one delmode vec) cpus m)
    unfolding for_each
    for_each-Requested [] m within wide = record {
      requests = λ j u h. refl;
      same_enabled = λ j. refl;
      same_width = λ j. refl;
      same_maxcpus = refl;
    }
    for_each-Requested (c ∷ cpus) m within wide =
        let n = deliver_one delmode vec c m in
        let first : Requested vec (c ∷ []) m n =
          deliver_one-Requested m c (within c (ground arith)) wide in
        both-Requested c cpus m n _ first (
          for_each-Requested cpus n
            (λ j h. omega (arith, within j (ground arith), first.same_maxcpus))
            (λ j. first.same_width j ∙ wide j))

first_true : (a b c : Bool) → ((a && b) && c) ≡ true → a ≡ true
first_true a b c h = ground arith

meant_within :
    (m : Machine) (dest : ℕ) (phys x2 : Bool) (j : ℕ)
    → is_meant m dest phys x2 j ≡ true
    → j < m.maxcpus
meant_within m dest phys x2 j h = ltb→lt j m.maxcpus (first_true (ltb j m.maxcpus) (m.active j) _ h)

-- only CPUs of the machine are reached.
Reached-within :
    (m : Machine) (dest : ℕ) (phys x2 single : Bool) (cpus : List ℕ)
    → Reached (is_meant m dest phys x2) single cpus
    → (j : ℕ) → is_in j cpus ≡ true
    → j < m.maxcpus
Reached-within m dest phys x2 single _ (everyone cpus e all) j h =
    meant_within m dest phys x2 j (sym (all j) ∙ h)
Reached-within m dest phys x2 single _ (nobody clear) j h = cc
Reached-within m dest phys x2 single _ (lowest k e there clear) j h =
    let within = meant_within m dest phys x2 k there in
    let same : j ≡ k = ground arith in omega arith

-- An interrupt with a vector from 16 to 255 and a destination below 2 ^ 31, fixed or with the lowest
-- priority, requests its vector at exactly the CPUs that it reaches and whose APIC is enabled, where
-- each IRR has its eight words. No other request changes.
pub deliver_intr-Requested :
    (m : Machine) (dest : ℕ) (phys : Bool) (delmode vec : ℕ)
    → dest < 2 ^ 31
    → 16 ≤ vec
    → vec < 256
    → (delmode ≡ delmode_fixed) ⊎ (delmode ≡ delmode_lowprio)
    → ((j : ℕ) → length (m.lapics j).irr ≡ 8)
    → Ends
        (λ n.
          (cpus : List ℕ) × Reached
            (is_meant m dest phys false)
            (delmode == delmode_lowprio && (not phys && not (broadcast dest false)))
            cpus
          × Requested vec cpus m n)
        (deliver_intr m dest phys delmode vec)
unfolding deliver_intr
deliver_intr-Requested m dest phys delmode vec small low high mode wide =
    let known : (delmode == delmode_fixed
          || (delmode == delmode_lowprio || delmode == delmode_extint))
        ≡ true =
      ground arith in
    let plain : (delmode == delmode_extint) ≡ false = ground arith in
    let single = delmode == delmode_lowprio && (not phys && not (broadcast dest false)) in
    rw known (
      then-Ends (Reached (is_meant m dest phys false) single) _
        (calcdest m dest phys (delmode == delmode_lowprio) false)
        (λ dmask. some (for_each (deliver_one delmode vec) dmask m))
        (calcdest-Reached m dest phys (delmode == delmode_lowprio) false small)
        (λ dmask r. ended _ (
          dmask,
          r,
          for_each-Requested vec low high delmode plain dmask m
              (Reached-within m dest phys false single dmask r) wide,
        )))
