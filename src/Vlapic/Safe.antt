-- ===== src/Vlapic/Safe.antt =====
-- Writes of one CPU to its local APIC, with interrupt commands, and the APICs of the whole machine:
-- `vlapic_write` of bios/vmm/io/vlapic.c.
use bhyve_experiments.Base.Ends.{Ends, ended, then-Ends, weaker-Ends}
use bhyve_experiments.Base.{
  ℕ, ◌*◌, ◌%◌, ◌^◌, ◌<◌, ◌≡◌, ◌≢◌, inl, inr, refl, sym, ap, arith, subst, Bool, true, false, not,
  ◌&&◌, ◌||◌, List, [], ◌∷◌, Option, some, if◌then◌else◌, bit_and,
}
use bhyve_experiments.Base.{ltb, ◌==◌, ◌>>=◌, Bool-cases}
use bhyve_experiments.Vlapic.Apic.{
  Vlapic, emit, inject_nmi, set_error, send_illegal_vector, bs_running, spinup_ap,
}
use bhyve_experiments.Vlapic.Access.{x2apic, write_register}
use bhyve_experiments.Vlapic.Machine.{Machine, on, active_cpus, for_each}
use bhyve_experiments.Vlapic.Command.{
  send_ipi, start_ap, await_sipi, icr_targets, self_ipi_handler, icr_dest, icr_command,
  icrlo_write_handler, icr_written, not_pending, write_any, vlapic_write, without,
}
use bhyve_experiments.Vlapic.Keeps.{
  Keeps, AllKeep, same-Keeps, then-Keeps, plain-Keeps, on-AllKeep, for_each-AllKeep,
  set_error-Keeps,
}
use bhyve_experiments.Vlapic.Frames.{
  same-AllKeep, then-AllKeep, if-AllKeep, set_intr-AllKeep, calcdest-Ends,
}
use bhyve_experiments.Vlapic.Good.{IsGood, IsGood-Keeps}
use bhyve_experiments.Vlapic.Registers.{write_register-Ends}

send_ipi-AllKeep : (mode vec i : ℕ) (m : Machine) → AllKeep m (send_ipi mode vec i m)
unfolding send_ipi
send_ipi-AllKeep mode vec i m =
    if-AllKeep _ m _ _ (set_intr-AllKeep m i vec)
      (on-AllKeep m i (λ v. emit v inject_nmi) (plain-Keeps (m.lapics i) _ refl refl))

start_ap-AllKeep : (m : Machine) (i dest vec : ℕ) → AllKeep m (start_ap m i dest vec)
unfolding start_ap
start_ap-AllKeep m i dest vec =
    let run = λ (v : Vlapic). record v { boot_state = bs_running } in
    let exit = λ (v : Vlapic). emit v (spinup_ap dest (vec * 2 ^ 12)) in
    let running = on m dest run in
    if-AllKeep _ m (on running i exit) m
      (then-AllKeep m running (on running i exit)
        (on-AllKeep m dest run (plain-Keeps (m.lapics dest) _ refl refl))
        (on-AllKeep running i exit (plain-Keeps (running.lapics i) _ refl refl)))
      (same-AllKeep m)

choose-Ends :
    {A : Type 0}
    → (P : A → Type 0) (b : Bool) (x y : Option A) → Ends P x
    → Ends P y
    → Ends P (if b then x else y)
choose-Ends P true x y p q = p
choose-Ends P false x y p q = q

icr_targets-Ends :
    (m : Machine) (v : Vlapic) (dest : ℕ)
    → dest < 2 ^ 31
    → Ends (λ (cpus : List ℕ). Unit {0}) (icr_targets m v dest)
unfolding icr_targets
icr_targets-Ends m v dest small =
    let any = λ (cpus : List ℕ). Unit {0} in
    let shorthand = bit_and v.icr_lo 0xc0000 in
    choose-Ends any _ _ _
      (calcdest-Ends m dest (bit_and v.icr_lo 0x800 == 0) false (x2apic v) small)
      (choose-Ends any (shorthand == 0x40000) _ _ (ended (v.vcpuid ∷ []) tt) (
        choose-Ends any (shorthand == 0x80000) _ _ (ended (active_cpus m) tt) (
          choose-Ends any (shorthand == 0xc0000) _ _ (ended (without v.vcpuid (active_cpus m)) tt)
            (ended [] tt))))

icr_command-Ends :
    (m : Machine) (i : ℕ) (v : Vlapic)
    → icr_dest v < 2 ^ 31
    → Ends (λ r. AllKeep m r.0) (icr_command m i v)
unfolding icr_command
icr_command-Ends m i v small =
    let P = λ (r : Machine × ℕ). AllKeep m r.0 in
    let mode = bit_and v.icr_lo 0x700 in
    let vec = bit_and v.icr_lo 0xff in
    choose-Ends P _ _ _
      (ended _ (
        on-AllKeep m i (set_error send_illegal_vector false)
          (set_error-Keeps send_illegal_vector false (m.lapics i))))
      (choose-Ends P _ _ _
        (then-Ends (λ (cpus : List ℕ). Unit {0}) P (icr_targets m v (icr_dest v))
          (λ dmask. some (for_each (send_ipi mode vec) dmask m, 0))
          (icr_targets-Ends m v (icr_dest v) small)
          (λ dmask u.
            ended _ (
              for_each-AllKeep (send_ipi mode vec) (λ j n. send_ipi-AllKeep mode vec j n) dmask m)))
        (choose-Ends P _ _ _ (ended _ (same-AllKeep m)) (
          choose-Ends P _ _ _
            (ended _ (
              on-AllKeep m (icr_dest v) await_sipi
                (plain-Keeps (m.lapics (icr_dest v)) _ refl refl)))
            (choose-Ends P _ _ _ (ended _ (start_ap-AllKeep m i (icr_dest v) vec))
              (ended _ (same-AllKeep m))))))

-- What holds of all APICs
abbrev pub AllGood : Machine → Type 0
AllGood m = (j : ℕ) → IsGood (m.lapics j)

pub AllGood-AllKeep : (m n : Machine) → AllGood m → AllKeep m n → AllGood n
AllGood-AllKeep m n good kept j = IsGood-Keeps (m.lapics j) (n.lapics j) (good j) (kept j)

-- A call of one CPU keeps the APICs of the others.
abbrev pub OthersKeep : ℕ → Machine → Machine → Type 0
OthersKeep i m n = (j : ℕ) → j ≢ i → Keeps (m.lapics j) (n.lapics j)

pub on_at : (m : Machine) (i : ℕ) (f : Vlapic → Vlapic) → (on m i f).lapics i ≡ f (m.lapics i)
on_at m i f = let e : (i == i) ≡ true = ground arith in rw e refl

pub on-AllGood :
    (m : Machine) (i : ℕ) (f : Vlapic → Vlapic)
    → AllGood m
    → IsGood (f (m.lapics i))
    → AllGood (on m i f)
on-AllGood m i f good g j = elim (Bool-cases (j == i)) [ inl e ↦ rw e g | inr e ↦ rw e (good j) ]

pub on-OthersKeep : (m : Machine) (i : ℕ) (f : Vlapic → Vlapic) → OthersKeep i m (on m i f)
on-OthersKeep m i f j d = let e : (j == i) ≡ false = ground arith in rw e (same-Keeps (m.lapics j))

-- the command register, written with a destination that fits
written_dest :
    (v : Vlapic) (wval : ℕ)
    → v.icr_hi < 2 ^ 32
    → wval < 2 ^ 63
    → icr_dest (not_pending (icr_written wval v)) < 2 ^ 31
written_dest v wval word small = elim (Bool-cases (x2apic v)) [
  | inl e ↦ rw e (omega arith)
  | inr e ↦ rw e (omega arith)
]

-- What a write to one APIC leaves of them all
abbrev pub Written : Machine → ℕ → Machine × ℕ → Type 0
Written m i r = AllGood r.0 × OthersKeep i m r.0

written_icr : (v : Vlapic) (wval : ℕ) → IsGood v → IsGood (icr_written wval v)
written_icr v wval good = record {
  stack = good.stack;
  word = elim (Bool-cases (x2apic v)) [ inl e ↦ rw e (omega arith) | inr e ↦ rw e good.word ];
}

-- an access that keeps all APICs, behind changes of the one that it is for
behind-Written :
    (m n : Machine) (i : ℕ) (x : Option (Machine × ℕ))
    → AllGood n
    → OthersKeep i m n
    → Ends (λ r. AllKeep n r.0) x
    → Ends (Written m i) x
behind-Written m n i x good kept e =
    weaker-Ends (λ r. AllKeep n r.0) (Written m i) x e
      (λ r k. (
        AllGood-AllKeep n r.0 good k,
        λ j d. then-Keeps (m.lapics j) (n.lapics j) (r.0.lapics j) (kept j d) (k j),
      ))

module _ (m : Machine) (i wval : ℕ) (good : AllGood m) where
  icrlo-Ends :
      wval < 2 ^ 63 → Ends (Written m i) (icrlo_write_handler (on m i (icr_written wval)) i)
  unfolding icrlo_write_handler
  icrlo-Ends small =
      let first = on m i (icr_written wval) in
      let second = on first i not_pending in
      let v = not_pending (first.lapics i) in
      let value : v ≡ not_pending (icr_written wval (m.lapics i)) =
        ap not_pending (on_at m i (icr_written wval)) in
      let first_good : AllGood first =
        on-AllGood m i (icr_written wval) good (written_icr (m.lapics i) wval (good i)) in
      let second_good : AllGood second = on-AllGood first i not_pending first_good (
        IsGood-Keeps (first.lapics i) v (first_good i)
          (plain-Keeps (first.lapics i) v refl refl)) in
      let kept : OthersKeep i m second = λ j d.
        then-Keeps (m.lapics j) (first.lapics j) (second.lapics j)
          (on-OthersKeep m i (icr_written wval) j d) (on-OthersKeep first i not_pending j d) in
      let fits : icr_dest v < 2 ^ 31 =
        subst (λ u. icr_dest u < 2 ^ 31) (sym value)
          (written_dest (m.lapics i) wval (good i).word small) in
      behind-Written m second i (icr_command second i v) second_good kept
        (icr_command-Ends second i v fits)

  self_ipi-Ends :
      Ends (Written m i) (some (if x2apic (m.lapics i) then self_ipi_handler m i wval else m, 0))
  unfolding self_ipi_handler
  self_ipi-Ends =
      behind-Written m m i _ good (λ j d. same-Keeps (m.lapics j))
        (ended _ (
          if-AllKeep (x2apic (m.lapics i)) m _ m
            (set_intr-AllKeep m (m.lapics i).vcpuid (wval % 2 ^ 8)) (same-AllKeep m)))

  register-Ends :
      (offset : ℕ)
      → offset % 16 ≡ 0
      → Ends
          (Written m i)
          (write_register (m.lapics i) offset wval >>= (λ w. some (on m i (λ v. w), 0)))
  register-Ends offset aligned =
      then-Ends IsGood (Written m i) (write_register (m.lapics i) offset wval)
        (λ w. some (on m i (λ v. w), 0))
        (write_register-Ends (m.lapics i) (good i) offset wval aligned)
        (λ w g. ended _ (on-AllGood m i (λ v. w) good g, on-OthersKeep m i (λ v. w)))

  pub vlapic_write-Ends :
      (mmio : Bool) (offset : ℕ)
      → offset % 16 ≡ 0
      → offset < 4096
      → wval < 2 ^ 63
      → Ends (Written m i) (vlapic_write m i mmio offset wval)
  unfolding vlapic_write write_any
  vlapic_write-Ends mmio offset aligned within small =
      let mode = x2apic (m.lapics i) in
      let sound : (offset % 16 == 0 && ltb offset 4096) ≡ true = ground arith in
      rw sound (
        choose-Ends (Written m i) (mode && mmio || not mode && not mmio) _ _
          (ended (m, 0) (good, λ j d. same-Keeps (m.lapics j)))
          (choose-Ends (Written m i) (offset == 0x300) _ _ (icrlo-Ends small) (
            choose-Ends (Written m i) (offset == 0x3f0) _ _ self_ipi-Ends
              (register-Ends offset aligned))))
