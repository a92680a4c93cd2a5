-- ===== src/Vlapic/Frames.antt =====
-- What interrupts, of devices and of other CPUs, keep of all the APICs of a machine.
use bhyve_experiments.Base.Ends.{Ends, ended, then-Ends}
use bhyve_experiments.Base.{
  ℕ, ◌/◌, ◌%◌, ◌^◌, ◌<◌, ◌≡◌, inl, inr, refl, arith, Bool, true, false, not, ◌&&◌, ◌||◌, List, [],
  ◌∷◌, Option, none, some, if◌then◌else◌, bit_and,
}
use bhyve_experiments.Base.{ltb, leb, ◌==◌, Bool-cases}
use bhyve_experiments.Vlapic.Apic.{emit, inject_extint, trigger_lvt}
use bhyve_experiments.Vlapic.Access.{set_tmr}
use bhyve_experiments.Vlapic.Machine.{
  Machine, on, take_intr, for_each, lapic_set_intr, trigger_each, lapic_set_local_intr, deliver_one,
  deliver_intr, calcdest, lapic_intr_msi, set_tmr_level, active_cpus, delmode_fixed,
  delmode_lowprio, delmode_extint,
}
use bhyve_experiments.Vlapic.Keeps.{
  AllKeep, same-Keeps, then-Keeps, plain-Keeps, on-AllKeep, for_each-AllKeep, take_intr-Keeps,
  trigger_lvt-Keeps, set_tmr-Keeps,
}

pub same-AllKeep : (m : Machine) → AllKeep m m
same-AllKeep m j = same-Keeps (m.lapics j)

pub then-AllKeep : (l m n : Machine) → AllKeep l m → AllKeep m n → AllKeep l n
then-AllKeep l m n p q j = then-Keeps (l.lapics j) (m.lapics j) (n.lapics j) (p j) (q j)

pub if-AllKeep :
    (b : Bool) (l m n : Machine) → AllKeep l m → AllKeep l n → AllKeep l (if b then m else n)
if-AllKeep true l m n p q = p
if-AllKeep false l m n p q = q

pub set_intr-AllKeep : (m : Machine) (cpu vector : ℕ) → AllKeep m (lapic_set_intr m cpu vector).0
unfolding lapic_set_intr
set_intr-AllKeep m cpu vector = elim (Bool-cases (leb m.maxcpus cpu)) [
  | inl e ↦ rw e (same-AllKeep m)
  | inr e ↦ elim (Bool-cases (ltb vector 16 || ltb 255 vector)) [
    | inl d ↦ rw (e, d) (same-AllKeep m)
    | inr d ↦
        rw (e, d) (on-AllKeep m cpu (take_intr vector) (take_intr-Keeps vector (m.lapics cpu)))
  ]
]

trigger_each-AllKeep :
    (vector : ℕ) (cpus : List ℕ) (m : Machine) → AllKeep m (trigger_each vector cpus m).0
unfolding trigger_each
trigger_each-AllKeep vector [] m = same-AllKeep m
trigger_each-AllKeep vector (cpu ∷ cpus) m =
    let next : Machine = on m cpu (λ v. (trigger_lvt v vector).0) in
    let step : AllKeep m next =
      on-AllKeep m cpu (λ v. (trigger_lvt v vector).0) (trigger_lvt-Keeps (m.lapics cpu) vector) in
    let rest =
      then-AllKeep m next (trigger_each vector cpus next).0 step
        (trigger_each-AllKeep vector cpus next) in
    elim (Bool-cases ((trigger_lvt (m.lapics cpu) vector).1 == 0)) [
      | inl e ↦ rw e rest
      | inr e ↦ rw e step
    ]

pub set_local_intr-AllKeep :
    (m : Machine) (cpu : Option ℕ) (vector : ℕ) → AllKeep m (lapic_set_local_intr m cpu vector).0
unfolding lapic_set_local_intr
set_local_intr-AllKeep m none vector = trigger_each-AllKeep vector (active_cpus m) m
set_local_intr-AllKeep m (some cpu) vector = elim (Bool-cases (leb m.maxcpus cpu)) [
  | inl e ↦ rw e (same-AllKeep m)
  | inr e ↦ rw e (trigger_each-AllKeep vector (cpu ∷ []) m)
]

-- Every destination that fits a signed number has its CPUs.
pub calcdest-Ends :
    (m : Machine) (dest : ℕ) (phys lowprio x2apic_dest : Bool)
    → dest < 2 ^ 31
    → Ends (λ (cpus : List ℕ). Unit {0}) (calcdest m dest phys lowprio x2apic_dest)
unfolding calcdest
calcdest-Ends m dest phys lowprio x2apic_dest small =
    let signed : leb (2 ^ 31) dest ≡ false = ground arith in
    elim (Bool-cases (x2apic_dest && dest == 0xffffffff || not x2apic_dest && dest == 0xff)) [
      | inl e ↦ rw e (ended _ tt)
      | inr e ↦ elim (Bool-cases phys) [
        | inr d ↦ rw (e, d) (ended _ tt)
        | inl d ↦ elim (Bool-cases (ltb dest m.maxcpus && m.active dest)) [
          | inl c ↦ rw (e, d, signed, c) (ended _ tt)
          | inr c ↦ rw (e, d, signed, c) (ended _ tt)
        ]
      ]
    ]

deliver_one-AllKeep :
    (delmode vec cpu : ℕ) (m : Machine) → AllKeep m (deliver_one delmode vec cpu m)
unfolding deliver_one
deliver_one-AllKeep delmode vec cpu m =
    if-AllKeep _ m _ _
      (on-AllKeep m cpu (λ v. emit v inject_extint) (plain-Keeps (m.lapics cpu) _ refl refl))
      (set_intr-AllKeep m cpu vec)

pub deliver_intr-Ends :
    (m : Machine) (dest : ℕ) (phys : Bool) (delmode vec : ℕ)
    → dest < 2 ^ 31
    → Ends (AllKeep m) (deliver_intr m dest phys delmode vec)
unfolding deliver_intr
deliver_intr-Ends m dest phys delmode vec small =
    elim (Bool-cases
      (delmode == delmode_fixed || (delmode == delmode_lowprio || delmode == delmode_extint))) [
        | inr e ↦ rw e (ended m (same-AllKeep m))
        | inl e ↦ rw e (
            then-Ends _ (AllKeep m) (calcdest m dest phys (delmode == delmode_lowprio) false)
              (λ dmask. some (for_each (deliver_one delmode vec) dmask m))
              (calcdest-Ends m dest phys (delmode == delmode_lowprio) false small)
              (λ dmask u. ended _ (
                for_each-AllKeep (deliver_one delmode vec)
                  (λ i n. deliver_one-AllKeep delmode vec i n) dmask m)))
      ]

pub msi-Ends : (m : Machine) (addr msg : ℕ) → Ends (λ r. AllKeep m r.0) (lapic_intr_msi m addr msg)
unfolding lapic_intr_msi
msi-Ends m addr msg = elim (Bool-cases (bit_and addr 0xfff00000 == 0xfee00000)) [
  | inr e ↦ rw e (ended _ (same-AllKeep m))
  | inl e ↦ rw e (
      then-Ends (AllKeep m) (λ r. AllKeep m r.0) _ (λ m'. some (m', true))
        (deliver_intr-Ends m (addr / 2 ^ 12 % 2 ^ 8) (not (bit_and addr 0xc == 0xc))
          (bit_and msg 0x700) (msg % 2 ^ 8) (omega arith))
        (λ n k. ended _ k))
]

pub set_tmr_level-Ends :
    (m : Machine) (i dest : ℕ) (phys : Bool) (delmode vector : ℕ)
    → dest < 2 ^ 31
    → vector < 256
    → Ends (AllKeep m) (set_tmr_level m i dest phys delmode vector)
unfolding set_tmr_level
set_tmr_level-Ends m i dest phys delmode vector small byte =
    let fits : ltb 255 vector ≡ false = ground arith in
    elim (Bool-cases (delmode == delmode_fixed || delmode == delmode_lowprio)) [
      | inr e ↦ rw (fits, e) (ended m (same-AllKeep m))
      | inl e ↦
          rw (fits, e)
            (then-Ends _ (AllKeep m) _ _
              (calcdest-Ends m dest phys (delmode == delmode_lowprio) false small)
              (λ dmask u. ended _ (
                if-AllKeep _ m _ _
                  (on-AllKeep m i (set_tmr vector true) (set_tmr-Keeps vector true (m.lapics i)))
                  (same-AllKeep m))))
    ]
