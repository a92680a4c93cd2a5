-- ===== src/Vlapic/Machine.antt =====
-- The local APICs of one virtual machine and the interrupts that reach them: `vlapic_calcdest`,
-- `vlapic_deliver_intr` and `vlapic_set_tmr_level` of bios/vmm/io/vlapic.c, and the entry points of
-- bios/vmm/vmm_lapic.c for other devices. Whether an interrupt is level-triggered is only traced.
use bhyve_experiments.Base.{
  ℕ, zero, suc, ◌+◌, ◌/◌, ◌%◌, ◌^◌, Bool, true, false, not, ◌&&◌, ◌||◌, List, [], ◌∷◌, Option, none,
  some, bit_and,
}
use bhyve_experiments.Base.{if◌then◌else◌, ltb, leb, ◌==◌, ◌>>=◌}
use bhyve_experiments.Base.Bits.{any_of}
use bhyve_experiments.Vlapic.Apic.{
  Vlapic, inject_extint, emit, notified, set_intr_ready, trigger_lvt, einval,
}
use bhyve_experiments.Vlapic.Access.{x2apic, set_tmr}

-- The APICs by the number of their virtual CPU, the number of virtual CPUs, and which are active
pub record Machine : Type 0 where
  pub lapics : ℕ → Vlapic
  pub maxcpus : ℕ
  pub active : ℕ → Bool

abbrev pub on : Machine → ℕ → (Vlapic → Vlapic) → Machine
on m i f = record m { lapics = λ j. if j == i then f (m.lapics i) else m.lapics j }

-- the active CPUs from `i` on, in the order in which `CPU_FFS` gives them
abbrev pub active_from : (ℕ → Bool) → ℕ → ℕ → List ℕ
active_from active i zero = []
active_from active i (suc n) =
    let rest = active_from active (i + 1) n in if active i then i ∷ rest else rest

unfoldable pub active_cpus : Machine → List ℕ
active_cpus m = active_from m.active 0 m.maxcpus

-- Has the APIC a bit in common with a logical destination, in the model that its DFR gives?
unfoldable pub is_addressed : Vlapic → ℕ → Bool → Bool
is_addressed v dest x2apic_dest =
    let model = bit_and v.dfr 0xf0000000 in
    if model == 0xf0000000
    then any_of (dest % 2 ^ 8) (v.ldr / 2 ^ 24)
    else if model == 0
    then (if x2apic v then v.ldr / 2 ^ 16 else v.ldr / 2 ^ 28)
        == (if x2apic_dest then dest / 2 ^ 16 else dest / 2 ^ 4 % 2 ^ 4)
      && any_of (if x2apic_dest then dest % 2 ^ 16 else dest % 2 ^ 4)
          (if x2apic v then v.ldr % 2 ^ 16 else v.ldr / 2 ^ 24 % 2 ^ 4)
    else false

-- the loop for a logical destination: with `lowprio` the first CPU is enough.
unfoldable pub addressed : (ℕ → Bool) → Bool → List ℕ → List ℕ
addressed is_dest lowprio [] = []
addressed is_dest lowprio (i ∷ cpus) =
    let rest = addressed is_dest lowprio cpus in
    if is_dest i then (if lowprio then i ∷ [] else i ∷ rest) else rest

-- `vlapic_calcdest`. `none` is an access outside of the set of active CPUs: a physical destination
-- from 2 ^ 31 on is a negative number of a virtual CPU, which passes the check against the maximum.
unfoldable pub calcdest : Machine → ℕ → Bool → Bool → Bool → Option (List ℕ)
calcdest m dest phys lowprio x2apic_dest =
    if x2apic_dest && dest == 0xffffffff || not x2apic_dest && dest == 0xff
    then some (active_cpus m)
    else if phys
    then (if leb (2 ^ 31) dest
        then none
        else if ltb dest m.maxcpus && m.active dest
        then some (dest ∷ [])
        else some [])
    else some (addressed (λ i. is_addressed (m.lapics i) dest x2apic_dest) lowprio (active_cpus m))

unfoldable pub for_each : (ℕ → Machine → Machine) → List ℕ → Machine → Machine
for_each f [] m = m
for_each f (i ∷ cpus) m = for_each f cpus (f i m)

-- an interrupt that an APIC takes, and the event for its CPU
abbrev pub take_intr : ℕ → Vlapic → Vlapic
take_intr vector v = notified (set_intr_ready v vector)

unfoldable pub lapic_set_intr : Machine → ℕ → ℕ → Machine × ℕ
lapic_set_intr m cpu vector =
    if leb m.maxcpus cpu
    then (m, einval)
    else if ltb vector 16 || ltb 255 vector
    then (m, einval)
    else (on m cpu (take_intr vector), 0)

-- The loop of `lapic_set_local_intr` ends at the first error.
unfoldable pub trigger_each : ℕ → List ℕ → Machine → Machine × ℕ
trigger_each vector [] m = (m, 0)
trigger_each vector (cpu ∷ cpus) m =
    let error = (trigger_lvt (m.lapics cpu) vector).1 in
    let m' = on m cpu (λ v. (trigger_lvt v vector).0) in
    let rest = trigger_each vector cpus m' in if error == 0 then rest else (m', error)

-- `lapic_set_local_intr`, for one CPU or, where the source has -1, for all
unfoldable pub lapic_set_local_intr : Machine → Option ℕ → ℕ → Machine × ℕ
lapic_set_local_intr m none vector = trigger_each vector (active_cpus m) m
lapic_set_local_intr m (some cpu) vector =
    if leb m.maxcpus cpu then (m, einval) else trigger_each vector (cpu ∷ []) m

abbrev pub delmode_fixed : ℕ
delmode_fixed = 0x000

abbrev pub delmode_lowprio : ℕ
delmode_lowprio = 0x100

abbrev pub delmode_extint : ℕ
delmode_extint = 0x700

unfoldable pub deliver_one : ℕ → ℕ → ℕ → Machine → Machine
deliver_one delmode vec cpu m =
    if delmode == delmode_extint
    then on m cpu (λ v. emit v inject_extint)
    else (lapic_set_intr m cpu vec).0

unfoldable pub deliver_intr : Machine → ℕ → Bool → ℕ → ℕ → Option Machine
deliver_intr m dest phys delmode vec =
    if not (delmode == delmode_fixed || (delmode == delmode_lowprio || delmode == delmode_extint))
    then some m
    else calcdest m dest phys (delmode == delmode_lowprio) false
      >>= (λ dmask. some (for_each (deliver_one delmode vec) dmask m))

-- `lapic_intr_msi`, with whether it returns 0
unfoldable pub lapic_intr_msi : Machine → ℕ → ℕ → Option (Machine × Bool)
lapic_intr_msi m addr msg =
    if not (bit_and addr 0xfff00000 == 0xfee00000)
    then some (m, false)
    else deliver_intr m (addr / 2 ^ 12 % 2 ^ 8) (not (bit_and addr 0xc == 0xc)) (bit_and msg 0x700)
        (msg % 2 ^ 8)
      >>= (λ m'. some (m', true))

abbrev pub is_in : ℕ → List ℕ → Bool
is_in i [] = false
is_in i (j ∷ cpus) = i == j || is_in i cpus

-- `vlapic_set_tmr_level`, of the APIC of a virtual CPU: `none` is the failed assertion at a vector
-- above 255, or an access outside of the set of CPUs.
unfoldable pub set_tmr_level : Machine → ℕ → ℕ → Bool → ℕ → ℕ → Option Machine
set_tmr_level m i dest phys delmode vector =
    if ltb 255 vector
    then none
    else if not (delmode == delmode_fixed || delmode == delmode_lowprio)
    then some m
    else calcdest m dest phys (delmode == delmode_lowprio) false >>= (λ dmask.
      some (if is_in (m.lapics i).vcpuid dmask then on m i (set_tmr vector true) else m))
