-- ===== src/Vlapic/Command.antt =====
-- The interrupt command register of a local APIC, the whole of `vlapic_write`, bios/vmm/io/vlapic.c,
-- and the accesses to its registers as memory and as MSRs, bios/vmm/vmm_lapic.c.
use bhyve_experiments.Base.{
  ℕ, ◌+◌, ◌-◌, ◌*◌, ◌/◌, ◌%◌, ◌^◌, Bool, true, false, not, ◌&&◌, ◌||◌, List, [], ◌∷◌, Option, none,
  some, bit_and, bit_xor,
}
use bhyve_experiments.Base.{if◌then◌else◌, ltb, leb, ◌==◌, ◌>>=◌}
use bhyve_experiments.Vlapic.Apic.{
  Vlapic, inject_nmi, spinup_ap, BootState, bs_init, bs_sipi, bs_running, emit, set_error,
  send_illegal_vector, einval,
}
use bhyve_experiments.Vlapic.Access.{x2apic, default_apic_base, write_register, vlapic_read}
use bhyve_experiments.Vlapic.Start.{set_apicbase}
use bhyve_experiments.Vlapic.Machine.{
  Machine, on, active_cpus, calcdest, for_each, lapic_set_intr, delmode_fixed,
}

abbrev pub delmode_nmi : ℕ
delmode_nmi = 0x400

abbrev pub delmode_init : ℕ
delmode_init = 0x500

abbrev pub delmode_startup : ℕ
delmode_startup = 0x600

abbrev pub without : ℕ → List ℕ → List ℕ
without i [] = []
without i (j ∷ cpus) = let rest = without i cpus in if j == i then rest else j ∷ rest

-- The CPUs that a command is for, by its destination shorthand
unfoldable pub icr_targets : Machine → Vlapic → ℕ → Option (List ℕ)
icr_targets m v dest =
    let shorthand = bit_and v.icr_lo 0xc0000 in
    if shorthand == 0x00000
    then calcdest m dest (bit_and v.icr_lo 0x800 == 0) false (x2apic v)
    else if shorthand == 0x40000
    then some (v.vcpuid ∷ [])
    else if shorthand == 0x80000
    then some (active_cpus m)
    else if shorthand == 0xc0000
    then some (without v.vcpuid (active_cpus m))
    else some []

unfoldable pub send_ipi : ℕ → ℕ → ℕ → Machine → Machine
send_ipi mode vec i m =
    if mode == delmode_fixed then (lapic_set_intr m i vec).0 else on m i (λ v. emit v inject_nmi)

-- An INIT moves a CPU to the wait for a SIPI, unless it has left its first state.
unfoldable pub after_init : BootState → BootState
after_init bs_init = bs_sipi
after_init bs_sipi = bs_sipi
after_init bs_running = bs_running

abbrev pub await_sipi : Vlapic → Vlapic
await_sipi v = record v { boot_state = after_init v.boot_state }

abbrev pub awaits_sipi : BootState → Bool
awaits_sipi bs_init = false
awaits_sipi bs_sipi = true
awaits_sipi bs_running = false

-- A SIPI starts a CPU that waits for it.
unfoldable pub start_ap : Machine → ℕ → ℕ → ℕ → Machine
start_ap m i dest vec =
    if awaits_sipi (m.lapics dest).boot_state
    then on (on m dest (λ v. record v { boot_state = bs_running })) i
        (λ v. emit v (spinup_ap dest (vec * 2 ^ 12)))
    else m

-- Does the CPU that starts the machine address another one?
abbrev pub to_ap : Machine → Vlapic → ℕ → Bool
to_ap m v dest = v.vcpuid == 0 && (not (dest == 0) && ltb dest m.maxcpus)

abbrev pub icr_dest : Vlapic → ℕ
icr_dest v = if x2apic v then v.icr_hi else v.icr_hi / 2 ^ 24

-- `vlapic_icrlo_write_handler` behind the first statement: the result is its return value.
unfoldable pub icr_command : Machine → ℕ → Vlapic → Option (Machine × ℕ)
icr_command m i v =
    let dest = icr_dest v in
    let vec = bit_and v.icr_lo 0xff in
    let mode = bit_and v.icr_lo 0x700 in
    if mode == delmode_fixed && ltb vec 16
    then some (on m i (set_error send_illegal_vector false), 0)
    else if mode == delmode_fixed || mode == delmode_nmi
    then icr_targets m v dest >>= (λ dmask. some (for_each (send_ipi mode vec) dmask m, 0))
    else if mode == delmode_init && bit_and v.icr_lo 0x4000 == 0
    then some (m, 0)
    else if mode == delmode_init && to_ap m v dest
    then some (on m dest await_sipi, 0)
    else if mode == delmode_startup && to_ap m v dest
    then some (start_ap m i dest vec, 0)
    else some (m, 1)

abbrev pub not_pending : Vlapic → Vlapic
not_pending v = record v { icr_lo = bit_and v.icr_lo (bit_xor 0xffffffff 0x1000) }

unfoldable pub icrlo_write_handler : Machine → ℕ → Option (Machine × ℕ)
icrlo_write_handler m i = let m' = on m i not_pending in icr_command m' i (not_pending (m.lapics i))

unfoldable pub self_ipi_handler : Machine → ℕ → ℕ → Machine
self_ipi_handler m i val = (lapic_set_intr m (m.lapics i).vcpuid (val % 2 ^ 8)).0

abbrev pub icr_written : ℕ → Vlapic → Vlapic
icr_written wval v = record v {
  icr_lo = wval % 2 ^ 32;
  icr_hi = if x2apic v then wval / 2 ^ 32 % 2 ^ 32 else v.icr_hi;
}

-- The write of one register: `none` is a panic.
unfoldable pub write_any : Machine → ℕ → ℕ → ℕ → Option (Machine × ℕ)
write_any m i offset wval =
    if offset == 0x300
    then icrlo_write_handler (on m i (icr_written wval)) i
    else if offset == 0x3f0
    then some (if x2apic (m.lapics i) then self_ipi_handler m i wval else m, 0)
    else write_register (m.lapics i) offset wval >>= (λ w. some (on m i (λ v. w), 0))

-- `vlapic_write`. An offset that is no multiple of 16 or is behind the page fails an assertion. The
-- page has no register behind its structure.
unfoldable pub vlapic_write : Machine → ℕ → Bool → ℕ → ℕ → Option (Machine × ℕ)
vlapic_write m i mmio_access offset wval =
    let mode = x2apic (m.lapics i) in
    if not (offset % 16 == 0 && ltb offset 4096)
    then none
    else if mode && mmio_access || not mode && not mmio_access
    then some (m, 0)
    else write_any m i offset wval

abbrev pub msr_apicbase_number : ℕ
msr_apicbase_number = 0x1b

abbrev pub x2apic_msr_to_regoff : ℕ → ℕ
x2apic_msr_to_regoff msr = (msr + 2 ^ 32 - 0x800) % 2 ^ 32 * 2 ^ 4 % 2 ^ 32

unfoldable pub lapic_msr : ℕ → Bool
lapic_msr msr = leb 0x800 msr && leb msr 0xbff || msr == msr_apicbase_number

-- the value that `lapic_rdmsr` reads, with the current count of the timer
unfoldable pub lapic_rdmsr : Machine → ℕ → ℕ → ℕ → Option ℕ
lapic_rdmsr m cpu ccr msr =
    if msr == msr_apicbase_number
    then some (m.lapics cpu).msr_apicbase
    else vlapic_read (m.lapics cpu) ccr false (x2apic_msr_to_regoff msr)

-- `lapic_wrmsr`, with its return value, where 1 stands for -1 of `vlapic_set_apicbase`
unfoldable pub lapic_wrmsr : Machine → ℕ → ℕ → ℕ → Option (Machine × ℕ)
lapic_wrmsr m cpu msr val =
    if msr == msr_apicbase_number
    then some (m, if set_apicbase (m.lapics cpu) val then 0 else 1)
    else vlapic_write m cpu false (x2apic_msr_to_regoff msr) val

-- a 64-bit offset from the start of the page
abbrev pub page_offset : ℕ → ℕ
page_offset gpa = (gpa + 2 ^ 64 - default_apic_base) % 2 ^ 64

unfoldable pub lapic_mmio_write : Machine → ℕ → ℕ → ℕ → ℕ → Option (Machine × ℕ)
lapic_mmio_write m cpu gpa wval size =
    let off = page_offset gpa in
    if not (size == 4) || not (off % 16 == 0)
    then some (m, einval)
    else vlapic_write m cpu true off wval

-- `lapic_mmio_read`: the error or the value
unfoldable pub lapic_mmio_read : Machine → ℕ → ℕ → ℕ → Option (ℕ × ℕ)
lapic_mmio_read m cpu ccr gpa =
    let off = page_offset gpa - page_offset gpa % 4 in
    if not (off % 16 == 0)
    then some (einval, 0)
    else vlapic_read (m.lapics cpu) ccr true off >>= (λ value. some (0, value))
