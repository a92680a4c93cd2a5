-- ===== src/Vlapic/Access.antt =====
-- The registers of a local APIC as its virtual CPU reads and writes them, bios/vmm/io/vlapic.c. The
-- write of the interrupt command, which reaches the other APICs, is in Machine.
use bhyve_experiments.Base.{
  ℕ, zero, suc, ◌-◌, ◌*◌, ◌/◌, ◌%◌, ◌^◌, Bool, false, not, ◌&&◌, ◌||◌, List, Option, none, some,
  bit_and, bit_or, bit_xor,
}
use bhyve_experiments.Base.{if◌then◌else◌, leb, ◌==◌, get_or, set, ◌>>=◌}
use bhyve_experiments.Base.Bits.{any_of}
use bhyve_experiments.Vlapic.Vectors.{set_vec, clear_vec}
use bhyve_experiments.Vlapic.Apic.{
  Vlapic, callout_reset, callout_stop, emit, svr_enabled, apic_svr_enable, apic_lvt_m,
  apic_lvt_vector, apic_lvt_dm, fire_lvt, set_tpr, process_eoi,
}

abbrev pub apicbase_x2apic : ℕ
apicbase_x2apic = 0x400

abbrev pub apicbase_enabled : ℕ
apicbase_enabled = 0x800

abbrev pub apicbase_bsp : ℕ
apicbase_bsp = 0x100

abbrev pub default_apic_base : ℕ
default_apic_base = 0xfee00000

abbrev pub x2apic : Vlapic → Bool
x2apic v = any_of v.msr_apicbase apicbase_x2apic

abbrev pub vlapic_get_id : Vlapic → ℕ
vlapic_get_id v = if x2apic v then v.vcpuid else v.vcpuid * 2 ^ 24 % 2 ^ 32

abbrev pub x2apic_ldr : Vlapic → ℕ
x2apic_ldr v =
    let apicid = vlapic_get_id v in
    bit_or (2 ^ bit_and apicid 0xf) (bit_and apicid 0xffff0 * 2 ^ 12 % 2 ^ 32)

unfoldable pub dfr_write_handler : Vlapic → Vlapic
dfr_write_handler v =
    if x2apic v
    then record v { dfr = 0 }
    else record v { dfr = bit_or (bit_and v.dfr 0xf0000000) 0x0fffffff }

unfoldable pub ldr_write_handler : Vlapic → Vlapic
ldr_write_handler v =
    if x2apic v
    then record v { ldr = x2apic_ldr v }
    else record v { ldr = bit_and v.ldr (bit_xor 0xffffffff 0x00ffffff) }

abbrev pub id_write_handler : Vlapic → Vlapic
id_write_handler v = record v { id = vlapic_get_id v }

-- the cases of `vlapic_timer_divisor`; `none` is the panic of its default
abbrev pub divisor_of : ℕ → Option ℕ
divisor_of x =
    if x == 0xb
    then some 1
    else if x == 0x0
    then some 2
    else if x == 0x1
    then some 4
    else if x == 0x2
    then some 8
    else if x == 0x3
    then some 16
    else if x == 0x8
    then some 32
    else if x == 0x9
    then some 64
    else if x == 0xa
    then some 128
    else none

unfoldable pub timer_divisor : ℕ → Option ℕ
timer_divisor dcr = divisor_of (bit_and dcr 0xb)

abbrev pub vlapic_bus_freq : ℕ
vlapic_bus_freq = 128 * 1024 * 1024

unfoldable pub dcr_write_handler : Vlapic → Option Vlapic
dcr_write_handler v = timer_divisor v.dcr_timer >>= (λ divisor.
    some (record v { timer_freq = vlapic_bus_freq / divisor; timer_period = v.icr_timer }))

-- `vlapic_icrtmr_write_handler`. The callout comes after so many ticks of the timer's frequency.
unfoldable pub icrtmr_write_handler : Vlapic → Vlapic
icrtmr_write_handler v =
    let w = record v { timer_period = v.icr_timer } in
    if v.icr_timer == 0
    then emit w callout_stop
    else emit w (callout_reset v.timer_freq v.icr_timer)

abbrev pub esr_write_handler : Vlapic → Vlapic
esr_write_handler v = record v { esr = v.esr_pending; esr_pending = 0 }

abbrev pub apic_lvt_timer : ℕ
apic_lvt_timer = 2

-- `lvt_off_to_idx`. At other offsets, where an assertion fails, it has no value.
unfoldable pub lvt_off_to_idx : ℕ → Option ℕ
lvt_off_to_idx offset =
    if offset == 0x2f0
    then some 6
    else if offset == 0x320
    then some 2
    else if offset == 0x330
    then some 5
    else if offset == 0x340
    then some 4
    else if offset == 0x350
    then some 0
    else if offset == 0x360
    then some 1
    else if offset == 0x370
    then some 3
    else none

-- the bits that can be written of the LVT register with a number
unfoldable pub lvt_mask : ℕ → ℕ
lvt_mask idx =
    let common = bit_or (bit_or apic_lvt_m 0x1000) apic_lvt_vector in
    if idx == 2
    then bit_or common 0x60000
    else if idx == 3
    then common
    else if leb idx 1
    then bit_or (bit_or common (bit_or (bit_or 0x8000 0x4000) 0x2000)) apic_lvt_dm
    else bit_or common apic_lvt_dm

-- `vlapic_lvt_write_handler`, of the register with a number
unfoldable pub lvt_write_handler : ℕ → Vlapic → Vlapic
lvt_write_handler idx v =
    let old = get_or v.lvt idx 0 in
    let val = if svr_enabled v then old else bit_or old apic_lvt_m in
    let kept = bit_and val (lvt_mask idx) in
    record v { lvt = set v.lvt idx kept; lvt_last = set v.lvt_last idx kept }

unfoldable pub mask_lvt : ℕ → Vlapic → Vlapic
mask_lvt idx v =
    lvt_write_handler idx
      (record v { lvt = set v.lvt idx (bit_or (get_or v.lvt idx 0) apic_lvt_m) })

unfoldable pub mask_lvts : Vlapic → Vlapic
mask_lvts v =
    mask_lvt 3 (mask_lvt 1 (mask_lvt 0 (mask_lvt 4 (mask_lvt 5 (mask_lvt 2 (mask_lvt 6 v))))))

abbrev pub periodic_timer : Vlapic → Bool
periodic_timer v = any_of (get_or v.lvt_last apic_lvt_timer 0) 0x20000

-- `vlapic_svr_write_handler`, once the register is written
unfoldable pub svr_write_handler : Vlapic → Vlapic
svr_write_handler v =
    let changed = any_of (bit_xor v.svr_last v.svr) apic_svr_enable in
    let w = record v { svr_last = v.svr } in
    if changed
    then (if not (any_of v.svr apic_svr_enable)
        then mask_lvts (emit w callout_stop)
        else if periodic_timer w
        then icrtmr_write_handler w
        else w)
    else w

-- `vlapic_callout_handler`, of a callout that is neither pending again nor stopped, up to the time
-- of the next one of a periodic timer
unfoldable pub fire_timer : Vlapic → Vlapic
fire_timer v = (fire_lvt v apic_lvt_timer).0

unfoldable pub set_tmr : ℕ → Bool → Vlapic → Vlapic
set_tmr vector level v = record v {
  tmr = if level then set_vec v.tmr vector else clear_vec v.tmr vector;
}

-- the loop of `vlapic_reset_tmr`, with `n` vectors left
unfoldable pub reset_from : ℕ → Vlapic → Vlapic
reset_from zero v = v
reset_from (suc n) v = reset_from n (set_tmr (255 - n) false v)

abbrev pub reset_tmr : Vlapic → Vlapic
reset_tmr v = reset_from 256 v

-- one of the eight words of a register of vectors, which stand 16 bytes apart
abbrev pub word_at : List ℕ → ℕ → ℕ
word_at w off = if off % 16 == 0 then get_or w (off / 16) 0 else 0

-- The copy of an LVT register is read. It is an assertion that the register is the same.
abbrev pub read_lvt : Vlapic → ℕ → Option ℕ
read_lvt v idx =
    if get_or v.lvt idx 0 == get_or v.lvt_last idx 0 then some (get_or v.lvt_last idx 0) else none

-- the register at an offset in the page, with the current count of the timer, which depends on the
-- time; it has 0 in those that nothing writes, APR and EOI, and behind the last one.
unfoldable pub register_at : Vlapic → ℕ → ℕ → Option ℕ
register_at v ccr offset =
    if offset == 0x20
    then some v.id
    else if offset == 0x30
    then some v.version
    else if offset == 0x80
    then some v.tpr
    else if offset == 0xa0
    then some v.ppr
    else if offset == 0xd0
    then some v.ldr
    else if offset == 0xe0
    then some v.dfr
    else if offset == 0xf0
    then some v.svr
    else if leb 0x100 offset && leb offset 0x170
    then some (word_at v.serv.isr (offset - 0x100))
    else if leb 0x180 offset && leb offset 0x1f0
    then some (word_at v.tmr (offset - 0x180))
    else if leb 0x200 offset && leb offset 0x270
    then some (word_at v.irr (offset - 0x200))
    else if offset == 0x280
    then some v.esr
    else if offset == 0x300
    then some (if x2apic v then bit_or v.icr_lo (v.icr_hi * 2 ^ 32) else v.icr_lo)
    else if offset == 0x310
    then some v.icr_hi
    else if offset == 0x2f0 || leb 0x320 offset && leb offset 0x370
    then (lvt_off_to_idx offset >>= read_lvt v)
    else if offset == 0x380
    then some v.icr_timer
    else if offset == 0x390
    then (if leb ccr v.icr_timer then some ccr else none)
    else if offset == 0x3e0
    then some v.dcr_timer
    else some 0

-- `vlapic_read`, which always returns 0: `none` is a failed assertion.
unfoldable pub vlapic_read : Vlapic → ℕ → Bool → ℕ → Option ℕ
vlapic_read v ccr mmio_access offset =
    if x2apic v && mmio_access || not (x2apic v) && not mmio_access
    then some 0
    else register_at v ccr (offset - offset % 4)

abbrev pub written_lvt : Vlapic → ℕ → Option ℕ → Option Vlapic
written_lvt v value none = none
written_lvt v value (some idx) =
    some (lvt_write_handler idx (record v { lvt = set v.lvt idx value }))

-- The writes of `vlapic_write` that only this APIC takes part in
unfoldable pub write_register : Vlapic → ℕ → ℕ → Option Vlapic
write_register v offset wval =
    let value = wval % 2 ^ 32 in
    if offset == 0x20
    then some (id_write_handler (record v { id = value }))
    else if offset == 0x80
    then set_tpr v (wval % 256)
    else if offset == 0xb0
    then process_eoi v
    else if offset == 0xd0
    then some (ldr_write_handler (record v { ldr = value }))
    else if offset == 0xe0
    then some (dfr_write_handler (record v { dfr = value }))
    else if offset == 0xf0
    then some (svr_write_handler (record v { svr = value }))
    else if offset == 0x310
    then some (record v { icr_hi = value })
    else if offset == 0x2f0 || leb 0x320 offset && leb offset 0x370
    then written_lvt v value (lvt_off_to_idx offset)
    else if offset == 0x380
    then some (icrtmr_write_handler (record v { icr_timer = value }))
    else if offset == 0x3e0
    then dcr_write_handler (record v { dcr_timer = value })
    else if offset == 0x280
    then some (esr_write_handler v)
    else some v
