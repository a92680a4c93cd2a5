-- ===== src/Vlapic/Apic.antt =====
-- One local APIC, bios/vmm/io/vlapic.c: its registers, and how it takes, delivers and ends
-- interrupts. The functions in `ops` that a processor may have for this are not there.
pub mod Stack
pub mod Moves
use bhyve_experiments.Base.{
  ℕ, zero, suc, ◌+◌, ◌-◌, ◌*◌, ◌/◌, ◌%◌, ◌^◌, Bool, true, false, not, ◌&&◌, ◌||◌, List, [], ◌∷◌,
  ◌++◌, Option, none, some, bit_and, bit_or,
}
use bhyve_experiments.Base.{if◌then◌else◌, ltb, leb, ◌==◌, get_or, set, ◌>>=◌}
use bhyve_experiments.Base.Bits.{any_of}
use bhyve_experiments.Vlapic.Vectors.{has_vec, set_vec, clear_vec, highest}

-- the bits of the registers, from the system's header
abbrev pub apic_svr_enable : ℕ
apic_svr_enable = 0x100

abbrev pub apic_lvt_m : ℕ
apic_lvt_m = 0x10000

abbrev pub apic_lvt_vector : ℕ
apic_lvt_vector = 0xff

abbrev pub apic_lvt_dm : ℕ
apic_lvt_dm = 0x700

abbrev pub apic_lvt_error : ℕ
apic_lvt_error = 3

abbrev pub send_illegal_vector : ℕ
send_illegal_vector = 0x20

abbrev pub receive_illegal_vector : ℕ
receive_illegal_vector = 0x40

abbrev pub isrvec_stk_size : ℕ
isrvec_stk_size = 17

pub data BootState : Type 0 where
  bs_init : BootState
  bs_sipi : BootState
  bs_running : BootState

-- what a local APIC asks of the rest of the hypervisor: events for its virtual CPU, the end of an
-- interrupt for the I/O APIC, and the timer at a frequency, of a number of ticks,
-- and the exit that starts another virtual CPU at an address
pub data Effect : Type 0 where
  notify_event : Effect
  inject_nmi : Effect
  inject_extint : Effect
  inject_gp : Effect
  ioapic_eoi : ℕ → Effect
  callout_reset : ℕ → ℕ → Effect
  callout_stop : Effect
  spinup_ap : ℕ → ℕ → Effect

-- the interrupts in service: ISR, and the stack of their vectors
pub record Service : Type 0 where
  pub isr : List ℕ
  pub isrvec_stk : List ℕ
  pub isrvec_stk_top : ℕ

-- `struct vlapic` with its page `struct LAPIC`. The LVT registers have the order of `lvt_last`. The
-- frequency of the timer is in Hz, and its period a number of ticks.
pub record Vlapic : Type 0 where
  pub vcpuid : ℕ
  pub id : ℕ
  pub version : ℕ
  pub tpr : ℕ
  pub ppr : ℕ
  pub ldr : ℕ
  pub dfr : ℕ
  pub svr : ℕ
  pub serv : Service
  pub tmr : List ℕ
  pub irr : List ℕ
  pub esr : ℕ
  pub icr_lo : ℕ
  pub icr_hi : ℕ
  pub lvt : List ℕ
  pub icr_timer : ℕ
  pub dcr_timer : ℕ
  pub esr_pending : ℕ
  pub timer_freq : ℕ
  pub timer_period : ℕ
  pub msr_apicbase : ℕ
  pub boot_state : BootState
  pub svr_last : ℕ
  pub lvt_last : List ℕ
  pub effects : List Effect

abbrev pub emit : Vlapic → Effect → Vlapic
emit v e = record v { effects = v.effects ++ e ∷ [] }

abbrev pub prio : ℕ → ℕ
prio x = x / 2 ^ 4

abbrev pub svr_enabled : Vlapic → Bool
svr_enabled v = any_of v.svr apic_svr_enable

-- `vlapic_set_intr_ready` at a vector from 16 on: whether the interrupt was taken
unfoldable pub set_ready : Vlapic → ℕ → Vlapic × Bool
set_ready v vector =
    if svr_enabled v then (record v { irr = set_vec v.irr vector }, true) else (v, false)

abbrev pub notified : Vlapic × Bool → Vlapic
notified (v, taken) = if taken then emit v notify_event else v

-- `vlapic_fire_lvt`, given what it does of a vector below 16: whether it has fired
unfoldable pub fire_with : (Vlapic → Vlapic) → Vlapic → ℕ → Vlapic × Bool
fire_with illegal v lvt =
    let reg = get_or v.lvt_last lvt 0 in
    let vec = bit_and reg apic_lvt_vector in
    let mode = bit_and reg apic_lvt_dm in
    if any_of reg apic_lvt_m
    then (v, false)
    else if mode == 0x000
    then (if ltb vec 16 then (illegal v, false) else (notified (set_ready v vec), true))
    else if mode == 0x400
    then (emit v inject_nmi, true)
    else if mode == 0x700
    then (emit v inject_extint, true)
    else (v, false)

abbrev pub note_error : ℕ → Vlapic → Vlapic
note_error mask v = record v { esr_pending = bit_or v.esr_pending mask }

-- `vlapic_set_error`. Of an illegal vector in the error LVT itself there is only a note.
unfoldable pub set_error : ℕ → Bool → Vlapic → Vlapic
set_error mask lvt_error v =
    if lvt_error
    then note_error mask v
    else (fire_with (note_error send_illegal_vector) (note_error mask v) apic_lvt_error).0

unfoldable pub fire_lvt : Vlapic → ℕ → Vlapic × Bool
fire_lvt v lvt = fire_with (set_error send_illegal_vector (lvt == apic_lvt_error)) v lvt

unfoldable pub set_intr_ready : Vlapic → ℕ → Vlapic × Bool
set_intr_ready v vector =
    if not (svr_enabled v)
    then (v, false)
    else if ltb vector 16
    then (set_error receive_illegal_vector false v, true)
    else set_ready v vector

abbrev pub vlapic_enabled : Vlapic → Bool
vlapic_enabled v = any_of v.msr_apicbase 0x800 && svr_enabled v

abbrev pub einval : ℕ
einval = 22

unfoldable pub trigger_lvt : Vlapic → ℕ → Vlapic × ℕ
trigger_lvt v vector =
    if not (vlapic_enabled v)
    then (if vector == 0
        then (emit v inject_extint, 0)
        else if vector == 1
        then (emit v inject_nmi, 0)
        else (v, 0))
    else if leb vector 6
    then ((fire_lvt v vector).0, 0)
    else (v, einval)

-- The first check of `vlapic_update_ppr`, at the entries from `i` on, with `n` of them left and
-- `last` one more than the priority before: the priorities increase.
unfoldable pub prios_increase : List ℕ → ℕ → ℕ → ℕ → Bool
prios_increase stk last i zero = true
prios_increase stk last i (suc n) =
    let curprio = prio (get_or stk i 0) in
    not (ltb curprio last) && prios_increase stk (curprio + 1) (i + 1) n

-- The second check, at the vectors from `v` on, with `n` of them left: ISR and stack agree.
unfoldable pub in_sync : Service → ℕ → ℕ → ℕ → Bool
in_sync s i v zero = true
in_sync s i v (suc n) =
    let is_set = has_vec s.isr v in
    not (is_set && (ltb s.isrvec_stk_top i || not (get_or s.isrvec_stk i 0 == v)))
    && in_sync s (if is_set then i + 1 else i) (v + 1) n

-- the conditions for the three panics of `vlapic_update_ppr`
unfoldable pub stack_ok : Service → Bool
stack_ok s =
    not (s.isrvec_stk_top == 0 && not (get_or s.isrvec_stk s.isrvec_stk_top 0 == 0))
    && prios_increase s.isrvec_stk 0 1 s.isrvec_stk_top
    && in_sync s 1 0 256

abbrev pub new_ppr : Vlapic → ℕ
new_ppr v =
    let isrvec = get_or v.serv.isrvec_stk v.serv.isrvec_stk_top 0 in
    if leb (prio isrvec) (prio v.tpr) then v.tpr else bit_and isrvec 0xf0

-- `vlapic_update_ppr`, and what follows it: `none` is a panic.
unfoldable pub update_ppr : Vlapic → Option Vlapic
update_ppr v = if stack_ok v.serv then some (record v { ppr = new_ppr v }) else none

abbrev pub popped : Service → ℕ → Service
popped s vector = record s { isr = clear_vec s.isr vector; isrvec_stk_top = s.isrvec_stk_top - 1 }

abbrev pub told_ioapic : ℕ → Vlapic → Vlapic
told_ioapic vector v = if has_vec v.tmr vector then emit v (ioapic_eoi vector) else v

-- `vlapic_process_eoi` at the highest vector in service
abbrev pub end_vector : Vlapic → Option ℕ → Option Vlapic
end_vector v none = some v
end_vector v (some vector) =
    if v.serv.isrvec_stk_top == 0
    then none
    else update_ppr (record v { serv = popped v.serv vector })
      >>= (λ w. some (told_ioapic vector w))

unfoldable pub process_eoi : Vlapic → Option Vlapic
process_eoi v = end_vector v (highest v.serv.isr)

unfoldable pub set_tpr : Vlapic → ℕ → Option Vlapic
set_tpr v val = if v.tpr == val then some v else update_ppr (record v { tpr = val })

unfoldable pub set_cr8 : Vlapic → ℕ → Option Vlapic
set_cr8 v val = if leb 16 val then some (emit v inject_gp) else set_tpr v (val * 16)

-- the vector that `vlapic_pending_intr` gives, once PPR is up to date
unfoldable pub deliverable : Vlapic → Option ℕ → Option ℕ
deliverable v none = none
deliverable v (some vector) = if ltb (prio v.ppr) (prio vector) then some vector else none

unfoldable pub pending_intr : Vlapic → Option (Vlapic × Option ℕ)
pending_intr v = update_ppr v >>= (λ w. some (w, deliverable w (highest w.irr)))

abbrev pub pushed : Service → ℕ → Service
pushed s vector = record {
  isr = set_vec s.isr vector;
  isrvec_stk = set s.isrvec_stk (s.isrvec_stk_top + 1) vector;
  isrvec_stk_top = s.isrvec_stk_top + 1;
}

-- `vlapic_intr_accepted`: `none` is the panic at a full stack.
unfoldable pub intr_accepted : Vlapic → ℕ → Option Vlapic
intr_accepted v vector =
    if leb isrvec_stk_size (v.serv.isrvec_stk_top + 1)
    then none
    else some (record v { irr = clear_vec v.irr vector; serv = pushed v.serv vector })
