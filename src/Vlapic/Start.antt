-- ===== src/Vlapic/Start.antt =====
-- How a local APIC starts, bios/vmm/io/vlapic.c: `vlapic_init` of a structure full of zeros, and the
-- choice of its mode.
use bhyve_experiments.Base.{
  ℕ, zero, suc, ◌*◌, ◌^◌, Bool, List, [], ◌∷◌, Option, some, bit_and, bit_or, bit_xor,
}
use bhyve_experiments.Base.{if◌then◌else◌, ◌==◌, ◌>>=◌}
use bhyve_experiments.Vlapic.Apic.{Vlapic, bs_init, bs_running}
use bhyve_experiments.Vlapic.Access.{
  apicbase_x2apic, apicbase_enabled, apicbase_bsp, default_apic_base, x2apic, x2apic_ldr,
  vlapic_get_id, mask_lvts, reset_tmr, dcr_write_handler,
}

abbrev zeros : ℕ → List ℕ
zeros zero = []
zeros (suc n) = 0 ∷ zeros n

-- the structure as it is allocated, for a virtual CPU
abbrev pub allocated : ℕ → Vlapic
allocated vcpuid = record {
  vcpuid = vcpuid;
  id = 0;
  version = 0;
  tpr = 0;
  ppr = 0;
  ldr = 0;
  dfr = 0;
  svr = 0;
  serv = record { isr = zeros 8; isrvec_stk = zeros 17; isrvec_stk_top = 0 };
  tmr = zeros 8;
  irr = zeros 8;
  esr = 0;
  icr_lo = 0;
  icr_hi = 0;
  lvt = zeros 7;
  icr_timer = 0;
  dcr_timer = 0;
  esr_pending = 0;
  timer_freq = 0;
  timer_period = 0;
  msr_apicbase = 0;
  boot_state = bs_init;
  svr_last = 0;
  lvt_last = zeros 7;
  effects = [];
}

-- `vlapic_reset`, of a page that is zero: `none` is a panic.
unfoldable pub vlapic_reset : Vlapic → Option Vlapic
vlapic_reset v =
    let page = record v {
      id = vlapic_get_id v;
      version = bit_or 16 (6 * 2 ^ 16);
      dfr = 0xffffffff;
      svr = 0xff;
    } in
    dcr_write_handler (record (reset_tmr (mask_lvts page)) { dcr_timer = 0 }) >>= (λ w.
      some
        (record w { boot_state = if w.vcpuid == 0 then bs_running else bs_init; svr_last = w.svr }))

unfoldable pub vlapic_init : ℕ → Option Vlapic
vlapic_init vcpuid =
    let base = bit_or default_apic_base apicbase_enabled in
    vlapic_reset (record (allocated vcpuid) {
      msr_apicbase = if vcpuid == 0 then bit_or base apicbase_bsp else base;
    })

-- `vlapic_set_x2apic_state`, enabled or not
unfoldable pub set_x2apic_state : Bool → Vlapic → Vlapic
set_x2apic_state enabled v =
    let w = record v {
      msr_apicbase =
          if enabled
          then bit_or v.msr_apicbase apicbase_x2apic
          else bit_and v.msr_apicbase (bit_xor 0xffffffffffffffff apicbase_x2apic);
    } in
    let named = record w { id = vlapic_get_id w } in
    if x2apic w
    then record named { ldr = x2apic_ldr named; dfr = 0 }
    else record named { ldr = 0; dfr = 0xffffffff }

-- `vlapic_set_apicbase`: whether it returns 0
unfoldable pub set_apicbase : Vlapic → ℕ → Bool
set_apicbase v new = v.msr_apicbase == new
