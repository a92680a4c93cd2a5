-- ===== src/Vatpit/Ports.antt =====
-- The I/O ports and the callout of the interval timer, bios/vmm/io/vatpit.c.
use bhyve_experiments.Base.{
  ℕ, ◌+◌, ◌-◌, ◌/◌, ◌%◌, ◌^◌, Bool, true, false, not, ◌&&◌, ◌||◌, List, [], ◌∷◌, ◌++◌, Option, none,
  some, bit_and, bit_or,
}
use bhyve_experiments.Base.{if◌then◌else◌, ltb, leb, ◌==◌, ◌>>=◌}
use bhyve_experiments.Base.Bits.{any_of}
use bhyve_experiments.Vatpit.Channel.{
  Channel, timer_inttc, timer_rategen, timer_sqwave, timer_swstrobe, timer_sts_nullcnt, get_out,
  update_counter, readback1, read_counter, write_counter,
}

-- what the timer asks for: a callout at a time, and a pulse of IRQ 0 and of pin 2 of the I/O APIC
pub data Effect : Type 0 where
  callout_at : ℕ → Effect
  pulse_irq : Effect

-- `struct vatpit`
pub record Vatpit : Type 0 where
  pub channel : ℕ → Channel
  pub effects : List Effect

abbrev pub put : Vatpit → ℕ → Channel → Vatpit
put v i c = record v { channel = λ j. if j == i then c else v.channel j }

-- `pit_timer_start_cntr0`
unfoldable pub start_cntr0 : Vatpit → ℕ → Vatpit
start_cntr0 v now =
    let c = v.channel 0 in
    let next = c.callout_bt + c.initial in
    let time = if ltb next now then now + c.initial else next in
    if c.initial == 0 then v else record (put v 0 (record c { callout_bt = time })) {
      effects = v.effects ++ callout_at time ∷ [];
    }

-- `vatpit_callout_handler`, of a callout that is neither reset nor stopped, for channel 0
unfoldable pub callout_handler : Vatpit → ℕ → Vatpit
callout_handler v now =
    let mode = (v.channel 0).mode in
    let w = if mode == timer_rategen || mode == timer_sqwave then start_cntr0 v now else v in
    record w { effects = w.effects ++ pulse_irq ∷ [] }

-- one step of `pit_readback`, for a channel and the bit that selects it
abbrev pub selected : ℕ → ℕ → ℕ → ℕ → Vatpit → Option Vatpit
selected cmd now bit i v =
    if any_of cmd bit then readback1 cmd now (v.channel i) >>= (λ c. some (put v i c)) else some v

unfoldable pub readback : Vatpit → ℕ → ℕ → Option Vatpit
readback v cmd now =
    selected cmd now 0x02 0 v >>= (λ w. selected cmd now 0x04 1 w >>= selected cmd now 0x08 2)

abbrev pub programmed : Channel → ℕ → Channel
programmed c mode = record c { mode = mode; olbyte = 0; status = bit_or c.status timer_sts_nullcnt }

-- `vatpit_update_mode`, with whether it returns 0
unfoldable pub update_mode : Vatpit → ℕ → ℕ → Option (Vatpit × Bool)
update_mode v val now =
    let sel = bit_and val 0xc0 in
    let rw = bit_and val 0x30 in
    let mode = bit_and val 0x0f in
    let i = sel / 2 ^ 6 in
    let c = v.channel i in
    if sel == 0xc0
    then readback v val now >>= (λ w. some (w, true))
    else if not (rw == 0x00) && not (rw == 0x30)
    then some (v, false)
    else if rw == 0x00
    then some (put v i (update_counter c now true).0, true)
    else if mode == timer_inttc
        || (mode == timer_rategen || (mode == timer_sqwave || mode == timer_swstrobe))
    then some (put v i (programmed c mode), true)
    else some (v, false)

-- a count that is complete: channel 0 starts its callout, and a count of 0 becomes 0xffff.
unfoldable pub loaded : Vatpit → ℕ → ℕ → Vatpit
loaded v i now =
    let w =
      if i == 0 then start_cntr0 (put v 0 (record (v.channel 0) { callout_bt = now })) now else v in
    let c = w.channel i in if c.initial == 0 then put w i (record c { initial = 0xffff }) else w

unfoldable pub write_port : Vatpit → ℕ → ℕ → ℕ → Option Vatpit
write_port v i eax now =
    write_counter (v.channel i) now eax
    >>= (λ r. some (if r.1 then loaded (put v i r.0) i now else put v i r.0))

-- `vatpit_handler`, with whether it returns 0 and EAX: `none` is a failed assertion, a division by 0
-- or an access outside of a register.
unfoldable pub handler : Vatpit → Bool → ℕ → ℕ → ℕ → ℕ → Option (Vatpit × Bool × ℕ)
handler v is_in port bytes eax now =
    if not (bytes == 1)
    then some (v, false, eax)
    else if port == 0x43
    then (if is_in
        then some (v, false, eax)
        else update_mode v (eax % 2 ^ 8) now >>= (λ r. some (r.0, r.1, eax)))
    else if not (leb 0x40 port && leb port 0x42)
    then none
    else if is_in
    then read_counter (v.channel (port - 0x40)) now
      >>= (λ r. some (put v (port - 0x40) r.0, true, r.1))
    else write_port v (port - 0x40) eax now >>= (λ w. some (w, true, eax))

-- `vatpit_nmisc_handler` of the port 0x61: EAX after it
unfoldable pub nmisc_handler : Vatpit → Bool → ℕ → ℕ → Option ℕ
nmisc_handler v is_in eax now =
    if is_in
    then get_out (v.channel 2) now >>= (λ out. some (if out then 0x20 else 0))
    else some eax

abbrev pub empty : Channel
empty = record {
  mode = 0;
  initial = 0;
  now_bt = 0;
  cr = 0 ∷ 0 ∷ [];
  ol = 0 ∷ 0 ∷ [];
  slatched = false;
  status = 0;
  crbyte = 0;
  olbyte = 0;
  frbyte = 0;
  callout_bt = 0;
}

-- `vatpit_init`
unfoldable pub init : Vatpit
init = record { channel = λ i. empty; effects = [] }
