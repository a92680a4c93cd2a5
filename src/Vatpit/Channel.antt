-- ===== src/Vatpit/Channel.antt =====
-- One channel of the interval timer, bios/vmm/io/vatpit.c: its count, its output and its latches.
use bhyve_experiments.Base.{
  ℕ, ◌+◌, ◌-◌, ◌*◌, ◌/◌, ◌%◌, ◌^◌, Bool, true, false, not, ◌&&◌, ◌||◌, List, Option, none, some,
  bit_or,
}
use bhyve_experiments.Base.{if◌then◌else◌, ltb, leb, ◌==◌, get_or, set, ◌>>=◌}
use bhyve_experiments.Base.Bits.{any_of, clear_mask}

-- the modes, from the system's header
abbrev pub timer_inttc : ℕ
timer_inttc = 0x00

abbrev pub timer_rategen : ℕ
timer_rategen = 0x04

abbrev pub timer_sqwave : ℕ
timer_sqwave = 0x06

abbrev pub timer_swstrobe : ℕ
timer_swstrobe = 0x08

abbrev pub timer_sts_out : ℕ
timer_sts_out = 0x80

abbrev pub timer_sts_nullcnt : ℕ
timer_sts_nullcnt = 0x40

-- `TIMER_DIV(PIT_8254_FREQ, 100)`
abbrev pub default_count : ℕ
default_count = (1193182 + 100 / 2) / 100

-- `struct channel`
pub record Channel : Type 0 where
  pub mode : ℕ
  pub initial : ℕ
  pub now_bt : ℕ
  pub cr : List ℕ
  pub ol : List ℕ
  pub slatched : Bool
  pub status : ℕ
  pub crbyte : ℕ
  pub olbyte : ℕ
  pub frbyte : ℕ
  pub callout_bt : ℕ

-- `vatpit_delta_ticks`
abbrev pub delta_ticks : Channel → ℕ → ℕ
delta_ticks c now = now - c.now_bt

-- `vatpit_get_out`. `none` is a division by 0, of a square wave that has no count.
unfoldable pub get_out : Channel → ℕ → Option Bool
get_out c now =
    if c.mode == timer_inttc
    then some (leb c.initial (delta_ticks c now))
    else if c.mode == timer_sqwave
    then (if c.initial == 0
        then none
        else some (ltb (delta_ticks c now % c.initial) (c.initial / 2)))
    else some false

-- a channel that has no count gets one.
unfoldable pub with_count : Channel → ℕ → Channel
with_count c now =
    if c.initial == 0
    then record c {
      initial = default_count;
      now_bt = now;
      status = clear_mask c.status timer_sts_nullcnt;
    }
    else c

abbrev even : ℕ → ℕ
even n = n - n % 2

-- the count at a time, of a channel that has one
unfoldable pub count_at : Channel → ℕ → ℕ
count_at c now =
    if c.mode == timer_sqwave
    then even (c.initial - delta_ticks c now * 2 % c.initial)
    else c.initial - delta_ticks c now % c.initial

abbrev pub latched : Channel → ℕ → Channel
latched c lval = record c {
  olbyte = 2;
  ol = set (set c.ol 1 (lval % 2 ^ 8)) 0 (lval / 2 ^ 8 % 2 ^ 8);
}

-- `pit_update_counter`, with the count that it returns
unfoldable pub update_counter : Channel → ℕ → Bool → Channel × ℕ
update_counter c now latch = if latch && not (c.olbyte == 0) then (c, 0) else (
  if latch then latched (with_count c now) (count_at (with_count c now) now) else with_count c now,
  count_at (with_count c now) now,
)

abbrev pub with_out : Channel → Bool → Channel
with_out c out = record c {
  slatched = true;
  status = if out then bit_or c.status timer_sts_out else clear_mask c.status timer_sts_out;
}

unfoldable pub latch_status : Channel → ℕ → Option Channel
latch_status c now =
    if c.mode == timer_inttc || c.mode == timer_sqwave
    then get_out c now >>= (λ out. some (with_out c out))
    else some (with_out c false)

-- `pit_readback1`: the bits that select what is latched are active low.
unfoldable pub readback1 : ℕ → ℕ → Channel → Option Channel
readback1 cmd now c =
    let c' = if not (any_of cmd 0x20) && c.olbyte == 0 then (update_counter c now true).0 else c in
    if not (any_of cmd 0x10) && not c'.slatched then latch_status c' now else some c'

-- a byte of the count as it runs: they take turns.
abbrev pub running : Channel × ℕ → Channel × ℕ
running (c, count) = (
  record c { frbyte = if c.frbyte == 0 then 1 else 0 },
  (if c.frbyte == 0 then count else count / 2 ^ 8) % 2 ^ 8,
)

-- The read of a counter port: `none` is an access outside of the latch.
unfoldable pub read_counter : Channel → ℕ → Option (Channel × ℕ)
read_counter c now =
    if c.slatched
    then some (record c { slatched = false; status = 0 }, c.status)
    else if c.olbyte == 0
    then some (running (update_counter c now false))
    else if leb c.olbyte 2
    then some (record c { olbyte = c.olbyte - 1 }, get_or c.ol (c.olbyte - 1) 0)
    else none

-- The write of a byte to a counter port, and whether the count is complete: `none` is an access
-- outside of the register.
unfoldable pub write_counter : Channel → ℕ → ℕ → Option (Channel × Bool)
write_counter c now eax =
    let bytes = set c.cr c.crbyte (eax % 2 ^ 8) in
    if leb 2 c.crbyte
    then none
    else if c.crbyte == 1
    then some (
      record c {
        cr = bytes;
        status = clear_mask c.status timer_sts_nullcnt;
        frbyte = 0;
        crbyte = 0;
        initial = bit_or (get_or bytes 0 0) (get_or bytes 1 0 * 2 ^ 8) % 2 ^ 16;
        now_bt = now;
      },
      true,
    )
    else some (record c { cr = bytes; crbyte = c.crbyte + 1 }, false)
