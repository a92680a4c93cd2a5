-- ===== src/Uart/Device/Valid.antt =====
-- The invariant of the serial port: its FIFO, the event of its tty, and its interrupt line.
use bhyve_experiments.Base.{
  Bool-cases, ℕ, ◌<◌, Bool, true, false, not, ◌≡◌, refl, inl, inr, List, [], ◌∷◌,
}
use bhyve_experiments.Base.{
  arith, if◌then◌else◌, bit_and, bit_or, bit_xor, ltb, ◌&&◌, ◌==◌, ==_iff, and_parts, ltb→lt, same,
  same_eq,
}
use bhyve_experiments.Base.Bits.{any_of, all_below, all_below_at}
use bhyve_experiments.Uart.Softc.{Softc, fifosz, fcr_enable, fcr_dma, fcr_rx_mask, iir_nopend}
use bhyve_experiments.Uart.Fifo.{
  empty_fifo, rxfifo_available, rxfifo_putchar, rxfifo_getchar, rxfifo_reset, rxfifo_numchars,
}
use bhyve_experiments.Uart.Fifo.Queue.{IsSize}
use bhyve_experiments.Uart.Fifo.Flow.{IsFlow, putchar-IsFlow, getchar-IsFlow, reset-IsFlow}
use bhyve_experiments.Uart.Device.{
  switch_mode, intr_reason, toggle_intr, reset, init, open_tty, fill, drain, write_data, write_ier,
  write_fcr, write_mcr, write_register, write, read_data, read_iir, read_lsr, read_msr,
  read_register, read,
}

-- the depth of the FIFO that the FIFO control register asks for
abbrev pub depth : ℕ → ℕ
depth fcr = if any_of fcr fcr_enable then fifosz else 1

-- the part that does not speak of the interrupt line
pub record IsSound (sc : Softc) : Type 0 where
  pub flows : IsFlow sc
  pub deep : sc.rxfifo.size ≡ depth sc.fcr
  pub fcr_byte : sc.fcr < 256

-- The FIFO is well formed, its depth is 16 exactly when it is enabled, the event of an open tty
-- is enabled exactly while the FIFO has room, and the interrupt line is up exactly when there is
-- a reason to interrupt.
pub record IsValid (sc : Softc) : Type 0 where
  pub sound : IsSound sc
  pub synced : sc.intr ≡ not (intr_reason sc == iir_nopend)

toggle_intr-IsValid : (sc : Softc) → IsSound sc → IsValid (toggle_intr sc)
unfolding toggle_intr intr_reason rxfifo_available rxfifo_numchars
toggle_intr-IsValid sc s = record {
  sound = record {
    flows = record { fifo = s.flows.fifo; flow = s.flows.flow };
    deep = s.deep;
    fcr_byte = s.fcr_byte;
  };
  synced = refl;
}

pub putchar_keeps :
    (sc : Softc) (ch : ℕ)
    → let sc' = (rxfifo_putchar sc ch).0 in
      (sc'.rxfifo.size ≡ sc.rxfifo.size)
      × (sc'.fcr ≡ sc.fcr)
      × (sc'.lsr ≡ sc.lsr)
      × (sc'.sent ≡ sc.sent)
unfolding rxfifo_putchar
putchar_keeps sc ch = ground arith

pub getchar_keeps :
    (sc : Softc)
    → let sc' = (rxfifo_getchar sc).0 in (sc'.rxfifo.size ≡ sc.rxfifo.size) × (sc'.fcr ≡ sc.fcr)
unfolding rxfifo_getchar
getchar_keeps sc = ground arith

putchar-IsSound : (sc : Softc) (ch : ℕ) → IsSound sc → IsSound (rxfifo_putchar sc ch).0
putchar-IsSound sc ch s = ground (arith, putchar-IsFlow sc ch s.flows, putchar_keeps sc ch)

getchar-IsSound : (sc : Softc) → IsSound sc → IsSound (rxfifo_getchar sc).0
getchar-IsSound sc s = ground (arith, getchar-IsFlow sc s.flows, getchar_keeps sc)

fill-IsSound : (sc : Softc) (input : List ℕ) → IsSound sc → IsSound (fill sc input)
unfolding fill rxfifo_available
fill-IsSound sc [] s = ground arith
fill-IsSound sc (ch ∷ input) s = ground (
  arith,
  putchar-IsSound sc ch s,
  fill-IsSound (rxfifo_putchar sc ch).0 input (putchar-IsSound sc ch s),
)

-- `uart_drain` keeps the invariant.
pub drain-IsValid : (sc : Softc) → IsValid sc → IsValid (drain sc)
unfolding drain intr_reason rxfifo_available rxfifo_numchars
drain-IsValid sc v =
    ground (arith, toggle_intr-IsValid (fill sc sc.input) (fill-IsSound sc sc.input v.sound))

write_data-IsSound : (sc : Softc) (value : ℕ) → IsSound sc → IsSound (write_data sc value)
unfolding write_data rxfifo_available
write_data-IsSound sc value s = ground (arith, putchar-IsSound sc value s)

-- FCR as `uart_write` stores it
abbrev stored_fcr : ℕ → ℕ
stored_fcr x = bit_and x (bit_or fcr_enable (bit_or fcr_dma fcr_rx_mask))

abbrev fcr_laws : ℕ → Bool
fcr_laws x =
    (bit_and x fcr_enable == (if any_of x fcr_enable then 1 else 0))
    && (same (any_of (stored_fcr x) fcr_enable) (any_of x fcr_enable) && ltb (stored_fcr x) 256)

fcr_table : all_below 256 fcr_laws ≡ true
unfolding all_below any_of
fcr_table = refl

fcr_laws_hold :
    (x : ℕ)
    → x < 256
    → (bit_and x fcr_enable ≡ (if any_of x fcr_enable then 1 else 0))
      × (any_of (stored_fcr x) fcr_enable ≡ any_of x fcr_enable)
      × (stored_fcr x < 256)
fcr_laws_hold x h =
    let parts = and_parts _ _ (all_below_at 256 x fcr_laws fcr_table h) in
    let more = and_parts _ _ parts.1 in
    ((==_iff _ _).0 parts.0, same_eq _ _ more.0, ltb→lt _ _ more.1)

xor_flags : (a b : Bool) → (bit_xor (if a then 1 else 0) (if b then 1 else 0) == 0) ≡ same a b
xor_flags true true = refl
xor_flags true false = refl
xor_flags false true = refl
xor_flags false false = refl

-- The mode changes when the enable bits differ.
switched_iff :
    (x y : ℕ)
    → x < 256
    → y < 256
    → (bit_xor (bit_and x fcr_enable) (bit_and y fcr_enable) == 0)
      ≡ same (any_of x fcr_enable) (any_of y fcr_enable)
switched_iff x y hx hy = rw ((fcr_laws_hold x hx).0, (fcr_laws_hold y hy).0) (xor_flags _ _)

rxfifo_reset_size :
    (sc : Softc) (size : ℕ)
    → ((rxfifo_reset sc size).rxfifo.size ≡ size) × ((rxfifo_reset sc size).fcr ≡ sc.fcr)
unfolding rxfifo_reset empty_fifo
rxfifo_reset_size sc size = ground arith

depth-IsSize : (fcr : ℕ) → IsSize (depth fcr)
depth-IsSize fcr = ground arith

switch_mode_lem :
    (sc : Softc) (value : ℕ)
    → value < 256
    → IsSound sc
    → IsFlow (switch_mode sc value) × ((switch_mode sc value).rxfifo.size ≡ depth value)
unfolding switch_mode
switch_mode_lem sc value h s = rw (switched_iff sc.fcr value s.fcr_byte h) (
    ground (
      arith,
      s.flows,
      reset-IsFlow sc (depth value) (depth-IsSize value),
      rxfifo_reset_size sc (depth value),
    ))

depth-zero : depth 0 ≡ 1
unfolding any_of
depth-zero = refl

write_fcr-IsSound :
    (sc : Softc) (value : ℕ) → value < 256 → IsSound sc → IsSound (write_fcr sc value)
unfolding write_fcr rxfifo_available
write_fcr-IsSound sc value h s = elim (Bool-cases (any_of value fcr_enable)) [
  | inl e ↦
      rw (e, write_fcr)
        (ground (
          arith,
          fcr_laws_hold value h,
          switch_mode_lem sc value h s,
          reset-IsFlow (switch_mode sc value) 16 (inr refl),
          rxfifo_reset_size (switch_mode sc value) 16,
        ))
  | inr e ↦ rw (e, write_fcr) (ground (arith, depth-zero, switch_mode_lem sc value h s))
]

write_register-IsSound :
    (sc : Softc) (offset value : ℕ)
    → value < 256
    → IsSound sc
    → IsSound (write_register sc offset value)
unfolding write_register write_ier write_mcr rxfifo_available
write_register-IsSound sc offset value h s =
    ground (arith, write_data-IsSound sc value s, write_fcr-IsSound sc value h s)

-- `uart_write` keeps the invariant, at every offset and with the divisor latch open or not.
pub write-IsValid :
    (sc : Softc) (offset value : ℕ) → value < 256 → IsValid sc → IsValid (write sc offset value)
unfolding write rxfifo_available
write-IsValid sc offset value h v =
    toggle_intr-IsValid _ (ground (arith, write_register-IsSound sc offset value h v.sound))

-- `uart_read` keeps the invariant.
pub read-IsValid : (sc : Softc) (offset : ℕ) → IsValid sc → IsValid (read sc offset).0
unfolding read rxfifo_available read_register read_data read_iir read_lsr read_msr
read-IsValid sc offset v = toggle_intr-IsValid _ (ground (arith, getchar-IsSound sc v.sound))

-- `uart_init` sets the invariant up.
pub init-IsValid : IsValid init
unfolding init reset rxfifo_available intr_reason rxfifo_numchars empty_fifo rxfifo_reset any_of
init-IsValid = ground arith

-- So does a tty that is opened on it, whatever it has to give.
pub open_tty-IsValid :
    (sc : Softc) (input : List ℕ)
    → sc.rxfifo.num < sc.rxfifo.size
    → IsValid sc
    → IsValid (open_tty sc input)
unfolding open_tty rxfifo_available intr_reason rxfifo_numchars
open_tty-IsValid sc input h v = ground arith
