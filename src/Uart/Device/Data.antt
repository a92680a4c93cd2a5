-- ===== src/Uart/Device/Data.antt =====
-- The data path of the serial port: from the tty and the loopback into the FIFO, and out of it.
use bhyve_experiments.Base.{ℕ, suc, ◌-◌, ◌<◌, true, false, ◌≡◌, refl, sym}
use bhyve_experiments.Base.{List, [], ◌∷◌, ◌++◌, none, some, arith, ltb}
use bhyve_experiments.Base.{
  length, take, drop, bit_or, length-append, cut-nil, Bool-cases, inl, inr,
}
use bhyve_experiments.Base.Bits.{any_of}
use mathlib.Core.List.{head?, tail, append-nil, append_assoc}
use bhyve_experiments.Uart.Softc.{Softc, mcr_loopback, lcr_dlab, lsr_oe}
use bhyve_experiments.Uart.Fifo.{rxfifo_available, rxfifo_putchar}
use bhyve_experiments.Uart.Fifo.Queue.{queue, putchar_appends, getchar_takes, length-queue}
use bhyve_experiments.Uart.Fifo.Flow.{IsFlow, putchar-IsFlow}
use bhyve_experiments.Uart.Device.{
  fill, drain, loop_data, write_data, write, read, read_data, toggle_intr,
}
use bhyve_experiments.Uart.Device.{write_register, read_register}
use bhyve_experiments.Uart.Device.Valid.{IsValid, putchar_keeps}

-- the room that is left in the FIFO
abbrev pub room : Softc → ℕ
room sc = sc.rxfifo.size - length (queue sc.rxfifo)

available_iff : (sc : Softc) → rxfifo_available sc ≡ ltb 0 (room sc)
unfolding rxfifo_available
available_iff sc = ground (arith, length-queue sc.rxfifo)

room-full : (sc : Softc) → rxfifo_available sc ≡ false → room sc ≡ 0
room-full sc e = ground (arith, available_iff sc)

room-putchar :
    (sc : Softc) (ch : ℕ)
    → IsFlow sc
    → rxfifo_available sc ≡ true
    → let sc' = (rxfifo_putchar sc ch).0 in
      (room sc ≡ suc (room sc')) × (queue sc'.rxfifo ≡ queue sc.rxfifo ++ ch ∷ [])
unfolding rxfifo_available
room-putchar sc ch s h = ground (
  arith,
  putchar_appends sc ch s.fifo,
  putchar_keeps sc ch,
  length-queue sc.rxfifo,
  length-append (queue sc.rxfifo) (ch ∷ []),
)

fill_takes :
    (sc : Softc) (input : List ℕ)
    → IsFlow sc
    → (queue (fill sc input).rxfifo ≡ queue sc.rxfifo ++ take (room sc) input)
      × ((fill sc input).input ≡ drop (room sc) input)
unfolding fill
fill_takes sc [] s = ground (arith, cut-nil ℕ (room sc), append-nil (queue sc.rxfifo))
fill_takes sc (ch ∷ input) s = elim (Bool-cases (rxfifo_available sc)) [
  | inl e ↦
      rw (e, fill)
        (rw (room-putchar sc ch s e).0 (
          ground (
            arith,
            room-putchar sc ch s e,
            fill_takes (rxfifo_putchar sc ch).0 input (putchar-IsFlow sc ch s),
            append_assoc (queue sc.rxfifo) (ch ∷ []) (take (room (rxfifo_putchar sc ch).0) input),
          )))
  | inr e ↦ rw (e, fill) (rw (room-full sc e) (sym (append-nil (queue sc.rxfifo)), refl))
]

-- Outside loopback `uart_drain` moves bytes from the tty into the FIFO in order, as many as there
-- is room for, and leaves the others with the tty.
pub drain_fills :
    (sc : Softc)
    → IsValid sc
    → any_of sc.mcr mcr_loopback ≡ false
    → (queue (drain sc).rxfifo ≡ queue sc.rxfifo ++ take (room sc) sc.input)
      × ((drain sc).input ≡ drop (room sc) sc.input)
unfolding drain toggle_intr
drain_fills sc v h = rw h (fill_takes sc sc.input v.sound.flows)

record Looped (sc : Softc) (value : ℕ) (sc' : Softc) : Type 0 where
  fits : 0 < room sc → (queue sc'.rxfifo ≡ queue sc.rxfifo ++ value ∷ []) × (sc'.lsr ≡ sc.lsr)
  overruns : room sc ≡ 0 → (queue sc'.rxfifo ≡ queue sc.rxfifo) × (sc'.lsr ≡ bit_or sc.lsr lsr_oe)
  keeps : sc'.sent ≡ sc.sent

loop_data-Looped : (sc : Softc) (value : ℕ) → IsFlow sc → Looped sc value (loop_data sc value)
unfolding loop_data
loop_data-Looped sc value s =
    ground (arith, putchar_appends sc value s.fifo, putchar_keeps sc value, length-queue sc.rxfifo)

-- In loopback a byte written to the data register is appended to the FIFO if it has room; if not,
-- it is dropped and the overrun bit is set. Nothing goes out to the tty.
pub write_loops :
    (sc : Softc) (value : ℕ)
    → IsValid sc
    → any_of sc.lcr lcr_dlab ≡ false
    → any_of sc.mcr mcr_loopback ≡ true
    → let sc' = write sc 0 value in
      (0 < room sc → (queue sc'.rxfifo ≡ queue sc.rxfifo ++ value ∷ []) × (sc'.lsr ≡ sc.lsr))
      × (room sc ≡ 0 → (queue sc'.rxfifo ≡ queue sc.rxfifo) × (sc'.lsr ≡ bit_or sc.lsr lsr_oe))
      × (sc'.sent ≡ sc.sent)
unfolding write write_data toggle_intr write_register
write_loops sc value v d l = rw (d, l) (looped.fits, looped.overruns, looped.keeps)
  where
    looped : Looped sc value (loop_data sc value)
    looped = loop_data-Looped sc value v.sound.flows

-- A read of the data register returns the oldest byte received and takes it out of the FIFO; with
-- nothing received it returns 0xff.
pub read_takes :
    (sc : Softc)
    → IsValid sc
    → any_of sc.lcr lcr_dlab ≡ false
    → let (sc', value) = read sc 0 in
      (value ≡ elim (head? (queue sc.rxfifo)) [ none ↦ 0xff | some c ↦ c ])
      × (queue sc'.rxfifo ≡ tail (queue sc.rxfifo))
unfolding read read_register read_data toggle_intr
read_takes sc v d = rw d (ground (arith, getchar_takes sc v.sound.flows.fifo))
