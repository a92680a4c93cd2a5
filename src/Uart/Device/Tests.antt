-- ===== src/Uart/Device/Tests.antt =====
-- The serial port at concrete inputs.
use bhyve_experiments.Base.{◌<◌, ◌≡◌, refl, List, [], ◌∷◌, arith}
use bhyve_experiments.Base.{none, some}
use bhyve_experiments.Base.Bits.{any_of, raise_if}
use mathlib.Core.List.{head?, tail}
use bhyve_experiments.Uart.Softc.{Softc, lsr_oe}
use bhyve_experiments.Uart.Modem.{modem_status, next_msr}
use bhyve_experiments.Uart.Fifo.{rxfifo_putchar, rxfifo_getchar}
use bhyve_experiments.Uart.Fifo.{rxfifo_reset, empty_fifo, store}
use bhyve_experiments.Uart.Fifo.Queue.{queue}
use bhyve_experiments.Uart.Device.{
  init, reset, open_tty, read, read_register, read_data, write, write_register, write_mcr,
  write_data, loop_data, toggle_intr,
}
use bhyve_experiments.Uart.Device.Valid.{IsValid, init-IsValid, open_tty-IsValid, write-IsValid}
use bhyve_experiments.Uart.Device.Data.{read_takes}
use bhyve_experiments.Uart.Device.Run.{Access, load, arrive, ready, run, run-IsValid}
use bhyve_experiments.Uart.Device.Run

-- a port in loopback mode, and one with a byte in its FIFO
abbrev looped : Softc
looped = write init 4 0x10

abbrev holding : Softc
holding = write looped 0 0x41

looped-IsValid : IsValid looped
looped-IsValid = write-IsValid init 4 0x10 (omega arith) init-IsValid

holding-IsValid : IsValid holding
holding-IsValid = write-IsValid looped 0 0x41 (omega arith) looped-IsValid

-- a port with a tty that has three bytes to give
abbrev opened : Softc
opened = open_tty init (1 ∷ 2 ∷ 3 ∷ [])

opened-IsValid : IsValid opened
opened-IsValid = open_tty-IsValid init (1 ∷ 2 ∷ 3 ∷ []) small init-IsValid
  where
    small : init.rxfifo.num < init.rxfifo.size
    small = unfold init reset rxfifo_reset empty_fifo in omega arith

abbrev script : List Access
script =
    Run.store 2 0x01 (omega arith)
    ∷ Run.store 4 0x10 (omega arith)
    ∷ Run.store 0 0x41 (omega arith)
    ∷ load 0
    ∷ arrive (7 ∷ [])
    ∷ ready
    ∷ []

run-IsValid_example : IsValid (run script init)
run-IsValid_example = run-IsValid script init init-IsValid

-- in 16450 mode a second byte finds the FIFO full
overrun : (write holding 0 0x42).lsr ≡ lsr_oe
unfolding write write_register write_mcr write_data loop_data toggle_intr init reset rxfifo_reset
    rxfifo_putchar store any_of
overrun = refl

read_takes_example :
    let (sc', value) = read holding 0 in
    (value ≡ elim (head? (queue holding.rxfifo)) [ none ↦ 0xff | some c ↦ c ])
    × (queue sc'.rxfifo ≡ tail (queue holding.rxfifo))
unfolding write write_register write_data loop_data write_mcr toggle_intr init reset rxfifo_reset
    rxfifo_putchar any_of
read_takes_example = read_takes holding holding-IsValid refl

read_back : (read holding 0).1 ≡ 0x41
unfolding read read_register read_data write write_register write_mcr write_data loop_data
    toggle_intr init reset rxfifo_reset rxfifo_getchar rxfifo_putchar store any_of
read_back = refl

both_fall : looped.msr ≡ 0x0a
unfolding write write_register write_mcr toggle_intr init reset rxfifo_reset any_of modem_status
    next_msr raise_if
both_fall = refl
