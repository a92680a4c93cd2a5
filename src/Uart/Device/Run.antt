-- ===== src/Uart/Device/Run.antt =====
-- Every sequence of accesses to the serial port.
use bhyve_experiments.Base.{ℕ, ◌<◌, List, [], ◌∷◌, ◌++◌, arith}
use bhyve_experiments.Uart.Softc.{Softc}
use bhyve_experiments.Uart.Fifo.{rxfifo_available, rxfifo_numchars}
use bhyve_experiments.Uart.Device.{intr_reason, read, write, drain}
use bhyve_experiments.Uart.Device.Valid.{IsValid, read-IsValid, write-IsValid, drain-IsValid}

-- What the guest and the tty can do: a register access with a byte, bytes that arrive at the tty,
-- and the event of the tty.
pub data Access : Type 0 where
  load : ℕ → Access
  store : ℕ → (value : ℕ) → value < 256 → Access
  arrive : List ℕ → Access
  ready : Access

pub step : Access → Softc → Softc
step (load offset) sc = (read sc offset).0
step (store offset value h) sc = write sc offset value
step (arrive bytes) sc = record sc { input = sc.input ++ bytes }
step ready sc = drain sc

pub run : List Access → Softc → Softc
run [] sc = sc
run (a ∷ rest) sc = run rest (step a sc)

arrive-IsValid : (sc : Softc) (bytes : List ℕ) → IsValid sc → IsValid (step (arrive bytes) sc)
unfolding step intr_reason rxfifo_available rxfifo_numchars
arrive-IsValid sc bytes v = ground arith

step-IsValid : (a : Access) (sc : Softc) → IsValid sc → IsValid (step a sc)
unfolding step
step-IsValid (load offset) sc v = read-IsValid sc offset v
step-IsValid (store offset value h) sc v = write-IsValid sc offset value h v
step-IsValid (arrive bytes) sc v = arrive-IsValid sc bytes v
step-IsValid ready sc v = drain-IsValid sc v

-- From a port that meets the invariant, and so from `uart_init`, every sequence of register
-- accesses, arrivals and tty events leads to a port that meets it: the FIFO is well formed and 16
-- deep exactly when it is enabled, the event of an open tty is enabled exactly while the FIFO has
-- room, and the interrupt line is up exactly when there is a reason to interrupt.
pub run-IsValid : (accesses : List Access) (sc : Softc) → IsValid sc → IsValid (run accesses sc)
unfolding run
run-IsValid [] sc v = v
run-IsValid (a ∷ rest) sc v = run-IsValid rest (step a sc) (step-IsValid a sc v)
