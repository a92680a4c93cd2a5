-- ===== src/Uart/Fifo.antt =====
-- The receive FIFO of the serial port: the `rxfifo_` functions of bios/bhyve/uart_emul.c.
pub mod Queue
pub mod Flow
use bhyve_experiments.Base.{ℕ, zero, suc, ◌+◌, ◌-◌, ◌%◌, Bool, true, false, not, ◌&&◌}
use bhyve_experiments.Base.{Option, none, some, List, [], ◌∷◌}
use bhyve_experiments.Base.{ltb, leb, ◌==◌, if◌then◌else◌, length, get_or, set, drop, replicate}
use bhyve_experiments.Uart.Softc.{Fifo, Softc, fifosz}

-- The loop `while (1) { nread = read(fd, flushbuf, 32); if (nread != 32) break; }`: a short read
-- takes what there is. Each full read takes 32 bytes, so `length input + 1` rounds are enough.
unfoldable pub flush : ℕ → List ℕ → List ℕ
flush zero input = input
flush (suc fuel) input =
    let rest = flush fuel (drop 32 input) in if leb 32 (length input) then rest else []

-- the zeroed FIFO of a reset
unfoldable pub empty_fifo : ℕ → Fifo
empty_fifo size = record { buf = replicate fifosz 0; rindex = 0; windex = 0; num = 0; size = size }

unfoldable pub rxfifo_reset : Softc → ℕ → Softc
unfolding empty_fifo
rxfifo_reset sc size =
    if sc.opened
    then record sc {
      rxfifo = empty_fifo size;
      input = flush (suc (length sc.input)) sc.input;
      mev = true;
    }
    else record sc { rxfifo = empty_fifo size }

unfoldable pub rxfifo_available : Softc → Bool
rxfifo_available sc = ltb sc.rxfifo.num sc.rxfifo.size

-- The write at `windex`, and the event of the tty, which is disabled when the FIFO becomes full.
unfoldable pub store : Softc → ℕ → Softc
unfolding rxfifo_available
store sc ch =
    let f = sc.rxfifo in
    let stored = record f {
      buf = set f.buf f.windex ch;
      windex = (f.windex + 1) % f.size;
      num = f.num + 1;
    } in
    let sc' = record sc { rxfifo = stored } in
    if not (rxfifo_available sc') && sc.opened then record sc' { mev = false } else sc'

-- `true` is the return value 0, `false` is -1.
unfoldable pub rxfifo_putchar : Softc → ℕ → Softc × Bool
unfolding store
rxfifo_putchar sc ch = if ltb sc.rxfifo.num sc.rxfifo.size then (store sc ch, true) else (sc, false)

-- The step past the byte at `rindex`; the event of the tty is enabled again if the FIFO was full.
unfoldable pub fetch : Softc → Softc
unfolding rxfifo_available
fetch sc =
    let wasfull = not (rxfifo_available sc) in
    let f = sc.rxfifo in
    let rest = record f { rindex = (f.rindex + 1) % f.size; num = f.num - 1 } in
    let sc' = record sc { rxfifo = rest } in
    if wasfull && sc.opened then record sc' { mev = true } else sc'

-- `none` is the return value -1.
unfoldable pub rxfifo_getchar : Softc → Softc × Option ℕ
unfolding fetch
rxfifo_getchar sc =
    if ltb 0 sc.rxfifo.num
    then (fetch sc, some (get_or sc.rxfifo.buf sc.rxfifo.rindex 0))
    else (sc, none)

unfoldable pub rxfifo_numchars : Softc → ℕ
rxfifo_numchars sc = sc.rxfifo.num
