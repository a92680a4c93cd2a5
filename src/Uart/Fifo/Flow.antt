-- ===== src/Uart/Fifo/Flow.antt =====
-- The receive FIFO stays well formed, and the event of the tty is enabled just while there is room.
use bhyve_experiments.Base.{ℕ, zero, suc, ◌+◌, ◌-◌, ◌%◌, ◌<◌, true, ◌≡◌}
use bhyve_experiments.Base.{inl, inr, List, [], arith, length, length-set, length-drop}
use bhyve_experiments.Base.{drop}
use bhyve_experiments.Uart.Softc.{Fifo, Softc}
use bhyve_experiments.Uart.Fifo.{flush, rxfifo_available, rxfifo_putchar, rxfifo_getchar}
use bhyve_experiments.Uart.Fifo.{rxfifo_reset, empty_fifo}
use bhyve_experiments.Uart.Fifo.Queue.{IsSize, IsFifo}

-- what the functions on the FIFO keep
pub record IsFlow (sc : Softc) : Type 0 where
  pub fifo : IsFifo sc.rxfifo
  pub flow : sc.opened ≡ true → sc.mev ≡ rxfifo_available sc

put_index :
    (size r n w : ℕ) → IsSize size → w ≡ (r + n) % size → (w + 1) % size ≡ (r + (n + 1)) % size
put_index size r n w (inl e) h = rw e (omega arith)
put_index size r n w (inr e) h = rw e (omega (arith, (rw e at h)))

get_index :
    (size r n w : ℕ)
    → IsSize size
    → 0 < n
    → w ≡ (r + n) % size
    → w ≡ ((r + 1) % size + (n - 1)) % size
get_index size r n w (inl e) p h = rw e (omega (arith, (rw e at h)))
get_index size r n w (inr e) p h = rw e (omega (arith, (rw e at h)))

index_in : (size i : ℕ) → IsSize size → i % size < size
index_in size i (inl e) = rw e (omega arith)
index_in size i (inr e) = rw e (omega arith)

pub putchar-IsFlow : (sc : Softc) (ch : ℕ) → IsFlow sc → IsFlow (rxfifo_putchar sc ch).0
unfolding rxfifo_putchar rxfifo_available
putchar-IsFlow sc ch v =
    ground
      (arith, put_index f.size f.rindex f.num f.windex v.fifo.sized, length-set f.buf f.windex ch)
  where
    f : Fifo
    f = sc.rxfifo

pub getchar-IsFlow : (sc : Softc) → IsFlow sc → IsFlow (rxfifo_getchar sc).0
unfolding rxfifo_getchar rxfifo_available
getchar-IsFlow sc v = ground (
  arith,
  get_index f.size f.rindex f.num f.windex v.fifo.sized,
  index_in f.size (f.rindex + 1) v.fifo.sized,
)
  where
    f : Fifo
    f = sc.rxfifo

empty-IsFifo : (size : ℕ) → IsSize size → IsFifo (empty_fifo size)
unfolding empty_fifo
empty-IsFifo size (inl e) = rw e (omega arith)
empty-IsFifo size (inr e) = rw e (omega arith)

pub reset-IsFlow : (sc : Softc) (size : ℕ) → IsSize size → IsFlow (rxfifo_reset sc size)
unfolding rxfifo_reset rxfifo_available
reset-IsFlow sc size k = ground (arith, empty-IsFifo size k)

-- The loop that flushes the tty takes all that it has.
pub flush-all : (fuel : ℕ) (input : List ℕ) → length input < fuel → flush fuel input ≡ []
unfolding flush
flush-all zero input h = absurd (omega arith)
flush-all (suc fuel) input h = ground (arith, length-drop 32 input, flush-all fuel (drop 32 input))
