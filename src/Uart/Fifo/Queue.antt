-- ===== src/Uart/Fifo/Queue.antt =====
-- The receive FIFO as a bounded queue of bytes.
use bhyve_experiments.Base.{ℕ, zero, suc, ◌+◌, ◌-◌, ◌%◌, ◌≤◌, ◌<◌, true, false, ◌≡◌, refl, sym}
use bhyve_experiments.Base.{◌≢◌, ◌⊎◌, inl, inr, ap, ◌∙◌, none, List, [], ◌∷◌, ◌++◌}
use bhyve_experiments.Base.{arith, ltb, length, get_or, set}
use bhyve_experiments.Base.{get_or-set_self, get_or-set_ne}
use native.Mathlib.Numerals.{add-one}
use mathlib.Core.List.{head?, tail}
use bhyve_experiments.Uart.Softc.{Fifo, Softc, fifosz}
use bhyve_experiments.Uart.Fifo.{rxfifo_putchar, rxfifo_getchar}

-- one byte in 16450 mode, sixteen with the FIFO enabled
abbrev pub IsSize : ℕ → Type 0
IsSize size = (size ≡ 1) ⊎ (size ≡ 16)

-- The indices lie in the buffer, and the next write goes behind the last byte held.
pub record IsFifo (f : Fifo) : Type 0 where
  pub sized : IsSize f.size
  pub storage : length f.buf ≡ fifosz
  pub read_in : f.rindex < f.size
  pub num_in : f.num ≤ f.size
  pub write_at : f.windex ≡ (f.rindex + f.num) % f.size

-- the `n` bytes from index `r` on, round the end of the buffer
abbrev pub ring : List ℕ → ℕ → ℕ → ℕ → List ℕ
ring buf size r zero = []
ring buf size r (suc n) = get_or buf (r % size) 0 ∷ ring buf size (suc r) n

-- the bytes received and not yet read, oldest first
abbrev pub queue : Fifo → List ℕ
queue f = ring f.buf f.size f.rindex f.num

pub length-ring : (buf : List ℕ) (size r n : ℕ) → length (ring buf size r n) ≡ n
length-ring buf size r zero = refl
length-ring buf size r (suc n) = ap suc (length-ring buf size (suc r) n)

pub length-queue : (f : Fifo) → length (queue f) ≡ f.num
length-queue f = length-ring f.buf f.size f.rindex f.num

suc-mod : (size r s : ℕ) → IsSize size → r % size ≡ s % size → suc r % size ≡ suc s % size
suc-mod size r s (inl e) h = rw e (omega arith)
suc-mod size r s (inr e) h = rw e (omega (arith, (rw e at h)))

-- Only the place of an index in the buffer matters.
pub ring-mod :
    (buf : List ℕ) (size r s n : ℕ)
    → IsSize size
    → r % size ≡ s % size
    → ring buf size r n ≡ ring buf size s n
ring-mod buf size r s zero k h = refl
ring-mod buf size r s (suc n) k h =
    cc (h, ring-mod buf size (suc r) (suc s) n k (suc-mod size r s k h))

mod-ne : (size r n : ℕ) → IsSize size → suc n < size → (r + suc n) % size ≢ r % size
mod-ne size r n (inl e) h = absurd (omega arith)
mod-ne size r n (inr e) h = rw e (omega arith)

mod-in : (size i : ℕ) → IsSize size → i % size < 16
mod-in size i (inl e) = rw e (omega arith)
mod-in size i (inr e) = rw e (omega arith)

-- A write behind the window makes it longer by the byte written.
pub ring-set :
    (buf : List ℕ) (size r n w ch : ℕ)
    → IsSize size
    → length buf ≡ fifosz
    → n < size
    → w ≡ (r + n) % size
    → ring (set buf w ch) size r (suc n) ≡ ring buf size r n ++ ch ∷ []
ring-set buf size r zero w ch k l h e =
    let place : r % size ≡ w = ap (λ i. i % size) (omega arith) ∙ sym e in
    rw place (rw (get_or-set_self buf w ch 0 (omega (arith, mod-in size r k))))
ring-set buf size r (suc n) w ch k l h e =
    let shift : w ≡ (suc r + n) % size = e ∙ ap (λ i. i % size) (omega arith) in
    let away : w ≢ r % size = rw e (mod-ne size r n k h) in
    cc (
      get_or-set_ne buf w (r % size) ch 0 away,
      ring-set buf size (suc r) n w ch k l (omega arith) shift,
    )

-- `rxfifo_putchar` accepts a byte exactly while there is room, appends it to the queue, and
-- changes nothing when it refuses.
pub putchar_appends :
    (sc : Softc) (ch : ℕ)
    → IsFifo sc.rxfifo
    → let (sc', stored) = rxfifo_putchar sc ch in
      (stored ≡ ltb (length (queue sc.rxfifo)) sc.rxfifo.size)
      × (stored ≡ true → queue sc'.rxfifo ≡ queue sc.rxfifo ++ ch ∷ [])
      × (stored ≡ false → sc' ≡ sc)
unfolding rxfifo_putchar
putchar_appends sc ch v = ground (
  arith,
  length-ring f.buf f.size f.rindex f.num,
  add-one f.num,
  ring-set f.buf f.size f.rindex f.num f.windex ch v.sized v.storage,
)
  where
    f : Fifo
    f = sc.rxfifo

-- `ring` matches on the count, the code tests it
pub ring-pred :
    (buf : List ℕ) (size r n : ℕ)
    → 0 < n
    → ring buf size r n ≡ get_or buf (r % size) 0 ∷ ring buf size (suc r) (n - 1)
ring-pred buf size r zero h = absurd (omega arith)
ring-pred buf size r (suc n) h = ap (λ k. ring buf size r (suc k)) (omega arith)

pub wrap_next :
    (size r : ℕ) → IsSize size → r < size → (r % size ≡ r) × (suc r % size ≡ (r + 1) % size % size)
wrap_next size r (inl e) h = rw e (omega arith)
wrap_next size r (inr e) h = rw e (omega arith)

-- `rxfifo_getchar` returns the oldest byte and leaves the rest of the queue; at an empty queue it
-- returns -1 and changes nothing.
pub getchar_takes :
    (sc : Softc)
    → IsFifo sc.rxfifo
    → let (sc', ch) = rxfifo_getchar sc in
      (ch ≡ head? (queue sc.rxfifo))
      × (queue sc'.rxfifo ≡ tail (queue sc.rxfifo))
      × (ch ≡ none → sc' ≡ sc)
unfolding rxfifo_getchar
getchar_takes sc v = ground (
  arith,
  ring-pred f.buf f.size f.rindex f.num,
  wrap_next f.size f.rindex v.sized v.read_in,
  ring-mod f.buf f.size (suc f.rindex) ((f.rindex + 1) % f.size) (f.num - 1) v.sized,
)
  where
    f : Fifo
    f = sc.rxfifo
