-- ===== src/Ps2kbd/Queue.antt =====
-- The keyboard's FIFO as a queue of at most 16 bytes that drops what does not fit.
use bhyve_experiments.Base.{
  ℕ, zero, suc, ◌+◌, ◌-◌, ◌%◌, ◌≤◌, ◌<◌, ◌≡◌, refl, sym, ap, ◌∙◌, inr, inl, Bool-cases, none,
}
use bhyve_experiments.Base.{false, List, [], ◌∷◌, ◌++◌, arith, length, take, ltb, set}
use bhyve_experiments.Base.{ltb→lt, length-append}
use native.Mathlib.Numerals.{add-one}
use mathlib.Core.List.{head?, tail}
use bhyve_experiments.Uart.Fifo.Queue.{ring, ring-set, ring-pred, ring-mod, wrap_next, length-ring}
use bhyve_experiments.Ps2kbd.{KbdFifo, Keyboard, fifo_put, fifo_get, ps2kbd_read, ps2kbd_fifosz}

pub record IsFifo (f : KbdFifo) : Type 0 where
  pub sized : f.size ≡ ps2kbd_fifosz
  pub storage : length f.buf ≡ ps2kbd_fifosz
  pub read_in : f.rindex < ps2kbd_fifosz
  pub num_in : f.num ≤ ps2kbd_fifosz
  pub write_at : f.windex ≡ (f.rindex + f.num) % f.size

-- the bytes that the guest has not read yet, oldest first
abbrev pub queue : Keyboard → List ℕ
queue sc = ring sc.fifo.buf sc.fifo.size sc.fifo.rindex sc.fifo.num

abbrev pub IsKeyboard : Keyboard → Type 0
IsKeyboard sc = IsFifo sc.fifo

take_all : (n : ℕ) (xs : List ℕ) → length xs ≤ n → take n xs ≡ xs
take_all zero [] h = refl
take_all zero (x ∷ xs) h = absurd (omega arith)
take_all (suc n) [] h = refl
take_all (suc n) (x ∷ xs) h = ap (λ t. x ∷ t) (take_all n xs (omega arith))

take_enough : (n : ℕ) (xs ys : List ℕ) → n ≡ length xs → take n (xs ++ ys) ≡ xs
take_enough zero [] ys h = refl
take_enough zero (x ∷ xs) ys h = absurd (omega arith)
take_enough (suc n) [] ys h = absurd (omega arith)
take_enough (suc n) (x ∷ xs) ys h = ap (λ t. x ∷ t) (take_enough n xs ys (omega arith))

not_room : (num size : ℕ) → ltb num size ≡ false → size ≤ num
not_room num size h = ground arith

-- At a FIFO in order `fifo_put` appends the byte to the queue, which keeps no more than its first 16 bytes.
pub fifo_put_appends :
    (sc : Keyboard) (val : ℕ)
    → IsKeyboard sc
    → queue (fifo_put sc val) ≡ take ps2kbd_fifosz (queue sc ++ val ∷ [])
unfolding fifo_put
fifo_put_appends sc val v = elim (Bool-cases (ltb f.num f.size)) [
  | inl e ↦ rw e (
      ap (λ n. ring (set f.buf f.windex val) f.size f.rindex n) (add-one f.num)
      ∙ ring-set f.buf f.size f.rindex f.num f.windex val (inr v.sized) v.storage
          (ltb→lt f.num f.size e) v.write_at
      ∙ sym (
          take_all ps2kbd_fifosz (queue sc ++ val ∷ []) (
            omega
              (arith, held, length-append (queue sc) (val ∷ []), ltb→lt f.num f.size e, v.sized))))
  | inr e ↦ rw e (
      sym (
        take_enough ps2kbd_fifosz (queue sc) (val ∷ [])
          (omega (arith, held, v.sized, v.num_in, not_room f.num f.size e))))
]
  where
    f : KbdFifo
    f = sc.fifo

    held : length (queue sc) ≡ f.num
    held = length-ring f.buf f.size f.rindex f.num

-- At a FIFO in order a read gives the guest the oldest byte of the queue and takes it out; with nothing in the queue
-- it gives none, and the keyboard stays as it was.
pub ps2kbd_read_takes :
    (sc : Keyboard)
    → IsKeyboard sc
    → let (sc', val) = ps2kbd_read sc in
      (val ≡ head? (queue sc)) × (queue sc' ≡ tail (queue sc)) × (val ≡ none → sc' ≡ sc)
unfolding ps2kbd_read fifo_get
ps2kbd_read_takes sc v = ground (
  arith,
  ring-pred f.buf f.size f.rindex f.num,
  wrap_next f.size f.rindex (inr v.sized) (omega (arith, v.sized, v.read_in)),
  ring-mod f.buf f.size (suc f.rindex) ((f.rindex + 1) % f.size) (f.num - 1) (inr v.sized),
)
  where
    f : KbdFifo
    f = sc.fifo
