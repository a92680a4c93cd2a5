-- ===== src/Ps2kbd/Commands.antt =====
-- The commands of the keyboard.
use bhyve_experiments.Base.{ℕ, ◌+◌, ◌-◌, ◌%◌, ◌<◌, ◌≡◌, refl, sym, ◌∙◌, inr, inl, Bool-cases}
use bhyve_experiments.Base.{[], ◌∷◌, ◌++◌, arith, take, ltb, length-set}
use bhyve_experiments.Base.{◌⊎◌, ltb→lt, subst}
use bhyve_experiments.Ps2kbd.{KbdFifo, Keyboard, fifo_put, fifo_get, ps2kbd_read, ps2kbd_write}
use bhyve_experiments.Ps2kbd.{
  argument, command, further_command, acked, ps2kc_ack, ps2kbd_fifosz, fresh_fifo,
}
use bhyve_experiments.Ps2kbd.{ps2kc_set_typematic, ps2kc_set_scancode_set, ps2kc_set_leds}
use bhyve_experiments.Ps2kbd.Queue.{IsFifo, IsKeyboard, queue, fifo_put_appends}

-- The command that waits for its argument is one of the three that have one.
abbrev pub HasArgument : ℕ → Type 0
HasArgument cmd =
    (cmd ≡ ps2kc_set_typematic) ⊎ ((cmd ≡ ps2kc_set_scancode_set) ⊎ (cmd ≡ ps2kc_set_leds))

abbrev pub IsValid : Keyboard → Type 0
IsValid sc = IsKeyboard sc × ((sc.curcmd ≡ 0) ⊎ HasArgument sc.curcmd)

next_write :
    (r n w size : ℕ) → size ≡ 16 → w ≡ (r + n) % size → (w + 1) % size ≡ (r + (n + 1)) % size
next_write r n w size s e = rw s (omega (arith, (rw s at e)))

pub fifo_put-IsKeyboard : (sc : Keyboard) (val : ℕ) → IsKeyboard sc → IsKeyboard (fifo_put sc val)
unfolding fifo_put
fifo_put-IsKeyboard sc val v = elim (Bool-cases (ltb f.num f.size)) [
  | inl e ↦ rw e (record {
    sized = v.sized;
    storage = length-set f.buf f.windex val ∙ v.storage;
    read_in = v.read_in;
    num_in = omega (arith, v.sized, ltb→lt f.num f.size e);
    write_at = next_write f.rindex f.num f.windex f.size v.sized v.write_at;
  })
  | inr e ↦ rw e v
]
  where
    f : KbdFifo
    f = sc.fifo

next_read :
    (r n w size : ℕ)
    → size ≡ 16
    → 0 < n
    → w ≡ (r + n) % size
    → w ≡ ((r + 1) % size + (n - 1)) % size
next_read r n w size s h e = rw s (omega (arith, (rw s at e)))

pub ps2kbd_read-IsKeyboard : (sc : Keyboard) → IsKeyboard sc → IsKeyboard (ps2kbd_read sc).0
unfolding ps2kbd_read fifo_get
ps2kbd_read-IsKeyboard sc v = elim (Bool-cases (ltb 0 f.num)) [
  | inl e ↦ rw e (record {
    sized = v.sized;
    storage = v.storage;
    read_in = rw v.sized (omega arith);
    num_in = omega (arith, v.num_in);
    write_at = next_read f.rindex f.num f.windex f.size v.sized (ltb→lt 0 f.num e) v.write_at;
  })
  | inr e ↦ rw e v
]
  where
    f : KbdFifo
    f = sc.fifo

pub fresh-IsFifo : IsFifo fresh_fifo
fresh-IsFifo = record {
  sized = refl;
  storage = refl;
  read_in = omega arith;
  num_in = omega arith;
  write_at = refl;
}

pub fifo_put_curcmd : (sc : Keyboard) (val : ℕ) → (fifo_put sc val).curcmd ≡ sc.curcmd
unfolding fifo_put
fifo_put_curcmd sc val = ground arith

fifo_put_enabled : (sc : Keyboard) (val : ℕ) → (fifo_put sc val).enabled ≡ sc.enabled
unfolding fifo_put
fifo_put_enabled sc val = ground arith

command_waits :
    (sc : Keyboard) (cmd : ℕ)
    → HasArgument cmd
    → command sc cmd ≡ acked (record sc { curcmd = cmd })
unfolding command further_command
command_waits sc cmd (inl e) = rw e
command_waits sc cmd (inr (inl e)) = rw e
command_waits sc cmd (inr (inr e)) = rw e

pub write_idle : (sc : Keyboard) (val : ℕ) → sc.curcmd ≡ 0 → ps2kbd_write sc val ≡ command sc val
unfolding ps2kbd_write
write_idle sc val h = rw h

pub write_waiting :
    (sc : Keyboard) (val : ℕ)
    → HasArgument sc.curcmd
    → ps2kbd_write sc val ≡ record (acked sc) { curcmd = 0 }
unfolding ps2kbd_write argument
write_waiting sc val (inl e) = rw e
write_waiting sc val (inr (inl e)) = rw e
write_waiting sc val (inr (inr e)) = rw e

-- To a keyboard in order where no command waits, a command with an argument is acknowledged and
-- waits; the next byte, whatever it is, is taken as
-- its argument and acknowledged, and no command waits any more. The keyboard sends what fits.
pub ps2kbd_write_argument :
    (sc : Keyboard) (cmd arg : ℕ)
    → IsKeyboard sc
    → sc.curcmd ≡ 0
    → HasArgument cmd
    → let waiting = ps2kbd_write sc cmd in
      let done = ps2kbd_write waiting arg in
      (waiting.curcmd ≡ cmd)
      × (queue waiting ≡ take ps2kbd_fifosz (queue sc ++ ps2kc_ack ∷ []))
      × (done.curcmd ≡ 0)
      × (queue done ≡ take ps2kbd_fifosz (queue waiting ++ ps2kc_ack ∷ []))
      × (done.enabled ≡ sc.enabled)
ps2kbd_write_argument sc cmd arg v idle h = rw (write_idle sc cmd idle) (
    rw (command_waits sc cmd h) (
      rw (write_waiting waiting arg (subst HasArgument (sym curcmd) h)) (
        curcmd,
        fifo_put_appends (record sc { curcmd = cmd }) ps2kc_ack v,
        refl,
        fifo_put_appends waiting ps2kc_ack
            (fifo_put-IsKeyboard (record sc { curcmd = cmd }) ps2kc_ack v),
        fifo_put_enabled waiting ps2kc_ack
            ∙ fifo_put_enabled (record sc { curcmd = cmd }) ps2kc_ack,
      )))
  where
    waiting : Keyboard
    waiting = acked (record sc { curcmd = cmd })

    curcmd : waiting.curcmd ≡ cmd
    curcmd = fifo_put_curcmd (record sc { curcmd = cmd }) ps2kc_ack
