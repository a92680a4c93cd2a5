-- ===== src/Ps2kbd/Session.antt =====
-- Every sequence of reads and writes of the guest.
use bhyve_experiments.Base.{ℕ, ◌≡◌, refl, sym, inr, inl, Bool}
use bhyve_experiments.Base.{true, false, List, [], ◌∷◌, arith, if◌then◌else◌, ◌==◌}
use bhyve_experiments.Base.{◌⊎◌, subst, ==_iff}
use bhyve_experiments.Ps2kbd.{
  Keyboard, fifo_put, fifo_get, fifo_reset, fifo_init, ps2kbd_read, ps2kbd_write, ps2kbd_init,
}
use bhyve_experiments.Ps2kbd.{command, further_command, acked, ps2kc_ack}
use bhyve_experiments.Ps2kbd.Commands.{
  HasArgument, IsValid, fifo_put-IsKeyboard, ps2kbd_read-IsKeyboard, fresh-IsFifo, fifo_put_curcmd,
  write_idle, write_waiting,
}

pick :
    (P : Keyboard → Type 0) (b : Bool) (x y : Keyboard)
    → (b ≡ true → P x)
    → (b ≡ false → P y)
    → P (if b then x else y)
pick P true x y f g = f refl
pick P false x y f g = g refl

-- the guest reads a byte, or writes one
pub data Access : Type 0 where
  read_byte : Access
  write_byte : ℕ → Access

fifo_put-IsValid : (sc : Keyboard) (val : ℕ) → IsValid sc → IsValid (fifo_put sc val)
fifo_put-IsValid sc val (v, c) = (
  fifo_put-IsKeyboard sc val v,
  subst (λ k. (k ≡ 0) ⊎ HasArgument k) (sym (fifo_put_curcmd sc val)) c,
)

fifo_reset-IsValid : (sc : Keyboard) → IsValid sc → IsValid (fifo_reset sc)
unfolding fifo_reset
fifo_reset-IsValid sc (v, c) = (fresh-IsFifo, c)

module _ (sc : Keyboard) (val : ℕ) (v : IsValid sc) where
  put : (w : Keyboard) → IsValid w → IsValid (acked w)
  put w h = fifo_put-IsValid w ps2kc_ack h

  waits : HasArgument val → IsValid (acked (record sc { curcmd = val }))
  waits h = put (record sc { curcmd = val }) (v.0, inr h)

  further_command-IsValid : IsValid (further_command sc val)
  unfolding further_command
  further_command-IsValid =
      pick IsValid (val == 0xf3) _ _ (λ e. waits (inl ((==_iff _ _).0 e)))
        (λ e.
          pick IsValid (val == 0xf2) _ _
            (λ q. fifo_put-IsValid _ 0x83 (fifo_put-IsValid (acked sc) 0xab (put sc v)))
            (λ q.
              pick IsValid (val == 0xf0) _ _ (λ r. waits (inr (inl ((==_iff _ _).0 r))))
                (λ r.
                  pick IsValid (val == 0xee) _ _ (λ s. fifo_put-IsValid sc 0xee v)
                    (λ s.
                      pick IsValid (val == 0xed) _ _ (λ t. waits (inr (inr ((==_iff _ _).0 t))))
                        (λ t. v)))))

  command-IsValid : IsValid (command sc val)
  unfolding command
  command-IsValid =
      pick IsValid (val == 0x00) _ _ (λ e. put sc v)
        (λ e.
          pick IsValid (val == 0xff) _ _
            (λ q.
              fifo_put-IsValid (acked (fifo_reset sc)) 0xaa
                (put (fifo_reset sc) (fifo_reset-IsValid sc v)))
            (λ q.
              pick IsValid (val == 0xf5) _ _ (λ r. put (record sc { enabled = false }) v)
                (λ r.
                  pick IsValid (val == 0xf4) _ _
                    (λ s. put (fifo_reset on) (fifo_reset-IsValid on v))
                    (λ s. further_command-IsValid))))
    where
      on : Keyboard
      on = record sc { enabled = true }

ps2kbd_write-IsValid : (sc : Keyboard) (val : ℕ) → IsValid sc → IsValid (ps2kbd_write sc val)
ps2kbd_write-IsValid sc val (v, inl idle) =
    subst IsValid (sym (write_idle sc val idle)) (command-IsValid sc val (v, inl idle))
ps2kbd_write-IsValid sc val (v, inr h) =
    subst IsValid (sym (write_waiting sc val h)) (fifo_put-IsKeyboard sc ps2kc_ack v, inl refl)

ps2kbd_read_curcmd : (sc : Keyboard) → (ps2kbd_read sc).0.curcmd ≡ sc.curcmd
unfolding ps2kbd_read fifo_get
ps2kbd_read_curcmd sc = ground arith

unfoldable pub access : Access → Keyboard → Keyboard
access read_byte sc = (ps2kbd_read sc).0
access (write_byte val) sc = ps2kbd_write sc val

unfoldable pub session : List Access → Keyboard → Keyboard
session [] sc = sc
session (a ∷ rest) sc = session rest (access a sc)

access-IsValid : (a : Access) (sc : Keyboard) → IsValid sc → IsValid (access a sc)
unfolding access
access-IsValid read_byte sc (v, c) = (
  ps2kbd_read-IsKeyboard sc v,
  subst (λ k. (k ≡ 0) ⊎ HasArgument k) (sym (ps2kbd_read_curcmd sc)) c,
)
access-IsValid (write_byte val) sc h = ps2kbd_write-IsValid sc val h

session_keeps : (l : List Access) (sc : Keyboard) → IsValid sc → IsValid (session l sc)
unfolding session
session_keeps [] sc h = h
session_keeps (a ∷ rest) sc h = session_keeps rest (access a sc) (access-IsValid a sc h)

init-IsKeyboard : IsValid ps2kbd_init
unfolding ps2kbd_init fifo_init
init-IsKeyboard = (fresh-IsFifo, inl refl)

-- After every sequence of reads and writes of the guest from the initial keyboard on, the FIFO is
-- well formed with at most 16 bytes in it, and the command that waits for an argument, if one does,
-- is one of the three that have one.
pub session-IsValid : (l : List Access) → IsValid (session l ps2kbd_init)
session-IsValid l = session_keeps l ps2kbd_init init-IsKeyboard
