-- ===== src/Ps2kbd/Tests.antt =====
-- Runs of the keyboard.
use bhyve_experiments.Base.{refl, [], ◌∷◌, false, arith}
use bhyve_experiments.Ps2kbd.{Keyboard, ps2kbd_init}
use bhyve_experiments.Ps2kbd.Queue.{IsKeyboard}
use bhyve_experiments.Ps2kbd.Commands.{IsValid}
use bhyve_experiments.Ps2kbd.Session.{read_byte, write_byte, session, session-IsValid}

-- the keyboard after it was asked for its kind, and read once
abbrev asked : Keyboard
asked = session (write_byte 0xf2 ∷ read_byte ∷ []) ps2kbd_init

session-IsValid_example : IsValid asked
session-IsValid_example = session-IsValid (write_byte 0xf2 ∷ read_byte ∷ [])

-- it is about to send the two bytes of its kind
abbrev plain : Keyboard
plain = record {
  enabled = false;
  fifo = record {
    buf = 0xfa ∷ 0xab ∷ 0x83 ∷ 0 ∷ 0 ∷ 0 ∷ 0 ∷ 0 ∷ 0 ∷ 0 ∷ 0 ∷ 0 ∷ 0 ∷ 0 ∷ 0 ∷ 0 ∷ [];
    rindex = 1;
    windex = 3;
    num = 2;
    size = 16;
  };
  curcmd = 0;
}

plain-IsKeyboard : IsKeyboard plain
plain-IsKeyboard = record {
  sized = refl;
  storage = refl;
  read_in = omega arith;
  num_in = omega arith;
  write_at = refl;
}
