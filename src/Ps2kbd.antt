-- ===== src/Ps2kbd.antt =====
-- The PS/2 keyboard as the keyboard controller sees it, bios/bhyve/ps2kbd.c: the FIFO of bytes for
-- the guest, and the commands. The translation of key symbols is not here.
pub mod Queue
pub mod Commands
pub mod Session
mod Tests
use bhyve_experiments.Base.{
  ℕ, ◌+◌, ◌-◌, ◌%◌, Bool, true, false, Option, none, some, List, [], ◌∷◌, ltb, ◌==◌,
}
use bhyve_experiments.Base.{if◌then◌else◌, get_or, set, replicate, ◌||◌}

abbrev pub ps2kc_reset_dev : ℕ
ps2kc_reset_dev = 0xff

abbrev pub ps2kc_disable : ℕ
ps2kc_disable = 0xf5

abbrev pub ps2kc_enable : ℕ
ps2kc_enable = 0xf4

abbrev pub ps2kc_set_typematic : ℕ
ps2kc_set_typematic = 0xf3

abbrev pub ps2kc_send_dev_id : ℕ
ps2kc_send_dev_id = 0xf2

abbrev pub ps2kc_set_scancode_set : ℕ
ps2kc_set_scancode_set = 0xf0

abbrev pub ps2kc_echo : ℕ
ps2kc_echo = 0xee

abbrev pub ps2kc_set_leds : ℕ
ps2kc_set_leds = 0xed

abbrev pub ps2kc_bat_success : ℕ
ps2kc_bat_success = 0xaa

abbrev pub ps2kc_ack : ℕ
ps2kc_ack = 0xfa

abbrev pub ps2kbd_fifosz : ℕ
ps2kbd_fifosz = 16

-- `struct fifo`
pub record KbdFifo : Type 0 where
  pub buf : List ℕ
  pub rindex : ℕ
  pub windex : ℕ
  pub num : ℕ
  pub size : ℕ

-- `struct ps2kbd_softc`, less the controller and the lock
pub record Keyboard : Type 0 where
  pub enabled : Bool
  pub fifo : KbdFifo
  pub curcmd : ℕ

unfoldable pub fifo_init : Keyboard → Keyboard
fifo_init sc = record sc { fifo = record sc.fifo { size = ps2kbd_fifosz } }

abbrev pub fresh_fifo : KbdFifo
fresh_fifo = record {
  buf = replicate ps2kbd_fifosz 0;
  rindex = 0;
  windex = 0;
  num = 0;
  size = ps2kbd_fifosz;
}

unfoldable pub fifo_reset : Keyboard → Keyboard
fifo_reset sc = record sc { fifo = fresh_fifo }

unfoldable pub fifo_put : Keyboard → ℕ → Keyboard
fifo_put sc val =
    let f = sc.fifo in
    if ltb f.num f.size
    then record sc {
      fifo = record f {
        buf = set f.buf f.windex val;
        windex = (f.windex + 1) % f.size;
        num = f.num + 1;
      };
    }
    else sc

-- `none` is the return value -1.
unfoldable pub fifo_get : Keyboard → Keyboard × Option ℕ
fifo_get sc =
    let f = sc.fifo in
    if ltb 0 f.num
    then (
      record sc { fifo = record f { rindex = (f.rindex + 1) % f.size; num = f.num - 1 } },
      some (get_or f.buf f.rindex 0),
    )
    else (sc, none)

unfoldable pub ps2kbd_read : Keyboard → Keyboard × Option ℕ
ps2kbd_read sc = fifo_get sc

-- the first `switch` of `ps2kbd_write`, on the command that waits for its argument
unfoldable pub argument : Keyboard → Keyboard
argument sc =
    if sc.curcmd == ps2kc_set_typematic
      || sc.curcmd == ps2kc_set_scancode_set
      || sc.curcmd == ps2kc_set_leds
    then fifo_put sc ps2kc_ack
    else sc

abbrev pub acked : Keyboard → Keyboard
acked sc = fifo_put sc ps2kc_ack

-- the cases of the second `switch` from `PS2KC_SET_TYPEMATIC` on
unfoldable pub further_command : Keyboard → ℕ → Keyboard
further_command sc val =
    if val == ps2kc_set_typematic
    then acked (record sc { curcmd = val })
    else if val == ps2kc_send_dev_id
    then fifo_put (fifo_put (acked sc) 0xab) 0x83
    else if val == ps2kc_set_scancode_set
    then acked (record sc { curcmd = val })
    else if val == ps2kc_echo
    then fifo_put sc ps2kc_echo
    else if val == ps2kc_set_leds
    then acked (record sc { curcmd = val })
    else sc

-- the second `switch`, on a new command
unfoldable pub command : Keyboard → ℕ → Keyboard
command sc val =
    if val == 0x00
    then acked sc
    else if val == ps2kc_reset_dev
    then fifo_put (acked (fifo_reset sc)) ps2kc_bat_success
    else if val == ps2kc_disable
    then acked (record sc { enabled = false })
    else if val == ps2kc_enable
    then acked (fifo_reset (record sc { enabled = true }))
    else further_command sc val

unfoldable pub ps2kbd_write : Keyboard → ℕ → Keyboard
ps2kbd_write sc val = if sc.curcmd == 0 then command sc val else record (argument sc) { curcmd = 0 }

-- The keyboard of `calloc` and `fifo_init`
unfoldable pub ps2kbd_init : Keyboard
unfolding fifo_init
ps2kbd_init =
    fifo_init (record { enabled = false; fifo = record fresh_fifo { size = 0 }; curcmd = 0 })
