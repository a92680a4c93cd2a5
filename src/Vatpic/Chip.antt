-- ===== src/Vatpic/Chip.antt =====
-- One 8259 controller, `struct atpic` of bios/vmm/io/vatpic.c: its priority logic, the
-- initialisation and operation command words, and the acceptance of a pin.
pub mod Priority
pub mod Valid
pub mod Service
use bhyve_experiments.Base.{
  ℕ, zero, suc, ◌+◌, ◌%◌, ◌^◌, Bool, true, false, not, ◌&&◌, List, replicate,
}
use bhyve_experiments.Base.{Option, none, some, bit_and, ◌==◌, if◌then◌else◌, get_or}
use bhyve_experiments.Base.Bits.{any_of, has_bit, set_bit, clear_bit}
use bhyve_experiments.Base.Int.{ℤ, pos, equals}

-- `struct atpic`; `acnt` counts the asserts less the deasserts of each pin.
pub record Atpic : Type 0 where
  pub ready : Bool
  pub icw_num : ℕ
  pub rd_cmd_reg : ℕ
  pub aeoi : Bool
  pub poll : Bool
  pub rotate : Bool
  pub sfn : Bool
  pub irq_base : ℕ
  pub request : ℕ
  pub service : ℕ
  pub mask : ℕ
  pub smm : ℕ
  pub acnt : List ℤ
  pub lowprio : ℕ
  pub intr_raised : Bool

-- the chip in the memory that `vatpic_init` zeroes
unfoldable pub zeroed : Atpic
zeroed = record {
  ready = false;
  icw_num = 0;
  rd_cmd_reg = 0;
  aeoi = false;
  poll = false;
  rotate = false;
  sfn = false;
  irq_base = 0;
  request = 0;
  service = 0;
  mask = 0;
  smm = 0;
  acnt = replicate 8 (pos 0);
  lowprio = 0;
  intr_raised = false;
}

-- The bits of the command words (those of the 8259).
abbrev pub icw1_ic4 : ℕ
icw1_ic4 = 0x01

abbrev pub icw1_sngl : ℕ
icw1_sngl = 0x02

abbrev pub icw4_8086 : ℕ
icw4_8086 = 0x01

abbrev pub icw4_aeoi : ℕ
icw4_aeoi = 0x02

abbrev pub icw4_sfnm : ℕ
icw4_sfnm = 0x10

abbrev pub ocw2_eoi : ℕ
ocw2_eoi = 0x20

abbrev pub ocw2_sl : ℕ
ocw2_sl = 0x40

abbrev pub ocw2_r : ℕ
ocw2_r = 0x80

abbrev pub ocw3_ris : ℕ
ocw3_ris = 0x01

abbrev pub ocw3_rr : ℕ
ocw3_rr = 0x02

abbrev pub ocw3_p : ℕ
ocw3_p = 0x04

abbrev pub ocw3_smm : ℕ
ocw3_smm = 0x20

abbrev pub ocw3_esmm : ℕ
ocw3_esmm = 0x40

-- ATPIC_PIN_FOREACH of `vatpic_get_highest_isrpin`: `n` rounds are left, the next one is at `pin`.
unfoldable pub scan_isr : ℕ → ℕ → Atpic → Option ℕ
scan_isr zero pin a = none
scan_isr (suc n) pin a =
    let rest = scan_isr n ((pin + 1) % 8) a in
    if has_bit a.service pin
    then (if not (a.smm == 0) && has_bit a.mask pin then rest else some pin)
    else rest

-- `none` is the pin -1.
unfoldable pub get_highest_isrpin : Atpic → Option ℕ
unfolding scan_isr
get_highest_isrpin a = scan_isr 8 ((a.lowprio + 1) % 8) a

-- The levels in service that lock others out: with the special fully nested mode not the slave,
-- with the special mask mode none.
unfoldable pub serviced : Atpic → ℕ
serviced a =
    let nested = if a.sfn then clear_bit a.service 2 else a.service in
    if not (a.smm == 0) then 0 else nested

-- The loop of `vatpic_get_highest_irrpin`
unfoldable pub scan_irr : ℕ → ℕ → Atpic → Option ℕ
unfolding serviced
scan_irr zero pin a = none
scan_irr (suc n) pin a =
    let rest = scan_irr n ((pin + 1) % 8) a in
    if has_bit (serviced a) pin
    then none
    else if has_bit a.request pin && not (has_bit a.mask pin)
    then some pin
    else rest

unfoldable pub get_highest_irrpin : Atpic → Option ℕ
unfolding scan_irr
get_highest_irrpin a = scan_irr 8 ((a.lowprio + 1) % 8) a

-- The command words return the chip and the error: `true` for -1.
unfoldable pub icw1 : Atpic → ℕ → Atpic × Bool
icw1 a val =
    if any_of val icw1_sngl
    then (cleared, true)
    else if not (any_of val icw1_ic4)
    then (cleared, true)
    else (record cleared { icw_num = 2 }, false)
  where
    cleared : Atpic
    cleared = record a {
      ready = false;
      icw_num = 1;
      request = 0;
      mask = 0;
      lowprio = 7;
      rd_cmd_reg = 0;
      poll = false;
      smm = 0;
    }

unfoldable pub icw2 : Atpic → ℕ → Atpic × Bool
icw2 a val = (record a { irq_base = bit_and val 0xf8; icw_num = a.icw_num + 1 }, false)

unfoldable pub icw3 : Atpic → ℕ → Atpic × Bool
icw3 a val = (record a { icw_num = a.icw_num + 1 }, false)

-- Only the master takes the special fully nested mode.
unfoldable pub icw4 : Bool → Atpic → ℕ → Atpic × Bool
icw4 is_master a val = if not (any_of val icw4_8086) then (a, true) else (
  record a {
    aeoi = if any_of val icw4_aeoi then true else a.aeoi;
    sfn = if any_of val icw4_sfnm && is_master then true else a.sfn;
    icw_num = 0;
    ready = true;
  },
  false,
)

unfoldable pub ocw1 : Atpic → ℕ → Atpic × Bool
ocw1 a val = (record a { mask = bit_and val 0xff }, false)

-- the end of interrupt at a pin, if there is one
unfoldable pub end_of_interrupt : Atpic → Option ℕ → Atpic
end_of_interrupt a none = a
end_of_interrupt a (some isr_bit) = record a {
  service = clear_bit a.service isr_bit;
  lowprio = if a.rotate then isr_bit else a.lowprio;
}

unfoldable pub ocw2 : Atpic → ℕ → Atpic × Bool
unfolding end_of_interrupt
ocw2 a val =
    if any_of val ocw2_eoi
    then (
      end_of_interrupt rotated
          (if any_of val ocw2_sl then some (bit_and val 0x7) else get_highest_isrpin rotated),
      false,
    )
    else (
      if any_of val ocw2_sl && rotated.rotate
          then record rotated { lowprio = bit_and val 0x7 }
          else rotated,
      false,
    )
  where
    rotated : Atpic
    rotated = record a { rotate = any_of val ocw2_r }

unfoldable pub ocw3 : Atpic → ℕ → Atpic × Bool
ocw3 a val = (
  record masked {
    rd_cmd_reg = if any_of val ocw3_rr then bit_and val ocw3_ris else masked.rd_cmd_reg;
    poll = if any_of val ocw3_rr then any_of val ocw3_p else masked.poll;
  },
  false,
)
  where
    masked : Atpic
    masked =
        if any_of val ocw3_esmm then record a { smm = if any_of val ocw3_smm then 1 else 0 } else a

-- `vatpic_pin_accepted`
unfoldable pub pin_accepted : Atpic → ℕ → Atpic
pin_accepted a pin =
    let quiet = record a {
      intr_raised = false;
      request = if equals (get_or a.acnt pin (pos 0)) 0 then clear_bit a.request pin else a.request;
    } in
    if a.aeoi
    then record quiet { lowprio = if a.rotate then pin else a.lowprio }
    else record quiet { service = set_bit a.service pin }
