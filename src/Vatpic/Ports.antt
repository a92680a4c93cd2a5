-- ===== src/Vatpic/Ports.antt =====
-- The I/O ports of the interrupt controllers: the handlers of bios/vmm/io/vatpic.c.
pub mod Valid
pub mod Run
pub mod Deliver
mod Tests
use bhyve_experiments.Base.{ℕ, ◌+◌, ◌%◌, Bool, true, false, Option, none, some, bit_and, bit_or}
use bhyve_experiments.Base.{◌==◌, if◌then◌else◌}
use bhyve_experiments.Base.Bits.{any_of, has_bit}
use bhyve_experiments.Vatpic.Chip.{
  Atpic, get_highest_irrpin, icw1, icw2, icw3, icw4, ocw1, ocw2, ocw3,
}
use bhyve_experiments.Vatpic.Chip.{ocw3_ris, pin_accepted}
use bhyve_experiments.Vatpic.Pair.{Vatpic, Status, ok, failed, notify_intr}

-- the chip that a handler passes to `vatpic_read` and `vatpic_write`
pub data Which : Type 0 where
  master slave : Which

abbrev pub chip : Which → Vatpic → Atpic
chip master v = v.master
chip slave v = v.slave

abbrev pub put : Which → Atpic → Vatpic → Vatpic
put master a v = record v { master = a }
put slave a v = record v { slave = a }

abbrev pub is_master : Which → Bool
is_master master = true
is_master slave = false

-- the poll of a chip: the pin that it would interrupt for is accepted
unfoldable pub poll_chip : Atpic → Option ℕ → Atpic × ℕ
poll_chip a none = (a, 0)
poll_chip a (some pin) = (pin_accepted a pin, bit_or 0x80 pin)

-- `vatpic_read` on one chip; ICU_IMR_OFFSET is 1
unfoldable pub read_chip : Atpic → ℕ → Atpic × ℕ
read_chip a port =
    if a.poll
    then poll_chip polled (get_highest_irrpin polled)
    else if any_of port 1
    then (a, a.mask)
    else if a.rd_cmd_reg == ocw3_ris
    then (a, a.service)
    else (a, a.request)
  where
    polled : Atpic
    polled = record a { poll = false }

unfoldable pub read : Vatpic → Which → ℕ → Vatpic × ℕ
read v which port = let (a, eax) = read_chip (chip which v) port in (put which a v, eax)

-- the operation command words at the even port, once the chip is ready
unfoldable pub write_ocw : Atpic → ℕ → Bool → Atpic × Bool
write_ocw a val error =
    if a.ready then (if has_bit val 3 then ocw3 a val else ocw2 a val) else (a, error)

-- what `vatpic_write` does to one chip before it notifies
unfoldable pub write_chip : Bool → Atpic → ℕ → ℕ → Atpic × Bool
write_chip is_master a port val =
    if any_of port 1
    then (if a.icw_num == 2
        then icw2 a val
        else if a.icw_num == 3
        then icw3 a val
        else if a.icw_num == 4
        then icw4 is_master a val
        else ocw1 a val)
    else if has_bit val 4
    then (let (b, error) = icw1 a val in write_ocw b val error)
    else write_ocw a val false

-- `vatpic_write`; `val` is the low byte of `*eax`
unfoldable pub write : Vatpic → Which → ℕ → ℕ → Vatpic × Status
write v which port eax =
    (if written.0.ready then notify_intr stored else stored, if written.1 then failed else ok)
  where
    written : Atpic × Bool
    written = write_chip (is_master which) (chip which v) port (eax % 256)

    stored : Vatpic
    stored = put which written.0 v

-- `vatpic_master_handler` and `vatpic_slave_handler`, with the value left in `*eax`
unfoldable pub handler : Which → Vatpic → Bool → ℕ → ℕ → ℕ → Vatpic × ℕ × Status
handler which v into_guest port bytes eax =
    if not_byte
    then (v, eax, failed)
    else if into_guest
    then (let (v', value) = read v which port in (v', value, ok))
    else (let (v', status) = write v which port eax in (v', eax, status))
  where
    not_byte : Bool
    not_byte = if bytes == 1 then false else true

-- `vatpic_elc_handler`; IO_ELCR1 is 0x4d0, and the masks leave of `*eax` bits of its
-- low byte
unfoldable pub elc_handler : Vatpic → Bool → ℕ → ℕ → ℕ → Vatpic × ℕ × Status
elc_handler v into_guest port bytes eax =
    if not_byte
    then (v, eax, failed)
    else if into_guest
    then (v, if port == 0x4d0 then v.elc0 else v.elc1, ok)
    else (
      if port == 0x4d0
          then record v { elc0 = bit_and (eax % 256) 0xf8 }
          else record v { elc1 = bit_and (eax % 256) 0xde },
      eax,
      ok,
    )
  where
    not_byte : Bool
    not_byte = if bytes == 1 then false else true
