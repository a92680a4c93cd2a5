-- ===== src/Vioapic.antt =====
-- The I/O APIC, bios/vmm/io/vioapic.c: 32 pins with their entries of the redirection table.
pub mod Pending
pub mod Entry
pub mod Sent
pub mod Tell
pub mod Valid
pub mod Run
mod Tests
use bhyve_experiments.Base.{
  ℕ, zero, suc, ◌+◌, ◌-◌, ◌*◌, ◌/◌, ◌%◌, ◌^◌, Bool, true, false, not, ◌&&◌, ◌||◌, List, [], ◌∷◌,
  ◌++◌,
}
use bhyve_experiments.Base.{
  Option, none, some, bit_and, bit_or, bit_xor, ltb, leb, ◌==◌, if◌then◌else◌, get_or, set,
  replicate,
}
use bhyve_experiments.Base.Bits.{any_of}
use bhyve_experiments.Base.Int.{ℤ, pos, negsuc, incr, decr, equals, positive}

-- the fields of an entry, from the system's header
abbrev pub ioart_intvec : ℕ
ioart_intvec = 0xff

abbrev pub ioart_delmod : ℕ
ioart_delmod = 0x700

abbrev pub ioart_destmod : ℕ
ioart_destmod = 0x800

abbrev pub ioart_rem_irr : ℕ
ioart_rem_irr = 0x4000

abbrev pub ioart_trgrlvl : ℕ
ioart_trgrlvl = 0x8000

abbrev pub ioart_intmask : ℕ
ioart_intmask = 0x10000

abbrev pub redir_entries : ℕ
redir_entries = 32

abbrev pub ioapic_redtbl : ℕ
ioapic_redtbl = 0x10

-- One pin: its entry, and the sum of its assertions and deassertions.
pub record Rte : Type 0 where
  pub reg : ℕ
  pub acnt : ℤ

-- The calls outside: `vlapic_deliver_intr` with level, destination, physical mode, delivery mode
-- and vector, and the rendezvous of the virtual CPUs to update their trigger-mode registers.
pub data Signal : Type 0 where
  deliver : Bool → ℕ → Bool → ℕ → ℕ → Signal
  rendezvous : Signal

-- `struct vioapic`, and the calls that were made, oldest first
pub record Vioapic : Type 0 where
  pub id : ℕ
  pub ioregsel : ℕ
  pub rtbl : List Rte
  pub signals : List Signal

-- `vioapic_send_intr`
unfoldable pub send_intr : Rte → Rte × List Signal
send_intr e =
    let low = e.reg % 2 ^ 32 in
    let level = any_of low ioart_trgrlvl in
    if any_of low ioart_intmask then (e, []) else (
      if level then record e { reg = bit_or e.reg ioart_rem_irr } else e,
      deliver level (e.reg / 2 ^ 32 / 2 ^ 24) (not (any_of low ioart_destmod))
            (bit_and low ioart_delmod) (bit_and low ioart_intvec)
          ∷ [],
    )

abbrev pub counted : Rte → Bool → Rte
counted e newstate = record e { acnt = if newstate then incr e.acnt else decr e.acnt }

-- `vioapic_set_pinstate`
unfoldable pub set_pinstate : Bool → Rte → Rte × List Signal
set_pinstate newstate e =
    let e' = counted e newstate in
    if equals e.acnt 0 && equals e'.acnt 1 then send_intr e' else (e', [])

abbrev pub fresh_entry : Rte
fresh_entry = record { reg = 0x0001000000010000; acnt = pos 0 }

-- A change of one pin, with its calls.
abbrev pub with_pin : Vioapic → ℕ → (Rte → Rte × List Signal) → Vioapic
with_pin v pin change =
    let (e, called) = change (get_or v.rtbl pin fresh_entry) in
    record v { rtbl = set v.rtbl pin e; signals = v.signals ++ called }

pub data IrqState : Type 0 where
  assert_irq : IrqState
  deassert_irq : IrqState
  pulse_irq : IrqState

-- `vioapic_set_irqstate`: `false` is EINVAL.
unfoldable pub set_irqstate : Vioapic → ℕ → IrqState → Vioapic × Bool
set_irqstate v irq assert_irq =
    if leb redir_entries irq then (v, false) else (with_pin v irq (set_pinstate true), true)
set_irqstate v irq deassert_irq =
    if leb redir_entries irq then (v, false) else (with_pin v irq (set_pinstate false), true)
set_irqstate v irq pulse_irq =
    if leb redir_entries irq
    then (v, false)
    else (with_pin (with_pin v irq (set_pinstate true)) irq (set_pinstate false), true)

-- `vlapic_reset_tmr` and `vlapic_set_tmr_level`, with destination, physical mode, delivery mode and
-- vector
pub data TmrCall : Type 0 where
  reset_tmr : TmrCall
  set_tmr_level : ℕ → Bool → ℕ → ℕ → TmrCall

-- the loop of `vioapic_update_tmr`: the level-triggered pins
unfoldable pub level_pins : List Rte → List TmrCall
level_pins [] = []
level_pins (e ∷ rest) =
    let low = e.reg % 2 ^ 32 in
    if any_of low ioart_trgrlvl
    then set_tmr_level (e.reg / 2 ^ 32 / 2 ^ 24) (not (any_of low ioart_destmod))
        (bit_and low ioart_delmod) (bit_and low ioart_intvec)
      ∷ level_pins rest
    else level_pins rest

pub update_tmr : Vioapic → List TmrCall
update_tmr v = reset_tmr ∷ level_pins v.rtbl

-- The register is one half of an entry.
abbrev pub is_redirection : ℕ → Bool
is_redirection regnum = leb ioapic_redtbl regnum && ltb regnum (ioapic_redtbl + redir_entries * 2)

abbrev pub is_upper : ℕ → Bool
is_upper regnum = (regnum - ioapic_redtbl) % 2 == 1

abbrev pub pin_of : ℕ → ℕ
pin_of regnum = (regnum - ioapic_redtbl) / 2

-- `vioapic_read`
unfoldable pub read : Vioapic → ℕ → ℕ
read v addr =
    let regnum = addr % 2 ^ 8 in
    let reg = (get_or v.rtbl (pin_of regnum) fresh_entry).reg in
    if regnum == 0x00 || regnum == 0x02
    then v.id
    else if regnum == 0x01
    then (redir_entries - 1) * 2 ^ 16 + 0x11
    else if is_redirection regnum
    then (if is_upper regnum then reg / 2 ^ 32 else reg % 2 ^ 32)
    else 0

-- the entry with one half written, less the read-only bits
unfoldable pub with_half : Bool → ℕ → ℕ → ℕ
with_half upper word reg =
    bit_or (bit_and reg (if upper then 0xffffffff else 0xffffffff00005000))
      (bit_and (if upper then word * 2 ^ 32 else word) 0xffffffffffffafff)

-- The entry can send: it is not masked, its last interrupt was answered, and the pin is asserted.
abbrev pub can_send : Rte → Bool
can_send e = not (any_of e.reg ioart_intmask) && not (any_of e.reg ioart_rem_irr) && positive e.acnt

-- The second part of `vioapic_write`
unfoldable pub write_entry : Bool → ℕ → Rte → Rte × List Signal
write_entry upper word e =
    let e' = record e { reg = with_half upper word e.reg } in
    let changed = any_of (bit_xor e.reg e'.reg) 0xfffffffffffedfff in
    let (sent, called) = if can_send e' then send_intr e' else (e', []) in
    (sent, (if changed then rendezvous ∷ [] else []) ++ called)

-- `vioapic_write`
unfoldable pub write : Vioapic → ℕ → ℕ → Vioapic
write v addr word =
    let regnum = addr % 2 ^ 8 in
    if regnum == 0x00
    then record v { id = bit_and word 0xff000000 }
    else if is_redirection regnum
    then with_pin v (pin_of regnum) (write_entry (is_upper regnum) word)
    else v

abbrev pub vioapic_base : ℕ
vioapic_base = 0xfec00000

-- `offset`, of a uint64_t
abbrev pub offset_of : ℕ → ℕ
offset_of gpa = (gpa + (2 ^ 64 - vioapic_base)) % 2 ^ 64

-- `vioapic_mmio_rw` for a read, and for a write
unfoldable pub mmio_read : Vioapic → ℕ → ℕ → ℕ
mmio_read v gpa size =
    let offset = offset_of gpa in
    if not (size == 4) || not (offset == 0x00) && not (offset == 0x10)
    then 0
    else if offset == 0x00
    then v.ioregsel
    else read v v.ioregsel

unfoldable pub mmio_write : Vioapic → ℕ → ℕ → ℕ → Vioapic
mmio_write v gpa size val =
    let offset = offset_of gpa in
    if not (size == 4) || not (offset == 0x00) && not (offset == 0x10)
    then v
    else if offset == 0x00
    then record v { ioregsel = val % 2 ^ 32 }
    else write v v.ioregsel (val % 2 ^ 32)

-- one pin in the loop of `vioapic_process_eoi`
unfoldable pub eoi_pin : ℕ → Rte → Rte × List Signal
eoi_pin vector e =
    let e' = record e { reg = bit_and e.reg 0xffffffffffffbfff } in
    if not (any_of e.reg ioart_rem_irr) || not (bit_and e.reg ioart_intvec == vector)
    then (e, [])
    else if positive e.acnt
    then send_intr e'
    else (e', [])

unfoldable pub eoi_pins : ℕ → List Rte → List Rte × List Signal
eoi_pins vector [] = ([], [])
eoi_pins vector (e ∷ rest) =
    let (e', called) = eoi_pin vector e in
    let (rest', more) = eoi_pins vector rest in (e' ∷ rest', called ++ more)

abbrev pub after_eoi : Vioapic → List Rte × List Signal → Vioapic
after_eoi v (rtbl, called) = record v { rtbl = rtbl; signals = v.signals ++ called }

-- `vioapic_process_eoi`: `none` if the assertion fails
unfoldable pub process_eoi : Vioapic → ℕ → Option Vioapic
process_eoi v vector = if ltb vector 256 then some (after_eoi v (eoi_pins vector v.rtbl)) else none

abbrev pub vioapic_init : Vioapic
vioapic_init = record {
  id = 0;
  ioregsel = 0;
  rtbl = replicate redir_entries fresh_entry;
  signals = [];
}
