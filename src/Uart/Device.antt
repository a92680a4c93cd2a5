-- ===== src/Uart/Device.antt =====
-- The registers, interrupts and tty side of the serial port: `uart_init`, `uart_read`,
-- `uart_write`, `uart_drain` of bios/bhyve/uart_emul.c, and what they call.
pub mod Valid
pub mod Data
pub mod Status
pub mod Run
mod Tests
use bhyve_experiments.Base.{ℕ, ◌+◌, ◌-◌, ◌/◌, ◌%◌, ◌^◌, Bool, true, false, not, ◌&&◌, ◌++◌}
use bhyve_experiments.Base.{Option, none, some, List, [], ◌∷◌, bit_and, bit_or, bit_xor}
use bhyve_experiments.Base.{ltb, ◌==◌, if◌then◌else◌, replicate}
use bhyve_experiments.Base.Bits.{any_of, clear_mask, raise_if}
use bhyve_experiments.Uart.Softc.{Fifo, Softc, fifosz, ier_erxrdy, ier_etxrdy, ier_erls, ier_emsc}
use bhyve_experiments.Uart.Softc.{iir_mlsc, iir_nopend, iir_txrdy, iir_rls, iir_rxtout}
use bhyve_experiments.Uart.Softc.{iir_fifo_mask, fcr_enable, fcr_rcv_rst, fcr_dma, fcr_rx_mask}
use bhyve_experiments.Uart.Softc.{lcr_dlab, mcr_dtr, mcr_rts, mcr_out1, mcr_out2, mcr_loopback}
use bhyve_experiments.Uart.Softc.{lsr_rxrdy, lsr_oe, lsr_thre, lsr_temt, msr_dcts, msr_ddsr}
use bhyve_experiments.Uart.Softc.{msr_teri, msr_ddcd, msr_cts, msr_dsr, msr_ri, msr_dcd}
use bhyve_experiments.Uart.Softc.{msr_delta_mask}
use bhyve_experiments.Uart.Modem.{modem_status, next_msr}
use bhyve_experiments.Uart.Fifo.{
  rxfifo_reset, rxfifo_available, rxfifo_putchar, rxfifo_getchar, rxfifo_numchars,
}

pub intr_reason : Softc → ℕ
intr_reason sc =
    if any_of sc.lsr lsr_oe && any_of sc.ier ier_erls
    then iir_rls
    else if ltb 0 (rxfifo_numchars sc) && any_of sc.ier ier_erxrdy
    then iir_rxtout
    else if sc.thre_int_pending && any_of sc.ier ier_etxrdy
    then iir_txrdy
    else if any_of sc.msr msr_delta_mask && any_of sc.ier ier_emsc
    then iir_mlsc
    else iir_nopend

-- One callback or the other is called.
pub toggle_intr : Softc → Softc
toggle_intr sc = record sc { intr = not (intr_reason sc == iir_nopend) }

-- `uart_reset`: the divisor is that of 9600 baud, `dlh` takes a uint16_t shifted by 16.
pub reset : Softc → Softc
reset sc =
    let divisor = 1843200 / 9600 / 16 % 2 ^ 16 in
    let latched = record sc {
      dll = divisor % 2 ^ 8;
      dlh = divisor / 2 ^ 16 % 2 ^ 8;
      msr = modem_status sc.mcr;
    } in
    rxfifo_reset latched 1

-- `uart_init`, on the zeroed softc of `calloc`; no callback has been called yet.
pub init : Softc
init = reset zeroed
  where
    zeroed : Softc
    zeroed = record {
      ier = 0;
      lcr = 0;
      mcr = 0;
      lsr = 0;
      msr = 0;
      fcr = 0;
      scr = 0;
      dll = 0;
      dlh = 0;
      rxfifo = record { buf = replicate fifosz 0; rindex = 0; windex = 0; num = 0; size = 0 };
      thre_int_pending = false;
      opened = false;
      input = [];
      sent = [];
      mev = false;
      intr = false;
    }

-- `uart_opentty`, after a backend has set `tty.opened`; the tty has `input` to give.
pub open_tty : Softc → List ℕ → Softc
open_tty sc input = record sc { opened = true; input = input; mev = true }

-- `while (rxfifo_available(sc) && (ch = ttyread(&sc->tty)) != -1) rxfifo_putchar(sc, ch);` over
-- what the tty has: the state when the loop ends, with the input that is left.
fill : Softc → List ℕ → Softc
fill sc [] = record sc { input = [] }
fill sc (ch ∷ input) = elim (rxfifo_available sc) [
  | true ↦ fill (rxfifo_putchar sc ch).0 input
  | false ↦ record sc { input = ch ∷ input }
]

-- `ttyread` with its result dropped.
skip : List ℕ → List ℕ
skip [] = []
skip (ch ∷ input) = input

pub drain : Softc → Softc
drain sc =
    if any_of sc.mcr mcr_loopback
    then record sc { input = skip sc.input }
    else toggle_intr (fill sc sc.input)

-- In loopback a byte that finds the FIFO full sets the overrun bit.
loop_data : Softc → ℕ → Softc
loop_data sc value =
    let (sc', stored) = rxfifo_putchar sc value in
    if stored then sc' else record sc' { lsr = bit_or sc'.lsr lsr_oe }

-- `case REG_DATA` of `uart_write`
write_data : Softc → ℕ → Softc
unfolding loop_data
write_data sc value = record sent { thre_int_pending = true }
  where
    sent : Softc
    sent =
        if any_of sc.mcr mcr_loopback
        then loop_data sc value
        else if sc.opened
        then record sc { sent = sc.sent ++ value ∷ [] }
        else sc

-- `case REG_IER`
write_ier : Softc → ℕ → Softc
write_ier sc value = record sc {
  thre_int_pending =
      if not (any_of sc.ier ier_etxrdy) && any_of value ier_etxrdy
      then true
      else sc.thre_int_pending;
  ier = bit_and value 0x0f;
}

-- Moving between FIFO and 16450 mode resets the FIFO.
switch_mode : Softc → ℕ → Softc
switch_mode sc value =
    if not (bit_xor (bit_and sc.fcr fcr_enable) (bit_and value fcr_enable) == 0)
    then rxfifo_reset sc (if any_of value fcr_enable then fifosz else 1)
    else sc

-- `case REG_FCR`
write_fcr : Softc → ℕ → Softc
write_fcr sc value =
    let switched = switch_mode sc value in
    let emptied = if any_of value fcr_rcv_rst then rxfifo_reset switched fifosz else switched in
    if any_of value fcr_enable
    then record emptied { fcr = bit_and value (bit_or fcr_enable (bit_or fcr_dma fcr_rx_mask)) }
    else record switched { fcr = 0 }

-- `case REG_MCR`
write_mcr : Softc → ℕ → Softc
write_mcr sc value =
    let mcr = bit_and value 0x1f in
    record sc { mcr = mcr; msr = next_msr sc.msr (modem_status mcr) }

-- The `switch` of `uart_write`; LSR, MSR and unknown offsets are ignored.
write_register : Softc → ℕ → ℕ → Softc
write_register sc offset value =
    if offset == 0
    then write_data sc value
    else if offset == 1
    then write_ier sc value
    else if offset == 2
    then write_fcr sc value
    else if offset == 3
    then record sc { lcr = value }
    else if offset == 4
    then write_mcr sc value
    else if offset == 7
    then record sc { scr = value }
    else sc

-- `uart_write`, with the divisor latch at offsets 0 and 1 while LCR_DLAB is set
pub write : Softc → ℕ → ℕ → Softc
unfolding write_register
write sc offset value = toggle_intr (
    if any_of sc.lcr lcr_dlab && offset == 0
    then record sc { dll = value }
    else if any_of sc.lcr lcr_dlab && offset == 1
    then record sc { dlh = value }
    else write_register sc offset value)

-- `case REG_DATA` of `uart_read`: -1 becomes 0xff in a uint8_t
read_data : Softc → Softc × ℕ
read_data sc = let (sc', ch) = rxfifo_getchar sc in (sc', elim ch [ none ↦ 0xff | some c ↦ c ])

-- `case REG_IIR`
read_iir : Softc → Softc × ℕ
read_iir sc = (if reason == iir_txrdy then record sc { thre_int_pending = false } else sc, iir)
  where
    reason : ℕ
    reason = intr_reason sc

    iir : ℕ
    iir = bit_or (if any_of sc.fcr fcr_enable then iir_fifo_mask else 0) reason

-- `case REG_LSR`
read_lsr : Softc → Softc × ℕ
read_lsr sc = (record sc { lsr = clear_mask lsr lsr_oe }, lsr)
  where
    ready : ℕ
    ready = bit_or sc.lsr (bit_or lsr_temt lsr_thre)

    lsr : ℕ
    lsr = if ltb 0 (rxfifo_numchars sc) then bit_or ready lsr_rxrdy else clear_mask ready lsr_rxrdy

-- `case REG_MSR`
read_msr : Softc → Softc × ℕ
read_msr sc = (record sc { msr = clear_mask sc.msr msr_delta_mask }, sc.msr)

-- The `switch` of `uart_read`
read_register : Softc → ℕ → Softc × ℕ
read_register sc offset =
    if offset == 0
    then read_data sc
    else if offset == 1
    then (sc, sc.ier)
    else if offset == 2
    then read_iir sc
    else if offset == 3
    then (sc, sc.lcr)
    else if offset == 4
    then (sc, sc.mcr)
    else if offset == 5
    then read_lsr sc
    else if offset == 6
    then read_msr sc
    else if offset == 7
    then (sc, sc.scr)
    else (sc, 0xff)

-- `uart_read`
pub read : Softc → ℕ → Softc × ℕ
unfolding read_register
read sc offset = (toggle_intr result.0, result.1)
  where
    result : Softc × ℕ
    result =
        if any_of sc.lcr lcr_dlab && offset == 0
        then (sc, sc.dll)
        else if any_of sc.lcr lcr_dlab && offset == 1
        then (sc, sc.dlh)
        else read_register sc offset
