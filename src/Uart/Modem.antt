-- ===== src/Uart/Modem.antt =====
-- The modem status register of the serial port: `modem_status` and the delta bits that a write of
-- MCR raises, bios/bhyve/uart_emul.c.
use bhyve_experiments.Base.{ℕ, Bool, not, ◌&&◌, bit_and, bit_or, bit_xor, ◌==◌, if◌then◌else◌}
use bhyve_experiments.Base.Bits.{any_of, raise_if}
use bhyve_experiments.Uart.Softc.{mcr_dtr, mcr_rts, mcr_out1, mcr_out2, mcr_loopback}
use bhyve_experiments.Uart.Softc.{msr_dcts, msr_ddsr, msr_teri, msr_ddcd, msr_cts, msr_dsr}
use bhyve_experiments.Uart.Softc.{msr_ri, msr_dcd, msr_delta_mask}

-- In loopback mode bits of MCR are reflected into MSR; else DCD and DSR are always set.
unfoldable pub modem_status : ℕ → ℕ
modem_status mcr = if any_of mcr mcr_loopback then reflected else bit_or msr_dcd msr_dsr
  where
    reflected : ℕ
    reflected =
        let cts = raise_if (any_of mcr mcr_rts) 0 msr_cts in
        let dsr = raise_if (any_of mcr mcr_dtr) cts msr_dsr in
        let ri = raise_if (any_of mcr mcr_out1) dsr msr_ri in
        raise_if (any_of mcr mcr_out2) ri msr_dcd

-- MSR after `modem_status` has gone from the upper half of `old` to `now`
unfoldable pub next_msr : ℕ → ℕ → ℕ
next_msr old now =
    let cts = raise_if (differ msr_cts old) old msr_dcts in
    let dsr = raise_if (differ msr_dsr cts) cts msr_ddsr in
    let dcd = raise_if (differ msr_dcd dsr) dsr msr_ddcd in
    let ri = raise_if (any_of dcd msr_ri && not (any_of now msr_ri)) dcd msr_teri in
    bit_or (bit_and ri msr_delta_mask) now
  where
    differ : ℕ → ℕ → Bool
    differ m msr = not (bit_xor (bit_and now m) (bit_and msr m) == 0)
