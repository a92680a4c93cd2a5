-- ===== src/Uart/Device/Status.antt =====
-- The status registers of the serial port as the guest reads them.
use bhyve_experiments.Base.{ℕ, ◌<◌, Bool, true, false, not, ◌&&◌, ◌||◌, ◌≡◌, refl}
use bhyve_experiments.Base.{
  arith, ltb, ◌==◌, ==_iff, if◌then◌else◌, same, same_eq, and_parts, ltb→lt,
}
use bhyve_experiments.Base.{bit_and, bit_or, length, ◌≢◌, Bool-cases, inl, inr}
use bhyve_experiments.Base.Bits.{any_of, clear_mask, raise_if, all_below, all_below_at}
use bhyve_experiments.Uart.Softc.{Softc, lcr_dlab, lsr_oe, lsr_rxrdy, lsr_thre, lsr_temt}
use bhyve_experiments.Uart.Softc.{iir_txrdy, iir_fifo_mask, fcr_enable, msr_delta_mask}
use bhyve_experiments.Uart.Fifo.{rxfifo_numchars}
use bhyve_experiments.Uart.Fifo.Queue.{queue, length-queue}
use bhyve_experiments.Uart.Softc.{msr_dcts, msr_ddsr, msr_teri, msr_ddcd, msr_cts, msr_dsr, msr_ri}
use bhyve_experiments.Uart.Softc.{msr_dcd}
use bhyve_experiments.Uart.Modem.{modem_status, next_msr}
use bhyve_experiments.Uart.Device.{
  read, read_register, read_iir, read_lsr, read_msr, write, write_register, write_mcr, toggle_intr,
  intr_reason,
}
use bhyve_experiments.Uart.Device.Valid.{IsValid}

-- the byte that a read of LSR returns, and what LSR then holds
abbrev lsr_laws : ℕ → Bool → Bool
lsr_laws lsr received =
    let ready = bit_or lsr (bit_or lsr_temt lsr_thre) in
    let value = if received then bit_or ready lsr_rxrdy else clear_mask ready lsr_rxrdy in
    same (any_of value lsr_rxrdy) received
    && (same (any_of value lsr_oe) (any_of lsr lsr_oe)
        && (any_of value lsr_thre && not (any_of (clear_mask value lsr_oe) lsr_oe)))

lsr_table : all_below 256 (λ lsr. lsr_laws lsr true && lsr_laws lsr false) ≡ true
unfolding all_below any_of clear_mask
lsr_table = refl

lsr_laws_hold : (lsr : ℕ) (received : Bool) → lsr < 256 → lsr_laws lsr received ≡ true
lsr_laws_hold lsr true h = (and_parts _ _ (all_below_at 256 lsr _ lsr_table h)).0
lsr_laws_hold lsr false h = (and_parts _ _ (all_below_at 256 lsr _ lsr_table h)).1

-- A read of the line status register tells whether a byte is waiting, that the transmitter is
-- ready, and whether there was an overrun since the last read; the overrun is forgotten.
pub read_lsr_tells :
    (sc : Softc)
    → sc.lsr < 256
    → let (sc', value) = read sc 5 in
      (any_of value lsr_rxrdy ≡ ltb 0 (length (queue sc.rxfifo)))
      × (any_of value lsr_oe ≡ any_of sc.lsr lsr_oe)
      × (any_of value lsr_thre ≡ true)
      × (any_of sc'.lsr lsr_oe ≡ false)
unfolding read read_register read_lsr rxfifo_numchars toggle_intr
read_lsr_tells sc h =
    ground (arith, length-queue sc.rxfifo, lsr_laws_hold sc.lsr (ltb 0 sc.rxfifo.num) h)

-- A read of the interrupt identification register returns the pending reason with the FIFO bits,
-- and acknowledges the transmitter interrupt when that is the reason. For any other reason the
-- port is left as it was.
pub read_iir_acknowledges :
    (sc : Softc)
    → IsValid sc
    → let (sc', value) = read sc 2 in
      (value ≡ bit_or (if any_of sc.fcr fcr_enable then iir_fifo_mask else 0) (intr_reason sc))
      × (intr_reason sc ≡ iir_txrdy → sc'.thre_int_pending ≡ false)
      × (intr_reason sc ≢ iir_txrdy → sc' ≡ sc)
unfolding read read_register read_iir toggle_intr
read_iir_acknowledges sc v = ground arith

-- what a write of MCR leaves in MSR, bit by bit
abbrev changed : ℕ → ℕ → ℕ → Bool
changed old new line = not (same (any_of old line) (any_of new line))

abbrev msr_laws : ℕ → ℕ → Bool
msr_laws old mcr =
    let now = modem_status mcr in
    let new = next_msr old now in
    (bit_and new 0xf0 == now)
    && (same (any_of new msr_dcts) (any_of old msr_dcts || changed old new msr_cts)
        && (same (any_of new msr_ddsr) (any_of old msr_ddsr || changed old new msr_dsr)
            && (same (any_of new msr_ddcd) (any_of old msr_ddcd || changed old new msr_dcd)
                && same (any_of new msr_teri)
                    (any_of old msr_teri || (any_of old msr_ri && not (any_of new msr_ri))))))

msr_table : all_below 256 (λ old. all_below 32 (λ mcr. msr_laws old mcr)) ≡ true
unfolding all_below any_of raise_if next_msr modem_status
msr_table = refl

masked_table : all_below 256 (λ x. ltb (bit_and x 0x1f) 32) ≡ true
unfolding all_below
masked_table = refl

msr_laws_hold : (old value : ℕ) → old < 256 → value < 256 → msr_laws old (bit_and value 0x1f) ≡ true
msr_laws_hold old value ho hv =
    all_below_at 32 (bit_and value 0x1f) _ (all_below_at 256 old _ msr_table ho)
      (ltb→lt _ _ (all_below_at 256 value _ masked_table hv))

-- How MSR follows the lines: the four of them in the upper half, and the delta bits, that of RI
-- for its fall; delta bits that were up stay up.
pub record Tracks (old new mcr : ℕ) : Type 0 where
  pub lines : bit_and new 0xf0 ≡ modem_status mcr
  pub dcts : any_of new msr_dcts ≡ (any_of old msr_dcts || changed old new msr_cts)
  pub ddsr : any_of new msr_ddsr ≡ (any_of old msr_ddsr || changed old new msr_dsr)
  pub ddcd : any_of new msr_ddcd ≡ (any_of old msr_ddcd || changed old new msr_dcd)
  pub teri :
      any_of new msr_teri ≡ (any_of old msr_teri || (any_of old msr_ri && not (any_of new msr_ri)))

next_msr-Tracks :
    (old mcr : ℕ) → msr_laws old mcr ≡ true → Tracks old (next_msr old (modem_status mcr)) mcr
next_msr-Tracks old mcr h =
    let a = and_parts _ _ h in
    let b = and_parts _ _ a.1 in
    let c = and_parts _ _ b.1 in
    let d = and_parts _ _ c.1 in
    record {
      lines = (==_iff _ _).0 a.0;
      dcts = same_eq _ _ b.0;
      ddsr = same_eq _ _ c.0;
      ddcd = same_eq _ _ d.0;
      teri = same_eq _ _ d.1;
    }

write-mcr : (sc : Softc) (value : ℕ) → write sc 4 value ≡ toggle_intr (write_mcr sc value)
unfolding write write_register
write-mcr sc value = elim (Bool-cases (any_of sc.lcr lcr_dlab)) [
  | inl e ↦ rw (e, write)
  | inr e ↦ rw (e, write)
]

-- A write of the modem control register keeps its low five bits, sets the four status lines from
-- them, and raises the delta bits of CTS, DSR and DCD for a change of the line, and that of RI for
-- its fall. Delta bits that were up stay up.
pub write_mcr-Tracks :
    (sc : Softc) (value : ℕ)
    → sc.msr < 256
    → value < 256
    → ((write sc 4 value).mcr ≡ bit_and value 0x1f)
      × Tracks sc.msr (write sc 4 value).msr (bit_and value 0x1f)
unfolding write_mcr toggle_intr
write_mcr-Tracks sc value ho hv =
    rw (write-mcr sc value) (refl, next_msr-Tracks _ _ (msr_laws_hold sc.msr value ho hv))

delta_table :
    all_below 256 (λ x.
      not (any_of (clear_mask x msr_delta_mask) msr_delta_mask)
      && (bit_and (clear_mask x msr_delta_mask) 0xf0 == bit_and x 0xf0))
    ≡ true
unfolding all_below any_of clear_mask
delta_table = refl

-- A read of the modem status register returns it, and clears the delta bits and nothing else in
-- it.
pub read_msr_clears :
    (sc : Softc)
    → sc.msr < 256
    → let (sc', value) = read sc 6 in
      (value ≡ sc.msr)
      × (any_of sc'.msr msr_delta_mask ≡ false)
      × (bit_and sc'.msr 0xf0 ≡ bit_and sc.msr 0xf0)
unfolding read read_register read_msr toggle_intr
read_msr_clears sc h = ground (arith, all_below_at 256 sc.msr _ delta_table h)
