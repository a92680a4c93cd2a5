-- ===== src/Uart/Softc.antt =====
-- The state of the serial port, `struct uart_softc` of bios/bhyve/uart_emul.c, and the 16550
-- register bits that the file uses (the values of the 16550 register layout).
use bhyve_experiments.Base.{ℕ, Bool, List}

-- `struct fifo`
pub record Fifo : Type 0 where
  pub buf : List ℕ
  pub rindex : ℕ
  pub windex : ℕ
  pub num : ℕ
  pub size : ℕ

-- `struct uart_softc`. `opened` is `tty.opened`; `input` is what the tty has for `read`, `sent`
-- what went out by `write`; `mev` tells whether the mevent of the tty is enabled; `intr` tells
-- which of the two interrupt callbacks was called last.
pub record Softc : Type 0 where
  pub ier : ℕ
  pub lcr : ℕ
  pub mcr : ℕ
  pub lsr : ℕ
  pub msr : ℕ
  pub fcr : ℕ
  pub scr : ℕ
  pub dll : ℕ
  pub dlh : ℕ
  pub rxfifo : Fifo
  pub thre_int_pending : Bool
  pub opened : Bool
  pub input : List ℕ
  pub sent : List ℕ
  pub mev : Bool
  pub intr : Bool

abbrev pub fifosz : ℕ
fifosz = 16

-- IER_*
abbrev pub ier_erxrdy : ℕ
ier_erxrdy = 0x1

abbrev pub ier_etxrdy : ℕ
ier_etxrdy = 0x2

abbrev pub ier_erls : ℕ
ier_erls = 0x4

abbrev pub ier_emsc : ℕ
ier_emsc = 0x8

-- IIR_*
abbrev pub iir_mlsc : ℕ
iir_mlsc = 0x0

abbrev pub iir_nopend : ℕ
iir_nopend = 0x1

abbrev pub iir_txrdy : ℕ
iir_txrdy = 0x2

abbrev pub iir_rls : ℕ
iir_rls = 0x6

abbrev pub iir_rxtout : ℕ
iir_rxtout = 0xc

abbrev pub iir_fifo_mask : ℕ
iir_fifo_mask = 0xc0

-- FCR_*
abbrev pub fcr_enable : ℕ
fcr_enable = 0x1

abbrev pub fcr_rcv_rst : ℕ
fcr_rcv_rst = 0x2

abbrev pub fcr_dma : ℕ
fcr_dma = 0x8

abbrev pub fcr_rx_mask : ℕ
fcr_rx_mask = 0xc0

-- LCR_DLAB
abbrev pub lcr_dlab : ℕ
lcr_dlab = 0x80

-- MCR_*
abbrev pub mcr_dtr : ℕ
mcr_dtr = 0x1

abbrev pub mcr_rts : ℕ
mcr_rts = 0x2

abbrev pub mcr_out1 : ℕ
mcr_out1 = 0x4

abbrev pub mcr_out2 : ℕ
mcr_out2 = 0x8

abbrev pub mcr_loopback : ℕ
mcr_loopback = 0x10

-- LSR_*
abbrev pub lsr_rxrdy : ℕ
lsr_rxrdy = 0x1

abbrev pub lsr_oe : ℕ
lsr_oe = 0x2

abbrev pub lsr_thre : ℕ
lsr_thre = 0x20

abbrev pub lsr_temt : ℕ
lsr_temt = 0x40

-- MSR_*
abbrev pub msr_dcts : ℕ
msr_dcts = 0x1

abbrev pub msr_ddsr : ℕ
msr_ddsr = 0x2

abbrev pub msr_teri : ℕ
msr_teri = 0x4

abbrev pub msr_ddcd : ℕ
msr_ddcd = 0x8

abbrev pub msr_cts : ℕ
msr_cts = 0x10

abbrev pub msr_dsr : ℕ
msr_dsr = 0x20

abbrev pub msr_ri : ℕ
msr_ri = 0x40

abbrev pub msr_dcd : ℕ
msr_dcd = 0x80

abbrev pub msr_delta_mask : ℕ
msr_delta_mask = 0x0f
