-- ===== src/Uart.antt =====
-- The 16550 serial port, bios/bhyve/uart_emul.c.
pub mod Softc
pub mod Modem
pub mod Fifo
pub mod Device
