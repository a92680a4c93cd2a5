-- ===== src/Lib.antt =====
-- bhyve with a BIOS of its own: models of the devices that the hypervisor emulates.
--
-- The program has two halves. bios/bhyve is a process that runs a guest: it decodes the accesses
-- of the guest to I/O ports and memory and hands them to emulated devices. bios/vmm is the kernel
-- half: it runs the virtual CPUs and holds the interrupt controllers and timers. A device raises
-- an IRQ line, the interrupt controllers choose a vector, and the guest answers by the ports.
--
-- Uart (bios/bhyve/uart_emul.c): the 16550 serial port. `Uart.Softc` is `struct uart_softc`, with
--   what the tty has to give and was given in place of its file descriptors; `Uart.Fifo` has the
--   `rxfifo_` functions, `Uart.Modem` the modem status, `Uart.Device` `uart_init`, `uart_read`,
--   `uart_write` and `uart_drain`. The callbacks that raise and lower the interrupt line are kept
--   as the value that they set last. The loop that flushes the tty takes fuel: one round for
--   each byte, where 32 bytes go in a round.
-- Vatpic (bios/vmm/io/vatpic.c): the two 8259 interrupt controllers. `Vatpic.Chip` is one of them
--   (`struct atpic`), `Vatpic.Pair` both with their edge/level registers (`struct vatpic`), and
--   `Vatpic.Ports` the handlers of the I/O ports. The calls to the local APIC and the I/O APIC
--   are a list of signals. `vatpic_notify_intr` and `vatpic_set_pinstate` call one another: the
--   model takes fuel, of which two rounds are enough from every state.
--
-- Iov (bios/bhyve/iov.c): scatter/gather lists. An array of `struct iovec` is a list of
--   `Iov.Iovec`, memory a function from addresses to bytes, and a failing `realloc` an argument.
--
-- PciIrq (bios/bhyve/pci_irq.c): the router of PCI interrupt pins to IRQs. `PciIrq.Router` holds
--   the variables of the file and the calls that it makes outside; an `assert` that fails is
--   `none`, the answer of `lpc_bootrom` an argument.
--
-- Ps2kbd (bios/bhyve/ps2kbd.c): the FIFO of the PS/2 keyboard and its commands, without the
--   translation of key symbols to scan codes.
--
-- Microbios (bios/bhyve/microbios.c): the host's half of the BIOS. `Microbios.Bios` holds the
--   variables of the file, the registers and the memory of the guest; `Microbios.Int13` and
--   `Microbios.Int15` are the software interrupts, `Microbios.Command` the commands that the ROM
--   sends, and `Microbios.Handler` the port by which both arrive. Disks, the backing of addresses
--   and the switch of the video mode are in `Microbios.Env`. A pointer that is NULL or outside of
--   its array is an outcome of its own. The variables of the BIOS at F5000h are fields apart from
--   the memory of the guest: a buffer of the guest over them is not modelled.
--
-- Vioapic (bios/vmm/io/vioapic.c): the I/O APIC. `Vioapic.Vioapic` is `struct vioapic`; calls of
--   the local APIC and the rendezvous of the virtual CPUs are a list of signals.
--
-- Virtio (bios/bhyve/virtio.c, bios/bhyve/virtio.h): what all virtio devices share.
--   `Virtio.Queue` has the queues with the memory that device and driver share, and
--   `Virtio.Device` the common registers, where the functions of a device are in its
--   `Virtio.Device.Consts`. The walk along a chain takes fuel: each round passes a descriptor, and
--   at most 512 are accepted, so that 513 rounds are enough. The search for a register takes five
--   rounds.
--
-- Mmio (bios/bhyve/mem.c): which handler takes an access to memory-mapped I/O. The macros of
--   sys/tree.h are the operations of `Mmio.Tree`, with what the code relies on in `Mmio.Trees.Laws`;
--   the handlers and `malloc` are arguments.
--
-- Inout (bios/bhyve/inout.c): the handlers of the I/O ports. `Inout.Handlers` is the table
--   `inout_handlers`, a function of the port; what an access reaches outside is in `Inout.Outside`.
--   The loop of a string instruction makes at most 16 rounds, and the model as many.
--
-- Vlapic (bios/vmm/io/vlapic.c, bios/vmm/vmm_lapic.c): the local APICs. `Vlapic.Apic` is `struct
--   vlapic` with its page of registers, and how it takes, delivers and ends interrupts;
--   `Vlapic.Access` its other registers, `Vlapic.Start` its reset. `Vlapic.Machine` has the APICs of
--   all virtual CPUs, with `vlapic_calcdest` and `vlapic_deliver_intr`, `Vlapic.Command` the
--   interrupt command and the accesses, and `Vlapic.System` all calls in one. What goes to the
--   virtual CPUs, the I/O APIC and the timer's callout is a list of effects. The timer has its
--   frequency and its count, the current count is an argument. The functions of a processor that
--   `struct vlapic_ops` may have are taken as absent; `vm_apicid2vcpuid` is the identity.
--
-- Vatpit (bios/vmm/io/vatpit.c): the programmable interval timer. `Vatpit.Channel` is `struct
--   channel` with its counts and latches, `Vatpit.Ports` the handlers of the ports and of the
--   callout. The time of the host is counted in ticks of the timer and is an argument.
--
-- Registers are natural numbers with the masks and bit operations of the source; what is stored
-- in a uint8_t is below 256 by the invariants. Locks are left out: each function is one step.
-- Allocations are taken to succeed where the source does not check them (the copy of the list in
-- `buf_to_iov`), and tables of indirect descriptors to lie in the memory of the guest.
-- The bits of the device registers come from the system's headers and are written out as named
-- constants. Snapshots, the opening of tty devices, the time of the host and the other parts of
-- the hypervisor (virtual CPUs, PCI configuration and the devices on it, disks, network, HPET, RTC)
-- are not modelled.
pub mod Base
pub mod Inout
pub mod Iov
pub mod Microbios
pub mod Mmio
pub mod PciIrq
pub mod Ps2kbd
pub mod Uart
pub mod Vatpic
pub mod Vatpit
pub mod Vioapic
pub mod Virtio
pub mod Vlapic
