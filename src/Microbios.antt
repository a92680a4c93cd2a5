-- ===== src/Microbios.antt =====
-- The host's half of the BIOS, bios/bhyve/microbios.c: its state, and what its handlers share.
pub mod Int13
pub mod Int15
pub mod Command
pub mod Handler
mod Tests
use bhyve_experiments.Base.{
  ℕ, zero, suc, ◌+◌, ◌-◌, ◌*◌, ◌/◌, ◌%◌, ◌^◌, Bool, true, false, List, [], ◌∷◌, ◌++◌, Option, none,
  some,
}
use bhyve_experiments.Base.{bit_and, bit_or, length, ltb, if◌then◌else◌}
use bhyve_experiments.Iov.{Memory, copy_in, copy_out}

abbrev pub eflags_cf : ℕ
eflags_cf = 0x0001

-- `struct inth_regs`, as far as the handlers read it
pub record Regs : Type 0 where
  pub eflags : ℕ
  pub eax : ℕ
  pub ecx : ℕ
  pub edx : ℕ
  pub ebx : ℕ
  pub esi : ℕ
  pub edi : ℕ
  pub ds : ℕ
  pub es : ℕ

-- the registers of the guest that `GETREG` and `SETREG` reach
pub record Vcpu : Type 0 where
  pub rax : ℕ
  pub rcx : ℕ
  pub rdx : ℕ
  pub rbx : ℕ
  pub rsi : ℕ
  pub rdi : ℕ
  pub seg_ds : ℕ
  pub seg_es : ℕ

-- A disk as `blockif_sectsz`, `blockif_size` and `blockif_chs` describe it.
pub record Disk : Type 0 where
  pub sectsz : ℕ
  pub size : ℕ
  pub c : ℕ
  pub h : ℕ
  pub s : ℕ

-- a call of `md_read` or `md_write`
pub record Request : Type 0 where
  pub is_write : Bool
  pub unit : ℕ
  pub lba : ℕ
  pub addr : ℕ
  pub sectors : ℕ

-- `struct e820_entry`
pub record E820Entry : Type 0 where
  pub addr : ℕ
  pub size : ℕ
  pub kind : ℕ

-- The part of `BDA` that is written
pub record Bda : Type 0 where
  pub com1 : ℕ
  pub mem_size : ℕ
  pub vid_mode : ℕ
  pub text_columns : ℕ
  pub disp_page : ℕ
  pub timer_counter : ℕ
  pub number_of_drives : ℕ
  pub text_rows_minus_one : ℕ

-- `BIOS_VARS`: what the ROM has saved for the host
pub record BiosVars : Type 0 where
  pub bios_config_tbl_offset : ℕ
  pub flags : ℕ
  pub saved_eax : ℕ
  pub saved_edx : ℕ

-- `bhyve_disk_io_cmd`
pub record DiskIoCmd : Type 0 where
  pub direction : ℕ
  pub disk : ℕ
  pub head : ℕ
  pub cylinder : ℕ
  pub sector : ℕ
  pub sectors : ℕ
  pub lba : ℕ
  pub addr : ℕ

-- `bhyve_disk_params`
pub record DiskParams : Type 0 where
  pub disk : ℕ
  pub heads : ℕ
  pub cylinders : ℕ
  pub sectors : ℕ
  pub disk_sectors : ℕ
  pub sector_size : ℕ

-- `bhyve_display_cmd`, with the arguments of the two sub-commands that are handled
pub record DisplayCmd : Type 0 where
  pub vidcmd : ℕ
  pub display_page : ℕ
  pub mode : ℕ

-- `struct bhyve_cmd`; each command reads its own view of the arguments.
pub record BhyveCmd : Type 0 where
  pub command : ℕ
  pub results : ℕ
  pub params : DiskParams
  pub io : DiskIoCmd
  pub display : DisplayCmd

-- The variables of the file, the guest and its memory. `mddisks` is filled from its start, and
-- `num_mddisks` is the length of the list. `requests` are the calls to the disks, oldest first.
pub record Bios : Type 0 where
  pub disks : List Disk
  pub e820_tbl : List E820Entry
  pub e820_block : List E820Entry
  pub a20_mode : ℕ
  pub bda : Bda
  pub vars : BiosVars
  pub guest_cmd : BhyveCmd
  pub vcpu : Vcpu
  pub memory : Memory
  pub requests : List Request

-- What lies outside the file: the size of the guest's low memory, whether a range of addresses is
-- backed by memory (`paddr_guest2host` does not give NULL), the disks (is the result of a call
-- negative, is it 0, with what `errno`, and what it leaves in the guest's memory), and
-- `vga_switchmode`.
pub record Env : Type 0 where
  pub lowmem : ℕ
  pub backed : ℕ → ℕ → Bool
  pub fails : Request → Bool
  pub empty : Request → Bool
  pub errno : Request → ℕ
  pub transfer : Request → Memory → Memory
  pub switchmode : ℕ → ℕ

-- `done` leaves the `switch` of a handler, `failed` goes to `eflags_err`, and `crashed` follows a
-- pointer that is NULL or outside of its array.
pub data Outcome : Type 0 where
  done : Bios → Regs → Outcome
  failed : Bios → Regs → Outcome
  crashed : Outcome

abbrev pub reg_word : ℕ → ℕ
reg_word x = x % 2 ^ 16

abbrev pub reg_lobyte : ℕ → ℕ
reg_lobyte x = x % 2 ^ 8

abbrev pub reg_hibyte : ℕ → ℕ
reg_hibyte x = x / 2 ^ 8 % 2 ^ 8

-- `CLEAR_CF` and `SET_CF` of a uint16_t
unfoldable pub clear_cf : Regs → Regs
clear_cf r = record r { eflags = bit_and r.eflags 0xfffe }

unfoldable pub set_cf : Regs → Regs
set_cf r = record r { eflags = bit_or r.eflags eflags_cf }

-- AL, and AH, set to 0
abbrev pub clear_al : Regs → Regs
clear_al r = record r { eax = bit_and r.eax 0xffffff00 }

abbrev pub clear_ah : Regs → Regs
clear_ah r = record r { eax = bit_and r.eax 0xffff00ff }

-- a segment and an offset
abbrev pub linear : ℕ → ℕ → ℕ
linear seg off = (seg * 16 + reg_word off) % 2 ^ 32

-- the number in little-endian bytes, and its bytes
unfoldable pub le_value : List ℕ → ℕ
le_value [] = 0
le_value (b ∷ bytes) = b + 256 * le_value bytes

unfoldable pub le_bytes : ℕ → ℕ → List ℕ
le_bytes zero v = []
le_bytes (suc n) v = v % 256 ∷ le_bytes n (v / 256)

-- a field of `n` bytes of a structure in the guest's memory
abbrev pub load : Memory → ℕ → ℕ → ℕ
load mem a n = le_value (copy_in mem a n)

abbrev pub put : Memory → ℕ → ℕ → ℕ → Memory
put mem a n v = copy_out mem a (le_bytes n v)

unfoldable pub disk_at : List Disk → ℕ → Option Disk
disk_at [] n = none
disk_at (d ∷ ds) zero = some d
disk_at (d ∷ ds) (suc n) = disk_at ds n

-- a call to a disk: the request is made, and the memory is what the disk leaves
abbrev pub perform : Env → Bios → Request → Bios
perform env m q = record m { requests = m.requests ++ q ∷ []; memory = env.transfer q m.memory }

-- The sector of a cylinder, a head and a sector, in uint32_t: `((cylinder * h + head) * s) +
-- sector - 1`
unfoldable pub chs_lba : Disk → ℕ → ℕ → ℕ → ℕ
chs_lba d cylinder head sector = ((cylinder * d.h + head) * d.s + sector + (2 ^ 32 - 1)) % 2 ^ 32
