-- ===== src/Microbios/Command.antt =====
-- The commands that the ROM sends by the port, and the set-up of the data it shares with the host:
-- the `microbios_` functions of bios/bhyve/microbios.c.
pub mod Setup
pub mod Disks
use bhyve_experiments.Base.{
  ℕ, zero, suc, ◌+◌, ◌-◌, ◌*◌, ◌/◌, ◌%◌, ◌^◌, Bool, true, false, not, ◌&&◌, ◌||◌, List, [], ◌∷◌,
  ◌++◌,
}
use bhyve_experiments.Base.{
  Option, none, some, bit_and, bit_or, length, ltb, leb, ◌==◌, if◌then◌else◌,
}
use bhyve_experiments.Microbios.{
  Bios, Env, Disk, E820Entry, Request, BhyveCmd, DiskIoCmd, DiskParams, Bda, DisplayCmd, disk_at,
  perform, chs_lba,
}

-- How a command ends: `ran`, with the value returned; `exited` by `exit(0)`; `stuck` where a
-- pointer is NULL, outside of its array, or an `assert` fails.
pub data Ran : Type 0 where
  ran : Bios → ℕ → Ran
  exited : Ran
  stuck : Ran

abbrev pub einval : ℕ
einval = 22

-- the four entries of the memory map
abbrev pub e820_map : ℕ → List E820Entry
e820_map memsize =
    record { addr = 0x0; size = 0x500; kind = 0x2 }
    ∷ record { addr = 0x500; size = 0xa0000 - 0x500; kind = 0x1 }
    ∷ record { addr = 0xa0000; size = 0x100000 - 0xa0000; kind = 0x2 }
    ∷ record { addr = 0x100000; size = (memsize + (2 ^ 32 - 0x100000)) % 2 ^ 32; kind = 0x1 }
    ∷ []

-- The table is copied from the block in the guest's memory once, at the first call.
unfoldable pub setup_shared : Env → Bios → Bios
setup_shared env m =
    let entries = e820_map (env.lowmem % 2 ^ 32) in
    record m {
      bda = record m.bda {
        number_of_drives = length m.disks % 2 ^ 8;
        com1 = 0x3f8;
        mem_size = 640;
        text_rows_minus_one = 24;
        text_columns = 80;
        vid_mode = 3;
      };
      e820_block = entries;
      e820_tbl = if length m.e820_tbl == 0 then entries else m.e820_tbl;
    }

-- The search for a free entry of `mddisks` ends at the first one behind the disks.
unfoldable pub register_disk : Bios → Disk → Bios
register_disk m d = if ltb (length m.disks) 32 then record m { disks = m.disks ++ d ∷ [] } else m

-- `guest_cmd->results`
abbrev pub with_results : Bios → ℕ → Bios
with_results m code = record m { guest_cmd = record m.guest_cmd { results = code } }

-- `microbios_disk_params`, after the check of the unit
unfoldable pub tell_params : Bios → Option Disk → Option Bios
tell_params m none = none
tell_params m (some d) = some (record m {
  guest_cmd = record m.guest_cmd {
    results = 0;
    params = record {
      disk = length m.disks;
      heads = d.h;
      cylinders = d.c;
      sectors = d.s;
      disk_sectors = d.size / d.sectsz;
      sector_size = d.sectsz;
    };
  };
})

unfoldable pub disk_params : Bios → Option Bios
disk_params m =
    let unit = m.guest_cmd.params.disk in
    if ltb unit 0x80 || leb (length m.disks) (unit % 2 ^ 7)
    then some (with_results m einval)
    else tell_params m (disk_at m.disks (unit % 2 ^ 7))

-- `~0ULL`: the sector is given by cylinder, head and sector.
abbrev pub no_lba : ℕ
no_lba = 2 ^ 64 - 1

-- the request of a command: the unit is `disk & ~0x80`
abbrev pub io_request : DiskIoCmd → Disk → Request
io_request cmd d = record {
  is_write = not (cmd.direction == 0);
  unit = bit_and cmd.disk 0xffffff7f;
  lba = if cmd.lba == no_lba then chs_lba d cmd.cylinder cmd.head cmd.sector else cmd.lba;
  addr = cmd.addr;
  sectors = cmd.sectors;
}

-- A write fails with a negative result, a read also with 0.
abbrev pub refused : Env → Request → Bool
refused env q = env.fails q || not q.is_write && env.empty q

-- The result of the transfer. The `lba` that was computed stays in the command.
unfoldable pub io_done : Env → Bios → Request → Bios
io_done env m q =
    let asked = record m {
      guest_cmd = record m.guest_cmd { io = record m.guest_cmd.io { lba = q.lba } };
    } in
    with_results (perform env asked q) (if refused env q then env.errno q else 0)

unfoldable pub disk_io_on : Env → Bios → Option Disk → Option Bios
disk_io_on env m none = none
disk_io_on env m (some d) = some (io_done env m (io_request m.guest_cmd.io d))

unfoldable pub disk_io_cmd : Env → Bios → Option Bios
disk_io_cmd env m =
    if ltb m.guest_cmd.io.disk 0x80
    then some (with_results m 1)
    else disk_io_on env m (disk_at m.disks (bit_and m.guest_cmd.io.disk 0xffffff7f))

abbrev pub returned : Option Bios → Ran
returned none = stuck
returned (some m) = ran m 0

-- `case BCMD_DISK_IO`: the result of the transfer is overwritten.
abbrev pub io_returned : Option Bios → Ran
io_returned none = stuck
io_returned (some m) = ran (with_results m 0) 0

-- `case BCMD_VIDEO`
unfoldable pub video : Env → Bios → Bios
video env m =
    let cmd = m.guest_cmd.display in
    if cmd.vidcmd == 0x02
    then record m { bda = record m.bda { disp_page = cmd.display_page % 2 ^ 8 } }
    else if cmd.vidcmd == 0x01
    then with_results m (env.switchmode cmd.mode)
    else m

unfoldable pub cmd_handler : Env → Bios → Ran
cmd_handler env m =
    let command = m.guest_cmd.command in
    if command == 0x01
    then ran (with_results (setup_shared env m) 0) 0
    else if command == 0x02
    then returned (disk_params m)
    else if command == 0x03
    then (if ltb 0 (length m.disks) then io_returned (disk_io_cmd env m) else stuck)
    else if command == 0x04
    then ran (with_results m 0) 0
    else if command == 0x05
    then ran m 0
    else if command == 0x06
    then ran (video env m) 0
    else if command == 0xfe
    then ran m 0
    else if command == 0xff
    then exited
    else ran m 1
