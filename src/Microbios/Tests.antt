-- ===== src/Microbios/Tests.antt =====
-- Runs of the host's half of the BIOS.
use bhyve_experiments.Base.{ℕ, ◌*◌, ◌%◌, ◌^◌, ◌<◌, ◌≡◌, ◌↔◌, true, false, [], ◌∷◌, arith}
use bhyve_experiments.Microbios.{Regs, Disk, BhyveCmd, Bios, Env, done, chs_lba}
use bhyve_experiments.Microbios.Int13.{handle_int13, chs_parameters, chs_cylinder, chs_sector}
use bhyve_experiments.Microbios.Int13.Carry.{Returned, handle_int13-Returned}
use bhyve_experiments.Microbios.Int13.Geometry.{chs_lba_unique, chs_cylinder-chs_parameters}
use bhyve_experiments.Microbios.Command.{e820_map}

-- 16 MB of memory, and disks that fail to write
abbrev world : Env
world = record {
  lowmem = 16 * 2 ^ 20;
  backed = λ a n. true;
  fails = λ q. q.is_write;
  empty = λ q. false;
  errno = λ q. 5;
  transfer = λ q mem. mem;
  switchmode = λ mode. 0;
}

-- 520 MB
abbrev disk : Disk
disk = record { sectsz = 512; size = 1024 * 16 * 63 * 512; c = 1024; h = 16; s = 63 }

abbrev write_command : BhyveCmd
write_command = record {
  command = 3;
  results = 0;
  params = record {
    disk = 0x80;
    heads = 0;
    cylinders = 0;
    sectors = 0;
    disk_sectors = 0;
    sector_size = 0;
  };
  io = record {
    direction = 1;
    disk = 0x80;
    head = 0;
    cylinder = 0;
    sector = 0;
    sectors = 1;
    lba = 9;
    addr = 0x7c00;
  };
  display = record { vidcmd = 0; display_page = 0; mode = 0 };
}

-- a BIOS with one disk, after its set-up
abbrev sample : Bios
sample = record {
  disks = disk ∷ [];
  e820_tbl = e820_map (16 * 2 ^ 20);
  e820_block = e820_map (16 * 2 ^ 20);
  a20_mode = 1;
  bda = record {
    com1 = 0x3f8;
    mem_size = 640;
    vid_mode = 3;
    text_columns = 80;
    disp_page = 0;
    timer_counter = 0;
    number_of_drives = 1;
    text_rows_minus_one = 24;
  };
  vars = record { bios_config_tbl_offset = 0xe6f5; flags = 2; saved_eax = 0; saved_edx = 0 };
  guest_cmd = write_command;
  vcpu = record { rax = 7; rcx = 0; rdx = 0; rbx = 0; rsi = 0; rdi = 0; seg_ds = 0; seg_es = 0 };
  memory = λ a. 0;
  requests = [];
}

-- a write of one sector of unit 80h, cylinder 0, head 0, sector 1
abbrev write_regs : Regs
write_regs = record {
  eflags = 2;
  eax = 0x0301;
  ecx = 0x0001;
  edx = 0x0080;
  ebx = 0x7c00;
  esi = 0;
  edi = 0;
  ds = 0;
  es = 0;
}

handle_int13-Returned_example : Returned sample.vcpu (handle_int13 world sample write_regs)
handle_int13-Returned_example = handle_int13-Returned world sample write_regs

chs_lba_unique_example :
    (chs_lba disk 1 2 3 < disk.c * disk.h * disk.s)
    × ((chs_lba disk 1 2 3 ≡ chs_lba disk 1 2 4)
        ↔ (◌≡◌ {A = ℕ} 1 1 × (◌≡◌ {A = ℕ} 2 2) × (◌≡◌ {A = ℕ} 3 4)))
chs_lba_unique_example = chs_lba_unique disk (omega arith) 1 2 3 1 2 4 (omega arith) (omega arith)

chs_cylinder-chs_parameters_example :
    (w : Bios) × (told : Regs) × (chs_parameters sample write_regs disk ≡ done w told)
    × (w.vcpu.rcx ≡ told.ecx)
    × (chs_sector told ≡ 63)
    × (chs_cylinder told ≡ 1023)
    × ((chs_cylinder told ≡ 1023) ↔ (1023 % 341 ≡ 0))
chs_cylinder-chs_parameters_example =
    chs_cylinder-chs_parameters sample write_regs disk (omega arith) (omega arith) (omega arith)

abbrev map_regs : Regs
map_regs = record {
  eflags = 2;
  eax = 0xe820;
  ecx = 24;
  edx = 0x534d4150;
  ebx = 0;
  esi = 0;
  edi = 0x600;
  ds = 0;
  es = 0;
}
