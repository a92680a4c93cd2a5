-- ===== src/Microbios/Int13.antt =====
-- Software interrupt 13h, the disk services: `handle_int13` of bios/bhyve/microbios.c.
pub mod Carry
pub mod Geometry
use bhyve_experiments.Base.{
  ℕ, ◌+◌, ◌-◌, ◌*◌, ◌/◌, ◌%◌, ◌^◌, Bool, true, false, not, ◌&&◌, ◌||◌, List, Option, none, some,
}
use bhyve_experiments.Base.{bit_and, bit_or, length, ltb, leb, ◌==◌, if◌then◌else◌}
use bhyve_experiments.Microbios.{
  Regs, Vcpu, Disk, Request, Bios, Env, Outcome, done, failed, crashed, reg_word, reg_lobyte,
  reg_hibyte,
}
use bhyve_experiments.Microbios.{
  clear_cf, set_cf, clear_al, clear_ah, linear, load, put, disk_at, perform, chs_lba, BiosVars,
}

abbrev pub chs_head : Regs → ℕ
chs_head r = reg_hibyte r.edx % 2 ^ 6

-- CH, and the two high bits of CL above it
unfoldable pub chs_cylinder : Regs → ℕ
chs_cylinder r = bit_or (reg_hibyte r.ecx) (bit_and (reg_lobyte r.ecx) 0xc0 * 4)

abbrev pub chs_sector : Regs → ℕ
chs_sector r = reg_lobyte r.ecx % 2 ^ 6

-- the end of a transfer, with the result of the disk
unfoldable pub transferred : Env → Bios → Regs → Request → Outcome
transferred env m r q =
    if env.fails q
    then failed (perform env m q) (set_cf r)
    else done (perform env m q) (clear_cf (clear_ah r))

abbrev pub chs_request : Bool → Regs → Disk → Request
chs_request is_read r d = record {
  is_write = not is_read;
  unit = reg_lobyte r.edx % 2 ^ 7;
  lba = chs_lba d (chs_cylinder r) (chs_head r) (chs_sector r);
  addr = linear r.es r.ebx;
  sectors = reg_lobyte r.eax;
}

-- Functions 02h and 03h, on the disk that was found
unfoldable pub chs_io : Env → Bool → Bios → Regs → Option Disk → Outcome
chs_io env is_read m r none = crashed
chs_io env is_read m r (some d) = transferred env m r (chs_request is_read r d)

-- the address of the buffer of a packet: a segment and an offset, or 64 bits
unfoldable pub packet_buffer : ℕ → ℕ → ℕ → ℕ → ℕ
packet_buffer struct_size buf_addr low high =
    if struct_size == 16 || not (buf_addr == 0xffffffff)
    then buf_addr / 2 ^ 16 * 16 + buf_addr % 2 ^ 16
    else low + 2 ^ 32 * high

abbrev pub packet_at : Regs → ℕ
packet_at r = linear r.ds r.esi

-- the transfer that `edd_drive_packet` at DS:SI asks for
abbrev pub edd_request : Bool → Bios → Regs → Request
edd_request is_read m r = record {
  is_write = not is_read;
  unit = reg_lobyte r.edx % 2 ^ 7;
  lba = load m.memory (packet_at r + 8) 4 + 2 ^ 32 * load m.memory (packet_at r + 12) 4;
  addr =
      packet_buffer (load m.memory (packet_at r) 1) (load m.memory (packet_at r + 4) 4)
        (load m.memory (packet_at r + 16) 4) (load m.memory (packet_at r + 20) 4);
  sectors = load m.memory (packet_at r + 2) 2;
}

-- The unit in DL is not a hard disk that is there.
abbrev pub no_disk : Bios → Regs → Bool
no_disk m r = ltb (reg_lobyte r.edx) 0x80 || leb (length m.disks) (reg_lobyte r.edx % 2 ^ 7)

-- Functions 42h and 43h
unfoldable pub edd_io : Env → Bool → Bios → Regs → Outcome
edd_io env is_read m r =
    if not (env.backed (packet_at r) 24)
    then failed m (set_cf (record r { eax = bit_or (bit_and r.eax 0xffff00ff) 0x0700 }))
    else if no_disk m r
    then failed m (set_cf r)
    else transferred env m r (edd_request is_read m r)

-- Function 08h. The cylinder goes to bits 6 to 15 of CX.
unfoldable pub told_regs : Regs → Disk → Regs
told_regs r d = clear_cf (record r {
  eax = bit_and r.eax 0xffff0000;
  edx = bit_or ((d.h + (2 ^ 32 - 1)) * 2 ^ 8 % 2 ^ 32) 0x01;
  ecx = bit_or (bit_and ((d.c + (2 ^ 32 - 1)) * 2 ^ 6 % 2 ^ 32) 0xffc0) (d.s % 2 ^ 6);
  ebx = bit_and r.ebx 0xffffff00;
})

unfoldable pub chs_parameters : Bios → Regs → Disk → Outcome
chs_parameters m r d =
    let told = told_regs r d in
    done (record m { vcpu = record m.vcpu { rdx = told.edx; rcx = told.ecx; rbx = told.ebx } }) told

-- Function 48h: `edd_drive_params` at DS:SI
unfoldable pub edd_parameters : Env → Bios → Regs → Disk → Outcome
edd_parameters env m r d =
    let p = packet_at r in
    let sectors = d.size / d.sectsz in
    let m0 = put m.memory p 2 0x1a in
    let m1 = put m0 (p + 2) 2 0x02 in
    let m2 = put m1 (p + 8) 4 d.h in
    let m3 = put m2 (p + 4) 4 d.c in
    let m4 = put m3 (p + 12) 4 d.s in
    let m5 = put m4 (p + 24) 2 d.sectsz in
    let m6 = put m5 (p + 16) 4 sectors in
    let m7 = put m6 (p + 20) 4 (sectors / 2 ^ 32) in
    if not (env.backed p 30) || ltb (load m.memory p 2) 26
    then failed m (set_cf (clear_ah r))
    else done (record m { memory = m7 }) (clear_cf (clear_ah r))

unfoldable pub drive_parameters : Env → Bios → Regs → Option Disk → Outcome
drive_parameters env m r none = crashed
drive_parameters env m r (some d) =
    if reg_hibyte r.eax == 0x08 then chs_parameters m r d else edd_parameters env m r d

-- Function 15h: the number of sectors in CX:DX, or type 3 in AL
unfoldable pub disk_type : Bios → Regs → Option Disk → Outcome
disk_type m r none = done m (clear_cf (record r { eax = bit_or (bit_and r.eax 0xffffff00) 0x03 }))
disk_type m r (some d) =
    let sectors = d.size / d.sectsz in
    let ecx = sectors / 2 ^ 16 % 2 ^ 16 in
    let edx = sectors % 2 ^ 16 in
    done (record m { vcpu = record m.vcpu { rcx = ecx; rdx = edx } })
      (clear_cf (record r { eax = bit_and r.eax 0xffffff00; ecx = ecx; edx = edx }))

-- Function 41h
unfoldable pub extensions : Bios → Regs → Outcome
extensions m r =
    done (record m { vcpu = record m.vcpu { rbx = 0xaa55; rcx = 0x05 } })
      (clear_cf
        (record r { eax = bit_or (bit_and r.eax 0xffff0000) 0x2100; ebx = 0xaa55; ecx = 0x05 }))

-- the functions that do nothing
abbrev pub is_quiet : ℕ → Bool
is_quiet ah =
    ah == 0x00
    || ah == 0x01
    || ah == 0x04
    || ah == 0x05
    || ah == 0x10
    || ah == 0x0c
    || ah == 0x16
    || ah == 0x4b

-- the disk of DL, which must be a hard disk
abbrev pub on_disk : Bios → Regs → (Option Disk → Outcome) → Outcome
on_disk m r run =
    if ltb (reg_lobyte r.edx) 0x80
    then failed m (set_cf r)
    else run (disk_at m.disks (reg_lobyte r.edx % 2 ^ 7))

-- the `switch` of `handle_int13`
unfoldable pub int13 : Env → Bios → Regs → Outcome
int13 env m r =
    let ah = reg_hibyte r.eax in
    if is_quiet ah
    then done m (clear_cf (clear_al r))
    else if ah == 0x02
    then on_disk m r (chs_io env true m r)
    else if ah == 0x03
    then on_disk m r (chs_io env false m r)
    else if ah == 0x42
    then edd_io env true m r
    else if ah == 0x43
    then edd_io env false m r
    else if ah == 0x48 || ah == 0x08
    then on_disk m r (drive_parameters env m r)
    else if ah == 0x15
    then disk_type m r (if no_disk m r then none else disk_at m.disks (reg_lobyte r.edx % 2 ^ 7))
    else if ah == 0x41
    then extensions m r
    else failed m (set_cf r)

-- How a handler ends: RAX and the flags for the guest, or the flags alone with -1, `false`; `none`
-- is a crash.
unfoldable pub finish : Outcome → Option (Bios × Bool)
finish (done m r) = some (
  record m { vcpu = record m.vcpu { rax = r.eax }; vars = record m.vars { flags = r.eflags } },
  true,
)
finish (failed m r) = some (record m { vars = record m.vars { flags = r.eflags } }, false)
finish crashed = none

unfoldable pub handle_int13 : Env → Bios → Regs → Option (Bios × Bool)
handle_int13 env m r = finish (int13 env m r)
