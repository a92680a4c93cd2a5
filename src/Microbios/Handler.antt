-- ===== src/Microbios/Handler.antt =====
-- The port of the BIOS: `microbios_io_handler` and `microbios_bios_inth_handler` of
-- bios/bhyve/microbios.c.
use bhyve_experiments.Base.{
  ℕ, ◌+◌, ◌/◌, ◌%◌, ◌^◌, Bool, false, Option, none, some, ◌==◌, if◌then◌else◌,
}
use bhyve_experiments.Microbios.{Regs, Bios, Env, set_cf}
use bhyve_experiments.Microbios.Int13.{handle_int13}
use bhyve_experiments.Microbios.Int15.{handle_int15}
use bhyve_experiments.Microbios.Command.{Ran, ran, exited, stuck, cmd_handler}

-- The registers of the guest as the handlers see them: 32 bits and 16 bits. EAX, EDX and the flags
-- are those that the ROM has saved.
unfoldable pub gather_regs : Bios → Regs
gather_regs m = record {
  eflags = m.vars.flags;
  eax = m.vars.saved_eax;
  ecx = m.vcpu.rcx % 2 ^ 32;
  edx = m.vars.saved_edx;
  ebx = m.vcpu.rbx % 2 ^ 32;
  esi = m.vcpu.rsi % 2 ^ 32;
  edi = m.vcpu.rdi % 2 ^ 32;
  ds = m.vcpu.seg_ds % 2 ^ 16;
  es = m.vcpu.seg_es % 2 ^ 16;
}

-- `timer_counter` is a uint32_t.
unfoldable pub entered : Bios → Bios
entered m = record m {
  vcpu = record m.vcpu { rdx = m.vars.saved_edx };
  bda = record m.bda { timer_counter = (m.bda.timer_counter + 1) % 2 ^ 32 };
}

-- The vector is the high word of the value written to the port.
unfoldable pub inth_handler : Env → Bios → ℕ → Option (Bios × Bool)
inth_handler env m eax =
    let vec = eax / 2 ^ 16 % 2 ^ 16 in
    let r = gather_regs m in
    if vec == 0x13
    then handle_int13 env (entered m) r
    else if vec == 0x15
    then handle_int15 env (entered m) r
    else some (record (entered m) { vars = record m.vars { flags = (set_cf r).eflags } }, false)

-- what the port makes of the result of an interrupt, which is ignored
abbrev pub after_inth : ℕ → Option (Bios × Bool) → Option (Bios × ℕ)
after_inth eax none = none
after_inth eax (some (m, ok)) = some (m, eax)

abbrev pub after_cmd : Ran → Option (Bios × ℕ)
after_cmd (ran m code) = some (m, 0xff)
after_cmd exited = none
after_cmd stuck = none

-- A write to the port: the state after it and EAX; `none` where the host stops.
unfoldable pub io_handler : Env → Bios → ℕ → ℕ → Option (Bios × ℕ)
io_handler env m bytes eax =
    if bytes == 4 then after_inth eax (inth_handler env m eax) else after_cmd (cmd_handler env m)
