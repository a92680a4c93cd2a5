-- ===== src/Inout/Tests.antt =====
-- The properties of I/O ports at concrete handlers and instructions.
use bhyve_experiments.Base.{ℕ, ◌+◌, ◌≡◌, refl, false, some}
use bhyve_experiments.Base.Bits.{any_of}
use bhyve_experiments.Base.Int.{ℤ, pos}
use bhyve_experiments.Inout.{
  is_default, InoutPort, Handlers, Outside, PortAccess, Progress, ready, rounds, default_entry,
  register_inout,
}
use bhyve_experiments.Inout.Register.{Registered, register_inout-Registered}

abbrev com1 : InoutPort
com1 = record {
  port = 0x3f8;
  size = 8;
  entry = record { name = 1; flags = 3; handler = 0x100; arg = 0 };
}

com1_own : is_default com1.entry ≡ false
unfolding any_of
com1_own = refl

abbrev defaults : Handlers
defaults = λ p. default_entry

register_inout-Registered_example :
    (t' : Handlers) × (err : ℤ) × (register_inout defaults com1 ≡ some (t', err))
    × Registered defaults com1 t' err
register_inout-Registered_example = register_inout-Registered defaults com1 refl com1_own

-- a port that counts the bytes written, in a memory where every address is there
abbrev world : Outside ℕ
world = record {
  call = λ w e is_in port bytes val. (w + bytes, pos 0, val);
  calculate_gla = λ w index. some index;
  copy_setup = λ w gla. ready;
  misaligned = λ w gla. false;
  copyin = λ w gla. 0x41;
  copyout = λ w gla val. w;
  inject_gp = λ w. w;
  inject_ac = λ w. w;
  set_index = λ w index. w;
  set_count = λ w count. w;
  set_rax = λ w eax. w;
  restart = λ w. w;
}

abbrev outsb : PortAccess
outsb = record { bytes = 1; is_in = false; port = 0x3f8; eax = 0 }

abbrev at_start : Progress ℕ
at_start = record { world = 0; index = 0x7c00; count = 20; retval = pos 0 }

rounds_write : (rounds world outsb com1.entry 16 false at_start).world ≡ 16
unfolding rounds
rounds_write = refl
