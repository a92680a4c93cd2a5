-- ===== src/Microbios/Int13/Carry.antt =====
-- How interrupt 13h reports its result.
use bhyve_experiments.Base.{ℕ, ◌≡◌, refl, Bool, true, false, Option, none, some, arith}
use bhyve_experiments.Base.{if◌then◌else◌}
use bhyve_experiments.Base.Words.{digit, digit-bit_and, digit-bit_or, digit-le}
use bhyve_experiments.Microbios.{
  Regs, Vcpu, Bios, Env, Disk, Request, Outcome, done, failed, crashed, set_cf, clear_cf, clear_ah,
}
use bhyve_experiments.Microbios.{perform}
use bhyve_experiments.Microbios.Int13.{
  told_regs, int13, handle_int13, finish, chs_io, edd_io, drive_parameters, chs_parameters,
  edd_parameters, disk_type, extensions,
}
use bhyve_experiments.Microbios.Int13.{transferred, chs_request}

-- the carry flag
abbrev pub carry : ℕ → ℕ
carry flags = digit 0 flags

pub carry-set_cf : (r : Regs) → carry (set_cf r).eflags ≡ 1
unfolding set_cf
carry-set_cf r = omega (arith, digit-bit_or 0 r.eflags 1, digit-le 0 r.eflags)

pub carry-clear_cf : (r : Regs) → carry (clear_cf r).eflags ≡ 0
unfolding clear_cf
carry-clear_cf r = omega (arith, digit-bit_and 0 r.eflags 0xfffe)

-- A handler that succeeds has cleared the carry flag, one that fails has set it and left the
-- registers of the guest as they were.
pub data Reports (cpu : Vcpu) : Outcome → Type 0 where
  cleared : (m : Bios) (r : Regs) → carry r.eflags ≡ 0 → Reports cpu (done m r)
  raised : (m : Bios) (r : Regs) → carry r.eflags ≡ 1 → m.vcpu ≡ cpu → Reports cpu (failed m r)
  stopped : Reports cpu crashed

branch :
    {cpu : Vcpu} (b : Bool) (x y : Outcome)
    → Reports cpu x
    → Reports cpu y
    → Reports cpu (if b then x else y)
branch true x y h k = h
branch false x y h k = k

module _ (env : Env) (m : Bios) (r : Regs) where
  fail : (s : Regs) → Reports m.vcpu (failed m (set_cf s))
  fail s = raised m (set_cf s) (carry-set_cf s) refl

  succeed : (w : Bios) (s : Regs) → Reports m.vcpu (done w (clear_cf s))
  succeed w s = cleared w (clear_cf s) (carry-clear_cf s)

  transferred-Reports : (q : Request) → Reports m.vcpu (transferred env m r q)
  unfolding transferred
  transferred-Reports q =
      branch (env.fails q) _ _ (raised (perform env m q) (set_cf r) (carry-set_cf r) refl)
        (succeed (perform env m q) (clear_ah r))

  chs_io-Reports : (is_read : Bool) (d : Option Disk) → Reports m.vcpu (chs_io env is_read m r d)
  unfolding chs_io
  chs_io-Reports is_read none = stopped
  chs_io-Reports is_read (some d) = transferred-Reports (chs_request is_read r d)

  edd_io-Reports : (is_read : Bool) → Reports m.vcpu (edd_io env is_read m r)
  unfolding edd_io
  edd_io-Reports is_read = search (branch, fail, transferred-Reports)

  drive_parameters-Reports : (d : Option Disk) → Reports m.vcpu (drive_parameters env m r d)
  unfolding drive_parameters chs_parameters edd_parameters told_regs
  drive_parameters-Reports none = stopped
  drive_parameters-Reports (some d) = search (branch, fail, succeed)

  disk_type-Reports : (d : Option Disk) → Reports m.vcpu (disk_type m r d)
  unfolding disk_type
  disk_type-Reports none = succeed _ _
  disk_type-Reports (some d) = succeed _ _

  extensions-Reports : Reports m.vcpu (extensions m r)
  unfolding extensions
  extensions-Reports = succeed _ _

  int13-Reports : Reports m.vcpu (int13 env m r)
  unfolding int13
  int13-Reports =
      search
        (
          branch, fail, succeed, chs_io-Reports, edd_io-Reports, drive_parameters-Reports,
          disk_type-Reports, extensions-Reports,
        )
        depth 16 fits 2000

-- What the outcome of the `switch` becomes for the ROM and the guest: where there is a result, the
-- carry flag that the ROM gets is clear for success and set for failure, and after a failure the
-- registers of the guest are as they were.
abbrev pub Returned : Vcpu → Option (Bios × Bool) → Type 0
Returned cpu none = Unit
Returned cpu (some (m, true)) = carry m.vars.flags ≡ 0
Returned cpu (some (m, false)) = (carry m.vars.flags ≡ 1) × (m.vcpu ≡ cpu)

finish-Returned : (cpu : Vcpu) (o : Outcome) → Reports cpu o → Returned cpu (finish o)
unfolding finish
finish-Returned cpu _ (cleared m r h) = h
finish-Returned cpu _ (raised m r h e) = (h, e)
finish-Returned cpu _ stopped = tt

-- Whatever function of interrupt 13h is called: if it returns success, the carry flag that the ROM
-- gets is clear; if it returns failure, the carry flag is set, and the registers of the guest are
-- as they were, so that an error code in AH does not reach the guest.
pub handle_int13-Returned :
    (env : Env) (m : Bios) (r : Regs) → Returned m.vcpu (handle_int13 env m r)
unfolding handle_int13
handle_int13-Returned env m r = finish-Returned m.vcpu (int13 env m r) (int13-Reports env m r)
