-- ===== src/Vlapic/System.antt =====
-- Every way in which the APICs of a virtual machine are called, as one list of calls: accesses of the
-- virtual CPUs, bios/vmm/vmm_lapic.c, the search for an interrupt and its acceptance on the way into
-- the guest, bios/vmm/intel/vmx.c, interrupts of devices, and the timers.
use bhyve_experiments.Base.{ℕ, ◌%◌, ◌^◌, ◌<◌, ◌≡◌, Bool, List, [], ◌∷◌, Option, none, some}
use bhyve_experiments.Base.{if◌then◌else◌, ◌==◌, ◌>>=◌}
use bhyve_experiments.Vlapic.Apic.{Vlapic, update_ppr, set_cr8, pending_intr, intr_accepted}
use bhyve_experiments.Vlapic.Access.{fire_timer}
use bhyve_experiments.Vlapic.Start.{vlapic_init, allocated, set_x2apic_state}
use bhyve_experiments.Vlapic.Machine.{
  Machine, on, lapic_set_intr, lapic_set_local_intr, lapic_intr_msi, deliver_intr, set_tmr_level,
}
use bhyve_experiments.Vlapic.Command.{vlapic_write}

-- A machine with, for each CPU, the vector that the last search has given and that may be accepted
pub record System : Type 0 where
  pub machine : Machine
  pub offered : ℕ → Option ℕ

pub data Call : Type 0 where
  write : ℕ → Bool → ℕ → ℕ → Call
  write_cr8 : ℕ → ℕ → Call
  sync_tpr : ℕ → Call
  ask : ℕ → Call
  accept : ℕ → Call
  timer : ℕ → Call
  intr : ℕ → ℕ → Call
  local_intr : Option ℕ → ℕ → Call
  msi : ℕ → ℕ → Call
  deliver : ℕ → Bool → ℕ → ℕ → Call
  tmr_level : ℕ → ℕ → Bool → ℕ → ℕ → Call

abbrev pub offer : (ℕ → Option ℕ) → ℕ → Option ℕ → ℕ → Option ℕ
offer offered i o j = if j == i then o else offered j

-- The calls of a CPU for its own APIC take back what a search before them has given.
abbrev pub own : System → ℕ → Option ℕ → Machine → System
own s i o m = record { machine = m; offered = offer s.offered i o }

abbrev pub replaced : System → ℕ → Option ℕ → Vlapic → System
replaced s i o w = own s i o (on s.machine i (λ v. w))

abbrev pub others : System → Machine → System
others s m = record s { machine = m }

-- A CPU accepts a vector only if its search has given one.
unfoldable pub accepted : System → ℕ → Option ℕ → Option System
accepted s i none = some s
accepted s i (some vector) =
    intr_accepted (s.machine.lapics i) vector >>= (λ w. some (replaced s i none w))

-- One call: `none` is a panic, a failed assertion or an access outside of a set of CPUs.
unfoldable pub call : System → Call → Option System
call s (write i mmio offset wval) =
    vlapic_write s.machine i mmio offset wval >>= (λ r. some (own s i none r.0))
call s (write_cr8 i val) = set_cr8 (s.machine.lapics i) val >>= (λ w. some (replaced s i none w))
call s (sync_tpr i) = update_ppr (s.machine.lapics i) >>= (λ w. some (replaced s i none w))
call s (ask i) = pending_intr (s.machine.lapics i) >>= (λ r. some (replaced s i r.1 r.0))
call s (accept i) = accepted s i (s.offered i)
call s (timer i) = some (others s (on s.machine i fire_timer))
call s (intr cpu vector) = some (others s (lapic_set_intr s.machine cpu vector).0)
call s (local_intr cpu vector) = some (others s (lapic_set_local_intr s.machine cpu vector).0)
call s (msi addr msg) = lapic_intr_msi s.machine addr msg >>= (λ r. some (others s r.0))
call s (deliver dest phys delmode vec) =
    deliver_intr s.machine dest phys delmode vec >>= (λ m. some (others s m))
call s (tmr_level i dest phys delmode vector) =
    set_tmr_level s.machine i dest phys delmode vector >>= (λ m. some (others s m))

unfoldable pub calls : System → List Call → Option System
calls s [] = some s
calls s (c ∷ rest) = call s c >>= (λ t. calls t rest)

-- What callers keep to: registers at multiples of 16 in the page, destinations, also in the high half
-- of a command of 64 bits, that fit a signed number, and vectors of 8 bits for level-triggered pins
abbrev pub IsSound : Call → Type 0
IsSound (write i mmio offset wval) = (offset % 16 ≡ 0) × (offset < 4096) × (wval < 2 ^ 63)
IsSound (deliver dest phys delmode vec) = dest < 2 ^ 31
IsSound (tmr_level i dest phys delmode vector) = (dest < 2 ^ 31) × (vector < 256)
IsSound _ = Unit {0}

abbrev pub AllSound : List Call → Type 0
AllSound [] = Unit {0}
AllSound (c ∷ rest) = IsSound c × AllSound rest

abbrev pub started : Option Vlapic → ℕ → Vlapic
started none vcpuid = allocated vcpuid
started (some v) vcpuid = v

-- The APIC that `vlapic_init` and `vlapic_set_x2apic_state` leave
unfoldable pub initial : Bool → ℕ → Vlapic
initial x2 vcpuid = set_x2apic_state x2 (started (vlapic_init vcpuid) vcpuid)

-- A machine of some CPUs that start, with x2APIC mode or not
unfoldable pub initial_system : Bool → ℕ → (ℕ → Bool) → System
initial_system x2 maxcpus active = record {
  machine = record { lapics = initial x2; maxcpus = maxcpus; active = active };
  offered = λ j. none;
}
