-- ===== src/Vlapic/Runs.antt =====
-- The local APICs of a machine from their start on, bios/vmm/io/vlapic.c, through sequences of calls.
use bhyve_experiments.Base.Ends.{Ends, ended, then-Ends}
use bhyve_experiments.Base.{
  ℕ, ◌*◌, ◌^◌, ◌≡◌, ◌≢◌, inl, inr, refl, sym, arith, subst, Bool, true, not, List, [], ◌∷◌, Option,
  none, some, bit_or,
}
use bhyve_experiments.Base.{◌==◌, ◌>>=◌, Bool-cases}
use bhyve_experiments.Base.Bits.{all_below, all_below_at, any_of}
use bhyve_experiments.Vlapic.Vectors.{has_vec}
use bhyve_experiments.Vlapic.Apic.{Vlapic, set_cr8, update_ppr, pending_intr, intr_accepted}
use bhyve_experiments.Vlapic.Apic.Stack.{IsStack}
use bhyve_experiments.Vlapic.Access.{
  fire_timer, mask_lvts, reset_tmr, dcr_write_handler, vlapic_get_id,
}
use bhyve_experiments.Vlapic.Start.{allocated, vlapic_reset, vlapic_init, set_x2apic_state}
use bhyve_experiments.Vlapic.Machine.{Machine, on, lapic_intr_msi, deliver_intr, set_tmr_level}
use bhyve_experiments.Vlapic.Command.{vlapic_write}
use bhyve_experiments.Vlapic.System.{
  System, Call, write, write_cr8, sync_tpr, ask, accept, timer, intr, local_intr, msi, deliver,
  tmr_level, own, replaced, others, accepted, call, calls, IsSound, AllSound, started, initial,
  initial_system,
}
use bhyve_experiments.Vlapic.Keeps.{
  Keeps, AllKeep, then-Keeps, plain-Keeps, on-AllKeep, mask_lvts-Keeps, reset_from-Keeps,
  fire_timer-Keeps,
}
use bhyve_experiments.Vlapic.Frames.{
  set_intr-AllKeep, set_local_intr-AllKeep, msi-Ends, deliver_intr-Ends, set_tmr_level-Ends,
}
use bhyve_experiments.Vlapic.Good.{
  IsGood, Offers, none-Offers, IsGood-Keeps, Offers-Keeps, update-IsGood, set_cr8-Ends,
}
use bhyve_experiments.Vlapic.Offer.{pending_intr-Offers, intr_accepted-Ends}
use bhyve_experiments.Vlapic.Registers.{dcr-Ends}
use bhyve_experiments.Vlapic.Safe.{
  AllGood, AllGood-AllKeep, OthersKeep, on-AllGood, on-OthersKeep, on_at, Written,
  vlapic_write-Ends,
}

no_vector_table : all_below 256 (λ v. not (has_vec (allocated 0).serv.isr v)) ≡ true
unfolding all_below has_vec any_of
no_vector_table = refl

-- nothing is in service at the start.
pub allocated-IsStack : (vcpuid : ℕ) → IsStack (allocated vcpuid).serv
allocated-IsStack vcpuid = record {
  width = refl;
  room = refl;
  bottom = refl;
  increase = λ i j l h b. absurd (omega arith);
  range = λ i l b. absurd (omega arith);
  served = λ i l b. absurd (omega arith);
  stacked = λ v h is_set.
      let clear : not (has_vec (allocated 0).serv.isr v) ≡ true =
        all_below_at 256 v (λ u. not (has_vec (allocated 0).serv.isr u)) no_vector_table h in
      absurd (ground arith);
}

reset-Ends : (v : Vlapic) → IsGood v → Ends IsGood (vlapic_reset v)
unfolding vlapic_reset
reset-Ends v good =
    let page : Vlapic = record v {
      id = vlapic_get_id v;
      version = bit_or 16 (6 * 2 ^ 16);
      dfr = 0xffffffff;
      svr = 0xff;
    } in
    let masked = mask_lvts page in
    let cleared : Vlapic = record (reset_tmr masked) { dcr_timer = 0 } in
    let kept : Keeps v cleared = then-Keeps v page cleared (plain-Keeps v page refl refl) (
      then-Keeps page masked cleared (mask_lvts-Keeps page) (
        then-Keeps masked (reset_tmr masked) cleared (reset_from-Keeps 256 masked)
          (plain-Keeps (reset_tmr masked) cleared refl refl))) in
    then-Ends (Keeps cleared) IsGood (dcr_write_handler cleared) _ (dcr-Ends cleared) (λ w k.
      ended _ (
        IsGood-Keeps v _ good
          (then-Keeps v cleared _ kept (then-Keeps cleared w _ k (plain-Keeps w _ refl refl)))))

-- `vlapic_init` ends, for every virtual CPU.
pub vlapic_init-Ends : (vcpuid : ℕ) → Ends IsGood (vlapic_init vcpuid)
unfolding vlapic_init
vlapic_init-Ends vcpuid =
    reset-Ends _ (record { stack = allocated-IsStack vcpuid; word = omega arith })

set_x2apic_state-Keeps : (x2 : Bool) (v : Vlapic) → Keeps v (set_x2apic_state x2 v)
unfolding set_x2apic_state
set_x2apic_state-Keeps x2 v = record { kept_serv = ground arith; kept_hi = ground arith }

-- What holds between two calls
pub record IsSafe (s : System) : Type 0 where
  pub all_good : AllGood s.machine
  pub all_offer : (j : ℕ) → Offers (s.machine.lapics j) (s.offered j)

pub initial-IsSafe :
    (x2 : Bool) (maxcpus : ℕ) (active : ℕ → Bool) → IsSafe (initial_system x2 maxcpus active)
unfolding initial_system initial
initial-IsSafe x2 maxcpus active = record {
  all_good = λ j.
      let v = started (vlapic_init j) j in
      IsGood-Keeps v _ (first_good (vlapic_init j) j (vlapic_init-Ends j))
        (set_x2apic_state-Keeps x2 v);
  all_offer = λ j. none-Offers (initial x2 j);
}
  where
    first_good : (o : Option Vlapic) (vcpuid : ℕ) → Ends IsGood o → IsGood (started o vcpuid)
    first_good _ vcpuid (ended v good) = good

others-IsSafe : (s : System) (m : Machine) → IsSafe s → AllKeep s.machine m → IsSafe (others s m)
others-IsSafe s m safe kept = record {
  all_good = AllGood-AllKeep s.machine m safe.all_good kept;
  all_offer =
      λ j. Offers-Keeps (s.machine.lapics j) (m.lapics j) (s.offered j) (safe.all_offer j) (kept j);
}

own-IsSafe :
    (s : System) (i : ℕ) (o : Option ℕ) (m : Machine)
    → IsSafe s
    → AllGood m
    → OthersKeep i s.machine m
    → Offers (m.lapics i) o
    → IsSafe (own s i o m)
own-IsSafe s i o m safe good kept offers = record {
  all_good = good;
  all_offer = λ j. elim (Bool-cases (j == i)) [
    | inl e ↦ let p : i ≡ j = ground arith in rw e (subst (λ n. Offers (m.lapics n) o) p offers)
    | inr e ↦
        let d : j ≢ i = λ q. ground arith in
        rw e (
          Offers-Keeps (s.machine.lapics j) (m.lapics j) (s.offered j) (safe.all_offer j)
            (kept j d))
  ];
}

replaced-IsSafe :
    (s : System) (i : ℕ) (o : Option ℕ) (w : Vlapic)
    → IsSafe s
    → IsGood w
    → Offers w o
    → IsSafe (replaced s i o w)
replaced-IsSafe s i o w safe good offers =
    let m = on s.machine i (λ v. w) in
    own-IsSafe s i o m safe (on-AllGood s.machine i (λ v. w) safe.all_good good)
      (on-OthersKeep s.machine i (λ v. w))
      (subst (λ v. Offers v o) (sym (on_at s.machine i (λ v. w))) offers)

module _ (s : System) (safe : IsSafe s) where
  replace-Ends :
      (i : ℕ) (x : Option Vlapic)
      → Ends IsGood x
      → Ends IsSafe (x >>= (λ w. some (replaced s i none w)))
  replace-Ends i x e =
      then-Ends IsGood IsSafe x (λ w. some (replaced s i none w)) e
        (λ w good. ended _ (replaced-IsSafe s i none w safe good (none-Offers w)))

  keep-Ends :
      (x : Option Machine)
      → Ends (AllKeep s.machine) x
      → Ends IsSafe (x >>= (λ m. some (others s m)))
  keep-Ends x e =
      then-Ends (AllKeep s.machine) IsSafe x (λ m. some (others s m)) e
        (λ m kept. ended _ (others-IsSafe s m safe kept))

  accepted-Ends :
      (i : ℕ) (o : Option ℕ) → Offers (s.machine.lapics i) o → Ends IsSafe (accepted s i o)
  unfolding accepted
  accepted-Ends i none offers = ended s safe
  accepted-Ends i (some vector) offers =
      replace-Ends i (intr_accepted (s.machine.lapics i) vector)
        (intr_accepted-Ends (s.machine.lapics i) vector (safe.all_good i) offers)

  pub call-Ends : (c : Call) → IsSound c → Ends IsSafe (call s c)
  unfolding call
  call-Ends (write i mmio offset wval) (aligned, within, small) =
      then-Ends (Written s.machine i) IsSafe (vlapic_write s.machine i mmio offset wval)
        (λ r. some (own s i none r.0))
        (vlapic_write-Ends s.machine i wval safe.all_good mmio offset aligned within small)
        (λ r k. ended _ (own-IsSafe s i none r.0 safe k.0 k.1 (none-Offers (r.0.lapics i))))
  call-Ends (write_cr8 i val) h =
      replace-Ends i (set_cr8 (s.machine.lapics i) val)
        (set_cr8-Ends (s.machine.lapics i) (safe.all_good i) val)
  call-Ends (sync_tpr i) h =
      replace-Ends i (update_ppr (s.machine.lapics i))
        (update-IsGood (s.machine.lapics i) (safe.all_good i))
  call-Ends (ask i) h =
      then-Ends (λ r. IsGood r.0 × Offers r.0 r.1) IsSafe (pending_intr (s.machine.lapics i))
        (λ r. some (replaced s i r.1 r.0))
        (pending_intr-Offers (s.machine.lapics i) (safe.all_good i))
        (λ r k. ended _ (replaced-IsSafe s i r.1 r.0 safe k.0 k.1))
  call-Ends (accept i) h = accepted-Ends i (s.offered i) (safe.all_offer i)
  call-Ends (timer i) h = ended _ (
      others-IsSafe s _ safe
        (on-AllKeep s.machine i fire_timer (fire_timer-Keeps (s.machine.lapics i))))
  call-Ends (intr cpu vector) h =
      ended _ (others-IsSafe s _ safe (set_intr-AllKeep s.machine cpu vector))
  call-Ends (local_intr cpu vector) h =
      ended _ (others-IsSafe s _ safe (set_local_intr-AllKeep s.machine cpu vector))
  call-Ends (msi addr msg) h =
      then-Ends (λ r. AllKeep s.machine r.0) IsSafe (lapic_intr_msi s.machine addr msg)
        (λ r. some (others s r.0)) (msi-Ends s.machine addr msg)
        (λ r kept. ended _ (others-IsSafe s r.0 safe kept))
  call-Ends (deliver dest phys delmode vec) h =
      keep-Ends (deliver_intr s.machine dest phys delmode vec)
        (deliver_intr-Ends s.machine dest phys delmode vec h)
  call-Ends (tmr_level i dest phys delmode vector) (h, byte) =
      keep-Ends (set_tmr_level s.machine i dest phys delmode vector)
        (set_tmr_level-Ends s.machine i dest phys delmode vector h byte)

from-Ends : (s : System) (l : List Call) → IsSafe s → AllSound l → Ends IsSafe (calls s l)
unfolding calls
from-Ends s [] safe h = ended s safe
from-Ends s (c ∷ rest) safe (h, t) =
    then-Ends IsSafe IsSafe (call s c) (λ r. calls r rest) (call-Ends s safe c h)
      (λ r k. from-Ends r rest k t)

-- From the start of a machine with any number of CPUs, in xAPIC or x2APIC mode, every sequence of
-- calls that are all sound ends: none comes to a panic, a failed assertion or an access outside of
-- the set of CPUs. At its end the stack of each APIC agrees with its ISR, and what a search has given
-- has a priority above the vectors in service.
pub calls-Ends :
    (x2 : Bool) (maxcpus : ℕ) (active : ℕ → Bool) (l : List Call)
    → AllSound l
    → Ends IsSafe (calls (initial_system x2 maxcpus active) l)
calls-Ends x2 maxcpus active l h =
    from-Ends (initial_system x2 maxcpus active) l (initial-IsSafe x2 maxcpus active) h
