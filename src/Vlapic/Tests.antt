-- ===== src/Vlapic/Tests.antt =====
-- Runs of the local APIC.
use bhyve_experiments.Base.Ends.{Ends}
use bhyve_experiments.Base.{
  ℕ, ◌+◌, ◌^◌, ◌≡◌, ◌↔◌, Bool, true, false, ◌&&◌, not, ◌==◌, List, [], ◌∷◌, some, refl, arith, inl,
  ◌>>=◌,
}
use bhyve_experiments.Vlapic.Apic.{Vlapic, pushed, process_eoi, pending_intr, intr_accepted}
use bhyve_experiments.Vlapic.Apic.Stack.{IsStack}
use bhyve_experiments.Vlapic.Apic.Moves.{pushed-IsStack}
use bhyve_experiments.Vlapic.Start.{allocated}
use bhyve_experiments.Vlapic.Machine.{
  Machine, calcdest, deliver_intr, delmode_fixed, delmode_lowprio,
}
use bhyve_experiments.Vlapic.System.{Call, write, ask, accept, msi, timer, calls, initial_system}
use bhyve_experiments.Vlapic.Keeps.{Keeps}
use bhyve_experiments.Vlapic.Good.{IsGood, Offers}
use bhyve_experiments.Vlapic.Offer.{Pending, pending_intr-Pending}
use bhyve_experiments.Vlapic.Runs.{IsSafe, calls-Ends, allocated-IsStack}
use bhyve_experiments.Vlapic.Eoi.{EoiOf, SameService, process_eoi-EoiOf, accept-eoi_SameService}
use bhyve_experiments.Vlapic.Destinations.{Reached, is_meant, broadcast, calcdest-Reached}
use bhyve_experiments.Vlapic.Delivery.{Requested, deliver_intr-Requested}

-- The first CPU enables its APIC, gets an MSI with vector 41h, takes it, and ends it.
abbrev served : List Call
served =
    write 0 true 0xf0 0x1ff
    ∷ msi 0xfee00000 0x41
    ∷ ask 0
    ∷ accept 0
    ∷ timer 0
    ∷ write 0 true 0xb0 0
    ∷ []

abbrev all_active : ℕ → Bool
all_active j = true

calls-Ends_example : Ends IsSafe (calls (initial_system false 2 all_active) served)
calls-Ends_example = calls-Ends false 2 all_active served (omega arith)

-- An APIC with a request for vector 41h
abbrev asked : Vlapic
asked = record (allocated 0) { svr = 0x1ff; irr = 0 ∷ 0 ∷ 2 ∷ 0 ∷ 0 ∷ 0 ∷ 0 ∷ 0 ∷ [] }

asked-IsGood : IsGood asked
asked-IsGood = record { stack = allocated-IsStack 0; word = omega arith }

asked-Offers : Offers asked (some 0x41)
asked-Offers = record {
  above = λ vector e. let p : ◌≡◌ {A = ℕ} 0x41 vector = cc in (omega arith, omega arith);
}

pending_intr-Pending_example :
    Ends
      (λ r. Keeps asked r.0 × ((vector : ℕ) → (r.1 ≡ some vector) ↔ Pending asked vector))
      (pending_intr asked)
pending_intr-Pending_example = pending_intr-Pending asked asked-IsGood

-- The same with the vector in service
abbrev serving : Vlapic
serving = record asked { serv = pushed asked.serv 0x41 }

serving-IsStack : IsStack serving.serv
serving-IsStack = pushed-IsStack asked.serv (allocated-IsStack 0) 0x41 (omega arith) (omega arith)

process_eoi-EoiOf_example : Ends (EoiOf serving) (process_eoi serving)
process_eoi-EoiOf_example = process_eoi-EoiOf serving serving-IsStack

accept-eoi_SameService_example :
    Ends (λ w. SameService asked.serv w.serv) (intr_accepted asked 0x41 >>= process_eoi)
accept-eoi_SameService_example = accept-eoi_SameService asked 0x41 asked-IsGood asked-Offers

-- Four CPUs with their APICs enabled in the flat model, each with a logical bit of its own
abbrev four : Machine
four = record {
  lapics = λ j. record (allocated j) { svr = 0x1ff; dfr = 0xffffffff; ldr = 2 ^ (24 + j) };
  maxcpus = 4;
  active = all_active;
}

calcdest-Reached_example :
    Ends
      (Reached (is_meant four 0x06 false false) (true && (not false && not (broadcast 0x06 false))))
      (calcdest four 0x06 false true false)
calcdest-Reached_example = calcdest-Reached four 0x06 false true false (omega arith)

deliver_intr-Requested_example :
    Ends
      (λ n.
        (cpus : List ℕ) × Reached
          (is_meant four 0x06 false false)
          (delmode_fixed == delmode_lowprio && (not false && not (broadcast 0x06 false)))
          cpus
        × Requested 0x41 cpus four n)
      (deliver_intr four 0x06 false delmode_fixed 0x41)
deliver_intr-Requested_example =
    deliver_intr-Requested four 0x06 false delmode_fixed 0x41 (omega arith) (omega arith)
      (omega arith) (inl refl) (λ j. refl)
