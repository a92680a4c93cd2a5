-- ===== src/Vatpit/Tests.antt =====
-- Runs of the interval timer.
use bhyve_experiments.Base.{
  ℕ, zero, suc, ◌≡◌, ◌≢◌, ◌≤◌, ◌<◌, true, false, none, some, refl, arith, inl, inr, List, [], ◌∷◌,
  Option,
}
use bhyve_experiments.Base.Ends.{Ends}
use bhyve_experiments.Vatpit.Channel.{Channel, update_counter, count_at, with_count, write_counter}
use bhyve_experiments.Vatpit.Ports.{
  Vatpit, handler, init, empty, update_mode, write_port, loaded, start_cntr0,
}
use bhyve_experiments.Vatpit.Latch.{two_reads, latch-two_reads}
use bhyve_experiments.Vatpit.Access.{InPlace}
use bhyve_experiments.Vatpit.Run.{
  Call, access, call, calls, IsSound, AllSound, Reach, started, counted, calls-Reach, Reach-call,
}

-- A channel with the count 1000 since the tick 5
abbrev counting : Channel
counting = record empty { mode = 4; initial = 1000; now_bt = 5 }

latch-two_reads_example :
    (d : Channel) × (two_reads
        (update_counter (update_counter counting 305 true).0 306 true).0
        400
        500
      ≡ some (d, count_at (with_count counting 305) 305))
    × (d.olbyte ≡ 0)
    × (count_at (with_count counting 305) 305 ≤ (with_count counting 305).initial)
latch-two_reads_example =
    latch-two_reads counting 305 306 400 500 refl refl (omega arith) (omega arith)

-- A guest makes the channels 0 and 2 square waves and channel 1 a rate generator, and writes their counts,
-- that of channel 0 as 0.
abbrev set_up : List Call
set_up =
    access false 0x43 1 0x36 10
    ∷ access false 0x40 1 0 11
    ∷ access false 0x40 1 0 12
    ∷ access false 0x43 1 0x74 13
    ∷ access false 0x41 1 18 14
    ∷ access false 0x41 1 0 15
    ∷ access false 0x43 1 0xb6 16
    ∷ access false 0x42 1 0xa9 17
    ∷ access false 0x42 1 0x04 18
    ∷ []

abbrev running_timer : Vatpit
running_timer = or_init (calls init set_up)
  where
    or_init : Option Vatpit → Vatpit
    or_init none = init
    or_init (some v) = v

set_up_ends : calls init set_up ≡ some running_timer
unfolding calls call handler update_mode write_port write_counter loaded start_cntr0 init
set_up_ends = refl

set_up-AllSound : AllSound false set_up
unfolding AllSound IsSound
set_up-AllSound = (
  (omega arith, omega arith, inl refl),
  (
    (omega arith, omega arith, inl refl),
    (
      (omega arith, omega arith, inl refl),
      (
        (omega arith, omega arith, inl refl),
        (
          (omega arith, omega arith, inl refl),
          (
            (omega arith, omega arith, inl refl),
            (
              (omega arith, omega arith, inl refl),
              ((omega arith, omega arith, inl refl), ((omega arith, omega arith, inl refl), tt)),
            ),
          ),
        ),
      ),
    ),
  ),
)

counts : (i : ℕ) → i < 3 → (running_timer.channel i).initial ≢ 0
unfolding calls call handler update_mode write_port write_counter loaded start_cntr0 init
counts zero l e = omega arith
counts (suc zero) l e = omega arith
counts (suc (suc zero)) l e = omega arith
counts (suc (suc (suc i))) l e = omega arith

running-Reach : Reach true running_timer
running-Reach =
    counted running_timer
      (calls-Reach false init running_timer set_up started set_up-AllSound set_up_ends) counts

-- It reads the status of all three channels back.
Reach-call_example : Ends (InPlace true) (call running_timer (access false 0x43 1 0xee 400))
unfolding IsSound
Reach-call_example =
    Reach-call true running_timer (access false 0x43 1 0xee 400) running-Reach
      (omega arith, omega arith, inr refl)
