-- ===== src/Vatpic/Ports/Tests.antt =====
-- The interrupt controllers at concrete inputs.
use bhyve_experiments.Base.{ℕ, ◌≤◌, true, false, ◌≡◌}
use bhyve_experiments.Base.{refl, List, [], ◌∷◌, arith, none, some}
use bhyve_experiments.Base.{if◌then◌else◌}
use bhyve_experiments.Base.Int.{incr}
use bhyve_experiments.Base.Bits.{any_of, has_bit, set_bit, clear_bit}
use bhyve_experiments.Vatpic.Chip.{Atpic, zeroed, get_highest_irrpin, pin_accepted, ocw2, serviced}
use bhyve_experiments.Vatpic.Chip.{ocw2_r}
use bhyve_experiments.Vatpic.Chip.Priority.{FirstWanted, wanted, nth_pin}
use bhyve_experiments.Vatpic.Chip.Priority.{highest_irrpin_sound, highest_irrpin_complete}
use bhyve_experiments.Vatpic.Chip.Service.{eoi-accepted}
use bhyve_experiments.Vatpic.Pair.{
  Vatpic, pulse, level, local_lint0, ioapic_pulse, init, move_pin, move_line, notify_body,
  notify_master, notify_fuel, notify_intr,
}
use bhyve_experiments.Vatpic.Pair.Notify.{notify_returns, notify-Told, Told}
use bhyve_experiments.Vatpic.Pair.Valid.{IsValid}
use bhyve_experiments.Vatpic.Ports.{Which}
use bhyve_experiments.Vatpic.Ports.Run.{
  Call, irq, trigger, accept, access, elc, run, run-init-IsValid,
}

-- pins 3 and 5 are requested, 3 is masked; and the same with a level in service
abbrev asking : Atpic
asking = record zeroed { request = 0x28; mask = 0x08; lowprio = 7; ready = true }

abbrev busy : Atpic
busy = record asking { service = 0x02 }

asks : get_highest_irrpin asking ≡ some 5
unfolding get_highest_irrpin has_bit zeroed
asks = refl

locked : get_highest_irrpin busy ≡ none
unfolding get_highest_irrpin has_bit zeroed
locked = refl

highest_irrpin_sound_example : FirstWanted asking 5
unfolding zeroed
highest_irrpin_sound_example = highest_irrpin_sound asking 5 (omega arith) asks

highest_irrpin_complete_example :
    (j : ℕ) × (j ≤ 5) × (has_bit (serviced busy) (nth_pin busy j) ≡ true)
highest_irrpin_complete_example = highest_irrpin_complete busy locked 5 (omega arith) wants
  where
    wants : wanted busy (nth_pin busy 5) ≡ true
    wants = unfold zeroed nth_pin has_bit in refl

eoi-accepted_example :
    let b = (ocw2 (pin_accepted asking 5) 0x20).0 in
    (b.service ≡ asking.service) × (b.lowprio ≡ (if any_of 0x20 ocw2_r then 5 else asking.lowprio))
unfolding any_of zeroed
eoi-accepted_example =
    eoi-accepted asking 5 0x20 (record { unmasked = refl; nested = refl; manual = refl })
      (omega arith) asks refl refl

-- the slave asks
abbrev cascading : Vatpic
cascading = record init { slave = asking }

notify_returns_example : notify_fuel 7 cascading ≡ some (notify_intr cascading)
notify_returns_example = notify_returns 5 cascading

notify-Told_example : Told cascading (notify_intr cascading)
notify-Told_example = notify-Told cascading

told_once : (notify_intr cascading).signals ≡ ioapic_pulse ∷ local_lint0 ∷ []
unfolding init zeroed notify_intr notify_fuel notify_body notify_master move_line move_pin
    get_highest_irrpin has_bit set_bit clear_bit incr
told_once = refl

-- The guest sets the master up and IRQ 5 is pulsed and accepted.
abbrev calls : List Call
calls =
    access Which.master false 0x20 1 0x11
    ∷ access Which.master false 0x21 1 0x08
    ∷ access Which.master false 0x21 1 0x04
    ∷ access Which.master false 0x21 1 0x01
    ∷ trigger 10 level
    ∷ irq 5 pulse
    ∷ accept 13
    ∷ elc false 0x4d0 1 0xff
    ∷ []

run-init-IsValid_example : IsValid (run calls init)
run-init-IsValid_example = run-init-IsValid calls
