-- ===== src/PciIrq/Tests.antt =====
-- Runs of the router.
use bhyve_experiments.Base.{ℕ, ◌+◌, ◌≡◌, ◌≢◌, refl, List, [], ◌∷◌, false, some, arith}
use bhyve_experiments.Base.{get_or, replicate}
use bhyve_experiments.Base.Int.{pos}
use bhyve_experiments.PciIrq.{Pirq, Router, Devinst, pci_irq_init, pirq_alloc_pin, pci_irq_assert}
use bhyve_experiments.PciIrq.{fresh_pirq, assert_pirq, isa_assert}
use bhyve_experiments.PciIrq.{choose_pin, find_pin, route, use_pin, find_irq, irq_permitted}
use bhyve_experiments.PciIrq.{level_trigger, better_irq, pirq_valid_irq, irq_disabled}
use bhyve_experiments.PciIrq.Level.{asserts, deasserts, driving}
use bhyve_experiments.PciIrq.Valid.{IsValid}
use bhyve_experiments.PciIrq.Reach.{
  Reach, power_on, start, alloc, assertion, reach-Balanced, reach-IsValid,
}
use bhyve_experiments.PciIrq.Pins.{alloc_pin_least, IsLeastUsed}
use bhyve_experiments.Base.Bits.{any_of}
use bhyve_experiments.Base.Int.{incr}

-- a network card in slot 3, before and after it is given pin 1
abbrev card : Devinst
card = record { slot = 3; pin = 1; pirq_pin = 0; ioapic_irq = 17 }

abbrev wired : Devinst
wired = record card { pirq_pin = 1 }

abbrev first_pin : Pirq → List Pirq
first_pin p = p ∷ replicate 7 fresh_pirq

abbrev off : ℕ
off = irq_disabled

-- IRQ 3, the first that devices may have, goes to pin 1.
abbrev allocated : Router
allocated = record {
  pirqs = first_pin (record { reg = 3; use_count = 1; active_count = pos 0 });
  irq_counts = off ∷ off ∷ off ∷ 1 ∷ 0 ∷ 0 ∷ 0 ∷ 0 ∷ off ∷ 0 ∷ 0 ∷ 0 ∷ 0 ∷ off ∷ 0 ∷ 0 ∷ [];
  pirq_cold = false;
  signals = level_trigger 3 ∷ [];
}

alloc_card : pirq_alloc_pin false (pci_irq_init power_on) card ≡ some (allocated, 1)
unfolding pirq_alloc_pin pci_irq_init choose_pin find_pin route use_pin find_irq better_irq
    irq_permitted any_of
alloc_card = refl

abbrev raised : Router
raised = record allocated {
  pirqs = first_pin (record { reg = 3; use_count = 1; active_count = pos 1 });
  signals = level_trigger 3 ∷ isa_assert 3 (some 17) ∷ [];
}

raise_card : pci_irq_assert allocated wired ≡ some raised
unfolding pci_irq_assert assert_pirq incr pirq_valid_irq irq_permitted any_of
raise_card = refl

reach_raised : Reach raised
unfolding choose_pin find_pin pci_irq_init
reach_raised =
    assertion allocated raised wired
      (alloc (pci_irq_init power_on) allocated false card 1 start refl alloc_card) raise_card

reach-Balanced_example :
    asserts 3 raised.signals ≡ deasserts 3 raised.signals + driving 3 raised.pirqs
reach-Balanced_example = reach-Balanced raised 3 reach_raised

reach-IsValid_example : IsValid raised
reach-IsValid_example = reach-IsValid raised reach_raised

enabled : get_or raised.irq_counts 4 0 ≢ irq_disabled
enabled = omega arith

alloc_pin_least_example :
    (w : Router) × (i : ℕ) × (pirq_alloc_pin false raised card ≡ some (w, i + 1))
    × IsLeastUsed raised w i
alloc_pin_least_example =
    alloc_pin_least raised card 4 (reach-IsValid raised reach_raised) (omega arith) enabled
