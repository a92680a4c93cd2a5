-- ===== src/PciIrq/Reach.antt =====
-- Every sequence of calls into the router, from its initialisation on.
use bhyve_experiments.Base.{ℕ, zero, suc, ◌+◌, ◌<◌, ◌≡◌, refl, sym, subst, Bool, true, false}
use bhyve_experiments.Base.{[], arith, some, ◌==◌}
use bhyve_experiments.Base.{get_or, replicate}
use bhyve_experiments.Base.{◌||◌}
use bhyve_experiments.Base.Int.{pos}
use bhyve_experiments.PciIrq.{
  Pirq, Router, Devinst, fresh_pirq, pirq_at, irq_permitted, irq_disabled,
}
use bhyve_experiments.PciIrq.{pirq_write}
use bhyve_experiments.PciIrq.{pci_irq_assert, pci_irq_deassert, pci_irq_reserve, pci_irq_use}
use bhyve_experiments.PciIrq.{choose_pin, pirq_alloc_pin}
use bhyve_experiments.PciIrq.{pci_irq_init, init_counts}
use bhyve_experiments.PciIrq.Level.{driving, asserts, deasserts}
use bhyve_experiments.PciIrq.Valid.{IsValid, PirqIsValid}
use bhyve_experiments.Base.Bits.{any_of, all_below, all_below_at}
use bhyve_experiments.PciIrq.Route.{pci_irq_reserve-Good, pci_irq_use-Good, pirq_alloc_pin-Good}
use bhyve_experiments.PciIrq.Calls.{
  Good, All, IsActive, pirq_write-Good, pci_irq_assert-Good, pci_irq_deassert-Good,
}

-- the variables of the file when the program starts
abbrev pub power_on : Router
power_on = record {
  pirqs = replicate 8 (record fresh_pirq { reg = 0 });
  irq_counts = replicate 16 0;
  pirq_cold = true;
  signals = [];
}

-- The states that calls lead to which do not abort. Pins are given to devices while none of theirs
-- is active, and a device deasserts only what it has asserted.
pub data Reach : Router → Type 0 where
  start : Reach (pci_irq_init power_on)
  reserve : (r w : Router) (irq : ℕ) → Reach r → pci_irq_reserve r irq ≡ some w → Reach w
  use_irq : (r w : Router) (irq : ℕ) → Reach r → pci_irq_use r irq ≡ some w → Reach w
  alloc :
      (r w : Router) (bootrom : Bool) (pi : Devinst) (pin : ℕ)
      → Reach r
      → (pirq_at r (choose_pin bootrom r pi)).active_count ≡ pos 0
      → pirq_alloc_pin bootrom r pi ≡ some (w, pin)
      → Reach w
  write :
      (r w : Router) (pin val : ℕ) → Reach r → val < 256 → pirq_write r pin val ≡ some w → Reach w
  assertion : (r w : Router) (pi : Devinst) → Reach r → pci_irq_assert r pi ≡ some w → Reach w
  deassertion :
      (r w : Router) (pi : Devinst)
      → Reach r
      → IsActive r pi
      → pci_irq_deassert r pi ≡ some w
      → Reach w

get_or-replicate : (n i : ℕ) (p : Pirq) → get_or (replicate n p) i p ≡ p
get_or-replicate zero i p = refl
get_or-replicate (suc n) zero p = refl
get_or-replicate (suc n) (suc i) p = get_or-replicate n i p

reserved_table :
    all_below 16 (λ n. irq_permitted n || (get_or (init_counts 16 0) n 0 == irq_disabled)) ≡ true
unfolding all_below irq_permitted any_of
reserved_table = refl

either : (a : Bool) (c : ℕ) → (a || (c == irq_disabled)) ≡ true → a ≡ false → c ≡ irq_disabled
either a c h e = ground arith

start-Good : Good (pci_irq_init power_on)
unfolding pci_irq_init
start-Good = (
  record {
    width = refl;
    irqs = refl;
    pins = λ i. subst PirqIsValid (sym (get_or-replicate 8 i fresh_pirq)) ((0, refl), refl);
    reserved = λ n l e.
        either (irq_permitted n) (get_or (init_counts 16 0) n 0)
          (all_below_at 16 n
            (λ k. irq_permitted k || (get_or (init_counts 16 0) k 0 == irq_disabled)) reserved_table
            l)
          e;
  },
  λ n. refl,
)

reach-Good : (r : Router) → Reach r → Good r
reach-Good _ start = start-Good
reach-Good _ (reserve r w irq h e) =
    subst (All Good) e (pci_irq_reserve-Good r irq (reach-Good r h))
reach-Good _ (use_irq r w irq h e) = subst (All Good) e (pci_irq_use-Good r irq (reach-Good r h))
reach-Good _ (alloc r w bootrom pi pin h quiet e) =
    subst (All (λ result. Good result.0)) e
      (pirq_alloc_pin-Good bootrom r pi quiet (reach-Good r h))
reach-Good _ (write r w pin val h short e) =
    subst (All Good) e (pirq_write-Good r pin val short (reach-Good r h))
reach-Good _ (assertion r w pi h e) = subst (All Good) e (pci_irq_assert-Good r pi (reach-Good r h))
reach-Good _ (deassertion r w pi h active e) =
    subst (All Good) e (pci_irq_deassert-Good r pi active (reach-Good r h))

-- Where devices get pins that are not active and deassert only what they have asserted, in every
-- state that the calls reach each IRQ was asserted as often as it was deasserted, and once more for
-- each pin that is routed to it and has an active device.
pub reach-Balanced :
    (r : Router) (n : ℕ) → Reach r → asserts n r.signals ≡ deasserts n r.signals + driving n r.pirqs
reach-Balanced r n h = (reach-Good r h).1 n

-- Under the same conditions, in every state that the calls reach there are 8 pins and 16 IRQs, no
-- pin has a negative number of active devices or a register with other bits than its own, and the
-- IRQs that the devices may not have are disabled.
pub reach-IsValid : (r : Router) → Reach r → IsValid r
reach-IsValid r h = (reach-Good r h).0
