-- ===== src/PciIrq/Route.antt =====
-- The calls that hand out pins and IRQs keep the tables in order and the lines at their levels.
use bhyve_experiments.Base.{
  ℕ, zero, suc, ◌+◌, ◌%◌, ◌^◌, ◌≤◌, ◌<◌, ◌≡◌, ◌≢◌, refl, ap, ◌∙◌, subst, Bool, true, false,
}
use bhyve_experiments.Base.{
  inl, inr, Bool-cases, List, [], ◌∷◌, arith, some, none, Option, ◌==◌, not, ◌&&◌,
}
use bhyve_experiments.Base.{length, get_or, set, drop, ltb, length-set, get_or-set_self}
use bhyve_experiments.Base.{length-drop, ◌>>=◌, ◌||◌}
use bhyve_experiments.Base.Int.{pos}
use bhyve_experiments.PciIrq.{Pirq, Router, Devinst, fresh_pirq, pirq_at, irq_disabled}
use bhyve_experiments.PciIrq.{pci_irq_reserve, pci_irq_use}
use bhyve_experiments.PciIrq.{
  route, use_pin, choose_pin, find_pin, find_irq, pirq_alloc_pin, pirq_dis,
}
use bhyve_experiments.PciIrq.{level_trigger}
use bhyve_experiments.PciIrq.Level.{driving-set, routed, one}
use bhyve_experiments.PciIrq.Level.{asserts-append, deasserts-append}
use bhyve_experiments.PciIrq.Alloc.{Best, find_irq-Best, find_pin_least}
use bhyve_experiments.PciIrq.Valid.{
  IsValid, Reserved, pins-set, Reserved-set, Reserved-disable, irq_masked,
}
use bhyve_experiments.PciIrq.Calls.{Good, All}

-- other counts, in order too
counts-Good :
    (r : Router) (irq c : ℕ)
    → Reserved (set r.irq_counts irq c)
    → Good r
    → Good (record r { irq_counts = set r.irq_counts irq c })
counts-Good r irq c h (v, b) = (
  record {
    width = v.width;
    irqs = length-set r.irq_counts irq c ∙ v.irqs;
    pins = v.pins;
    reserved = h;
  },
  b,
)

guard_lt : (irq : ℕ) (cold test : Bool) → (ltb irq 16 && cold && test) ≡ true → irq < 16
guard_lt irq cold test h = ground arith

guard_test : (irq : ℕ) (cold test : Bool) → (ltb irq 16 && cold && test) ≡ true → test ≡ true
guard_test irq cold test h = ground arith

not_disabled : (c : ℕ) → not (c == irq_disabled) ≡ true → c ≢ irq_disabled
not_disabled c h = ground arith

pub pci_irq_reserve-Good : (r : Router) (irq : ℕ) → Good r → All Good (pci_irq_reserve r irq)
unfolding pci_irq_reserve
pci_irq_reserve-Good r irq g =
    let c = get_or r.irq_counts irq 0 in
    elim (Bool-cases (ltb irq 16 && r.pirq_cold && (c == 0 || c == irq_disabled))) [
      | inl e ↦
          let short : irq < length r.irq_counts =
            omega (arith, g.0.irqs, guard_lt irq r.pirq_cold (c == 0 || c == irq_disabled) e) in
          rw e (
            counts-Good r irq irq_disabled (Reserved-disable r.irq_counts irq short g.0.reserved) g)
      | inr e ↦ rw e tt
    ]

pub pci_irq_use-Good : (r : Router) (irq : ℕ) → Good r → All Good (pci_irq_use r irq)
unfolding pci_irq_use
pci_irq_use-Good r irq g =
    let c = get_or r.irq_counts irq 0 in
    elim (Bool-cases (ltb irq 16 && r.pirq_cold && not (c == irq_disabled))) [
      | inl e ↦
          let enabled = not_disabled c (guard_test irq r.pirq_cold (not (c == irq_disabled)) e) in
          rw e (
            counts-Good r irq ((c + 1) % 2 ^ 8)
              (Reserved-set r.irq_counts irq ((c + 1) % 2 ^ 8) enabled g.0.reserved) g)
      | inr e ↦ rw e tt
    ]

-- A pin without an active device drives no line, before and after a change of its register.
idle : (n : ℕ) (p : Pirq) → p.active_count ≡ pos 0 → routed n p ≡ false
idle n p h = rw h

use_pin-Good : (r : Router) (i : ℕ) → i < 8 → Good r → Good (use_pin r i)
unfolding use_pin
use_pin-Good r i l (v, b) = (
  record {
    width = length-set r.pirqs i used ∙ v.width;
    irqs = v.irqs;
    pins = pins-set r.pirqs i used (omega (arith, v.width)) v.pins (v.pins i);
    reserved = v.reserved;
  },
  λ n. omega (arith, b n, driving-set n r.pirqs i used (omega (arith, v.width))),
)
  where
    used : Pirq
    used = record (pirq_at r i) { use_count = (pirq_at r i).use_count + 1 }

-- The scan finds an IRQ that is enabled, if there is one, and its entry is the least.
pub found-Best :
    (r : Router) → IsValid r → Best (λ j. get_or r.irq_counts j 0) 16 (find_irq r.irq_counts 0 none)
found-Best r v =
    let sixteen : 0 + length r.irq_counts ≡ 16 = omega (arith, v.irqs) in
    subst (λ k. Best (λ j. get_or r.irq_counts j 0) k (find_irq r.irq_counts 0 none)) sixteen
      (find_irq-Best (λ j. get_or r.irq_counts j 0) r.irq_counts 0 none
        (λ j l. ap (λ k. get_or r.irq_counts k 0) (omega arith)) (λ j l. absurd (omega arith)))

route-Good :
    (r : Router) (i : ℕ) (best : Option (ℕ × ℕ))
    → i < 8
    → (pirq_at r i).active_count ≡ pos 0
    → Best (λ j. get_or r.irq_counts j 0) 16 best
    → Good r
    → All Good (route r i best)
unfolding route
route-Good r i none l quiet best g = tt
route-Good r i (some (irq, c)) l quiet (irq_lt, at_irq, enabled, least) (v, b) = (
  record {
    width = length-set r.pirqs i p ∙ v.width;
    irqs = length-set r.irq_counts irq ((c + 1) % 2 ^ 8) ∙ v.irqs;
    pins =
        pins-set r.pirqs i p (omega (arith, v.width)) v.pins ((v.pins i).0, irq_masked irq irq_lt);
    reserved =
        Reserved-set r.irq_counts irq ((c + 1) % 2 ^ 8) (λ e. enabled (at_irq ∙ e)) v.reserved;
  },
  λ n. omega (
    arith,
    b n,
    driving-set n r.pirqs i p (omega (arith, v.width)),
    ap one (idle n p quiet),
    ap one (idle n (pirq_at r i) quiet),
    asserts-append n r.signals (level_trigger irq ∷ []),
    deasserts-append n r.signals (level_trigger irq ∷ []),
  ),
)
  where
    p : Pirq
    p = record (pirq_at r i) { reg = irq }

get_or-drop_one :
    (ps : List Pirq) (j : ℕ) → get_or (drop 1 ps) j fresh_pirq ≡ get_or ps (1 + j) fresh_pirq
get_or-drop_one [] j = refl
get_or-drop_one (p ∷ ps) j = let next : 1 + j ≡ suc j = omega arith in rw next

-- The scan takes a pin that is used least.
pub least_pin :
    (r : Router)
    → IsValid r
    → let i = find_pin (drop 1 r.pirqs) 1 0 (pirq_at r 0).use_count in
      (i < 8) × ((j : ℕ) → j < 8 → (pirq_at r i).use_count ≤ (pirq_at r j).use_count)
least_pin r v =
    let all : 1 + length (drop 1 r.pirqs) ≡ 8 = omega (arith, length-drop 1 r.pirqs, v.width) in
    subst
      (λ k.
        (find_pin (drop 1 r.pirqs) 1 0 (pirq_at r 0).use_count < k)
        × ((j : ℕ)
            → j < k
            → (pirq_at r (find_pin (drop 1 r.pirqs) 1 0 (pirq_at r 0).use_count)).use_count
              ≤ (pirq_at r j).use_count))
      all
      (find_pin_least (λ j. (pirq_at r j).use_count) (drop 1 r.pirqs) 1 0
        (λ j l. ap (λ (p : Pirq). p.use_count) (get_or-drop_one r.pirqs j)) (omega arith) first)
  where
    first : (j : ℕ) → j < 1 → (pirq_at r 0).use_count ≤ (pirq_at r j).use_count
    first zero h = omega arith
    first (suc j) h = absurd (omega arith)

pub choose_pin-lt :
    (bootrom : Bool) (r : Router) (pi : Devinst) → IsValid r → choose_pin bootrom r pi < 8
unfolding choose_pin
choose_pin-lt true r pi v = omega arith
choose_pin-lt false r pi v = (least_pin r v).0

pub pirq_alloc_pin-Good :
    (bootrom : Bool) (r : Router) (pi : Devinst)
    → (pirq_at r (choose_pin bootrom r pi)).active_count ≡ pos 0
    → Good r
    → All (λ result. Good result.0) (pirq_alloc_pin bootrom r pi)
unfolding pirq_alloc_pin use_pin
pirq_alloc_pin-Good bootrom r pi quiet g =
    let i = choose_pin bootrom r pi in
    let l = choose_pin-lt bootrom r pi g.0 in
    let still : (pirq_at (use_pin r i) i).active_count ≡ pos 0 =
      ap (λ (p : Pirq). p.active_count)
        (get_or-set_self r.pirqs i _ fresh_pirq (omega (arith, g.0.width)))
      ∙ quiet in
    let routed_Good =
      route-Good (use_pin r i) i (find_irq r.irq_counts 0 none) l still (found-Best r g.0)
        (use_pin-Good r i l g) in
    elim (Bool-cases ((pirq_at r i).reg == pirq_dis)) [
      | inl e ↦
          rw e (after (route (use_pin r i) i (find_irq r.irq_counts 0 none)) (i + 1) routed_Good)
      | inr e ↦ rw e (use_pin-Good r i l g)
    ]
  where
    after :
        (o : Option Router) (pin : ℕ)
        → All Good o
        → All (λ (result : Router × ℕ). Good result.0) (o >>= (λ routed. some (routed, pin)))
    after none pin h = h
    after (some w) pin h = h
