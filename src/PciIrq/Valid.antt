-- ===== src/PciIrq/Valid.antt =====
-- The invariant of the router's tables.
use bhyve_experiments.Base.{ℕ, suc, ◌+◌, ◌<◌, ◌≡◌, ◌≢◌, refl, sym, ap, ◌∙◌, subst, true, false}
use bhyve_experiments.Base.{inl, inr, Bool-cases, List, arith, ◌==◌}
use bhyve_experiments.Base.{length, get_or, set, length-set, get_or-set_self, get_or-set_ne}
use bhyve_experiments.Base.{bit_and, ==_iff}
use bhyve_experiments.Base.Bits.{all_below, all_below_at}
use bhyve_experiments.Base.Int.{pos, incr, decr}
use native.Mathlib.Decide.{ℕ_discrete}
use bhyve_experiments.PciIrq.{
  Pirq, Signal, Router, fresh_pirq, pirq_at, irq_permitted, irq_disabled, pirq_bits,
}
use bhyve_experiments.PciIrq.{update, write_pirq, assert_pirq, deassert_pirq}

-- what holds of one pin: a count of devices that is not negative, a register within its mask
abbrev pub PirqIsValid : Pirq → Type 0
PirqIsValid p = ((k : ℕ) × (p.active_count ≡ pos k)) × (bit_and p.reg pirq_bits ≡ p.reg)

-- The IRQs that are not permitted are disabled.
abbrev pub Reserved : List ℕ → Type 0
Reserved counts = (n : ℕ) → n < 16 → irq_permitted n ≡ false → get_or counts n 0 ≡ irq_disabled

pub record IsValid (r : Router) : Type 0 where
  pub width : length r.pirqs ≡ 8
  pub irqs : length r.irq_counts ≡ 16
  pub pins : (i : ℕ) → PirqIsValid (pirq_at r i)
  pub reserved : Reserved r.irq_counts

pub pins-set :
    (ps : List Pirq) (i : ℕ) (p : Pirq)
    → i < length ps
    → ((j : ℕ) → PirqIsValid (get_or ps j fresh_pirq))
    → PirqIsValid p
    → (j : ℕ) → PirqIsValid (get_or (set ps i p) j fresh_pirq)
pins-set ps i p l h v j = elim (ℕ_discrete i j) [
  | yes e ↦
      subst (λ k. PirqIsValid (get_or (set ps i p) k fresh_pirq)) e
        (subst PirqIsValid (sym (get_or-set_self ps i p fresh_pirq l)) v)
  | no d ↦ subst PirqIsValid (sym (get_or-set_ne ps i j p fresh_pirq d)) (h j)
]

-- An entry that is enabled may take any value.
pub Reserved-set :
    (counts : List ℕ) (irq c : ℕ)
    → get_or counts irq 0 ≢ irq_disabled
    → Reserved counts
    → Reserved (set counts irq c)
Reserved-set counts irq c enabled h n l off = elim (ℕ_discrete irq n) [
  | yes e ↦ absurd (enabled (ap (λ k. get_or counts k 0) e ∙ h n l off))
  | no d ↦ get_or-set_ne counts irq n c 0 d ∙ h n l off
]

pub Reserved-disable :
    (counts : List ℕ) (irq : ℕ)
    → irq < length counts
    → Reserved counts
    → Reserved (set counts irq irq_disabled)
Reserved-disable counts irq short h n l off = elim (ℕ_discrete irq n) [
  | yes e ↦
      sym (ap (λ k. get_or (set counts irq irq_disabled) k 0) e)
      ∙ get_or-set_self counts irq irq_disabled 0 short
  | no d ↦ get_or-set_ne counts irq n irq_disabled 0 d ∙ h n l off
]

-- What is enabled is permitted.
pub permitted :
    (r : Router) (n : ℕ)
    → IsValid r
    → n < 16
    → get_or r.irq_counts n 0 ≢ irq_disabled
    → irq_permitted n ≡ true
permitted r n v l enabled = elim (Bool-cases (irq_permitted n)) [
  | inl e ↦ e
  | inr e ↦ absurd (enabled (v.reserved n l e))
]

mask_table :
    all_below 256 (λ x. bit_and (bit_and x pirq_bits) pirq_bits == bit_and x pirq_bits) ≡ true
unfolding all_below
mask_table = refl

masked_twice : (x : ℕ) → x < 256 → bit_and (bit_and x pirq_bits) pirq_bits ≡ bit_and x pirq_bits
masked_twice x h = (==_iff _ _).0 (
    all_below_at 256 x (λ y. bit_and (bit_and y pirq_bits) pirq_bits == bit_and y pirq_bits)
      mask_table h)

irq_table : all_below 16 (λ x. bit_and x pirq_bits == x) ≡ true
unfolding all_below
irq_table = refl

pub irq_masked : (x : ℕ) → x < 16 → bit_and x pirq_bits ≡ x
irq_masked x h = (==_iff _ _).0 (all_below_at 16 x (λ y. bit_and y pirq_bits == y) irq_table h)

pub write_pirq-IsValid :
    (p : Pirq) (val : ℕ) → val < 256 → PirqIsValid p → PirqIsValid (write_pirq p val).0
unfolding write_pirq
write_pirq-IsValid p val h (active, reg) = elim (Bool-cases (p.reg == bit_and val pirq_bits)) [
  | inl e ↦ rw e (active, reg)
  | inr e ↦ rw e (active, masked_twice val h)
]

pub assert_pirq-IsValid : (p : Pirq) (io : ℕ) → PirqIsValid p → PirqIsValid (assert_pirq p io).0
unfolding assert_pirq incr
assert_pirq-IsValid p io ((k, active), reg) = ((k + 1, ap incr active), reg)

pub deassert_pirq-IsValid :
    (p : Pirq) (io k : ℕ)
    → p.active_count ≡ pos (suc k)
    → PirqIsValid p
    → PirqIsValid (deassert_pirq p io).0
unfolding deassert_pirq decr
deassert_pirq-IsValid p io k active (_, reg) = ((k, ap decr active), reg)

-- A change of one pin, with its calls.
pub update-IsValid :
    (r : Router) (i : ℕ) (change : Pirq × List Signal)
    → i < 8
    → IsValid r
    → PirqIsValid change.0
    → IsValid (update r i change)
update-IsValid r i (p, called) l v h = record {
  width = length-set r.pirqs i p ∙ v.width;
  irqs = v.irqs;
  pins = pins-set r.pirqs i p (omega (arith, v.width)) v.pins h;
  reserved = v.reserved;
}
