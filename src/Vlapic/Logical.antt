-- ===== src/Vlapic/Logical.antt =====
-- Logical destinations of the local APIC, bios/vmm/io/vlapic.c, told by the digits of the numbers.
use bhyve_experiments.Base.{
  ℕ, zero, suc, ◌*◌, ◌/◌, ◌%◌, ◌^◌, ◌≡◌, refl, sym, ap, ◌∙◌, arith, Bool, true, false, not, ◌&&◌,
  ◌||◌, if◌then◌else◌, bit_and, ◌==◌,
}
use bhyve_experiments.Base.Bits.{any_of}
use bhyve_experiments.Base.Words.{digit, bit_and_step, bit_and-mask, mod_step}
use Prim.Native.Nat.{bit_and-bitwise}
use native.Mathlib.Nat.{pow-suc}
use bhyve_experiments.Vlapic.Apic.{Vlapic}
use bhyve_experiments.Vlapic.Access.{x2apic}
use bhyve_experiments.Vlapic.Machine.{is_addressed}

-- Is there a place below `n` at which both numbers have a 1?
unfoldable pub share_bit : ℕ → ℕ → ℕ → Bool
share_bit zero x y = false
share_bit (suc n) x y = (digit n x == 1 && digit n y == 1) || share_bit n x y

-- Is an APIC among those of a logical destination? The highest digit of DFR tells the model, 15 for the
-- flat one and 0 for clusters. In the flat model the destination and the highest byte of LDR have a 1 in
-- common. In the other one the cluster is the same, and so is one of the places in it: an APIC has 16
-- places in x2APIC mode, else four, and so has a destination.
abbrev pub is_logical : Vlapic → ℕ → Bool → Bool
is_logical v dest x2apic_dest =
    let model = v.dfr / 2 ^ 28 % 2 ^ 4 in
    if model == 15
    then share_bit 8 dest (v.ldr / 2 ^ 24)
    else if model == 0
    then (if x2apic v then v.ldr / 2 ^ 16 else v.ldr / 2 ^ 28)
        == (if x2apic_dest then dest / 2 ^ 16 else dest / 2 ^ 4 % 2 ^ 4)
      && share_bit (if x2apic_dest then 16 else 4) dest
          (if x2apic v then v.ldr % 2 ^ 16 else v.ldr / 2 ^ 24 % 2 ^ 4)
    else false

any_of-step : (a b : ℕ) → any_of a b ≡ ((a % 2 == 1 && b % 2 == 1) || any_of (a / 2) (b / 2))
unfolding any_of
any_of-step a b = ground (arith, bit_and_step a b)

share_bit-suc :
    (n x y : ℕ)
    → share_bit (suc n) x y ≡ ((x % 2 == 1 && y % 2 == 1) || share_bit n (x / 2) (y / 2))
unfolding share_bit
share_bit-suc zero x y = refl
share_bit-suc (suc n) x y =
    ap (λ b. (digit n (x / 2) == 1 && digit n (y / 2) == 1) || b) (share_bit-suc n x y)
    ∙ swap (digit n (x / 2) == 1 && digit n (y / 2) == 1) (x % 2 == 1 && y % 2 == 1)
        (share_bit n (x / 2) (y / 2))
  where
    swap : (a b c : Bool) → (a || (b || c)) ≡ (b || (a || c))
    swap a b c = ground arith

any_of-share_bit : (n x y : ℕ) → any_of (x % 2 ^ n) y ≡ share_bit n x y
unfolding any_of share_bit
any_of-share_bit zero x y =
    let none_left : x % 1 ≡ 0 = omega arith in
    ap (λ z. not (bit_and z y == 0)) none_left ∙ ap (λ (z : ℕ). not (z == 0)) (bit_and-bitwise 0 y)
any_of-share_bit (suc n) x y =
    let half : x % 2 ^ suc n / 2 ≡ x / 2 % 2 ^ n = omega (arith, mod_step n x) in
    let low : x % 2 ^ suc n % 2 ≡ x % 2 = omega (arith, mod_step n x) in
    any_of-step (x % 2 ^ suc n) y
    ∙ ap (λ d. (d == 1 && y % 2 == 1) || any_of (x % 2 ^ suc n / 2) (y / 2)) low
    ∙ ap (λ h. (x % 2 == 1 && y % 2 == 1) || any_of h (y / 2)) half
    ∙ ap (λ b. (x % 2 == 1 && y % 2 == 1) || b) (any_of-share_bit n (x / 2) (y / 2))
    ∙ sym (share_bit-suc n x y)

-- the number without its `k` lowest digits
abbrev halves : ℕ → ℕ → ℕ
halves zero x = x
halves (suc k) x = halves k (x / 2)

bit_and-shifted : (k x m : ℕ) → bit_and x (m * 2 ^ k) ≡ bit_and (halves k x) m * 2 ^ k
bit_and-shifted zero x m = let same : m * 1 ≡ m = omega arith in ap (bit_and x) same ∙ omega arith
bit_and-shifted (suc k) x m =
    let half : m * 2 ^ suc k / 2 ≡ m * 2 ^ k = omega (arith, double m k) in
    let even : m * 2 ^ suc k % 2 ≡ 0 = omega (arith, double m k) in
    omega (
      arith,
      bit_and_step x (m * 2 ^ suc k),
      even,
      ap (bit_and (x / 2)) half,
      bit_and-shifted k (x / 2) m,
      double (bit_and (halves k (x / 2)) m) k,
    )
  where
    double : (m k : ℕ) → m * 2 ^ suc k ≡ 2 * (m * 2 ^ k)
    double m k = ap (λ (t : ℕ). m * t) (pow-suc 2 k) ∙ grind arith

model_of : (x : ℕ) → bit_and x 0xf0000000 ≡ x / 2 ^ 28 % 2 ^ 4 * 2 ^ 28
model_of x =
    let top : halves 28 x ≡ x / 2 ^ 28 = omega arith in
    bit_and-shifted 28 x 15
    ∙ ap (λ (t : ℕ). bit_and t 15 * 2 ^ 28) top
    ∙ ap (λ (t : ℕ). t * 2 ^ 28) (bit_and-mask 4 (x / 2 ^ 28))

-- places in a cluster
in_cluster :
    (dest y : ℕ) (wide : Bool)
    → any_of (if wide then dest % 2 ^ 16 else dest % 2 ^ 4) y
      ≡ share_bit (if wide then 16 else 4) dest y
in_cluster dest y true = any_of-share_bit 16 dest y
in_cluster dest y false = any_of-share_bit 4 dest y

pub is_addressed-logical :
    (v : Vlapic) (dest : ℕ) (x2apic_dest : Bool)
    → is_addressed v dest x2apic_dest ≡ is_logical v dest x2apic_dest
unfolding is_addressed
is_addressed-logical v dest x2 =
    let flat : (bit_and v.dfr 0xf0000000 == 0xf0000000) ≡ (v.dfr / 2 ^ 28 % 2 ^ 4 == 15) =
      ground (arith, model_of v.dfr) in
    let clusters : (bit_and v.dfr 0xf0000000 == 0) ≡ (v.dfr / 2 ^ 28 % 2 ^ 4 == 0) =
      ground (arith, model_of v.dfr) in
    let places = if x2apic v then v.ldr % 2 ^ 16 else v.ldr / 2 ^ 24 % 2 ^ 4 in
    rw (flat, clusters, any_of-share_bit 8 dest (v.ldr / 2 ^ 24), in_cluster dest places x2) refl
