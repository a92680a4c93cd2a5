-- ===== src/Vatpit/Run.antt =====
-- Calls of the interval timer, bios/vmm/io/vatpit.c, from its start on.
use bhyve_experiments.Base.{
  ℕ, ◌<◌, ◌≤◌, ◌≡◌, ◌≢◌, ◌⊎◌, inl, inr, refl, subst, arith, Bool, true, false, Option, none, some,
  if◌then◌else◌, List, [], ◌∷◌,
}
use bhyve_experiments.Base.{ltb, ◌>>=◌, Bool-cases}
use bhyve_experiments.Base.Ends.{Ends, ended, then-Ends, either-Ends}
use bhyve_experiments.Vatpit.Channel.{get_out}
use bhyve_experiments.Vatpit.Ports.{Vatpit, callout_handler, handler, init, nmisc_handler}
use bhyve_experiments.Vatpit.Places.{output-Ends}
use bhyve_experiments.Vatpit.Access.{InPlace, asks_output, callout-Places, handler-Ends}

-- what the timer is called for: an access to its ports, the expiry of its callout, and an access to
-- port 61h, where a guest reads the output of channel 2
pub data Call : Type 0 where
  access : (is_in : Bool) (port bytes eax now : ℕ) → Call
  expire : (now : ℕ) → Call
  nmisc : (is_in : Bool) (eax now : ℕ) → Call

-- the timer after a call: `none` is a failed assertion, a division by 0 or an access outside of a
-- register.
unfoldable pub call : Vatpit → Call → Option Vatpit
call v (access is_in port bytes eax now) = handler v is_in port bytes eax now >>= (λ r. some r.0)
call v (expire now) = some (callout_handler v now)
call v (nmisc is_in eax now) = nmisc_handler v is_in eax now >>= (λ r. some v)

-- An access is to one of the ports 40h to 43h, and the output of a channel is asked for only when
-- each channel has a count.
unfoldable pub IsSound : Bool → Call → Type 0
IsSound all_counted (access is_in port bytes eax now) =
    (0x40 ≤ port) × (port ≤ 0x43) × ((asks_output is_in port eax ≡ false) ⊎ (all_counted ≡ true))
IsSound all_counted (expire now) = Unit {0}
IsSound all_counted (nmisc is_in eax now) = (is_in ≡ false) ⊎ (all_counted ≡ true)

-- What calls, each of which ended, lead to from the start; and whether each of the three channels had a
-- count at some time.
pub data Reach : Bool → Vatpit → Type 0 where
  started : Reach false init
  counted :
      (v : Vatpit) → Reach false v → ((i : ℕ) → i < 3 → (v.channel i).initial ≢ 0) → Reach true v
  called :
      (all_counted : Bool) (v w : Vatpit) (c : Call)
      → Reach all_counted v
      → IsSound all_counted c
      → call v c ≡ some w
      → Reach all_counted w

output_read-Ends :
    (v : Vatpit) (is_in : Bool) (eax now : ℕ)
    → InPlace true v
    → Ends (λ (n : ℕ). Unit {0}) (nmisc_handler v is_in eax now)
unfolding nmisc_handler
output_read-Ends v is_in eax now ok =
    either-Ends _ is_in _ _
      (λ e.
        then-Ends (λ (b : Bool). Unit {0}) _ (get_out (v.channel 2) now)
          (λ out. some (if out then 0x20 else 0)) (output-Ends (v.channel 2) now (ok 2))
          (λ out u. ended _ tt))
      (λ e. ended eax tt)

call-Ends :
    (all_counted : Bool) (v : Vatpit) (c : Call)
    → InPlace all_counted v
    → IsSound all_counted c
    → Ends (InPlace all_counted) (call v c)
unfolding call IsSound
call-Ends all_counted v (access is_in port bytes eax now) ok (low, high, asks) =
    then-Ends (λ r. InPlace all_counted r.0) _ (handler v is_in port bytes eax now) _
      (handler-Ends all_counted v ok is_in port bytes eax now low high asks) (λ r k. ended _ k)
call-Ends all_counted v (expire now) ok s = ended _ (callout-Places _ v now ok)
call-Ends true v (nmisc is_in eax now) ok s =
    then-Ends (λ (n : ℕ). Unit {0}) _ (nmisc_handler v is_in eax now) _
      (output_read-Ends v is_in eax now ok) (λ r u. ended _ ok)
call-Ends false v (nmisc is_in eax now) ok (inl s) = rw s (unfold nmisc_handler in ended v ok)
call-Ends false v (nmisc is_in eax now) ok (inr s) = absurd (ground arith)

init-InPlace : InPlace false init
unfolding init
init-InPlace i = record {
  write_place = omega arith;
  latch_place = omega arith;
  has_count = inl refl;
}

result_of : (P : Vatpit → Type 0) (x : Option Vatpit) (w : Vatpit) → Ends P x → x ≡ some w → P w
result_of P _ w (ended a p) e = subst P (cc) p

Reach-InPlace : (all_counted : Bool) (v : Vatpit) → Reach all_counted v → InPlace all_counted v
Reach-InPlace _ _ started = init-InPlace
Reach-InPlace _ _ (counted v before n) = λ i.
    let ok = Reach-InPlace false v before in
    record {
      write_place = (ok i).write_place;
      latch_place = (ok i).latch_place;
      has_count = elim (Bool-cases (ltb i 3)) [
        | inl l ↦ inr (n i (ground arith))
        | inr l ↦ inl (ground arith)
      ];
    }
Reach-InPlace _ _ (called all_counted v w c before sound e) =
    result_of (InPlace all_counted) _ w
      (call-Ends all_counted v c (Reach-InPlace all_counted v before) sound) e

-- From the start on, accesses to the ports 40h to 43h and the expiry of the callout end, inside of the
-- registers of the channels, in any order; the exception is a command that reads the status back. From
-- the time on at which each of the three channels has a count, this command ends too, and so does a read
-- of the output of channel 2 at port 61h, and each channel keeps a count, also over new modes and counts
-- of 0.
pub Reach-call :
    (all_counted : Bool) (v : Vatpit) (c : Call)
    → Reach all_counted v
    → IsSound all_counted c
    → Ends (InPlace all_counted) (call v c)
Reach-call all_counted v c reach sound =
    call-Ends all_counted v c (Reach-InPlace all_counted v reach) sound

unfoldable pub calls : Vatpit → List Call → Option Vatpit
calls v [] = some v
calls v (c ∷ cs) = call v c >>= (λ w. calls w cs)

unfoldable pub AllSound : Bool → List Call → Type 0
AllSound all_counted [] = Unit {0}
AllSound all_counted (c ∷ cs) = IsSound all_counted c × AllSound all_counted cs

first_of :
    (x : Option Vatpit) (f : Vatpit → Option Vatpit) (w : Vatpit)
    → (x >>= f) ≡ some w
    → (u : Vatpit) × (x ≡ some u) × (f u ≡ some w)
first_of none f w e = absurd (ground arith)
first_of (some u) f w e = (u, refl, e)

pub calls-Reach :
    (all_counted : Bool) (v w : Vatpit) (cs : List Call)
    → Reach all_counted v
    → AllSound all_counted cs
    → calls v cs ≡ some w
    → Reach all_counted w
unfolding calls AllSound
calls-Reach b v w [] reach sound e = subst (Reach b) (cc) reach
calls-Reach b v w (c ∷ cs) reach (s, sound) e =
    let (u, d, h) = first_of (call v c) (λ u. calls u cs) w e in
    calls-Reach b u w cs (called b v u c reach s d) sound h
