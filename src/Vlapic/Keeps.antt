-- ===== src/Vlapic/Keeps.antt =====
-- The interrupts in service and the destination of the command register under the operations of
-- bios/vmm/io/vlapic.c that are for something else.
use bhyve_experiments.Base.{
  ℕ, zero, suc, ◌-◌, ◌≡◌, inl, inr, refl, ◌∙◌, arith, subst, Bool, false, List, [], ◌∷◌, bit_and,
}
use bhyve_experiments.Base.{◌==◌, Bool-cases, get_or}
use bhyve_experiments.Vlapic.Apic.{
  Vlapic, emit, set_ready, notified, fire_with, note_error, set_error, fire_lvt, set_intr_ready,
  trigger_lvt, callout_stop, send_illegal_vector, receive_illegal_vector,
}
use bhyve_experiments.Vlapic.Access.{
  dfr_write_handler, ldr_write_handler, icrtmr_write_handler, lvt_write_handler, mask_lvt,
  mask_lvts, svr_write_handler, set_tmr, reset_from, fire_timer,
}
use bhyve_experiments.Vlapic.Machine.{Machine, on, take_intr, for_each}

pub record Keeps (v w : Vlapic) : Type 0 where
  pub kept_serv : w.serv ≡ v.serv
  pub kept_hi : w.icr_hi ≡ v.icr_hi

pub same-Keeps : (v : Vlapic) → Keeps v v
same-Keeps v = record { kept_serv = refl; kept_hi = refl }

pub then-Keeps : (u v w : Vlapic) → Keeps u v → Keeps v w → Keeps u w
then-Keeps u v w a b = record {
  kept_serv = b.kept_serv ∙ a.kept_serv;
  kept_hi = b.kept_hi ∙ a.kept_hi;
}

pub plain-Keeps : (v w : Vlapic) → w.serv ≡ v.serv → w.icr_hi ≡ v.icr_hi → Keeps v w
plain-Keeps v w p q = record { kept_serv = p; kept_hi = q }

pub set_ready-Keeps : (v : Vlapic) (vector : ℕ) → Keeps v (set_ready v vector).0
unfolding set_ready
set_ready-Keeps v vector = record { kept_serv = ground (arith); kept_hi = ground (arith) }

notified-Keeps : (v : Vlapic) (r : Vlapic × Bool) → Keeps v r.0 → Keeps v (notified r)
notified-Keeps v (w, taken) k = record {
  kept_serv = ground (arith, k.kept_serv);
  kept_hi = ground (arith, k.kept_hi);
}

fire_with-Keeps :
    (illegal : Vlapic → Vlapic)
    → ((u : Vlapic) → Keeps u (illegal u))
    → (v : Vlapic) (lvt : ℕ) → Keeps v (fire_with illegal v lvt).0
unfolding fire_with
fire_with-Keeps illegal h v lvt =
    let ready = set_ready-Keeps v (bit_and (get_or v.lvt_last lvt 0) 0xff) in
    record {
      kept_serv = ground (arith, (h v).kept_serv, ready.kept_serv);
      kept_hi = ground (arith, (h v).kept_hi, ready.kept_hi);
    }

pub set_error-Keeps :
    (mask : ℕ) (lvt_error : Bool) (v : Vlapic) → Keeps v (set_error mask lvt_error v)
unfolding set_error
set_error-Keeps mask lvt_error v =
    let fired =
      fire_with-Keeps (note_error send_illegal_vector) (λ u. plain-Keeps u _ refl refl)
        (note_error mask v) 3 in
    record { kept_serv = ground (arith, fired.kept_serv); kept_hi = ground (arith, fired.kept_hi) }

pub fire_lvt-Keeps : (v : Vlapic) (lvt : ℕ) → Keeps v (fire_lvt v lvt).0
unfolding fire_lvt
fire_lvt-Keeps v lvt = fire_with-Keeps _ (set_error-Keeps send_illegal_vector (lvt == 3)) v lvt

pub take_intr-Keeps : (vector : ℕ) (v : Vlapic) → Keeps v (take_intr vector v)
unfolding set_intr_ready
take_intr-Keeps vector v =
    let error = set_error-Keeps receive_illegal_vector false v in
    let ready = set_ready-Keeps v vector in
    record {
      kept_serv = ground (arith, error.kept_serv, ready.kept_serv);
      kept_hi = ground (arith, error.kept_hi, ready.kept_hi);
    }

pub trigger_lvt-Keeps : (v : Vlapic) (vector : ℕ) → Keeps v (trigger_lvt v vector).0
unfolding trigger_lvt
trigger_lvt-Keeps v vector =
    let fired = fire_lvt-Keeps v vector in
    record { kept_serv = ground (arith, fired.kept_serv); kept_hi = ground (arith, fired.kept_hi) }

pub dfr-Keeps : (v : Vlapic) → Keeps v (dfr_write_handler v)
unfolding dfr_write_handler
dfr-Keeps v = record { kept_serv = ground (arith); kept_hi = ground (arith) }

pub ldr-Keeps : (v : Vlapic) → Keeps v (ldr_write_handler v)
unfolding ldr_write_handler
ldr-Keeps v = record { kept_serv = ground (arith); kept_hi = ground (arith) }

pub icrtmr-Keeps : (v : Vlapic) → Keeps v (icrtmr_write_handler v)
unfolding icrtmr_write_handler
icrtmr-Keeps v = record { kept_serv = ground (arith); kept_hi = ground (arith) }

pub lvt-Keeps : (idx : ℕ) (v : Vlapic) → Keeps v (lvt_write_handler idx v)
unfolding lvt_write_handler
lvt-Keeps idx v = plain-Keeps v _ refl refl

pub mask_lvts-Keeps : (v : Vlapic) → Keeps v (mask_lvts v)
unfolding mask_lvts mask_lvt lvt_write_handler
mask_lvts-Keeps v = plain-Keeps v _ refl refl

pub svr-Keeps : (v : Vlapic) → Keeps v (svr_write_handler v)
unfolding svr_write_handler
svr-Keeps v =
    let off : Vlapic = emit (record v { svr_last = v.svr }) callout_stop in
    let on : Vlapic = record v { svr_last = v.svr } in
    let masked = mask_lvts-Keeps off in
    let timer = icrtmr-Keeps on in
    record {
      kept_serv = ground (arith, masked.kept_serv, timer.kept_serv);
      kept_hi = ground (arith, masked.kept_hi, timer.kept_hi);
    }

pub set_tmr-Keeps : (vector : ℕ) (level : Bool) (v : Vlapic) → Keeps v (set_tmr vector level v)
unfolding set_tmr
set_tmr-Keeps vector level v = plain-Keeps v _ refl refl

pub reset_from-Keeps : (n : ℕ) (v : Vlapic) → Keeps v (reset_from n v)
unfolding reset_from
reset_from-Keeps zero v = same-Keeps v
reset_from-Keeps (suc n) v =
    then-Keeps v (set_tmr (255 - n) false v) _ (set_tmr-Keeps (255 - n) false v)
      (reset_from-Keeps n (set_tmr (255 - n) false v))

pub fire_timer-Keeps : (v : Vlapic) → Keeps v (fire_timer v)
unfolding fire_timer
fire_timer-Keeps v = fire_lvt-Keeps v 2

-- the same of every APIC of a machine
abbrev pub AllKeep : Machine → Machine → Type 0
AllKeep m m' = (j : ℕ) → Keeps (m.lapics j) (m'.lapics j)

pub on-AllKeep :
    (m : Machine) (i : ℕ) (f : Vlapic → Vlapic)
    → Keeps (m.lapics i) (f (m.lapics i))
    → AllKeep m (on m i f)
on-AllKeep m i f k j = elim (Bool-cases (j == i)) [
  | inl e ↦
      let p : i ≡ j = ground arith in rw e (subst (λ n. Keeps (m.lapics n) (f (m.lapics i))) p k)
  | inr e ↦ rw e (same-Keeps (m.lapics j))
]

pub for_each-AllKeep :
    (f : ℕ → Machine → Machine)
    → ((i : ℕ) (m : Machine) → AllKeep m (f i m))
    → (cpus : List ℕ) (m : Machine) → AllKeep m (for_each f cpus m)
unfolding for_each
for_each-AllKeep f h [] m j = same-Keeps (m.lapics j)
for_each-AllKeep f h (i ∷ cpus) m j =
    then-Keeps (m.lapics j) ((f i m).lapics j) _ (h i m j) (for_each-AllKeep f h cpus (f i m) j)
