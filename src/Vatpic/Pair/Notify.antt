-- ===== src/Vatpic/Pair/Notify.antt =====
-- `vatpic_notify_intr` and `vatpic_set_pinstate` call one another: the calls end, and no pending
-- interrupt is left without a notification.
use bhyve_experiments.Base.{ℕ, suc, Bool, true, false, not, ◌&&◌, ◌≡◌, refl, inl, inr, ◌∙◌}
use bhyve_experiments.Base.{some, arith, Bool-cases, ◌∷◌, if◌then◌else◌}
use bhyve_experiments.Vatpic.Pair.{
  Vatpic, local_lint0, ioapic_pulse, move_line, notify_master, notify_fuel, notify_intr, move_pin,
  slave_wants, raise_slave, notify_body,
}

-- The request of the slave, as an edge at pin 2 of the master.
unfoldable pub cascade : Vatpic → Vatpic
cascade v = notify_master (move_line (notify_master (move_line (raise_slave v) 2 true)) 2 false)

move_line_two : (v : Vatpic) (b : Bool) → (move_line v 2 b).slave ≡ v.slave
unfolding move_line
move_line_two v b = refl

notify_master_slave : (v : Vatpic) → (notify_master v).slave ≡ v.slave
unfolding notify_master
notify_master_slave v = ground arith

-- Where the slave has nothing to raise, one round is enough.
notify_quiet :
    (fuel : ℕ) (v : Vatpic)
    → slave_wants v ≡ false
    → notify_fuel (suc fuel) v ≡ some (notify_master v)
unfolding notify_fuel notify_body
notify_quiet fuel v h = rw h

-- A round on a state whose slave has raised its interrupt.
notify_raised :
    (fuel : ℕ) (v : Vatpic)
    → v.slave.intr_raised ≡ true
    → notify_fuel (suc fuel) v ≡ some (notify_master v)
notify_raised fuel v h = notify_quiet fuel v (rw h)

notify_loud :
    (fuel : ℕ) (v : Vatpic)
    → slave_wants v ≡ true
    → notify_fuel (suc (suc fuel)) v ≡ some (notify_master (cascade v))
unfolding cascade notify_fuel notify_body
notify_loud fuel v h =
    rw h (rw (notify_raised fuel up (rw up_slave)) (rw (notify_raised fuel down (rw down_slave))))
  where
    up : Vatpic
    up = move_line (raise_slave v) 2 true

    up_slave : up.slave ≡ (raise_slave v).slave
    up_slave = move_line_two (raise_slave v) true

    down : Vatpic
    down = move_line (notify_master up) 2 false

    down_slave : down.slave ≡ (raise_slave v).slave
    down_slave = move_line_two (notify_master up) false ∙ notify_master_slave up ∙ up_slave

notify_lem :
    (fuel : ℕ) (v : Vatpic)
    → notify_fuel (suc (suc fuel)) v ≡ some (notify_master (if slave_wants v then cascade v else v))
notify_lem fuel v = elim (Bool-cases (slave_wants v)) [
  | inl h ↦ rw (notify_loud fuel v h) (rw h)
  | inr h ↦ rw (notify_quiet (suc fuel) v h) (rw h)
]

-- `vatpic_notify_intr` written without recursion
pub notify_intr_lem :
    (v : Vatpic) → notify_intr v ≡ notify_master (if slave_wants v then cascade v else v)
unfolding notify_intr
notify_intr_lem v = rw (notify_lem 0 v)

-- The mutual recursion of `vatpic_notify_intr` and `vatpic_set_pinstate` ends within two rounds
-- from every state: any larger fuel gives the result of two.
pub notify_returns : (fuel : ℕ) (v : Vatpic) → notify_fuel (suc (suc fuel)) v ≡ some (notify_intr v)
notify_returns fuel v = rw (notify_intr_lem v) (notify_lem fuel v)

-- From `v` to `w` the CPU was told once if the master raised its interrupt, and not otherwise.
pub record Told (v w : Vatpic) : Type 0 where
  pub stays : v.master.intr_raised ≡ true → w.master.intr_raised ≡ true
  pub calls : w.signals ≡ (
      if not v.master.intr_raised && w.master.intr_raised
      then ioapic_pulse ∷ local_lint0 ∷ v.signals
      else v.signals)

Told-trans : {v u w : Vatpic} → Told v u → Told u w → Told v w
Told-trans p q = ground arith

notify_master-Told : (v : Vatpic) → Told v (notify_master v)
unfolding notify_master
notify_master-Told v = ground arith

move_line-Told : (v : Vatpic) (b : Bool) → Told v (move_line v 2 b)
unfolding move_line move_pin
move_line-Told v b = ground arith

cascade-Told : (v : Vatpic) → Told v (cascade v)
unfolding cascade
cascade-Told v = Told-trans (Told-trans raised (move_line-Told (raise_slave v) true)) (
    Told-trans (notify_master-Told up)
      (Told-trans (move_line-Told (notify_master up) false) (notify_master-Told down)))
  where
    raised : Told v (raise_slave v)
    raised = ground arith

    up : Vatpic
    up = move_line (raise_slave v) 2 true

    down : Vatpic
    down = move_line (notify_master up) 2 false

unchanged-Told : (v : Vatpic) → Told v v
unchanged-Told v = ground arith

-- A notification tells the CPU, by one call to the local APIC and one to the I/O APIC, exactly when
-- the master goes from not raised to raised; a master that is raised stays so.
pub notify-Told : (v : Vatpic) → Told v (notify_intr v)
notify-Told v = rw (notify_intr_lem v) (Told-trans first (notify_master-Told _))
  where
    first : Told v (if slave_wants v then cascade v else v)
    first = elim (Bool-cases (slave_wants v)) [
      | inl h ↦ rw h (cascade-Told v)
      | inr h ↦ rw h (unchanged-Told v)
    ]
