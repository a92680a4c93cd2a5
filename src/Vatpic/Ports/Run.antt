-- ===== src/Vatpic/Ports/Run.antt =====
-- Every sequence of calls into the interrupt controllers.
use bhyve_experiments.Base.{ℕ, Bool, List, [], ◌∷◌}
use bhyve_experiments.Vatpic.Pair.{
  Vatpic, IrqState, Trigger, init, set_irqstate, set_irq_trigger, intr_accepted,
}
use bhyve_experiments.Vatpic.Pair.Valid.{
  IsValid, set_irqstate-IsValid, set_irq_trigger-IsValid, intr_accepted-IsValid, init-IsValid,
}
use bhyve_experiments.Vatpic.Ports.{Which, handler, elc_handler}
use bhyve_experiments.Vatpic.Ports.Valid.{handler-IsValid, elc_handler-IsValid}

-- a call that changes the controllers, with its arguments: an IRQ line, a trigger mode, an accepted
-- vector, an access to the ports of a controller or to the edge/level registers
pub data Call : Type 0 where
  irq : ℕ → IrqState → Call
  trigger : ℕ → Trigger → Call
  accept : ℕ → Call
  access : Which → Bool → ℕ → ℕ → ℕ → Call
  elc : Bool → ℕ → ℕ → ℕ → Call

unfoldable pub step : Call → Vatpic → Vatpic
step (irq n s) v = (set_irqstate v n s).0
step (trigger n t) v = (set_irq_trigger v n t).0
step (accept vector) v = intr_accepted v vector
step (access which into_guest port bytes eax) v = (handler which v into_guest port bytes eax).0
step (elc into_guest port bytes eax) v = (elc_handler v into_guest port bytes eax).0

unfoldable pub run : List Call → Vatpic → Vatpic
run [] v = v
run (c ∷ rest) v = run rest (step c v)

step-IsValid : (c : Call) (v : Vatpic) → IsValid v → IsValid (step c v)
unfolding step
step-IsValid (irq n s) v h = set_irqstate-IsValid v n s h
step-IsValid (trigger n t) v h = set_irq_trigger-IsValid v n t h
step-IsValid (accept vector) v h = intr_accepted-IsValid v vector h
step-IsValid (access which into_guest port bytes eax) v h =
    handler-IsValid which v into_guest port bytes eax h
step-IsValid (elc into_guest port bytes eax) v h = elc_handler-IsValid v into_guest port bytes eax h

run_keeps : (calls : List Call) (v : Vatpic) → IsValid v → IsValid (run calls v)
unfolding run
run_keeps [] v h = h
run_keeps (c ∷ rest) v h = run_keeps rest (step c v) (step-IsValid c v h)

-- After every sequence of calls from `vatpic_init` the registers of both controllers are in range,
-- their vector bases are multiples of 8, and IRQs 0, 1, 2, 8 and 13 are edge triggered.
pub run-init-IsValid : (calls : List Call) → IsValid (run calls init)
run-init-IsValid calls = run_keeps calls init init-IsValid
