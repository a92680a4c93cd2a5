-- ===== src/Vioapic/Tests.antt =====
-- Runs of the I/O APIC.
use bhyve_experiments.Base.{ℕ, false, ◌+◌, ◌≡◌, List, [], ◌∷◌, some, arith}
use bhyve_experiments.Vioapic.{Vioapic, vioapic_init, assert_irq, vioapic_base}
use bhyve_experiments.Base.Words.{digit}
use bhyve_experiments.Vioapic.{with_half}
use bhyve_experiments.Vioapic.Entry.{digit-with_half}
use bhyve_experiments.Vioapic.Pending.{IsPending}
use bhyve_experiments.Vioapic.Run.{
  Call, line, mmio, eoi, call, calls, answers, AllSound, IsSound, calls-IsPending,
}
use bhyve_experiments.Vioapic.Tell.{pin_at, IsTold}

-- Pin 5 is made level-triggered with vector 21h, asserted by two devices, and answered.
abbrev served : List Call
served =
    mmio vioapic_base 4 0x1a
    ∷ mmio (vioapic_base + 0x10) 4 0x8021
    ∷ line 5 assert_irq
    ∷ line 5 assert_irq
    ∷ []

calls-IsPending_example :
    (v : Vioapic) × (w : Vioapic) × (calls served vioapic_init ≡ some v)
    × (call (eoi 0x21) v ≡ some w)
    × ((pin : ℕ) → IsPending (pin_at w pin) × IsTold (answers (eoi 0x21) (pin_at v pin)) v w pin)
unfolding AllSound IsSound
calls-IsPending_example = calls-IsPending served (eoi 0x21) (tt, (tt, (tt, (tt, tt)))) (omega arith)

-- A write of 8021h to the lower half of an entry with remote IRR leaves that bit.
digit-with_half_example : digit 14 (with_half false 0x8021 0x5031) ≡ 1
digit-with_half_example = digit-with_half false 0x8021 0x5031 14 (omega arith) (omega arith)
