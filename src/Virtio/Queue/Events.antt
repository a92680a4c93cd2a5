-- ===== src/Virtio/Queue/Events.antt =====
-- When the driver is interrupted after a batch of requests.
use bhyve_experiments.Base.{
  ℕ, ◌+◌, ◌%◌, ◌^◌, ◌<◌, ◌≡◌, ◌≢◌, ◌↔◌, inl, inr, refl, arith, Bool, true, false, not, ◌&&◌,
}
use bhyve_experiments.Base.{ltb, ◌==◌, Bool-cases, ltb→lt, lt→ltb}
use bhyve_experiments.Base.Bits.{any_of}
use bhyve_experiments.Virtio.Queue.{
  Vqueue, wants_intr, endchains, minus16, f_notify_on_empty, f_event_idx,
}

-- The used entries that were published since the last batch, with indices that wrap at 2^16,
-- include that with the index `event`.
abbrev pub Passed : ℕ → ℕ → ℕ → Type 0
Passed old new event = (k : ℕ) × (k < minus16 new old) × ((old + k) % 2 ^ 16 ≡ event)

window :
    (old new event : ℕ)
    → old < 2 ^ 16
    → new < 2 ^ 16
    → event < 2 ^ 16
    → (ltb (minus16 new (event + 1)) (minus16 new old) ≡ true) ↔ Passed old new event
window old new event ho hn he = (
  λ h.
      let inside = ltb→lt (minus16 new (event + 1)) (minus16 new old) h in
      (minus16 event old, omega arith, omega arith),
  λ (k, l, e). lt→ltb (minus16 new (event + 1)) (minus16 new old) (omega arith),
)

differ : (a b : ℕ) (p : Bool) → ((not (a == b) && not p) ≡ true) ↔ ((a ≢ b) × (p ≡ false))
differ a b p = (λ h. ground arith, λ h. ground arith)

-- When the driver is to be told of a batch of used entries
pub data Wants (caps : ℕ) (vq : Vqueue) (used_all : Bool) : Type 0 where
  at_empty : (used_all && any_of caps f_notify_on_empty) ≡ true → Wants caps vq used_all
  at_event :
      any_of caps f_event_idx ≡ true
      → Passed vq.save_used vq.ring.used_idx vq.ring.used_event
      → Wants caps vq used_all
  at_publication :
      any_of caps f_event_idx ≡ false
      → vq.ring.used_idx ≢ vq.save_used
      → any_of vq.ring.avail_flags 1 ≡ false
      → Wants caps vq used_all

wants_intr-Wants :
    (caps : ℕ) (vq : Vqueue) (used_all : Bool)
    → vq.save_used < 2 ^ 16
    → vq.ring.used_idx < 2 ^ 16
    → vq.ring.used_event < 2 ^ 16
    → wants_intr caps vq used_all ≡ true
    → Wants caps vq used_all
unfolding wants_intr
wants_intr-Wants caps vq used_all ho hn he =
    elim (Bool-cases (used_all && any_of caps f_notify_on_empty)) [
      | inl all ↦ λ h. at_empty all
      | inr some_left ↦ elim (Bool-cases (any_of caps f_event_idx)) [
        | inl events ↦
            rw (some_left, events)
              (λ h.
                at_event events
                  ((window vq.save_used vq.ring.used_idx vq.ring.used_event ho hn he).0 h))
        | inr plain ↦
            rw (some_left, plain)
              (λ h.
                let (new, loud) =
                  (differ vq.ring.used_idx vq.save_used (any_of vq.ring.avail_flags 1)).0 h in
                at_publication plain new loud)
      ]
    ]

Wants-wants_intr :
    (caps : ℕ) (vq : Vqueue) (used_all : Bool)
    → vq.save_used < 2 ^ 16
    → vq.ring.used_idx < 2 ^ 16
    → vq.ring.used_event < 2 ^ 16
    → Wants caps vq used_all
    → wants_intr caps vq used_all ≡ true
unfolding wants_intr
Wants-wants_intr caps vq used_all ho hn he w =
    elim (Bool-cases (used_all && any_of caps f_notify_on_empty)) [
      | inl all ↦ rw all refl
      | inr some_left ↦ elim w [
        | at_empty all ↦ cc
        | at_event events passed ↦
            rw (some_left, events)
              ((window vq.save_used vq.ring.used_idx vq.ring.used_event ho hn he).1 passed)
        | at_publication plain new loud ↦
            rw (some_left, plain)
              ((differ vq.ring.used_idx vq.save_used (any_of vq.ring.avail_flags 1)).1 (new, loud))
      ]
    ]

-- With indices of 16 bits, the driver is interrupted at the end of a batch exactly in these cases:
-- it asked to be told of an empty available ring and that was used up; event indices were
-- negotiated and the used entry with the index that it named was published since the end of the
-- last batch; they were not, something was published, and the driver does not suppress interrupts.
-- The next batch begins where this one has ended.
pub endchains_interrupts :
    (caps : ℕ) (vq : Vqueue) (used_all : Bool)
    → vq.save_used < 2 ^ 16
    → vq.ring.used_idx < 2 ^ 16
    → vq.ring.used_event < 2 ^ 16
    → ((endchains caps vq used_all).0.save_used ≡ vq.ring.used_idx)
      × (((endchains caps vq used_all).1 ≡ true) ↔ Wants caps vq used_all)
unfolding endchains
endchains_interrupts caps vq used_all ho hn he =
    (refl, (wants_intr-Wants caps vq used_all ho hn he, Wants-wants_intr caps vq used_all ho hn he))
