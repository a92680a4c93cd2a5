-- ===== src/Vatpit/Places.antt =====
-- The places in the two registers of a channel of the interval timer, and its count, bios/vmm/io/vatpit.c,
-- under its operations.
use bhyve_experiments.Base.{
  ℕ, ◌<◌, ◌≤◌, ◌≡◌, ◌≢◌, ◌⊎◌, inl, inr, refl, arith, Bool, true, false, not, ◌&&◌, ◌||◌, some,
  if◌then◌else◌,
}
use bhyve_experiments.Base.{leb, ◌==◌}
use bhyve_experiments.Base.Bits.{any_of}
use bhyve_experiments.Base.Ends.{Ends, ended, then-Ends, either-Ends}
use bhyve_experiments.Vatpit.Channel.{
  Channel, with_count, update_counter, with_out, latch_status, get_out, readback1, read_counter,
  running, write_counter, timer_inttc, timer_sqwave,
}

-- The places in the two registers of a channel are inside of them, and it has a count if it is one of
-- those that have one.
pub record IsChannel (counted : Bool) (c : Channel) : Type 0 where
  pub write_place : c.crbyte < 2
  pub latch_place : c.olbyte ≤ 2
  pub has_count : (counted ≡ false) ⊎ (c.initial ≢ 0)

module _ (b : Bool) where
  pub update_counter-IsChannel :
      (c : Channel) (now : ℕ) (latch : Bool)
      → IsChannel b c
      → IsChannel b (update_counter c now latch).0
  unfolding update_counter with_count
  update_counter-IsChannel c now latch ok = record {
    write_place = ground (arith, ok.write_place);
    latch_place = ground (arith, ok.latch_place);
    has_count = elim ok.has_count [ inl n ↦ inl n | inr n ↦ inr (λ e. ground (arith, n)) ];
  }

  pub fields :
      (c d : Channel)
      → IsChannel b c
      → d.crbyte ≡ c.crbyte
      → d.olbyte ≤ 2
      → d.initial ≡ c.initial
      → IsChannel b d
  fields c d ok same small count = record {
    write_place = omega (arith, ok.write_place);
    latch_place = small;
    has_count = elim ok.has_count [ inl n ↦ inl n | inr n ↦ inr (λ e. n (omega arith)) ];
  }

  pub read_counter-Ends :
      (c : Channel) (now : ℕ) → IsChannel b c → Ends (λ r. IsChannel b r.0) (read_counter c now)
  unfolding read_counter
  read_counter-Ends c now ok =
      let P = λ (r : Channel × ℕ). IsChannel b r.0 in
      let next = update_counter-IsChannel c now false ok in
      either-Ends P c.slatched _ _ (λ e. ended _ (fields c _ ok refl ok.latch_place refl))
        (λ e.
          either-Ends P (c.olbyte == 0) _ _
            (λ d.
              ended (running (update_counter c now false))
                (fields (update_counter c now false).0 _ next refl next.latch_place refl))
            (λ d.
              either-Ends P (leb c.olbyte 2) _ _
                (λ a. ended _ (fields c _ ok refl (omega (arith, ok.latch_place)) refl))
                (λ a. absurd (ground (arith, ok.latch_place)))))

  -- The second byte of a count may make it 0.
  pub write_counter-Ends :
      (c : Channel) (now eax : ℕ)
      → IsChannel b c
      → Ends (λ r. IsChannel (b && not r.1) r.0) (write_counter c now eax)
  unfolding write_counter
  write_counter-Ends c now eax ok =
      let P = λ (r : Channel × Bool). IsChannel (b && not r.1) r.0 in
      either-Ends P (leb 2 c.crbyte) _ _ (λ e. absurd (ground (arith, ok.write_place)))
        (λ e.
          either-Ends P (c.crbyte == 1) _ _
            (λ d. ended _ (record {
              write_place = omega arith;
              latch_place = ok.latch_place;
              has_count = inl (ground arith);
            }))
            (λ d. ended _ (record {
              write_place = ground (arith, ok.write_place);
              latch_place = ok.latch_place;
              has_count = elim ok.has_count [ inl n ↦ inl (ground arith) | inr n ↦ inr n ];
            })))

pub output-Ends :
    (c : Channel) (now : ℕ) → IsChannel true c → Ends (λ (b : Bool). Unit {0}) (get_out c now)
unfolding get_out
output-Ends c now ok =
    let P = λ (b : Bool). Unit {0} in
    either-Ends P (c.mode == timer_inttc) _ _ (λ e. ended _ tt)
      (λ e.
        either-Ends P (c.mode == timer_sqwave) _ _
          (λ d.
            either-Ends P (c.initial == 0) _ _
              (λ a. elim ok.has_count [
                | inl n ↦ absurd (ground arith)
                | inr n ↦ absurd (n (ground arith))
              ])
              (λ a. ended _ tt))
          (λ d. ended false tt))

latch_status-Ends :
    (c : Channel) (now : ℕ) → IsChannel true c → Ends (IsChannel true) (latch_status c now)
unfolding latch_status
latch_status-Ends c now ok =
    either-Ends (IsChannel true) (c.mode == timer_inttc || c.mode == timer_sqwave) _ _
      (λ e.
        then-Ends (λ (b : Bool). Unit {0}) (IsChannel true) (get_out c now)
          (λ out. some (with_out c out)) (output-Ends c now ok)
          (λ out u. ended _ (fields true c _ ok refl ok.latch_place refl)))
      (λ e. ended _ (fields true c _ ok refl ok.latch_place refl))

status_part-Ends :
    (b : Bool) (cmd now : ℕ) (c : Channel)
    → (any_of cmd 0x10 ≡ true) ⊎ (b ≡ true)
    → IsChannel b c
    → Ends
        (IsChannel b)
        (if not (any_of cmd 0x10) && not c.slatched then latch_status c now else some c)
status_part-Ends true cmd now c h ok =
    either-Ends (IsChannel true) (not (any_of cmd 0x10) && not c.slatched) _ _
      (λ e. latch_status-Ends c now ok) (λ e. ended c ok)
status_part-Ends false cmd now c (inl h) ok = rw h (ended c ok)
status_part-Ends false cmd now c (inr h) ok = absurd (ground arith)

pub readback1-Ends :
    (b : Bool) (cmd now : ℕ) (c : Channel)
    → (any_of cmd 0x10 ≡ true) ⊎ (b ≡ true)
    → IsChannel b c
    → Ends (IsChannel b) (readback1 cmd now c)
unfolding readback1
readback1-Ends b cmd now c h ok = by_latch (not (any_of cmd 0x20) && c.olbyte == 0)
  where
    by_latch :
        (latch : Bool)
        → Ends (IsChannel b) (
            let c' = if latch then (update_counter c now true).0 else c in
            if not (any_of cmd 0x10) && not c'.slatched then latch_status c' now else some c')
    by_latch true =
        status_part-Ends b cmd now (update_counter c now true).0 h
          (update_counter-IsChannel b c now true ok)
    by_latch false = status_part-Ends b cmd now c h ok
