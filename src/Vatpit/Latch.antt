-- ===== src/Vatpit/Latch.antt =====
-- A latched count of the interval timer, bios/vmm/io/vatpit.c, and its reads.
use bhyve_experiments.Base.{
  ℕ, ◌+◌, ◌*◌, ◌/◌, ◌%◌, ◌^◌, ◌<◌, ◌≤◌, ◌≡◌, inl, inr, refl, ap, ◌∙◌, arith, true, false, Option,
  some,
}
use bhyve_experiments.Base.{
  ◌==◌, ◌>>=◌, Bool-cases, get_or, set, length, length-set, get_or-set_self, get_or-set_ne,
}
use bhyve_experiments.Vatpit.Channel.{
  Channel, timer_sqwave, with_count, count_at, latched, update_counter, read_counter,
}

-- A channel has a count after `pit_update_counter`.
pub with_count-pos :
    (c : Channel) (now : ℕ)
    → c.initial < 2 ^ 16
    → (0 < (with_count c now).initial) × ((with_count c now).initial < 2 ^ 16)
unfolding with_count
with_count-pos c now h = elim (Bool-cases (c.initial == 0)) [
  | inl e ↦ rw e (omega arith, omega arith)
  | inr e ↦ rw e (ground arith, h)
]

-- The count is at most the one that was loaded.
pub count_at-le : (c : Channel) (now : ℕ) → count_at c now ≤ c.initial
unfolding count_at
count_at-le c now = elim (Bool-cases (c.mode == timer_sqwave)) [
  | inl e ↦ rw e (omega arith)
  | inr e ↦ rw e (omega arith)
]

-- The two bytes that reads give, the low one first, and the state behind them
abbrev pub two_reads : Channel → ℕ → ℕ → Option (Channel × ℕ)
two_reads c first second =
    read_counter c first >>= (λ r. read_counter r.0 second >>= (λ q. some (q.0, r.1 + 2 ^ 8 * q.1)))

-- what is left of a latch with a count, a register of two bytes
read_latched :
    (c : Channel) (lval first second : ℕ)
    → c.slatched ≡ false
    → 2 ≤ length c.ol
    → lval < 2 ^ 16
    → two_reads (latched c lval) first second ≡ some (record (latched c lval) { olbyte = 0 }, lval)
unfolding read_counter
read_latched c lval first second clear wide small =
    let low : get_or (set (set c.ol 1 (lval % 2 ^ 8)) 0 (lval / 2 ^ 8 % 2 ^ 8)) 1 0 ≡ lval % 2 ^ 8 =
      get_or-set_ne (set c.ol 1 (lval % 2 ^ 8)) 0 1 (lval / 2 ^ 8 % 2 ^ 8) 0 (λ e. omega arith)
      ∙ get_or-set_self c.ol 1 (lval % 2 ^ 8) 0 (omega arith) in
    let high : get_or (set (set c.ol 1 (lval % 2 ^ 8)) 0 (lval / 2 ^ 8 % 2 ^ 8)) 0 0
        ≡ lval / 2 ^ 8 % 2 ^ 8 =
      get_or-set_self (set c.ol 1 (lval % 2 ^ 8)) 0 (lval / 2 ^ 8 % 2 ^ 8) 0
        (omega (arith, length-set c.ol 1 (lval % 2 ^ 8))) in
    let whole : lval % 2 ^ 8 + 2 ^ 8 * (lval / 2 ^ 8 % 2 ^ 8) ≡ lval = omega arith in
    rw clear (rw (low, high, whole) refl)

with_count-ol : (c : Channel) (now : ℕ) → (with_count c now).ol ≡ c.ol
unfolding with_count
with_count-ol c now = ground arith

with_count-slatched : (c : Channel) (now : ℕ) → (with_count c now).slatched ≡ c.slatched
unfolding with_count
with_count-slatched c now = ground arith

-- the command to latch a count
update_counter-latched :
    (c : Channel) (now : ℕ)
    → c.olbyte ≡ 0
    → (update_counter c now true).0 ≡ latched (with_count c now) (count_at (with_count c now) now)
unfolding update_counter
update_counter-latched c now free =
    let unread : (c.olbyte == 0) ≡ true = ground arith in rw unread refl

update_counter-again :
    (c : Channel) (lval now : ℕ) → update_counter (latched c lval) now true ≡ (latched c lval, 0)
unfolding update_counter
update_counter-again c lval now = refl

-- With no count and no status latched that is still to be read, a latch of two bytes and a count of 16
-- bits: the latch command and two reads at any times give the count of the time of the command, which
-- is at most the one that was loaded, and the latch is free again. A second latch command before the
-- reads changes nothing.
pub latch-two_reads :
    (c : Channel) (now again first second : ℕ)
    → c.slatched ≡ false
    → c.olbyte ≡ 0
    → 2 ≤ length c.ol
    → c.initial < 2 ^ 16
    → (d : Channel) × (two_reads
          (update_counter (update_counter c now true).0 again true).0
          first
          second
        ≡ some (d, count_at (with_count c now) now))
      × (d.olbyte ≡ 0)
      × (count_at (with_count c now) now ≤ (with_count c now).initial)
latch-two_reads c now again first second clear free wide small =
    let counted = with_count c now in
    let value = count_at counted now in
    let bound = count_at-le counted now in
    (
      record (latched counted value) { olbyte = 0 },
      ap (λ (e : Channel). two_reads (update_counter e again true).0 first second)
            (update_counter-latched c now free)
          ∙ ap (λ (r : Channel × ℕ). two_reads r.0 first second)
              (update_counter-again counted value again)
          ∙ read_latched counted value first second (with_count-slatched c now ∙ clear)
              (omega (arith, wide, ap length (with_count-ol c now)))
              (omega (arith, bound, (with_count-pos c now small).1)),
      refl,
      bound,
    )
