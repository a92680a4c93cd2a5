-- ===== src/Vatpit/Access.antt =====
-- The channels of the interval timer under an access to its ports, bios/vmm/io/vatpit.c.
use bhyve_experiments.Base.{
  ℕ, ◌-◌, ◌/◌, ◌%◌, ◌^◌, ◌<◌, ◌≤◌, ◌≡◌, ◌≢◌, ◌⊎◌, inl, inr, refl, arith, Bool, true, false, not,
  ◌&&◌, ◌||◌, some, if◌then◌else◌, bit_and,
}
use bhyve_experiments.Base.{leb, ltb, ◌==◌, Bool-cases}
use bhyve_experiments.Base.Bits.{any_of}
use bhyve_experiments.Base.Ends.{Ends, ended, then-Ends, either-Ends}
use bhyve_experiments.Vatpit.Channel.{
  Channel, readback1, read_counter, write_counter, timer_inttc, timer_rategen, timer_sqwave,
  timer_swstrobe,
}
use bhyve_experiments.Vatpit.Ports.{
  Vatpit, put, start_cntr0, callout_handler, selected, readback, update_mode, loaded, write_port,
  handler, programmed,
}
use bhyve_experiments.Vatpit.Places.{
  IsChannel, fields, read_counter-Ends, write_counter-Ends, readback1-Ends,
  update_counter-IsChannel,
}

-- Every channel is one whose places are inside, and those of `counted` have a count.
abbrev pub Places : (ℕ → Bool) → Vatpit → Type 0
Places counted v = (i : ℕ) → IsChannel (counted i) (v.channel i)

-- The places of every channel are inside of its registers, and each of the three has a count if all do.
abbrev pub InPlace : Bool → Vatpit → Type 0
InPlace all_counted = Places (λ i. all_counted && ltb i 3)

module _ (m : ℕ → Bool) where
  put-Places :
      (v : Vatpit) (i : ℕ) (c : Channel) → Places m v → IsChannel (m i) c → Places m (put v i c)
  put-Places v i c ok good j = elim (Bool-cases (j == i)) [
    | inl e ↦ let same : i ≡ j = ground arith in rw e (rw (← same) good)
    | inr e ↦ rw e (ok j)
  ]

  start-Places : (v : Vatpit) (now : ℕ) → Places m v → Places m (start_cntr0 v now)
  unfolding start_cntr0
  start-Places v now ok j = elim (Bool-cases ((v.channel 0).initial == 0)) [
    | inl e ↦ rw e (ok j)
    | inr e ↦
        rw e
          (put-Places v 0 _ ok (fields (m 0) (v.channel 0) _ (ok 0) refl (ok 0).latch_place refl) j)
  ]

  if-Places : (b : Bool) (v w : Vatpit) → Places m v → Places m w → Places m (if b then v else w)
  if-Places true v w p q = p
  if-Places false v w p q = q

  pub callout-Places : (v : Vatpit) (now : ℕ) → Places m v → Places m (callout_handler v now)
  unfolding callout_handler
  callout-Places v now ok j =
      let mode = (v.channel 0).mode in
      if-Places (mode == timer_rategen || mode == timer_sqwave) (start_cntr0 v now) v
        (start-Places v now ok) ok j

-- the channels of `m` but one
abbrev without : (ℕ → Bool) → ℕ → ℕ → Bool
without m i j = m j && not (j == i)

rebased : (a b : Bool) (c : Channel) → (a ≡ false → b ≡ false) → IsChannel a c → IsChannel b c
rebased a b c h ok = record {
  write_place = ok.write_place;
  latch_place = ok.latch_place;
  has_count = elim ok.has_count [ inl n ↦ inl (h n) | inr n ↦ inr n ];
}

-- Channel `i` again is one of those that have a count.
put_back :
    (m : ℕ → Bool) (i : ℕ) (w : Vatpit) (c : Channel)
    → Places (without m i) w
    → IsChannel (m i) c
    → Places m (put w i c)
put_back m i w c ok good j = elim (Bool-cases (j == i)) [
  | inl e ↦ let same : i ≡ j = ground arith in rw e (rw (← same) good)
  | inr e ↦ rw e (rebased (without m i j) (m j) (w.channel j) (λ n. ground arith) (ok j))
]

counted_again :
    (m : ℕ → Bool) (i : ℕ) (w : Vatpit)
    → Places (without m i) w
    → (w.channel i).initial ≢ 0
    → Places m w
counted_again m i w ok n j = elim (Bool-cases (j == i)) [
  | inl e ↦
      let same : j ≡ i = ground arith in
      record {
        write_place = (ok j).write_place;
        latch_place = (ok j).latch_place;
        has_count = inr (rw same n);
      }
  | inr e ↦ rebased (without m i j) (m j) (w.channel j) (λ d. ground arith) (ok j)
]

loaded-Places :
    (m : ℕ → Bool) (v : Vatpit) (i now : ℕ) → Places (without m i) v → Places m (loaded v i now)
unfolding loaded
loaded-Places m v i now ok =
    let begun = put v 0 (record (v.channel 0) { callout_bt = now }) in
    let w = if i == 0 then start_cntr0 begun now else v in
    let held : Places (without m i) w =
      if-Places _ (i == 0) (start_cntr0 begun now) v
        (start-Places _ begun now (
          put-Places _ v 0 _ ok
            (fields (without m i 0) (v.channel 0) _ (ok 0) refl (ok 0).latch_place refl)))
        ok in
    elim (Bool-cases ((w.channel i).initial == 0)) [
      | inl e ↦ rw e (
          put_back m i w (record (w.channel i) { initial = 0xffff }) held
            (record {
              write_place = (held i).write_place;
              latch_place = (held i).latch_place;
              has_count = inr (λ z. omega arith);
            }))
      | inr e ↦ rw e (counted_again m i w held (λ z. ground arith))
    ]

module _ (m : ℕ → Bool) (v : Vatpit) (ok : Places m v) where
  stored-Places :
      (i now : ℕ) (c : Channel) (done : Bool)
      → IsChannel (m i && not done) c
      → Places m (if done then loaded (put v i c) i now else put v i c)
  stored-Places i now c true good = loaded-Places m (put v i c) i now (
      put-Places (without m i) v i c
        (λ j. rebased (m j) (without m i j) (v.channel j) (λ n. ground arith) (ok j))
        (rebased (m i && not true) (without m i i) c (λ n. ground arith) good))
  stored-Places i now c false good =
      put-Places m v i c ok (rebased (m i && not false) (m i) c (λ n. ground arith) good)

  write_port-Ends : (i eax now : ℕ) → Ends (Places m) (write_port v i eax now)
  unfolding write_port
  write_port-Ends i eax now =
      then-Ends (λ (r : Channel × Bool). IsChannel (m i && not r.1) r.0) (Places m)
        (write_counter (v.channel i) now eax) _
        (write_counter-Ends (m i) (v.channel i) now eax (ok i))
        (λ r good. ended _ (stored-Places i now r.0 r.1 good))

  selected-Ends :
      (cmd now bit i : ℕ)
      → (any_of cmd 0x10 ≡ true) ⊎ (m i ≡ true)
      → Ends (Places m) (selected cmd now bit i v)
  selected-Ends cmd now bit i h =
      either-Ends (Places m) (any_of cmd bit) _ _
        (λ e.
          then-Ends (IsChannel (m i)) (Places m) (readback1 cmd now (v.channel i))
            (λ c. some (put v i c)) (readback1-Ends (m i) cmd now (v.channel i) h (ok i))
            (λ c good. ended _ (put-Places m v i c ok good)))
        (λ e. ended v ok)

three :
    (all_counted : Bool) (cmd : ℕ) (i : ℕ)
    → (any_of cmd 0x10 ≡ true) ⊎ (all_counted ≡ true)
    → i < 3
    → (any_of cmd 0x10 ≡ true) ⊎ ((all_counted && ltb i 3) ≡ true)
three all_counted cmd i (inl h) l = inl h
three all_counted cmd i (inr h) l = inr (ground arith)

module _ (all_counted : Bool) (v : Vatpit) (ok : InPlace all_counted v) where
  readback-Ends :
      (cmd now : ℕ)
      → (any_of cmd 0x10 ≡ true) ⊎ (all_counted ≡ true)
      → Ends (InPlace all_counted) (readback v cmd now)
  unfolding readback
  readback-Ends cmd now h =
      let P = InPlace all_counted in
      then-Ends P P (selected cmd now 0x02 0 v) _
        (selected-Ends _ v ok cmd now 0x02 0 (three all_counted cmd 0 h (omega arith)))
        (λ w k.
          then-Ends P P (selected cmd now 0x04 1 w) _
            (selected-Ends _ w k cmd now 0x04 1 (three all_counted cmd 1 h (omega arith)))
            (λ u l. selected-Ends _ u l cmd now 0x08 2 (three all_counted cmd 2 h (omega arith))))

  update_mode-Ends :
      (val now : ℕ)
      → (((bit_and val 0xc0 == 0xc0) && not (any_of val 0x10)) ≡ false) ⊎ (all_counted ≡ true)
      → Ends (λ r. InPlace all_counted r.0) (update_mode v val now)
  unfolding update_mode
  update_mode-Ends val now h =
      let P = λ (r : Vatpit × Bool). InPlace all_counted r.0 in
      let sel = bit_and val 0xc0 in
      let rw' = bit_and val 0x30 in
      let mode = bit_and val 0x0f in
      let i = sel / 2 ^ 6 in
      either-Ends P (sel == 0xc0) _ _
        (λ e.
          then-Ends (InPlace all_counted) P (readback v val now) (λ w. some (w, true))
            (readback-Ends val now (elim h [ inl d ↦ inl (ground arith) | inr d ↦ inr d ]))
            (λ w k. ended _ k))
        (λ e.
          either-Ends P (not (rw' == 0x00) && not (rw' == 0x30)) _ _ (λ d. ended _ ok)
            (λ d.
              either-Ends P (rw' == 0x00) _ _
                (λ b. ended _ (
                  put-Places _ v i _ ok (update_counter-IsChannel _ (v.channel i) now true (ok i))))
                (λ b.
                  either-Ends P
                    (mode == timer_inttc
                      || (mode == timer_rategen
                          || (mode == timer_sqwave || mode == timer_swstrobe)))
                    _ _
                    (λ a. ended _ (
                      put-Places _ v i (programmed (v.channel i) mode) ok
                        (fields _ (v.channel i) _ (ok i) refl (omega arith) refl)))
                    (λ a. ended (v, false) ok))))

-- A write of a command that reads the output of channels back, a read of the status
abbrev pub asks_output : Bool → ℕ → ℕ → Bool
asks_output is_in port eax =
    let cmd = eax % 2 ^ 8 in
    not is_in && (port == 0x43 && ((bit_and cmd 0xc0 == 0xc0) && not (any_of cmd 0x10)))

module _ (all_counted : Bool) (v : Vatpit) (ok : InPlace all_counted v) where
  pub handler-Ends :
      (is_in : Bool) (port bytes eax now : ℕ)
      → 0x40 ≤ port
      → port ≤ 0x43
      → (asks_output is_in port eax ≡ false) ⊎ (all_counted ≡ true)
      → Ends (λ r. InPlace all_counted r.0) (handler v is_in port bytes eax now)
  unfolding handler
  handler-Ends is_in port bytes eax now low high h =
      let P = λ (r : Vatpit × Bool × ℕ). InPlace all_counted r.0 in
      let i = port - 0x40 in
      let cmd = eax % 2 ^ 8 in
      either-Ends P (not (bytes == 1)) _ _ (λ e. ended (v, false, eax) ok)
        (λ e.
          either-Ends P (port == 0x43) _ _
            (λ d.
              either-Ends P is_in _ _ (λ b. ended (v, false, eax) ok)
                (λ b.
                  then-Ends (λ (r : Vatpit × Bool). InPlace all_counted r.0) P
                    (update_mode v cmd now) (λ r. some (r.0, r.1, eax))
                    (update_mode-Ends all_counted v ok cmd now
                      (elim h [ inl a ↦ inl (ground arith) | inr a ↦ inr a ]))
                    (λ r k. ended _ k)))
            (λ d.
              either-Ends P (not (leb 0x40 port && leb port 0x42)) _ _ (λ b. absurd (ground arith))
                (λ b.
                  either-Ends P is_in _ _
                    (λ a.
                      then-Ends _ P (read_counter (v.channel i) now)
                        (λ r. some (put v i r.0, true, r.1))
                        (read_counter-Ends _ (v.channel i) now (ok i))
                        (λ r k. ended _ (put-Places _ v i r.0 ok k)))
                    (λ a.
                      then-Ends (InPlace all_counted) P (write_port v i eax now)
                        (λ w. some (w, true, eax)) (write_port-Ends _ v ok i eax now)
                        (λ w k. ended _ k)))))
