-- ===== src/Iov/Copy.antt =====
-- Copying between a buffer and the segments of a list.
use bhyve_experiments.Base.{
  ℕ, zero, suc, ◌+◌, ◌-◌, ◌%◌, ◌^◌, ◌≤◌, ◌<◌, ◌≡◌, ◌≢◌, refl, sym, ap, ◌∙◌, min,
}
use bhyve_experiments.Base.{true, false, List, [], ◌∷◌, ◌++◌, arith, some, map}
use bhyve_experiments.Base.{length, take, drop, length-append, length-drop, ltb}
use bhyve_experiments.Base.{cut-nil, lt→ltb}
use mathlib.Core.List.{map-append}
use native.Mathlib.Decide.{dec_le, dec_lt}
use bhyve_experiments.Iov.{Iovec, Memory, update, copy_in, copy_out, gather, iov_to_buf, scatter}
use bhyve_experiments.Iov.{buf_to_iov, seek_iov, count_from, count_iov}
use bhyve_experiments.Iov.Seek.{span, addresses, addresses-seek_iov, length-span, drop_all}

-- The memory after bytes are written to addresses, one to one, as far as both go.
abbrev pub put : List ℕ → List ℕ → Memory → Memory
put [] bytes mem = mem
put (a ∷ places) [] mem = mem
put (a ∷ places) (b ∷ bytes) mem = put places bytes (update mem a b)

put-nil : (places : List ℕ) (mem : Memory) → put places [] mem ≡ mem
put-nil [] mem = refl
put-nil (a ∷ places) mem = refl

copy_out-take :
    (n base : ℕ) (bytes : List ℕ) (mem : Memory)
    → copy_out mem base (take n bytes) ≡ put (span base n) bytes mem
unfolding copy_out
copy_out-take zero base bytes mem = refl
copy_out-take (suc n) base [] mem = refl
copy_out-take (suc n) base (b ∷ bytes) mem = copy_out-take n (base + 1) bytes (update mem base b)

put-append :
    (xs ys bytes : List ℕ) (mem : Memory)
    → put (xs ++ ys) bytes mem ≡ put ys (drop (length xs) bytes) (put xs bytes mem)
put-append [] ys bytes mem = refl
put-append (x ∷ xs) ys [] mem = sym (put-nil ys mem)
put-append (x ∷ xs) ys (b ∷ bytes) mem = put-append xs ys bytes (update mem x b)

take-min : (n : ℕ) (xs : List ℕ) → take (min n (length xs)) xs ≡ take n xs
take-min zero xs = let z : min 0 (length xs) ≡ 0 = omega arith in rw z
take-min (suc n) [] = let z : min (suc n) 0 ≡ 0 = omega arith in rw z
take-min (suc n) (x ∷ xs) =
    let z : min (suc n) (suc (length xs)) ≡ suc (min n (length xs)) = omega arith in
    rw z (ap (λ t. x ∷ t) (take-min n xs))

drop-drop : (m n : ℕ) (xs : List ℕ) → drop m (drop n xs) ≡ drop (n + m) xs
drop-drop m zero xs = let z : 0 + m ≡ m = omega arith in rw z
drop-drop m (suc n) [] = (cut-nil ℕ m).1 ∙ sym (cut-nil ℕ (suc n + m)).1
drop-drop m (suc n) (x ∷ xs) =
    let z : suc n + m ≡ suc (n + m) = omega arith in rw z (drop-drop m n xs)

past_end :
    (off len size : ℕ) (buf : List ℕ)
    → size ≡ length buf - off
    → drop (off + min len size) buf ≡ drop (off + len) buf
past_end off len size buf e = elim (dec_le len size) [
  | yes p ↦ ap (λ k. drop k buf) (omega arith)
  | no p ↦
      drop_all (off + min len size) buf (omega arith) ∙ sym (drop_all (off + len) buf (omega arith))
]

-- one segment of the loop: what it writes, what is left of the buffer, how far it comes
module _ (v : Iovec) (buf : List ℕ) (off : ℕ) where
  segment-put :
      (mem : Memory)
      → copy_out mem v.base (take (min v.len (length buf - off)) (drop off buf))
        ≡ put (span v.base v.len) (drop off buf) mem
  segment-put mem =
      rw (← length-drop off buf)
        (rw (take-min v.len (drop off buf)) (copy_out-take v.len v.base (drop off buf) mem))

  segment-drop :
      drop (off + min v.len (length buf - off)) buf
      ≡ drop (length (span v.base v.len)) (drop off buf)
  segment-drop =
      rw (length-span v.base v.len)
        (past_end off v.len (length buf - off) buf refl ∙ sym (drop-drop v.len off buf))

  segment_count :
      (rest : List ℕ)
      → min (length buf) (off + min v.len (length buf - off) + length rest)
        ≡ min (length buf) (off + length (span v.base v.len ++ rest))
  segment_count rest =
      omega (arith, length-append (span v.base v.len) rest, length-span v.base v.len)

not_below : (a b : ℕ) → ¬ (a < b) → ltb a b ≡ false
not_below a b h = ground arith

stopped : (off size more : ℕ) → off ≤ size → ¬ (off < size) → min size (off + more) ≡ off
stopped off size more h p = omega arith

scatter-put :
    (iov : List Iovec) (buf : List ℕ) (off : ℕ) (mem : Memory)
    → off ≤ length buf
    → scatter iov buf off mem
      ≡ (put (addresses iov) (drop off buf) mem, min (length buf) (off + length (addresses iov)))
unfolding scatter
scatter-put [] buf off mem h = let z : min (length buf) (off + 0) ≡ off = omega arith in rw z
scatter-put (v ∷ iov) buf off mem h = elim (dec_lt off (length buf)) [
  | yes p ↦
      (rw (lt→ltb off (length buf) p) (
        scatter-put iov buf (off + len) (copy_out mem v.base (take len (drop off buf)))
          (omega arith)
        ∙ cc (
          segment-put v buf off mem,
          put-append (span v.base v.len) (addresses iov) (drop off buf) mem,
          segment-drop v buf off,
          segment_count v buf off (addresses iov),
        )))
  | no p ↦
      (rw (not_below off (length buf) p) (
        cc (
          put-nil (addresses (v ∷ iov)) mem,
          drop_all off buf (omega arith),
          stopped off (length buf) (length (addresses (v ∷ iov))) h p,
        )))
]
  where
    len : ℕ
    len = min v.len (length buf - off)

sought : (seek : ℕ) → 0 < seek → ltb 0 seek ≡ true
sought seek h = lt→ltb 0 seek h

-- `buf_to_iov` writes the bytes of the buffer to the addresses of the list from `seek` on, one to
-- one, until the buffer or the list ends; it returns how many that are, and writes nothing else.
pub buf_to_iov-put :
    (buf : List ℕ) (iov : List Iovec) (seek : ℕ) (mem : Memory)
    → buf_to_iov buf iov seek mem ≡ (
      put (drop seek (addresses iov)) buf mem,
      min (length buf) (length (drop seek (addresses iov))),
    )
unfolding buf_to_iov
buf_to_iov-put buf iov zero mem =
    scatter-put iov buf 0 mem (omega arith)
    ∙ ap (λ k. (put (addresses iov) buf mem, min (length buf) k)) (omega arith)
buf_to_iov-put buf iov (suc n) mem = rw (sought (suc n) (omega arith)) (
    scatter-put (seek_iov iov (suc n)) buf 0 mem (omega arith)
    ∙ rw (addresses-seek_iov iov (suc n))
        (ap (λ k. (put (drop (suc n) (addresses iov)) buf mem, min (length buf) k)) (omega arith)))

copy_in-span : (mem : Memory) (a n : ℕ) → copy_in mem a n ≡ map mem (span a n)
unfolding copy_in
copy_in-span mem a zero = refl
copy_in-span mem a (suc n) = ap (λ t. mem a ∷ t) (copy_in-span mem (a + 1) n)

gather-map : (mem : Memory) (iov : List Iovec) → gather mem iov ≡ map mem (addresses iov)
unfolding gather
gather-map mem [] = refl
gather-map mem (v ∷ iov) = cc (
  copy_in-span mem v.base v.len,
  gather-map mem iov,
  map-append mem (span v.base v.len) (addresses iov),
)

-- What was written at an address is read back there.
copy_out_before :
    (mem : Memory) (a : ℕ) (bytes : List ℕ) (x : ℕ) → x < a → copy_out mem a bytes x ≡ mem x
unfolding copy_out
copy_out_before mem a [] x h = refl
copy_out_before mem a (b ∷ bytes) x h =
    copy_out_before (update mem a b) (a + 1) bytes x (omega arith) ∙ ground arith

pub copy_in-copy_out :
    (mem : Memory) (a : ℕ) (bytes : List ℕ)
    → copy_in (copy_out mem a bytes) a (length bytes) ≡ bytes
unfolding copy_in copy_out
copy_in-copy_out mem a [] = refl
copy_in-copy_out mem a (b ∷ bytes) = cc (
  copy_out_before (update mem a b) (a + 1) bytes a (omega arith),
  here,
  copy_in-copy_out (update mem a b) (a + 1) bytes,
)
  where
    here : update mem a b a ≡ b
    here = ground arith

-- no address is in the list twice
abbrev pub Absent : ℕ → List ℕ → Type 0
Absent a [] = Unit
Absent a (x ∷ xs) = (a ≢ x) × Absent a xs

abbrev pub Distinct : List ℕ → Type 0
Distinct [] = Unit
Distinct (x ∷ xs) = Absent x xs × Distinct xs

put_other :
    (places bytes : List ℕ) (mem : Memory) (a : ℕ)
    → Absent a places
    → put places bytes mem a ≡ mem a
put_other [] bytes mem a h = refl
put_other (p ∷ places) [] mem a h = refl
put_other (p ∷ places) (b ∷ bytes) mem a h =
    put_other places bytes (update mem p b) a h.1 ∙ ground arith

update_self : (mem : Memory) (a b : ℕ) → update mem a b a ≡ b
update_self mem a b = ground arith

map-put :
    (places bytes : List ℕ) (mem : Memory)
    → Distinct places
    → length bytes ≡ length places
    → map (put places bytes mem) places ≡ bytes
map-put [] [] mem d l = refl
map-put [] (b ∷ bytes) mem d l = absurd (omega arith)
map-put (p ∷ places) [] mem d l = absurd (omega arith)
map-put (p ∷ places) (b ∷ bytes) mem d l = cc (
  put_other places bytes (update mem p b) p d.0,
  map-put places bytes (update mem p b) d.1 (omega arith),
  update_self mem p b,
)

count_from-length :
    (total : ℕ) (iov : List Iovec)
    → total + length (addresses iov) < 2 ^ 64
    → count_from total iov ≡ total + length (addresses iov)
unfolding count_from
count_from-length total [] h = omega arith
count_from-length total (v ∷ iov) h =
    let small : (total + v.len) % 2 ^ 64 ≡ total + v.len =
      omega (arith, length-append (span v.base v.len) (addresses iov), length-span v.base v.len) in
    rw small (
      omega (
        arith,
        length-append (span v.base v.len) (addresses iov),
        length-span v.base v.len,
        count_from-length (total + v.len) iov,
      ))

zero_total : (iov : List Iovec) → 0 + length (addresses iov) ≡ length (addresses iov)
zero_total iov = omega arith

-- What `buf_to_iov` has written to segments that do not overlap and hold just the buffer,
-- `iov_to_buf` reads back, if it gets memory: the same bytes and their number.
pub iov_to_buf-buf_to_iov :
    (buf : List ℕ) (iov : List Iovec) (mem : Memory)
    → Distinct (addresses iov)
    → length buf ≡ length (addresses iov)
    → length buf < 2 ^ 64
    → iov_to_buf true (buf_to_iov buf iov 0 mem).0 iov ≡ some (buf, length buf)
unfolding iov_to_buf count_iov
iov_to_buf-buf_to_iov buf iov mem d l h = cc (
  buf_to_iov-put buf iov 0 mem,
  gather-map (put (addresses iov) buf mem) iov,
  map-put (addresses iov) buf mem d l,
  count_from-length 0 iov (omega arith),
  zero_total iov,
  l,
)
