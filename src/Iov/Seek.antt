-- ===== src/Iov/Seek.antt =====
-- Seeking and truncating, against the sequence of addresses that a list stands for.
use bhyve_experiments.Base.{ℕ, zero, suc, ◌+◌, ◌-◌, ◌≤◌, ◌<◌, ◌≡◌, ◌≢◌, refl, sym, ap, ◌∙◌, min}
use bhyve_experiments.Base.{true, List, [], ◌∷◌, ◌++◌, arith}
use bhyve_experiments.Base.{length, take, drop, length-append}
use bhyve_experiments.Base.{cut-nil, length-take, leb}
use mathlib.Core.List.{append-nil}
use native.Mathlib.Decide.{dec_le}
use bhyve_experiments.Iov.{Iovec, seek_find, seek_copy, seek_iov}
use bhyve_experiments.Iov.{truncate_from, truncate_iov}

-- the `n` addresses from `a` on
abbrev pub span : ℕ → ℕ → List ℕ
span a zero = []
span a (suc n) = a ∷ span (a + 1) n

-- the addresses of the bytes of a list, in order
abbrev pub addresses : List Iovec → List ℕ
addresses [] = []
addresses (v ∷ iov) = span v.base v.len ++ addresses iov

pub length-span : (a n : ℕ) → length (span a n) ≡ n
length-span a zero = refl
length-span a (suc n) = ap suc (length-span (a + 1) n)

span_eq : (a b m n : ℕ) → a ≡ b → m ≡ n → span a m ≡ span b n
span_eq a b m n p q = cc

nothing_left : (left len : ℕ) → left < len → left - len ≡ 0
nothing_left left len h = omega arith

seek_find_pass :
    (v : Iovec) (iov : List Iovec) (left : ℕ)
    → v.len ≤ left
    → seek_find (v ∷ iov) left ≡ seek_find iov (left - v.len)
unfolding seek_find
seek_find_pass v iov left h = let e : min left v.len ≡ v.len = omega arith in rw e (ground arith)

seek_find_stop :
    (v : Iovec) (iov : List Iovec) (left : ℕ)
    → left < v.len
    → seek_find (v ∷ iov) left ≡ (v ∷ iov, left)
unfolding seek_find
seek_find_stop v iov left h = let e : min left v.len ≡ left = omega arith in rw e (ground arith)

drop-append : (n : ℕ) (xs ys : List ℕ) → drop n (xs ++ ys) ≡ drop n xs ++ drop (n - length xs) ys
drop-append zero xs ys = let none_left : 0 - length xs ≡ 0 = omega arith in rw none_left
drop-append (suc n) [] ys = let all_left : suc n - 0 ≡ suc n = omega arith in rw all_left
drop-append (suc n) (x ∷ xs) ys =
    drop-append n xs ys ∙ ap (λ k. drop n xs ++ drop k ys) (omega arith)

drop-span : (n a len : ℕ) → n ≤ len → drop n (span a len) ≡ span (a + n) (len - n)
drop-span zero a len h = span_eq a (a + 0) len (len - 0) (omega arith) (omega arith)
drop-span (suc n) a zero h = absurd (omega arith)
drop-span (suc n) a (suc len) h =
    drop-span n (a + 1) len (omega arith)
    ∙ span_eq (a + 1 + n) (a + suc n) (len - n) (suc len - suc n) (omega arith) (omega arith)

pub drop_all : (n : ℕ) (xs : List ℕ) → length xs ≤ n → drop n xs ≡ []
drop_all zero [] h = refl
drop_all zero (x ∷ xs) h = absurd (omega arith)
drop_all (suc n) [] h = refl
drop_all (suc n) (x ∷ xs) h = drop_all n xs (omega arith)

seek_copy-zero : (iov : List Iovec) → addresses (seek_copy iov 0) ≡ addresses iov
unfolding seek_copy
seek_copy-zero [] = refl
seek_copy-zero (v ∷ iov) =
    cc (
      seek_copy-zero iov,
      span_eq (v.base + 0) v.base (v.len - 0) v.len (omega arith) (omega arith),
    )

seek_find-drop :
    (iov : List Iovec) (left : ℕ)
    → let (rest, remainder) = seek_find iov left in
      addresses (seek_copy rest remainder) ≡ drop left (addresses iov)
unfolding seek_find seek_copy
seek_find-drop [] left = sym (cut-nil ℕ left).1
seek_find-drop (v ∷ iov) left = elim (dec_le v.len left) [
  | yes p ↦ rw (seek_find_pass v iov left p) (
      seek_find-drop iov (left - v.len)
      ∙ sym (
          drop-append left (span v.base v.len) (addresses iov)
          ∙ cc (
            drop_all left (span v.base v.len) (omega (arith, length-span v.base v.len)),
            length-span v.base v.len,
          )))
  | no p ↦ rw (seek_find_stop v iov left (omega arith)) (
      cc (
        seek_copy-zero iov,
        drop-append left (span v.base v.len) (addresses iov),
        drop-span left v.base v.len (omega arith),
        length-span v.base v.len,
        nothing_left left v.len (omega arith),
      ))
]

-- `seek_iov` leaves the bytes from `seek` on, in order.
pub addresses-seek_iov :
    (iov : List Iovec) (seek : ℕ) → addresses (seek_iov iov seek) ≡ drop seek (addresses iov)
unfolding seek_iov
addresses-seek_iov iov seek = seek_find-drop iov seek

-- `truncate_iov` keeps the first segment alone, cut at the length asked for, whatever follows it.
truncate_first :
    (v : Iovec) (iov : List Iovec) (size : ℕ)
    → addresses (truncate_iov (v ∷ iov) size) ≡ span v.base (min size v.len)
unfolding truncate_iov truncate_from
truncate_first v iov size =
    let cut : leb (min (size - 0) v.len) v.len ≡ true = ground arith in
    rw cut (
      append-nil _
      ∙ span_eq v.base v.base (min (size - 0) v.len) (min size v.len) refl (omega arith))

-- Where the length asked for reaches beyond the first segment, and there are bytes behind it,
-- `truncate_iov` does not keep the bytes up to that length.
pub truncate_iov-ne-take :
    (v : Iovec) (iov : List Iovec) (size : ℕ)
    → v.len < size
    → 0 < length (addresses iov)
    → addresses (truncate_iov (v ∷ iov) size) ≢ take size (addresses (v ∷ iov))
truncate_iov-ne-take v iov size h more e = omega (
  arith,
  ap length (sym (truncate_first v iov size) ∙ e),
  length-span v.base (min size v.len),
  length-span v.base v.len,
  length-take size (addresses (v ∷ iov)),
  length-append (span v.base v.len) (addresses iov),
)
