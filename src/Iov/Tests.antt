-- ===== src/Iov/Tests.antt =====
-- Runs of the functions on scatter/gather lists.
use bhyve_experiments.Base.{ℕ, ◌≡◌, ◌≢◌, refl, List, [], ◌∷◌, true, some, arith}
use bhyve_experiments.Iov.{Iovec, Memory, truncate_iov, iov_to_buf, buf_to_iov}
use bhyve_experiments.Iov.Seek.{addresses, truncate_iov-ne-take}
use bhyve_experiments.Iov.Copy.{put, buf_to_iov-put, iov_to_buf-buf_to_iov, Distinct}

-- two bytes at 100, none at 50, three at 200
abbrev empty_one : Iovec
empty_one = record { base = 50; len = 0 }

abbrev pair_first : Iovec
pair_first = record { base = 100; len = 2 }

abbrev behind : List Iovec
behind = empty_one ∷ record { base = 200; len = 3 } ∷ []

abbrev sample : List Iovec
sample = pair_first ∷ behind

-- each address holds itself
abbrev plain : Memory
plain a = a

truncate_iov-ne-take_example : addresses (truncate_iov sample 4) ≢ 100 ∷ 101 ∷ 200 ∷ 201 ∷ []
truncate_iov-ne-take_example = truncate_iov-ne-take pair_first behind 4 (omega arith) (omega arith)

buf_to_iov-put_example :
    buf_to_iov (7 ∷ 8 ∷ []) sample 1 plain
    ≡ (put (101 ∷ 200 ∷ 201 ∷ 202 ∷ []) (7 ∷ 8 ∷ []) plain, 2)
buf_to_iov-put_example = buf_to_iov-put (7 ∷ 8 ∷ []) sample 1 plain

abbrev five : List ℕ
five = 1 ∷ 2 ∷ 3 ∷ 4 ∷ 5 ∷ []

apart : Distinct (addresses sample)
apart = (
  (omega arith, (omega arith, (omega arith, (omega arith, tt)))),
  (
    (omega arith, (omega arith, (omega arith, tt))),
    ((omega arith, (omega arith, tt)), ((omega arith, tt), (tt, tt))),
  ),
)

iov_to_buf-buf_to_iov_example :
    iov_to_buf true (buf_to_iov five sample 0 plain).0 sample ≡ some (five, 5)
iov_to_buf-buf_to_iov_example = iov_to_buf-buf_to_iov five sample plain apart refl (omega arith)
