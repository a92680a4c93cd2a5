-- ===== src/Iov.antt =====
-- Scatter/gather lists, bios/bhyve/iov.c: an array of `struct iovec` is a list, and memory a function
-- from addresses to bytes.
pub mod Seek
pub mod Copy
mod Tests
use bhyve_experiments.Base.{
  ℕ, zero, suc, ◌+◌, ◌-◌, ◌%◌, ◌^◌, Bool, true, false, min, List, [], ◌∷◌, ◌++◌,
}
use bhyve_experiments.Base.{Option, none, some, ltb, leb, ◌==◌, if◌then◌else◌, length, take, drop}

-- `struct iovec`
pub record Iovec : Type 0 where
  pub base : ℕ
  pub len : ℕ

abbrev pub Memory : Type 0
Memory = ℕ → ℕ

-- The first loop of `seek_iov`: the segments that are left, and how far into the first of them.
pub seek_find : List Iovec → ℕ → List Iovec × ℕ
seek_find [] left = ([], 0)
seek_find (v ∷ iov) left =
    let toseek = min left v.len in
    let next = seek_find iov (left - toseek) in
    if toseek == v.len then next else if left - toseek == 0 then (v ∷ iov, toseek) else next

-- The second loop: `remainder` is 0 from the second segment on.
pub seek_copy : List Iovec → ℕ → List Iovec
seek_copy [] remainder = []
seek_copy (v ∷ iov) remainder =
    record { base = v.base + remainder; len = v.len - remainder } ∷ seek_copy iov 0

pub seek_iov : List Iovec → ℕ → List Iovec
seek_iov iov seek = let (rest, remainder) = seek_find iov seek in seek_copy rest remainder

-- `total` is a size_t.
pub count_from : ℕ → List Iovec → ℕ
count_from total [] = total
count_from total (v ∷ iov) = count_from ((total + v.len) % 2 ^ 64) iov

pub count_iov : List Iovec → ℕ
count_iov iov = count_from 0 iov

-- The loop of `truncate_iov`, with `done` bytes passed; `*niov` is the length of the result.
pub truncate_from : ℕ → ℕ → List Iovec → List Iovec
truncate_from length done [] = []
truncate_from length done (v ∷ iov) =
    let toseek = min (length - done) v.len in
    let next = truncate_from length (done + toseek) iov in
    if leb toseek v.len then record v { len = toseek } ∷ [] else v ∷ next

pub truncate_iov : List Iovec → ℕ → List Iovec
truncate_iov iov length = truncate_from length 0 iov

-- The bytes that `memcpy` reads at an address, and the memory after it has written some there.
pub copy_in : Memory → ℕ → ℕ → List ℕ
copy_in mem address zero = []
copy_in mem address (suc n) = mem address ∷ copy_in mem (address + 1) n

abbrev pub update : Memory → ℕ → ℕ → Memory
update mem address byte a = if a == address then byte else mem a

pub copy_out : Memory → ℕ → List ℕ → Memory
copy_out mem address [] = mem
copy_out mem address (byte ∷ bytes) = copy_out (update mem address byte) (address + 1) bytes

-- The loop of `iov_to_buf`: the buffer is filled from its start, segment after segment.
pub gather : Memory → List Iovec → List ℕ
gather mem [] = []
gather mem (v ∷ iov) = copy_in mem v.base v.len ++ gather mem iov

-- `iov_to_buf`, where `alloc` tells whether `realloc` gives a buffer; `none` is -1.
pub iov_to_buf : Bool → Memory → List Iovec → Option (List ℕ × ℕ)
iov_to_buf alloc mem iov = if alloc then some (gather mem iov, count_iov iov) else none

-- The loop of `buf_to_iov`
pub scatter : List Iovec → List ℕ → ℕ → Memory → Memory × ℕ
scatter [] buf off mem = (mem, off)
scatter (v ∷ iov) buf off mem =
    let len = min v.len (length buf - off) in
    let next = scatter iov buf (off + len) (copy_out mem v.base (take len (drop off buf))) in
    if ltb off (length buf) then next else (mem, off)

-- `buf_to_iov`: the memory after it, and the number of bytes copied
pub buf_to_iov : List ℕ → List Iovec → ℕ → Memory → Memory × ℕ
buf_to_iov buf iov seek mem = scatter (if ltb 0 seek then seek_iov iov seek else iov) buf 0 mem
