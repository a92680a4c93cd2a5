-- ===== src/Virtio/Queue.antt =====
-- A queue of requests: descriptor chains, the ring of available chains and the ring of used ones.
pub mod Chain
pub mod Accept
pub mod Used
pub mod Events
use bhyve_experiments.Base.{
  ℕ, zero, suc, ◌+◌, ◌-◌, ◌*◌, ◌/◌, ◌%◌, ◌^◌, Bool, true, false, not, ◌&&◌, ◌||◌, List, [], ◌∷◌,
  ◌++◌,
}
use bhyve_experiments.Base.{
  Option, none, some, bit_and, bit_or, ltb, leb, ◌==◌, if◌then◌else◌, length, get_or, set, take,
}
use bhyve_experiments.Base.Bits.{any_of}

-- `struct virtio_desc`
pub record Desc : Type 0 where
  pub addr : ℕ
  pub len : ℕ
  pub flags : ℕ
  pub next : ℕ

-- `struct virtio_used`
pub record UsedEntry : Type 0 where
  pub idx : ℕ
  pub tlen : ℕ

-- The memory that the device shares with the driver: the descriptors, the available ring with the
-- event index behind it, and the used ring.
pub record Vring : Type 0 where
  pub desc : List Desc
  pub avail_flags : ℕ
  pub avail_idx : ℕ
  pub avail_ring : List ℕ
  pub used_event : ℕ
  pub used_flags : ℕ
  pub used_idx : ℕ
  pub used_ring : List UsedEntry

-- `struct vqueue_info`
pub record Vqueue : Type 0 where
  pub qsize : ℕ
  pub flags : ℕ
  pub last_avail : ℕ
  pub next_used : ℕ
  pub save_used : ℕ
  pub msix_idx : ℕ
  pub pfn : ℕ
  pub ring : Vring

abbrev pub desc_f_next : ℕ
desc_f_next = 1

abbrev pub desc_f_indirect : ℕ
desc_f_indirect = 4

abbrev pub f_notify_on_empty : ℕ
f_notify_on_empty = 2 ^ 24

abbrev pub f_indirect_desc : ℕ
f_indirect_desc = 2 ^ 28

abbrev pub f_event_idx : ℕ
f_event_idx = 2 ^ 29

abbrev pub max_descriptors : ℕ
max_descriptors = 512

abbrev pub no_desc : Desc
no_desc = record { addr = 0; len = 0; flags = 0; next = 0 }

abbrev pub has_next : Desc → Bool
has_next d = any_of d.flags desc_f_next

abbrev pub is_indirect : Desc → Bool
is_indirect d = any_of d.flags desc_f_indirect

-- what goes in front of the descriptors that follow, if they are in order
abbrev pub joined : List Desc → Option (List Desc) → Option (List Desc)
joined l none = none
joined l (some rest) = some (l ++ rest)

-- The inner loop of `vq_getchain`, along a table of `n_indir` descriptors, with `i` of them passed
-- before: the descriptors in order, or `none` for -1. Each round passes one of at most 512, so
-- 513 rounds are enough.
unfoldable pub indirect_chain : ℕ → (ℕ → Desc) → ℕ → ℕ → ℕ → Option (List Desc)
indirect_chain zero table n_indir i next = none
indirect_chain (suc fuel) table n_indir i next =
    let vp = table next in
    let rest = joined (vp ∷ []) (indirect_chain fuel table n_indir (i + 1) vp.next) in
    if is_indirect vp
    then none
    else if ltb max_descriptors (i + 1)
    then none
    else if not (has_next vp)
    then some (vp ∷ [])
    else if leb n_indir vp.next
    then none
    else rest

-- A descriptor of the queue by itself, or the table that it points to. `tables` is the memory at
-- an address as descriptors, `caps` what the device offers (`vc_hv_caps`).
unfoldable pub real_descs : (ℕ → ℕ → Desc) → ℕ → ℕ → Desc → Option (List Desc)
real_descs tables caps i vdir =
    if not (is_indirect vdir)
    then some (vdir ∷ [])
    else if not (any_of caps f_indirect_desc)
    then none
    else if not (vdir.len % 16 == 0) || vdir.len / 16 == 0
    then none
    else indirect_chain 513 (tables vdir.addr) (vdir.len / 16) i 0

-- what follows a descriptor whose real descriptors are in order
unfoldable pub followed : Bool → (ℕ → Option (List Desc)) → Option (List Desc) → Option (List Desc)
followed more rest none = none
followed more rest (some l) = if more then joined l (rest (length l)) else some l

-- The outer loop of `vq_getchain`, from descriptor `next` on
unfoldable pub chain_from : ℕ → (ℕ → ℕ → Desc) → ℕ → Vqueue → ℕ → ℕ → Option (List Desc)
chain_from zero tables caps vq i next = none
chain_from (suc fuel) tables caps vq i next =
    let vdir = get_or vq.ring.desc next no_desc in
    if leb max_descriptors i
    then none
    else if leb vq.qsize next
    then none
    else followed (has_next vdir) (λ n. chain_from fuel tables caps vq (i + n) vdir.next)
        (real_descs tables caps i vdir)

-- `(uint16_t)(a - b)`
abbrev pub minus16 : ℕ → ℕ → ℕ
minus16 a b = (a + (2 ^ 16 - b)) % 2 ^ 16

-- What `vq_getchain` returns: nothing is available, it is -1, or the head of a chain and its
-- descriptors, of which the first `n_iov` go to the arrays of the caller.
pub data Got : Type 0 where
  empty : Got
  broken : Got
  chain : ℕ → List Desc → Got

abbrev pub got_chain : ℕ → Option (List Desc) → Got
got_chain head none = broken
got_chain head (some l) = chain head l

unfoldable pub head_of : Vqueue → ℕ
head_of vq = get_or vq.ring.avail_ring (bit_and vq.last_avail (vq.qsize - 1)) 0

unfoldable pub getchain : (ℕ → ℕ → Desc) → ℕ → Vqueue → Vqueue × Got
getchain tables caps vq =
    let ndesc = minus16 vq.ring.avail_idx vq.last_avail in
    if ndesc == 0 then (vq, empty) else if ltb vq.qsize ndesc then (vq, broken) else (
      record vq { last_avail = (vq.last_avail + 1) % 2 ^ 16 },
      got_chain (head_of vq) (chain_from 513 tables caps vq 0 (head_of vq)),
    )

-- `iov` and `flags` of `vq_getchain`: `_vq_record` stores no more than `n_iov` descriptors.
pub recorded : ℕ → List Desc → List Desc
recorded n_iov l = take n_iov l

unfoldable pub retchains : Vqueue → ℕ → Vqueue
retchains vq n_chains = record vq { last_avail = (vq.last_avail + (2 ^ 16 - n_chains)) % 2 ^ 16 }

unfoldable pub relchain_prepare : Vqueue → ℕ → ℕ → Vqueue
relchain_prepare vq idx iolen = record vq {
  next_used = (vq.next_used + 1) % 2 ^ 16;
  ring = record vq.ring {
    used_ring =
        set vq.ring.used_ring (bit_and vq.next_used (vq.qsize - 1))
          (record { idx = idx; tlen = iolen });
  };
}

unfoldable pub relchain_publish : Vqueue → Vqueue
relchain_publish vq = record vq { ring = record vq.ring { used_idx = vq.next_used } }

unfoldable pub relchain : Vqueue → ℕ → ℕ → Vqueue
relchain vq idx iolen = relchain_publish (relchain_prepare vq idx iolen)

-- `vq_endchains` with the capabilities negotiated: the queue, and whether the driver is interrupted
unfoldable pub wants_intr : ℕ → Vqueue → Bool → Bool
wants_intr caps vq used_all_avail =
    let new_idx = vq.ring.used_idx in
    let old_idx = vq.save_used in
    if used_all_avail && any_of caps f_notify_on_empty
    then true
    else if any_of caps f_event_idx
    then ltb (minus16 new_idx (vq.ring.used_event + 1)) (minus16 new_idx old_idx)
    else not (new_idx == old_idx) && not (any_of vq.ring.avail_flags 1)

unfoldable pub endchains : ℕ → Vqueue → Bool → Vqueue × Bool
endchains caps vq used_all_avail =
    (record vq { save_used = vq.ring.used_idx }, wants_intr caps vq used_all_avail)

abbrev pub ring_ready : Vqueue → Bool
ring_ready vq = any_of vq.flags 1

pub has_descs : Vqueue → Bool
has_descs vq = ring_ready vq && not (vq.last_avail == vq.ring.avail_idx)

pub kick_enable : Vqueue → Vqueue
kick_enable vq = record vq {
  ring = record vq.ring { used_flags = bit_and vq.ring.used_flags 0xfffe };
}

pub kick_disable : Vqueue → Vqueue
kick_disable vq = record vq { ring = record vq.ring { used_flags = bit_or vq.ring.used_flags 1 } }
