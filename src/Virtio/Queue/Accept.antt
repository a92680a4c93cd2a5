-- ===== src/Virtio/Queue/Accept.antt =====
-- `vq_getchain` accepts the chains that a driver can make of at most 512 descriptors, and no others.
use bhyve_experiments.Base.{
  ℕ, zero, suc, ◌+◌, ◌/◌, ◌%◌, ◌≤◌, ◌<◌, ◌≡◌, ◌≢◌, ◌↔◌, ◌⊎◌, inl, inr, refl, ap, subst, arith,
}
use bhyve_experiments.Base.{
  Bool, true, false, not, ◌||◌, List, [], ◌∷◌, ◌++◌, Option, none, some, if◌then◌else◌, ltb, leb,
  ◌==◌, length, length-append, get_or,
}
use bhyve_experiments.Base.Bits.{any_of}
use bhyve_experiments.Virtio.Queue.{
  Desc, Vqueue, has_next, is_indirect, indirect_chain, real_descs, followed, chain_from,
  max_descriptors, no_desc, f_indirect_desc,
}
use bhyve_experiments.Virtio.Queue.{chain, got_chain, getchain, head_of, minus16}
use bhyve_experiments.Virtio.Queue.Chain.{
  last, more, Stands, itself, by_table, Chain, final, onward, desc_at, some_injective, joined-some,
  inside, table_sound, table_complete,
}

real_round :
    (a b c : Bool) (x y : Option (List Desc)) (l : List Desc)
    → (if not a then x else if not b then none else if c then none else y) ≡ some l
    → ((a ≡ false) × (x ≡ some l)) ⊎ ((a ≡ true) × (b ≡ true) × (c ≡ false) × (y ≡ some l))
real_round false b c x y l h = inl (refl, h)
real_round true false c x y l h = cc
real_round true true true x y l h = cc
real_round true true false x y l h = inr (refl, refl, refl, h)

table_size :
    (len : ℕ) → (not (len % 16 == 0) || len / 16 == 0) ≡ false → (len % 16 ≡ 0) × (0 < len / 16)
table_size len h = ground arith

chain_round :
    (a b : Bool) (y : Option (List Desc)) (l : List Desc)
    → (if a then none else if b then none else y) ≡ some l
    → (a ≡ false) × (b ≡ false) × (y ≡ some l)
chain_round true b y l h = cc
chain_round false true y l h = cc
chain_round false false y l h = (refl, refl, h)

followed-some :
    (goes_on : Bool) (rest : ℕ → Option (List Desc)) (o : Option (List Desc)) (l : List Desc)
    → followed goes_on rest o ≡ some l
    → (m : List Desc) × (o ≡ some m)
      × (((goes_on ≡ false) × (m ≡ l))
          ⊎ ((goes_on ≡ true) × ((r : List Desc) × (rest (length m) ≡ some r) × (m ++ r ≡ l))))
unfolding followed
followed-some goes_on rest none l h = cc
followed-some false rest (some m) l h = (m, refl, inl (refl, some_injective m l h))
followed-some true rest (some m) l h = (m, refl, inr (refl, joined-some m l (rest (length m)) h))

module _ (tables : ℕ → ℕ → Desc) (caps : ℕ) where
  real_sound :
      (i : ℕ) (d : Desc) (l : List Desc)
      → i < max_descriptors
      → real_descs tables caps i d ≡ some l
      → Stands tables caps d l × (i + length l ≤ max_descriptors)
  unfolding real_descs
  real_sound i d l below h =
      elim (real_round (is_indirect d) (any_of caps f_indirect_desc)
        (not (d.len % 16 == 0) || d.len / 16 == 0) (some (d ∷ []))
        (indirect_chain 513 (tables d.addr) (d.len / 16) i 0) l h) [
          | inl (plain, e) ↦
              subst (λ t. Stands tables caps d t × (i + length t ≤ max_descriptors))
                (some_injective (d ∷ []) l e) (itself d plain, omega arith)
          | inr (points, negotiated, sized, e) ↦
              let (whole, entries) = table_size d.len sized in
              let (ends, short) = table_sound (tables d.addr) (d.len / 16) 513 i 0 l e in
              (by_table d l points negotiated whole entries ends, short)
        ]

  real_complete :
      (i : ℕ) (d : Desc) (l : List Desc)
      → Stands tables caps d l
      → i + length l ≤ max_descriptors
      → real_descs tables caps i d ≡ some l
  unfolding real_descs
  real_complete i _ _ (itself d plain) h = rw plain refl
  real_complete i _ _ (by_table d l points negotiated whole entries ends) h =
      let sized : (not (d.len % 16 == 0) || d.len / 16 == 0) ≡ false = ground arith in
      rw (points, negotiated, sized)
        (table_complete (tables d.addr) (d.len / 16) 513 i 0 l ends h (omega arith))

  not_empty : {d : Desc} {l : List Desc} → Stands tables caps d l → 0 < length l
  not_empty (itself d plain) = omega arith
  not_empty (by_table d _ points negotiated whole entries (last next plain stops)) = omega arith
  not_empty (by_table d _ points negotiated whole entries (more next l plain goes within ends)) =
      omega arith

  module _ (vq : Vqueue) where
    chain_from-Chain :
        (fuel i next : ℕ) (l : List Desc)
        → chain_from fuel tables caps vq i next ≡ some l
        → Chain tables caps vq next l × (i + length l ≤ max_descriptors)
    unfolding chain_from
    chain_from-Chain zero i next l h = cc
    chain_from-Chain (suc fuel) i next l h =
        let d = get_or vq.ring.desc next no_desc in
        let (below, within, e) = chain_round (leb max_descriptors i) (leb vq.qsize next) _ l h in
        let (m, stands, on) =
          followed-some (has_next d) (λ n. chain_from fuel tables caps vq (i + n) d.next)
            (real_descs tables caps i d) l e in
        let (real, short) = real_sound i d m (inside max_descriptors i below) stands in
        elim on [
          | inl (stops, same_list) ↦
              subst (λ t. Chain tables caps vq next t × (i + length t ≤ max_descriptors)) same_list
                (final next m (inside vq.qsize next within) stops real, short)
          | inr (goes, (r, found, whole)) ↦
              let (ends, fits) = chain_from-Chain fuel (i + length m) d.next r found in
              subst (λ t. Chain tables caps vq next t × (i + length t ≤ max_descriptors)) whole
                (
                  onward next m r (inside vq.qsize next within) goes real ends,
                  omega (arith, length-append m r),
                )
        ]

    Chain-chain_from :
        (fuel i next : ℕ) (l : List Desc)
        → Chain tables caps vq next l
        → i + length l ≤ max_descriptors
        → length l < fuel
        → chain_from fuel tables caps vq i next ≡ some l
    unfolding chain_from followed
    Chain-chain_from zero i next l c h f = absurd (omega arith)
    Chain-chain_from (suc fuel) i _ _ (final next l within stops real) h f =
        let below : leb max_descriptors i ≡ false = ground (arith, not_empty real) in
        let near : leb vq.qsize next ≡ false = ground arith in
        rw (below, near, stops, real_complete i (desc_at tables caps vq next) l real h) refl
    Chain-chain_from (suc fuel) i _ _ (onward next l rest within goes real ends) h f =
        let below : leb max_descriptors i ≡ false =
          ground (arith, not_empty real, length-append l rest) in
        let near : leb vq.qsize next ≡ false = ground arith in
        rw
          (
            below,
            near,
            goes,
            real_complete i (desc_at tables caps vq next) l real
                (omega (arith, length-append l rest)),
            Chain-chain_from fuel (i + length l) (desc_at tables caps vq next).next rest ends
                (omega (arith, length-append l rest))
                (omega (arith, length-append l rest, not_empty real)),
          )
          refl

    got_injective :
        (head : ℕ) (o : Option (List Desc)) (l : List Desc)
        → got_chain head o ≡ chain head l
        → o ≡ some l
    got_injective head none l h = cc
    got_injective head (some m) l h = cc

    -- Where the driver has made something available, and no more than the queue holds, the next
    -- call of `vq_getchain` returns a list of descriptors exactly if it is the chain from the head
    -- on that the driver has made, with the tables of indirect descriptors in their places, and
    -- has at most 512 descriptors.
    pub getchain-Chain :
        (l : List Desc)
        → minus16 vq.ring.avail_idx vq.last_avail ≢ 0
        → minus16 vq.ring.avail_idx vq.last_avail ≤ vq.qsize
        → (((getchain tables caps vq).1 ≡ chain (head_of vq) l)
            ↔ (Chain tables caps vq (head_of vq) l × (length l ≤ max_descriptors)))
    unfolding getchain
    getchain-Chain l available bounded =
        let some_there : (minus16 vq.ring.avail_idx vq.last_avail == 0) ≡ false = ground arith in
        let in_range : ltb vq.qsize (minus16 vq.ring.avail_idx vq.last_avail) ≡ false =
          ground arith in
        rw (some_there, in_range)
          (
            (λ e.
                let (made, short) =
                  chain_from-Chain 513 0 (head_of vq) l (
                    got_injective (head_of vq) (chain_from 513 tables caps vq 0 (head_of vq)) l
                      e) in
                (made, omega arith)),
            (λ c. ap (got_chain (head_of vq)) (
                Chain-chain_from 513 0 (head_of vq) l c.0 (omega (arith, c.1))
                  (omega (arith, c.1)))),
          )
