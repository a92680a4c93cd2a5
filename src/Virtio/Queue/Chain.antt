-- ===== src/Virtio/Queue/Chain.antt =====
-- The chains that a driver can make, and the walk along the table of an indirect descriptor.
use bhyve_experiments.Base.{
  ℕ, zero, suc, ◌+◌, ◌/◌, ◌%◌, ◌≤◌, ◌<◌, ◌≡◌, ◌⊎◌, inl, inr, refl, subst, arith,
}
use bhyve_experiments.Base.{
  Bool, true, false, not, List, [], ◌∷◌, ◌++◌, Option, none, some, if◌then◌else◌, ltb, leb, length,
  get_or,
}
use bhyve_experiments.Base.Bits.{any_of}
use bhyve_experiments.Virtio.Queue.{
  Desc, Vqueue, has_next, is_indirect, joined, indirect_chain, max_descriptors, no_desc,
  f_indirect_desc,
}

-- the descriptors from `next` on in a table of `n`, none of which points to a table
pub data TableChain (table : ℕ → Desc) (n : ℕ) : ℕ → List Desc → Type 0 where
  last :
      (next : ℕ)
      → is_indirect (table next) ≡ false
      → has_next (table next) ≡ false
      → TableChain table n next (table next ∷ [])
  more :
      (next : ℕ) (l : List Desc)
      → is_indirect (table next) ≡ false
      → has_next (table next) ≡ true
      → (table next).next < n
      → TableChain table n (table next).next l
      → TableChain table n next (table next ∷ l)

module _ (tables : ℕ → ℕ → Desc) (caps : ℕ) where
  -- a descriptor stands for itself, or for the chain of its table, where the device offers tables
  pub data Stands : Desc → List Desc → Type 0 where
    itself : (d : Desc) → is_indirect d ≡ false → Stands d (d ∷ [])
    by_table :
        (d : Desc) (l : List Desc)
        → is_indirect d ≡ true
        → any_of caps f_indirect_desc ≡ true
        → d.len % 16 ≡ 0
        → 0 < d.len / 16
        → TableChain (tables d.addr) (d.len / 16) 0 l
        → Stands d l

  module _ (vq : Vqueue) where
    abbrev pub desc_at : ℕ → Desc
    desc_at next = get_or vq.ring.desc next no_desc

    -- the descriptors of the queue from `next` on
    pub data Chain : ℕ → List Desc → Type 0 where
      final :
          (next : ℕ) (l : List Desc)
          → next < vq.qsize
          → has_next (desc_at next) ≡ false
          → Stands (desc_at next) l
          → Chain next l
      onward :
          (next : ℕ) (l rest : List Desc)
          → next < vq.qsize
          → has_next (desc_at next) ≡ true
          → Stands (desc_at next) l
          → Chain (desc_at next).next rest
          → Chain next (l ++ rest)

pub some_injective : (l r : List Desc) → some l ≡ some r → l ≡ r
some_injective l r e = cc

pub joined-some :
    (l r : List Desc) (o : Option (List Desc))
    → joined l o ≡ some r
    → (rest : List Desc) × (o ≡ some rest) × (l ++ rest ≡ r)
joined-some l r none h = cc
joined-some l r (some rest) h = (rest, refl, some_injective (l ++ rest) r h)

table_round :
    (a b c d : Bool) (x y : Option (List Desc)) (l : List Desc)
    → (if a then none else if b then none else if not c then x else if d then none else y) ≡ some l
    → (a ≡ false)
      × (b ≡ false)
      × (((c ≡ false) × (x ≡ some l)) ⊎ ((c ≡ true) × (d ≡ false) × (y ≡ some l)))
table_round true b c d x y l h = cc
table_round false true c d x y l h = cc
table_round false false false d x y l h = (refl, refl, inl (refl, h))
table_round false false true true x y l h = cc
table_round false false true false x y l h = (refl, refl, inr (refl, refl, h))

room : (i : ℕ) → ltb max_descriptors (i + 1) ≡ false → i + 1 ≤ max_descriptors
room i h = ground arith

pub inside : (n next : ℕ) → leb n next ≡ false → next < n
inside n next h = ground arith

module _ (table : ℕ → Desc) (n : ℕ) where
  pub table_sound :
      (fuel i next : ℕ) (l : List Desc)
      → indirect_chain fuel table n i next ≡ some l
      → TableChain table n next l × (i + length l ≤ max_descriptors)
  unfolding indirect_chain
  table_sound zero i next l h = cc
  table_sound (suc fuel) i next l h =
      let (plain, fits, on) =
        table_round (is_indirect (table next)) (ltb max_descriptors (i + 1)) (has_next (table next))
          (leb n (table next).next) (some (table next ∷ []))
          (joined (table next ∷ []) (indirect_chain fuel table n (i + 1) (table next).next)) l h in
      elim on [
        | inl (stops, e) ↦
            subst (λ t. TableChain table n next t × (i + length t ≤ max_descriptors))
              (some_injective (table next ∷ []) l e)
              (last next plain stops, omega (arith, room i fits))
        | inr (goes, within, e) ↦
            let (rest, found, whole) = joined-some (table next ∷ []) l _ e in
            let (ends, short) = table_sound fuel (i + 1) (table next).next rest found in
            subst (λ t. TableChain table n next t × (i + length t ≤ max_descriptors)) whole
              (more next rest plain goes (inside n (table next).next within) ends, omega arith)
      ]

  pub table_complete :
      (fuel i next : ℕ) (l : List Desc)
      → TableChain table n next l
      → i + length l ≤ max_descriptors
      → length l ≤ fuel
      → indirect_chain fuel table n i next ≡ some l
  unfolding indirect_chain
  table_complete zero i _ _ (last next plain stops) h f = absurd (omega arith)
  table_complete zero i _ _ (more next l plain goes within ends) h f = absurd (omega arith)
  table_complete (suc fuel) i _ _ (last next plain stops) h f =
      let fits : ltb max_descriptors (i + 1) ≡ false = ground arith in rw (plain, stops, fits) refl
  table_complete (suc fuel) i _ _ (more next l plain goes within ends) h f =
      let fits : ltb max_descriptors (i + 1) ≡ false = ground arith in
      let near : leb n (table next).next ≡ false = ground arith in
      let rest = table_complete fuel (i + 1) (table next).next l ends (omega arith) (omega arith) in
      rw (plain, goes, fits, near, rest) refl
