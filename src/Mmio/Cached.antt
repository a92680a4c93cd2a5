-- ===== src/Mmio/Cached.antt =====
-- The range that is remembered for a virtual CPU is always one of the tree, and never changes
-- which range takes an access.
use bhyve_experiments.Base.{
  ℕ, ◌+◌, ◌^◌, ◌≤◌, ◌<◌, ◌≡◌, ◌≢◌, ◌↔◌, inl, inr, refl, sym, ap, ◌∙◌, subst, arith, Bool, true,
  false, ◌&&◌, Option, none, some, if◌then◌else◌, leb, ◌==◌, Option-cases, Bool-cases,
}
use bhyve_experiments.Mmio.{
  MemRange, Node, Tree, Mmio, meets, at_addr, node_for, hinted, flushed, rb_lookup, access_memory,
  rb_add, register_mem_int, register_mem, register_mem_fallback, unregister_mem, init_mem, enoent,
  same_range, without,
}
use bhyve_experiments.Mmio.Trees.{InOrder, Laws}

-- Both trees are in order, and each hint is a node of the first one.
pub record IsValid {T : Type 0} (has : T → Node → Type 0) (s : Mmio T) : Type 0 where
  pub root_ok : InOrder has s.root
  pub fallback_ok : InOrder has s.fallback
  pub hints : (vcpu : ℕ) (n : Node) → s.hint vcpu ≡ some n → has s.root n

-- A range that is not empty and ends below 2^64
abbrev pub IsRange : MemRange → Type 0
IsRange memp = (0 < memp.size) × (memp.base + memp.size ≤ 2 ^ 64)

meets_sym : (a b : Node) → meets a b ≡ true → meets b a ≡ true
unfolding meets
meets_sym a b h = ground arith

meets_at : (n : Node) (addr : ℕ) → n.base ≤ addr → addr ≤ n.end → meets (at_addr addr) n ≡ true
unfolding meets
meets_at n addr l h = ground arith

meets_both :
    (a b : Node) (addr : ℕ)
    → meets (at_addr addr) a ≡ true
    → meets (at_addr addr) b ≡ true
    → meets a b ≡ true
unfolding meets
meets_both a b addr ha hb = ground arith

some_injective : (m n : Node) → some m ≡ some n → m ≡ n
some_injective m n e = cc

chosen : (b : Bool) (m n : Node) → (if b then some m else none) ≡ some n → (b ≡ true) × (m ≡ n)
chosen true m n h = (refl, some_injective m n h)
chosen false m n h = cc

left_out : (b : Bool) (m n : Node) → (if b then none else some m) ≡ some n → (b ≡ false) × (m ≡ n)
left_out true m n h = cc
left_out false m n h = (refl, some_injective m n h)

hinted-some :
    (o : Option Node) (paddr : ℕ) (n : Node)
    → hinted o paddr ≡ some n
    → (o ≡ some n) × (meets (at_addr paddr) n ≡ true)
unfolding hinted
hinted-some none paddr n h = cc
hinted-some (some m) paddr n h =
    let (inside, same) = chosen (leb m.base paddr && leb paddr m.end) m n h in
    (
      ap some same,
      subst (λ (k : Node). meets (at_addr paddr) k ≡ true) same
          (meets_at m paddr (ground arith) (ground arith)),
    )

flushed-some :
    (entry n : Node) (o : Option Node) → flushed entry o ≡ some n → (o ≡ some n) × (n ≢ entry)
unfolding flushed
flushed-some entry n none h = cc
flushed-some entry n (some m) h =
    let (other, same) = left_out (m.ptr == entry.ptr) m n h in
    (
      ap some same,
      λ e. let ptrs : m.ptr ≡ entry.ptr = ap (λ (k : Node). k.ptr) (same ∙ e) in ground arith,
    )

module _ {T : Type 0} (tree : Tree T) (has : T → Node → Type 0) (laws : Laws tree has) where
  looked_up :
      (t : T) (addr : ℕ) (n : Node)
      → InOrder has t
      → rb_lookup tree t addr ≡ some n
      → has t n × (meets (at_addr addr) n ≡ true)
  unfolding rb_lookup
  looked_up t addr n ok h = laws.found t (at_addr addr) n ok (omega arith) h

  missed :
      (t : T) (addr : ℕ) (n : Node)
      → InOrder has t
      → has t n
      → rb_lookup tree t addr ≡ none
      → meets (at_addr addr) n ≡ false
  unfolding rb_lookup
  missed t addr n ok there e = laws.not_found t (at_addr addr) n ok (omega arith) e there

  -- A node of the tree that holds the address is the one that the search finds.
  lookup_unique :
      (t : T) (addr : ℕ) (n : Node)
      → InOrder has t
      → has t n
      → meets (at_addr addr) n ≡ true
      → rb_lookup tree t addr ≡ some n
  lookup_unique t addr n ok there here = elim (Option-cases (rb_lookup tree t addr)) [
    | inl e ↦ cc (here, missed t addr n ok there e)
    | inr (m, e) ↦
        let (stored, held) = looked_up t addr m ok e in
        e ∙ ap some (ok.apart m n stored there (meets_both m n addr held here))
  ]

  -- A tree in order that has all nodes of the one before
  abbrev Grown : T → T → Type 0
  Grown t t' = InOrder has t' × ((n : Node) → has t n → has t' n)

  inserted_ok :
      (t : T) (new : Node)
      → InOrder has t
      → new.base ≤ new.end
      → (tree.insert t new).1 ≡ none
      → Grown t (tree.insert t new).0
  inserted_ok t new ok range e =
      let (free, nodes) = laws.inserted t new ok range e in
      (
        record {
          ranges = λ n h. elim ((nodes n).0 h) [
            | inl same ↦ subst (λ (k : Node). k.base ≤ k.end) (sym same) range
            | inr old ↦ ok.ranges n old
          ];
          apart = λ a b ha hb m. elim ((nodes a).0 ha) [
            | inl ea ↦ elim ((nodes b).0 hb) [
              | inl eb ↦ ea ∙ sym eb
              | inr ob ↦ cc (free b ob, ap (λ (k : Node). meets k b) ea, m)
            ]
            | inr oa ↦ elim ((nodes b).0 hb) [
              | inl eb ↦ cc (free a oa, ap (λ (k : Node). meets k a) eb, meets_sym a b m)
              | inr ob ↦ ok.apart a b oa ob m
            ]
          ];
        },
        λ n h. (nodes n).1 (inr h),
      )

  add_keeps :
      (t : T) (new : Node) → InOrder has t → new.base ≤ new.end → Grown t (rb_add tree t new).0
  unfolding rb_add
  add_keeps t new ok range = elim (Option-cases (tree.insert t new).1) [
    | inl e ↦ rw e (inserted_ok t new ok range e)
    | inr (n, e) ↦ rw e (subst (Grown t) (sym (laws.stays t new n ok range e)) (ok, λ k h. h))
  ]

  register_keeps :
      (t : T) (memp : MemRange) (malloc : Option ℕ)
      → InOrder has t
      → IsRange memp
      → Grown t (register_mem_int tree t memp malloc).0
  unfolding register_mem_int
  register_keeps t memp none ok range = (ok, λ k h. h)
  register_keeps t memp (some ptr) ok range = elim (Option-cases (rb_lookup tree t memp.base)) [
    | inl e ↦ rw e (add_keeps t (node_for ptr memp) ok (omega (arith, range.0, range.1)))
    | inr (n, e) ↦ rw e (ok, λ k h. h)
  ]

  access_keeps :
      (s : Mmio T) (vcpu paddr : ℕ)
      → IsValid has s
      → IsValid has (access_memory tree s vcpu paddr).0
  unfolding access_memory
  access_keeps s vcpu paddr v = elim (Option-cases (hinted (s.hint vcpu) paddr)) [
    | inr (n, e) ↦ rw e v
    | inl e ↦ elim (Option-cases (rb_lookup tree s.root paddr)) [
      | inl none_found ↦ rw (e, none_found) v
      | inr (n, f) ↦
          rw (e, f)
            (record {
              root_ok = v.root_ok;
              fallback_ok = v.fallback_ok;
              hints = λ w k h. hint_set w k n (looked_up s.root paddr n v.root_ok f).0 h;
            })
    ]
  ]
    where
      hint_set :
          (w : ℕ) (k n : Node)
          → has s.root n
          → (if w == vcpu then some n else s.hint w) ≡ some k
          → has s.root k
      hint_set w k n there h = elim (Bool-cases (w == vcpu)) [
        | inl e ↦ subst (has s.root) (cc (e, h)) there
        | inr e ↦ v.hints w k (cc (e, h))
      ]

  same_state :
      (s s' : Mmio T) (e e' : ℕ)
      → ◌≡◌ {A = Option (Mmio T × ℕ)} (some (s, e)) (some (s', e'))
      → s ≡ s'
  same_state s s' e e' h = cc

  removed_or :
      (b : Bool) (s s' : Mmio T) (e e' : ℕ)
      → if◌then◌else◌ {A = Option (Mmio T × ℕ)} b (some (s, e)) none ≡ some (s', e')
      → s ≡ s'
  removed_or true s s' e e' h = same_state s s' e e' h
  removed_or false s s' e e' h = cc

  without_ok :
      (s : Mmio T) (entry : Node)
      → IsValid has s
      → has s.root entry
      → IsValid has (without tree s entry)
  without_ok s entry v there = record {
    root_ok = record {
      ranges = λ n h. v.root_ok.ranges n ((left n).0 h).0;
      apart = λ a b ha hb m. v.root_ok.apart a b ((left a).0 ha).0 ((left b).0 hb).0 m;
    };
    fallback_ok = v.fallback_ok;
    hints = λ w n h.
        let (old, other) = flushed-some entry n (s.hint w) h in (left n).1 (v.hints w n old, other);
  }
    where
      left : (n : Node) → (has (tree.remove s.root entry) n) ↔ (has s.root n × (n ≢ entry))
      left n = laws.removed s.root entry n v.root_ok there

  unregister_keeps :
      (s s' : Mmio T) (memp : MemRange) (err : ℕ)
      → IsValid has s
      → unregister_mem tree s memp ≡ some (s', err)
      → IsValid has s'
  unfolding unregister_mem
  unregister_keeps s s' memp err v = elim (Option-cases (rb_lookup tree s.root memp.base)) [
    | inl e ↦ rw e (λ h. subst (IsValid has) (same_state s s' enoent err h) v)
    | inr (n, e) ↦ rw e (λ h.
        subst (IsValid has)
          (removed_or (same_range tree n.param memp) (without tree s n) s' 0 err h)
          (without_ok s n v (looked_up s.root memp.base n v.root_ok e).0))
  ]

  -- The states that calls lead to, of ranges that are not empty and end below 2^64
  pub data Reach : Mmio T → Type 0 where
    start : Reach (init_mem tree)
    registers :
        (s : Mmio T) (memp : MemRange) (malloc : Option ℕ)
        → IsRange memp
        → Reach s
        → Reach (register_mem tree s memp malloc).0
    registers_fallback :
        (s : Mmio T) (memp : MemRange) (malloc : Option ℕ)
        → IsRange memp
        → Reach s
        → Reach (register_mem_fallback tree s memp malloc).0
    unregisters :
        (s s' : Mmio T) (memp : MemRange) (err : ℕ)
        → unregister_mem tree s memp ≡ some (s', err)
        → Reach s
        → Reach s'
    accesses : (s : Mmio T) (vcpu paddr : ℕ) → Reach s → Reach (access_memory tree s vcpu paddr).0

  -- With trees that follow their laws: in every state that calls lead to, of ranges that are not empty and
  -- end below 2^64, no two ranges of a tree meet, and the range remembered for a virtual CPU is in
  -- the first tree, so that it was not freed.
  pub Reach-IsValid : (s : Mmio T) → Reach s → IsValid has s
  unfolding register_mem register_mem_fallback
  Reach-IsValid _ start = record { root_ok = nothing; fallback_ok = nothing; hints = λ w n h. cc }
    where
      nothing : InOrder has tree.empty
      nothing = record {
        ranges = λ n h. absurd (laws.none_in_empty n h);
        apart = λ a b ha hb m. absurd (laws.none_in_empty a ha);
      }
  Reach-IsValid _ (registers s memp malloc range r) =
      let v = Reach-IsValid s r in
      let (ok, stay) = register_keeps s.root memp malloc v.root_ok range in
      record { root_ok = ok; fallback_ok = v.fallback_ok; hints = λ w n h. stay n (v.hints w n h) }
  Reach-IsValid _ (registers_fallback s memp malloc range r) =
      let v = Reach-IsValid s r in
      record {
        root_ok = v.root_ok;
        fallback_ok = (register_keeps s.fallback memp malloc v.fallback_ok range).0;
        hints = v.hints;
      }
  Reach-IsValid _ (unregisters s s' memp err e r) =
      unregister_keeps s s' memp err (Reach-IsValid s r) e
  Reach-IsValid _ (accesses s vcpu paddr r) = access_keeps s vcpu paddr (Reach-IsValid s r)

  abbrev pub or_fallback : Option Node → Option Node → Option Node
  or_fallback none other = other
  or_fallback (some n) other = some n

  -- the range that a search through both trees finds
  abbrev pub uncached : Mmio T → ℕ → Option Node
  uncached s paddr = or_fallback (rb_lookup tree s.root paddr) (rb_lookup tree s.fallback paddr)

  -- With trees that follow their laws: in every state that calls lead to, of ranges that are not empty and
  -- end below 2^64, an access is taken by the range that a search through both trees finds, whatever
  -- the virtual CPU has used before.
  pub access_memory-uncached :
      (s : Mmio T) (vcpu paddr : ℕ)
      → Reach s
      → (access_memory tree s vcpu paddr).1 ≡ uncached s paddr
  unfolding access_memory
  access_memory-uncached s vcpu paddr r =
      let v = Reach-IsValid s r in
      let searched = λ (o : Option Node). or_fallback o (rb_lookup tree s.fallback paddr) in
      elim (Option-cases (hinted (s.hint vcpu) paddr)) [
        | inr (n, e) ↦
            let (known, here) = hinted-some (s.hint vcpu) paddr n e in
            rw e (
              sym
                (ap searched (lookup_unique s.root paddr n v.root_ok (v.hints vcpu n known) here)))
        | inl e ↦ elim (Option-cases (rb_lookup tree s.root paddr)) [
          | inl f ↦ rw (e, f) refl
          | inr (n, f) ↦ rw (e, f) refl
        ]
      ]
