-- ===== src/Mmio/Tests.antt =====
-- The properties of memory-mapped ranges where a tree is a list of nodes, at concrete ranges.
use bhyve_experiments.Base.{
  ◌≤◌, ◌≡◌, ◌≢◌, ◌↔◌, ◌⊎◌, inl, inr, refl, sym, ap, ◌∙◌, subst, arith, true, false, List, [], ◌∷◌,
  Option, none, some, if◌then◌else◌, Bool-cases,
}
use bhyve_experiments.Mmio.{
  MemRange, Node, Tree, Mmio, meets, access_memory, register_mem, init_mem,
}
use bhyve_experiments.Mmio.Trees.{InOrder, Laws}
use bhyve_experiments.Mmio.Cached.{
  start, registers, accesses, Reach, IsValid, uncached, Reach-IsValid, access_memory-uncached,
}

abbrev find_node : List Node → Node → Option Node
find_node [] q = none
find_node (n ∷ ns) q = if meets q n then some n else find_node ns q

abbrev insert_found : List Node → Node → Option Node → List Node × Option Node
insert_found t new none = (new ∷ t, none)
insert_found t new (some n) = (t, some n)

-- A node is taken out with all that meet it: there is no other.
abbrev remove_node : List Node → Node → List Node
remove_node [] x = []
remove_node (n ∷ ns) x = if meets x n then remove_node ns x else n ∷ remove_node ns x

abbrev lists : Tree (List Node)
lists = record {
  empty = [];
  find = find_node;
  insert = λ t new. insert_found t new (find_node t new);
  remove = remove_node;
}

abbrev Has : List Node → Node → Type 0
Has [] n = ⊥
Has (m ∷ ns) n = (n ≡ m) ⊎ Has ns n

some_same : (m n : Node) → some m ≡ some n → m ≡ n
some_same m n e = cc

found_node : (t : List Node) (q n : Node) → find_node t q ≡ some n → Has t n × (meets q n ≡ true)
found_node [] q n h = cc
found_node (m ∷ ns) q n h = elim (Bool-cases (meets q m)) [
  | inl e ↦
      let same : m ≡ n =
        some_same m n (sym (ap (λ b. if b then some m else find_node ns q) e) ∙ h) in
      (inl (sym same), subst (λ (k : Node). meets q k ≡ true) same e)
  | inr e ↦
      let (there, here) =
        found_node ns q n (sym (ap (λ b. if b then some m else find_node ns q) e) ∙ h) in
      (inr there, here)
]

missed_node : (t : List Node) (q n : Node) → find_node t q ≡ none → Has t n → meets q n ≡ false
missed_node [] q n h there = absurd there
missed_node (m ∷ ns) q n h there = elim (Bool-cases (meets q m)) [
  | inl e ↦ cc (sym (ap (λ b. if b then some m else find_node ns q) e) ∙ h)
  | inr e ↦ elim there [
    | inl same ↦ ap (meets q) same ∙ e
    | inr rest ↦
        missed_node ns q n (sym (ap (λ b. if b then some m else find_node ns q) e) ∙ h) rest
  ]
]

removed_node :
    (t : List Node) (x n : Node)
    → (Has (remove_node t x) n → Has t n × (meets x n ≡ false))
      × (Has t n × (meets x n ≡ false) → Has (remove_node t x) n)
removed_node [] x n = (λ h. absurd h, λ h. absurd h.0)
removed_node (m ∷ ns) x n = elim (Bool-cases (meets x m)) [
  | inl e ↦ rw e (
    λ h. (inr ((removed_node ns x n).0 h).0, ((removed_node ns x n).0 h).1),
    λ (h, apart). elim h [
      | inl same ↦ cc (same, e, apart)
      | inr rest ↦ (removed_node ns x n).1 (rest, apart)
    ],
  )
  | inr e ↦ rw e (
    λ h. elim h [
      | inl same ↦ (inl same, ap (meets x) same ∙ e)
      | inr rest ↦ (inr ((removed_node ns x n).0 rest).0, ((removed_node ns x n).0 rest).1)
    ],
    λ (h, apart). elim h [
      | inl same ↦ inl same
      | inr rest ↦ inr ((removed_node ns x n).1 (rest, apart))
    ],
  )
]

meets_self : (n : Node) → n.base ≤ n.end → meets n n ≡ true
unfolding meets
meets_self n h = ground arith

apart_node :
    (t : List Node) (x n : Node) → InOrder Has t → Has t x → Has t n → (n ≢ x) ↔ (meets x n ≡ false)
apart_node t x n ok hx hn = (
  λ other. elim (Bool-cases (meets x n)) [
    | inl e ↦ absurd (other (sym (ok.apart x n hx hn e)))
    | inr e ↦ e
  ],
  λ e same. cc (meets_self x (ok.ranges x hx), ap (meets x) same, e),
)

insert_free :
    (t : List Node) (new : Node) (o : Option Node)
    → (insert_found t new o).1 ≡ none
    → (o ≡ none) × ((insert_found t new o).0 ≡ new ∷ t)
insert_free t new none h = (refl, refl)
insert_free t new (some m) h = cc

insert_taken :
    (t : List Node) (new n : Node) (o : Option Node)
    → (insert_found t new o).1 ≡ some n
    → (insert_found t new o).0 ≡ t
insert_taken t new n none h = cc
insert_taken t new n (some m) h = refl

lists-Laws : Laws lists Has
lists-Laws = record {
  none_in_empty = λ n h. h;
  found = λ t q n ok range h. found_node t q n h;
  not_found = λ t q n ok range h there. missed_node t q n h there;
  inserted = λ t new ok range h.
      let (free, whole) = insert_free t new (find_node t new) h in
      (
        λ n there. missed_node t new n free there,
        λ n. subst (λ l. (Has l n) ↔ ((n ≡ new) ⊎ Has t n)) (sym whole) (λ k. k, λ k. k),
      );
  stays = λ t new n ok range h. insert_taken t new n (find_node t new) h;
  removed = λ t x n ok there. (
    λ h.
        let (kept, other) = (removed_node t x n).0 h in
        (kept, (apart_node t x n ok there kept).1 other),
    λ (kept, other). (removed_node t x n).1 (kept, (apart_node t x n ok there kept).0 other),
  );
}

abbrev apic_range : MemRange
apic_range = record { name = 1; flags = 0; handler = 0x10; base = 0xfec00000; size = 0x1000 }

abbrev ecam_range : MemRange
ecam_range = record { name = 2; flags = 4; handler = 0x20; base = 0xe0000000; size = 0x10000000 }

abbrev one : Mmio (List Node)
one = (register_mem lists (init_mem lists) apic_range (some 0x100)).0

abbrev two : Mmio (List Node)
two = (register_mem lists one ecam_range (some 0x200)).0

-- two ranges are registered, and virtual CPU 3 has used the second
abbrev used : Mmio (List Node)
used = (access_memory lists two 3 0xe0000010).0

used-Reach : Reach lists Has lists-Laws used
used-Reach = accesses two 3 0xe0000010 (
    registers one ecam_range (some 0x200) (omega arith, omega arith)
      (registers (init_mem lists) apic_range (some 0x100) (omega arith, omega arith) start))

Reach-IsValid_example : IsValid Has used
Reach-IsValid_example = Reach-IsValid lists Has lists-Laws used used-Reach

access_memory-uncached_example :
    (access_memory lists used 3 0xfec00010).1 ≡ uncached lists Has lists-Laws used 0xfec00010
access_memory-uncached_example =
    access_memory-uncached lists Has lists-Laws used 3 0xfec00010 used-Reach
