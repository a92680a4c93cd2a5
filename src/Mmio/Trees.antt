-- ===== src/Mmio/Trees.antt =====
-- What the code relies on in the trees of sys/tree.h.
use bhyve_experiments.Base.{◌≤◌, ◌≡◌, ◌≢◌, ◌↔◌, ◌⊎◌, true, false, none, some}
use bhyve_experiments.Mmio.{Node, Tree, meets}

-- Ranges that are not empty, of which no two meet
pub record InOrder {T : Type 0} (has : T → Node → Type 0) (t : T) : Type 0 where
  pub ranges : (n : Node) → has t n → n.base ≤ n.end
  pub apart : (a b : Node) → has t a → has t b → meets a b ≡ true → a ≡ b

-- `has t n`: the node is in the tree. The laws are for trees that are in order by the comparison,
-- of ranges that are not empty.
pub record Laws {T : Type 0} (tree : Tree T) (has : T → Node → Type 0) : Type 0 where
  pub none_in_empty : (n : Node) → ¬ (has tree.empty n)
  pub found :
      (t : T) (q n : Node)
      → InOrder has t
      → q.base ≤ q.end
      → tree.find t q ≡ some n
      → has t n × (meets q n ≡ true)
  pub not_found :
      (t : T) (q n : Node)
      → InOrder has t
      → q.base ≤ q.end
      → tree.find t q ≡ none
      → has t n
      → meets q n ≡ false
  pub inserted :
      (t : T) (new : Node)
      → InOrder has t
      → new.base ≤ new.end
      → (tree.insert t new).1 ≡ none
      → ((n : Node) → has t n → meets new n ≡ false)
        × ((n : Node) → (has (tree.insert t new).0 n) ↔ ((n ≡ new) ⊎ has t n))
  pub stays :
      (t : T) (new n : Node)
      → InOrder has t
      → new.base ≤ new.end
      → (tree.insert t new).1 ≡ some n
      → (tree.insert t new).0 ≡ t
  pub removed :
      (t : T) (x n : Node)
      → InOrder has t
      → has t x
      → (has (tree.remove t x) n) ↔ (has t n × (n ≢ x))
