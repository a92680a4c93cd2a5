-- ===== src/Virtio/Queue/Used.antt =====
-- The ring of used chains, as the driver reads it.
use bhyve_experiments.Base.{
  ℕ, zero, suc, ◌+◌, ◌-◌, ◌%◌, ◌^◌, ◌≤◌, ◌<◌, ◌≡◌, ◌≢◌, refl, sym, ap, ◌∙◌, arith, List, [], ◌∷◌,
  length, get_or, ◌⊎◌, inl, inr,
}
use bhyve_experiments.Base.{get_or-set_self, get_or-set_ne, length-set, bit_and}
use bhyve_experiments.Base.Words.{bit_and-mask, mod_pow, pow-pos}
use bhyve_experiments.Virtio.Queue.{Vqueue, UsedEntry, relchain, relchain_prepare, relchain_publish}
use native.Mathlib.Decide.{dec_le}
use native.Mathlib.Nat.{mod-lt, mod-add-mod, mod-eq_of_lt, mod-eq-sub-mod}

abbrev pub no_entry : UsedEntry
no_entry = record { idx = 0; tlen = 0 }

-- the chains released, one after the other
unfoldable pub relchains : List UsedEntry → Vqueue → Vqueue
relchains [] vq = vq
relchains (e ∷ es) vq = relchains es (relchain vq e.idx e.tlen)

-- What the driver reads: `n` entries from the index `from` on, each at its place in the ring
abbrev pub entries : Vqueue → ℕ → ℕ → List UsedEntry
entries vq from zero = []
entries vq from (suc n) =
    get_or vq.ring.used_ring (from % vq.qsize) no_entry ∷ entries vq (from + 1) n

-- A queue of 2^k entries, and at most 2^15
pub record IsQueue (k : ℕ) (vq : Vqueue) : Type 0 where
  pub sized : vq.qsize ≡ 2 ^ k
  pub small : k ≤ 15
  pub storage : length vq.ring.used_ring ≡ vq.qsize

slot :
    (k : ℕ) (vq : Vqueue)
    → IsQueue k vq
    → bit_and vq.next_used (vq.qsize - 1) ≡ vq.next_used % vq.qsize
slot k vq q = rw q.sized (bit_and-mask k vq.next_used)

has_room : (k : ℕ) (vq : Vqueue) → IsQueue k vq → 0 < vq.qsize
has_room k vq q = omega (arith, q.sized, pow-pos k)

wraps : (k n : ℕ) → k ≤ 15 → n % 2 ^ 16 % 2 ^ k ≡ n % 2 ^ k
wraps k n h =
    let whole : k + (16 - k) ≡ 16 = omega arith in
    ap (λ (t : ℕ). n % 2 ^ t % 2 ^ k) (sym whole) ∙ mod_pow k (16 - k) n

shifted : (q a b j : ℕ) → a % q ≡ b % q → (a + j) % q ≡ (b + j) % q
shifted q a b j h = sym (mod-add-mod a q j) ∙ ap (λ (t : ℕ). (t + j) % q) h ∙ mod-add-mod b q j

le-or-lt : (a b : ℕ) → (a ≤ b) ⊎ (b < a)
le-or-lt a b = elim (dec_le a b) [ yes h ↦ inl h | no h ↦ inr (omega (arith, h)) ]

other_place : (q n d : ℕ) → 0 < d → d < q → (n + d) % q ≢ n % q
other_place q n d h l e =
    let r_less : n % q < q = mod-lt n (omega arith) in
    let moved : (n % q + d) % q ≡ n % q = mod-add-mod n q d ∙ e in
    elim (le-or-lt q (n % q + d)) [
      | inl far ↦
          let back : (n % q + d - q) % q ≡ n % q + d - q = mod-eq_of_lt (omega arith) in
          omega (arith, mod-eq-sub-mod far)
      | inr near ↦ omega (arith, mod-eq_of_lt near)
    ]

relchain-IsQueue :
    (k : ℕ) (vq : Vqueue) (e : UsedEntry) → IsQueue k vq → IsQueue k (relchain vq e.idx e.tlen)
unfolding relchain relchain_prepare relchain_publish
relchain-IsQueue k vq e q = record {
  sized = q.sized;
  small = q.small;
  storage = length-set vq.ring.used_ring (bit_and vq.next_used (vq.qsize - 1)) e ∙ q.storage;
}

relchain-next :
    (k : ℕ) (vq : Vqueue) (e : UsedEntry) (from : ℕ)
    → IsQueue k vq
    → from % vq.qsize ≡ vq.next_used % vq.qsize
    → ((relchain vq e.idx e.tlen).qsize ≡ vq.qsize)
      × ((from + 1) % vq.qsize ≡ (relchain vq e.idx e.tlen).next_used % vq.qsize)
unfolding relchain relchain_prepare relchain_publish
relchain-next k vq e from q same = (
  refl,
  shifted vq.qsize from vq.next_used 1 same
      ∙ sym (
          ap (λ (t : ℕ). (vq.next_used + 1) % 2 ^ 16 % t) q.sized
          ∙ wraps k (vq.next_used + 1) q.small
          ∙ ap (λ (t : ℕ). (vq.next_used + 1) % t) (sym q.sized)),
)

written :
    (k : ℕ) (vq : Vqueue) (e : UsedEntry)
    → IsQueue k vq
    → get_or (relchain vq e.idx e.tlen).ring.used_ring (vq.next_used % vq.qsize) no_entry ≡ e
unfolding relchain relchain_prepare relchain_publish
written k vq e q =
    let place = slot k vq q in
    rw place (
      get_or-set_self vq.ring.used_ring (vq.next_used % vq.qsize) e no_entry
        (omega (arith, q.storage, mod-lt vq.next_used (has_room k vq q))))

elsewhere :
    (k : ℕ) (vq : Vqueue) (e : UsedEntry) (s : ℕ)
    → IsQueue k vq
    → vq.next_used % vq.qsize ≢ s
    → get_or (relchain vq e.idx e.tlen).ring.used_ring s no_entry
      ≡ get_or vq.ring.used_ring s no_entry
unfolding relchain relchain_prepare relchain_publish
elsewhere k vq e s q h =
    let place = slot k vq q in
    rw place (get_or-set_ne vq.ring.used_ring (vq.next_used % vq.qsize) s e no_entry h)

later :
    (k : ℕ) (vq : Vqueue) (e : UsedEntry) (j : ℕ)
    → IsQueue k vq
    → ((relchain vq e.idx e.tlen).next_used + j) % (relchain vq e.idx e.tlen).qsize
      ≡ (vq.next_used + (1 + j)) % vq.qsize
later k vq e j q =
    let (same, next) = relchain-next k vq e vq.next_used q refl in
    ap (λ (t : ℕ). ((relchain vq e.idx e.tlen).next_used + j) % t) same
    ∙ sym (shifted vq.qsize (vq.next_used + 1) (relchain vq e.idx e.tlen).next_used j next)
    ∙ ap (λ (t : ℕ). t % vq.qsize) (omega arith)

-- what the chains released later do not overwrite
kept :
    (k : ℕ) (es : List UsedEntry) (vq : Vqueue) (s : ℕ)
    → IsQueue k vq
    → ((j : ℕ) → j < length es → (vq.next_used + j) % vq.qsize ≢ s)
    → get_or (relchains es vq).ring.used_ring s no_entry ≡ get_or vq.ring.used_ring s no_entry
unfolding relchains
kept k [] vq s q h = refl
kept k (e ∷ es) vq s q h =
    kept k es (relchain vq e.idx e.tlen) s (relchain-IsQueue k vq e q)
      (λ j l r. h (1 + j) (omega arith) (sym (later k vq e j q) ∙ r))
    ∙ elsewhere k vq e s q (λ r. h 0 (omega arith) (ap (λ (t : ℕ). t % vq.qsize) (omega arith) ∙ r))

relchains-size : (es : List UsedEntry) (vq : Vqueue) → (relchains es vq).qsize ≡ vq.qsize
unfolding relchains relchain relchain_prepare relchain_publish
relchains-size [] vq = refl
relchains-size (e ∷ es) vq = relchains-size es (relchain vq e.idx e.tlen)

relchains-idx :
    (k : ℕ) (es : List UsedEntry) (vq : Vqueue)
    → vq.ring.used_idx ≡ vq.next_used
    → vq.next_used < 2 ^ 16
    → (relchains es vq).ring.used_idx ≡ (vq.next_used + length es) % 2 ^ 16
unfolding relchains relchain relchain_prepare relchain_publish
relchains-idx k [] vq same small = omega arith
relchains-idx k (e ∷ es) vq same small =
    relchains-idx k es (relchain vq e.idx e.tlen) refl (mod-lt (vq.next_used + 1) (omega arith))
    ∙ omega arith

relchains-entries :
    (k : ℕ) (es : List UsedEntry) (vq : Vqueue) (from : ℕ)
    → IsQueue k vq
    → from % vq.qsize ≡ vq.next_used % vq.qsize
    → length es ≤ vq.qsize
    → entries (relchains es vq) from (length es) ≡ es
unfolding relchains
relchains-entries k [] vq from q same fits = refl
relchains-entries k (e ∷ es) vq from q same fits =
    let vq' = relchain vq e.idx e.tlen in
    let (size, next) = relchain-next k vq e from q same in
    let first : get_or (relchains es vq').ring.used_ring (from % (relchains es vq').qsize) no_entry
        ≡ e =
      ap (λ (t : ℕ). get_or (relchains es vq').ring.used_ring t no_entry)
        (ap (λ (t : ℕ). from % t) (relchains-size es vq' ∙ size) ∙ same)
      ∙ kept k es vq' (vq.next_used % vq.qsize) (relchain-IsQueue k vq e q) (λ j l r.
        other_place vq.qsize vq.next_used (1 + j) (omega arith) (omega arith)
          (sym (later k vq e j q) ∙ r))
      ∙ written k vq e q in
    cc (
      first,
      relchains-entries k es vq' (from + 1) (relchain-IsQueue k vq e q)
          (ap (λ (t : ℕ). (from + 1) % t) size
            ∙ next
            ∙ ap (λ (t : ℕ). vq'.next_used % t) (sym size))
          (omega arith),
    )

-- In a queue of 2^k entries, at most 2^15, whose used index is the one to use next: after chains
-- are released, no more than the queue has entries, the used index has moved by their number, and
-- the driver finds them in their order in the entries from the old index on.
pub relchains_read :
    (k : ℕ) (es : List UsedEntry) (vq : Vqueue)
    → IsQueue k vq
    → vq.ring.used_idx ≡ vq.next_used
    → vq.next_used < 2 ^ 16
    → length es ≤ vq.qsize
    → ((relchains es vq).ring.used_idx ≡ (vq.ring.used_idx + length es) % 2 ^ 16)
      × (entries (relchains es vq) vq.ring.used_idx (length es) ≡ es)
relchains_read k es vq q same small fits = (
  relchains-idx k es vq same small ∙ ap (λ (t : ℕ). (t + length es) % 2 ^ 16) (sym same),
  relchains-entries k es vq vq.ring.used_idx q (ap (λ (t : ℕ). t % vq.qsize) same) fits,
)
