-- ===== src/Mmio.antt =====
-- Memory-mapped I/O: which handler takes an access, bios/bhyve/mem.c.
pub mod Trees
pub mod Cached
mod Tests
use bhyve_experiments.Base.{
  ℕ, ◌+◌, ◌-◌, ◌%◌, ◌^◌, Bool, true, false, not, ◌&&◌, ◌||◌, Option, none, some, if◌then◌else◌, ltb,
  leb, ◌==◌,
}
use bhyve_experiments.Base.Bits.{any_of}

-- `struct mem_range`; a handler is known by its address.
pub record MemRange : Type 0 where
  pub name : ℕ
  pub flags : ℕ
  pub handler : ℕ
  pub base : ℕ
  pub size : ℕ

-- `struct mmio_rb_range`, with its address
pub record Node : Type 0 where
  pub ptr : ℕ
  pub param : MemRange
  pub base : ℕ
  pub end : ℕ

-- `mmio_rb_range_compare` gives 0.
unfoldable pub meets : Node → Node → Bool
meets a b = not (ltb a.end b.base) && not (ltb b.end a.base)

-- The macros of sys/tree.h, over trees `T`: `RB_INSERT` returns the node that is in its way.
pub record Tree (T : Type 0) : Type 0 where
  pub empty : T
  pub find : T → Node → Option Node
  pub insert : T → Node → T × Option Node
  pub remove : T → Node → T

-- The two trees, and the range that each virtual CPU has used last.
pub record Mmio (T : Type 0) : Type 0 where
  pub root : T
  pub fallback : T
  pub hint : ℕ → Option Node

abbrev pub mem_f_immutable : ℕ
mem_f_immutable = 4

abbrev pub esrch : ℕ
esrch = 3

abbrev pub enoent : ℕ
enoent = 2

abbrev pub enomem : ℕ
enomem = 12

abbrev pub eexist : ℕ
eexist = 17

-- the node that is looked for at an address
abbrev pub at_addr : ℕ → Node
at_addr addr = record {
  ptr = 0;
  param = record { name = 0; flags = 0; handler = 0; base = 0; size = 0 };
  base = addr;
  end = addr;
}

-- the node for a range
abbrev pub node_for : ℕ → MemRange → Node
node_for ptr memp = record {
  ptr = ptr;
  param = memp;
  base = memp.base;
  end = (memp.base + memp.size + (2 ^ 64 - 1)) % 2 ^ 64;
}

-- the hint of a virtual CPU, where it holds the address
unfoldable pub hinted : Option Node → ℕ → Option Node
hinted none paddr = none
hinted (some n) paddr = if leb n.base paddr && leb paddr n.end then some n else none

-- the hints without that of a range
unfoldable pub flushed : Node → Option Node → Option Node
flushed entry none = none
flushed entry (some n) = if n.ptr == entry.ptr then none else some n

module _ {T : Type 0} (tree : Tree T) where
  -- `mmio_rb_lookup`: `none` is ENOENT.
  unfoldable pub rb_lookup : T → ℕ → Option Node
  rb_lookup t addr = tree.find t (at_addr addr)

  abbrev or_else : Mmio T → ℕ → ℕ → Option Node → Mmio T × Option Node
  or_else s vcpu paddr none = (s, rb_lookup s.fallback paddr)
  or_else s vcpu paddr (some n) =
      (record s { hint = λ v. if v == vcpu then some n else s.hint v }, some n)

  abbrev or_lookup : Mmio T → ℕ → ℕ → Option Node → Mmio T × Option Node
  or_lookup s vcpu paddr none = or_else s vcpu paddr (rb_lookup s.root paddr)
  or_lookup s vcpu paddr (some n) = (s, some n)

  -- `access_memory`, up to the call on the range that is found: `none` is ESRCH.
  unfoldable pub access_memory : Mmio T → ℕ → ℕ → Mmio T × Option Node
  access_memory s vcpu paddr = or_lookup s vcpu paddr (hinted (s.hint vcpu) paddr)

  -- `rw_mem_cb`: what the handler makes of an access, a write or not, at an address, of a size and
  -- a value, is an error and a value.
  abbrev answered : (MemRange → Bool → ℕ → ℕ → ℕ → ℕ × ℕ) → Bool → ℕ → ℕ → ℕ → Option Node → ℕ × ℕ
  answered handler is_write gpa size val none = (esrch, val)
  answered handler is_write gpa size val (some n) = handler n.param is_write gpa size val

  -- `read_mem`, with the value that is there before, and `write_mem`
  abbrev pub read_mem :
      (MemRange → Bool → ℕ → ℕ → ℕ → ℕ × ℕ) → Mmio T → ℕ → ℕ → ℕ → ℕ → Mmio T × ℕ × ℕ
  read_mem handler s vcpu gpa size val =
      let (s', entry) = access_memory s vcpu gpa in
      let (err, v) = answered handler false gpa size val entry in (s', err, v)

  abbrev pub write_mem : (MemRange → Bool → ℕ → ℕ → ℕ → ℕ × ℕ) → Mmio T → ℕ → ℕ → ℕ → ℕ → Mmio T × ℕ
  write_mem handler s vcpu gpa size val =
      let (s', entry) = access_memory s vcpu gpa in
      (s', (answered handler true gpa size val entry).0)

  abbrev add_result : T → T × Option Node → T × ℕ
  add_result t (t', none) = (t', 0)
  add_result t (t', some overlap) = (t', eexist)

  -- `mmio_rb_add`
  unfoldable pub rb_add : T → Node → T × ℕ
  rb_add t new = add_result t (tree.insert t new)

  abbrev add_new : T → Node → Option Node → T × ℕ
  add_new t new none = rb_add t new
  add_new t new (some entry) = (t, 0)

  -- `register_mem_int`; `malloc` gives the address of the node, or `none`.
  unfoldable pub register_mem_int : T → MemRange → Option ℕ → T × ℕ
  register_mem_int t memp none = (t, enomem)
  register_mem_int t memp (some ptr) = add_new t (node_for ptr memp) (rb_lookup t memp.base)

  unfoldable pub register_mem : Mmio T → MemRange → Option ℕ → Mmio T × ℕ
  register_mem s memp malloc =
      let (t, err) = register_mem_int s.root memp malloc in (record s { root = t }, err)

  unfoldable pub register_mem_fallback : Mmio T → MemRange → Option ℕ → Mmio T × ℕ
  register_mem_fallback s memp malloc =
      let (t, err) = register_mem_int s.fallback memp malloc in (record s { fallback = t }, err)

  -- the three assertions on the range that is found
  abbrev pub same_range : MemRange → MemRange → Bool
  same_range mr memp =
      mr.name == memp.name
      && (mr.base == memp.base && mr.size == memp.size)
      && not (any_of mr.flags mem_f_immutable)

  abbrev pub without : Mmio T → Node → Mmio T
  without s entry = record s {
    root = tree.remove s.root entry;
    hint = λ v. flushed entry (s.hint v);
  }

  abbrev unregistered : Mmio T → MemRange → Option Node → Option (Mmio T × ℕ)
  unregistered s memp none = some (s, enoent)
  unregistered s memp (some entry) =
      if same_range entry.param memp then some (without s entry, 0) else none

  -- `unregister_mem`: `none` if an assertion fails
  unfoldable pub unregister_mem : Mmio T → MemRange → Option (Mmio T × ℕ)
  unregister_mem s memp = unregistered s memp (rb_lookup s.root memp.base)

  abbrev pub init_mem : Mmio T
  init_mem = record { root = tree.empty; fallback = tree.empty; hint = λ v. none }
