-- ===== src/Inout.antt =====
-- The I/O ports and their handlers, bios/bhyve/inout.c.
pub mod Register
mod Tests
use bhyve_experiments.Base.{
  ℕ, zero, suc, ◌+◌, ◌-◌, ◌*◌, ◌%◌, ◌^◌, min, Bool, true, false, not, ◌&&◌, ◌||◌, List, [], ◌∷◌,
  Option, none, some, bit_and, bit_or, bit_xor, if◌then◌else◌, ltb, leb, ◌==◌,
}
use bhyve_experiments.Base.Bits.{any_of}
use bhyve_experiments.Base.Int.{ℤ, pos, negsuc, equals}

abbrev pub max_ioports : ℕ
max_ioports = 2 ^ 16

abbrev pub ioport_f_in : ℕ
ioport_f_in = 1

abbrev pub ioport_f_out : ℕ
ioport_f_out = 2

abbrev pub ioport_f_default : ℕ
ioport_f_default = 2 ^ 31

-- An entry of `inout_handlers`; names, handlers and arguments are addresses.
pub record PortHandler : Type 0 where
  pub name : ℕ
  pub flags : ℕ
  pub handler : ℕ
  pub arg : ℕ

-- `struct inout_port`: a number of ports from `port` on
pub record InoutPort : Type 0 where
  pub port : ℕ
  pub size : ℕ
  pub entry : PortHandler

abbrev pub Handlers : Type 0
Handlers = ℕ → PortHandler

abbrev pub verify_ioport : ℕ → ℕ → Bool
verify_ioport port size = ltb 0 size && leb (port + size) max_ioports

abbrev pub is_default : PortHandler → Bool
is_default e = any_of e.flags ioport_f_default

-- the first loop of `register_inout`: all of `n` ports from `i` on are free
unfoldable pub all_free : Handlers → ℕ → ℕ → Bool
all_free t i zero = true
all_free t i (suc n) = is_default (t i) && all_free t (i + 1) n

-- its second loop
unfoldable pub all_set : Handlers → PortHandler → ℕ → ℕ → Handlers
all_set t e i zero = t
all_set t e i (suc n) = all_set (λ p. if p == i then e else t p) e (i + 1) n

-- `register_inout`: `none` if the assertion fails
unfoldable pub register_inout : Handlers → InoutPort → Option (Handlers × ℤ)
register_inout t iop =
    if not (verify_ioport iop.port iop.size)
    then none
    else if not (is_default iop.entry) && not (all_free t iop.port iop.size)
    then some (t, negsuc 0)
    else some (all_set t iop.entry iop.port iop.size, pos 0)

-- the default handler, which is at the address 0 here
abbrev pub default_inout : ℕ
default_inout = 0

abbrev pub default_entry : PortHandler
default_entry = record {
  name = 0;
  flags = ioport_f_in + ioport_f_out + ioport_f_default;
  handler = default_inout;
  arg = 0;
}

-- `register_default_iohandler`
abbrev pub register_default : Handlers → ℕ → ℕ → Option (Handlers × ℤ)
register_default t start size =
    register_inout t (record { port = start; size = size; entry = default_entry })

-- `unregister_inout`
unfoldable pub unregister_inout : Handlers → InoutPort → Option (Handlers × ℤ)
unregister_inout t iop =
    if verify_ioport iop.port iop.size && (t iop.port).name == iop.entry.name
    then register_default t iop.port iop.size
    else none

-- `default_inout`: the value that it leaves
unfoldable pub default_value : Bool → ℕ → ℕ → ℕ
default_value true bytes eax =
    if bytes == 4
    then 0xffffffff
    else if bytes == 2
    then 0xffff
    else if bytes == 1
    then 0xff
    else eax
default_value false bytes eax = eax

-- what `vm_copy_setup` finds
pub data Setup : Type 0 where
  setup_error : Setup
  setup_fault : Setup
  ready : Setup

-- The handlers, and the parts of the virtual CPU and the guest's memory that an access reaches,
-- in a state `W`: a handler takes the entry, whether the guest reads, port, size and value, and
-- gives its result and the value.
pub record Outside (W : Type 0) : Type 0 where
  pub call : W → PortHandler → Bool → ℕ → ℕ → ℕ → W × ℤ × ℕ
  pub calculate_gla : W → ℕ → Option ℕ
  pub copy_setup : W → ℕ → Setup
  pub misaligned : W → ℕ → Bool
  pub copyin : W → ℕ → ℕ
  pub copyout : W → ℕ → ℕ → W
  pub inject_gp : W → W
  pub inject_ac : W → W
  pub set_index : W → ℕ → W
  pub set_count : W → ℕ → W
  pub set_rax : W → ℕ → W
  pub restart : W → W

-- an access of the guest: `vmexit->u.inout`, and `inout_str` of a string instruction
pub record PortAccess : Type 0 where
  pub bytes : ℕ
  pub is_in : Bool
  pub port : ℕ
  pub eax : ℕ

pub record StringAccess : Type 0 where
  pub rep : Bool
  pub addrsize : ℕ
  pub index : ℕ
  pub count : ℕ
  pub down : Bool

-- the variables of the loop of a string instruction
pub record Progress (W : Type 0) : Type 0 where
  pub world : W
  pub index : ℕ
  pub count : ℕ
  pub retval : ℤ

abbrev pub mask : ℕ → ℕ
mask size = 2 ^ (8 * size) - 1

-- `index += bytes` or `index -= bytes`, of a uint64_t
abbrev pub stepped : Bool → ℕ → ℕ → ℕ
stepped down bytes index =
    if down then (index + (2 ^ 64 - bytes)) % 2 ^ 64 else (index + bytes) % 2 ^ 64

-- EAX after a read: the bytes that were read, and the others as they were
unfoldable pub merged : ℕ → ℕ → ℕ → ℕ
merged bytes eax val =
    bit_or (bit_and eax (bit_xor 0xffffffff (mask bytes))) (bit_and val (mask bytes))

module _ {W : Type 0} (out : Outside W) (a : PortAccess) (e : PortHandler) where
  -- one round that reaches the handler, `go` being the rounds after it
  abbrev pub handled : Bool → Progress W → ℕ → W × ℤ × ℕ → (Progress W → Progress W) → Progress W
  handled down p gla (w, retval, val) go =
      if not (equals retval 0)
      then record p { world = w; retval = retval }
      else go (record {
        world = if a.is_in then out.copyout w gla val else w;
        index = stepped down a.bytes p.index;
        count = p.count - 1;
        retval = pos 0;
      })

  abbrev pub round_at : Bool → Progress W → ℕ → Setup → (Progress W → Progress W) → Progress W
  round_at down p gla setup_error go = record p { retval = negsuc 0 }
  round_at down p gla setup_fault go = p
  round_at down p gla ready go =
      if out.misaligned p.world gla
      then record p { world = out.inject_ac p.world }
      else handled down p gla
          (out.call p.world e a.is_in a.port a.bytes
            (if a.is_in then 0 else out.copyin p.world gla))
          go

  abbrev pub round : Bool → Progress W → Option ℕ → (Progress W → Progress W) → Progress W
  round down p none go = record p { world = out.inject_gp p.world }
  round down p (some gla) go = round_at down p gla (out.copy_setup p.world gla) go

  -- the loop, with a number of rounds that are left
  unfoldable pub rounds : ℕ → Bool → Progress W → Progress W
  rounds zero down p = p
  rounds (suc n) down p = round down p (out.calculate_gla p.world p.index) (rounds n down)

  abbrev finished : StringAccess → Progress W → W × ℤ
  finished vis p =
      let w = out.set_index p.world p.index in
      let w' = if vis.rep then out.set_count w p.count else w in
      (if equals p.retval 0 && not (p.count == 0) then out.restart w' else w', p.retval)

  abbrev pub begun : W → StringAccess → Progress W
  begun w vis = record {
    world = w;
    index = bit_and vis.index (mask vis.addrsize);
    count = bit_and vis.count (mask vis.addrsize);
    retval = pos 0;
  }

  unfoldable pub string_access : W → StringAccess → W × ℤ
  string_access w vis = finished vis (rounds (min (begun w vis).count 16) vis.down (begun w vis))

  abbrev read_back : W × ℤ × ℕ → W × ℤ
  read_back (w, retval, val) =
      (if equals retval 0 && a.is_in then out.set_rax w (merged a.bytes a.eax val) else w, retval)

  unfoldable pub plain_access : W → W × ℤ
  plain_access w = read_back (out.call w e a.is_in a.port a.bytes (bit_and a.eax (mask a.bytes)))

  abbrev pub permitted : Bool
  permitted = any_of e.flags (if a.is_in then ioport_f_in else ioport_f_out)

  abbrev pub accessed : W → Option StringAccess → W × ℤ
  accessed w none = plain_access w
  accessed w (some vis) = string_access w vis

-- the assertion on the size of the addresses of a string instruction
abbrev knows_size : Option StringAccess → Bool
knows_size none = true
knows_size (some vis) = vis.addrsize == 2 || vis.addrsize == 4 || vis.addrsize == 8

-- `emulate_inout`: `none` if an assertion on the access fails
unfoldable pub emulate_inout :
    {W : Type 0}
    → Outside W
    → Handlers
    → W
    → PortAccess
    → Option StringAccess
    → Bool
    → Option (W × ℤ)
emulate_inout out t w a vis strict =
    let e = t a.port in
    if not (ltb a.port max_ioports && (a.bytes == 1 || a.bytes == 2 || a.bytes == 4))
    then none
    else if strict && e.handler == default_inout || not (permitted out a e)
    then some (w, negsuc 0)
    else if knows_size vis
    then some (accessed out a e w vis)
    else none
