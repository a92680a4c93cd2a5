-- ===== src/Microbios/Int15.antt =====
-- Software interrupt 15h, the system services: `handle_int15` of bios/bhyve/microbios.c.
pub mod E820
use bhyve_experiments.Base.{
  ℕ, zero, suc, ◌+◌, ◌-◌, ◌*◌, ◌/◌, ◌%◌, ◌^◌, Bool, true, false, not, ◌&&◌, ◌||◌, List, [], ◌∷◌,
  ◌++◌,
}
use bhyve_experiments.Base.{
  Option, none, some, bit_and, bit_or, length, ltb, leb, ◌==◌, if◌then◌else◌,
}
use bhyve_experiments.Iov.{copy_in, copy_out}
use bhyve_experiments.Microbios.{
  Regs, Vcpu, Bios, Env, E820Entry, Outcome, done, failed, crashed, reg_word, reg_lobyte,
  reg_hibyte,
}
use bhyve_experiments.Microbios.{
  clear_cf, set_cf, clear_al, clear_ah, linear, load, le_bytes, BiosVars,
}
use bhyve_experiments.Microbios.Int13.{finish}

-- "SMAP"
abbrev pub smap : ℕ
smap = 0x534d4150

-- `sizeof(struct e820_entry)`
abbrev pub e820_size : ℕ
e820_size = 20

abbrev pub entry_bytes : E820Entry → List ℕ
entry_bytes e = le_bytes 8 e.addr ++ (le_bytes 8 e.size ++ le_bytes 4 e.kind)

unfoldable pub entry_at : List E820Entry → ℕ → Option E820Entry
entry_at [] n = none
entry_at (e ∷ es) zero = some e
entry_at (e ∷ es) (suc n) = entry_at es n

-- Function 24h, the A20 gate: AL is the sub-function.
unfoldable pub a20 : Bios → Regs → Bios × Regs
a20 m r =
    let al = reg_lobyte r.eax in
    if al == 0x00
    then (record m { a20_mode = 0 }, clear_ah r)
    else if al == 0x01
    then (record m { a20_mode = 1 }, clear_ah r)
    else if al == 0x02
    then (m, record r { eax = bit_or (bit_and r.eax 0xffff0000) m.a20_mode })
    else if al == 0x03
    then (let ebx = bit_or (bit_and r.ebx 0xffff0000) 0x03 in
        (
          record m { vcpu = record m.vcpu { rbx = ebx } },
          record r { eax = bit_and r.eax 0xffff0000; ebx = ebx },
        ))
    else (m, r)

-- Function 53h, power management, which is not there
unfoldable pub apm : Regs → Regs
apm r =
    let al = reg_lobyte r.eax in
    if al == 0x00
    then set_cf (record r { eax = bit_or 0x8600 (bit_and r.eax 0xffff00ff) })
    else if al == 0x04
    then set_cf (record r { eax = bit_or (bit_and r.eax 0xffff0000) 0x03 })
    else r

-- Function 87h: a move of CX bytes between the addresses of two descriptors of the table at ES:SI
unfoldable pub move_block : Env → Bios → Regs → Outcome
move_block env m r =
    let gdt = linear r.es r.esi in
    let n = reg_word r.ecx in
    let src = load m.memory (gdt + 18) 4 % 2 ^ 24 in
    let dst = load m.memory (gdt + 26) 4 % 2 ^ 24 in
    if env.backed gdt 48 && env.backed src n && env.backed dst n
    then done (record m { memory = copy_out m.memory dst (copy_in m.memory src n) })
        (clear_cf (clear_ah r))
    else crashed

-- Function 8Ah: the kilobytes are not reported in the guest's DX.
unfoldable pub extended_memory : Env → Regs → Regs
extended_memory env r =
    let extmem = (env.lowmem % 2 ^ 32 + (2 ^ 32 - 2 ^ 20)) % 2 ^ 32 in
    set_cf (record r { eax = extmem % 2 ^ 16; edx = extmem / 2 ^ 16 % 2 ^ 16 })

-- Function C0h
unfoldable pub configuration : Bios → Regs → Bios × Regs
configuration m r =
    let ebx = m.vars.bios_config_tbl_offset in
    (
      record m { vcpu = record m.vcpu { seg_es = 0xf000; rbx = ebx } },
      clear_cf (record r { eax = bit_and r.eax 0xff; es = 0xf000; ebx = ebx }),
    )

-- Function E801h
unfoldable pub e801 : Env → Bios → Regs → Bios × Regs
e801 env m r =
    let memsize = env.lowmem % 2 ^ 32 in
    let blocks = (memsize + (2 ^ 32 - 16)) * 1024 % 2 ^ 32 / 64 in
    let ecx = bit_or (bit_and r.ecx 0xffff0000) 0x3c00 in
    let ebx = bit_or (bit_and r.ebx 0xffff0000) (blocks % 2 ^ 16) in
    let edx = bit_or (bit_and r.edx 0xffff0000) (reg_word ebx) in
    (
      record m { vcpu = record m.vcpu { rbx = ebx; rcx = ecx; rdx = edx } },
      clear_cf (record r { eax = 0x3c00; ecx = ecx; ebx = ebx; edx = edx }),
    )

-- the requests for an entry of the memory map that are refused
unfoldable pub e820_invalid : Bios → Regs → Bool
e820_invalid m r =
    not (reg_lobyte r.eax == 0x20)
    || not (r.edx == smap)
    || ltb (reg_word r.ecx) e820_size
    || leb (length m.e820_tbl) (reg_word r.ebx)

-- Function E820h on entry `continuation`, which is copied to ES:DI
unfoldable pub e820_copy : Env → Bios → Regs → ℕ → Option E820Entry → Outcome
e820_copy env m r continuation none = crashed
e820_copy env m r continuation (some e) =
    let buf = linear r.es r.edi in
    let ebx = (continuation + 1) % length m.e820_tbl in
    if env.backed buf e820_size
    then done
        (record m {
          memory = copy_out m.memory buf (entry_bytes e);
          vcpu = record m.vcpu { rbx = ebx; rcx = e820_size; rdx = 0 };
        })
        (clear_cf (record r { eax = smap; ebx = ebx; ecx = e820_size; edx = 0 }))
    else crashed

-- Function E8h: AL is 01h or 20h.
unfoldable pub memory_map : Env → Bios → Regs → Outcome
memory_map env m r =
    if reg_lobyte r.eax == 0x01
    then (let (m', r') = e801 env m r in done m' r')
    else if e820_invalid m r
    then done m (set_cf (record r { eax = bit_and r.eax 0xffff0000 }))
    else e820_copy env m r (reg_word r.ebx) (entry_at m.e820_tbl (reg_word r.ebx))

-- Function ECh
unfoldable pub operating_mode : Regs → Regs
operating_mode r =
    clear_ah (if reg_lobyte r.eax == 0 && leb (reg_lobyte r.ebx) 3 then clear_cf r else set_cf r)

-- Function 00h sets RAX before it fails.
unfoldable pub no_configuration : Bios → Regs → Outcome
no_configuration m r =
    let eax = bit_or 0x8600 (bit_and r.eax 0xffff00ff) in
    failed (record m { vcpu = record m.vcpu { rax = eax } }) (set_cf (record r { eax = eax }))

-- the `switch` of `handle_int15`; function 86h only waits
unfoldable pub int15 : Env → Bios → Regs → Outcome
int15 env m r =
    let ah = reg_hibyte r.eax in
    if ah == 0x00
    then no_configuration m r
    else if ah == 0x24
    then (let (m', r') = a20 m r in done m' (clear_cf r'))
    else if ah == 0x41
    then done m (set_cf r)
    else if ah == 0x53
    then done m (apm r)
    else if ah == 0x87
    then move_block env m r
    else if ah == 0x88
    then done m (clear_cf (record r { eax = 8 * 1024 }))
    else if ah == 0x8a
    then done m (extended_memory env r)
    else if ah == 0xc0
    then (let (m', r') = configuration m r in done m' r')
    else if ah == 0xe8
    then memory_map env m r
    else if ah == 0xec
    then done m (operating_mode r)
    else if ah == 0x86
    then done m (clear_cf (clear_al r))
    else done m (set_cf r)

unfoldable pub handle_int15 : Env → Bios → Regs → Option (Bios × Bool)
handle_int15 env m r = finish (int15 env m r)
