-- ===== src/Virtio/Device.antt =====
-- The registers that every virtio device has, `vi_pci_read` and `vi_pci_write`, its reset, and the
-- interrupt of a queue. What the device of a kind does is in its `struct virtio_consts`: functions
-- on the state, of which `D` is the part of the device itself.
pub mod Search
pub mod Select
use bhyve_experiments.Base.{
  ℕ, zero, suc, ◌+◌, ◌-◌, ◌*◌, ◌/◌, ◌%◌, ◌^◌, Bool, true, false, not, ◌&&◌, ◌||◌, List, [], ◌∷◌,
  ◌++◌,
}
use bhyve_experiments.Base.{
  Option, none, some, bit_and, bit_or, ltb, leb, ◌==◌, if◌then◌else◌, length, get_or, set,
}
use bhyve_experiments.Virtio.Queue.{Vqueue, Vring}

-- what a device tells the PCI code
pub data PciCall : Type 0 where
  lintr_assert : PciCall
  lintr_deassert : PciCall
  generate_msi : ℕ → PciCall
  generate_msix : ℕ → PciCall

-- `struct virtio_softc`, the state of the device behind it, whether the guest has MSI-X enabled,
-- and the calls made
pub record Softc (D : Type 0) : Type 0 where
  pub use_msix : Bool
  pub msix_enabled : Bool
  pub negotiated_caps : ℕ
  pub queues : List Vqueue
  pub curq : ℕ
  pub status : ℕ
  pub isr : ℕ
  pub msix_cfg_idx : ℕ
  pub dev : D
  pub calls : List PciCall

-- `struct virtio_consts`, with the notify functions of the queues by their numbers, the accesses
-- to the MSI-X tables, and what the memory of the guest holds at the three addresses of a queue.
-- `cfgread` takes the value that is there and returns whether there was an error.
pub record Consts (D : Type 0) : Type 0 where
  pub nvq : ℕ
  pub cfgsize : ℕ
  pub hv_caps : ℕ
  pub reset : Softc D → Softc D
  pub vq_notify : ℕ → Option (Softc D → Softc D)
  pub qnotify : Option (Softc D → ℕ → Softc D)
  pub cfgread : Softc D → ℕ → ℕ → ℕ → Softc D × Bool × ℕ
  pub cfgwrite : Softc D → ℕ → ℕ → ℕ → Softc D × Bool
  pub apply_features : Option (Softc D → ℕ → Softc D)
  pub is_msix_bar : ℕ → Bool
  pub msix_tread : Softc D → ℕ → ℕ → ℕ
  pub msix_twrite : Softc D → ℕ → ℕ → ℕ → Softc D
  pub ring_at : ℕ → ℕ → ℕ → Vring

abbrev pub no_vector : ℕ
no_vector = 0xffff

-- `struct config_reg` without the name
pub record ConfigReg : Type 0 where
  pub offset : ℕ
  pub size : ℕ
  pub ro : Bool

abbrev reg : ℕ → ℕ → Bool → ConfigReg
reg offset size ro = record { offset = offset; size = size; ro = ro }

abbrev pub config_regs : List ConfigReg
config_regs =
    reg 0 4 true
    ∷ reg 4 4 false
    ∷ reg 8 4 false
    ∷ reg 12 2 true
    ∷ reg 14 2 false
    ∷ reg 16 2 false
    ∷ reg 18 1 false
    ∷ reg 19 1 false
    ∷ reg 20 2 false
    ∷ reg 22 2 false
    ∷ []

abbrev pub reg_at : ℕ → ConfigReg
reg_at mid = get_or config_regs mid (reg 0 0 true)

-- The loop of `vi_find_cr` on `u_int` bounds: `none` is an access outside of the table, or fuel that
-- does not last. The offset is an `int` in 32 bits: one with the sign bit set is below every register.
unfoldable pub find_between : ℕ → ℕ → ℕ → ℕ → Option (Option ConfigReg)
find_between zero lo hi offset = none
find_between (suc fuel) lo hi offset =
    let mid = (hi + lo) % 2 ^ 32 / 2 in
    let above = find_between fuel ((mid + 1) % 2 ^ 32) hi offset in
    let below = find_between fuel lo ((mid + (2 ^ 32 - 1)) % 2 ^ 32) offset in
    if ltb hi lo
    then some none
    else if leb 10 mid
    then none
    else if (reg_at mid).offset == offset
    then some (some (reg_at mid))
    else if ltb (reg_at mid).offset offset && ltb offset (2 ^ 31)
    then above
    else below

unfoldable pub vi_find_cr : ℕ → Option (Option ConfigReg)
vi_find_cr offset = find_between 5 0 9 offset

-- `vi_find_cr` where its result is used: `NULL` is `none`. Accesses stay below the size of a BAR, so that
-- the offset is not negative there.
abbrev pub found : Option (Option ConfigReg) → Option ConfigReg
found none = none
found (some cr) = cr

abbrev pub no_ring : Vring
no_ring = record {
  desc = [];
  avail_flags = 0;
  avail_idx = 0;
  avail_ring = [];
  used_event = 0;
  used_flags = 0;
  used_idx = 0;
  used_ring = [];
}

abbrev pub no_queue : Vqueue
no_queue = record {
  qsize = 0;
  flags = 0;
  last_avail = 0;
  next_used = 0;
  save_used = 0;
  msix_idx = no_vector;
  pfn = 0;
  ring = no_ring;
}

abbrev reset_queue : Vqueue → Vqueue
reset_queue vq = record vq {
  flags = 0;
  last_avail = 0;
  next_used = 0;
  save_used = 0;
  pfn = 0;
  msix_idx = no_vector;
}

abbrev reset_queues : List Vqueue → List Vqueue
reset_queues [] = []
reset_queues (vq ∷ vqs) = reset_queue vq ∷ reset_queues vqs

abbrev roundup2 : ℕ → ℕ → ℕ
roundup2 x y = (x + (y - 1)) / y * y

module _ {D : Type 0} where
  abbrev tell : Softc D → List PciCall → Softc D
  tell vs l = record vs { calls = vs.calls ++ l }

  unfoldable pub vi_reset_dev : Softc D → Softc D
  vi_reset_dev vs = record vs {
    queues = reset_queues vs.queues;
    negotiated_caps = 0;
    curq = 0;
    calls = vs.calls ++ (if vs.isr == 0 then [] else lintr_deassert ∷ []);
    isr = 0;
    msix_cfg_idx = no_vector;
  }

  unfoldable pub vq_interrupt : Softc D → Vqueue → Softc D
  vq_interrupt vs vq =
      if vs.msix_enabled then tell vs (generate_msix vq.msix_idx ∷ []) else record vs {
        isr = bit_or vs.isr 1;
        calls = vs.calls ++ (generate_msi 0 ∷ lintr_assert ∷ []);
      }

  module _ (vc : Consts D) where
    -- the queue that the guest has selected
    abbrev pub selected : Softc D → Vqueue
    selected vs = get_or vs.queues vs.curq no_queue

    -- a queue at the page `pfn`, whose addresses count from the start of the guest's memory
    unfoldable pub queue_at : Vqueue → ℕ → Vqueue
    queue_at vq pfn =
        let base = pfn * 2 ^ 12 in
        let avail = base + vq.qsize * 16 in
        record vq {
          pfn = pfn;
          ring = vc.ring_at base avail (roundup2 (avail + (2 + vq.qsize + 1) * 2) 4096);
          flags = 1;
          last_avail = 0;
          next_used = 0;
          save_used = 0;
        }

    unfoldable pub vi_vq_init : Softc D → ℕ → Softc D
    vi_vq_init vs pfn = record vs { queues = set vs.queues vs.curq (queue_at (selected vs) pfn) }

    abbrev pub config_size : Softc D → ℕ
    config_size vs = if vs.msix_enabled then 24 else 20

    abbrev limit : ℕ
    limit = if vc.cfgsize == 0 then 0x100000000 else vc.cfgsize

    abbrev pub has_size : ℕ → Bool
    has_size size = size == 1 || size == 2 || size == 4

    -- whether an access is for the device behind the common registers
    abbrev pub is_specific : Softc D → ℕ → ℕ → Bool
    is_specific vs offset size =
        has_size size
        && leb (config_size vs) offset
        && leb (((offset - config_size vs) % 2 ^ 32 + size) % 2 ^ 32) limit

    abbrev queue_value : Softc D → ℕ → ℕ → ℕ
    queue_value vs v other = if ltb vs.curq vc.nvq then v else other

    abbrev pub read_isr : Softc D → Softc D
    read_isr vs = record vs {
      isr = 0;
      calls = vs.calls ++ (if vs.isr == 0 then [] else lintr_deassert ∷ []);
    }

    unfoldable pub read_reg : Softc D → ℕ → ℕ → Softc D × ℕ
    read_reg vs offset value =
        if offset == 0
        then (vs, vc.hv_caps % 2 ^ 32)
        else if offset == 4
        then (vs, vs.negotiated_caps)
        else if offset == 8
        then (vs, queue_value vs (selected vs).pfn value)
        else if offset == 12
        then (vs, queue_value vs (selected vs).qsize 0)
        else if offset == 14
        then (vs, vs.curq)
        else if offset == 16
        then (vs, 0)
        else if offset == 18
        then (vs, vs.status)
        else if offset == 19
        then (read_isr vs, vs.isr)
        else if offset == 20
        then (vs, vs.msix_cfg_idx)
        else if offset == 22
        then (vs, queue_value vs (selected vs).msix_idx no_vector)
        else (vs, value)

    abbrev read_found : Softc D → ℕ → ℕ → ℕ → Option ConfigReg → Softc D × ℕ
    read_found vs offset size value none = (vs, value)
    read_found vs offset size value (some cr) =
        if cr.size == size then read_reg vs offset value else (vs, value)

    -- the code after `bad:`
    unfoldable pub read_common : Softc D → ℕ → ℕ → ℕ → Softc D × ℕ
    read_common vs offset size value =
        read_found vs offset size value (found (vi_find_cr (offset % 2 ^ 32)))

    abbrev read_specific : ℕ → ℕ → Softc D × Bool × ℕ → Softc D × ℕ
    read_specific offset size (vs, true, value) = read_common vs offset size value
    read_specific offset size (vs, false, value) = (vs, value)

    abbrev all_ones : ℕ → ℕ
    all_ones size = if size == 1 then 0xff else if size == 2 then 0xffff else 0xffffffff

    -- `none` if the assertion fails
    unfoldable pub vi_pci_read : Softc D → ℕ → ℕ → ℕ → Option (Softc D × ℕ)
    vi_pci_read vs baridx offset size =
        if vs.use_msix && vc.is_msix_bar baridx
        then some (vs, vc.msix_tread vs offset size)
        else if not (baridx == 0)
        then none
        else if is_specific vs offset size
        then some (
            read_specific offset size
              (vc.cfgread vs ((offset - config_size vs) % 2 ^ 32) size (all_ones size)))
        else some (read_common vs offset size (all_ones size))

    abbrev applied : Option (Softc D → ℕ → Softc D) → Softc D → Softc D
    applied none vs = vs
    applied (some f) vs = f vs vs.negotiated_caps

    abbrev notified :
        Option (Softc D → Softc D) → Option (Softc D → ℕ → Softc D) → ℕ → Softc D → Softc D
    notified (some f) g n vs = f vs
    notified none (some g) n vs = g vs n
    notified none none n vs = vs

    abbrev write_status : Softc D → ℕ → Softc D
    write_status vs value =
        let vs' = record vs { status = value % 2 ^ 8 } in if value == 0 then vc.reset vs' else vs'

    abbrev write_qvec : Softc D → ℕ → Softc D
    write_qvec vs value = record vs {
      queues = set vs.queues vs.curq (record (selected vs) { msix_idx = value % 2 ^ 16 });
    }

    unfoldable pub write_reg : Softc D → ℕ → ℕ → Softc D
    write_reg vs offset value =
        if offset == 4
        then applied vc.apply_features
            (record vs { negotiated_caps = bit_and value vc.hv_caps % 2 ^ 32 })
        else if offset == 8
        then (if leb vc.nvq vs.curq then vs else vi_vq_init vs (value % 2 ^ 32))
        else if offset == 14
        then record vs { curq = value }
        else if offset == 16
        then (if leb vc.nvq value then vs else notified (vc.vq_notify value) vc.qnotify value vs)
        else if offset == 18
        then write_status vs value
        else if offset == 20
        then record vs { msix_cfg_idx = value % 2 ^ 16 }
        else if offset == 22
        then (if leb vc.nvq vs.curq then vs else write_qvec vs value)
        else vs

    abbrev write_found : Softc D → ℕ → ℕ → ℕ → Option ConfigReg → Softc D
    write_found vs offset size value none = vs
    write_found vs offset size value (some cr) =
        if not (cr.size == size) || cr.ro then vs else write_reg vs offset value

    unfoldable pub write_common : Softc D → ℕ → ℕ → ℕ → Softc D
    write_common vs offset size value =
        write_found vs offset size value (found (vi_find_cr (offset % 2 ^ 32)))

    abbrev write_specific : ℕ → ℕ → ℕ → Softc D × Bool → Softc D
    write_specific offset size value (vs, true) = write_common vs offset size value
    write_specific offset size value (vs, false) = vs

    unfoldable pub vi_pci_write : Softc D → ℕ → ℕ → ℕ → ℕ → Option (Softc D)
    vi_pci_write vs baridx offset size value =
        if vs.use_msix && vc.is_msix_bar baridx
        then some (vc.msix_twrite vs offset size value)
        else if not (baridx == 0)
        then none
        else if is_specific vs offset size
        then some (
            write_specific offset size value
              (vc.cfgwrite vs ((offset - config_size vs) % 2 ^ 32) size (value % 2 ^ 32)))
        else some (write_common vs offset size value)
