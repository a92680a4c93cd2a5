-- ===== src/Virtio/Device/Select.antt =====
-- How a driver sets a queue up: it selects the queue and writes its page.
use bhyve_experiments.Base.{
  ℕ, ◌+◌, ◌*◌, ◌/◌, ◌%◌, ◌^◌, ◌<◌, ◌≤◌, ◌≡◌, refl, ap, ◌∙◌, arith, true, false, ◌&&◌, Option, none,
  some, length, get_or, set, get_or-set_self, ltb, leb,
}
use bhyve_experiments.Virtio.Queue.{Vqueue}
use bhyve_experiments.Virtio.Device.{
  Softc, Consts, vi_pci_read, vi_pci_write, read_common, write_common, read_reg, write_reg,
  vi_vq_init, vi_find_cr, find_between, no_queue, queue_at, selected, is_specific,
}

-- the second operation on the state that the first leaves, if no assertion fails
abbrev pub and_then {ℓ} : {A B : Type ℓ} → Option A → (A → Option B) → Option B
and_then none f = none
and_then (some a) f = f a

module _ {D : Type 0} (vc : Consts D) where
  abbrev pub set_up : Softc D → ℕ → ℕ → Option (Softc D)
  set_up vs n p = and_then (vi_pci_write vc vs 0 14 2 n) (λ vs'. vi_pci_write vc vs' 0 8 4 p)

  -- the state with queue `n` selected and replaced
  abbrev pub with_queue : Softc D → ℕ → Vqueue → Softc D
  with_queue vs n q = record vs { curq = n; queues = set vs.queues n q }

  -- The queue `old` set up at a page: the descriptors of 16 bytes start there, the ring of available
  -- chains follows them, and the ring of used chains starts at the first page boundary behind it.
  pub record IsSetUp (old q : Vqueue) (page : ℕ) : Type 0 where
    pub at_page : q.pfn ≡ page
    pub same_size : q.qsize ≡ old.qsize
    pub same_vector : q.msix_idx ≡ old.msix_idx
    pub is_ready : q.flags ≡ 1
    pub no_avail : q.last_avail ≡ 0
    pub no_used : q.next_used ≡ 0
    pub no_saved : q.save_used ≡ 0
    pub used : ℕ
    pub aligned : used % 4096 ≡ 0
    pub behind : 4096 * page + 18 * old.qsize + 6 ≤ used
    pub nearest : used < 4096 * page + 18 * old.qsize + 6 + 4096
    pub rings : q.ring ≡ vc.ring_at (4096 * page) (4096 * page + 16 * old.qsize) used

  queue_at-IsSetUp : (vq : Vqueue) (p : ℕ) → IsSetUp vq (queue_at vc vq p) p
  unfolding queue_at
  queue_at-IsSetUp vq p =
      let base : p * 2 ^ 12 ≡ 4096 * p = omega arith in
      let times : vq.qsize * 16 ≡ 16 * vq.qsize = omega arith in
      record {
        at_page = refl;
        same_size = refl;
        same_vector = refl;
        is_ready = refl;
        no_avail = refl;
        no_used = refl;
        no_saved = refl;
        used = (p * 2 ^ 12 + vq.qsize * 16 + (2 + vq.qsize + 1) * 2 + 4095) / 4096 * 4096;
        aligned = omega arith;
        behind = omega arith;
        nearest = omega arith;
        rings = rw (base, times) refl;
      }

  -- The registers below 20 are common to all devices.
  common : (vs : Softc D) (offset size : ℕ) → offset < 20 → is_specific vc vs offset size ≡ false
  common vs offset size h = ground arith

  write_qsel :
      (vs : Softc D) (n : ℕ)
      → (vs.use_msix && vc.is_msix_bar 0) ≡ false
      → vi_pci_write vc vs 0 14 2 n ≡ some (record vs { curq = n })
  unfolding vi_pci_write write_common write_reg vi_find_cr find_between
  write_qsel vs n h = rw (h, common vs 14 2 (omega arith)) refl

  write_pfn :
      (vs : Softc D) (p : ℕ)
      → (vs.use_msix && vc.is_msix_bar 0) ≡ false
      → vs.curq < vc.nvq
      → p < 2 ^ 32
      → vi_pci_write vc vs 0 8 4 p ≡ some (with_queue vs vs.curq (queue_at vc (selected vc vs) p))
  unfolding vi_pci_write write_common write_reg vi_find_cr find_between vi_vq_init
  write_pfn vs p h l w =
      let there : leb vc.nvq vs.curq ≡ false = ground arith in
      let whole : p % 2 ^ 32 ≡ p = omega arith in
      rw (h, common vs 8 4 (omega arith), there, whole) refl

  read_pfn :
      (vs : Softc D)
      → (vs.use_msix && vc.is_msix_bar 0) ≡ false
      → vs.curq < vc.nvq
      → vi_pci_read vc vs 0 8 4 ≡ some (vs, (selected vc vs).pfn)
  unfolding vi_pci_read read_common read_reg vi_find_cr find_between
  read_pfn vs h l =
      let there : ltb vs.curq vc.nvq ≡ true = ground arith in
      rw (h, common vs 8 4 (omega arith), there) refl

  -- At a device whose BAR 0 does not hold the MSI-X tables: a driver that selects one of its
  -- queues and writes a page number of 32 bits has this queue set up there: descriptors at the page, the
  -- available ring behind them, the used ring at the next page boundary, ready and with all indices 0.
  -- The rest of the device is as it was, and the driver reads the page number back.
  pub set_up-vi_pci_read :
      (vs : Softc D) (n p : ℕ)
      → (vs.use_msix && vc.is_msix_bar 0) ≡ false
      → n < vc.nvq
      → n < length vs.queues
      → p < 2 ^ 32
      → (q : Vqueue) × IsSetUp (get_or vs.queues n no_queue) q p
        × (set_up vs n p ≡ some (with_queue vs n q))
        × (vi_pci_read vc (with_queue vs n q) 0 8 4 ≡ some (with_queue vs n q, p))
  set_up-vi_pci_read vs n p h l stored w =
      let q = queue_at vc (get_or vs.queues n no_queue) p in
      let ready = queue_at-IsSetUp (get_or vs.queues n no_queue) p in
      let at : (selected vc (with_queue vs n q)).pfn ≡ p =
        ap (λ (r : Vqueue). r.pfn) (get_or-set_self vs.queues n q no_queue stored)
        ∙ ready.at_page in
      (
        q,
        ready,
        ap (λ o. and_then o (λ vs'. vi_pci_write vc vs' 0 8 4 p)) (write_qsel vs n h)
            ∙ write_pfn (record vs { curq = n }) p h l w,
        read_pfn (with_queue vs n q) h l ∙ ap (λ (t : ℕ). some (with_queue vs n q, t)) at,
      )
