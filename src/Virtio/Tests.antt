-- ===== src/Virtio/Tests.antt =====
-- The properties of virtio devices at concrete devices, queues and requests.
use bhyve_experiments.Base.{
  ℕ, ◌+◌, ◌^◌, ◌≤◌, ◌≡◌, ◌↔◌, refl, arith, true, false, List, [], ◌∷◌, none, some, length, get_or,
  ◌==◌,
}
use bhyve_experiments.Virtio.Queue.{
  Desc, Vqueue, UsedEntry, getchain, chain, chain_from, followed, real_descs, indirect_chain,
  endchains, no_desc, head_of, max_descriptors,
}
use bhyve_experiments.Base.Bits.{any_of}
use bhyve_experiments.Virtio.Queue.Chain.{Chain}
use bhyve_experiments.Virtio.Queue.Accept.{getchain-Chain}
use bhyve_experiments.Virtio.Queue.Events.{endchains_interrupts, Wants}
use bhyve_experiments.Virtio.Queue.Used.{relchains, entries, relchains_read, IsQueue}
use bhyve_experiments.Virtio.Device.{
  Softc, Consts, config_regs, vi_find_cr, vi_pci_read, no_ring, no_queue, no_vector,
}
use bhyve_experiments.Virtio.Device.Search.{find_cr-first_with, first_with}
use bhyve_experiments.Virtio.Device.Select.{IsSetUp, set_up-vi_pci_read, set_up, with_queue}

abbrev first_desc : Desc
first_desc = record { addr = 0x1000; len = 16; flags = 1; next = 2 }

abbrev pointer : Desc
pointer = record { addr = 0x2000; len = 16; flags = 4; next = 0 }

abbrev inner : Desc
inner = record { addr = 0x3000; len = 64; flags = 2; next = 0 }

abbrev tables : ℕ → ℕ → Desc
tables addr next = inner

-- a queue of four entries where the driver has made one chain available
abbrev queue : Vqueue
queue = record {
  qsize = 4;
  flags = 1;
  last_avail = 65535;
  next_used = 65534;
  save_used = 65534;
  msix_idx = 0;
  pfn = 1;
  ring = record {
    desc = first_desc ∷ no_desc ∷ pointer ∷ no_desc ∷ [];
    avail_flags = 0;
    avail_idx = 0;
    avail_ring = 1 ∷ 2 ∷ 3 ∷ 0 ∷ [];
    used_event = 65535;
    used_flags = 0;
    used_idx = 65534;
    used_ring = used 0 0 ∷ used 0 0 ∷ used 0 0 ∷ used 0 0 ∷ [];
  };
}
  where
    used : ℕ → ℕ → UsedEntry
    used idx tlen = record { idx = idx; tlen = tlen }

abbrev caps : ℕ
caps = 2 ^ 28 + 2 ^ 29

getchain-Chain_example :
    ((getchain tables caps queue).1 ≡ chain (head_of queue) (first_desc ∷ inner ∷ [])) ↔ (
      Chain tables caps queue (head_of queue) (first_desc ∷ inner ∷ [])
      × (length (first_desc ∷ inner ∷ []) ≤ max_descriptors))
getchain-Chain_example =
    getchain-Chain tables caps queue (first_desc ∷ inner ∷ []) (omega arith) (omega arith)

getchain_finds : (getchain tables caps queue).1 ≡ chain 0 (first_desc ∷ inner ∷ [])
unfolding getchain chain_from head_of followed real_descs any_of indirect_chain
getchain_finds = refl

endchains_interrupts_example :
    ((endchains caps queue false).0.save_used ≡ 65534)
    × (((endchains caps queue false).1 ≡ true) ↔ Wants caps queue false)
endchains_interrupts_example =
    endchains_interrupts caps queue false (omega arith) (omega arith) (omega arith)

abbrev released : List UsedEntry
released =
    record { idx = 0; tlen = 64 } ∷ record { idx = 3; tlen = 5 } ∷ record { idx = 1; tlen = 0 } ∷ []

queue-IsQueue : IsQueue 2 queue
queue-IsQueue = record { sized = refl; small = omega arith; storage = refl }

relchains_read_example :
    ((relchains released queue).ring.used_idx ≡ 1)
    × (entries (relchains released queue) 65534 3 ≡ released)
relchains_read_example =
    relchains_read 2 released queue queue-IsQueue refl (omega arith) (omega arith)

find_cr-first_with_example : vi_find_cr 19 ≡ some (first_with config_regs 19)
find_cr-first_with_example = find_cr-first_with 19 (omega arith)

abbrev consts : Consts ℕ
consts = record {
  nvq = 2;
  cfgsize = 8;
  hv_caps = 2 ^ 28;
  reset = λ vs. vs;
  vq_notify = λ n. none;
  qnotify = none;
  cfgread = λ vs offset size value. (vs, false, vs.dev);
  cfgwrite = λ vs offset size value. (record vs { dev = value }, false);
  apply_features = none;
  is_msix_bar = λ bar. bar == 1;
  msix_tread = λ vs offset size. 0;
  msix_twrite = λ vs offset size value. vs;
  ring_at = λ desc avail used. no_ring;
}

abbrev device : Softc ℕ
device = record {
  use_msix = true;
  msix_enabled = false;
  negotiated_caps = 0;
  queues = record no_queue { qsize = 64 } ∷ record no_queue { qsize = 128 } ∷ [];
  curq = 0;
  status = 0;
  isr = 0;
  msix_cfg_idx = no_vector;
  dev = 7;
  calls = [];
}

set_up-vi_pci_read_example :
    (q : Vqueue) × IsSetUp consts (get_or device.queues 1 no_queue) q 0x1234
    × (set_up consts device 1 0x1234 ≡ some (with_queue consts device 1 q))
    × (vi_pci_read consts (with_queue consts device 1 q) 0 8 4
        ≡ some (with_queue consts device 1 q, 0x1234))
set_up-vi_pci_read_example =
    set_up-vi_pci_read consts device 1 0x1234 refl (omega arith) (omega arith) (omega arith)
