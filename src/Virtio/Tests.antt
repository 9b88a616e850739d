-- ===== src/Virtio/Tests.antt =====
-- The virtio back end on small inputs: the theorems where their hypotheses hold.
use heterogeneous_multicore.Base.{
  ◌%◌, inr, ℕ, zero, suc, ◌+◌, ◌^◌, ◌≤◌, ◌<◌, ◌≡◌, ◌≢◌, ◌↔◌, refl, Bool, true, false, List, [], ◌∷◌,
  some, none, arith, get_elem?, inl, if◌then◌else◌, ◌==◌,
}
use heterogeneous_multicore.Base.Int.{pos}
use Prim.Native.Nat.{◌∣◌}
use native.Mathlib.Nat.{dvd_of_mod-eq-zero}
use heterogeneous_multicore.Virtio.Ring.{
  Desc, UsedElem, Iovec, Vring, Virtqueue, Vector, u16, taken, virtio_queue_get_iov,
  virtio_queue_must_notify,
}
use heterogeneous_multicore.Virtio.Ring.Used.{
  complete, read_used, read_used-complete, virtio_queue_must_notify-batch,
}
use heterogeneous_multicore.Virtio.Ring.Avail.{
  Chain, vec, virtio_queue_get_iov-Chain, virtio_queue_get_iov-never_ends,
}
use heterogeneous_multicore.Virtio.Device.{
  Hdr, Ops, VirtioDev, zero_vq, no_desc, virtio_handle_dev_status,
}
use heterogeneous_multicore.Virtio.Device.Queues.{
  Started, write_statuses, virtio_handle_dev_status-live, virtio_handle_dev_status-reset,
}
use heterogeneous_multicore.Virtio.Trans.{TransDev, trans_dev_virtio_ops, vt_memcpy}
use heterogeneous_multicore.Virtio.Trans.Laws.{trans_dev_virtio_ops-OpsLaws}
use heterogeneous_multicore.Virtio.Trans.Memcpy.{Copied, vt_memcpy-Copied}
use heterogeneous_multicore.Virtio.Iov.{iov_size, memcpy_toiovec, memcpy_fromiovec}
use heterogeneous_multicore.Virtio.Iov.Laws.{AllApart, Disjoint, memcpy_fromiovec-memcpy_toiovec}
use heterogeneous_multicore.Virtio.IsrTable.{IsrInfo, WrOps, register_isr, unregister_isr, call_isr}
use heterogeneous_multicore.Virtio.IsrTable.Laws.{Distinct, register_isr-calls}

-- A ring of four with an index about to wrap, and the chain 1, 2: one to read and one to write.
abbrev descs : ℕ → Desc
descs zero = no_desc
descs (suc zero) = record { addr = 4096; len = 12; flags = 1; next = 2 }
descs (suc (suc i)) = record { addr = 8192; len = 64; flags = 2; next = 0 }

abbrev ring : Vring
ring = record {
  num = 4;
  desc = descs;
  tables = λ a i. no_desc;
  avail_flags = 0;
  avail_idx = 8;
  avail_ring = λ i. 1;
  used_event = 65535;
  used_idx = 65535;
  used_ring = λ i. record { id = 0; len = 0 };
  avail_event = 0;
}

abbrev queue : Virtqueue
queue = record {
  vring = ring;
  pfn = 3;
  last_avail_idx = 7;
  last_notified_idx = 65535;
  use_event_idx = true;
  enabled = true;
}

abbrev done : List UsedElem
done = record { id = 1; len = 64 } ∷ record { id = 3; len = 60 } ∷ []

four_divides : 4 ∣ 2 ^ 16
four_divides = dvd_of_mod-eq-zero 4 refl

read_used-complete_example :
    (read_used 65535 2 (complete done queue).vring ≡ done)
    × ((complete done queue).vring.used_idx ≡ 1)
read_used-complete_example = read_used-complete done queue four_divides (omega arith) (omega arith)

virtio_queue_must_notify-batch_example :
    let (notified, vq') = virtio_queue_must_notify (complete done queue) in
    ((notified ≡ true) ↔ ((k : ℕ) × (k < 2) × (u16 (65535 + k) ≡ 65535)))
    × (notified ≡ true → (virtio_queue_must_notify vq').0 ≡ false)
virtio_queue_must_notify-batch_example =
    virtio_queue_must_notify-batch queue done refl (omega arith) (omega arith) (omega arith) refl

abbrev no_iov : ℕ → Iovec
no_iov i = record { addr = 0; len = 0 }

abbrev chained : List Desc
chained = descs 1 ∷ descs 2 ∷ []

chained-Chain : Chain descs 1 chained
chained-Chain = Chain.link 1 refl (Chain.last 2 refl)

virtio_queue_get_iov-Chain_example :
    (v : Vector) × (virtio_queue_get_iov 2 queue no_iov ≡ some (pos 1, taken queue, v))
    × ((k : ℕ) (d : Desc) → get_elem? chained k ≡ some d → v.iov k ≡ vec d)
    × ((j : ℕ) → 2 ≤ j → v.iov j ≡ no_iov j)
    × (v.cnt_out ≡ 1)
    × (v.cnt_in ≡ 1)
    × ((taken queue).last_avail_idx ≡ 8)
virtio_queue_get_iov-Chain_example =
    virtio_queue_get_iov-Chain 2 queue no_iov chained (omega arith) chained-Chain (omega arith)
      (omega arith)

-- A descriptor that names itself as the next one.
abbrev looping : Virtqueue
looping = record queue {
  vring = record ring { desc = λ i. record { addr = 0; len = 0; flags = 1; next = 1 } };
}

virtio_queue_get_iov-never_ends_example : virtio_queue_get_iov 50 looping no_iov ≡ none
virtio_queue_get_iov-never_ends_example =
    virtio_queue_get_iov-never_ends looping (λ i. i ≡ 1) (omega arith) refl (λ i e. (refl, refl)) 50
      no_iov

abbrev regs : Hdr
regs = record {
  magic = [];
  version = 1;
  device_id = 0;
  vendor_id = 0;
  dev_features = 5;
  dev_features_sel = 0;
  drv_features = 0;
  drv_features_sel = 0;
  guest_page_size = 4096;
  queue_sel = 1;
  queue_num_max = 1024;
  queue_num = 0;
  queue_align = 4096;
  queue_pfn = 0;
  queue_notify = 0;
  interrupt_status = 0;
  interrupt_ack = 1;
  status = 0;
  wd_status = 0;
}

abbrev trans : TransDev
trans = record {
  vqs = λ i. queue;
  config = record {
    status = 0;
    config = 3;
    control = 1;
    pkt_size = 64;
    tx_count = 5;
    rx_count = 0;
    regression = 10;
  };
  rx_running = false;
  tx_running = false;
  front_poll_mode = false;
  back_poll_mode = false;
  do_buf_copy = false;
  recv_packet_sig = 0;
  send_packet_sig = 0;
  woken = [];
}

abbrev device : Bool → VirtioDev TransDev
device live = record {
  hdr = regs;
  mmio = 0;
  drv_features = 0;
  dev_features_0 = 5;
  dev_features_1 = 6;
  live = live;
  cfg_size = 28;
  vqs = 2;
  devp = trans;
  kicks = [];
}

abbrev memory : ℕ → ℕ → ℕ → Vring
memory num p align = record ring { num = num }

abbrev ops : Ops TransDev
ops = trans_dev_virtio_ops memory

virtio_handle_dev_status-live_example :
    ((write_statuses ops (1 ∷ 3 ∷ 7 ∷ []) (device false)).live ≡ true) ↔ Started (1 ∷ 3 ∷ 7 ∷ [])
virtio_handle_dev_status-live_example =
    virtio_handle_dev_status-live ops (1 ∷ 3 ∷ 7 ∷ []) (device false) refl

virtio_handle_dev_status-reset_example :
    let dev' = virtio_handle_dev_status ops 0 (device true) in
    (dev'.live ≡ false)
    × ((m : ℕ) → m < 2 → ops.get_vq m dev'.devp ≡ zero_vq)
    × ((m : ℕ) → 2 ≤ m → ops.get_vq m dev'.devp ≡ ops.get_vq m (ops.handle_dev_status 0 trans))
virtio_handle_dev_status-reset_example =
    virtio_handle_dev_status-reset ops (trans_dev_virtio_ops-OpsLaws memory) (device true) refl

-- Of six bytes between aligned addresses four are copied.
vt_memcpy-Copied_example : Copied 100 200 4 (λ a. a) (vt_memcpy 100 200 6 (λ a. a))
vt_memcpy-Copied_example = vt_memcpy-Copied 100 200 6 (λ a. a) (inl (omega arith))

abbrev free_entry : IsrInfo
free_entry = record { event = 0; write_cb = none; isr_data = 0 }

abbrev one_handler : List IsrInfo
one_handler = record { event = 8; write_cb = some 70; isr_data = 1 } ∷ free_entry ∷ free_entry ∷ []

register_isr-calls_example :
    let table' = register_isr 9 (some 71) 2 one_handler in
    Distinct table'
    × ((w : WrOps)
        → w.mmio_base ≢ 0
        → call_isr w table' ≡ (
            if 9 == w.mmio_base
            then some (record {
              write_cb = 71;
              addr = (w.mmio_base + w.off) % 2 ^ 64;
              len = w.len;
              isr_data = 2;
            })
            else call_isr w one_handler))
    × ((w : WrOps)
        → w.mmio_base ≢ 0
        → call_isr w (unregister_isr 9 table')
          ≡ (if 9 == w.mmio_base then none else call_isr w one_handler))
register_isr-calls_example =
    register_isr-calls 9 71 2 one_handler (omega arith) refl (λ e. ground arith)
      ((λ z. refl), ((λ z. absurd (z refl)), ((λ z. absurd (z refl)), tt)))

-- Five bytes into a vector of two and four.
abbrev two_regions : List Iovec
two_regions = record { addr = 100; len = 2 } ∷ record { addr = 50; len = 4 } ∷ []

two_regions-Disjoint : Disjoint two_regions
two_regions-Disjoint = ((inr (omega arith), tt), (tt, tt))

two_regions_size : 5 ≤ iov_size two_regions
unfolding iov_size
two_regions_size = omega arith

memcpy_fromiovec-memcpy_toiovec_example :
    (iov' : List Iovec) × (mem' : ℕ → ℕ) × (memcpy_toiovec two_regions
        (7 ∷ 8 ∷ 9 ∷ 10 ∷ 11 ∷ [])
        (λ a. 0)
      ≡ some (iov', mem'))
    × (memcpy_fromiovec two_regions 5 mem' ≡ some (iov', 7 ∷ 8 ∷ 9 ∷ 10 ∷ 11 ∷ []))
    × ((a n : ℕ) → AllApart a n two_regions → (b : ℕ) → a ≤ b → b < a + n → mem' b ≡ 0)
memcpy_fromiovec-memcpy_toiovec_example =
    memcpy_fromiovec-memcpy_toiovec two_regions (7 ∷ 8 ∷ 9 ∷ 10 ∷ 11 ∷ []) (λ a. 0)
      two_regions-Disjoint two_regions_size
