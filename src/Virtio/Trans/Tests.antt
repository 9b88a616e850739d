-- ===== src/Virtio/Trans/Tests.antt =====
-- The tests of the transfer device on small inputs: the theorems where their hypotheses hold.
use heterogeneous_multicore.Base.{
  ℕ, zero, suc, ◌+◌, ◌<◌, ◌≤◌, ◌≡◌, refl, true, false, List, [], ◌∷◌, arith, map,
}
use native.Mathlib.Nat.{dvd_of_mod-eq-zero}
use heterogeneous_multicore.Virtio.Ring.{Desc, Virtqueue, u16}
use heterogeneous_multicore.Virtio.Ring.Used.{read_used}
use heterogeneous_multicore.Virtio.Ring.Avail.{Chain}
use heterogeneous_multicore.Virtio.Trans.{TransDev}
use heterogeneous_multicore.Virtio.Trans.Tasks.{tx_task, TestState, over, going, is_over, test}
use heterogeneous_multicore.Virtio.Trans.Tasks.Fits.{AllShort}
use heterogeneous_multicore.Virtio.Trans.Tasks.Laws.{count_of, used_elem}
use heterogeneous_multicore.Virtio.Trans.Tasks.Offered.{Offered}
use heterogeneous_multicore.Virtio.Trans.Tasks.Endings.{test_ends, test_overshoots}

-- Two buffers to write, with the heads 1 and 2: the first is a chain with the third.
abbrev descs : ℕ → Desc
descs zero = record { addr = 300; len = 8; flags = 2; next = 0 }
descs (suc zero) = record { addr = 100; len = 8; flags = 3; next = 0 }
descs (suc (suc i)) = record { addr = 200; len = 8; flags = 2; next = 0 }

abbrev queue : Virtqueue
queue = record {
  vring = record {
    num = 4;
    desc = descs;
    tables = λ a i. record { addr = 0; len = 0; flags = 0; next = 0 };
    avail_flags = 0;
    avail_idx = 2;
    avail_ring = λ i. i + 1;
    used_event = 65535;
    used_idx = 65535;
    used_ring = λ i. record { id = 0; len = 0 };
    avail_event = 0;
  };
  pfn = 3;
  last_avail_idx = 0;
  last_notified_idx = 65535;
  use_event_idx = true;
  enabled = true;
}

abbrev device : ℕ → TransDev
device regression = record {
  vqs = λ i. queue;
  config = record {
    status = 0;
    config = 2;
    control = 1;
    pkt_size = 8;
    tx_count = 0;
    rx_count = 0;
    regression = regression;
  };
  rx_running = false;
  tx_running = true;
  front_poll_mode = false;
  back_poll_mode = false;
  do_buf_copy = true;
  recv_packet_sig = 0;
  send_packet_sig = 0;
  woken = [];
}

abbrev begun : TestState
begun = record { vq = queue; iov = λ i. record { addr = 0; len = 0 }; mem = λ a. a; interrupts = 0 }

abbrev chains : List (ℕ × List Desc)
chains = (1, descs 1 ∷ descs 0 ∷ []) ∷ (2, descs 2 ∷ []) ∷ []

chains-Offered : Offered 100 chains queue
chains-Offered = (
  omega arith,
  refl,
  Chain.link 1 refl (Chain.last 0 refl),
  omega arith,
  omega arith,
  (omega arith, refl, Chain.last 2 refl, omega arith, omega arith, tt),
)

test_ends_example :
    (tdev' : TransDev) × (s' : TestState) × (test (λ vq. vq) tx_task 4000 (device 3) 2 begun
      ≡ over (tdev', s'))
    × (read_used 65535 2 s'.vq.vring ≡ map (used_elem tx_task) chains)
    × (s'.vq.vring.used_idx ≡ u16 65537)
    × (count_of tx_task tdev' ≡ 3)
    × (false ≡ false → 0 < s'.interrupts)
test_ends_example =
    test_ends (λ vq. vq) tx_task 4000 (device 3) 2 chains begun chains-Offered
      (λ on. ((omega arith, (omega arith, tt)), ((omega arith, tt), tt)))
      (omega arith, (omega arith, tt)) refl (omega arith) (omega arith) (dvd_of_mod-eq-zero 4 refl)
      (omega arith) (omega arith)

abbrev one_chain : TestState
one_chain = record begun { vq = record queue { vring = record (queue.vring) { avail_idx = 1 } } }

one_chain-Offered : Offered 100 ((1, descs 1 ∷ descs 0 ∷ []) ∷ []) one_chain.vq
one_chain-Offered =
    (omega arith, refl, Chain.link 1 refl (Chain.last 0 refl), omega arith, omega arith, tt)

-- A test of one packet, with a chain of two.
test_overshoots_example :
    let after = test (λ vq. vq) tx_task 4000 (device 1) 9 one_chain in
    (is_over after ≡ false)
    × (2 ≤ 100 → (true ≡ true → AllShort (descs 1 ∷ descs 0 ∷ [])) → after ≡ going)
test_overshoots_example =
    test_overshoots (λ vq. vq) tx_task 4000 (device 1) 9 100 1 (descs 1 ∷ descs 0 ∷ []) one_chain
      one_chain-Offered refl (omega arith) (omega arith) (λ vq w. w)
