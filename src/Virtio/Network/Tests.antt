-- ===== src/Virtio/Network/Tests.antt =====
-- The virtio network device on small inputs: the theorems where their hypotheses hold.
use heterogeneous_multicore.Base.{
  inl, ℕ, zero, suc, ◌+◌, ◌^◌, ◌≤◌, ◌≡◌, refl, true, false, List, [], ◌∷◌, some, none, arith,
}
use heterogeneous_multicore.Base.Bytes.{put}
use native.Mathlib.Nat.{dvd_of_mod-eq-zero}
use Prim.Native.Nat.{◌∣◌}
use heterogeneous_multicore.Net.Switch.{Net, local, port_at}
use heterogeneous_multicore.Net.Ports.{PortConfig, new_port}
use heterogeneous_multicore.Virtio.Ring.{Desc, Iovec, Vring, Virtqueue, u16}
use heterogeneous_multicore.Virtio.Ring.Used.{read_used}
use heterogeneous_multicore.Virtio.Ring.Avail.{Chain}
use heterogeneous_multicore.Virtio.Iov.{iov_size}
use heterogeneous_multicore.Virtio.Iov.Laws.{Disjoint}
use heterogeneous_multicore.Virtio.Network.{NetDev}
use heterogeneous_multicore.Virtio.Network.Laws.{rx, tx, fires, OnlyIf, run, run_owed}
use heterogeneous_multicore.Virtio.Network.Rx.{done, overrun, virtio_net_rx_callback}
use heterogeneous_multicore.Virtio.Network.Rx.Laws.{regions}
use heterogeneous_multicore.Virtio.Network.Rx.Rounds.{Supplied}
use heterogeneous_multicore.Virtio.Network.Rx.Delivery.{
  Delivered, virtio_net_rx_callback_delivers, virtio_net_rx_callback_overruns,
}
use heterogeneous_multicore.Virtio.Network.Tx.{TxState}
use heterogeneous_multicore.Virtio.Network.Ctrl.{CtrlState, ctrl_round}
use heterogeneous_multicore.Virtio.Network.Ctrl.Laws.{AddressSet, ctrl_round_sets_addr}

abbrev ndev : NetDev
ndev = record {
  running = true;
  link_on = true;
  conf_link_up = true;
  live = true;
  hdr_len = 10;
  kick_timer = false;
  interrupts = 0;
  rx_pkts = 0;
  tx_pkts = 0;
  rx_cnt = 99;
  tx_cnt = 0;
  coal_ticks = 1;
}

-- Two notifications that are needed: the first is left to the timer, the second interrupts.
run_owed_example :
    let (ndev', owed') = run (tx true ∷ rx true ∷ fires ∷ []) (ndev, false) in
    OnlyIf owed' ndev'.kick_timer
run_owed_example = run_owed (tx true ∷ rx true ∷ fires ∷ []) ndev false refl

-- Buffers of four and eight bytes to write, with the heads 1 and 2.
abbrev buffers : ℕ → Desc
buffers zero = record { addr = 0; len = 0; flags = 0; next = 0 }
buffers (suc zero) = record { addr = 100; len = 4; flags = 2; next = 0 }
buffers (suc (suc i)) = record { addr = 200; len = 8; flags = 2; next = 0 }

abbrev ring_of : (ℕ → Desc) → Vring
ring_of desc = record {
  num = 4;
  desc = desc;
  tables = λ a i. record { addr = 0; len = 0; flags = 0; next = 0 };
  avail_flags = 0;
  avail_idx = 2;
  avail_ring = λ i. i + 1;
  used_event = 65535;
  used_idx = 65535;
  used_ring = λ i. record { id = 0; len = 0 };
  avail_event = 0;
}

abbrev queue_of : (ℕ → Desc) → Virtqueue
queue_of desc = record {
  vring = ring_of desc;
  pfn = 3;
  last_avail_idx = 0;
  last_notified_idx = 65535;
  use_event_idx = true;
  enabled = true;
}

four_divides : 4 ∣ 2 ^ 16
four_divides = dvd_of_mod-eq-zero 4 refl

abbrev no_iov : ℕ → Iovec
no_iov i = record { addr = 0; len = 0 }

abbrev two_buffers : List (ℕ × Iovec)
two_buffers = (1, record { addr = 100; len = 4 }) ∷ (2, record { addr = 200; len = 8 }) ∷ []

two_buffers-Supplied : Supplied two_buffers (queue_of buffers)
two_buffers-Supplied = (
  omega arith,
  refl,
  (buffers 1, Chain.last 1 refl, refl, refl),
  (omega arith, refl, (buffers 2, Chain.last 2 refl, refl, refl), tt),
)

two_buffers-Disjoint : Disjoint (regions two_buffers)
two_buffers-Disjoint = ((inl (omega arith), tt), (tt, tt))

two_buffers_size : 6 ≤ iov_size (regions two_buffers)
unfolding iov_size
two_buffers_size = omega arith

abbrev six : List ℕ
six = 1 ∷ 2 ∷ 3 ∷ 4 ∷ 5 ∷ 6 ∷ []

virtio_net_rx_callback_delivers_example :
    (ndev' : NetDev) × (vq' : Virtqueue) × (mem' : ℕ → ℕ) × (virtio_net_rx_callback 1
        (λ vq. vq)
        no_iov
        2
        16
        six
        ndev
        (queue_of buffers)
        (λ a. 0)
      ≡ (true, done (ndev', vq', mem')))
    × Delivered six two_buffers (queue_of buffers) vq' (λ a. 0) mem'
virtio_net_rx_callback_delivers_example =
    virtio_net_rx_callback_delivers 1 (λ vq. vq) no_iov 2 16 1 (2 ∷ 3 ∷ 4 ∷ 5 ∷ 6 ∷ []) two_buffers
      ndev (queue_of buffers) (λ a. 0) (omega arith) refl (omega arith) four_divides (omega arith)
      (omega arith) two_buffers-Supplied two_buffers-Disjoint two_buffers_size (omega arith)

-- The chain 1, 2 with flags of each.
abbrev pair : ℕ → ℕ → ℕ → Desc
pair f g zero = record { addr = 0; len = 0; flags = 0; next = 0 }
pair f g (suc zero) = record { addr = 100; len = 10; flags = f; next = 2 }
pair f g (suc (suc i)) = record { addr = 200; len = 15; flags = g; next = 3 }

abbrev to_write : List Desc
to_write = pair 3 2 1 ∷ pair 3 2 2 ∷ []

virtio_net_rx_callback_overruns_example :
    virtio_net_rx_callback 2 (λ vq. vq) no_iov 1 16 six ndev (queue_of (pair 3 2)) (λ a. 0)
    ≡ (true, overrun)
virtio_net_rx_callback_overruns_example =
    virtio_net_rx_callback_overruns 2 (λ vq. vq) no_iov 0 16 six to_write ndev (queue_of (pair 3 2))
      (λ a. 0) refl (omega arith) (omega arith) (Chain.link 1 refl (Chain.last 2 refl))
      (omega arith) (omega arith) (omega arith)

abbrev config : PortConfig
config = record { is_local = true; mac_addr = 0 ∷ 4 ∷ 159 ∷ 0 ∷ 0 ∷ 1 ∷ []; dev_end_on = true }

abbrev switch : Net
switch = record {
  remote_port = none;
  local_port_list = new_port 1 config ∷ new_port 2 config ∷ [];
  heap = record { fresh = 10; made = []; freed = []; released = []; halted = false };
}

abbrev to_send : TxState
to_send = record { ndev = ndev; vq = queue_of (pair 1 0); net = switch }

-- The header, the address, and the place for the answer.
abbrev command_descs : ℕ → Desc
command_descs zero = record { addr = 300; len = 1; flags = 2; next = 0 }
command_descs (suc zero) = record { addr = 100; len = 2; flags = 1; next = 2 }
command_descs (suc (suc i)) = record { addr = 200; len = 6; flags = 1; next = 0 }

abbrev commanded : CtrlState
commanded = record {
  ctrl = record { class = 0; cmd = 0 };
  vq = queue_of command_descs;
  mem = λ a. 1;
  net = switch;
  ops = [];
  interrupts = 0;
}

ports_named : port_at (local 1) switch ≡ some (new_port 1 config)
unfolding port_at
ports_named = refl

ctrl_round_sets_addr_example :
    (s' : CtrlState) × (ctrl_round (local 1) no_iov commanded ≡ some (s', true))
    × AddressSet (local 1) (1 ∷ 1 ∷ 1 ∷ 1 ∷ 1 ∷ 1 ∷ []) (new_port 1 config) commanded s'
    × (s'.mem ≡ put 300 (0 ∷ []) (λ a. 1))
    × (read_used 65535 1 s'.vq.vring ≡ record { id = 1; len = 1 } ∷ [])
    × (s'.vq.vring.used_idx ≡ u16 65536)
ctrl_round_sets_addr_example =
    ctrl_round_sets_addr (local 1) no_iov commanded (new_port 1 config) (command_descs 1)
      (command_descs 2) (command_descs 0) ports_named (omega arith)
      (Chain.link 1 refl (Chain.link 2 refl (Chain.last 0 refl))) refl refl refl (omega arith)
      (omega arith) (omega arith) refl refl four_divides (omega arith) (omega arith)
