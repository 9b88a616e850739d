-- ===== src/Ptp/Tests.antt =====
-- The PTP stack's side of the switch on small inputs: the theorems where their hypotheses hold.
use heterogeneous_multicore.Base.{
  ℕ, ◌+◌, ◌≡◌, refl, Bool, true, false, not, List, [], ◌∷◌, some, none, arith, ◌==◌,
}
use heterogeneous_multicore.Net.Switch.{Net, local}
use heterogeneous_multicore.Net.Ports.{PortConfig, new_port}
use heterogeneous_multicore.Ptp.Tag.{Frame, insert_vlan_tag}
use heterogeneous_multicore.Ptp.Tag.Laws.{content}
use heterogeneous_multicore.Ptp.Host.{
  PrivStats, PortDev, GenavbDev, Sent, tx, find_switch_port, genavb_host_to_sw_stack,
}
use heterogeneous_multicore.Ptp.Host.Dealt.{Dealt, genavb_host_to_sw_stack-Dealt}
use heterogeneous_multicore.Ptp.Host.Laws.{tagged_frame_returns}
use heterogeneous_multicore.Ptp.Sockets.{Socks, World, port_genavb_setup_sockets}
use heterogeneous_multicore.Ptp.Sockets.Laws.{IsClosed, Failed, port_genavb_setup_sockets-Failed}
use heterogeneous_multicore.Ptp.Receive.{SocketRxDev, frame, again, RxState, genavb_receive_pkts}
use heterogeneous_multicore.Ptp.Receive.Laws.{Owned, genavb_receive_pkts_owns}

-- Twenty bytes behind a hundred free ones.
abbrev short_frame : Frame
short_frame = record { mem = λ a. a; data_addr = 100; data_len = 20 }

abbrev tag : List ℕ
tag = 0x81 ∷ 0x00 ∷ 0x0C ∷ 0x02 ∷ []

abbrev no_stats : PrivStats
no_stats = record {
  rx_pkts = 0;
  rx_err_pkts = 0;
  tx_pkts = 0;
  tx_err_pkts = 0;
  meta_rx_pkts = 0;
  invalid_host_pkts = 0;
  tx_ts_pkts = 0;
}

abbrev port_of : ℕ → PortDev
port_of id = record { hardware_id = id; sock_tx = 10 + id; sock_tx_ptp = 20 + id }

-- Two ports of the bridge; VLAN tags are taken out.
abbrev bridge : GenavbDev
bridge = record {
  flags = 16;
  endpoint_port = [];
  bridge_port = port_of 1 ∷ port_of 2 ∷ [];
  priv_stats = no_stats;
}

abbrev always : Sent → Bool
always s = true

found : find_switch_port bridge.bridge_port 2 ≡ some (port_of 2)
unfolding find_switch_port
found = refl

tagged_frame_returns_example :
    let o = genavb_host_to_sw_stack always bridge (insert_vlan_tag short_frame 2) in
    (o.sent ≡ tx 12 (content short_frame) ∷ []) × (o.answer ≡ true)
tagged_frame_returns_example =
    tagged_frame_returns always bridge short_frame 2 (port_of 2) (omega arith) (omega arith)
      (omega arith) refl found

genavb_host_to_sw_stack-Dealt_example :
    let o = genavb_host_to_sw_stack always bridge (insert_vlan_tag short_frame 7) in
    Dealt bridge (insert_vlan_tag short_frame 7) always o.answer o.dev.priv_stats o.sent
genavb_host_to_sw_stack-Dealt_example =
    genavb_host_to_sw_stack-Dealt always bridge (insert_vlan_tag short_frame 7)

abbrev no_socks : Socks
no_socks = record {
  sock_tx = 0;
  sock_tx_opened = false;
  sock_rx = 0;
  sock_rx_opened = false;
  sock_tx_ptp = 0;
  sock_tx_ptp_opened = false;
  sock_rx_ptp = 0;
  sock_rx_ptp_opened = false;
}

no_socks-IsClosed : IsClosed no_socks
no_socks-IsClosed = record {
  tx_closed = refl;
  rx_closed = refl;
  tx_ptp_closed = refl;
  rx_ptp_closed = refl;
}

abbrev stack : World
stack = record { port = no_socks; calls = 0; open_socks = 99 ∷ [] }

-- The call that sets the callback of the receiving socket fails.
port_genavb_setup_sockets-Failed_example :
    Failed stack 2 (port_genavb_setup_sockets (λ n. not (n == 2)) true stack)
port_genavb_setup_sockets-Failed_example =
    port_genavb_setup_sockets-Failed (λ n. not (n == 2)) true stack 2 no_socks-IsClosed
      (omega arith) (refl, (refl, tt)) refl

abbrev config : PortConfig
config = record { is_local = true; mac_addr = 0 ∷ 4 ∷ 159 ∷ 0 ∷ 0 ∷ 1 ∷ []; dev_end_on = true }

abbrev switch : Net
switch = record {
  remote_port = none;
  local_port_list = new_port 1 config ∷ new_port 2 config ∷ [];
  heap = record { fresh = 10; made = []; freed = []; released = []; halted = false };
}

abbrev receiver : RxState
receiver = record {
  vport_dev = record { in_count = 0; in_threshhold = 4; port_dev = local 1 };
  net = switch;
  priv_stats = no_stats;
}

abbrev bridge_sock : SocketRxDev
bridge_sock = record { is_ptp_sock = false; is_bridge_port = true; bridge_port_index = 2 }

abbrev to_all : List ℕ
to_all = 255 ∷ 255 ∷ 255 ∷ 255 ∷ 255 ∷ 255 ∷ 0 ∷ 4 ∷ 159 ∷ 0 ∷ 0 ∷ 1 ∷ 8 ∷ 0 ∷ 7 ∷ []

-- A frame to everybody, and then nothing.
genavb_receive_pkts_owns_example :
    Owned 10 receiver (
      genavb_receive_pkts 2 (λ t. t) bridge_sock (λ n. true) (frame to_all 5 ∷ again ∷ []) receiver)
genavb_receive_pkts_owns_example =
    genavb_receive_pkts_owns 2 (λ t. t) bridge_sock (λ n. true) 10 (frame to_all 5 ∷ again ∷ [])
      receiver
