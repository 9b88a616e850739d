-- ===== src/Ptp/Receive.antt =====
-- genavb_receive_pkts of net/ptp_stack/ptp_multisoc_stack.c: frames of the sockets go into the switch.
pub mod Laws
use heterogeneous_multicore.Base.{
  ℕ, ◌+◌, ◌%◌, ◌^◌, Bool, true, false, not, ◌&&◌, List, [], ◌∷◌, ◌++◌, Option, none, some, ◌==◌,
  if◌then◌else◌, test_bit, length,
}
use heterogeneous_multicore.Base.Bytes.{take, drop}
use heterogeneous_multicore.Net.DataPkt.{
  DataPkt, Heap, copy, can_free_bit, data_pkt_alloc, data_pkt_set_len, data_pkt_free,
}
use heterogeneous_multicore.Net.Port.{u64_inc}
use heterogeneous_multicore.Net.Switch.{Net}
use heterogeneous_multicore.Net.Software.{SoftVportDev, soft_vport_in_nocpy, soft_vport_in_kick}
use heterogeneous_multicore.Ptp.Tag.{
  mac_addr_total_length, bytes_of, vlan_tag_length, dsa_tag_length, timestamp_length, vlan_tag,
  dsa_to_host_rx_ts_tag, htonll,
}
use heterogeneous_multicore.Ptp.Host.{PrivStats}

abbrev pub max_frame_len : ℕ
max_frame_len = 1518

-- The bits of GENAVB_PORT_FLAGS_RX_INSERT_VLAN and GENAVB_PORT_FLAGS_RX_INSERT_DSA.
abbrev pub rx_insert_vlan_bit : ℕ
rx_insert_vlan_bit = 1

abbrev pub rx_insert_dsa_bit : ℕ
rx_insert_dsa_bit = 3

-- `struct socket_rx_dev`, with what is read of its port.
pub record SocketRxDev : Type 0 where
  pub is_ptp_sock : Bool
  pub is_bridge_port : Bool
  pub bridge_port_index : ℕ

-- What genavb_socket_rx gives: a frame with its time stamp, -GENAVB_ERR_SOCKET_AGAIN, or an error.
pub data Rx : Type 0 where
  frame : List ℕ → ℕ → Rx
  again failed : Rx

pub record RxState : Type 0 where
  pub vport_dev : SoftVportDev
  pub net : Net
  pub priv_stats : PrivStats

-- What Ptp.Tag.insert_bytes does to the bytes of a packet.
abbrev pub with_tag : List ℕ → DataPkt → DataPkt
with_tag tag pkt = record pkt {
  bytes = take mac_addr_total_length pkt.bytes ++ tag ++ drop mac_addr_total_length pkt.bytes;
  room = pkt.room + length tag;
  data_len = (pkt.data_len + length tag) % 2 ^ 32;
}

-- `flags` are the device's; `gptp_time` is what genavb_clock_convert makes of a time stamp.
module _ (flags : ℕ) (gptp_time : ℕ → ℕ) (sock : SocketRxDev) where
  unfoldable pub tagged : ℕ → DataPkt → DataPkt
  tagged ts pkt =
      let src_port = sock.bridge_port_index % 2 ^ 8 in
      let pkt1 =
        if test_bit flags rx_insert_vlan_bit && not sock.is_ptp_sock
        then with_tag (bytes_of vlan_tag_length (vlan_tag src_port)) pkt
        else pkt in
      let pkt2 =
        if test_bit flags rx_insert_dsa_bit && sock.is_ptp_sock
        then with_tag
            (bytes_of dsa_tag_length (dsa_to_host_rx_ts_tag src_port)
              ++ bytes_of timestamp_length (htonll (gptp_time ts))
              ++ bytes_of timestamp_length (htonll ts))
            pkt1
        else pkt1 in
      if sock.is_bridge_port then pkt2 else pkt

  abbrev pub filled : List ℕ → DataPkt → DataPkt
  filled bytes pkt =
      data_pkt_set_len (record pkt { bytes = copy (length bytes) bytes pkt.bytes }) (length bytes)

  module _ (malloc : ℕ → Bool) where
    -- soft_vport_in_nocpy, the count, and soft_vport_in_kick.
    unfoldable pub hand_over : DataPkt → RxState → RxState
    hand_over pkt s =
        let (v1, n1) = soft_vport_in_nocpy malloc s.vport_dev pkt s.net in
        let (v2, n2) = soft_vport_in_kick v1 n1 in
        record {
          vport_dev = v2;
          net = n2;
          priv_stats = record (s.priv_stats) { rx_pkts = u64_inc s.priv_stats.rx_pkts };
        }

    abbrev pub give_back : DataPkt → RxState → RxState
    give_back pkt s = record s { net = record (s.net) { heap = data_pkt_free pkt s.net.heap } }

    -- The rest of a round once the packet is there or not; the Boolean is `status == NET_OK`.
    abbrev pub received : Rx → Option DataPkt → RxState → RxState × Bool
    received r none s = (s, false)
    received (frame bytes ts) (some pkt) s = (hand_over (tagged ts (filled bytes pkt)) s, true)
    received again (some pkt) s = (give_back pkt s, false)
    received failed (some pkt) s = (
      give_back pkt (record s {
        priv_stats = record (s.priv_stats) { rx_err_pkts = u64_inc s.priv_stats.rx_err_pkts };
      }),
      false,
    )

    unfoldable pub rx_round : Rx → RxState → RxState × Bool
    rx_round r s =
        let (pkt, h) = data_pkt_alloc malloc max_frame_len (2 ^ can_free_bit) s.net.heap in
        received r pkt (record s { net = record (s.net) { heap = h } })

    -- The inner loop, over what the socket gives; a socket with nothing more gives `again`.
    unfoldable pub genavb_receive_pkts : List Rx → RxState → RxState
    genavb_receive_pkts [] s = (rx_round again s).0
    genavb_receive_pkts (r ∷ rs) s =
        let (s', more) = rx_round r s in
        let rest = genavb_receive_pkts rs s' in if more then rest else s'
