-- ===== src/Ptp/TxTs.antt =====
-- handle_tx_ts and genavb_retrieve_ptp_ts of net/ptp_stack/ptp_multisoc_stack.c: the time stamp of a
-- frame that was sent goes back to the host in a frame of its own.
pub mod Laws
use heterogeneous_multicore.Base.{
  ℕ, ◌+◌, ◌*◌, ◌%◌, ◌^◌, Bool, List, [], ◌∷◌, ◌++◌, Option, none, some, length,
}
use heterogeneous_multicore.Net.DataPkt.{DataPkt, copy, can_free_bit, data_pkt_alloc}
use heterogeneous_multicore.Net.Port.{u64_inc}
use heterogeneous_multicore.Net.Software.{soft_vport_in_nocpy, soft_vport_in_kick}
use heterogeneous_multicore.Ptp.Tag.{
  mac_addr_total_length, bytes_of, timestamp_length, htons, htonl, htonll, dsa_8021q_tpid,
}
use heterogeneous_multicore.Ptp.Receive.{RxState}

abbrev pub ptp_multicast_addr : List ℕ
ptp_multicast_addr = 0x01 ∷ 0x80 ∷ 0xC2 ∷ 0x00 ∷ 0x00 ∷ 0x0E ∷ []

-- DSA_TO_HOST_TX_TS_TAG_LEN
abbrev pub tx_ts_tag_len : ℕ
tx_ts_tag_len = 24

-- `struct eth_hdr` with dsa_to_host_tx_ts_frame, up to its ts_id; 0x0800 is
-- DSA_TO_HOST_TX_TS_DEFAULT_DSA.
unfoldable pub tx_ts_frame : List ℕ → ℕ → ℕ → ℕ → ℕ → List ℕ
tx_ts_frame hwaddr hardware_id gptp_time ts ts_priv =
    ptp_multicast_addr
    ++ hwaddr
    ++ bytes_of 2 (htons dsa_8021q_tpid)
    ++ bytes_of 2 (htons (0x0800 + hardware_id % 16))
    ++ bytes_of timestamp_length (htonll gptp_time)
    ++ bytes_of timestamp_length (htonll ts)
    ++ bytes_of 4 (htonl ts_priv)

-- `gptp_time` is what genavb_clock_convert makes of a time stamp, and `hwaddr` what
-- genavb_socket_get_hwaddr gives for the port's logical number.
module _ (malloc : ℕ → Bool) (gptp_time : ℕ → ℕ) (hwaddr : List ℕ) (hardware_id : ℕ) where
  abbrev pub count_tx_ts : RxState → RxState
  count_tx_ts s = record s {
    priv_stats = record (s.priv_stats) { tx_ts_pkts = u64_inc s.priv_stats.tx_ts_pkts };
  }

  unfoldable pub send_up : DataPkt → RxState → RxState
  send_up pkt s =
      let (v1, n1) = soft_vport_in_nocpy malloc s.vport_dev pkt s.net in
      let (v2, n2) = soft_vport_in_kick v1 n1 in count_tx_ts (record s { vport_dev = v2; net = n2 })

  -- The packet with the frame in it.
  abbrev pub written : ℕ → ℕ → DataPkt → DataPkt
  written ts ts_priv pkt =
      let frame = tx_ts_frame hwaddr hardware_id (gptp_time ts) ts ts_priv in
      record pkt {
        bytes = copy (length frame) frame pkt.bytes;
        data_len = mac_addr_total_length + tx_ts_tag_len;
      }

  abbrev pub with_pkt : ℕ → ℕ → Option DataPkt → RxState → RxState
  with_pkt ts ts_priv none s = s
  with_pkt ts ts_priv (some pkt) s = send_up (written ts ts_priv pkt) s

  unfoldable pub handle_tx_ts : ℕ → ℕ → RxState → RxState
  handle_tx_ts ts ts_priv s =
      let (pkt, h) =
        data_pkt_alloc malloc (mac_addr_total_length + tx_ts_tag_len) (2 ^ can_free_bit)
          s.net.heap in
      with_pkt ts ts_priv pkt (record s { net = record (s.net) { heap = h } })

  -- The inner loop of genavb_retrieve_ptp_ts, over what genavb_socket_tx_get_ts gives until it fails:
  -- a time stamp and the number of its frame.
  unfoldable pub genavb_retrieve_ptp_ts : List (ℕ × ℕ) → RxState → RxState
  genavb_retrieve_ptp_ts [] s = s
  genavb_retrieve_ptp_ts ((ts, ts_priv) ∷ rest) s =
      genavb_retrieve_ptp_ts rest (handle_tx_ts ts ts_priv s)
