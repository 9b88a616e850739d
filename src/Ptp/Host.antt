-- ===== src/Ptp/Host.antt =====
-- genavb_host_to_sw_stack of net/ptp_stack/ptp_multisoc_stack.c: a frame of the host, with a tag that
-- says to which port of the switch it goes, is sent through the sockets of the PTP stack; and
-- genavb_socket_output, which sends a frame as it is.
pub mod Requests
pub mod Dealt
pub mod Laws
use heterogeneous_multicore.Base.{
  ℕ, ◌+◌, ◌*◌, ◌%◌, ◌^◌, Bool, true, false, ◌&&◌, List, [], ◌∷◌, Option, none, some, ◌==◌,
  if◌then◌else◌, test_bit,
}
use heterogeneous_multicore.Base.Bytes.{bytes_at}
use heterogeneous_multicore.Net.Port.{u64_inc}
use heterogeneous_multicore.Ptp.Tag.{
  Frame, mac_addr_total_length, vlan_tag_length, htons, htonl, ethertype_vlan, dsa_8021q_tpid,
  remove_tag,
}

-- `struct genavb_priv_stats`
pub record PrivStats : Type 0 where
  pub rx_pkts : ℕ
  pub rx_err_pkts : ℕ
  pub tx_pkts : ℕ
  pub tx_err_pkts : ℕ
  pub meta_rx_pkts : ℕ
  pub invalid_host_pkts : ℕ
  pub tx_ts_pkts : ℕ

-- `struct gen_avb_port_dev`: what this function reads of it, the sockets by name.
pub record PortDev : Type 0 where
  pub hardware_id : ℕ
  pub sock_tx : ℕ
  pub sock_tx_ptp : ℕ

-- `struct gen_avb_device`: the arrays of ports hold as many as their counts say.
pub record GenavbDev : Type 0 where
  pub flags : ℕ
  pub endpoint_port : List PortDev
  pub bridge_port : List PortDev
  pub priv_stats : PrivStats

-- The bits of GENAVB_PORT_FLAGS_PTP_SOCKET, _TX_REMOVE_VLAN and _TX_REMOVE_DSA.
abbrev pub ptp_socket_bit : ℕ
ptp_socket_bit = 2

abbrev pub tx_remove_vlan_bit : ℕ
tx_remove_vlan_bit = 4

abbrev pub tx_remove_dsa_bit : ℕ
tx_remove_dsa_bit = 5

-- The bits that DSA_TO_SW_META and DSA_TO_SW_TAKE_TS test.
abbrev pub meta_bit : ℕ
meta_bit = 14

abbrev pub take_ts_bit : ℕ
take_ts_bit = 11

-- The lengths of the tags, without and with a time stamp's number.
abbrev pub nonts_tag_len : ℕ
nonts_tag_len = 4

abbrev pub ts_tag_len : ℕ
ts_tag_len = 8

abbrev pub load16 : (ℕ → ℕ) → ℕ → ℕ
load16 mem a = mem a + mem (a + 1) * 256

-- The fields of `struct eth_hdr`, in the byte order of the machine.
unfoldable pub ether_type : Frame → ℕ
ether_type f = htons (load16 f.mem (f.data_addr + mac_addr_total_length))

unfoldable pub dsa_custom : Frame → ℕ
dsa_custom f = htons (load16 f.mem (f.data_addr + mac_addr_total_length + 2))

unfoldable pub ts_id : Frame → ℕ
ts_id f =
    let a = f.data_addr + mac_addr_total_length + 4 in
    htonl (load16 f.mem a + load16 f.mem (a + 2) * 2 ^ 16)

-- What the tag of a frame asks for.
pub data Request : Type 0 where
  meta : Request
  malformed : Frame → Request
  to_port : Frame → ℕ → Option ℕ → Request
  to_endpoint : Frame → Request

abbrev pub untagged : Frame × Bool → ℕ → Option ℕ → Request
untagged (f, true) dst_port ts_priv = to_port f dst_port ts_priv
untagged (f, false) dst_port ts_priv = malformed f

-- A PTP frame; its number is there where its time stamp is to be taken.
unfoldable pub dsa_request : Frame → Request
dsa_request f =
    let custom = dsa_custom f in
    if test_bit custom meta_bit
    then meta
    else if test_bit custom take_ts_bit
    then untagged (remove_tag f ts_tag_len) (custom % 16) (some (ts_id f))
    else untagged (remove_tag f nonts_tag_len) (custom % 16) none

-- The two tests are on the type that is read at first, so at most one of them holds.
unfoldable pub request : ℕ → Frame → Request
request flags f =
    if ether_type f == ethertype_vlan && test_bit flags tx_remove_vlan_bit
    then untagged (remove_tag f vlan_tag_length) (dsa_custom f % 16) none
    else if ether_type f == dsa_8021q_tpid && test_bit flags tx_remove_dsa_bit
    then dsa_request f
    else to_endpoint f

-- find_switch_port_idx, with the port at that index.
unfoldable pub find_switch_port : List PortDev → ℕ → Option PortDev
find_switch_port [] logical_id = none
find_switch_port (p ∷ ps) logical_id =
    if logical_id == p.hardware_id then some p else find_switch_port ps logical_id

-- The calls of genavb_socket_tx and of genavb_socket_tx_send with GENAVB_SOCKET_TX_TS.
pub data Sent : Type 0 where
  tx : ℕ → List ℕ → Sent
  tx_send : ℕ → List ℕ → ℕ → Sent

-- The answer 0 (true) or -1 (false), the device, the frame, and the calls of the stack.
pub record Outcome : Type 0 where
  pub answer : Bool
  pub dev : GenavbDev
  pub sent : List Sent

abbrev pub frame_bytes : Frame → List ℕ
frame_bytes f = bytes_at f.data_addr f.data_len f.mem

abbrev pub count_tx : PrivStats → PrivStats
count_tx s = record s { tx_pkts = u64_inc s.tx_pkts }

abbrev pub count_tx_err : PrivStats → PrivStats
count_tx_err s = record s { tx_err_pkts = u64_inc s.tx_err_pkts }

abbrev pub count_meta : PrivStats → PrivStats
count_meta s = record s { meta_rx_pkts = u64_inc s.meta_rx_pkts }

abbrev pub count_invalid : PrivStats → PrivStats
count_invalid s = record s { invalid_host_pkts = u64_inc s.invalid_host_pkts }

abbrev pub ends : Bool → (PrivStats → PrivStats) → GenavbDev → List Sent → Outcome
ends answer count dev sent = record {
  answer = answer;
  dev = record dev { priv_stats = count dev.priv_stats };
  sent = sent;
}

-- Which call is made for a port.
unfoldable pub call_of : ℕ → PortDev → Frame → Option ℕ → Sent
call_of flags p f none = tx p.sock_tx (frame_bytes f)
call_of flags p f (some ts_priv) =
    if test_bit flags ptp_socket_bit
    then tx_send p.sock_tx_ptp (frame_bytes f) ts_priv
    else tx p.sock_tx (frame_bytes f)

-- `success` says which calls of the PTP stack give GENAVB_SUCCESS.
module _ (success : Sent → Bool) where
  unfoldable pub transmit : GenavbDev → Sent → Outcome
  transmit dev s =
      if success s then ends true count_tx dev (s ∷ []) else ends false count_tx_err dev (s ∷ [])

  -- To the port that was found.
  abbrev pub to_found : GenavbDev → Frame → Option ℕ → Option PortDev → Outcome
  to_found dev f ts_priv none = ends false count_invalid dev []
  to_found dev f ts_priv (some p) = transmit dev (call_of dev.flags p f ts_priv)

  -- To the first endpoint port; a device without one counts the frame all the same.
  abbrev pub to_first : GenavbDev → Frame → List PortDev → Outcome
  to_first dev f [] = ends true count_tx dev []
  to_first dev f (p ∷ ps) = transmit dev (tx p.sock_tx (frame_bytes f))

  unfoldable pub serve : GenavbDev → Request → Outcome
  serve dev meta = ends true count_meta dev []
  serve dev (malformed f) = ends false count_invalid dev []
  serve dev (to_port f dst_port ts_priv) =
      to_found dev f ts_priv (find_switch_port dev.bridge_port dst_port)
  serve dev (to_endpoint f) = to_first dev f dev.endpoint_port

  unfoldable pub genavb_host_to_sw_stack : GenavbDev → Frame → Outcome
  genavb_host_to_sw_stack dev f = serve dev (request dev.flags f)

-- The port that genavb_socket_output sends by: the only port of the bridge, or the only endpoint port.
abbrev pub single : List PortDev → Option PortDev
single [] = none
single (p ∷ []) = some p
single (p ∷ q ∷ ps) = none

abbrev pub out_port : Option PortDev → Option PortDev → Option PortDev
out_port none endpoint = endpoint
out_port (some p) endpoint = some p

module _ (success : Sent → Bool) where
  abbrev pub output_by : GenavbDev → Frame → Option PortDev → Outcome
  output_by dev f none = record { answer = false; dev = dev; sent = [] }
  output_by dev f (some p) = transmit success dev (tx p.sock_tx (frame_bytes f))

  unfoldable pub genavb_socket_output : GenavbDev → Frame → Outcome
  genavb_socket_output dev f =
      output_by dev f (out_port (single dev.bridge_port) (single dev.endpoint_port))
