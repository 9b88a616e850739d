-- ===== src/Ptp/Tag.antt =====
-- The tags that net/ptp_stack/ptp_multisoc_stack.c puts into frames and takes out, on the bytes of
-- memory, with the fields of net/ptp_stack/dsa_net_protocol.h. The machine is little-endian.
pub mod Laws
use heterogeneous_multicore.Base.{
  ℕ, zero, suc, ◌+◌, ◌-◌, ◌*◌, ◌/◌, ◌%◌, ◌^◌, Bool, true, false, List, [], ◌∷◌, ◌++◌, leb, ◌==◌,
  if◌then◌else◌, length, update,
}
use heterogeneous_multicore.Base.Bytes.{put}

-- What the code moves of a packet: where its data begins, its length, and the memory.
pub record Frame : Type 0 where
  pub mem : ℕ → ℕ
  pub data_addr : ℕ
  pub data_len : ℕ

abbrev pub mac_addr_total_length : ℕ
mac_addr_total_length = 12

abbrev pub vlan_tag_length : ℕ
vlan_tag_length = 4

abbrev pub dsa_tag_length : ℕ
dsa_tag_length = 4

abbrev pub timestamp_length : ℕ
timestamp_length = 8

-- `*(data - insert_size) = *data; data++`, n times.
unfoldable pub move_forward : ℕ → ℕ → ℕ → (ℕ → ℕ) → ℕ → ℕ
move_forward zero data_at k mem = mem
move_forward (suc n) data_at k mem =
    move_forward n (suc data_at) k (update mem (data_at - k) (mem data_at))

-- `*data_dst-- = *data_src--`, n times, down to the byte at `first`, which goes k bytes up.
unfoldable pub move_backward : ℕ → ℕ → ℕ → (ℕ → ℕ) → ℕ → ℕ
move_backward zero first k mem = mem
move_backward (suc n) first k mem =
    move_backward n first k (update mem (first + n + k) (mem (first + n)))

-- htons and ntohs
abbrev pub htons : ℕ → ℕ
htons x = x / 256 % 256 + x % 256 * 256

-- The bytes of a number in memory, the lowest first.
abbrev pub bytes_of : ℕ → ℕ → List ℕ
bytes_of zero x = []
bytes_of (suc n) x = x % 256 ∷ bytes_of n (x / 256)

-- htonl and htonll
abbrev pub htonl : ℕ → ℕ
htonl x = htons (x / 2 ^ 16 % 2 ^ 16) + htons (x % 2 ^ 16) * 2 ^ 16

abbrev pub htonll : ℕ → ℕ
htonll x = htonl (x % 2 ^ 32) * 2 ^ 32 + htonl (x / 2 ^ 32 % 2 ^ 32)

abbrev pub ethertype_vlan : ℕ
ethertype_vlan = 0x8100

abbrev pub dsa_8021q_tpid : ℕ
dsa_8021q_tpid = 0xDADC

-- VLAN_TAG: 0x0C00 | (port_id & 0xF), and the TPID, as the 32-bit word that is stored.
unfoldable pub vlan_tag : ℕ → ℕ
vlan_tag port_id = htons (0x0C00 + port_id % 16) * 2 ^ 16 + htons ethertype_vlan

-- DSA_TO_HOST_RX_TS_TAG: 0x1000 | (port_id & 0xF), and the TPID.
unfoldable pub dsa_to_host_rx_ts_tag : ℕ → ℕ
dsa_to_host_rx_ts_tag port_id = htons (0x1000 + port_id % 16) * 2 ^ 16 + htons dsa_8021q_tpid

-- The loops of the two functions that insert a tag, whose bytes are written one after the other.
unfoldable pub insert_bytes : List ℕ → Frame → Frame
insert_bytes tag f =
    let k = length tag in
    let moved = move_forward mac_addr_total_length f.data_addr k f.mem in
    record {
      mem = put (f.data_addr + mac_addr_total_length - k) tag moved;
      data_addr = f.data_addr - k;
      data_len = (f.data_len + k) % 2 ^ 32;
    }

unfoldable pub insert_vlan_tag : Frame → ℕ → Frame
unfolding insert_bytes vlan_tag
insert_vlan_tag f src_port = insert_bytes (bytes_of vlan_tag_length (vlan_tag src_port)) f

unfoldable pub insert_dsa_tag_ts : Frame → ℕ → ℕ → ℕ → Frame
unfolding insert_bytes dsa_to_host_rx_ts_tag
insert_dsa_tag_ts f src_port ns cycles =
    insert_bytes
      (bytes_of dsa_tag_length (dsa_to_host_rx_ts_tag src_port)
        ++ bytes_of timestamp_length (htonll ns)
        ++ bytes_of timestamp_length (htonll cycles))
      f

-- The answer is 0 (true) or -1 (false), where the frame is too short and stays as it is.
unfoldable pub remove_tag : Frame → ℕ → Frame × Bool
remove_tag f tag_len = if leb f.data_len (mac_addr_total_length + tag_len) then (f, false) else (
  record {
    mem = move_backward mac_addr_total_length f.data_addr tag_len f.mem;
    data_addr = f.data_addr + tag_len;
    data_len = f.data_len - tag_len;
  },
  true,
)
