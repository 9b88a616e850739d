-- ===== src/Net/Port.antt =====
-- The ports of the virtual switch: `struct switch_port`, MAC addresses, and the queue of a port.
use heterogeneous_multicore.Base.{
  ℕ, zero, suc, ◌+◌, ◌%◌, ◌^◌, Bool, true, false, ◌&&◌, List, [], ◌∷◌, ◌++◌, ◌==◌, leb,
  if◌then◌else◌, length,
}
use heterogeneous_multicore.Net.DataPkt.{DataPkt}

abbrev pub mac_addr_len : ℕ
mac_addr_len = 6

-- An address is read byte by byte; a byte that is not there reads as 0.
abbrev pub first : List ℕ → ℕ
first [] = 0
first (x ∷ xs) = x

abbrev pub rest : List ℕ → List ℕ
rest [] = []
rest (x ∷ xs) = xs

unfoldable pub cmp_from : ℕ → List ℕ → List ℕ → Bool
cmp_from zero mac1 mac2 = true
cmp_from (suc n) mac1 mac2 =
    let same = cmp_from n (rest mac1) (rest mac2) in
    if first mac1 == first mac2 then same else false

unfoldable pub cmp_mac_addr : List ℕ → List ℕ → Bool
unfolding cmp_from
cmp_mac_addr mac1 mac2 = cmp_from mac_addr_len mac1 mac2

unfoldable pub all_ones : ℕ → List ℕ → Bool
all_ones zero mac = true
all_ones (suc n) mac = let more = all_ones n (rest mac) in if first mac == 0xff then more else false

unfoldable pub is_broadcast_pkt : List ℕ → Bool
unfolding all_ones
is_broadcast_pkt mac = all_ones mac_addr_len mac

unfoldable pub is_multicast_pkt : List ℕ → Bool
is_multicast_pkt mac = first mac == 0x01

-- `p_event_type_t`
pub data PortEvent : Type 0 where
  port_send port_stop : PortEvent

-- `struct port_pkts_stat`, 64-bit counters
pub record PktsStat : Type 0 where
  pub in_count : ℕ
  pub in_dropped : ℕ
  pub out_count : ℕ

abbrev pub u64_inc : ℕ → ℕ
u64_inc n = (n + 1) % 2 ^ 64

-- `struct switch_port`. `id` stands for the address of the structure, `dev_end_on` for what the
-- pointer of its cable points to, and `posted` holds the events handed to os_mq_send, in order.
pub record SwitchPort : Type 0 where
  pub id : ℕ
  pub stats : PktsStat
  pub is_local : Bool
  pub mac_addr : List ℕ
  pub power_on : Bool
  pub dev_end_on : Bool
  pub data_out : List DataPkt
  pub posted : List PortEvent
  pub fdb_enabled : Bool
  pub fdb_table : List (List ℕ)
  pub need_notify : Bool

unfoldable pub cable_link_is_on : SwitchPort → Bool
cable_link_is_on p = p.power_on && p.dev_end_on

abbrev pub post_event : PortEvent → SwitchPort → SwitchPort
post_event e p = record p { posted = p.posted ++ e ∷ [] }

unfoldable pub port_out_pkt : SwitchPort → DataPkt → SwitchPort
port_out_pkt p pkt =
    let q = record p { data_out = p.data_out ++ pkt ∷ [] } in
    if leb 10 (length q.data_out) then post_event port_send q else record q { need_notify = true }

-- One port's share of `notify_ports`.
unfoldable pub notify_port : SwitchPort → SwitchPort
notify_port p = if p.need_notify then post_event port_send (record p { need_notify = false }) else p

unfoldable pub fdb_has : List (List ℕ) → List ℕ → Bool
fdb_has [] mac = false
fdb_has (entry ∷ table) mac = if cmp_mac_addr entry mac then true else fdb_has table mac
