-- ===== src/Net/Switch.antt =====
-- net/net_switch.c: how the switch takes a packet in from a port and hands it to the others.
pub mod Counts
pub mod Ownership
pub mod Group
pub mod Delivery
pub mod Unicast
use heterogeneous_multicore.Base.{
  ℕ, zero, suc, ◌+◌, Bool, true, false, not, ◌&&◌, List, [], ◌∷◌, ◌++◌, Option, none, some, ◌==◌,
  if◌then◌else◌, map, length, ◌^◌,
}
use heterogeneous_multicore.Net.DataPkt.{
  DataPkt, Heap, copy, data_pkt_alloc, data_pkt_clone, data_pkt_set_len, data_pkt_free,
  can_free_bit,
}
use heterogeneous_multicore.Net.Port.{
  SwitchPort, PktsStat, cmp_mac_addr, is_broadcast_pkt, is_multicast_pkt, cable_link_is_on,
  port_out_pkt, notify_port, fdb_has, u64_inc,
}

-- `struct switch_device` with its ports, and the allocator.
pub record Net : Type 0 where
  pub remote_port : Option SwitchPort
  pub local_port_list : List SwitchPort
  pub heap : Heap

-- A pointer to a port of the device: the remote port, or the local port of that id.
pub data Ref : Type 0 where
  remote : Ref
  local : ℕ → Ref

abbrev pub src_is_local : Ref → Bool
src_is_local remote = false
src_is_local (local id) = true

abbrev pub map_option : (SwitchPort → SwitchPort) → Option SwitchPort → Option SwitchPort
map_option f none = none
map_option f (some p) = some (f p)

-- A write through a pointer to a local port.
unfoldable pub on_local : ℕ → (SwitchPort → SwitchPort) → List SwitchPort → List SwitchPort
on_local id f [] = []
on_local id f (p ∷ ps) = if p.id == id then f p ∷ ps else p ∷ on_local id f ps

unfoldable pub on_port : Ref → (SwitchPort → SwitchPort) → Net → Net
on_port remote f net = record net { remote_port = map_option f net.remote_port }
on_port (local id) f net = record net { local_port_list = on_local id f net.local_port_list }

-- The port that a pointer leads to.
unfoldable pub local_at : ℕ → List SwitchPort → Option SwitchPort
local_at id [] = none
local_at id (p ∷ ps) = if p.id == id then some p else local_at id ps

unfoldable pub port_at : Ref → Net → Option SwitchPort
unfolding local_at
port_at remote net = net.remote_port
port_at (local id) net = local_at id net.local_port_list

-- The first local port that is on and has the address.
unfoldable pub find_local : List ℕ → List SwitchPort → Option SwitchPort
find_local mac [] = none
find_local mac (p ∷ ps) =
    if p.power_on && cmp_mac_addr mac p.mac_addr then some p else find_local mac ps

abbrev pub or_remote : Bool → Option SwitchPort → Option (Ref × SwitchPort)
or_remote true (some p) = some (remote, p)
or_remote true none = none
or_remote false p = none

unfoldable pub find_dst_port : Net → Ref → List ℕ → Option (Ref × SwitchPort)
find_dst_port net src mac = elim (find_local mac net.local_port_list) [
  | some p ↦ some (local p.id, p)
  | none ↦ or_remote (src_is_local src) net.remote_port
]

unfoldable pub notify_ports : Net → Net
notify_ports net = record net {
  remote_port = map_option notify_port net.remote_port;
  local_port_list = map notify_port net.local_port_list;
}

abbrev pub free_if : Bool → DataPkt → Heap → Heap
free_if need_free pkt h = if need_free then data_pkt_free pkt h else h

-- The remote port takes the packet itself if its link is on.
abbrev pub to_remote : Option SwitchPort → DataPkt → Option SwitchPort × Bool
to_remote none pkt = (none, true)
to_remote (some p) pkt =
    if cable_link_is_on p then (some (port_out_pkt p pkt), false) else (some p, true)

abbrev pub count_dropped : SwitchPort → SwitchPort
count_dropped p = record p { stats = record (p.stats) { in_dropped = u64_inc p.stats.in_dropped } }

abbrev pub discard : Ref → DataPkt → Net → Net
discard src pkt net = on_port src count_dropped (record net { heap = data_pkt_free pkt net.heap })

-- The packet goes to the port that was found, if its link is on.
unfoldable pub send_to : Option (Ref × SwitchPort) → Ref → DataPkt → Net → Net
send_to none src pkt net = discard src pkt net
send_to (some (dst, p)) src pkt net =
    if cable_link_is_on p then on_port dst (λ q. port_out_pkt q pkt) net else discard src pkt net

unfoldable pub unicast_pkt : Ref → DataPkt → Net → Net
unicast_pkt src pkt net = send_to (find_dst_port net src pkt.bytes) src pkt net

abbrev pub count_in : SwitchPort → SwitchPort
count_in p = record p { stats = record (p.stats) { in_count = u64_inc p.stats.in_count } }

module _ (malloc : ℕ → Bool) where
  abbrev out_clone : SwitchPort → Option DataPkt × Heap → SwitchPort × Heap
  out_clone p (none, h) = (p, h)
  out_clone p (some cloned_pkt, h) = (port_out_pkt p cloned_pkt, h)

  -- A port that wants the packet gets a clone, if there is memory for it.
  unfoldable pub clone_to : Bool → DataPkt → SwitchPort → Heap → SwitchPort × Heap
  clone_to wants pkt p h = if wants then out_clone p (data_pkt_clone malloc pkt h) else (p, h)

  -- The loop over the local ports for a packet from a local port.
  unfoldable pub to_others :
      (SwitchPort → Bool) → DataPkt → List SwitchPort → Heap → List SwitchPort × Heap
  to_others wants pkt [] h = ([], h)
  to_others wants pkt (p ∷ ps) h =
      let (p', h') = clone_to (wants p) pkt p h in
      let (ps', h'') = to_others wants pkt ps h' in (p' ∷ ps', h'')

  -- The loop for a packet from the remote port: the last port of the list takes the packet itself.
  -- The Boolean is need_free.
  unfoldable pub to_locals :
      (SwitchPort → Bool) → DataPkt → List SwitchPort → Heap → List SwitchPort × Heap × Bool
  to_locals wants pkt [] h = ([], h, true)
  to_locals wants pkt (p ∷ []) h =
      if wants p then (port_out_pkt p pkt ∷ [], h, false) else (p ∷ [], h, true)
  to_locals wants pkt (p ∷ q ∷ ps) h =
      let (p', h') = clone_to (wants p) pkt p h in
      let (ps', h'', need_free) = to_locals wants pkt (q ∷ ps) h' in (p' ∷ ps', h'', need_free)

  abbrev pub from_local : (SwitchPort → Bool) → DataPkt → Net → Net
  from_local wants pkt net =
      let (ps, h) = to_others wants pkt net.local_port_list net.heap in
      let (r, need_free) = to_remote net.remote_port pkt in
      record { remote_port = r; local_port_list = ps; heap = free_if need_free pkt h }

  abbrev pub from_remote : (SwitchPort → Bool) → DataPkt → Net → Net
  from_remote wants pkt net =
      let (ps, h, need_free) = to_locals wants pkt net.local_port_list net.heap in
      record net { local_port_list = ps; heap = free_if need_free pkt h }

  unfoldable pub broadcast_pkt : Ref → DataPkt → Net → Net
  broadcast_pkt (local id) pkt net =
      from_local (λ p. not (p.id == id) && cable_link_is_on p) pkt net
  broadcast_pkt remote pkt net = from_remote cable_link_is_on pkt net

  unfoldable pub multicast_pkt : Ref → DataPkt → Net → Net
  multicast_pkt (local id) pkt net =
      from_local
        (λ p.
          not (p.id == id) && cable_link_is_on p && p.fdb_enabled && fdb_has p.fdb_table pkt.bytes)
        pkt net
  multicast_pkt remote pkt net =
      from_remote (λ p. cable_link_is_on p && fdb_has p.fdb_table pkt.bytes) pkt net

  unfoldable pub switch_pkt : Ref → DataPkt → Net → Net
  switch_pkt src pkt net =
      if is_broadcast_pkt pkt.bytes
      then broadcast_pkt src pkt net
      else if is_multicast_pkt pkt.bytes
      then multicast_pkt src pkt net
      else unicast_pkt src pkt net

  unfoldable pub port_in_pkt_nocpy : Ref → DataPkt → Bool → Net → Net
  port_in_pkt_nocpy src pkt notify net =
      let net' = switch_pkt src pkt (on_port src count_in net) in
      if notify then notify_ports net' else net'

  received : Ref → List ℕ → Bool → Option DataPkt → Net → Net
  received src frame notify none net = net
  received src frame notify (some pkt) net =
      let filled = record pkt { bytes = copy (length frame) frame pkt.bytes } in
      port_in_pkt_nocpy src (data_pkt_set_len filled (length frame)) notify net

  abbrev receive : Ref → List ℕ → Bool → Net → Option DataPkt × Heap → Net
  receive src frame notify net (pkt, h) = received src frame notify pkt (record net { heap = h })

  unfoldable pub port_in_pkt : Ref → List ℕ → Bool → Net → Net
  unfolding received
  port_in_pkt src frame notify net = elim (port_at src net) [
    | none ↦ net
    | some p ↦
        if p.power_on
        then receive src frame notify net
            (data_pkt_alloc malloc (length frame) (2 ^ can_free_bit) net.heap)
        else net
  ]
