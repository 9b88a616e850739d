-- ===== src/Net/Ports.antt =====
-- The life of a port in net/net_switch.c: added, drained by its thread, removed.
pub mod Laws
pub mod Destroy
use heterogeneous_multicore.Base.{
  ℕ, zero, suc, ◌+◌, ◌%◌, ◌^◌, Bool, true, false, List, [], ◌∷◌, ◌++◌, Option, none, some, ◌==◌,
  if◌then◌else◌, test_bit, is_some,
}
use heterogeneous_multicore.Net.DataPkt.{DataPkt, Heap, data_pkt_free, can_free_bit}
use heterogeneous_multicore.Net.Port.{
  SwitchPort, PortEvent, port_send, port_stop, post_event, u64_inc, mac_addr_len,
}
use heterogeneous_multicore.Net.Switch.{Net}
use heterogeneous_multicore.Net.Fdb.{AddrOp, add, del, copy_mac, told}

-- `struct port_config`, the fields that the switch reads beside the callbacks.
pub record PortConfig : Type 0 where
  pub is_local : Bool
  pub mac_addr : List ℕ
  pub dev_end_on : Bool

-- switch_init_port (a zeroed structure) and what switch_add_port fills in.
abbrev pub new_port : ℕ → PortConfig → SwitchPort
new_port id config = record {
  id = id;
  stats = record { in_count = 0; in_dropped = 0; out_count = 0 };
  is_local = config.is_local;
  mac_addr = copy_mac mac_addr_len config.mac_addr;
  power_on = true;
  dev_end_on = config.dev_end_on;
  data_out = [];
  posted = [];
  fdb_enabled = false;
  fdb_table = [];
  need_notify = false;
}

-- A new remote port is told the address of every local port.
abbrev pub tell_all : List SwitchPort → List AddrOp
tell_all [] = []
tell_all (p ∷ ps) = add p.mac_addr ∷ tell_all ps

-- switch_init_port and switch_add_port, with the calls of setup_address_cb.
unfoldable pub switch_add_port : ℕ → PortConfig → Net → Net × List AddrOp
switch_add_port id config net =
    if config.is_local
    then (
      record net { local_port_list = net.local_port_list ++ new_port id config ∷ [] },
      told (is_some net.remote_port) (add (copy_mac mac_addr_len config.mac_addr)),
    )
    else (record net { remote_port = some (new_port id config) }, tell_all net.local_port_list)

-- The packets of a queue that may be freed are, in order.
unfoldable pub free_all : List DataPkt → Heap → Heap
free_all [] h = h
free_all (pkt ∷ q) h =
    free_all q (if test_bit pkt.flags can_free_bit then data_pkt_free pkt h else h)

-- The packets that stay in the queue of a port once it has been drained.
unfoldable pub retained : List DataPkt → List DataPkt
retained [] = []
retained (pkt ∷ q) = if test_bit pkt.flags can_free_bit then retained q else pkt ∷ retained q

abbrev pub count_out : ℕ → List DataPkt → ℕ
count_out n [] = n
count_out n (pkt ∷ q) = count_out (u64_inc n) q

-- One PORT_SEND event of port_process_pkts: every packet goes to port_out_cb, which is other code.
-- The result has the packets handed to it, in order.
unfoldable pub drain : SwitchPort → Heap → SwitchPort × Heap × List DataPkt
drain p h = (
  record p {
    data_out = retained p.data_out;
    stats = record (p.stats) { out_count = count_out p.stats.out_count p.data_out };
  },
  free_all p.data_out h,
  p.data_out,
)

-- The loop of port_process_pkts over the events that os_mq_receive yields, while no packet comes
-- in: the Boolean says whether the thread has ended at a PORT_STOP.
unfoldable pub port_process_pkts :
    List PortEvent → SwitchPort → Heap → SwitchPort × Heap × List DataPkt × Bool
unfolding drain
port_process_pkts [] p h = (p, h, [], false)
port_process_pkts (port_stop ∷ es) p h = (p, h, [], true)
port_process_pkts (port_send ∷ es) p h =
    let (p1, h1, sent) = drain p h in
    let (p2, h2, sent', stopped) = port_process_pkts es p1 h1 in (p2, h2, sent ++ sent', stopped)

-- list_del of the port's node from the list of local ports.
unfoldable pub list_del : ℕ → List SwitchPort → List SwitchPort
list_del id [] = []
list_del id (p ∷ ps) = if p.id == id then ps else p ∷ list_del id ps

-- switch_remove_port, for the port p at that pointer: the port's thread is told to stop, the port
-- leaves the device and its packets are discarded.
unfoldable pub switch_remove_port : SwitchPort → Net → Net × List AddrOp
switch_remove_port p net =
    let h = free_all p.data_out net.heap in
    if p.is_local
    then (
      record net { local_port_list = list_del p.id net.local_port_list; heap = h },
      told (is_some net.remote_port) (del p.mac_addr),
    )
    else (record net { remote_port = none; heap = h }, [])

-- The loop of switch_destroy over the local ports.
unfoldable pub remove_all : List SwitchPort → Net → Net
remove_all [] net = net
remove_all (p ∷ ps) net = remove_all ps (switch_remove_port p net).0

-- switch_destroy: none where it removes a remote port that is not there, through a null pointer.
unfoldable pub switch_destroy : Net → Option Net
switch_destroy net = elim net.remote_port [
  | none ↦ none
  | some p ↦ let net' = (switch_remove_port p net).0 in some (remove_all net'.local_port_list net')
]
