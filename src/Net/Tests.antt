-- ===== src/Net/Tests.antt =====
-- The switch on small inputs: runs, and the theorems where their hypotheses hold.
use heterogeneous_multicore.Base.{
  Bool, List, [], arith, false, if◌then◌else◌, none, not, refl, some, true, ℕ, ◌&&◌, ◌+◌, ◌==◌,
  ◌||◌, ◌∷◌, ◌≡◌, ◌≢◌,
}
use heterogeneous_multicore.Base.Int.{pos, negsuc}
use heterogeneous_multicore.Net.DataPkt.{
  DataPkt, Heap, data_pkt_alloc, data_pkt_build, data_pkt_clone, data_pkt_set_len,
}
use heterogeneous_multicore.Net.DataPkt.Laws.{gone, occurs}
use heterogeneous_multicore.Net.Port.{SwitchPort, cable_link_is_on, cmp_mac_addr, port_out_pkt}
use heterogeneous_multicore.Net.Switch.Group.{InGroup}
use heterogeneous_multicore.Net.Switch.{
  Net, broadcast_pkt, clone_to, local, local_at, multicast_pkt, port_in_pkt_nocpy, to_others,
  unicast_pkt,
}
use heterogeneous_multicore.Net.Switch.Counts.{queued, is_buffer}
use heterogeneous_multicore.Net.Switch.Ownership.{port_in_pkt_nocpy_owns}
use heterogeneous_multicore.Net.Switch.Unicast.{Addressed, unicast_pkt_delivers}
use heterogeneous_multicore.Net.Switch.Delivery.{
  Sound, Served, RemoteServed, broadcast_pkt_delivers, multicast_pkt_delivers,
}
use heterogeneous_multicore.Net.Fdb.{vs_port_add_fdb_entry, fdb_finds}
use heterogeneous_multicore.Net.Fdb.Laws.{FdbOk, vs_port_add_fdb_entry_adds}
use heterogeneous_multicore.Net.Ports.{PortConfig, new_port, switch_destroy}
use heterogeneous_multicore.Net.Ports.Destroy.{switch_destroy-gone}

abbrev mac_of : ℕ → List ℕ
mac_of n = 0 ∷ 4 ∷ 159 ∷ 0 ∷ 0 ∷ n ∷ []

abbrev config : Bool → ℕ → PortConfig
config is_local n = record { is_local = is_local; mac_addr = mac_of n; dev_end_on = true }

abbrev port : ℕ → SwitchPort
port n = new_port n (config true n)

abbrev empty_heap : Heap
empty_heap = record { fresh = 10; made = []; freed = []; released = []; halted = false }

abbrev no_ports : Net
no_ports = record { remote_port = none; local_port_list = []; heap = empty_heap }

-- Three local ports, the second with its device end off, and a remote port.
abbrev pub three : Net
three = record {
  remote_port = some (new_port 0 (config false 0));
  local_port_list = port 1 ∷ record (port 2) { dev_end_on = false } ∷ port 3 ∷ [];
  heap = empty_heap;
}

-- A packet to everybody, of eight bytes in its buffer.
abbrev pub flooded : DataPkt
flooded = record {
  buffer = 5;
  bytes = 255 ∷ 255 ∷ 255 ∷ 255 ∷ 255 ∷ 255 ∷ 7 ∷ 8 ∷ [];
  room = 8;
  data_len = 7;
  flags = 1;
  used = true;
}

abbrev pub grouped : DataPkt
grouped = record flooded { bytes = 1 ∷ 0 ∷ 94 ∷ 0 ∷ 0 ∷ 9 ∷ 7 ∷ 8 ∷ [] }

abbrev pub memory : ℕ → Bool
memory n = true

flooded-Sound : Sound flooded
flooded-Sound = record {
  room_pos = omega arith;
  room_fits = omega arith;
  in_buffer = refl;
  len_fits = omega arith;
}

grouped-Sound : Sound grouped
grouped-Sound = record {
  room_pos = omega arith;
  room_fits = omega arith;
  in_buffer = refl;
  len_fits = omega arith;
}

-- One clone, for the third port; the remote port has the packet.
broadcast_runs :
    let net' = broadcast_pkt memory (local 1) flooded three in
    (queued 10 net' ≡ 1) × (queued 5 net' ≡ 1) × (gone 5 net'.heap ≡ 0) × (net'.heap.fresh ≡ 11)
unfolding broadcast_pkt data_pkt_clone cable_link_is_on port_out_pkt to_others clone_to
    data_pkt_alloc data_pkt_build data_pkt_set_len
broadcast_runs = (refl, refl, refl, refl)

port_in_pkt_nocpy_owns_example :
    let net' = port_in_pkt_nocpy memory (local 1) flooded true three in
    queued 5 net' + gone 5 net'.heap + occurs 5 three.heap.made
    ≡ queued 5 three + is_buffer 5 flooded + gone 5 three.heap + occurs 5 net'.heap.made
port_in_pkt_nocpy_owns_example = port_in_pkt_nocpy_owns memory 5 flooded (local 1) true three

broadcast_pkt_delivers_example :
    let net' = broadcast_pkt memory (local 1) flooded three in
    Served
      (λ p. not (p.id == 1) && cable_link_is_on p)
      flooded
      three.local_port_list
      net'.local_port_list
    × RemoteServed flooded three.remote_port net'.remote_port
broadcast_pkt_delivers_example =
    broadcast_pkt_delivers memory (λ n. refl) flooded flooded-Sound 1 three

multicast_pkt_delivers_example :
    let net' = multicast_pkt memory (local 1) grouped three in
    (wants : SwitchPort → Bool) × ((p : SwitchPort) → wants p ≡ true → InGroup 1 grouped.bytes p)
    × ((p : SwitchPort) → InGroup 1 grouped.bytes p → wants p ≡ true)
    × Served wants grouped three.local_port_list net'.local_port_list
    × RemoteServed grouped three.remote_port net'.remote_port
multicast_pkt_delivers_example =
    multicast_pkt_delivers memory (λ n. refl) grouped grouped-Sound 1 three

abbrev static_packet : DataPkt
static_packet = record flooded { flags = 3 }

abbrev its_clone : DataPkt
its_clone = record static_packet {
  buffer = 10;
  bytes = 255 ∷ 255 ∷ 255 ∷ 255 ∷ 255 ∷ 255 ∷ 7 ∷ 0 ∷ [];
  used = false;
}

port-FdbOk : FdbOk (port 1)
port-FdbOk = record { enabled = refl; distinct = tt }

vs_port_add_fdb_entry_adds_example :
    let (r, q, ops) = vs_port_add_fdb_entry true (port 1) (mac_of 9) in
    FdbOk q
    × ((x : List ℕ) → fdb_finds x q.fdb_table ≡ (fdb_finds x [] || cmp_mac_addr x (mac_of 9)))
    × (r ≡ (if fdb_finds (mac_of 9) [] then negsuc 0 else pos 0))
vs_port_add_fdb_entry_adds_example = vs_port_add_fdb_entry_adds true (port 1) (mac_of 9) port-FdbOk

abbrev loaded : SwitchPort
loaded = record (port 1) { data_out = flooded ∷ grouped ∷ [] }

abbrev first_two : List (ℕ × PortConfig)
first_two = (1, config true 1) ∷ (2, config true 2) ∷ []

abbrev one_more : List (ℕ × PortConfig)
one_more = (3, config true 3) ∷ []

abbrev loaded_three : Net
loaded_three = record three {
  local_port_list = loaded ∷ port 3 ∷ [];
  remote_port = some (record (new_port 0 (config false 0)) { data_out = grouped ∷ [] });
}

switch_destroy-gone_example :
    (net' : Net) × (switch_destroy loaded_three ≡ some net')
    × ((k : ℕ) → gone k net'.heap ≡ queued k loaded_three + gone k loaded_three.heap)
switch_destroy-gone_example =
    switch_destroy-gone loaded_three
      (record (new_port 0 (config false 0)) { data_out = grouped ∷ [] }) refl refl (refl, tt)
      ((refl, (refl, tt)), (tt, tt))

abbrev to_third : DataPkt
to_third = record flooded { bytes = 0 ∷ 4 ∷ 159 ∷ 0 ∷ 0 ∷ 3 ∷ 7 ∷ 8 ∷ [] }

abbrev to_nobody : DataPkt
to_nobody = record flooded { bytes = 0 ∷ 4 ∷ 159 ∷ 0 ∷ 0 ∷ 9 ∷ 7 ∷ 8 ∷ [] }

third-Addressed : Addressed to_third.bytes three.local_port_list (port 3)
unfolding cmp_mac_addr
third-Addressed = Addressed.later refl (Addressed.later refl (Addressed.here refl refl))

third_named : local_at 3 three.local_port_list ≡ some (port 3)
unfolding local_at
third_named = refl

third_on : cable_link_is_on (port 3) ≡ true
unfolding cable_link_is_on
third_on = refl

unicast_pkt_delivers_example :
    let net' = unicast_pkt (local 1) to_third three in
    (local_at 3 net'.local_port_list ≡ some (port_out_pkt (port 3) to_third))
    × ((id : ℕ) → 3 ≢ id → local_at id net'.local_port_list ≡ local_at id three.local_port_list)
    × (net'.remote_port ≡ three.remote_port)
    × (net'.heap ≡ empty_heap)
unicast_pkt_delivers_example =
    unicast_pkt_delivers (local 1) to_third three (port 3) third-Addressed third_named third_on
