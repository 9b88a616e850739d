-- ===== src/Net/Switch/Unicast.antt =====
-- Where a packet goes that is neither a broadcast nor a multicast.
use heterogeneous_multicore.Base.{
  ℕ, ◌≡◌, ◌≢◌, refl, true, false, ◌&&◌, List, [], ◌∷◌, none, some, arith, ◌==◌, Bool-cases, inl,
  inr,
}
use heterogeneous_multicore.Net.DataPkt.{DataPkt, data_pkt_free}
use heterogeneous_multicore.Net.Port.{SwitchPort, cmp_mac_addr, cable_link_is_on, port_out_pkt}
use heterogeneous_multicore.Net.Switch.{
  Net, Ref, remote, local, on_local, on_port, local_at, find_local, send_to, unicast_pkt,
  count_dropped,
}
use heterogeneous_multicore.Net.Switch.Ownership.{find_dst_port_found, find_dst_port_missing}

-- The first of some ports that is on and has the address.
pub data Addressed (mac : List ℕ) : List SwitchPort → SwitchPort → Type 0 where
  here :
      {p : SwitchPort} {ps : List SwitchPort}
      → p.power_on ≡ true
      → cmp_mac_addr mac p.mac_addr ≡ true
      → Addressed mac (p ∷ ps) p
  later :
      {p q : SwitchPort} {ps : List SwitchPort}
      → (p.power_on && cmp_mac_addr mac p.mac_addr) ≡ false
      → Addressed mac ps q
      → Addressed mac (p ∷ ps) q

-- None of some ports is on and has the address.
abbrev pub Unaddressed : List ℕ → List SwitchPort → Type 0
Unaddressed mac [] = Unit
Unaddressed mac (p ∷ ps) =
    ((p.power_on && cmp_mac_addr mac p.mac_addr) ≡ false) × Unaddressed mac ps

find_local-Addressed :
    (mac : List ℕ) (ps : List SwitchPort) (p : SwitchPort)
    → Addressed mac ps p
    → find_local mac ps ≡ some p
unfolding find_local
find_local-Addressed mac [] p a = elim a [ ]
find_local-Addressed mac (q ∷ ps) p (here on same) = rw (on, same) refl
find_local-Addressed mac (q ∷ ps) p (later other a) = rw other (find_local-Addressed mac ps p a)

find_local-Unaddressed :
    (mac : List ℕ) (ps : List SwitchPort) → Unaddressed mac ps → find_local mac ps ≡ none
unfolding find_local
find_local-Unaddressed mac [] u = refl
find_local-Unaddressed mac (q ∷ ps) u = rw (u.0) (find_local-Unaddressed mac ps u.1)

id-port_out_pkt : (p : SwitchPort) (pkt : DataPkt) → (port_out_pkt p pkt).id ≡ p.id
unfolding port_out_pkt
id-port_out_pkt p pkt = ground arith

local_at-on_local_self :
    (id : ℕ) (pkt : DataPkt) (ps : List SwitchPort) (p : SwitchPort)
    → local_at id ps ≡ some p
    → local_at id (on_local id (λ q. port_out_pkt q pkt) ps) ≡ some (port_out_pkt p pkt)
unfolding local_at on_local
local_at-on_local_self id pkt [] p e = absurd (ground arith)
local_at-on_local_self id pkt (q ∷ ps) p e = elim (Bool-cases (q.id == id)) [
  | inl at ↦ ground (arith, at, e, id-port_out_pkt q pkt)
  | inr off ↦ ground (arith, off, e, local_at-on_local_self id pkt ps p)
]

local_at-on_local_other :
    (id other : ℕ) (pkt : DataPkt) (ps : List SwitchPort)
    → id ≢ other
    → local_at other (on_local id (λ q. port_out_pkt q pkt) ps) ≡ local_at other ps
unfolding local_at on_local
local_at-on_local_other id other pkt [] ne = refl
local_at-on_local_other id other pkt (q ∷ ps) ne =
    ground (arith, id-port_out_pkt q pkt, local_at-on_local_other id other pkt ps ne)

-- A packet whose address a local port has, that is on and whose link is on: the first such port has
-- the packet in its queue, and all other ports, and the allocator, are as they were. The port's name
-- leads to it.
pub unicast_pkt_delivers :
    (src : Ref) (pkt : DataPkt) (net : Net) (p : SwitchPort)
    → Addressed pkt.bytes net.local_port_list p
    → local_at p.id net.local_port_list ≡ some p
    → cable_link_is_on p ≡ true
    → let net' = unicast_pkt src pkt net in
      (local_at p.id net'.local_port_list ≡ some (port_out_pkt p pkt))
      × ((id : ℕ) → p.id ≢ id → local_at id net'.local_port_list ≡ local_at id net.local_port_list)
      × (net'.remote_port ≡ net.remote_port)
      × (net'.heap ≡ net.heap)
unfolding unicast_pkt send_to on_port
unicast_pkt_delivers src pkt net p a named on =
    rw
      (
        find_dst_port_found net src pkt.bytes p
            (find_local-Addressed pkt.bytes net.local_port_list p a),
        on,
      )
      (
        local_at-on_local_self p.id pkt net.local_port_list p named,
        (λ id ne. local_at-on_local_other p.id id pkt net.local_port_list ne),
        refl,
        refl,
      )

-- A packet whose address no local port has: from a local port it goes to the remote port, if that is
-- there and its link is on; otherwise, and always from the remote port, it is freed and counted as
-- dropped where it came in.
pub unicast_pkt_elsewhere :
    (pkt : DataPkt) (net : Net)
    → Unaddressed pkt.bytes net.local_port_list
    → ((id : ℕ) (p : SwitchPort)
        → net.remote_port ≡ some p
        → cable_link_is_on p ≡ true
        → unicast_pkt (local id) pkt net ≡ record net { remote_port = some (port_out_pkt p pkt) })
      × ((id : ℕ) (p : SwitchPort)
          → net.remote_port ≡ some p
          → cable_link_is_on p ≡ false
          → unicast_pkt (local id) pkt net ≡ record net {
            local_port_list = on_local id count_dropped net.local_port_list;
            heap = data_pkt_free pkt net.heap;
          })
      × ((p : SwitchPort)
          → net.remote_port ≡ some p
          → unicast_pkt remote pkt net ≡ record net {
            remote_port = some (count_dropped p);
            heap = data_pkt_free pkt net.heap;
          })
unfolding unicast_pkt send_to on_port
unicast_pkt_elsewhere pkt net u =
    let missing = find_local-Unaddressed pkt.bytes net.local_port_list u in
    (
      (λ id p e on. rw (find_dst_port_missing net (local id) pkt.bytes missing) (rw (e, on) refl)),
      (λ id p e off.
          rw (find_dst_port_missing net (local id) pkt.bytes missing) (rw (e, off) refl)),
      (λ p e. rw (find_dst_port_missing net remote pkt.bytes missing) (rw e refl)),
    )
