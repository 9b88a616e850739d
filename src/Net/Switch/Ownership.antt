-- ===== src/Net/Switch/Ownership.antt =====
-- Every packet that the switch takes in is owned by one queue or given back, and so is every clone.
use heterogeneous_multicore.Base.{
  ℕ, ◌+◌, ◌≡◌, refl, ap, Bool, List, [], ◌∷◌, Option, none, some, arith, Bool-cases, Option-cases,
  inl, inr, map,
}
use heterogeneous_multicore.Net.DataPkt.{DataPkt, data_pkt_free}
use heterogeneous_multicore.Net.DataPkt.Laws.{occurs, gone, gone-free, made-free}
use heterogeneous_multicore.Net.Port.{
  SwitchPort, cable_link_is_on, port_out_pkt, notify_port, is_broadcast_pkt, is_multicast_pkt,
}
use heterogeneous_multicore.Net.Switch.{
  Net, Ref, remote, local, on_local, on_port, find_local, find_dst_port, notify_ports, to_others,
  to_locals, broadcast_pkt, multicast_pkt, unicast_pkt, switch_pkt, port_in_pkt_nocpy, count_in,
  map_option, count_dropped, discard, from_local, from_remote, or_remote, src_is_local, send_to,
}
use heterogeneous_multicore.Net.Switch.Counts.{
  in_queue, in_ports, in_port?, queued, is_buffer, in_queue-port_out_pkt, in_queue-notify_port,
  Accounted, to_others-Accounted, to_locals-Accounted, to_remote-Accounted,
}

pub find_dst_port_found :
    (net : Net) (src : Ref) (mac : List ℕ) (p : SwitchPort)
    → find_local mac net.local_port_list ≡ some p
    → find_dst_port net src mac ≡ some (local p.id, p)
unfolding find_dst_port
find_dst_port_found net src mac p e = ground arith

pub find_dst_port_missing :
    (net : Net) (src : Ref) (mac : List ℕ)
    → find_local mac net.local_port_list ≡ none
    → find_dst_port net src mac ≡ or_remote (src_is_local src) net.remote_port
unfolding find_dst_port
find_dst_port_missing net src mac e = rw (e, find_dst_port)

module _ (k : ℕ) where
  in_ports-notify : (ps : List SwitchPort) → in_ports k (map notify_port ps) ≡ in_ports k ps
  in_ports-notify [] = refl
  in_ports-notify (p ∷ ps) = omega (arith, in_queue-notify_port k p, in_ports-notify ps)

  pub notify_ports-queued : (net : Net) → queued k (notify_ports net) ≡ queued k net
  unfolding notify_ports
  notify_ports-queued net = remote_notified net.remote_port
    where
      remote_notified :
          (r : Option SwitchPort)
          → in_port? k (map_option notify_port r) + in_ports k (map notify_port net.local_port_list)
            ≡ in_port? k r + in_ports k net.local_port_list
      remote_notified none = omega (arith, in_ports-notify net.local_port_list)
      remote_notified (some p) =
          omega (arith, in_queue-notify_port k p, in_ports-notify net.local_port_list)

  pub heap-notify_ports : (net : Net) → (notify_ports net).heap ≡ net.heap
  unfolding notify_ports
  heap-notify_ports net = refl

module _ (malloc : ℕ → Bool) (k : ℕ) (pkt : DataPkt) where
  -- The state of the switch before and after, with the packet come in.
  abbrev Kept : Net → Net → Type 0
  Kept net net' = Accounted k (queued k net) (queued k net') (is_buffer k pkt) net.heap net'.heap

  from_remote-Kept :
      (wants : SwitchPort → Bool) (net : Net) → Kept net (from_remote malloc wants pkt net)
  from_remote-Kept wants net =
      let (ps', h', need_free) = to_locals malloc wants pkt net.local_port_list net.heap in
      ground (
        arith,
        to_locals-Accounted malloc k pkt wants net.local_port_list net.heap,
        gone-free k pkt h',
        made-free pkt h',
      )

  from_local-Kept :
      (wants : SwitchPort → Bool) (net : Net) → Kept net (from_local malloc wants pkt net)
  from_local-Kept wants net =
      let (ps', h') = to_others malloc wants pkt net.local_port_list net.heap in
      ground (
        arith,
        to_others-Accounted malloc k pkt wants net.local_port_list net.heap,
        gone-free k pkt h',
        made-free pkt h',
        to_remote-Accounted k pkt net.remote_port,
      )

  broadcast_pkt-Kept : (src : Ref) (net : Net) → Kept net (broadcast_pkt malloc src pkt net)
  unfolding broadcast_pkt
  broadcast_pkt-Kept remote net = from_remote-Kept _ net
  broadcast_pkt-Kept (local id) net = from_local-Kept _ net

  multicast_pkt-Kept : (src : Ref) (net : Net) → Kept net (multicast_pkt malloc src pkt net)
  unfolding multicast_pkt
  multicast_pkt-Kept remote net = from_remote-Kept _ net
  multicast_pkt-Kept (local id) net = from_local-Kept _ net

  -- A port that keeps its queue, or takes the packet.
  in_ports-on_local_same :
      (id : ℕ) (f : SwitchPort → SwitchPort) (ps : List SwitchPort)
      → ((p : SwitchPort) → (f p).data_out ≡ p.data_out)
      → in_ports k (on_local id f ps) ≡ in_ports k ps
  unfolding on_local
  in_ports-on_local_same id f [] same = refl
  in_ports-on_local_same id f (p ∷ ps) same =
      ground (arith, ap (in_queue k) (same p), in_ports-on_local_same id f ps same)

  queued-on_port_same :
      (r : Ref) (f : SwitchPort → SwitchPort) (net : Net)
      → ((p : SwitchPort) → (f p).data_out ≡ p.data_out)
      → queued k (on_port r f net) ≡ queued k net
  unfolding on_port
  queued-on_port_same (local id) f net same =
      ap (λ n. in_port? k net.remote_port + n)
        (in_ports-on_local_same id f net.local_port_list same)
  queued-on_port_same remote f net same =
      ap (λ n. n + in_ports k net.local_port_list) (remote_same net.remote_port)
    where
      remote_same : (r : Option SwitchPort) → in_port? k (map_option f r) ≡ in_port? k r
      remote_same none = refl
      remote_same (some p) = ap (in_queue k) (same p)

  heap-on_port :
      (r : Ref) (f : SwitchPort → SwitchPort) (net : Net) → (on_port r f net).heap ≡ net.heap
  unfolding on_port
  heap-on_port (local id) f net = refl
  heap-on_port remote f net = refl

  -- The local port that was found takes the packet.
  in_ports-found :
      (mac : List ℕ) (ps : List SwitchPort) {p : SwitchPort}
      → find_local mac ps ≡ some p
      → in_ports k (on_local p.id (λ q. port_out_pkt q pkt) ps) ≡ in_ports k ps + is_buffer k pkt
  unfolding find_local on_local
  in_ports-found mac [] e = absurd (ground arith)
  in_ports-found mac (q ∷ ps) {p} e =
      ground (arith, in_queue-port_out_pkt k q pkt, in_ports-found mac ps {p = p})

  discard-Kept : (src : Ref) (net : Net) → Kept net (discard src pkt net)
  discard-Kept src net =
      let freed = record net { heap = data_pkt_free pkt net.heap } in
      rw
        (
          queued-on_port_same src count_dropped freed (λ p. refl),
          heap-on_port src count_dropped freed,
        )
        (omega (arith, gone-free k pkt net.heap, ap (occurs k) (made-free pkt net.heap)))

  remote-Kept :
      (p : SwitchPort) (net : Net)
      → net.remote_port ≡ some p
      → Kept net (on_port remote (λ q. port_out_pkt q pkt) net)
  unfolding on_port
  remote-Kept p net e = rw e (omega (arith, in_queue-port_out_pkt k p pkt))

  found-Kept :
      (mac : List ℕ) (p : SwitchPort) (net : Net)
      → find_local mac net.local_port_list ≡ some p
      → Kept net (on_port (local p.id) (λ q. port_out_pkt q pkt) net)
  unfolding on_port
  found-Kept mac p net e = omega (arith, in_ports-found mac net.local_port_list {p = p} e)

  send_to-Kept :
      (dst : Ref) (p : SwitchPort) (src : Ref) (net : Net)
      → Kept net (on_port dst (λ q. port_out_pkt q pkt) net)
      → Kept net (send_to (some (dst, p)) src pkt net)
  unfolding send_to
  send_to-Kept dst p src net sent = elim (Bool-cases (cable_link_is_on p)) [
    | inl on ↦ rw on sent
    | inr off ↦ rw off (discard-Kept src net)
  ]

  unicast_pkt-Kept : (src : Ref) (net : Net) → Kept net (unicast_pkt src pkt net)
  unfolding unicast_pkt
  unicast_pkt-Kept src net = elim (Option-cases (find_local pkt.bytes net.local_port_list)) [
    | inr (p, e) ↦
        rw (find_dst_port_found net src pkt.bytes p e)
          (send_to-Kept (local p.id) p src net (found-Kept pkt.bytes p net e))
    | inl missing ↦
        rw (find_dst_port_missing net src pkt.bytes missing) (no_local src net.remote_port refl)
  ]
    where
      no_local :
          (s : Ref) (r : Option SwitchPort)
          → net.remote_port ≡ r
          → Kept net (send_to (or_remote (src_is_local s) r) src pkt net)
      no_local remote r e = unfold send_to in discard-Kept src net
      no_local (local id) none e = unfold send_to in discard-Kept src net
      no_local (local id) (some p) e = send_to-Kept remote p src net (remote-Kept p net e)

  switch_pkt-Kept : (src : Ref) (net : Net) → Kept net (switch_pkt malloc src pkt net)
  unfolding switch_pkt
  switch_pkt-Kept src net = elim (Bool-cases (is_broadcast_pkt pkt.bytes)) [
    | inl b ↦ rw b (broadcast_pkt-Kept src net)
    | inr b ↦ elim (Bool-cases (is_multicast_pkt pkt.bytes)) [
      | inl m ↦ rw (b, m) (multicast_pkt-Kept src net)
      | inr m ↦ rw (b, m) (unicast_pkt-Kept src net)
    ]
  ]

  -- For every buffer: its places in the queues of the ports and among the buffers given back grow
  -- by one if it is the packet's, and by one for each clone made of that buffer, and by no more.
  -- So the packet is handed to exactly one queue or given back once, never both and never neither,
  -- on every path of the switch (broadcast, multicast, unicast, from local and from remote ports,
  -- with links off and with no memory for clones), and every clone that was made is queued.
  pub port_in_pkt_nocpy_owns :
      (src : Ref) (notify : Bool) (net : Net)
      → let net' = port_in_pkt_nocpy malloc src pkt notify net in
        queued k net' + gone k net'.heap + occurs k net.heap.made
        ≡ queued k net + is_buffer k pkt + gone k net.heap + occurs k net'.heap.made
  unfolding port_in_pkt_nocpy
  port_in_pkt_nocpy_owns src notify net =
      let net1 = on_port src count_in net in
      let net2 = switch_pkt malloc src pkt net1 in
      let counted = queued-on_port_same src count_in net (λ p. refl) in
      let same_heap = heap-on_port src count_in net in
      elim (Bool-cases notify) [
        | inr e ↦ rw e (
            omega (
              arith,
              switch_pkt-Kept src net1,
              counted,
              ap (gone k) same_heap,
              ap (λ h. occurs k h.made) same_heap,
            ))
        | inl e ↦
            rw (e, notify_ports-queued k net2, heap-notify_ports k net2)
              (omega (
                arith,
                switch_pkt-Kept src net1,
                counted,
                ap (gone k) same_heap,
                ap (λ h. occurs k h.made) same_heap,
              ))
      ]
