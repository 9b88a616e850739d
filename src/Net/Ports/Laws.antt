-- ===== src/Net/Ports/Laws.antt =====
-- What the threads and the removal of ports do with packets, and what the remote port is told.
use heterogeneous_multicore.Base.{
  ℕ, ◌+◌, ◌≡◌, refl, sym, ap, ◌∙◌, true, false, List, [], ◌∷◌, ◌++◌, none, some, arith, test_bit,
  is_some, append-nil, append_assoc,
}
use heterogeneous_multicore.Net.DataPkt.{DataPkt, Heap, data_pkt_free, can_free_bit}
use heterogeneous_multicore.Net.DataPkt.Laws.{gone, gone-free}
use heterogeneous_multicore.Net.Port.{SwitchPort, PortEvent, port_send, port_stop, mac_addr_len}
use heterogeneous_multicore.Net.Switch.{Net}
use heterogeneous_multicore.Net.Switch.Counts.{in_queue}
use heterogeneous_multicore.Net.Fdb.{AddrOp, add, copy_mac, told}
use heterogeneous_multicore.Net.Ports.{
  PortConfig, new_port, tell_all, switch_add_port, free_all, retained, drain, port_process_pkts,
}

pub gone-free_all :
    (k : ℕ) (q : List DataPkt) (h : Heap)
    → gone k (free_all q h) + in_queue k (retained q) ≡ in_queue k q + gone k h
unfolding free_all retained
gone-free_all k [] h = omega arith
gone-free_all k (pkt ∷ q) h =
    ground (arith, gone-free k pkt h, gone-free_all k q (data_pkt_free pkt h), gone-free_all k q h)

-- Draining a queue hands every packet of it to the callback once, in order, and each of its buffers
-- is afterwards given back once more or in the queue still, and not both.
pub drain_hands_over :
    (k : ℕ) (p : SwitchPort) (h : Heap)
    → let (p', h', sent) = drain p h in
      (sent ≡ p.data_out) × (gone k h' + in_queue k p'.data_out ≡ gone k h + in_queue k p.data_out)
unfolding drain
drain_hands_over k p h = (refl, omega (arith, gone-free_all k p.data_out h))

-- Every packet may be freed.
abbrev pub AllFreeable : List DataPkt → Type 0
AllFreeable [] = Unit
AllFreeable (pkt ∷ q) = (test_bit pkt.flags can_free_bit ≡ true) × AllFreeable q

pub retained-freeable : (q : List DataPkt) → AllFreeable q → retained q ≡ []
unfolding retained
retained-freeable [] f = refl
retained-freeable (pkt ∷ q) f = rw (f.0) (retained-freeable q f.1)

-- With nothing in the queue, nothing is sent and nothing stays.
port_process_pkts-empty :
    (es : List PortEvent) (p : SwitchPort) (h : Heap)
    → p.data_out ≡ []
    → ((port_process_pkts es p h).0.data_out ≡ []) × ((port_process_pkts es p h).2 ≡ [])
unfolding port_process_pkts drain
port_process_pkts-empty [] p h e = (e, refl)
port_process_pkts-empty (port_stop ∷ es) p h e = (e, refl)
port_process_pkts-empty (port_send ∷ es) p h e =
    let (p', h', sent) = drain p h in
    let (stays, sends) = port_process_pkts-empty es p' h' (ap retained e ∙ retained-empty) in
    (stays, ap (λ q. q ++ (port_process_pkts es p' h').2) e ∙ sends)
  where
    retained-empty : retained [] ≡ []
    retained-empty = unfold retained in refl

-- A thread that gets a PORT_SEND first hands over each packet of the queue exactly once, however
-- many events follow, if no packet comes in meanwhile and all may be freed: the queue is then empty.
pub port_process_pkts_sends_once :
    (es : List PortEvent) (p : SwitchPort) (h : Heap)
    → AllFreeable p.data_out
    → let (p', h', sent, stopped) = port_process_pkts (port_send ∷ es) p h in
      (sent ≡ p.data_out) × (p'.data_out ≡ [])
unfolding port_process_pkts drain
port_process_pkts_sends_once es p h f =
    let (p', h', sent) = drain p h in
    let (stays, sends) = port_process_pkts-empty es p' h' (retained-freeable p.data_out f) in
    (ap (λ q. p.data_out ++ q) sends ∙ append-nil p.data_out, stays)

-- The ports of some configurations are added, in order; the calls of the remote port's callback.
abbrev pub add_all : List (ℕ × PortConfig) → Net → Net × List AddrOp
add_all [] net = (net, [])
add_all ((id, config) ∷ cs) net =
    let (net', ops) = switch_add_port id config net in
    let (net'', ops') = add_all cs net' in (net'', ops ++ ops')

abbrev pub AllLocal : List (ℕ × PortConfig) → Type 0
AllLocal [] = Unit
AllLocal ((id, config) ∷ cs) = (config.is_local ≡ true) × AllLocal cs

abbrev pub addresses : List (ℕ × PortConfig) → List AddrOp
addresses [] = []
addresses ((id, config) ∷ cs) = add (copy_mac mac_addr_len config.mac_addr) ∷ addresses cs

tell_all-append :
    (ps : List SwitchPort) (p : SwitchPort)
    → tell_all (ps ++ p ∷ []) ≡ tell_all ps ++ add p.mac_addr ∷ []
tell_all-append [] p = refl
tell_all-append (q ∷ ps) p = ap (λ ops. add q.mac_addr ∷ ops) (tell_all-append ps p)

module _ (id : ℕ) (config : PortConfig) (net : Net) where
  switch_add_port-local :
      config.is_local ≡ true
      → switch_add_port id config net ≡ (
        record net { local_port_list = net.local_port_list ++ new_port id config ∷ [] },
        told (is_some net.remote_port) (add (copy_mac mac_addr_len config.mac_addr)),
      )
  unfolding switch_add_port
  switch_add_port-local e = ground arith

  switch_add_port-remote :
      config.is_local ≡ false
      → switch_add_port id config net
        ≡ (record net { remote_port = some (new_port id config) }, tell_all net.local_port_list)
  unfolding switch_add_port
  switch_add_port-remote e = ground arith

-- Ports that come before the remote port wait for it, those that come after are told of at once.
add_all-silent :
    (cs : List (ℕ × PortConfig)) (net : Net)
    → AllLocal cs
    → net.remote_port ≡ none
    → let (net', ops) = add_all cs net in
      (ops ≡ []) × (tell_all net'.local_port_list ≡ tell_all net.local_port_list ++ addresses cs)
add_all-silent [] net l e = (refl, sym (append-nil _))
add_all-silent ((id, config) ∷ cs) net l e =
    let mac = copy_mac mac_addr_len config.mac_addr in
    let net1 = record net { local_port_list = net.local_port_list ++ new_port id config ∷ [] } in
    let (silent, told_later) = add_all-silent cs net1 l.1 e in
    rw (switch_add_port-local id config net l.0) (
      ap (λ b. told b (add mac) ++ (add_all cs net1).1) (ap is_some e) ∙ silent,
      told_later
          ∙ ap (λ ops. ops ++ addresses cs)
              (tell_all-append net.local_port_list (new_port id config))
          ∙ append_assoc (tell_all net.local_port_list) (add mac ∷ []) (addresses cs),
    )

add_all-told :
    (cs : List (ℕ × PortConfig)) (net : Net)
    → AllLocal cs
    → is_some net.remote_port ≡ true
    → (add_all cs net).1 ≡ addresses cs
add_all-told [] net l e = refl
add_all-told ((id, config) ∷ cs) net l e =
    let mac = copy_mac mac_addr_len config.mac_addr in
    let net1 = record net { local_port_list = net.local_port_list ++ new_port id config ∷ [] } in
    rw (switch_add_port-local id config net l.0) (
      ap (λ b. told b (add mac) ++ (add_all cs net1).1) e
      ∙ ap (λ ops. add mac ∷ ops) (add_all-told cs net1 l.1 e))

-- A remote port that is added to a switch without ports after some local ports and before others is
-- told the address of each of them once, in the order in which they were added.
pub remote_learns_all :
    (before after : List (ℕ × PortConfig)) (id : ℕ) (config : PortConfig) (net : Net)
    → AllLocal before
    → AllLocal after
    → config.is_local ≡ false
    → net.remote_port ≡ none
    → net.local_port_list ≡ []
    → let (net1, ops1) = add_all before net in
      let (net2, ops2) = switch_add_port id config net1 in
      let (net3, ops3) = add_all after net2 in
      ops1 ++ ops2 ++ ops3 ≡ addresses before ++ addresses after
remote_learns_all before after id config net b a c none_yet nobody =
    let (silent, later) = add_all-silent before net b none_yet in
    let net1 = (add_all before net).0 in
    let net2 = record net1 { remote_port = some (new_port id config) } in
    rw (switch_add_port-remote id config net1 c, silent)
      (ap (λ ops. ops ++ (add_all after net2).1)
          (later ∙ ap (λ ps. tell_all ps ++ addresses before) nobody)
        ∙ ap (λ ops. addresses before ++ ops) (add_all-told after net2 a refl))
