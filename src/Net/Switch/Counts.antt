-- ===== src/Net/Switch/Counts.antt =====
-- How often a buffer is in the queues of the switch, and what flooding a packet does to that.
use heterogeneous_multicore.Base.{
  ℕ, ◌+◌, ◌≡◌, Bool, true, false, List, [], ◌∷◌, ◌++◌, Option, none, some, arith, if◌then◌else◌,
  ◌==◌,
}
use heterogeneous_multicore.Net.DataPkt.{DataPkt, Heap, data_pkt_clone}
use heterogeneous_multicore.Net.DataPkt.Laws.{
  occurs, gone, Cloned, clone-Cloned, no_memory, no_room, cloned,
}
use heterogeneous_multicore.Net.Port.{SwitchPort, port_out_pkt, notify_port}
use heterogeneous_multicore.Net.Switch.{Net, clone_to, to_others, to_locals, out_clone, to_remote}

-- How often a buffer stands in a queue, in the queues of some ports, and in those of the switch.
abbrev pub in_queue : ℕ → List DataPkt → ℕ
in_queue k [] = 0
in_queue k (pkt ∷ q) = (if pkt.buffer == k then 1 else 0) + in_queue k q

abbrev pub in_ports : ℕ → List SwitchPort → ℕ
in_ports k [] = 0
in_ports k (p ∷ ps) = in_queue k p.data_out + in_ports k ps

abbrev pub in_port? : ℕ → Option SwitchPort → ℕ
in_port? k none = 0
in_port? k (some p) = in_queue k p.data_out

abbrev pub queued : ℕ → Net → ℕ
queued k net = in_port? k net.remote_port + in_ports k net.local_port_list

-- 1 for the packet itself.
abbrev pub is_buffer : ℕ → DataPkt → ℕ
is_buffer k pkt = if pkt.buffer == k then 1 else 0

in_queue-append :
    (k : ℕ) (q : List DataPkt) (pkt : DataPkt)
    → in_queue k (q ++ pkt ∷ []) ≡ in_queue k q + is_buffer k pkt
in_queue-append k [] pkt = omega arith
in_queue-append k (x ∷ q) pkt = omega (arith, in_queue-append k q pkt)

pub in_queue-port_out_pkt :
    (k : ℕ) (p : SwitchPort) (pkt : DataPkt)
    → in_queue k (port_out_pkt p pkt).data_out ≡ in_queue k p.data_out + is_buffer k pkt
unfolding port_out_pkt
in_queue-port_out_pkt k p pkt = ground (arith, in_queue-append k p.data_out pkt)

pub in_queue-notify_port :
    (k : ℕ) (p : SwitchPort) → in_queue k (notify_port p).data_out ≡ in_queue k p.data_out
unfolding notify_port
in_queue-notify_port k p = ground arith

-- From q copies of the buffer in the queues to q': what was there, what came and what was made is
-- now in a queue or given back.
abbrev pub Accounted : ℕ → ℕ → ℕ → ℕ → Heap → Heap → Type 0
Accounted k q q' came h h' =
    q' + gone k h' + occurs k h.made ≡ q + came + gone k h + occurs k h'.made

-- 1 if the packet itself was taken.
abbrev pub taken_by : ℕ → DataPkt → Bool → ℕ
taken_by k pkt need_free = if need_free then 0 else is_buffer k pkt

pub to_remote-Accounted :
    (k : ℕ) (pkt : DataPkt) (r : Option SwitchPort)
    → in_port? k (to_remote r pkt).0 ≡ in_port? k r + taken_by k pkt (to_remote r pkt).1
to_remote-Accounted k pkt none = omega arith
to_remote-Accounted k pkt (some p) = ground (arith, in_queue-port_out_pkt k p pkt)

module _ (malloc : ℕ → Bool) (k : ℕ) (pkt : DataPkt) where
  clone_to-Accounted :
      (wants : Bool) (p : SwitchPort) (h : Heap)
      → let (p', h') = clone_to malloc wants pkt p h in
        Accounted k (in_queue k p.data_out) (in_queue k p'.data_out) 0 h h'
  unfolding clone_to
  clone_to-Accounted false p h = ground arith
  clone_to-Accounted true p h = out (data_pkt_clone malloc pkt h) (clone-Cloned malloc pkt h)
    where
      out :
          (r : Option DataPkt × Heap)
          → Cloned pkt h r
          → let (p', h') = out_clone malloc p r in
            Accounted k (in_queue k p.data_out) (in_queue k p'.data_out) 0 h h'
      out _ no_memory = ground arith
      out _ no_room = ground arith
      out _ (cloned new_pkt b f l) = ground (arith, in_queue-port_out_pkt k p new_pkt)

  pub to_others-Accounted :
      (wants : SwitchPort → Bool) (ps : List SwitchPort) (h : Heap)
      → let (ps', h') = to_others malloc wants pkt ps h in
        Accounted k (in_ports k ps) (in_ports k ps') 0 h h'
  unfolding to_others
  to_others-Accounted wants [] h = omega arith
  to_others-Accounted wants (p ∷ ps) h = omega (
    arith,
    clone_to-Accounted (wants p) p h,
    to_others-Accounted wants ps (clone_to malloc (wants p) pkt p h).1,
  )

  pub to_locals-Accounted :
      (wants : SwitchPort → Bool) (ps : List SwitchPort) (h : Heap)
      → let (ps', h', need_free) = to_locals malloc wants pkt ps h in
        Accounted k (in_ports k ps) (in_ports k ps') (taken_by k pkt need_free) h h'
  unfolding to_locals
  to_locals-Accounted wants [] h = omega arith
  to_locals-Accounted wants (p ∷ []) h = ground (arith, in_queue-port_out_pkt k p pkt)
  to_locals-Accounted wants (p ∷ q ∷ ps) h = omega (
    arith,
    clone_to-Accounted (wants p) p h,
    to_locals-Accounted wants (q ∷ ps) (clone_to malloc (wants p) pkt p h).1,
  )
