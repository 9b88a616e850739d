-- ===== src/Net/Switch/Delivery.antt =====
-- Which ports get a packet that is flooded, and what they get.
use heterogeneous_multicore.Base.{
  ℕ, zero, suc, ◌+◌, ◌-◌, ◌≤◌, ◌<◌, ◌^◌, ◌≡◌, refl, ap, Bool, true, false, not, ◌&&◌, List, [], ◌∷◌,
  Option, some, arith, if◌then◌else◌, ltb, lt→ltb, ◌==◌, Bool-cases, inl, inr, length, replicate,
  length-replicate,
}
use heterogeneous_multicore.Net.DataPkt.{
  DataPkt, Heap, copy, alloc_size, data_pkt_head_room, data_pkt_build, data_pkt_set_len,
  data_pkt_alloc, data_pkt_clone,
}
use heterogeneous_multicore.Net.Port.{SwitchPort, cable_link_is_on, port_out_pkt}
use heterogeneous_multicore.Net.Switch.Group.{InGroup, tests, tests-InGroup, InGroup-tests}
use heterogeneous_multicore.Net.Switch.{
  Net, local, clone_to, to_others, broadcast_pkt, multicast_pkt, to_remote,
}

abbrev pub take : ℕ → List ℕ → List ℕ
take zero xs = []
take (suc n) [] = []
take (suc n) (x ∷ xs) = x ∷ take n xs

take-copy :
    (n : ℕ) (src dst : List ℕ)
    → n ≤ length src
    → n ≤ length dst
    → take n (copy n src dst) ≡ take n src
take-copy zero src dst l m = refl
take-copy (suc n) [] dst l m = absurd (omega arith)
take-copy (suc n) (s ∷ src) [] l m = absurd (omega arith)
take-copy (suc n) (s ∷ src) (d ∷ dst) l m =
    ap (λ xs. s ∷ xs) (take-copy n src dst (omega arith) (omega arith))

-- A packet whose payload lies in its buffer, of a size that `uint32_t` holds with the head.
pub record Sound (pkt : DataPkt) : Type 0 where
  pub room_pos : 0 < pkt.room
  pub room_fits : pkt.room + data_pkt_head_room < 2 ^ 32
  pub in_buffer : length pkt.bytes ≡ pkt.room
  pub len_fits : pkt.data_len ≤ pkt.room

-- Another packet with the same payload.
pub record IsCopy (pkt copied : DataPkt) : Type 0 where
  pub same_len : copied.data_len ≡ pkt.data_len
  pub same_flags : copied.flags ≡ pkt.flags
  pub same_payload : take pkt.data_len copied.bytes ≡ take pkt.data_len pkt.bytes

-- What the ports that want the packet get, and the others do not.
pub data Served (wants : SwitchPort → Bool) (pkt : DataPkt)
    : List SwitchPort → List SwitchPort → Type 0 where
  nobody : Served wants pkt [] []
  gets :
      {p : SwitchPort} {ps qs : List SwitchPort} (copied : DataPkt)
      → wants p ≡ true
      → IsCopy pkt copied
      → Served wants pkt ps qs
      → Served wants pkt (p ∷ ps) (port_out_pkt p copied ∷ qs)
  spared :
      {p : SwitchPort} {ps qs : List SwitchPort}
      → wants p ≡ false
      → Served wants pkt ps qs
      → Served wants pkt (p ∷ ps) (p ∷ qs)

abbrev zeros : ℕ → List ℕ
zeros n = replicate n 0

length-zeros : (n : ℕ) → length (zeros n) ≡ n
length-zeros n = length-replicate n 0

-- The remote port of a flooded packet from a local port takes the packet itself.
abbrev pub RemoteServed : DataPkt → Option SwitchPort → Option SwitchPort → Type 0
RemoteServed pkt r r' =
    (p : SwitchPort)
    → r ≡ some p
    → r' ≡ (if cable_link_is_on p then some (port_out_pkt p pkt) else some p)

module _ (malloc : ℕ → Bool) (memory : (n : ℕ) → malloc n ≡ true) (pkt : DataPkt)
    (sound : Sound pkt) where
  data_pkt_clone_copies :
      (h : Heap)
      → (copied : DataPkt) × ((data_pkt_clone malloc pkt h).0 ≡ some copied) × IsCopy pkt copied
  unfolding data_pkt_clone data_pkt_alloc data_pkt_build data_pkt_set_len
  data_pkt_clone_copies h =
      let fits = room_ok in
      rw (memory h.fresh, fits)
        (
          _,
          refl,
          record {
            same_len = refl;
            same_flags = refl;
            same_payload =
                take-copy pkt.data_len pkt.bytes _ (omega (arith, sound.in_buffer, sound.len_fits))
                  zeros_long;
          },
        )
    where
      room_ok : ltb data_pkt_head_room (alloc_size pkt.room) ≡ true
      room_ok = lt→ltb _ _ (omega (arith, sound.room_pos, sound.room_fits))

      zeros_long : pkt.data_len ≤ length (zeros (alloc_size pkt.room - data_pkt_head_room - 0))
      zeros_long =
          rw (length-zeros (alloc_size pkt.room - data_pkt_head_room - 0))
            (omega (arith, sound.len_fits, sound.room_fits))

  to_others-Served :
      (wants : SwitchPort → Bool) (ps : List SwitchPort) (h : Heap)
      → Served wants pkt ps (to_others malloc wants pkt ps h).0
  unfolding to_others clone_to
  to_others-Served wants [] h = Served.nobody
  to_others-Served wants (p ∷ ps) h = elim (Bool-cases (wants p)) [
    | inr e ↦ rw e (Served.spared e (to_others-Served wants ps h))
    | inl e ↦
        let (copied, made, same) = data_pkt_clone_copies h in
        let h' = (data_pkt_clone malloc pkt h).1 in
        rw (e, made) (Served.gets copied e same (to_others-Served wants ps h'))
  ]

  to_remote-Served : (r : Option SwitchPort) → RemoteServed pkt r (to_remote r pkt).0
  to_remote-Served r p e = rw e (ground arith)

  -- A broadcast packet of a local port: exactly the other local ports whose link is on get one clone
  -- each, with the same payload, and every other local port is left as it was; the remote port gets
  -- the packet itself if its link is on. The packet is sound and there is memory for every clone.
  pub broadcast_pkt_delivers :
      (id : ℕ) (net : Net)
      → let net' = broadcast_pkt malloc (local id) pkt net in
        Served
          (λ p. not (p.id == id) && cable_link_is_on p)
          pkt
          net.local_port_list
          net'.local_port_list
        × RemoteServed pkt net.remote_port net'.remote_port
  unfolding broadcast_pkt
  broadcast_pkt_delivers id net =
      (to_others-Served _ net.local_port_list net.heap, to_remote-Served net.remote_port)

  -- A multicast packet of a local port: exactly the local ports of the group get one clone each, with
  -- the same payload, and every other local port is left as it was; the remote port gets the packet
  -- itself if its link is on. A port is in the group if it is not the sender, its link is on, its
  -- table is enabled, and some entry of the table has the same six bytes as the packet begins with.
  -- The packet is sound and there is memory for every clone.
  pub multicast_pkt_delivers :
      (id : ℕ) (net : Net)
      → let net' = multicast_pkt malloc (local id) pkt net in
        (wants : SwitchPort → Bool) × ((p : SwitchPort) → wants p ≡ true → InGroup id pkt.bytes p)
        × ((p : SwitchPort) → InGroup id pkt.bytes p → wants p ≡ true)
        × Served wants pkt net.local_port_list net'.local_port_list
        × RemoteServed pkt net.remote_port net'.remote_port
  unfolding multicast_pkt
  multicast_pkt_delivers id net = (
    tests id pkt.bytes,
    tests-InGroup id pkt.bytes,
    InGroup-tests id pkt.bytes,
    to_others-Served _ net.local_port_list net.heap,
    to_remote-Served net.remote_port,
  )
