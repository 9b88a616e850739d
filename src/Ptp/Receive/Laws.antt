-- ===== src/Ptp/Receive/Laws.antt =====
-- Every buffer that the receive loop allocates is handed to the switch or given back.
use heterogeneous_multicore.Base.{
  ℕ, ◌+◌, ◌≡◌, ap, ◌∙◌, Bool, List, [], ◌∷◌, Option, arith, Bool-cases, inl, inr,
}
use heterogeneous_multicore.Net.DataPkt.{DataPkt, Heap, data_pkt_free, data_pkt_set_len}
use heterogeneous_multicore.Net.DataPkt.Laws.{
  gone, occurs, gone-free, made-free, Allocated, alloc-Allocated, no_memory, no_room, allocated,
}
use heterogeneous_multicore.Net.Switch.Counts.{queued, is_buffer}
use heterogeneous_multicore.Net.Software.{soft_vport_in_nocpy}
use heterogeneous_multicore.Net.Software.Laws.{soft_vport_in_nocpy_owns, soft_vport_in_kick_owns}
use heterogeneous_multicore.Ptp.Receive.{
  SocketRxDev, Rx, frame, again, failed, RxState, tagged, filled, hand_over, received, rx_round,
  genavb_receive_pkts,
}

-- From s to s': every buffer made in between is now once more in a queue or given back.
abbrev pub Owned : ℕ → RxState → RxState → Type 0
Owned k s s' =
    queued k s'.net + gone k s'.net.heap + occurs k s.net.heap.made
    ≡ queued k s.net + gone k s.net.heap + occurs k s'.net.heap.made

module _ (flags : ℕ) (gptp_time : ℕ → ℕ) (sock : SocketRxDev) (malloc : ℕ → Bool) (k : ℕ) where
  buffer-tagged :
      (ts : ℕ) (bytes : List ℕ) (pkt : DataPkt)
      → (tagged flags gptp_time sock ts (filled flags gptp_time sock bytes pkt)).buffer ≡ pkt.buffer
  unfolding tagged data_pkt_set_len
  buffer-tagged ts bytes pkt = ground arith

  hand_over_owns :
      (pkt : DataPkt) (s : RxState)
      → let s' = hand_over flags gptp_time sock malloc pkt s in
        queued k s'.net + gone k s'.net.heap + occurs k s.net.heap.made
        ≡ queued k s.net + is_buffer k pkt + gone k s.net.heap + occurs k s'.net.heap.made
  unfolding hand_over
  hand_over_owns pkt s =
      let (v1, n1) = soft_vport_in_nocpy malloc s.vport_dev pkt s.net in
      let (same, heap) = soft_vport_in_kick_owns k v1 n1 in
      omega (
        arith,
        soft_vport_in_nocpy_owns malloc k s.vport_dev pkt s.net,
        same,
        ap (gone k) heap,
        ap (λ h. occurs k h.made) heap,
      )

  given_back_owns :
      (pkt : DataPkt) (s : RxState)
      → pkt.buffer ≡ s.net.heap.fresh
      → let h1 = record (s.net.heap) {
        fresh = s.net.heap.fresh + 1;
        made = s.net.heap.fresh ∷ s.net.heap.made;
      } in
        queued k s.net + gone k (data_pkt_free pkt h1) + occurs k s.net.heap.made
        ≡ queued k s.net + gone k s.net.heap + occurs k (data_pkt_free pkt h1).made
  given_back_owns pkt s e =
      let h1 = record (s.net.heap) {
        fresh = s.net.heap.fresh + 1;
        made = s.net.heap.fresh ∷ s.net.heap.made;
      } in
      omega (
        arith,
        gone-free k pkt h1,
        ap (occurs k) (made-free pkt h1),
        ap (λ (b : ℕ). occurs k (b ∷ [])) e,
      )

  received_owns :
      (r : Rx) (s : RxState) (o : Option DataPkt × Heap)
      → Allocated s.net.heap o
      → Owned k s
          (received flags gptp_time sock malloc r o.0
            (record s { net = record (s.net) { heap = o.1 } })).0
  received_owns r s _ no_memory = omega arith
  received_owns r s _ no_room = omega arith
  received_owns (frame bytes ts) s _ (allocated pkt e) =
      let s1 = record s {
        net = record (s.net) {
          heap = record (s.net.heap) {
            fresh = s.net.heap.fresh + 1;
            made = s.net.heap.fresh ∷ s.net.heap.made;
          };
        };
      } in
      let full = tagged flags gptp_time sock ts (filled flags gptp_time sock bytes pkt) in
      let named : full.buffer ≡ s.net.heap.fresh = buffer-tagged ts bytes pkt ∙ e in
      omega (arith, hand_over_owns full s1, ap (λ (b : ℕ). occurs k (b ∷ [])) named)
  received_owns again s _ (allocated pkt e) = given_back_owns pkt s e
  received_owns failed s _ (allocated pkt e) = given_back_owns pkt s e

  rx_round_owns : (r : Rx) (s : RxState) → Owned k s (rx_round flags gptp_time sock malloc r s).0
  unfolding rx_round
  rx_round_owns r s = received_owns r s _ (alloc-Allocated malloc _ _ s.net.heap)

  -- However many frames the socket gives, and whatever it ends with: every buffer that is made
  -- meanwhile, for the frames and for the switch's clones, is then once more in a queue of the
  -- switch or given back, and no other buffer is. So no buffer is lost, also where there is no
  -- memory.
  pub genavb_receive_pkts_owns :
      (rs : List Rx) (s : RxState)
      → Owned k s (genavb_receive_pkts flags gptp_time sock malloc rs s)
  unfolding genavb_receive_pkts
  genavb_receive_pkts_owns [] s = rx_round_owns again s
  genavb_receive_pkts_owns (r ∷ rs) s =
      let (s', more) = rx_round flags gptp_time sock malloc r s in
      let first = rx_round_owns r s in
      let later = genavb_receive_pkts_owns rs s' in
      elim (Bool-cases more) [ inl e ↦ rw e (omega (arith, first, later)) | inr e ↦ rw e first ]
