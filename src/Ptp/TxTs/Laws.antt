-- ===== src/Ptp/TxTs/Laws.antt =====
-- Every buffer for a time stamp reaches the switch.
use heterogeneous_multicore.Base.{ℕ, ◌+◌, ◌≡◌, ap, Bool, List, [], ◌∷◌, Option, arith}
use heterogeneous_multicore.Net.DataPkt.{DataPkt, Heap}
use heterogeneous_multicore.Net.DataPkt.Laws.{
  gone, occurs, Allocated, alloc-Allocated, no_memory, no_room, allocated,
}
use heterogeneous_multicore.Net.Switch.Counts.{queued, is_buffer}
use heterogeneous_multicore.Net.Software.{soft_vport_in_nocpy}
use heterogeneous_multicore.Net.Software.Laws.{soft_vport_in_nocpy_owns, soft_vport_in_kick_owns}
use heterogeneous_multicore.Ptp.Receive.{RxState}
use heterogeneous_multicore.Ptp.Receive.Laws.{Owned}
use heterogeneous_multicore.Ptp.TxTs.{
  send_up, written, with_pkt, handle_tx_ts, genavb_retrieve_ptp_ts,
}

module _ (malloc : ℕ → Bool) (gptp_time : ℕ → ℕ) (hwaddr : List ℕ) (hardware_id k : ℕ) where
  send_up_owns :
      (pkt : DataPkt) (s : RxState)
      → let s' = send_up malloc gptp_time hwaddr hardware_id pkt s in
        queued k s'.net + gone k s'.net.heap + occurs k s.net.heap.made
        ≡ queued k s.net + is_buffer k pkt + gone k s.net.heap + occurs k s'.net.heap.made
  unfolding send_up
  send_up_owns pkt s =
      let (v1, n1) = soft_vport_in_nocpy malloc s.vport_dev pkt s.net in
      let (same, heap) = soft_vport_in_kick_owns k v1 n1 in
      omega (
        arith,
        soft_vport_in_nocpy_owns malloc k s.vport_dev pkt s.net,
        same,
        ap (gone k) heap,
        ap (λ h. occurs k h.made) heap,
      )

  with_pkt_owns :
      (ts ts_priv : ℕ) (s : RxState) (o : Option DataPkt × Heap)
      → Allocated s.net.heap o
      → Owned k s (
          with_pkt malloc gptp_time hwaddr hardware_id ts ts_priv o.0
            (record s { net = record (s.net) { heap = o.1 } }))
  with_pkt_owns ts ts_priv s _ no_memory = omega arith
  with_pkt_owns ts ts_priv s _ no_room = omega arith
  with_pkt_owns ts ts_priv s _ (allocated pkt e) =
      let s1 = record s {
        net = record (s.net) {
          heap = record (s.net.heap) {
            fresh = s.net.heap.fresh + 1;
            made = s.net.heap.fresh ∷ s.net.heap.made;
          };
        };
      } in
      omega (
        arith,
        send_up_owns (written malloc gptp_time hwaddr hardware_id ts ts_priv pkt) s1,
        ap (λ (b : ℕ). occurs k (b ∷ [])) e,
      )

  handle_tx_ts_owns :
      (ts ts_priv : ℕ) (s : RxState)
      → Owned k s (handle_tx_ts malloc gptp_time hwaddr hardware_id ts ts_priv s)
  unfolding handle_tx_ts
  handle_tx_ts_owns ts ts_priv s =
      with_pkt_owns ts ts_priv s _ (alloc-Allocated malloc _ _ s.net.heap)

  -- However many time stamps the socket gives: every buffer that is made for them, or by the switch
  -- meanwhile, is then once more in a queue of the switch or given back, and no other buffer is.
  pub genavb_retrieve_ptp_ts_owns :
      (stamps : List (ℕ × ℕ)) (s : RxState)
      → Owned k s (genavb_retrieve_ptp_ts malloc gptp_time hwaddr hardware_id stamps s)
  unfolding genavb_retrieve_ptp_ts
  genavb_retrieve_ptp_ts_owns [] s = omega arith
  genavb_retrieve_ptp_ts_owns ((ts, ts_priv) ∷ rest) s = omega (
    arith,
    handle_tx_ts_owns ts ts_priv s,
    genavb_retrieve_ptp_ts_owns rest
        (handle_tx_ts malloc gptp_time hwaddr hardware_id ts ts_priv s),
  )
