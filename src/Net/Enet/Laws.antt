-- ===== src/Net/Enet/Laws.antt =====
-- Every frame that the driver gives is the switch's, and every port is told.
use heterogeneous_multicore.Base.{
  ℕ, ◌+◌, ◌≡◌, refl, ap, Bool, true, false, List, [], ◌∷◌, arith, if◌then◌else◌,
}
use heterogeneous_multicore.Net.DataPkt.{data_pkt_set_len}
use heterogeneous_multicore.Net.DataPkt.Laws.{gone, occurs}
use heterogeneous_multicore.Net.Switch.{Net, Ref, notify_ports}
use heterogeneous_multicore.Net.Switch.Counts.{queued, is_buffer}
use heterogeneous_multicore.Net.Switch.Ownership.{
  port_in_pkt_nocpy_owns, notify_ports-queued, heap-notify_ports,
}
use heterogeneous_multicore.Net.Software.Laws.{Quiet, notify_ports-Quiet}
use heterogeneous_multicore.Net.Enet.{
  EnetStats, RxFrame, success, drop, error, EnetState, rx_frame, rx_frames, enet_process_pkts,
}

-- How many of some frames stand in a buffer.
abbrev pub frames_in : ℕ → List RxFrame → ℕ
frames_in k [] = 0
frames_in k (success pkt len ∷ fs) = is_buffer k pkt + frames_in k fs
frames_in k (drop ∷ fs) = frames_in k fs
frames_in k (error e ∷ fs) = frames_in k fs

-- Whether a frame has arrived.
abbrev pub arrived : List RxFrame → Bool
arrived [] = false
arrived (success pkt len ∷ fs) = true
arrived (drop ∷ fs) = arrived fs
arrived (error e ∷ fs) = arrived fs

-- From one state of the switch to another, with n more uses of the buffer k.
abbrev pub Owned : ℕ → ℕ → Net → Net → Type 0
Owned k n net net' =
    queued k net' + gone k net'.heap + occurs k net.heap.made
    ≡ queued k net + n + gone k net.heap + occurs k net'.heap.made

module _ (malloc : ℕ → Bool) (port : Ref) (k : ℕ) where
  rx_frames_owns :
      (fs : List RxFrame) (s : EnetState)
      → Owned k (frames_in k fs) s.net (rx_frames malloc port fs s).net
  unfolding rx_frames rx_frame data_pkt_set_len
  rx_frames_owns [] s = omega arith
  rx_frames_owns (success pkt len ∷ fs) s =
      let s1 = rx_frame malloc port (success pkt len) s in
      omega (
        arith,
        port_in_pkt_nocpy_owns malloc k (data_pkt_set_len pkt len) port false s.net,
        rx_frames_owns fs s1,
      )
  rx_frames_owns (drop ∷ fs) s = rx_frames_owns fs (rx_frame malloc port drop s)
  rx_frames_owns (error e ∷ fs) s = rx_frames_owns fs (rx_frame malloc port (error e) s)

  keeps_notify :
      (fs : List RxFrame) (s : EnetState)
      → s.need_notify ≡ true
      → (rx_frames malloc port fs s).need_notify ≡ true
  unfolding rx_frames rx_frame
  keeps_notify [] s e = e
  keeps_notify (success pkt len ∷ fs) s e =
      keeps_notify fs (rx_frame malloc port (success pkt len) s) refl
  keeps_notify (drop ∷ fs) s e = keeps_notify fs (rx_frame malloc port drop s) e
  keeps_notify (error x ∷ fs) s e = keeps_notify fs (rx_frame malloc port (error x) s) e

  needs_notify :
      (fs : List RxFrame) (s : EnetState)
      → arrived fs ≡ true
      → (rx_frames malloc port fs s).need_notify ≡ true
  unfolding rx_frames rx_frame
  needs_notify [] s e = cc
  needs_notify (success pkt len ∷ fs) s e =
      keeps_notify fs (rx_frame malloc port (success pkt len) s) refl
  needs_notify (drop ∷ fs) s e = needs_notify fs (rx_frame malloc port drop s) e
  needs_notify (error x ∷ fs) s e = needs_notify fs (rx_frame malloc port (error x) s) e

  notified :
      (b : Bool) (net : Net)
      → let net' = if b then notify_ports net else net in
        (queued k net' ≡ queued k net) × (net'.heap ≡ net.heap) × (b ≡ true → Quiet net')
  notified true net =
      (notify_ports-queued k net, heap-notify_ports k net, λ e. notify_ports-Quiet net)
  notified false net = (refl, refl, λ e. cc)

  -- Whatever frames the driver gives for an event, and also where no memory is found for the switch's
  -- clones: each buffer is then once more in a queue of the switch, or given back, for every frame
  -- that stood in it and for every time that it was made meanwhile. No frame is lost. If a frame has
  -- arrived, no port of the switch still has to be notified.
  pub enet_process_pkts_owns :
      (fs : List RxFrame) (stats : EnetStats) (net : Net)
      → let net' = (enet_process_pkts malloc port fs stats net).1 in
        Owned k (frames_in k fs) net net' × (arrived fs ≡ true → Quiet net')
  unfolding enet_process_pkts
  enet_process_pkts_owns fs stats net =
      let s : EnetState = record { stats = stats; net = net; need_notify = false } in
      let s' = rx_frames malloc port fs s in
      let (same, heap, quiet) = notified s'.need_notify s'.net in
      (
        omega (arith, rx_frames_owns fs s, same, ap (gone k) heap, ap (λ h. occurs k h.made) heap),
        λ e. quiet (needs_notify fs s e),
      )
