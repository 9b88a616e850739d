-- ===== src/Virtio/Network/Tx.antt =====
-- virtio_net_tx_task of virtio/devices/network.c: the frames of the front end go to the switch.
pub mod Laws
use heterogeneous_multicore.Base.{
  ℕ, suc, ◌+◌, ◌%◌, ◌^◌, Bool, true, false, List, [], ◌∷◌, Option, none, some, if◌then◌else◌,
}
use heterogeneous_multicore.Base.Int.{ℤ, pos, negsuc}
use heterogeneous_multicore.Base.Bytes.{bytes_at}
use heterogeneous_multicore.Net.Port.{SwitchPort, cable_link_is_on, u64_inc}
use heterogeneous_multicore.Net.Switch.{Net, Ref, port_at, port_in_pkt, notify_ports}
use heterogeneous_multicore.Virtio.Ring.{
  Iovec, Virtqueue, Vector, virtio_queue_get_iov, virtio_queue_update_used_elem,
  virtio_queue_must_notify,
}
use heterogeneous_multicore.Virtio.Iov.{entries, iov_size}
use heterogeneous_multicore.Virtio.Network.{NetDev, coalesce_tx, virtio_net_queue_size}

-- What the task works on.
pub record TxState : Type 0 where
  pub ndev : NetDev
  pub vq : Virtqueue
  pub net : Net

abbrev pub link_of : Option SwitchPort → Bool
link_of none = false
link_of (some p) = cable_link_is_on p

-- The entries behind the first, which is the header.
abbrev pub behind : List Iovec → List Iovec
behind [] = []
behind (v ∷ iov) = iov

abbrev pub count_tx : NetDev → NetDev
count_tx ndev = record ndev { tx_pkts = u64_inc ndev.tx_pkts; tx_cnt = u64_inc ndev.tx_cnt }

module _ (malloc : ℕ → Bool) (port : Ref) (mem : ℕ → ℕ) where
  -- `for (i = 1; i < out; i++) port_in_pkt(port, iov[i].addr, iov[i].len, false)`
  unfoldable pub give_each : List Iovec → Net → Net
  give_each [] net = net
  give_each (v ∷ iov) net =
      give_each iov (port_in_pkt malloc port (bytes_at v.addr v.len mem) false net)

  -- What stands at `out` and behind it.
  unfoldable pub hand_back : ℕ → ℕ → TxState → TxState
  hand_back head len s =
      let (must, vq) = virtio_queue_must_notify (virtio_queue_update_used_elem s.vq head len) in
      record s { vq = vq; ndev = coalesce_tx must s.ndev }

  -- A round with a head.
  unfoldable pub tx_frame : ℕ → Vector → TxState → TxState
  tx_frame head v s =
      let iov = entries v.cnt_out v.iov in
      let given =
        if link_of (port_at port s.net)
        then record s { net = notify_ports (give_each (behind iov) s.net); ndev = count_tx s.ndev }
        else s in
      hand_back head (iov_size iov % 2 ^ 32) given

  -- One call of virtio_queue_get_iov and what follows. Without a head the task sleeps until the front
  -- end notifies it; none is a chain of more descriptors than the array `iov` has entries, whether it
  -- ends or not: the call writes beyond the array.
  abbrev pub then_frame : Option (ℤ × Virtqueue × Vector) → TxState → Option (TxState × Bool)
  then_frame none s = none
  then_frame (some (negsuc k, vq, v)) s = some (record s { vq = vq }, false)
  then_frame (some (pos head, vq, v)) s = some (tx_frame head v (record s { vq = vq }), true)

  unfoldable pub tx_round : (ℕ → Iovec) → TxState → Option (TxState × Bool)
  tx_round iov s = then_frame (virtio_queue_get_iov virtio_net_queue_size s.vq iov) s
