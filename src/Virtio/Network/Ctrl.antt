-- ===== src/Virtio/Network/Ctrl.antt =====
-- virtio_net_ctrl_task of virtio/devices/network.c: the front end's commands.
pub mod Laws
use heterogeneous_multicore.Base.{
  ℕ, zero, suc, ◌+◌, Bool, true, false, List, [], ◌∷◌, ◌++◌, Option, none, some, ◌==◌,
  if◌then◌else◌, get_or, is_some,
}
use heterogeneous_multicore.Base.Int.{ℤ, pos, negsuc}
use heterogeneous_multicore.Base.Bytes.{min}
use heterogeneous_multicore.Net.Port.{SwitchPort}
use heterogeneous_multicore.Net.Switch.{Net, Ref, on_port, port_at}
use heterogeneous_multicore.Net.Fdb.{AddrOp, port_update_addr}
use heterogeneous_multicore.Virtio.Network.{virtio_net_queue_size}
use heterogeneous_multicore.Virtio.Ring.{
  Iovec, Virtqueue, Vector, virtio_queue_get_iov, virtio_queue_update_used_elem,
  virtio_queue_must_notify,
}
use heterogeneous_multicore.Virtio.Iov.{entries, iov_size, memcpy_toiovec, memcpy_fromiovec}

-- `struct virtio_net_ctrl_hdr`, which keeps what a short header does not fill.
pub record CtrlHdr : Type 0 where
  pub class : ℕ
  pub cmd : ℕ

-- What the task works on; `ops` has the calls of the remote port's setup_address_cb.
pub record CtrlState : Type 0 where
  pub ctrl : CtrlHdr
  pub vq : Virtqueue
  pub mem : ℕ → ℕ
  pub net : Net
  pub ops : List AddrOp
  pub interrupts : ℕ

abbrev pub virtio_net_ok : ℕ
virtio_net_ok = 0

abbrev pub virtio_net_err : ℕ
virtio_net_err = 1

abbrev pub ctrl_mac : ℕ
ctrl_mac = 1

abbrev pub ctrl_mac_addr_set : ℕ
ctrl_mac_addr_set = 1

abbrev pub ctrl_mq : ℕ
ctrl_mq = 4

-- The entries from the n-th on.
abbrev pub from_entry : ℕ → List Iovec → List Iovec
from_entry zero iov = iov
from_entry (suc n) [] = []
from_entry (suc n) (v ∷ iov) = from_entry n iov

-- The first entry alone, and the vector as the header's copying leaves it.
abbrev pub first_entry : List Iovec → List Iovec
first_entry [] = []
first_entry (v ∷ iov) = v ∷ []

abbrev pub answered_round : Option CtrlState → Option (CtrlState × Bool)
answered_round none = none
answered_round (some s) = some (s, true)

module _ (port : Ref) where
  -- port_update_addr of the device's port, given what the pointer to it leads to; nothing where it
  -- leads nowhere.
  abbrev pub update_found : List ℕ → Option SwitchPort → CtrlState → Option (ℕ × CtrlState)
  update_found mac none s = none
  update_found mac (some p) s =
      let (q, ops) = port_update_addr (is_some s.net.remote_port) p mac in
      some (virtio_net_ok, record s { net = on_port port (λ p. q) s.net; ops = s.ops ++ ops })

  abbrev pub update_addr : List ℕ → CtrlState → Option (ℕ × CtrlState)
  update_addr mac s = update_found mac (port_at port s.net) s

  abbrev pub set_addr : Option (List Iovec × List ℕ) → CtrlState → Option (ℕ × CtrlState)
  set_addr none s = none
  set_addr (some (iov, mac)) s = update_addr mac s

  -- The switch over the class: the acknowledgement. Nothing where the vector is read beyond its end.
  unfoldable pub command : List Iovec → CtrlState → Option (ℕ × CtrlState)
  command iov s =
      if s.ctrl.class == ctrl_mac
      then if s.ctrl.cmd == ctrl_mac_addr_set
        then set_addr (memcpy_fromiovec (from_entry 1 iov) 6 s.mem) s
        else some (virtio_net_err, s)
      else if s.ctrl.class == ctrl_mq
      then some (virtio_net_ok, s)
      else some (virtio_net_err, s)

  abbrev pub acknowledged : ℕ → Option (List Iovec × (ℕ → ℕ)) → CtrlState → Option CtrlState
  acknowledged head none s = none
  acknowledged head (some (iov, mem)) s =
      let (must, vq) = virtio_queue_must_notify (virtio_queue_update_used_elem s.vq head 1) in
      some (record s {
        mem = mem;
        vq = vq;
        interrupts = if must then s.interrupts + 1 else s.interrupts;
      })

  abbrev pub answer : ℕ → List Iovec → Option (ℕ × CtrlState) → Option CtrlState
  answer head back none = none
  answer head back (some (ack, s)) = acknowledged head (memcpy_toiovec back (ack ∷ []) s.mem) s

  abbrev pub read_hdr : CtrlHdr → List ℕ → CtrlHdr
  read_hdr old bytes = record { class = get_or bytes 0 old.class; cmd = get_or bytes 1 old.cmd }

  abbrev pub with_hdr :
      ℕ → ℕ → List Iovec → Option (List Iovec × List ℕ) → CtrlState → Option CtrlState
  with_hdr head out all none s = none
  with_hdr head out all (some (iov, bytes)) s =
      answer head (from_entry out iov) (command iov (record s { ctrl = read_hdr s.ctrl bytes }))

  -- A round with a head.
  unfoldable pub ctrl_command : ℕ → Vector → CtrlState → Option CtrlState
  ctrl_command head v s =
      let all = entries (v.cnt_out + v.cnt_in) v.iov in
      let len = min (iov_size (first_entry all)) 2 in
      with_hdr head v.cnt_out all (memcpy_fromiovec all len s.mem) s

  abbrev pub then_command : Option (ℤ × Virtqueue × Vector) → CtrlState → Option (CtrlState × Bool)
  then_command none s = none
  then_command (some (negsuc k, vq, v)) s = some (record s { vq = vq }, false)
  then_command (some (pos head, vq, v)) s =
      answered_round (ctrl_command head v (record s { vq = vq }))

  -- None where the chain has more descriptors than the array `iov` has entries, as well.
  unfoldable pub ctrl_round : (ℕ → Iovec) → CtrlState → Option (CtrlState × Bool)
  ctrl_round iov s = then_command (virtio_queue_get_iov virtio_net_queue_size s.vq iov) s
