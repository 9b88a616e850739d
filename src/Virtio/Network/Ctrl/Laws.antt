-- ===== src/Virtio/Network/Ctrl/Laws.antt =====
-- The command that sets the address of the device.
use heterogeneous_multicore.Base.{
  ℕ, suc, ◌+◌, ◌-◌, ◌^◌, ◌≤◌, ◌<◌, ◌≡◌, ◌≢◌, refl, ap, ◌∙◌, true, false, List, [], ◌∷◌, some, arith,
  test_bit, append-nil, is_some, ◌++◌, if◌then◌else◌, ◌==◌, Bool-cases, inl, inr, sym,
}
use heterogeneous_multicore.Base.Bytes.{put, bytes_at, min, take_all, drop_all}
use Prim.Native.Nat.{◌∣◌}
use heterogeneous_multicore.Net.Switch.{
  Net, Ref, remote, local, local_at, on_local, on_port, port_at,
}
use heterogeneous_multicore.Net.Port.{SwitchPort}
use heterogeneous_multicore.Net.Fdb.{told, update, port_update_addr}
use heterogeneous_multicore.Virtio.Network.{virtio_net_queue_size}
use heterogeneous_multicore.Virtio.Ring.{
  Desc, UsedElem, Iovec, Vector, u16, write_bit, taken, next_head, start_of, table_of,
}
use heterogeneous_multicore.Virtio.Ring.Used.{read_used}
use heterogeneous_multicore.Virtio.Ring.Avail.{Chain, vec, virtio_queue_get_iov-Chain}
use heterogeneous_multicore.Virtio.Iov.{
  advanced, entries, iov_size, memcpy_toiovec, memcpy_fromiovec,
}
use heterogeneous_multicore.Virtio.Iov.Laws.{from_step}
use heterogeneous_multicore.Virtio.Network.Tx.Laws.{entries_of, used_after}
use heterogeneous_multicore.Virtio.Network.Ctrl.{
  CtrlState, command, set_addr, update_found, answer, acknowledged, with_hdr, first_entry,
  from_entry, ctrl_command, then_command, answered_round, ctrl_round,
}

-- The first bytes of an entry that has as many.
read_entry :
    (v : Iovec) (iov : List Iovec) (n : ℕ) (mem : ℕ → ℕ)
    → suc n ≤ v.len
    → memcpy_fromiovec (v ∷ iov) (suc n) mem
      ≡ some
          (record { addr = v.addr + suc n; len = v.len - suc n } ∷ iov, bytes_at v.addr (suc n) mem)
unfolding memcpy_fromiovec
read_entry v iov n mem h =
    let least : min v.len (suc n) ≡ suc n = ground arith in
    let nothing : suc n - suc n ≡ 0 = omega arith in
    let kept : Iovec = record { addr = v.addr + suc n; len = v.len - suc n } in
    from_step v iov n mem (suc n) 0 least nothing
    ∙ ap (λ ys. some (kept ∷ iov, ys)) (append-nil (bytes_at v.addr (suc n) mem))

memcpy_toiovec-nil : (iov : List Iovec) (mem : ℕ → ℕ) → memcpy_toiovec iov [] mem ≡ some (iov, mem)
unfolding memcpy_toiovec
memcpy_toiovec-nil [] mem = refl
memcpy_toiovec-nil (v ∷ iov) mem = refl

-- One byte into an entry that has room.
write_ack :
    (v : Iovec) (iov : List Iovec) (x : ℕ) (mem : ℕ → ℕ)
    → 1 ≤ v.len
    → memcpy_toiovec (v ∷ iov) (x ∷ []) mem ≡ some (advanced v 1 ∷ iov, put v.addr (x ∷ []) mem)
unfolding memcpy_toiovec
write_ack v iov x mem h =
    rw (drop_all v.len (x ∷ []) h, take_all v.len (x ∷ []) h, memcpy_toiovec-nil) refl

-- A write of a whole port through a pointer, and what the pointers then lead to.
local_at-on_local :
    (id other : ℕ) (p q : SwitchPort) (ps : List SwitchPort)
    → local_at id ps ≡ some p
    → q.id ≡ p.id
    → (local_at id (on_local id (λ r. q) ps) ≡ some q)
      × (id ≢ other → local_at other (on_local id (λ r. q) ps) ≡ local_at other ps)
unfolding local_at on_local
local_at-on_local id other p q [] found same = absurd (ground arith)
local_at-on_local id other p q (r ∷ ps) found same = elim (Bool-cases (r.id == id)) [
  | inl e ↦
      let here : r ≡ p = ground arith in
      let named : q.id ≡ id = same ∙ sym (ap (λ (x : SwitchPort). x.id) here) ∙ ground arith in
      (ground (arith, e, named), λ ne. ground (arith, e, named))
  | inr e ↦
      let rest : local_at id ps ≡ some p = ground arith in
      let (l, o) = local_at-on_local id other p q ps rest same in
      (ground (arith, e, l), λ ne. let kept = o ne in ground (arith, e, kept))
]

port_at-on_port :
    (port other : Ref) (p q : SwitchPort) (net : Net)
    → port_at port net ≡ some p
    → q.id ≡ p.id
    → (port_at port (on_port port (λ r. q) net) ≡ some q)
      × (port ≢ other → port_at other (on_port port (λ r. q) net) ≡ port_at other net)
unfolding port_at on_port
port_at-on_port remote remote p q net found same = (rw found refl, λ ne. absurd (ne refl))
port_at-on_port remote (local other) p q net found same = (rw found refl, λ ne. refl)
port_at-on_port (local id) remote p q net found same =
    ((local_at-on_local id 0 p q net.local_port_list found same).0, λ ne. refl)
port_at-on_port (local id) (local other) p q net found same =
    let (l, o) = local_at-on_local id other p q net.local_port_list found same in
    (l, λ ne. o (λ e. ne (ap local e)))

-- A command to set the address, with its entries.
module _ (port : Ref) (head : ℕ) (h m a : Iovec) (s : CtrlState) (p : SwitchPort)
    (found : port_at port s.net ≡ some p) (hdr : 2 ≤ h.len) (mac : 6 ≤ m.len) (ack : 1 ≤ a.len)
    (class : s.mem h.addr ≡ 1) (cmd : s.mem (suc h.addr) ≡ 1) where
  abbrev with_ctrl : CtrlState
  with_ctrl = record s { ctrl = record { class = s.mem h.addr; cmd = s.mem (suc h.addr) } }

  abbrev with_mac : CtrlState
  with_mac =
      let mac = bytes_at m.addr 6 s.mem in
      record with_ctrl {
        net = on_port port (λ r. record p { mac_addr = mac; power_on = true }) s.net;
        ops = s.ops ++ told (is_some s.net.remote_port) (update mac p.mac_addr);
      }

  sets_addr :
      (iov : List Iovec) (s' : CtrlState)
      → s'.ctrl.class ≡ 1
      → s'.ctrl.cmd ≡ 1
      → command port iov s' ≡ set_addr port (memcpy_fromiovec (from_entry 1 iov) 6 s'.mem) s'
  unfolding command
  sets_addr iov s' e f = ground arith

  commanded : (h' : Iovec) → command port (h' ∷ m ∷ a ∷ []) with_ctrl ≡ some (0, with_mac)
  unfolding port_update_addr
  commanded h' =
      sets_addr (h' ∷ m ∷ a ∷ []) with_ctrl class cmd
      ∙ ap (λ o. set_addr port o with_ctrl) (read_entry m (a ∷ []) 5 s.mem mac)
      ∙ ap (λ o. update_found port (bytes_at m.addr 6 s.mem) o with_ctrl) found

  answered :
      (v : Vector)
      → entries (v.cnt_out + v.cnt_in) v.iov ≡ h ∷ m ∷ a ∷ []
      → v.cnt_out ≡ 2
      → ctrl_command port head v s
        ≡ acknowledged port head (some (advanced a 1 ∷ [], put a.addr (0 ∷ []) s.mem)) with_mac
  unfolding ctrl_command iov_size
  answered v e out =
      let all = h ∷ m ∷ a ∷ [] in
      let h' : Iovec = record { addr = h.addr + 2; len = h.len - 2 } in
      let size : min (h.len + 0) 2 ≡ 2 = ground arith in
      ap
        (λ xs.
          with_hdr port head v.cnt_out xs
            (memcpy_fromiovec xs (min (iov_size (first_entry xs)) 2) s.mem) s)
        e
      ∙ ap (λ n. with_hdr port head v.cnt_out all (memcpy_fromiovec all n s.mem) s) size
      ∙ ap (λ n. with_hdr port head n all (memcpy_fromiovec all 2 s.mem) s) out
      ∙ ap (λ o. with_hdr port head 2 all o s) (read_entry h (m ∷ a ∷ []) 1 s.mem hdr)
      ∙ ap (λ o. answer port head (a ∷ []) o) (commanded h')
      ∙ ap (λ o. acknowledged port head o with_mac) (write_ack a [] 0 s.mem ack)

-- What the command changes beside the ring: the port's address, and the calls of the remote port.
pub record AddressSet (port : Ref) (mac : List ℕ) (p : SwitchPort) (s s' : CtrlState) : Type 0 where
  pub address : port_at port s'.net ≡ some (record p { mac_addr = mac; power_on = true })
  pub others : (other : Ref) → port ≢ other → port_at other s'.net ≡ port_at other s.net
  pub calls :
      s'.ops ≡ s.ops ++ (if is_some s.net.remote_port then update mac p.mac_addr ∷ [] else [])

-- A command to set the address, in a chain of three descriptors that is available: the header and the
-- address for the device to read, and a place for the answer; the device's port is there. The round
-- ends; the port has the six bytes as its address and is on, and is else as it was, like all other
-- ports; the remote port, if there is one, is called with the new address and the old; the answer is
-- 0, at the place for it, and no other byte is written; and the front end reads the chain's head in
-- the used ring, with length 1.
pub ctrl_round_sets_addr :
    (port : Ref) (iov : ℕ → Iovec) (s : CtrlState) (p : SwitchPort) (h m a : Desc)
    → port_at port s.net ≡ some p
    → s.vq.vring.avail_idx ≢ s.vq.last_avail_idx
    → Chain
        (table_of s.vq.vring (next_head s.vq))
        (start_of s.vq.vring (next_head s.vq))
        (h ∷ m ∷ a ∷ [])
    → test_bit h.flags write_bit ≡ false
    → test_bit m.flags write_bit ≡ false
    → test_bit a.flags write_bit ≡ true
    → 2 ≤ h.len
    → 6 ≤ m.len
    → 1 ≤ a.len
    → s.mem h.addr ≡ 1
    → s.mem (suc h.addr) ≡ 1
    → s.vq.vring.num ∣ 2 ^ 16
    → s.vq.vring.used_idx < 2 ^ 16
    → 1 ≤ s.vq.vring.num
    → (s' : CtrlState) × (ctrl_round port iov s ≡ some (s', true))
      × AddressSet port (bytes_at m.addr 6 s.mem) p s s'
      × (s'.mem ≡ put a.addr (0 ∷ []) s.mem)
      × (read_used s.vq.vring.used_idx 1 s'.vq.vring ≡ record { id = next_head s.vq; len = 1 } ∷ [])
      × (s'.vq.vring.used_idx ≡ u16 (s.vq.vring.used_idx + 1))
unfolding ctrl_round
ctrl_round_sets_addr port iov s p h m a found more c hr mr aw hlen mlen alen class cmd divides idx
      room =
    let ds = h ∷ m ∷ a ∷ [] in
    let (v, got, at, beyond, out, in1, moved) =
      virtio_queue_get_iov-Chain virtio_net_queue_size s.vq iov ds more c (omega arith)
        (omega arith) in
    let s1 : CtrlState = record s { vq = taken s.vq } in
    let outs : v.cnt_out ≡ 2 = out ∙ ground arith in
    let all : v.cnt_out + v.cnt_in ≡ 3 = ground arith in
    let vector = ap (λ n. entries n v.iov) all ∙ entries_of ds v.iov at in
    let done =
      answered port (next_head s.vq) (vec h) (vec m) (vec a) s1 p found hlen mlen alen class cmd v
        vector outs in
    let e : UsedElem = record { id = next_head s.vq; len = 1 } in
    let (used, index) = used_after (taken s.vq) e divides idx room in
    let new : SwitchPort = record p { mac_addr = bytes_at m.addr 6 s.mem; power_on = true } in
    (
      _,
      ap (λ o. then_command port o s) got ∙ ap answered_round done,
      record {
        address = (port_at-on_port port port p new s.net found refl).0;
        others = λ other ne. (port_at-on_port port other p new s.net found refl).1 ne;
        calls = refl;
      },
      refl,
      used,
      index,
    )
