-- ===== src/Virtio/Network/Tx/Laws.antt =====
-- A frame of the front end reaches the switch, and its buffer goes back.
use heterogeneous_multicore.Base.{
  ℕ, suc, ◌+◌, ◌^◌, ◌≤◌, ◌<◌, ◌≡◌, refl, ap, ◌∙◌, Bool, false, List, [], ◌∷◌, some, arith, length,
  get_elem?, map,
}
use Prim.Native.Nat.{◌∣◌}
use heterogeneous_multicore.Base.Bytes.{bytes_at}
use heterogeneous_multicore.Net.Switch.{Net, Ref, port_in_pkt}
use heterogeneous_multicore.Virtio.Ring.{
  Desc, UsedElem, Iovec, Virtqueue, u16, virtio_queue_update_used_elem, virtio_queue_must_notify,
}
use heterogeneous_multicore.Virtio.Ring.Used.{read_used, read_used-complete, vring-must_notify}
use heterogeneous_multicore.Virtio.Ring.Avail.{vec}
use heterogeneous_multicore.Virtio.Iov.{entries}

-- The entries of a vector that holds some descriptors.
pub entries_of :
    (ds : List Desc) (iov : ℕ → Iovec)
    → ((k : ℕ) (d : Desc) → get_elem? ds k ≡ some d → iov k ≡ vec d)
    → entries (length ds) iov ≡ map vec ds
entries_of [] iov at = refl
entries_of (d ∷ ds) iov at =
    ap (λ v. v ∷ entries (length ds) (λ i. iov (suc i))) (at 0 d refl)
    ∙ ap (λ vs. vec d ∷ vs) (entries_of ds (λ i. iov (suc i)) (λ k e h. at (suc k) e h))

pub used_after :
    (vq : Virtqueue) (e : UsedElem)
    → vq.vring.num ∣ 2 ^ 16
    → vq.vring.used_idx < 2 ^ 16
    → 1 ≤ vq.vring.num
    → let vr = (virtio_queue_must_notify (virtio_queue_update_used_elem vq e.id e.len)).1.vring in
      (read_used vq.vring.used_idx 1 vr ≡ e ∷ []) × (vr.used_idx ≡ u16 (vq.vring.used_idx + 1))
used_after vq e divides small room =
    let (reads, idx) = read_used-complete (e ∷ []) vq divides small room in
    let same = vring-must_notify (virtio_queue_update_used_elem vq e.id e.len) in
    (
      ap (λ vr. read_used vq.vring.used_idx 1 vr) same ∙ reads,
      omega (arith, ap (λ vr. vr.used_idx) same, idx),
    )

module _ (malloc : ℕ → Bool) (port : Ref) (mem : ℕ → ℕ) where
  -- Descriptors whose bytes come in by the port as one packet each, the first one first.
  pub data ComeIn : List Desc → Net → Net → Type 0 where
    none_left : {net : Net} → ComeIn [] net net
    comes_in :
        {d : Desc} {ds : List Desc} {net net' : Net}
        → ComeIn ds (port_in_pkt malloc port (bytes_at d.addr d.len mem) false net) net'
        → ComeIn (d ∷ ds) net net'
