-- ===== src/Virtio/Trans/Tasks/Offered.antt =====
-- Chains that are available, whatever is written in the used ring.
use heterogeneous_multicore.Base.{
  not, ℕ, ◌^◌, ◌≤◌, ◌<◌, ◌≡◌, ◌≢◌, Bool, true, false, List, [], ◌∷◌, if◌then◌else◌, length,
  test_bit,
}
use heterogeneous_multicore.Virtio.Ring.{
  Desc, Virtqueue, taken, next_head, start_of, table_of, virtio_queue_add_used_elem,
  virtio_queue_update_used_idx, virtio_queue_update_used_elem, virtio_queue_must_notify,
  vring_need_event, no_interrupt_bit,
}
use heterogeneous_multicore.Virtio.Ring.Avail.{Chain}

-- Chains that the front end has made available, by their heads.
abbrev pub Offered : ℕ → List (ℕ × List Desc) → Virtqueue → Type 0
Offered chain [] vq = Unit
Offered chain ((h, ds) ∷ cs) vq =
    (vq.vring.avail_idx ≢ vq.last_avail_idx)
    × (next_head vq ≡ h)
    × Chain (table_of vq.vring (next_head vq)) (start_of vq.vring (next_head vq)) ds
    × (length ds ≤ chain)
    × (length ds < 2 ^ 16)
    × Offered chain cs (taken vq)

-- Neither the used ring nor the index of the last notification matters for what is available.
pub Offered-completed :
    (chain : ℕ) (cs : List (ℕ × List Desc)) (vq : Virtqueue) (id len : ℕ)
    → Offered chain cs vq
    → Offered chain cs (virtio_queue_update_used_elem vq id len)
unfolding virtio_queue_update_used_elem virtio_queue_add_used_elem virtio_queue_update_used_idx
Offered-completed chain [] vq id len s = tt
Offered-completed chain ((h, ds) ∷ cs) vq id len (more, head, c, enough, small, later) =
    (more, head, c, enough, small, Offered-completed chain cs (taken vq) id len later)

Offered-notified :
    (chain : ℕ) (cs : List (ℕ × List Desc)) (vq : Virtqueue) (n : ℕ)
    → Offered chain cs vq
    → Offered chain cs (record vq { last_notified_idx = n })
Offered-notified chain [] vq n s = tt
Offered-notified chain ((h, ds) ∷ cs) vq n (more, head, c, enough, small, later) =
    (more, head, c, enough, small, Offered-notified chain cs (taken vq) n later)

notified-Offered :
    (chain : ℕ) (cs : List (ℕ × List Desc)) (vq : Virtqueue) (events needed quiet : Bool)
    → Offered chain cs vq
    → let r : Bool × Virtqueue =
        if events
        then if needed
          then (true, record vq { last_notified_idx = vq.vring.used_idx })
          else (false, vq)
        else (quiet, vq) in
      Offered chain cs r.1
notified-Offered chain cs vq true true quiet s = Offered-notified chain cs vq vq.vring.used_idx s
notified-Offered chain cs vq true false quiet s = s
notified-Offered chain cs vq false needed quiet s = s

pub Offered-must_notify :
    (chain : ℕ) (cs : List (ℕ × List Desc)) (vq : Virtqueue)
    → Offered chain cs vq
    → Offered chain cs (virtio_queue_must_notify vq).1
unfolding virtio_queue_must_notify
Offered-must_notify chain cs vq s =
    notified-Offered chain cs vq vq.use_event_idx
      (vring_need_event vq.vring.used_event vq.vring.used_idx vq.last_notified_idx)
      (not (test_bit vq.vring.avail_flags no_interrupt_bit)) s
