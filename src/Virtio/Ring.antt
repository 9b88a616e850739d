-- ===== src/Virtio/Ring.antt =====
-- The split virtqueue of virtio/devices/core.c and include/virtio/uapi/virtio_ring.h, as the device
-- sees it.
pub mod Used
pub mod Avail
use heterogeneous_multicore.Base.{
  ℕ, zero, suc, ◌+◌, ◌-◌, ◌%◌, ◌^◌, Bool, true, false, not, Option, none, some, ◌==◌, ltb,
  if◌then◌else◌, test_bit, update,
}
use heterogeneous_multicore.Base.Int.{ℤ, pos, negsuc}

-- `struct vring_desc`
pub record Desc : Type 0 where
  pub addr : ℕ
  pub len : ℕ
  pub flags : ℕ
  pub next : ℕ

-- `struct vring_used_elem`
pub record UsedElem : Type 0 where
  pub id : ℕ
  pub len : ℕ

-- `struct iovec`
pub record Iovec : Type 0 where
  pub addr : ℕ
  pub len : ℕ

-- `struct vring` with the memory that its pointers lead to. `tables` is what lies at an address, read
-- as descriptors. `used_event` is `avail->ring[num]` and `avail_event` is `used->ring[num].event`.
pub record Vring : Type 0 where
  pub num : ℕ
  pub desc : ℕ → Desc
  pub tables : ℕ → ℕ → Desc
  pub avail_flags : ℕ
  pub avail_idx : ℕ
  pub avail_ring : ℕ → ℕ
  pub used_event : ℕ
  pub used_idx : ℕ
  pub used_ring : ℕ → UsedElem
  pub avail_event : ℕ

-- `struct virtqueue`
pub record Virtqueue : Type 0 where
  pub vring : Vring
  pub pfn : ℕ
  pub last_avail_idx : ℕ
  pub last_notified_idx : ℕ
  pub use_event_idx : Bool
  pub enabled : Bool

-- A value that is stored in a `uint16_t`.
abbrev pub u16 : ℕ → ℕ
u16 n = n % 2 ^ 16

abbrev pub next_bit : ℕ
next_bit = 0

abbrev pub write_bit : ℕ
write_bit = 1

abbrev pub indirect_bit : ℕ
indirect_bit = 2

abbrev pub no_interrupt_bit : ℕ
no_interrupt_bit = 0

unfoldable pub virtio_queue_update_used_idx : Virtqueue → ℕ → Virtqueue
virtio_queue_update_used_idx vq num = record vq {
  vring = record (vq.vring) { used_idx = u16 (vq.vring.used_idx + num) };
}

unfoldable pub virtio_queue_add_used_elem : Virtqueue → ℕ → ℕ → ℕ → Virtqueue
virtio_queue_add_used_elem vq elem_id len off =
    let idx = u16 (vq.vring.used_idx + off) in
    let used_elem : UsedElem = record { id = elem_id; len = len } in
    record vq {
      vring = record (vq.vring) {
        used_ring = update vq.vring.used_ring (idx % vq.vring.num) used_elem;
      };
    }

unfoldable pub virtio_queue_update_used_elem : Virtqueue → ℕ → ℕ → Virtqueue
unfolding virtio_queue_add_used_elem virtio_queue_update_used_idx
virtio_queue_update_used_elem vq elem_id len =
    virtio_queue_update_used_idx (virtio_queue_add_used_elem vq elem_id len 0) 1

-- What the loop of virtio_queue_get_iov fills in: the vector, and the two counters.
pub record Vector : Type 0 where
  pub iov : ℕ → Iovec
  pub cnt_out : ℕ
  pub cnt_in : ℕ

-- One round of the loop, for the descriptor d.
abbrev pub add_desc : Desc → Vector → Vector
add_desc d v =
    let iov = update v.iov (v.cnt_out + v.cnt_in) (record { addr = d.addr; len = d.len }) in
    if test_bit d.flags write_bit
    then record { iov = iov; cnt_out = v.cnt_out; cnt_in = u16 (v.cnt_in + 1) }
    else record { iov = iov; cnt_out = u16 (v.cnt_out + 1); cnt_in = v.cnt_in }

-- The loop from the descriptor `cur_idx`; none if it is not left within `fuel` rounds.
unfoldable pub walk : ℕ → (ℕ → Desc) → ℕ → Vector → Option Vector
walk zero desc cur_idx v = none
walk (suc fuel) desc cur_idx v =
    let v' = add_desc (desc cur_idx) v in
    let rest = walk fuel desc (desc cur_idx).next v' in
    if test_bit (desc cur_idx).flags next_bit then rest else some v'

-- Where the loop begins: at the head, or at the first entry of the table that the head points to.
abbrev pub table_of : Vring → ℕ → ℕ → Desc
table_of vr head =
    if test_bit (vr.desc head).flags indirect_bit then vr.tables (vr.desc head).addr else vr.desc

abbrev pub start_of : Vring → ℕ → ℕ
start_of vr head = if test_bit (vr.desc head).flags indirect_bit then 0 else head

-- The head that is next.
abbrev pub next_head : Virtqueue → ℕ
next_head vq = vq.vring.avail_ring (vq.last_avail_idx % vq.vring.num)

-- The head has been taken, and with event indexes the front end is told how far.
abbrev pub taken : Virtqueue → Virtqueue
taken vq =
    let last = u16 (vq.last_avail_idx + 1) in
    record vq {
      last_avail_idx = last;
      vring = record (vq.vring) {
        avail_event = if vq.use_event_idx then last else vq.vring.avail_event;
      };
    }

abbrev got : Virtqueue → ℕ → Option Vector → Option (ℤ × Virtqueue × Vector)
got vq head none = none
got vq head (some v) = some (pos head, vq, v)

unfoldable pub virtio_queue_get_iov : ℕ → Virtqueue → (ℕ → Iovec) → Option (ℤ × Virtqueue × Vector)
virtio_queue_get_iov fuel vq iov =
    let cleared : Vector = record { iov = iov; cnt_out = 0; cnt_in = 0 } in
    let head = next_head vq in
    if vq.vring.avail_idx == vq.last_avail_idx
    then some (negsuc 0, vq, cleared)
    else got (taken vq) head (walk fuel (table_of vq.vring head) (start_of vq.vring head) cleared)

-- What a device's loop does with what virtio_queue_get_iov gives.
abbrev pub taken_or {ℓ} :
    {R : Type ℓ}
    → Option (ℤ × Virtqueue × Vector)
    → R
    → (Virtqueue → R)
    → (ℕ → Virtqueue → Vector → R)
    → R
taken_or none endless wait go = endless
taken_or (some (negsuc k, vq, v)) endless wait go = wait vq
taken_or (some (pos head, vq, v)) endless wait go = go head vq v

-- `(uint16_t)(new_idx - event_idx - 1) < (uint16_t)(new_idx - old)`
unfoldable pub vring_need_event : ℕ → ℕ → ℕ → Bool
vring_need_event event_idx new_idx old =
    ltb (u16 (new_idx + 2 ^ 17 - event_idx - 1)) (u16 (new_idx + 2 ^ 16 - old))

unfoldable pub virtio_queue_must_notify : Virtqueue → Bool × Virtqueue
unfolding vring_need_event
virtio_queue_must_notify vq =
    if vq.use_event_idx
    then if vring_need_event vq.vring.used_event vq.vring.used_idx vq.last_notified_idx
      then (true, record vq { last_notified_idx = vq.vring.used_idx })
      else (false, vq)
    else (not (test_bit vq.vring.avail_flags no_interrupt_bit), vq)
