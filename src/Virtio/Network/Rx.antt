-- ===== src/Virtio/Network/Rx.antt =====
-- virtio_net_rx_callback of virtio/devices/network.c: a packet of the switch goes to the front end,
-- through as many of its buffers as it needs.
pub mod Rounds
pub mod Laws
pub mod Delivery
use heterogeneous_multicore.Base.{
  ℕ, zero, suc, ◌+◌, ◌-◌, ◌%◌, ◌^◌, Bool, true, false, List, [], ◌∷◌, ◌++◌, Option, none, some, leb,
  ltb, if◌then◌else◌, length,
}
use heterogeneous_multicore.Base.Int.{ℤ, pos, negsuc}
use heterogeneous_multicore.Base.Bytes.{take, drop, min}
use heterogeneous_multicore.Net.Port.{u64_inc}
use heterogeneous_multicore.Virtio.Ring.{
  Iovec, Virtqueue, Vector, u16, virtio_queue_get_iov, virtio_queue_add_used_elem,
  virtio_queue_update_used_idx, virtio_queue_must_notify, taken_or,
}
use heterogeneous_multicore.Virtio.Iov.{entries, iov_size, memcpy_toiovec}
use heterogeneous_multicore.Virtio.Network.{NetDev, coalesce_rx}

-- How the callback may go on: it comes back, it is still in a loop when the fuel is used up, or it
-- has written beyond the end of `struct iovec iov[1]`.
pub data Out (A : Type 0) : Type 0 where
  done : A → Out A
  looping : Out A
  overrun : Out A

-- The loop's variables. The bytes still to be copied are an argument of the loop.
pub record RxState : Type 0 where
  pub vq : Virtqueue
  pub mem : ℕ → ℕ
  pub num_buffers : ℕ

-- The rest of a round, when the vector has been written.
abbrev pub copied : Option (List Iovec × (ℕ → ℕ)) → ℕ → ℕ → Virtqueue → ℕ → Option RxState
copied none head n vq num_buffers = none
copied (some (iov, mem)) head n vq num_buffers = some (record {
  vq = virtio_queue_add_used_elem vq head n num_buffers;
  mem = mem;
  num_buffers = u16 (num_buffers + 1);
})

-- How many bytes a round copies.
unfoldable pub round_size : List ℕ → Vector → ℕ
round_size rest v = min (length rest) (iov_size (entries v.cnt_in v.iov))

-- One round with a head: the bytes that fit are copied and the element is written.
unfoldable pub fill_head : List ℕ → ℕ → Virtqueue → Vector → RxState → Option RxState
fill_head rest head vq v s =
    let iovsize = round_size rest v in
    copied (memcpy_toiovec (entries v.cnt_in v.iov) (take iovsize rest) s.mem) head iovsize vq
      s.num_buffers

-- `chain` bounds the length of a chain, `tick` is what the front end does to the queue while the
-- task is delayed, and `iov` what the vector holds before.
module _ (chain : ℕ) (tick : Virtqueue → Virtqueue) (iov : ℕ → Iovec) where
  abbrev pub next_round : (List ℕ → RxState → Out RxState) → List ℕ → Option RxState → Out RxState
  next_round loop rest none = overrun
  next_round loop [] (some s) = done s
  next_round loop (x ∷ rest) (some s) = loop (x ∷ rest) s

  -- `do … while (copied < len)`, with the loop that waits for a head inside. A round of either is
  -- one of fuel.
  unfoldable pub rx_loop : ℕ → List ℕ → RxState → Out RxState
  rx_loop zero rest s = looping
  rx_loop (suc fuel) rest s =
      taken_or (virtio_queue_get_iov chain s.vq iov) looping
        (λ vq. rx_loop fuel rest (record s { vq = tick vq }))
        (λ head vq v.
          if leb (v.cnt_out + v.cnt_in) 1
          then next_round (rx_loop fuel) (drop (round_size rest v) rest)
              (fill_head rest head vq v s)
          else overrun)

  abbrev pub published : NetDev → Out RxState → Out (NetDev × Virtqueue × (ℕ → ℕ))
  published ndev looping = looping
  published ndev overrun = overrun
  published ndev (done s) =
      let vq = virtio_queue_update_used_idx s.vq s.num_buffers in
      let (must, vq') = virtio_queue_must_notify vq in
      let counted = record ndev { rx_pkts = u64_inc ndev.rx_pkts; rx_cnt = u64_inc ndev.rx_cnt } in
      done (coalesce_rx must counted, vq', s.mem)

  -- The answer is 0 (true) or -1 (false). `room` is how far the packet's data is behind its
  -- `struct data_pkt`, and `frame` is the header and the data.
  unfoldable pub virtio_net_rx_callback :
      ℕ → ℕ → List ℕ → NetDev → Virtqueue → (ℕ → ℕ) → Bool × Out (NetDev × Virtqueue × (ℕ → ℕ))
  virtio_net_rx_callback fuel room frame ndev vq mem =
      if ndev.running
      then if ltb room ndev.hdr_len then (false, done (ndev, vq, mem)) else (
        true,
        published ndev (rx_loop fuel frame (record { vq = vq; mem = mem; num_buffers = 0 })),
      )
      else (true, done (ndev, vq, mem))
