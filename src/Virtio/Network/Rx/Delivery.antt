-- ===== src/Virtio/Network/Rx/Delivery.antt =====
-- What the front end reads once the receive callback has come back.
use heterogeneous_multicore.Base.{
  ℕ, suc, ◌+◌, ◌^◌, ◌≤◌, ◌<◌, ◌≡◌, refl, sym, ap, ◌∙◌, true, false, List, [], ◌∷◌, some, arith, ltb,
  length, ◌≢◌, leb,
}
use heterogeneous_multicore.Base.Bytes.{drop, min}
use heterogeneous_multicore.Virtio.Ring.{
  Desc, Vector, next_head, start_of, table_of, virtio_queue_get_iov, UsedElem, Iovec, Vring,
  Virtqueue, u16, taken, virtio_queue_add_used_elem, virtio_queue_update_used_idx,
  virtio_queue_update_used_elem, virtio_queue_must_notify,
}
use Prim.Native.Nat.{◌∣◌}
use heterogeneous_multicore.Virtio.Ring.Used.{
  read_used, read_used-same, complete, complete-num, read_used-complete, vring-must_notify,
}
use heterogeneous_multicore.Virtio.Ring.Avail.{
  Chain, readable, writable, virtio_queue_get_iov-Chain,
}
use heterogeneous_multicore.Base.Int.{pos}
use heterogeneous_multicore.Virtio.Iov.{iov_size}
use heterogeneous_multicore.Virtio.Iov.Laws.{AllApart, Disjoint}
use heterogeneous_multicore.Virtio.Network.{NetDev}
use heterogeneous_multicore.Virtio.Network.Rx.{
  Out, done, overrun, RxState, rx_loop, published, virtio_net_rx_callback,
}
use heterogeneous_multicore.Virtio.Network.Rx.Laws.{regions, rounds, counted, fill}
use heterogeneous_multicore.Virtio.Network.Rx.Rounds.{Supplied, elems, gathered}

length-elems : (xs : List ℕ) (bs : List (ℕ × Iovec)) → length (elems xs bs) ≤ length bs
length-elems [] bs = omega arith
length-elems (x ∷ xs) [] = omega arith
length-elems (x ∷ xs) ((h, b) ∷ bs) =
    omega (arith, length-elems (drop (min (length (x ∷ xs)) b.len) (x ∷ xs)) bs)

counted_lem : (es : List UsedElem) (off : ℕ) → off < 2 ^ 16 → counted es off ≡ u16 (off + length es)
counted_lem [] off h = omega arith
counted_lem (e ∷ es) off h = omega (arith, counted_lem es (u16 (off + 1)) (omega arith))

-- The rounds leave the index and the size of the ring, and write what single completions write.
rounds_index :
    (es : List UsedElem) (off : ℕ) (vq : Virtqueue)
    → ((rounds es off vq).vring.used_idx ≡ vq.vring.used_idx)
      × ((rounds es off vq).vring.num ≡ vq.vring.num)
unfolding virtio_queue_add_used_elem
rounds_index [] off vq = (refl, refl)
rounds_index (e ∷ es) off vq =
    rounds_index es (u16 (off + 1)) (virtio_queue_add_used_elem (taken vq) e.id e.len off)

rounds_ring :
    (es : List UsedElem) (off : ℕ) (vq vq2 : Virtqueue)
    → vq2.vring.num ≡ vq.vring.num
    → vq2.vring.used_ring ≡ vq.vring.used_ring
    → u16 (vq2.vring.used_idx + 0) ≡ u16 (vq.vring.used_idx + off)
    → (rounds es off vq).vring.used_ring ≡ (complete es vq2).vring.used_ring
unfolding virtio_queue_update_used_elem virtio_queue_add_used_elem virtio_queue_update_used_idx
rounds_ring [] off vq vq2 num ring idx = sym ring
rounds_ring (e ∷ es) off vq vq2 num ring idx =
    rounds_ring es (u16 (off + 1)) (virtio_queue_add_used_elem (taken vq) e.id e.len off)
      (virtio_queue_update_used_elem vq2 e.id e.len) num (rw (num, ring, idx) refl) (omega arith)

update_used_idx_fields :
    (vq : Virtqueue) (n : ℕ)
    → let vr = (virtio_queue_update_used_idx vq n).vring in
      (vr.num ≡ vq.vring.num)
      × (vr.used_ring ≡ vq.vring.used_ring)
      × (vr.used_idx ≡ u16 (vq.vring.used_idx + n))
unfolding virtio_queue_update_used_idx
update_used_idx_fields vq n = (refl, refl, refl)

-- A batch that is published at its end is read as single completions are.
batch_read :
    (es : List UsedElem) (vq : Virtqueue)
    → vq.vring.num ∣ 2 ^ 16
    → vq.vring.used_idx < 2 ^ 16
    → length es ≤ vq.vring.num
    → (vr : Vring) → vr.num ≡ (rounds es 0 vq).vring.num
    → vr.used_ring ≡ (rounds es 0 vq).vring.used_ring
    → read_used vq.vring.used_idx (length es) vr ≡ es
batch_read es vq divides small fits vr num ring =
    let (same_idx, same_num) = rounds_index es 0 vq in
    let whole = complete es vq in
    read_used-same (length es) vq.vring.used_idx vr whole.vring
      (num ∙ same_num ∙ sym (complete-num es vq)) (ring ∙ rounds_ring es 0 vq vq refl refl refl)
    ∙ (read_used-complete es vq divides small fits).0

readable-writable : (ds : List Desc) → readable ds + writable ds ≡ length ds
readable-writable [] = omega arith
readable-writable (d ∷ ds) = ground (arith, readable-writable ds)

-- What the front end has after the callback.
pub record Delivered (frame : List ℕ) (bs : List (ℕ × Iovec)) (vq vq' : Virtqueue)
    (mem mem' : ℕ → ℕ) : Type 0 where
  pub announced : read_used vq.vring.used_idx (length (elems frame bs)) vq'.vring ≡ elems frame bs
  pub index : vq'.vring.used_idx ≡ u16 (vq.vring.used_idx + length (elems frame bs))
  pub whole : gathered (elems frame bs) bs mem' ≡ frame
  pub nowhere_else :
      (a n : ℕ) → AllApart a n (regions bs) → (c : ℕ) → a ≤ c → c < a + n → mem' c ≡ mem c

module _ (chain : ℕ) (tick : Virtqueue → Virtqueue) (iov : ℕ → Iovec) where
  published-done :
      (ndev : NetDev) (loop : Out RxState) (s : RxState)
      → loop ≡ done s
      → (ndev' : NetDev) × (published chain tick iov ndev loop
          ≡ done (
            ndev',
            (virtio_queue_must_notify (virtio_queue_update_used_idx s.vq s.num_buffers)).1,
            s.mem,
          ))
  published-done ndev loop s e = (_, ap (published chain tick iov ndev) e)

  callback_runs :
      (fuel room : ℕ) (frame : List ℕ) (ndev : NetDev) (vq : Virtqueue) (mem : ℕ → ℕ)
      → ndev.running ≡ true
      → ltb room ndev.hdr_len ≡ false
      → virtio_net_rx_callback chain tick iov fuel room frame ndev vq mem ≡ (
        true,
        published chain tick iov ndev
            (rx_loop chain tick iov fuel frame (record { vq = vq; mem = mem; num_buffers = 0 })),
      )
  unfolding virtio_net_rx_callback
  callback_runs fuel room frame ndev vq mem run long = simp (run, long)

  -- A packet for a running device, with room for the header before it, and buffers that the front end
  -- has made available and that do not meet and are large enough together, each of one descriptor
  -- that the device may write: the callback ends with 0. The front end reads in the used ring, from
  -- the index it had, the head and the length of each buffer that was filled, in order, and the
  -- index has moved on by their number; their bytes, one after the other, are the header and the
  -- packet; and nothing outside the buffers is written.
  pub virtio_net_rx_callback_delivers :
      (fuel room x : ℕ) (xs : List ℕ) (bs : List (ℕ × Iovec)) (ndev : NetDev) (vq : Virtqueue)
      (mem : ℕ → ℕ)
      → 1 ≤ chain
      → ndev.running ≡ true
      → ndev.hdr_len ≤ room
      → vq.vring.num ∣ 2 ^ 16
      → vq.vring.used_idx < 2 ^ 16
      → length bs ≤ vq.vring.num
      → Supplied bs vq
      → Disjoint (regions bs)
      → length (x ∷ xs) ≤ iov_size (regions bs)
      → length bs ≤ fuel
      → (ndev' : NetDev) × (vq' : Virtqueue) × (mem' : ℕ → ℕ) × (virtio_net_rx_callback chain tick
            iov fuel room
            (x ∷ xs)
            ndev
            vq
            mem
          ≡ (true, done (ndev', vq', mem')))
        × Delivered (x ∷ xs) bs vq vq' mem mem'
  virtio_net_rx_callback_delivers fuel room x xs bs ndev vq mem some_chain run header divides small
        fits sup dis large enough =
      let s : RxState = record { vq = vq; mem = mem; num_buffers = 0 } in
      let es = elems (x ∷ xs) bs in
      let f = fill chain tick iov some_chain fuel x xs bs s sup dis large enough in
      let few : length es ≤ length bs = length-elems (x ∷ xs) bs in
      let shown = virtio_queue_update_used_idx f.s'.vq f.s'.num_buffers in
      let (ndev', ends) =
        published-done ndev (rx_loop chain tick iov fuel (x ∷ xs) s) f.s' f.ends in
      let (same_num, same_ring, moved) = update_used_idx_fields f.s'.vq f.s'.num_buffers in
      let kept = vring-must_notify shown in
      let long : ltb room ndev.hdr_len ≡ false = ground arith in
      (
        ndev',
        (virtio_queue_must_notify shown).1,
        f.s'.mem,
        callback_runs fuel room (x ∷ xs) ndev vq mem run long ∙ ap (λ o. (true, o)) ends,
        record {
          announced =
              batch_read es vq divides small (omega (arith, few))
                (virtio_queue_must_notify shown).1.vring
                (ap (λ (r : Vring). r.num) kept
                  ∙ same_num
                  ∙ ap (λ (q : Virtqueue). q.vring.num) f.queue)
                (ap (λ (r : Vring). r.used_ring) kept
                  ∙ same_ring
                  ∙ ap (λ (q : Virtqueue). q.vring.used_ring) f.queue);
          index = omega (
            arith,
            ap (λ (r : Vring). r.used_idx) kept,
            moved,
            f.number,
            counted_lem es 0,
            ap (λ (q : Virtqueue). q.vring.used_idx) f.queue,
            (rounds_index es 0 vq).0,
          );
          whole = f.bytes;
          nowhere_else = f.outside;
        },
      )

  loop_overruns :
      (fuel : ℕ) (rest : List ℕ) (s : RxState) (v : Vector) {h : ℕ} {vq' : Virtqueue}
      → virtio_queue_get_iov chain s.vq iov ≡ some (pos h, vq', v)
      → leb (v.cnt_out + v.cnt_in) 1 ≡ false
      → rx_loop chain tick iov (suc fuel) rest s ≡ overrun
  unfolding rx_loop
  loop_overruns fuel rest s v got many = rw (got, many) refl

  -- The next chain that is available has two descriptors or more: the callback of a running device
  -- writes beyond the end of its vector, which has one entry.
  pub virtio_net_rx_callback_overruns :
      (fuel room : ℕ) (frame : List ℕ) (ds : List Desc) (ndev : NetDev) (vq : Virtqueue)
      (mem : ℕ → ℕ)
      → ndev.running ≡ true
      → ndev.hdr_len ≤ room
      → vq.vring.avail_idx ≢ vq.last_avail_idx
      → Chain (table_of vq.vring (next_head vq)) (start_of vq.vring (next_head vq)) ds
      → 2 ≤ length ds
      → length ds ≤ chain
      → length ds < 2 ^ 16
      → virtio_net_rx_callback chain tick iov (suc fuel) room frame ndev vq mem ≡ (true, overrun)
  virtio_net_rx_callback_overruns fuel room frame ds ndev vq mem run header more c two enough
        small =
      let (v, got, at, beyond, out, in1, idx) =
        virtio_queue_get_iov-Chain chain vq iov ds more c enough small in
      let long : ltb room ndev.hdr_len ≡ false = ground arith in
      let many : leb (v.cnt_out + v.cnt_in) 1 ≡ false = ground (arith, readable-writable ds) in
      callback_runs (suc fuel) room frame ndev vq mem run long
      ∙ ap (λ o. (true, published chain tick iov ndev o))
          (loop_overruns fuel frame (record { vq = vq; mem = mem; num_buffers = 0 }) v got many)
