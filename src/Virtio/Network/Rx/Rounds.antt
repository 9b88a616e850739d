-- ===== src/Virtio/Network/Rx/Rounds.antt =====
-- A round of the receive callback's loop, on a buffer that the front end has made available.
use heterogeneous_multicore.Base.{
  ℕ, suc, ◌+◌, ◌-◌, ◌≤◌, ◌≡◌, ◌≢◌, refl, ap, ◌∙◌, true, List, [], ◌∷◌, ◌++◌, some, arith, leb,
  if◌then◌else◌, length, test_bit,
}
use heterogeneous_multicore.Base.Int.{pos}
use heterogeneous_multicore.Base.Bytes.{
  put, bytes_at, take, drop, min, length-take, take_all, drop_all,
}
use heterogeneous_multicore.Virtio.Ring.{
  Desc, UsedElem, Iovec, Virtqueue, Vector, u16, write_bit, next_head, start_of, table_of, taken,
  virtio_queue_get_iov, virtio_queue_add_used_elem,
}
use heterogeneous_multicore.Virtio.Ring.Avail.{Chain, vec, virtio_queue_get_iov-Chain}
use heterogeneous_multicore.Virtio.Iov.{entries, iov_size, memcpy_toiovec}
use heterogeneous_multicore.Virtio.Network.Rx.{
  overrun, RxState, copied, fill_head, round_size, next_round, rx_loop,
}

-- Buffers that the front end has made available, by their heads: each a chain of one descriptor that
-- the device may write.
abbrev pub Supplied : List (ℕ × Iovec) → Virtqueue → Type 0
Supplied [] vq = Unit
Supplied ((h, b) ∷ bs) vq =
    (vq.vring.avail_idx ≢ vq.last_avail_idx)
    × (next_head vq ≡ h)
    × ((d : Desc) × Chain (table_of vq.vring (next_head vq)) (start_of vq.vring (next_head vq))
          (d ∷ [])
        × (test_bit d.flags write_bit ≡ true)
        × (vec d ≡ b))
    × Supplied bs (taken vq)

-- What is written in the used ring does not change what is available.
pub Supplied-add :
    (bs : List (ℕ × Iovec)) (vq : Virtqueue) (id len off : ℕ)
    → Supplied bs vq
    → Supplied bs (virtio_queue_add_used_elem vq id len off)
unfolding virtio_queue_add_used_elem
Supplied-add [] vq id len off s = tt
Supplied-add ((h, b) ∷ bs) vq id len off (more, head, d, later) =
    (more, head, d, Supplied-add bs (taken vq) id len off later)

-- The elements that a frame is announced by: it fills one buffer after the other.
abbrev pub elems : List ℕ → List (ℕ × Iovec) → List UsedElem
elems [] bs = []
elems (x ∷ xs) [] = []
elems (x ∷ xs) ((h, b) ∷ bs) =
    let n = min (length (x ∷ xs)) b.len in record { id = h; len = n } ∷ elems (drop n (x ∷ xs)) bs

-- What the front end finds in its buffers, as far as the elements say.
abbrev pub gathered : List UsedElem → List (ℕ × Iovec) → (ℕ → ℕ) → List ℕ
gathered [] bs mem = []
gathered (e ∷ es) [] mem = []
gathered (e ∷ es) ((h, b) ∷ bs) mem = bytes_at b.addr e.len mem ++ gathered es bs mem

single :
    (b : Iovec) (ys : List ℕ) (mem : ℕ → ℕ)
    → length ys ≤ b.len
    → (iov' : List Iovec) × (memcpy_toiovec (b ∷ []) ys mem ≡ some (iov', put b.addr ys mem))
unfolding memcpy_toiovec
single b [] mem h = (b ∷ [], refl)
single b (y ∷ ys) mem h =
    let all = y ∷ ys in
    (
      record { addr = b.addr + length (take b.len all); len = b.len - length (take b.len all) }
          ∷ [],
      rw (drop_all b.len all h, take_all b.len all h) refl,
    )

pub min-le_right : (a b : ℕ) → min a b ≤ b
min-le_right a b = ground arith

-- The buffer at the head is filled, in the state that the loop then has.
abbrev pub after_round : List ℕ → ℕ → Iovec → RxState → RxState
after_round rest h b s =
    let n = min (length rest) b.len in
    record {
      vq = virtio_queue_add_used_elem (taken s.vq) h n s.num_buffers;
      mem = put b.addr (take n rest) s.mem;
      num_buffers = u16 (s.num_buffers + 1);
    }

entries_one :
    (v : Vector) (b : Iovec) → v.cnt_in ≡ 1 → v.iov 0 ≡ b → entries v.cnt_in v.iov ≡ b ∷ []
entries_one v b e f = ap (λ n. entries n v.iov) e ∙ ap (λ x. x ∷ []) f

round_size_one :
    (rest : List ℕ) (v : Vector) (b : Iovec)
    → v.cnt_in ≡ 1
    → v.iov 0 ≡ b
    → round_size rest v ≡ min (length rest) b.len
unfolding round_size iov_size
round_size_one rest v b e f =
    let whole : b.len + 0 ≡ b.len = omega arith in
    ap (λ iov. min (length rest) (iov_size iov)) (entries_one v b e f)
    ∙ ap (λ n. min (length rest) n) whole

fill_head_one :
    (rest : List ℕ) (s : RxState) (h : ℕ) (b : Iovec) (v : Vector)
    → v.cnt_in ≡ 1
    → v.iov 0 ≡ b
    → fill_head rest h (taken s.vq) v s ≡ some (after_round rest h b s)
unfolding fill_head
fill_head_one rest s h b v e f =
    let n = min (length rest) b.len in
    let part = take n rest in
    let fits : length part ≤ b.len = ground (arith, length-take n rest) in
    let (iov', written) = single b part s.mem fits in
    let size = round_size_one rest v b e f in
    ap
      (λ m.
        copied (memcpy_toiovec (entries v.cnt_in v.iov) (take m rest) s.mem) h m (taken s.vq)
          s.num_buffers)
      size
    ∙ ap (λ iov. copied (memcpy_toiovec iov part s.mem) h n (taken s.vq) s.num_buffers)
        (entries_one v b e f)
    ∙ ap (λ o. copied o h n (taken s.vq) s.num_buffers) written

module _ (chain : ℕ) (tick : Virtqueue → Virtqueue) (iov : ℕ → Iovec) (room : 1 ≤ chain) where
  fill_round :
      (fuel : ℕ) (rest : List ℕ) (s : RxState) (h : ℕ) (b : Iovec) (v : Vector)
      → v.cnt_out ≡ 0
      → v.cnt_in ≡ 1
      → v.iov 0 ≡ b
      → (if leb (v.cnt_out + v.cnt_in) 1
          then next_round chain tick iov
              (rx_loop chain tick iov fuel)
              (drop (round_size rest v) rest)
              (fill_head rest h (taken s.vq) v s)
          else overrun)
        ≡ next_round chain tick iov
            (rx_loop chain tick iov fuel)
            (drop (min (length rest) b.len) rest)
            (some (after_round rest h b s))
  fill_round fuel rest s h b v out in1 first =
      let short : leb (v.cnt_out + v.cnt_in) 1 ≡ true = ground arith in
      rw (short, round_size_one rest v b in1 first, fill_head_one rest s h b v in1 first) refl

  got_round :
      (fuel : ℕ) (rest : List ℕ) (s : RxState) (h : ℕ) (b : Iovec) (v : Vector)
      → virtio_queue_get_iov chain s.vq iov ≡ some (pos h, taken s.vq, v)
      → v.cnt_out ≡ 0
      → v.cnt_in ≡ 1
      → v.iov 0 ≡ b
      → rx_loop chain tick iov (suc fuel) rest s
        ≡ next_round chain tick iov
            (rx_loop chain tick iov fuel)
            (drop (min (length rest) b.len) rest)
            (some (after_round rest h b s))
  unfolding rx_loop
  got_round fuel rest s h b v got out in1 first =
      rw got (fill_round fuel rest s h b v out in1 first)

  pub rx_round :
      (fuel : ℕ) (rest : List ℕ) (s : RxState) (h : ℕ) (b : Iovec) (bs : List (ℕ × Iovec))
      → Supplied ((h, b) ∷ bs) s.vq
      → rx_loop chain tick iov (suc fuel) rest s
        ≡ next_round chain tick iov
            (rx_loop chain tick iov fuel)
            (drop (min (length rest) b.len) rest)
            (some (after_round rest h b s))
  rx_round fuel rest s h b bs (more, head, (d, c, w, same), later) =
      let (v, got, at, beyond, out, in1, idx) =
        virtio_queue_get_iov-Chain chain s.vq iov (d ∷ []) more c room (omega arith) in
      got_round fuel rest s h b v (got ∙ ap (λ k. some (pos k, taken s.vq, v)) head)
        (out ∙ ground arith) (in1 ∙ ground arith) (at 0 d refl ∙ same)
