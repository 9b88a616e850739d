-- ===== src/Virtio/Network/Rx/Laws.antt =====
-- A packet arrives whole in the front end's buffers, and the front end learns of each of them.
use heterogeneous_multicore.Base.{
  ℕ, zero, suc, ◌+◌, ◌≤◌, ◌<◌, ◌≡◌, refl, sym, ap, ◌∙◌, ◌⊎◌, inl, inr, List, [], ◌∷◌, ◌++◌, some,
  arith, length, append-nil,
}
use heterogeneous_multicore.Base.Bytes.{
  put, bytes_at, take, drop, min, length-take, length-drop, take-drop, put-other, bytes_at-put,
  bytes_at-same,
}
use heterogeneous_multicore.Virtio.Ring.{
  UsedElem, Iovec, Virtqueue, u16, taken, virtio_queue_add_used_elem,
}
use heterogeneous_multicore.Virtio.Iov.{iov_size}
use heterogeneous_multicore.Virtio.Iov.Laws.{Apart, AllApart, Disjoint}
use heterogeneous_multicore.Virtio.Network.Rx.{Out, done, RxState, next_round, rx_loop}
use heterogeneous_multicore.Virtio.Network.Rx.Rounds.{
  Supplied, Supplied-add, elems, gathered, min-le_right, after_round, rx_round,
}

-- The regions of the buffers.
abbrev pub regions : List (ℕ × Iovec) → List Iovec
regions [] = []
regions ((h, b) ∷ bs) = b ∷ regions bs

-- The queue and the counter after the rounds that write some elements.
abbrev pub rounds : List UsedElem → ℕ → Virtqueue → Virtqueue
rounds [] off vq = vq
rounds (e ∷ es) off vq =
    rounds es (u16 (off + 1)) (virtio_queue_add_used_elem (taken vq) e.id e.len off)

abbrev pub counted : List UsedElem → ℕ → ℕ
counted [] off = off
counted (e ∷ es) off = counted es (u16 (off + 1))

-- How the loop ends: nothing outside the buffers is written.
pub record Filled (loop : Out RxState) (xs : List ℕ) (bs : List (ℕ × Iovec)) (s : RxState)
    : Type 0 where
  pub s' : RxState
  pub ends : loop ≡ done s'
  pub queue : s'.vq ≡ rounds (elems xs bs) s.num_buffers s.vq
  pub number : s'.num_buffers ≡ counted (elems xs bs) s.num_buffers
  pub bytes : gathered (elems xs bs) bs s'.mem ≡ xs
  pub outside :
      (a n : ℕ) → AllApart a n (regions bs) → (c : ℕ) → a ≤ c → c < a + n → s'.mem c ≡ s.mem c

beside :
    (a n : ℕ) (b : Iovec) (c k : ℕ)
    → Apart a n b
    → a ≤ c
    → c < a + n
    → k ≤ b.len
    → (c < b.addr) ⊎ (b.addr + k ≤ c)
beside a n b c k (inl before) low high le = inl (omega arith)
beside a n b c k (inr after) low high le = inr (omega arith)

filled_bytes :
    (xs : List ℕ) (b : Iovec) (mem : ℕ → ℕ)
    → let n = min (length xs) b.len in bytes_at b.addr n (put b.addr (take n xs) mem) ≡ take n xs
filled_bytes xs b mem =
    let n = min (length xs) b.len in
    let len : length (take n xs) ≡ n = ground (arith, length-take n xs) in
    ap (λ k. bytes_at b.addr k (put b.addr (take n xs) mem)) (sym len)
    ∙ bytes_at-put b.addr (take n xs) mem

module _ (chain : ℕ) (tick : Virtqueue → Virtqueue) (iov : ℕ → Iovec) (room : 1 ≤ chain) where
  -- One round, by what it leaves of the frame.
  fill_step :
      (fuel x : ℕ) (xs : List ℕ) (h : ℕ) (b : Iovec) (bs : List (ℕ × Iovec)) (s : RxState)
      → Supplied ((h, b) ∷ bs) s.vq
      → AllApart b.addr b.len (regions bs)
      → (rest : List ℕ) → drop (min (length (x ∷ xs)) b.len) (x ∷ xs) ≡ rest
      → ((y : ℕ) (ys : List ℕ)
          → rest ≡ y ∷ ys
          → Filled
              (rx_loop chain tick iov fuel (y ∷ ys) (after_round (x ∷ xs) h b s))
              (y ∷ ys)
              bs
              (after_round (x ∷ xs) h b s))
      → Filled (rx_loop chain tick iov (suc fuel) (x ∷ xs) s) (x ∷ xs) ((h, b) ∷ bs) s
  fill_step fuel x xs h b bs s sup apart [] e rec =
      let all = x ∷ xs in
      let n = min (length all) b.len in
      let s1 = after_round all h b s in
      let le : n ≤ b.len = min-le_right (length all) b.len in
      let len : length (take n all) ≡ n = ground (arith, length-take n all) in
      let whole : take n all ≡ all =
        sym (append-nil (take n all)) ∙ ap (λ r. take n all ++ r) (sym e) ∙ take-drop n all in
      record {
        s' = s1;
        ends =
            rx_round chain tick iov room fuel all s h b bs sup
            ∙ ap (λ r. next_round chain tick iov (rx_loop chain tick iov fuel) r (some s1)) e;
        queue = rw e refl;
        number = rw e refl;
        bytes =
            ap (λ r. bytes_at b.addr n s1.mem ++ gathered (elems r bs) bs s1.mem) e
            ∙ append-nil (bytes_at b.addr n s1.mem)
            ∙ filled_bytes all b s.mem
            ∙ whole;
        outside = λ a k out c low high.
            put-other b.addr (take n all) s.mem c
              (beside a k b c (length (take n all)) out.0 low high (omega (arith, len, le)));
      }
  fill_step fuel x xs h b bs s sup apart (y ∷ ys) e rec =
      let all = x ∷ xs in
      let n = min (length all) b.len in
      let s1 = after_round all h b s in
      let le : n ≤ b.len = min-le_right (length all) b.len in
      let len : length (take n all) ≡ n = ground (arith, length-take n all) in
      let t = rec y ys refl in
      let unchanged =
        bytes_at-same b.addr n s1.mem t.s'.mem
          λ c low high. t.outside b.addr b.len apart c low (omega (arith, le)) in
      record {
        s' = t.s';
        ends =
            rx_round chain tick iov room fuel all s h b bs sup
            ∙ ap (λ r. next_round chain tick iov (rx_loop chain tick iov fuel) r (some s1)) e
            ∙ t.ends;
        queue = t.queue ∙ ap (λ r. rounds (elems r bs) s1.num_buffers s1.vq) (sym e);
        number = t.number ∙ ap (λ r. counted (elems r bs) s1.num_buffers) (sym e);
        bytes =
            ap (λ r. bytes_at b.addr n t.s'.mem ++ gathered (elems r bs) bs t.s'.mem) e
            ∙ ap (λ g. bytes_at b.addr n t.s'.mem ++ g) t.bytes
            ∙ ap (λ g. g ++ y ∷ ys) (unchanged ∙ filled_bytes all b s.mem)
            ∙ ap (λ r. take n all ++ r) (sym e)
            ∙ take-drop n all;
        outside = λ a k out c low high.
            t.outside a k out.1 c low high
            ∙ put-other b.addr (take n all) s.mem c
                (beside a k b c (length (take n all)) out.0 low high (omega (arith, len, le)));
      }

  pub fill :
      (fuel x : ℕ) (xs : List ℕ) (bs : List (ℕ × Iovec)) (s : RxState)
      → Supplied bs s.vq
      → Disjoint (regions bs)
      → length (x ∷ xs) ≤ iov_size (regions bs)
      → length bs ≤ fuel
      → Filled (rx_loop chain tick iov fuel (x ∷ xs) s) (x ∷ xs) bs s
  unfolding iov_size
  fill fuel x xs [] s sup dis fits enough = absurd (omega arith)
  fill zero x xs (p ∷ bs) s sup dis fits enough = absurd (omega arith)
  fill (suc fuel) x xs ((h, b) ∷ bs) s sup dis fits enough =
      let all = x ∷ xs in
      let n = min (length all) b.len in
      fill_step fuel x xs h b bs s sup dis.0 (drop n all) refl λ y ys e.
        fill fuel y ys bs (after_round all h b s)
          (Supplied-add bs (taken s.vq) h n s.num_buffers sup.3) dis.1
          (ground (arith, length-drop n all, ap length e)) (omega arith)
