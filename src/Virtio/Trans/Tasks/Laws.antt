-- ===== src/Virtio/Trans/Tasks/Laws.antt =====
-- A test ends, and the front end has all its buffers back.
use heterogeneous_multicore.Base.{
  ℕ, zero, suc, ◌+◌, ◌*◌, ◌%◌, ◌^◌, ◌≤◌, ◌<◌, ◌≡◌, refl, ap, ◌∙◌, Bool, true, false, List, [], ◌∷◌,
  some, none, arith, Bool-cases, inl, inr, length, map, get_elem?,
}
use heterogeneous_multicore.Base.Int.{pos}
use heterogeneous_multicore.Virtio.Ring.{
  Desc, UsedElem, Iovec, Vring, Virtqueue, Vector, taken, next_head, virtio_queue_get_iov,
  virtio_queue_add_used_elem, virtio_queue_update_used_idx, virtio_queue_update_used_elem,
}
use heterogeneous_multicore.Virtio.Ring.Used.{complete, vring-must_notify}
use heterogeneous_multicore.Virtio.Ring.Avail.{
  Chain, vec, readable, writable, virtio_queue_get_iov-Chain,
}
use heterogeneous_multicore.Virtio.Trans.{TransDev}
use heterogeneous_multicore.Virtio.Trans.Tasks.{
  Task, tx_task, rx_task, TestState, Progress, over, overrun, max_indirect_num, round_fits, cnt_of,
  less32, hand_back, test_round, test_loop,
}
use heterogeneous_multicore.Virtio.Trans.Tasks.Fits.{AllShort, AllFit, within_buf-AllShort}
use heterogeneous_multicore.Virtio.Trans.Tasks.Offered.{
  Offered, Offered-completed, Offered-must_notify,
}

-- How many descriptors of a chain a task counts, and of some chains.
abbrev pub cnt_desc : Task → List Desc → ℕ
cnt_desc tx_task ds = writable ds
cnt_desc rx_task ds = readable ds

abbrev pub total : Task → List (ℕ × List Desc) → ℕ
total t [] = 0
total t ((h, ds) ∷ cs) = cnt_desc t ds + total t cs

-- Each chain counts.
abbrev pub AllCount : Task → List (ℕ × List Desc) → Type 0
AllCount t [] = Unit
AllCount t ((h, ds) ∷ cs) = (1 ≤ cnt_desc t ds) × AllCount t cs

abbrev pub first_len : List Desc → ℕ
first_len [] = 0
first_len (d ∷ ds) = d.len

-- What the task writes in the used ring for a chain.
abbrev pub used_elem : Task → ℕ × List Desc → UsedElem
used_elem t (h, ds) = record { id = h; len = first_len ds * cnt_desc t ds % 2 ^ 32 }

-- A ring has the used elements of a queue on which some chains were completed.
abbrev pub UsedAs : List UsedElem → Virtqueue → Vring → Type 0
UsedAs es vq vr =
    (vr.num ≡ (complete es vq).vring.num)
    × (vr.used_ring ≡ (complete es vq).vring.used_ring)
    × (vr.used_idx ≡ (complete es vq).vring.used_idx)

complete-same :
    (es : List UsedElem) (vq vq' : Virtqueue)
    → vq'.vring.num ≡ vq.vring.num
    → vq'.vring.used_ring ≡ vq.vring.used_ring
    → vq'.vring.used_idx ≡ vq.vring.used_idx
    → UsedAs es vq (complete es vq').vring
unfolding virtio_queue_update_used_elem virtio_queue_add_used_elem virtio_queue_update_used_idx
complete-same [] vq vq' num ring idx = (num, ring, idx)
complete-same (e ∷ es) vq vq' num ring idx =
    complete-same es (virtio_queue_update_used_elem vq e.id e.len)
      (virtio_queue_update_used_elem vq' e.id e.len) num (rw (num, ring, idx) refl) (rw idx refl)

UsedAs-step :
    (e : UsedElem) (es : List UsedElem) (vq vq' : Virtqueue) (vr : Vring)
    → vq'.vring ≡ (virtio_queue_update_used_elem (taken vq) e.id e.len).vring
    → UsedAs es vq' vr
    → UsedAs (e ∷ es) vq vr
unfolding virtio_queue_update_used_elem virtio_queue_add_used_elem virtio_queue_update_used_idx
UsedAs-step e es vq vq' vr same (num, ring, idx) =
    let vq1 = virtio_queue_update_used_elem vq e.id e.len in
    let (n, r, i) =
      complete-same es vq1 vq' (ap (λ (w : Vring). w.num) same)
        (ap (λ (w : Vring). w.used_ring) same) (ap (λ (w : Vring). w.used_idx) same) in
    (num ∙ n, ring ∙ r, idx ∙ i)

hand_back_lem :
    (chain : ℕ) (cs : List (ℕ × List Desc)) (poll : Bool) (head len : ℕ) (s : TestState)
    → Offered chain cs s.vq
    → let s' = hand_back poll head len s in
      (s'.vq.vring ≡ (virtio_queue_update_used_elem s.vq head len).vring)
      × Offered chain cs s'.vq
      × (s.interrupts ≤ s'.interrupts)
unfolding hand_back
hand_back_lem chain cs true head len s offered =
    (refl, Offered-completed chain cs s.vq head len offered, omega arith)
hand_back_lem chain cs false head len s offered =
    let vq = virtio_queue_update_used_elem s.vq head len in
    (
      vring-must_notify vq,
      Offered-must_notify chain cs vq (Offered-completed chain cs s.vq head len offered),
      ground arith,
    )

-- How a loop over all of some chains ends.
pub record Ended (t : Task) (o : Progress TestState) (cs : List (ℕ × List Desc)) (s : TestState)
    : Type 0 where
  pub s' : TestState
  pub ends : o ≡ over s'
  pub used : UsedAs (map (used_elem t) cs) s.vq s'.vq.vring
  pub later : s.interrupts ≤ s'.interrupts

pub first_of :
    (desc : ℕ → Desc) (i : ℕ) (ds : List Desc) (iov : ℕ → Iovec)
    → Chain desc i ds
    → ((k : ℕ) (d : Desc) → get_elem? ds k ≡ some d → iov k ≡ vec d)
    → (iov 0).len ≡ first_len ds
first_of desc i _ iov (Chain.last j e) at = ap (λ (v : Iovec). v.len) (at 0 (desc j) refl)
first_of desc i _ iov (Chain.link j e c) at = ap (λ (v : Iovec). v.len) (at 0 (desc j) refl)

pub cnt_of-desc :
    (t : Task) (v : Vector) (ds : List Desc)
    → v.cnt_out ≡ readable ds
    → v.cnt_in ≡ writable ds
    → cnt_of t v ≡ cnt_desc t ds
cnt_of-desc tx_task v ds out in1 = in1
cnt_of-desc rx_task v ds out in1 = out

pub length-elems :
    (t : Task) (cs : List (ℕ × List Desc)) → length (map (used_elem t) cs) ≡ length cs
length-elems t [] = refl
length-elems t (c ∷ cs) = ap suc (length-elems t cs)

-- The count that the front end reads after a test.
abbrev pub count_of : Task → TransDev → ℕ
count_of tx_task tdev = tdev.config.rx_count
count_of rx_task tdev = tdev.config.tx_count

pub cnt_desc-le : (t : Task) (ds : List Desc) → cnt_desc t ds ≤ length ds
cnt_desc-le tx_task [] = omega arith
cnt_desc-le rx_task [] = omega arith
cnt_desc-le tx_task (d ∷ ds) = ground (arith, cnt_desc-le tx_task ds)
cnt_desc-le rx_task (d ∷ ds) = ground (arith, cnt_desc-le rx_task ds)

module _ (tick : Virtqueue → Virtqueue) (t : Task) (app_buf : ℕ) (tdev : TransDev) where
  pub loop_step :
      (fuel r : ℕ) (s : TestState) (v : Vector)
      → virtio_queue_get_iov max_indirect_num s.vq s.iov
        ≡ some (pos (next_head s.vq), taken s.vq, v)
      → round_fits tick t app_buf tdev v ≡ true
      → test_loop tick t app_buf tdev (suc fuel) (suc r) s
        ≡ test_loop tick t app_buf tdev fuel
            (less32 (suc r) (cnt_of t v))
            (test_round tick t app_buf tdev (next_head s.vq) v (record s { vq = taken s.vq }))
  unfolding test_loop
  loop_step fuel r s v got fits = rw (got, fits) refl

  pub loop_overruns :
      (fuel r : ℕ) (s : TestState)
      → virtio_queue_get_iov max_indirect_num s.vq s.iov ≡ none
      → test_loop tick t app_buf tdev (suc fuel) (suc r) s ≡ overrun
  unfolding test_loop
  loop_overruns fuel r s got = rw got refl

  pub loop_leaves :
      (fuel r : ℕ) (s : TestState) (v : Vector)
      → virtio_queue_get_iov max_indirect_num s.vq s.iov
        ≡ some (pos (next_head s.vq), taken s.vq, v)
      → round_fits tick t app_buf tdev v ≡ false
      → test_loop tick t app_buf tdev (suc fuel) (suc r) s ≡ overrun
  unfolding test_loop
  loop_leaves fuel r s v got leaves = rw (got, leaves) refl

  pub round_fits-AllShort :
      (v : Vector) (ds : List Desc)
      → cnt_of t v ≡ cnt_desc t ds
      → ((k : ℕ) (d : Desc) → get_elem? ds k ≡ some d → v.iov k ≡ vec d)
      → (tdev.do_buf_copy ≡ true → AllShort ds)
      → round_fits tick t app_buf tdev v ≡ true
  round_fits-AllShort v ds count at short = elim (Bool-cases tdev.do_buf_copy) [
    | inr off ↦ rw off refl
    | inl on ↦
        let few : cnt_of t v ≤ length ds = omega (arith, count, cnt_desc-le t ds) in
        rw on (within_buf-AllShort app_buf (cnt_of t v) ds v.iov few at (short on))
  ]

  pub test_round_lem :
      (cs : List (ℕ × List Desc)) (ds : List Desc) (s : TestState) (v : Vector)
      → (v.iov 0).len ≡ first_len ds
      → cnt_of t v ≡ cnt_desc t ds
      → Offered max_indirect_num cs s.vq
      → (h : ℕ)
      → let s' = test_round tick t app_buf tdev h v s in
        let e = used_elem t (h, ds) in
        (s'.vq.vring ≡ (virtio_queue_update_used_elem s.vq e.id e.len).vring)
        × Offered max_indirect_num cs s'.vq
        × (s.interrupts ≤ s'.interrupts)
  unfolding test_round
  test_round_lem cs ds s v first count offered h =
      let (ring, kept, more) =
        hand_back_lem max_indirect_num cs tdev.front_poll_mode h _ _ offered in
      (
        ring
            ∙ ap (λ n. (virtio_queue_update_used_elem s.vq h (n % 2 ^ 32)).vring)
                (rw (first, count) refl),
        kept,
        more,
      )

  pub loop_ends :
      (fuel r : ℕ) (cs : List (ℕ × List Desc)) (s : TestState)
      → Offered max_indirect_num cs s.vq
      → (tdev.do_buf_copy ≡ true → AllFit cs)
      → AllCount t cs
      → total t cs ≡ r
      → r < 2 ^ 32
      → length cs ≤ fuel
      → Ended t (test_loop tick t app_buf tdev fuel r s) cs s
  loop_ends fuel zero [] s o fit all e small le = record {
    s' = s;
    ends = unfold test_loop in refl;
    used = (refl, refl, refl);
    later = omega arith;
  }
  loop_ends fuel (suc r) [] s o fit all e small le = absurd (omega arith)
  loop_ends fuel zero ((h, ds) ∷ cs) s o fit (one, all) e small le = absurd (omega arith)
  loop_ends zero (suc r) ((h, ds) ∷ cs) s o fit all e small le = absurd (omega arith)
  loop_ends (suc fuel) (suc r) ((h, ds) ∷ cs) s (more, head, c, enough, short, offered) fit
        (one, all) e small le =
      let (v, got, at, beyond, out, in1, moved) =
        virtio_queue_get_iov-Chain max_indirect_num s.vq s.iov ds more c enough short in
      let count = cnt_of-desc t v ds out in1 in
      let fits = round_fits-AllShort v ds count at (λ on. (fit on).0) in
      let s1 = record s { vq = taken s.vq } in
      let s2 = test_round tick t app_buf tdev (next_head s.vq) v s1 in
      let (ring, kept, later) =
        test_round_lem cs ds s1 v (first_of _ _ ds v.iov c at) count offered (next_head s.vq) in
      let left : less32 (suc r) (cnt_of t v) ≡ total t cs = omega (arith, count, e) in
      let rest =
        loop_ends fuel (total t cs) cs s2 kept (λ on. (fit on).1) all refl (omega arith)
          (omega arith) in
      let named = used_elem t (next_head s.vq, ds) in
      record {
        s' = rest.s';
        ends =
            loop_step fuel r s v got fits
            ∙ ap (λ n. test_loop tick t app_buf tdev fuel n s2) left
            ∙ rest.ends;
        used =
            rw⁻¹ head
              (UsedAs-step named (map (used_elem t) cs) s.vq s2.vq rest.s'.vq.vring ring rest.used);
        later = omega (arith, later, rest.later);
      }
