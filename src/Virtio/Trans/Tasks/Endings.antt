-- ===== src/Virtio/Trans/Tasks/Endings.antt =====
-- How a test ends, and when it does not.
use heterogeneous_multicore.Base.{
  ℕ, zero, suc, ◌+◌, ◌^◌, ◌≤◌, ◌<◌, ◌≡◌, refl, sym, ap, ◌∙◌, Bool, true, false, List, [], ◌∷◌,
  if◌then◌else◌, arith, length, map, Bool-cases, inl, inr, leb, ◌≢◌,
}
use Prim.Native.Nat.{◌∣◌}
use heterogeneous_multicore.Virtio.Ring.{
  Desc, Virtqueue, Vector, u16, taken, next_head, table_of, start_of, virtio_queue_add_used_elem,
  virtio_queue_update_used_idx, virtio_queue_update_used_elem, virtio_queue_must_notify,
}
use heterogeneous_multicore.Virtio.Ring.Used.{
  complete, read_used, read_used-same, read_used-complete,
}
use heterogeneous_multicore.Virtio.Ring.Avail.{
  Chain, virtio_queue_get_iov-Chain, virtio_queue_get_iov-long, virtio_queue_get_iov-empty,
}
use heterogeneous_multicore.Virtio.Trans.{TransDev}
use heterogeneous_multicore.Virtio.Trans.Tasks.Fits.{AllShort, AllFit}
use heterogeneous_multicore.Virtio.Trans.Tasks.Laws.{
  AllCount, round_fits-AllShort, loop_leaves, loop_overruns, cnt_desc-le, total, used_elem,
  cnt_desc, count_of, loop_ends, loop_step, cnt_of-desc, length-elems,
}
use heterogeneous_multicore.Virtio.Trans.Tasks.Offered.{Offered}
use heterogeneous_multicore.Virtio.Trans.Tasks.{
  Task, tx_task, rx_task, TestState, Progress, over, going, overrun, is_over, max_indirect_num,
  round_fits, cnt_of, less32, hand_back, test_round, counted, test_loop, finished, test,
}

-- Nothing is available.
abbrev pub Waiting : Virtqueue → Type 0
Waiting vq = vq.vring.avail_idx ≡ vq.last_avail_idx

hand_back-Waiting :
    (poll : Bool) (head len : ℕ) (s : TestState)
    → Waiting s.vq
    → Waiting (hand_back poll head len s).vq
unfolding hand_back virtio_queue_update_used_elem virtio_queue_add_used_elem
    virtio_queue_update_used_idx virtio_queue_must_notify
hand_back-Waiting poll head len s w = ground arith

module _ (tick : Virtqueue → Virtqueue) (t : Task) (app_buf : ℕ) (tdev : TransDev) where
  -- A test whose count is that of the descriptors in some chains, each of which counts, that have at
  -- most 100 descriptors each, none of them longer than 2048 bytes if the device copies, and that are
  -- all available, ends, and stays within `iov` and `app_buf`. The front end then reads in the used ring, from the index it had, the head
  -- of each chain in order, with the length of its first descriptor times the number that counts,
  -- and the index has moved on by their number; the device's count says how many the test had; and
  -- unless the front end polls, it has been interrupted. Fuel for the number of chains is enough.
  pub test_ends :
      (fuel : ℕ) (cs : List (ℕ × List Desc)) (s : TestState)
      → Offered max_indirect_num cs s.vq
      → (tdev.do_buf_copy ≡ true → AllFit cs)
      → AllCount t cs
      → total t cs ≡ tdev.config.regression
      → tdev.config.regression < 2 ^ 32
      → length cs ≤ fuel
      → s.vq.vring.num ∣ 2 ^ 16
      → s.vq.vring.used_idx < 2 ^ 16
      → length cs ≤ s.vq.vring.num
      → (tdev' : TransDev) × (s' : TestState) × (test tick t app_buf tdev fuel s ≡ over (tdev', s'))
        × (read_used s.vq.vring.used_idx (length cs) s'.vq.vring ≡ map (used_elem t) cs)
        × (s'.vq.vring.used_idx ≡ u16 (s.vq.vring.used_idx + length cs))
        × (count_of t tdev' ≡ tdev.config.regression)
        × (tdev.front_poll_mode ≡ false → s.interrupts < s'.interrupts)
  unfolding test
  test_ends fuel cs s offered fit all e small enough divides idx room =
      let es = map (used_elem t) cs in
      let done =
        loop_ends tick t app_buf tdev fuel tdev.config.regression cs s offered fit all e small
          enough in
      let (num, ring, moved) = done.used in
      let len : length es ≡ length cs = length-elems t cs in
      let (reads, index) = read_used-complete es s.vq divides idx (omega (arith, len)) in
      let (kept, rises) = finished_lem done.s' tdev.front_poll_mode in
      (
        _,
        _,
        ap (finished tick t app_buf tdev) done.ends,
        ap (λ (q : Virtqueue). read_used s.vq.vring.used_idx (length cs) q.vring) kept
            ∙ read_used-same (length cs) s.vq.vring.used_idx done.s'.vq.vring
                (complete es s.vq).vring num ring
            ∙ ap (λ n. read_used s.vq.vring.used_idx n (complete es s.vq).vring) (sym len)
            ∙ reads,
        ap (λ (q : Virtqueue). q.vring.used_idx) kept
            ∙ moved
            ∙ index
            ∙ ap (λ n. u16 (s.vq.vring.used_idx + n)) len,
        count_kept t,
        λ off. omega (arith, rises off, done.later),
      )
    where
      finished_lem :
          (s' : TestState) (poll : Bool)
          → let s'' = if poll then s' else record s' { interrupts = s'.interrupts + 1 } in
            (s''.vq ≡ s'.vq) × (poll ≡ false → s''.interrupts ≡ s'.interrupts + 1)
      finished_lem s' true = (refl, λ off. cc)
      finished_lem s' false = (refl, λ off. refl)

      count_kept :
          (u : Task) → count_of u (counted tick t app_buf tdev u tdev) ≡ tdev.config.regression
      count_kept tx_task = refl
      count_kept rx_task = refl

  test_round-Waiting :
      (head : ℕ) (v : Vector) (s : TestState)
      → Waiting s.vq
      → Waiting (test_round tick t app_buf tdev head v s).vq
  unfolding test_round
  test_round-Waiting head v s w = hand_back-Waiting tdev.front_poll_mode head _ _ w

  loop_waits :
      (fuel r : ℕ) (s : TestState)
      → ((vq : Virtqueue) → Waiting vq → Waiting (tick vq))
      → Waiting s.vq
      → 1 ≤ r
      → test_loop tick t app_buf tdev fuel r s ≡ going
  unfolding test_loop
  loop_waits fuel zero s idle w one = absurd (omega arith)
  loop_waits zero (suc r) s idle w one = refl
  loop_waits (suc fuel) (suc r) s idle w one =
      rw (virtio_queue_get_iov-empty max_indirect_num s.vq s.iov w)
        (loop_waits fuel (suc r) (record s { vq = tick s.vq }) idle (idle s.vq w) one)

  -- A round with a chain that has more descriptors that count than are left.
  round_over :
      (fuel r : ℕ) (ds : List Desc) (s : TestState)
      → s.vq.vring.avail_idx ≢ s.vq.last_avail_idx
      → Chain (table_of s.vq.vring (next_head s.vq)) (start_of s.vq.vring (next_head s.vq)) ds
      → length ds ≤ max_indirect_num
      → s.vq.vring.avail_idx ≡ u16 (s.vq.last_avail_idx + 1)
      → suc r < cnt_desc t ds
      → ((vq : Virtqueue) → Waiting vq → Waiting (tick vq))
      → let p = test_loop tick t app_buf tdev (suc fuel) (suc r) s in
        (is_over p ≡ false) × ((tdev.do_buf_copy ≡ true → AllShort ds) → p ≡ going)
  round_over fuel r ds s more c few last over_it idle =
      let (v, got, at, beyond, out, in1, moved) =
        virtio_queue_get_iov-Chain max_indirect_num s.vq s.iov ds more c few (omega arith) in
      let s1 = record s { vq = taken s.vq } in
      let count = cnt_of-desc t v ds out in1 in
      let waits =
        loop_waits fuel (less32 (suc r) (cnt_of t v)) _ idle
          (test_round-Waiting (next_head s.vq) v s1 last)
          (omega (arith, count, cnt_desc-le t ds)) in
      elim (Bool-cases (round_fits tick t app_buf tdev v)) [
        | inl fits ↦
            let goes = loop_step tick t app_buf tdev fuel r s v got fits ∙ waits in
            (ap is_over goes, λ short. goes)
        | inr leaves ↦ (
          ap is_over (loop_leaves tick t app_buf tdev fuel r s v got leaves),
          λ short. let fits = round_fits-AllShort tick t app_buf tdev v ds count at short in cc,
        )
      ]

  -- The only chain that is available has more descriptors that count than the test still wants, and
  -- the front end makes no other available. Whatever the fuel, the test is not over. Where the chain
  -- and its descriptors are no longer than the arrays, so that none is overrun, the test goes on: the
  -- count has wrapped.
  pub test_overshoots :
      (fuel chain h : ℕ) (ds : List Desc) (s : TestState)
      → Offered chain ((h, ds) ∷ []) s.vq
      → s.vq.vring.avail_idx ≡ u16 (s.vq.last_avail_idx + 1)
      → 1 ≤ tdev.config.regression
      → tdev.config.regression < cnt_desc t ds
      → ((vq : Virtqueue) → Waiting vq → Waiting (tick vq))
      → let after = test tick t app_buf tdev fuel s in
        (is_over after ≡ false)
        × (length ds ≤ max_indirect_num → (tdev.do_buf_copy ≡ true → AllShort ds) → after ≡ going)
  unfolding test
  test_overshoots fuel chain h ds s o last one over_it idle =
      let (out, on) = loop fuel tdev.config.regression one over_it in
      (
        finished-is_over (test_loop tick t app_buf tdev fuel tdev.config.regression s) out,
        λ few short. ap (finished tick t app_buf tdev) (on few short),
      )
    where
      finished-is_over :
          (p : Progress TestState)
          → is_over p ≡ false
          → is_over (finished tick t app_buf tdev p) ≡ false
      finished-is_over going e = refl
      finished-is_over overrun e = refl
      finished-is_over (over s') e = cc

      loop :
          (fuel r : ℕ)
          → 1 ≤ r
          → r < cnt_desc t ds
          → let p = test_loop tick t app_buf tdev fuel r s in
            (is_over p ≡ false)
            × (length ds ≤ max_indirect_num → (tdev.do_buf_copy ≡ true → AllShort ds) → p ≡ going)
      loop fuel zero one over_it = absurd (omega arith)
      loop zero (suc r) one over_it = unfold test_loop in (refl, λ few short. refl)
      loop (suc fuel) (suc r) one over_it =
          let (more, head, c, enough, short, nil) = o in
          elim (Bool-cases (leb (length ds) max_indirect_num)) [
            | inl few ↦
                let (out, on) =
                  round_over fuel r ds s more c (ground (arith, few)) last over_it idle in
                (out, λ few' short'. on short')
            | inr many ↦
                let long : max_indirect_num < length ds = ground (arith, many) in
                let none_got =
                  virtio_queue_get_iov-long max_indirect_num s.vq s.iov ds more c long in
                (
                  ap is_over (loop_overruns tick t app_buf tdev fuel r s none_got),
                  λ few short'. absurd (omega (arith, few, long)),
                )
          ]
