-- ===== src/Virtio/Ring/Used.antt =====
-- What the front end reads in the used ring, and when it is notified.
use heterogeneous_multicore.Base.{
  ℕ, zero, suc, ◌+◌, ◌-◌, ◌%◌, ◌^◌, ◌≤◌, ◌<◌, ◌≡◌, ◌≢◌, refl, sym, ap, subst, ◌∙◌, true, false, ◌↔◌,
  List, [], ◌∷◌, length, arith, ltb, ltb→lt, lt→ltb, ==_refl, ==-ne, update, Bool-cases, inl, inr,
}
use heterogeneous_multicore.Virtio.Ring.{
  UsedElem, Vring, Virtqueue, u16, virtio_queue_update_used_elem, virtio_queue_add_used_elem,
  virtio_queue_update_used_idx, vring_need_event, virtio_queue_must_notify,
}
use Prim.Native.Nat.{◌∣◌}
use native.Mathlib.Nat.{mod-mod_of_dvd, mod-lt, mod-add-mod, mod-eq_of_lt, mod-eq-sub-mod}

-- Some completions, one after the other.
abbrev pub complete : List UsedElem → Virtqueue → Virtqueue
complete [] vq = vq
complete (e ∷ es) vq = complete es (virtio_queue_update_used_elem vq e.id e.len)

-- The front end reads n elements of the used ring, from its own index on.
abbrev pub read_used : ℕ → ℕ → Vring → List UsedElem
read_used from zero vr = []
read_used from (suc n) vr = vr.used_ring (from % vr.num) ∷ read_used (u16 (from + 1)) n vr

pub read_used-same :
    (n from : ℕ) (vr vr' : Vring)
    → vr.num ≡ vr'.num
    → vr.used_ring ≡ vr'.used_ring
    → read_used from n vr ≡ read_used from n vr'
read_used-same zero from vr vr' num ring = refl
read_used-same (suc n) from vr vr' num ring =
    let rest = read_used-same n (u16 (from + 1)) vr vr' num ring in
    ap (λ m. vr.used_ring (from % m) ∷ read_used (u16 (from + 1)) n vr) num
    ∙ ap (λ r. r (from % vr'.num) ∷ read_used (u16 (from + 1)) n vr) ring
    ∙ ap (λ es. vr'.used_ring (from % vr'.num) ∷ es) rest

-- Places of the ring that are less than a ring apart are different.
not_moved : (n r d : ℕ) → 0 < d → d < n → r < n → (r + d) % n ≢ r
not_moved n r d pos less below same =
    let s = r + d in
    elim (Bool-cases (ltb s n)) [
      | inl small ↦ omega (arith, mod-eq_of_lt {n = s} {m = n} (ltb→lt s n small))
      | inr large ↦
          let over : n ≤ s = ground arith in
          omega (
            arith,
            over,
            mod-eq-sub-mod {n = s} {m = n} over,
            mod-eq_of_lt {n = s - n} {m = n} (omega (arith, over)),
          )
    ]

mod_apart : (n u d : ℕ) → 0 < d → d < n → (u + d) % n ≢ u % n
mod_apart n u d pos less e =
    not_moved n (u % n) d pos less (mod-lt u (omega arith)) (mod-add-mod u n d ∙ e)

-- The place of the ring that an index of 16 bits names.
slot : (n : ℕ) → n ∣ 2 ^ 16 → (u : ℕ) → u16 u % n ≡ u % n
slot n divides u = mod-mod_of_dvd n u divides

u16-suc : (u k : ℕ) → u16 (u16 (u + 1) + k) ≡ u16 (u + suc k)
u16-suc u k = omega arith

-- What completions change: the index, and the places of the ring they stand at.
pub complete-num : (es : List UsedElem) (vq : Virtqueue) → (complete es vq).vring.num ≡ vq.vring.num
unfolding virtio_queue_update_used_elem virtio_queue_add_used_elem virtio_queue_update_used_idx
complete-num [] vq = refl
complete-num (e ∷ es) vq = complete-num es (virtio_queue_update_used_elem vq e.id e.len)

complete-used_idx :
    (es : List UsedElem) (vq : Virtqueue)
    → vq.vring.used_idx < 2 ^ 16
    → (complete es vq).vring.used_idx ≡ u16 (vq.vring.used_idx + length es)
unfolding virtio_queue_update_used_elem virtio_queue_add_used_elem virtio_queue_update_used_idx
complete-used_idx [] vq small = omega arith
complete-used_idx (e ∷ es) vq small =
    omega (arith, complete-used_idx es (virtio_queue_update_used_elem vq e.id e.len) (omega arith))

complete-other_place :
    (es : List UsedElem) (vq : Virtqueue) (j : ℕ)
    → ((k : ℕ) → k < length es → u16 (vq.vring.used_idx + k) % vq.vring.num ≢ j)
    → (complete es vq).vring.used_ring j ≡ vq.vring.used_ring j
unfolding virtio_queue_update_used_elem virtio_queue_add_used_elem virtio_queue_update_used_idx
complete-other_place [] vq j other = refl
complete-other_place (e ∷ es) vq j other =
    complete-other_place es (virtio_queue_update_used_elem vq e.id e.len) j later
    ∙ rw (==-ne _ j (other 0 (omega arith))) refl
  where
    later : (k : ℕ) → k < length es → u16 (u16 (vq.vring.used_idx + 1) + k) % vq.vring.num ≢ j
    later k below = rw (u16-suc vq.vring.used_idx k) (other (suc k) (omega arith))

-- Completions that fit in the ring are all there for the front end: it reads, from the index at which
-- they began, each of them, in order, and the index has moved on by their number. The size of the
-- ring divides 2 ^ 16, and the index may wrap.
pub read_used-complete :
    (es : List UsedElem) (vq : Virtqueue)
    → vq.vring.num ∣ 2 ^ 16
    → vq.vring.used_idx < 2 ^ 16
    → length es ≤ vq.vring.num
    → (read_used vq.vring.used_idx (length es) (complete es vq).vring ≡ es)
      × ((complete es vq).vring.used_idx ≡ u16 (vq.vring.used_idx + length es))
unfolding virtio_queue_update_used_elem virtio_queue_add_used_elem virtio_queue_update_used_idx
read_used-complete [] vq divides small fits = (refl, omega arith)
read_used-complete (e ∷ es) vq divides small fits =
    let u = vq.vring.used_idx in
    let n = vq.vring.num in
    let vq1 = virtio_queue_update_used_elem vq e.id e.len in
    let (tail, idx) = read_used-complete es vq1 divides (omega arith) (omega arith) in
    let head : (complete es vq1).vring.used_ring (u % (complete es vq1).vring.num) ≡ e =
      ap (λ m. (complete es vq1).vring.used_ring (u % m)) (complete-num es vq1)
      ∙ complete-other_place es vq1 (u % n) later
      ∙ first_place in
    (
      ap (λ x. x ∷ read_used (u16 (u + 1)) (length es) (complete es vq1).vring) head
          ∙ ap (λ xs. e ∷ xs) tail,
      omega (arith, idx),
    )
  where
    same_index : u16 (vq.vring.used_idx + 0) ≡ vq.vring.used_idx
    same_index = omega arith

    first_place :
        update vq.vring.used_ring
          (u16 (vq.vring.used_idx + 0) % vq.vring.num)
          e
          (vq.vring.used_idx % vq.vring.num)
        ≡ e
    first_place = rw same_index (rw (==_refl (vq.vring.used_idx % vq.vring.num)) refl)

    later :
        (k : ℕ)
        → k < length es
        → u16 (u16 (vq.vring.used_idx + 1) + k) % vq.vring.num ≢ vq.vring.used_idx % vq.vring.num
    later k below =
        rw (u16-suc vq.vring.used_idx k, slot vq.vring.num divides (vq.vring.used_idx + suc k))
          (mod_apart vq.vring.num vq.vring.used_idx (suc k) (omega arith) (omega arith))

-- The front end asked to be notified when the index passes `event_idx`: that is needed just when
-- `event_idx` is one of the indexes from `old` up to `new_idx`, this one excluded, modulo 2 ^ 16.
pub vring_need_event-passes :
    (event_idx new_idx old : ℕ)
    → event_idx < 2 ^ 16
    → new_idx < 2 ^ 16
    → old < 2 ^ 16
    → (vring_need_event event_idx new_idx old ≡ true)
      ↔ ((k : ℕ) × (k < u16 (new_idx + 2 ^ 16 - old)) × (u16 (old + k) ≡ event_idx))
unfolding vring_need_event
vring_need_event-passes event_idx new_idx old e n o =
    (needed, λ (k, less, same). lt→ltb _ _ (omega (arith, less, same)))
  where
    needed :
        ltb (u16 (new_idx + 2 ^ 17 - event_idx - 1)) (u16 (new_idx + 2 ^ 16 - old)) ≡ true
        → (k : ℕ) × (k < u16 (new_idx + 2 ^ 16 - old)) × (u16 (old + k) ≡ event_idx)
    needed needs =
        let less = ltb→lt _ _ needs in
        (u16 (event_idx + 2 ^ 16 - old), omega (arith, less), omega arith)

complete-others :
    (es : List UsedElem) (vq : Virtqueue)
    → ((complete es vq).use_event_idx ≡ vq.use_event_idx)
      × ((complete es vq).vring.used_event ≡ vq.vring.used_event)
      × ((complete es vq).last_notified_idx ≡ vq.last_notified_idx)
unfolding virtio_queue_update_used_elem virtio_queue_add_used_elem virtio_queue_update_used_idx
complete-others [] vq = (refl, refl, refl)
complete-others (e ∷ es) vq = complete-others es (virtio_queue_update_used_elem vq e.id e.len)

virtio_queue_must_notify-events :
    (vq : Virtqueue)
    → vq.use_event_idx ≡ true
    → (virtio_queue_must_notify vq).0
      ≡ vring_need_event vq.vring.used_event vq.vring.used_idx vq.last_notified_idx
unfolding virtio_queue_must_notify
virtio_queue_must_notify-events vq events = ground arith

vring_need_event-same : (event_idx idx : ℕ) → vring_need_event event_idx idx idx ≡ false
unfolding vring_need_event
vring_need_event-same event_idx idx = ground arith

virtio_queue_must_notify-once :
    (vq : Virtqueue)
    → vq.use_event_idx ≡ true
    → (virtio_queue_must_notify vq).0 ≡ true
    → (virtio_queue_must_notify (virtio_queue_must_notify vq).1).0 ≡ false
unfolding virtio_queue_must_notify
virtio_queue_must_notify-once vq events now =
    ground (arith, vring_need_event-same vq.vring.used_event vq.vring.used_idx)

-- With event indexes, a batch of completions after the last notification is announced just when the
-- front end's event index is one of those passed, and not a second time.
pub virtio_queue_must_notify-batch :
    (vq : Virtqueue) (es : List UsedElem)
    → vq.use_event_idx ≡ true
    → vq.vring.used_event < 2 ^ 16
    → vq.vring.used_idx < 2 ^ 16
    → length es < 2 ^ 16
    → vq.last_notified_idx ≡ vq.vring.used_idx
    → let (notified, vq') = virtio_queue_must_notify (complete es vq) in
      ((notified ≡ true)
        ↔ ((k : ℕ) × (k < length es) × (u16 (vq.vring.used_idx + k) ≡ vq.vring.used_event)))
      × (notified ≡ true → (virtio_queue_must_notify vq').0 ≡ false)
virtio_queue_must_notify-batch vq es events e u l sync =
    let (same_mode, same_event, same_last) = complete-others es vq in
    let moved = complete-used_idx es vq u in
    let end = u16 (vq.vring.used_idx + length es) in
    let still_events = same_mode ∙ events in
    let asked : (virtio_queue_must_notify (complete es vq)).0
        ≡ vring_need_event vq.vring.used_event end vq.vring.used_idx =
      virtio_queue_must_notify-events (complete es vq) still_events
      ∙ rw (same_event, moved, same_last ∙ sync) refl in
    let all : u16 (end + 2 ^ 16 - vq.vring.used_idx) ≡ length es = omega arith in
    let (there, back) =
      vring_need_event-passes vq.vring.used_event end vq.vring.used_idx e (omega arith) u in
    (
      (
        (λ now.
            let (k, less, same) = there (sym asked ∙ now) in
            (k, subst (λ n. k < n) all less, same)),
        (λ (k, less, same). asked ∙ back (k, subst (λ n. k < n) (sym all) less, same)),
      ),
      virtio_queue_must_notify-once (complete es vq) still_events,
    )

-- Asking whether to notify changes nothing in the ring.
pub vring-must_notify : (vq : Virtqueue) → (virtio_queue_must_notify vq).1.vring ≡ vq.vring
unfolding virtio_queue_must_notify
vring-must_notify vq = elim (Bool-cases vq.use_event_idx) [
  | inr off ↦ rw off refl
  | inl on ↦
      elim (Bool-cases
        (vring_need_event vq.vring.used_event vq.vring.used_idx vq.last_notified_idx)) [
          | inl needed ↦ rw (on, needed) refl
          | inr quiet ↦ rw (on, quiet) refl
        ]
]
