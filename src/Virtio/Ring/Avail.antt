-- ===== src/Virtio/Ring/Avail.antt =====
-- How virtio_queue_get_iov collects a chain of descriptors.
use heterogeneous_multicore.Base.{
  ℕ, zero, suc, ◌+◌, ◌^◌, ◌≤◌, ◌<◌, ◌≡◌, ◌≢◌, refl, ap, ◌∙◌, true, false, List, [], ◌∷◌, length,
  get_elem?, none, some, arith, update, if◌then◌else◌, test_bit, Bool-cases, inl, inr, ==_refl,
  ==-ne,
}
use heterogeneous_multicore.Base.Int.{pos, negsuc}
use heterogeneous_multicore.Virtio.Ring.{
  Desc, Iovec, Virtqueue, Vector, u16, next_bit, write_bit, add_desc, walk, table_of, start_of,
  next_head, taken, virtio_queue_get_iov,
}

-- The descriptors from an index on, up to the first that names no next one.
pub data Chain (desc : ℕ → Desc) : ℕ → List Desc → Type 0 where
  last : (i : ℕ) → test_bit (desc i).flags next_bit ≡ false → Chain desc i (desc i ∷ [])
  link :
      (i : ℕ) {ds : List Desc}
      → test_bit (desc i).flags next_bit ≡ true
      → Chain desc (desc i).next ds
      → Chain desc i (desc i ∷ ds)

-- How many descriptors of a list the device may write, and how many it may only read.
abbrev pub writable : List Desc → ℕ
writable [] = 0
writable (d ∷ ds) = (if test_bit d.flags write_bit then 1 else 0) + writable ds

abbrev pub readable : List Desc → ℕ
readable [] = 0
readable (d ∷ ds) = (if test_bit d.flags write_bit then 0 else 1) + readable ds

abbrev pub vec : Desc → Iovec
vec d = record { addr = d.addr; len = d.len }

-- A vector with some descriptors put in, from the place n on.
abbrev pub fill : (ℕ → Iovec) → ℕ → List Desc → ℕ → Iovec
fill iov n [] = iov
fill iov n (d ∷ ds) = fill (update iov n (vec d)) (suc n) ds

fill-below : (iov : ℕ → Iovec) (n : ℕ) (ds : List Desc) (j : ℕ) → j < n → fill iov n ds j ≡ iov j
fill-below iov n [] j less = refl
fill-below iov n (d ∷ ds) j less =
    fill-below (update iov n (vec d)) (suc n) ds j (omega arith) ∙ ground arith

fill-above :
    (iov : ℕ → Iovec) (n : ℕ) (ds : List Desc) (j : ℕ) → n + length ds ≤ j → fill iov n ds j ≡ iov j
fill-above iov n [] j beyond = refl
fill-above iov n (d ∷ ds) j beyond =
    fill-above (update iov n (vec d)) (suc n) ds j (omega arith) ∙ ground arith

fill-reads :
    (iov : ℕ → Iovec) (n : ℕ) (ds : List Desc) (k : ℕ) (d : Desc)
    → get_elem? ds k ≡ some d
    → fill iov n ds (n + k) ≡ vec d
fill-reads iov n [] k d e = absurd (ground arith)
fill-reads iov n (c ∷ ds) zero d e = at_n (ground arith)
  where
    place : n + 0 ≡ n
    place = omega arith

    at_n : c ≡ d → fill (update iov n (vec c)) (suc n) ds (n + 0) ≡ vec d
    at_n same =
        ap (fill (update iov n (vec c)) (suc n) ds) place
        ∙ fill-below (update iov n (vec c)) (suc n) ds n (omega arith)
        ∙ rw (==_refl n) (ap vec same)
fill-reads iov n (c ∷ ds) (suc k) d e =
    ap (fill (update iov n (vec c)) (suc n) ds) place
    ∙ fill-reads (update iov n (vec c)) (suc n) ds k d e
  where
    place : n + suc k ≡ suc n + k
    place = omega arith

-- One more descriptor in a vector, while the counters do not wrap.
add_desc-counts :
    (d : Desc) (v : Vector)
    → v.cnt_out + v.cnt_in + 1 < 2 ^ 16
    → add_desc d v ≡ record {
      iov = update v.iov (v.cnt_out + v.cnt_in) (vec d);
      cnt_out = v.cnt_out + (if test_bit d.flags write_bit then 0 else 1);
      cnt_in = v.cnt_in + (if test_bit d.flags write_bit then 1 else 0);
    }
add_desc-counts d v small = elim (Bool-cases (test_bit d.flags write_bit)) [
  | inl w ↦ rw w (ground arith)
  | inr w ↦ rw w (ground arith)
]

vector-≡ :
    {f g : ℕ → Iovec} {a b c d : ℕ}
    → f ≡ g
    → a ≡ b
    → c ≡ d
    → let v : Vector = record { iov = f; cnt_out = a; cnt_in = c } in
      let w : Vector = record { iov = g; cnt_out = b; cnt_in = d } in v ≡ w
vector-≡ p q r = rw (p, q, r) refl

module _ (desc : ℕ → Desc) where
  walk-Chain :
      (fuel i : ℕ) (ds : List Desc) (v : Vector)
      → Chain desc i ds
      → length ds ≤ fuel
      → v.cnt_out + v.cnt_in + length ds < 2 ^ 16
      → walk fuel desc i v
        ≡ some (record {
          iov = fill v.iov (v.cnt_out + v.cnt_in) ds;
          cnt_out = v.cnt_out + readable ds;
          cnt_in = v.cnt_in + writable ds;
        })
  unfolding walk
  walk-Chain zero i ds v (last _ e) enough small = absurd (omega arith)
  walk-Chain zero i ds v (link _ e c) enough small = absurd (omega arith)
  walk-Chain (suc fuel) i ds v (last _ e) enough small =
      rw e (ap some (add_desc-counts (desc i) v small ∙ vector-≡ refl (omega arith) (omega arith)))
  walk-Chain (suc fuel) i ds v (link _ {ds = ds'} e c) enough small =
      let d = desc i in
      let counted = add_desc-counts d v (omega arith) in
      let v' : Vector = record {
        iov = update v.iov (v.cnt_out + v.cnt_in) (vec d);
        cnt_out = v.cnt_out + (if test_bit d.flags write_bit then 0 else 1);
        cnt_in = v.cnt_in + (if test_bit d.flags write_bit then 1 else 0);
      } in
      let one : v'.cnt_out + v'.cnt_in ≡ suc (v.cnt_out + v.cnt_in) = ground arith in
      let rest = walk-Chain fuel d.next ds' v' c (omega arith) (omega (arith, one)) in
      rw e (
        ap (walk fuel desc d.next) counted
        ∙ rest
        ∙ ap some (vector-≡ (ap (λ n. fill v'.iov n ds') one) (omega arith) (omega arith)))

  -- More descriptors than there is fuel.
  walk-long :
      (fuel i : ℕ) (ds : List Desc) (v : Vector)
      → Chain desc i ds
      → fuel < length ds
      → walk fuel desc i v ≡ none
  unfolding walk
  walk-long zero i ds v c more = refl
  walk-long (suc fuel) i ds v (last _ e) more = absurd (omega arith)
  walk-long (suc fuel) i ds v (link _ {ds = ds'} e c) more =
      rw e (walk-long fuel (desc i).next ds' (add_desc (desc i) v) c (omega arith))

  -- A loop of descriptors that all name a next one is never left.
  pub walk-never_ends :
      (P : ℕ → Type 0)
      → ((i : ℕ) → P i → (test_bit (desc i).flags next_bit ≡ true) × P (desc i).next)
      → (fuel i : ℕ) (v : Vector) → P i
      → walk fuel desc i v ≡ none
  unfolding walk
  walk-never_ends P closed zero i v p = refl
  walk-never_ends P closed (suc fuel) i v p =
      let (more, p') = closed i p in
      rw more (walk-never_ends P closed fuel (desc i).next (add_desc (desc i) v) p')

-- A chain of more descriptors than there is fuel is not followed to its end.
pub virtio_queue_get_iov-long :
    (fuel : ℕ) (vq : Virtqueue) (iov : ℕ → Iovec) (ds : List Desc)
    → vq.vring.avail_idx ≢ vq.last_avail_idx
    → Chain (table_of vq.vring (next_head vq)) (start_of vq.vring (next_head vq)) ds
    → fuel < length ds
    → virtio_queue_get_iov fuel vq iov ≡ none
unfolding virtio_queue_get_iov
virtio_queue_get_iov-long fuel vq iov ds more c long =
    let v : Vector = record { iov = iov; cnt_out = 0; cnt_in = 0 } in
    let table = table_of vq.vring (next_head vq) in
    rw
      (
        ==-ne vq.vring.avail_idx vq.last_avail_idx more,
        walk-long table fuel (start_of vq.vring (next_head vq)) ds v c long,
      )
      refl

-- Nothing is available: -1, and nothing has changed.
pub virtio_queue_get_iov-empty :
    (fuel : ℕ) (vq : Virtqueue) (iov : ℕ → Iovec)
    → vq.vring.avail_idx ≡ vq.last_avail_idx
    → virtio_queue_get_iov fuel vq iov
      ≡ some (negsuc 0, vq, record { iov = iov; cnt_out = 0; cnt_in = 0 })
unfolding virtio_queue_get_iov
virtio_queue_get_iov-empty fuel vq iov e = rw (e, ==_refl vq.last_avail_idx) refl

-- A chain of fewer than 2 ^ 16 descriptors is available, in the ring's own table or in an indirect
-- one: the call ends and yields its head, and the vector has each descriptor of the chain in order, the
-- two counters say how many of them the device may read and write, and the head counts as taken.
-- Fuel for as many rounds as there are descriptors is enough.
pub virtio_queue_get_iov-Chain :
    (fuel : ℕ) (vq : Virtqueue) (iov : ℕ → Iovec) (ds : List Desc)
    → vq.vring.avail_idx ≢ vq.last_avail_idx
    → Chain (table_of vq.vring (next_head vq)) (start_of vq.vring (next_head vq)) ds
    → length ds ≤ fuel
    → length ds < 2 ^ 16
    → (v : Vector) × (virtio_queue_get_iov fuel vq iov ≡ some (pos (next_head vq), taken vq, v))
      × ((k : ℕ) (d : Desc) → get_elem? ds k ≡ some d → v.iov k ≡ vec d)
      × ((j : ℕ) → length ds ≤ j → v.iov j ≡ iov j)
      × (v.cnt_out ≡ readable ds)
      × (v.cnt_in ≡ writable ds)
      × ((taken vq).last_avail_idx ≡ u16 (vq.last_avail_idx + 1))
unfolding virtio_queue_get_iov
virtio_queue_get_iov-Chain fuel vq iov ds more c enough small =
    let v : Vector = record { iov = iov; cnt_out = 0; cnt_in = 0 } in
    let walked = walk-Chain (table_of vq.vring (next_head vq)) fuel _ ds v c enough (omega arith) in
    (
      record { iov = fill iov 0 ds; cnt_out = 0 + readable ds; cnt_in = 0 + writable ds },
      rw (==-ne vq.vring.avail_idx vq.last_avail_idx more, walked) refl,
      (λ k d e. ap (fill iov 0 ds) (place k) ∙ fill-reads iov 0 ds k d e),
      (λ j beyond. fill-above iov 0 ds j (omega arith)),
      omega arith,
      omega arith,
      refl,
    )
  where
    place : (k : ℕ) → k ≡ 0 + k
    place k = omega arith

-- A chain that comes back to itself, or goes on for ever otherwise: the call does not end, whatever
-- the fuel. P holds of the descriptors that the loop meets, each of which names a next one.
pub virtio_queue_get_iov-never_ends :
    (vq : Virtqueue) (P : ℕ → Type 0)
    → vq.vring.avail_idx ≢ vq.last_avail_idx
    → P (start_of vq.vring (next_head vq))
    → ((i : ℕ)
        → P i
        → (test_bit (table_of vq.vring (next_head vq) i).flags next_bit ≡ true)
          × P (table_of vq.vring (next_head vq) i).next)
    → (fuel : ℕ) (iov : ℕ → Iovec) → virtio_queue_get_iov fuel vq iov ≡ none
unfolding virtio_queue_get_iov
virtio_queue_get_iov-never_ends vq P more p closed fuel iov =
    let v : Vector = record { iov = iov; cnt_out = 0; cnt_in = 0 } in
    let lost = walk-never_ends (table_of vq.vring (next_head vq)) P closed fuel _ v p in
    rw (==-ne vq.vring.avail_idx vq.last_avail_idx more, lost) refl
