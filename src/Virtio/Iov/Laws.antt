-- ===== src/Virtio/Iov/Laws.antt =====
-- What is written through an I/O vector is read back through it.
use heterogeneous_multicore.Base.{
  ℕ, suc, ◌+◌, ◌-◌, ◌≤◌, ◌<◌, ◌≡◌, refl, sym, ap, ◌∙◌, ◌⊎◌, inl, inr, List, [], ◌∷◌, ◌++◌, some,
  arith, length,
}
use heterogeneous_multicore.Base.Bytes.{
  put, bytes_at, take, drop, min, length-take, length-drop, take-drop, put-other, bytes_at-put,
  bytes_at-same,
}
use heterogeneous_multicore.Virtio.Ring.{Iovec}
use heterogeneous_multicore.Virtio.Iov.{
  iov_size, advanced, joined, memcpy_toiovec, memcpy_fromiovec,
}

-- Two regions that do not meet, and one that meets none of a vector's.
abbrev pub Apart : ℕ → ℕ → Iovec → Type 0
Apart a n v = (a + n ≤ v.addr) ⊎ (v.addr + v.len ≤ a)

abbrev pub AllApart : ℕ → ℕ → List Iovec → Type 0
AllApart a n [] = Unit
AllApart a n (v ∷ iov) = Apart a n v × AllApart a n iov

abbrev pub Disjoint : List Iovec → Type 0
Disjoint [] = Unit
Disjoint (v ∷ iov) = AllApart v.addr v.len iov × Disjoint iov

-- What a round trip of the data through the vector ends in, and what it leaves alone.
record RoundTrip (iov : List Iovec) (xs : List ℕ) (mem : ℕ → ℕ) : Type 0 where
  iov' : List Iovec
  mem' : ℕ → ℕ
  to : memcpy_toiovec iov xs mem ≡ some (iov', mem')
  from : memcpy_fromiovec iov (length xs) mem' ≡ some (iov', xs)
  outside : (a n : ℕ) → AllApart a n iov → (b : ℕ) → a ≤ b → b < a + n → mem' b ≡ mem b

aside :
    (a n : ℕ) (v : Iovec) (b k : ℕ)
    → Apart a n v
    → a ≤ b
    → b < a + n
    → k ≤ v.len
    → (b < v.addr) ⊎ (v.addr + k ≤ b)
aside a n v b k (inl before) low high le = inl (omega arith)
aside a n v b k (inr after) low high le = inr (omega arith)

pub from_step :
    (v : Iovec) (iov : List Iovec) (n : ℕ) (m : ℕ → ℕ) (k j : ℕ)
    → min v.len (suc n) ≡ k
    → suc n - k ≡ j
    → memcpy_fromiovec (v ∷ iov) (suc n) m
      ≡ joined (advanced v k) (bytes_at v.addr k m) (memcpy_fromiovec iov j m)
unfolding memcpy_fromiovec
from_step v iov n m k j p q = rw (p, q) refl

round_trip :
    (iov : List Iovec) (xs : List ℕ) (mem : ℕ → ℕ)
    → Disjoint iov
    → length xs ≤ iov_size iov
    → RoundTrip iov xs mem
unfolding memcpy_toiovec memcpy_fromiovec iov_size
round_trip iov [] mem d room = record {
  iov' = iov;
  mem' = mem;
  to = refl;
  from = refl;
  outside = λ a n o b l h. refl;
}
round_trip [] (x ∷ xs) mem d room = absurd (omega arith)
round_trip (v ∷ iov) (x ∷ xs) mem d room =
    let all = x ∷ xs in
    let c = take v.len all in
    let r = drop v.len all in
    let taken : length c ≡ min v.len (length all) = length-take v.len all in
    let left : length r ≡ length all - min v.len (length all) = length-drop v.len all in
    let fits : length c ≤ v.len = ground (arith, taken) in
    let m1 = put v.addr c mem in
    let t = round_trip iov r m1 d.1 (ground (arith, left)) in
    let stay =
      bytes_at-same v.addr (length c) m1 t.mem'
        (λ b low high. t.outside v.addr v.len d.0 b low (omega (arith, fits))) in
    record {
      iov' = advanced v (length c) ∷ t.iov';
      mem' = t.mem';
      to = rw (t.to) refl;
      from =
          from_step v iov (length xs) t.mem' (length c) (length r) (sym taken)
            (omega (arith, taken, left))
          ∙ ap (joined (advanced v (length c)) (bytes_at v.addr (length c) t.mem')) t.from
          ∙ ap (λ ys. some (advanced v (length c) ∷ t.iov', ys))
              (ap (λ ys. ys ++ r) (stay ∙ bytes_at-put v.addr c mem) ∙ take-drop v.len all);
      outside = λ a n o b low high.
          t.outside a n o.1 b low high
          ∙ put-other v.addr c mem b (aside a n v b (length c) o.0 low high fits);
    }

-- Data that fit into a vector of regions that do not meet: copied to the vector and back they are the
-- same, both copies end and leave the entries of the vector advanced alike, and a region that meets
-- none of the vector's has what it had.
pub memcpy_fromiovec-memcpy_toiovec :
    (iov : List Iovec) (xs : List ℕ) (mem : ℕ → ℕ)
    → Disjoint iov
    → length xs ≤ iov_size iov
    → (iov' : List Iovec) × (mem' : ℕ → ℕ) × (memcpy_toiovec iov xs mem ≡ some (iov', mem'))
      × (memcpy_fromiovec iov (length xs) mem' ≡ some (iov', xs))
      × ((a n : ℕ) → AllApart a n iov → (b : ℕ) → a ≤ b → b < a + n → mem' b ≡ mem b)
memcpy_fromiovec-memcpy_toiovec iov xs mem d room =
    let t = round_trip iov xs mem d room in (t.iov', t.mem', t.to, t.from, t.outside)
