-- ===== src/Net/DataPkt/Laws.antt =====
-- What a clone shares with its packet, and where packets go when they are freed.
use heterogeneous_multicore.Base.{
  ℕ, ◌+◌, ◌≡◌, refl, Bool, true, List, [], ◌∷◌, Option, none, some, arith, if◌then◌else◌, ltb, ◌==◌,
  test_bit, Bool-cases, inl, inr,
}
use heterogeneous_multicore.Net.DataPkt.{
  DataPkt, Heap, alloc_size, data_pkt_head_room, data_pkt_build, data_pkt_set_len, data_pkt_alloc,
  data_pkt_clone, data_pkt_free, static_buff_bit,
}

-- How often a buffer occurs.
abbrev pub occurs : ℕ → List ℕ → ℕ
occurs k [] = 0
occurs k (x ∷ xs) = (if x == k then 1 else 0) + occurs k xs

-- How often a buffer was given back, one way or the other.
abbrev pub gone : ℕ → Heap → ℕ
gone k h = occurs k h.freed + occurs k h.released

pub gone-free :
    (k : ℕ) (pkt : DataPkt) (h : Heap)
    → gone k (data_pkt_free pkt h) ≡ (if pkt.buffer == k then 1 else 0) + gone k h
unfolding data_pkt_free
gone-free k pkt h = ground arith

pub made-free : (pkt : DataPkt) (h : Heap) → (data_pkt_free pkt h).made ≡ h.made
unfolding data_pkt_free
made-free pkt h = ground arith

-- How a packet came out of the allocator.
pub data Cloned (pkt : DataPkt) (h : Heap) : Option DataPkt × Heap → Type 0 where
  no_memory : Cloned pkt h (none, record h { fresh = h.fresh + 1 })
  no_room : Cloned pkt h (none, record h { fresh = h.fresh + 1; halted = true })
  cloned :
      (new_pkt : DataPkt)
      → new_pkt.buffer ≡ h.fresh
      → new_pkt.flags ≡ pkt.flags
      → new_pkt.data_len ≡ pkt.data_len
      → Cloned pkt h (some new_pkt, record h { fresh = h.fresh + 1; made = h.fresh ∷ h.made })

-- What data_pkt_alloc gives.
pub data Allocated (h : Heap) : Option DataPkt × Heap → Type 0 where
  no_memory : Allocated h (none, record h { fresh = h.fresh + 1 })
  no_room : Allocated h (none, record h { fresh = h.fresh + 1; halted = true })
  allocated :
      (pkt : DataPkt)
      → pkt.buffer ≡ h.fresh
      → Allocated h (some pkt, record h { fresh = h.fresh + 1; made = h.fresh ∷ h.made })

module _ (malloc : ℕ → Bool) where
  pub alloc-Allocated :
      (size flags : ℕ) (h : Heap) → Allocated h (data_pkt_alloc malloc size flags h)
  unfolding data_pkt_alloc data_pkt_build
  alloc-Allocated size flags h = elim (Bool-cases (malloc h.fresh)) [
    | inr fails ↦ rw fails Allocated.no_memory
    | inl works ↦ elim (Bool-cases (ltb data_pkt_head_room (alloc_size size))) [
      | inr small ↦ rw (works, small) Allocated.no_room
      | inl fits ↦ rw (works, fits) (Allocated.allocated _ refl)
    ]
  ]

  pub clone-Cloned : (pkt : DataPkt) (h : Heap) → Cloned pkt h (data_pkt_clone malloc pkt h)
  unfolding data_pkt_clone data_pkt_alloc data_pkt_build data_pkt_set_len
  clone-Cloned pkt h = elim (Bool-cases (malloc h.fresh)) [
    | inr fails ↦ rw fails Cloned.no_memory
    | inl works ↦ elim (Bool-cases (ltb data_pkt_head_room (alloc_size pkt.room))) [
      | inr small ↦ rw (works, small) Cloned.no_room
      | inl fits ↦ rw (works, fits) (Cloned.cloned _ refl refl refl)
    ]
  ]

-- A clone of a packet in a static buffer: the buffer that was allocated for it is only marked unused
-- when the clone is freed, and never goes back to the allocator.
pub clone_of_static_leaks :
    (malloc : ℕ → Bool) (pkt copied : DataPkt) (h : Heap)
    → test_bit pkt.flags static_buff_bit ≡ true
    → (data_pkt_clone malloc pkt h).0 ≡ some copied
    → let h' = data_pkt_free copied (data_pkt_clone malloc pkt h).1 in
      (h'.made ≡ copied.buffer ∷ h.made)
      × (h'.freed ≡ h.freed)
      × (h'.released ≡ copied.buffer ∷ h.released)
unfolding data_pkt_free
clone_of_static_leaks malloc pkt copied h static e =
    out (data_pkt_clone malloc pkt h) (clone-Cloned malloc pkt h) e
  where
    out :
        (r : Option DataPkt × Heap)
        → Cloned pkt h r
        → r.0 ≡ some copied
        → let h' = data_pkt_free copied r.1 in
          (h'.made ≡ copied.buffer ∷ h.made)
          × (h'.freed ≡ h.freed)
          × (h'.released ≡ copied.buffer ∷ h.released)
    out _ Cloned.no_memory e = absurd (ground arith)
    out _ Cloned.no_room e = absurd (ground arith)
    out _ (cloned new_pkt b f l) e = (ground arith, ground arith, ground arith)
