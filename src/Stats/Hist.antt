-- ===== src/Stats/Hist.antt =====
-- The histogram of libs/stats/stats.c.
use heterogeneous_multicore.Base.{
  ℕ, zero, suc, ◌+◌, ◌-◌, ◌/◌, ◌%◌, ◌^◌, ◌≤◌, ◌<◌, ◌≡◌, refl, sym, ap, subst, ◌∙◌, true, false,
  List, Option, none, some, arith, ◌==◌, ltb, lt→ltb, leb, if◌then◌else◌, length, get_elem?, set,
  length-set, get_elem?-set_self, get_elem?-set_ne, ◌≢◌, Bool-cases, inl, inr,
}
use heterogeneous_multicore.Base.Int.{ℤ, pos, negsuc}

abbrev pub max_slots : ℕ
max_slots = 256

-- `struct hist`
pub record Hist : Type 0 where
  pub slots : List ℕ
  pub n_slots : ℕ
  pub slot_size : ℕ

unfoldable pub hist_init : Hist → ℕ → ℕ → ℤ × Hist
hist_init hist n_slots slot_size =
    let n = (n_slots + 1) % 2 ^ 32 in
    if ltb max_slots n
    then (negsuc 0, hist)
    else (pos 0, record hist { n_slots = n; slot_size = slot_size })

-- A write of slots[i]; none where that is outside the array.
abbrev pub write_slot : ℕ → ℕ → Hist → Option Hist
write_slot i v hist =
    if ltb i (length hist.slots) then some (record hist { slots = set hist.slots i v }) else none

abbrev pub slot_of : Hist → ℕ → ℕ
slot_of hist value =
    let slot = value / hist.slot_size in if leb hist.n_slots slot then hist.n_slots - 1 else slot

abbrev incremented : ℕ → Option ℕ → Hist → Option Hist
incremented i none hist = none
incremented i (some n) hist = write_slot i ((n + 1) % 2 ^ 32) hist

-- none where the code divides by 0 or leaves the array.
unfoldable pub hist_update : Hist → ℕ → Option Hist
hist_update hist value =
    if hist.slot_size == 0
    then none
    else if hist.n_slots == 0
    then none
    else incremented (slot_of hist value) (get_elem? hist.slots (slot_of hist value)) hist

-- The first n slots, in order.
unfoldable pub clear_slots : ℕ → Hist → Option Hist
clear_slots zero hist = some hist
clear_slots (suc n) hist = elim (clear_slots n hist) [
  | none ↦ none
  | some hist' ↦ write_slot n 0 hist'
]

unfoldable pub hist_reset : Hist → Option Hist
unfolding clear_slots
hist_reset hist = clear_slots (hist.n_slots + 1) hist

clear_slots-in :
    (n : ℕ) (hist : Hist)
    → n ≤ length hist.slots
    → (hist' : Hist) × (clear_slots n hist ≡ some hist')
      × (length hist'.slots ≡ length hist.slots)
      × (hist'.n_slots ≡ hist.n_slots)
      × ((i : ℕ) → i < n → get_elem? hist'.slots i ≡ some 0)
unfolding clear_slots
clear_slots-in zero hist room = (hist, refl, refl, refl, λ i less. absurd (omega arith))
clear_slots-in (suc n) hist room =
    let (h, e, l, m, z) = clear_slots-in n hist (omega arith) in
    let fits : ltb n (length h.slots) ≡ true = ground (arith, l) in
    (
      record h { slots = set h.slots n 0 },
      rw (e, fits) refl,
      length-set h.slots n 0 ∙ l,
      m,
      λ i less. elim (Bool-cases (n == i)) [
        | inl here ↦
            let at : n ≡ i = ground arith in
            subst (λ j. get_elem? (set h.slots n 0) j ≡ some 0) at
              (get_elem?-set_self h.slots n 0 (omega (arith, l)))
        | inr other ↦
            let apart : n ≢ i = λ same. ground (arith, other, same) in
            get_elem?-set_ne h.slots n i 0 apart ∙ z i (ground (arith, other))
      ],
    )

clear_slots-out : (hist : Hist) → clear_slots (length hist.slots + 1) hist ≡ none
unfolding clear_slots
clear_slots-out hist = beyond (length hist.slots) refl
  where
    beyond : (n : ℕ) → n ≡ length hist.slots → clear_slots (n + 1) hist ≡ none
    beyond n full =
        let (h, e, l, m, z) = clear_slots-in n hist (omega arith) in
        let misses : ltb n (length h.slots) ≡ false = ground (arith, l) in
        let next : n + 1 ≡ suc n = omega arith in rw (next, e, misses) refl

hist_init-ok :
    (hist : Hist) (n_slots slot_size : ℕ)
    → n_slots ≤ 255
    → hist_init hist n_slots slot_size
      ≡ (pos 0, record hist { n_slots = n_slots + 1; slot_size = slot_size })
unfolding hist_init
hist_init-ok hist n_slots slot_size small =
    let kept : (n_slots + 1) % 2 ^ 32 ≡ n_slots + 1 = omega arith in
    let fits : ltb max_slots (n_slots + 1) ≡ false = ground arith in rw (kept, fits) refl

-- A histogram that hist_init has set up with fewer than 255 slots beside the last bucket is all zero
-- after hist_reset. hist_init allows 255 too, and hist_reset then writes one slot beyond the array.
pub hist_reset-bounds :
    (hist : Hist) (n_slots slot_size : ℕ)
    → length hist.slots ≡ max_slots
    → let (r, hist') = hist_init hist n_slots slot_size in
      (n_slots < 255
        → (r ≡ pos 0)
          × (hist'' : Hist) × (hist_reset hist' ≡ some hist'')
          × ((i : ℕ) → i ≤ n_slots → get_elem? hist''.slots i ≡ some 0))
      × (n_slots ≡ 255 → (r ≡ pos 0) × (hist_reset hist' ≡ none))
unfolding hist_reset
hist_reset-bounds hist n_slots slot_size l = (inside, outside)
  where
    inside :
        n_slots < 255
        → let (r, hist') = hist_init hist n_slots slot_size in
          (r ≡ pos 0)
          × (hist'' : Hist) × (hist_reset hist' ≡ some hist'')
          × ((i : ℕ) → i ≤ n_slots → get_elem? hist''.slots i ≡ some 0)
    inside less =
        let set_up = record hist { n_slots = n_slots + 1; slot_size = slot_size } in
        let (h, e, l', m, z) = clear_slots-in (n_slots + 1 + 1) set_up (omega (arith, l)) in
        rw (hist_init-ok hist n_slots slot_size (omega arith))
          (refl, h, e, λ i le. z i (omega arith))

    outside :
        n_slots ≡ 255
        → let (r, hist') = hist_init hist n_slots slot_size in
          (r ≡ pos 0) × (hist_reset hist' ≡ none)
    outside full =
        let set_up = record hist { n_slots = n_slots + 1; slot_size = slot_size } in
        let all : n_slots + 1 + 1 ≡ length hist.slots + 1 = omega (arith, l) in
        rw (hist_init-ok hist n_slots slot_size (omega arith))
          (refl, ap (λ n. clear_slots n set_up) all ∙ clear_slots-out set_up)

-- One more value in a histogram that has slots and a slot size: its bucket, the last one for all
-- values beyond, has one more, in 32 bits, and the others have what they had.
pub hist_update-counts :
    (hist : Hist) (value n : ℕ)
    → 0 < hist.slot_size
    → 0 < hist.n_slots
    → hist.n_slots ≤ length hist.slots
    → get_elem? hist.slots (slot_of hist value) ≡ some n
    → (hist' : Hist) × (hist_update hist value ≡ some hist')
      × (slot_of hist value < hist.n_slots)
      × (get_elem? hist'.slots (slot_of hist value) ≡ some ((n + 1) % 2 ^ 32))
      × ((i : ℕ) → i ≢ slot_of hist value → get_elem? hist'.slots i ≡ get_elem? hist.slots i)
unfolding hist_update
hist_update-counts hist value n size slots room e =
    let i = slot_of hist value in
    let below : i < hist.n_slots = ground (arith, slots) in
    let no_zero : (hist.slot_size == 0) ≡ false = ground (arith, size) in
    let some_slots : (hist.n_slots == 0) ≡ false = ground (arith, slots) in
    let fits : ltb i (length hist.slots) ≡ true =
      lt→ltb i (length hist.slots) (omega (arith, below, room)) in
    (
      record hist { slots = set hist.slots i ((n + 1) % 2 ^ 32) },
      rw (no_zero, some_slots, e, fits) refl,
      below,
      get_elem?-set_self hist.slots i ((n + 1) % 2 ^ 32) (omega (arith, below, room)),
      λ j apart. get_elem?-set_ne hist.slots i j ((n + 1) % 2 ^ 32) (λ same. apart (sym same)),
    )
