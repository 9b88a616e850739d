-- ===== src/Stats/Sets.antt =====
-- A complete set of samples of libs/stats/stats.c, and what its snapshot says of them.
use heterogeneous_multicore.Base.{
  ◌+◌, ◌/◌, ◌^◌, ◌<◌, ◌≡◌, ◌≢◌, refl, sym, subst, Bool, true, false, List, [], ◌∷◌, ◌++◌, length,
  ◌⊎◌, arith, if◌then◌else◌, Bool-cases, ◌∙◌, ◌==◌, inl, inr,
}
use heterogeneous_multicore.Base.Int.{ℤ, pos, negsuc, ltb_ℤ, ◌≤ℤ◌}
use heterogeneous_multicore.Stats.{Stats, highest, lowest, stats_reset, shift_right, to_int32}
use heterogeneous_multicore.Stats.Extremes.{
  lowest_of, highest_of, sum_of, squares_of, feed, feed-set,
}

-- One of some samples.
pub data Among (x : ℤ) : List ℤ → Type 0 where
  first : {vs : List ℤ} → Among x (x ∷ vs)
  later : {v : ℤ} {vs : List ℤ} → Among x vs → Among x (v ∷ vs)

-- The least `int32_t`.
abbrev pub int32_min : ℤ
int32_min = negsuc 2147483647

highest_of-ge : (a : ℤ) (vs : List ℤ) → a ≤ℤ highest_of a vs
highest_of-ge a [] = ground arith
highest_of-ge a (v ∷ vs) = ground (arith, highest_of-ge (if ltb_ℤ a v then v else a) vs)

highest_of-bounds : {x : ℤ} (a : ℤ) {vs : List ℤ} → Among x vs → x ≤ℤ highest_of a vs
highest_of-bounds {x} a (first {vs}) = ground (arith, highest_of-ge (if ltb_ℤ a x then x else a) vs)
highest_of-bounds a (later {v} l) = highest_of-bounds (if ltb_ℤ a v then v else a) l

-- The value to begin with, or one of the samples.
abbrev From : ℤ → List ℤ → ℤ → Type 0
From a vs m = (m ≡ a) ⊎ Among m vs

From-more :
    (a v m : ℤ) (vs : List ℤ) (b : Bool) → From (if b then v else a) vs m → From a (v ∷ vs) m
From-more a v m vs b (inr l) = inr (later l)
From-more a v m vs true (inl e) = inr (subst (λ x. Among x (v ∷ vs)) (sym e) first)
From-more a v m vs false (inl e) = inl e

highest_of-From : (a : ℤ) (vs : List ℤ) → From a vs (highest_of a vs)
highest_of-From a [] = inl refl
highest_of-From a (v ∷ vs) =
    From-more a v _ vs (ltb_ℤ a v) (highest_of-From (if ltb_ℤ a v then v else a) vs)

lowest_of-le : (a : ℤ) (vs : List ℤ) → lowest_of a vs ≤ℤ a
lowest_of-le a [] = ground arith
lowest_of-le a (v ∷ vs) = ground (arith, lowest_of-le (if ltb_ℤ v a then v else a) vs)

lowest_of-bounds : {x : ℤ} (a : ℤ) {vs : List ℤ} → Among x vs → lowest_of a vs ≤ℤ x
lowest_of-bounds {x} a (first {vs}) = ground (arith, lowest_of-le (if ltb_ℤ x a then x else a) vs)
lowest_of-bounds a (later {v} l) = lowest_of-bounds (if ltb_ℤ v a then v else a) l

lowest_of-From : (a : ℤ) (vs : List ℤ) → From a vs (lowest_of a vs)
lowest_of-From a [] = inl refl
lowest_of-From a (v ∷ vs) =
    From-more a v _ vs (ltb_ℤ v a) (lowest_of-From (if ltb_ℤ v a then v else a) vs)

antisym_ℤ : (a b : ℤ) → a ≤ℤ b → b ≤ℤ a → a ≡ b
antisym_ℤ a b h k = ground arith

Among-last : (vs : List ℤ) (v : ℤ) → Among v (vs ++ v ∷ [])
Among-last [] v = first
Among-last (x ∷ vs) v = later (Among-last vs v)

module _ (vs : List ℤ) where
  -- The least sample, where none is above the value to begin with.
  lowest_of-Among : (x : ℤ) → Among x vs → x ≤ℤ highest → Among (lowest_of highest vs) vs
  lowest_of-Among x l le = elim (lowest_of-From highest vs) [
    | inr m ↦ m
    | inl e ↦
        let low = subst (λ m. m ≤ℤ x) e (lowest_of-bounds highest l) in
        subst (λ m. Among m vs) (antisym_ℤ x highest le low ∙ sym e) l
  ]

  highest_of-Among : (x : ℤ) → Among x vs → lowest ≤ℤ x → Among (highest_of lowest vs) vs
  highest_of-Among x l le = elim (highest_of-From lowest vs) [
    | inr m ↦ m
    | inl e ↦
        let high = subst (λ m. x ≤ℤ m) e (highest_of-bounds lowest l) in
        subst (λ m. Among m vs) (antisym_ℤ x lowest high le ∙ sym e) l
  ]

  highest_of-none : ((x : ℤ) → Among x vs → x ≡ int32_min) → highest_of lowest vs ≡ lowest
  highest_of-none all = elim (highest_of-From lowest vs) [
    | inl e ↦ e
    | inr m ↦
        let ge = subst (λ y. lowest ≤ℤ y) (all _ m) (highest_of-ge lowest vs) in
        absurd (omega arith)
  ]

-- A set that begins after a reset and gets as many samples of `int32_t` as its size, 2 ^ log2_size of
-- them: the snapshot then has the lowest sample and the sum divided by the size and rounded down, and
-- the mean of the squares, which are summed in 64 bits; and the next set begins from a reset. Its
-- maximum is the highest sample if some sample is not -2 ^ 31; if all are, it is -0x7fffffff, which is
-- none of them.
pub stats_update-set :
    (vs : List ℤ) (v : ℤ) (s : Stats)
    → 2 ^ s.log2_size < 2 ^ 32
    → length vs + 1 ≡ 2 ^ s.log2_size
    → ((x : ℤ) → Among x (vs ++ v ∷ []) → (int32_min ≤ℤ x) × (x ≤ℤ highest))
    → let all = vs ++ v ∷ [] in
      let s' = feed all (stats_reset s) in
      Among s'.snapshot.min all
      × ((x : ℤ) → Among x all → s'.snapshot.min ≤ℤ x)
      × ((x : ℤ) → Among x all → x ≢ int32_min → Among s'.snapshot.max all)
      × ((x : ℤ) → Among x all → x ≤ℤ s'.snapshot.max)
      × (((x : ℤ) → Among x all → x ≡ int32_min) → s'.snapshot.max ≡ lowest)
      × (s'.snapshot.mean ≡ to_int32 (shift_right (sum_of (pos 0) all) s.log2_size))
      × (s'.snapshot.ms ≡ squares_of 0 all / 2 ^ s.log2_size)
      × (s' ≡ stats_reset s')
stats_update-set vs v s small full ints =
    let all = vs ++ v ∷ [] in
    let (min, max, mean, ms, next) = feed-set vs v s small full in
    let one = Among-last vs v in
    (
      subst (λ m. Among m all) (sym min) (lowest_of-Among all v one (ints v one).1),
      λ x l. subst (λ m. m ≤ℤ x) (sym min) (lowest_of-bounds highest l),
      λ x l ne.
          subst (λ m. Among m all) (sym max)
            (highest_of-Among all x l (above_min x (ints x l).0 ne)),
      λ x l. subst (λ m. x ≤ℤ m) (sym max) (highest_of-bounds lowest l),
      λ same. max ∙ highest_of-none all same,
      mean,
      ms,
      next,
    )
  where
    above_min : (x : ℤ) → int32_min ≤ℤ x → x ≢ int32_min → lowest ≤ℤ x
    above_min (pos n) le ne = omega arith
    above_min (negsuc n) le ne = elim (Bool-cases (n == 2147483647)) [
      | inl e ↦ absurd (ne (ground arith))
      | inr e ↦ ground arith
    ]
