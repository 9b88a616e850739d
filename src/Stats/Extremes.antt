-- ===== src/Stats/Extremes.antt =====
-- What the statistics of a set of samples are, and the extremes of all samples.
use heterogeneous_multicore.Base.{
  ℕ, ◌+◌, ◌/◌, ◌%◌, ◌^◌, ◌<◌, ◌≡◌, refl, sym, ap, subst, ◌∙◌, Bool, true, false, List, [], ◌∷◌,
  ◌++◌, length, arith, ◌==◌, if◌then◌else◌, Bool-cases, inl, inr,
}
use heterogeneous_multicore.Base.Int.{ℤ, pos, ◌+ℤ◌, ◌*ℤ◌, ltb_ℤ, ◌≤ℤ◌}
use heterogeneous_multicore.Stats.{
  Stats, highest, lowest, stats_reset, stats_init, shift_right, low64, to_int32, complete_set,
  stats_update, lower, raise, count_sample, show,
}

-- The lowest and highest of a value and some samples, their sum, and that of their squares in 64 bits.
abbrev pub lowest_of : ℤ → List ℤ → ℤ
lowest_of a [] = a
lowest_of a (v ∷ vs) = lowest_of (if ltb_ℤ v a then v else a) vs

abbrev pub highest_of : ℤ → List ℤ → ℤ
highest_of a [] = a
highest_of a (v ∷ vs) = highest_of (if ltb_ℤ a v then v else a) vs

abbrev pub sum_of : ℤ → List ℤ → ℤ
sum_of a [] = a
sum_of a (v ∷ vs) = sum_of (a +ℤ v) vs

abbrev pub squares_of : ℕ → List ℤ → ℕ
squares_of n [] = n
squares_of n (v ∷ vs) = squares_of ((n + low64 (v *ℤ v)) % 2 ^ 64) vs

-- Some samples, one after the other.
abbrev pub feed : List ℤ → Stats → Stats
feed [] s = s
feed (v ∷ vs) s = feed vs (stats_update s v)

abbrev collect : ℤ → Stats → Stats
collect v s = raise v (lower v (count_sample v s))

record Collected (v : ℤ) (s s' : Stats) : Type 0 where
  count : s'.current_count ≡ (s.current_count + 1) % 2 ^ 32
  min : s'.current_min ≡ (if ltb_ℤ v s.current_min then v else s.current_min)
  max : s'.current_max ≡ (if ltb_ℤ s.current_max v then v else s.current_max)
  sum : s'.current_mean ≡ s.current_mean +ℤ v
  squares : s'.current_ms ≡ (s.current_ms + low64 (v *ℤ v)) % 2 ^ 64
  size : s'.log2_size ≡ s.log2_size
  snap : s'.snapshot ≡ s.snapshot

collect-Collected : (v : ℤ) (s : Stats) → Collected v s (collect v s)
collect-Collected v s = record {
  count = ground arith;
  min = ground arith;
  max = ground arith;
  sum = ground arith;
  squares = ground arith;
  size = ground arith;
  snap = ground arith;
}

-- The extremes of all samples bound those of the current set.
abbrev Bounded : Stats → Type 0
Bounded s =
    (s.abs_min ≤ℤ s.current_min)
    × (s.current_max ≤ℤ s.abs_max)
    × (s.abs_min ≤ℤ highest)
    × (lowest ≤ℤ s.abs_max)

collect-low :
    (v : ℤ) (s : Stats)
    → s.abs_min ≤ℤ s.current_min
    → ((collect v s).abs_min ≡ (if ltb_ℤ v s.abs_min then v else s.abs_min))
      × ((collect v s).abs_min ≤ℤ (collect v s).current_min)
collect-low v s b = (ground (arith, b), ground (arith, b))

collect-high :
    (v : ℤ) (s : Stats)
    → s.current_max ≤ℤ s.abs_max
    → ((collect v s).abs_max ≡ (if ltb_ℤ s.abs_max v then v else s.abs_max))
      × ((collect v s).current_max ≤ℤ (collect v s).abs_max)
collect-high v s b = (ground (arith, b), ground (arith, b))

low_trans : (a v h : ℤ) → a ≤ℤ h → (if ltb_ℤ v a then v else a) ≤ℤ h
low_trans a v h le = ground (arith, le)

high_trans : (a v l : ℤ) → l ≤ℤ a → l ≤ℤ (if ltb_ℤ a v then v else a)
high_trans a v l le = ground (arith, le)

update-Bounded :
    (v : ℤ) (s : Stats)
    → Bounded s
    → Bounded (stats_update s v)
      × ((stats_update s v).abs_min ≡ (if ltb_ℤ v s.abs_min then v else s.abs_min))
      × ((stats_update s v).abs_max ≡ (if ltb_ℤ s.abs_max v then v else s.abs_max))
unfolding stats_update stats_reset
update-Bounded v s (b, c, l, h) =
    let (low, low_bounds) = collect-low v s b in
    let (high, high_bounds) = collect-high v s c in
    let below = subst (λ a. a ≤ℤ highest) (sym low) (low_trans s.abs_min v highest l) in
    let above = subst (λ a. lowest ≤ℤ a) (sym high) (high_trans s.abs_max v lowest h) in
    elim (Bool-cases ((collect v s).current_count == 2 ^ s.log2_size)) [
      | inl full ↦ rw full ((below, above, below, above), low, high)
      | inr more ↦ rw more ((low_bounds, high_bounds, below, above), low, high)
    ]

feed-abs :
    (vs : List ℤ) (s : Stats)
    → Bounded s
    → ((feed vs s).abs_min ≡ lowest_of s.abs_min vs)
      × ((feed vs s).abs_max ≡ highest_of s.abs_max vs)
feed-abs [] s b = (refl, refl)
feed-abs (v ∷ vs) s b =
    let (b', low, high) = update-Bounded v s b in
    let (lows, highs) = feed-abs vs (stats_update s v) b' in
    (lows ∙ ap (λ a. lowest_of a vs) low, highs ∙ ap (λ a. highest_of a vs) high)

-- However many sets the samples make, the absolute extremes are those of all samples since
-- stats_init: the lowest of them and 0x7fffffff, and the highest of them and -0x7fffffff.
pub stats_update-abs :
    (vs : List ℤ) (s : Stats) (log2_size : ℕ) (has_func : Bool)
    → let s' = feed vs (stats_init s log2_size has_func) in
      (s'.abs_min ≡ lowest_of highest vs) × (s'.abs_max ≡ highest_of lowest vs)
unfolding stats_init stats_reset
stats_update-abs vs s log2_size has_func =
    feed-abs vs (stats_init s log2_size has_func)
      (omega arith, omega arith, omega arith, omega arith)

update-more :
    (v : ℤ) (s : Stats)
    → ((collect v s).current_count == 2 ^ s.log2_size) ≡ false
    → stats_update s v ≡ collect v s
unfolding stats_update
update-more v s e = rw e refl

-- The fields of the current set after some samples, taken up from those before.
record Part (vs : List ℤ) (s s' : Stats) : Type 0 where
  count : s'.current_count ≡ s.current_count + length vs
  min : s'.current_min ≡ lowest_of s.current_min vs
  max : s'.current_max ≡ highest_of s.current_max vs
  sum : s'.current_mean ≡ sum_of s.current_mean vs
  squares : s'.current_ms ≡ squares_of s.current_ms vs
  size : s'.log2_size ≡ s.log2_size

-- While the set is not complete.
feed-Part :
    (vs : List ℤ) (s : Stats)
    → 2 ^ s.log2_size < 2 ^ 32
    → s.current_count + length vs < 2 ^ s.log2_size
    → Part vs s (feed vs s)
feed-Part [] s small room = record {
  count = omega arith;
  min = refl;
  max = refl;
  sum = refl;
  squares = refl;
  size = refl;
}
feed-Part (v ∷ vs) s small room =
    let c = collect-Collected v s in
    let one : (collect v s).current_count ≡ s.current_count + 1 = omega (arith, c.count) in
    let power = ap (λ n. 2 ^ n) c.size in
    let more : ((collect v s).current_count == 2 ^ s.log2_size) ≡ false =
      ground (arith, one, room) in
    let p = feed-Part vs (collect v s) (omega (arith, power)) (omega (arith, power, one)) in
    rw (update-more v s more) (record {
      count = omega (arith, p.count, one);
      min = p.min ∙ ap (λ a. lowest_of a vs) c.min;
      max = p.max ∙ ap (λ a. highest_of a vs) c.max;
      sum = p.sum ∙ ap (λ a. sum_of a vs) c.sum;
      squares = p.squares ∙ ap (λ a. squares_of a vs) c.squares;
      size = p.size ∙ c.size;
    })

feed-append : (vs : List ℤ) (v : ℤ) (s : Stats) → feed (vs ++ v ∷ []) s ≡ stats_update (feed vs s) v
feed-append [] v s = refl
feed-append (x ∷ vs) v s = feed-append vs v (stats_update s x)

lowest_of-append :
    (a : ℤ) (vs : List ℤ) (v : ℤ)
    → let low = lowest_of a vs in lowest_of a (vs ++ v ∷ []) ≡ (if ltb_ℤ v low then v else low)
lowest_of-append a [] v = refl
lowest_of-append a (x ∷ vs) v = lowest_of-append (if ltb_ℤ x a then x else a) vs v

highest_of-append :
    (a : ℤ) (vs : List ℤ) (v : ℤ)
    → let high = highest_of a vs in highest_of a (vs ++ v ∷ []) ≡ (if ltb_ℤ high v then v else high)
highest_of-append a [] v = refl
highest_of-append a (x ∷ vs) v = highest_of-append (if ltb_ℤ a x then x else a) vs v

sum_of-append : (a : ℤ) (vs : List ℤ) (v : ℤ) → sum_of a (vs ++ v ∷ []) ≡ sum_of a vs +ℤ v
sum_of-append a [] v = refl
sum_of-append a (x ∷ vs) v = sum_of-append (a +ℤ x) vs v

squares_of-append :
    (n : ℕ) (vs : List ℤ) (v : ℤ)
    → squares_of n (vs ++ v ∷ []) ≡ (squares_of n vs + low64 (v *ℤ v)) % 2 ^ 64
squares_of-append n [] v = refl
squares_of-append n (x ∷ vs) v = squares_of-append ((n + low64 (x *ℤ x)) % 2 ^ 64) vs v

update-full :
    (v : ℤ) (s : Stats)
    → ((collect v s).current_count == 2 ^ s.log2_size) ≡ true
    → stats_update s v ≡ stats_reset (show (collect v s))
unfolding stats_update
update-full v s e = rw e refl

-- What the snapshot of a set that begins after a reset has, by the sums and the extremes that the
-- code's starting values give.
pub feed-set :
    (vs : List ℤ) (v : ℤ) (s : Stats)
    → 2 ^ s.log2_size < 2 ^ 32
    → length vs + 1 ≡ 2 ^ s.log2_size
    → let all = vs ++ v ∷ [] in
      let s' = feed all (stats_reset s) in
      (s'.snapshot.min ≡ lowest_of highest all)
      × (s'.snapshot.max ≡ highest_of lowest all)
      × (s'.snapshot.mean ≡ to_int32 (shift_right (sum_of (pos 0) all) s.log2_size))
      × (s'.snapshot.ms ≡ squares_of 0 all / 2 ^ s.log2_size)
      × (s' ≡ stats_reset s')
unfolding stats_reset complete_set
feed-set vs v s small full =
    let s0 = stats_reset s in
    let part = feed-Part vs s0 small (omega (arith, full)) in
    let s1 = feed vs s0 in
    let c = collect-Collected v s1 in
    let power = ap (λ n. 2 ^ n) part.size in
    let size = c.size ∙ part.size in
    let done : ((collect v s1).current_count == 2 ^ s1.log2_size) ≡ true =
      ground (arith, c.count, part.count, power, full) in
    let snap = complete_set (collect v s1) in
    rw (feed-append vs v s0, update-full v s1 done)
      (
        c.min ∙ rw part.min (sym (lowest_of-append highest vs v)),
        c.max ∙ rw part.max (sym (highest_of-append lowest vs v)),
        ap (λ a. to_int32 (shift_right a (collect v s1).log2_size))
              (c.sum ∙ ap (λ a. a +ℤ v) part.sum ∙ sym (sum_of-append (pos 0) vs v))
            ∙ ap (λ k. to_int32 (shift_right (sum_of (pos 0) (vs ++ v ∷ [])) k)) size,
        ap (λ n. n / 2 ^ (collect v s1).log2_size)
              (c.squares
                ∙ ap (λ n. (n + low64 (v *ℤ v)) % 2 ^ 64) part.squares
                ∙ sym (squares_of-append 0 vs v))
            ∙ ap (λ k. squares_of 0 (vs ++ v ∷ []) / 2 ^ k) size,
        refl,
      )
