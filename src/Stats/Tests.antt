-- ===== src/Stats/Tests.antt =====
-- The statistics on small inputs: runs, and the theorems where their hypotheses hold.
use heterogeneous_multicore.Base.{
  ℕ, ◌/◌, ◌≤◌, ◌<◌, ◌≡◌, ◌≢◌, refl, true, [], ◌∷◌, some, none, arith, replicate, get_elem?,
}
use heterogeneous_multicore.Base.Int.{ℤ, pos, negsuc, ◌+ℤ◌, ◌*ℤ◌, ◌≤ℤ◌}
use heterogeneous_multicore.Stats.{
  Stats, Snapshot, stats_reset, stats_init, shift_right, to_int32, stats_update, highest, lowest,
}
use heterogeneous_multicore.Stats.Extremes.{feed, sum_of, squares_of}
use heterogeneous_multicore.Stats.Sets.{Among, first, later, int32_min, stats_update-set}
use heterogeneous_multicore.Stats.Hist.{Hist, hist_init, hist_reset, hist_reset-bounds}

abbrev unset : Snapshot
unset = record { min = pos 0; max = pos 0; mean = pos 0; ms = 0; variance = 0 }

abbrev blank : Stats
blank = record {
  log2_size = 1;
  current_count = 0;
  current_min = pos 0;
  current_max = pos 0;
  current_mean = pos 0;
  current_ms = 0;
  snapshot = unset;
  abs_min = pos 0;
  abs_max = pos 0;
  has_func = true;
  shown = [];
}

-- 3 and -6: their mean is -2, rounded down, and the variance the difference of 22 and 2.
two_samples :
    (feed (pos 3 ∷ negsuc 5 ∷ []) (stats_init blank 1 true)).shown
    ≡ record { min = negsuc 5; max = pos 3; mean = negsuc 1; ms = 22; variance = 20 } ∷ []
unfolding stats_update stats_init ◌+ℤ◌ ◌*ℤ◌
two_samples = refl

pair-in_range : (x : ℤ) → Among x (pos 3 ∷ negsuc 5 ∷ []) → (int32_min ≤ℤ x) × (x ≤ℤ highest)
pair-in_range x first = (omega arith, omega arith)
pair-in_range x (later first) = (omega arith, omega arith)
pair-in_range x (later (later l)) = elim l [ ]

stats_update-set_example :
    let all = pos 3 ∷ negsuc 5 ∷ [] in
    let s' = feed all (stats_reset blank) in
    Among s'.snapshot.min all
    × ((x : ℤ) → Among x all → s'.snapshot.min ≤ℤ x)
    × ((x : ℤ) → Among x all → x ≢ int32_min → Among s'.snapshot.max all)
    × ((x : ℤ) → Among x all → x ≤ℤ s'.snapshot.max)
    × (((x : ℤ) → Among x all → x ≡ int32_min) → s'.snapshot.max ≡ lowest)
    × (s'.snapshot.mean ≡ to_int32 (shift_right (sum_of (pos 0) all) 1))
    × (s'.snapshot.ms ≡ squares_of 0 all / 2)
    × (s' ≡ stats_reset s')
stats_update-set_example =
    stats_update-set (pos 3 ∷ []) (negsuc 5) blank (omega arith) refl pair-in_range

abbrev hist : Hist
hist = record { slots = replicate 256 7; n_slots = 4; slot_size = 10 }

hist_reset-bounds_example :
    let (r, hist') = hist_init hist 200 10 in
    (200 < 255
      → (r ≡ pos 0)
        × (hist'' : Hist) × (hist_reset hist' ≡ some hist'')
        × ((i : ℕ) → i ≤ 200 → get_elem? hist''.slots i ≡ some 0))
    × (◌≡◌ {A = ℕ} 200 255 → (r ≡ pos 0) × (hist_reset hist' ≡ none))
hist_reset-bounds_example = hist_reset-bounds hist 200 10 refl
