-- ===== src/Stats.antt =====
-- Statistics of samples: libs/stats/stats.c and include/stats/stats.h.
pub mod Extremes
pub mod Sets
pub mod Hist
mod Tests
use heterogeneous_multicore.Base.{
  ℕ, zero, suc, ◌+◌, ◌-◌, ◌*◌, ◌/◌, ◌%◌, ◌^◌, Bool, true, false, List, [], ◌∷◌, ◌++◌, ◌==◌, ltb,
  leb, if◌then◌else◌,
}
use heterogeneous_multicore.Base.Int.{ℤ, pos, negsuc, ◌+ℤ◌, ◌*ℤ◌, ltb_ℤ, pos_part, neg_part}

-- What `struct stats` shows of a set of samples once it is complete.
pub record Snapshot : Type 0 where
  pub min : ℤ
  pub max : ℤ
  pub mean : ℤ
  pub ms : ℕ
  pub variance : ℕ

-- `struct stats`. `shown` has the snapshots that `func` was called with, in order; `has_func` says
-- whether there is such a function.
pub record Stats : Type 0 where
  pub log2_size : ℕ
  pub current_count : ℕ
  pub current_min : ℤ
  pub current_max : ℤ
  pub current_mean : ℤ
  pub current_ms : ℕ
  pub snapshot : Snapshot
  pub abs_min : ℤ
  pub abs_max : ℤ
  pub has_func : Bool
  pub shown : List Snapshot

-- 0x7fffffff and -0x7fffffff
abbrev pub highest : ℤ
highest = pos 2147483647

abbrev pub lowest : ℤ
lowest = negsuc 2147483646

unfoldable pub stats_reset : Stats → Stats
stats_reset s = record s {
  current_count = 0;
  current_min = highest;
  current_mean = pos 0;
  current_max = lowest;
  current_ms = 0;
}

unfoldable pub stats_init : Stats → ℕ → Bool → Stats
unfolding stats_reset
stats_init s log2_size has_func =
    stats_reset
      (record s { log2_size = log2_size; has_func = has_func; abs_min = highest; abs_max = lowest })

-- `a >> k` of a signed integer, rounding down
abbrev pub shift_right : ℤ → ℕ → ℤ
shift_right (pos n) k = pos (n / 2 ^ k)
shift_right (negsuc n) k = negsuc (n / 2 ^ k)

-- A signed integer in 64 bits, as a number and back: the low 64 bits, in two's complement.
abbrev pub low64 : ℤ → ℕ
low64 (pos n) = n % 2 ^ 64
low64 (negsuc n) = 2 ^ 64 - 1 - n % 2 ^ 64

abbrev pub signed64 : ℕ → ℤ
signed64 n = if ltb n (2 ^ 63) then pos n else negsuc (2 ^ 64 - 1 - n)

-- The conversion to `int32_t`
abbrev pub to_int32 : ℤ → ℤ
to_int32 a = let n = low64 a % 2 ^ 32 in if ltb n (2 ^ 31) then pos n else negsuc (2 ^ 32 - 1 - n)

-- `s->ms - q` in 64 bits
abbrev pub minus64 : ℕ → ℤ → ℕ
minus64 ms q = (ms + 2 ^ 64 - low64 q) % 2 ^ 64

abbrev square : ℤ → ℤ
square a = signed64 (low64 (a *ℤ a))

-- The snapshot of a complete set.
unfoldable pub complete_set : Stats → Snapshot
complete_set s =
    let ms = s.current_ms / 2 ^ s.log2_size in
    record {
      min = s.current_min;
      max = s.current_max;
      mean = to_int32 (shift_right s.current_mean s.log2_size);
      ms = ms;
      variance = minus64 ms (shift_right (square s.current_mean) (2 * s.log2_size));
    }

abbrev pub lower : ℤ → Stats → Stats
lower val s =
    if ltb_ℤ val s.current_min
    then record s { current_min = val; abs_min = if ltb_ℤ val s.abs_min then val else s.abs_min }
    else s

abbrev pub raise : ℤ → Stats → Stats
raise val s =
    if ltb_ℤ s.current_max val
    then record s { current_max = val; abs_max = if ltb_ℤ s.abs_max val then val else s.abs_max }
    else s

abbrev pub count_sample : ℤ → Stats → Stats
count_sample val s = record s {
  current_count = (s.current_count + 1) % 2 ^ 32;
  current_mean = s.current_mean +ℤ val;
  current_ms = (s.current_ms + low64 (val *ℤ val)) % 2 ^ 64;
}

abbrev pub show : Stats → Stats
show s =
    let snapshot = complete_set s in
    record s {
      snapshot = snapshot;
      shown = if s.has_func then s.shown ++ snapshot ∷ [] else s.shown;
    }

-- `1U << log2_size` is for sizes below 32.
unfoldable pub stats_update : Stats → ℤ → Stats
unfolding stats_reset complete_set
stats_update s val =
    let s' = raise val (lower val (count_sample val s)) in
    if s'.current_count == 2 ^ s.log2_size then stats_reset (show s') else s'

-- Division of a signed integer by a positive one, rounding towards 0
abbrev pub divide : ℤ → ℕ → ℤ
divide (pos n) k = pos (n / k)
divide (negsuc n) k = if suc n / k == 0 then pos 0 else negsuc (suc n / k - 1)

unfoldable pub stats_compute : Stats → Stats
stats_compute s =
    let n = s.current_count in
    let ms = s.current_ms / n in
    if n == 0
    then record s {
      snapshot = record {
        min = s.current_min;
        max = s.current_max;
        mean = pos 0;
        ms = 0;
        variance = 0;
      };
    }
    else record s {
      snapshot = record {
        min = s.current_min;
        max = s.current_max;
        mean = to_int32 (divide s.current_mean n);
        ms = ms;
        variance = minus64 ms (divide (square s.current_mean) (n * n));
      };
    }
