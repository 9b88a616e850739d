-- ===== src/Latency.antt =====
-- calc_diff_ns of apps/rt_latency/common/rt_latency.c: the ticks between two values of a counter, which
-- runs from 0 to `top` and round again, up or down.
use heterogeneous_multicore.Base.{
  ℕ, suc, ◌+◌, ◌-◌, ◌%◌, ◌≤◌, ◌≡◌, ◌∙◌, ap, Bool, true, false, leb, ltb, if◌then◌else◌, arith,
  Bool-cases, inl, inr,
}
use native.Mathlib.Nat.{mod-eq_of_lt, mod-eq-sub-mod}

-- The value before os_counter_ticks_to_ns.
unfoldable pub calc_diff : Bool → ℕ → ℕ → ℕ → ℕ
calc_diff counting_up top cnt_1 cnt_2 =
    if counting_up
    then if ltb cnt_2 cnt_1 then cnt_2 + top - cnt_1 else cnt_2 - cnt_1
    else if ltb cnt_1 cnt_2
    then cnt_1 + top - cnt_2
    else cnt_1 - cnt_2

-- A value that has gone round once at most.
round_once : (n top : ℕ) → n ≤ top + suc top → n % suc top ≡ (if leb n top then n else n - suc top)
round_once n top h = elim (Bool-cases (leb n top)) [
  | inl e ↦ rw e (mod-eq_of_lt {n = n} {m = suc top} (ground arith))
  | inr e ↦
      let over : suc top ≤ n = ground arith in
      rw e (
        mod-eq-sub-mod {n = n} {m = suc top} over
        ∙ mod-eq_of_lt {n = n - suc top} {m = suc top} (omega (arith, over, h)))
]

-- Where the counter has moved on by some ticks and not gone round, the difference is their number;
-- where it has gone round, the difference is one less.
pub calc_diff_ticks :
    (top cnt_1 ticks : ℕ)
    → cnt_1 ≤ top
    → ticks ≤ top
    → (calc_diff true top cnt_1 ((cnt_1 + ticks) % suc top)
        ≡ (if leb (cnt_1 + ticks) top then ticks else ticks - 1))
      × (calc_diff false top cnt_1 ((cnt_1 + suc top - ticks) % suc top)
          ≡ (if leb ticks cnt_1 then ticks else ticks - 1))
unfolding calc_diff
calc_diff_ticks top cnt_1 ticks c t = (
  ap (λ x. if ltb x cnt_1 then x + top - cnt_1 else x - cnt_1)
        (round_once (cnt_1 + ticks) top (omega arith))
      ∙ ground arith,
  ap (λ x. if ltb cnt_1 x then cnt_1 + top - x else cnt_1 - x)
        (round_once (cnt_1 + suc top - ticks) top (omega arith))
      ∙ ground arith,
)
