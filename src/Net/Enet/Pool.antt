-- ===== src/Net/Enet/Pool.antt =====
-- The static receive buffers: none is handed out twice.
use heterogeneous_multicore.Base.{
  without, ℕ, zero, suc, ◌+◌, ◌≤◌, ◌<◌, ◌≡◌, refl, sym, ap, ◌∙◌, Bool, true, false, List, [], ◌∷◌,
  Option, none, some, ◌==◌, if◌then◌else◌, arith, ◌≢◌, length, Bool-cases, inl, inr,
}
use heterogeneous_multicore.Net.DataPkt.{DataPkt}
use heterogeneous_multicore.Net.DataPkt.Laws.{occurs}
use heterogeneous_multicore.Net.Enet.{all_unused, shifted, rx_buff_alloc, rx_buff_free}

-- 1 if the buffer at a place is marked used.
abbrev pub used_at : ℕ → List DataPkt → ℕ
used_at i [] = 0
used_at zero (p ∷ ps) = if p.used then 1 else 0
used_at (suc i) (p ∷ ps) = used_at i ps

-- What an allocation does to the marks.
abbrev Allocates : List DataPkt → Option ℕ × List DataPkt → Type 0
Allocates ps (none, qs) = (qs ≡ ps) × ((j : ℕ) → j < length ps → used_at j ps ≡ 1)
Allocates ps (some b, qs) =
    (b < length ps)
    × (used_at b ps ≡ 0)
    × ((j : ℕ) → used_at j qs ≡ used_at j ps + (if j == b then 1 else 0))
    × (length qs ≡ length ps)

shifted-Allocates :
    (p : DataPkt) (ps : List DataPkt) (r : Option ℕ × List DataPkt)
    → p.used ≡ true
    → Allocates ps r
    → Allocates (p ∷ ps) (shifted p r)
shifted-Allocates p ps (none, qs) e (same, all) =
    (ap (λ rs. p ∷ rs) same, elim [ zero ↦ λ h. rw e refl | suc j ↦ λ h. all j (omega arith) ])
shifted-Allocates p ps (some b, qs) e (below, free, marks, len) = (
  omega arith,
  free,
  elim [ zero ↦ ground arith | suc j ↦ marks j ∙ ground arith ],
  omega (arith, len),
)

alloc_by :
    (p : DataPkt) (ps : List DataPkt) (b : Bool)
    → p.used ≡ b
    → Allocates ps (rx_buff_alloc ps)
    → Allocates
        (p ∷ ps)
        (if b then shifted p (rx_buff_alloc ps) else (some 0, record p { used = true } ∷ ps))
alloc_by p ps true e rest = shifted-Allocates p ps (rx_buff_alloc ps) e rest
alloc_by p ps false e rest =
    (omega arith, rw e refl, elim [ zero ↦ rw e refl | suc j ↦ ground arith ], refl)

rx_buff_alloc-Allocates : (ps : List DataPkt) → Allocates ps (rx_buff_alloc ps)
unfolding rx_buff_alloc
rx_buff_alloc-Allocates [] = (refl, λ j h. absurd (omega arith))
rx_buff_alloc-Allocates (p ∷ ps) = alloc_by p ps p.used refl (rx_buff_alloc-Allocates ps)

used_at-free :
    (ps : List DataPkt) (b j : ℕ)
    → used_at j (rx_buff_free b ps) ≡ (if j == b then 0 else used_at j ps)
unfolding rx_buff_free
used_at-free [] b j = ground arith
used_at-free (p ∷ ps) zero zero = refl
used_at-free (p ∷ ps) zero (suc j) = ground arith
used_at-free (p ∷ ps) (suc b) zero = ground arith
used_at-free (p ∷ ps) (suc b) (suc j) = used_at-free ps b j ∙ ground arith

length-free : (b : ℕ) (ps : List DataPkt) → length (rx_buff_free b ps) ≡ length ps
unfolding rx_buff_free
length-free b [] = refl
length-free zero (p ∷ ps) = refl
length-free (suc b) (p ∷ ps) = ap suc (length-free b ps)

used_at-init : (j : ℕ) (ps : List DataPkt) → used_at j (all_unused ps) ≡ 0
used_at-init j [] = refl
used_at-init zero (p ∷ ps) = refl
used_at-init (suc j) (p ∷ ps) = used_at-init j ps

length-init : (ps : List DataPkt) → length (all_unused ps) ≡ length ps
length-init [] = refl
length-init (p ∷ ps) = ap suc (length-init ps)

-- The driver and the switch, who hold buffers, and ask for one or give one back that they hold.
pub data Op : Type 0 where
  ask : Op
  give_back : ℕ → Op

abbrev pub handed : Option ℕ × List DataPkt → List ℕ → List DataPkt × List ℕ
handed (none, ps) held = (ps, held)
handed (some b, ps) held = (ps, b ∷ held)

abbrev pub step : Op → List DataPkt × List ℕ → List DataPkt × List ℕ
step ask (ps, held) = handed (rx_buff_alloc ps) held
step (give_back b) (ps, held) =
    if occurs b held == 0 then (ps, held) else (rx_buff_free b ps, without b held)

abbrev pub run : List Op → List DataPkt × List ℕ → List DataPkt × List ℕ
run [] s = s
run (op ∷ ops) s = run ops (step op s)

-- Every buffer is marked just when it is held.
abbrev Marked : ℕ → List DataPkt × List ℕ → Type 0
Marked n (ps, held) = ((j : ℕ) → occurs j held ≡ used_at j ps) × (length ps ≡ n)

occurs-without :
    (b j : ℕ) (held : List ℕ)
    → occurs b held ≢ 0
    → occurs j (without b held) + (if j == b then 1 else 0) ≡ occurs j held
occurs-without b j [] h = absurd (h refl)
occurs-without b j (c ∷ cs) h = elim (Bool-cases (c == b)) [
  | inl e ↦ rw e (ground arith)
  | inr e ↦ let rest = occurs-without b j cs (ground arith) in rw e (omega (arith, rest))
]

used_at-le : (j : ℕ) (ps : List DataPkt) → used_at j ps ≤ 1
used_at-le j [] = omega arith
used_at-le zero (p ∷ ps) = ground arith
used_at-le (suc j) (p ∷ ps) = used_at-le j ps

step-Marked : (n : ℕ) (op : Op) (s : List DataPkt × List ℕ) → Marked n s → Marked n (step op s)
step-Marked n ask (ps, held) m = ask_by (rx_buff_alloc ps) (rx_buff_alloc-Allocates ps) m
  where
    ask_by :
        (r : Option ℕ × List DataPkt)
        → Allocates ps r
        → Marked n (ps, held)
        → Marked n (handed r held)
    ask_by (none, qs) (same, all) (marks, len) =
        ((λ j. marks j ∙ ap (λ rs. used_at j rs) (sym same)), ap length same ∙ len)
    ask_by (some b, qs) (below, free, marked, same) (marks, len) =
        ((λ j. ground (arith, marks j, marked j)), same ∙ len)
step-Marked n (give_back b) (ps, held) (marks, len) = elim (Bool-cases (occurs b held == 0)) [
  | inl e ↦ rw e (marks, len)
  | inr e ↦ rw e (
    (λ j. ground (
      arith,
      occurs-without b j held (ground arith),
      used_at-free ps b j,
      marks j,
      used_at-le j ps,
    )),
    length-free b ps ∙ len,
  )
]

run-Marked : (n : ℕ) (ops : List Op) (s : List DataPkt × List ℕ) → Marked n s → Marked n (run ops s)
run-Marked n [] s m = m
run-Marked n (op ∷ ops) s m = run-Marked n ops (step op s) (step-Marked n op s m)

none_free :
    (n : ℕ) (ps : List DataPkt) (held : List ℕ)
    → Marked n (ps, held)
    → (r : Option ℕ × List DataPkt) → Allocates ps r
    → r.0 ≡ none
    → (j : ℕ) → j < n
    → occurs j held ≡ 1
none_free n ps held (marks, len) (none, qs) (same, all) e j h = marks j ∙ all j (omega (arith, len))
none_free n ps held m (some b, qs) a e j h = cc

-- From the setup on, however buffers are asked for and given back by those who hold them: no buffer is
-- held twice, and a buffer is refused only when all are held.
pub rx_buff_alloc_safe :
    (ops : List Op) (buffers : List DataPkt)
    → let (ps, held) = run ops (all_unused buffers, []) in
      ((j : ℕ) → occurs j held ≤ 1)
      × ((rx_buff_alloc ps).0 ≡ none → (j : ℕ) → j < length buffers → occurs j held ≡ 1)
rx_buff_alloc_safe ops buffers =
    let (ps, held) = run ops (all_unused buffers, []) in
    let m =
      run-Marked (length buffers) ops (all_unused buffers, [])
        ((λ j. sym (used_at-init j buffers)), length-init buffers) in
    (
      (λ j. omega (arith, m.0 j, used_at-le j ps)),
      λ e. none_free (length buffers) ps held m (rx_buff_alloc ps) (rx_buff_alloc-Allocates ps) e,
    )
