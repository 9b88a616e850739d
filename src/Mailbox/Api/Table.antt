-- ===== src/Mailbox/Api/Table.antt =====
-- The table of instances: what a search finds, and which locks are free.
use mathlib.Core.Option
use heterogeneous_multicore.Base.{
  ℕ, zero, suc, ◌≡◌, refl, List, [], ◌∷◌, Option, none, some, arith, if◌then◌else◌, get_elem?, set,
}
use heterogeneous_multicore.Mailbox.State.{Mbox}
use heterogeneous_multicore.Mailbox.Api.{get_instance, holds, add_mbox, del_mbox}

-- No instance of the table has its lock taken.
abbrev pub Unlocked : List (Option Mbox) → Type 0
Unlocked [] = Unit
Unlocked (none ∷ rest) = Unlocked rest
Unlocked (some m ∷ rest) = (m.lock ≡ 1) × Unlocked rest

pub Unlocked-get :
    (t : List (Option Mbox)) (i : ℕ) (m : Mbox)
    → Unlocked t
    → get_elem? t i ≡ some (some m)
    → m.lock ≡ 1
Unlocked-get [] i m u e = ground arith
Unlocked-get (none ∷ t) zero m u e = ground arith
Unlocked-get (some x ∷ t) zero m u e = ground arith
Unlocked-get (none ∷ t) (suc i) m u e = Unlocked-get t i m u e
Unlocked-get (some x ∷ t) (suc i) m u e = Unlocked-get t i m u.1 e

pub Unlocked-set :
    (t : List (Option Mbox)) (i : ℕ) (m : Mbox)
    → Unlocked t
    → m.lock ≡ 1
    → Unlocked (set t i (some m))
Unlocked-set [] i m u e = tt
Unlocked-set (none ∷ t) zero m u e = (e, u)
Unlocked-set (some x ∷ t) zero m u e = (e, u.1)
Unlocked-set (none ∷ t) (suc i) m u e = Unlocked-set t i m u e
Unlocked-set (some x ∷ t) (suc i) m u e = (u.0, Unlocked-set t i m u.1 e)

pub Unlocked-del_mbox : (t : List (Option Mbox)) (i : ℕ) → Unlocked t → Unlocked (del_mbox i t)
unfolding del_mbox
Unlocked-del_mbox [] i u = tt
Unlocked-del_mbox (none ∷ t) zero u = u
Unlocked-del_mbox (some x ∷ t) zero u = u.1
Unlocked-del_mbox (none ∷ t) (suc i) u = Unlocked-del_mbox t i u
Unlocked-del_mbox (some x ∷ t) (suc i) u = (u.0, Unlocked-del_mbox t i u.1)

pub Unlocked-add_mbox :
    (t : List (Option Mbox)) (m : Mbox) → Unlocked t → m.lock ≡ 1 → Unlocked (add_mbox m t).1
unfolding add_mbox
Unlocked-add_mbox [] m u e = tt
Unlocked-add_mbox (none ∷ t) m u e = (e, u)
Unlocked-add_mbox (some x ∷ t) m u e = (u.0, Unlocked-add_mbox t m u.1 e)

-- A search that succeeds names a place that holds an instance for the address.
pub get_instance-found :
    (base : ℕ) (t : List (Option Mbox)) (i : ℕ)
    → get_instance base t ≡ some i
    → (m : Mbox) × (get_elem? t i ≡ some (some m)) × (m.mmio_pa ≡ base)
unfolding get_instance
get_instance-found base [] i e = absurd (ground arith)
get_instance-found base (o ∷ t) zero e = found_here o e
  where
    found_here :
        (s : Option Mbox)
        → (if holds base s then some 0 else Option.map suc (get_instance base t)) ≡ some 0
        → (m : Mbox) × (some s ≡ some (some m)) × (m.mmio_pa ≡ base)
    found_here none q = absurd (ground arith)
    found_here (some m) q = (m, refl, ground arith)
get_instance-found base (o ∷ t) (suc i) e = get_instance-found base t i (found_later o e)
  where
    found_later :
        (s : Option Mbox)
        → (if holds base s then some 0 else Option.map suc (get_instance base t)) ≡ some (suc i)
        → get_instance base t ≡ some i
    found_later s q = ground arith

-- Writing an instance for the same address over an instance keeps what a search finds.
pub get_instance-set :
    (base : ℕ) (t : List (Option Mbox)) (i : ℕ) (m m' : Mbox)
    → get_elem? t i ≡ some (some m)
    → m'.mmio_pa ≡ m.mmio_pa
    → get_instance base (set t i (some m')) ≡ get_instance base t
unfolding get_instance
get_instance-set base [] i m m' e p = refl
get_instance-set base (o ∷ t) zero m m' e p = ground arith
get_instance-set base (o ∷ t) (suc i) m m' e p = ground (arith, get_instance-set base t i m m' e p)
