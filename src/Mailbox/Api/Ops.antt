-- ===== src/Mailbox/Api/Ops.antt =====
-- The calls of the mailbox API as values, to speak of sequences of them, and how each may end.
use heterogeneous_multicore.Base.{
  ℕ, ◌≡◌, ◌≢◌, Bool, true, false, not, ◌&&◌, Option, none, some, arith, ◌==◌, ltb, is_some, ◌⊎◌,
}
use heterogeneous_multicore.Base.Int.{ℤ, pos, negsuc, ◌≤ℤ◌}
use heterogeneous_multicore.Mailbox.State.{
  Mmio, Mbox, Driver, Out, M, ret, blocked, asserted, ◌>>=◌, max_ch,
}
use heterogeneous_multicore.Mailbox.Api.{
  wait, spinning, sendmsg, register_chan_callback, unregister_chan_callback, register, unregister,
  Os,
}
use heterogeneous_multicore.Mailbox.Api.Calls.{IsIdle, At}

-- The calls of the API, with what the system answers.
pub data Op : Type 0 where
  send : ℕ → (Mmio → Mmio) → ℕ → ℕ → ℕ → Bool → Op
  attach : ℕ → ℕ → Option ℕ → ℕ → Op
  detach : ℕ → ℕ → Op
  add : Os → ℕ → ℕ → ℕ → ℕ → Op
  remove : ℕ → Op

abbrev pub step : Op → M ℤ
step (send fuel other base ch msg block) = sendmsg fuel other base ch msg block
step (attach base ch cb cookie) = register_chan_callback base ch cb cookie
step (detach base ch) = unregister_chan_callback base ch
step (add os base irq remote prio) = register os base irq remote prio
step (remove base) = unregister base

-- The arguments that pass the assertions of the call.
abbrev pub is_legal : Op → Bool
is_legal (send fuel other base ch msg block) = ltb ch max_ch
is_legal (attach base ch cb cookie) = ltb ch max_ch && is_some cb
is_legal (detach base ch) = ltb ch max_ch
is_legal (add os base irq remote prio) = not (base == 0)
is_legal (remove base) = not (base == 0)

pub and_left : (a b : Bool) → (a && b) ≡ true → a ≡ true
and_left a b h = ground arith

pub and_right : (a b : Bool) → (a && b) ≡ true → b ≡ true
and_right a b h = ground arith

pub nonzero : (base : ℕ) → not (base == 0) ≡ true → base ≢ 0
nonzero base h = ground arith

pub removable : (n : ℤ) → (pos 1 ≤ℤ n) ⊎ (n ≤ℤ pos 0)
removable n = omega arith

-- With the global semaphore taken, no legal call comes back.
pub step-taken : (op : Op) (d : Driver) → d.sem ≡ 0 → is_legal op ≡ true → step op d ≡ blocked
unfolding sendmsg register_chan_callback unregister_chan_callback register unregister
step-taken (send fuel other base ch msg block) d e legal = rw (◌>>=◌, legal, e)
step-taken (attach base ch (some cb) cookie) d e legal =
    rw (◌>>=◌, and_left (ltb ch max_ch) true legal, e)
step-taken (attach base ch none cookie) d e legal = cc (and_right (ltb ch max_ch) false legal)
step-taken (detach base ch) d e legal = rw (◌>>=◌, legal, e)
step-taken (add os base irq remote prio) d e legal = rw (◌>>=◌, legal, e)
step-taken (remove base) d e legal = rw (◌>>=◌, legal, e)

-- A send that waits for the channel through all of its fuel.
abbrev pub Spins : Op → Driver → Type 0
Spins (send fuel other base ch msg block) d =
    (i : ℕ) × (m : Mbox) × At base i m d × (wait fuel block ch other m.mmio ≡ spinning)
Spins (attach _ _ _ _) d = ⊥
Spins (detach _ _) d = ⊥
Spins (add _ _ _ _ _) d = ⊥
Spins (remove _) d = ⊥

-- A removal that is refused because references are left.
abbrev pub Refused : Op → Driver → ℤ → Driver → Type 0
Refused (remove base) d v d' =
    (i : ℕ) × (m : Mbox) × At base i m d × (pos 1 ≤ℤ m.ref_cnt) × (v ≡ negsuc 0) × (d'.sem ≡ 0)
Refused (send _ _ _ _ _ _) d v d' = ⊥
Refused (attach _ _ _ _) d v d' = ⊥
Refused (detach _ _) d v d' = ⊥
Refused (add _ _ _ _ _) d v d' = ⊥

-- How a call that began at d may end.
abbrev pub Ends : Op → Driver → Out ℤ → Type 0
Ends op d (ret v d') = IsIdle d' ⊎ Refused op d v d'
Ends op d blocked = Spins op d
Ends op d asserted = is_legal op ≡ false
