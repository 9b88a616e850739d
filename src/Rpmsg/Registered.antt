-- ===== src/Rpmsg/Registered.antt =====
-- How often the mailbox is registered while an instance is set up.
use heterogeneous_multicore.Base.{
  ℕ, ◌+◌, ◌≡◌, ◌&&◌, arith, Bool, true, false, List, [], ◌∷◌, Option, none, some, if◌then◌else◌,
  Bool-cases, inl, inr,
}
use heterogeneous_multicore.Rpmsg.{
  World, M, then_with, or_release, undoing, acquire, rpmsg_init_pre, rpmsg_master_init,
  rpmsg_remote_init,
}

-- A step after which the mailbox was registered n times in all.
abbrev pub Kept : {A : Type 0} → ℕ → Option A × World → Type 0
Kept n (none, w) = w.mbox_inits ≡ n
Kept n (some a, w) = w.mbox_inits ≡ n

pub count-Kept : {A : Type 0} (n : ℕ) (r : Option A × World) → Kept n r → r.1.mbox_inits ≡ n
count-Kept n (none, w) e = e
count-Kept n (some a, w) e = e

pub then-Kept :
    {A B : Type 0} (n : ℕ) (r : Option A × World) (f : A → M B)
    → Kept n r
    → ((a : A) (w : World) → w.mbox_inits ≡ n → Kept n (f a w))
    → Kept n (then_with r f)
then-Kept n (none, w) f e k = e
then-Kept n (some a, w) f e k = k a w e

pub or_release-Kept :
    {A : Type 0} (n : ℕ) (r : Option A × World) (rs : List ℕ) → Kept n r → Kept n (or_release r rs)
or_release-Kept n (none, w) rs e = e
or_release-Kept n (some a, w) rs e = e

module _ (grants : ℕ → Bool) where
  acquire-Kept : (n : ℕ) (w : World) → w.mbox_inits ≡ n → Kept n (acquire grants w)
  acquire-Kept n w e = elim (Bool-cases (grants w.calls)) [ inl g ↦ rw g e | inr g ↦ rw g e ]

  more-Kept :
      (n : ℕ) (rs : List ℕ) (w : World) → w.mbox_inits ≡ n → Kept n (undoing (acquire grants) rs w)
  more-Kept n rs w e = or_release-Kept n (acquire grants w) rs (acquire-Kept n w e)

  pub link-Kept :
      (n : ℕ) (mode : Bool) (w : World)
      → w.mbox_inits ≡ n
      → Kept n ((if mode then rpmsg_master_init grants else rpmsg_remote_init grants) w)
  unfolding rpmsg_master_init rpmsg_remote_init
  link-Kept n false w e = then-Kept n (acquire grants w) _ (acquire-Kept n w e) λ inst w1 e1. e1
  link-Kept n true w e = then-Kept n (acquire grants w) _ (acquire-Kept n w e) λ inst w1 e1.
      then-Kept n _ _ (more-Kept n (inst ∷ []) w1 e1) λ mq w2 e2.
        then-Kept n _ _ (more-Kept n (mq ∷ inst ∷ []) w2 e2)
          λ task w3 e3. then-Kept n _ _ (more-Kept n (task ∷ mq ∷ inst ∷ []) w3 e3) λ ns w4 e4. e4

  -- How many times rpmsg_init_pre registers the mailbox.
  abbrev pub registers : Bool → World → ℕ
  registers use_mbox w =
      if use_mbox && grants w.calls && grants (w.calls + 1) && grants (w.calls + 1 + 1)
      then 1
      else 0

  pub pre-Kept :
      (use_mbox : Bool) (w : World)
      → Kept (w.mbox_inits + registers use_mbox w) (rpmsg_init_pre grants use_mbox w)
  unfolding rpmsg_init_pre
  pre-Kept false w = elim (Bool-cases (grants w.calls)) [
    | inl g ↦ rw g (omega arith)
    | inr g ↦ rw g (omega arith)
  ]
  pre-Kept true w = elim (Bool-cases (grants w.calls)) [
    | inr g0 ↦ rw g0 (omega arith)
    | inl g0 ↦ elim (Bool-cases (grants (w.calls + 1))) [
      | inr g1 ↦ rw (g0, g1) (omega arith)
      | inl g1 ↦ elim (Bool-cases (grants (w.calls + 1 + 1))) [
        | inr g2 ↦ rw (g0, g1, g2) (omega arith)
        | inl g2 ↦ rw (g0, g1, g2) (omega arith)
      ]
    ]
  ]
