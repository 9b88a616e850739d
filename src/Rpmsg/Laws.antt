-- ===== src/Rpmsg/Laws.antt =====
-- What an instance and its endpoints hold, after a failure, while they live, and at their end.
use heterogeneous_multicore.Base.{
  ℕ, ◌+◌, ◌≡◌, refl, sym, ap, ◌∙◌, Bool, true, false, List, [], ◌∷◌, ◌++◌, Option, none, some,
  ==_refl, if◌then◌else◌, append_assoc, Bool-cases, inl, inr,
}
use heterogeneous_multicore.Rpmsg.{
  World, M, then_with, without_all, or_release, undoing, Ept, Link, Instance, acquire, announce,
  rpmsg_create_ept, rpmsg_init_pre, of_pre, rpmsg_master_init, rpmsg_remote_init, rpmsg_init,
}
use heterogeneous_multicore.Rpmsg.Registered.{
  registers, then-Kept, or_release-Kept, link-Kept, pre-Kept, count-Kept,
}

-- A step that began with w holds, if it failed, what was held before, and else what its value names
-- as well.
abbrev pub Balanced : {A : Type 0} → (A → List ℕ) → List ℕ → Option A × World → Type 0
Balanced names held (none, w') = w'.held ≡ held
Balanced names held (some a, w') = w'.held ≡ names a ++ held

pub without_all-append : (rs held : List ℕ) → without_all rs (rs ++ held) ≡ held
without_all-append [] held = refl
without_all-append (r ∷ rs) held = rw (==_refl r) (without_all-append rs held)

or_release-Balanced :
    {A : Type 0} (names all : A → List ℕ) (rs held : List ℕ) (r : Option A × World)
    → ((a : A) → all a ≡ names a ++ rs)
    → Balanced names (rs ++ held) r
    → Balanced all held (or_release r rs)
or_release-Balanced names all rs held (none, w) e b =
    ap (without_all rs) b ∙ without_all-append rs held
or_release-Balanced names all rs held (some a, w) e b =
    b ∙ sym (append_assoc (names a) rs held) ∙ ap (λ xs. xs ++ held) (sym (e a))

then-Balanced :
    {A B : Type 0} (names : A → List ℕ) (all : B → List ℕ) (held : List ℕ) (r : Option A × World)
    (f : A → M B)
    → Balanced names held r
    → ((a : A) (w : World) → w.held ≡ names a ++ held → Balanced all held (f a w))
    → Balanced all held (then_with r f)
then-Balanced names all held (none, w) f b k = b
then-Balanced names all held (some a, w) f b k = k a w b

module _ (grants : ℕ → Bool) where
  acquire-Balanced :
      (w : World) (held : List ℕ) → w.held ≡ held → Balanced (λ a. a ∷ []) held (acquire grants w)
  acquire-Balanced w held e = elim (Bool-cases (grants w.calls)) [
    | inl g ↦ rw g (ap (λ xs. w.calls ∷ xs) e)
    | inr g ↦ rw g e
  ]

  announce-Balanced :
      (mode : Bool) (w : World) (held : List ℕ)
      → w.held ≡ held
      → Balanced (λ (u : Unit {0}). []) held (announce grants mode w)
  announce-Balanced true w held e = e
  announce-Balanced false w held e = elim (Bool-cases (grants w.calls)) [
    | inl g ↦ rw g e
    | inr g ↦ rw g e
  ]

  -- An acquisition after others.
  more-Balanced :
      (rs held : List ℕ) (w : World)
      → w.held ≡ rs ++ held
      → Balanced (λ a. a ∷ rs) held (undoing (acquire grants) rs w)
  more-Balanced rs held w e =
      or_release-Balanced (λ a. a ∷ []) (λ a. a ∷ rs) rs held (acquire grants w) (λ a. refl)
        (acquire-Balanced w (rs ++ held) e)

  abbrev pub of_ept : Ept → List ℕ
  of_ept e = e.rl_ept ∷ e.ept_q ∷ e.ept ∷ []

  -- Whether it is made or not: an endpoint that is made holds its memory, its queue and the endpoint
  -- below it; at whatever call the making fails, nothing more is held than before.
  pub rpmsg_create_ept-Balanced :
      (mode : Bool) (w : World) → Balanced of_ept w.held (rpmsg_create_ept grants mode w)
  unfolding rpmsg_create_ept
  rpmsg_create_ept-Balanced mode w =
      then-Balanced (λ a. a ∷ []) of_ept w.held (acquire grants w) _
        (acquire-Balanced w w.held refl)
        λ ept w1 e1.
          then-Balanced (λ q. q ∷ ept ∷ []) of_ept w.held _ _
            (more-Balanced (ept ∷ []) w.held w1 e1)
            λ q w2 e2.
              then-Balanced (λ rl. rl ∷ q ∷ ept ∷ []) of_ept w.held _ _
                (more-Balanced (q ∷ ept ∷ []) w.held w2 e2)
                λ rl w3 e3.
                  then-Balanced (λ (u : Unit {0}). rl ∷ q ∷ ept ∷ []) of_ept w.held _ _
                    (or_release-Balanced (λ (u : Unit {0}). []) (λ u. rl ∷ q ∷ ept ∷ [])
                      (rl ∷ q ∷ ept ∷ []) w.held (announce grants mode w3) (λ u. refl)
                      (announce-Balanced mode w3 _ e3))
                    λ u w4 e4. e4

  rpmsg_init_pre-Balanced :
      (use_mbox : Bool) (w : World)
      → Balanced (of_pre grants) w.held (rpmsg_init_pre grants use_mbox w)
  unfolding rpmsg_init_pre
  rpmsg_init_pre-Balanced true w =
      then-Balanced (λ a. a ∷ []) (of_pre grants) w.held (acquire grants w) _
        (acquire-Balanced w w.held refl)
        λ ri w1 e1.
          then-Balanced (λ shmem. shmem ∷ ri ∷ []) (of_pre grants) w.held _ _
            (more-Balanced (ri ∷ []) w.held w1 e1)
            λ shmem w2 e2.
              then-Balanced (λ buf. buf ∷ shmem ∷ ri ∷ []) (of_pre grants) w.held _ _
                (more-Balanced (shmem ∷ ri ∷ []) w.held w2 e2) λ buf w3 e3. e3
  rpmsg_init_pre-Balanced false w =
      then-Balanced (λ a. a ∷ []) (of_pre grants) w.held (acquire grants w) _
        (acquire-Balanced w w.held refl) λ ri w1 e1. e1

  -- All that the second half of a setup has taken.
  abbrev pub all_of_link : Link → List ℕ
  all_of_link l = elim l.master [
    | none ↦ l.rl_inst ∷ []
    | some m ↦ m.0 ∷ m.1 ∷ m.2 ∷ l.rl_inst ∷ []
  ]

  rpmsg_master_init-Balanced :
      (w : World) (held : List ℕ)
      → w.held ≡ held
      → Balanced all_of_link held (rpmsg_master_init grants w)
  unfolding rpmsg_master_init
  rpmsg_master_init-Balanced w held e =
      then-Balanced (λ a. a ∷ []) all_of_link held (acquire grants w) _ (acquire-Balanced w held e)
        λ inst w1 e1.
          then-Balanced (λ mq. mq ∷ inst ∷ []) all_of_link held _ _
            (more-Balanced (inst ∷ []) held w1 e1)
            λ mq w2 e2.
              then-Balanced (λ task. task ∷ mq ∷ inst ∷ []) all_of_link held _ _
                (more-Balanced (mq ∷ inst ∷ []) held w2 e2)
                λ task w3 e3.
                  then-Balanced (λ ns. ns ∷ task ∷ mq ∷ inst ∷ []) all_of_link held _ _
                    (more-Balanced (task ∷ mq ∷ inst ∷ []) held w3 e3) λ ns w4 e4. e4

  link-Balanced :
      (mode : Bool) (w : World) (held : List ℕ)
      → w.held ≡ held
      → Balanced all_of_link held
          ((if mode then rpmsg_master_init grants else rpmsg_remote_init grants) w)
  unfolding rpmsg_remote_init
  link-Balanced true w held e = rpmsg_master_init-Balanced w held e
  link-Balanced false w held e =
      then-Balanced (λ a. a ∷ []) all_of_link held (acquire grants w) _ (acquire-Balanced w held e)
        λ inst w1 e1. e1

  abbrev pub all_of : Instance → List ℕ
  all_of i = all_of_link i.link ++ of_pre grants i.pre

  held-rpmsg_init :
      (use_mbox mode : Bool) (w : World)
      → Balanced all_of w.held (rpmsg_init grants use_mbox mode w)
  unfolding rpmsg_init
  held-rpmsg_init use_mbox mode w =
      then-Balanced (of_pre grants) all_of w.held (rpmsg_init_pre grants use_mbox w) _
        (rpmsg_init_pre-Balanced use_mbox w)
        λ pre w1 e1.
          then-Balanced (λ l. all_of_link l ++ of_pre grants pre) all_of w.held _ _
            (or_release-Balanced all_of_link (λ l. all_of_link l ++ of_pre grants pre)
              (of_pre grants pre) w.held _ (λ l. refl) (link-Balanced mode w1 _ e1))
            λ link w2 e2. e2

  -- As a master or a remote, with the mailbox or without. An instance that is set up holds its memory,
  -- its mappings and what the second half of the setup has taken; at whatever call the setup fails,
  -- nothing more of these is held than before. The mailbox is another matter: where it is used,
  -- rpmsg_mailbox_init is called, once, if the memory and the two mappings are there, and nothing
  -- undoes that call, whether the setup then fails or not.
  pub rpmsg_init-Balanced :
      (use_mbox mode : Bool) (w : World)
      → let r = rpmsg_init grants use_mbox mode w in
        Balanced all_of w.held r × (r.1.mbox_inits ≡ w.mbox_inits + registers grants use_mbox w)
  unfolding rpmsg_init
  rpmsg_init-Balanced use_mbox mode w =
      let n = w.mbox_inits + registers grants use_mbox w in
      (
        held-rpmsg_init use_mbox mode w,
        count-Kept n (rpmsg_init grants use_mbox mode w) (
            then-Kept n (rpmsg_init_pre grants use_mbox w) _ (pre-Kept grants use_mbox w)
              λ pre w1 e1.
                then-Kept n _ _
                  (or_release-Kept n _ (of_pre grants pre) (link-Kept grants n mode w1 e1))
                  λ link w2 e2. e2),
      )
