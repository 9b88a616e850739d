-- ===== src/Rpmsg/Endings.antt =====
-- What is given back when an endpoint or an instance ends.
use heterogeneous_multicore.Base.{
  ℕ, zero, suc, ◌+◌, ◌≡◌, refl, ap, subst, ◌∙◌, Bool, true, false, List, [], ◌∷◌, ◌++◌, Option,
  none, some, ==_refl, ==-ne, ◌≢◌, if◌then◌else◌, arith, Bool-cases, inl, inr,
}
use heterogeneous_multicore.Ptp.Sockets.Laws.{Granted}
use heterogeneous_multicore.Rpmsg.{
  World, then_with, without_all, undoing, Ept, Pre, Link, Instance, acquire, rpmsg_create_ept,
  rpmsg_destroy_ept, rpmsg_init_pre, of_pre, rpmsg_master_init, rpmsg_remote_init, rpmsg_init,
  rpmsg_deinit,
}
use heterogeneous_multicore.Rpmsg.Laws.{
  Balanced, of_ept, rpmsg_create_ept-Balanced, without_all-append,
}

-- What is held after an end that failed, and after one that did not.
abbrev pub Ends : List ℕ → List ℕ → Option (Unit {0}) × World → Type 0
Ends kept gone (none, w) = w.held ≡ kept
Ends kept gone (some u, w) = w.held ≡ gone

module _ (grants : ℕ → Bool) where
  rpmsg_destroy_ept-Ends :
      (mode : Bool) (e : Ept) (w : World)
      → Ends w.held (without_all (of_ept grants e) w.held) (rpmsg_destroy_ept grants mode e w)
  unfolding rpmsg_destroy_ept
  rpmsg_destroy_ept-Ends true e w = elim (Bool-cases (grants w.calls)) [
    | inl g ↦ rw g refl
    | inr g ↦ rw g refl
  ]
  rpmsg_destroy_ept-Ends false e w = elim (Bool-cases (grants w.calls)) [
    | inr g ↦ rw g refl
    | inl g ↦ elim (Bool-cases (grants (w.calls + 1))) [
      | inl h ↦ rw (g, h) refl
      | inr h ↦ rw (g, h) refl
    ]
  ]

  -- An endpoint that was made and is destroyed at once gives back all that it had taken; where the
  -- destruction fails, it keeps all of it.
  pub rpmsg_destroy_ept-create :
      (mode : Bool) (w w' : World) (e : Ept)
      → rpmsg_create_ept grants mode w ≡ (some e, w')
      → Ends w'.held w.held (rpmsg_destroy_ept grants mode e w')
  rpmsg_destroy_ept-create mode w w' e made =
      let b =
        subst (Balanced (of_ept grants) w.held) made (rpmsg_create_ept-Balanced grants mode w) in
      let all : without_all (of_ept grants e) w'.held ≡ w.held =
        ap (without_all (of_ept grants e)) b ∙ without_all-append (of_ept grants e) w.held in
      subst (λ gone. Ends w'.held gone (rpmsg_destroy_ept grants mode e w')) all
        (rpmsg_destroy_ept-Ends mode e w')

-- Two things stay while others, none of which is one of them, are given back from behind them.
abbrev AllOther : ℕ → ℕ → List ℕ → Type 0
AllOther a b [] = Unit
AllOther a b (r ∷ rs) = (a ≢ r) × (b ≢ r) × AllOther a b rs

release_past :
    (a b : ℕ) (rs held : List ℕ)
    → AllOther a b rs
    → without_all rs (a ∷ b ∷ rs ++ held) ≡ a ∷ b ∷ held
release_past a b [] held o = refl
release_past a b (r ∷ rs) held (x, y, o) =
    rw (==-ne a r x, ==-ne b r y, ==_refl r) (release_past a b rs held o)

at_head : (r : ℕ) (rs held : List ℕ) → without_all (r ∷ rs) (r ∷ held) ≡ without_all rs held
at_head r rs held = rw (==_refl r) refl

-- How many calls a setup makes.
abbrev pub calls_of : Bool → Bool → ℕ
calls_of use_mbox mode = (if use_mbox then 3 else 1) + (if mode then 4 else 1)

-- What nobody gives back: the task and the queue of the nameservice.
abbrev pub left : Link → List ℕ
left l = elim l.master [ none ↦ [] | some m ↦ m.1 ∷ m.2 ∷ [] ]

module _ (grants : ℕ → Bool) where
  abbrev pub Left : Bool → Bool → World → Type 0
  Left use_mbox mode w =
      (i : Instance) × (w' : World) × (rpmsg_init grants use_mbox mode w ≡ (some i, w'))
      × ((rpmsg_deinit grants i w').held ≡ left i.link ++ w.held)
      × ((rpmsg_deinit grants i w').mbox_inits ≡ w.mbox_inits + (if use_mbox then 1 else 0))

  got :
      {B : Type 0} (w : World) (f : ℕ → World → Option B × World)
      → grants w.calls ≡ true
      → then_with (acquire grants w) f
        ≡ f w.calls (record w { calls = w.calls + 1; held = w.calls ∷ w.held })
  got w f g = rw g refl

  got_more :
      {B : Type 0} (rs : List ℕ) (w : World) (f : ℕ → World → Option B × World)
      → grants w.calls ≡ true
      → then_with (undoing (acquire grants) rs w) f
        ≡ f w.calls (record w { calls = w.calls + 1; held = w.calls ∷ w.held })
  got_more rs w f g = rw g refl

  -- The state after n calls that each gave something.
  abbrev taken : ℕ → World → World
  taken zero w = w
  taken (suc n) w = taken n (record w { calls = w.calls + 1; held = w.calls ∷ w.held })

  -- With one more registration of the mailbox.
  abbrev registered : World → World
  registered w = record w { mbox_inits = w.mbox_inits + 1 }

  pre_done :
      (w : World)
      → Granted grants w.calls 3
      → rpmsg_init_pre grants true w ≡ (
        some (record { ri = w.calls; maps = (w.calls + 1 + 1) ∷ (w.calls + 1) ∷ [] }),
        registered (taken 3 w),
      )
  unfolding rpmsg_init_pre
  pre_done w (g0, (g1, (g2, x))) =
      got w _ g0
      ∙ got_more (w.calls ∷ []) (taken 1 w) _ g1
      ∙ got_more ((w.calls + 1) ∷ w.calls ∷ []) (taken 2 w) _ g2

  plain_pre_done :
      (w : World)
      → Granted grants w.calls 1
      → rpmsg_init_pre grants false w ≡ (some (record { ri = w.calls; maps = [] }), taken 1 w)
  unfolding rpmsg_init_pre
  plain_pre_done w (g0, x) = got w _ g0

  master_done :
      (w : World)
      → Granted grants w.calls 4
      → let inst = w.calls in
        rpmsg_master_init grants w ≡ (
          some
              (record { rl_inst = inst; master = some (inst + 1 + 1 + 1, inst + 1 + 1, inst + 1) }),
          taken 4 w,
        )
  unfolding rpmsg_master_init
  master_done w (g0, (g1, (g2, (g3, x)))) =
      let inst = w.calls in
      got w _ g0
      ∙ got_more (inst ∷ []) (taken 1 w) _ g1
      ∙ got_more ((inst + 1) ∷ inst ∷ []) (taken 2 w) _ g2
      ∙ got_more ((inst + 1 + 1) ∷ (inst + 1) ∷ inst ∷ []) (taken 3 w) _ g3

  remote_done :
      (w : World)
      → Granted grants w.calls 1
      → rpmsg_remote_init grants w ≡ (some (record { rl_inst = w.calls; master = none }), taken 1 w)
  unfolding rpmsg_remote_init
  remote_done w (g0, x) = got w _ g0

  init_done :
      (use_mbox mode : Bool) (w w1 w2 : World) (pre : Pre) (link : Link)
      → rpmsg_init_pre grants use_mbox w ≡ (some pre, w1)
      → (if mode then rpmsg_master_init grants else rpmsg_remote_init grants) w1 ≡ (some link, w2)
      → rpmsg_init grants use_mbox mode w
        ≡ (some (record { mode = mode; pre = pre; link = link }), w2)
  unfolding rpmsg_init
  init_done use_mbox mode w w1 w2 pre link e f = rw (e, f) refl

  -- An instance, when it ends, with what is then held.
  master_ends :
      (pre : Pre) (inst mq task ns calls mbox_inits : ℕ) (held : List ℕ)
      → AllOther task mq (inst ∷ of_pre grants pre)
      → let link : Link = record { rl_inst = inst; master = some (ns, task, mq) } in
        let i : Instance = record { mode = true; pre = pre; link = link } in
        (rpmsg_deinit grants i (record {
          calls = calls;
          held = ns ∷ task ∷ mq ∷ inst ∷ of_pre grants pre ++ held;
          mbox_inits = mbox_inits;
        })).held
        ≡ task ∷ mq ∷ held
  unfolding rpmsg_deinit
  master_ends pre inst mq task ns calls mbox_inits held o =
      let rest = inst ∷ of_pre grants pre in
      at_head ns rest (task ∷ mq ∷ rest ++ held) ∙ release_past task mq rest held o

  remote_ends :
      (pre : Pre) (inst calls mbox_inits : ℕ) (held : List ℕ)
      → let link : Link = record { rl_inst = inst; master = none } in
        let i : Instance = record { mode = false; pre = pre; link = link } in
        (rpmsg_deinit grants i (record {
          calls = calls;
          held = inst ∷ of_pre grants pre ++ held;
          mbox_inits = mbox_inits;
        })).held
        ≡ held
  unfolding rpmsg_deinit
  remote_ends pre inst calls mbox_inits held = without_all-append (inst ∷ of_pre grants pre) held

  kept_end : (i : Instance) (w : World) → (rpmsg_deinit grants i w).mbox_inits ≡ w.mbox_inits
  unfolding rpmsg_deinit
  kept_end i w = refl

  no_more : (w : World) → w.mbox_inits ≡ w.mbox_inits + 0
  no_more w = omega arith

  -- A setup whose calls all succeed, and then the end of the instance: of a master the task and the
  -- message queue of the nameservice are still there, and all else is given back, as is all of a
  -- remote's, but for the mailbox: where it is used, the setup calls rpmsg_mailbox_init once, which
  -- registers it, and nothing at the end undoes that.
  pub rpmsg_deinit_leaves :
      (use_mbox mode : Bool) (w : World)
      → Granted grants w.calls (calls_of use_mbox mode)
      → Left use_mbox mode w
  rpmsg_deinit_leaves true true w (g0, (g1, (g2, more))) =
      let inst = w.calls + 1 + 1 + 1 in
      let done =
        init_done true true w (registered (taken 3 w)) (taken 4 (registered (taken 3 w))) _ _
          (pre_done w (g0, (g1, (g2, tt)))) (master_done (registered (taken 3 w)) more) in
      (
        _,
        _,
        done,
        master_ends _ inst (inst + 1) (inst + 1 + 1) (inst + 1 + 1 + 1) _ _ w.held (
          omega arith,
          omega arith,
          (omega arith, omega arith, (omega arith, omega arith, (omega arith, omega arith, tt))),
        ),
        kept_end _ _,
      )
  rpmsg_deinit_leaves true false w (g0, (g1, (g2, more))) =
      let done =
        init_done true false w (registered (taken 3 w)) (taken 1 (registered (taken 3 w))) _ _
          (pre_done w (g0, (g1, (g2, tt)))) (remote_done (registered (taken 3 w)) more) in
      (_, _, done, remote_ends _ (w.calls + 1 + 1 + 1) _ _ w.held, kept_end _ _)
  rpmsg_deinit_leaves false true w (g0, more) =
      let inst = w.calls + 1 in
      let done =
        init_done false true w (taken 1 w) (taken 5 w) _ _ (plain_pre_done w (g0, tt))
          (master_done (taken 1 w) more) in
      (
        _,
        _,
        done,
        master_ends _ inst (inst + 1) (inst + 1 + 1) (inst + 1 + 1 + 1) _ _ w.held
            (omega arith, omega arith, (omega arith, omega arith, tt)),
        kept_end _ _ ∙ no_more w,
      )
  rpmsg_deinit_leaves false false w (g0, more) =
      let done =
        init_done false false w (taken 1 w) (taken 2 w) _ _ (plain_pre_done w (g0, tt))
          (remote_done (taken 1 w) more) in
      (_, _, done, remote_ends _ (w.calls + 1) _ _ w.held, kept_end _ _ ∙ no_more w)
