-- ===== src/Rpmsg/Tests.antt =====
-- An RPMsg instance on small inputs: the theorems where their hypotheses hold.
use heterogeneous_multicore.Base.{ℕ, ◌+◌, ◌≡◌, refl, Bool, true, false, not, [], ◌∷◌, ◌==◌}
use heterogeneous_multicore.Rpmsg.{World, rpmsg_init}
use heterogeneous_multicore.Rpmsg.Registered.{registers}
use heterogeneous_multicore.Rpmsg.Laws.{Balanced, all_of, rpmsg_init-Balanced}
use heterogeneous_multicore.Rpmsg.Endings.{Left, rpmsg_deinit_leaves}

abbrev started : World
started = record { calls = 0; held = 99 ∷ []; mbox_inits = 0 }

-- The task of the nameservice cannot be made.
abbrev no_task : ℕ → Bool
no_task n = not (n == 5)

abbrev all_succeed : ℕ → Bool
all_succeed n = true

rpmsg_init-Balanced_example :
    let r = rpmsg_init no_task true true started in
    Balanced (all_of no_task) (99 ∷ []) r × (r.1.mbox_inits ≡ 0 + registers no_task true started)
rpmsg_init-Balanced_example = rpmsg_init-Balanced no_task true true started

rpmsg_deinit_leaves_example : Left all_succeed false true started
rpmsg_deinit_leaves_example =
    rpmsg_deinit_leaves all_succeed false true started (refl, (refl, (refl, (refl, (refl, tt)))))
