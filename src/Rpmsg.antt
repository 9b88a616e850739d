-- ===== src/Rpmsg.antt =====
-- libs/rpmsg/rpmsg.c: what the setup and the endpoints of an instance take from the system, and give
-- back when a call fails and at the end.
pub mod Registered
pub mod Laws
pub mod Endings
mod Tests
use heterogeneous_multicore.Base.{
  without, ℕ, ◌+◌, Bool, true, false, List, [], ◌∷◌, ◌++◌, Option, none, some, ◌==◌, if◌then◌else◌,
}

-- How many calls were made that can fail, and what is held: memory, mappings, queues, endpoints and
-- the like, each by the number of the call that gave it. `mbox_inits` counts the calls of
-- rpmsg_mailbox_init, each of which registers the mailbox; what a registration takes, its memory, its
-- mapping and its interrupt, is in Mailbox.Api, and no function of this file undoes it.
pub record World : Type 0 where
  pub calls : ℕ
  pub held : List ℕ
  pub mbox_inits : ℕ

-- A step that goes on with a value, or fails.
abbrev pub M : Type 0 → Type 0
M A = World → Option A × World

infixl 5 ◌>>=◌ ◌>>◌
abbrev pub then_with : {A B : Type 0} → Option A × World → (A → M B) → Option B × World
then_with (none, w) f = (none, w)
then_with (some a, w) f = f a w

abbrev pub ◌>>=◌ : {A B : Type 0} → M A → (A → M B) → M B
◌>>=◌ m f w = then_with (m w) f

abbrev pub ◌>>◌ : {B : Type 0} → M (Unit {0}) → M B → M B
m >> k = m >>= λ _. k

abbrev pub pure : {A : Type 0} → A → M A
pure a w = (some a, w)

-- What is held once some things have been given back, in this order.
abbrev pub without_all : List ℕ → List ℕ → List ℕ
without_all [] held = held
without_all (r ∷ rs) held = without_all rs (without r held)

abbrev pub release_all : List ℕ → World → World
release_all rs w = record w { held = without_all rs w.held }

-- `goto err_…`: where a step fails, what was taken before it is given back.
abbrev pub or_release : {A : Type 0} → Option A × World → List ℕ → Option A × World
or_release (some a, w) rs = (some a, w)
or_release (none, w) rs = (none, release_all rs w)

abbrev pub undoing : {A : Type 0} → M A → List ℕ → M A
undoing m rs w = or_release (m w) rs

-- `struct rpmsg_ept`: its memory, its queue and the endpoint of RPMsg-Lite.
pub record Ept : Type 0 where
  pub ept : ℕ
  pub ept_q : ℕ
  pub rl_ept : ℕ

-- What rpmsg_init_pre has taken: the memory of the instance, and the mappings, the last one first.
pub record Pre : Type 0 where
  pub ri : ℕ
  pub maps : List ℕ

-- What rpmsg_master_init and rpmsg_remote_init have taken; the last three are there for a master only.
pub record Link : Type 0 where
  pub rl_inst : ℕ
  pub master : Option (ℕ × ℕ × ℕ)

pub record Instance : Type 0 where
  pub mode : Bool
  pub pre : Pre
  pub link : Link

-- `grants n` says whether the n-th call succeeds.
module _ (grants : ℕ → Bool) where
  -- A call that takes something, and one that only may fail.
  abbrev pub acquire : M ℕ
  acquire w =
      if grants w.calls
      then (some w.calls, record w { calls = w.calls + 1; held = w.calls ∷ w.held })
      else (none, record w { calls = w.calls + 1 })

  abbrev pub attempt : M (Unit {0})
  attempt w = (if grants w.calls then some tt else none, record w { calls = w.calls + 1 })

  -- rpmsg_ns_announce, by a remote.
  abbrev pub announce : Bool → M (Unit {0})
  announce mode = if mode then pure tt else attempt

  -- The endpoint at err_announce was made a moment ago, so that rpmsg_lite_destroy_ept succeeds.
  unfoldable pub rpmsg_create_ept : Bool → M Ept
  rpmsg_create_ept mode = do
    ept ← acquire
    q ← undoing acquire (ept ∷ [])
    rl ← undoing acquire (q ∷ ept ∷ [])
    undoing (announce mode) (rl ∷ q ∷ ept ∷ [])
    pure (record { ept = ept; ept_q = q; rl_ept = rl })

  abbrev pub release : List ℕ → M (Unit {0})
  release rs w = (some tt, release_all rs w)

  unfoldable pub rpmsg_destroy_ept : Bool → Ept → M (Unit {0})
  rpmsg_destroy_ept mode e = do announce mode; attempt; release (e.rl_ept ∷ e.ept_q ∷ e.ept ∷ [])

  -- Its calls of gen_sw_mbox_init and gen_sw_mbox_register, whose answers nobody looks at.
  abbrev pub rpmsg_mailbox_init : M (Unit {0})
  rpmsg_mailbox_init w = (some tt, record w { mbox_inits = w.mbox_inits + 1 })

  -- rpmsg_init_pre; `use_mbox` is whether RL_USE_GEN_SW_MBOX is defined.
  unfoldable pub rpmsg_init_pre : Bool → M Pre
  rpmsg_init_pre true = do
    ri ← acquire
    shmem ← undoing acquire (ri ∷ [])
    buf ← undoing acquire (shmem ∷ ri ∷ [])
    rpmsg_mailbox_init
    pure (record { ri = ri; maps = buf ∷ shmem ∷ [] })
  rpmsg_init_pre false = do ri ← acquire; pure (record { ri = ri; maps = [] })

  -- rpmsg_deinit_pre gives these back, and leaves the mailbox registered.
  abbrev pub of_pre : Pre → List ℕ
  of_pre p = p.maps ++ p.ri ∷ []

  unfoldable pub rpmsg_master_init : M Link
  rpmsg_master_init = do
    inst ← acquire
    mq ← undoing acquire (inst ∷ [])
    task ← undoing acquire (mq ∷ inst ∷ [])
    ns ← undoing acquire (task ∷ mq ∷ inst ∷ [])
    pure (record { rl_inst = inst; master = some (ns, task, mq) })

  unfoldable pub rpmsg_remote_init : M Link
  rpmsg_remote_init = do inst ← acquire; pure (record { rl_inst = inst; master = none })

  unfoldable pub rpmsg_init : Bool → Bool → M Instance
  rpmsg_init use_mbox mode = do
    pre ← rpmsg_init_pre use_mbox
    link ← undoing (if mode then rpmsg_master_init else rpmsg_remote_init) (of_pre pre)
    pure (record { mode = mode; pre = pre; link = link })

  -- rpmsg_master_deinit and rpmsg_remote_deinit give these back.
  abbrev pub of_link : Link → List ℕ
  of_link l = elim l.master [ none ↦ l.rl_inst ∷ [] | some m ↦ m.0 ∷ l.rl_inst ∷ [] ]

  unfoldable pub rpmsg_deinit : Instance → World → World
  rpmsg_deinit i w = release_all (of_link i.link ++ of_pre i.pre) w
