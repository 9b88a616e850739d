-- ===== src/Virtio/Trans/Laws.antt =====
-- The transfer device as the transport sees it, and its start and stop.
use heterogeneous_multicore.Base.{ℕ, ◌≡◌, refl, arith, ◌==◌, ==_refl, ==-ne, Bool-cases, inl, inr}
use heterogeneous_multicore.Virtio.Ring.{Vring}
use heterogeneous_multicore.Virtio.Device.Queues.{OpsLaws}
use heterogeneous_multicore.Virtio.Trans.{
  TransDev, set_control, trans_dev_virtio_ops, dev_cfg_accessor,
}

-- The device's operations are those that the transport's reset relies on.
pub trans_dev_virtio_ops-OpsLaws :
    (ring_at : ℕ → ℕ → ℕ → Vring) → OpsLaws (trans_dev_virtio_ops ring_at)
unfolding trans_dev_virtio_ops
trans_dev_virtio_ops-OpsLaws ring_at = record {
  get-put_same = λ n v d. rw (==_refl n) refl;
  get-put_other = λ n m v d ne. rw (==-ne n m ne) refl;
  get-exit = λ n m d. refl;
}

set_control-twice : (tdev : TransDev) → set_control (set_control tdev) ≡ set_control tdev
set_control-twice tdev = ground arith

-- The front end's write of a configuration register, repeated, does nothing the second time: a test
-- that is started again while it runs gives no semaphore a second time and resets no count.
pub dev_cfg_accessor-twice :
    (addr len : ℕ) (tdev : TransDev)
    → dev_cfg_accessor addr len (dev_cfg_accessor addr len tdev) ≡ dev_cfg_accessor addr len tdev
unfolding dev_cfg_accessor
dev_cfg_accessor-twice addr len tdev = elim (Bool-cases (addr == 0x4)) [
  | inl e ↦ rw e refl
  | inr e ↦ elim (Bool-cases (addr == 0x8)) [
    | inl e' ↦ rw (e, e') (set_control-twice tdev)
    | inr e' ↦ rw (e, e') refl
  ]
]
