-- ===== src/Virtio/Device/Queues.antt =====
-- When a virtio device is live, and what its reset does to the queues.
use heterogeneous_multicore.Base.{
  ℕ, zero, suc, ◌≤◌, ◌<◌, ◌≡◌, ◌≢◌, ◌↔◌, refl, sym, ap, ◌∙◌, Bool, true, false, ◌||◌, ◌⊎◌, List, [],
  ◌∷◌, arith, ◌==◌, ltb, if◌then◌else◌, test_bit, Bool-cases, inl, inr,
}
use heterogeneous_multicore.Virtio.Ring.{Virtqueue}
use heterogeneous_multicore.Virtio.Device.{
  Ops, VirtioDev, zero_vq, driver_ok_bit, virtio_exit_vq, exit_below, virtio_mmio_reset,
  virtio_handle_dev_status,
}

-- What the transport relies on in a device's operations: queues are apart, and stopping one leaves
-- what is in them.
pub record OpsLaws {ℓ} {D : Type ℓ} (ops : Ops D) : Type ℓ where
  pub get-put_same : (n : ℕ) (v : Virtqueue) (d : D) → ops.get_vq n (ops.put_vq n v d) ≡ v
  pub get-put_other :
      (n m : ℕ) (v : Virtqueue) (d : D) → n ≢ m → ops.get_vq m (ops.put_vq n v d) ≡ ops.get_vq m d
  pub get-exit : (n m : ℕ) (d : D) → ops.get_vq m (ops.exit_vq n d) ≡ ops.get_vq m d

-- No 0 is among the statuses.
abbrev pub NoReset : List ℕ → Type 0
NoReset [] = Unit
NoReset (s ∷ ss) = (s ≢ 0) × NoReset ss

-- A status with DRIVER_OK is written, and no 0 after it.
pub data Started : List ℕ → Type 0 where
  here : {s : ℕ} {ss : List ℕ} → test_bit s driver_ok_bit ≡ true → NoReset ss → Started (s ∷ ss)
  there : {s : ℕ} {ss : List ℕ} → Started ss → Started (s ∷ ss)

module _ {ℓ} {D : Type ℓ} (ops : Ops D) where
  -- The driver writes some statuses, one after the other.
  abbrev pub write_statuses : List ℕ → VirtioDev D → VirtioDev D
  write_statuses [] dev = dev
  write_statuses (s ∷ ss) dev = write_statuses ss (virtio_handle_dev_status ops s dev)

  status-live :
      (s : ℕ) (dev : VirtioDev D)
      → (virtio_handle_dev_status ops s dev).live
        ≡ (if s == 0 then false else (test_bit s driver_ok_bit || dev.live))
  unfolding virtio_handle_dev_status virtio_mmio_reset
  status-live s dev = ground arith

  write_statuses-live :
      (ss : List ℕ) (dev : VirtioDev D)
      → dev.live ≡ true
      → NoReset ss
      → (write_statuses ss dev).live ≡ true
  write_statuses-live [] dev e n = e
  write_statuses-live (s ∷ ss) dev e n =
      write_statuses-live ss (virtio_handle_dev_status ops s dev)
        (status-live s dev ∙ ground (arith, n.0)) n.1

  live-Started :
      (ss : List ℕ) (dev : VirtioDev D)
      → (write_statuses ss dev).live ≡ true
      → ((dev.live ≡ true) × NoReset ss) ⊎ Started ss
  live-Started [] dev e = inl (e, tt)
  live-Started (s ∷ ss) dev e = elim (live-Started ss (virtio_handle_dev_status ops s dev) e) [
    | inr st ↦ inr (Started.there st)
    | inl (on, n) ↦ elim (Bool-cases (test_bit s driver_ok_bit)) [
      | inl ok ↦ inr (Started.here ok n)
      | inr unset ↦
          let was = sym (status-live s dev) ∙ on in
          inl (ground (arith, unset, was), ((λ z. ground (arith, z, was)), n))
    ]
  ]

  Started-live :
      (ss : List ℕ) (dev : VirtioDev D) → Started ss → (write_statuses ss dev).live ≡ true
  Started-live [] dev st = elim st [ ]
  Started-live (s ∷ ss) dev (here ok n) =
      write_statuses-live ss (virtio_handle_dev_status ops s dev)
        (status-live s dev ∙ ground (arith, ok, ok_not_0)) n
    where
      ok_not_0 : s ≡ 0 → false ≡ true
      ok_not_0 z = sym (ap (λ x. test_bit x driver_ok_bit) z) ∙ ok
  Started-live (s ∷ ss) dev (there st) = Started-live ss (virtio_handle_dev_status ops s dev) st

  -- A device that is not live is live after some writes of its status just when DRIVER_OK was among
  -- them, and no 0 came after it.
  pub virtio_handle_dev_status-live :
      (ss : List ℕ) (dev : VirtioDev D)
      → dev.live ≡ false
      → ((write_statuses ss dev).live ≡ true) ↔ Started ss
  virtio_handle_dev_status-live ss dev off = (
    (λ on. elim (live-Started ss dev on) [
      | inl (was, n) ↦ absurd (ground (arith, was, off))
      | inr st ↦ st
    ]),
    Started-live ss dev,
  )

module _ {ℓ} {D : Type ℓ} (ops : Ops D) (laws : OpsLaws ops) where
  exit_vq-same : (n : ℕ) (d : D) → ops.get_vq n (virtio_exit_vq ops n d) ≡ zero_vq
  unfolding virtio_exit_vq
  exit_vq-same n d = laws.get-put_same n zero_vq _

  exit_vq-other : (n m : ℕ) (d : D) → n ≢ m → ops.get_vq m (virtio_exit_vq ops n d) ≡ ops.get_vq m d
  unfolding virtio_exit_vq
  exit_vq-other n m d ne = laws.get-put_other n m zero_vq _ ne ∙ stopped (ops.get_vq n d).enabled
    where
      stopped : (b : Bool) → ops.get_vq m (if b then ops.exit_vq n d else d) ≡ ops.get_vq m d
      stopped true = laws.get-exit n m d
      stopped false = refl

  exit_below-all :
      (n m : ℕ) (d : D)
      → ops.get_vq m (exit_below ops n d) ≡ (if ltb m n then zero_vq else ops.get_vq m d)
  unfolding exit_below
  exit_below-all zero m d = ground arith
  exit_below-all (suc n) m d = elim (Bool-cases (n == m)) [
    | inl e ↦ ground (arith, exit_vq-same n (exit_below ops n d))
    | inr e ↦ ground (arith, exit_vq-other n m (exit_below ops n d), exit_below-all n m d)
  ]

  -- A live device whose status is written 0 is no longer live, each of its queues is zero, with no
  -- ring and not enabled, and a queue that it does not have is as its own handler of the status left it.
  pub virtio_handle_dev_status-reset :
      (dev : VirtioDev D)
      → dev.live ≡ true
      → let dev' = virtio_handle_dev_status ops 0 dev in
        (dev'.live ≡ false)
        × ((m : ℕ) → m < dev.vqs → ops.get_vq m dev'.devp ≡ zero_vq)
        × ((m : ℕ)
            → dev.vqs ≤ m
            → ops.get_vq m dev'.devp ≡ ops.get_vq m (ops.handle_dev_status 0 dev.devp))
  unfolding virtio_handle_dev_status virtio_mmio_reset
  virtio_handle_dev_status-reset dev on =
      let d = ops.handle_dev_status 0 dev.devp in
      rw on (
        refl,
        (λ m less. ground (arith, exit_below-all dev.vqs m d)),
        (λ m more. ground (arith, exit_below-all dev.vqs m d)),
      )
