-- ===== src/Virtio/Device/Interrupts.antt =====
-- Which interrupts of the device the front end sees: virtio_mmio_interrupt_front of
-- virtio/devices/mmio.c.
use heterogeneous_multicore.Base.{
  ℕ, ◌≤◌, ◌≡◌, refl, ap, ◌∙◌, Bool, true, false, not, ◌&&◌, ◌||◌, arith, if◌then◌else◌, test_bit,
}
use heterogeneous_multicore.Base.Bits.{and_not, and_not-bit, or_bits-bit}
use heterogeneous_multicore.Virtio.Device.{VirtioDev, int_of, virtio_mmio_interrupt_front}

-- The bit of the status that an interrupt of the queues or of the configuration has.
abbrev pub bit_of : Bool → ℕ
bit_of is_vring = if is_vring then 0 else 1

set_last : (b : Bool) → (b || true) ≡ true
set_last true = refl
set_last false = refl

unset_last : (b : Bool) → (b || false) ≡ b
unset_last true = refl
unset_last false = refl

module _ {ℓ} {D : Type ℓ} (dev : VirtioDev D) where
  -- An interrupt is shown with those that were shown before, except those that the last
  -- acknowledgement names.
  interrupt_front-bit :
      (is_vring : Bool) (k : ℕ)
      → k ≤ 1
      → test_bit (virtio_mmio_interrupt_front is_vring dev).hdr.interrupt_status k ≡ (
          (test_bit dev.hdr.interrupt_status k && not (test_bit dev.hdr.interrupt_ack k))
          || test_bit (int_of is_vring) k)
  unfolding virtio_mmio_interrupt_front
  interrupt_front-bit is_vring k h =
      or_bits-bit 30 (and_not 32 dev.hdr.interrupt_status dev.hdr.interrupt_ack) (int_of is_vring) k
        h
      ∙ ap (λ b. b || test_bit (int_of is_vring) k)
          (and_not-bit 30 dev.hdr.interrupt_status dev.hdr.interrupt_ack k h)

module _ {ℓ} {D : Type ℓ} (dev : VirtioDev D) where
  interrupt_front-ack :
      (is_vring : Bool)
      → (virtio_mmio_interrupt_front is_vring dev).hdr.interrupt_ack ≡ dev.hdr.interrupt_ack
  unfolding virtio_mmio_interrupt_front
  interrupt_front-ack is_vring = refl

  -- Two interrupts in a row, one of the queues and one of the configuration, with no acknowledgement
  -- between them: the second is shown, but the first just when its bit is clear in `interrupt_ack`,
  -- which still holds what was acknowledged before both.
  pub interrupt_front-twice :
      (first_is_vring : Bool)
      → let dev' =
          virtio_mmio_interrupt_front
            (not first_is_vring)
            (virtio_mmio_interrupt_front first_is_vring dev) in
        (test_bit dev'.hdr.interrupt_status (bit_of (not first_is_vring)) ≡ true)
        × (test_bit dev'.hdr.interrupt_status (bit_of first_is_vring)
            ≡ not (test_bit dev.hdr.interrupt_ack (bit_of first_is_vring)))
  interrupt_front-twice true =
      let dev1 = virtio_mmio_interrupt_front true dev in
      (
        interrupt_front-bit dev1 false 1 (omega arith) ∙ set_last _,
        interrupt_front-bit dev1 false 0 (omega arith)
            ∙ rw
                (
                  interrupt_front-ack true,
                  interrupt_front-bit dev true 0 (omega arith),
                  set_last (
                      test_bit dev.hdr.interrupt_status 0
                      && not (test_bit dev.hdr.interrupt_ack 0)),
                )
                (unset_last _),
      )
  interrupt_front-twice false =
      let dev1 = virtio_mmio_interrupt_front false dev in
      (
        interrupt_front-bit dev1 true 0 (omega arith) ∙ set_last _,
        interrupt_front-bit dev1 true 1 (omega arith)
            ∙ rw
                (
                  interrupt_front-ack false,
                  interrupt_front-bit dev false 1 (omega arith),
                  set_last (
                      test_bit dev.hdr.interrupt_status 1
                      && not (test_bit dev.hdr.interrupt_ack 1)),
                )
                (unset_last _),
      )
