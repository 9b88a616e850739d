-- ===== src/Virtio/Device/Registers.antt =====
-- What the front end's writes of the registers keep, and which interrupts it sees.
use heterogeneous_multicore.Base.{
  ℕ, ◌<◌, ◌≡◌, refl, sym, ap, ◌∙◌, List, [], ◌∷◌, arith, ◌==◌, if◌then◌else◌,
}
use heterogeneous_multicore.Virtio.Device.{
  Hdr, Reg, mmio_host_features_sel, mmio_guest_features, mmio_guest_features_sel,
  mmio_guest_page_size, mmio_queue_sel, mmio_queue_num, mmio_queue_align, mmio_queue_pfn,
  mmio_queue_notify, mmio_interrupt_ack, mmio_status, no_reg, reg_of, Ops, VirtioDev, features_size,
  features_at, select_features, select_queue, handle_reg, virtio_mmio_reset,
  virtio_handle_dev_status, virtio_mmio_config_out,
}

-- The front end stores a value into a register.
abbrev pub store : Reg → ℕ → Hdr → Hdr
store mmio_host_features_sel v h = record h { dev_features_sel = v }
store mmio_guest_features v h = record h { drv_features = v }
store mmio_guest_features_sel v h = record h { drv_features_sel = v }
store mmio_guest_page_size v h = record h { guest_page_size = v }
store mmio_queue_sel v h = record h { queue_sel = v }
store mmio_queue_num v h = record h { queue_num = v }
store mmio_queue_align v h = record h { queue_align = v }
store mmio_queue_pfn v h = record h { queue_pfn = v }
store mmio_queue_notify v h = record h { queue_notify = v }
store mmio_interrupt_ack v h = record h { interrupt_ack = v }
store mmio_status v h = record h { status = v }
store no_reg v h = h

-- What holds between two writes: the selected queue exists, the selected half of the features exists
-- and is the one that is shown.
pub record RegsOk {ℓ} {D : Type ℓ} (dev : VirtioDev D) : Type 0 where
  pub queue_in_range : dev.hdr.queue_sel < dev.vqs
  pub half_in_range : dev.hdr.dev_features_sel < features_size
  pub half_shown : dev.hdr.dev_features ≡ features_at dev dev.hdr.dev_features_sel

module _ {ℓ} {D : Type ℓ} where
  -- What RegsOk looks at.
  abbrev view : VirtioDev D → ℕ × ℕ × ℕ × ℕ × ℕ × ℕ
  view dev = (
    dev.hdr.queue_sel, dev.vqs, dev.hdr.dev_features_sel, dev.hdr.dev_features, dev.dev_features_0,
    dev.dev_features_1,
  )

  RegsOk-same : (dev dev' : VirtioDev D) → view dev' ≡ view dev → RegsOk dev → RegsOk dev'
  RegsOk-same dev dev' e ok =
      let sel = ap (λ t. t.2) e in
      record {
        queue_in_range = omega (arith, ap (λ t. t.0) e, ap (λ t. t.1) e, ok.queue_in_range);
        half_in_range = omega (arith, sel, ok.half_in_range);
        half_shown =
            ap (λ t. t.3) e ∙ ok.half_shown ∙ sym (ap (λ t. if t.2 == 0 then t.4 else t.5) e);
      }

  select_features-RegsOk :
      (v : ℕ) (dev : VirtioDev D)
      → RegsOk dev
      → RegsOk (select_features (record dev { hdr = store mmio_host_features_sel v dev.hdr }))
  select_features-RegsOk v dev ok = record {
    queue_in_range = ground (arith, ok.queue_in_range);
    half_in_range = ground arith;
    half_shown = ground arith;
  }

module _ {ℓ} {D : Type ℓ} (ops : Ops D) where
  -- The front end writes registers, each write followed by the callback. An offset is that of the
  -- register in the device's memory.
  abbrev pub front_writes : List (ℕ × ℕ) → VirtioDev D → VirtioDev D
  front_writes [] dev = dev
  front_writes ((offset, v) ∷ ws) dev =
      front_writes ws
        (virtio_mmio_config_out ops offset (record dev { hdr = store (reg_of offset) v dev.hdr }))

  status-view : (s : ℕ) (dev : VirtioDev D) → view (virtio_handle_dev_status ops s dev) ≡ view dev
  unfolding virtio_handle_dev_status virtio_mmio_reset
  status-view s dev = ground arith

  select_queue-RegsOk :
      (v : ℕ) (dev : VirtioDev D)
      → RegsOk dev
      → RegsOk (select_queue ops (record dev { hdr = store mmio_queue_sel v dev.hdr }))
  select_queue-RegsOk v dev ok = record {
    queue_in_range = ground (arith, ok.queue_in_range);
    half_in_range = ok.half_in_range;
    half_shown = ok.half_shown;
  }

  handle_reg-RegsOk :
      (reg : Reg) (v : ℕ) (dev : VirtioDev D)
      → RegsOk dev
      → RegsOk (handle_reg ops reg (record dev { hdr = store reg v dev.hdr }))
  unfolding handle_reg
  handle_reg-RegsOk mmio_host_features_sel v dev ok = select_features-RegsOk v dev ok
  handle_reg-RegsOk mmio_queue_sel v dev ok = select_queue-RegsOk v dev ok
  handle_reg-RegsOk mmio_status v dev ok = RegsOk-same dev _ (status-view v _) ok
  handle_reg-RegsOk mmio_guest_features v dev ok = RegsOk-same dev _ (ground arith) ok
  handle_reg-RegsOk mmio_guest_features_sel v dev ok = RegsOk-same dev _ refl ok
  handle_reg-RegsOk mmio_guest_page_size v dev ok = RegsOk-same dev _ refl ok
  handle_reg-RegsOk mmio_queue_num v dev ok = RegsOk-same dev _ refl ok
  handle_reg-RegsOk mmio_queue_align v dev ok = RegsOk-same dev _ refl ok
  handle_reg-RegsOk mmio_queue_pfn v dev ok = RegsOk-same dev _ (ground arith) ok
  handle_reg-RegsOk mmio_queue_notify v dev ok = RegsOk-same dev _ (ground arith) ok
  handle_reg-RegsOk mmio_interrupt_ack v dev ok = RegsOk-same dev _ refl ok
  handle_reg-RegsOk no_reg v dev ok = ok

  -- Whatever registers the front end writes, the selected queue is one of the device's and the
  -- features shown are those of the half that is selected, which exists.
  pub front_writes-RegsOk :
      (ws : List (ℕ × ℕ)) (dev : VirtioDev D) → RegsOk dev → RegsOk (front_writes ws dev)
  unfolding virtio_mmio_config_out
  front_writes-RegsOk [] dev ok = ok
  front_writes-RegsOk ((offset, v) ∷ ws) dev ok =
      front_writes-RegsOk ws
        (virtio_mmio_config_out ops offset (record dev { hdr = store (reg_of offset) v dev.hdr }))
        (handle_reg-RegsOk (reg_of offset) v dev ok)
