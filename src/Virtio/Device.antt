-- ===== src/Virtio/Device.antt =====
-- The virtio device behind the MMIO transport: virtio/devices/core.c and virtio/devices/mmio.c.
pub mod Queues
pub mod Registers
pub mod Interrupts
use heterogeneous_multicore.Base.{
  ℕ, zero, suc, ◌+◌, ◌-◌, ◌%◌, ◌^◌, Bool, true, false, ◌&&◌, List, [], ◌∷◌, ◌++◌, Option, none,
  some, ◌==◌, ltb, leb, if◌then◌else◌, test_bit,
}
use heterogeneous_multicore.Base.Bits.{and_not, or_bits}
use heterogeneous_multicore.Base.Int.{ℤ, pos, negsuc}
use heterogeneous_multicore.Virtio.Ring.{Desc, UsedElem, Vring, Virtqueue}

-- The registers of `struct virtio_mmio_hdr` that the code reads or writes.
pub record Hdr : Type 0 where
  pub magic : List ℕ
  pub version : ℕ
  pub device_id : ℕ
  pub vendor_id : ℕ
  pub dev_features : ℕ
  pub dev_features_sel : ℕ
  pub drv_features : ℕ
  pub drv_features_sel : ℕ
  pub guest_page_size : ℕ
  pub queue_sel : ℕ
  pub queue_num_max : ℕ
  pub queue_num : ℕ
  pub queue_align : ℕ
  pub queue_pfn : ℕ
  pub queue_notify : ℕ
  pub interrupt_status : ℕ
  pub interrupt_ack : ℕ
  pub status : ℕ
  pub wd_status : ℕ

-- The registers that the front end writes, by their offsets.
pub data Reg : Type 0 where
  mmio_host_features_sel mmio_guest_features mmio_guest_features_sel mmio_guest_page_size : Reg
  mmio_queue_sel mmio_queue_num mmio_queue_align mmio_queue_pfn mmio_queue_notify : Reg
  mmio_interrupt_ack mmio_status no_reg : Reg

abbrev pub reg_of : ℕ → Reg
reg_of addr =
    if addr == 0x014
    then mmio_host_features_sel
    else if addr == 0x020
    then mmio_guest_features
    else if addr == 0x024
    then mmio_guest_features_sel
    else if addr == 0x028
    then mmio_guest_page_size
    else if addr == 0x030
    then mmio_queue_sel
    else if addr == 0x038
    then mmio_queue_num
    else if addr == 0x03c
    then mmio_queue_align
    else if addr == 0x040
    then mmio_queue_pfn
    else if addr == 0x050
    then mmio_queue_notify
    else if addr == 0x064
    then mmio_interrupt_ack
    else if addr == 0x070
    then mmio_status
    else no_reg

-- `struct virtio_ops` of a device whose own state is D. A null pointer for `exit_vq` or
-- `handle_dev_status` is a function that does nothing. `get_vq` and `put_vq` read and write what the
-- pointer of the source's get_vq leads to.
pub record Ops {ℓ} (D : Type ℓ) : Type ℓ where
  pub init_vq : ℕ → ℕ → ℕ → ℕ → ℕ → D → D
  pub exit_vq : ℕ → D → D
  pub notify_vq : ℕ → D → D
  pub get_vq : ℕ → D → Virtqueue
  pub put_vq : ℕ → Virtqueue → D → D
  pub get_vq_size : ℕ → D → ℕ
  pub set_vq_size : ℕ → ℕ → D → D
  pub handle_dev_status : ℕ → D → D
  pub dev_cfg_accessor : ℕ → ℕ → D → D

-- `struct virtio_dev` with its `struct virtio_mmio`. `live` is the bit VIRTIO_STATE_LIVE of `state`,
-- and `kicks` the calls of mbox_kick_front.
pub record VirtioDev {ℓ} (D : Type ℓ) : Type ℓ where
  pub hdr : Hdr
  pub mmio : ℕ
  pub drv_features : ℕ
  pub dev_features_0 : ℕ
  pub dev_features_1 : ℕ
  pub live : Bool
  pub cfg_size : ℕ
  pub vqs : ℕ
  pub devp : D
  pub kicks : List ℕ

-- What memset(vq, 0, sizeof(*vq)) leaves.
abbrev pub no_desc : Desc
no_desc = record { addr = 0; len = 0; flags = 0; next = 0 }

abbrev pub zero_vq : Virtqueue
zero_vq = record {
  vring = record {
    num = 0;
    desc = λ i. no_desc;
    tables = λ a i. no_desc;
    avail_flags = 0;
    avail_idx = 0;
    avail_ring = λ i. 0;
    used_event = 0;
    used_idx = 0;
    used_ring = λ i. record { id = 0; len = 0 };
    avail_event = 0;
  };
  pfn = 0;
  last_avail_idx = 0;
  last_notified_idx = 0;
  use_event_idx = false;
  enabled = false;
}

abbrev pub driver_ok_bit : ℕ
driver_ok_bit = 2

abbrev pub features_size : ℕ
features_size = 2

-- VIRTIO_MMIO_INT_VRING and VIRTIO_MMIO_INT_CONFIG
abbrev pub int_of : Bool → ℕ
int_of is_vring = if is_vring then 1 else 2

module _ {ℓ} {D : Type ℓ} where
  unfoldable pub virtio_mmio_interrupt_front : Bool → VirtioDev D → VirtioDev D
  virtio_mmio_interrupt_front is_vring dev =
      let status = and_not 32 dev.hdr.interrupt_status dev.hdr.interrupt_ack in
      record dev {
        hdr = record (dev.hdr) { interrupt_status = or_bits 32 status (int_of is_vring) };
        kicks = dev.kicks ++ dev.mmio ∷ [];
      }

  abbrev pub features_at : VirtioDev D → ℕ → ℕ
  features_at dev n = if n == 0 then dev.dev_features_0 else dev.dev_features_1

  abbrev pub select_features : VirtioDev D → VirtioDev D
  select_features dev =
      let val = dev.hdr.dev_features_sel in
      if ltb val features_size
      then record dev { hdr = record (dev.hdr) { dev_features = features_at dev val } }
      else record dev {
        hdr = record (dev.hdr) { dev_features_sel = 0; dev_features = dev.dev_features_0 };
      }

  abbrev pub set_features : VirtioDev D → VirtioDev D
  set_features dev =
      if dev.hdr.drv_features_sel == 0
      then record dev { drv_features = dev.hdr.drv_features }
      else dev

  abbrev pub ack : VirtioDev D → VirtioDev D
  ack dev = record dev {
    hdr = record (dev.hdr) {
      interrupt_status = and_not 32 dev.hdr.interrupt_status dev.hdr.interrupt_ack;
    };
  }

module _ {ℓ} {D : Type ℓ} (ops : Ops D) where
  -- virtio_exit_vq, which virtio_mmio_exit_vq calls
  unfoldable pub virtio_exit_vq : ℕ → D → D
  virtio_exit_vq num d =
      let d' = if (ops.get_vq num d).enabled then ops.exit_vq num d else d in
      ops.put_vq num zero_vq d'

  unfoldable pub exit_below : ℕ → D → D
  exit_below zero d = d
  exit_below (suc n) d = virtio_exit_vq n (exit_below n d)

  unfoldable pub virtio_mmio_reset : VirtioDev D → VirtioDev D
  virtio_mmio_reset dev = record dev { devp = exit_below dev.vqs dev.devp }

  unfoldable pub virtio_handle_dev_status : ℕ → VirtioDev D → VirtioDev D
  virtio_handle_dev_status status dev =
      let told = record dev { devp = ops.handle_dev_status status dev.devp } in
      if dev.live
      then if status == 0 then virtio_mmio_reset (record told { live = false }) else told
      else if test_bit status driver_ok_bit
      then record told { live = true }
      else told

  abbrev pub select_queue : VirtioDev D → VirtioDev D
  select_queue dev =
      let val = if leb dev.vqs dev.hdr.queue_sel then 0 else dev.hdr.queue_sel in
      record dev {
        hdr = record (dev.hdr) {
          queue_sel = val;
          queue_pfn = (ops.get_vq val dev.devp).pfn;
          queue_num_max = ops.get_vq_size val dev.devp;
        };
      }

  abbrev pub set_size : VirtioDev D → VirtioDev D
  set_size dev = record dev { devp = ops.set_vq_size dev.hdr.queue_sel dev.hdr.queue_num dev.devp }

  -- init_vq reads the features that the driver has set.
  abbrev pub set_pfn : VirtioDev D → VirtioDev D
  set_pfn dev =
      let h = dev.hdr in
      if h.queue_pfn == 0
      then record dev { devp = virtio_exit_vq h.queue_sel dev.devp }
      else record dev {
        devp =
            ops.init_vq dev.drv_features h.queue_sel h.guest_page_size h.queue_align h.queue_pfn
              dev.devp;
      }

  abbrev pub notify : VirtioDev D → VirtioDev D
  notify dev =
      if leb dev.vqs dev.hdr.queue_notify
      then dev
      else record dev { devp = ops.notify_vq dev.hdr.queue_notify dev.devp }

  unfoldable pub handle_reg : Reg → VirtioDev D → VirtioDev D
  unfolding virtio_handle_dev_status
  handle_reg mmio_host_features_sel dev = select_features dev
  handle_reg mmio_queue_sel dev = select_queue dev
  handle_reg mmio_status dev = virtio_handle_dev_status dev.hdr.status dev
  handle_reg mmio_guest_features dev = set_features dev
  handle_reg mmio_queue_num dev = set_size dev
  handle_reg mmio_queue_pfn dev = set_pfn dev
  handle_reg mmio_queue_notify dev = notify dev
  handle_reg mmio_interrupt_ack dev = ack dev
  handle_reg _ dev = dev

  unfoldable pub virtio_mmio_config_out : ℕ → VirtioDev D → VirtioDev D
  unfolding handle_reg
  virtio_mmio_config_out addr dev = handle_reg (reg_of addr) dev

  unfoldable pub virtio_mmio_device_specific : ℕ → ℕ → VirtioDev D → VirtioDev D
  virtio_mmio_device_specific addr len dev =
      if leb (addr + len) dev.cfg_size
      then record dev { devp = ops.dev_cfg_accessor addr len dev.devp }
      else dev

  abbrev watched : VirtioDev D → VirtioDev D
  watched dev = record dev { hdr = record (dev.hdr) { wd_status = 1 } }

  unfoldable pub virtio_mmio_mmio_callback : ℕ → ℕ → VirtioDev D → VirtioDev D
  virtio_mmio_mmio_callback addr len dev =
      let offset = (addr + 2 ^ 32 - dev.mmio) % 2 ^ 32 in
      if leb 0x100 offset
      then watched (virtio_mmio_device_specific (offset - 0x100) len dev)
      else watched (virtio_mmio_config_out offset dev)

  -- virtio_init and virtio_mmio_init: -1 without memory. The mailbox's calls are not modelled.
  unfoldable pub virtio_init : Bool → ℕ → ℕ → VirtioDev D → ℤ × VirtioDev D
  virtio_init malloc mmio_base subsys_id dev =
      if malloc
      then (
        pos 0,
        record dev {
          mmio = mmio_base % 2 ^ 32;
          hdr = record (dev.hdr) {
            magic = 0x76 ∷ 0x69 ∷ 0x72 ∷ 0x74 ∷ [];
            version = 1;
            device_id = subsys_id;
            vendor_id = 0x1957;
            queue_num_max = ops.get_vq_size 0 dev.devp;
            dev_features = dev.dev_features_0;
          };
        },
      )
      else (negsuc 0, dev)
