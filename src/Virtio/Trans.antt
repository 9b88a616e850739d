-- ===== src/Virtio/Trans.antt =====
-- The transfer test device: virtio/devices/trans.c.
pub mod Laws
pub mod Memcpy
pub mod Tasks
mod Tests
use heterogeneous_multicore.Base.{
  ℕ, zero, suc, ◌+◌, ◌-◌, ◌*◌, ◌/◌, ◌%◌, ◌^◌, Bool, true, false, not, ◌&&◌, List, [], ◌∷◌, ◌++◌,
  ◌==◌, leb, ltb, if◌then◌else◌, test_bit, update,
}
use heterogeneous_multicore.Virtio.Ring.{Vring, Virtqueue}
use heterogeneous_multicore.Virtio.Device.{Ops}

-- `struct virtio_trans_config`
pub record TransConfig : Type 0 where
  pub status : ℕ
  pub config : ℕ
  pub control : ℕ
  pub pkt_size : ℕ
  pub tx_count : ℕ
  pub rx_count : ℕ
  pub regression : ℕ

-- `struct trans_dev` with the counts of its two semaphores and the tasks that were woken.
pub record TransDev : Type 0 where
  pub vqs : ℕ → Virtqueue
  pub config : TransConfig
  pub rx_running : Bool
  pub tx_running : Bool
  pub front_poll_mode : Bool
  pub back_poll_mode : Bool
  pub do_buf_copy : Bool
  pub recv_packet_sig : ℕ
  pub send_packet_sig : ℕ
  pub woken : List ℕ

abbrev pub num_queues : ℕ
num_queues = 2

abbrev pub queue_size : ℕ
queue_size = 1024

abbrev pub event_idx_bit : ℕ
event_idx_bit = 29

unfoldable pub set_config : TransDev → TransDev
set_config tdev = record tdev {
  config = record {
    status = 0;
    config = 0;
    control = 0;
    pkt_size = 64;
    tx_count = 0;
    rx_count = 0;
    regression = 0;
  };
}

-- virtio_init_device_vq
abbrev pub virtio_init_device_vq : ℕ → Virtqueue → Virtqueue
virtio_init_device_vq drv_features vq = record vq {
  use_event_idx = test_bit drv_features event_idx_bit;
  enabled = true;
}

-- `ring_at num p align` is the ring of that size and alignment that lies in the memory at p.
module _ (ring_at : ℕ → ℕ → ℕ → Vring) where
  unfoldable pub init_vq : ℕ → ℕ → ℕ → ℕ → ℕ → TransDev → TransDev
  init_vq drv_features vq page_size align pfn tdev =
      if leb num_queues vq then tdev else record tdev {
        vqs = update tdev.vqs vq (
            virtio_init_device_vq drv_features (record (tdev.vqs vq) {
              pfn = pfn;
              vring = ring_at queue_size (pfn * page_size) align;
            }));
      }

unfoldable pub notify_vq : ℕ → TransDev → TransDev
notify_vq vq tdev =
    if tdev.back_poll_mode then tdev else record tdev { woken = tdev.woken ++ vq ∷ [] }

-- VT_CONFIG
abbrev pub set_modes : TransDev → TransDev
set_modes tdev = record tdev {
  do_buf_copy = test_bit tdev.config.config 2;
  back_poll_mode = test_bit tdev.config.config 3;
  front_poll_mode = test_bit tdev.config.config 4;
}

-- VT_CONTROL: the front end's sending is the device's receiving.
abbrev pub start_rx : TransDev → TransDev
start_rx tdev =
    if test_bit tdev.config.config 0 && not tdev.rx_running
    then record tdev {
      rx_running = true;
      config = record (tdev.config) { tx_count = 0 };
      recv_packet_sig = tdev.recv_packet_sig + 1;
    }
    else tdev

abbrev pub start_tx : TransDev → TransDev
start_tx tdev =
    if test_bit tdev.config.config 1 && not tdev.tx_running
    then record tdev {
      tx_running = true;
      config = record (tdev.config) { rx_count = 0 };
      send_packet_sig = tdev.send_packet_sig + 1;
    }
    else tdev

abbrev pub stop_rx : TransDev → TransDev
stop_rx tdev =
    if test_bit tdev.config.config 0 && tdev.rx_running
    then record tdev { rx_running = false }
    else tdev

abbrev pub stop_tx : TransDev → TransDev
stop_tx tdev =
    if test_bit tdev.config.config 1 && tdev.tx_running
    then record tdev { tx_running = false }
    else tdev

abbrev pub set_control : TransDev → TransDev
set_control tdev =
    if test_bit tdev.config.control 0 then start_tx (start_rx tdev) else stop_tx (stop_rx tdev)

unfoldable pub dev_cfg_accessor : ℕ → ℕ → TransDev → TransDev
dev_cfg_accessor addr len tdev =
    if addr == 0x4 then set_modes tdev else if addr == 0x8 then set_control tdev else tdev

-- trans_dev_virtio_ops; exit_vq does nothing and there is no handle_dev_status.
unfoldable pub trans_dev_virtio_ops : (ℕ → ℕ → ℕ → Vring) → Ops TransDev
trans_dev_virtio_ops ring_at = record {
  init_vq = init_vq ring_at;
  exit_vq = λ vq tdev. tdev;
  notify_vq = notify_vq;
  get_vq = λ vq tdev. tdev.vqs vq;
  put_vq = λ vq v tdev. record tdev { vqs = update tdev.vqs vq v };
  get_vq_size = λ vq tdev. queue_size;
  set_vq_size = λ vq size tdev. tdev;
  handle_dev_status = λ status tdev. tdev;
  dev_cfg_accessor = dev_cfg_accessor;
}

-- memcpy of len bytes, in a memory of bytes by address
abbrev pub memcpy : ℕ → ℕ → ℕ → (ℕ → ℕ) → ℕ → ℕ
memcpy dts src len mem a =
    if leb dts a then if ltb a (dts + len) then mem (src + (a - dts)) else mem a else mem a

-- `while (loop--) *d++ = *s++`, a word of four bytes at a time
unfoldable pub copy_words : ℕ → ℕ → ℕ → (ℕ → ℕ) → ℕ → ℕ
copy_words zero d s mem = mem
copy_words (suc loop) d s mem = copy_words loop (d + 4) (s + 4) (memcpy d s 4 mem)

unfoldable pub vt_memcpy : ℕ → ℕ → ℕ → (ℕ → ℕ) → ℕ → ℕ
unfolding copy_words
vt_memcpy dts src len mem =
    if len == 0
    then mem
    else if dts % 4 == src % 4
    then copy_words (len / 4) dts src mem
    else memcpy dts src len mem
