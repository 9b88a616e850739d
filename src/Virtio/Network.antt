-- ===== src/Virtio/Network.antt =====
-- The virtio network device of virtio/devices/network.c: its state, and how it tells the front end.
pub mod Laws
pub mod Rx
pub mod Tx
pub mod Ctrl
mod Tests
use heterogeneous_multicore.Base.{
  ℕ, ◌+◌, ◌%◌, ◌^◌, Bool, true, false, ◌&&◌, ◌||◌, not, leb, ◌==◌, if◌then◌else◌, test_bit,
}
use heterogeneous_multicore.Net.Port.{u64_inc}

-- VIRTIO_NET_QUEUE_SIZE, the size of the arrays `iov` of the two tasks
abbrev pub virtio_net_queue_size : ℕ
virtio_net_queue_size = 1024

abbrev pub vnet_coal_cnt : ℕ
vnet_coal_cnt = 100

-- The bits of the features.
abbrev pub net_f_mac : ℕ
net_f_mac = 5

abbrev pub net_f_mrg_rxbuf : ℕ
net_f_mrg_rxbuf = 15

-- `struct net_dev` and `priv_stats`. `running` is `status == VNET_RUN`, `conf_link_up` says whether the
-- status of the configuration is VIRTIO_NET_S_LINK_UP, `kick_timer` whether the timer is active, and
-- `interrupts` counts the calls of interrupt_front for the queues. `rx_cnt` and `tx_cnt` are the
-- counters of the two places that coalesce; `coal_ticks` is pdMS_TO_TICKS(VNET_COAL_TIME), a constant
-- of the build that is 0 where a tick is longer than that time.
pub record NetDev : Type 0 where
  pub running : Bool
  pub link_on : Bool
  pub conf_link_up : Bool
  pub live : Bool
  pub hdr_len : ℕ
  pub kick_timer : Bool
  pub interrupts : ℕ
  pub rx_pkts : ℕ
  pub tx_pkts : ℕ
  pub rx_cnt : ℕ
  pub tx_cnt : ℕ
  pub coal_ticks : ℕ

-- virtio_net_hdr_len: the sizes of the two structures.
unfoldable pub virtio_net_hdr_len : ℕ → ℕ
virtio_net_hdr_len features = if test_bit features net_f_mrg_rxbuf then 12 else 10

-- virtio_net_update_status, virtio_net_start and virtio_net_stop
abbrev pub virtio_net_update_status : NetDev → NetDev
virtio_net_update_status ndev = record ndev {
  conf_link_up = true;
  link_on = if ndev.running then true else ndev.link_on;
}

abbrev pub virtio_net_start : NetDev → NetDev
virtio_net_start ndev = record ndev {
  running = true;
  link_on = if ndev.conf_link_up then true else ndev.link_on;
}

abbrev pub virtio_net_stop : NetDev → NetDev
virtio_net_stop ndev = record ndev { running = false; link_on = false }

-- handle_dev_status; the bit of VIRTIO_CONFIG_S_DRIVER_OK is 2.
unfoldable pub handle_dev_status : ℕ → NetDev → NetDev
handle_dev_status status ndev =
    let ndev1 = if status == 0 then virtio_net_update_status ndev else ndev in
    if test_bit status 2 && not ndev.live
    then virtio_net_start ndev1
    else if status == 0 && ndev.live
    then virtio_net_stop ndev1
    else ndev1

-- kick_timer_callback; the timer does not reload itself.
unfoldable pub kick_timer_callback : NetDev → NetDev
kick_timer_callback ndev = record ndev { kick_timer = false; interrupts = ndev.interrupts + 1 }

-- What follows virtio_queue_must_notify in the receive callback and in the transmit task: an
-- interrupt for every hundredth packet, or for each where the timer would have no ticks, and the timer
-- for the others.
unfoldable pub coalesce_rx : Bool → NetDev → NetDev
coalesce_rx must_notify ndev =
    if must_notify
    then if ndev.coal_ticks == 0 || leb vnet_coal_cnt ndev.rx_cnt
      then record ndev { interrupts = ndev.interrupts + 1; rx_cnt = 0 }
      else record ndev { kick_timer = true }
    else ndev

unfoldable pub coalesce_tx : Bool → NetDev → NetDev
coalesce_tx must_notify ndev =
    if must_notify
    then if ndev.coal_ticks == 0 || leb vnet_coal_cnt ndev.tx_cnt
      then record ndev { interrupts = ndev.interrupts + 1; tx_cnt = 0 }
      else record ndev { kick_timer = true }
    else ndev
