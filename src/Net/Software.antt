-- ===== src/Net/Software.antt =====
-- net/port_software.c: a port of the switch that other code feeds, and that wakes the other ports
-- for several packets at once.
pub mod Laws
use heterogeneous_multicore.Base.{
  ℕ, ◌+◌, ◌%◌, ◌^◌, Bool, true, false, List, [], ◌∷◌, ltb, if◌then◌else◌,
}
use heterogeneous_multicore.Net.DataPkt.{DataPkt}
use heterogeneous_multicore.Net.Switch.{Net, Ref, notify_ports, port_in_pkt_nocpy}

-- `struct soft_vport_dev`: the two counters are of 8 bits.
pub record SoftVportDev : Type 0 where
  pub in_count : ℕ
  pub in_threshhold : ℕ
  pub port_dev : Ref

module _ (malloc : ℕ → Bool) where
  -- soft_vport_in_nocpy: the comparison reads the count before it is incremented.
  unfoldable pub soft_vport_in_nocpy : SoftVportDev → DataPkt → Net → SoftVportDev × Net
  soft_vport_in_nocpy dev pkt net =
      let notify = ltb dev.in_threshhold dev.in_count in
      (
        record dev { in_count = if notify then 0 else (dev.in_count + 1) % 2 ^ 8 },
        port_in_pkt_nocpy malloc dev.port_dev pkt notify net,
      )

unfoldable pub soft_vport_in_kick : SoftVportDev → Net → SoftVportDev × Net
soft_vport_in_kick dev net =
    if ltb 0 dev.in_count then (record dev { in_count = 0 }, notify_ports net) else (dev, net)
