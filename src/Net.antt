-- ===== src/Net.antt =====
-- The virtual switch, its packets and its ports: net/data_pkt.c, net/net_switch.c, net/port_enet.c and
-- net/port_software.c.
pub mod DataPkt
pub mod Port
pub mod Switch
pub mod Fdb
pub mod Ports
pub mod Software
pub mod Enet
mod Tests
