-- ===== src/Ptp.antt =====
-- net/ptp_stack/ptp_multisoc_stack.c: the port of the switch that joins it to the sockets of the PTP
-- stack, and the tags by which the host and the switch name ports to each other.
pub mod Tag
pub mod Host
pub mod Sockets
pub mod Receive
pub mod TxTs
mod Tests
