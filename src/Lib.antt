-- ===== src/Lib.antt =====
-- Real-time edge software for heterogeneous multicore systems: the parts that the cores share, written
-- in C, modelled and proved. A core talks to another by a software mailbox in shared memory, and above
-- it by virtqueues whose registers the other core traps; packets go between virtual and real network
-- ports through a switch; the measurements of the applications are collected by a statistics library.
--
-- The parts, and the files that model them:
-- - libs/gen_sw_mbox/gen_sw_mbox.c, the mailbox: Mailbox. State has the registers, the instances and the
--   monad of the API calls, which return, wait for ever or fail an assertion; Handler is
--   gen_sw_mbox_handler with `ack_tx` and `receive` for the two halves of its round; Api has the calls
--   by the names of the code without the prefix gen_sw_mbox_. Protocol sets both sides of the registers
--   against each other, as steps.
-- - net/data_pkt.c, the packet buffers: Net.DataPkt, with the names of the code. The allocator is the
--   parameter `malloc`, and a record of what was made, freed and released.
-- - net/net_switch.c and include/net/net_switch.h, the switch: Net.Port (`struct switch_port` and its
--   queue), Net.Switch (the ways of a packet, from port_in_pkt to port_out_pkt), Net.Fdb (forwarding
--   tables), Net.Ports (adding, draining and removing ports), with the names of the code.
-- - virtio/devices/core.c and include/virtio/uapi/virtio_ring.h, the virtqueues: Virtio.Ring.
-- - include/common/iovec.h, the vectors that a chain of descriptors is collected in: Virtio.Iov.
-- - virtio/devices/mmio.c with the status and reset of core.c, the transport: Virtio.Device, over the
--   interface `Ops` of a device's operations (`struct virtio_ops`) and the laws `OpsLaws`.
-- - virtio/devices/trans.c, the transfer test device: Virtio.Trans, an instance of that interface,
--   and Virtio.Trans.Tasks for a test of tx_task or rx_task.
-- - virtio/mailbox/generic_software_mailbox.c, the table of interrupt handlers: Virtio.IsrTable.
-- - net/port_enet.c, the Ethernet port above its driver: Net.Enet, and Net.Enet.Pool for the buffers.
-- - net/port_software.c, a port of the switch that other code feeds: Net.Software.
-- - virtio/devices/network.c, the network device: Virtio.Network for its status and its notifications,
--   Virtio.Network.Rx for virtio_net_rx_callback, and Tx and Ctrl for a round of virtio_net_tx_task and
--   of virtio_net_ctrl_task. It joins a port of the switch to the virtqueues.
-- - net/ptp_stack/ptp_multisoc_stack.c, the port that joins the sockets of the PTP stack to the switch:
--   Ptp.Tag (the tags of frames, on a memory of bytes), Ptp.Host (genavb_host_to_sw_stack
--   and genavb_socket_output), Ptp.Receive
--   (genavb_receive_pkts, over Net.Software), Ptp.TxTs (genavb_retrieve_ptp_ts), Ptp.Sockets
--   (port_genavb_setup_sockets).
-- - libs/rpmsg/rpmsg.c, above a vendor's RPMsg-Lite: Rpmsg, what an instance and its endpoints take from
--   the system and give back.
-- - apps/soem_servo_rt1180/freertos/cia402.c, the start of a drive: Servo.
-- - apps/rt_latency/common/rt_latency.c, the difference of counter values: Latency.
-- - libs/stats/stats.c and include/stats/stats.h: Stats, and Stats.Hist for the histograms.
-- Base has the names that the others share: tests, lists, integers, bits, and
-- runs of bytes in memory.
--
-- Numbers are the natural numbers; where the code's type can wrap, the model takes the remainder (u16,
-- `u64_inc`, `% 2 ^ 32`). A place of C memory is a list where the code's bounds matter, and a function
-- where they are checked. What is not in these files is a parameter: what the peer does between two
-- reads of a status (`other`, `during`), whether memory is found (`malloc`), what an address holds
-- (`tables`, `ring_at`), and the effects on the system are listed in the order of the calls.
--
-- Four loops run on fuel. `Mailbox.Api.wait` reads a status until it is S_READY; fuel for one read
-- more than the peer needs is enough. `Virtio.Ring.walk` follows a chain of descriptors; fuel for
-- their number is enough, and the tasks of network.c and trans.c give it the size of their array, so
-- that it ends without a vector just where they would write beyond the array. `Virtio.Network.Rx.rx_loop` fills one buffer a round, or waits for one; fuel
-- for the number of buffers is enough where they are available; so is fuel for the number of chains in
-- `Virtio.Trans.Tasks.test_loop`. All others are over lists or numbers.
--
-- Not modelled: the memory ordering of the barriers, the semaphores of the switch's queues, printing,
-- switch_init, the setup of the virtio devices, of the software port and of the PTP stack's port,
-- virtio/mailbox/mu_mailbox.c, the setup of the Ethernet port and its PHY, the messages and the
-- nameservice of libs/rpmsg, the rest of the applications, the operating system layer, and the boards'
-- configuration.
pub mod Base
pub mod Mailbox
pub mod Net
pub mod Virtio
pub mod Ptp
pub mod Rpmsg
pub mod Servo
pub mod Latency
pub mod Stats
