-- ===== src/Net/Enet.antt =====
-- net/port_enet.c: the Ethernet port of the switch, above the driver of its MAC: the static receive
-- buffers, the frames that the driver gives, and those that go out.
pub mod Pool
pub mod Laws
mod Tests
use heterogeneous_multicore.Base.{
  ℕ, zero, suc, ◌+◌, ◌*◌, Bool, true, false, List, [], ◌∷◌, Option, none, some, leb, if◌then◌else◌,
}
use heterogeneous_multicore.Net.DataPkt.{DataPkt, data_pkt_set_len}
use heterogeneous_multicore.Net.Port.{u64_inc}
use heterogeneous_multicore.Net.Switch.{Net, Ref, notify_ports, port_in_pkt_nocpy}

-- STATIC_BUFF_COUNT: ENET_RXBD_NUM * 3
abbrev pub static_buff_count : ℕ
static_buff_count = 256 * 3

-- The packets at the heads of the buffers, by their places.
-- static_buff_init: what data_pkt_build leaves in each, marked unused.
abbrev pub all_unused : List DataPkt → List DataPkt
all_unused [] = []
all_unused (p ∷ ps) = record p { used = false } ∷ all_unused ps

abbrev pub shifted : DataPkt → Option ℕ × List DataPkt → Option ℕ × List DataPkt
shifted p (none, ps) = (none, p ∷ ps)
shifted p (some i, ps) = (some (suc i), p ∷ ps)

-- rx_buff_alloc: the place of the first unused buffer; none is NULL.
unfoldable pub rx_buff_alloc : List DataPkt → Option ℕ × List DataPkt
rx_buff_alloc [] = (none, [])
rx_buff_alloc (p ∷ ps) =
    let rest = rx_buff_alloc ps in
    if p.used then shifted p rest else (some 0, record p { used = true } ∷ ps)

-- rx_buff_free, of the buffer at a place.
unfoldable pub rx_buff_free : ℕ → List DataPkt → List DataPkt
rx_buff_free i [] = []
rx_buff_free zero (p ∷ ps) = record p { used = false } ∷ ps
rx_buff_free (suc i) (p ∷ ps) = p ∷ rx_buff_free i ps

-- `struct enet_err_stats` and `struct enet_priv_stats`
pub record ErrStats : Type 0 where
  pub truncate_err : ℕ
  pub crc_err : ℕ
  pub over_run_err : ℕ
  pub align_err : ℕ
  pub rx_len_greater_err : ℕ

pub record EnetStats : Type 0 where
  pub rx_pkts : ℕ
  pub rx_dropped : ℕ
  pub err_stats : ErrStats
  pub tx_pkts : ℕ
  pub tx_err_pkts : ℕ

-- The fields of rxFrameError that are read.
pub record FrameError : Type 0 where
  pub truncated : Bool
  pub over_run : Bool
  pub fcs : Bool
  pub align : Bool
  pub len_greater : Bool

-- What ENET_GetRxFrame gives while the ring is not empty: the packet that heads the frame's buffer,
-- and the frame's length.
pub data RxFrame : Type 0 where
  success : DataPkt → ℕ → RxFrame
  drop : RxFrame
  error : FrameError → RxFrame

abbrev pub inc_if : Bool → ℕ → ℕ
inc_if b n = if b then u64_inc n else n

unfoldable pub count_errors : FrameError → ErrStats → ErrStats
count_errors e s = record {
  truncate_err = inc_if e.truncated s.truncate_err;
  crc_err = inc_if e.fcs s.crc_err;
  over_run_err = inc_if e.over_run s.over_run_err;
  align_err = inc_if e.align s.align_err;
  rx_len_greater_err = inc_if e.len_greater s.rx_len_greater_err;
}

pub record EnetState : Type 0 where
  pub stats : EnetStats
  pub net : Net
  pub need_notify : Bool

module _ (malloc : ℕ → Bool) (port : Ref) where
  unfoldable pub rx_frame : RxFrame → EnetState → EnetState
  rx_frame (success pkt len) s = record {
    stats = record (s.stats) { rx_pkts = u64_inc s.stats.rx_pkts };
    net = port_in_pkt_nocpy malloc port (data_pkt_set_len pkt len) false s.net;
    need_notify = true;
  }
  rx_frame drop s = record s {
    stats = record (s.stats) { rx_dropped = u64_inc s.stats.rx_dropped };
  }
  rx_frame (error e) s = record s {
    stats = record (s.stats) { err_stats = count_errors e s.stats.err_stats };
  }

  -- The inner loop, until the ring is empty.
  unfoldable pub rx_frames : List RxFrame → EnetState → EnetState
  rx_frames [] s = s
  rx_frames (f ∷ fs) s = rx_frames fs (rx_frame f s)

  -- What enet_process_pkts does for an event.
  unfoldable pub enet_process_pkts : List RxFrame → EnetStats → Net → EnetStats × Net
  enet_process_pkts fs stats net =
      let s = rx_frames fs (record { stats = stats; net = net; need_notify = false }) in
      (s.stats, if s.need_notify then notify_ports s.net else s.net)

-- enet_output: the answer 0 (true) or -1 (false); `sent` is what ENET_SendFrame answers. The bound is
-- ENET_FRAME_MAX_FRAMELEN of the driver.
unfoldable pub enet_output : ℕ → Bool → DataPkt → EnetStats → Bool × EnetStats
enet_output max_framelen sent pkt s =
    if leb max_framelen pkt.data_len
    then (false, record s { tx_err_pkts = u64_inc s.tx_err_pkts })
    else if sent
    then (true, record s { tx_pkts = u64_inc s.tx_pkts })
    else (false, record s { tx_err_pkts = u64_inc s.tx_err_pkts })
