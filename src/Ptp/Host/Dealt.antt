-- ===== src/Ptp/Host/Dealt.antt =====
-- What becomes of a frame of the host in genavb_host_to_sw_stack, by the bytes that it has.
use heterogeneous_multicore.Base.{
  ℕ, ◌+◌, ◌%◌, ◌<◌, ◌≤◌, ◌≡◌, refl, sym, ap, subst, Bool, true, false, List, [], ◌∷◌, Option, none,
  some, test_bit, if◌then◌else◌, Bool-cases, inl, inr,
}
use heterogeneous_multicore.Net.Port.{u64_inc}
use heterogeneous_multicore.Ptp.Tag.{Frame, mac_addr_total_length}
use heterogeneous_multicore.Ptp.Tag.Laws.{content}
use heterogeneous_multicore.Ptp.Host.{
  GenavbDev, PortDev, PrivStats, Sent, tx, tx_send, Outcome, Request, dsa_custom, meta_bit,
  ptp_socket_bit, find_switch_port, transmit, to_found, to_first, call_of, serve,
  genavb_host_to_sw_stack,
}
use heterogeneous_multicore.Ptp.Host.Requests.{
  IsDsa, Plain, Tagged, stripped, Asks, asks_meta, asks_port, asks_short, asks_endpoint,
  request-Asks,
}

-- The call for some bytes: through the socket for PTP where a time stamp is wanted and the device
-- has such sockets.
abbrev pub sends : ℕ → PortDev → List ℕ → Option ℕ → Sent
sends flags p bytes none = tx p.sock_tx bytes
sends flags p bytes (some n) =
    if test_bit flags ptp_socket_bit then tx_send p.sock_tx_ptp bytes n else tx p.sock_tx bytes

module _ (dev : GenavbDev) (f : Frame) where
  -- The call that a frame is for: to the port of the bridge that its tag names, without the tag, or
  -- to the first endpoint port, as it is.
  pub data Goes : Sent → Type 0 where
    by_bridge :
        {k : ℕ} {ts : Option ℕ} {p : PortDev}
        → Tagged dev.flags f k ts
        → mac_addr_total_length + k < f.data_len
        → find_switch_port dev.bridge_port (dsa_custom f % 16) ≡ some p
        → Goes (sends dev.flags p (stripped k f) ts)
    by_endpoint :
        {p : PortDev} {ps : List PortDev}
        → Plain dev.flags f
        → dev.endpoint_port ≡ p ∷ ps
        → Goes (tx p.sock_tx (content f))

  module _ (success : Sent → Bool) where
    -- How the frame may be dealt with: the answer, the counters, and the calls.
    pub data Dealt : Bool → PrivStats → List Sent → Type 0 where
      transmitted :
          {s : Sent}
          → Goes s
          → success s ≡ true
          → Dealt true
              (record (dev.priv_stats) { tx_pkts = u64_inc dev.priv_stats.tx_pkts })
              (s ∷ [])
      refused :
          {s : Sent}
          → Goes s
          → success s ≡ false
          → Dealt false
              (record (dev.priv_stats) { tx_err_pkts = u64_inc dev.priv_stats.tx_err_pkts })
              (s ∷ [])
      nothing_sent :
          Plain dev.flags f
          → dev.endpoint_port ≡ []
          → Dealt true (record (dev.priv_stats) { tx_pkts = u64_inc dev.priv_stats.tx_pkts }) []
      taken_as_meta :
          IsDsa dev.flags f
          → test_bit (dsa_custom f) meta_bit ≡ true
          → Dealt true
              (record (dev.priv_stats) { meta_rx_pkts = u64_inc dev.priv_stats.meta_rx_pkts })
              []
      too_short :
          {k : ℕ} {ts : Option ℕ}
          → Tagged dev.flags f k ts
          → f.data_len ≤ mac_addr_total_length + k
          → Dealt false
              (record (dev.priv_stats) {
                invalid_host_pkts = u64_inc dev.priv_stats.invalid_host_pkts;
              })
              []
      no_port :
          {k : ℕ} {ts : Option ℕ}
          → Tagged dev.flags f k ts
          → find_switch_port dev.bridge_port (dsa_custom f % 16) ≡ none
          → Dealt false
              (record (dev.priv_stats) {
                invalid_host_pkts = u64_inc dev.priv_stats.invalid_host_pkts;
              })
              []

module _ (success : Sent → Bool) (dev : GenavbDev) (f : Frame) where
  abbrev IsDealt : Outcome → Type 0
  IsDealt o = Dealt dev f success o.answer o.dev.priv_stats o.sent

  transmit-IsDealt : (s : Sent) → Goes dev f s → IsDealt (transmit success dev s)
  unfolding transmit
  transmit-IsDealt s goes = elim (Bool-cases (success s)) [
    | inl e ↦ rw e (Dealt.transmitted goes e)
    | inr e ↦ rw e (Dealt.refused goes e)
  ]

  call_of-sends :
      (p : PortDev) (g : Frame) (k : ℕ) (ts : Option ℕ)
      → content g ≡ stripped k f
      → sends dev.flags p (stripped k f) ts ≡ call_of dev.flags p g ts
  unfolding call_of
  call_of-sends p g k none e = ap (tx p.sock_tx) (sym e)
  call_of-sends p g k (some n) e = ap (λ xs. sends dev.flags p xs (some n)) (sym e)

  to_found-IsDealt :
      (g : Frame) (k : ℕ) (ts : Option ℕ) (o : Option PortDev)
      → Tagged dev.flags f k ts
      → mac_addr_total_length + k < f.data_len
      → content g ≡ stripped k f
      → find_switch_port dev.bridge_port (dsa_custom f % 16) ≡ o
      → IsDealt (to_found success dev g ts o)
  to_found-IsDealt g k ts none tagged long e found = Dealt.no_port tagged found
  to_found-IsDealt g k ts (some p) tagged long e found =
      transmit-IsDealt (call_of dev.flags p g ts)
        (subst (Goes dev f) (call_of-sends p g k ts e) (Goes.by_bridge tagged long found))

  to_first-IsDealt :
      (ps : List PortDev)
      → Plain dev.flags f
      → dev.endpoint_port ≡ ps
      → IsDealt (to_first success dev f ps)
  to_first-IsDealt [] plain e = Dealt.nothing_sent plain e
  to_first-IsDealt (p ∷ ps) plain e =
      transmit-IsDealt (tx p.sock_tx (content f)) (Goes.by_endpoint plain e)

  serve-IsDealt : {r : Request} → Asks dev.flags f r → IsDealt (serve success dev r)
  unfolding serve
  serve-IsDealt (asks_meta d m) = Dealt.taken_as_meta d m
  serve-IsDealt (asks_short g tagged short) = Dealt.too_short tagged short
  serve-IsDealt (asks_port {k} {ts} g tagged long e) = to_found-IsDealt g k ts _ tagged long e refl
  serve-IsDealt (asks_endpoint plain) = to_first-IsDealt dev.endpoint_port plain refl

  -- Every frame of the host is dealt with in one of these ways, and counted once. A frame with a tag
  -- that the device takes out goes to the port of the bridge that the tag names, without the tag;
  -- one without goes to the first endpoint port, as it is: it is counted as sent, and the answer is
  -- 0, just where the stack's call for it succeeds, and else counted as an error, with the answer -1.
  -- Without an endpoint port it is counted as sent, without a call. A frame whose tag says that it
  -- is meta is counted as such, with the answer 0; one that is too short for its tag, or whose port
  -- is not there, as invalid, with -1: all without a call.
  pub genavb_host_to_sw_stack-Dealt :
      let o = genavb_host_to_sw_stack success dev f in
      Dealt dev f success o.answer o.dev.priv_stats o.sent
  unfolding genavb_host_to_sw_stack
  genavb_host_to_sw_stack-Dealt = serve-IsDealt (request-Asks dev.flags f)
