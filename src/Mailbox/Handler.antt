-- ===== src/Mailbox/Handler.antt =====
-- gen_sw_mbox_handler: the interrupt handler that acknowledges, delivers and answers.
pub mod Delivery
use heterogeneous_multicore.Base.{
  ℕ, zero, suc, ◌+◌, List, [], ◌∷◌, ◌++◌, none, some, ◌==◌, if◌then◌else◌, test_bit, update,
}
use heterogeneous_multicore.Mailbox.State.{
  Mmio, Chan, Mbox, Effect, max_ch, s_ready, s_busy, s_done, pend, call,
}

abbrev recv_call : Chan → ℕ → List Effect
recv_call c msg = elim c.recv_cb [ none ↦ [] | some cb ↦ call cb c.cookie msg ∷ [] ]

-- `during i msg` is what becomes of the registers while the callback of channel i runs: the
-- callback and the peer are other code, and the peer runs on another core.
module _ (during : ℕ → ℕ → Mmio → Mmio) (mbox : Mbox) where
  -- "Handle TX done ack"
  unfoldable pub ack_tx : ℕ → Mmio → Mmio
  ack_tx i r =
      if r.tx_status i == s_done then record r { tx_status = update r.tx_status i s_ready } else r

  -- The rest of the round, for a channel whose rx_status is S_BUSY.
  unfoldable pub receive : ℕ → Mmio → Mmio × List Effect
  receive i r =
      let msg = r.rx_ch i in
      let r' = during i msg (record r { rx_status = update r.rx_status i s_done }) in
      let seen = pend mbox.remote_irq ∷ recv_call (mbox.chan i) msg in
      if test_bit r'.ch_ack_flags i
      then (
        record r' { rx_status = update r'.rx_status i s_done },
        seen ++ pend mbox.remote_irq ∷ [],
      )
      else (record r' { rx_status = update r'.rx_status i s_ready }, seen)

  -- One round of the loop.
  unfoldable pub handle_chan : ℕ → Mmio → Mmio × List Effect
  unfolding ack_tx receive
  handle_chan i r =
      let r' = ack_tx i r in if r'.rx_status i == s_busy then receive i r' else (r', [])

  -- The rounds left, from channel i on.
  unfoldable pub handler_from : ℕ → ℕ → Mmio → Mmio × List Effect
  handler_from zero i r = (r, [])
  handler_from (suc n) i r =
      let (r', es) = handle_chan i r in
      let (r'', es') = handler_from n (i + 1) r' in (r'', es ++ es')

  unfoldable pub handler : Mmio → Mmio × List Effect
  unfolding handler_from
  handler r = handler_from max_ch 0 r
