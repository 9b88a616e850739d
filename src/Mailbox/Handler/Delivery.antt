-- ===== src/Mailbox/Handler/Delivery.antt =====
-- What the interrupt handler of the mailbox delivers, and what it leaves in the registers.
use mathlib.Core.Path.{ap₂}
use heterogeneous_multicore.Base.{
  ltb, leb, ◌&&◌, ℕ, zero, suc, ◌+◌, ◌≤◌, ◌≡◌, refl, ◌≢◌, ◌∙◌, ap, Bool, true, List, [], ◌∷◌, ◌++◌,
  none, some, arith, ◌==◌, if◌then◌else◌, test_bit,
}
use heterogeneous_multicore.Mailbox.State.{
  Mmio, Mbox, Effect, max_ch, s_ready, s_busy, s_done, pend, call, irq_on, irq_off, unmap, free,
}
use heterogeneous_multicore.Mailbox.Handler.{receive, handle_chan, handler_from, handler}

-- The messages among the effects, as the callback, its pointer and the message.
abbrev pub delivered : List Effect → List (ℕ × ℕ × ℕ)
delivered [] = []
delivered (call cb p msg ∷ es) = (cb, p, msg) ∷ delivered es
delivered (pend _ ∷ es) = delivered es
delivered (irq_on _ _ ∷ es) = delivered es
delivered (irq_off _ ∷ es) = delivered es
delivered (unmap _ ∷ es) = delivered es
delivered (free _ ∷ es) = delivered es

pub delivered-append : (xs ys : List Effect) → delivered (xs ++ ys) ≡ delivered xs ++ delivered ys
delivered-append [] ys = refl
delivered-append (call cb p msg ∷ es) ys = ap (λ t. (cb, p, msg) ∷ t) (delivered-append es ys)
delivered-append (pend _ ∷ es) ys = delivered-append es ys
delivered-append (irq_on _ _ ∷ es) ys = delivered-append es ys
delivered-append (irq_off _ ∷ es) ys = delivered-append es ys
delivered-append (unmap _ ∷ es) ys = delivered-append es ys
delivered-append (free _ ∷ es) ys = delivered-append es ys

-- What a channel has to deliver: its message, if it is busy and has a callback.
abbrev pub waiting : Mbox → ℕ → Mmio → List (ℕ × ℕ × ℕ)
waiting mbox i r =
    if r.rx_status i == s_busy
    then elim (mbox.chan i).recv_cb [
      | none ↦ []
      | some cb ↦ (cb, (mbox.chan i).cookie, r.rx_ch i) ∷ []
    ]
    else []

-- The state words that a handled channel is left with.
abbrev pub rx_after : ℕ → Mmio → ℕ
rx_after i r =
    if r.rx_status i == s_busy
    then (if test_bit r.ch_ack_flags i then s_done else s_ready)
    else r.rx_status i

abbrev pub tx_after : ℕ → Mmio → ℕ
tx_after i r = if r.tx_status i == s_done then s_ready else r.tx_status i

module _ (during : ℕ → ℕ → Mmio → Mmio) (mbox : Mbox) where
  delivered-receive :
      (i : ℕ) (r : Mmio)
      → (r.rx_status i == s_busy) ≡ true
      → delivered (receive during mbox i r).1 ≡ waiting mbox i r
  unfolding receive
  delivered-receive i r busy = ground arith

  -- A round calls back with the message that the channel held when it began, and with no other.
  pub delivered-handle_chan :
      (i : ℕ) (r : Mmio) → delivered (handle_chan during mbox i r).1 ≡ waiting mbox i r
  unfolding handle_chan
  delivered-handle_chan i r = ground arith

  -- Whatever happens during the callback, a channel is not busy when its round is over.
  pub rx_status-handle_chan_not_busy :
      (i : ℕ) (r : Mmio) → (handle_chan during mbox i r).0.rx_status i ≢ s_busy
  unfolding handle_chan
  rx_status-handle_chan_not_busy i r = ground arith

-- Registers that nobody else writes while the handler runs.
abbrev pub quiet : ℕ → ℕ → Mmio → Mmio
quiet i msg r = r

-- The messages of the channels from i on, in order.
abbrev pub waiting_from : Mbox → ℕ → ℕ → Mmio → List (ℕ × ℕ × ℕ)
waiting_from mbox zero i r = []
waiting_from mbox (suc n) i r = waiting mbox i r ++ waiting_from mbox n (i + 1) r

-- What one channel's registers are after the rounds for the channels in a range.
abbrev pub in_range : ℕ → ℕ → ℕ → Bool
in_range i n j = leb i j && ltb j (i + n)

-- The registers of channel j: handled, if j is in the range, or as they were.
pub record Handled (i n j : ℕ) (r r' : Mmio) : Type 0 where
  pub rx : r'.rx_status j ≡ (if in_range i n j then rx_after j r else r.rx_status j)
  pub tx : r'.tx_status j ≡ (if in_range i n j then tx_after j r else r.tx_status j)
  pub tx_data : r'.tx_ch j ≡ r.tx_ch j
  pub rx_data : r'.rx_ch j ≡ r.rx_ch j
  pub flags : r'.ch_ack_flags ≡ r.ch_ack_flags

module _ (mbox : Mbox) where
  handle_chan-Handled : (i j : ℕ) (r : Mmio) → Handled i 1 j r (handle_chan quiet mbox i r).0
  unfolding handle_chan
  handle_chan-Handled i j r = ground arith

  handler_from-Handled : (n i j : ℕ) (r : Mmio) → Handled i n j r (handler_from quiet mbox n i r).0
  unfolding handler_from
  handler_from-Handled zero i j r = ground arith
  handler_from-Handled (suc n) i j r = ground (
    arith,
    handle_chan-Handled i j r,
    handler_from-Handled n (i + 1) j (handle_chan quiet mbox i r).0,
  )

  waiting_ext :
      (i : ℕ) (r r' : Mmio)
      → (r'.rx_status i ≡ r.rx_status i) × (r'.rx_ch i ≡ r.rx_ch i)
      → waiting mbox i r' ≡ waiting mbox i r
  waiting_ext i r r' same = ground arith

  waiting_from_ext :
      (n i : ℕ) (r r' : Mmio)
      → ((j : ℕ) → i ≤ j → (r'.rx_status j ≡ r.rx_status j) × (r'.rx_ch j ≡ r.rx_ch j))
      → waiting_from mbox n i r' ≡ waiting_from mbox n i r
  waiting_from_ext zero i r r' same = refl
  waiting_from_ext (suc n) i r r' same =
      ap₂ ◌++◌ (waiting_ext i r r' (same i (omega arith)))
        (waiting_from_ext n (i + 1) r r' (λ j later. same j (omega arith)))

  rest_unchanged :
      (i j : ℕ) (r : Mmio)
      → i + 1 ≤ j
      → ((handle_chan quiet mbox i r).0.rx_status j ≡ r.rx_status j)
        × ((handle_chan quiet mbox i r).0.rx_ch j ≡ r.rx_ch j)
  rest_unchanged i j r later = ground (arith, handle_chan-Handled i j r)

  delivered-handler_from :
      (n i : ℕ) (r : Mmio) → delivered (handler_from quiet mbox n i r).1 ≡ waiting_from mbox n i r
  unfolding handler_from
  delivered-handler_from zero i r = refl
  delivered-handler_from (suc n) i r =
      let r' = (handle_chan quiet mbox i r).0 in
      delivered-append (handle_chan quiet mbox i r).1 (handler_from quiet mbox n (i + 1) r').1
      ∙ ap₂ ◌++◌ (delivered-handle_chan quiet mbox i r) (
          delivered-handler_from n (i + 1) r'
          ∙ waiting_from_ext n (i + 1) r r' (λ j later. rest_unchanged i j r later))

  -- Registers that nobody else writes: every channel below MAX_CH whose rx_status is S_BUSY ends as
  -- S_DONE if its bit of ch_ack_flags is set and as S_READY if not, every tx_status that is S_DONE
  -- ends as S_READY, and all else (other status words, data registers, flags, other channels) stays.
  pub handler_registers : (j : ℕ) (r : Mmio) → Handled 0 max_ch j r (handler quiet mbox r).0
  unfolding handler
  handler_registers j r = handler_from-Handled max_ch 0 j r

  -- Registers that nobody else writes: the callbacks that run are those of the busy channels that
  -- have one, in the order of the channels, each once and with the message of its own channel.
  pub delivered-handler :
      (r : Mmio) → delivered (handler quiet mbox r).1 ≡ waiting_from mbox max_ch 0 r
  unfolding handler
  delivered-handler r = delivered-handler_from max_ch 0 r
