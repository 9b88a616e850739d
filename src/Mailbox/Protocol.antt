-- ===== src/Mailbox/Protocol.antt =====
-- Two sides of one register block: sends and interrupt handlers of both as steps, and the history
-- of one channel in one direction. In the steps a handler is one step: the other side does not write
-- while it runs.
use mathlib.Core.Path.{ap₂}
use heterogeneous_multicore.Base.{
  ℕ, zero, suc, ◌+◌, ◌<◌, ◌≡◌, ◌≢◌, refl, sym, ap, ◌∙◌, ◌&&◌, List, [], ◌∷◌, ◌++◌, some, arith,
  ◌==◌, if◌then◌else◌, append-nil,
}
use heterogeneous_multicore.Mailbox.State.{Mmio, Mbox, peer, max_ch, s_ready, s_busy}
use heterogeneous_multicore.Mailbox.Handler.{handle_chan, handler, ack_tx}
use heterogeneous_multicore.Mailbox.Handler.Delivery.{
  delivered, waiting, waiting_from, in_range, quiet, handler_registers, delivered-handler,
  delivered-handle_chan, rx_status-handle_chan_not_busy,
}
use heterogeneous_multicore.Mailbox.Api.{post}

-- The messages that came with a given pointer.
abbrev pub only_of : ℕ → List (ℕ × ℕ × ℕ) → List ℕ
only_of c [] = []
only_of c ((cb, cookie, msg) ∷ rest) = if cookie == c then msg ∷ only_of c rest else only_of c rest

only_of-append :
    (c : ℕ) (xs ys : List (ℕ × ℕ × ℕ)) → only_of c (xs ++ ys) ≡ only_of c xs ++ only_of c ys
only_of-append c [] ys = refl
only_of-append c ((cb, cookie, msg) ∷ xs) ys = ground (arith, only_of-append c xs ys)

-- Every channel has a callback, and the number of the channel for its pointer.
abbrev pub ByChannel : Mbox → Type 0
ByChannel mbox = (i : ℕ) → (cb : ℕ) × ((mbox.chan i).recv_cb ≡ some cb) × ((mbox.chan i).cookie ≡ i)

only_of-waiting :
    (mbox : Mbox) (c i : ℕ) (r : Mmio)
    → ByChannel mbox
    → only_of c (waiting mbox i r)
      ≡ (if (i == c) && (r.rx_status c == s_busy) then r.rx_ch c ∷ [] else [])
only_of-waiting mbox c i r by = let (cb, e, p) = by i in ground arith

only_of-waiting_from :
    (mbox : Mbox) (c n i : ℕ) (r : Mmio)
    → ByChannel mbox
    → only_of c (waiting_from mbox n i r)
      ≡ (if in_range i n c && (r.rx_status c == s_busy) then r.rx_ch c ∷ [] else [])
only_of-waiting_from mbox c zero i r by = ground arith
only_of-waiting_from mbox c (suc n) i r by =
    only_of-append c (waiting mbox i r) (waiting_from mbox n (i + 1) r)
    ∙ ground (arith, only_of-waiting mbox c i r by, only_of-waiting_from mbox c n (i + 1) r by)

-- The registers as the sender of the channel names them, what it has sent on the channel and what
-- the receiver's callback has been given.
pub record World : Type 0 where
  pub mem : Mmio
  pub sent : List ℕ
  pub got : List ℕ

module _ (sender receiver : Mbox) (c : ℕ) where
  pub data Step : World → World → Type 0 where
    send :
        (w : World) (msg : ℕ)
        → w.mem.tx_status c ≡ s_ready
        → Step w (record w { mem = post c msg w.mem; sent = w.sent ++ msg ∷ [] })
    send_elsewhere :
        (w : World) (ch msg : ℕ)
        → ch ≢ c
        → w.mem.tx_status ch ≡ s_ready
        → Step w (record w { mem = post ch msg w.mem })
    -- a send of the receiver, in the other direction
    send_back :
        (w : World) (ch msg : ℕ)
        → (peer w.mem).tx_status ch ≡ s_ready
        → Step w (record w { mem = peer (post ch msg (peer w.mem)) })
    receiver_handler :
        (w : World)
        → Step w (record w {
          mem = peer (handler quiet receiver (peer w.mem)).0;
          got = w.got ++ only_of c (delivered (handler quiet receiver (peer w.mem)).1);
        })
    sender_handler : (w : World) → Step w (record w { mem = (handler quiet sender w.mem).0 })

  pub data Reach (w : World) : World → Type 0 where
    here : Reach w w
    next : {v u : World} → Reach w v → Step v u → Reach w u

  -- What is on its way.
  abbrev pub pending : Mmio → List ℕ
  pending r = if r.tx_status c == s_busy then r.tx_ch c ∷ [] else []

  abbrev pub InStep : World → Type 0
  InStep w = w.sent ≡ w.got ++ pending w.mem

  module _ (below : c < max_ch) (by : ByChannel receiver) where
    pending-handler : (r : Mmio) → pending (handler quiet sender r).0 ≡ pending r
    pending-handler r = ground (arith, handler_registers sender c r)

    pending-peer-handler : (r : Mmio) → pending (peer (handler quiet receiver (peer r)).0) ≡ []
    unfolding peer
    pending-peer-handler r = ground (arith, handler_registers receiver c (peer r))

    got-handler : (r : Mmio) → only_of c (delivered (handler quiet receiver (peer r)).1) ≡ pending r
    unfolding peer
    got-handler r =
        ap (only_of c) (delivered-handler receiver (peer r))
        ∙ only_of-waiting_from receiver c max_ch 0 (peer r) by
        ∙ ground arith

    pending-free : (r : Mmio) → r.tx_status c ≡ s_ready → pending r ≡ []
    pending-free r free = ground arith

    pending-post : (msg : ℕ) (r : Mmio) → pending (post c msg r) ≡ msg ∷ []
    unfolding post
    pending-post msg r = ground arith

    Step-InStep : {w u : World} → Step w u → InStep w → InStep u
    unfolding post peer
    Step-InStep (send w msg free) h =
        ap (λ t. t ++ msg ∷ [])
          (h ∙ ap (λ t. w.got ++ t) (pending-free w.mem free) ∙ append-nil w.got)
        ∙ ap (λ t. w.got ++ t) (sym (pending-post msg w.mem))
    Step-InStep (send_elsewhere w ch msg ne free) h = ground arith
    Step-InStep (send_back w ch msg free) h = ground arith
    Step-InStep (receiver_handler w) h =
        h
        ∙ ap (λ t. w.got ++ t) (sym (got-handler w.mem))
        ∙ sym (append-nil _)
        ∙ ap (λ t. (w.got ++ only_of c (delivered (handler quiet receiver (peer w.mem)).1)) ++ t)
            (sym (pending-peer-handler w.mem))
    Step-InStep (sender_handler w) h = rw (pending-handler w.mem) h

    Reach-InStep : {w u : World} → InStep w → Reach w u → InStep u
    Reach-InStep h here = h
    Reach-InStep h (next r s) = Step-InStep s (Reach-InStep h r)

    -- If every channel of the receiver has a callback with the channel's number for its pointer, and
    -- each run of a handler is one step, that is, while it runs the other side and the callback write
    -- no register and the other side's handler does not run, then after any such steps of the two
    -- sides from a world with nothing sent, nothing got and nothing
    -- on its way on channel c, what was sent on c is what the receiver's callback got, in order and
    -- each once, followed by the message still on its way if the channel is busy.
    pub channel_in_order :
        {w u : World}
        → w.sent ≡ []
        → w.got ≡ []
        → pending w.mem ≡ []
        → Reach w u
        → u.sent ≡ u.got ++ pending u.mem
    channel_in_order {w} s g p r = Reach-InStep (s ∙ sym (append-nil []) ∙ sym (ap₂ ◌++◌ g p)) r

  -- A send is over after one run of the receiver's handler and one of the sender's: the channel is
  -- free for the next send, whether or not the flags ask for an answer.
  pub send_acknowledged :
      (msg : ℕ) (r : Mmio)
      → c < max_ch
      → let r1 = peer (handler quiet receiver (peer (post c msg r))).0 in
        (handler quiet sender r1).0.tx_status c ≡ s_ready
  unfolding peer post
  send_acknowledged msg r below = ground (
    arith,
    handler_registers receiver c (peer (post c msg r)),
    handler_registers sender c (peer (handler quiet receiver (peer (post c msg r))).0),
  )

  -- The sender, while the callback for channel c runs: its interrupt handler runs, and then a send of
  -- a second message is tried, which is refused unless the channel is S_READY.
  abbrev pub try_send : ℕ → Mmio → Mmio
  try_send msg' r = peer (
      let acked = ack_tx quiet sender c (peer r) in
      if acked.tx_status c == s_ready then post c msg' acked else acked)

  abbrev pub second_send : ℕ → ℕ → ℕ → Mmio → Mmio
  second_send msg' i msg r = if i == c then try_send msg' r else r

  second_message :
      (msg' : ℕ) (r : Mmio)
      → r.rx_status c ≡ s_busy
      → (handle_chan (second_send msg') receiver c r).0.rx_ch c ≡ msg'
  unfolding handle_chan peer post ack_tx
  second_message msg' r busy = ground arith

  -- While the handler's callback for a message runs, the sender's handler runs, and then the sender
  -- tries to send another message, which a channel that is not S_READY refuses. It is not refused,
  -- and the message is lost: when the round of the receiver's handler is over, the register holds the
  -- second message in place of the first, the channel is not busy, and the callback has had the first
  -- message only.
  pub overrun :
      (msg' : ℕ) (r : Mmio)
      → r.rx_status c ≡ s_busy
      → r.rx_ch c ≢ msg'
      → let (r', es) = handle_chan (second_send msg') receiver c r in
        (r'.rx_ch c ≡ msg')
        × (r'.rx_ch c ≢ r.rx_ch c)
        × (r'.rx_status c ≢ s_busy)
        × (delivered es ≡ waiting receiver c r)
  overrun msg' r busy other =
      let lost = second_message msg' r busy in
      (
        lost,
        λ same. other (sym same ∙ lost),
        rx_status-handle_chan_not_busy (second_send msg') receiver c r,
        delivered-handle_chan (second_send msg') receiver c r,
      )
