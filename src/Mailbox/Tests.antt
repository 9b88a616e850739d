-- ===== src/Mailbox/Tests.antt =====
-- The mailbox on small inputs: runs, and the theorems where their hypotheses hold.
use heterogeneous_multicore.Base.{
  ℕ, ◌+◌, ◌-◌, ◌≡◌, ◌≢◌, refl, true, false, [], ◌∷◌, ◌++◌, none, some, arith, update, if◌then◌else◌,
  ltb,
}
use heterogeneous_multicore.Base.Int.{pos, negsuc}
use heterogeneous_multicore.Mailbox.State.{
  Mmio, Mbox, Driver, peer, max_ch, s_ready, s_busy, irq_on, ret, blocked,
}
use heterogeneous_multicore.Mailbox.Handler.{handle_chan, handler}
use heterogeneous_multicore.Mailbox.Handler.Delivery.{delivered, waiting, quiet}
use heterogeneous_multicore.Mailbox.Api.{Os, post, get_instance, init, deinit, register, add_mbox}
use heterogeneous_multicore.Mailbox.Api.Calls.{IsIdle, At}
use heterogeneous_multicore.Mailbox.Api.Ops.{Op, Ends, step, is_legal}
use heterogeneous_multicore.Mailbox.Api.Locks.{step-Ends, busy_send_then_remove_blocks}
use heterogeneous_multicore.Mailbox.Protocol.{
  World, Step, Reach, pending, channel_in_order, send_acknowledged, second_send, overrun,
}

abbrev blank : Mmio
blank = record {
  tx_status = λ i. 0;
  rx_status = λ i. 0;
  tx_ch = λ i. 0;
  rx_ch = λ i. 0;
  ch_ack_flags = 0;
}

-- Channel i calls back the function 70 with the pointer i.
abbrev side : ℕ → Mbox
side irq = record {
  mmio_pa = 4096;
  mmio = blank;
  irq = irq;
  remote_irq = irq + 1;
  chan = λ i. record { id = i; recv_cb = some 70; cookie = i };
  ref_cnt = pos 0;
  lock = 1;
}

abbrev waiting_channel : Mmio
waiting_channel = record blank { rx_status = update blank.rx_status 1 1; rx_ch = λ i. 55 }

abbrev driver : Mmio → Driver
driver r = record {
  inst = some (record (side 30) { mmio = r }) ∷ none ∷ none ∷ none ∷ [];
  sem = 1;
  is_inited = true;
  log = [];
}

abbrev busy_channel : Mmio
busy_channel = record blank { tx_status = update blank.tx_status 1 1 }

abbrev granted : Os
granted = record {
  malloc = true;
  mmu_map = pos 0;
  sem_init = pos 0;
  memory = busy_channel;
  heap = λ i. 9;
}

handler_runs :
    (delivered (handler quiet (side 30) waiting_channel).1 ≡ (70, 1, 55) ∷ [])
    × ((handler quiet (side 30) waiting_channel).0.rx_status 1 ≡ 0)
unfolding handler handle_chan
handler_runs = (refl, refl)

init_runs :
    init (pos 0) (record (driver blank) { sem = 0; is_inited = false }) ≡ ret tt (driver blank)
unfolding init
init_runs = refl

deinit_runs : deinit (driver blank) ≡ ret tt (record (driver blank) { is_inited = false })
unfolding deinit
deinit_runs = refl

-- A fresh instance, a callback on it, and a refused removal.
session :
    step (Op.add granted 8192 40 41 3) (driver blank)
    ≡ ret (pos 0) (record (driver blank) {
      inst =
          some (side 30)
          ∷ some (record {
            mmio_pa = 8192;
            mmio = record busy_channel {
              rx_status = λ i. if ltb i max_ch then 0 else busy_channel.rx_status i;
              tx_status = λ i. if ltb i max_ch then 0 else busy_channel.tx_status i;
            };
            irq = 40;
            remote_irq = 41;
            chan = λ i. record { id = i; recv_cb = none; cookie = 9 };
            ref_cnt = pos 0;
            lock = 1;
          })
          ∷ none
          ∷ none
          ∷ [];
      log = irq_on 40 3 ∷ [];
    })
unfolding register get_instance add_mbox
session = refl

driver-IsIdle : (r : Mmio) → IsIdle (driver r)
driver-IsIdle r = record { free_sem = refl; unlocked = (refl, tt) }

at_4096 : (r : Mmio) → At 4096 0 (record (side 30) { mmio = r }) (driver r)
unfolding get_instance
at_4096 r = record { found = refl; slot = refl }

-- The peer frees the channel in two rounds.
abbrev freeing : Mmio → Mmio
freeing r = record r { tx_status = λ i. r.tx_status i - 1 }

abbrev two_rounds : Mmio
two_rounds = record blank { tx_status = λ i. 2 }

step-Ends_example : Ends (Op.remove 4096) (driver blank) (step (Op.remove 4096) (driver blank))
step-Ends_example = step-Ends (Op.remove 4096) (driver blank) (driver-IsIdle blank) refl

busy_send_then_remove_blocks_example :
    (d1 : Driver) × (d2 : Driver) × (step (Op.send 1 (λ r. r) 4096 1 55 false) (driver busy_channel)
      ≡ ret (negsuc 1) d1)
    × (step (Op.remove 4096) d1 ≡ ret (negsuc 0) d2)
    × ((op : Op) → is_legal op ≡ true → step op d2 ≡ blocked)
busy_send_then_remove_blocks_example =
    busy_send_then_remove_blocks 4096 0 (record (side 30) { mmio = busy_channel })
      (driver busy_channel) 0 1 55 (λ r. r) (driver-IsIdle busy_channel) (at_4096 busy_channel)
      (omega arith) (omega arith) (omega arith) (omega arith)

abbrev full : Driver
full = record (driver blank) {
  inst = some (side 30) ∷ some (side 32) ∷ some (side 34) ∷ some (side 36) ∷ [];
}

abbrev start : World
start = record { mem = blank; sent = []; got = [] }

abbrev after_send : World
after_send = record { mem = post 2 55 blank; sent = 55 ∷ []; got = [] }

channel_in_order_example :
    after_send.sent ≡ after_send.got ++ pending (side 30) (side 31) 2 after_send.mem
channel_in_order_example =
    channel_in_order (side 30) (side 31) 2 (omega arith) (λ i. (70, refl, refl)) {w = start}
      {u = after_send} refl refl refl (Reach.next Reach.here (Step.send start 55 refl))

send_acknowledged_example :
    let r1 = peer (handler quiet (side 31) (peer (post 2 55 blank))).0 in
    (handler quiet (side 30) r1).0.tx_status 2 ≡ s_ready
send_acknowledged_example = send_acknowledged (side 30) (side 31) 2 55 blank (omega arith)

overrun_example :
    let (r', es) = handle_chan (second_send (side 30) (side 31) 1 66) (side 31) 1 waiting_channel in
    (r'.rx_ch 1 ≡ 66)
    × (r'.rx_ch 1 ≢ 55)
    × (r'.rx_status 1 ≢ s_busy)
    × (delivered es ≡ waiting (side 31) 1 waiting_channel)
overrun_example = overrun (side 30) (side 31) 1 66 waiting_channel refl (omega arith)
