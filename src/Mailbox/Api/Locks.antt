-- ===== src/Mailbox/Api/Locks.antt =====
-- Sequences of API calls: which calls leave the locks of the mailbox free, and what happens when
-- one does not.
use heterogeneous_multicore.Base.{ℕ, suc, ◌<◌, ◌≡◌, refl, ◌≢◌, ◌∙◌, true, false, none, some, ltb}
use heterogeneous_multicore.Base.Int.{pos, negsuc, ◌≤ℤ◌, +ℤ_parts, int_laws}
use heterogeneous_multicore.Mailbox.State.{Mmio, Mbox, Driver, ret, blocked, max_ch, s_ready}
use heterogeneous_multicore.Mailbox.Api.Table.{get_instance-set}
use heterogeneous_multicore.Mailbox.Api.Calls.{
  IsIdle, At, holding, referenced, stored, sendmsg_gave_up, unregister_refused,
}
use heterogeneous_multicore.Mailbox.Api.Ops.{
  Op, send, attach, detach, add, remove, step, is_legal, and_left, and_right, nonzero, step-taken,
  Ends,
}
use heterogeneous_multicore.Mailbox.Api.Endings.{
  send-Ends, attach-Ends, detach-Ends, add-Ends, remove-Ends, written-IsIdle,
}

-- From a driver whose locks are free, a legal call of the API comes back and leaves them free,
-- unless it is a send that waits through its fuel for the channel, or a removal that is refused
-- with -1 because the instance is still referenced: that one keeps the global semaphore. Only an
-- illegal call fails an assertion.
pub step-Ends : (op : Op) (d : Driver) → IsIdle d → is_legal op ≡ true → Ends op d (step op d)
step-Ends (send fuel other base ch msg block) d idle legal =
    send-Ends d idle fuel ch msg other base block legal
step-Ends (attach base ch (some cb) cookie) d idle legal =
    attach-Ends d idle base ch cb cookie (and_left (ltb ch max_ch) true legal)
step-Ends (attach base ch none cookie) d idle legal = cc (and_right (ltb ch max_ch) false legal)
step-Ends (detach base ch) d idle legal = detach-Ends d idle base ch legal
step-Ends (add os base irq remote prio) d idle legal =
    add-Ends d idle os base irq remote prio (nonzero base legal)
step-Ends (remove base) d idle legal = remove-Ends d idle base (nonzero base legal)

-- The non-blocking send to a busy channel of an instance that is referenced no less than 0 times
-- answers -2 and keeps a reference; the removal of the instance then answers -1 and keeps the
-- global semaphore; and from there on no legal call of the API comes back.
pub busy_send_then_remove_blocks :
    (base i : ℕ) (m : Mbox) (d : Driver) (fuel ch msg : ℕ) (other : Mmio → Mmio)
    → IsIdle d
    → At base i m d
    → base ≢ 0
    → ch < max_ch
    → pos 0 ≤ℤ m.ref_cnt
    → m.mmio.tx_status ch ≢ s_ready
    → (d1 : Driver) × (d2 : Driver) × (step (send (suc fuel) other base ch msg false) d
        ≡ ret (negsuc 1) d1)
      × (step (remove base) d1 ≡ ret (negsuc 0) d2)
      × ((op : Op) → is_legal op ≡ true → step op d2 ≡ blocked)
busy_send_then_remove_blocks base i m d fuel ch msg other idle at nz lt refs busy =
    let d1 = holding base i m d idle at in
    let m1 = referenced base i m d idle at in
    let idle1 : IsIdle d1 = record {
      free_sem = idle.free_sem;
      unlocked = written-IsIdle d idle i m m1 base at refl;
    } in
    let at1 : At base i m1 d1 = record {
      found = get_instance-set base d.inst i m m1 at.slot refl ∙ at.found;
      slot = stored i m d at.slot m1;
    } in
    (
      d1,
      record d1 { sem = 0 },
      sendmsg_gave_up base i m d idle at fuel ch msg other lt busy,
      unregister_refused base i m1 d1 idle1 at1 nz (omega (int_laws, +ℤ_parts m.ref_cnt (pos 1))),
      λ op legal. step-taken op _ refl legal,
    )
