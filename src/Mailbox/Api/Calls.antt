-- ===== src/Mailbox/Api/Calls.antt =====
-- What the API calls of the mailbox do on each branch, from a driver whose locks are free.
use heterogeneous_multicore.Base.{
  ℕ, zero, suc, ◌≤◌, ◌<◌, ◌≡◌, ◌≢◌, ◌∙◌, Bool, true, false, [], ◌∷◌, ◌++◌, none, some, arith, ◌==◌,
  lt→ltb, get_elem?, set, update, Bool-cases, inl, inr, length, lt-length_of_get,
  get_elem?-set_self, set-set,
}
use heterogeneous_multicore.Base.Int.{pos, negsuc, ◌+ℤ◌, ◌-ℤ◌, ◌≤ℤ◌, +ℤ_cancel, ltb_ℤ}
use heterogeneous_multicore.Mailbox.State.{
  Mmio, Mbox, Driver, ret, blocked, ◌>>=◌, max_ch, s_ready, pend, irq_off, unmap, free,
}
use heterogeneous_multicore.Mailbox.Api.{
  get_instance, get, put, wait, ready, gave_up, spinning, post, transmit, sendmsg,
  register_chan_callback, unregister_chan_callback, register, unregister, del_mbox, Os,
}
use heterogeneous_multicore.Mailbox.Api.Table.{Unlocked, Unlocked-get}

-- Between two calls: nobody holds the global semaphore or an instance's lock.
pub record IsIdle (d : Driver) : Type 0 where
  pub free_sem : d.sem ≡ 1
  pub unlocked : Unlocked d.inst

-- The instance for an address is at a place of the table.
pub record At (base i : ℕ) (m : Mbox) (d : Driver) : Type 0 where
  pub found : get_instance base d.inst ≡ some i
  pub slot : get_elem? d.inst i ≡ some (some m)

-- `iterate k f r` is r after k rounds of f.
abbrev pub iterate : ℕ → (Mmio → Mmio) → Mmio → Mmio
iterate zero f r = r
iterate (suc k) f r = iterate k f (f r)

-- A blocking send that finds the channel ready within the fuel stops at the first such read.
pub wait_ready :
    (fuel n ch : ℕ) (other : Mmio → Mmio) (r : Mmio)
    → n < fuel
    → (iterate n other r).tx_status ch ≡ s_ready
    → (k : ℕ) × (k ≤ n)
      × ((iterate k other r).tx_status ch ≡ s_ready)
      × (wait fuel true ch other r ≡ ready (iterate k other r))
unfolding wait
wait_ready zero n ch other r lt e = absurd (omega arith)
wait_ready (suc fuel) zero ch other r lt e = (0, omega arith, e, ground arith)
wait_ready (suc fuel) (suc n) ch other r lt e = elim (Bool-cases (r.tx_status ch == s_ready)) [
  | inl now ↦ (0, omega arith, ground arith, ground arith)
  | inr later ↦
      let (k, le, stops, w) = wait_ready fuel n ch other (other r) (omega arith) e in
      (suc k, omega arith, stops, rw (later, wait) w)
]

module _ (i : ℕ) (m : Mbox) (d : Driver) (slot : get_elem? d.inst i ≡ some (some m)) where
  in_table : i < length d.inst
  in_table = lt-length_of_get d.inst i slot

  -- What is stored is what the next load finds.
  pub stored : (m' : Mbox) → get_elem? (set d.inst i (some m')) i ≡ some (some m')
  stored m' = get_elem?-set_self d.inst i (some m') in_table

  get_lem :
      m.lock ≡ 1
      → get i d
        ≡ ret tt
            (record d { inst = set d.inst i (some (record m { ref_cnt = m.ref_cnt +ℤ pos 1 })) })
  unfolding get
  get_lem lock = ground arith

  put_lem :
      m.lock ≡ 1
      → put i d
        ≡ ret tt
            (record d { inst = set d.inst i (some (record m { ref_cnt = m.ref_cnt -ℤ pos 1 })) })
  unfolding put
  put_lem lock = ground arith

module _ (i : ℕ) (m : Mbox) (d : Driver) (slot : get_elem? d.inst i ≡ some (some m)) where
  -- With the channel ready, transmit writes the message, interrupts the peer and drops a reference.
  pub transmit_ready :
      (fuel ch msg : ℕ) (other : Mmio → Mmio) (block : Bool) (r : Mmio)
      → m.lock ≡ 1
      → wait fuel block ch other m.mmio ≡ ready r
      → transmit fuel other i ch msg block d
        ≡ ret (pos 0) (record d {
          inst =
              set d.inst i (some (record m { mmio = post ch msg r; ref_cnt = m.ref_cnt -ℤ pos 1 }));
          log = d.log ++ pend m.remote_irq ∷ [];
        })
  unfolding transmit
  transmit_ready fuel ch msg other block r lock w =
      let m' = record m { mmio = post ch msg r } in
      let d' = record d { inst = set d.inst i (some m'); log = d.log ++ pend m.remote_irq ∷ [] } in
      rw (◌>>=◌, slot, w, put_lem i m' d' (stored i m d slot m') lock) (rw set-set)

  pub transmit_gave_up :
      (fuel ch msg : ℕ) (other : Mmio → Mmio) (block : Bool) (r : Mmio)
      → wait fuel block ch other m.mmio ≡ gave_up r
      → transmit fuel other i ch msg block d
        ≡ ret (negsuc 1) (record d { inst = set d.inst i (some (record m { mmio = r })) })
  unfolding transmit
  transmit_gave_up fuel ch msg other block r w = rw (◌>>=◌, slot, w)

  pub transmit_spins :
      (fuel ch msg : ℕ) (other : Mmio → Mmio) (block : Bool)
      → wait fuel block ch other m.mmio ≡ spinning
      → transmit fuel other i ch msg block d ≡ blocked
  unfolding transmit
  transmit_spins fuel ch msg other block w = rw (◌>>=◌, slot, w)

wait_gave_up :
    (fuel ch : ℕ) (other : Mmio → Mmio) (r : Mmio)
    → r.tx_status ch ≢ s_ready
    → wait (suc fuel) false ch other r ≡ gave_up r
unfolding wait
wait_gave_up fuel ch other r busy = ground arith

pub not_zero : (base : ℕ) → base ≢ 0 → (base == 0) ≡ false
not_zero base nz = ground arith

module _ (base i : ℕ) (m : Mbox) (d : Driver) (idle : IsIdle d) (at : At base i m d) where
  lock_free : m.lock ≡ 1
  lock_free = Unlocked-get d.inst i m idle.unlocked at.slot

  -- The instance with one more reference, and the driver that holds it.
  abbrev pub referenced : Mbox
  referenced = record m { ref_cnt = m.ref_cnt +ℤ pos 1 }

  abbrev pub holding : Driver
  holding = record d { inst = set d.inst i (some referenced) }

  -- A send to a known address hands the channel over to transmit, one reference taken.
  pub sendmsg_found :
      (fuel ch msg : ℕ) (other : Mmio → Mmio) (block : Bool)
      → ch < max_ch
      → sendmsg fuel other base ch msg block d ≡ transmit fuel other i ch msg block holding
  unfolding sendmsg
  sendmsg_found fuel ch msg other block lt =
      let d1 = record d { sem = 0 } in
      rw (◌>>=◌, lt→ltb ch max_ch lt, idle.free_sem, at.found, get_lem i m d1 at.slot lock_free)

  pub sendmsg_ready :
      (fuel ch msg : ℕ) (other : Mmio → Mmio) (block : Bool) (r : Mmio)
      → ch < max_ch
      → wait fuel block ch other m.mmio ≡ ready r
      → sendmsg fuel other base ch msg block d
        ≡ ret (pos 0) (record d {
          inst = set d.inst i (some (record m { mmio = post ch msg r }));
          log = d.log ++ pend m.remote_irq ∷ [];
        })
  sendmsg_ready fuel ch msg other block r lt w =
      sendmsg_found fuel ch msg other block lt
      ∙ transmit_ready i referenced holding (stored i m d at.slot referenced) fuel ch msg other
          block r lock_free w
      ∙ rw (set-set, +ℤ_cancel)

  -- A blocking send comes back once the channel turns ready: if n rounds of what the peer and the
  -- interrupt handler do make it so and n is below the fuel, the send stops at some round k ≤ n,
  -- answers 0, leaves in the registers of that round the message and S_BUSY, interrupts the peer
  -- once, and leaves the references as they were.
  pub blocking_send_posts :
      (fuel n ch msg : ℕ) (other : Mmio → Mmio)
      → ch < max_ch
      → n < fuel
      → (iterate n other m.mmio).tx_status ch ≡ s_ready
      → (k : ℕ) × (k ≤ n)
        × (sendmsg fuel other base ch msg true d
            ≡ ret (pos 0) (record d {
              inst = set d.inst i (some (record m { mmio = post ch msg (iterate k other m.mmio) }));
              log = d.log ++ pend m.remote_irq ∷ [];
            }))
  blocking_send_posts fuel n ch msg other lt below ends =
      let (k, le, _, w) = wait_ready fuel n ch other m.mmio below ends in
      (k, le, sendmsg_ready fuel ch msg other true (iterate k other m.mmio) lt w)

  -- The reference that a send takes is not given back when it finds the channel busy.
  pub sendmsg_gave_up :
      (fuel ch msg : ℕ) (other : Mmio → Mmio)
      → ch < max_ch
      → m.mmio.tx_status ch ≢ s_ready
      → sendmsg (suc fuel) other base ch msg false d ≡ ret (negsuc 1) holding
  sendmsg_gave_up fuel ch msg other lt busy =
      sendmsg_found (suc fuel) ch msg other false lt
      ∙ transmit_gave_up i referenced holding (stored i m d at.slot referenced) (suc fuel) ch msg
          other false m.mmio (wait_gave_up fuel ch other m.mmio busy)
      ∙ rw set-set

  -- With references left, unregister answers -1 and keeps the global semaphore.
  pub unregister_refused :
      base ≢ 0 → pos 1 ≤ℤ m.ref_cnt → unregister base d ≡ ret (negsuc 0) (record d { sem = 0 })
  unfolding unregister
  unregister_refused nz more =
      rw
        (◌>>=◌, not_zero base nz, idle.free_sem, at.found, at.slot, lock_free, referenced_test more)
    where
      referenced_test : pos 1 ≤ℤ m.ref_cnt → ltb_ℤ (pos 0) m.ref_cnt ≡ true
      referenced_test h = ground arith

  -- With none left, the instance is gone, its interrupt off and its memory given back.
  pub unregister_done :
      base ≢ 0
      → m.ref_cnt ≤ℤ pos 0
      → unregister base d
        ≡ ret (pos 0) (record d {
          inst = del_mbox i d.inst;
          log = ((d.log ++ irq_off m.irq ∷ []) ++ unmap base ∷ []) ++ free base ∷ [];
        })
  unfolding unregister
  unregister_done nz none_left =
      rw (◌>>=◌, not_zero base nz, idle.free_sem, at.found, at.slot, lock_free, test none_left)
    where
      test : m.ref_cnt ≤ℤ pos 0 → ltb_ℤ (pos 0) m.ref_cnt ≡ false
      test h = ground arith

  pub register_again :
      (os : Os) (irq remote prio : ℕ)
      → base ≢ 0
      → register os base irq remote prio d ≡ ret (pos 0) d
  unfolding register
  register_again os irq remote prio nz = rw (◌>>=◌, not_zero base nz, idle.free_sem, at.found)

  pub register_chan_callback_found :
      (ch cb cookie : ℕ)
      → ch < max_ch
      → register_chan_callback base ch (some cb) cookie d
        ≡ ret (pos 0) (record d {
          inst = set d.inst i (
              some (record m {
                ref_cnt = m.ref_cnt +ℤ pos 1;
                chan = update m.chan ch (record (m.chan ch) { recv_cb = some cb; cookie = cookie });
              }));
        })
  unfolding register_chan_callback
  register_chan_callback_found ch cb cookie lt =
      let d1 = record d { sem = 0 } in
      rw (
        ◌>>=◌,
        lt→ltb ch max_ch lt,
        idle.free_sem,
        at.found,
        get_lem i m d1 at.slot lock_free,
        stored i m d1 at.slot referenced,
        set-set,
      )

  pub unregister_chan_callback_found :
      (ch : ℕ)
      → ch < max_ch
      → unregister_chan_callback base ch d
        ≡ ret (pos 0) (record d {
          inst = set d.inst i (
              some (record m {
                ref_cnt = m.ref_cnt -ℤ pos 1;
                chan = update m.chan ch (record (m.chan ch) { recv_cb = none; cookie = 0 });
              }));
        })
  unfolding unregister_chan_callback
  unregister_chan_callback_found ch lt =
      let m' = record m {
        chan = update m.chan ch (record (m.chan ch) { recv_cb = none; cookie = 0 });
      } in
      let d' = record d { sem = 0; inst = set d.inst i (some m') } in
      rw (
        ◌>>=◌,
        lt→ltb ch max_ch lt,
        idle.free_sem,
        at.found,
        at.slot,
        put_lem i m' d' (stored i m d at.slot m') lock_free,
        set-set,
      )
