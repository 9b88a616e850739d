-- ===== src/Mailbox/Api/Missing.antt =====
-- The API calls of the mailbox for an address that no instance has.
use heterogeneous_multicore.Base.{ℕ, ◌≡◌, ◌≢◌, Bool, true, false, [], ◌∷◌, ◌++◌, none, some, ltb}
use heterogeneous_multicore.Base.Int.{pos, negsuc}
use heterogeneous_multicore.Mailbox.State.{Mmio, Driver, ret, ◌>>=◌, max_ch, irq_on, unmap, free}
use heterogeneous_multicore.Mailbox.Api.{
  get_instance, sendmsg, register_chan_callback, unregister_chan_callback, register, unregister, Os,
  is_zero, new_mbox, add_mbox,
}
use heterogeneous_multicore.Mailbox.Api.Calls.{IsIdle, not_zero}

module _ (base : ℕ) (d : Driver) (idle : IsIdle d) (missing : get_instance base d.inst ≡ none) where
  pub sendmsg_missing :
      (fuel ch msg : ℕ) (other : Mmio → Mmio) (block : Bool)
      → ltb ch max_ch ≡ true
      → sendmsg fuel other base ch msg block d ≡ ret (negsuc 0) d
  unfolding sendmsg
  sendmsg_missing fuel ch msg other block lt = rw (◌>>=◌, lt, idle.free_sem, missing)

  pub register_chan_callback_missing :
      (ch cb cookie : ℕ)
      → ltb ch max_ch ≡ true
      → register_chan_callback base ch (some cb) cookie d ≡ ret (negsuc 0) d
  unfolding register_chan_callback
  register_chan_callback_missing ch cb cookie lt = rw (◌>>=◌, lt, idle.free_sem, missing)

  pub unregister_chan_callback_missing :
      (ch : ℕ) → ltb ch max_ch ≡ true → unregister_chan_callback base ch d ≡ ret (negsuc 0) d
  unfolding unregister_chan_callback
  unregister_chan_callback_missing ch lt = rw (◌>>=◌, lt, idle.free_sem, missing)

  pub unregister_missing : base ≢ 0 → unregister base d ≡ ret (pos 0) d
  unfolding unregister
  unregister_missing nz = rw (◌>>=◌, not_zero base nz, idle.free_sem, missing)

  -- Registration, by what the system answers: the three failures and the success.
  module _ (os : Os) (irq remote prio : ℕ) (nz : base ≢ 0) where
    pub register_no_memory :
        os.malloc ≡ false → register os base irq remote prio d ≡ ret (negsuc 0) d
    unfolding register
    register_no_memory m = rw (◌>>=◌, not_zero base nz, idle.free_sem, missing, m)

    pub register_no_mapping :
        os.malloc ≡ true
        → is_zero os.mmu_map ≡ false
        → register os base irq remote prio d
          ≡ ret (negsuc 1) (record d { log = d.log ++ free base ∷ [] })
    unfolding register
    register_no_mapping m p = rw (◌>>=◌, not_zero base nz, idle.free_sem, missing, m, p)

    pub register_no_lock :
        os.malloc ≡ true
        → is_zero os.mmu_map ≡ true
        → is_zero os.sem_init ≡ false
        → register os base irq remote prio d
          ≡ ret os.sem_init (record d { log = (d.log ++ unmap base ∷ []) ++ free base ∷ [] })
    unfolding register
    register_no_lock m p s = rw (◌>>=◌, not_zero base nz, idle.free_sem, missing, m, p, s)

    pub register_added :
        os.malloc ≡ true
        → is_zero os.mmu_map ≡ true
        → is_zero os.sem_init ≡ true
        → register os base irq remote prio d
          ≡ ret (pos 0) (record d {
            inst = (add_mbox (new_mbox os base irq remote) d.inst).1;
            log = d.log ++ irq_on irq prio ∷ [];
          })
    unfolding register
    register_added m p s = rw (◌>>=◌, not_zero base nz, idle.free_sem, missing, m, p, s)
