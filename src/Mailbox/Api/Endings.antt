-- ===== src/Mailbox/Api/Endings.antt =====
-- How each call of the mailbox API ends that begins with the locks free.
use heterogeneous_multicore.Base.{
  ℕ, ◌≡◌, refl, ◌≢◌, ◌∙◌, Bool, true, false, none, some, ltb, ltb→lt, set, set-set, Bool-cases,
  Option-cases, inl, inr, ◌⊎◌,
}
use heterogeneous_multicore.Mailbox.State.{Mmio, Mbox, Driver, max_ch}
use heterogeneous_multicore.Mailbox.Api.{
  get_instance, wait, ready, gave_up, spinning, Waited, sendmsg, register_chan_callback,
  unregister_chan_callback, register, unregister, Os, is_zero, new_mbox,
}
use heterogeneous_multicore.Mailbox.Api.Table.{
  Unlocked, Unlocked-get, Unlocked-set, Unlocked-del_mbox, Unlocked-add_mbox, get_instance-found,
}
use heterogeneous_multicore.Mailbox.Api.Calls.{
  IsIdle, At, holding, referenced, stored, sendmsg_found, transmit_gave_up, transmit_spins,
  sendmsg_ready, unregister_refused, unregister_done, register_again, register_chan_callback_found,
  unregister_chan_callback_found,
}
use heterogeneous_multicore.Mailbox.Api.Missing.{
  sendmsg_missing, register_chan_callback_missing, unregister_chan_callback_missing,
  unregister_missing, register_no_memory, register_no_mapping, register_no_lock, register_added,
}
use heterogeneous_multicore.Mailbox.Api.Ops.{send, attach, detach, add, remove, removable, Ends}

module _ (d : Driver) (idle : IsIdle d) where
  -- The instance that a search finds.
  instance-At : (base i : ℕ) → get_instance base d.inst ≡ some i → (m : Mbox) × At base i m d
  instance-At base i e =
      let (m, slot, _) = get_instance-found base d.inst i e in
      (m, record { found = e; slot = slot })

  pub written-IsIdle :
      (i : ℕ) (m : Mbox) (m' : Mbox) (base : ℕ)
      → At base i m d
      → m'.lock ≡ m.lock
      → Unlocked (set d.inst i (some m'))
  written-IsIdle i m m' base at e =
      Unlocked-set d.inst i m' idle.unlocked (e ∙ Unlocked-get d.inst i m idle.unlocked at.slot)

  pub remove-Ends : (base : ℕ) → base ≢ 0 → Ends (remove base) d (unregister base d)
  remove-Ends base nz = elim (Option-cases (get_instance base d.inst)) [
    | inl missing ↦ rw (unregister_missing base d idle missing nz) (inl idle)
    | inr (i, e) ↦ found i (instance-At base i e)
  ]
    where
      found : (i : ℕ) → (m : Mbox) × At base i m d → Ends (remove base) d (unregister base d)
      found i (m, at) = elim (removable m.ref_cnt) [
        | inl more ↦
            rw (unregister_refused base i m d idle at nz more) (inr (i, m, at, more, refl, refl))
        | inr less ↦ rw (unregister_done base i m d idle at nz less) (
            inl (record {
              free_sem = idle.free_sem;
              unlocked = Unlocked-del_mbox d.inst i idle.unlocked;
            }))
      ]

  pub send-Ends :
      (fuel ch msg : ℕ) (other : Mmio → Mmio) (base : ℕ) (block : Bool)
      → ltb ch max_ch ≡ true
      → Ends (send fuel other base ch msg block) d (sendmsg fuel other base ch msg block d)
  send-Ends fuel ch msg other base block lt = elim (Option-cases (get_instance base d.inst)) [
    | inl missing ↦ rw (sendmsg_missing base d idle missing fuel ch msg other block lt) (inl idle)
    | inr (i, e) ↦ found i (instance-At base i e)
  ]
    where
      waited :
          (i : ℕ) (m : Mbox)
          → At base i m d
          → (w : Waited) → wait fuel block ch other m.mmio ≡ w
          → Ends (send fuel other base ch msg block) d (sendmsg fuel other base ch msg block d)
      waited i m at (ready r) w =
          rw (sendmsg_ready base i m d idle at fuel ch msg other block r (ltb→lt ch max_ch lt) w) (
            inl (record { free_sem = idle.free_sem; unlocked = written-IsIdle i m _ base at refl }))
      waited i m at (gave_up r) w =
          rw
            (
              sendmsg_found base i m d idle at fuel ch msg other block (ltb→lt ch max_ch lt),
              transmit_gave_up i (referenced base i m d idle at) (holding base i m d idle at)
                  (stored i m d at.slot (referenced base i m d idle at)) fuel ch msg other block r
                  w,
              set-set,
            )
            (inl
              (record { free_sem = idle.free_sem; unlocked = written-IsIdle i m _ base at refl }))
      waited i m at spinning w =
          rw
            (
              sendmsg_found base i m d idle at fuel ch msg other block (ltb→lt ch max_ch lt),
              transmit_spins i (referenced base i m d idle at) (holding base i m d idle at)
                  (stored i m d at.slot (referenced base i m d idle at)) fuel ch msg other block w,
            )
            (i, m, at, w)

      found :
          (i : ℕ)
          → (m : Mbox) × At base i m d
          → Ends (send fuel other base ch msg block) d (sendmsg fuel other base ch msg block d)
      found i (m, at) = waited i m at (wait fuel block ch other m.mmio) refl

  pub attach-Ends :
      (base ch cb cookie : ℕ)
      → ltb ch max_ch ≡ true
      → Ends (attach base ch (some cb) cookie) d (register_chan_callback base ch (some cb) cookie d)
  attach-Ends base ch cb cookie lt = elim (Option-cases (get_instance base d.inst)) [
    | inl missing ↦
        rw (register_chan_callback_missing base d idle missing ch cb cookie lt) (inl idle)
    | inr (i, e) ↦ found i (instance-At base i e)
  ]
    where
      found :
          (i : ℕ)
          → (m : Mbox) × At base i m d
          → Ends
              (attach base ch (some cb) cookie)
              d
              (register_chan_callback base ch (some cb) cookie d)
      found i (m, at) =
          rw (register_chan_callback_found base i m d idle at ch cb cookie (ltb→lt ch max_ch lt)) (
            inl (record { free_sem = idle.free_sem; unlocked = written-IsIdle i m _ base at refl }))

  pub detach-Ends :
      (base ch : ℕ)
      → ltb ch max_ch ≡ true
      → Ends (detach base ch) d (unregister_chan_callback base ch d)
  detach-Ends base ch lt = elim (Option-cases (get_instance base d.inst)) [
    | inl missing ↦ rw (unregister_chan_callback_missing base d idle missing ch lt) (inl idle)
    | inr (i, e) ↦ found i (instance-At base i e)
  ]
    where
      found :
          (i : ℕ)
          → (m : Mbox) × At base i m d
          → Ends (detach base ch) d (unregister_chan_callback base ch d)
      found i (m, at) =
          rw (unregister_chan_callback_found base i m d idle at ch (ltb→lt ch max_ch lt)) (
            inl (record { free_sem = idle.free_sem; unlocked = written-IsIdle i m _ base at refl }))

  pub add-Ends :
      (os : Os) (base irq remote prio : ℕ)
      → base ≢ 0
      → Ends (add os base irq remote prio) d (register os base irq remote prio d)
  add-Ends os base irq remote prio nz = elim (Option-cases (get_instance base d.inst)) [
    | inl missing ↦ new missing (Bool-cases os.malloc)
    | inr (i, e) ↦
        let (m, at) = instance-At base i e in
        rw (register_again base i m d idle at os irq remote prio nz) (inl idle)
  ]
    where
      new :
          get_instance base d.inst ≡ none
          → (os.malloc ≡ true) ⊎ (os.malloc ≡ false)
          → Ends (add os base irq remote prio) d (register os base irq remote prio d)
      new missing (inr m) =
          rw (register_no_memory base d idle missing os irq remote prio nz m) (inl idle)
      new missing (inl m) = elim (Bool-cases (is_zero os.mmu_map)) [
        | inr p ↦
            rw (register_no_mapping base d idle missing os irq remote prio nz m p)
              (inl (record { free_sem = idle.free_sem; unlocked = idle.unlocked }))
        | inl p ↦ elim (Bool-cases (is_zero os.sem_init)) [
          | inr s ↦
              rw (register_no_lock base d idle missing os irq remote prio nz m p s)
                (inl (record { free_sem = idle.free_sem; unlocked = idle.unlocked }))
          | inl s ↦ rw (register_added base d idle missing os irq remote prio nz m p s) (
              inl (record {
                free_sem = idle.free_sem;
                unlocked =
                    Unlocked-add_mbox d.inst (new_mbox os base irq remote) idle.unlocked refl;
              }))
        ]
      ]
