-- ===== src/Mailbox/Api/Full.antt =====
-- Registration when every place of the table is taken.
use heterogeneous_multicore.Base.{
  ℕ, ◌<◌, ◌≡◌, refl, ◌≢◌, ap, Bool, true, List, [], ◌∷◌, ◌++◌, Option, none, some, lt→ltb,
}
use heterogeneous_multicore.Base.Int.{pos, negsuc}
use heterogeneous_multicore.Mailbox.State.{Mmio, Mbox, Driver, ret, max_ch, irq_on}
use heterogeneous_multicore.Mailbox.Api.{
  get_instance, add_mbox, sendmsg, register, Os, is_zero, new_mbox,
}
use heterogeneous_multicore.Mailbox.Api.Calls.{IsIdle}
use heterogeneous_multicore.Mailbox.Api.Missing.{register_added, sendmsg_missing}

abbrev pub IsFull : List (Option Mbox) → Type 0
IsFull [] = Unit
IsFull (none ∷ rest) = ⊥
IsFull (some m ∷ rest) = IsFull rest

add_mbox_full : (m : Mbox) (t : List (Option Mbox)) → IsFull t → (add_mbox m t).1 ≡ t
unfolding add_mbox
add_mbox_full m [] full = refl
add_mbox_full m (none ∷ t) full = absurd full
add_mbox_full m (some x ∷ t) full = ap (λ r. some x ∷ r) (add_mbox_full m t full)

-- What the system grants to a registration that succeeds.
pub record Granted (os : Os) : Type 0 where
  pub memory : os.malloc ≡ true
  pub mapping : is_zero os.mmu_map ≡ true
  pub lock : is_zero os.sem_init ≡ true

-- With every place taken and everything granted, the registration of a new address answers 0 and
-- turns its interrupt on, but the table has not changed: every later send to the address answers -1.
pub register_full_then_send :
    (base : ℕ) (d : Driver) (os : Os) (irq remote prio fuel ch msg : ℕ) (other : Mmio → Mmio)
    (block : Bool)
    → IsIdle d
    → IsFull d.inst
    → get_instance base d.inst ≡ none
    → base ≢ 0
    → Granted os
    → ch < max_ch
    → let d' = record d { log = d.log ++ irq_on irq prio ∷ [] } in
      (register os base irq remote prio d ≡ ret (pos 0) d')
      × (sendmsg fuel other base ch msg block d' ≡ ret (negsuc 0) d')
register_full_then_send base d os irq remote prio fuel ch msg other block idle full missing nz g
      lt =
    (
      rw (
        register_added base d idle missing os irq remote prio nz g.memory g.mapping g.lock,
        add_mbox_full (new_mbox os base irq remote) d.inst full,
      ),
      sendmsg_missing base (record d { log = d.log ++ irq_on irq prio ∷ [] })
          (record { free_sem = idle.free_sem; unlocked = idle.unlocked }) missing fuel ch msg other
          block (lt→ltb ch max_ch lt),
    )
