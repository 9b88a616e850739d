-- ===== src/Mailbox/Api.antt =====
-- The functions of libs/gen_sw_mbox/gen_sw_mbox.c that other code calls.
pub mod Table
pub mod Calls
pub mod Missing
pub mod Full
pub mod Ops
pub mod Endings
pub mod Locks
use mathlib.Core.Option
use heterogeneous_multicore.Base.{
  ℕ, zero, suc, Bool, true, false, not, List, [], ◌∷◌, Option, none, some, ltb, ◌==◌, if◌then◌else◌,
  update, set, is_some,
}
use heterogeneous_multicore.Base.Int.{ℤ, pos, negsuc, ◌+ℤ◌, ◌-ℤ◌, ltb_ℤ}
use heterogeneous_multicore.Mailbox.State.{
  Mmio, Mbox, M, ret, blocked, asserted, pure, ◌>>=◌, ◌>>◌, os_assert, sem_take, sem_give, emit,
  load, store, with_lock, max_ch, s_ready, s_busy, pend, irq_on, irq_off, unmap, free,
}

abbrev holds : ℕ → Option Mbox → Bool
holds base none = false
holds base (some m) = m.mmio_pa == base

unfoldable pub get_instance : ℕ → List (Option Mbox) → Option ℕ
get_instance base [] = none
get_instance base (o ∷ rest) =
    if holds base o then some 0 else Option.map suc (get_instance base rest)

abbrev find : ℕ → M (Option ℕ)
find base d = ret (get_instance base d.inst) d

-- gen_sw_mbox_get and gen_sw_mbox_put
unfoldable pub get : ℕ → M (Unit {0})
get i = with_lock i (λ m. record m { ref_cnt = m.ref_cnt +ℤ pos 1 })

unfoldable pub put : ℕ → M (Unit {0})
put i = with_lock i (λ m. record m { ref_cnt = m.ref_cnt -ℤ pos 1 })

pub data Waited : Type 0 where
  ready : Mmio → Waited
  gave_up : Mmio → Waited
  spinning : Waited

-- `while (mmio->tx_status[ch] != S_READY) { if (!block) return -2; }`, for at most so many reads;
-- `other` is what the peer and the interrupt handler do between two reads.
unfoldable pub wait : ℕ → Bool → ℕ → (Mmio → Mmio) → Mmio → Waited
wait zero block ch other r = spinning
wait (suc fuel) block ch other r = elim (r.tx_status ch == s_ready) [
  | true ↦ ready r
  | false ↦ elim block [ true ↦ wait fuel true ch other (other r) | false ↦ gave_up r ]
]

-- Writing the message and the status.
unfoldable pub post : ℕ → ℕ → Mmio → Mmio
post ch msg r = record r { tx_ch = update r.tx_ch ch msg; tx_status = update r.tx_status ch s_busy }

module _ (fuel : ℕ) (other : Mmio → Mmio) where
  -- The part of `gen_sw_mbox_sendmsg` after the instance is found.
  unfoldable pub transmit : ℕ → ℕ → ℕ → Bool → M ℤ
  transmit i ch msg block = load i >>= λ m. elim (wait fuel block ch other m.mmio) [
    | spinning ↦ λ d. blocked
    | gave_up r ↦ store i (record m { mmio = r }) >> pure (negsuc 1)
    | ready r ↦
        store i (record m { mmio = post ch msg r })
        >> emit (pend m.remote_irq)
        >> put i
        >> pure (pos 0)
  ]

  unfoldable pub sendmsg : ℕ → ℕ → ℕ → Bool → M ℤ
  sendmsg base ch msg block = do
    os_assert (ltb ch max_ch)
    sem_take
    found ← find base
    elim found [
      | none ↦ sem_give >> pure (negsuc 0)
      | some i ↦ get i >> sem_give >> transmit i ch msg block
    ]

unfoldable pub register_chan_callback : ℕ → ℕ → Option ℕ → ℕ → M ℤ
register_chan_callback base ch recv_cb cookie = do
  os_assert (ltb ch max_ch)
  os_assert (is_some recv_cb)
  sem_take
  found ← find base
  elim found [
    | none ↦ sem_give >> pure (negsuc 0)
    | some i ↦ get i >> sem_give >> load i >>= λ m.
        store i (record m {
          chan = update m.chan ch (record (m.chan ch) { recv_cb = recv_cb; cookie = cookie });
        })
        >> pure (pos 0)
  ]

unfoldable pub unregister_chan_callback : ℕ → ℕ → M ℤ
unregister_chan_callback base ch = do
  os_assert (ltb ch max_ch)
  sem_take
  found ← find base
  elim found [
    | none ↦ sem_give >> pure (negsuc 0)
    | some i ↦ load i >>= λ m.
        store i
          (record m { chan = update m.chan ch (record (m.chan ch) { recv_cb = none; cookie = 0 }) })
        >> put i
        >> sem_give
        >> pure (pos 0)
  ]

-- gen_sw_mbox_del_mbox, on the place of the instance
unfoldable pub del_mbox : ℕ → List (Option Mbox) → List (Option Mbox)
del_mbox i table = set table i none

-- gen_sw_mbox_add_mbox: the first free place, or -1
unfoldable pub add_mbox : Mbox → List (Option Mbox) → ℤ × List (Option Mbox)
add_mbox m [] = (negsuc 0, [])
add_mbox m (none ∷ rest) = (pos 0, some m ∷ rest)
add_mbox m (some x ∷ rest) = let (r, rest') = add_mbox m rest in (r, some x ∷ rest')

-- gen_sw_mbox_init, with what os_sem_init returned, and gen_sw_mbox_deinit
unfoldable pub init : ℤ → M (Unit {0})
init err d =
    if d.is_inited
    then ret tt d
    else elim err [ pos zero ↦ ret tt (record d { sem = 1; is_inited = true }) | _ ↦ asserted ]

unfoldable pub deinit : M (Unit {0})
deinit d = if d.is_inited then ret tt (record d { is_inited = false }) else ret tt d

-- What the system answers to a registration, and what the memory holds that it hands over.
pub record Os : Type 0 where
  pub malloc : Bool
  pub mmu_map : ℤ
  pub sem_init : ℤ
  pub memory : Mmio
  pub heap : ℕ → ℕ

abbrev pub new_mbox : Os → ℕ → ℕ → ℕ → Mbox
new_mbox os base irq remote_irq = record {
  mmio_pa = base;
  mmio = record (os.memory) {
    rx_status = λ i. if ltb i max_ch then 0 else os.memory.rx_status i;
    tx_status = λ i. if ltb i max_ch then 0 else os.memory.tx_status i;
  };
  irq = irq;
  remote_irq = remote_irq;
  chan = λ i. record { id = i; recv_cb = none; cookie = os.heap i };
  ref_cnt = pos 0;
  lock = 1;
}

abbrev pub is_zero : ℤ → Bool
is_zero (pos n) = n == 0
is_zero (negsuc n) = false

abbrev insert_mbox : Mbox → M (Unit {0})
insert_mbox m d = ret tt (record d { inst = (add_mbox m d.inst).1 })

unfoldable pub register : Os → ℕ → ℕ → ℕ → ℕ → M ℤ
register os base irq remote_irq prio = do
  os_assert (not (base == 0))
  sem_take
  found ← find base
  elim found [
    | some i ↦ sem_give >> pure (pos 0)
    | none ↦
        if not os.malloc
        then sem_give >> pure (negsuc 0)
        else if not (is_zero os.mmu_map)
        then emit (free base) >> sem_give >> pure (negsuc 1)
        else if not (is_zero os.sem_init)
        then emit (unmap base) >> emit (free base) >> sem_give >> pure os.sem_init
        else emit (irq_on irq prio)
          >> insert_mbox (new_mbox os base irq remote_irq)
          >> sem_give
          >> pure (pos 0)
  ]

abbrev remove_mbox : ℕ → M (Unit {0})
remove_mbox i d = ret tt (record d { inst = del_mbox i d.inst })

unfoldable pub unregister : ℕ → M ℤ
unregister base = do
  os_assert (not (base == 0))
  sem_take
  found ← find base
  elim found [
    | none ↦ sem_give >> pure (pos 0)
    | some i ↦ load i >>= λ m.
        if m.lock == 0
        then (λ d. blocked)
        else if ltb_ℤ (pos 0) m.ref_cnt
        then pure (negsuc 0)
        else remove_mbox i
          >> sem_give
          >> emit (irq_off m.irq)
          >> emit (unmap base)
          >> emit (free base)
          >> pure (pos 0)
  ]
