-- ===== src/Mailbox/State.antt =====
-- Registers, instances and the global state of libs/gen_sw_mbox/gen_sw_mbox.c, and the monad of
-- its API calls: a call returns, waits for ever on a semaphore, or fails an assertion.
use heterogeneous_multicore.Base.{
  ℕ, ◌+◌, ◌-◌, Bool, List, [], ◌∷◌, ◌++◌, Option, none, some, ◌==◌, if◌then◌else◌, get_elem?, set,
}
use heterogeneous_multicore.Base.Int.{ℤ}

-- MAX_CH and MBOX_MAX_INST
abbrev pub max_ch : ℕ
max_ch = 4

abbrev pub mbox_max_inst : ℕ
mbox_max_inst = 4

-- `enum gen_sw_mbox_chan_status`; a status register is a 32-bit word that is compared with these.
abbrev pub s_ready : ℕ
s_ready = 0

abbrev pub s_busy : ℕ
s_busy = 1

abbrev pub s_done : ℕ
s_done = 2

-- `struct gen_sw_mbox_mmio`, by the names that one side gives the registers.
pub record Mmio : Type 0 where
  pub tx_status : ℕ → ℕ
  pub rx_status : ℕ → ℕ
  pub tx_ch : ℕ → ℕ
  pub rx_ch : ℕ → ℕ
  pub ch_ack_flags : ℕ

-- The two layouts of the structure: what is TX on one side is RX on the other.
unfoldable pub peer : Mmio → Mmio
peer r = record {
  tx_status = r.rx_status;
  rx_status = r.tx_status;
  tx_ch = r.rx_ch;
  rx_ch = r.tx_ch;
  ch_ack_flags = r.ch_ack_flags;
}

-- `struct gen_sw_mbox_chan`: a function pointer that may be NULL, and the pointer it is given.
pub record Chan : Type 0 where
  pub id : ℕ
  pub recv_cb : Option ℕ
  pub cookie : ℕ

-- `struct gen_sw_mbox`, with the registers that it maps; `lock` is the count of its semaphore.
pub record Mbox : Type 0 where
  pub mmio_pa : ℕ
  pub mmio : Mmio
  pub irq : ℕ
  pub remote_irq : ℕ
  pub chan : ℕ → Chan
  pub ref_cnt : ℤ
  pub lock : ℕ

-- What the driver asks of the rest of the system, in order.
pub data Effect : Type 0 where
  -- GIC_SetPendingIRQ
  pend : ℕ → Effect
  -- recv_cb(data, msg)
  call : ℕ → ℕ → ℕ → Effect
  -- os_irq_register(irq, handler, mbox, prio), then os_irq_enable
  irq_on : ℕ → ℕ → Effect
  -- os_irq_disable, then os_irq_unregister
  irq_off : ℕ → Effect
  unmap : ℕ → Effect
  free : ℕ → Effect

-- `mbox_inst`, `gen_sw_mbox_semaphore` and `is_inited`. A pointer to an instance is its place in
-- the table.
pub record Driver : Type 0 where
  pub inst : List (Option Mbox)
  pub sem : ℕ
  pub is_inited : Bool
  pub log : List Effect

pub data Out (A : Type 0) : Type 0 where
  ret : A → Driver → Out A
  -- waits on a semaphore that nobody gives
  blocked : Out A
  asserted : Out A

abbrev pub M : Type 0 → Type 0
M A = Driver → Out A

abbrev pub pure : {A : Type 0} → A → M A
pure a d = ret a d

infixl 5 ◌>>=◌ ◌>>◌
abbrev pub ◌>>=◌ : {A B : Type 0} → M A → (A → M B) → M B
◌>>=◌ m f d = elim (m d) [ ret a d' ↦ f a d' | blocked ↦ blocked | asserted ↦ asserted ]

abbrev pub ◌>>◌ : {B : Type 0} → M (Unit {0}) → M B → M B
m >> k = m >>= λ _. k

abbrev pub os_assert : Bool → M (Unit {0})
os_assert ok d = if ok then ret tt d else asserted

-- os_sem_take with OS_SEM_TIMEOUT_MAX, and os_sem_give, on `gen_sw_mbox_semaphore`
abbrev pub sem_take : M (Unit {0})
sem_take d = if d.sem == 0 then blocked else ret tt (record d { sem = d.sem - 1 })

abbrev pub sem_give : M (Unit {0})
sem_give d = ret tt (record d { sem = d.sem + 1 })

abbrev pub emit : Effect → M (Unit {0})
emit e d = ret tt (record d { log = d.log ++ e ∷ [] })

abbrev pub flatten_slot : Option (Option Mbox) → Option Mbox
flatten_slot none = none
flatten_slot (some o) = o

-- Reading through a pointer; NULL fails the assertion of `gen_sw_mbox_get` and its like.
abbrev pub load : ℕ → M Mbox
load i d = elim (flatten_slot (get_elem? d.inst i)) [ none ↦ asserted | some m ↦ ret m d ]

abbrev pub store : ℕ → Mbox → M (Unit {0})
store i m d = ret tt (record d { inst = set d.inst i (some m) })

-- The code between taking an instance's lock and giving it back changes the instance by `f`.
abbrev pub with_lock : ℕ → (Mbox → Mbox) → M (Unit {0})
with_lock i f = load i >>= λ m d. if m.lock == 0 then blocked else store i (f m) d
