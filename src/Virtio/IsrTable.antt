-- ===== src/Virtio/IsrTable.antt =====
-- The table of interrupt handlers and the nested disabling of the interrupt in
-- virtio/mailbox/generic_software_mailbox.c.
pub mod Laws
use heterogeneous_multicore.Base.{
  ℕ, zero, suc, ◌+◌, ◌-◌, ◌%◌, ◌^◌, Bool, true, false, List, [], ◌∷◌, Option, none, some, ◌==◌, ltb,
  if◌then◌else◌, get_elem?, set,
}

-- `struct isr_info`; the functions are named by numbers.
pub record IsrInfo : Type 0 where
  pub event : ℕ
  pub write_cb : Option ℕ
  pub isr_data : ℕ

-- What the callback of the front end's write is called with.
pub record WriteCall : Type 0 where
  pub write_cb : ℕ
  pub addr : ℕ
  pub len : ℕ
  pub isr_data : ℕ

-- `struct virtio_mmio_wr_ops`
pub record WrOps : Type 0 where
  pub mmio_base : ℕ
  pub off : ℕ
  pub val : ℕ
  pub len : ℕ

abbrev pub one_on : Option ℕ → Option ℕ
one_on none = none
one_on (some i) = some (suc i)

-- The index of the first entry with the event; none stands for -1.
unfoldable pub find_isr_entry : ℕ → List IsrInfo → Option ℕ
find_isr_entry event [] = none
find_isr_entry event (info ∷ table) =
    let later = one_on (find_isr_entry event table) in if info.event == event then some 0 else later

-- isr_table[idx] = info
abbrev written : Option ℕ → IsrInfo → List IsrInfo → List IsrInfo
written none info table = table
written (some idx) info table = set table idx info

unfoldable pub register_isr : ℕ → Option ℕ → ℕ → List IsrInfo → List IsrInfo
unfolding find_isr_entry
register_isr event fn isr_data table =
    written (find_isr_entry 0 table) (record { event = event; write_cb = fn; isr_data = isr_data })
      table

unfoldable pub unregister_isr : ℕ → List IsrInfo → List IsrInfo
unfolding find_isr_entry
unregister_isr event table =
    written (find_isr_entry event table) (record { event = 0; write_cb = none; isr_data = 0 }) table

abbrev called : WrOps → Option IsrInfo → Option WriteCall
called w none = none
called w (some info) = elim info.write_cb [
  | none ↦ none
  | some f ↦ some (record {
    write_cb = f;
    addr = (w.mmio_base + w.off) % 2 ^ 64;
    len = w.len;
    isr_data = info.isr_data;
  })
]

abbrev entry_at : List IsrInfo → Option ℕ → Option IsrInfo
entry_at table none = none
entry_at table (some idx) = get_elem? table idx

-- call_isr: the call that is made, if there is one.
unfoldable pub call_isr : WrOps → List IsrInfo → Option WriteCall
unfolding find_isr_entry
call_isr w table = called w (entry_at table (find_isr_entry w.mmio_base table))

-- `disable_counter` and the interrupt at the controller. `halted` says that an assertion failed.
pub record Irq : Type 0 where
  pub disable_counter : ℕ
  pub enabled : Bool
  pub halted : Bool

unfoldable pub mbox_interrupt_enable : Irq → Irq
mbox_interrupt_enable s =
    if ltb 0 s.disable_counter
    then record s {
      disable_counter = s.disable_counter - 1;
      enabled = if s.disable_counter - 1 == 0 then true else s.enabled;
    }
    else record s { halted = true }

unfoldable pub mbox_interrupt_disable : Irq → Irq
mbox_interrupt_disable s = record s {
  disable_counter = s.disable_counter + 1;
  enabled = if s.disable_counter == 0 then false else s.enabled;
}
