-- ===== src/Virtio/IsrTable/Laws.antt =====
-- Which handler a write reaches, and when the interrupt is on.
use heterogeneous_multicore.Base.{
  ◌^◌, ◌%◌, ℕ, suc, ◌+◌, ◌≡◌, ◌≢◌, refl, sym, ap, subst, ◌∙◌, false, List, [], ◌∷◌, Option, none,
  some, arith, ◌==◌, if◌then◌else◌, Bool-cases, inl, inr,
}
use heterogeneous_multicore.Virtio.IsrTable.{
  IsrInfo, WrOps, find_isr_entry, entry_at, called, written, register_isr, unregister_isr, call_isr,
  Irq, mbox_interrupt_enable, mbox_interrupt_disable,
}

-- The first entry with the event, which is what find_isr_entry leads to.
abbrev pub entry_of : ℕ → List IsrInfo → Option IsrInfo
entry_of event [] = none
entry_of event (info ∷ table) = if info.event == event then some info else entry_of event table

entry_of-found :
    (event : ℕ) (table : List IsrInfo)
    → entry_at table (find_isr_entry event table) ≡ entry_of event table
unfolding find_isr_entry
entry_of-found event [] = refl
entry_of-found event (info ∷ table) = elim (Bool-cases (info.event == event)) [
  | inl e ↦ rw e refl
  | inr e ↦ rw e (later (find_isr_entry event table) (entry_of-found event table))
]
  where
    later :
        (i : Option ℕ)
        → entry_at table i ≡ entry_of event table
        → entry_at (info ∷ table) (elim i [ none ↦ none | some j ↦ some (suc j) ])
          ≡ entry_of event table
    later none e = e
    later (some i) e = e

-- Events are at most once in the table, free entries apart.
abbrev pub Distinct : List IsrInfo → Type 0
Distinct [] = Unit
Distinct (info ∷ table) = (info.event ≢ 0 → entry_of info.event table ≡ none) × Distinct table

-- The first entry with the event is replaced.
abbrev replace : ℕ → IsrInfo → List IsrInfo → List IsrInfo
replace event info [] = []
replace event info (x ∷ table) =
    if x.event == event then info ∷ table else x ∷ replace event info table

written-replace :
    (event : ℕ) (info : IsrInfo) (table : List IsrInfo)
    → written (find_isr_entry event table) info table ≡ replace event info table
unfolding find_isr_entry
written-replace event info [] = refl
written-replace event info (x ∷ table) = elim (Bool-cases (x.event == event)) [
  | inl e ↦ rw e refl
  | inr e ↦ rw e (later (find_isr_entry event table) (written-replace event info table))
]
  where
    later :
        (i : Option ℕ)
        → written i info table ≡ replace event info table
        → written (elim i [ none ↦ none | some j ↦ some (suc j) ]) info (x ∷ table)
          ≡ x ∷ replace event info table
    later none e = ap (λ t. x ∷ t) e
    later (some j) e = ap (λ t. x ∷ t) e

replace-missing :
    (event : ℕ) (info : IsrInfo) (table : List IsrInfo)
    → entry_of event table ≡ none
    → replace event info table ≡ table
replace-missing event info [] missing = refl
replace-missing event info (x ∷ table) missing = ground (arith, replace-missing event info table)

-- An entry for an event that is not there is put at a free place.
entry_of-put :
    (info : IsrInfo) (table : List IsrInfo) (x : ℕ)
    → x ≢ 0
    → entry_of info.event table ≡ none
    → entry_of 0 table ≢ none
    → entry_of x (replace 0 info table) ≡ (if info.event == x then some info else entry_of x table)
entry_of-put info [] x ne new free = absurd (free refl)
entry_of-put info (y ∷ table) x ne new free = ground (arith, entry_of-put info table x)

entry_of-cleared :
    (event : ℕ) (table : List IsrInfo) (x : ℕ)
    → event ≢ 0
    → x ≢ 0
    → Distinct table
    → let blank : IsrInfo = record { event = 0; write_cb = none; isr_data = 0 } in
      entry_of x (replace event blank table) ≡ (if event == x then none else entry_of x table)
entry_of-cleared event [] x ne ne' d = ground arith
entry_of-cleared event (y ∷ table) x ne ne' d = elim (Bool-cases (y.event == event)) [
  | inr e ↦ rw e (ground (arith, entry_of-cleared event table x ne ne' d.1))
  | inl e ↦
      let same : y.event ≡ event = ground arith in
      let gone : entry_of event table ≡ none =
        subst (λ v. entry_of v table ≡ none) same (d.0 (λ z. ne (sym same ∙ z))) in
      elim (Bool-cases (event == x)) [
        | inr e' ↦ rw (e, e') (ground (arith, same))
        | inl e' ↦
            let here : event ≡ x = ground arith in
            let gone' = subst (λ v. entry_of v table ≡ none) here gone in
            rw (e, e') (ground (arith, gone'))
      ]
]

Distinct-put :
    (info : IsrInfo) (table : List IsrInfo)
    → entry_of info.event table ≡ none
    → entry_of 0 table ≢ none
    → Distinct table
    → Distinct (replace 0 info table)
Distinct-put info [] new free d = tt
Distinct-put info (y ∷ table) new free d = elim (Bool-cases (y.event == 0)) [
  | inl e ↦ rw e ((λ ne. ground (arith, new)), d.1)
  | inr e ↦
      let new' : entry_of info.event table ≡ none = ground (arith, new) in
      let apart : (info.event == y.event) ≡ false = ground (arith, new) in
      let free' = λ (z : entry_of 0 table ≡ none). free (rw e z) in
      rw e (
        (λ ne. entry_of-put info table y.event ne new' free' ∙ rw apart (d.0 ne)),
        Distinct-put info table new' free' d.1,
      )
]

call_isr-entry :
    (w : WrOps) (table : List IsrInfo) → call_isr w table ≡ called w (entry_of w.mmio_base table)
unfolding call_isr
call_isr-entry w table = ap (called w) (entry_of-found w.mmio_base table)

-- A handler that is registered for an event, which is not registered yet and for which there is a free
-- entry, is called for the writes of that event with the address, the length and its own data; the
-- writes of other events reach whom they reached before. A handler that is then unregistered is not
-- called any more, and the others are.
pub register_isr-calls :
    (event fn isr_data : ℕ) (table : List IsrInfo)
    → event ≢ 0
    → entry_of event table ≡ none
    → entry_of 0 table ≢ none
    → Distinct table
    → let table' = register_isr event (some fn) isr_data table in
      Distinct table'
      × ((w : WrOps)
          → w.mmio_base ≢ 0
          → call_isr w table' ≡ (
              if event == w.mmio_base
              then some (record {
                write_cb = fn;
                addr = (w.mmio_base + w.off) % 2 ^ 64;
                len = w.len;
                isr_data = isr_data;
              })
              else call_isr w table))
      × ((w : WrOps)
          → w.mmio_base ≢ 0
          → call_isr w (unregister_isr event table')
            ≡ (if event == w.mmio_base then none else call_isr w table))
unfolding register_isr unregister_isr
register_isr-calls event fn isr_data table ne new free d =
    let info : IsrInfo = record { event = event; write_cb = some fn; isr_data = isr_data } in
    let blank : IsrInfo = record { event = 0; write_cb = none; isr_data = 0 } in
    let table' = replace 0 info table in
    let apart = Distinct-put info table new free d in
    rw (written-replace 0 info table, written-replace event blank table')
      (
        apart,
        (λ w ne'.
            call_isr-entry w table'
            ∙ ap (called w) (entry_of-put info table w.mmio_base ne' new free)
            ∙ either w event (some info) table),
        (λ w ne'.
            call_isr-entry w (replace event blank table')
            ∙ ap (called w) (
                entry_of-cleared event table' w.mmio_base ne ne' apart
                ∙ ground (arith, entry_of-put info table w.mmio_base ne' new free))
            ∙ either w event none table),
      )
  where
    either :
        (w : WrOps) (event : ℕ) (r : Option IsrInfo) (table : List IsrInfo)
        → called w (if event == w.mmio_base then r else entry_of w.mmio_base table)
          ≡ (if event == w.mmio_base then called w r else call_isr w table)
    either w event r table = elim (Bool-cases (event == w.mmio_base)) [
      | inl e ↦ rw e refl
      | inr e ↦ rw e (sym (call_isr-entry w table))
    ]

-- A full table: the handler is not registered, and the caller is not told.
register_isr-full :
    (event : ℕ) (fn : Option ℕ) (isr_data : ℕ) (table : List IsrInfo)
    → entry_of 0 table ≡ none
    → register_isr event fn isr_data table ≡ table
unfolding register_isr
register_isr-full event fn isr_data table full =
    written-replace 0 _ table ∙ replace-missing 0 _ table full

-- The interrupt is on just when it is not disabled.
abbrev pub IrqOk : Irq → Type 0
IrqOk s = s.enabled ≡ (s.disable_counter == 0)

pub data IrqOp : Type 0 where
  enable disable : IrqOp

abbrev pub irq_run : List IrqOp → Irq → Irq
irq_run [] s = s
irq_run (enable ∷ ops) s = irq_run ops (mbox_interrupt_enable s)
irq_run (disable ∷ ops) s = irq_run ops (mbox_interrupt_disable s)

-- Whatever calls disable and enable the interrupt, in any nesting, it is on just when the counter is
-- 0, if it is at first.
pub irq_run-IrqOk : (ops : List IrqOp) (s : Irq) → IrqOk s → IrqOk (irq_run ops s)
unfolding mbox_interrupt_enable mbox_interrupt_disable
irq_run-IrqOk [] s ok = ok
irq_run-IrqOk (enable ∷ ops) s ok = irq_run-IrqOk ops (mbox_interrupt_enable s) (ground arith)
irq_run-IrqOk (disable ∷ ops) s ok = irq_run-IrqOk ops (mbox_interrupt_disable s) (ground arith)
