-- ===== src/Servo/Laws.antt =====
-- A drive comes into operation, and the answers of axis_start say so.
use heterogeneous_multicore.Base.{
  ℕ, suc, zero, ◌≡◌, ◌↔◌, refl, ap, ◌∙◌, sym, subst, true, false, test_bit, arith, Bool-cases, inl,
  inr,
}
use heterogeneous_multicore.Base.Int.{ℤ, pos, negsuc}
use heterogeneous_multicore.Base.Bits.{and_not, or_bits}
use heterogeneous_multicore.Servo.{
  AxleState, no_ready_to_switch_on, switch_on_disable, ready_to_switch_on, switched_on,
  operation_enable, quick_stop_active, fault_reaction_active, fault, mask_4f, mask_6f,
  get_axle_state, Axis, start_in, axis_start, contrlword_shutdown, contrlword_switch_on,
  contrlword_enable_operation,
}

state_disabled :
    (s : ℕ) → mask_4f s ≡ 0x40 → (get_axle_state s ≡ switch_on_disable) × (test_bit s 3 ≡ false)
unfolding get_axle_state
state_disabled s e = (rw e refl, ground arith)

state_ready :
    (s : ℕ) → mask_6f s ≡ 0x21 → (get_axle_state s ≡ ready_to_switch_on) × (test_bit s 3 ≡ false)
unfolding get_axle_state
state_ready s e = ground arith

state_on : (s : ℕ) → mask_6f s ≡ 0x23 → (get_axle_state s ≡ switched_on) × (test_bit s 3 ≡ false)
unfolding get_axle_state
state_on s e = ground arith

state_enabled :
    (s : ℕ) → mask_6f s ≡ 0x27 → (get_axle_state s ≡ operation_enable) × (test_bit s 3 ≡ false)
unfolding get_axle_state
state_enabled s e = ground arith

-- axis_start without a fault, in a state that is known.
start_known :
    (si : Axis) (mode : ℕ) (a : AxleState)
    → (get_axle_state si.status_word ≡ a) × (test_bit si.status_word 3 ≡ false)
    → axis_start si mode ≡ start_in a mode si
unfolding axis_start
start_known si mode a (state, clear) = rw (clear, state) refl

-- What the state says of the status word.
shows_running : (s : ℕ) → get_axle_state s ≡ operation_enable → mask_6f s ≡ 0x27
unfolding get_axle_state
shows_running s e = ground arith

shows_quick_stop : (s : ℕ) → get_axle_state s ≡ quick_stop_active → mask_6f s ≡ 0x07
unfolding get_axle_state
shows_quick_stop s e = ground arith

shows_fault : (s : ℕ) → get_axle_state s ≡ fault → test_bit s 3 ≡ true
unfolding get_axle_state
shows_fault s e = ground arith

shows_reaction : (s : ℕ) → get_axle_state s ≡ fault_reaction_active → test_bit s 3 ≡ true
unfolding get_axle_state
shows_reaction s e = ground arith

state_quick_stop :
    (s : ℕ) → mask_6f s ≡ 0x07 → (get_axle_state s ≡ quick_stop_active) × (test_bit s 3 ≡ false)
unfolding get_axle_state
state_quick_stop s e = ground arith

-- What an answer says of the status word.
abbrev Tells : Axis → ℤ → Type 0
Tells si r =
    (r ≡ pos 1 → mask_6f si.status_word ≡ 0x27) × (r ≡ negsuc 0 → mask_6f si.status_word ≡ 0x07)

start_in-Tells :
    (si : Axis) (mode : ℕ) (a : AxleState)
    → get_axle_state si.status_word ≡ a
    → test_bit si.status_word 3 ≡ false
    → Tells si (start_in a mode si).0
unfolding start_in
start_in-Tells si mode no_ready_to_switch_on e clear = ((λ h. cc), λ h. cc)
start_in-Tells si mode switch_on_disable e clear = ((λ h. cc), λ h. cc)
start_in-Tells si mode ready_to_switch_on e clear = ((λ h. cc), λ h. cc)
start_in-Tells si mode switched_on e clear = ((λ h. cc), λ h. cc)
start_in-Tells si mode operation_enable e clear = ((λ h. shows_running si.status_word e), λ h. cc)
start_in-Tells si mode quick_stop_active e clear =
    ((λ h. cc), λ h. shows_quick_stop si.status_word e)
start_in-Tells si mode fault_reaction_active e clear =
    let set = shows_reaction si.status_word e in ((λ h. cc), λ h. cc)
start_in-Tells si mode fault e clear =
    let set = shows_fault si.status_word e in ((λ h. cc), λ h. cc)

axis_start-Tells : (si : Axis) (mode : ℕ) → Tells si (axis_start si mode).0
unfolding axis_start
axis_start-Tells si mode = elim (Bool-cases (test_bit si.status_word 3)) [
  | inl set ↦ rw set ((λ h. cc), λ h. cc)
  | inr clear ↦ rw clear (start_in-Tells si mode (get_axle_state si.status_word) refl clear)
]

-- Whatever the drive shows: the answer is 1 just when the status word says that the drive is in
-- operation, and -1 just when it says that a quick stop is active. So a fault never ends the start.
pub axis_start_answers :
    (si : Axis) (mode : ℕ)
    → (((axis_start si mode).0 ≡ pos 1) ↔ (mask_6f si.status_word ≡ 0x27))
      × (((axis_start si mode).0 ≡ negsuc 0) ↔ (mask_6f si.status_word ≡ 0x07))
unfolding start_in
axis_start_answers si mode =
    let (running, stopped) = axis_start-Tells si mode in
    (
      (
        running,
        λ e.
            ap (λ (r : ℤ × Axis). r.0)
              (start_known si mode operation_enable (state_enabled si.status_word e)),
      ),
      (
        stopped,
        λ e.
            ap (λ (r : ℤ × Axis). r.0)
              (start_known si mode quick_stop_active (state_quick_stop si.status_word e)),
      ),
    )

-- A drive: the status word that it shows, and what it becomes on a control word and a mode.
module _ {D : Type 0} (status : D → ℕ) (next : D → ℕ → ℕ → D) (mode : ℕ) where
  abbrev pub seen : D × Axis → Axis
  seen (d, si) = record si { status_word = status d }

  abbrev pub answer : D × Axis → ℤ
  answer s = (axis_start (seen s) mode).0

  -- One round of the cyclic task.
  abbrev pub cycle : D × Axis → D × Axis
  cycle s = let si = (axis_start (seen s) mode).1 in (next s.0 si.control_word si.op_mode, si)

  abbrev pub cycles : ℕ → D × Axis → D × Axis
  cycles zero s = s
  cycles (suc n) s = cycles n (cycle s)

  -- In operation, and told so by the control word.
  abbrev Running : D × Axis → Type 0
  Running (d, si) = (mask_6f (status d) ≡ 0x27) × (si.control_word ≡ 0xF) × (si.op_mode ≡ mode)

  cycle_known :
      (s : D × Axis) (a : AxleState)
      → (get_axle_state (status s.0) ≡ a) × (test_bit (status s.0) 3 ≡ false)
      → cycle s
        ≡ (let si = (start_in a mode (seen s)).1 in (next s.0 si.control_word si.op_mode, si))
  cycle_known s a known =
      ap (λ r. let si = r.1 in (next s.0 si.control_word si.op_mode, si))
        (start_known (seen s) mode a known)

  module _
      (disabled : (d : D) (m : ℕ)
        → mask_4f (status d) ≡ 0x40
        → mask_6f (status (next d 0x6 m)) ≡ 0x21)
      (ready : (d : D) (m : ℕ) → mask_6f (status d) ≡ 0x21 → mask_6f (status (next d 0x7 m)) ≡ 0x23)
      (on : (d : D) → mask_6f (status d) ≡ 0x23 → mask_6f (status (next d 0xF mode)) ≡ 0x27)
      (enabled : (d : D)
        → mask_6f (status d) ≡ 0x27
        → mask_6f (status (next d 0xF mode)) ≡ 0x27) where
    from_disabled :
        (s : D × Axis) → mask_4f (status s.0) ≡ 0x40 → mask_6f (status (cycle s).0) ≡ 0x21
    unfolding start_in contrlword_shutdown and_not or_bits
    from_disabled s e =
        ap (λ (r : D × Axis). mask_6f (status r.0))
          (cycle_known s switch_on_disable (state_disabled (status s.0) e))
        ∙ disabled s.0 s.1.op_mode e

    from_ready : (s : D × Axis) → mask_6f (status s.0) ≡ 0x21 → mask_6f (status (cycle s).0) ≡ 0x23
    unfolding start_in contrlword_switch_on and_not or_bits
    from_ready s e =
        ap (λ (r : D × Axis). mask_6f (status r.0))
          (cycle_known s ready_to_switch_on (state_ready (status s.0) e))
        ∙ ready s.0 s.1.op_mode e

    from_on : (s : D × Axis) → mask_6f (status s.0) ≡ 0x23 → Running (cycle s)
    unfolding start_in contrlword_enable_operation and_not or_bits
    from_on s e =
        subst Running (sym (cycle_known s switched_on (state_on (status s.0) e)))
          (on s.0 e, refl, refl)

    stays : (s : D × Axis) → Running s → Running (cycle s)
    unfolding start_in
    stays (d, si) (e, word, op) =
        subst Running (sym (cycle_known (d, si) operation_enable (state_enabled (status d) e))) (
          ap (λ w. mask_6f (status (next d w si.op_mode))) word
              ∙ ap (λ m. mask_6f (status (next d 0xF m))) op
              ∙ enabled d e,
          word,
          op,
        )

    runs_on : (n : ℕ) (s : D × Axis) → Running s → Running (cycles n s)
    runs_on zero s r = r
    runs_on (suc n) s r = runs_on n (cycle s) (stays s r)

    answer-Running : (s : D × Axis) → Running s → answer s ≡ pos 1
    unfolding start_in
    answer-Running s (e, word, op) =
        ap (λ (r : ℤ × Axis). r.0)
          (start_known (seen s) mode operation_enable (state_enabled (status s.0) e))

    -- A drive that moves through its states as CiA 402 says: on the control word 6 from switched off
    -- to ready, on 7 from ready to switched on, on 15 from there into operation, where it stays on 15.
    -- From switched off, whatever stood in the process data, the answer of axis_start is 1 after three
    -- rounds and in every later one, with the mode that was asked for.
    pub axis_start_runs :
        (d : D) (si : Axis) (n : ℕ)
        → mask_4f (status d) ≡ 0x40
        → let s = cycles (suc (suc (suc n))) (d, si) in (answer s ≡ pos 1) × (s.1.op_mode ≡ mode)
    axis_start_runs d si n e =
        let s1 = cycle (d, si) in
        let s2 = cycle s1 in
        let r = runs_on n (cycle s2) (from_on s2 (from_ready s1 (from_disabled (d, si) e))) in
        (answer-Running (cycles n (cycle s2)) r, r.2)
