-- ===== src/Servo/Tests.antt =====
-- A drive that starts: the theorem where its hypotheses hold.
use heterogeneous_multicore.Base.{ℕ, ◌≡◌, ◌↔◌, refl, ◌==◌, if◌then◌else◌}
use heterogeneous_multicore.Base.Int.{pos, negsuc}
use heterogeneous_multicore.Servo.{Axis, axis_start, mask_6f}
use heterogeneous_multicore.Servo.Laws.{answer, cycles, axis_start_runs, axis_start_answers}

-- A drive is its status word, with the bits above the sixth set as they please.
abbrev shown : ℕ → ℕ
shown d = d

abbrev moved : ℕ → ℕ → ℕ → ℕ
moved d control_word mode =
    if control_word == 0x6
    then 0x231
    else if control_word == 0x7
    then 0x233
    else if control_word == 0xF
    then 0x1237
    else d

abbrev unset : Axis
unset = record { status_word = 0; control_word = 0x1234; op_mode = 3 }

axis_start_runs_example :
    let s = cycles shown moved 8 5 (0x250, unset) in
    (answer shown moved 8 s ≡ pos 1) × (s.1.op_mode ≡ 8)
axis_start_runs_example =
    axis_start_runs shown moved 8 (λ d m e. refl) (λ d m e. refl) (λ d e. refl) (λ d e. refl) 0x250
      unset 2 refl

axis_start_answers_example :
    (((axis_start unset 8).0 ≡ pos 1) ↔ (mask_6f 0 ≡ 0x27))
    × (((axis_start unset 8).0 ≡ negsuc 0) ↔ (mask_6f 0 ≡ 0x07))
axis_start_answers_example = axis_start_answers unset 8
