-- ===== src/Servo.antt =====
-- axis_start of apps/soem_servo_rt1180/freertos/cia402.c: the steps that bring a drive into operation,
-- by the state that its status word says.
pub mod Laws
mod Tests
use heterogeneous_multicore.Base.{
  ℕ, suc, zero, ◌+◌, ◌*◌, ◌/◌, ◌%◌, Bool, true, false, ◌==◌, if◌then◌else◌, test_bit,
}
use heterogeneous_multicore.Base.Int.{ℤ, pos, negsuc}
use heterogeneous_multicore.Base.Bits.{and_not, or_bits}

-- The states, by the words of cia402.h.
pub data AxleState : Type 0 where
  no_ready_to_switch_on switch_on_disable ready_to_switch_on switched_on : AxleState
  operation_enable quick_stop_active fault_reaction_active fault : AxleState

-- `status_word & 0x4F` and `status_word & 0x6F`
abbrev pub mask_4f : ℕ → ℕ
mask_4f s = s % 16 + s / 64 % 2 * 64

abbrev pub mask_6f : ℕ → ℕ
mask_6f s = s % 16 + s / 32 % 2 * 32 + s / 64 % 2 * 64

unfoldable pub get_axle_state : ℕ → AxleState
get_axle_state status_word =
    if mask_4f status_word == 0x40
    then switch_on_disable
    else if mask_6f status_word == 0x21
    then ready_to_switch_on
    else if mask_6f status_word == 0x23
    then switched_on
    else if mask_6f status_word == 0x27
    then operation_enable
    else if mask_6f status_word == 0x07
    then quick_stop_active
    else if mask_4f status_word == 0x0F
    then fault_reaction_active
    else if mask_4f status_word == 0x08
    then fault
    else no_ready_to_switch_on

-- contrlword_shutdown, contrlword_switch_on and contrlword_enable_operation
unfoldable pub contrlword_shutdown : ℕ → ℕ
unfolding and_not or_bits
contrlword_shutdown c = and_not 16 (or_bits 16 c 0x6) 0x81

unfoldable pub contrlword_switch_on : ℕ → ℕ
unfolding and_not or_bits
contrlword_switch_on c = and_not 16 (or_bits 16 c 0x7) 0x88

unfoldable pub contrlword_enable_operation : ℕ → ℕ
unfolding and_not or_bits
contrlword_enable_operation c = and_not 16 (or_bits 16 c 0xF) 0x80

-- The process data of an axis: the word that is read and the two that are written.
pub record Axis : Type 0 where
  pub status_word : ℕ
  pub control_word : ℕ
  pub op_mode : ℕ

-- The switch over the state.
unfoldable pub start_in : AxleState → ℕ → Axis → ℤ × Axis
unfolding contrlword_shutdown contrlword_switch_on contrlword_enable_operation
start_in no_ready_to_switch_on mode si = (pos 0, record si { control_word = contrlword_shutdown 0 })
start_in switch_on_disable mode si = (pos 0, record si { control_word = contrlword_shutdown 0 })
start_in ready_to_switch_on mode si = (pos 0, record si { control_word = contrlword_switch_on 0 })
start_in switched_on mode si =
    (pos 0, record si { control_word = contrlword_enable_operation 0; op_mode = mode })
start_in operation_enable mode si = (pos 1, si)
start_in quick_stop_active mode si = (negsuc 0, si)
start_in fault_reaction_active mode si = (negsuc 0, si)
start_in fault mode si = (negsuc 0, si)

unfoldable pub axis_start : Axis → ℕ → ℤ × Axis
axis_start si mode =
    if test_bit si.status_word 3
    then (pos 0, record si { control_word = 0x80 })
    else start_in (get_axle_state si.status_word) mode si
