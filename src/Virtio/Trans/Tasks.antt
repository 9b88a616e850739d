-- ===== src/Virtio/Trans/Tasks.antt =====
-- tx_task and rx_task of virtio/devices/trans.c: a test, from its signal to its end. The two differ in
-- which descriptors they count and in the direction in which they copy.
pub mod Offered
pub mod Fits
pub mod Laws
pub mod Endings
use heterogeneous_multicore.Base.{
  ℕ, zero, suc, ◌+◌, ◌-◌, ◌*◌, ◌%◌, ◌^◌, ◌/◌, leb, ◌==◌, Bool, true, false, List, [], ◌∷◌, Option,
  none, some, if◌then◌else◌,
}
use heterogeneous_multicore.Virtio.Ring.{
  Iovec, Virtqueue, Vector, virtio_queue_get_iov, taken_or, virtio_queue_update_used_elem,
  virtio_queue_must_notify,
}
use heterogeneous_multicore.Virtio.Iov.{entries}
use heterogeneous_multicore.Virtio.Trans.{TransDev, vt_memcpy}

-- MAX_INDIRECT_NUM, the size of the static `iov`, and MAX_VT_BUF_SIZE, that of `app_buf`
abbrev pub max_indirect_num : ℕ
max_indirect_num = 100

abbrev pub max_vt_buf_size : ℕ
max_vt_buf_size = 2048

pub data Task : Type 0 where
  tx_task rx_task : Task

-- How a loop or a test may go on: it is over, it is not over when the fuel is used up, or it has
-- reached beyond the end of `iov` or of `app_buf`.
pub data Progress (A : Type 0) : Type 0 where
  over : A → Progress A
  going : Progress A
  overrun : Progress A

abbrev pub is_over : {A : Type 0} → Progress A → Bool
is_over (over a) = true
is_over going = false
is_over overrun = false

-- What a task works on: its queue, the static `iov`, the memory, and the interrupts it has raised.
pub record TestState : Type 0 where
  pub vq : Virtqueue
  pub iov : ℕ → Iovec
  pub mem : ℕ → ℕ
  pub interrupts : ℕ

-- How many descriptors of a chain are taken off the count.
abbrev pub cnt_of : Task → Vector → ℕ
cnt_of tx_task v = v.cnt_in
cnt_of rx_task v = v.cnt_out

-- `regression -= in`, on 32 bits.
abbrev pub less32 : ℕ → ℕ → ℕ
less32 regression n = (regression + 2 ^ 32 - n) % 2 ^ 32

-- `app_buf` is the address of the buffer to copy from or to.
abbrev pub copy_one : Task → ℕ → Iovec → (ℕ → ℕ) → ℕ → ℕ
copy_one tx_task app_buf v mem = vt_memcpy v.addr app_buf v.len mem
copy_one rx_task app_buf v mem = vt_memcpy app_buf v.addr v.len mem

abbrev pub copy_each : Task → ℕ → List Iovec → (ℕ → ℕ) → ℕ → ℕ
copy_each t app_buf [] mem = mem
copy_each t app_buf (v ∷ iov) mem = copy_each t app_buf iov (copy_one t app_buf v mem)

-- How many bytes of `app_buf` vt_memcpy reaches for an entry: whole words where both addresses are
-- aligned alike.
abbrev pub reached : ℕ → Iovec → ℕ
reached app_buf v = if v.addr % 4 == app_buf % 4 then v.len / 4 * 4 else v.len

abbrev pub within_buf : ℕ → List Iovec → Bool
within_buf app_buf [] = true
within_buf app_buf (v ∷ iov) =
    if leb (reached app_buf v) max_vt_buf_size then within_buf app_buf iov else false

-- The end of a round; in the front end's poll mode virtio_queue_must_notify is not called.
unfoldable pub hand_back : Bool → ℕ → ℕ → TestState → TestState
hand_back front_poll_mode head len s =
    let vq = virtio_queue_update_used_elem s.vq head len in
    let (must, vq') = virtio_queue_must_notify vq in
    if front_poll_mode
    then record s { vq = vq }
    else record s { vq = vq'; interrupts = if must then s.interrupts + 1 else s.interrupts }

-- `tick` is what the front end does while the task waits.
module _ (tick : Virtqueue → Virtqueue) (t : Task) (app_buf : ℕ) (tdev : TransDev) where
  -- A round with a head.
  unfoldable pub test_round : ℕ → Vector → TestState → TestState
  test_round head v s =
      let n = cnt_of t v in
      hand_back tdev.front_poll_mode head ((v.iov 0).len * n % 2 ^ 32) (record s {
        iov = v.iov;
        mem = if tdev.do_buf_copy then copy_each t app_buf (entries n v.iov) s.mem else s.mem;
      })

  -- Whether the copies of a round stay within `app_buf`.
  abbrev pub round_fits : Vector → Bool
  round_fits v = if tdev.do_buf_copy then within_buf app_buf (entries (cnt_of t v) v.iov) else true

  -- `while (regression)`, with the loop that waits for a head inside. A round of either is one of fuel.
  -- A chain of more descriptors than `iov` has entries, whether it ends or not, is written beyond it.
  unfoldable pub test_loop : ℕ → ℕ → TestState → Progress TestState
  test_loop fuel zero s = over s
  test_loop zero (suc regression) s = going
  test_loop (suc fuel) (suc regression) s =
      taken_or (virtio_queue_get_iov max_indirect_num s.vq s.iov) overrun
        (λ vq. test_loop fuel (suc regression) (record s { vq = tick vq }))
        (λ head vq v.
          if round_fits v
          then test_loop fuel (less32 (suc regression) (cnt_of t v))
              (test_round head v (record s { vq = vq }))
          else overrun)

  -- What stands behind the loop.
  abbrev pub counted : Task → TransDev → TransDev
  counted tx_task dev = record dev {
    config = record (dev.config) { rx_count = dev.config.regression };
  }
  counted rx_task dev = record dev {
    config = record (dev.config) { tx_count = dev.config.regression };
  }

  abbrev pub finished : Progress TestState → Progress (TransDev × TestState)
  finished going = going
  finished overrun = overrun
  finished (over s) = over (
    counted t tdev,
    if tdev.front_poll_mode then s else record s { interrupts = s.interrupts + 1 },
  )

  -- A test in the modes that the device then has.
  unfoldable pub test : ℕ → TestState → Progress (TransDev × TestState)
  test fuel s = finished (test_loop fuel tdev.config.regression s)
