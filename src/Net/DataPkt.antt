-- ===== src/Net/DataPkt.antt =====
-- net/data_pkt.c: packet buffers, allocated or static.
pub mod Laws
use heterogeneous_multicore.Base.{
  ℕ, zero, suc, ◌+◌, ◌-◌, ◌%◌, ◌^◌, Bool, true, false, List, [], ◌∷◌, Option, none, some, ltb, leb,
  if◌then◌else◌, test_bit, replicate,
}

abbrev pub data_pkt_head_room : ℕ
data_pkt_head_room = 128

abbrev pub data_pkt_tail_room : ℕ
data_pkt_tail_room = 0

-- The bits of DATA_PKT_FLAG_CAN_FREE and DATA_PKT_FLAG_STATIC_BUFF.
abbrev pub can_free_bit : ℕ
can_free_bit = 0

abbrev pub static_buff_bit : ℕ
static_buff_bit = 1

-- `struct data_pkt` with the buffer that it heads: `buffer` names the buffer, `bytes` is what lies
-- between `data` and `tail`, and `room` is `tail - data`. `pkt_entry` is the place in a list.
pub record DataPkt : Type 0 where
  pub buffer : ℕ
  pub bytes : List ℕ
  pub room : ℕ
  pub data_len : ℕ
  pub flags : ℕ
  pub used : Bool

-- The allocator, as the code sees it: how many allocations were asked for, which names the buffer
-- of the next, the buffers that became packets, the buffers given back by
-- os_free, the static buffers marked unused, and whether an assertion has failed (`while (1)`).
pub record Heap : Type 0 where
  pub fresh : ℕ
  pub made : List ℕ
  pub freed : List ℕ
  pub released : List ℕ
  pub halted : Bool

-- memcpy of n bytes into a buffer; what would fall outside the buffer is not modelled.
abbrev pub copy : ℕ → List ℕ → List ℕ → List ℕ
copy zero src dst = dst
copy (suc n) src [] = []
copy (suc n) [] (d ∷ dst) = d ∷ dst
copy (suc n) (s ∷ src) (d ∷ dst) = s ∷ copy n src dst

-- `uint32_t size = data_room_size + DATA_PKT_HEAD_ROOM + DATA_PKT_TAIL_ROOM`
abbrev pub alloc_size : ℕ → ℕ
alloc_size data_room_size = (data_room_size + data_pkt_head_room + data_pkt_tail_room) % 2 ^ 32

-- data_pkt_build: none where the assertion on the length fails. `memory` is what the buffer holds.
unfoldable pub data_pkt_build : ℕ → ℕ → ℕ → List ℕ → Bool → Option DataPkt
data_pkt_build buffer buf_len flags memory used =
    if ltb (data_pkt_head_room + data_pkt_tail_room) buf_len
    then some (record {
      buffer = buffer;
      bytes = memory;
      room = buf_len - data_pkt_head_room - data_pkt_tail_room;
      data_len = 0;
      flags = flags;
      used = used;
    })
    else none

unfoldable pub data_pkt_set_len : DataPkt → ℕ → DataPkt
data_pkt_set_len pkt data_len = record pkt { data_len = data_len }

abbrev built : Option DataPkt → Heap → Option DataPkt × Heap
built none h = (none, record h { halted = true })
built (some pkt) h = (some pkt, record h { made = pkt.buffer ∷ h.made })

-- `malloc n` says whether os_malloc finds memory for the n-th allocation.
module _ (malloc : ℕ → Bool) where
  unfoldable pub data_pkt_alloc : ℕ → ℕ → Heap → Option DataPkt × Heap
  data_pkt_alloc data_room_size flags h =
      let size = alloc_size data_room_size in
      let zeros = replicate (size - data_pkt_head_room - data_pkt_tail_room) 0 in
      let h' = record h { fresh = h.fresh + 1 } in
      if malloc h.fresh
      then built (data_pkt_build h.fresh size flags zeros false) h'
      else (none, h')

  abbrev filled : DataPkt → Option DataPkt → Option DataPkt
  filled pkt none = none
  filled pkt (some new_pkt) = some (
      data_pkt_set_len (record new_pkt { bytes = copy pkt.data_len pkt.bytes new_pkt.bytes })
        pkt.data_len)

  unfoldable pub data_pkt_clone : DataPkt → Heap → Option DataPkt × Heap
  data_pkt_clone pkt h =
      let (new_pkt, h') = data_pkt_alloc pkt.room pkt.flags h in (filled pkt new_pkt, h')

-- data_pkt_free: a static buffer is marked unused, any other goes back to the allocator.
unfoldable pub data_pkt_free : DataPkt → Heap → Heap
data_pkt_free pkt h =
    if test_bit pkt.flags static_buff_bit
    then record h { released = pkt.buffer ∷ h.released }
    else record h { freed = pkt.buffer ∷ h.freed }
