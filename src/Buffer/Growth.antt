-- ===== src/Buffer/Growth.antt =====
-- `attachsql_buffer_increase` of src/buffer.cc: the two ways it makes room.
use libattachsql.Prelude.{ℕ, ◌+◌, ◌-◌, ◌*◌, ◌/◌, ◌^◌, ◌<◌, ◌≡◌, arith, some, ltb}
use libattachsql.Prelude.Memory.{Mem}
use libattachsql.Buffer.Ops.{
  Buffer, moved, mostly_stale, buffer_get_available, buffer_shift, buffer_grow, buffer_unread_data,
}
use libattachsql.Buffer.Room.{IsValid, stale, free, unread_lem}

-- The branch taken: only if the bytes behind the read pointer are less than half the block, and
-- `get_available` did not wrap.
pub mostly_stale_lem :
    (b : Buffer) → IsValid b → mostly_stale b ≡ ltb (b.buffer_size - stale b) (b.buffer_size / 2)
unfolding buffer_get_available
mostly_stale_lem b v = ground arith

pub moved-IsValid :
    (b : Buffer) (new_block : ℕ)
    → IsValid b
    → 0 < new_block
    → new_block + b.buffer_size * 4 < 2 ^ 64
    → IsValid (moved b new_block)
moved-IsValid b p v h k = ground arith

-- Growing a valid buffer doubles the block, keeps the unread bytes, wherever the new block is, and
-- the buffer stays valid; the room that is reported grows by the old size.
pub grow_lem :
    (m : Mem) (b : Buffer) (new_block i : ℕ)
    → IsValid b
    → 0 < new_block
    → new_block + b.buffer_size * 4 < 2 ^ 64
    → i < buffer_unread_data b
    → let r = buffer_grow (some new_block) m b in
      IsValid r.2
      × (buffer_unread_data r.2 ≡ buffer_unread_data b)
      × (r.1 (r.2.buffer_read_ptr + i) ≡ m (b.buffer_read_ptr + i))
      × (free r.2 ≡ free b + b.buffer_size)
unfolding buffer_grow
grow_lem m b p i v h k l = (
  moved-IsValid b p v h k,
  omega (arith, unread_lem b v, unread_lem (moved b p) (moved-IsValid b p v h k)),
  ground (arith, unread_lem b v),
  omega arith,
)

-- Where `increase` shifts a valid buffer instead, it changes no field, so it gains no room; but
-- the first bytes of the block are overwritten by those from the read pointer on.
pub shift_lem :
    (m : Mem) (b : Buffer) (i : ℕ)
    → IsValid b
    → i < b.buffer_used
    → let r = buffer_shift m b in (r.2 ≡ b) × (r.1 (b.buffer + i) ≡ m (b.buffer_read_ptr + i))
unfolding buffer_shift
shift_lem m b i v h = (ground arith, ground arith)
