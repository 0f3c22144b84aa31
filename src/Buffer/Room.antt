-- ===== src/Buffer/Room.antt =====
-- When the pointers of a buffer are in order, and how much room `get_available` reports.
use libattachsql.Prelude.{
  ℕ, ◌+◌, ◌-◌, ◌*◌, ◌^◌, ◌≤◌, ◌<◌, ◌≡◌, ◌↔◌, ◌⊎◌, arith, some, leb, if◌then◌else◌,
}
use libattachsql.Buffer.Ops.{Buffer, buffer_get_available, buffer_unread_data}

-- The read pointer is not behind the write pointer, both are in the block, `buffer_used` counts
-- what was written since the buffer was last empty, the end of the packet, once it is set, is not
-- behind what was written, and the block can double in the address space.
pub record IsValid (b : Buffer) : Type 0 where
  pub block : 0 < b.buffer
  pub unread : b.buffer_read_ptr ≤ b.buffer_write_ptr
  pub read_in : b.buffer ≤ b.buffer_read_ptr
  pub write_in : b.buffer_write_ptr ≤ b.buffer + b.buffer_size
  pub used : b.buffer + b.buffer_used ≡ b.buffer_write_ptr
  pub packet_in :
      (b.packet_end_ptr ≡ 0)
      ⊎ (b.buffer ≤ b.packet_end_ptr) × (b.packet_end_ptr ≤ b.buffer_write_ptr)
  pub sized : b.buffer + b.buffer_size * 2 < 2 ^ 64

-- The bytes of the block in front of the read pointer, and those behind the write pointer.
abbrev pub stale : Buffer → ℕ
stale b = b.buffer_read_ptr - b.buffer

abbrev pub free : Buffer → ℕ
free b = b.buffer + b.buffer_size - b.buffer_write_ptr

pub unread_lem :
    (b : Buffer) → IsValid b → buffer_unread_data b ≡ b.buffer_write_ptr - b.buffer_read_ptr
unfolding buffer_unread_data
unread_lem b v = omega arith

-- In a valid buffer the reported room is the free bytes less the stale ones, modulo 2 ^ 64: the
-- stale bytes count twice, in the offset and in `buffer_used`.
pub get_available_lem :
    (b : Buffer)
    → IsValid b
    → buffer_get_available (some b)
      ≡ (if leb (stale b) (free b) then free b - stale b else 2 ^ 64 + free b - stale b)
unfolding buffer_get_available
get_available_lem b v = ground arith

-- A valid buffer's reported room is really free exactly if the stale bytes are no more than the
-- free ones; beyond that the difference wraps and more than the whole block is reported.
pub get_available_honest :
    (b : Buffer) → IsValid b → (buffer_get_available (some b) ≤ free b) ↔ (stale b ≤ free b)
get_available_honest b v = ground (arith, get_available_lem b v)
