-- ===== src/Buffer/Ops.antt =====
-- The operations of src/buffer.cc. Pointers are addresses, and 0 is NULL; what an allocation
-- answers is an argument, `none` for NULL.
use libattachsql.Prelude.{
  ℕ, ◌+◌, ◌*◌, ◌/◌, Bool, true, false, Option, none, some, ltb, ◌==◌, if◌then◌else◌,
}
use libattachsql.Prelude.Bits.{add64, sub64}
use libattachsql.Prelude.Memory.{Mem, copy}

-- src/return.h
pub data Ret : Type 0 where
  ret_ok ret_parameter_error ret_connecting ret_dns_error ret_connect_error : Ret
  ret_out_of_memory_error ret_no_scramble ret_user_too_long ret_schema_too_long : Ret
  ret_net_read_error ret_net_ssl_error ret_net_write_error ret_packet_out_of_sequence : Ret
  ret_bad_protocol ret_no_old_auth ret_bad_scramble ret_compression_failure : Ret
  ret_bad_stmt_parameter : Ret

pub record Buffer : Type 0 where
  pub buffer : ℕ
  pub buffer_size : ℕ
  pub buffer_used : ℕ
  pub buffer_write_ptr : ℕ
  pub buffer_read_ptr : ℕ
  pub packet_end_ptr : ℕ

abbrev pub default_buffer_size : ℕ
default_buffer_size = 1024 * 1024

-- `object` says whether `new` gave a struct, and `block` is what `malloc` answered.
unfoldable pub buffer_create : Bool → Option ℕ → Option Buffer
buffer_create false block = none
buffer_create true none = none
buffer_create true (some p) = some (record {
  buffer = p;
  buffer_size = default_buffer_size;
  buffer_used = 0;
  buffer_write_ptr = p;
  buffer_read_ptr = p;
  packet_end_ptr = 0;
})

unfoldable pub buffer_get_available : Option Buffer → ℕ
buffer_get_available none = 0
buffer_get_available (some b) =
    sub64 b.buffer_size (add64 (sub64 b.buffer_read_ptr b.buffer) b.buffer_used)

-- `realloc` to the address `new_block`, which holds a copy of the old block.
abbrev pub moved : Buffer → ℕ → Buffer
moved b new_block = record b {
  buffer_size = b.buffer_size * 2;
  buffer = new_block;
  buffer_write_ptr = new_block + sub64 b.buffer_write_ptr b.buffer;
  buffer_read_ptr = new_block + sub64 b.buffer_read_ptr b.buffer;
  packet_end_ptr =
      new_block + (if b.packet_end_ptr == 0 then 0 else sub64 b.packet_end_ptr b.buffer);
}

unfoldable pub buffer_grow : Option ℕ → Mem → Buffer → Ret × Mem × Buffer
buffer_grow none m b = (ret_out_of_memory_error, m, b)
buffer_grow (some new_block) m b =
    (ret_ok, copy m new_block b.buffer b.buffer_size, moved b new_block)

-- `memmove` to the start of the block; only the write pointer is set again.
unfoldable pub buffer_shift : Mem → Buffer → Ret × Mem × Buffer
buffer_shift m b = (
  ret_ok,
  copy m b.buffer b.buffer_read_ptr b.buffer_used,
  record b { buffer_write_ptr = b.buffer + b.buffer_used },
)

abbrev pub mostly_stale : Buffer → Bool
mostly_stale b = ltb (add64 (buffer_get_available (some b)) b.buffer_used) (b.buffer_size / 2)

unfoldable pub buffer_increase : Option ℕ → Mem → Buffer → Ret × Mem × Buffer
buffer_increase block m b = if mostly_stale b then buffer_shift m b else buffer_grow block m b

-- The whole function, with its test for NULL.
unfoldable pub buffer_increase_checked : Option ℕ → Mem → Option Buffer → Ret × Mem × Option Buffer
buffer_increase_checked block m none = (ret_parameter_error, m, none)
buffer_increase_checked block m (some b) = let r = buffer_increase block m b in (r.0, r.1, some r.2)

unfoldable pub buffer_move_write_ptr : Buffer → ℕ → Buffer
buffer_move_write_ptr b len = record b {
  buffer_write_ptr = b.buffer_write_ptr + len;
  buffer_used = add64 b.buffer_used len;
}

unfoldable pub buffer_unread_data : Buffer → ℕ
buffer_unread_data b = sub64 b.buffer_write_ptr b.buffer_read_ptr

unfoldable pub buffer_packet_read_end : Buffer → Buffer
buffer_packet_read_end b =
    if b.packet_end_ptr == b.buffer_write_ptr
    then record b {
      buffer_read_ptr = b.buffer;
      buffer_write_ptr = b.buffer;
      buffer_used = 0;
      packet_end_ptr = b.buffer;
    }
    else record b { buffer_read_ptr = b.packet_end_ptr }
