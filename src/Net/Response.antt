-- ===== src/Net/Response.antt =====
-- The handlers of src/net.cc for OK, error, EOF and result packets, and for rows.
use libattachsql.Prelude.{
  ℕ, ◌+◌, ◌^◌, Bool, List, [], ◌∷◌, ltb, ◌==◌, if◌then◌else◌, bit_and, min, not, ◌||◌, ◌-◌,
}
use libattachsql.Prelude.Bits.{u16, u32}
use libattachsql.Prelude.Memory.{Mem, read}
use libattachsql.Buffer.Ops.{Buffer, buffer_packet_read_end}
use libattachsql.Pack.Ints.{PlainChar, unpack_int2}
use libattachsql.Pack.Length.{unpack_length}
use libattachsql.Net.Queue.{
  PacketType, Memory, packet_queue_push, packet_column, packet_row, packet_prepare_column,
}
use libattachsql.Net.Connect.{
  Connect, con_status_connect_failed, con_status_idle, command_status_eof, command_status_connected,
  command_status_read_column, command_status_read_row, command_status_row_in_buffer,
  command_status_read_stmt_column, max_message_len, is_connecting, is_read_response, is_read_column,
  is_read_stmt_param,
}

-- What the handlers take from outside: the sign of a plain `char`, what the queue's allocations
-- answer, and whether `new` of an array does.
pub record Platform : Type 0 where
  pub plain : PlainChar
  pub memory : Memory
  pub array_done : Bool

-- `attachsql_packet_queue_push`, whose result no caller looks at.
abbrev pub push : Platform → PacketType → Connect → Connect
push e t c = record c { queue = (packet_queue_push e.memory c.queue t).1 }

abbrev pub at : ℕ → Buffer → Buffer
at p b = record b { buffer_read_ptr = p }

-- `attachsql_packet_read_end`.
abbrev pub packet_read_end : Connect → Connect
packet_read_end c = record c { read_buffer = buffer_packet_read_end c.read_buffer }

-- `snprintf(to, size, "%.*s", precision, from)`: the precision is an `int`, and a negative one is
-- as if there were none.
unfoldable pub until_zero : List ℕ → List ℕ
until_zero [] = []
until_zero (b ∷ bs) = let rest = until_zero bs in if b == 0 then [] else b ∷ rest

unfoldable pub message_text : Mem → ℕ → ℕ → List ℕ
message_text m precision from = until_zero (
    read m from
      (if ltb precision (2 ^ 31) then min precision (max_message_len - 1) else max_message_len - 1))

abbrev pub has_compress : ℕ → Bool
has_compress capabilities = not (bit_and capabilities (2 ^ 5) == 0)

unfoldable pub read_ok : Platform → Mem → Connect → Connect
read_ok e m c =
    let p = c.read_buffer.buffer_read_ptr + 1 in
    let rows = unpack_length e.plain m p in
    let p1 = p + rows.bytes in
    let inserted = unpack_length e.plain m p1 in
    let p2 = p1 + inserted.bytes in
    let data_read = 1 + rows.bytes + inserted.bytes + 4 in
    let rest = u32 (c.packet_size + (2 ^ 32 - data_read)) in
    let c' : Connect = record c {
      affected_rows = rows.value;
      insert_id = inserted.value;
      server_status = unpack_int2 m p2;
      warning_count = unpack_int2 m (p2 + 2);
      server_message = message_text m rest (p2 + 4);
      command_status =
          (if is_connecting c.status then command_status_connected else command_status_eof);
      compression =
          (if is_connecting c.status
            then c.compression || has_compress c.client_capabilities
            else c.compression);
      status = con_status_idle;
      read_buffer = at (p2 + 4 + rest) c.read_buffer;
    } in
    packet_read_end c'

unfoldable pub read_error : Mem → Connect → Connect
read_error m c =
    let p = c.read_buffer.buffer_read_ptr in
    let rest = u32 (c.packet_size + (2 ^ 32 - 9)) in
    packet_read_end (record c {
      server_errno = unpack_int2 m (p + 1);
      sqlstate = read m (p + 4) 5;
      server_message = message_text m rest (p + 9);
      status =
          (if is_read_response c.command_status
            then con_status_connect_failed
            else con_status_idle);
      queue = record c.queue { next_packet_queue_used = 0 };
      command_status = command_status_eof;
      read_buffer = at (p + 9 + rest) c.read_buffer;
    })

-- The fields that an EOF packet sets, before the test on the command's status.
abbrev pub eof_fields : Mem → Connect → Connect
eof_fields m c =
    let p = c.read_buffer.buffer_read_ptr in
    record c {
      warning_count = unpack_int2 m (p + 1);
      server_status = unpack_int2 m (p + 3);
      read_buffer = at (p + 5) c.read_buffer;
    }

abbrev pub finished : Connect → Connect
finished c =
    packet_read_end (record c { command_status = command_status_eof; status = con_status_idle })

unfoldable pub read_eof : Platform → Mem → Connect → Connect
read_eof e m c =
    let c' = eof_fields m c in
    if is_read_column c.command_status
    then packet_read_end
        (push e packet_row (record c' { command_status = command_status_read_row }))
    else if is_read_stmt_param c.command_status
    then (if ltb 0 c.stmt.stmt_column_count
        then packet_read_end (
            push e packet_prepare_column
              (record c' { command_status = command_status_read_stmt_column }))
        else finished c')
    else finished c'

-- `column_count` has 16 bits. The entries of the new array are unset until they are written; the
-- model keeps the old ones.
unfoldable pub read_result : Platform → Mem → Connect → Connect
read_result e m c =
    let p = c.read_buffer.buffer_read_ptr in
    let count = unpack_length e.plain m p in
    let c' : Connect = record c {
      result = record c.result {
        column_count = u16 count.value;
        columns_allocated = if e.array_done then u16 count.value else 0;
      };
      read_buffer = at (p + count.bytes) c.read_buffer;
    } in
    record (push e packet_column (packet_read_end c')) {
      command_status = command_status_read_column;
    }

unfoldable pub packet_read_response : Platform → Mem → Connect → Connect
packet_read_response e m c =
    let first = m c.read_buffer.buffer_read_ptr in
    if first == 0x00
    then read_ok e m c
    else if first == 0xff
    then read_error m c
    else if first == 0xfe
    then read_eof e m c
    else read_result e m c

unfoldable pub packet_read_row : Platform → Mem → Connect → Connect
packet_read_row e m c =
    let p = c.read_buffer.buffer_read_ptr in
    if m p == 0xfe
    then packet_read_response e m
        (record c { result = record c.result { row_data = 0; row_length = 0 } })
    else record c {
      result = record c.result { row_data = p; row_length = c.packet_size };
      command_status = command_status_row_in_buffer;
      status = con_status_idle;
    }
