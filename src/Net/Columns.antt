-- ===== src/Net/Columns.antt =====
-- The handlers of src/net.cc for the answer to a prepare, and for column definitions.
use libattachsql.Prelude.{ℕ, ◌+◌, ◌-◌, ◌%◌, ◌^◌, List, [], replicate, ltb, leb, ◌==◌, if◌then◌else◌}
use libattachsql.Prelude.Bits.{u16, u32}
use libattachsql.Prelude.Memory.{Mem, read}
use libattachsql.Pack.Ints.{unpack_int2, unpack_int4}
use libattachsql.Pack.Length.{unpack_length}
use libattachsql.Statement.Types.{new_param}
use libattachsql.Net.Queue.{
  packet_response, packet_column, packet_prepare_parameter, packet_prepare_column,
}
use libattachsql.Net.Connect.{
  Column, Connect, command_status_read_stmt_param, command_status_read_stmt_column,
  stmt_state_prepared, max_schema_size, max_table_size, max_column_size, max_default_value_size,
}
use libattachsql.Net.Response.{
  Platform, push, at, packet_read_end, until_zero, packet_read_response, finished,
}

-- The blocks that read a length-prefixed string: the bytes that are copied to an array of `size`
-- bytes, and the pointer behind the string, which wraps at 2 ^ 64: a length may be a negative one.
unfoldable pub str_read : ℕ → ℕ → ℕ
str_read size str_len = if leb size str_len then size - 1 else str_len

-- What the array holds up to the terminating zero that is stored behind the copied bytes.
abbrev pub field_text : Platform → Mem → ℕ → ℕ → List ℕ
field_text e m size p =
    let l = unpack_length e.plain m p in until_zero (read m (p + l.bytes) (str_read size l.value))

abbrev pub behind : Platform → Mem → ℕ → ℕ
behind e m p = let l = unpack_length e.plain m p in (p + l.bytes + l.value) % 2 ^ 64

-- The default value is copied without a terminating zero; `default_size` is its size.
unfoldable pub get_column : Platform → Mem → ℕ → Column × ℕ
get_column e m p0 =
    let p1 = behind e m p0 in
    let p2 = behind e m p1 in
    let p3 = behind e m p2 in
    let p4 = behind e m p3 in
    let p5 = behind e m p4 in
    let q = behind e m p5 + 1 in
    let l = unpack_length e.plain m (q + 12) in
    (
      record {
        schema = field_text e m max_schema_size p1;
        table = field_text e m max_table_size p2;
        origin_table = field_text e m max_table_size p3;
        column = field_text e m max_column_size p4;
        origin_column = field_text e m max_column_size p5;
        charset = unpack_int2 m q;
        column_length = unpack_int4 m (q + 2);
        column_type = m (q + 6);
        flags = unpack_int2 m (q + 7);
        decimals = m (q + 9);
        default_value = read m (q + 12 + l.bytes) (str_read max_default_value_size l.value);
        default_size = str_read max_default_value_size l.value;
      },
      behind e m (q + 12),
    )

-- `attachsql_packet_get_column` with the column's entry in an array.
abbrev pub put_column : (ℕ → Column) → ℕ → Column → ℕ → Column
put_column f i x j = if i == j then x else f j

unfoldable pub packet_read_column : Platform → Mem → Connect → Connect
packet_read_column e m c =
    let (column, p) = get_column e m c.read_buffer.buffer_read_ptr in
    let next = u16 (c.result.current_column + 1) in
    push e (if next == c.result.column_count then packet_response else packet_column) (
      packet_read_end (record c {
        result = record c.result {
          columns = put_column c.result.columns c.result.current_column column;
          current_column = next;
        };
        read_buffer = at p c.read_buffer;
      }))

unfoldable pub packet_read_prepare_parameter : Platform → Mem → Connect → Connect
packet_read_prepare_parameter e m c =
    let (column, p) = get_column e m c.read_buffer.buffer_read_ptr in
    let next = u16 (c.stmt.current_param + 1) in
    push e (if next == c.stmt.param_count then packet_response else packet_prepare_parameter) (
      packet_read_end (record c {
        stmt = record c.stmt {
          params = put_column c.stmt.params c.stmt.current_param column;
          current_param = next;
        };
        read_buffer = at p c.read_buffer;
      }))

unfoldable pub packet_read_prepare_column : Platform → Connect → Connect
packet_read_prepare_column e c =
    let next = u16 (c.stmt.stmt_current_column + 1) in
    push e (if next == c.stmt.stmt_column_count then packet_response else packet_prepare_column)
      (packet_read_end (record c { stmt = record c.stmt { stmt_current_column = next } }))

-- What a PREPARE_OK packet sets before the tests on the counts.
abbrev pub prepared : Platform → Mem → Connect → Connect
prepared e m c =
    let p = c.read_buffer.buffer_read_ptr in
    let count = unpack_int2 m (p + 7) in
    record c {
      stmt = record c.stmt {
        id = unpack_int4 m (p + 1);
        stmt_column_count = unpack_int2 m (p + 5);
        param_count = count;
        params_allocated =
            (if count == 0 then c.stmt.params_allocated else (if e.array_done then count else 0));
        param_data =
            (if count == 0
              then c.stmt.param_data
              else (if e.array_done then replicate count new_param else []));
      };
      warning_count = unpack_int2 m (p + 10);
      read_buffer = at (p + 12) c.read_buffer;
    }

-- Which packet is expected next.
unfoldable pub prepare_next : Platform → Connect → Connect
prepare_next e c =
    if ltb 0 c.stmt.param_count
    then record (push e packet_prepare_parameter c) {
      command_status = command_status_read_stmt_param;
    }
    else if ltb 0 c.stmt.stmt_column_count
    then record (push e packet_prepare_column c) {
      command_status = command_status_read_stmt_column;
    }
    else finished c

unfoldable pub packet_read_prepare_response : Platform → Mem → Connect → Connect
packet_read_prepare_response e m c =
    if m c.read_buffer.buffer_read_ptr == 0x00
    then (let c' = prepare_next e (prepared e m c) in
        packet_read_end (record c' {
          read_buffer =
              at (c'.read_buffer.buffer_read_ptr + u32 (c.packet_size + (2 ^ 32 - 12)))
                c'.read_buffer;
          stmt = record c'.stmt { state = stmt_state_prepared };
        }))
    else packet_read_response e m c
