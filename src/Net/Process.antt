-- ===== src/Net/Process.antt =====
-- The packet loop of src/net.cc. The two handlers of handshake packets are an argument.
use libattachsql.Prelude.{
  ℕ, zero, suc, ◌+◌, Bool, true, false, Option, none, some, ltb, ◌==◌, ◌&&◌, not, if◌then◌else◌,
}
use libattachsql.Prelude.Bits.{u8, u32}
use libattachsql.Prelude.Memory.{Mem}
use libattachsql.Buffer.Ops.{ret_packet_out_of_sequence, buffer_unread_data}
use libattachsql.Pack.Ints.{PlainChar, signed_char, unsigned_char, unpack_int3}
use libattachsql.Net.Queue.{
  PacketType, packet_none, packet_handshake, packet_handshake_ssl, packet_response,
  packet_prepare_response, packet_prepare_parameter, packet_prepare_column, packet_column,
  packet_row, packet_stmt_row, packet_queue_peek, packet_queue_pop,
}
use libattachsql.Net.Connect.{Connect, command_status_read_failed}
use libattachsql.Net.Response.{Platform, packet_read_response, packet_read_row}
use libattachsql.Net.Columns.{
  packet_read_prepare_response, packet_read_prepare_parameter, packet_read_prepare_column,
  packet_read_column,
}

-- `attachsql_packet_read_handshake` and `attachsql_handshake_response`.
pub record Handshake : Type 0 where
  pub read_handshake : Mem → Connect → Connect
  pub handshake_response : Mem → Connect → Connect

-- How a turn of the loop ends: the function returns, or the loop goes on.
pub data Turn : Type 0 where
  stops : Bool → Connect → Turn
  goes_on : Connect → Turn

-- The `switch`. The type NONE is not met, as the loop tests for it.
unfoldable pub handle : Handshake → Platform → Mem → PacketType → Connect → Turn
handle h e m packet_none c = stops true c
handle h e m packet_handshake c = goes_on (h.read_handshake m c)
handle h e m packet_handshake_ssl c = goes_on (h.handshake_response m c)
handle h e m packet_response c = goes_on (packet_read_response e m c)
handle h e m packet_prepare_response c = goes_on (packet_read_prepare_response e m c)
handle h e m packet_prepare_parameter c = goes_on (packet_read_prepare_parameter e m c)
handle h e m packet_prepare_column c = goes_on (packet_read_prepare_column e c)
handle h e m packet_column c = goes_on (packet_read_column e m c)
handle h e m packet_row c = stops true (packet_read_row e m c)
handle h e m packet_stmt_row c = stops true (packet_read_row e m c)

-- `uint8_t == char`: both are compared as `int`.
abbrev pub is_char : PlainChar → ℕ → ℕ → Bool
is_char signed_char n b = n == b && ltb b 128
is_char unsigned_char n b = n == b

-- The handshake is packet 0, so the number is not raised for it.
abbrev pub counted : PacketType → ℕ → ℕ
counted packet_handshake n = n
counted _ n = u8 (n + 1)

abbrev pub out_of_sequence : Connect → Connect
out_of_sequence c = record c {
  local_errcode = ret_packet_out_of_sequence;
  command_status = command_status_read_failed;
  queue = record c.queue { next_packet_queue_used = 0 };
}

-- The packet's header is read: the read pointer is on its payload.
abbrev pub opened : ℕ → Connect → Connect
opened packet_len c = record c {
  read_buffer = record c.read_buffer {
    buffer_read_ptr = c.read_buffer.buffer_read_ptr + 4;
    packet_end_ptr = c.read_buffer.buffer_read_ptr + 4 + packet_len;
  };
}

-- A whole packet of the expected type is in the buffer.
unfoldable pub process_packet : Handshake → Platform → Mem → PacketType → Connect → Turn
process_packet h e m t c =
    let p = c.read_buffer.buffer_read_ptr in
    let packet_len = unpack_int3 m p in
    let c' : Connect = record c {
      packet_size = packet_len;
      packet_number = counted t c.packet_number;
      queue = (packet_queue_pop c.queue).1;
    } in
    if is_char e.plain c'.packet_number (m (p + 3))
    then handle h e m t (opened packet_len c')
    else stops true (out_of_sequence c')

-- The loop's body for an expected type other than NONE.
unfoldable pub process_expected : Handshake → Platform → Mem → PacketType → Connect → Turn
process_expected h e m t c =
    let data_size = buffer_unread_data c.read_buffer in
    let packet_len = unpack_int3 m c.read_buffer.buffer_read_ptr in
    if ltb data_size 4
    then stops false c
    else if ltb data_size (u32 (packet_len + 4))
    then stops false (record c { packet_size = packet_len })
    else process_packet h e m t c

unfoldable pub turn : Handshake → Platform → Mem → PacketType → Connect → Turn
turn h e m packet_none c = stops false c
turn h e m t c = process_expected h e m t c

-- The loop, on fuel.
unfoldable pub after_turn : (Connect → Option (Bool × Connect)) → Turn → Option (Bool × Connect)
after_turn rest (stops r c) = some (r, c)
after_turn rest (goes_on c) = rest c

unfoldable pub process_loop : Handshake → Platform → Mem → ℕ → Connect → Option (Bool × Connect)
process_loop h e m zero c = none
process_loop h e m (suc fuel) c =
    after_turn (λ c'. process_loop h e m fuel c') (turn h e m (packet_queue_peek c.queue) c)

-- The function as built without zlib; the fuel is one more than the unread bytes.
unfoldable pub con_process_packets : Handshake → Platform → Mem → Connect → Option (Bool × Connect)
con_process_packets h e m c =
    if not c.compression && not c.has_read_buffer
    then some (false, c)
    else process_loop h e m (suc (buffer_unread_data c.read_buffer)) c
