-- ===== src/Tests/Handlers.antt =====
-- The packet loop, the packet handlers and the commands at concrete inputs.
use libattachsql.Prelude.{
  List, map, ℕ, ◌+◌, ◌≡◌, inl, inr, refl, arith, Bool, true, false, some, none, [], ◌∷◌, ◌==◌,
  if◌then◌else◌, length,
}
use libattachsql.Prelude.Memory.{read, Mem, write}
use libattachsql.Buffer.Ops.{Buffer, default_buffer_size, ret_ok, buffer_unread_data}
use libattachsql.Buffer.Room.{IsValid}
use libattachsql.Pack.Ints.{signed_char, char_u64, unpack_int3}
use libattachsql.Pack.Length.{unpack_length}
use libattachsql.Net.Queue.{
  Queue, packet_response, packet_queue_pop, packet_queue_push, queue_first, queue_enlarge,
  queue_append,
}
use libattachsql.Net.QueueLaws.{Fresh}
use libattachsql.Net.Connect.{
  Connect, Column, Cell, con_status_busy, con_status_idle, command_status_send, command_status_eof,
  command_status_row_in_buffer, new_stmt, new_result, event_none, protocol_tcp,
}
use libattachsql.Net.Response.{Platform, packet_read_response, read_result}
use libattachsql.Net.Process.{
  Handshake, goes_on, handle, turn, process_expected, process_packet, con_process_packets,
}
use libattachsql.Net.Taken.{IsTaken}
use libattachsql.Net.ProcessLaws.{IsHandshake, IsBytes, process_packets-returns}
use libattachsql.Net.Turns.{turn-goes_on}
use libattachsql.Net.Settles.{Settled, After, handle-Settled}
use libattachsql.Net.ColumnRun.{Reading, result, column, columns_read}
use libattachsql.Net.Columns.{packet_read_column}
use libattachsql.Query.Rows.{query_row_get, row}
use libattachsql.Query.RowLaws.{text, one, ends, null_cell, cell, query_row_get_lem}
use libattachsql.Command.Send.{command_query, command_stmt_close, command_send}
use libattachsql.Command.SendLaws.{command_send_framed, command_send-unanswered}
use libattachsql.Net.Write.{on_write}

abbrev pub unset : ℕ → Column
unset i = record {
  schema = [];
  table = [];
  origin_table = [];
  column = [];
  origin_column = [];
  charset = 0;
  column_length = 0;
  column_type = 0;
  flags = 0;
  decimals = 0;
  default_value = [];
  default_size = 0;
}

abbrev pub platform : Platform
platform = record {
  plain = signed_char;
  memory = record { malloc_done = true; realloc_done = true };
  array_done = true;
}

abbrev pub handshake : Handshake
handshake = record { read_handshake = λ m c. c; handshake_response = λ m c. c }

abbrev pub handshake-IsHandshake : IsHandshake handshake
handshake-IsHandshake = record {
  read_handshake_lem = λ m c. inr refl;
  handshake_response_lem = λ m c. inr refl;
}

-- An OK packet of 7 bytes with the number 1, at the address 4096.
abbrev pub ok_packet : Mem
ok_packet a = if a == 4096 then 7 else if a == 4099 then 1 else if a == 4103 then 2 else 0

ok_packet-IsBytes : IsBytes ok_packet
ok_packet-IsBytes a = ground arith

abbrev pub received : Buffer
received = record {
  buffer = 4096;
  buffer_size = default_buffer_size;
  buffer_used = 11;
  buffer_write_ptr = 4107;
  buffer_read_ptr = 4096;
  packet_end_ptr = 0;
}

abbrev pub one_expected : Queue
one_expected = record {
  next_packet_queue = λ i. packet_response;
  next_packet_queue_size = 64;
  next_packet_queue_used = 1;
  allocated = 256;
}

abbrev pub nothing_expected : Queue
nothing_expected = record one_expected { next_packet_queue_used = 0 }

-- A command was sent and its answer is in the buffer.
abbrev pub waiting : Connect
waiting = record {
  port = 3306;
  protocol = protocol_tcp;
  user = [];
  pass = [];
  con_schema = none;
  thread_id = 0;
  server_version = [];
  scramble_buffer = [];
  server_capabilities = 0;
  con_charset = 0;
  status = con_status_busy;
  errmsg = [];
  local_errcode = ret_ok;
  has_read_buffer = true;
  read_buffer = received;
  write_buffer = λ i. 0;
  write_buffer_extra = 0;
  packet_number = 0;
  packet_header = [];
  compression = false;
  no_verify = false;
  semi_block = false;
  client_capabilities = 0;
  packet_size = 0;
  affected_rows = 0;
  insert_id = 0;
  server_status = 8;
  warning_count = 0;
  server_errno = 0;
  server_message = [];
  sqlstate = [];
  result = new_result unset;
  command_status = command_status_send;
  queue = one_expected;
  has_stmt = false;
  stmt = new_stmt unset;
  has_pool = false;
  has_callback = false;
  connection_id = 0;
  last_callback = event_none;
  query_buffer = [];
  query_buffer_alloc = false;
  query_buffer_statement = false;
  in_query = true;
  buffer_rows = false;
  row_buffer = λ i. [];
  row_buffer_alloc_size = 0;
  row_buffer_count = 0;
  row_buffer_position = 0;
  all_rows_buffered = false;
}

pub received-IsValid : IsValid received
received-IsValid = ground arith

process_packets-returns_example :
    (r : Bool) × (c' : Connect) × (n : ℕ) × (con_process_packets handshake platform ok_packet
        waiting
      ≡ some (r, c'))
    × IsTaken ok_packet received n c'.read_buffer
process_packets-returns_example =
    process_packets-returns handshake platform ok_packet waiting handshake-IsHandshake
      ok_packet-IsBytes received-IsValid

-- The connection that the handler gets.
abbrev opened_ok : Connect
opened_ok = record waiting {
  packet_size = 7;
  packet_number = 1;
  queue = nothing_expected;
  read_buffer = record received { buffer_read_ptr = 4100; packet_end_ptr = 4107 };
}

turn_ok :
    turn handshake platform ok_packet packet_response waiting
    ≡ goes_on (packet_read_response platform ok_packet opened_ok)
unfolding turn process_expected process_packet handle buffer_unread_data unpack_int3
    packet_queue_pop
turn_ok = refl

turn-goes_on_example :
    IsTaken ok_packet received
      (4 + unpack_int3 ok_packet 4096)
      (packet_read_response platform ok_packet opened_ok).read_buffer
turn-goes_on_example =
    turn-goes_on handshake platform ok_packet packet_response waiting
      (packet_read_response platform ok_packet opened_ok) (ground arith, ground arith)
      ok_packet-IsBytes received-IsValid turn_ok

pub nothing_expected-Fresh : Fresh nothing_expected
nothing_expected-Fresh = record { sizes = inr (refl, refl); within = omega arith }

handle-Settled_example :
    After (Settled nothing_expected) (handle handshake platform ok_packet packet_response opened_ok)
handle-Settled_example =
    handle-Settled handshake platform ok_packet packet_response opened_ok
      (ground arith, (ground arith, ground arith)) refl nothing_expected-Fresh (omega arith)

-- A result packet that announces two columns, at the address 4096.
abbrev two_columns : Mem
two_columns a = if a == 4096 then 2 else 0

abbrev result_expected : Connect
result_expected = record waiting { queue = nothing_expected }

-- The connection with the header of the next column packet taken and its packet opened.
abbrev next_column : Connect → Connect
next_column c = record c { queue = (packet_queue_pop c.queue).1 }

-- The first of the two columns is read.
abbrev one_column : Connect
one_column =
    packet_read_column platform two_columns
      (next_column (read_result platform two_columns result_expected))

-- Both column packets are read, and the response is expected.
columns_read_example :
    Reading 2 2 [] (packet_read_column platform two_columns (next_column one_column))
unfolding unpack_length char_u64 packet_queue_pop packet_queue_push queue_first queue_enlarge
    queue_append packet_read_column read_result
columns_read_example =
    columns_read platform two_columns result_expected 2 refl refl (ground arith)
      nothing_expected-Fresh (omega arith) (omega arith)
      (column
        (column result two_columns (next_column (read_result platform two_columns result_expected))
          refl refl (record { sizes = inr (refl, refl); within = omega arith }) (omega arith))
        two_columns (next_column one_column) refl refl
        (record { sizes = inr (refl, refl); within = omega arith }) (omega arith))

command_send_framed_example :
    let sent = (command_send platform none waiting command_query (83 ∷ 69 ∷ [])).bytes in
    let m' = write ok_packet 64 sent in
    (unpack_int3 m' 64 ≡ 3) × (m' 67 ≡ 0) × (m' 68 ≡ 3) × (length sent ≡ 7)
command_send_framed_example =
    command_send_framed platform none waiting command_query (83 ∷ 69 ∷ []) ok_packet 64
      (omega arith)

command_send-unanswered_example :
    let c' = (command_send platform none result_expected command_stmt_close []).con in
    (c'.status ≡ con_status_busy)
    × (con_process_packets handshake platform ok_packet c' ≡ some (false, c'))
    × ((on_write none c').status ≡ con_status_idle)
    × ((on_write none c').command_status ≡ command_status_eof)
command_send-unanswered_example =
    command_send-unanswered handshake platform ok_packet result_expected command_stmt_close []
      (inl refl) refl

-- A row of the cells "A", NULL and "", at the address 4096.
abbrev row_packet : Mem
row_packet a = if a == 4096 then 1 else if a == 4097 then 65 else if a == 4098 then 0xfb else 0

abbrev row_ready : Connect
row_ready = record waiting {
  command_status = command_status_row_in_buffer;
  result = record (new_result unset) { column_count = 3; row_data = 4096; row_length = 4 };
}

query_row_get_lem_example :
    (got : List Cell) × (query_row_get signed_char true row_packet (some row_ready) ≡ row got)
    × (map (text row_packet) got ≡ (65 ∷ []) ∷ [] ∷ [] ∷ [])
unfolding read
query_row_get_lem_example =
    query_row_get_lem signed_char row_packet row_ready (some (65 ∷ []) ∷ none ∷ some [] ∷ []) refl
      refl refl (ground arith)
      (cell (one (omega arith) refl) (inr (inl (omega arith))) refl
        (null_cell refl (cell (one (omega arith) refl) (inr (inl (omega arith))) refl ends)))
