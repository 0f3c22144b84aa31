-- ===== src/Tests/Polls.antt =====
-- The poll, the row buffer, a read and a pool at concrete inputs.
use libattachsql.Prelude.{
  ℕ, ◌≡◌, refl, arith, Bool, true, false, Option, some, none, [], ◌∷◌, ◌++◌, drop, inr, List,
}
use libattachsql.Prelude.Memory.{write}
use libattachsql.Buffer.Ops.{buffer_unread_data, buffer_packet_read_end}
use libattachsql.Net.Connect.{Connect, new_result, con_status_idle, command_status_row_in_buffer}
use libattachsql.Net.QueueLaws.{Fresh}
use libattachsql.Buffer.Room.{IsValid}
use libattachsql.Buffer.Ops.{buffer_get_available}
use libattachsql.Buffer.Steps.{unread_bytes}
use libattachsql.Net.ProcessLaws.{IsBytes}
use libattachsql.Net.Read.{ReadAnswers, Offered, on_alloc, read_bytes, read_data_cb}
use libattachsql.Net.ReadLaws.{read_data_cb-on_alloc}
use libattachsql.Pool.Connections.{Pool, pool_create}
use libattachsql.Pool.IdLaws.{Has, apart, none_left, add_all, add_all-IsPool}
use libattachsql.Connect.Callback.{World}
use libattachsql.Connect.Poll.{Surroundings, asserts, connect_poll}
use libattachsql.Connect.PollLaws.{query_row_next-asserts}
use libattachsql.Query.Rows.{row_cells}
use libattachsql.Query.Buffered.{query_row_next, query_buffer_row_get, store_row}
use libattachsql.Query.BufferLaws.{remaining, first_row, buffered_rows}
use libattachsql.Tests.Handlers.{
  unset, platform, handshake, nothing_expected, received, ok_packet, waiting, handshake-IsHandshake,
}

-- A callback and an event loop that change nothing.
abbrev quiet : World
quiet = record { callback_fn = λ i e r c. c; run_loop = λ c. c; made = true }

abbrev surroundings : Surroundings
surroundings = record {
  world = quiet;
  opening = record { loop_failure = none; dns_failure = none };
  handshake = handshake;
  platform = platform;
  answers = record { write_failure = none; realloc = λ n. none; stmt_made = true; unset = unset };
  rows = record { buffer_done = true; row_done = true };
  memory = ok_packet;
}

-- The row is the last that arrived.
abbrev last_row : Connect
last_row = record waiting {
  status = con_status_idle;
  command_status = command_status_row_in_buffer;
  queue = nothing_expected;
  read_buffer = record received { buffer_read_ptr = 4100; packet_end_ptr = 4107 };
}

last_row-Fresh : Fresh last_row.queue
last_row-Fresh = record { sizes = inr (refl, refl); within = omega arith }

query_row_next-asserts_example :
    (c' : Connect) × (query_row_next handshake platform ok_packet last_row ≡ some c')
    × (connect_poll surroundings none c' ≡ asserts c')
unfolding buffer_unread_data buffer_packet_read_end
query_row_next-asserts_example =
    query_row_next-asserts handshake platform ok_packet surroundings none last_row refl refl refl
      refl refl refl last_row-Fresh (omega arith) (ground arith)

-- Two rows were buffered, of which one was taken.
abbrev half_taken : Connect
half_taken = record last_row {
  row_buffer_count = 2;
  row_buffer_position = 1;
  row_buffer_alloc_size = 100;
  result = record (new_result unset) { column_count = 1; row_data = 4100; row_length = 7 };
}

buffered_rows_example :
    ((query_buffer_row_get half_taken).0 ≡ first_row (remaining half_taken))
    × (remaining (query_buffer_row_get half_taken).1 ≡ drop 1 (remaining half_taken))
    × (remaining (store_row platform ok_packet half_taken)
        ≡ remaining half_taken ++ (row_cells platform.plain ok_packet 1 4100 ∷ []))
buffered_rows_example = buffered_rows platform ok_packet half_taken (omega arith)

abbrev no_blocks : ReadAnswers
no_blocks = record { object = false; block = none; larger = none }

-- Two more bytes arrive.
arrived-IsBytes : IsBytes (write ok_packet 4107 (1 ∷ 2 ∷ []))
unfolding write
arrived-IsBytes a = ground arith

received-IsValid : IsValid received
received-IsValid = ground arith

read_data_cb-on_alloc_example :
    (o : Offered) × (on_alloc no_blocks ok_packet 65536 waiting ≡ some o)
    × (o.base ≡ 4107)
    × (r : Bool) × (c' : Connect) × (k : ℕ) × (read_data_cb handshake platform
          (write o.memory o.base (1 ∷ 2 ∷ []))
          (read_bytes 2)
          o.con
        ≡ some (r, c'))
    × IsValid c'.read_buffer
    × (unread_bytes (write o.memory o.base (1 ∷ 2 ∷ [])) c'.read_buffer
        ≡ drop k (unread_bytes ok_packet received ++ (1 ∷ 2 ∷ [])))
unfolding buffer_get_available
read_data_cb-on_alloc_example =
    read_data_cb-on_alloc handshake platform no_blocks ok_packet 65536 waiting (1 ∷ 2 ∷ [])
      handshake-IsHandshake arrived-IsBytes refl received-IsValid (omega arith) (omega arith)

-- A new pool with a callback.
abbrev empty_pool : Pool
empty_pool = record { connections = []; has_callback_fn = true }

pool_is_made : (pool_create true true true true none).0 ≡ some empty_pool
unfolding pool_create
pool_is_made = refl

-- Two connections, between them one without memory and NULL.
abbrev several : List (Bool × Option Connect)
several = (true, some waiting) ∷ (false, some waiting) ∷ (true, none) ∷ (true, some last_row) ∷ []

add_all-IsPool_example :
    Has (apart waiting ∷ apart last_row ∷ []) (add_all true several (some empty_pool))
add_all-IsPool_example = add_all-IsPool true several empty_pool none_left
