-- ===== src/Tests/Compressions.antt =====
-- Compressed packets at concrete inputs.
use libattachsql.Prelude.{
  ℕ, ◌+◌, ◌-◌, ◌≡◌, ◌≤◌, ◌<◌, refl, sym, ap, ◌∙◌, arith, inl, inr, Bool, true, false, some, none,
  List, [], ◌∷◌, ◌++◌, length, replicate, leb, leb→le, if◌then◌else◌, ◌==◌, ◌&&◌, Bool-cases,
}
use libattachsql.Prelude.Memory.{Mem, read, write, read-write}
use libattachsql.Buffer.Ops.{Buffer, default_buffer_size, ret_packet_out_of_sequence}
use libattachsql.Buffer.Steps.{unread_bytes}
use libattachsql.Net.Connect.{Connect, con_status_idle}
use libattachsql.Net.Read.{ReadAnswers, read_bytes, read_data_cb}
use libattachsql.Command.Send.{command_query, command_stmt_close, command_send, packet_header_of}
use libattachsql.Compress.Zlib.{Zlib, IsZlib, Compression}
use libattachsql.Compress.Send.{
  SendAnswers, command_send_zlib, command_send_compressed, expect_compressed,
  send_compressed_packet, enlarged, send_gathered, filled, send_large, send_answer, hand_over,
  compressed_header,
}
use libattachsql.Pack.Ints.{byte}
use mathlib.Core.Path.{subst}
use libattachsql.Compress.Receive.{
  decompress_read_buffer, con_process_packets_zlib, processed, count_packet, read_failed,
}
use libattachsql.Compress.Frames.{Frames, packed}
use libattachsql.Compress.SendLaws.{packet_of}
use libattachsql.Compress.Process.{process_packets-Frames}
use libattachsql.Compress.Faults.{decompress-overruns, process_packets-out_of_sequence}
use libattachsql.Compress.Commands.{AnswerExpected, command_send_zlib-expects}
use libattachsql.Compress.ReceiveLaws.{IsInflated, taken}
use libattachsql.Compress.RoundTrip.{IsReady, decompress-command_send}
use libattachsql.Tests.Handlers.{
  handshake, nothing_expected-Fresh, platform, waiting, received, nothing_expected, ok_packet,
}

-- A compression that changes nothing.
abbrev stored : ℕ → List ℕ → Bool × List ℕ
stored room bs = if leb (length bs) room then (true, bs) else (false, [])

abbrev identity : Zlib
identity = record { compress_bound = λ n. n + 13; compress = stored; uncompress = stored }

stored_fits : (room : ℕ) (bs : List ℕ) → length (stored room bs).1 ≤ room
stored_fits room bs = elim (Bool-cases (leb (length bs) room)) [
  | inl fits ↦ rw fits (leb→le _ _ fits)
  | inr big ↦ rw big (omega arith)
]

stored-stored :
    (room room' : ℕ) (bs : List ℕ)
    → (stored room bs).0 ≡ true
    → length bs ≤ room'
    → stored room' (stored room bs).1 ≡ (true, bs)
stored-stored room room' bs h k =
    let fits' : leb (length bs) room' ≡ true = ground arith in
    elim (Bool-cases (leb (length bs) room)) [
      | inl fits ↦ rw (fits, fits')
      | inr big ↦ cc (rw big at h)
    ]

identity-IsZlib : IsZlib identity
identity-IsZlib = record {
  compress_fits = stored_fits;
  uncompress_fits = stored_fits;
  uncompress-compress = stored-stored;
}

abbrev answers : SendAnswers
answers = record { larger_uncompressed = true; larger_compressed = true; written = true }

abbrev read_answers : ReadAnswers
read_answers = record { object = true; block = some 65536; larger = none }

-- The compressed read buffer at 4194304 holds `n` bytes.
abbrev compressed_buffer : ℕ → Buffer
compressed_buffer n = record {
  buffer = 4194304;
  buffer_size = default_buffer_size;
  buffer_used = n;
  buffer_write_ptr = 4194304 + n;
  buffer_read_ptr = 4194304;
  packet_end_ptr = 0;
}

abbrev fields : ℕ → ℕ → Compression
fields n number = record {
  has_read_buffer_compress = true;
  read_buffer_compress = compressed_buffer n;
  uncompressed_buffer = λ i. 0;
  uncompressed_buffer_len = 0;
  compressed_buffer = λ i. 0;
  compressed_buffer_len = 0;
  compressed_packet_header = [];
  compressed_packet_number = number;
}

abbrev compressing : Connect
compressing = record waiting {
  status = con_status_idle;
  compression = true;
  client_capabilities = 32;
  queue = nothing_expected;
}

abbrev long_query : List ℕ
long_query = replicate 51 65

-- The frame of the query and its packet, written out.
abbrev query_packet : List ℕ
query_packet = 52 ∷ 0 ∷ 0 ∷ 0 ∷ 3 ∷ long_query

abbrev query_frame : List ℕ
query_frame = 56 ∷ 0 ∷ 0 ∷ 0 ∷ 56 ∷ 0 ∷ 0 ∷ query_packet

is_frame :
    (command_send_zlib platform none identity answers
      (fields 0 7)
      compressing
      command_query
      long_query).handed.bytes
    ≡ query_frame
unfolding command_send_zlib command_send_compressed expect_compressed send_compressed_packet
    enlarged send_gathered filled send_large send_answer hand_over compressed_header
    packet_header_of byte read write
is_frame = refl

is_packet : (command_send platform none compressing command_query long_query).bytes ≡ query_packet
unfolding command_send packet_header_of byte read
is_packet = refl

-- The query and one byte more are in the compressed buffer.
abbrev arrived : Mem
arrived = write ok_packet 4194304 (query_frame ++ 9 ∷ [])

query-IsReady : IsReady arrived (fields 64 255) compressing 0 query_packet
query-IsReady = record {
  has = refl;
  compressed_valid = ground arith;
  valid = ground arith;
  apart = inr (omega arith);
  room = omega arith;
  next = refl;
  low = omega arith;
}

decompress-command_send_example :
    let packet = (command_send platform none compressing command_query long_query).bytes in
    (size : ℕ) × (decompress_read_buffer identity platform read_answers arrived
        (fields 64 255)
        compressing
      ≡ some (taken size arrived (fields 64 255) compressing packet))
    × IsInflated arrived
        (fields 64 255)
        compressing
        packet
        (9 ∷ [])
        (taken size arrived (fields 64 255) compressing packet)
decompress-command_send_example =
    decompress-command_send platform none identity answers (fields 0 7) compressing command_query
      long_query platform read_answers arrived (fields 64 255) compressing (9 ∷ []) identity-IsZlib
      refl (omega arith) (omega arith) (omega arith) (λ n. cc (sym is_frame ∙ n))
      (subst (IsReady arrived (fields 64 255) compressing 0) (sym is_packet) query-IsReady)
      (read-write ok_packet 4194304 (query_frame ++ 9 ∷ [])
        ∙ ap (λ bs. bs ++ 9 ∷ []) (sym is_frame))

is_packed : Frames identity 0 query_packet query_frame
unfolding compressed_header byte
is_packed = packed 2048 refl (omega arith) (omega arith) (omega arith) refl

process_packets-Frames_example :
    let m' = write arrived 4107 query_packet in
    (z' : Compression) × (con_process_packets_zlib handshake identity platform read_answers arrived
        (fields 64 255)
        compressing
      ≡ processed m' z' (read_data_cb handshake platform m' (read_bytes 56) compressing))
    × (unread_bytes m' z'.read_buffer_compress ≡ 9 ∷ [])
process_packets-Frames_example =
    process_packets-Frames handshake identity platform read_answers arrived (fields 64 255)
      compressing query_packet (9 ∷ []) identity-IsZlib is_packed query-IsReady
      (read-write ok_packet 4194304 (query_frame ++ 9 ∷ [])) refl refl

-- An OK packet that is not compressed, with the number 8.
abbrev ok_bytes : List ℕ
ok_bytes = 7 ∷ 0 ∷ 0 ∷ 1 ∷ 0 ∷ 0 ∷ 0 ∷ 2 ∷ 0 ∷ 0 ∷ 0 ∷ []

abbrev small_frame : List ℕ
small_frame = 11 ∷ 0 ∷ 0 ∷ 8 ∷ 0 ∷ 0 ∷ 0 ∷ ok_bytes

abbrev small_arrived : Mem
small_arrived = write ok_packet 4194304 small_frame

small_held :
    unread_bytes small_arrived (compressed_buffer 18) ≡ compressed_header 11 8 0 ++ ok_bytes
unfolding compressed_header byte
small_held = read-write ok_packet 4194304 small_frame

-- The read buffer has three free bytes.
abbrev nearly_full : Connect
nearly_full = record compressing {
  read_buffer = record received {
    buffer_write_ptr = 4093 + default_buffer_size;
    buffer_used = default_buffer_size - 3;
  };
}

decompress-overruns_example :
    let r = taken 11 small_arrived (fields 18 7) nearly_full ok_bytes in
    let b = r.con.read_buffer in
    (decompress_read_buffer identity platform read_answers small_arrived (fields 18 7) nearly_full
      ≡ some r)
    × (b.buffer + b.buffer_size < b.buffer_write_ptr)
decompress-overruns_example =
    decompress-overruns identity platform read_answers small_arrived (fields 18 7) nearly_full 8
      ok_bytes [] refl (ground arith) refl (omega arith) (omega arith) small_held (omega arith)

process_packets-out_of_sequence_example :
    con_process_packets_zlib handshake identity platform read_answers small_arrived
      (fields 18 8)
      compressing
    ≡ some (record {
      done = false;
      memory = small_arrived;
      comp = count_packet (fields 18 8);
      con = read_failed ret_packet_out_of_sequence compressing;
    })
process_packets-out_of_sequence_example =
    process_packets-out_of_sequence handshake identity platform read_answers small_arrived
      (fields 18 8) compressing 8 0 ok_bytes [] refl refl (ground arith) (omega arith) small_held
      (ground arith)

command_send_zlib-expects_example : AnswerExpected command_stmt_close (
    command_send_zlib platform none identity answers (fields 0 7) compressing command_stmt_close [])
command_send_zlib-expects_example =
    command_send_zlib-expects platform none identity answers (fields 0 7) compressing
      command_stmt_close [] refl refl refl nothing_expected-Fresh (omega arith)

abbrev answered : Connect
answered = record waiting { packet_header = 52 ∷ 0 ∷ 0 ∷ 0 ∷ [] }

-- The packet of the query.
abbrev known : List ℕ
known = packet_of answered long_query 3

abbrev is_known : List ℕ → List ℕ → Bool
is_known [] [] = true
is_known [] (k ∷ ks) = false
is_known (b ∷ bs) [] = false
is_known (b ∷ bs) (k ∷ ks) = (b == k) && is_known bs ks

abbrev put_in : ℕ → List ℕ → Bool × List ℕ
put_in room bs = if leb (length bs) room then (true, bs) else (false, [])

-- A compression that has a short name for this packet, and makes each other one byte longer.
abbrev dictionary : Zlib
dictionary = record {
  compress_bound = λ n. n + 1;
  compress = λ room bs. put_in room (if is_known bs known then 1 ∷ [] else 0 ∷ bs);
  uncompress = λ room bs. elim bs [
    | [] ↦ (false, [])
    | b ∷ rest ↦ if b == 1 then put_in room known else put_in room rest
  ];
}
