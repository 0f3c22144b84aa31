-- ===== src/Compress/Send.antt =====
-- `attachsql_send_compressed_packet` of src/net.cc and its callers, as built with zlib and without
-- OpenSSL.
use libattachsql.Prelude.{
  ℕ, ◌+◌, ◌-◌, ◌%◌, Bool, not, Option, none, some, List, [], ◌∷◌, ◌++◌, ◌==◌, ◌&&◌, ◌||◌, ltb,
  length, if◌then◌else◌,
}
use libattachsql.Prelude.Bits.{u8}
use libattachsql.Prelude.Memory.{Mem, read, write}
use libattachsql.Buffer.Ops.{
  Ret, ret_ok, ret_out_of_memory_error, ret_compression_failure, ret_net_write_error,
}
use libattachsql.Pack.Ints.{byte}
use libattachsql.Net.Queue.{PacketType, packet_response, packet_prepare_response}
use libattachsql.Net.Connect.{
  CommandStatus, Connect, con_status_busy, command_status_send, command_status_send_failed,
  command_status_read_response, is_connecting,
}
use libattachsql.Net.Response.{Platform, push, has_compress}
use libattachsql.Command.Send.{
  Command, Sent, command_stmt_prepare, command_code, reset, packet_header_of, command_send,
}
use libattachsql.Connect.Handshake.{send_data}
use libattachsql.Query.Buffered.{is_idle}
use libattachsql.Compress.Zlib.{Zlib, Compression}

-- src/constants.h
abbrev pub write_buffer_size : ℕ
write_buffer_size = 1024

abbrev pub minimum_compress_size : ℕ
minimum_compress_size = 50

-- Whether each of the two buffers can be enlarged, and whether `uv_write` takes the bytes.
pub record SendAnswers : Type 0 where
  pub larger_uncompressed : Bool
  pub larger_compressed : Bool
  pub written : Bool

-- The connection's fields after a call, and the bytes that `uv_write` was given.
pub record Handed : Type 0 where
  pub comp : Compression
  pub con : Connect
  pub bytes : List ℕ

-- The length after `realloc`, where the buffer is too short; `none` is a `realloc` that failed.
unfoldable pub enlarged : Bool → ℕ → ℕ → Option ℕ
enlarged larger len required =
    if ltb len required
    then (if larger
        then some (required + write_buffer_size - required % write_buffer_size)
        else none)
    else some len

abbrev pub send_failed : Ret → Connect → Connect
send_failed error c = record c {
  local_errcode = error;
  command_status = command_status_send_failed;
  queue = record c.queue { next_packet_queue_used = 0 };
}

-- A packet with a command has the command's byte and the extra bytes of the write buffer.
abbrev pub required_uncompressed : Connect → List ℕ → ℕ → ℕ
required_uncompressed c d command =
    length d + 4 + (if command == 0 then 0 else 1 + c.write_buffer_extra)

-- What the uncompressed buffer holds after the copies.
unfoldable pub filled : Mem → Connect → List ℕ → ℕ → Mem
filled u c d command =
    let u' = write u 0 c.packet_header in
    if command == 0
    then write u' 4 d
    else write (write (write u' 4 (command ∷ [])) 5 (read c.write_buffer 1 c.write_buffer_extra))
        (5 + c.write_buffer_extra) d

-- The seven bytes in front of a packet.
unfoldable pub compressed_header : ℕ → ℕ → ℕ → List ℕ
compressed_header size number uncompressed =
    byte size 0
    ∷ byte size 8
    ∷ byte size 16
    ∷ number
    ∷ byte uncompressed 0
    ∷ byte uncompressed 8
    ∷ byte uncompressed 16
    ∷ []

-- The call of `uv_write` with the header and the packet.
unfoldable pub hand_over : SendAnswers → Compression → Connect → List ℕ → Handed
hand_over a z c packet =
    let c' : Connect = record c { command_status = command_status_read_response } in
    record {
      comp = z;
      con = if a.written then c' else send_failed ret_net_write_error c';
      bytes = z.compressed_packet_header ++ packet;
    }

-- What `compress` answered is sent, or the failure is kept. The length of the compressed packet is
-- compared with that of the uncompressed buffer.
unfoldable pub send_answer : SendAnswers → Compression → Connect → ℕ → Bool × List ℕ → Handed
send_answer a z c required (done, bs) =
    let z' : Compression = record z { compressed_buffer = write z.compressed_buffer 0 bs } in
    if not done || ltb z.uncompressed_buffer_len (length bs)
    then record { comp = z'; con = send_failed ret_compression_failure c; bytes = [] }
    else hand_over a
        (record z' {
          compressed_packet_header =
              compressed_header (length bs) z.compressed_packet_number required;
        })
        c (read z'.compressed_buffer 0 (length bs))

unfoldable pub send_large : Zlib → SendAnswers → Compression → Connect → ℕ → Option ℕ → Handed
send_large zlib a z c required none = record {
  comp = z;
  con = send_failed ret_out_of_memory_error c;
  bytes = [];
}
send_large zlib a z c required (some len) =
    send_answer a (record z { compressed_buffer_len = len }) c required
      (zlib.compress len (read z.uncompressed_buffer 0 required))

unfoldable pub send_small : SendAnswers → Compression → Connect → ℕ → Handed
send_small a z c required =
    hand_over a
      (record z {
        compressed_packet_header = compressed_header required z.compressed_packet_number 0;
      })
      c (read z.uncompressed_buffer 0 required)

-- The packet is in the uncompressed buffer, of the length `len`.
abbrev pub gathered : Compression → Connect → List ℕ → ℕ → ℕ → Compression
gathered z c d command len = record z {
  uncompressed_buffer = filled z.uncompressed_buffer c d command;
  uncompressed_buffer_len = len;
}

abbrev pub extra_sent : Connect → ℕ → Connect
extra_sent c command = record c {
  write_buffer_extra = if command == 0 then c.write_buffer_extra else 0;
}

unfoldable pub send_gathered :
    Zlib → SendAnswers → Compression → Connect → List ℕ → ℕ → Option ℕ → Handed
send_gathered zlib a z c d command none = record {
  comp = z;
  con = send_failed ret_out_of_memory_error c;
  bytes = [];
}
send_gathered zlib a z c d command (some len) =
    let required = required_uncompressed c d command in
    let z' = gathered z c d command len in
    let c' = extra_sent c command in
    if ltb minimum_compress_size (length d)
    then send_large zlib a z' c' required
        (enlarged a.larger_compressed z.compressed_buffer_len (zlib.compress_bound required))
    else send_small a z' c' required

-- A command starts the numbers of the compressed packets anew.
abbrev pub numbered : Compression → ℕ → Compression
numbered z command = record z {
  compressed_packet_number = if command == 0 then z.compressed_packet_number else 0;
}

-- The whole function; the command 0 is a packet without one.
unfoldable pub send_compressed_packet :
    Zlib → SendAnswers → Compression → Connect → List ℕ → ℕ → Handed
send_compressed_packet zlib a z c d command =
    send_gathered zlib a (numbered z command) c d command
      (enlarged a.larger_uncompressed z.uncompressed_buffer_len (required_uncompressed c d command))

-- `attachsql_send_data` with the data `d`.
unfoldable pub send_data_zlib : Zlib → SendAnswers → Compression → Connect → List ℕ → Handed
send_data_zlib zlib a z c d =
    let number = u8 (c.packet_number + 1) in
    if has_compress c.client_capabilities && not (is_connecting c.status)
    then send_compressed_packet zlib a z
        (record c {
          packet_number = number;
          packet_header = byte (length d) 0 ∷ byte (length d) 8 ∷ byte (length d) 16 ∷ number ∷ [];
        })
        d 0
    else (let c' = send_data a.written (length d) c in
        record { comp = z; con = c'; bytes = c'.packet_header ++ d })

-- What `command_send` returns, and what it leaves.
pub record SentZlib : Type 0 where
  pub outcome : CommandStatus
  pub handed : Handed

abbrev pub answer_to : Command → PacketType
answer_to command_stmt_prepare = packet_prepare_response
answer_to _ = packet_response

unfoldable pub expect_compressed : Platform → Command → Handed → SentZlib
expect_compressed e command h =
    if is_idle h.con.status
    then record {
      outcome = command_status_send;
      handed = record h {
        con = record (push e (answer_to command) h.con) {
          command_status = command_status_send;
          status = con_status_busy;
        };
      };
    }
    else record { outcome = h.con.command_status; handed = h }

-- `attachsql_command_send_compressed`
unfoldable pub command_send_compressed :
    Platform → Zlib → SendAnswers → Compression → Connect → Command → List ℕ → SentZlib
command_send_compressed e zlib a z c command d =
    expect_compressed e command (send_compressed_packet zlib a z c d (command_code command))

-- The connection that `attachsql_command_send` passes on.
abbrev pub to_compress : Connect → ℕ → Connect
to_compress c len = record (reset c) {
  local_errcode = ret_ok;
  errmsg = [];
  packet_header = packet_header_of (len + 1 + c.write_buffer_extra);
  packet_number = 0;
}

abbrev pub uncompressed : Compression → Sent → SentZlib
uncompressed z s = record {
  outcome = s.outcome;
  handed = record { comp = z; con = s.con; bytes = s.bytes };
}

-- `attachsql_command_send`; `failure` is the text of the error that `uv_write` answers where the
-- packet is not compressed.
unfoldable pub command_send_zlib :
    Platform
    → Option (List ℕ)
    → Zlib
    → SendAnswers
    → Compression
    → Connect
    → Command
    → List ℕ
    → SentZlib
command_send_zlib e failure zlib a z c command d =
    if has_compress c.client_capabilities
    then command_send_compressed e zlib a z (to_compress c (length d)) command d
    else uncompressed z (command_send e failure c command d)
