-- ===== src/Compress/Receive.antt =====
-- `attachsql_con_decompress_read_buffer` of src/net.cc and the parts around it of
-- `attachsql_con_process_packets`, `attachsql_read_data_cb` and `on_alloc` of src/connect.cc, as
-- built with zlib and without OpenSSL.
use libattachsql.Prelude.{
  ℕ, suc, ◌+◌, Bool, true, false, not, Option, none, some, List, ◌==◌, ◌&&◌, ltb, length,
  if◌then◌else◌,
}
use libattachsql.Prelude.Bits.{u8, u32}
use libattachsql.Prelude.Memory.{Mem, read, write, copy}
use libattachsql.Buffer.Ops.{
  Buffer, Ret, ret_packet_out_of_sequence, ret_compression_failure, buffer_create,
  buffer_get_available, buffer_increase, buffer_move_write_ptr, buffer_unread_data,
}
use libattachsql.Pack.Ints.{unpack_int3}
use libattachsql.Net.Connect.{Connect, command_status_read_failed}
use libattachsql.Net.Response.{Platform}
use libattachsql.Net.Process.{Handshake, is_char, process_loop}
use libattachsql.Net.Read.{
  ReadAnswers, Offered, ReadSize, read_bytes, read_failure, on_alloc, read_data_cb,
}
use libattachsql.Compress.Zlib.{Zlib, Compression}

-- What `decompress_read_buffer` returns, and the memory and the connection after it.
pub record Inflated : Type 0 where
  pub got : Bool
  pub memory : Mem
  pub comp : Compression
  pub con : Connect

abbrev pub read_failed : Ret → Connect → Connect
read_failed error c = record c {
  local_errcode = error;
  command_status = command_status_read_failed;
  queue = record c.queue { next_packet_queue_used = 0 };
}

abbrev pub with_read_buffer : Connect → Buffer → Connect
with_read_buffer c b = record c { has_read_buffer = true; read_buffer = b }

-- The header is read: the read pointer is on the packet, which ends `size` bytes further on.
abbrev pub header_taken : ℕ → Compression → Compression
header_taken size z = record z {
  read_buffer_compress = record z.read_buffer_compress {
    buffer_read_ptr = z.read_buffer_compress.buffer_read_ptr + 7;
    packet_end_ptr = z.read_buffer_compress.buffer_read_ptr + 7 + size;
  };
}

-- The packet is read.
abbrev pub packet_taken : ℕ → Compression → Compression
packet_taken size z = record z {
  read_buffer_compress = record z.read_buffer_compress {
    buffer_read_ptr = z.read_buffer_compress.buffer_read_ptr + size;
  };
}

-- The packet is not compressed: it is copied behind what is in the read buffer.
unfoldable pub copy_small : ℕ → Mem → Compression → Connect → Buffer → Inflated
copy_small size m z c b = record {
  got = true;
  memory = copy m b.buffer_write_ptr z.read_buffer_compress.buffer_read_ptr size;
  comp = packet_taken size z;
  con = with_read_buffer c (buffer_move_write_ptr b size);
}

-- `uncompress` answered whether it is done, and has put bytes behind what is in the read buffer.
unfoldable pub take_answer : ℕ → Mem → Compression → Connect → Buffer → Bool × List ℕ → Inflated
take_answer size m z c b (true, bs) = record {
  got = true;
  memory = write m b.buffer_write_ptr bs;
  comp = packet_taken size z;
  con = with_read_buffer c (buffer_move_write_ptr b (length bs));
}
take_answer size m z c b (false, bs) = record {
  got = true;
  memory = write m b.buffer_write_ptr bs;
  comp = z;
  con = read_failed ret_compression_failure (with_read_buffer c b);
}

unfoldable pub inflate : Zlib → ℕ → ℕ → Mem → Compression → Connect → Buffer → Inflated
inflate zlib size unpacked m z c b =
    if unpacked == 0
    then copy_small size m z c b
    else take_answer size m z c b (
        zlib.uncompress (buffer_get_available (some b))
          (read m z.read_buffer_compress.buffer_read_ptr size))

-- Room is made once, whatever the result.
unfoldable pub inflate_into :
    Zlib → Option ℕ → ℕ → ℕ → Mem → Compression → Connect → Buffer → Inflated
inflate_into zlib larger size unpacked m z c b =
    if ltb (buffer_get_available (some b)) unpacked
    then (let r = buffer_increase larger m b in inflate zlib size unpacked r.1 z c r.2)
    else inflate zlib size unpacked m z c b

-- `none` is a read buffer that was not created, which is then written through NULL.
abbrev pub inflate_new :
    Zlib → Option ℕ → ℕ → ℕ → Mem → Compression → Connect → Option Buffer → Option Inflated
inflate_new zlib larger size unpacked m z c none = none
inflate_new zlib larger size unpacked m z c (some b) =
    some (inflate_into zlib larger size unpacked m z c b)

unfoldable pub inflate_packet :
    Zlib → ReadAnswers → ℕ → ℕ → Mem → Compression → Connect → Option Inflated
inflate_packet zlib a size unpacked m z c =
    if c.has_read_buffer
    then some (inflate_into zlib a.larger size unpacked m z c c.read_buffer)
    else inflate_new zlib a.larger size unpacked m z c (buffer_create a.object a.block)

abbrev pub count_packet : Compression → Compression
count_packet z = record z { compressed_packet_number = u8 (z.compressed_packet_number + 1) }

-- A whole packet of `size` bytes is in the buffer.
unfoldable pub inflate_whole :
    Zlib → Platform → ReadAnswers → ℕ → Mem → Compression → Connect → Option Inflated
inflate_whole zlib e a size m z c =
    let p = z.read_buffer_compress.buffer_read_ptr in
    let z' = count_packet z in
    if is_char e.plain z'.compressed_packet_number (m (p + 3))
    then inflate_packet zlib a size (unpack_int3 m (p + 4)) m (header_taken size z') c
    else some (record {
      got = true;
      memory = m;
      comp = z';
      con = read_failed ret_packet_out_of_sequence c;
    })

-- `attachsql_con_decompress_read_buffer`
unfoldable pub decompress_read_buffer :
    Zlib → Platform → ReadAnswers → Mem → Compression → Connect → Option Inflated
decompress_read_buffer zlib e a m z c =
    let data_size = buffer_unread_data z.read_buffer_compress in
    let size = unpack_int3 m z.read_buffer_compress.buffer_read_ptr in
    let wait : Option Inflated = some (record { got = false; memory = m; comp = z; con = c }) in
    if ltb data_size 7
    then wait
    else if ltb data_size (u32 (size + 7))
    then wait
    else inflate_whole zlib e a size m z c

-- The memory and the connection after the packet loop, and what it returns.
pub record Processed : Type 0 where
  pub done : Bool
  pub memory : Mem
  pub comp : Compression
  pub con : Connect

abbrev pub processed : Mem → Compression → Option (Bool × Connect) → Option Processed
processed m z none = none
processed m z (some (r, c)) = some (record { done = r; memory = m; comp = z; con = c })

-- The packet loop, unless there is neither a packet nor a read buffer. The fuel is as without zlib.
unfoldable pub process_inflated : Handshake → Platform → Option Inflated → Option Processed
process_inflated h e none = none
process_inflated h e (some r) =
    if not r.got && not r.con.has_read_buffer
    then processed r.memory r.comp (some (false, r.con))
    else processed r.memory r.comp
        (process_loop h e r.memory (suc (buffer_unread_data r.con.read_buffer)) r.con)

-- `attachsql_con_process_packets`; `none` is a write through NULL or a loop without fuel.
unfoldable pub con_process_packets_zlib :
    Handshake → Zlib → Platform → ReadAnswers → Mem → Compression → Connect → Option Processed
con_process_packets_zlib h zlib e a m z c =
    if not c.compression && not c.has_read_buffer
    then processed m z (some (false, c))
    else if not c.compression
    then processed m z (process_loop h e m (suc (buffer_unread_data c.read_buffer)) c)
    else if not z.has_read_buffer_compress
    then processed m z (some (false, c))
    else process_inflated h e (decompress_read_buffer zlib e a m z c)

-- Where the event loop may write how much, and what `on_alloc` leaves.
pub record OfferedZlib : Type 0 where
  pub memory : Mem
  pub comp : Compression
  pub con : Connect
  pub base : ℕ
  pub len : ℕ

-- The offer in the read buffer is the one without zlib.
abbrev pub offer_plain : Compression → Option Offered → Option OfferedZlib
offer_plain z none = none
offer_plain z (some o) =
    some (record { memory = o.memory; comp = z; con = o.con; base = o.base; len = o.len })

abbrev pub offer_compressed : Compression → Connect → Mem → Buffer → OfferedZlib
offer_compressed z c m b = record {
  memory = m;
  comp = record z { has_read_buffer_compress = true; read_buffer_compress = b };
  con = c;
  base = b.buffer_write_ptr;
  len = buffer_get_available (some b);
}

unfoldable pub offer_compressed_room :
    Option ℕ → Mem → ℕ → Compression → Connect → Buffer → OfferedZlib
offer_compressed_room larger m suggested z c b =
    if ltb (buffer_get_available (some b)) suggested
    then (let r = buffer_increase larger m b in offer_compressed z c r.1 r.2)
    else offer_compressed z c m b

abbrev pub offer_compressed_new :
    Option ℕ → Mem → ℕ → Compression → Connect → Option Buffer → Option OfferedZlib
offer_compressed_new larger m suggested z c none = none
offer_compressed_new larger m suggested z c (some b) =
    some (offer_compressed_room larger m suggested z c b)

-- `on_alloc`; `none` is a buffer that was not created, which is then read through NULL.
unfoldable pub on_alloc_zlib : ReadAnswers → Mem → ℕ → Compression → Connect → Option OfferedZlib
on_alloc_zlib a m suggested z c =
    if not c.compression
    then offer_plain z (on_alloc a m suggested c)
    else if z.has_read_buffer_compress
    then some (offer_compressed_room a.larger m suggested z c z.read_buffer_compress)
    else offer_compressed_new a.larger m suggested z c (buffer_create a.object a.block)

-- `attachsql_read_data_cb`; an error of the event loop is as without zlib.
unfoldable pub read_data_cb_zlib :
    Handshake
    → Zlib
    → Platform
    → ReadAnswers
    → Mem
    → ReadSize
    → Compression
    → Connect
    → Option Processed
read_data_cb_zlib h zlib e a m (read_failure failure) z c =
    processed m z (read_data_cb h e m (read_failure failure) c)
read_data_cb_zlib h zlib e a m (read_bytes n) z c =
    if c.compression
    then con_process_packets_zlib h zlib e a m
        (record z { read_buffer_compress = buffer_move_write_ptr z.read_buffer_compress n }) c
    else con_process_packets_zlib h zlib e a m z
        (record c { read_buffer = buffer_move_write_ptr c.read_buffer n })
