-- ===== src/Compress/Faults.antt =====
-- Compressed packets that `attachsql_con_decompress_read_buffer` does not take as it should.
use libattachsql.Prelude.{
  ℕ, suc, ◌+◌, ◌^◌, ◌<◌, ◌≡◌, ◌≢◌, refl, ap, ◌∙◌, arith, true, false, not, ◌&&◌, some, List, ◌++◌,
  length, if_false, ltb,
}
use libattachsql.Prelude.Bits.{u8, u32}
use libattachsql.Prelude.Memory.{Mem}
use libattachsql.Buffer.Ops.{buffer_move_write_ptr, buffer_unread_data, ret_packet_out_of_sequence}
use libattachsql.Buffer.Room.{IsValid}
use libattachsql.Buffer.Steps.{unread_bytes}
use libattachsql.Pack.Ints.{PlainChar, signed_char, unsigned_char, unpack_int3}
use libattachsql.Net.Connect.{Connect}
use libattachsql.Net.Response.{Platform}
use libattachsql.Net.Process.{Handshake, is_char, process_loop, turn, after_turn}
use libattachsql.Net.QueueLaws.{peek_empty}
use libattachsql.Net.Read.{ReadAnswers}
use libattachsql.Compress.Zlib.{Zlib, Compression}
use libattachsql.Compress.Send.{compressed_header}
use libattachsql.Compress.Receive.{
  read_failed, count_packet, processed, process_inflated, inflate_whole, decompress_read_buffer,
  con_process_packets_zlib,
}
use libattachsql.Compress.ReceiveLaws.{taken, whole_lem, split_lem, inflate_plain}
use libattachsql.Compress.RoundTrip.{same_char}

-- A packet that is not compressed, and that comes in sequence with a number below 128, is copied
-- without a test for room: where the read buffer has fewer free bytes, the packet is written beyond the end of its block, and the write pointer is set there.
pub decompress-overruns :
    (zlib : Zlib) (e : Platform) (a : ReadAnswers) (m : Mem) (z : Compression) (c : Connect)
    (number : ℕ) (packet rest : List ℕ)
    → c.has_read_buffer ≡ true
    → IsValid z.read_buffer_compress
    → u8 (z.compressed_packet_number + 1) ≡ number
    → number < 128
    → length packet < 2 ^ 24
    → unread_bytes m z.read_buffer_compress
      ≡ compressed_header (length packet) number 0 ++ (packet ++ rest)
    → c.read_buffer.buffer + c.read_buffer.buffer_size
      < c.read_buffer.buffer_write_ptr + length packet
    → let r = taken (length packet) m z c packet in
      let b = r.con.read_buffer in
      (decompress_read_buffer zlib e a m z c ≡ some r)
      × (b.buffer + b.buffer_size < b.buffer_write_ptr)
unfolding buffer_move_write_ptr
decompress-overruns zlib e a m z c number packet rest has v next low small h over =
    let (count, is_size, is_number, is_unpacked, held, left) =
      split_lem m z (length packet) number 0 packet rest v h in
    let in_sequence =
      same_char e.plain (count_packet z).compressed_packet_number
        (m (z.read_buffer_compress.buffer_read_ptr + 3)) number next is_number low in
    (
      whole_lem zlib e a m z c has in_sequence (length packet) 0 small (omega (arith, is_size))
            (omega (arith, is_unpacked)) (omega (arith, count)) (omega arith)
          ∙ ap some (inflate_plain zlib m z c packet held),
      over,
    )

other_char : (p : PlainChar) (a b : ℕ) → a ≢ b → is_char p a b ≡ false
other_char signed_char a b n = ground arith
other_char unsigned_char a b n = ground arith

-- The loop ends at once where nothing is expected.
loop_ends :
    (h : Handshake) (e : Platform) (m : Mem) (fuel : ℕ) (c : Connect)
    → c.queue.next_packet_queue_used ≡ 0
    → process_loop h e m (suc fuel) c ≡ some (false, c)
unfolding process_loop turn after_turn
loop_ends h e m fuel c z =
    ap (λ t. after_turn (λ c'. process_loop h e m fuel c') (turn h e m t c)) (peek_empty c.queue z)

-- A whole packet whose number is not the one after that of the last ends the loop: it returns false,
-- and the error is kept, nothing is expected any more and the command has failed. The packet is
-- not taken, but its number is counted: the memory and both buffers are as before.
pub process_packets-out_of_sequence :
    (h : Handshake) (zlib : Zlib) (e : Platform) (a : ReadAnswers) (m : Mem) (z : Compression)
    (c : Connect) (number unpacked : ℕ) (bs rest : List ℕ)
    → c.compression ≡ true
    → z.has_read_buffer_compress ≡ true
    → IsValid z.read_buffer_compress
    → length bs < 2 ^ 24
    → unread_bytes m z.read_buffer_compress
      ≡ compressed_header (length bs) number unpacked ++ (bs ++ rest)
    → u8 (z.compressed_packet_number + 1) ≢ number
    → con_process_packets_zlib h zlib e a m z c
      ≡ some (record {
        done = false;
        memory = m;
        comp = count_packet z;
        con = read_failed ret_packet_out_of_sequence c;
      })
unfolding con_process_packets_zlib process_inflated decompress_read_buffer inflate_whole
process_packets-out_of_sequence h zlib e a m z c number unpacked bs rest on has v small held other =
    let (count, is_size, is_number, _, _, _) =
      split_lem m z (length bs) number unpacked bs rest v held in
    let p = z.read_buffer_compress.buffer_read_ptr in
    let n = buffer_unread_data z.read_buffer_compress in
    let head : ltb n 7 ≡ false = ground arith in
    let all : ltb n (u32 (unpack_int3 m p + 7)) ≡ false = ground (arith, is_size) in
    let differs =
      other_char e.plain (count_packet z).compressed_packet_number (m (p + 3))
        (λ same. other (same ∙ is_number)) in
    if_false (not c.compression && not c.has_read_buffer) _ _ (ground (arith, on))
    ∙ if_false (not c.compression) _ _ (ground (arith, on))
    ∙ if_false (not z.has_read_buffer_compress) _ _ (ground (arith, has))
    ∙ ap (process_inflated h e) (if_false _ _ _ head ∙ if_false _ _ _ all ∙ if_false _ _ _ differs)
    ∙ ap (processed m (count_packet z))
        (loop_ends h e m _ (read_failed ret_packet_out_of_sequence c) refl)
