-- ===== src/Compress/Process.antt =====
-- The packet loop on a compressed connection is the one without compression, on what was inflated.
use libattachsql.Prelude.{
  ℕ, suc, ◌≡◌, arith, sym, ap, ◌∙◌, true, not, ◌&&◌, List, ◌++◌, length, if_false,
}
use libattachsql.Prelude.Memory.{Mem, write}
use libattachsql.Buffer.Ops.{Buffer, buffer_move_write_ptr, buffer_unread_data}
use libattachsql.Buffer.Steps.{unread_bytes}
use libattachsql.Net.Connect.{Connect}
use libattachsql.Net.Response.{Platform}
use libattachsql.Net.Process.{Handshake, con_process_packets, process_loop}
use libattachsql.Net.Read.{ReadAnswers, read_bytes, read_data_cb}
use libattachsql.Compress.Zlib.{Zlib, IsZlib, Compression}
use libattachsql.Compress.Frames.{Frames}
use libattachsql.Compress.Receive.{
  with_read_buffer, processed, process_inflated, con_process_packets_zlib,
}
use libattachsql.Compress.ReceiveLaws.{taken}
use libattachsql.Compress.RoundTrip.{IsReady, decompress-Frames}

same_loop :
    (h : Handshake) (e : Platform) (m : Mem) (c : Connect) (b : Buffer)
    → c.has_read_buffer ≡ true
    → process_loop h e m (suc (buffer_unread_data b)) (with_read_buffer c b)
      ≡ con_process_packets h e m (record c { read_buffer = b })
unfolding con_process_packets
same_loop h e m c b has =
    ap
      (λ has.
        process_loop h e m (suc (buffer_unread_data b))
          (record c { has_read_buffer = has; read_buffer = b }))
      (sym has)
    ∙ sym (if_false (not c.compression && not c.has_read_buffer) _ _ (ground (arith, has)))

-- Where a frame of a packet is first in the compressed buffer of a connection that is ready for it,
-- the packet loop does what the callback for reads does where the packet's bytes arrive without
-- compression. One frame is taken in a call: the bytes behind it, further frames among them, are left
-- in the compressed buffer.
pub process_packets-Frames :
    (h : Handshake) (zlib : Zlib) (e : Platform) (a : ReadAnswers) (m : Mem) (z : Compression)
    (c : Connect) {number : ℕ} (packet : List ℕ) {bs : List ℕ} (rest : List ℕ)
    → IsZlib zlib
    → Frames zlib number packet bs
    → IsReady m z c number packet
    → unread_bytes m z.read_buffer_compress ≡ bs ++ rest
    → c.compression ≡ true
    → z.has_read_buffer_compress ≡ true
    → let m' = write m c.read_buffer.buffer_write_ptr packet in
      (z' : Compression) × (con_process_packets_zlib h zlib e a m z c
        ≡ processed m' z' (read_data_cb h e m' (read_bytes (length packet)) c))
      × (unread_bytes m' z'.read_buffer_compress ≡ rest)
unfolding con_process_packets_zlib process_inflated read_data_cb
process_packets-Frames h zlib e a m z c packet rest law frame y held on has =
    let (size, got, inflated) = decompress-Frames zlib e a m z c packet rest law frame y held in
    let c' = record c { read_buffer = buffer_move_write_ptr c.read_buffer (length packet) } in
    (
      (taken size m z c packet).comp,
      if_false (not c.compression && not c.has_read_buffer) _ _ (ground (arith, on))
          ∙ if_false (not c.compression) _ _ (ground (arith, on))
          ∙ if_false (not z.has_read_buffer_compress) _ _ (ground (arith, has))
          ∙ ap (process_inflated h e) got
          ∙ ap
              (processed (write m c.read_buffer.buffer_write_ptr packet)
                (taken size m z c packet).comp)
              (same_loop h e (write m c.read_buffer.buffer_write_ptr packet) c c'.read_buffer
                y.has),
      inflated.compressed_bytes,
    )
