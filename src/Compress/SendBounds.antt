-- ===== src/Compress/SendBounds.antt =====
-- The two buffers of `attachsql_send_compressed_packet`: within which bounds they are written, and
-- when a packet is handed over.
use libattachsql.Prelude.{ℕ, ◌≤◌, ◌≡◌, ◌≢◌, Bool, true, List, [], length, if◌then◌else◌}
use libattachsql.Net.Connect.{Connect, command_status_send_failed, command_status_read_response}
use libattachsql.Compress.Zlib.{Zlib, Compression}
use libattachsql.Compress.Send.{Handed}

-- The buffers after a call: the packet's bytes and the room that `compress` was told are in them.
pub record IsWithin (zlib : Zlib) (required : ℕ) (large : Bool) (z : Compression) : Type 0 where
  pub uncompressed_in : required ≤ z.uncompressed_buffer_len
  pub bound_in : large ≡ true → zlib.compress_bound required ≤ z.compressed_buffer_len

-- `compress` succeeds on this packet in any room that it says is enough, and makes it no longer.
abbrev pub Compresses : Zlib → List ℕ → Type 0
Compresses zlib packet =
    (room : ℕ)
    → zlib.compress_bound (length packet) ≤ room
    → ((zlib.compress room packet).0 ≡ true)
      × (length (zlib.compress room packet).1 ≤ length packet)

-- The answer to `uv_write` decides how a call ends that hands over the packet.
abbrev pub HandedOver : Bool → Handed → Type 0
HandedOver written h =
    (h.bytes ≢ [])
    × (h.con.command_status
        ≡ (if written then command_status_read_response else command_status_send_failed))
