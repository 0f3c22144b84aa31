-- ===== src/Compress/Zlib.antt =====
-- zlib as src/net.cc calls it, and the fields of the connection that only these calls use.
use libattachsql.Prelude.{ℕ, ◌≤◌, ◌≡◌, Bool, true, List, length}
use libattachsql.Prelude.Memory.{Mem}
use libattachsql.Buffer.Ops.{Buffer}

-- `compressBound`; and `compress` and `uncompress` of some bytes into a room of so many: whether the
-- answer is Z_OK, and the bytes that were put in the room.
pub record Zlib : Type 0 where
  pub compress_bound : ℕ → ℕ
  pub compress : ℕ → List ℕ → Bool × List ℕ
  pub uncompress : ℕ → List ℕ → Bool × List ℕ

-- What zlib's manual says: no more is written than there is room for, and what was compressed is
-- got back where it fits.
pub record IsZlib (z : Zlib) : Type 0 where
  pub compress_fits : (room : ℕ) (bs : List ℕ) → length (z.compress room bs).1 ≤ room
  pub uncompress_fits : (room : ℕ) (bs : List ℕ) → length (z.uncompress room bs).1 ≤ room
  pub uncompress-compress :
      (room room' : ℕ) (bs : List ℕ)
      → (z.compress room bs).0 ≡ true
      → length bs ≤ room'
      → z.uncompress room' (z.compress room bs).1 ≡ (true, bs)

-- The fields of `attachsql_connect_t`. The read buffer for compressed packets is only used where
-- `has_read_buffer_compress` says that it is not NULL; the other two buffers hold a byte at each
-- index, and 0 bytes where they are NULL.
pub record Compression : Type 0 where
  pub has_read_buffer_compress : Bool
  pub read_buffer_compress : Buffer
  pub uncompressed_buffer : Mem
  pub uncompressed_buffer_len : ℕ
  pub compressed_buffer : Mem
  pub compressed_buffer_len : ℕ
  pub compressed_packet_header : List ℕ
  pub compressed_packet_number : ℕ
