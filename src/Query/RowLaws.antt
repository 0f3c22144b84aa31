-- ===== src/Query/RowLaws.antt =====
-- The cells that `attachsql_query_row_get` finds are those that the protocol puts in a row.
use libattachsql.Prelude.{
  ℕ, ◌+◌, ◌^◌, ◌≤◌, ◌<◌, ◌≡◌, ◌≢◌, ◌⊎◌, inl, inr, refl, ap, ap₂, arith, true, false, Option, none,
  some, List, [], ◌∷◌, map, length,
}
use libattachsql.Prelude.Memory.{Mem, read}
use libattachsql.Pack.Ints.{PlainChar, signed_char, unsigned_char, char_u64, byte}
use libattachsql.Pack.IntLaws.{Bytes2, Bytes4, unpack_int2_of, unpack_int3_of, unpack_int8_of}
use libattachsql.Pack.Length.{unpack_length}
use libattachsql.Net.Connect.{Cell, Connect, command_status_row_in_buffer}
use libattachsql.Query.Rows.{row_cells, query_row_get, row}

-- The protocol's encoding of the length `n` stands at `p` and takes `k` bytes.
pub data LengthAt (m : Mem) (p n : ℕ) : ℕ → Type 0 where
  one : n ≤ 250 → m p ≡ n → LengthAt m p n 1
  two : 250 < n → n < 2 ^ 16 → m p ≡ 0xfc → Bytes2 m (p + 1) n 0 → LengthAt m p n 3
  three :
      n < 2 ^ 24
      → m p ≡ 0xfd
      → (m (p + 1) ≡ byte n 0) × (m (p + 1 + 1) ≡ byte n 8) × (m (p + 1 + 2) ≡ byte n 16)
      → LengthAt m p n 4
  eight :
      n < 2 ^ 64 → m p ≡ 0xfe → Bytes4 m (p + 1) n 0 → Bytes4 m (p + 1 + 4) n 32 → LengthAt m p n 9

-- The lengths that a plain char does not change.
abbrev pub IsKept : PlainChar → ℕ → Type 0
IsKept cs n = (cs ≡ unsigned_char) ⊎ (n < 128) ⊎ (250 < n)

pub char_kept : (cs : PlainChar) (n : ℕ) → IsKept cs n → n ≤ 250 → char_u64 cs n ≡ n
unfolding char_u64
char_kept unsigned_char n h k = refl
char_kept signed_char n (inl h) k = ground arith
char_kept signed_char n (inr h) k = ground arith

pub length_at :
    (cs : PlainChar) (m : Mem) (p n k : ℕ)
    → p ≢ 0
    → IsKept cs n
    → LengthAt m p n k
    → ((unpack_length cs m p).value ≡ n) × ((unpack_length cs m p).bytes ≡ k)
unfolding unpack_length
length_at cs m p n k z h (one l e) =
    let kept = char_kept cs n h l in
    (ground (arith, e, kept, ap (char_u64 cs) e), ground (arith, e))
length_at cs m p n k z h (two l l2 e b) =
    (ground (arith, e, unpack_int2_of m (p + 1) n b), ground (arith, e))
length_at cs m p n k z h (three l e b) =
    (ground (arith, e, unpack_int3_of m (p + 1) n b), ground (arith, e))
length_at cs m p n k z h (eight l e b c) =
    (ground (arith, e, unpack_int8_of m (p + 1) n b c), ground (arith, e))

-- The row that begins at `p` holds these cells, `none` for NULL, which is one byte.
pub data RowAt (cs : PlainChar) (m : Mem) : ℕ → List (Option (List ℕ)) → Type 0 where
  ends : {p : ℕ} → RowAt cs m p []
  null_cell :
      {p : ℕ} {cells : List (Option (List ℕ))}
      → m p ≡ 0xfb
      → RowAt cs m (p + 1) cells
      → RowAt cs m p (none ∷ cells)
  cell :
      {p k : ℕ} {bs : List ℕ} {cells : List (Option (List ℕ))}
      → LengthAt m p (length bs) k
      → IsKept cs (length bs)
      → read m (p + k) (length bs) ≡ bs
      → RowAt cs m (p + k + length bs) cells
      → RowAt cs m p (some bs ∷ cells)

-- What the program makes of a cell: it does not keep NULL and an empty string apart.
abbrev pub or_empty : Option (List ℕ) → List ℕ
or_empty none = []
or_empty (some bs) = bs

null_at :
    (cs : PlainChar) (m : Mem) (p : ℕ)
    → p ≢ 0
    → m p ≡ 0xfb
    → ((unpack_length cs m p).value ≡ 0) × ((unpack_length cs m p).bytes ≡ 1)
unfolding unpack_length
null_at cs m p z e = (ground (arith, e), ground (arith, e))

-- The bytes of a cell.
abbrev pub text : Mem → Cell → List ℕ
text m c = read m c.address c.cell_length

cells_lem :
    (cs : PlainChar) (m : Mem) (p : ℕ) (cells : List (Option (List ℕ)))
    → p ≢ 0
    → RowAt cs m p cells
    → map (text m) (row_cells cs m (length cells) p) ≡ map or_empty cells
unfolding row_cells read
cells_lem cs m p [] z r = refl
cells_lem cs m p (none ∷ cells) z (null_cell e r) =
    let (v, b) = null_at cs m p z e in
    let next : p + 1 + 0 ≡ p + 1 = omega arith in
    rw (v, b, next) (ap (◌∷◌ []) (cells_lem cs m (p + 1) cells (omega arith) r))
cells_lem cs m p (some bs ∷ cells) z (cell {k = k} l h e r) =
    let (v, b) = length_at cs m p (length bs) k z h l in
    rw (v, b) (ap₂ ◌∷◌ e (cells_lem cs m (p + k + length bs) cells (omega arith) r))

-- Where the read buffer holds a row of the protocol with as many cells as the result has columns,
-- rows are not buffered, and the array for the row is there, `query_row_get` returns cells that
-- point to exactly the bytes of the row's cells in their order. NULL becomes an empty cell, as an empty
-- string does, so the two cannot be told apart. This holds
-- for cells of any length where a plain char is unsigned, and otherwise for cells whose length is
-- not from 128 to 250.
pub query_row_get_lem :
    (cs : PlainChar) (m : Mem) (c : Connect) (cells : List (Option (List ℕ)))
    → c.buffer_rows ≡ false
    → c.command_status ≡ command_status_row_in_buffer
    → c.result.column_count ≡ length cells
    → c.result.row_data ≢ 0
    → RowAt cs m c.result.row_data cells
    → (got : List Cell) × (query_row_get cs true m (some c) ≡ row got)
      × (map (text m) got ≡ map or_empty cells)
unfolding query_row_get
query_row_get_lem cs m c cells h k n z r = (
  row_cells cs m (length cells) c.result.row_data,
  rw (h, k, n),
  cells_lem cs m c.result.row_data cells z r,
)
