-- ===== src/Statement/Getters.antt =====
-- The getters of src/statement_getset.cc that convert a cell of a statement's row to a number. A
-- getter of the source is its three guards, `cell_of`, and the `switch` on the cell's type.
use libattachsql.Prelude.{ℕ, Option, none, some, List, leb, if◌then◌else◌, get_elem?}
use libattachsql.Prelude.Bits.{u8, u16, u32}
use libattachsql.Prelude.Int.{ℤ, pos, signed_of}
use libattachsql.Prelude.Memory.{Mem, read}
use libattachsql.Pack.Ints.{unpack_int2, unpack_int3, unpack_int4, unpack_int8}
use libattachsql.Net.Connect.{Connect}
use libattachsql.Statement.Types.{
  ColumnType, type_decimal, type_tiny, type_short, type_long, type_float, type_double, type_null,
  type_timestamp, type_longlong, type_int24, type_date, type_time, type_datetime, type_year,
  type_varchar, type_bit, type_newdecimal, type_enum, type_set, type_tiny_blob, type_medium_blob,
  type_long_blob, type_blob, type_varstring, type_string, type_geometry, type_error, type_other,
}
use libattachsql.Statement.Row.{StmtCell}

-- The compiler's conversions of floating point numbers, which are given by their four or eight
-- bytes.
pub record Floats : Type 0 where
  pub float_to_signed : ℕ → List ℕ → ℤ
  pub float_to_unsigned : ℕ → List ℕ → ℕ
  pub double_to_signed : ℕ → List ℕ → ℤ
  pub double_to_unsigned : ℕ → List ℕ → ℕ
  pub float_to_double : List ℕ → List ℕ
  pub int_to_double : ℤ → List ℕ

pub data GetError : Type 0 where
  no_connection no_row no_column no_length cannot_convert : GetError

-- A getter's value, or the error that it creates, where it returns 0 or NULL. `stale` is a cell
-- behind those that were stored.
pub data Get {ℓ} (A : Type ℓ) : Type ℓ where
  got : A → Get A
  refused : GetError → Get A
  stale : Get A

abbrev pub in_row {ℓ} : {A : Type ℓ} → Option StmtCell → (StmtCell → Get A) → Get A
in_row none k = stale
in_row (some x) k = k x

unfoldable pub cell_of {ℓ} :
    {A : Type ℓ} → Option Connect → Option (List StmtCell) → ℕ → (StmtCell → Get A) → Get A
cell_of none row column k = refused no_connection
cell_of (some c) none column k = refused no_row
cell_of (some c) (some cells) column k =
    if leb c.result.column_count column
    then refused no_column
    else in_row (get_elem? cells column) k

-- The `switch` of each getter, for a value at `p`.
unfoldable pub int_at : Floats → Mem → ColumnType → ℕ → Get ℤ
int_at fl m type_tiny p = got (signed_of 8 (m p))
int_at fl m type_year p = got (signed_of 16 (unpack_int2 m p))
int_at fl m type_short p = got (signed_of 16 (unpack_int2 m p))
int_at fl m type_long p = got (signed_of 32 (unpack_int4 m p))
int_at fl m type_longlong p = got (signed_of 32 (u32 (unpack_int8 m p)))
int_at fl m type_float p = got (fl.float_to_signed 32 (read m p 4))
int_at fl m type_double p = got (fl.double_to_signed 32 (read m p 8))
int_at fl m type_null p = got (pos 0)
int_at fl m type_int24 p = got (signed_of 32 (unpack_int3 m p))
int_at fl m type_decimal p = refused cannot_convert
int_at fl m type_timestamp p = refused cannot_convert
int_at fl m type_date p = refused cannot_convert
int_at fl m type_time p = refused cannot_convert
int_at fl m type_datetime p = refused cannot_convert
int_at fl m type_varchar p = refused cannot_convert
int_at fl m type_bit p = refused cannot_convert
int_at fl m type_newdecimal p = refused cannot_convert
int_at fl m type_enum p = refused cannot_convert
int_at fl m type_set p = refused cannot_convert
int_at fl m type_tiny_blob p = refused cannot_convert
int_at fl m type_medium_blob p = refused cannot_convert
int_at fl m type_long_blob p = refused cannot_convert
int_at fl m type_blob p = refused cannot_convert
int_at fl m type_varstring p = refused cannot_convert
int_at fl m type_string p = refused cannot_convert
int_at fl m type_geometry p = refused cannot_convert
int_at fl m type_error p = refused cannot_convert
int_at fl m (type_other n) p = got (pos 0)

unfoldable pub int_unsigned_at : Floats → Mem → ColumnType → ℕ → Get ℕ
int_unsigned_at fl m type_tiny p = got (u8 (m p))
int_unsigned_at fl m type_year p = got (u16 (unpack_int2 m p))
int_unsigned_at fl m type_short p = got (u16 (unpack_int2 m p))
int_unsigned_at fl m type_long p = got (u32 (unpack_int4 m p))
int_unsigned_at fl m type_longlong p = got (u32 (unpack_int8 m p))
int_unsigned_at fl m type_float p = got (fl.float_to_unsigned 32 (read m p 4))
int_unsigned_at fl m type_double p = got (fl.double_to_unsigned 32 (read m p 8))
int_unsigned_at fl m type_null p = got (0)
int_unsigned_at fl m type_int24 p = got (u32 (unpack_int3 m p))
int_unsigned_at fl m type_decimal p = refused cannot_convert
int_unsigned_at fl m type_timestamp p = refused cannot_convert
int_unsigned_at fl m type_date p = refused cannot_convert
int_unsigned_at fl m type_time p = refused cannot_convert
int_unsigned_at fl m type_datetime p = refused cannot_convert
int_unsigned_at fl m type_varchar p = refused cannot_convert
int_unsigned_at fl m type_bit p = refused cannot_convert
int_unsigned_at fl m type_newdecimal p = refused cannot_convert
int_unsigned_at fl m type_enum p = refused cannot_convert
int_unsigned_at fl m type_set p = refused cannot_convert
int_unsigned_at fl m type_tiny_blob p = refused cannot_convert
int_unsigned_at fl m type_medium_blob p = refused cannot_convert
int_unsigned_at fl m type_long_blob p = refused cannot_convert
int_unsigned_at fl m type_blob p = refused cannot_convert
int_unsigned_at fl m type_varstring p = refused cannot_convert
int_unsigned_at fl m type_string p = refused cannot_convert
int_unsigned_at fl m type_geometry p = refused cannot_convert
int_unsigned_at fl m type_error p = refused cannot_convert
int_unsigned_at fl m (type_other n) p = got (0)

unfoldable pub bigint_at : Floats → Mem → ColumnType → ℕ → Get ℤ
bigint_at fl m type_tiny p = got (signed_of 8 (m p))
bigint_at fl m type_year p = got (signed_of 16 (unpack_int2 m p))
bigint_at fl m type_short p = got (signed_of 16 (unpack_int2 m p))
bigint_at fl m type_long p = got (signed_of 32 (unpack_int4 m p))
bigint_at fl m type_longlong p = got (signed_of 64 (unpack_int8 m p))
bigint_at fl m type_float p = got (fl.float_to_signed 64 (read m p 4))
bigint_at fl m type_double p = got (fl.double_to_signed 64 (read m p 8))
bigint_at fl m type_null p = got (pos 0)
bigint_at fl m type_int24 p = got (signed_of 32 (unpack_int3 m p))
bigint_at fl m type_decimal p = refused cannot_convert
bigint_at fl m type_timestamp p = refused cannot_convert
bigint_at fl m type_date p = refused cannot_convert
bigint_at fl m type_time p = refused cannot_convert
bigint_at fl m type_datetime p = refused cannot_convert
bigint_at fl m type_varchar p = refused cannot_convert
bigint_at fl m type_bit p = refused cannot_convert
bigint_at fl m type_newdecimal p = refused cannot_convert
bigint_at fl m type_enum p = refused cannot_convert
bigint_at fl m type_set p = refused cannot_convert
bigint_at fl m type_tiny_blob p = refused cannot_convert
bigint_at fl m type_medium_blob p = refused cannot_convert
bigint_at fl m type_long_blob p = refused cannot_convert
bigint_at fl m type_blob p = refused cannot_convert
bigint_at fl m type_varstring p = refused cannot_convert
bigint_at fl m type_string p = refused cannot_convert
bigint_at fl m type_geometry p = refused cannot_convert
bigint_at fl m type_error p = refused cannot_convert
bigint_at fl m (type_other n) p = got (pos 0)

unfoldable pub bigint_unsigned_at : Floats → Mem → ColumnType → ℕ → Get ℕ
bigint_unsigned_at fl m type_tiny p = got (u8 (m p))
bigint_unsigned_at fl m type_year p = got (u16 (unpack_int2 m p))
bigint_unsigned_at fl m type_short p = got (u16 (unpack_int2 m p))
bigint_unsigned_at fl m type_long p = got (u32 (unpack_int4 m p))
bigint_unsigned_at fl m type_longlong p = got (unpack_int8 m p)
bigint_unsigned_at fl m type_float p = got (fl.float_to_unsigned 32 (read m p 4))
bigint_unsigned_at fl m type_double p = got (fl.double_to_unsigned 32 (read m p 8))
bigint_unsigned_at fl m type_null p = got (0)
bigint_unsigned_at fl m type_int24 p = got (u32 (unpack_int3 m p))
bigint_unsigned_at fl m type_decimal p = refused cannot_convert
bigint_unsigned_at fl m type_timestamp p = refused cannot_convert
bigint_unsigned_at fl m type_date p = refused cannot_convert
bigint_unsigned_at fl m type_time p = refused cannot_convert
bigint_unsigned_at fl m type_datetime p = refused cannot_convert
bigint_unsigned_at fl m type_varchar p = refused cannot_convert
bigint_unsigned_at fl m type_bit p = refused cannot_convert
bigint_unsigned_at fl m type_newdecimal p = refused cannot_convert
bigint_unsigned_at fl m type_enum p = refused cannot_convert
bigint_unsigned_at fl m type_set p = refused cannot_convert
bigint_unsigned_at fl m type_tiny_blob p = refused cannot_convert
bigint_unsigned_at fl m type_medium_blob p = refused cannot_convert
bigint_unsigned_at fl m type_long_blob p = refused cannot_convert
bigint_unsigned_at fl m type_blob p = refused cannot_convert
bigint_unsigned_at fl m type_varstring p = refused cannot_convert
bigint_unsigned_at fl m type_string p = refused cannot_convert
bigint_unsigned_at fl m type_geometry p = refused cannot_convert
bigint_unsigned_at fl m type_error p = refused cannot_convert
bigint_unsigned_at fl m (type_other n) p = got (0)

unfoldable pub statement_get_int :
    Floats → Mem → Option Connect → Option (List StmtCell) → ℕ → Get ℤ
statement_get_int fl m con row column =
    cell_of con row column (λ x. int_at fl m x.cell_type x.address)

unfoldable pub statement_get_int_unsigned :
    Floats → Mem → Option Connect → Option (List StmtCell) → ℕ → Get ℕ
statement_get_int_unsigned fl m con row column =
    cell_of con row column (λ x. int_unsigned_at fl m x.cell_type x.address)

unfoldable pub statement_get_bigint :
    Floats → Mem → Option Connect → Option (List StmtCell) → ℕ → Get ℤ
statement_get_bigint fl m con row column =
    cell_of con row column (λ x. bigint_at fl m x.cell_type x.address)

unfoldable pub statement_get_bigint_unsigned :
    Floats → Mem → Option Connect → Option (List StmtCell) → ℕ → Get ℕ
statement_get_bigint_unsigned fl m con row column =
    cell_of con row column (λ x. bigint_unsigned_at fl m x.cell_type x.address)
