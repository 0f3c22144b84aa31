-- ===== src/Statement/GetterLaws.antt =====
-- What the getters of src/statement_getset.cc make of the integers of a row.
use libattachsql.Prelude.{
  ℕ, ◌+◌, ◌-◌, ◌/◌, ◌%◌, ◌^◌, ◌≤◌, ◌<◌, ◌≡◌, ◌≢◌, inl, inr, refl, ap, ◌∙◌, arith, Bool, false,
  Option, none, some, List, ltb, leb, get_elem?, if◌then◌else◌, lt→leb, Bool-cases, Option-cases,
}
use libattachsql.Prelude.Int.{ℤ, pos, negsuc, signed_of, cast_signed}
use libattachsql.Prelude.Memory.{Mem}
use libattachsql.Pack.Ints.{PlainChar, unpack_int2, unpack_int4, unpack_int8}
use libattachsql.Pack.IntLaws.{
  Bytes2, Bytes4, unpack_int2_lem, unpack_int3_lem, unpack_int4-lt, unpack_int8-lt, unpack_int2_of,
  unpack_int4_of, unpack_int8_of,
}
use libattachsql.Net.Connect.{Connect}
use libattachsql.Net.ProcessLaws.{IsBytes}
use libattachsql.Statement.Types.{
  ColumnType, type_decimal, type_tiny, type_short, type_long, type_float, type_double, type_null,
  type_timestamp, type_longlong, type_int24, type_date, type_time, type_datetime, type_year,
  type_varchar, type_bit, type_newdecimal, type_enum, type_set, type_tiny_blob, type_medium_blob,
  type_long_blob, type_blob, type_varstring, type_string, type_geometry, type_error, type_other,
}
use libattachsql.Statement.Row.{StmtCell}
use libattachsql.Statement.Getters.{
  Floats, Get, got, refused, stale, cell_of, int_at, int_unsigned_at, bigint_at, bigint_unsigned_at,
  statement_get_int, statement_get_int_unsigned, statement_get_bigint,
  statement_get_bigint_unsigned,
}
use libattachsql.Statement.Texts.{double_at, statement_get_double}

-- The bits of an integer type.
abbrev pub width : ColumnType → ℕ
width type_tiny = 8
width type_short = 16
width type_year = 16
width type_long = 32
width _ = 64

-- The pattern `x` of an integer type stands at `p`, lowest byte first.
pub data IntAt (m : Mem) (p x : ℕ) : ColumnType → Type 0 where
  tiny : m p ≡ x → x < 2 ^ 8 → IntAt m p x type_tiny
  short : Bytes2 m p x 0 → x < 2 ^ 16 → IntAt m p x type_short
  year : Bytes2 m p x 0 → x < 2 ^ 16 → IntAt m p x type_year
  long : Bytes4 m p x 0 → x < 2 ^ 32 → IntAt m p x type_long
  longlong : Bytes4 m p x 0 → Bytes4 m (p + 4) x 32 → x < 2 ^ 64 → IntAt m p x type_longlong

-- The four `switch`es at such a value.
abbrev Reads : Floats → Mem → ℕ → ℕ → ColumnType → Type 0
Reads fl m p x t =
    (bigint_at fl m t p ≡ got (signed_of (width t) x))
    × (bigint_unsigned_at fl m t p ≡ got x)
    × (int_at fl m t p ≡ got (cast_signed 32 (signed_of (width t) x)))
    × (int_unsigned_at fl m t p ≡ got (x % 2 ^ 32))

int-Reads : (fl : Floats) (m : Mem) (p x : ℕ) {t : ColumnType} → IntAt m p x t → Reads fl m p x t
unfolding bigint_at bigint_unsigned_at int_at int_unsigned_at
int-Reads fl m p x (tiny e h) = rw e (refl, ground arith, ground arith, ground arith)
int-Reads fl m p x (short b h) =
    let e : unpack_int2 m p ≡ x = omega (arith, unpack_int2_of m p x b) in
    rw e (refl, ground arith, ground arith, ground arith)
int-Reads fl m p x (year b h) =
    let e : unpack_int2 m p ≡ x = omega (arith, unpack_int2_of m p x b) in
    rw e (refl, ground arith, ground arith, ground arith)
int-Reads fl m p x (long b h) =
    let e : unpack_int4 m p ≡ x = omega (arith, unpack_int4_of m p x b) in
    rw e (refl, ground arith, ground arith, ground arith)
int-Reads fl m p x (longlong b c h) =
    let e : unpack_int8 m p ≡ x = omega (arith, unpack_int8_of m p x b c) in
    rw e (refl, refl, ground arith, ground arith)

cell_of_lem {ℓ} :
    {A : Type ℓ} (c : Connect) (cells : List StmtCell) (column : ℕ) (x : StmtCell)
    (k : StmtCell → Get A)
    → column < c.result.column_count
    → get_elem? cells column ≡ some x
    → cell_of (some c) (some cells) column k ≡ k x
unfolding cell_of
cell_of_lem c cells column x k h e = rw (lt→leb c.result.column_count column h, e)

-- Where a column of the result has an integer type other than INT24 and the pattern `x` of that
-- type stands at its cell, the four getters of integers return: the signed 64-bit one the number
-- that the pattern stands for, the unsigned one the pattern, and the 32-bit ones those cut to 32
-- bits, which changes nothing for types of up to 32 bits.
pub statement_get_lem :
    (fl : Floats) (m : Mem) (c : Connect) (cells : List StmtCell) (column x : ℕ) (cell : StmtCell)
    → column < c.result.column_count
    → get_elem? cells column ≡ some cell
    → IntAt m cell.address x cell.cell_type
    → let z = signed_of (width cell.cell_type) x in
      (statement_get_bigint fl m (some c) (some cells) column ≡ got z)
      × (statement_get_bigint_unsigned fl m (some c) (some cells) column ≡ got x)
      × (statement_get_int fl m (some c) (some cells) column ≡ got (cast_signed 32 z))
      × (statement_get_int_unsigned fl m (some c) (some cells) column ≡ got (x % 2 ^ 32))
unfolding statement_get_bigint statement_get_bigint_unsigned statement_get_int
    statement_get_int_unsigned
statement_get_lem fl m c cells column x cell h e i =
    let r = int-Reads fl m cell.address x i in
    (
      cell_of_lem c cells column cell _ h e ∙ r.0,
      cell_of_lem c cells column cell _ h e ∙ r.1,
      cell_of_lem c cells column cell _ h e ∙ r.2,
      cell_of_lem c cells column cell _ h e ∙ r.3,
    )

double_pattern :
    (fl : Floats) (cs : PlainChar) (m : Mem) (p x : ℕ) {t : ColumnType}
    → IntAt m p x t
    → t ≢ type_tiny
    → double_at fl cs m t p ≡ got (fl.int_to_double (pos x))
unfolding double_at
double_pattern fl cs m p x (tiny e h) n = absurd (n refl)
double_pattern fl cs m p x (short b h) n =
    let e : unpack_int2 m p ≡ x = omega (arith, unpack_int2_of m p x b) in rw e
double_pattern fl cs m p x (year b h) n =
    let e : unpack_int2 m p ≡ x = omega (arith, unpack_int2_of m p x b) in rw e
double_pattern fl cs m p x (long b h) n =
    let e : unpack_int4 m p ≡ x = omega (arith, unpack_int4_of m p x b) in rw e
double_pattern fl cs m p x (longlong b c h) n =
    let e : unpack_int8 m p ≡ x = omega (arith, unpack_int8_of m p x b c) in rw e

-- For a negative SMALLINT, YEAR, INT or BIGINT, whose pattern `x` is at least half of the range,
-- `get_double` converts the pattern as if it were unsigned, while `get_bigint` returns the negative
-- number.
pub statement_get_double_sign :
    (fl : Floats) (cs : PlainChar) (m : Mem) (c : Connect) (cells : List StmtCell) (column x : ℕ)
    (cell : StmtCell)
    → column < c.result.column_count
    → get_elem? cells column ≡ some cell
    → IntAt m cell.address x cell.cell_type
    → cell.cell_type ≢ type_tiny
    → 2 ^ width cell.cell_type / 2 ≤ x
    → (statement_get_double fl cs m (some c) (some cells) column ≡ got (fl.int_to_double (pos x)))
      × (statement_get_bigint fl m (some c) (some cells) column
          ≡ got (negsuc (2 ^ width cell.cell_type - 1 - x)))
unfolding statement_get_double
statement_get_double_sign fl cs m c cells column x cell h e i n neg =
    let large : ltb x (2 ^ width cell.cell_type / 2) ≡ false = ground arith in
    (
      cell_of_lem c cells column cell _ h e ∙ double_pattern fl cs m cell.address x i n,
      (statement_get_lem fl m c cells column x cell h e i).0
          ∙ ap (λ (b : Bool). got (if b then pos x else negsuc (2 ^ width cell.cell_type - 1 - x)))
              large,
    )

-- A value of a getter, under a conversion.
abbrev pub converted : (ℤ → ℤ) → Get ℤ → Get ℤ
converted f (got z) = got (f z)
converted f (refused e) = refused e
converted f stale = stale

-- The types that are not floating point.
abbrev pub IsExact : ColumnType → Type 0
IsExact t = (t ≢ type_float) × (t ≢ type_double)

int_at-bigint_at :
    (fl : Floats) (m : Mem) (p : ℕ) (t : ColumnType)
    → IsBytes m
    → IsExact t
    → int_at fl m t p ≡ converted (cast_signed 32) (bigint_at fl m t p)
unfolding int_at bigint_at
int_at-bigint_at fl m p type_tiny b n = ap got (ground (arith, b p))
int_at-bigint_at fl m p type_year b n =
    ap got (ground (arith, unpack_int2_lem m p (b p) (b (p + 1)), b p, b (p + 1)))
int_at-bigint_at fl m p type_short b n =
    ap got (ground (arith, unpack_int2_lem m p (b p) (b (p + 1)), b p, b (p + 1)))
int_at-bigint_at fl m p type_long b n =
    ap got (ground (arith, unpack_int4-lt m p (b p) (b (p + 1)) (b (p + 2)) (b (p + 3))))
int_at-bigint_at fl m p type_longlong b n = ap got (ground (arith, unpack_int8-lt m p b))
int_at-bigint_at fl m p type_float b n = absurd (n.0 refl)
int_at-bigint_at fl m p type_double b n = absurd (n.1 refl)
int_at-bigint_at fl m p type_null b n = ap got (ground arith)
int_at-bigint_at fl m p type_int24 b n =
    ap got
      (ground (arith, unpack_int3_lem m p (b p) (b (p + 1)) (b (p + 2)), b p, b (p + 1), b (p + 2)))
int_at-bigint_at fl m p type_decimal b n = refl
int_at-bigint_at fl m p type_timestamp b n = refl
int_at-bigint_at fl m p type_date b n = refl
int_at-bigint_at fl m p type_time b n = refl
int_at-bigint_at fl m p type_datetime b n = refl
int_at-bigint_at fl m p type_varchar b n = refl
int_at-bigint_at fl m p type_bit b n = refl
int_at-bigint_at fl m p type_newdecimal b n = refl
int_at-bigint_at fl m p type_enum b n = refl
int_at-bigint_at fl m p type_set b n = refl
int_at-bigint_at fl m p type_tiny_blob b n = refl
int_at-bigint_at fl m p type_medium_blob b n = refl
int_at-bigint_at fl m p type_long_blob b n = refl
int_at-bigint_at fl m p type_blob b n = refl
int_at-bigint_at fl m p type_varstring b n = refl
int_at-bigint_at fl m p type_string b n = refl
int_at-bigint_at fl m p type_geometry b n = refl
int_at-bigint_at fl m p type_error b n = refl
int_at-bigint_at fl m p (type_other k) b n = ap got (ground arith)

cell_of-converted :
    (f : ℤ → ℤ) (con : Option Connect) (row : Option (List StmtCell)) (column : ℕ)
    (k l : StmtCell → Get ℤ)
    → ((cells : List StmtCell) (x : StmtCell)
        → row ≡ some cells
        → get_elem? cells column ≡ some x
        → k x ≡ converted f (l x))
    → cell_of con row column k ≡ converted f (cell_of con row column l)
unfolding cell_of
cell_of-converted f none row column k l h = refl
cell_of-converted f (some c) none column k l h = refl
cell_of-converted f (some c) (some cells) column k l h =
    elim (Bool-cases (leb c.result.column_count column)) [
      | inl e ↦ rw e
      | inr e ↦ elim (Option-cases (get_elem? cells column)) [
        | inl g ↦ rw (e, g)
        | inr (x, g) ↦ rw (e, g) (h cells x refl g)
      ]
    ]

-- On every connection, row and column, errors included, `get_int` is `get_bigint` cut to 32 bits,
-- whatever type the column's cell has but a floating point one.
pub statement_get_int-statement_get_bigint :
    (fl : Floats) (m : Mem) (con : Option Connect) (row : Option (List StmtCell)) (column : ℕ)
    → IsBytes m
    → ((cells : List StmtCell) (x : StmtCell)
        → row ≡ some cells
        → get_elem? cells column ≡ some x
        → IsExact x.cell_type)
    → statement_get_int fl m con row column
      ≡ converted (cast_signed 32) (statement_get_bigint fl m con row column)
unfolding statement_get_int statement_get_bigint
statement_get_int-statement_get_bigint fl m con row column b h =
    cell_of-converted (cast_signed 32) con row column _ _
      (λ cells x e g. int_at-bigint_at fl m x.address x.cell_type b (h cells x e g))
