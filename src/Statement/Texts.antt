-- ===== src/Statement/Texts.antt =====
-- `attachsql_statement_get_double` and `attachsql_statement_get_char` of src/statement_getset.cc.
use libattachsql.Prelude.{
  ℕ, ◌+◌, ◌-◌, ◌*◌, ◌^◌, ◌%◌, Bool, true, false, not, Option, none, some, List, ◌∷◌, ◌++◌, ◌==◌,
  if◌then◌else◌, bit_and, length, take, replicate,
}
use libattachsql.Prelude.Bits.{u32}
use libattachsql.Prelude.Int.{ℤ, pos, signed_of, pattern_of}
use libattachsql.Prelude.Memory.{Mem, read}
use libattachsql.Pack.Ints.{
  PlainChar, signed_char, unsigned_char, unpack_int2, unpack_int3, unpack_int4, unpack_int8,
}
use libattachsql.Pack.DateTime.{Datetime, new_datetime, unpack_datetime, unpack_time}
use libattachsql.Query.Decimal.{decimal, signed_decimal}
use libattachsql.Net.Connect.{Column, Connect}
use libattachsql.Statement.Types.{
  ColumnType, type_decimal, type_tiny, type_short, type_long, type_float, type_double, type_null,
  type_timestamp, type_longlong, type_int24, type_date, type_time, type_datetime, type_year,
  type_varchar, type_bit, type_newdecimal, type_enum, type_set, type_tiny_blob, type_medium_blob,
  type_long_blob, type_blob, type_varstring, type_string, type_geometry, type_error, type_other,
}
use libattachsql.Statement.Row.{StmtCell}
use libattachsql.Statement.Getters.{Floats, no_length, cannot_convert, Get, got, refused, cell_of}

-- A plain `char` as a number.
abbrev pub char_int : PlainChar → ℕ → ℤ
char_int signed_char b = signed_of 8 b
char_int unsigned_char b = pos b

unfoldable pub double_at : Floats → PlainChar → Mem → ColumnType → ℕ → Get (List ℕ)
double_at fl cs m type_tiny p = got (fl.int_to_double (char_int cs (m p)))
double_at fl cs m type_year p = got (fl.int_to_double (pos (unpack_int2 m p)))
double_at fl cs m type_short p = got (fl.int_to_double (pos (unpack_int2 m p)))
double_at fl cs m type_long p = got (fl.int_to_double (pos (unpack_int4 m p)))
double_at fl cs m type_longlong p = got (fl.int_to_double (pos (unpack_int8 m p)))
double_at fl cs m type_float p = got (fl.float_to_double (read m p 4))
double_at fl cs m type_double p = got (read m p 8)
double_at fl cs m type_null p = got (fl.int_to_double (pos 0))
double_at fl cs m type_int24 p = got (fl.int_to_double (pos (unpack_int3 m p)))
double_at fl cs m type_decimal p = refused cannot_convert
double_at fl cs m type_timestamp p = refused cannot_convert
double_at fl cs m type_date p = refused cannot_convert
double_at fl cs m type_time p = refused cannot_convert
double_at fl cs m type_datetime p = refused cannot_convert
double_at fl cs m type_varchar p = refused cannot_convert
double_at fl cs m type_bit p = refused cannot_convert
double_at fl cs m type_newdecimal p = refused cannot_convert
double_at fl cs m type_enum p = refused cannot_convert
double_at fl cs m type_set p = refused cannot_convert
double_at fl cs m type_tiny_blob p = refused cannot_convert
double_at fl cs m type_medium_blob p = refused cannot_convert
double_at fl cs m type_long_blob p = refused cannot_convert
double_at fl cs m type_blob p = refused cannot_convert
double_at fl cs m type_varstring p = refused cannot_convert
double_at fl cs m type_string p = refused cannot_convert
double_at fl cs m type_geometry p = refused cannot_convert
double_at fl cs m type_error p = refused cannot_convert
double_at fl cs m (type_other n) p = got (fl.int_to_double (pos 0))

unfoldable pub statement_get_double :
    Floats → PlainChar → Mem → Option Connect → Option (List StmtCell) → ℕ → Get (List ℕ)
statement_get_double fl cs m con row column =
    cell_of con row column (λ x. double_at fl cs m x.cell_type x.address)

-- ATTACHSQL_STMT_CHAR_BUFFER_SIZE
abbrev pub stmt_char_buffer_size : ℕ
stmt_char_buffer_size = 40

-- `%0wu` of a number of at most `k + 1` digits.
unfoldable pub padded : ℕ → ℕ → ℕ → List ℕ
padded w k n = let text = decimal k n in replicate (w - length text) b'0' ++ text

-- `snprintf` with "%f", and whether PRIu8, PRId8, PRIu16 and PRId16 have a length modifier, which
-- converts the argument to 8 or 16 bits.
pub record Snprintf : Type 0 where
  pub print_float : List ℕ → List ℕ
  pub print_double : List ℕ → List ℕ
  pub narrows : Bool

-- A text that is printed into `stmt_tmp_buffer`: what the buffer holds before its terminating
-- zero, and the length that is reported, which is that of the whole text.
pub record Printed : Type 0 where
  pub text : List ℕ
  pub reported : ℕ

abbrev pub printed : List ℕ → Printed
printed s = record { text = take (stmt_char_buffer_size - 1) s; reported = length s }

-- The value of `*length` and what the pointer that is returned points to: `stmt_tmp_buffer`, or the
-- cell itself.
pub data CharResult : Type 0 where
  in_buffer : Printed → CharResult
  in_cell : ℕ → ℕ → CharResult
  null_value : CharResult

-- `snprintf` behind a text that was printed, into what is left of the buffer. Where the text was
-- cut, the space left is computed below 0 and wraps, which the bound on the texts excludes.
unfoldable pub and_printed : Printed → List ℕ → Printed
and_printed a s = record {
  text = take a.reported a.text ++ take (stmt_char_buffer_size - a.reported - 1) s;
  reported = a.reported + length s;
}

unfoldable pub print_microsecond : ℕ → Printed → Printed
print_microsecond micro a = if micro == 0 then a else and_printed a (b'.' ∷ padded 6 9 micro)

unfoldable pub print_date : Datetime → Printed
print_date d =
    printed (padded 4 4 d.year ++ (b'-' ∷ (padded 2 2 d.month ++ (b'-' ∷ padded 2 9 d.day))))

-- The hour has at most `k + 1` digits.
unfoldable pub print_clock : ℕ → ℕ → ℕ → ℕ → List ℕ
print_clock k hour minute second =
    padded 2 k hour ++ (b':' ∷ (padded 2 2 minute ++ (b':' ∷ padded 2 2 second)))

unfoldable pub print_datetime : Datetime → Printed
print_datetime d =
    print_microsecond d.microsecond
      (and_printed (print_date d) (b' ' ∷ print_clock 2 d.hour d.minute d.second))

unfoldable pub print_time : Datetime → Printed
print_time d =
    let clock = print_clock 9 (u32 (d.hour + 24 * d.day)) d.minute d.second in
    print_microsecond d.microsecond (printed (if d.is_negative then b'-' ∷ clock else clock))

-- An integer of `w` bits in decimal, by the column's UNSIGNED flag.
unfoldable pub print_int : Bool → ℕ → ℕ → ℕ → CharResult
print_int true k half n = in_buffer (printed (decimal k n))
print_int false k half n = in_buffer (printed (signed_decimal k half n))

-- The same with a format of 8 or 16 bits, for an argument that is an `int` with these 32 bits.
unfoldable pub print_narrow : Snprintf → Bool → ℕ → ℕ → ℕ → CharResult
print_narrow fp u k half arg =
    if fp.narrows then print_int u k half (arg % (2 * half)) else print_int u 9 (2 ^ 31) arg

abbrev pub is_unsigned_column : Column → Bool
is_unsigned_column c = not (bit_and c.flags (2 ^ 5) == 0)

-- The `switch`; `u` says whether the column is unsigned. The struct for a date or time is on the
-- stack, as its constructor leaves it.
unfoldable pub char_at : Snprintf → PlainChar → Mem → Bool → StmtCell → ColumnType → Get CharResult
char_at fp cs m u x type_tiny =
    got (print_narrow fp u 2 (2 ^ 7) (pattern_of 32 (char_int cs (m x.address))))
char_at fp cs m u x type_year = got (print_narrow fp u 4 (2 ^ 15) (unpack_int2 m x.address))
char_at fp cs m u x type_short = got (print_narrow fp u 4 (2 ^ 15) (unpack_int2 m x.address))
char_at fp cs m u x type_long = got (print_int u 9 (2 ^ 31) (unpack_int4 m x.address))
char_at fp cs m u x type_longlong = got (print_int u 19 (2 ^ 63) (unpack_int8 m x.address))
char_at fp cs m u x type_float = got (in_buffer (printed (fp.print_float (read m x.address 4))))
char_at fp cs m u x type_double = got (in_buffer (printed (fp.print_double (read m x.address 8))))
char_at fp cs m u x type_null = got (null_value)
char_at fp cs m u x type_int24 = got (print_int u 9 (2 ^ 31) (unpack_int3 m x.address))
char_at fp cs m u x type_decimal = got (in_cell x.address x.cell_length)
char_at fp cs m u x type_varchar = got (in_cell x.address x.cell_length)
char_at fp cs m u x type_bit = got (in_cell x.address x.cell_length)
char_at fp cs m u x type_newdecimal = got (in_cell x.address x.cell_length)
char_at fp cs m u x type_enum = got (in_cell x.address x.cell_length)
char_at fp cs m u x type_set = got (in_cell x.address x.cell_length)
char_at fp cs m u x type_tiny_blob = got (in_cell x.address x.cell_length)
char_at fp cs m u x type_medium_blob = got (in_cell x.address x.cell_length)
char_at fp cs m u x type_long_blob = got (in_cell x.address x.cell_length)
char_at fp cs m u x type_blob = got (in_cell x.address x.cell_length)
char_at fp cs m u x type_varstring = got (in_cell x.address x.cell_length)
char_at fp cs m u x type_string = got (in_cell x.address x.cell_length)
char_at fp cs m u x type_geometry = got (in_cell x.address x.cell_length)
char_at fp cs m u x type_time =
    got (in_buffer (print_time (unpack_time m x.address x.cell_length new_datetime)))
char_at fp cs m u x type_timestamp =
    got (in_buffer (print_datetime (unpack_datetime cs m x.address x.cell_length new_datetime)))
char_at fp cs m u x type_date =
    got (in_buffer (print_date (unpack_datetime cs m x.address x.cell_length new_datetime)))
char_at fp cs m u x type_datetime =
    got (in_buffer (print_datetime (unpack_datetime cs m x.address x.cell_length new_datetime)))
char_at fp cs m u x type_error = refused cannot_convert
char_at fp cs m u x (type_other n) = got null_value

-- `wanted` says whether the caller's `length` is not NULL.
unfoldable pub statement_get_char :
    Snprintf → PlainChar → Mem → Bool → Option Connect → Option (List StmtCell) → ℕ → Get CharResult
statement_get_char fp cs m wanted none row column = cell_of none row column (λ x. got null_value)
statement_get_char fp cs m wanted (some c) row column = cell_of (some c) row column (λ x.
    if wanted
    then char_at fp cs m (is_unsigned_column (c.result.columns column)) x x.cell_type
    else refused no_length)
