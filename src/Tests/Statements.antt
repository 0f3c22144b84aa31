-- ===== src/Tests/Statements.antt =====
-- The rows of a statement and its getters at concrete inputs.
use libattachsql.Prelude.{
  ℕ, ◌≡◌, inl, inr, refl, sym, arith, true, false, some, none, List, [], ◌∷◌, map, ◌==◌,
  if◌then◌else◌,
}
use libattachsql.Prelude.Bits.{bit_at}
use libattachsql.Prelude.Int.{pos, negsuc, cast_signed}
use libattachsql.Prelude.Memory.{Mem, read}
use libattachsql.Pack.Ints.{signed_char, byte, unpack_int2, unpack_int4}
use libattachsql.Pack.DateTime.{unpack_datetime, unpack_time}
use libattachsql.Net.Connect.{Connect, Column, new_result, new_stmt}
use libattachsql.Net.ProcessLaws.{IsBytes}
use libattachsql.Query.RowLaws.{one}
use libattachsql.Query.Decimal.{decimal, signed_decimal}
use libattachsql.Statement.Params.{set_int, set_datetime}
use libattachsql.Statement.Run.{Answers, Executed, stmt_execute}
use libattachsql.Statement.ParamLaws.{set_all, set_all-stmt_execute}
use libattachsql.Statement.Types.{
  new_param, column_type_of, type_long, type_varchar, type_null, type_time, type_tiny, type_short,
}
use libattachsql.Statement.Row.{StmtCell, StmtRow, layout, statement_row_get}
use libattachsql.Statement.RowLaws.{
  ends, null, value, long_value, fixed_value, value_of, statement_row_get_lem,
}
use libattachsql.Statement.Getters.{
  Floats, got, statement_get_int, statement_get_int_unsigned, statement_get_bigint,
  statement_get_bigint_unsigned,
}
use libattachsql.Statement.Texts.{Snprintf, char_at, in_buffer, print_narrow, print_int}
use libattachsql.Statement.GetterLaws.{
  long, converted, statement_get_lem, statement_get_int-statement_get_bigint,
}
use libattachsql.Statement.TextLaws.{Fits, char_at-Fits}
use libattachsql.Tests.Handlers.{platform, unset, waiting}

-- The row -2, "A", NULL at 4096, and the time 26:03:04 at 5000.
abbrev memory : Mem
memory a =
    if a == 4097
    then 16
    else if a == 4098
    then 254
    else if a == 4099
    then 255
    else if a == 4100
    then 255
    else if a == 4101
    then 255
    else if a == 4102
    then 1
    else if a == 4103
    then 65
    else if a == 5001
    then 1
    else if a == 5005
    then 2
    else if a == 5006
    then 3
    else if a == 5007
    then 4
    else 0

abbrev columns : ℕ → Column
columns i = record (unset i) { column_type = if i == 0 then 3 else if i == 1 then 0x0f else 8 }

abbrev row_ready : Connect
row_ready = record waiting {
  result = record (new_result unset) {
    column_count = 3;
    columns = columns;
    row_data = 4096;
    row_length = 8;
  };
}

abbrev cells : List StmtCell
cells =
    record { address = 4098; cell_length = 4; cell_type = type_long }
    ∷ record { address = 4103; cell_length = 1; cell_type = type_varchar }
    ∷ record { address = 4104; cell_length = 0; cell_type = type_null }
    ∷ []

statement_row_get_lem_example :
    (row : StmtRow) × (statement_row_get signed_char true memory (some row_ready)
      ≡ (none, some row))
    × (map (value_of memory) row.stmt_row
        ≡ some (254 ∷ 255 ∷ 255 ∷ 255 ∷ []) ∷ some (65 ∷ []) ∷ none ∷ [])
unfolding read column_type_of layout bit_at
statement_row_get_lem_example =
    statement_row_get_lem signed_char memory row_ready
      (some (254 ∷ 255 ∷ 255 ∷ 255 ∷ []) ∷ some (65 ∷ []) ∷ none ∷ []) refl
      (value {column = 0} 4098 refl refl (fixed_value refl refl) refl (
        value {column = 1} 4103 refl refl
          (long_value 1 (one (omega arith) refl) (inr (inl (omega arith))) refl) refl
          (null {column = 2} refl ends)))

-- No conversion of floating point numbers is used.
abbrev no_floats : Floats
no_floats = record {
  float_to_signed = λ w b. pos 0;
  float_to_unsigned = λ w b. 0;
  double_to_signed = λ w b. pos 0;
  double_to_unsigned = λ w b. 0;
  float_to_double = λ b. b;
  int_to_double = λ z. [];
}

memory-IsBytes : IsBytes memory
memory-IsBytes a = ground arith

-- The cell of -2.
abbrev minus_two : StmtCell
minus_two = record { address = 4098; cell_length = 4; cell_type = type_long }

statement_get_lem_example :
    (statement_get_bigint no_floats memory (some row_ready) (some cells) 0 ≡ got (negsuc 1))
    × (statement_get_bigint_unsigned no_floats memory (some row_ready) (some cells) 0
        ≡ got 4294967294)
    × (statement_get_int no_floats memory (some row_ready) (some cells) 0 ≡ got (negsuc 1))
    × (statement_get_int_unsigned no_floats memory (some row_ready) (some cells) 0 ≡ got 4294967294)
unfolding byte
statement_get_lem_example =
    statement_get_lem no_floats memory row_ready cells 0 4294967294 minus_two (omega arith) refl
      (long (refl, refl, refl, refl) (omega arith))

statement_get_int-statement_get_bigint_example :
    statement_get_int no_floats memory (some row_ready) (some (minus_two ∷ [])) 0
    ≡ converted
        (cast_signed 32)
        (statement_get_bigint no_floats memory (some row_ready) (some (minus_two ∷ [])) 0)
statement_get_int-statement_get_bigint_example =
    statement_get_int-statement_get_bigint no_floats memory (some row_ready) (some (minus_two ∷ []))
      0 memory-IsBytes
      (λ cs x e g.
        let same : minus_two ≡ x = cc in rw (sym same) (λ q. grind arith, λ q. grind arith))

abbrev no_print : Snprintf
no_print = record { print_float = λ b. []; print_double = λ b. []; narrows = false }

-- The cell of the time.
abbrev clock : StmtCell
clock = record { address = 5000; cell_length = 8; cell_type = type_time }

char_at-Fits_example : Fits (char_at no_print signed_char memory false clock type_time)
unfolding unpack_time unpack_datetime unpack_int4
char_at-Fits_example =
    char_at-Fits no_print signed_char memory false clock type_time
      (λ e. grind arith, λ e. grind arith) (omega arith)

-- Where PRIu8 and PRId16 have no length modifier, the unsigned TINYINT 254 and the SMALLINT -2 are
-- printed as 4294967294 and 65534.
unsigned_tiny :
    char_at no_print signed_char memory true minus_two type_tiny
    ≡ got (
        in_buffer (record {
          text = b'4' ∷ b'2' ∷ b'9' ∷ b'4' ∷ b'9' ∷ b'6' ∷ b'7' ∷ b'2' ∷ b'9' ∷ b'4' ∷ [];
          reported = 10;
        }))
unfolding char_at print_narrow print_int decimal
unsigned_tiny = refl

negative_short :
    char_at no_print signed_char memory false minus_two type_short
    ≡ got (in_buffer (record { text = b'6' ∷ b'5' ∷ b'5' ∷ b'3' ∷ b'4' ∷ []; reported = 5 }))
unfolding char_at print_narrow print_int unpack_int2 signed_decimal decimal
negative_short = refl

-- A statement with two parameters was prepared.
abbrev two_params : Connect
two_params = record waiting {
  has_stmt = true;
  stmt = record (new_stmt unset) {
    id = 7;
    param_count = 2;
    param_data = new_param ∷ new_param ∷ [];
    exec_buffer = 8192;
    exec_buffer_length = 16384;
  };
}

abbrev answers : Answers
answers = record { write_failure = none; realloc = λ n. none; stmt_made = true; unset = unset }

set_all-stmt_execute_example :
    (r : Executed) × (stmt_execute platform answers memory
        (set_all ((0, set_int (negsuc 1)) ∷ (1, set_datetime 2014 1 2 3 4 5 6) ∷ []) two_params)
      ≡ some r)
set_all-stmt_execute_example =
    set_all-stmt_execute platform answers memory two_params 2
      ((0, set_int (negsuc 1)) ∷ (1, set_datetime 2014 1 2 3 4 5 6) ∷ []) refl
