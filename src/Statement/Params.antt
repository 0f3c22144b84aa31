-- ===== src/Statement/Params.antt =====
-- The setters of src/statement_getset.cc for the parameters of a statement.
use libattachsql.Prelude.{
  ℕ, zero, suc, Bool, true, false, not, Option, none, some, List, [], ◌∷◌, leb, if◌then◌else◌,
}
use libattachsql.Prelude.Int.{ℤ, pattern_of}
use libattachsql.Pack.DateTime.{Datetime, new_datetime}
use libattachsql.Net.Connect.{Connect}
use libattachsql.Connect.Errors.{
  Error, Message, error_client_create, code_parameter, state_parameter, invalid_param,
  no_such_param,
}
use libattachsql.Statement.Types.{
  ColumnType, int_data, bigint_data, float_data, double_data, string_data, datetime_data, StmtParam,
  type_decimal, type_tiny, type_short, type_long, type_float, type_double, type_null,
  type_timestamp, type_longlong, type_int24, type_date, type_time, type_datetime, type_year,
  type_varchar, type_bit, type_newdecimal, type_enum, type_set, type_tiny_blob, type_medium_blob,
  type_long_blob, type_blob, type_varstring, type_string, type_geometry, type_error, type_other,
}

-- What the pointer `value` of `set_param` points to, as each type reads it, and the pointer.
pub record Given : Type 0 where
  pub as_uint32 : ℕ
  pub as_uint64 : ℕ
  pub as_float : List ℕ
  pub as_double : List ℕ
  pub as_chars : ℕ

abbrev pub nothing_given : Given
nothing_given = record { as_uint32 = 0; as_uint64 = 0; as_float = []; as_double = []; as_chars = 0 }

-- An entry of an array is changed. Outside of the array, which the setters only meet where its
-- allocation failed, nothing is.
abbrev pub update_at {ℓ} : {A : Type ℓ} → ℕ → (A → A) → List A → List A
update_at i f [] = []
update_at zero f (x ∷ xs) = f x ∷ xs
update_at (suc i) f (x ∷ xs) = x ∷ update_at i f xs

-- The `switch` of `set_param`.
unfoldable pub put_param : ColumnType → ℕ → Given → Bool → StmtParam → StmtParam
put_param type_long length value u p = record p {
  param_value = int_data value.as_uint32;
  is_unsigned = u;
  param_type = type_long;
}
put_param type_longlong length value u p = record p {
  param_value = bigint_data value.as_uint64;
  is_unsigned = u;
  param_type = type_longlong;
}
put_param type_float length value u p = record p {
  param_value = float_data value.as_float;
  is_unsigned = false;
  param_type = type_float;
}
put_param type_double length value u p = record p {
  param_value = double_data value.as_double;
  is_unsigned = false;
  param_type = type_double;
}
put_param type_string length value u p = record p {
  param_value = string_data value.as_chars;
  param_length = length;
  param_type = type_string;
}
put_param type_blob length value u p = record p {
  param_value = string_data value.as_chars;
  param_length = length;
  param_type = type_blob;
}
put_param type_null length value u p = record p { param_type = type_null }
put_param type_decimal length value u p = p
put_param type_tiny length value u p = p
put_param type_short length value u p = p
put_param type_timestamp length value u p = p
put_param type_int24 length value u p = p
put_param type_date length value u p = p
put_param type_time length value u p = p
put_param type_datetime length value u p = p
put_param type_year length value u p = p
put_param type_varchar length value u p = p
put_param type_bit length value u p = p
put_param type_newdecimal length value u p = p
put_param type_enum length value u p = p
put_param type_set length value u p = p
put_param type_tiny_blob length value u p = p
put_param type_medium_blob length value u p = p
put_param type_long_blob length value u p = p
put_param type_varstring length value u p = p
put_param type_geometry length value u p = p
put_param type_error length value u p = p
put_param (type_other n) length value u p = p

abbrev pub put_datetime : Datetime → StmtParam → StmtParam
put_datetime d p = record p {
  param_value = datetime_data d;
  datetime_alloc = true;
  param_type = type_datetime;
}

abbrev pub put_time : Datetime → StmtParam → StmtParam
put_time d p = record p {
  param_value = datetime_data d;
  datetime_alloc = false;
  param_type = type_time;
}

-- What a setter returns, the connection after it, and what `*error` is.
pub record Setting : Type 0 where
  pub was_set : Bool
  pub con : Option Connect
  pub error : Option Error

abbrev pub refuse : Bool → Option Connect → Message → Option Error → Setting
refuse made con msg error = record {
  was_set = false;
  con = con;
  error = error_client_create made code_parameter state_parameter msg error;
}

abbrev pub with_params : Connect → List StmtParam → Connect
with_params c ps = record c { stmt = record c.stmt { param_data = ps } }

-- The guards that the setters share, and the change of the parameter. `made` says that an error
-- can be made.
unfoldable pub set_checked :
    Bool → Option Error → Option Connect → ℕ → (StmtParam → StmtParam) → Setting
set_checked made error none param f = refuse made none invalid_param error
set_checked made error (some c) param f =
    if not c.has_stmt
    then refuse made (some c) invalid_param error
    else if leb c.stmt.param_count param
    then refuse made (some c) no_such_param error
    else record {
      was_set = true;
      con = some (with_params c (update_at param f c.stmt.param_data));
      error = error;
    }

-- The calls of the setters.
pub data Setter : Type 0 where
  set_param : ColumnType → ℕ → Given → Bool → Setter
  set_int set_bigint : ℤ → Setter
  set_unsigned_int set_unsigned_bigint : ℕ → Setter
  set_double : List ℕ → Setter
  set_string set_binary : ℕ → ℕ → Setter
  set_null : Setter
  set_datetime : ℕ → ℕ → ℕ → ℕ → ℕ → ℕ → ℕ → Setter
  set_time : ℕ → ℕ → ℕ → ℕ → Bool → Setter

-- What each makes of a parameter; a string is given by its length and its pointer.
unfoldable pub setter : Setter → StmtParam → StmtParam
setter (set_param t length value u) p = put_param t length value u p
setter (set_int z) p =
    put_param type_long 0 (record nothing_given { as_uint32 = pattern_of 32 z }) false p
setter (set_unsigned_int n) p =
    put_param type_long 0 (record nothing_given { as_uint32 = n }) true p
setter (set_bigint z) p =
    put_param type_longlong 0 (record nothing_given { as_uint64 = pattern_of 64 z }) false p
setter (set_unsigned_bigint n) p =
    put_param type_longlong 0 (record nothing_given { as_uint64 = n }) true p
setter (set_double d) p = put_param type_double 0 (record nothing_given { as_double = d }) false p
setter (set_string length chars) p =
    put_param type_string length (record nothing_given { as_chars = chars }) false p
setter (set_binary length chars) p =
    put_param type_blob length (record nothing_given { as_chars = chars }) false p
setter set_null p = put_param type_null 0 nothing_given false p
setter (set_datetime year month day hour minute second microsecond) p =
    put_datetime
      (record new_datetime {
        year = year;
        month = month;
        day = day;
        hour = hour;
        minute = minute;
        second = second;
        microsecond = microsecond;
      })
      p
setter (set_time hour minute second microsecond is_negative) p =
    put_time
      (record new_datetime {
        hour = hour;
        minute = minute;
        second = second;
        microsecond = microsecond;
        is_negative = is_negative;
      })
      p

-- The functions `attachsql_statement_set_...`.
unfoldable pub statement_set : Bool → Setter → Option Error → Option Connect → ℕ → Setting
statement_set made s error con param = set_checked made error con param (setter s)

unfoldable pub statement_get_param_count : Option Connect → ℕ
statement_get_param_count none = 0
statement_get_param_count (some c) = if c.has_stmt then c.stmt.param_count else 0
