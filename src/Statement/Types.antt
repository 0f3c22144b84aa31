-- ===== src/Statement/Types.antt =====
-- The column types of libattachsql2/constants.h, and a parameter of a statement of src/structs.h.
use libattachsql.Prelude.{ℕ, Bool, false, ◌==◌, if◌then◌else◌, List, [], ◌∷◌}
use libattachsql.Pack.DateTime.{Datetime}

-- A C++ enumeration holds any number of its width: `type_other` is one without a name.
pub data ColumnType : Type 0 where
  type_decimal type_tiny type_short type_long type_float type_double : ColumnType
  type_null type_timestamp type_longlong type_int24 type_date type_time : ColumnType
  type_datetime type_year type_varchar type_bit type_newdecimal type_enum : ColumnType
  type_set type_tiny_blob type_medium_blob type_long_blob type_blob : ColumnType
  type_varstring type_string type_geometry type_error : ColumnType
  type_other : ℕ → ColumnType

abbrev pub column_type_code : ColumnType → ℕ
column_type_code type_decimal = 0x00
column_type_code type_tiny = 0x01
column_type_code type_short = 0x02
column_type_code type_long = 0x03
column_type_code type_float = 0x04
column_type_code type_double = 0x05
column_type_code type_null = 0x06
column_type_code type_timestamp = 0x07
column_type_code type_longlong = 0x08
column_type_code type_int24 = 0x09
column_type_code type_date = 0x0a
column_type_code type_time = 0x0b
column_type_code type_datetime = 0x0c
column_type_code type_year = 0x0d
column_type_code type_varchar = 0x0f
column_type_code type_bit = 0x10
column_type_code type_newdecimal = 0xf6
column_type_code type_enum = 0xf7
column_type_code type_set = 0xf8
column_type_code type_tiny_blob = 0xf9
column_type_code type_medium_blob = 0xfa
column_type_code type_long_blob = 0xfb
column_type_code type_blob = 0xfc
column_type_code type_varstring = 0xfd
column_type_code type_string = 0xfe
column_type_code type_geometry = 0xff
column_type_code type_error = 0xffff
column_type_code (type_other n) = n

abbrev find_type : ℕ → List ColumnType → ColumnType
find_type n [] = type_other n
find_type n (t ∷ ts) = let later = find_type n ts in if column_type_code t == n then t else later

-- `(attachsql_column_type_t)n`
unfoldable pub column_type_of : ℕ → ColumnType
column_type_of n = find_type n (
    type_decimal ∷ type_tiny ∷ type_short ∷ type_long ∷ type_float ∷ type_double ∷ type_null
    ∷ type_timestamp ∷ type_longlong ∷ type_int24 ∷ type_date ∷ type_time ∷ type_datetime
    ∷ type_year ∷ type_varchar ∷ type_bit ∷ type_newdecimal ∷ type_enum ∷ type_set ∷ type_tiny_blob
    ∷ type_medium_blob ∷ type_long_blob ∷ type_blob ∷ type_varstring ∷ type_string ∷ type_geometry
    ∷ type_error ∷ [])

-- The union `data_t`, with the member that was stored last; an allocated datetime is the struct
-- itself, and a string is the caller's pointer. Floating point numbers are their bytes.
pub data ParamData : Type 0 where
  no_data : ParamData
  tinyint_data smallint_data int_data bigint_data : ℕ → ParamData
  float_data double_data : List ℕ → ParamData
  string_data : ℕ → ParamData
  datetime_data : Datetime → ParamData

-- `attachsql_stmt_param_st`
pub record StmtParam : Type 0 where
  pub param_type : ColumnType
  pub param_length : ℕ
  pub is_long_data : Bool
  pub is_unsigned : Bool
  pub datetime_alloc : Bool
  pub param_value : ParamData

abbrev pub new_param : StmtParam
new_param = record {
  param_type = type_null;
  param_length = 0;
  is_long_data = false;
  is_unsigned = false;
  datetime_alloc = false;
  param_value = no_data;
}
