-- ===== src/Statement/Pack.antt =====
-- The packet that `attachsql_stmt_execute` of src/statement.cc packs, and its buffer.
use libattachsql.Prelude.{
  ℕ, ◌+◌, ◌-◌, ◌*◌, ◌/◌, ◌%◌, ◌^◌, Bool, true, false, Option, none, some, List, [], ◌∷◌, length,
  replicate, ltb, ◌==◌, if◌then◌else◌, bit_or,
}
use libattachsql.Prelude.Bits.{u8, u16}
use libattachsql.Prelude.Memory.{Mem, store, copy, write}
use libattachsql.Pack.Ints.{pack_int2, pack_int4, pack_int8}
use libattachsql.Pack.Length.{pack_data}
use libattachsql.Pack.DateTime.{pack_datetime, pack_time, bool_byte}
use libattachsql.Statement.Types.{
  ColumnType, column_type_code, ParamData, tinyint_data, smallint_data, int_data, bigint_data,
  float_data, double_data, string_data, datetime_data, StmtParam, type_decimal, type_tiny,
  type_short, type_long, type_float, type_double, type_null, type_timestamp, type_longlong,
  type_int24, type_date, type_time, type_datetime, type_year, type_varchar, type_bit,
  type_newdecimal, type_enum, type_set, type_tiny_blob, type_medium_blob, type_long_blob, type_blob,
  type_varstring, type_string, type_geometry, type_error, type_other,
}

-- ATTACHSQL_STMT_EXEC_DEFAULT_SIZE
abbrev pub stmt_exec_default_size : ℕ
stmt_exec_default_size = 16 * 1024

-- `sizeof(attachsql_datetime_st)`, with the usual alignment.
abbrev pub datetime_size : ℕ
datetime_size = 20

-- ATTACHSQL_STMT_PARAM_UNSIGNED_BIT
abbrev pub stmt_param_unsigned_bit : ℕ
stmt_param_unsigned_bit = 2 ^ 15

-- The memory, and the address and length of `exec_buffer`.
pub record Exec : Type 0 where
  pub memory : Mem
  pub exec_buffer : ℕ
  pub exec_buffer_length : ℕ

-- What `realloc` answers for a size.
abbrev pub Realloc : Type 0
Realloc = ℕ → Option ℕ

unfoldable pub new_exec_size : ℕ → ℕ
new_exec_size length = if length == 0 then stmt_exec_default_size else length * 2

unfoldable pub exec_moved : Exec → Option ℕ → Option Exec
exec_moved x none = none
exec_moved x (some block) = some (record {
  memory = copy x.memory block x.exec_buffer x.exec_buffer_length;
  exec_buffer = block;
  exec_buffer_length = new_exec_size x.exec_buffer_length;
})

-- `attachsql_stmt_check_buffer_size`; `none` is a `realloc` that failed.
unfoldable pub check_buffer_size : Realloc → ℕ → Exec → Option Exec
check_buffer_size answers required x =
    if ltb x.exec_buffer_length required
    then exec_moved x (answers (new_exec_size x.exec_buffer_length))
    else some x

-- How the packing ends: with the length of the packet, with a parameter of a type that is not
-- handled, without memory, or with a union of which a member is read that was not stored last.
pub data Packed : Type 0 where
  packed : Exec → ℕ → Packed
  bad_type no_memory : Exec → Packed
  other_member : Packed

abbrev pub and_exec : Exec → Option Exec → (Exec → Packed) → Packed
and_exec x none rest = no_memory x
and_exec x (some x') rest = rest x'

-- The memory, with the length of the packet.
abbrev pub put_bytes : Exec → ℕ → Mem × ℕ → (Exec → ℕ → Packed) → Packed
put_bytes x used (m, n) rest = rest (record x { memory = m }) (used + n)

-- The end pointer as an offset from `p`.
abbrev pub up_to : ℕ → Mem × ℕ → Mem × ℕ
up_to p (m, end) = (m, end - p)

unfoldable pub put_string : Realloc → Exec → ℕ → ℕ → ℕ → (Exec → ℕ → Packed) → Packed
put_string answers x used length source rest =
    and_exec x (check_buffer_size answers length x) (λ x'.
      let p = x'.exec_buffer + used in
      put_bytes x' used (up_to p (pack_data x'.memory p length source)) rest)

-- The `switch` on the type, which reads a member of the union; `used` bytes are before the value.
unfoldable pub put_value :
    Realloc → Exec → ℕ → StmtParam → ColumnType → ParamData → (Exec → ℕ → Packed) → Packed
put_value answers x used q type_tiny (tinyint_data n) rest =
    put_bytes x used (store x.memory (x.exec_buffer + used) (u8 n), 1) rest
put_value answers x used q type_short (smallint_data n) rest =
    put_bytes x used (pack_int2 x.memory (x.exec_buffer + used) n, 2) rest
put_value answers x used q type_long (int_data n) rest =
    put_bytes x used (pack_int4 x.memory (x.exec_buffer + used) n, 4) rest
put_value answers x used q type_longlong (bigint_data n) rest =
    put_bytes x used (pack_int8 x.memory (x.exec_buffer + used) n, 8) rest
put_value answers x used q type_float (float_data bs) rest =
    put_bytes x used (write x.memory (x.exec_buffer + used) bs, 4) rest
put_value answers x used q type_double (double_data bs) rest =
    put_bytes x used (write x.memory (x.exec_buffer + used) bs, 8) rest
put_value answers x used q type_time (datetime_data d) rest =
    let p = x.exec_buffer + used in put_bytes x used (up_to p (pack_time x.memory p d)) rest
put_value answers x used q type_date (datetime_data d) rest =
    let p = x.exec_buffer + used in
    put_bytes x used (up_to p (pack_datetime x.memory p d true)) rest
put_value answers x used q type_datetime (datetime_data d) rest =
    let p = x.exec_buffer + used in
    put_bytes x used (up_to p (pack_datetime x.memory p d false)) rest
put_value answers x used q type_timestamp (datetime_data d) rest =
    let p = x.exec_buffer + used in
    put_bytes x used (up_to p (pack_datetime x.memory p d false)) rest
put_value answers x used q type_string (string_data a) rest =
    put_string answers x used q.param_length a rest
put_value answers x used q type_blob (string_data a) rest =
    put_string answers x used q.param_length a rest
put_value answers x used q type_null v rest = bad_type x
put_value answers x used q type_int24 v rest = bad_type x
put_value answers x used q type_year v rest = bad_type x
put_value answers x used q type_varchar v rest = bad_type x
put_value answers x used q type_bit v rest = bad_type x
put_value answers x used q type_newdecimal v rest = bad_type x
put_value answers x used q type_enum v rest = bad_type x
put_value answers x used q type_set v rest = bad_type x
put_value answers x used q type_tiny_blob v rest = bad_type x
put_value answers x used q type_medium_blob v rest = bad_type x
put_value answers x used q type_long_blob v rest = bad_type x
put_value answers x used q type_varstring v rest = bad_type x
put_value answers x used q type_geometry v rest = bad_type x
put_value answers x used q type_decimal v rest = bad_type x
put_value answers x used q type_error v rest = bad_type x
put_value answers x used q (type_other n) v rest = bad_type x
put_value answers x used q t v rest = other_member

abbrev pub is_null_param : StmtParam → Bool
is_null_param q = column_type_code q.param_type == 0x06

abbrev pub type_bits : StmtParam → ℕ
type_bits q =
    let type = u16 (column_type_code q.param_type) in
    if q.is_unsigned then bit_or type stmt_param_unsigned_bit else type

-- The types begin at the offset `types`, and that of a parameter stands there by its number.
unfoldable pub put_param_type : ℕ → ℕ → StmtParam → Exec → Exec
put_param_type types param q x = record x {
  memory = pack_int2 x.memory (x.exec_buffer + types + param * 2) (type_bits q);
}

-- The body of the loop for a parameter that is not NULL.
unfoldable pub pack_param : Realloc → ℕ → ℕ → StmtParam → Exec → ℕ → (Exec → ℕ → Packed) → Packed
pack_param answers types param q x used rest =
    let x1 = put_param_type types param q x in
    if q.is_long_data
    then rest x1 used
    else and_exec x1 (check_buffer_size answers datetime_size x1)
        (λ x2. put_value answers x2 used q q.param_type q.param_value rest)

-- The loop over the parameters that are left, from the number `param` on.
unfoldable pub pack_params : Realloc → ℕ → List StmtParam → ℕ → Exec → ℕ → Packed
pack_params answers types [] param x used = packed x used
pack_params answers types (q ∷ qs) param x used =
    let rest : Exec → ℕ → Packed = λ x' used'. pack_params answers types qs (param + 1) x' used' in
    if is_null_param q then rest x used else pack_param answers types param q x used rest

-- The bits of the NULL parameters are set in the mask at `p`; the number of the others.
unfoldable pub null_mask : List StmtParam → ℕ → ℕ → Mem → Mem × ℕ
null_mask [] param p m = (m, 0)
null_mask (q ∷ qs) param p m =
    let set = store m (p + param / 8) (u8 (bit_or (m (p + param / 8)) (2 ^ (param % 8)))) in
    let (m', n) = null_mask qs (param + 1) p (if is_null_param q then set else m) in
    (m', (if is_null_param q then n else n + 1))

-- The identifier, the flags, the count and the mask, with the length so far and the number of
-- parameters that are not NULL.
unfoldable pub pack_head : ℕ → List StmtParam → Exec → Exec × ℕ × ℕ
pack_head id qs x =
    let p = x.exec_buffer in
    let m = pack_int4 (store (pack_int4 x.memory p id) (p + 4) 0) (p + 5) 1 in
    let bytes = (length qs + 7) / 8 in
    let (m', n) = null_mask qs 0 (p + 9) (write m (p + 9) (replicate bytes 0)) in
    (record x { memory = m' }, 9 + bytes, n)

-- `attachsql_stmt_execute` up to the call of `attachsql_command_send`; the statement has as many
-- parameters as its array `param_data` has entries.
unfoldable pub pack_execute : Realloc → ℕ → Bool → List StmtParam → Exec → Packed
pack_execute answers id new_bind qs x = and_exec x (check_buffer_size answers 2060 x) (λ x1.
    let (x2, used, n) = pack_head id qs x1 in
    let x3 : Exec = record x2 {
      memory = store x2.memory (x2.exec_buffer + used) (bool_byte new_bind);
    } in
    pack_params answers (used + 1) qs 0 x3 (used + 1 + n * 2))
