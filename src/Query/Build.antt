-- ===== src/Query/Build.antt =====
-- The text that `attachsql_query` of src/query.cc builds from a statement and its parameters.
use libattachsql.Prelude.{
  ℕ, ◌+◌, ◌*◌, ◌^◌, Bool, Option, some, none, List, [], ◌∷◌, ◌++◌, ◌==◌, not, if◌then◌else◌, length,
  bit_and,
}
use libattachsql.Prelude.Bits.{add64}
use libattachsql.Prelude.Memory.{Mem, read}
use libattachsql.Pack.Ints.{unpack_int4, unpack_int8}
use libattachsql.Query.Escape.{no_backslash_escape_data, escape_data}
use libattachsql.Query.Decimal.{decimal, signed_decimal}
use mathlib.Core.Option

-- libattachsql2/constants.h and libattachsql2/structs.h
pub data EscapeType : Type 0 where
  escape_none escape_char escape_char_like escape_int escape_bigint : EscapeType
  escape_float escape_double : EscapeType

-- `data` is an address.
pub record Parameter : Type 0 where
  pub type : EscapeType
  pub address : ℕ
  pub length : ℕ
  pub is_unsigned : Bool

-- `snprintf` with "%.7f" and "%.15f", of the four or eight bytes of a number.
pub record FloatText : Type 0 where
  pub float_text : List ℕ → List ℕ
  pub double_text : List ℕ → List ℕ

-- 3 + FLT_MANT_DIG - FLT_MIN_EXP and 3 + DBL_MANT_DIG - DBL_MIN_EXP
abbrev pub float_max_len : ℕ
float_max_len = 152

abbrev pub double_max_len : ℕ
double_max_len = 1077

-- What a parameter adds to `out_len`.
unfoldable pub parameter_room : Parameter → ℕ
parameter_room p = elim p.type [
  | escape_none ↦ p.length
  | escape_char ↦ p.length * 2 + 2
  | escape_char_like ↦ p.length * 2
  | escape_int ↦ 10
  | escape_bigint ↦ 20
  | escape_float ↦ float_max_len
  | escape_double ↦ double_max_len
]

unfoldable pub add_rooms : ℕ → List Parameter → ℕ
add_rooms out_len [] = out_len
add_rooms out_len (p ∷ ps) = add_rooms (add64 out_len (parameter_room p)) ps

unfoldable pub query_out_len : ℕ → List Parameter → ℕ
unfolding add_rooms
query_out_len length ps = add_rooms (add64 length 1) ps

-- `con->server_status & ATTACHSQL_SERVER_STATUS_NO_BACKSLASH_ESCAPES`
abbrev pub no_backslash_escapes : ℕ → Bool
no_backslash_escapes server_status = not (bit_and server_status 512 == 0)

abbrev pub escaped : ℕ → List ℕ → List ℕ
escaped server_status bytes =
    if no_backslash_escapes server_status then no_backslash_escape_data bytes else escape_data bytes

-- The bytes that one parameter puts in the place of its question mark. Integers are read from
-- memory in the byte order of x86, which is that of the macros.
unfoldable pub parameter_text : FloatText → ℕ → Mem → Parameter → List ℕ
parameter_text ft server_status m p = elim p.type [
  | escape_none ↦ read m p.address p.length
  | escape_char ↦ b'\'' ∷ (escaped server_status (read m p.address p.length) ++ (b'\'' ∷ []))
  | escape_char_like ↦ escaped server_status (read m p.address p.length)
  | escape_int ↦
      if p.is_unsigned
      then decimal 9 (unpack_int4 m p.address)
      else signed_decimal 9 (2 ^ 31) (unpack_int4 m p.address)
  | escape_bigint ↦
      if p.is_unsigned
      then signed_decimal 19 (2 ^ 63) (unpack_int8 m p.address)
      else decimal 19 (unpack_int8 m p.address)
  | escape_float ↦ ft.float_text (read m p.address 4)
  | escape_double ↦ ft.double_text (read m p.address 8)
]

-- The loop over the statement; `none` where `parameters[param]` is behind the array.
unfoldable pub substitute : (Parameter → List ℕ) → List ℕ → List Parameter → Option (List ℕ)
substitute text [] ps = some []
substitute text (c ∷ cs) [] =
    let plain = substitute text cs [] in
    if not (c == b'?') then Option.map (λ out. c ∷ out) plain else none
substitute text (c ∷ cs) (p ∷ ps) =
    let plain = substitute text cs (p ∷ ps) in
    let marked = substitute text cs ps in
    if not (c == b'?')
    then Option.map (λ out. c ∷ out) plain
    else Option.map (λ out. text p ++ out) marked

-- What is in `query_buffer` at the end, up to `query_buffer_length`.
unfoldable pub query_text : FloatText → ℕ → Mem → List ℕ → List Parameter → Option (List ℕ)
query_text ft server_status m statement ps =
    substitute (parameter_text ft server_status m) statement ps
