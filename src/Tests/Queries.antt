-- ===== src/Tests/Queries.antt =====
-- src/query.cc at concrete inputs.
use libattachsql.Prelude.{
  ℕ, ◌+◌, ◌-◌, ◌^◌, ◌≤◌, ◌≡◌, refl, arith, Bool, true, false, some, List, [], ◌∷◌, ◌++◌, length,
}
use libattachsql.Prelude.Memory.{Mem, write, read}
use libattachsql.Pack.Ints.{unpack_int4, unpack_int8}
use libattachsql.Query.Escape.{no_backslash_escape_data, newchar, escape_data}
use libattachsql.Query.EscapeLaws.{literal, literal-escape_data, literal-no_backslash_escape_data}
use libattachsql.Query.Decimal.{decimal, signed_decimal, number_of}
use libattachsql.Query.Build.{
  Parameter, escape_char, escape_int, escape_bigint, FloatText, parameter_text, query_text,
  query_out_len, substitute, parameter_room,
}
use libattachsql.Query.BuildLaws.{query_text_fits, bigint_text}

-- O'R\, with both functions.
abbrev sample : List ℕ
sample = b'O' ∷ b'\'' ∷ b'R' ∷ b'\\' ∷ []

sample_escaped : escape_data sample ≡ b'O' ∷ b'\\' ∷ b'\'' ∷ b'R' ∷ b'\\' ∷ b'\\' ∷ []
unfolding escape_data newchar
sample_escaped = refl

literal-escape_data_example :
    literal true (escape_data sample ++ (b'\'' ∷ b')' ∷ [])) ≡ some (sample, b')' ∷ [])
literal-escape_data_example = literal-escape_data sample (b')' ∷ []) (omega arith)

literal-no_backslash_escape_data_example :
    literal false (no_backslash_escape_data sample ++ (b'\'' ∷ b')' ∷ []))
    ≡ some (sample, b')' ∷ [])
literal-no_backslash_escape_data_example =
    literal-no_backslash_escape_data sample (b')' ∷ []) (omega arith)

-- Four bytes at 64 hold -2, and the sample stands at 128.
abbrev memory : Mem
memory = write (write (λ _. 255) 64 (254 ∷ 255 ∷ 255 ∷ 255 ∷ [])) 128 sample

abbrev statement : List ℕ
statement = b'=' ∷ b'?' ∷ b',' ∷ b'?' ∷ []

abbrev two_parameters : List Parameter
two_parameters =
    record { type = escape_char; address = 128; length = 4; is_unsigned = false }
    ∷ record { type = escape_int; address = 64; length = 0; is_unsigned = false }
    ∷ []

abbrev no_floats : FloatText
no_floats = record { float_text = λ _. []; double_text = λ _. [] }

abbrev built : List ℕ
built = b'=' ∷ b'\'' ∷ b'O' ∷ b'\\' ∷ b'\'' ∷ b'R' ∷ b'\\' ∷ b'\\' ∷ b'\'' ∷ b',' ∷ b'-' ∷ b'2' ∷ []

query_runs : query_text no_floats 0 memory statement two_parameters ≡ some built
unfolding query_text substitute parameter_text escape_data newchar read write unpack_int4
    signed_decimal decimal
query_runs = refl

query_text_fits_example :
    (out : List ℕ) × (query_text no_floats 0 memory statement two_parameters ≡ some out)
    × (length out + 1 ≤ query_out_len 4 two_parameters)
query_text_fits_example =
    query_text_fits no_floats 0 memory statement two_parameters
      (record { float_fits = λ _. omega arith; double_fits = λ _. omega arith }) (omega arith)
      (unfold parameter_room in omega arith)

bigint_text_example :
    let text = λ (u : Bool).
      parameter_text no_floats 0 memory
        (record { type = escape_bigint; address = 200; length = 0; is_unsigned = u }) in
    (text true ≡ b'-' ∷ decimal 19 1) × (number_of 0 (text false) ≡ 2 ^ 64 - 1)
bigint_text_example =
    bigint_text no_floats 0 memory 200 0 (2 ^ 64 - 1) (unfold unpack_int8 unpack_int4 write in refl)
      (omega arith) (omega arith)
