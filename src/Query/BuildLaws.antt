-- ===== src/Query/BuildLaws.antt =====
-- The built query fits the buffer that was allocated for it, and its numbers.
use libattachsql.Prelude.{
  ℕ, suc, ◌+◌, ◌*◌, ◌-◌, ◌^◌, ◌≤◌, ◌<◌, ◌≡◌, refl, arith, Bool, true, false, some, List, [], ◌∷◌,
  ◌++◌, ◌==◌, ◌||◌, ltb, if◌then◌else◌, length, length-append, Bool-cases, inl, inr,
}
use libattachsql.Prelude.Bits.{add64}
use libattachsql.Prelude.Memory.{Mem, read, length-read}
use libattachsql.Pack.Ints.{unpack_int4, unpack_int8}
use libattachsql.Query.EscapeLaws.{length-escape_data}
use libattachsql.Query.Decimal.{
  decimal, signed_decimal, length-decimal, length-signed_decimal, number_of, number_of-decimal,
}
use libattachsql.Query.Build.{
  Parameter, EscapeType, escape_none, escape_char, escape_char_like, escape_int, escape_bigint,
  escape_float, escape_double, FloatText, parameter_room, parameter_text, substitute, query_text,
  query_out_len, add_rooms, escaped,
}

-- What `snprintf` documents: 39 digits and 7 decimals, or 309 and 15, with point and sign at most.
pub record FloatTextFits (ft : FloatText) : Type 0 where
  pub float_fits : (bytes : List ℕ) → length (ft.float_text bytes) ≤ 48
  pub double_fits : (bytes : List ℕ) → length (ft.double_text bytes) ≤ 326

length-escaped : (s : ℕ) (bytes : List ℕ) → length (escaped s bytes) ≤ length bytes * 2
length-escaped s bytes = ground (arith, length-escape_data bytes)

-- The text of a parameter is at most one byte longer than its room; the question mark that it
-- replaces makes up for that byte.
length-parameter_text :
    (ft : FloatText) (s : ℕ) (m : Mem) (t : EscapeType) (a n : ℕ) (u : Bool)
    → FloatTextFits ft
    → let p : Parameter = record { type = t; address = a; length = n; is_unsigned = u } in
      length (parameter_text ft s m p) ≤ parameter_room p + 1
unfolding parameter_text parameter_room
length-parameter_text ft s m escape_none a n u f = omega (arith, length-read m a n)
length-parameter_text ft s m escape_char a n u f = omega (
  arith,
  length-append (escaped s (read m a n)) (b'\'' ∷ []),
  length-escaped s (read m a n),
  length-read m a n,
)
length-parameter_text ft s m escape_char_like a n u f =
    omega (arith, length-escaped s (read m a n), length-read m a n)
length-parameter_text ft s m escape_int a n true f =
    omega (arith, length-decimal 9 (unpack_int4 m a))
length-parameter_text ft s m escape_int a n false f =
    omega (arith, length-signed_decimal 9 (2 ^ 31) (unpack_int4 m a))
length-parameter_text ft s m escape_bigint a n true f =
    omega (arith, length-signed_decimal 19 (2 ^ 63) (unpack_int8 m a))
length-parameter_text ft s m escape_bigint a n false f =
    omega (arith, length-decimal 19 (unpack_int8 m a))
length-parameter_text ft s m escape_float a n u f = omega (arith, f.float_fits (read m a 4))
length-parameter_text ft s m escape_double a n u f = omega (arith, f.double_fits (read m a 8))

abbrev pub rooms : List Parameter → ℕ
rooms [] = 0
rooms (p ∷ ps) = parameter_room p + rooms ps

-- The question marks of a statement.
abbrev pub marks : List ℕ → ℕ
marks [] = 0
marks (c ∷ cs) = if c == b'?' then suc (marks cs) else marks cs

substitute_fits :
    (text : Parameter → List ℕ) (cs : List ℕ) (ps : List Parameter)
    → ((p : Parameter) → length (text p) ≤ parameter_room p + 1)
    → marks cs ≤ length ps
    → (out : List ℕ) × (substitute text cs ps ≡ some out) × (length out ≤ length cs + rooms ps)
unfolding substitute
substitute_fits text [] ps f h = ([], refl, omega arith)
substitute_fits text (c ∷ cs) [] f h = elim (Bool-cases (c == b'?')) [
  | inl mark ↦ absurd (ground arith)
  | inr plain ↦
      let r = substitute_fits text cs [] f (ground arith) in
      (c ∷ r.0, rw (plain, r.1), omega (arith, r.2))
]
substitute_fits text (c ∷ cs) (p ∷ ps) f h = elim (Bool-cases (c == b'?')) [
  | inl mark ↦
      let r = substitute_fits text cs ps f (ground arith) in
      (text p ++ r.0, rw (mark, r.1), omega (arith, r.2, length-append (text p) r.0, f p))
  | inr plain ↦
      let r = substitute_fits text cs (p ∷ ps) f (ground arith) in
      (c ∷ r.0, rw (plain, r.1), omega (arith, r.2))
]

add_rooms_lem :
    (n : ℕ) (ps : List Parameter) → n + rooms ps < 2 ^ 64 → add_rooms n ps ≡ n + rooms ps
unfolding add_rooms
add_rooms_lem n [] h = omega arith
add_rooms_lem n (p ∷ ps) h =
    let e : add64 n (parameter_room p) ≡ n + parameter_room p = omega arith in
    rw e (omega (arith, add_rooms_lem (n + parameter_room p) ps (omega arith)))

-- If the statement has at most as many question marks as there are parameters, and the size of the
-- buffer does not wrap, the text is built, and with one more byte, which `sprintf` ends a number
-- with, it fits the buffer of `out_len` bytes.
pub query_text_fits :
    (ft : FloatText) (server_status : ℕ) (m : Mem) (statement : List ℕ) (ps : List Parameter)
    → FloatTextFits ft
    → marks statement ≤ length ps
    → length statement + 1 + rooms ps < 2 ^ 64
    → (out : List ℕ) × (query_text ft server_status m statement ps ≡ some out)
      × (length out + 1 ≤ query_out_len (length statement) ps)
unfolding query_text query_out_len
query_text_fits ft s m statement ps f h k =
    let r =
      substitute_fits (parameter_text ft s m) statement ps
        (λ p. length-parameter_text ft s m p.type p.address p.length p.is_unsigned f) h in
    let e : add64 (length statement) 1 ≡ length statement + 1 = omega arith in
    (r.0, r.1, rw (e, add_rooms_lem (length statement + 1) ps k) (omega (arith, r.2)))

-- A 64-bit pattern `v` that is passed as BIGINT: one that is marked unsigned is printed as a
-- minus and its distance from 2 ^ 64 if it is 2 ^ 63 or more, and one that is marked signed is
-- printed as `v`, also if it stands for a negative number. The two formats are exchanged.
pub bigint_text :
    (ft : FloatText) (s : ℕ) (m : Mem) (a n v : ℕ)
    → unpack_int8 m a ≡ v
    → 2 ^ 63 ≤ v
    → v < 2 ^ 64
    → let text = λ (u : Bool).
      parameter_text ft s m
        (record { type = escape_bigint; address = a; length = n; is_unsigned = u }) in
      (text true ≡ b'-' ∷ decimal 19 (2 ^ 64 - v)) × (number_of 0 (text false) ≡ v)
unfolding parameter_text signed_decimal
bigint_text ft s m a n v e lo hi =
    let big : ltb v (2 ^ 63) ≡ false = ground arith in
    rw (e, big) (refl, number_of-decimal 19 v (omega arith))

-- A 32-bit pattern `v` that is passed as INT is printed so that it reads back: as `v` if it is
-- marked unsigned or is below 2 ^ 31, and else as a minus and its distance from 2 ^ 32.
pub int_text :
    (ft : FloatText) (s : ℕ) (m : Mem) (a n v : ℕ) (u : Bool)
    → unpack_int4 m a ≡ v
    → v < 2 ^ 32
    → let text =
        parameter_text ft s m
          (record { type = escape_int; address = a; length = n; is_unsigned = u }) in
      if u || ltb v (2 ^ 31)
      then number_of 0 text ≡ v
      else (text ≡ b'-' ∷ decimal 9 (2 ^ 32 - v))
        × (number_of 0 (decimal 9 (2 ^ 32 - v)) ≡ 2 ^ 32 - v)
unfolding parameter_text signed_decimal
int_text ft s m a n v true e hi = rw e (number_of-decimal 9 v (omega arith))
int_text ft s m a n v false e hi = elim (Bool-cases (ltb v (2 ^ 31))) [
  | inl small ↦ rw (small, e, small) (number_of-decimal 9 v (omega arith))
  | inr large ↦ rw (large, e, large) (refl, number_of-decimal 9 (2 ^ 32 - v) (omega arith))
]
