-- ===== src/Statement/TextLaws.antt =====
-- The texts of `attachsql_statement_get_char` fit the buffer of the connection.
use libattachsql.Prelude.{
  ℕ, zero, suc, ◌+◌, ◌-◌, ◌*◌, ◌^◌, ◌%◌, ◌≤◌, ◌<◌, ◌≡◌, ◌≢◌, refl, ap, sym, arith, Bool, true,
  false, List, [], ◌∷◌, ◌++◌, length, length-append, take, replicate, ◌==◌, if◌then◌else◌,
  Bool-cases, inl, inr,
}
use libattachsql.Prelude.Memory.{Mem}
use libattachsql.Pack.Ints.{PlainChar}
use libattachsql.Pack.DateTime.{Datetime, new_datetime, unpack_datetime, unpack_time}
use libattachsql.Query.Decimal.{decimal, length-decimal, length-decimal-lt, length-signed_decimal}
use libattachsql.Statement.Types.{
  ColumnType, type_decimal, type_tiny, type_short, type_long, type_float, type_double, type_null,
  type_timestamp, type_longlong, type_int24, type_date, type_time, type_datetime, type_year,
  type_varchar, type_bit, type_newdecimal, type_enum, type_set, type_tiny_blob, type_medium_blob,
  type_long_blob, type_blob, type_varstring, type_string, type_geometry, type_error, type_other,
}
use libattachsql.Statement.Row.{StmtCell}
use libattachsql.Statement.Getters.{Get, got, refused}
use libattachsql.Statement.Texts.{
  padded, Printed, printed, Snprintf, CharResult, in_buffer, in_cell, null_value, and_printed,
  print_microsecond, print_date, print_clock, print_datetime, print_time, print_int, print_narrow,
  char_at,
}

take_all : (n : ℕ) (s : List ℕ) → length s ≤ n → take n s ≡ s
take_all zero [] h = refl
take_all zero (x ∷ s) h = absurd (omega arith)
take_all (suc n) [] h = refl
take_all (suc n) (x ∷ s) h = ap (◌∷◌ x) (take_all n s (omega arith))

-- The text was not cut, and has at most `n` bytes.
abbrev IsWhole : ℕ → Printed → Type 0
IsWhole n p = (p.reported ≡ length p.text) × (p.reported ≤ n)

printed-IsWhole : (n : ℕ) (s : List ℕ) → length s ≤ n → n ≤ 39 → IsWhole n (printed s)
printed-IsWhole n s h k = (ap length (sym (take_all 39 s (omega arith))), h)

and_printed-IsWhole :
    (n k : ℕ) (p : Printed) (s : List ℕ)
    → IsWhole n p
    → length s ≤ k
    → n + k ≤ 39
    → IsWhole (n + k) (and_printed p s)
unfolding and_printed
and_printed-IsWhole n k p s w h b =
    let front = take_all p.reported p.text (omega (arith, w.0)) in
    let back = take_all (40 - p.reported - 1) s (omega (arith, w.1)) in
    rw (front, back) (omega (arith, length-append p.text s, w.0), omega (arith, w.1))

length-replicate : (n x : ℕ) → length (replicate n x) ≡ n
length-replicate zero x = refl
length-replicate (suc n) x = ap suc (length-replicate n x)

-- A padded number has as many digits as it needs, but at least `w`.
length-padded : (w k n j : ℕ) → length (decimal k n) ≤ j → w ≤ j → length (padded w k n) ≤ j
unfolding padded
length-padded w k n j h l = omega (
  arith,
  length-append (replicate (w - length (decimal k n)) b'0') (decimal k n),
  length-replicate (w - length (decimal k n)) b'0',
)

length-print_clock :
    (k hour minute second : ℕ) → 1 ≤ k → length (print_clock k hour minute second) ≤ k + 9
unfolding print_clock
length-print_clock k hour minute second h =
    let a = padded 2 k hour in
    let b = padded 2 2 minute in
    let c = padded 2 2 second in
    omega (
      arith,
      length-append a (b':' ∷ (b ++ (b':' ∷ c))),
      length-append b (b':' ∷ c),
      length-padded 2 k hour (k + 1) (length-decimal k hour) (omega arith),
      length-padded 2 2 minute 3 (length-decimal 2 minute) (omega arith),
      length-padded 2 2 second 3 (length-decimal 2 second) (omega arith),
    )

print_date-IsWhole : (d : Datetime) → IsWhole 20 (print_date d)
unfolding print_date
print_date-IsWhole d =
    let a = padded 4 4 d.year in
    let b = padded 2 2 d.month in
    let c = padded 2 9 d.day in
    printed-IsWhole 20 _
      (omega (
        arith,
        length-append a (b'-' ∷ (b ++ (b'-' ∷ c))),
        length-append b (b'-' ∷ c),
        length-padded 4 4 d.year 5 (length-decimal 4 d.year) (omega arith),
        length-padded 2 2 d.month 3 (length-decimal 2 d.month) (omega arith),
        length-padded 2 9 d.day 10 (length-decimal 9 d.day) (omega arith),
      ))
      (omega arith)

microsecond-IsWhole :
    (n micro : ℕ) (p : Printed)
    → IsWhole n p
    → n ≤ 32
    → micro < 10 ^ 6
    → IsWhole (n + 7) (print_microsecond micro p)
unfolding print_microsecond
microsecond-IsWhole n micro p w b h = elim (Bool-cases (micro == 0)) [
  | inl z ↦ rw z (w.0, omega (arith, w.1))
  | inr z ↦ rw z (
      and_printed-IsWhole n 7 p (b'.' ∷ padded 6 9 micro) w
        (omega (arith, length-padded 6 9 micro 6 (length-decimal-lt 5 9 micro h) (omega arith)))
        (omega arith))
]

print_datetime-IsWhole : (d : Datetime) → d.microsecond < 10 ^ 6 → IsWhole 39 (print_datetime d)
unfolding print_datetime
print_datetime-IsWhole d h =
    microsecond-IsWhole 32 d.microsecond _
      (and_printed-IsWhole 20 12 (print_date d) _ (print_date-IsWhole d)
        (omega (arith, length-print_clock 2 d.hour d.minute d.second (omega arith))) (omega arith))
      (omega arith) h

length-signed :
    (negative : Bool) (s : List ℕ) → length (if negative then b'-' ∷ s else s) ≤ length s + 1
length-signed true s = omega arith
length-signed false s = omega arith

print_time-IsWhole : (d : Datetime) → d.microsecond < 10 ^ 6 → IsWhole 39 (print_time d)
unfolding print_time
print_time-IsWhole d h =
    let clock = print_clock 9 ((d.hour + 24 * d.day) % 2 ^ 32) d.minute d.second in
    let w =
      microsecond-IsWhole 19 d.microsecond (printed (if d.is_negative then b'-' ∷ clock else clock))
        (printed-IsWhole 19 _
          (omega (
            arith,
            length-signed d.is_negative clock,
            length-print_clock 9 ((d.hour + 24 * d.day) % 2 ^ 32) d.minute d.second (omega arith),
          ))
          (omega arith))
        (omega arith) h in
    (w.0, omega (arith, w.1))

-- What is returned is NULL, an error, the cell, or a text in the buffer that was not cut and leaves
-- room for its terminating zero.
pub data Fits : Get CharResult → Type 0 where
  text_fits :
      {p : Printed} → p.reported ≡ length p.text → p.reported < 40 → Fits (got (in_buffer p))
  cell_fits : {p n : ℕ} → Fits (got (in_cell p n))
  null_fits : Fits (got null_value)
  error_fits : {e : _} → Fits (refused e)

whole-Fits : (p : Printed) → IsWhole 39 p → Fits (got (in_buffer p))
whole-Fits p w = text_fits w.0 (omega (arith, w.1))

print_int-Fits : (u : Bool) (k half n : ℕ) → k ≤ 19 → Fits (got (print_int u k half n))
unfolding print_int
print_int-Fits true k half n h =
    whole-Fits _ (printed-IsWhole 39 _ (omega (arith, length-decimal k n)) (omega arith))
print_int-Fits false k half n h =
    whole-Fits _
      (printed-IsWhole 39 _ (omega (arith, length-signed_decimal k half n)) (omega arith))

print_narrow-Fits :
    (fp : Snprintf) (u : Bool) (k half n : ℕ) → k ≤ 19 → Fits (got (print_narrow fp u k half n))
unfolding print_narrow
print_narrow-Fits fp u k half n h = elim (Bool-cases fp.narrows) [
  | inl e ↦ rw e (print_int-Fits u k half (n % (2 * half)) h)
  | inr e ↦ rw e (print_int-Fits u 9 (2 ^ 31) n (omega arith))
]

-- The microseconds of a cell of this type, as the getter reads them for a time, a date and time or a
-- timestamp; other cells have none.
abbrev pub microsecond_of : PlainChar → Mem → StmtCell → ColumnType → ℕ
microsecond_of cs m x type_time = (unpack_time m x.address x.cell_length new_datetime).microsecond
microsecond_of cs m x type_datetime =
    (unpack_datetime cs m x.address x.cell_length new_datetime).microsecond
microsecond_of cs m x type_timestamp =
    (unpack_datetime cs m x.address x.cell_length new_datetime).microsecond
microsecond_of cs m x _ = 0

-- For a cell of any type but the two floating point ones, whatever bytes it has, `get_char` prints
-- no text that does not fit the 40 bytes of its buffer, and the length that it reports is that of
-- the text, if the microseconds are below 10 ^ 6 that a TIME, DATETIME or TIMESTAMP cell has.
pub char_at-Fits :
    (fp : Snprintf) (cs : PlainChar) (m : Mem) (u : Bool) (x : StmtCell) (t : ColumnType)
    → (t ≢ type_float) × (t ≢ type_double)
    → microsecond_of cs m x t < 10 ^ 6
    → Fits (char_at fp cs m u x t)
unfolding char_at
char_at-Fits fp cs m u x type_tiny n a = print_narrow-Fits fp u 2 _ _ (omega arith)
char_at-Fits fp cs m u x type_year n a = print_narrow-Fits fp u 4 _ _ (omega arith)
char_at-Fits fp cs m u x type_short n a = print_narrow-Fits fp u 4 _ _ (omega arith)
char_at-Fits fp cs m u x type_long n a = print_int-Fits u 9 _ _ (omega arith)
char_at-Fits fp cs m u x type_longlong n a = print_int-Fits u 19 _ _ (omega arith)
char_at-Fits fp cs m u x type_int24 n a = print_int-Fits u 9 _ _ (omega arith)
char_at-Fits fp cs m u x type_float n a = absurd (n.0 refl)
char_at-Fits fp cs m u x type_double n a = absurd (n.1 refl)
char_at-Fits fp cs m u x type_null n a = null_fits
char_at-Fits fp cs m u x type_decimal n a = cell_fits
char_at-Fits fp cs m u x type_varchar n a = cell_fits
char_at-Fits fp cs m u x type_bit n a = cell_fits
char_at-Fits fp cs m u x type_newdecimal n a = cell_fits
char_at-Fits fp cs m u x type_enum n a = cell_fits
char_at-Fits fp cs m u x type_set n a = cell_fits
char_at-Fits fp cs m u x type_tiny_blob n a = cell_fits
char_at-Fits fp cs m u x type_medium_blob n a = cell_fits
char_at-Fits fp cs m u x type_long_blob n a = cell_fits
char_at-Fits fp cs m u x type_blob n a = cell_fits
char_at-Fits fp cs m u x type_varstring n a = cell_fits
char_at-Fits fp cs m u x type_string n a = cell_fits
char_at-Fits fp cs m u x type_geometry n a = cell_fits
char_at-Fits fp cs m u x type_time n a = whole-Fits _ (print_time-IsWhole _ a)
char_at-Fits fp cs m u x type_timestamp n a = whole-Fits _ (print_datetime-IsWhole _ a)
char_at-Fits fp cs m u x type_date n a =
    (let w = print_date-IsWhole (unpack_datetime cs m x.address x.cell_length new_datetime) in
      whole-Fits _ (w.0, omega (arith, w.1)))
char_at-Fits fp cs m u x type_datetime n a = whole-Fits _ (print_datetime-IsWhole _ a)
char_at-Fits fp cs m u x type_error n a = error_fits
char_at-Fits fp cs m u x (type_other k) n a = null_fits
