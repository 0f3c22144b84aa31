-- ===== src/Query/EscapeLaws.antt =====
-- Escaped data against an independent reading of SQL string literals: the server's, as the MySQL
-- manual describes it, with backslash escapes and with NO_BACKSLASH_ESCAPES.
use libattachsql.Prelude.{
  ℕ, ◌*◌, ◌≤◌, ◌≡◌, ◌≢◌, refl, arith, Bool, true, false, Option, some, none, List, [], ◌∷◌, ◌++◌,
  ◌==◌, ◌&&◌, if◌then◌else◌, length, Bool-cases, inl, inr,
}
use libattachsql.Query.Escape.{no_backslash_escape_data, newchar, escape_data}

-- What `\d` stands for.
abbrev pub unescaped : ℕ → ℕ
unescaped d =
    if d == b'0'
    then 0
    else if d == b'n'
    then 10
    else if d == b'r'
    then 13
    else if d == b't'
    then 9
    else if d == b'b'
    then 8
    else if d == b'Z'
    then 26
    else d

abbrev pub prepend : ℕ → Option (List ℕ × List ℕ) → Option (List ℕ × List ℕ)
prepend c none = none
prepend c (some (text, rest)) = some (c ∷ text, rest)

-- Reads a literal whose opening quote was read already: its text, and what follows the closing
-- quote. A quote is doubled inside; a backslash escapes the next byte, if `backslash` says so.
pub literal : Bool → List ℕ → Option (List ℕ × List ℕ)
literal backslash [] = none
literal backslash (c ∷ []) = if c == b'\'' then some ([], []) else none
literal backslash (c ∷ (d ∷ ds)) =
    let after_two = literal backslash ds in
    let after_one = literal backslash (d ∷ ds) in
    if backslash && c == b'\\'
    then prepend (unescaped d) after_two
    else if c == b'\''
    then (if d == b'\'' then prepend b'\'' after_two else some ([], d ∷ ds))
    else prepend c after_one

-- A statement goes on behind a literal with no further quote.
abbrev pub NoQuote : List ℕ → Type 0
NoQuote [] = Unit {0}
NoQuote (c ∷ cs) = c ≢ b'\''

literal_end : (b : Bool) (rest : List ℕ) → NoQuote rest → literal b (b'\'' ∷ rest) ≡ some ([], rest)
unfolding literal
literal_end true [] h = refl
literal_end true (d ∷ ds) h = ground arith
literal_end false [] h = refl
literal_end false (d ∷ ds) h = ground arith

literal_plain :
    (b : Bool) (c : ℕ) (text : List ℕ)
    → text ≢ []
    → (b && c == b'\\') ≡ false
    → c ≢ b'\''
    → literal b (c ∷ text) ≡ prepend c (literal b text)
unfolding literal
literal_plain b c [] ne h k = absurd (ne refl)
literal_plain b c (d ∷ ds) ne h k = let other : (c == b'\'') ≡ false = ground arith in rw (h, other)

literal_escape :
    (d : ℕ) (ds : List ℕ)
    → literal true (b'\\' ∷ (d ∷ ds)) ≡ prepend (unescaped d) (literal true ds)
unfolding literal
literal_escape d ds = refl

literal_quote :
    (ds : List ℕ) → literal false (b'\'' ∷ (b'\'' ∷ ds)) ≡ prepend b'\'' (literal false ds)
unfolding literal
literal_quote ds = refl

append-ne-nil : (xs : List ℕ) (y : ℕ) (ys : List ℕ) → xs ++ (y ∷ ys) ≢ []
append-ne-nil [] y ys = ground arith
append-ne-nil (x ∷ xs) y ys = ground arith

-- Where `newchar` stays 0 the byte is no quote and no backslash, and elsewhere it undoes.
kept_byte : (c : ℕ) → (newchar c == 0) ≡ true → (c ≢ b'\'') × (c ≢ b'\\')
unfolding newchar
kept_byte c h = (
  λ e. let h' : (newchar b'\'' == 0) ≡ true = (rw e at h) in cc,
  λ e. let h' : (newchar b'\\' == 0) ≡ true = (rw e at h) in cc,
)

undone_byte : (c : ℕ) → (newchar c == 0) ≡ false → unescaped (newchar c) ≡ c
unfolding newchar
undone_byte c h = ground arith

-- Escaped data between quotes is one string literal, whatever its bytes are: the server reads the
-- data back and goes on behind the closing quote, if no quote follows there.
pub literal-escape_data :
    (data' rest : List ℕ)
    → NoQuote rest
    → literal true (escape_data data' ++ (b'\'' ∷ rest)) ≡ some (data', rest)
unfolding escape_data
literal-escape_data [] rest h = literal_end true rest h
literal-escape_data (c ∷ cs) rest h = elim (Bool-cases (newchar c == 0)) [
  | inl kept ↦ rw kept (
      let k = kept_byte c kept in
      let e : (true && c == b'\\') ≡ false = ground arith in
      rw
        (
          literal_plain true c (escape_data cs ++ (b'\'' ∷ rest))
              (append-ne-nil (escape_data cs) (b'\'') rest) e k.0,
          literal-escape_data cs rest h,
        )
        refl)
  | inr other ↦ rw (other, literal_escape, literal-escape_data cs rest h, undone_byte c other) refl
]

-- The same with the other function, for a server that has no backslash escapes.
pub literal-no_backslash_escape_data :
    (data' rest : List ℕ)
    → NoQuote rest
    → literal false (no_backslash_escape_data data' ++ (b'\'' ∷ rest)) ≡ some (data', rest)
unfolding no_backslash_escape_data
literal-no_backslash_escape_data [] rest h = literal_end false rest h
literal-no_backslash_escape_data (c ∷ cs) rest h = elim (Bool-cases (c == b'\'')) [
  | inl quote ↦
      let e : c ≡ b'\'' = ground arith in
      rw (e, literal_quote, literal-no_backslash_escape_data cs rest h) refl
  | inr other ↦
      rw
        (
          other,
          literal_plain false c (no_backslash_escape_data cs ++ (b'\'' ∷ rest))
              (append-ne-nil (no_backslash_escape_data cs) (b'\'') rest) refl (ground arith),
          literal-no_backslash_escape_data cs rest h,
        )
        refl
]

-- Neither function writes more than two bytes for each byte of the data.
pub length-escape_data :
    (data' : List ℕ)
    → (length data' ≤ length (escape_data data'))
      × (length (escape_data data') ≤ length data' * 2)
      × (length data' ≤ length (no_backslash_escape_data data'))
      × (length (no_backslash_escape_data data') ≤ length data' * 2)
unfolding escape_data no_backslash_escape_data
length-escape_data [] = omega arith
length-escape_data (c ∷ cs) = ground (arith, length-escape_data cs)
