-- ===== src/Query/Escape.antt =====
-- The two escaping functions of src/query.cc. Each is the list of bytes that it writes from
-- `buffer` on; what it returns is their number.
use libattachsql.Prelude.{ℕ, List, [], ◌∷◌, not, ◌==◌, if◌then◌else◌, bit_and}

-- `if (data[pos] == '\'')` writes one more quote in front.
unfoldable pub no_backslash_escape_data : List ℕ → List ℕ
no_backslash_escape_data [] = []
no_backslash_escape_data (c ∷ cs) =
    let rest = no_backslash_escape_data cs in if c == b'\'' then b'\'' ∷ (c ∷ rest) else c ∷ rest

-- The `switch`: 0, the value of `newchar` to start with, where no case fits.
unfoldable pub newchar : ℕ → ℕ
newchar c =
    if not (bit_and c 0x80 == 0)
    then 0
    else if c == 0
    then b'0'
    else if c == b'\n'
    then b'n'
    else if c == b'\r'
    then b'r'
    else if c == 26
    then b'Z'
    else if c == b'\\'
    then b'\\'
    else if c == b'\''
    then b'\''
    else if c == b'"'
    then b'"'
    else 0

unfoldable pub escape_data : List ℕ → List ℕ
escape_data [] = []
escape_data (c ∷ cs) =
    let rest = escape_data cs in
    if not (newchar c == 0) then b'\\' ∷ (newchar c ∷ rest) else c ∷ rest
