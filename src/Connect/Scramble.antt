-- ===== src/Connect/Scramble.antt =====
-- `scramble_password` of src/connect.cc. SHA-1 is an argument: it maps a message to its digest, and
-- feeding it two pieces is feeding it their concatenation.
use libattachsql.Prelude.{ℕ, zero, suc, ◌+◌, ◌*◌, ◌/◌, ◌%◌, Option, none, some, List, [], ◌∷◌, ◌++◌}

-- `a ^ b` on numbers of `w` bits.
unfoldable pub xor : ℕ → ℕ → ℕ → ℕ
xor zero a b = 0
xor (suc w) a b = xor w (a / 2) (b / 2) * 2 + (a % 2 + b % 2) % 2

-- The loop over the bytes of both digests.
unfoldable pub xor_all : List ℕ → List ℕ → List ℕ
xor_all [] ys = []
xor_all (x ∷ xs) [] = []
xor_all (x ∷ xs) (y ∷ ys) = xor 8 x y ∷ xor_all xs ys

-- What is stored at `buffer`, or `none` where the server supplied no scramble.
unfoldable pub scramble_password : (List ℕ → List ℕ) → List ℕ → List ℕ → Option (List ℕ)
scramble_password sha1 pass [] = none
scramble_password sha1 pass (zero ∷ scramble) = none
scramble_password sha1 pass (suc b ∷ scramble) =
    let stage1 = sha1 pass in
    let stage2 = sha1 stage1 in some (xor_all (sha1 ((suc b ∷ scramble) ++ stage2)) stage1)
