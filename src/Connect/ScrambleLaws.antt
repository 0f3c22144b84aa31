-- ===== src/Connect/ScrambleLaws.antt =====
-- The server can check the password by what `scramble_password` sends.
use libattachsql.Prelude.{
  ℕ, zero, suc, ◌+◌, ◌*◌, ◌/◌, ◌%◌, ◌^◌, ◌<◌, ◌≡◌, refl, sym, ap, ap₂, ◌∙◌, arith, some, List, [],
  ◌∷◌, ◌++◌, length,
}
use native.Mathlib.Nat.{pow-suc}
use libattachsql.Connect.Scramble.{xor, xor_all, scramble_password}

pub xor-lt : (w a b : ℕ) → xor w a b < 2 ^ w
unfolding xor
xor-lt zero a b = omega arith
xor-lt (suc w) a b = omega (arith, xor-lt w (a / 2) (b / 2), pow-suc 2 w)

xor-xor : (w a b : ℕ) → b < 2 ^ w → xor w (xor w a b) a ≡ b
unfolding xor
xor-xor zero a b h = omega arith
xor-xor (suc w) a b h =
    let x = xor w (a / 2) (b / 2) in
    let r = (a % 2 + b % 2) % 2 in
    let up : (x * 2 + r) / 2 ≡ x = omega arith in
    let low : ((x * 2 + r) % 2 + a % 2) % 2 ≡ b % 2 = omega arith in
    rw (up, low) (omega (arith, xor-xor w (a / 2) (b / 2) (omega (arith, pow-suc 2 w))))

pub data AllBytes : List ℕ → Type 0 where
  no_byte : AllBytes []
  one_byte : {b : ℕ} {bs : List ℕ} → b < 256 → AllBytes bs → AllBytes (b ∷ bs)

xor_all-xor_all :
    (xs ys : List ℕ) → length xs ≡ length ys → AllBytes ys → xor_all (xor_all xs ys) xs ≡ ys
unfolding xor_all
xor_all-xor_all [] [] l h = refl
xor_all-xor_all [] (y ∷ ys) l h = absurd (omega arith)
xor_all-xor_all (x ∷ xs) [] l h = absurd (omega arith)
xor_all-xor_all (x ∷ xs) (y ∷ ys) l (one_byte b h) =
    ap₂ ◌∷◌ (xor-xor 8 x y (omega arith)) (xor_all-xor_all xs ys (omega arith) h)

-- The digest function answers 20 bytes.
pub record IsDigest (sha1 : List ℕ → List ℕ) : Type 0 where
  pub digest_length : (x : List ℕ) → length (sha1 x) ≡ 20
  pub digest_bytes : (x : List ℕ) → AllBytes (sha1 x)

-- A server that keeps the password's double digest can check what is sent: taken with the digest
-- of the scramble and the double digest, it is a message whose digest is the double digest. This
-- holds for every digest function that answers 20 bytes, and where the scramble does not begin
-- with 0 something is sent.
pub scramble_password-checked :
    (sha1 : List ℕ → List ℕ) (pass : List ℕ) (b : ℕ) (scramble : List ℕ)
    → IsDigest sha1
    → (token : List ℕ) × (scramble_password sha1 pass (suc b ∷ scramble) ≡ some token)
      × (sha1 (xor_all token (sha1 ((suc b ∷ scramble) ++ sha1 (sha1 pass)))) ≡ sha1 (sha1 pass))
unfolding scramble_password
scramble_password-checked sha1 pass b scramble d =
    let key = sha1 ((suc b ∷ scramble) ++ sha1 (sha1 pass)) in
    let stage1 = sha1 pass in
    (
      xor_all key stage1,
      refl,
      ap sha1 (
          xor_all-xor_all key stage1 (d.digest_length _ ∙ sym (d.digest_length _))
            (d.digest_bytes pass)),
    )
