-- ===== src/Query/Decimal.antt =====
-- The texts that `sprintf` gives the integers of a query.
use libattachsql.Prelude.{
  ℕ, zero, suc, ◌+◌, ◌-◌, ◌*◌, ◌/◌, ◌%◌, ◌^◌, ◌≤◌, ◌<◌, ◌≡◌, refl, arith, List, [], ◌∷◌, ◌++◌,
  length, length-append, ltb, if◌then◌else◌,
}
use native.Mathlib.Nat.{pow-suc}

-- `%u`, in at most `k + 1` digits.
unfoldable pub decimal : ℕ → ℕ → List ℕ
decimal zero n = (b'0' + n % 10) ∷ []
decimal (suc k) n =
    let front = decimal k (n / 10) in
    let last : List ℕ = (b'0' + n % 10) ∷ [] in if ltb n 10 then last else front ++ last

-- `%d` of the bit pattern `n` of a signed number, where `half` is half the number of patterns.
unfoldable pub signed_decimal : ℕ → ℕ → ℕ → List ℕ
signed_decimal k half n = if ltb n half then decimal k n else b'-' ∷ decimal k (half * 2 - n)

pub length-decimal : (k n : ℕ) → length (decimal k n) ≤ k + 1
unfolding decimal
length-decimal zero n = omega arith
length-decimal (suc k) n =
    ground
      (arith, length-decimal k (n / 10), length-append (decimal k (n / 10)) ((b'0' + n % 10) ∷ []))

-- A number below 10 ^ (j + 1) has at most `j + 1` digits.
pub length-decimal-lt : (j k n : ℕ) → n < 10 ^ suc j → length (decimal k n) ≤ j + 1
unfolding decimal
length-decimal-lt j zero n h = omega arith
length-decimal-lt zero (suc k) n h = ground arith
length-decimal-lt (suc j) (suc k) n h = ground (
  arith,
  length-decimal-lt j k (n / 10) (omega (arith, pow-suc 10 (suc j))),
  length-append (decimal k (n / 10)) ((b'0' + n % 10) ∷ []),
)

pub length-signed_decimal : (k half n : ℕ) → length (signed_decimal k half n) ≤ k + 2
unfolding signed_decimal
length-signed_decimal k half n = ground (arith, length-decimal k n, length-decimal k (half * 2 - n))

-- The number that a text of digits stands for, from the digits `acc` on.
pub number_of : ℕ → List ℕ → ℕ
number_of acc [] = acc
number_of acc (d ∷ ds) = number_of (acc * 10 + (d - b'0')) ds

number_of-append :
    (acc d : ℕ) (ds : List ℕ) → number_of acc (ds ++ (d ∷ [])) ≡ number_of acc ds * 10 + (d - b'0')
unfolding number_of
number_of-append acc d [] = refl
number_of-append acc d (e ∷ ds) = number_of-append (acc * 10 + (e - b'0')) d ds

number_of_digit : (d : ℕ) → number_of 0 (d ∷ []) ≡ d - b'0'
unfolding number_of
number_of_digit d = omega arith

-- A number below 10 ^ (k + 1) is printed in full: its text stands for it.
pub number_of-decimal : (k n : ℕ) → n < 10 ^ suc k → number_of 0 (decimal k n) ≡ n
unfolding decimal
number_of-decimal zero n h = omega (arith, number_of_digit (b'0' + n % 10))
number_of-decimal (suc k) n h = ground (
  arith,
  number_of-append 0 (b'0' + n % 10) (decimal k (n / 10)),
  number_of_digit (b'0' + n % 10),
  number_of-decimal k (n / 10) (omega (arith, pow-suc 10 (suc k))),
)
