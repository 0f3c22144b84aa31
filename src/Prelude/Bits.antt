-- ===== src/Prelude/Bits.antt =====
-- Fixed-width casts, shifts, and the laws of `|` and `&` that the byte packing macros rely on.
use Prim.Native.Nat.{
  ℕ, zero, suc, ◌+◌, ◌-◌, ◌*◌, ◌/◌, ◌%◌, ◌^◌, ◌≤◌, ◌<◌, min, max, digits, bitwise,
}
use Prim.Native.Nat.{bit_and, bit_or, bit_and-bitwise, bit_or-bitwise}
use mathlib.Core.Path.{◌≡◌, refl, ap, ◌∙◌}
use native.Mathlib.Nat.{pow-suc}
use native.Mathlib.Decide.{dec_le}
use native.Mathlib.Omega.{arith}

-- `(uint8_t)x` and so on.
abbrev pub u8 : ℕ → ℕ
u8 x = x % 2 ^ 8

abbrev pub u16 : ℕ → ℕ
u16 x = x % 2 ^ 16

abbrev pub u32 : ℕ → ℕ
u32 x = x % 2 ^ 32

abbrev pub u64 : ℕ → ℕ
u64 x = x % 2 ^ 64

abbrev pub shr : ℕ → ℕ → ℕ
shr x k = x / 2 ^ k

-- `(uint32_t)x << k` and `(uint64_t)x << k`.
abbrev pub shl32 : ℕ → ℕ → ℕ
shl32 x k = u32 (x * 2 ^ k)

abbrev pub shl64 : ℕ → ℕ → ℕ
shl64 x k = u64 (x * 2 ^ k)

-- One unit of fuel more than the first number changes nothing, so neither do many.
module _ (z : ℕ → ℕ) (f : ℕ → ℕ → ℕ) where
  digits-suc : (n a b : ℕ) → a ≤ n → digits z f (suc n) a b ≡ digits z f n a b
  digits-suc zero zero b h = refl
  digits-suc zero (suc a) b h = absurd (omega arith)
  digits-suc (suc n) zero b h = refl
  digits-suc (suc n) (suc a) b h =
      ap (λ (t : ℕ). t * 2 + f (suc a % 2) (b % 2)) (digits-suc n (suc a / 2) (b / 2) (omega arith))

  digits-bitwise : (n a b : ℕ) → a ≤ n → digits z f n a b ≡ bitwise z f a b
  digits-bitwise zero zero b h = refl
  digits-bitwise zero (suc a) b h = absurd (omega arith)
  digits-bitwise (suc n) a b h = elim (dec_le a n) [
    | yes p ↦ digits-suc n a b p ∙ digits-bitwise n a b p
    | no p ↦ (let e : a ≡ suc n = omega arith in rw e refl)
  ]

  bitwise_step :
      (a b : ℕ)
      → bitwise z f (suc a) b ≡ bitwise z f (suc a / 2) (b / 2) * 2 + f (suc a % 2) (b % 2)
  bitwise_step a b =
      ap (λ (t : ℕ). t * 2 + f (suc a % 2) (b % 2))
        (digits-bitwise a (suc a / 2) (b / 2) (omega arith))

or_step : (a b : ℕ) → bit_or a b ≡ bit_or (a / 2) (b / 2) * 2 + max (a % 2) (b % 2)
or_step zero b = omega (arith, bit_or-bitwise 0 b, bit_or-bitwise 0 (b / 2))
or_step (suc a) b = omega (
  arith,
  bit_or-bitwise (suc a) b,
  bit_or-bitwise (suc a / 2) (b / 2),
  bitwise_step (λ y. y) max a b,
)

and_step : (a b : ℕ) → bit_and a b ≡ bit_and (a / 2) (b / 2) * 2 + min (a % 2) (b % 2)
and_step zero b = omega (arith, bit_and-bitwise 0 b, bit_and-bitwise 0 (b / 2))
and_step (suc a) b = omega (
  arith,
  bit_and-bitwise (suc a) b,
  bit_and-bitwise (suc a / 2) (b / 2),
  bitwise_step (λ y. 0) min a b,
)

and_zero_fuel : (n a : ℕ) → a ≤ n → bit_and a 0 ≡ 0
and_zero_fuel n zero h = refl
and_zero_fuel zero (suc a) h = absurd (omega arith)
and_zero_fuel (suc n) (suc a) h =
    omega (arith, and_step (suc a) 0, and_zero_fuel n (suc a / 2) (omega arith))

or_even : (x w : ℕ) → bit_or x (2 * w) ≡ bit_or (x / 2) w * 2 + x % 2
or_even x w =
    let e : 2 * w / 2 ≡ w = omega arith in omega (arith, or_step x (2 * w), ap (bit_or (x / 2)) e)

and_odd : (x m : ℕ) → bit_and x (2 * m + 1) ≡ bit_and (x / 2) m * 2 + x % 2
and_odd x m =
    let e : (2 * m + 1) / 2 ≡ m = omega arith in
    omega (arith, and_step x (2 * m + 1), ap (bit_and (x / 2)) e)

-- `x | (y << k)` with `x` below `2 ^ k` is a sum.
pub or_shifted : (k x y : ℕ) → x < 2 ^ k → bit_or x (y * 2 ^ k) ≡ x + y * 2 ^ k
or_shifted zero x y h =
    let e : x ≡ 0 = omega arith in rw e (omega (arith, bit_or-bitwise 0 (y * 2 ^ 0)))
or_shifted (suc k) x y h =
    let e : y * 2 ^ suc k ≡ 2 * (y * 2 ^ k) = omega (arith, ap (λ (t : ℕ). y * t) (pow-suc 2 k)) in
    let ih : bit_or (x / 2) (y * 2 ^ k) ≡ x / 2 + y * 2 ^ k =
      or_shifted k (x / 2) y (omega (arith, pow-suc 2 k)) in
    rw e (omega (arith, or_even x (y * 2 ^ k), ih))

-- `x & 0xff` and `x & 0x0f`.
low_nibble : (x : ℕ) → bit_and x 0x0f ≡ x % 2 ^ 4
low_nibble x = omega (
  arith,
  and_odd x 7,
  and_odd (x / 2) 3,
  and_odd (x / 2 / 2) 1,
  and_odd (x / 2 / 2 / 2) 0,
  and_zero_fuel (x / 2 / 2 / 2 / 2) (x / 2 / 2 / 2 / 2) (omega arith),
)

pub low_byte : (x : ℕ) → bit_and x 0xff ≡ x % 2 ^ 8
low_byte x = omega (
  arith,
  and_odd x 127,
  and_odd (x / 2) 63,
  and_odd (x / 2 / 2) 31,
  and_odd (x / 2 / 2 / 2) 15,
  low_nibble (x / 2 / 2 / 2 / 2),
)

-- `size_t` sum and difference.
abbrev pub add64 : ℕ → ℕ → ℕ
add64 a b = u64 (a + b)

abbrev pub sub64 : ℕ → ℕ → ℕ
sub64 a b = u64 (a + (2 ^ 64 - u64 b))

-- The bit `k` of a number, the lowest bit first.
unfoldable pub bit_at : ℕ → ℕ → ℕ
bit_at zero x = x % 2
bit_at (suc k) x = bit_at k (x / 2)

and_even : (x w : ℕ) → bit_and x (2 * w) ≡ bit_and (x / 2) w * 2
and_even x w =
    let e : 2 * w / 2 ≡ w = omega arith in omega (arith, and_step x (2 * w), ap (bit_and (x / 2)) e)

-- `x & (1 << k)` is the bit `k` in its place.
pub bit_and-pow : (k x : ℕ) → bit_and x (2 ^ k) ≡ bit_at k x * 2 ^ k
unfolding bit_at
bit_and-pow zero x = omega (arith, and_odd x 0, and_zero_fuel (x / 2) (x / 2) (omega arith))
bit_and-pow (suc k) x =
    let e : 2 ^ suc k ≡ 2 * 2 ^ k = omega (arith, pow-suc 2 k) in
    let up : bit_at k (x / 2) * 2 ^ suc k ≡ bit_at k (x / 2) * 2 ^ k * 2 =
      omega (arith, ap (λ (t : ℕ). bit_at k (x / 2) * t) (pow-suc 2 k)) in
    rw e (omega (arith, and_even x (2 ^ k), bit_and-pow k (x / 2), up, e))

pub two_pow_pos : (k : ℕ) → 0 < 2 ^ k
two_pow_pos zero = omega arith
two_pow_pos (suc k) = omega (arith, pow-suc 2 k, two_pow_pos k)

-- The test `x & (1 << k)`.
pub bit_set : (k x : ℕ) → bit_at k x ≡ 1 → 0 < bit_and x (2 ^ k)
bit_set k x h = omega (arith, bit_and-pow k x, two_pow_pos k, ap (λ (t : ℕ). t * 2 ^ k) h)

pub bit_clear : (k x : ℕ) → bit_at k x ≡ 0 → bit_and x (2 ^ k) ≡ 0
bit_clear k x h = omega (arith, bit_and-pow k x, ap (λ (t : ℕ). t * 2 ^ k) h)
