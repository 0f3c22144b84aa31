-- ===== src/Prelude/Int.antt =====
-- Signed numbers, and the bit patterns of two's complement that stand for them.
use libattachsql.Prelude.Tests.{ltb, if◌then◌else◌}
use Prim.Native.Nat.{ℕ, ◌-◌, ◌/◌, ◌%◌, ◌^◌}

-- `negsuc n` is -1 - n.
pub data ℤ : Type 0 where
  pos negsuc : ℕ → ℤ

-- The number that a pattern of `w` bits stands for.
abbrev pub signed_of : ℕ → ℕ → ℤ
signed_of w n = if ltb n (2 ^ w / 2) then pos n else negsuc (2 ^ w - 1 - n)

-- The pattern of `w` bits, cut as a cast cuts it.
abbrev pub pattern_of : ℕ → ℤ → ℕ
pattern_of w (pos n) = n % 2 ^ w
pattern_of w (negsuc n) = 2 ^ w - 1 - n % 2 ^ w

-- A cast to a signed type of `w` bits.
abbrev pub cast_signed : ℕ → ℤ → ℤ
cast_signed w z = signed_of w (pattern_of w z)
