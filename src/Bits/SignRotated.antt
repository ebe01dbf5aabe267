-- ===== src/Bits/SignRotated.antt =====
-- The sign-rotated form: the magnitude shifted left by one, the sign in the low bit, and 1 (a zero
-- with a sign) for the least number.
use pnacl_c.Base.{ℕ, ◌+◌, ◌-◌, ◌*◌, ◌%◌, ◌^◌, ◌<◌, ◌≡◌, arith, bit_and}
use pnacl_c.Base.{◌==◌, if◌then◌else◌}
use pnacl_c.Base.Bitwise.{bit_and_mask}
use pnacl_c.Base.Int.{ℤ, pos, negsuc}
use pnacl_c.Bits.{decode_sign_rotated_value, decode_sign_rotated_value_int64}

-- How a number of a signed type of `w` bits is written.
abbrev pub rotate : ℕ → ℤ → ℕ
rotate w (pos n) = 2 * n
rotate w (negsuc n) = if n == 2 ^ (w - 1) - 1 then 1 else 2 * (n + 1) + 1

abbrev pub FitsSigned : ℕ → ℤ → Type 0
FitsSigned w (pos n) = n < 2 ^ (w - 1)
FitsSigned w (negsuc n) = n < 2 ^ (w - 1)

low_bit : (x : ℕ) → bit_and x 1 ≡ x % 2
low_bit x = bit_and_mask 1 x

-- Every int64_t is decoded from its sign-rotated form, the least one included.
pub decode_int64-rotate :
    (z : ℤ) → FitsSigned 64 z → decode_sign_rotated_value_int64 (rotate 64 z) ≡ z
unfolding decode_sign_rotated_value_int64
decode_int64-rotate (pos n) h = ground (arith, low_bit (2 * n))
decode_int64-rotate (negsuc n) h = ground (arith, low_bit (2 * (n + 1) + 1))

-- Every int32_t is decoded from its sign-rotated form, the least one included.
pub decode_int32-rotate : (z : ℤ) → FitsSigned 32 z → decode_sign_rotated_value (rotate 32 z) ≡ z
unfolding decode_sign_rotated_value
decode_int32-rotate (pos n) h = ground (arith, low_bit (2 * n))
decode_int32-rotate (negsuc n) h = ground (arith, low_bit (2 * (n + 1) + 1))
