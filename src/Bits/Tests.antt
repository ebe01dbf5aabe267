-- ===== src/Bits/Tests.antt =====
-- Runs of the bit utilities.
use pnacl_c.Base.{◌-◌, ◌^◌, ◌≡◌, refl, arith, true, false}
use pnacl_c.Base.Int.{negsuc}
use pnacl_c.Base.{ℕ, ok, ◌⊎◌, ◌≤◌, ◌<◌, ◌*◌}
use pnacl_c.Bits.{
  next_power_loop, next_power_of_two, is_power_of_two, decode_sign_rotated_value,
  decode_sign_rotated_value_int64,
}
use pnacl_c.Bits.Power.{next_power_of_two-power}
use pnacl_c.Bits.SignRotated.{rotate, decode_int64-rotate, decode_int32-rotate}

decode_int64-rotate_example :
    decode_sign_rotated_value_int64 (rotate 64 (negsuc (2 ^ 63 - 1))) ≡ negsuc (2 ^ 63 - 1)
decode_int64-rotate_example = decode_int64-rotate (negsuc (2 ^ 63 - 1)) (omega arith)

decode_int32-rotate_test : decode_sign_rotated_value (rotate 32 (negsuc 4)) ≡ negsuc 4
decode_int32-rotate_test = decode_int32-rotate (negsuc 4) (omega arith)

decode_test : decode_sign_rotated_value 11 ≡ negsuc 4
unfolding decode_sign_rotated_value
decode_test = refl

is_power_of_two_test : (is_power_of_two 64 ≡ true) × (is_power_of_two 65 ≡ false)
unfolding is_power_of_two
is_power_of_two_test = (refl, refl)

next_power_of_two-power_example :
    (n : ℕ) × (next_power_of_two 1000 ≡ ok (2 ^ n))
    × (1000 ≤ 2 ^ n)
    × ((n ≡ 0) ⊎ (2 ^ n < 2 * 1000))
next_power_of_two-power_example = next_power_of_two-power 1000 (omega arith)

next_power_of_two_test : next_power_of_two 1000 ≡ ok 1024
unfolding next_power_of_two next_power_loop
next_power_of_two_test = refl
