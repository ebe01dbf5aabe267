-- ===== src/Bits.antt =====
-- src/pn_bits.h: powers of two, and the sign-rotated integers of the bitcode.
pub mod SignRotated
pub mod Power
mod Tests
use pnacl_c.Base.{ℕ, zero, suc, ◌+◌, ◌-◌, ◌*◌, ◌/◌, ◌%◌, ◌^◌, bit_and}
use pnacl_c.Base.{Bool, true, false, if◌then◌else◌, ltb, ◌==◌, ◌&&◌}
use pnacl_c.Base.{Result, ok, stuck}
use pnacl_c.Base.Int.{ℤ, pos, negsuc, neg, signed}

unfoldable pub is_power_of_two : ℕ → Bool
is_power_of_two value = ltb 0 value && bit_and value (value - 1) == 0

-- The loop of pn_next_power_of_two on a 64-bit size_t, which the shift cuts.
unfoldable pub next_power_loop : ℕ → ℕ → ℕ → Result ℕ
next_power_loop zero value ret = stuck
next_power_loop (suc fuel) value ret =
    let more = next_power_loop fuel value (ret * 2 % 2 ^ 64) in
    if ltb ret value then more else ok ret

-- From 1 on there are 64 powers of two in a size_t.
unfoldable pub next_power_of_two : ℕ → Result ℕ
unfolding next_power_loop
next_power_of_two value = next_power_loop 64 value 1

-- `value >> 1` keeps the unsigned type, its negation wraps, and the cast reads two's complement.
abbrev negated : ℕ → ℕ → ℤ
negated w value = signed w ((2 ^ w - value / 2) % 2 ^ w)

abbrev decode : ℕ → ℕ → ℤ
decode w value =
    if bit_and value 1 == 0
    then signed w (value / 2)
    else (if value == 1 then negsuc (2 ^ (w - 1) - 1) else negated w value)

unfoldable pub decode_sign_rotated_value : ℕ → ℤ
decode_sign_rotated_value value = decode 32 value

unfoldable pub decode_sign_rotated_value_int64 : ℕ → ℤ
decode_sign_rotated_value_int64 value = decode 64 value
