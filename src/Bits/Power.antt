-- ===== src/Bits/Power.antt =====
-- The least power of two that is not below a size.
use pnacl_c.Base.{ℕ, zero, suc, ◌+◌, ◌*◌, ◌%◌, ◌^◌, ◌≤◌, ◌<◌, ◌≡◌, ◌⊎◌, inl, inr, refl, arith}
use pnacl_c.Base.{ltb, ltb→lt, Bool-cases, ok}
use pnacl_c.Base.Bitwise.{two-pow_suc}
use pnacl_c.Bits.{next_power_loop, next_power_of_two}
use native.Mathlib.Nat.{pow-le-pow_right, mod-eq_of_lt}

module _ (value : ℕ) (small : value ≤ 2 ^ 63) where
  below : (k : ℕ) → 2 ^ k < value → k < 63
  below k h = elim (Bool-cases (ltb k 63)) [
    | inl e ↦ ltb→lt k 63 e
    | inr e ↦
        absurd
          (omega (arith, pow-le-pow_right {n = 2} (omega arith) {i = 63} {j = k} (ground arith)))
  ]

  doubled : (k : ℕ) → k < 63 → 2 ^ k * 2 % 2 ^ 64 ≡ 2 ^ suc k
  doubled k h = omega (
    arith,
    two-pow_suc k,
    pow-le-pow_right {n = 2} (omega arith) {i = suc k} {j = 63} (omega arith),
    mod-eq_of_lt {n = 2 ^ k * 2} {m = 2 ^ 64},
  )

  next_power_loop-power :
      (fuel k : ℕ)
      → 64 ≤ fuel + k
      → k < 64
      → (k ≡ 0) ⊎ (2 ^ k < 2 * value)
      → (n : ℕ) × (next_power_loop fuel value (2 ^ k) ≡ ok (2 ^ n))
        × (value ≤ 2 ^ n)
        × ((n ≡ 0) ⊎ (2 ^ n < 2 * value))
  unfolding next_power_loop
  next_power_loop-power zero k enough lim before = absurd (omega arith)
  next_power_loop-power (suc fuel) k enough lim before = elim (Bool-cases (ltb (2 ^ k) value)) [
    | inl e ↦
        rw (e, next_power_loop, doubled k (below k (ltb→lt (2 ^ k) value e)))
          (next_power_loop-power fuel (suc k) (omega arith)
            (omega (arith, below k (ltb→lt (2 ^ k) value e)))
            (inr (omega (arith, two-pow_suc k, ltb→lt (2 ^ k) value e))))
    | inr e ↦ (k, rw (next_power_loop, e), ground arith, before)
  ]

-- For a size of at most 2^63, pn_next_power_of_two returns, within 64 rounds, the least power of two
-- that is not below it: that power is 1, or less than twice the size.
pub next_power_of_two-power :
    (value : ℕ)
    → value ≤ 2 ^ 63
    → (n : ℕ) × (next_power_of_two value ≡ ok (2 ^ n))
      × (value ≤ 2 ^ n)
      × ((n ≡ 0) ⊎ (2 ^ n < 2 * value))
unfolding next_power_of_two
next_power_of_two-power value small =
    next_power_loop-power value small 64 0 (omega arith) (omega arith) (inl refl)
