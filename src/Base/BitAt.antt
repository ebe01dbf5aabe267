-- ===== src/Base/BitAt.antt =====
-- One bit of a word, and what `&`, `|`, `~` and shifts of 1 do to it.
use Prim.Native.Nat.{ℕ, zero, suc, ◌-◌, ◌*◌, ◌/◌, ◌%◌, ◌^◌, ◌≤◌, ◌<◌, bit_and, bit_or, min, max}
use mathlib.Core.Path.{◌≡◌, refl, ap}
use mathlib.Core.Logic.{◌≢◌}
use native.Mathlib.Omega.{arith}
use pnacl_c.Base.Bitwise.{bit_and_digit, bit_or_digit, bit_and-zero, two-pow_suc, two-pow_pos}

unfoldable pub bit_at : ℕ → ℕ → ℕ
bit_at zero x = x % 2
bit_at (suc k) x = bit_at k (x / 2)

pub bit_at-zero : (k : ℕ) → bit_at k 0 ≡ 0
unfolding bit_at
bit_at-zero zero = refl
bit_at-zero (suc k) = bit_at-zero k

pub bit_at_le : (k x : ℕ) → bit_at k x ≤ 1
unfolding bit_at
bit_at_le zero x = omega arith
bit_at_le (suc k) x = bit_at_le k (x / 2)

pub bit_at-bit_and : (k a b : ℕ) → bit_at k (bit_and a b) ≡ min (bit_at k a) (bit_at k b)
unfolding bit_at
bit_at-bit_and zero a b = omega (arith, bit_and_digit a b)
bit_at-bit_and (suc k) a b = rw halved (bit_at-bit_and k (a / 2) (b / 2))
  where
    halved : bit_and a b / 2 ≡ bit_and (a / 2) (b / 2)
    halved = omega (arith, bit_and_digit a b)

pub bit_at-bit_or : (k a b : ℕ) → bit_at k (bit_or a b) ≡ max (bit_at k a) (bit_at k b)
unfolding bit_at
bit_at-bit_or zero a b = omega (arith, bit_or_digit a b)
bit_at-bit_or (suc k) a b = rw halved (bit_at-bit_or k (a / 2) (b / 2))
  where
    halved : bit_or a b / 2 ≡ bit_or (a / 2) (b / 2)
    halved = omega (arith, bit_or_digit a b)

half_pow : (k : ℕ) → 2 ^ suc k / 2 ≡ 2 ^ k
half_pow k = omega (arith, two-pow_suc k)

pub bit_at-pow_self : (k : ℕ) → bit_at k (2 ^ k) ≡ 1
unfolding bit_at
bit_at-pow_self zero = refl
bit_at-pow_self (suc k) = rw (half_pow k) (bit_at-pow_self k)

pub bit_at-pow_ne : (k j : ℕ) → k ≢ j → bit_at k (2 ^ j) ≡ 0
unfolding bit_at
bit_at-pow_ne zero zero h = absurd (h refl)
bit_at-pow_ne zero (suc j) h = omega (arith, two-pow_suc j)
bit_at-pow_ne (suc k) zero h = bit_at-zero k
bit_at-pow_ne (suc k) (suc j) h = rw (half_pow j) (bit_at-pow_ne k j (λ e. h (ap suc e)))

-- ~x of a word of n bits.
pub bit_at-complement : (n k x : ℕ) → k < n → x < 2 ^ n → bit_at k (2 ^ n - 1 - x) ≡ 1 - bit_at k x
unfolding bit_at
bit_at-complement zero k x h w = absurd (omega arith)
bit_at-complement (suc n) zero x h w = omega (arith, two-pow_suc n)
bit_at-complement (suc n) (suc k) x h w =
    rw halved (bit_at-complement n k (x / 2) (omega arith) (omega (arith, two-pow_suc n)))
  where
    halved : (2 ^ suc n - 1 - x) / 2 ≡ 2 ^ n - 1 - x / 2
    halved = omega (arith, two-pow_suc n)

-- x & (1 << k).
pub bit_and-pow : (k x : ℕ) → bit_and x (2 ^ k) ≡ bit_at k x * 2 ^ k
unfolding bit_at
bit_and-pow zero x = omega (arith, bit_and_digit x 1, bit_and-zero (x / 2))
bit_and-pow (suc k) x = omega (
  arith,
  two-pow_suc k,
  bit_and_digit x (2 ^ suc k),
  ap (bit_and (x / 2)) (half_pow k),
  bit_and-pow k (x / 2),
  ap (λ (t : ℕ). bit_at k (x / 2) * t) (two-pow_suc k),
)

pub pow-lt : (n k : ℕ) → k < n → 2 ^ k < 2 ^ n
pow-lt zero k h = absurd (omega arith)
pow-lt (suc n) zero h = omega (arith, two-pow_suc n, two-pow_pos n)
pow-lt (suc n) (suc k) h = omega (arith, two-pow_suc n, two-pow_suc k, pow-lt n k (omega arith))
