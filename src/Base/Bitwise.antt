-- ===== src/Base/Bitwise.antt =====
-- The bit operations of C on unsigned words, as arithmetic. `x >> k` is `x / 2 ^ k` and `x << k` is
-- `x * 2 ^ k`, cut to the width where the source's type does.
use Prim.Native.Nat.{
  ℕ, zero, suc, ◌+◌, ◌-◌, ◌*◌, ◌/◌, ◌%◌, ◌^◌, ◌≤◌, ◌<◌, bit_and, bit_or, min, max,
}
use Prim.Native.Nat.{digits, bit_and-bitwise, bit_or-bitwise}
use mathlib.Core.Path.{◌≡◌, refl, ap}
use native.Mathlib.Nat.{pow-suc, one-le-pow, div-add-mod, div-div-eq-div-mul, zero-add, suc-add}
use native.Mathlib.Nat.{
  add-mul-div_left, div-eq_of_lt, mod-lt, add-mul-mod_self_left, mod-mod, div-lt_iff_lt-mul,
}
use native.Mathlib.Omega.{arith}

-- One equation for the lowest digit of `&` and `|`, from the recursion with fuel that they stand for.
digits_fuel :
    (z : ℕ → ℕ) (f : ℕ → ℕ → ℕ) (n m a b : ℕ) → a ≤ n → a ≤ m → digits z f n a b ≡ digits z f m a b
digits_fuel z f zero zero a b p q = refl
digits_fuel z f zero (suc m) zero b p q = refl
digits_fuel z f zero (suc m) (suc a) b p q = absurd (omega arith)
digits_fuel z f (suc n) zero zero b p q = refl
digits_fuel z f (suc n) zero (suc a) b p q = absurd (omega arith)
digits_fuel z f (suc n) (suc m) zero b p q = refl
digits_fuel z f (suc n) (suc m) (suc a) b p q =
    rw (digits_fuel z f n m (suc a / 2) (b / 2) (omega arith) (omega arith))

pub bit_and_digit : (a b : ℕ) → bit_and a b ≡ bit_and (a / 2) (b / 2) * 2 + min (a % 2) (b % 2)
bit_and_digit zero b = simp bit_and-bitwise (omega arith)
bit_and_digit (suc a) b = simp bit_and-bitwise (
    omega (
      arith,
      digits_fuel (λ y. 0) min a (suc a / 2) (suc a / 2) (b / 2) (omega arith) (omega arith),
    ))

pub bit_or_digit : (a b : ℕ) → bit_or a b ≡ bit_or (a / 2) (b / 2) * 2 + max (a % 2) (b % 2)
bit_or_digit zero b = simp bit_or-bitwise (omega arith)
bit_or_digit (suc a) b = simp bit_or-bitwise (
    omega (
      arith,
      digits_fuel (λ y. y) max a (suc a / 2) (suc a / 2) (b / 2) (omega arith) (omega arith),
    ))

-- Both by fuel for the halvings of the number.
bit_and-zero_below : (n a : ℕ) → a ≤ n → bit_and a 0 ≡ 0
bit_and-zero_below n zero h = refl
bit_and-zero_below zero (suc a) h = absurd (omega arith)
bit_and-zero_below (suc n) (suc a) h =
    omega (arith, bit_and_digit (suc a) 0, bit_and-zero_below n (suc a / 2) (omega arith))

zero-bit_or_below : (n b : ℕ) → b ≤ n → bit_or 0 b ≡ b
zero-bit_or_below n zero h = refl
zero-bit_or_below zero (suc b) h = absurd (omega arith)
zero-bit_or_below (suc n) (suc b) h =
    omega (arith, bit_or_digit 0 (suc b), zero-bit_or_below n (suc b / 2) (omega arith))

pub bit_and-zero : (a : ℕ) → bit_and a 0 ≡ 0
bit_and-zero a = bit_and-zero_below a a (omega arith)

-- x % 2p by the lowest digit.
mod_double : (x p : ℕ) → x % (2 * p) ≡ x % 2 + 2 * (x / 2 % p)
mod_double x p = omega (
  arith,
  div-add-mod x (2 * p),
  ap (λ (t : ℕ). p * t) (div-div-eq-div-mul x 2 p),
  div-add-mod (x / 2) p,
)

pub two-pow_suc : (k : ℕ) → 2 ^ suc k ≡ 2 * 2 ^ k
two-pow_suc k = omega (arith, pow-suc 2 k)

mod-pow_suc : (k x : ℕ) → x % 2 ^ suc k ≡ x % 2 + 2 * (x / 2 % 2 ^ k)
mod-pow_suc k x = rw (two-pow_suc k) (mod_double x (2 ^ k))

half_mask : (p : ℕ) → 1 ≤ p → ((2 * p - 1) / 2 ≡ p - 1) × ((2 * p - 1) % 2 ≡ 1)
half_mask p h = omega arith

-- x & (2^k - 1).
pub bit_and_mask : (k x : ℕ) → bit_and x (2 ^ k - 1) ≡ x % 2 ^ k
bit_and_mask zero x = omega (arith, bit_and-zero x)
bit_and_mask (suc k) x = omega (
  arith,
  two-pow_suc k,
  mod-pow_suc k x,
  half_mask (2 ^ k) (one-le-pow k 2 (omega arith)),
  bit_and_digit x (2 ^ suc k - 1),
  ap (λ (t : ℕ). bit_and (x / 2) (t / 2)) (ap (λ (t : ℕ). t - 1) (two-pow_suc k)),
  ap (bit_and (x / 2)) (half_mask (2 ^ k) (one-le-pow k 2 (omega arith))).0,
  bit_and_mask k (x / 2),
)

zero-bit_or : (b : ℕ) → bit_or 0 b ≡ b
zero-bit_or b = zero-bit_or_below b b (omega arith)

mul-two-pow_suc : (q k : ℕ) → q * 2 ^ suc k ≡ 2 * (q * 2 ^ k)
mul-two-pow_suc q k = omega (arith, ap (λ (t : ℕ). q * t) (two-pow_suc k))

-- r | (q << k), where r fits k bits.
pub bit_or_shifted : (k r q : ℕ) → r < 2 ^ k → bit_or r (q * 2 ^ k) ≡ r + q * 2 ^ k
bit_or_shifted zero r q h = ground (arith, zero-bit_or q)
bit_or_shifted (suc k) r q h = ground (
  arith,
  two-pow_suc k,
  bit_or_digit r (q * 2 ^ suc k),
  mul-two-pow_suc q k,
  bit_or_shifted k (r / 2) q (omega (arith, two-pow_suc k)),
)

pub two-pow_pos : (k : ℕ) → 1 ≤ 2 ^ k
two-pow_pos k = one-le-pow k 2 (omega arith)

pub two-pow-add : (m n : ℕ) → 2 ^ (m + n) ≡ 2 ^ m * 2 ^ n
two-pow-add zero n = rw zero-add (omega arith)
two-pow-add (suc m) n =
    rw suc-add (
      omega
        (arith, two-pow_suc (m + n), two-pow-add m n, ap (λ (t : ℕ). t * 2 ^ n) (two-pow_suc m)))

-- x % ab by the digit below a.
pub mod_mul : (x a b : ℕ) → x % (a * b) ≡ x % a + a * (x / a % b)
mod_mul x a b = omega (
  arith,
  div-add-mod x (a * b),
  div-add-mod x a,
  ap (λ (t : ℕ). a * (b * t)) (div-div-eq-div-mul x a b),
  ap (λ (t : ℕ). a * t) (div-add-mod (x / a) b),
)

-- The low m + n bits: the low m, and the n above.
pub mod-pow_add : (m n x : ℕ) → x % 2 ^ (m + n) ≡ x % 2 ^ m + 2 ^ m * (x / 2 ^ m % 2 ^ n)
mod-pow_add m n x = rw (two-pow-add m n) (mod_mul x (2 ^ m) (2 ^ n))

-- The word after its low `n` bits are taken, and a cut that is cut again.
pub div-mod_pow : (x n k : ℕ) → x / 2 ^ n % 2 ^ k ≡ x % 2 ^ (n + k) / 2 ^ n
div-mod_pow x n k =
    rw
      (
        mod-pow_add n k x,
        add-mul-div_left (x % 2 ^ n) (x / 2 ^ n % 2 ^ k) (two-pow_pos n),
        div-eq_of_lt (mod-lt x (two-pow_pos n)),
      )
      (omega arith)

pub mod-mod_pow : (x n k : ℕ) → x % 2 ^ (n + k) % 2 ^ n ≡ x % 2 ^ n
mod-mod_pow x n k =
    rw (mod-pow_add n k x, add-mul-mod_self_left (x % 2 ^ n) (2 ^ n) (x / 2 ^ n % 2 ^ k))
      (mod-mod x (2 ^ n))

pub div-pow-lt : (x n k : ℕ) → x < 2 ^ (n + k) → x / 2 ^ n < 2 ^ k
div-pow-lt x n k h = (div-lt_iff_lt-mul (two-pow_pos n)).1 (omega (arith, two-pow-add n k))
