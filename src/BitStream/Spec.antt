-- ===== src/BitStream/Spec.antt =====
-- What the bit cursor promises: the stream is a sequence of bits, lowest bit of a byte first.
use pnacl_c.Base.{ℕ, zero, suc, ◌+◌, ◌*◌, ◌/◌, ◌%◌, ◌^◌, ◌<◌, ◌≡◌, ap, arith}
use pnacl_c.Base.Bitwise.{two-pow_suc, two-pow_pos}
use native.Mathlib.Nat.{add-mul-div_left, add-mul-mod_self_left, mod-eq_of_lt}
use native.Mathlib.Nat.{div-eq_of_lt, add-zero, zero-add, suc-add}

-- Bit `i` of the stream.
abbrev pub bit : (ℕ → ℕ) → ℕ → ℕ
bit bytes i = bytes (i / 8) / 2 ^ (i % 8) % 2

-- The number that the `n` bits from bit `i` on stand for.
unfoldable pub bits_at : (ℕ → ℕ) → ℕ → ℕ → ℕ
bits_at bytes i zero = 0
bits_at bytes i (suc n) = bit bytes i + 2 * bits_at bytes (i + 1) n

module _ (bytes : ℕ → ℕ) where
  pub bits_at-lt : (n i : ℕ) → bits_at bytes i n < 2 ^ n
  unfolding bits_at
  bits_at-lt zero i = omega arith
  bits_at-lt (suc n) i = omega (arith, two-pow_suc n, bits_at-lt n (i + 1))

  pub bits_at-add :
      (m n i : ℕ) → bits_at bytes i (m + n) ≡ bits_at bytes i m + 2 ^ m * bits_at bytes (i + m) n
  unfolding bits_at
  bits_at-add zero n i = simp (zero-add, add-zero) (omega arith)
  bits_at-add (suc m) n i = rw suc-add (
      omega (
        arith,
        bits_at-add m n (i + 1),
        ap (λ (t : ℕ). t * bits_at bytes (i + suc m) n) (two-pow_suc m),
        ap (λ (t : ℕ). 2 ^ m * bits_at bytes t n) (shift_one m i),
      ))
    where
      shift_one : (m i : ℕ) → i + 1 + m ≡ i + suc m
      shift_one m i = omega arith

  -- The low bits of a longer read, and the others.
  pub bits_at-mod : (m n i : ℕ) → bits_at bytes i (m + n) % 2 ^ m ≡ bits_at bytes i m
  bits_at-mod m n i =
      rw
        (
          bits_at-add m n i,
          add-mul-mod_self_left (bits_at bytes i m) (2 ^ m) (bits_at bytes (i + m) n),
        )
        (mod-eq_of_lt (bits_at-lt m i))

  pub bits_at-div : (m n i : ℕ) → bits_at bytes i (m + n) / 2 ^ m ≡ bits_at bytes (i + m) n
  bits_at-div m n i =
      rw
        (
          bits_at-add m n i,
          add-mul-div_left (bits_at bytes i m) (bits_at bytes (i + m) n) (two-pow_pos m),
          div-eq_of_lt (bits_at-lt m i),
        )
        (zero-add _)

byte_digits :
    (b : ℕ)
    → b % 256
      ≡ b % 2
        + 2
          * (b / 2 % 2
              + 2
                * (b / 4 % 2
                    + 2
                      * (b / 8 % 2
                          + 2
                            * (b / 16 % 2
                                + 2 * (b / 32 % 2 + 2 * (b / 64 % 2 + 2 * (b / 128 % 2)))))))
byte_digits b = omega arith

bit_of_byte :
    (bytes : ℕ → ℕ) (o j i : ℕ) → j < 8 → i ≡ 8 * o + j → bit bytes i ≡ bytes o / 2 ^ j % 2
bit_of_byte bytes o j i h e = rw (at_byte, at_bit)
  where
    at_byte : i / 8 ≡ o
    at_byte = omega arith

    at_bit : i % 8 ≡ j
    at_bit = omega arith

pub bits_at_byte : (bytes : ℕ → ℕ) (o : ℕ) → bits_at bytes (8 * o) 8 ≡ bytes o % 256
unfolding bits_at
bits_at_byte bytes o = omega (
  arith,
  byte_digits (bytes o),
  bit_of_byte bytes o 0 (8 * o) (omega arith) (omega arith),
  bit_of_byte bytes o 1 (8 * o + 1) (omega arith) (omega arith),
  bit_of_byte bytes o 2 (8 * o + 1 + 1) (omega arith) (omega arith),
  bit_of_byte bytes o 3 (8 * o + 1 + 1 + 1) (omega arith) (omega arith),
  bit_of_byte bytes o 4 (8 * o + 1 + 1 + 1 + 1) (omega arith) (omega arith),
  bit_of_byte bytes o 5 (8 * o + 1 + 1 + 1 + 1 + 1) (omega arith) (omega arith),
  bit_of_byte bytes o 6 (8 * o + 1 + 1 + 1 + 1 + 1 + 1) (omega arith) (omega arith),
  bit_of_byte bytes o 7 (8 * o + 1 + 1 + 1 + 1 + 1 + 1 + 1) (omega arith) (omega arith),
)

module _ (bytes : ℕ → ℕ) (o : ℕ) where
  -- A little-endian word is the 32 bits from its first byte on.
  pub bits_at_word :
      bits_at bytes (8 * o) 32
      ≡ bytes o % 256
        + 256 * (bytes (o + 1) % 256)
        + 65536 * (bytes (o + 2) % 256)
        + 16777216 * (bytes (o + 3) % 256)
  bits_at_word = omega (
    arith,
    bits_at-add bytes 8 24 (8 * o),
    bits_at-add bytes 8 16 (8 * o + 8),
    bits_at-add bytes 8 8 (8 * o + 8 + 8),
    bits_at_byte bytes o,
    byte_at 1 (8 * o + 8) (omega arith),
    byte_at 2 (8 * o + 8 + 8) (omega arith),
    byte_at 3 (8 * o + 8 + 8 + 8) (omega arith),
  )
    where
      byte_at : (j i : ℕ) → i ≡ 8 * (o + j) → bits_at bytes i 8 ≡ bytes (o + j) % 256
      byte_at j i e = rw e (bits_at_byte bytes (o + j))
