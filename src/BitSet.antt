-- ===== src/BitSet.antt =====
-- src/pn_bitset.h: sets of small numbers as words of 32 bits.
pub mod Laws
pub mod Ranges
mod Tests
use pnacl_c.Base.{
  ℕ, zero, suc, ◌+◌, ◌-◌, ◌*◌, ◌/◌, ◌%◌, ◌^◌, bit_and, bit_or, Bool, true, false, not,
  if◌then◌else◌, ltb, ◌==◌, List, [], ◌∷◌, length, ◌+◌, get_or, set, replicate, Result, ok, ◌>>=◌,
  ◌>>◌, assert,
}

-- PNBitSet; `num_words` is the number of its words.
abbrev pub BitSet : Type 0
BitSet = List ℕ

abbrev pub num_words : BitSet → ℕ
num_words words = length words

abbrev pub num_words_of : ℕ → ℕ
num_words_of size = (size + 31) / 32

-- For a size that is not negative, with the memory that the allocator gives.
unfoldable pub init : ℕ → BitSet
init size = replicate (num_words_of size) 0

unfoldable pub clear : BitSet → BitSet
clear words = replicate (num_words words) 0

abbrev pub mask : ℕ → ℕ
mask bit = 2 ^ (bit % 32)

-- `~mask` of a uint32_t.
unfoldable pub set_bit : BitSet → ℕ → Bool → Result BitSet
set_bit words bit flag = do
  assert (ltb (bit / 32) (num_words words))
  if flag
      then ok (set words (bit / 32) (bit_or (get_or words (bit / 32) 0) (mask bit)))
      else ok (set words (bit / 32) (bit_and (get_or words (bit / 32) 0) (2 ^ 32 - 1 - mask bit)))

unfoldable pub is_set : BitSet → ℕ → Result Bool
is_set words bit = do
  assert (ltb (bit / 32) (num_words words))
  ok (not (bit_and (get_or words (bit / 32) 0) (mask bit) == 0))

-- for (i = first; i < first + n; ++i) pn_bitset_set(bitset, i, flag).
unfoldable pub set_range : BitSet → ℕ → ℕ → Bool → Result BitSet
unfolding set_bit
set_range words first zero flag = ok words
set_range words first (suc n) flag = do
  words' ← set_bit words first flag
  set_range words' (first + 1) n flag

-- `popcount` is the compiler's __builtin_popcount.
unfoldable pub num_bits_set : (ℕ → ℕ) → BitSet → ℕ
num_bits_set popcount [] = 0
num_bits_set popcount (word ∷ words) = (popcount word + num_bits_set popcount words) % 2 ^ 32
