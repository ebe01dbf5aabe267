-- ===== src/BitSet/Laws.antt =====
-- A bit set as a set: what each operation does to the membership of every number.
use pnacl_c.Base.{
  ℕ, zero, suc, ◌-◌, ◌*◌, ◌/◌, ◌%◌, ◌^◌, ◌≤◌, ◌<◌, bit_and, bit_or, ◌≡◌, refl, ap, ◌≢◌, sym, inl,
  inr, Bool, true, false, not, if◌then◌else◌, lt→ltb, ◌==◌, ==_iff, ==_ne, Bool-cases, arith,
  get_or, set, length-set, get_or-set_self, get_or-set_ne, get_or-replicate, ok, ◌>>=◌,
}
use pnacl_c.Base.Bitwise.{two-pow_pos}
use pnacl_c.Base.BitAt.{
  bit_at, bit_at_le, bit_at-zero, bit_at-bit_and, bit_at-bit_or, bit_at-pow_self, bit_at-pow_ne,
  bit_at-complement, bit_and-pow, pow-lt,
}
use pnacl_c.BitSet.{BitSet, num_words, init, clear, mask, set_bit, is_set}

-- The set without the words: the bit of a number that the words have room for.
unfoldable pub member : BitSet → ℕ → Bool
member words bit = bit_at (bit % 32) (get_or words (bit / 32) 0) == 1

masked_zero : (b p : ℕ) → b ≤ 1 → 1 ≤ p → not (b * p == 0) ≡ (b == 1)
masked_zero zero p h k = ground arith
masked_zero (suc zero) p h k = ground arith
masked_zero (suc (suc b)) p h k = absurd (omega arith)

pub is_set-member :
    (words : BitSet) (bit : ℕ)
    → bit / 32 < num_words words
    → is_set words bit ≡ ok (member words bit)
unfolding is_set member
is_set-member words bit h =
    rw (lt→ltb (bit / 32) (num_words words) h, bit_and-pow (bit % 32) (get_or words (bit / 32) 0))
      (ap ok (masked_zero _ (mask bit) (bit_at_le (bit % 32) _) (two-pow_pos (bit % 32))))

-- The new word, at each of its bits.
new_word : ℕ → ℕ → Bool → ℕ
new_word word k flag = if flag then bit_or word (2 ^ k) else bit_and word (2 ^ 32 - 1 - 2 ^ k)

new_word_self : (word k : ℕ) (flag : Bool) → k < 32 → (bit_at k (new_word word k flag) == 1) ≡ flag
unfolding new_word
new_word_self word k true h =
    rw (bit_at-bit_or k word (2 ^ k), bit_at-pow_self k) (ground (arith, bit_at_le k word))
new_word_self word k false h =
    rw
      (
        bit_at-bit_and k word (2 ^ 32 - 1 - 2 ^ k),
        bit_at-complement 32 k (2 ^ k) h (pow-lt 32 k h),
        bit_at-pow_self k,
      )
      (ground (arith, bit_at_le k word))

new_word_ne :
    (word k j : ℕ) (flag : Bool)
    → j < 32
    → k < 32
    → j ≢ k
    → bit_at j (new_word word k flag) ≡ bit_at j word
unfolding new_word
new_word_ne word k j true h i ne =
    rw (bit_at-bit_or j word (2 ^ k), bit_at-pow_ne j k ne) (omega arith)
new_word_ne word k j false h i ne =
    rw
      (
        bit_at-bit_and j word (2 ^ 32 - 1 - 2 ^ k),
        bit_at-complement 32 j (2 ^ k) h (pow-lt 32 k i),
        bit_at-pow_ne j k ne,
      )
      (omega (arith, bit_at_le j word))

-- The words behind a set of the bit.
unfoldable pub with_bit : BitSet → ℕ → Bool → BitSet
unfolding new_word
with_bit words bit flag =
    set words (bit / 32) (new_word (get_or words (bit / 32) 0) (bit % 32) flag)

pub set_bit-with_bit :
    (words : BitSet) (bit : ℕ) (flag : Bool)
    → bit / 32 < num_words words
    → set_bit words bit flag ≡ ok (with_bit words bit flag)
unfolding set_bit with_bit new_word
set_bit-with_bit words bit true h = rw (lt→ltb (bit / 32) (num_words words) h) refl
set_bit-with_bit words bit false h = rw (lt→ltb (bit / 32) (num_words words) h) refl

pub num_words-with_bit :
    (words : BitSet) (bit : ℕ) (flag : Bool) → num_words (with_bit words bit flag) ≡ num_words words
unfolding with_bit
num_words-with_bit words bit flag = length-set words _ _

member_self :
    (words : BitSet) (bit : ℕ) (flag : Bool)
    → bit / 32 < num_words words
    → member (with_bit words bit flag) bit ≡ flag
unfolding member with_bit
member_self words bit flag h =
    rw (get_or-set_self words (bit / 32) (new_word (get_or words (bit / 32) 0) (bit % 32) flag) 0 h)
      (new_word_self _ (bit % 32) flag (omega arith))

member_ne :
    (words : BitSet) (bit other : ℕ) (flag : Bool)
    → bit / 32 < num_words words
    → other ≢ bit
    → member (with_bit words bit flag) other ≡ member words other
unfolding member with_bit
member_ne words bit other flag h ne = elim (Bool-cases ((other / 32) == (bit / 32))) [
  | inl same ↦
      rw
        (
          (==_iff (other / 32) (bit / 32)).0 same,
          get_or-set_self words (bit / 32) (new_word (get_or words (bit / 32) 0) (bit % 32) flag) 0
              h,
        )
        (ap (λ (b : ℕ). b == 1)
          (new_word_ne _ (bit % 32) (other % 32) flag (omega arith) (omega arith)
            (λ e. ne (omega (arith, e, (==_iff (other / 32) (bit / 32)).0 same)))))
  | inr apart ↦
      rw
        (get_or-set_ne words (bit / 32) (other / 32)
          (new_word (get_or words (bit / 32) 0) (bit % 32) flag) 0
          (λ e. ==_ne (other / 32) (bit / 32) apart (sym e)))
        refl
]

-- A set changes the membership of its own number alone.
pub member-with_bit :
    (words : BitSet) (bit other : ℕ) (flag : Bool)
    → bit / 32 < num_words words
    → member (with_bit words bit flag) other ≡ (if other == bit then flag else member words other)
member-with_bit words bit other flag h = elim (Bool-cases (other == bit)) [
  | inl same ↦ rw same (rw ((==_iff other bit).0 same) (member_self words bit flag h))
  | inr apart ↦ rw apart (member_ne words bit other flag h (==_ne other bit apart))
]

pub member-init : (size bit : ℕ) → member (init size) bit ≡ false
unfolding member init
member-init size bit = rw (get_or-replicate {A = ℕ} _ (bit / 32) 0, bit_at-zero (bit % 32)) refl

pub member-clear : (words : BitSet) (bit : ℕ) → member (clear words) bit ≡ false
unfolding member clear
member-clear words bit = rw (get_or-replicate {A = ℕ} _ (bit / 32) 0, bit_at-zero (bit % 32)) refl

-- On a set with room for both numbers, a look at a number behind a set of a bit gives what was set,
-- if it is the number of the bit, and what a look gave before, if it is another.
pub is_set-set_bit :
    (words : BitSet) (bit other : ℕ) (flag : Bool)
    → bit < 32 * num_words words
    → other < 32 * num_words words
    → (set_bit words bit flag >>= λ words'. is_set words' other)
      ≡ (if other == bit then ok flag else is_set words other)
is_set-set_bit words bit other flag h k =
    rw
      (
        set_bit-with_bit words bit flag (omega arith),
        is_set-member (with_bit words bit flag) other
            (omega (arith, num_words-with_bit words bit flag)),
        is_set-member words other (omega arith),
        member-with_bit words bit other flag (omega arith),
      )
      (choice (other == bit))
  where
    choice :
        (b : Bool)
        → ok (if b then flag else member words other)
          ≡ (if b then ok flag else ok (member words other))
    choice true = refl
    choice false = refl
