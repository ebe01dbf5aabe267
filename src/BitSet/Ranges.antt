-- ===== src/BitSet/Ranges.antt =====
-- A run of bits that are set one behind the other.
use pnacl_c.Base.{
  ℕ, zero, suc, ◌+◌, ◌*◌, ◌/◌, ◌≤◌, ◌<◌, ◌≡◌, refl, sym, ◌∙◌, Bool, true, false, if◌then◌else◌, ltb,
  leb, ◌&&◌, ◌==◌, arith, ok,
}
use pnacl_c.BitSet.{BitSet, num_words, set_range}
use pnacl_c.BitSet.Laws.{member, with_bit, set_bit-with_bit, num_words-with_bit, member-with_bit}

abbrev pub in_range : ℕ → ℕ → ℕ → Bool
in_range i first n = leb first i && ltb i (first + n)

pub record RangeSet (words : BitSet) (first n : ℕ) (flag : Bool) : Type 0 where
  pub set_words : BitSet
  pub set_ok : set_range words first n flag ≡ ok set_words
  pub same_size : num_words set_words ≡ num_words words
  pub members : (i : ℕ) → member set_words i ≡ (if in_range i first n then flag else member words i)

range_step :
    (i first n : ℕ) (flag old : Bool)
    → (if in_range i (first + 1) n then flag else (if i == first then flag else old))
      ≡ (if in_range i first (suc n) then flag else old)
range_step i first n true old = ground arith
range_step i first n false old = ground arith

empty_range : (i first : ℕ) {A : Type 0} (a b : A) → (if in_range i first 0 then a else b) ≡ b
empty_range i first a b = ground arith

no_more : (words : BitSet) (first : ℕ) (flag : Bool) → RangeSet words first 0 flag
unfolding set_range
no_more words first flag = record {
  set_words = words;
  set_ok = refl;
  same_size = refl;
  members = λ i. sym (empty_range i first flag (member words i));
}

-- One bit, and the rest of the range.
one_more :
    (words : BitSet) (first n : ℕ) (flag : Bool)
    → first / 32 < num_words words
    → RangeSet (with_bit words first flag) (first + 1) n flag
    → RangeSet words first (suc n) flag
unfolding set_range
one_more words first n flag h rest = record {
  set_words = rest.set_words;
  set_ok = rw (set_bit-with_bit words first flag h) rest.set_ok;
  same_size = rest.same_size ∙ num_words-with_bit words first flag;
  members = λ i.
      rw (rest.members i, member-with_bit words first i flag h)
        (range_step i first n flag (member words i));
}

-- Setting the bits of a range within the set's words changes exactly those.
pub set_range_lem :
    (words : BitSet) (first n : ℕ) (flag : Bool)
    → first + n ≤ 32 * num_words words
    → RangeSet words first n flag
set_range_lem words first zero flag h = no_more words first flag
set_range_lem words first (suc n) flag h = one_more words first n flag (omega arith) (
    set_range_lem (with_bit words first flag) (first + 1) n flag
      (omega (arith, num_words-with_bit words first flag)))

-- No bit is out of an empty range.
pub set_range_room :
    (words : BitSet) (first n : ℕ) (flag : Bool)
    → (1 ≤ n → first + n ≤ 32 * num_words words)
    → RangeSet words first n flag
set_range_room words first zero flag h = no_more words first flag
set_range_room words first (suc n) flag h = set_range_lem words first (suc n) flag (h (omega arith))
