-- ===== src/BitStream/Read.antt =====
-- `pn_bitstream_read` against the bit sequence: the buffered word is refilled when it is used up.
use pnacl_c.Base.{ℕ, ◌+◌, ◌-◌, ◌*◌, ◌/◌, ◌%◌, ◌^◌, ◌≤◌, ◌<◌, ◌≡◌, sym, ap, ◌∙◌, arith}
use pnacl_c.Base.{◌⊎◌, inl, inr, leb, Bool-cases, tests, le→leb, lt→leb, leb→lt, bit_or}
use pnacl_c.Base.{fatal}
use pnacl_c.Base.Bitwise.{bit_or_shifted, two-pow_pos, two-pow-add}
use pnacl_c.BitStream.{BitStream, read_frac_bits, fill_curword, read_rest, read}
use pnacl_c.BitStream.Spec.{bits_at, bits_at-lt, bits_at-add}
use pnacl_c.BitStream.Word.{IsValid, Reads, Fills, fill_curword-Fills, read_frac_bits-Reads}
use native.Mathlib.Nat.{mod-eq_of_lt, pow-le-pow_right}

product-lt : (u p q : ℕ) → u < p → 1 ≤ q → u * q < p * q
product-lt u p q h k = grind arith

module _ (bs : BitStream) (n : ℕ) (v : IsValid bs) (cross : bs.curword_bits < n) (le : n ≤ 32) where
  -- The cursor at the end of the buffered word.
  advanced : BitStream
  advanced = record bs { bit_offset = (bs.bit_offset + bs.curword_bits) % 2 ^ 32 }

  no_wrap : (bs.bit_offset + bs.curword_bits) % 2 ^ 32 ≡ bs.bit_offset + bs.curword_bits
  no_wrap = mod-eq_of_lt (omega (arith, v.within, v.small))

  refilled : Fills advanced (fill_curword advanced)
  unfolding advanced
  refilled =
      fill_curword-Fills advanced ((bs.bit_offset + bs.curword_bits) / 8)
        (omega (arith, v.whole, no_wrap)) v.small v.word (omega (arith, v.within, v.whole))

  module _ (inside : bs.bit_offset + n ≤ 8 * bs.data_len) where
    enough : n - bs.curword_bits ≤ refilled.after.curword_bits
    unfolding advanced
    enough = omega (arith, refilled.most, refilled.same_offset, no_wrap)

    more :
        Reads refilled.after
          (n - bs.curword_bits)
          (read_frac_bits refilled.after (n - bs.curword_bits))
    more =
        read_frac_bits-Reads refilled.after (n - bs.curword_bits)
          (refilled.after.curword_bits - (n - bs.curword_bits)) refilled.valid
          (omega (arith, enough))

    upper : ℕ
    upper = bits_at bs.bytes (bs.bit_offset + bs.curword_bits) (n - bs.curword_bits)

    upper_fits : upper * 2 ^ bs.curword_bits < 2 ^ 32
    unfolding upper
    upper_fits = omega (
      arith,
      product-lt upper (2 ^ (n - bs.curword_bits)) (2 ^ bs.curword_bits)
          (bits_at-lt bs.bytes (n - bs.curword_bits) (bs.bit_offset + bs.curword_bits))
          (two-pow_pos bs.curword_bits),
      two-pow-add (n - bs.curword_bits) bs.curword_bits,
      pow-le-pow_right {n = 2} (omega arith) {i = n - bs.curword_bits + bs.curword_bits} {j = 32}
          (omega arith),
    )

    buffer_clean : bs.curword ≡ bits_at bs.bytes bs.bit_offset bs.curword_bits
    buffer_clean = clean_of v.clean
      where
        clean_of :
            (bs.curword < 2 ^ bs.curword_bits) ⊎ (bs.bit_offset + bs.curword_bits ≡ 8 * bs.data_len)
            → bs.curword ≡ bits_at bs.bytes bs.bit_offset bs.curword_bits
        clean_of (inl h) = sym (mod-eq_of_lt h) ∙ v.buffered
        clean_of (inr h) = absurd (omega arith)

    joined :
        bit_or bs.curword (upper * 2 ^ bs.curword_bits % 2 ^ 32) ≡ bits_at bs.bytes bs.bit_offset n
    unfolding upper
    joined =
        rw (mod-eq_of_lt upper_fits, bit_or_shifted bs.curword_bits bs.curword upper buffer_low)
          (omega (
            arith,
            buffer_clean,
            bits_at-add bs.bytes bs.curword_bits (n - bs.curword_bits) bs.bit_offset,
            ap (bits_at bs.bytes bs.bit_offset) split,
          ))
      where
        split : bs.curword_bits + (n - bs.curword_bits) ≡ n
        split = omega arith

        buffer_low : bs.curword < 2 ^ bs.curword_bits
        buffer_low = rw buffer_clean (bits_at-lt bs.bytes bs.curword_bits bs.bit_offset)

    read_rest-Reads : Reads bs n (read_rest bs bs.curword bs.curword_bits (n - bs.curword_bits))
    unfolding advanced read_rest upper
    read_rest-Reads = record {
      after = more.after;
      returns = rw (
        refilled.returns,
        le→leb (n - bs.curword_bits) refilled.after.curword_bits enough,
        more.returns,
        refilled.same_bytes,
        refilled.same_offset,
        no_wrap,
        joined,
      );
      valid = more.valid;
      same_bytes = more.same_bytes ∙ refilled.same_bytes;
      same_len = more.same_len ∙ refilled.same_len;
      moved = omega (arith, more.moved, refilled.same_offset, no_wrap);
    }
    -- The refill has fewer bits than are missing, and PN_CHECK ends the program.

  read_rest_past :
      8 * bs.data_len < bs.bit_offset + n
      → read_rest bs bs.curword bs.curword_bits (n - bs.curword_bits) ≡ fatal
  unfolding advanced read_rest
  read_rest_past over =
      rw (refilled.returns, lt→leb (n - bs.curword_bits) refilled.after.curword_bits short)
    where
      short : refilled.after.curword_bits < n - bs.curword_bits
      short = omega (arith, refilled.valid.within, refilled.same_len, refilled.same_offset, no_wrap)

-- On a valid cursor, `pn_bitstream_read` of `n` bits, at most 32 and within the stream, returns
-- the next `n` bits of the stream as a number and leaves a valid cursor right behind them.
pub read-Reads :
    (bs : BitStream) (n : ℕ)
    → IsValid bs
    → n ≤ 32
    → bs.bit_offset + n ≤ 8 * bs.data_len
    → Reads bs n (read bs n)
unfolding read
read-Reads bs n v le inside = elim (Bool-cases (leb n bs.curword_bits)) [
  | inl h ↦ rw (le→leb n 32 le, h) (read_frac_bits-Reads bs n (bs.curword_bits - n) v (omega tests))
  | inr h ↦ rw (le→leb n 32 le, h) (read_rest-Reads bs n v (leb→lt n bs.curword_bits h) le inside)
]

-- On a valid cursor, a read of at most 32 bits that goes past the end of the stream ends the program
-- by a failed PN_CHECK: it never returns what lies behind the data.
pub read_past_end :
    (bs : BitStream) (n : ℕ)
    → IsValid bs
    → n ≤ 32
    → 8 * bs.data_len < bs.bit_offset + n
    → read bs n ≡ fatal
unfolding read
read_past_end bs n v le over =
    rw (le→leb n 32 le, lt→leb n bs.curword_bits cross) (read_rest_past bs n v cross le over)
  where
    cross : bs.curword_bits < n
    cross = omega (arith, v.within)
