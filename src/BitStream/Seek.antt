-- ===== src/BitStream/Seek.antt =====
-- Moving the bit cursor: `pn_bitstream_seek_bit`, and what goes through it.
use pnacl_c.Base.{ℕ, ◌+◌, ◌-◌, ◌*◌, ◌/◌, ◌%◌, ◌^◌, ◌≤◌, ◌≡◌, ◌∙◌, arith}
use pnacl_c.Base.{inl, inr, Bool-cases, ◌==◌, bit_and}
use pnacl_c.Base.{Result, ok}
use pnacl_c.Base.Bitwise.{bit_and_mask}
use pnacl_c.BitStream.{BitStream, read_frac_bits, fill_curword, seek_bit, skip_bytes, align_32}
use pnacl_c.BitStream.Word.{IsValid, Reads, Fills, fill_curword-Fills, read_frac_bits-Reads}

-- A valid cursor over the same stream at bit `i`.
pub record Seeks (bs : BitStream) (i : ℕ) (result : Result BitStream) : Type 0 where
  pub after : BitStream
  pub returns : result ≡ ok after
  pub valid : IsValid after
  pub same_bytes : after.bytes ≡ bs.bytes
  pub same_len : after.data_len ≡ bs.data_len
  pub at : after.bit_offset ≡ i

low_five : (i : ℕ) → bit_and i 31 ≡ i % 32
low_five i = bit_and_mask 5 i

module _ (bs : BitStream) (i : ℕ) (v : IsValid bs) (inside : i ≤ 8 * bs.data_len) where
  aligned : BitStream
  aligned = record bs { bit_offset = i / 32 * 32 }

  filled : Fills aligned (fill_curword aligned)
  unfolding aligned
  filled =
      fill_curword-Fills aligned (i / 32 * 4) (omega arith) v.small v.word (omega (arith, inside))

  rest : Reads filled.after (i % 32) (read_frac_bits filled.after (i % 32))
  unfolding aligned
  rest =
      read_frac_bits-Reads filled.after (i % 32) (filled.after.curword_bits - i % 32) filled.valid
        (omega (arith, filled.most, filled.same_offset, inside))

  -- On a valid cursor, seeking to a bit within the stream (its end included) gives a valid cursor
  -- over the same stream at exactly that bit.
  pub seek_bit-Seeks : Seeks bs i (seek_bit bs i)
  unfolding seek_bit aligned
  seek_bit-Seeks = elim (Bool-cases (i % 32 == 0)) [
    | inl h ↦ record {
      after = filled.after;
      returns = rw (filled.returns, low_five i, h);
      valid = filled.valid;
      same_bytes = filled.same_bytes;
      same_len = filled.same_len;
      at = filled.same_offset ∙ ground arith;
    }
    | inr h ↦ record {
      after = rest.after;
      returns = rw (filled.returns, low_five i, h, rest.returns);
      valid = rest.valid;
      same_bytes = rest.same_bytes ∙ filled.same_bytes;
      same_len = rest.same_len ∙ filled.same_len;
      at = omega (arith, rest.moved, filled.same_offset);
    }
  ]

-- On a valid cursor, skipping bytes within the stream gives a valid cursor over the same stream,
-- that many bytes further on.
pub skip_bytes-Seeks :
    (bs : BitStream) (n : ℕ)
    → IsValid bs
    → bs.bit_offset + n * 8 ≤ 8 * bs.data_len
    → Seeks bs (bs.bit_offset + n * 8) (skip_bytes bs n)
unfolding skip_bytes
skip_bytes-Seeks bs n v h = rw no_wrap (seek_bit-Seeks bs (bs.bit_offset + n * 8) v h)
  where
    no_wrap : (bs.bit_offset + n * 8) % 2 ^ 32 ≡ bs.bit_offset + n * 8
    no_wrap = omega (arith, v.small)

-- On a valid cursor, aligning gives a valid cursor over the same stream at the next multiple of 32
-- bits (its own bit if that is one), where this is within the stream.
pub align_32-Seeks :
    (bs : BitStream)
    → IsValid bs
    → (bs.bit_offset + 31) / 32 * 32 ≤ 8 * bs.data_len
    → Seeks bs ((bs.bit_offset + 31) / 32 * 32) (align_32 bs)
unfolding align_32
align_32-Seeks bs v h = rw no_wrap (seek_bit-Seeks bs ((bs.bit_offset + 31) / 32 * 32) v h)
  where
    no_wrap : (bs.bit_offset + 31) / 32 * 32 % 2 ^ 32 ≡ (bs.bit_offset + 31) / 32 * 32
    no_wrap = omega (arith, v.small)
