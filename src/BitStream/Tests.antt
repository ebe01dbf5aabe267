-- ===== src/BitStream/Tests.antt =====
-- Runs of the bit cursor on the stream 1, 2, 3, ...
use pnacl_c.Base.{ℕ, ◌+◌, ◌≡◌, refl, arith, inl, false}
use pnacl_c.Base.{Result, ok, fatal, ◌>>=◌}
use pnacl_c.BitStream.{
  BitStream, init, read, read_vbr6, read_vbr, read_vbr_uint64, vbr_loop, at_end, seek_bit,
}
use pnacl_c.BitStream.{
  load_u32, narrow, skip_bytes, align_32, read_frac_bits, fill_curword, read_rest,
}
use pnacl_c.BitStream.Spec.{bits_at}
use pnacl_c.BitStream.Word.{IsValid, Reads}
use pnacl_c.BitStream.Read.{read-Reads, read_past_end}
use pnacl_c.BitStream.Seek.{Seeks, seek_bit-Seeks, skip_bytes-Seeks, align_32-Seeks}

abbrev counting : ℕ → ℕ
counting i = i + 1

-- The byte 4 is left in the buffer.
abbrev at_24 : BitStream
at_24 = record { bytes = counting; data_len = 6; curword = 4; curword_bits = 8; bit_offset = 24 }

at_24-IsValid : IsValid at_24
unfolding bits_at
at_24-IsValid = record {
  small = omega arith;
  few = omega arith;
  word = omega arith;
  within = omega arith;
  whole = refl;
  buffered = refl;
  clean = inl (omega arith);
}

-- Two bytes and a half, over the end of a word.
read-Reads_example : Reads at_24 20 (read at_24 20)
read-Reads_example = read-Reads at_24 20 at_24-IsValid (omega arith) (omega arith)

read_past_end_example : read at_24 30 ≡ fatal
read_past_end_example = read_past_end at_24 30 at_24-IsValid (omega arith) (omega arith)

seek_bit-Seeks_example : Seeks at_24 37 (seek_bit at_24 37)
seek_bit-Seeks_example = seek_bit-Seeks at_24 37 at_24-IsValid (omega arith)

skip_bytes-Seeks_test : Seeks at_24 40 (skip_bytes at_24 2)
skip_bytes-Seeks_test = skip_bytes-Seeks at_24 2 at_24-IsValid (omega arith)

align_32-Seeks_test : Seeks at_24 32 (align_32 at_24)
align_32-Seeks_test = align_32-Seeks at_24 at_24-IsValid (omega arith)

value : Result (ℕ × BitStream) → Result ℕ
value r = r >>= λ p. ok p.0

-- The bytes 4, 5 and half of 6.
read_test : value (read at_24 20) ≡ ok 0x60504
unfolding value read read_frac_bits fill_curword load_u32
read_test = refl

-- 0x39 and 4 in pieces of four bits, 9, 3: the low bits 1 and, three places up, 3.
abbrev vbr_stream : BitStream
unfolding init
vbr_stream = init (λ i. 0x39) 5

vbr_test : value (read_vbr vbr_stream 4) ≡ ok 25
unfolding value read_vbr read read_frac_bits fill_curword load_u32 vbr_loop narrow read_rest
    vbr_stream
vbr_test = refl

vbr_uint64_test : value (read_vbr_uint64 vbr_stream 4) ≡ ok 25
unfolding value read_vbr_uint64 read read_frac_bits fill_curword load_u32 vbr_loop read_rest
    vbr_stream
vbr_uint64_test = refl

vbr6_test : value (read_vbr6 vbr_stream) ≡ ok 19609
unfolding value read_vbr6 read read_frac_bits fill_curword load_u32 vbr_loop narrow read_rest
    vbr_stream
vbr6_test = refl

at_end_test : at_end at_24 ≡ false
unfolding at_end
at_end_test = refl
