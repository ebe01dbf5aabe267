-- ===== src/Record/Tests.antt =====
-- Runs of the record reader.
use pnacl_c.Base.{ℕ, ◌+◌, ◌-◌, ◌^◌, ◌≡◌, refl, arith, inl, some, none, [], ◌∷◌}
use pnacl_c.Base.{if◌then◌else◌, ◌==◌, get_or, Result, ok, fatal, ◌>>=◌}
use pnacl_c.Base.Int.{ℤ, negsuc}
use pnacl_c.Bits.{decode_sign_rotated_value_int64}
use pnacl_c.BitStream.{
  read, read_frac_bits, fill_curword, read_rest, load_u32, read_vbr, read_vbr6, read_vbr_uint64,
  vbr_loop, narrow, seek_bit,
}
use pnacl_c.BitStream.Spec.{bits_at}
use pnacl_c.Record.{
  AbbrevOp, RecordReader, Abbrev, init, read_abbrev, read_abbrev_uint64, read_code, try_read_uint32,
  try_read_uint64, try_read_uint16, read_uint32, read_uint64, read_uint16, read_decoded_int32,
  read_decoded_int64, num_values_left, reader_finish, count_values, read_ops, read_op,
  read_scalar_op, read_array_op, read_array_length, read_element, decode_char6, required,
}
use pnacl_c.Record.InBlob.{read_values, bytes_at}
use pnacl_c.Record.Blob.{AtBlob, blob_size, read_values-AtBlob}

abbrev counting : ℕ → ℕ
counting i = i + 1

-- A blob of one value, at the start of a stream of six bytes.
abbrev at_blob : RecordReader
at_blob = record {
  bs = record { bytes = counting; data_len = 6; curword = 0; curword_bits = 0; bit_offset = 0 };
  abbrevs = (AbbrevOp.literal 9 ∷ AbbrevOp.blob ∷ []) ∷ [];
  entry = 4;
  op_index = 1;
  num_values = 0;
  value_index = 0;
}

at_blob-AtBlob : AtBlob (AbbrevOp.literal 9 ∷ AbbrevOp.blob ∷ []) at_blob
unfolding bits_at
at_blob-AtBlob = record {
  known = omega arith;
  its_ops = refl;
  op_there = omega arith;
  its_op = refl;
  begins = refl;
  valid = record {
    small = omega arith;
    few = omega arith;
    word = omega arith;
    within = omega arith;
    whole = refl;
    buffered = refl;
    clean = inl (omega arith);
  };
}

-- Its two reads.
read_values-AtBlob_example :
    (r' : RecordReader) × (read_values (1 + 1) at_blob ≡ ok (bytes_at counting 32 (1 + 1), r'))
    × (r'.op_index ≡ (if 1 == blob_size at_blob then 2 else 1))
unfolding bits_at
read_values-AtBlob_example =
    read_values-AtBlob (AbbrevOp.literal 9 ∷ AbbrevOp.blob ∷ []) at_blob 1 at_blob-AtBlob
      (omega arith) (omega arith)

-- An unabbreviated record of code 1 with the two values 3 and 5, in six bits each.
abbrev six_bits : ℕ → ℕ
six_bits i = get_or (0x81 ∷ 0x30 ∷ 0x14 ∷ []) i 0

abbrev unabbreviated : RecordReader
unabbreviated = record {
  bs = record { bytes = six_bits; data_len = 6; curword = 0; curword_bits = 0; bit_offset = 0 };
  abbrevs = [];
  entry = 3;
  op_index = 0;
  num_values = 2 ^ 32 - 1;
  value_index = 0;
}

finish_test :
    (reader_finish 9 (record unabbreviated { num_values = 8 }) >>= λ r. ok r.value_index) ≡ ok 8
unfolding reader_finish count_values try_read_uint32 read_vbr read_vbr6 read read_frac_bits
    fill_curword load_u32 vbr_loop narrow read_rest
finish_test = refl

two_values : Result (ℕ × ℕ × ℕ)
unfolding read_code read_uint32 read_uint16
two_values = do
  (code, r) ← read_code unabbreviated
  (a, r') ← read_uint32 r
  (b, r'') ← read_uint16 r'
  (n, r''') ← num_values_left 3 r''
  ok (a, b, n)

two_values_test : two_values ≡ ok (3, 5, 0)
unfolding two_values read_code read_uint32 read_uint16 required try_read_uint32 try_read_uint16
    num_values_left seek_bit count_values read_vbr read_vbr6 read read_frac_bits fill_curword
    load_u32 vbr_loop narrow read_rest
two_values_test = refl

decoded : Result (ℤ × ℤ)
decoded = do
  (code, r) ← read_code unabbreviated
  (a, r') ← read_decoded_int32 r
  (b, r'') ← read_decoded_int64 r'
  ok (a, b)

decoded_test : decoded ≡ ok (negsuc 0, negsuc 1)
unfolding decoded read_code read_decoded_int32 read_decoded_int64 read_uint64 required
    try_read_uint64 read_vbr_uint64 read_vbr read_vbr6 read read_frac_bits fill_curword load_u32
    vbr_loop narrow read_rest decode_sign_rotated_value_int64
decoded_test = refl

-- Abbreviated: a literal, then an array of characters.
abbrev word_abbrev : Abbrev
word_abbrev = AbbrevOp.literal 9 ∷ AbbrevOp.array ∷ AbbrevOp.char6 ∷ []

chars : Result (ℕ × ℕ)
unfolding init
chars = do
  (a, r) ← read_abbrev (init unabbreviated.bs (word_abbrev ∷ []) 4)
  (b, r') ← read_abbrev_uint64 r
  elim a [ none ↦ fatal | some x ↦ elim b [ none ↦ fatal | some y ↦ ok (x, y) ] ]

-- The array has length 1, and its element is character 2.
chars_test : chars ≡ ok (9, 99)
unfolding chars init read_abbrev read_abbrev_uint64 read_ops read_op read_scalar_op read_array_op
    read_array_length read_element decode_char6 read_vbr read_vbr6 read read_frac_bits fill_curword
    load_u32 vbr_loop narrow read_rest
chars_test = refl
