-- ===== src/Record.antt =====
-- src/pn_record.h and the abbreviation types of src/pnacl.h: the reader of one record's values.
pub mod InBlob
pub mod Blob
mod Tests
use pnacl_c.Base.{
  ℕ, zero, suc, ◌+◌, ◌-◌, ◌*◌, ◌%◌, ◌^◌, Bool, true, false, if◌then◌else◌, ltb, leb, ◌==◌,
}
use pnacl_c.Base.{Option, none, some, List, [], ◌∷◌, length, get_elem?}
use pnacl_c.Base.{Result, ok, fatal, fault, stuck, ◌>>=◌, ◌>>◌, check, assert, from_option}
use pnacl_c.Base.Int.{ℤ, pos, negsuc}
use pnacl_c.Bits.{decode_sign_rotated_value_int64}
use pnacl_c.BitStream.{BitStream, read, read_vbr, read_vbr_uint64, align_32, seek_bit}

-- PNAbbrevOp: the encoding, with the member of the union that it uses.
pub data AbbrevOp : Type 0 where
  literal fixed vbr : ℕ → AbbrevOp
  array char6 blob : AbbrevOp

abbrev pub Abbrev : Type 0
Abbrev = List AbbrevOp

pub record RecordReader : Type 0 where
  pub bs : BitStream
  pub abbrevs : List Abbrev
  pub entry : ℕ
  pub op_index : ℕ
  pub num_values : ℕ
  pub value_index : ℕ

pub init : BitStream → List Abbrev → ℕ → RecordReader
init bs abbrevs entry = record {
  bs = bs;
  abbrevs = abbrevs;
  entry = entry;
  op_index = 0;
  num_values = 2 ^ 32 - 1;
  value_index = 0;
}

-- "abc…zABC…Z0…9._" by ranges; the array's size counts the NUL at its end.
pub decode_char6 : ℕ → Result ℕ
decode_char6 value =
    if leb 65 value
    then fatal
    else (if ltb value 26
        then ok (value + 97)
        else (if ltb value 52
            then ok (value - 26 + 65)
            else (if ltb value 62
                then ok (value - 52 + 48)
                else (if value == 62 then ok 46 else (if value == 63 then ok 95 else ok 0)))))

abbrev Vbr : Type 0
Vbr = BitStream → ℕ → Result (ℕ × BitStream)

-- A value of a scalar encoding; as an array's element an array or a blob is fatal.
read_element : Vbr → AbbrevOp → BitStream → Result (ℕ × BitStream)
unfolding decode_char6
read_element read_vbr_as (literal value) bs = ok (value, bs)
read_element read_vbr_as (fixed num_bits) bs = read bs num_bits
read_element read_vbr_as (vbr num_bits) bs = read_vbr_as bs num_bits
read_element read_vbr_as char6 bs = do (c, bs') ← read bs 6; v ← decode_char6 c; ok (v, bs')
read_element read_vbr_as _ bs = fatal

abbrev Step : Type 0
Step = Result (Option ℕ × RecordReader)

-- A scalar op is done after its one value.
read_scalar_op : Vbr → AbbrevOp → RecordReader → Step
unfolding read_element
read_scalar_op read_vbr_as op r = do
  (v, bs') ← read_element read_vbr_as op r.bs
  ok (some v, record r { bs = bs'; op_index = r.op_index + 1; value_index = 0 })

-- Before its first value an array reads its length, which the uint32 reader wants to be positive.
read_array_length : Bool → RecordReader → Result RecordReader
read_array_length positive r =
    if r.value_index == 0
    then (do
      (n, bs') ← read_vbr r.bs 6
      check (if positive then ltb 0 n else true)
      ok (record r { bs = bs'; num_values = n }))
    else ok r

read_array_op : Vbr → Bool → Abbrev → RecordReader → Step
unfolding read_element read_array_length
read_array_op read_vbr_as positive ops r = do
  r' ← read_array_length positive r
  elt_op ← from_option (get_elem? ops (r.op_index + 1))
  (v, bs') ← read_element read_vbr_as elt_op r'.bs
  let value_index' = r'.value_index + 1
  ok (
    some v,
    record r' {
      bs = bs';
      value_index = value_index';
      op_index = if value_index' == r'.num_values then r'.op_index + 2 else r'.op_index;
    },
  )

read_blob_length : RecordReader → Result RecordReader
read_blob_length r =
    if r.value_index == 0
    then (do
      (n, bs') ← read r.bs 6
      bs'' ← align_32 bs'
      ok (record r { bs = bs''; num_values = n }))
    else ok r

-- `value_index++ == num_values` compares the index before it is raised.
read_blob_op : RecordReader → Step
unfolding read_blob_length
read_blob_op r = do
  r' ← read_blob_length r
  (v, bs') ← read r'.bs 8
  ok (
    some v,
    record r' {
      bs = bs';
      value_index = r'.value_index + 1;
      op_index = if r'.value_index == r'.num_values then r'.op_index + 1 else r'.op_index;
    },
  )

read_op : Vbr → Bool → Abbrev → AbbrevOp → RecordReader → Step
unfolding read_scalar_op read_array_op read_blob_op
read_op read_vbr_as positive ops array r = read_array_op read_vbr_as positive ops r
read_op read_vbr_as positive ops blob r = read_blob_op r
read_op read_vbr_as positive ops op r = read_scalar_op read_vbr_as op r

-- Behind the last op there is no value.
read_ops : Vbr → Bool → Abbrev → RecordReader → Step
unfolding read_op
read_ops read_vbr_as positive ops r =
    if leb (length ops) r.op_index
    then ok (none, r)
    else (from_option (get_elem? ops r.op_index) >>= λ op. read_op read_vbr_as positive ops op r)

-- `reader->entry - 4` is a uint32_t: an entry below 4 wraps to an index that no table has.
abbrev abbrev_index : RecordReader → ℕ
abbrev_index r = (r.entry + 2 ^ 32 - 4) % 2 ^ 32

pub read_abbrev : RecordReader → Step
unfolding read_ops
read_abbrev r = do
  check (ltb (abbrev_index r) (length r.abbrevs))
  ops ← from_option (get_elem? r.abbrevs (abbrev_index r))
  read_ops read_vbr true ops r

pub read_abbrev_uint64 : RecordReader → Step
unfolding read_ops
read_abbrev_uint64 r = do
  assert (ltb (abbrev_index r) (length r.abbrevs))
  ops ← from_option (get_elem? r.abbrevs (abbrev_index r))
  read_ops read_vbr_uint64 false ops r

-- PN_ENTRY_UNABBREV_RECORD.
abbrev pub unabbrev_record : ℕ
unabbrev_record = 3

pub read_code : RecordReader → Step
read_code r =
    if r.entry == unabbrev_record
    then (do
      (code, bs') ← read_vbr r.bs 6
      (n, bs'') ← read_vbr bs' 6
      ok (some code, record r { bs = bs''; num_values = n }))
    else read_abbrev r

abbrev try_read_unabbrev : Vbr → RecordReader → Step
try_read_unabbrev read_vbr_as r = if leb r.num_values r.value_index then ok (none, r) else do
  (v, bs') ← read_vbr_as r.bs 6
  ok (some v, record r { bs = bs'; value_index = r.value_index + 1 })

pub try_read_uint32 : RecordReader → Step
try_read_uint32 r =
    if r.entry == unabbrev_record then try_read_unabbrev read_vbr r else read_abbrev r

pub try_read_uint64 : RecordReader → Step
try_read_uint64 r =
    if r.entry == unabbrev_record then try_read_unabbrev read_vbr_uint64 r else read_abbrev_uint64 r

-- The readers that want a value: without one the program ends.
required : Step → Result (ℕ × RecordReader)
required step = step >>= λ (v, r). elim v [ none ↦ fatal | some x ↦ ok (x, r) ]

pub read_uint32 : RecordReader → Result (ℕ × RecordReader)
unfolding required
read_uint32 r = required (try_read_uint32 r)

pub read_uint64 : RecordReader → Result (ℕ × RecordReader)
unfolding required
read_uint64 r = required (try_read_uint64 r)

pub try_read_uint16 : RecordReader → Step
try_read_uint16 r = do
  (v, r') ← try_read_uint32 r
  elim v [ none ↦ ok (none, r') | some x ↦ if ltb 0xffff x then fatal else ok (some x, r') ]

pub read_uint16 : RecordReader → Result (ℕ × RecordReader)
unfolding required
read_uint16 r = required (try_read_uint16 r)

abbrev in_int32 : ℤ → Bool
in_int32 (pos n) = ltb n (2 ^ 31)
in_int32 (negsuc n) = ltb n (2 ^ 31)

pub read_decoded_int32 : RecordReader → Result (ℤ × RecordReader)
read_decoded_int32 r = do
  (v, r') ← read_uint64 r
  let z = decode_sign_rotated_value_int64 v
  if in_int32 z then ok (z, r') else fatal

pub read_decoded_int64 : RecordReader → Result (ℤ × RecordReader)
read_decoded_int64 r = do (v, r') ← read_uint64 r; ok (decode_sign_rotated_value_int64 v, r')

-- The loop of `num_values_left` and `reader_finish`, on fuel.
count_values : ℕ → RecordReader → ℕ → Result (ℕ × RecordReader)
count_values zero r count = stuck
count_values (suc fuel) r count = try_read_uint32 r >>= λ (v, r').
    let more = count_values fuel r' (count + 1) in elim v [ none ↦ ok (count, r') | some x ↦ more ]

-- Afterwards the reader is as before, and its cursor is sought back to its bit.
pub num_values_left : ℕ → RecordReader → Result (ℕ × RecordReader)
unfolding count_values
num_values_left fuel r = do
  (count, r') ← count_values fuel r 0
  bs' ← seek_bit r'.bs r.bs.bit_offset
  ok (count, record r { bs = bs' })

pub reader_finish : ℕ → RecordReader → Result RecordReader
unfolding count_values
reader_finish fuel r = do (count, r') ← count_values fuel r 0; ok r'
