-- ===== src/Record/Blob.antt =====
-- How many values a blob yields.
use pnacl_c.Base.{
  ℕ, zero, suc, ◌+◌, ◌*◌, ◌/◌, ◌≤◌, ◌<◌, ◌≡◌, ◌⊎◌, inl, inr, refl, ap, ◌∙◌, subst, arith, false,
  some, length, get_elem?,
}
use pnacl_c.Base.{ok, ◌==◌, lt→ltb, lt→leb, if◌then◌else◌}
use pnacl_c.BitStream.{read, align_32}
use pnacl_c.BitStream.Seek.{Seeks, align_32-Seeks}
use pnacl_c.BitStream.Spec.{bits_at}
use pnacl_c.BitStream.Word.{IsValid, Reads}
use pnacl_c.BitStream.Read.{read-Reads}
use pnacl_c.Record.{Abbrev, blob, RecordReader, abbrev_index, read_abbrev}
use pnacl_c.Record.InBlob.{
  InBlob, next_value, read_values, bytes_at, ReadsBytes, one_more, op_after, none_left,
  read_values-InBlob,
}

-- A reader whose next op is a blob that has not begun, with a valid cursor, and the stream behind it
-- up to the last byte that is read for the blob.
pub record AtBlob (ops : Abbrev) (r : RecordReader) : Type 0 where
  pub known : abbrev_index r < length r.abbrevs
  pub its_ops : get_elem? r.abbrevs (abbrev_index r) ≡ some ops
  pub op_there : r.op_index < length ops
  pub its_op : get_elem? ops r.op_index ≡ some blob
  pub begins : r.value_index ≡ 0
  pub valid : IsValid r.bs

-- The size that the blob gives, in six bits, and the bit that its bytes start at.
abbrev pub blob_size : RecordReader → ℕ
blob_size r = bits_at r.bs.bytes r.bs.bit_offset 6

abbrev pub blob_start : RecordReader → ℕ
blob_start r = (r.bs.bit_offset + 6 + 31) / 32 * 32

size_of :
    {ops : Abbrev} {r : RecordReader}
    → AtBlob ops r
    → blob_start r + 8 ≤ 8 * r.bs.data_len
    → Reads r.bs 6 (read r.bs 6)
size_of {r} a h = read-Reads r.bs 6 a.valid (omega arith) (omega arith)

aligned_of :
    {ops : Abbrev} {r : RecordReader}
    → (a : AtBlob ops r) (h : blob_start r + 8 ≤ 8 * r.bs.data_len)
    → Seeks (size_of a h).after (blob_start r) (align_32 (size_of a h).after)
aligned_of {r} a h =
    subst (λ (i : ℕ). Seeks (size_of a h).after i (align_32 (size_of a h).after))
      (start_at (size_of a h).moved)
      (align_32-Seeks (size_of a h).after (size_of a h).valid
        (omega (arith, (size_of a h).moved, (size_of a h).same_len)))
  where
    start_at : {i : ℕ} → i ≡ r.bs.bit_offset + 6 → (i + 31) / 32 * 32 ≡ blob_start r
    start_at e = ap (λ (j : ℕ). (j + 31) / 32 * 32) e

module _ (ops : Abbrev) (r : RecordReader) (a : AtBlob ops r) (size : Reads r.bs 6 (read r.bs 6))
    (aligned : Seeks size.after (blob_start r) (align_32 size.after))
    (byte : Reads aligned.after 8 (read aligned.after 8)) where
  -- The reader at the first byte of the blob, and behind it.
  abbrev opened : RecordReader
  opened = record r { bs = aligned.after; num_values = blob_size r }

  abbrev first_read : RecordReader
  first_read = next_value opened byte.after

  read_abbrev-AtBlob :
      read_abbrev r ≡ ok (some (bits_at aligned.after.bytes aligned.after.bit_offset 8), first_read)
  unfolding read_abbrev
  read_abbrev-AtBlob =
      rw
        (
          lt→ltb _ _ a.known,
          a.its_ops,
          lt→leb (length ops) r.op_index a.op_there,
          a.its_op,
          a.begins,
          size.returns,
          aligned.returns,
          byte.returns,
        )
        refl

  first_read-InBlob :
      (k : ℕ)
      → k ≤ blob_size r
      → blob_start r + 8 * (k + 1) ≤ 8 * r.bs.data_len
      → (k ≡ 0) ⊎ InBlob ops first_read
  first_read-InBlob zero le ahead = inl refl
  first_read-InBlob (suc k) le ahead = inr record {
    known = a.known;
    its_ops = a.its_ops;
    op_there = rw not_empty a.op_there;
    its_op = rw not_empty a.its_op;
    begun = omega arith;
    valid = byte.valid;
    ahead = omega (arith, byte.moved, byte.same_len, aligned.at, aligned.same_len, size.same_len);
  }
    where
      not_empty : (r.value_index == blob_size r) ≡ false
      not_empty = ground (arith, a.begins)

  -- The op of the reader when `k` more values are read.
  abbrev op_at : ℕ → ℕ
  op_at k = if k == blob_size r then r.op_index + 1 else r.op_index

  first_reads :
      (k : ℕ)
      → k ≤ blob_size r
      → blob_start r + 8 * (k + 1) ≤ 8 * r.bs.data_len
      → ReadsBytes k first_read first_read.bs.bytes first_read.bs.bit_offset (op_at k)
  first_reads zero le ahead =
      none_left 0 first_read first_read.bs.bit_offset (op_at 0) first_read.bs.bytes refl
        (ground (arith, a.begins))
  first_reads (suc k) le ahead =
      subst (ReadsBytes (suc k) first_read first_read.bs.bytes first_read.bs.bit_offset) same_op (
        read_values-InBlob ops (suc k) first_read (first_read-InBlob (suc k) le ahead)
          (omega (arith, a.begins)) (omega (arith, a.begins))
          (omega (arith, byte.moved, byte.same_len, aligned.at, aligned.same_len, size.same_len)))
    where
      same_op : op_after (suc k) first_read ≡ op_at (suc k)
      same_op = ground (arith, a.begins)

  all_reads :
      (k : ℕ)
      → k ≤ blob_size r
      → blob_start r + 8 * (k + 1) ≤ 8 * r.bs.data_len
      → ReadsBytes (suc k) r r.bs.bytes (blob_start r) (op_at k)
  all_reads k le ahead =
      one_more k r first_read (blob_start r) (op_at k) r.bs.bytes
        (subst (λ (i : ℕ). read_abbrev r ≡ ok (some (bits_at r.bs.bytes i 8), first_read))
          aligned.at
          (subst
            (λ (bytes : ℕ → ℕ).
              read_abbrev r ≡ ok (some (bits_at bytes aligned.after.bit_offset 8), first_read))
            same_bytes read_abbrev-AtBlob))
        (subst (λ (i : ℕ). ReadsBytes k first_read r.bs.bytes i (op_at k))
          (byte.moved ∙ ap (λ (i : ℕ). i + 8) aligned.at)
          (subst
            (λ (bytes : ℕ → ℕ). ReadsBytes k first_read bytes first_read.bs.bit_offset (op_at k))
            (byte.same_bytes ∙ same_bytes) (first_reads k le ahead)))
    where
      same_bytes : aligned.after.bytes ≡ r.bs.bytes
      same_bytes = aligned.same_bytes ∙ size.same_bytes

-- From the start of a blob, with a valid cursor and stream enough, the first reads return bytes of the
-- stream in order, from the next multiple of 32 bits behind the size; the reader leaves the op not
-- with the last of as many values as the size says, but with the read behind it, which still returns
-- a byte: a blob yields one value more than it holds.
pub read_values-AtBlob :
    (ops : Abbrev) (r : RecordReader) (k : ℕ)
    → AtBlob ops r
    → k ≤ blob_size r
    → blob_start r + 8 * (k + 1) ≤ 8 * r.bs.data_len
    → (r' : RecordReader) × (read_values (k + 1) r
        ≡ ok (bytes_at r.bs.bytes (blob_start r) (k + 1), r'))
      × (r'.op_index ≡ (if k == blob_size r then r.op_index + 1 else r.op_index))
read_values-AtBlob ops r k a le ahead =
    subst
      (λ (n : ℕ).
        ReadsBytes n r r.bs.bytes (blob_start r)
          (if k == blob_size r then r.op_index + 1 else r.op_index))
      one
      (let size = size_of a start in
        let aligned = aligned_of a start in
        all_reads ops r a size aligned
          (read-Reads aligned.after 8 aligned.valid (omega arith)
            (omega (arith, aligned.at, aligned.same_len, size.same_len)))
          k le ahead)
  where
    one : suc k ≡ k + 1
    one = omega arith

    start : blob_start r + 8 ≤ 8 * r.bs.data_len
    start = omega arith
