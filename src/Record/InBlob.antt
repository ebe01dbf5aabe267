-- ===== src/Record/InBlob.antt =====
-- Reads inside a blob.
use pnacl_c.Base.{
  ℕ, zero, suc, ◌+◌, ◌*◌, ◌≤◌, ◌<◌, ◌≡◌, ◌⊎◌, inl, inr, refl, subst, arith, true, false, Bool-cases,
  List, [], ◌∷◌, Option, some, length, get_elem?,
}
use pnacl_c.Base.{Result, ok, ◌>>=◌, ◌==◌, lt→ltb, lt→leb, if◌then◌else◌}
use pnacl_c.BitStream.{BitStream, read}
use pnacl_c.BitStream.Spec.{bits_at}
use pnacl_c.BitStream.Word.{IsValid, Reads}
use pnacl_c.BitStream.Read.{read-Reads}
use pnacl_c.Record.{Abbrev, blob, RecordReader, abbrev_index, read_abbrev}

-- A reader whose next op is a blob that has begun, with a valid cursor and a byte ahead.
pub record InBlob (ops : Abbrev) (r : RecordReader) : Type 0 where
  pub known : abbrev_index r < length r.abbrevs
  pub its_ops : get_elem? r.abbrevs (abbrev_index r) ≡ some ops
  pub op_there : r.op_index < length ops
  pub its_op : get_elem? ops r.op_index ≡ some blob
  pub begun : 0 < r.value_index
  pub valid : IsValid r.bs
  pub ahead : r.bs.bit_offset + 8 ≤ 8 * r.bs.data_len

-- The reader after one more value of the blob.
abbrev pub next_value : RecordReader → BitStream → RecordReader
next_value r bs' = record r {
  bs = bs';
  value_index = r.value_index + 1;
  op_index = if r.value_index == r.num_values then r.op_index + 1 else r.op_index;
}

pub byte_of : {ops : Abbrev} {r : RecordReader} → InBlob ops r → Reads r.bs 8 (read r.bs 8)
byte_of {r} b = read-Reads r.bs 8 b.valid (omega arith) b.ahead

-- A read inside a blob that has begun, with a valid cursor and a byte ahead, returns the next byte of
-- the stream, and leaves the blob only if as many values as it holds were read before.
read_abbrev-InBlob :
    (ops : Abbrev) (r : RecordReader)
    → (b : InBlob ops r)
    → read_abbrev r
      ≡ ok (some (bits_at r.bs.bytes r.bs.bit_offset 8), next_value r (byte_of b).after)
unfolding read_abbrev
read_abbrev-InBlob ops r b =
    rw (lt→ltb _ _ b.known, b.its_ops, lt→leb (length ops) r.op_index b.op_there, b.its_op)
      (ground (arith, (byte_of b).returns, b.begun))

-- Some reads of a value, one after the other.
unfoldable pub read_values : ℕ → RecordReader → Result (List (Option ℕ) × RecordReader)
read_values zero r = ok ([], r)
read_values (suc k) r = do (v, r1) ← read_abbrev r; (vs, r2) ← read_values k r1; ok (v ∷ vs, r2)

-- Bytes of the stream from a bit on.
abbrev pub bytes_at : (ℕ → ℕ) → ℕ → ℕ → List (Option ℕ)
bytes_at bytes i zero = []
bytes_at bytes i (suc k) = some (bits_at bytes i 8) ∷ bytes_at bytes (i + 8) k

-- Reads of `k` values from a reader of a blob.
abbrev pub ReadsBytes : ℕ → RecordReader → (ℕ → ℕ) → ℕ → ℕ → Type 0
ReadsBytes k r bytes i op_index =
    (r' : RecordReader) × (read_values k r ≡ ok (bytes_at bytes i k, r')) × (r'.op_index ≡ op_index)

pub one_more :
    (k : ℕ) (r next : RecordReader) (i op_index : ℕ) (bytes : ℕ → ℕ)
    → read_abbrev r ≡ ok (some (bits_at bytes i 8), next)
    → ReadsBytes k next bytes (i + 8) op_index
    → ReadsBytes (suc k) r bytes i op_index
unfolding read_values
one_more k r next i op_index bytes e (r', rest, q) = (r', rw (e, rest) refl, q)

pub next_value-InBlob :
    (ops : Abbrev) (r : RecordReader)
    → (b : InBlob ops r) → (r.value_index == r.num_values) ≡ false
    → r.bs.bit_offset + 16 ≤ 8 * r.bs.data_len
    → InBlob ops (next_value r (byte_of b).after)
next_value-InBlob ops r b e h = record {
  known = b.known;
  its_ops = b.its_ops;
  op_there = rw e b.op_there;
  its_op = rw e b.its_op;
  begun = omega arith;
  valid = (byte_of b).valid;
  ahead = omega (arith, (byte_of b).moved, (byte_of b).same_len);
}

-- The reader moves to the bytes that follow.
onward :
    {ops : Abbrev} (k : ℕ) (r : RecordReader) (op_index : ℕ)
    → (b : InBlob ops r)
    → ReadsBytes k
        (next_value r (byte_of b).after)
        (byte_of b).after.bytes
        (byte_of b).after.bit_offset
        op_index
    → ReadsBytes (suc k) r r.bs.bytes r.bs.bit_offset op_index
onward {ops} k r op_index b rest =
    one_more k r (next_value r (byte_of b).after) r.bs.bit_offset op_index r.bs.bytes
      (read_abbrev-InBlob ops r b)
      (subst
        (λ (bytes : ℕ → ℕ).
          ReadsBytes k (next_value r (byte_of b).after) bytes (r.bs.bit_offset + 8) op_index)
        (byte_of b).same_bytes
        (subst
          (λ (i : ℕ).
            ReadsBytes k (next_value r (byte_of b).after) (byte_of b).after.bytes i op_index)
          (byte_of b).moved rest))

-- The op of the reader after `k` more values.
abbrev pub op_after : ℕ → RecordReader → ℕ
op_after k r = if (k + r.value_index) == (r.num_values + 1) then r.op_index + 1 else r.op_index

pub none_left :
    (k : ℕ) (r : RecordReader) (i op_index : ℕ) (bytes : ℕ → ℕ)
    → k ≡ 0
    → r.op_index ≡ op_index
    → ReadsBytes k r bytes i op_index
unfolding read_values
none_left zero r i op_index bytes z e = (r, refl, e)
none_left (suc k) r i op_index bytes z e = absurd (omega arith)

pub read_values-InBlob :
    (ops : Abbrev) (k : ℕ) (r : RecordReader)
    → (k ≡ 0) ⊎ InBlob ops r
    → r.value_index ≤ r.num_values
    → k + r.value_index ≤ r.num_values + 1
    → r.bs.bit_offset + 8 * k ≤ 8 * r.bs.data_len
    → ReadsBytes k r r.bs.bytes r.bs.bit_offset (op_after k r)
read_values-InBlob ops zero r b le room ahead =
    none_left 0 r r.bs.bit_offset (op_after 0 r) r.bs.bytes refl (ground arith)
read_values-InBlob ops (suc k) r (inl z) le room ahead = absurd (omega arith)
read_values-InBlob ops (suc k) r (inr b) le room ahead =
    onward k r (op_after (suc k) r) b (elim (Bool-cases (r.value_index == r.num_values)) [
      | inl e ↦
          none_left k (next_value r (byte_of b).after) (byte_of b).after.bit_offset
            (op_after (suc k) r) (byte_of b).after.bytes (at_end e) (done e)
      | inr e ↦
          subst
            (ReadsBytes k (next_value r (byte_of b).after) (byte_of b).after.bytes
              (byte_of b).after.bit_offset)
            (same_op e)
            (read_values-InBlob ops k (next_value r (byte_of b).after) (still e k ahead) (less e)
              (omega arith) (omega (arith, (byte_of b).moved, (byte_of b).same_len)))
    ])
  where
    at_end : (r.value_index == r.num_values) ≡ true → k ≡ 0
    at_end e = ground arith

    done :
        (r.value_index == r.num_values) ≡ true
        → (next_value r (byte_of b).after).op_index ≡ op_after (suc k) r
    done e = ground arith

    less : (r.value_index == r.num_values) ≡ false → r.value_index + 1 ≤ r.num_values
    less e = ground arith

    same_op :
        (r.value_index == r.num_values) ≡ false
        → op_after k (next_value r (byte_of b).after) ≡ op_after (suc k) r
    same_op e = ground arith

    still :
        (r.value_index == r.num_values) ≡ false
        → (k : ℕ) → r.bs.bit_offset + 8 * suc k ≤ 8 * r.bs.data_len
        → (k ≡ 0) ⊎ InBlob ops (next_value r (byte_of b).after)
    still e zero h = inl refl
    still e (suc k) h = inr (next_value-InBlob ops r b e (omega arith))
