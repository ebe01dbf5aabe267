-- ===== src/Abbreviations.antt =====
-- src/pn_abbrev.h: the definitions of abbreviations, as they are read and as they are stored.
pub mod Offsets
pub mod Layout
pub mod Grammar
mod Tests
use pnacl_c.Base.{
  ℕ, zero, suc, ◌+◌, ◌-◌, ◌*◌, Bool, true, ◌&&◌, ◌||◌, if◌then◌else◌, ltb, leb, ◌==◌, List, [], ◌∷◌,
  ◌++◌, length, get_elem?, set,
}
use pnacl_c.Base.{Result, ok, fatal, ◌>>=◌, ◌>>◌, assert, check, from_option}
use pnacl_c.BitStream.{BitStream, read, read_vbr}
use pnacl_c.Record.{AbbrevOp, Abbrev}

-- sizeof(PNAbbrev) and sizeof(PNAbbrevOp), on a host with pointers of 64 bits.
abbrev pub sizeof_abbrev : ℕ
sizeof_abbrev = 16

abbrev pub sizeof_op : ℕ
sizeof_op = 8

-- A PNAbbrev, with the pointer to its ops as the offset in the allocation that holds it.
pub record Header : Type 0 where
  pub num_ops : ℕ
  pub ops : ℕ

-- PNAbbrevs: one allocation of `size` bytes, 0 for NULL, with the headers and behind them all their
-- ops, each by the offset that it is stored at. What was not written is any op.
pub record Abbrevs : Type 0 where
  pub headers : List Header
  pub size : ℕ
  pub memory : ℕ → AbbrevOp

-- memmove(dest, src, n), for whole ops.
abbrev pub memmove : ℕ → ℕ → ℕ → (ℕ → AbbrevOp) → ℕ → AbbrevOp
memmove dest src n memory p =
    if leb dest p && ltb p (dest + n) then memory (p - dest + src) else memory p

-- The loop that pushes the ops pointers down, and the pointer that it ends with.
abbrev pub place_headers : ℕ → List Header → List Header
place_headers ops [] = []
place_headers ops (h ∷ hs) = record h { ops = ops } ∷ place_headers (ops + h.num_ops * sizeof_op) hs

abbrev pub placed_end : ℕ → List Header → ℕ
placed_end ops [] = ops
placed_end ops (h ∷ hs) = placed_end (ops + h.num_ops * sizeof_op) hs

-- pn_abbrevs_allocate. `is_last` is whether the list's allocation is the allocator's last one, of
-- which pn_allocator_last_alloc_size is the size; any other one is not made larger.
unfoldable pub allocate : Bool → Abbrevs → ℕ → Result Abbrevs
allocate is_last a num_ops = do
  check (is_last || (length a.headers == 0))
  let prev_ops : ℕ = length a.headers * sizeof_abbrev
  let ops : ℕ = prev_ops + sizeof_abbrev
  ok record {
    headers =
        place_headers ops a.headers
        ++ record { num_ops = num_ops; ops = placed_end ops a.headers } ∷ [];
    size = a.size + (sizeof_abbrev + num_ops * sizeof_op);
    memory = memmove ops prev_ops (a.size - prev_ops) a.memory;
  }

-- Writes through a pointer to ops.
unfoldable pub write_ops : ℕ → List AbbrevOp → (ℕ → AbbrevOp) → ℕ → AbbrevOp
write_ops at [] memory = memory
write_ops at (op ∷ src) memory =
    write_ops (at + sizeof_op) src (λ p. if p == at then op else memory p)

-- Where the ops of the last abbreviation are.
abbrev pub last_ops : List Header → ℕ
last_ops [] = 0
last_ops (h ∷ []) = h.ops
last_ops (h ∷ k ∷ hs) = last_ops (k ∷ hs)

abbrev pub write_last : Abbrevs → List AbbrevOp → Abbrevs
write_last a src = record a { memory = write_ops (last_ops a.headers) src a.memory }

unfoldable pub copy : Bool → Abbrevs → Abbrev → Result Abbrevs
unfolding allocate write_ops
copy is_last dest src = do a ← allocate is_last dest (length src); ok (write_last a src)

-- The ops that a pointer leads to.
abbrev pub ops_from : (ℕ → AbbrevOp) → ℕ → ℕ → Abbrev
ops_from memory at zero = []
ops_from memory at (suc n) = memory at ∷ ops_from memory (at + sizeof_op) n

abbrev pub ops_of : Abbrevs → Header → Abbrev
ops_of a h = ops_from a.memory h.ops h.num_ops

-- The loop over the headers of the source; behind its first allocation the list's is the last one.
unfoldable pub copy_headers : Bool → Abbrevs → List Header → Abbrevs → Result Abbrevs
unfolding copy
copy_headers is_last src [] dest = ok dest
copy_headers is_last src (h ∷ hs) dest = do
  dest' ← copy is_last dest (ops_of src h)
  copy_headers true src hs dest'

abbrev pub max_block_ids : ℕ
max_block_ids = 20

-- The block info's abbreviations by block.
unfoldable pub copy_abbrevs_for_block_id : Bool → List Abbrevs → ℕ → Abbrevs → Result Abbrevs
unfolding copy_headers
copy_abbrevs_for_block_id is_last context block_id dest = do
  check (ltb block_id max_block_ids)
  src ← from_option (get_elem? context block_id)
  copy_headers is_last src src.headers dest

unfoldable pub append_abbrev : Bool → List Abbrevs → ℕ → Abbrev → Result (ℕ × List Abbrevs)
unfolding copy
append_abbrev is_last context block_id abbrev_ops = do
  check (ltb block_id max_block_ids)
  abbrevs ← from_option (get_elem? context block_id)
  abbrevs' ← copy is_last abbrevs abbrev_ops
  ok (length abbrevs.headers, set context block_id abbrevs')

-- The width of a field.
abbrev read_width : (ℕ → AbbrevOp) → BitStream → Result (AbbrevOp × BitStream)
read_width encoding bs = do
  (num_bits, bs') ← read_vbr bs 5
  check (leb num_bits 32)
  ok (encoding num_bits, bs')

abbrev read_literal : BitStream → Result (AbbrevOp × BitStream)
read_literal bs = do (value, bs') ← read_vbr bs 8; ok (AbbrevOp.literal value, bs')

-- What an array's element is read with.
abbrev element_encoding : ℕ → BitStream → Result (AbbrevOp × BitStream)
element_encoding encoding bs =
    if encoding == 1
    then read_width AbbrevOp.fixed bs
    else (if encoding == 2
        then read_width AbbrevOp.vbr bs
        else (if encoding == 4 then ok (AbbrevOp.char6, bs) else fatal))

unfoldable pub read_element_op : BitStream → Result (AbbrevOp × BitStream)
read_element_op bs = do
  (is_literal, bs1) ← read bs 1
  if is_literal == 0
      then (do (encoding, bs2) ← read bs1 3; element_encoding encoding bs2)
      else read_literal bs1

abbrev op_encoding : ℕ → BitStream → Result (AbbrevOp × BitStream)
op_encoding encoding bs =
    if encoding == 3
    then ok (AbbrevOp.array, bs)
    else (if encoding == 5 then ok (AbbrevOp.blob, bs) else element_encoding encoding bs)

unfoldable pub read_op : BitStream → Result (AbbrevOp × BitStream)
read_op bs = do
  (is_literal, bs1) ← read bs 1
  if is_literal == 0
      then (do (encoding, bs2) ← read bs1 3; op_encoding encoding bs2)
      else read_literal bs1

-- The element of an array takes the next of the ops, of which `left` are left with the array's own:
-- behind the last one it is written out of the array.
abbrev pub read_array_ops :
    ℕ
    → (BitStream → Result (List AbbrevOp × BitStream))
    → BitStream
    → Result (List AbbrevOp × BitStream)
read_array_ops left read_rest bs = do
  (elt, bs1) ← read_element_op bs
  assert (ltb 1 left)
  (ops, bs2) ← read_rest bs1
  ok (AbbrevOp.array ∷ elt ∷ ops, bs2)

-- The loop, by the number of ops that are left.
unfoldable pub read_ops : ℕ → BitStream → Result (List AbbrevOp × BitStream)
unfolding read_op read_element_op
read_ops zero bs = ok ([], bs)
read_ops (suc zero) bs = do
  (op, bs1) ← read_op bs
  elim op [
    | AbbrevOp.array ↦ read_array_ops 1 (λ bs2. ok ([], bs2)) bs1
    | other ↦ ok (other ∷ [], bs1)
  ]
read_ops (suc (suc left)) bs = do
  (op, bs1) ← read_op bs
  elim op [
    | AbbrevOp.array ↦ read_array_ops (left + 2) (λ bs2. read_ops left bs2) bs1
    | other ↦ read_ops (suc left) bs1 >>= λ (ops, bs2). ok (other ∷ ops, bs2)
  ]

-- pn_abbrev_read.
unfoldable pub read_definition : Bool → Abbrevs → BitStream → Result (Abbrevs × BitStream)
unfolding read_ops allocate write_ops
read_definition is_last abbrevs bs = do
  (num_ops, bs1) ← read_vbr bs 5
  a ← allocate is_last abbrevs num_ops
  (ops, bs2) ← read_ops num_ops bs1
  ok (write_last a ops, bs2)
