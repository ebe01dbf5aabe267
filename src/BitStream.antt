-- ===== src/BitStream.antt =====
-- src/pn_bitstream.h: the reader of the bitcode file, a cursor over bits that buffers one 32-bit word.
pub mod Spec
pub mod Word
pub mod Read
pub mod Seek
mod Tests
use pnacl_c.Base.{ℕ, zero, suc, ◌+◌, ◌-◌, ◌*◌, ◌/◌, ◌%◌, ◌^◌, bit_and, bit_or}
use pnacl_c.Base.{Bool, true, false, if◌then◌else◌, ltb, leb, ◌==◌, ◌||◌, ◌&&◌}
use pnacl_c.Base.{Result, ok, fatal, fault, stuck, ◌>>=◌, ◌>>◌, check, assert}

-- `bytes` is the memory from `data` on; what lies behind the first `data_len` bytes is not the
-- stream's, and a word that is loaded near the end reaches into it.
pub record BitStream : Type 0 where
  pub bytes : ℕ → ℕ
  pub data_len : ℕ
  pub curword : ℕ
  pub curword_bits : ℕ
  pub bit_offset : ℕ

pub init : (ℕ → ℕ) → ℕ → BitStream
init bytes data_len = record {
  bytes = bytes;
  data_len = data_len;
  curword = 0;
  curword_bits = 0;
  bit_offset = 0;
}

-- *(uint32_t*)(data + o) on a little-endian machine.
unfoldable pub load_u32 : (ℕ → ℕ) → ℕ → ℕ
load_u32 bytes o =
    bytes o % 256
    + 256 * (bytes (o + 1) % 256)
    + 65536 * (bytes (o + 2) % 256)
    + 16777216 * (bytes (o + 3) % 256)

unfoldable pub read_frac_bits : BitStream → ℕ → Result (ℕ × BitStream)
read_frac_bits bs num_bits = do
  assert (leb num_bits 32)
  assert (leb num_bits bs.curword_bits)
  let result = if num_bits == 32 then bs.curword else bit_and bs.curword (2 ^ num_bits - 1)
  let rest = if num_bits == 32 then 0 else bs.curword / 2 ^ num_bits
  ok (
    result,
    record bs {
      curword = rest;
      curword_bits = bs.curword_bits - num_bits;
      bit_offset = (bs.bit_offset + num_bits) % 2 ^ 32;
    },
  )

-- Near the end fewer than 32 bits are there, and none leaves the old word in place.
unfoldable pub fill_curword : BitStream → Result BitStream
fill_curword bs =
    let byte_offset = bs.bit_offset / 8 in
    let word = load_u32 bs.bytes byte_offset in
    if ltb (byte_offset + 4) bs.data_len
    then ok (record bs { curword_bits = 32; curword = word })
    else do
      check (leb byte_offset bs.data_len)
      let bits = (bs.data_len - byte_offset) * 8
      let word' = if bits == 0 then bs.curword else word
      assert (leb bits 32)
      ok (record bs { curword_bits = bits; curword = word' })

-- The part of a read that goes on in the next word, after `bits_read` bits of `result`.
unfoldable pub read_rest : BitStream → ℕ → ℕ → ℕ → Result (ℕ × BitStream)
read_rest bs result bits_read bits_left = do
  bs' ← fill_curword (record bs { bit_offset = (bs.bit_offset + bits_read) % 2 ^ 32 })
  check (leb bits_left bs'.curword_bits)
  (more, bs'') ← read_frac_bits bs' bits_left
  ok (bit_or result (more * 2 ^ bits_read % 2 ^ 32), bs'')

unfoldable pub read : BitStream → ℕ → Result (ℕ × BitStream)
unfolding read_rest
read bs num_bits = do
  assert (leb num_bits 32)
  if leb num_bits bs.curword_bits
      then read_frac_bits bs num_bits
      else read_rest bs bs.curword bs.curword_bits (num_bits - bs.curword_bits)

-- PN_CHECK(result <= UINT32_MAX || the top 33 bits are set).
abbrev fits_u32 : ℕ → Bool
fits_u32 result =
    ltb result (2 ^ 32) || (ltb 0 (bit_and result 0x80000000) && result / 2 ^ 32 == 0xffffffff)

-- The loop of the three VBR readers: `shift` counts the bits of `result`, a uint64_t, that are set;
-- fuel is for the rounds.
unfoldable pub vbr_loop : ℕ → BitStream → ℕ → ℕ → ℕ → ℕ → ℕ → Result (ℕ × BitStream)
vbr_loop zero bs num_bits lo_mask hi_mask result shift = stuck
vbr_loop (suc fuel) bs num_bits lo_mask hi_mask result shift = do
  check (ltb shift 64)
  (piece, bs') ← read bs num_bits
  let result' = bit_or result (bit_and piece lo_mask * 2 ^ shift % 2 ^ 64)
  let more = vbr_loop fuel bs' num_bits lo_mask hi_mask result' (shift + (num_bits - 1))
  if bit_and piece hi_mask == 0 then ok (result', bs') else more

-- A round takes a bit at least.
abbrev vbr_fuel : BitStream → ℕ
vbr_fuel bs = suc (8 * bs.data_len)

-- The end of the two 32-bit readers: the check, and the cut to the uint32_t that is returned.
unfoldable pub narrow : ℕ × BitStream → Result (ℕ × BitStream)
narrow (result, bs) = do check (fits_u32 result); ok (result % 2 ^ 32, bs)

unfoldable pub read_vbr6 : BitStream → Result (ℕ × BitStream)
unfolding narrow
read_vbr6 bs = do
  (piece, bs') ← read bs 6
  if bit_and piece 32 == 0
      then ok (piece, bs')
      else (vbr_loop (vbr_fuel bs) bs' 6 31 32 (bit_and piece 31) 5 >>= narrow)

-- `(uint64_t)(1 << k)`: the int 1 << 31 is negative, and the cast extends its sign.
abbrev int_bit : ℕ → ℕ
int_bit k = if k == 31 then 2 ^ 64 - 2 ^ 31 else 2 ^ k

unfoldable pub read_vbr : BitStream → ℕ → Result (ℕ × BitStream)
unfolding narrow
read_vbr bs num_bits = if num_bits == 6 then read_vbr6 bs else do
  (piece, bs') ← read bs num_bits
  -- 1 << -1
  assert (ltb 0 num_bits)
  let hi_mask = int_bit (num_bits - 1)
  if bit_and piece hi_mask == 0
      then ok (piece, bs')
      else (vbr_loop (vbr_fuel bs) bs' num_bits (hi_mask - 1) hi_mask (bit_and piece (hi_mask - 1))
            (num_bits - 1)
          >>= narrow)

-- Here `piece` and the masks are uint32_t.
unfoldable pub read_vbr_uint64 : BitStream → ℕ → Result (ℕ × BitStream)
read_vbr_uint64 bs num_bits = do
  (piece, bs') ← read bs num_bits
  assert (ltb 0 num_bits)
  let hi_mask = 2 ^ (num_bits - 1)
  if bit_and piece hi_mask == 0
      then ok (piece, bs')
      else vbr_loop (vbr_fuel bs) bs' num_bits (hi_mask - 1) hi_mask (bit_and piece (hi_mask - 1))
          (num_bits - 1)

-- pn_align_down(n, 32) and pn_align_up(n, 32), cut to the uint32_t parameter.
abbrev align_down_32 : ℕ → ℕ
align_down_32 n = n / 32 * 32

abbrev align_up_32 : ℕ → ℕ
align_up_32 n = (n + 31) / 32 * 32 % 2 ^ 32

unfoldable pub seek_bit : BitStream → ℕ → Result BitStream
seek_bit bs bit_offset = do
  bs' ← fill_curword (record bs { bit_offset = align_down_32 bit_offset })
  let unaligned = bit_and bit_offset 31
  if unaligned == 0 then ok bs' else do (skipped, bs'') ← read_frac_bits bs' unaligned; ok bs''

pub skip_bytes : BitStream → ℕ → Result BitStream
skip_bytes bs num_bytes = seek_bit bs ((bs.bit_offset + num_bytes * 8) % 2 ^ 32)

pub align_32 : BitStream → Result BitStream
align_32 bs = seek_bit bs (align_up_32 bs.bit_offset)

pub at_end : BitStream → Bool
at_end bs = bs.bit_offset / 8 == bs.data_len
