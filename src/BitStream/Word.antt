-- ===== src/BitStream/Word.antt =====
-- The word buffer of the bit cursor: what it holds, taking bits of it, and refilling it.
use pnacl_c.Base.{ℕ, ◌+◌, ◌-◌, ◌*◌, ◌/◌, ◌%◌, ◌^◌, ◌≤◌, ◌<◌, ◌≡◌, refl, sym, ◌∙◌, arith}
use pnacl_c.Base.{◌⊎◌, inl, inr, ltb, ◌==◌, Bool-cases, tests, le→leb, bit_and, ==_iff}
use pnacl_c.Base.{true, false, if◌then◌else◌}
use pnacl_c.Base.{Result, ok}
use pnacl_c.Base.Bitwise.{bit_and_mask, div-mod_pow, mod-mod_pow, div-pow-lt}
use pnacl_c.BitStream.{BitStream, load_u32, read_frac_bits, fill_curword, init}
use pnacl_c.BitStream.Spec.{bits_at, bits_at-mod, bits_at-div, bits_at_word}
use native.Mathlib.Nat.{mod-eq_of_lt, div-eq_of_lt, div-le_self, le_trans}
use Prim.Native.Nat.{suc-le-suc}

-- The word in the buffer is the stream's next `curword_bits` bits, which end at a byte of the
-- stream. Junk above them is possible only at the end, where the next refill has nothing.
pub record IsValid (bs : BitStream) : Type 0 where
  pub small : bs.data_len < 2 ^ 29
  pub few : bs.curword_bits ≤ 32
  pub word : bs.curword < 2 ^ 32
  pub within : bs.bit_offset + bs.curword_bits ≤ 8 * bs.data_len
  pub whole : (bs.bit_offset + bs.curword_bits) % 8 ≡ 0
  pub buffered : bs.curword % 2 ^ bs.curword_bits ≡ bits_at bs.bytes bs.bit_offset bs.curword_bits
  pub clean :
      (bs.curword < 2 ^ bs.curword_bits) ⊎ (bs.bit_offset + bs.curword_bits ≡ 8 * bs.data_len)

-- A read of `n` bits that returned the next `n` bits of the stream and went on behind them.
pub record Reads (bs : BitStream) (n : ℕ) (result : Result (ℕ × BitStream)) : Type 0 where
  pub after : BitStream
  pub returns : result ≡ ok (bits_at bs.bytes bs.bit_offset n, after)
  pub valid : IsValid after
  pub same_bytes : after.bytes ≡ bs.bytes
  pub same_len : after.data_len ≡ bs.data_len
  pub moved : after.bit_offset ≡ bs.bit_offset + n

pub init-IsValid : (bytes : ℕ → ℕ) (len : ℕ) → len < 2 ^ 29 → IsValid (init bytes len)
unfolding init bits_at
init-IsValid bytes len h = ground arith

-- The two branches on 32 bits agree with one formula, which C could not shift by.
taken : (x n : ℕ) → x < 2 ^ 32 → (if n == 32 then x else bit_and x (2 ^ n - 1)) ≡ x % 2 ^ n
taken x n h = elim (Bool-cases (n == 32)) [
  | inl e ↦ rw e (rw ((==_iff n 32).0 e) (sym (mod-eq_of_lt h)))
  | inr e ↦ rw e (bit_and_mask n x)
]

rest : (x n : ℕ) → x < 2 ^ 32 → (if n == 32 then 0 else x / 2 ^ n) ≡ x / 2 ^ n
rest x n h = elim (Bool-cases (n == 32)) [
  | inl e ↦ rw e (rw ((==_iff n 32).0 e) (sym (div-eq_of_lt h)))
  | inr e ↦ rw e
]

module _ (bs : BitStream) (n k : ℕ) (v : IsValid bs) (e : bs.curword_bits ≡ n + k) where
  drained : BitStream
  drained = record bs {
    curword = bs.curword / 2 ^ n;
    curword_bits = k;
    bit_offset = bs.bit_offset + n;
  }

  buffered_sum : bs.curword % 2 ^ (n + k) ≡ bits_at bs.bytes bs.bit_offset (n + k)
  buffered_sum = rw e at v.buffered

  drained-IsValid : IsValid drained
  unfolding drained
  drained-IsValid = record {
    small = v.small;
    few = omega (arith, v.few);
    word = le_trans (suc-le-suc (div-le_self bs.curword (2 ^ n))) v.word;
    within = omega (arith, v.within);
    whole = omega (arith, v.whole);
    buffered =
        rw (div-mod_pow bs.curword n k, buffered_sum) (bits_at-div bs.bytes n k bs.bit_offset);
    clean = still_clean v.clean;
  }
    where
      still_clean :
          (bs.curword < 2 ^ bs.curword_bits) ⊎ (bs.bit_offset + bs.curword_bits ≡ 8 * bs.data_len)
          → (bs.curword / 2 ^ n < 2 ^ k) ⊎ (bs.bit_offset + n + k ≡ 8 * bs.data_len)
      still_clean (inl h) = inl (div-pow-lt bs.curword n k (rw e at h))
      still_clean (inr h) = inr (omega arith)

  low_bits : bs.curword % 2 ^ n ≡ bits_at bs.bytes bs.bit_offset n
  low_bits =
      sym (mod-mod_pow bs.curword n k) ∙ rw buffered_sum (bits_at-mod bs.bytes n k bs.bit_offset)

  kept : bs.curword_bits - n ≡ k
  kept = omega arith

  no_wrap : (bs.bit_offset + n) % 2 ^ 32 ≡ bs.bit_offset + n
  no_wrap = mod-eq_of_lt (omega (arith, v.within, v.small))

  pub read_frac_bits-Reads : Reads bs n (read_frac_bits bs n)
  unfolding read_frac_bits drained
  read_frac_bits-Reads = record {
    after = drained;
    returns = rw (
      le→leb n 32 (omega (arith, v.few)),
      le→leb n bs.curword_bits (omega arith),
      taken bs.curword n v.word,
      rest bs.curword n v.word,
      low_bits,
      kept,
      no_wrap,
    );
    valid = drained-IsValid;
    same_bytes = refl;
    same_len = refl;
    moved = refl;
  }

-- A refill at a byte of the stream leaves a valid buffer, with a whole word or all that is left.
pub record Fills (bs : BitStream) (result : Result BitStream) : Type 0 where
  pub after : BitStream
  pub returns : result ≡ ok after
  pub valid : IsValid after
  pub same_bytes : after.bytes ≡ bs.bytes
  pub same_len : after.data_len ≡ bs.data_len
  pub same_offset : after.bit_offset ≡ bs.bit_offset
  pub most : (after.curword_bits ≡ 32) ⊎ (after.bit_offset + after.curword_bits ≡ 8 * bs.data_len)

load_u32-lt : (bytes : ℕ → ℕ) (o : ℕ) → load_u32 bytes o < 2 ^ 32
unfolding load_u32
load_u32-lt bytes o = omega arith

load_u32-bits_at :
    (bytes : ℕ → ℕ) (o n k : ℕ) → n + k ≡ 32 → load_u32 bytes o % 2 ^ n ≡ bits_at bytes (8 * o) n
unfolding load_u32
load_u32-bits_at bytes o n k e = rw (← bits_at_word bytes o, ← e) (bits_at-mod bytes n k (8 * o))

module _ (bs : BitStream) (o : ℕ) (at : bs.bit_offset ≡ 8 * o) (small : bs.data_len < 2 ^ 29)
    (word : bs.curword < 2 ^ 32) where
  byte_of : bs.bit_offset / 8 ≡ o
  byte_of = omega arith

  filled : ℕ → BitStream
  filled bits = record bs { curword_bits = bits; curword = load_u32 bs.bytes o }

  filled-IsValid :
      (bits k : ℕ)
      → bits + k ≡ 32
      → bits % 8 ≡ 0
      → 8 * o + bits ≤ 8 * bs.data_len
      → (bits ≡ 32) ⊎ (8 * o + bits ≡ 8 * bs.data_len)
      → IsValid (filled bits)
  unfolding filled
  filled-IsValid bits k e h lim m = record {
    small = small;
    few = omega arith;
    word = load_u32-lt bs.bytes o;
    within = omega arith;
    whole = omega arith;
    buffered = rw at (load_u32-bits_at bs.bytes o bits k e);
    clean = ends m;
  }
    where
      ends :
          (bits ≡ 32) ⊎ (8 * o + bits ≡ 8 * bs.data_len)
          → (load_u32 bs.bytes o < 2 ^ bits) ⊎ (bs.bit_offset + bits ≡ 8 * bs.data_len)
      ends (inl h) = inl (rw h (load_u32-lt bs.bytes o))
      ends (inr h) = inr (omega arith)

  emptied-IsValid : o ≡ bs.data_len → IsValid (record bs { curword_bits = 0 })
  unfolding bits_at
  emptied-IsValid e = record {
    small = small;
    few = omega arith;
    word = word;
    within = omega arith;
    whole = omega arith;
    buffered = omega arith;
    clean = inr (omega arith);
  }

  bits_left : ℕ
  bits_left = (bs.data_len - o) * 8

  far : ltb (o + 4) bs.data_len ≡ true → fill_curword bs ≡ ok (filled 32)
  unfolding fill_curword filled
  far h = rw (byte_of, h)

  near :
      o ≤ bs.data_len
      → ltb (o + 4) bs.data_len ≡ false
      → fill_curword bs
        ≡ ok (if bits_left == 0 then record bs { curword_bits = 0 } else filled bits_left)
  unfolding fill_curword filled bits_left
  near lim h = ground (arith, byte_of)

  pub fill_curword-Fills : o ≤ bs.data_len → Fills bs (fill_curword bs)
  unfolding filled bits_left
  fill_curword-Fills lim = elim (Bool-cases (ltb (o + 4) bs.data_len)) [
    | inl h ↦ record {
      after = filled 32;
      returns = far h;
      valid = filled-IsValid 32 0 refl refl (omega tests) (inl refl);
      same_bytes = refl;
      same_len = refl;
      same_offset = refl;
      most = inl refl;
    }
    | inr h ↦ elim (Bool-cases (bits_left == 0)) [
      | inl z ↦ record {
        after = record bs { curword_bits = 0 };
        returns = rw (near lim h, z);
        valid = emptied-IsValid (ground arith);
        same_bytes = refl;
        same_len = refl;
        same_offset = refl;
        most = inr (ground arith);
      }
      | inr nz ↦ record {
        after = filled bits_left;
        returns = rw (near lim h, nz);
        valid =
            filled-IsValid bits_left (32 - bits_left) (ground arith) (omega arith) (omega arith)
              (inr (omega arith));
        same_bytes = refl;
        same_len = refl;
        same_offset = refl;
        most = inr (omega arith);
      }
    ]
  ]
