-- ===== src/Uses/Words.antt =====
-- The listing of the bits that are set.
use pnacl_c.Base.{
  ℕ, zero, suc, ◌+◌, ◌-◌, ◌*◌, ◌/◌, ◌%◌, ◌^◌, ◌≤◌, ◌<◌, ◌≡◌, inl, inr, ap, ◌∙◌, arith, bit_and,
  true, if◌then◌else◌, ltb, ltb→lt, ◌==◌, ==_iff, ==_ne, Bool-cases, List, [],
}
use native.Mathlib.Nat.{mod-eq_of_lt}
use pnacl_c.Base.Bitwise.{two-pow_suc, two-pow_pos}
use pnacl_c.Base.BitAt.{bit_at, bit_at_le, bit_at-zero, bit_and-pow}
use pnacl_c.Machine.Atomic.{clz, ctz}
use pnacl_c.Liveness.Push.{Among, there}
use pnacl_c.PredBbs.Fill.{Among-cons, Among-first}
use pnacl_c.Uses.{word_bits, last_bit}

-- No bit is set below the first one, or above the last one.
ctz_le : (w k x : ℕ) → bit_at k x ≡ 1 → ctz w x ≤ k
unfolding ctz bit_at
ctz_le zero k x h = omega arith
ctz_le (suc w) zero x h = ground arith
ctz_le (suc w) (suc k) x h = ground (arith, ctz_le w k (x / 2) h)

bit_at-small : (k x : ℕ) → x < 2 ^ k → bit_at k x ≡ 0
unfolding bit_at
bit_at-small zero x h = omega arith
bit_at-small (suc k) x h = bit_at-small k (x / 2) (omega (arith, two-pow_suc k))

clz-lt : (w k x : ℕ) → k < w → bit_at k x ≡ 1 → k + clz w x < w
unfolding clz
clz-lt zero k x h b = absurd (omega arith)
clz-lt (suc w) k x h b = elim (Bool-cases (ltb x (2 ^ w))) [
  | inl e ↦ rw e (omega (arith, clz-lt w k x (below e) b))
  | inr e ↦ rw e (omega arith)
]
  where
    below : ltb x (2 ^ w) ≡ true → k < w
    below e = elim (Bool-cases (k == w)) [
      | inl q ↦ omega (
        arith,
        b,
        ap (λ (j : ℕ). bit_at j x) ((==_iff k w).0 q),
        bit_at-small w x (ltb→lt x (2 ^ w) e),
      )
      | inr q ↦ omega (arith, ==_ne k w q)
    ]

-- A bit of the word.
SetBit : ℕ → ℕ → ℕ → ℕ → ℕ → Type 0
SetBit base word b n v = (k : ℕ) × (b ≤ k) × (k < b + n) × (bit_at k word ≡ 1) × (v ≡ base + k)

tested : (word b : ℕ) → (bit_and word (2 ^ b) == 0) ≡ (bit_at b word == 0)
tested word b = rw (bit_and-pow b word) (by_bit (bit_at b word) (bit_at_le b word) (two-pow_pos b))
  where
    by_bit : (c : ℕ) → c ≤ 1 → 1 ≤ 2 ^ b → (c * 2 ^ b == 0) ≡ (c == 0)
    by_bit zero h k = ground arith
    by_bit (suc zero) h k = ground arith
    by_bit (suc (suc c)) h k = absurd (omega arith)

word_bits-to :
    (base word b n v : ℕ)
    → base + b + n ≤ 2 ^ 32
    → Among v (word_bits base word b n)
    → SetBit base word b n v
unfolding word_bits SetBit
word_bits-to base word b zero v room h = elim h [ ]
word_bits-to base word b (suc n) v room h = elim (Bool-cases (bit_at b word == 0)) [
  | inl e ↦ later (word_bits-to base word (b + 1) n v (omega arith) (rw (tested word b, e) at h))
  | inr e ↦
      elim (Among-cons v ((base + b) % 2 ^ 32) (word_bits base word (b + 1) n)
        (rw (tested word b, e) at h)) [
          | inl q ↦ (
            b,
            omega arith,
            omega arith,
            omega (arith, bit_at_le b word, ==_ne (bit_at b word) 0 e),
            q ∙ mod-eq_of_lt (omega arith),
          )
          | inr m ↦ later (word_bits-to base word (b + 1) n v (omega arith) m)
        ]
]
  where
    later : SetBit base word (b + 1) n v → SetBit base word b (suc n) v
    later (k, l, m, c, q) = (k, omega arith, omega arith, c, q)

word_bits-from :
    (base word b n v : ℕ)
    → base + b + n ≤ 2 ^ 32
    → SetBit base word b n v
    → Among v (word_bits base word b n)
unfolding word_bits SetBit
word_bits-from base word b zero v room (k, l, m, c, q) = absurd (omega arith)
word_bits-from base word b (suc n) v room (k, l, m, c, q) = elim (Bool-cases (bit_at b word == 0)) [
  | inl e ↦
      rw (tested word b, e)
        (word_bits-from base word (b + 1) n v (omega arith) (k, past e, omega arith, c, q))
  | inr e ↦
      rw (tested word b, e)
        (elim (Bool-cases (k == b)) [
          | inl same ↦ Among-first v ((base + b) % 2 ^ 32) _ (omega (arith, (==_iff k b).0 same))
          | inr apart ↦ there (
              word_bits-from base word (b + 1) n v (omega arith)
                (k, omega (arith, ==_ne k b apart), omega arith, c, q))
        ])
]
  where
    past : (bit_at b word == 0) ≡ true → b + 1 ≤ k
    past e = elim (Bool-cases (k == b)) [
      | inl same ↦ omega (
        arith,
        c,
        ap (λ (j : ℕ). bit_at j word) ((==_iff k b).0 same),
        (==_iff (bit_at b word) 0).0 e,
      )
      | inr apart ↦ omega (arith, ==_ne k b apart)
    ]

-- The bits of one word, all of which are listed.
unfoldable pub first_word : ℕ → ℕ → List ℕ
first_word base word =
    if word == 0 then [] else word_bits base word (ctz 32 word) (last_bit word + 1 - ctz 32 word)

last_bit_le : (word : ℕ) → last_bit word ≤ 31
last_bit_le word = ground arith

ctz-bound : (w x : ℕ) → ctz w x ≤ w
unfolding ctz
ctz-bound zero x = omega arith
ctz-bound (suc w) x = ground (arith, ctz-bound w (x / 2))

last_bit_lem : (word k : ℕ) → k + clz 32 word < 32 → k ≤ last_bit word
last_bit_lem word k h = ground arith

pub first_word-to :
    (base word v : ℕ)
    → base + 32 ≤ 2 ^ 32
    → Among v (first_word base word)
    → (k : ℕ) × (k < 32) × (bit_at k word ≡ 1) × (v ≡ base + k)
unfolding first_word SetBit
first_word-to base word v room h = elim (Bool-cases (word == 0)) [
  | inl e ↦ elim (rw e at h) [ ]
  | inr e ↦
      let (k, l, m, c, q) =
        word_bits-to base word (ctz 32 word) (last_bit word + 1 - ctz 32 word) v
          (omega (arith, ctz-bound 32 word, last_bit_le word)) (rw e at h) in
      (k, omega (arith, l, m, last_bit_le word), c, q)
]

pub first_word-from :
    (base word v k : ℕ)
    → base + 32 ≤ 2 ^ 32
    → k < 32
    → bit_at k word ≡ 1
    → v ≡ base + k
    → Among v (first_word base word)
unfolding first_word SetBit
first_word-from base word v k room h c q = elim (Bool-cases (word == 0)) [
  | inl e ↦
      absurd (omega (arith, c, ap (λ (x : ℕ). bit_at k x) ((==_iff word 0).0 e), bit_at-zero k))
  | inr e ↦ rw e (
      word_bits-from base word (ctz 32 word) (last_bit word + 1 - ctz 32 word) v
        (omega (arith, ctz-bound 32 word, last_bit_le word))
        (
          k,
          ctz_le 32 k word c,
          omega (arith, ctz_le 32 k word c, last_bit_lem word k (clz-lt 32 k word h c)),
          c,
          q,
        ))
]
