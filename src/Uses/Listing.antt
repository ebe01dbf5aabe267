-- ===== src/Uses/Listing.antt =====
-- The list of the numbers of a set.
use pnacl_c.Base.{
  ℕ, suc, ◌+◌, ◌-◌, ◌*◌, ◌/◌, ◌%◌, ◌^◌, ◌≤◌, ◌<◌, ◌≡◌, ◌⊎◌, inl, inr, refl, sym, ap, ◌∙◌, arith,
  true, false, ◌==◌, ==_iff, ltb, ltb→lt, Bool-cases, List, [], ◌∷◌, ◌++◌,
}
use pnacl_c.Base.BitAt.{bit_at}
use pnacl_c.BitSet.{BitSet, num_words}
use pnacl_c.BitSet.Laws.{member}
use pnacl_c.Liveness.Push.{Among, there}
use pnacl_c.PredBbs.Fill.{Among-cons, Among-first}
use pnacl_c.Uses.{list_uses}
use pnacl_c.Uses.Words.{first_word, first_word-to, first_word-from}

-- A number of the set, which the words have room for.
abbrev pub Listed : ℕ → BitSet → ℕ → Type 0
Listed base words v =
    (i : ℕ) × (i < 32 * num_words words) × (member words i ≡ true) × (v ≡ base + i)

member-first :
    (word : ℕ) (words : BitSet) (i : ℕ) → i < 32 → member (word ∷ words) i ≡ (bit_at i word == 1)
unfolding member
member-first word words i h = rw (row i h, column i h) refl
  where
    row : (i : ℕ) → i < 32 → i / 32 ≡ 0
    row i h = omega arith

    column : (i : ℕ) → i < 32 → i % 32 ≡ i
    column i h = omega arith

member-later : (word : ℕ) (words : BitSet) (i : ℕ) → member (word ∷ words) (32 + i) ≡ member words i
unfolding member
member-later word words i = rw (row i, column i) refl
  where
    row : (i : ℕ) → (32 + i) / 32 ≡ suc (i / 32)
    row i = omega arith

    column : (i : ℕ) → (32 + i) % 32 ≡ i % 32
    column i = omega arith

Among-append : (v : ℕ) (l m : List ℕ) → Among v (l ++ m) → Among v l ⊎ Among v m
Among-append v [] m h = inr h
Among-append v (x ∷ l) m h = elim (Among-cons v x (l ++ m) h) [
  | inl e ↦ inl (Among-first v x l e)
  | inr k ↦ elim (Among-append v l m k) [ inl q ↦ inl (there q) | inr q ↦ inr q ]
]

Among-left : (v : ℕ) (l m : List ℕ) → Among v l → Among v (l ++ m)
Among-left v [] m h = elim h [ ]
Among-left v (x ∷ l) m h = elim (Among-cons v x l h) [
  | inl e ↦ Among-first v x (l ++ m) e
  | inr k ↦ there (Among-left v l m k)
]

Among-right : (v : ℕ) (l m : List ℕ) → Among v m → Among v (l ++ m)
Among-right v [] m h = h
Among-right v (x ∷ l) m h = there (Among-right v l m h)

pub list_uses-to :
    (base : ℕ) (words : BitSet) (v : ℕ)
    → base + 32 * num_words words ≤ 2 ^ 32
    → Among v (list_uses base words)
    → Listed base words v
unfolding list_uses first_word
list_uses-to base [] v room h = elim h [ ]
list_uses-to base (word ∷ words) v room h =
    elim (Among-append v (first_word base word) (list_uses (base + 32) words) h) [
      | inl m ↦
          let (k, l, c, q) = first_word-to base word v (omega arith) m in
          (
            k,
            omega (arith, l),
            rw (member-first word words k l) ((==_iff (bit_at k word) 1).1 c),
            q,
          )
      | inr m ↦
          let (i, l, c, q) = list_uses-to (base + 32) words v (omega arith) m in
          (32 + i, omega (arith, l), rw (member-later word words i) c, omega (arith, q))
    ]

pub list_uses-from :
    (base : ℕ) (words : BitSet) (v : ℕ)
    → base + 32 * num_words words ≤ 2 ^ 32
    → Listed base words v
    → Among v (list_uses base words)
unfolding list_uses first_word
list_uses-from base [] v room (i, l, c, q) = absurd (omega arith)
list_uses-from base (word ∷ words) v room (i, l, c, q) = elim (Bool-cases (ltb i 32)) [
  | inl e ↦ Among-left v (first_word base word) (list_uses (base + 32) words) (
      first_word-from base word v i (omega arith) (ltb→lt i 32 e)
        ((==_iff (bit_at i word) 1).0 (sym (member-first word words i (ltb→lt i 32 e)) ∙ c)) q)
  | inr e ↦ Among-right v (first_word base word) (list_uses (base + 32) words) (
      list_uses-from (base + 32) words v (omega arith) (
        i - 32,
        ground arith,
        sym (member-later word words (i - 32)) ∙ ap (member (word ∷ words)) (whole e) ∙ c,
        ground arith,
      ))
]
  where
    whole : ltb i 32 ≡ false → 32 + (i - 32) ≡ i
    whole e = ground arith
