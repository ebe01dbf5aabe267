-- ===== src/Builtins/Search.antt =====
-- src/pn_builtins.h: the search of NACL_IRT_MEMORY_MMAP for a run of pages that are not mapped.
use pnacl_c.Base.{
  ltb, ltb→lt, ℕ, zero, suc, ◌+◌, ◌-◌, ◌*◌, ◌≤◌, ◌<◌, ◌≡◌, refl, true, false, not, ◌&&◌,
  if◌then◌else◌, ◌==◌, ==_iff, ==_ne, Option, none, some, Result, ok, ◌>>=◌, inl, inr, Bool-cases,
  arith,
}
use pnacl_c.BitSet.{BitSet, num_words, is_set}
use pnacl_c.BitSet.Laws.{member, is_set-member}

-- The loop by the number of pages ahead of `i`.
unfoldable pub search : ℕ → BitSet → ℕ → ℕ → ℕ → ℕ → Result (Option ℕ)
search zero words pages i consecutive page_start = ok none
search (suc ahead) words pages i consecutive page_start = is_set words i >>= λ mapped.
    let consecutive' = if mapped then 0 else consecutive + 1 in
    let page_start' = if not mapped && (consecutive == 0) then i else page_start in
    let more = search ahead words pages (i + 1) consecutive' page_start' in
    if not mapped && (consecutive' == pages) then ok (some page_start') else more

-- A run of pages none of which is mapped.
abbrev pub IsFree : BitSet → ℕ → ℕ → Type 0
IsFree words start n = (i : ℕ) → start ≤ i → i < start + n → member words i ≡ false

-- The first of the runs of `pages` pages from `first` on, if it ends before `last`.
pub data FirstFit (words : BitSet) (first last pages : ℕ) : Option ℕ → Type 0 where
  found :
      {start : ℕ}
      → first ≤ start
      → start + pages ≤ last
      → IsFree words start pages
      → ((t : ℕ) → first ≤ t → IsFree words t pages → start ≤ t)
      → FirstFit words first last pages (some start)
  full :
      ((t : ℕ) → first ≤ t → IsFree words t pages → last < t + pages)
      → FirstFit words first last pages none

-- What the loop keeps: the run that ends at `i`, behind which no run starts before.
record Run (words : BitSet) (first pages i consecutive page_start : ℕ) : Type 0 where
  start : 1 ≤ consecutive → page_start + consecutive ≡ i
  above : first + consecutive ≤ i
  short : consecutive < pages
  free : (j : ℕ) → i ≤ j + consecutive → j < i → member words j ≡ false
  least : (t : ℕ) → first ≤ t → (free : IsFree words t pages) → i ≤ t + consecutive

module _ (words : BitSet) (first pages : ℕ) where
  over :
      (i c s : ℕ)
      → member words i ≡ true
      → Run words first pages i c s
      → Run words first pages (i + 1) 0 s
  over i c s mapped r = record {
    start = λ h. absurd (omega arith);
    above = omega (arith, r.above);
    short = omega (arith, r.short);
    free = λ j h k. absurd (omega arith);
    least = λ t h free. elim (Bool-cases (ltb t (i + 1))) [
      | inl e ↦
          let unmapped =
            free i (omega (arith, ltb→lt t (i + 1) e)) (omega (arith, r.least t h free, r.short)) in
          cc
      | inr e ↦ ground arith
    ];
  }

  start_of : (i c s : ℕ) → Run words first pages i c s → (if c == 0 then i else s) + c ≡ i
  start_of i zero s r = omega arith
  start_of i (suc c) s r = ground (arith, r.start (omega arith))

  free_up_to :
      (i c s j : ℕ)
      → member words i ≡ false
      → Run words first pages i c s
      → i ≤ j + c
      → j ≤ i
      → member words j ≡ false
  free_up_to i c s j unmapped r h k = elim (Bool-cases (j == i)) [
    | inl e ↦ rw ((==_iff j i).0 e) unmapped
    | inr e ↦ r.free j h (omega (arith, ==_ne j i e))
  ]

  longer :
      (i c s : ℕ)
      → member words i ≡ false
      → c + 1 < pages
      → Run words first pages i c s
      → Run words first pages (i + 1) (c + 1) (if c == 0 then i else s)
  longer i c s unmapped h r = record {
    start = λ k. omega (arith, start_of i c s r);
    above = omega (arith, r.above);
    short = h;
    free = λ j h k. free_up_to i c s j unmapped r (omega arith) (omega arith);
    least = λ t h free. omega (arith, r.least t h free);
  }

  here :
      {s : ℕ} (last i c start : ℕ)
      → member words i ≡ false
      → i < last
      → c + 1 ≡ pages
      → Run words first pages i c s
      → start + c ≡ i
      → FirstFit words first last pages (some start)
  here last i c start unmapped h e r begins =
      found (omega (arith, r.above)) (omega arith)
        (λ j k l. free_up_to i c _ j unmapped r (omega arith) (omega arith))
        (λ t k free. omega (arith, r.least t k free))

  loop_fits :
      (ahead last i c s : ℕ)
      → i + ahead ≡ last
      → last ≤ 32 * num_words words
      → Run words first pages i c s
      → (r : Option ℕ) × (search ahead words pages i c s ≡ ok r) × FirstFit words first last pages r
  unfolding search
  loop_fits zero last i c s end room run =
      (none, refl, full (λ t h free. omega (arith, run.least t h free, run.short)))
  loop_fits (suc ahead) last i c s end room run = elim (Bool-cases (member words i)) [
    | inl mapped ↦
        let rest = loop_fits ahead last (i + 1) 0 s (omega arith) room (over i c s mapped run) in
        (rest.0, rw (is_set-member words i (omega arith), mapped) rest.1, rest.2)
    | inr unmapped ↦ elim (Bool-cases ((c + 1) == pages)) [
      | inl e ↦ (
        some (if c == 0 then i else s),
        rw (is_set-member words i (omega arith), unmapped, e) refl,
        here last i c _ unmapped (omega arith) ((==_iff (c + 1) pages).0 e) run
            (start_of i c s run),
      )
      | inr e ↦
          let rest =
            loop_fits ahead last (i + 1) (c + 1) (if c == 0 then i else s) (omega arith) room
              (longer i c s unmapped (omega (arith, run.short, ==_ne (c + 1) pages e)) run) in
          (rest.0, rw (is_set-member words i (omega arith), unmapped, e) rest.1, rest.2)
    ]
  ]

-- On a set with room for the pages from `first` to `last`, a search for at least one page ends. If
-- there is a run of that many pages between the two, none of them mapped, it finds the first such
-- run, and otherwise it finds none.
pub search-FirstFit :
    (words : BitSet) (first last pages : ℕ)
    → 1 ≤ pages
    → first ≤ last
    → last ≤ 32 * num_words words
    → (r : Option ℕ) × (search (last - first) words pages first 0 0 ≡ ok r)
      × FirstFit words first last pages r
search-FirstFit words first last pages one order room =
    loop_fits words first pages (last - first) last first 0 0 (omega arith) room record {
      start = λ h. absurd (omega arith);
      above = omega arith;
      short = one;
      free = λ j h k. absurd (omega arith);
      least = λ t h free. omega arith;
    }
