-- ===== src/Builtins/Mapping/Wrap.antt =====
-- mmap of lengths near the end of the address space.
use pnacl_c.Base.{
  ℕ, zero, suc, ◌+◌, ◌-◌, ◌*◌, ◌/◌, ◌%◌, ◌^◌, ◌≤◌, ◌<◌, ◌≡◌, refl, Bool, true, false, if◌then◌else◌,
  le→ltb, ◌==◌, ==_iff, arith, ok, fault, Bool-cases, inl, inr, Option, none,
}
use pnacl_c.BitSet.{BitSet, num_words, set_bit, set_range}
use pnacl_c.BitSet.Laws.{member, is_set-member, with_bit, set_bit-with_bit, num_words-with_bit}
use pnacl_c.Memory.{guard_size}
use pnacl_c.Memory as Sandbox
use pnacl_c.Builtins.Search.{search, search-FirstFit, FirstFit, found, full}
use pnacl_c.Builtins.Mapping.{Heap, pagesize, align_up_page, place, map_pages}
use pnacl_c.Builtins.Mapping.Invariant.{HeapOk}
use pnacl_c.Builtins.Mapping.Laws.{pages_of}

no_zero : (c : ℕ) → ((c + 1) == 0) ≡ false
no_zero c = ground arith

-- No run of no pages is found.
search-zero :
    (ahead : ℕ) (words : BitSet) (i c s : ℕ)
    → i + ahead ≤ 32 * num_words words
    → search ahead words 0 i c s ≡ ok none
unfolding search
search-zero zero words i c s room = refl
search-zero (suc ahead) words i c s room = elim (Bool-cases (member words i)) [
  | inl e ↦
      rw (is_set-member words i (omega arith), e)
        (search-zero ahead words (i + 1) 0 s (omega arith))
  | inr e ↦
      rw (is_set-member words i (omega arith), e, no_zero c)
        (search-zero ahead words (i + 1) (c + 1) (if c == 0 then i else s) (omega arith))
]

past :
    (words : BitSet) (first : ℕ) (flag : Bool)
    → num_words words ≤ first / 32
    → set_bit words first flag ≡ fault
unfolding set_bit
past words first flag h = rw (le→ltb (first / 32) (num_words words) h) refl

-- A run of bits past the words.
set_range-fault :
    (words : BitSet) (first n : ℕ) (flag : Bool)
    → first ≤ 32 * num_words words
    → 32 * num_words words < first + n
    → set_range words first n flag ≡ fault
unfolding set_range
set_range-fault words first zero flag h k = absurd (omega arith)
set_range-fault words first (suc n) flag h k = elim (Bool-cases (first == (32 * num_words words))) [
  | inl e ↦ rw (past words first flag (ground arith)) refl
  | inr e ↦ rw (set_bit-with_bit words first flag (ground arith)) (
      set_range-fault (with_bit words first flag) (first + 1) n flag
        (ground (arith, num_words-with_bit words first flag))
        (omega (arith, num_words-with_bit words first flag)))
]

module _ (h : Heap) (len : ℕ) (good : HeapOk h)
    (below_stack : h.heap_end ≤ h.memory_stack_top) where
  whole_end : (h.heap_end % pagesize == 0) ≡ true
  whole_end = (==_iff (h.heap_end % pagesize) 0).1 good.whole_end

  -- A length in the last page of the address space is rounded to 0: the call succeeds, with the heap
  -- as it was and no page marked.
  pub map_pages-huge : 2 ^ 32 - 4096 < len → len < 2 ^ 32 → map_pages h len ≡ ok (h.heap_end, h)
  unfolding map_pages place Sandbox.check set_range
  map_pages-huge k l =
      rw
        (
          whole_end,
          nothing,
          search-zero (h.heap_end / pagesize - h.heap_start / pagesize) h.mapped_pages
              (h.heap_start / pagesize) 0 0 (omega (arith, good.ordered, good.inside, good.room)),
          whole_end,
          le→ltb h.heap_end guard_size (omega (arith, good.guarded, good.ordered)),
          same,
          le→ltb h.memory.size h.heap_end good.inside,
          le→ltb h.memory_stack_top h.heap_end below_stack,
        )
        refl
    where
      nothing : align_up_page len ≡ 0
      nothing = omega arith

      same : (h.heap_end + 0) % 2 ^ 32 ≡ h.heap_end
      same = omega (arith, good.inside, good.narrow)

  -- What the end of the heap becomes when the length is past the end of the address space.
  wrapped : ℕ
  wrapped = (h.heap_end + align_up_page len) % 2 ^ 32

  wrapped_below : 2 ^ 32 ≤ h.heap_end + align_up_page len → wrapped ≤ h.heap_end
  unfolding wrapped
  wrapped_below m = omega (arith, good.inside, good.narrow)

  place_wraps :
      2 ^ 32 ≤ h.heap_end + align_up_page len
      → place h (align_up_page len) none ≡ ok (h.heap_end, wrapped)
  unfolding place Sandbox.check wrapped
  place_wraps m =
      rw
        (
          whole_end,
          le→ltb h.heap_end guard_size (omega (arith, good.guarded, good.ordered)),
          le→ltb h.memory.size wrapped (omega (arith, good.inside, wrapped_below m)),
          le→ltb h.memory_stack_top wrapped (omega (arith, wrapped_below m)),
        )
        refl

  by_search :
      (r : Option ℕ)
      → h.heap_end ≤ 2 ^ 31
      → num_words h.mapped_pages < 2 ^ 15
      → 2 ^ 32 ≤ h.heap_end + align_up_page len
      → search
          (h.heap_end / pagesize - h.heap_start / pagesize)
          h.mapped_pages
          (pages_of len)
          (h.heap_start / pagesize)
          0
          0
        ≡ ok r
      → FirstFit h.mapped_pages (h.heap_start / pagesize) (h.heap_end / pagesize) (pages_of len) r
      → map_pages h len ≡ fault
  unfolding map_pages
  by_search _ low small m run (found above below free least) = absurd (omega arith)
  by_search _ low small m run (full no_run) =
      rw
        (
          whole_end,
          run,
          place_wraps m,
          set_range-fault h.mapped_pages (h.heap_end / pagesize) (pages_of len) true
              (omega (arith, good.inside, good.room)) (omega (arith, good.whole_end)),
        )
        refl

-- A length that takes the heap past the end of the address space, on a heap in its lower half: the
-- end of the heap wraps, both checks pass, and the marks go past the end of the set.
pub map_pages-wraps :
    (h : Heap) (len : ℕ)
    → HeapOk h
    → h.heap_end ≤ h.memory_stack_top
    → h.heap_end ≤ 2 ^ 31
    → num_words h.mapped_pages < 2 ^ 15
    → 2 ^ 32 ≤ h.heap_end + align_up_page len
    → map_pages h len ≡ fault
map_pages-wraps h len good below_stack low small m =
    by_search h len good below_stack first.0 low small m first.1 first.2
  where
    first :
        (r : Option ℕ) × (search
            (h.heap_end / pagesize - h.heap_start / pagesize)
            h.mapped_pages
            (pages_of len)
            (h.heap_start / pagesize)
            0
            0
          ≡ ok r)
        × FirstFit h.mapped_pages (h.heap_start / pagesize) (h.heap_end / pagesize) (pages_of len) r
    first =
        search-FirstFit h.mapped_pages (h.heap_start / pagesize) (h.heap_end / pagesize)
          (pages_of len) (omega arith) (omega (arith, good.ordered))
          (omega (arith, good.inside, good.room))
