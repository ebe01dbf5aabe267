-- ===== src/Builtins/Mapping/Laws.antt =====
-- What the program gets by mmap, and gives back by munmap.
use pnacl_c.Base.{
  subst, le→ltb, tests, ℕ, ◌+◌, ◌-◌, ◌*◌, ◌/◌, ◌%◌, ◌^◌, ◌≤◌, ◌<◌, ◌≡◌, refl, true, false,
  if◌then◌else◌, ltb, ◌==◌, ==_iff, arith, Result, ok, fatal, ◌⊎◌, inl, inr, none, Option,
  Bool-cases,
}
use native.Mathlib.Nat.{mod-eq_of_lt}
use pnacl_c.BitSet.Laws.{member}
use pnacl_c.BitSet.Ranges.{in_range, RangeSet, set_range_lem}
use pnacl_c.Memory.{Memory, guard_size}
use pnacl_c.Memory as Sandbox
use pnacl_c.Builtins.Search.{IsFree, FirstFit, found, full, search, search-FirstFit}
use pnacl_c.Builtins.Mapping.{Heap, pagesize, align_up_page, place, map_pages}
use pnacl_c.Builtins.Mapping.Invariant.{HeapOk}

abbrev pub pages_of : ℕ → ℕ
pages_of len = align_up_page len / pagesize

-- The pages at `result` that the program has got.
pub record Fresh (h : Heap) (len result : ℕ) (h' : Heap) : Type 0 where
  pub aligned : result % pagesize ≡ 0
  pub start : h'.heap_start ≡ h.heap_start
  pub above : h.heap_start ≤ result
  pub below : result + len ≤ h'.heap_end
  pub free : IsFree h.mapped_pages (result / pagesize) (pages_of len)
  pub members :
      (i : ℕ)
      → member h'.mapped_pages i
        ≡ (if in_range i (result / pagesize) (pages_of len) then true else member h.mapped_pages i)
  pub grown : h.heap_end ≤ h'.heap_end
  pub kept : HeapOk h'

-- How mmap ends: with pages for the program, or, when no run of pages of the heap is free and the
-- memory or the stack is in the way of more, with the program.
pub data Mapping (h : Heap) (len : ℕ) : Result (ℕ × Heap) → Type 0 where
  mapped : {result : ℕ} {h' : Heap} → Fresh h len result h' → Mapping h len (ok (result, h'))
  out_of_heap :
      ((t : ℕ)
        → h.heap_start / pagesize ≤ t
        → IsFree h.mapped_pages t (pages_of len)
        → h.heap_end / pagesize < t + pages_of len)
      → (h.memory.size < h.heap_end + align_up_page len)
        ⊎ (h.memory_stack_top < h.heap_end + align_up_page len)
      → Mapping h len fatal

start_of : (start : ℕ) → start * pagesize / pagesize ≡ start
start_of start = omega arith

behind_range :
    (i first n : ℕ) → first + n ≤ i → (if in_range i first n then true else false) ≡ false
behind_range i first n h = ground arith

fresh :
    (h : Heap) (len result end : ℕ)
    → HeapOk h
    → result % pagesize ≡ 0
    → h.heap_start ≤ result
    → len ≤ align_up_page len
    → result + align_up_page len ≤ end
    → h.heap_end ≤ end
    → end ≤ h.memory.size
    → end % pagesize ≡ 0
    → IsFree h.mapped_pages (result / pagesize) (pages_of len)
    → (set : RangeSet h.mapped_pages (result / pagesize) (pages_of len) true)
    → Fresh h len result (record h { heap_end = end; mapped_pages = set.set_words })
fresh h len result end good aligned above whole below grown inside whole_end free set = record {
  aligned = aligned;
  start = refl;
  above = above;
  below = omega arith;
  free = free;
  members = set.members;
  grown = grown;
  kept = record {
    whole_start = good.whole_start;
    whole_end = whole_end;
    guarded = good.guarded;
    ordered = omega (arith, good.ordered);
    inside = inside;
    narrow = good.narrow;
    room = omega (arith, good.room, set.same_size);
    behind = λ i k.
        rw (set.members i, good.behind i (omega arith))
          (behind_range i (result / pagesize) (pages_of len) (omega arith));
  };
}

-- The sizes that the calls round, which are short of the end of the address space.
rounded : (x : ℕ) → x + 4095 < 2 ^ 32 → (x ≤ align_up_page x) × (align_up_page x ≤ x + 4095)
rounded x h = omega arith

module _ (h : Heap) (len : ℕ) (good : HeapOk h) (one : 1 ≤ len)
    (room : h.heap_end + len + 4095 < 2 ^ 32) where
  in_words :
      (start : ℕ)
      → start + pages_of len ≤ h.memory.size / pagesize
      → RangeSet h.mapped_pages start (pages_of len) true
  in_words start k =
      set_range_lem h.mapped_pages start (pages_of len) true (omega (arith, k, good.room))

  whole_end : (h.heap_end % pagesize == 0) ≡ true
  whole_end = (==_iff (h.heap_end % pagesize) 0).1 good.whole_end

  guard_passed : ltb h.heap_end guard_size ≡ false
  guard_passed = le→ltb h.heap_end guard_size (omega (arith, good.guarded, good.ordered))

  sum : (h.heap_end + align_up_page len) % 2 ^ 32 ≡ h.heap_end + align_up_page len
  sum = mod-eq_of_lt (omega (arith, rounded len (omega arith)))

  -- The pages at the end of the heap.
  grow :
      (place h (align_up_page len) none ≡ ok (h.heap_end, h.heap_end + align_up_page len))
        × (h.heap_end + align_up_page len ≤ h.memory.size)
      ⊎ (place h (align_up_page len) none ≡ fatal)
        × ((h.memory.size < h.heap_end + align_up_page len)
            ⊎ (h.memory_stack_top < h.heap_end + align_up_page len))
  unfolding place Sandbox.check
  grow = elim (Bool-cases (ltb h.memory.size (h.heap_end + align_up_page len))) [
    | inl e ↦ inr (rw (whole_end, guard_passed, sum, e) refl, inl (omega (tests, e)))
    | inr e ↦ elim (Bool-cases (ltb h.memory_stack_top (h.heap_end + align_up_page len))) [
      | inl e' ↦ inr (rw (whole_end, guard_passed, sum, e, e') refl, inr (omega (tests, e')))
      | inr e' ↦ inl (rw (whole_end, guard_passed, sum, e, e') refl, ground (arith, e))
    ]
  ]

  SearchFrom : ℕ → Option ℕ → Type 0
  SearchFrom last r =
      search (last - h.heap_start / pagesize) h.mapped_pages (pages_of len)
        (h.heap_start / pagesize) 0 0
      ≡ ok r

  extended :
      SearchFrom (h.heap_end / pagesize) none
      → place h (align_up_page len) none ≡ ok (h.heap_end, h.heap_end + align_up_page len)
      → h.heap_end + align_up_page len ≤ h.memory.size
      → Mapping h len (map_pages h len)
  unfolding map_pages SearchFrom
  extended run more inside =
      rw (whole_end, run, more, set.set_ok)
        (mapped (
          fresh h len h.heap_end (h.heap_end + align_up_page len) good good.whole_end good.ordered
            (rounded len (omega arith)).0 (omega arith) (omega arith) inside
            (omega (arith, good.whole_end)) (λ i k l. good.behind i k) set))
    where
      set : RangeSet h.mapped_pages (h.heap_end / pagesize) (pages_of len) true
      set = in_words (h.heap_end / pagesize) (omega arith)

  -- The end of mmap, by that of its search.
  by_search :
      (r : Option ℕ)
      → SearchFrom (h.heap_end / pagesize) r
      → FirstFit h.mapped_pages (h.heap_start / pagesize) (h.heap_end / pagesize) (pages_of len) r
      → Mapping h len (map_pages h len)
  unfolding map_pages place SearchFrom
  by_search _ run (found {start} above below free least) =
      rw (whole_end, run, mod-eq_of_lt below_end, set.set_ok)
        (mapped (
          fresh h len (start * pagesize) h.heap_end good (omega arith)
            (omega (arith, good.whole_start)) (rounded len (omega arith)).0 (omega arith)
            (omega arith) good.inside good.whole_end (rw (start_of start) free) set))
    where
      below_end : start * pagesize < 2 ^ 32
      below_end = omega (arith, good.inside, good.narrow)

      set : RangeSet h.mapped_pages (start * pagesize / pagesize) (pages_of len) true
      set = in_words (start * pagesize / pagesize) (omega (arith, good.inside))
  by_search _ run (full no_run) = elim grow [
    | inr (stop, why) ↦ rw (whole_end, run, stop) (out_of_heap no_run why)
    | inl (more, inside) ↦ extended run more inside
  ]

-- mmap of at least one byte, with the address space to spare for it, either gives pages of the
-- heap or of its end, none of which was mapped, and marks those and no others; or it ends the
-- program, and then no run of pages of the heap was free, and the memory's end or the main stack is
-- in the way of more.
pub map_pages-Mapping :
    (h : Heap) (len : ℕ)
    → HeapOk h
    → 1 ≤ len
    → h.heap_end + len + 4095 < 2 ^ 32
    → Mapping h len (map_pages h len)
unfolding SearchFrom
map_pages-Mapping h len good one room = by_search h len good one room first.0 first.1 first.2
  where
    first :
        (r : Option ℕ) × (search
            (h.heap_end / pagesize - h.heap_start / pagesize)
            h.mapped_pages
            (pages_of len)
            (h.heap_start / pagesize)
            0
            0
          ≡ ok r)
        × FirstFit h.mapped_pages (h.heap_start / pagesize) (h.heap_end / pagesize) (pages_of len) r
    first =
        search-FirstFit h.mapped_pages (h.heap_start / pagesize) (h.heap_end / pagesize)
          (pages_of len) (omega arith) (omega (arith, good.ordered))
          (omega (arith, good.inside, good.room))

pub Mapping-ok :
    {h : Heap} {len result : ℕ} {h' : Heap} {r : Result (ℕ × Heap)}
    → Mapping h len r
    → r ≡ ok (result, h')
    → Fresh h len result h'
Mapping-ok {h} {len} (mapped f) e = subst (λ (p : ℕ × Heap). Fresh h len p.0 p.1) (cc) f
Mapping-ok (out_of_heap no_run why) e = cc
