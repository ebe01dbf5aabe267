-- ===== src/Builtins/Mapping/Unmap.antt =====
-- munmap, and mmap with munmap behind it.
use pnacl_c.Base.{
  ℕ, ◌+◌, ◌-◌, ◌*◌, ◌/◌, ◌%◌, ◌^◌, ◌≤◌, ◌<◌, ◌≡◌, refl, sym, Bool, true, false, if◌then◌else◌, leb,
  ltb, ◌&&◌, arith, ok,
}
use native.Mathlib.Nat.{mod-eq_of_lt}
use pnacl_c.BitSet.{num_words}
use pnacl_c.BitSet.Laws.{member}
use pnacl_c.BitSet.Ranges.{in_range, RangeSet, set_range_room}
use pnacl_c.Builtins.Mapping.{
  Heap, pagesize, align_up_page, align_down_page, unmap_range, unmap_pages, map_pages,
}
use pnacl_c.Builtins.Mapping.Invariant.{HeapOk}
use pnacl_c.Builtins.Mapping.Laws.{Fresh, pages_of, Mapping-ok, map_pages-Mapping}

-- Whether page `i` of the heap has a byte of the `len` bytes from the start of the page of `addr`.
abbrev pub overlaps : Heap → ℕ → ℕ → ℕ → Bool
overlaps h addr len i =
    (leb (h.heap_start / pagesize) i && ltb i (h.heap_end / pagesize))
    && (leb (addr / pagesize) i && ltb (i * pagesize) (addr + len))

clamped :
    (i f l b e : ℕ)
    → in_range i
        (if ltb b f then f else b)
        ((if ltb l e then l else e) - (if ltb b f then f else b))
      ≡ ((leb f i && ltb i l) && (leb b i && ltb i e))
clamped i f l b e = ground arith

clamped_inside :
    (f l b e n : ℕ)
    → l ≤ n
    → 1 ≤ (if ltb l e then l else e) - (if ltb b f then f else b)
    → (if ltb b f then f else b) + ((if ltb l e then l else e) - (if ltb b f then f else b)) ≤ n
clamped_inside f l b e n h k = ground arith

page_before : (i x : ℕ) → ltb i ((x + 4095) / pagesize) ≡ ltb (i * pagesize) x
page_before i x = ground arith

module _ (h : Heap) (addr len : ℕ) (good : HeapOk h) (room : addr + len + 4095 < 2 ^ 32) where
  last_page :
      align_down_page addr / pagesize
        + (align_up_page ((addr + len) % 2 ^ 32) + 2 ^ 32 - align_down_page addr)
          % 2 ^ 32
          / pagesize
      ≡ (addr + len + 4095) / pagesize
  last_page = rw whole (omega arith)
    where
      whole : (addr + len) % 2 ^ 32 ≡ addr + len
      whole = mod-eq_of_lt (omega arith)

  first_page : align_down_page addr / pagesize ≡ addr / pagesize
  first_page = omega arith

  range_overlaps :
      (i : ℕ)
      → in_range i (unmap_range h addr len).0 (unmap_range h addr len).1 ≡ overlaps h addr len i
  unfolding unmap_range
  range_overlaps i =
      rw
        (
          last_page,
          first_page,
          clamped i (h.heap_start / pagesize) (h.heap_end / pagesize) (addr / pagesize)
              ((addr + len + 4095) / pagesize),
          page_before i (addr + len),
        )
        refl

  range_inside :
      1 ≤ (unmap_range h addr len).1
      → (unmap_range h addr len).0 + (unmap_range h addr len).1 ≤ 32 * num_words h.mapped_pages
  unfolding unmap_range
  range_inside =
      clamped_inside (h.heap_start / pagesize) (h.heap_end / pagesize)
        (align_down_page addr / pagesize) _ _ (omega (arith, good.inside, good.room))

both_false : (b : Bool) → (if b then false else false) ≡ false
both_false true = refl
both_false false = refl

-- What munmap leaves of the heap.
pub record Unmapped (h : Heap) (addr len : ℕ) (h' : Heap) : Type 0 where
  pub members :
      (i : ℕ)
      → member h'.mapped_pages i
        ≡ (if overlaps h addr len i then false else member h.mapped_pages i)
  pub same_heap : (h'.heap_start ≡ h.heap_start) × (h'.heap_end ≡ h.heap_end)
  pub same_memory : h'.memory ≡ h.memory
  pub kept : HeapOk h'

-- munmap of bytes that end below the last page of the address space unmaps the pages of the heap
-- that have one of the bytes, counted from the start of their first page, and no others.
pub unmap_pages-Unmapped :
    (h : Heap) (addr len : ℕ)
    → HeapOk h
    → addr + len + 4095 < 2 ^ 32
    → (h' : Heap) × (unmap_pages h addr len ≡ ok h') × Unmapped h addr len h'
unfolding unmap_pages
unmap_pages-Unmapped h addr len good room = (
  record h { mapped_pages = set.set_words },
  rw set.set_ok refl,
  record {
    members = members;
    same_heap = (refl, refl);
    same_memory = refl;
    kept = record {
      whole_start = good.whole_start;
      whole_end = good.whole_end;
      guarded = good.guarded;
      ordered = good.ordered;
      inside = good.inside;
      narrow = good.narrow;
      room = rw set.same_size good.room;
      behind = λ i k. rw (members i, good.behind i k) (both_false (overlaps h addr len i));
    };
  },
)
  where
    set : RangeSet h.mapped_pages (unmap_range h addr len).0 (unmap_range h addr len).1 false
    set =
        set_range_room h.mapped_pages (unmap_range h addr len).0 (unmap_range h addr len).1 false
          (range_inside h addr len good room)

    members :
        (i : ℕ)
        → member set.set_words i
          ≡ (if overlaps h addr len i then false else member h.mapped_pages i)
    members i = rw (set.members i, range_overlaps h addr len good room i) refl

-- The pages that mmap has given are those that munmap takes back.
same_pages :
    (h : Heap) (len result : ℕ) (h' : Heap) (i : ℕ)
    → HeapOk h
    → Fresh h len result h'
    → len + 4095 < 2 ^ 32
    → overlaps h' result len i ≡ in_range i (result / pagesize) (pages_of len)
same_pages h len result h' i good got room =
    ground
      (arith, got.above, got.below, got.aligned, got.start, good.whole_start, got.kept.whole_end)

restored :
    (b old : Bool)
    → (b ≡ true → old ≡ false)
    → (if b then false else (if b then true else old)) ≡ old
restored true old h = sym (h refl)
restored false old h = refl

in_range→free :
    (h : Heap) (len result : ℕ) (h' : Heap) (i : ℕ)
    → Fresh h len result h'
    → in_range i (result / pagesize) (pages_of len) ≡ true
    → member h.mapped_pages i ≡ false
in_range→free h len result h' i got e = got.free i (ground arith) (ground arith)

-- munmap of what mmap has given leaves the same pages mapped as before the two.
pub map_pages-unmap_pages :
    (h : Heap) (len result : ℕ) (h' : Heap)
    → HeapOk h
    → 1 ≤ len
    → h.heap_end + len + 4095 < 2 ^ 32
    → map_pages h len ≡ ok (result, h')
    → (h'' : Heap) × (unmap_pages h' result len ≡ ok h'')
      × ((i : ℕ) → member h''.mapped_pages i ≡ member h.mapped_pages i)
      × HeapOk h''
map_pages-unmap_pages h len result h' good one room run = (
  back.0,
  back.1,
  λ i.
      rw (back.2.members i, got.members i, same_pages h len result h' i good got (omega arith))
        (restored (in_range i (result / pagesize) (pages_of len)) (member h.mapped_pages i)
          (in_range→free h len result h' i got)),
  back.2.kept,
)
  where
    got : Fresh h len result h'
    got = Mapping-ok (map_pages-Mapping h len good one room) run

    back : (h'' : Heap) × (unmap_pages h' result len ≡ ok h'') × Unmapped h' result len h''
    back =
        unmap_pages-Unmapped h' result len got.kept
          (omega (arith, got.below, got.kept.whole_end, got.kept.inside, got.kept.narrow))
