-- ===== src/Builtins/Mapping/Invariant.antt =====
-- What holds of the heap between the system calls, and that the executor starts so.
use pnacl_c.Base.{
  ℕ, ◌+◌, ◌*◌, ◌/◌, ◌%◌, ◌^◌, ◌≤◌, ◌<◌, ◌≡◌, refl, true, false, ltb, ◌==◌, ==_iff, arith, Result,
  ok, ◌>>=◌, ◌>>◌, check, length-replicate,
}
use pnacl_c.BitSet.{num_words, init, set_range}
use pnacl_c.BitSet.Laws.{member, member-init}
use pnacl_c.BitSet.Ranges.{RangeSet, set_range_lem}
use pnacl_c.Memory.{Memory, guard_size}
use pnacl_c.Builtins.Mapping.{Heap, pagesize}

-- The heap lies on whole pages of the program's memory, the set has room for the memory's pages, and
-- no page behind the heap is marked.
pub record HeapOk (h : Heap) : Type 0 where
  pub whole_start : h.heap_start % pagesize ≡ 0
  pub whole_end : h.heap_end % pagesize ≡ 0
  pub guarded : guard_size ≤ h.heap_start
  pub ordered : h.heap_start ≤ h.heap_end
  pub inside : h.heap_end ≤ h.memory.size
  pub narrow : h.memory.size < 2 ^ 32
  pub room : h.memory.size ≤ pagesize * (32 * num_words h.mapped_pages)
  pub behind : (i : ℕ) → h.heap_end / pagesize ≤ i → member h.mapped_pages i ≡ false

-- pn_executor_init: the part that sets the heap up.
unfoldable pub init_heap : Memory → ℕ → ℕ → Result Heap
init_heap memory heap_start stack_end = do
  check (memory.size % pagesize == 0)
  check (heap_start % pagesize == 0)
  words ← set_range (init (memory.size / pagesize)) 0 (heap_start / pagesize) true
  ok record {
    memory = memory;
    heap_start = heap_start;
    heap_end = heap_start;
    mapped_pages = words;
    memory_stack_top = stack_end;
  }

num_words-init : (size : ℕ) → num_words (init size) ≡ (size + 31) / 32
unfolding init
num_words-init size = length-replicate {A = ℕ} ((size + 31) / 32) 0

-- A memory of whole pages, with a heap that starts at a page above the guard, gives a heap that
-- ends where it starts, with every page below it marked and no other.
pub init_heap-HeapOk :
    (memory : Memory) (heap_start stack_end : ℕ)
    → memory.size % pagesize ≡ 0
    → memory.size < 2 ^ 32
    → heap_start % pagesize ≡ 0
    → guard_size ≤ heap_start
    → heap_start ≤ memory.size
    → (h : Heap) × (init_heap memory heap_start stack_end ≡ ok h)
      × HeapOk h
      × (h.memory ≡ memory)
      × (h.heap_start ≡ heap_start)
      × (h.heap_end ≡ heap_start)
      × (h.memory_stack_top ≡ stack_end)
      × ((i : ℕ) → member h.mapped_pages i ≡ ltb i (heap_start / pagesize))
unfolding init_heap
init_heap-HeapOk memory heap_start stack_end whole narrow whole_start guarded inside = (
  record {
    memory = memory;
    heap_start = heap_start;
    heap_end = heap_start;
    mapped_pages = start.set_words;
    memory_stack_top = stack_end;
  },
  rw ((==_iff _ _).1 whole, (==_iff _ _).1 whole_start, start.set_ok) refl,
  record {
    whole_start = whole_start;
    whole_end = whole_start;
    guarded = guarded;
    ordered = omega arith;
    inside = inside;
    narrow = narrow;
    room = omega (arith, start.same_size, num_words-init (memory.size / pagesize));
    behind = λ i k. rw (members i) (ground arith);
  },
  refl,
  refl,
  refl,
  refl,
  members,
)
  where
    start : RangeSet (init (memory.size / pagesize)) 0 (heap_start / pagesize) true
    start =
        set_range_lem (init (memory.size / pagesize)) 0 (heap_start / pagesize) true
          (omega (arith, num_words-init (memory.size / pagesize)))

    members : (i : ℕ) → member start.set_words i ≡ ltb i (heap_start / pagesize)
    members i = rw (start.members i, member-init (memory.size / pagesize) i) (ground arith)
