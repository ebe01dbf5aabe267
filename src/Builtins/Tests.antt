-- ===== src/Builtins/Tests.antt =====
-- Runs of the system calls.
use pnacl_c.Base.{
  Option, ℕ, ◌-◌, ◌/◌, ◌%◌, ◌^◌, ◌≡◌, refl, subst, arith, true, [], ◌∷◌, ltb, fault, Result, ok,
  ◌>>=◌,
}
use pnacl_c.BitSet.{init, set_bit, set_range, is_set}
use pnacl_c.BitSet.Laws.{member}
use pnacl_c.Memory.{Memory, check, read, write, store, load}
use pnacl_c.Executor.{Thread, get_value}
use pnacl_c.Machine.State.{RuntimeCall}
use pnacl_c.Builtins.Search.{search, FirstFit, search-FirstFit}
use pnacl_c.Builtins.Mapping.{
  Heap, map_pages, place, unmap_pages, unmap_range, irt_memory_mmap, einval,
}
use pnacl_c.Builtins.Mapping.Invariant.{HeapOk, init_heap, init_heap-HeapOk}
use pnacl_c.Builtins.Mapping.Laws.{Mapping, map_pages-Mapping}
use pnacl_c.Builtins.Mapping.Unmap.{Unmapped, unmap_pages-Unmapped, map_pages-unmap_pages}
use pnacl_c.Builtins.Mapping.Wrap.{map_pages-huge, map_pages-wraps}

abbrev memory : Memory
memory = record { bytes = λ p. p % 256; size = 65536 }

-- A heap of no pages behind two pages that are mapped.
abbrev start : Heap
start = record {
  memory = memory;
  heap_start = 8192;
  heap_end = 8192;
  mapped_pages = 3 ∷ [];
  memory_stack_top = 40000;
}

init_heap_test : init_heap memory 8192 40000 ≡ ok start
unfolding init_heap init set_range set_bit
init_heap_test = refl

init_heap-HeapOk_example :
    (h : Heap) × (init_heap memory 8192 40000 ≡ ok h)
    × HeapOk h
    × (h.memory ≡ memory)
    × (h.heap_start ≡ 8192)
    × (h.heap_end ≡ 8192)
    × (h.memory_stack_top ≡ 40000)
    × ((i : ℕ) → member h.mapped_pages i ≡ ltb i (8192 / 2 ^ 12))
init_heap-HeapOk_example =
    init_heap-HeapOk memory 8192 40000 refl (omega arith) refl (omega arith) (omega arith)

one_result : {r : Result Heap} {h k : Heap} → r ≡ ok h → r ≡ ok k → h ≡ k
one_result e e' = cc

start-HeapOk : HeapOk start
start-HeapOk = subst HeapOk same run.2
  where
    run :
        (h : Heap) × (init_heap memory 8192 40000 ≡ ok h)
        × HeapOk h
        × (h.memory ≡ memory)
        × (h.heap_start ≡ 8192)
        × (h.heap_end ≡ 8192)
        × (h.memory_stack_top ≡ 40000)
        × ((i : ℕ) → member h.mapped_pages i ≡ ltb i (8192 / 2 ^ 12))
    run = init_heap-HeapOk memory 8192 40000 refl (omega arith) refl (omega arith) (omega arith)

    same : run.0 ≡ start
    same = one_result run.1 init_heap_test

-- The heap behind a call for two pages.
abbrev grown : Heap
grown = record start { heap_end = 16384; mapped_pages = 15 ∷ [] }

map_pages_test : map_pages start 5000 ≡ ok (8192, grown)
unfolding map_pages place search set_range set_bit is_set check
map_pages_test = refl

unmap_pages_test : unmap_pages grown 8200 10 ≡ ok (record grown { mapped_pages = 11 ∷ [] })
unfolding unmap_pages unmap_range set_range set_bit
unmap_pages_test = refl

-- The first free page is given again.
reuse_test : map_pages (record grown { mapped_pages = 11 ∷ [] }) 4096 ≡ ok (8192, grown)
unfolding map_pages place search set_range set_bit is_set check
reuse_test = refl

-- Flags without MAP_ANONYMOUS.
abbrev mmap_call : RuntimeCall
mmap_call = record {
  result_value_id = 0;
  callee_id = 0;
  is_indirect = true;
  arg_ids = 0 ∷ 1 ∷ 2 ∷ 2 ∷ 2 ∷ 2 ∷ [];
}

abbrev regs : ℕ → Thread
regs flags = record { module_values = 2048 ∷ 5000 ∷ flags ∷ []; function_values = []; inst = 0 }

einval_test : irt_memory_mmap (regs 2) mmap_call start ≡ ok (einval, start)
unfolding irt_memory_mmap get_value
einval_test = refl

mmap_test : (irt_memory_mmap (regs 0x22) mmap_call start >>= λ r. read r.1.memory 4 2048) ≡ ok 8192
unfolding irt_memory_mmap get_value map_pages place search set_range set_bit is_set check write read
    store load
mmap_test = refl

search-FirstFit_test :
    (r : Option ℕ) × (search (16 - 2) (11 ∷ []) 2 2 0 0 ≡ ok r) × FirstFit (11 ∷ []) 2 16 2 r
search-FirstFit_test = search-FirstFit (11 ∷ []) 2 16 2 (omega arith) (omega arith) (omega arith)

map_pages-Mapping_example : Mapping start 5000 (map_pages start 5000)
map_pages-Mapping_example = map_pages-Mapping start 5000 start-HeapOk (omega arith) (omega arith)

unmap_pages-Unmapped_test :
    (h' : Heap) × (unmap_pages start 8200 10 ≡ ok h') × Unmapped start 8200 10 h'
unmap_pages-Unmapped_test = unmap_pages-Unmapped start 8200 10 start-HeapOk (omega arith)

map_pages-unmap_pages_example :
    (h'' : Heap) × (unmap_pages grown 8192 5000 ≡ ok h'')
    × ((i : ℕ) → member h''.mapped_pages i ≡ member (3 ∷ []) i)
    × HeapOk h''
map_pages-unmap_pages_example =
    map_pages-unmap_pages start 5000 8192 grown start-HeapOk (omega arith) (omega arith)
      map_pages_test

map_pages-huge_example : map_pages start (2 ^ 32 - 1) ≡ ok (8192, start)
map_pages-huge_example =
    map_pages-huge start (2 ^ 32 - 1) start-HeapOk (omega arith) (omega arith) (omega arith)

map_pages-wraps_test : map_pages start (2 ^ 32 - 4096) ≡ fault
map_pages-wraps_test =
    map_pages-wraps start (2 ^ 32 - 4096) start-HeapOk (omega arith) (omega arith) (omega arith)
      (omega arith)
