-- ===== src/Builtins/Mapping.antt =====
-- src/pn_builtins.h: NACL_IRT_MEMORY_MMAP and NACL_IRT_MEMORY_MUNMAP.
pub mod Invariant
pub mod Laws
pub mod Unmap
pub mod Wrap
use pnacl_c.Base.{
  ℕ, ◌+◌, ◌-◌, ◌*◌, ◌/◌, ◌%◌, ◌^◌, bit_and, true, false, if◌then◌else◌, ltb, ◌==◌, Option, none,
  some, Result, ok, fatal, ◌>>=◌, ◌>>◌, assert,
}
use pnacl_c.Base.{check}
use pnacl_c.BitSet.{BitSet, set_range}
use pnacl_c.Memory.{Memory, write}
use pnacl_c.Memory as Sandbox
use pnacl_c.Executor.{Thread}
use pnacl_c.Executor.Fields.{Scalar}
use pnacl_c.Machine.State.{RuntimeCall, arg, num_args}
use pnacl_c.Builtins.Search.{search}

-- PN_PAGESIZE.
abbrev pub pagesize : ℕ
pagesize = 2 ^ 12

abbrev pub einval : ℕ
einval = 22

-- What the two calls use of the executor, of its memory, and of the main thread's frame.
pub record Heap : Type 0 where
  pub memory : Memory
  pub heap_start : ℕ
  pub heap_end : ℕ
  pub mapped_pages : BitSet
  pub memory_stack_top : ℕ

-- pn_align_down and pn_align_up to a page of a uint32_t. The mask of the latter is a uint32_t, which
-- cuts the sum.
abbrev pub align_down_page : ℕ → ℕ
align_down_page x = x / pagesize * pagesize

abbrev pub align_up_page : ℕ → ℕ
align_up_page x = (x + pagesize - 1) % 2 ^ 32 / pagesize * pagesize

-- Where the pages begin, and the end of the heap behind them.
unfoldable pub place : Heap → ℕ → Option ℕ → Result (ℕ × ℕ)
place h len (some page_start) = ok (page_start * pagesize % 2 ^ 32, h.heap_end)
place h len none = do
  assert (h.heap_end % pagesize == 0)
  Sandbox.check h.memory h.heap_end len
  if ltb h.memory_stack_top ((h.heap_end + len) % 2 ^ 32)
      then fatal
      else ok (h.heap_end, (h.heap_end + len) % 2 ^ 32)

-- From the assert on to the last page's bit, with the result.
unfoldable pub map_pages : Heap → ℕ → Result (ℕ × Heap)
unfolding place
map_pages h len = do
  assert (h.heap_end % pagesize == 0)
  found ←
      search (h.heap_end / pagesize - h.heap_start / pagesize) h.mapped_pages
        (align_up_page len / pagesize) (h.heap_start / pagesize) 0 0
  placed ← place h (align_up_page len) found
  words ← set_range h.mapped_pages (placed.0 / pagesize) (align_up_page len / pagesize) true
  ok (placed.0, record h { heap_end = placed.1; mapped_pages = words })

unfoldable pub irt_memory_mmap : Thread → RuntimeCall → Heap → Result (ℕ × Heap)
irt_memory_mmap t i h = do
  check (num_args i == 6)
  addr_pp ← arg t i 0 Scalar.u32
  len ← arg t i 1 Scalar.u32
  prot ← arg t i 2 Scalar.u32
  flags ← arg t i 3 Scalar.u32
  fd ← arg t i 4 Scalar.i32
  off ← arg t i 5 Scalar.u64
  if bit_and flags 32 == 32
      then (do
        mapped ← map_pages h len
        memory ← write mapped.1.memory 4 addr_pp mapped.0
        ok (0, record (mapped.1) { memory = memory }))
      else ok (einval, h)

-- The pages that are marked as unmapped: from the first, and how many.
unfoldable pub unmap_range : Heap → ℕ → ℕ → ℕ × ℕ
unmap_range h addr_p len =
    let len' =
      (align_up_page ((addr_p + len) % 2 ^ 32) + 2 ^ 32 - align_down_page addr_p) % 2 ^ 32 in
    let begin = align_down_page addr_p / pagesize in
    let end = begin + len' / pagesize in
    let begin' = if ltb begin (h.heap_start / pagesize) then h.heap_start / pagesize else begin in
    let end' = if ltb (h.heap_end / pagesize) end then h.heap_end / pagesize else end in
    (begin', end' - begin')

unfoldable pub unmap_pages : Heap → ℕ → ℕ → Result Heap
unfolding unmap_range
unmap_pages h addr_p len = do
  words ← set_range h.mapped_pages (unmap_range h addr_p len).0 (unmap_range h addr_p len).1 false
  ok (record h { mapped_pages = words })

unfoldable pub irt_memory_munmap : Thread → RuntimeCall → Heap → Result (ℕ × Heap)
irt_memory_munmap t i h = do
  check (num_args i == 2)
  addr_p ← arg t i 0 Scalar.u32
  len ← arg t i 1 Scalar.u32
  h' ← unmap_pages h addr_p len
  ok (0, h')
