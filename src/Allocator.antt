-- ===== src/Allocator.antt =====
-- src/pn_allocator.h: the arena allocator, with the alignment of pointers of src/pn_malloc.h.
pub mod Align
pub mod Reset
pub mod Blocks
mod Tests
use pnacl_c.Base.{
  ℕ, ◌+◌, ◌-◌, ◌*◌, ◌/◌, ◌%◌, ◌^◌, Bool, if◌then◌else◌, ltb, leb, ◌==◌, ◌&&◌, List, [], ◌∷◌, Option,
  none, some,
}
use pnacl_c.Base.{Result, ok, fatal, fault, ◌>>=◌, ◌>>◌, check, assert}
use pnacl_c.Bits.{is_power_of_two, next_power_of_two}
use Align.{align_up_pointer, is_aligned_pointer}

-- Addresses are numbers, 0 for NULL. `base` is where the chunk's own struct is.
pub record Chunk : Type 0 where
  pub base : ℕ
  pub current : ℕ
  pub end : ℕ

pub record Mark : Type 0 where
  pub current : ℕ
  pub last_alloc : ℕ
  pub total_used : ℕ
  pub internal_fragmentation : ℕ

-- `chunks` is the list from `chunk_head` on.
pub record Allocator : Type 0 where
  pub chunks : List Chunk
  pub last_alloc : ℕ
  pub min_chunk_size : ℕ
  pub total_used : ℕ
  pub internal_fragmentation : ℕ
  pub reset_mark : Mark

-- sizeof(PNAllocatorChunk).
abbrev pub sizeof_chunk : ℕ
sizeof_chunk = 24

abbrev pub size_t_add : ℕ → ℕ → ℕ
size_t_add a b = (a + b) % 2 ^ 64

abbrev pub head_current : List Chunk → ℕ
head_current [] = 0
head_current (c ∷ cs) = c.current

unfoldable pub mark : Allocator → Mark
mark a = record {
  current = head_current a.chunks;
  last_alloc = a.last_alloc;
  total_used = a.total_used;
  internal_fragmentation = a.internal_fragmentation;
}

-- The C library's malloc, which is not modelled: an address for a number of bytes, or none, that may
-- depend on the chunks there are.
abbrev pub Malloc : Type 0
Malloc = List Chunk → ℕ → Option ℕ

abbrev pub pn_malloc : Malloc → List Chunk → ℕ → Result ℕ
pn_malloc malloc chunks size = elim (malloc chunks size) [ none ↦ fatal | some p ↦ ok p ]

pub init : ℕ → Result Allocator
unfolding mark
init min_chunk_size = do
  assert (is_power_of_two min_chunk_size)
  assert (ltb sizeof_chunk min_chunk_size)
  let zeros : Mark = record {
    current = 0;
    last_alloc = 0;
    total_used = 0;
    internal_fragmentation = 0;
  }
  let a : Allocator = record {
    chunks = [];
    last_alloc = 0;
    min_chunk_size = min_chunk_size;
    total_used = 0;
    internal_fragmentation = 0;
    reset_mark = zeros;
  }
  ok (record a { reset_mark = mark a })

abbrev pub pn_max : ℕ → ℕ → ℕ
pn_max x y = if ltb y x then x else y

-- What is lost at the end of the chunk that is left.
abbrev pub lost : List Chunk → ℕ → ℕ
lost [] fragmentation = fragmentation
lost (c ∷ cs) fragmentation = size_t_add fragmentation ((c.end + 2 ^ 64 - c.current) % 2 ^ 64)

-- The new chunk, and the allocator with it.
unfoldable pub new_chunk : Malloc → Allocator → ℕ → ℕ → Result (Chunk × Allocator)
new_chunk malloc a initial_alloc_size align = do
  check (ltb initial_alloc_size 0x80000000)
  chunk_size ←
      next_power_of_two (pn_max (initial_alloc_size + sizeof_chunk + align - 1) a.min_chunk_size)
  chunk ← pn_malloc malloc a.chunks chunk_size
  aligned ← is_aligned_pointer chunk 8
  assert aligned
  current ← align_up_pointer (chunk + sizeof_chunk) align
  let c : Chunk = record { base = chunk; current = current; end = chunk + chunk_size }
  ok (
    c,
    record a {
      chunks = c ∷ a.chunks;
      internal_fragmentation = lost a.chunks a.internal_fragmentation;
    },
  )

-- The allocator after a block up to `new_current` of its head chunk.
abbrev pub take_block : Allocator → Chunk → List Chunk → ℕ → ℕ → ℕ → Allocator
take_block a c cs last_alloc new_current size = record a {
  chunks = record c { current = new_current } ∷ cs;
  last_alloc = last_alloc;
  total_used = size_t_add a.total_used size;
}

-- The block in a new chunk.
unfoldable pub alloc_new : Malloc → Allocator → ℕ → ℕ → Result (ℕ × Allocator)
unfolding new_chunk
alloc_new malloc a size align = do
  (c, a') ← new_chunk malloc a size align
  ret ← align_up_pointer c.current align
  let new_current = size_t_add ret size
  check (leb ret new_current)
  assert (leb new_current c.end)
  ok (ret, take_block a' c a.chunks ret new_current size)

unfoldable pub alloc_in : Malloc → Allocator → List Chunk → ℕ → ℕ → Result (ℕ × Allocator)
unfolding alloc_new
alloc_in malloc a [] size align = alloc_new malloc a size align
alloc_in malloc a (c ∷ cs) size align = do
  ret ← align_up_pointer c.current align
  let new_current = size_t_add ret size
  check (leb ret new_current)
  if ltb c.end new_current
      then alloc_new malloc a size align
      else ok (ret, take_block a c cs ret new_current size)

unfoldable pub alloc : Malloc → Allocator → ℕ → ℕ → Result (ℕ × Allocator)
unfolding alloc_in
alloc malloc a size align = alloc_in malloc a a.chunks size align

-- The host's memory is a function from addresses to bytes.
unfoldable pub allocz : Malloc → (ℕ → ℕ) → Allocator → ℕ → ℕ → Result (ℕ × Allocator × (ℕ → ℕ))
unfolding alloc
allocz malloc bytes a size align = do
  (p, a') ← alloc malloc a size align
  ok (p, a', λ q. if leb p q && ltb q (p + size) then 0 else bytes q)

-- The outcome of a realloc: the start of the added part, the start of the block, and the rest.
pub record Added : Type 0 where
  pub ret : ℕ
  pub p : ℕ
  pub allocator : Allocator
  pub bytes : ℕ → ℕ

-- The block moves to a new chunk.
unfoldable pub realloc_move : Malloc → (ℕ → ℕ) → Allocator → Chunk → ℕ → ℕ → ℕ → Result Added
unfolding new_chunk
realloc_move malloc bytes a head p add_size align = do
  let old_size = (head.current + 2 ^ 64 - p) % 2 ^ 64
  let new_size = size_t_add old_size add_size
  (c, a') ← new_chunk malloc a new_size align
  assert (leb (size_t_add c.current new_size) c.end)
  let ret = c.current + old_size
  ok (record {
    ret = ret;
    p = c.current;
    allocator = take_block a' c a.chunks c.current (ret + add_size) add_size;
    bytes = λ q.
        if leb c.current q && ltb q (c.current + old_size)
        then bytes (p + (q - c.current))
        else bytes q;
  })

unfoldable pub realloc_in : Malloc → (ℕ → ℕ) → Allocator → List Chunk → ℕ → ℕ → ℕ → Result Added
unfolding realloc_move
realloc_in malloc bytes a [] p add_size align = fault
realloc_in malloc bytes a (c ∷ cs) p add_size align = do
  let new_current = size_t_add c.current add_size
  check (ltb c.current new_current)
  if ltb c.end new_current
      then realloc_move malloc bytes a c p add_size align
      else ok (record {
        ret = c.current;
        p = p;
        allocator = take_block a c cs p new_current add_size;
        bytes = bytes;
      })

unfoldable pub realloc_add : Malloc → (ℕ → ℕ) → Allocator → ℕ → ℕ → ℕ → Result Added
unfolding alloc realloc_in
realloc_add malloc bytes a p add_size align =
    if p == 0
    then (do
      (q, a') ← alloc malloc a add_size align
      ok (record { ret = q; p = q; allocator = a'; bytes = bytes }))
    else (if p == a.last_alloc then realloc_in malloc bytes a a.chunks p add_size align else fatal)

unfoldable pub last_alloc_size : Allocator → ℕ
last_alloc_size a = elim a.chunks [
  | [] ↦ 0
  | ◌∷◌ c cs ↦ (c.current + 2 ^ 64 - a.last_alloc) % 2 ^ 64
]

-- The chunks from the one with the address on; those before are freed.
unfoldable pub free_until : ℕ → List Chunk → List Chunk
free_until last_alloc [] = []
free_until last_alloc (c ∷ cs) =
    let rest = free_until last_alloc cs in
    if leb c.base last_alloc && ltb last_alloc c.end then c ∷ cs else rest

abbrev pub restore : ℕ → List Chunk → List Chunk
restore current [] = []
restore current (c ∷ cs) = record c { current = current } ∷ cs

unfoldable pub reset_to_mark : Allocator → Mark → Allocator
unfolding free_until
reset_to_mark a m = record a {
  chunks = restore m.current (free_until m.last_alloc a.chunks);
  last_alloc = m.last_alloc;
  total_used = m.total_used;
  internal_fragmentation = m.internal_fragmentation;
}

unfoldable pub reset : Allocator → Allocator
unfolding reset_to_mark
reset a = reset_to_mark a a.reset_mark
