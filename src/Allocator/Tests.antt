-- ===== src/Allocator/Tests.antt =====
-- Runs of the allocator over a malloc that goes on behind the last chunk.
use pnacl_c.Base.{
  ℕ, zero, suc, ◌+◌, ◌*◌, ◌/◌, ◌%◌, ◌^◌, ◌≤◌, ◌≡◌, inl, inr, refl, subst, arith, List, [], ◌∷◌,
  none, some,
}
use pnacl_c.Base.{ok, ◌>>=◌, get_elem?, if◌then◌else◌, ltb, leb, Bool-cases, leb→le}
use pnacl_c.Bits.{is_power_of_two, next_power_of_two}
use pnacl_c.Allocator.Align.{align_up_pointer, is_aligned_pointer}
use pnacl_c.Allocator.{
  Chunk, Allocator, Malloc, Added, init, mark, new_chunk, alloc_new, alloc_in, alloc, realloc_in,
  realloc_add, reset_to_mark, reset,
}
use pnacl_c.Allocator.Reset.{Apart, IsMalloc, Allocs, reset_to_mark-Allocs}
use pnacl_c.Allocator.Blocks.{InOrder, Outcome, alloc-Outcome}

-- A number of words above every chunk.
abbrev top : List Chunk → ℕ
top [] = 512
top (c ∷ cs) = if ltb (top cs) (c.end / 8 + 1) then c.end / 8 + 1 else top cs

abbrev bump : Malloc
bump chunks size = if leb (8 * top chunks + size) (2 ^ 62) then some (8 * top chunks) else none

top_pos : (cs : List Chunk) → 1 ≤ top cs
top_pos [] = omega arith
top_pos (c ∷ cs) = ground (arith, top_pos cs)

top_above : (cs : List Chunk) (k : ℕ) (c : Chunk) → get_elem? cs k ≡ some c → c.end ≤ 8 * top cs
top_above [] k c h = cc
top_above (d ∷ cs) zero c h =
    subst (λ (x : Chunk). x.end ≤ 8 * top (d ∷ cs)) (same h) (ground arith)
  where
    same : some d ≡ some c → d ≡ c
    same e = cc
top_above (d ∷ cs) (suc k) c h = ground (arith, top_above cs k c h)

bump-IsMalloc : IsMalloc bump
bump-IsMalloc chunks size base h = elim (Bool-cases (leb (8 * top chunks + size) (2 ^ 62))) [
  | inl e ↦
      subst
        (λ b.
          (1 ≤ b)
          × (b % 8 ≡ 0)
          × (b + size ≤ 2 ^ 62)
          × ((k : ℕ) (c : Chunk) → get_elem? chunks k ≡ some c → Apart b (b + size) c))
        (same (rw e at h))
        (
          omega (arith, top_pos chunks),
          omega arith,
          leb→le _ _ e,
          λ k c i. inr (top_above chunks k c i),
        )
  | inr e ↦ absurd (none_some (rw e at h))
]
  where
    same : some (8 * top chunks) ≡ some base → 8 * top chunks ≡ base
    same i = cc

    none_some : none ≡ some base → ⊥
    none_some i = cc

abbrev chunk : Chunk
chunk = record { base = 4096; current = 4128; end = 4160 }

-- After one block of 8 bytes.
abbrev arena : Allocator
arena = record {
  chunks = chunk ∷ [];
  last_alloc = 4120;
  min_chunk_size = 64;
  total_used = 8;
  internal_fragmentation = 0;
  reset_mark = record { current = 0; last_alloc = 0; total_used = 0; internal_fragmentation = 0 };
}

alloc_test : (init 64 >>= λ a. alloc bump a 8 8) ≡ ok (4120, arena)
unfolding init alloc alloc_in alloc_new new_chunk align_up_pointer is_aligned_pointer
    is_power_of_two next_power_of_two mark
alloc_test = refl

alloc-Outcome_example : Outcome bump arena 100 16 (alloc bump arena 100 16)
unfolding is_power_of_two
alloc-Outcome_example =
    alloc-Outcome bump bump-IsMalloc arena 100 16 (omega arith) refl (omega arith) (omega arith)
      in_order
  where
    in_order : InOrder arena.chunks
    in_order =
        InOrder.chunk (omega arith, omega arith, omega arith, omega arith) (λ k d h. cc)
          InOrder.no_chunk

-- 100 bytes go to a new chunk, and are grown there by 4.
abbrev after_alloc : Allocator
after_alloc = record arena {
  chunks = record { base = 4168; current = 4292; end = 4424 } ∷ chunk ∷ [];
  last_alloc = 4192;
  total_used = 108;
  internal_fragmentation = 32;
}

abbrev after_realloc : Added
after_realloc = record {
  ret = 4292;
  p = 4192;
  allocator = record after_alloc {
    chunks = record { base = 4168; current = 4296; end = 4424 } ∷ chunk ∷ [];
    total_used = 112;
  };
  bytes = λ q. q;
}

second_test : alloc bump arena 100 16 ≡ ok (4192, after_alloc)
unfolding alloc alloc_in alloc_new new_chunk align_up_pointer is_aligned_pointer is_power_of_two
    next_power_of_two
second_test = refl

realloc_test : realloc_add bump (λ q. q) after_alloc 4192 4 8 ≡ ok after_realloc
unfolding realloc_add realloc_in
realloc_test = refl

reset_to_mark-Allocs_example : reset_to_mark after_realloc.allocator (mark arena) ≡ arena
reset_to_mark-Allocs_example =
    reset_to_mark-Allocs bump arena after_realloc.allocator bump-IsMalloc (omega arith, omega arith)
      (Allocs.then_realloc (λ q. q) 4192 4 8 (Allocs.then_alloc 100 16 Allocs.start second_test)
        realloc_test)

abbrev full : Allocator
full = record arena {
  chunks = record chunk { current = 4160 } ∷ [];
  last_alloc = 4160;
  total_used = 40;
}

-- A block of no bytes at the end of a full chunk: a reset to a mark that was taken there frees the
-- chunk, although it was in use before the mark.
empty_at_end_test :
    ((alloc bump arena 32 8 >>= λ r. alloc bump r.1 0 8) ≡ ok (4160, full))
    × ((reset_to_mark full (mark full)).chunks ≡ [])
unfolding alloc alloc_in align_up_pointer is_power_of_two reset_to_mark mark
empty_at_end_test = (refl, refl)

reset_test : (reset after_alloc).chunks ≡ []
unfolding reset
reset_test = refl
