-- ===== src/Allocator/Reset.antt =====
-- A reset to a mark takes back what came after the mark.
use pnacl_c.Base.{
  ℕ, suc, ◌+◌, ◌-◌, ◌%◌, ◌^◌, ◌≤◌, ◌<◌, ◌≡◌, ◌⊎◌, inl, inr, refl, sym, subst, arith, List, [], ◌∷◌,
  some,
}
use pnacl_c.Base.{
  ok, check, assert, get_elem?, ltb, leb, Bool-cases, Option-cases, le→leb, lt→ltb, lt→leb, le→ltb,
}
use pnacl_c.Base.{
  Ensures, done, fatal_end, fault_end, Ensures-any, Ensures-bind, Ensures-ok, Ensures-if,
}
use pnacl_c.Bits.{next_power_of_two}
use pnacl_c.Allocator.Align.{align_up_pointer, is_aligned_pointer}
use pnacl_c.Allocator.{
  Chunk, Allocator, Malloc, Added, sizeof_chunk, pn_malloc, size_t_add, mark, new_chunk, alloc_new,
  alloc_in, alloc, realloc_in, realloc_move, realloc_add, free_until, reset_to_mark, restore,
  head_current,
}

abbrev pub Apart : ℕ → ℕ → Chunk → Type 0
Apart base end c = (end ≤ c.base) ⊎ (c.end ≤ base)

-- What the C library documents: storage that is not NULL, aligned for a pointer and apart from all
-- that is in use. Its addresses are below 2^62.
abbrev pub IsMalloc : Malloc → Type 0
IsMalloc malloc =
    (chunks : List Chunk) (size base : ℕ)
    → malloc chunks size ≡ some base
    → (1 ≤ base)
      × (base % 8 ≡ 0)
      × (base + size ≤ 2 ^ 62)
      × ((k : ℕ) (c : Chunk) → get_elem? chunks k ≡ some c → Apart base (base + size) c)

-- The chunks at some time after a state: those of the state, whose first one may have grown, behind
-- later ones, which do not have its last block.
pub data Since (a : Allocator) : List Chunk → Type 0 where
  emptied : a.chunks ≡ [] → Since a []
  grown :
      {c : Chunk} {cs : List Chunk}
      → a.chunks ≡ c ∷ cs
      → (current : ℕ) → Since a (record c { current = current } ∷ cs)
  later :
      {cs : List Chunk} (c : Chunk)
      → (a.last_alloc < c.base) ⊎ (c.end ≤ a.last_alloc)
      → Since a cs
      → Since a (c ∷ cs)

-- The last block starts in the first chunk.
abbrev pub LastInHead : ℕ → List Chunk → Type 0
LastInHead last_alloc [] = last_alloc ≡ 0
LastInHead last_alloc (c ∷ cs) = (c.base ≤ last_alloc) × (last_alloc < c.end)

-- What changes between two states: the chunks are later ones, the set-up is not touched.
pub record After (a b : Allocator) : Type 0 where
  pub chunks : Since a b.chunks
  pub min_chunk_size : b.min_chunk_size ≡ a.min_chunk_size
  pub reset_mark : b.reset_mark ≡ a.reset_mark

-- A later current of the first chunk.
regrown :
    {a : Allocator} {c : Chunk} {cs : List Chunk}
    → Since a (c ∷ cs)
    → (current : ℕ) → Since a (record c { current = current } ∷ cs)
regrown (grown e _) current = grown e current
regrown (later c out s) current = later (record c { current = current }) out s

-- A chunk from malloc does not have the last block of before.
outside :
    (a : Allocator) (cs : List Chunk) (base size : ℕ)
    → LastInHead a.last_alloc a.chunks
    → Since a cs
    → 1 ≤ base
    → ((k : ℕ) (c : Chunk) → get_elem? cs k ≡ some c → Apart base (base + size) c)
    → (a.last_alloc < base) ⊎ (base + size ≤ a.last_alloc)
outside a [] base size last (emptied e) pos apart =
    inl (omega (arith, subst (LastInHead a.last_alloc) e last))
outside a _ base size last (grown {c} e current) pos apart =
    in_head (subst (LastInHead a.last_alloc) e last) (apart 0 (record c { current = current }) refl)
  where
    in_head :
        LastInHead a.last_alloc (c ∷ [])
        → Apart base (base + size) c
        → (a.last_alloc < base) ⊎ (base + size ≤ a.last_alloc)
    in_head l h = ground arith
outside a _ base size last (later {cs} c out s) pos apart =
    outside a cs base size last s pos (λ k d h. apart (suc k) d h)

module _ (malloc : Malloc) (good : IsMalloc malloc) (a : Allocator)
    (last : LastInHead a.last_alloc a.chunks) where
  new_chunk-After :
      (b : Allocator) (size align : ℕ)
      → After a b
      → Ensures
          (λ (r : Chunk × Allocator). After a r.1 × (r.1.chunks ≡ r.0 ∷ b.chunks))
          (new_chunk malloc b size align)
  unfolding new_chunk
  new_chunk-After b size align s = Ensures-any (check _) (λ _.
      Ensures-any (next_power_of_two _) (λ chunk_size.
        Ensures-bind (from_malloc chunk_size) (λ chunk fresh.
          Ensures-any (is_aligned_pointer chunk 8) (λ aligned. Ensures-any (assert aligned) (λ _.
            Ensures-any (align_up_pointer (chunk + sizeof_chunk) align) (λ current. done (
              record {
                chunks = later _ fresh s.chunks;
                min_chunk_size = s.min_chunk_size;
                reset_mark = s.reset_mark;
              },
              refl,
            )))))))
    where
      from_malloc :
          (chunk_size : ℕ)
          → Ensures
              (λ chunk. (a.last_alloc < chunk) ⊎ (chunk + chunk_size ≤ a.last_alloc))
              (pn_malloc malloc b.chunks chunk_size)
      from_malloc chunk_size = elim (Option-cases (malloc b.chunks chunk_size)) [
        | inl e ↦ rw (e, pn_malloc) fatal_end
        | inr (p, e) ↦
            rw (e, pn_malloc)
              (done (
                let g = good b.chunks chunk_size p e in
                outside a b.chunks p chunk_size last s.chunks g.0 g.3))
      ]

  alloc_new-After :
      (b : Allocator) (size align : ℕ)
      → After a b
      → Ensures (λ (r : ℕ × Allocator). After a r.1) (alloc_new malloc b size align)
  unfolding alloc_new
  alloc_new-After b size align s = Ensures-bind (new_chunk-After b size align s) (λ r h.
      Ensures-any (align_up_pointer r.0.current align) (λ ret.
        Ensures-any (check (leb ret (size_t_add ret size))) (λ _.
          Ensures-any (assert (leb (size_t_add ret size) r.0.end)) (λ _. done (record {
            chunks = regrown (subst (Since a) h.1 h.0.chunks) (size_t_add ret size);
            min_chunk_size = h.0.min_chunk_size;
            reset_mark = h.0.reset_mark;
          })))))

  alloc_in-After :
      (b : Allocator) (chunks : List Chunk) (size align : ℕ)
      → b.chunks ≡ chunks
      → After a b
      → Ensures (λ (r : ℕ × Allocator). After a r.1) (alloc_in malloc b chunks size align)
  unfolding alloc_in
  alloc_in-After b [] size align e s = alloc_new-After b size align s
  alloc_in-After b (c ∷ cs) size align e s = Ensures-any (align_up_pointer c.current align) (λ ret.
      Ensures-any (check (leb ret (size_t_add ret size))) (λ _.
        Ensures-if (ltb c.end (size_t_add ret size)) (alloc_new-After b size align s) (
          done (record {
            chunks = regrown (subst (Since a) e s.chunks) (size_t_add ret size);
            min_chunk_size = s.min_chunk_size;
            reset_mark = s.reset_mark;
          }))))

  alloc-After :
      (b : Allocator) (size align : ℕ)
      → After a b
      → Ensures (λ (r : ℕ × Allocator). After a r.1) (alloc malloc b size align)
  unfolding alloc
  alloc-After b size align s = alloc_in-After b b.chunks size align refl s

  realloc_move-After :
      (bytes : ℕ → ℕ) (b : Allocator) (head : Chunk) (p add_size align : ℕ)
      → After a b
      → Ensures (λ r. After a r.allocator) (realloc_move malloc bytes b head p add_size align)
  unfolding realloc_move
  realloc_move-After bytes b head p add_size align s =
      Ensures-bind (new_chunk-After b (size_t_add old_size add_size) align s) (λ r h.
        Ensures-any (assert (leb (size_t_add r.0.current (size_t_add old_size add_size)) r.0.end))
          (λ _. done (record {
            chunks = regrown (subst (Since a) h.1 h.0.chunks) (r.0.current + old_size + add_size);
            min_chunk_size = h.0.min_chunk_size;
            reset_mark = h.0.reset_mark;
          })))
    where
      old_size : ℕ
      old_size = (head.current + 2 ^ 64 - p) % 2 ^ 64

  realloc_in-After :
      (bytes : ℕ → ℕ) (b : Allocator) (chunks : List Chunk) (p add_size align : ℕ)
      → b.chunks ≡ chunks
      → After a b
      → Ensures (λ r. After a r.allocator) (realloc_in malloc bytes b chunks p add_size align)
  unfolding realloc_in
  realloc_in-After bytes b [] p add_size align e s = fault_end
  realloc_in-After bytes b (c ∷ cs) p add_size align e s =
      Ensures-any (check (ltb c.current (size_t_add c.current add_size))) (λ _.
        Ensures-if (ltb c.end (size_t_add c.current add_size))
          (realloc_move-After bytes b c p add_size align s)
          (done (record {
            chunks = regrown (subst (Since a) e s.chunks) (size_t_add c.current add_size);
            min_chunk_size = s.min_chunk_size;
            reset_mark = s.reset_mark;
          })))

  realloc_add-After :
      (bytes : ℕ → ℕ) (b : Allocator) (p add_size align : ℕ)
      → After a b
      → Ensures (λ r. After a r.allocator) (realloc_add malloc bytes b p add_size align)
  unfolding realloc_add
  realloc_add-After bytes b p add_size align s =
      Ensures-if _ (Ensures-bind (alloc-After b add_size align s) (λ r h. done h))
        (Ensures-if _ (realloc_in-After bytes b b.chunks p add_size align refl s) fatal_end)

-- The operations on an allocator, one after the other.
pub data Allocs (malloc : Malloc) (a : Allocator) : Allocator → Type 0 where
  start : Allocs malloc a a
  then_alloc :
      {b c : Allocator} {p : ℕ} (size align : ℕ)
      → Allocs malloc a b
      → alloc malloc b size align ≡ ok (p, c)
      → Allocs malloc a c
  then_realloc :
      {b : Allocator} {r : Added} (bytes : ℕ → ℕ) (p add_size align : ℕ)
      → Allocs malloc a b
      → realloc_add malloc bytes b p add_size align ≡ ok r
      → Allocs malloc a r.allocator

chunks-Since : (a : Allocator) (cs : List Chunk) → a.chunks ≡ cs → Since a cs
chunks-Since a [] e = emptied e
chunks-Since a (c ∷ cs) e = grown e c.current

Allocs-After :
    {malloc : Malloc} {a b : Allocator}
    → IsMalloc malloc
    → LastInHead a.last_alloc a.chunks
    → Allocs malloc a b
    → After a b
Allocs-After {a} good last start = record {
  chunks = chunks-Since a a.chunks refl;
  min_chunk_size = refl;
  reset_mark = refl;
}
Allocs-After {malloc} {a} good last (then_alloc {b} size align s h) =
    Ensures-ok (alloc-After malloc good a last b size align (Allocs-After good last s)) h
Allocs-After {malloc} {a} good last (then_realloc {b} bytes p add_size align s h) =
    Ensures-ok
      (realloc_add-After malloc good a last bytes b p add_size align (Allocs-After good last s)) h

-- The first chunk, when the address is in it, and what is behind a chunk without it.
free_until-Since :
    (a : Allocator) (cs : List Chunk)
    → LastInHead a.last_alloc a.chunks
    → Since a cs
    → restore (head_current a.chunks) (free_until a.last_alloc cs) ≡ a.chunks
unfolding free_until
free_until-Since a [] last (emptied e) = sym e
free_until-Since a _ last (grown {c} {cs} e current) =
    (let l = subst (LastInHead a.last_alloc) e last in
      rw (le→leb c.base a.last_alloc l.0, lt→ltb a.last_alloc c.end l.1, e) refl)
free_until-Since a _ last (later {cs} c (inl below) s) =
    rw (lt→leb c.base a.last_alloc below, free_until) (free_until-Since a cs last s)
free_until-Since a _ last (later {cs} c (inr above) s) =
    elim (Bool-cases (leb c.base a.last_alloc)) [
      | inl e ↦ rw (e, le→ltb a.last_alloc c.end above) (free_until-Since a cs last s)
      | inr e ↦ rw e (free_until-Since a cs last s)
    ]

-- Over a malloc that behaves as documented, an allocator whose last block starts in its first chunk
-- is back in the very state of a mark after any sequence of allocations and reallocations that
-- return and a reset to that mark.
pub reset_to_mark-Allocs :
    (malloc : Malloc) (a b : Allocator)
    → IsMalloc malloc
    → LastInHead a.last_alloc a.chunks
    → Allocs malloc a b
    → reset_to_mark b (mark a) ≡ a
unfolding reset_to_mark mark
reset_to_mark-Allocs malloc a b good last s =
    rw (after.min_chunk_size, after.reset_mark, free_until-Since a b.chunks last after.chunks) refl
  where
    after : After a b
    after = Allocs-After good last s
