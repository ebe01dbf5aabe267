-- ===== src/Allocator/Blocks.antt =====
-- The blocks that the allocator hands out.
use pnacl_c.Base.{
  ℕ, zero, suc, ◌+◌, ◌*◌, ◌-◌, ◌%◌, ◌^◌, ◌≤◌, ◌<◌, ◌≡◌, ◌⊎◌, inl, inr, refl, subst, arith, List, [],
  ◌∷◌, none, some, true,
}
use pnacl_c.Base.{Result, ok, fatal, get_elem?, ltb, Bool-cases, Option-cases, le→leb, lt→ltb}
use pnacl_c.Bits.{is_power_of_two, next_power_of_two}
use pnacl_c.Bits.Power.{next_power_of_two-power}
use pnacl_c.Allocator.Align.{
  align_up_pointer, is_aligned_pointer_lem, align_up_pointer_lem, align_up_pointer-aligned,
}
use pnacl_c.Allocator.{
  Chunk, Allocator, Malloc, sizeof_chunk, pn_max, pn_malloc, size_t_add, new_chunk, alloc_new,
  alloc_in, alloc,
}
use pnacl_c.Allocator.Reset.{Apart, IsMalloc}
use native.Mathlib.Nat.{mod-eq_of_lt}

-- Chunks that are in order: the struct comes first, and chunks do not overlap.
pub data InOrder : List Chunk → Type 0 where
  no_chunk : InOrder []
  chunk :
      {c : Chunk} {cs : List Chunk}
      → (1 ≤ c.base) × (c.base + sizeof_chunk ≤ c.current) × (c.current ≤ c.end) × (c.end ≤ 2 ^ 62)
      → ((k : ℕ) (d : Chunk) → get_elem? cs k ≡ some d → Apart c.base c.end d)
      → InOrder cs
      → InOrder (c ∷ cs)

some_injective : {c d : Chunk} → some d ≡ some c → d ≡ c
some_injective h = cc

current_in :
    {cs : List Chunk}
    → InOrder cs
    → (k : ℕ) (c : Chunk) → get_elem? cs k ≡ some c
    → c.current ≤ c.end
current_in InOrder.no_chunk k c h = cc
current_in (InOrder.chunk {c = d} l apart r) zero c h =
    subst (λ (x : Chunk). x.current ≤ x.end) (some_injective h) l.2
current_in (InOrder.chunk l apart r) (suc k) c h = current_in r k c h

-- A block of `size` bytes at `p`: aligned, between the struct and the end of the first chunk, which
-- is used up to the block's end, and apart from all that was in use before.
pub record IsHanded (before : List Chunk) (size align p : ℕ) (a : Allocator) : Type 0 where
  pub aligned : p % align ≡ 0
  pub head : Chunk
  pub tail : List Chunk
  pub first : a.chunks ≡ head ∷ tail
  pub above : head.base + sizeof_chunk ≤ p
  pub used : p + size ≡ head.current
  pub apart :
      (k : ℕ) (c : Chunk) → get_elem? before k ≡ some c → (c.current ≤ p) ⊎ (p + size ≤ c.base)
  pub last : a.last_alloc ≡ p
  pub in_order : InOrder a.chunks

-- A returned block, or the end of the program for want of storage.
pub data Outcome (malloc : Malloc) (a : Allocator) (size align : ℕ)
    : Result (ℕ × Allocator) → Type 0 where
  handed :
      {p : ℕ} {b : Allocator}
      → IsHanded a.chunks size align p b
      → Outcome malloc a size align (ok (p, b))
  no_storage : (bytes : ℕ) → malloc a.chunks bytes ≡ none → Outcome malloc a size align fatal

module _ (malloc : Malloc) (good : IsMalloc malloc) (a : Allocator) (size align : ℕ)
    (small : size < 2 ^ 31) (power : is_power_of_two align ≡ true) (narrow : align < 2 ^ 32)
    (sized : a.min_chunk_size ≤ 2 ^ 62) (in_order : InOrder a.chunks) where
  chunk_room : ℕ
  chunk_room = pn_max (size + sizeof_chunk + align - 1) a.min_chunk_size

  room : (n : ℕ) × (next_power_of_two chunk_room ≡ ok n) × (size + sizeof_chunk + align ≤ n + 1)
  unfolding chunk_room
  room = (2 ^ p.0, p.1, ground (arith, p.2))
    where
      p :
          (n : ℕ) × (next_power_of_two chunk_room ≡ ok (2 ^ n))
          × (chunk_room ≤ 2 ^ n)
          × ((n ≡ 0) ⊎ (2 ^ n < 2 * chunk_room))
      p = next_power_of_two-power chunk_room (ground arith)

  -- The block at the start of a chunk at `base`.
  alloc_new-some :
      (base : ℕ)
      → malloc a.chunks room.0 ≡ some base
      → Outcome malloc a size align (alloc_new malloc a size align)
  unfolding alloc_new new_chunk chunk_room
  alloc_new-some base e =
      rw
        (
          lt→ltb size 0x80000000 small,
          room.1,
          e,
          pn_malloc,
          is_aligned_pointer_lem base g.1,
          up.1,
          still,
          whole,
          le→leb up.0 (up.0 + size) (omega arith),
          le→leb (up.0 + size) (base + room.0) inside,
        )
        (Outcome.handed (record {
          aligned = up.4;
          head = _;
          tail = _;
          first = refl;
          above = up.2;
          used = refl;
          apart = λ k c h. below_or_behind c (g.3 k c h) (current_in in_order k c h);
          last = refl;
          in_order = InOrder.chunk (g.0, omega (arith, up.2), inside, g.2) g.3 in_order;
        }))
    where
      g :
          (1 ≤ base)
          × (base % 8 ≡ 0)
          × (base + room.0 ≤ 2 ^ 62)
          × ((k : ℕ) (c : Chunk) → get_elem? a.chunks k ≡ some c → Apart base (base + room.0) c)
      g = good a.chunks room.0 base e

      up :
          (q : ℕ) × (align_up_pointer (base + sizeof_chunk) align ≡ ok q)
          × (base + sizeof_chunk ≤ q)
          × (q < base + sizeof_chunk + align)
          × (q % align ≡ 0)
      up = align_up_pointer_lem (base + sizeof_chunk) align power (omega (arith, g.2, room.2))

      inside : up.0 + size ≤ base + room.0
      inside = omega (arith, up.3, room.2)

      still : align_up_pointer up.0 align ≡ ok up.0
      still =
          align_up_pointer-aligned up.0 align power (omega (arith, up.3, g.2, narrow, inside)) up.4

      whole : size_t_add up.0 size ≡ up.0 + size
      whole = mod-eq_of_lt (omega (arith, inside, g.2))

      below_or_behind :
          (c : Chunk)
          → Apart base (base + room.0) c
          → c.current ≤ c.end
          → (c.current ≤ up.0) ⊎ (up.0 + size ≤ c.base)
      below_or_behind c (inl over) l = inr (omega (arith, inside))
      below_or_behind c (inr under) l = inl (omega (arith, up.2))

  alloc_new-Outcome : Outcome malloc a size align (alloc_new malloc a size align)
  unfolding alloc_new new_chunk chunk_room
  alloc_new-Outcome = elim (Option-cases (malloc a.chunks room.0)) [
    | inl e ↦ rw (lt→ltb size 0x80000000 small, room.1, e, pn_malloc) (Outcome.no_storage room.0 e)
    | inr (base, e) ↦ alloc_new-some base e
  ]

  -- The block in the first chunk.
  alloc_head :
      (c : Chunk) (cs : List Chunk)
      → a.chunks ≡ c ∷ cs
      → InOrder (c ∷ cs)
      → Outcome malloc a size align (alloc_in malloc a (c ∷ cs) size align)
  unfolding alloc_in
  alloc_head c cs e (InOrder.chunk l apart r) = elim (Bool-cases (ltb c.end (up.0 + size))) [
    | inl over ↦ rw (up.1, whole, le→leb up.0 (up.0 + size) (omega arith), over) alloc_new-Outcome
    | inr fits ↦
        rw (up.1, whole, le→leb up.0 (up.0 + size) (omega arith), fits)
          (Outcome.handed (record {
            aligned = up.4;
            head = _;
            tail = _;
            first = refl;
            above = omega (arith, l, up.2);
            used = refl;
            apart = λ k d h.
                elsewhere (ground (arith, fits)) k d (subst (λ t. get_elem? t k ≡ some d) e h);
            last = refl;
            in_order =
                InOrder.chunk (l.0, omega (arith, l, up.2), ground (arith, fits), l.3) apart r;
          }))
  ]
    where
      up :
          (q : ℕ) × (align_up_pointer c.current align ≡ ok q)
          × (c.current ≤ q)
          × (q < c.current + align)
          × (q % align ≡ 0)
      up = align_up_pointer_lem c.current align power (omega (arith, l, narrow))

      whole : size_t_add up.0 size ≡ up.0 + size
      whole = mod-eq_of_lt (omega (arith, up.3, l, narrow, small))

      away :
          (d : Chunk)
          → up.0 + size ≤ c.end
          → Apart c.base c.end d
          → d.current ≤ d.end
          → (d.current ≤ up.0) ⊎ (up.0 + size ≤ d.base)
      away d fits (inl over) h = inr (omega arith)
      away d fits (inr under) h = inl (omega (arith, up.2, l))

      elsewhere :
          up.0 + size ≤ c.end
          → (k : ℕ) (d : Chunk) → get_elem? (c ∷ cs) k ≡ some d
          → (d.current ≤ up.0) ⊎ (up.0 + size ≤ d.base)
      elsewhere fits zero d h =
          inl (subst (λ (x : Chunk). x.current ≤ up.0) (some_injective h) up.2)
      elsewhere fits (suc k) d h = away d fits (apart k d h) (current_in r k d h)

  alloc_chunks :
      (chunks : List Chunk)
      → a.chunks ≡ chunks
      → Outcome malloc a size align (alloc_in malloc a chunks size align)
  unfolding alloc_in
  alloc_chunks [] e = alloc_new-Outcome
  alloc_chunks (c ∷ cs) e = alloc_head c cs e (subst InOrder e in_order)

  -- Over a malloc that behaves as documented, an allocation of less than 2^31 bytes at a power of two
  -- below 2^32, by an allocator whose chunks are in order, ends the program only when malloc has no
  -- storage, and otherwise returns a block that is aligned, has its size within the first chunk, and
  -- is apart from all that was in use, and leaves the chunks in order.
  pub alloc-Outcome : Outcome malloc a size align (alloc malloc a size align)
  unfolding alloc
  alloc-Outcome = alloc_chunks a.chunks refl
