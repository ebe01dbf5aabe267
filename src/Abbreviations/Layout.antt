-- ===== src/Abbreviations/Layout.antt =====
-- The one allocation that holds a list of abbreviations.
use pnacl_c.Base.{
  ℕ, ◌+◌, ◌-◌, ◌*◌, ◌≤◌, ◌<◌, ◌≡◌, ◌⊎◌, subst, refl, sym, ap, ◌∙◌, arith, inl, inr, Bool, true,
  false, ◌||◌, lt→ltb, ◌==◌, List, [], ◌∷◌, ◌++◌, some, length, length-append, get_elem?,
}
use pnacl_c.Base.{ok, Ensures-ok, ◌>>=◌}
use mathlib.Core.List.{append-nil, append_assoc}
use pnacl_c.Abbreviations.Grammar.{IsAbbrev, read_ops-Ensures}
use pnacl_c.BitStream.{BitStream, read_vbr}
use pnacl_c.Record.{AbbrevOp, Abbrev}
use pnacl_c.Abbreviations.{
  Header, Abbrevs, sizeof_abbrev, sizeof_op, memmove, allocate, write_ops, last_ops, write_last,
  copy, copy_headers, max_block_ids, copy_abbrevs_for_block_id, read_ops, read_definition,
}
use pnacl_c.Abbreviations.Offsets.{
  headers_at, ops_end, AreStored, ops_start, Holds, abbrevs_of, Holds-abbrevs_of,
  place_headers-headers_at, placed_end-headers_at, length-headers_at, headers_at-append,
  ops_end-append, ops_end-shift, last_ops-append, AreStored-same, AreStored-append, write_ops-front,
  ops_from-write_ops, memmove-moved,
}

-- The list by its memory, and the list that has room for more ops.
abbrev laid_out : List Abbrev → (ℕ → AbbrevOp) → Abbrevs
laid_out xs memory = record {
  headers = headers_at (ops_start xs) xs;
  size = ops_end (ops_start xs) xs;
  memory = memory;
}

Holds-laid_out : (a : Abbrevs) (xs : List Abbrev) → Holds a xs → a ≡ laid_out xs a.memory
Holds-laid_out a xs h = eta a.headers a.size h.headers h.size
  where
    eta :
        (headers : List Header) (size : ℕ)
        → headers ≡ headers_at (ops_start xs) xs
        → size ≡ ops_end (ops_start xs) xs
        → record { headers = headers; size = size; memory = a.memory } ≡ laid_out xs a.memory
    eta headers size e f = rw (e, f) refl

abbrev moved : List Abbrev → (ℕ → AbbrevOp) → ℕ → AbbrevOp
moved xs memory =
    memmove (ops_start xs + sizeof_abbrev) (ops_start xs) (ops_end (ops_start xs) xs - ops_start xs)
      memory

abbrev grown : List Abbrev → Abbrev → (ℕ → AbbrevOp) → Abbrevs
grown xs src memory = record {
  headers = headers_at (ops_start xs + sizeof_abbrev) (xs ++ src ∷ []);
  size = ops_end (ops_start xs) xs + (sizeof_abbrev + length src * sizeof_op);
  memory = moved xs memory;
}

may_grow :
    (is_last : Bool) (xs : List Abbrev)
    → (is_last ≡ true) ⊎ (xs ≡ [])
    → (is_last || (length xs == 0)) ≡ true
may_grow is_last xs (inl e) = rw e refl
may_grow true xs (inr e) = refl
may_grow false xs (inr e) = rw e refl

allocate-grown :
    (is_last : Bool) (xs : List Abbrev) (src : Abbrev) (memory : ℕ → AbbrevOp)
    → (is_last ≡ true) ⊎ (xs ≡ [])
    → allocate is_last (laid_out xs memory) (length src) ≡ ok (grown xs src memory)
unfolding allocate
allocate-grown is_last xs src memory last =
    rw
      (
        length-headers_at (ops_start xs) xs,
        may_grow is_last xs last,
        place_headers-headers_at (ops_start xs + sizeof_abbrev) (ops_start xs) xs,
        placed_end-headers_at (ops_start xs + sizeof_abbrev) (ops_start xs) xs,
        headers_at-append (ops_start xs + sizeof_abbrev) xs src,
      )
      refl

start_append :
    (xs : List Abbrev) (src : Abbrev) → ops_start xs + sizeof_abbrev ≡ ops_start (xs ++ src ∷ [])
start_append xs src = omega (arith, length-append xs (src ∷ []))

last_ops-headers_at :
    (at : ℕ) (xs : List Abbrev) (src : Abbrev)
    → last_ops (headers_at at (xs ++ src ∷ [])) ≡ ops_end at xs
last_ops-headers_at at xs src =
    ap last_ops (sym (headers_at-append at xs src))
    ∙ last_ops-append (headers_at at xs) record { num_ops = length src; ops = ops_end at xs }

abbrev new_ops : List Abbrev → ℕ
new_ops xs = ops_end (ops_start xs + sizeof_abbrev) xs

abbrev written : List Abbrev → Abbrev → (ℕ → AbbrevOp) → ℕ → AbbrevOp
written xs src memory = write_ops (new_ops xs) src (moved xs memory)

grown-stored :
    (xs : List Abbrev) (src : Abbrev) (memory : ℕ → AbbrevOp)
    → AreStored memory (ops_start xs) xs
    → AreStored (written xs src memory) (ops_start xs + sizeof_abbrev) (xs ++ src ∷ [])
grown-stored xs src memory h =
    AreStored-append (written xs src memory) (ops_start xs + sizeof_abbrev) xs src
      (AreStored-same memory (written xs src memory) (ops_start xs) sizeof_abbrev xs kept h)
      (ops_from-write_ops (new_ops xs) src (moved xs memory))
  where
    kept :
        (p : ℕ)
        → ops_start xs ≤ p
        → p < ops_end (ops_start xs) xs
        → memory p ≡ written xs src memory (p + sizeof_abbrev)
    kept p l k =
        memmove-moved (ops_start xs + sizeof_abbrev) (ops_start xs)
          (ops_end (ops_start xs) xs - ops_start xs) memory p sizeof_abbrev l (omega arith) refl
        ∙ sym (
            write_ops-front (new_ops xs) src (moved xs memory) (p + sizeof_abbrev)
              (omega (arith, k, ops_end-shift (ops_start xs) sizeof_abbrev xs)))

grown-Holds :
    (xs : List Abbrev) (src : Abbrev) (memory : ℕ → AbbrevOp)
    → AreStored memory (ops_start xs) xs
    → Holds (write_last (grown xs src memory) src) (xs ++ src ∷ [])
grown-Holds xs src memory h = record {
  headers = ap (λ (at : ℕ). headers_at at (xs ++ src ∷ [])) (start_append xs src);
  size = omega (
    arith,
    ops_end-append (ops_start (xs ++ src ∷ [])) xs src,
    ap (λ (at : ℕ). ops_end at xs) (start_append xs src),
    ops_end-shift (ops_start xs) sizeof_abbrev xs,
  );
  stored =
      subst
        (λ (at : ℕ).
          AreStored
            (write_ops (last_ops (headers_at (ops_start xs + sizeof_abbrev) (xs ++ src ∷ []))) src
              (moved xs memory))
            at (xs ++ src ∷ []))
        (start_append xs src)
        (rw (last_ops-headers_at (ops_start xs + sizeof_abbrev) xs src)
          (grown-stored xs src memory h));
}

-- A list that gets room for some ops, and then those ops.
Holds-allocate :
    (is_last : Bool) (a : Abbrevs) (xs : List Abbrev) (src : Abbrev)
    → Holds a xs
    → (is_last ≡ true) ⊎ (xs ≡ [])
    → (a' : Abbrevs) × (allocate is_last a (length src) ≡ ok a')
      × Holds (write_last a' src) (xs ++ src ∷ [])
Holds-allocate is_last a xs src h last = (
  grown xs src a.memory,
  ap (λ (b : Abbrevs). allocate is_last b (length src)) (Holds-laid_out a xs h)
      ∙ allocate-grown is_last xs src a.memory last,
  grown-Holds xs src a.memory h.stored,
)

module _ (src : Abbrevs) where
  Holds-copy_headers :
      (is_last : Bool) (at : ℕ) (zs : List Abbrev) (dest : Abbrevs) (xs : List Abbrev)
      → AreStored src.memory at zs
      → Holds dest xs
      → (is_last ≡ true) ⊎ (xs ≡ [])
      → (a : Abbrevs) × (copy_headers is_last src (headers_at at zs) dest ≡ ok a)
        × Holds a (xs ++ zs)
  unfolding copy_headers copy
  Holds-copy_headers is_last at [] dest xs stored h last =
      (dest, refl, subst (λ (l : List Abbrev). Holds dest l) (sym (append-nil xs)) h)
  Holds-copy_headers is_last at (z ∷ zs) dest xs (own, stored) h last =
      let (grown, made, held) = Holds-allocate is_last dest xs z h last in
      let (a, rest, held') =
        Holds-copy_headers true (at + length z * sizeof_op) zs (write_last grown z) (xs ++ z ∷ [])
          stored held (inl refl) in
      (
        a,
        ap
              (λ (l : Abbrev). copy is_last dest l >>= λ d.
                copy_headers true src (headers_at (at + length z * sizeof_op) zs) d)
              own
            ∙ rw made rest,
        subst (λ (l : List Abbrev). Holds a l) (append_assoc xs (z ∷ []) zs) held',
      )

-- Copying the block info's abbreviations for a block to a list that is the last allocation, or has
-- none yet, ends; each list has its headers and its ops in one allocation, and the pointers of the
-- headers afterwards lead to the abbreviations from before, and behind them to the copied ones, in
-- order.
pub copy_abbrevs_for_block_id-Holds :
    (is_last : Bool) (context : List Abbrevs) (block_id : ℕ) (src dest : Abbrevs)
    (xs ys : List Abbrev)
    → block_id < max_block_ids
    → get_elem? context block_id ≡ some src
    → Holds src ys
    → Holds dest xs
    → (is_last ≡ true) ⊎ (xs ≡ [])
    → (a : Abbrevs) × (copy_abbrevs_for_block_id is_last context block_id dest ≡ ok a)
      × Holds a (xs ++ ys)
      × (abbrevs_of a ≡ xs ++ ys)
unfolding copy_abbrevs_for_block_id
copy_abbrevs_for_block_id-Holds is_last context block_id src dest xs ys small own held h last =
    let (a, e, after) =
      Holds-copy_headers src is_last (ops_start ys) ys dest xs held.stored h last in
    (
      a,
      rw (lt→ltb block_id max_block_ids small, own)
          (ap (λ (hs : List Header). copy_headers is_last src hs dest) held.headers ∙ e),
      after,
      Holds-abbrevs_of a (xs ++ ys) after,
    )

-- A definition whose ops can be read, into a list that is the last allocation, or has none yet, ends
-- with the list in one allocation: the pointers of its headers lead to the abbreviations from before,
-- and the last one to the ops that were read, of which there are as many as the definition says, each
-- array has an element behind it, and no width is above 32.
pub read_definition-Holds :
    (is_last : Bool) (abbrevs : Abbrevs) (xs : List Abbrev) (bs bs1 bs2 : BitStream) (num_ops : ℕ)
    (x : Abbrev)
    → Holds abbrevs xs
    → (is_last ≡ true) ⊎ (xs ≡ [])
    → read_vbr bs 5 ≡ ok (num_ops, bs1)
    → read_ops num_ops bs1 ≡ ok (x, bs2)
    → (a : Abbrevs) × (read_definition is_last abbrevs bs ≡ ok (a, bs2))
      × Holds a (xs ++ x ∷ [])
      × (abbrevs_of a ≡ xs ++ x ∷ [])
      × IsAbbrev x
      × (length x ≡ num_ops)
unfolding read_definition
read_definition-Holds is_last abbrevs xs bs bs1 bs2 num_ops x h last count ops =
    let (valid, n) = Ensures-ok (read_ops-Ensures num_ops bs1) ops in
    let (a, made, held) = Holds-allocate is_last abbrevs xs x h last in
    (
      write_last a x,
      rw (count, sym n, made, ap (λ (m : ℕ). read_ops m bs1) n ∙ ops) refl,
      held,
      Holds-abbrevs_of (write_last a x) (xs ++ x ∷ []) held,
      valid,
      n,
    )
