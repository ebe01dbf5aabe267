-- ===== src/Phi/Count.antt =====
-- The arrays of phi assignments are as long as they were counted.
use pnacl_c.Base.{ℕ, zero, suc, ◌+◌, ◌≡◌, refl, ap, List, [], ◌∷◌, ◌++◌, map}
use pnacl_c.Base.{
  length, get_elem?, map-set, get_elem?-map, get_elem?-map-none, set, replicate, length-append, ltb,
  Option-cases, inl, inr,
}
use pnacl_c.Base.{both_returned, ok, fault, ◌>>=◌, assert, from_option}
use pnacl_c.Phi.{
  PhiUse, PhiAssign, count_uses, count_bbs, assign_uses, assign_of, assign_bbs,
  calculate_phi_assigns,
}

abbrev pub lengths : List (List PhiAssign) → List ℕ
lengths assigns = map length assigns

not_fault : {A B : Type 0} {a : A} → fault ≡ ok a → B
not_fault h = cc

-- A use counts one more where it appends one more.
count_uses-lengths :
    (n : ℕ) (assigns : List (List PhiAssign)) (uses : List PhiUse) {counts : List ℕ}
    → count_uses (lengths assigns) uses ≡ ok counts
    → (after : List (List PhiAssign)) × (assign_uses n assigns uses ≡ ok after)
      × (lengths after ≡ counts)
unfolding count_uses assign_uses
count_uses-lengths n assigns [] h = (assigns, refl, cc)
count_uses-lengths n assigns (u ∷ uses) {counts} h =
    elim (Option-cases (get_elem? assigns u.incoming_bb_id)) [
      | inl missing ↦
          not_fault (rw (get_elem?-map-none length assigns u.incoming_bb_id missing) at known)
      | inr (own, there) ↦ rw there (
          count_uses-lengths n (set assigns u.incoming_bb_id (own ++ assign_of n u ∷ [])) uses (
            rw
              (
                map-set length assigns u.incoming_bb_id (own ++ assign_of n u ∷ []),
                length-append own (assign_of n u ∷ []),
              )
              (rw (get_elem?-map length assigns u.incoming_bb_id there) at known)))
    ]
  where
    known :
        (from_option (get_elem? (lengths assigns) u.incoming_bb_id) >>= λ count.
        count_uses (set (lengths assigns) u.incoming_bb_id (count + 1)) uses)
        ≡ ok counts
    known = (both_returned (assert (ltb u.incoming_bb_id (length (lengths assigns)))) _ h).2

count_bbs-lengths :
    (n : ℕ) (assigns : List (List PhiAssign)) (bbs : List (List PhiUse)) {counts : List ℕ}
    → count_bbs (lengths assigns) bbs ≡ ok counts
    → (after : List (List PhiAssign)) × (assign_bbs n assigns bbs ≡ ok after)
      × (lengths after ≡ counts)
unfolding count_bbs assign_bbs
count_bbs-lengths n assigns [] h = (assigns, refl, cc)
count_bbs-lengths n assigns (uses ∷ bbs) h =
    let p = both_returned (count_uses (lengths assigns) uses) _ h in
    let q = count_uses-lengths n assigns uses p.1 in
    let r = count_bbs-lengths (suc n) q.0 bbs (rw q.2 p.2) in (r.0, rw q.1 r.1, r.2)

lengths-replicate : (k : ℕ) → lengths (replicate k []) ≡ replicate k 0
lengths-replicate zero = refl
lengths-replicate (suc k) = ap (λ t. 0 ∷ t) (lengths-replicate k)

-- If every use comes in from a block of the function, so that the first pass ends, then both passes
-- end, and the array of each block's assignments is as long as the first pass counted: no
-- assignment is written outside of the array that was allocated for it.
pub calculate_phi_assigns-lengths :
    (bbs : List (List PhiUse)) {counts : List ℕ}
    → count_bbs (replicate (length bbs) 0) bbs ≡ ok counts
    → (assigns : List (List PhiAssign)) × (calculate_phi_assigns bbs ≡ ok (counts, assigns))
      × (lengths assigns ≡ counts)
unfolding calculate_phi_assigns
calculate_phi_assigns-lengths bbs h =
    let r =
      count_bbs-lengths 0 (replicate (length bbs) []) bbs (rw (lengths-replicate (length bbs)) h) in
    (r.0, rw (h, r.1), r.2)
