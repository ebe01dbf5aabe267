-- ===== src/PredBbs/Inverse.antt =====
-- The predecessors are the inverse of the successors, and fit the arrays that were counted for them.
use pnacl_c.Base.{
  ℕ, zero, suc, ◌+◌, ◌<◌, ◌≡◌, ◌⊎◌, ◌↔◌, inl, inr, refl, sym, ap, ◌∙◌, subst, arith, List, [], ◌∷◌,
  map, length, length-replicate, get_elem?, get_or-replicate, replicate, some, ok,
}
use pnacl_c.PredBbs.{count_preds, fill_preds, calculate_pred_bbs}
use pnacl_c.Liveness.Push.{Among}
use pnacl_c.PredBbs.Fill.{lengths, preds_of, Filled, fill_succs-Filled}

-- Block `n + k` of the blocks from `n` on goes to `i`.
Edge : ℕ → List (List ℕ) → ℕ → ℕ → Type 0
Edge n bbs m i =
    (k : ℕ) × (succs : List ℕ) × (m ≡ n + k) × (get_elem? bbs k ≡ some succs) × Among i succs

Edge-cons-to :
    (n : ℕ) (succs : List ℕ) (bbs : List (List ℕ)) (m i : ℕ)
    → ((m ≡ n) × Among i succs) ⊎ Edge (suc n) bbs m i
    → Edge n (succs ∷ bbs) m i
unfolding Edge
Edge-cons-to n succs bbs m i (inl (e, h)) = (0, succs, omega arith, refl, h)
Edge-cons-to n succs bbs m i (inr (k, l, e, q, h)) = (suc k, l, omega arith, q, h)

Edge-cons-from :
    (n : ℕ) (succs : List ℕ) (bbs : List (List ℕ)) (m i : ℕ)
    → Edge n (succs ∷ bbs) m i
    → ((m ≡ n) × Among i succs) ⊎ Edge (suc n) bbs m i
unfolding Edge
Edge-cons-from n succs bbs m i (zero, l, e, q, h) =
    inl (omega arith, subst (λ (l : List ℕ). Among i l) (first q) h)
  where
    first : some succs ≡ some l → l ≡ succs
    first q = cc
Edge-cons-from n succs bbs m i (suc k, l, e, q, h) = inr (k, l, omega arith, q, h)

record AllFilled (n : ℕ) (preds bbs : List (List ℕ)) : Type 0 where
  after : List (List ℕ)
  fills : fill_preds n preds bbs ≡ ok after
  counts : count_preds (lengths preds) bbs ≡ ok (lengths after)
  same_length : length after ≡ length preds
  adds : (i m : ℕ) → Among m (preds_of after i) ↔ (Among m (preds_of preds i) ⊎ Edge n bbs m i)

one_block :
    (n : ℕ) (preds : List (List ℕ)) (succs : List ℕ) (bbs : List (List ℕ))
    → (own : Filled n preds succs) → AllFilled (suc n) own.after bbs
    → AllFilled n preds (succs ∷ bbs)
unfolding fill_preds count_preds
one_block n preds succs bbs own rest = record {
  after = rest.after;
  fills = rw own.fills rest.fills;
  counts = rw own.counts rest.counts;
  same_length = rest.same_length ∙ own.same_length;
  adds = λ i m. (λ h. to i m ((rest.adds i m).0 h), λ h. (rest.adds i m).1 (from i m h));
}
  where
    to :
        (i m : ℕ)
        → Among m (preds_of own.after i) ⊎ Edge (suc n) bbs m i
        → Among m (preds_of preds i) ⊎ Edge n (succs ∷ bbs) m i
    to i m (inr q) = inr (Edge-cons-to n succs bbs m i (inr q))
    to i m (inl h) = elim ((own.adds i m).0 h) [
      | inl k ↦ inl k
      | inr q ↦ inr (Edge-cons-to n succs bbs m i (inl q))
    ]

    from :
        (i m : ℕ)
        → Among m (preds_of preds i) ⊎ Edge n (succs ∷ bbs) m i
        → Among m (preds_of own.after i) ⊎ Edge (suc n) bbs m i
    from i m (inl h) = inl ((own.adds i m).1 (inl h))
    from i m (inr q) = elim (Edge-cons-from n succs bbs m i q) [
      | inl e ↦ inl ((own.adds i m).1 (inr e))
      | inr k ↦ inr k
    ]

-- All successors are blocks.
abbrev pub AllBelow : ℕ → List (List ℕ) → Type 0
AllBelow num_bbs bbs =
    (k i : ℕ) (succs : List ℕ) → get_elem? bbs k ≡ some succs → Among i succs → i < num_bbs

fill_preds-AllFilled :
    (n : ℕ) (preds bbs : List (List ℕ)) → AllBelow (length preds) bbs → AllFilled n preds bbs
unfolding fill_preds count_preds Edge
fill_preds-AllFilled n preds [] below = record {
  after = preds;
  fills = refl;
  counts = refl;
  same_length = refl;
  adds = λ i m. (λ h. inl h, λ h. elim h [ inl k ↦ k | inr q ↦ no_edge i q ]);
}
  where
    no_edge : (i : ℕ) {m : ℕ} → Edge n [] m i → Among m (preds_of preds i)
    no_edge i (k, succs, e, q, h) = cc
fill_preds-AllFilled n preds (succs ∷ bbs) below =
    let own = fill_succs-Filled n preds succs (λ i h. below 0 i succs refl h) in
    one_block n preds succs bbs own (
      fill_preds-AllFilled (suc n) own.after bbs
        (λ k i l q h. omega (arith, below (suc k) i l q h, own.same_length)))

lengths-replicate : (n : ℕ) → lengths (replicate n []) ≡ replicate n 0
lengths-replicate zero = refl
lengths-replicate (suc n) = ap (λ (l : List ℕ). 0 ∷ l) (lengths-replicate n)

-- In a function whose successors are blocks of it both passes end, the arrays are filled just up to
-- their counted lengths, and a block is among the predecessors of another exactly if the other is
-- among its successors.
pub calculate_pred_bbs-inverse :
    (bbs : List (List ℕ))
    → AllBelow (length bbs) bbs
    → (preds : List (List ℕ)) × (calculate_pred_bbs bbs ≡ ok (map length preds, preds))
      × (length preds ≡ length bbs)
      × ((i m : ℕ)
          → Among m (preds_of preds i)
            ↔ ((succs : List ℕ) × (get_elem? bbs m ≡ some succs) × Among i succs))
unfolding calculate_pred_bbs Edge
calculate_pred_bbs-inverse bbs below = (
  run.after,
  rw (sym (lengths-replicate (length bbs)), run.counts, run.fills) refl,
  run.same_length ∙ length-replicate {A = List ℕ} (length bbs) [],
  λ i m. (λ h. to i m ((run.adds i m).0 h), λ h. (run.adds i m).1 (inr (from i m h))),
)
  where
    run : AllFilled 0 (replicate (length bbs) []) bbs
    run = fill_preds-AllFilled 0 (replicate (length bbs) []) bbs (λ k i succs q h.
        omega (arith, below k i succs q h, length-replicate {A = List ℕ} (length bbs) []))

    to :
        (i m : ℕ)
        → Among m (preds_of (replicate (length bbs) []) i) ⊎ Edge 0 bbs m i
        → (succs : List ℕ) × (get_elem? bbs m ≡ some succs) × Among i succs
    to i m (inl h) = elim (rw (get_or-replicate {A = List ℕ} (length bbs) i []) at h) [ ]
    to i m (inr (k, succs, e, q, h)) = (succs, rw (sym (at_zero k e)) q, h)
      where
        at_zero : {m : ℕ} (k : ℕ) → m ≡ 0 + k → k ≡ m
        at_zero k e = omega arith

    from :
        (i m : ℕ)
        → (succs : List ℕ) × (get_elem? bbs m ≡ some succs) × Among i succs
        → Edge 0 bbs m i
    from i m (succs, q, h) = (m, succs, omega arith, q, h)
