-- ===== src/PredBbs/Tests.antt =====
-- Predecessors of the blocks of a small function.
use pnacl_c.Base.{
  ℕ, zero, suc, ◌<◌, ◌≡◌, ◌↔◌, refl, subst, arith, List, [], ◌∷◌, length, map, get_elem?, some, ok,
  fault, inl, inr,
}
use pnacl_c.PredBbs.{calculate_pred_bbs, count_preds, count_succs, fill_preds, fill_succs}
use pnacl_c.PredBbs.Fill.{preds_of, Among-cons}
use pnacl_c.PredBbs.Inverse.{AllBelow, calculate_pred_bbs-inverse}
use pnacl_c.Liveness.Push.{Among}

-- Block 0 goes to 1 and 2, and 1 to 2 by both of its ends.
abbrev bbs : List (List ℕ)
bbs = (1 ∷ 2 ∷ []) ∷ (2 ∷ 2 ∷ []) ∷ [] ∷ []

calculate_pred_bbs_test :
    calculate_pred_bbs bbs ≡ ok (0 ∷ 1 ∷ 3 ∷ [], [] ∷ (0 ∷ []) ∷ (0 ∷ 1 ∷ 1 ∷ []) ∷ [])
unfolding calculate_pred_bbs count_preds count_succs fill_preds fill_succs
calculate_pred_bbs_test = refl

outside_test : calculate_pred_bbs ((3 ∷ []) ∷ []) ≡ fault
unfolding calculate_pred_bbs count_preds count_succs fill_preds fill_succs
outside_test = refl

-- A loop of two blocks.
abbrev two_blocks : List (List ℕ)
two_blocks = (1 ∷ []) ∷ (0 ∷ []) ∷ []

one_below : (j i : ℕ) (succs : List ℕ) → j < 2 → some (j ∷ []) ≡ some succs → Among i succs → i < 2
one_below j i succs h e m =
    elim (Among-cons i j [] (subst (λ (l : List ℕ). Among i l) (same e) m)) [
      | inl q ↦ omega arith
      | inr k ↦ elim k [ ]
    ]
  where
    same : some (j ∷ []) ≡ some succs → succs ≡ j ∷ []
    same e = cc

two_blocks-AllBelow : AllBelow 2 two_blocks
two_blocks-AllBelow zero i succs e m = one_below 1 i succs (omega arith) e m
two_blocks-AllBelow (suc zero) i succs e m = one_below 0 i succs (omega arith) e m
two_blocks-AllBelow (suc (suc k)) i succs e m = cc

calculate_pred_bbs-inverse_example :
    (preds : List (List ℕ)) × (calculate_pred_bbs two_blocks ≡ ok (map length preds, preds))
    × (length preds ≡ 2)
    × ((i m : ℕ)
        → Among m (preds_of preds i)
          ↔ ((succs : List ℕ) × (get_elem? two_blocks m ≡ some succs) × Among i succs))
calculate_pred_bbs-inverse_example = calculate_pred_bbs-inverse two_blocks two_blocks-AllBelow
