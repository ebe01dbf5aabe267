-- ===== src/PredBbs.antt =====
-- src/pn_calculate_pred_bbs.h: the predecessors of each block, from the successors.
pub mod Fill
pub mod Inverse
mod Tests
use pnacl_c.Base.{
  ℕ, suc, ◌+◌, List, [], ◌∷◌, ◌++◌, length, get_elem?, set, replicate, ltb, Result, ok, ◌>>=◌, ◌>>◌,
  assert, from_option,
}

-- The first pass counts the predecessors.
unfoldable pub count_succs : List ℕ → List ℕ → Result (List ℕ)
count_succs counts [] = ok counts
count_succs counts (succ ∷ succs) = do
  assert (ltb succ (length counts))
  count ← from_option (get_elem? counts succ)
  count_succs (set counts succ (count + 1)) succs

unfoldable pub count_preds : List ℕ → List (List ℕ) → Result (List ℕ)
unfolding count_succs
count_preds counts [] = ok counts
count_preds counts (succs ∷ bbs) = do counts' ← count_succs counts succs; count_preds counts' bbs

-- The last pass writes block `n` behind the predecessors of its successors, whose number it keeps.
unfoldable pub fill_succs : ℕ → List (List ℕ) → List ℕ → Result (List (List ℕ))
fill_succs n preds [] = ok preds
fill_succs n preds (succ ∷ succs) = do
  own ← from_option (get_elem? preds succ)
  fill_succs n (set preds succ (own ++ n ∷ [])) succs

unfoldable pub fill_preds : ℕ → List (List ℕ) → List (List ℕ) → Result (List (List ℕ))
unfolding fill_succs
fill_preds n preds [] = ok preds
fill_preds n preds (succs ∷ bbs) = do
  preds' ← fill_succs n preds succs
  fill_preds (suc n) preds' bbs

-- For the successors of each block: the counts that the arrays are allocated by, and the arrays.
unfoldable pub calculate_pred_bbs : List (List ℕ) → Result (List ℕ × List (List ℕ))
unfolding count_preds fill_preds
calculate_pred_bbs bbs = do
  counts ← count_preds (replicate (length bbs) 0) bbs
  preds ← fill_preds 0 (replicate (length bbs) []) bbs
  ok (counts, preds)
