-- ===== src/Liveness/Tests.antt =====
-- Values that are traced through small functions.
use pnacl_c.Base.{
  ℕ, zero, suc, ◌+◌, ◌^◌, ◌-◌, ◌<◌, ◌≡◌, refl, subst, arith, false, List, [], ◌∷◌, get_elem?, some,
  ok, inl, inr,
}
use pnacl_c.Base.BitAt.{bit_at}
use pnacl_c.BitSet.{clear, set_bit, is_set}
use pnacl_c.BitSet.Laws.{member}
use pnacl_c.Liveness.{
  Block, LivenessState, calculate_liveness_per_value, walk, visit, push_preds, push_pred,
  phi_uses_liveness, uses_liveness, calculate_liveness, liveness_blocks,
}
use pnacl_c.Liveness.Push.{Among}
use pnacl_c.Liveness.Rounds.{IsClosed}
use pnacl_c.Liveness.Correct.{Traced, calculate_liveness_per_value-Traced}
use pnacl_c.PredBbs.Fill.{Among-cons}

-- A block that defines nothing.
abbrev block : List ℕ → List ℕ → List (ℕ × ℕ) → Block
block pred_bb_ids uses phi_uses = record {
  pred_bb_ids = pred_bb_ids;
  first_def_id = 2 ^ 32 - 1;
  last_def_id = 2 ^ 32 - 1;
  uses = uses;
  phi_uses = phi_uses;
}

-- The first block, which defines value 10.
abbrev entry : Block
entry = record { pred_bb_ids = []; first_def_id = 10; last_def_id = 10; uses = []; phi_uses = [] }

abbrev state : LivenessState
state = record {
  seen_values = 0 ∷ [];
  livein = 0 ∷ [];
  seen_bbs = 0 ∷ [];
  ranges = record { first_bb_id = 0; last_bb_id = 0 } ∷ [];
}

-- The value is used in a loop of the blocks 1 and 3, and in the block 2, which the first one goes to
-- as well. It is traced from block 2 alone, so that its range ends there, although it is live
-- through block 3.
abbrev loop : List Block
loop =
    entry
    ∷ block (0 ∷ 3 ∷ []) (10 ∷ []) []
    ∷ block (0 ∷ []) (10 ∷ []) []
    ∷ block (1 ∷ []) [] []
    ∷ []

one_use_test :
    liveness_blocks 10 10 loop 4 state
    ≡ ok record {
      seen_values = 1 ∷ [];
      livein = 4 ∷ [];
      seen_bbs = 5 ∷ [];
      ranges = record { first_bb_id = 0; last_bb_id = 2 } ∷ [];
    }
unfolding liveness_blocks calculate_liveness phi_uses_liveness uses_liveness
    calculate_liveness_per_value walk visit push_preds push_pred is_set set_bit clear
one_use_test = refl

-- From its use in the loop it is traced through both of the loop's blocks.
loop_use_test :
    calculate_liveness_per_value 10 loop state 1 0
    ≡ ok record {
      seen_values = 1 ∷ [];
      livein = 10 ∷ [];
      seen_bbs = 11 ∷ [];
      ranges = record { first_bb_id = 0; last_bb_id = 3 } ∷ [];
    }
unfolding calculate_liveness_per_value walk visit push_preds push_pred is_set set_bit clear
loop_use_test = refl

-- Behind a phi use of a constant no other phi use is looked at: the value is not traced.
phi_use_test :
    liveness_blocks 10 10
      (entry ∷ block (0 ∷ []) [] [] ∷ block (1 ∷ []) [] ((1, 3) ∷ (1, 10) ∷ []) ∷ [])
      3
      state
    ≡ ok state
unfolding liveness_blocks calculate_liveness phi_uses_liveness uses_liveness
    calculate_liveness_per_value
phi_use_test = refl

-- A block that is its own predecessor, behind the first one.
abbrev bbs : List Block
bbs = entry ∷ block (0 ∷ 1 ∷ []) (10 ∷ []) [] ∷ []

bbs-IsClosed : IsClosed bbs (10 + 0) 1
unfolding IsClosed
bbs-IsClosed = (omega arith, preds)
  where
    first : {b : Block} → some entry ≡ some b → b ≡ entry
    first e = cc

    second :
        {b : Block}
        → some (block (0 ∷ 1 ∷ []) (10 ∷ []) []) ≡ some b
        → b ≡ block (0 ∷ 1 ∷ []) (10 ∷ []) []
    second e = cc

    below : (pred : ℕ) → Among pred (0 ∷ 1 ∷ []) → pred < 2
    below pred m = elim (Among-cons pred 0 (1 ∷ []) m) [
      | inl e ↦ omega arith
      | inr k ↦ elim (Among-cons pred 1 [] k) [ inl e ↦ omega arith | inr l ↦ elim l [ ] ]
    ]

    preds :
        (b pred : ℕ) (bb : Block) → get_elem? bbs b ≡ some bb → Among pred bb.pred_bb_ids → pred < 2
    preds zero pred bb e m = elim (subst (λ (b : Block). Among pred b.pred_bb_ids) (first e) m) [ ]
    preds (suc zero) pred bb e m =
        below pred (subst (λ (b : Block). Among pred b.pred_bb_ids) (second e) m)
    preds (suc (suc b)) pred bb e m = cc

fresh : member (0 ∷ []) 0 ≡ false
unfolding member bit_at
fresh = refl

calculate_liveness_per_value-Traced_example :
    (st' : LivenessState) × (calculate_liveness_per_value 10 bbs state 1 0 ≡ ok st')
    × Traced bbs (10 + 0) 1 0 (record { first_bb_id = 0; last_bb_id = 0 }) state st'
calculate_liveness_per_value-Traced_example =
    calculate_liveness_per_value-Traced 10 bbs state 1 0
      (record { first_bb_id = 0; last_bb_id = 0 }) bbs-IsClosed (omega arith) (omega arith)
      (omega arith) fresh refl (omega arith)
