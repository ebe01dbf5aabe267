-- ===== src/Liveness.antt =====
-- src/pn_calculate_liveness.h: the blocks that a value is live into, and the range of the blocks that
-- it is live in.
pub mod Count
pub mod Push
pub mod Rounds
pub mod Values
pub mod Correct
mod Tests
use pnacl_c.Base.{
  ℕ, zero, suc, ◌+◌, ◌-◌, Bool, true, false, ◌&&◌, if◌then◌else◌, ltb, leb, List, [], ◌∷◌, length,
  get_elem?, set, Result, ok, stuck, ◌>>=◌, ◌>>◌, assert, from_option,
}
use pnacl_c.BitSet.{BitSet, clear, set_bit, is_set}

-- What the pass uses of a PNBasicBlock. The ids of the values that it defines are those from the first to the last.
pub record Block : Type 0 where
  pub pred_bb_ids : List ℕ
  pub first_def_id : ℕ
  pub last_def_id : ℕ
  pub uses : List ℕ
  pub phi_uses : List (ℕ × ℕ)

pub record LivenessRange : Type 0 where
  pub first_bb_id : ℕ
  pub last_bb_id : ℕ

-- PNLivenessState, with the ranges of the function's values.
pub record LivenessState : Type 0 where
  pub seen_values : BitSet
  pub livein : BitSet
  pub seen_bbs : BitSet
  pub ranges : List LivenessRange

-- The walk for one value: the stack, its top first, and the value's range.
pub record Walk : Type 0 where
  pub livein : BitSet
  pub seen_bbs : BitSet
  pub stack : List ℕ
  pub range : LivenessRange

abbrev pub defines : Block → ℕ → Bool
defines bb value_id = leb bb.first_def_id value_id && leb value_id bb.last_def_id

abbrev pub extend : LivenessRange → ℕ → LivenessRange
extend range bb_id =
    if ltb bb_id range.first_bb_id
    then record range { first_bb_id = bb_id }
    else (if ltb range.last_bb_id bb_id then record range { last_bb_id = bb_id } else range)

-- A predecessor, for a stack with room for `num_bbs` blocks.
unfoldable pub push_pred : ℕ → BitSet → List ℕ → ℕ → Bool → Result (BitSet × List ℕ)
push_pred num_bbs seen_bbs stack pred true = ok (seen_bbs, stack)
push_pred num_bbs seen_bbs stack pred false = do
  assert (ltb (length stack) num_bbs)
  seen_bbs' ← set_bit seen_bbs pred true
  ok (seen_bbs', pred ∷ stack)

-- The loop over the predecessors.
unfoldable pub push_preds : ℕ → BitSet → List ℕ → List ℕ → Result (BitSet × List ℕ)
unfolding push_pred
push_preds num_bbs seen_bbs stack [] = ok (seen_bbs, stack)
push_preds num_bbs seen_bbs stack (pred ∷ preds) = do
  seen ← is_set seen_bbs pred
  next ← push_pred num_bbs seen_bbs stack pred seen
  push_preds num_bbs next.0 next.1 preds

-- A round of the loop, for the block that was on top of the stack.
unfoldable pub visit : List Block → ℕ → Walk → ℕ → Result Walk
unfolding push_preds
visit bbs value_id w bb_id = do
  bb ← from_option (get_elem? bbs bb_id)
  if defines bb value_id then ok w else (do
    processed ← is_set w.livein bb_id
    if processed then ok w else (do
      livein ← set_bit w.livein bb_id true
      next ← push_preds (length bbs) w.seen_bbs w.stack bb.pred_bb_ids
      ok record {
        livein = livein;
        seen_bbs = next.0;
        stack = next.1;
        range = extend w.range bb_id;
      }))

-- while (stack_top > 0), by the number of rounds.
abbrev pub walk_from : List Block → ℕ → Walk → (Walk → Result Walk) → Result Walk
walk_from bbs value_id w next = elim w.stack [
  | [] ↦ ok w
  | ◌∷◌ bb_id stack ↦ visit bbs value_id (record w { stack = stack }) bb_id >>= next
]

unfoldable pub walk : ℕ → List Block → ℕ → Walk → Result Walk
walk zero bbs value_id w = walk_from bbs value_id w (λ w'. stuck)
walk (suc fuel) bbs value_id w = walk_from bbs value_id w (walk fuel bbs value_id)

-- pn_basic_block_calculate_liveness_per_value, in a module of `num_values` values.
unfoldable pub calculate_liveness_per_value :
    ℕ → List Block → LivenessState → ℕ → ℕ → Result LivenessState
unfolding walk visit
calculate_liveness_per_value num_values bbs st initial_bb_id rel_id = do
  seen ← is_set st.seen_values rel_id
  if seen then ok st else (do
    seen_values ← set_bit st.seen_values rel_id true
    seen_bbs ← set_bit (clear st.seen_bbs) initial_bb_id true
    range ← from_option (get_elem? st.ranges rel_id)
    w ← walk (length bbs) bbs (num_values + rel_id) record {
      livein = clear st.livein;
      seen_bbs = seen_bbs;
      stack = initial_bb_id ∷ [];
      range = range;
    }
    ok record {
      seen_values = seen_values;
      livein = w.livein;
      seen_bbs = w.seen_bbs;
      ranges = set st.ranges rel_id w.range;
    })

-- The phi uses of a block, (bb_id, value_id) each, up to the first one of a value below the
-- function's own.
unfoldable pub phi_uses_liveness :
    ℕ → ℕ → List Block → List (ℕ × ℕ) → LivenessState → Result LivenessState
unfolding calculate_liveness_per_value
phi_uses_liveness num_values first_value_id bbs [] st = ok st
phi_uses_liveness num_values first_value_id bbs ((bb_id, value_id) ∷ uses) st =
    let rest = λ (st' : LivenessState). phi_uses_liveness num_values first_value_id bbs uses st' in
    if ltb value_id first_value_id
    then ok st
    else (calculate_liveness_per_value num_values bbs st bb_id (value_id - num_values) >>= rest)

unfoldable pub uses_liveness : ℕ → List Block → ℕ → List ℕ → LivenessState → Result LivenessState
unfolding calculate_liveness_per_value
uses_liveness num_values bbs bb_id [] st = ok st
uses_liveness num_values bbs bb_id (value_id ∷ uses) st = do
  st' ← calculate_liveness_per_value num_values bbs st bb_id (value_id - num_values)
  uses_liveness num_values bbs bb_id uses st'

-- pn_basic_block_calculate_liveness.
unfoldable pub calculate_liveness : ℕ → ℕ → List Block → ℕ → LivenessState → Result LivenessState
unfolding phi_uses_liveness uses_liveness
calculate_liveness num_values first_value_id bbs bb_id st = do
  bb ← from_option (get_elem? bbs bb_id)
  st' ← phi_uses_liveness num_values first_value_id bbs bb.phi_uses st
  uses_liveness num_values bbs bb_id bb.uses st'

-- The last loop of pn_function_calculate_liveness, from the last block down.
unfoldable pub liveness_blocks : ℕ → ℕ → List Block → ℕ → LivenessState → Result LivenessState
unfolding calculate_liveness
liveness_blocks num_values first_value_id bbs zero st = ok st
liveness_blocks num_values first_value_id bbs (suc n) st = do
  st' ← calculate_liveness num_values first_value_id bbs n st
  liveness_blocks num_values first_value_id bbs n st'
