-- ===== src/Slots/Tests.antt =====
-- Tests of the slots.
use pnacl_c.Base.{ℕ, ◌≡◌, refl, arith, List, [], ◌∷◌, drop, length, replicate, ok}
use pnacl_c.Slots.Heap.{AllLow}
use pnacl_c.Slots.Bounds.{make_slot_map-AllLow}
use pnacl_c.BitSet.{init, clear, set_bit, is_set}
use pnacl_c.Machine.State.{invalid_value_id}
use pnacl_c.Liveness.{
  Block, calculate_liveness_per_value, walk, visit, push_preds, push_pred, phi_uses_liveness,
  uses_liveness, calculate_liveness, liveness_blocks, LivenessRange,
}
use pnacl_c.Slots.{
  put, sift_up, reheap, remove_active, evict, sift_down, take_slot, assign_slots, make_slot_map,
  define_ranges, define_blocks, function_calculate_liveness,
}

-- Three values that live one after the other have one slot.
one_slot_test :
    make_slot_map 0 (
      record { first_bb_id = 0; last_bb_id = 0 }
      ∷ record { first_bb_id = 1; last_bb_id = 1 }
      ∷ record { first_bb_id = 2; last_bb_id = 2 }
      ∷ [])
    ≡ ok (0 ∷ 0 ∷ 0 ∷ [])
unfolding make_slot_map assign_slots evict take_slot put sift_up reheap remove_active sift_down
one_slot_test = refl

-- Of five values that live in one block, the third and the fourth have the same slot: the last leaf
-- of the heap is lost when its root is taken, and the leaf that moved up stays behind.
same_slot_test :
    make_slot_map 0 (replicate 5 record { first_bb_id = 0; last_bb_id = 0 })
    ≡ ok (0 ∷ 1 ∷ 2 ∷ 2 ∷ 3 ∷ [])
unfolding make_slot_map assign_slots evict take_slot put sift_up reheap remove_active sift_down
same_slot_test = refl

-- Three values, of which the first is an argument.
abbrev three_ranges : List LivenessRange
three_ranges =
    record { first_bb_id = 0; last_bb_id = 3 }
    ∷ record { first_bb_id = 0; last_bb_id = 1 }
    ∷ record { first_bb_id = 2; last_bb_id = 3 }
    ∷ []

make_slot_map-AllLow_example :
    (slots : List ℕ) × (make_slot_map 1 three_ranges ≡ ok slots)
    × (length slots ≡ length (drop 1 three_ranges))
    × AllLow (length three_ranges) slots
make_slot_map-AllLow_example = make_slot_map-AllLow 1 three_ranges (omega arith)

-- Value 10 is defined in the first block and used in the last, value 11 in the second alone.
abbrev bbs : List Block
bbs =
    record { pred_bb_ids = []; first_def_id = 10; last_def_id = 10; uses = []; phi_uses = [] }
    ∷ record { pred_bb_ids = 0 ∷ []; first_def_id = 11; last_def_id = 11; uses = []; phi_uses = [] }
    ∷ record {
      pred_bb_ids = 1 ∷ [];
      first_def_id = invalid_value_id;
      last_def_id = invalid_value_id;
      uses = 10 ∷ [];
      phi_uses = [];
    }
    ∷ []

function_calculate_liveness_test :
    function_calculate_liveness 10 2 0 bbs
    ≡ ok (
      record { first_bb_id = 0; last_bb_id = 2 } ∷ record { first_bb_id = 1; last_bb_id = 1 } ∷ [],
      0 ∷ 1 ∷ [],
    )
unfolding function_calculate_liveness define_blocks define_ranges init liveness_blocks
    calculate_liveness phi_uses_liveness uses_liveness calculate_liveness_per_value walk visit
    push_preds push_pred is_set set_bit clear make_slot_map assign_slots evict take_slot put sift_up
    reheap remove_active sift_down
function_calculate_liveness_test = refl
