-- ===== src/Slots.antt =====
-- src/pn_calculate_liveness.h: the slots that the values of a function get by their ranges, the ranges
-- at the start, and the whole pass.
pub mod Heap
pub mod Bounds
mod Tests
use pnacl_c.Base.{
  ℕ, zero, suc, ◌+◌, ◌-◌, ◌*◌, ◌/◌, ◌%◌, ◌^◌, Bool, true, false, ◌||◌, if◌then◌else◌, ltb, ◌==◌,
  List, [], ◌∷◌, ◌++◌, drop, length, replicate, get_elem?, set, Result, ok, stuck, ◌>>=◌, ◌>>◌,
  assert, from_option,
}
use pnacl_c.BitSet.{BitSet, init}
use pnacl_c.Machine.State.{invalid_value_id}
use pnacl_c.Liveness.{Block, LivenessRange, LivenessState, liveness_blocks}

-- A range of a value that has a slot; its first block is not looked at again.
pub record Active : Type 0 where
  pub last_bb_id : ℕ
  pub slot_id : ℕ

-- The arrays avail_slots, of a slot for each value, and active, of its num_active ranges.
pub record SlotState : Type 0 where
  pub avail_slots : List ℕ
  pub num_avail_slots : ℕ
  pub active : List Active

unfoldable pub put : List ℕ → ℕ → ℕ → Result (List ℕ)
put slots i slot_id = do assert (ltb i (length slots)); ok (set slots i slot_id)

-- The loop that moves the parents of a slot down, and the write of the slot behind it.
unfoldable pub sift_up : ℕ → List ℕ → ℕ → ℕ → Result (List ℕ)
unfolding put
sift_up zero slots insert_at slot_id = stuck
sift_up (suc fuel) slots insert_at slot_id =
    if insert_at == 0 then put slots insert_at slot_id else (do
      above ← from_option (get_elem? slots ((insert_at - 1) / 2))
      if ltb slot_id above
          then (do
            slots' ← put slots insert_at above
            sift_up fuel slots' ((insert_at - 1) / 2) slot_id)
          else put slots insert_at slot_id)

-- A slot is available again.
unfoldable pub reheap : SlotState → ℕ → Result SlotState
unfolding sift_up
reheap s slot_id = do
  assert (ltb s.num_avail_slots (length s.avail_slots))
  slots ← sift_up (s.num_avail_slots + 1) s.avail_slots s.num_avail_slots slot_id
  ok record s { avail_slots = slots; num_avail_slots = s.num_avail_slots + 1 }

abbrev pub but_last : {A : Type 0} → List A → List A
but_last [] = []
but_last (x ∷ []) = []
but_last (x ∷ y ∷ l) = x ∷ but_last (y ∷ l)

-- `active[m] = active[--num_active]`.
unfoldable pub remove_active : List Active → ℕ → Result (List Active)
remove_active active m = do
  last ← from_option (get_elem? active (length active - 1))
  ok (but_last (set active m last))

-- The loop over the active ranges from `m`, `n` of them, where those that end before the block go.
unfoldable pub evict : ℕ → ℕ → SlotState → ℕ → Result SlotState
unfolding reheap remove_active
evict bb_id zero s m = ok s
evict bb_id (suc n) s m = do
  range ← from_option (get_elem? s.active m)
  if ltb range.last_bb_id bb_id
      then (do
        s' ← reheap s range.slot_id
        active ← remove_active s'.active m
        evict bb_id n (record s' { active = active }) m)
      else evict bb_id n s (m + 1)

-- The loop that moves the smaller children of the slot at `slot_index` up, and the last step. An index
-- is a uint32_t.
unfoldable pub sift_down : ℕ → List ℕ → ℕ → ℕ → Result (List ℕ)
unfolding put
sift_down zero slots num_avail_slots slot_index = stuck
sift_down (suc fuel) slots num_avail_slots slot_index =
    if ltb ((slot_index * 2 + 2) % 2 ^ 32) num_avail_slots
    then (do
      left_slot_id ← from_option (get_elem? slots ((slot_index * 2 + 1) % 2 ^ 32))
      right_slot_id ← from_option (get_elem? slots ((slot_index * 2 + 2) % 2 ^ 32))
      if ltb left_slot_id right_slot_id
          then (do
            slots' ← put slots slot_index left_slot_id
            sift_down fuel slots' num_avail_slots ((slot_index * 2 + 1) % 2 ^ 32))
          else (do
            slots' ← put slots slot_index right_slot_id
            sift_down fuel slots' num_avail_slots ((slot_index * 2 + 2) % 2 ^ 32)))
    else (if ltb ((slot_index * 2 + 1) % 2 ^ 32) num_avail_slots
        then (do
          slot_id ← from_option (get_elem? slots ((slot_index * 2 + 1) % 2 ^ 32))
          put slots slot_index slot_id)
        else ok slots)

-- The slot of a value whose range ends at `last_bb_id`.
unfoldable pub take_slot : SlotState → ℕ → Result (ℕ × SlotState)
unfolding sift_down
take_slot s last_bb_id = do
  slot_id ← from_option (get_elem? s.avail_slots 0)
  slots ← sift_down (s.num_avail_slots + 1) s.avail_slots s.num_avail_slots 0
  assert (ltb (length s.active) (length s.avail_slots))
  ok (
    slot_id,
    record {
      avail_slots = slots;
      num_avail_slots = (s.num_avail_slots + 2 ^ 32 - 1) % 2 ^ 32;
      active = s.active ++ record { last_bb_id = last_bb_id; slot_id = slot_id } ∷ [];
    },
  )

-- The loop over the values, from the block of the last eviction.
unfoldable pub assign_slots : ℕ → SlotState → List LivenessRange → Result (List ℕ)
unfolding evict take_slot
assign_slots bb_id s [] = ok []
assign_slots bb_id s (range ∷ ranges) = do
  s' ← if ltb bb_id range.first_bb_id then evict range.first_bb_id (length s.active) s 0 else ok s
  taken ← take_slot s' range.last_bb_id
  slots ←
      assign_slots (if ltb bb_id range.first_bb_id then range.first_bb_id else bb_id) taken.1 ranges
  ok (taken.0 ∷ slots)

-- The numbers from `n`, `count` of them.
abbrev pub numbers : ℕ → ℕ → List ℕ
numbers n zero = []
numbers n (suc count) = n ∷ numbers (n + 1) count

-- pn_function_make_slot_map, with the ranges of all values, of which `skipped` are arguments and
-- constants: the slots of the others.
unfoldable pub make_slot_map : ℕ → List LivenessRange → Result (List ℕ)
unfolding assign_slots
make_slot_map skipped ranges =
    assign_slots 0
      record {
        avail_slots = numbers 0 (length ranges);
        num_avail_slots = length ranges;
        active = [];
      }
      (drop skipped ranges)

-- The ranges of the values that a block defines, from number `rel_id` on, `count` of them.
unfoldable pub define_ranges : ℕ → ℕ → ℕ → List LivenessRange → Result (List LivenessRange)
define_ranges n rel_id zero ranges = ok ranges
define_ranges n rel_id (suc count) ranges = do
  assert (ltb rel_id (length ranges))
  define_ranges n (rel_id + 1) count (set ranges rel_id record { first_bb_id = n; last_bb_id = n })

-- The loop over the blocks, from the one numbered `n`.
unfoldable pub define_blocks : ℕ → ℕ → List Block → List LivenessRange → Result (List LivenessRange)
unfolding define_ranges
define_blocks num_values n [] ranges = ok ranges
define_blocks num_values n (bb ∷ bbs) ranges = do
  ranges' ←
      if (bb.first_def_id == invalid_value_id) || (bb.last_def_id == invalid_value_id)
      then ok ranges
      else define_ranges n (bb.first_def_id - num_values) (bb.last_def_id + 1 - bb.first_def_id)
          ranges
  define_blocks num_values (n + 1) bbs ranges'

-- pn_function_calculate_liveness, for a function of `function_values` values, of which `skipped` are
-- arguments and constants: the ranges, and the slots of the other values.
unfoldable pub function_calculate_liveness :
    ℕ → ℕ → ℕ → List Block → Result (List LivenessRange × List ℕ)
unfolding define_blocks liveness_blocks make_slot_map init
function_calculate_liveness num_values function_values skipped bbs = do
  ranges ←
      define_blocks num_values 0 bbs
        (replicate function_values record { first_bb_id = 2 ^ 32 - 1; last_bb_id = 2 ^ 32 - 1 })
  st ← liveness_blocks num_values (num_values + skipped) bbs (length bbs) record {
    seen_values = init function_values;
    livein = init (length bbs);
    seen_bbs = init (length bbs);
    ranges = ranges;
  }
  slots ← make_slot_map skipped st.ranges
  ok (st.ranges, slots)
