-- ===== src/ResultTypes.antt =====
-- src/pn_calculate_result_value_types.h: the types of the results of binary operations and vselects,
-- whose operands may be declared before their own types are known.
pub mod Rounds
pub mod Typed
mod Tests
use pnacl_c.Base.{
  ℕ, zero, suc, ◌+◌, ◌-◌, ◌^◌, Bool, true, false, ◌||◌, if◌then◌else◌, ltb, ◌==◌, List, [], ◌∷◌,
  ◌++◌, length, get_elem?, set, Option, none, some,
}
use pnacl_c.Base.{Result, ok, fatal, stuck, ◌>>=◌, ◌>>◌, check, from_option}

-- The types of a module, with what a cast looks at.
pub data ModuleType : Type 0 where
  integer : ℕ → ModuleType
  function void float double : ModuleType

-- PN_INVALID_TYPE_ID.
abbrev pub invalid_type_id : ℕ
invalid_type_id = 2 ^ 32 - 1

pub data Instruction : Type 0 where
  binop : (result_value_id value0_id value1_id : ℕ) → Instruction
  vselect : (result_value_id cond_id true_value_id false_value_id : ℕ) → Instruction
  other : Instruction

abbrev pub is_int32 : ModuleType → Bool
is_int32 (integer w) = w == 32
is_int32 _ = false

abbrev pub is_function : ModuleType → Bool
is_function function = true
is_function _ = false

-- pn_type_get_implicit_cast_type.
unfoldable pub implicit_cast_type : List ModuleType → ℕ → ℕ → Result ℕ
implicit_cast_type types type0_id type1_id = if type0_id == type1_id then ok type0_id else do
  type0 ← from_option (get_elem? types type0_id)
  if is_function type0
      then (do
        type1 ← from_option (get_elem? types type1_id)
        ok (if is_int32 type1 then type1_id else invalid_type_id))
      else (if is_int32 type0
          then (do
            type1 ← from_option (get_elem? types type1_id)
            ok (if is_function type1 then type1_id else invalid_type_id))
          else ok invalid_type_id)

-- pn_function_get_value, on the type ids of the module's values with those of the function behind.
abbrev pub get_type : List ℕ → ℕ → Result ℕ
get_type type_ids value_id = found (get_elem? type_ids value_id)
  where
    found : Option ℕ → Result ℕ
    found none = fatal
    found (some type_id) = ok type_id

-- pn_function_assign_result_value_type.
unfoldable pub assign_result_value_type :
    List ModuleType → List ℕ → ℕ → ℕ → ℕ → Result (Bool × List ℕ)
unfolding implicit_cast_type
assign_result_value_type types type_ids result_value_id value0_id value1_id = do
  result ← get_type type_ids result_value_id
  type0_id ← get_type type_ids value0_id
  type1_id ← get_type type_ids value1_id
  if (type0_id == invalid_type_id) || (type1_id == invalid_type_id)
      then ok (false, type_ids)
      else do
        type_id ← implicit_cast_type types type0_id type1_id
        check (ltb type_id (length types))
        ok (true, set type_ids result_value_id type_id)

-- pn_instruction_calculate_result_value_type.
unfoldable pub calculate_instruction :
    List ModuleType → List ℕ → Instruction → Result (Bool × List ℕ)
unfolding assign_result_value_type
calculate_instruction types type_ids (Instruction.binop result value0 value1) =
    assign_result_value_type types type_ids result value0 value1
calculate_instruction types type_ids (Instruction.vselect result cond true_value false_value) =
    assign_result_value_type types type_ids result true_value false_value
calculate_instruction types type_ids Instruction.other = ok (true, type_ids)

-- The first pass, which gives the instructions that are left.
unfoldable pub first_pass :
    List ModuleType
    → List ℕ
    → List Instruction
    → List Instruction
    → Result (List Instruction × List ℕ)
unfolding calculate_instruction
first_pass types type_ids invalid [] = ok (invalid, type_ids)
first_pass types type_ids invalid (inst ∷ insts) = do
  (resolved, type_ids') ← calculate_instruction types type_ids inst
  first_pass types type_ids' (if resolved then invalid else invalid ++ inst ∷ []) insts

-- invalid[n] = invalid[--num_invalid]: the last one comes first.
abbrev pub put_second : Instruction → List Instruction → List Instruction
put_second inst [] = inst ∷ []
put_second inst (last ∷ insts) = last ∷ inst ∷ insts

abbrev pub last_first : List Instruction → List Instruction
last_first [] = []
last_first (inst ∷ insts) = put_second inst (last_first insts)

-- One run over the list, from the instructions that were kept and those that come; their number is
-- one less after each step.
unfoldable pub run_round :
    ℕ
    → List ModuleType
    → List ℕ
    → List Instruction
    → List Instruction
    → Result (List Instruction × List ℕ)
unfolding calculate_instruction
run_round left types type_ids kept [] = ok (kept, type_ids)
run_round zero types type_ids kept (inst ∷ insts) = stuck
run_round (suc left) types type_ids kept (inst ∷ insts) = do
  (resolved, type_ids') ← calculate_instruction types type_ids inst
  run_round left types type_ids' (if resolved then kept else kept ++ inst ∷ [])
      (if resolved then last_first insts else insts)

-- The rounds, until one resolves nothing.
unfoldable pub run_rounds :
    ℕ → List ModuleType → ℕ → List Instruction → List ℕ → Result (List Instruction × List ℕ)
unfolding run_round
run_rounds zero types last_invalid invalid type_ids = stuck
run_rounds (suc fuel) types last_invalid invalid type_ids =
    if last_invalid == length invalid then ok (invalid, type_ids) else do
      (invalid', type_ids') ← run_round (length invalid) types type_ids [] invalid
      run_rounds fuel types (length invalid) invalid' type_ids'

-- There are at most as many rounds that resolve something as instructions, and one more.
unfoldable pub calculate_result_value_types :
    List ModuleType → List ℕ → List Instruction → Result (List ℕ)
unfolding first_pass run_rounds
calculate_result_value_types types type_ids insts = do
  (invalid, type_ids') ← first_pass types type_ids [] insts
  (unresolved, type_ids'') ← run_rounds (length invalid + 2) types 0 invalid type_ids'
  if length unresolved == 0 then ok type_ids'' else fatal
