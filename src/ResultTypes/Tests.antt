-- ===== src/ResultTypes/Tests.antt =====
-- Runs of the calculation: type 0 is i32, type 1 is a function, 2 is i64; the last values have no
-- type yet.
use pnacl_c.Base.{ℕ, ◌≡◌, ◌≢◌, refl, List, [], ◌∷◌}
use pnacl_c.Base.{ok, fatal, stuck}
use mathlib.Core.List.{Memᴰ}
use pnacl_c.ResultTypes.{
  ModuleType, Instruction, invalid_type_id, implicit_cast_type, assign_result_value_type,
  calculate_instruction, first_pass, run_round, run_rounds, calculate_result_value_types,
}
use pnacl_c.ResultTypes.Typed.{HasType}
use pnacl_c.ResultTypes.Rounds.{
  calculate_result_value_types-ends, calculate_result_value_types-typed,
}

abbrev types : List ModuleType
types = ModuleType.integer 32 ∷ ModuleType.function ∷ ModuleType.integer 64 ∷ []

abbrev type_ids : List ℕ
type_ids = 0 ∷ 1 ∷ invalid_type_id ∷ invalid_type_id ∷ []

-- Value 3 is calculated from value 2, which comes later.
abbrev insts : List Instruction
insts = Instruction.binop 3 2 0 ∷ Instruction.vselect 2 0 0 0 ∷ Instruction.other ∷ []

calculate_test : calculate_result_value_types types type_ids insts ≡ ok (0 ∷ 1 ∷ 0 ∷ 0 ∷ [])
unfolding calculate_result_value_types first_pass run_rounds run_round calculate_instruction
    assign_result_value_type implicit_cast_type
calculate_test = refl

-- A value that is calculated from itself never has a type.
self_test : calculate_result_value_types types type_ids (Instruction.binop 3 3 0 ∷ []) ≡ fatal
unfolding calculate_result_value_types first_pass run_rounds run_round calculate_instruction
    assign_result_value_type
self_test = refl

-- The type of the second operand is taken in both orders.
cast_test : (implicit_cast_type types 0 1 ≡ ok 1) × (implicit_cast_type types 1 0 ≡ ok 0)
unfolding implicit_cast_type
cast_test = (refl, refl)

calculate_result_value_types-ends_example :
    calculate_result_value_types types type_ids insts ≢ stuck
calculate_result_value_types-ends_example = calculate_result_value_types-ends types type_ids insts

calculate_result_value_types-typed_example : HasType types (0 ∷ 1 ∷ 0 ∷ 0 ∷ []) 3
calculate_result_value_types-typed_example =
    calculate_result_value_types-typed types type_ids insts calculate_test (Instruction.binop 3 2 0)
      (Memᴰ.head refl)
