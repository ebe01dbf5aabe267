-- ===== src/ResultTypes/Typed.antt =====
-- What is known of an instruction whose type was calculated.
use pnacl_c.Base.{
  ℕ, zero, suc, ◌<◌, ◌≡◌, inl, inr, refl, subst, ◌∙◌, arith, Bool, true, ◌||◌, List, [], ◌∷◌,
  length, get_elem?, set, some,
}
use pnacl_c.Base.{ltb, ltb→lt, ◌==◌, Bool-cases, get_elem?-set_self, get_elem?-set_ne, Option-cases}
use pnacl_c.Base.{Ends, returned, in_fatal, Ends-bind, Ends-if, Ends-check, Ends-from_option}
use pnacl_c.ResultTypes.{
  ModuleType, Instruction, is_int32, is_function, invalid_type_id, implicit_cast_type, get_type,
  assign_result_value_type, calculate_instruction,
}

-- A value whose type is one of the module.
abbrev pub HasType : List ModuleType → List ℕ → ℕ → Type 0
HasType types type_ids value_id =
    (type_id : ℕ) × (get_elem? type_ids value_id ≡ some type_id) × (type_id < length types)

abbrev pub ResultHasType : List ModuleType → List ℕ → Instruction → Type 0
ResultHasType types type_ids (Instruction.binop result value0 value1) =
    HasType types type_ids result
ResultHasType types type_ids (Instruction.vselect result cond value0 value1) =
    HasType types type_ids result
ResultHasType types type_ids Instruction.other = Unit {0}

-- Values with a type of the module keep having one.
abbrev pub Keeps : List ModuleType → List ℕ → List ℕ → Type 0
Keeps types before after =
    (value_id : ℕ) → HasType types before value_id → HasType types after value_id

pub ResultHasType-Keeps :
    (types : List ModuleType) (before after : List ℕ) (i : Instruction)
    → Keeps types before after
    → ResultHasType types before i
    → ResultHasType types after i
ResultHasType-Keeps types before after (Instruction.binop result value0 value1) k h = k result h
ResultHasType-Keeps types before after (Instruction.vselect result cond value0 value1) k h =
    k result h
ResultHasType-Keeps types before after Instruction.other k h = tt

get_type-Ends :
    (type_ids : List ℕ) (value_id : ℕ)
    → Ends (λ type_id. get_elem? type_ids value_id ≡ some type_id) (get_type type_ids value_id)
get_type-Ends type_ids value_id = elim (Option-cases (get_elem? type_ids value_id)) [
  | inl e ↦ rw (e, get_type) in_fatal
  | inr (t, e) ↦ rw (e, get_type) (returned refl)
]

in_range : (xs : List ℕ) (i : ℕ) {x : ℕ} → get_elem? xs i ≡ some x → i < length xs
in_range [] i h = cc
in_range (x ∷ xs) zero h = omega arith
in_range (x ∷ xs) (suc i) h = omega (arith, in_range xs i h)

set-Keeps :
    (types : List ModuleType) (type_ids : List ℕ) (i type_id : ℕ)
    → type_id < length types
    → i < length type_ids
    → Keeps types type_ids (set type_ids i type_id)
set-Keeps types type_ids i type_id valid range value_id h = elim (Bool-cases (i == value_id)) [
  | inl e ↦ (
    type_id,
    subst (λ (j : ℕ). get_elem? (set type_ids i type_id) j ≡ some type_id) (ground arith)
        (get_elem?-set_self type_ids i type_id range),
    valid,
  )
  | inr e ↦ (h.0, get_elem?-set_ne type_ids i value_id type_id (ground arith) ∙ h.1, h.2)
]

implicit_cast_type-Ends :
    (types : List ModuleType) (type0_id type1_id : ℕ)
    → Ends (λ _. Unit {0}) (implicit_cast_type types type0_id type1_id)
unfolding implicit_cast_type
implicit_cast_type-Ends types type0_id type1_id = Ends-if (type0_id == type1_id) (returned tt) (
    Ends-bind (Ends-from_option (get_elem? types type0_id)) (λ type0 _.
      Ends-if (is_function type0)
        (Ends-bind (Ends-from_option (get_elem? types type1_id)) (λ type1 _. returned tt))
        (Ends-if (is_int32 type0)
          (Ends-bind (Ends-from_option (get_elem? types type1_id)) (λ type1 _. returned tt))
          (returned tt))))

assign-Ends :
    (types : List ModuleType) (type_ids : List ℕ) (result value0 value1 : ℕ)
    → Ends
        (λ (r : Bool × List ℕ). Keeps types type_ids r.1 × (r.0 ≡ true → HasType types r.1 result))
        (assign_result_value_type types type_ids result value0 value1)
unfolding assign_result_value_type
assign-Ends types type_ids result value0 value1 =
    Ends-bind (get_type-Ends type_ids result) (λ old there.
      Ends-bind (get_type-Ends type_ids value0) (λ type0_id _.
        Ends-bind (get_type-Ends type_ids value1) (λ type1_id _.
          Ends-if ((type0_id == invalid_type_id) || (type1_id == invalid_type_id))
            (returned (λ v h. h, λ e. cc))
            (Ends-bind (implicit_cast_type-Ends types type0_id type1_id) (λ type_id _.
              Ends-bind (Ends-check (ltb type_id (length types))) (λ _ c. returned (
                set-Keeps types type_ids result type_id (ltb→lt type_id (length types) c)
                    (in_range type_ids result there),
                λ _. (
                  type_id,
                  get_elem?-set_self type_ids result type_id (in_range type_ids result there),
                  ltb→lt type_id (length types) c,
                ),
              )))))))

-- A calculation ends, keeps the types that there are, and gives the result a type if it says so.
pub calculate_instruction-Ends :
    (types : List ModuleType) (type_ids : List ℕ) (i : Instruction)
    → Ends
        (λ (r : Bool × List ℕ). Keeps types type_ids r.1 × (r.0 ≡ true → ResultHasType types r.1 i))
        (calculate_instruction types type_ids i)
unfolding calculate_instruction
calculate_instruction-Ends types type_ids (Instruction.binop result value0 value1) =
    assign-Ends types type_ids result value0 value1
calculate_instruction-Ends types type_ids (Instruction.vselect result cond value0 value1) =
    assign-Ends types type_ids result value0 value1
calculate_instruction-Ends types type_ids Instruction.other = returned (λ v h. h, λ _. tt)
