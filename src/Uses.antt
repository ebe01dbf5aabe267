-- ===== src/Uses.antt =====
-- src/pn_calculate_uses.h: the values that the instructions of a block use, in a build with
-- PN_CALCULATE_LIVENESS.
pub mod Words
pub mod Listing
pub mod Values
pub mod Spec
pub mod Blocks
mod Tests
use pnacl_c.Base.{
  ℕ, zero, suc, ◌+◌, ◌-◌, ◌*◌, ◌/◌, ◌%◌, ◌^◌, bit_and, Bool, true, false, not, if◌then◌else◌, leb,
  ◌==◌, List, [], ◌∷◌, ◌++◌, map, length, Result, ok, fatal, ◌>>=◌,
}
use pnacl_c.BitSet.{BitSet, init, set_bit}
use pnacl_c.Machine.Atomic.{clz, ctz}
use pnacl_c.Machine.State.{invalid_value_id}
use pnacl_c.Phi.{PhiUse}

-- A PNInstruction with the values that it takes; `other` is a code that no instruction has.
pub data Instruction : Type 0 where
  phi : ℕ → List (ℕ × ℕ) → Instruction
  binop cmp2 : ℕ → ℕ → Instruction
  cast ret br switch alloca load : ℕ → Instruction
  store : ℕ → ℕ → Instruction
  vselect : ℕ → ℕ → ℕ → Instruction
  call : Bool → ℕ → List ℕ → Instruction
  unreachable forwardtyperef other : Instruction

-- The values that PN_SET_VALUE_USE is given, in order: of a return or a branch if it has one, and of
-- a call the callee if it is indirect.
unfoldable pub used_values : Instruction → Result (List ℕ)
used_values (Instruction.phi result_value_id incoming) = ok []
used_values (Instruction.binop value0_id value1_id) = ok (value0_id ∷ value1_id ∷ [])
used_values (Instruction.cmp2 value0_id value1_id) = ok (value0_id ∷ value1_id ∷ [])
used_values (Instruction.cast value_id) = ok (value_id ∷ [])
used_values (Instruction.ret value_id) =
    ok (if value_id == invalid_value_id then [] else value_id ∷ [])
used_values (Instruction.br value_id) =
    ok (if value_id == invalid_value_id then [] else value_id ∷ [])
used_values (Instruction.switch value_id) = ok (value_id ∷ [])
used_values (Instruction.alloca size_id) = ok (size_id ∷ [])
used_values (Instruction.load src_id) = ok (src_id ∷ [])
used_values (Instruction.store dest_id value_id) = ok (dest_id ∷ value_id ∷ [])
used_values (Instruction.vselect cond_id true_value_id false_value_id) =
    ok (cond_id ∷ true_value_id ∷ false_value_id ∷ [])
used_values (Instruction.call is_indirect callee_id arg_ids) =
    ok (if is_indirect then callee_id ∷ arg_ids else arg_ids)
used_values Instruction.unreachable = ok []
used_values Instruction.forwardtyperef = ok []
used_values Instruction.other = fatal

-- What a phi adds to the phi uses of its block.
unfoldable pub phi_uses_of : Instruction → List PhiUse
phi_uses_of (Instruction.phi result_value_id incoming) =
    map
      (λ (i : ℕ × ℕ). record {
        dest_value_id = result_value_id;
        incoming_bb_id = i.0;
        incoming_value_id = i.1;
      })
      incoming
phi_uses_of _ = []

-- PN_SET_VALUE_USE for each value, in a function whose values, after its arguments and constants,
-- start at `first_id`.
unfoldable pub set_value_uses : ℕ → ℕ → BitSet → List ℕ → Result BitSet
set_value_uses num_values first_id uses [] = ok uses
set_value_uses num_values first_id uses (value_id ∷ value_ids) = do
  uses' ← if leb first_id value_id then set_bit uses (value_id - num_values) true else ok uses
  set_value_uses num_values first_id uses' value_ids

-- The loop over the instructions, with the set and the phi uses.
unfoldable pub use_instructions :
    ℕ → ℕ → BitSet → List PhiUse → List Instruction → Result (BitSet × List PhiUse)
unfolding used_values phi_uses_of set_value_uses
use_instructions num_values first_id uses phi_uses [] = ok (uses, phi_uses)
use_instructions num_values first_id uses phi_uses (inst ∷ insts) = do
  value_ids ← used_values inst
  uses' ← set_value_uses num_values first_id uses value_ids
  use_instructions num_values first_id uses' (phi_uses ++ phi_uses_of inst) insts

-- The bits of a word from `b` on, `n` of them.
unfoldable pub word_bits : ℕ → ℕ → ℕ → ℕ → List ℕ
word_bits base word b zero = []
word_bits base word b (suc n) =
    let rest = word_bits base word (b + 1) n in
    if bit_and word (2 ^ b) == 0 then rest else ((base + b) % 2 ^ 32 ∷ rest)

abbrev pub last_bit : ℕ → ℕ
last_bit word = if (32 - clz 32 word) == 32 then 31 else 32 - clz 32 word

-- The loop over the words of the set.
unfoldable pub list_uses : ℕ → BitSet → List ℕ
unfolding word_bits
list_uses base [] = []
list_uses base (word ∷ words) =
    (if word == 0 then [] else word_bits base word (ctz 32 word) (last_bit word + 1 - ctz 32 word))
    ++ list_uses (base + 32) words

-- pn_basic_block_calculate_uses, for a function of `function_values` values.
unfoldable pub basic_block_calculate_uses :
    ℕ → ℕ → ℕ → List Instruction → Result (List ℕ × List PhiUse)
unfolding use_instructions list_uses
basic_block_calculate_uses num_values first_id function_values insts = do
  used ← use_instructions num_values first_id (init function_values) [] insts
  ok (list_uses num_values used.0, used.1)
