-- ===== src/Executor/Instructions.antt =====
-- A whole binary instruction, from its opcode's selection to the thread after it.
use pnacl_c.Base.{ℕ, ◌+◌, ◌≡◌, ◌≢◌, refl, ok}
use pnacl_c.Opcode.{binop_opcode}
use pnacl_c.Opcode.Codes.{BasicType, BinOp}
use pnacl_c.Executor.{Thread, RuntimeBinOp, get_value, binop_case, execute_binop, sizeof_binop}
use pnacl_c.Executor.Fields.{Host, Operator, Scalar, operate}
use pnacl_c.Executor.Select.{expected_binop, binop_case-binop_opcode}
use pnacl_c.Executor.Registers.{
  IsLocal, with_value, set_value-IsLocal, get_value_self, get_value_ne,
}

ok_inj : {A : Type 0} {a b : A} → ok a ≡ ok b → a ≡ b
ok_inj h = cc

-- A binary instruction whose opcode was selected for operation `op` at type `type`: if its operands
-- can be read, its result is a local value, and the operator that `expected_binop` gives for `op` and
-- `type` has the result `r` on them, then the instruction returns. Afterwards its result is `r`,
-- all other values are as before, and the instruction pointer has moved over the instruction.
pub execute_binop-expected :
    (host : Host) (junk : ℕ) (t : Thread) (i : RuntimeBinOp) (op : BinOp) (type : BasicType)
    (c : Operator × Scalar) (v0 v1 r : ℕ)
    → binop_opcode op type ≡ ok i.opcode
    → expected_binop op type ≡ ok c
    → get_value t i.value0_id ≡ ok v0
    → get_value t i.value1_id ≡ ok v1
    → operate host junk c v0 v1 ≡ ok r
    → IsLocal t i.result_value_id
    → (t' : Thread) × (execute_binop host junk t i ≡ ok t')
      × (get_value t' i.result_value_id ≡ ok r)
      × ((j : ℕ) → i.result_value_id ≢ j → get_value t' j ≡ get_value t j)
      × (t'.inst ≡ t.inst + sizeof_binop)
unfolding execute_binop get_value
execute_binop-expected host junk t i op type c v0 v1 r selected expected read0 read1 result l = (
  record (with_value t i.result_value_id r) { inst = t.inst + sizeof_binop },
  rw (read0, read1, its_case, result, set_value-IsLocal t i.result_value_id r l),
  get_value_self t i.result_value_id r l,
  get_value_ne t i.result_value_id r l,
  refl,
)
  where
    its_case : binop_case i.opcode ≡ c
    its_case = ok_inj (rw (selected, expected) at (binop_case-binop_opcode op type))
