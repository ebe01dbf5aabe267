-- ===== src/Executor/Tests.antt =====
-- Runs of instructions, on a host whose floats are small numbers and 9 is the NaN.
use pnacl_c.Base.{
  ℕ, ◌+◌, ◌*◌, ◌<◌, ◌%◌, ◌≡◌, ◌≢◌, refl, arith, [], ◌∷◌, some, if◌then◌else◌, ltb, ◌==◌, ◌||◌,
}
use pnacl_c.Base.{Result, ok, ◌>>=◌}
use pnacl_c.Base.Int.{pos}
use pnacl_c.Opcode.{binop_opcode, cast_opcode, cmp2_opcode}
use pnacl_c.Opcode.Codes.{BasicType, BinOp, Cast, Cmp2, BinOpOpcode, CastOpcode, Cmp2Opcode}
use pnacl_c.Executor.{
  Thread, get_value, set_value, execute_binop, execute_cast, execute_cmp2, binop_case, cmp2_case,
}
use pnacl_c.Executor.Fields.{
  Host, Order, Operator, Scalar, get, operate, convert_value, compare_value,
}
use pnacl_c.Executor.Select.{
  expected_binop, expected_cmp2, binop_case-binop_opcode, cmp2_case-cmp2_opcode,
}
use pnacl_c.Executor.Integers.{operate_sub-operate_add, operate_div-operate_rem}
use pnacl_c.Executor.Instructions.{execute_binop-expected}
use pnacl_c.Executor.Registers.{get_value-set_value}
use pnacl_c.Executor.Compare.{run_cmp2, bool_value}
use pnacl_c.Executor.Compare.Floats.{fcmp_result, run_cmp2-fcmp}
use pnacl_c.Executor.Compare.Words.{icmp_holds, run_cmp2-icmp}

abbrev small_order : ℕ → ℕ → Order
small_order a b =
    if a == 9 || b == 9
    then Order.unordered
    else (if ltb a b then Order.less else (if ltb b a then Order.greater else Order.equal))

abbrev small_host : Host
small_host = record {
  float_op = λ o w a b. a + b;
  order = λ w a b. small_order a b;
  float_of_int = λ w z. 1;
  int_of_float = λ w a. some (pos a);
  resize = λ w w' a. a;
}

abbrev thread : Thread
thread = record { module_values = 7 ∷ 200 ∷ []; function_values = 100 ∷ 9 ∷ 0 ∷ []; inst = 64 }

binop_case-binop_opcode_example :
    (binop_opcode BinOp.ashr BasicType.int16 >>= λ o. ok (binop_case o))
    ≡ expected_binop BinOp.ashr BasicType.int16
binop_case-binop_opcode_example = binop_case-binop_opcode BinOp.ashr BasicType.int16

cmp2_case-cmp2_opcode_test :
    (cmp2_opcode Cmp2.icmp_slt BasicType.int64 >>= λ o. ok (cmp2_case o))
    ≡ expected_cmp2 Cmp2.icmp_slt BasicType.int64
cmp2_case-cmp2_opcode_test = cmp2_case-cmp2_opcode Cmp2.icmp_slt BasicType.int64

-- At a NaN.
run_cmp2-fcmp_example :
    run_cmp2 small_host 5 Cmp2.fcmp_one BasicType.double 9 3
    ≡ ok (fcmp_result Cmp2.fcmp_one (small_order 9 3))
run_cmp2-fcmp_example = run_cmp2-fcmp small_host 5 9 3 Cmp2.fcmp_one BasicType.double refl refl

-- 0xff is below 1 as a signed byte.
run_cmp2-icmp_example :
    run_cmp2 small_host 5 Cmp2.icmp_slt BasicType.int8 0x1ff 1
    ≡ ok (bool_value (icmp_holds Cmp2.icmp_slt 8 0xff 1))
run_cmp2-icmp_example = run_cmp2-icmp small_host 5 0x1ff 1 Cmp2.icmp_slt BasicType.int8 refl refl

get_value-set_value_test :
    (t' : Thread) × (set_value thread 3 77 ≡ ok t')
    × (get_value t' 3 ≡ ok 77)
    × ((j : ℕ) → 3 ≢ j → get_value t' j ≡ get_value thread j)
    × (t'.module_values ≡ thread.module_values)
    × (t'.inst ≡ thread.inst)
get_value-set_value_test = get_value-set_value thread 3 77 (omega arith)

result_of : Result Thread → Result (ℕ × ℕ)
unfolding get_value
result_of r = do t ← r; v ← get_value t 4; ok (v % 256, t.inst)

binop_test :
    result_of (
      execute_binop small_host 0 thread (record {
        opcode = BinOpOpcode.add_int8;
        result_value_id = 4;
        value0_id = 1;
        value1_id = 2;
      }))
    ≡ ok (44, 80)
unfolding result_of execute_binop operate get_value set_value
binop_test = refl

cmp2_test :
    result_of (
      execute_cmp2 small_host 0 thread (record {
        opcode = Cmp2Opcode.icmp_sgt_int8;
        result_value_id = 4;
        value0_id = 1;
        value1_id = 2;
      }))
    ≡ ok (0, 80)
unfolding result_of execute_cmp2 compare_value get_value set_value
cmp2_test = refl

-- sext of the byte 200 to 16 bits, and its low byte.
cast_test :
    result_of (
      execute_cast small_host 0 thread
        (record { opcode = CastOpcode.sext_int8_int16; result_value_id = 4; value_id = 1 }))
    ≡ ok (200, 76)
unfolding result_of execute_cast convert_value get_value set_value
cast_test = refl

cast_opcode_test :
    cast_opcode Cast.sext BasicType.int8 BasicType.int16 ≡ ok CastOpcode.sext_int8_int16
unfolding cast_opcode
cast_opcode_test = refl

execute_binop-expected_example :
    (t' : Thread) × (execute_binop small_host 0 thread (record {
      opcode = BinOpOpcode.add_int8;
      result_value_id = 4;
      value0_id = 1;
      value1_id = 2;
    })
      ≡ ok t')
    × (get_value t' 4 ≡ ok 44)
    × ((j : ℕ) → 4 ≢ j → get_value t' j ≡ get_value thread j)
    × (t'.inst ≡ 64 + 16)
unfolding get_value operate binop_opcode
execute_binop-expected_example =
    execute_binop-expected small_host 0 thread
      (record { opcode = BinOpOpcode.add_int8; result_value_id = 4; value0_id = 1; value1_id = 2 })
      BinOp.add BasicType.int8 (Operator.c_add, Scalar.u8) 200 100 44 refl refl refl refl refl
      (omega arith)

-- 200 + 100 wraps at a byte.
operate_sub-operate_add_test :
    (sum : ℕ) × (difference : ℕ) × (operate small_host 0 (Operator.c_add, Scalar.u8) 200 100
      ≡ ok sum)
    × (operate small_host 0 (Operator.c_sub, Scalar.u8) sum 100 ≡ ok difference)
    × (get Scalar.u8 difference ≡ 200)
operate_sub-operate_add_test = operate_sub-operate_add small_host 0 Scalar.u8 200 100 refl

operate_div-operate_rem_test :
    (quotient : ℕ) × (remainder : ℕ) × (operate small_host 0 (Operator.c_div, Scalar.u16) 1000 7
      ≡ ok quotient)
    × (operate small_host 0 (Operator.c_rem, Scalar.u16) 1000 7 ≡ ok remainder)
    × (7 * get Scalar.u16 quotient + get Scalar.u16 remainder ≡ 1000)
    × (get Scalar.u16 remainder < 7)
operate_div-operate_rem_test =
    operate_div-operate_rem small_host 0 Scalar.u16 1000 7 refl (omega arith)
