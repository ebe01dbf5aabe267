-- ===== src/Executor.antt =====
-- src/pn_executor.h: what `pn_thread_execute_instruction` does for the specialised opcodes.
pub mod Fields
pub mod Select
pub mod Registers
pub mod Instructions
pub mod Integers
mod Tests
pub mod Compare
use pnacl_c.Base.{ℕ, ◌+◌, ◌-◌, List, length, get_elem?, set, leb, ltb, if◌then◌else◌}
use pnacl_c.Base.{Result, ok, fault, ◌>>=◌, ◌>>◌, assert, from_option}
use pnacl_c.Opcode.Codes.{BinOpOpcode, CastOpcode, Cmp2Opcode}
use Fields.{
  Scalar, Operator, Conversion, Relation, Test, Host, operate, convert_value, compare_value,
}
use Fields.{get}

-- The switch on the opcode: the operator or the conversion, and the fields that it is applied to.
unfoldable pub binop_case : BinOpOpcode → Operator × Scalar
binop_case BinOpOpcode.add_double = (Operator.c_add, Scalar.f64)
binop_case BinOpOpcode.add_float = (Operator.c_add, Scalar.f32)
binop_case BinOpOpcode.add_int8 = (Operator.c_add, Scalar.u8)
binop_case BinOpOpcode.add_int16 = (Operator.c_add, Scalar.u16)
binop_case BinOpOpcode.add_int32 = (Operator.c_add, Scalar.u32)
binop_case BinOpOpcode.add_int64 = (Operator.c_add, Scalar.u64)
binop_case BinOpOpcode.and_int1 = (Operator.c_and, Scalar.u8)
binop_case BinOpOpcode.and_int8 = (Operator.c_and, Scalar.u8)
binop_case BinOpOpcode.and_int16 = (Operator.c_and, Scalar.u16)
binop_case BinOpOpcode.and_int32 = (Operator.c_and, Scalar.u32)
binop_case BinOpOpcode.and_int64 = (Operator.c_and, Scalar.u64)
binop_case BinOpOpcode.ashr_int8 = (Operator.c_shr, Scalar.i8)
binop_case BinOpOpcode.ashr_int16 = (Operator.c_shr, Scalar.i16)
binop_case BinOpOpcode.ashr_int32 = (Operator.c_shr, Scalar.i32)
binop_case BinOpOpcode.ashr_int64 = (Operator.c_shr, Scalar.i64)
binop_case BinOpOpcode.lshr_int8 = (Operator.c_shr, Scalar.u8)
binop_case BinOpOpcode.lshr_int16 = (Operator.c_shr, Scalar.u16)
binop_case BinOpOpcode.lshr_int32 = (Operator.c_shr, Scalar.u32)
binop_case BinOpOpcode.lshr_int64 = (Operator.c_shr, Scalar.u64)
binop_case BinOpOpcode.mul_double = (Operator.c_mul, Scalar.f64)
binop_case BinOpOpcode.mul_float = (Operator.c_mul, Scalar.f32)
binop_case BinOpOpcode.mul_int8 = (Operator.c_mul, Scalar.u8)
binop_case BinOpOpcode.mul_int16 = (Operator.c_mul, Scalar.u16)
binop_case BinOpOpcode.mul_int32 = (Operator.c_mul, Scalar.u32)
binop_case BinOpOpcode.mul_int64 = (Operator.c_mul, Scalar.u64)
binop_case BinOpOpcode.or_int1 = (Operator.c_or, Scalar.u8)
binop_case BinOpOpcode.or_int8 = (Operator.c_or, Scalar.u8)
binop_case BinOpOpcode.or_int16 = (Operator.c_or, Scalar.u16)
binop_case BinOpOpcode.or_int32 = (Operator.c_or, Scalar.u32)
binop_case BinOpOpcode.or_int64 = (Operator.c_or, Scalar.u64)
binop_case BinOpOpcode.sdiv_double = (Operator.c_div, Scalar.f64)
binop_case BinOpOpcode.sdiv_float = (Operator.c_div, Scalar.f32)
binop_case BinOpOpcode.sdiv_int32 = (Operator.c_div, Scalar.i32)
binop_case BinOpOpcode.sdiv_int64 = (Operator.c_div, Scalar.i64)
binop_case BinOpOpcode.shl_int8 = (Operator.c_shl, Scalar.u8)
binop_case BinOpOpcode.shl_int16 = (Operator.c_shl, Scalar.u16)
binop_case BinOpOpcode.shl_int32 = (Operator.c_shl, Scalar.u32)
binop_case BinOpOpcode.shl_int64 = (Operator.c_shl, Scalar.u64)
binop_case BinOpOpcode.srem_int32 = (Operator.c_rem, Scalar.i32)
binop_case BinOpOpcode.srem_int64 = (Operator.c_rem, Scalar.i64)
binop_case BinOpOpcode.sub_double = (Operator.c_sub, Scalar.f64)
binop_case BinOpOpcode.sub_float = (Operator.c_sub, Scalar.f32)
binop_case BinOpOpcode.sub_int8 = (Operator.c_sub, Scalar.u8)
binop_case BinOpOpcode.sub_int16 = (Operator.c_sub, Scalar.u16)
binop_case BinOpOpcode.sub_int32 = (Operator.c_sub, Scalar.u32)
binop_case BinOpOpcode.sub_int64 = (Operator.c_sub, Scalar.u64)
binop_case BinOpOpcode.udiv_int8 = (Operator.c_div, Scalar.u8)
binop_case BinOpOpcode.udiv_int16 = (Operator.c_div, Scalar.u16)
binop_case BinOpOpcode.udiv_int32 = (Operator.c_div, Scalar.u32)
binop_case BinOpOpcode.udiv_int64 = (Operator.c_div, Scalar.u64)
binop_case BinOpOpcode.urem_int8 = (Operator.c_rem, Scalar.u8)
binop_case BinOpOpcode.urem_int16 = (Operator.c_rem, Scalar.u16)
binop_case BinOpOpcode.urem_int32 = (Operator.c_rem, Scalar.u32)
binop_case BinOpOpcode.urem_int64 = (Operator.c_rem, Scalar.u64)
binop_case BinOpOpcode.xor_int1 = (Operator.c_xor, Scalar.u8)
binop_case BinOpOpcode.xor_int8 = (Operator.c_xor, Scalar.u8)
binop_case BinOpOpcode.xor_int16 = (Operator.c_xor, Scalar.u16)
binop_case BinOpOpcode.xor_int32 = (Operator.c_xor, Scalar.u32)
binop_case BinOpOpcode.xor_int64 = (Operator.c_xor, Scalar.u64)

unfoldable pub cast_case : CastOpcode → Conversion
cast_case CastOpcode.bitcast_double_int64 = Conversion.copy
cast_case CastOpcode.bitcast_float_int32 = Conversion.copy
cast_case CastOpcode.bitcast_int32_float = Conversion.copy
cast_case CastOpcode.bitcast_int64_double = Conversion.copy
cast_case CastOpcode.fpext_float_double = Conversion.convert Scalar.f32 Scalar.f64
cast_case CastOpcode.fptosi_double_int8 = Conversion.convert Scalar.f64 Scalar.i8
cast_case CastOpcode.fptosi_double_int16 = Conversion.convert Scalar.f64 Scalar.i16
cast_case CastOpcode.fptosi_double_int32 = Conversion.convert Scalar.f64 Scalar.i32
cast_case CastOpcode.fptosi_double_int64 = Conversion.convert Scalar.f64 Scalar.i64
cast_case CastOpcode.fptosi_float_int8 = Conversion.convert Scalar.f32 Scalar.i8
cast_case CastOpcode.fptosi_float_int16 = Conversion.convert Scalar.f32 Scalar.i16
cast_case CastOpcode.fptosi_float_int32 = Conversion.convert Scalar.f32 Scalar.i32
cast_case CastOpcode.fptosi_float_int64 = Conversion.convert Scalar.f32 Scalar.i64
cast_case CastOpcode.fptoui_double_int8 = Conversion.convert Scalar.f64 Scalar.u8
cast_case CastOpcode.fptoui_double_int16 = Conversion.convert Scalar.f64 Scalar.u16
cast_case CastOpcode.fptoui_double_int32 = Conversion.convert Scalar.f64 Scalar.u32
cast_case CastOpcode.fptoui_double_int64 = Conversion.convert Scalar.f64 Scalar.u64
cast_case CastOpcode.fptoui_float_int8 = Conversion.convert Scalar.f32 Scalar.u8
cast_case CastOpcode.fptoui_float_int16 = Conversion.convert Scalar.f32 Scalar.u16
cast_case CastOpcode.fptoui_float_int32 = Conversion.convert Scalar.f32 Scalar.u32
cast_case CastOpcode.fptoui_float_int64 = Conversion.convert Scalar.f32 Scalar.u64
cast_case CastOpcode.fptrunc_double_float = Conversion.convert Scalar.f64 Scalar.f32
cast_case CastOpcode.sext_int1_int8 = Conversion.sext1 8
cast_case CastOpcode.sext_int1_int16 = Conversion.sext1 16
cast_case CastOpcode.sext_int1_int32 = Conversion.sext1 32
cast_case CastOpcode.sext_int1_int64 = Conversion.sext1 64
cast_case CastOpcode.sext_int8_int16 = Conversion.convert Scalar.i8 Scalar.i16
cast_case CastOpcode.sext_int8_int32 = Conversion.convert Scalar.i8 Scalar.i32
cast_case CastOpcode.sext_int8_int64 = Conversion.convert Scalar.i8 Scalar.i64
cast_case CastOpcode.sext_int16_int32 = Conversion.convert Scalar.i16 Scalar.i32
cast_case CastOpcode.sext_int16_int64 = Conversion.convert Scalar.i16 Scalar.i64
cast_case CastOpcode.sext_int32_int64 = Conversion.convert Scalar.i32 Scalar.i64
cast_case CastOpcode.sitofp_int8_double = Conversion.convert Scalar.i8 Scalar.f64
cast_case CastOpcode.sitofp_int8_float = Conversion.convert Scalar.i8 Scalar.f32
cast_case CastOpcode.sitofp_int16_double = Conversion.convert Scalar.i16 Scalar.f64
cast_case CastOpcode.sitofp_int16_float = Conversion.convert Scalar.i16 Scalar.f32
cast_case CastOpcode.sitofp_int32_double = Conversion.convert Scalar.i32 Scalar.f64
cast_case CastOpcode.sitofp_int32_float = Conversion.convert Scalar.i32 Scalar.f32
cast_case CastOpcode.sitofp_int64_double = Conversion.convert Scalar.i64 Scalar.f64
cast_case CastOpcode.sitofp_int64_float = Conversion.convert Scalar.i64 Scalar.f32
cast_case CastOpcode.trunc_int8_int1 = Conversion.trunc1 8
cast_case CastOpcode.trunc_int16_int1 = Conversion.trunc1 16
cast_case CastOpcode.trunc_int16_int8 = Conversion.convert Scalar.i16 Scalar.i8
cast_case CastOpcode.trunc_int32_int1 = Conversion.trunc1 32
cast_case CastOpcode.trunc_int32_int8 = Conversion.convert Scalar.i32 Scalar.i8
cast_case CastOpcode.trunc_int32_int16 = Conversion.convert Scalar.i32 Scalar.i16
cast_case CastOpcode.trunc_int64_int8 = Conversion.convert Scalar.i64 Scalar.i8
cast_case CastOpcode.trunc_int64_int16 = Conversion.convert Scalar.i64 Scalar.i16
cast_case CastOpcode.trunc_int64_int32 = Conversion.convert Scalar.i64 Scalar.i32
cast_case CastOpcode.uitofp_int8_double = Conversion.convert Scalar.u8 Scalar.f64
cast_case CastOpcode.uitofp_int8_float = Conversion.convert Scalar.u8 Scalar.f32
cast_case CastOpcode.uitofp_int16_double = Conversion.convert Scalar.u16 Scalar.f64
cast_case CastOpcode.uitofp_int16_float = Conversion.convert Scalar.u16 Scalar.f32
cast_case CastOpcode.uitofp_int32_double = Conversion.convert Scalar.u32 Scalar.f64
cast_case CastOpcode.uitofp_int32_float = Conversion.convert Scalar.u32 Scalar.f32
cast_case CastOpcode.uitofp_int64_double = Conversion.convert Scalar.u64 Scalar.f64
cast_case CastOpcode.uitofp_int64_float = Conversion.convert Scalar.u64 Scalar.f32
cast_case CastOpcode.zext_int1_int8 = Conversion.zext1 8
cast_case CastOpcode.zext_int1_int16 = Conversion.zext1 16
cast_case CastOpcode.zext_int1_int32 = Conversion.zext1 32
cast_case CastOpcode.zext_int1_int64 = Conversion.zext1 64
cast_case CastOpcode.zext_int8_int16 = Conversion.convert Scalar.u8 Scalar.u16
cast_case CastOpcode.zext_int8_int32 = Conversion.convert Scalar.u8 Scalar.u32
cast_case CastOpcode.zext_int8_int64 = Conversion.convert Scalar.u8 Scalar.u64
cast_case CastOpcode.zext_int16_int32 = Conversion.convert Scalar.u16 Scalar.u32
cast_case CastOpcode.zext_int16_int64 = Conversion.convert Scalar.u16 Scalar.u64
cast_case CastOpcode.zext_int32_int64 = Conversion.convert Scalar.u32 Scalar.u64

unfoldable pub cmp2_case : Cmp2Opcode → Test × Scalar
cmp2_case Cmp2Opcode.fcmp_oeq_double = (Test.plain Relation.c_eq, Scalar.f64)
cmp2_case Cmp2Opcode.fcmp_oeq_float = (Test.plain Relation.c_eq, Scalar.f32)
cmp2_case Cmp2Opcode.fcmp_oge_double = (Test.plain Relation.c_ge, Scalar.f64)
cmp2_case Cmp2Opcode.fcmp_oge_float = (Test.plain Relation.c_ge, Scalar.f32)
cmp2_case Cmp2Opcode.fcmp_ogt_double = (Test.plain Relation.c_gt, Scalar.f64)
cmp2_case Cmp2Opcode.fcmp_ogt_float = (Test.plain Relation.c_gt, Scalar.f32)
cmp2_case Cmp2Opcode.fcmp_ole_double = (Test.plain Relation.c_le, Scalar.f64)
cmp2_case Cmp2Opcode.fcmp_ole_float = (Test.plain Relation.c_le, Scalar.f32)
cmp2_case Cmp2Opcode.fcmp_olt_double = (Test.plain Relation.c_lt, Scalar.f64)
cmp2_case Cmp2Opcode.fcmp_olt_float = (Test.plain Relation.c_lt, Scalar.f32)
cmp2_case Cmp2Opcode.fcmp_one_double = (Test.plain Relation.c_ne, Scalar.f64)
cmp2_case Cmp2Opcode.fcmp_one_float = (Test.plain Relation.c_ne, Scalar.f32)
cmp2_case Cmp2Opcode.fcmp_ord_double = (Test.ord, Scalar.f64)
cmp2_case Cmp2Opcode.fcmp_ord_float = (Test.ord, Scalar.f32)
cmp2_case Cmp2Opcode.fcmp_ueq_double = (Test.negated Relation.c_ne, Scalar.f64)
cmp2_case Cmp2Opcode.fcmp_ueq_float = (Test.negated Relation.c_ne, Scalar.f32)
cmp2_case Cmp2Opcode.fcmp_uge_double = (Test.negated Relation.c_lt, Scalar.f64)
cmp2_case Cmp2Opcode.fcmp_uge_float = (Test.negated Relation.c_lt, Scalar.f32)
cmp2_case Cmp2Opcode.fcmp_ugt_double = (Test.negated Relation.c_le, Scalar.f64)
cmp2_case Cmp2Opcode.fcmp_ugt_float = (Test.negated Relation.c_le, Scalar.f32)
cmp2_case Cmp2Opcode.fcmp_ule_double = (Test.negated Relation.c_gt, Scalar.f64)
cmp2_case Cmp2Opcode.fcmp_ule_float = (Test.negated Relation.c_gt, Scalar.f32)
cmp2_case Cmp2Opcode.fcmp_ult_double = (Test.negated Relation.c_ge, Scalar.f64)
cmp2_case Cmp2Opcode.fcmp_ult_float = (Test.negated Relation.c_ge, Scalar.f32)
cmp2_case Cmp2Opcode.fcmp_une_double = (Test.negated Relation.c_eq, Scalar.f64)
cmp2_case Cmp2Opcode.fcmp_une_float = (Test.negated Relation.c_eq, Scalar.f32)
cmp2_case Cmp2Opcode.fcmp_uno_double = (Test.uno, Scalar.f64)
cmp2_case Cmp2Opcode.fcmp_uno_float = (Test.uno, Scalar.f32)
cmp2_case Cmp2Opcode.icmp_eq_int8 = (Test.plain Relation.c_eq, Scalar.u8)
cmp2_case Cmp2Opcode.icmp_eq_int16 = (Test.plain Relation.c_eq, Scalar.u16)
cmp2_case Cmp2Opcode.icmp_eq_int32 = (Test.plain Relation.c_eq, Scalar.u32)
cmp2_case Cmp2Opcode.icmp_eq_int64 = (Test.plain Relation.c_eq, Scalar.u64)
cmp2_case Cmp2Opcode.icmp_ne_int8 = (Test.plain Relation.c_ne, Scalar.u8)
cmp2_case Cmp2Opcode.icmp_ne_int16 = (Test.plain Relation.c_ne, Scalar.u16)
cmp2_case Cmp2Opcode.icmp_ne_int32 = (Test.plain Relation.c_ne, Scalar.u32)
cmp2_case Cmp2Opcode.icmp_ne_int64 = (Test.plain Relation.c_ne, Scalar.u64)
cmp2_case Cmp2Opcode.icmp_sge_int8 = (Test.plain Relation.c_ge, Scalar.i8)
cmp2_case Cmp2Opcode.icmp_sge_int16 = (Test.plain Relation.c_ge, Scalar.i16)
cmp2_case Cmp2Opcode.icmp_sge_int32 = (Test.plain Relation.c_ge, Scalar.i32)
cmp2_case Cmp2Opcode.icmp_sge_int64 = (Test.plain Relation.c_ge, Scalar.i64)
cmp2_case Cmp2Opcode.icmp_sgt_int8 = (Test.plain Relation.c_gt, Scalar.i8)
cmp2_case Cmp2Opcode.icmp_sgt_int16 = (Test.plain Relation.c_gt, Scalar.i16)
cmp2_case Cmp2Opcode.icmp_sgt_int32 = (Test.plain Relation.c_gt, Scalar.i32)
cmp2_case Cmp2Opcode.icmp_sgt_int64 = (Test.plain Relation.c_gt, Scalar.i64)
cmp2_case Cmp2Opcode.icmp_sle_int8 = (Test.plain Relation.c_le, Scalar.i8)
cmp2_case Cmp2Opcode.icmp_sle_int16 = (Test.plain Relation.c_le, Scalar.i16)
cmp2_case Cmp2Opcode.icmp_sle_int32 = (Test.plain Relation.c_le, Scalar.i32)
cmp2_case Cmp2Opcode.icmp_sle_int64 = (Test.plain Relation.c_le, Scalar.i64)
cmp2_case Cmp2Opcode.icmp_slt_int8 = (Test.plain Relation.c_lt, Scalar.i8)
cmp2_case Cmp2Opcode.icmp_slt_int16 = (Test.plain Relation.c_lt, Scalar.i16)
cmp2_case Cmp2Opcode.icmp_slt_int32 = (Test.plain Relation.c_lt, Scalar.i32)
cmp2_case Cmp2Opcode.icmp_slt_int64 = (Test.plain Relation.c_lt, Scalar.i64)
cmp2_case Cmp2Opcode.icmp_uge_int8 = (Test.plain Relation.c_ge, Scalar.u8)
cmp2_case Cmp2Opcode.icmp_uge_int16 = (Test.plain Relation.c_ge, Scalar.u16)
cmp2_case Cmp2Opcode.icmp_uge_int32 = (Test.plain Relation.c_ge, Scalar.u32)
cmp2_case Cmp2Opcode.icmp_uge_int64 = (Test.plain Relation.c_ge, Scalar.u64)
cmp2_case Cmp2Opcode.icmp_ugt_int8 = (Test.plain Relation.c_gt, Scalar.u8)
cmp2_case Cmp2Opcode.icmp_ugt_int16 = (Test.plain Relation.c_gt, Scalar.u16)
cmp2_case Cmp2Opcode.icmp_ugt_int32 = (Test.plain Relation.c_gt, Scalar.u32)
cmp2_case Cmp2Opcode.icmp_ugt_int64 = (Test.plain Relation.c_gt, Scalar.u64)
cmp2_case Cmp2Opcode.icmp_ule_int8 = (Test.plain Relation.c_le, Scalar.u8)
cmp2_case Cmp2Opcode.icmp_ule_int16 = (Test.plain Relation.c_le, Scalar.u16)
cmp2_case Cmp2Opcode.icmp_ule_int32 = (Test.plain Relation.c_le, Scalar.u32)
cmp2_case Cmp2Opcode.icmp_ule_int64 = (Test.plain Relation.c_le, Scalar.u64)
cmp2_case Cmp2Opcode.icmp_ult_int8 = (Test.plain Relation.c_lt, Scalar.u8)
cmp2_case Cmp2Opcode.icmp_ult_int16 = (Test.plain Relation.c_lt, Scalar.u16)
cmp2_case Cmp2Opcode.icmp_ult_int32 = (Test.plain Relation.c_lt, Scalar.u32)
cmp2_case Cmp2Opcode.icmp_ult_int64 = (Test.plain Relation.c_lt, Scalar.u64)

-- A thread: the values of the module and of the current frame's function, and the instruction
-- pointer as an offset. `num_values` of the module is the length of its values.
pub record Thread : Type 0 where
  pub module_values : List ℕ
  pub function_values : List ℕ
  pub inst : ℕ

abbrev pub num_values : Thread → ℕ
num_values t = length t.module_values

unfoldable pub get_value : Thread → ℕ → Result ℕ
get_value t value_id =
    if leb (num_values t) value_id
    then from_option (get_elem? t.function_values (value_id - num_values t))
    else from_option (get_elem? t.module_values value_id)

unfoldable pub set_value : Thread → ℕ → ℕ → Result Thread
set_value t value_id value = do
  assert (leb (num_values t) value_id)
  assert (ltb (value_id - num_values t) (length t.function_values))
  ok (record t { function_values = set t.function_values (value_id - num_values t) value })

-- The runtime instructions, with their sizes in the instruction stream.
pub record RuntimeBinOp : Type 0 where
  pub opcode : BinOpOpcode
  pub result_value_id : ℕ
  pub value0_id : ℕ
  pub value1_id : ℕ

pub record RuntimeCast : Type 0 where
  pub opcode : CastOpcode
  pub result_value_id : ℕ
  pub value_id : ℕ

pub record RuntimeCmp2 : Type 0 where
  pub opcode : Cmp2Opcode
  pub result_value_id : ℕ
  pub value0_id : ℕ
  pub value1_id : ℕ

abbrev pub sizeof_binop : ℕ
sizeof_binop = 16

abbrev pub sizeof_cast : ℕ
sizeof_cast = 12

abbrev pub sizeof_cmp2 : ℕ
sizeof_cmp2 = 16

-- The instruction writes its result and steps over itself. `junk` is what the result's union held.
abbrev finish : Thread → ℕ → ℕ → ℕ → Result Thread
finish t result_value_id value size = do
  t' ← set_value t result_value_id value
  ok (record t' { inst = t'.inst + size })

module _ (host : Host) (junk : ℕ) where
  unfoldable pub execute_binop : Thread → RuntimeBinOp → Result Thread
  unfolding binop_case
  execute_binop t i = do
    value0 ← get_value t i.value0_id
    value1 ← get_value t i.value1_id
    result ← operate host junk (binop_case i.opcode) value0 value1
    finish t i.result_value_id result sizeof_binop

  unfoldable pub execute_cast : Thread → RuntimeCast → Result Thread
  unfolding cast_case
  execute_cast t i = do
    value ← get_value t i.value_id
    result ← convert_value host junk (cast_case i.opcode) value
    finish t i.result_value_id result sizeof_cast

  unfoldable pub execute_cmp2 : Thread → RuntimeCmp2 → Result Thread
  unfolding cmp2_case
  execute_cmp2 t i = do
    value0 ← get_value t i.value0_id
    value1 ← get_value t i.value1_id
    finish t i.result_value_id (compare_value host junk (cmp2_case i.opcode) value0 value1)
        sizeof_cmp2
