-- ===== src/Opcode.antt =====
-- src/pn_calculate_opcodes.h: the opcode that a generic instruction gets for its operand types.
pub mod Codes
use pnacl_c.Base.{Result, ok, fatal, ◌>>=◌}
use Codes.{BasicType, BinOp, Cast, Cmp2, BinOpOpcode, CastOpcode, Cmp2Opcode}

-- A type that has no entry is PN_ERROR and exit(1).
unfoldable pub binop_opcode : BinOp → BasicType → Result BinOpOpcode
binop_opcode BinOp.add BasicType.double = ok BinOpOpcode.add_double
binop_opcode BinOp.add BasicType.float = ok BinOpOpcode.add_float
binop_opcode BinOp.add BasicType.int8 = ok BinOpOpcode.add_int8
binop_opcode BinOp.add BasicType.int16 = ok BinOpOpcode.add_int16
binop_opcode BinOp.add BasicType.int32 = ok BinOpOpcode.add_int32
binop_opcode BinOp.add BasicType.int64 = ok BinOpOpcode.add_int64
binop_opcode BinOp.sub BasicType.double = ok BinOpOpcode.sub_double
binop_opcode BinOp.sub BasicType.float = ok BinOpOpcode.sub_float
binop_opcode BinOp.sub BasicType.int8 = ok BinOpOpcode.sub_int8
binop_opcode BinOp.sub BasicType.int16 = ok BinOpOpcode.sub_int16
binop_opcode BinOp.sub BasicType.int32 = ok BinOpOpcode.sub_int32
binop_opcode BinOp.sub BasicType.int64 = ok BinOpOpcode.sub_int64
binop_opcode BinOp.mul BasicType.double = ok BinOpOpcode.mul_double
binop_opcode BinOp.mul BasicType.float = ok BinOpOpcode.mul_float
binop_opcode BinOp.mul BasicType.int8 = ok BinOpOpcode.mul_int8
binop_opcode BinOp.mul BasicType.int16 = ok BinOpOpcode.mul_int16
binop_opcode BinOp.mul BasicType.int32 = ok BinOpOpcode.mul_int32
binop_opcode BinOp.mul BasicType.int64 = ok BinOpOpcode.mul_int64
binop_opcode BinOp.udiv BasicType.int8 = ok BinOpOpcode.udiv_int8
binop_opcode BinOp.udiv BasicType.int16 = ok BinOpOpcode.udiv_int16
binop_opcode BinOp.udiv BasicType.int32 = ok BinOpOpcode.udiv_int32
binop_opcode BinOp.udiv BasicType.int64 = ok BinOpOpcode.udiv_int64
binop_opcode BinOp.sdiv BasicType.double = ok BinOpOpcode.sdiv_double
binop_opcode BinOp.sdiv BasicType.float = ok BinOpOpcode.sdiv_float
binop_opcode BinOp.sdiv BasicType.int32 = ok BinOpOpcode.sdiv_int32
binop_opcode BinOp.sdiv BasicType.int64 = ok BinOpOpcode.sdiv_int64
binop_opcode BinOp.urem BasicType.int8 = ok BinOpOpcode.urem_int8
binop_opcode BinOp.urem BasicType.int16 = ok BinOpOpcode.urem_int16
binop_opcode BinOp.urem BasicType.int32 = ok BinOpOpcode.urem_int32
binop_opcode BinOp.urem BasicType.int64 = ok BinOpOpcode.urem_int64
binop_opcode BinOp.srem BasicType.int32 = ok BinOpOpcode.srem_int32
binop_opcode BinOp.srem BasicType.int64 = ok BinOpOpcode.srem_int64
binop_opcode BinOp.shl BasicType.int8 = ok BinOpOpcode.shl_int8
binop_opcode BinOp.shl BasicType.int16 = ok BinOpOpcode.shl_int16
binop_opcode BinOp.shl BasicType.int32 = ok BinOpOpcode.shl_int32
binop_opcode BinOp.shl BasicType.int64 = ok BinOpOpcode.shl_int64
binop_opcode BinOp.lshr BasicType.int8 = ok BinOpOpcode.lshr_int8
binop_opcode BinOp.lshr BasicType.int16 = ok BinOpOpcode.lshr_int16
binop_opcode BinOp.lshr BasicType.int32 = ok BinOpOpcode.lshr_int32
binop_opcode BinOp.lshr BasicType.int64 = ok BinOpOpcode.lshr_int64
binop_opcode BinOp.ashr BasicType.int8 = ok BinOpOpcode.ashr_int8
binop_opcode BinOp.ashr BasicType.int16 = ok BinOpOpcode.ashr_int16
binop_opcode BinOp.ashr BasicType.int32 = ok BinOpOpcode.ashr_int32
binop_opcode BinOp.ashr BasicType.int64 = ok BinOpOpcode.ashr_int64
binop_opcode BinOp.and BasicType.int1 = ok BinOpOpcode.and_int1
binop_opcode BinOp.and BasicType.int8 = ok BinOpOpcode.and_int8
binop_opcode BinOp.and BasicType.int16 = ok BinOpOpcode.and_int16
binop_opcode BinOp.and BasicType.int32 = ok BinOpOpcode.and_int32
binop_opcode BinOp.and BasicType.int64 = ok BinOpOpcode.and_int64
binop_opcode BinOp.or BasicType.int1 = ok BinOpOpcode.or_int1
binop_opcode BinOp.or BasicType.int8 = ok BinOpOpcode.or_int8
binop_opcode BinOp.or BasicType.int16 = ok BinOpOpcode.or_int16
binop_opcode BinOp.or BasicType.int32 = ok BinOpOpcode.or_int32
binop_opcode BinOp.or BasicType.int64 = ok BinOpOpcode.or_int64
binop_opcode BinOp.xor BasicType.int1 = ok BinOpOpcode.xor_int1
binop_opcode BinOp.xor BasicType.int8 = ok BinOpOpcode.xor_int8
binop_opcode BinOp.xor BasicType.int16 = ok BinOpOpcode.xor_int16
binop_opcode BinOp.xor BasicType.int32 = ok BinOpOpcode.xor_int32
binop_opcode BinOp.xor BasicType.int64 = ok BinOpOpcode.xor_int64
binop_opcode _ _ = fatal

unfoldable pub cast_opcode : Cast → BasicType → BasicType → Result CastOpcode
cast_opcode Cast.trunc BasicType.int8 BasicType.int1 = ok CastOpcode.trunc_int8_int1
cast_opcode Cast.trunc BasicType.int16 BasicType.int1 = ok CastOpcode.trunc_int16_int1
cast_opcode Cast.trunc BasicType.int16 BasicType.int8 = ok CastOpcode.trunc_int16_int8
cast_opcode Cast.trunc BasicType.int32 BasicType.int1 = ok CastOpcode.trunc_int32_int1
cast_opcode Cast.trunc BasicType.int32 BasicType.int8 = ok CastOpcode.trunc_int32_int8
cast_opcode Cast.trunc BasicType.int32 BasicType.int16 = ok CastOpcode.trunc_int32_int16
cast_opcode Cast.trunc BasicType.int64 BasicType.int8 = ok CastOpcode.trunc_int64_int8
cast_opcode Cast.trunc BasicType.int64 BasicType.int16 = ok CastOpcode.trunc_int64_int16
cast_opcode Cast.trunc BasicType.int64 BasicType.int32 = ok CastOpcode.trunc_int64_int32
cast_opcode Cast.zext BasicType.int1 BasicType.int8 = ok CastOpcode.zext_int1_int8
cast_opcode Cast.zext BasicType.int1 BasicType.int16 = ok CastOpcode.zext_int1_int16
cast_opcode Cast.zext BasicType.int1 BasicType.int32 = ok CastOpcode.zext_int1_int32
cast_opcode Cast.zext BasicType.int1 BasicType.int64 = ok CastOpcode.zext_int1_int64
cast_opcode Cast.zext BasicType.int8 BasicType.int16 = ok CastOpcode.zext_int8_int16
cast_opcode Cast.zext BasicType.int8 BasicType.int32 = ok CastOpcode.zext_int8_int32
cast_opcode Cast.zext BasicType.int8 BasicType.int64 = ok CastOpcode.zext_int8_int64
cast_opcode Cast.zext BasicType.int16 BasicType.int32 = ok CastOpcode.zext_int16_int32
cast_opcode Cast.zext BasicType.int16 BasicType.int64 = ok CastOpcode.zext_int16_int64
cast_opcode Cast.zext BasicType.int32 BasicType.int64 = ok CastOpcode.zext_int32_int64
cast_opcode Cast.sext BasicType.int1 BasicType.int8 = ok CastOpcode.sext_int1_int8
cast_opcode Cast.sext BasicType.int1 BasicType.int16 = ok CastOpcode.sext_int1_int16
cast_opcode Cast.sext BasicType.int1 BasicType.int32 = ok CastOpcode.sext_int1_int32
cast_opcode Cast.sext BasicType.int1 BasicType.int64 = ok CastOpcode.sext_int1_int64
cast_opcode Cast.sext BasicType.int8 BasicType.int16 = ok CastOpcode.sext_int8_int16
cast_opcode Cast.sext BasicType.int8 BasicType.int32 = ok CastOpcode.sext_int8_int32
cast_opcode Cast.sext BasicType.int8 BasicType.int64 = ok CastOpcode.sext_int8_int64
cast_opcode Cast.sext BasicType.int16 BasicType.int32 = ok CastOpcode.sext_int16_int32
cast_opcode Cast.sext BasicType.int16 BasicType.int64 = ok CastOpcode.sext_int16_int64
cast_opcode Cast.sext BasicType.int32 BasicType.int64 = ok CastOpcode.sext_int32_int64
cast_opcode Cast.fptoui BasicType.double BasicType.int8 = ok CastOpcode.fptoui_double_int8
cast_opcode Cast.fptoui BasicType.double BasicType.int16 = ok CastOpcode.fptoui_double_int16
cast_opcode Cast.fptoui BasicType.double BasicType.int32 = ok CastOpcode.fptoui_double_int32
cast_opcode Cast.fptoui BasicType.double BasicType.int64 = ok CastOpcode.fptoui_double_int64
cast_opcode Cast.fptoui BasicType.float BasicType.int8 = ok CastOpcode.fptoui_float_int8
cast_opcode Cast.fptoui BasicType.float BasicType.int16 = ok CastOpcode.fptoui_float_int16
cast_opcode Cast.fptoui BasicType.float BasicType.int32 = ok CastOpcode.fptoui_float_int32
cast_opcode Cast.fptoui BasicType.float BasicType.int64 = ok CastOpcode.fptoui_float_int64
cast_opcode Cast.fptosi BasicType.double BasicType.int8 = ok CastOpcode.fptosi_double_int8
cast_opcode Cast.fptosi BasicType.double BasicType.int16 = ok CastOpcode.fptosi_double_int16
cast_opcode Cast.fptosi BasicType.double BasicType.int32 = ok CastOpcode.fptosi_double_int32
cast_opcode Cast.fptosi BasicType.double BasicType.int64 = ok CastOpcode.fptosi_double_int64
cast_opcode Cast.fptosi BasicType.float BasicType.int8 = ok CastOpcode.fptosi_float_int8
cast_opcode Cast.fptosi BasicType.float BasicType.int16 = ok CastOpcode.fptosi_float_int16
cast_opcode Cast.fptosi BasicType.float BasicType.int32 = ok CastOpcode.fptosi_float_int32
cast_opcode Cast.fptosi BasicType.float BasicType.int64 = ok CastOpcode.fptosi_float_int64
cast_opcode Cast.uitofp BasicType.int8 BasicType.double = ok CastOpcode.uitofp_int8_double
cast_opcode Cast.uitofp BasicType.int8 BasicType.float = ok CastOpcode.uitofp_int8_float
cast_opcode Cast.uitofp BasicType.int16 BasicType.double = ok CastOpcode.uitofp_int16_double
cast_opcode Cast.uitofp BasicType.int16 BasicType.float = ok CastOpcode.uitofp_int16_float
cast_opcode Cast.uitofp BasicType.int32 BasicType.double = ok CastOpcode.uitofp_int32_double
cast_opcode Cast.uitofp BasicType.int32 BasicType.float = ok CastOpcode.uitofp_int32_float
cast_opcode Cast.uitofp BasicType.int64 BasicType.double = ok CastOpcode.uitofp_int64_double
cast_opcode Cast.uitofp BasicType.int64 BasicType.float = ok CastOpcode.uitofp_int64_float
cast_opcode Cast.sitofp BasicType.int8 BasicType.double = ok CastOpcode.sitofp_int8_double
cast_opcode Cast.sitofp BasicType.int8 BasicType.float = ok CastOpcode.sitofp_int8_float
cast_opcode Cast.sitofp BasicType.int16 BasicType.double = ok CastOpcode.sitofp_int16_double
cast_opcode Cast.sitofp BasicType.int16 BasicType.float = ok CastOpcode.sitofp_int16_float
cast_opcode Cast.sitofp BasicType.int32 BasicType.double = ok CastOpcode.sitofp_int32_double
cast_opcode Cast.sitofp BasicType.int32 BasicType.float = ok CastOpcode.sitofp_int32_float
cast_opcode Cast.sitofp BasicType.int64 BasicType.double = ok CastOpcode.sitofp_int64_double
cast_opcode Cast.sitofp BasicType.int64 BasicType.float = ok CastOpcode.sitofp_int64_float
cast_opcode Cast.fptrunc BasicType.double BasicType.float = ok CastOpcode.fptrunc_double_float
cast_opcode Cast.fpext BasicType.float BasicType.double = ok CastOpcode.fpext_float_double
cast_opcode Cast.bitcast BasicType.double BasicType.int64 = ok CastOpcode.bitcast_double_int64
cast_opcode Cast.bitcast BasicType.float BasicType.int32 = ok CastOpcode.bitcast_float_int32
cast_opcode Cast.bitcast BasicType.int32 BasicType.float = ok CastOpcode.bitcast_int32_float
cast_opcode Cast.bitcast BasicType.int64 BasicType.double = ok CastOpcode.bitcast_int64_double
cast_opcode _ _ _ = fatal

unfoldable pub cmp2_opcode : Cmp2 → BasicType → Result Cmp2Opcode
cmp2_opcode Cmp2.fcmp_oeq BasicType.double = ok Cmp2Opcode.fcmp_oeq_double
cmp2_opcode Cmp2.fcmp_oeq BasicType.float = ok Cmp2Opcode.fcmp_oeq_float
cmp2_opcode Cmp2.fcmp_ogt BasicType.double = ok Cmp2Opcode.fcmp_ogt_double
cmp2_opcode Cmp2.fcmp_ogt BasicType.float = ok Cmp2Opcode.fcmp_ogt_float
cmp2_opcode Cmp2.fcmp_oge BasicType.double = ok Cmp2Opcode.fcmp_oge_double
cmp2_opcode Cmp2.fcmp_oge BasicType.float = ok Cmp2Opcode.fcmp_oge_float
cmp2_opcode Cmp2.fcmp_olt BasicType.double = ok Cmp2Opcode.fcmp_olt_double
cmp2_opcode Cmp2.fcmp_olt BasicType.float = ok Cmp2Opcode.fcmp_olt_float
cmp2_opcode Cmp2.fcmp_ole BasicType.double = ok Cmp2Opcode.fcmp_ole_double
cmp2_opcode Cmp2.fcmp_ole BasicType.float = ok Cmp2Opcode.fcmp_ole_float
cmp2_opcode Cmp2.fcmp_one BasicType.double = ok Cmp2Opcode.fcmp_one_double
cmp2_opcode Cmp2.fcmp_one BasicType.float = ok Cmp2Opcode.fcmp_one_float
cmp2_opcode Cmp2.fcmp_ord BasicType.double = ok Cmp2Opcode.fcmp_ord_double
cmp2_opcode Cmp2.fcmp_ord BasicType.float = ok Cmp2Opcode.fcmp_ord_float
cmp2_opcode Cmp2.fcmp_uno BasicType.double = ok Cmp2Opcode.fcmp_uno_double
cmp2_opcode Cmp2.fcmp_uno BasicType.float = ok Cmp2Opcode.fcmp_uno_float
cmp2_opcode Cmp2.fcmp_ueq BasicType.double = ok Cmp2Opcode.fcmp_ueq_double
cmp2_opcode Cmp2.fcmp_ueq BasicType.float = ok Cmp2Opcode.fcmp_ueq_float
cmp2_opcode Cmp2.fcmp_ugt BasicType.double = ok Cmp2Opcode.fcmp_ugt_double
cmp2_opcode Cmp2.fcmp_ugt BasicType.float = ok Cmp2Opcode.fcmp_ugt_float
cmp2_opcode Cmp2.fcmp_uge BasicType.double = ok Cmp2Opcode.fcmp_uge_double
cmp2_opcode Cmp2.fcmp_uge BasicType.float = ok Cmp2Opcode.fcmp_uge_float
cmp2_opcode Cmp2.fcmp_ult BasicType.double = ok Cmp2Opcode.fcmp_ult_double
cmp2_opcode Cmp2.fcmp_ult BasicType.float = ok Cmp2Opcode.fcmp_ult_float
cmp2_opcode Cmp2.fcmp_ule BasicType.double = ok Cmp2Opcode.fcmp_ule_double
cmp2_opcode Cmp2.fcmp_ule BasicType.float = ok Cmp2Opcode.fcmp_ule_float
cmp2_opcode Cmp2.fcmp_une BasicType.double = ok Cmp2Opcode.fcmp_une_double
cmp2_opcode Cmp2.fcmp_une BasicType.float = ok Cmp2Opcode.fcmp_une_float
cmp2_opcode Cmp2.icmp_eq BasicType.int8 = ok Cmp2Opcode.icmp_eq_int8
cmp2_opcode Cmp2.icmp_eq BasicType.int16 = ok Cmp2Opcode.icmp_eq_int16
cmp2_opcode Cmp2.icmp_eq BasicType.int32 = ok Cmp2Opcode.icmp_eq_int32
cmp2_opcode Cmp2.icmp_eq BasicType.int64 = ok Cmp2Opcode.icmp_eq_int64
cmp2_opcode Cmp2.icmp_ne BasicType.int8 = ok Cmp2Opcode.icmp_ne_int8
cmp2_opcode Cmp2.icmp_ne BasicType.int16 = ok Cmp2Opcode.icmp_ne_int16
cmp2_opcode Cmp2.icmp_ne BasicType.int32 = ok Cmp2Opcode.icmp_ne_int32
cmp2_opcode Cmp2.icmp_ne BasicType.int64 = ok Cmp2Opcode.icmp_ne_int64
cmp2_opcode Cmp2.icmp_ugt BasicType.int8 = ok Cmp2Opcode.icmp_ugt_int8
cmp2_opcode Cmp2.icmp_ugt BasicType.int16 = ok Cmp2Opcode.icmp_ugt_int16
cmp2_opcode Cmp2.icmp_ugt BasicType.int32 = ok Cmp2Opcode.icmp_ugt_int32
cmp2_opcode Cmp2.icmp_ugt BasicType.int64 = ok Cmp2Opcode.icmp_ugt_int64
cmp2_opcode Cmp2.icmp_uge BasicType.int8 = ok Cmp2Opcode.icmp_uge_int8
cmp2_opcode Cmp2.icmp_uge BasicType.int16 = ok Cmp2Opcode.icmp_uge_int16
cmp2_opcode Cmp2.icmp_uge BasicType.int32 = ok Cmp2Opcode.icmp_uge_int32
cmp2_opcode Cmp2.icmp_uge BasicType.int64 = ok Cmp2Opcode.icmp_uge_int64
cmp2_opcode Cmp2.icmp_ult BasicType.int8 = ok Cmp2Opcode.icmp_ult_int8
cmp2_opcode Cmp2.icmp_ult BasicType.int16 = ok Cmp2Opcode.icmp_ult_int16
cmp2_opcode Cmp2.icmp_ult BasicType.int32 = ok Cmp2Opcode.icmp_ult_int32
cmp2_opcode Cmp2.icmp_ult BasicType.int64 = ok Cmp2Opcode.icmp_ult_int64
cmp2_opcode Cmp2.icmp_ule BasicType.int8 = ok Cmp2Opcode.icmp_ule_int8
cmp2_opcode Cmp2.icmp_ule BasicType.int16 = ok Cmp2Opcode.icmp_ule_int16
cmp2_opcode Cmp2.icmp_ule BasicType.int32 = ok Cmp2Opcode.icmp_ule_int32
cmp2_opcode Cmp2.icmp_ule BasicType.int64 = ok Cmp2Opcode.icmp_ule_int64
cmp2_opcode Cmp2.icmp_sgt BasicType.int8 = ok Cmp2Opcode.icmp_sgt_int8
cmp2_opcode Cmp2.icmp_sgt BasicType.int16 = ok Cmp2Opcode.icmp_sgt_int16
cmp2_opcode Cmp2.icmp_sgt BasicType.int32 = ok Cmp2Opcode.icmp_sgt_int32
cmp2_opcode Cmp2.icmp_sgt BasicType.int64 = ok Cmp2Opcode.icmp_sgt_int64
cmp2_opcode Cmp2.icmp_sge BasicType.int8 = ok Cmp2Opcode.icmp_sge_int8
cmp2_opcode Cmp2.icmp_sge BasicType.int16 = ok Cmp2Opcode.icmp_sge_int16
cmp2_opcode Cmp2.icmp_sge BasicType.int32 = ok Cmp2Opcode.icmp_sge_int32
cmp2_opcode Cmp2.icmp_sge BasicType.int64 = ok Cmp2Opcode.icmp_sge_int64
cmp2_opcode Cmp2.icmp_slt BasicType.int8 = ok Cmp2Opcode.icmp_slt_int8
cmp2_opcode Cmp2.icmp_slt BasicType.int16 = ok Cmp2Opcode.icmp_slt_int16
cmp2_opcode Cmp2.icmp_slt BasicType.int32 = ok Cmp2Opcode.icmp_slt_int32
cmp2_opcode Cmp2.icmp_slt BasicType.int64 = ok Cmp2Opcode.icmp_slt_int64
cmp2_opcode Cmp2.icmp_sle BasicType.int8 = ok Cmp2Opcode.icmp_sle_int8
cmp2_opcode Cmp2.icmp_sle BasicType.int16 = ok Cmp2Opcode.icmp_sle_int16
cmp2_opcode Cmp2.icmp_sle BasicType.int32 = ok Cmp2Opcode.icmp_sle_int32
cmp2_opcode Cmp2.icmp_sle BasicType.int64 = ok Cmp2Opcode.icmp_sle_int64
cmp2_opcode _ _ = fatal
