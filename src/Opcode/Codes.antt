-- ===== src/Opcode/Codes.antt =====
-- The enumerations of src/pnacl.h that instructions are written in, and the specialised opcodes.

-- PN_BASIC_TYPE_*.
pub data BasicType : Type 0 where
  void int1 int8 int16 int32 int64 float double : BasicType

-- PN_BINOP_*.
pub data BinOp : Type 0 where
  add sub mul udiv sdiv urem srem shl lshr ashr and or xor : BinOp

-- PN_CAST_*.
pub data Cast : Type 0 where
  trunc zext sext fptoui fptosi uitofp sitofp fptrunc fpext bitcast : Cast

-- PN_FCMP_* and PN_ICMP_*.
pub data Cmp2 : Type 0 where
  fcmp_false fcmp_oeq fcmp_ogt fcmp_oge fcmp_olt fcmp_ole fcmp_one fcmp_ord fcmp_uno fcmp_ueq : Cmp2
  fcmp_ugt fcmp_uge fcmp_ult fcmp_ule fcmp_une fcmp_true icmp_eq icmp_ne icmp_ugt icmp_uge : Cmp2
  icmp_ult icmp_ule icmp_sgt icmp_sge icmp_slt icmp_sle : Cmp2

-- PN_OPCODE_BINOP_*.
pub data BinOpOpcode : Type 0 where
  add_double add_float add_int8 add_int16 add_int32 add_int64 and_int1 and_int8 and_int16 :
      BinOpOpcode
  and_int32 and_int64 ashr_int8 ashr_int16 ashr_int32 ashr_int64 lshr_int8 lshr_int16 : BinOpOpcode
  lshr_int32 lshr_int64 mul_double mul_float mul_int8 mul_int16 mul_int32 mul_int64 or_int1 :
      BinOpOpcode
  or_int8 or_int16 or_int32 or_int64 sdiv_double sdiv_float sdiv_int32 sdiv_int64 shl_int8 :
      BinOpOpcode
  shl_int16 shl_int32 shl_int64 srem_int32 srem_int64 sub_double sub_float sub_int8 sub_int16 :
      BinOpOpcode
  sub_int32 sub_int64 udiv_int8 udiv_int16 udiv_int32 udiv_int64 urem_int8 urem_int16 : BinOpOpcode
  urem_int32 urem_int64 xor_int1 xor_int8 xor_int16 xor_int32 xor_int64 : BinOpOpcode

-- PN_OPCODE_CAST_*.
pub data CastOpcode : Type 0 where
  bitcast_double_int64 bitcast_float_int32 bitcast_int32_float bitcast_int64_double : CastOpcode
  fpext_float_double fptosi_double_int8 fptosi_double_int16 fptosi_double_int32 : CastOpcode
  fptosi_double_int64 fptosi_float_int8 fptosi_float_int16 fptosi_float_int32 : CastOpcode
  fptosi_float_int64 fptoui_double_int8 fptoui_double_int16 fptoui_double_int32 : CastOpcode
  fptoui_double_int64 fptoui_float_int8 fptoui_float_int16 fptoui_float_int32 : CastOpcode
  fptoui_float_int64 fptrunc_double_float sext_int1_int8 sext_int1_int16 sext_int1_int32 :
      CastOpcode
  sext_int1_int64 sext_int8_int16 sext_int8_int32 sext_int8_int64 sext_int16_int32 : CastOpcode
  sext_int16_int64 sext_int32_int64 sitofp_int8_double sitofp_int8_float sitofp_int16_double :
      CastOpcode
  sitofp_int16_float sitofp_int32_double sitofp_int32_float sitofp_int64_double : CastOpcode
  sitofp_int64_float trunc_int8_int1 trunc_int16_int1 trunc_int16_int8 trunc_int32_int1 : CastOpcode
  trunc_int32_int8 trunc_int32_int16 trunc_int64_int8 trunc_int64_int16 trunc_int64_int32 :
      CastOpcode
  uitofp_int8_double uitofp_int8_float uitofp_int16_double uitofp_int16_float : CastOpcode
  uitofp_int32_double uitofp_int32_float uitofp_int64_double uitofp_int64_float : CastOpcode
  zext_int1_int8 zext_int1_int16 zext_int1_int32 zext_int1_int64 zext_int8_int16 : CastOpcode
  zext_int8_int32 zext_int8_int64 zext_int16_int32 zext_int16_int64 zext_int32_int64 : CastOpcode

-- PN_OPCODE_FCMP_* and PN_OPCODE_ICMP_*.
pub data Cmp2Opcode : Type 0 where
  fcmp_oeq_double fcmp_oeq_float fcmp_oge_double fcmp_oge_float fcmp_ogt_double : Cmp2Opcode
  fcmp_ogt_float fcmp_ole_double fcmp_ole_float fcmp_olt_double fcmp_olt_float : Cmp2Opcode
  fcmp_one_double fcmp_one_float fcmp_ord_double fcmp_ord_float fcmp_ueq_double : Cmp2Opcode
  fcmp_ueq_float fcmp_uge_double fcmp_uge_float fcmp_ugt_double fcmp_ugt_float : Cmp2Opcode
  fcmp_ule_double fcmp_ule_float fcmp_ult_double fcmp_ult_float fcmp_une_double : Cmp2Opcode
  fcmp_une_float fcmp_uno_double fcmp_uno_float icmp_eq_int8 icmp_eq_int16 icmp_eq_int32 :
      Cmp2Opcode
  icmp_eq_int64 icmp_ne_int8 icmp_ne_int16 icmp_ne_int32 icmp_ne_int64 icmp_sge_int8 : Cmp2Opcode
  icmp_sge_int16 icmp_sge_int32 icmp_sge_int64 icmp_sgt_int8 icmp_sgt_int16 icmp_sgt_int32 :
      Cmp2Opcode
  icmp_sgt_int64 icmp_sle_int8 icmp_sle_int16 icmp_sle_int32 icmp_sle_int64 icmp_slt_int8 :
      Cmp2Opcode
  icmp_slt_int16 icmp_slt_int32 icmp_slt_int64 icmp_uge_int8 icmp_uge_int16 icmp_uge_int32 :
      Cmp2Opcode
  icmp_uge_int64 icmp_ugt_int8 icmp_ugt_int16 icmp_ugt_int32 icmp_ugt_int64 icmp_ule_int8 :
      Cmp2Opcode
  icmp_ule_int16 icmp_ule_int32 icmp_ule_int64 icmp_ult_int8 icmp_ult_int16 icmp_ult_int32 :
      Cmp2Opcode
  icmp_ult_int64 : Cmp2Opcode
