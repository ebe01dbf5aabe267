-- ===== src/Executor/Select.antt =====
-- The opcode that an instruction is given and the case that executes it, together: which operator
-- is applied to which fields, for every operation and every operand type.
use pnacl_c.Base.{◌≡◌, refl, Bool, true, false, if◌then◌else◌, Result, ok, fatal, ◌>>=◌}
use pnacl_c.Opcode.{binop_opcode, cmp2_opcode}
use pnacl_c.Opcode.Codes.{BasicType, BinOp, Cmp2}
use pnacl_c.Executor.{binop_case, cmp2_case}
use pnacl_c.Executor.Fields.{Scalar, Operator, Relation, Test}

-- The fields of a type: unsigned, and signed.
abbrev pub unsigned_field : BasicType → Scalar
unsigned_field BasicType.int16 = Scalar.u16
unsigned_field BasicType.int32 = Scalar.u32
unsigned_field BasicType.int64 = Scalar.u64
unsigned_field BasicType.float = Scalar.f32
unsigned_field BasicType.double = Scalar.f64
unsigned_field _ = Scalar.u8

abbrev pub signed_field : BasicType → Scalar
signed_field BasicType.int16 = Scalar.i16
signed_field BasicType.int32 = Scalar.i32
signed_field BasicType.int64 = Scalar.i64
signed_field BasicType.float = Scalar.f32
signed_field BasicType.double = Scalar.f64
signed_field _ = Scalar.i8

-- The types that an operation is there for: all but int1 for arithmetic and shifts, without the
-- floats where there is no such operation, the wide integers and floats for signed division.
abbrev pub Accepts : Type 0
Accepts = BasicType → Bool

abbrev pub any_number : Accepts
any_number BasicType.void = false
any_number BasicType.int1 = false
any_number _ = true

abbrev pub any_word : Accepts
any_word BasicType.int8 = true
any_word BasicType.int16 = true
any_word BasicType.int32 = true
any_word BasicType.int64 = true
any_word _ = false

abbrev pub any_integer : Accepts
any_integer BasicType.int1 = true
any_integer t = any_word t

abbrev pub wide_word : Accepts
wide_word BasicType.int32 = true
wide_word BasicType.int64 = true
wide_word _ = false

abbrev pub wide_number : Accepts
wide_number BasicType.float = true
wide_number BasicType.double = true
wide_number t = wide_word t

abbrev pub any_float : Accepts
any_float BasicType.float = true
any_float BasicType.double = true
any_float _ = false

abbrev pub expects : {A : Type 0} → Accepts → BasicType → A → Result A
expects accepts t a = if accepts t then ok a else fatal

abbrev pub expected_binop : BinOp → BasicType → Result (Operator × Scalar)
expected_binop BinOp.add t = expects any_number t (Operator.c_add, unsigned_field t)
expected_binop BinOp.sub t = expects any_number t (Operator.c_sub, unsigned_field t)
expected_binop BinOp.mul t = expects any_number t (Operator.c_mul, unsigned_field t)
expected_binop BinOp.udiv t = expects any_word t (Operator.c_div, unsigned_field t)
expected_binop BinOp.sdiv t = expects wide_number t (Operator.c_div, signed_field t)
expected_binop BinOp.urem t = expects any_word t (Operator.c_rem, unsigned_field t)
expected_binop BinOp.srem t = expects wide_word t (Operator.c_rem, signed_field t)
expected_binop BinOp.shl t = expects any_word t (Operator.c_shl, unsigned_field t)
expected_binop BinOp.lshr t = expects any_word t (Operator.c_shr, unsigned_field t)
expected_binop BinOp.ashr t = expects any_word t (Operator.c_shr, signed_field t)
expected_binop BinOp.and t = expects any_integer t (Operator.c_and, unsigned_field t)
expected_binop BinOp.or t = expects any_integer t (Operator.c_or, unsigned_field t)
expected_binop BinOp.xor t = expects any_integer t (Operator.c_xor, unsigned_field t)

-- For each binary operation and operand type: the opcode exists exactly for the types listed by
-- `expected_binop`, any other is a fatal error, and its case in the executor applies that
-- operator to the fields of exactly that type, signed ones for sdiv, srem and ashr.
pub binop_case-binop_opcode :
    (op : BinOp) (t : BasicType)
    → (binop_opcode op t >>= λ o. ok (binop_case o)) ≡ expected_binop op t
unfolding binop_opcode binop_case
binop_case-binop_opcode BinOp.add BasicType.void = refl
binop_case-binop_opcode BinOp.add _ = refl
binop_case-binop_opcode BinOp.sub BasicType.void = refl
binop_case-binop_opcode BinOp.sub _ = refl
binop_case-binop_opcode BinOp.mul BasicType.void = refl
binop_case-binop_opcode BinOp.mul _ = refl
binop_case-binop_opcode BinOp.udiv BasicType.void = refl
binop_case-binop_opcode BinOp.udiv _ = refl
binop_case-binop_opcode BinOp.sdiv BasicType.void = refl
binop_case-binop_opcode BinOp.sdiv _ = refl
binop_case-binop_opcode BinOp.urem BasicType.void = refl
binop_case-binop_opcode BinOp.urem _ = refl
binop_case-binop_opcode BinOp.srem BasicType.void = refl
binop_case-binop_opcode BinOp.srem _ = refl
binop_case-binop_opcode BinOp.shl BasicType.void = refl
binop_case-binop_opcode BinOp.shl _ = refl
binop_case-binop_opcode BinOp.lshr BasicType.void = refl
binop_case-binop_opcode BinOp.lshr _ = refl
binop_case-binop_opcode BinOp.ashr BasicType.void = refl
binop_case-binop_opcode BinOp.ashr _ = refl
binop_case-binop_opcode BinOp.and BasicType.void = refl
binop_case-binop_opcode BinOp.and _ = refl
binop_case-binop_opcode BinOp.or BasicType.void = refl
binop_case-binop_opcode BinOp.or _ = refl
binop_case-binop_opcode BinOp.xor BasicType.void = refl
binop_case-binop_opcode BinOp.xor _ = refl

abbrev pub expected_cmp2 : Cmp2 → BasicType → Result (Test × Scalar)
expected_cmp2 Cmp2.fcmp_false t = fatal
expected_cmp2 Cmp2.fcmp_oeq t = expects any_float t (Test.plain Relation.c_eq, unsigned_field t)
expected_cmp2 Cmp2.fcmp_ogt t = expects any_float t (Test.plain Relation.c_gt, unsigned_field t)
expected_cmp2 Cmp2.fcmp_oge t = expects any_float t (Test.plain Relation.c_ge, unsigned_field t)
expected_cmp2 Cmp2.fcmp_olt t = expects any_float t (Test.plain Relation.c_lt, unsigned_field t)
expected_cmp2 Cmp2.fcmp_ole t = expects any_float t (Test.plain Relation.c_le, unsigned_field t)
expected_cmp2 Cmp2.fcmp_one t = expects any_float t (Test.plain Relation.c_ne, unsigned_field t)
expected_cmp2 Cmp2.fcmp_ord t = expects any_float t (Test.ord, unsigned_field t)
expected_cmp2 Cmp2.fcmp_uno t = expects any_float t (Test.uno, unsigned_field t)
expected_cmp2 Cmp2.fcmp_ueq t = expects any_float t (Test.negated Relation.c_ne, unsigned_field t)
expected_cmp2 Cmp2.fcmp_ugt t = expects any_float t (Test.negated Relation.c_le, unsigned_field t)
expected_cmp2 Cmp2.fcmp_uge t = expects any_float t (Test.negated Relation.c_lt, unsigned_field t)
expected_cmp2 Cmp2.fcmp_ult t = expects any_float t (Test.negated Relation.c_ge, unsigned_field t)
expected_cmp2 Cmp2.fcmp_ule t = expects any_float t (Test.negated Relation.c_gt, unsigned_field t)
expected_cmp2 Cmp2.fcmp_une t = expects any_float t (Test.negated Relation.c_eq, unsigned_field t)
expected_cmp2 Cmp2.fcmp_true t = fatal
expected_cmp2 Cmp2.icmp_eq t = expects any_word t (Test.plain Relation.c_eq, unsigned_field t)
expected_cmp2 Cmp2.icmp_ne t = expects any_word t (Test.plain Relation.c_ne, unsigned_field t)
expected_cmp2 Cmp2.icmp_ugt t = expects any_word t (Test.plain Relation.c_gt, unsigned_field t)
expected_cmp2 Cmp2.icmp_uge t = expects any_word t (Test.plain Relation.c_ge, unsigned_field t)
expected_cmp2 Cmp2.icmp_ult t = expects any_word t (Test.plain Relation.c_lt, unsigned_field t)
expected_cmp2 Cmp2.icmp_ule t = expects any_word t (Test.plain Relation.c_le, unsigned_field t)
expected_cmp2 Cmp2.icmp_sgt t = expects any_word t (Test.plain Relation.c_gt, signed_field t)
expected_cmp2 Cmp2.icmp_sge t = expects any_word t (Test.plain Relation.c_ge, signed_field t)
expected_cmp2 Cmp2.icmp_slt t = expects any_word t (Test.plain Relation.c_lt, signed_field t)
expected_cmp2 Cmp2.icmp_sle t = expects any_word t (Test.plain Relation.c_le, signed_field t)

-- For each comparison and operand type: the opcode exists exactly for the types listed by
-- `expected_cmp2` (none for fcmp false and true), any other is a fatal error, and its case in the
-- executor makes that test on the fields of exactly that type, signed ones for the signed orders.
pub cmp2_case-cmp2_opcode :
    (op : Cmp2) (t : BasicType) → (cmp2_opcode op t >>= λ o. ok (cmp2_case o)) ≡ expected_cmp2 op t
unfolding cmp2_opcode cmp2_case
cmp2_case-cmp2_opcode Cmp2.fcmp_false BasicType.void = refl
cmp2_case-cmp2_opcode Cmp2.fcmp_false _ = refl
cmp2_case-cmp2_opcode Cmp2.fcmp_oeq BasicType.void = refl
cmp2_case-cmp2_opcode Cmp2.fcmp_oeq _ = refl
cmp2_case-cmp2_opcode Cmp2.fcmp_ogt BasicType.void = refl
cmp2_case-cmp2_opcode Cmp2.fcmp_ogt _ = refl
cmp2_case-cmp2_opcode Cmp2.fcmp_oge BasicType.void = refl
cmp2_case-cmp2_opcode Cmp2.fcmp_oge _ = refl
cmp2_case-cmp2_opcode Cmp2.fcmp_olt BasicType.void = refl
cmp2_case-cmp2_opcode Cmp2.fcmp_olt _ = refl
cmp2_case-cmp2_opcode Cmp2.fcmp_ole BasicType.void = refl
cmp2_case-cmp2_opcode Cmp2.fcmp_ole _ = refl
cmp2_case-cmp2_opcode Cmp2.fcmp_one BasicType.void = refl
cmp2_case-cmp2_opcode Cmp2.fcmp_one _ = refl
cmp2_case-cmp2_opcode Cmp2.fcmp_ord BasicType.void = refl
cmp2_case-cmp2_opcode Cmp2.fcmp_ord _ = refl
cmp2_case-cmp2_opcode Cmp2.fcmp_uno BasicType.void = refl
cmp2_case-cmp2_opcode Cmp2.fcmp_uno _ = refl
cmp2_case-cmp2_opcode Cmp2.fcmp_ueq BasicType.void = refl
cmp2_case-cmp2_opcode Cmp2.fcmp_ueq _ = refl
cmp2_case-cmp2_opcode Cmp2.fcmp_ugt BasicType.void = refl
cmp2_case-cmp2_opcode Cmp2.fcmp_ugt _ = refl
cmp2_case-cmp2_opcode Cmp2.fcmp_uge BasicType.void = refl
cmp2_case-cmp2_opcode Cmp2.fcmp_uge _ = refl
cmp2_case-cmp2_opcode Cmp2.fcmp_ult BasicType.void = refl
cmp2_case-cmp2_opcode Cmp2.fcmp_ult _ = refl
cmp2_case-cmp2_opcode Cmp2.fcmp_ule BasicType.void = refl
cmp2_case-cmp2_opcode Cmp2.fcmp_ule _ = refl
cmp2_case-cmp2_opcode Cmp2.fcmp_une BasicType.void = refl
cmp2_case-cmp2_opcode Cmp2.fcmp_une _ = refl
cmp2_case-cmp2_opcode Cmp2.fcmp_true BasicType.void = refl
cmp2_case-cmp2_opcode Cmp2.fcmp_true _ = refl
cmp2_case-cmp2_opcode Cmp2.icmp_eq BasicType.void = refl
cmp2_case-cmp2_opcode Cmp2.icmp_eq _ = refl
cmp2_case-cmp2_opcode Cmp2.icmp_ne BasicType.void = refl
cmp2_case-cmp2_opcode Cmp2.icmp_ne _ = refl
cmp2_case-cmp2_opcode Cmp2.icmp_ugt BasicType.void = refl
cmp2_case-cmp2_opcode Cmp2.icmp_ugt _ = refl
cmp2_case-cmp2_opcode Cmp2.icmp_uge BasicType.void = refl
cmp2_case-cmp2_opcode Cmp2.icmp_uge _ = refl
cmp2_case-cmp2_opcode Cmp2.icmp_ult BasicType.void = refl
cmp2_case-cmp2_opcode Cmp2.icmp_ult _ = refl
cmp2_case-cmp2_opcode Cmp2.icmp_ule BasicType.void = refl
cmp2_case-cmp2_opcode Cmp2.icmp_ule _ = refl
cmp2_case-cmp2_opcode Cmp2.icmp_sgt BasicType.void = refl
cmp2_case-cmp2_opcode Cmp2.icmp_sgt _ = refl
cmp2_case-cmp2_opcode Cmp2.icmp_sge BasicType.void = refl
cmp2_case-cmp2_opcode Cmp2.icmp_sge _ = refl
cmp2_case-cmp2_opcode Cmp2.icmp_slt BasicType.void = refl
cmp2_case-cmp2_opcode Cmp2.icmp_slt _ = refl
cmp2_case-cmp2_opcode Cmp2.icmp_sle BasicType.void = refl
cmp2_case-cmp2_opcode Cmp2.icmp_sle _ = refl
