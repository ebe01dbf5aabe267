-- ===== src/Executor/Compare/Floats.antt =====
-- Floating comparisons, against the table in the executor's source.
use pnacl_c.Base.{ℕ, ◌/◌, ◌%◌, ◌≡◌, refl}
use pnacl_c.Base.{Bool, true, false, not, if◌then◌else◌, ◌==◌, ok, ◌∙◌}
use pnacl_c.Opcode.Codes.{BasicType, Cmp2}
use pnacl_c.Executor.Fields.{Host, Order, Relation, Test, width, get, passes, order_of}
use pnacl_c.Executor.Select.{any_float, unsigned_field, expected_cmp2, expects}
use pnacl_c.Executor.Compare.{run_cmp2, bool_value, compare_value-passes, run_cmp2-expected}

-- The number of a PN_FCMP_* code. Its four bits are the table U L G E that the executor's source
-- gives: the code holds for unordered, less, greater and equal operands by its bits 3, 2, 1 and 0.
abbrev pub fcmp_code : Cmp2 → ℕ
fcmp_code Cmp2.fcmp_false = 0
fcmp_code Cmp2.fcmp_oeq = 1
fcmp_code Cmp2.fcmp_ogt = 2
fcmp_code Cmp2.fcmp_oge = 3
fcmp_code Cmp2.fcmp_olt = 4
fcmp_code Cmp2.fcmp_ole = 5
fcmp_code Cmp2.fcmp_one = 6
fcmp_code Cmp2.fcmp_ord = 7
fcmp_code Cmp2.fcmp_uno = 8
fcmp_code Cmp2.fcmp_ueq = 9
fcmp_code Cmp2.fcmp_ugt = 10
fcmp_code Cmp2.fcmp_uge = 11
fcmp_code Cmp2.fcmp_ult = 12
fcmp_code Cmp2.fcmp_ule = 13
fcmp_code Cmp2.fcmp_une = 14
fcmp_code Cmp2.fcmp_true = 15
fcmp_code _ = 0

abbrev pub table_bit : Order → ℕ
table_bit Order.equal = 1
table_bit Order.greater = 2
table_bit Order.less = 4
table_bit Order.unordered = 8

abbrev pub in_table : Cmp2 → Order → Bool
in_table op o = fcmp_code op / table_bit o % 2 == 1

-- The codes that C's `!=` is wrong for at a NaN.
abbrev pub is_miscompared : Cmp2 → Order → Bool
is_miscompared Cmp2.fcmp_one Order.unordered = true
is_miscompared Cmp2.fcmp_ord Order.unordered = true
is_miscompared Cmp2.fcmp_uno Order.unordered = true
is_miscompared Cmp2.fcmp_ueq Order.unordered = true
is_miscompared _ _ = false

abbrev pub is_fcmp : Cmp2 → Bool
is_fcmp Cmp2.fcmp_oeq = true
is_fcmp Cmp2.fcmp_ogt = true
is_fcmp Cmp2.fcmp_oge = true
is_fcmp Cmp2.fcmp_olt = true
is_fcmp Cmp2.fcmp_ole = true
is_fcmp Cmp2.fcmp_one = true
is_fcmp Cmp2.fcmp_ord = true
is_fcmp Cmp2.fcmp_uno = true
is_fcmp Cmp2.fcmp_ueq = true
is_fcmp Cmp2.fcmp_ugt = true
is_fcmp Cmp2.fcmp_uge = true
is_fcmp Cmp2.fcmp_ult = true
is_fcmp Cmp2.fcmp_ule = true
is_fcmp Cmp2.fcmp_une = true
is_fcmp _ = false

abbrev pub fcmp_result : Cmp2 → Order → ℕ
fcmp_result op o = bool_value (if is_miscompared op o then not (in_table op o) else in_table op o)

abbrev fcmp_test : Cmp2 → Test
fcmp_test Cmp2.fcmp_oeq = Test.plain Relation.c_eq
fcmp_test Cmp2.fcmp_ogt = Test.plain Relation.c_gt
fcmp_test Cmp2.fcmp_oge = Test.plain Relation.c_ge
fcmp_test Cmp2.fcmp_olt = Test.plain Relation.c_lt
fcmp_test Cmp2.fcmp_ole = Test.plain Relation.c_le
fcmp_test Cmp2.fcmp_one = Test.plain Relation.c_ne
fcmp_test Cmp2.fcmp_ord = Test.ord
fcmp_test Cmp2.fcmp_uno = Test.uno
fcmp_test Cmp2.fcmp_ueq = Test.negated Relation.c_ne
fcmp_test Cmp2.fcmp_ugt = Test.negated Relation.c_le
fcmp_test Cmp2.fcmp_uge = Test.negated Relation.c_lt
fcmp_test Cmp2.fcmp_ult = Test.negated Relation.c_ge
fcmp_test Cmp2.fcmp_ule = Test.negated Relation.c_gt
fcmp_test Cmp2.fcmp_une = Test.negated Relation.c_eq
fcmp_test _ = Test.ord

expected_cmp2-fcmp :
    (op : Cmp2) (t : BasicType)
    → is_fcmp op ≡ true
    → expected_cmp2 op t ≡ expects any_float t (fcmp_test op, unsigned_field t)
expected_cmp2-fcmp Cmp2.fcmp_oeq t h = refl
expected_cmp2-fcmp Cmp2.fcmp_ogt t h = refl
expected_cmp2-fcmp Cmp2.fcmp_oge t h = refl
expected_cmp2-fcmp Cmp2.fcmp_olt t h = refl
expected_cmp2-fcmp Cmp2.fcmp_ole t h = refl
expected_cmp2-fcmp Cmp2.fcmp_one t h = refl
expected_cmp2-fcmp Cmp2.fcmp_ord t h = refl
expected_cmp2-fcmp Cmp2.fcmp_uno t h = refl
expected_cmp2-fcmp Cmp2.fcmp_ueq t h = refl
expected_cmp2-fcmp Cmp2.fcmp_ugt t h = refl
expected_cmp2-fcmp Cmp2.fcmp_uge t h = refl
expected_cmp2-fcmp Cmp2.fcmp_ult t h = refl
expected_cmp2-fcmp Cmp2.fcmp_ule t h = refl
expected_cmp2-fcmp Cmp2.fcmp_une t h = refl
expected_cmp2-fcmp _ t h = cc

fcmp_test-table :
    (op : Cmp2) (o : Order)
    → is_fcmp op ≡ true
    → passes (fcmp_test op) o ≡ (if is_miscompared op o then not (in_table op o) else in_table op o)
fcmp_test-table Cmp2.fcmp_oeq Order.less h = refl
fcmp_test-table Cmp2.fcmp_oeq _ h = refl
fcmp_test-table Cmp2.fcmp_ogt Order.less h = refl
fcmp_test-table Cmp2.fcmp_ogt _ h = refl
fcmp_test-table Cmp2.fcmp_oge Order.less h = refl
fcmp_test-table Cmp2.fcmp_oge _ h = refl
fcmp_test-table Cmp2.fcmp_olt Order.less h = refl
fcmp_test-table Cmp2.fcmp_olt _ h = refl
fcmp_test-table Cmp2.fcmp_ole Order.less h = refl
fcmp_test-table Cmp2.fcmp_ole _ h = refl
fcmp_test-table Cmp2.fcmp_one Order.less h = refl
fcmp_test-table Cmp2.fcmp_one _ h = refl
fcmp_test-table Cmp2.fcmp_ord Order.less h = refl
fcmp_test-table Cmp2.fcmp_ord _ h = refl
fcmp_test-table Cmp2.fcmp_uno Order.less h = refl
fcmp_test-table Cmp2.fcmp_uno _ h = refl
fcmp_test-table Cmp2.fcmp_ueq Order.less h = refl
fcmp_test-table Cmp2.fcmp_ueq _ h = refl
fcmp_test-table Cmp2.fcmp_ugt Order.less h = refl
fcmp_test-table Cmp2.fcmp_ugt _ h = refl
fcmp_test-table Cmp2.fcmp_uge Order.less h = refl
fcmp_test-table Cmp2.fcmp_uge _ h = refl
fcmp_test-table Cmp2.fcmp_ult Order.less h = refl
fcmp_test-table Cmp2.fcmp_ult _ h = refl
fcmp_test-table Cmp2.fcmp_ule Order.less h = refl
fcmp_test-table Cmp2.fcmp_ule _ h = refl
fcmp_test-table Cmp2.fcmp_une Order.less h = refl
fcmp_test-table Cmp2.fcmp_une _ h = refl
fcmp_test-table _ o h = cc

float_order :
    (host : Host) (t : BasicType) (v0 v1 : ℕ)
    → any_float t ≡ true
    → order_of host (unsigned_field t) v0 v1
      ≡ host.order
          (width (unsigned_field t))
          (get (unsigned_field t) v0)
          (get (unsigned_field t) v1)
unfolding order_of
float_order host BasicType.float v0 v1 h = refl
float_order host BasicType.double v0 v1 h = refl
float_order host _ v0 v1 h = cc

-- A floating comparison, compiled for float or double, yields what the table of the source says for
-- the order of its operands, but the opposite for one, ord, uno and ueq of unordered operands.
pub run_cmp2-fcmp :
    (host : Host) (junk v0 v1 : ℕ) (op : Cmp2) (t : BasicType)
    → is_fcmp op ≡ true
    → any_float t ≡ true
    → run_cmp2 host junk op t v0 v1
      ≡ ok (
          fcmp_result op (
            host.order
              (width (unsigned_field t))
              (get (unsigned_field t) v0)
              (get (unsigned_field t) v1)))
run_cmp2-fcmp host junk v0 v1 op t h w =
    run_cmp2-expected host junk v0 v1 op t
    ∙ rw (
      expected_cmp2-fcmp op t h,
      w,
      compare_value-passes host junk v0 v1 (fcmp_test op) (unsigned_field t),
      float_order host t v0 v1 w,
      fcmp_test-table op
          (host.order (width (unsigned_field t)) (get (unsigned_field t) v0)
            (get (unsigned_field t) v1))
          h,
    )
