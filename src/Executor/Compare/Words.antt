-- ===== src/Executor/Compare/Words.antt =====
-- Integer comparisons, against the relations of numbers.
use pnacl_c.Base.{ℕ, ◌≡◌, refl, arith}
use pnacl_c.Base.{Bool, true, false, not, ltb, leb, ◌==◌, ok, ◌∙◌}
use pnacl_c.Base.Int.{ℤ, pos, signed, ltb_ℤ}
use pnacl_c.Opcode.Codes.{BasicType, Cmp2}
use pnacl_c.Executor.Fields.{
  Scalar, Host, Relation, Test, width, get, passes, holds, order_of, order_ℤ,
}
use pnacl_c.Executor.Select.{any_word, unsigned_field, signed_field, expected_cmp2, expects}
use pnacl_c.Executor.Compare.{run_cmp2, bool_value, compare_value-passes, run_cmp2-expected}

-- Integer comparisons: the relation of two's complement or of plain numbers.
abbrev pub is_icmp : Cmp2 → Bool
is_icmp Cmp2.icmp_eq = true
is_icmp Cmp2.icmp_ne = true
is_icmp Cmp2.icmp_ugt = true
is_icmp Cmp2.icmp_uge = true
is_icmp Cmp2.icmp_ult = true
is_icmp Cmp2.icmp_ule = true
is_icmp Cmp2.icmp_sgt = true
is_icmp Cmp2.icmp_sge = true
is_icmp Cmp2.icmp_slt = true
is_icmp Cmp2.icmp_sle = true
is_icmp _ = false

abbrev pub icmp_holds : Cmp2 → ℕ → ℕ → ℕ → Bool
icmp_holds Cmp2.icmp_eq w a b = a == b
icmp_holds Cmp2.icmp_ne w a b = not (a == b)
icmp_holds Cmp2.icmp_ugt w a b = ltb b a
icmp_holds Cmp2.icmp_uge w a b = leb b a
icmp_holds Cmp2.icmp_ult w a b = ltb a b
icmp_holds Cmp2.icmp_ule w a b = leb a b
icmp_holds Cmp2.icmp_sgt w a b = ltb_ℤ (signed w b) (signed w a)
icmp_holds Cmp2.icmp_sge w a b = not (ltb_ℤ (signed w a) (signed w b))
icmp_holds Cmp2.icmp_slt w a b = ltb_ℤ (signed w a) (signed w b)
icmp_holds Cmp2.icmp_sle w a b = not (ltb_ℤ (signed w b) (signed w a))
icmp_holds _ w a b = false

abbrev relation_of : Cmp2 → Relation
relation_of Cmp2.icmp_eq = Relation.c_eq
relation_of Cmp2.icmp_ne = Relation.c_ne
relation_of Cmp2.icmp_ugt = Relation.c_gt
relation_of Cmp2.icmp_uge = Relation.c_ge
relation_of Cmp2.icmp_ult = Relation.c_lt
relation_of Cmp2.icmp_ule = Relation.c_le
relation_of Cmp2.icmp_sgt = Relation.c_gt
relation_of Cmp2.icmp_sge = Relation.c_ge
relation_of Cmp2.icmp_slt = Relation.c_lt
relation_of Cmp2.icmp_sle = Relation.c_le
relation_of _ = Relation.c_eq

abbrev field_of : Cmp2 → BasicType → Scalar
field_of Cmp2.icmp_eq t = unsigned_field t
field_of Cmp2.icmp_ne t = unsigned_field t
field_of Cmp2.icmp_ugt t = unsigned_field t
field_of Cmp2.icmp_uge t = unsigned_field t
field_of Cmp2.icmp_ult t = unsigned_field t
field_of Cmp2.icmp_ule t = unsigned_field t
field_of Cmp2.icmp_sgt t = signed_field t
field_of Cmp2.icmp_sge t = signed_field t
field_of Cmp2.icmp_slt t = signed_field t
field_of Cmp2.icmp_sle t = signed_field t
field_of _ t = unsigned_field t

expected_cmp2-icmp :
    (op : Cmp2) (t : BasicType)
    → is_icmp op ≡ true
    → expected_cmp2 op t ≡ expects any_word t (Test.plain (relation_of op), field_of op t)
expected_cmp2-icmp Cmp2.icmp_eq t h = refl
expected_cmp2-icmp Cmp2.icmp_ne t h = refl
expected_cmp2-icmp Cmp2.icmp_ugt t h = refl
expected_cmp2-icmp Cmp2.icmp_uge t h = refl
expected_cmp2-icmp Cmp2.icmp_ult t h = refl
expected_cmp2-icmp Cmp2.icmp_ule t h = refl
expected_cmp2-icmp Cmp2.icmp_sgt t h = refl
expected_cmp2-icmp Cmp2.icmp_sge t h = refl
expected_cmp2-icmp Cmp2.icmp_slt t h = refl
expected_cmp2-icmp Cmp2.icmp_sle t h = refl
expected_cmp2-icmp _ t h = cc

-- The fields of a word type have its width, and are compared as numbers of their sign.
unsigned_order :
    (host : Host) (t : BasicType) (v0 v1 : ℕ)
    → any_word t ≡ true
    → order_of host (unsigned_field t) v0 v1
      ≡ order_ℤ (pos (get (unsigned_field t) v0)) (pos (get (unsigned_field t) v1))
unfolding order_of
unsigned_order host BasicType.int8 v0 v1 h = refl
unsigned_order host BasicType.int16 v0 v1 h = refl
unsigned_order host BasicType.int32 v0 v1 h = refl
unsigned_order host BasicType.int64 v0 v1 h = refl
unsigned_order host _ v0 v1 h = cc

signed_order :
    (host : Host) (t : BasicType) (v0 v1 : ℕ)
    → any_word t ≡ true
    → order_of host (signed_field t) v0 v1
      ≡ order_ℤ
          (signed (width (unsigned_field t)) (get (unsigned_field t) v0))
          (signed (width (unsigned_field t)) (get (unsigned_field t) v1))
unfolding order_of
signed_order host BasicType.int8 v0 v1 h = refl
signed_order host BasicType.int16 v0 v1 h = refl
signed_order host BasicType.int32 v0 v1 h = refl
signed_order host BasicType.int64 v0 v1 h = refl
signed_order host _ v0 v1 h = cc

-- C's relations on the order of numbers.
plain_relation :
    (a b : ℕ)
    → let o = order_ℤ (pos a) (pos b) in
      (holds Relation.c_eq o ≡ (a == b))
      × (holds Relation.c_ne o ≡ not (a == b))
      × (holds Relation.c_gt o ≡ ltb b a)
      × (holds Relation.c_ge o ≡ leb b a)
      × (holds Relation.c_lt o ≡ ltb a b)
      × (holds Relation.c_le o ≡ leb a b)
plain_relation a b =
    (ground arith, ground arith, ground arith, ground arith, ground arith, ground arith)

signed_relation :
    (a b : ℤ)
    → let o = order_ℤ a b in
      (holds Relation.c_gt o ≡ ltb_ℤ b a)
      × (holds Relation.c_ge o ≡ not (ltb_ℤ a b))
      × (holds Relation.c_lt o ≡ ltb_ℤ a b)
      × (holds Relation.c_le o ≡ not (ltb_ℤ b a))
signed_relation a b = (ground arith, ground arith, ground arith, ground arith)

abbrev number_of : BasicType → ℕ → ℤ
number_of t v = signed (width (unsigned_field t)) (get (unsigned_field t) v)

relation_order :
    (op : Cmp2) (host : Host) (t : BasicType) (v0 v1 : ℕ)
    → is_icmp op ≡ true
    → any_word t ≡ true
    → passes (Test.plain (relation_of op)) (order_of host (field_of op t) v0 v1)
      ≡ icmp_holds op
          (width (unsigned_field t))
          (get (unsigned_field t) v0)
          (get (unsigned_field t) v1)
relation_order Cmp2.icmp_eq host t v0 v1 h w =
    rw (unsigned_order host t v0 v1 w)
      (plain_relation (get (unsigned_field t) v0) (get (unsigned_field t) v1)).0
relation_order Cmp2.icmp_ne host t v0 v1 h w =
    rw (unsigned_order host t v0 v1 w)
      (plain_relation (get (unsigned_field t) v0) (get (unsigned_field t) v1)).1
relation_order Cmp2.icmp_ugt host t v0 v1 h w =
    rw (unsigned_order host t v0 v1 w)
      (plain_relation (get (unsigned_field t) v0) (get (unsigned_field t) v1)).2
relation_order Cmp2.icmp_uge host t v0 v1 h w =
    rw (unsigned_order host t v0 v1 w)
      (plain_relation (get (unsigned_field t) v0) (get (unsigned_field t) v1)).3
relation_order Cmp2.icmp_ult host t v0 v1 h w =
    rw (unsigned_order host t v0 v1 w)
      (plain_relation (get (unsigned_field t) v0) (get (unsigned_field t) v1)).4
relation_order Cmp2.icmp_ule host t v0 v1 h w =
    rw (unsigned_order host t v0 v1 w)
      (plain_relation (get (unsigned_field t) v0) (get (unsigned_field t) v1)).5
relation_order Cmp2.icmp_sgt host t v0 v1 h w =
    rw (signed_order host t v0 v1 w) (signed_relation (number_of t v0) (number_of t v1)).0
relation_order Cmp2.icmp_sge host t v0 v1 h w =
    rw (signed_order host t v0 v1 w) (signed_relation (number_of t v0) (number_of t v1)).1
relation_order Cmp2.icmp_slt host t v0 v1 h w =
    rw (signed_order host t v0 v1 w) (signed_relation (number_of t v0) (number_of t v1)).2
relation_order Cmp2.icmp_sle host t v0 v1 h w =
    rw (signed_order host t v0 v1 w) (signed_relation (number_of t v0) (number_of t v1)).3
relation_order _ host t v0 v1 h w = cc

-- An integer comparison, compiled for a word type, yields 1 exactly if its relation holds of the
-- operands read at that width, as two's complement numbers for the signed relations; else 0.
pub run_cmp2-icmp :
    (host : Host) (junk v0 v1 : ℕ) (op : Cmp2) (t : BasicType)
    → is_icmp op ≡ true
    → any_word t ≡ true
    → run_cmp2 host junk op t v0 v1
      ≡ ok (
          bool_value (
            icmp_holds op
              (width (unsigned_field t))
              (get (unsigned_field t) v0)
              (get (unsigned_field t) v1)))
run_cmp2-icmp host junk v0 v1 op t h w =
    run_cmp2-expected host junk v0 v1 op t
    ∙ rw (
      expected_cmp2-icmp op t h,
      w,
      compare_value-passes host junk v0 v1 (Test.plain (relation_of op)) (field_of op t),
      relation_order op host t v0 v1 h w,
    )
