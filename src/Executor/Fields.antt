-- ===== src/Executor/Fields.antt =====
-- The fields of PNRuntimeValue, and what C's operators, conversions and comparisons do on them.
use pnacl_c.Base.{ℕ, ◌+◌, ◌-◌, ◌*◌, ◌/◌, ◌%◌, ◌^◌, bit_and, bit_or, bit_xor}
use pnacl_c.Base.{
  Bool, true, false, if◌then◌else◌, ltb, leb, ◌==◌, ◌||◌, ◌&&◌, not, Option, none, some,
}
use pnacl_c.Base.{Result, ok, fault, ◌>>=◌}
use pnacl_c.Base.Int.{ℤ, pos, negsuc, signed, pattern_of, div_ℤ, rem_ℤ, shr_ℤ, ltb_ℤ}

-- The union's fields. A value of the union is its 64 bits as a number.
pub data Scalar : Type 0 where
  i8 u8 i16 u16 i32 u32 i64 u64 f32 f64 : Scalar

abbrev pub width : Scalar → ℕ
width Scalar.i8 = 8
width Scalar.u8 = 8
width Scalar.i16 = 16
width Scalar.u16 = 16
width Scalar.i32 = 32
width Scalar.u32 = 32
width Scalar.i64 = 64
width Scalar.u64 = 64
width Scalar.f32 = 32
width Scalar.f64 = 64

-- `value.ty`: the low bytes.
abbrev pub get : Scalar → ℕ → ℕ
get s v = v % 2 ^ width s

-- `pn_executor_value_ty(x)`: the other bytes of the new union are not set, so they are any `junk`.
abbrev pub make : ℕ → Scalar → ℕ → ℕ
make junk s x = junk / 2 ^ width s * 2 ^ width s + x % 2 ^ width s

-- The host's floating point, which is not modelled: bit patterns of a width, compared as IEEE 754
-- orders them.
pub data Order : Type 0 where
  less equal greater unordered : Order

pub data Operator : Type 0 where
  c_add c_sub c_mul c_div c_rem c_and c_or c_xor c_shl c_shr : Operator

pub record Host : Type 0 where
  pub float_op : Operator → ℕ → ℕ → ℕ → ℕ
  pub order : ℕ → ℕ → ℕ → Order
  pub float_of_int : ℕ → ℤ → ℕ
  -- `none` is a NaN or an infinity.
  pub int_of_float : ℕ → ℕ → Option ℤ
  pub resize : ℕ → ℕ → ℕ → ℕ

-- Operands narrower than int are promoted to a 32-bit int.
abbrev promoted : ℕ → ℕ
promoted w = if ltb w 32 then 32 else w

-- `value0.ty op value1.ty` at an unsigned field. The int product of two uint16_t may overflow, and
-- so may an int that is shifted left; a shift by the promoted width or more is undefined. The result is cut where it is stored.
pub unsigned_op : Operator → ℕ → ℕ → ℕ → Result ℕ
unsigned_op Operator.c_add w a b = ok (a + b)
unsigned_op Operator.c_sub w a b = ok (a + 2 ^ w - b)
unsigned_op Operator.c_mul w a b = if w == 16 && leb (2 ^ 31) (a * b) then fault else ok (a * b)
unsigned_op Operator.c_div w a b = if b == 0 then fault else ok (a / b)
unsigned_op Operator.c_rem w a b = if b == 0 then fault else ok (a % b)
unsigned_op Operator.c_and w a b = ok (bit_and a b)
unsigned_op Operator.c_or w a b = ok (bit_or a b)
unsigned_op Operator.c_xor w a b = ok (bit_xor a b)
unsigned_op Operator.c_shl w a b =
    if ltb b (promoted w) && (leb 32 w || ltb (a * 2 ^ b) (2 ^ 31)) then ok (a * 2 ^ b) else fault
unsigned_op Operator.c_shr w a b = if ltb b (promoted w) then ok (a / 2 ^ b) else fault

-- At a signed field the executor only divides and shifts right. The pattern 2^w - 1 is -1, and
-- 2^(w - 1) the least number, whose quotient by -1 does not fit.
abbrev overflows : ℕ → ℕ → ℕ → Bool
overflows w a b = (a == 2 ^ (w - 1)) && (b == 2 ^ w - 1)

pub signed_op : Operator → ℕ → ℕ → ℕ → Result ℕ
signed_op Operator.c_div w a b =
    if (b == 0) || overflows w a b
    then fault
    else ok (pattern_of w (div_ℤ (signed w a) (signed w b)))
signed_op Operator.c_rem w a b =
    if (b == 0) || overflows w a b
    then fault
    else ok (pattern_of w (rem_ℤ (signed w a) (signed w b)))
signed_op Operator.c_shr w a b =
    if ltb b (promoted w) && ltb b (2 ^ (w - 1))
    then ok (pattern_of w (shr_ℤ (signed w a) b))
    else fault
signed_op _ w a b = fault

pub data Kind : Type 0 where
  unsigned_kind signed_kind float_kind : Kind

abbrev pub kind : Scalar → Kind
kind Scalar.i8 = Kind.signed_kind
kind Scalar.u8 = Kind.unsigned_kind
kind Scalar.i16 = Kind.signed_kind
kind Scalar.u16 = Kind.unsigned_kind
kind Scalar.i32 = Kind.signed_kind
kind Scalar.u32 = Kind.unsigned_kind
kind Scalar.i64 = Kind.signed_kind
kind Scalar.u64 = Kind.unsigned_kind
kind Scalar.f32 = Kind.float_kind
kind Scalar.f64 = Kind.float_kind

pub operate_kind : Host → Kind → Operator → ℕ → ℕ → ℕ → Result ℕ
unfolding unsigned_op signed_op
operate_kind host Kind.unsigned_kind o w a b = unsigned_op o w a b
operate_kind host Kind.signed_kind o w a b = signed_op o w a b
operate_kind host Kind.float_kind o w a b = ok (host.float_op o w a b)

-- PN_OPCODE_BINOP(op, ty), from the operands to the result's union.
unfoldable pub operate : Host → ℕ → Operator × Scalar → ℕ → ℕ → Result ℕ
unfolding operate_kind
operate host junk (o, s) v0 v1 = do
  r ← operate_kind host (kind s) o (width s) (get s v0) (get s v1)
  ok (make junk s r)

-- What is written in the case of a cast.
pub data Conversion : Type 0 where
  copy : Conversion
  convert : Scalar → Scalar → Conversion
  sext1 trunc1 zext1 : ℕ → Conversion

-- The number that a field holds, and whether it fits another.
abbrev number : Scalar → ℕ → ℤ
number s v = elim (kind s) [ signed_kind ↦ signed (width s) (get s v) | _ ↦ pos (get s v) ]

abbrev fits : Scalar → ℤ → Bool
fits s z = elim (kind s) [
  | signed_kind ↦ elim z [
    | pos n ↦ ltb n (2 ^ (width s - 1))
    | negsuc n ↦ ltb n (2 ^ (width s - 1))
  ]
  | _ ↦ elim z [ pos n ↦ ltb n (2 ^ width s) | negsuc n ↦ false ]
]

-- Out of range, and at a NaN, the conversion of a float to an integer is undefined.
from_float : Scalar → Option ℤ → Result ℕ
from_float to none = fault
from_float to (some z) = if fits to z then ok (pattern_of (width to) z) else fault

convert_kind : Host → Kind → Kind → Scalar → Scalar → ℕ → Result ℕ
unfolding from_float
convert_kind host Kind.float_kind Kind.float_kind from to v =
    ok (host.resize (width from) (width to) (get from v))
convert_kind host Kind.float_kind _ from to v =
    from_float to (host.int_of_float (width from) (get from v))
convert_kind host _ Kind.float_kind from to v = ok (host.float_of_int (width to) (number from v))
convert_kind host _ _ from to v = ok (pattern_of (width to) (number from v))

-- The macros PN_OPCODE_CAST, _SEXT1, _TRUNC1 and _ZEXT1, and the bitcasts, which copy the union.
abbrev merge : ℕ → ℕ → ℕ → ℕ
merge junk w x = junk / 2 ^ w * 2 ^ w + x % 2 ^ w

unfoldable pub convert_value : Host → ℕ → Conversion → ℕ → Result ℕ
unfolding convert_kind
convert_value host junk Conversion.copy v = ok v
convert_value host junk (Conversion.convert from to) v = do
  r ← convert_kind host (kind from) (kind to) from to v
  ok (make junk to r)
convert_value host junk (Conversion.sext1 w) v =
    ok (merge junk w (if bit_and (v % 256) 1 == 0 then 0 else 2 ^ w - 1))
convert_value host junk (Conversion.trunc1 w) v = ok (make junk Scalar.u8 (bit_and (v % 2 ^ w) 1))
convert_value host junk (Conversion.zext1 w) v = ok (merge junk w (bit_and (v % 256) 1))

pub data Relation : Type 0 where
  c_eq c_ne c_lt c_le c_gt c_ge : Relation

-- PN_OPCODE_CMP2, _NOT, _ORD and _UNO.
pub data Test : Type 0 where
  plain negated : Relation → Test
  ord uno : Test

-- C's relations on numbers in order `Order`: all are false if unordered, but `!=`.
abbrev pub holds : Relation → Order → Bool
holds Relation.c_eq Order.equal = true
holds Relation.c_ne Order.less = true
holds Relation.c_ne Order.greater = true
holds Relation.c_ne Order.unordered = true
holds Relation.c_lt Order.less = true
holds Relation.c_le Order.less = true
holds Relation.c_le Order.equal = true
holds Relation.c_gt Order.greater = true
holds Relation.c_ge Order.greater = true
holds Relation.c_ge Order.equal = true
holds _ _ = false

abbrev pub passes : Test → Order → Bool
passes (Test.plain r) o = holds r o
passes (Test.negated r) o = not (holds r o)
passes Test.ord o = holds Relation.c_eq o || holds Relation.c_ne o
passes Test.uno o = not (holds Relation.c_eq o || holds Relation.c_ne o)

abbrev pub order_ℤ : ℤ → ℤ → Order
order_ℤ a b = if ltb_ℤ a b then Order.less else (if ltb_ℤ b a then Order.greater else Order.equal)

unfoldable pub order_of : Host → Scalar → ℕ → ℕ → Order
order_of host s v0 v1 = elim (kind s) [
  | float_kind ↦ host.order (width s) (get s v0) (get s v1)
  | _ ↦ order_ℤ (number s v0) (number s v1)
]

-- The result is the int 0 or 1, stored as a u8.
unfoldable pub compare_value : Host → ℕ → Test × Scalar → ℕ → ℕ → ℕ
unfolding order_of
compare_value host junk (t, s) v0 v1 =
    make junk Scalar.u8 (if passes t (order_of host s v0 v1) then 1 else 0)
