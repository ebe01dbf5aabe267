-- ===== src/Machine/Atomic.antt =====
-- The atomic operations, which are plain ones here, and the counts of leading and trailing zeros.
use pnacl_c.Base.{ℕ, zero, suc, ◌/◌, ◌%◌, ◌^◌, if◌then◌else◌, ltb, ◌==◌}
use pnacl_c.Base.{Result, ok, ◌>>=◌, ◌>>◌, check}
use pnacl_c.Memory.{Memory, read, write}
use pnacl_c.Executor.{Thread}
use pnacl_c.Executor.Fields.{Scalar, Operator, width, make, unsigned_op}
use pnacl_c.Machine.State.{RuntimeCall, num_args, invalid_value_id, arg, finish_call, skip_call}
use pnacl_c.Machine.Memory.{size_of}

-- PN_OPCODE_INTRINSIC_CMPXCHG(ty).
unfoldable pub execute_cmpxchg :
    ℕ → Scalar → Thread → Memory → RuntimeCall → Result (Thread × Memory)
execute_cmpxchg junk s t m i = do
  check (num_args i == 5)
  addr_p ← arg t i 0 Scalar.u32
  expected ← arg t i 1 s
  desired ← arg t i 2 s
  old ← read m (size_of s) addr_p
  m' ← if old == expected then write m (size_of s) addr_p desired else ok m
  t' ← finish_call t i (make junk s old)
  ok (t', m')

-- PN_OPCODE_INTRINSIC_LOAD(ty).
unfoldable pub execute_atomic_load : ℕ → Scalar → Thread → Memory → RuntimeCall → Result Thread
execute_atomic_load junk s t m i = do
  check (num_args i == 2)
  addr_p ← arg t i 0 Scalar.u32
  value ← read m (size_of s) addr_p
  finish_call t i (make junk s value)

-- The read-modify-write operations: `none` is an exchange.
pub data RmwOp : Type 0 where
  add sub and or xor exchange : RmwOp

abbrev pub opval : RmwOp → ℕ
opval RmwOp.add = 1
opval RmwOp.sub = 2
opval RmwOp.and = 3
opval RmwOp.or = 4
opval RmwOp.xor = 5
opval RmwOp.exchange = 6

abbrev pub new_value : RmwOp → ℕ → ℕ → ℕ → Result ℕ
new_value RmwOp.add w old value = unsigned_op Operator.c_add w old value
new_value RmwOp.sub w old value = unsigned_op Operator.c_sub w old value
new_value RmwOp.and w old value = unsigned_op Operator.c_and w old value
new_value RmwOp.or w old value = unsigned_op Operator.c_or w old value
new_value RmwOp.xor w old value = unsigned_op Operator.c_xor w old value
new_value RmwOp.exchange w old value = ok value

-- PN_OPCODE_INTRINSIC_RMW(opval, op, ty) and PN_OPCODE_INTRINSIC_EXCHANGE(opval, ty). The result is
-- a u32, whatever the type is.
unfoldable pub execute_rmw :
    ℕ → RmwOp → Scalar → Thread → Memory → RuntimeCall → Result (Thread × Memory)
execute_rmw junk op s t m i = do
  check (num_args i == 4)
  code ← arg t i 0 Scalar.u32
  check (code == opval op)
  addr_p ← arg t i 1 Scalar.u32
  value ← arg t i 2 s
  old ← read m (size_of s) addr_p
  new ← new_value op (width s) old value
  m' ← write m (size_of s) addr_p (new % 2 ^ width s)
  t' ← finish_call t i (make junk Scalar.u32 old)
  ok (t', m')

-- PN_OPCODE_INTRINSIC_STORE(ty): the value is cut to a uint32_t, and four bytes are written.
unfoldable pub execute_atomic_store :
    Scalar → Thread → Memory → RuntimeCall → Result (Thread × Memory)
execute_atomic_store s t m i = do
  check (num_args i == 3)
  check (i.result_value_id == invalid_value_id)
  value ← arg t i 0 s
  addr_p ← arg t i 1 Scalar.u32
  m' ← write m 4 addr_p (value % 2 ^ 32)
  ok (skip_call t i, m')

-- __builtin_clz and __builtin_ctz on a number that is not 0, of `w` bits.
unfoldable pub clz : ℕ → ℕ → ℕ
clz zero x = 0
clz (suc w) x = if ltb x (2 ^ w) then suc (clz w x) else 0

unfoldable pub ctz : ℕ → ℕ → ℕ
ctz zero x = 0
ctz (suc w) x = if x % 2 == 0 then suc (ctz w (x / 2)) else 0

-- LLVM_CTLZ_* and LLVM_CTTZ_* at u32 and u64; the second argument is read and not used.
unfoldable pub execute_ctlz : ℕ → Scalar → Thread → RuntimeCall → Result Thread
unfolding clz
execute_ctlz junk s t i = do
  check (num_args i == 2)
  src ← arg t i 0 s
  is_zero_undef ← arg t i 1 Scalar.u32
  finish_call t i (make junk s (if src == 0 then 0 else clz (width s) src))

unfoldable pub execute_cttz : ℕ → Scalar → Thread → RuntimeCall → Result Thread
unfolding ctz
execute_cttz junk s t i = do
  check (num_args i == 2)
  src ← arg t i 0 s
  is_zero_undef ← arg t i 1 Scalar.u32
  finish_call t i (make junk s (if src == 0 then 0 else ctz (width s) src))
