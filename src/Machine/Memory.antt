-- ===== src/Machine/Memory.antt =====
-- Loads, stores and the block operations on the sandbox's memory.
use pnacl_c.Base.{ℕ, ◌+◌, ◌-◌, ◌/◌, Bool, ◌&&◌, if◌then◌else◌, ltb, leb, ◌==◌}
use pnacl_c.Base.{Result, ok, fault, ◌>>=◌, ◌>>◌, check}
use pnacl_c.Memory.{Memory, read, write}
use pnacl_c.Memory.{check as check_memory}
use pnacl_c.Executor.{Thread, get_value, set_value}
use pnacl_c.Executor.Fields.{Scalar, width, get, make}
use pnacl_c.Machine.State.{
  RuntimeCall, RuntimeLoad, RuntimeStore, num_args, invalid_value_id, arg, skip_call,
}

-- The number of bytes of a field.
abbrev pub size_of : Scalar → ℕ
size_of s = width s / 8

-- PN_OPCODE_LOAD(ty). `junk` is what the result's union held.
unfoldable pub execute_load : ℕ → Scalar → Thread → Memory → RuntimeLoad → Result Thread
execute_load junk s t m i = do
  src ← get_value t i.src_id
  value ← read m (size_of s) (get Scalar.u32 src)
  t' ← set_value t i.result_value_id (make junk s value)
  ok (record t' { inst = t'.inst + 16 })

-- PN_OPCODE_STORE(ty).
unfoldable pub execute_store : Scalar → Thread → Memory → RuntimeStore → Result (Thread × Memory)
execute_store s t m i = do
  dest ← get_value t i.dest_id
  value ← get_value t i.value_id
  m' ← write m (size_of s) (get Scalar.u32 dest) (get s value)
  ok (record t { inst = t.inst + 16 }, m')

-- memmove; and memcpy, which C leaves undefined for blocks that overlap.
abbrev pub copy : (ℕ → ℕ) → ℕ → ℕ → ℕ → ℕ → ℕ
copy bytes dst src len p =
    if leb dst p && ltb p (dst + len) then bytes (src + (p - dst)) else bytes p

abbrev pub overlap : ℕ → ℕ → ℕ → Bool
overlap dst src len = ltb dst (src + len) && ltb src (dst + len)

unfoldable pub move_block : Memory → ℕ → ℕ → ℕ → Result Memory
move_block m dst src len = if len == 0 then ok m else do
  check_memory m dst len
  check_memory m src len
  ok (record m { bytes = copy m.bytes dst src len })

unfoldable pub copy_block : Memory → ℕ → ℕ → ℕ → Result Memory
copy_block m dst src len = if len == 0 then ok m else do
  check_memory m dst len
  check_memory m src len
  if overlap dst src len then fault else ok (record m { bytes = copy m.bytes dst src len })

unfoldable pub set_block : Memory → ℕ → ℕ → ℕ → Result Memory
set_block m dst value len = if len == 0 then ok m else do
  check_memory m dst len
  ok (record m { bytes = λ p. if leb dst p && ltb p (dst + len) then value else m.bytes p })

-- LLVM_MEMCPY, LLVM_MEMMOVE and LLVM_MEMSET.
unfoldable pub execute_memcpy : Thread → Memory → RuntimeCall → Result (Thread × Memory)
unfolding copy_block
execute_memcpy t m i = do
  check (num_args i == 5)
  check (i.result_value_id == invalid_value_id)
  dst_p ← arg t i 0 Scalar.u32
  src_p ← arg t i 1 Scalar.u32
  len ← arg t i 2 Scalar.u32
  m' ← copy_block m dst_p src_p len
  ok (skip_call t i, m')

unfoldable pub execute_memmove : Thread → Memory → RuntimeCall → Result (Thread × Memory)
unfolding move_block
execute_memmove t m i = do
  check (num_args i == 5)
  check (i.result_value_id == invalid_value_id)
  dst_p ← arg t i 0 Scalar.u32
  src_p ← arg t i 1 Scalar.u32
  len ← arg t i 2 Scalar.u32
  m' ← move_block m dst_p src_p len
  ok (skip_call t i, m')

unfoldable pub execute_memset : Thread → Memory → RuntimeCall → Result (Thread × Memory)
unfolding set_block
execute_memset t m i = do
  check (num_args i == 5)
  check (i.result_value_id == invalid_value_id)
  dst_p ← arg t i 0 Scalar.u32
  value ← arg t i 1 Scalar.u8
  len ← arg t i 2 Scalar.u32
  m' ← set_block m dst_p value len
  ok (skip_call t i, m')
