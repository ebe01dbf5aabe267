-- ===== src/Memory/Check.antt =====
-- What `pn_memory_check` lets through.
use pnacl_c.Base.{ℕ, ◌+◌, ◌^◌, ◌≤◌, ◌<◌, ◌≡◌, ◌↔◌, arith}
use pnacl_c.Base.{ok}
use pnacl_c.Memory.{
  Memory, guard_size, check, max_builtins, function_id_to_pointer, function_pointer_to_index,
}

-- For an access whose end does not pass 2^32, the check passes exactly if the access lies
-- between the guard at the bottom and the end of the program's memory.
pub check_iff :
    (m : Memory) (offset size : ℕ)
    → offset + size < 2 ^ 32
    → (check m offset size ≡ ok tt) ↔ ((guard_size ≤ offset) × (offset + size ≤ m.size))
unfolding check
check_iff m offset size h = ground arith

-- An access that starts above the guard and goes past 2^32, with the part past it within the
-- memory's size, passes the check although it lies outside of the memory.
pub check_wraps :
    (m : Memory) (offset size : ℕ)
    → guard_size ≤ offset
    → offset < 2 ^ 32
    → size < 2 ^ 32
    → m.size < 2 ^ 32
    → 2 ^ 32 ≤ offset + size
    → offset + size ≤ 2 ^ 32 + m.size
    → (check m offset size ≡ ok tt) × (m.size < offset + size)
unfolding check
check_wraps m offset size g o s z w e = ground arith

-- A function's pointer leads back to it, behind the builtins, while ids fit 30 bits.
pub function_pointer_to_index-function_id_to_pointer :
    (function_id : ℕ)
    → function_id + max_builtins < 2 ^ 30
    → function_pointer_to_index (function_id_to_pointer function_id) ≡ function_id + max_builtins
unfolding function_id_to_pointer function_pointer_to_index
function_pointer_to_index-function_id_to_pointer function_id h = omega arith
