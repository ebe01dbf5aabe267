-- ===== src/Memory/Tests.antt =====
-- Runs of the memory on one of 64 KiB that is all zero.
use pnacl_c.Base.{ℕ, ◌+◌, ◌-◌, ◌%◌, ◌^◌, ◌≤◌, ◌<◌, ◌≡◌, ◌⊎◌, ◌↔◌, refl, arith, []}
use pnacl_c.Base.{ok, fatal, ◌>>=◌, ◌∷◌}
use pnacl_c.Memory.{
  Memory, guard_size, max_builtins, check, load, store, read, write, zerofill, put_bytes,
  write_cstr,
}
use pnacl_c.Memory.{
  check_cstr, check_cstr_loop, builtin_to_pointer, function_id_to_pointer,
  function_pointer_to_index,
}
use pnacl_c.Memory.Check.{check_iff, check_wraps, function_pointer_to_index-function_id_to_pointer}
use pnacl_c.Memory.Access.{read-write}

abbrev zeros : Memory
zeros = record { bytes = λ i. 0; size = 65536 }

check_iff_example : (check zeros 2048 4 ≡ ok tt) ↔ ((guard_size ≤ 2048) × (2048 + 4 ≤ zeros.size))
check_iff_example = check_iff zeros 2048 4 (omega arith)

check_wraps_example : (check zeros (2 ^ 32 - 4) 8 ≡ ok tt) × (zeros.size < 2 ^ 32 - 4 + 8)
check_wraps_example =
    check_wraps zeros (2 ^ 32 - 4) 8 (omega arith) (omega arith) (omega arith) (omega arith)
      (omega arith) (omega arith)

function_pointer_test : function_pointer_to_index (function_id_to_pointer 5) ≡ 5 + max_builtins
function_pointer_test = function_pointer_to_index-function_id_to_pointer 5 (omega arith)

read-write_example :
    (m' : Memory) × (write zeros 4 2048 0x12345678 ≡ ok m')
    × (m'.size ≡ zeros.size)
    × (read m' 4 2048 ≡ ok (0x12345678 % 256 ^ 4))
    × ((k p : ℕ) → (p + k ≤ 2048) ⊎ (2048 + 4 ≤ p) → read m' k p ≡ read zeros k p)
read-write_example = read-write zeros 4 2048 0x12345678 (omega arith) (omega arith) (omega arith)

bytes_test : (write zeros 4 2048 0x12345678 >>= λ m. read m 1 2050) ≡ ok 0x34
unfolding write read check store load
bytes_test = refl

cstr_test : (write_cstr zeros 2048 (104 ∷ 105 ∷ []) >>= λ m. read m 4 2046) ≡ ok 0x69680000
unfolding write_cstr read check store load put_bytes
cstr_test = refl

check_cstr_test : check_cstr (record { bytes = λ i. 2051 - i; size = 2100 }) 2048 ≡ ok 3
unfolding check_cstr check_cstr_loop read check load
check_cstr_test = refl

zerofill_test : (zerofill zeros 100 4 >>= λ m. read m 1 2050) ≡ fatal
unfolding zerofill check
zerofill_test = refl

builtin_to_pointer_test : builtin_to_pointer 3 ≡ 12
unfolding builtin_to_pointer
builtin_to_pointer_test = refl
