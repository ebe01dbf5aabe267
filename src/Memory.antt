-- ===== src/Memory.antt =====
-- src/pn_memory.h: the sandboxed program's memory, and the check of every access to it.
pub mod Access
pub mod Check
mod Tests
use pnacl_c.Base.{
  ℕ, zero, suc, ◌+◌, ◌-◌, ◌*◌, ◌/◌, ◌%◌, ◌^◌, Bool, true, false, if◌then◌else◌, ltb, leb, ◌==◌,
  ◌&&◌,
}
use pnacl_c.Base.{List, [], ◌∷◌, length, Result, ok, fatal, stuck, ◌>>=◌, ◌>>◌}

-- `bytes` is the host's memory from `memory->data` on, of which the program owns `size` bytes.
pub record Memory : Type 0 where
  pub bytes : ℕ → ℕ
  pub size : ℕ

-- PN_MEMORY_GUARD_SIZE
abbrev pub guard_size : ℕ
guard_size = 1024

-- PN_MAX_BUILTINS of a build without PPAPI: PN_BUILTIN_NULL and 47 builtins.
abbrev pub max_builtins : ℕ
max_builtins = 48

unfoldable pub builtin_to_pointer : ℕ → ℕ
builtin_to_pointer builtin_id = builtin_id * 4

unfoldable pub function_id_to_pointer : ℕ → ℕ
function_id_to_pointer function_id = (function_id + max_builtins) * 4 % 2 ^ 32

unfoldable pub function_pointer_to_index : ℕ → ℕ
function_pointer_to_index fp = fp / 4

-- `offset + size` is a uint32_t.
unfoldable pub check : Memory → ℕ → ℕ → Result (Unit {0})
check m offset size =
    if ltb offset guard_size
    then fatal
    else (if ltb m.size ((offset + size) % 2 ^ 32) then fatal else ok tt)

-- A value of `n` bytes, little-endian.
unfoldable pub load : (ℕ → ℕ) → ℕ → ℕ → ℕ
load bytes o zero = 0
load bytes o (suc n) = bytes o % 256 + 256 * load bytes (o + 1) n

unfoldable pub store : (ℕ → ℕ) → ℕ → ℕ → ℕ → ℕ → ℕ
store bytes o n value p = if leb o p && ltb p (o + n) then value / 256 ^ (p - o) % 256 else bytes p

-- pn_memory_read_ty and pn_memory_write_ty for a type of `n` bytes, aligned or not.
unfoldable pub read : Memory → ℕ → ℕ → Result ℕ
unfolding check
read m n offset = do check m offset n; ok (load m.bytes offset n)

unfoldable pub write : Memory → ℕ → ℕ → ℕ → Result Memory
unfolding check
write m n offset value = do check m offset n; ok (record m { bytes = store m.bytes offset n value })

unfoldable pub zerofill : Memory → ℕ → ℕ → Result Memory
unfolding check
zerofill m offset num_bytes = do
  check m offset num_bytes
  ok (record m { bytes = store m.bytes offset num_bytes 0 })

-- The bytes of a C string with its NUL, written one behind the other.
unfoldable pub put_bytes : (ℕ → ℕ) → ℕ → List ℕ → ℕ → ℕ
put_bytes bytes o [] = bytes
put_bytes bytes o (c ∷ cs) = put_bytes (store bytes o 1 c) (o + 1) cs

unfoldable pub write_cstr : Memory → ℕ → List ℕ → Result Memory
unfolding check put_bytes
write_cstr m offset s = do
  check m offset (length s + 1)
  ok (record m { bytes = store (put_bytes m.bytes offset s) (offset + length s) 1 0 })

-- The loop ends at a NUL, or at the check; `end` is a uint32_t.
unfoldable pub check_cstr_loop : ℕ → Memory → ℕ → ℕ → Result ℕ
unfolding read
check_cstr_loop zero m p end = stuck
check_cstr_loop (suc fuel) m p end = read m 1 end >>= λ c.
    let more = check_cstr_loop fuel m p ((end + 1) % 2 ^ 32) in
    if c == 0 then ok ((end + 2 ^ 32 - p) % 2 ^ 32) else more

-- A round for each byte up to `size`.
unfoldable pub check_cstr : Memory → ℕ → Result ℕ
unfolding check_cstr_loop
check_cstr m p = check_cstr_loop (suc m.size) m p p
