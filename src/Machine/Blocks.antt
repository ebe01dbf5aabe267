-- ===== src/Machine/Blocks.antt =====
-- What the block operations and the compare-and-swap do to the bytes.
use pnacl_c.Base.{ℕ, ◌+◌, ◌%◌, ◌^◌, ◌≤◌, ◌<◌, ◌≡◌, ◌≢◌, ◌⊎◌, refl, arith, inl, inr, Bool-cases}
use pnacl_c.Base.{ok, false, ◌==◌, ==_iff, ==_ne, le→leb, lt→ltb}
use pnacl_c.Memory.{Memory, guard_size, check, read, write, load}
use pnacl_c.Memory.Check.{check_iff}
use pnacl_c.Memory.Access.{read-write}
use pnacl_c.Executor.{Thread, get_value}
use pnacl_c.Executor.Fields.{Scalar, make}
use pnacl_c.Executor.Registers.{IsLocal, with_value, set_value-IsLocal, get_value_self}
use pnacl_c.Machine.State.{RuntimeCall, num_args, sizeof_call, invalid_value_id, arg, skip_call}
use native.Mathlib.Nat.{add-sub_cancel_left}
use pnacl_c.Machine.Memory.{overlap, copy, execute_memcpy, execute_memmove, size_of}
use pnacl_c.Machine.Atomic.{execute_cmpxchg}

-- A call with five arguments and no result, of which the first three are read.
pub record BlockCall (t : Thread) (i : RuntimeCall) (dst src len : ℕ) : Type 0 where
  pub five_args : num_args i ≡ 5
  pub no_result : i.result_value_id ≡ invalid_value_id
  pub dst_p : arg t i 0 Scalar.u32 ≡ ok dst
  pub src_p : arg t i 1 Scalar.u32 ≡ ok src
  pub num_bytes : arg t i 2 Scalar.u32 ≡ ok len

-- A block that the program may access.
pub record IsBlock (m : Memory) (p len : ℕ) : Type 0 where
  pub above_guard : guard_size ≤ p
  pub in_memory : p + len ≤ m.size

check-IsBlock : (m : Memory) (p len : ℕ) → m.size < 2 ^ 32 → IsBlock m p len → check m p len ≡ ok tt
check-IsBlock m p len small b =
    (check_iff m p len (omega (arith, b.in_memory))).1 (b.above_guard, b.in_memory)

module _ (t : Thread) (m : Memory) (i : RuntimeCall) (dst src len : ℕ)
    (call : BlockCall t i dst src len) where
  -- A memmove of a block to a block, which may overlap, leaves each byte of the source as it was
  -- before the call in its place in the destination, keeps every other byte and the size, and goes
  -- on behind the call.
  pub execute_memmove-bytes :
      m.size < 2 ^ 32
      → IsBlock m dst len
      → IsBlock m src len
      → (m' : Memory) × (execute_memmove t m i ≡ ok (skip_call t i, m'))
        × (m'.size ≡ m.size)
        × ((k : ℕ) → k < len → m'.bytes (dst + k) ≡ m.bytes (src + k))
        × ((p : ℕ) → (p < dst) ⊎ (dst + len ≤ p) → m'.bytes p ≡ m.bytes p)
  unfolding execute_memmove
  execute_memmove-bytes small to from = elim (Bool-cases (len == 0)) [
    | inl e ↦ (
      m,
      rw (call.five_args, call.no_result, call.dst_p, call.src_p, call.num_bytes, e) refl,
      refl,
      λ k h. absurd (ground arith),
      λ p h. refl,
    )
    | inr e ↦ (
      record m { bytes = copy m.bytes dst src len },
      rw
          (
            call.five_args,
            call.no_result,
            call.dst_p,
            call.src_p,
            call.num_bytes,
            e,
            check-IsBlock m dst len small to,
            check-IsBlock m src len small from,
          )
          refl,
      refl,
      λ k h. copied k h,
      λ p h. ground arith,
    )
  ]
    where
      copied : (k : ℕ) → k < len → copy m.bytes dst src len (dst + k) ≡ m.bytes (src + k)
      copied k h =
          rw
            (
              le→leb dst (dst + k) (omega arith),
              lt→ltb (dst + k) (dst + len) (omega arith),
              add-sub_cancel_left dst k,
            )
            refl

  -- For blocks that do not overlap, a memcpy does what a memmove does, errors included.
  pub execute_memcpy-execute_memmove :
      overlap dst src len ≡ false → execute_memcpy t m i ≡ execute_memmove t m i
  unfolding execute_memcpy execute_memmove
  execute_memcpy-execute_memmove apart =
      rw (call.five_args, call.no_result, call.dst_p, call.src_p, call.num_bytes, apart) refl

-- A call of the compare-and-swap at a field.
pub record SwapCall (s : Scalar) (t : Thread) (i : RuntimeCall) (addr expected desired : ℕ)
    : Type 0 where
  pub five_args : num_args i ≡ 5
  pub addr_p : arg t i 0 Scalar.u32 ≡ ok addr
  pub expected_value : arg t i 1 s ≡ ok expected
  pub desired_value : arg t i 2 s ≡ ok desired
  pub local : IsLocal t i.result_value_id

read-IsBlock :
    (m : Memory) (p n : ℕ) → m.size < 2 ^ 32 → IsBlock m p n → read m n p ≡ ok (load m.bytes p n)
unfolding read
read-IsBlock m p n small b = rw (check-IsBlock m p n small b) refl

module _ (junk : ℕ) (s : Scalar) (t : Thread) (m : Memory) (i : RuntimeCall)
    (addr expected desired : ℕ) (call : SwapCall s t i addr expected desired)
    (block : IsBlock m addr (size_of s)) (small : m.size < 2 ^ 32) where
  -- A compare-and-swap at an address that the program may access gives the value that was there and
  -- goes on behind the call; when that value is the expected one, the address then holds the
  -- desired value, and otherwise the memory is as it was.
  pub execute_cmpxchg-read :
      (old : ℕ) × (t' : Thread) × (m' : Memory) × (read m (size_of s) addr ≡ ok old)
      × (execute_cmpxchg junk s t m i ≡ ok (t', m'))
      × (get_value t' i.result_value_id ≡ ok (make junk s old))
      × (t'.inst ≡ t.inst + sizeof_call i)
      × (old ≡ expected → read m' (size_of s) addr ≡ ok (desired % 256 ^ size_of s))
      × (old ≢ expected → m' ≡ m)
  unfolding execute_cmpxchg
  execute_cmpxchg-read = elim (Bool-cases (old == expected)) [
    | inl e ↦ (
      old,
      after,
      stored.0,
      before,
      rw
          (
            call.five_args,
            call.addr_p,
            call.expected_value,
            call.desired_value,
            before,
            e,
            stored.1,
            set_value-IsLocal t i.result_value_id (make junk s old) call.local,
          )
          refl,
      result,
      refl,
      λ same. stored.3,
      λ ne. absurd (ne ((==_iff old expected).0 e)),
    )
    | inr e ↦ (
      old,
      after,
      m,
      before,
      rw
          (
            call.five_args,
            call.addr_p,
            call.expected_value,
            call.desired_value,
            before,
            e,
            set_value-IsLocal t i.result_value_id (make junk s old) call.local,
          )
          refl,
      result,
      refl,
      λ same. absurd (==_ne old expected e same),
      λ ne. refl,
    )
  ]
    where
      old : ℕ
      old = load m.bytes addr (size_of s)

      after : Thread
      after = record (with_value t i.result_value_id (make junk s old)) {
        inst = t.inst + sizeof_call i;
      }

      before : read m (size_of s) addr ≡ ok old
      before = read-IsBlock m addr (size_of s) small block

      stored :
          (m' : Memory) × (write m (size_of s) addr desired ≡ ok m')
          × (m'.size ≡ m.size)
          × (read m' (size_of s) addr ≡ ok (desired % 256 ^ size_of s))
          × ((k p : ℕ) → (p + k ≤ addr) ⊎ (addr + size_of s ≤ p) → read m' k p ≡ read m k p)
      stored = read-write m (size_of s) addr desired block.above_guard block.in_memory small

      result : get_value after i.result_value_id ≡ ok (make junk s old)
      result =
          get_value_self (record t { inst = t.inst + sizeof_call i }) i.result_value_id
            (make junk s old) call.local
