-- ===== src/Builtins/Query/Tables.antt =====
-- The tables that a query writes, as the program's calls read them.
use pnacl_c.Base.{
  ℕ, zero, suc, ◌+◌, ◌*◌, ◌%◌, ◌^◌, ◌≤◌, ◌<◌, ◌≡◌, refl, ap, ◌∙◌, ◌⊎◌, inl, arith, List, [], ◌∷◌,
  length, get_elem?, some, ok, ==_iff,
}
use native.Mathlib.Nat.{mod-eq_of_lt, add-zero}
use pnacl_c.Memory.{
  Memory, guard_size, read, write, builtin_to_pointer, function_pointer_to_index, max_builtins,
}
use pnacl_c.Memory.Access.{read-write}
use pnacl_c.Builtins.Query.{Builtin, builtin_id, Interface, write_builtins, fill_table}

builtin_id-bounds : (b : Builtin) → builtin_id b < max_builtins
unfolding builtin_id
builtin_id-bounds Builtin.nacl_irt_query = omega arith
builtin_id-bounds Builtin.nacl_irt_basic_exit = omega arith
builtin_id-bounds Builtin.nacl_irt_basic_gettod = omega arith
builtin_id-bounds Builtin.nacl_irt_basic_clock = omega arith
builtin_id-bounds Builtin.nacl_irt_basic_nanosleep = omega arith
builtin_id-bounds Builtin.nacl_irt_basic_sched_yield = omega arith
builtin_id-bounds Builtin.nacl_irt_basic_sysconf = omega arith
builtin_id-bounds Builtin.nacl_irt_fdio_close = omega arith
builtin_id-bounds Builtin.nacl_irt_fdio_dup = omega arith
builtin_id-bounds Builtin.nacl_irt_fdio_dup2 = omega arith
builtin_id-bounds Builtin.nacl_irt_fdio_read = omega arith
builtin_id-bounds Builtin.nacl_irt_fdio_write = omega arith
builtin_id-bounds Builtin.nacl_irt_fdio_seek = omega arith
builtin_id-bounds Builtin.nacl_irt_fdio_fstat = omega arith
builtin_id-bounds Builtin.nacl_irt_fdio_getdents = omega arith
builtin_id-bounds Builtin.nacl_irt_fdio_fchdir = omega arith
builtin_id-bounds Builtin.nacl_irt_fdio_fchmod = omega arith
builtin_id-bounds Builtin.nacl_irt_fdio_fsync = omega arith
builtin_id-bounds Builtin.nacl_irt_fdio_fdatasync = omega arith
builtin_id-bounds Builtin.nacl_irt_fdio_ftruncate = omega arith
builtin_id-bounds Builtin.nacl_irt_fdio_isatty = omega arith
builtin_id-bounds Builtin.nacl_irt_filename_open = omega arith
builtin_id-bounds Builtin.nacl_irt_filename_stat = omega arith
builtin_id-bounds Builtin.nacl_irt_filename_mkdir = omega arith
builtin_id-bounds Builtin.nacl_irt_filename_rmdir = omega arith
builtin_id-bounds Builtin.nacl_irt_filename_chdir = omega arith
builtin_id-bounds Builtin.nacl_irt_filename_getcwd = omega arith
builtin_id-bounds Builtin.nacl_irt_filename_unlink = omega arith
builtin_id-bounds Builtin.nacl_irt_filename_truncate = omega arith
builtin_id-bounds Builtin.nacl_irt_filename_lstat = omega arith
builtin_id-bounds Builtin.nacl_irt_filename_link = omega arith
builtin_id-bounds Builtin.nacl_irt_filename_rename = omega arith
builtin_id-bounds Builtin.nacl_irt_filename_symlink = omega arith
builtin_id-bounds Builtin.nacl_irt_filename_chmod = omega arith
builtin_id-bounds Builtin.nacl_irt_filename_access = omega arith
builtin_id-bounds Builtin.nacl_irt_filename_readlink = omega arith
builtin_id-bounds Builtin.nacl_irt_filename_utimes = omega arith
builtin_id-bounds Builtin.nacl_irt_memory_mmap = omega arith
builtin_id-bounds Builtin.nacl_irt_memory_munmap = omega arith
builtin_id-bounds Builtin.nacl_irt_memory_mprotect = omega arith
builtin_id-bounds Builtin.nacl_irt_tls_init = omega arith
builtin_id-bounds Builtin.nacl_irt_tls_get = omega arith
builtin_id-bounds Builtin.nacl_irt_thread_create = omega arith
builtin_id-bounds Builtin.nacl_irt_thread_exit = omega arith
builtin_id-bounds Builtin.nacl_irt_thread_nice = omega arith
builtin_id-bounds Builtin.nacl_irt_futex_wait_abs = omega arith
builtin_id-bounds Builtin.nacl_irt_futex_wake = omega arith

pointer-bounds :
    (b : Builtin) → builtin_to_pointer (builtin_id b) % 256 ^ 4 ≡ builtin_to_pointer (builtin_id b)
unfolding builtin_to_pointer
pointer-bounds b = omega (arith, builtin_id-bounds b)

-- The entries from `offset` on are in the memory, and what is below them is as it was.
record Written (m : Memory) (table offset : ℕ) (builtins : List Builtin) : Type 0 where
  memory : Memory
  runs : write_builtins m table offset builtins ≡ ok memory
  same_size : memory.size ≡ m.size
  entries :
      (k : ℕ) (b : Builtin)
      → get_elem? builtins k ≡ some b
      → read memory 4 (table + (offset + k) * 4) ≡ ok (builtin_to_pointer (builtin_id b))
  below : (p : ℕ) → p + 4 ≤ table + offset * 4 → read memory 4 p ≡ read m 4 p

abbrev EntryWrite : Memory → ℕ → ℕ → Builtin → Type 0
EntryWrite m table offset b =
    (m' : Memory) × (write m 4 (table + offset * 4) (builtin_to_pointer (builtin_id b)) ≡ ok m')
    × (m'.size ≡ m.size)
    × (read m' 4 (table + offset * 4) ≡ ok (builtin_to_pointer (builtin_id b) % 256 ^ 4))
    × ((k p : ℕ)
        → (p + k ≤ table + offset * 4) ⊎ (table + offset * 4 + 4 ≤ p)
        → read m' k p ≡ read m k p)

module _ (m : Memory) (table offset : ℕ) (b : Builtin) (low : guard_size ≤ table)
    (fits : table + offset * 4 + 4 ≤ m.size) (small : m.size < 2 ^ 32) where
  entry : EntryWrite m table offset b
  entry =
      read-write m 4 (table + offset * 4) (builtin_to_pointer (builtin_id b)) (omega arith) fits
        small

  address : (table + offset * 4) % 2 ^ 32 ≡ table + offset * 4
  address = mod-eq_of_lt (omega arith)

  entry_at :
      (builtins : List Builtin)
      → (rest : Written entry.0 table (offset + 1) builtins) → (k : ℕ) (b' : Builtin)
      → get_elem? (b ∷ builtins) k ≡ some b'
      → read rest.memory 4 (table + (offset + k) * 4) ≡ ok (builtin_to_pointer (builtin_id b'))
  entry_at builtins rest zero b' e =
      rw (add-zero offset, rest.below (table + offset * 4) (omega arith), entry.3, pointer-bounds b)
        (cc)
  entry_at builtins rest (suc k) b' e =
      ap (λ (n : ℕ). read rest.memory 4 (table + n * 4)) (sum k) ∙ rest.entries k b' e
    where
      sum : (k : ℕ) → offset + suc k ≡ offset + 1 + k
      sum k = omega arith

  -- One entry, and the others behind it.
  one_entry :
      (builtins : List Builtin)
      → Written entry.0 table (offset + 1) builtins
      → Written m table offset (b ∷ builtins)
  unfolding write_builtins
  one_entry builtins rest = record {
    memory = rest.memory;
    runs = rw (address, entry.1) rest.runs;
    same_size = rest.same_size ∙ entry.2;
    entries = entry_at builtins rest;
    below = λ p h. rest.below p (omega arith) ∙ entry.4 4 p (inl h);
  }

write_builtins-Written :
    (m : Memory) (table offset : ℕ) (builtins : List Builtin)
    → guard_size ≤ table
    → table + (offset + length builtins) * 4 ≤ m.size
    → m.size < 2 ^ 32
    → Written m table offset builtins
unfolding write_builtins
write_builtins-Written m table offset [] low fits small = record {
  memory = m;
  runs = refl;
  same_size = refl;
  entries = λ k b e. cc;
  below = λ p h. refl;
}
write_builtins-Written m table offset (b ∷ builtins) low fits small =
    let first = entry m table offset b low (omega arith) small in
    one_entry m table offset b low (omega arith) small builtins (
      write_builtins-Written first.0 table (offset + 1) builtins low (omega (arith, first.2))
        (omega (arith, first.2)))

-- What the program finds in a table, and how its calls read it.
pub Entries : Memory → ℕ → List Builtin → Type 0
Entries m table builtins =
    (k : ℕ) (b : Builtin)
    → get_elem? builtins k ≡ some b
    → (pointer : ℕ) × (read m 4 (table + k * 4) ≡ ok pointer)
      × (function_pointer_to_index pointer ≡ builtin_id b)
      × (builtin_id b < max_builtins)

-- A query for an interface, with a table in the program's memory of the interface's size, gives the
-- size and writes a pointer for each of its builtins, in their order, which a call reads as the
-- number of that builtin.
pub fill_table-Entries :
    (m : Memory) (table : ℕ) (i : Interface)
    → guard_size ≤ table
    → table + length i.builtins * 4 ≤ m.size
    → m.size < 2 ^ 32
    → (m' : Memory) × (fill_table m table i.table_size (some i) ≡ ok (i.table_size, m'))
      × (m'.size ≡ m.size)
      × Entries m' table i.builtins
unfolding fill_table Entries function_pointer_to_index builtin_to_pointer
fill_table-Entries m table i low fits small = (
  run.memory,
  rw ((==_iff i.table_size i.table_size).1 refl, run.runs) refl,
  run.same_size,
  λ k b e. (
    builtin_to_pointer (builtin_id b),
    ap (λ (n : ℕ). read run.memory 4 (table + n * 4)) (from_zero k) ∙ run.entries k b e,
    omega arith,
    builtin_id-bounds b,
  ),
)
  where
    run : Written m table 0 i.builtins
    run = write_builtins-Written m table 0 i.builtins low (omega arith) small

    from_zero : (k : ℕ) → k ≡ 0 + k
    from_zero k = omega arith
