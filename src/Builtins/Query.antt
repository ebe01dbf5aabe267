-- ===== src/Builtins/Query.antt =====
-- src/pn_builtins.h: NACL_IRT_QUERY, by which the program gets the tables of its system calls, and
-- the builtins of src/pnacl.h in a build without PPAPI.
pub mod Tables
use pnacl_c.Base.{
  ℕ, ◌+◌, ◌*◌, ◌%◌, ◌^◌, Bool, if◌then◌else◌, ltb, ◌&&◌, ◌==◌, List, [], ◌∷◌, Option, none, some,
  Result, ok, ◌>>=◌, ◌>>◌, check,
}
use Prim.Native.Char.{code}
use Prim.Native.String.{String}
use pnacl_c.Memory.{Memory, write, check_cstr, builtin_to_pointer}
use pnacl_c.Memory as Sandbox
use pnacl_c.Executor.{Thread}
use pnacl_c.Executor.Fields.{Scalar}
use pnacl_c.Machine.State.{RuntimeCall, arg, num_args}

-- PNBuiltinId, without PN_BUILTIN_NULL.
pub data Builtin : Type 0 where
  nacl_irt_query nacl_irt_basic_exit nacl_irt_basic_gettod nacl_irt_basic_clock
        nacl_irt_basic_nanosleep nacl_irt_basic_sched_yield nacl_irt_basic_sysconf
        nacl_irt_fdio_close nacl_irt_fdio_dup nacl_irt_fdio_dup2 nacl_irt_fdio_read
        nacl_irt_fdio_write nacl_irt_fdio_seek nacl_irt_fdio_fstat nacl_irt_fdio_getdents
        nacl_irt_fdio_fchdir nacl_irt_fdio_fchmod nacl_irt_fdio_fsync nacl_irt_fdio_fdatasync
        nacl_irt_fdio_ftruncate nacl_irt_fdio_isatty nacl_irt_filename_open nacl_irt_filename_stat
        nacl_irt_filename_mkdir nacl_irt_filename_rmdir nacl_irt_filename_chdir
        nacl_irt_filename_getcwd nacl_irt_filename_unlink nacl_irt_filename_truncate
        nacl_irt_filename_lstat nacl_irt_filename_link nacl_irt_filename_rename
        nacl_irt_filename_symlink nacl_irt_filename_chmod nacl_irt_filename_access
        nacl_irt_filename_readlink nacl_irt_filename_utimes nacl_irt_memory_mmap
        nacl_irt_memory_munmap nacl_irt_memory_mprotect nacl_irt_tls_init nacl_irt_tls_get
        nacl_irt_thread_create nacl_irt_thread_exit nacl_irt_thread_nice nacl_irt_futex_wait_abs
        nacl_irt_futex_wake :
      Builtin

unfoldable pub builtin_id : Builtin → ℕ
builtin_id Builtin.nacl_irt_query = 1
builtin_id Builtin.nacl_irt_basic_exit = 2
builtin_id Builtin.nacl_irt_basic_gettod = 3
builtin_id Builtin.nacl_irt_basic_clock = 4
builtin_id Builtin.nacl_irt_basic_nanosleep = 5
builtin_id Builtin.nacl_irt_basic_sched_yield = 6
builtin_id Builtin.nacl_irt_basic_sysconf = 7
builtin_id Builtin.nacl_irt_fdio_close = 8
builtin_id Builtin.nacl_irt_fdio_dup = 9
builtin_id Builtin.nacl_irt_fdio_dup2 = 10
builtin_id Builtin.nacl_irt_fdio_read = 11
builtin_id Builtin.nacl_irt_fdio_write = 12
builtin_id Builtin.nacl_irt_fdio_seek = 13
builtin_id Builtin.nacl_irt_fdio_fstat = 14
builtin_id Builtin.nacl_irt_fdio_getdents = 15
builtin_id Builtin.nacl_irt_fdio_fchdir = 16
builtin_id Builtin.nacl_irt_fdio_fchmod = 17
builtin_id Builtin.nacl_irt_fdio_fsync = 18
builtin_id Builtin.nacl_irt_fdio_fdatasync = 19
builtin_id Builtin.nacl_irt_fdio_ftruncate = 20
builtin_id Builtin.nacl_irt_fdio_isatty = 21
builtin_id Builtin.nacl_irt_filename_open = 22
builtin_id Builtin.nacl_irt_filename_stat = 23
builtin_id Builtin.nacl_irt_filename_mkdir = 24
builtin_id Builtin.nacl_irt_filename_rmdir = 25
builtin_id Builtin.nacl_irt_filename_chdir = 26
builtin_id Builtin.nacl_irt_filename_getcwd = 27
builtin_id Builtin.nacl_irt_filename_unlink = 28
builtin_id Builtin.nacl_irt_filename_truncate = 29
builtin_id Builtin.nacl_irt_filename_lstat = 30
builtin_id Builtin.nacl_irt_filename_link = 31
builtin_id Builtin.nacl_irt_filename_rename = 32
builtin_id Builtin.nacl_irt_filename_symlink = 33
builtin_id Builtin.nacl_irt_filename_chmod = 34
builtin_id Builtin.nacl_irt_filename_access = 35
builtin_id Builtin.nacl_irt_filename_readlink = 36
builtin_id Builtin.nacl_irt_filename_utimes = 37
builtin_id Builtin.nacl_irt_memory_mmap = 38
builtin_id Builtin.nacl_irt_memory_munmap = 39
builtin_id Builtin.nacl_irt_memory_mprotect = 40
builtin_id Builtin.nacl_irt_tls_init = 41
builtin_id Builtin.nacl_irt_tls_get = 42
builtin_id Builtin.nacl_irt_thread_create = 43
builtin_id Builtin.nacl_irt_thread_exit = 44
builtin_id Builtin.nacl_irt_thread_nice = 45
builtin_id Builtin.nacl_irt_futex_wait_abs = 46
builtin_id Builtin.nacl_irt_futex_wake = 47

-- The bytes of a C string.
abbrev pub codes : String → List ℕ
codes String.[] = []
codes (String.◌∷◌ c s) = code c ∷ codes s

-- A branch of the function: the name that it compares, and its calls of PN_WRITE_BUILTIN.
pub record Interface : Type 0 where
  pub iface_name : List ℕ
  pub table_size : ℕ
  pub builtins : List Builtin

abbrev pub interfaces : List Interface
interfaces =
    record {
      iface_name = codes "nacl-irt-basic-0.1";
      table_size = 24;
      builtins =
          Builtin.nacl_irt_basic_exit ∷ Builtin.nacl_irt_basic_gettod ∷ Builtin.nacl_irt_basic_clock
          ∷ Builtin.nacl_irt_basic_nanosleep ∷ Builtin.nacl_irt_basic_sched_yield
          ∷ Builtin.nacl_irt_basic_sysconf ∷ [];
    }
    ∷ record {
      iface_name = codes "nacl-irt-dev-fdio-0.3";
      table_size = 56;
      builtins =
          Builtin.nacl_irt_fdio_close ∷ Builtin.nacl_irt_fdio_dup ∷ Builtin.nacl_irt_fdio_dup2
          ∷ Builtin.nacl_irt_fdio_read ∷ Builtin.nacl_irt_fdio_write ∷ Builtin.nacl_irt_fdio_seek
          ∷ Builtin.nacl_irt_fdio_fstat ∷ Builtin.nacl_irt_fdio_getdents
          ∷ Builtin.nacl_irt_fdio_fchdir ∷ Builtin.nacl_irt_fdio_fchmod
          ∷ Builtin.nacl_irt_fdio_fsync ∷ Builtin.nacl_irt_fdio_fdatasync
          ∷ Builtin.nacl_irt_fdio_ftruncate ∷ Builtin.nacl_irt_fdio_isatty ∷ [];
    }
    ∷ record {
      iface_name = codes "nacl-irt-fdio-0.1";
      table_size = 32;
      builtins =
          Builtin.nacl_irt_fdio_close ∷ Builtin.nacl_irt_fdio_dup ∷ Builtin.nacl_irt_fdio_dup2
          ∷ Builtin.nacl_irt_fdio_read ∷ Builtin.nacl_irt_fdio_write ∷ Builtin.nacl_irt_fdio_seek
          ∷ Builtin.nacl_irt_fdio_fstat ∷ Builtin.nacl_irt_fdio_getdents ∷ [];
    }
    ∷ record {
      iface_name = codes "nacl-irt-dev-filename-0.3";
      table_size = 64;
      builtins =
          Builtin.nacl_irt_filename_open ∷ Builtin.nacl_irt_filename_stat
          ∷ Builtin.nacl_irt_filename_mkdir ∷ Builtin.nacl_irt_filename_rmdir
          ∷ Builtin.nacl_irt_filename_chdir ∷ Builtin.nacl_irt_filename_getcwd
          ∷ Builtin.nacl_irt_filename_unlink ∷ Builtin.nacl_irt_filename_truncate
          ∷ Builtin.nacl_irt_filename_lstat ∷ Builtin.nacl_irt_filename_link
          ∷ Builtin.nacl_irt_filename_rename ∷ Builtin.nacl_irt_filename_symlink
          ∷ Builtin.nacl_irt_filename_chmod ∷ Builtin.nacl_irt_filename_access
          ∷ Builtin.nacl_irt_filename_readlink ∷ Builtin.nacl_irt_filename_utimes ∷ [];
    }
    ∷ record {
      iface_name = codes "nacl-irt-memory-0.3";
      table_size = 12;
      builtins =
          Builtin.nacl_irt_memory_mmap ∷ Builtin.nacl_irt_memory_munmap
          ∷ Builtin.nacl_irt_memory_mprotect ∷ [];
    }
    ∷ record {
      iface_name = codes "nacl-irt-tls-0.1";
      table_size = 8;
      builtins = Builtin.nacl_irt_tls_init ∷ Builtin.nacl_irt_tls_get ∷ [];
    }
    ∷ record {
      iface_name = codes "nacl-irt-thread-0.1";
      table_size = 12;
      builtins =
          Builtin.nacl_irt_thread_create ∷ Builtin.nacl_irt_thread_exit
          ∷ Builtin.nacl_irt_thread_nice ∷ [];
    }
    ∷ record {
      iface_name = codes "nacl-irt-futex-0.1";
      table_size = 8;
      builtins = Builtin.nacl_irt_futex_wait_abs ∷ Builtin.nacl_irt_futex_wake ∷ [];
    }
    ∷ []

-- strcmp(memory->data + p, name) == 0.
unfoldable pub matches : Memory → ℕ → List ℕ → Bool
matches m p [] = m.bytes p % 256 == 0
matches m p (c ∷ name) = m.bytes p % 256 == c && matches m (p + 1) name

unfoldable pub find_interface : Memory → ℕ → List Interface → Option Interface
unfolding matches
find_interface m p [] = none
find_interface m p (i ∷ others) =
    let later = find_interface m p others in if matches m p i.iface_name then some i else later

-- The entries of a table from `offset` on.
unfoldable pub write_builtins : Memory → ℕ → ℕ → List Builtin → Result Memory
write_builtins m table offset [] = ok m
write_builtins m table offset (b ∷ builtins) = do
  m' ← write m 4 ((table + offset * 4) % 2 ^ 32) (builtin_to_pointer (builtin_id b))
  write_builtins m' table (offset + 1) builtins

-- An interface that is not known, the PPAPI's among them, gives 0.
unfoldable pub fill_table : Memory → ℕ → ℕ → Option Interface → Result (ℕ × Memory)
unfolding write_builtins
fill_table m table table_size none = ok (0, m)
fill_table m table table_size (some i) = do
  check (table_size == i.table_size)
  m' ← write_builtins m table 0 i.builtins
  ok (i.table_size, m')

unfoldable pub irt_query : Thread → RuntimeCall → Memory → Result (ℕ × Memory)
irt_query t i m = do
  check (num_args i == 3)
  name_p ← arg t i 0 Scalar.u32
  table ← arg t i 1 Scalar.u32
  table_size ← arg t i 2 Scalar.u32
  Sandbox.check m name_p 1
  name_len ← check_cstr m name_p
  check (ltb 0 name_len)
  fill_table m table table_size (find_interface m name_p interfaces)
