-- ===== src/Builtins/Threads.antt =====
-- src/pn_builtins.h: the system calls that start and end threads, and the small ones.
pub mod Start
use pnacl_c.Base.{
  ℕ, ◌+◌, ◌-◌, ◌%◌, ◌^◌, false, not, if◌then◌else◌, leb, ltb, ◌==◌, List, [], ◌∷◌, length,
  get_elem?, some, Result, ok, ◌>>=◌, ◌>>◌, check, from_option,
}
use pnacl_c.Memory.{Memory, write, max_builtins, function_pointer_to_index}
use pnacl_c.Memory as Sandbox
use pnacl_c.Executor.Fields.{Scalar}
use pnacl_c.Machine.State.{RuntimeCall, Module, ThreadState, Machine, arg, num_args}
use pnacl_c.Machine.Frame.{push_function}
use pnacl_c.Builtins.Mapping.{pagesize, einval}

-- The threads of an executor: the running one, those behind it in the ring, and the dead ones.
pub record Threading : Type 0 where
  pub running_id : ℕ
  pub running : Machine
  pub others : List (ℕ × Machine)
  pub dead_threads : List ℕ
  pub next_thread_id : ℕ

abbrev pub tail : List ℕ → List ℕ
tail [] = []
tail (id ∷ ids) = ids

-- A thread at the executor's sentinel frame, with what it shares with the running one.
abbrev pub new_thread : Machine → ℕ → Machine
new_thread m tls = record {
  thread = record { module_values = m.thread.module_values; function_values = []; inst = 0 };
  frame = record {
    function_id = 2 ^ 32 - 1;
    location_inst = 0;
    memory_stack_top = 0;
    jmpbufs = [];
  };
  callers = [];
  memory = m.memory;
  heap_end = m.heap_end;
  tls = tls;
  next_jmpbuf_id = m.next_jmpbuf_id;
  is_start_thread = false;
  state = ThreadState.running;
  exit_code = m.exit_code;
}

-- The first frame of a thread, whose parent is the sentinel.
abbrev pub first_frame : Machine → ℕ → Machine
first_frame m stack_p = record m {
  callers = [];
  frame = record m.frame { memory_stack_top = stack_p };
}

unfoldable pub irt_thread_create :
    (ℕ → ℕ) → Module → RuntimeCall → Threading → Result (ℕ × Threading)
irt_thread_create garbage p i s = do
  check (num_args i == 3)
  start_func_p ← arg s.running.thread i 0 Scalar.u32
  stack_p ← arg s.running.thread i 1 Scalar.u32
  thread_p ← arg s.running.thread i 2 Scalar.u32
  check (leb max_builtins (function_pointer_to_index start_func_p))
  let function_id = function_pointer_to_index start_func_p - max_builtins
  check (ltb function_id (length p.functions))
  f ← from_option (get_elem? p.functions function_id)
  m ← push_function garbage (new_thread s.running thread_p) function_id f
  ok (
    0,
    record s {
      others = (s.next_thread_id, first_frame m stack_p) ∷ s.others;
      dead_threads = tail s.dead_threads;
      next_thread_id = (s.next_thread_id + 1) % 2 ^ 32;
    },
  )

-- The main thread is the one that the program starts with.
unfoldable pub irt_thread_exit : RuntimeCall → Machine → Result (ℕ × Machine)
irt_thread_exit i m = do
  check (num_args i == 1)
  stack_flag_p ← arg m.thread i 0 Scalar.u32
  check (not m.is_start_thread)
  memory ← if stack_flag_p == 0 then ok m.memory else write m.memory 4 stack_flag_p 0
  ok (0, record m { state = ThreadState.dead; memory = memory })

unfoldable pub irt_tls_init : RuntimeCall → Machine → Result (ℕ × Machine)
irt_tls_init i m = do
  check (num_args i == 1)
  thread_ptr_p ← arg m.thread i 0 Scalar.u32
  Sandbox.check m.memory thread_ptr_p 1
  ok (0, record m { tls = thread_ptr_p })

unfoldable pub irt_basic_sysconf : RuntimeCall → Machine → Result (ℕ × Machine)
irt_basic_sysconf i m = do
  check (num_args i == 2)
  name ← arg m.thread i 0 Scalar.u32
  value_p ← arg m.thread i 1 Scalar.u32
  if name == 2
      then (do memory ← write m.memory 4 value_p pagesize; ok (0, record m { memory = memory }))
      else ok (einval, m)

-- The program's end: `exit_code` is that of an executor that is exiting.
unfoldable pub irt_basic_exit : RuntimeCall → Machine → Result (ℕ × Machine)
irt_basic_exit i m = do
  check (num_args i == 1)
  exit_code ← arg m.thread i 0 Scalar.i32
  ok (0, record m { state = ThreadState.dead; exit_code = some exit_code })

-- `tv` is what gettimeofday says.
unfoldable pub irt_basic_gettod : ℕ × ℕ → RuntimeCall → Machine → Result (ℕ × Machine)
irt_basic_gettod tv i m = do
  check (num_args i == 1)
  tv_p ← arg m.thread i 0 Scalar.i32
  memory ← write m.memory 8 tv_p tv.0
  memory' ← write memory 4 ((tv_p + 8) % 2 ^ 32) tv.1
  ok (0, record m { memory = memory' })

-- PN_BUILTIN_STUB: the calls that are not implemented, with any number of arguments.
abbrev pub enosys : ℕ
enosys = 38

unfoldable pub builtin_stub : RuntimeCall → Machine → Result (ℕ × Machine)
builtin_stub i m = ok (enosys, m)
