-- ===== src/Builtins/ThreadTests.antt =====
-- Runs of the system calls for futexes and threads, and of the query for a table.
use pnacl_c.Base.{
  ℕ, zero, suc, ◌+◌, ◌*◌, ◌/◌, ◌%◌, ◌^◌, ◌<◌, ◌≡◌, ◌≢◌, ◌↔◌, refl, arith, true, false, List, [],
  ◌∷◌, length, none, some, get_elem?, min, drop, ok, fatal, ◌>>=◌, Ensures,
}
use pnacl_c.Memory.{
  Memory, check, read, write, store, load, check_cstr, check_cstr_loop, write_cstr, put_bytes,
  builtin_to_pointer, function_pointer_to_index,
}
use pnacl_c.Executor.{Thread, get_value, set_value}
use pnacl_c.Machine.State.{RuntimeCall, ThreadState, Machine, Module}
use pnacl_c.Machine.Frame.{push_function, set_constants}
use pnacl_c.Schedule.{expired, time_out}
use pnacl_c.Builtins.Futex.{
  Waiter, FutexState, wait_abs, wake, woken_up, scheduled, etimedout, eagain,
}
use pnacl_c.Builtins.Futex.Wake.{waiters, Pointwise, wake-waiters}
use pnacl_c.Builtins.Futex.Wait.{
  waiting, resumed, wait_abs-wake, waiting_until, timed_out, wait_abs-timeout,
}
use pnacl_c.Builtins.Query.{
  Builtin, Interface, codes, irt_query, fill_table, find_interface, matches, write_builtins,
  builtin_id,
}
use pnacl_c.Builtins.Query.Tables.{Entries, fill_table-Entries}
use pnacl_c.Builtins.Threads.{
  Threading, irt_thread_create, irt_thread_exit, irt_tls_init, irt_basic_sysconf,
}
use pnacl_c.Builtins.Threads.Start.{Started, no_ids, next_id, irt_thread_create-Started}

abbrev memory : Memory
memory = record { bytes = λ p. 0; size = 8192 }

abbrev idle : ℕ → Waiter
idle id = record {
  id = id;
  state = ThreadState.running;
  futex_state = FutexState.futex_none;
  wait_addr = 0;
  has_timeout = false;
  timeout_sec = 0;
  timeout_usec = 0;
}

abbrev others : List Waiter
others = waiting 2048 (idle 1) ∷ idle 2 ∷ waiting 2048 (idle 3) ∷ waiting 2052 (idle 4) ∷ []

wake_test : wake 2048 1 0 others ≡ (
  woken_up (waiting 2048 (idle 1)) ∷ idle 2 ∷ waiting 2048 (idle 3) ∷ waiting 2052 (idle 4) ∷ [],
  1,
)
unfolding wake
wake_test = refl

-- A word that has changed.
eagain_test : wait_abs memory 2048 7 0 (idle 1) ≡ ok (eagain, idle 1)
unfolding wait_abs read check load
eagain_test = refl

wake-waiters_example :
    ((wake 2048 1 0 others).1 ≡ min 1 (length (waiters 2048 others)))
    × (waiters 2048 (wake 2048 1 0 others).0 ≡ drop 1 (waiters 2048 others))
    × Pointwise 2048 others (wake 2048 1 0 others).0
wake-waiters_example = wake-waiters 2048 1 others

no_value : read memory 4 2048 ≡ ok 0
unfolding read check load
no_value = refl

wait_abs-wake_example :
    (wait_abs memory 2048 0 0 (idle 5) ≡ ok (0, waiting 2048 (idle 5)))
    × (get_elem? (wake 2048 2 0 (waiting 2048 (idle 1) ∷ waiting 2048 (idle 5) ∷ idle 6 ∷ [])).0 1
        ≡ some (woken_up (waiting 2048 (idle 5))))
    × (wait_abs memory 2048 0 0 (woken_up (waiting 2048 (idle 5)))
        ≡ ok (0, resumed (waiting 2048 (idle 5))))
wait_abs-wake_example =
    wait_abs-wake memory 2048 0 2 (idle 5) (waiting 2048 (idle 1) ∷ []) (idle 6 ∷ []) memory refl
      no_value (omega arith)

no_seconds : read memory 8 4096 ≡ ok 0
unfolding read check load
no_seconds = refl

no_nanoseconds : read memory 4 ((4096 + 8) % 2 ^ 32) ≡ ok 0
unfolding read check load
no_nanoseconds = refl

wait_abs-timeout_example :
    (wait_abs memory 2048 0 4096 (idle 5) ≡ ok (0, waiting_until 2048 0 0 (idle 5)))
    × ((expired (scheduled (waiting_until 2048 0 0 (idle 5))) (1, 2) ≡ true)
        ↔ (0 * 10 ^ 6 + 0 / 1000 < 1 * 10 ^ 6 + 2))
    × (time_out (scheduled (waiting_until 2048 0 0 (idle 5)))
        ≡ scheduled (timed_out (waiting_until 2048 0 0 (idle 5))))
    × (wait_abs memory 2048 0 4096 (timed_out (waiting_until 2048 0 0 (idle 5)))
        ≡ ok (etimedout, resumed (waiting_until 2048 0 0 (idle 5))))
wait_abs-timeout_example =
    wait_abs-timeout memory 2048 0 4096 0 0 (idle 5) 1 2 memory refl no_value
      (λ e. absurd (omega arith)) no_seconds no_nanoseconds (omega arith) (omega arith)

abbrev irt_args : List ℕ → RuntimeCall
irt_args arg_ids = record {
  result_value_id = 5;
  callee_id = 0;
  is_indirect = true;
  arg_ids = arg_ids;
}

abbrev regs : Thread
regs = record { module_values = 3000 ∷ 4000 ∷ 8 ∷ 50 * 4 ∷ 2 ∷ []; function_values = []; inst = 64 }

-- "nacl-irt-tls-0.1" at 3000, and its table at 4000.
query_test :
    (write_cstr memory 3000 (codes "nacl-irt-tls-0.1") >>= λ m.
    irt_query regs (irt_args (0 ∷ 1 ∷ 2 ∷ [])) m >>= λ r. read r.1 8 4000)
    ≡ ok (41 * 4 + 2 ^ 32 * (42 * 4))
unfolding write_cstr put_bytes irt_query get_value check check_cstr check_cstr_loop read load write
    store find_interface matches fill_table write_builtins builtin_to_pointer builtin_id
query_test = refl

abbrev futexes : Interface
futexes = record {
  iface_name = codes "nacl-irt-futex-0.1";
  table_size = 8;
  builtins = Builtin.nacl_irt_futex_wait_abs ∷ Builtin.nacl_irt_futex_wake ∷ [];
}

fill_table-Entries_example :
    (m' : Memory) × (fill_table memory 4000 8 (some futexes) ≡ ok (8, m'))
    × (m'.size ≡ 8192)
    × Entries m' 4000 (Builtin.nacl_irt_futex_wait_abs ∷ Builtin.nacl_irt_futex_wake ∷ [])
fill_table-Entries_example =
    fill_table-Entries memory 4000 futexes (omega arith) (omega arith) (omega arith)

abbrev machine : Machine
machine = record {
  thread = regs;
  frame = record { function_id = 0; location_inst = 10; memory_stack_top = 4000; jmpbufs = [] };
  callers = [];
  memory = memory;
  heap_end = 4096;
  tls = 0;
  next_jmpbuf_id = 1;
  is_start_thread = true;
  state = ThreadState.running;
  exit_code = none;
}

abbrev program : Module
program = record {
  functions =
      record { instructions = 10; num_args = 0; num_values = 0; constants = [] }
      ∷ record { instructions = 90; num_args = 0; num_values = 0; constants = [] }
      ∷ record { instructions = 500; num_args = 1; num_values = 2; constants = 9 ∷ [] }
      ∷ [];
  function_index = [];
}

abbrev threads : Threading
threads = record {
  running_id = 0;
  running = machine;
  others = (3, machine) ∷ [];
  dead_threads = 1 ∷ 2 ∷ [];
  next_thread_id = 4;
}

create_test :
    (irt_thread_create (λ k. 7) program (irt_args (3 ∷ 1 ∷ 0 ∷ [])) threads >>= λ r.
    ok (r.1.next_thread_id ∷ length r.1.others ∷ r.1.dead_threads))
    ≡ ok (5 ∷ 2 ∷ 2 ∷ [])
unfolding irt_thread_create get_value push_function set_constants set_value
    function_pointer_to_index
create_test = refl

-- The main thread may not exit so.
exit_test : irt_thread_exit (irt_args (0 ∷ [])) machine ≡ fatal
unfolding irt_thread_exit get_value
exit_test = refl

tls_test : irt_tls_init (irt_args (0 ∷ [])) machine ≡ ok (0, record machine { tls = 3000 })
unfolding irt_tls_init get_value check
tls_test = refl

sysconf_test :
    (irt_basic_sysconf (irt_args (4 ∷ 0 ∷ [])) machine >>= λ r. read r.1.memory 4 3000) ≡ ok 4096
unfolding irt_basic_sysconf get_value check write store read load
sysconf_test = refl

value_0 : get_value regs 0 ≡ ok 3000
unfolding get_value
value_0 = refl

value_1 : get_value regs 1 ≡ ok 4000
unfolding get_value
value_1 = refl

value_3 : get_value regs 3 ≡ ok 200
unfolding get_value
value_3 = refl

irt_thread_create-Started_example :
    Ensures
      (Started threads program 200 4000 3000)
      (irt_thread_create (λ k. 7) program (irt_args (3 ∷ 1 ∷ 0 ∷ [])) threads)
irt_thread_create-Started_example =
    irt_thread_create-Started (λ k. 7) program (irt_args (3 ∷ 1 ∷ 0 ∷ [])) threads 200 4000 3000
      (rw value_3 refl) (rw value_1 refl) (rw value_0 refl) (omega arith)
      (next_id (omega arith) apart (next_id (omega arith) (λ k e. cc) no_ids))
  where
    apart : (k : ℕ) → get_elem? {A = ℕ} (3 ∷ []) k ≢ some 0
    apart zero e = cc
    apart (suc k) e = cc
