-- ===== src/Machine/Tests.antt =====
-- Runs of the machine. Values 0 and 1 are those of the module, 2 and up those of the frame.
use pnacl_c.Base.{
  ℕ, ◌+◌, ◌*◌, ◌%◌, ◌^◌, ◌≤◌, ◌<◌, ◌≡◌, ◌≢◌, ◌⊎◌, refl, arith, List, [], ◌∷◌, Option, none, some,
  true, false, if◌then◌else◌, ◌==◌,
}
use pnacl_c.Base.{Result, ok, fatal, fault, ◌>>=◌}
use pnacl_c.Memory.{Memory, load, store, check, read, write}
use pnacl_c.Executor.{Thread, get_value, set_value}
use pnacl_c.Executor.Fields.{Scalar, Host, Order, make}
use pnacl_c.Executor.Registers.{with_value}
use pnacl_c.Machine.State.{
  RuntimeCall, CallFrame, Module, Function, Machine, ThreadState, sizeof_call, skip_call,
  invalid_value_id,
}
use pnacl_c.Machine.Memory.{execute_memcpy, execute_memmove}
use pnacl_c.Machine.Atomic.{
  RmwOp, clz, ctz, execute_cmpxchg, execute_rmw, execute_atomic_load, execute_ctlz, execute_cttz,
}
use pnacl_c.Machine.Frame.{
  call_function, push_function, set_args, set_constants, execute_ret_value, execute_call,
  ret_value_to,
}
use pnacl_c.Machine.Setjmp.{find_jmpbuf, unwind, execute_setjmp, execute_longjmp}
use pnacl_c.Machine.{Program, Instruction, execute, run_quantum, execute_instruction}
use pnacl_c.Machine.Returns.{here, execute_ret_value-call_function}
use pnacl_c.Machine.Jumps.{Reaches, Jumps, new_jmpbuf, execute_longjmp-execute_setjmp}
use pnacl_c.Machine.Blocks.{
  BlockCall, execute_memmove-bytes, execute_memcpy-execute_memmove, execute_cmpxchg-read,
}
use pnacl_c.Machine.Zeros.{CountCall, counted, execute_ctlz-bounds, execute_cttz-odd}

abbrev thread : Thread
thread = record {
  module_values = 4 ∷ 5 ∷ [];
  function_values = 2000 ∷ 8 ∷ 2002 ∷ 3 ∷ [];
  inst = 64;
}

abbrev frame : CallFrame
frame = record { function_id = 0; location_inst = 10; memory_stack_top = 4000; jmpbufs = [] }

-- Each byte holds its address, cut.
abbrev memory : Memory
memory = record { bytes = λ p. p % 256; size = 4096 }

abbrev machine : Machine
machine = record {
  thread = thread;
  frame = frame;
  callers = [];
  memory = memory;
  heap_end = 3000;
  tls = 0;
  next_jmpbuf_id = 1;
  is_start_thread = true;
  state = ThreadState.running;
  exit_code = none;
}

-- A call of the function with value 0, of two arguments, into value 5.
abbrev the_call : RuntimeCall
the_call = record { result_value_id = 5; callee_id = 0; is_indirect = false; arg_ids = 2 ∷ 3 ∷ [] }

abbrev the_function : Function
the_function = record { instructions = 500; num_args = 2; num_values = 4; constants = 9 ∷ [] }

abbrev the_module : Module
the_module = record { functions = the_function ∷ []; function_index = some 0 ∷ none ∷ [] }

abbrev calls : ℕ → Option RuntimeCall
calls inst = if inst == 64 then some the_call else none

abbrev callee_machine : Machine
callee_machine = record machine {
  thread = record {
    module_values = 4 ∷ 5 ∷ [];
    function_values = 2000 ∷ 8 ∷ 9 ∷ 7 ∷ [];
    inst = 500;
  };
  frame = record { function_id = 0; location_inst = 500; memory_stack_top = 4000; jmpbufs = [] };
  callers = (record frame { location_inst = 64 }, thread.function_values) ∷ [];
}

call_function_test : call_function (λ k. 7) the_module machine the_call ≡ ok callee_machine
unfolding call_function push_function set_args set_constants get_value set_value
call_function_test = refl

-- The callee returns its constant, 9.
execute_ret_value-call_function_example :
    (m3 : Machine) × (execute_ret_value calls callee_machine 4 ≡ ok m3)
    × (m3.thread ≡ record (with_value thread 5 9) { inst = 64 + sizeof_call the_call })
    × (m3.frame ≡ here machine)
    × (m3.callers ≡ [])
    × (m3.memory ≡ callee_machine.memory)
unfolding get_value
execute_ret_value-call_function_example =
    execute_ret_value-call_function (λ k. 7) the_module calls machine the_call callee_machine
      callee_machine 4 9 call_function_test refl refl refl refl (omega arith, omega arith)

-- A setjmp with its buffer at 2000, into value 5, and a longjmp to it with the value 8.
abbrev the_setjmp : RuntimeCall
the_setjmp = record { result_value_id = 5; callee_id = 1; is_indirect = false; arg_ids = 2 ∷ [] }

abbrev the_longjmp : RuntimeCall
the_longjmp = record {
  result_value_id = invalid_value_id;
  callee_id = 1;
  is_indirect = false;
  arg_ids = 2 ∷ 3 ∷ [];
}

abbrev setjmps : ℕ → Option RuntimeCall
setjmps inst = if inst == 64 then some the_setjmp else none

abbrev set_machine : Machine
set_machine = record machine {
  thread = record {
    module_values = 4 ∷ 5 ∷ [];
    function_values = 2000 ∷ 8 ∷ 2002 ∷ 0 ∷ [];
    inst = 84;
  };
  frame = record frame { location_inst = 64; jmpbufs = new_jmpbuf false machine ∷ [] };
  memory = record memory { bytes = store memory.bytes 2000 4 1 };
  next_jmpbuf_id = 2;
}

execute_setjmp_test : execute_setjmp 0 false machine the_setjmp ≡ ok set_machine
unfolding execute_setjmp get_value set_value write check
execute_setjmp_test = refl

-- A function that was called behind the setjmp jumps back.
abbrev deep_machine : Machine
deep_machine = record set_machine {
  thread = record { module_values = 4 ∷ 5 ∷ []; function_values = 2000 ∷ 8 ∷ []; inst = 500 };
  frame = frame;
  callers = (set_machine.frame, set_machine.thread.function_values) ∷ [];
}

deep_machine-Jumps : Jumps deep_machine the_longjmp 1 8
unfolding get_value read check load store
deep_machine-Jumps = record {
  two_args = refl;
  no_result = refl;
  jmpbuf_p = 2000;
  address = refl;
  value_id = 3;
  second = refl;
  passed = refl;
  number = refl;
}

deep_machine-Reaches :
    Reaches 1 set_machine.frame set_machine.thread.function_values [] deep_machine.frame
      deep_machine.thread.function_values deep_machine.callers
unfolding find_jmpbuf
deep_machine-Reaches = Reaches.over refl Reaches.here

execute_longjmp-execute_setjmp_example :
    (m3 : Machine) × (execute_longjmp setjmps deep_machine the_longjmp ≡ ok m3)
    × (m3.thread ≡ record {
      module_values = 4 ∷ 5 ∷ [];
      function_values = 2000 ∷ 8 ∷ 2002 ∷ 8 ∷ [];
      inst = 84;
    })
    × (m3.frame
        ≡ record { function_id = 0; location_inst = 64; memory_stack_top = 4000; jmpbufs = [] })
    × (m3.callers ≡ [])
    × (m3.memory ≡ set_machine.memory)
unfolding find_jmpbuf
execute_longjmp-execute_setjmp_example =
    execute_longjmp-execute_setjmp 0 setjmps machine set_machine deep_machine the_setjmp the_longjmp
      set_machine.frame set_machine.thread.function_values [] 8 execute_setjmp_test refl refl refl
      deep_machine-Reaches (omega arith, omega arith) deep_machine-Jumps

-- A buffer in a later chunk, whose copy of the frame is read when the chunk is freed.
later_chunk_test :
    execute_longjmp setjmps
      (record deep_machine {
        callers =
            (
              record frame { location_inst = 64; jmpbufs = new_jmpbuf true machine ∷ [] },
              set_machine.thread.function_values,
            )
            ∷ [];
      })
      the_longjmp
    ≡ fault
unfolding execute_longjmp unwind find_jmpbuf get_value read check load store
later_chunk_test = refl

-- The machine behind that longjmp jumps again.
abbrev back_machine : Machine
back_machine = record set_machine {
  thread = record {
    module_values = 4 ∷ 5 ∷ [];
    function_values = 2000 ∷ 8 ∷ 2002 ∷ 8 ∷ [];
    inst = 84;
  };
  frame = record frame { location_inst = 64 };
}

-- A program of a call and a return, whose builtins do nothing.
abbrev small_host : Host
small_host = record {
  float_op = λ o w a b. a + b;
  order = λ w a b. Order.equal;
  float_of_int = λ w z. 1;
  int_of_float = λ w a. none;
  resize = λ w w' a. a;
}

abbrev program : Program
program = record {
  host = small_host;
  square_root = λ w a. a;
  junk = 0;
  garbage = λ k. 7;
  later_chunk = λ id. false;
  module_of = the_module;
  instruction_at = λ inst.
      if inst == 64
      then some (Instruction.call the_call)
      else (if inst == 500 then some (Instruction.ret_value 4) else none);
  builtins = λ index m i. ok (0, m);
  is_main_thread = true;
}

abbrev place : Machine → Result (List ℕ × ℕ)
place m = ok (m.thread.function_values, m.thread.inst)

-- The call and the return, in a quantum of two.
run_quantum_test : (run_quantum 2 program machine >>= place) ≡ ok (2000 ∷ 8 ∷ 2002 ∷ 9 ∷ [], 88)
unfolding run_quantum execute_instruction execute execute_call call_function push_function set_args
    set_constants get_value set_value execute_ret_value ret_value_to
run_quantum_test = refl

-- 8 bytes at 2002 to 2000, which overlap: value 2 is the destination, 4 the source, 3 the length.
abbrev block_call : RuntimeCall
block_call = record {
  result_value_id = invalid_value_id;
  callee_id = 1;
  is_indirect = false;
  arg_ids = 2 ∷ 4 ∷ 3 ∷ 0 ∷ 0 ∷ [];
}

block_call-BlockCall : BlockCall thread block_call 2000 2002 8
unfolding get_value
block_call-BlockCall = record {
  five_args = refl;
  no_result = refl;
  dst_p = refl;
  src_p = refl;
  num_bytes = refl;
}

execute_memmove-bytes_test :
    (m' : Memory) × (execute_memmove thread memory block_call
      ≡ ok (skip_call thread block_call, m'))
    × (m'.size ≡ 4096)
    × ((k : ℕ) → k < 8 → m'.bytes (2000 + k) ≡ (2002 + k) % 256)
    × ((p : ℕ) → (p < 2000) ⊎ (2000 + 8 ≤ p) → m'.bytes p ≡ p % 256)
execute_memmove-bytes_test =
    execute_memmove-bytes thread memory block_call 2000 2002 8 block_call-BlockCall (omega arith)
      (record { above_guard = omega arith; in_memory = omega arith })
      (record { above_guard = omega arith; in_memory = omega arith })

-- 8 bytes at 2000 to 4: the check of the destination fails in both.
abbrev apart_call : RuntimeCall
apart_call = record {
  result_value_id = invalid_value_id;
  callee_id = 1;
  is_indirect = false;
  arg_ids = 2 ∷ 0 ∷ 3 ∷ 0 ∷ 0 ∷ [];
}

execute_memcpy-execute_memmove_test :
    execute_memcpy thread memory apart_call ≡ execute_memmove thread memory apart_call
unfolding get_value
execute_memcpy-execute_memmove_test =
    execute_memcpy-execute_memmove thread memory apart_call 2000 4 8
      (record { five_args = refl; no_result = refl; dst_p = refl; src_p = refl; num_bytes = refl })
      refl

-- At 2000 the word is 0xd3d2d1d0, which is not 8.
abbrev swap_call : RuntimeCall
swap_call = record {
  result_value_id = 5;
  callee_id = 1;
  is_indirect = false;
  arg_ids = 2 ∷ 3 ∷ 0 ∷ 0 ∷ 0 ∷ [];
}

execute_cmpxchg-read_test :
    (old : ℕ) × (t' : Thread) × (m' : Memory) × (read memory 4 2000 ≡ ok old)
    × (execute_cmpxchg 0 Scalar.u32 thread memory swap_call ≡ ok (t', m'))
    × (get_value t' 5 ≡ ok (make 0 Scalar.u32 old))
    × (t'.inst ≡ 64 + sizeof_call swap_call)
    × (old ≡ 8 → read m' 4 2000 ≡ ok (4 % 256 ^ 4))
    × (old ≢ 8 → m' ≡ memory)
unfolding get_value
execute_cmpxchg-read_test =
    execute_cmpxchg-read 0 Scalar.u32 thread memory swap_call 2000 8 4
      (record {
        five_args = refl;
        addr_p = refl;
        expected_value = refl;
        desired_value = refl;
        local = (omega arith, omega arith);
      })
      (record { above_guard = omega arith; in_memory = omega arith }) (omega arith)

abbrev eight : ℕ
eight = 8

abbrev count_call : RuntimeCall
count_call = record {
  result_value_id = 5;
  callee_id = 1;
  is_indirect = false;
  arg_ids = 3 ∷ 0 ∷ [];
}

count_call-CountCall : CountCall Scalar.u32 thread count_call 8
unfolding get_value
count_call-CountCall = record {
  two_args = refl;
  source = refl;
  is_zero_undef = 4;
  second = refl;
  local = (omega arith, omega arith);
}

execute_ctlz-bounds_example :
    (n : ℕ) × (execute_ctlz 0 Scalar.u32 thread count_call
      ≡ ok (counted 0 Scalar.u32 thread count_call n))
    × (eight ≡ 0 → n ≡ 0)
    × (1 ≤ eight → (n < 32) × (2 ^ 32 ≤ 2 * (8 * 2 ^ n)) × (8 * 2 ^ n < 2 ^ 32))
execute_ctlz-bounds_example =
    execute_ctlz-bounds 0 Scalar.u32 thread count_call 8 count_call-CountCall (omega arith)

execute_cttz-odd_test :
    (n : ℕ) × (execute_cttz 0 Scalar.u32 thread count_call
      ≡ ok (counted 0 Scalar.u32 thread count_call n))
    × (eight ≡ 0 → n ≡ 0)
    × (1 ≤ eight → (n < 32) × (odd : ℕ) × (eight ≡ (2 * odd + 1) * 2 ^ n))
execute_cttz-odd_test =
    execute_cttz-odd 0 Scalar.u32 thread count_call 8 count_call-CountCall (omega arith)

-- The other instructions, by what is in value 5 or in memory afterwards.
result_of : Result Thread → Result ℕ
unfolding get_value
result_of r = r >>= λ t. get_value t 5

counts_test :
    (result_of (execute_ctlz 0 Scalar.u32 thread count_call) ≡ ok 28)
    × (result_of (execute_cttz 0 Scalar.u32 thread count_call) ≡ ok 3)
unfolding result_of execute_ctlz execute_cttz get_value set_value clz ctz
counts_test = (refl, refl)

abbrev rmw_call : RuntimeCall
rmw_call = record {
  result_value_id = 5;
  callee_id = 1;
  is_indirect = false;
  arg_ids = 0 ∷ 2 ∷ 3 ∷ 1 ∷ [];
}

-- An operation other than that of the opcode: 4 is not 1.
execute_rmw_test : execute_rmw 0 RmwOp.add Scalar.u8 thread memory rmw_call ≡ fatal
unfolding execute_rmw get_value
execute_rmw_test = refl

atomic_load_test :
    result_of (
      execute_atomic_load 0 Scalar.u8 thread memory
        (record { result_value_id = 5; callee_id = 1; is_indirect = false; arg_ids = 2 ∷ 1 ∷ [] }))
    ≡ ok 208
unfolding result_of execute_atomic_load get_value set_value read check load
atomic_load_test = refl
