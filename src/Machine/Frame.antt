-- ===== src/Machine/Frame.antt =====
-- Calls and returns, branches, and the stack in the sandbox's memory.
use pnacl_c.Base.{
  ℕ, zero, suc, ◌+◌, ◌-◌, ◌*◌, ◌/◌, ◌%◌, ◌^◌, Bool, true, false, ◌&&◌, if◌then◌else◌, ltb, ◌==◌,
}
use pnacl_c.Base.{List, [], ◌∷◌, get_elem?, Option, some}
use pnacl_c.Base.{Result, ok, fatal, ◌>>=◌, ◌>>◌, check, from_option, bit_and, assert}
use pnacl_c.Bits.{is_power_of_two}
use pnacl_c.Base.Int.{ℤ, pos, negsuc, signed}
use pnacl_c.Memory.{function_pointer_to_index, max_builtins}
use pnacl_c.Phi.{do_phi_assigns}
use pnacl_c.Executor.{Thread, get_value, set_value, num_values}
use pnacl_c.Executor.Fields.{Scalar, width, get, make}
use pnacl_c.Machine.State.{
  RuntimeCall, RuntimePhis, RuntimeAlloca, RuntimeBrInt1, RuntimeSwitchCase, RuntimeSwitch,
  RuntimeVselect,
}
use pnacl_c.Machine.State.{
  CallFrame, Function, Module, ThreadState, Machine, release, num_args, sizeof_call,
  invalid_value_id, arg, finish_call, skip_call,
}

abbrev tabulate : (ℕ → ℕ) → ℕ → List ℕ
tabulate f zero = []
tabulate f (suc n) = f zero ∷ tabulate (λ k. f (suc k)) n

-- The values of a new frame from `value_id` on: the constants of its function.
unfoldable pub set_constants : Thread → ℕ → List ℕ → Result Thread
set_constants t value_id [] = ok t
set_constants t value_id (value ∷ values) = do
  t' ← set_value t value_id value
  set_constants t' (value_id + 1) values

-- The arguments, which are read in the frame of the caller.
unfoldable pub set_args : Thread → Thread → ℕ → List ℕ → Result Thread
set_args caller t value_id [] = ok t
set_args caller t value_id (arg_id ∷ arg_ids) = do
  value ← get_value caller arg_id
  t' ← set_value t value_id value
  set_args caller t' (value_id + 1) arg_ids

-- pn_thread_push_function. The values of the new frame are not cleared: they are any `garbage`.
unfoldable pub push_function : (ℕ → ℕ) → Machine → ℕ → Function → Result Machine
unfolding set_constants
push_function garbage m function_id f = if f.instructions == 0 then fatal else do
  let values = tabulate garbage f.num_values
  t ←
      set_constants (record m.thread { function_values = values; inst = f.instructions })
        (num_values m.thread + f.num_args) f.constants
  ok (record m {
    thread = t;
    frame = record {
      function_id = function_id;
      location_inst = f.instructions;
      memory_stack_top = m.frame.memory_stack_top;
      jmpbufs = [];
    };
    callers = (m.frame, m.thread.function_values) ∷ m.callers;
  })

-- PN_OPCODE_CALL, but for the call of a builtin.
abbrev pub callee : Module → Machine → RuntimeCall → Result ℕ
callee p m i =
    if i.is_indirect
    then (do
      v ← get_value m.thread i.callee_id
      ok (function_pointer_to_index (get Scalar.u32 v) - max_builtins))
    else (from_option (get_elem? p.function_index i.callee_id) >>= λ index. from_option index)

unfoldable pub call_function : (ℕ → ℕ) → Module → Machine → RuntimeCall → Result Machine
unfolding push_function set_args
call_function garbage p m i = do
  function_id ← callee p m i
  f ← from_option (get_elem? p.functions function_id)
  m' ←
      push_function garbage (record m { frame = record m.frame { location_inst = m.thread.inst } })
        function_id f
  t ← set_args m.thread m'.thread (num_values m.thread) i.arg_ids
  ok (record m' { thread = t })

-- A builtin runs without a frame. `builtins` are those of pn_builtins.h by their number; one that
-- blocks the thread is called again later.
abbrev pub Builtins : Type 0
Builtins = ℕ → Machine → RuntimeCall → Result (ℕ × Machine)

abbrev is_running : ThreadState → Bool
is_running ThreadState.running = true
is_running _ = false

unfoldable pub call_builtin : Builtins → ℕ → Machine → RuntimeCall → Result Machine
call_builtin builtins index m i = do
  (result, m') ← builtins index m i
  t ←
      if i.result_value_id == invalid_value_id
      then ok m'.thread
      else set_value m'.thread i.result_value_id result
  ok (record m' { thread = if is_running m'.state then skip_call t i else t })

-- An indirect call of a small index is one of a builtin.
unfoldable pub execute_call : (ℕ → ℕ) → Builtins → Module → Machine → RuntimeCall → Result Machine
unfolding call_function call_builtin
execute_call garbage builtins p m i =
    if i.is_indirect
    then (do
      v ← get_value m.thread i.callee_id
      let index = function_pointer_to_index (get Scalar.u32 v)
      if ltb index max_builtins
          then call_builtin builtins index
              (record m { frame = record m.frame { location_inst = m.thread.inst } }) i
          else call_function garbage p m i)
    else call_function garbage p m i

-- The end of the top frame ends the thread, and if it is the first one, the program. A dead thread's
-- frame is not looked at any more.
abbrev pub finish_thread : Machine → ℕ → Machine
finish_thread m code = record m {
  state = ThreadState.dead;
  exit_code = if m.is_start_thread then some code else m.exit_code;
}

-- The caller goes on behind its call, and the arena is reset to its mark. `call_at` is the call at a place of the instruction stream.
unfoldable pub ret_to :
    (ℕ → Option RuntimeCall) → Machine → List (CallFrame × List ℕ) → Result Machine
ret_to call_at m [] = ok (finish_thread m 0)
ret_to call_at m ((frame, values) ∷ callers) = do
  c ← from_option (call_at frame.location_inst)
  let t = record m.thread { function_values = values; inst = frame.location_inst + sizeof_call c }
  ok (record m { thread = t; frame = release frame; callers = callers })

unfoldable pub execute_ret : (ℕ → Option RuntimeCall) → Machine → Result Machine
unfolding ret_to
execute_ret call_at m = ret_to call_at m m.callers

-- PN_OPCODE_RET_VALUE sets the result of the call before.
unfoldable pub ret_value_to :
    (ℕ → Option RuntimeCall) → Machine → ℕ → List (CallFrame × List ℕ) → Result Machine
ret_value_to call_at m value [] = ok (finish_thread m (get Scalar.i32 value))
ret_value_to call_at m value ((frame, values) ∷ callers) = do
  c ← from_option (call_at frame.location_inst)
  t ← set_value (record m.thread { function_values = values }) c.result_value_id value
  ok (record m {
    thread = record t { inst = frame.location_inst + sizeof_call c };
    frame = release frame;
    callers = callers;
  })

unfoldable pub execute_ret_value : (ℕ → Option RuntimeCall) → Machine → ℕ → Result Machine
unfolding ret_value_to
execute_ret_value call_at m value_id = do
  value ← get_value m.thread value_id
  ret_value_to call_at m value m.callers

-- pn_align_down(x, align) on a uint32_t, for an alignment that is a power of two.
abbrev align_down : ℕ → ℕ → ℕ
align_down x align = x / align * align

-- PN_OPCODE_ALLOCA_INT32: the stack grows down. `is_main_thread` is that of the executor.
unfoldable pub execute_alloca : ℕ → Bool → Machine → RuntimeAlloca → Result Machine
execute_alloca junk is_main_thread m i = do
  size ← get_value m.thread i.size_id
  assert (is_power_of_two i.alignment)
  let top =
      align_down ((m.frame.memory_stack_top + 2 ^ 32 - get Scalar.i32 size) % 2 ^ 32) i.alignment
  if is_main_thread && ltb top m.heap_end then fatal else do
    t ← set_value m.thread i.result_value_id (make junk Scalar.u32 top)
    ok (record m {
      thread = record t { inst = t.inst + 16 };
      frame = record m.frame { memory_stack_top = top };
    })

-- LLVM_STACKSAVE and LLVM_STACKRESTORE.
unfoldable pub execute_stacksave : ℕ → Machine → RuntimeCall → Result Machine
execute_stacksave junk m i = do
  check (num_args i == 0)
  check (if i.result_value_id == invalid_value_id then false else true)
  t ← finish_call m.thread i (make junk Scalar.u32 m.frame.memory_stack_top)
  ok (record m { thread = t })

unfoldable pub execute_stackrestore : Machine → RuntimeCall → Result Machine
execute_stackrestore m i = do
  check (num_args i == 1)
  check (i.result_value_id == invalid_value_id)
  value ← arg m.thread i 0 Scalar.u32
  ok (record m {
    thread = skip_call m.thread i;
    frame = record m.frame { memory_stack_top = value };
  })

-- The branches: the phis of the place that is gone to, and then there.
abbrev go_to : Thread → RuntimePhis → ℕ → Result Thread
go_to t phis new_inst = do
  t' ← do_phi_assigns t phis.fast_phi_assign new_inst phis.assigns
  ok (record t' { inst = new_inst })

unfoldable pub execute_br : Thread → RuntimePhis → ℕ → Result Thread
execute_br t phis inst = go_to t phis inst

unfoldable pub execute_br_int1 : Thread → RuntimePhis → RuntimeBrInt1 → Result Thread
execute_br_int1 t phis i = do
  value ← get_value t i.value_id
  go_to t phis (if get Scalar.u8 value == 0 then i.false_inst else i.true_inst)

-- PN_OPCODE_SWITCH(ty): the first case whose value is the signed field.
abbrev pub same_ℤ : ℤ → ℤ → Bool
same_ℤ (pos a) (pos b) = a == b
same_ℤ (negsuc a) (negsuc b) = a == b
same_ℤ _ _ = false

unfoldable pub find_case : ℤ → ℕ → List RuntimeSwitchCase → ℕ
find_case value default_inst [] = default_inst
find_case value default_inst (c ∷ cases) =
    if same_ℤ value c.value then c.inst else find_case value default_inst cases

unfoldable pub execute_switch : Scalar → Thread → RuntimePhis → RuntimeSwitch → Result Thread
unfolding find_case
execute_switch s t phis i = do
  value ← get_value t i.value_id
  go_to t phis (find_case (signed (width s) (get s value)) i.default_inst i.cases)

unfoldable pub execute_vselect : Thread → RuntimeVselect → Result Thread
execute_vselect t i = do
  cond ← get_value t i.cond_id
  result ←
      get_value t
        (if bit_and (get Scalar.u8 cond) 1 == 0 then i.false_value_id else i.true_value_id)
  t' ← set_value t i.result_value_id result
  ok (record t' { inst = t'.inst + 20 })
