-- ===== src/Machine/State.antt =====
-- The state that a thread runs on, and the instruction stream, from the structs of src/pnacl.h.
use pnacl_c.Base.{
  ℕ, ◌-◌, ◌^◌, ◌+◌, ◌*◌, List, length, get_elem?, Option, Bool, true, map, Result, ok, from_option,
  ◌>>=◌,
}
use pnacl_c.Base.Int.{ℤ}
use pnacl_c.Memory.{Memory}
use pnacl_c.Phi.{RuntimePhiAssign}
use pnacl_c.Executor.{Thread, get_value, set_value}
use pnacl_c.Executor.Fields.{Scalar, get}

-- PN_INVALID_VALUE_ID.
abbrev pub invalid_value_id : ℕ
invalid_value_id = 2 ^ 32 - 1

-- PNRuntimeInstructionCall with its argument ids behind it; `num_args` is their number.
pub record RuntimeCall : Type 0 where
  pub result_value_id : ℕ
  pub callee_id : ℕ
  pub is_indirect : Bool
  pub arg_ids : List ℕ

abbrev pub num_args : RuntimeCall → ℕ
num_args i = length i.arg_ids

abbrev pub sizeof_call : RuntimeCall → ℕ
sizeof_call i = 16 + 4 * num_args i

-- What follows a branch: the flag and the assignments to phis.
pub record RuntimePhis : Type 0 where
  pub fast_phi_assign : Bool
  pub assigns : List RuntimePhiAssign

pub record RuntimeAlloca : Type 0 where
  pub result_value_id : ℕ
  pub size_id : ℕ
  pub alignment : ℕ

pub record RuntimeLoad : Type 0 where
  pub result_value_id : ℕ
  pub src_id : ℕ

pub record RuntimeStore : Type 0 where
  pub dest_id : ℕ
  pub value_id : ℕ

pub record RuntimeBrInt1 : Type 0 where
  pub value_id : ℕ
  pub true_inst : ℕ
  pub false_inst : ℕ

pub record RuntimeSwitchCase : Type 0 where
  pub value : ℤ
  pub inst : ℕ

pub record RuntimeSwitch : Type 0 where
  pub value_id : ℕ
  pub default_inst : ℕ
  pub cases : List RuntimeSwitchCase

pub record RuntimeVselect : Type 0 where
  pub result_value_id : ℕ
  pub cond_id : ℕ
  pub true_value_id : ℕ
  pub false_value_id : ℕ

-- PNJmpBuf. Its copy of the frame shares the frame's values, and has the buffers that follow it in
-- the list as its own, so that a location and a stack top are left. `in_later_chunk` is whether the
-- thread's arena has it in another chunk than the one of the frame's mark, which was made later.
pub record JmpBuf : Type 0 where
  pub id : ℕ
  pub location_inst : ℕ
  pub memory_stack_top : ℕ
  pub in_later_chunk : Bool
  pub is_freed : Bool

-- PNCallFrame, without its values.
pub record CallFrame : Type 0 where
  pub function_id : ℕ
  pub location_inst : ℕ
  pub memory_stack_top : ℕ
  pub jmpbufs : List JmpBuf

-- A reset of the thread's arena to a frame's mark takes back the frame's buffers, which stay in its
-- list.
abbrev pub freed : JmpBuf → JmpBuf
freed buf = record buf { is_freed = true }

abbrev pub release : CallFrame → CallFrame
release frame = record frame { jmpbufs = map freed frame.jmpbufs }

-- A PNFunction of the module: where its instructions start (0 for NULL), and its values.
pub record Function : Type 0 where
  pub instructions : ℕ
  pub num_args : ℕ
  pub num_values : ℕ
  pub constants : List ℕ

-- The values of a module that calls go by: the index of a function, if the value is one.
pub record Module : Type 0 where
  pub functions : List Function
  pub function_index : List (Option ℕ)

pub data ThreadState : Type 0 where
  running blocked dead : ThreadState

-- A thread, whose `thread` holds the values of the current frame, with the frames of its callers and
-- their values up to the sentinel, and what it shares with the others.
pub record Machine : Type 0 where
  pub thread : Thread
  pub frame : CallFrame
  pub callers : List (CallFrame × List ℕ)
  pub memory : Memory
  pub heap_end : ℕ
  pub tls : ℕ
  pub next_jmpbuf_id : ℕ
  pub is_start_thread : Bool
  pub state : ThreadState
  pub exit_code : Option ℕ

-- PN_ARG(n, ty).
abbrev pub arg : Thread → RuntimeCall → ℕ → Scalar → Result ℕ
arg t i n s = do id ← from_option (get_elem? i.arg_ids n); v ← get_value t id; ok (get s v)

-- An intrinsic writes its result and steps over the call.
abbrev pub finish_call : Thread → RuntimeCall → ℕ → Result Thread
finish_call t i value = do
  t' ← set_value t i.result_value_id value
  ok (record t' { inst = t'.inst + sizeof_call i })

abbrev pub skip_call : Thread → RuntimeCall → Thread
skip_call t i = record t { inst = t.inst + sizeof_call i }
