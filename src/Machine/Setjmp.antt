-- ===== src/Machine/Setjmp.antt =====
-- LLVM_NACL_SETJMP and LLVM_NACL_LONGJMP.
use pnacl_c.Base.{
  ℕ, ◌+◌, ◌%◌, ◌^◌, ◌==◌, if◌then◌else◌, Bool, true, false, List, [], ◌∷◌, Option, none, some,
}
use pnacl_c.Base.{Result, ok, fatal, fault, ◌>>=◌, ◌>>◌, check, from_option, get_elem?}
use pnacl_c.Memory.{read, write}
use pnacl_c.Executor.{get_value, set_value}
use pnacl_c.Executor.Fields.{Scalar, make}
use pnacl_c.Machine.State.{
  RuntimeCall, JmpBuf, CallFrame, Machine, release, num_args, sizeof_call, invalid_value_id, arg,
  finish_call,
}

-- The buffer is pushed on the frame's list, with a copy of the frame as it was before; the arena
-- has put it in a later chunk than its frame's mark, or not.
unfoldable pub execute_setjmp : ℕ → Bool → Machine → RuntimeCall → Result Machine
execute_setjmp junk later m i = do
  check (num_args i == 1)
  check (if i.result_value_id == invalid_value_id then false else true)
  jmpbuf_p ← arg m.thread i 0 Scalar.u32
  let buf : JmpBuf = record {
    id = m.next_jmpbuf_id;
    location_inst = m.thread.inst;
    memory_stack_top = m.frame.memory_stack_top;
    in_later_chunk = later;
    is_freed = false;
  }
  memory ← write m.memory 4 jmpbuf_p m.next_jmpbuf_id
  t ← finish_call m.thread i (make junk Scalar.u32 0)
  ok (record m {
    thread = t;
    frame = record m.frame { location_inst = m.thread.inst; jmpbufs = buf ∷ m.frame.jmpbufs };
    memory = memory;
    next_jmpbuf_id = (m.next_jmpbuf_id + 1) % 2 ^ 32;
  })

-- A buffer among those of a frame, and the buffers behind it. The arena may have handed out the
-- storage of a freed one to others; and when the buffer is found, the arena is reset to the frame's
-- mark, which gives later chunks back to the host, before the copy of the frame is read from it.
unfoldable pub find_jmpbuf : ℕ → List JmpBuf → Result (Option (JmpBuf × List JmpBuf))
find_jmpbuf id [] = ok none
find_jmpbuf id (buf ∷ bufs) =
    if buf.is_freed
    then fault
    else (if buf.id == id
        then (if buf.in_later_chunk then fault else ok (some (buf, bufs)))
        else find_jmpbuf id bufs)

-- The frame as its copy in the buffer has it, after a reset of the arena to its mark.
abbrev pub reset_frame : CallFrame → JmpBuf × List JmpBuf → CallFrame
reset_frame frame (buf, bufs) = release (record frame {
  location_inst = buf.location_inst;
  memory_stack_top = buf.memory_stack_top;
  jmpbufs = bufs;
})

abbrev pub Found : Type 0
Found = Option (CallFrame × List ℕ × List (CallFrame × List ℕ))

-- The search down the call stack, from the current frame to the sentinel.
unfoldable pub unwind : ℕ → CallFrame → List ℕ → List (CallFrame × List ℕ) → Result Found
unfolding find_jmpbuf
unwind id frame values [] = find_jmpbuf id frame.jmpbufs >>= λ o. elim o [
  | none ↦ ok none
  | some found ↦ ok (some (reset_frame frame found, values, []))
]
unwind id frame values ((parent, parent_values) ∷ callers) = find_jmpbuf id frame.jmpbufs >>= λ o.
    elim o [
      | none ↦ unwind id parent parent_values callers
      | some found ↦ ok (some (reset_frame frame found, values, (parent, parent_values) ∷ callers))
    ]

-- The call of setjmp returns once more, with the value; without a buffer the program ends.
unfoldable pub land : (ℕ → Option RuntimeCall) → Machine → ℕ → Found → Result Machine
land call_at m value none = fatal
land call_at m value (some (frame, values, callers)) = do
  c ← from_option (call_at frame.location_inst)
  t ← set_value (record m.thread { function_values = values }) c.result_value_id value
  ok (record m {
    thread = record t { inst = frame.location_inst + sizeof_call c };
    frame = frame;
    callers = callers;
  })

unfoldable pub execute_longjmp : (ℕ → Option RuntimeCall) → Machine → RuntimeCall → Result Machine
unfolding unwind land
execute_longjmp call_at m i = do
  check (num_args i == 2)
  check (i.result_value_id == invalid_value_id)
  jmpbuf_p ← arg m.thread i 0 Scalar.u32
  value_id ← from_option (get_elem? i.arg_ids 1)
  value ← get_value m.thread value_id
  id ← read m.memory 4 jmpbuf_p
  found ← unwind id m.frame m.thread.function_values m.callers
  land call_at m value found
