-- ===== src/Machine.antt =====
-- src/pn_executor.h: `pn_thread_execute_instruction` on a thread with its frames and the memory, and
-- the quantum of `pn_executor_run_step`.
pub mod State
pub mod Memory
pub mod Atomic
pub mod Frame
pub mod Setjmp
pub mod Returns
pub mod Jumps
pub mod Stack
pub mod Blocks
pub mod Zeros
mod Tests
use pnacl_c.Base.{ℕ, zero, suc, ◌+◌, Bool, true, false, Option, none, some, if◌then◌else◌, ◌==◌}
use pnacl_c.Base.{Result, ok, fatal, ◌>>=◌, ◌>>◌, check}
use pnacl_c.Executor.{
  Thread, RuntimeBinOp, RuntimeCast, RuntimeCmp2, execute_binop, execute_cast, execute_cmp2,
}
use pnacl_c.Executor.Fields.{Scalar, Host, width, make}
use State.{
  RuntimeCall, RuntimePhis, RuntimeAlloca, RuntimeLoad, RuntimeStore, RuntimeBrInt1, RuntimeSwitch,
  RuntimeVselect,
}
use State.{Module, ThreadState, Machine, num_args, invalid_value_id, arg, finish_call, skip_call}
use Memory.{execute_load, execute_store, execute_memcpy, execute_memmove, execute_memset}
use Atomic.{
  RmwOp, execute_cmpxchg, execute_atomic_load, execute_rmw, execute_atomic_store, execute_ctlz,
  execute_cttz,
}
use Frame.{
  Builtins, execute_call, execute_ret, execute_ret_value, execute_alloca, execute_stacksave,
  execute_stackrestore,
}
use Frame.{execute_br, execute_br_int1, execute_switch, execute_vselect}
use Setjmp.{execute_setjmp, execute_longjmp}
use pnacl_c.Memory as SandboxMemory

-- The instructions by what their opcodes do; a field is that of the opcode's type.
pub data Instruction : Type 0 where
  alloca_int32 : RuntimeAlloca → Instruction
  binop : RuntimeBinOp → Instruction
  cast : RuntimeCast → Instruction
  cmp2 : RuntimeCmp2 → Instruction
  br : RuntimePhis → ℕ → Instruction
  br_int1 : RuntimePhis → RuntimeBrInt1 → Instruction
  switch : Scalar → RuntimePhis → RuntimeSwitch → Instruction
  vselect : RuntimeVselect → Instruction
  load : Scalar → RuntimeLoad → Instruction
  store : Scalar → RuntimeStore → Instruction
  call : RuntimeCall → Instruction
  ret unreachable : Instruction
  ret_value : ℕ → Instruction
  memcpy memmove memset fence longjmp setjmp read_tp : RuntimeCall → Instruction
  stackrestore stacksave trap stub : RuntimeCall → Instruction
  cmpxchg atomic_load atomic_store ctlz cttz sqrt : Scalar → RuntimeCall → Instruction
  rmw : RmwOp → Scalar → RuntimeCall → Instruction

-- What the program does not say: the host, what uninitialised storage holds, the module, the
-- decoded instruction stream, the builtins, and whether the thread is the executor's main one.
pub record Program : Type 0 where
  pub host : Host
  pub square_root : ℕ → ℕ → ℕ
  pub junk : ℕ
  pub garbage : ℕ → ℕ
  pub later_chunk : ℕ → Bool
  pub module_of : Module
  pub instruction_at : ℕ → Option Instruction
  pub builtins : Builtins
  pub is_main_thread : Bool

-- A call in the instruction stream, also one of setjmp.
abbrev call_of : Option Instruction → Option RuntimeCall
call_of (some (Instruction.call i)) = some i
call_of (some (Instruction.setjmp i)) = some i
call_of _ = none

abbrev pub call_at : Program → ℕ → Option RuntimeCall
call_at p inst = call_of (p.instruction_at inst)

abbrev pub with_thread : Machine → Result Thread → Result Machine
with_thread m r = r >>= λ t. ok (record m { thread = t })

abbrev pub with_memory : Machine → Result (Thread × SandboxMemory.Memory) → Result Machine
with_memory m r = r >>= λ (t, memory). ok (record m { thread = t; memory = memory })

-- LLVM_NACL_READ_TP, LLVM_SQRT_*, LLVM_TRAP.
unfoldable pub execute_read_tp : ℕ → Machine → RuntimeCall → Result Machine
execute_read_tp junk m i = do
  check (num_args i == 0)
  check (if i.result_value_id == invalid_value_id then false else true)
  with_thread m (finish_call m.thread i (make junk Scalar.u32 m.tls))

unfoldable pub execute_sqrt : Program → Scalar → Machine → RuntimeCall → Result Machine
execute_sqrt p s m i = do
  check (num_args i == 1)
  check (if i.result_value_id == invalid_value_id then false else true)
  value ← arg m.thread i 0 s
  with_thread m (finish_call m.thread i (make p.junk s (p.square_root (width s) value)))

unfoldable pub execute_trap : Machine → RuntimeCall → Result Machine
execute_trap m i = do
  check (num_args i == 0)
  ok (record m { state = ThreadState.dead; exit_code = some 0xffffffff })

unfoldable pub execute : Program → Machine → Instruction → Result Machine
unfolding execute_read_tp execute_sqrt execute_trap
execute p m (Instruction.alloca_int32 i) = execute_alloca p.junk p.is_main_thread m i
execute p m (Instruction.binop i) = with_thread m (execute_binop p.host p.junk m.thread i)
execute p m (Instruction.cast i) = with_thread m (execute_cast p.host p.junk m.thread i)
execute p m (Instruction.cmp2 i) = with_thread m (execute_cmp2 p.host p.junk m.thread i)
execute p m (Instruction.br phis inst) = with_thread m (execute_br m.thread phis inst)
execute p m (Instruction.br_int1 phis i) = with_thread m (execute_br_int1 m.thread phis i)
execute p m (Instruction.switch s phis i) = with_thread m (execute_switch s m.thread phis i)
execute p m (Instruction.vselect i) = with_thread m (execute_vselect m.thread i)
execute p m (Instruction.load s i) = with_thread m (execute_load p.junk s m.thread m.memory i)
execute p m (Instruction.store s i) = with_memory m (execute_store s m.thread m.memory i)
execute p m (Instruction.call i) = execute_call p.garbage p.builtins p.module_of m i
execute p m Instruction.ret = execute_ret (call_at p) m
execute p m Instruction.unreachable = fatal
execute p m (Instruction.ret_value value_id) = execute_ret_value (call_at p) m value_id
execute p m (Instruction.memcpy i) = with_memory m (execute_memcpy m.thread m.memory i)
execute p m (Instruction.memmove i) = with_memory m (execute_memmove m.thread m.memory i)
execute p m (Instruction.memset i) = with_memory m (execute_memset m.thread m.memory i)
execute p m (Instruction.fence i) = ok (record m { thread = skip_call m.thread i })
execute p m (Instruction.longjmp i) = execute_longjmp (call_at p) m i
execute p m (Instruction.setjmp i) = execute_setjmp p.junk (p.later_chunk m.next_jmpbuf_id) m i
execute p m (Instruction.read_tp i) = execute_read_tp p.junk m i
execute p m (Instruction.stackrestore i) = execute_stackrestore m i
execute p m (Instruction.stacksave i) = execute_stacksave p.junk m i
execute p m (Instruction.trap i) = execute_trap m i
execute p m (Instruction.stub i) = fatal
execute p m (Instruction.cmpxchg s i) = with_memory m (execute_cmpxchg p.junk s m.thread m.memory i)
execute p m (Instruction.atomic_load s i) =
    with_thread m (execute_atomic_load p.junk s m.thread m.memory i)
execute p m (Instruction.atomic_store s i) =
    with_memory m (execute_atomic_store s m.thread m.memory i)
execute p m (Instruction.ctlz s i) = with_thread m (execute_ctlz p.junk s m.thread i)
execute p m (Instruction.cttz s i) = with_thread m (execute_cttz p.junk s m.thread i)
execute p m (Instruction.sqrt s i) = execute_sqrt p s m i
execute p m (Instruction.rmw op s i) = with_memory m (execute_rmw p.junk op s m.thread m.memory i)

-- An invalid opcode is fatal.
unfoldable pub execute_instruction : Program → Machine → Result Machine
execute_instruction p m = elim (p.instruction_at m.thread.inst) [
  | none ↦ fatal
  | some i ↦ execute p m i
]

-- PN_FOR_THREAD_QUANTUM, for a quantum that is left.
unfoldable pub run_quantum : ℕ → Program → Machine → Result Machine
run_quantum zero p m = ok m
run_quantum (suc quantum) p m = elim m.state [
  | ThreadState.running ↦ execute_instruction p m >>= λ m'. run_quantum quantum p m'
  | _ ↦ ok m
]
