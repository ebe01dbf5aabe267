-- ===== src/Machine/Returns.antt =====
-- A call and the return from it.
use pnacl_c.Base.{ℕ, ◌+◌, ◌≡◌, refl, ◌∙◌, ◌∷◌, Option, some, ◌==◌, inl, inr, Bool-cases}
use pnacl_c.Base.{ok, from_option, get_elem?}
use pnacl_c.Base.{Ensures, done, fatal_end, Ensures-any, Ensures-bind, Ensures-ok}
use pnacl_c.Executor.{Thread, get_value, num_values}
use pnacl_c.Executor.Registers.{IsLocal, with_value, set_value-IsLocal}
use pnacl_c.Machine.State.{RuntimeCall, CallFrame, Module, Function, Machine, release, sizeof_call}
use pnacl_c.Machine.Frame.{
  set_constants, push_function, set_args, callee, call_function, ret_value_to, execute_ret_value,
}

-- The frames of a machine that has called a function from `m`.
pub record Called (frame : CallFrame) (m m' : Machine) : Type 0 where
  pub callers : m'.callers ≡ (frame, m.thread.function_values) ∷ m.callers
  pub stack : m'.frame.memory_stack_top ≡ m.frame.memory_stack_top
  pub memory : m'.memory ≡ m.memory

pub push_function-Called :
    (garbage : ℕ → ℕ) (m : Machine) (function_id : ℕ) (f : Function)
    → Ensures (Called m.frame m) (push_function garbage m function_id f)
unfolding push_function
push_function-Called garbage m function_id f = elim (Bool-cases (f.instructions == 0)) [
  | inl e ↦ rw e fatal_end
  | inr e ↦ rw e (
      Ensures-any (set_constants _ _ f.constants)
        (λ t. done (record { callers = refl; stack = refl; memory = refl })))
]

-- The frame of the caller remembers where it was.
abbrev pub here : Machine → CallFrame
here m = record m.frame { location_inst = m.thread.inst }

pub call_function-Called :
    (garbage : ℕ → ℕ) (p : Module) (m : Machine) (i : RuntimeCall)
    → Ensures (Called (here m) m) (call_function garbage p m i)
unfolding call_function
call_function-Called garbage p m i = Ensures-any (callee p m i) (λ function_id.
    Ensures-any (from_option (get_elem? p.functions function_id)) (λ f.
      Ensures-bind (push_function-Called garbage (record m { frame = here m }) function_id f)
        (λ m' c.
          Ensures-any (set_args m.thread m'.thread (num_values m.thread) i.arg_ids)
            (λ t. done (record { callers = c.callers; stack = c.stack; memory = c.memory })))))

module _ (garbage : ℕ → ℕ) (p : Module) (call_at : ℕ → Option RuntimeCall) (m : Machine)
    (i : RuntimeCall) (m1 m2 : Machine) (value_id value : ℕ) where
  -- A function that was called from `m`, with callee `m1`, and runs until its frame is the top one
  -- again, with the caller's frames as they were (`m2`), returns a value that can be read to the
  -- call: the caller's frame, stack top and other frames are those before the call, but that the
  -- arena has taken back the storage of the caller's jump buffers; its result is the value and
  -- nothing else of its values has changed, it goes on behind the call, and the memory is what the
  -- callee left.
  pub execute_ret_value-call_function :
      call_function garbage p m i ≡ ok m1
      → m2.callers ≡ m1.callers
      → m2.thread.module_values ≡ m.thread.module_values
      → get_value m2.thread value_id ≡ ok value
      → call_at m.thread.inst ≡ some i
      → IsLocal m.thread i.result_value_id
      → (m3 : Machine) × (execute_ret_value call_at m2 value_id ≡ ok m3)
        × (m3.thread ≡ record (with_value m.thread i.result_value_id value) {
          inst = m.thread.inst + sizeof_call i;
        })
        × (m3.frame ≡ release (here m))
        × (m3.callers ≡ m.callers)
        × (m3.memory ≡ m2.memory)
  unfolding execute_ret_value
  execute_ret_value-call_function called same globals read at local = (
    record m2 {
      thread = record (with_value m.thread i.result_value_id value) {
        inst = m.thread.inst + sizeof_call i;
      };
      frame = release (here m);
      callers = m.callers;
    },
    rw (
      read,
      ret_value_to,
      same ∙ frames.callers,
      at,
      globals,
      set_value-IsLocal resumed i.result_value_id value local,
    ),
    refl,
    refl,
    refl,
    refl,
  )
    where
      frames : Called (here m) m m1
      frames = Ensures-ok (call_function-Called garbage p m i) called

      resumed : Thread
      resumed = record m.thread { inst = m2.thread.inst }
