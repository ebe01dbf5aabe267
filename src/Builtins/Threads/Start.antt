-- ===== src/Builtins/Threads/Start.antt =====
-- A new thread.
use native.Mathlib.Nat.{mod-eq_of_lt}
use pnacl_c.Base.{
  Option, none, from_option, ℕ, zero, suc, subst, ◌+◌, ◌-◌, ◌%◌, ◌^◌, ◌<◌, ◌≡◌, ◌≢◌, refl, ◌∙◌,
  arith, true, inl, inr, List, [], ◌∷◌, map, get_elem?, length, some, ◌==◌, Bool-cases, leb, ltb,
  check, ok,
}
use pnacl_c.Base.{
  Ensures, done, fatal_end, fault_end, assert, Ensures-any, Ensures-bind, Ensures-weaken,
}
use pnacl_c.Memory.{max_builtins, function_pointer_to_index}
use pnacl_c.Machine.State.{RuntimeCall, Module, Machine, Function, ThreadState, arg, num_args}
use pnacl_c.Machine.Frame.{push_function, set_constants}
use pnacl_c.Executor.{Thread, set_value, num_values}
use pnacl_c.Executor.Fields.{Scalar}
use pnacl_c.Builtins.Threads.{Threading, new_thread, first_frame, irt_thread_create}

-- A list of ids below a bound, none of them twice.
pub data Fresh (bound : ℕ) : List ℕ → Type 0 where
  no_ids : Fresh bound []
  next_id :
      {id : ℕ} {ids : List ℕ}
      → id < bound
      → ((k : ℕ) → get_elem? ids k ≢ some id)
      → Fresh bound ids
      → Fresh bound (id ∷ ids)

abbrev pub ids : Threading → List ℕ
ids s = s.running_id ∷ map (λ (t : ℕ × Machine). t.0) s.others

-- What a new thread starts with.
pub record Starts (m : Machine) (f : Function) (stack_p thread_p : ℕ) (t : Machine) : Type 0 where
  pub inst : t.thread.inst ≡ f.instructions
  pub stack : t.frame.memory_stack_top ≡ stack_p
  pub tls : t.tls ≡ thread_p
  pub state : t.state ≡ ThreadState.running
  pub no_callers : t.callers ≡ []
  pub same_memory : t.memory ≡ m.memory
  pub not_main : t.is_start_thread ≢ true

set_value-inst : (t : Thread) (i v : ℕ) → Ensures (λ t'. t'.inst ≡ t.inst) (set_value t i v)
unfolding set_value
set_value-inst t i v =
    Ensures-any (assert (leb (num_values t) i)) (λ _.
      Ensures-any (assert (ltb (i - num_values t) (length t.function_values))) (λ _. done refl))

set_constants-inst :
    (t : Thread) (i : ℕ) (values : List ℕ)
    → Ensures (λ t'. t'.inst ≡ t.inst) (set_constants t i values)
unfolding set_constants
set_constants-inst t i [] = done refl
set_constants-inst t i (v ∷ values) =
    Ensures-bind (set_value-inst t i v)
      (λ t' same. Ensures-weaken (λ t'' same'. same' ∙ same) (set_constants-inst t' (i + 1) values))

push_function-Starts :
    (garbage : ℕ → ℕ) (m : Machine) (function_id : ℕ) (f : Function) (stack_p thread_p : ℕ)
    → Ensures
        (λ t. Starts m f stack_p thread_p (first_frame t stack_p))
        (push_function garbage (new_thread m thread_p) function_id f)
unfolding push_function
push_function-Starts garbage m function_id f stack_p thread_p =
    elim (Bool-cases (f.instructions == 0)) [
      | inl e ↦ rw e fatal_end
      | inr e ↦ rw e (
          Ensures-bind (set_constants-inst _ _ f.constants) (λ t same. done record {
            inst = same;
            stack = refl;
            tls = refl;
            state = refl;
            no_callers = refl;
            same_memory = refl;
            not_main = λ e. cc;
          }))
    ]

Ensures-from_option : {A : Type 0} (o : Option A) → Ensures (λ a. o ≡ some a) (from_option o)
Ensures-from_option (some a) = done refl
Ensures-from_option none = fault_end

-- The new thread goes behind the running one, with an id that no other thread of the ring has.
pub record Started (s : Threading) (p : Module) (start_func_p stack_p thread_p : ℕ)
    (r : ℕ × Threading) : Type 0 where
  pub function : Function
  pub found :
      get_elem? p.functions (function_pointer_to_index start_func_p - max_builtins) ≡ some function
  pub started : Machine
  pub linked : r.1.others ≡ (s.next_thread_id, started) ∷ s.others
  pub starts : Starts s.running function stack_p thread_p started
  pub same_running : (r.1.running ≡ s.running) × (r.1.running_id ≡ s.running_id)
  pub fresh : Fresh r.1.next_thread_id (ids r.1)

Fresh-below :
    {bound : ℕ} {l : List ℕ} (k id : ℕ) → Fresh bound l → get_elem? l k ≡ some id → id < bound
Fresh-below k id no_ids e = cc
Fresh-below {bound} zero id (next_id below other fresh) e = subst (λ (n : ℕ). n < bound) (cc) below
Fresh-below (suc k) id (next_id below other fresh) e = Fresh-below k id fresh e

Fresh-raise : {bound : ℕ} {l : List ℕ} → Fresh bound l → Fresh (bound + 1) l
Fresh-raise no_ids = no_ids
Fresh-raise (next_id below other fresh) = next_id (omega arith) other (Fresh-raise fresh)

-- A new id behind the first one.
Fresh-insert :
    {bound id : ℕ} {l : List ℕ} → Fresh bound (id ∷ l) → Fresh (bound + 1) (id ∷ bound ∷ l)
Fresh-insert {bound} {id} {l} (next_id below other fresh) = next_id (omega arith) apart (
    next_id (omega arith) (λ k e. absurd (omega (arith, Fresh-below k bound fresh e)))
      (Fresh-raise fresh))
  where
    same : some bound ≡ some id → bound ≡ id
    same e = cc

    apart : (k : ℕ) → get_elem? (bound ∷ l) k ≢ some id
    apart zero e = absurd (omega (arith, below, same e))
    apart (suc k) e = other k e

-- A call for a new thread that returns, in a ring of threads with different ids below the next one,
-- puts one behind the running thread, at the first instruction of the function with the stack and
-- the thread pointer that were asked for, and the ids are still different.
pub irt_thread_create-Started :
    (garbage : ℕ → ℕ) (p : Module) (i : RuntimeCall) (s : Threading)
    (start_func_p stack_p thread_p : ℕ)
    → arg s.running.thread i 0 Scalar.u32 ≡ ok start_func_p
    → arg s.running.thread i 1 Scalar.u32 ≡ ok stack_p
    → arg s.running.thread i 2 Scalar.u32 ≡ ok thread_p
    → s.next_thread_id + 1 < 2 ^ 32
    → Fresh s.next_thread_id (ids s)
    → Ensures (Started s p start_func_p stack_p thread_p) (irt_thread_create garbage p i s)
unfolding irt_thread_create
irt_thread_create-Started garbage p i s start_func_p stack_p thread_p e0 e1 e2 room fresh =
    rw (e0, e1, e2)
      (Ensures-any (check (num_args i == 3)) (λ _.
        Ensures-any (check (leb max_builtins (function_pointer_to_index start_func_p))) (λ _.
          Ensures-any
            (check
              (ltb (function_pointer_to_index start_func_p - max_builtins) (length p.functions)))
            (λ _.
              Ensures-bind
                (Ensures-from_option
                  (get_elem? p.functions (function_pointer_to_index start_func_p - max_builtins)))
                (λ f found.
                  Ensures-bind
                    (push_function-Starts garbage s.running
                      (function_pointer_to_index start_func_p - max_builtins) f stack_p thread_p)
                    (λ t starts. done record {
                      function = f;
                      found = found;
                      started = first_frame t stack_p;
                      linked = refl;
                      starts = starts;
                      same_running = (refl, refl);
                      fresh = all_fresh;
                    }))))))
  where
    all_fresh :
        Fresh
          ((s.next_thread_id + 1) % 2 ^ 32)
          (s.running_id ∷ s.next_thread_id ∷ map (λ (t : ℕ × Machine). t.0) s.others)
    all_fresh = rw (mod-eq_of_lt room) (Fresh-insert fresh)
