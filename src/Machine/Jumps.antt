-- ===== src/Machine/Jumps.antt =====
-- setjmp and longjmp together.
use pnacl_c.Base.{
  ℕ, ◌+◌, ◌≡◌, subst, map, both_returned, refl, sym, ap, ◌∙◌, List, [], ◌∷◌, ◌++◌, Option, none,
  some, Bool, false, ◌==◌, inl, inr, Bool-cases,
}
use pnacl_c.Base.{Result, ok, ◌>>=◌, check, get_elem?, ==_iff}
use pnacl_c.Base.{Ensures, done, fault_end, Ensures-any, Ensures-bind, Ensures-ok}
use pnacl_c.Memory.{read, write}
use pnacl_c.Executor.{Thread, get_value}
use pnacl_c.Executor.Registers.{IsLocal, with_value, set_value-IsLocal}
use pnacl_c.Executor.Fields.{Scalar, make}
use pnacl_c.Machine.State.{
  RuntimeCall, CallFrame, JmpBuf, Machine, freed, release, arg, finish_call, num_args, sizeof_call,
  invalid_value_id,
}
use pnacl_c.Machine.Setjmp.{
  Found, find_jmpbuf, unwind, reset_frame, land, execute_setjmp, execute_longjmp,
}

abbrev pub Frames : Type 0
Frames = List (CallFrame × List ℕ)

-- The call stack from `frame` on has `target` somewhere, and no frame before it has the buffer.
pub data Reaches (id : ℕ) (target : CallFrame) (target_values : List ℕ) (target_callers : Frames)
    : CallFrame → List ℕ → Frames → Type 0 where
  here : Reaches id target target_values target_callers target target_values target_callers
  over :
      {frame parent : CallFrame} {values parent_values : List ℕ} {callers : Frames}
      → find_jmpbuf id frame.jmpbufs ≡ ok none
      → Reaches id target target_values target_callers parent parent_values callers
      → Reaches id target target_values target_callers frame values
          ((parent, parent_values) ∷ callers)

pub unwind-Reaches :
    {id : ℕ} {target : CallFrame} {target_values : List ℕ} {target_callers : Frames}
    {found : JmpBuf × List JmpBuf} {frame : CallFrame} {values : List ℕ} {callers : Frames}
    → Reaches id target target_values target_callers frame values callers
    → find_jmpbuf id target.jmpbufs ≡ ok (some found)
    → unwind id frame values callers
      ≡ ok (some (reset_frame target found, target_values, target_callers))
unfolding unwind
unwind-Reaches {target_callers = []} here e = rw (e, unwind)
unwind-Reaches {target_callers = x ∷ r} here e = rw (e, unwind)
unwind-Reaches (over missing r) e = rw (missing, unwind) (unwind-Reaches r e)

-- The buffer that setjmp makes.
abbrev pub new_jmpbuf : Bool → Machine → JmpBuf
new_jmpbuf later m = record {
  id = m.next_jmpbuf_id;
  location_inst = m.thread.inst;
  memory_stack_top = m.frame.memory_stack_top;
  in_later_chunk = later;
  is_freed = false;
}

-- A machine after setjmp: the buffer stands first in the frame's list.
pub record HasSet (later : Bool) (m m' : Machine) : Type 0 where
  pub jmpbufs : m'.frame.jmpbufs ≡ new_jmpbuf later m ∷ m.frame.jmpbufs
  pub callers : m'.callers ≡ m.callers

pub execute_setjmp-HasSet :
    (junk : ℕ) (later : Bool) (m : Machine) (i : RuntimeCall)
    → Ensures (HasSet later m) (execute_setjmp junk later m i)
unfolding execute_setjmp
execute_setjmp-HasSet junk later m i = Ensures-any (check (num_args i == 1)) (λ _.
    Ensures-any (check _) (λ _. Ensures-any (arg m.thread i 0 Scalar.u32) (λ jmpbuf_p.
      Ensures-any (write m.memory 4 jmpbuf_p m.next_jmpbuf_id) (λ memory.
        Ensures-any (finish_call m.thread i (make junk Scalar.u32 0))
          (λ t. done (record { jmpbufs = refl; callers = refl }))))))

-- A call of longjmp with a buffer's number in memory and a value.
pub record Jumps (m : Machine) (i : RuntimeCall) (id value : ℕ) : Type 0 where
  pub two_args : num_args i ≡ 2
  pub no_result : i.result_value_id ≡ invalid_value_id
  pub jmpbuf_p : ℕ
  pub address : arg m.thread i 0 Scalar.u32 ≡ ok jmpbuf_p
  pub value_id : ℕ
  pub second : get_elem? i.arg_ids 1 ≡ some value_id
  pub passed : get_value m.thread value_id ≡ ok value
  pub number : read m.memory 4 jmpbuf_p ≡ ok id

pub execute_longjmp-land :
    (call_at : ℕ → Option RuntimeCall) (m : Machine) (i : RuntimeCall) {id value : ℕ}
    → Jumps m i id value
    → execute_longjmp call_at m i ≡ (
        unwind id m.frame m.thread.function_values m.callers >>= λ found.
        land call_at m value found)
unfolding execute_longjmp
execute_longjmp-land call_at m i j =
    rw (j.two_args, j.no_result, j.address, j.second, j.passed, j.number) refl

-- Buffers that were pushed later are passed over.
pub find_jmpbuf-++ :
    (id : ℕ) (newer bufs : List JmpBuf)
    → find_jmpbuf id newer ≡ ok none
    → find_jmpbuf id (newer ++ bufs) ≡ find_jmpbuf id bufs
unfolding find_jmpbuf
find_jmpbuf-++ id [] bufs e = refl
find_jmpbuf-++ id (buf ∷ newer) bufs e = elim (Bool-cases buf.is_freed) [
  | inl freed ↦ cc
  | inr alive ↦ elim (Bool-cases (buf.id == id)) [
    | inl same ↦ elim (Bool-cases buf.in_later_chunk) [
      | inl later ↦ (let q = rw (alive, same, later) at e in cc)
      | inr near ↦ (let q = rw (alive, same, near) at e in cc)
    ]
    | inr other ↦ rw (alive, other) (find_jmpbuf-++ id newer bufs (rw (alive, other) at e))
  ]
]

find_jmpbuf-newer :
    (m : Machine) (newer : List JmpBuf)
    → find_jmpbuf m.next_jmpbuf_id newer ≡ ok none
    → find_jmpbuf m.next_jmpbuf_id (newer ++ (new_jmpbuf false m ∷ m.frame.jmpbufs))
      ≡ ok (some (new_jmpbuf false m, m.frame.jmpbufs))
unfolding find_jmpbuf
find_jmpbuf-newer m newer fresh =
    find_jmpbuf-++ m.next_jmpbuf_id newer _ fresh
    ∙ rw ((==_iff m.next_jmpbuf_id m.next_jmpbuf_id).1 refl) refl

find_jmpbuf-freed :
    (id : ℕ) (bufs : List JmpBuf)
    → Ensures (λ found. found ≡ none) (find_jmpbuf id (map freed bufs))
unfolding find_jmpbuf
find_jmpbuf-freed id [] = done refl
find_jmpbuf-freed id (buf ∷ bufs) = fault_end

-- A step of the search, by what the frame has.
abbrev pub search_on :
    CallFrame → List ℕ → Frames → Result Found → Option (JmpBuf × List JmpBuf) → Result Found
search_on frame values callers rest o = elim o [
  | none ↦ rest
  | some found ↦ ok (some (reset_frame frame found, values, callers))
]

search_on-none :
    (frame : CallFrame) (values : List ℕ) (callers : Frames) (rest : Result Found)
    (o : Option (JmpBuf × List JmpBuf))
    → search_on frame values callers rest o ≡ ok none
    → rest ≡ ok none
search_on-none frame values callers rest none e = e
search_on-none frame values callers rest (some found) e = cc

search_on-Ensures :
    (frame : CallFrame) (values : List ℕ) (callers : Frames) {rest : Result Found}
    (o : Option (JmpBuf × List JmpBuf))
    → o ≡ none
    → Ensures (λ found. found ≡ none) rest
    → Ensures (λ found. found ≡ none) (search_on frame values callers rest o)
search_on-Ensures frame values callers none e h = h
search_on-Ensures frame values callers (some found) e h = cc

-- Where no frame had the buffer, a search from the first frame with its buffers freed finds none.
pub unwind-release :
    (id : ℕ) (frame frame' : CallFrame) (values values' : List ℕ) (callers : Frames)
    → frame'.jmpbufs ≡ (release frame).jmpbufs
    → unwind id frame values callers ≡ ok none
    → Ensures (λ found. found ≡ none) (unwind id frame' values' callers)
unfolding unwind
unwind-release id frame frame' values values' [] same e =
    Ensures-bind
      (subst (λ bufs. Ensures (λ found. found ≡ none) (find_jmpbuf id bufs)) (sym same)
        (find_jmpbuf-freed id frame.jmpbufs))
      (λ o h. search_on-Ensures frame' values' [] o h (done refl))
unwind-release id frame frame' values values' ((parent, parent_values) ∷ callers) same e =
    Ensures-bind
      (subst (λ bufs. Ensures (λ found. found ≡ none) (find_jmpbuf id bufs)) (sym same)
        (find_jmpbuf-freed id frame.jmpbufs))
      (λ o h.
        search_on-Ensures frame' values' ((parent, parent_values) ∷ callers) o h
          (subst (λ r. Ensures (λ found. found ≡ none) r) (sym rest) (done refl)))
  where
    first :
        (mid : Option (JmpBuf × List JmpBuf)) × (find_jmpbuf id frame.jmpbufs ≡ ok mid)
        × (search_on frame values
              ((parent, parent_values) ∷ callers)
              (unwind id parent parent_values callers)
              mid
            ≡ ok none)
    first =
        both_returned (find_jmpbuf id frame.jmpbufs)
          (search_on frame values ((parent, parent_values) ∷ callers)
            (unwind id parent parent_values callers))
          e

    rest : unwind id parent parent_values callers ≡ ok none
    rest =
        search_on-none frame values ((parent, parent_values) ∷ callers)
          (unwind id parent parent_values callers) first.0 first.2

module _ (junk : ℕ) (call_at : ℕ → Option RuntimeCall) (m m1 m2 : Machine) (i j : RuntimeCall)
    (target : CallFrame) (target_values : List ℕ) (newer : List JmpBuf) (value : ℕ) where
  -- After a setjmp whose buffer fits in the chunk of the frame's mark, a longjmp with its number finds the frame that called setjmp below any number of
  -- later frames without that number, and behind any later buffers of that frame, and lands: the
  -- thread goes on behind the call of setjmp, whose result is the value, in the values that the
  -- frame has by now; the frame has the location, the stack top and the buffers from before the
  -- setjmp, whose storage the arena has taken back, its callers are those of the setjmp, and the
  -- memory is as it was at the longjmp.
  pub execute_longjmp-execute_setjmp :
      execute_setjmp junk false m i ≡ ok m1
      → call_at m.thread.inst ≡ some i
      → target.jmpbufs ≡ newer ++ m1.frame.jmpbufs
      → find_jmpbuf m.next_jmpbuf_id newer ≡ ok none
      → Reaches m.next_jmpbuf_id target target_values m.callers m2.frame m2.thread.function_values
          m2.callers
      → IsLocal (record m2.thread { function_values = target_values }) i.result_value_id
      → Jumps m2 j m.next_jmpbuf_id value
      → (m3 : Machine) × (execute_longjmp call_at m2 j ≡ ok m3)
        × (m3.thread
            ≡ record (with_value
                (record m2.thread { function_values = target_values })
                i.result_value_id
                value) { inst = m.thread.inst + sizeof_call i })
        × (m3.frame
            ≡ release (record target {
              location_inst = m.thread.inst;
              memory_stack_top = m.frame.memory_stack_top;
              jmpbufs = m.frame.jmpbufs;
            }))
        × (m3.callers ≡ m.callers)
        × (m3.memory ≡ m2.memory)
  unfolding land
  execute_longjmp-execute_setjmp set at held fresh reaches local jumps = (
    record m2 {
      thread = record (with_value t i.result_value_id value) {
        inst = m.thread.inst + sizeof_call i;
      };
      frame = reset_frame target (new_jmpbuf false m, m.frame.jmpbufs);
      callers = m.callers;
    },
    execute_longjmp-land call_at m2 j jumps
        ∙ ap (λ u. u >>= λ found. land call_at m2 value found) (unwind-Reaches reaches found)
        ∙ rw (at, set_value-IsLocal t i.result_value_id value local) refl,
    refl,
    refl,
    refl,
    refl,
  )
    where
      t : Thread
      t = record m2.thread { function_values = target_values }

      after : HasSet false m m1
      after = Ensures-ok (execute_setjmp-HasSet junk false m i) set

      found :
          find_jmpbuf m.next_jmpbuf_id target.jmpbufs
          ≡ ok (some (new_jmpbuf false m, m.frame.jmpbufs))
      found =
          ap (find_jmpbuf m.next_jmpbuf_id) (held ∙ ap (λ bufs. newer ++ bufs) after.jmpbufs)
          ∙ find_jmpbuf-newer m newer fresh
