-- ===== src/Machine/Stack.antt =====
-- What an instruction may do to the frames of the callers.
use pnacl_c.Base.{ℕ, ◌≡◌, List, [], ◌∷◌, ◌++◌, none, some, ◌⊎◌, true}
use pnacl_c.Base.{ok}
use pnacl_c.Memory.{Memory}
use pnacl_c.Machine.State.{CallFrame, JmpBuf, Machine, release}
use pnacl_c.Machine.Setjmp.{find_jmpbuf, Found, reset_frame}
use pnacl_c.Machine.Returns.{here}
use pnacl_c.Machine.{Program, Instruction}

abbrev pub Frames : Type 0
Frames = List (CallFrame × List ℕ)

-- A return: to the caller's frame, which leaves the callers, or from the thread's first frame.
abbrev Pops : Machine → Machine → Type 0
Pops m m' =
    ((m.callers ≡ []) × (m'.callers ≡ []))
    ⊎ ((frame : CallFrame) × (values : List ℕ) × (m.callers ≡ (frame, values) ∷ m'.callers)
        × (m'.frame ≡ release frame))

-- No frame has the buffer.
abbrev AllWithout : ℕ → Frames → Type 0
AllWithout id [] = Unit {0}
AllWithout id ((frame, values) ∷ frames) =
    (find_jmpbuf id frame.jmpbufs ≡ ok none) × AllWithout id frames

-- Of the frames from the running one on, the first that has the buffer, reset, and its callers.
abbrev Unwinds : ℕ → Frames → CallFrame → List ℕ → Frames → Type 0
Unwinds id frames frame' values callers =
    (gone : Frames) × (frame : CallFrame) × (found : JmpBuf × List JmpBuf) × (frames
      ≡ gone ++ (frame, values) ∷ callers)
    × AllWithout id gone
    × (find_jmpbuf id frame.jmpbufs ≡ ok (some found))
    × (frame' ≡ reset_frame frame found)

-- What an instruction does to the frames: a call adds the running one, with its place, unless it is
-- one of a builtin, whose own doing it is; a return and a longjmp take frames away; no other
-- instruction changes the callers.
abbrev pub Stacked : Program → Machine → Instruction → Machine → Type 0
Stacked p m (Instruction.call i) m' =
    (m'.callers ≡ (here m, m.thread.function_values) ∷ m.callers)
    ⊎ ((index : ℕ) × (r : ℕ × Machine) × (i.is_indirect ≡ true)
        × (p.builtins index (record m { frame = here m }) i ≡ ok r)
        × (m'.callers ≡ r.1.callers))
Stacked p m Instruction.ret m' = Pops m m'
Stacked p m (Instruction.ret_value value_id) m' = Pops m m'
Stacked p m (Instruction.longjmp i) m' =
    (id : ℕ) × (values : List ℕ) × Unwinds id ((m.frame, m.thread.function_values) ∷ m.callers)
      m'.frame values m'.callers
Stacked p m _ m' = m'.callers ≡ m.callers

-- The callers stay.
abbrev SameCallers : Machine → Machine → Type 0
SameCallers m m' = m'.callers ≡ m.callers

-- What a search finds.
abbrev Finds : ℕ → Frames → Found → Type 0
Finds id frames none = Unit {0}
Finds id frames (some (frame', values, callers)) = Unwinds id frames frame' values callers
