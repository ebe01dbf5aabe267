-- ===== src/Schedule.antt =====
-- src/pn_executor.h: what `pn_executor_run_step` does behind the quantum, in a build without PPAPI:
-- a dead thread leaves the ring, and the next one that may run is looked for.
pub mod Fair
mod Tests
use pnacl_c.Base.{
  ℕ, zero, suc, Bool, true, false, ◌&&◌, ◌||◌, not, if◌then◌else◌, ltb, ◌==◌, List, [], ◌∷◌, ◌++◌,
  Option, none, some,
}
use pnacl_c.Base.{Result, ok, fault, stuck, ◌>>=◌, ◌>>◌, assert}
use pnacl_c.Machine.State.{ThreadState}

-- What the scheduler looks at in a PNThread; `timed_out` is that of its futex.
pub record Scheduled : Type 0 where
  pub id : ℕ
  pub state : ThreadState
  pub has_timeout : Bool
  pub timeout_sec : ℕ
  pub timeout_usec : ℕ
  pub timed_out : Bool

-- The circular list of the threads from the running one on, and the list of the dead ones.
pub record Threads : Type 0 where
  pub ring : List Scheduled
  pub dead_threads : List Scheduled
  pub exiting : Bool
  pub start_thread_id : ℕ

-- Whether the time is past the thread's timeout.
abbrev pub expired : Scheduled → ℕ × ℕ → Bool
expired t (tv_sec, tv_usec) =
    t.has_timeout
    && (ltb t.timeout_sec tv_sec || ((tv_sec == t.timeout_sec) && ltb t.timeout_usec tv_usec))

abbrev pub time_out : Scheduled → Scheduled
time_out t = record t { state = ThreadState.running; timed_out = true }

-- The loop, by the number of looks at a thread; `clock` is what gettimeofday says at each of them.
unfoldable pub schedule : ℕ → (ℕ → ℕ × ℕ) → List Scheduled → Result (List Scheduled)
schedule looks clock [] = fault
schedule zero clock (t ∷ ring) = stuck
schedule (suc looks) clock (t ∷ ring) = elim t.state [
  | ThreadState.running ↦ ok (t ∷ ring)
  | ThreadState.blocked ↦
      let rest = schedule looks (λ n. clock (suc n)) (ring ++ t ∷ []) in
      if expired t (clock 0) then ok (time_out t ∷ ring) else rest
  | ThreadState.dead ↦ fault
]

abbrev pub is_dead : ThreadState → Bool
is_dead ThreadState.dead = true
is_dead _ = false

-- The ring without the thread, or with it as the last one. A ring of one dead thread comes back to
-- that thread, which the loop's assert catches.
unfoldable pub next_threads : ℕ → (ℕ → ℕ × ℕ) → Threads → Result (Option Threads)
unfolding schedule
next_threads looks clock threads = if threads.exiting then ok none else elim threads.ring [
  | [] ↦ fault
  | ◌∷◌ t others ↦
      if is_dead t.state
      then (do
        assert (not (t.id == threads.start_thread_id))
        ring ← schedule looks clock others
        ok (some (record threads { ring = ring; dead_threads = t ∷ threads.dead_threads })))
      else (do
        ring ← schedule looks clock (others ++ t ∷ [])
        ok (some (record threads { ring = ring })))
]
