-- ===== src/Builtins/Futex.antt =====
-- src/pn_builtins.h: NACL_IRT_FUTEX_WAIT_ABS and NACL_IRT_FUTEX_WAKE.
pub mod Wake
pub mod Wait
use pnacl_c.Base.{
  ℕ, ◌+◌, ◌/◌, ◌%◌, ◌^◌, Bool, true, false, if◌then◌else◌, ltb, ◌&&◌, ◌==◌, List, [], ◌∷◌, Result,
  ok, ◌>>=◌, ◌>>◌, check,
}
use pnacl_c.Memory.{Memory, read, write}
use pnacl_c.Executor.{Thread}
use pnacl_c.Executor.Fields.{Scalar}
use pnacl_c.Machine.State.{RuntimeCall, ThreadState, arg, num_args}
use pnacl_c.Schedule.{Scheduled}

abbrev pub eagain : ℕ
eagain = 11

abbrev pub etimedout : ℕ
etimedout = 110

-- PNFutexState.
pub data FutexState : Type 0 where
  futex_none futex_woken futex_timedout : FutexState

-- What futexes use of a PNThread.
pub record Waiter : Type 0 where
  pub id : ℕ
  pub state : ThreadState
  pub futex_state : FutexState
  pub wait_addr : ℕ
  pub has_timeout : Bool
  pub timeout_sec : ℕ
  pub timeout_usec : ℕ

abbrev pub is_timedout : FutexState → Bool
is_timedout FutexState.futex_timedout = true
is_timedout _ = false

abbrev pub is_blocked : ThreadState → Bool
is_blocked ThreadState.blocked = true
is_blocked _ = false

-- The thread as the scheduler sees it.
abbrev pub scheduled : Waiter → Scheduled
scheduled t = record {
  id = t.id;
  state = t.state;
  has_timeout = t.has_timeout;
  timeout_sec = t.timeout_sec;
  timeout_usec = t.timeout_usec;
  timed_out = is_timedout t.futex_state;
}

-- The timeout, a timespec of nanoseconds, as seconds and microseconds.
unfoldable pub set_timeout : Memory → ℕ → Waiter → Result Waiter
set_timeout memory abstime_p t =
    if abstime_p == 0
    then ok (record t { has_timeout = false; timeout_sec = 0; timeout_usec = 0 })
    else (do
      sec ← read memory 8 abstime_p
      nsec ← read memory 4 ((abstime_p + 8) % 2 ^ 32)
      ok (record t { has_timeout = true; timeout_sec = sec; timeout_usec = nsec / 1000 }))

-- The switch on the futex's state.
unfoldable pub wait_abs : Memory → ℕ → ℕ → ℕ → Waiter → Result (ℕ × Waiter)
unfolding set_timeout
wait_abs memory addr_p value abstime_p t = elim t.futex_state [
  | FutexState.futex_none ↦ read memory 4 addr_p >>= λ found.
      if found == value
      then (do
        t' ← set_timeout memory abstime_p (record t { wait_addr = addr_p })
        ok (0, record t' { state = ThreadState.blocked }))
      else ok (eagain, t)
  | FutexState.futex_timedout ↦ ok (etimedout, record t { futex_state = FutexState.futex_none })
  | FutexState.futex_woken ↦ ok (0, record t { futex_state = FutexState.futex_none })
]

unfoldable pub irt_futex_wait_abs : Thread → RuntimeCall → Memory → Waiter → Result (ℕ × Waiter)
irt_futex_wait_abs regs i memory t = do
  check (num_args i == 3)
  addr_p ← arg regs i 0 Scalar.u32
  value ← arg regs i 1 Scalar.u32
  abstime_p ← arg regs i 2 Scalar.u32
  wait_abs memory addr_p value abstime_p t

abbrev pub waits : ℕ → Waiter → Bool
waits addr_p t = is_blocked t.state && (t.wait_addr == addr_p)

abbrev pub woken_up : Waiter → Waiter
woken_up t = record t { state = ThreadState.running; futex_state = FutexState.futex_woken }

-- The loop over the threads behind the running one, with the number of those that it has woken.
unfoldable pub wake : ℕ → ℕ → ℕ → List Waiter → List Waiter × ℕ
wake addr_p nwake woken [] = ([], woken)
wake addr_p nwake woken (t ∷ others) =
    let rest = wake addr_p nwake (if waits addr_p t then woken + 1 else woken) others in
    if ltb woken nwake
    then ((if waits addr_p t then woken_up t else t) ∷ rest.0, rest.1)
    else (t ∷ others, woken)

-- With the threads behind the running one in the ring.
unfoldable pub irt_futex_wake :
    Thread → RuntimeCall → Memory → List Waiter → Result (ℕ × Memory × List Waiter)
irt_futex_wake regs i memory others = do
  check (num_args i == 3)
  addr_p ← arg regs i 0 Scalar.u32
  nwake ← arg regs i 1 Scalar.u32
  count_p ← arg regs i 2 Scalar.u32
  let after = wake addr_p nwake 0 others
  memory' ← write memory 4 count_p after.1
  ok (0, memory', after.0)
