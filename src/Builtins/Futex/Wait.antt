-- ===== src/Builtins/Futex/Wait.antt =====
-- A wait, and how it ends: by a wake, or by its timeout.
use pnacl_c.Base.{
  ℕ, zero, suc, ◌+◌, ◌*◌, ◌/◌, ◌%◌, ◌^◌, ◌<◌, ◌≡◌, ◌≢◌, ◌↔◌, refl, true, false, arith, List, ◌∷◌,
  ◌++◌, length, get_elem?, some, ◌==◌, ==_iff, ok, ◌&&◌, ◌||◌, ltb,
}
use pnacl_c.Memory.{Memory, read}
use pnacl_c.Machine.State.{ThreadState}
use pnacl_c.Schedule.{expired, time_out}
use pnacl_c.Builtins.Futex.{
  Waiter, FutexState, woken_up, wake, wait_abs, etimedout, set_timeout, scheduled,
}
use pnacl_c.Builtins.Futex.Wake.{waiters, wake-reached}

-- The thread that has begun to wait.
abbrev pub waiting : ℕ → Waiter → Waiter
waiting addr_p t = record t {
  state = ThreadState.blocked;
  wait_addr = addr_p;
  has_timeout = false;
  timeout_sec = 0;
  timeout_usec = 0;
}

-- The thread that runs again with no wait left.
abbrev pub resumed : Waiter → Waiter
resumed t = record t { state = ThreadState.running; futex_state = FutexState.futex_none }

==_refl : (n : ℕ) → (n == n) ≡ true
==_refl n = (==_iff n n).1 refl

not_null : (p : ℕ) → p ≢ 0 → (p == 0) ≡ false
not_null zero h = absurd (h refl)
not_null (suc p) h = ground arith

-- The scheduler's test is that of a time in microseconds.
later :
    (sec usec tv_sec tv_usec : ℕ)
    → usec < 10 ^ 6
    → tv_usec < 10 ^ 6
    → ((ltb sec tv_sec || ((tv_sec == sec) && ltb usec tv_usec)) ≡ true)
      ↔ (sec * 10 ^ 6 + usec < tv_sec * 10 ^ 6 + tv_usec)
later sec usec tv_sec tv_usec h k = ground arith

-- A wait without a timeout on a word that still has the expected value blocks the thread. A wake at
-- the address by another thread, with fewer than `nwake` waiting threads before this one, sets it
-- running, and its call then gives 0, whatever the memory has become.
pub wait_abs-wake :
    (memory : Memory) (addr_p value nwake : ℕ) (t : Waiter) (before behind : List Waiter)
    (memory' : Memory)
    → t.futex_state ≡ FutexState.futex_none
    → read memory 4 addr_p ≡ ok value
    → length (waiters addr_p before) < nwake
    → (wait_abs memory addr_p value 0 t ≡ ok (0, waiting addr_p t))
      × (get_elem? (wake addr_p nwake 0 (before ++ waiting addr_p t ∷ behind)).0 (length before)
          ≡ some (woken_up (waiting addr_p t)))
      × (wait_abs memory' addr_p value 0 (woken_up (waiting addr_p t))
          ≡ ok (0, resumed (waiting addr_p t)))
unfolding wait_abs set_timeout
wait_abs-wake memory addr_p value nwake t before behind memory' idle found room = (
  rw (idle, found, ==_refl value) refl,
  wake-reached addr_p nwake 0 before (waiting addr_p t) behind (==_refl addr_p) (omega arith),
  refl,
)

-- A thread that waits with a timeout.
abbrev pub waiting_until : ℕ → ℕ → ℕ → Waiter → Waiter
waiting_until addr_p sec nsec t = record t {
  state = ThreadState.blocked;
  wait_addr = addr_p;
  has_timeout = true;
  timeout_sec = sec;
  timeout_usec = nsec / 1000;
}

-- The scheduler's timeout of a thread, in the states of futexes.
abbrev pub timed_out : Waiter → Waiter
timed_out t = record t { state = ThreadState.running; futex_state = FutexState.futex_timedout }

-- A wait with a timeout on a word that still has the expected value blocks the thread until the
-- clock is past the timeout, in microseconds. Then the scheduler sets it running, and its call gives
-- ETIMEDOUT.
pub wait_abs-timeout :
    (memory : Memory) (addr_p value abstime_p sec nsec : ℕ) (t : Waiter) (tv_sec tv_usec : ℕ)
    (memory' : Memory)
    → t.futex_state ≡ FutexState.futex_none
    → read memory 4 addr_p ≡ ok value
    → abstime_p ≢ 0
    → read memory 8 abstime_p ≡ ok sec
    → read memory 4 ((abstime_p + 8) % 2 ^ 32) ≡ ok nsec
    → nsec < 10 ^ 9
    → tv_usec < 10 ^ 6
    → let t' = waiting_until addr_p sec nsec t in
      (wait_abs memory addr_p value abstime_p t ≡ ok (0, t'))
      × ((expired (scheduled t') (tv_sec, tv_usec) ≡ true)
          ↔ (sec * 10 ^ 6 + nsec / 1000 < tv_sec * 10 ^ 6 + tv_usec))
      × (time_out (scheduled t') ≡ scheduled (timed_out t'))
      × (wait_abs memory' addr_p value abstime_p (timed_out t') ≡ ok (etimedout, resumed t'))
unfolding wait_abs set_timeout
wait_abs-timeout memory addr_p value abstime_p sec nsec t tv_sec tv_usec memory' idle found
      some_time secs nsecs small small' =
    (
      rw (idle, found, ==_refl value, not_null abstime_p some_time, secs, nsecs) refl,
      later sec (nsec / 1000) tv_sec tv_usec (omega arith) small',
      refl,
      refl,
    )
