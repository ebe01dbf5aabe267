-- ===== src/Schedule/Tests.antt =====
-- Three threads: the one that ran, one that waits without a timeout, and one that can run.
use pnacl_c.Base.{
  ℕ, ◌≡◌, refl, arith, true, false, List, [], ◌∷◌, ◌++◌, length, some, if◌then◌else◌,
}
use pnacl_c.Base.{ok, fault}
use pnacl_c.Machine.State.{ThreadState}
use pnacl_c.Schedule.{Scheduled, Threads, schedule, next_threads, is_dead, time_out}
use pnacl_c.Schedule.Fair.{AllBlocked, AllWaiting, GoesOn, wake, next_threads-fair}

abbrev thread : ℕ → ThreadState → Scheduled
thread id state = record {
  id = id;
  state = state;
  has_timeout = false;
  timeout_sec = 0;
  timeout_usec = 0;
  timed_out = false;
}

abbrev ran : Scheduled
ran = thread 2 ThreadState.dead

abbrev waiter : Scheduled
waiter = thread 3 ThreadState.blocked

abbrev ready : Scheduled
ready = thread 1 ThreadState.running

abbrev threads : Threads
threads = record {
  ring = ran ∷ waiter ∷ ready ∷ [];
  dead_threads = [];
  exiting = false;
  start_thread_id = 1;
}

next_test :
    next_threads 2 (λ n. (n, 0)) threads
    ≡ ok (some (record threads { ring = ready ∷ waiter ∷ []; dead_threads = ran ∷ [] }))
unfolding next_threads schedule
next_test = refl

-- A timeout that has passed ends the wait; the first thread must not be dead.
timeout_test :
    schedule 1 (λ n. (1, 1)) (record waiter { has_timeout = true; timeout_sec = 1 } ∷ [])
    ≡ ok (time_out (record waiter { has_timeout = true; timeout_sec = 1 }) ∷ [])
unfolding schedule
timeout_test = refl

start_test : next_threads 2 (λ n. (n, 0)) (record threads { start_thread_id = 2 }) ≡ fault
unfolding next_threads
start_test = refl

next_threads-fair_example :
    (passed : List Scheduled) × (u : Scheduled) × (others : List Scheduled) × (waiter ∷ ready ∷ []
      ≡ passed ++ u ∷ others)
    × AllWaiting (λ n. (n, 0)) passed
    × GoesOn (λ n. (n, 0)) (length passed) u
    × (next_threads 2 (λ n. (n, 0)) threads
        ≡ ok (
            some (record threads {
              ring = wake u ∷ (others ++ ((if is_dead ran.state then [] else ran ∷ []) ++ passed));
              dead_threads =
                  if is_dead ran.state then ran ∷ threads.dead_threads else threads.dead_threads;
            })))
next_threads-fair_example =
    next_threads-fair ready [] refl 2 (λ n. (n, 0)) threads ran (waiter ∷ []) refl refl (λ e. refl)
      (AllBlocked.blocked refl AllBlocked.no_thread) (omega arith)
