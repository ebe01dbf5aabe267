-- ===== src/Schedule/Fair.antt =====
-- The search for the next thread.
use pnacl_c.Base.{
  ℕ, zero, suc, ◌+◌, ◌≤◌, ◌≡◌, refl, sym, ap, ◌∙◌, arith, true, false, if◌then◌else◌, List, [], ◌∷◌,
  ◌++◌, length, ◌⊎◌, ◌==◌, Bool-cases, inl, inr,
}
use pnacl_c.Base.{ok, some, ◌>>=◌}
use mathlib.Core.List.{append-nil, append_assoc}
use pnacl_c.Machine.State.{ThreadState}
use pnacl_c.Schedule.{Scheduled, Threads, expired, time_out, is_dead, schedule, next_threads}

-- Threads that wait.
pub data AllBlocked : List Scheduled → Type 0 where
  no_thread : AllBlocked []
  blocked :
      {t : Scheduled} {ts : List Scheduled}
      → t.state ≡ ThreadState.blocked
      → AllBlocked ts
      → AllBlocked (t ∷ ts)

-- Threads that wait, whose timeouts have not passed when the loop looks at them, one after the other.
pub data AllWaiting : (ℕ → ℕ × ℕ) → List Scheduled → Type 0 where
  no_wait : {clock : ℕ → ℕ × ℕ} → AllWaiting clock []
  waiting :
      {clock : ℕ → ℕ × ℕ} {t : Scheduled} {ts : List Scheduled}
      → t.state ≡ ThreadState.blocked
      → expired t (clock 0) ≡ false
      → AllWaiting (λ n. clock (suc n)) ts
      → AllWaiting clock (t ∷ ts)

-- A thread that may go on when it is looked at after `looks` others: it runs, or it waits and its
-- timeout has passed.
abbrev pub GoesOn : (ℕ → ℕ × ℕ) → ℕ → Scheduled → Type 0
GoesOn clock looks u =
    (u.state ≡ ThreadState.running)
    ⊎ ((u.state ≡ ThreadState.blocked) × (expired u (clock looks) ≡ true))

-- A thread as it goes on: a running one as it was, one that waits with its futex timed out.
abbrev pub wake : Scheduled → Scheduled
wake t = elim t.state [ ThreadState.running ↦ t | _ ↦ time_out t ]

-- The switch on the state.
abbrev on_state {ℓ} : {C : Type ℓ} → ThreadState → C → C → C → C
on_state s x y z = elim s [
  | ThreadState.running ↦ x
  | ThreadState.blocked ↦ y
  | ThreadState.dead ↦ z
]

on_running {ℓ} :
    {C : Type ℓ} (s : ThreadState) (x y z : C) → s ≡ ThreadState.running → on_state s x y z ≡ x
on_running ThreadState.running x y z e = refl
on_running ThreadState.blocked x y z e = cc
on_running ThreadState.dead x y z e = cc

on_blocked {ℓ} :
    {C : Type ℓ} (s : ThreadState) (x y z : C) → s ≡ ThreadState.blocked → on_state s x y z ≡ y
on_blocked ThreadState.running x y z e = cc
on_blocked ThreadState.blocked x y z e = refl
on_blocked ThreadState.dead x y z e = cc

module _ (t : Scheduled) (after : List Scheduled) (runs : t.state ≡ ThreadState.running) where
  schedule-passed :
      (looks : ℕ) (clock : ℕ → ℕ × ℕ) (before gone : List Scheduled)
      → AllBlocked before
      → length before + 1 ≤ looks
      → (passed : List Scheduled) × (u : Scheduled) × (others : List Scheduled) × (before
            ++ t ∷ after
          ≡ passed ++ u ∷ others)
        × AllWaiting clock passed
        × GoesOn clock (length passed) u
        × (schedule looks clock (before ++ t ∷ after ++ gone)
            ≡ ok (wake u ∷ (others ++ (gone ++ passed))))
  unfolding schedule
  schedule-passed zero clock before gone waits enough = absurd (omega arith)
  schedule-passed (suc looks) clock [] gone waits enough = (
    [],
    t,
    after,
    refl,
    AllWaiting.no_wait,
    inl runs,
    on_running t.state _ _ _ runs
        ∙ ap ok (
            ap (λ u. u ∷ (after ++ gone))
              (sym (on_running t.state t (time_out t) (time_out t) runs))
            ∙ ap (λ ts. wake t ∷ (after ++ ts)) (sym (append-nil gone))),
  )
  schedule-passed (suc looks) clock (b ∷ before) gone (AllBlocked.blocked w waits) enough =
      elim (Bool-cases (expired b (clock 0))) [
        | inl e ↦ (
          [],
          b,
          before ++ t ∷ after,
          refl,
          AllWaiting.no_wait,
          inr (w, e),
          on_blocked b.state _ _ _ w
              ∙ rw e (
                  ap ok (
                    ap (λ u. u ∷ (before ++ t ∷ after ++ gone))
                      (sym (on_blocked b.state b (time_out b) (time_out b) w))
                    ∙ ap (λ ts. wake b ∷ (before ++ t ∷ after ++ ts)) (sym (append-nil gone)))),
        )
        | inr e ↦
            (let r =
                schedule-passed looks (λ n. clock (suc n)) before (gone ++ b ∷ []) waits
                  (omega arith) in
              (
                b ∷ r.0,
                r.1,
                r.2,
                ap (λ ts. b ∷ ts) r.3,
                AllWaiting.waiting w e r.4,
                r.5,
                on_blocked b.state _ _ _ w
                    ∙ rw e (
                        ap (schedule looks (λ n. clock (suc n)))
                          (append_assoc (before ++ t ∷ after) gone (b ∷ []))
                        ∙ r.6
                        ∙ ap (λ ts. ok (wake r.1 ∷ (r.2 ++ ts))) (append_assoc gone (b ∷ []) r.0)),
              ))
      ]

  -- In a program that is not exiting, with a thread that can run among the others, behind some that
  -- wait, the step to the next thread ends after at most one look at each of these and at that
  -- thread. It chooses that thread, or one before it whose timeout has passed when it is looked at,
  -- where those of the threads before it have not; these wait on at the end of the ring, behind the thread that ran, and a thread that has
  -- died, and is not the first one, is among the dead ones instead.
  pub next_threads-fair :
      (looks : ℕ) (clock : ℕ → ℕ × ℕ) (threads : Threads) (ran : Scheduled)
      (before : List Scheduled)
      → threads.exiting ≡ false
      → threads.ring ≡ ran ∷ (before ++ t ∷ after)
      → (is_dead ran.state ≡ true → (ran.id == threads.start_thread_id) ≡ false)
      → AllBlocked before
      → length before + 1 ≤ looks
      → (passed : List Scheduled) × (u : Scheduled) × (others : List Scheduled) × (before
            ++ t ∷ after
          ≡ passed ++ u ∷ others)
        × AllWaiting clock passed
        × GoesOn clock (length passed) u
        × (next_threads looks clock threads
            ≡ ok (
                some (record threads {
                  ring =
                      wake u ∷ (others ++ ((if is_dead ran.state then [] else ran ∷ []) ++ passed));
                  dead_threads =
                      if is_dead ran.state
                      then ran ∷ threads.dead_threads
                      else threads.dead_threads;
                })))
  unfolding next_threads
  next_threads-fair looks clock threads ran before runs_on ring not_first waits enough =
      elim (Bool-cases (is_dead ran.state)) [
        | inl e ↦
            (let r = schedule-passed looks clock before [] waits enough in
              (
                r.0,
                r.1,
                r.2,
                r.3,
                r.4,
                r.5,
                simp (runs_on, ring, e, not_first e)
                    (ap
                      (λ x. x >>= λ ts. ok (
                        some (record threads {
                          ring = ts;
                          dead_threads = ran ∷ threads.dead_threads;
                          exiting = false;
                        })))
                      (ap (schedule looks clock) (sym (append-nil (before ++ t ∷ after))) ∙ r.6)),
              ))
        | inr e ↦
            (let r = schedule-passed looks clock before (ran ∷ []) waits enough in
              (
                r.0,
                r.1,
                r.2,
                r.3,
                r.4,
                r.5,
                simp (runs_on, ring, e)
                    (ap (λ x. x >>= λ ts. ok (some (record threads { ring = ts; exiting = false })))
                      r.6),
              ))
      ]
