-- ===== src/Builtins/Futex/Wake.antt =====
-- Whom a wake wakes.
use pnacl_c.Base.{
  ℕ, suc, ◌+◌, ◌-◌, ◌<◌, ◌≡◌, refl, ap, ◌∙◌, ◌++◌, true, false, if◌then◌else◌, ltb, lt→ltb, ltb→lt,
  arith, List, [], ◌∷◌, length, get_elem?, drop, drop-nil, some, ◌⊎◌, inl, inr, Bool-cases, min,
}
use pnacl_c.Builtins.Futex.{Waiter, waits, woken_up, wake}

-- The threads that wait at an address, in the order of the ring.
abbrev pub waiters : ℕ → List Waiter → List Waiter
waiters addr_p [] = []
waiters addr_p (t ∷ others) =
    if waits addr_p t then t ∷ waiters addr_p others else waiters addr_p others

-- A thread before and behind a wake.
pub WokenOrSame : ℕ → Waiter → Waiter → Type 0
WokenOrSame addr_p t t' = (t' ≡ t) ⊎ ((waits addr_p t ≡ true) × (t' ≡ woken_up t))

pub data Pointwise (addr_p : ℕ) : List Waiter → List Waiter → Type 0 where
  no_threads : Pointwise addr_p [] []
  next_thread :
      {t t' : Waiter} {ts ts' : List Waiter}
      → WokenOrSame addr_p t t'
      → Pointwise addr_p ts ts'
      → Pointwise addr_p (t ∷ ts) (t' ∷ ts')

-- What the loop does behind `woken` woken threads: `others` and their new states, and the new count.
record Wakes (addr_p nwake woken : ℕ) (others : List Waiter) (after : List Waiter × ℕ)
    : Type 0 where
  pub count : after.1 ≡ woken + min (nwake - woken) (length (waiters addr_p others))
  pub still_waiting : waiters addr_p after.0 ≡ drop (nwake - woken) (waiters addr_p others)
  pub each : Pointwise addr_p others after.0

same_threads : (addr_p : ℕ) (ts : List Waiter) → Pointwise addr_p ts ts
unfolding WokenOrSame
same_threads addr_p [] = no_threads
same_threads addr_p (t ∷ ts) = next_thread (inl refl) (same_threads addr_p ts)

none_left : (nwake woken : ℕ) → ltb woken nwake ≡ false → nwake - woken ≡ 0
none_left nwake woken e = ground arith

one_less : (nwake woken : ℕ) → woken < nwake → nwake - woken ≡ suc (nwake - (woken + 1))
one_less nwake woken e = omega arith

wake-Wakes :
    (addr_p nwake woken : ℕ) (others : List Waiter)
    → Wakes addr_p nwake woken others (wake addr_p nwake woken others)
unfolding wake WokenOrSame
wake-Wakes addr_p nwake woken [] = record {
  count = omega arith;
  still_waiting = rw (drop-nil {A = Waiter} (nwake - woken)) refl;
  each = no_threads;
}
wake-Wakes addr_p nwake woken (t ∷ others) = elim (Bool-cases (ltb woken nwake)) [
  | inr e ↦ rw e record {
    count = ground arith;
    still_waiting = rw (none_left nwake woken e) refl;
    each = same_threads addr_p (t ∷ others);
  }
  | inl e ↦ elim (Bool-cases (waits addr_p t)) [
    | inl w ↦
        let rest = wake-Wakes addr_p nwake (woken + 1) others in
        rw (e, w)
          record {
            count = rw w (omega (arith, rest.count, ltb→lt woken nwake e));
            still_waiting = rw (one_less nwake woken (ltb→lt woken nwake e), w) rest.still_waiting;
            each = next_thread (inr (w, refl)) rest.each;
          }
    | inr w ↦
        let rest = wake-Wakes addr_p nwake woken others in
        rw (e, w)
          record {
            count = rw w rest.count;
            still_waiting = rw w rest.still_waiting;
            each = next_thread (inl refl) rest.each;
          }
  ]
]

-- A wake wakes threads behind the running one that wait at the address, the first `nwake` of them
-- in the order of the ring or all if there are fewer: the count that it stores is of those, the ones
-- behind them still wait, and no other thread changes.
pub wake-waiters :
    (addr_p nwake : ℕ) (others : List Waiter)
    → ((wake addr_p nwake 0 others).1 ≡ min nwake (length (waiters addr_p others)))
      × (waiters addr_p ((wake addr_p nwake 0 others).0) ≡ drop nwake (waiters addr_p others))
      × Pointwise addr_p others ((wake addr_p nwake 0 others).0)
wake-waiters addr_p nwake others = (
  omega (arith, run.count),
  run.still_waiting ∙ ap (λ (n : ℕ). drop n (waiters addr_p others)) all,
  run.each,
)
  where
    all : nwake - 0 ≡ nwake
    all = omega arith

    run : Wakes addr_p nwake 0 others (wake addr_p nwake 0 others)
    run = wake-Wakes addr_p nwake 0 others

length_yes :
    (addr_p : ℕ) (t : Waiter) (others : List Waiter)
    → waits addr_p t ≡ true
    → length (waiters addr_p (t ∷ others)) ≡ 1 + length (waiters addr_p others)
length_yes addr_p t others e = rw e (omega arith)

length_no :
    (addr_p : ℕ) (t : Waiter) (others : List Waiter)
    → waits addr_p t ≡ false
    → length (waiters addr_p (t ∷ others)) ≡ length (waiters addr_p others)
length_no addr_p t others e = rw e refl

-- A waiting thread is reached if fewer than `nwake` threads before it wait.
pub wake-reached :
    (addr_p nwake woken : ℕ) (before : List Waiter) (t : Waiter) (behind : List Waiter)
    → waits addr_p t ≡ true
    → woken + length (waiters addr_p before) < nwake
    → get_elem? (wake addr_p nwake woken (before ++ t ∷ behind)).0 (length before)
      ≡ some (woken_up t)
unfolding wake
wake-reached addr_p nwake woken [] t behind w room = rw (lt→ltb woken nwake (omega arith), w) refl
wake-reached addr_p nwake woken (s ∷ before) t behind w room = elim (Bool-cases (waits addr_p s)) [
  | inl e ↦
      rw (lt→ltb woken nwake (omega arith), e)
        (wake-reached addr_p nwake (woken + 1) before t behind w
          (omega (arith, length_yes addr_p s before e)))
  | inr e ↦
      rw (lt→ltb woken nwake (omega arith), e)
        (wake-reached addr_p nwake woken before t behind w
          (omega (arith, length_no addr_p s before e)))
]
