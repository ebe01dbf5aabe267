-- ===== src/Liveness/Correct.antt =====
-- pn_basic_block_calculate_liveness_per_value as a whole.
use pnacl_c.Base.{
  ℕ, zero, suc, ◌+◌, ◌*◌, ◌/◌, ◌≤◌, ◌<◌, ◌≡◌, ◌≢◌, ◌↔◌, inl, refl, sym, ◌∙◌, arith, Bool, true,
  false, if◌then◌else◌, ◌==◌, ==_iff, List, [], ◌∷◌, length, length-replicate, get_elem?, some, ok,
  set, get_elem?-set_self, get_elem?-set_ne,
}
use pnacl_c.BitSet.{BitSet, num_words, clear}
use pnacl_c.BitSet.Laws.{
  member, with_bit, is_set-member, set_bit-with_bit, num_words-with_bit, member-with_bit,
  member-clear,
}
use pnacl_c.Liveness.{Block, LivenessRange, LivenessState, Walk, calculate_liveness_per_value, walk}
use pnacl_c.Liveness.Count.{count, count-none}
use pnacl_c.Liveness.Push.{Among, here, there, count-with_bit}
use pnacl_c.Liveness.Rounds.{IsLiveIn, IsClosed, Going, at_use}
use pnacl_c.Liveness.Values.{walk-Ended, Ended, IsLiveIn-livein}

-- The state behind the trace of a value from the block of a use.
pub record Traced (bbs : List Block) (value_id initial rel_id : ℕ) (old : LivenessRange)
    (st st' : LivenessState) : Type 0 where
  pub livein_iff : (i : ℕ) → (member st'.livein i ≡ true) ↔ IsLiveIn bbs value_id initial i
  pub range : LivenessRange
  pub stored : get_elem? st'.ranges rel_id ≡ some range
  pub covers :
      (i : ℕ) → IsLiveIn bbs value_id initial i → (range.first_bb_id ≤ i) × (i ≤ range.last_bb_id)
  pub widened : (range.first_bb_id ≤ old.first_bb_id) × (old.last_bb_id ≤ range.last_bb_id)
  pub others : (j : ℕ) → rel_id ≢ j → get_elem? st'.ranges j ≡ get_elem? st.ranges j
  pub seen :
      (j : ℕ) → member st'.seen_values j ≡ (if j == rel_id then true else member st.seen_values j)

num_words-clear : (words : BitSet) → num_words (clear words) ≡ num_words words
unfolding clear
num_words-clear words = length-replicate {A = ℕ} (num_words words) 0

index_below : {A : Type 0} (l : List A) (i : ℕ) {a : A} → get_elem? l i ≡ some a → i < length l
index_below [] i h = cc
index_below (x ∷ xs) zero h = omega arith
index_below (x ∷ xs) (suc i) h = omega (arith, index_below xs i h)

module _ (bbs : List Block) (value_id initial : ℕ) (closed : IsClosed bbs value_id initial)
    (st : LivenessState) (seen_room : length bbs ≤ 32 * num_words st.seen_bbs)
    (live_room : length bbs ≤ 32 * num_words st.livein) (old : LivenessRange)
    (ordered : old.first_bb_id ≤ old.last_bb_id) where
  start_set : BitSet
  start_set = with_bit (clear st.seen_bbs) initial true

  start : Walk
  unfolding start_set
  start = record {
    livein = clear st.livein;
    seen_bbs = start_set;
    stack = initial ∷ [];
    range = old;
  }

  initial_room : initial / 32 < num_words (clear st.seen_bbs)
  unfolding IsClosed
  initial_room = omega (arith, num_words-clear st.seen_bbs, seen_room, closed.0)

  put : (i : ℕ) → member start_set i ≡ (i == initial)
  unfolding start_set
  put i =
      rw
        (
          member-with_bit (clear st.seen_bbs) initial i true initial_room,
          member-clear st.seen_bbs i,
        )
        (as_is (i == initial))
    where
      as_is : (b : Bool) → (if b then true else false) ≡ b
      as_is true = refl
      as_is false = refl

  only_initial : (i : ℕ) → member start_set i ≡ true → i ≡ initial
  only_initial i h = (==_iff i initial).0 (sym (put i) ∙ h)

  not_live : {A : Type 0} (i : ℕ) → member (clear st.livein) i ≡ true → A
  not_live i h = let out = member-clear st.livein i in cc

  begins : member start_set initial ≡ true
  begins = put initial ∙ (==_iff initial initial).1 refl

  set_size : num_words start_set ≡ num_words st.seen_bbs
  unfolding start_set
  set_size = num_words-with_bit (clear st.seen_bbs) initial true ∙ num_words-clear st.seen_bbs

  counted : count (member start_set) (length bbs) ≡ 1 + 0
  unfolding start_set IsClosed
  counted = omega (
    arith,
    count-with_bit (length bbs) (clear st.seen_bbs) initial (member-clear st.seen_bbs initial)
        initial_room closed.0,
    count-none (member (clear st.seen_bbs)) (length bbs) (member-clear st.seen_bbs),
  )

  waits : (i : ℕ) → Among i (initial ∷ []) → member start_set i ≡ true
  waits _ here = begins
  waits i (there m) = elim m [ ]

  start-Going : Going bbs value_id initial old start 0
  unfolding start IsClosed
  start-Going = record {
    seen_room = omega (arith, set_size, seen_room);
    live_room = omega (arith, num_words-clear st.livein, live_room);
    balance = counted;
    begun = begins;
    seen_Reached = λ i h. rw (only_initial i h) at_use;
    waiting_seen = waits;
    processed = λ i h. inl (rw (only_initial i h) here);
    live = λ i h. not_live i h;
    live_preds = λ i pred bb h k m. not_live i h;
    ordered = ordered;
    widened = (omega arith, omega arith);
    covered = λ i h. not_live i h;
  }

-- The trace of a value that was not traced before, in a function whose predecessors are blocks of
-- it, on sets with room for its blocks and values, ends. The set of blocks is then of those from
-- which the use is reached backwards without a definition in between: the value is live into those
-- and no others. Its range takes in all of them, and the ranges of other values are as they were.
pub calculate_liveness_per_value-Traced :
    (num_values : ℕ) (bbs : List Block) (st : LivenessState) (initial rel_id : ℕ)
    (old : LivenessRange)
    → IsClosed bbs (num_values + rel_id) initial
    → length bbs ≤ 32 * num_words st.seen_bbs
    → length bbs ≤ 32 * num_words st.livein
    → rel_id < 32 * num_words st.seen_values
    → member st.seen_values rel_id ≡ false
    → get_elem? st.ranges rel_id ≡ some old
    → old.first_bb_id ≤ old.last_bb_id
    → (st' : LivenessState) × (calculate_liveness_per_value num_values bbs st initial rel_id
        ≡ ok st')
      × Traced bbs (num_values + rel_id) initial rel_id old st st'
unfolding calculate_liveness_per_value start start_set Ended
calculate_liveness_per_value-Traced num_values bbs st initial rel_id old closed seen_room live_room
      values_room fresh there_is ordered =
    (
      after,
      rw
          (
            is_set-member st.seen_values rel_id value_room,
            fresh,
            set_bit-with_bit st.seen_values rel_id true value_room,
            set_bit-with_bit (clear st.seen_bbs) initial true (
                initial_room bbs (num_values + rel_id) initial closed st seen_room live_room old
                  ordered),
            there_is,
            run.2,
          )
          refl,
      record {
        livein_iff = λ i. (
          run.4.live i,
          IsLiveIn-livein bbs (num_values + rel_id) initial closed old run.0 run.1 run.4 run.3 i,
        );
        range = run.0.range;
        stored =
            get_elem?-set_self st.ranges rel_id run.0.range (index_below st.ranges rel_id there_is);
        covers = λ i l. run.4.covered i (
            IsLiveIn-livein bbs (num_values + rel_id) initial closed old run.0 run.1 run.4 run.3 i
              l);
        widened = run.4.widened;
        others = λ j ne. get_elem?-set_ne st.ranges rel_id j run.0.range ne;
        seen = λ j. member-with_bit st.seen_values rel_id j true value_room;
      },
    )
  where
    value_room : rel_id / 32 < num_words st.seen_values
    value_room = omega arith

    run : Ended bbs (num_values + rel_id) initial closed old (
        walk
          (length bbs)
          bbs
          (num_values + rel_id)
          (start bbs (num_values + rel_id) initial closed st seen_room live_room old ordered))
    run =
        walk-Ended bbs (num_values + rel_id) initial closed old (length bbs)
          (start bbs (num_values + rel_id) initial closed st seen_room live_room old ordered) 0
          (omega arith)
          (start-Going bbs (num_values + rel_id) initial closed st seen_room live_room old ordered)

    after : LivenessState
    after = record {
      seen_values = with_bit st.seen_values rel_id true;
      livein = run.0.livein;
      seen_bbs = run.0.seen_bbs;
      ranges = set st.ranges rel_id run.0.range;
    }
