-- ===== src/Liveness/Push.antt =====
-- The loop over the predecessors of a block.
use pnacl_c.Base.{
  ℕ, suc, ◌+◌, ◌*◌, ◌/◌, ◌≤◌, ◌<◌, ◌≡◌, ◌≢◌, ◌⊎◌, inl, inr, refl, ◌∙◌, arith, Bool, true, false,
  if◌then◌else◌, lt→ltb, ◌==◌, ==_iff, Bool-cases, List, [], ◌∷◌, length, Result, ok,
}
use pnacl_c.BitSet.{BitSet, num_words}
use pnacl_c.BitSet.Laws.{
  member, with_bit, is_set-member, set_bit-with_bit, num_words-with_bit, member-with_bit,
}
use pnacl_c.Liveness.{push_pred, push_preds}
use pnacl_c.Liveness.Count.{count, count_insert}

pub data Among : ℕ → List ℕ → Type 0 where
  here : {i : ℕ} {l : List ℕ} → Among i (i ∷ l)
  there : {i j : ℕ} {l : List ℕ} → Among i l → Among i (j ∷ l)

-- The set and the stack behind pushes of `preds`, of which those that were not seen go to the stack.
pub record Pushed (num_bbs : ℕ) (seen : BitSet) (stack preds : List ℕ)
    (result : Result (BitSet × List ℕ)) : Type 0 where
  pub seen' : BitSet
  pub stack' : List ℕ
  pub returns : result ≡ ok (seen', stack')
  pub same_size : num_words seen' ≡ num_words seen
  pub balance :
      count (member seen') num_bbs + length stack ≡ count (member seen) num_bbs + length stack'
  pub still_seen : (i : ℕ) → member seen i ≡ true → member seen' i ≡ true
  pub all_seen : (i : ℕ) → Among i preds → member seen' i ≡ true
  pub only : (i : ℕ) → member seen' i ≡ true → (member seen i ≡ true) ⊎ Among i preds
  pub new : (i : ℕ) → member seen' i ≡ true → (member seen i ≡ true) ⊎ Among i stack'
  pub still_waiting : (i : ℕ) → Among i stack → Among i stack'
  pub waiting_seen : (i : ℕ) → Among i stack' → Among i stack ⊎ (member seen' i ≡ true)

widen : {A : Type 0} {i j : ℕ} {l : List ℕ} → A ⊎ Among i l → A ⊎ Among i (j ∷ l)
widen (inl a) = inl a
widen (inr m) = inr (there m)

pub both_true : (b : Bool) → (if b then true else true) ≡ true
both_true true = refl
both_true false = refl

ne→== : (i j : ℕ) → i ≢ j → (i == j) ≡ false
ne→== i j h = elim (Bool-cases (i == j)) [ inl e ↦ absurd (h ((==_iff i j).0 e)) | inr e ↦ e ]

module _ (num_bbs : ℕ) where
  pub room_for :
      (seen : BitSet) (i : ℕ)
      → num_bbs ≤ 32 * num_words seen
      → i < num_bbs
      → i / 32 < num_words seen
  room_for seen i h k = omega arith

  pub count-with_bit :
      (seen : BitSet) (i : ℕ)
      → member seen i ≡ false
      → i / 32 < num_words seen
      → i < num_bbs
      → (count (member (with_bit seen i true)) num_bbs ≡ suc (count (member seen) num_bbs))
        × (count (member seen) num_bbs < num_bbs)
  count-with_bit seen i e room below =
      count_insert (member seen) (member (with_bit seen i true)) num_bbs i below e
        (rw (member-with_bit seen i i true room, (==_iff i i).1 refl) refl)
        (λ j ne. rw (member-with_bit seen i j true room, ne→== j i ne) refl)

  -- A predecessor that was seen before.
  was_seen :
      (seen : BitSet) (stack : List ℕ) (pred : ℕ) (preds : List ℕ)
      → member seen pred ≡ true
      → pred / 32 < num_words seen
      → Pushed num_bbs seen stack preds (push_preds num_bbs seen stack preds)
      → Pushed num_bbs seen stack (pred ∷ preds) (push_preds num_bbs seen stack (pred ∷ preds))
  unfolding push_preds push_pred
  was_seen seen stack pred preds e room r = record {
    seen' = r.seen';
    stack' = r.stack';
    returns = rw (is_set-member seen pred room, e) r.returns;
    same_size = r.same_size;
    balance = r.balance;
    still_seen = r.still_seen;
    all_seen = all;
    only = λ i h. widen (r.only i h);
    new = r.new;
    still_waiting = r.still_waiting;
    waiting_seen = r.waiting_seen;
  }
    where
      all : (i : ℕ) → Among i (pred ∷ preds) → member r.seen' i ≡ true
      all _ here = r.still_seen pred e
      all i (there m) = r.all_seen i m

  -- One that was not, which goes to the stack.
  is_new :
      (seen : BitSet) (stack : List ℕ) (pred : ℕ) (preds : List ℕ)
      → member seen pred ≡ false
      → pred / 32 < num_words seen
      → pred < num_bbs
      → length stack ≤ count (member seen) num_bbs
      → Pushed num_bbs
          (with_bit seen pred true)
          (pred ∷ stack)
          preds
          (push_preds num_bbs (with_bit seen pred true) (pred ∷ stack) preds)
      → Pushed num_bbs seen stack (pred ∷ preds) (push_preds num_bbs seen stack (pred ∷ preds))
  unfolding push_preds push_pred
  is_new seen stack pred preds e room below least r = record {
    seen' = r.seen';
    stack' = r.stack';
    returns =
        rw
          (
            is_set-member seen pred room,
            e,
            lt→ltb (length stack) num_bbs (omega (arith, count-with_bit seen pred e room below)),
            set_bit-with_bit seen pred true room,
          )
          r.returns;
    same_size = r.same_size ∙ num_words-with_bit seen pred true;
    balance = omega (arith, count-with_bit seen pred e room below, r.balance);
    still_seen = λ i h. r.still_seen i (kept i h);
    all_seen = all;
    only = λ i h. only_old i (r.only i h);
    new = λ i h. new_old i (r.new i h);
    still_waiting = λ i m. r.still_waiting i (there m);
    waiting_seen = λ i m. waiting i (r.waiting_seen i m);
  }
    where
      put :
          (i : ℕ) → member (with_bit seen pred true) i ≡ (if i == pred then true else member seen i)
      put i = member-with_bit seen pred i true room

      self : member (with_bit seen pred true) pred ≡ true
      self = rw (put pred, (==_iff pred pred).1 refl) refl

      kept : (i : ℕ) → member seen i ≡ true → member (with_bit seen pred true) i ≡ true
      kept i h = rw (put i, h) (both_true (i == pred))

      old :
          (i : ℕ) → member (with_bit seen pred true) i ≡ true → (member seen i ≡ true) ⊎ (i ≡ pred)
      old i h = elim (Bool-cases (i == pred)) [
        | inl same ↦ inr ((==_iff i pred).0 same)
        | inr apart ↦ inl (rw (put i, apart) at h)
      ]

      all : (i : ℕ) → Among i (pred ∷ preds) → member r.seen' i ≡ true
      all _ here = r.still_seen pred self
      all i (there m) = r.all_seen i m

      only_old :
          (i : ℕ)
          → (member (with_bit seen pred true) i ≡ true) ⊎ Among i preds
          → (member seen i ≡ true) ⊎ Among i (pred ∷ preds)
      only_old i (inr m) = inr (there m)
      only_old i (inl h) = elim (old i h) [ inl k ↦ inl k | inr k ↦ inr (rw k here) ]

      new_old :
          (i : ℕ)
          → (member (with_bit seen pred true) i ≡ true) ⊎ Among i r.stack'
          → (member seen i ≡ true) ⊎ Among i r.stack'
      new_old i (inr m) = inr m
      new_old i (inl h) = elim (old i h) [
        | inl k ↦ inl k
        | inr k ↦ inr (rw k (r.still_waiting pred here))
      ]

      waiting :
          (i : ℕ)
          → Among i (pred ∷ stack) ⊎ (member r.seen' i ≡ true)
          → Among i stack ⊎ (member r.seen' i ≡ true)
      waiting _ (inl here) = inr (r.still_seen pred self)
      waiting i (inl (there m)) = inl m
      waiting i (inr h) = inr h

  pub push_preds-Pushed :
      (seen : BitSet) (stack preds : List ℕ)
      → num_bbs ≤ 32 * num_words seen
      → ((i : ℕ) → Among i preds → i < num_bbs)
      → length stack ≤ count (member seen) num_bbs
      → Pushed num_bbs seen stack preds (push_preds num_bbs seen stack preds)
  unfolding push_preds
  push_preds-Pushed seen stack [] room below least = record {
    seen' = seen;
    stack' = stack;
    returns = refl;
    same_size = refl;
    balance = refl;
    still_seen = λ i h. h;
    all_seen = λ i m. elim m [ ];
    only = λ i h. inl h;
    new = λ i h. inl h;
    still_waiting = λ i m. m;
    waiting_seen = λ i m. inl m;
  }
  push_preds-Pushed seen stack (pred ∷ preds) room below least =
      elim (Bool-cases (member seen pred)) [
        | inl e ↦
            was_seen seen stack pred preds e (room_for seen pred room (below pred here))
              (push_preds-Pushed seen stack preds room (λ i m. below i (there m)) least)
        | inr e ↦
            let counted =
              count-with_bit seen pred e (room_for seen pred room (below pred here))
                (below pred here) in
            is_new seen stack pred preds e (room_for seen pred room (below pred here))
              (below pred here) least
              (push_preds-Pushed (with_bit seen pred true) (pred ∷ stack) preds
                (omega (arith, num_words-with_bit seen pred true)) (λ i m. below i (there m))
                (omega (arith, counted)))
      ]
