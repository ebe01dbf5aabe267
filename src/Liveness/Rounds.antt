-- ===== src/Liveness/Rounds.antt =====
-- What the walk for one value finds.
use pnacl_c.Base.{
  ℕ, suc, ◌+◌, ◌*◌, ◌/◌, ◌≤◌, ◌<◌, ◌≡◌, ◌⊎◌, inl, inr, refl, ap, subst, arith, true, false,
  if◌then◌else◌, ltb, ◌==◌, ==_iff, Bool-cases, List, [], ◌∷◌, length, get_elem?, some,
}
use pnacl_c.BitSet.{num_words}
use pnacl_c.BitSet.Laws.{member, with_bit, num_words-with_bit, member-with_bit}
use pnacl_c.Liveness.{Block, LivenessRange, Walk, defines, extend, push_preds}
use pnacl_c.Liveness.Count.{count}
use pnacl_c.Liveness.Push.{Among, here, there, Pushed, both_true}

abbrev pub nil_block : Block
nil_block = record { pred_bb_ids = []; first_def_id = 0; last_def_id = 0; uses = []; phi_uses = [] }

module _ (bbs : List Block) (value_id initial : ℕ) where
  -- The blocks on the paths backwards from the first one, up to the ones with the definition.
  pub data Reached : ℕ → Type 0 where
    at_use : Reached initial
    back :
        {b pred : ℕ} {bb : Block}
        → Reached b
        → get_elem? bbs b ≡ some bb
        → defines bb value_id ≡ false
        → Among pred bb.pred_bb_ids
        → Reached pred

  -- The value is live into the block.
  abbrev pub IsLiveIn : ℕ → Type 0
  IsLiveIn b =
      Reached b × ((bb : Block) × (get_elem? bbs b ≡ some bb) × (defines bb value_id ≡ false))

  unfoldable pub IsClosed : Type 0
  IsClosed =
      (initial < length bbs)
      × ((b pred : ℕ) (bb : Block)
          → get_elem? bbs b ≡ some bb
          → Among pred bb.pred_bb_ids
          → pred < length bbs)

  -- The walk behind `popped` rounds, on a value whose range was `old`.
  pub record Going (old : LivenessRange) (w : Walk) (popped : ℕ) : Type 0 where
    pub seen_room : length bbs ≤ 32 * num_words w.seen_bbs
    pub live_room : length bbs ≤ 32 * num_words w.livein
    pub balance : count (member w.seen_bbs) (length bbs) ≡ length w.stack + popped
    pub begun : member w.seen_bbs initial ≡ true
    pub seen_Reached : (i : ℕ) → member w.seen_bbs i ≡ true → Reached i
    pub waiting_seen : (i : ℕ) → Among i w.stack → member w.seen_bbs i ≡ true
    pub processed :
        (i : ℕ)
        → member w.seen_bbs i ≡ true
        → Among i w.stack
          ⊎ ((bb : Block)
              → get_elem? bbs i ≡ some bb
              → defines bb value_id ≡ false
              → member w.livein i ≡ true)
    pub live : (i : ℕ) → member w.livein i ≡ true → IsLiveIn i
    pub live_preds :
        (i pred : ℕ) (bb : Block)
        → member w.livein i ≡ true
        → get_elem? bbs i ≡ some bb
        → Among pred bb.pred_bb_ids
        → member w.seen_bbs pred ≡ true
    pub ordered : w.range.first_bb_id ≤ w.range.last_bb_id
    pub widened : (w.range.first_bb_id ≤ old.first_bb_id) × (old.last_bb_id ≤ w.range.last_bb_id)
    pub covered :
        (i : ℕ) → member w.livein i ≡ true → (w.range.first_bb_id ≤ i) × (i ≤ w.range.last_bb_id)

  pub Reached-below : {i : ℕ} → IsClosed → Reached i → i < length bbs
  unfolding IsClosed
  Reached-below closed at_use = closed.0
  Reached-below closed (back {b} {pred} {bb} r e d m) = closed.1 b pred bb e m

  abbrev Done : Walk → ℕ → Type 0
  Done w i =
      (bb : Block)
      → get_elem? bbs i ≡ some bb
      → defines bb value_id ≡ false
      → member w.livein i ≡ true

  -- A block that needs no more is taken off the stack.
  pub skip :
      (old : LivenessRange) (w : Walk) (bb_id : ℕ) (stack : List ℕ) (popped : ℕ)
      → w.stack ≡ bb_id ∷ stack
      → Going old w popped
      → Done w bb_id
      → Going old (record w { stack = stack }) (suc popped)
  skip old w bb_id stack popped e g done = record {
    seen_room = g.seen_room;
    live_room = g.live_room;
    balance = omega (arith, g.balance, ap length e);
    begun = g.begun;
    seen_Reached = g.seen_Reached;
    waiting_seen = λ i m. g.waiting_seen i (rw e (there m));
    processed = λ i h. rest i (g.processed i h);
    live = g.live;
    live_preds = g.live_preds;
    ordered = g.ordered;
    widened = g.widened;
    covered = g.covered;
  }
    where
      split : (i : ℕ) → Among i (bb_id ∷ stack) → Among i stack ⊎ Done w i
      split _ here = inr done
      split i (there m) = inl m

      rest : (i : ℕ) → Among i w.stack ⊎ Done w i → Among i stack ⊎ Done w i
      rest i (inl m) = split i (rw e at m)
      rest i (inr d) = inr d

  in_range :
      (range : LivenessRange) (i j : ℕ)
      → range.first_bb_id ≤ range.last_bb_id
      → (j ≡ i) ⊎ ((range.first_bb_id ≤ j) × (j ≤ range.last_bb_id))
      → ((extend range i).first_bb_id ≤ j) × (j ≤ (extend range i).last_bb_id)
  in_range range i j o h = elim (Bool-cases (ltb i range.first_bb_id)) [
    | inl e ↦ rw e (ground arith)
    | inr e ↦ elim (Bool-cases (ltb range.last_bb_id i)) [
      | inl k ↦ rw (e, k) (ground arith)
      | inr k ↦ rw (e, k) (ground arith)
    ]
  ]

  extend_widens :
      (range : LivenessRange) (i : ℕ)
      → range.first_bb_id ≤ range.last_bb_id
      → ((extend range i).first_bb_id ≤ range.first_bb_id)
        × (range.last_bb_id ≤ (extend range i).last_bb_id)
        × ((extend range i).first_bb_id ≤ (extend range i).last_bb_id)
  extend_widens range i o = elim (Bool-cases (ltb i range.first_bb_id)) [
    | inl e ↦ rw e (ground arith)
    | inr e ↦ elim (Bool-cases (ltb range.last_bb_id i)) [
      | inl k ↦ rw (e, k) (ground arith)
      | inr k ↦ rw (e, k) (ground arith)
    ]
  ]

  -- A block that the value is found live into.
  pub found_live :
      (old : LivenessRange) (w : Walk) (bb_id : ℕ) (stack : List ℕ) (popped : ℕ) (bb : Block)
      → w.stack ≡ bb_id ∷ stack
      → Going old w popped
      → bb_id < length bbs
      → get_elem? bbs bb_id ≡ some bb
      → defines bb value_id ≡ false
      → (p : Pushed
          (length bbs)
          w.seen_bbs
          stack
          bb.pred_bb_ids
          (push_preds (length bbs) w.seen_bbs stack bb.pred_bb_ids))
      → Going old
          record {
            livein = with_bit w.livein bb_id true;
            seen_bbs = p.seen';
            stack = p.stack';
            range = extend w.range bb_id;
          }
          (suc popped)
  found_live old w bb_id stack popped bb e g below there_is free p = record {
    seen_room = omega (arith, g.seen_room, p.same_size);
    live_room = omega (arith, g.live_room, num_words-with_bit w.livein bb_id true);
    balance = omega (arith, g.balance, ap length e, p.balance);
    begun = p.still_seen initial g.begun;
    seen_Reached = λ i h. reached i (p.only i h);
    waiting_seen = λ i m. waits i (p.waiting_seen i m);
    processed = λ i h. next i (p.new i h);
    live = λ i h. live_one i (was i h);
    live_preds = λ i pred bb' h k m. preds i pred bb' (was i h) k m;
    ordered = (extend_widens w.range bb_id g.ordered).2;
    widened = (
      omega (arith, (extend_widens w.range bb_id g.ordered).0, g.widened),
      omega (arith, (extend_widens w.range bb_id g.ordered).1, g.widened),
    );
    covered = λ i h. in_range w.range bb_id i g.ordered (cover i (was i h));
  }
    where
      room : bb_id / 32 < num_words w.livein
      room = omega (arith, g.live_room, below)

      put :
          (i : ℕ)
          → member (with_bit w.livein bb_id true) i
            ≡ (if i == bb_id then true else member w.livein i)
      put i = member-with_bit w.livein bb_id i true room

      was :
          (i : ℕ)
          → member (with_bit w.livein bb_id true) i ≡ true
          → (i ≡ bb_id) ⊎ (member w.livein i ≡ true)
      was i h = elim (Bool-cases (i == bb_id)) [
        | inl same ↦ inl ((==_iff i bb_id).0 same)
        | inr apart ↦ inr (rw (put i, apart) at h)
      ]

      kept : (i : ℕ) → member w.livein i ≡ true → member (with_bit w.livein bb_id true) i ≡ true
      kept i h = rw (put i, h) (both_true (i == bb_id))

      self : member (with_bit w.livein bb_id true) bb_id ≡ true
      self = rw (put bb_id, (==_iff bb_id bb_id).1 refl) refl

      top : Reached bb_id
      top = g.seen_Reached bb_id (g.waiting_seen bb_id (rw e here))

      reached : (i : ℕ) → (member w.seen_bbs i ≡ true) ⊎ Among i bb.pred_bb_ids → Reached i
      reached i (inl h) = g.seen_Reached i h
      reached i (inr m) = back top there_is free m

      waits : (i : ℕ) → Among i stack ⊎ (member p.seen' i ≡ true) → member p.seen' i ≡ true
      waits i (inl m) = p.still_seen i (g.waiting_seen i (rw e (there m)))
      waits i (inr h) = h

      live_one : (i : ℕ) → (i ≡ bb_id) ⊎ (member w.livein i ≡ true) → IsLiveIn i
      live_one i (inl same) = rw same (top, (bb, there_is, free))
      live_one i (inr h) = g.live i h

      same_block : {i : ℕ} {bb' : Block} → i ≡ bb_id → get_elem? bbs i ≡ some bb' → bb' ≡ bb
      same_block same k = cc

      preds :
          (i pred : ℕ) (bb' : Block)
          → (i ≡ bb_id) ⊎ (member w.livein i ≡ true)
          → get_elem? bbs i ≡ some bb'
          → Among pred bb'.pred_bb_ids
          → member p.seen' pred ≡ true
      preds i pred bb' (inl same) k m =
          p.all_seen pred (subst (λ (b : Block). Among pred b.pred_bb_ids) (same_block same k) m)
      preds i pred bb' (inr h) k m = p.still_seen pred (g.live_preds i pred bb' h k m)

      cover :
          (i : ℕ)
          → (i ≡ bb_id) ⊎ (member w.livein i ≡ true)
          → (i ≡ bb_id) ⊎ ((w.range.first_bb_id ≤ i) × (i ≤ w.range.last_bb_id))
      cover i (inl same) = inl same
      cover i (inr h) = inr (g.covered i h)

      LiveNow : ℕ → Type 0
      LiveNow i =
          (bb' : Block)
          → get_elem? bbs i ≡ some bb'
          → defines bb' value_id ≡ false
          → member (with_bit w.livein bb_id true) i ≡ true

      now : (i : ℕ) → Among i (bb_id ∷ stack) ⊎ Done w i → Among i p.stack' ⊎ LiveNow i
      now _ (inl here) = inr (λ bb' k d. self)
      now i (inl (there m)) = inl (p.still_waiting i m)
      now i (inr d) = inr (λ bb' k l. kept i (d bb' k l))

      by_stack : (i : ℕ) → Among i w.stack ⊎ Done w i → Among i p.stack' ⊎ LiveNow i
      by_stack i (inl m) = now i (inl (rw e at m))
      by_stack i (inr d) = now i (inr d)

      next :
          (i : ℕ) → (member w.seen_bbs i ≡ true) ⊎ Among i p.stack' → Among i p.stack' ⊎ LiveNow i
      next i (inl h) = by_stack i (g.processed i h)
      next i (inr m) = inl m
