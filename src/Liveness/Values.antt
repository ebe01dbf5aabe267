-- ===== src/Liveness/Values.antt =====
-- The walk for one value ends, with the blocks that the value is live into.
use pnacl_c.Base.{
  ℕ, zero, suc, ◌+◌, ◌/◌, ◌≤◌, ◌<◌, ◌≡◌, ◌⊎◌, inl, inr, refl, ap, subst, arith, true, false,
  Bool-cases, List, [], ◌∷◌, length, get_elem?, get_or, get_elem?-some, some, Result, ok,
}
use pnacl_c.BitSet.{num_words}
use pnacl_c.BitSet.Laws.{member, with_bit, is_set-member, set_bit-with_bit}
use pnacl_c.Liveness.{extend, Block, LivenessRange, Walk, defines, visit, walk, push_preds}
use pnacl_c.Liveness.Count.{count_le}
use pnacl_c.Liveness.Push.{Among, here, Pushed, push_preds-Pushed}
use pnacl_c.Liveness.Rounds.{
  Reached, IsLiveIn, IsClosed, Going, Reached-below, skip, found_live, nil_block, at_use, back,
}

List-cases : (l : List ℕ) → (l ≡ []) ⊎ ((x : ℕ) × (xs : List ℕ) × (l ≡ x ∷ xs))
List-cases [] = inl refl
List-cases (x ∷ xs) = inr (x, xs, refl)

module _ (bbs : List Block) (value_id initial : ℕ) (closed : IsClosed bbs value_id initial)
    (old : LivenessRange) where
  Stepped : Walk → ℕ → Result Walk → Type 0
  Stepped w popped r = (w' : Walk) × (r ≡ ok w') × Going bbs value_id initial old w' (suc popped)

  -- A round.
  visit-Stepped :
      (w : Walk) (bb_id : ℕ) (stack : List ℕ) (popped : ℕ)
      → w.stack ≡ bb_id ∷ stack
      → Going bbs value_id initial old w popped
      → Stepped w popped (visit bbs value_id (record w { stack = stack }) bb_id)
  unfolding visit Stepped IsClosed
  visit-Stepped w bb_id stack popped e g = elim (Bool-cases (defines bb value_id)) [
    | inl d ↦ (
      record w { stack = stack },
      rw (there_is, d) refl,
      skip bbs value_id initial old w bb_id stack popped e g (contra d),
    )
    | inr d ↦ elim (Bool-cases (member w.livein bb_id)) [
      | inl h ↦ (
        record w { stack = stack },
        rw (there_is, d, is_set-member w.livein bb_id live_room, h) refl,
        skip bbs value_id initial old w bb_id stack popped e g (λ bb' k l. h),
      )
      | inr h ↦ (
        next,
        rw
            (
              there_is,
              d,
              is_set-member w.livein bb_id live_room,
              h,
              set_bit-with_bit w.livein bb_id true live_room,
              pushed.returns,
            )
            refl,
        found_live bbs value_id initial old w bb_id stack popped bb e g below there_is d pushed,
      )
    ]
  ]
    where
      below : bb_id < length bbs
      below =
          Reached-below bbs value_id initial closed
            (g.seen_Reached bb_id (g.waiting_seen bb_id (rw e here)))

      bb : Block
      bb = get_or bbs bb_id nil_block

      there_is : get_elem? bbs bb_id ≡ some bb
      there_is = get_elem?-some bbs bb_id nil_block below

      live_room : bb_id / 32 < num_words w.livein
      live_room = omega (arith, g.live_room, below)

      pushed :
          Pushed
            (length bbs)
            w.seen_bbs
            stack
            bb.pred_bb_ids
            (push_preds (length bbs) w.seen_bbs stack bb.pred_bb_ids)
      pushed =
          push_preds-Pushed (length bbs) w.seen_bbs stack bb.pred_bb_ids g.seen_room
            (λ i m. closed.1 bb_id i bb there_is m) (omega (arith, g.balance, ap length e))

      next : Walk
      next = record {
        livein = with_bit w.livein bb_id true;
        seen_bbs = pushed.seen';
        stack = pushed.stack';
        range = extend w.range bb_id;
      }

      one_block :
          {a b : Block} → get_elem? bbs bb_id ≡ some a → get_elem? bbs bb_id ≡ some b → b ≡ a
      one_block k l = cc

      contra :
          defines bb value_id ≡ true
          → (bb' : Block) → get_elem? bbs bb_id ≡ some bb'
          → defines bb' value_id ≡ false
          → member w.livein bb_id ≡ true
      contra d bb' k l =
          let not_defined =
            subst (λ (b : Block). defines b value_id ≡ false) (one_block there_is k) l in
          cc

  unfoldable pub Ended : Result Walk → Type 0
  Ended r =
      (w' : Walk) × (popped : ℕ) × (r ≡ ok w')
      × (w'.stack ≡ [])
      × Going bbs value_id initial old w' popped

  -- The rounds, each of which takes a block that has not been taken before.
  pub walk-Ended :
      (fuel : ℕ) (w : Walk) (popped : ℕ)
      → length bbs ≤ fuel + popped
      → Going bbs value_id initial old w popped
      → Ended (walk fuel bbs value_id w)
  unfolding walk Ended Stepped
  walk-Ended zero w popped enough g = elim (List-cases w.stack) [
    | inl e ↦ (w, popped, rw e refl, e, g)
    | inr (x, xs, e) ↦
        absurd (omega (arith, g.balance, ap length e, count_le (member w.seen_bbs) (length bbs)))
  ]
  walk-Ended (suc fuel) w popped enough g = elim (List-cases w.stack) [
    | inl e ↦ (w, popped, rw e refl, e, g)
    | inr (x, xs, e) ↦
        let round = visit-Stepped w x xs popped e g in
        let rest = walk-Ended fuel round.0 (suc popped) (omega arith) round.2 in
        (rest.0, rest.1, rw (e, round.1) rest.2, rest.3, rest.4)
  ]

  -- With no block left on the stack, all blocks that are reached were seen, and the value is live
  -- into those of them that do not define it.
  module _ (w : Walk) (popped : ℕ) (g : Going bbs value_id initial old w popped)
      (empty : w.stack ≡ []) where
    processed :
        (i : ℕ) (bb : Block)
        → member w.seen_bbs i ≡ true
        → get_elem? bbs i ≡ some bb
        → defines bb value_id ≡ false
        → member w.livein i ≡ true
    processed i bb h k l = elim (g.processed i h) [
      | inl m ↦ none_left (rw empty at m)
      | inr d ↦ d bb k l
    ]
      where
        none_left : Among i [] → member w.livein i ≡ true
        none_left m = elim m [ ]

    Reached-seen : {i : ℕ} → Reached bbs value_id initial i → member w.seen_bbs i ≡ true
    Reached-seen at_use = g.begun
    Reached-seen (back {b} {pred} {bb} r k l m) =
        g.live_preds b pred bb (processed b bb (Reached-seen r) k l) k m

    pub IsLiveIn-livein : (i : ℕ) → IsLiveIn bbs value_id initial i → member w.livein i ≡ true
    IsLiveIn-livein i (r, (bb, k, l)) = processed i bb (Reached-seen r) k l
