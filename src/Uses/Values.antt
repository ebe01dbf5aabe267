-- ===== src/Uses/Values.antt =====
-- The set of the values that an instruction uses.
use pnacl_c.Base.{
  ℕ, ◌+◌, ◌-◌, ◌*◌, ◌/◌, ◌≤◌, ◌<◌, ◌≡◌, ◌⊎◌, inl, inr, refl, ◌∙◌, arith, true, false, if◌then◌else◌,
  leb, leb→le, leb→lt, ◌==◌, ==_iff, Bool-cases, List, [], ◌∷◌, ok,
}
use pnacl_c.BitSet.{BitSet, num_words}
use pnacl_c.BitSet.Laws.{member, with_bit, set_bit-with_bit, num_words-with_bit, member-with_bit}
use pnacl_c.Liveness.Push.{Among, here, there, both_true}
use pnacl_c.PredBbs.Fill.{Among-cons, Among-first}
use pnacl_c.Uses.{set_value_uses}

module _ (num_values first_id : ℕ) (ordered : num_values ≤ first_id) where
  -- A value of the function among some values, by its number in the set.
  abbrev pub Marked : List ℕ → ℕ → Type 0
  Marked ids i = (first_id ≤ num_values + i) × Among (num_values + i) ids

  pub record Marks (uses : BitSet) (ids : List ℕ) : Type 0 where
    pub after : BitSet
    pub returns : set_value_uses num_values first_id uses ids ≡ ok after
    pub same_size : num_words after ≡ num_words uses
    pub to : (i : ℕ) → member after i ≡ true → (member uses i ≡ true) ⊎ Marked ids i
    pub from : (i : ℕ) → (member uses i ≡ true) ⊎ Marked ids i → member after i ≡ true

  -- A value below the function's own is passed over.
  passed :
      (uses : BitSet) (v : ℕ) (ids : List ℕ)
      → leb first_id v ≡ false
      → Marks uses ids
      → Marks uses (v ∷ ids)
  unfolding set_value_uses
  passed uses v ids e r = record {
    after = r.after;
    returns = rw e r.returns;
    same_size = r.same_size;
    to = λ i h. wider i (r.to i h);
    from = λ i h. r.from i (narrower i h);
  }
    where
      wider :
          (i : ℕ)
          → (member uses i ≡ true) ⊎ Marked ids i
          → (member uses i ≡ true) ⊎ Marked (v ∷ ids) i
      wider i (inl h) = inl h
      wider i (inr (l, m)) = inr (l, there m)

      narrower :
          (i : ℕ)
          → (member uses i ≡ true) ⊎ Marked (v ∷ ids) i
          → (member uses i ≡ true) ⊎ Marked ids i
      narrower i (inl h) = inl h
      narrower i (inr (l, m)) = elim (Among-cons (num_values + i) v ids m) [
        | inl q ↦ absurd (omega (arith, l, q, leb→lt first_id v e))
        | inr k ↦ inr (l, k)
      ]

  marked :
      (uses : BitSet) (v : ℕ) (ids : List ℕ)
      → leb first_id v ≡ true
      → (v - num_values) / 32 < num_words uses
      → Marks (with_bit uses (v - num_values) true) ids
      → Marks uses (v ∷ ids)
  unfolding set_value_uses
  marked uses v ids e room r = record {
    after = r.after;
    returns = rw (e, set_bit-with_bit uses (v - num_values) true room) r.returns;
    same_size = r.same_size ∙ num_words-with_bit uses (v - num_values) true;
    to = λ i h. wider i (r.to i h);
    from = λ i h. r.from i (narrower i h);
  }
    where
      own : num_values ≤ v
      own = omega (arith, leb→le first_id v e)

      put :
          (i : ℕ)
          → member (with_bit uses (v - num_values) true) i
            ≡ (if i == (v - num_values) then true else member uses i)
      put i = member-with_bit uses (v - num_values) i true room

      wider :
          (i : ℕ)
          → (member (with_bit uses (v - num_values) true) i ≡ true) ⊎ Marked ids i
          → (member uses i ≡ true) ⊎ Marked (v ∷ ids) i
      wider i (inr (l, m)) = inr (l, there m)
      wider i (inl h) = elim (Bool-cases (i == (v - num_values))) [
        | inl q ↦
            let same = (==_iff i (v - num_values)).0 q in
            inr (
              omega (arith, own, same, leb→le first_id v e),
              Among-first (num_values + i) v ids (omega (arith, own, same)),
            )
        | inr q ↦ inl (rw (put i, q) at h)
      ]

      narrower :
          (i : ℕ)
          → (member uses i ≡ true) ⊎ Marked (v ∷ ids) i
          → (member (with_bit uses (v - num_values) true) i ≡ true) ⊎ Marked ids i
      narrower i (inl h) = inl (rw (put i, h) (both_true (i == (v - num_values))))
      narrower i (inr (l, m)) = elim (Among-cons (num_values + i) v ids m) [
        | inl q ↦ inl (rw (put i, (==_iff i (v - num_values)).1 (omega (arith, q))) refl)
        | inr k ↦ inr (l, k)
      ]

  pub set_value_uses-Marks :
      (uses : BitSet) (ids : List ℕ)
      → ((v : ℕ) → Among v ids → v < num_values + 32 * num_words uses)
      → Marks uses ids
  unfolding set_value_uses
  set_value_uses-Marks uses [] below = record {
    after = uses;
    returns = refl;
    same_size = refl;
    to = λ i h. inl h;
    from = λ i h. elim h [ inl k ↦ k | inr k ↦ elim k.1 [ ] ];
  }
  set_value_uses-Marks uses (v ∷ ids) below = elim (Bool-cases (leb first_id v)) [
    | inl e ↦ marked uses v ids e (omega (arith, below v here, leb→le first_id v e)) (
        set_value_uses-Marks (with_bit uses (v - num_values) true) ids
          (λ u m. omega (arith, below u (there m), num_words-with_bit uses (v - num_values) true)))
    | inr e ↦ passed uses v ids e (set_value_uses-Marks uses ids (λ u m. below u (there m)))
  ]
