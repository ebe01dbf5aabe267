-- ===== src/Uses/Blocks.antt =====
-- The pass over a block.
use pnacl_c.Base.{
  ◌-◌, ℕ, zero, suc, ◌+◌, ◌*◌, ◌^◌, ◌≤◌, ◌<◌, ◌≡◌, ◌⊎◌, ◌↔◌, inl, inr, refl, sym, ap, ◌∙◌, subst,
  arith, true, List, [], ◌∷◌, ◌++◌, length-replicate, get_elem?, some, ok,
}
use pnacl_c.BitSet.{BitSet, num_words, init, num_words_of}
use pnacl_c.BitSet.Laws.{member, member-init}
use pnacl_c.Phi.{PhiUse}
use pnacl_c.Liveness.Push.{Among}
use pnacl_c.Uses.{Instruction, phi_uses_of, use_instructions, list_uses, basic_block_calculate_uses}
use pnacl_c.Uses.Spec.{
  Takes, IsKnown, Listing, all_phi_uses, phi_uses_of-first, used_values-Listing,
}
use pnacl_c.Uses.Listing.{Listed, list_uses-to, list_uses-from}
use pnacl_c.Uses.Values.{Marks, set_value_uses-Marks}

-- One of the instructions takes a value.
abbrev pub IsUsed : List Instruction → ℕ → Type 0
IsUsed insts v = (k : ℕ) × (inst : Instruction) × (get_elem? insts k ≡ some inst) × Takes inst v

-- Every instruction has a code, and takes values below a bound.
abbrev pub AllBelow : ℕ → List Instruction → Type 0
AllBelow bound insts =
    (k : ℕ) (inst : Instruction)
    → get_elem? insts k ≡ some inst
    → IsKnown inst × ((v : ℕ) → Takes inst v → v < bound)

append_assoc : (a b c : List PhiUse) → (a ++ b) ++ c ≡ a ++ (b ++ c)
append_assoc [] b c = refl
append_assoc (x ∷ a) b c = ap (λ l. x ∷ l) (append_assoc a b c)

append_nil : (a : List PhiUse) → a ++ [] ≡ a
append_nil [] = refl
append_nil (x ∷ a) = ap (λ l. x ∷ l) (append_nil a)

module _ (num_values first_id : ℕ) (ordered : num_values ≤ first_id) where
  record Used (uses : BitSet) (phi_uses : List PhiUse) (insts : List Instruction) : Type 0 where
    after : BitSet
    returns :
        use_instructions num_values first_id uses phi_uses insts
        ≡ ok (after, phi_uses ++ all_phi_uses insts)
    same_size : num_words after ≡ num_words uses
    to :
        (i : ℕ)
        → member after i ≡ true
        → (member uses i ≡ true) ⊎ ((first_id ≤ num_values + i) × IsUsed insts (num_values + i))
    from :
        (i : ℕ)
        → (member uses i ≡ true) ⊎ ((first_id ≤ num_values + i) × IsUsed insts (num_values + i))
        → member after i ≡ true

  one_instruction :
      (uses : BitSet) (phi_uses : List PhiUse) (inst : Instruction) (insts : List Instruction)
      (listing : Listing inst)
      → (own : Marks num_values first_id ordered uses listing.0)
      → Used own.after (phi_uses ++ phi_uses_of inst) insts
      → Used uses phi_uses (inst ∷ insts)
  unfolding use_instructions
  one_instruction uses phi_uses inst insts (ids, e, takes) own rest = record {
    after = rest.after;
    returns =
        rw
          (
            e,
            own.returns,
            rest.returns,
            append_assoc phi_uses (phi_uses_of inst) (all_phi_uses insts),
            phi_uses_of-first inst insts,
          )
          refl;
    same_size = rest.same_size ∙ own.same_size;
    to = λ i h. wider i (rest.to i h);
    from = λ i h. rest.from i (narrower i h);
  }
    where
      wider :
          (i : ℕ)
          → (member own.after i ≡ true)
            ⊎ ((first_id ≤ num_values + i) × IsUsed insts (num_values + i))
          → (member uses i ≡ true)
            ⊎ ((first_id ≤ num_values + i) × IsUsed (inst ∷ insts) (num_values + i))
      wider i (inr (l, (k, inst', q, t))) = inr (l, (suc k, inst', q, t))
      wider i (inl h) = elim (own.to i h) [
        | inl m ↦ inl m
        | inr m ↦ inr (m.0, (0, inst, refl, (takes (num_values + i)).0 m.1))
      ]

      same : {inst' : Instruction} → some inst ≡ some inst' → inst' ≡ inst
      same q = cc

      first : (v : ℕ) (inst' : Instruction) → some inst ≡ some inst' → Takes inst' v → Among v ids
      first v inst' q t = (takes v).1 (subst (λ (j : Instruction). Takes j v) (same q) t)

      narrower :
          (i : ℕ)
          → (member uses i ≡ true)
            ⊎ ((first_id ≤ num_values + i) × IsUsed (inst ∷ insts) (num_values + i))
          → (member own.after i ≡ true)
            ⊎ ((first_id ≤ num_values + i) × IsUsed insts (num_values + i))
      narrower i (inl h) = inl (own.from i (inl h))
      narrower i (inr (l, (zero, inst', q, t))) =
          inl (own.from i (inr (l, first (num_values + i) inst' q t)))
      narrower i (inr (l, (suc k, inst', q, t))) = inr (l, (k, inst', q, t))

  use_instructions-Used :
      (uses : BitSet) (phi_uses : List PhiUse) (insts : List Instruction)
      → AllBelow (num_values + 32 * num_words uses) insts
      → Used uses phi_uses insts
  unfolding use_instructions
  use_instructions-Used uses phi_uses [] below = record {
    after = uses;
    returns = rw (append_nil phi_uses) refl;
    same_size = refl;
    to = λ i h. inl h;
    from = λ i h. elim h [ inl k ↦ k | inr k ↦ no_instruction i k.1 ];
  }
    where
      no_instruction : (i : ℕ) → IsUsed [] (num_values + i) → member uses i ≡ true
      no_instruction i (k, inst, q, t) = cc
  use_instructions-Used uses phi_uses (inst ∷ insts) below =
      let (known, low) = below 0 inst refl in
      let listing = used_values-Listing inst known in
      let own =
        set_value_uses-Marks num_values first_id ordered uses listing.0
          (λ v m. low v ((listing.2 v).0 m)) in
      one_instruction uses phi_uses inst insts listing own (
        use_instructions-Used own.after (phi_uses ++ phi_uses_of inst) insts (λ k inst' q.
          let (known', low') = below (suc k) inst' q in
          (known', λ v t. omega (arith, low' v t, own.same_size))))

num_words-init : (size : ℕ) → num_words (init size) ≡ num_words_of size
unfolding init
num_words-init size = length-replicate {A = ℕ} (num_words_of size) 0

IsUsed-below :
    (bound : ℕ) (insts : List Instruction) (v : ℕ)
    → AllBelow bound insts
    → IsUsed insts v
    → v < bound
IsUsed-below bound insts v below (k, inst, q, t) = (below k inst q).1 v t

-- The set that the pass has filled, from an empty one.
module _ (num_values first_id function_values : ℕ) (insts : List Instruction)
    (ordered : num_values ≤ first_id)
    (run : Used num_values first_id ordered (init function_values) [] insts) where
  Used-to : (v : ℕ) → Listed num_values run.after v → (first_id ≤ v) × IsUsed insts v
  Used-to v (i, l, c, q) = elim (run.to i c) [
    | inl m ↦ empty m
    | inr m ↦ subst (λ (u : ℕ). (first_id ≤ u) × IsUsed insts u) (sym q) m
  ]
    where
      empty : member (init function_values) i ≡ true → (first_id ≤ v) × IsUsed insts v
      empty m = let none = member-init function_values i in cc

  Used-from :
      (v : ℕ)
      → AllBelow (num_values + 32 * num_words_of function_values) insts
      → (first_id ≤ v) × IsUsed insts v
      → Listed num_values run.after v
  Used-from v below (l, u) = (
    v - num_values,
    omega (
      arith,
      IsUsed-below (num_values + 32 * num_words_of function_values) insts v below u,
      own,
      run.same_size,
      num_words-init function_values,
    ),
    run.from (v - num_values) (inr (subst (λ (u : ℕ). (first_id ≤ u) × IsUsed insts u) own (l, u))),
    own,
  )
    where
      own : v ≡ num_values + (v - num_values)
      own = omega (arith, l, ordered)

-- In a function whose value ids fit their type, for instructions that take none above them, the
-- uses of a block are listed from the set of just those values of the function, after its arguments
-- and constants, that one of the instructions takes, and its phi uses are those of its phis.
pub basic_block_calculate_uses-IsUsed :
    (num_values first_id function_values : ℕ) (insts : List Instruction)
    → num_values ≤ first_id
    → num_values + 32 * num_words_of function_values ≤ 2 ^ 32
    → AllBelow (num_values + 32 * num_words_of function_values) insts
    → (uses : List ℕ) × (basic_block_calculate_uses num_values first_id function_values insts
        ≡ ok (uses, all_phi_uses insts))
      × ((v : ℕ) → Among v uses ↔ ((first_id ≤ v) × IsUsed insts v))
unfolding basic_block_calculate_uses
basic_block_calculate_uses-IsUsed num_values first_id function_values insts ordered room below = (
  list_uses num_values run.after,
  rw run.returns refl,
  λ v. (
    λ h.
        Used-to num_values first_id function_values insts ordered run v
          (list_uses-to num_values run.after v fits h),
    λ h.
        list_uses-from num_values run.after v fits
          (Used-from num_values first_id function_values insts ordered run v below h),
  ),
)
  where
    run : Used num_values first_id ordered (init function_values) [] insts
    run =
        use_instructions-Used num_values first_id ordered (init function_values) [] insts
          (rw (num_words-init function_values) below)

    fits : num_values + 32 * num_words run.after ≤ 2 ^ 32
    fits = omega (arith, run.same_size, num_words-init function_values)
