-- ===== src/ResultTypes/Rounds.antt =====
-- The rounds end, and leave no result without a type.
use pnacl_c.Base.{
  ℕ, zero, suc, ◌+◌, ◌≤◌, ◌≡◌, ◌≢◌, ◌⊎◌, inl, inr, refl, sym, ap, subst, ◌∙◌, arith, Bool, true,
  false, List, [], ◌∷◌, ◌++◌, length, length-append,
}
use pnacl_c.Base.{Result, ok, fatal, stuck, if◌then◌else◌, ◌==◌, ==_iff, ==_ne, Bool-cases}
use pnacl_c.Base.{Ends, returned, in_fatal, in_fault, Ends-bind, Ends-ok, Ends-weaken}
use mathlib.Core.List.{Memᴰ}
use mathlib.Core.List.Memᴰ
use pnacl_c.ResultTypes.{
  ModuleType, Instruction, first_pass, put_second, last_first, run_round, run_rounds,
  calculate_result_value_types,
}
use pnacl_c.ResultTypes.Typed.{
  ResultHasType, Keeps, ResultHasType-Keeps, calculate_instruction-Ends,
}

length-put_second :
    (inst : Instruction) (insts : List Instruction)
    → length (put_second inst insts) ≡ suc (length insts)
length-put_second inst [] = refl
length-put_second inst (last ∷ insts) = refl

length-last_first : (insts : List Instruction) → length (last_first insts) ≡ length insts
length-last_first [] = refl
length-last_first (inst ∷ insts) =
    length-put_second inst (last_first insts) ∙ ap suc (length-last_first insts)

Mem-put_second :
    {i : Instruction} (inst : Instruction) (insts : List Instruction)
    → Memᴰ i (inst ∷ insts)
    → Memᴰ i (put_second inst insts)
Mem-put_second inst [] m = m
Mem-put_second inst (last ∷ insts) (Memᴰ.head e) = Memᴰ.tail (Memᴰ.head e)
Mem-put_second inst (last ∷ insts) (Memᴰ.tail (Memᴰ.head e)) = Memᴰ.head e
Mem-put_second inst (last ∷ insts) (Memᴰ.tail (Memᴰ.tail m)) = Memᴰ.tail (Memᴰ.tail m)

Mem-last_first :
    {i : Instruction} (insts : List Instruction) → Memᴰ i insts → Memᴰ i (last_first insts)
Mem-last_first [] m = elim m [ ]
Mem-last_first (inst ∷ insts) (Memᴰ.head e) = Mem-put_second inst (last_first insts) (Memᴰ.head e)
Mem-last_first (inst ∷ insts) (Memᴰ.tail m) =
    Mem-put_second inst (last_first insts) (Memᴰ.tail (Mem-last_first insts m))

-- An instruction has a type for its result, or is one of those that are left.
abbrev pub TypedOr : List ModuleType → List ℕ → List Instruction → Instruction → Type 0
TypedOr types type_ids left i = ResultHasType types type_ids i ⊎ Memᴰ i left

-- What a pass over `todo` does that keeps some instructions behind `kept`.
record Passed (types : List ModuleType) (type_ids : List ℕ) (kept todo : List Instruction)
    (r : List Instruction × List ℕ) : Type 0 where
  pub keeps : Keeps types type_ids r.1
  pub fewer : length r.0 ≤ length kept + length todo
  pub from_kept : (i : Instruction) → Memᴰ i kept → Memᴰ i r.0
  pub from_todo : (i : Instruction) → Memᴰ i todo → TypedOr types r.1 r.0 i

by_Mem :
    {C : Type 0} {i inst : Instruction} {insts : List Instruction}
    → Memᴰ i (inst ∷ insts)
    → (i ≡ inst → C)
    → (Memᴰ i insts → C)
    → C
by_Mem (Memᴰ.head e) k l = k e
by_Mem (Memᴰ.tail m) k l = l m

suc_ne : (n : ℕ) → (suc n == 0) ≡ false
suc_ne n = ground arith

module _ (types : List ModuleType) where
  -- After an instruction: it is kept, unless it was resolved.
  step :
      (resolved : Bool) (type_ids type_ids' : List ℕ) (inst : Instruction)
      (kept todo next : List Instruction) (r : List Instruction × List ℕ)
      → Keeps types type_ids type_ids'
      → (resolved ≡ true → ResultHasType types type_ids' inst)
      → length next ≡ length todo
      → ((i : Instruction) → Memᴰ i todo → Memᴰ i next)
      → Passed types type_ids' (if resolved then kept else kept ++ inst ∷ []) next r
      → Passed types type_ids kept (inst ∷ todo) r
  step true type_ids type_ids' inst kept todo next r keeps typed same to_next p = record {
    keeps = λ v h. p.keeps v (keeps v h);
    fewer = omega (arith, p.fewer, same);
    from_kept = p.from_kept;
    from_todo = λ i m.
        by_Mem m
          (λ e. inl (
            subst (ResultHasType types r.1) (sym e)
              (ResultHasType-Keeps types type_ids' r.1 inst p.keeps (typed refl))))
          (λ m'. p.from_todo i (to_next i m'));
  }
  step false type_ids type_ids' inst kept todo next r keeps typed same to_next p = record {
    keeps = λ v h. p.keeps v (keeps v h);
    fewer = omega (arith, p.fewer, same, length-append kept (inst ∷ []));
    from_kept = λ i m. p.from_kept i (Memᴰ.append_left (inst ∷ []) m);
    from_todo = λ i m.
        by_Mem m (λ e. inr (p.from_kept i (Memᴰ.append_right kept (Memᴰ.head e))))
          (λ m'. p.from_todo i (to_next i m'));
  }

  run_round-Ends :
      (left : ℕ) (type_ids : List ℕ) (kept todo : List Instruction)
      → length todo ≤ left
      → Ends (Passed types type_ids kept todo) (run_round left types type_ids kept todo)
  unfolding run_round
  run_round-Ends left type_ids kept [] enough = returned (record {
    keeps = λ v h. h;
    fewer = omega arith;
    from_kept = λ i m. m;
    from_todo = λ i m. elim m [ ];
  })
  run_round-Ends zero type_ids kept (inst ∷ insts) enough = absurd (omega arith)
  run_round-Ends (suc left) type_ids kept (inst ∷ insts) enough =
      Ends-bind (calculate_instruction-Ends types type_ids inst)
        (λ r h. after (λ ids k next. run_round-Ends left ids k next) r.0 r.1 h)
    where
      after :
          ((ids : List ℕ) (k next : List Instruction)
            → length next ≤ left
            → Ends (Passed types ids k next) (run_round left types ids k next))
          → (resolved : Bool) (type_ids' : List ℕ)
          → Keeps types type_ids type_ids' × (resolved ≡ true → ResultHasType types type_ids' inst)
          → Ends (Passed types type_ids kept (inst ∷ insts)) (
              run_round left types type_ids'
                (if resolved then kept else kept ++ inst ∷ [])
                (if resolved then last_first insts else insts))
      after rest true type_ids' h =
          Ends-weaken
            (λ s p.
              step true type_ids type_ids' inst kept insts (last_first insts) s h.0 h.1
                (length-last_first insts) (λ i m. Mem-last_first insts m) p)
            (rest type_ids' kept (last_first insts) (omega (arith, length-last_first insts)))
      after rest false type_ids' h =
          Ends-weaken
            (λ s p. step false type_ids type_ids' inst kept insts insts s h.0 h.1 refl (λ i m. m) p)
            (rest type_ids' (kept ++ inst ∷ []) insts (omega arith))

  -- What is known of the instructions after a pass over those that were left.
  abbrev AllTypedOr : List Instruction → List ℕ → List Instruction → Type 0
  AllTypedOr insts type_ids left = (i : Instruction) → Memᴰ i insts → TypedOr types type_ids left i

  AllTypedOr-Passed :
      (insts invalid : List Instruction) (type_ids : List ℕ) (r : List Instruction × List ℕ)
      → AllTypedOr insts type_ids invalid
      → Passed types type_ids [] invalid r
      → AllTypedOr insts r.1 r.0
  AllTypedOr-Passed insts invalid type_ids r all p i m = elim (all i m) [
    | inl typed ↦ inl (ResultHasType-Keeps types type_ids r.1 i p.keeps typed)
    | inr left ↦ p.from_todo i left
  ]

  run_rounds-Ends :
      (insts : List Instruction) (fuel last_invalid : ℕ) (invalid : List Instruction)
      (type_ids : List ℕ)
      → (length invalid + 2 ≤ fuel) ⊎ ((1 ≤ fuel) × (last_invalid ≡ length invalid))
      → AllTypedOr insts type_ids invalid
      → Ends (λ r. AllTypedOr insts r.1 r.0) (run_rounds fuel types last_invalid invalid type_ids)
  unfolding run_rounds
  run_rounds-Ends insts zero last_invalid invalid type_ids enough all = absurd (ground arith)
  run_rounds-Ends insts (suc fuel) last_invalid invalid type_ids enough all =
      elim (Bool-cases (last_invalid == length invalid)) [
        | inl e ↦ rw e (returned all)
        | inr e ↦ rw e (
            Ends-bind (run_round-Ends (length invalid) type_ids [] invalid (omega arith))
              (λ (invalid', type_ids') p.
                run_rounds-Ends insts fuel (length invalid) invalid' type_ids'
                  (fuel_left invalid' p.fewer (ground arith))
                  (AllTypedOr-Passed insts invalid type_ids (invalid', type_ids') all p)))
      ]
    where
      fuel_left :
          (invalid' : List Instruction)
          → length invalid' ≤ 0 + length invalid
          → length invalid + 2 ≤ suc fuel
          → (length invalid' + 2 ≤ fuel) ⊎ ((1 ≤ fuel) × (length invalid ≡ length invalid'))
      fuel_left invalid' fewer enough = elim (Bool-cases (length invalid == length invalid')) [
        | inl same ↦ inr (omega arith, (==_iff (length invalid) (length invalid')).0 same)
        | inr less ↦ inl (omega (arith, ==_ne (length invalid) (length invalid') less))
      ]

  first_pass-Ends :
      (type_ids : List ℕ) (invalid insts : List Instruction)
      → Ends (Passed types type_ids invalid insts) (first_pass types type_ids invalid insts)
  unfolding first_pass
  first_pass-Ends type_ids invalid [] = returned (record {
    keeps = λ v h. h;
    fewer = omega arith;
    from_kept = λ i m. m;
    from_todo = λ i m. elim m [ ];
  })
  first_pass-Ends type_ids invalid (inst ∷ insts) =
      Ends-bind (calculate_instruction-Ends types type_ids inst) (λ r h.
        Ends-weaken
          (λ s p. step r.0 type_ids r.1 inst invalid insts insts s h.0 h.1 refl (λ i m. m) p)
          (first_pass-Ends r.1 (if r.0 then invalid else invalid ++ inst ∷ []) insts))

  calculate-Ends :
      (type_ids : List ℕ) (insts : List Instruction)
      → Ends
          (λ after. (i : Instruction) → Memᴰ i insts → ResultHasType types after i)
          (calculate_result_value_types types type_ids insts)
  unfolding calculate_result_value_types
  calculate-Ends type_ids insts =
      Ends-bind (first_pass-Ends type_ids [] insts) (λ (invalid, type_ids') p.
        Ends-bind
          (run_rounds-Ends insts (length invalid + 2) 0 invalid type_ids' (inl (omega arith))
            p.from_todo)
          (λ (unresolved, type_ids'') all. none_left unresolved type_ids'' all))
    where
      not_left :
          (ids : List ℕ) (i : Instruction) → TypedOr types ids [] i → ResultHasType types ids i
      not_left ids i (inl typed) = typed
      not_left ids i (inr m) = elim m [ ]

      none_left :
          (unresolved : List Instruction) (after : List ℕ)
          → AllTypedOr insts after unresolved
          → Ends
              (λ ids. (i : Instruction) → Memᴰ i insts → ResultHasType types ids i)
              (if length unresolved == 0 then ok after else fatal)
      none_left [] after all = returned {a = after} (λ i m. not_left after i (all i m))
      none_left (u ∷ us) after all = rw (suc_ne (length us)) in_fatal

-- The calculation ends: as many rounds as there are unresolved instructions, and two more, are
-- enough for any instructions.
pub calculate_result_value_types-ends :
    (types : List ModuleType) (type_ids : List ℕ) (insts : List Instruction)
    → calculate_result_value_types types type_ids insts ≢ stuck
calculate_result_value_types-ends types type_ids insts e =
    not_stuck (calculate-Ends types type_ids insts) e
  where
    not_stuck :
        {r : Result (List ℕ)}
        → Ends (λ after. (i : Instruction) → Memᴰ i insts → ResultHasType types after i) r
        → r ≡ stuck
        → ⊥
    not_stuck (returned h) e = cc
    not_stuck in_fatal e = cc
    not_stuck in_fault e = cc

-- If the calculation returns, then the result of every binary operation and vselect has a type of
-- the module.
pub calculate_result_value_types-typed :
    (types : List ModuleType) (type_ids : List ℕ) (insts : List Instruction) {after : List ℕ}
    → calculate_result_value_types types type_ids insts ≡ ok after
    → (i : Instruction) → Memᴰ i insts
    → ResultHasType types after i
calculate_result_value_types-typed types type_ids insts h i m =
    Ends-ok (calculate-Ends types type_ids insts) h i m
