-- ===== src/Uses/Tests.antt =====
-- Tests of the uses of a block, and a run at which their theorem applies.
use pnacl_c.Base.{
  ℕ, zero, suc, ◌≤◌, ◌<◌, ◌≡◌, ◌↔◌, refl, subst, arith, List, [], ◌∷◌, some, inl, inr, ok, fatal,
  fault,
}
use pnacl_c.BitSet.{init, set_bit}
use pnacl_c.Machine.Atomic.{clz, ctz}
use pnacl_c.Machine.State.{invalid_value_id}
use pnacl_c.Liveness.Push.{Among}
use pnacl_c.Uses.{
  Instruction, used_values, phi_uses_of, set_value_uses, use_instructions, word_bits, list_uses,
  basic_block_calculate_uses,
}
use pnacl_c.Uses.Spec.{IsKnown, Takes, all_phi_uses}
use pnacl_c.Uses.Blocks.{IsUsed, AllBelow, basic_block_calculate_uses-IsUsed}

-- A phi, a store of an argument, a select that takes a value twice, and a return of nothing.
abbrev insts : List Instruction
insts =
    Instruction.phi 12 ((0, 4) ∷ (1, 14) ∷ [])
    ∷ Instruction.store 11 13
    ∷ Instruction.vselect 13 43 12
    ∷ Instruction.ret invalid_value_id
    ∷ []

basic_block_calculate_uses_test :
    basic_block_calculate_uses 10 12 40 insts
    ≡ ok (
      12 ∷ 13 ∷ 43 ∷ [],
      record { dest_value_id = 12; incoming_bb_id = 0; incoming_value_id = 4 }
          ∷ record { dest_value_id = 12; incoming_bb_id = 1; incoming_value_id = 14 }
          ∷ [],
    )
unfolding basic_block_calculate_uses use_instructions used_values phi_uses_of set_value_uses set_bit
    init list_uses word_bits clz ctz
basic_block_calculate_uses_test = refl

-- The set has a word for 40 values, and one of number 64 is outside of its two.
outside_test : basic_block_calculate_uses 10 12 40 (Instruction.load 74 ∷ []) ≡ fault
unfolding basic_block_calculate_uses use_instructions used_values phi_uses_of set_value_uses set_bit
    init list_uses word_bits clz ctz
outside_test = refl

other_test : basic_block_calculate_uses 10 12 40 (Instruction.other ∷ []) ≡ fatal
unfolding basic_block_calculate_uses use_instructions used_values
other_test = refl

-- A sum of an argument and a value, that is returned.
abbrev sum : List Instruction
sum = Instruction.binop 11 12 ∷ Instruction.ret 13 ∷ []

-- A known instruction that takes values below the bound.
abbrev Low : Instruction → Type 0
Low inst = IsKnown inst × ((v : ℕ) → Takes inst v → v < 74)

binop-Low : Low (Instruction.binop 11 12)
binop-Low = (tt, λ v t. elim t [ inl q ↦ omega (arith, q) | inr q ↦ omega (arith, q) ])

ret-Low : Low (Instruction.ret 13)
ret-Low = (tt, λ v t. omega (arith, t.0))

the_same : {inst inst' : Instruction} → some inst ≡ some inst' → inst ≡ inst'
the_same q = cc

sum-AllBelow : AllBelow 74 sum
sum-AllBelow zero inst q = subst (λ (i : Instruction). Low i) (the_same q) binop-Low
sum-AllBelow (suc zero) inst q = subst (λ (i : Instruction). Low i) (the_same q) ret-Low
sum-AllBelow (suc (suc k)) inst q = cc

basic_block_calculate_uses-IsUsed_example :
    (uses : List ℕ) × (basic_block_calculate_uses 10 12 40 sum ≡ ok (uses, all_phi_uses sum))
    × ((v : ℕ) → Among v uses ↔ ((12 ≤ v) × IsUsed sum v))
basic_block_calculate_uses-IsUsed_example =
    basic_block_calculate_uses-IsUsed 10 12 40 sum (omega arith) (omega arith) sum-AllBelow
