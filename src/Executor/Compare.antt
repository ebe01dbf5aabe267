-- ===== src/Executor/Compare.antt =====
-- A compiled comparison: the opcode that it gets, and the case that executes it.
pub mod Floats
pub mod Words
use pnacl_c.Base.{ℕ, suc, ◌+◌, ◌-◌, ◌*◌, ◌/◌, ◌%◌, ◌^◌, ◌≤◌, ◌<◌, ◌≡◌, refl, arith, ◌≢◌}
use pnacl_c.Base.{
  Bool, true, false, not, ◌&&◌, ◌||◌, if◌then◌else◌, ltb, leb, ◌==◌, Result, ok, fatal, fault,
  stuck, ◌>>=◌, ◌∙◌, ap,
}
use pnacl_c.Base.Int.{ℤ, pos, negsuc, signed, ltb_ℤ}
use pnacl_c.Opcode.{cmp2_opcode}
use pnacl_c.Opcode.Codes.{BasicType, Cmp2}
use pnacl_c.Executor.{cmp2_case}
use pnacl_c.Executor.Fields.{
  Scalar, Host, Order, Relation, Test, width, get, make, passes, holds, compare_value, order_of,
  order_ℤ,
}
use pnacl_c.Executor.Select.{
  any_float, any_word, unsigned_field, signed_field, expected_cmp2, expects, cmp2_case-cmp2_opcode,
}

-- The 0 or 1 that a compiled comparison leaves in the u8 of its result.
pub run_cmp2 : Host → ℕ → Cmp2 → BasicType → ℕ → ℕ → Result ℕ
unfolding cmp2_opcode cmp2_case compare_value
run_cmp2 host junk op t v0 v1 = do
  o ← cmp2_opcode op t
  ok (get Scalar.u8 (compare_value host junk (cmp2_case o) v0 v1))

abbrev pub bool_value : Bool → ℕ
bool_value b = if b then 1 else 0

bind-bind_ok :
    {A B C : Type 0} (m : Result A) (f : A → B) (g : B → C)
    → (m >>= λ a. ok (g (f a))) ≡ ((m >>= λ a. ok (f a)) >>= λ b. ok (g b))
bind-bind_ok (ok a) f g = refl
bind-bind_ok fatal f g = refl
bind-bind_ok fault f g = refl
bind-bind_ok stuck f g = refl

low_byte : (junk : ℕ) (b : Bool) → get Scalar.u8 (make junk Scalar.u8 (bool_value b)) ≡ bool_value b
low_byte junk true = omega arith
low_byte junk false = omega arith

module _ (host : Host) (junk : ℕ) (v0 v1 : ℕ) where
  pub compare_value-passes :
      (t : Test) (s : Scalar)
      → get Scalar.u8 (compare_value host junk (t, s) v0 v1)
        ≡ bool_value (passes t (order_of host s v0 v1))
  unfolding compare_value
  compare_value-passes t s = low_byte junk (passes t (order_of host s v0 v1))

  -- Through the case that the opcode has in the executor.
  pub run_cmp2-expected :
      (op : Cmp2) (t : BasicType)
      → run_cmp2 host junk op t v0 v1
        ≡ (expected_cmp2 op t >>= λ c. ok (get Scalar.u8 (compare_value host junk c v0 v1)))
  unfolding run_cmp2
  run_cmp2-expected op t =
      bind-bind_ok (cmp2_opcode op t) cmp2_case
        (λ c. get Scalar.u8 (compare_value host junk c v0 v1))
      ∙ rw (cmp2_case-cmp2_opcode op t)
