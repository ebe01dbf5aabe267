-- ===== src/Executor/Registers.antt =====
-- The values that a thread's instructions read and write.
use pnacl_c.Base.{ℕ, ◌+◌, ◌-◌, ◌≤◌, ◌<◌, ◌≡◌, ◌≢◌, refl, arith, length, set, leb}
use pnacl_c.Base.{
  le→leb, lt→ltb, get_elem?-set_self, get_elem?-set_ne, Bool-cases, inl, inr, leb→le,
}
use pnacl_c.Base.{ok}
use pnacl_c.Executor.{Thread, num_values, get_value, set_value}

-- A result that a thread may write: a value of the current function.
abbrev pub IsLocal : Thread → ℕ → Type 0
IsLocal t i = (num_values t ≤ i) × (i < num_values t + length t.function_values)

-- The thread with value `i` replaced.
abbrev pub with_value : Thread → ℕ → ℕ → Thread
with_value t i v = record t { function_values = set t.function_values (i - num_values t) v }

module _ (t : Thread) (i v : ℕ) (local : IsLocal t i) where
  pub set_value-IsLocal : set_value t i v ≡ ok (with_value t i v)
  unfolding set_value
  set_value-IsLocal = rw (
    le→leb _ _ local.0,
    lt→ltb (i - num_values t) (length t.function_values) (omega (arith, local)),
  )

  pub get_value_self : get_value (with_value t i v) i ≡ ok v
  unfolding get_value
  get_value_self = rw (
    le→leb _ _ local.0,
    get_elem?-set_self t.function_values (i - num_values t) v (omega (arith, local)),
  )

  pub get_value_ne : (j : ℕ) → i ≢ j → get_value (with_value t i v) j ≡ get_value t j
  unfolding get_value
  get_value_ne j ne = elim (Bool-cases (leb (num_values t) j)) [
    | inl h ↦ rw (
      h,
      get_elem?-set_ne t.function_values (i - num_values t) (j - num_values t) v
          (λ e. ne (omega (arith, local, leb→le (num_values t) j h))),
    )
    | inr h ↦ rw h
  ]

-- A local value that is set reads back, every other value reads as before, and nothing else of
-- the thread changes.
pub get_value-set_value :
    (t : Thread) (i v : ℕ)
    → IsLocal t i
    → (t' : Thread) × (set_value t i v ≡ ok t')
      × (get_value t' i ≡ ok v)
      × ((j : ℕ) → i ≢ j → get_value t' j ≡ get_value t j)
      × (t'.module_values ≡ t.module_values)
      × (t'.inst ≡ t.inst)
get_value-set_value t i v l = (
  with_value t i v,
  set_value-IsLocal t i v l,
  get_value_self t i v l,
  get_value_ne t i v l,
  refl,
  refl,
)
