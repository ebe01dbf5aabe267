-- ===== src/Executor/Integers.antt =====
-- How the integer operations of one field belong together.
use pnacl_c.Base.{ℕ, ◌+◌, ◌-◌, ◌*◌, ◌/◌, ◌%◌, ◌^◌, ◌<◌, ◌≡◌, arith, ◌∙◌}
use pnacl_c.Base.{ok, ◌==◌, false, Bool-cases, inl, inr, ltb, ltb→lt}
use pnacl_c.Base.Bitwise.{two-pow_pos}
use pnacl_c.Executor.Fields.{Host, Operator, Scalar, Kind, kind, width, get, make, operate}
use native.Mathlib.Nat.{
  mod-lt, add-mul-mod_self_left, mod-eq_of_lt, div-add-mod, div-le_self, le_trans,
}
use Prim.Native.Nat.{suc-le-suc}

-- What a field of a new union holds is what was stored there, cut to the field.
pub get-make : (junk : ℕ) (s : Scalar) (x : ℕ) → get s (make junk s x) ≡ x % 2 ^ width s
get-make junk Scalar.i8 x = omega arith
get-make junk Scalar.u8 x = omega arith
get-make junk Scalar.i16 x = omega arith
get-make junk Scalar.u16 x = omega arith
get-make junk Scalar.i32 x = omega arith
get-make junk Scalar.u32 x = omega arith
get-make junk Scalar.i64 x = omega arith
get-make junk Scalar.u64 x = omega arith
get-make junk Scalar.f32 x = omega arith
get-make junk Scalar.f64 x = omega arith

module _ (host : Host) (junk : ℕ) (s : Scalar) (unsigned : kind s ≡ Kind.unsigned_kind)
    (v0 v1 : ℕ) where
  operate_add : operate host junk (Operator.c_add, s) v0 v1 ≡ ok (make junk s (get s v0 + get s v1))
  unfolding operate
  operate_add = rw unsigned

  operate_sub :
      operate host junk (Operator.c_sub, s) v0 v1
      ≡ ok (make junk s (get s v0 + 2 ^ width s - get s v1))
  unfolding operate
  operate_sub = rw unsigned

  operate_div :
      (get s v1 == 0) ≡ false
      → operate host junk (Operator.c_div, s) v0 v1 ≡ ok (make junk s (get s v0 / get s v1))
  unfolding operate
  operate_div h = rw (unsigned, h)

  operate_rem :
      (get s v1 == 0) ≡ false
      → operate host junk (Operator.c_rem, s) v0 v1 ≡ ok (make junk s (get s v0 % get s v1))
  unfolding operate
  operate_rem h = rw (unsigned, h)

module _ (m a : ℕ) (small : a < m) where
  -- One turn around the modulus.
  around : (x : ℕ) → x ≡ a + m → x % m ≡ a
  around x e = rw turn (add-mul-mod_self_left a m 1 ∙ mod-eq_of_lt small)
    where
      turn : x ≡ a + m * 1
      turn = omega arith

sub_add : (m a b : ℕ) → a < m → b < m → ((a + b) % m + m - b) % m ≡ a
sub_add m a b p q = elim (Bool-cases (ltb (a + b) m)) [
  | inl h ↦ rw (mod-eq_of_lt (ltb→lt (a + b) m h)) (around m a p (a + b + m - b) (omega arith))
  | inr h ↦
      rw (around m (a + b - m) (omega arith) (a + b) (ground arith)) (rw (back h) (mod-eq_of_lt p))
]
  where
    back : ltb (a + b) m ≡ false → a + b - m + m - b ≡ a
    back h = ground arith

-- At an unsigned field, subtracting what was added gives the first operand back, although both wrap.
pub operate_sub-operate_add :
    (host : Host) (junk : ℕ) (s : Scalar) (v0 v1 : ℕ)
    → kind s ≡ Kind.unsigned_kind
    → (sum : ℕ) × (difference : ℕ) × (operate host junk (Operator.c_add, s) v0 v1 ≡ ok sum)
      × (operate host junk (Operator.c_sub, s) sum v1 ≡ ok difference)
      × (get s difference ≡ get s v0)
operate_sub-operate_add host junk s v0 v1 unsigned = (
  sum,
  make junk s (get s sum + 2 ^ width s - get s v1),
  operate_add host junk s unsigned v0 v1,
  operate_sub host junk s unsigned sum v1,
  rw (get-make junk s (get s sum + 2 ^ width s - get s v1), get-make junk s (get s v0 + get s v1))
      (sub_add (2 ^ width s) (get s v0) (get s v1) (mod-lt v0 (two-pow_pos (width s)))
        (mod-lt v1 (two-pow_pos (width s)))),
)
  where
    sum : ℕ
    sum = make junk s (get s v0 + get s v1)

-- At an unsigned field and for a divisor other than 0, quotient and remainder belong together: the
-- dividend is the quotient times the divisor plus the remainder, which is below the divisor.
pub operate_div-operate_rem :
    (host : Host) (junk : ℕ) (s : Scalar) (v0 v1 : ℕ)
    → kind s ≡ Kind.unsigned_kind
    → 0 < get s v1
    → (quotient : ℕ) × (remainder : ℕ) × (operate host junk (Operator.c_div, s) v0 v1 ≡ ok quotient)
      × (operate host junk (Operator.c_rem, s) v0 v1 ≡ ok remainder)
      × (get s v1 * get s quotient + get s remainder ≡ get s v0)
      × (get s remainder < get s v1)
operate_div-operate_rem host junk s v0 v1 unsigned h = (
  make junk s (get s v0 / get s v1),
  make junk s (get s v0 % get s v1),
  operate_div host junk s unsigned v0 v1 nonzero,
  operate_rem host junk s unsigned v0 v1 nonzero,
  rw (quotient_fits, remainder_fits) (div-add-mod (get s v0) (get s v1)),
  rw remainder_fits (mod-lt (get s v0) h),
)
  where
    nonzero : (get s v1 == 0) ≡ false
    nonzero = ground arith

    below : get s v0 < 2 ^ width s
    below = mod-lt v0 (two-pow_pos (width s))

    quotient_fits : get s (make junk s (get s v0 / get s v1)) ≡ get s v0 / get s v1
    quotient_fits =
        get-make junk s (get s v0 / get s v1)
        ∙ mod-eq_of_lt (le_trans (suc-le-suc (div-le_self (get s v0) (get s v1))) below)

    remainder_fits : get s (make junk s (get s v0 % get s v1)) ≡ get s v0 % get s v1
    remainder_fits =
        get-make junk s (get s v0 % get s v1)
        ∙ mod-eq_of_lt (omega (arith, mod-lt (get s v0) h, mod-lt v1 (two-pow_pos (width s))))
