-- ===== src/Machine/Zeros.antt =====
-- The counts of leading and trailing zeros.
use pnacl_c.Base.{
  ℕ, zero, suc, ◌+◌, ◌*◌, ◌/◌, ◌%◌, ◌^◌, ◌≤◌, ◌<◌, ◌≡◌, refl, ap, arith, inl, inr, Bool-cases,
}
use pnacl_c.Base.{ok, ◌==◌, ==_iff, ltb}
use pnacl_c.Base.Bitwise.{two-pow_suc}
use pnacl_c.Executor.{Thread}
use pnacl_c.Executor.Fields.{Scalar, width, make}
use pnacl_c.Executor.Registers.{IsLocal, with_value, set_value-IsLocal}
use pnacl_c.Machine.State.{RuntimeCall, num_args, sizeof_call, arg}
use pnacl_c.Machine.Atomic.{clz, ctz, execute_ctlz, execute_cttz}

scaled : (x n : ℕ) → x * 2 ^ suc n ≡ 2 * (x * 2 ^ n)
scaled x n = omega (arith, ap (λ (t : ℕ). x * t) (two-pow_suc n))

pub clz_bounds :
    (w x : ℕ)
    → 1 ≤ x
    → x < 2 ^ w
    → (clz w x < w) × (2 ^ w ≤ 2 * (x * 2 ^ clz w x)) × (x * 2 ^ clz w x < 2 ^ w)
unfolding clz
clz_bounds zero x low high = absurd (omega arith)
clz_bounds (suc w) x low high = elim (Bool-cases (ltb x (2 ^ w))) [
  | inl e ↦
      (let b = clz_bounds w x low (ground arith) in
        rw e (
          omega (arith, b.0),
          omega (arith, b.1, scaled x (clz w x), two-pow_suc w),
          omega (arith, b.2, scaled x (clz w x), two-pow_suc w),
        ))
  | inr e ↦ rw e (omega arith, ground (arith, two-pow_suc w), omega (arith, high))
]

pub ctz_odd :
    (w x : ℕ) → 1 ≤ x → x < 2 ^ w → (ctz w x < w) × (odd : ℕ) × (x ≡ (2 * odd + 1) * 2 ^ ctz w x)
unfolding ctz
ctz_odd zero x low high = absurd (omega arith)
ctz_odd (suc w) x low high = elim (Bool-cases (x % 2 == 0)) [
  | inl e ↦
      (let b = ctz_odd w (x / 2) (ground arith) (ground (arith, two-pow_suc w)) in
        rw e (
          omega (arith, b.0),
          b.1,
          omega (arith, (==_iff (x % 2) 0).0 e, b.2, scaled (2 * b.1 + 1) (ctz w (x / 2))),
        ))
  | inr e ↦ rw e (omega arith, x / 2, ground arith)
]

-- A call of one of the counts.
pub record CountCall (s : Scalar) (t : Thread) (i : RuntimeCall) (src : ℕ) : Type 0 where
  pub two_args : num_args i ≡ 2
  pub source : arg t i 0 s ≡ ok src
  pub is_zero_undef : ℕ
  pub second : arg t i 1 Scalar.u32 ≡ ok is_zero_undef
  pub local : IsLocal t i.result_value_id

-- The result of a count, and the place behind the call.
abbrev pub counted : ℕ → Scalar → Thread → RuntimeCall → ℕ → Thread
counted junk s t i n = record (with_value t i.result_value_id (make junk s n)) {
  inst = t.inst + sizeof_call i;
}

module _ (junk : ℕ) (s : Scalar) (t : Thread) (i : RuntimeCall) (src : ℕ)
    (call : CountCall s t i src) (cut : src < 2 ^ width s) where
  -- The count of leading zeros at a field gives 0 for 0, whatever the call says of 0, and otherwise
  -- the number n below the field's width with 2^w / 2 ≤ src * 2^n < 2^w, and goes on behind the call.
  pub execute_ctlz-bounds :
      (n : ℕ) × (execute_ctlz junk s t i ≡ ok (counted junk s t i n))
      × (src ≡ 0 → n ≡ 0)
      × (1 ≤ src → (n < width s) × (2 ^ width s ≤ 2 * (src * 2 ^ n)) × (src * 2 ^ n < 2 ^ width s))
  unfolding execute_ctlz
  execute_ctlz-bounds = elim (Bool-cases (src == 0)) [
    | inl e ↦ (
      0,
      rw
          (
            call.two_args,
            call.source,
            call.second,
            e,
            set_value-IsLocal t i.result_value_id (make junk s 0) call.local,
          )
          refl,
      λ z. refl,
      λ h. absurd (ground arith),
    )
    | inr e ↦ (
      clz (width s) src,
      rw
          (
            call.two_args,
            call.source,
            call.second,
            e,
            set_value-IsLocal t i.result_value_id (make junk s (clz (width s) src)) call.local,
          )
          refl,
      λ z. absurd (ground arith),
      λ h. clz_bounds (width s) src h cut,
    )
  ]

  -- The count of trailing zeros at a field gives 0 for 0, whatever the call says of 0, and otherwise
  -- the number n below the field's width such that src is 2^n times an odd number.
  pub execute_cttz-odd :
      (n : ℕ) × (execute_cttz junk s t i ≡ ok (counted junk s t i n))
      × (src ≡ 0 → n ≡ 0)
      × (1 ≤ src → (n < width s) × (odd : ℕ) × (src ≡ (2 * odd + 1) * 2 ^ n))
  unfolding execute_cttz
  execute_cttz-odd = elim (Bool-cases (src == 0)) [
    | inl e ↦ (
      0,
      rw
          (
            call.two_args,
            call.source,
            call.second,
            e,
            set_value-IsLocal t i.result_value_id (make junk s 0) call.local,
          )
          refl,
      λ z. refl,
      λ h. absurd (ground arith),
    )
    | inr e ↦ (
      ctz (width s) src,
      rw
          (
            call.two_args,
            call.source,
            call.second,
            e,
            set_value-IsLocal t i.result_value_id (make junk s (ctz (width s) src)) call.local,
          )
          refl,
      λ z. absurd (ground arith),
      λ h. ctz_odd (width s) src h cut,
    )
  ]
