-- ===== src/Liveness/Count.antt =====
-- How many numbers below a bound are in a set.
use pnacl_c.Base.{
  ℕ, zero, suc, ◌≤◌, ◌<◌, ◌≡◌, ◌≢◌, refl, arith, Bool, true, false, if◌then◌else◌, ◌==◌, ==_iff,
  ==_ne, Bool-cases, inl, inr,
}

-- The members of a set below `n`.
unfoldable pub count : (ℕ → Bool) → ℕ → ℕ
count f zero = 0
count f (suc n) = if f n then suc (count f n) else count f n

pub count_le : (f : ℕ → Bool) (n : ℕ) → count f n ≤ n
unfolding count
count_le f zero = omega arith
count_le f (suc n) = ground (arith, count_le f n)

pub count_cong : (f g : ℕ → Bool) (n : ℕ) → ((i : ℕ) → i < n → f i ≡ g i) → count f n ≡ count g n
unfolding count
count_cong f g zero same = refl
count_cong f g (suc n) same =
    rw (same n (omega arith), count_cong f g n (λ i h. same i (omega arith))) refl

at : (f : ℕ → Bool) (n p : ℕ) {b : Bool} → n ≡ p → f p ≡ b → f n ≡ b
at f n p same h = rw same h

one_more :
    {m n k : ℕ} (b : Bool)
    → (m ≡ suc n) × (n < k)
    → ((if b then suc m else m) ≡ suc (if b then suc n else n)) × ((if b then suc n else n) < suc k)
one_more true h = (omega (arith, h), omega (arith, h))
one_more false h = (omega (arith, h), omega (arith, h))

-- A number that is missing makes the count less than the bound, and counts one more when it is put in.
pub count_insert :
    (f g : ℕ → Bool) (n p : ℕ)
    → p < n
    → f p ≡ false
    → g p ≡ true
    → ((i : ℕ) → i ≢ p → g i ≡ f i)
    → (count g n ≡ suc (count f n)) × (count f n < n)
unfolding count
count_insert f g zero p h out now others = absurd (omega arith)
count_insert f g (suc n) p h out now others = elim (Bool-cases (n == p)) [
  | inl e ↦
      let same = (==_iff n p).0 e in
      rw
        (
          at f n p same out,
          at g n p same now,
          count_cong g f n (λ i k. others i (λ q. absurd (omega (arith, q, same)))),
        )
        (refl, omega (arith, count_le f n))
  | inr e ↦
      rw (others n (==_ne n p e))
        (one_more (f n) (count_insert f g n p (omega (arith, ==_ne n p e)) out now others))
]

pub count-none : (f : ℕ → Bool) (n : ℕ) → ((i : ℕ) → f i ≡ false) → count f n ≡ 0
unfolding count
count-none f zero none = refl
count-none f (suc n) none = rw (none n) (count-none f n none)
