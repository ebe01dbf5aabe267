-- ===== src/Memory/Access.antt =====
-- Reads after writes.
use pnacl_c.Base.{
  ℕ, zero, suc, ◌+◌, ◌*◌, ◌/◌, ◌%◌, ◌^◌, ◌≤◌, ◌<◌, ◌≡◌, ◌⊎◌, refl, arith, le→leb, lt→ltb, ap, ◌∙◌,
}
use pnacl_c.Base.{ok, ◌>>=◌}
use pnacl_c.Memory.{Memory, guard_size, check, load, store, read, write}
use pnacl_c.Memory.Check.{check_iff}
use native.Mathlib.Nat.{
  div-div-eq-div-mul, pow-suc, div-one, add-zero, zero-add, add-sub_cancel_left,
}
use native.Mathlib.Numerals.{add-one}
use pnacl_c.Base.Bitwise.{mod_mul}

-- A read sees only its own bytes.
load-eq :
    (f g : ℕ → ℕ) (n o : ℕ) → ((p : ℕ) → o ≤ p → p < o + n → f p ≡ g p) → load f o n ≡ load g o n
unfolding load
load-eq f g zero o h = refl
load-eq f g (suc n) o h = omega (
  arith,
  h o (omega arith) (omega arith),
  load-eq f g n (o + 1) (λ p a b. h p (omega arith) (omega arith)),
)

-- The bytes of a number, read as a number.
load_digits :
    (f : ℕ → ℕ) (v n o k : ℕ)
    → ((p : ℕ) → p < n → f (o + p) % 256 ≡ v / 256 ^ (k + p) % 256)
    → load f o n ≡ v / 256 ^ k % 256 ^ n
unfolding load
load_digits f v zero o k h = omega arith
load_digits f v (suc n) o k h = omega (
  arith,
  first,
  load_digits f v n (o + 1) (k + 1) later,
  ap (λ (t : ℕ). v / t % 256 ^ n) next_power,
  ap (λ (t : ℕ). t % 256 ^ n) (div-div-eq-div-mul v (256 ^ k) 256),
  mod_mul (v / 256 ^ k) 256 (256 ^ n),
  ap (λ (t : ℕ). v / 256 ^ k % t) top_power,
)
  where
    next_power : 256 ^ (k + 1) ≡ 256 ^ k * 256
    next_power = rw add-one (pow-suc 256 k)

    top_power : 256 ^ suc n ≡ 256 * 256 ^ n
    top_power = omega (arith, pow-suc 256 n)

    first : f o % 256 ≡ v / 256 ^ k % 256
    first = simp add-zero at (h 0 (omega arith))

    later : (p : ℕ) → p < n → f (o + 1 + p) % 256 ≡ v / 256 ^ (k + 1 + p) % 256
    later p lt = rw (one_more o p, one_more k p) (h (suc p) (omega arith))
      where
        one_more : (a b : ℕ) → a + 1 + b ≡ a + suc b
        one_more a b = omega arith

module _ (m : Memory) (n o v : ℕ) (low : guard_size ≤ o) (fits : o + n ≤ m.size)
    (small : m.size < 2 ^ 32) where
  written : Memory
  written = record m { bytes = store m.bytes o n v }

  passes : check m o n ≡ ok tt
  passes = (check_iff m o n (omega arith)).1 (low, fits)

  stored : load (store m.bytes o n v) o n ≡ v % 256 ^ n
  unfolding store
  stored = load_digits _ v n o 0 digit ∙ rw div-one
    where
      digit : (p : ℕ) → p < n → store m.bytes o n v (o + p) % 256 ≡ v / 256 ^ (0 + p) % 256
      digit p h =
          rw
            (
              le→leb o (o + p) (omega arith),
              lt→ltb (o + p) (o + n) (omega arith),
              add-sub_cancel_left o p,
              zero-add p,
            )
            (omega arith)

  other_byte :
      (k p : ℕ)
      → (p + k ≤ o) ⊎ (o + n ≤ p)
      → (q : ℕ) → p ≤ q
      → q < p + k
      → store m.bytes o n v q ≡ m.bytes q
  unfolding store
  other_byte k p outside q a b = ground arith

  -- In a memory of less than 2^32 bytes, a write of `n` bytes between the guard and the memory's end
  -- succeeds and keeps the size, a read there then returns the value cut to `n` bytes, and a read of
  -- bytes that are all outside of the written ones returns what it did.
  pub read-write :
      (m' : Memory) × (write m n o v ≡ ok m')
      × (m'.size ≡ m.size)
      × (read m' n o ≡ ok (v % 256 ^ n))
      × ((k p : ℕ) → (p + k ≤ o) ⊎ (o + n ≤ p) → read m' k p ≡ read m k p)
  unfolding read write written
  read-write = (
    written,
    rw passes,
    refl,
    rw (passes, stored) (ap ok refl),
    λ k p outside. ap (λ x. check m p k >>= λ _. ok x) (load-eq _ _ k p (other_byte k p outside)),
  )
