-- ===== src/Allocator/Align.antt =====
-- The alignment of pointers of src/pn_malloc.h.
use pnacl_c.Base.{
  ℕ, ◌+◌, ◌-◌, ◌*◌, ◌/◌, ◌%◌, ◌^◌, ◌≤◌, ◌<◌, ◌≡◌, refl, ap, ◌∙◌, arith, Bool, true, if◌then◌else◌,
  ltb, lt→ltb, ◌==◌,
}
use pnacl_c.Base.{Result, ok, fault, ◌>>◌, assert}
use native.Mathlib.Nat.{mod-lt, div-add-mod', mul-mod_left, mod-eq_of_lt, add-mul-mod_self_right}
use pnacl_c.Bits.{is_power_of_two}

-- Clearing the low bits, which are those below the power of two, is a division. The sum is one of
-- intptr_t, which must not overflow.
unfoldable pub align_up_pointer : ℕ → ℕ → Result ℕ
align_up_pointer p align = do
  assert (is_power_of_two align)
  if ltb (p + align - 1) (2 ^ 63) then ok ((p + align - 1) / align * align) else fault

unfoldable pub is_aligned_pointer : ℕ → ℕ → Result Bool
is_aligned_pointer p align = do assert (is_power_of_two align); ok (p % align == 0)

is_power_of_two_pos : (n : ℕ) → is_power_of_two n ≡ true → 1 ≤ n
unfolding is_power_of_two
is_power_of_two_pos n h = ground arith

-- The least aligned address that is not below.
pub align_up_pointer_lem :
    (p align : ℕ)
    → is_power_of_two align ≡ true
    → p + align ≤ 2 ^ 63
    → (q : ℕ) × (align_up_pointer p align ≡ ok q) × (p ≤ q) × (q < p + align) × (q % align ≡ 0)
unfolding align_up_pointer
align_up_pointer_lem p align power room = (
  (p + align - 1) / align * align,
  rw (power, lt→ltb (p + align - 1) (2 ^ 63) (omega (arith, pos))) refl,
  omega (arith, whole, mod-lt (p + align - 1) pos),
  omega (arith, whole, pos),
  mul-mod_left _ _,
)
  where
    pos : 1 ≤ align
    pos = is_power_of_two_pos align power

    whole : (p + align - 1) / align * align + (p + align - 1) % align ≡ p + align - 1
    whole = div-add-mod' (p + align - 1) align

-- An aligned address is left as it is.
pub align_up_pointer-aligned :
    (p align : ℕ)
    → is_power_of_two align ≡ true
    → p + align ≤ 2 ^ 63
    → p % align ≡ 0
    → align_up_pointer p align ≡ ok p
align_up_pointer-aligned p align power room aligned = up.1 ∙ ap ok same
  where
    up : (q : ℕ) × (align_up_pointer p align ≡ ok q) × (p ≤ q) × (q < p + align) × (q % align ≡ 0)
    up = align_up_pointer_lem p align power room

    excess : (up.0 - p) % align ≡ up.0 - p
    excess = mod-eq_of_lt (omega (arith, up.2, up.3))

    parts : up.0 ≡ (up.0 - p) + p / align * align
    parts = omega (arith, up.2, aligned, div-add-mod' p align)

    same : up.0 ≡ p
    same = omega (
      arith,
      up.2,
      excess,
      up.4,
      ap (λ (t : ℕ). t % align) parts,
      add-mul-mod_self_right (up.0 - p) (p / align) align,
    )

pub is_aligned_pointer_lem : (p : ℕ) → p % 8 ≡ 0 → is_aligned_pointer p 8 ≡ ok true
unfolding is_aligned_pointer is_power_of_two
is_aligned_pointer_lem p h = rw h refl
