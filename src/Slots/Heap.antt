-- ===== src/Slots/Heap.antt =====
-- The steps on the heap of slots and its array.
use pnacl_c.Base.{
  ℕ, zero, suc, ◌+◌, ◌-◌, ◌*◌, ◌/◌, ◌%◌, ◌^◌, ◌≤◌, ◌<◌, ◌≡◌, inl, inr, refl, ◌∙◌, arith, false,
  Bool-cases, ltb, ltb→lt, lt→ltb, ◌==◌, List, [], ◌∷◌, length, length-set, get_elem?, set, some,
  Result, ok,
}
use pnacl_c.Slots.{put, sift_up, sift_down}

-- All of some slots are below a bound.
abbrev pub AllLow : ℕ → List ℕ → Type 0
AllLow bound [] = Unit
AllLow bound (x ∷ l) = (x < bound) × AllLow bound l

AllLow-set :
    (bound : ℕ) (l : List ℕ) (i v : ℕ) → AllLow bound l → v < bound → AllLow bound (set l i v)
AllLow-set bound [] i v low h = tt
AllLow-set bound (x ∷ l) zero v (a, low) h = (h, low)
AllLow-set bound (x ∷ l) (suc i) v (a, low) h = (a, AllLow-set bound l i v low h)

-- What is read from within.
pub AllLow-get :
    (bound : ℕ) (l : List ℕ) (i : ℕ)
    → AllLow bound l
    → i < length l
    → (v : ℕ) × (get_elem? l i ≡ some v) × (v < bound)
AllLow-get bound [] i low h = absurd (omega arith)
AllLow-get bound (x ∷ l) zero (a, low) h = (x, refl, a)
AllLow-get bound (x ∷ l) (suc i) (a, low) h = AllLow-get bound l i low (omega arith)

module _ (num : ℕ) where
  -- A step gives an array of the same length, with slots below it.
  abbrev pub Keeps : Result (List ℕ) → Type 0
  Keeps r = (l : List ℕ) × (r ≡ ok l) × (length l ≡ num) × AllLow num l

  put-set : (l : List ℕ) (i v : ℕ) → length l ≡ num → i < num → put l i v ≡ ok (set l i v)
  unfolding put
  put-set l i v n h = rw (lt→ltb i (length l) (omega arith)) refl

  put-Keeps :
      (l : List ℕ) (i v : ℕ) → length l ≡ num → AllLow num l → i < num → v < num → Keeps (put l i v)
  put-Keeps l i v n low h k =
      (set l i v, put-set l i v n h, length-set l i v ∙ n, AllLow-set num l i v low k)

  pub sift_up-Keeps :
      (fuel : ℕ) (l : List ℕ) (i v : ℕ)
      → length l ≡ num
      → AllLow num l
      → i < num
      → v < num
      → i < fuel
      → Keeps (sift_up fuel l i v)
  unfolding sift_up
  sift_up-Keeps zero l i v n low h k f = absurd (omega arith)
  sift_up-Keeps (suc fuel) l i v n low h k f = elim (Bool-cases (i == 0)) [
    | inl e ↦ rw e (put-Keeps l i v n low h k)
    | inr e ↦
        let (above, read, small) = AllLow-get num l ((i - 1) / 2) low (omega (arith, n)) in
        elim (Bool-cases (ltb v above)) [
          | inl q ↦
              rw (e, read, q, put-set l i above n h)
                (sift_up-Keeps fuel (set l i above) ((i - 1) / 2) v (length-set l i above ∙ n)
                  (AllLow-set num l i above low small) (omega arith) k (later e))
          | inr q ↦ rw (e, read, q) (put-Keeps l i v n low h k)
        ]
  ]
    where
      later : (i == 0) ≡ false → (i - 1) / 2 < fuel
      later e = ground arith

  pub sift_down-Keeps :
      (fuel : ℕ) (l : List ℕ) (count i : ℕ)
      → num < 2 ^ 31
      → length l ≡ num
      → AllLow num l
      → count ≤ num
      → i < num
      → i ≤ count
      → count < fuel + i
      → Keeps (sift_down fuel l count i)
  unfolding sift_down
  sift_down-Keeps zero l count i narrow n low c h b f = absurd (omega arith)
  sift_down-Keeps (suc fuel) l count i narrow n low c h b f =
      rw (exact 1 (omega arith), exact 2 (omega arith))
        (elim (Bool-cases (ltb (i * 2 + 2) count)) [
          | inl e ↦
              let room = ltb→lt (i * 2 + 2) count e in
              let (left, read, small) = AllLow-get num l (i * 2 + 1) low (omega (arith, n, room)) in
              let (right, read', small') =
                AllLow-get num l (i * 2 + 2) low (omega (arith, n, room)) in
              elim (Bool-cases (ltb left right)) [
                | inl q ↦
                    rw (e, read, read', q, put-set l i left n h)
                      (sift_down-Keeps fuel (set l i left) count (i * 2 + 1) narrow
                        (length-set l i left ∙ n) (AllLow-set num l i left low small) c
                        (omega (arith, room)) (omega (arith, room)) (omega arith))
                | inr q ↦
                    rw (e, read, read', q, put-set l i right n h)
                      (sift_down-Keeps fuel (set l i right) count (i * 2 + 2) narrow
                        (length-set l i right ∙ n) (AllLow-set num l i right low small') c
                        (omega (arith, room)) (omega (arith, room)) (omega arith))
              ]
          | inr e ↦ elim (Bool-cases (ltb (i * 2 + 1) count)) [
            | inl q ↦
                let (last, read, small) =
                  AllLow-get num l (i * 2 + 1) low (omega (arith, n, ltb→lt (i * 2 + 1) count q)) in
                rw (e, q, read) (put-Keeps l i last n low h small)
            | inr q ↦ rw (e, q) (l, refl, n, low)
          ]
        ])
    where
      exact : (k : ℕ) → k ≤ 2 → (i * 2 + k) % 2 ^ 32 ≡ i * 2 + k
      exact k e = omega arith
