-- ===== src/Slots/Bounds.antt =====
-- The slot map and the bounds of its arrays (src/pn_calculate_liveness.h).
use pnacl_c.Base.{
  ℕ, zero, suc, ◌+◌, ◌-◌, ◌%◌, ◌^◌, ◌≤◌, ◌<◌, ◌≡◌, inl, inr, refl, ap, arith, Bool-cases, ltb,
  lt→ltb, List, [], ◌∷◌, ◌++◌, drop, length, length-set, get_elem?, set, some, Result, ok,
}
use pnacl_c.Liveness.{LivenessRange}
use pnacl_c.Slots.{
  Active, SlotState, reheap, but_last, remove_active, evict, take_slot, assign_slots, numbers,
  make_slot_map,
}
use pnacl_c.Slots.Heap.{AllLow, AllLow-get, sift_up-Keeps, sift_down-Keeps}

module _ (num : ℕ) (small : num < 2 ^ 31) where
  abbrev HaveLow : List Active → Type 0
  HaveLow [] = Unit
  HaveLow (x ∷ l) = (x.slot_id < num) × HaveLow l

  HaveLow-set :
      (l : List Active) (i : ℕ) (v : Active) → HaveLow l → v.slot_id < num → HaveLow (set l i v)
  HaveLow-set [] i v low h = tt
  HaveLow-set (x ∷ l) zero v (a, low) h = (h, low)
  HaveLow-set (x ∷ l) (suc i) v (a, low) h = (a, HaveLow-set l i v low h)

  HaveLow-get :
      (l : List Active) (i : ℕ)
      → HaveLow l
      → i < length l
      → (v : Active) × (get_elem? l i ≡ some v) × (v.slot_id < num)
  HaveLow-get [] i low h = absurd (omega arith)
  HaveLow-get (x ∷ l) zero (a, low) h = (x, refl, a)
  HaveLow-get (x ∷ l) (suc i) (a, low) h = HaveLow-get l i low (omega arith)

  HaveLow-but_last : (l : List Active) → HaveLow l → HaveLow (but_last l)
  HaveLow-but_last [] low = tt
  HaveLow-but_last (x ∷ []) low = tt
  HaveLow-but_last (x ∷ y ∷ l) (a, low) = (a, HaveLow-but_last (y ∷ l) low)

  length-but_last : (l : List Active) → length (but_last l) ≡ length l - 1
  length-but_last [] = refl
  length-but_last (x ∷ []) = refl
  length-but_last (x ∷ y ∷ l) = omega (arith, length-but_last (y ∷ l))

  HaveLow-append :
      (l : List Active) (v : Active) → HaveLow l → v.slot_id < num → HaveLow (l ++ v ∷ [])
  HaveLow-append [] v low h = (h, tt)
  HaveLow-append (x ∷ l) v (a, low) h = (a, HaveLow-append l v low h)

  length-append : (l : List Active) (v : Active) → length (l ++ v ∷ []) ≡ suc (length l)
  length-append [] v = refl
  length-append (x ∷ l) v = ap suc (length-append l v)

  -- The heap and the active ranges have the slots between them.
  record IsSound (s : SlotState) : Type 0 where
    same : length s.avail_slots ≡ num
    low : AllLow num s.avail_slots
    whole : s.num_avail_slots + length s.active ≡ num
    active_low : HaveLow s.active

  -- One slot goes back to the heap.
  Released : SlotState → ℕ → ℕ → Type 0
  Released s m slot_id =
      (s' : SlotState) × (active : List Active) × (reheap s slot_id ≡ ok s')
      × (remove_active s'.active m ≡ ok active)
      × (suc (length active) ≡ length s.active)
      × IsSound (record s' { active = active })

  release :
      (s : SlotState) (m slot_id : ℕ)
      → IsSound s
      → m < length s.active
      → slot_id < num
      → Released s m slot_id
  unfolding reheap remove_active Released
  release s m slot_id sound h k =
      let (slots, e, n, low) =
        sift_up-Keeps num (s.num_avail_slots + 1) s.avail_slots s.num_avail_slots slot_id sound.same
          sound.low (omega (arith, sound.whole)) k (omega arith) in
      let (last, read, own) =
        HaveLow-get s.active (length s.active - 1) sound.active_low (omega arith) in
      (
        record s { avail_slots = slots; num_avail_slots = s.num_avail_slots + 1 },
        but_last (set s.active m last),
        rw
            (
              lt→ltb s.num_avail_slots (length s.avail_slots)
                  (omega (arith, sound.same, sound.whole)),
              e,
            )
            refl,
        rw read refl,
        omega (arith, length-but_last (set s.active m last), length-set s.active m last),
        record {
          same = n;
          low = low;
          whole = omega (
            arith,
            sound.whole,
            length-but_last (set s.active m last),
            length-set s.active m last,
          );
          active_low =
              HaveLow-but_last (set s.active m last)
                (HaveLow-set s.active m last sound.active_low own);
        },
      )

  Evicted : SlotState → Result SlotState → Type 0
  Evicted s r = (s' : SlotState) × (r ≡ ok s') × (length s'.active ≤ length s.active) × IsSound s'

  evict-IsSound :
      (bb_id n : ℕ) (s : SlotState) (m : ℕ)
      → IsSound s
      → m + n ≡ length s.active
      → Evicted s (evict bb_id n s m)
  unfolding evict Evicted Released
  evict-IsSound bb_id zero s m sound h = (s, refl, omega arith, sound)
  evict-IsSound bb_id (suc n) s m sound h =
      let (range, read, own) = HaveLow-get s.active m sound.active_low (omega arith) in
      elim (Bool-cases (ltb range.last_bb_id bb_id)) [
        | inl e ↦
            let (s', active, back, removed, fewer, sound') =
              release s m range.slot_id sound (omega arith) own in
            let (s'', e', less, sound'') =
              evict-IsSound bb_id n (record s' { active = active }) m sound'
                (omega (arith, fewer)) in
            (s'', rw (read, e, back, removed) e', omega (arith, less, fewer), sound'')
        | inr e ↦
            let (s'', e', less, sound'') = evict-IsSound bb_id n s (m + 1) sound (omega arith) in
            (s'', rw (read, e) e', less, sound'')
      ]

  Taken : SlotState → Result (ℕ × SlotState) → Type 0
  Taken s r =
      (slot_id : ℕ) × (s' : SlotState) × (r ≡ ok (slot_id, s'))
      × (slot_id < num)
      × (length s'.active ≡ suc (length s.active))
      × IsSound s'

  take_slot-IsSound :
      (s : SlotState) (last_bb_id : ℕ)
      → IsSound s
      → length s.active < num
      → Taken s (take_slot s last_bb_id)
  unfolding take_slot Taken
  take_slot-IsSound s last_bb_id sound h =
      let (slot_id, read, own) =
        AllLow-get num s.avail_slots 0 sound.low (omega (arith, sound.same)) in
      let (slots, e, n, low) =
        sift_down-Keeps num (s.num_avail_slots + 1) s.avail_slots s.num_avail_slots 0 small
          sound.same sound.low (omega (arith, sound.whole)) (omega arith) (omega arith)
          (omega arith) in
      (
        slot_id,
        record {
          avail_slots = slots;
          num_avail_slots = (s.num_avail_slots + 2 ^ 32 - 1) % 2 ^ 32;
          active = s.active ++ record { last_bb_id = last_bb_id; slot_id = slot_id } ∷ [];
        },
        rw (read, e, lt→ltb (length s.active) (length s.avail_slots) (omega (arith, sound.same)))
            refl,
        own,
        length-append s.active record { last_bb_id = last_bb_id; slot_id = slot_id },
        record {
          same = n;
          low = low;
          whole = omega (
            arith,
            sound.whole,
            small,
            length-append s.active record { last_bb_id = last_bb_id; slot_id = slot_id },
          );
          active_low =
              HaveLow-append s.active record { last_bb_id = last_bb_id; slot_id = slot_id }
                sound.active_low own;
        },
      )

  Assigned : List LivenessRange → Result (List ℕ) → Type 0
  Assigned ranges r =
      (slots : List ℕ) × (r ≡ ok slots) × (length slots ≡ length ranges) × AllLow num slots

  assign_slots-Assigned :
      (bb_id : ℕ) (s : SlotState) (ranges : List LivenessRange)
      → IsSound s
      → length s.active + length ranges ≤ num
      → Assigned ranges (assign_slots bb_id s ranges)
  unfolding assign_slots Assigned Evicted Taken
  assign_slots-Assigned bb_id s [] sound h = ([], refl, refl, tt)
  assign_slots-Assigned bb_id s (range ∷ ranges) sound h =
      elim (Bool-cases (ltb bb_id range.first_bb_id)) [
        | inl e ↦
            let (s', e', less, sound') =
              evict-IsSound range.first_bb_id (length s.active) s 0 sound (omega arith) in
            let (slot_id, s'', taken, own, more, sound'') =
              take_slot-IsSound s' range.last_bb_id sound' (omega (arith, less)) in
            let (slots, rest, n, low) =
              assign_slots-Assigned range.first_bb_id s'' ranges sound''
                (omega (arith, less, more)) in
            (slot_id ∷ slots, rw (e, e', taken, rest) refl, ap suc n, (own, low))
        | inr e ↦
            let (slot_id, s'', taken, own, more, sound'') =
              take_slot-IsSound s range.last_bb_id sound (omega arith) in
            let (slots, rest, n, low) =
              assign_slots-Assigned bb_id s'' ranges sound'' (omega (arith, more)) in
            (slot_id ∷ slots, rw (e, taken, rest) refl, ap suc n, (own, low))
      ]

length-numbers : (n count : ℕ) → length (numbers n count) ≡ count
length-numbers n zero = refl
length-numbers n (suc count) = ap suc (length-numbers (n + 1) count)

numbers-AllLow : (bound n count : ℕ) → n + count ≤ bound → AllLow bound (numbers n count)
numbers-AllLow bound n zero h = tt
numbers-AllLow bound n (suc count) h =
    (omega arith, numbers-AllLow bound (n + 1) count (omega arith))

length-drop_le : (n : ℕ) (l : List LivenessRange) → length (drop n l) ≤ length l
length-drop_le zero l = omega arith
length-drop_le (suc n) [] = omega arith
length-drop_le (suc n) (x ∷ l) = omega (arith, length-drop_le n l)

-- In a function of fewer than 2^31 values, whatever their ranges are, the slot map is made without an
-- access outside of its arrays, a failed assertion or an endless loop, and gives each value behind
-- the skipped ones a slot below the number of the values.
pub make_slot_map-AllLow :
    (skipped : ℕ) (ranges : List LivenessRange)
    → length ranges < 2 ^ 31
    → (slots : List ℕ) × (make_slot_map skipped ranges ≡ ok slots)
      × (length slots ≡ length (drop skipped ranges))
      × AllLow (length ranges) slots
unfolding make_slot_map Assigned
make_slot_map-AllLow skipped ranges small =
    assign_slots-Assigned (length ranges) small 0 start (drop skipped ranges)
      record {
        same = length-numbers 0 (length ranges);
        low = numbers-AllLow (length ranges) 0 (length ranges) (omega arith);
        whole = omega arith;
        active_low = tt;
      }
      (omega (arith, length-drop_le skipped ranges))
  where
    start : SlotState
    start = record {
      avail_slots = numbers 0 (length ranges);
      num_avail_slots = length ranges;
      active = [];
    }
