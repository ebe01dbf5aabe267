-- ===== src/Phi/Tests.antt =====
-- Runs of phi assignments: block 0 branches to blocks 1 and 2.
use pnacl_c.Base.{ℕ, ◌*◌, ◌≡◌, refl, List, [], ◌∷◌, true, false}
use pnacl_c.Base.{Result, ok, ◌>>=◌}
use pnacl_c.Executor.{Thread, get_value, set_value}
use pnacl_c.Phi.{PhiUse, PhiAssign, count_uses, count_bbs}
use pnacl_c.Phi.{
  calculate_phi_assigns, is_fast, fast_phi_assign, assign_fast, read_sources, write_dests,
  do_phi_assigns,
}
use pnacl_c.Phi.Count.{lengths, calculate_phi_assigns-lengths}
use pnacl_c.Phi.Paths.{compiled, do_phi_assigns-independent, do_phi_assigns-fast_phi_assign}

-- In block 2 the values 1 and 2 are swapped; in block 1 the value 0 is set.
abbrev set_zero : PhiUse
set_zero = record { dest_value_id = 0; incoming_bb_id = 0; incoming_value_id = 3 }

abbrev set_one : PhiUse
set_one = record { dest_value_id = 1; incoming_bb_id = 0; incoming_value_id = 2 }

abbrev set_two : PhiUse
set_two = record { dest_value_id = 2; incoming_bb_id = 0; incoming_value_id = 1 }

abbrev bbs : List (List PhiUse)
bbs = [] ∷ (set_zero ∷ []) ∷ (set_one ∷ set_two ∷ []) ∷ []

calculate_phi_assigns-lengths_test :
    (assigns : List (List PhiAssign)) × (calculate_phi_assigns bbs ≡ ok (3 ∷ 0 ∷ 0 ∷ [], assigns))
    × (lengths assigns ≡ 3 ∷ 0 ∷ 0 ∷ [])
unfolding count_bbs count_uses
calculate_phi_assigns-lengths_test = calculate_phi_assigns-lengths bbs refl

abbrev to_one : PhiAssign
to_one = record { bb_id = 2; dest_value_id = 1; source_value_id = 2 }

abbrev to_two : PhiAssign
to_two = record { bb_id = 2; dest_value_id = 2; source_value_id = 1 }

abbrev to_zero : PhiAssign
to_zero = record { bb_id = 1; dest_value_id = 0; source_value_id = 3 }

-- The values 1 and 2 are 7 and 8.
abbrev thread : Thread
thread = record { module_values = []; function_values = 5 ∷ 7 ∷ 8 ∷ 9 ∷ []; inst = 0 }

abbrev inst_of : ℕ → ℕ
inst_of n = 64 * n

do_phi_assigns-independent_test :
    do_phi_assigns thread true 128 (compiled inst_of (to_one ∷ to_zero ∷ []))
    ≡ do_phi_assigns thread false 128 (compiled inst_of (to_one ∷ to_zero ∷ []))
unfolding read_sources get_value
do_phi_assigns-independent_test =
    do_phi_assigns-independent thread 128 (compiled inst_of (to_one ∷ to_zero ∷ []))
      {temp = 8 ∷ 9 ∷ []} refl refl

do_phi_assigns-fast_phi_assign_example :
    do_phi_assigns thread
      (fast_phi_assign (to_one ∷ to_two ∷ []))
      128
      (compiled inst_of (to_one ∷ to_two ∷ []))
    ≡ do_phi_assigns thread false 128 (compiled inst_of (to_one ∷ to_two ∷ []))
unfolding read_sources get_value
do_phi_assigns-fast_phi_assign_example =
    do_phi_assigns-fast_phi_assign thread inst_of 2 (to_one ∷ to_two ∷ []) {temp = 8 ∷ 7 ∷ []} refl
      refl

-- A swap is not fast where it comes first, and taken for fast behind another destination.
swap_test : fast_phi_assign (to_one ∷ to_two ∷ []) ≡ false
unfolding fast_phi_assign is_fast
swap_test = refl

second_swap_test : fast_phi_assign (to_zero ∷ to_one ∷ to_two ∷ []) ≡ true
unfolding fast_phi_assign is_fast
second_swap_test = refl

values : Result Thread → Result (List ℕ)
values r = r >>= λ t. ok t.function_values

-- The fast path then loses the value 7.
lost_test :
    (values (do_phi_assigns thread true 128 (compiled inst_of (to_zero ∷ to_one ∷ to_two ∷ [])))
      ≡ ok (5 ∷ 8 ∷ 8 ∷ 9 ∷ []))
    × (values (do_phi_assigns thread false 128 (compiled inst_of (to_zero ∷ to_one ∷ to_two ∷ [])))
        ≡ ok (5 ∷ 8 ∷ 7 ∷ 9 ∷ []))
unfolding values do_phi_assigns assign_fast read_sources write_dests get_value set_value
lost_test = (refl, refl)
