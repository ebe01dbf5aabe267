-- ===== src/Phi.antt =====
-- src/pn_calculate_phi_assigns.h and `pn_thread_do_phi_assigns` of src/pn_executor.h: the values that
-- a branch hands over to the phis of the block it goes to.
pub mod Paths
pub mod Count
mod Tests
use pnacl_c.Base.{
  ℕ, suc, ◌+◌, ◌∷◌, ◌++◌, [], List, map, length, get_elem?, set, ltb, ◌==◌, if◌then◌else◌,
  replicate,
}
use pnacl_c.Base.{
  Bool, true, false, ◌&&◌, ◌||◌, not, Option, none, some, Result, ok, fault, ◌>>=◌, ◌>>◌, assert,
  from_option,
}
use pnacl_c.Executor.{Thread, get_value, set_value}

pub record PhiUse : Type 0 where
  pub dest_value_id : ℕ
  pub incoming_bb_id : ℕ
  pub incoming_value_id : ℕ

pub record PhiAssign : Type 0 where
  pub bb_id : ℕ
  pub dest_value_id : ℕ
  pub source_value_id : ℕ

-- The first pass over the blocks counts the assignments of each incoming block.
unfoldable pub count_uses : List ℕ → List PhiUse → Result (List ℕ)
count_uses counts [] = ok counts
count_uses counts (use_of ∷ uses) = do
  assert (ltb use_of.incoming_bb_id (length counts))
  count ← from_option (get_elem? counts use_of.incoming_bb_id)
  count_uses (set counts use_of.incoming_bb_id (count + 1)) uses

unfoldable pub count_bbs : List ℕ → List (List PhiUse) → Result (List ℕ)
unfolding count_uses
count_bbs counts [] = ok counts
count_bbs counts (uses ∷ bbs) = do counts' ← count_uses counts uses; count_bbs counts' bbs

abbrev pub assign_of : ℕ → PhiUse → PhiAssign
assign_of n use_of = record {
  bb_id = n;
  dest_value_id = use_of.dest_value_id;
  source_value_id = use_of.incoming_value_id;
}

-- The last pass appends the assignments, block `n` after block.
unfoldable pub assign_uses :
    ℕ → List (List PhiAssign) → List PhiUse → Result (List (List PhiAssign))
assign_uses n assigns [] = ok assigns
assign_uses n assigns (use_of ∷ uses) = do
  own ← from_option (get_elem? assigns use_of.incoming_bb_id)
  assign_uses n (set assigns use_of.incoming_bb_id (own ++ assign_of n use_of ∷ [])) uses

unfoldable pub assign_bbs :
    ℕ → List (List PhiAssign) → List (List PhiUse) → Result (List (List PhiAssign))
unfolding assign_uses
assign_bbs n assigns [] = ok assigns
assign_bbs n assigns (uses ∷ bbs) = do
  assigns' ← assign_uses n assigns uses
  assign_bbs (suc n) assigns' bbs

-- Both, for the uses of each block: the counts that the arrays are allocated by, and the arrays.
unfoldable pub calculate_phi_assigns : List (List PhiUse) → Result (List ℕ × List (List PhiAssign))
unfolding count_bbs assign_bbs
calculate_phi_assigns bbs = do
  counts ← count_bbs (replicate (length bbs) 0) bbs
  assigns ← assign_bbs 0 (replicate (length bbs) []) bbs
  ok (counts, assigns)

abbrev pub mem : ℕ → List ℕ → Bool
mem x [] = false
mem x (y ∷ ys) = x == y || mem x ys

abbrev is_bb : Option ℕ → ℕ → Bool
is_bb none n = false
is_bb (some b) n = b == n

abbrev is_none : Option ℕ → Bool
is_none none = true
is_none (some b) = false

-- The loop that computes fast_phi_assign. `prior` are the destinations from `first` up to here;
-- PN_INVALID_BB_ID is `none`.
unfoldable pub is_fast : Option ℕ → (ℕ → Bool) → List ℕ → List PhiAssign → Bool
is_fast bb_id seen_bb prior [] = true
is_fast bb_id seen_bb prior (assign ∷ assigns) =
    let first =
      is_fast (some assign.bb_id) (λ n. n == assign.bb_id || seen_bb n) (assign.dest_value_id ∷ [])
        assigns in
    let rest = is_fast bb_id seen_bb (assign.dest_value_id ∷ prior) assigns in
    if is_none bb_id && not (seen_bb assign.bb_id)
    then first
    else (if is_bb bb_id assign.bb_id && mem assign.source_value_id prior then false else rest)

unfoldable pub fast_phi_assign : List PhiAssign → Bool
unfolding is_fast
fast_phi_assign assigns = is_fast none (λ n. false) [] assigns

pub record RuntimePhiAssign : Type 0 where
  pub inst : ℕ
  pub dest_value_id : ℕ
  pub source_value_id : ℕ

-- The fast path reads and writes one value after the other.
unfoldable pub assign_fast : Thread → ℕ → List RuntimePhiAssign → Result Thread
assign_fast t dest_inst [] = ok t
assign_fast t dest_inst (assign ∷ assigns) = elim (assign.inst == dest_inst) [
  | true ↦ get_value t assign.source_value_id >>= λ value.
      set_value t assign.dest_value_id value >>= λ t'. assign_fast t' dest_inst assigns
  | false ↦ assign_fast t dest_inst assigns
]

-- The other path reads all values first, those for other blocks too.
unfoldable pub read_sources : Thread → List RuntimePhiAssign → Result (List ℕ)
read_sources t [] = ok []
read_sources t (assign ∷ assigns) = do
  value ← get_value t assign.source_value_id
  temp ← read_sources t assigns
  ok (value ∷ temp)

unfoldable pub write_dests : Thread → ℕ → List RuntimePhiAssign → List ℕ → Result Thread
write_dests t dest_inst (assign ∷ assigns) (value ∷ temp) = elim (assign.inst == dest_inst) [
  | true ↦ set_value t assign.dest_value_id value >>= λ t'. write_dests t' dest_inst assigns temp
  | false ↦ write_dests t dest_inst assigns temp
]
write_dests t dest_inst _ _ = ok t

unfoldable pub do_phi_assigns : Thread → Bool → ℕ → List RuntimePhiAssign → Result Thread
unfolding assign_fast read_sources write_dests
do_phi_assigns t true dest_inst assigns = assign_fast t dest_inst assigns
do_phi_assigns t false dest_inst assigns = do
  temp ← read_sources t assigns
  write_dests t dest_inst assigns temp
