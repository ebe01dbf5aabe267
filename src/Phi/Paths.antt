-- ===== src/Phi/Paths.antt =====
-- When the fast path of the phi assignments does what the other does.
use pnacl_c.Base.{ℕ, ◌-◌, ◌≡◌, ◌≢◌, refl, ◌∙◌}
use pnacl_c.Base.{
  some, List, [], ◌∷◌, length, ◌==◌, leb, ltb, Bool, true, false, ◌&&◌, not, if◌then◌else◌,
}
use pnacl_c.Base.{ok, fault, ◌⊎◌, inl, inr, Bool-cases, both_returned, leb→le, ltb→lt, arith}
use pnacl_c.Executor.{Thread, get_value, set_value, num_values}
use pnacl_c.Executor.Registers.{IsLocal, with_value, set_value-IsLocal, get_value_ne}
use pnacl_c.Phi.{
  PhiAssign, RuntimePhiAssign, mem, assign_fast, is_fast, fast_phi_assign, is_fast, fast_phi_assign,
  read_sources, write_dests, do_phi_assigns,
}

-- No source of the assignments for `inst` is a value that was assigned before.
abbrev pub independent : ℕ → List ℕ → List RuntimePhiAssign → Bool
independent inst done [] = true
independent inst done (a ∷ rest) =
    if a.inst == inst
    then not (mem a.source_value_id done) && independent inst (a.dest_value_id ∷ done) rest
    else independent inst done rest

set_value-cases : (t : Thread) (i v : ℕ) → (set_value t i v ≡ fault) ⊎ IsLocal t i
unfolding set_value
set_value-cases t i v = elim (Bool-cases (leb (num_values t) i)) [
  | inr h ↦ inl (rw h)
  | inl h ↦ elim (Bool-cases (ltb (i - num_values t) (length t.function_values))) [
    | inr k ↦ inl (rw (h, k))
    | inl k ↦ inr (leb→le _ i h, omega (arith, leb→le (num_values t) i h, ltb→lt _ _ k))
  ]
]

not_mem : (j x : ℕ) (done : List ℕ) → mem j (x ∷ done) ≡ false → (x ≢ j) × (mem j done ≡ false)
not_mem j x done h = ground arith

-- What the fast path has to keep of the thread `t0` that the other path reads.
abbrev Agrees : Thread → Thread → List ℕ → Type 0
Agrees t0 t done = (j : ℕ) → mem j done ≡ false → get_value t j ≡ get_value t0 j

Agrees-set :
    (t0 t : Thread) (done : List ℕ) (i v : ℕ)
    → IsLocal t i
    → Agrees t0 t done
    → Agrees t0 (with_value t i v) (i ∷ done)
Agrees-set t0 t done i v l agrees j h =
    get_value_ne t i v l j (not_mem j i done h).0 ∙ agrees j (not_mem j i done h).1

source_free :
    (inst : ℕ) (done : List ℕ) (a : RuntimePhiAssign) (rest : List RuntimePhiAssign)
    → (a.inst == inst) ≡ true
    → independent inst done (a ∷ rest) ≡ true
    → (mem a.source_value_id done ≡ false) × (independent inst (a.dest_value_id ∷ done) rest ≡ true)
source_free inst done a rest e h = ground arith

read_sources-cons :
    (t : Thread) (a : RuntimePhiAssign) (rest : List RuntimePhiAssign) {temp : List ℕ}
    → read_sources t (a ∷ rest) ≡ ok temp
    → (value : ℕ) × (temp' : List ℕ) × (get_value t a.source_value_id ≡ ok value)
      × (read_sources t rest ≡ ok temp')
      × (temp ≡ value ∷ temp')
unfolding read_sources
read_sources-cons t a rest r =
    let p = both_returned (get_value t a.source_value_id) _ r in
    let q = both_returned (read_sources t rest) _ p.2 in (p.0, q.0, p.1, q.1, cc)

module _ (t0 : Thread) (inst : ℕ) where
  -- `done` are the values that the fast path has assigned before.
  fast-slow :
      (t : Thread) (done : List ℕ) (assigns : List RuntimePhiAssign) (temp : List ℕ)
      → Agrees t0 t done
      → read_sources t0 assigns ≡ ok temp
      → independent inst done assigns ≡ true
      → assign_fast t inst assigns ≡ write_dests t inst assigns temp
  unfolding assign_fast read_sources write_dests
  fast-slow t done [] temp agrees r h = refl
  fast-slow t done (a ∷ rest) temp agrees r h = rw s.4 (elim (Bool-cases (a.inst == inst)) [
    | inl e ↦
        rw
          (
            e,
            assign_fast,
            write_dests,
            agrees a.source_value_id (source_free inst done a rest e h).0,
            s.2,
          )
          (elim (set_value-cases t a.dest_value_id s.0) [
            | inl f ↦ rw f
            | inr l ↦ rw (set_value-IsLocal t a.dest_value_id s.0 l) (
                fast-slow (with_value t a.dest_value_id s.0) (a.dest_value_id ∷ done) rest s.1
                  (Agrees-set t0 t done a.dest_value_id s.0 l agrees) s.3
                  (source_free inst done a rest e h).1)
          ])
    | inr e ↦ rw (e, assign_fast, write_dests) (fast-slow t done rest s.1 agrees s.3 (rw e at h))
  ])
    where
      s :
          (value : ℕ) × (temp' : List ℕ) × (get_value t0 a.source_value_id ≡ ok value)
          × (read_sources t0 rest ≡ ok temp')
          × (temp ≡ value ∷ temp')
      s = read_sources-cons t0 a rest r

-- For a thread in which all sources can be read, and a block `inst` to go to, where no source of an
-- assignment for that block is the destination of an earlier one for it, the fast path ends in the
-- same thread as the other path, or faults where that does.
pub do_phi_assigns-independent :
    (t : Thread) (inst : ℕ) (assigns : List RuntimePhiAssign) {temp : List ℕ}
    → read_sources t assigns ≡ ok temp
    → independent inst [] assigns ≡ true
    → do_phi_assigns t true inst assigns ≡ do_phi_assigns t false inst assigns
unfolding do_phi_assigns
do_phi_assigns-independent t inst assigns r h =
    rw r (fast-slow t inst t [] assigns _ (λ j k. refl) r h)

-- The assignments as the executor sees them, where block `n` starts at `inst_of n`.
abbrev pub compiled : (ℕ → ℕ) → List PhiAssign → List RuntimePhiAssign
compiled inst_of [] = []
compiled inst_of (a ∷ rest) =
    record {
      inst = inst_of a.bb_id;
      dest_value_id = a.dest_value_id;
      source_value_id = a.source_value_id;
    }
    ∷ compiled inst_of rest

abbrev pub all_for : ℕ → List PhiAssign → Bool
all_for n [] = true
all_for n (a ∷ rest) = a.bb_id == n && all_for n rest

is_fast-independent :
    (inst_of : ℕ → ℕ) (n : ℕ) (seen_bb : ℕ → Bool) (prior : List ℕ) (assigns : List PhiAssign)
    → all_for n assigns ≡ true
    → is_fast (some n) seen_bb prior assigns ≡ true
    → independent (inst_of n) prior (compiled inst_of assigns) ≡ true
unfolding is_fast
is_fast-independent inst_of n seen_bb prior [] h f = refl
is_fast-independent inst_of n seen_bb prior (a ∷ rest) h f =
    rw (same.0, same_inst, kept.0)
      (is_fast-independent inst_of n seen_bb (a.dest_value_id ∷ prior) rest same.1 kept.1)
  where
    same : (a.bb_id ≡ n) × (all_for n rest ≡ true)
    same = ground arith

    same_inst : (inst_of n == inst_of n) ≡ true
    same_inst = ground arith

    kept :
        (mem a.source_value_id prior ≡ false)
        × (is_fast (some n) seen_bb (a.dest_value_id ∷ prior) rest ≡ true)
    kept = ground (arith, same)

-- Where all assignments of a block are for one successor, whose phis' sources can be read, the
-- executor does the same whether it looks at fast_phi_assign as it was computed or takes the path
-- through the temporary values.
pub do_phi_assigns-fast_phi_assign :
    (t : Thread) (inst_of : ℕ → ℕ) (n : ℕ) (assigns : List PhiAssign) {temp : List ℕ}
    → all_for n assigns ≡ true
    → read_sources t (compiled inst_of assigns) ≡ ok temp
    → do_phi_assigns t (fast_phi_assign assigns) (inst_of n) (compiled inst_of assigns)
      ≡ do_phi_assigns t false (inst_of n) (compiled inst_of assigns)
unfolding fast_phi_assign is_fast
do_phi_assigns-fast_phi_assign t inst_of n [] h r =
    do_phi_assigns-independent t (inst_of n) [] r refl
do_phi_assigns-fast_phi_assign t inst_of n (a ∷ rest) h r =
    elim (Bool-cases (fast_phi_assign (a ∷ rest))) [
      | inr f ↦ rw f
      | inl f ↦
          rw f (do_phi_assigns-independent t (inst_of n) (compiled inst_of (a ∷ rest)) r (starts f))
    ]
  where
    same : (a.bb_id ≡ n) × (all_for n rest ≡ true)
    same = ground arith

    same_inst : (inst_of n == inst_of n) ≡ true
    same_inst = ground arith

    starts :
        fast_phi_assign (a ∷ rest) ≡ true
        → independent (inst_of n) [] (compiled inst_of (a ∷ rest)) ≡ true
    starts f =
        rw (same.0, same_inst)
          (is_fast-independent inst_of n _ (a.dest_value_id ∷ []) rest same.1 (rw same.0 at f))
