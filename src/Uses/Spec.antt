-- ===== src/Uses/Spec.antt =====
-- What an instruction takes, apart from the code.
use pnacl_c.Base.{
  ℕ, ◌≡◌, ◌⊎◌, ◌↔◌, inl, inr, refl, ap, Bool, true, false, ◌==◌, List, [], ◌∷◌, ◌++◌, ok,
  if◌then◌else◌,
}
use pnacl_c.Machine.State.{invalid_value_id}
use pnacl_c.Phi.{PhiUse}
use pnacl_c.Liveness.Push.{Among, there}
use pnacl_c.PredBbs.Fill.{Among-cons, Among-first}
use pnacl_c.Uses.{Instruction, used_values, phi_uses_of}

-- The instruction has a code that instructions have.
abbrev pub IsKnown : Instruction → Type 0
IsKnown Instruction.other = ⊥
IsKnown _ = Unit {0}

-- The value is one of the instruction's operands, where a return and a branch may have none, and the
-- callee of an indirect call is one.
abbrev pub Takes : Instruction → ℕ → Type 0
Takes (Instruction.binop value0_id value1_id) v = (v ≡ value0_id) ⊎ (v ≡ value1_id)
Takes (Instruction.cmp2 value0_id value1_id) v = (v ≡ value0_id) ⊎ (v ≡ value1_id)
Takes (Instruction.cast value_id) v = v ≡ value_id
Takes (Instruction.ret value_id) v = (v ≡ value_id) × ((value_id == invalid_value_id) ≡ false)
Takes (Instruction.br value_id) v = (v ≡ value_id) × ((value_id == invalid_value_id) ≡ false)
Takes (Instruction.switch value_id) v = v ≡ value_id
Takes (Instruction.alloca size_id) v = v ≡ size_id
Takes (Instruction.load src_id) v = v ≡ src_id
Takes (Instruction.store dest_id value_id) v = (v ≡ dest_id) ⊎ (v ≡ value_id)
Takes (Instruction.vselect cond_id true_value_id false_value_id) v =
    (v ≡ cond_id) ⊎ ((v ≡ true_value_id) ⊎ (v ≡ false_value_id))
Takes (Instruction.call is_indirect callee_id arg_ids) v =
    ((is_indirect ≡ true) × (v ≡ callee_id)) ⊎ Among v arg_ids
Takes _ v = ⊥

-- The uses that come in to a phi.
abbrev incoming_uses : ℕ → List (ℕ × ℕ) → List PhiUse
incoming_uses dest [] = []
incoming_uses dest ((bb_id, value_id) ∷ incoming) =
    record { dest_value_id = dest; incoming_bb_id = bb_id; incoming_value_id = value_id }
    ∷ incoming_uses dest incoming

-- Those of a list of instructions, in order.
abbrev pub all_phi_uses : List Instruction → List PhiUse
all_phi_uses [] = []
all_phi_uses (Instruction.phi dest incoming ∷ insts) =
    incoming_uses dest incoming ++ all_phi_uses insts
all_phi_uses (_ ∷ insts) = all_phi_uses insts

map-incoming_uses :
    (dest : ℕ) (incoming : List (ℕ × ℕ))
    → phi_uses_of (Instruction.phi dest incoming) ≡ incoming_uses dest incoming
unfolding phi_uses_of
map-incoming_uses dest [] = refl
map-incoming_uses dest (i ∷ incoming) =
    ap (λ l. record { dest_value_id = dest; incoming_bb_id = i.0; incoming_value_id = i.1 } ∷ l)
      (map-incoming_uses dest incoming)

pub phi_uses_of-first :
    (inst : Instruction) (insts : List Instruction)
    → phi_uses_of inst ++ all_phi_uses insts ≡ all_phi_uses (inst ∷ insts)
unfolding phi_uses_of
phi_uses_of-first (Instruction.phi dest incoming) insts =
    ap (λ l. l ++ all_phi_uses insts) (map-incoming_uses dest incoming)
phi_uses_of-first (Instruction.binop v w) insts = refl
phi_uses_of-first (Instruction.cmp2 v w) insts = refl
phi_uses_of-first (Instruction.cast v) insts = refl
phi_uses_of-first (Instruction.ret v) insts = refl
phi_uses_of-first (Instruction.br v) insts = refl
phi_uses_of-first (Instruction.switch v) insts = refl
phi_uses_of-first (Instruction.alloca v) insts = refl
phi_uses_of-first (Instruction.load v) insts = refl
phi_uses_of-first (Instruction.store v w) insts = refl
phi_uses_of-first (Instruction.vselect c v w) insts = refl
phi_uses_of-first (Instruction.call b c args) insts = refl
phi_uses_of-first Instruction.unreachable insts = refl
phi_uses_of-first Instruction.forwardtyperef insts = refl
phi_uses_of-first Instruction.other insts = refl

one : (v a : ℕ) → Among v (a ∷ []) ↔ (v ≡ a)
one v a =
    (λ h. elim (Among-cons v a [] h) [ inl e ↦ e | inr k ↦ elim k [ ] ], λ e. Among-first v a [] e)

first_or : (v a : ℕ) (l : List ℕ) → Among v (a ∷ l) ↔ ((v ≡ a) ⊎ Among v l)
first_or v a l = (Among-cons v a l, λ h. elim h [ inl e ↦ Among-first v a l e | inr k ↦ there k ])

two : (v a b : ℕ) → Among v (a ∷ b ∷ []) ↔ ((v ≡ a) ⊎ (v ≡ b))
two v a b = (
  λ h. elim (Among-cons v a (b ∷ []) h) [ inl e ↦ inl e | inr k ↦ inr ((one v b).0 k) ],
  λ h. elim h [ inl e ↦ Among-first v a (b ∷ []) e | inr e ↦ there ((one v b).1 e) ],
)

three : (v a b c : ℕ) → Among v (a ∷ b ∷ c ∷ []) ↔ ((v ≡ a) ⊎ ((v ≡ b) ⊎ (v ≡ c)))
three v a b c = (
  λ h. elim (Among-cons v a (b ∷ c ∷ []) h) [ inl e ↦ inl e | inr k ↦ inr ((two v b c).0 k) ],
  λ h. elim h [ inl e ↦ Among-first v a (b ∷ c ∷ []) e | inr e ↦ there ((two v b c).1 e) ],
)

-- The operand of a return or a branch, if it has one.
maybe : (v a : ℕ) (b : Bool) → Among v (if b then [] else (a ∷ [])) ↔ ((v ≡ a) × (b ≡ false))
maybe v a true = (λ h. elim h [ ], λ h. let e = h.1 in cc)
maybe v a false = (λ h. ((one v a).0 h, refl), λ h. (one v a).1 h.0)

callee :
    (v c : ℕ) (args : List ℕ) (b : Bool)
    → Among v (if b then (c ∷ args) else args) ↔ (((b ≡ true) × (v ≡ c)) ⊎ Among v args)
callee v c args true = (
  λ h. elim (Among-cons v c args h) [ inl e ↦ inl (refl, e) | inr k ↦ inr k ],
  λ h. elim h [ inl e ↦ Among-first v c args e.1 | inr k ↦ there k ],
)
callee v c args false = (λ h. inr h, λ h. elim h [ inl e ↦ (let q = e.0 in cc) | inr k ↦ k ])

-- The values that the code lists for a known instruction are those that it takes.
abbrev pub Listing : Instruction → Type 0
Listing inst = (ids : List ℕ) × (used_values inst ≡ ok ids) × ((v : ℕ) → Among v ids ↔ Takes inst v)

nothing : (v : ℕ) → Among v [] ↔ ⊥
nothing v = (λ h. elim h [ ], λ h. absurd h)

pub used_values-Listing : (inst : Instruction) → IsKnown inst → Listing inst
unfolding used_values
used_values-Listing (Instruction.phi dest incoming) k = ([], refl, nothing)
used_values-Listing (Instruction.binop a b) k = (a ∷ b ∷ [], refl, λ v. two v a b)
used_values-Listing (Instruction.cmp2 a b) k = (a ∷ b ∷ [], refl, λ v. two v a b)
used_values-Listing (Instruction.cast a) k = (a ∷ [], refl, λ v. one v a)
used_values-Listing (Instruction.ret a) k = (_, refl, λ v. maybe v a (a == invalid_value_id))
used_values-Listing (Instruction.br a) k = (_, refl, λ v. maybe v a (a == invalid_value_id))
used_values-Listing (Instruction.switch a) k = (a ∷ [], refl, λ v. one v a)
used_values-Listing (Instruction.alloca a) k = (a ∷ [], refl, λ v. one v a)
used_values-Listing (Instruction.load a) k = (a ∷ [], refl, λ v. one v a)
used_values-Listing (Instruction.store a b) k = (a ∷ b ∷ [], refl, λ v. two v a b)
used_values-Listing (Instruction.vselect a b c) k = (a ∷ b ∷ c ∷ [], refl, λ v. three v a b c)
used_values-Listing (Instruction.call b c args) k = (_, refl, λ v. callee v c args b)
used_values-Listing Instruction.unreachable k = ([], refl, nothing)
used_values-Listing Instruction.forwardtyperef k = ([], refl, nothing)
used_values-Listing Instruction.other k = absurd k
