-- ===== src/Abbreviations/Grammar.antt =====
-- The abbreviations that the reader lets through.
use pnacl_c.Base.{
  ℕ, zero, suc, ◌+◌, lt→ltb, arith, ◌≤◌, ◌≡◌, refl, ap, List, [], ◌∷◌, length, Bool-cases, inl, inr,
  leb, leb→le, ◌==◌,
}
use pnacl_c.Base.{Result, ok, ◌>>=◌, ◌>>◌, check}
use pnacl_c.Base.{Ensures, done, fatal_end, fault_end, Ensures-any, Ensures-bind, Ensures-if}
use pnacl_c.BitStream.{BitStream, read, read_vbr}
use pnacl_c.Record.{AbbrevOp}
use pnacl_c.Abbreviations.{read_array_ops, read_element_op, read_op, read_ops}

-- The op of an array's element.
pub data IsElement : AbbrevOp → Type 0 where
  literal : (value : ℕ) → IsElement (AbbrevOp.literal value)
  fixed : (num_bits : ℕ) → num_bits ≤ 32 → IsElement (AbbrevOp.fixed num_bits)
  vbr : (num_bits : ℕ) → num_bits ≤ 32 → IsElement (AbbrevOp.vbr num_bits)
  char6 : IsElement AbbrevOp.char6

-- A list of ops in which an array always has its element behind it.
pub data IsAbbrev : List AbbrevOp → Type 0 where
  no_op : IsAbbrev []
  element :
      {op : AbbrevOp} {ops : List AbbrevOp} → IsElement op → IsAbbrev ops → IsAbbrev (op ∷ ops)
  blob : {ops : List AbbrevOp} → IsAbbrev ops → IsAbbrev (AbbrevOp.blob ∷ ops)
  array :
      {op : AbbrevOp} {ops : List AbbrevOp}
      → IsElement op
      → IsAbbrev ops
      → IsAbbrev (AbbrevOp.array ∷ op ∷ ops)

-- What an op is, as it is read.
pub data IsOp : AbbrevOp → Type 0 where
  is_element : {op : AbbrevOp} → IsElement op → IsOp op
  is_blob : IsOp AbbrevOp.blob
  is_array : IsOp AbbrevOp.array

module _ (P : AbbrevOp → Type 0) where
  width-Ensures :
      (encoding : ℕ → AbbrevOp) (bs : BitStream)
      → ((n : ℕ) → n ≤ 32 → P (encoding n))
      → Ensures
          (λ (r : AbbrevOp × BitStream). P r.0)
          (read_vbr bs 5 >>= λ (num_bits, bs').
            check (leb num_bits 32) >> ok (encoding num_bits, bs'))
  width-Ensures encoding bs k = Ensures-any (read_vbr bs 5) (λ r. elim (Bool-cases (leb r.0 32)) [
    | inl e ↦ rw e (done (k r.0 (leb→le r.0 32 e)))
    | inr e ↦ rw e fatal_end
  ])

read_element_op-IsElement :
    (bs : BitStream) → Ensures (λ (r : AbbrevOp × BitStream). IsElement r.0) (read_element_op bs)
unfolding read_element_op
read_element_op-IsElement bs = Ensures-any (read bs 1) (λ r.
    Ensures-if (r.0 == 0)
      (Ensures-any (read r.1 3) (λ s.
        Ensures-if (s.0 == 1) (width-Ensures IsElement AbbrevOp.fixed s.1 IsElement.fixed) (
          Ensures-if (s.0 == 2) (width-Ensures IsElement AbbrevOp.vbr s.1 IsElement.vbr)
            (Ensures-if (s.0 == 4) (done IsElement.char6) fatal_end))))
      (Ensures-any (read_vbr r.1 8) (λ s. done (IsElement.literal s.0))))

read_op-IsOp : (bs : BitStream) → Ensures (λ (r : AbbrevOp × BitStream). IsOp r.0) (read_op bs)
unfolding read_op
read_op-IsOp bs = Ensures-any (read bs 1) (λ r.
    Ensures-if (r.0 == 0)
      (Ensures-any (read r.1 3) (λ s. Ensures-if (s.0 == 3) (done IsOp.is_array) (
        Ensures-if (s.0 == 5) (done IsOp.is_blob) (
          Ensures-if (s.0 == 1)
            (width-Ensures IsOp AbbrevOp.fixed s.1 (λ n h. IsOp.is_element (IsElement.fixed n h)))
            (Ensures-if (s.0 == 2)
              (width-Ensures IsOp AbbrevOp.vbr s.1 (λ n h. IsOp.is_element (IsElement.vbr n h)))
              (Ensures-if (s.0 == 4) (done (IsOp.is_element IsElement.char6)) fatal_end))))))
      (Ensures-any (read_vbr r.1 8) (λ s. done (IsOp.is_element (IsElement.literal s.0)))))

-- Ops of a number, in order.
abbrev pub Defines : ℕ → List AbbrevOp × BitStream → Type 0
Defines n r = IsAbbrev r.0 × (length r.0 ≡ n)

-- The switch on an op that was read: an op other than an array goes before any abbreviation.
by_op :
    {A : Type 0} {P : A → Type 0} {op : AbbrevOp} (on_array : Result A)
    (otherwise : AbbrevOp → Result A)
    → IsOp op
    → Ensures P on_array
    → ((other : AbbrevOp)
        → ((ops : List AbbrevOp) → IsAbbrev ops → IsAbbrev (other ∷ ops))
        → Ensures P (otherwise other))
    → Ensures P (elim op [ AbbrevOp.array ↦ on_array | other ↦ otherwise other ])
by_op on_array otherwise (IsOp.is_element (IsElement.literal v)) k l =
    l (AbbrevOp.literal v) (λ ops. IsAbbrev.element (IsElement.literal v))
by_op on_array otherwise (IsOp.is_element (IsElement.fixed v h)) k l =
    l (AbbrevOp.fixed v) (λ ops. IsAbbrev.element (IsElement.fixed v h))
by_op on_array otherwise (IsOp.is_element (IsElement.vbr v h)) k l =
    l (AbbrevOp.vbr v) (λ ops. IsAbbrev.element (IsElement.vbr v h))
by_op on_array otherwise (IsOp.is_element IsElement.char6) k l =
    l AbbrevOp.char6 (λ ops. IsAbbrev.element IsElement.char6)
by_op on_array otherwise IsOp.is_blob k l = l AbbrevOp.blob (λ ops. IsAbbrev.blob)
by_op on_array otherwise IsOp.is_array k l = k

array_ops-Ensures :
    (left : ℕ) (read_rest : BitStream → Result (List AbbrevOp × BitStream)) (bs : BitStream)
    → ((bs' : BitStream) → Ensures (Defines left) (read_rest bs'))
    → Ensures (Defines (suc (suc left))) (read_array_ops (left + 2) read_rest bs)
array_ops-Ensures left read_rest bs rest =
    Ensures-bind (read_element_op-IsElement bs) (λ (elt, bs1) e.
      rw (lt→ltb 1 (left + 2) (omega arith)) (
        Ensures-bind (rest bs1)
          (λ (ops, bs2) d. done (IsAbbrev.array e d.0, ap (λ n. suc (suc n)) d.1))))

pub read_ops-Ensures : (n : ℕ) (bs : BitStream) → Ensures (Defines n) (read_ops n bs)
unfolding read_ops
read_ops-Ensures zero bs = done (IsAbbrev.no_op, refl)
read_ops-Ensures (suc zero) bs = Ensures-bind (read_op-IsOp bs) (λ (op, bs1) h.
    by_op (read_array_ops 1 (λ bs2. ok ([], bs2)) bs1) (λ other. ok (other ∷ [], bs1)) h
      (Ensures-any (read_element_op bs1) (λ _. fault_end))
      (λ other k. done (k [] IsAbbrev.no_op, refl)))
read_ops-Ensures (suc (suc left)) bs = Ensures-bind (read_op-IsOp bs) (λ (op, bs1) h.
    by_op (read_array_ops (left + 2) (λ bs2. read_ops left bs2) bs1)
      (λ other. read_ops (suc left) bs1 >>= λ (ops, bs2). ok (other ∷ ops, bs2)) h
      (array_ops-Ensures left (λ bs2. read_ops left bs2) bs1 (λ bs2. read_ops-Ensures left bs2))
      (λ other k.
        Ensures-bind (read_ops-Ensures (suc left) bs1)
          (λ (ops, bs2) d. done (k ops d.0, ap suc d.1))))
