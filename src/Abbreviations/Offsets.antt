-- ===== src/Abbreviations/Offsets.antt =====
-- Headers and ops by their offsets in the allocation.
use pnacl_c.Base.{
  ℕ, zero, suc, ◌+◌, ◌*◌, ◌≤◌, ◌<◌, ◌≡◌, subst, refl, sym, ap, ◌∙◌, arith, inl, inr, Bool-cases,
  if◌then◌else◌, lt→ltb, le→leb, ◌==◌, ==_iff, List, [], ◌∷◌, ◌++◌, map, length,
}
use pnacl_c.Record.{AbbrevOp, Abbrev}
use pnacl_c.Abbreviations.{
  Header, Abbrevs, sizeof_abbrev, sizeof_op, memmove, place_headers, placed_end, write_ops,
  last_ops, ops_from, ops_of,
}

-- Where abbreviations belong: their headers in order, and the ops one behind the other.
abbrev pub headers_at : ℕ → List Abbrev → List Header
headers_at at [] = []
headers_at at (x ∷ xs) =
    record { num_ops = length x; ops = at } ∷ headers_at (at + length x * sizeof_op) xs

abbrev pub ops_end : ℕ → List Abbrev → ℕ
ops_end at [] = at
ops_end at (x ∷ xs) = ops_end (at + length x * sizeof_op) xs

abbrev pub AreStored : (ℕ → AbbrevOp) → ℕ → List Abbrev → Type 0
AreStored memory at [] = Unit {0}
AreStored memory at (x ∷ xs) =
    (ops_from memory at (length x) ≡ x) × AreStored memory (at + length x * sizeof_op) xs

abbrev pub ops_start : List Abbrev → ℕ
ops_start xs = length xs * sizeof_abbrev

-- The list holds some abbreviations.
pub record Holds (a : Abbrevs) (xs : List Abbrev) : Type 0 where
  pub headers : a.headers ≡ headers_at (ops_start xs) xs
  pub size : a.size ≡ ops_end (ops_start xs) xs
  pub stored : AreStored a.memory (ops_start xs) xs

-- What the pointers of the headers lead to.
abbrev pub abbrevs_of : Abbrevs → List Abbrev
abbrevs_of a = map (ops_of a) a.headers

pub AreStored-map :
    (memory : ℕ → AbbrevOp) (at : ℕ) (xs : List Abbrev)
    → AreStored memory at xs
    → map (λ (h : Header). ops_from memory h.ops h.num_ops) (headers_at at xs) ≡ xs
AreStored-map memory at [] h = refl
AreStored-map memory at (x ∷ xs) (own, h) =
    ap
      (λ (y : Abbrev).
        y
        ∷ map (λ (h : Header). ops_from memory h.ops h.num_ops)
            (headers_at (at + length x * sizeof_op) xs))
      own
    ∙ ap (λ (ys : List Abbrev). x ∷ ys) (AreStored-map memory (at + length x * sizeof_op) xs h)

pub Holds-abbrevs_of : (a : Abbrevs) (xs : List Abbrev) → Holds a xs → abbrevs_of a ≡ xs
Holds-abbrevs_of a xs h =
    ap (map (ops_of a)) h.headers ∙ AreStored-map a.memory (ops_start xs) xs h.stored

pub place_headers-headers_at :
    (a b : ℕ) (xs : List Abbrev) → place_headers a (headers_at b xs) ≡ headers_at a xs
place_headers-headers_at a b [] = refl
place_headers-headers_at a b (x ∷ xs) =
    ap (λ hs. record { num_ops = length x; ops = a } ∷ hs)
      (place_headers-headers_at (a + length x * sizeof_op) (b + length x * sizeof_op) xs)

pub placed_end-headers_at :
    (a b : ℕ) (xs : List Abbrev) → placed_end a (headers_at b xs) ≡ ops_end a xs
placed_end-headers_at a b [] = refl
placed_end-headers_at a b (x ∷ xs) =
    placed_end-headers_at (a + length x * sizeof_op) (b + length x * sizeof_op) xs

pub length-headers_at : (a : ℕ) (xs : List Abbrev) → length (headers_at a xs) ≡ length xs
length-headers_at a [] = refl
length-headers_at a (x ∷ xs) = ap suc (length-headers_at (a + length x * sizeof_op) xs)

pub headers_at-append :
    (a : ℕ) (xs : List Abbrev) (x : Abbrev)
    → headers_at a xs ++ record { num_ops = length x; ops = ops_end a xs } ∷ []
      ≡ headers_at a (xs ++ x ∷ [])
headers_at-append a [] x = refl
headers_at-append a (y ∷ xs) x =
    ap (λ hs. record { num_ops = length y; ops = a } ∷ hs)
      (headers_at-append (a + length y * sizeof_op) xs x)

pub ops_end-append :
    (a : ℕ) (xs : List Abbrev) (x : Abbrev)
    → ops_end a (xs ++ x ∷ []) ≡ ops_end a xs + length x * sizeof_op
ops_end-append a [] x = refl
ops_end-append a (y ∷ xs) x = ops_end-append (a + length y * sizeof_op) xs x

pub ops_end-ge : (a : ℕ) (xs : List Abbrev) → a ≤ ops_end a xs
ops_end-ge a [] = omega arith
ops_end-ge a (x ∷ xs) = omega (arith, ops_end-ge (a + length x * sizeof_op) xs)

pub ops_end-shift : (a d : ℕ) (xs : List Abbrev) → ops_end (a + d) xs ≡ ops_end a xs + d
ops_end-shift a d [] = refl
ops_end-shift a d (x ∷ xs) =
    ap (λ (n : ℕ). ops_end n xs) (omega arith) ∙ ops_end-shift (a + length x * sizeof_op) d xs

pub last_ops-append : (hs : List Header) (h : Header) → last_ops (hs ++ h ∷ []) ≡ h.ops
last_ops-append [] h = refl
last_ops-append (x ∷ []) h = refl
last_ops-append (x ∷ y ∷ hs) h = last_ops-append (y ∷ hs) h

-- Ops that are the same `d` further.
ops_from-same :
    (f g : ℕ → AbbrevOp) (a d n : ℕ)
    → ((p : ℕ) → a ≤ p → p < a + n * sizeof_op → f p ≡ g (p + d))
    → ops_from g (a + d) n ≡ ops_from f a n
ops_from-same f g a d zero e = refl
ops_from-same f g a d (suc n) e =
    ap (λ (op : AbbrevOp). op ∷ ops_from g (a + d + sizeof_op) n)
      (sym (e a (omega arith) (omega arith)))
    ∙ ap (λ (at : ℕ). f a ∷ ops_from g at n) (omega arith)
    ∙ ap (λ (l : Abbrev). f a ∷ l)
        (ops_from-same f g (a + sizeof_op) d n (λ p l h. e p (omega arith) (omega arith)))

pub AreStored-same :
    (f g : ℕ → AbbrevOp) (a d : ℕ) (xs : List Abbrev)
    → ((p : ℕ) → a ≤ p → p < ops_end a xs → f p ≡ g (p + d))
    → AreStored f a xs
    → AreStored g (a + d) xs
AreStored-same f g a d [] e h = tt
AreStored-same f g a d (x ∷ xs) e (own, h) = (
  ops_from-same f g a d (length x)
        (λ p l k. e p l (omega (arith, k, ops_end-ge (a + length x * sizeof_op) xs)))
      ∙ own,
  subst (λ (at : ℕ). AreStored g at xs) (omega arith)
      (AreStored-same f g (a + length x * sizeof_op) d xs (λ p l k. e p (omega arith) k) h),
)

pub AreStored-append :
    (f : ℕ → AbbrevOp) (a : ℕ) (xs : List Abbrev) (x : Abbrev)
    → AreStored f a xs
    → ops_from f (ops_end a xs) (length x) ≡ x
    → AreStored f a (xs ++ x ∷ [])
AreStored-append f a [] x h e = (e, tt)
AreStored-append f a (y ∷ xs) x (own, h) e =
    (own, AreStored-append f (a + length y * sizeof_op) xs x h e)

-- A write of ops leaves what is in front of them, and they are there.
pub write_ops-front :
    (at : ℕ) (src : List AbbrevOp) (memory : ℕ → AbbrevOp) (p : ℕ)
    → p < at
    → write_ops at src memory p ≡ memory p
unfolding write_ops
write_ops-front at [] memory p h = refl
write_ops-front at (op ∷ src) memory p h =
    write_ops-front (at + sizeof_op) src (λ q. if q == at then op else memory q) p (omega arith)
    ∙ elim (Bool-cases (p == at)) [
      | inl e ↦ absurd (omega (arith, h, (==_iff p at).0 e))
      | inr e ↦ rw e refl
    ]

pub ops_from-write_ops :
    (at : ℕ) (src : List AbbrevOp) (memory : ℕ → AbbrevOp)
    → ops_from (write_ops at src memory) at (length src) ≡ src
unfolding write_ops
ops_from-write_ops at [] memory = refl
ops_from-write_ops at (op ∷ src) memory =
    ap
      (λ (o : AbbrevOp).
        o ∷ ops_from (write_ops at (op ∷ src) memory) (at + sizeof_op) (length src))
      (write_ops-front (at + sizeof_op) src (λ q. if q == at then op else memory q) at (omega arith)
        ∙ rw ((==_iff at at).1 refl) refl)
    ∙ ap (λ (l : Abbrev). op ∷ l)
        (ops_from-write_ops (at + sizeof_op) src (λ q. if q == at then op else memory q))

pub memmove-moved :
    (dest src n : ℕ) (memory : ℕ → AbbrevOp) (p d : ℕ)
    → src ≤ p
    → p < src + n
    → dest ≡ src + d
    → memory p ≡ memmove dest src n memory (p + d)
memmove-moved dest src n memory p d l h e =
    rw (le→leb dest (p + d) (omega arith), lt→ltb (p + d) (dest + n) (omega arith))
      (ap memory (omega arith))
