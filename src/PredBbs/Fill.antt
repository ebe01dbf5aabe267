-- ===== src/PredBbs/Fill.antt =====
-- The passes over the successors of one block.
use pnacl_c.Base.{
  ℕ, suc, ◌<◌, ◌≡◌, ◌⊎◌, ◌↔◌, inl, inr, refl, sym, ap, ◌∙◌, arith, lt→ltb, ◌==◌, ==_iff, ==_ne,
  Bool-cases, List, [], ◌∷◌, ◌++◌, map, length, length-set, length-append, get_elem?, get_or,
  get_elem?-some, get_elem?-map, get_or-set_self, get_or-set_ne, map-set, set, some, ok,
}
use pnacl_c.PredBbs.{count_succs, fill_succs}
use pnacl_c.Liveness.Push.{Among, here, there}

abbrev pub lengths : List (List ℕ) → List ℕ
lengths preds = map length preds

-- The predecessors of a block.
abbrev pub preds_of : List (List ℕ) → ℕ → List ℕ
preds_of preds i = get_or preds i []

pub Among-cons : (m x : ℕ) (l : List ℕ) → Among m (x ∷ l) → (m ≡ x) ⊎ Among m l
Among-cons _ x l here = inl refl
Among-cons m x l (there h) = inr h

pub Among-first : (m x : ℕ) (l : List ℕ) → m ≡ x → Among m (x ∷ l)
Among-first m x l e = rw e here

Among-append-to : (m n : ℕ) (l : List ℕ) → Among m (l ++ n ∷ []) → Among m l ⊎ (m ≡ n)
Among-append-to m n [] h = elim (Among-cons m n [] h) [ inl e ↦ inr e | inr k ↦ elim k [ ] ]
Among-append-to m n (x ∷ l) h = elim (Among-cons m x (l ++ n ∷ []) h) [
  | inl e ↦ inl (Among-first m x l e)
  | inr k ↦ elim (Among-append-to m n l k) [ inl q ↦ inl (there q) | inr e ↦ inr e ]
]

Among-append-from : (m n : ℕ) (l : List ℕ) → Among m l ⊎ (m ≡ n) → Among m (l ++ n ∷ [])
Among-append-from m n [] (inl h) = elim h [ ]
Among-append-from m n [] (inr e) = Among-first m n [] e
Among-append-from m n (x ∷ l) (inr e) = there (Among-append-from m n l (inr e))
Among-append-from m n (x ∷ l) (inl h) = elim (Among-cons m x l h) [
  | inl e ↦ Among-first m x (l ++ n ∷ []) e
  | inr k ↦ there (Among-append-from m n l (inl k))
]

pub length-lengths : (preds : List (List ℕ)) → length (lengths preds) ≡ length preds
length-lengths [] = refl
length-lengths (own ∷ preds) = ap suc (length-lengths preds)

-- What the fill for one block changes.
pub record Filled (n : ℕ) (preds : List (List ℕ)) (succs : List ℕ) : Type 0 where
  pub after : List (List ℕ)
  pub fills : fill_succs n preds succs ≡ ok after
  pub counts : count_succs (lengths preds) succs ≡ ok (lengths after)
  pub same_length : length after ≡ length preds
  pub adds :
      (i m : ℕ)
      → Among m (preds_of after i) ↔ (Among m (preds_of preds i) ⊎ ((m ≡ n) × Among i succs))

module _ (n : ℕ) (preds : List (List ℕ)) (succ : ℕ) (room : succ < length preds) where
  own : List ℕ
  own = preds_of preds succ

  put : List (List ℕ)
  unfolding own
  put = set preds succ (own ++ n ∷ [])

  there_is : get_elem? preds succ ≡ some own
  unfolding own
  there_is = get_elem?-some preds succ [] room

  at_succ : preds_of put succ ≡ own ++ n ∷ []
  unfolding put
  at_succ = get_or-set_self preds succ (own ++ n ∷ []) [] room

  put-adds :
      (i m : ℕ) → Among m (preds_of put i) ↔ (Among m (preds_of preds i) ⊎ ((m ≡ n) × (i ≡ succ)))
  unfolding put own
  put-adds i m = elim (Bool-cases (i == succ)) [
    | inl e ↦
        rw ((==_iff i succ).0 e, at_succ)
          (
            λ h. elim (Among-append-to m n own h) [ inl k ↦ inl k | inr q ↦ inr (q, refl) ],
            λ h. Among-append-from m n own (elim h [ inl k ↦ inl k | inr q ↦ inr q.0 ]),
          )
    | inr e ↦
        rw (get_or-set_ne preds succ i (own ++ n ∷ []) [] (λ q. ==_ne i succ e (sym q)))
          (λ h. inl h, λ h. elim h [ inl k ↦ k | inr q ↦ absurd (==_ne i succ e q.1) ])
  ]

  length-put : length put ≡ length preds
  unfolding put
  length-put = length-set preds succ (own ++ n ∷ [])

  -- One successor, and the others.
  more : (succs : List ℕ) → Filled n put succs → Filled n preds (succ ∷ succs)
  unfolding put fill_succs count_succs
  more succs rest = record {
    after = rest.after;
    fills = rw there_is rest.fills;
    counts =
        rw
          (
            lt→ltb succ (length (lengths preds)) (omega (arith, length-lengths preds)),
            get_elem?-map length preds succ there_is,
            sym (length-append own (n ∷ [])),
            sym (map-set length preds succ (own ++ n ∷ [])),
          )
          rest.counts;
    same_length = rest.same_length ∙ length-set preds succ (own ++ n ∷ []);
    adds = λ i m. (λ h. to i m ((rest.adds i m).0 h), λ h. (rest.adds i m).1 (from i m h));
  }
    where
      to :
          (i m : ℕ)
          → Among m (preds_of put i) ⊎ ((m ≡ n) × Among i succs)
          → Among m (preds_of preds i) ⊎ ((m ≡ n) × Among i (succ ∷ succs))
      to i m (inr q) = inr (q.0, there q.1)
      to i m (inl h) = elim ((put-adds i m).0 h) [
        | inl k ↦ inl k
        | inr q ↦ inr (q.0, Among-first i succ succs q.1)
      ]

      from :
          (i m : ℕ)
          → Among m (preds_of preds i) ⊎ ((m ≡ n) × Among i (succ ∷ succs))
          → Among m (preds_of put i) ⊎ ((m ≡ n) × Among i succs)
      from i m (inl h) = inl ((put-adds i m).1 (inl h))
      from i m (inr q) = elim (Among-cons i succ succs q.1) [
        | inl e ↦ inl ((put-adds i m).1 (inr (q.0, e)))
        | inr k ↦ inr (q.0, k)
      ]

pub fill_succs-Filled :
    (n : ℕ) (preds : List (List ℕ)) (succs : List ℕ)
    → ((i : ℕ) → Among i succs → i < length preds)
    → Filled n preds succs
unfolding fill_succs count_succs
fill_succs-Filled n preds [] below = record {
  after = preds;
  fills = refl;
  counts = refl;
  same_length = refl;
  adds = λ i m. (λ h. inl h, λ h. elim h [ inl k ↦ k | inr q ↦ nothing q.1 ]);
}
  where
    nothing : {A : Type 0} {i : ℕ} → Among i [] → A
    nothing h = elim h [ ]
fill_succs-Filled n preds (succ ∷ succs) below = more n preds succ (below succ here) succs (
    fill_succs-Filled n (put n preds succ (below succ here)) succs
      (λ i h. omega (arith, below i (there h), length-put n preds succ (below succ here))))
