-- ===== src/Engine/Merging/Least.antt =====
-- `PickCurrent` of storage/merging_iterator.cc gives the least of the children's entries.
use flotilladb.Base.{ℕ, suc, ◌+◌, ◌≡◌, sym, ap, subst}
use flotilladb.Base.{◌⊎◌, inl, inr, true, false, Option, none, some, List, [], ◌∷◌}
use flotilladb.Base.{arith, Bool-cases}
use flotilladb.Base.{get_elem?}
use flotilladb.Wal.{Entry}
use flotilladb.Base.Bytes.{less_irrefl, less_trans, less_same, less-false}
use flotilladb.Engine.Merging.{comes_before, better, pick_from, pick_current}

comes_before_trans :
    (a b c : Entry) → comes_before a b ≡ true → comes_before b c ≡ true → comes_before a c ≡ true
unfolding comes_before
comes_before_trans a b c h k =
    grind (arith, less_trans a.key b.key c.key, less_same a.key b.key, less_same b.key c.key)

comes_before-false :
    (a b c : Entry) → comes_before a b ≡ false → comes_before b c ≡ false → comes_before a c ≡ false
unfolding comes_before
comes_before-false a b c h k = grind (
  arith,
  less-false a.key b.key c.key,
  less_trans a.key b.key c.key,
  less_same a.key b.key,
  less_same b.key c.key,
  less_same a.key c.key,
  less_trans c.key b.key a.key,
  less-false c.key b.key a.key,
)

-- No child's entry comes before `b`.
abbrev pub NoneBefore : Entry → List (List Entry) → Type 0
NoneBefore b [] = Unit {0}
NoneBefore b ([] ∷ children) = NoneBefore b children
NoneBefore b ((e ∷ es) ∷ children) = (comes_before e b ≡ false) × NoneBefore b children

abbrev CurrentNotBefore : Entry → Option (ℕ × Entry) → Type 0
CurrentNotBefore b none = Unit {0}
CurrentNotBefore b (some (j, c)) = comes_before c b ≡ false

better-NotBefore :
    (b e : Entry) (i : ℕ) (current : Option (ℕ × Entry))
    → CurrentNotBefore b (better i e current)
    → (comes_before e b ≡ false) × CurrentNotBefore b current
unfolding better
better-NotBefore b e i none h = (h, tt)
better-NotBefore b e i (some (j, c)) h = elim (Bool-cases (comes_before e c)) [
  | inl p ↦ (
    rw p at h,
    elim (Bool-cases (comes_before c b)) [
      | inl q ↦ cc (comes_before_trans e c b p q, rw p at h)
      | inr q ↦ q
    ],
  )
  | inr p ↦ (comes_before-false e c b p (rw p at h), rw p at h)
]

pick_from-NoneBefore :
    (children : List (List Entry)) (i k : ℕ) (current : Option (ℕ × Entry)) (b : Entry)
    → comes_before b b ≡ false
    → pick_from children i current ≡ some (k, b)
    → NoneBefore b children × CurrentNotBefore b current
unfolding pick_from
pick_from-NoneBefore [] i k current b s h = (tt, subst (CurrentNotBefore b) (sym h) s)
pick_from-NoneBefore ([] ∷ children) i k current b s h =
    pick_from-NoneBefore children (i + 1) k current b s h
pick_from-NoneBefore ((e ∷ es) ∷ children) i k current b s h =
    let rest = pick_from-NoneBefore children (i + 1) k (better i e current) b s h in
    let here = better-NotBefore b e i current rest.1 in ((here.0, rest.0), here.1)

comes_before_self : (b : Entry) → comes_before b b ≡ false
unfolding comes_before
comes_before_self b = grind (arith, less_irrefl b.key)

-- Child `k` is valid, and `b` is its entry.
abbrev pub IsEntryOf : List (List Entry) → ℕ → Entry → Type 0
IsEntryOf children k b = (es : List Entry) × (get_elem? children k ≡ some (b ∷ es))

chosen :
    (i k : ℕ) (e b : Entry) (es : List Entry) (children : List (List Entry))
    → ◌≡◌ {A = Option (ℕ × Entry)} (some (i, e)) (some (k, b))
    → (n : ℕ) × (k ≡ i + n) × IsEntryOf ((e ∷ es) ∷ children) n b
chosen i k e b es children h =
    let at : i ≡ k = ap (λ (o : Option (ℕ × Entry)). elim o [ none ↦ i | some p ↦ p.0 ]) h in
    let same : e ≡ b = ap (λ (o : Option (ℕ × Entry)). elim o [ none ↦ e | some p ↦ p.1 ]) h in
    (0, omega arith, (es, ap (λ (c : Entry). some (c ∷ es)) same))

better_chosen :
    (i k : ℕ) (e b : Entry) (es : List Entry) (children : List (List Entry))
    (current : Option (ℕ × Entry))
    → better i e current ≡ some (k, b)
    → (current ≡ some (k, b)) ⊎ ((n : ℕ) × (k ≡ i + n) × IsEntryOf ((e ∷ es) ∷ children) n b)
unfolding better
better_chosen i k e b es children none h = inr (chosen i k e b es children h)
better_chosen i k e b es children (some (j, c)) h = elim (Bool-cases (comes_before e c)) [
  | inl p ↦ inr (chosen i k e b es children (rw p at h))
  | inr p ↦ inl (rw p at h)
]

pick_from-IsEntryOf :
    (children : List (List Entry)) (i k : ℕ) (current : Option (ℕ × Entry)) (b : Entry)
    → pick_from children i current ≡ some (k, b)
    → (current ≡ some (k, b)) ⊎ ((n : ℕ) × (k ≡ i + n) × IsEntryOf children n b)
unfolding pick_from
pick_from-IsEntryOf [] i k current b h = inl h
pick_from-IsEntryOf ([] ∷ children) i k current b h =
    elim (pick_from-IsEntryOf children (i + 1) k current b h) [
      | inl c ↦ inl c
      | inr (n, p, q) ↦ inr (suc n, omega arith, q)
    ]
pick_from-IsEntryOf ((e ∷ es) ∷ children) i k current b h =
    elim (pick_from-IsEntryOf children (i + 1) k (better i e current) b h) [
      | inl c ↦ better_chosen i k e b es children current c
      | inr (n, p, q) ↦ inr (suc n, omega arith, q)
    ]

-- Where `PickCurrent` chooses child `k` with the entry `b`, that child is valid and `b` is its
-- entry, and no child's entry comes before `b` in the internal order.
pub pick_current_least :
    (children : List (List Entry)) (k : ℕ) (b : Entry)
    → pick_current children ≡ some (k, b)
    → IsEntryOf children k b × NoneBefore b children
unfolding pick_current
pick_current_least children k b h = (
  elim (pick_from-IsEntryOf children 0 k none b h) [
    | inl c ↦ cc c
    | inr (n, p, q) ↦ subst (λ (m : ℕ). IsEntryOf children m b) (omega arith) q
  ],
  (pick_from-NoneBefore children 0 k none b (comes_before_self b) h).0,
)
