-- ===== src/Store/Laws.antt =====
-- The laws of the contents of a store: an ordered map.
use flotilladb.Base.{ℕ, ◌≡◌, refl, subst}
use flotilladb.Base.{◌≢◌, inl, inr, true, none, some, List, [], ◌∷◌}
use flotilladb.Base.{arith, Bool-cases}
use flotilladb.Base.Bytes.{less, less_irrefl, less_trans, less_same, less_asym}
use flotilladb.Store.{Contents, find, insert, remove}

-- Every key is above `key`.
abbrev pub Above : List ℕ → Contents → Type 0
Above key [] = Unit {0}
Above key ((k, v) ∷ c) = (less key k ≡ true) × Above key c

-- The keys ascend, and none stands twice.
abbrev pub IsSorted : Contents → Type 0
IsSorted [] = Unit {0}
IsSorted ((k, v) ∷ c) = Above k c × IsSorted c

pub Above-trans : (j k : List ℕ) (c : Contents) → less j k ≡ true → Above k c → Above j c
Above-trans j k [] h a = tt
Above-trans j k ((i, v) ∷ c) h a = (less_trans j k i h a.0, Above-trans j k c h a.1)

Above-insert :
    (j k v : List ℕ) (c : Contents) → less j k ≡ true → Above j c → Above j (insert c k v)
unfolding insert
Above-insert j k v [] h a = (h, tt)
Above-insert j k v ((i, w) ∷ c) h a = ground (arith, Above-insert j k v c h a.1)

Above-remove : (j k : List ℕ) (c : Contents) → Above j c → Above j (remove c k)
unfolding remove
Above-remove j k [] a = tt
Above-remove j k ((i, w) ∷ c) a = ground (arith, Above-remove j k c a.1)

pub insert-IsSorted : (c : Contents) (k v : List ℕ) → IsSorted c → IsSorted (insert c k v)
unfolding insert
insert-IsSorted [] k v s = (tt, tt)
insert-IsSorted ((i, w) ∷ c) k v s = elim (Bool-cases (less i k)) [
  | inl p ↦ rw p (Above-insert i k v c p s.0, insert-IsSorted c k v s.1)
  | inr p ↦ rw p (elim (Bool-cases (less k i)) [
    | inl q ↦ rw q ((q, Above-trans k i c q s.0), s)
    | inr q ↦ rw q (subst (λ j. Above j c) (less_same i k p q) s.0, s.1)
  ])
]

pub remove-IsSorted : (c : Contents) (k : List ℕ) → IsSorted c → IsSorted (remove c k)
unfolding remove
remove-IsSorted [] k s = tt
remove-IsSorted ((i, w) ∷ c) k s = elim (Bool-cases (less i k)) [
  | inl p ↦ rw p (Above-remove i k c s.0, remove-IsSorted c k s.1)
  | inr p ↦ rw p (elim (Bool-cases (less k i)) [ inl q ↦ rw q s | inr q ↦ rw q s.1 ])
]

pub find-Above : (c : Contents) (k : List ℕ) → Above k c → find c k ≡ none
unfolding find
find-Above [] k a = refl
find-Above ((i, w) ∷ c) k a = ground (arith, less_asym k i)

pub find-insert_self : (c : Contents) (k v : List ℕ) → find (insert c k v) k ≡ some v
unfolding find insert
find-insert_self [] k v = ground (arith, less_irrefl k)
find-insert_self ((i, w) ∷ c) k v = ground (arith, less_irrefl k, find-insert_self c k v)

pub find-insert_other : (c : Contents) (k v q : List ℕ) → k ≢ q → find (insert c k v) q ≡ find c q
unfolding find insert
find-insert_other [] k v q h = ground (arith, less_same k q)
find-insert_other ((i, w) ∷ c) k v q h = ground (
  arith,
  find-insert_other c k v q h,
  less_same k q,
  less_same i k,
  less_trans q k i,
  less_asym q i,
  less_asym i q,
)

pub find-remove_self : (c : Contents) (k : List ℕ) → IsSorted c → find (remove c k) k ≡ none
unfolding find remove
find-remove_self [] k s = refl
find-remove_self ((i, w) ∷ c) k s =
    ground (arith, find-remove_self c k s.1, less_same i k, find-Above c i s.0)

pub find-remove_other :
    (c : Contents) (k q : List ℕ) → IsSorted c → k ≢ q → find (remove c k) q ≡ find c q
unfolding find remove
find-remove_other [] k q s h = refl
find-remove_other ((i, w) ∷ c) k q s h = elim (Bool-cases (less i k)) [
  | inl p ↦ ground (arith, find-remove_other c k q s.1 h)
  | inr p ↦ elim (Bool-cases (less k i)) [
    | inl r ↦ rw (p, r) refl
    | inr r ↦
        rw (p, r)
          (let same = less_same i k p r in
            elim (Bool-cases (less q i)) [
              | inl b ↦ ground (arith, less_asym q i b, find-Above c q (Above-trans q i c b s.0))
              | inr b ↦ ground (arith, less_same i q)
            ])
  ]
]
