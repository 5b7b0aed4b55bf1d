-- ===== src/Txn/Slots.antt =====
-- The slots of write records in txn/txn_ops.cc: what a transaction wrote in the slot of a timestamp
-- stays there as long as no other transaction writes in that slot.
use flotilladb.Base.{ℕ, ◌≡◌, refl, sym, ap, subst, ◌∙◌}
use flotilladb.Base.{◌≢◌, ◌⊎◌, inl, inr, Option, none, some, List, [], ◌∷◌}
use flotilladb.Base.{arith, ltb, ◌==◌, Bool-cases}
use flotilladb.Status.{done}
use flotilladb.Store.{Contents, find, insert, remove}
use flotilladb.Store.Laws.{
  IsSorted, remove-IsSorted, find-insert_other, find-remove_self, find-remove_other,
}
use flotilladb.Txn.Codec.{LockRecord, WriteRecord, lock_key, data_key, write_key, encode_write}
use flotilladb.Txn.Ops.{lock_in, get_lock, unlock}
use flotilladb.Txn.History.{Version, versions, HasWrites}
use flotilladb.Txn.History.Update.{insert_version, versions-remove_foreign}
use flotilladb.Txn.Keys.{
  lock_key-ne-data_key, lock_key-ne-write_key, lock_key-injective, lock_key-IsForeign,
  data_key-IsForeign,
}
use flotilladb.Txn.Locks.{keys_cases, get_lock-none}
use flotilladb.Txn.Run.{Step, Run, prewrite, commit, rollback, here, next}
use flotilladb.Txn.Valid.{IsVersion}
use flotilladb.Txn.Writes.{put_write_history, put_write-Same}

-- The history has a record in the slot `t` of which `Q` holds.
abbrev pub Kept : (WriteRecord → Type 0) → ℕ → List Version → Type 0
Kept Q t [] = ⊥
Kept Q t (v ∷ h) = ((v.0 ≡ t) × Q v.1) ⊎ Kept Q t h

-- A write in another slot leaves it,
pub Kept-other :
    (Q : WriteRecord → Type 0) (t c : ℕ) (rec : WriteRecord) (h : List Version)
    → c ≢ t
    → Kept Q t h
    → Kept Q t (insert_version (c, rec) h)
unfolding insert_version
Kept-other Q t c rec [] n k = inr k
Kept-other Q t c rec ((d, r) ∷ h) n k = elim (Bool-cases (ltb c d)) [
  | inl p ↦ rw p (elim k [ inl x ↦ inl x | inr x ↦ inr (Kept-other Q t c rec h n x) ])
  | inr p ↦ rw p (elim (Bool-cases (ltb d c)) [
    | inl q ↦ rw q (inr k)
    | inr q ↦ rw q (elim k [
      | inl x ↦ absurd (n (let same : c ≡ d = ground arith in same ∙ x.0))
      | inr x ↦ inr x
    ])
  ])
]

-- and one in its own slot replaces it.
pub Kept-own :
    (Q : WriteRecord → Type 0) (t : ℕ) (rec : WriteRecord) (h : List Version)
    → Q rec
    → Kept Q t (insert_version (t, rec) h)
unfolding insert_version
Kept-own Q t rec [] q = inl (refl, q)
Kept-own Q t rec ((d, r) ∷ h) q = elim (Bool-cases (ltb t d)) [
  | inl p ↦ rw p (inr (Kept-own Q t rec h q))
  | inr p ↦
      rw p (elim (Bool-cases (ltb d t)) [
        | inl e ↦ rw e (inl (refl, q))
        | inr e ↦ rw e (inl (refl, q))
      ])
]

-- Whoever writes in the slot `t` is the transaction that started at `s`: timestamps are unique.
abbrev pub Owned : (t s : ℕ) → {low : ℕ} {a b : Contents} → Step low a b → Type 0
Owned t s (prewrite _ _ _ _ _ _ _ _ _ _ _) = Unit {0}
Owned t s (commit _ _ _ start_ts commit_ts _ _ _ _) = commit_ts ≡ t → start_ts ≡ s
Owned t s (rollback _ _ _ start_ts _ _ _) = start_ts ≡ t → start_ts ≡ s

abbrev pub OwnedRun : (t s : ℕ) → {low : ℕ} {a b : Contents} → Run low a b → Type 0
OwnedRun t s here = Unit {0}
OwnedRun t s (next r step) = OwnedRun t s r × Owned t s step

pub get_lock_same :
    (a b : Contents) (u : List ℕ)
    → find a (lock_key u) ≡ find b (lock_key u)
    → get_lock a u ≡ get_lock b u
unfolding get_lock
get_lock_same a b u e = ap lock_in e

pub unlock_history :
    (db : Contents) (u : List ℕ) (s : ℕ) (l : Option LockRecord)
    → versions (unlock db u s l) u ≡ versions db u
unfolding unlock
unlock_history db u s none = refl
unlock_history db u s (some l) = elim (Bool-cases (l.start_ts == s)) [
  | inl e ↦ rw e (
      versions-remove_foreign _ _ u (data_key-IsForeign u u s)
      ∙ versions-remove_foreign db _ u (lock_key-IsForeign u u))
  | inr e ↦ rw e refl
]

-- The history keeps what `K` says of it, and no lock of the transaction that started at `s` is left.
pub record Over (K : List Version → Type 0) (s : ℕ) (u : List ℕ) (db : Contents) : Type 0 where
  pub kept : K (versions db u)
  pub unlocked : (l : LockRecord) → get_lock db u ≡ done (some l) → l.start_ts ≢ s

module _ (K : List Version → Type 0) (s : ℕ) (u : List ℕ) where
  pub Over-same :
      (a b : Contents)
      → versions b u ≡ versions a u
      → find b (lock_key u) ≡ find a (lock_key u)
      → Over K s u a
      → Over K s u b
  Over-same a b h l o = record {
    kept = subst K (sym h) o.kept;
    unlocked = λ k g. o.unlocked k (get_lock_same a b u (sym l) ∙ g);
  }

  pub drop_lock-Over :
      (db : Contents) (k : List ℕ)
      → IsSorted db
      → Over K s u db
      → Over K s u (remove db (lock_key k))
  drop_lock-Over db k sorted o =
      let same = versions-remove_foreign db (lock_key k) u (lock_key-IsForeign k u) in
      elim (keys_cases k u) [
        | inl e ↦
            let gone : find (remove db (lock_key k)) (lock_key u) ≡ none =
              ap (λ w. find (remove db (lock_key k)) (lock_key w)) (sym e)
              ∙ find-remove_self db (lock_key k) sorted in
            record {
              kept = subst K (sym same) o.kept;
              unlocked = λ l g. cc (g, get_lock-none _ u gone);
            }
        | inr n ↦
            Over-same db _ same
              (find-remove_other db _ _ sorted (λ e. n (lock_key-injective k u e))) o
      ]

  pub unlock-Over :
      (db : Contents) (k : List ℕ) (start_ts : ℕ) (l : Option LockRecord)
      → IsSorted db
      → Over K s u db
      → Over K s u (unlock db k start_ts l)
  unfolding unlock
  unlock-Over db k start_ts none sorted o = o
  unlock-Over db k start_ts (some l) sorted o = elim (Bool-cases (l.start_ts == start_ts)) [
    | inl e ↦
        let first = remove db (lock_key k) in
        rw e (
          Over-same first (remove first (data_key k start_ts))
            (versions-remove_foreign first _ u (data_key-IsForeign k u start_ts))
            (find-remove_other first _ _ (remove-IsSorted db _ sorted)
              (λ d. lock_key-ne-data_key u k start_ts (sym d)))
            (drop_lock-Over db k sorted o))
    | inr e ↦ rw e o
  ]

  pub put_write-Over :
      (db : Contents) (k : List ℕ) (c : ℕ) (rec : WriteRecord)
      → IsSorted db
      → HasWrites db
      → IsVersion (c, rec)
      → (k ≡ u → K (insert_version (c, rec) (versions db u)))
      → Over K s u db
      → Over K s u (insert db (write_key k c) (encode_write rec))
  put_write-Over db k c rec sorted w fit at o =
      let locks =
        find-insert_other db (write_key k c) (encode_write rec) (lock_key u)
          (λ e. lock_key-ne-write_key u k c (sym e)) in
      elim (keys_cases k u) [
        | inl e ↦
            let history : versions (insert db (write_key k c) (encode_write rec)) u
                ≡ insert_version (c, rec) (versions db u) =
              subst
                (λ x.
                  versions (insert db (write_key x c) (encode_write rec)) u
                  ≡ insert_version (c, rec) (versions db u))
                (sym e) (put_write_history u c rec fit db sorted w) in
            record {
              kept = subst K (sym history) (at e);
              unlocked = λ l g. o.unlocked l (get_lock_same db _ u (sym locks) ∙ g);
            }
        | inr n ↦ Over-same db _ (put_write-Same k c rec fit db u n).history locks o
      ]
