-- ===== src/Txn/Valid.antt =====
-- The states of one user key in the store under txn/txn_ops.cc: which histories, locks and values
-- are well formed together.
use flotilladb.Base.{ℕ, ◌^◌, ◌≤◌, ◌<◌, ◌≡◌}
use flotilladb.Base.{◌≢◌, ◌⊎◌, inl, inr, Option, some, List, [], ◌∷◌}
use flotilladb.Base.{arith, ltb, ltb→lt, Bool-cases}
use flotilladb.Base.{All}
use flotilladb.Store.{Contents, find}
use flotilladb.Store.Laws.{IsSorted}
use flotilladb.Txn.Codec.{LockRecord, lock_key, data_key, decode_lock}
use flotilladb.Txn.History.{Version, versions, HasWrites}
use flotilladb.Txn.History.Update.{insert_version}

-- A record that is no rollback marker ended before `ts`.
abbrev pub Older : ℕ → Version → Type 0
Older ts v = v.1.kind ≢ 3 → v.0 < ts

-- Of two committed versions the older one was committed before the newer one started.
abbrev pub Disjoint : List Version → Type 0
Disjoint [] = Unit {0}
Disjoint (v ∷ h) = (v.1.kind ≢ 3 → All (Older v.1.start_ts) h) × Disjoint h

-- A write record that txn/txn_ops.cc makes: it puts, deletes or rolls back, and a rollback marker
-- stands at the start of its transaction.
pub record IsVersion (v : Version) : Type 0 where
  pub kind : 1 ≤ v.1.kind
  pub kind_max : v.1.kind ≤ 3
  pub positive : 1 ≤ v.1.start_ts
  pub started : v.1.start_ts ≤ v.0
  pub marker : v.1.kind ≡ 3 → v.0 ≡ v.1.start_ts
  pub bound : v.0 < 2 ^ 64

abbrev pub HasValue : (ℕ → Option (List ℕ)) → ℕ → Type 0
HasValue value ts = (v : List ℕ) × (value ts ≡ some v)

-- A version that puts has its value.
abbrev pub Valued : (ℕ → Option (List ℕ)) → Version → Type 0
Valued value v = v.1.kind ≡ 1 → HasValue value v.1.start_ts

-- A lock that puts or deletes: its value is there, and every commit is older than its transaction.
pub record Locked (h : List Version) (value : ℕ → Option (List ℕ)) (raw : List ℕ) : Type 0 where
  pub lock : LockRecord
  pub decoded : decode_lock raw ≡ some lock
  pub positive : 1 ≤ lock.start_ts
  pub bound : lock.start_ts < 2 ^ 64
  pub op : (lock.op ≡ 1) ⊎ (lock.op ≡ 2)
  pub valued : lock.op ≡ 1 → HasValue value lock.start_ts
  pub older : All (Older lock.start_ts) h

pub record IsKeyState (h : List Version) (raw_lock : Option (List ℕ)) (value : ℕ → Option (List ℕ))
    : Type 0 where
  pub fit : All IsVersion h
  pub disjoint : Disjoint h
  pub valued : All (Valued value) h
  pub locks : (raw : List ℕ) → raw_lock ≡ some raw → Locked h value raw

-- The state of a user key in the contents of a store
abbrev pub IsKey : Contents → List ℕ → Type 0
IsKey db u = IsKeyState (versions db u) (find db (lock_key u)) (λ ts. find db (data_key u ts))

pub record IsStore (db : Contents) : Type 0 where
  pub sorted : IsSorted db
  pub writes : HasWrites db
  pub keys : (u : List ℕ) → IsKey db u

pub All-insert_version :
    (P : Version → Type 0) (x : Version) (h : List Version)
    → P x
    → All P h
    → All P (insert_version x h)
unfolding insert_version
All-insert_version P (ts, rec) [] p ps = (p, tt)
All-insert_version P (ts, rec) ((c, r) ∷ h) p ps =
    ground (arith, All-insert_version P (ts, rec) h p ps.1)

pub All_map :
    (P Q : Version → Type 0) (h : List Version) → ((v : Version) → P v → Q v) → All P h → All Q h
All_map P Q [] f ps = tt
All_map P Q (v ∷ h) f ps = (f v ps.0, All_map P Q h f ps.1)

-- A commit takes its place in front of every other commit.
pub Disjoint-insert_version :
    (x : Version) (h : List Version)
    → x.1.start_ts ≤ x.0
    → All (Older x.1.start_ts) h
    → Disjoint h
    → Disjoint (insert_version x h)
unfolding insert_version
Disjoint-insert_version (ts, rec) [] b o d = (λ n. tt, tt)
Disjoint-insert_version (ts, rec) ((c, r) ∷ h) b o d = elim (Bool-cases (ltb ts c)) [
  | inl p ↦ rw p (
    (λ n. absurd (omega (arith, o.0 n, ltb→lt ts c p))),
    Disjoint-insert_version (ts, rec) h b o.1 d.1,
  )
  | inr p ↦
      rw p
        (elim (Bool-cases (ltb c ts)) [ inl q ↦ rw q (λ n. o, d) | inr q ↦ rw q (λ n. o.1, d.1) ])
]

-- A rollback marker is no commit, and disturbs none.
pub Disjoint-insert_marker :
    (x : Version) (h : List Version) → x.1.kind ≡ 3 → Disjoint h → Disjoint (insert_version x h)
unfolding insert_version
Disjoint-insert_marker (ts, rec) [] m d = (λ n. tt, tt)
Disjoint-insert_marker (ts, rec) ((c, r) ∷ h) m d = elim (Bool-cases (ltb ts c)) [
  | inl p ↦ rw p (
    (λ n. All-insert_version (Older r.start_ts) (ts, rec) h (λ k. absurd (k m)) (d.0 n)),
    Disjoint-insert_marker (ts, rec) h m d.1,
  )
  | inr p ↦ rw p (elim (Bool-cases (ltb c ts)) [
    | inl q ↦ rw q ((λ n. absurd (n m)), d)
    | inr q ↦ rw q ((λ n. absurd (n m)), d.1)
  ])
]
