-- ===== src/Txn/Reads.antt =====
-- `TxnGet` of txn/txn_ops.cc reads the newest commit of its snapshot.
use flotilladb.Base.{ℕ, ◌^◌, ◌≤◌, ◌<◌, ◌≡◌, refl, subst}
use flotilladb.Base.{◌≢◌, inl, inr, true, false, not, ◌&&◌, Option, none, some, List, [], ◌∷◌}
use flotilladb.Base.{arith, leb, ◌==◌, if◌then◌else◌, Bool-cases, Option-cases}
use flotilladb.Base.{All}
use flotilladb.Status.{done}
use flotilladb.Store.{Contents, find}
use flotilladb.Txn.Codec.{LockRecord, lock_key, data_key}
use flotilladb.Txn.Ops.{
  ReadResult, locked, found, missing, Chosen, choose_write, value_in, read_chosen, read_version,
  read_unless, get_lock, txn_get,
}
use flotilladb.Txn.History.{Version, versions}
use flotilladb.Txn.History.Walk.{fold_until, at_or_below}
use flotilladb.Txn.History.Search.{search_history}
use flotilladb.Txn.Locks.{get_lock-some, get_lock-none}
use flotilladb.Txn.Valid.{Valued, IsVersion, IsStore}

-- The newest version at or below `ts` that is no rollback marker
unfoldable pub snapshot : ℕ → List Version → Option Version
snapshot ts [] = none
snapshot ts ((c, r) ∷ h) =
    let rest = snapshot ts h in if leb c ts && not (r.kind == 3) then some (c, r) else rest

-- What a reader is to see of a version, of a lock, and of both
unfoldable pub seen_value : Option (List ℕ) → ReadResult
seen_value none = missing
seen_value (some v) = found v

unfoldable pub seen_version : (ℕ → Option (List ℕ)) → Option Version → ReadResult
seen_version value none = missing
seen_version value (some (c, r)) = if r.kind == 2 then missing else seen_value (value r.start_ts)

unfoldable pub seen_at : ℕ → Option LockRecord → (ℕ → Option (List ℕ)) → Option Version → ReadResult
seen_at ts none value x = seen_version value x
seen_at ts (some lock) value x = if leb lock.start_ts ts then locked lock else seen_version value x

-- What the search of `TxnGet` leaves in its variables
unfoldable pub chosen_of : Option Version → Chosen
chosen_of none = (0, false)
chosen_of (some (c, r)) = if r.kind == 2 then (0, true) else (r.start_ts, false)

pub choose_write_lem :
    (ts : ℕ) (h : List Version)
    → fold_until choose_write (0, false) (at_or_below ts h) ≡ chosen_of (snapshot ts h)
unfolding fold_until choose_write at_or_below snapshot chosen_of
choose_write_lem ts [] = refl
choose_write_lem ts ((c, r) ∷ h) = ground (arith, choose_write_lem ts h)

pub snapshot-All :
    (P : Version → Type 0) (ts : ℕ) (h : List Version) (x : Version)
    → All P h
    → snapshot ts h ≡ some x
    → P x × (x.0 ≤ ts) × (x.1.kind ≢ 3)
unfolding snapshot
snapshot-All P ts [] x a e = cc
snapshot-All P ts ((c, r) ∷ h) x a e = elim (Bool-cases (leb c ts && not (r.kind == 3))) [
  | inl p ↦
      let same : ◌≡◌ {A = Version} (c, r) x = cc (rw p at e) in
      subst (λ y. P y × (y.0 ≤ ts) × (y.1.kind ≢ 3)) same (a.0, (ground arith), (ground arith))
  | inr p ↦ snapshot-All P ts h x a.1 (rw p at e)
]

module _ (db : Contents) (u : List ℕ) (v : IsStore db) where
  read_chosen_lem :
      (ts : ℕ) (x : Option Version)
      → snapshot ts (versions db u) ≡ x
      → read_chosen db u (chosen_of x) ≡ done (seen_version (λ t. find db (data_key u t)) x)
  unfolding read_chosen chosen_of seen_version
  read_chosen_lem ts none e = refl
  read_chosen_lem ts (some (c, r)) e = elim (Bool-cases (r.kind == 2)) [
    | inl k ↦ rw k refl
    | inr k ↦
        let fit = snapshot-All IsVersion ts (versions db u) (c, r) (v.keys u).fit e in
        let all =
          snapshot-All (Valued (λ t. find db (data_key u t))) ts (versions db u) (c, r)
            (v.keys u).valued e in
        let puts : r.kind ≡ 1 = ground (arith, fit.2, fit.0.kind, fit.0.kind_max) in
        let has = all.0 puts in
        let started : (r.start_ts == 0) ≡ false = ground (arith, fit.0.positive) in
        rw (k, started, has.1) (unfold value_in seen_value in refl)
  ]

  read_version_lem :
      (ts : ℕ)
      → ts < 2 ^ 64
      → read_version db u ts
        ≡ done (seen_version (λ t. find db (data_key u t)) (snapshot ts (versions db u)))
  unfolding read_version
  read_version_lem ts b =
      rw
        (
          search_history db u ts choose_write (0, false) b v.sorted v.writes,
          choose_write_lem ts (versions db u),
        )
        (read_chosen_lem ts (snapshot ts (versions db u)) refl)

  -- In a well-formed store a read never fails. It reports the lock of a transaction that started
  -- at or before its timestamp; else it sees the value of the newest commit up to its timestamp,
  -- and nothing if there is none or that commit deletes.
  pub txn_get_seen :
      (ts : ℕ)
      → ts < 2 ^ 64
      → (lock : Option LockRecord) × (get_lock db u ≡ done lock)
        × (txn_get db u ts
            ≡ done (seen_at ts lock (λ t. find db (data_key u t)) (snapshot ts (versions db u))))
  unfolding txn_get
  txn_get_seen ts b = elim (Option-cases (find db (lock_key u))) [
    | inl n ↦
        let g = get_lock-none db u n in
        (none, g, rw g (unfold read_unless seen_at in read_version_lem ts b))
    | inr (raw, n) ↦
        let k = (v.keys u).locks raw n in
        let g = get_lock-some db u raw n k in (some k.lock, g, rw g (step k.lock))
  ]
    where
      step :
          (l : LockRecord)
          → read_unless db u ts (some l)
            ≡ done (seen_at ts (some l) (λ t. find db (data_key u t)) (snapshot ts (versions db u)))
      step l = elim (Bool-cases (leb l.start_ts ts)) [
        | inl e ↦ unfold read_unless seen_at in rw e refl
        | inr e ↦ unfold read_unless seen_at in (rw e (read_version_lem ts b))
      ]
