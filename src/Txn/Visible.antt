-- ===== src/Txn/Visible.antt =====
-- A transaction of txn/txn_ops.cc that prewrites and commits a value: readers see it.
use flotilladb.Base.{ℕ, ◌^◌, ◌≤◌, ◌<◌, ◌≡◌, refl, sym, ap, subst, ◌∙◌}
use flotilladb.Base.{◌≢◌, inl, inr, true, false, none, some, List, [], ◌∷◌}
use flotilladb.Base.{arith, ltb, ◌==◌, Bool-cases}
use flotilladb.Base.{All}
use flotilladb.Status.{done}
use flotilladb.Store.{Contents, find, insert, remove}
use flotilladb.Store.Laws.{
  insert-IsSorted, find-insert_self, find-insert_other, find-remove_self, find-remove_other,
}
use flotilladb.Txn.Codec.{
  LockRecord, WriteRecord, lock_key, data_key, write_key, encode_lock, encode_write,
}
use flotilladb.Txn.Codec.RoundTrip.{LockFits, decode_lock-encode_lock}
use flotilladb.Txn.Ops.{
  found, get_lock, place_lock, txn_get, apply_prewrite, apply_commit, finish_commit,
}
use flotilladb.Txn.History.{Version, versions}
use flotilladb.Txn.History.Update.{insert_version, versions-remove_foreign}
use flotilladb.Txn.Keys.{lock_key-ne-data_key, data_key-ne-write_key, lock_key-IsForeign}
use flotilladb.Txn.Placing.{IsPrewrite}
use flotilladb.Txn.Locks.{get_lock-some, get_lock-none}
use flotilladb.Txn.Prewrite.{apply_prewrite-IsStore, apply_prewrite_cases}
use flotilladb.Txn.Locks.{own_lock}
use flotilladb.Txn.Commit.{commit_record, apply_commit-IsStore, made-IsVersion}
use flotilladb.Txn.Reads.{snapshot, seen_at, seen_version, seen_value, txn_get_seen}
use flotilladb.Txn.Valid.{Older, IsVersion, IsStore}
use flotilladb.Txn.Writes.{put_write_history}

-- A commit that is newer than every other commit is the one that a later snapshot has.
pub snapshot_newest :
    (ts c s : ℕ) (rec : WriteRecord) (h : List Version)
    → rec.kind ≢ 3
    → s ≤ c
    → c ≤ ts
    → All (Older s) h
    → snapshot ts (insert_version (c, rec) h) ≡ some (c, rec)
unfolding snapshot insert_version
snapshot_newest ts c s rec [] k l b o = ground arith
snapshot_newest ts c s rec ((d, r) ∷ h) k l b o = elim (Bool-cases (ltb c d)) [
  | inl p ↦
      let skip : (r.kind == 3) ≡ true = elim (Bool-cases (r.kind == 3)) [
        | inl m ↦ m
        | inr m ↦ absurd (ground (arith, o.0))
      ] in
      rw p (ground (arith, snapshot_newest ts c s rec h k l b o.1))
  | inr p ↦
      rw p
        (elim (Bool-cases (ltb d c)) [ inl q ↦ rw q (ground arith) | inr q ↦ rw q (ground arith) ])
]

-- A commit of a lock that puts is read at every timestamp from the commit on.
commit_read :
    (db db' : Contents) (u value : List ℕ) (s c ts : ℕ) (lock : LockRecord)
    → IsStore db
    → s ≤ c
    → c ≤ ts
    → ts < 2 ^ 64
    → get_lock db u ≡ done (some lock)
    → lock.start_ts ≡ s
    → lock.op ≡ 1
    → find db (data_key u s) ≡ some value
    → apply_commit db u s c ≡ done db'
    → txn_get db' u ts ≡ done (found value)
unfolding apply_commit finish_commit
commit_read db db' u value s c ts lock v late upto bound g own puts has h =
    let (raw, k, n, is) = own_lock db u lock v g in
    let q : (lock.start_ts == s) ≡ true = ground arith in
    let rec = commit_record lock.op s in
    let put = insert db (write_key u c) (encode_write rec) in
    let finished : finish_commit db u s c (some lock) ≡ done db' = rw g at h in
    let same : remove put (lock_key u) ≡ db' = cc (rw (q, finish_commit) at finished) in
    let at : k.lock.start_ts ≡ s = ap (λ (x : LockRecord). x.start_ts) is ∙ own in
    let fit : IsVersion (c, rec) =
      subst (λ r. IsVersion (c, r)) (λ i. commit_record (is i).op (at i))
        (made-IsVersion db u c raw v k (omega (arith, at, late)) (omega (arith, upto, bound))) in
    let sorted = insert-IsSorted db (write_key u c) (encode_write rec) v.sorted in
    let history : versions db' u ≡ insert_version (c, rec) (versions db u) =
      ap (λ x. versions x u) (sym same)
      ∙ versions-remove_foreign put _ u (lock_key-IsForeign u u)
      ∙ put_write_history u c rec fit db v.sorted v.writes in
    let unlocked : get_lock db' u ≡ done none =
      get_lock-none db' u
        (ap (λ x. find x (lock_key u)) (sym same) ∙ find-remove_self put (lock_key u) sorted) in
    let newest : snapshot ts (versions db' u) ≡ some (c, rec) =
      ap (snapshot ts) history
      ∙ snapshot_newest ts c s rec (versions db u) (ground arith) late upto
          (subst (λ t. All (Older t) (versions db u)) at k.older) in
    let kept : find db' (data_key u s) ≡ some value =
      ap (λ x. find x (data_key u s)) (sym same)
      ∙ find-remove_other put _ _ sorted (lock_key-ne-data_key u u s)
      ∙ find-insert_other db _ _ _ (λ e. data_key-ne-write_key u u s c (sym e))
      ∙ has in
    let after = apply_commit-IsStore db db' u s c v late (omega (arith, upto, bound)) h in
    let (l, gl, e) = txn_get_seen db' u after ts bound in
    let clear : l ≡ none = cc (gl, unlocked) in
    let plain : (rec.kind == 2) ≡ false = ground arith in
    e
    ∙ ap done (
        rw (clear, newest)
          (unfold seen_at seen_version in (rw (plain, kept) (unfold seen_value in refl))))

-- On a key with no lock, a value that is prewritten and then committed is what every read from the
-- commit's timestamp on finds.
pub commit_visible :
    (a b c : Contents) (key value : List ℕ) (start_ts commit_ts ts : ℕ) (primary : List ℕ)
    (wall_ms : ℕ)
    → IsStore a
    → IsPrewrite 1 start_ts primary wall_ms
    → find a (lock_key key) ≡ none
    → start_ts ≤ commit_ts
    → commit_ts ≤ ts
    → ts < 2 ^ 64
    → apply_prewrite a key value 1 start_ts primary wall_ms ≡ done b
    → apply_commit b key start_ts commit_ts ≡ done c
    → txn_get c key ts ≡ done (found value)
commit_visible a b c key value start_ts commit_ts ts primary wall_ms v i clear late upto bound h k =
    elim (apply_prewrite_cases a b key value 1 start_ts primary wall_ms v h) [
      | inl e ↦ absurd (e.1 clear)
      | inr (n, e) ↦
          let same : placed ≡ b = unfold place_lock in (cc e) in
          let locked : find b (lock_key key) ≡ some (encode_lock lock) =
            ap (λ x. find x (lock_key key)) (sym same)
            ∙ find-insert_other first _ _ _ (λ d. lock_key-ne-data_key key key start_ts (sym d))
            ∙ find-insert_self a (lock_key key) (encode_lock lock) in
          let stored : find b (data_key key start_ts) ≡ some value =
            ap (λ x. find x (data_key key start_ts)) (sym same) ∙ find-insert_self first _ value in
          let after = apply_prewrite-IsStore a b key value 1 start_ts primary wall_ms v i h in
          let read = get_lock-some b key _ locked ((after.keys key).locks _ locked) in
          let is : ((after.keys key).locks _ locked).lock ≡ lock =
            cc (((after.keys key).locks _ locked).decoded, decode_lock-encode_lock lock fits) in
          commit_read b c key value start_ts commit_ts ts lock after late upto bound
            (read ∙ ap (λ l. done (some l)) is) refl refl stored k
    ]
  where
    lock : LockRecord
    lock = record { start_ts = start_ts; op = 1; wall_ms = wall_ms; primary = primary }

    first : Contents
    first = insert a (lock_key key) (encode_lock lock)

    placed : Contents
    placed = insert first (data_key key start_ts) value

    fits : LockFits lock
    fits = record { start_ts = i.bound; op = omega arith; wall_ms = i.wall_ms; primary = i.primary }
