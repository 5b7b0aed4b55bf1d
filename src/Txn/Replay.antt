-- ===== src/Txn/Replay.antt =====
-- A prewrite of txn/txn_ops.cc that a crash cut off between its two writes, and that
-- server/raft_group.cc applies again.
use flotilladb.Base.{ℕ, ◌^◌, ◌≤◌, ◌<◌, ◌≡◌, refl, sym, ap, ◌∙◌}
use flotilladb.Base.{inl, inr, true, false, none, some, List}
use flotilladb.Base.{arith, leb, ◌==◌}
use flotilladb.Base.{All}
use flotilladb.Base.Texts.{codes}
use flotilladb.Status.{done, failed, failure, corruption}
use flotilladb.Store.{Contents, find, insert, remove}
use flotilladb.Store.Laws.{
  IsSorted, insert-IsSorted, remove-IsSorted, find-insert_self, find-insert_other, find-remove_self,
  find-remove_other,
}
use flotilladb.Txn.Codec.{
  LockRecord, WriteRecord, lock_key, data_key, write_key, encode_lock, encode_write,
}
use flotilladb.Txn.Codec.RoundTrip.{decode_lock-encode_lock}
use flotilladb.Txn.Ops.{
  for_each_write_at_or_below, Seen, see_write, choose_write, max_ts, lock_in, get_lock, place_lock,
  prewrite_after, apply_prewrite, apply_commit, finish_commit, value_in, read_chosen, read_version,
  read_unless, txn_get,
}
use flotilladb.Txn.History.{versions, HasWrites}
use flotilladb.Txn.History.Walk.{fold_until, at_or_below}
use flotilladb.Txn.History.Search.{search_history}
use flotilladb.Txn.History.Update.{
  insert_version, versions-insert_foreign, versions-remove_foreign, HasWrites-remove,
}
use flotilladb.Txn.Keys.{lock_key-ne-data_key, data_key-ne-write_key, lock_key-IsForeign}
use flotilladb.Txn.Locks.{get_lock-none}
use flotilladb.Txn.Placing.{IsPrewrite}
use flotilladb.Txn.Prewrite.{prewrite_passes, apply_prewrite-Free, apply_prewrite_cases}
use flotilladb.Txn.Commit.{commit_record}
use flotilladb.Txn.Reads.{snapshot, chosen_of, choose_write_lem}
use flotilladb.Txn.Searches.{Free, at_or_below-max}
use flotilladb.Txn.Valid.{Older, IsVersion, IsStore, All_map}
use flotilladb.Txn.Visible.{snapshot_newest}
use flotilladb.Txn.Writes.{no_write, lock_purpose, put_write_history, put_write-HasWrites}

-- The store behind the first write of a prewrite
abbrev pub interrupted : Contents → List ℕ → LockRecord → Contents
interrupted a key lock = insert a (lock_key key) (encode_lock lock)

-- and behind the commit that follows
abbrev pub committed_after : Contents → List ℕ → LockRecord → ℕ → Contents
committed_after a key lock commit_ts =
    remove
      (insert (interrupted a key lock) (write_key key commit_ts)
        (encode_write (commit_record lock.op lock.start_ts)))
      (lock_key key)

module _ (a : Contents) (key : List ℕ) (lock : LockRecord) (v : IsStore a)
    (i : IsPrewrite lock.op lock.start_ts lock.primary lock.wall_ms) where
  abbrev half : Contents
  half = interrupted a key lock

  half-IsSorted : IsSorted half
  half-IsSorted = insert-IsSorted a _ _ v.sorted

  half_writes : HasWrites half
  half_writes = no_write a _ _ (lock_purpose key) v.writes

  half_history : versions half key ≡ versions a key
  half_history = versions-insert_foreign a _ _ key (lock_key-IsForeign key key)

  half_lock : get_lock half key ≡ done (some lock)
  unfolding get_lock lock_in
  half_lock =
      let read = decode_lock-encode_lock lock (record {
        start_ts = i.bound;
        op = elim i.op [ inl e ↦ omega (arith, e) | inr e ↦ omega (arith, e) ];
        wall_ms = i.wall_ms;
        primary = i.primary;
      }) in
      rw (find-insert_self a (lock_key key) (encode_lock lock), lock_in, read) refl

  -- The prewrite that is applied again sees its own lock, and writes nothing.
  replayed :
      (value : List ℕ) (full : Contents)
      → apply_prewrite a key value lock.op lock.start_ts lock.primary lock.wall_ms ≡ done full
      → apply_prewrite half key value lock.op lock.start_ts lock.primary lock.wall_ms ≡ done half
  unfolding apply_prewrite prewrite_after place_lock
  replayed value full h =
      let seen = fold_until (see_write lock.start_ts) (0, false) (versions a key) in
      let facts =
        prewrite_passes a full key value lock.op lock.start_ts lock.primary lock.wall_ms v h in
      let search : for_each_write_at_or_below half key max_ts (see_write lock.start_ts) (0, false)
          ≡ done seen =
        search_history half key max_ts (see_write lock.start_ts) (0, false) (omega arith)
          half-IsSorted half_writes
        ∙ ap (λ x. done (fold_until (see_write lock.start_ts) (0, false) (at_or_below max_ts x)))
            half_history
        ∙ ap (λ x. done (fold_until (see_write lock.start_ts) (0, false) x))
            (at_or_below-max (versions a key) (v.keys key).fit) in
      rw search (go seen facts.0 facts.1)
    where
      go :
          (s : Seen)
          → s.1 ≡ false
          → s.0 < lock.start_ts
          → prewrite_after half key value lock.op lock.start_ts lock.primary lock.wall_ms s
            ≡ done half
      go (n, b) e l =
          let low : leb lock.start_ts n ≡ false = ground (arith, l) in
          let own : (lock.start_ts == lock.start_ts) ≡ true = ground arith in
          rw (e, prewrite_after, low, half_lock, place_lock, own) refl

  module _ (puts : lock.op ≡ 1) (c ts : ℕ) (late : lock.start_ts ≤ c) (upto : c ≤ ts)
      (bound : ts < 2 ^ 64) where
    abbrev rec : WriteRecord
    rec = commit_record lock.op lock.start_ts

    abbrev put : Contents
    put = insert half (write_key key c) (encode_write rec)

    rec-IsVersion : IsVersion (c, rec)
    rec-IsVersion = record {
      kind = ground arith;
      kind_max = ground arith;
      positive = i.positive;
      started = late;
      marker = λ m. absurd (ground arith);
      bound = omega (arith, upto, bound);
    }

    put-IsSorted : IsSorted put
    put-IsSorted = insert-IsSorted half (write_key key c) (encode_write rec) half-IsSorted

    -- The commit of the lock that has no value
    commit_half : apply_commit half key lock.start_ts c ≡ done (committed_after a key lock c)
    unfolding apply_commit finish_commit
    commit_half =
        let own : (lock.start_ts == lock.start_ts) ≡ true = ground arith in
        rw (half_lock, finish_commit, own) refl

    after-IsSorted : IsSorted (committed_after a key lock c)
    after-IsSorted = remove-IsSorted put (lock_key key) put-IsSorted

    after_writes : HasWrites (committed_after a key lock c)
    after_writes =
        HasWrites-remove put (lock_key key)
          (put_write-HasWrites key c rec rec-IsVersion half half_writes)

    after_history :
        versions (committed_after a key lock c) key ≡ insert_version (c, rec) (versions a key)
    after_history =
        versions-remove_foreign put _ key (lock_key-IsForeign key key)
        ∙ put_write_history key c rec rec-IsVersion half half-IsSorted half_writes
        ∙ ap (insert_version (c, rec)) half_history

    -- A read from the commit on does not find the value's record.
    read_half :
        All (Free lock.start_ts) (versions a key)
        → find a (data_key key lock.start_ts) ≡ none
        → txn_get (committed_after a key lock c) key ts
          ≡ failed (failure corruption (codes "missing data record"))
    unfolding txn_get read_unless read_version read_chosen value_in chosen_of
    read_half free empty =
        let db = committed_after a key lock c in
        let unlocked : get_lock db key ≡ done none =
          get_lock-none db key (find-remove_self put (lock_key key) put-IsSorted) in
        let newest : snapshot ts (versions db key) ≡ some (c, rec) =
          ap (snapshot ts) after_history
          ∙ snapshot_newest ts c lock.start_ts rec (versions a key) (ground arith) late upto (
              All_map (Free lock.start_ts) (Older lock.start_ts) (versions a key) (λ x q. q.0)
                free) in
        let search : for_each_write_at_or_below db key ts choose_write (0, false)
            ≡ done (chosen_of (some (c, rec))) =
          search_history db key ts choose_write (0, false) bound after-IsSorted after_writes
          ∙ ap done (choose_write_lem ts (versions db key) ∙ ap chosen_of newest) in
        let gone : find db (data_key key lock.start_ts) ≡ none =
          find-remove_other put _ _ put-IsSorted (lock_key-ne-data_key key key lock.start_ts)
          ∙ find-insert_other half _ _ _
              (λ e. data_key-ne-write_key key key lock.start_ts c (sym e))
          ∙ find-insert_other a _ _ _ (lock_key-ne-data_key key key lock.start_ts)
          ∙ empty in
        let plain : (rec.kind == 2) ≡ false = ground arith in
        let started : (lock.start_ts == 0) ≡ false = ground (arith, i.positive) in
        rw (unlocked, search, plain, started, gone) refl

-- A prewrite of a value, on a key with no lock, which a crash cuts off behind its first write:
-- applied again it succeeds and writes nothing, the transaction commits, and every read of the key
-- from the commit on fails with a corruption. Without the crash the value would be there.
pub replay_loses_value :
    (a full : Contents) (key value : List ℕ) (lock : LockRecord) (commit_ts ts : ℕ)
    → IsStore a
    → IsPrewrite lock.op lock.start_ts lock.primary lock.wall_ms
    → lock.op ≡ 1
    → find a (lock_key key) ≡ none
    → find a (data_key key lock.start_ts) ≡ none
    → apply_prewrite a key value lock.op lock.start_ts lock.primary lock.wall_ms ≡ done full
    → lock.start_ts ≤ commit_ts
    → commit_ts ≤ ts
    → ts < 2 ^ 64
    → (full ≡ insert (interrupted a key lock) (data_key key lock.start_ts) value)
      × (apply_prewrite
            (interrupted a key lock)
            key
            value
            lock.op
            lock.start_ts
            lock.primary
            lock.wall_ms
          ≡ done (interrupted a key lock))
      × (apply_commit (interrupted a key lock) key lock.start_ts commit_ts
          ≡ done (committed_after a key lock commit_ts))
      × (txn_get (committed_after a key lock commit_ts) key ts
          ≡ failed (failure corruption (codes "missing data record")))
replay_loses_value a full key value lock commit_ts ts v i puts clear empty h late upto bound = (
  (elim (apply_prewrite_cases a full key value lock.op lock.start_ts lock.primary lock.wall_ms v
      h) [ inl e ↦ absurd (e.1 clear) | inr (n, e) ↦ sym (written e) ]),
  replayed a key lock v i value full h,
  commit_half a key lock v i puts commit_ts ts late upto bound,
  read_half a key lock v i puts commit_ts ts late upto bound
      (apply_prewrite-Free a full key value lock.op lock.start_ts lock.primary lock.wall_ms v h)
      empty,
)
  where
    written :
        place_lock a key value lock.op lock.start_ts lock.primary lock.wall_ms none ≡ done full
        → insert (interrupted a key lock) (data_key key lock.start_ts) value ≡ full
    written e =
        let one : (lock.op == 1) ≡ true = ground arith in unfold place_lock in (cc (rw one at e))
