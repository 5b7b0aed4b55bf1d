-- ===== src/Server/Apply.antt =====
-- server/raft_group.cc: a committed entry is applied to the store and the range of the group.
use flotilladb.Base.{
  ℕ, Bool, true, false, not, ◌&&◌, ◌||◌, Option, none, some, List, [], ◌∷◌, ◌++◌, leb, ◌==◌,
  if◌then◌else◌,
}
use flotilladb.Base.Texts.{codes, decimal}
use flotilladb.Coding.{put_fixed64, Decoder, decoder, Reader, ◌>>=◌, pure, u8, u32, u64, str}
use flotilladb.Raft.Types.{LogEntry}
use flotilladb.Server.Ranges.{
  RangeDesc, contains, applied_key, range_key, spawns_key, encode_range_desc, encode_spawns,
  Command, decode_command, checked,
}
use flotilladb.Status.{Status, Result, done, failed, failure, corruption, io_error}
use flotilladb.Store.{Contents, find, insert, remove}
use flotilladb.Txn.Codec.{same_bytes}
use flotilladb.Txn.Ops.{apply_prewrite, apply_commit, apply_rollback}

-- The store and the members of class RaftGroup that applying an entry changes
pub record Group : Type 0 where
  pub group_id : ℕ
  pub db : Contents
  pub range : RangeDesc
  pub spawned : List RangeDesc
  pub applied_index : ℕ

unfoldable pub is_fatal_apply_error : Status → Bool
is_fatal_apply_error s = elim s.code [ corruption ↦ true | io_error ↦ true | _ ↦ false ]

-- The store behind `PersistAppliedMarker`
unfoldable pub persist_applied_marker : Group → ℕ → Contents
persist_applied_marker g index = insert g.db (applied_key g.group_id) (put_fixed64 index)

-- The ranges and the puts of `ApplySplit`
unfoldable pub split_range : Group → ℕ → List ℕ → Group
split_range g child_id split_key =
    let child : RangeDesc = record { id = child_id; start = split_key; end = g.range.end } in
    let parent_now = record g.range { end = split_key } in
    let spawned = g.spawned ++ child ∷ [] in
    record g {
      db =
          insert
            (insert (insert g.db (range_key child_id) (encode_range_desc child))
              (range_key g.range.id) (encode_range_desc parent_now))
            (spawns_key g.group_id) (encode_spawns spawned);
      range = parent_now;
      spawned = spawned;
    }

-- `ApplySplit`
unfoldable pub apply_split : Group → ℕ → List ℕ → Group
apply_split g child_id split_key =
    if not (contains g.range split_key) || same_bytes split_key g.range.start
    then g
    else elim (find g.db (range_key child_id)) [
      | some probe ↦ g
      | none ↦ split_range g child_id split_key
    ]

pub record Prewrite : Type 0 where
  pub wop : ℕ
  pub start_ts : ℕ
  pub wall_ms : ℕ
  pub primary : List ℕ
  pub txn_value : List ℕ

read_prewrite : Reader Prewrite
read_prewrite = do
  wop ← u8
  start_ts ← u64
  wall_ms ← u64
  primary ← str
  txn_value ← str
  pure (record {
    wop = wop;
    start_ts = start_ts;
    wall_ms = wall_ms;
    primary = primary;
    txn_value = txn_value;
  })

-- The store behind a transaction operation
on_store : Group → Result Contents → Result Group
on_store g (done db) = done (record g { db = db })
on_store g (failed s) = failed s

apply_read_prewrite : Group → List ℕ → Option Prewrite → Result Group
apply_read_prewrite g key none = failed (failure corruption (codes "bad prewrite payload"))
apply_read_prewrite g key (some p) =
    if not (p.wop == 1) && not (p.wop == 2)
    then failed (failure corruption (codes "bad prewrite payload"))
    else on_store g (apply_prewrite g.db key p.txn_value p.wop p.start_ts p.primary p.wall_ms)

read_commit : Reader (ℕ × ℕ)
read_commit = do start_ts ← u64; commit_ts ← u64; pure (start_ts, commit_ts)

apply_read_commit : Group → List ℕ → Option (ℕ × ℕ) → Result Group
apply_read_commit g key none = failed (failure corruption (codes "bad commit payload"))
apply_read_commit g key (some (start_ts, commit_ts)) =
    on_store g (apply_commit g.db key start_ts commit_ts)

apply_read_rollback : Group → List ℕ → Option ℕ → Result Group
apply_read_rollback g key none = failed (failure corruption (codes "bad rollback payload"))
apply_read_rollback g key (some start_ts) = on_store g (apply_rollback g.db key start_ts)

apply_read_split : Group → List ℕ → ℕ × Decoder → Result Group
apply_read_split g key (child_id, d) =
    if d.failed
    then failed (failure corruption (codes "bad split payload"))
    else done (apply_split g child_id key)

-- The switch of `ApplyCommand`
unfoldable pub run_command : Group → Command → Result Group
unfolding apply_read_split apply_read_prewrite apply_read_commit apply_read_rollback read_prewrite
    read_commit on_store
run_command g c =
    if c.op == 1
    then done (record g { db = insert g.db c.key c.value })
    else if c.op == 2
    then done (record g { db = remove g.db c.key })
    else if c.op == 3
    then apply_read_split g c.key (u32 (decoder c.value))
    else if c.op == 4
    then apply_read_prewrite g c.key (checked (read_prewrite (decoder c.value)))
    else if c.op == 5
    then apply_read_commit g c.key (checked (read_commit (decoder c.value)))
    else if c.op == 6
    then apply_read_rollback g c.key (checked (u64 (decoder c.value)))
    else if c.op == 7
    then done g
    else failed (failure corruption (codes "unknown op"))

-- `ApplyCommand` behind `DecodeCommand`
unfoldable pub run_decoded : Group → ℕ → Option Command → Result Group
run_decoded g index none =
    failed (failure corruption (codes "bad command at index " ++ decimal index))
run_decoded g index (some c) = run_command g c

-- `ApplyCommand`
unfoldable pub apply_command : Group → LogEntry → Result Group
apply_command g e = elim e.command [
  | [] ↦ done g
  | c ∷ cs ↦ run_decoded g e.index (decode_command (c ∷ cs))
]

unfoldable pub mark_applied : Group → ℕ → Group
mark_applied g index = record g { db = persist_applied_marker g index; applied_index = index }

-- The round of `ApplyLoop` for one entry: the group, and the fatal error that ends the loop
unfoldable pub apply_entry : Group → LogEntry → Group × Option Status
apply_entry g e = if leb e.index g.applied_index then (g, none) else elim (apply_command g e) [
  | done h ↦ (mark_applied h e.index, none)
  | failed s ↦ if is_fatal_apply_error s then (g, some s) else (mark_applied g e.index, none)
]

-- The loop over the entries
unfoldable pub apply_entries : Group → List LogEntry → Group × Option Status
apply_entries g [] = (g, none)
apply_entries g (e ∷ es) =
    let (h, error) = apply_entry g e in
    elim error [ some s ↦ (h, some s) | none ↦ apply_entries h es ]
