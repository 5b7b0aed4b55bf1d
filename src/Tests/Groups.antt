-- ===== src/Tests/Groups.antt =====
-- Tests of the state machine of a group, and its theorems at concrete inputs.
use flotilladb.Base.{
  ℕ, ◌≡◌, ◌≢◌, refl, ap, true, false, ◌&&◌, ◌||◌, none, some, List, [], ◌∷◌, ◌++◌, arith,
}
use flotilladb.Base.Bytes.{less}
use flotilladb.Base.Texts.{decimal}
use flotilladb.Raft.Types.{LogEntry}
use flotilladb.Server.Apply.{
  Group, apply_split, apply_entry, apply_entries, apply_command, mark_applied,
  persist_applied_marker,
}
use flotilladb.Server.Commands.{decode_command-encode_command, decode_spawns-encode_spawns}
use flotilladb.Server.Once.{apply_entries_once}
use flotilladb.Server.Ranges.{
  RangeDesc, contains, below_end, range_key, encode_range_desc, encode_spawns, decode_spawns,
  encode_command, decode_command,
}
use flotilladb.Server.Split.{Recorded, child_of, half_split, apply_split_divides, half_split_stays}
use flotilladb.Store.{find}
use flotilladb.Txn.Codec.{same_bytes}

abbrev group : Group
group = record {
  group_id = 1;
  db = [];
  range = record { id = 1; start = []; end = 122 ∷ [] };
  spawned = [];
  applied_index = 4;
}

abbrev middle : List ℕ
middle = 109 ∷ []

abbrev inner : List ℕ
inner = 110 ∷ []

inside : contains group.range middle ≡ true
unfolding contains below_end less
inside = refl

-- The two ranges have different keys.
last_byte : List ℕ → ℕ
last_byte [] = 0
last_byte (x ∷ []) = x
last_byte (x ∷ y ∷ ys) = last_byte (y ∷ ys)

apart : range_key group.range.id ≢ range_key 2
unfolding range_key decimal last_byte
apart e = absurd (omega (arith, ap last_byte e))

apply_split_divides_example :
    ((apply_split group 2 middle).spawned ≡ group.spawned ++ child_of group 2 middle ∷ [])
    × Recorded group (apply_split group 2 middle) (child_of group 2 middle)
    × (contains group.range inner ≡ (
        contains (apply_split group 2 middle).range inner
        || contains (child_of group 2 middle) inner))
    × ((contains (apply_split group 2 middle).range inner
          && contains (child_of group 2 middle) inner)
        ≡ false)
apply_split_divides_example =
    apply_split_divides group 2 middle inner inside (unfold same_bytes in refl)
      (unfold find in refl) apart

half_split_stays_example :
    (apply_split (half_split group 2 middle) 2 middle ≡ half_split group 2 middle)
    × (find (half_split group 2 middle).db (range_key 2)
        ≡ some (encode_range_desc (child_of group 2 middle)))
    × (contains (half_split group 2 middle).range inner ≡ true)
half_split_stays_example =
    half_split_stays group 2 middle inner inside (unfold same_bytes in refl)
      (unfold contains below_end less in refl)

-- An entry that was applied before, and one with no command
abbrev entries : List LogEntry
entries =
    record { term = 1; index = 3; command = 9 ∷ [] }
    ∷ record { term = 1; index = 5; command = [] }
    ∷ []

abbrev after : Group
after = record group { db = persist_applied_marker group 5; applied_index = 5 }

entries_run : apply_entries group entries ≡ (after, none)
unfolding apply_entries apply_entry apply_command mark_applied
entries_run = refl

apply_entries_once_example : apply_entries after entries ≡ (after, none)
apply_entries_once_example = apply_entries_once entries group after entries_run

decode_command-encode_command_example :
    decode_command (encode_command 3 middle (1 ∷ 2 ∷ []))
    ≡ some (record { op = 3; key = middle; value = 1 ∷ 2 ∷ [] })
decode_command-encode_command_example =
    decode_command-encode_command 3 middle (1 ∷ 2 ∷ []) (omega arith) (omega arith) (omega arith)
      (omega arith)

abbrev children : List RangeDesc
children = record { id = 2; start = middle; end = [] } ∷ []

decode_spawns-encode_spawns_example : decode_spawns (encode_spawns children) ≡ some children
decode_spawns-encode_spawns_example =
    decode_spawns-encode_spawns children (omega arith)
      (record { id = omega arith; start = omega arith; end = omega arith }, tt)
