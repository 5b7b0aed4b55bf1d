-- ===== src/Server/Ranges.antt =====
-- server/raft_group.cc and raft_group.h: ranges of keys, and their records in the store.
use flotilladb.Base.{
  ℕ, zero, suc, Bool, true, false, not, ◌&&◌, Option, none, some, List, [], ◌∷◌, ◌++◌, leb, length,
  if◌then◌else◌,
}
use flotilladb.Base.Bytes.{less}
use flotilladb.Base.Texts.{codes, decimal}
use flotilladb.Coding.{
  put_fixed8, put_fixed32, put_length_prefixed, Decoder, decoder, Reader, ◌>>=◌, pure, u8, u32, str,
  finished,
}

pub record RangeDesc : Type 0 where
  pub id : ℕ
  pub start : List ℕ
  pub end : List ℕ

unfoldable pub below_end : List ℕ → List ℕ → Bool
below_end [] key = true
below_end (c ∷ end) key = less key (c ∷ end)

-- `Contains`
unfoldable pub contains : RangeDesc → List ℕ → Bool
contains d key = not (less key d.start) && below_end d.end key

unfoldable pub applied_key : ℕ → List ℕ
applied_key group_id = 0 ∷ (codes "applied/" ++ decimal group_id)

unfoldable pub range_key : ℕ → List ℕ
range_key range_id = 0 ∷ (codes "range/" ++ decimal range_id)

unfoldable pub spawns_key : ℕ → List ℕ
spawns_key group_id = 0 ∷ (codes "spawns/" ++ decimal group_id)

unfoldable pub encode_range_desc : RangeDesc → List ℕ
encode_range_desc d = put_length_prefixed d.start ++ put_length_prefixed d.end

unfoldable pub read_range : ℕ → Reader RangeDesc
read_range id = do start ← str; end ← str; pure (record { id = id; start = start; end = end })

-- `dec.ok() && dec.remaining() == 0`
unfoldable pub checked : {A : Type 0} → A × Decoder → Option A
checked (a, d) = if finished d then some a else none

unfoldable pub decode_range_desc : ℕ → List ℕ → Option RangeDesc
decode_range_desc id xs = checked (read_range id (decoder xs))

-- The loop of `EncodeSpawns`
unfoldable pub encode_each : List RangeDesc → List ℕ
encode_each [] = []
encode_each (d ∷ spawns) =
    put_fixed32 d.id
    ++ (put_length_prefixed d.start ++ (put_length_prefixed d.end ++ encode_each spawns))

unfoldable pub encode_spawns : List RangeDesc → List ℕ
encode_spawns spawns = put_fixed32 (length spawns) ++ encode_each spawns

-- The loop of `DecodeSpawns`: `count` rounds at most, while the decoder has not failed
unfoldable pub read_spawns : ℕ → Reader (List RangeDesc)
read_spawns zero d = ([], d)
read_spawns (suc count) d = elim d.failed [
  | true ↦ ([], d)
  | false ↦ (do id ← u32; range ← read_range id; rest ← read_spawns count; pure (range ∷ rest)) d
]

unfoldable pub decode_spawns : List ℕ → Option (List RangeDesc)
decode_spawns xs = checked ((do count ← u32; read_spawns count) (decoder xs))

-- `EncodeCommand`
unfoldable pub encode_command : ℕ → List ℕ → List ℕ → List ℕ
encode_command op key value =
    put_fixed8 op ++ (put_length_prefixed key ++ put_length_prefixed value)

pub record Command : Type 0 where
  pub op : ℕ
  pub key : List ℕ
  pub value : List ℕ

unfoldable pub read_command : Reader Command
read_command = do
  op ← u8
  key ← str
  value ← str
  pure (record { op = op; key = key; value = value })

unfoldable pub check_command : Command × Decoder → Option Command
check_command (c, d) = if finished d && (leb 1 c.op && leb c.op 7) then some c else none

-- `DecodeCommand`
unfoldable pub decode_command : List ℕ → Option Command
decode_command xs = check_command (read_command (decoder xs))
