-- ===== src/Server/Commands.antt =====
-- The records and commands of server/raft_group.cc are decoded as they were encoded.
use flotilladb.Base.{ℕ, ◌^◌, ◌≤◌, ◌<◌, ◌≡◌, refl}
use flotilladb.Base.{some, List, [], ◌∷◌, ◌++◌}
use flotilladb.Base.{append-nil, arith}
use flotilladb.Base.{length, All}
use flotilladb.Coding.{put_length_prefixed, decoder, finished}
use flotilladb.Coding.RoundTrip.{u8-put, u32-put, str-put}
use flotilladb.Server.Ranges.{
  RangeDesc, read_range, checked, encode_each, encode_spawns, read_spawns, decode_spawns,
  encode_command, read_command, check_command, decode_command,
}

pub record RangeFits (d : RangeDesc) : Type 0 where
  pub id : d.id < 2 ^ 32
  pub start : length d.start < 2 ^ 32
  pub end : length d.end < 2 ^ 32

checked_done : {A : Type 0} (a : A) → checked (a, decoder []) ≡ some a
unfolding checked finished decoder
checked_done a = refl

read_range-encode :
    (d : RangeDesc) (rest : List ℕ)
    → RangeFits d
    → read_range d.id (decoder (put_length_prefixed d.start ++ (put_length_prefixed d.end ++ rest)))
      ≡ (d, decoder rest)
unfolding read_range
read_range-encode d rest f =
    rw (str-put d.start (put_length_prefixed d.end ++ rest) f.start, str-put d.end rest f.end) refl

read_spawns-encode :
    (spawns : List RangeDesc)
    → All RangeFits spawns
    → read_spawns (length spawns) (decoder (encode_each spawns)) ≡ (spawns, decoder [])
unfolding read_spawns encode_each decoder
read_spawns-encode [] f = refl
read_spawns-encode (d ∷ spawns) f =
    rw
      (
        u32-put d.id _ f.0.id,
        read_range-encode d (encode_each spawns) f.0,
        read_spawns-encode spawns f.1,
      )
      refl

-- The list of the children of a group is decoded as it was encoded.
pub decode_spawns-encode_spawns :
    (spawns : List RangeDesc)
    → length spawns < 2 ^ 32
    → All RangeFits spawns
    → decode_spawns (encode_spawns spawns) ≡ some spawns
unfolding decode_spawns encode_spawns
decode_spawns-encode_spawns spawns n f =
    rw (u32-put (length spawns) (encode_each spawns) n, read_spawns-encode spawns f)
      (checked_done spawns)

-- A command with one of the seven operations is decoded as it was encoded.
pub decode_command-encode_command :
    (op : ℕ) (key value : List ℕ)
    → 1 ≤ op
    → op ≤ 7
    → length key < 2 ^ 32
    → length value < 2 ^ 32
    → decode_command (encode_command op key value)
      ≡ some (record { op = op; key = key; value = value })
unfolding decode_command encode_command read_command
decode_command-encode_command op key value l h k v =
    rw
      (
        u8-put op _ (omega (arith, h)),
        str-put key _ k,
        ← append-nil (put_length_prefixed value),
        str-put value [] v,
      )
      (unfold check_command finished decoder in ground arith)
