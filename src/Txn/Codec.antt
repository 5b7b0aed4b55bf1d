-- ===== src/Txn/Codec.antt =====
-- txn/codec.cc: the keys and the records of the transactional key space.
pub mod Order
pub mod Parse
pub mod RoundTrip
use flotilladb.Base.{ℕ, zero, suc, ◌+◌, ◌-◌, ◌*◌, ◌/◌, ◌%◌, ◌^◌}
use flotilladb.Base.{Bool, true, false, not, ◌&&◌, ◌||◌, Option, none, some, List, [], ◌∷◌, ◌++◌}
use flotilladb.Base.{length, take, drop}
use Prim.Native.Nat.{bit_or}
use flotilladb.Base.{leb, ltb, ◌==◌, if◌then◌else◌}
use flotilladb.Coding.{
  put_fixed8, put_fixed64, put_length_prefixed, Decoder, decoder, Reader, ◌>>=◌, pure, u8, u64, str,
  finished,
}

-- `EscapeKey`
unfoldable pub escape_bytes : List ℕ → List ℕ
escape_bytes [] = 0 ∷ 1 ∷ []
escape_bytes (c ∷ cs) = let rest = escape_bytes cs in if c == 0 then 0 ∷ 255 ∷ rest else c ∷ rest

unfoldable pub escape_key : List ℕ → List ℕ
escape_key user_key = escape_bytes user_key

-- The loop of `UnescapeKey` at index `i`, with the key read so far: the key, and `*consumed`
unfoldable pub unescape_from : List ℕ → ℕ → List ℕ → Option (List ℕ × ℕ)
unescape_from key i [] = none
unescape_from key i (c ∷ []) = none
unescape_from key i (c ∷ d ∷ rest) =
    let plain = unescape_from (key ++ c ∷ []) (i + 1) (d ∷ rest) in
    let zero_byte = unescape_from (key ++ 0 ∷ []) (i + 2) rest in
    if not (c == 0)
    then plain
    else if d == 1
    then some (key, i + 2)
    else if d == 255
    then zero_byte
    else none

-- `UnescapeKey`
unfoldable pub unescape_key : List ℕ → Option (List ℕ × ℕ)
unescape_key xs = unescape_from [] 0 xs

-- The loop `push_back(inv >> (8 * i))` from byte `n - 1` down to 0
unfoldable pub big_endian : ℕ → ℕ → List ℕ
big_endian zero v = []
big_endian (suc n) v = (v / 2 ^ (8 * n) % 2 ^ 8) ∷ big_endian n v

-- `AppendInvertedTs`: `~ts` on 64 bits
unfoldable pub inverted_ts : ℕ → List ℕ
inverted_ts ts = big_endian 8 (2 ^ 64 - 1 - ts)

abbrev pub lock_prefix : List ℕ
lock_prefix = b'!' ∷ b'l' ∷ []

abbrev pub write_prefix : List ℕ
write_prefix = b'!' ∷ b'w' ∷ []

abbrev pub data_prefix : List ℕ
data_prefix = b'!' ∷ b'd' ∷ []

unfoldable pub lock_key : List ℕ → List ℕ
lock_key user_key = lock_prefix ++ escape_key user_key

unfoldable pub write_key : List ℕ → ℕ → List ℕ
write_key user_key commit_ts = write_prefix ++ (escape_key user_key ++ inverted_ts commit_ts)

unfoldable pub data_key : List ℕ → ℕ → List ℕ
data_key user_key start_ts = data_prefix ++ (escape_key user_key ++ inverted_ts start_ts)

-- `ReadInvertedTs`, whose argument has 8 bytes: `inv = (inv << 8) | byte` for each, then `~inv`
unfoldable pub read_big_endian : ℕ → List ℕ → ℕ
read_big_endian inv [] = inv
read_big_endian inv (b ∷ bs) = read_big_endian (bit_or (inv * 2 ^ 8 % 2 ^ 64) b) bs

unfoldable pub read_inverted_ts : List ℕ → ℕ
read_inverted_ts xs = 2 ^ 64 - 1 - read_big_endian 0 xs

unfoldable pub same_bytes : List ℕ → List ℕ → Bool
same_bytes [] [] = true
same_bytes [] (y ∷ ys) = false
same_bytes (x ∷ xs) [] = false
same_bytes (x ∷ xs) (y ∷ ys) = x == y && same_bytes xs ys

-- `ParseWriteKey` behind the prefix: what `UnescapeKey` gave, and the bytes it was given
unfoldable pub parse_suffix : Option (List ℕ × ℕ) → List ℕ → Option (List ℕ × ℕ)
parse_suffix none xs = none
parse_suffix (some (user_key, consumed)) xs =
    let rest = drop consumed xs in
    if not (length rest == 8) then none else some (user_key, read_inverted_ts rest)

-- `ParseWriteKey`
unfoldable pub parse_write_key : List ℕ → Option (List ℕ × ℕ)
parse_write_key key =
    if ltb (length key) 2 || not (same_bytes (take 2 key) write_prefix)
    then none
    else parse_suffix (unescape_key (drop 2 key)) (drop 2 key)

pub record LockRecord : Type 0 where
  pub start_ts : ℕ
  pub op : ℕ
  pub wall_ms : ℕ
  pub primary : List ℕ

-- A write record's kind is a byte; 1 puts, 2 deletes and 3 rolls back.
pub record WriteRecord : Type 0 where
  pub kind : ℕ
  pub start_ts : ℕ

unfoldable pub encode_lock : LockRecord → List ℕ
encode_lock lock =
    put_fixed64 lock.start_ts
    ++ (put_fixed8 lock.op ++ (put_fixed64 lock.wall_ms ++ put_length_prefixed lock.primary))

read_lock : Reader LockRecord
read_lock = do
  start_ts ← u64
  op ← u8
  wall_ms ← u64
  primary ← str
  pure (record { start_ts = start_ts; op = op; wall_ms = wall_ms; primary = primary })

check_lock : LockRecord × Decoder → Option LockRecord
check_lock (lock, d) = if finished d then some lock else none

unfoldable pub decode_lock : List ℕ → Option LockRecord
unfolding check_lock read_lock
decode_lock xs = check_lock (read_lock (decoder xs))

unfoldable pub encode_write : WriteRecord → List ℕ
encode_write write = put_fixed8 write.kind ++ put_fixed64 write.start_ts

read_write : Reader WriteRecord
read_write = do kind ← u8; start_ts ← u64; pure (record { kind = kind; start_ts = start_ts })

check_write : WriteRecord × Decoder → Option WriteRecord
check_write (write, d) =
    if finished d && (leb 1 write.kind && leb write.kind 3) then some write else none

unfoldable pub decode_write : List ℕ → Option WriteRecord
unfolding check_write read_write
decode_write xs = check_write (read_write (decoder xs))
