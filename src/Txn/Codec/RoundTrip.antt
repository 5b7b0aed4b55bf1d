-- ===== src/Txn/Codec/RoundTrip.antt =====
-- What txn/codec.cc encodes it decodes.
use flotilladb.Base.{ℕ, ◌+◌, ◌^◌, ◌≤◌, ◌<◌, ◌≡◌, refl, sym, ap, ◌∙◌}
use flotilladb.Base.{◌≢◌, inl, inr, none, some, List, [], ◌∷◌, ◌++◌}
use flotilladb.Base.{append-nil, append_assoc, arith, leb, ◌==◌, if◌then◌else◌, ==_iff, Bool-cases}
use flotilladb.Base.{length}
use mathlib.Core.Path.{ap₂}
use flotilladb.Coding.{put_fixed8, put_fixed64, put_length_prefixed, decoder, finished}
use flotilladb.Coding.RoundTrip.{u8-put, u64-put, str-put}
use flotilladb.Txn.Codec.{
  escape_bytes, escape_key, unescape_from, unescape_key, LockRecord, WriteRecord, encode_lock,
  decode_lock, read_lock, check_lock, encode_write, decode_write, read_write, check_write,
}

unescape_plain :
    (c : ℕ) (xs key : List ℕ) (i : ℕ)
    → c ≢ 0
    → 0 < length xs
    → unescape_from key i (c ∷ xs) ≡ unescape_from (key ++ c ∷ []) (i + 1) xs
unfolding unescape_from
unescape_plain c [] key i h k = absurd (omega arith)
unescape_plain c (d ∷ xs) key i h k = ground arith

escape_bytes-nonempty : (cs rest : List ℕ) → 0 < length (escape_bytes cs ++ rest)
unfolding escape_bytes
escape_bytes-nonempty [] rest = omega arith
escape_bytes-nonempty (c ∷ cs) rest = elim (Bool-cases (c == 0)) [
  | inl e ↦ rw e (omega arith)
  | inr e ↦ rw e (omega arith)
]

unescape_zero :
    (xs key : List ℕ) (i : ℕ)
    → unescape_from key i (0 ∷ 255 ∷ xs) ≡ unescape_from (key ++ 0 ∷ []) (i + 2) xs
unfolding unescape_from
unescape_zero xs key i = refl

snoc_cons : (key cs : List ℕ) (c : ℕ) → (key ++ c ∷ []) ++ cs ≡ key ++ c ∷ cs
snoc_cons key cs c = append_assoc key (c ∷ []) cs

unescape_from-escape :
    (cs rest key : List ℕ) (i : ℕ)
    → unescape_from key i (escape_bytes cs ++ rest) ≡ some (key ++ cs, i + length (escape_bytes cs))
unfolding escape_bytes
unescape_from-escape [] rest key i = unfold unescape_from in (rw append-nil refl)
unescape_from-escape (c ∷ cs) rest key i = elim (Bool-cases (c == 0)) [
  | inl e ↦
      let z : c ≡ 0 = (==_iff c 0).0 e in
      rw e (
        unescape_zero (escape_bytes cs ++ rest) key i
        ∙ (unescape_from-escape cs rest (key ++ 0 ∷ []) (i + 2)
            ∙ ap₂ (λ (ks : List ℕ) (n : ℕ). some (let p : List ℕ × ℕ = (ks, n) in p))
                (snoc_cons key cs 0 ∙ ap (λ (x : ℕ). key ++ x ∷ cs) (sym z)) (omega arith)))
  | inr e ↦ rw e (
      unescape_plain c (escape_bytes cs ++ rest) key i (ground arith)
        (escape_bytes-nonempty cs rest)
      ∙ unescape_from-escape cs rest (key ++ c ∷ []) (i + 1)
      ∙ ap₂ (λ (ks : List ℕ) (n : ℕ). some (let p : List ℕ × ℕ = (ks, n) in p)) (snoc_cons key cs c)
          (omega arith))
]

-- An escaped key is read back, whatever bytes follow it, and exactly its bytes are consumed.
pub unescape_key-escape_key :
    (user_key rest : List ℕ)
    → unescape_key (escape_key user_key ++ rest) ≡ some (user_key, length (escape_key user_key))
unfolding unescape_key escape_key
unescape_key-escape_key user_key rest =
    unescape_from-escape user_key rest [] 0
    ∙ ap (λ (n : ℕ). some (let p : List ℕ × ℕ = (user_key, n) in p)) (omega arith)

-- The fields of a lock record fit their widths.
pub record LockFits (lock : LockRecord) : Type 0 where
  pub start_ts : lock.start_ts < 2 ^ 64
  pub op : lock.op < 2 ^ 8
  pub wall_ms : lock.wall_ms < 2 ^ 64
  pub primary : length lock.primary < 2 ^ 32

read_lock-encode :
    (lock : LockRecord)
    → LockFits lock
    → read_lock (decoder (encode_lock lock)) ≡ (lock, decoder [])
unfolding read_lock encode_lock
read_lock-encode lock f =
    rw
      (
        u64-put lock.start_ts
            (put_fixed8 lock.op ++ (put_fixed64 lock.wall_ms ++ put_length_prefixed lock.primary))
            f.start_ts,
        u8-put lock.op (put_fixed64 lock.wall_ms ++ put_length_prefixed lock.primary) f.op,
        u64-put lock.wall_ms (put_length_prefixed lock.primary) f.wall_ms,
        ← append-nil (put_length_prefixed lock.primary),
        str-put lock.primary [] f.primary,
      )
      refl

lock_complete : (lock : LockRecord) → check_lock (lock, decoder []) ≡ some lock
unfolding check_lock finished decoder
lock_complete lock = refl

-- A lock record whose fields fit their widths is decoded as it was encoded.
pub decode_lock-encode_lock :
    (lock : LockRecord) → LockFits lock → decode_lock (encode_lock lock) ≡ some lock
unfolding decode_lock
decode_lock-encode_lock lock f = ap check_lock (read_lock-encode lock f) ∙ lock_complete lock

read_write-encode :
    (write : WriteRecord)
    → write.kind ≤ 3
    → write.start_ts < 2 ^ 64
    → read_write (decoder (encode_write write)) ≡ (write, decoder [])
unfolding read_write encode_write
read_write-encode write h k =
    rw
      (
        u8-put write.kind (put_fixed64 write.start_ts) (omega arith),
        ← append-nil (put_fixed64 write.start_ts),
        u64-put write.start_ts [] k,
      )
      refl

write_kinds :
    (write : WriteRecord)
    → write.kind ≤ 3
    → check_write (write, decoder []) ≡ (if leb 1 write.kind then some write else none)
unfolding check_write finished decoder
write_kinds write h = ground arith

-- A write record with a 64-bit timestamp and a kind up to 3 is decoded as it was encoded if the
-- kind is 1, 2 or 3, and is refused if it is 0.
pub decode_write-encode_write :
    (write : WriteRecord)
    → write.kind ≤ 3
    → write.start_ts < 2 ^ 64
    → decode_write (encode_write write) ≡ (if leb 1 write.kind then some write else none)
unfolding decode_write
decode_write-encode_write write h k =
    ap check_write (read_write-encode write h k) ∙ write_kinds write h
