-- ===== src/Txn/Keys.antt =====
-- The keys of txn/codec.cc for different purposes, user keys and timestamps are different.
use flotilladb.Base.{ℕ, ◌^◌, ◌<◌, ◌≡◌, sym, ap, ◌∙◌}
use flotilladb.Base.{◌≢◌, Option, none, some, List, [], ◌∷◌, ◌++◌}
use flotilladb.Base.{arith}
use flotilladb.Base.{length, drop, drop-append}
use flotilladb.Txn.Codec.{
  lock_key, write_key, data_key, escape_key, unescape_key, inverted_ts, read_inverted_ts,
  parse_write_key, same_bytes,
}
use flotilladb.Txn.Codec.RoundTrip.{unescape_key-escape_key}
use flotilladb.Txn.Codec.Parse.{read-inverted_ts}
use flotilladb.Txn.History.{no_version}
use flotilladb.Txn.History.Update.{IsForeign}

-- The byte that tells the purpose
unfoldable pub purpose : List ℕ → ℕ
purpose [] = 0
purpose (x ∷ []) = 0
purpose (x ∷ y ∷ k) = y

pub lock_key-ne-data_key : (u v : List ℕ) (ts : ℕ) → lock_key u ≢ data_key v ts
unfolding lock_key data_key purpose
lock_key-ne-data_key u v ts e = absurd (omega (arith, ap purpose e))

pub lock_key-ne-write_key : (u v : List ℕ) (ts : ℕ) → lock_key u ≢ write_key v ts
unfolding lock_key write_key purpose
lock_key-ne-write_key u v ts e = absurd (omega (arith, ap purpose e))

pub data_key-ne-write_key : (u v : List ℕ) (s ts : ℕ) → data_key u s ≢ write_key v ts
unfolding data_key write_key purpose
data_key-ne-write_key u v s ts e = absurd (omega (arith, ap purpose e))

user_of : Option (List ℕ × ℕ) → List ℕ
user_of none = []
user_of (some p) = p.0

pub lock_key-injective : (u v : List ℕ) → lock_key u ≡ lock_key v → u ≡ v
unfolding lock_key user_of
lock_key-injective u v e =
    let read = λ (k : List ℕ). user_of (unescape_key (drop 2 k ++ [])) in
    sym (ap user_of (unescape_key-escape_key u []))
    ∙ ap read e
    ∙ ap user_of (unescape_key-escape_key v [])

pub data_key-user : (u v : List ℕ) (s t : ℕ) → data_key u s ≡ data_key v t → u ≡ v
unfolding data_key user_of
data_key-user u v s t e =
    let read = λ (k : List ℕ). user_of (unescape_key (drop 2 k)) in
    sym (ap user_of (unescape_key-escape_key u (inverted_ts s)))
    ∙ ap read e
    ∙ ap user_of (unescape_key-escape_key v (inverted_ts t))

pub data_key-ts :
    (u : List ℕ) (s t : ℕ) → s < 2 ^ 64 → t < 2 ^ 64 → data_key u s ≡ data_key u t → s ≡ t
unfolding data_key
data_key-ts u s t h k e =
    let read = λ (key : List ℕ). read_inverted_ts (drop (length (escape_key u)) (drop 2 key)) in
    sym (read-inverted_ts s h)
    ∙ sym (ap read_inverted_ts (drop-append (escape_key u) (inverted_ts s)))
    ∙ ap read e
    ∙ ap read_inverted_ts (drop-append (escape_key u) (inverted_ts t))
    ∙ read-inverted_ts t k

pub lock_key-IsForeign : (u v : List ℕ) → IsForeign (lock_key u) v
unfolding lock_key parse_write_key same_bytes
lock_key-IsForeign u v value = no_version _ value v (ground arith)

pub data_key-IsForeign : (u v : List ℕ) (ts : ℕ) → IsForeign (data_key u ts) v
unfolding data_key parse_write_key same_bytes
data_key-IsForeign u v ts value = no_version _ value v (ground arith)
