-- ===== src/Txn/Codec/Parse.antt =====
-- `ParseWriteKey` of txn/codec.cc against `WriteKey`.
use flotilladb.Base.{ℕ, zero, suc, ◌+◌, ◌-◌, ◌*◌, ◌/◌, ◌%◌, ◌^◌, ◌<◌, ◌≡◌, refl, sym, ap, ◌∙◌}
use flotilladb.Base.{false, some, List, ◌++◌}
use flotilladb.Base.{arith, ltb}
use flotilladb.Base.{length, drop-append}
use flotilladb.Base.Bits.{bit_or-add}
use flotilladb.Coding.RoundTrip.{next_byte}
use flotilladb.Txn.Codec.{
  escape_key, big_endian, inverted_ts, write_key, read_big_endian, read_inverted_ts, same_bytes,
  parse_suffix, parse_write_key,
}
use flotilladb.Txn.Codec.RoundTrip.{unescape_key-escape_key}
use Prim.Native.Nat.{bit_or}
use native.Mathlib.Nat.{div-div-eq-div-mul, div-le_self, mod-eq_of_lt}

length-big_endian : (n v : ℕ) → length (big_endian n v) ≡ n
unfolding big_endian
length-big_endian zero v = refl
length-big_endian (suc n) v = ap suc (length-big_endian n v)

high_bytes : (n v : ℕ) → v / 2 ^ (8 * suc n) ≡ v / 2 ^ (8 * n) / 2 ^ 8
high_bytes n v =
    ap (λ (k : ℕ). v / k)
      (ap (λ (k : ℕ). 2 ^ k) (let e : 8 * suc n ≡ 8 * (n + 1) = omega arith in e)
        ∙ next_byte n
        ∙ omega arith)
    ∙ sym (div-div-eq-div-mul v (2 ^ (8 * n)) (2 ^ 8))

read_big_endian-rest :
    (n v : ℕ) → v < 2 ^ 64 → read_big_endian (v / 2 ^ (8 * n)) (big_endian n v) ≡ v
unfolding read_big_endian big_endian
read_big_endian-rest zero v h = omega arith
read_big_endian-rest (suc n) v h =
    ap (λ (inv : ℕ). read_big_endian inv (big_endian n v)) step ∙ read_big_endian-rest n v h
  where
    step : bit_or (v / 2 ^ (8 * suc n) * 2 ^ 8 % 2 ^ 64) (v / 2 ^ (8 * n) % 2 ^ 8) ≡ v / 2 ^ (8 * n)
    step =
        let small = div-le_self v (2 ^ (8 * n)) in
        let kept : v / 2 ^ (8 * suc n) * 2 ^ 8 % 2 ^ 64 ≡ v / 2 ^ (8 * n) / 2 ^ 8 * 2 ^ 8 =
          ap (λ (u : ℕ). u * 2 ^ 8 % 2 ^ 64) (high_bytes n v)
          ∙ mod-eq_of_lt (omega (arith, small)) in
        ap (λ (u : ℕ). bit_or u (v / 2 ^ (8 * n) % 2 ^ 8)) kept
        ∙ bit_or-add 8 (v / 2 ^ (8 * n) / 2 ^ 8) (v / 2 ^ (8 * n) % 2 ^ 8) (omega arith)
        ∙ omega arith

pub read-inverted_ts : (ts : ℕ) → ts < 2 ^ 64 → read_inverted_ts (inverted_ts ts) ≡ ts
unfolding read_inverted_ts inverted_ts
read-inverted_ts ts h =
    ap (λ (inv : ℕ). 2 ^ 64 - 1 - inv)
      (ap (λ (inv : ℕ). read_big_endian inv (big_endian 8 (2 ^ 64 - 1 - ts)))
          (top (2 ^ 64 - 1 - ts) (omega arith))
        ∙ read_big_endian-rest 8 (2 ^ 64 - 1 - ts) (omega arith))
    ∙ omega arith
  where
    top : (v : ℕ) → v < 2 ^ 64 → 0 ≡ v / 2 ^ 64
    top v h = omega arith

length-inverted_ts : (ts : ℕ) → length (inverted_ts ts) ≡ 8
unfolding inverted_ts
length-inverted_ts ts = length-big_endian 8 _

-- A write key with a 64-bit timestamp is parsed into the user key and the timestamp that it was
-- made of.
pub parse_write_key-write_key :
    (user_key : List ℕ) (commit_ts : ℕ)
    → commit_ts < 2 ^ 64
    → parse_write_key (write_key user_key commit_ts) ≡ some (user_key, commit_ts)
unfolding parse_write_key write_key same_bytes parse_suffix
parse_write_key-write_key user_key commit_ts h =
    let long : ltb (suc (suc (length (escape_key user_key ++ inverted_ts commit_ts)))) 2 ≡ false =
      ground arith in
    rw
      (
        long,
        unescape_key-escape_key user_key (inverted_ts commit_ts),
        drop-append (escape_key user_key) (inverted_ts commit_ts),
        length-inverted_ts commit_ts,
        read-inverted_ts commit_ts h,
      )
      refl
