-- ===== src/Txn/History.antt =====
-- The history of a user key: the write records that the contents of the store hold for it, newest
-- first. The searches of txn/txn_ops.cc are folds over it.
pub mod Search
pub mod Update
pub mod Walk
use flotilladb.Base.{
  ℕ, zero, suc, ◌+◌, ◌-◌, ◌*◌, ◌/◌, ◌%◌, ◌^◌, ◌≤◌, ◌<◌, min, max, ◌≡◌, refl, sym, ap, subst, ◌∙◌,
}
use flotilladb.Base.{
  ◌≢◌, ◌↔◌, ◌⊎◌, inl, inr, Bool, true, false, not, ◌&&◌, ◌||◌, Option, none, some, List, [], ◌∷◌,
  ◌++◌, map,
}
use flotilladb.Base.{
  append-nil, append_assoc, arith, ltb, leb, ◌==◌, if◌then◌else◌, ltb→lt, lt→ltb, leb→le, ==_iff,
  Bool-cases, Option-cases,
}
use flotilladb.Base.{
  length, get_elem?, take, drop, All, length-append, length-take, length-drop, take-append,
  drop-append, All-append, get_elem?-take, get_elem?-append, get_elem?-drop, get_elem?-lt, take-all,
}
use flotilladb.Base.Bytes.{less, less_irrefl, less_trans, less_same, less-false, less_asym}
use flotilladb.Store.{Contents}
use flotilladb.Txn.Codec.{
  WriteRecord, lock_key, write_key, data_key, write_prefix, lock_prefix, data_prefix,
  parse_write_key, same_bytes, parse_suffix, decode_write, escape_key, inverted_ts,
}
use flotilladb.Txn.Codec.Order.{write_key-less, write_key-newest}
use flotilladb.Txn.Codec.Parse.{parse_write_key-write_key}

abbrev pub Version : Type 0
Version = ℕ × WriteRecord

-- The version that a pair of the store is for a user key
unfoldable pub version_of : List ℕ → List ℕ → List ℕ → Option Version
version_of k v user_key = elim (parse_write_key k) [
  | none ↦ none
  | some (u, commit_ts) ↦ elim (same_bytes u user_key) [
    | false ↦ none
    | true ↦ elim (decode_write v) [ none ↦ none | some rec ↦ some (commit_ts, rec) ]
  ]
]

abbrev pub put_front : Option Version → List Version → List Version
put_front none h = h
put_front (some x) h = x ∷ h

unfoldable pub versions : Contents → List ℕ → List Version
versions [] user_key = []
versions ((k, v) ∷ c) user_key = put_front (version_of k v user_key) (versions c user_key)

-- A pair that is a write record of some user key
pub record IsWrite (k v : List ℕ) : Type 0 where
  pub user_key : List ℕ
  pub commit_ts : ℕ
  pub rec : WriteRecord
  pub bound : commit_ts < 2 ^ 64
  pub key_eq : k ≡ write_key user_key commit_ts
  pub value_eq : decode_write v ≡ some rec

-- Every pair whose key starts like a write key is a write record.
abbrev pub HasWrites : Contents → Type 0
HasWrites [] = Unit {0}
HasWrites ((k, v) ∷ c) = ((rest : List ℕ) → k ≡ write_prefix ++ rest → IsWrite k v) × HasWrites c

pub same_bytes_refl : (xs : List ℕ) → same_bytes xs xs ≡ true
unfolding same_bytes
same_bytes_refl [] = refl
same_bytes_refl (x ∷ xs) = ground (arith, same_bytes_refl xs)

pub same_bytes-eq : (xs ys : List ℕ) → same_bytes xs ys ≡ true → xs ≡ ys
unfolding same_bytes
same_bytes-eq [] [] h = refl
same_bytes-eq [] (y ∷ ys) h = cc
same_bytes-eq (x ∷ xs) [] h = cc
same_bytes-eq (x ∷ xs) (y ∷ ys) h = grind (arith, same_bytes-eq xs ys)

pub parse_prefix :
    (k : List ℕ) (p : List ℕ × ℕ)
    → parse_write_key k ≡ some p
    → (rest : List ℕ) × (k ≡ write_prefix ++ rest)
unfolding parse_write_key same_bytes
parse_prefix [] p h = cc
parse_prefix (x ∷ []) p h = cc
parse_prefix (x ∷ y ∷ rest) p h = (rest, grind arith)

pub no_version : (k v user_key : List ℕ) → parse_write_key k ≡ none → version_of k v user_key ≡ none
unfolding version_of
no_version k v user_key e = rw (e, version_of) refl

-- What a write record is for a user key
pub version_of-IsWrite :
    (k v user_key : List ℕ) (w : IsWrite k v)
    → version_of k v user_key
      ≡ (if same_bytes w.user_key user_key then some (w.commit_ts, w.rec) else none)
unfolding version_of
version_of-IsWrite k v user_key w =
    go (w.key_eq ∙ refl) (parse_write_key-write_key w.user_key w.commit_ts w.bound) w.value_eq
  where
    go :
        k ≡ write_key w.user_key w.commit_ts
        → parse_write_key (write_key w.user_key w.commit_ts) ≡ some (w.user_key, w.commit_ts)
        → decode_write v ≡ some w.rec
        → version_of k v user_key
          ≡ (if same_bytes w.user_key user_key then some (w.commit_ts, w.rec) else none)
    go e p d = elim (Bool-cases (same_bytes w.user_key user_key)) [
      | inl s ↦ rw (s, ap (λ j. version_of j v user_key) e, version_of, p, s, d) refl
      | inr s ↦ rw (s, ap (λ j. version_of j v user_key) e, version_of, p, s) refl
    ]

-- A pair that is a version of a user key stands under that user key's write key.
pub version_of-key :
    (k v user_key : List ℕ) (ts : ℕ) (rec : WriteRecord)
    → ((rest : List ℕ) → k ≡ write_prefix ++ rest → IsWrite k v)
    → version_of k v user_key ≡ some (ts, rec)
    → (k ≡ write_key user_key ts) × (ts < 2 ^ 64) × (decode_write v ≡ some rec)
version_of-key k v user_key ts rec w h = elim (Option-cases (parse_write_key k)) [
  | inl n ↦ cc (no_version k v user_key n)
  | inr (p, e) ↦
      let start = parse_prefix k p e in
      let write = w start.0 start.1 in step write (version_of-IsWrite k v user_key write)
]
  where
    step :
        (i : IsWrite k v)
        → version_of k v user_key
          ≡ (if same_bytes i.user_key user_key then some (i.commit_ts, i.rec) else none)
        → (k ≡ write_key user_key ts) × (ts < 2 ^ 64) × (decode_write v ≡ some rec)
    step i e = elim (Bool-cases (same_bytes i.user_key user_key)) [
      | inl s ↦
          let u = same_bytes-eq i.user_key user_key s in
          let same : ◌≡◌ {A = Option Version} (some (i.commit_ts, i.rec)) (some (ts, rec)) =
            sym (rw s at e) ∙ h in
          let at : i.commit_ts ≡ ts = cc same in
          let what : i.rec ≡ rec = cc same in
          (cc (i.key_eq, u, at), omega (arith, i.bound), cc (i.value_eq, what))
      | inr s ↦ cc (rw s at e)
    ]
