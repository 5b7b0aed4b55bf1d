-- ===== src/Txn/History/Walk.antt =====
-- The loop of `ForEachWriteAtOrBelow` of txn/txn_ops.cc over what the iterator yields.
use flotilladb.Base.{ℕ, ◌^◌, ◌<◌, ◌≡◌, refl, ap, ◌∙◌}
use flotilladb.Base.{◌≢◌, inl, inr, Bool, true, false, none, some, List, [], ◌∷◌, ◌++◌}
use flotilladb.Base.{arith, leb, if◌then◌else◌, Bool-cases, Option-cases}
use flotilladb.Base.Bytes.{less}
use flotilladb.Status.{Result, done}
use flotilladb.Store.{Contents}
use flotilladb.Store.Laws.{Above, IsSorted}
use flotilladb.Txn.Codec.{
  WriteRecord, write_key, write_prefix, parse_write_key, same_bytes, decode_write,
}
use flotilladb.Txn.Codec.Parse.{parse_write_key-write_key}
use flotilladb.Txn.Codec.Order.{write_key-less}
use flotilladb.Txn.Ops.{for_each_write}
use flotilladb.Txn.History.{
  Version, version_of, versions, IsWrite, HasWrites, same_bytes_refl, parse_prefix,
  version_of-IsWrite, version_of-key,
}

-- The callback over a history, until it says to stop
unfoldable pub fold_until : {S : Type 0} → (ℕ → WriteRecord → S → S × Bool) → S → List Version → S
fold_until fn s [] = s
fold_until fn s ((ts, rec) ∷ h) =
    let next = fn ts rec s in elim next.1 [ true ↦ fold_until fn next.0 h | false ↦ next.0 ]

-- The versions up to a timestamp
unfoldable pub at_or_below : ℕ → List Version → List Version
at_or_below ts [] = []
at_or_below ts ((c, rec) ∷ h) =
    let rest = at_or_below ts h in if leb c ts then (c, rec) ∷ rest else rest

abbrev pub NotBelow : List ℕ → Contents → Type 0
NotBelow key [] = Unit {0}
NotBelow key ((k, v) ∷ c) = (less k key ≡ false) × NotBelow key c

prefix_between :
    (k a b : List ℕ)
    → less k (write_prefix ++ a) ≡ false
    → less k (write_prefix ++ b) ≡ true
    → (rest : List ℕ) × (k ≡ write_prefix ++ rest)
unfolding less
prefix_between [] a b h g = cc
prefix_between (x ∷ []) a b h g = ([], absurd (grind arith))
prefix_between (x ∷ y ∷ rest) a b h g = (rest, grind arith)

write_key_prefix : (u : List ℕ) (ts : ℕ) → (rest : List ℕ) × (write_key u ts ≡ write_prefix ++ rest)
unfolding write_key
write_key_prefix u ts = (_, refl)

-- A pair between two write keys of a user key is a version of that user key.
between :
    (k v user_key : List ℕ) (ts c : ℕ)
    → ((rest : List ℕ) → k ≡ write_prefix ++ rest → IsWrite k v)
    → less k (write_key user_key ts) ≡ false
    → less k (write_key user_key c) ≡ true
    → version_of k v user_key ≢ none
between k v user_key ts c w low high none_here =
    let p = write_key_prefix user_key ts in
    let q = write_key_prefix user_key c in
    let start = prefix_between k p.0 q.0 (rw p.1 at low) (rw q.1 at high) in
    step (w start.0 start.1) none_here
  where
    step : (i : IsWrite k v) → version_of k v user_key ≡ none → ⊥
    step i e = elim (Bool-cases (same_bytes i.user_key user_key)) [
      | inl s ↦ cc (version_of-IsWrite k v user_key i, s)
      | inr s ↦
          let other : i.user_key ≢ user_key = λ u. cc (u, same_bytes_refl user_key) in
          cc (
            i.key_eq,
            write_key-less i.user_key user_key i.commit_ts ts other,
            write_key-less i.user_key user_key i.commit_ts c other,
          )
    ]

-- Behind a pair that is no version of the user key there is none.
none_behind :
    (k v user_key : List ℕ) (ts : ℕ) (xs : Contents)
    → ((rest : List ℕ) → k ≡ write_prefix ++ rest → IsWrite k v)
    → less k (write_key user_key ts) ≡ false
    → version_of k v user_key ≡ none
    → Above k xs
    → HasWrites xs
    → versions xs user_key ≡ []
unfolding versions
none_behind k v user_key ts [] w low h a ws = refl
none_behind k v user_key ts ((j, u) ∷ xs) w low h a ws =
    elim (Option-cases (version_of j u user_key)) [
      | inl e ↦ rw e (none_behind k v user_key ts xs w low h a.1 ws.1)
      | inr ((c, rec), e) ↦
          let at = version_of-key j u user_key c rec ws.0 e in
          absurd (between k v user_key ts c w low (rw at.0 at a.0) h)
    ]

module _ {S : Type 0} (user_key : List ℕ) (fn : ℕ → WriteRecord → S → S × Bool) where
  walk_version :
      (k v : List ℕ) (ts : ℕ) (rec : WriteRecord) (xs : Contents) (s : S)
      → k ≡ write_key user_key ts
      → ts < 2 ^ 64
      → decode_write v ≡ some rec
      → for_each_write ((k, v) ∷ xs) user_key fn s ≡ elim (fn ts rec s).1 [
        | true ↦ for_each_write xs user_key fn (fn ts rec s).0
        | false ↦ done (fn ts rec s).0
      ]
  unfolding for_each_write
  walk_version k v ts rec xs s e b d =
      rw (e, for_each_write, parse_write_key-write_key user_key ts b, same_bytes_refl user_key, d)
        refl

  walk_foreign :
      (k v : List ℕ) (i : IsWrite k v) (xs : Contents) (s : S)
      → version_of k v user_key ≡ none
      → for_each_write ((k, v) ∷ xs) user_key fn s ≡ done s
  unfolding for_each_write
  walk_foreign k v i xs s h = elim (Bool-cases (same_bytes i.user_key user_key)) [
    | inl e ↦ cc (version_of-IsWrite k v user_key i, e)
    | inr e ↦
        ap (λ j. for_each_write ((j, v) ∷ xs) user_key fn s) i.key_eq
        ∙ rw (for_each_write, parse_write_key-write_key i.user_key i.commit_ts i.bound, e) refl
  ]

  walk_none :
      (k v : List ℕ) (xs : Contents) (s : S)
      → ((rest : List ℕ) → k ≡ write_prefix ++ rest → IsWrite k v)
      → version_of k v user_key ≡ none
      → for_each_write ((k, v) ∷ xs) user_key fn s ≡ done s
  unfolding for_each_write
  walk_none k v xs s w h = elim (Option-cases (parse_write_key k)) [
    | inl e ↦ rw (for_each_write, e) refl
    | inr (p, e) ↦ let start = parse_prefix k p e in walk_foreign k v (w start.0 start.1) xs s h
  ]

  -- The search over what the iterator yields from a write key of the user key on
  pub search_lem :
      (ts : ℕ) (s : S) (xs : Contents)
      → IsSorted xs
      → HasWrites xs
      → NotBelow (write_key user_key ts) xs
      → for_each_write xs user_key fn s ≡ done (fold_until fn s (versions xs user_key))
  unfolding versions fold_until
  search_lem ts s [] o w low = unfold for_each_write in refl
  search_lem ts s ((k, v) ∷ xs) o w low = elim (Option-cases (version_of k v user_key)) [
    | inl e ↦
        walk_none k v xs s w.0 e ∙ rw (e, none_behind k v user_key ts xs w.0 low.0 e o.0 w.1) refl
    | inr ((c, rec), e) ↦
        let at = version_of-key k v user_key c rec w.0 e in
        walk_version k v c rec xs s at.0 at.1 at.2
        ∙ rw e (go c rec (fn c rec s) (search_lem ts (fn c rec s).0 xs o.1 w.1 low.1))
  ]
    where
      go :
          (c : ℕ) (rec : WriteRecord) (next : S × Bool)
          → for_each_write xs user_key fn next.0
            ≡ done (fold_until fn next.0 (versions xs user_key))
          → ◌≡◌ {A = Result S}
              (elim next.1 [ true ↦ for_each_write xs user_key fn next.0 | false ↦ done next.0 ])
              (done (elim next.1 [
                | true ↦ fold_until fn next.0 (versions xs user_key)
                | false ↦ next.0
              ]))
      go c rec (t, true) h = h
      go c rec (t, false) h = refl
