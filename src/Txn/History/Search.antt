-- ===== src/Txn/History/Search.antt =====
-- The search of `ForEachWriteAtOrBelow` of txn/txn_ops.cc is a fold over the history of the key.
use flotilladb.Base.{ℕ, ◌^◌, ◌<◌, ◌≡◌, refl, sym, ap, ◌∙◌}
use flotilladb.Base.{inl, inr, Bool, true, false, some, List, [], ◌∷◌, ◌++◌}
use flotilladb.Base.{arith, ltb, leb, ltb→lt, Bool-cases, Option-cases}
use flotilladb.Base.Bytes.{less, less_irrefl, less_trans, less_asym}
use flotilladb.Status.{done}
use flotilladb.Store.{Contents, seek}
use flotilladb.Store.Laws.{Above, IsSorted}
use flotilladb.Txn.Codec.{WriteRecord, write_key, write_prefix}
use flotilladb.Txn.Codec.Order.{write_key-newest}
use flotilladb.Txn.Ops.{for_each_write_at_or_below}
use flotilladb.Txn.History.{version_of, versions, IsWrite, HasWrites, version_of-key}
use flotilladb.Txn.History.Walk.{NotBelow, fold_until, at_or_below, search_lem}

-- Of two write keys of one user key the later one stands first.
pub write_key-order :
    (user_key : List ℕ) (c ts : ℕ)
    → c < 2 ^ 64
    → ts < 2 ^ 64
    → less (write_key user_key c) (write_key user_key ts) ≡ ltb ts c
write_key-order user_key c ts d b = elim (Bool-cases (ltb ts c)) [
  | inl e ↦ write_key-newest user_key c ts d (ltb→lt ts c e) ∙ sym e
  | inr e ↦ elim (Bool-cases (ltb c ts)) [
    | inl p ↦ less_asym _ _ (write_key-newest user_key ts c b (ltb→lt c ts p)) ∙ sym e
    | inr p ↦
        let same : c ≡ ts = ground arith in
        ap (λ (n : ℕ). less (write_key user_key n) (write_key user_key ts)) same
        ∙ less_irrefl (write_key user_key ts)
        ∙ sym e
  ]
]

pub later :
    (k v user_key : List ℕ) (ts c : ℕ) (rec : WriteRecord)
    → ((rest : List ℕ) → k ≡ write_prefix ++ rest → IsWrite k v)
    → version_of k v user_key ≡ some (c, rec)
    → ts < 2 ^ 64
    → less k (write_key user_key ts) ≡ ltb ts c
later k v user_key ts c rec w h b =
    let at = version_of-key k v user_key c rec w h in
    ap (λ j. less j (write_key user_key ts)) at.0 ∙ write_key-order user_key c ts at.1 b

seek-HasWrites : (c : Contents) (key : List ℕ) → HasWrites c → HasWrites (seek c key)
unfolding seek
seek-HasWrites [] key w = tt
seek-HasWrites ((k, v) ∷ c) key w = elim (Bool-cases (less k key)) [
  | inl e ↦ rw e (seek-HasWrites c key w.1)
  | inr e ↦ rw e w
]

seek-IsSorted : (c : Contents) (key : List ℕ) → IsSorted c → IsSorted (seek c key)
unfolding seek
seek-IsSorted [] key o = tt
seek-IsSorted ((k, v) ∷ c) key o = elim (Bool-cases (less k key)) [
  | inl e ↦ rw e (seek-IsSorted c key o.1)
  | inr e ↦ rw e o
]

Above-NotBelow : (k key : List ℕ) (c : Contents) → less k key ≡ false → Above k c → NotBelow key c
Above-NotBelow k key [] h a = tt
Above-NotBelow k key ((j, v) ∷ c) h a =
    (ground (arith, less_trans k j key), Above-NotBelow k key c h a.1)

seek-NotBelow : (c : Contents) (key : List ℕ) → IsSorted c → NotBelow key (seek c key)
unfolding seek
seek-NotBelow [] key o = tt
seek-NotBelow ((k, v) ∷ c) key o = elim (Bool-cases (less k key)) [
  | inl e ↦ rw e (seek-NotBelow c key o.1)
  | inr e ↦ rw e (e, Above-NotBelow k key c e o.0)
]

keep_all :
    (user_key : List ℕ) (ts : ℕ) (c : Contents)
    → ts < 2 ^ 64
    → HasWrites c
    → NotBelow (write_key user_key ts) c
    → at_or_below ts (versions c user_key) ≡ versions c user_key
unfolding versions at_or_below
keep_all user_key ts [] b w low = refl
keep_all user_key ts ((k, v) ∷ c) b w low = elim (Option-cases (version_of k v user_key)) [
  | inl e ↦ rw e (keep_all user_key ts c b w.1 low.1)
  | inr ((t, rec), e) ↦
      let kept : leb t ts ≡ true = ground (arith, later k v user_key ts t rec w.0 e b) in
      rw (e, kept, keep_all user_key ts c b w.1 low.1) refl
]

pub versions-seek :
    (user_key : List ℕ) (ts : ℕ) (c : Contents)
    → ts < 2 ^ 64
    → IsSorted c
    → HasWrites c
    → versions (seek c (write_key user_key ts)) user_key ≡ at_or_below ts (versions c user_key)
unfolding seek versions at_or_below
versions-seek user_key ts [] b o w = refl
versions-seek user_key ts ((k, v) ∷ c) b o w = elim (Bool-cases (less k (write_key user_key ts))) [
  | inl e ↦ rw e (elim (Option-cases (version_of k v user_key)) [
    | inl n ↦ rw n (versions-seek user_key ts c b o.1 w.1)
    | inr ((t, rec), n) ↦
        let cut : leb t ts ≡ false = ground (arith, later k v user_key ts t rec w.0 n b) in
        rw (n, cut) (versions-seek user_key ts c b o.1 w.1)
  ])
  | inr e ↦ rw e (sym (keep_all user_key ts ((k, v) ∷ c) b w (e, Above-NotBelow k _ c e o.0)))
]

-- In a store whose write column is well formed, the search at or below a 64-bit timestamp never
-- fails, and is the fold of the callback over the versions up to that timestamp.
pub search_history :
    {S : Type 0} (db : Contents) (user_key : List ℕ) (ts : ℕ) (fn : ℕ → WriteRecord → S → S × Bool)
    (s : S)
    → ts < 2 ^ 64
    → IsSorted db
    → HasWrites db
    → for_each_write_at_or_below db user_key ts fn s
      ≡ done (fold_until fn s (at_or_below ts (versions db user_key)))
unfolding for_each_write_at_or_below
search_history db user_key ts fn s b o w =
    let key = write_key user_key ts in
    search_lem user_key fn ts s (seek db key) (seek-IsSorted db key o) (seek-HasWrites db key w)
      (seek-NotBelow db key o)
    ∙ ap (λ h. done (fold_until fn s h)) (versions-seek user_key ts db b o w)
