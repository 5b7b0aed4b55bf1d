-- ===== src/Txn/Standing.antt =====
-- What a transaction of txn/txn_ops.cc left on a key stands through every later run of operations
-- in which no other transaction writes in its slot.
use flotilladb.Base.{ℕ, ◌^◌, ◌≤◌, ◌<◌, ◌≡◌, refl, sym, ap, subst, ◌∙◌}
use flotilladb.Base.{◌≢◌, inl, inr, none, some, List}
use flotilladb.Base.{arith, ◌==◌, Bool-cases}
use flotilladb.Base.{All}
use flotilladb.Status.{done}
use flotilladb.Store.{Contents, find, insert}
use flotilladb.Store.Laws.{insert-IsSorted, find-insert_self, find-insert_other}
use flotilladb.Txn.Codec.{LockRecord, WriteRecord, lock_key, data_key, encode_lock}
use flotilladb.Txn.Codec.RoundTrip.{decode_lock-encode_lock}
use flotilladb.Txn.Ops.{
  lock_in, get_lock, place_lock, unlock, apply_prewrite, apply_commit, apply_rollback,
}
use flotilladb.Txn.History.{Version, versions}
use flotilladb.Txn.History.Update.{insert_version, versions-insert_foreign}
use flotilladb.Txn.Keys.{
  lock_key-ne-data_key, lock_key-injective, lock_key-IsForeign, data_key-IsForeign,
}
use flotilladb.Txn.Locks.{keys_cases, own_lock}
use flotilladb.Txn.Placing.{IsPrewrite}
use flotilladb.Txn.Prewrite.{apply_prewrite_cases, apply_prewrite-Free}
use flotilladb.Txn.Commit.{commit_record, apply_commit_cases, made-IsVersion}
use flotilladb.Txn.Marker.{marker_of, marker-IsVersion}
use flotilladb.Txn.Rollback.{apply_rollback_cases, unlock-IsStore}
use flotilladb.Txn.Run.{Step, Run, prewrite, commit, rollback, here, next, Run-IsStore}
use flotilladb.Txn.Searches.{Foreign, Free}
use flotilladb.Txn.Valid.{IsVersion, IsStore}
use flotilladb.Txn.Codec.RoundTrip.{LockFits}
use flotilladb.Txn.Slots.{
  unlock_history, Owned, OwnedRun, Over, Over-same, drop_lock-Over, unlock-Over, put_write-Over,
  get_lock_same,
}

-- The version that a commit of a lock makes
pub commit-IsVersion :
    (a : Contents) (k : List ℕ) (s c : ℕ) (l : LockRecord)
    → IsStore a
    → s ≤ c
    → c < 2 ^ 64
    → get_lock a k ≡ done (some l)
    → l.start_ts ≡ s
    → IsVersion (c, commit_record l.op s)
commit-IsVersion a k s c l v after bound g same =
    let (raw, o, n, is) = own_lock a k l v g in
    subst (λ r. IsVersion (c, r))
      (λ i. commit_record (is i).op ((ap (λ (x : LockRecord). x.start_ts) is ∙ same) i))
      (made-IsVersion a k c raw v o (omega (arith, same, ap (λ (x : LockRecord). x.start_ts) is))
        bound)

-- The lock that a prewrite puts, as `GetLock` reads it
placed_lock :
    (a b : Contents) (k value : List ℕ) (op s : ℕ) (p : List ℕ) (w : ℕ)
    → IsPrewrite op s p w
    → place_lock a k value op s p w none ≡ done b
    → ((u : List ℕ) → versions b u ≡ versions a u)
      × ((u : List ℕ) → k ≢ u → find b (lock_key u) ≡ find a (lock_key u))
      × (get_lock b k ≡ done (some (record { start_ts = s; op = op; wall_ms = w; primary = p })))
unfolding place_lock get_lock lock_in
placed_lock a b k value op s p w i e = elim (Bool-cases (op == 1)) [
  | inl q ↦
      let at : insert first (data_key k s) value ≡ b = cc (rw q at e) in
      (
        (λ u.
            ap (λ c. versions c u) (sym at)
            ∙ versions-insert_foreign first _ value u (data_key-IsForeign k u s)
            ∙ history u),
        (λ u n.
            ap (λ c. find c (lock_key u)) (sym at)
            ∙ find-insert_other first _ _ _ (λ d. lock_key-ne-data_key u k s (sym d))
            ∙ others u n),
        get_lock_same b first k (
              ap (λ c. find c (lock_key k)) (sym at)
              ∙ find-insert_other first _ _ _ (λ d. lock_key-ne-data_key k k s (sym d)))
            ∙ read,
      )
  | inr q ↦
      let at : first ≡ b = cc (rw q at e) in
      (
        (λ u. ap (λ c. versions c u) (sym at) ∙ history u),
        (λ u n. ap (λ c. find c (lock_key u)) (sym at) ∙ others u n),
        get_lock_same b first k (ap (λ c. find c (lock_key k)) (sym at)) ∙ read,
      )
]
  where
    lock : LockRecord
    lock = record { start_ts = s; op = op; wall_ms = w; primary = p }

    first : Contents
    first = insert a (lock_key k) (encode_lock lock)

    fits : LockFits lock
    fits = record {
      start_ts = i.bound;
      op = elim i.op [ inl e ↦ omega (arith, e) | inr e ↦ omega (arith, e) ];
      wall_ms = i.wall_ms;
      primary = i.primary;
    }

    history : (u : List ℕ) → versions first u ≡ versions a u
    history u = versions-insert_foreign a _ _ u (lock_key-IsForeign k u)

    others : (u : List ℕ) → k ≢ u → find first (lock_key u) ≡ find a (lock_key u)
    others u n = find-insert_other a _ _ _ (λ e. n (lock_key-injective k u e))

    read : get_lock first k ≡ done (some lock)
    read =
        rw
          (
            find-insert_self a (lock_key k) (encode_lock lock),
            lock_in,
            decode_lock-encode_lock lock fits,
          )
          refl

module _ (K : List Version → Type 0) (t s : ℕ) (u : List ℕ)
    (blocks : (h : List Version) → All IsVersion h → K h → All (Free s) h → ⊥)
    (repeats : (h : List Version) → K h → All (Foreign s) h → K (insert_version (s, marker_of s) h))
    (stays : (c : ℕ) (rec : WriteRecord) (h : List Version)
      → c ≢ t
      → rec.start_ts ≢ s
      → K h
      → K (insert_version (c, rec) h)) where
  prewrite-Over :
      (a b : Contents) (k value : List ℕ) (op start_ts : ℕ) (p : List ℕ) (w : ℕ)
      → IsStore a
      → IsPrewrite op start_ts p w
      → apply_prewrite a k value op start_ts p w ≡ done b
      → Over K s u a
      → Over K s u b
  prewrite-Over a b k value op start_ts p w v i h o =
      elim (apply_prewrite_cases a b k value op start_ts p w v h) [
        | inl e ↦ subst (Over K s u) (sym e.0) o
        | inr (n, e) ↦
            let (history, others, read) = placed_lock a b k value op start_ts p w i e in
            elim (keys_cases k u) [
              | inl is ↦
                  let free : All (Free start_ts) (versions a u) =
                    subst (λ x. All (Free start_ts) (versions a x)) is
                      (apply_prewrite-Free a b k value op start_ts p w v h) in
                  let other : start_ts ≢ s = λ d.
                    blocks (versions a u) (v.keys u).fit o.kept
                      (subst (λ x. All (Free x) (versions a u)) d free) in
                  record {
                    kept = subst K (sym (history u)) o.kept;
                    unlocked = λ l g d.
                        let got : get_lock b k ≡ done (some l) = ap (get_lock b) is ∙ g in
                        other (cc (got, read, d));
                  }
              | inr apart ↦ Over-same K s u a b (history u) (others u apart) o
            ]
      ]

  commit-Over :
      (a b : Contents) (k : List ℕ) (start_ts c : ℕ)
      → IsStore a
      → start_ts ≤ c
      → c < 2 ^ 64
      → (c ≡ t → start_ts ≡ s)
      → apply_commit a k start_ts c ≡ done b
      → Over K s u a
      → Over K s u b
  commit-Over a b k start_ts c v after bound own h o =
      elim (apply_commit_cases a b k start_ts c h) [
        | inl e ↦ subst (Over K s u) (sym e) o
        | inr (l, g, same, e) ↦
            let fit = commit-IsVersion a k start_ts c l v after bound g same in
            let put =
              put_write-Over K s u a k c (commit_record l.op start_ts) v.sorted v.writes fit
                (λ is.
                  let other : start_ts ≢ s =
                    λ d. o.unlocked l (ap (get_lock a) (sym is) ∙ g) (same ∙ d) in
                  stays c _ (versions a u) (λ d. other (own d)) other o.kept)
                o in
            subst (Over K s u) e (drop_lock-Over K s u _ k (insert-IsSorted a _ _ v.sorted) put)
      ]

  rollback-Over :
      (a b : Contents) (k : List ℕ) (start_ts : ℕ)
      → IsStore a
      → 1 ≤ start_ts
      → start_ts < 2 ^ 64
      → (start_ts ≡ t → start_ts ≡ s)
      → apply_rollback a k start_ts ≡ done b
      → Over K s u a
      → Over K s u b
  rollback-Over a b k start_ts v pos bound own h o =
      let (l, g, free, e) = apply_rollback_cases a b k start_ts v h in
      let first = unlock-Over K s u a k start_ts l v.sorted o in
      let store = unlock-IsStore a k start_ts v bound free l in
      elim e [
        | inl (d, m) ↦ subst (Over K s u) d first
        | inr d ↦ subst (Over K s u) d (
            put_write-Over K s u (unlock a k start_ts l) k start_ts (marker_of start_ts)
              store.sorted store.writes (marker-IsVersion start_ts pos bound)
              (λ is.
                let same : versions (unlock a k start_ts l) u ≡ versions a u =
                  subst (λ x. versions (unlock a x start_ts l) u ≡ versions a u) (sym is)
                    (unlock_history a u start_ts l) in
                elim (Bool-cases (start_ts == s)) [
                  | inl q ↦
                      let eq : start_ts ≡ s = ground arith in
                      subst
                        (λ x.
                          K (insert_version (x, marker_of x) (versions (unlock a k start_ts l) u)))
                        (sym eq)
                        (repeats (versions (unlock a k start_ts l) u) first.kept (
                          subst (λ x. All (Foreign x) (versions (unlock a k start_ts l) u)) eq
                            (subst (All (Foreign start_ts)) (sym same)
                              (subst (λ x. All (Foreign start_ts) (versions a x)) is free))))
                  | inr q ↦
                      let other : start_ts ≢ s = λ d. ground arith in
                      stays start_ts _ _ (λ d. other (own d)) other first.kept
                ])
              first)
      ]

  Step-Over :
      {a b : Contents} (step : Step 0 a b)
      → IsStore a
      → Owned t s step
      → Over K s u a
      → Over K s u b
  Step-Over (prewrite a b k x op st p w l i h) v own o = prewrite-Over a b k x op st p w v i h o
  Step-Over (commit a b k st c l after bound h) v own o =
      commit-Over a b k st c v after bound own h o
  Step-Over (rollback a b k st l bound h) v own o =
      rollback-Over a b k st v (omega (arith, l)) bound own h o

  -- What the transaction left stands in every later store.
  pub Run-Over :
      {a b : Contents} (r : Run 0 a b) → IsStore a → OwnedRun t s r → Over K s u a → Over K s u b
  Run-Over here v own o = o
  Run-Over (next r step) v own o = Step-Over step (Run-IsStore v r) own.1 (Run-Over r v own.0 o)
