-- ===== src/Txn/Scan.antt =====
-- txn/txn_ops.cc: `TxnScan`, which reads a range of keys at one timestamp.
use flotilladb.Base.{
  ℕ, ◌-◌, ◌≡◌, ◌≤◌, Bool, true, false, not, Option, none, some, List, [], ◌∷◌, ◌++◌, leb, length,
  take, drop, refl, arith, All, All-append, Bool-cases, length-append, subst, inl, inr,
  Option-cases,
}
use flotilladb.Base.Bytes.{less}
use flotilladb.Base.Texts.{codes}
use flotilladb.Status.{Result, done, failed, failure, corruption, ◌>>=◌, >>=-eq-done}
use flotilladb.Store.{Contents, seek}
use flotilladb.Txn.Codec.{
  LockRecord, parse_write_key, same_bytes, decode_lock, lock_prefix, write_prefix, escape_key,
  unescape_key,
}
use flotilladb.Txn.Ops.{ReadResult, locked, found, missing, txn_get}

-- `!end.empty() && user_key >= end`
unfoldable pub past_end : List ℕ → List ℕ → Bool
past_end [] user_key = false
past_end (c ∷ end) user_key = not (less user_key (c ∷ end))

-- The prefix and the escaped key without its terminator
unfoldable pub seek_target : List ℕ → List ℕ → List ℕ
seek_target prefix start =
    let target = prefix ++ escape_key start in take (length target - 2) target

-- `*blocking_lock` and `*blocking_key`, where `*blocked` is set
abbrev pub Blocker : Type 0
Blocker = Option (LockRecord × List ℕ)

-- The loop of the lock pre-pass
unfoldable pub scan_locks : Contents → List ℕ → ℕ → Result Blocker
scan_locks [] end ts = done none
scan_locks ((k, v) ∷ it) end ts = elim (same_bytes (take 2 k) lock_prefix) [
  | false ↦ done none
  | true ↦ elim (unescape_key (drop 2 k)) [
    | none ↦ done none
    | some (user_key, consumed) ↦ elim (past_end end user_key) [
      | true ↦ done none
      | false ↦ elim (decode_lock v) [
        | none ↦ failed (failure corruption (codes "bad lock record"))
        | some lock ↦ elim (leb lock.start_ts ts) [
          | true ↦ done (some (lock, user_key))
          | false ↦ scan_locks it end ts
        ]
      ]
    ]
  ]
]

abbrev pub Rows : Type 0
Rows = List (List ℕ × List ℕ)

pub record ScanResult : Type 0 where
  pub rows : Rows
  pub blocker : Blocker

unfoldable pub is_last : Option (List ℕ) → List ℕ → Bool
is_last none user_key = false
is_last (some last_key) user_key = same_bytes user_key last_key

-- The walk over the write column, from `last_key` and the rows so far
unfoldable pub scan_writes :
    Contents
    → (end : List ℕ) → (ts limit : ℕ) → Contents
    → Option (List ℕ)
    → Rows
    → Result ScanResult
scan_writes db end ts limit [] last rows = done (record { rows = rows; blocker = none })
scan_writes db end ts limit ((k, v) ∷ it) last rows = elim (leb limit (length rows)) [
  | true ↦ done (record { rows = rows; blocker = none })
  | false ↦ elim (parse_write_key k) [
    | none ↦ done (record { rows = rows; blocker = none })
    | some (user_key, commit_ts) ↦ elim (past_end end user_key) [
      | true ↦ done (record { rows = rows; blocker = none })
      | false ↦ elim (is_last last user_key) [
        | true ↦ scan_writes db end ts limit it last rows
        | false ↦ elim (txn_get db user_key ts) [
          | failed s ↦ failed s
          | done (locked lock) ↦ done (record { rows = rows; blocker = some (lock, user_key) })
          | done (found value) ↦
              scan_writes db end ts limit it (some user_key) (rows ++ (user_key, value) ∷ [])
          | done missing ↦ scan_writes db end ts limit it (some user_key) rows
        ]
      ]
    ]
  ]
]

-- `TxnScan` behind the pre-pass
unfoldable pub scan_unless :
    Contents → (start end : List ℕ) → (ts limit : ℕ) → Blocker → Result ScanResult
scan_unless db start end ts limit (some blocker) =
    done (record { rows = []; blocker = some blocker })
scan_unless db start end ts limit none =
    scan_writes db end ts limit (seek db (seek_target write_prefix start)) none []

-- `TxnScan` into no rows
unfoldable pub txn_scan : Contents → (start end : List ℕ) → (ts limit : ℕ) → Result ScanResult
txn_scan db start end ts limit =
    scan_locks (seek db (seek_target lock_prefix start)) end ts
    >>= scan_unless db start end ts limit

-- A row of a scan is what a read of its key gives, within the range.
abbrev pub IsRow : Contents → List ℕ → ℕ → List ℕ × List ℕ → Type 0
IsRow db end ts row = (txn_get db row.0 ts ≡ done (found row.1)) × (past_end end row.0 ≡ false)

module _ (db : Contents) (end : List ℕ) (ts limit : ℕ) (r : ScanResult) where
  Sound : Type 0
  Sound = All (IsRow db end ts) r.rows × (length r.rows ≤ limit)

  stop :
      (rows : Rows) (x : Blocker)
      → All (IsRow db end ts) rows
      → length rows ≤ limit
      → ◌≡◌ {A = Result ScanResult} (done (record { rows = rows; blocker = x })) (done r)
      → Sound
  unfolding Sound
  stop rows x a b e =
      let same : ◌≡◌ {A = ScanResult} (record { rows = rows; blocker = x }) r = cc e in
      subst (λ (y : ScanResult). All (IsRow db end ts) y.rows × (length y.rows ≤ limit)) same (a, b)

  -- What the walk does at a key that it reads
  visit :
      (it : Contents) (u : List ℕ) (rows : Rows)
      → ((last : Option (List ℕ)) (more : Rows)
          → All (IsRow db end ts) more
          → length more ≤ limit
          → scan_writes db end ts limit it last more ≡ done r
          → Sound)
      → past_end end u ≡ false
      → leb limit (length rows) ≡ false
      → All (IsRow db end ts) rows
      → (read : Result ReadResult) → txn_get db u ts ≡ read
      → ◌≡◌ {A = Result ScanResult}
          (elim read [
            | failed s ↦ failed s
            | done (locked lock) ↦ done (record { rows = rows; blocker = some (lock, u) })
            | done (found value) ↦ scan_writes db end ts limit it (some u) (rows ++ (u, value) ∷ [])
            | done missing ↦ scan_writes db end ts limit it (some u) rows
          ])
          (done r)
      → Sound
  visit it u rows go p l a (failed s) t e = cc e
  visit it u rows go p l a (done (locked lock)) t e = stop rows (some (lock, u)) a (ground arith) e
  visit it u rows go p l a (done (found value)) t e =
      go (some u) (rows ++ (u, value) ∷ [])
        (All-append (IsRow db end ts) rows ((u, value) ∷ []) a ((t, p), tt))
        (ground (arith, length-append rows ((u, value) ∷ []))) e
  visit it u rows go p l a (done missing) t e = go (some u) rows a (ground arith) e

  scan_writes_sound :
      (it : Contents) (last : Option (List ℕ)) (rows : Rows)
      → All (IsRow db end ts) rows
      → length rows ≤ limit
      → scan_writes db end ts limit it last rows ≡ done r
      → Sound
  unfolding scan_writes
  scan_writes_sound [] last rows a b e = stop rows none a b e
  scan_writes_sound ((k, v) ∷ it) last rows a b e = elim (Bool-cases (leb limit (length rows))) [
    | inl full ↦ stop rows none a b (rw (full, scan_writes) at e)
    | inr room ↦ elim (Option-cases (parse_write_key k)) [
      | inl p ↦ stop rows none a b (rw (room, p, scan_writes) at e)
      | inr ((u, c), p) ↦ elim (Bool-cases (past_end end u)) [
        | inl q ↦ stop rows none a b (rw (room, p, q, scan_writes) at e)
        | inr q ↦ elim (Bool-cases (is_last last u)) [
          | inl same ↦ scan_writes_sound it last rows a b (rw (room, p, q, same, scan_writes) at e)
          | inr new ↦
              visit it u rows (scan_writes_sound it) q room a (txn_get db u ts) refl
                (rw (room, p, q, new, scan_writes) at e)
        ]
      ]
    ]
  ]

-- A scan gives at most `limit` rows, each of a key before the end and with the value that a read
-- of the key at the same timestamp finds.
pub txn_scan_sound :
    (db : Contents) (start end : List ℕ) (ts limit : ℕ) (r : ScanResult)
    → txn_scan db start end ts limit ≡ done r
    → All (IsRow db end ts) r.rows × (length r.rows ≤ limit)
unfolding txn_scan scan_unless Sound
txn_scan_sound db start end ts limit r e =
    let walk =
      >>=-eq-done (scan_locks (seek db (seek_target lock_prefix start)) end ts)
        (scan_unless db start end ts limit) e in
    go walk.0 walk.2
  where
    go :
        (b : Blocker)
        → scan_unless db start end ts limit b ≡ done r
        → All (IsRow db end ts) r.rows × (length r.rows ≤ limit)
    go none h =
        scan_writes_sound db end ts limit r (seek db (seek_target write_prefix start)) none [] tt
          (omega arith) h
    go (some blocker) h = stop db end ts limit r [] (some blocker) tt (omega arith) h
