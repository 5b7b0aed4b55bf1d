-- ===== src/Txn/Searches.antt =====
-- The searches of txn/txn_ops.cc over a history.
use flotilladb.Base.{ℕ, ◌^◌, ◌≤◌, ◌<◌, ◌≡◌, refl, sym, ◌∙◌}
use flotilladb.Base.{◌≢◌, ◌⊎◌, inl, inr, true, false, List, [], ◌∷◌}
use flotilladb.Base.{arith, ltb, leb, ◌==◌, ltb→lt, Bool-cases, Option-cases}
use flotilladb.Base.{All}
use flotilladb.Store.{Contents}
use flotilladb.Store.Laws.{Above, IsSorted}
use flotilladb.Txn.Codec.{WriteRecord, write_key}
use flotilladb.Txn.Ops.{see_write, match_outcome, max_ts}
use flotilladb.Txn.History.{Version, version_of, versions, HasWrites, version_of-key}
use flotilladb.Txn.History.Walk.{fold_until, at_or_below}
use flotilladb.Txn.History.Search.{write_key-order}
use flotilladb.Txn.History.Update.{insert_version}
use flotilladb.Txn.Valid.{Older, IsVersion}

-- The timestamps of a history descend.
abbrev pub Descends : List Version → Type 0
Descends [] = Unit {0}
Descends (v ∷ h) = All (λ w. w.0 < v.0) h × Descends h

versions_below :
    (c : Contents) (u : List ℕ) (ts : ℕ)
    → ts < 2 ^ 64
    → HasWrites c
    → Above (write_key u ts) c
    → All (λ w. w.0 < ts) (versions c u)
unfolding versions
versions_below [] u ts b w a = tt
versions_below ((k, v) ∷ c) u ts b w a = elim (Option-cases (version_of k v u)) [
  | inl e ↦ rw e (versions_below c u ts b w.1 a.1)
  | inr ((t, r), e) ↦
      let at = version_of-key k v u t r w.0 e in
      let here : ltb t ts ≡ true = sym (write_key-order u ts t b at.1) ∙ (rw at.0 at a.0) in
      rw e (ltb→lt t ts here, versions_below c u ts b w.1 a.1)
]

pub versions-Descends :
    (c : Contents) (u : List ℕ) → IsSorted c → HasWrites c → Descends (versions c u)
unfolding versions
versions-Descends [] u o w = tt
versions-Descends ((k, v) ∷ c) u o w = elim (Option-cases (version_of k v u)) [
  | inl e ↦ rw e (versions-Descends c u o.1 w.1)
  | inr ((t, r), e) ↦
      let at = version_of-key k v u t r w.0 e in
      rw e (versions_below c u t at.1 w.1 (rw at.0 at o.0), versions-Descends c u o.1 w.1)
]

pub at_or_below-max : (h : List Version) → All IsVersion h → at_or_below max_ts h ≡ h
unfolding at_or_below
at_or_below-max [] f = refl
at_or_below-max ((c, r) ∷ h) f =
    let all : leb c max_ts ≡ true = ground (arith, f.0.bound) in
    rw (all, at_or_below-max h f.1) refl

older_below : (s t : ℕ) (h : List Version) → t ≤ s → All (λ w. w.0 < t) h → All (Older s) h
older_below s t [] b a = tt
older_below s t ((c, r) ∷ h) b a = ((λ n. omega (arith, a.0)), older_below s t h b a.1)

-- Neither a commit at or after `s`, nor the rollback marker of the transaction that started at `s`
abbrev pub Free : ℕ → Version → Type 0
Free s v = (v.1.kind ≢ 3 → v.0 < s) × (v.1.kind ≡ 3 → v.1.start_ts ≢ s)

Free-below :
    (s t : ℕ) (h : List Version) → t ≤ s → All IsVersion h → All (λ w. w.0 < t) h → All (Free s) h
Free-below s t [] b f a = tt
Free-below s t ((c, r) ∷ h) b f a = (
  ((λ n. omega (arith, a.0)), (λ n e. absurd (omega (arith, a.0, f.0.started)))),
  Free-below s t h b f.1 a.1,
)

see_write_flag : (s n : ℕ) (h : List Version) → (fold_until (see_write s) (n, true) h).1 ≡ true
unfolding fold_until see_write
see_write_flag s n [] = refl
see_write_flag s n ((c, r) ∷ h) = ground (arith, see_write_flag s n h)

-- Where `ApplyPrewrite` goes on past its search, the history is free for its transaction.
pub see_write_sound :
    (s : ℕ) (h : List Version)
    → Descends h
    → All IsVersion h
    → (fold_until (see_write s) (0, false) h).1 ≡ false
    → (fold_until (see_write s) (0, false) h).0 < s
    → All (Free s) h
unfolding fold_until see_write
see_write_sound s [] d f e l = tt
see_write_sound s ((c, r) ∷ h) d f e l = elim (Bool-cases (r.kind == 3)) [
  | inl k ↦ elim (Bool-cases (r.start_ts == s)) [
    | inl own ↦ absurd (ground (arith, see_write_flag s 0 h))
    | inr other ↦ elim (Bool-cases (ltb s c)) [
      | inl p ↦
          ((ground arith, ground arith), see_write_sound s h d.1 f.1 (ground arith) (ground arith))
      | inr p ↦ ((ground arith, ground arith), Free-below s c h (ground arith) f.1 d.0)
    ]
  ]
  | inr k ↦
      let low : c < s = ground arith in
      ((ground arith, ground arith), Free-below s c h (omega (arith, low)) f.1 d.0)
]

-- A commit of the transaction that started at `s`
abbrev pub Foreign : ℕ → Version → Type 0
Foreign s v = v.1.kind ≢ 3 → v.1.start_ts ≢ s

Foreign-below :
    (s t : ℕ) (h : List Version)
    → t ≤ s
    → All (λ w. w.0 < t) h
    → All IsVersion h
    → All (Foreign s) h
Foreign-below s t [] b a f = tt
Foreign-below s t ((c, r) ∷ h) b a f =
    ((λ n e. absurd (omega (arith, a.0, f.0.started))), Foreign-below s t h b a.1 f.1)

-- Where `FindTxnOutcome` finds no commit of the transaction, the history has none.
pub match_outcome_sound :
    (s : ℕ) (h : List Version)
    → Descends h
    → All IsVersion h
    → (fold_until (match_outcome s) (0, false) h).0 ≡ 0
    → All (Foreign s) h
unfolding fold_until match_outcome
match_outcome_sound s [] d f e = tt
match_outcome_sound s ((c, r) ∷ h) d f e = elim (Bool-cases (r.start_ts == s)) [
  | inl own ↦ elim (Bool-cases (r.kind == 3)) [
    | inl k ↦
        ((λ n. absurd (n (ground arith))), Foreign-below s c h (ground (arith, f.0.marker)) d.0 f.1)
    | inr k ↦
        let none_here : c ≡ 0 = ground arith in
        absurd (omega (arith, none_here, f.0.positive, f.0.started))
  ]
  | inr other ↦ elim (Bool-cases (ltb s c)) [
    | inl p ↦ ((λ n. ground arith), match_outcome_sound s h d.1 f.1 (ground arith))
    | inr p ↦ ((λ n. ground arith), Foreign-below s c h (ground arith) d.0 f.1)
  ]
]

-- Where there is no commit of the transaction, none is found.
pub match_outcome_complete :
    (s : ℕ) (h : List Version)
    → All (Foreign s) h
    → (fold_until (match_outcome s) (0, false) h).0 ≡ 0
unfolding fold_until match_outcome
match_outcome_complete s [] f = refl
match_outcome_complete s ((c, r) ∷ h) f = elim (Bool-cases (r.start_ts == s)) [
  | inl own ↦
      let k : (r.kind == 3) ≡ true = elim (Bool-cases (r.kind == 3)) [
        | inl y ↦ y
        | inr n ↦ absurd (f.0 (ground arith) (ground arith))
      ] in
      ground arith
  | inr other ↦ ground (arith, match_outcome_complete s h f.1)
]

-- The history has the rollback marker of the transaction that started at `s`.
abbrev pub Marked : ℕ → List Version → Type 0
Marked s [] = ⊥
Marked s (v ∷ h) = ((v.1.kind ≡ 3) × (v.1.start_ts ≡ s)) ⊎ Marked s h

pub Marked-Free : (s : ℕ) (h : List Version) → Marked s h → All (Free s) h → ⊥
Marked-Free s [] m f = m
Marked-Free s (v ∷ h) (inl m) f = f.0.1 m.0 m.1
Marked-Free s (v ∷ h) (inr m) f = Marked-Free s h m f.1

pub match_outcome-Marked :
    (s : ℕ) (h : List Version) → (fold_until (match_outcome s) (0, false) h).1 ≡ true → Marked s h
unfolding fold_until match_outcome
match_outcome-Marked s [] e = cc
match_outcome-Marked s ((c, r) ∷ h) e = elim (Bool-cases (r.start_ts == s)) [
  | inl own ↦ elim (Bool-cases (r.kind == 3)) [
    | inl k ↦ inl (ground arith, ground arith)
    | inr k ↦ absurd (ground arith)
  ]
  | inr other ↦ elim (Bool-cases (ltb s c)) [
    | inl p ↦ inr (match_outcome-Marked s h (ground arith))
    | inr p ↦ absurd (ground arith)
  ]
]

pub Marked-insert_version :
    (s : ℕ) (rec : WriteRecord) (h : List Version)
    → rec.kind ≡ 3
    → rec.start_ts ≡ s
    → Marked s (insert_version (s, rec) h)
unfolding insert_version
Marked-insert_version s rec [] k e = inl (k, e)
Marked-insert_version s rec ((c, r) ∷ h) k e = elim (Bool-cases (ltb s c)) [
  | inl p ↦ rw p (inr (Marked-insert_version s rec h k e))
  | inr p ↦
      rw p (elim (Bool-cases (ltb c s)) [ inl q ↦ rw q (inl (k, e)) | inr q ↦ rw q (inl (k, e)) ])
]

-- A commit of the transaction that took its place is found.
pub match_outcome_committed :
    (s c : ℕ) (rec : WriteRecord) (h : List Version)
    → rec.kind ≢ 3
    → rec.start_ts ≡ s
    → s ≤ c
    → All IsVersion h
    → All (Older s) h
    → (fold_until (match_outcome s) (0, false) (insert_version (c, rec) h)).0 ≡ c
unfolding fold_until match_outcome insert_version
match_outcome_committed s c rec [] k e l i o = ground arith
match_outcome_committed s c rec ((d, r) ∷ h) k e l i o = elim (Bool-cases (ltb c d)) [
  | inl p ↦
      let other : (r.start_ts == s) ≡ false = elim (Bool-cases (r.kind == 3)) [
        | inl m ↦ ground (arith, i.0.marker)
        | inr m ↦ absurd (ground (arith, o.0))
      ] in
      let on : ltb s d ≡ true = ground arith in
      rw p (ground (arith, match_outcome_committed s c rec h k e l i.1 o.1))
  | inr p ↦
      rw p
        (elim (Bool-cases (ltb d c)) [ inl q ↦ rw q (ground arith) | inr q ↦ rw q (ground arith) ])
]
