-- ===== src/Txn/History/Update.antt =====
-- What the writes of txn/txn_ops.cc do to the history of a user key.
use flotilladb.Base.{ℕ, ◌^◌, ◌<◌, ◌≡◌, refl, sym, ap, subst, ◌∙◌}
use flotilladb.Base.{inl, inr, true, false, none, some, List, [], ◌∷◌, ◌++◌}
use flotilladb.Base.{ltb, if◌then◌else◌, Bool-cases, Option-cases}
use flotilladb.Base.Bytes.{less, less_same, less_asym}
use flotilladb.Store.{Contents, insert, remove}
use flotilladb.Store.Laws.{Above, IsSorted, Above-trans}
use flotilladb.Txn.Codec.{WriteRecord, write_key, write_prefix}
use flotilladb.Txn.History.{
  Version, version_of, put_front, versions, IsWrite, HasWrites, version_of-key,
}
use flotilladb.Txn.History.Search.{later, write_key-order}

-- A version in its place among versions that descend by their timestamps; an equal one is replaced.
unfoldable pub insert_version : Version → List Version → List Version
insert_version (ts, rec) [] = (ts, rec) ∷ []
insert_version (ts, rec) ((c, r) ∷ h) =
    let rest = insert_version (ts, rec) h in
    if ltb ts c then (c, r) ∷ rest else if ltb c ts then (ts, rec) ∷ (c, r) ∷ h else (ts, rec) ∷ h

-- A key that is no version of the user key whatever its value
abbrev pub IsForeign : List ℕ → List ℕ → Type 0
IsForeign k user_key = (v : List ℕ) → version_of k v user_key ≡ none

pub versions-insert_foreign :
    (c : Contents) (k v user_key : List ℕ)
    → IsForeign k user_key
    → versions (insert c k v) user_key ≡ versions c user_key
unfolding versions insert
versions-insert_foreign [] k v user_key f = rw (f v) refl
versions-insert_foreign ((j, u) ∷ c) k v user_key f = elim (Bool-cases (less j k)) [
  | inl p ↦ rw (p, versions-insert_foreign c k v user_key f) refl
  | inr p ↦ elim (Bool-cases (less k j)) [
    | inl q ↦ rw (p, q, f v) refl
    | inr q ↦
        rw (p, q, f v)
          (ap (λ x. put_front x (versions c user_key))
            (sym (f u) ∙ ap (λ i. version_of i u user_key) (sym (less_same j k p q))))
  ]
]

pub versions-remove_foreign :
    (c : Contents) (k user_key : List ℕ)
    → IsForeign k user_key
    → versions (remove c k) user_key ≡ versions c user_key
unfolding versions remove
versions-remove_foreign [] k user_key f = refl
versions-remove_foreign ((j, u) ∷ c) k user_key f = elim (Bool-cases (less j k)) [
  | inl p ↦ rw (p, versions-remove_foreign c k user_key f) refl
  | inr p ↦ elim (Bool-cases (less k j)) [
    | inl q ↦ rw (p, q) refl
    | inr q ↦
        rw (p, q)
          (ap (λ x. put_front x (versions c user_key))
            (sym (f u) ∙ ap (λ i. version_of i u user_key) (sym (less_same j k p q))))
  ]
]

pub HasWrites-insert :
    (c : Contents) (k v : List ℕ)
    → ((rest : List ℕ) → k ≡ write_prefix ++ rest → IsWrite k v)
    → HasWrites c
    → HasWrites (insert c k v)
unfolding insert
HasWrites-insert [] k v w ws = (w, tt)
HasWrites-insert ((j, u) ∷ c) k v w ws = elim (Bool-cases (less j k)) [
  | inl p ↦ rw p (ws.0, HasWrites-insert c k v w ws.1)
  | inr p ↦ rw p (elim (Bool-cases (less k j)) [ inl q ↦ rw q (w, ws) | inr q ↦ rw q (w, ws.1) ])
]

pub HasWrites-remove : (c : Contents) (k : List ℕ) → HasWrites c → HasWrites (remove c k)
unfolding remove
HasWrites-remove [] k ws = tt
HasWrites-remove ((j, u) ∷ c) k ws = elim (Bool-cases (less j k)) [
  | inl p ↦ rw p (ws.0, HasWrites-remove c k ws.1)
  | inr p ↦ rw p (elim (Bool-cases (less k j)) [ inl q ↦ rw q ws | inr q ↦ rw q ws.1 ])
]

-- How a version compares with a write key of its user key
earlier :
    (k v user_key : List ℕ) (ts c : ℕ) (rec : WriteRecord)
    → ((rest : List ℕ) → k ≡ write_prefix ++ rest → IsWrite k v)
    → version_of k v user_key ≡ some (c, rec)
    → ts < 2 ^ 64
    → less (write_key user_key ts) k ≡ ltb c ts
earlier k v user_key ts c rec w h b =
    let at = version_of-key k v user_key c rec w h in
    ap (less (write_key user_key ts)) at.0 ∙ write_key-order user_key ts c b at.1

put_version :
    (x y : Version) (h : List Version)
    → ltb x.0 y.0 ≡ false
    → ltb y.0 x.0 ≡ true
    → insert_version x (y ∷ h) ≡ x ∷ y ∷ h
unfolding insert_version
put_version (ts, rec) (c, r) h p q = rw (p, q) refl

skip_version :
    (x y : Version) (h : List Version)
    → ltb x.0 y.0 ≡ true
    → insert_version x (y ∷ h) ≡ y ∷ insert_version x h
unfolding insert_version
skip_version (ts, rec) (c, r) h p = rw p refl

replace_version :
    (x y : Version) (h : List Version)
    → ltb x.0 y.0 ≡ false
    → ltb y.0 x.0 ≡ false
    → insert_version x (y ∷ h) ≡ x ∷ h
unfolding insert_version
replace_version (ts, rec) (c, r) h p q = rw (p, q) refl

module _ (user_key : List ℕ) (ts : ℕ) (rec : WriteRecord) (b : ts < 2 ^ 64) where
  -- Behind a write key stand the older versions of its user key.
  insert_version-front :
      (c : Contents)
      → HasWrites c
      → Above (write_key user_key ts) c
      → insert_version (ts, rec) (versions c user_key) ≡ (ts, rec) ∷ versions c user_key
  unfolding versions
  insert_version-front [] w a = unfold insert_version in refl
  insert_version-front ((k, v) ∷ c) w a = elim (Option-cases (version_of k v user_key)) [
    | inl e ↦ rw e (insert_version-front c w.1 a.1)
    | inr ((t, r), e) ↦ rw e (
        put_version (ts, rec) (t, r) (versions c user_key)
          (sym (later k v user_key ts t r w.0 e b) ∙ less_asym _ _ a.0)
          (sym (earlier k v user_key ts t r w.0 e b) ∙ a.0))
  ]

  -- A write record put under its write key takes its place in the history.
  pub versions-insert :
      (c : Contents) (v : List ℕ)
      → IsSorted c
      → HasWrites c
      → version_of (write_key user_key ts) v user_key ≡ some (ts, rec)
      → versions (insert c (write_key user_key ts) v) user_key
        ≡ insert_version (ts, rec) (versions c user_key)
  unfolding versions insert
  versions-insert [] v o w d = unfold insert_version in (rw d refl)
  versions-insert ((j, u) ∷ c) v o w d = elim (Bool-cases (less j (write_key user_key ts))) [
    | inl p ↦ rw p (elim (Option-cases (version_of j u user_key)) [
      | inl e ↦ rw e (versions-insert c v o.1 w.1 d)
      | inr ((t, r), e) ↦ rw e (
          ap (λ h. (t, r) ∷ h) (versions-insert c v o.1 w.1 d)
          ∙ sym (
              skip_version (ts, rec) (t, r) (versions c user_key)
                (sym (later j u user_key ts t r w.0 e b) ∙ p)))
    ])
    | inr p ↦ rw p (elim (Bool-cases (less (write_key user_key ts) j)) [
      | inl q ↦ rw (q, d) (sym (insert_version-front ((j, u) ∷ c) w (q, Above-trans _ j c q o.0)))
      | inr q ↦
          let same = less_same j (write_key user_key ts) p q in
          rw (q, d)
            (elim (Option-cases (version_of j u user_key)) [
              | inl e ↦ rw e (sym (insert_version-front c w.1 (subst (λ i. Above i c) same o.0)))
              | inr ((t, r), e) ↦ rw e (
                  sym (
                    replace_version (ts, rec) (t, r) (versions c user_key)
                      (sym (later j u user_key ts t r w.0 e b) ∙ p)
                      (sym (earlier j u user_key ts t r w.0 e b) ∙ q)))
            ])
    ])
  ]
