-- ===== src/Server/Once.antt =====
-- `ApplyLoop` of server/raft_group.cc applies no entry twice.
use flotilladb.Base.{◌≤◌, ◌<◌, ◌≡◌, refl, ap}
use flotilladb.Base.{inl, inr, true, Option, none, some, List, [], ◌∷◌}
use flotilladb.Base.{arith, leb, if◌then◌else◌, leb→le, Bool-cases}
use flotilladb.Base.{All}
use flotilladb.Raft.Types.{LogEntry}
use flotilladb.Server.Apply.{
  Group, apply_command, is_fatal_apply_error, mark_applied, apply_entry, apply_entries,
}
use flotilladb.Status.{Status, Result, done, failed}

-- The applied index of a group covers an entry.
abbrev Covers : Group → LogEntry → Type 0
Covers g e = e.index ≤ g.applied_index

apply_entry_index :
    (g h : Group) (e : LogEntry)
    → apply_entry g e ≡ (h, none)
    → Covers h e × (g.applied_index ≤ h.applied_index)
unfolding apply_entry mark_applied
apply_entry_index g h e eq = elim (Bool-cases (leb e.index g.applied_index)) [
  | inl p ↦
      let same : g ≡ h = cc (rw p at eq) in
      let at : g.applied_index ≡ h.applied_index = ap (λ (x : Group). x.applied_index) same in
      (omega (arith, leb→le _ _ p, at), omega (arith, at))
  | inr p ↦ go (ground arith) (apply_command g e) (rw p at eq)
]
  where
    marked :
        (k : Group)
        → g.applied_index < e.index
        → ◌≡◌ {A = Group × Option Status} (mark_applied k e.index, none) (h, none)
        → Covers h e × (g.applied_index ≤ h.applied_index)
    marked k l q =
        let at : e.index ≡ h.applied_index =
          ap (λ (x : Group × Option Status). x.0.applied_index) q in
        (omega (arith, at), omega (arith, at, l))

    go :
        g.applied_index < e.index
        → (r : Result Group)
        → ◌≡◌ {A = Group × Option Status}
            (elim r [
              | done k ↦ (mark_applied k e.index, none)
              | failed s ↦
                  if is_fatal_apply_error s then (g, some s) else (mark_applied g e.index, none)
            ])
            (h, none)
        → Covers h e × (g.applied_index ≤ h.applied_index)
    go l (done k) q = marked k l q
    go l (failed s) q = elim (Bool-cases (is_fatal_apply_error s)) [
      | inl f ↦ cc (rw f at q)
      | inr f ↦ marked g l (rw f at q)
    ]

apply_entries_index :
    (es : List LogEntry) (g h : Group)
    → apply_entries g es ≡ (h, none)
    → All (Covers h) es × (g.applied_index ≤ h.applied_index)
unfolding apply_entries
apply_entries_index [] g h eq =
    let same : g ≡ h = cc eq in (tt, omega (arith, ap (λ (x : Group). x.applied_index) same))
apply_entries_index (e ∷ es) g h eq =
    go (λ k q. apply_entries_index es k h q) (apply_entry g e) refl eq
  where
    go :
        ((k : Group)
          → apply_entries k es ≡ (h, none)
          → All (Covers h) es × (k.applied_index ≤ h.applied_index))
        → (r : Group × Option Status) → apply_entry g e ≡ r
        → ◌≡◌ {A = Group × Option Status}
            (elim r.1 [ some s ↦ (r.0, some s) | none ↦ apply_entries r.0 es ])
            (h, none)
        → All (Covers h) (e ∷ es) × (g.applied_index ≤ h.applied_index)
    go rest (k, some s) a q = cc q
    go rest (k, none) a q =
        let first = apply_entry_index g k e a in
        let later = rest k q in
        ((omega (arith, first.0, later.1), later.0), omega (arith, first.1, later.1))

skip_entry : (h : Group) (e : LogEntry) → Covers h e → apply_entry h e ≡ (h, none)
unfolding apply_entry
skip_entry h e a = let skip : leb e.index h.applied_index ≡ true = ground (arith, a) in rw skip refl

covered_again :
    (es : List LogEntry) (h : Group) → All (Covers h) es → apply_entries h es ≡ (h, none)
unfolding apply_entries
covered_again [] h a = refl
covered_again (e ∷ es) h a =
    rw (skip_entry h e a.0, apply_entries) (rw (skip_entry h e a.0) (covered_again es h a.1))

-- Entries that were applied without a fatal error, in any order and with any commands, change
-- nothing when they come again.
pub apply_entries_once :
    (es : List LogEntry) (g h : Group)
    → apply_entries g es ≡ (h, none)
    → apply_entries h es ≡ (h, none)
apply_entries_once es g h eq = covered_again es h (apply_entries_index es g h eq).0
