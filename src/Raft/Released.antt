-- ===== src/Raft/Released.antt =====
-- raft.cc built with NDEBUG, as the default build type does: the assertions are left out, and the
-- code goes on.
use flotilladb.Base.{ℕ, ◌+◌, ◌-◌, ◌≤◌, ◌<◌, ◌≡◌, refl, ap, ◌∙◌, ◌≢◌}
use flotilladb.Base.{inl, inr, true, false, Option, none, some, List, [], ◌∷◌, ◌++◌}
use flotilladb.Base.{leb→le, arith, ltb, leb, ◌==◌, if◌then◌else◌, Bool-cases}
use flotilladb.Base.{zero, suc, length-append, length, take, drop, get_elem?, length-take}
use flotilladb.Raft.Types.{Raft, LogEntry, HardState, Snapshot, Config}
use flotilladb.Raft.Log.{last_index, entry_at, term_at}
use flotilladb.Raft.Core.{reset_election_timer}
use flotilladb.Raft.Node.{compact_to, numbered, initial, create}
use flotilladb.Raft.Follower.{truncate_log, push_entry, merge_entry, merge_entries}

-- One round of the loop over the entries
unfoldable pub merge_released : Raft → LogEntry → Raft
merge_released r e =
    if leb e.index (last_index r)
    then (if term_at r e.index == e.term then r else push_entry (truncate_log r e.index) e)
    else push_entry r e

unfoldable pub merge_all_released : Raft → List LogEntry → Raft
merge_all_released r [] = r
merge_all_released r (e ∷ es) = merge_all_released (merge_released r e) es

-- `CompactTo` up to an index of the log
unfoldable pub compact_released : Raft → ℕ → List ℕ → Raft
compact_released r applied_index snapshot_data =
    if leb applied_index r.base.last_index then r else record r {
      log = drop (applied_index - r.base.last_index) r.log;
      base = record {
        last_index = applied_index;
        last_term = term_at r applied_index;
        snap_bytes = snapshot_data;
      };
    }

-- The constructor
unfoldable pub create_released : Config → HardState → List LogEntry → Snapshot → Raft
create_released config hs log base = reset_election_timer (initial config hs log base)

-- Where no assertion fails, both builds do the same.
merge_same : (r s : Raft) (e : LogEntry) → merge_entry r e ≡ some s → merge_released r e ≡ s
unfolding merge_entry merge_released
merge_same r s e h = elim (Bool-cases (leb e.index (last_index r))) [
  | inr d ↦ cc (rw d at h)
  | inl d ↦ elim (Bool-cases (term_at r e.index == e.term)) [
    | inl t ↦ cc (rw (d, t) at h)
    | inr t ↦ elim (Bool-cases (ltb r.commit e.index)) [
      | inl c ↦ cc (rw (d, t, c) at h)
      | inr c ↦ cc (rw (d, t, c) at h)
    ]
  ]
]

last_element :
    (n : ℕ) (es : List LogEntry) (e : LogEntry)
    → length es ≡ n
    → get_elem? (es ++ e ∷ []) n ≡ some e
last_element zero [] e h = refl
last_element zero (x ∷ es) e h = absurd (omega (arith, h))
last_element (suc n) [] e h = absurd (omega (arith, h))
last_element (suc n) (x ∷ es) e h = last_element n es e (omega (arith, h))

-- The merge of an entry that conflicts with the log makes it the last one of the log.
replaced_at :
    (r : Raft) (e : LogEntry)
    → r.base.last_index < e.index
    → e.index ≤ last_index r
    → term_at r e.index ≢ e.term
    → (entry_at (merge_released r e) e.index ≡ some e) × (last_index (merge_released r e) ≡ e.index)
unfolding merge_released push_entry truncate_log entry_at last_index
replaced_at r e above inside differs =
    let within : leb e.index (r.base.last_index + length r.log) ≡ true = ground arith in
    let conflict : (term_at r e.index == e.term) ≡ false = ground (arith, differs) in
    let size : length (take (e.index - r.base.last_index - 1) r.log)
        ≡ e.index - r.base.last_index - 1 =
      omega (arith, length-take (e.index - r.base.last_index - 1) r.log) in
    rw (within, conflict)
      (
        last_element (e.index - r.base.last_index - 1)
            (take (e.index - r.base.last_index - 1) r.log) e size,
        omega (arith, size, length-append (take (e.index - r.base.last_index - 1) r.log) (e ∷ [])),
      )

merge_all_same :
    (r s : Raft) (es : List LogEntry) → merge_entries r es ≡ some s → merge_all_released r es ≡ s
unfolding merge_entries merge_all_released
merge_all_same r s [] h = cc h
merge_all_same r s (e ∷ es) h =
    go (merge_entry r e) (merge_same r) (λ t. merge_all_same t s es) refl h
  where
    go :
        (o : Option Raft)
        → ((t : Raft) (e : LogEntry) → merge_entry r e ≡ some t → merge_released r e ≡ t)
        → ((t : Raft) → merge_entries t es ≡ some s → merge_all_released t es ≡ s)
        → merge_entry r e ≡ o
        → elim o [ none ↦ none | some t ↦ merge_entries t es ] ≡ some s
        → merge_all_released (merge_released r e) es ≡ s
    go none same ih q h = cc h
    go (some t) same ih q h = ap (λ u. merge_all_released u es) (same t e q) ∙ ih t h

compact_same :
    (r s : Raft) (index : ℕ) (bytes : List ℕ)
    → compact_to r index bytes ≡ some s
    → compact_released r index bytes ≡ s
unfolding compact_to compact_released
compact_same r s index bytes h = elim (Bool-cases (leb index r.base.last_index)) [
  | inl d ↦ cc (rw d at h)
  | inr d ↦ elim (Bool-cases (leb index r.commit)) [
    | inl c ↦ cc (rw (d, c) at h)
    | inr c ↦ cc (rw (d, c) at h)
  ]
]

create_same :
    (config : Config) (hs : HardState) (log : List LogEntry) (base : Snapshot) (r : Raft)
    → create config hs log base ≡ some r
    → create_released config hs log base ≡ r
unfolding create create_released
create_same config hs log base r h = elim (Bool-cases (numbered (base.last_index + 1) log)) [
  | inl d ↦ cc (rw d at h)
  | inr d ↦ cc (rw d at h)
]

asserted :
    (r : Raft) (e : LogEntry)
    → merge_entry r e ≡ none
    → (e.index ≤ last_index r) × (e.index ≤ r.commit) × (term_at r e.index ≢ e.term)
unfolding merge_entry
asserted r e h = elim (Bool-cases (leb e.index (last_index r))) [
  | inr d ↦ cc (rw d at h)
  | inl d ↦ elim (Bool-cases (term_at r e.index == e.term)) [
    | inl t ↦ cc (rw (d, t) at h)
    | inr t ↦ elim (Bool-cases (ltb r.commit e.index)) [
      | inl c ↦ cc (rw (d, t, c) at h)
      | inr c ↦ (leb→le e.index _ d, ground arith, λ q. ground arith)
    ]
  ]
]

-- Where the assertion `e.index > commit_` fails on an entry above the base, its index is committed
-- and the log has an entry of another term there. Without the assertion the new entry replaces
-- that one, and everything behind it is gone from the log.
pub released_replaces :
    (r : Raft) (e : LogEntry)
    → r.base.last_index < e.index
    → merge_entry r e ≡ none
    → (e.index ≤ r.commit)
      × (term_at r e.index ≢ e.term)
      × (entry_at (merge_released r e) e.index ≡ some e)
      × (last_index (merge_released r e) ≡ e.index)
released_replaces r e above h =
    let (inside, low, differs) = asserted r e h in
    let after = replaced_at r e above inside differs in (low, differs, after.0, after.1)
