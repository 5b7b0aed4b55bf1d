-- ===== src/Raft/Agreeing.antt =====
-- The loop over the entries of raft.cc, on entries that do not contradict the committed ones.
use flotilladb.Base.{ℕ, zero, suc, ◌+◌, ◌≤◌, ◌<◌, ◌≡◌, refl, ap, ◌∙◌}
use flotilladb.Base.{inl, inr, true, false, Option, none, some, List, [], ◌∷◌}
use flotilladb.Base.{arith, ltb, leb, ◌==◌, Bool-cases}
use flotilladb.Base.{length, drop}
use flotilladb.Raft.Types.{Snapshot, Raft, LogEntry}
use flotilladb.Raft.Log.{last_index, entry_at, term_at}
use flotilladb.Raft.Follower.{truncate_log, push_entry, merge_entry, merge_entries}
use flotilladb.Raft.Valid.{Indexed, IsValid}
use flotilladb.Raft.Lasting.{Changes-Extends}
use flotilladb.Raft.Merging.{Merged, MergedIf, merge_entry-Merged}

abbrev pub Succeeds : {A : Type 0} → Option A → Type 0
Succeeds none = ⊥
Succeeds (some x) = Unit {0}

pub Succeeds-some : {A : Type 0} (o : Option A) → Succeeds o → (x : A) × (o ≡ some x)
Succeeds-some none h = absurd h
Succeeds-some (some x) h = (x, refl)

-- What Raft's log matching gives: an entry that `r` has committed and still holds is the one that
-- the leader sends.
abbrev pub Agreeing : Raft → List LogEntry → Type 0
Agreeing r [] = Unit {0}
Agreeing r (e ∷ es) =
    (r.base.last_index < e.index → e.index ≤ r.commit → term_at r e.index ≡ e.term) × Agreeing r es

-- Two cores have the same committed entries, as `Agreeing` reads them.
pub record SameCommitted (r s : Raft) : Type 0 where
  pub base : s.base.last_index ≡ r.base.last_index
  pub commit : s.commit ≡ r.commit
  pub terms : (i : ℕ) → r.base.last_index < i → i ≤ r.commit → term_at s i ≡ term_at r i

pub Agreeing-same :
    (r s : Raft) (es : List LogEntry) → SameCommitted r s → Agreeing r es → Agreeing s es
Agreeing-same r s [] c a = tt
Agreeing-same r s (e ∷ es) c a = (
  (λ above low.
      c.terms e.index (omega (arith, c.base)) (omega (arith, c.commit))
      ∙ a.0 (omega (arith, c.base)) (omega (arith, c.commit))),
  Agreeing-same r s es c a.1,
)

pub Agreeing-drop : (r : Raft) (k : ℕ) (es : List LogEntry) → Agreeing r es → Agreeing r (drop k es)
Agreeing-drop r zero es a = a
Agreeing-drop r (suc k) [] a = tt
Agreeing-drop r (suc k) (e ∷ es) a = Agreeing-drop r k es a.1

-- The term of an entry within the log depends on the entry only.
term_at-same :
    (r s : Raft) (i : ℕ)
    → s.base.last_index ≡ r.base.last_index
    → r.base.last_index < i
    → i ≤ r.base.last_index + length r.log
    → i ≤ s.base.last_index + length s.log
    → entry_at s i ≡ entry_at r i
    → term_at s i ≡ term_at r i
unfolding term_at last_index
term_at-same r s i b above lr ls e =
    let nr : (i == r.base.last_index) ≡ false = ground arith in
    let ns : (i == s.base.last_index) ≡ false = ground arith in
    let ar : ltb r.base.last_index i ≡ true = ground arith in
    let bs : ltb s.base.last_index i ≡ true = ground arith in
    let er : leb i (r.base.last_index + length r.log) ≡ true = ground arith in
    let es : leb i (s.base.last_index + length s.log) ≡ true = ground arith in
    rw (nr, ns, ar, bs, er, es, e) refl

CommitIf : Raft → Option Raft → Type 0
CommitIf r none = Unit {0}
CommitIf r (some s) = s.commit ≡ r.commit

merge_entry-CommitIf : (r : Raft) (e : LogEntry) → CommitIf r (merge_entry r e)
unfolding CommitIf merge_entry push_entry truncate_log
merge_entry-CommitIf r e = elim (Bool-cases (leb e.index (last_index r))) [
  | inr d ↦ rw d refl
  | inl d ↦ rw d (elim (Bool-cases (term_at r e.index == e.term)) [
    | inl t ↦ rw t refl
    | inr t ↦
        rw t (elim (Bool-cases (ltb r.commit e.index)) [ inl c ↦ rw c refl | inr c ↦ rw c tt ])
  ])
]

merge_entry-Succeeds :
    (r : Raft) (e : LogEntry)
    → r.base.last_index < e.index
    → (r.base.last_index < e.index → e.index ≤ r.commit → term_at r e.index ≡ e.term)
    → Succeeds (merge_entry r e)
unfolding merge_entry
merge_entry-Succeeds r e above agrees = elim (Bool-cases (leb e.index (last_index r))) [
  | inr d ↦ rw d tt
  | inl d ↦ rw d (elim (Bool-cases (term_at r e.index == e.term)) [
    | inl t ↦ rw t tt
    | inr t ↦ rw t (elim (Bool-cases (ltb r.commit e.index)) [
      | inl c ↦ rw c tt
      | inr c ↦ absurd (let same = agrees above (ground arith) in ground arith)
    ])
  ])
]

Merged-SameCommitted :
    {r s : Raft} (j : ℕ) → IsValid r → Merged r j s → s.commit ≡ r.commit → SameCommitted r s
Merged-SameCommitted {r} {s} j v m c =
    let b : s.base.last_index ≡ r.base.last_index =
      ap (λ (x : Snapshot). x.last_index) m.base_same in
    record {
      base = b;
      commit = c;
      terms = λ i above low.
          term_at-same r s i b above (omega (arith, v.commit_last))
            (omega (arith, c, m.safe.valid.commit_last))
            ((Changes-Extends m.safe.path).keeps i (omega (arith, b)) low);
    }

pub merge_entries-Succeeds :
    {r : Raft} (j : ℕ) (es : List LogEntry)
    → IsValid r
    → r.base.last_index < j
    → j ≤ suc (r.base.last_index + length r.log)
    → Indexed j es
    → Agreeing r es
    → Succeeds (merge_entries r es)
unfolding merge_entries CommitIf
merge_entries-Succeeds j [] v above lim h a = tt
merge_entries-Succeeds {r} j (e ∷ es) v above lim h a =
    go (merge_entry r e) (merge_entry-Merged e v (omega (arith, h.0))) (merge_entry-CommitIf r e)
      (merge_entry-Succeeds r e (omega (arith, h.0)) a.0)
      (λ s. merge_entries-Succeeds {r = s} (suc j) es)
  where
    go :
        (o : Option Raft)
        → MergedIf r e.index o
        → CommitIf r o
        → Succeeds o
        → ((s : Raft)
            → IsValid s
            → s.base.last_index < suc j
            → suc j ≤ suc (s.base.last_index + length s.log)
            → Indexed (suc j) es
            → Agreeing s es
            → Succeeds (merge_entries s es))
        → Succeeds (elim o [ none ↦ none | some s ↦ merge_entries s es ])
    go none m c k ih = absurd k
    go (some s) m c k ih =
        let same = Merged-SameCommitted e.index v m c in
        ih s m.safe.valid (omega (arith, same.base)) (omega (arith, m.reaches, h.0)) h.1
          (Agreeing-same r s es same a.1)
