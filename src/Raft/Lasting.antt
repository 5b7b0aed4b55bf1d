-- ===== src/Raft/Lasting.antt =====
-- What a sequence of changes keeps, whatever the order: the committed entries, the term and the
-- vote.
use flotilladb.Base.{ℕ, ◌-◌, ◌≤◌, ◌<◌, ◌≡◌, refl, sym, ap, ◌∙◌}
use flotilladb.Base.{◌≢◌, inl, inr}
use flotilladb.Base.{arith}
use flotilladb.Base.{get_elem?, drop, length-drop, get_elem?-take, get_elem?-append, get_elem?-drop}
use flotilladb.Raft.Types.{Raft, HardState, Snapshot}
use flotilladb.Raft.Log.{entry_at}
use flotilladb.Raft.Valid.{IsValid, Indexed-drop}
use flotilladb.Raft.Change.{
  Change, Changes, Safe, here, next, quiet, ballot, push, cut, advance, replace, Ballot,
}

-- From `r` to `s` neither the base nor the commit index falls, and each committed entry that `s`
-- still holds is the one that `r` held.
pub record Extends (r s : Raft) : Type 0 where
  pub base_grows : r.base.last_index ≤ s.base.last_index
  pub commit_grows : r.commit ≤ s.commit
  pub keeps : (i : ℕ) → s.base.last_index < i → i ≤ r.commit → entry_at s i ≡ entry_at r i

pub Extends-refl : (r : Raft) → Extends r r
Extends-refl r = record {
  base_grows = omega arith;
  commit_grows = omega arith;
  keeps = λ i h k. refl;
}

pub Extends-trans : {r s t : Raft} → Extends r s → Extends s t → Extends r t
Extends-trans {r} {s} {t} p q = record {
  base_grows = omega (arith, p.base_grows, q.base_grows);
  commit_grows = omega (arith, p.commit_grows, q.commit_grows);
  keeps = λ i h k.
      q.keeps i h (omega (arith, p.commit_grows)) ∙ p.keeps i (omega (arith, q.base_grows)) k;
}

same_base : {a b : Snapshot} → a ≡ b → a.last_index ≡ b.last_index
same_base e = ap (λ (b : Snapshot). b.last_index) e

Change-Extends : {r s : Raft} → IsValid r → Change r s → Extends r s
unfolding entry_at
Change-Extends v (quiet (hl, hb, hc, he) _ _) = record {
  base_grows = rw hb (omega arith);
  commit_grows = rw hc (omega arith);
  keeps = λ i h k. rw (hl, hb) refl;
}
Change-Extends v (ballot (hl, hb, hc, he) _ _ _) = record {
  base_grows = rw hb (omega arith);
  commit_grows = rw hc (omega arith);
  keeps = λ i h k. rw (hl, hb) refl;
}
Change-Extends {r} v (push e (hl, hb, hc, he) _ _ hi) = record {
  base_grows = rw hb (omega arith);
  commit_grows = rw hc (omega arith);
  keeps = λ i h k.
      rw (hl, hb) (get_elem?-append r.log _ _ (omega (arith, v.commit_last, same_base hb)));
}
Change-Extends {r} v (cut index (hl, hb, hc, he) _ _ above) = record {
  base_grows = rw hb (omega arith);
  commit_grows = rw hc (omega arith);
  keeps =
      λ i h k. rw (hl, hb) (get_elem?-take _ r.log _ (omega (arith, v.base_commit, same_base hb)));
}
Change-Extends v (advance (hl, hb, he) _ _ up lim) = record {
  base_grows = rw hb (omega arith);
  commit_grows = up;
  keeps = λ i h k. rw (hl, hb) refl;
}
Change-Extends v (replace (hl, hc, he) _ _ above) = record {
  base_grows = omega (arith, v.base_commit);
  commit_grows = omega arith;
  keeps = λ i h k. absurd (omega arith);
}

-- The term never falls, and a vote once cast stands as long as the term.
pub record Faithful (h k : HardState) : Type 0 where
  pub term_grows : h.term ≤ k.term
  pub vote_stands : h.term ≡ k.term → h.voted_for ≢ 0 → k.voted_for ≡ h.voted_for

pub Faithful-refl : {h k : HardState} → k ≡ h → Faithful h k
Faithful-refl {h} e = rw e (record { term_grows = omega arith; vote_stands = λ p q. refl })

pub Faithful-trans : {h k l : HardState} → Faithful h k → Faithful k l → Faithful h l
Faithful-trans {h} {k} {l} p q = record {
  term_grows = omega (arith, p.term_grows, q.term_grows);
  vote_stands = λ e n.
      let first = p.vote_stands (omega (arith, p.term_grows, q.term_grows)) n in
      q.vote_stands (omega (arith, p.term_grows, q.term_grows)) (λ z. n (sym first ∙ z)) ∙ first;
}

Ballot-Faithful : {h k : HardState} → Ballot h k → Faithful h k
Ballot-Faithful (inl up) = record {
  term_grows = omega arith;
  vote_stands = λ e n. absurd (omega arith);
}
Ballot-Faithful (inr (e, z)) = record {
  term_grows = omega arith;
  vote_stands = λ _ n. absurd (n z);
}

Change-Faithful : {r s : Raft} → Change r s → Faithful r.hard s.hard
Change-Faithful (quiet _ h _) = Faithful-refl h.0
Change-Faithful (ballot _ _ _ b) = Ballot-Faithful b
Change-Faithful (push _ _ h _ _) = Faithful-refl h.0
Change-Faithful (cut _ _ h _ _) = Faithful-refl h.0
Change-Faithful (advance _ h _ _ _) = Faithful-refl h.0
Change-Faithful (replace _ h _ _) = Faithful-refl h.0

pub Changes-Extends : {r s : Raft} → Changes r s → Extends r s
Changes-Extends here = Extends-refl _
Changes-Extends (next p v c) = Extends-trans (Changes-Extends p) (Change-Extends v c)

pub Changes-Faithful : {r s : Raft} → Changes r s → Faithful r.hard s.hard
Changes-Faithful here = Faithful-refl refl
Changes-Faithful (next p v c) = Faithful-trans (Changes-Faithful p) (Change-Faithful c)

-- A valid state, with the committed entries, the term and the vote of `r` kept
pub record Lawful (r s : Raft) : Type 0 where
  pub valid : IsValid s
  pub extends : Extends r s
  pub faithful : Faithful r.hard s.hard

pub Lawful-refl : {r : Raft} → IsValid r → Lawful r r
Lawful-refl v = record { valid = v; extends = Extends-refl _; faithful = Faithful-refl refl }

pub Lawful-trans : {r s t : Raft} → Lawful r s → Lawful s t → Lawful r t
Lawful-trans p q = record {
  valid = q.valid;
  extends = Extends-trans p.extends q.extends;
  faithful = Faithful-trans p.faithful q.faithful;
}

pub Safe-Lawful : {r s : Raft} → Safe r s → Lawful r s
Safe-Lawful p = record {
  valid = p.valid;
  extends = Changes-Extends p.path;
  faithful = Changes-Faithful p.path;
}

-- Committed entries up to the new base move from the log to the base.
pub compact-Lawful :
    {r s : Raft}
    → IsValid r
    → r.base.last_index < s.base.last_index
    → s.base.last_index ≤ r.commit
    → s.log ≡ drop (s.base.last_index - r.base.last_index) r.log
    → s.commit ≡ r.commit
    → s.last_emitted ≡ r.last_emitted
    → s.hard ≡ r.hard
    → Lawful r s
unfolding entry_at
compact-Lawful {r} {s} v above lim hl hc he hh = record {
  valid = record {
    indexed = rw hl (Indexed-drop _ _ _ r.log (omega arith) v.indexed);
    base_commit = rw hc lim;
    commit_last =
        rw (hc, hl)
          (omega (arith, v.commit_last, length-drop (s.base.last_index - r.base.last_index) r.log));
    all_emitted = rw (he, hc) v.all_emitted;
  };
  extends = record {
    base_grows = omega arith;
    commit_grows = rw hc (omega arith);
    keeps = λ i h k. rw hl (
        get_elem?-drop (s.base.last_index - r.base.last_index) r.log (i - s.base.last_index - 1)
        ∙ ap (get_elem? r.log) (omega arith));
  };
  faithful = Faithful-refl hh;
}
