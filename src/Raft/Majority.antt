-- ===== src/Raft/Majority.antt =====
-- When the leader commits by counting, and when a follower commits what a message did not cover.
use flotilladb.Base.{ℕ, zero, suc, ◌≤◌, ◌<◌, ◌≡◌, refl, ap, subst}
use flotilladb.Base.{◌⊎◌, inl, inr, true, false}
use flotilladb.Base.{arith, ltb, leb, ◌==◌, ltb→lt, lt→ltb, leb→le, ==_iff, Bool-cases}
use flotilladb.Raft.Types.{Raft, Role, leader, follower, candidate, quorum}
use flotilladb.Raft.Log.{last_index, term_at}
use flotilladb.Raft.Replicate.{emit_committed, advance_from, maybe_advance_commit, holders}
use flotilladb.Raft.Frame.{emit_committed-emitted}
use flotilladb.Raft.Valid.{IsValid}

-- The entry at `n` is of the leader's own term, and a quorum holds the log up to it.
pub record IsCommittable (r : Raft) (n : ℕ) : Type 0 where
  pub own_term : term_at r n ≡ r.hard.term
  pub majority : quorum r ≤ holders r r.config.peers n

emitted_commit :
    (r : Raft) (n : ℕ)
    → IsValid r
    → r.commit < n
    → (emit_committed (record r { commit = n })).commit ≡ n
emitted_commit r n v h =
    let (es, e) = emit_committed-emitted (record r { commit = n }) (omega (arith, v.all_emitted)) in
    ap (λ (s : Raft). s.commit) e

-- The commit index stays, or rises to an index that is committable.
AdvancedTo : Raft → ℕ → Raft → Type 0
AdvancedTo r n s =
    (s.commit ≡ r.commit) ⊎ ((r.commit < s.commit) × (s.commit ≤ n) × IsCommittable r s.commit)

advanced :
    (r : Raft) (n : ℕ)
    → IsValid r
    → r.commit < n
    → IsCommittable r n
    → AdvancedTo r n (emit_committed (record r { commit = n }))
unfolding AdvancedTo
advanced r n v h c = inr (rw (emitted_commit r n v h) (h, omega arith, c))

raise : (r s : Raft) (n : ℕ) → AdvancedTo r n s → AdvancedTo r (suc n) s
unfolding AdvancedTo
raise r s n (inl e) = inl e
raise r s n (inr (a, b, c)) = inr (a, omega arith, c)

advance_from_sound : (r : Raft) (n : ℕ) → IsValid r → AdvancedTo r n (advance_from n r)
unfolding advance_from
advance_from_sound r zero v = unfold AdvancedTo in inl refl
advance_from_sound r (suc n) v = elim (Bool-cases (ltb r.commit (suc n))) [
  | inr e ↦ rw e (unfold AdvancedTo in inl refl)
  | inl e ↦ rw e (elim (Bool-cases (term_at r (suc n) == r.hard.term)) [
    | inr d ↦ rw d (unfold AdvancedTo in inl refl)
    | inl d ↦ rw d (elim (Bool-cases (leb (quorum r) (holders r r.config.peers (suc n)))) [
      | inl c ↦ rw c (
          advanced r (suc n) v (ltb→lt r.commit _ e)
            (record { own_term = (==_iff _ _).0 d; majority = leb→le (quorum r) _ c }))
      | inr c ↦ rw c (raise r _ n (advance_from_sound r n v))
    ])
  ])
]

advance_from_complete :
    (r : Raft) (n k : ℕ)
    → IsValid r
    → r.commit < k
    → k ≤ n
    → IsCommittable r k
    → ((j : ℕ) → k < j → j ≤ n → term_at r j ≡ r.hard.term)
    → k ≤ (advance_from n r).commit
unfolding advance_from
advance_from_complete r zero k v up lim c own = absurd (omega arith)
advance_from_complete r (suc n) k v up lim c own =
    elim (Bool-cases (leb (quorum r) (holders r r.config.peers (suc n)))) [
      | inl d ↦ rw (test, mine, d) (rw (emitted_commit r (suc n) v (omega arith)) lim)
      | inr d ↦
          rw (test, mine, d)
            (advance_from_complete r n k v up (below d) c (λ j a b. own j a (omega arith)))
    ]
  where
    test : ltb r.commit (suc n) ≡ true
    test = lt→ltb r.commit (suc n) (omega arith)

    at_top : k ≡ suc n → term_at r (suc n) ≡ r.hard.term
    at_top e = subst (λ (i : ℕ). term_at r i ≡ r.hard.term) e c.own_term

    mine : (term_at r (suc n) == r.hard.term) ≡ true
    mine = (==_iff _ _).1 (elim (Bool-cases (k == suc n)) [
      | inl e ↦ at_top ((==_iff _ _).0 e)
      | inr e ↦ own (suc n) (ground arith) (omega arith)
    ])

    below : leb (quorum r) (holders r r.config.peers (suc n)) ≡ false → k ≤ n
    below d = elim (Bool-cases (k == suc n)) [
      | inl e ↦
          let q : quorum r ≤ holders r r.config.peers (suc n) =
            subst (λ (i : ℕ). quorum r ≤ holders r r.config.peers i) ((==_iff _ _).0 e)
              c.majority in
          absurd (ground arith)
      | inr e ↦ ground arith
    ]

as_leader : (r : Raft) → r.role ≡ leader → maybe_advance_commit r ≡ advance_from (last_index r) r
unfolding maybe_advance_commit
as_leader r h = go r.role h
  where
    go :
        (role : Role)
        → role ≡ leader
        → elim role [ leader ↦ advance_from (last_index r) r | _ ↦ r ]
          ≡ advance_from (last_index r) r
    go leader e = refl
    go follower e = cc
    go candidate e = cc

-- `MaybeAdvanceCommit` on a valid leader: the commit index stays, or rises to an index within the
-- log whose entry is of the leader's own term and which a quorum of the peers holds.
pub maybe_advance_commit_sound :
    (r : Raft)
    → IsValid r
    → r.role ≡ leader
    → ((maybe_advance_commit r).commit ≡ r.commit)
      ⊎ ((r.commit < (maybe_advance_commit r).commit)
          × ((maybe_advance_commit r).commit ≤ last_index r)
          × IsCommittable r (maybe_advance_commit r).commit)
unfolding AdvancedTo
maybe_advance_commit_sound r v h = rw (as_leader r h) (advance_from_sound r (last_index r) v)

-- `MaybeAdvanceCommit` on a valid leader commits every index `k` of the log above the commit index
-- whose entry is of the own term and which a quorum of the peers holds, if every entry behind `k`
-- is of the own term.
pub maybe_advance_commit_complete :
    (r : Raft) (k : ℕ)
    → IsValid r
    → r.role ≡ leader
    → r.commit < k
    → k ≤ last_index r
    → IsCommittable r k
    → ((j : ℕ) → k < j → j ≤ last_index r → term_at r j ≡ r.hard.term)
    → k ≤ (maybe_advance_commit r).commit
maybe_advance_commit_complete r k v h up lim c own =
    rw (as_leader r h) (advance_from_complete r (last_index r) k v up lim c own)
