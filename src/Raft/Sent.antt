-- ===== src/Raft/Sent.antt =====
-- The messages of `SendAppend` are such as `Step` expects them.
use flotilladb.Base.{ℕ, zero, suc, ◌+◌, ◌-◌, ◌≤◌, ◌<◌, ◌≡◌, refl, sym, ap, subst, ◌∙◌}
use flotilladb.Base.{◌⊎◌, inl, inr, some, List, [], ◌∷◌}
use flotilladb.Base.{arith, ltb, leb, Bool-cases}
use flotilladb.Base.{length, get_elem?}
use flotilladb.Raft.Types.{Raft, LogEntry}
use flotilladb.Raft.Log.{last_index, entry_at, term_at}
use flotilladb.Raft.Replicate.{batch, append_message}
use flotilladb.Raft.Valid.{Indexed, IsValid}

get-Indexed :
    (i k : ℕ) (es : List LogEntry)
    → Indexed i es
    → k < length es
    → (e : LogEntry) × (get_elem? es k ≡ some e) × (e.index ≡ i + k)
get-Indexed i k [] h lt = absurd (omega arith)
get-Indexed i zero (e ∷ es) h lt = (e, refl, omega arith)
get-Indexed i (suc k) (e ∷ es) h lt =
    let (x, p, q) = get-Indexed (suc i) k es h.1 (omega arith) in (x, p, omega arith)

-- Every index of a valid log above the base and up to the end has its entry.
pub entry_at-Indexed :
    (r : Raft) (i : ℕ)
    → IsValid r
    → r.base.last_index < i
    → i ≤ last_index r
    → (e : LogEntry) × (entry_at r i ≡ some e) × (e.index ≡ i)
unfolding entry_at last_index
entry_at-Indexed r i v above lim =
    let (e, p, q) =
      get-Indexed (suc r.base.last_index) (i - r.base.last_index - 1) r.log v.indexed
        (omega arith) in
    (e, p, omega arith)

-- What the batch from index `i` on holds: entries numbered from `i`, not too many, and each as the
-- log has it.
pub record IsBatch (r : Raft) (i n : ℕ) (es : List LogEntry) : Type 0 where
  pub indexed : Indexed i es
  pub bounded : (es ≡ []) ⊎ (n + length es ≤ r.config.max_entries_per_msg)
  pub inside : (es ≡ []) ⊎ (i + length es ≤ last_index r + 1)
  pub from_log : (k : ℕ) → k < length es → get_elem? es k ≡ entry_at r (i + k)

empty-IsBatch : (r : Raft) (i n : ℕ) → IsBatch r i n []
empty-IsBatch r i n = record {
  indexed = tt;
  bounded = inl refl;
  inside = inl refl;
  from_log = λ k h. absurd (omega arith);
}

cons-IsBatch :
    (r : Raft) (i n : ℕ) (e : LogEntry) (es : List LogEntry)
    → e.index ≡ i
    → entry_at r i ≡ some e
    → n < r.config.max_entries_per_msg
    → i ≤ last_index r
    → IsBatch r (i + 1) (n + 1) es
    → IsBatch r i n (e ∷ es)
cons-IsBatch r i n e es p q h lim b = record {
  indexed = (p, subst (λ (k : ℕ). Indexed k es) (omega arith) b.indexed);
  bounded = inr (elim b.bounded [ inl z ↦ omega (arith, ap length z) | inr z ↦ omega arith ]);
  inside = inr (elim b.inside [ inl z ↦ omega (arith, ap length z) | inr z ↦ omega arith ]);
  from_log = each b;
}
  where
    each :
        IsBatch r (i + 1) (n + 1) es
        → (k : ℕ) → k < length (e ∷ es)
        → get_elem? (e ∷ es) k ≡ entry_at r (i + k)
    each b zero lt = sym q ∙ ap (entry_at r) (omega arith)
    each b (suc k) lt = b.from_log k (omega arith) ∙ ap (entry_at r) (omega arith)

batch-IsBatch :
    (rounds : ℕ) (r : Raft) (i n bytes : ℕ)
    → IsValid r
    → r.base.last_index < i
    → i + rounds ≤ last_index r + 1
    → IsBatch r i n (batch r rounds i n bytes)
unfolding batch
batch-IsBatch zero r i n bytes v above lim = empty-IsBatch r i n
batch-IsBatch (suc k) r i n bytes v above lim =
    elim (Bool-cases (leb r.config.max_entries_per_msg n)) [
      | inl full ↦ rw full (empty-IsBatch r i n)
      | inr room ↦ rw room (elim (Bool-cases (ltb r.config.max_bytes_per_msg bytes)) [
        | inl full ↦ rw full (empty-IsBatch r i n)
        | inr small ↦
            let (e, p, q) = entry_at-Indexed r i v above (omega arith) in
            rw (small, p)
              (cons-IsBatch r i n e _ q p (ground arith) (omega arith) (
                batch-IsBatch k r (i + 1) (n + 1) (bytes + length e.command + 24) v (omega arith)
                  (omega arith)))
      ])
    ]

-- The AppendEntries message of a valid core for a peer whose next index is above the base and at
-- most one behind the log: its entries are numbered from `prev_index + 1` on, at most
-- `max_entries_per_msg`, none behind the log's end, and each the log's own; `prev_term` is the
-- log's term at `prev_index`.
pub append_message-IsBatch :
    (r : Raft) (peer next : ℕ)
    → IsValid r
    → r.base.last_index < next
    → next ≤ last_index r + 1
    → IsBatch r (suc (append_message r peer next).prev_index) 0 (append_message r peer next).entries
      × ((append_message r peer next).prev_term ≡ term_at r (append_message r peer next).prev_index)
unfolding append_message
append_message-IsBatch r peer next v above lim =
    let prev : suc (next - 1) ≡ next = omega arith in
    (rw prev (batch-IsBatch (last_index r + 1 - next) r next 0 0 v above (omega arith)), refl)
