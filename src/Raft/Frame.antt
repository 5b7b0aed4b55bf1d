-- ===== src/Raft/Frame.antt =====
-- What the internal steps of raft.cc leave alone: sending changes the messages alone, and
-- emitting changes the committed entries of the `Ready` and `last_emitted` alone.
use flotilladb.Base.{ℕ, zero, suc, ◌+◌, ◌-◌, ◌≤◌, ◌≡◌, refl, ap, ◌∙◌}
use flotilladb.Base.{inl, inr, List, [], ◌∷◌, ◌++◌}
use flotilladb.Base.{arith, leb, ◌==◌, Bool-cases}
use flotilladb.Raft.Types.{Raft, LogEntry, Message}
use flotilladb.Raft.Map.{get_or}
use flotilladb.Raft.Core.{with_messages, send}
use flotilladb.Raft.Replicate.{
  snapshot_message, append_message, send_append, broadcast_to, emit_one, emit_rounds,
  emit_committed,
}
use flotilladb.Raft.Node.{request_votes}

abbrev pub emitted : Raft → ℕ → List LogEntry → Raft
emitted r n es = record r { last_emitted = n; ready = record r.ready { committed = es } }

abbrev pub Sends : Raft → Raft → Type 0
Sends r s = (ms : List Message) × (s ≡ with_messages r ms)

Sends-trans : (r : Raft) {s t : Raft} → Sends r s → Sends s t → Sends r t
unfolding with_messages
Sends-trans r (ms, p) (ns, q) = (ns, q ∙ ap (λ (u : Raft). with_messages u ns) p)

pub send-Sends : (r : Raft) (m : Message) → Sends r (send r m)
unfolding send
send-Sends r m =
    (r.ready.messages ++ record m { from = r.config.id; term = r.hard.term } ∷ [], refl)

pub send_append-Sends : (r : Raft) (peer : ℕ) → Sends r (send_append r peer)
unfolding send_append
send_append-Sends r peer = elim (Bool-cases (leb (get_or r.next peer 0) r.base.last_index)) [
  | inl e ↦ rw e (send-Sends r (snapshot_message r peer))
  | inr e ↦ rw e (send-Sends r (append_message r peer (get_or r.next peer 0)))
]

pub broadcast_to-Sends : (peers : List ℕ) (r : Raft) → Sends r (broadcast_to peers r)
unfolding broadcast_to with_messages
broadcast_to-Sends [] r = (r.ready.messages, refl)
broadcast_to-Sends (peer ∷ peers) r = elim (Bool-cases (peer == r.config.id)) [
  | inl e ↦ rw e (broadcast_to-Sends peers r)
  | inr e ↦
      rw e
        (Sends-trans r (send_append-Sends r peer) (broadcast_to-Sends peers (send_append r peer)))
]

pub request_votes-Sends : (peers : List ℕ) (r : Raft) → Sends r (request_votes peers r)
unfolding request_votes with_messages
request_votes-Sends [] r = (r.ready.messages, refl)
request_votes-Sends (peer ∷ peers) r = elim (Bool-cases (peer == r.config.id)) [
  | inl e ↦ rw e (request_votes-Sends peers r)
  | inr e ↦ rw e (Sends-trans r (send-Sends r _) (request_votes-Sends peers _))
]

pub emit_rounds-emitted :
    (k : ℕ) (r : Raft)
    → (n : ℕ) × (es : List LogEntry) × (emit_rounds k r ≡ emitted r n es) × (n ≡ r.last_emitted + k)
unfolding emit_rounds emit_one
emit_rounds-emitted zero r = (r.last_emitted, r.ready.committed, refl, omega arith)
emit_rounds-emitted (suc k) r =
    let (n, es, e, p) = emit_rounds-emitted k (emit_one r) in (n, es, e, omega arith)

-- `EmitCommitted` brings `last_emitted` up to `commit`.
pub emit_committed-emitted :
    (r : Raft)
    → r.last_emitted ≤ r.commit
    → (es : List LogEntry) × (emit_committed r ≡ emitted r r.commit es)
unfolding emit_committed
emit_committed-emitted r h =
    let (n, es, e, p) = emit_rounds-emitted (r.commit - r.last_emitted) r in
    let q : n ≡ r.commit = omega arith in (es, e ∙ ap (λ (k : ℕ). emitted r k es) q)
