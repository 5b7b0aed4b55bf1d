-- ===== src/Txn/Snapshots.antt =====
-- Snapshots of the store under txn/txn_ops.cc: later transactions leave them as they are, and a
-- commit is seen from its timestamp on.
use flotilladb.Base.{ℕ, ◌^◌, ◌≤◌, ◌<◌, ◌≡◌, refl, sym, ap, ◌∙◌}
use flotilladb.Base.{◌≢◌, inl, inr, Bool, true, false, Option, none, some, List}
use flotilladb.Base.{arith, leb, Bool-cases}
use flotilladb.Base.{All}
use flotilladb.Status.{done}
use flotilladb.Store.{Contents, find}
use flotilladb.Txn.Codec.{LockRecord, data_key}
use flotilladb.Txn.Ops.{ReadResult, locked, get_lock, txn_get}
use flotilladb.Txn.History.{Version, versions}
use flotilladb.Txn.Locks.{get_lock-some}
use flotilladb.Txn.Locks.{own_lock}
use flotilladb.Txn.Reads.{snapshot, seen_at, seen_version, snapshot-All, txn_get_seen}
use flotilladb.Txn.Run.{Run, Run-IsStore, Run-Unseen}
use flotilladb.Txn.Unseen.{Unblocked}
use flotilladb.Txn.Valid.{IsVersion, IsStore}

-- Whether `TxnGet` reports the lock
blocks : ℕ → Option LockRecord → Bool
blocks ts none = false
blocks ts (some l) = leb l.start_ts ts

seen_at_clear :
    (ts : ℕ) (l : Option LockRecord) (value : ℕ → Option (List ℕ)) (x : Option Version)
    → blocks ts l ≡ false
    → seen_at ts l value x ≡ seen_version value x
unfolding blocks seen_at
seen_at_clear ts none value x e = refl
seen_at_clear ts (some l) value x e = rw e refl

seen_at_blocked :
    (ts : ℕ) (l : Option LockRecord) (value : ℕ → Option (List ℕ)) (x : Option Version)
    → blocks ts l ≡ true
    → (k : LockRecord) × (seen_at ts l value x ≡ locked k)
unfolding blocks seen_at
seen_at_blocked ts none value x e = cc
seen_at_blocked ts (some l) value x e = (l, rw e refl)

module _ (db : Contents) (u : List ℕ) (ts : ℕ) (v : IsStore db) where
  Unblocked-blocks :
      (l : Option LockRecord) → get_lock db u ≡ done l → Unblocked ts db u → blocks ts l ≡ false
  unfolding blocks
  Unblocked-blocks none g n = refl
  Unblocked-blocks (some l) g n =
      let (raw, k, e, same) = own_lock db u l v g in
      let (m, d, late) = n raw e in
      let agree : k.lock ≡ m = cc (k.decoded, d) in
      let at : l.start_ts ≡ m.start_ts = ap (λ (x : LockRecord). x.start_ts) (sym same ∙ agree) in
      ground (arith, at, late)

  blocks-Unblocked :
      (l : Option LockRecord) → get_lock db u ≡ done l → blocks ts l ≡ false → Unblocked ts db u
  unfolding blocks
  blocks-Unblocked none g b raw e = cc (g, get_lock-some db u raw e ((v.keys u).locks raw e))
  blocks-Unblocked (some l) g b raw e =
      let k = (v.keys u).locks raw e in
      let same : k.lock ≡ l = cc (g, get_lock-some db u raw e k) in
      let at : k.lock.start_ts ≡ l.start_ts = ap (λ (x : LockRecord). x.start_ts) same in
      let late : ts < l.start_ts = ground (arith, b) in (k.lock, k.decoded, omega (arith, at, late))

seen_version_same :
    (ts : ℕ) (h : List Version) (value value' : ℕ → Option (List ℕ)) (x : Option Version)
    → All IsVersion h
    → snapshot ts h ≡ x
    → ((t : ℕ) → t ≤ ts → value' t ≡ value t)
    → seen_version value' x ≡ seen_version value x
unfolding seen_version
seen_version_same ts h value value' none i e f = refl
seen_version_same ts h value value' (some (c, r)) i e f =
    let fit = snapshot-All IsVersion ts h (c, r) i e in
    rw (f r.start_ts (omega (arith, fit.0.started, fit.1))) refl

-- A value that was read at `ts`, or that there is none, is read again at `ts` after any run of
-- operations of transactions with timestamps above `ts`.
pub txn_get_stable :
    (a b : Contents) (u : List ℕ) (ts : ℕ) (r : ReadResult)
    → IsStore a
    → ts < 2 ^ 64
    → Run ts a b
    → txn_get a u ts ≡ done r
    → ((l : LockRecord) → r ≢ locked l)
    → txn_get b u ts ≡ done r
txn_get_stable a b u ts r v bound run e clear =
    let (la, ga, ea) = txn_get_seen a u v ts bound in
    let (lb, gb, eb) = txn_get_seen b u (Run-IsStore v run) ts bound in
    let unseen = Run-Unseen u v run in
    let va = λ (t : ℕ). find a (data_key u t) in
    let vb = λ (t : ℕ). find b (data_key u t) in
    let read : seen_at ts la va (snapshot ts (versions a u)) ≡ r = cc (ea, e) in
    let free : blocks ts la ≡ false = elim (Bool-cases (blocks ts la)) [
      | inl y ↦
          let k = seen_at_blocked ts la va (snapshot ts (versions a u)) y in
          absurd (clear k.0 (sym read ∙ k.1))
      | inr n ↦ n
    ] in
    let still : blocks ts lb ≡ false =
      Unblocked-blocks b u ts (Run-IsStore v run) lb gb
        (unseen.unblocked (blocks-Unblocked a u ts v la ga free)) in
    eb
    ∙ ap done (
        seen_at_clear ts lb vb (snapshot ts (versions b u)) still
        ∙ ap (seen_version vb) unseen.commit
        ∙ seen_version_same ts (versions a u) va vb (snapshot ts (versions a u)) (v.keys u).fit refl
            unseen.value
        ∙ sym (seen_at_clear ts la va (snapshot ts (versions a u)) free)
        ∙ read)
