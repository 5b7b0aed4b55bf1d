-- ===== src/Txn/Locks.antt =====
-- What the readings of txn/txn_ops.cc give in a well-formed store.
use flotilladb.Base.{ℕ, ◌≡◌, refl, ap, ◌∙◌}
use flotilladb.Base.{◌≢◌, ◌⊎◌, inl, inr, Bool, Option, none, some, List}
use flotilladb.Base.{arith, Bool-cases, Option-cases}
use flotilladb.Base.{All}
use flotilladb.Status.{done}
use flotilladb.Store.{Contents, find}
use flotilladb.Txn.Codec.{LockRecord, WriteRecord, lock_key, data_key, same_bytes}
use flotilladb.Txn.Ops.{max_ts, for_each_write_at_or_below, lock_in, get_lock}
use flotilladb.Txn.History.{Version, versions, same_bytes_refl, same_bytes-eq}
use flotilladb.Txn.History.Walk.{fold_until}
use flotilladb.Txn.History.Search.{search_history}
use flotilladb.Txn.Searches.{at_or_below-max}
use flotilladb.Txn.Valid.{HasValue, Valued, Locked, IsStore, All_map}

pub keys_cases : (u w : List ℕ) → (u ≡ w) ⊎ (u ≢ w)
keys_cases u w = elim (Bool-cases (same_bytes u w)) [
  | inl e ↦ inl (same_bytes-eq u w e)
  | inr e ↦ inr (λ p. cc (p, e, same_bytes_refl u))
]

-- The search over the whole history of a key
pub search_all :
    {S : Type 0} (db : Contents) (u : List ℕ) (fn : ℕ → WriteRecord → S → S × Bool) (s : S)
    → IsStore db
    → for_each_write_at_or_below db u max_ts fn s ≡ done (fold_until fn s (versions db u))
search_all db u fn s v =
    search_history db u max_ts fn s (omega arith) v.sorted v.writes
    ∙ ap (λ h. done (fold_until fn s h)) (at_or_below-max (versions db u) (v.keys u).fit)

-- What `GetLock` gives in a well-formed store
pub get_lock-some :
    (db : Contents) (u raw : List ℕ)
    → find db (lock_key u) ≡ some raw
    → (k : Locked (versions db u) (λ ts. find db (data_key u ts)) raw)
    → get_lock db u ≡ done (some k.lock)
unfolding get_lock lock_in
get_lock-some db u raw e k = rw (e, lock_in, k.decoded) refl

pub get_lock-none :
    (db : Contents) (u : List ℕ) → find db (lock_key u) ≡ none → get_lock db u ≡ done none
unfolding get_lock lock_in
get_lock-none db u e = rw (e, lock_in) refl

-- The lock that `GetLock` reads in a well-formed store
pub own_lock :
    (db : Contents) (u : List ℕ) (l : LockRecord)
    → IsStore db
    → get_lock db u ≡ done (some l)
    → (raw : List ℕ) × (k : Locked (versions db u) (λ t. find db (data_key u t)) raw) × (find db
          (lock_key u)
        ≡ some raw)
      × (k.lock ≡ l)
own_lock db u l v g = elim (Option-cases (find db (lock_key u))) [
  | inl n ↦ cc (g, get_lock-none db u n)
  | inr (raw, n) ↦
      let k = (v.keys u).locks raw n in (raw, k, n, (cc (g, get_lock-some db u raw n k)))
]

-- Values that a store keeps keep the versions valued.
pub All-Valued :
    (value value' : ℕ → Option (List ℕ)) (h : List Version)
    → ((ts : ℕ) → HasValue value ts → HasValue value' ts)
    → All (Valued value) h
    → All (Valued value') h
All-Valued value value' h f a =
    All_map (Valued value) (Valued value') h (λ v p n. f v.1.start_ts (p n)) a
