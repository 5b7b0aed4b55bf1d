-- ===== src/Engine/Merging.antt =====
-- storage/merging_iterator.cc with `InternalCompare` of storage/entry.h. A child iterator is the
-- list of the entries it still yields: it is valid while the list is not empty, and its entry is
-- the first one.
pub mod Least
use flotilladb.Base.{ℕ, zero, suc, ◌+◌, Bool, true, false, Option, none, some, List, [], ◌∷◌}
use flotilladb.Base.{ltb, ◌==◌, if◌then◌else◌}
use flotilladb.Base.Bytes.{less}
use flotilladb.Wal.{Entry}

-- `InternalCompare(...) < 0`: by key, then the later seqno first
unfoldable pub comes_before : Entry → Entry → Bool
comes_before a b =
    if less a.key b.key then true else if less b.key a.key then false else ltb b.seqno a.seqno

-- The test of `PickCurrent` on the entry of child `i`, with `current_` as a child and its entry
unfoldable pub better : ℕ → Entry → Option (ℕ × Entry) → Option (ℕ × Entry)
better i e none = some (i, e)
better i e (some (j, b)) = if comes_before e b then some (i, e) else some (j, b)

-- The loop of `PickCurrent` from child `i` on
unfoldable pub pick_from : List (List Entry) → ℕ → Option (ℕ × Entry) → Option (ℕ × Entry)
pick_from [] i current = current
pick_from ([] ∷ children) i current = pick_from children (i + 1) current
pick_from ((e ∷ es) ∷ children) i current = pick_from children (i + 1) (better i e current)

unfoldable pub pick_current : List (List Entry) → Option (ℕ × Entry)
pick_current children = pick_from children 0 none
