-- ===== src/Tests/Merging.antt =====
-- Tests of the merging iterator, and its theorem at concrete inputs.
use flotilladb.Base.{◌≡◌, refl, some, List, [], ◌∷◌}
use flotilladb.Base.Bytes.{less}
use flotilladb.Wal
use flotilladb.Wal.{Entry}
use flotilladb.Engine.Merging.{pick_current, pick_from, better, comes_before}
use flotilladb.Engine.Merging.Least.{IsEntryOf, NoneBefore, pick_current_least}

abbrev older : Entry
older = record { key = 97 ∷ []; seqno = 1; op = Wal.put; value = 120 ∷ [] }

abbrev newer : Entry
newer = record { key = 97 ∷ []; seqno = 5; op = Wal.delete; value = [] }

abbrev other : Entry
other = record { key = 98 ∷ []; seqno = 9; op = Wal.put; value = 121 ∷ [] }

abbrev children : List (List Entry)
children = (older ∷ other ∷ []) ∷ [] ∷ (newer ∷ []) ∷ (other ∷ []) ∷ []

pick_newest : pick_current children ≡ some (2, newer)
unfolding pick_current pick_from better comes_before less
pick_newest = refl

pick_current_least_example : IsEntryOf children 2 newer × NoneBefore newer children
pick_current_least_example = pick_current_least children 2 newer pick_newest
