-- ===== src/Store.antt =====
-- What storage/db.h promises of class DB: its live keys and values, each key once, in the order of
-- the keys. An operation that fails in the file system is not modelled.
pub mod Laws
use flotilladb.Base.{ℕ, Bool, true, false, Option, none, some, List, [], ◌∷◌, if◌then◌else◌}
use flotilladb.Base.Bytes.{less}

abbrev pub Contents : Type 0
Contents = List (List ℕ × List ℕ)

-- `Get`: `none` is Status::NotFound.
unfoldable pub find : Contents → List ℕ → Option (List ℕ)
find [] key = none
find ((k, v) ∷ c) key =
    let rest = find c key in if less k key then rest else if less key k then none else some v

-- `Put`
unfoldable pub insert : Contents → List ℕ → List ℕ → Contents
insert [] key value = (key, value) ∷ []
insert ((k, v) ∷ c) key value =
    let rest = insert c key value in
    if less k key
    then (k, v) ∷ rest
    else if less key k
    then (key, value) ∷ (k, v) ∷ c
    else (key, value) ∷ c

-- `Delete`
unfoldable pub remove : Contents → List ℕ → Contents
remove [] key = []
remove ((k, v) ∷ c) key =
    let rest = remove c key in
    if less k key then (k, v) ∷ rest else if less key k then (k, v) ∷ c else c

-- `NewIterator` and `Seek`: what the iterator yields from there on
unfoldable pub seek : Contents → List ℕ → Contents
seek [] key = []
seek ((k, v) ∷ c) key = let rest = seek c key in if less k key then rest else (k, v) ∷ c
