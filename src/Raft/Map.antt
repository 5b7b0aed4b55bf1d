-- ===== src/Raft/Map.antt =====
-- `std::unordered_map` keyed by node ids, as an association list with distinct keys. The order
-- in which the program iterates does not matter to it: it only counts entries.
use flotilladb.Base.{ℕ, suc, ◌≡◌, refl, Bool, List, [], ◌∷◌, arith, ◌==◌, if◌then◌else◌}

abbrev pub Map {ℓ} : Type ℓ → Type ℓ
Map V = List (ℕ × V)

module _ {ℓ} {V : Type ℓ} where
  -- `m[k]` read; `d` is the value-initialised default.
  unfoldable pub get_or : Map V → ℕ → V → V
  get_or [] k d = d
  get_or ((j, v) ∷ m) k d = if j == k then v else get_or m k d

  -- `m[k] = v`
  unfoldable pub put : Map V → ℕ → V → Map V
  put [] k v = (k, v) ∷ []
  put ((j, w) ∷ m) k v = if j == k then (k, v) ∷ m else (j, w) ∷ put m k v

  -- how many entries pass a test
  unfoldable pub count : (ℕ → V → Bool) → Map V → ℕ
  count p [] = 0
  count p ((j, v) ∷ m) = if p j v then suc (count p m) else count p m

  pub get_or-put :
      (m : Map V) (k j : ℕ) (v d : V)
      → get_or (put m k v) j d ≡ (if k == j then v else get_or m j d)
  unfolding get_or put
  get_or-put [] k j v d = refl
  get_or-put ((i, w) ∷ m) k j v d = ground (arith, get_or-put m k j v d)
