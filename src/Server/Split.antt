-- ===== src/Server/Split.antt =====
-- `ApplySplit` of server/raft_group.cc divides the range, and what a crash between its writes does.
use flotilladb.Base.{ℕ, ◌≡◌, refl, sym, ap, ◌∙◌}
use flotilladb.Base.{◌≢◌, inl, inr, true, false, ◌&&◌, ◌||◌, none, some, List, [], ◌∷◌, ◌++◌}
use flotilladb.Base.{arith, Bool-cases}
use flotilladb.Base.Bytes.{less, less_trans, less-false}
use flotilladb.Server.Ranges.{
  RangeDesc, below_end, contains, range_key, spawns_key, encode_range_desc, encode_spawns,
}
use flotilladb.Server.Apply.{Group, split_range, apply_split}
use flotilladb.Store.{Contents, find, insert}
use flotilladb.Store.Laws.{find-insert_self, find-insert_other}
use flotilladb.Txn.Codec.{same_bytes}
use flotilladb.Txn.History.{same_bytes_refl}

below_end-true : (end key : List ℕ) → end ≢ [] → below_end end key ≡ less key end
unfolding below_end
below_end-true [] key n = absurd (n refl)
below_end-true (c ∷ end) key n = refl

-- Whatever is below a key below the end is below the end.
below_end_trans :
    (end split key : List ℕ)
    → less key split ≡ true
    → below_end end split ≡ true
    → below_end end key ≡ true
unfolding below_end
below_end_trans [] split key l b = refl
below_end_trans (c ∷ end) split key l b = less_trans key split (c ∷ end) l b

less_empty : (start : List ℕ) → less [] start ≡ false → start ≡ []
unfolding less
less_empty [] h = refl
less_empty (x ∷ xs) h = cc

-- The child of a split
abbrev pub child_of : Group → ℕ → List ℕ → RangeDesc
child_of g child_id split_key = record { id = child_id; start = split_key; end = g.range.end }

module _ (g : Group) (child_id : ℕ) (split_key : List ℕ)
    (inside : contains g.range split_key ≡ true)
    (proper : same_bytes split_key g.range.start ≡ false) where
  not_before : less split_key g.range.start ≡ false
  unfolding contains
  not_before = elim (Bool-cases (less split_key g.range.start)) [
    | inl e ↦ cc (rw e at inside)
    | inr e ↦ e
  ]

  before_end : below_end g.range.end split_key ≡ true
  unfolding contains
  before_end = rw not_before at inside

  not_empty : split_key ≢ []
  not_empty e =
      let start : g.range.start ≡ [] = less_empty g.range.start (rw e at not_before) in
      cc (proper, same_bytes_refl [], e, start)

  -- The key is in the old range exactly if it is in one of the new ones, and never in both.
  divided :
      (key : List ℕ)
      → (contains g.range key ≡ (
          contains (record g.range { end = split_key }) key
          || contains (child_of g child_id split_key) key))
        × ((contains (record g.range { end = split_key }) key
              && contains (child_of g child_id split_key) key)
            ≡ false)
  unfolding contains
  divided key =
      let low = below_end-true split_key key not_empty in
      elim (Bool-cases (less key split_key)) [
        | inl e ↦
            let here = below_end_trans g.range.end split_key key e before_end in
            elim (Bool-cases (less key g.range.start)) [
              | inl p ↦ rw (low, e, p) (refl, refl)
              | inr p ↦ rw (low, e, p, here) (refl, refl)
            ]
        | inr e ↦
            let after : less key g.range.start ≡ false =
              less-false key split_key g.range.start e not_before in
            elim (Bool-cases (below_end g.range.end key)) [
              | inl p ↦ rw (low, e, after, p) (refl, refl)
              | inr p ↦ rw (low, e, after, p) (refl, refl)
            ]
      ]

second : List ℕ → ℕ
second [] = 0
second (x ∷ []) = 0
second (x ∷ y ∷ ys) = y

range-ne-spawns : (i j : ℕ) → range_key i ≢ spawns_key j
unfolding range_key spawns_key second
range-ne-spawns i j e = absurd (omega (arith, ap second e))

-- What the store holds behind a split, and that nothing else of it changes
pub record Recorded (g h : Group) (child : RangeDesc) : Type 0 where
  pub child_range : find h.db (range_key child.id) ≡ some (encode_range_desc child)
  pub own_range : find h.db (range_key g.range.id) ≡ some (encode_range_desc h.range)
  pub spawns : find h.db (spawns_key g.group_id) ≡ some (encode_spawns h.spawned)
  pub others :
      (q : List ℕ)
      → range_key child.id ≢ q
      → range_key g.range.id ≢ q
      → spawns_key g.group_id ≢ q
      → find h.db q ≡ find g.db q

split_range-Recorded :
    (g : Group) (child_id : ℕ) (split_key : List ℕ)
    → range_key g.range.id ≢ range_key child_id
    → Recorded g (split_range g child_id split_key) (child_of g child_id split_key)
unfolding split_range
split_range-Recorded g child_id split_key apart = record {
  child_range =
      find-insert_other second_put _ _ _ (λ e. range-ne-spawns child_id g.group_id (sym e))
      ∙ find-insert_other first_put _ _ _ apart
      ∙ find-insert_self g.db _ _;
  own_range =
      find-insert_other second_put _ _ _ (λ e. range-ne-spawns g.range.id g.group_id (sym e))
      ∙ find-insert_self first_put _ _;
  spawns = find-insert_self second_put _ _;
  others = λ q a b c.
      find-insert_other second_put _ _ q c
      ∙ find-insert_other first_put _ _ q b
      ∙ find-insert_other g.db _ _ q a;
}
  where
    first_put : Contents
    first_put = insert g.db (range_key child_id) (encode_range_desc (child_of g child_id split_key))

    second_put : Contents
    second_put =
        insert first_put (range_key g.range.id)
          (encode_range_desc (record g.range { end = split_key }))

-- A split at a key of the range other than its start, into a child that the store does not know
-- and whose range has another key in the store than the group's own: behind it the child is
-- recorded in memory, the store holds the child's range, the narrowed range and the list of the
-- children, and is otherwise unchanged, and each key of the old range is in exactly one of the two
-- new ones, and no other key is in either.
pub apply_split_divides :
    (g : Group) (child_id : ℕ) (split_key key : List ℕ)
    → contains g.range split_key ≡ true
    → same_bytes split_key g.range.start ≡ false
    → find g.db (range_key child_id) ≡ none
    → range_key g.range.id ≢ range_key child_id
    → ((apply_split g child_id split_key).spawned ≡ g.spawned ++ child_of g child_id split_key ∷ [])
      × Recorded g (apply_split g child_id split_key) (child_of g child_id split_key)
      × (contains g.range key ≡ (
          contains (apply_split g child_id split_key).range key
          || contains (child_of g child_id split_key) key))
      × ((contains (apply_split g child_id split_key).range key
            && contains (child_of g child_id split_key) key)
          ≡ false)
unfolding apply_split
apply_split_divides g child_id split_key key inside proper fresh apart =
    let parts = divided g child_id split_key inside proper key in
    let stored = split_range-Recorded g child_id split_key apart in
    rw (inside, proper, fresh) (unfold split_range in (refl, stored, parts.0, parts.1))

-- The group whose store holds the first put of a split only
abbrev pub half_split : Group → ℕ → List ℕ → Group
half_split g child_id split_key = record g {
  db = insert g.db (range_key child_id) (encode_range_desc (child_of g child_id split_key));
}

-- A split that a crash cuts off behind its first put is taken for done when it is applied again:
-- the range is not narrowed and the child is not recorded, though the store has the child's range,
-- so that the keys of the child are in both ranges.
pub half_split_stays :
    (g : Group) (child_id : ℕ) (split_key key : List ℕ)
    → contains g.range split_key ≡ true
    → same_bytes split_key g.range.start ≡ false
    → contains (child_of g child_id split_key) key ≡ true
    → (apply_split (half_split g child_id split_key) child_id split_key
        ≡ half_split g child_id split_key)
      × (find (half_split g child_id split_key).db (range_key child_id)
          ≡ some (encode_range_desc (child_of g child_id split_key)))
      × (contains (half_split g child_id split_key).range key ≡ true)
unfolding apply_split
half_split_stays g child_id split_key key inside proper owned =
    let known =
      find-insert_self g.db (range_key child_id)
        (encode_range_desc (child_of g child_id split_key)) in
    let parts = divided g child_id split_key inside proper key in
    ((rw (inside, proper, known) refl), known, ground (arith, parts.0))
