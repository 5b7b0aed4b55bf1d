-- ===== src/Raft/Cuts.antt =====
-- The list operations by which raft.cc and raft_storage.cc cut a numbered log agree.
use flotilladb.Base.{ℕ, zero, suc, ◌-◌, ◌≤◌, ◌<◌, min, ◌≡◌, refl, sym, ap, ◌∙◌}
use flotilladb.Base.{inl, inr, List, [], ◌∷◌, ◌++◌}
use flotilladb.Base.{arith, ltb, leb, if◌then◌else◌, ltb→lt, leb→le, Bool-cases}
use flotilladb.Base.{take, drop}
use flotilladb.Raft.Types.{LogEntry}
use flotilladb.Raft.Follower.{below, lower_cut}
use flotilladb.Raft.Storage.{pop_from, skip_through, pop_back}
use flotilladb.Raft.Valid.{Indexed}

below-empty : (t i : ℕ) (es : List LogEntry) → Indexed i es → t ≤ i → below t es ≡ []
unfolding below
below-empty t i [] h p = refl
below-empty t i (e ∷ es) h p = ground (arith, below-empty t (suc i) es h.1 (omega arith))

pop_back-cases :
    (t : ℕ) (e : LogEntry) (rest : List LogEntry)
    → (t ≤ e.index → rest ≡ [])
    → pop_back t e rest ≡ (if leb t e.index then [] else e ∷ rest)
unfolding pop_back
pop_back-cases t e [] h = refl
pop_back-cases t e (x ∷ xs) h = elim (Bool-cases (leb t e.index)) [
  | inl d ↦ cc (h (leb→le t e.index d))
  | inr d ↦ rw d refl
]

-- Removing entries from the end of a numbered log removes all from an index on.
pub pop_from-below : (t i : ℕ) (es : List LogEntry) → Indexed i es → pop_from t es ≡ below t es
unfolding pop_from below
pop_from-below t i [] h = refl
pop_from-below t i (e ∷ es) h = rw (pop_from-below t (suc i) es h.1) (
    pop_back-cases t e (below t es) (λ p. below-empty t (suc i) es h.1 (omega arith))
    ∙ elim (Bool-cases (leb t e.index)) [
      | inl d ↦ rw d (sym (below-empty t (suc i) es h.1 (omega (arith, leb→le t e.index d))))
      | inr d ↦ rw d refl
    ])

pub take-below : (t i : ℕ) (es : List LogEntry) → Indexed i es → take (t - i) es ≡ below t es
unfolding below
take-below t i [] h = elim (Bool-cases (ltb 0 (t - i))) [
  | inl d ↦ let e : t - i ≡ suc (t - i - 1) = omega (arith, ltb→lt 0 (t - i) d) in rw e refl
  | inr d ↦ let e : t - i ≡ 0 = ground arith in rw e refl
]
take-below t i (e ∷ es) h = elim (Bool-cases (leb t e.index)) [
  | inl d ↦
      let z : t - i ≡ 0 = omega (arith, leb→le t e.index d) in
      rw (d, z) (sym (below-empty t (suc i) es h.1 (omega (arith, leb→le t e.index d))))
  | inr d ↦
      let z : t - i ≡ suc (t - suc i) = ground arith in
      rw (d, z) (ap (λ xs. e ∷ xs) (take-below t (suc i) es h.1))
]

pub below-append : (t : ℕ) (es fs : List LogEntry) → below t (es ++ fs) ≡ below t es ++ below t fs
unfolding below
below-append t [] fs = refl
below-append t (e ∷ es) fs = ground (arith, below-append t es fs)

below-below : (a b : ℕ) (es : List LogEntry) → below a (below b es) ≡ below (min a b) es
unfolding below
below-below a b [] = refl
below-below a b (e ∷ es) = ground (arith, below-below a b es)

-- The log behind a truncation point, where 0 stands for none
unfoldable pub trimmed : ℕ → List LogEntry → List LogEntry
trimmed zero es = es
trimmed (suc t) es = below (suc t) es

trimmed-below : (t : ℕ) (es : List LogEntry) → 0 < t → trimmed t es ≡ below t es
unfolding trimmed
trimmed-below zero es h = absurd (omega arith)
trimmed-below (suc t) es h = refl

pub below-trimmed :
    (t index : ℕ) (es : List LogEntry)
    → 0 < index
    → below index (trimmed t es) ≡ trimmed (lower_cut t index) es
unfolding lower_cut
below-trimmed zero index es h = unfold trimmed in sym (trimmed-below index es h)
below-trimmed (suc t) index es h =
    ap (below index) (trimmed-below (suc t) es (omega arith))
    ∙ below-below index (suc t) es
    ∙ ap (λ (k : ℕ). below k es) (ground arith)
    ∙ sym (trimmed-below (lower_cut (suc t) index) es (ground arith))

-- Skipping the front of a numbered log
pub skip_through-drop :
    (last i : ℕ) (es : List LogEntry) → Indexed i es → skip_through last es ≡ drop (suc last - i) es
unfolding skip_through
skip_through-drop last i [] h = elim (Bool-cases (ltb 0 (suc last - i))) [
  | inl d ↦
      let e : suc last - i ≡ suc (suc last - i - 1) = omega (arith, ltb→lt 0 (suc last - i) d) in
      rw e refl
  | inr d ↦ let e : suc last - i ≡ 0 = ground arith in rw e refl
]
skip_through-drop last i (e ∷ es) h = elim (Bool-cases (leb e.index last)) [
  | inl d ↦
      let z : suc last - i ≡ suc (suc last - suc i) = omega (arith, leb→le e.index last d) in
      rw (d, z) (skip_through-drop last (suc i) es h.1)
  | inr d ↦ let z : suc last - i ≡ 0 = ground arith in rw (d, z) refl
]
