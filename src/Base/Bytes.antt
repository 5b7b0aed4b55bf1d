-- ===== src/Base/Bytes.antt =====
-- The order of byte strings, `std::string_view::compare`: as unsigned numbers, a prefix first.
use Prim.Native.Nat.{ℕ}
use mathlib.Core.Bool.{Bool, true, false}
use mathlib.Core.List.{List, [], ◌∷◌}
use mathlib.Core.Path.{◌≡◌, refl}
use native.Mathlib.Omega.{arith}
use flotilladb.Base.Tests.{ltb, if◌then◌else◌}

-- `xs.compare(ys) < 0`
unfoldable pub less : List ℕ → List ℕ → Bool
less [] [] = false
less [] (y ∷ ys) = true
less (x ∷ xs) [] = false
less (x ∷ xs) (y ∷ ys) =
    let rest = less xs ys in if ltb x y then true else if ltb y x then false else rest

pub less_irrefl : (xs : List ℕ) → less xs xs ≡ false
unfolding less
less_irrefl [] = refl
less_irrefl (x ∷ xs) = grind (arith, less_irrefl xs)

pub less_trans : (xs ys zs : List ℕ) → less xs ys ≡ true → less ys zs ≡ true → less xs zs ≡ true
unfolding less
less_trans xs [] [] h k = cc
less_trans [] [] (z ∷ zs) h k = refl
less_trans (x ∷ xs) [] (z ∷ zs) h k = cc
less_trans xs (y ∷ ys) [] h k = cc
less_trans [] (y ∷ ys) (z ∷ zs) h k = refl
less_trans (x ∷ xs) (y ∷ ys) (z ∷ zs) h k = grind (arith, less_trans xs ys zs)

-- Where neither of two strings is less than the other, they are equal.
pub less_same : (xs ys : List ℕ) → less xs ys ≡ false → less ys xs ≡ false → xs ≡ ys
unfolding less
less_same [] [] h k = refl
less_same [] (y ∷ ys) h k = cc
less_same (x ∷ xs) [] h k = cc
less_same (x ∷ xs) (y ∷ ys) h k = grind (arith, less_same xs ys)

pub less-false : (xs ys zs : List ℕ) → less xs ys ≡ false → less ys zs ≡ false → less xs zs ≡ false
unfolding less
less-false [] ys [] h k = refl
less-false (x ∷ xs) ys [] h k = refl
less-false [] [] (z ∷ zs) h k = cc
less-false [] (y ∷ ys) (z ∷ zs) h k = cc
less-false (x ∷ xs) [] (z ∷ zs) h k = cc
less-false (x ∷ xs) (y ∷ ys) (z ∷ zs) h k = grind (arith, less-false xs ys zs)

pub less_asym : (xs ys : List ℕ) → less xs ys ≡ true → less ys xs ≡ false
unfolding less
less_asym [] [] h = refl
less_asym [] (y ∷ ys) h = refl
less_asym (x ∷ xs) [] h = cc
less_asym (x ∷ xs) (y ∷ ys) h = grind (arith, less_asym xs ys)
