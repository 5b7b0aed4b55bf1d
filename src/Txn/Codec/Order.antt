-- ===== src/Txn/Codec/Order.antt =====
-- The order of the keys of txn/codec.cc: bytewise, as the storage engine compares keys.
use flotilladb.Base.{ℕ, zero, suc, ◌+◌, ◌-◌, ◌*◌, ◌/◌, ◌%◌, ◌^◌, ◌<◌, ◌≡◌, refl, sym, ap, ◌∙◌}
use flotilladb.Base.{◌≢◌, ◌⊎◌, inl, inr, true, List, [], ◌∷◌, ◌++◌}
use flotilladb.Base.{append-nil, arith, ltb, ◌==◌, ltb→lt, ==_iff, Bool-cases}
use flotilladb.Base.Bytes.{less}
use mathlib.Core.Path.{ap₂}
use native.Mathlib.Nat.{mod-lt, div-add-mod, add-mul-mod_self_left, mod-eq_of_lt, one-le-pow}
use flotilladb.Coding.RoundTrip.{next_byte}
use flotilladb.Txn.Codec.{
  escape_bytes, escape_key, big_endian, inverted_ts, write_key, write_prefix,
}

same_head : (x : ℕ) (xs ys : List ℕ) → less (x ∷ xs) (x ∷ ys) ≡ less xs ys
unfolding less
same_head x xs ys = ground arith

less_head : (x y : ℕ) (xs ys : List ℕ) → x < y → less (x ∷ xs) (y ∷ ys) ≡ true
unfolding less
less_head x y xs ys h = ground arith

same_front : (zs xs ys : List ℕ) → less (zs ++ xs) (zs ++ ys) ≡ less xs ys
same_front [] xs ys = refl
same_front (z ∷ zs) xs ys = same_head z (zs ++ xs) (zs ++ ys) ∙ same_front zs xs ys

prefix : (xs ys : List ℕ) → less (write_prefix ++ xs) (write_prefix ++ ys) ≡ less xs ys
prefix xs ys = same_front write_prefix xs ys

-- Escaped keys with anything behind them compare as the user keys do, when these differ.
escape-order :
    (a b xs ys : List ℕ) → a ≢ b → less (escape_bytes a ++ xs) (escape_bytes b ++ ys) ≡ less a b
unfolding escape_bytes less
escape-order [] [] xs ys h = absurd (h refl)
escape-order [] (d ∷ b) xs ys h = ground arith
escape-order (c ∷ a) [] xs ys h = ground arith
escape-order (c ∷ a) (d ∷ b) xs ys h = elim (Bool-cases (c == d)) [
  | inl e ↦
      let same : c ≡ d = (==_iff c d).0 e in
      let ih = escape-order a b xs ys (λ p. h (cc (same, p))) in ground (arith, ih)
  | inr e ↦ ground arith
]

-- A number modulo 256 p, by its quotient and its remainder
two_digits : (v p : ℕ) → 0 < p → v % (2 ^ 8 * p) ≡ p * (v / p % 2 ^ 8) + v % p
two_digits v p h =
    let d = v / p % 2 ^ 8 in
    let q = v / p / 2 ^ 8 in
    let low = mod-lt v h in
    let high : d < 2 ^ 8 = omega arith in
    let split : v ≡ (p * d + v % p) + (2 ^ 8 * p) * q =
      omega (arith, div-add-mod v p, ap (λ (t : ℕ). p * t) (div-add-mod (v / p) (2 ^ 8))) in
    let gap : p * 2 ^ 8 ≡ p * d + p + p * (2 ^ 8 - d - 1) =
      ap (λ (t : ℕ). p * t) (let e : 2 ^ 8 ≡ d + 1 + (2 ^ 8 - d - 1) = omega arith in e)
      ∙ omega arith in
    ap (λ (t : ℕ). t % (2 ^ 8 * p)) split
    ∙ add-mul-mod_self_left (p * d + v % p) (2 ^ 8 * p) q
    ∙ mod-eq_of_lt (omega (arith, gap))

-- Where the high digits are equal or in order, so are the numbers.
high_digits :
    (p a b r s : ℕ) → r < p → s < p → p * a + r < p * b + s → (a < b) ⊎ ((a ≡ b) × (r < s))
high_digits p a b r s hr hs h = elim (Bool-cases (ltb a b)) [
  | inl e ↦ inl (ltb→lt a b e)
  | inr e ↦ elim (Bool-cases (a == b)) [
    | inl d ↦
        let same : a ≡ b = (==_iff a b).0 d in inr (same, omega (arith, ap (λ (t : ℕ). p * t) same))
    | inr d ↦
        let more : a ≡ b + 1 + (a - b - 1) = ground arith in
        absurd (omega (arith, ap (λ (t : ℕ). p * t) more))
  ]
]

-- Big-endian bytes compare as the numbers do, whatever follows.
big_endian-order :
    (n v w : ℕ) (xs ys : List ℕ)
    → v % 2 ^ (8 * n) < w % 2 ^ (8 * n)
    → less (big_endian n v ++ xs) (big_endian n w ++ ys) ≡ true
unfolding big_endian
big_endian-order zero v w xs ys h = absurd (omega arith)
big_endian-order (suc n) v w xs ys h =
    let p = 2 ^ (8 * n) in
    let pos : 0 < p = omega (arith, one-le-pow (8 * n) 2 (omega arith)) in
    let size : 2 ^ (8 * suc n) ≡ 2 ^ 8 * p =
      ap (λ (k : ℕ). 2 ^ k) (let e : 8 * suc n ≡ 8 * (n + 1) = omega arith in e) ∙ next_byte n in
    let digits : p * (v / p % 2 ^ 8) + v % p < p * (w / p % 2 ^ 8) + w % p =
      rw (← two_digits v p pos, ← two_digits w p pos, ← size) h in
    step
      (high_digits p (v / p % 2 ^ 8) (w / p % 2 ^ 8) (v % p) (w % p) (mod-lt v pos) (mod-lt w pos)
        digits)
      (big_endian-order n v w xs ys)
  where
    step :
        (v / 2 ^ (8 * n) % 2 ^ 8 < w / 2 ^ (8 * n) % 2 ^ 8)
          ⊎ ((v / 2 ^ (8 * n) % 2 ^ 8 ≡ w / 2 ^ (8 * n) % 2 ^ 8)
              × (v % 2 ^ (8 * n) < w % 2 ^ (8 * n)))
        → (v % 2 ^ (8 * n) < w % 2 ^ (8 * n)
            → less (big_endian n v ++ xs) (big_endian n w ++ ys) ≡ true)
        → less
            ((v / 2 ^ (8 * n) % 2 ^ 8) ∷ (big_endian n v ++ xs))
            ((w / 2 ^ (8 * n) % 2 ^ 8) ∷ (big_endian n w ++ ys))
          ≡ true
    step (inl lt) ih = less_head _ _ _ _ lt
    step (inr (e, lt)) ih =
        rw e (
          same_head (w / 2 ^ (8 * n) % 2 ^ 8) (big_endian n v ++ xs) (big_endian n w ++ ys) ∙ ih lt)

-- The write keys of two different user keys stand as the user keys do, whatever the timestamps.
pub write_key-less :
    (a b : List ℕ) (s t : ℕ) → a ≢ b → less (write_key a s) (write_key b t) ≡ less a b
unfolding write_key escape_key
write_key-less a b s t n = prefix _ _ ∙ escape-order a b (inverted_ts s) (inverted_ts t) n

-- Of two write keys of one user key, with 64-bit timestamps, the later one stands first.
pub write_key-newest :
    (a : List ℕ) (s t : ℕ) → s < 2 ^ 64 → t < s → less (write_key a s) (write_key a t) ≡ true
unfolding write_key escape_key inverted_ts
write_key-newest a s t h lt =
    prefix _ _
    ∙ same_front (escape_bytes a) (big_endian 8 (2 ^ 64 - 1 - s)) (big_endian 8 (2 ^ 64 - 1 - t))
    ∙ ap₂ less (sym (append-nil _)) (sym (append-nil _))
    ∙ big_endian-order 8 (2 ^ 64 - 1 - s) (2 ^ 64 - 1 - t) [] [] (omega arith)
