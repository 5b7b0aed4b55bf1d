-- ===== src/Engine/Bloom/Setting.antt =====
-- Setting bits of the array of storage/bloom.cc clears none.
use flotilladb.Base.{ℕ, zero, suc, ◌+◌, ◌/◌, ◌%◌, ◌^◌, ◌≤◌, ◌<◌, ◌≡◌, refl, ap, subst, ◌∙◌}
use flotilladb.Base.{◌≢◌, ◌↔◌, inl, inr, true, List, [], ◌∷◌}
use flotilladb.Base.{arith, ltb, ◌==◌, ltb→lt, Bool-cases}
use flotilladb.Base.{length, All}
use Prim.Native.Nat.{bit_and, bit_or}
use flotilladb.Engine.Bloom.{probe, or_at, set_bit, byte_at, is_set, all_set}
use flotilladb.Engine.Bloom.Bytes.{or-lt, or_sets, or_keeps}

abbrev pub IsBytes : List ℕ → Type 0
IsBytes bits = All (λ b. b < 256) bits

byte_at-lt : (bits : List ℕ) (i : ℕ) → IsBytes bits → byte_at bits i < 256
unfolding byte_at
byte_at-lt [] i w = omega arith
byte_at-lt (b ∷ bits) zero w = w.0
byte_at-lt (b ∷ bits) (suc i) w = byte_at-lt bits i w.1

or_at-IsBytes : (bits : List ℕ) (i t : ℕ) → t < 8 → IsBytes bits → IsBytes (or_at bits i (2 ^ t))
unfolding or_at
or_at-IsBytes [] i t h w = tt
or_at-IsBytes (b ∷ bits) zero t h w = (or-lt t b h w.0, w.1)
or_at-IsBytes (b ∷ bits) (suc i) t h w = (w.0, or_at-IsBytes bits i t h w.1)

length-or_at : (bits : List ℕ) (i m : ℕ) → length (or_at bits i m) ≡ length bits
unfolding or_at
length-or_at [] i m = refl
length-or_at (b ∷ bits) zero m = refl
length-or_at (b ∷ bits) (suc i) m = ap suc (length-or_at bits i m)

byte_at-or_self :
    (bits : List ℕ) (i m : ℕ)
    → i < length bits
    → byte_at (or_at bits i m) i ≡ bit_or (byte_at bits i) m
unfolding byte_at or_at
byte_at-or_self [] i m h = absurd (omega (arith, h))
byte_at-or_self (b ∷ bits) zero m h = refl
byte_at-or_self (b ∷ bits) (suc i) m h = byte_at-or_self bits i m (omega (arith, h))

byte_at-or_other : (bits : List ℕ) (i j m : ℕ) → i ≢ j → byte_at (or_at bits i m) j ≡ byte_at bits j
unfolding byte_at or_at
byte_at-or_other [] i j m n = refl
byte_at-or_other (b ∷ bits) zero zero m n = absurd (n refl)
byte_at-or_other (b ∷ bits) zero (suc j) m n = refl
byte_at-or_other (b ∷ bits) (suc i) zero m n = refl
byte_at-or_other (b ∷ bits) (suc i) (suc j) m n = byte_at-or_other bits i j m (λ e. n (ap suc e))

-- A write past the end changes nothing.
or_at-past : (bits : List ℕ) (i m : ℕ) → length bits ≤ i → or_at bits i m ≡ bits
unfolding or_at
or_at-past [] i m h = refl
or_at-past (b ∷ bits) zero m h = absurd (omega (arith, h))
or_at-past (b ∷ bits) (suc i) m h = ap (λ x. b ∷ x) (or_at-past bits i m (omega (arith, h)))

is_set_iff :
    (bits : List ℕ) (x : ℕ)
    → (is_set bits x ≡ true) ↔ (bit_and (byte_at bits (x / 8)) (2 ^ (x % 8)) ≢ 0)
unfolding is_set
is_set_iff bits x = (ground arith, ground arith)

pub is_set-set_bit :
    (bits : List ℕ) (x : ℕ) → IsBytes bits → x / 8 < length bits → is_set (set_bit bits x) x ≡ true
unfolding set_bit
is_set-set_bit bits x w h = (is_set_iff (set_bit bits x) x).1 (
    rw (byte_at-or_self bits (x / 8) (2 ^ (x % 8)) h)
      (or_sets (x % 8) (byte_at bits (x / 8)) (omega arith) (byte_at-lt bits (x / 8) w)))

-- Every bit that is set in `a` is set in `b`.
abbrev pub Below : List ℕ → List ℕ → Type 0
Below a b = (x : ℕ) → is_set a x ≡ true → is_set b x ≡ true

set_bit-Below : (bits : List ℕ) (y : ℕ) → IsBytes bits → Below bits (set_bit bits y)
unfolding set_bit
set_bit-Below bits y w x e = (is_set_iff (set_bit bits y) x).1 (go ((is_set_iff bits x).0 e))
  where
    go :
        bit_and (byte_at bits (x / 8)) (2 ^ (x % 8)) ≢ 0
        → bit_and (byte_at (or_at bits (y / 8) (2 ^ (y % 8))) (x / 8)) (2 ^ (x % 8)) ≢ 0
    go n = elim (Bool-cases (y / 8 == x / 8)) [
      | inr q ↦ rw (byte_at-or_other bits (y / 8) (x / 8) (2 ^ (y % 8)) (ground arith)) n
      | inl q ↦
          let same : y / 8 ≡ x / 8 = ground arith in
          elim (Bool-cases (ltb (y / 8) (length bits))) [
            | inl l ↦
                let written : byte_at (or_at bits (y / 8) (2 ^ (y % 8))) (x / 8)
                    ≡ bit_or (byte_at bits (x / 8)) (2 ^ (y % 8)) =
                  subst
                    (λ i.
                      byte_at (or_at bits (y / 8) (2 ^ (y % 8))) i
                      ≡ bit_or (byte_at bits i) (2 ^ (y % 8)))
                    same (byte_at-or_self bits (y / 8) (2 ^ (y % 8)) (ltb→lt _ _ l)) in
                rw written (
                  or_keeps (x % 8) (y % 8) (byte_at bits (x / 8)) (omega arith) (omega arith)
                    (byte_at-lt bits (x / 8) w) n)
            | inr l ↦ rw (or_at-past bits (y / 8) (2 ^ (y % 8)) (ground arith)) n
          ]
    ]

pub all_set-Below :
    (n i : ℕ) (h : ℕ × ℕ) (nbits : ℕ) (a b : List ℕ)
    → Below a b
    → all_set n i h nbits a ≡ true
    → all_set n i h nbits b ≡ true
unfolding all_set
all_set-Below zero i h nbits a b le e = refl
all_set-Below (suc n) i h nbits a b le e =
    ground (arith, le (probe h nbits i), all_set-Below n (i + 1) h nbits a b le)

-- What adding keys keeps: the size, and that these are bytes; no bit is cleared.
pub record Grown (a b : List ℕ) : Type 0 where
  pub size : length b ≡ length a
  pub bytes : IsBytes b
  pub below : Below a b

pub Grown-trans : {a b c : List ℕ} → Grown a b → Grown b c → Grown a c
Grown-trans s t = record {
  size = t.size ∙ s.size;
  bytes = t.bytes;
  below = λ x e. t.below x (s.below x e);
}

pub set_bit-Grown : (bits : List ℕ) (y : ℕ) → IsBytes bits → Grown bits (set_bit bits y)
unfolding set_bit
set_bit-Grown bits y w = record {
  size = length-or_at bits (y / 8) (2 ^ (y % 8));
  bytes = or_at-IsBytes bits (y / 8) (y % 8) (omega arith) w;
  below = set_bit-Below bits y w;
}
