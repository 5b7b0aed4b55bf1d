-- ===== src/Engine/Bloom/Bytes.antt =====
-- Setting and testing a bit of a byte, for storage/bloom.cc.
use flotilladb.Base.{
  ℕ, zero, suc, ◌^◌, ◌<◌, ◌≡◌, refl, Bool, true, false, ◌&&◌, arith, ltb, ◌==◌, if◌then◌else◌, ◌≢◌,
}
use Prim.Native.Nat.{bit_and, bit_or}

-- Whether a test holds of the first numbers
first_pass : (ℕ → Bool) → ℕ → Bool
first_pass test zero = true
first_pass test (suc last) = if test last then first_pass test last else false

first_pass-at :
    (test : ℕ → Bool) (count i : ℕ) → i < count → first_pass test count ≡ true → test i ≡ true
unfolding first_pass
first_pass-at test zero i low ok = absurd (omega (arith, low))
first_pass-at test (suc last) i low ok = ground (arith, first_pass-at test last i)

-- The or with a power sets its bit, and keeps the byte a byte and its other bits set.
or_test : ℕ → ℕ → ℕ → Bool
or_test s t b =
    ltb (bit_or b (2 ^ t)) 256
    && ((if bit_and (bit_or b (2 ^ t)) (2 ^ t) == 0 then false else true)
        && (if bit_and b (2 ^ s) == 0
            then true
            else (if bit_and (bit_or b (2 ^ t)) (2 ^ s) == 0 then false else true)))

or_table : first_pass (λ s. first_pass (λ t. first_pass (or_test s t) 256) 8) 8 ≡ true
unfolding first_pass or_test
or_table = refl

or_tested : (s t b : ℕ) → s < 8 → t < 8 → b < 256 → or_test s t b ≡ true
or_tested s t b hs ht hb = first_pass-at (or_test s t) 256 b hb (
    first_pass-at (λ t. first_pass (or_test s t) 256) 8 t ht
      (first_pass-at (λ s. first_pass (λ t. first_pass (or_test s t) 256) 8) 8 s hs or_table))

pub or-lt : (t b : ℕ) → t < 8 → b < 256 → bit_or b (2 ^ t) < 256
unfolding or_test
or-lt t b ht hb = ground (arith, or_tested t t b ht ht hb)

pub or_sets : (t b : ℕ) → t < 8 → b < 256 → bit_and (bit_or b (2 ^ t)) (2 ^ t) ≢ 0
unfolding or_test
or_sets t b ht hb = ground (arith, or_tested t t b ht ht hb)

pub or_keeps :
    (s t b : ℕ)
    → s < 8
    → t < 8
    → b < 256
    → bit_and b (2 ^ s) ≢ 0
    → bit_and (bit_or b (2 ^ t)) (2 ^ s) ≢ 0
unfolding or_test
or_keeps s t b hs ht hb n = ground (arith, or_tested s t b hs ht hb)
