-- ===== src/Engine/Bloom/Contained.antt =====
-- The filter of storage/bloom.cc contains every key that it was built from.
use flotilladb.Base.{ℕ, zero, suc, ◌+◌, ◌*◌, ◌/◌, ◌^◌, ◌<◌, ◌≡◌, refl, ap, subst, ◌∙◌}
use flotilladb.Base.{inl, inr, true, false, ◌||◌, List, [], ◌∷◌, ◌++◌}
use flotilladb.Base.{arith, ltb, ◌==◌, Bool-cases}
use flotilladb.Base.{length, take, drop, All, length-append, take-append, drop-append}
use flotilladb.Coding.{put_fixed32, decode_fixed32}
use flotilladb.Coding.RoundTrip.{length-put_fixed32, decode_fixed32-put}
use flotilladb.Engine.Bloom.{
  hashes, probe, set_bit, add_probes, add_keys, zero_bytes, probe_count, byte_count, build_bloom,
  is_set, all_set, check_bits, may_contain,
}
use flotilladb.Engine.Bloom.Setting.{
  IsBytes, Grown, Grown-trans, is_set-set_bit, all_set-Below, set_bit-Grown,
}

module _ (nbits : ℕ) where
  add_probes-Grown :
      (n i : ℕ) (h : ℕ × ℕ) (bits : List ℕ)
      → IsBytes bits
      → Grown bits (add_probes n i h nbits bits)
  unfolding add_probes
  add_probes-Grown zero i h bits w = record { size = refl; bytes = w; below = λ x e. e }
  add_probes-Grown (suc n) i h bits w =
      let first = set_bit-Grown bits (probe h nbits i) w in
      Grown-trans first (add_probes-Grown n (i + 1) h _ first.bytes)

  probe-lt : (h : ℕ × ℕ) (i : ℕ) → 0 < nbits → probe h nbits i < nbits
  unfolding probe
  probe-lt (h1, h2) i pos = grind arith

  all_set-add_probes :
      (n i : ℕ) (h : ℕ × ℕ) (bits : List ℕ)
      → IsBytes bits
      → 0 < nbits
      → nbits ≡ length bits * 8
      → all_set n i h nbits (add_probes n i h nbits bits) ≡ true
  unfolding all_set add_probes
  all_set-add_probes zero i h bits w pos e = refl
  all_set-add_probes (suc n) i h bits w pos e =
      let x = probe h nbits i in
      let first = set_bit-Grown bits x w in
      let rest = add_probes-Grown n (i + 1) h (set_bit bits x) first.bytes in
      let low : x / 8 < length bits = omega (arith, probe-lt h i pos, e) in
      let hit : is_set (add_probes n (i + 1) h nbits (set_bit bits x)) x ≡ true =
        rest.below x (is_set-set_bit bits x w low) in
      rw hit (
        all_set-add_probes n (i + 1) h (set_bit bits x) first.bytes pos
          (omega (arith, e, first.size)))

  add_keys-Grown :
      (k : ℕ) (keys : List (List ℕ)) (bits : List ℕ)
      → IsBytes bits
      → Grown bits (add_keys k nbits keys bits)
  unfolding add_keys
  add_keys-Grown k [] bits w = record { size = refl; bytes = w; below = λ x e. e }
  add_keys-Grown k (key ∷ keys) bits w =
      let first = add_probes-Grown k 0 (hashes key) bits w in
      Grown-trans first (add_keys-Grown k keys _ first.bytes)

  all_set-add_keys :
      (k : ℕ) (keys : List (List ℕ)) (bits : List ℕ)
      → IsBytes bits
      → 0 < nbits
      → nbits ≡ length bits * 8
      → All (λ key. all_set k 0 (hashes key) nbits (add_keys k nbits keys bits) ≡ true) keys
  unfolding add_keys
  all_set-add_keys k [] bits w pos e = tt
  all_set-add_keys k (key ∷ keys) bits w pos e =
      let first = add_probes-Grown k 0 (hashes key) bits w in
      let rest = add_keys-Grown k keys (add_probes k 0 (hashes key) nbits bits) first.bytes in
      (
        all_set-Below k 0 (hashes key) nbits _ _ rest.below
            (all_set-add_probes k 0 (hashes key) bits w pos e),
        all_set-add_keys k keys (add_probes k 0 (hashes key) nbits bits) first.bytes pos
            (omega (arith, e, first.size)),
      )

zero_bytes-IsBytes : (n : ℕ) → IsBytes (zero_bytes n)
unfolding zero_bytes
zero_bytes-IsBytes zero = tt
zero_bytes-IsBytes (suc n) = (omega arith, zero_bytes-IsBytes n)

length-zero_bytes : (n : ℕ) → length (zero_bytes n) ≡ n
unfolding zero_bytes
length-zero_bytes zero = refl
length-zero_bytes (suc n) = ap suc (length-zero_bytes n)

take_four : (v : ℕ) (ys : List ℕ) → take 4 (put_fixed32 v ++ ys) ≡ put_fixed32 v
take_four v ys =
    subst (λ n. take n (put_fixed32 v ++ ys) ≡ put_fixed32 v) (length-put_fixed32 v)
      (take-append (put_fixed32 v) ys)

drop_four : (v : ℕ) (ys : List ℕ) → drop 4 (put_fixed32 v ++ ys) ≡ ys
drop_four v ys =
    subst (λ n. drop n (put_fixed32 v ++ ys) ≡ ys) (length-put_fixed32 v)
      (drop-append (put_fixed32 v) ys)

drop_eight : (xs : List ℕ) → drop 8 xs ≡ drop 4 (drop 4 xs)
drop_eight [] = refl
drop_eight (a ∷ []) = refl
drop_eight (a ∷ b ∷ []) = refl
drop_eight (a ∷ b ∷ c ∷ []) = refl
drop_eight (a ∷ b ∷ c ∷ d ∷ xs) = refl

-- What the filter of two numbers and the bits says
may_contain_lem :
    (k nbits : ℕ) (bits key : List ℕ)
    → k < 2 ^ 32
    → nbits < 2 ^ 32
    → may_contain (put_fixed32 k ++ (put_fixed32 nbits ++ bits)) key ≡ check_bits k nbits bits key
unfolding may_contain
may_contain_lem k nbits bits key hk hn =
    let body = put_fixed32 nbits ++ bits in
    let whole = put_fixed32 k ++ body in
    let long : ltb (length whole) 8 ≡ false = ground (
      arith,
      length-append (put_fixed32 k) body,
      length-append (put_fixed32 nbits) bits,
      length-put_fixed32 k,
      length-put_fixed32 nbits,
    ) in
    let bits_of : drop 8 whole ≡ bits =
      drop_eight whole ∙ ap (drop 4) (drop_four k body) ∙ drop_four nbits bits in
    let k_of : decode_fixed32 (take 4 whole) ≡ k =
      ap decode_fixed32 (take_four k body) ∙ decode_fixed32-put k hk in
    let n_of : decode_fixed32 (take 4 (drop 4 whole)) ≡ nbits =
      ap decode_fixed32 (ap (take 4) (drop_four k body) ∙ take_four nbits bits)
      ∙ decode_fixed32-put nbits hn in
    rw (long, k_of, n_of, bits_of) refl

check_bits_of :
    (k nbits : ℕ) (bits key : List ℕ)
    → all_set k 0 (hashes key) nbits bits ≡ true
    → check_bits k nbits bits key ≡ true
unfolding check_bits
check_bits_of k nbits bits key e =
    elim (Bool-cases (nbits == 0 || ltb (length bits) ((nbits + 7) / 8))) [
      | inl y ↦ rw y refl
      | inr n ↦ rw n e
    ]

All_imp :
    (P Q : List ℕ → Type 0) (xs : List (List ℕ)) → ((x : List ℕ) → P x → Q x) → All P xs → All Q xs
All_imp P Q [] f a = tt
All_imp P Q (x ∷ xs) f a = (f x a.0, All_imp P Q xs f a.1)

-- Whatever the number of probes that is wanted, a filter whose number of bits fits 32 bits says of
-- each key that it was built from that it may contain it.
pub build_bloom_complete :
    (keys : List (List ℕ)) (bits_per_key wanted : ℕ)
    → byte_count (length keys) bits_per_key * 8 < 2 ^ 32
    → All (λ key. may_contain (build_bloom keys bits_per_key wanted) key ≡ true) keys
unfolding build_bloom
build_bloom_complete keys bits_per_key wanted fits =
    let size = byte_count (length keys) bits_per_key in
    let k = probe_count wanted in
    let start = zero_bytes-IsBytes size in
    All_imp _ _ keys
      (λ key e.
        may_contain_lem k (size * 8) (add_keys k (size * 8) keys (zero_bytes size)) key (few wanted)
          fits
        ∙ check_bits_of k (size * 8) _ key e)
      (all_set-add_keys (size * 8) k keys (zero_bytes size) start
        (some_bits (length keys) bits_per_key) (omega (arith, length-zero_bytes size)))
  where
    few : (w : ℕ) → probe_count w < 2 ^ 32
    few w = unfold probe_count in ground arith

    some_bits : (n b : ℕ) → 0 < byte_count n b * 8
    some_bits n b = unfold byte_count in ground arith
