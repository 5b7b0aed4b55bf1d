-- ===== src/Engine/Bloom.antt =====
-- storage/bloom.cc: the Bloom filter of a table, over lists of byte values.
pub mod Bytes
pub mod Contained
pub mod Setting
use flotilladb.Base.{
  ℕ, zero, suc, ◌+◌, ◌-◌, ◌*◌, ◌/◌, ◌%◌, ◌^◌, Bool, true, false, ◌||◌, List, [], ◌∷◌, ◌++◌, ltb,
  ◌==◌, if◌then◌else◌, length, take, drop,
}
use flotilladb.Coding.{put_fixed32, decode_fixed32}
use Prim.Native.Nat.{bit_and, bit_or, bit_xor}

-- The loop of `Fnv1a64`
unfoldable pub fnv1a64_from : ℕ → List ℕ → ℕ
fnv1a64_from h [] = h
fnv1a64_from h (c ∷ s) = fnv1a64_from (bit_xor h c * 0x100000001b3 % 2 ^ 64) s

unfoldable pub fnv1a64 : List ℕ → ℕ
fnv1a64 s = fnv1a64_from 0xcbf29ce484222325 s

-- `Hashes`: `*h1` and `*h2`
unfoldable pub hashes : List ℕ → ℕ × ℕ
hashes key =
    let h = fnv1a64 key in
    let turned = bit_or (h / 2 ^ 33) (h * 2 ^ 31 % 2 ^ 64) in
    (h, (if turned == 0 then 0x9e3779b97f4a7c15 else turned))

-- `(h1 + i * h2) % nbits` on 64 bits
unfoldable pub probe : ℕ × ℕ → ℕ → ℕ → ℕ
probe (h1, h2) nbits i = (h1 + i * h2 % 2 ^ 64) % 2 ^ 64 % nbits

-- `bits[i] |= m`
unfoldable pub or_at : List ℕ → ℕ → ℕ → List ℕ
or_at [] i m = []
or_at (b ∷ bits) zero m = bit_or b m ∷ bits
or_at (b ∷ bits) (suc i) m = b ∷ or_at bits i m

-- `bits[bit / 8] |= static_cast<uint8_t>(1u << (bit % 8))`
unfoldable pub set_bit : List ℕ → ℕ → List ℕ
set_bit bits bit = or_at bits (bit / 8) (2 ^ (bit % 8))

-- The loop over the probes of a key, from probe `i` on with `n` to go
unfoldable pub add_probes : ℕ → ℕ → ℕ × ℕ → ℕ → List ℕ → List ℕ
add_probes zero i h nbits bits = bits
add_probes (suc n) i h nbits bits = add_probes n (i + 1) h nbits (set_bit bits (probe h nbits i))

unfoldable pub add_keys : ℕ → ℕ → List (List ℕ) → List ℕ → List ℕ
add_keys k nbits [] bits = bits
add_keys k nbits (key ∷ keys) bits = add_keys k nbits keys (add_probes k 0 (hashes key) nbits bits)

unfoldable pub zero_bytes : ℕ → List ℕ
zero_bytes zero = []
zero_bytes (suc n) = 0 ∷ zero_bytes n

-- `k`, where `wanted` is `bits_per_key * 0.69` as a whole number
unfoldable pub probe_count : ℕ → ℕ
probe_count wanted = let k = if ltb wanted 1 then 1 else wanted in if ltb 30 k then 30 else k

-- The size of `bits`
unfoldable pub byte_count : ℕ → ℕ → ℕ
byte_count keys bits_per_key =
    let nbits = keys * bits_per_key in ((if ltb nbits 64 then 64 else nbits) + 7) / 8

-- `BuildBloom`
unfoldable pub build_bloom : (keys : List (List ℕ)) → (bits_per_key wanted : ℕ) → List ℕ
build_bloom keys bits_per_key wanted =
    let size = byte_count (length keys) bits_per_key in
    let k = probe_count wanted in
    put_fixed32 k ++ (put_fixed32 (size * 8) ++ add_keys k (size * 8) keys (zero_bytes size))

-- `bits[i]`, which is read below the size only
unfoldable pub byte_at : List ℕ → ℕ → ℕ
byte_at [] i = 0
byte_at (b ∷ bits) zero = b
byte_at (b ∷ bits) (suc i) = byte_at bits i

unfoldable pub is_set : List ℕ → ℕ → Bool
is_set bits bit = if bit_and (byte_at bits (bit / 8)) (2 ^ (bit % 8)) == 0 then false else true

-- The loop of `BloomMayContain`, from probe `i` on with `n` to go
unfoldable pub all_set : ℕ → ℕ → ℕ × ℕ → ℕ → List ℕ → Bool
all_set zero i h nbits bits = true
all_set (suc n) i h nbits bits =
    let rest = all_set n (i + 1) h nbits bits in
    if is_set bits (probe h nbits i) then rest else false

-- `BloomMayContain` behind the size test
unfoldable pub check_bits : ℕ → ℕ → List ℕ → List ℕ → Bool
check_bits k nbits bits key =
    if nbits == 0 || ltb (length bits) ((nbits + 7) / 8)
    then true
    else all_set k 0 (hashes key) nbits bits

-- `BloomMayContain`
unfoldable pub may_contain : List ℕ → List ℕ → Bool
may_contain filter key =
    if ltb (length filter) 8
    then true
    else check_bits (decode_fixed32 (take 4 filter)) (decode_fixed32 (take 4 (drop 4 filter)))
        (drop 8 filter) key
