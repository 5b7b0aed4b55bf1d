-- ===== src/Tests/Filter.antt =====
-- Tests of the Bloom filter, and its theorem at a concrete input.
use flotilladb.Base.{ℕ, ◌≡◌, refl, true, false, List, [], ◌∷◌, All, arith}
use flotilladb.Coding.{put_fixed32, put_bytes, decode_fixed32, decode_bytes}
use flotilladb.Engine.Bloom.{
  fnv1a64, fnv1a64_from, hashes, probe, or_at, set_bit, add_probes, add_keys, zero_bytes,
  probe_count, byte_count, build_bloom, byte_at, is_set, all_set, check_bits, may_contain,
}
use flotilladb.Engine.Bloom.Contained.{build_bloom_complete}

abbrev keys : List (List ℕ)
keys = (97 ∷ []) ∷ (98 ∷ 0 ∷ []) ∷ []

-- The hash of no bytes is the offset basis, and the one of "a" is the published one.
fnv1a64_text : fnv1a64 (97 ∷ []) ≡ 0xaf63dc4c8601ec8c
unfolding fnv1a64 fnv1a64_from
fnv1a64_text = refl

build_bloom_complete_example : All (λ key. may_contain (build_bloom keys 10 6) key ≡ true) keys
build_bloom_complete_example = build_bloom_complete keys 10 6 (unfold byte_count in (omega arith))

-- A key that was not added
absent : may_contain (build_bloom keys 10 6) (99 ∷ []) ≡ false
unfolding may_contain build_bloom put_fixed32 put_bytes decode_fixed32 decode_bytes check_bits
    all_set is_set byte_at byte_count probe_count zero_bytes add_keys add_probes set_bit or_at probe
    hashes fnv1a64 fnv1a64_from
absent = refl
