-- ===== src/Coding.antt =====
-- common/coding.h: little-endian fixed-width integers, length prefixes, and the sequential
-- `Decoder`. A byte string is a list of byte values.
pub mod RoundTrip
use flotilladb.Base.{ℕ, zero, suc, ◌+◌, ◌-◌, ◌*◌, ◌/◌, ◌%◌, ◌^◌, ◌<◌}
use flotilladb.Base.{Bool, true, false, not, ◌&&◌, ◌||◌, List, [], ◌∷◌, ◌++◌}
use flotilladb.Base.{ltb, ◌==◌, if◌then◌else◌}
use flotilladb.Base.{length, take, drop}
use Prim.Native.Nat.{bit_or}

-- The loop `buf[i] = static_cast<char>(v >> (8 * i))` over `n` bytes, from `i` on
unfoldable pub put_bytes : ℕ → ℕ → ℕ → List ℕ
put_bytes zero i v = []
put_bytes (suc n) i v = (v / 2 ^ (8 * i) % 2 ^ 8) ∷ put_bytes n (i + 1) v

-- What each writer appends to `*dst`; the argument is first cut to the parameter's width.
unfoldable pub put_fixed8 : ℕ → List ℕ
put_fixed8 v = (v % 2 ^ 8) ∷ []

unfoldable pub put_fixed32 : ℕ → List ℕ
put_fixed32 v = put_bytes 4 0 (v % 2 ^ 32)

unfoldable pub put_fixed64 : ℕ → List ℕ
put_fixed64 v = put_bytes 8 0 (v % 2 ^ 64)

unfoldable pub put_length_prefixed : List ℕ → List ℕ
put_length_prefixed s = put_fixed32 (length s) ++ s

-- The loop `v = (v << 8) | p[i]` from the last byte down, at `w` bits
unfoldable pub decode_bytes : ℕ → List ℕ → ℕ
decode_bytes w [] = 0
decode_bytes w (b ∷ bs) = bit_or (decode_bytes w bs * 2 ^ 8 % 2 ^ w) b

unfoldable pub decode_fixed8 : List ℕ → ℕ
decode_fixed8 [] = 0
decode_fixed8 (b ∷ bs) = b

unfoldable pub decode_fixed32 : List ℕ → ℕ
decode_fixed32 p = decode_bytes 32 p

unfoldable pub decode_fixed64 : List ℕ → ℕ
decode_fixed64 p = decode_bytes 64 p

-- class Decoder: `rest` is `data_` from `pos_` on.
pub record Decoder : Type 0 where
  pub rest : List ℕ
  pub failed : Bool

unfoldable pub decoder : List ℕ → Decoder
decoder xs = record { rest = xs; failed = false }

abbrev pub Reader : Type 0 → Type 0
Reader A = Decoder → A × Decoder

infixl 5 ◌>>=◌
abbrev pub ◌>>=◌ : {A B : Type 0} → Reader A → (A → Reader B) → Reader B
◌>>=◌ m f d = let p = m d in f p.0 p.1

abbrev pub pure : {A : Type 0} → A → Reader A
pure a d = (a, d)

-- The common shape `Have(n) ? f(Advance(n)) : fallback`
unfoldable pub take_or : {A : Type 0} → ℕ → A → (List ℕ → A) → Reader A
take_or n fallback f d =
    if d.failed || ltb (length d.rest) n
    then (fallback, record d { failed = true })
    else (f (take n d.rest), record d { rest = drop n d.rest })

unfoldable pub u8 : Reader ℕ
u8 = take_or 1 0 decode_fixed8

unfoldable pub u32 : Reader ℕ
u32 = take_or 4 0 decode_fixed32

unfoldable pub u64 : Reader ℕ
u64 = take_or 8 0 decode_fixed64

unfoldable pub bytes : ℕ → Reader (List ℕ)
bytes n = take_or n [] (λ p. p)

-- `LengthPrefixed` and `Str`
unfoldable pub str : Reader (List ℕ)
str = do n ← u32; bytes n

-- `ok() && remaining() == 0`
unfoldable pub finished : Decoder → Bool
finished d = not d.failed && length d.rest == 0
