-- ===== src/Coding/RoundTrip.antt =====
-- What common/coding.h writes it reads back, whatever follows.
use flotilladb.Base.{ℕ, zero, suc, ◌+◌, ◌*◌, ◌/◌, ◌%◌, ◌^◌, ◌≤◌, ◌<◌, ◌≡◌, refl, sym, ap, ◌∙◌}
use flotilladb.Base.{false, List, [], ◌∷◌, ◌++◌}
use flotilladb.Base.{append_assoc, arith, ltb}
use flotilladb.Base.{length, take, drop, length-append, take-append, drop-append}
use flotilladb.Base.Bits.{bit_or-add}
use flotilladb.Coding.{
  put_bytes, put_fixed8, put_fixed32, put_fixed64, put_length_prefixed, decode_bytes, decode_fixed8,
  decode_fixed32, decode_fixed64, Decoder, decoder, take_or, u8, u32, u64, bytes, str,
}
use Prim.Native.Nat.{bit_or}
use native.Mathlib.Nat.{pow-le-pow_right, div-div-eq-div-mul, mod-eq_of_lt}
use native.Mathlib.Numerals.{towards_suc}

pub length-put_bytes : (n i v : ℕ) → length (put_bytes n i v) ≡ n
unfolding put_bytes
length-put_bytes zero i v = refl
length-put_bytes (suc n) i v = ap suc (length-put_bytes n (i + 1) v)

eight_more : (s : ℕ) → 2 ^ (s + 8) ≡ 2 ^ 8 * 2 ^ s
eight_more s = simp towards_suc (omega arith)

pub next_byte : (i : ℕ) → 2 ^ (8 * (i + 1)) ≡ 2 ^ 8 * 2 ^ (8 * i)
next_byte i =
    ap (λ (k : ℕ). 2 ^ k) (let e : 8 * (i + 1) ≡ 8 * i + 8 = omega arith in e) ∙ eight_more (8 * i)

shift_byte : (v i : ℕ) → v / 2 ^ (8 * (i + 1)) ≡ v / 2 ^ 8 / 2 ^ (8 * i)
shift_byte v i =
    ap (λ (k : ℕ). v / k) (next_byte i) ∙ sym (div-div-eq-div-mul v (2 ^ 8) (2 ^ (8 * i)))

put_bytes_shift : (n i v : ℕ) → put_bytes n (i + 1) v ≡ put_bytes n i (v / 2 ^ 8)
unfolding put_bytes
put_bytes_shift zero i v = refl
put_bytes_shift (suc n) i v = rw (shift_byte v i, put_bytes_shift n (i + 1) v) refl

pub decode_bytes-put :
    (w n v : ℕ) → v < 2 ^ (8 * n) → 8 * n ≤ w → decode_bytes w (put_bytes n 0 v) ≡ v
unfolding decode_bytes put_bytes
decode_bytes-put w zero v h k = omega arith
decode_bytes-put w (suc n) v h k =
    let size : 2 ^ (8 * suc n) ≡ 2 ^ 8 * 2 ^ (8 * n) =
      ap (λ (k : ℕ). 2 ^ k) (let e : 8 * suc n ≡ 8 * (n + 1) = omega arith in e) ∙ next_byte n in
    let room = pow-le-pow_right {n = 2} (omega arith) k in
    let tail =
      ap (decode_bytes w) (put_bytes_shift n 0 v)
      ∙ decode_bytes-put w n (v / 2 ^ 8) (omega (arith, size)) (omega arith) in
    let kept : v / 2 ^ 8 * 2 ^ 8 % 2 ^ w ≡ v / 2 ^ 8 * 2 ^ 8 =
      mod-eq_of_lt (omega (arith, size, room)) in
    ap (λ (t : ℕ). bit_or (t * 2 ^ 8 % 2 ^ w) (v / 1 % 2 ^ 8)) tail
    ∙ ap (λ (t : ℕ). bit_or t (v / 1 % 2 ^ 8)) kept
    ∙ bit_or-add 8 (v / 2 ^ 8) (v / 1 % 2 ^ 8) (omega arith)
    ∙ omega arith

-- A reader whose window is the front of the input
pub take_or-front :
    {A : Type 0} (n : ℕ) (fallback : A) (f : List ℕ → A) (xs ys : List ℕ)
    → length xs ≡ n
    → take_or n fallback f (decoder (xs ++ ys)) ≡ (f xs, decoder ys)
unfolding take_or decoder
take_or-front n fallback f xs ys h =
    let enough : ltb (length (xs ++ ys)) n ≡ false = ground (arith, length-append xs ys) in
    let front : take n (xs ++ ys) ≡ xs =
      ap (λ (k : ℕ). take k (xs ++ ys)) (sym h) ∙ take-append xs ys in
    let back : drop n (xs ++ ys) ≡ ys =
      ap (λ (k : ℕ). drop k (xs ++ ys)) (sym h) ∙ drop-append xs ys in
    rw (enough, front, back) refl

pub u8-put : (v : ℕ) (ys : List ℕ) → v < 2 ^ 8 → u8 (decoder (put_fixed8 v ++ ys)) ≡ (v, decoder ys)
unfolding u8 put_fixed8 decode_fixed8
u8-put v ys h =
    take_or-front 1 0 decode_fixed8 ((v % 2 ^ 8) ∷ []) ys refl
    ∙ ap (λ (x : ℕ). (x, decoder ys)) (omega arith)

pub decode_fixed32-put : (v : ℕ) → v < 2 ^ 32 → decode_fixed32 (put_fixed32 v) ≡ v
unfolding put_fixed32 decode_fixed32
decode_fixed32-put v h =
    decode_bytes-put 32 4 (v % 2 ^ 32) (omega arith) (omega arith) ∙ mod-eq_of_lt h

pub u32-put :
    (v : ℕ) (ys : List ℕ) → v < 2 ^ 32 → u32 (decoder (put_fixed32 v ++ ys)) ≡ (v, decoder ys)
unfolding u32 put_fixed32 decode_fixed32
u32-put v ys h =
    take_or-front 4 0 (decode_bytes 32) (put_bytes 4 0 (v % 2 ^ 32)) ys (length-put_bytes 4 0 _)
    ∙ ap (λ (x : ℕ). (x, decoder ys))
        (decode_bytes-put 32 4 (v % 2 ^ 32) (omega arith) (omega arith) ∙ mod-eq_of_lt h)

pub u64-put :
    (v : ℕ) (ys : List ℕ) → v < 2 ^ 64 → u64 (decoder (put_fixed64 v ++ ys)) ≡ (v, decoder ys)
unfolding u64 put_fixed64 decode_fixed64
u64-put v ys h =
    take_or-front 8 0 (decode_bytes 64) (put_bytes 8 0 (v % 2 ^ 64)) ys (length-put_bytes 8 0 _)
    ∙ ap (λ (x : ℕ). (x, decoder ys))
        (decode_bytes-put 64 8 (v % 2 ^ 64) (omega arith) (omega arith) ∙ mod-eq_of_lt h)

pub str-put :
    (s ys : List ℕ)
    → length s < 2 ^ 32
    → str (decoder (put_length_prefixed s ++ ys)) ≡ (s, decoder ys)
unfolding str put_length_prefixed bytes
str-put s ys h =
    ap str (ap decoder (append_assoc (put_fixed32 (length s)) s ys))
    ∙ ap (λ (p : ℕ × Decoder). bytes p.0 p.1) (u32-put (length s) (s ++ ys) h)
    ∙ take_or-front (length s) [] (λ p. p) s ys refl

pub length-put_fixed8 : (v : ℕ) → length (put_fixed8 v) ≡ 1
unfolding put_fixed8
length-put_fixed8 v = refl

pub length-put_fixed32 : (v : ℕ) → length (put_fixed32 v) ≡ 4
unfolding put_fixed32
length-put_fixed32 v = length-put_bytes 4 0 _

pub length-put_fixed64 : (v : ℕ) → length (put_fixed64 v) ≡ 8
unfolding put_fixed64
length-put_fixed64 v = length-put_bytes 8 0 _
