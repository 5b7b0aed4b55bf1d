-- ===== src/Records.antt =====
-- The framing of log records, which storage/wal.cc and raft/raft_storage.cc share:
-- `[u32 length][u32 crc32][payload]`.
use flotilladb.Base.{ℕ, zero, suc, ◌+◌, ◌-◌, ◌%◌, ◌^◌, ◌≤◌, ◌<◌, ◌≡◌, refl, sym, ap, ◌∙◌}
use flotilladb.Base.{inl, inr, true, false, Option, none, some, List, [], ◌∷◌, ◌++◌}
use flotilladb.Base.{
  append-nil, append_assoc, arith, ltb, ◌==◌, if◌then◌else◌, lt→ltb, ==_iff, Bool-cases,
}
use flotilladb.Base.{length, take, drop, length-append, take-append, drop-append}
use flotilladb.Coding.{put_fixed32, decode_fixed32}
use flotilladb.Coding.RoundTrip.{length-put_fixed32, decode_bytes-put}
use flotilladb.Crc.{crc32, crc32-lt}
use native.Mathlib.Nat.{mod-eq_of_lt}

unfoldable pub frame : List ℕ → List ℕ
frame payload = put_fixed32 (length payload) ++ (put_fixed32 (crc32 payload) ++ payload)

-- One round of the reading loops: the next payload and what follows it, or `none` where the code
-- breaks out (fewer than 8 bytes, a short payload, a checksum that differs).
unfoldable pub unframe : List ℕ → Option (List ℕ × List ℕ)
unframe rest =
    let len = decode_fixed32 (take 4 rest) in
    let crc = decode_fixed32 (take 4 (drop 4 rest)) in
    let payload = take len (drop 8 rest) in
    if ltb (length rest) 8
    then none
    else if ltb (length rest - 8) len
    then none
    else if crc32 payload == crc
    then some (payload, drop len (drop 8 rest))
    else none

pub decode-put_fixed32 : (v : ℕ) → v < 2 ^ 32 → decode_fixed32 (put_fixed32 v) ≡ v
unfolding decode_fixed32 put_fixed32
decode-put_fixed32 v h =
    decode_bytes-put 32 4 (v % 2 ^ 32) (omega arith) (omega arith) ∙ mod-eq_of_lt h

pub take_front : {A : Type 0} (n : ℕ) (xs ys : List A) → length xs ≡ n → take n (xs ++ ys) ≡ xs
take_front n xs ys h = ap (λ (k : ℕ). take k (xs ++ ys)) (sym h) ∙ take-append xs ys

pub drop_front : {A : Type 0} (n : ℕ) (xs ys : List A) → length xs ≡ n → drop n (xs ++ ys) ≡ ys
drop_front n xs ys h = ap (λ (k : ℕ). drop k (xs ++ ys)) (sym h) ∙ drop-append xs ys

drop-nil : {A : Type 0} (n : ℕ) → drop n (let xs : List A = [] in xs) ≡ []
drop-nil zero = refl
drop-nil (suc n) = refl

drop-drop : {A : Type 0} (m n : ℕ) (xs : List A) → drop n (drop m xs) ≡ drop (m + n) xs
drop-drop zero n xs = ap (λ (k : ℕ). drop k xs) (omega arith)
drop-drop (suc m) n [] = drop-nil n ∙ sym (drop-nil (suc m + n))
drop-drop (suc m) n (x ∷ xs) =
    drop-drop m n xs
    ∙ ap (λ (k : ℕ). drop k (x ∷ xs)) (let e : suc (m + n) ≡ suc m + n = omega arith in e)

take-append_le :
    {A : Type 0} (n : ℕ) (xs ys : List A) → n ≤ length xs → take n (xs ++ ys) ≡ take n xs
take-append_le zero xs ys h = refl
take-append_le (suc n) [] ys h = absurd (omega arith)
take-append_le (suc n) (x ∷ xs) ys h = ap (λ zs. x ∷ zs) (take-append_le n xs ys (omega arith))

-- What follows the two words of a frame
pub framed : List ℕ → List ℕ → List ℕ
framed payload rest =
    put_fixed32 (length payload) ++ (put_fixed32 (crc32 payload) ++ (payload ++ rest))

pub frame-framed : (payload rest : List ℕ) → frame payload ++ rest ≡ framed payload rest
unfolding frame framed
frame-framed payload rest =
    append_assoc (put_fixed32 (length payload)) (put_fixed32 (crc32 payload) ++ payload) rest
    ∙ ap (λ xs. put_fixed32 (length payload) ++ xs)
        (append_assoc (put_fixed32 (crc32 payload)) payload rest)

pub length-frame : (payload : List ℕ) → length (frame payload) ≡ length payload + 8
unfolding frame
length-frame payload = omega (
  arith,
  length-append (put_fixed32 (length payload)) (put_fixed32 (crc32 payload) ++ payload),
  length-append (put_fixed32 (crc32 payload)) payload,
  length-put_fixed32 (length payload),
  length-put_fixed32 (crc32 payload),
)

module _ (payload rest : List ℕ) (fits : length payload < 2 ^ 32) where
  length-framed : length (framed payload rest) ≡ length payload + length rest + 8
  length-framed = omega (
    arith,
    ap length (frame-framed payload rest),
    length-append (frame payload) rest,
    length-frame payload,
  )

  framed_len : decode_fixed32 (take 4 (framed payload rest)) ≡ length payload
  unfolding framed
  framed_len =
      ap decode_fixed32
        (take_front 4 (put_fixed32 (length payload)) _ (length-put_fixed32 (length payload)))
      ∙ decode-put_fixed32 (length payload) fits

  behind_len : drop 4 (framed payload rest) ≡ put_fixed32 (crc32 payload) ++ (payload ++ rest)
  unfolding framed
  behind_len = drop_front 4 (put_fixed32 (length payload)) _ (length-put_fixed32 (length payload))

  framed_crc : decode_fixed32 (take 4 (drop 4 (framed payload rest))) ≡ crc32 payload
  framed_crc =
      ap (λ xs. decode_fixed32 (take 4 xs)) behind_len
      ∙ ap decode_fixed32
          (take_front 4 (put_fixed32 (crc32 payload)) _ (length-put_fixed32 (crc32 payload)))
      ∙ decode-put_fixed32 (crc32 payload) (crc32-lt payload)

  framed_body : drop 8 (framed payload rest) ≡ payload ++ rest
  framed_body =
      sym (drop-drop 4 4 (framed payload rest))
      ∙ ap (drop 4) behind_len
      ∙ drop_front 4 (put_fixed32 (crc32 payload)) _ (length-put_fixed32 (crc32 payload))

  -- A frame is read back, whatever follows it.
  pub unframe-frame : unframe (frame payload ++ rest) ≡ some (payload, rest)
  unfolding unframe
  unframe-frame =
      let whole : ltb (length (framed payload rest)) 8 ≡ false = ground (arith, length-framed) in
      let enough : ltb (length (framed payload rest) - 8) (length payload) ≡ false =
        ground (arith, length-framed) in
      let same : (crc32 payload == crc32 payload) ≡ true = (==_iff _ _).1 refl in
      rw
        (
          frame-framed payload rest,
          framed_len,
          framed_crc,
          framed_body,
          whole,
          enough,
          take_front (length payload) payload rest refl,
          same,
          drop_front (length payload) payload rest refl,
        )
        refl

-- A proper prefix of a frame is no record.
pub unframe-torn :
    (payload torn more : List ℕ)
    → length payload < 2 ^ 32
    → torn ++ more ≡ frame payload
    → 0 < length more
    → unframe torn ≡ none
unfolding unframe
unframe-torn payload torn more fits e h = elim (Bool-cases (ltb (length torn) 8)) [
  | inl short ↦ rw short refl
  | inr long ↦
      let len : decode_fixed32 (take 4 torn) ≡ length payload =
        ap decode_fixed32 (
          sym (take-append_le 4 torn more (ground arith))
          ∙ ap (take 4) (e ∙ sym (append-nil (frame payload)) ∙ frame-framed payload []))
        ∙ framed_len payload [] fits in
      let cut : ltb (length torn - 8) (length payload) ≡ true =
        lt→ltb _ _
          (omega (arith, ap length e, length-append torn more, length-frame payload, size long)) in
      rw (long, len, cut) refl
]
  where
    size : ltb (length torn) 8 ≡ false → 8 ≤ length torn
    size p = ground arith

pub cut-append :
    (xs torn : List ℕ)
    → (if ltb (length xs) (length (xs ++ torn)) then take (length xs) (xs ++ torn) else xs ++ torn)
      ≡ xs
cut-append xs torn = elim (Bool-cases (ltb (length xs) (length (xs ++ torn)))) [
  | inl c ↦ rw c (take-append xs torn)
  | inr c ↦ rw c (empty torn (ground (arith, length-append xs torn)))
]
  where
    empty : (ts : List ℕ) → length ts ≡ 0 → xs ++ ts ≡ xs
    empty [] z = append-nil xs
    empty (t ∷ ts) z = absurd (omega arith)
