-- ===== src/Net/Frame/RoundTrip.antt =====
-- What net/frame.cc writes it reads.
use flotilladb.Base.{ℕ, ◌≡◌, refl}
use flotilladb.Base.{inl, inr, false, List, ◌++◌}
use flotilladb.Base.{append_assoc, arith, ltb, Bool-cases}
use flotilladb.Base.{length, length-append}
use flotilladb.Coding.{put_fixed32}
use flotilladb.Coding.RoundTrip.{length-put_fixed32}
use flotilladb.Records.{take_front, drop_front, decode-put_fixed32}
use flotilladb.Status.{Result, done}
use flotilladb.Net.Frame.{max_frame_bytes, read_full, read_payload, read_frame, write_frame}

read_full-front : (xs ys : List ℕ) (n : ℕ) → length xs ≡ n → read_full n (xs ++ ys) ≡ done (xs, ys)
unfolding read_full
read_full-front xs ys n h =
    let enough : ltb (length (xs ++ ys)) n ≡ false = ground (arith, length-append xs ys) in
    rw (enough, take_front n xs ys h, drop_front n xs ys h) refl

-- A payload that `WriteFrame` accepts, behind which anything may follow on the connection, is what
-- `ReadFrame` returns, and it leaves what follows.
pub read_frame-write_frame :
    (payload sent rest : List ℕ)
    → write_frame payload ≡ done sent
    → read_frame (sent ++ rest) ≡ done (payload, rest)
unfolding read_frame write_frame read_payload
read_frame-write_frame payload sent rest h =
    elim (Bool-cases (ltb max_frame_bytes (length payload))) [
      | inl big ↦ cc (rw big at h)
      | inr small ↦
          let same : Result.done (put_fixed32 (length payload) ++ payload) ≡ done sent =
            rw small at h in
          go small (cc same)
    ]
  where
    go :
        ltb max_frame_bytes (length payload) ≡ false
        → sent ≡ put_fixed32 (length payload) ++ payload
        → read_frame (sent ++ rest) ≡ done (payload, rest)
    go small e =
        rw
          (
            e,
            append_assoc (put_fixed32 (length payload)) payload rest,
            read_full-front (put_fixed32 (length payload)) (payload ++ rest) 4
                (length-put_fixed32 (length payload)),
            decode-put_fixed32 (length payload) (ground arith),
            small,
            read_full-front payload rest (length payload) refl,
          )
          refl
