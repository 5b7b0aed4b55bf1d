-- ===== src/Raft/Files/Sealed.antt =====
-- `Load` of raft/raft_storage.cc over the files `state` and `snap`.
use flotilladb.Base.{ℕ, ◌-◌, ◌^◌, ◌<◌, ◌≡◌, refl, ap, ◌∙◌}
use flotilladb.Base.{true, some, List, [], ◌++◌}
use flotilladb.Base.{append-nil, append_assoc, arith, ◌==◌, ==_iff}
use flotilladb.Base.{length, take, length-append}
use flotilladb.Coding.{put_fixed32, put_fixed64, put_length_prefixed, decoder, finished}
use flotilladb.Coding.RoundTrip.{u32-put, u64-put, str-put, length-put_fixed32, length-put_fixed64}
use flotilladb.Crc.{crc32, crc32-lt}
use flotilladb.Records.{take_front}
use flotilladb.Raft.Types.{HardState, Snapshot}
use flotilladb.Raft.Files.{
  sealed, encode_state, encode_snap, read_state, check_state, load_state, read_snap, check_snap,
  load_snap,
}

read_state-sealed :
    (hs : HardState) (crc : ℕ)
    → hs.term < 2 ^ 64
    → hs.voted_for < 2 ^ 32
    → crc < 2 ^ 32
    → read_state (decoder ((put_fixed64 hs.term ++ put_fixed32 hs.voted_for) ++ put_fixed32 crc))
      ≡ ((hs, crc), decoder [])
unfolding read_state
read_state-sealed hs crc h k l =
    rw
      (
        append_assoc (put_fixed64 hs.term) (put_fixed32 hs.voted_for) (put_fixed32 crc),
        u64-put hs.term _ h,
        u32-put hs.voted_for _ k,
        ← append-nil (put_fixed32 crc),
        u32-put crc [] l,
      )
      refl

check_state-same :
    (hs : HardState) (body file : List ℕ)
    → take 12 file ≡ body
    → check_state file ((hs, crc32 body), decoder []) ≡ some hs
unfolding check_state finished decoder
check_state-same hs body file h =
    let same : (crc32 body == crc32 body) ≡ true = (==_iff _ _).1 refl in rw (h, same) refl

pub load_state-encode :
    (hs : HardState)
    → hs.term < 2 ^ 64
    → hs.voted_for < 2 ^ 32
    → load_state (some (encode_state hs)) ≡ some hs
unfolding load_state encode_state sealed
load_state-encode hs h k =
    let body = put_fixed64 hs.term ++ put_fixed32 hs.voted_for in
    ap (check_state (body ++ put_fixed32 (crc32 body)))
      (read_state-sealed hs (crc32 body) h k (crc32-lt body))
    ∙ check_state-same hs body (body ++ put_fixed32 (crc32 body)) (
        take_front 12 body (put_fixed32 (crc32 body)) (
          omega (
            arith,
            length-append (put_fixed64 hs.term) (put_fixed32 hs.voted_for),
            length-put_fixed64 hs.term,
            length-put_fixed32 hs.voted_for,
          )))

read_snap-sealed :
    (snap : Snapshot) (crc : ℕ)
    → snap.last_index < 2 ^ 64
    → snap.last_term < 2 ^ 64
    → length snap.snap_bytes < 2 ^ 32
    → crc < 2 ^ 32
    → read_snap (
        decoder (
          (put_fixed64 snap.last_index
            ++ (put_fixed64 snap.last_term ++ put_length_prefixed snap.snap_bytes))
          ++ put_fixed32 crc))
      ≡ ((snap, crc), decoder [])
unfolding read_snap
read_snap-sealed snap crc h k l m =
    rw
      (
        append_assoc (put_fixed64 snap.last_index)
            (put_fixed64 snap.last_term ++ put_length_prefixed snap.snap_bytes) (put_fixed32 crc),
        append_assoc (put_fixed64 snap.last_term) (put_length_prefixed snap.snap_bytes)
            (put_fixed32 crc),
        u64-put snap.last_index _ h,
        u64-put snap.last_term _ k,
        str-put snap.snap_bytes _ l,
        ← append-nil (put_fixed32 crc),
        u32-put crc [] m,
      )
      refl

check_snap-same :
    (snap : Snapshot) (body file : List ℕ)
    → take (length file - 4) file ≡ body
    → check_snap file ((snap, crc32 body), decoder []) ≡ some snap
unfolding check_snap finished decoder
check_snap-same snap body file h =
    let same : (crc32 body == crc32 body) ≡ true = (==_iff _ _).1 refl in rw (h, same) refl

pub load_snap-encode :
    (snap : Snapshot)
    → snap.last_index < 2 ^ 64
    → snap.last_term < 2 ^ 64
    → length snap.snap_bytes < 2 ^ 32
    → load_snap (some (encode_snap snap)) ≡ some snap
unfolding load_snap encode_snap sealed
load_snap-encode snap h k l =
    let body =
      put_fixed64 snap.last_index
      ++ (put_fixed64 snap.last_term ++ put_length_prefixed snap.snap_bytes) in
    let tail = put_fixed32 (crc32 body) in
    ap (check_snap (body ++ tail)) (read_snap-sealed snap (crc32 body) h k l (crc32-lt body))
    ∙ check_snap-same snap body (body ++ tail) (
        take_front (length (body ++ tail) - 4) body tail
          (omega (arith, length-append body tail, length-put_fixed32 (crc32 body))))
