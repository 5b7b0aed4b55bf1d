-- ===== src/Net/Frame.antt =====
-- net/frame.cc over net/socket.cc: a frame is its length and its payload. A connection that is read
-- is the list of the bytes that the peer sends before it closes; `ReadFull` waits for all of them.
pub mod RoundTrip
use flotilladb.Base.{ℕ, ◌*◌, ◌^◌, List, ◌++◌, length, take, drop, ltb, if◌then◌else◌}
use flotilladb.Base.Texts.{codes, decimal}
use flotilladb.Coding.{put_fixed32, decode_fixed32}
use flotilladb.Status.{Result, done, failed, failure, corruption, io_error, invalid_argument, ◌>>=◌}

abbrev pub max_frame_bytes : ℕ
max_frame_bytes = 32 * 2 ^ 20

-- `ReadFull`: `n` bytes and what is left, or the peer has closed before
unfoldable pub read_full : ℕ → List ℕ → Result (List ℕ × List ℕ)
read_full n incoming =
    if ltb (length incoming) n
    then failed (failure io_error (codes "connection closed"))
    else done (take n incoming, drop n incoming)

-- `ReadFrame` once it has the four bytes of the length
unfoldable pub read_payload : ℕ → List ℕ → Result (List ℕ × List ℕ)
read_payload len incoming =
    if ltb max_frame_bytes len
    then failed (failure corruption (codes "frame too large: " ++ decimal len))
    else read_full len incoming

-- `ReadFrame`
unfoldable pub read_frame : List ℕ → Result (List ℕ × List ℕ)
read_frame incoming = do head ← read_full 4 incoming; read_payload (decode_fixed32 head.0) head.1

-- `WriteFrame`: what it sends
unfoldable pub write_frame : List ℕ → Result (List ℕ)
write_frame payload =
    if ltb max_frame_bytes (length payload)
    then failed (failure invalid_argument (codes "frame too large"))
    else done (put_fixed32 (length payload) ++ payload)
