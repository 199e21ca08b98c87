-- ===== src/Frame.antt =====
-- core-crypto/src/quic_app/frame.rs: the frames of a QUIC stream.
pub mod RoundTrip
use kyber_pipe.Base.{
  ℕ, ◌+◌, ◌*◌, List, [], ◌∷◌, ◌++◌, length, take, drop, ltb, ◌==◌, not, if◌then◌else◌, Bytes,
  wrap32, to_be_bytes32, from_be_bytes,
}
use kyber_pipe.Error.{Result, ok, err, ◌>>=◌, network_error}

abbrev pub max_message_size : ℕ
max_message_size = 1024 * 1024

pub record QuicFrame : Type 0 where
  pub stream_type : ℕ
  pub body : Bytes

pub encode : QuicFrame → Bytes
encode f = f.stream_type ∷ (to_be_bytes32 (wrap32 (length f.body)) ++ f.body)

-- `data[0]` of a slice that the caller has found long enough.
abbrev pub first : Bytes → ℕ
first [] = 0
first (b ∷ bs) = b

pub decode : Bytes → Result QuicFrame
decode bytes =
    let body_len = from_be_bytes (take 4 (drop 1 bytes)) 0 in
    if ltb (length bytes) 5
    then err network_error
    else if ltb max_message_size body_len
    then err network_error
    else if ltb (length bytes) (5 + body_len)
    then err network_error
    else ok (record { stream_type = first bytes; body = take body_len (drop 5 bytes) })

-- A receive stream is the bytes that the peer sent before it closed. `read_exact`: the next `n`
-- bytes, or the stream ended early.
pub read_exact : ℕ → Bytes → Result (Bytes × Bytes)
read_exact n stream =
    if ltb (length stream) n then err network_error else ok (take n stream, drop n stream)

pub recv_frame_header : Bytes → Result ((ℕ × ℕ) × Bytes)
recv_frame_header stream = do
  (header, rest) ← read_exact 5 stream
  let body_len = from_be_bytes (take 4 (drop 1 header)) 0
  if ltb max_message_size body_len then err network_error else ok ((first header, body_len), rest)

-- `take(body_len).read_to_end`: at most `body_len` bytes, and a short read is an error.
pub recv_frame_body : ℕ → Bytes → Result (Bytes × Bytes)
recv_frame_body body_len stream =
    let body = take body_len stream in
    if ltb max_message_size body_len
    then err network_error
    else if body_len == 0
    then ok ([], stream)
    else if not (length body == body_len)
    then err network_error
    else ok (body, drop body_len stream)

pub recv_frame : Bytes → Result (QuicFrame × Bytes)
recv_frame stream = do
  ((stream_type, body_len), rest) ← recv_frame_header stream
  (body, rest') ← recv_frame_body body_len rest
  ok (record { stream_type = stream_type; body = body }, rest')
