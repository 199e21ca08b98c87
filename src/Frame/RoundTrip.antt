-- ===== src/Frame/RoundTrip.antt =====
-- A frame that is sent arrives, alone or in a stream of frames.
use kyber_pipe.Base.{
  ℕ, ◌+◌, ◌≤◌, ◌≡◌, refl, [], ◌∷◌, ◌++◌, append_assoc, length, length-append, take, take-append,
  drop-append, take_of_length-le, ==-refl, suc, false, le→ltb, ltb, arith, Bytes, wrap32,
  to_be_bytes32, from_be_bytes-to_be_bytes32, take-to_be_bytes32, drop-to_be_bytes32,
  length-to_be_bytes32,
}
use kyber_pipe.Error.{ok}
use kyber_pipe.Frame.{
  QuicFrame, max_message_size, encode, decode, read_exact, recv_frame_header, recv_frame_body,
  recv_frame,
}

-- A body that the receiver accepts.
abbrev IsSendable : QuicFrame → Type 0
IsSendable f = length f.body ≤ max_message_size

-- The five header bytes, read as the type and the length.
header_of : ℕ → ℕ → Bytes
header_of t n = t ∷ to_be_bytes32 n

encode_lem :
    (f : QuicFrame) (rest : Bytes)
    → IsSendable f
    → encode f ++ rest ≡ header_of f.stream_type (length f.body) ++ (f.body ++ rest)
unfolding encode header_of
encode_lem f rest h =
    let e : wrap32 (length f.body) ≡ length f.body = omega arith in rw e (simp append_assoc)

recv_frame_header-header_of :
    (t n : ℕ) (rest : Bytes)
    → n ≤ max_message_size
    → recv_frame_header (header_of t n ++ rest) ≡ ok ((t, n), rest)
unfolding recv_frame_header header_of read_exact
recv_frame_header-header_of t n rest h =
    let long : ltb (suc (length (to_be_bytes32 n ++ rest))) 5 ≡ false =
      le→ltb (suc (length (to_be_bytes32 n ++ rest))) 5
        (omega (arith, length-append (to_be_bytes32 n) rest, length-to_be_bytes32 n)) in
    rw (
      long,
      take-to_be_bytes32 n rest,
      drop-to_be_bytes32 n rest,
      take_header n,
      from_be_bytes-to_be_bytes32 n (omega arith),
      le→ltb max_message_size n h,
    )
  where
    take_header : (n : ℕ) → take 4 (to_be_bytes32 n) ≡ to_be_bytes32 n
    take_header n = take_of_length-le 4 (to_be_bytes32 n) (omega (arith, length-to_be_bytes32 n))

recv_frame_body-append :
    (body rest : Bytes)
    → length body ≤ max_message_size
    → recv_frame_body (length body) (body ++ rest) ≡ ok (body, rest)
unfolding recv_frame_body
recv_frame_body-append [] rest h = refl
recv_frame_body-append (b ∷ body) rest h =
    rw
      (
        le→ltb max_message_size (suc (length body)) h,
        take-append body rest,
        drop-append body rest,
        ==-refl (suc (length body)),
      )
      (ground arith)

-- The receiver reads back a frame whose body is within the limit, and leaves in the stream the
-- bytes behind it.
pub recv_frame-encode :
    (f : QuicFrame) (rest : Bytes) → IsSendable f → recv_frame (encode f ++ rest) ≡ ok (f, rest)
unfolding recv_frame
recv_frame-encode f rest h = rw (
  encode_lem f rest h,
  recv_frame_header-header_of f.stream_type (length f.body) (f.body ++ rest) h,
  recv_frame_body-append f.body rest h,
)

decode-header_of :
    (t : ℕ) (body rest : Bytes)
    → length body ≤ max_message_size
    → decode (header_of t (length body) ++ (body ++ rest))
      ≡ ok (record { stream_type = t; body = body })
unfolding decode header_of
decode-header_of t body rest h =
    let n = length body in
    let size : length (to_be_bytes32 n ++ (body ++ rest)) ≡ 4 + (n + length rest) = omega (
      arith,
      length-append (to_be_bytes32 n) (body ++ rest),
      length-to_be_bytes32 n,
      length-append body rest,
    ) in
    rw
      (
        take-to_be_bytes32 n (body ++ rest),
        drop-to_be_bytes32 n (body ++ rest),
        from_be_bytes-to_be_bytes32 n (omega arith),
        size,
        le→ltb max_message_size n h,
        take-append body rest,
      )
      (ground arith)

-- The bytes of a frame whose body is within the limit decode in one piece to the frame, and
-- bytes behind it are ignored.
pub decode-encode : (f : QuicFrame) (rest : Bytes) → IsSendable f → decode (encode f ++ rest) ≡ ok f
decode-encode f rest h = rw (encode_lem f rest h) (decode-header_of f.stream_type f.body rest h)
