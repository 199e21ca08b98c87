-- ===== src/Padding/RoundTrip.antt =====
-- What padding.rs pads, it unpads, and a padded block has one of three sizes.
use kyber_pipe.Base.{
  ℕ, ◌+◌, ◌-◌, ◌*◌, ◌≤◌, ◌<◌, ◌≡◌, sym, ap, ◌⊎◌, inl, inr, ◌++◌, append_assoc, length,
  length-append, length-replicate, take, take-append, take_of_length-le, replicate, le→ltb, lt→ltb,
  subst, arith, Bytes, wrap32, to_be_bytes32, from_be_bytes-to_be_bytes32, take-to_be_bytes32,
  drop-to_be_bytes32, length-to_be_bytes32,
}
use native.Mathlib.Decide.{dec_lt}
use kyber_pipe.Error.{ok, err, ◌>>=◌, encryption_failed}
use kyber_pipe.Padding.{resize, target_size, pad_payload, unpad_payload}

-- The bytes behind the header.
abbrev filler : Bytes → Bytes
filler payload = replicate (target_size (length payload) - (4 + length payload)) 0

target_size_fits : (n : ℕ) → n ≤ 65532 → (n + 4 ≤ target_size n) × (target_size n ≤ 65536)
unfolding target_size
target_size_fits n h = ground arith

pad_payload_lem :
    (payload : Bytes)
    → length payload ≤ 65532
    → pad_payload payload ≡ ok (to_be_bytes32 (length payload) ++ (payload ++ filler payload))
unfolding pad_payload
pad_payload_lem payload h = rw (le→ltb (64 * 1024 - 4) (length payload) h) (
    ap ok (
      filled (to_be_bytes32 (wrap32 (length payload))) (to_be_bytes32 (length payload))
        (ap to_be_bytes32 (omega arith)) (length-to_be_bytes32 (length payload))))
  where
    filled :
        (header header' : Bytes)
        → header ≡ header'
        → length header' ≡ 4
        → resize (target_size (length payload)) (header ++ payload)
          ≡ header' ++ (payload ++ filler payload)
    filled header header' e k =
        rw
          (
            e,
            length-append header' payload,
            k,
            take_of_length-le (target_size (length payload)) (header' ++ payload)
                (omega (arith, length-append header' payload, target_size_fits (length payload))),
          )
          (append_assoc header' payload (filler payload))

unpad_payload_lem :
    (n : ℕ) (rest : Bytes)
    → n < 65536
    → n ≤ length rest
    → unpad_payload (to_be_bytes32 n ++ rest) ≡ ok (take n rest)
unfolding unpad_payload
unpad_payload_lem n rest h k =
    rw
      (
        take-to_be_bytes32 n rest,
        drop-to_be_bytes32 n rest,
        from_be_bytes-to_be_bytes32 n (omega arith),
        length-append (to_be_bytes32 n) rest,
        length-to_be_bytes32 n,
      )
      (ground arith)

-- A payload of at most 65532 bytes is padded, and unpadding gives it back.
pub unpad_payload-pad_payload :
    (payload : Bytes)
    → length payload ≤ 65532
    → (pad_payload payload >>= unpad_payload) ≡ ok payload
unpad_payload-pad_payload payload h = rw (
  pad_payload_lem payload h,
  unpad_payload_lem (length payload) (payload ++ filler payload) (omega arith)
      (omega (arith, length-append payload (filler payload))),
  take-append payload (filler payload),
)

-- The block sizes: the smallest that holds `n` bytes and the header.
abbrev pub IsBlockSize : ℕ → ℕ → Type 0
IsBlockSize n size =
    ((size ≡ 256) × (n + 4 ≤ 256))
    ⊎ ((size ≡ 1024) × (256 < n + 4) × (n + 4 ≤ 1024))
    ⊎ ((size ≡ 65536) × (1024 < n + 4) × (n + 4 ≤ 65536))

target_size-IsBlockSize : (n : ℕ) → n ≤ 65532 → IsBlockSize n (target_size n)
unfolding target_size
target_size-IsBlockSize n h = ground arith

length-padded :
    (payload : Bytes)
    → length payload ≤ 65532
    → length (to_be_bytes32 (length payload) ++ (payload ++ filler payload))
      ≡ target_size (length payload)
length-padded payload h = omega (
  arith,
  length-append (to_be_bytes32 (length payload)) (payload ++ filler payload),
  length-append payload (filler payload),
  length-to_be_bytes32 (length payload),
  length-replicate {A = ℕ} (target_size (length payload) - (4 + length payload)) 0,
  target_size_fits (length payload),
)

-- Every padded block has one of the three sizes, the smallest that holds the payload and its
-- header; a payload of more than 65532 bytes is refused, and no other.
pub pad_payload_sizes :
    (payload : Bytes)
    → ((padded : Bytes) × (pad_payload payload ≡ ok padded)
        × IsBlockSize (length payload) (length padded))
      ⊎ ((pad_payload payload ≡ err encryption_failed) × (65532 < length payload))
pad_payload_sizes payload = elim (dec_lt 65532 (length payload)) [
  | yes long ↦ inr (unfold pad_payload in rw (lt→ltb _ _ long), long)
  | no short ↦ inl (
    _,
    pad_payload_lem payload (omega arith),
    subst (IsBlockSize (length payload)) (sym (length-padded payload (omega arith)))
        (target_size-IsBlockSize (length payload) (omega arith)),
  )
]
