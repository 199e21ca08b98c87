-- ===== src/Padding.antt =====
-- core-crypto/src/crypto/padding.rs: payloads padded to blocks of 256, 1024 or 65536 bytes.
pub mod RoundTrip
use kyber_pipe.Base.{
  ℕ, ◌+◌, ◌-◌, ◌*◌, List, [], ◌∷◌, ◌++◌, length, take, drop, replicate, ltb, leb, if◌then◌else◌,
  Bytes, wrap32, to_be_bytes32, from_be_bytes,
}
use kyber_pipe.Error.{Result, ok, err, encryption_failed, decryption_failed}

-- `Vec::resize` with zero bytes: it fills up, or cuts.
abbrev pub resize : ℕ → Bytes → Bytes
resize n xs = take n xs ++ replicate (n - length xs) 0

pub target_size : ℕ → ℕ
target_size orig_len =
    if leb (orig_len + 4) 256 then 256 else if leb (orig_len + 4) 1024 then 1024 else 64 * 1024

pub pad_payload : Bytes → Result Bytes
pad_payload payload =
    let orig_len = length payload in
    if ltb (64 * 1024 - 4) orig_len
    then err encryption_failed
    else ok (resize (target_size orig_len) (to_be_bytes32 (wrap32 orig_len) ++ payload))

-- `padded[4..4 + orig_len]`.
pub unpad_payload : Bytes → Result Bytes
unpad_payload padded =
    let orig_len = from_be_bytes (take 4 padded) 0 in
    if ltb (length padded) 4
    then err decryption_failed
    else if ltb (length padded - 4) orig_len
    then err decryption_failed
    else ok (take orig_len (drop 4 padded))
