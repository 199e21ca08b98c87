-- ===== src/Aead.antt =====
-- core-crypto/src/crypto/aead.rs: the AEAD calls and the nonce layout.
pub mod RoundTrip
use kyber_pipe.Base.{
  ℕ, ◌-◌, ◌≡◌, refl, Option, none, some, List, [], ◌∷◌, ◌++◌, length, take, drop, is_empty, ltb,
  if◌then◌else◌, Bytes, to_be_bytes32, to_be_bytes64,
}
use kyber_pipe.Error.{Result, ok, err, ok_or, encryption_failed, decryption_failed}
use kyber_pipe.Primitives.{Crypto}

-- The tag goes behind the body.
abbrev join_tag : Option (Bytes × Bytes) → Option Bytes
join_tag none = none
join_tag (some (body, tag)) = some (body ++ tag)

module _ (c : Crypto) where
  unfoldable pub encrypt_chacha20 : Bytes → Bytes → Bytes → Bytes → Result Bytes
  encrypt_chacha20 key nonce plaintext aad =
      if is_empty aad
      then ok_or (c.seal key nonce plaintext) encryption_failed
      else ok_or (join_tag (c.seal_detached key nonce aad plaintext)) encryption_failed

  -- `split_at(ciphertext.len() - 16)`.
  unfoldable pub decrypt_chacha20 : Bytes → Bytes → Bytes → Bytes → Result Bytes
  decrypt_chacha20 key nonce ciphertext aad =
      let at = length ciphertext - 16 in
      if is_empty aad
      then ok_or (c.unseal key nonce ciphertext) decryption_failed
      else if ltb (length ciphertext) 16
      then err decryption_failed
      else ok_or (c.unseal_detached key nonce aad (take at ciphertext) (drop at ciphertext))
          decryption_failed

-- The generation in bytes 0 to 3 and the message counter in bytes 4 to 11, both big-endian.
unfoldable pub generate_nonce_from_seq : ℕ → ℕ → Bytes
generate_nonce_from_seq seq generation = to_be_bytes32 generation ++ to_be_bytes64 seq
