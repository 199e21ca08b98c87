-- ===== src/Primitives.antt =====
-- The functions of the crates hkdf, chacha20poly1305, x25519-dalek and pqcrypto-kyber that the
-- program calls, as parameters, and the documented behaviour that proofs rely on.
use kyber_pipe.Base.{ℕ, ◌≡◌, Option, some, length, Bytes}

-- `Hkdf::<Sha256>::new(salt, ikm).expand(info, okm)` with an output of the given length. The crate
-- refuses an output of more than 255 * 32 bytes only; every call of the program asks for at most
-- 32, so `expand` has no error here.
-- `None` of a seal, an open or a `from_bytes` is the crate's `Err`.
-- A secret X25519 key is its 32 bytes; `dh sk pk` is `diffie_hellman` and `public_of sk` is
-- `PublicKey::from(&sk)`. `encapsulate pk r` is `kyber768::encapsulate` with the randomness `r`,
-- and gives the shared secret and the ciphertext; `kyber_keypair r` is the public and the secret key.
pub record Crypto : Type 0 where
  pub expand : Option Bytes → Bytes → Bytes → ℕ → Bytes
  pub seal : Bytes → Bytes → Bytes → Option Bytes
  pub unseal : Bytes → Bytes → Bytes → Option Bytes
  pub seal_detached : Bytes → Bytes → Bytes → Bytes → Option (Bytes × Bytes)
  pub unseal_detached : Bytes → Bytes → Bytes → Bytes → Bytes → Option Bytes
  pub public_of : Bytes → Bytes
  pub dh : Bytes → Bytes → Bytes
  pub kyber_keypair : Bytes → Bytes × Bytes
  pub kyber_public_key : Bytes → Option Bytes
  pub kyber_secret_key : Bytes → Option Bytes
  pub kyber_ciphertext : Bytes → Option Bytes
  pub kyber_ciphertext_bytes : ℕ
  pub encapsulate : Bytes → Bytes → Bytes × Bytes
  pub decapsulate : Bytes → Bytes → Bytes

-- ChaCha20-Poly1305 opens what it sealed, with and without associated data, and its tag has
-- 16 bytes.
pub record AeadLaws (c : Crypto) : Type 0 where
  pub unseal-seal :
      (key nonce plaintext sealed : Bytes)
      → c.seal key nonce plaintext ≡ some sealed
      → c.unseal key nonce sealed ≡ some plaintext
  pub unseal_detached-seal_detached :
      (key nonce aad plaintext body tag : Bytes)
      → c.seal_detached key nonce aad plaintext ≡ some (body, tag)
      → c.unseal_detached key nonce aad body tag ≡ some plaintext
  pub length-tag :
      (key nonce aad plaintext body tag : Bytes)
      → c.seal_detached key nonce aad plaintext ≡ some (body, tag)
      → length tag ≡ 16

-- What one call takes from the random number generator: the secret X25519 keys of a new key pair
-- and of an encapsulation, and the randomness that ML-KEM uses for each.
pub record Entropy : Type 0 where
  pub pair_sk : Bytes
  pub pair_seed : Bytes
  pub ephemeral_sk : Bytes
  pub encapsulation_seed : Bytes
