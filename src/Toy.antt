-- ===== src/Toy.antt =====
-- Small functions in the place of the crates, over which the witnesses evaluate. They meet the laws
-- of Primitives and Kem; they are no cryptography.
use kyber_pipe.Base.{
  ℕ, ◌+◌, ◌*◌, ◌%◌, refl, Option, none, some, [], ◌∷◌, replicate, length-replicate, ◌==◌, ==-refl,
  if◌then◌else◌, arith, Bytes, bytes_eq, bytes_eq_refl,
}
use kyber_pipe.Primitives.{Crypto, AeadLaws}
use kyber_pipe.Kem.{is_low_order_x25519_point}
use kyber_pipe.Kem.Agreement.{KemLaws}

digest : ℕ → Bytes → ℕ
digest acc [] = acc
digest acc (b ∷ bs) = digest ((acc * 31 + b + 7) % 251) bs

salt_digest : Option Bytes → ℕ
unfolding digest
salt_digest none = 1
salt_digest (some salt) = digest 2 salt

toy_expand : Option Bytes → Bytes → Bytes → ℕ → Bytes
unfolding salt_digest
toy_expand salt ikm info n = let d = digest (digest (salt_digest salt) ikm) info in replicate n d

-- The key and the nonce in one byte in front of the text.
seal_byte : Bytes → Bytes → ℕ
unfolding digest
seal_byte key nonce = digest (digest 3 key) nonce

toy_seal : Bytes → Bytes → Bytes → Option Bytes
unfolding seal_byte
toy_seal key nonce plaintext = some (seal_byte key nonce ∷ plaintext)

toy_unseal : Bytes → Bytes → Bytes → Option Bytes
unfolding seal_byte
toy_unseal key nonce [] = none
toy_unseal key nonce (b ∷ plaintext) = if b == seal_byte key nonce then some plaintext else none

tag_of : Bytes → Bytes → Bytes → Bytes
unfolding seal_byte
tag_of key nonce aad = replicate 16 (digest (seal_byte key nonce) aad)

toy_seal_detached : Bytes → Bytes → Bytes → Bytes → Option (Bytes × Bytes)
unfolding tag_of
toy_seal_detached key nonce aad plaintext = some (plaintext, tag_of key nonce aad)

toy_unseal_detached : Bytes → Bytes → Bytes → Bytes → Bytes → Option Bytes
unfolding tag_of
toy_unseal_detached key nonce aad body tag =
    if bytes_eq tag (tag_of key nonce aad) then some body else none

unfoldable pub toy : Crypto
unfolding toy_expand toy_seal toy_unseal toy_seal_detached toy_unseal_detached
toy = record {
  expand = toy_expand;
  seal = toy_seal;
  unseal = toy_unseal;
  seal_detached = toy_seal_detached;
  unseal_detached = toy_unseal_detached;
  public_of = λ sk. replicate 32 9;
  dh = λ sk pk. replicate 32 5;
  kyber_keypair = λ seed. (seed, seed);
  kyber_public_key = λ pk. some pk;
  kyber_secret_key = λ sk. some sk;
  kyber_ciphertext = λ ct. some ct;
  kyber_ciphertext_bytes = 4;
  encapsulate = λ pk r. (replicate 8 (digest 4 pk), replicate 4 (digest 5 r));
  decapsulate = λ ct sk. replicate 8 (digest 4 sk);
}

pub toy-AeadLaws : AeadLaws toy
unfolding toy toy_seal toy_unseal toy_seal_detached toy_unseal_detached tag_of
toy-AeadLaws = record {
  unseal-seal = λ key nonce plaintext sealed h. ground (arith, h, ==-refl (seal_byte key nonce));
  unseal_detached-seal_detached =
      λ key nonce aad plaintext body tag h. ground (arith, h, bytes_eq_refl (tag_of key nonce aad));
  length-tag = λ key nonce aad plaintext body tag h.
      ground (arith, h, length-replicate 16 (digest (seal_byte key nonce) aad));
}

pub toy-KemLaws : KemLaws toy
unfolding toy is_low_order_x25519_point
toy-KemLaws = record {
  dh_comm = λ a b. refl;
  length-public_of = λ a. refl;
  public_of_order = λ a. refl;
  length-ciphertext = λ pk r. refl;
  decapsulate-encapsulate =
      λ seed r pk h. ((toy.encapsulate pk r).1, seed, refl, refl, ground (arith, h));
}
