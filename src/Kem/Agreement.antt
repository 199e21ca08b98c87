-- ===== src/Kem/Agreement.antt =====
-- Both ends of a hybrid encapsulation hold the same secret.
use kyber_pipe.Base.{
  ◌+◌, ◌≡◌, inl, inr, false, some, ◌++◌, length, length-append, take, drop, take-append,
  drop-append, subst, arith, Bool-cases, Option-cases, Bytes,
}
use kyber_pipe.Error.{ok}
use kyber_pipe.Primitives.{Crypto, Entropy}
use kyber_pipe.Kem.{
  HybridKemResult, is_low_order_x25519_point, all_zero, combine, generate_hybrid_keypair,
  encapsulate_hybrid, decapsulate_hybrid,
}

-- X25519 agrees, its public keys have 32 bytes and none has a small order; ML-KEM decapsulates what
-- was encapsulated to its key pair, and its ciphertexts have the fixed length.
pub record KemLaws (c : Crypto) : Type 0 where
  pub dh_comm : (a b : Bytes) → c.dh a (c.public_of b) ≡ c.dh b (c.public_of a)
  pub length-public_of : (a : Bytes) → length (c.public_of a) ≡ 32
  pub public_of_order : (a : Bytes) → is_low_order_x25519_point (c.public_of a) ≡ false
  pub length-ciphertext : (pk r : Bytes) → length (c.encapsulate pk r).1 ≡ c.kyber_ciphertext_bytes
  pub decapsulate-encapsulate :
      (seed r pk : Bytes)
      → c.kyber_public_key (c.kyber_keypair seed).0 ≡ some pk
      → (ct sk : Bytes) × (c.kyber_ciphertext (c.encapsulate pk r).1 ≡ some ct)
        × (c.kyber_secret_key (c.kyber_keypair seed).1 ≡ some sk)
        × (c.decapsulate ct sk ≡ (c.encapsulate pk r).0)

module _ (c : Crypto) (laws : KemLaws c) where
  -- A successful encapsulation to a generated key pair has a 32-byte point and a valid key inside.
  decapsulates :
      (r mine : Entropy) (pk : Bytes)
      → c.kyber_public_key (c.kyber_keypair mine.pair_seed).0 ≡ some pk
      → all_zero (c.dh r.ephemeral_sk (c.public_of mine.pair_sk)) ≡ false
      → decapsulate_hybrid c
          (c.public_of r.ephemeral_sk ++ (c.encapsulate pk r.encapsulation_seed).1)
          mine.pair_sk
          (c.kyber_keypair mine.pair_seed).1
        ≡ ok (
            combine
              (c.dh r.ephemeral_sk (c.public_of mine.pair_sk))
              (c.encapsulate pk r.encapsulation_seed).0)
  unfolding decapsulate_hybrid
  decapsulates r mine pk e z =
      let point = c.public_of r.ephemeral_sk in
      let body = (c.encapsulate pk r.encapsulation_seed).1 in
      let (ct, sk, hct, hsk, agree) =
        laws.decapsulate-encapsulate mine.pair_seed r.encapsulation_seed pk e in
      let size : length (point ++ body) ≡ 32 + c.kyber_ciphertext_bytes = omega (
        arith,
        length-append point body,
        laws.length-public_of r.ephemeral_sk,
        laws.length-ciphertext pk r.encapsulation_seed,
      ) in
      let head : take 32 (point ++ body) ≡ point =
        subst (λ n. take n (point ++ body) ≡ point) (laws.length-public_of r.ephemeral_sk)
          (take-append point body) in
      let tail : drop 32 (point ++ body) ≡ body =
        subst (λ n. drop n (point ++ body) ≡ body) (laws.length-public_of r.ephemeral_sk)
          (drop-append point body) in
      rw
        (
          size,
          head,
          tail,
          laws.public_of_order r.ephemeral_sk,
          laws.dh_comm mine.pair_sk r.ephemeral_sk,
          z,
          hct,
          hsk,
          agree,
        )
        (ground arith)

  -- Over X25519 and ML-KEM that meet their laws: what is encapsulated to the public halves of a
  -- generated key pair, its private halves decapsulate to the same secret.
  pub decapsulate_hybrid-encapsulate_hybrid :
      (r mine : Entropy) (res : HybridKemResult)
      → encapsulate_hybrid c r
          (generate_hybrid_keypair c mine).x25519_pk
          (generate_hybrid_keypair c mine).mlkem_pk
        ≡ ok res
      → decapsulate_hybrid c res.ciphertext_bytes
          (generate_hybrid_keypair c mine).x25519_sk
          (generate_hybrid_keypair c mine).mlkem_sk
        ≡ ok res.combined_shared_secret
  unfolding encapsulate_hybrid generate_hybrid_keypair
  decapsulate_hybrid-encapsulate_hybrid r mine res e =
      elim (Option-cases (c.kyber_public_key (c.kyber_keypair mine.pair_seed).0)) [
        | inl n ↦ ground arith
        | inr (pk, h) ↦
            elim (Bool-cases (all_zero (c.dh r.ephemeral_sk (c.public_of mine.pair_sk)))) [
              | inl z ↦ ground (arith, laws.public_of_order mine.pair_sk)
              | inr z ↦
                  ground (arith, decapsulates r mine pk h z, laws.public_of_order mine.pair_sk)
            ]
      ]
