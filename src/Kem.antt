-- ===== src/Kem.antt =====
-- core-crypto/src/crypto/kem.rs: the hybrid key exchange of X25519 and ML-KEM-768.
pub mod Agreement
use kyber_pipe.Base.{
  ℕ, zero, suc, ◌+◌, bit_and, Bool, true, false, not, ◌&&◌, ◌||◌, Option, none, some, List, [], ◌∷◌,
  ◌++◌, length, take, drop, replicate, ◌==◌, if◌then◌else◌, Bytes, bytes_eq, ascii,
}
use kyber_pipe.Error.{Result, ok, err, ◌>>=◌, ok_or, encapsulation_failed, decapsulation_failed}
use kyber_pipe.Primitives.{Crypto, Entropy}

pub record HybridKeyPair : Type 0 where
  pub x25519_pk : Bytes
  pub x25519_sk : Bytes
  pub mlkem_pk : Bytes
  pub mlkem_sk : Bytes

pub record HybridKemResult : Type 0 where
  pub ciphertext_bytes : Bytes
  pub combined_shared_secret : Bytes

-- `canonical[i] &= 0x7F`.
mask_at : ℕ → Bytes → Bytes
mask_at i [] = []
mask_at zero (b ∷ bs) = bit_and b 0x7F ∷ bs
mask_at (suc i) (b ∷ bs) = b ∷ mask_at i bs

abbrev low_order : List Bytes
low_order =
    replicate 32 0
    ∷ (1 ∷ replicate 31 0)
    ∷ (0xe0 ∷ 0xeb ∷ 0x7a ∷ 0x7c ∷ 0x3b ∷ 0x41 ∷ 0xb8 ∷ 0xae ∷ 0x16 ∷ 0x56 ∷ 0xe3 ∷ 0xfa ∷ 0xf1
        ∷ 0x9f ∷ 0xc4 ∷ 0x6a ∷ 0xda ∷ 0x09 ∷ 0x8d ∷ 0xeb ∷ 0x9c ∷ 0x32 ∷ 0xb1 ∷ 0xfd ∷ 0x86 ∷ 0x62
        ∷ 0x05 ∷ 0x16 ∷ 0x5f ∷ 0x49 ∷ 0xb8 ∷ 0x00 ∷ [])
    ∷ (0x5f ∷ 0x9c ∷ 0x95 ∷ 0xbc ∷ 0xa3 ∷ 0x50 ∷ 0x8c ∷ 0x24 ∷ 0xb1 ∷ 0xd0 ∷ 0xb1 ∷ 0x55 ∷ 0x9c
        ∷ 0x83 ∷ 0xef ∷ 0x5b ∷ 0x04 ∷ 0x44 ∷ 0x5c ∷ 0xc4 ∷ 0x58 ∷ 0x1c ∷ 0x8e ∷ 0x86 ∷ 0xd8 ∷ 0x22
        ∷ 0x4e ∷ 0xdd ∷ 0xd0 ∷ 0x9f ∷ 0x11 ∷ 0x57 ∷ [])
    ∷ []

contains : List Bytes → Bytes → Bool
contains [] x = false
contains (y ∷ ys) x = bytes_eq y x || contains ys x

unfoldable pub is_low_order_x25519_point : Bytes → Bool
unfolding mask_at contains
is_low_order_x25519_point pk = contains low_order (mask_at 31 pk)

-- `iter().all(|&b| b == 0)`.
unfoldable pub all_zero : Bytes → Bool
all_zero [] = true
all_zero (b ∷ bs) = b == 0 && all_zero bs

-- The two shared secrets behind their labels.
unfoldable pub combine : Bytes → Bytes → Bytes
combine x25519_ss mlkem_ss =
    ascii "KyberPipe-X25519" ++ (x25519_ss ++ (ascii "KyberPipe-MLKEM" ++ mlkem_ss))

module _ (c : Crypto) where
  unfoldable pub generate_hybrid_keypair : Entropy → HybridKeyPair
  generate_hybrid_keypair r =
      let (mlkem_pk, mlkem_sk) = c.kyber_keypair r.pair_seed in
      record {
        x25519_pk = c.public_of r.pair_sk;
        x25519_sk = r.pair_sk;
        mlkem_pk = mlkem_pk;
        mlkem_sk = mlkem_sk;
      }

  unfoldable pub encapsulate_hybrid : Entropy → Bytes → Bytes → Result HybridKemResult
  encapsulate_hybrid r peer_x25519_pk peer_mlkem_pk =
      let x25519_ss = c.dh r.ephemeral_sk peer_x25519_pk in
      if is_low_order_x25519_point peer_x25519_pk || all_zero x25519_ss
      then err encapsulation_failed
      else do
        pk ← ok_or (c.kyber_public_key peer_mlkem_pk) encapsulation_failed
        let sealed = c.encapsulate pk r.encapsulation_seed
        ok (record {
          ciphertext_bytes = c.public_of r.ephemeral_sk ++ sealed.1;
          combined_shared_secret = combine x25519_ss sealed.0;
        })

  unfoldable pub decapsulate_hybrid : Bytes → Bytes → Bytes → Result Bytes
  decapsulate_hybrid combined_ct my_x25519_sk my_mlkem_sk =
      let ephemeral = take 32 combined_ct in
      let x25519_ss = c.dh my_x25519_sk ephemeral in
      if not (length combined_ct == 32 + c.kyber_ciphertext_bytes)
      then err decapsulation_failed
      else if is_low_order_x25519_point ephemeral
      then err decapsulation_failed
      else if all_zero x25519_ss
      then err decapsulation_failed
      else do
        ct ← ok_or (c.kyber_ciphertext (drop 32 combined_ct)) decapsulation_failed
        sk ← ok_or (c.kyber_secret_key my_mlkem_sk) decapsulation_failed
        ok (combine x25519_ss (c.decapsulate ct sk))
