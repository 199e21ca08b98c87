-- ===== src/Witness/Sessions.antt =====
-- Two sessions of one pairing, over the toy functions, and what they send.
use kyber_pipe.Base.{arith, ℕ, ◌≡◌, refl, ap, Bool, true, false, none, [], ◌∷◌, Bytes}
use kyber_pipe.Primitives.{Entropy}
use kyber_pipe.Error.{Result, ok, err}
use kyber_pipe.Toy.{toy}
use kyber_pipe.Kem.{HybridKeyPair, generate_hybrid_keypair}
use kyber_pipe.Aead.{encrypt_chacha20}
use kyber_pipe.Tlv.{RatchetEncryptedMessage}
use kyber_pipe.Ratchet.State.{Clock, DoubleRatchetState}
use kyber_pipe.Ratchet.Session.{new_with_keypair}
use kyber_pipe.Ratchet.Fields.{Outcome}
use kyber_pipe.Ratchet.Encrypt.{ratchet_encrypt}

abbrev pub entropy : ℕ → Entropy
entropy n = record {
  pair_sk = n ∷ [];
  pair_seed = n ∷ 1 ∷ [];
  ephemeral_sk = n ∷ 2 ∷ [];
  encapsulation_seed = n ∷ 3 ∷ [];
}

abbrev pub noon : Clock
noon = record { mono = 10_000_000_000; unix = 1_000_000 }

abbrev pub secret : Bytes
secret = 1 ∷ 2 ∷ 3 ∷ []

abbrev pub pair_of : ℕ → HybridKeyPair
pair_of n = generate_hybrid_keypair toy (entropy n)

abbrev pub alice : DoubleRatchetState
alice = new_with_keypair toy secret true (pair_of 1) none none

abbrev pub bob : DoubleRatchetState
bob = new_with_keypair toy secret false (pair_of 2) none none

abbrev pub text : Bytes
text = 104 ∷ 105 ∷ []

abbrev no_message : RatchetEncryptedMessage
no_message = record {
  nonce = [];
  ciphertext = [];
  rekey_x25519_pk = none;
  rekey_mlkem_pk = none;
  rekey_ciphertext = none;
}

abbrev pub message_of : Result RatchetEncryptedMessage → RatchetEncryptedMessage
message_of (ok m) = m
message_of (err e) = no_message

abbrev pub sends : DoubleRatchetState → Outcome RatchetEncryptedMessage
sends s = ratchet_encrypt toy (entropy 3) noon text s

-- The first message.
abbrev pub m1 : RatchetEncryptedMessage
m1 = message_of (sends alice).0

abbrev pub alice1 : DoubleRatchetState
alice1 = (sends alice).1

-- The second.
abbrev pub m2 : RatchetEncryptedMessage
m2 = message_of (sends alice1).0

abbrev pub is_ok : {A : Type 0} → Result A → Bool
is_ok (ok a) = true
is_ok (err e) = false

-- An outcome that is a success is its message and its state.
pub sent_ok :
    (o : Outcome RatchetEncryptedMessage) → is_ok o.0 ≡ true → o ≡ (ok (message_of o.0), o.1)
sent_ok (ok m, s) h = refl
sent_ok (err e, s) h = ground arith

pub sealed1 : sends alice ≡ (ok m1, alice1)
unfolding ratchet_encrypt new_with_keypair generate_hybrid_keypair toy encrypt_chacha20
sealed1 = sent_ok (sends alice) refl

pub sealed2 : sends alice1 ≡ (ok m2, (sends alice1).1)
unfolding ratchet_encrypt new_with_keypair generate_hybrid_keypair toy encrypt_chacha20
sealed2 = sent_ok (sends alice1) refl

abbrev pub bytes_of : Result Bytes → Bytes
bytes_of (ok b) = b
bytes_of (err e) = []

-- An outcome whose bytes are known is that success.
pub opened_ok :
    (o : Outcome Bytes) (plaintext : Bytes) → o.0 ≡ ok plaintext → o ≡ (ok plaintext, o.1)
opened_ok (ok b, s) plaintext h = ap (λ r. (r, s)) h
opened_ok (err e, s) plaintext h = ground arith
