-- ===== src/Ratchet/Encrypt/Plain.antt =====
-- What a session sends that has no rekey under way: plain messages, one for each chain position.
use kyber_pipe.Base.{◌+◌, ◌<◌, ◌≡◌, none, [], Bytes, arith, wrap64, u32_max}
use kyber_pipe.Error.{ok}
use kyber_pipe.Primitives.{Crypto, Entropy}
use kyber_pipe.Aead.{encrypt_chacha20, generate_nonce_from_seq}
use kyber_pipe.Tlv.{RatchetEncryptedMessage}
use kyber_pipe.Ratchet.State.{Clock, DoubleRatchetState}
use kyber_pipe.Ratchet.Chain.{msg_key_of, next_chain_of}
use kyber_pipe.Ratchet.Encrypt.{ratchet_encrypt, seal_message}
use kyber_pipe.Ratchet.Fields.{no_rekey}

-- No carrier waits, and the peer's keys are not known.
pub record IsQuiet (s : DoubleRatchetState) : Type 0 where
  pub no_carrier : s.rekey_pending_confirm_queue ≡ []
  pub no_peer_key : s.peer_x25519_pk ≡ none
  pub generation_fits : s.ratchet_generation < u32_max

-- The state behind one message: one position further.
abbrev pub sent_state : Crypto → DoubleRatchetState → DoubleRatchetState
sent_state c s = record s {
  send = record {
    key = next_chain_of c s.send.key;
    message_count = wrap64 (s.send.message_count + 1);
  };
  rekey_pending_confirm_queue = [];
}

module _ (c : Crypto) (r : Entropy) (now : Clock) (plaintext : Bytes) (s : DoubleRatchetState)
    (q : IsQuiet s) where
  quiet_seal :
      ratchet_encrypt c r now plaintext s
      ≡ seal_message c
          (generate_nonce_from_seq s.send.message_count s.ratchet_generation)
          plaintext
          no_rekey
          []
          (record s {
            send = record s.send { message_count = wrap64 (s.send.message_count + 1) };
            rekey_pending_confirm_queue = [];
          })
  unfolding ratchet_encrypt
  quiet_seal = ground (arith, q.no_carrier, q.no_peer_key, q.generation_fits)

  -- Also where the seal fails, the counter and the chain key have moved together.
  pub sent-ratchet_encrypt : (ratchet_encrypt c r now plaintext s).1 ≡ sent_state c s
  unfolding seal_message
  sent-ratchet_encrypt = rw quiet_seal (ground arith)

  pub quiet_message :
      {m : RatchetEncryptedMessage} {t : DoubleRatchetState}
      → ratchet_encrypt c r now plaintext s ≡ (ok m, t)
      → (m.nonce ≡ generate_nonce_from_seq s.send.message_count s.ratchet_generation)
        × (encrypt_chacha20 c (msg_key_of c s.send.key) m.nonce plaintext [] ≡ ok m.ciphertext)
        × (m.rekey_ciphertext ≡ none)
  unfolding seal_message
  quiet_message h = ground (arith, quiet_seal)
