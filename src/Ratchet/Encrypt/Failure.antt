-- ===== src/Ratchet/Encrypt/Failure.antt =====
-- The sending paths that stop before a message is sealed and what is sent behind them, and the
-- messages behind a manual rekey.
use kyber_pipe.Base.{
  ◌+◌, ◌*◌, ◌^◌, ◌<◌, ◌≡◌, sym, ap, subst, ◌∙◌, ◌∷◌, false, Bool, Option, Bool-cases, inl, inr, leb,
  max, ◌-◌, if◌then◌else◌, true, none, some, [], Bytes, arith, wrap64, u32_max,
}
use kyber_pipe.Error.{ok, err, KyberError}
use kyber_pipe.Primitives.{Crypto, Entropy}
use kyber_pipe.Kem.{HybridKemResult, encapsulate_hybrid, generate_hybrid_keypair}
use kyber_pipe.Ratchet.State.{Clock, RekeyCarrier, DoubleRatchetState}
use kyber_pipe.Ratchet.Policy.{carrier_effective_age}
use kyber_pipe.Ratchet.Chain.{step_chain}
use kyber_pipe.Ratchet.Encrypt.Sealed.{IsSealedUnder, ratchet_encrypt-IsSealedUnder}
use kyber_pipe.Aead.{generate_nonce_from_seq}
use kyber_pipe.Ratchet.Fields.{Outcome, build_rekey_aad}
use kyber_pipe.Tlv.{RatchetEncryptedMessage}
use kyber_pipe.Ratchet.Encrypt.{
  seal_message, ratchet_encrypt, attach, propose, finish, is_due, first_due, should_rekey,
  dh_ratchet_rekey,
}

-- Whether 15 seconds have passed on one of the clocks.
abbrev pub waited : Clock → Clock → Bool
waited now later =
    leb (15 * 10 ^ 9) (max (later.mono - now.mono) ((later.unix - now.unix) * 10 ^ 9))

abbrev pub announced : Clock → Clock → Bytes → Option Bytes
announced now later field = if waited now later then some field else none

module _ (c : Crypto) where
  -- A session that is due to rekey and cannot encapsulate to its peer.
  stopped :
      (r : Entropy) (now : Clock) (plaintext xpk mpk : Bytes) (e : KyberError)
      (s : DoubleRatchetState)
      → s.ratchet_generation < u32_max
      → should_rekey s.send.message_count s ≡ true
      → s.peer_x25519_pk ≡ some xpk
      → s.peer_mlkem_pk ≡ some mpk
      → encapsulate_hybrid c r xpk mpk ≡ err e
      → ratchet_encrypt c r now plaintext s ≡ (
        err e,
        record s { send = record s.send { message_count = wrap64 (s.send.message_count + 1) } },
      )
  unfolding ratchet_encrypt should_rekey attach propose finish first_due
  stopped r now plaintext xpk mpk e s small due hx hm failed = ground (arith, hx, hm, failed)

  -- A session of a generation below 2^32 - 1, with a send counter below 2^64 - 1, whose chain key
  -- is the one of its counter, that many steps from a first key `k`. It is due to rekey, and the
  -- encapsulation to the peer's keys fails: the message is refused. Whatever message it sends next
  -- has the nonce of the position behind the refused one, and is sealed under the message key of
  -- the refused position.
  pub failed_rekey_misaligns :
      (r r' : Entropy) (now later : Clock) (plaintext next xpk mpk k : Bytes) (e : KyberError)
      (s : DoubleRatchetState) {m : RatchetEncryptedMessage} {t : DoubleRatchetState}
      → s.ratchet_generation < u32_max
      → s.send.message_count + 1 < 2 ^ 64
      → s.send.key ≡ step_chain c s.send.message_count k
      → should_rekey s.send.message_count s ≡ true
      → s.peer_x25519_pk ≡ some xpk
      → s.peer_mlkem_pk ≡ some mpk
      → encapsulate_hybrid c r xpk mpk ≡ err e
      → ratchet_encrypt c r' later next (ratchet_encrypt c r now plaintext s).1 ≡ (ok m, t)
      → ((ratchet_encrypt c r now plaintext s).0 ≡ err e)
        × IsSealedUnder c
            (step_chain c s.send.message_count k)
            (generate_nonce_from_seq (s.send.message_count + 1) s.ratchet_generation)
            next
            m
  failed_rekey_misaligns r r' now later plaintext next xpk mpk k e s {m} small fits key due hx hm
        failed sent =
      let counted : DoubleRatchetState = record s {
        send = record s.send { message_count = wrap64 (s.send.message_count + 1) };
      } in
      let refusal : ratchet_encrypt c r now plaintext s ≡ (err e, counted) =
        stopped r now plaintext xpk mpk e s small due hx hm failed in
      let sealed = ratchet_encrypt-IsSealedUnder c r' later next counted (
        ap (λ (o : Outcome RatchetEncryptedMessage). ratchet_encrypt c r' later next o.1)
          (sym refusal)
        ∙ sent) in
      let fitting : wrap64 (s.send.message_count + 1) ≡ s.send.message_count + 1 = omega arith in
      (
        ap (λ (o : Outcome RatchetEncryptedMessage). o.0) refusal,
        subst
            (λ chain_key.
              IsSealedUnder c chain_key
                (generate_nonce_from_seq (s.send.message_count + 1) s.ratchet_generation) next m)
            key
            (subst
              (λ seq.
                IsSealedUnder c s.send.key (generate_nonce_from_seq seq s.ratchet_generation) next
                  m)
              fitting sealed),
      )

  -- A message that a session sends behind a manual rekey.
  due_fields :
      (r : Entropy) (later : Clock) (plaintext : Bytes) (carrier : RekeyCarrier)
      (s : DoubleRatchetState) {m : RatchetEncryptedMessage} {t : DoubleRatchetState}
      → s.rekey_pending_confirm_queue ≡ carrier ∷ []
      → is_due later carrier ≡ true
      → ratchet_encrypt c r later plaintext s ≡ (ok m, t)
      → (m.rekey_x25519_pk ≡ some carrier.rekey_x25519_pk)
        × (m.rekey_mlkem_pk ≡ some carrier.rekey_mlkem_pk)
        × (m.rekey_ciphertext ≡ some carrier.rekey_ciphertext)
  unfolding ratchet_encrypt attach finish first_due build_rekey_aad seal_message
  due_fields r later plaintext carrier s one due h = ground (arith, one, due, h)

  waiting_fields :
      (r : Entropy) (later : Clock) (plaintext : Bytes) (carrier : RekeyCarrier)
      (s : DoubleRatchetState) {m : RatchetEncryptedMessage} {t : DoubleRatchetState}
      → s.rekey_pending_confirm_queue ≡ carrier ∷ []
      → is_due later carrier ≡ false
      → ratchet_encrypt c r later plaintext s ≡ (ok m, t)
      → (m.rekey_x25519_pk ≡ none) × (m.rekey_mlkem_pk ≡ none) × (m.rekey_ciphertext ≡ none)
  unfolding ratchet_encrypt attach finish first_due should_rekey build_rekey_aad seal_message
  waiting_fields r later plaintext carrier s one wait h = ground (arith, one, wait, h)

  -- A manual rekey that succeeds on an empty queue of carriers puts up a fresh key pair for
  -- itself. Of a message that is sent behind it, the rekey fields are empty while less than 15
  -- seconds have passed on both clocks. From then on they are the two public keys that the rekey
  -- was called with, those of the peer, and the ciphertext of its encapsulation.
  pub dh_ratchet_rekey_message :
      (r r' : Entropy) (now later : Clock) (xpk mpk plaintext : Bytes) (kem : HybridKemResult)
      (s : DoubleRatchetState) {m : RatchetEncryptedMessage} {t u : DoubleRatchetState}
      → s.rekey_pending_confirm_queue ≡ []
      → dh_ratchet_rekey c r now xpk mpk s ≡ (ok kem, t)
      → ratchet_encrypt c r' later plaintext t ≡ (ok m, u)
      → (t.outgoing_proposal.hybrid_pair ≡ some (generate_hybrid_keypair c r))
        × (m.rekey_x25519_pk ≡ announced now later xpk)
        × (m.rekey_mlkem_pk ≡ announced now later mpk)
        × (m.rekey_ciphertext ≡ announced now later kem.ciphertext_bytes)
  unfolding dh_ratchet_rekey is_due carrier_effective_age
  dh_ratchet_rekey_message r r' now later xpk mpk plaintext kem s {m} {t} empty e sent =
      let carrier : RekeyCarrier = record {
        carrier_seq = 0;
        attached_at = now.mono;
        attached_at_unix = now.unix;
        first_attached_at = now.mono;
        first_attached_at_unix = now.unix;
        rekey_x25519_pk = xpk;
        rekey_mlkem_pk = mpk;
        rekey_ciphertext = kem.ciphertext_bytes;
      } in
      let one : t.rekey_pending_confirm_queue ≡ carrier ∷ [] = ground (arith, empty, e) in
      let pair : t.outgoing_proposal.hybrid_pair ≡ some (generate_hybrid_keypair c r) =
        ground (arith, empty, e) in
      elim (Bool-cases (waited now later)) [
        | inl passed ↦
            let shown = due_fields r' later plaintext carrier t one passed sent in
            (pair, rw passed shown.0, rw passed shown.1, rw passed shown.2)
        | inr early ↦
            let shown = waiting_fields r' later plaintext carrier t one early sent in
            (pair, rw early shown.0, rw early shown.1, rw early shown.2)
      ]
