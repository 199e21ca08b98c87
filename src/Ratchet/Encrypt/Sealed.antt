-- ===== src/Ratchet/Encrypt/Sealed.antt =====
-- Under which key and nonce a message is sealed, whatever it attaches.
use kyber_pipe.Base.{
  ℕ, ◌+◌, ◌≡◌, refl, ap, Option, none, some, inl, inr, Bool-cases, ◌==◌, Bytes, arith, wrap64,
  u32_max, retain, not,
}
use kyber_pipe.Error.{ok, err, Result-cases}
use kyber_pipe.Primitives.{Crypto, Entropy}
use kyber_pipe.Aead.{encrypt_chacha20, generate_nonce_from_seq}
use kyber_pipe.Kem.{encapsulate_hybrid}
use kyber_pipe.Tlv.{RatchetEncryptedMessage}
use kyber_pipe.Ratchet.State.{Clock, Chain, RekeyCarrier, DoubleRatchetState}
use kyber_pipe.Ratchet.Chain.{msg_key_of}
use kyber_pipe.Ratchet.Encrypt.{
  ratchet_encrypt, attach, propose, stage_rekey, finish, seal_message, should_rekey, is_due,
  first_due,
}
use kyber_pipe.Ratchet.Fields.{Outcome, RekeyFields, build_rekey_aad}

-- The rekey fields that a message shows.
abbrev pub shown : RatchetEncryptedMessage → RekeyFields
shown m = record {
  x25519_pk = m.rekey_x25519_pk;
  mlkem_pk = m.rekey_mlkem_pk;
  ciphertext = m.rekey_ciphertext;
}

-- The message is the text, sealed under the message key of a chain key, with the nonce and with the
-- associated data of the fields that the message shows.
abbrev pub IsSealedUnder : Crypto → Bytes → Bytes → Bytes → RatchetEncryptedMessage → Type 0
IsSealedUnder c chain_key nonce plaintext m =
    (m.nonce ≡ nonce)
    × ((aad : Bytes) × (build_rekey_aad (shown m) ≡ ok aad)
        × (encrypt_chacha20 c (msg_key_of c chain_key) nonce plaintext aad ≡ ok m.ciphertext))

module _ (c : Crypto) where
  seal-IsSealedUnder :
      (nonce plaintext aad : Bytes) (f : RekeyFields) (s : DoubleRatchetState)
      {m : RatchetEncryptedMessage} (t : DoubleRatchetState)
      → build_rekey_aad f ≡ ok aad
      → seal_message c nonce plaintext f aad s ≡ (ok m, t)
      → IsSealedUnder c s.send.key nonce plaintext m
  unfolding seal_message
  seal-IsSealedUnder nonce plaintext aad f s {m} t fields h =
      elim (Result-cases (encrypt_chacha20 c (msg_key_of c s.send.key) nonce plaintext aad)) [
        | inl (e, failed) ↦ absurd (ground (arith, failed, h))
        | inr (ciphertext, sealed) ↦ (
          ground (arith, sealed, h),
          (aad, ground (arith, sealed, h, fields), ground (arith, sealed, h)),
        )
      ]

  finish-IsSealedUnder :
      (nonce plaintext : Bytes) (o : Outcome RekeyFields) {m : RatchetEncryptedMessage}
      (t : DoubleRatchetState)
      → finish c nonce plaintext o ≡ (ok m, t)
      → IsSealedUnder c o.1.send.key nonce plaintext m
  unfolding finish
  finish-IsSealedUnder nonce plaintext (err e, s) t h = absurd (cc h)
  finish-IsSealedUnder nonce plaintext (ok f, s) {m} t h = elim (Result-cases (build_rekey_aad f)) [
    | inl (e, failed) ↦ absurd (ground (arith, failed, h))
    | inr (aad, built) ↦
        seal-IsSealedUnder nonce plaintext aad f s {m = m} t built (ground (arith, built, h))
  ]

  propose-send :
      (r : Entropy) (now : Clock) (seq : ℕ) (xpk mpk : Option Bytes) (s : DoubleRatchetState)
      → (propose c r now seq xpk mpk s).1.send ≡ s.send
  unfolding propose stage_rekey
  propose-send r now seq (some xpk) (some mpk) s =
      elim (Result-cases (encapsulate_hybrid c r xpk mpk)) [
        | inl (e, failed) ↦ ground (arith, failed)
        | inr (kem, made) ↦ ground (arith, made)
      ]
  propose-send r now seq (some xpk) none s = refl
  propose-send r now seq none mpk s = refl

  attach-send :
      (r : Entropy) (now : Clock) (seq : ℕ) (carrier : Option RekeyCarrier) (s : DoubleRatchetState)
      → (attach c r now seq carrier s).1.send ≡ s.send
  unfolding attach
  attach-send r now seq (some carrier) s = refl
  attach-send r now seq none s = elim (Bool-cases (should_rekey seq s)) [
    | inl due ↦ rw due (propose-send r now seq s.peer_x25519_pk s.peer_mlkem_pk s)
    | inr quiet ↦ rw quiet refl
  ]

  pub ratchet_encrypt-IsSealedUnder :
      (r : Entropy) (now : Clock) (plaintext : Bytes) (s : DoubleRatchetState)
      {m : RatchetEncryptedMessage} {t : DoubleRatchetState}
      → ratchet_encrypt c r now plaintext s ≡ (ok m, t)
      → IsSealedUnder c s.send.key
          (generate_nonce_from_seq s.send.message_count s.ratchet_generation)
          plaintext
          m
  unfolding ratchet_encrypt
  ratchet_encrypt-IsSealedUnder r now plaintext s {m} {t} h =
      let seq = s.send.message_count in
      let nonce : Bytes = generate_nonce_from_seq seq s.ratchet_generation in
      let fresh : DoubleRatchetState = record s {
        send = record s.send { message_count = wrap64 (seq + 1) };
        rekey_pending_confirm_queue =
            retain (λ carrier. not (is_due now carrier)) s.rekey_pending_confirm_queue;
      } in
      let due = first_due now s.rekey_pending_confirm_queue in
      elim (Bool-cases (s.ratchet_generation == u32_max)) [
        | inl last ↦ absurd (ground (arith, last, h))
        | inr other ↦ rw (← ap (λ (x : Chain). x.key) (attach-send r now seq due fresh)) (
            finish-IsSealedUnder nonce plaintext (attach c r now seq due fresh) {m = m} t
              (ground (arith, other, h)))
      ]
