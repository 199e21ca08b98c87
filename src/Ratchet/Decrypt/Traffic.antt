-- ===== src/Ratchet/Decrypt/Traffic.antt =====
-- Any traffic between two sessions of a pairing, in one direction and without rekeys.
use kyber_pipe.Base.{
  ◌+◌, ◌^◌, ◌≤◌, ◌<◌, ◌≡◌, refl, sym, ap, ◌∙◌, subst, Bool, true, false, not, Option, none, [],
  Bytes, arith,
}
use kyber_pipe.Error.{ok}
use kyber_pipe.Primitives.{Crypto, AeadLaws, Entropy}
use kyber_pipe.Kem.{HybridKeyPair}
use kyber_pipe.Tlv.{RatchetEncryptedMessage}
use kyber_pipe.Ratchet.State.{Clock, DoubleRatchetState}
use kyber_pipe.Ratchet.Pairs.{set_contains, map_get}
use kyber_pipe.Ratchet.Chain.{step_chain, derive_chain_keys_from_root}
use kyber_pipe.Ratchet.Session.{new_with_keypair}
use kyber_pipe.Ratchet.Fields.{Outcome}
use kyber_pipe.Ratchet.Encrypt.{ratchet_encrypt}
use kyber_pipe.Ratchet.Encrypt.Plain.{sent_state, sent-ratchet_encrypt, quiet_message}
use kyber_pipe.Ratchet.Decrypt.{ratchet_decrypt}
use kyber_pipe.Ratchet.Decrypt.Stream.{
  Synced, heard_state, Synced-lost, Synced-commit_current, message_delivered,
}

-- What can happen on the way from `a`'s sending side to `b`: a message is lost (or could not be
-- sealed), or it arrives, at most `max_skip` positions behind the last one that did.
pub data Traffic (c : Crypto) (a b : DoubleRatchetState)
    : DoubleRatchetState → DoubleRatchetState → Type 0 where
  start : Traffic c a b a b
  lost :
      {a1 b1 : DoubleRatchetState} (r : Entropy) (now : Clock) (plaintext : Bytes)
      → Traffic c a b a1 b1
      → a1.send.message_count + 1 < 2 ^ 64
      → Traffic c a b (ratchet_encrypt c r now plaintext a1).1 b1
  arrives :
      {a1 b1 a2 : DoubleRatchetState} (r : Entropy) (now : Clock) (plaintext : Bytes)
      (m : RatchetEncryptedMessage)
      → Traffic c a b a1 b1
      → a1.send.message_count + 1 < 2 ^ 64
      → a1.send.message_count ≤ b1.recv.message_count + b1.max_skip
      → ratchet_encrypt c r now plaintext a1 ≡ (ok m, a2)
      → Traffic c a b a2 (ratchet_decrypt c m.nonce m.ciphertext b1).1

module _ (c : Crypto) (laws : AeadLaws c) where
  -- A message of the sender, at most `max_skip` positions ahead of the receiver, is opened, and
  -- leaves the two chains at the same place.
  delivers :
      (a b a2 : DoubleRatchetState) (r : Entropy) (now : Clock) (plaintext : Bytes)
      (m : RatchetEncryptedMessage)
      → Synced c a b
      → a.send.message_count + 1 < 2 ^ 64
      → a.send.message_count ≤ b.recv.message_count + b.max_skip
      → ratchet_encrypt c r now plaintext a ≡ (ok m, a2)
      → (t : DoubleRatchetState) × (ratchet_decrypt c m.nonce m.ciphertext b ≡ (ok plaintext, t))
        × Synced c a2 t
  delivers a b a2 r now plaintext m v fits window e =
      let (nonce, sealed, none_attached) = quiet_message c r now plaintext a v.quiet e in
      (
        heard_state c a b v,
        message_delivered c a b m plaintext laws v fits window nonce sealed,
        subst (λ s. Synced c s (heard_state c a b v)) sent_is (Synced-commit_current c a b v fits),
      )
    where
      sent_is : sent_state c a ≡ a2
      sent_is =
          sym (sent-ratchet_encrypt c r now plaintext a v.quiet)
          ∙ ap (λ (o : Outcome RatchetEncryptedMessage). o.1) e

  -- Whatever is lost, sender and receiver stay on one chain.
  pub Traffic-Synced :
      {a b a' b' : DoubleRatchetState} → Synced c a b → Traffic c a b a' b' → Synced c a' b'
  Traffic-Synced v start = v
  Traffic-Synced v (lost {a1 = a1} {b1 = b1} r now plaintext t fits) =
      let w = Traffic-Synced v t in
      rw (sent-ratchet_encrypt c r now plaintext a1 w.quiet) (Synced-lost c a1 b1 fits w)
  Traffic-Synced v (arrives {a1 = a1} {b1 = b1} {a2 = a2} r now plaintext m t fits window e) =
      let (s, opened, w) = delivers a1 b1 a2 r now plaintext m (Traffic-Synced v t) fits window e in
      rw opened w

  -- The two sessions of a pairing start on one chain, in both directions.
  fresh_keys :
      (secret : Bytes) (pair pair' : HybridKeyPair) (xpk mpk mpk' : Option Bytes) (first : Bool)
      → (new_with_keypair c secret first pair none mpk).send.key
        ≡ (new_with_keypair c secret (not first) pair' xpk mpk').recv.key
  unfolding new_with_keypair derive_chain_keys_from_root
  fresh_keys secret pair pair' xpk mpk mpk' true = refl
  fresh_keys secret pair pair' xpk mpk mpk' false = refl

  pub Synced-new :
      (secret : Bytes) (pair pair' : HybridKeyPair) (xpk mpk mpk' : Option Bytes) (first : Bool)
      → Synced c
          (new_with_keypair c secret first pair none mpk)
          (new_with_keypair c secret (not first) pair' xpk mpk')
  unfolding new_with_keypair step_chain set_contains map_get
  Synced-new secret pair pair' xpk mpk mpk' first = record {
    quiet = record { no_carrier = refl; no_peer_key = refl; generation_fits = omega arith };
    same_generation = refl;
    not_retained = refl;
    order = omega arith;
    key = fresh_keys secret pair pair' xpk mpk mpk' first;
    unheard = record { store = []; has_store = refl; unseen = λ n h. refl; uncached = λ n h. refl };
  }

  -- Over an AEAD that meets its laws, for two sessions of one pairing, of which the sender does
  -- not know the peer's keys and so never rekeys: however many messages have been lost and
  -- delivered, the next message is opened to its plaintext, if it is at most `max_skip`
  -- positions ahead of the receiver and the send counter is below 2^64 - 1.
  pub next_message_delivered :
      (secret plaintext : Bytes) (pair pair' : HybridKeyPair) (xpk mpk mpk' : Option Bytes)
      (first : Bool) (r : Entropy) (now : Clock) (m : RatchetEncryptedMessage)
      {a b a2 : DoubleRatchetState}
      → Traffic c
          (new_with_keypair c secret first pair none mpk)
          (new_with_keypair c secret (not first) pair' xpk mpk')
          a
          b
      → a.send.message_count + 1 < 2 ^ 64
      → a.send.message_count ≤ b.recv.message_count + b.max_skip
      → ratchet_encrypt c r now plaintext a ≡ (ok m, a2)
      → (ratchet_decrypt c m.nonce m.ciphertext b).0 ≡ ok plaintext
  next_message_delivered secret plaintext pair pair' xpk mpk mpk' first r now m {a} {b} {a2} t fits
        window e =
      let v = Traffic-Synced (Synced-new secret pair pair' xpk mpk mpk' first) t in
      let (s, opened, w) = delivers a b a2 r now plaintext m v fits window e in
      ap (λ (o : Outcome Bytes). o.0) opened
