-- ===== src/Ratchet/Invariant/Reach.antt =====
-- Every operation of a session as a step, and what holds in every state that the steps reach.
use kyber_pipe.Base.{ℕ, Bool, Option, Bytes, arith}
use kyber_pipe.Primitives.{Crypto, Entropy}
use kyber_pipe.Kem.{HybridKeyPair}
use kyber_pipe.Ratchet.State.{Clock, DoubleRatchetState}
use kyber_pipe.Ratchet.Proposal.{take_pending_rekey_ack_seq, process_rekey_ack}
use kyber_pipe.Ratchet.Fields.{RekeyFields}
use kyber_pipe.Ratchet.Encrypt.{ratchet_encrypt, dh_ratchet_rekey}
use kyber_pipe.Ratchet.Decrypt.{ratchet_decrypt_with_aad}
use kyber_pipe.Ratchet.Rekeyed.{ratchet_decrypt_with_rekey_classified}
use kyber_pipe.Ratchet.Decrypt.Keeps.{
  ratchet_decrypt_with_aad-keeps, ratchet_decrypt_with_rekey_classified-keeps,
}
use kyber_pipe.Ratchet.Resync.{resync_receiving_chain}
use kyber_pipe.Ratchet.Session.{new_with_keypair}
use kyber_pipe.Ratchet.Invariant.{IsWellFormed}
use kyber_pipe.Ratchet.Invariant.Sending.{
  ratchet_encrypt-IsWellFormed, dh_ratchet_rekey-IsWellFormed, process_rekey_ack-IsWellFormed,
  take_ack-IsWellFormed,
}
use kyber_pipe.Ratchet.Invariant.Receiving.{receiving, resync_receiving_chain-IsWellFormed}

-- The sessions that the operations lead to, with whatever the peer, the network, the clock and the
-- random source put in.
pub data Reach (c : Crypto) : DoubleRatchetState → Type 0 where
  opened :
      (secret : Bytes) (initiator : Bool) (pair : HybridKeyPair) (xpk mpk : Option Bytes)
      → Reach c (new_with_keypair c secret initiator pair xpk mpk)
  encrypts :
      {s : DoubleRatchetState} (r : Entropy) (now : Clock) (plaintext : Bytes)
      → Reach c s
      → Reach c (ratchet_encrypt c r now plaintext s).1
  decrypts :
      {s : DoubleRatchetState} (nonce ciphertext aad : Bytes)
      → Reach c s
      → Reach c (ratchet_decrypt_with_aad c nonce ciphertext aad s).1
  decrypts_with_rekey :
      {s : DoubleRatchetState} (now : Clock) (nonce ciphertext : Bytes) (fields : RekeyFields)
      → Reach c s
      → Reach c (ratchet_decrypt_with_rekey_classified c now nonce ciphertext fields s).1
  rekeys :
      {s : DoubleRatchetState} (r : Entropy) (now : Clock) (xpk mpk : Bytes)
      → Reach c s
      → Reach c (dh_ratchet_rekey c r now xpk mpk s).1
  acknowledged :
      {s : DoubleRatchetState} (seq : ℕ) → Reach c s → Reach c (process_rekey_ack seq s).1
  takes_ack : {s : DoubleRatchetState} → Reach c s → Reach c (take_pending_rekey_ack_seq s).1
  resyncs :
      {s : DoubleRatchetState} (now : Clock) (target : ℕ)
      → Reach c s
      → Reach c (resync_receiving_chain c now target s).1

new_with_keypair-IsWellFormed :
    (c : Crypto) (secret : Bytes) (initiator : Bool) (pair : HybridKeyPair) (xpk mpk : Option Bytes)
    → IsWellFormed (new_with_keypair c secret initiator pair xpk mpk)
unfolding new_with_keypair
new_with_keypair-IsWellFormed c secret initiator pair xpk mpk = ground arith

-- In every state that a session reaches from its opening, by encryptions, decryptions of any frames,
-- rekeys, acknowledgements and resynchronisations in any order and whether they fail or succeed: at
-- most one rekey carrier waits, and only while a proposal of our own is pending; the three keys of
-- either proposal slot are all there or all absent; the replay window holds at most 4096 pairs, the
-- retained key pairs are at most `max_key_history`, and the resync total is at most 20000.
pub Reach-IsWellFormed : (c : Crypto) (s : DoubleRatchetState) → Reach c s → IsWellFormed s
Reach-IsWellFormed c s (opened secret initiator pair xpk mpk) =
    new_with_keypair-IsWellFormed c secret initiator pair xpk mpk
Reach-IsWellFormed c s (encrypts {s = t} r now plaintext h) =
    ratchet_encrypt-IsWellFormed c r now plaintext t (Reach-IsWellFormed c t h)
Reach-IsWellFormed c s (decrypts {s = t} nonce ciphertext aad h) =
    ratchet_decrypt_with_aad-keeps c IsWellFormed (receiving c) nonce ciphertext aad t
      (Reach-IsWellFormed c t h)
Reach-IsWellFormed c s (decrypts_with_rekey {s = t} now nonce ciphertext fields h) =
    ratchet_decrypt_with_rekey_classified-keeps c IsWellFormed (receiving c) now nonce ciphertext
      fields t (Reach-IsWellFormed c t h)
Reach-IsWellFormed c s (rekeys {s = t} r now xpk mpk h) =
    dh_ratchet_rekey-IsWellFormed c r now xpk mpk t (Reach-IsWellFormed c t h)
Reach-IsWellFormed c s (acknowledged {s = t} seq h) =
    process_rekey_ack-IsWellFormed seq t (Reach-IsWellFormed c t h)
Reach-IsWellFormed c s (takes_ack {s = t} h) = take_ack-IsWellFormed t (Reach-IsWellFormed c t h)
Reach-IsWellFormed c s (resyncs {s = t} now target h) =
    resync_receiving_chain-IsWellFormed c now target t (Reach-IsWellFormed c t h)
