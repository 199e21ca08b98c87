-- ===== src/RatchetFfi/Sync/Commit.antt =====
-- When a Synchronize packet moves the session.
use kyber_pipe.Base.{
  ℕ, ◌+◌, ◌^◌, ◌<◌, ◌≤◌, ◌≡◌, ◌≢◌, sym, ap, subst, ◌∙◌, false, if◌then◌else◌, ◌⊎◌, inl, inr, refl,
  true, Bytes, arith, ltb, leb, ◌==◌, saturating_add32, u32_max,
}
use kyber_pipe.Error.{
  ok, err, crypto_error, KyberError, Result-cases, cross_generation_resync_required,
}
use kyber_pipe.Primitives.{Crypto}
use kyber_pipe.Packets.{PacketJson}
use kyber_pipe.Tlv.{RatchetEncryptedMessage}
use kyber_pipe.Ratchet.State.{Clock, DoubleRatchetState}
use kyber_pipe.Ratchet.Fields.{Outcome}
use kyber_pipe.Ratchet.Resync.{resync_receiving_chain}
use kyber_pipe.Aead.{generate_nonce_from_seq}
use kyber_pipe.Ratchet.Decrypt.{is_previous, ratchet_decrypt}
use kyber_pipe.Ratchet.Decrypt.Replay.{IsSteady, replay_refused}
use kyber_pipe.RatchetFfi.Messages.{carries_rekey, decrypt_dispatched}
use kyber_pipe.RatchetFfi.Sync.{verify, seq_gap}
use kyber_pipe.RatchetFfi.Sync.Process.{
  commit_trial, behind_resync, sync_over_gap, commit_cross, sync_across, apply_sync, sync_in_place,
  verify_live,
}

-- What becomes of a trial: `attempt` is the clone that it decrypts on, and `opened` the decryption.
-- It is refused, and the session is as it was, exactly where the clone could not be made, or did
-- not open the frame, or the text is not the packet of this position.
pub data Trial (json : PacketJson) (sync_seq : ℕ) (s : DoubleRatchetState) (attempt : Outcome ℕ)
    (opened : Outcome Bytes) (o : Outcome ℕ) : Type 0 where
  not_moved :
      (e : KyberError) → attempt.0 ≡ err e → o ≡ (err e, s) → Trial json sync_seq s attempt opened o
  not_opened :
      (n : ℕ) (e e' : KyberError)
      → attempt.0 ≡ ok n
      → opened.0 ≡ err e
      → o ≡ (err e', s)
      → Trial json sync_seq s attempt opened o
  not_verified :
      (n : ℕ) (plaintext : Bytes) (e : KyberError)
      → attempt.0 ≡ ok n
      → opened.0 ≡ ok plaintext
      → verify json sync_seq plaintext ≡ err e
      → o ≡ (err e, s)
      → Trial json sync_seq s attempt opened o
  applied :
      (n : ℕ) (plaintext : Bytes)
      → attempt.0 ≡ ok n
      → opened.0 ≡ ok plaintext
      → verify json sync_seq plaintext ≡ ok tt
      → o ≡ (ok n, opened.1)
      → Trial json sync_seq s attempt opened o

commit_trial-Trial :
    (json : PacketJson) (sync_seq n : ℕ) (s : DoubleRatchetState) (attempt : Outcome ℕ)
    (opened : Outcome Bytes)
    → attempt.0 ≡ ok n
    → Trial json sync_seq s attempt opened (commit_trial json sync_seq n s opened)
unfolding commit_trial
commit_trial-Trial json sync_seq n s attempt (err e, trial) a = not_opened n e e a refl refl
commit_trial-Trial json sync_seq n s attempt (ok plaintext, trial) a =
    elim (Result-cases (verify json sync_seq plaintext)) [
      | inl (e, h) ↦ not_verified n plaintext e a refl h (rw (h, commit_trial) refl)
      | inr (done, h) ↦ applied n plaintext a refl h (rw (h, commit_trial) refl)
    ]

gap-Trial :
    (c : Crypto) (json : PacketJson) (now : Clock) (m : RatchetEncryptedMessage) (sync_seq : ℕ)
    (s : DoubleRatchetState) (attempt : Outcome ℕ)
    → Trial json sync_seq s attempt
        (decrypt_dispatched c now m attempt.1)
        (behind_resync c json now m sync_seq s attempt)
unfolding behind_resync
gap-Trial c json now m sync_seq s (err e, trial) = not_moved e refl refl
gap-Trial c json now m sync_seq s (ok n, trial) =
    commit_trial-Trial json sync_seq n s (ok n, trial) (decrypt_dispatched c now m trial) refl

cross-Trial :
    (json : PacketJson) (sync_seq : ℕ) (s : DoubleRatchetState) (opened : Outcome Bytes)
    → Trial json sync_seq s (ok 0, s) opened (commit_cross json sync_seq s opened)
unfolding commit_cross
cross-Trial json sync_seq s (err e, trial) =
    not_opened 0 e cross_generation_resync_required refl refl refl
cross-Trial json sync_seq s (ok plaintext, trial) =
    commit_trial-Trial json sync_seq 0 s (ok 0, s) (ok plaintext, trial) refl

-- The clone on which a packet is tried: moved to its position where its generation is the session's,
-- and the session itself where it is another one.
unfoldable pub attempt_for : Crypto → Clock → ℕ → ℕ → DoubleRatchetState → Outcome ℕ
attempt_for c now sync_gen sync_seq s =
    if sync_gen == s.ratchet_generation then resync_receiving_chain c now sync_seq s else (ok 0, s)

-- What `apply_sync` does, as a trial of some clone.
abbrev Tried :
    Crypto
    → PacketJson
    → Clock
    → RatchetEncryptedMessage
    → ℕ
    → ℕ
    → DoubleRatchetState
    → Outcome ℕ
    → Type 0
Tried c json now m sync_gen sync_seq s attempt =
    Trial json sync_seq s attempt (decrypt_dispatched c now m attempt.1)
      (apply_sync c json now m sync_gen sync_seq s)

attempt_for-same :
    (c : Crypto) (now : Clock) (sync_gen sync_seq : ℕ) (s : DoubleRatchetState)
    → sync_gen ≡ s.ratchet_generation
    → attempt_for c now sync_gen sync_seq s ≡ resync_receiving_chain c now sync_seq s
unfolding attempt_for
attempt_for-same c now sync_gen sync_seq s h =
    let same : (sync_gen == s.ratchet_generation) ≡ true = ground (arith, h) in rw same refl

attempt_for-later :
    (c : Crypto) (now : Clock) (sync_gen sync_seq : ℕ) (s : DoubleRatchetState)
    → s.ratchet_generation < sync_gen
    → attempt_for c now sync_gen sync_seq s ≡ (ok 0, s)
unfolding attempt_for
attempt_for-later c now sync_gen sync_seq s h =
    let other : (sync_gen == s.ratchet_generation) ≡ false = ground (arith, h) in rw other refl

-- In a session of a generation below 2^32 - 1, a Synchronize packet of that generation that is
-- further ahead than `max_skip`, or one of a later generation. In the first case it is tried on what
-- the resynchronisation to its position makes of the session, and in the second on the session.
-- Where the resynchronisation fails, or the frame does not open, or its text is not the packet of
-- this position, it is refused and the session is as it was. Otherwise the session is the one behind
-- the decryption, and the call returns what the resynchronisation has returned, or 0 in the second
-- case.
pub apply_sync-Trial :
    (c : Crypto) (json : PacketJson) (now : Clock) (m : RatchetEncryptedMessage)
    (sync_gen sync_seq : ℕ) (s : DoubleRatchetState)
    → s.ratchet_generation < u32_max
    → ((sync_gen ≡ s.ratchet_generation) × (s.recv.message_count + s.max_skip < sync_seq))
      ⊎ (s.ratchet_generation < sync_gen)
    → Trial json sync_seq s
        (attempt_for c now sync_gen sync_seq s)
        (decrypt_dispatched c now m (attempt_for c now sync_gen sync_seq s).1)
        (apply_sync c json now m sync_gen sync_seq s)
unfolding apply_sync sync_over_gap sync_across
apply_sync-Trial c json now m sync_gen sync_seq s small (inl h) =
    let same : (sync_gen == s.ratchet_generation) ≡ true = ground (arith, h) in
    let far : ltb s.max_skip (seq_gap s.recv.message_count sync_seq) ≡ true =
      unfold seq_gap in ground (arith, h) in
    subst (Tried c json now m sync_gen sync_seq s)
      (sym (attempt_for-same c now sync_gen sync_seq s h.0))
      (rw (same, far) (gap-Trial c json now m sync_seq s (resync_receiving_chain c now sync_seq s)))
apply_sync-Trial c json now m sync_gen sync_seq s small (inr h) =
    let other : (sync_gen == s.ratchet_generation) ≡ false = ground (arith, h) in
    let later : leb (saturating_add32 s.ratchet_generation 1) sync_gen ≡ true =
      ground (arith, h, small) in
    subst (Tried c json now m sync_gen sync_seq s)
      (sym (attempt_for-later c now sync_gen sync_seq s h))
      (rw (other, later) (cross-Trial json sync_seq s (decrypt_dispatched c now m s)))

-- A frame without rekey fields, of the session's generation and of a position below 2^64 - 1 and
-- within `max_skip`, in a session of a generation below 2^32 - 1 that is not the retained one, with
-- room in its replay window, a positive `max_skip` below 2^32 and no pending chain: where its text
-- decrypts and is not the Synchronize packet of its position, the call reports that error and keeps
-- the session behind the decryption. This is not the session that it was, and a decryption of the
-- same frame on it, at whatever time, is refused and changes nothing.
pub refused_in_place_moves :
    (c : Crypto) (json : PacketJson) (now later : Clock) (m : RatchetEncryptedMessage)
    (sync_seq : ℕ) (s : DoubleRatchetState) {plaintext : Bytes} {t : DoubleRatchetState}
    {e : KyberError}
    → IsSteady s
    → s.ratchet_generation < u32_max
    → sync_seq + 1 < 2 ^ 64
    → is_previous s.ratchet_generation s ≡ false
    → sync_seq ≤ s.recv.message_count + s.max_skip
    → carries_rekey m ≡ false
    → m.nonce ≡ generate_nonce_from_seq sync_seq s.ratchet_generation
    → ratchet_decrypt c m.nonce m.ciphertext s ≡ (ok plaintext, t)
    → verify json sync_seq plaintext ≡ err e
    → (apply_sync c json now m s.ratchet_generation sync_seq s ≡ (err e, t))
      × (t ≢ s)
      × (decrypt_dispatched c later m t ≡ (err crypto_error, t))
unfolding apply_sync sync_in_place verify_live seq_gap decrypt_dispatched
refused_in_place_moves c json now later m sync_seq s {plaintext} {t} steady small fits other near
      plain at opened refused =
    let again : ratchet_decrypt c m.nonce m.ciphertext t ≡ (err crypto_error, t) = rw at (
      replay_refused c s t sync_seq m.ciphertext m.ciphertext plaintext steady small fits other
        (ap (λ nonce. ratchet_decrypt c nonce m.ciphertext s) (sym at) ∙ opened)) in
    (
      ground (arith, opened, refused, plain),
      (λ same. cc (ap (λ u. ratchet_decrypt c m.nonce m.ciphertext u) same, again, opened)),
      rw plain again,
    )
