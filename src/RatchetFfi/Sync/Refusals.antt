-- ===== src/RatchetFfi/Sync/Refusals.antt =====
-- What a refused Synchronize packet costs.
use kyber_pipe.Base.{
  ℕ, ◌-◌, ◌≤◌, ◌≡◌, refl, ap, sym, ◌∙◌, Bool, true, false, not, List, [], ◌∷◌, length, retain,
  unwrap_or, ltb, ◌==◌, Bytes, arith, inl, inr, Bool-cases, bytes_eq, bytes_eq_refl, bytes_eq_sound,
  if◌then◌else◌,
}
use kyber_pipe.Error.{Result, ok, err, KyberError, decryption_failed}
use kyber_pipe.Primitives.{Crypto}
use kyber_pipe.Packets.{PacketJson}
use kyber_pipe.Tlv.{RatchetEncryptedMessage, from_binary}
use kyber_pipe.Ratchet.State.{Clock}
use kyber_pipe.RatchetFfi.Peers.{PeerIdentity, peer_get, peer_insert}
use kyber_pipe.RatchetFfi.Registry.{Reply}
use kyber_pipe.RatchetFfi.Sync.{
  SyncTables, live_stamps, live_entries, already_applied_authenticated, sync_rate_limited,
  sync_rate_window, applied_sync_cache_ttl,
}
use kyber_pipe.RatchetFfi.Sync.Limits.{queue_of}
use kyber_pipe.RatchetFfi.Sync.Process.{
  ratchet_process_synchronize, process_parsed, behind_cache, behind_limit, conclude,
}

-- At `now` a peer has the same stamps and the same remembered packets.
abbrev pub SameAt : ℕ → PeerIdentity → SyncTables → SyncTables → Type 0
SameAt now q t t' =
    (live_stamps now q t ≡ live_stamps now q t') × (live_entries now q t ≡ live_entries now q t')

-- What is young later was young before.
retain_young :
    {V : Type 0} (at : V → ℕ) (now later limit : ℕ) (xs : List V)
    → now ≤ later
    → retain (λ e. ltb (later - at e) limit) (retain (λ e. ltb (now - at e) limit) xs)
      ≡ retain (λ e. ltb (later - at e) limit) xs
retain_young at now later limit [] h = refl
retain_young at now later limit (e ∷ xs) h = ground (arith, retain_young at now later limit xs h)

-- Pruning the queue at `p` changes nothing that is seen later.
pruned_same :
    {V : Type 0} (at : V → ℕ) (now later limit : ℕ) (p q : PeerIdentity)
    (m : List (PeerIdentity × List V))
    → now ≤ later
    → retain (λ e. ltb (later - at e) limit) (unwrap_or (peer_get q m) [])
      ≡ retain
          (λ e. ltb (later - at e) limit)
          (unwrap_or
            (peer_get q (
              peer_insert p (retain (λ e. ltb (now - at e) limit) (unwrap_or (peer_get p m) [])) m))
            [])
pruned_same at now later limit p q m h = elim (Bool-cases (bytes_eq p q)) [
  | inl e ↦ sym (
      ap (retain (λ e. ltb (later - at e) limit)) (queue_of p q _ m)
      ∙ rw (bytes_eq_sound p q e)
          (rw (bytes_eq_refl q) (retain_young at now later limit (unwrap_or (peer_get q m) []) h)))
  | inr e ↦ sym (ap (retain (λ e. ltb (later - at e) limit)) (queue_of p q _ m) ∙ rw e refl)
]

module _ (later : ℕ) (q : PeerIdentity) where
  already_same :
      (now : ℕ) (p : PeerIdentity) (bytes : Bytes) (t : SyncTables)
      → now ≤ later
      → SameAt later q t (already_applied_authenticated now p bytes t).1
  unfolding already_applied_authenticated live_entries live_stamps
  already_same now p bytes t h =
      (refl, pruned_same (λ e. e.at) now later applied_sync_cache_ttl p q t.applied h)

  limited_same :
      (now : ℕ) (p : PeerIdentity) (t : SyncTables)
      → now ≤ later
      → SameAt later q t (sync_rate_limited now p t).1
  unfolding sync_rate_limited live_entries live_stamps
  limited_same now p t h =
      (pruned_same (λ at. at) now later sync_rate_window p q t.last_sync_at h, refl)

  both :
      (t t' t'' : SyncTables) → SameAt later q t t' → SameAt later q t' t'' → SameAt later q t t''
  both t t' t'' (a, b) (a', b') = (a ∙ a', b ∙ b')

  conclude_same :
      (now : ℕ) (p : PeerIdentity) (bytes : Bytes) (t : SyncTables) (o : Reply ℕ) {e : KyberError}
      → (conclude now p bytes t o).0 ≡ err e
      → SameAt later q t (conclude now p bytes t o).1
  unfolding conclude live_entries live_stamps
  conclude_same now p bytes t (err e, r) h = (refl, refl)
  conclude_same now p bytes t (ok n, r) h = absurd (ground arith)

  limit_same :
      (c : Crypto) (json : PacketJson) (now : Clock) (p : PeerIdentity) (bytes : Bytes)
      (m : RatchetEncryptedMessage) (o : Bool × SyncTables) {e : KyberError}
      → (behind_limit c json now p bytes m o).0 ≡ err e
      → SameAt later q o.1 (behind_limit c json now p bytes m o).1
  unfolding behind_limit
  limit_same c json now p bytes m (true, t) h = (refl, refl)
  limit_same c json now p bytes m (false, t) h = conclude_same now.mono p bytes t _ h

  cache_same :
      (c : Crypto) (json : PacketJson) (now : Clock) (p : PeerIdentity) (bytes : Bytes)
      (m : RatchetEncryptedMessage) (o : Bool × SyncTables) {e : KyberError}
      → now.mono ≤ later
      → (behind_cache c json now p bytes m o).0 ≡ err e
      → SameAt later q o.1 (behind_cache c json now p bytes m o).1
  unfolding behind_cache
  cache_same c json now p bytes m (true, t) older h = absurd (ground arith)
  cache_same c json now p bytes m (false, t) older h =
      both t (sync_rate_limited now.mono p t).1
        (behind_limit c json now p bytes m (sync_rate_limited now.mono p t)).1
        (limited_same now.mono p t older)
        (limit_same c json now p bytes m (sync_rate_limited now.mono p t) h)

  checked_same :
      (t : SyncTables) (x : Result ℕ × SyncTables) (fits : Bool) {e : KyberError}
      → (if not fits then (err decryption_failed, t) else x).0 ≡ err e
      → (x.0 ≡ err e → SameAt later q t x.1)
      → SameAt later q t (if not fits then (err decryption_failed, t) else x).1
  checked_same t x true h same = same h
  checked_same t x false h same = (refl, refl)

  parsed_same :
      (c : Crypto) (json : PacketJson) (now : Clock) (p : PeerIdentity) (bytes : Bytes)
      (t : SyncTables) (m : Result RatchetEncryptedMessage) {e : KyberError}
      → now.mono ≤ later
      → (process_parsed c json now p bytes t m).0 ≡ err e
      → SameAt later q t (process_parsed c json now p bytes t m).1
  unfolding process_parsed
  parsed_same c json now p bytes t (err e) older h = (refl, refl)
  parsed_same c json now p bytes t (ok m) older h =
      let seen = already_applied_authenticated now.mono p bytes t in
      checked_same t (behind_cache c json now p bytes m seen) (length m.nonce == 12) h (λ h'.
        both t seen.1 (behind_cache c json now p bytes m seen).1
          (already_same now.mono p bytes t older) (cache_same c json now p bytes m seen older h'))

  -- A Synchronize packet that is refused, for whatever reason, costs no peer anything: at that time
  -- and at every later one, every peer has as many stamps in its window and the same remembered
  -- packets as if the packet had not come.
  pub refused_sync_costs_nothing :
      (c : Crypto) (json : PacketJson) (now : Clock) (p : PeerIdentity) (bytes : Bytes)
      (t : SyncTables) {e : KyberError}
      → now.mono ≤ later
      → (ratchet_process_synchronize c json now p bytes t).0 ≡ err e
      → SameAt later q t (ratchet_process_synchronize c json now p bytes t).1
  unfolding ratchet_process_synchronize
  refused_sync_costs_nothing c json now p bytes t older h =
      parsed_same c json now p bytes t (from_binary bytes) older h
