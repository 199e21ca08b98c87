-- ===== src/RatchetFfi/Peers.antt =====
-- `HashMap<String, _>` keyed by a peer's identity, as an association list, for the process-wide
-- tables of core-crypto/src/ratchet_ffi. No definition depends on the order of the list, other
-- than the list of identities, whose order is the hash table's in the code.
use kyber_pipe.Base.{
  ◌≡◌, refl, not, Option, none, some, List, [], ◌∷◌, retain, if◌then◌else◌, arith, inl, inr,
  Bool-cases, Bytes, bytes_eq, bytes_eq_sound,
}

-- The bytes of a `String`.
abbrev pub PeerIdentity : Type 0
PeerIdentity = Bytes

pub bytes_eq_sym : (p q : Bytes) → bytes_eq p q ≡ bytes_eq q p
bytes_eq_sym [] [] = refl
bytes_eq_sym [] (y ∷ q) = refl
bytes_eq_sym (x ∷ p) [] = refl
bytes_eq_sym (x ∷ p) (y ∷ q) = ground (arith, bytes_eq_sym p q)

module _ {ℓ} {V : Type ℓ} where
  unfoldable pub peer_get : PeerIdentity → List (PeerIdentity × V) → Option V
  peer_get p [] = none
  peer_get p ((q, v) ∷ m) = if bytes_eq q p then some v else peer_get p m

  unfoldable pub peer_remove : PeerIdentity → List (PeerIdentity × V) → List (PeerIdentity × V)
  peer_remove p m = retain (λ e. not (bytes_eq e.0 p)) m

  unfoldable pub peer_insert : PeerIdentity → V → List (PeerIdentity × V) → List (PeerIdentity × V)
  unfolding peer_remove
  peer_insert p v m = (p, v) ∷ peer_remove p m

  unfoldable pub peer_keys : List (PeerIdentity × V) → List PeerIdentity
  peer_keys [] = []
  peer_keys ((p, v) ∷ m) = p ∷ peer_keys m

  -- A table as the function that it stands for, changed at one identity.
  abbrev pub update : (PeerIdentity → Option V) → PeerIdentity → Option V → PeerIdentity → Option V
  update f p w q = if bytes_eq p q then w else f q

  pub peer_get-peer_remove :
      (p q : PeerIdentity) (m : List (PeerIdentity × V))
      → peer_get q (peer_remove p m) ≡ update (λ x. peer_get x m) p none q
  unfolding peer_get peer_remove
  peer_get-peer_remove p q [] = ground arith
  peer_get-peer_remove p q ((k, w) ∷ m) = elim (Bool-cases (bytes_eq k p)) [
    | inl e ↦ rw e (rw (bytes_eq_sound k p e) (ground (arith, peer_get-peer_remove p q m)))
    | inr n ↦ elim (Bool-cases (bytes_eq k q)) [
      | inl e ↦ rw (n, peer_get, e) (rw (← bytes_eq_sound k q e, bytes_eq_sym p k, n) refl)
      | inr n' ↦ rw (n, peer_get, n') (peer_get-peer_remove p q m)
    ]
  ]

  pub peer_get-peer_insert :
      (p q : PeerIdentity) (v : V) (m : List (PeerIdentity × V))
      → peer_get q (peer_insert p v m) ≡ update (λ x. peer_get x m) p (some v) q
  unfolding peer_get peer_insert
  peer_get-peer_insert p q v m = ground (arith, peer_get-peer_remove p q m)
