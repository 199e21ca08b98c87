-- ===== src/Shamir/Metadata/Backstop.antt =====
-- A reconstruction that succeeds has checked every share that it used against the secret.
use kyber_pipe.Base.{
  ℕ, ◌≡◌, true, some, List, [], ◌∷◌, take, All, arith, inl, inr, Bool-cases, Option-cases, Bytes,
  bytes_eq, bytes_eq_sound,
}
use mathlib.Core.List
use kyber_pipe.Error.{Result, ok, err}
use kyber_pipe.Primitives.{Crypto}
use kyber_pipe.Shamir.Sharing.{reconstruct_secret_shamir}
use kyber_pipe.Shamir.Metadata.{
  Digests, ShamirShare, compute_secret_hash, verify_share_public, verify_share_with_key,
  consistent_with, all_consistent, check_hash, reconstruct_subset, reconstruct_shamir_with_meta,
}

check_hash_passed :
    (d : Digests) (first : ShamirShare) (r : Result Bytes) (secret : Bytes)
    → check_hash d first r ≡ ok secret
    → bytes_eq (compute_secret_hash d secret) first.secret_hash ≡ true
unfolding check_hash
check_hash_passed d first (err e) secret h = absurd (cc h)
check_hash_passed d first (ok recovered) secret h =
    elim (Bool-cases (bytes_eq (compute_secret_hash d recovered) first.secret_hash)) [
      | inl same ↦ ground (arith, same, h)
      | inr other ↦ absurd (ground (arith, other, h))
    ]

module _ (c : Crypto) (d : Digests) where
  -- A share that is consistent with the first has the first one's hash.
  consistent_verifies :
      (first share : ShamirShare) (secret : Bytes)
      → consistent_with c d first share ≡ true
      → bytes_eq (compute_secret_hash d secret) first.secret_hash ≡ true
      → verify_share_with_key c d share secret ≡ true
  unfolding consistent_with verify_share_with_key
  consistent_verifies first share secret h e =
      let valid : verify_share_public c d share ≡ true = ground (arith, h) in
      let same : bytes_eq share.secret_hash first.secret_hash ≡ true = ground (arith, h) in
      let equal : share.secret_hash ≡ first.secret_hash =
        bytes_eq_sound share.secret_hash first.secret_hash same in
      rw (valid, equal) e

  All-verify :
      (first : ShamirShare) (shares : List ShamirShare) (secret : Bytes)
      → all_consistent c d first shares ≡ true
      → bytes_eq (compute_secret_hash d secret) first.secret_hash ≡ true
      → All (λ share. verify_share_with_key c d share secret ≡ true) shares
  unfolding all_consistent
  All-verify first [] secret h e = tt
  All-verify first (share ∷ shares) secret h e =
      elim (Bool-cases (consistent_with c d first share)) [
        | inl passed ↦ (
          consistent_verifies first share secret passed e,
          All-verify first shares secret (ground (arith, passed, h)) e,
        )
        | inr failed ↦ absurd (ground (arith, failed, h))
      ]

  subset-verified :
      (shares : List ShamirShare) (k : ℕ) (secret : Bytes)
      → reconstruct_subset c d shares k ≡ some (ok secret)
      → All (λ share. verify_share_with_key c d share secret ≡ true) shares
  unfolding reconstruct_subset
  subset-verified [] k secret h = tt
  subset-verified (first ∷ shares) k secret h =
      let raw : List Bytes = List.map (λ (s : ShamirShare). s.share_data) (first ∷ shares) in
      elim (Bool-cases (all_consistent c d first (first ∷ shares))) [
        | inr refused ↦ absurd (ground (arith, refused, h))
        | inl passed ↦ elim (Option-cases (reconstruct_secret_shamir raw k)) [
          | inl panic ↦ absurd (ground (arith, passed, panic, h))
          | inr (r, e) ↦
              let checked : check_hash d first r ≡ ok secret = ground (arith, passed, e, h) in
              All-verify first (first ∷ shares) secret passed
                (check_hash_passed d first r secret checked)
        ]
      ]

  -- When a reconstruction from shares with metadata gives a secret, each of the first k shares
  -- passes the check against the secret that the splitter has for them: its x coordinate, its
  -- integrity tag, and the hash of this secret.
  pub reconstruct_shamir_with_meta_verified :
      (shares : List ShamirShare) (k : ℕ) (secret : Bytes)
      → reconstruct_shamir_with_meta c d shares k ≡ some (ok secret)
      → All (λ share. verify_share_with_key c d share secret ≡ true) (take k shares)
  unfolding reconstruct_shamir_with_meta
  reconstruct_shamir_with_meta_verified shares k secret h =
      subset-verified (take k shares) k secret (ground (arith, h))
