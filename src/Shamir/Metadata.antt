-- ===== src/Shamir/Metadata.antt =====
-- core-crypto/src/crypto/shamir.rs: shares with metadata, their integrity tag and their checks.
pub mod Backstop
use kyber_pipe.Base.{
  ℕ, zero, suc, ◌+◌, min, Bool, true, false, not, ◌||◌, Option, none, some, List, [], ◌∷◌, ◌++◌,
  length, take, replicate, ltb, ◌==◌, if◌then◌else◌, Bytes, bytes_eq, to_be_bytes64, ascii,
}
use mathlib.Core.List
use mathlib.Core.Option
use kyber_pipe.Error.{Result, ok, err, crypto_error, ◌>>=◌}
use kyber_pipe.Primitives.{Crypto}
use kyber_pipe.Shamir.Sharing.{wrap8, split_secret_shamir, reconstruct_secret_shamir}

-- The crates sha2 and hmac: the digest of a text, and the tag of a text under a key.
pub record Digests : Type 0 where
  pub sha256 : Bytes → Bytes
  pub hmac_sha256 : Bytes → Bytes → Bytes

pub record ShamirShare : Type 0 where
  pub index : ℕ
  pub threshold : ℕ
  pub total : ℕ
  pub timestamp : ℕ
  pub share_data : Bytes
  pub mac : Bytes
  pub verify_key : Bytes
  pub secret_hash : Bytes

unfoldable pub compute_secret_hash : Digests → Bytes → Bytes
compute_secret_hash d master_secret = d.sha256 master_secret

unfoldable pub derive_share_mac_key : Crypto → Bytes → Bytes
derive_share_mac_key c verify_key =
    c.expand (some (ascii "kyberpipe-shamir-hmac-v2")) verify_key (ascii "share-integrity") 32

unfoldable pub mac_input : ShamirShare → Bytes
mac_input share =
    share.index
    ∷ share.threshold
    ∷ share.total
    ∷ (to_be_bytes64 share.timestamp ++ share.share_data)

unfoldable pub compute_share_mac : Crypto → Digests → Bytes → ShamirShare → Bytes
unfolding derive_share_mac_key mac_input
compute_share_mac c d verify_key share =
    d.hmac_sha256 (derive_share_mac_key c verify_key) (mac_input share)

abbrev pub zeros : Bytes
zeros = replicate 32 0

-- The shares from the index `i` on; `blank` holds what they have in common.
unfoldable pub mark_shares : Crypto → Digests → ShamirShare → ℕ → List Bytes → List ShamirShare
unfolding compute_share_mac
mark_shares c d blank i [] = []
mark_shares c d blank i (bytes ∷ shares) =
    let share : ShamirShare = record blank { index = wrap8 i; share_data = bytes; mac = zeros } in
    record share { mac = compute_share_mac c d blank.verify_key share }
    ∷ mark_shares c d blank (suc i) shares

-- The verification key and the time are drawn and read by the call.
unfoldable pub split_secret_shamir_with_meta :
    Crypto → Digests → (ℕ → ℕ) → Bytes → ℕ → Bytes → ℕ → ℕ → Result (List ShamirShare)
unfolding split_secret_shamir mark_shares compute_secret_hash
split_secret_shamir_with_meta c d random fresh_key now secret k n =
    split_secret_shamir random secret k n >>= λ shares. ok (
      mark_shares c d
        (record {
          index = 0;
          threshold = wrap8 k;
          total = wrap8 n;
          timestamp = now;
          share_data = [];
          mac = zeros;
          verify_key = fresh_key;
          secret_hash = compute_secret_hash d secret;
        })
        0 shares)

-- `first().unwrap_or(&0)`.
abbrev pub first_or_zero : Bytes → ℕ
first_or_zero [] = 0
first_or_zero (x ∷ xs) = x

unfoldable pub verify_share_public : Crypto → Digests → ShamirShare → Bool
unfolding compute_share_mac
verify_share_public c d share =
    if not (first_or_zero share.share_data == min 255 (share.index + 1))
    then false
    else if bytes_eq share.secret_hash zeros || bytes_eq share.verify_key zeros
    then false
    else bytes_eq (compute_share_mac c d share.verify_key share) share.mac

unfoldable pub verify_share_with_key : Crypto → Digests → ShamirShare → Bytes → Bool
unfolding verify_share_public compute_secret_hash
verify_share_with_key c d share master_secret =
    if not (verify_share_public c d share)
    then false
    else bytes_eq (compute_secret_hash d master_secret) share.secret_hash

-- Whether a share passes the checks against the first share.
unfoldable pub consistent_with : Crypto → Digests → ShamirShare → ShamirShare → Bool
unfolding verify_share_public
consistent_with c d first share =
    if not (bytes_eq share.secret_hash first.secret_hash)
      || not (bytes_eq share.verify_key first.verify_key)
    then false
    else if not (share.threshold == first.threshold) || not (share.total == first.total)
    then false
    else verify_share_public c d share

unfoldable pub all_consistent : Crypto → Digests → ShamirShare → List ShamirShare → Bool
unfolding consistent_with
all_consistent c d first [] = true
all_consistent c d first (share ∷ shares) =
    if consistent_with c d first share then all_consistent c d first shares else false

unfoldable pub check_hash : Digests → ShamirShare → Result Bytes → Result Bytes
unfolding compute_secret_hash
check_hash d first (err e) = err e
check_hash d first (ok recovered) =
    if bytes_eq (compute_secret_hash d recovered) first.secret_hash
    then ok recovered
    else err crypto_error

-- An empty subset would be an index out of range; `reconstruct_shamir_with_meta` excludes it.
unfoldable pub reconstruct_subset : Crypto → Digests → List ShamirShare → ℕ → Option (Result Bytes)
unfolding all_consistent check_hash reconstruct_secret_shamir
reconstruct_subset c d [] k = none
reconstruct_subset c d (first ∷ shares) k =
    if all_consistent c d first (first ∷ shares)
    then Option.map (check_hash d first) (
        reconstruct_secret_shamir (List.map (λ (s : ShamirShare). s.share_data) (first ∷ shares)) k)
    else some (err crypto_error)

unfoldable pub reconstruct_shamir_with_meta :
    Crypto → Digests → List ShamirShare → ℕ → Option (Result Bytes)
unfolding reconstruct_subset
reconstruct_shamir_with_meta c d shares k =
    if k == 0 || ltb (length shares) k
    then some (err crypto_error)
    else reconstruct_subset c d (take k shares) k
