-- ===== src/Witness/Sharing.antt =====
-- Shares of a secret.
use kyber_pipe.Base.{ℕ, ◌+◌, ◌*◌, ◌%◌, ◌<◌, ◌≡◌, refl, some, List, [], ◌∷◌, arith, Bytes}
use kyber_pipe.Base.{ascii, to_be_bytes64, true, All, ◌++◌, take, replicate}
use mathlib.Core.List
use kyber_pipe.Toy.{toy}
use kyber_pipe.Shamir.Metadata.{
  Digests, ShamirShare, zeros, mark_shares, compute_share_mac, compute_secret_hash,
  split_secret_shamir_with_meta, verify_share_with_key, reconstruct_shamir_with_meta,
}
use kyber_pipe.Shamir.Metadata.Backstop.{reconstruct_shamir_with_meta_verified}
use kyber_pipe.Error.{ok}
use kyber_pipe.Shamir.Sharing.{split_secret_shamir, reconstruct_secret_shamir}
use kyber_pipe.Shamir.Sharing.Points.{share_at}
use kyber_pipe.Shamir.Sharing.RoundTrip.{reconstruct_secret_shamir-split_secret_shamir}

abbrev drawn_at : ℕ → ℕ
drawn_at p = (p * 77 + 201) % 256

drawn_at_byte : (p : ℕ) → drawn_at p < 256
drawn_at_byte p = omega arith

abbrev two_bytes : Bytes
two_bytes = 83 ∷ 7 ∷ []

abbrev three_shares : List Bytes
three_shares = (1 ∷ 2 ∷ 154 ∷ 17 ∷ []) ∷ (2 ∷ 2 ∷ 218 ∷ 43 ∷ []) ∷ (3 ∷ 2 ∷ 19 ∷ 61 ∷ []) ∷ []

three_shares_split : split_secret_shamir drawn_at two_bytes 2 3 ≡ ok three_shares
unfolding split_secret_shamir
three_shares_split = refl

reconstruct_secret_shamir-split_secret_shamir_example :
    reconstruct_secret_shamir (List.map (share_at three_shares) (2 ∷ 0 ∷ [])) 2
    ≡ some (ok two_bytes)
reconstruct_secret_shamir-split_secret_shamir_example =
    reconstruct_secret_shamir-split_secret_shamir drawn_at drawn_at_byte two_bytes
      (omega arith, (omega arith, tt)) (omega arith) 2 3 three_shares three_shares_split
      (2 ∷ 0 ∷ []) (omega arith) (omega arith, (omega arith, tt))
      (((λ e. omega (arith, e)), tt), (tt, tt))

abbrev toy_digests : Digests
toy_digests = record { sha256 = λ text. 1 ∷ text; hmac_sha256 = λ key text. key ++ text }

-- Three shares with their metadata.
abbrev three_marked : List ShamirShare
three_marked =
    mark_shares toy toy_digests
      (record {
        index = 0;
        threshold = 2;
        total = 3;
        timestamp = 1_700_000_000;
        share_data = [];
        mac = zeros;
        verify_key = replicate 32 7;
        secret_hash = 1 ∷ two_bytes;
      })
      0 three_shares

three_marked_split :
    split_secret_shamir_with_meta toy toy_digests drawn_at
      (replicate 32 7)
      1_700_000_000
      two_bytes
      2
      3
    ≡ ok three_marked
unfolding split_secret_shamir_with_meta split_secret_shamir mark_shares compute_secret_hash toy
three_marked_split = refl

three_marked_back :
    reconstruct_shamir_with_meta toy toy_digests three_marked 2 ≡ some (ok two_bytes)
unfolding reconstruct_shamir_with_meta mark_shares compute_share_mac toy ascii to_be_bytes64
three_marked_back = refl

reconstruct_shamir_with_meta_verified_example :
    All
      (λ share. verify_share_with_key toy toy_digests share two_bytes ≡ true)
      (take 2 three_marked)
reconstruct_shamir_with_meta_verified_example =
    reconstruct_shamir_with_meta_verified toy toy_digests three_marked 2 two_bytes three_marked_back
