-- ===== src/Shamir/Sharing.antt =====
-- core-crypto/src/crypto/shamir.rs: splitting a secret and reconstructing it.
pub mod Order
pub mod Points
pub mod Recovered
pub mod RoundTrip
use kyber_pipe.Base.{
  ℕ, zero, suc, ◌+◌, ◌-◌, ◌*◌, ◌%◌, Bool, true, false, not, ◌&&◌, ◌||◌, Option, none, some, List,
  [], ◌∷◌, ◌++◌, length, take, is_empty, ltb, leb, ◌==◌, if◌then◌else◌, Bytes,
}
use mathlib.Core.List
use kyber_pipe.Error.{Result, ok, err, crypto_error}
use kyber_pipe.Shamir.Gf256.{entry}
use kyber_pipe.Shamir.Polynomial.{gf256_eval, gf256_lagrange_interpolate}

-- `as u8`.
abbrev pub wrap8 : ℕ → ℕ
wrap8 n = n % 256

-- The random bytes in the order in which they are drawn, from the `pos`-th on.
unfoldable pub drawn : (ℕ → ℕ) → ℕ → ℕ → Bytes
drawn random pos zero = []
drawn random pos (suc n) = random pos ∷ drawn random (suc pos) n

-- The shares before the secret's bytes: x coordinate and threshold.
unfoldable pub new_shares : ℕ → ℕ → ℕ → List Bytes
new_shares k idx zero = []
new_shares k idx (suc n) = (wrap8 (suc idx) ∷ wrap8 k ∷ []) ∷ new_shares k (suc idx) n

-- One byte of the secret on each share.
unfoldable pub push_points : Bytes → ℕ → List Bytes → List Bytes
unfolding gf256_eval
push_points coeffs idx [] = []
push_points coeffs idx (share ∷ shares) =
    (share ++ gf256_eval coeffs (wrap8 (suc idx)) ∷ []) ∷ push_points coeffs (suc idx) shares

unfoldable pub split_bytes : ℕ → (ℕ → ℕ) → ℕ → Bytes → List Bytes → List Bytes
unfolding push_points drawn
split_bytes k random pos [] shares = shares
split_bytes k random pos (byte ∷ secret) shares =
    split_bytes k random (pos + (k - 1)) secret
      (push_points (byte ∷ drawn random pos (k - 1)) 0 shares)

unfoldable pub split_secret_shamir : (ℕ → ℕ) → Bytes → ℕ → ℕ → Result (List Bytes)
unfolding split_bytes new_shares
split_secret_shamir random secret k n =
    if k == 0 || n == 0 || ltb n k || ltb 255 k || ltb 255 n
    then err crypto_error
    else ok (split_bytes k random 0 secret (new_shares k 0 n))

-- `sort` of bytes, and the comparison of neighbours.
unfoldable pub insert_byte : ℕ → Bytes → Bytes
insert_byte x [] = x ∷ []
insert_byte x (y ∷ ys) = if leb x y then x ∷ y ∷ ys else y ∷ insert_byte x ys

unfoldable pub sort_bytes : Bytes → Bytes
unfolding insert_byte
sort_bytes [] = []
sort_bytes (x ∷ xs) = insert_byte x (sort_bytes xs)

unfoldable pub equal_neighbours : Bytes → Bool
equal_neighbours [] = false
equal_neighbours (x ∷ []) = false
equal_neighbours (x ∷ y ∷ ys) = x == y || equal_neighbours (y ∷ ys)

unfoldable pub all_of_length : ℕ → List Bytes → Bool
all_of_length n [] = true
all_of_length n (share ∷ shares) = length share == n && all_of_length n shares

-- The points of one byte of the secret.
unfoldable pub points_at : ℕ → List Bytes → List (ℕ × ℕ)
unfolding entry
points_at byte_idx [] = []
points_at byte_idx (share ∷ shares) =
    (entry share 0, entry share (byte_idx + 2)) ∷ points_at byte_idx shares

-- The bytes of the secret from `byte_idx` on.
unfoldable pub recovered_bytes : ℕ → ℕ → List Bytes → Bytes
unfolding points_at gf256_lagrange_interpolate
recovered_bytes byte_idx zero shares = []
recovered_bytes byte_idx (suc n) shares =
    gf256_lagrange_interpolate (points_at byte_idx shares) 0
    ∷ recovered_bytes (suc byte_idx) n shares

-- The checks and the recovery, for shares of which the first has `len` bytes. A first share of less
-- than two bytes is an underflow, a panic, and gives `none`.
unfoldable pub reconstruct_of_length : ℕ → List Bytes → ℕ → Option (Result Bytes)
unfolding all_of_length sort_bytes equal_neighbours recovered_bytes entry
reconstruct_of_length len shares k =
    if ltb len 2
    then none
    else if len - 2 == 0
    then some (err crypto_error)
    else if not (all_of_length len shares)
    then some (err crypto_error)
    else if equal_neighbours (sort_bytes (List.map (λ share. entry share 0) (take k shares)))
    then some (err crypto_error)
    else some (ok (recovered_bytes 0 (len - 2) (take k shares)))

unfoldable pub reconstruct_secret_shamir : List Bytes → ℕ → Option (Result Bytes)
unfolding reconstruct_of_length
reconstruct_secret_shamir [] k = some (err crypto_error)
reconstruct_secret_shamir (share ∷ shares) k =
    if ltb (length (share ∷ shares)) k
    then some (err crypto_error)
    else reconstruct_of_length (length share) (share ∷ shares) k
