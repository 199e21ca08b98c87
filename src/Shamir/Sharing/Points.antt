-- ===== src/Shamir/Sharing/Points.antt =====
-- Each share as a function of its index, and its bytes as points of polynomials.
use kyber_pipe.Base.{
  ℕ, zero, suc, ◌+◌, ◌-◌, ◌<◌, ◌≤◌, ◌≡◌, ◌≢◌, refl, sym, ap, ◌∙◌, List, [], ◌∷◌, ◌++◌, append_assoc,
  append-nil, length, All, arith, Bytes, IsBytes,
}
use mathlib.Core.List
use Prim.Native.Nat.{bit_xor}
use kyber_pipe.Base.Bits.{zero-bit_xor}
use kyber_pipe.Shamir.Gf256.Laws.{mul-zero}
use kyber_pipe.Shamir.Gf256.Elements.{Byte, gf256}
use kyber_pipe.Shamir.Interpolation.{Apart, evaluate}
use kyber_pipe.Shamir.Polynomial.{gf256_eval, gf256_lagrange_interpolate}
use kyber_pipe.Shamir.Polynomial.Recovery.{values, points_of, gf256_eval-values, interpolate-values}
use kyber_pipe.Shamir.Sharing.{wrap8, drawn, new_shares, push_points, split_bytes}
use kyber_pipe.Shamir.Sharing.Order.{Different}

-- The share at an index.
abbrev pub share_at : List Bytes → ℕ → Bytes
share_at [] i = []
share_at (share ∷ shares) zero = share
share_at (share ∷ shares) (suc i) = share_at shares i

-- The coefficients for each byte of the secret.
unfoldable pub coefficients : ℕ → (ℕ → ℕ) → ℕ → Bytes → List Bytes
coefficients k random pos [] = []
coefficients k random pos (byte ∷ secret) =
    (byte ∷ drawn random pos (k - 1)) ∷ coefficients k random (pos + (k - 1)) secret

-- The bytes of a share behind its first two.
unfoldable pub ordinates : List Bytes → ℕ → Bytes
ordinates css i = List.map (λ c. gf256_eval c (wrap8 (suc i))) css

length-push_points :
    (c : Bytes) (idx : ℕ) (shares : List Bytes) → length (push_points c idx shares) ≡ length shares
unfolding push_points
length-push_points c idx [] = refl
length-push_points c idx (share ∷ shares) = omega (arith, length-push_points c (suc idx) shares)

share_at-push_points :
    (c : Bytes) (idx i : ℕ) (shares : List Bytes)
    → i < length shares
    → share_at (push_points c idx shares) i
      ≡ share_at shares i ++ gf256_eval c (wrap8 (suc (idx + i))) ∷ []
unfolding push_points
share_at-push_points c idx i [] h = absurd (omega arith)
share_at-push_points c idx zero (share ∷ shares) h =
    ap (λ j. share ++ gf256_eval c (wrap8 (suc j)) ∷ []) (omega arith)
share_at-push_points c idx (suc i) (share ∷ shares) h =
    share_at-push_points c (suc idx) i shares (omega arith)
    ∙ ap (λ j. share_at shares i ++ gf256_eval c (wrap8 (suc j)) ∷ []) (omega arith)

share_at-split_bytes :
    (k : ℕ) (random : ℕ → ℕ) (pos : ℕ) (secret : Bytes) (shares : List Bytes) (i : ℕ)
    → i < length shares
    → share_at (split_bytes k random pos secret shares) i
      ≡ share_at shares i ++ ordinates (coefficients k random pos secret) i
unfolding split_bytes coefficients ordinates
share_at-split_bytes k random pos [] shares i h = sym (append-nil (share_at shares i))
share_at-split_bytes k random pos (byte ∷ secret) shares i h =
    let c : Bytes = byte ∷ drawn random pos (k - 1) in
    share_at-split_bytes k random (pos + (k - 1)) secret (push_points c 0 shares) i
      (omega (arith, length-push_points c 0 shares))
    ∙ ap (λ share. share ++ ordinates (coefficients k random (pos + (k - 1)) secret) i)
        (share_at-push_points c 0 i shares h
          ∙ ap (λ j. share_at shares i ++ gf256_eval c (wrap8 (suc j)) ∷ []) (omega arith))
    ∙ append_assoc (share_at shares i) (gf256_eval c (wrap8 (suc i)) ∷ [])
        (ordinates (coefficients k random (pos + (k - 1)) secret) i)

length-new_shares : (k idx n : ℕ) → length (new_shares k idx n) ≡ n
unfolding new_shares
length-new_shares k idx zero = refl
length-new_shares k idx (suc n) = omega (arith, length-new_shares k (suc idx) n)

share_at-new_shares :
    (k idx n i : ℕ) → i < n → share_at (new_shares k idx n) i ≡ wrap8 (suc (idx + i)) ∷ wrap8 k ∷ []
unfolding new_shares
share_at-new_shares k idx zero i h = absurd (omega arith)
share_at-new_shares k idx (suc n) zero h = ap (λ j. wrap8 (suc j) ∷ wrap8 k ∷ []) (omega arith)
share_at-new_shares k idx (suc n) (suc i) h =
    share_at-new_shares k (suc idx) n i (omega arith)
    ∙ ap (λ j. wrap8 (suc j) ∷ wrap8 k ∷ []) (omega arith)

-- The shares of some indices.
abbrev pub made : ℕ → List Bytes → ℕ → Bytes
made k css i = wrap8 (suc i) ∷ wrap8 k ∷ ordinates css i

pub share_at-split :
    (k n : ℕ) (random : ℕ → ℕ) (secret : Bytes) (i : ℕ)
    → i < n
    → share_at (split_bytes k random 0 secret (new_shares k 0 n)) i
      ≡ made k (coefficients k random 0 secret) i
share_at-split k n random secret i h =
    share_at-split_bytes k random 0 secret (new_shares k 0 n) i
      (omega (arith, length-new_shares k 0 n))
    ∙ ap (λ share. share ++ ordinates (coefficients k random 0 secret) i)
        (share_at-new_shares k 0 n i h ∙ ap (λ j. wrap8 (suc j) ∷ wrap8 k ∷ []) (omega arith))

-- A string of bytes as elements of the field.
lifted : (c : Bytes) → IsBytes c → List Byte
lifted [] h = []
lifted (b ∷ c) h = (b, h.0) ∷ lifted c h.1

values-lifted : (c : Bytes) (h : IsBytes c) → values (lifted c h) ≡ c
unfolding lifted
values-lifted [] h = refl
values-lifted (b ∷ c) h = ap (◌∷◌ b) (values-lifted c h.1)

length-lifted : (c : Bytes) (h : IsBytes c) → length (lifted c h) ≡ length c
unfolding lifted
length-lifted [] h = refl
length-lifted (b ∷ c) h = omega (arith, length-lifted c h.1)

-- The x coordinates of the shares of some indices.
abscissa : ℕ → Byte
abscissa i = (wrap8 (suc i), omega arith)

abscissas : List ℕ → List Byte
unfolding abscissa
abscissas ids = List.map abscissa ids

unfoldable pub coordinates : (c : Bytes) → List ℕ → List (ℕ × ℕ)
coordinates c ids = List.map (λ i. (wrap8 (suc i), gf256_eval c (wrap8 (suc i)))) ids

coordinates_points :
    (c : Bytes) (h : IsBytes c) (ids : List ℕ)
    → coordinates c ids ≡ points_of (evaluate gf256 (lifted c h)) (abscissas ids)
unfolding coordinates abscissas
coordinates_points c h [] = refl
coordinates_points c h (i ∷ ids) =
    ap (λ y. (wrap8 (suc i), y) ∷ coordinates c ids)
      (ap (λ d. gf256_eval d (wrap8 (suc i))) (sym (values-lifted c h))
        ∙ gf256_eval-values (lifted c h) (abscissa i))
    ∙ ap (λ ps. (wrap8 (suc i), (evaluate gf256 (lifted c h) (abscissa i)).0) ∷ ps)
        (coordinates_points c h ids)

length-abscissas : (ids : List ℕ) → length (abscissas ids) ≡ length ids
unfolding abscissas
length-abscissas [] = refl
length-abscissas (i ∷ ids) = omega (arith, length-abscissas ids)

-- An index of a share, and its x coordinate.
abbrev pub Small : ℕ → Type 0
Small i = i < 255

abscissa_ne : (i j : ℕ) → Small i → Small j → i ≢ j → abscissa i ≢ abscissa j
unfolding abscissa
abscissa_ne i j p q h e =
    let same : wrap8 (suc i) ≡ wrap8 (suc j) = ap (λ (a : Byte). a.0) e in h (omega (arith, same))

All-apart :
    (i : ℕ) (ids : List ℕ)
    → Small i
    → All Small ids
    → All (λ j. i ≢ j) ids
    → All (λ y. abscissa i ≢ y) (abscissas ids)
unfolding abscissas
All-apart i [] p q h = tt
All-apart i (j ∷ ids) p q h = (abscissa_ne i j p q.0 h.0, All-apart i ids p q.1 h.1)

abscissas-Apart : (ids : List ℕ) → All Small ids → Different ids → Apart gf256 (abscissas ids)
unfolding abscissas
abscissas-Apart [] q d = tt
abscissas-Apart (i ∷ ids) q d = (All-apart i ids q.0 q.1 d.0, abscissas-Apart ids q.1 d.1)

origin : Byte
origin = (0, omega arith)

origin_ne : (ids : List ℕ) → All Small ids → All (λ y. origin ≢ y) (abscissas ids)
unfolding abscissas abscissa origin
origin_ne [] q = tt
origin_ne (i ∷ ids) q = (
  (λ e.
      let same : 0 ≡ wrap8 (suc i) = ap (λ (a : Byte). a.0) e in absurd (omega (arith, same, q.0))),
  origin_ne ids q.1,
)

-- The byte of the secret from the points of the shares.
pub byte_recovered :
    (b : ℕ) (c : Bytes) (ids : List ℕ)
    → IsBytes (b ∷ c)
    → All Small ids
    → Different ids
    → length (b ∷ c) ≤ length ids
    → gf256_lagrange_interpolate (coordinates (b ∷ c) ids) 0 ≡ b
unfolding gf256_eval origin
byte_recovered b c ids h q d l =
    ap (λ ps. gf256_lagrange_interpolate ps 0) (coordinates_points (b ∷ c) h ids)
    ∙ interpolate-values (lifted (b ∷ c) h) origin (abscissas ids)
        (origin_ne ids q, abscissas-Apart ids q d)
        (omega (arith, length-lifted (b ∷ c) h, length-abscissas ids))
    ∙ sym (gf256_eval-values (lifted (b ∷ c) h) origin)
    ∙ ap (λ e. gf256_eval e 0) (values-lifted (b ∷ c) h)
    ∙ ap (λ v. bit_xor v b) (mul-zero (gf256_eval c 0))
    ∙ zero-bit_xor b
