-- ===== src/Shamir/Sharing/RoundTrip.antt =====
-- The secret comes back from any k of its shares, in any order.
use kyber_pipe.Base.{
  ℕ, zero, suc, ◌+◌, ◌-◌, ◌<◌, ◌≤◌, ◌≡◌, ◌≢◌, refl, sym, ap, ◌∙◌, true, false, some, List, [], ◌∷◌,
  length, length-take, take, take-map, length-map, All-take, All, arith, ◌==◌, ◌||◌, ltb, Bytes,
  IsBytes, Bool-cases, inl, inr,
}
use mathlib.Core.List
use kyber_pipe.Error.{ok}
use kyber_pipe.Shamir.Gf256.{entry}
use kyber_pipe.Shamir.Sharing.{
  new_shares, split_bytes, split_secret_shamir, recovered_bytes, all_of_length, sort_bytes,
  equal_neighbours, reconstruct_of_length, reconstruct_secret_shamir,
}
use kyber_pipe.Shamir.Sharing.Order.{Different}
use kyber_pipe.Shamir.Sharing.Points.{share_at, coefficients, made, share_at-split, Small}
use kyber_pipe.Shamir.Sharing.Recovered.{
  length-coefficients, length-ordinates, recovered_bytes-made, all_of_length-made, no_neighbours,
}

Different-take : (k : ℕ) (ids : List ℕ) → Different ids → Different (take k ids)
Different-take zero ids d = tt
Different-take (suc k) [] d = tt
Different-take (suc k) (i ∷ ids) d = (All-take (λ j. i ≢ j) k ids d.0, Different-take k ids d.1)

-- What a split that succeeds has checked and made.
split_ok :
    (random : ℕ → ℕ) (secret : Bytes) (k n : ℕ) (shares : List Bytes)
    → split_secret_shamir random secret k n ≡ ok shares
    → (0 < k) × (n ≤ 255) × (split_bytes k random 0 secret (new_shares k 0 n) ≡ shares)
unfolding split_secret_shamir
split_ok random secret k n shares e =
    elim (Bool-cases (k == 0 || n == 0 || ltb n k || ltb 255 k || ltb 255 n)) [
      | inl refused ↦ absurd (cc (refused, e))
      | inr passed ↦ (ground (arith, passed), ground (arith, passed), cc (passed, e))
    ]

shares-made :
    (k n : ℕ) (random : ℕ → ℕ) (secret : Bytes) (ids : List ℕ)
    → All (λ i. i < n) ids
    → List.map (share_at (split_bytes k random 0 secret (new_shares k 0 n))) ids
      ≡ List.map (made k (coefficients k random 0 secret)) ids
shares-made k n random secret [] a = refl
shares-made k n random secret (i ∷ ids) a =
    ap (λ share. share ∷ List.map (share_at (split_bytes k random 0 secret (new_shares k 0 n))) ids)
      (share_at-split k n random secret i a.0)
    ∙ ap (◌∷◌ (made k (coefficients k random 0 secret) i)) (shares-made k n random secret ids a.1)

All-Small : (n : ℕ) (ids : List ℕ) → n ≤ 255 → All (λ i. i < n) ids → All Small ids
All-Small n [] h a = tt
All-Small n (i ∷ ids) h a = (omega (arith, h, a.0), All-Small n ids h a.1)

-- The checks that pass.
reconstruct_of_length-accepted :
    (len : ℕ) (shares : List Bytes) (k : ℕ)
    → 2 < len
    → all_of_length len shares ≡ true
    → equal_neighbours (sort_bytes (List.map (λ share. entry share 0) (take k shares))) ≡ false
    → reconstruct_of_length len shares k ≡ some (ok (recovered_bytes 0 (len - 2) (take k shares)))
unfolding reconstruct_of_length
reconstruct_of_length-accepted len shares k h a d =
    let long : ltb len 2 ≡ false = ground (arith, h) in
    let some_bytes : (len - 2 == 0) ≡ false = ground (arith, h) in rw (long, some_bytes, a, d) refl

reconstruct-enough :
    (share : Bytes) (shares : List Bytes) (k : ℕ)
    → k ≤ length (share ∷ shares)
    → reconstruct_secret_shamir (share ∷ shares) k
      ≡ reconstruct_of_length (length share) (share ∷ shares) k
unfolding reconstruct_secret_shamir
reconstruct-enough share shares k h =
    let enough : ltb (length (share ∷ shares)) k ≡ false = ground (arith, h) in rw enough refl

reconstruct-made :
    (k : ℕ) (random : ℕ → ℕ)
    → ((p : ℕ) → random p < 256)
    → (secret : Bytes) → IsBytes secret
    → 0 < length secret
    → 0 < k
    → (ids : List ℕ) → k ≤ length ids
    → All Small ids
    → Different ids
    → reconstruct_secret_shamir (List.map (made k (coefficients k random 0 secret)) ids) k
      ≡ some (ok secret)
reconstruct-made k random r secret h s k0 [] l q d = absurd (omega arith)
reconstruct-made k random r secret h s k0 (i ∷ ids) l q d =
    let css : List Bytes = coefficients k random 0 secret in
    let shares : List Bytes = List.map (made k css) (i ∷ ids) in
    let m : 2 + length css ≡ 2 + length secret =
      omega (arith, length-coefficients k random 0 secret) in
    let first : length (made k css i) ≡ 2 + length secret =
      omega (arith, length-ordinates css i, m) in
    let used : take k shares ≡ List.map (made k css) (take k (i ∷ ids)) =
      take-map k (made k css) (i ∷ ids) in
    let q' : All Small (take k (i ∷ ids)) = All-take Small k (i ∷ ids) q in
    let d' : Different (take k (i ∷ ids)) = Different-take k (i ∷ ids) d in
    reconstruct-enough (made k css i) (List.map (made k css) ids) k
      (omega (arith, l, length-map (made k css) ids))
    ∙ ap (λ len. reconstruct_of_length len shares k) first
    ∙ (reconstruct_of_length-accepted (2 + length secret) shares k (omega (arith, s))
          (all_of_length-made k css (2 + length secret) (i ∷ ids) m)
          (ap (λ u. equal_neighbours (sort_bytes (List.map (λ share. entry share 0) u))) used
            ∙ no_neighbours k css (take k (i ∷ ids)) q' d')
        ∙ ap (λ u. some (ok (recovered_bytes 0 (2 + length secret - 2) u))) used
        ∙ ap (λ c. some (ok (recovered_bytes 0 c (List.map (made k css) (take k (i ∷ ids))))))
            (omega arith)
        ∙ ap (λ b. some (ok b))
            (recovered_bytes-made k random r k0 (take k (i ∷ ids))
              (omega (arith, l, length-take k (i ∷ ids))) q' d' 0 [] secret h))

-- A secret of at least one byte is split by bytes drawn at random into n shares with threshold k.
-- When that succeeds, any list of at least k of the shares, no share twice and in any order, gives
-- the secret back.
pub reconstruct_secret_shamir-split_secret_shamir :
    (random : ℕ → ℕ)
    → ((p : ℕ) → random p < 256)
    → (secret : Bytes) → IsBytes secret
    → 0 < length secret
    → (k n : ℕ) (shares : List Bytes) → split_secret_shamir random secret k n ≡ ok shares
    → (ids : List ℕ) → k ≤ length ids
    → All (λ i. i < n) ids
    → Different ids
    → reconstruct_secret_shamir (List.map (share_at shares) ids) k ≡ some (ok secret)
reconstruct_secret_shamir-split_secret_shamir random r secret h s k n shares e ids l a d =
    let split : (0 < k) × (n ≤ 255) × (split_bytes k random 0 secret (new_shares k 0 n) ≡ shares) =
      split_ok random secret k n shares e in
    ap (λ ss. reconstruct_secret_shamir (List.map (share_at ss) ids) k) (sym split.2)
    ∙ ap (λ ss. reconstruct_secret_shamir ss k) (shares-made k n random secret ids a)
    ∙ reconstruct-made k random r secret h s split.0 ids l (All-Small n ids split.1 a) d
