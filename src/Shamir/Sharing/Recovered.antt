-- ===== src/Shamir/Sharing/Recovered.antt =====
-- The bytes and the checks of a reconstruction, on shares that a split has made.
use kyber_pipe.Base.{
  ℕ, zero, suc, ◌+◌, ◌-◌, ◌<◌, ◌≤◌, ◌≡◌, ◌≢◌, refl, sym, ap, ◌∙◌, true, false, List, [], ◌∷◌, ◌++◌,
  append_assoc, length, length-append, All, arith, ◌==◌, Bytes, IsBytes,
}
use mathlib.Core.List
use kyber_pipe.Shamir.Gf256.{entry}
use kyber_pipe.Shamir.Polynomial.{gf256_eval, gf256_lagrange_interpolate}
use kyber_pipe.Shamir.Sharing.{
  wrap8, drawn, points_at, recovered_bytes, all_of_length, sort_bytes, equal_neighbours,
}
use kyber_pipe.Shamir.Sharing.Order.{Different, sort_bytes_neighbours}
use kyber_pipe.Shamir.Sharing.Points.{
  coefficients, ordinates, made, coordinates, Small, byte_recovered,
}

-- The bytes drawn for a coefficient list.
length-drawn : (random : ℕ → ℕ) (pos n : ℕ) → length (drawn random pos n) ≡ n
unfolding drawn
length-drawn random pos zero = refl
length-drawn random pos (suc n) = omega (arith, length-drawn random (suc pos) n)

drawn-IsBytes :
    (random : ℕ → ℕ) → ((p : ℕ) → random p < 256) → (pos n : ℕ) → IsBytes (drawn random pos n)
unfolding drawn
drawn-IsBytes random r pos zero = tt
drawn-IsBytes random r pos (suc n) = (r pos, drawn-IsBytes random r (suc pos) n)

pub length-coefficients :
    (k : ℕ) (random : ℕ → ℕ) (pos : ℕ) (secret : Bytes)
    → length (coefficients k random pos secret) ≡ length secret
unfolding coefficients
length-coefficients k random pos [] = refl
length-coefficients k random pos (byte ∷ secret) =
    omega (arith, length-coefficients k random (pos + (k - 1)) secret)

pub length-ordinates : (css : List Bytes) (i : ℕ) → length (ordinates css i) ≡ length css
unfolding ordinates
length-ordinates [] i = refl
length-ordinates (c ∷ css) i = omega (arith, length-ordinates css i)

entry-ordinates :
    (done : List Bytes) (c : Bytes) (todo : List Bytes) (i : ℕ)
    → entry (ordinates (done ++ c ∷ todo) i) (length done) ≡ gf256_eval c (wrap8 (suc i))
unfolding ordinates entry
entry-ordinates [] c todo i = refl
entry-ordinates (d ∷ done) c todo i = entry-ordinates done c todo i

entry-made :
    (k : ℕ) (done : List Bytes) (c : Bytes) (todo : List Bytes) (i : ℕ)
    → entry (made k (done ++ c ∷ todo) i) (length done + 2) ≡ gf256_eval c (wrap8 (suc i))
unfolding entry
entry-made k done c todo i =
    let behind : length done + 2 ≡ suc (suc (length done)) = omega arith in
    ap (entry (made k (done ++ c ∷ todo) i)) behind ∙ entry-ordinates done c todo i

points_at-made :
    (k : ℕ) (done : List Bytes) (c : Bytes) (todo : List Bytes) (ids : List ℕ)
    → points_at (length done) (List.map (made k (done ++ c ∷ todo)) ids) ≡ coordinates c ids
unfolding points_at coordinates entry
points_at-made k done c todo [] = refl
points_at-made k done c todo (i ∷ ids) =
    ap
      (λ y. (wrap8 (suc i), y) ∷ points_at (length done) (List.map (made k (done ++ c ∷ todo)) ids))
      (entry-made k done c todo i)
    ∙ ap (λ ps. (wrap8 (suc i), gf256_eval c (wrap8 (suc i))) ∷ ps)
        (points_at-made k done c todo ids)

pub recovered_bytes-made :
    (k : ℕ) (random : ℕ → ℕ)
    → ((p : ℕ) → random p < 256)
    → 0 < k
    → (ids : List ℕ) → k ≤ length ids
    → All Small ids
    → Different ids
    → (pos : ℕ) (done : List Bytes) (secret : Bytes) → IsBytes secret
    → recovered_bytes
        (length done)
        (length secret)
        (List.map (made k (done ++ coefficients k random pos secret)) ids)
      ≡ secret
unfolding recovered_bytes coefficients
recovered_bytes-made k random r k0 ids l q d pos done [] h = refl
recovered_bytes-made k random r k0 ids l q d pos done (byte ∷ secret) h =
    let cs : Bytes = drawn random pos (k - 1) in
    let rest : List Bytes = coefficients k random (pos + (k - 1)) secret in
    let one : length (done ++ (byte ∷ cs) ∷ []) ≡ suc (length done) =
      omega (arith, length-append done ((byte ∷ cs) ∷ [])) in
    ap
      (λ b.
        b
        ∷ recovered_bytes (suc (length done)) (length secret)
            (List.map (made k (done ++ (byte ∷ cs) ∷ rest)) ids))
      (ap (λ ps. gf256_lagrange_interpolate ps 0) (points_at-made k done (byte ∷ cs) rest ids)
        ∙ byte_recovered byte cs ids (h.0, drawn-IsBytes random r pos (k - 1)) q d
            (omega (arith, length-drawn random pos (k - 1), k0, l)))
    ∙ ap (◌∷◌ byte) (
        ap (λ css. recovered_bytes (suc (length done)) (length secret) (List.map (made k css) ids))
          (sym (append_assoc done ((byte ∷ cs) ∷ []) rest))
        ∙ ap
            (λ m.
              recovered_bytes m (length secret)
                (List.map (made k ((done ++ (byte ∷ cs) ∷ []) ++ rest)) ids))
            (sym one)
        ∙ recovered_bytes-made k random r k0 ids l q d (pos + (k - 1)) (done ++ (byte ∷ cs) ∷ [])
            secret h.1)

pub all_of_length-made :
    (k : ℕ) (css : List Bytes) (m : ℕ) (ids : List ℕ)
    → 2 + length css ≡ m
    → all_of_length m (List.map (made k css) ids) ≡ true
unfolding all_of_length
all_of_length-made k css m [] h = refl
all_of_length-made k css m (i ∷ ids) h =
    let same : (length (made k css i) == m) ≡ true = ground (arith, length-ordinates css i, h) in
    rw same (all_of_length-made k css m ids h)

-- The x coordinates of shares of different indices.
x_ne :
    (i : ℕ) (ids : List ℕ)
    → Small i
    → All Small ids
    → All (λ j. i ≢ j) ids
    → All (λ y. wrap8 (suc i) ≢ y) (List.map (λ j. wrap8 (suc j)) ids)
x_ne i [] p q h = tt
x_ne i (j ∷ ids) p q h = ((λ e. h.0 (omega (arith, e, p, q.0))), x_ne i ids p q.1 h.1)

x-Different :
    (ids : List ℕ) → All Small ids → Different ids → Different (List.map (λ j. wrap8 (suc j)) ids)
x-Different [] q d = tt
x-Different (i ∷ ids) q d = (x_ne i ids q.0 q.1 d.0, x-Different ids q.1 d.1)

x_made :
    (k : ℕ) (css : List Bytes) (ids : List ℕ)
    → List.map (λ share. entry share 0) (List.map (made k css) ids)
      ≡ List.map (λ j. wrap8 (suc j)) ids
unfolding entry
x_made k css [] = refl
x_made k css (i ∷ ids) = ap (◌∷◌ (wrap8 (suc i))) (x_made k css ids)

pub no_neighbours :
    (k : ℕ) (css : List Bytes) (ids : List ℕ)
    → All Small ids
    → Different ids
    → equal_neighbours (sort_bytes (List.map (λ share. entry share 0) (List.map (made k css) ids)))
      ≡ false
no_neighbours k css ids q d =
    ap (λ xs. equal_neighbours (sort_bytes xs)) (x_made k css ids)
    ∙ sort_bytes_neighbours (List.map (λ j. wrap8 (suc j)) ids) (x-Different ids q d)
