-- ===== src/Shamir/Polynomial/Recovery.antt =====
-- The interpolation of the code gives the value of the polynomial whose points it is given.
use kyber_pipe.Base.{
  ℕ, suc, ◌+◌, ◌<◌, ◌≤◌, ◌≡◌, ◌⊎◌, inl, refl, sym, ap, ◌∙◌, true, false, List, [], ◌∷◌, ◌++◌,
  append_assoc, length, length-append, arith, ◌==◌, Bytes,
}
use mathlib.Core.List
use mathlib.Core.Path.{fun_ext}
use Prim.Native.Nat.{bit_xor}
use kyber_pipe.Base.Bits.{zero-bit_xor, bit_xor_comm, bit_xor_assoc}
use kyber_pipe.Shamir.Gf256.{mul}
use kyber_pipe.Shamir.Gf256.Elements.{Byte, gf256}
use kyber_pipe.Shamir.Field.{mul-one}
use kyber_pipe.Shamir.Interpolation.{Apart, distances, evaluate}
use kyber_pipe.Shamir.Lagrange.{terms, terms-evaluate}
use kyber_pipe.Shamir.Polynomial.{
  gf256_eval, products, term_of, interpolate_from, gf256_lagrange_interpolate,
}

abbrev pub values : List Byte → Bytes
values xs = List.map (λ (a : Byte). a.0) xs

pub gf256_eval-values :
    (cs : List Byte) (x : Byte) → gf256_eval (values cs) x.0 ≡ (evaluate gf256 cs x).0
unfolding gf256_eval evaluate gf256
gf256_eval-values [] x = refl
gf256_eval-values (c ∷ cs) x = ap (λ v. bit_xor (mul v x.0) c.0) (gf256_eval-values cs x)

-- The points of a function.
abbrev pub points_of : (Byte → Byte) → List Byte → List (ℕ × ℕ)
points_of f xs = List.map (λ (x : Byte). (x.0, (f x).0)) xs

-- A product from the left, as the inner loop builds it.
abbrev folded : Byte → Byte → List Byte → Byte
folded acc z [] = acc
folded acc z (y ∷ ys) = folded (gf256.mul acc (gf256.add z y)) z ys

folded-distances :
    (acc z : Byte) (ys : List Byte) → folded acc z ys ≡ gf256.mul acc (distances gf256 z ys)
unfolding distances
folded-distances acc z [] = sym (mul-one gf256 acc)
folded-distances acc z (y ∷ ys) =
    folded-distances (gf256.mul acc (gf256.add z y)) z ys
    ∙ gf256.mul_assoc acc (gf256.add z y) (distances gf256 z ys)

folded-append :
    (acc z : Byte) (ys : List Byte) (x : Byte)
    → folded acc z (ys ++ x ∷ []) ≡ gf256.mul (folded acc z ys) (gf256.add z x)
folded-append acc z [] x = refl
folded-append acc z (y ∷ ys) x = folded-append (gf256.mul acc (gf256.add z y)) z ys x

abbrev both : Byte → Byte → ℕ × ℕ
both n d = (n.0, d.0)

not_same : (i j n : ℕ) → (i < j) ⊎ (j + suc n ≤ i) → (i == j) ≡ false
not_same i j n h = ground arith

still_apart : (i j n : ℕ) → (i < j) ⊎ (j + suc n ≤ i) → (i < suc j) ⊎ (suc j + n ≤ i)
still_apart i j n h = ground arith

-- The inner loop over points of which none is the point `i`.
products_others :
    (i j : ℕ) (x xi : Byte) (f : Byte → Byte) (ys : List Byte) (n d : Byte)
    → ((i < j) ⊎ (j + length ys ≤ i))
    → products i j x.0 xi.0 (points_of f ys) (both n d) ≡ both (folded n x ys) (folded d xi ys)
unfolding products gf256
products_others i j x xi f [] n d h = refl
products_others i j x xi f (y ∷ ys) n d h =
    let other : (i == j) ≡ false = not_same i j (length ys) h in
    rw (other, products)
      (products_others i (suc j) x xi f ys (gf256.mul n (gf256.add x y))
        (gf256.mul d (gf256.add xi y)) (still_apart i j (length ys) h))

-- The whole inner loop for the point behind `pre`.
products_all :
    (pre : List Byte) (i j : ℕ) (x xi : Byte) (post : List Byte) (f : Byte → Byte) (n d : Byte)
    → i ≡ j + length pre
    → products i j x.0 xi.0 (points_of f (pre ++ xi ∷ post)) (both n d)
      ≡ both (folded (folded n x pre) x post) (folded (folded d xi pre) xi post)
unfolding products gf256
products_all [] i j x xi post f n d h =
    let same : (i == j) ≡ true = ground arith in
    rw (same, products) (products_others i (suc j) x xi f post n d (inl (omega arith)))
products_all (y ∷ pre) i j x xi post f n d h =
    let other : (i == j) ≡ false = ground arith in
    rw (other, products)
      (products_all pre i (suc j) x xi post f (gf256.mul n (gf256.add x y))
        (gf256.mul d (gf256.add xi y)) (omega arith))

length_snoc : (pre : List Byte) (x : Byte) → length (pre ++ x ∷ []) ≡ suc (length pre)
length_snoc pre x = omega (arith, length-append pre (x ∷ []))

-- The term of a point, by the formula, and as the loops give it.
abbrev loop_term : (Byte → Byte) → Byte → Byte → Byte → Byte → List Byte → Byte
loop_term f x xi n d post = gf256.mul (f xi) (
    gf256.mul (gf256.mul n (distances gf256 x post))
      (gf256.inverse (gf256.mul d (distances gf256 xi post))))

term_loop :
    (f : Byte → Byte) (x xi n d : Byte) (post : List Byte)
    → gf256.mul (f xi) (gf256.mul (folded n x post) (gf256.inverse (folded d xi post)))
      ≡ loop_term f x xi n d post
term_loop f x xi n d post = rw (folded-distances n x post, folded-distances d xi post) refl

-- The outer loop from the point behind `pre` on.
interpolate_terms :
    (pre post : List Byte) (x : Byte) (f : Byte → Byte) (result : ℕ)
    → interpolate_from x.0 (points_of f (pre ++ post)) (length pre) (points_of f post) result
      ≡ bit_xor result
          (terms gf256 (folded gf256.one x pre) (λ z. folded gf256.one z pre) x post f).0
unfolding interpolate_from terms gf256
interpolate_terms pre [] x f result = sym (bit_xor_comm result 0 ∙ zero-bit_xor result)
interpolate_terms pre (xi ∷ post) x f result =
    let n : Byte = folded gf256.one x pre in
    let w : Byte → Byte = λ z. folded gf256.one z pre in
    let next : List Byte = pre ++ xi ∷ [] in
    let rest : Byte =
      terms gf256 (gf256.mul n (gf256.add x xi)) (λ z. gf256.mul (w z) (gf256.add z xi)) x post f in
    let t : Byte = loop_term f x xi n (w xi) post in
    ap
      (λ v.
        interpolate_from x.0 (points_of f (pre ++ xi ∷ post)) (suc (length pre)) (points_of f post)
          (bit_xor result (term_of (f xi).0 v)))
      (products_all pre (length pre) 0 x xi post f gf256.one gf256.one (omega arith))
    ∙ ap
        (λ (v : Byte).
          interpolate_from x.0 (points_of f (pre ++ xi ∷ post)) (suc (length pre))
            (points_of f post) (bit_xor result v.0))
        (term_loop f x xi n (w xi) post)
    ∙ ap
        (λ all.
          interpolate_from x.0 (points_of f all) (suc (length pre)) (points_of f post)
            (bit_xor result t.0))
        (sym (append_assoc pre (xi ∷ []) post))
    ∙ ap
        (λ i.
          interpolate_from x.0 (points_of f (next ++ post)) i (points_of f post)
            (bit_xor result t.0))
        (sym (length_snoc pre xi))
    ∙ interpolate_terms next post x f (bit_xor result t.0)
    ∙ ap
        (λ u.
          bit_xor (bit_xor result t.0) (terms gf256 u (λ z. folded gf256.one z next) x post f).0)
        (folded-append gf256.one x pre xi)
    ∙ ap
        (λ u.
          bit_xor (bit_xor result t.0) (terms gf256 (gf256.mul n (gf256.add x xi)) u x post f).0)
        (fun_ext λ z. folded-append gf256.one z pre xi)
    ∙ bit_xor_assoc result t.0 rest.0

-- Distinct points of a polynomial with at most as many coefficients as there are points, and a
-- place that is none of them: the code's interpolation gives the polynomial's value at the place.
pub interpolate-values :
    (cs : List Byte) (x : Byte) (xs : List Byte)
    → Apart gf256 (x ∷ xs)
    → length cs ≤ length xs
    → gf256_lagrange_interpolate (points_of (evaluate gf256 cs) xs) x.0 ≡ (evaluate gf256 cs x).0
unfolding gf256_lagrange_interpolate
interpolate-values cs x xs h l =
    interpolate_terms [] xs x (evaluate gf256 cs) 0
    ∙ zero-bit_xor (terms gf256 gf256.one (λ z. gf256.one) x xs (evaluate gf256 cs)).0
    ∙ ap (λ (a : Byte). a.0) (terms-evaluate gf256 cs x xs h l)
