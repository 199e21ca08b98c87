-- ===== src/Shamir/Lagrange.antt =====
-- Lagrange's formula over a field of characteristic 2, in the order of the code's two loops.
use kyber_pipe.Base.{◌≤◌, ◌≡◌, ◌≢◌, refl, sym, ap, ◌∙◌, List, [], ◌∷◌, length, All}
use kyber_pipe.Shamir.Field.{
  Char2Field, mul-one, mul-zero, mul_left_comm, mul_right_comm, add_ne-zero, mul_ne-zero,
  eq_of_add-zero,
}
use kyber_pipe.Shamir.Interpolation.{
  Apart, distances, divided, divided_ext, factor_cancels, evaluate, divided-evaluate,
}

module _ {F : Type 0} (k : Char2Field F) where
  -- The sum of the terms, with the products over the points gone before.
  unfoldable pub terms : F → (F → F) → F → List F → (F → F) → F
  terms n w x0 [] f = k.zero
  terms n w x0 (x ∷ xs) f =
      k.add
        (k.mul (f x)
          (k.mul (k.mul n (distances k x0 xs)) (k.inverse (k.mul (w x) (distances k x xs)))))
        (terms (k.mul n (k.add x0 x)) (λ z. k.mul (w z) (k.add z x)) x0 xs f)

  one_term :
      (n d0 x0 x u d v : F)
      → x0 ≢ x
      → k.mul v (k.mul (k.mul n d0) (k.inverse (k.mul u d)))
        ≡ k.mul
            (k.mul n (k.mul (k.add x0 x) d0))
            (k.mul v (k.inverse (k.mul (k.mul u (k.add x x0)) d)))
  one_term n d0 x0 x u d v h =
      let p : F = k.add x x0 in
      let q : F = k.mul n d0 in
      let j : F = k.inverse (k.mul (k.mul u p) d) in
      mul_left_comm k v q (k.inverse (k.mul u d))
      ∙ sym (k.mul_assoc q v (k.inverse (k.mul u d)))
      ∙ sym (factor_cancels k p (k.mul q v) u d (add_ne-zero k x x0 (λ e. h (sym e))))
      ∙ ap (λ r. k.mul r j) (sym (k.mul_assoc p q v))
      ∙ k.mul_assoc (k.mul p q) v j
      ∙ ap (λ r. k.mul r (k.mul v j))
          (mul_left_comm k p n d0 ∙ ap (λ r. k.mul n (k.mul r d0)) (k.add_comm x x0))

  terms-divided :
      (n : F) (w : F → F) (x0 : F) (xs : List F) (f : F → F)
      → All (λ y. x0 ≢ y) xs
      → terms n w x0 xs f
        ≡ k.mul (k.mul n (distances k x0 xs)) (divided k (λ z. k.mul (w z) (k.add z x0)) xs f)
  unfolding terms divided distances
  terms-divided n w x0 [] f h = sym (mul-zero k (k.mul n k.one))
  terms-divided n w x0 (x ∷ xs) f h =
      let m : F = k.mul n (k.mul (k.add x0 x) (distances k x0 xs)) in
      let t : F = k.mul (f x) (k.inverse (k.mul (k.mul (w x) (k.add x x0)) (distances k x xs))) in
      let r : F = divided k (λ z. k.mul (k.mul (w z) (k.add z x0)) (k.add z x)) xs f in
      ap (λ v. k.add v (terms (k.mul n (k.add x0 x)) (λ z. k.mul (w z) (k.add z x)) x0 xs f))
        (one_term n (distances k x0 xs) x0 x (w x) (distances k x xs) (f x) h.0)
      ∙ ap (k.add (k.mul m t)) (
          terms-divided (k.mul n (k.add x0 x)) (λ z. k.mul (w z) (k.add z x)) x0 xs f h.1
          ∙ ap (λ v. k.mul v (divided k (λ z. k.mul (k.mul (w z) (k.add z x)) (k.add z x0)) xs f))
              (k.mul_assoc n (k.add x0 x) (distances k x0 xs))
          ∙ ap (k.mul m) (
              divided_ext k (λ z. k.mul (k.mul (w z) (k.add z x)) (k.add z x0))
                (λ z. k.mul (k.mul (w z) (k.add z x0)) (k.add z x)) xs f f
                (λ z. mul_right_comm k (w z) (k.add z x) (k.add z x0)) (λ z. refl)))
      ∙ sym (k.mul-add m t r)

  distances_ne-zero : (x : F) (xs : List F) → All (λ y. x ≢ y) xs → distances k x xs ≢ k.zero
  unfolding distances
  distances_ne-zero x [] h = k.one_ne-zero
  distances_ne-zero x (y ∷ ys) h =
      mul_ne-zero k (k.add x y) (distances k x ys) (add_ne-zero k x y h.0)
        (distances_ne-zero x ys h.1)

  -- The formula gives the value of a polynomial of at most as many coefficients as there are points.
  pub terms-evaluate :
      (cs : List F) (x0 : F) (xs : List F)
      → Apart k (x0 ∷ xs)
      → length cs ≤ length xs
      → terms k.one (λ z. k.one) x0 xs (evaluate k cs) ≡ evaluate k cs x0
  unfolding divided
  terms-evaluate cs x0 xs h l =
      let m : F = k.mul k.one (distances k x0 xs) in
      let p : F = evaluate k cs x0 in
      let rest : F = divided k (λ z. k.mul k.one (k.add z x0)) xs (evaluate k cs) in
      let zero_sum : k.add (k.mul p (k.inverse m)) rest ≡ k.zero =
        divided-evaluate k cs x0 xs h l in
      terms-divided k.one (λ z. k.one) x0 xs (evaluate k cs) h.0
      ∙ ap (k.mul m) (sym (eq_of_add-zero k (k.mul p (k.inverse m)) rest zero_sum))
      ∙ mul_left_comm k m p (k.inverse m)
      ∙ ap (k.mul p) (
          k.mul-inverse m
            (mul_ne-zero k k.one (distances k x0 xs) k.one_ne-zero (distances_ne-zero x0 xs h.0)))
      ∙ mul-one k p
