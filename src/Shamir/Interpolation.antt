-- ===== src/Shamir/Interpolation.antt =====
-- Divided differences over a field of characteristic 2, and Lagrange's formula at zero.
use kyber_pipe.Base.{◌≤◌, ◌≡◌, ◌≢◌, refl, sym, ap, ◌∙◌, List, [], ◌∷◌, length, All, arith}
use kyber_pipe.Shamir.Field.{
  Char2Field, mul-one, mul-zero, zero-add, add_swap, add_left_comm, mul_swap, mul_right_comm,
  add-mul, add_ne-zero, zero_of_mul,
}

module _ {F : Type 0} (k : Char2Field F) where
  -- No element twice.
  abbrev pub Apart : List F → Type 0
  Apart [] = Unit
  Apart (x ∷ xs) = All (λ y. x ≢ y) xs × Apart xs

  -- The product of the distances to the points.
  unfoldable pub distances : F → List F → F
  distances x [] = k.one
  distances x (y ∷ ys) = k.mul (k.add x y) (distances x ys)

  -- The divided difference over the points, where `w` is the product over points gone before.
  unfoldable pub divided : (F → F) → List F → (F → F) → F
  unfolding distances
  divided w [] f = k.zero
  divided w (x ∷ xs) f =
      k.add (k.mul (f x) (k.inverse (k.mul (w x) (distances x xs))))
        (divided (λ z. k.mul (w z) (k.add z x)) xs f)

  pub divided_ext :
      (w w' : F → F) (xs : List F) (f f' : F → F)
      → ((z : F) → w z ≡ w' z)
      → ((z : F) → f z ≡ f' z)
      → divided w xs f ≡ divided w' xs f'
  unfolding divided
  divided_ext w w' [] f f' h g = refl
  divided_ext w w' (x ∷ xs) f f' h g =
      ap (λ v. k.add v (divided (λ z. k.mul (w z) (k.add z x)) xs f))
        (ap (λ u. k.mul u (k.inverse (k.mul (w x) (distances x xs)))) (g x)
          ∙ ap (λ u. k.mul (f' x) (k.inverse (k.mul u (distances x xs)))) (h x))
      ∙ ap (k.add (k.mul (f' x) (k.inverse (k.mul (w' x) (distances x xs))))) (
          divided_ext (λ z. k.mul (w z) (k.add z x)) (λ z. k.mul (w' z) (k.add z x)) xs f f'
            (λ z. ap (λ v. k.mul v (k.add z x)) (h z)) g)

  divided-add :
      (w : F → F) (xs : List F) (f g : F → F)
      → divided w xs (λ z. k.add (f z) (g z)) ≡ k.add (divided w xs f) (divided w xs g)
  unfolding divided
  divided-add w [] f g = sym (k.add_self k.zero)
  divided-add w (x ∷ xs) f g =
      ap (λ v. k.add v (divided (λ z. k.mul (w z) (k.add z x)) xs (λ z. k.add (f z) (g z))))
        (add-mul k (f x) (g x) (k.inverse (k.mul (w x) (distances x xs))))
      ∙ ap (k.add _) (divided-add (λ z. k.mul (w z) (k.add z x)) xs f g)
      ∙ add_swap k _ _ _ _

  divided-mul :
      (c : F) (w : F → F) (xs : List F) (f : F → F)
      → divided w xs (λ z. k.mul c (f z)) ≡ k.mul c (divided w xs f)
  unfolding divided
  divided-mul c w [] f = sym (mul-zero k c)
  divided-mul c w (x ∷ xs) f =
      ap (λ v. k.add v (divided (λ z. k.mul (w z) (k.add z x)) xs (λ z. k.mul c (f z))))
        (k.mul_assoc c (f x) (k.inverse (k.mul (w x) (distances x xs))))
      ∙ ap (k.add _) (divided-mul c (λ z. k.mul (w z) (k.add z x)) xs f)
      ∙ sym (k.mul-add c _ _)

  -- One factor of a term cancels.
  pub factor_cancels :
      (p q u d : F)
      → p ≢ k.zero
      → k.mul (k.mul p q) (k.inverse (k.mul (k.mul u p) d)) ≡ k.mul q (k.inverse (k.mul u d))
  factor_cancels p q u d h =
      ap (λ v. k.mul (k.mul p q) (k.inverse v)) (mul_right_comm k u p d ∙ k.mul_comm (k.mul u d) p)
      ∙ ap (k.mul (k.mul p q)) (k.inverse-mul p (k.mul u d))
      ∙ mul_swap k p q (k.inverse p) (k.inverse (k.mul u d))
      ∙ ap (λ v. k.mul v (k.mul q (k.inverse (k.mul u d)))) (k.mul-inverse p h)
      ∙ k.one-mul (k.mul q (k.inverse (k.mul u d)))

  divided_factor :
      (a : F) (w : F → F) (xs : List F) (f : F → F)
      → All (λ y. a ≢ y) xs
      → divided (λ z. k.mul (w z) (k.add z a)) xs (λ z. k.mul (k.add z a) (f z)) ≡ divided w xs f
  unfolding divided
  divided_factor a w [] f h = refl
  divided_factor a w (x ∷ xs) f h =
      ap
        (λ v. k.add v (
          divided (λ z. k.mul (k.mul (w z) (k.add z a)) (k.add z x)) xs
            (λ z. k.mul (k.add z a) (f z))))
        (factor_cancels (k.add x a) (f x) (w x) (distances x xs)
          (add_ne-zero k x a (λ e. h.0 (sym e))))
      ∙ ap (k.add (k.mul (f x) (k.inverse (k.mul (w x) (distances x xs))))) (
          divided_ext (λ z. k.mul (k.mul (w z) (k.add z a)) (k.add z x))
            (λ z. k.mul (k.mul (w z) (k.add z x)) (k.add z a)) xs (λ z. k.mul (k.add z a) (f z))
            (λ z. k.mul (k.add z a) (f z)) (λ z. mul_right_comm k (w z) (k.add z a) (k.add z x))
            (λ z. refl)
          ∙ divided_factor a (λ z. k.mul (w z) (k.add z x)) xs f h.1)

  drop_first :
      (a : F) (w : F → F) (xs : List F) (f : F → F)
      → All (λ y. a ≢ y) xs
      → divided w (a ∷ xs) (λ z. k.mul (k.add z a) (f z)) ≡ divided w xs f
  unfolding divided
  drop_first a w xs f h =
      ap (λ v. k.add v (divided (λ z. k.mul (w z) (k.add z a)) xs (λ z. k.mul (k.add z a) (f z))))
        (ap (λ v. k.mul (k.mul v (f a)) (k.inverse (k.mul (w a) (distances a xs)))) (k.add_self a)
          ∙ ap (λ v. k.mul v (k.inverse (k.mul (w a) (distances a xs)))) (k.zero-mul (f a))
          ∙ k.zero-mul (k.inverse (k.mul (w a) (distances a xs))))
      ∙ zero-add k _
      ∙ divided_factor a w xs f h

  swap_first :
      (a b : F) (w : F → F) (xs : List F) (f : F → F)
      → divided w (a ∷ b ∷ xs) f ≡ divided w (b ∷ a ∷ xs) f
  unfolding divided distances
  swap_first a b w xs f =
      let rest = divided (λ z. k.mul (k.mul (w z) (k.add z b)) (k.add z a)) xs f in
      let term : F → F → F → F =
        λ u v d. k.mul (f u) (k.inverse (k.mul (k.mul (w u) (k.add u v)) d)) in
      ap
        (λ r.
          k.add (k.mul (f a) (k.inverse (k.mul (w a) (distances a (b ∷ xs)))))
            (k.add (term b a (distances b xs)) r))
        (divided_ext (λ z. k.mul (k.mul (w z) (k.add z a)) (k.add z b))
          (λ z. k.mul (k.mul (w z) (k.add z b)) (k.add z a)) xs f f
          (λ z. mul_right_comm k (w z) (k.add z a) (k.add z b)) (λ z. refl))
      ∙ ap (λ v. k.add (k.mul (f a) (k.inverse v)) (k.add (term b a (distances b xs)) rest))
          (sym (k.mul_assoc (w a) (k.add a b) (distances a xs)))
      ∙ add_left_comm k (term a b (distances a xs)) (term b a (distances b xs)) rest
      ∙ ap (λ v. k.add (k.mul (f b) (k.inverse v)) (k.add (term a b (distances a xs)) rest))
          (k.mul_assoc (w b) (k.add b a) (distances b xs))

  split_constant :
      (a b z : F)
      → k.mul (k.add b a) k.one ≡ k.add (k.mul (k.add z a) k.one) (k.mul (k.add z b) k.one)
  split_constant a b z =
      ap (λ v. k.mul v k.one)
        (k.add_comm b a
          ∙ sym (zero-add k (k.add a b))
          ∙ ap (λ v. k.add v (k.add a b)) (sym (k.add_self z))
          ∙ add_swap k z z a b)
      ∙ add-mul k (k.add z a) (k.add z b) k.one

  -- The difference of the constant 1.
  abbrev of_one : List F → F
  of_one xs = divided (λ z. k.one) xs (λ z. k.one)

  two_differences :
      (a b : F) (xs : List F)
      → Apart (a ∷ b ∷ xs)
      → k.add (of_one (b ∷ xs)) (of_one (a ∷ xs)) ≡ k.zero
      → of_one (a ∷ b ∷ xs) ≡ k.zero
  two_differences a b xs h e =
      zero_of_mul k (k.add b a) (of_one (a ∷ b ∷ xs)) (add_ne-zero k b a (λ e. h.0.0 (sym e))) (
        sym (divided-mul (k.add b a) (λ z. k.one) (a ∷ b ∷ xs) (λ z. k.one))
        ∙ divided_ext (λ z. k.one) (λ z. k.one) (a ∷ b ∷ xs) (λ z. k.mul (k.add b a) k.one)
            (λ z. k.add (k.mul (k.add z a) k.one) (k.mul (k.add z b) k.one)) (λ z. refl)
            (split_constant a b)
        ∙ divided-add (λ z. k.one) (a ∷ b ∷ xs) (λ z. k.mul (k.add z a) k.one)
            (λ z. k.mul (k.add z b) k.one)
        ∙ ap (λ v. k.add v (divided (λ z. k.one) (a ∷ b ∷ xs) (λ z. k.mul (k.add z b) k.one)))
            (drop_first a (λ z. k.one) (b ∷ xs) (λ z. k.one) h.0)
        ∙ ap (k.add (of_one (b ∷ xs))) (
            swap_first a b (λ z. k.one) xs (λ z. k.mul (k.add z b) k.one)
            ∙ drop_first b (λ z. k.one) (a ∷ xs) (λ z. k.one) ((λ e. h.0.0 (sym e)), h.1.0))
        ∙ e)

  -- Over two points or more it is zero.
  divided_one : (a b : F) (xs : List F) → Apart (a ∷ b ∷ xs) → of_one (a ∷ b ∷ xs) ≡ k.zero
  unfolding divided distances
  divided_one a b [] h = two_differences a b [] h (k.add_self (of_one (a ∷ [])))
  divided_one a b (c ∷ xs) h = two_differences a b (c ∷ xs) h (
      ap (λ v. k.add v (of_one (a ∷ c ∷ xs))) (divided_one b c xs h.1)
      ∙ ap (k.add k.zero) (divided_one a c xs (h.0.1, h.1.1))
      ∙ k.add_self k.zero)

  -- A polynomial by its coefficients, from the constant one up.
  unfoldable pub evaluate : List F → F → F
  evaluate [] x = k.zero
  evaluate (c ∷ cs) x = k.add (k.mul (evaluate cs x) x) c

  divided_zero : (w : F → F) (xs : List F) → divided w xs (λ z. k.zero) ≡ k.zero
  divided_zero w xs =
      divided_ext w w xs (λ z. k.zero) (λ z. k.mul k.zero k.zero) (λ z. refl)
        (λ z. sym (k.zero-mul k.zero))
      ∙ divided-mul k.zero w xs (λ z. k.zero)
      ∙ k.zero-mul (divided w xs (λ z. k.zero))

  -- `z * f z` is `(z - a) * f z` and `a * f z`.
  split_factor :
      (a : F) (f : F → F) (z : F) → k.mul (f z) z ≡ k.add (k.mul (k.add z a) (f z)) (k.mul a (f z))
  split_factor a f z =
      k.mul_comm (f z) z
      ∙ ap (λ v. k.mul v (f z))
          (sym (k.add-zero z) ∙ ap (k.add z) (sym (k.add_self a)) ∙ sym (k.add_assoc z a a))
      ∙ add-mul k (k.add z a) a (f z)

  -- The difference of a polynomial of fewer coefficients than there are points, less one, is zero.
  pub divided-evaluate :
      (cs : List F) (a : F) (xs : List F)
      → Apart (a ∷ xs)
      → length cs ≤ length xs
      → divided (λ z. k.one) (a ∷ xs) (evaluate cs) ≡ k.zero
  unfolding evaluate
  divided-evaluate [] a xs h l = divided_zero (λ z. k.one) (a ∷ xs)
  divided-evaluate (c ∷ cs) a [] h l = absurd (omega arith)
  divided-evaluate (c ∷ cs) a (b ∷ xs) h l =
      let w : F → F = λ z. k.one in
      let s : List F = a ∷ b ∷ xs in
      divided-add w s (λ z. k.mul (evaluate cs z) z) (λ z. c)
      ∙ ap (λ v. k.add v (divided w s (λ z. c)))
          (divided_ext w w s (λ z. k.mul (evaluate cs z) z)
              (λ z. k.add (k.mul (k.add z a) (evaluate cs z)) (k.mul a (evaluate cs z))) (λ z. refl)
              (split_factor a (evaluate cs))
            ∙ divided-add w s (λ z. k.mul (k.add z a) (evaluate cs z))
                (λ z. k.mul a (evaluate cs z))
            ∙ ap (λ v. k.add v (divided w s (λ z. k.mul a (evaluate cs z))))
                (drop_first a w (b ∷ xs) (evaluate cs) h.0
                  ∙ divided-evaluate cs b xs h.1 (omega arith))
            ∙ ap (k.add k.zero) (
                divided-mul a w s (evaluate cs)
                ∙ ap (k.mul a) (divided-evaluate cs a (b ∷ xs) h (omega arith))
                ∙ mul-zero k a)
            ∙ k.add_self k.zero)
      ∙ ap (k.add k.zero) (
          divided_ext w w s (λ z. c) (λ z. k.mul c k.one) (λ z. refl) (λ z. sym (mul-one k c))
          ∙ divided-mul c w s (λ z. k.one)
          ∙ ap (k.mul c) (divided_one a b xs h)
          ∙ mul-zero k c)
      ∙ k.add_self k.zero
