-- ===== src/Shamir/Field.antt =====
-- Fields of characteristic 2, in which minus is plus, with `inverse zero ≡ zero`.
use kyber_pipe.Base.{◌≡◌, ◌≢◌, sym, ap, ◌∙◌}

pub record Char2Field (F : Type 0) : Type 0 where
  pub zero : F
  pub one : F
  pub add : F → F → F
  pub mul : F → F → F
  pub inverse : F → F
  pub add_comm : (a b : F) → add a b ≡ add b a
  pub add_assoc : (a b c : F) → add (add a b) c ≡ add a (add b c)
  pub add-zero : (a : F) → add a zero ≡ a
  pub add_self : (a : F) → add a a ≡ zero
  pub mul_comm : (a b : F) → mul a b ≡ mul b a
  pub mul_assoc : (a b c : F) → mul (mul a b) c ≡ mul a (mul b c)
  pub one-mul : (a : F) → mul one a ≡ a
  pub zero-mul : (a : F) → mul zero a ≡ zero
  pub mul-add : (a b c : F) → mul a (add b c) ≡ add (mul a b) (mul a c)
  pub mul-inverse : (a : F) → a ≢ zero → mul a (inverse a) ≡ one
  pub one_ne-zero : one ≢ zero
  pub inverse-mul : (a b : F) → inverse (mul a b) ≡ mul (inverse a) (inverse b)

module _ {F : Type 0} (k : Char2Field F) where
  pub mul-one : (a : F) → k.mul a k.one ≡ a
  mul-one a = k.mul_comm a k.one ∙ k.one-mul a

  pub mul-zero : (a : F) → k.mul a k.zero ≡ k.zero
  mul-zero a = k.mul_comm a k.zero ∙ k.zero-mul a

  pub zero-add : (a : F) → k.add k.zero a ≡ a
  zero-add a = k.add_comm k.zero a ∙ k.add-zero a

  pub add_swap : (a b c d : F) → k.add (k.add a b) (k.add c d) ≡ k.add (k.add a c) (k.add b d)
  add_swap a b c d =
      k.add_assoc a b (k.add c d)
      ∙ ap (k.add a)
          (sym (k.add_assoc b c d) ∙ ap (λ x. k.add x d) (k.add_comm b c) ∙ k.add_assoc c b d)
      ∙ sym (k.add_assoc a c (k.add b d))

  pub add_left_comm : (a b c : F) → k.add a (k.add b c) ≡ k.add b (k.add a c)
  add_left_comm a b c =
      sym (k.add_assoc a b c) ∙ ap (λ x. k.add x c) (k.add_comm a b) ∙ k.add_assoc b a c

  pub mul_left_comm : (a b c : F) → k.mul a (k.mul b c) ≡ k.mul b (k.mul a c)
  mul_left_comm a b c =
      sym (k.mul_assoc a b c) ∙ ap (λ x. k.mul x c) (k.mul_comm a b) ∙ k.mul_assoc b a c

  pub mul_swap : (a b c d : F) → k.mul (k.mul a b) (k.mul c d) ≡ k.mul (k.mul a c) (k.mul b d)
  mul_swap a b c d =
      k.mul_assoc a b (k.mul c d)
      ∙ ap (k.mul a) (mul_left_comm b c d)
      ∙ sym (k.mul_assoc a c (k.mul b d))

  pub mul_right_comm : (a b c : F) → k.mul (k.mul a b) c ≡ k.mul (k.mul a c) b
  mul_right_comm a b c = k.mul_assoc a b c ∙ ap (k.mul a) (k.mul_comm b c) ∙ sym (k.mul_assoc a c b)

  pub add-mul : (a b c : F) → k.mul (k.add a b) c ≡ k.add (k.mul a c) (k.mul b c)
  add-mul a b c =
      k.mul_comm (k.add a b) c
      ∙ k.mul-add c a b
      ∙ ap (k.add (k.mul c a)) (k.mul_comm c b)
      ∙ ap (λ x. k.add x (k.mul b c)) (k.mul_comm c a)

  -- Two terms whose sum is zero are equal.
  pub eq_of_add-zero : (a b : F) → k.add a b ≡ k.zero → a ≡ b
  eq_of_add-zero a b h =
      sym (k.add-zero a)
      ∙ ap (k.add a) (sym (k.add_self b))
      ∙ sym (k.add_assoc a b b)
      ∙ ap (λ x. k.add x b) h
      ∙ zero-add b

  pub add_ne-zero : (a b : F) → a ≢ b → k.add a b ≢ k.zero
  add_ne-zero a b h e = h (eq_of_add-zero a b e)

  -- A factor and its inverse cancel.
  pub cancel : (a b : F) → a ≢ k.zero → k.mul a (k.mul (k.inverse a) b) ≡ b
  cancel a b h =
      sym (k.mul_assoc a (k.inverse a) b) ∙ ap (λ x. k.mul x b) (k.mul-inverse a h) ∙ k.one-mul b

  pub zero_of_mul : (a b : F) → a ≢ k.zero → k.mul a b ≡ k.zero → b ≡ k.zero
  zero_of_mul a b h e =
      sym (cancel a b h)
      ∙ mul_left_comm a (k.inverse a) b
      ∙ ap (k.mul (k.inverse a)) e
      ∙ mul-zero (k.inverse a)

  pub mul_ne-zero : (a b : F) → a ≢ k.zero → b ≢ k.zero → k.mul a b ≢ k.zero
  mul_ne-zero a b h g e = g (zero_of_mul a b h e)
