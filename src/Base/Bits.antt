-- ===== src/Base/Bits.antt =====
-- The exclusive or of natural numbers, `^` of the unsigned integers: its laws, digit by digit.
use Prim.Native.Nat.{
  ℕ, zero, suc, ◌+◌, ◌*◌, ◌/◌, ◌%◌, ◌^◌, ◌≤◌, ◌<◌, bit_xor, digits, differ, bit_xor-bitwise,
}
use mathlib.Core.Path.{◌≡◌, refl, sym, ap, ◌∙◌}
use native.Mathlib.Omega.{arith}

abbrev xor_digits : ℕ → ℕ → ℕ → ℕ
xor_digits n a b = digits (λ b. b) differ n a b

xor_digits_zero : (n b : ℕ) → xor_digits n 0 b ≡ b
xor_digits_zero zero b = refl
xor_digits_zero (suc n) b = refl

-- Any fuel from the first number on gives the same digits.
xor_digits_enough : (a b n m : ℕ) → a ≤ n → a ≤ m → xor_digits n a b ≡ xor_digits m a b
xor_digits_enough zero b n m p q = xor_digits_zero n b ∙ sym (xor_digits_zero m b)
xor_digits_enough (suc a) b zero m p q = absurd (omega arith)
xor_digits_enough (suc a) b (suc n) zero p q = absurd (omega arith)
xor_digits_enough (suc a) b (suc n) (suc m) p q =
    ap (λ rest. rest * 2 + differ (suc a % 2) (b % 2))
      (xor_digits_enough (suc a / 2) (b / 2) n m (omega arith) (omega arith))

pub zero-bit_xor : (b : ℕ) → bit_xor 0 b ≡ b
zero-bit_xor b = bit_xor-bitwise 0 b

differ_zero : (b : ℕ) → differ 0 b ≡ b
differ_zero b = refl

-- The lowest digit, and the rest.
pub bit_xor_step : (a b : ℕ) → bit_xor a b ≡ bit_xor (a / 2) (b / 2) * 2 + differ (a % 2) (b % 2)
bit_xor_step zero b =
    let low : differ 0 (b % 2) ≡ b % 2 = differ_zero (b % 2) in
    let high : bit_xor 0 (b / 2) ≡ b / 2 = zero-bit_xor (b / 2) in
    zero-bit_xor b ∙ rw (low, high) (omega arith)
bit_xor_step (suc a) b =
    bit_xor-bitwise (suc a) b
    ∙ ap (λ rest. rest * 2 + differ (suc a % 2) (b % 2))
        (xor_digits_enough (suc a / 2) (b / 2) a (suc a / 2) (omega arith) (omega arith)
          ∙ sym (bit_xor-bitwise (suc a / 2) (b / 2)))

differ_comm : (x y : ℕ) → differ x y ≡ differ y x
differ_comm zero zero = refl
differ_comm zero (suc y) = refl
differ_comm (suc x) zero = refl
differ_comm (suc x) (suc y) = differ_comm x y

differ_self : (x : ℕ) → differ x x ≡ 0
differ_self zero = refl
differ_self (suc x) = differ_self x

differ_lt : (x y : ℕ) → x < 2 → y < 2 → differ x y < 2
differ_lt zero y p q = q
differ_lt (suc x) zero p q = p
differ_lt (suc x) (suc y) p q = omega (arith, differ_small x y (omega arith) (omega arith))
  where
    differ_small : (x y : ℕ) → x < 1 → y < 1 → differ x y < 1
    differ_small zero y p q = q
    differ_small (suc x) y p q = absurd (omega arith)

differ_assoc : (x y z : ℕ) → x < 2 → y < 2 → z < 2 → differ (differ x y) z ≡ differ x (differ y z)
differ_assoc zero y z p q r = refl
differ_assoc (suc zero) zero z p q r = refl
differ_assoc (suc zero) (suc zero) zero p q r = refl
differ_assoc (suc zero) (suc zero) (suc zero) p q r = refl
differ_assoc (suc zero) (suc zero) (suc (suc z)) p q r = absurd (omega arith)
differ_assoc (suc zero) (suc (suc y)) z p q r = absurd (omega arith)
differ_assoc (suc (suc x)) y z p q r = absurd (omega arith)

-- Two numbers with the same lowest digit and the same rest.
by_digits : (x y : ℕ) → x / 2 ≡ y / 2 → x % 2 ≡ y % 2 → x ≡ y
by_digits x y h k = omega arith

digit_lt : (a b : ℕ) → differ (a % 2) (b % 2) < 2
digit_lt a b = differ_lt (a % 2) (b % 2) (omega arith) (omega arith)

pub half-bit_xor : (a b : ℕ) → bit_xor a b / 2 ≡ bit_xor (a / 2) (b / 2)
half-bit_xor a b = omega (arith, bit_xor_step a b, digit_lt a b)

pub low-bit_xor : (a b : ℕ) → bit_xor a b % 2 ≡ differ (a % 2) (b % 2)
low-bit_xor a b = omega (arith, bit_xor_step a b, digit_lt a b)

comm_fuel : (n a b : ℕ) → a ≤ n → b ≤ n → bit_xor a b ≡ bit_xor b a
comm_fuel zero zero zero p q = refl
comm_fuel zero (suc a) b p q = absurd (omega arith)
comm_fuel zero zero (suc b) p q = absurd (omega arith)
comm_fuel (suc n) a b p q =
    by_digits (bit_xor a b) (bit_xor b a)
      (half-bit_xor a b
        ∙ comm_fuel n (a / 2) (b / 2) (omega arith) (omega arith)
        ∙ sym (half-bit_xor b a))
      (low-bit_xor a b ∙ differ_comm (a % 2) (b % 2) ∙ sym (low-bit_xor b a))

pub bit_xor_comm : (a b : ℕ) → bit_xor a b ≡ bit_xor b a
bit_xor_comm a b = comm_fuel (a + b) a b (omega arith) (omega arith)

self_fuel : (n a : ℕ) → a ≤ n → bit_xor a a ≡ 0
self_fuel zero zero p = refl
self_fuel zero (suc a) p = absurd (omega arith)
self_fuel (suc n) a p =
    by_digits (bit_xor a a) 0 (half-bit_xor a a ∙ self_fuel n (a / 2) (omega arith))
      (low-bit_xor a a ∙ differ_self (a % 2))

pub bit_xor_self : (a : ℕ) → bit_xor a a ≡ 0
bit_xor_self a = self_fuel a a (omega arith)

assoc_fuel :
    (n a b c : ℕ) → a ≤ n → b ≤ n → c ≤ n → bit_xor (bit_xor a b) c ≡ bit_xor a (bit_xor b c)
assoc_fuel zero zero zero zero p q r = refl
assoc_fuel zero (suc a) b c p q r = absurd (omega arith)
assoc_fuel zero zero (suc b) c p q r = absurd (omega arith)
assoc_fuel zero zero zero (suc c) p q r = absurd (omega arith)
assoc_fuel (suc n) a b c p q r =
    by_digits (bit_xor (bit_xor a b) c) (bit_xor a (bit_xor b c))
      (half-bit_xor (bit_xor a b) c
        ∙ ap (λ x. bit_xor x (c / 2)) (half-bit_xor a b)
        ∙ assoc_fuel n (a / 2) (b / 2) (c / 2) (omega arith) (omega arith) (omega arith)
        ∙ sym (half-bit_xor a (bit_xor b c) ∙ ap (bit_xor (a / 2)) (half-bit_xor b c)))
      (low-bit_xor (bit_xor a b) c
        ∙ ap (λ x. differ x (c % 2)) (low-bit_xor a b)
        ∙ differ_assoc (a % 2) (b % 2) (c % 2) (omega arith) (omega arith) (omega arith)
        ∙ sym (low-bit_xor a (bit_xor b c) ∙ ap (differ (a % 2)) (low-bit_xor b c)))

pub bit_xor_assoc : (a b c : ℕ) → bit_xor (bit_xor a b) c ≡ bit_xor a (bit_xor b c)
bit_xor_assoc a b c = assoc_fuel (a + b + c) a b c (omega arith) (omega arith) (omega arith)

-- The exclusive or of two numbers of `w` digits has `w`.
pub bit_xor_lt : (w a b : ℕ) → a < 2 ^ w → b < 2 ^ w → bit_xor a b < 2 ^ w
bit_xor_lt zero zero zero p q = omega arith
bit_xor_lt zero zero (suc b) p q = absurd (omega arith)
bit_xor_lt zero (suc a) b p q = absurd (omega arith)
bit_xor_lt (suc w) a b p q =
    let h : bit_xor (a / 2) (b / 2) < 2 ^ w =
      bit_xor_lt w (a / 2) (b / 2) (omega arith) (omega arith) in
    omega (arith, bit_xor_step a b, digit_lt a b, h)

-- Two pairs of terms, the inner two swapped.
pub bit_xor_swap :
    (a b c d : ℕ) → bit_xor (bit_xor a b) (bit_xor c d) ≡ bit_xor (bit_xor a c) (bit_xor b d)
bit_xor_swap a b c d =
    bit_xor_assoc a b (bit_xor c d)
    ∙ ap (bit_xor a)
        (sym (bit_xor_assoc b c d) ∙ ap (λ x. bit_xor x d) (bit_xor_comm b c) ∙ bit_xor_assoc c b d)
    ∙ sym (bit_xor_assoc a c (bit_xor b d))

pub double-bit_xor : (a b : ℕ) → bit_xor a b * 2 ≡ bit_xor (a * 2) (b * 2)
double-bit_xor a b =
    let e : a * 2 / 2 ≡ a = omega arith in
    let f : b * 2 / 2 ≡ b = omega arith in
    let g : a * 2 % 2 ≡ 0 = omega arith in
    let h : b * 2 % 2 ≡ 0 = omega arith in
    sym (bit_xor_step (a * 2) (b * 2) ∙ rw (e, f, g, h) (omega arith))

-- The digit 7 and what is above it.
pub high-bit_xor : (a b : ℕ) → bit_xor a b / 128 ≡ bit_xor (a / 128) (b / 128)
high-bit_xor a b =
    let e : a / 2 / 2 / 2 / 2 / 2 / 2 / 2 ≡ a / 128 = omega arith in
    let f : b / 2 / 2 / 2 / 2 / 2 / 2 / 2 ≡ b / 128 = omega arith in
    rw (← e, ← f)
      (omega (
        arith,
        half-bit_xor a b,
        half-bit_xor (a / 2) (b / 2),
        half-bit_xor (a / 2 / 2) (b / 2 / 2),
        half-bit_xor (a / 2 / 2 / 2) (b / 2 / 2 / 2),
        half-bit_xor (a / 2 / 2 / 2 / 2) (b / 2 / 2 / 2 / 2),
        half-bit_xor (a / 2 / 2 / 2 / 2 / 2) (b / 2 / 2 / 2 / 2 / 2),
        half-bit_xor (a / 2 / 2 / 2 / 2 / 2 / 2) (b / 2 / 2 / 2 / 2 / 2 / 2),
      ))
