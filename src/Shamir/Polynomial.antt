-- ===== src/Shamir/Polynomial.antt =====
-- core-crypto/src/crypto/shamir.rs: the value of a polynomial, and Lagrange's interpolation.
pub mod Recovery
use kyber_pipe.Base.{ℕ, zero, suc, List, [], ◌∷◌, ◌==◌, if◌then◌else◌, Bytes}
use Prim.Native.Nat.{bit_xor}
use kyber_pipe.Shamir.Gf256.{mul, inv}

-- The loop runs from the last coefficient to the first.
unfoldable pub gf256_eval : Bytes → ℕ → ℕ
unfolding mul
gf256_eval [] x = 0
gf256_eval (c ∷ coeffs) x = bit_xor (mul (gf256_eval coeffs x) x) c

-- The inner loop: `num` and `den` for the point `i`, from the point `j` on.
unfoldable pub products : ℕ → ℕ → ℕ → ℕ → List (ℕ × ℕ) → ℕ × ℕ → ℕ × ℕ
unfolding mul
products i j x xi [] acc = acc
products i j x xi ((xj, yj) ∷ points) (num, den) =
    products i (suc j) x xi points
      (if i == j then (num, den) else (mul num (bit_xor x xj), mul den (bit_xor xi xj)))

abbrev pub term_of : ℕ → ℕ × ℕ → ℕ
term_of yi (num, den) = mul yi (mul num (inv den))

-- The outer loop, from the point `i` on.
unfoldable pub interpolate_from : ℕ → List (ℕ × ℕ) → ℕ → List (ℕ × ℕ) → ℕ → ℕ
unfolding products mul inv
interpolate_from x all i [] result = result
interpolate_from x all i ((xi, yi) ∷ points) result =
    interpolate_from x all (suc i) points
      (bit_xor result (term_of yi (products i 0 x xi all (1, 1))))

unfoldable pub gf256_lagrange_interpolate : List (ℕ × ℕ) → ℕ → ℕ
unfolding interpolate_from
gf256_lagrange_interpolate points x = interpolate_from x points 0 points 0
