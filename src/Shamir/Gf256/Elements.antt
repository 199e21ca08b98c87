-- ===== src/Shamir/Gf256/Elements.antt =====
-- The bytes with the exclusive or and the multiplication of the tables are a field.
use kyber_pipe.Base.{ℕ, zero, suc, ◌<◌, ◌≡◌, ◌≢◌, refl, ap, subst, ◌∙◌, arith}
use Prim.Native.Nat.{bit_xor}
use native.Mathlib.Bridge.{le_prop}
use kyber_pipe.Base.Bits.{bit_xor_lt, bit_xor_comm, bit_xor_assoc, bit_xor_self, zero-bit_xor}
use kyber_pipe.Shamir.Field.{Char2Field}
use kyber_pipe.Shamir.Gf256.{mul, inv}
use kyber_pipe.Shamir.Gf256.Laws.{
  mul_lt, mul_comm, mul_assoc, one-mul, zero-mul, mul-bit_xor, mul-inv, inv_lt, inv-mul,
}

abbrev pub Byte : Type 0
Byte = (n : ℕ) × (n < 256)

-- Two bytes of one value are the same.
pub byte_eq : (a b : Byte) → a.0 ≡ b.0 → a ≡ b
byte_eq (n, p) (m, q) e =
    subst (λ (m : ℕ). (q : m < 256) → ◌≡◌ {A = Byte} (n, p) (m, q)) e
      (λ q. ap (λ (r : n < 256). (n, r)) (le_prop p q)) q

pub byte_pos : (a : Byte) → a ≢ (0, omega arith) → 0 < a.0
byte_pos (zero, p) h = absurd (h (byte_eq (zero, p) (0, omega arith) refl))
byte_pos (suc n, p) h = omega arith

pub one_not_zero : ◌≢◌ {A = ℕ} 1 0
one_not_zero e = absurd (omega arith)

unfoldable pub gf256 : Char2Field Byte
gf256 = record {
  zero = (0, omega arith);
  one = (1, omega arith);
  add = λ a b. (bit_xor a.0 b.0, bit_xor_lt 8 a.0 b.0 a.1 b.1);
  mul = λ a b. (mul a.0 b.0, mul_lt a.0 b.0 a.1 b.1);
  inverse = λ a. (inv a.0, inv_lt a.0 a.1);
  add_comm = λ a b. byte_eq _ _ (bit_xor_comm a.0 b.0);
  add_assoc = λ a b c. byte_eq _ _ (bit_xor_assoc a.0 b.0 c.0);
  add-zero = λ a. byte_eq _ _ (bit_xor_comm a.0 0 ∙ zero-bit_xor a.0);
  add_self = λ a. byte_eq _ _ (bit_xor_self a.0);
  mul_comm = λ a b. byte_eq _ _ (mul_comm a.0 b.0);
  mul_assoc = λ a b c. byte_eq _ _ (mul_assoc a.0 b.0 c.0 a.1 b.1 c.1);
  one-mul = λ a. byte_eq _ _ (one-mul a.0 a.1);
  zero-mul = λ a. byte_eq _ _ (zero-mul a.0);
  mul-add = λ a b c. byte_eq _ _ (mul-bit_xor a.0 b.0 c.0 a.1 b.1 c.1);
  mul-inverse = λ a h. byte_eq _ _ (mul-inv a.0 (byte_pos a h) a.1);
  one_ne-zero = λ e. one_not_zero (ap (λ (a : Byte). a.0) e);
  inverse-mul = λ a b. byte_eq _ _ (inv-mul a.0 b.0 a.1 b.1);
}
