-- ===== src/Shamir/Gf256/Laws.antt =====
-- The laws of the field, from the tables.
use kyber_pipe.Base.{
  ℕ, zero, suc, ◌+◌, ◌-◌, ◌*◌, ◌/◌, ◌<◌, ◌≡◌, refl, sym, ap, ◌∙◌, ◌⊎◌, inl, inr, false, leb, ltb,
  ◌==◌, if◌then◌else◌, arith, ltb→lt, ltb→le, Bool-cases,
}
use Prim.Native.Nat.{bit_xor}
use kyber_pipe.Base.Bits.{bit_xor_lt, zero-bit_xor, bit_xor_swap, double-bit_xor, high-bit_xor}
use kyber_pipe.Shamir.Gf256.{entry, gf256_exp, mul, inv}
use kyber_pipe.Shamir.Gf256.Tables.{
  times3, log, exp, power_last, log-exp, exp_byte, exp-log, times3_zero, times3_below,
}

-- The sum of two logarithms, as `mul` reduces it.
abbrev wrap : ℕ → ℕ
wrap s = if leb 255 s then s - 255 else s

-- Zero, or a power of 3.
abbrev IsByteCase : ℕ → Type 0
IsByteCase a = (a ≡ 0) ⊎ ((i : ℕ) × (i < 255) × (a ≡ exp i))

cases-IsByteCase : (a : ℕ) → a < 256 → IsByteCase a
cases-IsByteCase zero h = inl refl
cases-IsByteCase (suc a) h = let (e, l) = exp-log a h in inr (log (suc a), l, sym e)

pub zero-mul : (b : ℕ) → mul 0 b ≡ 0
unfolding mul
zero-mul b = refl

pub mul_comm : (a b : ℕ) → mul a b ≡ mul b a
unfolding mul
mul_comm a b = ground arith

pub mul-zero : (a : ℕ) → mul a 0 ≡ 0
mul-zero a = mul_comm a 0 ∙ zero-mul a

not_zero : (a : ℕ) → 0 < a → (a == 0) ≡ false
not_zero a p = ground arith

mul_powers : (a b : ℕ) → 0 < a → 0 < b → mul a b ≡ exp (wrap (log a + log b))
unfolding mul
mul_powers a b p q = rw (not_zero a p, not_zero b q) refl

mul-exp : (i j : ℕ) → i < 255 → j < 255 → mul (exp i) (exp j) ≡ exp (wrap (i + j))
mul-exp i j h k =
    mul_powers (exp i) (exp j) (exp_byte i h).0 (exp_byte j k).0
    ∙ rw (log-exp i h, log-exp j k) refl

wrap_lt : (i j : ℕ) → i < 255 → j < 255 → wrap (i + j) < 255
wrap_lt i j h k = ground arith

wrap_below : (s : ℕ) → s < 255 → s ≡ wrap s
wrap_below s h = ground arith

wrap_small : (j : ℕ) → j < 255 → wrap (0 + j) ≡ j
wrap_small j h = ground arith

wrap_assoc :
    (i j k : ℕ) → i < 255 → j < 255 → k < 255 → wrap (wrap (i + j) + k) ≡ wrap (i + wrap (j + k))
wrap_assoc i j k p q r = ground arith

pub mul_lt : (a b : ℕ) → a < 256 → b < 256 → mul a b < 256
mul_lt a b p q = elim (cases-IsByteCase a p) [
  | inl z ↦ rw (z, zero-mul b) (omega arith)
  | inr (i, l, e) ↦ elim (cases-IsByteCase b q) [
    | inl z ↦ rw (z, mul-zero a) (omega arith)
    | inr (j, m, f) ↦ rw (e, f, mul-exp i j l m) (exp_byte (wrap (i + j)) (wrap_lt i j l m)).1
  ]
]

pub mul_assoc : (a b c : ℕ) → a < 256 → b < 256 → c < 256 → mul (mul a b) c ≡ mul a (mul b c)
mul_assoc a b c p q r = elim (cases-IsByteCase a p) [
  | inl z ↦ rw (z, zero-mul b, zero-mul c, zero-mul (mul b c)) refl
  | inr (i, l, e) ↦ elim (cases-IsByteCase b q) [
    | inl z ↦ rw (z, mul-zero a, zero-mul c, mul-zero a) refl
    | inr (j, m, f) ↦ elim (cases-IsByteCase c r) [
      | inl z ↦ rw (z, mul-zero (mul a b), mul-zero b, mul-zero a) refl
      | inr (k, n, g) ↦
          rw
            (
              e,
              f,
              g,
              mul-exp i j l m,
              mul-exp j k m n,
              mul-exp (wrap (i + j)) k (wrap_lt i j l m) n,
              mul-exp i (wrap (j + k)) l (wrap_lt j k m n),
              wrap_assoc i j k l m n,
            )
            refl
    ]
  ]
]

exp_first : exp 0 ≡ 1
unfolding entry gf256_exp
exp_first = refl

exp_last : exp 255 ≡ 1
unfolding entry gf256_exp
exp_last = refl

pub one-mul : (b : ℕ) → b < 256 → mul 1 b ≡ b
one-mul b h = elim (cases-IsByteCase b h) [
  | inl z ↦ rw (z, mul-zero 1) refl
  | inr (j, m, f) ↦
      ap (λ x. mul x b) (sym exp_first)
      ∙ ap (mul (exp 0)) f
      ∙ mul-exp 0 j (omega arith) m
      ∙ ap exp (wrap_small j m)
      ∙ sym f
]

inv_powers : (a : ℕ) → 0 < a → inv a ≡ exp (255 - log a)
unfolding inv
inv_powers a p = rw (not_zero a p) refl

pub zero-inv : inv 0 ≡ 0
unfolding inv
zero-inv = refl

inv-exp : (i : ℕ) → i < 255 → inv (exp i) ≡ exp (255 - i)
inv-exp i h = inv_powers (exp i) (exp_byte i h).0 ∙ rw (log-exp i h) refl

-- The inverse of a power of 3 as a power below 255.
inv_power : (i : ℕ) → i < 255 → (j : ℕ) × (j < 255) × (inv (exp i) ≡ exp j) × (wrap (i + j) ≡ 0)
inv_power zero h = (0, omega arith, inv-exp 0 h ∙ exp_last ∙ sym exp_first, refl)
inv_power (suc i) h = (255 - suc i, omega arith, inv-exp (suc i) h, ground arith)

pub inv_lt : (a : ℕ) → a < 256 → inv a < 256
inv_lt a h = elim (cases-IsByteCase a h) [
  | inl z ↦ rw (z, zero-inv) (omega arith)
  | inr (i, l, e) ↦ let (j, m, f, w) = inv_power i l in rw (e, f) (exp_byte j m).1
]

pub mul-inv : (a : ℕ) → 0 < a → a < 256 → mul a (inv a) ≡ 1
mul-inv a p h = elim (cases-IsByteCase a h) [
  | inl z ↦ absurd (omega arith)
  | inr (i, l, e) ↦
      let (j, m, f, w) = inv_power i l in
      rw e (ap (mul (exp i)) f ∙ mul-exp i j l m ∙ ap exp w ∙ exp_first)
]

times3_power : (i : ℕ) → i < 255 → times3 (exp i) ≡ exp (wrap (suc i))
times3_power i h = elim (Bool-cases (ltb i 254)) [
  | inl below ↦
      times3_below i (ltb→lt i 254 below)
      ∙ ap exp (wrap_below (suc i) (omega (arith, ltb→lt i 254 below)))
  | inr last ↦ let e : i ≡ 254 = omega (arith, ltb→le i 254 last) in rw e power_last
]

wrap-suc : (i k : ℕ) → i < 255 → k < 255 → wrap (suc i + k) ≡ wrap (suc (wrap (i + k)))
wrap-suc i k p q = ground arith

mul_suc_power : (i b : ℕ) → suc i < 255 → b < 256 → mul (exp (suc i)) b ≡ times3 (mul (exp i) b)
mul_suc_power i b h p = elim (cases-IsByteCase b p) [
  | inl z ↦ rw (z, mul-zero (exp (suc i)), mul-zero (exp i)) (sym times3_zero)
  | inr (k, n, g) ↦
      rw
        (
          g,
          mul-exp (suc i) k h n,
          mul-exp i k (omega arith) n,
          times3_power (wrap (i + k)) (wrap_lt i k (omega arith) n),
        )
        (ap exp (wrap-suc i k (omega arith) n))
]

-- The reduction by the polynomial, 0x11b, of a digit 8.
reduction-bit_xor :
    (u v : ℕ) → u < 2 → v < 2 → bit_xor u v * 0x11b ≡ bit_xor (u * 0x11b) (v * 0x11b)
reduction-bit_xor zero v p q = rw (zero-bit_xor v, zero-bit_xor (v * 0x11b)) refl
reduction-bit_xor (suc zero) zero p q = refl
reduction-bit_xor (suc zero) (suc zero) p q = refl
reduction-bit_xor (suc zero) (suc (suc v)) p q = absurd (omega arith)
reduction-bit_xor (suc (suc u)) v p q = absurd (omega arith)

times3-bit_xor :
    (x y : ℕ) → x < 256 → y < 256 → times3 (bit_xor x y) ≡ bit_xor (times3 x) (times3 y)
unfolding times3
times3-bit_xor x y p q =
    ap (bit_xor (bit_xor x y)) (
      ap (λ w. bit_xor w (bit_xor x y / 128 * 0x11b)) (double-bit_xor x y)
      ∙ ap (bit_xor (bit_xor (x * 2) (y * 2))) (
          ap (λ w. w * 0x11b) (high-bit_xor x y)
          ∙ reduction-bit_xor (x / 128) (y / 128) (omega arith) (omega arith))
      ∙ bit_xor_swap (x * 2) (y * 2) (x / 128 * 0x11b) (y / 128 * 0x11b))
    ∙ bit_xor_swap x y (bit_xor (x * 2) (x / 128 * 0x11b)) (bit_xor (y * 2) (y / 128 * 0x11b))

mul_power_bit_xor :
    (i b c : ℕ)
    → i < 255
    → b < 256
    → c < 256
    → mul (exp i) (bit_xor b c) ≡ bit_xor (mul (exp i) b) (mul (exp i) c)
mul_power_bit_xor zero b c h p q =
    rw (exp_first, one-mul b p, one-mul c q) (one-mul (bit_xor b c) (bit_xor_lt 8 b c p q))
mul_power_bit_xor (suc i) b c h p q =
    rw
      (
        mul_suc_power i b h p,
        mul_suc_power i c h q,
        mul_suc_power i (bit_xor b c) h (bit_xor_lt 8 b c p q),
        mul_power_bit_xor i b c (omega arith) p q,
      )
      (times3-bit_xor (mul (exp i) b) (mul (exp i) c)
        (mul_lt (exp i) b (exp_byte i (omega arith)).1 p)
        (mul_lt (exp i) c (exp_byte i (omega arith)).1 q))

pub mul-bit_xor :
    (a b c : ℕ) → a < 256 → b < 256 → c < 256 → mul a (bit_xor b c) ≡ bit_xor (mul a b) (mul a c)
mul-bit_xor a b c h p q = elim (cases-IsByteCase a h) [
  | inl z ↦ rw (z, zero-mul b, zero-mul c, zero-mul (bit_xor b c)) (sym (zero-bit_xor 0))
  | inr (i, l, e) ↦ rw e (mul_power_bit_xor i b c l p q)
]

inverse_index :
    (i j i' j' s : ℕ)
    → i < 255
    → j < 255
    → i' < 255
    → j' < 255
    → s < 255
    → wrap (i + i') ≡ 0
    → wrap (j + j') ≡ 0
    → wrap (wrap (i + j) + s) ≡ 0
    → s ≡ wrap (i' + j')
inverse_index i j i' j' s p q p' q' r a b c = ground arith

-- The inverse of a product, also where a factor is zero.
pub inv-mul : (a b : ℕ) → a < 256 → b < 256 → inv (mul a b) ≡ mul (inv a) (inv b)
inv-mul a b p q = elim (cases-IsByteCase a p) [
  | inl z ↦ rw (z, zero-mul b, zero-inv, zero-mul (inv b)) refl
  | inr (i, l, e) ↦ elim (cases-IsByteCase b q) [
    | inl z ↦ rw (z, mul-zero a, zero-inv, mul-zero (inv a)) refl
    | inr (j, m, f) ↦
        let (i', l', e', w) = inv_power i l in
        let (j', m', f', w') = inv_power j m in
        let (s, n, g, w'') = inv_power (wrap (i + j)) (wrap_lt i j l m) in
        rw (e, f, mul-exp i j l m)
          (g
            ∙ ap exp (inverse_index i j i' j' s l m l' m' n w w' w'')
            ∙ sym (ap (λ x. mul x (inv (exp j))) e' ∙ ap (mul (exp i')) f' ∙ mul-exp i' j' l' m'))
  ]
]
