-- ===== src/Shamir/Gf256/Tables.antt =====
-- What the tables hold: logarithms to the base 3, and the powers of 3.
use kyber_pipe.Base.{
  ℕ, zero, suc, ◌*◌, ◌/◌, ◌<◌, ◌≡◌, refl, inl, inr, ==_iff, Bool, true, ◌&&◌, ltb, ◌==◌, arith,
  ltb→lt, Bool-cases,
}
use Prim.Native.Nat.{bit_xor}
use kyber_pipe.Shamir.Gf256.{entry, gf256_log, gf256_exp}

-- A test of the numbers below a bound, by evaluation.
tested : (ℕ → Bool) → ℕ → Bool
tested p zero = true
tested p (suc bound) = tested p bound && p bound

tested_at : (p : ℕ → Bool) (bound i : ℕ) → i < bound → tested p bound ≡ true → p i ≡ true
unfolding tested
tested_at p zero i below t = absurd (omega arith)
tested_at p (suc bound) i below t = elim (Bool-cases (i == bound)) [
  | inl last ↦ let e : i ≡ bound = (==_iff i bound).0 last in rw e (ground (arith, t))
  | inr other ↦
      let h : i < bound = ground (arith, other, below) in tested_at p bound i h (ground (arith, t))
]

-- The multiple by the generator, 3.
unfoldable pub times3 : ℕ → ℕ
times3 x = bit_xor x (bit_xor (x * 2) (x / 128 * 0x11b))

abbrev pub log : ℕ → ℕ
log a = entry gf256_log a

abbrev pub exp : ℕ → ℕ
exp i = entry gf256_exp i

log-exp_table : tested (λ i. log (exp i) == i) 255 ≡ true
unfolding tested entry gf256_log gf256_exp
log-exp_table = refl

exp-log_table : tested (λ a. exp (log (suc a)) == suc a && ltb (log (suc a)) 255) 255 ≡ true
unfolding tested entry gf256_log gf256_exp
exp-log_table = refl

exp_table : tested (λ i. ltb 0 (exp i) && ltb (exp i) 256) 255 ≡ true
unfolding tested entry gf256_log gf256_exp
exp_table = refl

-- The powers of 3 in their order.
power_table : tested (λ i. times3 (exp i) == exp (suc i)) 254 ≡ true
unfolding tested entry gf256_log gf256_exp times3
power_table = refl

pub power_last : times3 (exp 254) ≡ exp 0
unfolding entry gf256_exp times3
power_last = refl

times3_table : tested (λ x. ltb (times3 x) 256) 256 ≡ true
unfolding tested times3
times3_table = refl

pub log-exp : (i : ℕ) → i < 255 → log (exp i) ≡ i
log-exp i h = (==_iff (log (exp i)) i).0 (tested_at (λ i. log (exp i) == i) 255 i h log-exp_table)

pub exp_byte : (i : ℕ) → i < 255 → (0 < exp i) × (exp i < 256)
exp_byte i h =
    let e : (ltb 0 (exp i) && ltb (exp i) 256) ≡ true =
      tested_at (λ i. ltb 0 (exp i) && ltb (exp i) 256) 255 i h exp_table in
    ground arith

pub exp-log : (a : ℕ) → suc a < 256 → (exp (log (suc a)) ≡ suc a) × (log (suc a) < 255)
exp-log a h =
    let e : (exp (log (suc a)) == suc a && ltb (log (suc a)) 255) ≡ true =
      tested_at (λ a. exp (log (suc a)) == suc a && ltb (log (suc a)) 255) 255 a (omega arith)
        exp-log_table in
    ground arith

pub times3_zero : times3 0 ≡ 0
unfolding times3
times3_zero = refl

pub times3_lt : (x : ℕ) → x < 256 → times3 x < 256
times3_lt x h = ltb→lt (times3 x) 256 (tested_at (λ x. ltb (times3 x) 256) 256 x h times3_table)

pub times3_below : (i : ℕ) → i < 254 → times3 (exp i) ≡ exp (suc i)
times3_below i h =
    (==_iff (times3 (exp i)) (exp (suc i))).0
      (tested_at (λ i. times3 (exp i) == exp (suc i)) 254 i h power_table)
