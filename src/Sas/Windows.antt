-- ===== src/Sas/Windows.antt =====
-- The windows of the short authentication string.
use kyber_pipe.Base.{ℕ, ◌/◌, ◌%◌, ◌^◌, ◌<◌, ◌≡◌, refl, ap, List, [], ◌∷◌, from_be_bytes, arith}
use kyber_pipe.Sas.{code_of, chars}

-- The seven 5-bit digits of the top 35 bits of a 56-bit number, the most significant first.
abbrev pub digits : ℕ → List ℕ
digits n =
    n / 2 ^ 51 % 32
    ∷ n / 2 ^ 46 % 32
    ∷ n / 2 ^ 41 % 32
    ∷ n / 2 ^ 36 % 32
    ∷ n / 2 ^ 31 % 32
    ∷ n / 2 ^ 26 % 32
    ∷ n / 2 ^ 21 % 32
    ∷ []

same_digits :
    {s t u v w x y s' t' u' v' w' x' y' : ℕ}
    → s ≡ s'
    → t ≡ t'
    → u ≡ u'
    → v ≡ v'
    → w ≡ w'
    → x ≡ x'
    → y ≡ y'
    → s ∷ t ∷ u ∷ v ∷ w ∷ x ∷ y ∷ [] ≡ s' ∷ t' ∷ u' ∷ v' ∷ w' ∷ x' ∷ y' ∷ []
same_digits p q r h i j k = rw (p, q, r, h, i, j, k) refl

-- The code of seven bytes spells the leading 35 bits of their big-endian number, five bits a letter.
pub code_of-digits :
    (a b c d e f g : ℕ)
    → a < 256
    → b < 256
    → c < 256
    → d < 256
    → e < 256
    → f < 256
    → g < 256
    → code_of (a ∷ b ∷ c ∷ d ∷ e ∷ f ∷ g ∷ [])
      ≡ chars (digits (from_be_bytes (a ∷ b ∷ c ∷ d ∷ e ∷ f ∷ g ∷ []) 0))
unfolding code_of from_be_bytes
code_of-digits a b c d e f g ha hb hc hd he hf hg = ap chars (
    same_digits (omega arith) (omega arith) (omega arith) (omega arith) (omega arith) (omega arith)
      (omega arith))
