-- ===== src/Base/ByteStrings.antt =====
-- Byte strings as lists of numbers below 256, and their lexicographic order.
use Prim.Native.Nat.{ℕ, ◌<◌}
use mathlib.Core.Path.{◌≡◌, refl}
use mathlib.Core.Bool.{Bool, true, false, ◌||◌, ◌&&◌}
use mathlib.Core.List.{List, [], ◌∷◌}
use Prim.Native.Char.{code}
use Prim.Native.String.{String}
use native.Mathlib.Omega.{arith}
use kyber_pipe.Base.Tests.{ltb, ◌==◌}
use kyber_pipe.Base.Lists.{All}

-- A byte-string literal `b".."` of ASCII characters.
unfoldable pub ascii : String → List ℕ
ascii String.[] = []
ascii (String.◌∷◌ c s) = code c ∷ ascii s

-- `Vec<u8>`, `&[u8]` and the fixed arrays `[u8; n]`.
abbrev pub Bytes : Type 0
Bytes = List ℕ

abbrev pub IsBytes : Bytes → Type 0
IsBytes = All (λ b. b < 256)

-- `a > b` on slices of bytes.
abbrev pub bytes_gt : Bytes → Bytes → Bool
bytes_gt [] ys = false
bytes_gt (x ∷ xs) [] = true
bytes_gt (x ∷ xs) (y ∷ ys) = ltb y x || x == y && bytes_gt xs ys

-- `a == b` on slices of bytes.
abbrev pub bytes_eq : Bytes → Bytes → Bool
bytes_eq [] [] = true
bytes_eq (x ∷ xs) (y ∷ ys) = x == y && bytes_eq xs ys
bytes_eq _ _ = false

pub bytes_gt_irrefl : (xs : Bytes) → bytes_gt xs xs ≡ false
bytes_gt_irrefl [] = refl
bytes_gt_irrefl (x ∷ xs) = ground (arith, bytes_gt_irrefl xs)

pub bytes_gt_asymm : (xs ys : Bytes) → bytes_gt xs ys ≡ true → bytes_gt ys xs ≡ false
bytes_gt_asymm [] ys h = ground arith
bytes_gt_asymm (x ∷ xs) [] h = refl
bytes_gt_asymm (x ∷ xs) (y ∷ ys) h = ground (arith, bytes_gt_asymm xs ys)

pub bytes_gt_total : (xs ys : Bytes) → bytes_gt xs ys ≡ false → bytes_gt ys xs ≡ false → xs ≡ ys
bytes_gt_total [] [] h k = refl
bytes_gt_total [] (y ∷ ys) h k = ground arith
bytes_gt_total (x ∷ xs) [] h k = ground arith
bytes_gt_total (x ∷ xs) (y ∷ ys) h k = ground (arith, bytes_gt_total xs ys)

pub bytes_gt_trans :
    (xs ys zs : Bytes) → bytes_gt xs ys ≡ true → bytes_gt ys zs ≡ true → bytes_gt xs zs ≡ true
bytes_gt_trans [] ys zs h k = ground arith
bytes_gt_trans (x ∷ xs) [] zs h k = ground arith
bytes_gt_trans (x ∷ xs) (y ∷ ys) [] h k = ground arith
bytes_gt_trans (x ∷ xs) (y ∷ ys) (z ∷ zs) h k = ground (arith, bytes_gt_trans xs ys zs)

pub bytes_eq_refl : (xs : Bytes) → bytes_eq xs xs ≡ true
bytes_eq_refl [] = refl
bytes_eq_refl (x ∷ xs) = ground (arith, bytes_eq_refl xs)

pub bytes_eq_sound : (xs ys : Bytes) → bytes_eq xs ys ≡ true → xs ≡ ys
bytes_eq_sound [] [] h = refl
bytes_eq_sound [] (y ∷ ys) h = ground arith
bytes_eq_sound (x ∷ xs) [] h = ground arith
bytes_eq_sound (x ∷ xs) (y ∷ ys) h = ground (arith, bytes_eq_sound xs ys)

pub bytes_gt_neq : (xs ys : Bytes) → bytes_gt xs ys ≡ true → bytes_eq ys xs ≡ false
bytes_gt_neq [] ys h = ground arith
bytes_gt_neq (x ∷ xs) [] h = refl
bytes_gt_neq (x ∷ xs) (y ∷ ys) h = ground (arith, bytes_gt_neq xs ys)
