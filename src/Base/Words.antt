-- ===== src/Base/Words.antt =====
-- Machine words: wrap-around of u32 and u64, and their big-endian bytes.
use Prim.Native.Nat.{ℕ, ◌+◌, ◌-◌, ◌*◌, ◌/◌, ◌%◌, ◌^◌, ◌<◌, min}
use mathlib.Core.Path.{◌≡◌, refl}
use mathlib.Core.List.{[], ◌∷◌, ◌++◌}
use native.Mathlib.Omega.{arith}
use kyber_pipe.Base.Lists.{length, take, drop}
use kyber_pipe.Base.ByteStrings.{Bytes, IsBytes}

abbrev pub u32_max : ℕ
u32_max = 2 ^ 32 - 1

abbrev pub u64_max : ℕ
u64_max = 2 ^ 64 - 1

-- `as u32`, and the wrapping arithmetic of u64 and usize.
abbrev pub wrap32 : ℕ → ℕ
wrap32 n = n % 2 ^ 32

abbrev pub wrap64 : ℕ → ℕ
wrap64 n = n % 2 ^ 64

-- `saturating_add` of u32 and u64.
abbrev pub saturating_add32 : ℕ → ℕ → ℕ
saturating_add32 a b = min (a + b) u32_max

abbrev pub saturating_add64 : ℕ → ℕ → ℕ
saturating_add64 a b = min (a + b) u64_max

-- `u32::to_be_bytes` and `u32::from_be_bytes`.
unfoldable pub to_be_bytes32 : ℕ → Bytes
to_be_bytes32 n = n / 2 ^ 24 % 256 ∷ n / 2 ^ 16 % 256 ∷ n / 2 ^ 8 % 256 ∷ n % 256 ∷ []

unfoldable pub from_be_bytes : Bytes → ℕ → ℕ
from_be_bytes [] acc = acc
from_be_bytes (b ∷ bs) acc = from_be_bytes bs (acc * 256 + b)

-- `u64::to_be_bytes`.
unfoldable pub to_be_bytes64 : ℕ → Bytes
to_be_bytes64 n =
    n / 2 ^ 56 % 256
    ∷ n / 2 ^ 48 % 256
    ∷ n / 2 ^ 40 % 256
    ∷ n / 2 ^ 32 % 256
    ∷ n / 2 ^ 24 % 256
    ∷ n / 2 ^ 16 % 256
    ∷ n / 2 ^ 8 % 256
    ∷ n % 256
    ∷ []

pub from_be_bytes-to_be_bytes32 : (n : ℕ) → n < 2 ^ 32 → from_be_bytes (to_be_bytes32 n) 0 ≡ n
unfolding to_be_bytes32 from_be_bytes
from_be_bytes-to_be_bytes32 n h = omega arith

pub from_be_bytes-to_be_bytes64 : (n : ℕ) → n < 2 ^ 64 → from_be_bytes (to_be_bytes64 n) 0 ≡ n
unfolding to_be_bytes64 from_be_bytes
from_be_bytes-to_be_bytes64 n h = omega arith

pub length-to_be_bytes32 : (n : ℕ) → length (to_be_bytes32 n) ≡ 4
unfolding to_be_bytes32
length-to_be_bytes32 n = refl

to_be_bytes32-IsBytes : (n : ℕ) → IsBytes (to_be_bytes32 n)
unfolding to_be_bytes32
to_be_bytes32-IsBytes n = omega arith

-- A four-byte header in front of the rest.
pub take-to_be_bytes32 : (n : ℕ) (rest : Bytes) → take 4 (to_be_bytes32 n ++ rest) ≡ to_be_bytes32 n
unfolding to_be_bytes32
take-to_be_bytes32 n rest = refl

pub drop-to_be_bytes32 : (n : ℕ) (rest : Bytes) → drop 4 (to_be_bytes32 n ++ rest) ≡ rest
unfolding to_be_bytes32
drop-to_be_bytes32 n rest = refl
