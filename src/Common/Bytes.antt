-- ===== src/Common/Bytes.antt =====
-- Byte sequences: big-endian numbers, equality, and reading from the front of a stream.
use Prim.Native.Nat.{ℕ, zero, suc, ◌+◌, ◌*◌, ◌/◌, ◌%◌, ◌^◌, ◌≤◌, ◌<◌}
use mathlib.Core.Path.{◌≡◌, refl, ap}
use mathlib.Core.Bool.{Bool, true, false, ◌&&◌}
use mathlib.Core.Option.{Option, none, some}
use mathlib.Core.List.{List, [], ◌∷◌, ◌++◌}
use native.Mathlib.Omega.{arith}
use proscenium.Common.Tests.{◌==◌, ltb, if◌then◌else◌}
use proscenium.Common.Lists.{length, take, drop, length-append}

abbrev pub bytes_eq : List ℕ → List ℕ → Bool
bytes_eq [] [] = true
bytes_eq [] (y ∷ ys) = false
bytes_eq (x ∷ xs) [] = false
bytes_eq (x ∷ xs) (y ∷ ys) = (x == y) && bytes_eq xs ys

pub bytes_eq→eq : (xs ys : List ℕ) → bytes_eq xs ys ≡ true → xs ≡ ys
bytes_eq→eq [] [] e = refl
bytes_eq→eq [] (y ∷ ys) e = cc
bytes_eq→eq (x ∷ xs) [] e = cc
bytes_eq→eq (x ∷ xs) (y ∷ ys) e = ground (arith, bytes_eq→eq xs ys)

pub bytes_eq_refl : (xs : List ℕ) → bytes_eq xs xs ≡ true
bytes_eq_refl [] = refl
bytes_eq_refl (x ∷ xs) = ground (arith, bytes_eq_refl xs)

-- `u32::to_be_bytes` and `u16::to_be_bytes`.
abbrev pub u32_bytes : ℕ → List ℕ
u32_bytes n = n / 2 ^ 24 % 256 ∷ n / 2 ^ 16 % 256 ∷ n / 2 ^ 8 % 256 ∷ n % 256 ∷ []

abbrev pub u16_bytes : ℕ → List ℕ
u16_bytes n = n / 2 ^ 8 % 256 ∷ n % 256 ∷ []

-- `from_be_bytes`.
abbrev pub from_be : ℕ → List ℕ → ℕ
from_be acc [] = acc
from_be acc (b ∷ bs) = from_be (acc * 256 + b) bs

pub from_be-u32_bytes : (n : ℕ) → n < 2 ^ 32 → from_be 0 (u32_bytes n) ≡ n
from_be-u32_bytes n h = omega arith

pub from_be-u16_bytes : (n : ℕ) → n < 2 ^ 16 → from_be 0 (u16_bytes n) ≡ n
from_be-u16_bytes n h = omega arith

-- The first `n` bytes and the rest, if there are as many.
abbrev pub split_exact : ℕ → List ℕ → Option (List ℕ × List ℕ)
split_exact n s = if ltb (length s) n then none else some (take n s, drop n s)

take-length : (xs ys : List ℕ) → take (length xs) (xs ++ ys) ≡ xs
take-length [] ys = refl
take-length (x ∷ xs) ys = ap (◌∷◌ x) (take-length xs ys)

drop-length : (xs ys : List ℕ) → drop (length xs) (xs ++ ys) ≡ ys
drop-length [] ys = refl
drop-length (x ∷ xs) ys = drop-length xs ys

length-le-append : (xs ys : List ℕ) → length xs ≤ length (xs ++ ys)
length-le-append [] ys = omega arith
length-le-append (x ∷ xs) ys = omega (arith, length-le-append xs ys)

pub split_exact-append :
    (n : ℕ) (xs ys : List ℕ) → length xs ≡ n → split_exact n (xs ++ ys) ≡ some (xs, ys)
split_exact-append n xs ys e =
    rw (← e) (ground (arith, take-length xs ys, drop-length xs ys, length-le-append xs ys))

pub take-append : (n : ℕ) (xs ys : List ℕ) → length xs ≡ n → take n (xs ++ ys) ≡ xs
take-append n xs ys e = rw (← e) (take-length xs ys)

pub drop-append : (n : ℕ) (xs ys : List ℕ) → length xs ≡ n → drop n (xs ++ ys) ≡ ys
drop-append n xs ys e = rw (← e) (drop-length xs ys)

-- The `n` bytes of a number, most significant byte first.
abbrev pub be_bytes : ℕ → ℕ → List ℕ
be_bytes zero k = []
be_bytes (suc n) k = be_bytes n (k / 256) ++ (k % 256 ∷ [])

pub length-be_bytes : (n k : ℕ) → length (be_bytes n k) ≡ n
length-be_bytes zero k = refl
length-be_bytes (suc n) k =
    omega (arith, length-be_bytes n (k / 256), length-append (be_bytes n (k / 256)) (k % 256 ∷ []))

from_be-append : (acc b : ℕ) (bs : List ℕ) → from_be acc (bs ++ (b ∷ [])) ≡ from_be acc bs * 256 + b
from_be-append acc b [] = refl
from_be-append acc b (x ∷ bs) = from_be-append (acc * 256 + x) b bs

abbrev pub bound_of : ℕ → ℕ
bound_of zero = 1
bound_of (suc n) = 256 * bound_of n

pub from_be-be_bytes : (n k : ℕ) → k < bound_of n → from_be 0 (be_bytes n k) ≡ k
from_be-be_bytes zero k h = omega arith
from_be-be_bytes (suc n) k h = omega (
  arith,
  from_be-append 0 (k % 256) (be_bytes n (k / 256)),
  from_be-be_bytes n (k / 256) (omega arith),
)
