-- ===== src/Prelude/Bits.antt =====
-- Single bits of a word, and what `|`, `&` and `~` do to them, at every position.
use Prim.Native.Nat.{ℕ, zero, suc, ◌+◌, ◌-◌, ◌*◌, ◌/◌, ◌%◌, ◌^◌, ◌≤◌, ◌<◌, min, max}
use Prim.Native.Nat.{bit_and, bit_or, digits, bit_and-bitwise, bit_or-bitwise}
use mathlib.Core.Path.{◌≡◌, refl, ap}
use native.Mathlib.Nat.{pow-suc, one-le-pow}
use native.Mathlib.Omega.{arith}
use slof.Prelude.Tests.{◌==◌, if◌then◌else◌}

-- The digit recursion behind the native operations does not depend on its fuel.
module _ (z : ℕ → ℕ) (f : ℕ → ℕ → ℕ) where
  digits-fuel : (k l x y : ℕ) → x ≤ k → x ≤ l → digits z f k x y ≡ digits z f l x y
  digits-fuel zero zero x y p q = refl
  digits-fuel zero (suc l) zero y p q = refl
  digits-fuel zero (suc l) (suc x) y p q = absurd (omega arith)
  digits-fuel (suc k) zero zero y p q = refl
  digits-fuel (suc k) zero (suc x) y p q = absurd (omega arith)
  digits-fuel (suc k) (suc l) zero y p q = refl
  digits-fuel (suc k) (suc l) (suc x) y p q =
      omega (arith, digits-fuel k l (suc x / 2) (y / 2) (omega arith) (omega arith))

pub bit_and_digit : (x y : ℕ) → bit_and x y ≡ 2 * bit_and (x / 2) (y / 2) + min (x % 2) (y % 2)
bit_and_digit zero y = omega (arith, bit_and-bitwise 0 y, bit_and-bitwise 0 (y / 2))
bit_and_digit (suc x) y = omega (
  arith,
  bit_and-bitwise (suc x) y,
  bit_and-bitwise (suc x / 2) (y / 2),
  digits-fuel (λ b. zero) min x (suc x / 2) (suc x / 2) (y / 2) (omega arith) (omega arith),
)

pub bit_or_digit : (x y : ℕ) → bit_or x y ≡ 2 * bit_or (x / 2) (y / 2) + max (x % 2) (y % 2)
bit_or_digit zero y = omega (arith, bit_or-bitwise 0 y, bit_or-bitwise 0 (y / 2))
bit_or_digit (suc x) y = omega (
  arith,
  bit_or-bitwise (suc x) y,
  bit_or-bitwise (suc x / 2) (y / 2),
  digits-fuel (λ b. b) max x (suc x / 2) (suc x / 2) (y / 2) (omega arith) (omega arith),
)

-- The digit of weight 2 ^ j, 0 or 1.
pub bit : ℕ → ℕ → ℕ
bit w zero = w % 2
bit w (suc j) = bit (w / 2) j

pub bit-le : (w j : ℕ) → bit w j ≤ 1
unfolding bit
bit-le w zero = omega arith
bit-le w (suc j) = bit-le (w / 2) j

pub bit-zero : (j : ℕ) → bit 0 j ≡ 0
unfolding bit
bit-zero zero = refl
bit-zero (suc j) = bit-zero j

pub bit-bit_or : (x y j : ℕ) → bit (bit_or x y) j ≡ max (bit x j) (bit y j)
unfolding bit
bit-bit_or x y zero = omega (arith, bit_or_digit x y)
bit-bit_or x y (suc j) = rw half (bit-bit_or (x / 2) (y / 2) j)
  where
    half : bit_or x y / 2 ≡ bit_or (x / 2) (y / 2)
    half = omega (arith, bit_or_digit x y)

pub bit-bit_and : (x y j : ℕ) → bit (bit_and x y) j ≡ min (bit x j) (bit y j)
unfolding bit
bit-bit_and x y zero = omega (arith, bit_and_digit x y)
bit-bit_and x y (suc j) = rw half (bit-bit_and (x / 2) (y / 2) j)
  where
    half : bit_and x y / 2 ≡ bit_and (x / 2) (y / 2)
    half = omega (arith, bit_and_digit x y)

pub bit-pow : (k j : ℕ) → bit (2 ^ k) j ≡ (if k == j then 1 else 0)
unfolding bit
bit-pow zero zero = refl
bit-pow zero (suc j) = ground (arith, bit-zero j)
bit-pow (suc k) zero = ground (arith, pow-suc 2 k)
bit-pow (suc k) (suc j) = rw half (ground (arith, bit-pow k j))
  where
    half : 2 ^ suc k / 2 ≡ 2 ^ k
    half = omega (arith, pow-suc 2 k)

bit_and-zero_fuel : (n x : ℕ) → x ≤ n → bit_and x 0 ≡ 0
bit_and-zero_fuel n zero h = refl
bit_and-zero_fuel zero (suc x) h = absurd (omega arith)
bit_and-zero_fuel (suc n) (suc x) h =
    omega (arith, bit_and_digit (suc x) 0, bit_and-zero_fuel n (suc x / 2) (omega arith))

pub bit_and-pow : (w k : ℕ) → bit_and w (2 ^ k) ≡ bit w k * 2 ^ k
unfolding bit
bit_and-pow w zero =
    omega (arith, bit_and_digit w 1, bit_and-zero_fuel (w / 2) (w / 2) (omega arith))
bit_and-pow w (suc k) = ground (
  arith,
  bit_and_digit w (2 ^ suc k),
  pow-suc 2 k,
  half,
  bit_and-pow (w / 2) k,
  ap (λ (t : ℕ). bit (w / 2) k * t) (pow-suc 2 k),
)
  where
    half : bit_and (w / 2) (2 ^ suc k / 2) ≡ bit_and (w / 2) (2 ^ k)
    half = ap (bit_and (w / 2)) (omega (arith, pow-suc 2 k))

-- `~x` in a word of `n` bits.
pub bit-complement : (n x j : ℕ) → x < 2 ^ n → j < n → bit (2 ^ n - 1 - x) j ≡ 1 - bit x j
unfolding bit
bit-complement zero x j h l = absurd (omega arith)
bit-complement (suc n) x zero h l = omega (arith, pow-suc 2 n, one-le-pow n 2)
bit-complement (suc n) x (suc j) h l =
    rw half (bit-complement n (x / 2) j (omega (arith, pow-suc 2 n)) (omega arith))
  where
    half : (2 ^ suc n - 1 - x) / 2 ≡ 2 ^ n - 1 - x / 2
    half = omega (arith, pow-suc 2 n, one-le-pow n 2)
