-- ===== src/Bitmap/Words.antt =====
-- slof/allocator.c: `bm_test_bit` after `bm_set_bit` and `bm_clear_bit`.
use slof.Prelude.{ℕ, zero, suc, ◌-◌, ◌*◌, ◌/◌, ◌%◌, ◌^◌, ◌≤◌, ◌<◌, ◌≡◌, arith, ◌==◌, not}
use slof.Prelude.{true, false, List, length, get_or, set, if◌then◌else◌, bit_and, bit_or}
use slof.Prelude.{
  replicate, get_or-replicate, length-set, get_or-set_self, get_or-set_ne, Bool-cases, inl, inr,
}
use slof.Prelude.Bits.{
  bit, bit-le, bit-bit_or, bit-bit_and, bit-pow, bit_and-pow, bit-complement, bit-zero,
}
use slof.Bitmap.{clear_bit, set_bit, test_bit, word_index, word_modulo, bit_mask}
use native.Mathlib.Nat.{one-le-pow, pow-le-pow_right}

set_digit : (w r j : ℕ) → bit (bit_or w (bit_mask r)) j ≡ (if r == j then 1 else bit w j)
set_digit w r j = ground (arith, bit-bit_or w (2 ^ r) j, bit-pow r j, bit-le w j)

mask-lt : (r : ℕ) → r < 64 → 2 ^ r < 2 ^ 64
mask-lt r h = omega (arith, pow-le-pow_right {n = 2} (omega arith) {i = r} {j = 63} (omega arith))

clear_digit :
    (w r j : ℕ)
    → r < 64
    → j < 64
    → bit (bit_and w (2 ^ 64 - 1 - bit_mask r)) j ≡ (if r == j then 0 else bit w j)
clear_digit w r j hr hj = ground (
  arith,
  bit-bit_and w (2 ^ 64 - 1 - 2 ^ r) j,
  bit-pow r j,
  bit-le w j,
  bit-complement 64 (2 ^ r) j (mask-lt r hr) hj,
)

nonzero_digit : (d p x : ℕ) → x ≡ d * p → d ≤ 1 → 1 ≤ p → not (x == 0) ≡ (d == 1)
nonzero_digit zero p x e h q = ground arith
nonzero_digit (suc zero) p x e h q = ground arith
nonzero_digit (suc (suc d)) p x e h q = absurd (omega arith)

test_digit : (w r : ℕ) → not (bit_and w (bit_mask r) == 0) ≡ (bit w r == 1)
test_digit w r =
    nonzero_digit (bit w r) (2 ^ r) (bit_and w (2 ^ r)) (bit_and-pow w r) (bit-le w r)
      (one-le-pow r 2 (omega arith))

-- The bit that an index names: the word at n / 64, its digit n % 64.
test_bit-digit :
    (bmw : List ℕ) (n : ℕ)
    → n < 2 ^ 31
    → test_bit bmw n ≡ (bit (get_or bmw (n / 64) 0) (n % 64) == 1)
unfolding test_bit
test_bit-digit bmw n h = ground (arith, test_digit (get_or bmw (word_index n) 0) (word_modulo n))

-- Setting a bit changes that bit alone.
pub test_bit-set_bit :
    (bmw : List ℕ) (i j : ℕ)
    → i < 2 ^ 31
    → j < 2 ^ 31
    → i / 64 < length bmw
    → test_bit (set_bit bmw i) j ≡ (if i == j then true else test_bit bmw j)
unfolding set_bit
test_bit-set_bit bmw i j hi hj l = elim (Bool-cases (i / 64 == j / 64)) [
  | inl e ↦ ground (
    arith,
    test_bit-digit bmw j hj,
    test_bit-digit (set bmw (word_index i) (set_value bmw i)) j hj,
    get_or-set_self bmw (i / 64) (set_value bmw i) 0 l,
    set_digit (get_or bmw (i / 64) 0) (i % 64) (j % 64),
  )
  | inr e ↦ ground (
    arith,
    test_bit-digit bmw j hj,
    test_bit-digit (set bmw (word_index i) (set_value bmw i)) j hj,
    get_or-set_ne bmw (i / 64) (j / 64) (set_value bmw i) 0 (ground arith),
  )
]
  where
    set_value : List ℕ → ℕ → ℕ
    set_value b n = bit_or (get_or b (word_index n) 0) (bit_mask (word_modulo n))

-- Clearing a bit changes that bit alone.
pub test_bit-clear_bit :
    (bmw : List ℕ) (i j : ℕ)
    → i < 2 ^ 31
    → j < 2 ^ 31
    → i / 64 < length bmw
    → test_bit (clear_bit bmw i) j ≡ (if i == j then false else test_bit bmw j)
unfolding clear_bit
test_bit-clear_bit bmw i j hi hj l = elim (Bool-cases (i / 64 == j / 64)) [
  | inl e ↦ ground (
    arith,
    test_bit-digit bmw j hj,
    test_bit-digit (set bmw (word_index i) clear_value) j hj,
    get_or-set_self bmw (i / 64) clear_value 0 l,
    clear_digit (get_or bmw (i / 64) 0) (i % 64) (j % 64) (omega arith) (omega arith),
  )
  | inr e ↦ ground (
    arith,
    test_bit-digit bmw j hj,
    test_bit-digit (set bmw (word_index i) clear_value) j hj,
    get_or-set_ne bmw (i / 64) (j / 64) clear_value 0 (ground arith),
  )
]
  where
    clear_value : ℕ
    clear_value = bit_and (get_or bmw (word_index i) 0) (2 ^ 64 - 1 - bit_mask (word_modulo i))

pub length-set_bit : (bmw : List ℕ) (i : ℕ) → length (set_bit bmw i) ≡ length bmw
unfolding set_bit
length-set_bit bmw i = length-set bmw (word_index i) _

pub length-clear_bit : (bmw : List ℕ) (i : ℕ) → length (clear_bit bmw i) ≡ length bmw
unfolding clear_bit
length-clear_bit bmw i = length-set bmw (word_index i) _

-- A word of all ones has every bit set.
pub test_bit-ones :
    (n j : ℕ) → j < 2 ^ 31 → j < 64 * n → test_bit (replicate n (2 ^ 64 - 1)) j ≡ true
test_bit-ones n j h l = ground (
  arith,
  test_bit-digit (replicate n (2 ^ 64 - 1)) j h,
  get_or-replicate n (2 ^ 64 - 1) 0 (j / 64) (omega arith),
  bit-complement 64 0 (j % 64) (omega arith) (omega arith),
  bit-zero (j % 64),
)
