-- ===== src/Bitmap/Runs.antt =====
-- slof/allocator.c: the loops that clear or set a run of bits, bit by bit and in number.
use slof.Prelude.{ℕ, zero, suc, ◌+◌, ◌-◌, ◌*◌, ◌^◌, ◌≤◌, ◌<◌, min, ◌≡◌, arith, ltb, leb}
use slof.Prelude.{true, false, ◌&&◌, List, length, replicate, if◌then◌else◌}
use slof.Bitmap.{clear_bit, set_bit, test_bit, clear_run, set_run}
use slof.Bitmap.Words.{
  test_bit-set_bit, test_bit-clear_bit, length-set_bit, length-clear_bit, test_bit-ones,
}

-- Every block from `i` on is free, for `n` blocks.
abbrev pub IsFree : List ℕ → ℕ → ℕ → Type 0
IsFree bmw i n = (j : ℕ) → i ≤ j → j < i + n → test_bit bmw j ≡ true

pub length-clear_run : (bmw : List ℕ) (left i : ℕ) → length (clear_run bmw left i) ≡ length bmw
unfolding clear_run
length-clear_run bmw zero i = omega arith
length-clear_run bmw (suc left) i =
    omega (arith, length-clear_run (clear_bit bmw i) left (i + 1), length-clear_bit bmw i)

pub length-set_run : (bmw : List ℕ) (left i : ℕ) → length (set_run bmw left i) ≡ length bmw
unfolding set_run
length-set_run bmw zero i = omega arith
length-set_run bmw (suc left) i =
    omega (arith, length-set_run (set_bit bmw i) left (i + 1), length-set_bit bmw i)

-- Clearing a run changes the bits of the run alone.
pub test_bit-clear_run :
    (bmw : List ℕ) (left i j : ℕ)
    → i + left ≤ 2 ^ 31
    → i + left ≤ 64 * length bmw
    → j < 2 ^ 31
    → test_bit (clear_run bmw left i) j
      ≡ (if leb i j && ltb j (i + left) then false else test_bit bmw j)
unfolding clear_run
test_bit-clear_run bmw zero i j h l hj = ground arith
test_bit-clear_run bmw (suc left) i j h l hj = ground (
  arith,
  test_bit-clear_run (clear_bit bmw i) left (i + 1) j,
  length-clear_bit bmw i,
  test_bit-clear_bit bmw i j,
)

-- Setting a run changes the bits of the run alone.
pub test_bit-set_run :
    (bmw : List ℕ) (left i j : ℕ)
    → i + left ≤ 2 ^ 31
    → i + left ≤ 64 * length bmw
    → j < 2 ^ 31
    → test_bit (set_run bmw left i) j
      ≡ (if leb i j && ltb j (i + left) then true else test_bit bmw j)
unfolding set_run
test_bit-set_run bmw zero i j h l hj = ground arith
test_bit-set_run bmw (suc left) i j h l hj = ground (
  arith,
  test_bit-set_run (set_bit bmw i) left (i + 1) j,
  length-set_bit bmw i,
  test_bit-set_bit bmw i j,
)

-- The number of free blocks below `n`.
unfoldable pub count : List ℕ → ℕ → ℕ
count bmw zero = 0
count bmw (suc k) = (if test_bit bmw k then 1 else 0) + count bmw k

-- A free run that is cleared below `n` leaves so many blocks fewer.
pub count-clear_run :
    (bmw : List ℕ) (left i n : ℕ)
    → i + left ≤ 2 ^ 31
    → i + left ≤ 64 * length bmw
    → n ≤ 2 ^ 31
    → IsFree bmw i left
    → count (clear_run bmw left i) n + (min n (i + left) - min n i) ≡ count bmw n
unfolding count
count-clear_run bmw left i zero h l hn free = omega arith
count-clear_run bmw left i (suc n) h l hn free = ground (
  arith,
  count-clear_run bmw left i n h l (omega arith) free,
  test_bit-clear_run bmw left i n h l (omega arith),
  free n,
)

pub count-le : (bmw : List ℕ) (n : ℕ) → count bmw n ≤ n
unfolding count
count-le bmw zero = omega arith
count-le bmw (suc n) = ground (arith, count-le bmw n)

-- All ones: as many free blocks as there are bits.
pub count-ones : (w n : ℕ) → n ≤ 2 ^ 31 → n ≤ 64 * w → count (replicate w (2 ^ 64 - 1)) n ≡ n
unfolding count
count-ones w zero h l = omega arith
count-ones w (suc n) h l = ground (
  arith,
  count-ones w n (omega arith) (omega arith),
  test_bit-ones w n (omega arith) (omega arith),
)
