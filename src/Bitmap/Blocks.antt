-- ===== src/Bitmap/Blocks.antt =====
-- slof/allocator.c: `BM_NUM_BITS` is the quotient rounded up, and the invariant of a bitmap.
use slof.Prelude.{ℕ, ◌+◌, ◌*◌, ◌/◌, ◌^◌, ◌≤◌, ◌<◌, ◌≡◌, arith}
use slof.Prelude.{length}
use slof.Bitmap.{Bitmap, num_bits}
use slof.Bitmap.Runs.{count}
use native.Mathlib.Nat.{div-mul-le_self, mul-le-mul_right, lt_of_mul-lt-mul_right}

-- `n` blocks hold `size` bytes, and no fewer blocks do.
pub num_bits_bounds :
    (size bsize : ℕ)
    → 0 < bsize
    → (size ≤ num_bits size bsize * bsize) × (num_bits size bsize * bsize < size + bsize)
unfolding num_bits
num_bits_bounds size bsize h = grind arith

-- What `SLOF_bm_allocator_init` sets up and the other calls keep.
pub record IsValid (bm : Bitmap) : Type 0 where
  pub block_pos : 0 < bm.block_size
  pub few : num_bits bm.size bm.block_size < 2 ^ 31
  pub words : num_bits bm.size bm.block_size ≤ 64 * length bm.bmw
  pub no_wrap : bm.start + bm.size < 2 ^ 64
  pub counted : count bm.bmw (num_bits bm.size bm.block_size) ≡ bm.free_blocks

-- Blocks at `k` on that lie in the region start below its end.
pub block-lt : (k s b : ℕ) → 0 < b → k < num_bits s b → k * b < s
block-lt k s b h l = omega (arith, mul-le-mul_right b l, num_bits_bounds s b h)

-- A range inside the region covers blocks inside the region, wherever it starts.
pub range_in_region :
    (off size region b : ℕ)
    → 0 < b
    → off + size ≤ region
    → off / b + num_bits size b ≤ num_bits region b
range_in_region off size region b h l = omega (arith, lt_of_mul-lt-mul_right b scaled)
  where
    scaled : (off / b + num_bits size b) * b < (num_bits region b + 1) * b
    scaled =
        omega (arith, div-mul-le_self off b, num_bits_bounds size b h, num_bits_bounds region b h)
