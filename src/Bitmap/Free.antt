-- ===== src/Bitmap/Free.antt =====
-- slof/allocator.c: `SLOF_bm_allocator_init`, `SLOF_bm_free`, and what a call of it undoes.
use slof.Prelude.{
  ℕ, zero, suc, ◌+◌, ◌-◌, ◌*◌, ◌/◌, ◌%◌, ◌^◌, ◌≤◌, ◌<◌, ◌≡◌, arith, ◌==◌, ltb, leb, refl, ap,
}
use slof.Prelude.{◌⊎◌, inl, inr, Bool, true, ◌&&◌, if◌then◌else◌, some, replicate, length-replicate}
use slof.Bitmap.{
  Bitmap, num_bits, test_bit, set_run, alloc, free, allocator_init, words_for, alloc_size,
  default_block_size, ulong_max,
}
use slof.Bitmap.Words.{test_bit-ones}
use slof.Bitmap.Runs.{count-le, count-ones, test_bit-set_run}
use slof.Bitmap.Blocks.{IsValid, num_bits_bounds, range_in_region}
use slof.Bitmap.Alloc.{FitsAt, Took, alloc-first_fit}
use native.Mathlib.Nat.{mul-le-mul_right, mul-div_cancel, mul-mod_left, add-sub_cancel_left}

-- The blocks that a range of `size` bytes at `addr` covers.
abbrev pub block_of : Bitmap → ℕ → ℕ
block_of bm addr = (addr - bm.start) / bm.block_size

abbrev pub InRegion : Bitmap → ℕ → ℕ → Type 0
InRegion bm addr size = (bm.start ≤ addr) × (addr + size ≤ bm.start + bm.size)

-- What a call that frees `n` blocks at `p` leaves.
pub record Gave (bm : Bitmap) (n p : ℕ) (bm' : Bitmap) : Type 0 where
  pub region : (bm'.start ≡ bm.start) × (bm'.size ≡ bm.size) × (bm'.block_size ≡ bm.block_size)
  pub inside : p + n ≤ num_bits bm.size bm.block_size
  pub number : bm'.free_blocks ≡ bm.free_blocks + n
  pub bits :
      (j : ℕ)
      → j < 2 ^ 31
      → test_bit bm'.bmw j ≡ (if leb p j && ltb j (p + n) then true else test_bit bm.bmw j)

-- `SLOF_bm_free` of a range in the region, aligned or not, frees as many blocks as the size asks
-- for, at the block of the address: all of them lie in the bitmap, and no other block changes.
pub free-inside :
    {bm : Bitmap} (addr size : ℕ)
    → IsValid bm
    → InRegion bm addr size
    → Gave bm (num_bits size bm.block_size) (block_of bm addr) (free bm addr size)
unfolding free
free-inside {bm} addr size v r = rw accepted (record {
  region = (refl, refl, refl);
  inside = inside;
  number = refl;
  bits = λ j h.
      test_bit-set_run bm.bmw n p j (omega (arith, inside, v.few)) (omega (arith, inside, v.words))
        h;
})
  where
    n : ℕ
    n = num_bits size bm.block_size

    p : ℕ
    p = block_of bm addr

    inside : p + n ≤ num_bits bm.size bm.block_size
    inside = range_in_region (addr - bm.start) size bm.size bm.block_size v.block_pos (omega arith)

    few_free : bm.free_blocks ≤ num_bits bm.size bm.block_size
    few_free = omega (arith, v.counted, count-le bm.bmw (num_bits bm.size bm.block_size))

    accepted :
        free bm addr size ≡ record bm { free_blocks = bm.free_blocks + n; bmw = set_run bm.bmw n p }
    accepted = ground (arith, few_free, inside, v.few, v.no_wrap)

-- Any other range that does not wrap is refused.
pub free-outside :
    {bm : Bitmap} (addr size : ℕ)
    → IsValid bm
    → addr + size < 2 ^ 64
    → (addr < bm.start) ⊎ (bm.start + bm.size < addr + size)
    → free bm addr size ≡ bm
unfolding free
free-outside addr size v h (inl lo) = ground (arith, v.no_wrap)
free-outside addr size v h (inr hi) = ground (arith, v.no_wrap)

words_for-enough : (n : ℕ) → n ≤ 64 * words_for n
words_for-enough n = ground arith

-- A bitmap over a region of fewer than 2 ^ 31 blocks that ends below 2 ^ 64 starts valid, with
-- every block free; a block size of 0 stands for 4096.
pub allocator_init-IsValid :
    (alloc_mem : ℕ → Bool) (start size blocksize : ℕ)
    → 0 < size
    → start + size < 2 ^ 64
    → num_bits size (if blocksize == 0 then default_block_size else blocksize) < 2 ^ 31
    → alloc_mem
        (alloc_size (num_bits size (if blocksize == 0 then default_block_size else blocksize)))
      ≡ true
    → (bm : Bitmap) × (allocator_init alloc_mem start size blocksize ≡ some bm)
      × IsValid bm
      × (bm.start ≡ start)
      × (bm.size ≡ size)
      × (bm.block_size ≡ (if blocksize == 0 then default_block_size else blocksize))
      × ((j : ℕ) → j < num_bits size bm.block_size → test_bit bm.bmw j ≡ true)
unfolding allocator_init
allocator_init-IsValid alloc_mem start size blocksize pos fits few mem = (
  fresh,
  ground arith,
  valid,
  refl,
  refl,
  refl,
  λ j h. test_bit-ones (words_for n) j (omega arith) (omega (arith, enough)),
)
  where
    block_size : ℕ
    block_size = if blocksize == 0 then default_block_size else blocksize

    n : ℕ
    n = num_bits size block_size

    enough : n ≤ 64 * words_for n
    enough = words_for-enough n

    fresh : Bitmap
    fresh = record {
      start = start;
      size = size;
      bm_size = words_for (num_bits size block_size);
      block_size = block_size;
      free_blocks = num_bits size block_size;
      bmw = replicate (words_for (num_bits size block_size)) ulong_max;
    }

    positive : 0 < block_size
    positive = ground arith

    valid : IsValid fresh
    valid = record {
      block_pos = positive;
      few = few;
      words = omega (arith, enough, length-replicate (words_for n) ulong_max);
      no_wrap = fits;
      counted = count-ones (words_for n) n (omega arith) enough;
    }

whole_blocks : (s b : ℕ) → 0 < b → s % b ≡ 0 → num_bits s b * b ≡ s
unfolding num_bits
whole_blocks s b h e = grind arith

-- The bytes that are taken at `p` lie in a region of whole blocks.
taken-InRegion :
    {bm : Bitmap} (size p : ℕ)
    → IsValid bm
    → bm.size % bm.block_size ≡ 0
    → FitsAt bm (num_bits size bm.block_size) p
    → p * bm.block_size + size ≤ bm.size
taken-InRegion {bm} size p v whole f = omega (
  arith,
  mul-le-mul_right bm.block_size f.room,
  num_bits_bounds size bm.block_size v.block_pos,
  whole_blocks bm.size bm.block_size v.block_pos whole,
)

abbrev SameBlocks : Bitmap → Bitmap → Type 0
SameBlocks bm bm' =
    ((j : ℕ) → j < 2 ^ 31 → test_bit bm'.bmw j ≡ test_bit bm.bmw j)
    × (bm'.free_blocks ≡ bm.free_blocks)

give_back :
    {bm bm' : Bitmap} (size p : ℕ)
    → IsValid bm
    → bm.size % bm.block_size ≡ 0
    → FitsAt bm (num_bits size bm.block_size) p
    → Took bm (num_bits size bm.block_size) p bm'
    → SameBlocks bm (free bm' (bm.start + p * bm.block_size) size)
give_back {bm} {bm'} size p v whole f took = (
  λ j h. ground (arith, gave.bits j h, took.bits j h, f.run j, same_number, same_place),
  omega (arith, gave.number, took.number, same_number),
)
  where
    addr : ℕ
    addr = bm.start + p * bm.block_size

    region : InRegion bm' addr size
    region = omega (arith, taken-InRegion size p v whole f, took.region)

    gave : Gave bm' (num_bits size bm'.block_size) (block_of bm' addr) (free bm' addr size)
    gave = free-inside addr size took.valid region

    same_number : num_bits size bm'.block_size ≡ num_bits size bm.block_size
    same_number = ap (num_bits size) took.region.2

    same_place : block_of bm' addr ≡ p
    same_place = rw (
      took.region.0,
      took.region.2,
      add-sub_cancel_left bm.start (p * bm.block_size),
      mul-div_cancel p v.block_pos,
    )

-- In a region of whole blocks, freeing what an allocation returned, with its size, brings back
-- every bit and the number of free blocks.
pub free-alloc :
    {bm : Bitmap} (size k : ℕ)
    → IsValid bm
    → bm.size % bm.block_size ≡ 0
    → FitsAt bm (num_bits size bm.block_size) k
    → let (addr, bm') = alloc bm size in
      ((j : ℕ) → j < 2 ^ 31 → test_bit (free bm' addr size).bmw j ≡ test_bit bm.bmw j)
      × ((free bm' addr size).free_blocks ≡ bm.free_blocks)
free-alloc {bm} size k v whole fits =
    let (p, f, _, at, took) = alloc-first_fit size k v fits in
    rw at (give_back size p v whole f took)

whole-num_bits : (n b : ℕ) → 0 < b → num_bits (n * b) b ≡ n
unfolding num_bits
whole-num_bits n b h = ground (arith, mul-div_cancel n h, mul-mod_left n b)

-- Where a valid bitmap ends in part of a block, all its blocks are free, and its start and the size of
-- its whole blocks sum to less than 2 ^ 64, the allocation of all its blocks succeeds, and the call that
-- should free them is refused, so that they stay taken.
pub partial_block_leak :
    {bm : Bitmap} (blocks : ℕ)
    → IsValid bm
    → bm.size < blocks * bm.block_size
    → bm.start + blocks * bm.block_size < 2 ^ 64
    → FitsAt bm blocks 0
    → let (addr, bm') = alloc bm (blocks * bm.block_size) in
      (addr ≡ bm.start)
      × (bm'.free_blocks + blocks ≡ bm.free_blocks)
      × (free bm' addr (blocks * bm.block_size) ≡ bm')
partial_block_leak {bm} blocks v part end fits =
    leak (alloc-first_fit (blocks * bm.block_size) 0 v (rw same fits))
  where
    same : num_bits (blocks * bm.block_size) bm.block_size ≡ blocks
    same = whole-num_bits blocks bm.block_size v.block_pos

    n : ℕ
    n = num_bits (blocks * bm.block_size) bm.block_size

    result : ℕ × Bitmap
    result = alloc bm (blocks * bm.block_size)

    leak :
        (p : ℕ) × FitsAt bm n p
          × ((j : ℕ) → j < p → ¬ FitsAt bm n j)
          × (result.0 ≡ bm.start + p * bm.block_size)
          × Took bm n p result.1
        → (result.0 ≡ bm.start)
          × (result.1.free_blocks + blocks ≡ bm.free_blocks)
          × (free result.1 result.0 (blocks * bm.block_size) ≡ result.1)
    leak (zero, f, _, at, took) = (
      omega (arith, at),
      omega (arith, took.number, same),
      free-outside result.0 (blocks * bm.block_size) took.valid (omega (arith, at))
          (inr (omega (arith, at, took.region))),
    )
    leak (suc p, f, first, _, _) = absurd (first 0 (omega arith) (rw same fits))
