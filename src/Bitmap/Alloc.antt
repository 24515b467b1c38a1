-- ===== src/Bitmap/Alloc.antt =====
-- slof/allocator.c: `SLOF_bm_alloc` takes the first run of free blocks that is long enough.
use slof.Prelude.{ℕ, ◌+◌, ◌-◌, ◌*◌, ◌^◌, ◌≤◌, ◌<◌, ◌≡◌, arith, ltb, leb}
use slof.Prelude.{refl, Bool-cases, false, ◌&&◌, inl, inr, length, if◌then◌else◌}
use slof.Bitmap.{Bitmap, num_bits, test_bit, find_bits, clear_run, alloc, ulong_max, u32}
use slof.Bitmap.Runs.{count-le, count, count-clear_run, test_bit-clear_run, length-clear_run}
use slof.Bitmap.Search.{Fits, FirstFit, find_from-FirstFit}
use slof.Bitmap.Blocks.{IsValid, block-lt}

-- `bitmap` has room for `n` blocks at block `k`.
abbrev pub FitsAt : Bitmap → ℕ → ℕ → Type 0
FitsAt bm n k = Fits bm.bmw n (num_bits bm.size bm.block_size) k

-- What a successful call leaves: `n` blocks at `p` taken, all other blocks as they were.
pub record Took (bm : Bitmap) (n p : ℕ) (bm' : Bitmap) : Type 0 where
  pub region : (bm'.start ≡ bm.start) × (bm'.size ≡ bm.size) × (bm'.block_size ≡ bm.block_size)
  pub bits :
      (j : ℕ)
      → j < 2 ^ 31
      → test_bit bm'.bmw j ≡ (if leb p j && ltb j (p + n) then false else test_bit bm.bmw j)
  pub number : bm'.free_blocks + n ≡ bm.free_blocks
  pub valid : IsValid bm'

find_bits-FirstFit :
    {bm : Bitmap} (n : ℕ)
    → IsValid bm
    → n < 2 ^ 31
    → FirstFit bm.bmw n (num_bits bm.size bm.block_size) 0 (find_bits bm (u32 n))
unfolding find_bits
find_bits-FirstFit {bm} n v h =
    let small : u32 n ≡ n = omega arith in
    let total : u32 (num_bits bm.size bm.block_size) ≡ num_bits bm.size bm.block_size =
      omega (arith, v.few) in
    rw (small, total)
      (find_from-FirstFit bm.bmw n (num_bits bm.size bm.block_size) (num_bits bm.size bm.block_size)
        0 (omega arith) (omega (arith, v.few)) (omega arith))

taken : Bitmap → ℕ → ℕ → Bitmap
taken bm n p = record bm { free_blocks = bm.free_blocks - n; bmw = clear_run bm.bmw n p }

module _ {bm : Bitmap} (n p : ℕ) (v : IsValid bm) (f : FitsAt bm n p) where
  in_words : p + n ≤ 64 * length bm.bmw
  in_words = omega (arith, v.words, f.room)

  in_range : p + n ≤ 2 ^ 31
  in_range = omega (arith, v.few, f.room)

  count-taken : count (clear_run bm.bmw n p) (num_bits bm.size bm.block_size) + n ≡ bm.free_blocks
  count-taken = omega (
    arith,
    count-clear_run bm.bmw n p (num_bits bm.size bm.block_size) in_range in_words
        (omega (arith, v.few)) f.run,
    f.room,
    v.counted,
  )

  taken-Took : Took bm n p (taken bm n p)
  unfolding taken
  taken-Took = record {
    region = (refl, refl, refl);
    bits = λ j h. test_bit-clear_run bm.bmw n p j in_range in_words h;
    number = omega (arith, count-taken);
    valid = record {
      block_pos = v.block_pos;
      few = v.few;
      words = omega (arith, v.words, length-clear_run bm.bmw n p);
      no_wrap = v.no_wrap;
      counted = omega (arith, count-taken);
    };
  }

  -- The computation of `SLOF_bm_alloc` once its search has found `p`.
  alloc-found :
      (size : ℕ)
      → num_bits size bm.block_size ≡ n
      → find_bits bm (u32 n) ≡ p
      → alloc bm size ≡ (bm.start + p * bm.block_size, taken bm n p)
  unfolding alloc taken
  alloc-found size e found =
      rw (e, found)
        (ground (
          arith,
          count-taken,
          v.few,
          v.no_wrap,
          f.below,
          block-lt p bm.size bm.block_size v.block_pos f.below,
        ))

-- Where the request fits anywhere, `SLOF_bm_alloc` takes the first place, below every other one
-- where it fits, returns the address of that place, and keeps the bitmap valid.
pub alloc-first_fit :
    {bm : Bitmap} (size k : ℕ)
    → IsValid bm
    → FitsAt bm (num_bits size bm.block_size) k
    → (p : ℕ) × FitsAt bm (num_bits size bm.block_size) p
      × ((j : ℕ) → j < p → ¬ FitsAt bm (num_bits size bm.block_size) j)
      × ((alloc bm size).0 ≡ bm.start + p * bm.block_size)
      × Took bm (num_bits size bm.block_size) p (alloc bm size).1
alloc-first_fit {bm} size k v fits =
    found (find_bits-FirstFit n v (omega (arith, fits.room, v.few)))
  where
    n : ℕ
    n = num_bits size bm.block_size

    p : ℕ
    p = find_bits bm (u32 n)

    found :
        FirstFit bm.bmw n (num_bits bm.size bm.block_size) 0 p
        → (p : ℕ) × FitsAt bm n p
          × ((j : ℕ) → j < p → ¬ FitsAt bm n j)
          × ((alloc bm size).0 ≡ bm.start + p * bm.block_size)
          × Took bm n p (alloc bm size).1
    found (inl (f, h, first)) =
        rw (alloc-found n p v f size refl refl)
          (p, f, λ j. first j (omega arith), refl, taken-Took n p v f)
    found (inr (e, nowhere)) = absurd (nowhere k (omega arith) fits)

-- Where the request fits nowhere, `SLOF_bm_alloc` returns -1 and changes nothing.
pub alloc-full :
    {bm : Bitmap} (size : ℕ)
    → IsValid bm
    → ((k : ℕ) → ¬ FitsAt bm (num_bits size bm.block_size) k)
    → alloc bm size ≡ (ulong_max, bm)
unfolding alloc
alloc-full {bm} size v none_fits =
    elim (Bool-cases (ltb bm.free_blocks (num_bits size bm.block_size))) [
      | inl short ↦ rw short
      | inr enough ↦
          nowhere enough
            (find_bits-FirstFit (num_bits size bm.block_size) v (ground (arith, few_free, v.few)))
    ]
  where
    few_free : bm.free_blocks ≤ num_bits bm.size bm.block_size
    few_free = omega (arith, v.counted, count-le bm.bmw (num_bits bm.size bm.block_size))

    n : ℕ
    n = num_bits size bm.block_size

    nowhere :
        ltb bm.free_blocks n ≡ false
        → FirstFit bm.bmw n (num_bits bm.size bm.block_size) 0 (find_bits bm (u32 n))
        → alloc bm size ≡ (ulong_max, bm)
    nowhere enough (inl (f, h, first)) = absurd (none_fits _ f)
    nowhere enough (inr (e, _)) = ground arith
