-- ===== src/Bitmap/Examples.antt =====
-- slof/allocator.c: runs of the allocator, and its theorems at a small bitmap.
use slof.Prelude.{ℕ, ◌+◌, ◌*◌, ◌==◌, ◌^◌, ◌<◌, ◌≡◌, arith, refl}
use slof.Prelude.{some, [], ◌∷◌, true, if◌then◌else◌}
use slof.Bitmap.{
  Bitmap, num_bits, test_bit, run_end, alloc, free, allocator_init, ulong_max, default_block_size,
}
use slof.Bitmap.Runs.{count}
use slof.Bitmap.Blocks.{IsValid}
use slof.Bitmap.Search.{IsFree-of_run_end}
use slof.Bitmap.Alloc.{FitsAt, Took, alloc-first_fit}
use slof.Bitmap.Free.{allocator_init-IsValid, free-alloc, partial_block_leak}

-- Eight blocks of 4096 bytes at 0x1000_0000, the first two and the fourth taken.
abbrev eight : Bitmap
eight = record {
  start = 0x1000_0000;
  size = 32768;
  bm_size = 1;
  block_size = 4096;
  free_blocks = 5;
  bmw = 0xffff_ffff_ffff_fff4 ∷ [];
}

-- Two blocks and a half, all free.
abbrev partial : Bitmap
partial = record {
  start = 0x2000;
  size = 10240;
  bm_size = 1;
  block_size = 4096;
  free_blocks = 3;
  bmw = ulong_max ∷ [];
}

eight-IsValid : IsValid eight
unfolding num_bits count test_bit
eight-IsValid = record {
  block_pos = omega arith;
  few = omega arith;
  words = omega arith;
  no_wrap = omega arith;
  counted = refl;
}

partial-IsValid : IsValid partial
unfolding num_bits count test_bit
partial-IsValid = record {
  block_pos = omega arith;
  few = omega arith;
  words = omega arith;
  no_wrap = omega arith;
  counted = refl;
}

FitsAt-four : FitsAt eight (num_bits 5000 4096) 4
unfolding num_bits test_bit run_end
FitsAt-four = record {
  below = omega arith;
  room = omega arith;
  first = refl;
  run = IsFree-of_run_end eight.bmw 2 4 refl;
}

FitsAt-zero : FitsAt partial 3 0
unfolding num_bits test_bit run_end
FitsAt-zero = record {
  below = omega arith;
  room = omega arith;
  first = refl;
  run = IsFree-of_run_end partial.bmw 3 0 refl;
}

alloc-first_fit_example :
    (p : ℕ) × FitsAt eight (num_bits 5000 4096) p
    × ((j : ℕ) → j < p → ¬ FitsAt eight (num_bits 5000 4096) j)
    × ((alloc eight 5000).0 ≡ 0x1000_0000 + p * 4096)
    × Took eight (num_bits 5000 4096) p (alloc eight 5000).1
alloc-first_fit_example = alloc-first_fit 5000 4 eight-IsValid FitsAt-four

init_few : num_bits 32768 (if 0 == 0 then default_block_size else 0) < 2 ^ 31
unfolding num_bits
init_few = omega arith

allocator_init-IsValid_example :
    (bm : Bitmap) × (allocator_init (λ _. true) 0x1000_0000 32768 0 ≡ some bm)
    × IsValid bm
    × (bm.start ≡ 0x1000_0000)
    × (bm.size ≡ 32768)
    × (bm.block_size ≡ 4096)
    × ((j : ℕ) → j < num_bits 32768 bm.block_size → test_bit bm.bmw j ≡ true)
allocator_init-IsValid_example =
    allocator_init-IsValid (λ _. true) 0x1000_0000 32768 0 (omega arith) (omega arith) init_few refl

free-alloc_example :
    let (addr, bm') = alloc eight 5000 in
    ((j : ℕ) → j < 2 ^ 31 → test_bit (free bm' addr 5000).bmw j ≡ test_bit eight.bmw j)
    × ((free bm' addr 5000).free_blocks ≡ 5)
free-alloc_example = free-alloc 5000 4 eight-IsValid (omega arith) FitsAt-four

partial_block_leak_example :
    let (addr, bm') = alloc partial 12288 in
    (addr ≡ 0x2000) × (bm'.free_blocks + 3 ≡ 3) × (free bm' addr 12288 ≡ bm')
partial_block_leak_example =
    partial_block_leak 3 partial-IsValid (omega arith) (omega arith) FitsAt-zero
