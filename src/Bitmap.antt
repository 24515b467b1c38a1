-- ===== src/Bitmap.antt =====
-- slof/allocator.c: the block allocator over a bitmap, a set bit for each free block.
-- An `unsigned long` is a number below 2 ^ 64 and an `unsigned int` one below 2 ^ 32, their
-- wrap-around written out; an `int` is kept as the bits of its 32-bit pattern.
pub mod Words
pub mod Runs
pub mod Blocks
pub mod Search
pub mod Alloc
pub mod Free
mod Examples
use slof.Prelude.{ℕ, zero, suc, ◌+◌, ◌-◌, ◌*◌, ◌/◌, ◌%◌, ◌^◌, ◌==◌, ltb, bit_and, bit_or}
use slof.Prelude.{Bool, true, false, not, ◌||◌, Option, none, some, List, if◌then◌else◌}
use slof.Prelude.{get_or, set, replicate}

-- `struct bitmap`; the flexible array of words is a list.
pub record Bitmap : Type 0 where
  pub start : ℕ
  pub size : ℕ
  pub bm_size : ℕ
  pub block_size : ℕ
  pub free_blocks : ℕ
  pub bmw : List ℕ

abbrev pub default_block_size : ℕ
default_block_size = 4096

-- `(unsigned long) -1`
abbrev pub ulong_max : ℕ
ulong_max = 2 ^ 64 - 1

abbrev pub u32 : ℕ → ℕ
u32 n = n % 2 ^ 32

abbrev pub u64 : ℕ → ℕ
u64 n = n % 2 ^ 64

-- An `int`, given by its 32-bit pattern, as an `unsigned long`: the sign is extended.
abbrev pub int_to_ulong : ℕ → ℕ
int_to_ulong n = if ltb n (2 ^ 31) then n else n + 2 ^ 64 - 2 ^ 32

-- `BIT`: the argument is below 64 wherever it is used.
abbrev pub bit_mask : ℕ → ℕ
bit_mask x = 2 ^ x

-- `BM_WORD` and `BM_WORD_MODULO`: the index of the word and of the bit in it.
abbrev pub word_index : ℕ → ℕ
word_index n = int_to_ulong n / 64

abbrev pub word_modulo : ℕ → ℕ
word_modulo n = int_to_ulong n % 64

-- `BM_NUM_BITS`
unfoldable pub num_bits : ℕ → ℕ → ℕ
num_bits reqsize bsize = reqsize / bsize + (if reqsize % bsize == 0 then 0 else 1)

pub clear_bit : List ℕ → ℕ → List ℕ
clear_bit bmw n =
    set bmw (word_index n)
      (bit_and (get_or bmw (word_index n) 0) (2 ^ 64 - 1 - bit_mask (word_modulo n)))

pub set_bit : List ℕ → ℕ → List ℕ
set_bit bmw n =
    set bmw (word_index n) (bit_or (get_or bmw (word_index n) 0) (bit_mask (word_modulo n)))

pub test_bit : List ℕ → ℕ → Bool
test_bit bmw n = not (bit_and (get_or bmw (word_index n) 0) (bit_mask (word_modulo n)) == 0)

-- `for (j = i; j < i + n_bits; j++)`, with `left` rounds left: the `j` at which it stops.
pub run_end : List ℕ → ℕ → ℕ → ℕ
run_end bmw zero j = j
run_end bmw (suc left) j = elim (test_bit bmw j) [ true ↦ run_end bmw left (j + 1) | false ↦ j ]

-- The outer loop of `bm_find_bits` at `i`, with `left` rounds left.
pub find_from : List ℕ → ℕ → ℕ → ℕ → ℕ → ℕ
find_from bmw n_bits total zero i = 2 ^ 32 - 1
find_from bmw n_bits total (suc left) i =
    let rest = find_from bmw n_bits total left (i + 1) in
    let end = u32 (i + n_bits) in
    if not (test_bit bmw i)
    then rest
    else if ltb total end
    then 2 ^ 32 - 1
    else if run_end bmw (end - i) i == end
    then i
    else rest

-- `bm_find_bits`: the pattern of the `int`, all ones for -1.
pub find_bits : Bitmap → ℕ → ℕ
find_bits bm n_bits =
    let total_bits = u32 (num_bits bm.size bm.block_size) in
    find_from bm.bmw n_bits total_bits total_bits 0

-- The words that hold `n_bits` bits, and the size of a `struct bitmap` with as many.
abbrev pub words_for : ℕ → ℕ
words_for n_bits = n_bits / 64 + (if n_bits % 64 == 0 then 0 else 1)

abbrev pub alloc_size : ℕ → ℕ
alloc_size n_bits = u64 (40 + words_for n_bits * 8)

-- `SLOF_bm_allocator_init`: `alloc_mem` tells whether SLOF_alloc_mem, which is Forth code, finds
-- that many bytes. `none` is the null handle.
pub allocator_init : (ℕ → Bool) → ℕ → ℕ → ℕ → Option Bitmap
allocator_init alloc_mem start size blocksize =
    let block_size = if blocksize == 0 then default_block_size else blocksize in
    let n_bits = num_bits size block_size in
    let bm_size = words_for n_bits in
    if size == 0
    then none
    else if alloc_mem (alloc_size n_bits)
    then some (record {
      start = start;
      size = size;
      bm_size = bm_size;
      block_size = block_size;
      free_blocks = n_bits;
      bmw = replicate bm_size ulong_max;
    })
    else none

-- The loops of `SLOF_bm_alloc` and `SLOF_bm_free`, with `left` rounds left. Their counter is an
-- `unsigned int`: it does not wrap as long as the run ends below 2 ^ 32.
pub clear_run : List ℕ → ℕ → ℕ → List ℕ
clear_run bmw zero i = bmw
clear_run bmw (suc left) i = clear_run (clear_bit bmw i) left (i + 1)

pub set_run : List ℕ → ℕ → ℕ → List ℕ
set_run bmw zero i = bmw
set_run bmw (suc left) i = set_run (set_bit bmw i) left (i + 1)

-- `SLOF_bm_alloc` behind its test of the handle: the address and the bitmap.
pub alloc : Bitmap → ℕ → ℕ × Bitmap
alloc bm size =
    let n_bits = num_bits size bm.block_size in
    let bitpos = find_bits bm (u32 n_bits) in
    if ltb bm.free_blocks n_bits
    then (ulong_max, bm)
    else if bitpos == 2 ^ 32 - 1
    then (ulong_max, bm)
    else (
      u64 (bm.start + int_to_ulong bitpos * bm.block_size),
      record bm { free_blocks = bm.free_blocks - n_bits; bmw = clear_run bm.bmw n_bits bitpos },
    )

pub bm_alloc : Option Bitmap → ℕ → ℕ × Option Bitmap
bm_alloc none size = (ulong_max, none)
bm_alloc (some bm) size = let (addr, bm') = alloc bm size in (addr, some bm')

-- `SLOF_bm_free` behind its test of the handle. The error message is left out.
pub free : Bitmap → ℕ → ℕ → Bitmap
free bm addr size =
    let n_bits = num_bits size bm.block_size in
    if ltb addr bm.start || ltb (u64 (bm.start + bm.size)) (u64 (addr + size))
    then bm
    else record bm {
      free_blocks = u64 (bm.free_blocks + n_bits);
      bmw = set_run bm.bmw n_bits (u32 ((addr - bm.start) / bm.block_size));
    }

pub bm_free : Option Bitmap → ℕ → ℕ → Option Bitmap
bm_free none addr size = none
bm_free (some bm) addr size = some (free bm addr size)
