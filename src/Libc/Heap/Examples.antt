-- ===== src/Libc/Heap/Examples.antt =====
-- lib/libc/stdlib/malloc.c: the theorems on chunks at a small heap.
use slof.Prelude.{ℕ, ◌≡◌, ◌==◌, arith, some, if◌then◌else◌}
use slof.Libc.Memory.{Memory}
use slof.Libc.Heap.{Heap, find_chunk, heap_fuel}
use slof.Libc.Heap.Walk.{FirstFit, find_chunk-fits}

-- Free chunks of 0, 0 and 4 bytes.
abbrev bytes : Memory
bytes a = if a == 111 then 4 else 0

abbrev three_chunks : Heap
three_chunks = record {
  act = 116;
  heap_start = 100;
  heap_end = 116;
  array = 100;
  actptr = 116;
  memory = bytes;
}

find_chunk-fits_example :
    (found : ℕ) × (find_chunk (heap_fuel three_chunks) bytes 116 4 100 ≡ some found)
    × FirstFit 116 bytes 4 100 found
find_chunk-fits_example = find_chunk-fits three_chunks 4 (omega arith)
