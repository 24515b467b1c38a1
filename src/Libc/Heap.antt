-- ===== src/Libc/Heap.antt =====
-- lib/libc/stdlib: malloc.c, free.c, realloc.c, memalign.c, and slof/sbrk.c. Memory is a function
-- from addresses to bytes; a `struct chunk` is a word of four bytes, its bits from the top.
mod Examples
pub mod Walk
use slof.Prelude.{ℕ, zero, suc, ◌+◌, ◌-◌, ◌*◌, ◌/◌, ◌%◌, ◌^◌, ◌==◌, ltb}
use slof.Prelude.{Bool, true, false, not, ◌&&◌, ◌||◌, Option, none, some, if◌then◌else◌}
use slof.Libc.Memory.{Memory, memcpy}
use slof.Nvram.Store.{load, store}
use slof.Nvram.Partition.{◌>>=◌}

-- The static variables of malloc.c, the array and the pointer of sbrk.c, and the memory.
pub record Heap : Type 0 where
  pub act : ℕ
  pub heap_start : ℕ
  pub heap_end : ℕ
  pub array : ℕ
  pub actptr : ℕ
  pub memory : Memory

abbrev u64 : ℕ → ℕ
u64 n = n % 2 ^ 64

-- An `int` from the low bits, as an offset to a pointer.
abbrev int_offset : ℕ → ℕ
int_offset n = if ltb (n % 2 ^ 32) (2 ^ 31) then n % 2 ^ 32 else 2 ^ 64 - 2 ^ 32 + n % 2 ^ 32

-- `sbrk`; (void *)-1 is the last address.
unfoldable pub sbrk : Heap → ℕ → ℕ × Heap
sbrk h increment =
    let old = if h.actptr == 0 then h.array else h.actptr in
    let new = u64 (old + int_offset increment) in
    if ltb (h.array + 0x20_0000) new
    then (2 ^ 64 - 1, record h { actptr = old })
    else (old, record h { actptr = new })

unfoldable pub inuse : Memory → ℕ → ℕ
inuse m header = load 4 m header / 2 ^ 28

unfoldable pub chunk_length : Memory → ℕ → ℕ
chunk_length m header = load 4 m header % 2 ^ 28

unfoldable pub set_inuse : Memory → ℕ → ℕ → Memory
set_inuse m header v = store 4 m header (v * 2 ^ 28 + chunk_length m header)

unfoldable pub set_length : Memory → ℕ → ℕ → Memory
set_length m header n = store 4 m header (inuse m header * 2 ^ 28 + n % 2 ^ 28)

abbrev pub behind : Memory → ℕ → ℕ
behind m header = u64 (header + 4 + chunk_length m header)

-- The search of `malloc` for a chunk that is free and long enough.
unfoldable pub find_chunk : ℕ → Memory → ℕ → ℕ → ℕ → Option ℕ
find_chunk zero m act size header = none
find_chunk (suc fuel) m act size header =
    let rest = find_chunk fuel m act size (behind m header) in
    if (not (inuse m header == 0) || ltb (chunk_length m header) size) && ltb header act
    then rest
    else some header

-- The loop of `clean`; a `firstfree` of 0 is NULL.
unfoldable pub clean_from : ℕ → ℕ → Memory → ℕ → ℕ → Bool → Option (Bool × Memory)
clean_from zero act m header firstfree check = none
clean_from (suc fuel) act m header firstfree check =
    let grown = chunk_length m firstfree + (chunk_length m header + 4) in
    let merged = set_length m firstfree grown in
    let used = clean_from fuel act m (behind m header) 0 check in
    let first = clean_from fuel act m (behind m header) header check in
    let more = clean_from fuel act merged (behind merged header) firstfree true in
    if ltb header act
    then if inuse m header == 0 then if firstfree == 0 then first else more else used
    else some (check, m)

-- Chunks are four bytes at least, so fewer rounds than bytes.
abbrev pub heap_fuel : Heap → ℕ
heap_fuel h = suc (h.act - h.heap_start)

unfoldable pub clean : Heap → Option (Bool × Memory)
clean h = clean_from (heap_fuel h) h.act h.memory h.heap_start 0 false

-- The chunk that was found is taken, and split where it is too long.
unfoldable pub take_chunk : Memory → ℕ → ℕ → ℕ → ℕ × Memory
take_chunk m header size blksize =
    let alt = chunk_length m header in
    let shortened = set_length (set_inuse m header 1) header size in
    let next = u64 (header + 4 + size) in
    let split = set_length (set_inuse shortened next 0) next (alt + 2 ^ 64 - blksize) in
    (u64 (header + 4), if ltb blksize alt then split else set_inuse m header 1)

-- `malloc` when it has been called before. `none` means that the fuel, which also bounds how often
-- it calls itself, ran out.
unfoldable pub malloc_again : ℕ → Heap → ℕ → Option (ℕ × Heap)
malloc_again zero h size = none
malloc_again (suc fuel) h size =
    let blksize = u64 (size + 4) in
    let fresh = set_length (set_inuse h.memory h.act 1) h.act size in
    let search = do
      header ← find_chunk (heap_fuel h) h.memory h.act size h.heap_start
      let (data_at, m) = take_chunk h.memory header size blksize
      let full = do
        cleaned ← clean h
        let (got, h1) = sbrk (record h { memory = cleaned.1 }) blksize
        let after_clean = malloc_again fuel (record h { memory = cleaned.1 }) size
        let after_sbrk =
            malloc_again fuel (record h1 { heap_end = u64 (h.heap_end + blksize) }) size
        if cleaned.0 then after_clean else if got == h.heap_end then after_sbrk else some (0, h1)
      if ltb header h.act then some (data_at, record h { memory = m }) else full
    in if ltb h.heap_end (u64 (h.act + blksize))
      then search
      else some (u64 (h.act + 4), record h { act = u64 (h.act + blksize); memory = fresh })

-- `malloc`: the data's address and the heap.
unfoldable pub malloc : ℕ → Heap → ℕ → Option (ℕ × Heap)
malloc fuel h size =
    let initsize = u64 (size + 4 + 0x1000) / 0x1000 * 0x1000 in
    let (got, h1) = sbrk h initsize in
    let begun = record h1 { heap_start = got; heap_end = u64 (got + initsize); act = got } in
    if h.act == 0
    then if got == 2 ^ 64 - 1
      then some (0, record h1 { heap_start = got })
      else malloc_again fuel begun size
    else malloc_again fuel h size

unfoldable pub free : Heap → ℕ → Heap
free h ptr =
    if ptr == 0 then h else record h { memory = set_inuse h.memory (u64 (ptr + 2 ^ 64 - 4)) 0 }

unfoldable pub realloc : ℕ → Heap → ℕ → ℕ → Option (ℕ × Heap)
realloc fuel h ptr size =
    let header = u64 (ptr + 2 ^ 64 - 4) in
    let move = do
      got ← malloc fuel h size
      let copied = memcpy got.1.memory got.0 ptr (chunk_length got.1.memory header)
      let moved : Heap = record got.1 { memory = set_inuse copied header 0 }
      if got.0 == 0 then some (0, got.1) else some (got.0, moved)
    in if ltb (chunk_length h.memory header) size then move else some (ptr, h)

-- `memalign`; `blocksize` is a power of two.
unfoldable pub memalign : ℕ → Heap → ℕ → ℕ → Option (ℕ × Heap)
memalign fuel h blocksize bytes = do
  got ← malloc fuel h (u64 (bytes + blocksize))
  some (u64 (got.0 + blocksize + 2 ^ 64 - 1) / blocksize * blocksize, got.1)
