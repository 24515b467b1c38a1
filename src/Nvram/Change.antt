-- ===== src/Nvram/Change.antt =====
-- lib/libnvram/nvram.c: the calls that add, delete, enlarge and clear partitions.
use slof.Prelude.{ℕ, zero, suc, ◌+◌, ◌-◌, ◌^◌, ◌==◌, ltb}
use slof.Prelude.{Bool, true, false, not, ◌&&◌, ◌||◌, Option, none, some, List}
use slof.Prelude.{if◌then◌else◌}
use slof.Nvram.Store.{Nvram, u32, u64, update, read_byte, write_byte, write_word}
use slof.Nvram.Store.{erase, get_buffer, free_buffer}
use slof.Nvram.Partition.{Partition, header_size, minus_one, free_type, pad_name, ◌>>=◌}
use slof.Nvram.Partition.{get_partition, wipe_partition, create, create_free}

-- An `int`, given by its 32-bit pattern, as a `long` pattern.
abbrev pub int_to_long : ℕ → ℕ
int_to_long n = if ltb n (2 ^ 31) then n else n + 2 ^ 64 - 2 ^ 32

-- `a < b` for `long`s given by their 64-bit patterns.
abbrev pub long_lt : ℕ → ℕ → Bool
long_lt a b = ltb (u64 (a + 2 ^ 63)) (u64 (b + 2 ^ 63))

-- `part.len && part.len != -1`
abbrev pub has_len : Partition → Bool
has_len part = not (part.len == 0) && not (part.len == minus_one)

-- `new_nvram_partition`
unfoldable pub new_partition : Nvram → ℕ → List ℕ → ℕ → Option (Partition × Nvram)
new_partition nv type name len = do
  free_part ← get_partition nv free_type none
  let wiped = if has_len free_part then wipe_partition nv free_part true else nv
  (new_part, nv1) ← create wiped type name len
  nv2 ← create_free nv1
  some (if new_part.len == int_to_long len then new_part else record { addr = 0; len = 0 }, nv2)

-- `new_nvram_partition_fs`
unfoldable pub new_partition_fs : Nvram → ℕ → List ℕ → ℕ → Option (Partition × Nvram)
new_partition_fs nv type name len = new_partition nv type (pad_name 12 name) len

-- The loop of `delete_nvram_partition` at `i`: each byte moves down by `gap`.
unfoldable pub shift_from : ℕ → Nvram → ℕ → ℕ → Nvram
shift_from zero nv gap i = nv
shift_from (suc left) nv gap i =
    shift_from left (write_byte nv (u32 (i + 2 ^ 65 - gap)) (read_byte nv i)) gap (i + 1)

-- `delete_nvram_partition`: the number it returns and the memory. The loop's index is an
-- `unsigned int`.
unfoldable pub delete_partition : Nvram → Partition → Option (ℕ × Nvram)
delete_partition nv partition =
    let gap = partition.len + header_size in
    let start = u32 (partition.addr + partition.len) in
    let shifted = shift_from (nv.size - start) nv gap start in
    let erased =
      erase shifted (u32 (nv.size + 2 ^ 65 - partition.len - header_size))
        (u32 (partition.len + 2 ^ 64 - header_size)) in
    let finish = do
      free_part ← get_partition erased free_type none
      nv' ← create_free (wipe_partition erased free_part false)
      some (1, nv')
    in if not (has_len partition) then some (0, nv) else finish

-- `clear_nvram_partition`
unfoldable pub clear_partition : Nvram → Partition → ℕ × Nvram
clear_partition nv part =
    if part.addr == 0 then (0, nv) else (1, erase nv (u32 part.addr) (u32 part.len))

-- The two copies of `increase_nvram_partition_size`, from the memory to the buffer and back.
unfoldable pub save_from : ℕ → Nvram → ℕ → ℕ → Nvram
save_from zero nv i j = nv
save_from (suc left) nv i j =
    save_from left (record nv { buffer = update nv.buffer j (read_byte nv i) }) (u32 (i + 1))
      (j + 1)

unfoldable pub restore_from : ℕ → Nvram → ℕ → ℕ → Nvram
restore_from zero nv i j = nv
restore_from (suc left) nv i j =
    restore_from left (write_byte nv i (nv.buffer j)) (u32 (i + 1)) (j + 1)

-- The end of `increase_nvram_partition_size`: the new space is cleared and the header changed.
unfoldable pub enlarge : Nvram → Partition → ℕ → Option (ℕ × Nvram)
enlarge nv partition newsize = do
  let cleared =
      erase nv (u32 (partition.addr + partition.len)) (u32 (newsize + 2 ^ 64 - partition.len))
  let sized = write_word cleared (u32 (partition.addr + 2 ^ 64 - 16 + 2)) newsize
  nv' ← create_free sized
  some (1, nv')

-- `increase_nvram_partition_size` behind its first test.
unfoldable pub grow : Nvram → Partition → ℕ → Option (ℕ × Nvram)
grow nv partition newsize = do
  free_part ← get_partition nv free_type none
  let free_offset = u32 (free_part.addr + 2 ^ 64 - header_size)
  let end_offset = u32 (partition.addr + partition.len)
  let bufferlen = u32 (free_offset + 2 ^ 32 - end_offset)
  let (locked, nv1) = get_buffer nv bufferlen
  let saved = wipe_partition (save_from bufferlen nv1 end_offset 0) free_part true
  let moved = free_buffer (restore_from bufferlen saved (u32 (partition.addr + newsize)) 0)
  if free_part.len == minus_one || long_lt free_part.len (u64 (newsize + 2 ^ 64 - partition.len))
      then some (0, nv)
      else if ltb end_offset free_offset
      then if locked then enlarge moved partition newsize else some (0, nv)
      else enlarge (wipe_partition nv free_part true) partition newsize

-- `increase_nvram_partition_size`: the number it returns and the memory. `newsize` is a positive
-- `int`; the offsets are compared as `int`s, which they are below 2 ^ 31.
unfoldable pub increase_partition : Nvram → Partition → ℕ → Option (ℕ × Nvram)
increase_partition nv partition newsize =
    if long_lt newsize partition.len then some (0, nv) else grow nv partition newsize
