-- ===== src/Nvram/Store.antt =====
-- lib/libnvram/nvram.c: access to the memory, the temporary buffer, erasing.
-- The build without NVRAM hardware, where the memory is an array of bytes; the processor is
-- big-endian. An offset is an `unsigned int`; an `int` is kept as the bits of its 32-bit pattern.
pub mod Laws
use slof.Prelude.{ℕ, zero, suc, ◌+◌, ◌-◌, ◌*◌, ◌/◌, ◌%◌, ◌^◌, ◌==◌, ltb}
use slof.Prelude.{Bool, true, false, if◌then◌else◌}

-- `NVRAM_LENGTH`, the memory, `nvram_buffer` and `nvram_buffer_locked`.
pub record Nvram : Type 0 where
  pub size : ℕ
  pub bytes : ℕ → ℕ
  pub buffer : ℕ → ℕ
  pub locked : Bool

abbrev pub u32 : ℕ → ℕ
u32 n = n % 2 ^ 32

abbrev pub u64 : ℕ → ℕ
u64 n = n % 2 ^ 64

abbrev pub update : (ℕ → ℕ) → ℕ → ℕ → ℕ → ℕ
update f i v j = if i == j then v else f j

-- `k` bytes at `offset` as a big-endian number, and the other way round.
unfoldable pub load : ℕ → (ℕ → ℕ) → ℕ → ℕ
load zero f offset = 0
load (suc k) f offset = f offset * 256 ^ k + load k f (offset + 1)

unfoldable pub store : ℕ → (ℕ → ℕ) → ℕ → ℕ → ℕ → ℕ
store zero f offset value = f
store (suc k) f offset value = store k (update f offset (value / 256 ^ k % 256)) (offset + 1) value

-- `offset > NVRAM_LENGTH - sizeof(type)`, in `unsigned long`.
abbrev pub out_of_range : ℕ → ℕ → ℕ → Bool
out_of_range k size offset = ltb (u64 (size + 2 ^ 64 - k)) offset

-- `nvram_read_*` and `nvram_write_*` for a type of `k` bytes: the macro `nvram_access`.
unfoldable pub read : ℕ → Nvram → ℕ → ℕ
read k nv offset = if out_of_range k nv.size offset then 0 else load k nv.bytes offset

unfoldable pub write : ℕ → Nvram → ℕ → ℕ → Nvram
write k nv offset value =
    if out_of_range k nv.size offset
    then nv
    else record nv { bytes = store k nv.bytes offset value }

abbrev pub read_byte : Nvram → ℕ → ℕ
read_byte = read 1

abbrev pub write_byte : Nvram → ℕ → ℕ → Nvram
write_byte = write 1

abbrev pub read_word : Nvram → ℕ → ℕ
read_word = read 2

abbrev pub write_word : Nvram → ℕ → ℕ → Nvram
write_word = write 2

abbrev pub write_dword : Nvram → ℕ → ℕ → Nvram
write_dword = write 4

-- `get_nvram_buffer`: whether the caller has the buffer.
unfoldable pub get_buffer : Nvram → ℕ → Bool × Nvram
get_buffer nv len =
    if ltb nv.size len
    then (false, nv)
    else if nv.locked
    then (false, nv)
    else (true, record nv { locked = true })

unfoldable pub free_buffer : Nvram → Nvram
free_buffer nv = record nv { locked = false }

-- The loop of `erase_nvram` at `i`, with `left` rounds left; `i` counts through -1 to 0.
unfoldable pub erase_from : ℕ → Nvram → ℕ → Nvram
erase_from zero nv i = nv
erase_from (suc left) nv i = erase_from left (write_byte nv i 0) (u32 (i + 1))

-- `erase_nvram`: nothing for a negative length.
unfoldable pub erase : Nvram → ℕ → ℕ → Nvram
erase nv offset len = erase_from (if ltb len (2 ^ 31) then len else 0) nv offset

-- `wipe_nvram` and `get_nvram_size`.
unfoldable pub wipe : Nvram → Nvram
wipe nv = erase nv 0 (u32 nv.size)

unfoldable pub get_size : Nvram → ℕ
get_size nv = nv.size
