-- ===== src/Nvram/Partition.antt =====
-- lib/libnvram/nvram.c: the chain of partitions, and the calls that change it.
-- Loops over the chain take fuel; `none` means that it ran out.
pub mod Frame
pub mod Walk
pub mod Chain
pub mod Header
pub mod Create
pub mod Lookup
use slof.Prelude.{ℕ, zero, suc, ◌+◌, ◌-◌, ◌*◌, ◌/◌, ◌%◌, ◌^◌, ◌==◌, ltb}
use slof.Prelude.{Bool, true, false, not, ◌&&◌, ◌||◌, Option, none, some, List, [], ◌∷◌}
use slof.Prelude.{get_or, if◌then◌else◌}
use slof.Prelude.Int.{is_zero}
use slof.Libc.Compare.{strlen, strncmp}
use slof.Nvram.Store.{
  Nvram, u32, u64, read_byte, write_byte, read_word, write_word, write_dword, erase, get_buffer,
  free_buffer,
}

-- `partition_t`: both fields are 64-bit patterns, the signed `len` too.
pub record Partition : Type 0 where
  pub addr : ℕ
  pub len : ℕ

-- `PARTITION_HEADER_SIZE`
abbrev pub header_size : ℕ
header_size = 16

abbrev pub minus_one : ℕ
minus_one = 2 ^ 64 - 1

unfoldable pub partition_type : Nvram → ℕ → ℕ
partition_type nv offset = read_byte nv offset

unfoldable pub header_checksum : Nvram → ℕ → ℕ
header_checksum nv offset = read_byte nv (u32 (offset + 1))

unfoldable pub partition_len : Nvram → ℕ → ℕ
partition_len nv offset = read_word nv (u32 (offset + 2))

-- The `left` characters of a name from `offset` on, and `get_partition_name`.
unfoldable pub name_from : ℕ → Nvram → ℕ → List ℕ
name_from zero nv offset = []
name_from (suc left) nv offset = read_byte nv offset ∷ name_from left nv (u32 (offset + 1))

unfoldable pub partition_name : Nvram → ℕ → List ℕ
partition_name nv offset = name_from 12 nv (u32 (offset + 4))

-- The loop of `calc_partition_header_checksum`; the sum is a `uint16_t`.
unfoldable pub sum_from : ℕ → Nvram → ℕ → ℕ → ℕ
sum_from zero nv offset plainsum = plainsum
sum_from (suc left) nv offset plainsum =
    sum_from left nv (u32 (offset + 1)) ((plainsum + read_byte nv offset) % 2 ^ 16)

unfoldable pub calc_checksum : Nvram → ℕ → ℕ
calc_checksum nv offset =
    let plainsum = sum_from 14 nv (u32 (offset + 2)) (read_byte nv offset) in
    (plainsum / 256 + plainsum % 256) % 256

-- The loop of `calc_used_nvram_space` at `walk`.
unfoldable pub used_from : ℕ → Nvram → ℕ → Option ℕ
used_from zero nv walk = none
used_from (suc fuel) nv walk =
    let len = partition_len nv walk in
    let rest = used_from fuel nv (u32 (walk + len * 16)) in
    if not (ltb walk nv.size)
    then some walk
    else if read_byte nv walk == 0 || not (header_checksum nv walk == calc_checksum nv walk)
    then some walk
    else if len == 0
    then some walk
    else rest

-- Every round of a loop over the chain but the last advances by 16 bytes at least.
abbrev pub chain_fuel : Nvram → ℕ
chain_fuel nv = suc nv.size

unfoldable pub used_space : Nvram → Option ℕ
used_space nv = used_from (chain_fuel nv) nv 0

abbrev pub not_found : Partition
not_found = record { addr = 0; len = minus_one }

-- `type` other than `(unsigned int) -1` and another than the partition's, or another name.
unfoldable pub mismatch : Nvram → ℕ → ℕ → Option (List ℕ) → Bool
mismatch nv walk type name =
    (not (type == 2 ^ 32 - 1) && not (type == partition_type nv walk)) || other name
  where
    other : Option (List ℕ) → Bool
    other none = false
    other (some s) = not (is_zero (strncmp (partition_name nv walk) s 12))

-- The loop of `get_partition` at `walk`. The length is computed in `unsigned int`.
unfoldable pub find_from : ℕ → Nvram → ℕ → Option (List ℕ) → ℕ → Option Partition
find_from zero nv type name walk = none
find_from (suc fuel) nv type name walk =
    let len = partition_len nv walk in
    let rest = find_from fuel nv type name (u32 (walk + len * 16)) in
    if not (ltb walk nv.size)
    then some not_found
    else if not (header_checksum nv walk == calc_checksum nv walk)
    then some not_found
    else if not (type == 0) && len == 0
    then some not_found
    else if mismatch nv walk type name
    then rest
    else some
        (record { addr = u32 (walk + header_size); len = u32 (len * 16 + 2 ^ 32 - header_size) })

unfoldable pub get_partition : Nvram → ℕ → Option (List ℕ) → Option Partition
get_partition nv type name = find_from (chain_fuel nv) nv type name 0

-- `get_partition_fs`: a copy of the name with a terminator.
unfoldable pub get_partition_fs : Nvram → List ℕ → Option Partition
get_partition_fs nv name = get_partition nv (2 ^ 32 - 1) (some name)

-- The copy of a Forth string that `new_nvram_partition_fs` makes: 12 characters, 0 behind the name.
unfoldable pub pad_name : ℕ → List ℕ → List ℕ
pad_name zero name = []
pad_name (suc left) [] = 0 ∷ pad_name left []
pad_name (suc left) (c ∷ name) = c ∷ pad_name left name

-- `wipe_partition`; the `int`s are 32-bit patterns.
unfoldable pub wipe_partition : Nvram → Partition → Bool → Nvram
wipe_partition nv partition header_only =
    erase nv (u32 (partition.addr + 2 ^ 64 - header_size))
      (if header_only then header_size else u32 (header_size + partition.len))

-- The loop that writes the name: `left` characters from `i` on.
unfoldable pub write_name : ℕ → Nvram → ℕ → List ℕ → ℕ → Nvram
write_name zero nv offset name i = nv
write_name (suc left) nv offset name i =
    write_name left (write_byte nv (u32 (offset + 4 + i)) (get_or name i 0)) offset name (i + 1)

-- `ALIGN(x, 16)` of an `unsigned int`.
abbrev pub align16 : ℕ → ℕ
align16 x = u32 (x + 15) / 16 * 16

-- What `create_nvram_partition` writes at `offset`, the checksum last.
unfoldable pub write_header : Nvram → ℕ → ℕ → List ℕ → ℕ → Nvram
write_header nv offset type name plen =
    let typed = write_byte nv offset type in
    let sized = write_word typed (u32 (offset + 2)) (plen / 16) in
    let named = write_name (strlen name) sized offset name 0 in
    write_byte named (u32 (offset + 1)) (calc_checksum named offset)

infixl 5 ◌>>=◌
abbrev pub ◌>>=◌ : {A B : Type 0} → Option A → (A → Option B) → Option B
none >>= f = none
some a >>= f = f a

-- `create_nvram_partition`
unfoldable pub create : Nvram → ℕ → List ℕ → ℕ → Option (Partition × Nvram)
create nv type name len = do
  let plen = align16 (u32 (len + header_size))
  offset ← used_space nv
  if ltb (u32 (nv.size + 2 ^ 32 - offset)) plen
      then some (record { addr = 0; len = 0 }, nv)
      else some (
        record { addr = u32 (offset + header_size); len = len },
        write_header nv offset type name plen,
      )

-- "free space"
abbrev pub free_space_name : List ℕ
free_space_name = b'f' ∷ b'r' ∷ b'e' ∷ b'e' ∷ b' ' ∷ b's' ∷ b'p' ∷ b'a' ∷ b'c' ∷ b'e' ∷ []

abbrev pub free_type : ℕ
free_type = 0x7f

-- `create_free_partition`; its result is used nowhere.
unfoldable pub create_free : Nvram → Option Nvram
create_free nv = do
  used ← used_space nv
  (part, nv') ← create nv free_type free_space_name (u32 (nv.size + 2 ^ 64 - used - header_size))
  some nv'
