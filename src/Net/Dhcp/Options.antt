-- ===== src/Net/Dhcp/Options.antt =====
-- lib/libnet/dhcp.c: options that are found, appended and merged in memory. An option is a code, a
-- length and as many bytes; 0 is padding and 255 the end. Offsets are `uint32_t`.
pub mod Layout
pub mod Append
pub mod Combine
pub mod Find
pub mod Merge
pub mod MergeAll
use slof.Prelude.{ℕ, zero, suc, ◌+◌, ◌-◌, ◌*◌, ◌%◌, ◌^◌, ◌==◌, ltb, Bool, true, false}
use slof.Prelude.{Option, none, some, if◌then◌else◌}
use slof.Libc.Memory.{Memory, update, memcpy}
use slof.Nvram.Partition.{◌>>=◌}

abbrev pub u32 : ℕ → ℕ
u32 n = n % 2 ^ 32

abbrev pub pad_option : ℕ
pad_option = 0

abbrev pub end_option : ℕ
end_option = 0xff

-- The loop of `dhcp_find_option`: the offset that it finds. `none` means that the fuel ran out.
unfoldable pub find_from : ℕ → Memory → ℕ → ℕ → ℕ → ℕ → Option (Option ℕ)
find_from zero m options len op_code offset = none
find_from (suc fuel) m options len op_code offset =
    let code = m (options + offset) in
    let next =
      if code == pad_option
      then u32 (offset + 1)
      else u32 (offset + (2 + m (options + offset + 1))) in
    let rest = find_from fuel m options len op_code next in
    if ltb offset len
    then if code == op_code
      then some (some offset)
      else if code == end_option
      then some none
      else rest
    else some none

-- `dhcp_find_option`; each round advances.
unfoldable pub find_option : Memory → ℕ → ℕ → ℕ → Option (Option ℕ)
find_option m options len op_code = find_from (suc len) m options len op_code 0

-- `dhcp_append_option`: the memory and the new length.
unfoldable pub append_option : Memory → ℕ → ℕ → ℕ → Memory × ℕ
append_option m dst_options dst_len new_option =
    let copied = memcpy m (dst_options + dst_len) new_option (2 + m (new_option + 1)) in
    (copied, u32 (dst_len + 2 + copied (new_option + 1)))

-- `memcpy` between two arrays, of which one is local to a function.
unfoldable pub copy_array : ℕ → Memory → ℕ → Memory → ℕ → Memory
copy_array zero m dest from src = m
copy_array (suc left) m dest from src =
    copy_array left (update m dest (from src)) (dest + 1) from (src + 1)

-- `dhcp_combine_option`: the bytes behind the option are moved up and those of the new one put
-- between them. `tmp_buffer` is an array of its own; `none` means that its 1024 bytes are overrun.
unfoldable pub combine_option : Memory → ℕ → ℕ → ℕ → ℕ → Option (Memory × ℕ)
combine_option m dst_options dst_len dst_offset new_option =
    let tail_len =
      u32 (dst_len + 2 * 2 ^ 32 - (dst_offset + (2 + m (dst_options + dst_offset + 1)))) in
    let tail = dst_options + dst_len - tail_len in
    let tmp_buffer = copy_array tail_len (λ _. 0) 0 m tail in
    let moved = copy_array tail_len m (tail + m (new_option + 1)) tmp_buffer 0 in
    let added = memcpy moved tail (new_option + 2) (moved (new_option + 1)) in
    let counted =
      update added (dst_options + dst_offset + 1)
        ((added (dst_options + dst_offset + 1) + added (new_option + 1)) % 256) in
    if ltb 1024 tail_len then none else some (counted, u32 (dst_len + counted (new_option + 1)))

-- What `dhcp_merge_options` does with one option of the source.
unfoldable pub merge_option : Memory → ℕ → ℕ → ℕ → Option (Memory × ℕ)
merge_option m dst_options dst_len new_option = do
  found ← find_option m dst_options dst_len (m new_option)
  elim found [
    | none ↦ some (append_option m dst_options dst_len new_option)
    | some dst_offset ↦ combine_option m dst_options dst_len dst_offset new_option
  ]

-- The loop of `dhcp_merge_options`: its result, the memory and `*dst_len`. `none` means that the fuel
-- ran out or `tmp_buffer` is overrun.
unfoldable pub merge_from : ℕ → Memory → ℕ → ℕ → ℕ → ℕ → ℕ → Option (Bool × Memory × ℕ)
merge_from zero m dst_options dst_len src_options src_len offset = none
merge_from (suc fuel) m dst_options dst_len src_options src_len offset =
    let code = m (src_options + offset) in
    let padded = merge_from fuel m dst_options dst_len src_options src_len (u32 (offset + 1)) in
    let merged = do
      after ← merge_option m dst_options dst_len (src_options + offset)
      let next = u32 (offset + (2 + after.0 (src_options + offset + 1)))
      merge_from fuel after.0 dst_options after.1 src_options src_len next
    in if ltb offset src_len
      then if code == pad_option
        then padded
        else if code == end_option
        then some (true, m, dst_len)
        else merged
      else some (offset == src_len, m, dst_len)

unfoldable pub merge_options : Memory → ℕ → ℕ → ℕ → ℕ → Option (Bool × Memory × ℕ)
merge_options m dst_options dst_len src_options src_len = do
  found ← find_option m dst_options dst_len end_option
  let len : ℕ = elim found [ none ↦ dst_len | some dst_offset ↦ dst_offset ]
  merge_from (suc src_len) m dst_options len src_options src_len 0
