-- ===== src/Nvram/Env.antt =====
-- lib/libnvram/envvar.c: variables `name=value`, each with a terminator, in a partition. Behind
-- the last one stands a further 0. Loops over the variables take fuel; `none` means that it ran out.
pub mod Add
pub mod Append
pub mod Get
pub mod Last
pub mod RoundTrip
mod Examples
use slof.Prelude.{ℕ, zero, suc, ◌+◌, ◌-◌, ◌*◌, ◌/◌, ◌%◌, ◌^◌, ◌==◌, ltb}
use slof.Prelude.{Bool, true, false, not, ◌&&◌, ◌||◌, Option, none, some, List, [], ◌∷◌, ◌++◌}
use slof.Prelude.{get_or, length, if◌then◌else◌}
use slof.Prelude.Int.{is_zero}
use slof.Libc.Compare.{strlen, strncmp}
use slof.Libc.Search.{drop}
use slof.Nvram.Store.{Nvram, u32, u64, read_byte, write_byte, erase, get_buffer, free_buffer}
use slof.Nvram.Partition.{Partition, ◌>>=◌}
use slof.Nvram.Change.{save_from, restore_from}

-- The pattern of the `int` -1.
abbrev pub int_minus_one : ℕ
int_minus_one = 2 ^ 32 - 1

-- `while ((data = nvram_read_byte(offset++)) && len < 256)`: the characters and the offset behind
-- the byte that ended the loop.
unfoldable pub read_entry : ℕ → Nvram → ℕ → List ℕ × ℕ
read_entry zero nv offset = ([], u32 (offset + 1))
read_entry (suc left) nv offset =
    let (chars, behind) = read_entry left nv (u32 (offset + 1)) in
    if read_byte nv offset == 0
    then ([], u32 (offset + 1))
    else (read_byte nv offset ∷ chars, behind)

-- Each round over the variables but the last reads two bytes at least.
abbrev pub env_fuel : Nvram → ℕ
env_fuel nv = suc nv.size

abbrev pub is_empty : List ℕ → Bool
is_empty [] = true
is_empty (c ∷ s) = false

-- The loop of `get_past_env_pos`. `temp` is not terminated: what a longer variable left in it stays
-- behind a shorter one.
unfoldable pub past_env_from : ℕ → Nvram → List ℕ → ℕ → List ℕ → ℕ → Option ℕ
past_env_from zero nv envvar evlen temp offset = none
past_env_from (suc fuel) nv envvar evlen temp offset =
    let (chars, behind) = read_entry 256 nv offset in
    let temp' = chars ++ drop (length chars) temp in
    let rest = past_env_from fuel nv envvar evlen temp' behind in
    if is_zero (strncmp envvar temp' evlen)
    then some behind
    else if is_empty chars
    then some int_minus_one
    else rest

unfoldable pub past_env_pos : Nvram → Partition → List ℕ → ℕ → Option ℕ
past_env_pos nv part envvar evlen = past_env_from (env_fuel nv) nv envvar evlen [] (u32 part.addr)

-- `while (temp[pos] != '=' && pos < len) pos++` in the characters of a variable.
unfoldable pub equals_pos : List ℕ → ℕ
equals_pos [] = 0
equals_pos (c ∷ s) = if c == b'=' then 0 else suc (equals_pos s)

-- The loop of `nvram_get_env`; `temp` is a static array. A result of `some none` is NULL, and
-- any other is the contents of `temp` behind the first '=', or behind the terminator.
unfoldable pub get_env_from : ℕ → Nvram → List ℕ → ℕ → List ℕ → ℕ → Option (Option (List ℕ))
get_env_from zero nv envvar evlen temp offset = none
get_env_from (suc fuel) nv envvar evlen temp offset =
    let (chars, behind) = read_entry 256 nv offset in
    let temp' = chars ++ (0 ∷ drop (length chars + 1) temp) in
    let rest = get_env_from fuel nv envvar evlen temp' behind in
    if is_zero (strncmp envvar temp' evlen)
    then some (some (drop (equals_pos chars + 1) temp'))
    else if is_empty chars
    then some none
    else rest

unfoldable pub get_env : List ℕ → Nvram → Partition → List ℕ → ℕ → Option (Option (List ℕ))
get_env temp nv part envvar evlen =
    if part.addr == 0
    then some none
    else get_env_from (env_fuel nv) nv envvar evlen temp (u32 part.addr)

-- The loop of `find_last_envvar` at `offset`, with `left` rounds left.
unfoldable pub last_from : ℕ → Nvram → ℕ → ℕ → ℕ
last_from zero nv last offset = int_minus_one
last_from (suc left) nv last offset =
    let rest = last_from left nv (read_byte nv offset) (u32 (offset + 1)) in
    if last == 0 && read_byte nv offset == 0 then offset else rest

-- The rounds of `for (offset = addr; offset < (int)(addr + len); offset++)`: a comparison of `int`s
-- is one of their patterns with the sign bit turned over.
abbrev pub env_rounds : Partition → ℕ
env_rounds part = (u32 (part.addr + part.len) + 2 ^ 31) % 2 ^ 32 - (u32 part.addr + 2 ^ 31) % 2 ^ 32

unfoldable pub find_last : Nvram → Partition → ℕ
find_last nv part = last_from (env_rounds part) nv (read_byte nv (u32 part.addr)) (u32 part.addr)

-- `for (i = 0; i < left; i++) nvram_write_byte(offset++, src[i])`
unfoldable pub write_run : ℕ → Nvram → ℕ → List ℕ → ℕ → Nvram
write_run zero nv offset src i = nv
write_run (suc left) nv offset src i =
    write_run left (write_byte nv offset (get_or src i 0)) (u32 (offset + 1)) src (i + 1)

-- What `nvram_add_env` writes at `last`.
unfoldable pub write_entry : Nvram → ℕ → List ℕ → ℕ → List ℕ → ℕ → Nvram
write_entry nv last envvar evlen value vallen =
    let named = write_run evlen nv last envvar 0 in
    let equals = write_byte named (u32 (last + evlen)) b'=' in
    write_run vallen equals (u32 (last + evlen + 1)) value 0

-- `nvram_add_env`: the pattern of its result and the memory.
unfoldable pub add_env : Nvram → Partition → List ℕ → ℕ → List ℕ → ℕ → ℕ × Nvram
add_env nv part envvar evlen value vallen =
    let last = find_last nv part in
    let freespace = u32 (part.addr + part.len + 2 ^ 32 - last) in
    if ltb freespace (u32 (evlen + vallen + 2))
    then (int_minus_one, nv)
    else (0, write_entry nv last envvar evlen value vallen)

-- `while (nvram_read_byte(current)) current--`, and the same up to a '='.
unfoldable pub back_to : ℕ → ℕ → Nvram → ℕ → Option ℕ
back_to zero c nv current = none
back_to (suc fuel) c nv current =
    let rest = back_to fuel c nv (u32 (current + 2 ^ 32 - 1)) in
    if read_byte nv current == c then some current else rest

-- `nvram_del_env`. It does not test what `get_nvram_buffer` returned: where that is NULL, the code
-- writes at address 0, and the model at the buffer.
unfoldable pub del_env : Nvram → Partition → List ℕ → ℕ → Option (ℕ × Nvram)
del_env nv part envvar evlen =
    let last = find_last nv part in
    let delete = do
      pos ← past_env_pos nv part envvar evlen
      zero_at ← back_to (2 ^ 32) 0 nv (u32 (pos + 2 ^ 32 - 1))
      let current = u32 (zero_at + 1)
      let count = u32 (last + 2 ^ 32 - pos)
      let rounds = if ltb count (2 ^ 31) then count else 0
      let (locked, nv1) = get_buffer nv count
      let copied = restore_from rounds (save_from rounds nv1 pos 0) current 0
      some (0, erase (free_buffer copied) last (u32 (current + count)))
    in if part.addr == 0 then some (int_minus_one, nv) else delete

-- `nvram_set_env` behind the cases that change nothing or add a variable.
unfoldable pub replace_env : Nvram → Partition → List ℕ → ℕ → List ℕ → ℕ → Option (ℕ × Nvram)
replace_env nv part envvar evlen value vallen = do
  let last = find_last nv part
  past ← past_env_pos nv part envvar evlen
  let buffersize = u32 (last + 2 ^ 32 - past)
  let (locked, nv1) = get_buffer nv buffersize
  let change = do
    let saved = save_from buffersize nv1 past 0
    equals ← back_to (2 ^ 32) b'=' saved past
    let valued = write_run vallen saved (u32 (equals + 1)) value 0
    let ended = write_byte valued (u32 (equals + 1 + vallen)) 0
    let restored = restore_from buffersize ended (u32 (equals + 2 + vallen)) 0
    let current = u32 (equals + 2 + vallen + buffersize)
    let cleared = write_run (last - current) (free_buffer restored) current [] 0
    some (0, cleared)
  if locked then change else some (int_minus_one, nv)

-- `nvram_set_env`
unfoldable pub set_env : List ℕ → Nvram → Partition → List ℕ → ℕ → List ℕ → ℕ → Option (ℕ × Nvram)
set_env temp nv part envvar evlen value vallen =
    let choose = do
      oldvalue ← get_env temp nv part envvar evlen
      elim oldvalue [
        | none ↦ some (add_env nv part envvar evlen value vallen)
        | some old ↦
            if strlen old == vallen && is_zero (strncmp old value vallen)
            then some (0, nv)
            else replace_env nv part envvar evlen value vallen
      ]
    in if part.addr == 0 then some (int_minus_one, nv) else choose
