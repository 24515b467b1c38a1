-- ===== src/Net/Args.antt =====
-- lib/libnet/args.c: arguments separated with ',' and addresses as text. A string is the list of its
-- characters from the pointer on; NULL is `none`. The list's end stands for a terminator.
pub mod Copy
pub mod Split
use slof.Prelude.{
  ℕ, zero, suc, ◌+◌, ◌-◌, ◌*◌, ◌%◌, ◌^◌, ◌==◌, ltb, leb, Bool, true, false, not, ◌&&◌, ◌||◌,
}
use slof.Prelude.{Option, none, some, List, [], ◌∷◌, ◌++◌, length, get_or, if◌then◌else◌}
use slof.Libc.Compare.{prefix}
use slof.Libc.Ctype.{isdigit}
use slof.Libc.Memory.{Memory, update, strncpy}
use slof.Libc.Number.{strtol}
use slof.Libc.Search.{drop, strstr, strchr}
use slof.Nvram.Partition.{◌>>=◌}

-- `for (; *arg_str != ',' && *arg_str != 0; ++arg_str)`
unfoldable pub skip_arg : List ℕ → List ℕ
skip_arg [] = []
skip_arg (c ∷ s) = if c == b',' || c == 0 then c ∷ s else skip_arg s

unfoldable pub get_arg_ptr : List ℕ → ℕ → Option (List ℕ)
get_arg_ptr s zero = some s
get_arg_ptr s (suc index) =
    let t = skip_arg s in
    let rest = get_arg_ptr (drop 1 t) index in if get_or t 0 0 == 0 then none else rest

-- The loop of `get_args_count`; `none` means that the fuel ran out.
unfoldable pub count_from : ℕ → List ℕ → ℕ → Option ℕ
count_from zero s count = none
count_from (suc fuel) s count = elim (get_arg_ptr s 1) [
  | none ↦ some count
  | some t ↦ count_from fuel t (count + 1)
]

unfoldable pub get_args_count : List ℕ → Option ℕ
get_args_count s = count_from (suc (length s)) s 1

unfoldable pub get_arg_length : List ℕ → ℕ
get_arg_length [] = 0
get_arg_length (c ∷ s) = if c == b',' || c == 0 then 0 else suc (get_arg_length s)

-- `argncpy`, where the characters `s` stand at `arg_str`: the pointer that it returns and the
-- memory.
unfoldable pub argncpy : Memory → ℕ → List ℕ → ℕ → ℕ → ℕ → Option ℕ × Memory
argncpy m arg_str s index buffer size = elim (get_arg_ptr s index) [
  | none ↦ (none, m)
  | some rest ↦
      let ptr = arg_str + (length s - length rest) in
      let m1 = strncpy size m buffer ptr in
      if buffer == 0 then (none, m1) else (some buffer, update m1 (buffer + get_arg_length rest) 0)
]
