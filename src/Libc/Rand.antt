-- ===== src/Libc/Rand.antt =====
-- lib/libc/stdlib/rand.c: the state `_rand` is an argument and a result.
use slof.Prelude.{ℕ, ◌+◌, ◌*◌, ◌/◌, ◌%◌, ◌^◌}

-- The result and the next state; RAND_MAX is 32767.
unfoldable pub rand : ℕ → ℕ × ℕ
rand state = let next = (state * 1237732973 + 34563) % 2 ^ 64 in (next / 2 ^ 16 % 2 ^ 15, next)

unfoldable pub srand : ℕ → ℕ
srand seed = seed % 2 ^ 32
