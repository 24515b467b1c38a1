-- ===== src/Libc/Examples.antt =====
-- lib/libc: the theorems on the string functions at short strings.
use slof.Prelude.{◌^◌, ℕ, ◌<◌, arith}
use slof.Prelude.{some, List, [], ◌∷◌}
use slof.Libc.Compare.{strlen}
use slof.Libc.Search.{strstr, OccursAt, FirstAt, strstr-FirstAt}

abbrev book : List ℕ
book = b'b' ∷ b'o' ∷ b'o' ∷ b'k' ∷ []

abbrev ok : List ℕ
ok = b'o' ∷ b'k' ∷ []

ok-nonempty : 0 < strlen ok
unfolding strlen
ok-nonempty = omega arith

ok-short : strlen ok < 2 ^ 31
unfolding strlen
ok-short = omega arith

book-short : strlen book < 2 ^ 31
unfolding strlen
book-short = omega arith

strstr-FirstAt_example : FirstAt (OccursAt book ok) (strlen book) 0 (strstr (some book) (some ok))
strstr-FirstAt_example = strstr-FirstAt book ok ok-nonempty ok-short book-short
