-- ===== src/Net/Address.antt =====
-- lib/libnet/args.c: `strtoip_netmask`, which reads four octets and a length of the netmask.
-- A string is the list of its characters from the pointer on; the list's end is a terminator.
pub mod Digits
pub mod Ends
pub mod Octets
use slof.Prelude.{ℕ, zero, suc, ◌+◌, ◌-◌, ◌*◌, ◌%◌, ◌^◌, ◌==◌, ltb, leb}
use slof.Prelude.{Bool, true, false, not, ◌||◌, Option, none, some, List, [], ◌∷◌, ◌++◌}
use slof.Prelude.{length, get_or, if◌then◌else◌}
use slof.Libc.Compare.{prefix}
use slof.Libc.Ctype.{isdigit}
use slof.Libc.Number.{strtol}
use slof.Libc.Search.{drop, strstr, strchr}

-- What the call does: it returns, with the octets it wrote to `ip` and what it wrote to `*netmask`;
-- it reads behind the terminator; or the model's fuel runs out.
pub data Outcome : Type 0 where
  returns : (result : ℕ) (ip : List ℕ) (netmask : Option ℕ) → Outcome
  past_end : Outcome
  out_of_fuel : Outcome

-- The variables of the loop; `i` is the number of octets.
pub record Scan : Type 0 where
  pub str : List ℕ
  pub ip : List ℕ
  pub netmask : Option ℕ
  pub has_nn : Bool

pub data Round : Type 0 where
  stop : Outcome → Round
  again : Scan → Round

-- `(int16_t)` of a difference, as an `unsigned int`.
abbrev pub int16 : ℕ → ℕ
int16 d = if ltb (d % 2 ^ 16) (2 ^ 15) then d % 2 ^ 16 else 2 ^ 32 - 2 ^ 16 + d % 2 ^ 16

-- The octet's characters and the string behind them, unless they do not fit in `octet`.
unfoldable pub cut_at : ℕ → List ℕ → Option (List ℕ × List ℕ)
cut_at d str = if leb 10 (int16 d) then none else some (prefix (int16 d) str, drop (int16 d) str)

-- At most nine characters, and the string behind them.
unfoldable pub cut_nine : List ℕ → List ℕ × List ℕ
cut_nine str = (prefix 9 str, drop (length (prefix 9 str)) str)

-- The next octet, and whether a backslash ends it.
unfoldable pub next_octet : List ℕ → Option (List ℕ × List ℕ) × Bool
next_octet str = elim (strstr (some str) (some (b'.' ∷ []))) [
  | some d ↦ (cut_at d str, false)
  | none ↦ elim (strchr str b'\\') [
    | some d ↦ (cut_at d str, true)
    | none ↦ (some (cut_nine str), false)
  ]
]

-- `res = strtol(octet, NULL, 10)` as the pattern of an `int`: a negative one is a large number.
unfoldable pub octet_value : List ℕ → ℕ
octet_value octet = (strtol octet 10).0 % 2 ^ 32

-- The part of the round behind `if(has_nn)`. It steps over the backslash, or over the terminator.
unfoldable pub read_netmask : Bool → Scan → Round
read_netmask wanted s =
    let (octet, rest) = cut_nine (drop 1 s.str) in
    let res = octet_value octet in
    let mask = if wanted then some (0xffff_ffff * 2 ^ (32 - res) % 2 ^ 32) else s.netmask in
    if get_or s.str 0 0 == 0
    then stop past_end
    else if ltb 31 res || ltb res 1
    then stop (returns 0 s.ip s.netmask)
    else again (record { str = rest; ip = s.ip; netmask = mask; has_nn = s.has_nn })

-- The part of the round behind the choice of the octet.
unfoldable pub store_octet : Bool → Scan → List ℕ → List ℕ → Bool → Round
store_octet wanted s octet rest nn =
    let res = octet_value octet in
    let behind = if get_or rest 0 0 == b'.' then drop 1 rest else rest in
    let stored : Scan = record {
      str = behind;
      ip = s.ip ++ (res ∷ []);
      netmask = s.netmask;
      has_nn = s.has_nn || nn;
    } in
    if ltb 255 res
    then stop (returns 0 s.ip s.netmask)
    else if s.has_nn || nn
    then read_netmask wanted stored
    else again stored

-- One round of the loop, its condition and what is behind it.
unfoldable pub scan_round : Bool → Scan → Round
scan_round wanted s =
    let result = if length s.ip == 4 then 2 ^ 32 - 1 else 0 in
    let (cut, nn) = next_octet s.str in
    if get_or s.str 0 0 == 0
    then stop (returns result s.ip s.netmask)
    else if ltb 3 (length s.ip) || not (isdigit (get_or s.str 0 0))
    then stop (returns 0 s.ip s.netmask)
    else elim cut [
      | none ↦ stop (returns 0 s.ip s.netmask)
      | some p ↦ store_octet wanted s p.0 p.1 nn
    ]

unfoldable pub scan_from : ℕ → Bool → Scan → Outcome
scan_from zero wanted s = out_of_fuel
scan_from (suc fuel) wanted s = elim (scan_round wanted s) [
  | stop o ↦ o
  | again t ↦ scan_from fuel wanted t
]

abbrev start : List ℕ → Scan
start str = record { str = str; ip = []; netmask = none; has_nn = false }

-- `strtoip_netmask`; `wanted` tells whether `netmask` is a pointer other than NULL. Each round but
-- the last stores one of four octets.
unfoldable pub strtoip_netmask : List ℕ → Bool → Outcome
strtoip_netmask str wanted = scan_from 6 wanted (start str)

unfoldable pub strtoip : List ℕ → Outcome
strtoip str = strtoip_netmask str false
