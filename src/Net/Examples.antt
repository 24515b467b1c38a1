-- ===== src/Net/Examples.antt =====
-- lib/libnet/args.c: the theorems on arguments and addresses at short strings.
use slof.Prelude.{ℕ, zero, suc, ◌-◌, ◌+◌, ◌^◌, ◌≤◌, ◌<◌, ◌≡◌, inr, arith, refl, leb, ltb, ◌&&◌}
use slof.Prelude.{some, none, List, [], ◌∷◌, length, get_or, if◌then◌else◌}
use slof.Libc.Memory.{Memory}
use slof.Libc.Number.{digit_of, value}
use slof.Net.Args.{get_arg_ptr, get_arg_length, skip_arg, argncpy}
use slof.Net.Args.Split.{split}
use slof.Net.Args.Copy.{StandsAt, argncpy-argument}
use slof.Net.Address.{returns, strtoip}
use slof.Net.Address.Octets.{IsOctet, strtoip-octets}

-- `ab,c`
abbrev two : List ℕ
two = b'a' ∷ b'b' ∷ b',' ∷ b'c' ∷ []

-- `ab,c` at 100.
abbrev holds_two : Memory
holds_two p = if leb 100 p && ltb p 104 then get_or two (p - 100) 0 else 0

two-stands : StandsAt holds_two 100 two
two-stands zero h = refl
two-stands (suc zero) h = refl
two-stands (suc (suc zero)) h = refl
two-stands (suc (suc (suc zero))) h = refl
two-stands (suc (suc (suc (suc zero)))) h = refl
two-stands (suc (suc (suc (suc (suc i))))) h = absurd (omega arith)

second : get_arg_ptr two 1 ≡ some (b'c' ∷ [])
unfolding get_arg_ptr skip_arg
second = refl

second-short : get_arg_length (b'c' ∷ []) < 4
unfolding get_arg_length
second-short = omega arith

argncpy-argument_example :
    (m' : Memory) × (argncpy holds_two 100 two 1 200 4 ≡ (some 200, m'))
    × ((i : ℕ) → i ≤ length (split (b'c' ∷ [])).0 → m' (200 + i) ≡ get_or (split (b'c' ∷ [])).0 i 0)
argncpy-argument_example =
    argncpy-argument holds_two 100 two 1 200 4 (b'c' ∷ []) second two-stands (omega arith)
      second-short (inr (omega arith))

ten : IsOctet (b'1' ∷ b'0' ∷ []) (1 ∷ 0 ∷ [])
unfolding digit_of value
ten = record {
  spelt = (refl, omega arith, (refl, omega arith, tt));
  some_digit = ground arith;
  short = omega arith;
  small = omega arith;
}

seven : IsOctet (b'7' ∷ []) (7 ∷ [])
unfolding digit_of value
seven = record {
  spelt = (refl, omega arith, tt);
  some_digit = ground arith;
  short = omega arith;
  small = omega arith;
}

-- `10.7.7.10`
strtoip-octets_example :
    strtoip (b'1' ∷ b'0' ∷ b'.' ∷ b'7' ∷ b'.' ∷ b'7' ∷ b'.' ∷ b'1' ∷ b'0' ∷ [])
    ≡ returns
        (2 ^ 32 - 1)
        (value 10 0 (1 ∷ 0 ∷ [])
          ∷ value 10 0 (7 ∷ [])
          ∷ value 10 0 (7 ∷ [])
          ∷ value 10 0 (1 ∷ 0 ∷ [])
          ∷ [])
        none
strtoip-octets_example =
    strtoip-octets (b'1' ∷ b'0' ∷ []) (b'7' ∷ []) (b'7' ∷ []) (b'1' ∷ b'0' ∷ []) (1 ∷ 0 ∷ [])
      (7 ∷ []) (7 ∷ []) (1 ∷ 0 ∷ []) ten seven seven ten
