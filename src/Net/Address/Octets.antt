-- ===== src/Net/Address/Octets.antt =====
-- lib/libnet/args.c: `strtoip` reads four octets with dots between them.
use slof.Prelude.{ℕ, suc, ◌-◌, ◌^◌, ◌≤◌, ◌≡◌, ◌≢◌, ◌==◌, ◌∙◌, ap, arith, refl, ltb, leb}
use slof.Prelude.{Bool, true, false, none, some, List, [], ◌∷◌, ◌++◌, length, get_or, if◌then◌else◌}
use slof.Libc.Ctype.{isdigit}
use slof.Libc.Number.{IsNumeral, Spells, value, strtol-value}
use slof.Libc.Search.{drop}
use slof.Net.Address.Ends.{length-snoc}
use slof.Net.Address.{
  int16, returns, Scan, again, cut_at, cut_nine, next_octet, octet_value, store_octet, scan_round,
  scan_from, strtoip_netmask, strtoip,
}
use slof.Net.Address.Digits.{
  digit-plain, isdigit-digit, prefix-digits, prefix-all, drop-length, drop-all, strstr-dot,
  strstr-no_dot, strchr-no_backslash,
}

append_nil : (cs : List ℕ) → cs ++ [] ≡ cs
append_nil [] = refl
append_nil (c ∷ cs) = ap (λ t. c ∷ t) (append_nil cs)

-- Characters that spell a number up to 255, in decimal digits that fit in the buffer of the code.
pub record IsOctet (cs ds : List ℕ) : Type 0 where
  pub spelt : Spells 10 cs ds
  pub some_digit : cs ≢ []
  pub short : length cs ≤ 9
  pub small : value 10 0 ds ≤ 255

octet_value-IsOctet : (cs ds : List ℕ) → IsOctet cs ds → octet_value cs ≡ value 10 0 ds
unfolding octet_value
octet_value-IsOctet cs ds o =
    let numeral : IsNumeral 10 [] cs ds [] = record {
      base_pos = omega arith;
      base_le = omega arith;
      no_prefix = omega arith;
      blank = tt;
      some_digit = o.some_digit;
      spelt = o.spelt;
      stop = tt;
    } in
    rw (rw (append_nil cs) at ((strtol-value 10 [] cs ds [] numeral).0)) (omega (arith, o.small))

starts_with_digit :
    (cs ds rest : List ℕ)
    → IsOctet cs ds
    → (isdigit (get_or (cs ++ rest) 0 0) ≡ true) × ((get_or (cs ++ rest) 0 0 == 0) ≡ false)
starts_with_digit [] ds rest o = absurd (o.some_digit refl)
starts_with_digit (c ∷ cs) [] rest o = absurd o.spelt
starts_with_digit (c ∷ cs) (d ∷ ds) rest o =
    let plain = digit-plain c d o.spelt.0 o.spelt.1 in
    (isdigit-digit c plain.0 plain.1, ground (arith, plain))

cut_at-octet :
    (cs ds rest : List ℕ) → IsOctet cs ds → cut_at (length cs) (cs ++ rest) ≡ some (cs, rest)
unfolding cut_at
cut_at-octet cs ds rest o =
    let short : int16 (length cs) ≡ length cs = ground (arith, o.short) in
    let fits : leb 10 (length cs) ≡ false = ground (arith, o.short) in
    rw (short, fits, prefix-digits (length cs) cs ds rest o.spelt refl, drop-length cs rest)

next_octet-dotted :
    (cs ds rest : List ℕ)
    → IsOctet cs ds
    → next_octet (cs ++ (b'.' ∷ rest)) ≡ (some (cs, b'.' ∷ rest), false)
unfolding next_octet
next_octet-dotted cs ds rest o =
    rw (next_octet, strstr-dot cs ds rest o.spelt, cut_at-octet cs ds (b'.' ∷ rest) o)

cut_nine-octet : (cs ds : List ℕ) → IsOctet cs ds → cut_nine cs ≡ (cs, [])
unfolding cut_nine
cut_nine-octet cs ds o = rw (prefix-all 9 cs ds o.spelt o.short, drop-all cs)

next_octet-last : (cs ds : List ℕ) → IsOctet cs ds → next_octet cs ≡ (some (cs, []), false)
unfolding next_octet
next_octet-last cs ds o = rw (
  next_octet,
  strstr-no_dot cs ds o.spelt,
  strchr-no_backslash cs ds o.spelt,
  cut_nine-octet cs ds o,
)

-- The round at an octet stores its value and goes on behind it and behind a dot.
scan_round-octet :
    (str cs ds rest ip : List ℕ)
    → IsOctet cs ds
    → (isdigit (get_or str 0 0) ≡ true) × ((get_or str 0 0 == 0) ≡ false)
    → next_octet str ≡ (some (cs, rest), false)
    → length ip ≤ 3
    → scan_round false (record { str = str; ip = ip; netmask = none; has_nn = false })
      ≡ again (record {
        str = if get_or rest 0 0 == b'.' then drop 1 rest else rest;
        ip = ip ++ (value 10 0 ds ∷ []);
        netmask = none;
        has_nn = false;
      })
unfolding scan_round store_octet
scan_round-octet str cs ds rest ip o d e h =
    let room : ltb 3 (length ip) ≡ false = ground arith in
    let low : ltb 255 (value 10 0 ds) ≡ false = ground (arith, o.small) in
    let unmarked : (next_octet str).1 ≡ false = ap (λ p. p.1) e in
    rw (e, d.0, d.1, room, octet_value-IsOctet cs ds o, low, unmarked)

abbrev scan : List ℕ → List ℕ → Scan
scan str ip = record { str = str; ip = ip; netmask = none; has_nn = false }

scan_from-again :
    (fuel : ℕ) (wanted : Bool) (s t : Scan)
    → scan_round wanted s ≡ again t
    → scan_from (suc fuel) wanted s ≡ scan_from fuel wanted t
unfolding scan_from
scan_from-again fuel wanted s t e = rw (scan_from, e)

scan_from-end :
    (fuel : ℕ) (ip : List ℕ)
    → length ip ≡ 4
    → scan_from (suc fuel) false (scan [] ip) ≡ returns (2 ^ 32 - 1) ip none
unfolding scan_from scan_round
scan_from-end fuel ip h = let four : (length ip == 4) ≡ true = ground arith in rw four

scan_from-dotted :
    (fuel : ℕ) (cs ds rest ip : List ℕ)
    → IsOctet cs ds
    → length ip ≤ 3
    → scan_from (suc fuel) false (scan (cs ++ (b'.' ∷ rest)) ip)
      ≡ scan_from fuel false (scan rest (ip ++ (value 10 0 ds ∷ [])))
scan_from-dotted fuel cs ds rest ip o h =
    let start = starts_with_digit cs ds (b'.' ∷ rest) o in
    scan_from-again fuel false _ _ (
      scan_round-octet (cs ++ (b'.' ∷ rest)) cs ds (b'.' ∷ rest) ip o start
        (next_octet-dotted cs ds rest o) h)

scan_from-last :
    (fuel : ℕ) (cs ds ip : List ℕ)
    → IsOctet cs ds
    → length ip ≡ 3
    → scan_from (suc (suc fuel)) false (scan cs ip)
      ≡ returns (2 ^ 32 - 1) (ip ++ (value 10 0 ds ∷ [])) none
scan_from-last fuel cs ds ip o h =
    let start = rw (append_nil cs) at (starts_with_digit cs ds [] o) in
    scan_from-again (suc fuel) false _ _
      (scan_round-octet cs cs ds [] ip o start (next_octet-last cs ds o) (omega arith))
    ∙ scan_from-end fuel (ip ++ (value 10 0 ds ∷ []))
        (omega (arith, h, length-snoc ip (value 10 0 ds)))

-- `strtoip` of four octets with dots between them, each of one to nine decimal digits and a value up
-- to 255, returns -1, the code's TRUE, and stores their values.
pub strtoip-octets :
    (a b c d va vb vc vd : List ℕ)
    → IsOctet a va
    → IsOctet b vb
    → IsOctet c vc
    → IsOctet d vd
    → strtoip (a ++ (b'.' ∷ (b ++ (b'.' ∷ (c ++ (b'.' ∷ d))))))
      ≡ returns
          (2 ^ 32 - 1)
          (value 10 0 va ∷ value 10 0 vb ∷ value 10 0 vc ∷ value 10 0 vd ∷ [])
          none
unfolding strtoip strtoip_netmask
strtoip-octets a b c d va vb vc vd oa ob oc od =
    scan_from-dotted 5 a va (b ++ (b'.' ∷ (c ++ (b'.' ∷ d)))) [] oa (omega arith)
    ∙ scan_from-dotted 4 b vb (c ++ (b'.' ∷ d)) (value 10 0 va ∷ []) ob (omega arith)
    ∙ scan_from-dotted 3 c vc d (value 10 0 va ∷ value 10 0 vb ∷ []) oc (omega arith)
    ∙ scan_from-last 1 d vd (value 10 0 va ∷ value 10 0 vb ∷ value 10 0 vc ∷ []) od (omega arith)
