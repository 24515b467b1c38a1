-- ===== src/Libc/Number.antt =====
-- lib/libc/stdlib: strtol.c, strtoul.c, atoi.c, atol.c.
-- A string is the list of its characters from the pointer on; the pointer that the functions move
-- is the rest of the list. `BASE` is the 32-bit pattern of an `int`, a result a 64-bit pattern.
use slof.Prelude.{
  ℕ, ◌+◌, ◌-◌, ◌*◌, ◌%◌, ◌^◌, ◌≤◌, ◌<◌, ◌≡◌, ◌≢◌, ◌/◌, ap, sym, ◌∙◌, ◌==◌, ltb, leb, arith, refl,
}
use slof.Prelude.{
  Bool, true, false, ◌&&◌, ◌||◌, Option, none, some, if◌then◌else◌, List, [], ◌∷◌, ◌++◌, get_or,
}
use native.Mathlib.Nat.{add-mul-mod_self_left, div-add-mod}

-- White space: ' ', '\\t', '\\n', '\\r'.
abbrev pub is_blank : ℕ → Bool
is_blank c = c == 32 || c == 9 || c == 10 || c == 13

pub skip_blanks : List ℕ → List ℕ
skip_blanks [] = []
skip_blanks (c ∷ s) = if is_blank c then skip_blanks s else c ∷ s

-- The tail of a string; the terminator has none.
abbrev pub next : List ℕ → List ℕ
next [] = []
next (c ∷ s) = s

-- `**PTR == '0' && *((*PTR)+1) == 'x'`
abbrev pub has_0x : List ℕ → Bool
has_0x s = get_or s 0 0 == b'0' && get_or s 1 0 == b'x'

-- `if (BASE == 0)`: the base and the string behind a prefix.
pub pick_base : ℕ → List ℕ → ℕ × List ℕ
pick_base base s =
    if base == 0 then if has_0x s then (16, next (next s)) else (10, s) else (base, s)

-- `if (BASE == 16)`: the string behind a prefix.
pub skip_0x : ℕ → List ℕ → List ℕ
skip_0x base s = if base == 16 && has_0x s then next (next s) else s

-- The value of a digit, or `none` at another character.
unfoldable pub digit_of : ℕ → Option ℕ
digit_of c =
    if leb b'0' c && leb c b'9'
    then some (c - b'0')
    else if leb b'a' c && leb c b'z'
    then some (c - b'a' + 10)
    else if leb b'A' c && leb c b'Z'
    then some (c - b'A' + 10)
    else none

-- The loop up to the end of the string, in 64-bit arithmetic.
pub parse_digits : ℕ → ℕ → List ℕ → ℕ × List ℕ
parse_digits base rval [] = (rval, [])
parse_digits base rval (c ∷ s) = elim (digit_of c) [
  | none ↦ (rval, c ∷ s)
  | some digit ↦
      let more = parse_digits base ((rval * base + digit) % 2 ^ 64) s in
      if c == 0 then (rval, c ∷ s) else if ltb digit base then more else (rval, c ∷ s)
]

-- `strtoul`: the value and the string at `*PTR`.
unfoldable pub strtoul : List ℕ → ℕ → ℕ × List ℕ
strtoul s base =
    let (base', t) = pick_base base (skip_blanks s) in
    if ltb 36 base then (0, s) else parse_digits base' 0 (skip_0x base' t)

-- `-` in front of the number.
pub skip_minus : List ℕ → Bool × List ℕ
skip_minus s = if get_or s 0 0 == b'-' then (true, next s) else (false, s)

abbrev negate : ℕ → ℕ
negate n = (2 ^ 64 - n) % 2 ^ 64

pub strtol : List ℕ → ℕ → ℕ × List ℕ
strtol s base =
    let (negative, t) = skip_minus (skip_blanks s) in
    let (base', u) = pick_base base t in
    let (rval, rest) = parse_digits base' 0 (skip_0x base' u) in
    if ltb 36 base then (0, s) else (if negative then negate rval else rval, rest)

-- `atol`, and `atoi`, which cuts its result to an `int`.
pub atol : List ℕ → ℕ
atol s = (strtol s 0).0

pub atoi : List ℕ → ℕ
atoi s = (strtol s 0).0 % 2 ^ 32

-- The number that a list of digits stands for, behind `rval`.
unfoldable pub value : ℕ → ℕ → List ℕ → ℕ
value base rval [] = rval
value base rval (d ∷ ds) = value base (rval * base + d) ds

-- The characters `cs` are the digits `ds` of the base.
abbrev pub Spells : ℕ → List ℕ → List ℕ → Type 0
Spells base [] [] = Unit {0}
Spells base [] (d ∷ ds) = ⊥
Spells base (c ∷ cs) [] = ⊥
Spells base (c ∷ cs) (d ∷ ds) = (digit_of c ≡ some d) × (d < base) × Spells base cs ds

-- The string goes on with no digit of the base.
abbrev pub Stops : ℕ → List ℕ → Type 0
Stops base [] = Unit {0}
Stops base (c ∷ s) = (d : ℕ) → digit_of c ≡ some d → base ≤ d

reduce : (a k d m : ℕ) → (a * k + d) % m ≡ (a % m * k + d) % m
reduce a k d m = ap (λ t. t % m) split ∙ add-mul-mod_self_left (a % m * k + d) m (a / m * k)
  where
    split : a * k + d ≡ a % m * k + d + m * (a / m * k)
    split = omega (arith, ap (λ (t : ℕ). t * k) (div-add-mod a m))

congruent : (a b k d m : ℕ) → a % m ≡ b % m → (a * k + d) % m ≡ (b * k + d) % m
congruent a b k d m h = reduce a k d m ∙ ap (λ t. (t * k + d) % m) h ∙ sym (reduce b k d m)

value_mod :
    (base a b : ℕ) (ds : List ℕ)
    → a % 2 ^ 64 ≡ b % 2 ^ 64
    → value base a ds % 2 ^ 64 ≡ value base b ds % 2 ^ 64
unfolding value
value_mod base a b [] h = h
value_mod base a b (d ∷ ds) h =
    value_mod base (a * base + d) (b * base + d) ds (congruent a b base d (2 ^ 64) h)

digit_nonzero : (c d : ℕ) → digit_of c ≡ some d → c ≢ 0
unfolding digit_of
digit_nonzero c d h = ground arith

-- The loop reads all digits and stops behind them; the number is cut to 64 bits.
parse_digits-value :
    (base rval : ℕ) (cs ds rest : List ℕ)
    → rval < 2 ^ 64
    → Spells base cs ds
    → Stops base rest
    → parse_digits base rval (cs ++ rest) ≡ (value base rval ds % 2 ^ 64, rest)
unfolding parse_digits value
parse_digits-value base rval [] [] [] h s t = ground arith
parse_digits-value base rval [] [] (c ∷ rest) h s t = stop (digit_of c) refl
  where
    low : rval % 2 ^ 64 ≡ rval
    low = omega arith

    stop :
        (o : Option ℕ)
        → digit_of c ≡ o
        → parse_digits base rval (c ∷ rest) ≡ (rval % 2 ^ 64, c ∷ rest)
    stop none e = rw (parse_digits, e, low)
    stop (some d) e = rw (parse_digits, e, low) (ground (arith, t d e))
parse_digits-value base rval [] (d ∷ ds) rest h s t = absurd s
parse_digits-value base rval (c ∷ cs) [] rest h s t = absurd s
parse_digits-value base rval (c ∷ cs) (d ∷ ds) rest h (e, l, s) t =
    rw (parse_digits, e)
      (ground (
        arith,
        digit_nonzero c d e,
        parse_digits-value base ((rval * base + d) % 2 ^ 64) cs ds rest (omega arith) s t,
        value_mod base ((rval * base + d) % 2 ^ 64) (rval * base + d) ds (omega arith),
      ))

abbrev pub AllBlank : List ℕ → Type 0
AllBlank [] = Unit {0}
AllBlank (c ∷ s) = (is_blank c ≡ true) × AllBlank s

skip_blanks-append :
    (bs s : List ℕ) → AllBlank bs → is_blank (get_or s 0 0) ≡ false → skip_blanks (bs ++ s) ≡ s
unfolding skip_blanks
skip_blanks-append [] [] b h = refl
skip_blanks-append [] (c ∷ s) b h = ground arith
skip_blanks-append (c ∷ bs) s (b, bs_blank) h = rw b (skip_blanks-append bs s bs_blank h)

digit-not_blank : (c d : ℕ) → digit_of c ≡ some d → (is_blank c ≡ false) × (c ≢ b'-')
unfolding digit_of
digit-not_blank c d h = ground arith

-- A numeral: white space, digits of a base with no prefix of its own, and a rest.
pub record IsNumeral (base : ℕ) (blanks cs ds rest : List ℕ) : Type 0 where
  pub base_pos : 0 < base
  pub base_le : base ≤ 36
  pub no_prefix : base ≢ 16
  pub blank : AllBlank blanks
  pub some_digit : cs ≢ []
  pub spelt : Spells base cs ds
  pub stop : Stops base rest

first_digit :
    (base : ℕ) (cs ds rest : List ℕ)
    → cs ≢ []
    → Spells base cs ds
    → (is_blank (get_or (cs ++ rest) 0 0) ≡ false) × (get_or (cs ++ rest) 0 0 ≢ b'-')
first_digit base [] ds rest ne s = absurd (ne refl)
first_digit base (c ∷ cs) [] rest ne s = absurd s
first_digit base (c ∷ cs) (d ∷ ds) rest ne (e, _, _) = digit-not_blank c d e

-- `strtoul` of white space and digits is their number, cut to 64 bits, and stops behind them.
pub strtoul-value :
    (base : ℕ) (blanks cs ds rest : List ℕ)
    → IsNumeral base blanks cs ds rest
    → strtoul (blanks ++ (cs ++ rest)) base ≡ (value base 0 ds % 2 ^ 64, rest)
unfolding strtoul pick_base skip_0x
strtoul-value base blanks cs ds rest n =
    rw
      (skip_blanks-append blanks (cs ++ rest) n.blank
        (first_digit base cs ds rest n.some_digit n.spelt).0)
      (ground (
        arith,
        n.base_pos,
        n.base_le,
        n.no_prefix,
        parse_digits-value base 0 cs ds rest (omega arith) n.spelt n.stop,
      ))

-- `strtol` of the same is the same number, and with a `-` before the digits its negative.
pub strtol-value :
    (base : ℕ) (blanks cs ds rest : List ℕ)
    → IsNumeral base blanks cs ds rest
    → (strtol (blanks ++ (cs ++ rest)) base ≡ (value base 0 ds % 2 ^ 64, rest))
      × (strtol (blanks ++ (b'-' ∷ (cs ++ rest))) base
          ≡ ((2 ^ 64 - value base 0 ds % 2 ^ 64) % 2 ^ 64, rest))
unfolding strtol skip_minus pick_base skip_0x
strtol-value base blanks cs ds rest n = (
  rw (skip_blanks-append blanks (cs ++ rest) n.blank start.0)
      (ground (arith, start.1, n.base_pos, n.base_le, n.no_prefix, digits)),
  rw (skip_blanks-append blanks (b'-' ∷ (cs ++ rest)) n.blank (refl))
      (ground (arith, n.base_pos, n.base_le, n.no_prefix, digits)),
)
  where
    start : (is_blank (get_or (cs ++ rest) 0 0) ≡ false) × (get_or (cs ++ rest) 0 0 ≢ b'-')
    start = first_digit base cs ds rest n.some_digit n.spelt

    digits : parse_digits base 0 (cs ++ rest) ≡ (value base 0 ds % 2 ^ 64, rest)
    digits = parse_digits-value base 0 cs ds rest (omega arith) n.spelt n.stop

-- With base 0, which asks for the base to be found, a prefix `0x` is skipped twice: digits of base
-- 16 behind `0x0x` are read as if one prefix stood there.
pub strtoul_double_prefix :
    (cs ds rest : List ℕ)
    → Spells 16 cs ds
    → Stops 16 rest
    → strtoul (b'0' ∷ b'x' ∷ b'0' ∷ b'x' ∷ (cs ++ rest)) 0 ≡ (value 16 0 ds % 2 ^ 64, rest)
unfolding strtoul pick_base skip_0x skip_blanks
strtoul_double_prefix cs ds rest s t = parse_digits-value 16 0 cs ds rest (omega arith) s t
