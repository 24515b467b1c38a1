-- ===== src/Net/Address/Digits.antt =====
-- lib/libnet/args.c: the string functions that it calls, on decimal digits.
use slof.Prelude.{ℕ, zero, suc, ◌+◌, ◌≤◌, ◌<◌, ◌≡◌, ◌∙◌, ap, arith, refl}
use slof.Prelude.{true, none, some, List, [], ◌∷◌, ◌++◌, length}
use slof.Libc.Compare.{prefix, strlen, strncmp, strncmp_loop}
use slof.Libc.Ctype.{isdigit}
use slof.Libc.Number.{Spells, digit_of}
use slof.Libc.Search.{drop, strstr, strstr_from, strchr, strchr_from}

pub digit-plain : (c d : ℕ) → digit_of c ≡ some d → d < 10 → (b'0' ≤ c) × (c ≤ b'9')
unfolding digit_of
digit-plain c d e h = ground arith

pub isdigit-digit : (c : ℕ) → b'0' ≤ c → c ≤ b'9' → isdigit c ≡ true
unfolding isdigit
isdigit-digit c a b = ground arith

pub strstr_from-dot :
    (left : ℕ) (cs ds rest : List ℕ) (i : ℕ)
    → Spells 10 cs ds
    → length cs < left
    → strstr_from left (cs ++ (b'.' ∷ rest)) (b'.' ∷ []) i ≡ some (i + length cs)
unfolding strstr_from strncmp strncmp_loop strlen
strstr_from-dot zero cs ds rest i s h = absurd (omega arith)
strstr_from-dot (suc left) [] ds rest i s h = ap some (omega arith)
strstr_from-dot (suc left) (c ∷ cs) [] rest i s h = absurd s
strstr_from-dot (suc left) (c ∷ cs) (d ∷ ds) rest i (e, l, s) h =
    ground (arith, digit-plain c d e l, strstr_from-dot left cs ds rest (i + 1) s (omega arith))

pub strstr_from-no_dot :
    (left : ℕ) (cs ds : List ℕ) (i : ℕ) → Spells 10 cs ds → strstr_from left cs (b'.' ∷ []) i ≡ none
unfolding strstr_from strncmp strncmp_loop strlen
strstr_from-no_dot zero cs ds i s = refl
strstr_from-no_dot (suc left) [] ds i s = refl
strstr_from-no_dot (suc left) (c ∷ cs) [] i s = absurd s
strstr_from-no_dot (suc left) (c ∷ cs) (d ∷ ds) i (e, l, s) =
    ground (arith, digit-plain c d e l, strstr_from-no_dot left cs ds (i + 1) s)

pub strchr_from-no_backslash :
    (cs ds : List ℕ) (i : ℕ) → Spells 10 cs ds → strchr_from cs b'\\' i ≡ none
unfolding strchr_from
strchr_from-no_backslash [] ds i s = refl
strchr_from-no_backslash (c ∷ cs) [] i s = absurd s
strchr_from-no_backslash (c ∷ cs) (d ∷ ds) i (e, l, s) =
    ground (arith, digit-plain c d e l, strchr_from-no_backslash cs ds (i + 1) s)

-- Characters other than a terminator.
pub prefix-digits :
    (n : ℕ) (cs ds rest : List ℕ) → Spells 10 cs ds → n ≡ length cs → prefix n (cs ++ rest) ≡ cs
unfolding prefix
prefix-digits n [] ds rest s h = rw h
prefix-digits zero (c ∷ cs) ds rest s h = absurd (omega arith)
prefix-digits (suc n) (c ∷ cs) [] rest s h = absurd s
prefix-digits (suc n) (c ∷ cs) (d ∷ ds) rest (e, l, s) h =
    ground (arith, digit-plain c d e l, prefix-digits n cs ds rest s (omega arith))

pub prefix-all : (n : ℕ) (cs ds : List ℕ) → Spells 10 cs ds → length cs ≤ n → prefix n cs ≡ cs
unfolding prefix
prefix-all zero [] ds s h = refl
prefix-all (suc n) [] ds s h = refl
prefix-all zero (c ∷ cs) ds s h = absurd (omega arith)
prefix-all (suc n) (c ∷ cs) [] s h = absurd s
prefix-all (suc n) (c ∷ cs) (d ∷ ds) (e, l, s) h =
    ground (arith, digit-plain c d e l, prefix-all n cs ds s (omega arith))

pub drop-length : (cs rest : List ℕ) → drop (length cs) (cs ++ rest) ≡ rest
drop-length [] rest = refl
drop-length (c ∷ cs) rest = drop-length cs rest

pub drop-all : (cs : List ℕ) → drop (length cs) cs ≡ []
drop-all [] = refl
drop-all (c ∷ cs) = drop-all cs

pub strlen-digits :
    (cs ds rest : List ℕ)
    → Spells 10 cs ds
    → strlen (cs ++ (b'.' ∷ rest)) ≡ length cs + 1 + strlen rest
unfolding strlen
strlen-digits [] ds rest s = ground arith
strlen-digits (c ∷ cs) [] rest s = absurd s
strlen-digits (c ∷ cs) (d ∷ ds) rest (e, l, s) =
    ground (arith, digit-plain c d e l, strlen-digits cs ds rest s)

pub strstr-dot :
    (cs ds rest : List ℕ)
    → Spells 10 cs ds
    → strstr (some (cs ++ (b'.' ∷ rest))) (some (b'.' ∷ [])) ≡ some (length cs)
unfolding strstr strlen
strstr-dot cs ds rest s =
    strstr_from-dot (strlen (cs ++ (b'.' ∷ rest))) cs ds rest 0 s
      (omega (arith, strlen-digits cs ds rest s))
    ∙ ap some (omega arith)

pub strstr-no_dot : (cs ds : List ℕ) → Spells 10 cs ds → strstr (some cs) (some (b'.' ∷ [])) ≡ none
unfolding strstr strlen
strstr-no_dot cs ds s = strstr_from-no_dot (strlen cs) cs ds 0 s

pub strchr-no_backslash : (cs ds : List ℕ) → Spells 10 cs ds → strchr cs b'\\' ≡ none
unfolding strchr
strchr-no_backslash cs ds s = strchr_from-no_backslash cs ds 0 s
