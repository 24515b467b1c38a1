-- ===== src/Libc/Search.antt =====
-- lib/libc/string: strchr.c, strrchr.c, strstr.c, strcasecmp.c, strncasecmp.c.
-- A pointer into a string is the index of its character; `none` is NULL.
use slof.Prelude.{ℕ, zero, suc, ◌+◌, ◌%◌, ◌^◌, ◌≤◌, ◌<◌, ◌≡◌, inl, inr, ◌==◌, ltb, arith, refl, ap}
use slof.Prelude.{
  true, false, ◌||◌, Option, none, some, if◌then◌else◌, List, [], ◌∷◌, length, ◌↔◌, get_or,
  Bool-cases,
}
use slof.Prelude.Int.{ℤ, pos, sub_ℕ, is_zero}
use slof.Libc.Compare.{strlen, strncmp, prefix, strncmp-zero_iff}
use slof.Libc.Ctype.{toupper}

-- The loop of `strchr` at index `i`.
unfoldable pub strchr_from : List ℕ → ℕ → ℕ → Option ℕ
strchr_from [] cb i = none
strchr_from (x ∷ s) cb i =
    if x == 0 then none else if x == cb then some i else strchr_from s cb (i + 1)

unfoldable pub strchr : List ℕ → ℕ → Option ℕ
strchr s c = strchr_from s (c % 256) 0

-- The loop of `strrchr` when `ptr` stands at `left - 1`.
pub strrchr_from : List ℕ → ℕ → ℕ → Option ℕ
strrchr_from s cb zero = none
strrchr_from s cb (suc left) = if get_or s left 0 == cb then some left else strrchr_from s cb left

pub strrchr : List ℕ → ℕ → Option ℕ
strrchr s c = strrchr_from s (c % 256) (strlen s)

-- The loop of `strstr` at index `i`, with `left` characters up to the terminator.
unfoldable pub strstr_from : ℕ → List ℕ → List ℕ → ℕ → Option ℕ
strstr_from zero hay needle i = none
strstr_from (suc left) [] needle i = none
strstr_from (suc left) (x ∷ hay) needle i =
    if is_zero (strncmp (x ∷ hay) needle (strlen needle))
    then some i
    else strstr_from left hay needle (i + 1)

-- `hlen` and `nlen` are of type `int`: the model is for strings of fewer than 2 ^ 31 characters, as is
-- that of `strlen`.
unfoldable pub strstr : Option (List ℕ) → Option (List ℕ) → Option ℕ
strstr none needle = none
strstr (some hay) none = none
strstr (some hay) (some needle) =
    if ltb (strlen needle) 1 then some 0 else strstr_from (strlen hay) hay needle 0

pub strcasecmp : List ℕ → List ℕ → ℤ
strcasecmp [] [] = pos 0
strcasecmp [] (b ∷ t) = sub_ℕ 0 b
strcasecmp (a ∷ s) [] = sub_ℕ a 0
strcasecmp (a ∷ s) (b ∷ t) =
    if a == 0 || b == 0
    then sub_ℕ a b
    else if toupper a == toupper b
    then strcasecmp s t
    else sub_ℕ a b

-- The loop of `strncasecmp` when `m` more rounds may be made.
pub strncasecmp_loop : List ℕ → List ℕ → ℕ → ℤ
strncasecmp_loop [] [] m = sub_ℕ (toupper 0) (toupper 0)
strncasecmp_loop [] (b ∷ t) m = sub_ℕ (toupper 0) (toupper b)
strncasecmp_loop (a ∷ s) [] m = sub_ℕ (toupper a) (toupper 0)
strncasecmp_loop (a ∷ s) (b ∷ t) zero = sub_ℕ (toupper a) (toupper b)
strncasecmp_loop (a ∷ s) (b ∷ t) (suc m) =
    if a == 0 || b == 0
    then sub_ℕ (toupper a) (toupper b)
    else if toupper a == toupper b
    then strncasecmp_loop s t m
    else sub_ℕ (toupper a) (toupper b)

pub strncasecmp : List ℕ → List ℕ → ℕ → ℤ
strncasecmp s t zero = pos 0
strncasecmp s t (suc m) = strncasecmp_loop s t m

-- The string from index `i` on.
abbrev pub drop : ℕ → List ℕ → List ℕ
drop zero s = s
drop (suc i) [] = []
drop (suc i) (x ∷ s) = drop i s

-- `needle` stands in `hay` at index `i`.
abbrev pub OccursAt : List ℕ → List ℕ → ℕ → Type 0
OccursAt hay needle i = prefix (strlen needle) (drop i hay) ≡ prefix (strlen needle) needle

-- What a search upwards through `left` places returns, the first of them numbered `base`.
pub data FirstAt (P : ℕ → Type 0) (left base : ℕ) : Option ℕ → Type 0 where
  found :
      (k r : ℕ)
      → k < left
      → P k
      → ((j : ℕ) → j < k → ¬ P j)
      → r ≡ base + k
      → FirstAt P left base (some r)
  missing : ((j : ℕ) → j < left → ¬ P j) → FirstAt P left base none

none-suc :
    (P : ℕ → Type 0) (n : ℕ) → ¬ P 0 → ((j : ℕ) → j < n → ¬ P (suc j)) → (j : ℕ) → j < suc n → ¬ P j
none-suc P n no_first no_later zero h = no_first
none-suc P n no_first no_later (suc j) h = no_later j (omega arith)

FirstAt-suc :
    (P : ℕ → Type 0) (left base : ℕ) {o : Option ℕ}
    → ¬ P 0
    → FirstAt (λ k. P (suc k)) left (base + 1) o
    → FirstAt P (suc left) base o
FirstAt-suc P left base no_first (found k r h p m e) =
    found (suc k) r (omega arith) p (none-suc P k no_first m) (omega arith)
FirstAt-suc P left base no_first (missing m) = missing (none-suc P left no_first m)

module _ (needle : List ℕ) where
  matches :
      (hay : List ℕ) → (is_zero (strncmp hay needle (strlen needle)) ≡ true) ↔ OccursAt hay needle 0
  matches hay = strncmp-zero_iff (strlen needle) hay needle

  strstr_from-FirstAt :
      (left : ℕ) (hay : List ℕ) (i : ℕ)
      → left ≤ length hay
      → FirstAt (OccursAt hay needle) left i (strstr_from left hay needle i)
  unfolding strstr_from
  strstr_from-FirstAt zero hay i h = missing (λ j k. absurd (omega arith))
  strstr_from-FirstAt (suc left) [] i h = absurd (omega arith)
  strstr_from-FirstAt (suc left) (x ∷ hay) i h =
      elim (Bool-cases (is_zero (strncmp (x ∷ hay) needle (strlen needle)))) [
        | inl e ↦ rw e (
            found 0 i (omega arith) ((matches (x ∷ hay)).0 e) (λ j k. absurd (omega arith))
              (omega arith))
        | inr e ↦ rw e (
            FirstAt-suc (OccursAt (x ∷ hay) needle) left i
              (λ o. absurd (ground (arith, (matches (x ∷ hay)).1 o)))
              (strstr_from-FirstAt left hay (i + 1) (omega arith)))
      ]

strlen-le : (s : List ℕ) → strlen s ≤ length s
unfolding strlen
strlen-le [] = omega arith
strlen-le (x ∷ s) = ground (arith, strlen-le s)

-- `strstr` of a needle that is not empty, in a string, both shorter than 2 ^ 31 characters, returns the
-- first index, before the terminator, at which the needle stands in the string, or NULL where it stands
-- at none.
pub strstr-FirstAt :
    (hay needle : List ℕ)
    → 0 < strlen needle
    → strlen needle < 2 ^ 31
    → strlen hay < 2 ^ 31
    → FirstAt (OccursAt hay needle) (strlen hay) 0 (strstr (some hay) (some needle))
unfolding strstr
strstr-FirstAt hay needle h needle_lt hay_lt =
    let long : ltb (strlen needle) 1 ≡ false = ground arith in
    rw long (strstr_from-FirstAt needle (strlen hay) hay 0 (strlen-le hay))

abbrev pub CharAt : List ℕ → ℕ → ℕ → Type 0
CharAt s c k = get_or s k 0 ≡ c

strchr_from-FirstAt :
    (s : List ℕ) (cb i : ℕ) → FirstAt (CharAt s cb) (strlen s) i (strchr_from s cb i)
unfolding strchr_from strlen
strchr_from-FirstAt [] cb i = missing (λ j k. absurd (omega arith))
strchr_from-FirstAt (x ∷ s) cb i = elim (Bool-cases (x == 0)) [
  | inl e ↦ rw e (missing (λ j k. absurd (omega arith)))
  | inr e ↦ elim (Bool-cases (x == cb)) [
    | inl f ↦
        rw (e, f)
          (found 0 i (omega arith) (ground arith) (λ j k. absurd (omega arith)) (omega arith))
    | inr f ↦
        rw (e, f)
          (FirstAt-suc (CharAt (x ∷ s) cb) (strlen s) i (λ o. absurd (ground arith))
            (strchr_from-FirstAt s cb (i + 1)))
  ]
]

-- `strchr` returns the first place of the character before the terminator, or NULL. So the
-- terminator itself is never found.
pub strchr-FirstAt : (s : List ℕ) (c : ℕ) → FirstAt (CharAt s (c % 256)) (strlen s) 0 (strchr s c)
unfolding strchr
strchr-FirstAt s c = strchr_from-FirstAt s (c % 256) 0

-- What a search downwards through `left` places returns.
pub data LastAt (P : ℕ → Type 0) (left : ℕ) : Option ℕ → Type 0 where
  found : (k : ℕ) → k < left → P k → ((j : ℕ) → k < j → j < left → ¬ P j) → LastAt P left (some k)
  missing : ((j : ℕ) → j < left → ¬ P j) → LastAt P left none

below-suc :
    (P : ℕ → Type 0) (lo n : ℕ)
    → ¬ P n
    → ((j : ℕ) → lo ≤ j → j < n → ¬ P j)
    → (j : ℕ) → lo ≤ j
    → j < suc n
    → ¬ P j
below-suc P lo n no_last earlier j a b p = elim (Bool-cases (j == n)) [
  | inl e ↦ no_last (let e' : j ≡ n = ground arith in rw e' at p)
  | inr e ↦ earlier j a (ground arith) p
]

LastAt-suc :
    (P : ℕ → Type 0) (left : ℕ) {o : Option ℕ} → ¬ P left → LastAt P left o → LastAt P (suc left) o
LastAt-suc P left no_last (LastAt.found k h p m) =
    LastAt.found k (omega arith) p (below-suc P (suc k) left no_last m)
LastAt-suc P left no_last (LastAt.missing m) =
    LastAt.missing (λ j. below-suc P 0 left no_last (λ i a. m i) j (omega arith))

strrchr_from-LastAt :
    (s : List ℕ) (cb left : ℕ) → LastAt (CharAt s cb) left (strrchr_from s cb left)
unfolding strrchr_from
strrchr_from-LastAt s cb zero = LastAt.missing (λ j k. absurd (omega arith))
strrchr_from-LastAt s cb (suc left) = elim (Bool-cases (get_or s left 0 == cb)) [
  | inl e ↦ rw e (LastAt.found left (omega arith) (ground arith) (λ j a b. absurd (omega arith)))
  | inr e ↦
      rw e
        (LastAt-suc (CharAt s cb) left (λ o. absurd (ground arith)) (strrchr_from-LastAt s cb left))
]

-- `strrchr` returns the last place of the character before the terminator, or NULL.
pub strrchr-LastAt : (s : List ℕ) (c : ℕ) → LastAt (CharAt s (c % 256)) (strlen s) (strrchr s c)
unfolding strrchr
strrchr-LastAt s c = strrchr_from-LastAt s (c % 256) (strlen s)

-- The characters before the terminator, in upper case.
pub upper : List ℕ → List ℕ
upper [] = []
upper (x ∷ s) = if x == 0 then [] else toupper x ∷ upper s

-- `strcasecmp` returns 0 exactly when the strings in upper case are equal.
pub strcasecmp-zero_iff : (s t : List ℕ) → (is_zero (strcasecmp s t) ≡ true) ↔ (upper s ≡ upper t)
unfolding strcasecmp upper
strcasecmp-zero_iff [] [] = (λ h. refl, λ h. refl)
strcasecmp-zero_iff [] (b ∷ t) = ground arith
strcasecmp-zero_iff (a ∷ s) [] = ground arith
strcasecmp-zero_iff (a ∷ s) (b ∷ t) =
    ground (arith, strcasecmp-zero_iff s t, ap toupper {x = a} {y = b})
