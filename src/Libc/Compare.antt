-- ===== src/Libc/Compare.antt =====
-- lib/libc/string: strlen.c, strcmp.c, strncmp.c.
-- A C string is the list of its characters from the pointer on. It ends at a 0, or at the list's
-- end, which stands for a 0 behind it; no function here reads past that. `char` is unsigned.
use slof.Prelude.{ℕ, zero, suc, ◌≤◌, ◌<◌, ◌≡◌, ◌↔◌, ◌==◌, arith, refl}
use slof.Prelude.{true, ◌||◌, List, [], ◌∷◌, length, if◌then◌else◌}
use slof.Prelude.Int.{ℤ, pos, sub_ℕ, is_zero}

-- `len` is of type `int`: the model is for strings of fewer than 2 ^ 31 characters.
unfoldable pub strlen : List ℕ → ℕ
strlen [] = 0
strlen (c ∷ s) = if c == 0 then 0 else suc (strlen s)

unfoldable pub strcmp : List ℕ → List ℕ → ℤ
strcmp [] [] = pos 0
strcmp [] (b ∷ t) = sub_ℕ 0 b
strcmp (a ∷ s) [] = sub_ℕ a 0
strcmp (a ∷ s) (b ∷ t) =
    if a == 0 || b == 0 then sub_ℕ a b else if a == b then strcmp s t else sub_ℕ a b

-- The loop of `strncmp` when `m` more rounds may be made.
unfoldable pub strncmp_loop : List ℕ → List ℕ → ℕ → ℤ
strncmp_loop [] [] m = pos 0
strncmp_loop [] (b ∷ t) m = sub_ℕ 0 b
strncmp_loop (a ∷ s) [] m = sub_ℕ a 0
strncmp_loop (a ∷ s) (b ∷ t) zero = sub_ℕ a b
strncmp_loop (a ∷ s) (b ∷ t) (suc m) =
    if a == 0 || b == 0 then sub_ℕ a b else if a == b then strncmp_loop s t m else sub_ℕ a b

unfoldable pub strncmp : List ℕ → List ℕ → ℕ → ℤ
strncmp s t zero = pos 0
strncmp s t (suc m) = strncmp_loop s t m

-- The characters before the terminator, at most `n` of them.
unfoldable pub prefix : ℕ → List ℕ → List ℕ
prefix zero s = []
prefix (suc n) [] = []
prefix (suc n) (c ∷ s) = if c == 0 then [] else c ∷ prefix n s

strncmp_loop_zero :
    (m : ℕ) (s t : List ℕ)
    → (is_zero (strncmp_loop s t m) ≡ true) ↔ (prefix (suc m) s ≡ prefix (suc m) t)
unfolding strncmp_loop prefix
strncmp_loop_zero m [] [] = (λ h. refl, λ h. refl)
strncmp_loop_zero m [] (b ∷ t) = ground arith
strncmp_loop_zero m (a ∷ s) [] = ground arith
strncmp_loop_zero zero (a ∷ s) (b ∷ t) = ground arith
strncmp_loop_zero (suc m) (a ∷ s) (b ∷ t) = ground (arith, strncmp_loop_zero m s t)

-- `strncmp` returns 0 exactly when the strings agree in their first `n` characters, or up to a
-- terminator before those.
pub strncmp-zero_iff :
    (n : ℕ) (s t : List ℕ) → (is_zero (strncmp s t n) ≡ true) ↔ (prefix n s ≡ prefix n t)
unfolding strncmp prefix
strncmp-zero_iff zero s t = (λ h. refl, λ h. refl)
strncmp-zero_iff (suc m) s t = strncmp_loop_zero m s t

-- The characters before the terminator.
unfoldable pub chars : List ℕ → List ℕ
chars [] = []
chars (c ∷ s) = if c == 0 then [] else c ∷ chars s

pub length-chars : (s : List ℕ) → length (chars s) ≡ strlen s
unfolding chars strlen
length-chars [] = refl
length-chars (c ∷ s) = ground (arith, length-chars s)

-- `strcmp` returns 0 exactly when the strings agree up to their terminators.
pub strcmp-zero_iff : (s t : List ℕ) → (is_zero (strcmp s t) ≡ true) ↔ (chars s ≡ chars t)
unfolding strcmp chars
strcmp-zero_iff [] [] = (λ h. refl, λ h. refl)
strcmp-zero_iff [] (b ∷ t) = ground arith
strcmp-zero_iff (a ∷ s) [] = ground arith
strcmp-zero_iff (a ∷ s) (b ∷ t) = ground (arith, strcmp-zero_iff s t)

strncmp_loop-eq-strcmp : (m : ℕ) (s t : List ℕ) → strlen s ≤ m → strncmp_loop s t m ≡ strcmp s t
unfolding strncmp_loop strcmp strlen
strncmp_loop-eq-strcmp m [] [] h = refl
strncmp_loop-eq-strcmp m [] (b ∷ t) h = refl
strncmp_loop-eq-strcmp m (a ∷ s) [] h = refl
strncmp_loop-eq-strcmp zero (a ∷ s) (b ∷ t) h = ground arith
strncmp_loop-eq-strcmp (suc m) (a ∷ s) (b ∷ t) h = ground (arith, strncmp_loop-eq-strcmp m s t)

-- `strncmp` with a bound past the first string's terminator is `strcmp`.
pub strncmp-eq-strcmp : (n : ℕ) (s t : List ℕ) → strlen s < n → strncmp s t n ≡ strcmp s t
unfolding strncmp
strncmp-eq-strcmp zero s t h = absurd (omega arith)
strncmp-eq-strcmp (suc m) s t h = strncmp_loop-eq-strcmp m s t (omega arith)
