-- ===== src/Nvram/Env/Append.antt =====
-- lib/libnvram/envvar.c: a variable that is written behind a list of variables.
use slof.Prelude.{ℕ, zero, suc, ◌+◌, ◌-◌, ◌≤◌, ◌<◌, ◌≡◌, ◌≢◌, ◌==◌, ◌∙◌, arith, refl}
use slof.Prelude.{List, [], ◌∷◌, ◌++◌, ltb, get_or, length, if◌then◌else◌}
use slof.Nvram.Store.{Nvram, read_byte}
use slof.Nvram.Store.Laws.{IsSmall, read_byte-in}
use slof.Nvram.Env.Get.{SpelledAt, IsEnv, IsEnv-le}

-- Characters that a variable may have.
abbrev pub IsText : List ℕ → Type 0
IsText [] = Unit {0}
IsText (c ∷ cs) = (c ≢ 0) × (c < 256) × IsText cs

pub SpelledAt-bytes :
    (nv : Nvram) (cs : List ℕ) (w : ℕ)
    → IsSmall nv
    → IsText cs
    → w + length cs < nv.size
    → ((i : ℕ) → i ≤ length cs → nv.bytes (w + i) ≡ get_or cs i 0)
    → SpelledAt nv w cs
SpelledAt-bytes nv [] w s t h b =
    let here : w + 0 ≡ w = omega arith in
    (omega arith, read_byte-in nv w s (omega arith) ∙ (rw here at (b 0 (omega arith))))
SpelledAt-bytes nv (c ∷ cs) w s (ne, byte, t) h b =
    let here : w + 0 ≡ w = omega arith in
    (
      omega arith,
      read_byte-in nv w s (omega arith) ∙ (rw here at (b 0 (omega arith))),
      ne,
      SpelledAt-bytes nv cs (w + 1) s t (omega arith) λ i k.
          (let shift : w + 1 + i ≡ w + suc i = omega arith in rw shift (b (suc i) (omega arith))),
    )

SpelledAt-same :
    (nv nv' : Nvram) (cs : List ℕ) (w e : ℕ)
    → nv'.size ≡ nv.size
    → w + length cs < e
    → ((j : ℕ) → j < e → read_byte nv' j ≡ read_byte nv j)
    → SpelledAt nv w cs
    → SpelledAt nv' w cs
SpelledAt-same nv nv' [] w e z h b (l, r) = (omega arith, b w (omega arith) ∙ r)
SpelledAt-same nv nv' (c ∷ cs) w e z h b (l, r, ne, sp) = (
  omega arith,
  b w (omega arith) ∙ r,
  ne,
  SpelledAt-same nv nv' cs (w + 1) e z (omega arith) b sp,
)

-- A variable that is written at the end, with zeros behind it, is appended.
pub IsEnv-append :
    (nv nv' : Nvram) (es : List (List ℕ)) (cs : List ℕ) (w e : ℕ)
    → nv'.size ≡ nv.size
    → ((j : ℕ) → j < e → read_byte nv' j ≡ read_byte nv j)
    → cs ≢ []
    → length cs ≤ 256
    → SpelledAt nv' e cs
    → e + length cs + 1 < nv.size
    → read_byte nv' (e + length cs + 1) ≡ 0
    → IsEnv nv w es e
    → IsEnv nv' w (es ++ (cs ∷ [])) (e + length cs + 1)
IsEnv-append nv nv' [] cs w e z b ne short sp l r (q, _, _) =
    (ne, short, rw q sp, (rw q refl, omega (arith, z), rw q r))
IsEnv-append nv nv' (ds ∷ es) cs w e z b ne short sp l r (n, k, d, v) = (
  n,
  k,
  SpelledAt-same nv nv' ds w e z (omega (arith, IsEnv-le nv (w + length ds + 1) es e v)) b d,
  IsEnv-append nv nv' es cs (w + length ds + 1) e z b ne short sp l r v,
)

pub get_or-append :
    (xs ys : List ℕ) (i : ℕ)
    → get_or (xs ++ ys) i 0
      ≡ (if ltb i (length xs) then get_or xs i 0 else get_or ys (i - length xs) 0)
get_or-append [] ys i = let here : i - 0 ≡ i = omega arith in rw here (ground arith)
get_or-append (x ∷ xs) ys zero = ground arith
get_or-append (x ∷ xs) ys (suc i) =
    let here : suc i - suc (length xs) ≡ i - length xs = omega arith in
    rw here (ground (arith, get_or-append xs ys i))

pub get_or-IsText : (xs : List ℕ) (i : ℕ) → IsText xs → get_or xs i 0 < 256
get_or-IsText [] i t = omega arith
get_or-IsText (x ∷ xs) zero t = t.1
get_or-IsText (x ∷ xs) (suc i) t = get_or-IsText xs i t.2

pub IsText-append : (xs ys : List ℕ) → IsText xs → IsText ys → IsText (xs ++ ys)
IsText-append [] ys t u = u
IsText-append (x ∷ xs) ys (a, b, t) u = (a, b, IsText-append xs ys t u)

-- The variable as it is stored.
abbrev pub assignment : List ℕ → List ℕ → List ℕ
assignment name value = name ++ (b'=' ∷ value)

pub get_or-cons :
    (x : ℕ) (xs : List ℕ) (i : ℕ)
    → get_or (x ∷ xs) i 0 ≡ (if i == 0 then x else get_or xs (i - 1) 0)
get_or-cons x xs zero = refl
get_or-cons x xs (suc i) = let here : suc i - 1 ≡ i = omega arith in rw here (ground arith)

pub length-assignment :
    (name value : List ℕ) → length (assignment name value) ≡ length name + length value + 1
length-assignment [] value = omega arith
length-assignment (c ∷ name) value = omega (arith, length-assignment name value)

pub assignment-ne-nil : (name value : List ℕ) → assignment name value ≢ []
assignment-ne-nil [] value = ground arith
assignment-ne-nil (c ∷ name) value = ground arith

pub get_or-end : (xs : List ℕ) (i : ℕ) → length xs ≤ i → get_or xs i 0 ≡ 0
get_or-end [] i h = refl
get_or-end (x ∷ xs) zero h = absurd (omega arith)
get_or-end (x ∷ xs) (suc i) h = get_or-end xs i (omega arith)
