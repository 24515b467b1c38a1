-- ===== src/Tpm/Lists.antt =====
-- lib/libtpm: lemmas on the lists of bytes.
use slof.Prelude.{ℕ, zero, suc, ◌+◌, ◌-◌, ◌≤◌, ◌<◌, ◌≡◌, ◌∙◌, ap, arith, refl}
use slof.Prelude.{List, [], ◌∷◌, ◌++◌, length, replicate}
use slof.Libc.Search.{drop}
use slof.Tpm.{take, bytes_of}

pub take-append : (xs ys : List ℕ) (k : ℕ) → take (length xs + k) (xs ++ ys) ≡ xs ++ take k ys
take-append [] ys k = let index_eq : 0 + k ≡ k = omega arith in ap (λ n. take n ys) index_eq
take-append (x ∷ xs) ys k =
    let index_eq : suc (length xs) + k ≡ suc (length xs + k) = omega arith in
    ap (λ n. take n (x ∷ (xs ++ ys))) index_eq ∙ ap (λ l. x ∷ l) (take-append xs ys k)

pub take-replicate : (k n : ℕ) (a : ℕ) → k ≤ n → take k (replicate n a) ≡ replicate k a
take-replicate zero n a h = refl
take-replicate (suc k) zero a h = absurd (omega (arith, h))
take-replicate (suc k) (suc n) a h = ap (λ l. a ∷ l) (take-replicate k n a (omega (arith, h)))

pub take-drop : (k : ℕ) (xs : List ℕ) → take k xs ++ drop k xs ≡ xs
take-drop zero xs = refl
take-drop (suc k) [] = refl
take-drop (suc k) (x ∷ xs) = ap (λ l. x ∷ l) (take-drop k xs)

pub length-take : (k : ℕ) (xs : List ℕ) → k ≤ length xs → length (take k xs) ≡ k
length-take zero xs h = refl
length-take (suc k) [] h = absurd (omega (arith, h))
length-take (suc k) (x ∷ xs) h = ap suc (length-take k xs (omega (arith, h)))

pub replicate-add : (k n : ℕ) (a : ℕ) → replicate k a ++ replicate n a ≡ replicate (k + n) a
replicate-add zero n a = let index_eq : n ≡ 0 + n = omega arith in ap (λ i. replicate i a) index_eq
replicate-add (suc k) n a =
    let index_eq : suc (k + n) ≡ suc k + n = omega arith in
    ap (λ l. a ∷ l) (replicate-add k n a) ∙ ap (λ i. replicate i a) index_eq

pub length-bytes_of : (k v : ℕ) → length (bytes_of k v) ≡ k
unfolding bytes_of
length-bytes_of zero v = refl
length-bytes_of (suc k) v = ap suc (length-bytes_of k v)

pub take-within : (k : ℕ) (xs ys : List ℕ) → k ≤ length xs → take k (xs ++ ys) ≡ take k xs
take-within zero xs ys h = refl
take-within (suc k) [] ys h = absurd (omega (arith, h))
take-within (suc k) (x ∷ xs) ys h = ap (λ l. x ∷ l) (take-within k xs ys (omega (arith, h)))

-- A bit and zeros behind the message, cut.
pub take-marked :
    (k n : ℕ) (rest : List ℕ)
    → length rest < k
    → k ≤ length rest + 1 + n
    → take k (rest ++ (0x80 ∷ replicate n 0)) ≡ rest ++ (0x80 ∷ replicate (k - length rest - 1) 0)
take-marked k n rest lt le =
    let index_eq : k ≡ length rest + suc (k - length rest - 1) = omega (arith, lt) in
    ap (λ i. take i (rest ++ (0x80 ∷ replicate n 0))) index_eq
    ∙ take-append rest (0x80 ∷ replicate n 0) (suc (k - length rest - 1))
    ∙ ap (λ l. rest ++ (0x80 ∷ l))
        (take-replicate (k - length rest - 1) n 0 (omega (arith, lt, le)))

pub length-drop : (k : ℕ) (xs : List ℕ) → k ≤ length xs → k + length (drop k xs) ≡ length xs
length-drop zero xs h = omega arith
length-drop (suc k) [] h = absurd (omega (arith, h))
length-drop (suc k) (x ∷ xs) h = omega (arith, length-drop k xs (omega (arith, h)))
