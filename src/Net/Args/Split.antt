-- ===== src/Net/Args/Split.antt =====
-- lib/libnet/args.c: the arguments of a string as a list, and the calls that count and find them.
use slof.Prelude.{
  ℕ, zero, suc, ◌+◌, ◌-◌, ◌≤◌, ◌<◌, ◌≡◌, ◌==◌, ◌∙◌, ap, sym, arith, refl, inl, inr, Bool-cases,
}
use slof.Prelude.{
  true, false, Option, none, some, List, [], ◌∷◌, ◌||◌, length, get_or, if◌then◌else◌,
}
use slof.Libc.Search.{drop}
use slof.Net.Args.{skip_arg, get_arg_ptr, count_from, get_args_count, get_arg_length}

-- The first argument, and those behind the commas.
unfoldable pub split : List ℕ → List ℕ × List (List ℕ)
split [] = ([], [])
split (c ∷ s) =
    let (first, others) = split s in
    if c == 0 then ([], []) else if c == b',' then ([], first ∷ others) else (c ∷ first, others)

unfoldable pub args : List ℕ → List (List ℕ)
args s = (split s).0 ∷ (split s).1

-- The arguments from the one of the index on, where there is such a one.
unfoldable pub args_from : ℕ → List (List ℕ) → Option (List (List ℕ))
args_from index [] = none
args_from zero (a ∷ more) = some (a ∷ more)
args_from (suc index) (a ∷ more) = args_from index more

-- What a call that returns a pointer finds there.
abbrev pub args_at : Option (List ℕ) → Option (List (List ℕ))
args_at none = none
args_at (some s) = some (args s)

skip_arg-length : (s : List ℕ) → length (skip_arg s) ≤ length s
unfolding skip_arg
skip_arg-length [] = omega arith
skip_arg-length (c ∷ s) = ground (arith, skip_arg-length s)

-- Behind the first argument stands a comma where others follow, and a terminator where none do.
skip_arg-split :
    (s : List ℕ)
    → (split s).1 ≡ (if get_or (skip_arg s) 0 0 == 0 then [] else args (drop 1 (skip_arg s)))
unfolding skip_arg split args
skip_arg-split [] = refl
skip_arg-split (c ∷ s) = elim (Bool-cases (c == 0)) [
  | inl e ↦ ground arith
  | inr e ↦ elim (Bool-cases (c == b',')) [
    | inl f ↦ rw (e, f) (ground arith)
    | inr f ↦ rw (e, f) (skip_arg-split s)
  ]
]

no_others : (s : List ℕ) → (get_or (skip_arg s) 0 0 == 0) ≡ true → (split s).1 ≡ []
no_others s e = rw (skip_arg-split s, e)

others :
    (s : List ℕ) → (get_or (skip_arg s) 0 0 == 0) ≡ false → (split s).1 ≡ args (drop 1 (skip_arg s))
others s e = rw (skip_arg-split s, e)

drop-shorter : (s : List ℕ) → (get_or s 0 0 == 0) ≡ false → length (drop 1 s) < length s
drop-shorter [] e = absurd (ground arith)
drop-shorter (c ∷ s) e = omega arith

-- `get_arg_ptr` returns NULL exactly where the index is past the last argument, and otherwise a
-- pointer to a string of the arguments from that one on.
pub get_arg_ptr-args :
    (s : List ℕ) (index : ℕ) → args_at (get_arg_ptr s index) ≡ args_from index (args s)
unfolding get_arg_ptr args_from args
get_arg_ptr-args s zero = refl
get_arg_ptr-args s (suc index) = elim (Bool-cases (get_or (skip_arg s) 0 0 == 0)) [
  | inl e ↦ rw (e, no_others s e) (refl)
  | inr e ↦ rw (e, others s e) (get_arg_ptr-args (drop 1 (skip_arg s)) index)
]

-- `get_arg_length` is the length of the first argument.
pub get_arg_length-split : (s : List ℕ) → get_arg_length s ≡ length (split s).0
unfolding get_arg_length split
get_arg_length-split [] = refl
get_arg_length-split (c ∷ s) = ground (arith, get_arg_length-split s)

count_from-args :
    (fuel : ℕ) (s : List ℕ) (count : ℕ)
    → length s < fuel
    → count_from fuel s count ≡ some (count + length (split s).1)
unfolding count_from get_arg_ptr
count_from-args zero s count h = absurd (omega arith)
count_from-args (suc fuel) s count h = elim (Bool-cases (get_or (skip_arg s) 0 0 == 0)) [
  | inl e ↦ rw (count_from, e, no_others s e) (ap some (omega arith))
  | inr e ↦
      rw (count_from, e, others s e)
        (let t = drop 1 (skip_arg s) in
          count_from-args fuel t (count + 1)
            (omega (arith, h, skip_arg-length s, drop-shorter (skip_arg s) e))
          ∙ ap some (shift t))
]
  where
    shift : (t : List ℕ) → count + 1 + length (split t).1 ≡ count + length (args t)
    shift t = unfold args in omega arith

-- `get_args_count` ends and returns the number of the arguments.
pub get_args_count-args : (s : List ℕ) → get_args_count s ≡ some (length (args s))
unfolding get_args_count args
get_args_count-args s = count_from-args (suc (length s)) s 1 (omega arith) ∙ ap some (omega arith)

skip_arg-suffix :
    (s : List ℕ) (i : ℕ) → get_or (skip_arg s) i 0 ≡ get_or s (length s - length (skip_arg s) + i) 0
unfolding skip_arg
skip_arg-suffix [] i = refl
skip_arg-suffix (c ∷ s) i = elim (Bool-cases (c == b',' || c == 0)) [
  | inl e ↦
      let none_passed : suc (length s) - suc (length s) + i ≡ i = omega arith in rw (e, none_passed)
  | inr e ↦
      let passed : suc (length s) - length (skip_arg s) + i
          ≡ suc (length s - length (skip_arg s) + i) =
        omega (arith, skip_arg-length s) in
      rw (e, passed) (skip_arg-suffix s i)
]

-- The pointer that `get_arg_ptr` returns points into the string.
pub record PointsInto (s rest : List ℕ) : Type 0 where
  pub inside : length rest ≤ length s
  pub same : (i : ℕ) → get_or rest i 0 ≡ get_or s (length s - length rest + i) 0

PointsInto-drop :
    (s t : List ℕ) → (get_or s 0 0 == 0) ≡ false → PointsInto (drop 1 s) t → PointsInto s t
PointsInto-drop [] t e p = absurd (ground arith)
PointsInto-drop (c ∷ s) t e p = record {
  inside = omega (arith, p.inside);
  same = λ i.
      (let later : suc (length s) - length t + i ≡ suc (length s - length t + i) =
          omega (arith, p.inside) in
        rw later (p.same i));
}

PointsInto-trans : (s t u : List ℕ) → PointsInto s t → PointsInto t u → PointsInto s u
PointsInto-trans s t u p q = record {
  inside = omega (arith, p.inside, q.inside);
  same = λ i.
      (q.same i
        ∙ p.same (length t - length u + i)
        ∙ ap (λ k. get_or s k 0) (omega (arith, p.inside, q.inside)));
}

skip_arg-PointsInto : (s : List ℕ) → PointsInto s (skip_arg s)
skip_arg-PointsInto s = record { inside = skip_arg-length s; same = skip_arg-suffix s }

PointsInto-refl : (s : List ℕ) → PointsInto s s
PointsInto-refl s = record {
  inside = omega arith;
  same = λ i. ap (λ k. get_or s k 0) (omega arith);
}

some-inj : (s t : List ℕ) → some s ≡ some t → s ≡ t
some-inj s t e = ground arith

pub get_arg_ptr-PointsInto :
    (s : List ℕ) (index : ℕ) (rest : List ℕ) → get_arg_ptr s index ≡ some rest → PointsInto s rest
unfolding get_arg_ptr
get_arg_ptr-PointsInto s zero rest e = rw (sym (some-inj s rest e)) (PointsInto-refl s)
get_arg_ptr-PointsInto s (suc index) rest e = elim (Bool-cases (get_or (skip_arg s) 0 0 == 0)) [
  | inl z ↦ absurd (ground arith)
  | inr z ↦ PointsInto-trans s (skip_arg s) rest (skip_arg-PointsInto s) (
      PointsInto-drop (skip_arg s) rest z
        (get_arg_ptr-PointsInto (drop 1 (skip_arg s)) index rest (rw z at e)))
]
