-- ===== src/Nvram/Env/RoundTrip.antt =====
-- lib/libnvram/envvar.c: `nvram_get_env` after `nvram_add_env`.
use slof.Prelude.{ℕ, suc, ◌+◌, ◌≡◌, ◌≢◌, sym, arith, refl}
use slof.Prelude.{true, false, Option, some, List, [], ◌∷◌, ◌++◌, length}
use slof.Prelude.Int.{is_zero}
use slof.Libc.Compare.{strncmp, prefix, strncmp-zero_iff}
use slof.Nvram.Store.{Nvram}
use slof.Nvram.Partition.{Partition}
use slof.Nvram.Env.{get_env, add_env}
use slof.Nvram.Env.Get.{
  IsEnv, Returned, null, string, AllEquals, find_var, value_of, has_equals, get_env-Returned,
}
use slof.Nvram.Env.Add.{CanAdd, add_env-IsEnv}
use slof.Nvram.Env.Append.{assignment}

-- A name: characters other than a terminator and '='.
abbrev pub IsName : List ℕ → Type 0
IsName [] = Unit {0}
IsName (c ∷ cs) = (c ≢ 0) × (c ≢ b'=') × IsName cs

-- No variable starts with the characters of the name.
abbrev pub NoneStarts : List (List ℕ) → List ℕ → Type 0
NoneStarts [] name = Unit {0}
NoneStarts (cs ∷ es) name = (is_zero (strncmp name cs (length name)) ≡ false) × NoneStarts es name

prefix-append : (xs ys : List ℕ) → prefix (length xs) (xs ++ ys) ≡ prefix (length xs) xs
unfolding prefix
prefix-append [] ys = refl
prefix-append (x ∷ xs) ys = ground (arith, prefix-append xs ys)

starts : (name value : List ℕ) → is_zero (strncmp name (assignment name value) (length name)) ≡ true
starts name value =
    (strncmp-zero_iff (length name) name (assignment name value)).1
      (sym (prefix-append name (b'=' ∷ value)))

not_empty :
    (name : List ℕ) → IsName name → name ≢ [] → is_zero (strncmp name [] (length name)) ≡ false
not_empty [] n ne = absurd (ne refl)
not_empty (c ∷ cs) n ne = ground (arith, strncmp-zero_iff (suc (length cs)) (c ∷ cs) [], nonempty)
  where
    nonempty : prefix (suc (length cs)) (c ∷ cs) ≢ prefix (suc (length cs)) []
    nonempty = unfold prefix in ground arith

value_of-assignment : (name value : List ℕ) → IsName name → value_of (assignment name value) ≡ value
unfolding value_of
value_of-assignment [] value n = refl
value_of-assignment (c ∷ cs) value n = ground (arith, value_of-assignment cs value n.2)

has_equals-assignment : (name value : List ℕ) → has_equals (assignment name value) ≡ true
unfolding has_equals
has_equals-assignment [] value = refl
has_equals-assignment (c ∷ cs) value = ground (arith, has_equals-assignment cs value)

AllEquals-append :
    (es : List (List ℕ)) (cs : List ℕ)
    → AllEquals es
    → has_equals cs ≡ true
    → AllEquals (es ++ (cs ∷ []))
AllEquals-append [] cs q h = (h, tt)
AllEquals-append (ds ∷ es) cs q h = (q.0, AllEquals-append es cs q.1 h)

find_var-append :
    (es : List (List ℕ)) (name value : List ℕ)
    → NoneStarts es name
    → find_var (es ++ (assignment name value ∷ [])) name (length name)
      ≡ some (assignment name value)
unfolding find_var
find_var-append [] name value n = rw (starts name value)
find_var-append (ds ∷ es) name value n = rw (n.0) (find_var-append es name value n.1)

Returned-some :
    (cs : List ℕ) (v : Option (List ℕ)) (r : Option (Option (List ℕ)))
    → v ≡ some cs
    → Returned v r
    → (tail : List ℕ) × (r ≡ some (some (value_of cs ++ (0 ∷ tail))))
Returned-some cs v r e null = absurd (ground arith)
Returned-some cs v r e (string ds tail q) = (tail, ground arith)

-- A partition at an offset other than 0, in a memory of 8 to 2 ^ 20 - 1 bytes, holds a valid list of
-- variables `name=value`, none of which starts with the characters of a new name, and has room behind
-- its end, with the two bytes after the new variable clear. The variable has at most 256 characters,
-- none of them a terminator, and its name is not empty and has no '='. Then `nvram_add_env` succeeds,
-- and `nvram_get_env` of the name returns the value and a terminator.
pub get_env-add_env :
    {nv : Nvram} (part : Partition) (es : List (List ℕ)) (e : ℕ) (name value temp : List ℕ)
    → part.addr ≢ 0
    → IsName name
    → name ≢ []
    → IsEnv nv part.addr es e
    → AllEquals es
    → NoneStarts es name
    → CanAdd nv part e name value
    → (nv' : Nvram) × (add_env nv part name (length name) value (length value) ≡ (0, nv'))
      × (tail : List ℕ) × (get_env temp nv' part name (length name)
          ≡ some (some (value ++ (0 ∷ tail))))
get_env-add_env {nv} part es e name value temp pos n ne v q fresh c =
    let (nv', added, same_size, v') = add_env-IsEnv part es e name value v c in
    let got =
      get_env-Returned nv' (omega (arith, same_size, c.small)) name (length name) part
        (es ++ (assignment name value ∷ [])) (e + length (assignment name value) + 1) temp pos
        (not_empty name n ne) v'
        (AllEquals-append es (assignment name value) q (has_equals-assignment name value)) in
    let (tail, result) =
      Returned-some (assignment name value) _ _ (find_var-append es name value fresh) got in
    (nv', added, tail, rw (value_of-assignment name value n) at result)
