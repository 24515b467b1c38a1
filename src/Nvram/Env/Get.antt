-- ===== src/Nvram/Env/Get.antt =====
-- lib/libnvram/envvar.c: the variables of a partition as a list, and what `nvram_get_env` returns.
use slof.Prelude.{
  ℕ, zero, suc, ◌+◌, ◌-◌, ◌≤◌, ◌<◌, ◌≡◌, ◌≢◌, ◌==◌, arith, refl, inl, inr, Bool-cases,
}
use slof.Prelude.{Bool, true, false, Option, none, some, List, [], ◌∷◌, ◌++◌, length, if◌then◌else◌}
use slof.Prelude.Int.{is_zero}
use slof.Libc.Compare.{strncmp, prefix, strncmp-zero_iff}
use slof.Libc.Search.{drop}
use slof.Nvram.Store.{Nvram, u32, read_byte}
use slof.Nvram.Store.Laws.{IsSmall}
use slof.Nvram.Partition.{Partition}
use slof.Nvram.Env.{read_entry, get_env_from, get_env, equals_pos, is_empty}

-- The characters `cs` and a terminator stand from `w` on.
abbrev pub SpelledAt : Nvram → ℕ → List ℕ → Type 0
SpelledAt nv w [] = (w < nv.size) × (read_byte nv w ≡ 0)
SpelledAt nv w (c ∷ cs) = (w < nv.size) × (read_byte nv w ≡ c) × (c ≢ 0) × SpelledAt nv (w + 1) cs

-- The variables `es` stand one behind another from `w` on, and a further 0 at `e`.
abbrev pub IsEnv : Nvram → ℕ → List (List ℕ) → ℕ → Type 0
IsEnv nv w [] e = (w ≡ e) × (w < nv.size) × (read_byte nv w ≡ 0)
IsEnv nv w (cs ∷ es) e =
    (cs ≢ []) × (length cs ≤ 256) × SpelledAt nv w cs × IsEnv nv (w + length cs + 1) es e

pub SpelledAt-lt : (nv : Nvram) (w : ℕ) (cs : List ℕ) → SpelledAt nv w cs → w < nv.size
SpelledAt-lt nv w [] sp = sp.0
SpelledAt-lt nv w (c ∷ cs) sp = sp.0

pub IsEnv-lt : (nv : Nvram) (w : ℕ) (es : List (List ℕ)) (e : ℕ) → IsEnv nv w es e → w < nv.size
IsEnv-lt nv w [] e v = v.1
IsEnv-lt nv w (cs ∷ es) e v = SpelledAt-lt nv w cs v.2

pub IsEnv-le : (nv : Nvram) (w : ℕ) (es : List (List ℕ)) (e : ℕ) → IsEnv nv w es e → w ≤ e
IsEnv-le nv w [] e v = omega (arith, v.0)
IsEnv-le nv w (cs ∷ es) e v = omega (arith, IsEnv-le nv (w + length cs + 1) es e v.3)

read_entry-SpelledAt :
    (left : ℕ) (nv : Nvram) (w : ℕ) (cs : List ℕ)
    → IsSmall nv
    → length cs ≤ left
    → SpelledAt nv w cs
    → read_entry left nv w ≡ (cs, w + length cs + 1)
unfolding read_entry
read_entry-SpelledAt zero nv w [] s h sp = ground arith
read_entry-SpelledAt zero nv w (c ∷ cs) s h sp = absurd (omega arith)
read_entry-SpelledAt (suc left) nv w [] s h sp = ground arith
read_entry-SpelledAt (suc left) nv w (c ∷ cs) s h (b, e, ne, sp) =
    let step : u32 (w + 1) ≡ w + 1 = omega arith in
    rw (step, read_entry-SpelledAt left nv (w + 1) cs s (omega arith) sp) (ground arith)

-- What stands behind the first '=' of a variable.
unfoldable pub value_of : List ℕ → List ℕ
value_of [] = []
value_of (c ∷ cs) = if c == b'=' then cs else value_of cs

-- The variable has a '='.
unfoldable pub has_equals : List ℕ → Bool
has_equals [] = false
has_equals (c ∷ cs) = if c == b'=' then true else has_equals cs

drop-equals :
    (cs rest : List ℕ)
    → has_equals cs ≡ true
    → drop (equals_pos cs + 1) (cs ++ rest) ≡ value_of cs ++ rest
unfolding equals_pos value_of has_equals
drop-equals [] rest h = absurd (ground arith)
drop-equals (c ∷ cs) rest h = elim (Bool-cases (c == b'=')) [
  | inl e ↦ rw e (refl)
  | inr e ↦ rw e (
      let step : suc (equals_pos cs) + 1 ≡ suc (equals_pos cs + 1) = omega arith in
      rw step (drop-equals cs rest (rw e at h)))
]

-- The first variable whose first `evlen` characters are those of the name.
unfoldable pub find_var : List (List ℕ) → List ℕ → ℕ → Option (List ℕ)
find_var [] envvar evlen = none
find_var (cs ∷ es) envvar evlen =
    if is_zero (strncmp envvar cs evlen) then some cs else find_var es envvar evlen

-- A terminator and anything behind it do not change a comparison.
prefix-terminator : (n : ℕ) (cs rest : List ℕ) → prefix n (cs ++ (0 ∷ rest)) ≡ prefix n cs
unfolding prefix
prefix-terminator zero cs rest = refl
prefix-terminator (suc n) [] rest = refl
prefix-terminator (suc n) (c ∷ cs) rest = ground (arith, prefix-terminator n cs rest)

strncmp-terminator :
    (s cs rest : List ℕ) (n : ℕ)
    → is_zero (strncmp s (cs ++ (0 ∷ rest)) n) ≡ is_zero (strncmp s cs n)
strncmp-terminator s cs rest n = ground (
  arith,
  strncmp-zero_iff n s (cs ++ (0 ∷ rest)),
  strncmp-zero_iff n s cs,
  prefix-terminator n cs rest,
)

-- What `nvram_get_env` returns for a variable: its value, with a terminator and what was left in
-- `temp`; or NULL for none.
pub data Returned : Option (List ℕ) → Option (Option (List ℕ)) → Type 0 where
  null : Returned none (some none)
  string :
      (cs tail : List ℕ)
      → {o : List ℕ} → o ≡ value_of cs ++ (0 ∷ tail)
      → Returned (some cs) (some (some o))

abbrev pub AllEquals : List (List ℕ) → Type 0
AllEquals [] = Unit {0}
AllEquals (cs ∷ es) = (has_equals cs ≡ true) × AllEquals es

is_empty_cons : (cs : List ℕ) → cs ≢ [] → is_empty cs ≡ false
is_empty_cons [] ne = absurd (ne refl)
is_empty_cons (c ∷ cs) ne = refl

module _ (nv : Nvram) (s : IsSmall nv) (envvar : List ℕ) (evlen : ℕ) where
  -- One round of the loop at a variable, whatever the later rounds return.
  get_env-step :
      (cs : List ℕ) (es : List (List ℕ)) (tail : List ℕ) (rest : Option (Option (List ℕ)))
      → cs ≢ []
      → has_equals cs ≡ true
      → Returned (find_var es envvar evlen) rest
      → Returned (find_var (cs ∷ es) envvar evlen) (
          if is_zero (strncmp envvar (cs ++ (0 ∷ tail)) evlen)
          then some (some (drop (equals_pos cs + 1) (cs ++ (0 ∷ tail))))
          else if is_empty cs
          then some none
          else rest)
  unfolding find_var
  get_env-step cs es tail rest ne h r = elim (Bool-cases (is_zero (strncmp envvar cs evlen))) [
    | inl e ↦
        rw (strncmp-terminator envvar cs tail evlen, e)
          (string cs tail (drop-equals cs (0 ∷ tail) h))
    | inr e ↦ rw (strncmp-terminator envvar cs tail evlen, e, is_empty_cons cs ne) r
  ]

  get_env_from-Returned :
      (fuel : ℕ) (es : List (List ℕ)) (w e : ℕ) (temp : List ℕ)
      → is_zero (strncmp envvar [] evlen) ≡ false
      → IsEnv nv w es e
      → AllEquals es
      → nv.size - w < fuel
      → Returned (find_var es envvar evlen) (get_env_from fuel nv envvar evlen temp w)
  unfolding get_env_from
  get_env_from-Returned zero es w e temp m v q f = absurd (omega arith)
  get_env_from-Returned (suc fuel) [] w e temp m (_, b, z) q f =
      rw
        (
          read_entry-SpelledAt 256 nv w [] s (omega arith) (b, z),
          strncmp-terminator envvar [] (drop (0 + 1) temp) evlen,
          m,
        )
        (unfold find_var in null)
  get_env_from-Returned (suc fuel) (cs ∷ es) w e temp m (ne, short, sp, v) (q, qs) f =
      rw (read_entry-SpelledAt 256 nv w cs s short sp) (
        get_env-step cs es (drop (length cs + 1) temp) _ ne q (
          get_env_from-Returned fuel es (w + length cs + 1) e _ m v qs
            (omega (arith, SpelledAt-lt nv w cs sp))))

  -- On a partition of variables `name=value`, each of at most 256 characters, at an offset other than 0,
  -- in a memory of 8 to 2 ^ 20 - 1 bytes, for an `evlen` with which the name does not match the empty
  -- string, `nvram_get_env` returns the value of the first variable that starts with the `evlen`
  -- characters of the name, whatever follows them, or NULL where none does.
  pub get_env-Returned :
      (part : Partition) (es : List (List ℕ)) (e : ℕ) (temp : List ℕ)
      → part.addr ≢ 0
      → is_zero (strncmp envvar [] evlen) ≡ false
      → IsEnv nv part.addr es e
      → AllEquals es
      → Returned (find_var es envvar evlen) (get_env temp nv part envvar evlen)
  unfolding get_env
  get_env-Returned part es e temp ne m v q =
      let here : u32 part.addr ≡ part.addr = omega (arith, s, IsEnv-lt nv part.addr es e v) in
      let set : (part.addr == 0) ≡ false = ground arith in
      rw (set, here) (get_env_from-Returned (suc nv.size) es part.addr e temp m v q (omega arith))
