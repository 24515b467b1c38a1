-- ===== src/Nvram/Env/Last.antt =====
-- lib/libnvram/envvar.c: `find_last_envvar` finds the end of the variables.
use slof.Prelude.{ℕ, zero, suc, ◌+◌, ◌-◌, ◌≤◌, ◌<◌, ◌≡◌, ◌≢◌, ◌⊎◌, ◌==◌, ◌∙◌, arith, refl, inl, inr}
use slof.Prelude.{true, List, [], ◌∷◌, ◌&&◌, length, if◌then◌else◌}
use slof.Nvram.Store.{Nvram, u32}
use slof.Nvram.Store.Laws.{IsSmall}
use slof.Nvram.Partition.{Partition}
use slof.Nvram.Env.{env_rounds, last_from, find_last}
use slof.Nvram.Env.Get.{SpelledAt, IsEnv, IsEnv-le}

-- The search passes a variable and stops at none of its bytes.
last_from-SpelledAt :
    (nv : Nvram) (cs : List ℕ) (left more w last : ℕ)
    → IsSmall nv
    → SpelledAt nv w cs
    → (last ≢ 0) ⊎ (cs ≢ [])
    → left ≡ length cs + 1 + more
    → last_from left nv last w ≡ last_from more nv 0 (w + length cs + 1)
unfolding last_from
last_from-SpelledAt nv cs zero more w last s sp h e = absurd (omega arith)
last_from-SpelledAt nv [] (suc left) more w last s (b, z) h e =
    let same : left ≡ more = omega arith in
    let step : u32 (w + 1) ≡ w + 0 + 1 = omega arith in rw (step, z, same) (go h)
  where
    go :
        (last ≢ 0) ⊎ (◌≢◌ {A = List ℕ} [] [])
        → (if last == 0 && true then w else last_from more nv 0 (w + 0 + 1))
          ≡ last_from more nv 0 (w + 0 + 1)
    go (inl ne) = ground arith
    go (inr ne) = absurd (ne refl)
last_from-SpelledAt nv (c ∷ cs) (suc left) more w last s (b, z, ne, sp) h e =
    let step : u32 (w + 1) ≡ w + 1 = omega arith in
    let end : w + suc (length cs) + 1 ≡ w + 1 + length cs + 1 = omega arith in
    rw (step, end, z)
      (ground (arith, last_from-SpelledAt nv cs left more (w + 1) c s sp (inl ne) (omega arith)))

-- On a partition of variables the place for the next one is their end.
last_from-IsEnv :
    (nv : Nvram) (es : List (List ℕ)) (left w e : ℕ)
    → IsSmall nv
    → IsEnv nv w es e
    → e < w + left
    → last_from left nv 0 w ≡ e
last_from-IsEnv nv es zero w e s v h = absurd (omega (arith, IsEnv-le nv w es e v))
last_from-IsEnv nv [] (suc left) w e s (q, b, z) h = unfold last_from in ground arith
last_from-IsEnv nv (cs ∷ es) (suc left) w e s (ne, short, sp, v) h =
    let more = left - length cs in
    last_from-SpelledAt nv cs (suc left) more w 0 s sp (inr ne)
      (omega (arith, IsEnv-le nv (w + length cs + 1) es e v))
    ∙ last_from-IsEnv nv es more (w + length cs + 1) e s v (omega arith)

-- The first round of the search starts from the byte itself, so it may stop there.
pub find_last-IsEnv :
    (nv : Nvram) (part : Partition) (es : List (List ℕ)) (e : ℕ)
    → IsSmall nv
    → IsEnv nv part.addr es e
    → part.addr + part.len ≤ nv.size
    → e < part.addr + part.len
    → find_last nv part ≡ e
unfolding find_last
find_last-IsEnv nv part [] e s v l h =
    let rounds : env_rounds part ≡ part.len = omega (arith, s, l) in
    let here : u32 part.addr ≡ part.addr = omega (arith, s, v.1) in
    rw (rounds, here, v.2) (last_from-IsEnv nv [] part.len part.addr e s v h)
find_last-IsEnv nv part ([] ∷ es) e s v l h = absurd (v.0 refl)
find_last-IsEnv nv part ((c ∷ cs) ∷ es) e s v l h =
    let rounds : env_rounds part ≡ part.len = omega (arith, s, l) in
    let here : u32 part.addr ≡ part.addr = omega (arith, s, v.2) in
    let more = part.len - (length cs + 1 + 1) in
    rw (rounds, here)
      (last_from-SpelledAt nv (c ∷ cs) part.len more part.addr _ s v.2 (inr v.0)
          (omega (arith, IsEnv-le nv (part.addr + suc (length cs) + 1) es e v.3))
        ∙ last_from-IsEnv nv es more (part.addr + suc (length cs) + 1) e s v.3
            (omega (arith, IsEnv-le nv (part.addr + suc (length cs) + 1) es e v.3)))
