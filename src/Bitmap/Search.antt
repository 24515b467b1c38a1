-- ===== src/Bitmap/Search.antt =====
-- slof/allocator.c: `bm_find_bits` finds the first run of free blocks that is long enough.
use slof.Prelude.{ℕ, zero, suc, ◌+◌, ◌-◌, ◌^◌, ◌≤◌, ◌<◌, ◌≡◌, ◌⊎◌, inl, inr, arith, ltb, ◌==◌}
use slof.Prelude.{true, not, List, if◌then◌else◌, Bool-cases, refl}
use slof.Bitmap.{test_bit, run_end, find_from, u32}
use slof.Bitmap.Runs.{IsFree}

module _ (bmw : List ℕ) where
  run_end-of_free : (left i : ℕ) → IsFree bmw i left → run_end bmw left i ≡ i + left
  unfolding run_end
  run_end-of_free zero i free = omega arith
  run_end-of_free (suc left) i free =
      ground
        (arith, free i, run_end-of_free left (i + 1) (λ j a b. free j (omega arith) (omega arith)))

  pub IsFree-of_run_end : (left i : ℕ) → run_end bmw left i ≡ i + left → IsFree bmw i left
  unfolding run_end
  IsFree-of_run_end zero i e j a b = absurd (omega arith)
  IsFree-of_run_end (suc left) i e j a b = elim (Bool-cases (test_bit bmw i)) [
    | inl t ↦ elim (Bool-cases (i == j)) [
      | inl s ↦ ground arith
      | inr s ↦ IsFree-of_run_end left (i + 1) (ground arith) j (ground arith) (omega arith)
    ]
    | inr t ↦ ground arith
  ]

  module _ (n total : ℕ) where
    -- `n` free blocks at `k`, below `total`. (For `n` = 0 the code still wants a free block at `k`.)
    pub record Fits (k : ℕ) : Type 0 where
      pub below : k < total
      pub room : k + n ≤ total
      pub first : test_bit bmw k ≡ true
      pub run : IsFree bmw k n

    -- `r` is the first place from `i` on where `n` blocks fit, or the pattern of -1.
    abbrev pub FirstFit : ℕ → ℕ → Type 0
    FirstFit i r =
        (Fits r × (i ≤ r) × ((k : ℕ) → i ≤ k → k < r → ¬ Fits k))
        ⊎ ((r ≡ 2 ^ 32 - 1) × ((k : ℕ) → i ≤ k → ¬ Fits k))

    skip_one : (i k : ℕ) → ¬ Fits i → (i + 1 ≤ k → ¬ Fits k) → i ≤ k → ¬ Fits k
    skip_one i k no_fit later h f = elim (Bool-cases (i == k)) [
      | inl e ↦ no_fit (let e' : k ≡ i = ground arith in rw e' at f)
      | inr e ↦ later (ground arith) f
    ]

    skip : (i r : ℕ) → ¬ Fits i → FirstFit (i + 1) r → FirstFit i r
    skip i r no_fit (inl (f, h, m)) =
        inl (f, omega arith, λ k a b. skip_one i k no_fit (λ a'. m k a' b) a)
    skip i r no_fit (inr (e, m)) = inr (e, λ k a. skip_one i k no_fit (m k) a)

    -- One round of the outer loop, whatever the later rounds return.
    find_from-step :
        (i rest : ℕ)
        → i < total
        → FirstFit (i + 1) rest
        → FirstFit i (
            if not (test_bit bmw i)
            then rest
            else if ltb total (i + n)
            then 2 ^ 32 - 1
            else if run_end bmw n i == (i + n)
            then i
            else rest)
    find_from-step i rest below here = elim (Bool-cases (test_bit bmw i)) [
      | inr taken ↦ rw taken (skip i rest (λ f. ground (arith, f.first)) here)
      | inl set ↦ elim (Bool-cases (ltb total (i + n))) [
        | inl past ↦ rw (set, past) (inr (refl, λ k a f. ground (arith, f.room)))
        | inr inside ↦ elim (Bool-cases (run_end bmw n i == (i + n))) [
          | inl whole ↦
              rw (set, inside, whole)
                (inl (
                  fits set (ground arith) (ground arith),
                  omega arith,
                  λ k a b. absurd (omega arith),
                ))
          | inr broken ↦
              rw (set, inside, broken)
                (skip i rest (λ f. ground (arith, run_end-of_free n i f.run)) here)
        ]
      ]
    ]
      where
        fits : test_bit bmw i ≡ true → i + n ≤ total → run_end bmw n i ≡ i + n → Fits i
        fits set room whole = record {
          below = below;
          room = room;
          first = set;
          run = IsFree-of_run_end n i whole;
        }

    pub find_from-FirstFit :
        (left i : ℕ)
        → i + left ≡ total
        → total ≤ 2 ^ 31
        → n ≤ 2 ^ 31
        → FirstFit i (find_from bmw n total left i)
    unfolding find_from
    find_from-FirstFit zero i e ht hn = inr (refl, λ k a f. absurd (omega (arith, f.below)))
    find_from-FirstFit (suc left) i e ht hn =
        let in_range : u32 (i + n) ≡ i + n = omega arith in
        let stop : i + n - i ≡ n = omega arith in
        rw (in_range, stop)
          (find_from-step i (find_from bmw n total left (i + 1)) (omega arith)
            (find_from-FirstFit left (i + 1) (omega arith) ht hn))
