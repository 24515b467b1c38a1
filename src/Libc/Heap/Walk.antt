-- ===== src/Libc/Heap/Walk.antt =====
-- lib/libc/stdlib/malloc.c: the walks along the chunks end.
use slof.Prelude.{
  ℕ, zero, suc, ◌+◌, ◌^◌, ◌≤◌, ◌<◌, ◌≡◌, ◌≢◌, ◌⊎◌, ◌==◌, ltb, arith, refl, inl, inr, Bool-cases,
}
use slof.Prelude.{Bool, true, false, not, ◌&&◌, ◌||◌, some}
use slof.Libc.Memory.{Memory}
use slof.Libc.Heap.{
  Heap, inuse, chunk_length, behind, set_length, clean_from, clean, find_chunk, heap_fuel,
}

behind-advances : (m : Memory) (header : ℕ) → header < 2 ^ 63 → header + 4 ≤ behind m header
unfolding chunk_length
behind-advances m header h = omega arith

behind-eq :
    (m : Memory) (header : ℕ)
    → header < 2 ^ 63
    → behind m header ≡ header + 4 + chunk_length m header
unfolding chunk_length
behind-eq m header h = omega arith

-- The memory in which a free chunk is merged with the one behind it.
abbrev merged : Memory → ℕ → ℕ → Memory
merged m header firstfree =
    set_length m firstfree (chunk_length m firstfree + (chunk_length m header + 4))

clean_from-total :
    (fuel act : ℕ) (m : Memory) (header firstfree : ℕ) (check : Bool)
    → act < 2 ^ 63
    → act < header + fuel
    → 0 < fuel
    → (r : Bool × Memory) × (clean_from fuel act m header firstfree check ≡ some r)
unfolding clean_from
clean_from-total zero act m header firstfree check s f p = absurd (omega arith)
clean_from-total (suc fuel) act m header firstfree check s f p =
    elim (Bool-cases (ltb header act)) [
      | inr e ↦ rw e ((check, m), refl)
      | inl e ↦
          let below : header < act = ground arith in
          elim (Bool-cases (inuse m header == 0)) [
            | inr u ↦
                rw (e, u)
                  (clean_from-total fuel act m (behind m header) 0 check s
                    (omega (arith, behind-advances m header)) (ground arith))
            | inl u ↦ elim (Bool-cases (firstfree == 0)) [
              | inl z ↦
                  rw (e, u, z)
                    (clean_from-total fuel act m (behind m header) header check s
                      (omega (arith, behind-advances m header)) (ground arith))
              | inr z ↦
                  rw (e, u, z)
                    (clean_from-total fuel act (merged m header firstfree)
                      (behind (merged m header firstfree) header) firstfree true s
                      (omega (arith, behind-advances (merged m header firstfree) header))
                      (ground arith))
            ]
          ]
    ]

-- Below 2 ^ 63, `clean` ends, whatever the chunks are.
pub clean-total : (h : Heap) → h.act < 2 ^ 63 → (r : Bool × Memory) × (clean h ≡ some r)
unfolding clean
clean-total h s =
    clean_from-total (heap_fuel h) h.act h.memory h.heap_start 0 false s (omega arith) (omega arith)

-- From one header to a later one over chunks before `act`, each in use or too short; a header takes
-- four bytes.
pub data Skips (act : ℕ) (m : Memory) (size : ℕ) : (from to : ℕ) → Type 0 where
  arrived : (header : ℕ) → Skips act m size header header
  skipped :
      (header to : ℕ)
      → header < act
      → (inuse m header ≢ 0) ⊎ (chunk_length m header < size)
      → Skips act m size (header + 4 + chunk_length m header) to
      → Skips act m size header to

-- The first chunk that is free and long enough, or none before `act`.
pub record FirstFit (act : ℕ) (m : Memory) (size start found : ℕ) : Type 0 where
  pub skips : Skips act m size start found
  pub fits : (act ≤ found) ⊎ ((inuse m found ≡ 0) × (size ≤ chunk_length m found))

FirstFit-behind :
    (act : ℕ) (m : Memory) (size header found : ℕ)
    → act < 2 ^ 63
    → header < act
    → (inuse m header ≢ 0) ⊎ (chunk_length m header < size)
    → FirstFit act m size (behind m header) found
    → FirstFit act m size header found
FirstFit-behind act m size header found s below unfit k = record {
  skips = skipped header found below unfit (rw (behind-eq m header (omega arith)) at k.skips);
  fits = k.fits;
}

find_chunk-FirstFit :
    (fuel act : ℕ) (m : Memory) (size header : ℕ)
    → act < 2 ^ 63
    → act < header + fuel
    → 0 < fuel
    → (found : ℕ) × (find_chunk fuel m act size header ≡ some found)
      × FirstFit act m size header found
unfolding find_chunk
find_chunk-FirstFit zero act m size header s f p = absurd (omega arith)
find_chunk-FirstFit (suc fuel) act m size header s f p =
    elim (Bool-cases
      ((not (inuse m header == 0) || ltb (chunk_length m header) size) && ltb header act)) [
        | inl e ↦
            let below : header < act = ground arith in
            let unfit : (inuse m header ≢ 0) ⊎ (chunk_length m header < size) = ground arith in
            let (found, q, k) =
              find_chunk-FirstFit fuel act m size (behind m header) s
                (omega (arith, behind-advances m header)) (omega (arith, below)) in
            (found, rw e q, FirstFit-behind act m size header found s below unfit k)
        | inr e ↦ (header, rw e refl, record { skips = arrived header; fits = ground arith })
      ]

-- On a heap below 2 ^ 63, the search of malloc ends, whatever the chunks are, at the first chunk that is
-- free and long enough, or not before the end of the used part. It goes from the start of the heap from
-- chunk to chunk, and each one that it leaves behind is in use or too short.
pub find_chunk-fits :
    (h : Heap) (size : ℕ)
    → h.act < 2 ^ 63
    → (found : ℕ) × (find_chunk (heap_fuel h) h.memory h.act size h.heap_start ≡ some found)
      × FirstFit h.act h.memory size h.heap_start found
find_chunk-fits h size s =
    find_chunk-FirstFit (heap_fuel h) h.act h.memory size h.heap_start s (omega arith) (omega arith)
