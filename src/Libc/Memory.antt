-- ===== src/Libc/Memory.antt =====
-- lib/libc/string: memchr.c, memcmp.c, memcpy.c, memmove.c, memset.c, strncpy.c.
-- Memory is a function from addresses to bytes. No access wraps round the address space.
use slof.Prelude.{
  ℕ, zero, suc, ◌+◌, ◌-◌, ◌%◌, ◌≤◌, ◌<◌, ◌≡◌, ◌≢◌, ◌⊎◌, inl, inr, ◌==◌, ltb, leb, arith, refl,
}
use slof.Prelude.{Bool-cases, true, false, ◌&&◌, not, Option, none, some, if◌then◌else◌, ◌↔◌}
use slof.Prelude.Int.{ℤ, pos, sub_ℕ, is_zero, is_zero-sub_ℕ}

abbrev pub Memory : Type 0
Memory = ℕ → ℕ

abbrev pub update : Memory → ℕ → ℕ → Memory
update m p v q = if p == q then v else m q

-- `*cdest++ = *csrc++`, `left` times.
unfoldable pub copy_up : ℕ → Memory → ℕ → ℕ → Memory
copy_up zero m dest src = m
copy_up (suc left) m dest src = copy_up left (update m dest (m src)) (dest + 1) (src + 1)

-- `*cdest-- = *csrc--`, `left` times; the pointers stand at the last bytes that are left.
pub copy_down : ℕ → Memory → ℕ → ℕ → Memory
copy_down zero m dest src = m
copy_down (suc left) m dest src = copy_down left (update m (dest + left) (m (src + left))) dest src

unfoldable pub memcpy : Memory → ℕ → ℕ → ℕ → Memory
memcpy m dest src n = copy_up n m dest src

pub memmove : Memory → ℕ → ℕ → ℕ → Memory
memmove m dest src n =
    if ltb src dest && leb dest (src + n) then copy_down n m dest src else copy_up n m dest src

unfoldable pub memset : Memory → ℕ → ℕ → ℕ → Memory
memset m dest c zero = m
memset m dest c (suc size) = memset (update m dest (c % 256)) (dest + 1) c size

-- The address that is found.
pub memchr : Memory → ℕ → ℕ → ℕ → Option ℕ
memchr m p c zero = none
memchr m p c (suc n) = if m p == c % 256 then some p else memchr m (p + 1) c n

unfoldable pub memcmp : Memory → ℕ → ℕ → ℕ → ℤ
memcmp m p1 p2 zero = pos 0
memcmp m p1 p2 (suc n) =
    if not (m p1 == m p2) then sub_ℕ (m p1) (m p2) else memcmp m (p1 + 1) (p2 + 1) n

-- The two loops of `strncpy`: zeros, and characters up to a terminator.
pub clear_up : ℕ → Memory → ℕ → Memory
clear_up zero m dst = m
clear_up (suc n) m dst = clear_up n (update m dst 0) (dst + 1)

pub strncpy : ℕ → Memory → ℕ → ℕ → Memory
strncpy zero m dst src = m
strncpy (suc n) m dst src = elim (m src == 0) [
  | true ↦ clear_up (suc n) m dst
  | false ↦ strncpy n (update m dst (m src)) (dst + 1) (src + 1)
]

-- Copying upwards is right where the destination is not inside the source behind its start.
copy_up-byte :
    (n : ℕ) (m : Memory) (dest src j : ℕ)
    → (dest ≤ src) ⊎ (src + n ≤ dest)
    → copy_up n m dest src j
      ≡ (if leb dest j && ltb j (dest + n) then m (src + (j - dest)) else m j)
unfolding copy_up
copy_up-byte zero m dest src j h = ground arith
copy_up-byte (suc n) m dest src j h =
    ground (arith, copy_up-byte n (update m dest (m src)) (dest + 1) (src + 1) j (shrink h))
  where
    shrink : (dest ≤ src) ⊎ (src + suc n ≤ dest) → (dest + 1 ≤ src + 1) ⊎ (src + 1 + n ≤ dest + 1)
    shrink (inl a) = inl (omega arith)
    shrink (inr a) = inr (omega arith)

-- `memcpy` between ranges that do not overlap, or downwards.
pub memcpy-byte :
    (m : Memory) (dest src n j : ℕ)
    → (dest ≤ src) ⊎ (src + n ≤ dest)
    → memcpy m dest src n j ≡ (if leb dest j && ltb j (dest + n) then m (src + (j - dest)) else m j)
unfolding memcpy
memcpy-byte m dest src n j h = copy_up-byte n m dest src j h

copy_down-byte :
    (n : ℕ) (m : Memory) (dest src j : ℕ)
    → src ≤ dest
    → copy_down n m dest src j
      ≡ (if leb dest j && ltb j (dest + n) then m (src + (j - dest)) else m j)
unfolding copy_down
copy_down-byte zero m dest src j h = ground arith
copy_down-byte (suc n) m dest src j h =
    ground (arith, copy_down-byte n (update m (dest + n) (m (src + n))) dest src j h)

-- `memmove` copies, also where the ranges overlap either way, and changes nothing else.
pub memmove-byte :
    (m : Memory) (dest src n j : ℕ)
    → memmove m dest src n j
      ≡ (if leb dest j && ltb j (dest + n) then m (src + (j - dest)) else m j)
unfolding memmove
memmove-byte m dest src n j = elim (Bool-cases (ltb src dest && leb dest (src + n))) [
  | inl bad ↦ rw bad (copy_down-byte n m dest src j (ground arith))
  | inr good ↦ rw good (copy_up-byte n m dest src j (upwards (ground arith)))
]
  where
    upwards : (src < dest → src + n < dest) → (dest ≤ src) ⊎ (src + n ≤ dest)
    upwards h = grind arith

pub memset-byte :
    (m : Memory) (dest c n j : ℕ)
    → memset m dest c n j ≡ (if leb dest j && ltb j (dest + n) then c % 256 else m j)
unfolding memset
memset-byte m dest c zero j = ground arith
memset-byte m dest c (suc n) j =
    ground (arith, memset-byte (update m dest (c % 256)) (dest + 1) c n j)

abbrev SameBytes : Memory → ℕ → ℕ → ℕ → Type 0
SameBytes m p1 p2 n = (i : ℕ) → i < n → m (p1 + i) ≡ m (p2 + i)

same_at : (m : Memory) (p1 p2 n : ℕ) → SameBytes m p1 p2 (suc n) → m p1 ≡ m p2
same_at m p1 p2 n h =
    let a : p1 + 0 ≡ p1 = omega arith in
    let b : p2 + 0 ≡ p2 = omega arith in rw (a, b) at (h 0 (omega arith))

later_same :
    (m : Memory) (p1 p2 n : ℕ) → SameBytes m p1 p2 (suc n) → SameBytes m (p1 + 1) (p2 + 1) n
later_same m p1 p2 n h i k =
    let a : p1 + 1 + i ≡ p1 + suc i = omega arith in
    let b : p2 + 1 + i ≡ p2 + suc i = omega arith in rw (a, b) (h (suc i) (omega arith))

SameBytes-cons :
    (m : Memory) (p1 p2 n : ℕ)
    → m p1 ≡ m p2
    → SameBytes m (p1 + 1) (p2 + 1) n
    → SameBytes m p1 p2 (suc n)
SameBytes-cons m p1 p2 n e h zero k =
    let a : p1 + 0 ≡ p1 = omega arith in let b : p2 + 0 ≡ p2 = omega arith in rw (a, b) e
SameBytes-cons m p1 p2 n e h (suc i) k =
    let a : p1 + suc i ≡ p1 + 1 + i = omega arith in
    let b : p2 + suc i ≡ p2 + 1 + i = omega arith in rw (a, b) (h i (omega arith))

-- `memcmp` returns 0 exactly when the `n` bytes agree.
pub memcmp-zero_iff :
    (m : Memory) (p1 p2 n : ℕ)
    → (is_zero (memcmp m p1 p2 n) ≡ true) ↔ ((i : ℕ) → i < n → m (p1 + i) ≡ m (p2 + i))
unfolding memcmp
memcmp-zero_iff m p1 p2 zero = (λ h i k. absurd (omega arith), λ h. refl)
memcmp-zero_iff m p1 p2 (suc n) = elim (Bool-cases (m p1 == m p2)) [
  | inl e ↦ rw e (
    λ z. SameBytes-cons m p1 p2 n (ground arith) ((memcmp-zero_iff m (p1 + 1) (p2 + 1) n).0 z),
    λ h. (memcmp-zero_iff m (p1 + 1) (p2 + 1) n).1 (later_same m p1 p2 n h),
  )
  | inr e ↦ rw e (
    λ z. absurd (ground (arith, is_zero-sub_ℕ (m p1) (m p2))),
    λ h. absurd (ground (arith, same_at m p1 p2 n h)),
  )
]

-- What `strncpy` puts at `i`: the source's character, and zeros from its terminator on.
unfoldable pub copied : Memory → ℕ → ℕ → ℕ
copied m src zero = m src
copied m src (suc i) = if m src == 0 then 0 else copied m (src + 1) i

clear_up-byte :
    (n : ℕ) (m : Memory) (dst j : ℕ)
    → clear_up n m dst j ≡ (if leb dst j && ltb j (dst + n) then 0 else m j)
unfolding clear_up
clear_up-byte zero m dst j = ground arith
clear_up-byte (suc n) m dst j = ground (arith, clear_up-byte n (update m dst 0) (dst + 1) j)

-- The characters that are still to be read do not change while the destination is written.
copied-update :
    (m : Memory) (p v src i : ℕ)
    → p < src ⊎ src + i < p
    → copied (update m p v) src i ≡ copied m src i
unfolding copied
copied-update m p v src zero h = grind arith
copied-update m p v src (suc i) (inl h) =
    ground (arith, copied-update m p v (src + 1) i (inl (omega arith)))
copied-update m p v src (suc i) (inr h) =
    ground (arith, copied-update m p v (src + 1) i (inr (omega arith)))

copied-zero : (m : Memory) (src i : ℕ) → m src ≡ 0 → copied m src i ≡ 0
unfolding copied
copied-zero m src zero h = h
copied-zero m src (suc i) h = ground arith

copied-step :
    (m : Memory) (src i : ℕ) → m src ≢ 0 → 0 < i → copied m src i ≡ copied m (src + 1) (i - 1)
unfolding copied
copied-step m src zero ne h = absurd (omega arith)
copied-step m src (suc i) ne h = let back : suc i - 1 ≡ i = omega arith in rw back (ground arith)

copied-start : (m : Memory) (src i : ℕ) → i ≡ 0 → copied m src i ≡ m src
unfolding copied
copied-start m src zero h = refl
copied-start m src (suc i) h = absurd (omega arith)

-- `strncpy` between ranges that do not overlap fills exactly `n` bytes.
pub strncpy-byte :
    (n : ℕ) (m : Memory) (dst src j : ℕ)
    → (dst + n ≤ src) ⊎ (src + n ≤ dst)
    → strncpy n m dst src j ≡ (if leb dst j && ltb j (dst + n) then copied m src (j - dst) else m j)
unfolding strncpy
strncpy-byte zero m dst src j h = ground arith
strncpy-byte (suc n) m dst src j h = elim (Bool-cases (m src == 0)) [
  | inl e ↦
      rw (e, strncpy)
        (ground (arith, clear_up-byte (suc n) m dst j, copied-zero m src (j - dst) (ground arith)))
  | inr e ↦
      rw (e, strncpy)
        (ground (
          arith,
          strncpy-byte n (update m dst (m src)) (dst + 1) (src + 1) j (shrink h),
          unread h,
          copied-step m src (j - dst),
          copied-start m src (j - dst),
          index,
        ))
]
  where
    shrink :
        (dst + suc n ≤ src) ⊎ (src + suc n ≤ dst)
        → (dst + 1 + n ≤ src + 1) ⊎ (src + 1 + n ≤ dst + 1)
    shrink (inl a) = inl (omega arith)
    shrink (inr a) = inr (omega arith)

    index : j - dst - 1 ≡ j - (dst + 1)
    index = omega arith

    unread :
        (dst + suc n ≤ src) ⊎ (src + suc n ≤ dst)
        → j < dst + suc n
        → dst < j
        → copied (update m dst (m src)) (src + 1) (j - (dst + 1))
          ≡ copied m (src + 1) (j - (dst + 1))
    unread (inl a) b c = copied-update m dst (m src) (src + 1) (j - (dst + 1)) (inl (omega arith))
    unread (inr a) b c = copied-update m dst (m src) (src + 1) (j - (dst + 1)) (inr (omega arith))
