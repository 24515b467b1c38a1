-- ===== src/Net/Args/Copy.antt =====
-- lib/libnet/args.c: what `argncpy` leaves in its buffer.
use slof.Prelude.{ℕ, zero, suc, ◌+◌, ◌-◌, ◌≤◌, ◌<◌, ◌≡◌, ◌≢◌, ◌∙◌, ◌⊎◌, ap, sym, arith, refl}
use slof.Prelude.{some, List, [], ◌∷◌, length, get_or}
use slof.Libc.Memory.{Memory, update, strncpy, copied, strncpy-byte}
use slof.Net.Args.{get_arg_ptr, get_arg_length, argncpy}
use slof.Net.Args.Split.{split, get_arg_length-split, get_arg_ptr-PointsInto, PointsInto}

-- The characters of the string and its terminator stand at the address.
abbrev pub StandsAt : Memory → ℕ → List ℕ → Type 0
StandsAt m p s = (i : ℕ) → i ≤ length s → m (p + i) ≡ get_or s i 0

StandsAt-tail : (m : Memory) (p c : ℕ) (s : List ℕ) → StandsAt m p (c ∷ s) → StandsAt m (p + 1) s
StandsAt-tail m p c s h i k =
    let shift : p + 1 + i ≡ p + suc i = omega arith in rw shift (h (suc i) (omega arith))

first_byte : (m : Memory) (p c : ℕ) (s : List ℕ) → StandsAt m p (c ∷ s) → m p ≡ c
first_byte m p c s h = let here : p + 0 ≡ p = omega arith in rw here at (h 0 (omega arith))

-- The characters of the first argument are copied, as none of them is a terminator.
copied-arg :
    (m : Memory) (p : ℕ) (s : List ℕ) (i : ℕ)
    → StandsAt m p s
    → i < get_arg_length s
    → copied m p i ≡ get_or (split s).0 i 0
unfolding copied get_arg_length split
copied-arg m p [] i h k = absurd (omega arith)
copied-arg m p (c ∷ s) zero h k = ground (arith, first_byte m p c s h)
copied-arg m p (c ∷ s) (suc i) h k =
    ground (arith, first_byte m p c s h, copied-arg m (p + 1) s i (StandsAt-tail m p c s h))

-- A string stands in memory, and `get_arg_ptr` finds its argument of the index, shorter than the
-- size of a buffer; the buffer is not NULL and ends before the string or starts at least its size
-- behind it. Then `argncpy` returns the buffer, and the argument and a terminator stand in it.
pub argncpy-argument :
    (m : Memory) (arg_str : ℕ) (s : List ℕ) (index buffer size : ℕ) (rest : List ℕ)
    → get_arg_ptr s index ≡ some rest
    → StandsAt m arg_str s
    → buffer ≢ 0
    → get_arg_length rest < size
    → (buffer + size ≤ arg_str) ⊎ (arg_str + length s + size ≤ buffer)
    → (m' : Memory) × (argncpy m arg_str s index buffer size ≡ (some buffer, m'))
      × ((i : ℕ) → i ≤ length (split rest).0 → m' (buffer + i) ≡ get_or (split rest).0 i 0)
unfolding argncpy
argncpy-argument m arg_str s index buffer size rest e h ne short apart =
    (update copy (buffer + get_arg_length rest) 0, rw (argncpy, e) (ground arith), copied_at)
  where
    ptr : ℕ
    ptr = arg_str + (length s - length rest)

    copy : Memory
    copy = strncpy size m buffer ptr

    into : PointsInto s rest
    into = get_arg_ptr-PointsInto s index rest e

    stands : StandsAt m ptr rest
    stands i k =
        (let shift : ptr + i ≡ arg_str + (length s - length rest + i) = omega arith in
          rw shift (h (length s - length rest + i) (omega (arith, into.inside)))
          ∙ sym (into.same i))

    clear_of : (buffer + size ≤ ptr) ⊎ (ptr + size ≤ buffer)
    clear_of = grind (arith, into.inside)

    past : (xs : List ℕ) (i : ℕ) → length xs ≤ i → get_or xs i 0 ≡ 0
    past [] i k = refl
    past (x ∷ xs) zero k = absurd (omega arith)
    past (x ∷ xs) (suc i) k = past xs i (omega arith)

    copied_at :
        (i : ℕ)
        → i ≤ length (split rest).0
        → update copy (buffer + get_arg_length rest) 0 (buffer + i) ≡ get_or (split rest).0 i 0
    copied_at i k = ground (
      arith,
      get_arg_length-split rest,
      past (split rest).0 i,
      strncpy-byte size m buffer ptr (buffer + i) clear_of,
      ap (copied m ptr) index_eq,
      copied-arg m ptr rest i stands,
    )
      where
        index_eq : buffer + i - buffer ≡ i
        index_eq = omega arith
