-- ===== src/Tpm/Padding.antt =====
-- lib/libtpm: the hash functions work through the padded message, block by block.
use slof.Prelude.{
  ℕ, zero, suc, ◌+◌, ◌-◌, ◌*◌, ◌%◌, ◌^◌, ◌≤◌, ◌<◌, ◌≡◌, ◌∙◌, ap, sym, arith, refl, inl, inr, leb,
}
use slof.Prelude.{
  Bool-cases, List, [], ◌∷◌, ◌++◌, length, length-append, length-replicate, replicate,
}
use mathlib.Core.List.{append_assoc, append-nil}
use native.Mathlib.Nat.{add-mul-mod_self_left, mod-eq_of_lt}
use slof.Libc.Search.{drop}
use slof.Tpm.Lists.{
  take-replicate, take-drop, length-take, replicate-add, length-bytes_of, take-within, take-marked,
  length-drop,
}
use slof.Tpm.{take, bytes_of, Hash, whole_blocks, last_blocks, sha_do}

-- The fewest zeros after which `n` bytes, a byte for the bit, the zeros and `field` bytes for the number
-- of bits end a block of `block` bytes.
abbrev pub zeros : (block field n : ℕ) → ℕ
zeros block field n = (block + (block - (1 + field)) - n % block) % block

-- The padding of a message of `n` bytes: a bit, the fewest zeros, and the number of bits in `field`
-- bytes, of which those above the lowest eight are 0.
abbrev pub padding : (block field n : ℕ) → List ℕ
padding block field n =
    0x80 ∷ (replicate (zeros block field n + (field - 8)) 0 ++ bytes_of 8 (n * 8))

unfoldable pub concat : List (List ℕ) → List ℕ
concat [] = []
concat (b ∷ bs) = b ++ concat bs

unfoldable pub hash_blocks : (List ℕ → List ℕ → List ℕ) → List (List ℕ) → List ℕ → List ℕ
hash_blocks do_block [] h = h
hash_blocks do_block (b ∷ bs) h = hash_blocks do_block bs (do_block b h)

-- Blocks of a length.
abbrev pub AllLength : ℕ → List (List ℕ) → Type 0
AllLength n [] = Unit {0}
AllLength n (b ∷ bs) = (length b ≡ n) × AllLength n bs

-- The last block leaves `field` bytes for the number of bits.
pub record Valid (field : ℕ) (c : Hash) : Type 0 where
  pub field_le : 8 ≤ field
  pub limit_pos : 0 < c.limit
  pub limit_eq : c.limit + field ≡ c.block_len
  pub cleared_le : c.block_len ≤ c.cleared + 8

-- The message is made of blocks of `block` bytes, and the result is that of hashing them one after
-- another.
pub record Padded (block : ℕ) (do_block : List ℕ → List ℕ → List ℕ) (message h result : List ℕ)
    : Type 0 where
  pub blocks : List (List ℕ)
  pub all_length : AllLength block blocks
  pub message_eq : concat blocks ≡ message
  pub result_eq : result ≡ hash_blocks do_block blocks h

less_one : (b n : ℕ) → (b + n) % b ≡ n % b
less_one b n =
    let split : b + n ≡ n + b * 1 = omega arith in
    ap (λ t. t % b) split ∙ add-mul-mod_self_left n b 1

-- The zeros of a message that leaves `r` bytes for the last block, where they fit in it and where not.
zeros-short :
    (block field n r : ℕ)
    → n % block ≡ r
    → r + (1 + field) ≤ block
    → zeros block field n ≡ block - (1 + field) - r
zeros-short block field n r left fits =
    let split : block + (block - (1 + field)) - n % block ≡ block + (block - (1 + field) - r) =
      omega (arith, left, fits) in
    ap (λ t. t % block) split
    ∙ less_one block (block - (1 + field) - r)
    ∙ mod-eq_of_lt (omega (arith, fits))

zeros-long :
    (block field n r : ℕ)
    → n % block ≡ r
    → r < block
    → block < r + (1 + field)
    → 1 + field ≤ block
    → zeros block field n ≡ block + (block - (1 + field)) - r
zeros-long block field n r left lt long fits =
    let split : block + (block - (1 + field)) - n % block ≡ block + (block - (1 + field)) - r =
      omega (arith, left) in
    ap (λ t. t % block) split ∙ mod-eq_of_lt (omega (arith, long, fits))

module _ (field : ℕ) (c : Hash) (v : Valid field c) (rest h : List ℕ) (bits total : ℕ)
    (lt : length rest < c.block_len) (bits_eq : bits + length rest * 8 ≡ total * 8)
    (small : total * 8 < 2 ^ c.bits_width) (left : total % c.block_len ≡ length rest) where
  -- The number of bits.
  abbrev count : List ℕ
  count = bytes_of 8 (total * 8)

  abbrev w : List ℕ
  w = rest ++ (0x80 ∷ replicate (c.block_len - (length rest + 1)) 0)

  counted : (bits + length rest * 8) % 2 ^ c.bits_width ≡ total * 8
  counted = ap (λ n. n % 2 ^ c.bits_width) bits_eq ∙ mod-eq_of_lt small

  length-w : length w ≡ c.block_len
  length-w = omega (
    arith,
    lt,
    length-append rest (0x80 ∷ replicate (c.block_len - (length rest + 1)) 0),
    length-replicate {A = ℕ} (c.block_len - (length rest + 1)) 0,
  )

  -- One block.
  one : List ℕ
  one = take (c.block_len - 8) w ++ count

  one-eq :
      length rest < c.limit
      → one ≡ rest ++ (0x80 ∷ (replicate (c.block_len - 8 - length rest - 1) 0 ++ count))
  unfolding one
  one-eq s =
      ap (λ l. l ++ count)
        (take-marked (c.block_len - 8) (c.block_len - (length rest + 1)) rest
          (omega (arith, s, v.limit_eq, v.field_le)) (omega (arith, s, v.limit_eq, v.field_le)))
      ∙ append_assoc rest (0x80 ∷ replicate (c.block_len - 8 - length rest - 1) 0) count

  one_zeros :
      length rest < c.limit
      → c.block_len - 8 - length rest - 1 ≡ zeros c.block_len field total + (field - 8)
  one_zeros s = omega (
    arith,
    s,
    zeros-short c.block_len field total (length rest) left (omega (arith, s, v.limit_eq)),
    v.limit_eq,
    v.field_le,
  )

  length-one : length one ≡ c.block_len
  unfolding one
  length-one = omega (
    arith,
    length-append (take (c.block_len - 8) w) count,
    length-take (c.block_len - 8) w (omega (arith, length-w)),
    length-bytes_of 8 (total * 8),
    v.limit_eq,
    v.field_le,
  )

  one-Padded :
      length rest < c.limit
      → Padded c.block_len c.do_block (rest ++ padding c.block_len field total) h (c.do_block one h)
  unfolding concat hash_blocks
  one-Padded s = record {
    blocks = one ∷ [];
    all_length = (length-one, tt);
    message_eq =
        append-nil one
        ∙ one-eq s
        ∙ ap (λ z. rest ++ (0x80 ∷ (replicate z 0 ++ count))) (one_zeros s);
    result_eq = refl;
  }

  -- Two blocks.
  two : List ℕ
  two = take (c.block_len - 8) (replicate c.cleared 0 ++ drop c.cleared w) ++ count

  two-eq : two ≡ replicate (c.block_len - 8) 0 ++ count
  unfolding two
  two-eq =
      ap (λ l. l ++ count)
        (take-within (c.block_len - 8) (replicate c.cleared 0) (drop c.cleared w)
            (omega (arith, length-replicate {A = ℕ} c.cleared 0, v.cleared_le))
          ∙ take-replicate (c.block_len - 8) c.cleared 0 (omega (arith, v.cleared_le)))

  length-two : length two ≡ c.block_len
  length-two =
      ap (λ l. length l) two-eq
      ∙ omega (
        arith,
        length-append (replicate (c.block_len - 8) 0) count,
        length-replicate {A = ℕ} (c.block_len - 8) 0,
        length-bytes_of 8 (total * 8),
        v.limit_eq,
        v.field_le,
      )

  two_zeros :
      c.limit ≤ length rest
      → c.block_len - (length rest + 1) + (c.block_len - 8)
        ≡ zeros c.block_len field total + (field - 8)
  two_zeros s = omega (
    arith,
    s,
    lt,
    zeros-long c.block_len field total (length rest) left lt (omega (arith, s, v.limit_eq))
        (omega (arith, v.limit_eq, v.limit_pos)),
    v.limit_eq,
    v.limit_pos,
    v.field_le,
  )

  two-Padded :
      c.limit ≤ length rest
      → Padded c.block_len c.do_block
          (rest ++ padding c.block_len field total)
          h
          (c.do_block two (c.do_block w h))
  unfolding concat hash_blocks
  two-Padded s = record {
    blocks = w ∷ (two ∷ []);
    all_length = (length-w, (length-two, tt));
    message_eq =
        ap (λ l. w ++ l) (append-nil two ∙ two-eq)
        ∙ append_assoc rest (0x80 ∷ replicate (c.block_len - (length rest + 1)) 0)
            (replicate (c.block_len - 8) 0 ++ count)
        ∙ ap (λ l. rest ++ (0x80 ∷ l))
            (sym (
                append_assoc (replicate (c.block_len - (length rest + 1)) 0)
                  (replicate (c.block_len - 8) 0) count)
              ∙ ap (λ l. l ++ count)
                  (replicate-add (c.block_len - (length rest + 1)) (c.block_len - 8) 0)
              ∙ ap (λ z. replicate z 0 ++ count) (two_zeros s));
    result_eq = refl;
  }

  last_blocks-Padded :
      Padded c.block_len c.do_block
        (rest ++ padding c.block_len field total)
        h
        (last_blocks c rest h bits)
  unfolding last_blocks one two
  last_blocks-Padded = rw counted (elim (Bool-cases (leb c.limit (length rest))) [
    | inl e ↦ let long : c.limit ≤ length rest = ground arith in rw e (two-Padded long)
    | inr e ↦ let short : length rest < c.limit = ground arith in rw e (one-Padded short)
  ])

-- A block in front.
Padded-cons :
    (c : Hash) (rest pad h result : List ℕ)
    → c.block_len ≤ length rest
    → Padded c.block_len c.do_block
        (drop c.block_len rest ++ pad)
        (c.do_block (take c.block_len rest) h)
        result
    → Padded c.block_len c.do_block (rest ++ pad) h result
unfolding concat hash_blocks
Padded-cons c rest pad h result long p = record {
  blocks = take c.block_len rest ∷ p.blocks;
  all_length = (length-take c.block_len rest long, p.all_length);
  message_eq =
      ap (λ l. take c.block_len rest ++ l) p.message_eq
      ∙ sym (append_assoc (take c.block_len rest) (drop c.block_len rest) pad)
      ∙ ap (λ l. l ++ pad) (take-drop c.block_len rest);
  result_eq = p.result_eq;
}

-- The blocks that are left, and the last ones.
abbrev hashed : ℕ → Hash → List ℕ → List ℕ → ℕ → List ℕ
hashed fuel c rest h bits =
    let blocks = whole_blocks fuel c rest h bits in last_blocks c (blocks.2) (blocks.0) (blocks.1)

hashed-Padded :
    (fuel field : ℕ) (c : Hash) (v : Valid field c) (rest h : List ℕ) (bits total : ℕ)
    → length rest ≤ fuel
    → bits + length rest * 8 ≡ total * 8
    → total * 8 < 2 ^ c.bits_width
    → total % c.block_len ≡ length rest % c.block_len
    → Padded c.block_len c.do_block
        (rest ++ padding c.block_len field total)
        h
        (hashed fuel c rest h bits)
unfolding whole_blocks
hashed-Padded zero field c v rest h bits total le e small left =
    let lt : length rest < c.block_len = omega (arith, le, v.limit_eq, v.field_le) in
    last_blocks-Padded field c v rest h bits total lt e small (left ∙ mod-eq_of_lt lt)
hashed-Padded (suc fuel) field c v rest h bits total le e small left =
    elim (Bool-cases (leb c.block_len (length rest))) [
      | inr f ↦
          let lt : length rest < c.block_len = ground arith in
          rw f (last_blocks-Padded field c v rest h bits total lt e small (left ∙ mod-eq_of_lt lt))
      | inl f ↦
          let long : c.block_len ≤ length rest = ground arith in
          let cut = length-drop c.block_len rest long in
          let bits_lt : bits + c.block_len * 8 < 2 ^ c.bits_width = omega (arith, e, small, long) in
          let exact : (bits + c.block_len * 8) % 2 ^ c.bits_width ≡ bits + c.block_len * 8 =
            mod-eq_of_lt bits_lt in
          let left' : total % c.block_len ≡ length (drop c.block_len rest) % c.block_len =
            left
            ∙ ap (λ n. n % c.block_len) (sym cut)
            ∙ less_one c.block_len (length (drop c.block_len rest)) in
          rw f (
            Padded-cons c rest (padding c.block_len field total) h _ long (
              hashed-Padded fuel field c v (drop c.block_len rest)
                (c.do_block (take c.block_len rest) h) ((bits + c.block_len * 8) % 2 ^ c.bits_width)
                total (omega (arith, cut, le, v.limit_eq, v.field_le))
                (omega (arith, exact, cut, e)) small left'))
    ]

-- The whole message.
pub sha_do-Padded :
    (field : ℕ) (c : Hash) (v : Valid field c) (data32 h : List ℕ)
    → length data32 * 8 < 2 ^ c.bits_width
    → Padded c.block_len c.do_block
        (data32 ++ padding c.block_len field (length data32))
        h
        (sha_do c data32 h)
unfolding sha_do
sha_do-Padded field c v data32 h small =
    hashed-Padded (length data32) field c v data32 h 0 (length data32) (omega arith) (omega arith)
      small refl
