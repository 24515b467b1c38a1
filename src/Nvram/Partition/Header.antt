-- ===== src/Nvram/Partition/Header.antt =====
-- lib/libnvram/nvram.c: the header that `create_nvram_partition` writes is valid and says what it
-- was given.
use slof.Prelude.{
  ℕ, zero, suc, ◌+◌, ◌-◌, ◌/◌, ◌%◌, ◌≤◌, ◌<◌, ◌≡◌, ◌≢◌, ◌⊎◌, inl, inr, arith, refl, sym, ◌∙◌, ap,
}
use mathlib.Core.Path.{ap₂}
use slof.Prelude.{List, [], ◌∷◌, ◌==◌, ltb, leb, ◌&&◌, if◌then◌else◌, get_or, length}
use slof.Libc.Compare.{strlen, prefix}
use slof.Nvram.Store.{Nvram, u32, read_byte, write_byte, write_word}
use slof.Nvram.Store.Laws.{
  IsSmall, byte-write_byte, byte-write_word, size-write, read_byte-in, read_word-in,
}
use slof.Nvram.Partition.{
  partition_type, header_checksum, calc_checksum, partition_len, write_name, write_header, pad_name,
  name_from, partition_name,
}
use slof.Nvram.Partition.Frame.{Agree, sum_same}
use slof.Nvram.Partition.Chain.{Entry, IsEntry}

pub size-write_name :
    (left : ℕ) (nv : Nvram) (offset : ℕ) (name : List ℕ) (i : ℕ)
    → (write_name left nv offset name i).size ≡ nv.size
unfolding write_name
size-write_name zero nv offset name i = refl
size-write_name (suc left) nv offset name i = ground (
  arith,
  size-write_name left (write_byte nv (u32 (offset + 4 + i)) (get_or name i 0)) offset name (i + 1),
  size-write 1 nv (u32 (offset + 4 + i)) (get_or name i 0),
)

pub byte-write_name :
    (left : ℕ) (nv : Nvram) (offset : ℕ) (name : List ℕ) (i j : ℕ)
    → IsSmall nv
    → offset + 4 + i + left ≤ nv.size
    → (write_name left nv offset name i).bytes j ≡ (
        if leb (offset + 4 + i) j && ltb j (offset + 4 + i + left)
        then get_or name (j - (offset + 4)) 0 % 256
        else nv.bytes j)
unfolding write_name
byte-write_name zero nv offset name i j s h = ground arith
byte-write_name (suc left) nv offset name i j s h =
    let here : u32 (offset + 4 + i) ≡ offset + 4 + i = omega arith in
    ground (
      arith,
      here,
      size-write 1 nv (u32 (offset + 4 + i)) (get_or name i 0),
      byte-write_byte nv (u32 (offset + 4 + i)) (get_or name i 0) j s,
      byte-write_name left (write_byte nv (u32 (offset + 4 + i)) (get_or name i 0)) offset name
          (i + 1) j,
      ap (λ t. get_or name t 0) here',
    )
  where
    here' : offset + 4 + i - (offset + 4) ≡ i
    here' = omega arith

module _ (nv : Nvram) (s : IsSmall nv) where
  first_byte :
      (offset v : ℕ) → offset < nv.size → nv.bytes (offset + 0) ≡ v → read_byte nv offset ≡ v
  first_byte offset v h e =
      let at_start : offset + 0 ≡ offset = omega arith in
      read_byte-in nv offset s h ∙ (rw at_start at e)

  -- A name is read back with zeros behind it.
  name_from-pad :
      (left offset : ℕ) (name : List ℕ)
      → offset + left ≤ nv.size
      → ((i : ℕ) → i < left → nv.bytes (offset + i) ≡ get_or name i 0)
      → name_from left nv offset ≡ pad_name left name
  unfolding name_from pad_name
  name_from-pad zero offset name h b = refl
  name_from-pad (suc left) offset [] h b =
      ap₂ ◌∷◌ (first_byte offset 0 (omega arith) (b 0 (omega arith))) (
        rw unwrapped (
          name_from-pad left (offset + 1) [] (omega arith)
            (λ i k. rw (shifted i) (b (suc i) (omega arith)))))
    where
      unwrapped : u32 (offset + 1) ≡ offset + 1
      unwrapped = omega arith

      shifted : (i : ℕ) → offset + 1 + i ≡ offset + suc i
      shifted i = omega arith
  name_from-pad (suc left) offset (c ∷ name) h b =
      ap₂ ◌∷◌ (first_byte offset c (omega arith) (b 0 (omega arith))) (
        rw unwrapped (
          name_from-pad left (offset + 1) name (omega arith)
            (λ i k. rw (shifted i) (b (suc i) (omega arith)))))
    where
      unwrapped : u32 (offset + 1) ≡ offset + 1
      unwrapped = omega arith

      shifted : (i : ℕ) → offset + 1 + i ≡ offset + suc i
      shifted i = omega arith

-- What is stored as a name compares equal to the name.
pub prefix-pad_name : (n : ℕ) (name : List ℕ) → prefix n (pad_name n name) ≡ prefix n name
unfolding prefix pad_name
prefix-pad_name zero name = refl
prefix-pad_name (suc n) [] = refl
prefix-pad_name (suc n) (c ∷ name) = ground (arith, prefix-pad_name n name)

abbrev pub IsChars : List ℕ → Type 0
IsChars [] = Unit {0}
IsChars (x ∷ xs) = (x < 256) × IsChars xs

get_or-IsChars : (xs : List ℕ) (i : ℕ) → IsChars xs → get_or xs i 0 < 256
get_or-IsChars [] i h = omega arith
get_or-IsChars (x ∷ xs) zero (h, hs) = h
get_or-IsChars (x ∷ xs) (suc i) (h, hs) = get_or-IsChars xs i hs

-- A free place for a header at `offset`, and the arguments that fill it.
pub record CanWrite (nv : Nvram) (offset type : ℕ) (name : List ℕ) (plen : ℕ) : Type 0 where
  pub small : IsSmall nv
  pub room : offset + 16 ≤ nv.size
  pub typed : type % 256 ≢ 0
  pub fits : plen ≤ nv.size
  pub blocks : 16 ≤ plen
  pub short : length name ≤ 12
  pub plain : strlen name ≡ length name
  pub chars : IsChars name
  pub clear : (i : ℕ) → i < 12 → nv.bytes (offset + 4 + i) ≡ 0

get_or-past : (xs : List ℕ) (i : ℕ) → length xs ≤ i → get_or xs i 0 ≡ 0
get_or-past [] i h = refl
get_or-past (x ∷ xs) zero h = absurd (omega arith)
get_or-past (x ∷ xs) (suc i) h = get_or-past xs i (omega arith)

module _ {nv : Nvram} {offset type : ℕ} {name : List ℕ} {plen : ℕ}
    (c : CanWrite nv offset type name plen) where
  -- The memory before the checksum is written, and after.
  named : Nvram
  named =
      write_name (strlen name)
        (write_word (write_byte nv offset type) (u32 (offset + 2)) (plen / 16)) offset name 0

  abbrev pub result : Nvram
  result = write_header nv offset type name plen

  named-size : named.size ≡ nv.size
  unfolding named
  named-size = omega (
    arith,
    size-write_name (strlen name)
        (write_word (write_byte nv offset type) (u32 (offset + 2)) (plen / 16)) offset name 0,
    size-write 2 (write_byte nv offset type) (u32 (offset + 2)) (plen / 16),
    size-write 1 nv offset type,
  )

  name_byte : ℕ → ℕ
  name_byte j = get_or name (j - (offset + 4)) 0

  past_name : (j : ℕ) → offset + 4 + length name ≤ j → j < offset + 16 → name_byte j ≡ nv.bytes j
  unfolding name_byte
  past_name j h k =
      let back : offset + 4 + (j - (offset + 4)) ≡ j = omega arith in
      get_or-past name (j - (offset + 4)) (omega arith)
      ∙ sym (rw back at (c.clear (j - (offset + 4)) (omega arith)))

  -- The header before its checksum, byte by byte.
  named-byte :
      (j : ℕ)
      → named.bytes j ≡ (
          if j == offset
          then type % 256
          else if j == offset + 2
          then plen / 16 / 256
          else if j == offset + 3
          then plen / 16 % 256
          else if leb (offset + 4) j && ltb j (offset + 16)
          then name_byte j
          else nv.bytes j)
  unfolding named
  named-byte j = ground (
    arith,
    c.room,
    c.fits,
    c.short,
    c.plain,
    c.small,
    unwrapped,
    past_name j,
    char,
    byte-write_byte nv offset type j c.small,
    byte-write_word typed (u32 (offset + 2)) (plen / 16) j,
    byte-write_name (strlen name) sized offset name 0 j,
    size-write 1 nv offset type,
    size-write 2 typed (u32 (offset + 2)) (plen / 16),
  )
    where
      typed : Nvram
      typed = write_byte nv offset type

      sized : Nvram
      sized = write_word typed (u32 (offset + 2)) (plen / 16)

      unwrapped : u32 (offset + 2) ≡ offset + 2
      unwrapped = omega (arith, c.room, c.small)

      char : get_or name (j - (offset + 4)) 0 % 256 ≡ name_byte j
      char = unfold name_byte in omega (arith, get_or-IsChars name (j - (offset + 4)) c.chars)

  calc-lt : (mem : Nvram) → calc_checksum mem offset < 256
  unfolding calc_checksum
  calc-lt mem = omega arith

  unwrapped_one : u32 (offset + 1) ≡ offset + 1
  unwrapped_one = omega (arith, c.room, c.small)

  unwrapped_two : u32 (offset + 2) ≡ offset + 2
  unwrapped_two = omega (arith, c.room, c.small)

  unwrapped_four : u32 (offset + 4) ≡ offset + 4
  unwrapped_four = omega (arith, c.room, c.small)

  result-byte :
      (j : ℕ)
      → result.bytes j ≡ (if offset + 1 == j then calc_checksum named offset else named.bytes j)
  unfolding write_header named
  result-byte j = rw unwrapped_one (
      ground (
        arith,
        c.room,
        calc-lt named,
        named-size,
        byte-write_byte named (offset + 1) (calc_checksum named offset) j
            (omega (arith, c.small, named-size)),
      ))

  pub result-size : result.size ≡ nv.size
  unfolding write_header named
  result-size =
      omega (arith, named-size, size-write 1 named (u32 (offset + 1)) (calc_checksum named offset))

  -- No byte outside the header changes.
  pub result-outside : (j : ℕ) → (j < offset) ⊎ (offset + 16 ≤ j) → result.bytes j ≡ nv.bytes j
  result-outside j (inl h) = ground (arith, result-byte j, named-byte j)
  result-outside j (inr h) = ground (arith, result-byte j, named-byte j)

  result-IsSmall : IsSmall result
  result-IsSmall = omega (arith, result-size, c.small)

  named-IsSmall : IsSmall named
  named-IsSmall = omega (arith, named-size, c.small)

  behind_checksum : Agree named result (offset + 2) (offset + 16)
  behind_checksum = record {
    same_size = omega (arith, result-size, named-size);
    small = named-IsSmall;
    within = omega (arith, named-size, c.room);
    same_bytes = λ j h k. ground (arith, result-byte j);
  }

  first_same : read_byte result offset ≡ read_byte named offset
  first_same = ground (
    arith,
    read_byte-in result offset result-IsSmall (omega (arith, result-size, c.room)),
    read_byte-in named offset named-IsSmall (omega (arith, named-size, c.room)),
    result-byte offset,
  )

  calc-result : calc_checksum result offset ≡ calc_checksum named offset
  unfolding calc_checksum
  calc-result = rw (
    first_same,
    sum_same behind_checksum 14 (offset + 2) (read_byte named offset) (omega arith) (omega arith),
  )

  abbrev pub entry : Entry
  entry = record { type = type % 256; name = pad_name 12 name; blocks = plen / 16 }

  result-checked : header_checksum result offset ≡ calc_checksum result offset
  unfolding header_checksum
  result-checked =
      rw (unwrapped_one, calc-result)
        (ground (
          arith,
          read_byte-in result (offset + 1) result-IsSmall (omega (arith, result-size, c.room)),
          result-byte (offset + 1),
        ))

  result-typed : partition_type result offset ≡ type % 256
  unfolding partition_type
  result-typed = ground (
    arith,
    read_byte-in result offset result-IsSmall (omega (arith, result-size, c.room)),
    result-byte offset,
    named-byte offset,
  )

  result-sized : partition_len result offset ≡ plen / 16
  unfolding partition_len
  result-sized = rw unwrapped_two (
      ground (
        arith,
        read_word-in result (offset + 2) result-IsSmall (omega (arith, result-size, c.room)),
        result-byte (offset + 2),
        result-byte (offset + 2 + 1),
        named-byte (offset + 2),
        named-byte (offset + 2 + 1),
      ))

  name_byte-at : (i : ℕ) → name_byte (offset + 4 + i) ≡ get_or name i 0
  unfolding name_byte
  name_byte-at i =
      let index : offset + 4 + i - (offset + 4) ≡ i = omega arith in ap (λ t. get_or name t 0) index

  character : (i : ℕ) → i < 12 → result.bytes (offset + 4 + i) ≡ get_or name i 0
  character i h =
      ground (arith, result-byte (offset + 4 + i), named-byte (offset + 4 + i), name_byte-at i)

  result-named : partition_name result offset ≡ pad_name 12 name
  unfolding partition_name
  result-named = rw unwrapped_four (
      name_from-pad result result-IsSmall 12 (offset + 4) name (omega (arith, result-size, c.room))
        λ i h. character i h)

  -- The header that was written is the entry that was asked for.
  pub result-IsEntry : IsEntry result offset entry
  result-IsEntry = record {
    below = omega (arith, result-size, c.room);
    checked = result-checked;
    typed = result-typed;
    named = result-named;
    sized = result-sized;
    used = c.typed;
    pos = omega (arith, c.blocks);
    few = omega (arith, c.fits, c.small);
  }
