-- ===== src/Nvram/Env/Add.antt =====
-- lib/libnvram/envvar.c: `nvram_add_env` appends a variable.
use slof.Prelude.{ℕ, zero, suc, ◌+◌, ◌-◌, ◌%◌, ◌≤◌, ◌<◌, ◌≡◌, ◌==◌, ◌∙◌, ap, arith, refl}
use slof.Prelude.{List, [], ◌∷◌, ◌++◌, ◌&&◌, leb, ltb, get_or, length, if◌then◌else◌}
use slof.Nvram.Store.{Nvram, u32, read_byte, write_byte}
use slof.Nvram.Store.Laws.{IsSmall, size-write, byte-write_byte, read_byte-in}
use slof.Nvram.Partition.{Partition}
use slof.Nvram.Env.{write_run, write_entry, add_env}
use slof.Nvram.Env.Get.{IsEnv, IsEnv-le}
use slof.Nvram.Env.Last.{find_last-IsEnv}
use slof.Nvram.Env.Append.{
  IsText, SpelledAt-bytes, IsEnv-append, get_or-append, get_or-IsText, IsText-append, assignment,
  get_or-cons, length-assignment, assignment-ne-nil, get_or-end,
}

write_run-size :
    (left : ℕ) (nv : Nvram) (offset : ℕ) (src : List ℕ) (i : ℕ)
    → (write_run left nv offset src i).size ≡ nv.size
unfolding write_run
write_run-size zero nv offset src i = refl
write_run-size (suc left) nv offset src i = ground (
  arith,
  write_run-size left (write_byte nv offset (get_or src i 0)) (u32 (offset + 1)) src (i + 1),
  size-write 1 nv offset (get_or src i 0),
)

write_run-byte :
    (left : ℕ) (nv : Nvram) (offset : ℕ) (src : List ℕ) (i j : ℕ)
    → IsSmall nv
    → offset + left ≤ nv.size
    → (write_run left nv offset src i).bytes j ≡ (
        if leb offset j && ltb j (offset + left)
        then get_or src (i + (j - offset)) 0 % 256
        else nv.bytes j)
unfolding write_run
write_run-byte zero nv offset src i j s h = ground arith
write_run-byte (suc left) nv offset src i j s h = ground (
  arith,
  step,
  start,
  shift,
  size-write 1 nv offset (get_or src i 0),
  byte-write_byte nv offset (get_or src i 0) j s,
  write_run-byte left (write_byte nv offset (get_or src i 0)) (u32 (offset + 1)) src (i + 1) j,
)
  where
    step : u32 (offset + 1) ≡ offset + 1
    step = omega arith

    start : offset ≡ j → get_or src (i + (j - offset)) 0 ≡ get_or src i 0
    start e = ap (λ t. get_or src t 0) (omega arith)

    shift : offset < j → get_or src (i + 1 + (j - (offset + 1))) 0 ≡ get_or src (i + (j - offset)) 0
    shift e = ap (λ t. get_or src t 0) (omega arith)

-- Room in the partition for a variable behind its end `e` and for the 0 behind it; the bytes after
-- its characters are clear.
pub record CanAdd (nv : Nvram) (part : Partition) (e : ℕ) (name value : List ℕ) : Type 0 where
  pub small : IsSmall nv
  pub inside : part.addr + part.len ≤ nv.size
  pub room : e + length name + length value + 2 < part.addr + part.len
  pub short : length name + length value + 1 ≤ 256
  pub name_text : IsText name
  pub value_text : IsText value
  pub clear : nv.bytes (e + length name + length value + 1) ≡ 0
  pub clear_next : nv.bytes (e + length name + length value + 2) ≡ 0

module _ {nv : Nvram} {part : Partition} {e : ℕ} {name value : List ℕ}
    (c : CanAdd nv part e name value) where
  abbrev written : Nvram
  written = write_entry nv e name (length name) value (length value)

  named : Nvram
  named = write_run (length name) nv e name 0

  equals : Nvram
  equals = write_byte named (e + length name) b'='

  named-size : named.size ≡ nv.size
  unfolding named
  named-size = write_run-size (length name) nv e name 0

  equals-size : equals.size ≡ nv.size
  unfolding equals
  equals-size = omega (arith, named-size, size-write 1 named (e + length name) b'=')

  written-eq : written ≡ write_run (length value) equals (e + length name + 1) value 0
  unfolding write_entry named equals
  written-eq =
      let a : u32 (e + length name) ≡ e + length name = omega (arith, c.small, c.inside, c.room) in
      let b : u32 (e + length name + 1) ≡ e + length name + 1 =
        omega (arith, c.small, c.inside, c.room) in
      rw (a, b)

  written-size : written.size ≡ nv.size
  written-size =
      ap (λ (m : Nvram). m.size) written-eq
      ∙ write_run-size (length value) equals (e + length name + 1) value 0
      ∙ equals-size

  named-byte :
      (j : ℕ)
      → named.bytes j
        ≡ (if leb e j && ltb j (e + length name) then get_or name (j - e) 0 else nv.bytes j)
  unfolding named
  named-byte j = ground (
    arith,
    write_run-byte (length name) nv e name 0 j c.small (omega (arith, c.inside, c.room)),
    get_or-IsText name (0 + (j - e)) c.name_text,
    ap (λ t. get_or name t 0) index,
  )
    where
      index : 0 + (j - e) ≡ j - e
      index = omega arith

  written-byte :
      (j : ℕ)
      → written.bytes j ≡ (
          if leb (e + length name + 1) j && ltb j (e + length name + 1 + length value)
          then get_or value (j - (e + length name + 1)) 0
          else if j == e + length name
          then b'='
          else named.bytes j)
  written-byte j = rw written-eq (
      ground (
        arith,
        write_run-byte (length value) equals (e + length name + 1) value 0 j
            (omega (arith, equals-size, c.small)) (omega (arith, equals-size, c.inside, c.room)),
        get_or-IsText value (0 + (j - (e + length name + 1))) c.value_text,
        ap (λ t. get_or value t 0) index,
        equals-byte,
      ))
    where
      index : 0 + (j - (e + length name + 1)) ≡ j - (e + length name + 1)
      index = omega arith

      equals-byte : equals.bytes j ≡ (if j == e + length name then b'=' else named.bytes j)
      equals-byte =
          unfold equals in
          ground (
            arith,
            named-size,
            c.inside,
            c.room,
            byte-write_byte named (e + length name) b'=' j (omega (arith, named-size, c.small)),
          )

  written-character :
      (i : ℕ)
      → i ≤ length (assignment name value)
      → written.bytes (e + i) ≡ get_or (assignment name value) i 0
  written-character i h = ground (
    arith,
    length-assignment name value,
    written-byte (e + i),
    named-byte (e + i),
    get_or-append name (b'=' ∷ value) i,
    get_or-cons b'=' value (i - length name),
    get_or-end value (i - length name - 1),
    ap (λ t. get_or name t 0) in_name,
    ap (λ t. get_or value t 0) in_value,
    last,
  )
    where
      in_name : e + i - e ≡ i
      in_name = omega arith

      in_value : e + i - (e + length name + 1) ≡ i - length name - 1
      in_value = omega arith

      last : i ≡ length name + length value + 1 → nv.bytes (e + i) ≡ 0
      last q =
          let here : e + i ≡ e + length name + length value + 1 = omega arith in rw here c.clear

  written-below : (j : ℕ) → j < e → read_byte written j ≡ read_byte nv j
  written-below j h = ground (
    arith,
    c.inside,
    c.room,
    written-size,
    read_byte-in written j (omega (arith, written-size, c.small))
        (omega (arith, written-size, c.inside, c.room)),
    read_byte-in nv j c.small (omega (arith, c.inside, c.room)),
    written-byte j,
    named-byte j,
  )

  written-end : read_byte written (e + length (assignment name value) + 1) ≡ 0
  written-end =
      let here : e + length (assignment name value) + 1 ≡ e + length name + length value + 2 =
        omega (arith, length-assignment name value) in
      rw here (
        ground (
          arith,
          read_byte-in written (e + length name + length value + 2)
              (omega (arith, written-size, c.small))
              (omega (arith, written-size, c.inside, c.room)),
          written-byte (e + length name + length value + 2),
          named-byte (e + length name + length value + 2),
          c.clear_next,
        ))

  -- What `nvram_add_env` leaves is the list of variables with the new one behind the others.
  written-IsEnv :
      (es : List (List ℕ))
      → IsEnv nv part.addr es e
      → IsEnv written part.addr
          (es ++ (assignment name value ∷ []))
          (e + length (assignment name value) + 1)
  written-IsEnv es v =
      IsEnv-append nv written es (assignment name value) part.addr e written-size written-below
        (assignment-ne-nil name value) (omega (arith, length-assignment name value, c.short))
        (SpelledAt-bytes written (assignment name value) e (omega (arith, written-size, c.small))
          (IsText-append name (b'=' ∷ value) c.name_text (omega arith, omega arith, c.value_text))
          (omega (arith, length-assignment name value, written-size, c.inside, c.room))
          written-character)
        (omega (arith, length-assignment name value, c.inside, c.room)) written-end v

-- On a valid list of variables that ends at `e`, in a memory of 8 to 2 ^ 20 - 1 bytes, with room in the
-- partition for a variable of at most 256 characters and the two bytes after it clear, `nvram_add_env`
-- succeeds; the partition then holds the variables that it held, in order, and the new one behind
-- them. The memory keeps its size.
pub add_env-IsEnv :
    {nv : Nvram} (part : Partition) (es : List (List ℕ)) (e : ℕ) (name value : List ℕ)
    → IsEnv nv part.addr es e
    → CanAdd nv part e name value
    → (nv' : Nvram) × (add_env nv part name (length name) value (length value) ≡ (0, nv'))
      × (nv'.size ≡ nv.size)
      × IsEnv nv' part.addr
          (es ++ (assignment name value ∷ []))
          (e + length (assignment name value) + 1)
unfolding add_env
add_env-IsEnv {nv} part es e name value v c = (
  written c,
  ground (
    arith,
    find_last-IsEnv nv part es e c.small v c.inside (omega (arith, c.room)),
    c.room,
    c.inside,
    c.small,
    IsEnv-le nv part.addr es e v,
  ),
  written-size c,
  written-IsEnv c es v,
)
