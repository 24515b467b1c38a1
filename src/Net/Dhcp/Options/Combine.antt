-- ===== src/Net/Dhcp/Options/Combine.antt =====
-- lib/libnet/dhcp.c: `dhcp_combine_option` adds bytes to an option in the middle.
use slof.Prelude.{
  ℕ, zero, suc, ◌+◌, ◌-◌, ◌*◌, ◌%◌, ◌^◌, ◌≤◌, ◌<◌, ◌≡◌, ◌==◌, ◌∙◌, ◌⊎◌, ap, arith, inl, inr, ltb,
  leb,
}
use slof.Prelude.{false, some, ◌&&◌, List, ◌∷◌, ◌++◌, length, length-append, if◌then◌else◌}
use slof.Libc.Memory.{Memory, update, memcpy, memcpy-byte}
use slof.Net.Dhcp.Options.{u32, copy_array, combine_option}
use slof.Net.Dhcp.Options.Layout.{
  BytesAt, Item, item, total, ItemAt, OptionsAt, OptionsAt-moved, OptionsAt-append, BytesAt-append,
  BytesAt-moved, OptionsAt-split, total-append,
}
use slof.Net.Dhcp.Options.Append.{Apart, Holds, NewOption}

pub copy_array-byte :
    (n : ℕ) (m : Memory) (dest : ℕ) (from : Memory) (src j : ℕ)
    → copy_array n m dest from src j
      ≡ (if leb dest j && ltb j (dest + n) then from (src + (j - dest)) else m j)
unfolding copy_array
copy_array-byte zero m dest from src j = ground arith
copy_array-byte (suc n) m dest from src j =
    ground (
      arith,
      copy_array-byte n (update m dest (from src)) (dest + 1) from (src + 1) j,
      start,
      shift,
    )
  where
    start : j ≡ dest → from (src + (j - dest)) ≡ from src
    start e = ap from (omega arith)

    shift : dest < j → from (src + 1 + (j - (dest + 1))) ≡ from (src + (j - dest))
    shift e = ap from (omega arith)

-- The option with the code of the new one, and room for its bytes.
pub record CanCombine (m : Memory) (dst len new code : ℕ) (content : List ℕ)
    (before after : List Item) (old : List ℕ) : Type 0 where
  pub new_option : NewOption m dst len new code content
  pub options_at : OptionsAt m dst (before ++ (item code old ∷ after))
  pub length_eq : total before + (2 + length old) + total after ≡ len
  pub fits : length old + length content < 256
  pub tail_fits : total after ≤ 1024

module _ (m : Memory) (dst len new code : ℕ) (content : List ℕ) (before after : List Item)
    (old : List ℕ) (c : CanCombine m dst len new code content before after old) where
  abbrev n : ℕ
  n = length content

  -- The first byte behind the option.
  abbrev t : ℕ
  t = total before + (2 + length old)

  option_at : ItemAt m (dst + total before) (item code old)
  option_at = (OptionsAt-split m dst before (item code old ∷ after) c.options_at).1.0

  moved : Memory
  moved =
      copy_array (total after) m (dst + t + n) (copy_array (total after) (λ _. 0) 0 m (dst + t)) 0

  added : Memory
  added = memcpy moved (dst + t) (new + 2) n

  moved-byte :
      (j : ℕ)
      → moved j
        ≡ (if leb (dst + t + n) j && ltb j (dst + t + n + total after) then m (j - n) else m j)
  unfolding moved
  moved-byte j = ground (
    arith,
    copy_array-byte (total after) m (dst + t + n) (copy_array (total after) (λ _. 0) 0 m (dst + t))
        0 j,
    copy_array-byte (total after) (λ _. 0) 0 m (dst + t) (0 + (j - (dst + t + n))),
    from_tail,
  )
    where
      from_tail : dst + t + n ≤ j → m (dst + t + (0 + (j - (dst + t + n)) - 0)) ≡ m (j - n)
      from_tail h = ap m (omega arith)

  -- The new option keeps its bytes while the others move.
  moved-new : (i : ℕ) → i < 2 + n → moved (new + i) ≡ m (new + i)
  moved-new i k = go c.new_option.apart
    where
      go : Apart dst (len + (2 + n)) new (2 + n) → moved (new + i) ≡ m (new + i)
      go (inl h) = ground (arith, c.length_eq, moved-byte (new + i))
      go (inr h) = ground (arith, c.length_eq, moved-byte (new + i))

  added-byte :
      (j : ℕ)
      → added j ≡ (
          if leb (dst + t) j && ltb j (dst + t + n)
          then m (new + (2 + (j - (dst + t))))
          else moved j)
  unfolding added
  added-byte j =
      ground (arith, memcpy-byte moved (dst + t) (new + 2) n j (apart c.new_option.apart), from_new)
    where
      apart : Apart dst (len + (2 + n)) new (2 + n) → (dst + t ≤ new + 2) ⊎ (new + 2 + n ≤ dst + t)
      apart (inl h) = inl (omega (arith, c.length_eq))
      apart (inr h) = inr (omega arith)

      from_new :
          dst + t ≤ j
          → j < dst + t + n
          → moved (new + 2 + (j - (dst + t))) ≡ m (new + (2 + (j - (dst + t))))
      from_new h k = ap moved (omega arith) ∙ moved-new (2 + (j - (dst + t))) (omega arith)

  added-new : added (new + 1) ≡ n
  added-new = go c.new_option.apart
    where
      go : Apart dst (len + (2 + n)) new (2 + n) → added (new + 1) ≡ n
      go (inl h) =
          ground (arith, c.length_eq, added-byte (new + 1), moved-new 1, c.new_option.new_at.3)
      go (inr h) =
          ground (arith, c.length_eq, added-byte (new + 1), moved-new 1, c.new_option.new_at.3)

  added-count : added (dst + total before + 1) ≡ length old
  added-count = ground (
    arith,
    c.length_eq,
    added-byte (dst + total before + 1),
    moved-byte (dst + total before + 1),
    option_at.3,
  )

  abbrev counted : Memory
  counted = update added (dst + total before + 1) (length old + n)

  combine_option-eq : combine_option m dst len (total before) new ≡ some (counted, len + n)
  unfolding combine_option moved added
  combine_option-eq =
      let tail_len : u32 (len + 2 * 2 ^ 32 - (total before + (2 + length old))) ≡ total after =
        omega (arith, c.length_eq, c.new_option.short) in
      let tail : dst + len - total after ≡ dst + t = omega (arith, c.length_eq) in
      let moved_new : moved (new + 1) ≡ n = moved-new 1 (omega arith) ∙ c.new_option.new_at.3 in
      let sum : (length old + n) % 256 ≡ length old + n = omega (arith, c.fits) in
      let other : (dst + total before + 1 == new + 1) ≡ false = elsewhere c.new_option.apart in
      let in_buffer : ltb 1024 (total after) ≡ false = ground (arith, c.tail_fits) in
      let length_sum : u32 (len + n) ≡ len + n = omega (arith, c.new_option.short) in
      rw (
        option_at.3, c.new_option.new_at.3, tail_len, tail, moved_new, added-count, added-new, sum,
        other, length_sum, in_buffer,
      )
    where
      elsewhere :
          Apart dst (len + (2 + n)) new (2 + n) → (dst + total before + 1 == new + 1) ≡ false
      elsewhere (inl h) = ground (arith, c.length_eq)
      elsewhere (inr h) = ground (arith, c.length_eq)

  counted-byte :
      (j : ℕ)
      → counted j ≡ (
          if dst + total before + 1 == j
          then length old + n
          else if leb (dst + t) j && ltb j (dst + t + n)
          then m (new + (2 + (j - (dst + t))))
          else if leb (dst + t + n) j && ltb j (dst + t + n + total after)
          then m (j - n)
          else m j)
  counted-byte j = ground (arith, added-byte j, moved-byte j)

  abbrev combined : Item
  combined = item code (old ++ content)

  split_at : OptionsAt m dst before × OptionsAt m (dst + total before) (item code old ∷ after)
  split_at = OptionsAt-split m dst before (item code old ∷ after) c.options_at

  content_at : BytesAt counted (dst + total before + 2 + length old) content
  content_at =
      BytesAt-moved m counted (new + 2) (dst + total before + 2 + length old) content
        (λ i k.
          ground (arith, counted-byte (dst + total before + 2 + length old + i), ap m (there i)))
        c.new_option.new_at.4
    where
      there :
          (i : ℕ) → new + (2 + (dst + total before + 2 + length old + i - (dst + t))) ≡ new + 2 + i
      there i = omega arith

  combined_at : ItemAt counted (dst + total before) combined
  combined_at = (
    ground (arith, counted-byte (dst + total before), option_at.0),
    option_at.1,
    option_at.2,
    ground (arith, length-append old content),
    BytesAt-append counted (dst + total before + 2) old content
        (BytesAt-moved m counted (dst + total before + 2) (dst + total before + 2) old
          (λ i k. ground (arith, counted-byte (dst + total before + 2 + i))) option_at.4)
        content_at,
  )

  after_at : OptionsAt counted (dst + total before + (2 + length (old ++ content))) after
  after_at =
      OptionsAt-moved m counted (dst + total before + (2 + length old))
        (dst + total before + (2 + length (old ++ content))) after
        (λ i k. ground (
          arith,
          length-append old content,
          counted-byte (dst + total before + (2 + length (old ++ content)) + i),
          ap m (there i),
        ))
        split_at.1.1
    where
      there :
          (i : ℕ)
          → dst + total before + (2 + length (old ++ content)) + i - n
            ≡ dst + total before + (2 + length old) + i
      there i = omega (arith, length-append old content)

  pub combine_option-Holds :
      (r : Memory × ℕ) × (combine_option m dst len (total before) new ≡ some r)
      × Holds m r.0 dst r.1 (before ++ (combined ∷ after))
  combine_option-Holds = (
    (counted, len + n),
    combine_option-eq,
    record {
      options_at =
          OptionsAt-append counted dst before (combined ∷ after)
            (OptionsAt-moved m counted dst dst before
              (λ i k. ground (arith, counted-byte (dst + i))) split_at.0)
            (combined_at, after_at);
      length_eq =
          omega
            (arith, total-append before (combined ∷ after), length-append old content, c.length_eq);
      outside = unchanged;
    },
  )
    where
      unchanged : (j : ℕ) → (j < dst) ⊎ (dst + (len + n) ≤ j) → counted j ≡ m j
      unchanged j (inl k) = ground (arith, counted-byte j)
      unchanged j (inr k) = ground (arith, counted-byte j, c.length_eq)
