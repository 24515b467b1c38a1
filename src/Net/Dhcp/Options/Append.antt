-- ===== src/Net/Dhcp/Options/Append.antt =====
-- lib/libnet/dhcp.c: `dhcp_append_option` puts an option behind the others.
use slof.Prelude.{ℕ, ◌+◌, ◌-◌, ◌^◌, ◌≤◌, ◌<◌, ◌≡◌, ◌⊎◌, ap, arith, inl, inr, ltb, leb}
use slof.Prelude.{◌&&◌, List, [], ◌∷◌, ◌++◌, length, if◌then◌else◌}
use slof.Libc.Memory.{Memory, memcpy-byte}
use slof.Net.Dhcp.Options.{append_option}
use slof.Net.Dhcp.Options.Layout.{
  Item, item, total, ItemAt, ItemAt-moved, OptionsAt, OptionsAt-moved, OptionsAt-append,
  total-append,
}

-- Two regions that share no byte.
abbrev pub Apart : ℕ → ℕ → ℕ → ℕ → Type 0
Apart a n b k = (a + n ≤ b) ⊎ (b + k ≤ a)

-- The options that stand at `dst` after a change that may write to their region only.
pub record Holds (m m' : Memory) (dst len : ℕ) (items : List Item) : Type 0 where
  pub options_at : OptionsAt m' dst items
  pub length_eq : total items ≡ len
  pub outside : (j : ℕ) → (j < dst) ⊎ (dst + len ≤ j) → m' j ≡ m j

-- An option in another list, whose bytes fit behind those of the first.
pub record NewOption (m : Memory) (dst len new code : ℕ) (content : List ℕ) : Type 0 where
  pub new_at : ItemAt m new (item code content)
  pub apart : Apart dst (len + (2 + length content)) new (2 + length content)
  pub short : len + (2 + length content) < 2 ^ 31

module _ (m : Memory) (dst len new code : ℕ) (content : List ℕ)
    (o : NewOption m dst len new code content) where
  append_option-byte :
      (j : ℕ)
      → (append_option m dst len new).0 j ≡ (
          if leb (dst + len) j && ltb j (dst + len + (2 + length content))
          then m (new + (j - (dst + len)))
          else m j)
  unfolding append_option
  append_option-byte j =
      rw (o.new_at.3) (memcpy-byte m (dst + len) new (2 + length content) j (weaker o.apart))
    where
      weaker :
          Apart dst (len + (2 + length content)) new (2 + length content)
          → (dst + len ≤ new) ⊎ (new + (2 + length content) ≤ dst + len)
      weaker (inl h) = inl (omega arith)
      weaker (inr h) = inr (omega arith)

  new_length-kept : (append_option m dst len new).0 (new + 1) ≡ length content
  new_length-kept = go o.apart
    where
      go :
          Apart dst (len + (2 + length content)) new (2 + length content)
          → (append_option m dst len new).0 (new + 1) ≡ length content
      go (inl h) = ground (arith, append_option-byte (new + 1), o.new_at.3)
      go (inr h) = ground (arith, append_option-byte (new + 1), o.new_at.3)

  append_option-length : (append_option m dst len new).1 ≡ len + (2 + length content)
  unfolding append_option
  append_option-length = rw (new_length-kept) (omega (arith, o.short))

  pub append_option-Holds :
      (items : List Item)
      → OptionsAt m dst items
      → total items ≡ len
      → Holds m
          (append_option m dst len new).0
          dst
          (append_option m dst len new).1
          (items ++ (item code content ∷ []))
  append_option-Holds items h l = record {
    options_at =
        OptionsAt-append (append_option m dst len new).0 dst items (item code content ∷ [])
          (OptionsAt-moved m (append_option m dst len new).0 dst dst items
            (λ i k. ground (arith, l, append_option-byte (dst + i))) h)
          (
            ItemAt-moved m (append_option m dst len new).0 new (dst + total items)
                (item code content)
                (λ i k.
                  ground (arith, l, append_option-byte (dst + total items + i), ap m (there i)))
                o.new_at,
            tt,
          );
    length_eq = omega (arith, total-append items (item code content ∷ []), append_option-length, l);
    outside = λ j k. unchanged j k;
  }
    where
      there : (i : ℕ) → new + (dst + total items + i - (dst + len)) ≡ new + i
      there i = omega (arith, l)

      unchanged :
          (j : ℕ)
          → (j < dst) ⊎ (dst + (append_option m dst len new).1 ≤ j)
          → (append_option m dst len new).0 j ≡ m j
      unchanged j (inl k) = ground (arith, append_option-byte j)
      unchanged j (inr k) = ground (arith, append_option-byte j, append_option-length)
