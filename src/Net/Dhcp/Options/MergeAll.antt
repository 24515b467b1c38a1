-- ===== src/Net/Dhcp/Options/MergeAll.antt =====
-- lib/libnet/dhcp.c: `dhcp_merge_options` implements the merging of lists of options.
use slof.Prelude.{ℕ, zero, suc, ◌+◌, ◌^◌, ◌≤◌, ◌<◌, ◌≡◌, ◌==◌, ◌∙◌, ◌⊎◌, arith, refl, inl, inr, ltb}
use slof.Prelude.{Bool, true, false, Option, some, List, [], ◌∷◌, length}
use slof.Libc.Memory.{Memory}
use slof.Net.Dhcp.Options.{u32, merge_from, merge_options}
use slof.Net.Dhcp.Options.Layout.{Item, pad, item, size, total, OptionsAt, OptionsAt-moved}
use slof.Net.Dhcp.Options.Find.{find_option-end, find_option-no_end}
use slof.Net.Dhcp.Options.Append.{Apart, Holds, NewOption}
use slof.Net.Dhcp.Options.Merge.{
  merge_items, merge_item, AllFit, Ended, merge_option-Holds, total-merge_item,
}

-- The state in front of one round of the merge.
record CanMerge (m : Memory) (dst len space : ℕ) (items : List Item) (src src_len offset : ℕ)
    (more : List Item) : Type 0 where
  options_at : OptionsAt m dst items
  length_eq : total items ≡ len
  more_at : OptionsAt m (src + offset) more
  ended :
      (offset + total more ≡ src_len)
      ⊎ ((offset + total more < src_len) × (m (src + offset + total more) ≡ 255))
  room : len + total more ≤ space
  apart : Apart dst space src src_len
  small : space ≤ 1024
  src_small : src_len < 2 ^ 31
  all_fit : AllFit items more

ended-le :
    (m : Memory) (a offset n src_len : ℕ)
    → (offset + n ≡ src_len) ⊎ ((offset + n < src_len) × (m a ≡ 255))
    → offset + n ≤ src_len
ended-le m a offset n src_len (inl e) = omega arith
ended-le m a offset n src_len (inr e) = omega (arith, e.0)

-- What is left of the source after a round that wrote to the other list only.
module _ (m m' : Memory) (dst len len' space : ℕ) (items items' : List Item)
    (src src_len offset : ℕ) (i : Item) (more : List Item)
    (c : CanMerge m dst len space items src src_len offset (i ∷ more))
    (h : Holds m m' dst len' items') (grown : len' ≤ len + size i) where
  src-kept : (j : ℕ) → src ≤ j → j < src + src_len → m' j ≡ m j
  src-kept j a b = go c.apart
    where
      go : Apart dst space src src_len → m' j ≡ m j
      go (inl k) = h.outside j (inr (omega (arith, c.room)))
      go (inr k) = h.outside j (inl (omega arith))

  CanMerge-next :
      AllFit items' more → CanMerge m' dst len' space items' src src_len (offset + size i) more
  CanMerge-next f = record {
    options_at = h.options_at;
    length_eq = h.length_eq;
    more_at = rw place (
        OptionsAt-moved m m' (src + offset + size i) (src + offset + size i) more
          (λ j k. src-kept (src + offset + size i + j) (omega arith) (omega (arith, within)))
          c.more_at.1);
    ended = go c.ended;
    room = omega (arith, c.room);
    apart = c.apart;
    small = c.small;
    src_small = c.src_small;
    all_fit = f;
  }
    where
      within : offset + (size i + total more) ≤ src_len
      within =
          ended-le m (src + offset + (size i + total more)) offset (size i + total more) src_len
            c.ended

      place : src + (offset + size i) ≡ src + offset + size i
      place = omega arith

      go :
          (offset + (size i + total more) ≡ src_len)
            ⊎ ((offset + (size i + total more) < src_len)
                × (m (src + offset + (size i + total more)) ≡ 255))
          → (offset + size i + total more ≡ src_len)
            ⊎ ((offset + size i + total more < src_len)
                × (m' (src + (offset + size i) + total more) ≡ 255))
      go (inl e) = inl (omega arith)
      go (inr (k, e)) = inr (
        omega arith,
        (let q : src + (offset + size i) + total more ≡ src + offset + (size i + total more) =
              omega arith in
            rw q (src-kept (src + offset + (size i + total more)) (omega arith) (omega arith) ∙ e)),
      )

Apart-part : (a n b k n' o k' : ℕ) → Apart a n b k → n' ≤ n → o + k' ≤ k → Apart a n' (b + o) k'
Apart-part a n b k n' o k' (inl h) p q = inl (omega arith)
Apart-part a n b k n' o k' (inr h) p q = inr (omega arith)

Holds-trans :
    (m m' m'' : Memory) (dst len len' : ℕ) (items items' : List Item)
    → Holds m m' dst len items
    → Holds m' m'' dst len' items'
    → len ≤ len'
    → Holds m m'' dst len' items'
Holds-trans m m' m'' dst len len' items items' h k l = record {
  options_at = k.options_at;
  length_eq = k.length_eq;
  outside = λ j o. k.outside j o ∙ h.outside j (shorter j o);
}
  where
    shorter : (j : ℕ) → (j < dst) ⊎ (dst + len' ≤ j) → (j < dst) ⊎ (dst + len ≤ j)
    shorter j (inl a) = inl a
    shorter j (inr a) = inr (omega arith)

Merges : Memory → ℕ → ℕ → List Item → Option (Bool × Memory × ℕ) → Type 0
Merges m dst len items o =
    (r : Memory × ℕ) × (o ≡ some (true, r.0, r.1)) × Holds m r.0 dst r.1 items × (len ≤ r.1)

Merges-later :
    (m m' : Memory) (dst len len' : ℕ) (items items' : List Item) (o : Option (Bool × Memory × ℕ))
    → Holds m m' dst len' items'
    → len ≤ len'
    → Merges m' dst len' items o
    → Merges m dst len items o
unfolding Merges
Merges-later m m' dst len len' items items' o h l (r, e, k, g) =
    (r, e, Holds-trans m m' r.0 dst len' r.1 items' items h k g, omega arith)

merge_from-Holds :
    (fuel : ℕ) (m : Memory) (dst len space : ℕ) (items : List Item) (src src_len offset : ℕ)
    (more : List Item)
    → CanMerge m dst len space items src src_len offset more
    → src_len < offset + fuel
    → Merges m dst len (merge_items items more) (merge_from fuel m dst len src src_len offset)
unfolding merge_from merge_items
merge_from-Holds zero m dst len space items src src_len offset more c f =
    absurd
      (omega (arith, ended-le m (src + offset + total more) offset (total more) src_len c.ended))
merge_from-Holds (suc fuel) m dst len space items src src_len offset [] c f = go c.ended
  where
    same : Holds m m dst len items
    same = record { options_at = c.options_at; length_eq = c.length_eq; outside = λ j k. refl }

    go :
        (offset + 0 ≡ src_len) ⊎ ((offset + 0 < src_len) × (m (src + offset + 0) ≡ 255))
        → Merges m dst len items (merge_from (suc fuel) m dst len src src_len offset)
    go (inl e) = unfold Merges in ((m, len), ground arith, same, omega arith)
    go (inr (k, e)) =
        let q : src + offset + 0 ≡ src + offset = omega arith in
        let at_end : m (src + offset) ≡ 255 = rw q at e in
        unfold Merges in ((m, len), ground arith, same, omega arith)
merge_from-Holds (suc fuel) m dst len space items src src_len offset (pad ∷ more) c f =
    let within =
      ended-le m (src + offset + (1 + total more)) offset (1 + total more) src_len c.ended in
    let below : ltb offset src_len ≡ true = ground arith in
    let step : u32 (offset + 1) ≡ offset + 1 = omega (arith, c.src_small) in
    let same : Holds m m dst len items = record {
      options_at = c.options_at;
      length_eq = c.length_eq;
      outside = λ j k. refl;
    } in
    rw (below, c.more_at.0, step)
      (merge_from-Holds fuel m dst len space items src src_len (offset + 1) more
        (CanMerge-next m m dst len len space items items src src_len offset pad more c same
          (omega arith) c.all_fit)
        (omega arith))
merge_from-Holds (suc fuel) m dst len space items src src_len offset (item code content ∷ more) c
      f =
    let within =
      ended-le m (src + offset + (2 + length content + total more)) offset
        (2 + length content + total more) src_len c.ended in
    let new : NewOption m dst len (src + offset) code content = record {
      new_at = c.more_at.0;
      apart =
          Apart-part dst space src src_len (len + (2 + length content)) offset (2 + length content)
            c.apart (omega (arith, c.room)) (omega arith);
      short = omega (arith, c.room, c.small);
    } in
    let (r, e, h) =
      merge_option-Holds m dst len (src + offset) code content items c.options_at c.length_eq new
        (omega (arith, c.room, c.small)) c.all_fit.0 in
    let sizes = total-merge_item items code content in
    let grown : r.1 ≤ len + (2 + length content) = omega (arith, sizes, h.length_eq, c.length_eq) in
    let longer : len ≤ r.1 = omega (arith, sizes, h.length_eq, c.length_eq) in
    let below : ltb offset src_len ≡ true = ground arith in
    let not_pad : (m (src + offset) == 0) ≡ false = ground (arith, c.more_at.0) in
    let not_end : (m (src + offset) == 255) ≡ false = ground (arith, c.more_at.0) in
    let kept : r.0 (src + offset + 1) ≡ length content =
      src-kept m r.0 dst len r.1 space items _ src src_len offset (item code content) more c h grown
        (src + offset + 1) (omega arith) (omega arith)
      ∙ c.more_at.0.3 in
    let step : u32 (offset + (2 + length content)) ≡ offset + (2 + length content) =
      omega (arith, c.src_small) in
    rw (below, not_pad, not_end, e, kept, step)
      (Merges-later m r.0 dst len r.1 _ _ _ h longer (
        merge_from-Holds fuel r.0 dst r.1 space (merge_item items code content) src src_len
          (offset + (2 + length content)) more
          (CanMerge-next m r.0 dst len r.1 space items _ src src_len offset (item code content) more
            c h grown c.all_fit.1)
          (omega arith)))

-- A list of options in each of two fields that share no byte, each up to its length, of less than
-- 2 ^ 31 bytes, or an end mark; the first has room for both in at most 1024 bytes, and no option gets more than 255 bytes. Then
-- `dhcp_merge_options` succeeds, without an overrun of `tmp_buffer`, and the first field holds the
-- merged list, up to the new length; no other byte changes.
pub merge_options-Holds :
    (m : Memory) (dst dst_len space : ℕ) (items : List Item) (src src_len : ℕ) (more : List Item)
    → OptionsAt m dst items
    → Ended m dst dst_len items
    → OptionsAt m src more
    → Ended m src src_len more
    → total items + total more ≤ space
    → dst_len < 2 ^ 31
    → space ≤ 1024
    → src_len < 2 ^ 31
    → Apart dst space src src_len
    → AllFit items more
    → (m' : Memory) × (len : ℕ) × (merge_options m dst dst_len src src_len ≡ some (true, m', len))
      × Holds m m' dst len (merge_items items more)
unfolding merge_options Merges
merge_options-Holds m dst dst_len space items src src_len more h e k g room l0 l1 l2 apart fit =
    go e
  where
    start : src + 0 ≡ src
    start = omega arith

    from_start :
        (0 + total more ≡ src_len) ⊎ ((0 + total more < src_len) × (m (src + 0 + total more) ≡ 255))
    from_start = rw start (shift g)
      where
        shift :
            Ended m src src_len more
            → (0 + total more ≡ src_len)
              ⊎ ((0 + total more < src_len) × (m (src + total more) ≡ 255))
        shift (inl q) = inl (omega arith)
        shift (inr (q, z)) = inr (omega arith, z)

    begin : CanMerge m dst (total items) space items src src_len 0 more
    begin = record {
      options_at = h;
      length_eq = refl;
      more_at = rw start k;
      ended = from_start;
      room = room;
      apart = apart;
      small = l1;
      src_small = l2;
      all_fit = fit;
    }

    merged :
        Merges m dst
          (total items)
          (merge_items items more)
          (merge_from (suc src_len) m dst (total items) src src_len 0)
    merged =
        merge_from-Holds (suc src_len) m dst (total items) space items src src_len 0 more begin
          (omega arith)

    go :
        Ended m dst dst_len items
        → (m' : Memory) × (len : ℕ) × (merge_options m dst dst_len src src_len
            ≡ some (true, m', len))
          × Holds m m' dst len (merge_items items more)
    go (inl q) = (
      merged.0.0,
      merged.0.1,
      rw (find_option-no_end m dst dst_len items l0 q h, ← q) merged.1,
      merged.2,
    )
    go (inr (q, z)) = (
      merged.0.0,
      merged.0.1,
      rw (find_option-end m dst dst_len items l0 q h z) merged.1,
      merged.2,
    )
