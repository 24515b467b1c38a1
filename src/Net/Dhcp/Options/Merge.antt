-- ===== src/Net/Dhcp/Options/Merge.antt =====
-- lib/libnet/dhcp.c: the merging of two lists of options, and of one option in memory.
use slof.Prelude.{ℕ, ◌+◌, ◌≤◌, ◌<◌, ◌≡◌, ◌≢◌, ◌==◌, ◌∙◌, ◌⊎◌, ap, arith, refl, inl, inr, Bool-cases}
use slof.Prelude.{false, some, List, [], ◌∷◌, ◌++◌, length, length-append, if◌then◌else◌}
use slof.Libc.Memory.{Memory}
use slof.Net.Dhcp.Options.{append_option, merge_option}
use slof.Net.Dhcp.Options.Layout.{Item, pad, item, total, total-append, OptionsAt}
use slof.Net.Dhcp.Options.Find.{AllOther, has_code, find_option-first, find_option-missing}
use slof.Net.Dhcp.Options.Append.{Holds, NewOption, append_option-Holds}
use slof.Net.Dhcp.Options.Combine.{combine_option-Holds}

-- The bytes of an option are added to the first one of its code, or it is put behind all others.
unfoldable pub merge_item : List Item → ℕ → List ℕ → List Item
merge_item [] code content = item code content ∷ []
merge_item (pad ∷ items) code content = pad ∷ merge_item items code content
merge_item (item other old ∷ items) code content =
    if other == code
    then item other (old ++ content) ∷ items
    else item other old ∷ merge_item items code content

unfoldable pub merge_items : List Item → List Item → List Item
merge_items items [] = items
merge_items items (pad ∷ more) = merge_items items more
merge_items items (item code content ∷ more) = merge_items (merge_item items code content) more

-- No option of the code gets more than 255 bytes.
abbrev pub Fits : List Item → ℕ → List ℕ → Type 0
Fits [] code content = Unit {0}
Fits (pad ∷ items) code content = Fits items code content
Fits (item other old ∷ items) code content =
    (other ≡ code → length old + length content < 256) × Fits items code content

abbrev pub AllFit : List Item → List Item → Type 0
AllFit items [] = Unit {0}
AllFit items (pad ∷ more) = AllFit items more
AllFit items (item code content ∷ more) =
    Fits items code content × AllFit (merge_item items code content) more

-- Where the option goes.
data Place (code : ℕ) (content : List ℕ) (items : List Item) : Type 0 where
  behind :
      AllOther code items
      → merge_item items code content ≡ items ++ (item code content ∷ [])
      → Place code content items
  inside :
      (before after : List Item) (old : List ℕ)
      → items ≡ before ++ (item code old ∷ after)
      → AllOther code before
      → length old + length content < 256
      → merge_item items code content ≡ before ++ (item code (old ++ content) ∷ after)
      → Place code content items

Place-cons :
    (code : ℕ) (content : List ℕ) (i : Item) (items : List Item)
    → has_code code i ≡ false
    → merge_item (i ∷ items) code content ≡ i ∷ merge_item items code content
    → Place code content items
    → Place code content (i ∷ items)
Place-cons code content i items h e (behind o q) = behind (h, o) (e ∙ ap (λ t. i ∷ t) q)
Place-cons code content i items h e (inside before after old p o f q) =
    inside (i ∷ before) after old (ap (λ t. i ∷ t) p) (h, o) f (e ∙ ap (λ t. i ∷ t) q)

place :
    (code : ℕ) (content : List ℕ) (items : List Item)
    → Fits items code content
    → Place code content items
unfolding merge_item
place code content [] f = behind tt refl
place code content (pad ∷ items) f =
    Place-cons code content pad items refl refl (place code content items f)
place code content (item other old ∷ items) (f, g) = elim (Bool-cases (other == code)) [
  | inl e ↦
      let same : other ≡ code = ground arith in
      inside [] items old (rw same) tt (f same) (rw (e, same) refl)
  | inr e ↦ Place-cons code content (item other old) items e (rw e) (place code content items g)
]

-- One option is merged.
pub merge_option-Holds :
    (m : Memory) (dst len new code : ℕ) (content : List ℕ) (items : List Item)
    → OptionsAt m dst items
    → total items ≡ len
    → NewOption m dst len new code content
    → len ≤ 1024
    → Fits items code content
    → (r : Memory × ℕ) × (merge_option m dst len new ≡ some r)
      × Holds m r.0 dst r.1 (merge_item items code content)
unfolding merge_option
merge_option-Holds m dst len new code content items h l o short f = go (place code content items f)
  where
    nonzero : code ≢ 0
    nonzero = omega (arith, o.new_at.1)

    go :
        Place code content items
        → (r : Memory × ℕ) × (merge_option m dst len new ≡ some r)
          × Holds m r.0 dst r.1 (merge_item items code content)
    go (behind a q) = (
      append_option m dst len new,
      rw (
        merge_option,
        o.new_at.0,
        find_option-missing m dst len code items (omega (arith, o.short)) l nonzero h a,
      ),
      rw q (append_option-Holds m dst len new code content o items h l),
    )
    go (inside before after old p a g q) =
        let parts : total before + (2 + length old + total after) ≡ len =
          omega (arith, total-append before (item code old ∷ after), ap total p, l) in
        let here = rw p at h in
        let (r, e, k) = combine_option-Holds m dst len new code content before after old (record {
          new_option = o;
          options_at = here;
          length_eq = omega arith;
          fits = g;
          tail_fits = omega arith;
        }) in
        (
          r,
          rw
              (
                merge_option,
                o.new_at.0,
                find_option-first m dst len code before after old (omega (arith, o.short))
                    (omega arith) nonzero here a,
              )
              e,
          rw q k,
        )

pub total-merge_item :
    (items : List Item) (code : ℕ) (content : List ℕ)
    → (total items ≤ total (merge_item items code content))
      × (total (merge_item items code content) ≤ total items + (2 + length content))
unfolding merge_item
total-merge_item [] code content = omega arith
total-merge_item (pad ∷ items) code content = omega (arith, total-merge_item items code content)
total-merge_item (item other old ∷ items) code content =
    ground (arith, total-merge_item items code content, length-append old content)

-- The options end at the length of their field, or an end mark stands behind them.
abbrev pub Ended : Memory → ℕ → ℕ → List Item → Type 0
Ended m a len items = (total items ≡ len) ⊎ ((total items < len) × (m (a + total items) ≡ 255))
