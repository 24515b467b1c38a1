-- ===== src/Net/Dhcp/Options/Find.antt =====
-- lib/libnet/dhcp.c: `dhcp_find_option` on a list of options.
use slof.Prelude.{ℕ, suc, ◌+◌, ◌-◌, ◌^◌, ◌≤◌, ◌<◌, ◌≡◌, ◌≢◌, ◌==◌, ◌∙◌, arith, refl}
use slof.Prelude.{Bool, false, none, some, List, [], ◌∷◌, ◌++◌, length}
use slof.Libc.Memory.{Memory}
use slof.Net.Dhcp.Options.{u32, find_from, find_option}
use slof.Net.Dhcp.Options.Layout.{Item, pad, item, size, total, ItemAt, OptionsAt, OptionsAt-split}

abbrev pub has_code : ℕ → Item → Bool
has_code op_code pad = false
has_code op_code (item code content) = code == op_code

abbrev pub AllOther : ℕ → List Item → Type 0
AllOther op_code [] = Unit {0}
AllOther op_code (i ∷ items) = (has_code op_code i ≡ false) × AllOther op_code items

abbrev pub length_items : List Item → ℕ
length_items [] = 0
length_items (i ∷ items) = suc (length_items items)

-- The search steps over an option with another code.
find_from-item :
    (fuel : ℕ) (m : Memory) (options len op_code offset : ℕ) (i : Item)
    → len < 2 ^ 31
    → offset + size i ≤ len
    → op_code ≢ 0
    → ItemAt m (options + offset) i
    → has_code op_code i ≡ false
    → find_from (suc fuel) m options len op_code offset
      ≡ find_from fuel m options len op_code (offset + size i)
unfolding find_from
find_from-item fuel m options len op_code offset pad s l c h e =
    let step : u32 (offset + 1) ≡ offset + 1 = omega arith in ground (arith, step)
find_from-item fuel m options len op_code offset (item code content) s l c (h, lo, hi, n, _) e =
    let step : u32 (offset + (2 + length content)) ≡ offset + (2 + length content) = omega arith in
    ground (arith, step)

-- Where no option has the code, the search goes on behind them.
pub find_from-passes :
    (more : ℕ) (m : Memory) (options len op_code offset : ℕ) (items : List Item)
    → len < 2 ^ 31
    → offset + total items ≤ len
    → op_code ≢ 0
    → OptionsAt m (options + offset) items
    → AllOther op_code items
    → find_from (length_items items + more) m options len op_code offset
      ≡ find_from more m options len op_code (offset + total items)
find_from-passes more m options len op_code offset [] s l c h o =
    let none_passed : offset + 0 ≡ offset = omega arith in
    let rounds : 0 + more ≡ more = omega arith in rw (none_passed, rounds)
find_from-passes more m options len op_code offset (i ∷ items) s l c (h, hs) (e, o) =
    let rounds : suc (length_items items) + more ≡ suc (length_items items + more) = omega arith in
    let place : options + (offset + size i) ≡ options + offset + size i = omega arith in
    let behind : offset + (size i + total items) ≡ offset + size i + total items = omega arith in
    rw (rounds, behind)
      (find_from-item (length_items items + more) m options len op_code offset i s (omega arith) c h
          e
        ∙ find_from-passes more m options len op_code (offset + size i) items s (omega arith) c
            (rw place hs) o)

length_items-le : (items : List Item) → length_items items ≤ total items
length_items-le [] = omega arith
length_items-le (pad ∷ items) = omega (arith, length_items-le items)
length_items-le (item code content ∷ items) = omega (arith, length_items-le items)

-- The fuel of the search is enough to pass the options.
find_option-passes :
    (m : Memory) (options len op_code : ℕ) (items : List Item)
    → len < 2 ^ 31
    → total items ≤ len
    → op_code ≢ 0
    → OptionsAt m options items
    → AllOther op_code items
    → (more : ℕ) × (find_option m options len op_code
        ≡ find_from (suc more) m options len op_code (total items))
unfolding find_option
find_option-passes m options len op_code items s l c h o =
    let more = len - length_items items in
    let rounds : suc len ≡ length_items items + suc more = omega (arith, length_items-le items) in
    let start : options + 0 ≡ options = omega arith in
    let first : 0 + total items ≡ total items = omega arith in
    let passed =
      find_from-passes (suc more) m options len op_code 0 items s (omega arith) c (rw start h) o in
    (more, rw (rounds) (rw first at passed))

-- The first option of a code is found at its offset.
pub find_option-first :
    (m : Memory) (options len op_code : ℕ) (before after : List Item) (content : List ℕ)
    → len < 2 ^ 31
    → total before < len
    → op_code ≢ 0
    → OptionsAt m options (before ++ (item op_code content ∷ after))
    → AllOther op_code before
    → find_option m options len op_code ≡ some (some (total before))
unfolding find_from
find_option-first m options len op_code before after content s l c h o =
    let (first, second) = OptionsAt-split m options before (item op_code content ∷ after) h in
    let (more, e) = find_option-passes m options len op_code before s (omega arith) c first o in
    rw e (ground (arith, second.0.0))

-- A code that no option has is not found.
pub find_option-missing :
    (m : Memory) (options len op_code : ℕ) (items : List Item)
    → len < 2 ^ 31
    → total items ≡ len
    → op_code ≢ 0
    → OptionsAt m options items
    → AllOther op_code items
    → find_option m options len op_code ≡ some none
unfolding find_from
find_option-missing m options len op_code items s l c h o =
    let (more, e) = find_option-passes m options len op_code items s (omega arith) c h o in
    rw e (ground arith)

AllOther-end : (m : Memory) (a : ℕ) (items : List Item) → OptionsAt m a items → AllOther 255 items
AllOther-end m a [] h = tt
AllOther-end m a (pad ∷ items) (i, h) = (refl, AllOther-end m (a + 1) items h)
AllOther-end m a (item code content ∷ items) (i, h) =
    (ground (arith, i.2), AllOther-end m (a + (2 + length content)) items h)

-- The end mark is found behind the options, and not where there is none.
pub find_option-end :
    (m : Memory) (options len : ℕ) (items : List Item)
    → len < 2 ^ 31
    → total items < len
    → OptionsAt m options items
    → m (options + total items) ≡ 255
    → find_option m options len 255 ≡ some (some (total items))
unfolding find_from
find_option-end m options len items s l h e =
    let (more, q) =
      find_option-passes m options len 255 items s (omega arith) (omega arith) h
        (AllOther-end m options items h) in
    rw q (ground (arith, e))

pub find_option-no_end :
    (m : Memory) (options len : ℕ) (items : List Item)
    → len < 2 ^ 31
    → total items ≡ len
    → OptionsAt m options items
    → find_option m options len 255 ≡ some none
find_option-no_end m options len items s l h =
    find_option-missing m options len 255 items s l (omega arith) h (AllOther-end m options items h)
