-- ===== src/Net/Dhcp/Decode/Items.antt =====
-- lib/libnet/dhcp.c: `dhcp_decode_options` of a list of options.
use slof.Prelude.{ℕ, zero, suc, ◌+◌, ◌-◌, ◌*◌, ◌^◌, ◌≤◌, ◌<◌, ◌≡◌, ◌==◌, ◌⊎◌, ap, arith, ltb}
use slof.Prelude.{
  Bool, true, false, Option, none, some, List, [], ◌∷◌, length, get_or, if◌then◌else◌,
}
use slof.Libc.Memory.{Memory, update}
use slof.Nvram.Store.{load}
use slof.Net.Dhcp.Options.{u32}
use slof.Net.Dhcp.Options.Layout.{Item, pad, item, size, total, ItemAt, OptionsAt, BytesAt}
use mathlib.Core.Path.{fun_ext}
use slof.Net.Dhcp.Options.Combine.{copy_array-byte}
use slof.Net.Dhcp.Decode.{
  DhcpOptions, Decoded, goes_on, no_options, store_option, leave_option, decode_from,
  decode_options, has_magic, copy_text, new_text,
}

-- Four bytes as a number, the first one on top.
abbrev pub be32 : List ℕ → ℕ
be32 content =
    get_or content 0 0 * 256 ^ 3
    + (get_or content 1 0 * 256 ^ 2 + (get_or content 2 0 * 256 + get_or content 3 0))

-- An array that gets the content and a terminator.
abbrev pub text_of : (ℕ → ℕ) → List ℕ → ℕ → ℕ
text_of array content j =
    if ltb j (length content)
    then get_or content j 0
    else if j == length content
    then 0
    else array j

-- What an option says of the structure.
unfoldable pub apply_item : (ℕ → Bool) → Item → Decoded → Decoded
apply_item has_memory pad d = record d { opt = record d.opt { flag = update d.opt.flag 0 1 } }
apply_item has_memory (item code content) d =
    let o : DhcpOptions = record d.opt { flag = update d.opt.flag code 1 } in
    let text : Option (ℕ → ℕ) =
      if has_memory (length content + 1) then some (text_of (λ _. 0) content) else none in
    if code == 52
    then record d { opt = record o { overload = get_or content 0 0 } }
    else if code == 50
    then record d { opt = record o { requested_ip = be32 content } }
    else if code == 1
    then record d { opt = record o { subnet_mask = be32 content } }
    else if code == 6
    then record d { opt = record o { dns_ip = be32 content } }
    else if code == 3
    then record d { opt = record o { router_ip = be32 content } }
    else if code == 53
    then record d { opt = record o { msg_type = get_or content 0 0 } }
    else if code == 54
    then record d { opt = record o { server_id = be32 content } }
    else if code == 66
    then record d { opt = record o { tftp_server = text_of o.tftp_server content } }
    else if code == 67
    then record d { opt = record o { bootfile = text_of o.bootfile content } }
    else if code == 93
    then record d { opt = record o { client_arch = get_or content 0 0 * 256 + get_or content 1 0 } }
    else if code == 209
    then record d { opt = o; pxelinux_cfgfile = text }
    else if code == 210
    then record d { opt = o; pxelinux_prefix = text }
    else record d { opt = o }

unfoldable pub apply_items : (ℕ → Bool) → List Item → Decoded → Decoded
apply_items has_memory [] d = d
apply_items has_memory (i ∷ items) d = apply_items has_memory items (apply_item has_memory i d)

-- The bytes that the code reads of an option are its own.
abbrev pub IsValid : Item → Type 0
IsValid pad = Unit {0}
IsValid (item code content) =
    (code ≡ 52 → 1 ≤ length content)
    × (code ≡ 53 → (1 ≤ length content) × (0 < get_or content 0 0) × (get_or content 0 0 < 9))
    × (code ≡ 93 → length content ≡ 2)
    × ((code ≡ 50) ⊎ (code ≡ 1) ⊎ (code ≡ 6) ⊎ (code ≡ 3) ⊎ (code ≡ 54) → 4 ≤ length content)

abbrev pub AllValid : List Item → Type 0
AllValid [] = Unit {0}
AllValid (i ∷ items) = IsValid i × AllValid items

BytesAt-get :
    (m : Memory) (a : ℕ) (bs : List ℕ) (i : ℕ)
    → BytesAt m a bs
    → i < length bs
    → m (a + i) ≡ get_or bs i 0
BytesAt-get m a [] i h l = absurd (omega arith)
BytesAt-get m a (b ∷ bs) zero (e, h) l = let p : a + 0 ≡ a = omega arith in rw p e
BytesAt-get m a (b ∷ bs) (suc i) (e, h) l =
    let p : a + suc i ≡ a + 1 + i = omega arith in rw p (BytesAt-get m (a + 1) bs i h (omega arith))

leave_option-item :
    (m : Memory) (opt_field offset : ℕ) (i : Item)
    → offset + size i < 2 ^ 32
    → ItemAt m (opt_field + offset) i
    → IsValid i
    → leave_option m opt_field offset ≡ goes_on (offset + size i)
unfolding leave_option
leave_option-item m opt_field offset pad s h v =
    let step : u32 (offset + 1) ≡ offset + 1 = omega arith in ground (arith, step)
leave_option-item m opt_field offset (item code content) s h v =
    let step : u32 (offset + (2 + length content)) ≡ offset + (2 + length content) = omega arith in
    let byte : 0 < length content → m (opt_field + offset + 2 + 0) ≡ get_or content 0 0 =
      BytesAt-get m (opt_field + offset + 2) content 0 h.4 in
    let here : opt_field + offset + 2 + 0 ≡ opt_field + offset + 2 = omega arith in
    ground (arith, step, h, v, rw here at byte)

copy_text-content :
    (array : ℕ → ℕ) (m : Memory) (a : ℕ) (content : List ℕ)
    → BytesAt m a content
    → copy_text array m a (length content) ≡ text_of array content
unfolding copy_text
copy_text-content array m a content h = fun_ext λ j. ground (
  arith,
  copy_array-byte (length content) array 0 m a j,
  BytesAt-get m a content j h,
  ap m (there j),
)
  where
    there : (j : ℕ) → a + (j - 0) ≡ a + j
    there j = omega arith

word-content :
    (m : Memory) (a : ℕ) (content : List ℕ)
    → BytesAt m a content
    → 4 ≤ length content
    → load 4 m a ≡ be32 content
unfolding load
word-content m a content h l = omega (
  arith,
  rw zeroth at (BytesAt-get m a content 0 h (omega arith)),
  BytesAt-get m a content 1 h (omega arith),
  rw second at (BytesAt-get m a content 2 h (omega arith)),
  rw third at (BytesAt-get m a content 3 h (omega arith)),
)
  where
    zeroth : a + 0 ≡ a
    zeroth = omega arith

    second : a + 2 ≡ a + 1 + 1
    second = omega arith

    third : a + 3 ≡ a + 1 + 1 + 1
    third = omega arith

new_text-content :
    (has_memory : ℕ → Bool) (m : Memory) (a : ℕ) (content : List ℕ)
    → BytesAt m a content
    → new_text has_memory m a (length content)
      ≡ (if has_memory (length content + 1) then some (text_of (λ _. 0) content) else none)
unfolding new_text
new_text-content has_memory m a content h = rw (copy_text-content (λ _. 0) m a content h)

store_option-item :
    (has_memory : ℕ → Bool) (m : Memory) (a : ℕ) (i : Item) (d : Decoded)
    → ItemAt m a i
    → IsValid i
    → store_option has_memory m a d ≡ apply_item has_memory i d
unfolding store_option apply_item
store_option-item has_memory m a pad d h v = rw h
store_option-item has_memory m a (item code content) d h v = ground (
  arith,
  h,
  v,
  byte,
  second,
  word-content m (a + 2) content h.4,
  copy_text-content d.opt.tftp_server m (a + 2) content h.4,
  copy_text-content d.opt.bootfile m (a + 2) content h.4,
  new_text-content has_memory m (a + 2) content h.4,
)
  where
    byte : 1 ≤ length content → m (a + 2) ≡ get_or content 0 0
    byte k =
        let here : a + 2 + 0 ≡ a + 2 = omega arith in
        rw here at (BytesAt-get m (a + 2) content 0 h.4 k)

    second : length content ≡ 2 → m (a + 3) ≡ get_or content 1 0
    second k =
        let here : a + 2 + 1 ≡ a + 3 = omega arith in
        rw here at (BytesAt-get m (a + 2) content 1 h.4 (omega arith))

-- The options reach to the length of the field, or an end mark stands behind them.
abbrev pub EndsBy : Bool → Memory → ℕ → ℕ → ℕ → Type 0
EndsBy true m a n len = (n < len) × (m a ≡ 255)
EndsBy false m a n len = n ≡ len

-- The end mark sets its flag too.
abbrev pub see_end : Bool → Decoded → Decoded
see_end true d = record d { opt = record d.opt { flag = update d.opt.flag 255 1 } }
see_end false d = d

store_option-end :
    (has_memory : ℕ → Bool) (m : Memory) (a : ℕ) (d : Decoded)
    → m a ≡ 255
    → store_option has_memory m a d ≡ see_end true d
unfolding store_option
store_option-end has_memory m a d e = rw (store_option, e)

decode_from-end :
    (fuel : ℕ) (has_memory : ℕ → Bool) (m : Memory) (opt_field opt_len offset : ℕ) (d : Decoded)
    (marked : Bool)
    → EndsBy marked m (opt_field + offset) offset opt_len
    → decode_from (suc fuel) has_memory m opt_field opt_len offset d ≡ some (true, see_end marked d)
unfolding decode_from leave_option
decode_from-end fuel has_memory m opt_field opt_len offset d true (l, e) =
    let below : ltb offset opt_len ≡ true = ground arith in
    rw (below, e, store_option-end has_memory m (opt_field + offset) d e)
decode_from-end fuel has_memory m opt_field opt_len offset d false e =
    let above : ltb offset opt_len ≡ false = ground arith in
    let same : (offset == opt_len) ≡ true = ground arith in rw (above, same)

decode_from-items :
    (fuel : ℕ) (has_memory : ℕ → Bool) (m : Memory) (opt_field opt_len offset : ℕ)
    (items : List Item) (d : Decoded) (marked : Bool)
    → opt_len < 2 ^ 31
    → offset + total items ≤ opt_len
    → OptionsAt m (opt_field + offset) items
    → AllValid items
    → EndsBy marked m (opt_field + (offset + total items)) (offset + total items) opt_len
    → opt_len < offset + fuel
    → decode_from fuel has_memory m opt_field opt_len offset d
      ≡ some (true, see_end marked (apply_items has_memory items d))
unfolding apply_items decode_from
decode_from-items zero has_memory m opt_field opt_len offset items d marked s l h v e f =
    absurd (omega arith)
decode_from-items (suc fuel) has_memory m opt_field opt_len offset [] d marked s l h v e f =
    let here : offset + 0 ≡ offset = omega arith in
    decode_from-end fuel has_memory m opt_field opt_len offset d marked (rw here at e)
decode_from-items (suc fuel) has_memory m opt_field opt_len offset (i ∷ items) d marked s l (h, hs)
      (v, vs) e f =
    let below : ltb offset opt_len ≡ true = below_end i l in
    let place : opt_field + (offset + size i) ≡ opt_field + offset + size i = omega arith in
    let behind : offset + (size i + total items) ≡ offset + size i + total items = omega arith in
    rw
      (
        below,
        leave_option-item m opt_field offset i (omega arith) h v,
        store_option-item has_memory m (opt_field + offset) i d h v,
      )
      (decode_from-items fuel has_memory m opt_field opt_len (offset + size i) items
        (apply_item has_memory i d) marked s (omega arith) (rw place hs) vs (rw behind at e)
        (later i))
  where
    below_end : (j : Item) → offset + (size j + total items) ≤ opt_len → ltb offset opt_len ≡ true
    below_end pad k = ground arith
    below_end (item code content) k = ground arith

    later : (j : Item) → opt_len < offset + size j + fuel
    later pad = omega arith
    later (item code content) = omega arith

-- Behind the magic number, valid options up to the end of the field or to an end mark are all
-- decoded: `dhcp_decode_options` succeeds, and its structure is what they say, one after another.
pub decode_options-items :
    (has_memory : ℕ → Bool) (m : Memory) (opt_field opt_len : ℕ) (items : List Item) (d : Decoded)
    (marked : Bool)
    → opt_len < 2 ^ 31
    → 4 + total items ≤ opt_len
    → has_magic m opt_field ≡ true
    → OptionsAt m (opt_field + 4) items
    → AllValid items
    → EndsBy marked m (opt_field + (4 + total items)) (4 + total items) opt_len
    → decode_options has_memory m opt_field opt_len d
      ≡ some (true, see_end marked (apply_items has_memory items (record d { opt = no_options })))
unfolding decode_options
decode_options-items has_memory m opt_field opt_len items d marked s l g h v e = rw g (
    decode_from-items (suc opt_len) has_memory m opt_field opt_len 4 items
      (record d { opt = no_options }) marked s l h v e (omega arith))
