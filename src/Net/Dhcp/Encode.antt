-- ===== src/Net/Dhcp/Encode.antt =====
-- lib/libnet/dhcp.c: `dhcp_encode_options` writes a structure as the options of a message.
pub mod Items
pub mod RoundTrip
pub mod Writes
use slof.Prelude.{
  ℕ, zero, suc, ◌+◌, ◌-◌, ◌*◌, ◌/◌, ◌%◌, ◌^◌, ◌==◌, ltb, Bool, true, false, not, ◌&&◌, ◌||◌,
}
use slof.Prelude.{List, [], ◌∷◌, if◌then◌else◌}
use slof.Libc.Compare.{strlen}
use slof.Libc.Memory.{Memory, update}
use slof.Nvram.Store.{store}
use slof.Net.Dhcp.Options.{copy_array}
use slof.Net.Dhcp.Decode.{DhcpOptions}

-- The memory and the pointer `options`.
pub record Cursor : Type 0 where
  pub memory : Memory
  pub options : ℕ

abbrev pub cursor : Memory → ℕ → Cursor
cursor m a = record { memory = m; options = a }

-- Assignments to `options[0]`, `options[1]` and so on.
unfoldable pub put : Memory → ℕ → List ℕ → Memory
put m a [] = m
put m a (b ∷ bs) = put (update m a b) (a + 1) bs

unfoldable pub encode_byte : ℕ → ℕ → Cursor → Cursor
encode_byte code value c = cursor (put c.memory c.options (code ∷ 1 ∷ value ∷ [])) (c.options + 3)

unfoldable pub encode_ip : ℕ → ℕ → ℕ → Cursor → Cursor
encode_ip flag code ip c =
    if flag == 0
    then c
    else cursor (store 4 (put c.memory c.options (code ∷ 4 ∷ [])) (c.options + 2) ip)
        (c.options + 6)

-- `for (i = 0; i < 256; i++) sum += request_list[i]`, in 16 bits.
unfoldable pub sum_from : ℕ → (ℕ → ℕ) → ℕ → ℕ → ℕ
sum_from zero list i sum = sum
sum_from (suc left) list i sum = sum_from left list (i + 1) ((sum + list i) % 2 ^ 16)

-- The loop that writes the codes of the requested options.
unfoldable pub request_from : ℕ → (ℕ → ℕ) → ℕ → Cursor → Cursor
request_from zero list i c = c
request_from (suc left) list i c =
    request_from left list (i + 1)
      (if list i == 0 then c else cursor (update c.memory c.options (i % 256)) (c.options + 1))

unfoldable pub encode_requests : (ℕ → ℕ) → Cursor → Cursor
encode_requests list c =
    let sum = sum_from 256 list 0 0 in
    let begun = cursor (put c.memory c.options (55 ∷ sum % 256 ∷ [])) (c.options + 2) in
    if sum == 0 then c else request_from 256 list 0 begun

-- The elements of an array of `n` elements from an index on.
unfoldable pub elements : ℕ → (ℕ → ℕ) → ℕ → List ℕ
elements zero array i = []
elements (suc n) array i = array i ∷ elements n array (i + 1)

-- A text with its terminator; `options[1]` is a byte.
unfoldable pub encode_text : ℕ → ℕ → (ℕ → ℕ) → Cursor → Cursor
encode_text flag code array c =
    let n = (strlen (elements 256 array 0) + 1) % 256 in
    let begun = put c.memory c.options (code ∷ n ∷ []) in
    if flag == 0
    then c
    else cursor (copy_array n begun (c.options + 2) array 0) (c.options + (n + 2))

-- DHCPARCH is a constant of the build.
unfoldable pub encode_arch : ℕ → ℕ → Cursor → Cursor
encode_arch flag arch c =
    if flag == 0
    then c
    else cursor (put c.memory c.options (93 ∷ 2 ∷ arch / 256 % 256 ∷ arch % 256 ∷ []))
        (c.options + 4)

-- The types that the function packs: DISCOVER, REQUEST, DECLINE, INFORM and RELEASE.
unfoldable pub is_request : ℕ → Bool
is_request t = t == 1 || t == 3 || t == 4 || t == 8 || t == 7

-- `dhcp_encode_options`: its result and the memory.
unfoldable pub encode_options : ℕ → Memory → ℕ → DhcpOptions → Bool × Memory
encode_options arch m opt_field o =
    let magic = cursor (put m opt_field (0x63 ∷ 0x82 ∷ 0x53 ∷ 0x63 ∷ [])) (opt_field + 4) in
    let typed = encode_byte 53 o.msg_type magic in
    let overloaded = if o.overload == 0 then typed else encode_byte 52 o.overload typed in
    let addressed =
      encode_ip (o.flag 54) 54 o.server_id (encode_ip (o.flag 50) 50 o.requested_ip overloaded) in
    let requested = encode_requests o.request_list addressed in
    let named =
      encode_text (o.flag 67) 67 o.bootfile (encode_text (o.flag 66) 66 o.tftp_server requested) in
    let done = encode_arch (o.flag 93) arch named in
    if is_request o.msg_type
    then (true, update done.memory done.options 0xff)
    else (false, magic.memory)
