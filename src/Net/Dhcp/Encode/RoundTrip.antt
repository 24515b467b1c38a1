-- ===== src/Net/Dhcp/Encode/RoundTrip.antt =====
-- lib/libnet/dhcp.c: `dhcp_decode_options` reads back what `dhcp_encode_options` wrote.
use slof.Prelude.{ℕ, ◌+◌, ◌/◌, ◌%◌, ◌^◌, ◌<◌, ◌≡◌, ◌≢◌, ◌==◌, arith, refl, inl, inr, Bool-cases}
use slof.Prelude.{Bool, true, some, List, [], ◌∷◌, ◌++◌, length, if◌then◌else◌}
use slof.Libc.Memory.{Memory}
use slof.Net.Dhcp.Options.Layout.{Item, item, total}
use slof.Net.Dhcp.Decode.{DhcpOptions, Decoded, no_options, decode_options, has_magic}
use slof.Net.Dhcp.Decode.Items.{
  apply_item, apply_items, IsValid, AllValid, be32, see_end, decode_options-items,
}
use slof.Net.Dhcp.Encode.{is_request, encode_options}
use slof.Net.Dhcp.Encode.Writes.{when, bytes_of, requested, text_bytes}
use slof.Net.Dhcp.Encode.Items.{Encoded, items_of, CanEncode, encode_options-Encoded}

apply_items-when_last :
    (h : ℕ → Bool) (flag : ℕ) (i : Item) (d : Decoded)
    → apply_items h (when flag i) d ≡ (if flag == 0 then d else apply_item h i d)
unfolding apply_items
apply_items-when_last h flag i d = ground arith

apply_items-when :
    (h : ℕ → Bool) (flag : ℕ) (i : Item) (items : List Item) (d : Decoded)
    → apply_items h (when flag i ++ items) d
      ≡ apply_items h items (if flag == 0 then d else apply_item h i d)
unfolding apply_items
apply_items-when h flag i items d = elim (Bool-cases (flag == 0)) [ inl e ↦ rw e | inr e ↦ rw e ]

AllValid-when_append :
    (flag : ℕ) (i : Item) (items : List Item)
    → IsValid i
    → AllValid items
    → AllValid (when flag i ++ items)
AllValid-when_append flag i items v w = elim (Bool-cases (flag == 0)) [
  | inl e ↦ rw e (w)
  | inr e ↦ rw e (v, w)
]

AllValid-when : (flag : ℕ) (i : Item) → IsValid i → AllValid (when flag i)
AllValid-when flag i v = elim (Bool-cases (flag == 0)) [ inl e ↦ rw e (tt) | inr e ↦ rw e (v, tt) ]

items_of-AllValid : (arch : ℕ) (o : DhcpOptions) → CanEncode o → AllValid (items_of arch o)
unfolding items_of
items_of-AllValid arch o c =
    let last = when (o.flag 93) (item 93 (arch / 256 % 256 ∷ arch % 256 ∷ [])) in
    let file = item 67 (text_bytes o.bootfile) in
    let server = item 66 (text_bytes o.tftp_server) in
    let codes = requested 256 o.request_list 0 in
    let from_file = when (o.flag 67) file ++ last in
    let from_server = when (o.flag 66) server ++ from_file in
    let from_codes = when (length codes) (item 55 codes) ++ from_server in
    let from_id = when (o.flag 54) (item 54 (bytes_of o.server_id)) ++ from_codes in
    let from_ip = when (o.flag 50) (item 50 (bytes_of o.requested_ip)) ++ from_id in
    (
      valid_type,
      AllValid-when_append o.overload (item 52 (o.overload ∷ [])) from_ip (ground arith) (
          AllValid-when_append (o.flag 50) (item 50 (bytes_of o.requested_ip)) from_id
            (ground arith)
            (AllValid-when_append (o.flag 54) (item 54 (bytes_of o.server_id)) from_codes
              (ground arith)
              (AllValid-when_append (length codes) (item 55 codes) from_server (ground arith) (
                AllValid-when_append (o.flag 66) server from_file (ground arith) (
                  AllValid-when_append (o.flag 67) file last (ground arith) (
                    AllValid-when (o.flag 93) (item 93 (arch / 256 % 256 ∷ arch % 256 ∷ []))
                      (ground arith))))))),
    )
  where
    valid_type : IsValid (item 53 (o.msg_type ∷ []))
    valid_type = unfold is_request in ground (arith, c.typed)

-- What is read back of a structure.
pub record ReadBack (o : DhcpOptions) (r : DhcpOptions) : Type 0 where
  pub msg_type : r.msg_type ≡ o.msg_type
  pub overload : r.overload ≡ o.overload
  pub requested_ip : r.requested_ip ≡ (if o.flag 50 == 0 then 0 else o.requested_ip % 2 ^ 32)
  pub server_id : r.server_id ≡ (if o.flag 54 == 0 then 0 else o.server_id % 2 ^ 32)

be32-bytes_of : (ip : ℕ) → be32 (bytes_of ip) ≡ ip % 2 ^ 32
be32-bytes_of ip = omega arith

-- Four fields of a structure.
record Fields (msg_type overload requested_ip server_id : ℕ) (d : Decoded) : Type 0 where
  type_eq : d.opt.msg_type ≡ msg_type
  overload_eq : d.opt.overload ≡ overload
  ip_eq : d.opt.requested_ip ≡ requested_ip
  id_eq : d.opt.server_id ≡ server_id

module _ (h : ℕ → Bool) (flag t v ip id : ℕ) (d : Decoded) where
  when-Fields_overload :
      Fields t 0 ip id d
      → Fields t v ip id (if v == 0 then d else apply_item h (item 52 (v ∷ [])) d)
  unfolding apply_item
  when-Fields_overload f = ground (arith, f)

  when-Fields_ip :
      (new : ℕ)
      → Fields t v 0 id d
      → Fields t v
          (if flag == 0 then 0 else new % 2 ^ 32)
          id
          (if flag == 0 then d else apply_item h (item 50 (bytes_of new)) d)
  unfolding apply_item
  when-Fields_ip new f = ground (arith, f, be32-bytes_of new)

  when-Fields_id :
      (new : ℕ)
      → Fields t v ip 0 d
      → Fields t v ip
          (if flag == 0 then 0 else new % 2 ^ 32)
          (if flag == 0 then d else apply_item h (item 54 (bytes_of new)) d)
  unfolding apply_item
  when-Fields_id new f = ground (arith, f, be32-bytes_of new)

  when-Fields_other :
      (code : ℕ) (content : List ℕ)
      → (code ≢ 50) × (code ≢ 52) × (code ≢ 53) × (code ≢ 54)
      → Fields t v ip id d
      → Fields t v ip id (if flag == 0 then d else apply_item h (item code content) d)
  unfolding apply_item
  when-Fields_other code content n f = ground (arith, f, n)

apply_items-type :
    (h : ℕ → Bool) (t : ℕ) (items : List Item) (d : Decoded)
    → apply_items h ((item 53 (t ∷ []) ∷ []) ++ items) d
      ≡ apply_items h items (apply_item h (item 53 (t ∷ [])) d)
unfolding apply_items
apply_items-type h t items d = refl

first-Fields :
    (h : ℕ → Bool) (t : ℕ) (d : Decoded)
    → Fields t 0 0 0 (apply_item h (item 53 (t ∷ [])) (record d { opt = no_options }))
unfolding apply_item
first-Fields h t d = record { type_eq = refl; overload_eq = refl; ip_eq = refl; id_eq = refl }

module _ (h : ℕ → Bool) (arch : ℕ) (o : DhcpOptions) where
  abbrev codes : List ℕ
  codes = requested 256 o.request_list 0

  abbrev sent_ip : ℕ
  sent_ip = if o.flag 50 == 0 then 0 else o.requested_ip % 2 ^ 32

  abbrev sent_id : ℕ
  sent_id = if o.flag 54 == 0 then 0 else o.server_id % 2 ^ 32

  abbrev Sent : Decoded → Type 0
  Sent = Fields o.msg_type o.overload sent_ip sent_id

  abbrev from_arch : List Item
  from_arch = when (o.flag 93) (item 93 (arch / 256 % 256 ∷ arch % 256 ∷ []))

  abbrev from_file : List Item
  from_file = when (o.flag 67) (item 67 (text_bytes o.bootfile)) ++ from_arch

  abbrev from_server : List Item
  from_server = when (o.flag 66) (item 66 (text_bytes o.tftp_server)) ++ from_file

  abbrev from_codes : List Item
  from_codes = when (length codes) (item 55 codes) ++ from_server

  abbrev from_id : List Item
  from_id = when (o.flag 54) (item 54 (bytes_of o.server_id)) ++ from_codes

  abbrev from_ip : List Item
  from_ip = when (o.flag 50) (item 50 (bytes_of o.requested_ip)) ++ from_id

  -- The options behind the addresses leave the four fields alone.
  later-Sent : (d : Decoded) → Sent d → Sent (apply_items h from_codes d)
  later-Sent d f = rw (apply_items-when h (length codes) (item 55 codes) from_server d) (
      served _ (
        when-Fields_other h (length codes) o.msg_type o.overload sent_ip sent_id d 55 codes
          (ground arith) f))
    where
      last : (d : Decoded) → Sent d → Sent (apply_items h from_arch d)
      last d f =
          rw (apply_items-when_last h (o.flag 93) (item 93 (arch / 256 % 256 ∷ arch % 256 ∷ [])) d)
            (when-Fields_other h (o.flag 93) o.msg_type o.overload sent_ip sent_id d 93
              (arch / 256 % 256 ∷ arch % 256 ∷ []) (ground arith) f)

      filed : (d : Decoded) → Sent d → Sent (apply_items h from_file d)
      filed d f =
          rw (apply_items-when h (o.flag 67) (item 67 (text_bytes o.bootfile)) from_arch d) (
            last _ (
              when-Fields_other h (o.flag 67) o.msg_type o.overload sent_ip sent_id d 67
                (text_bytes o.bootfile) (ground arith) f))

      served : (d : Decoded) → Sent d → Sent (apply_items h from_server d)
      served d f =
          rw (apply_items-when h (o.flag 66) (item 66 (text_bytes o.tftp_server)) from_file d) (
            filed _ (
              when-Fields_other h (o.flag 66) o.msg_type o.overload sent_ip sent_id d 66
                (text_bytes o.tftp_server) (ground arith) f))

  apply_items-Sent :
      (d : Decoded) → Sent (apply_items h (items_of arch o) (record d { opt = no_options }))
  unfolding items_of
  apply_items-Sent d =
      rw
        (apply_items-type h o.msg_type (when o.overload (item 52 (o.overload ∷ [])) ++ from_ip)
          (record d { opt = no_options }))
        (overloaded _ (first-Fields h o.msg_type d))
    where
      identified :
          (d : Decoded) → Fields o.msg_type o.overload sent_ip 0 d → Sent (apply_items h from_id d)
      identified d f =
          rw (apply_items-when h (o.flag 54) (item 54 (bytes_of o.server_id)) from_codes d) (
            later-Sent _
              (when-Fields_id h (o.flag 54) o.msg_type o.overload sent_ip 0 d o.server_id f))

      addressed :
          (d : Decoded) → Fields o.msg_type o.overload 0 0 d → Sent (apply_items h from_ip d)
      addressed d f =
          rw (apply_items-when h (o.flag 50) (item 50 (bytes_of o.requested_ip)) from_id d) (
            identified _
              (when-Fields_ip h (o.flag 50) o.msg_type o.overload 0 0 d o.requested_ip f))

      overloaded :
          (d : Decoded)
          → Fields o.msg_type 0 0 0 d
          → Sent (apply_items h (when o.overload (item 52 (o.overload ∷ [])) ++ from_ip) d)
      overloaded d f =
          rw (apply_items-when h o.overload (item 52 (o.overload ∷ [])) from_ip d)
            (addressed _ (when-Fields_overload h 0 o.msg_type o.overload 0 0 d f))

-- A memory in which a structure stands encoded, with an end mark in the field, is decoded.
pub decode-Encoded :
    (has_memory : ℕ → Bool) (arch : ℕ) (m m' : Memory) (opt_field opt_len : ℕ) (o : DhcpOptions)
    (d : Decoded)
    → CanEncode o
    → opt_len < 2 ^ 31
    → 4 + total (items_of arch o) < opt_len
    → Encoded m m' opt_field (items_of arch o)
    → (r : Decoded) × (decode_options has_memory m' opt_field opt_len d ≡ some (true, r))
      × ReadBack o r.opt
unfolding has_magic
decode-Encoded has_memory arch m m' opt_field opt_len o d c s l w =
    let behind : opt_field + (4 + total (items_of arch o))
        ≡ opt_field + 4 + total (items_of arch o) =
      omega arith in
    let f = apply_items-Sent has_memory arch o d in
    (
      see_end true (apply_items has_memory (items_of arch o) (record d { opt = no_options })),
      decode_options-items has_memory m' opt_field opt_len (items_of arch o) d true s (omega arith)
          (ground (arith, w.magic)) w.options_at (items_of-AllValid arch o c)
          (omega arith, rw behind w.end_mark),
      record {
        msg_type = f.type_eq;
        overload = f.overload_eq;
        requested_ip = f.ip_eq;
        server_id = f.id_eq;
      },
    )

-- A structure that can be sent is read back: `dhcp_encode_options` succeeds, and
-- `dhcp_decode_options` of the memory that it leaves, in a field with room for the end mark, succeeds
-- and returns the message type, the overload, and the requested address and the server where their
-- flags are set, and 0 where they are not.
pub decode-encode :
    (has_memory : ℕ → Bool) (arch : ℕ) (m : Memory) (opt_field opt_len : ℕ) (o : DhcpOptions)
    (d : Decoded)
    → CanEncode o
    → opt_len < 2 ^ 31
    → 4 + total (items_of arch o) < opt_len
    → (m' : Memory) × (r : Decoded) × (encode_options arch m opt_field o ≡ (true, m'))
      × (decode_options has_memory m' opt_field opt_len d ≡ some (true, r))
      × ReadBack o r.opt
decode-encode has_memory arch m opt_field opt_len o d c s l =
    let (m', e, w) = encode_options-Encoded arch m opt_field o c in
    let (r, f, b) = decode-Encoded has_memory arch m m' opt_field opt_len o d c s l w in
    (m', r, e, f, b)
