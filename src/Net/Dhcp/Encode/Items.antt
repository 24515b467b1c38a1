-- ===== src/Net/Dhcp/Encode/Items.antt =====
-- lib/libnet/dhcp.c: what `dhcp_encode_options` writes is a list of options.
use slof.Prelude.{ℕ, ◌+◌, ◌/◌, ◌%◌, ◌<◌, ◌≡◌, ◌==◌, arith, inl, inr, Bool-cases}
use slof.Prelude.{true, List, [], ◌∷◌, ◌++◌, length, if◌then◌else◌}
use slof.Libc.Compare.{strlen}
use slof.Libc.Memory.{Memory, update}
use slof.Net.Dhcp.Options.Layout.{Item, item, total, OptionsAt, OptionsAt-moved}
use slof.Net.Dhcp.Decode.{DhcpOptions}
use slof.Net.Dhcp.Encode.{
  Cursor, cursor, put, encode_byte, encode_ip, encode_requests, elements, encode_text, encode_arch,
  is_request, encode_options,
}
use slof.Net.Dhcp.Encode.Writes.{
  Writes, Writes-none, Writes-trans, encode_byte-Writes, bytes_of, when, encode_ip-Writes,
  encode_arch-Writes, requested, IsFlags, encode_requests-Writes, text_bytes, encode_text-Writes,
}

-- The structure as a list of options.
unfoldable pub items_of : ℕ → DhcpOptions → List Item
items_of arch o =
    (item 53 (o.msg_type ∷ []) ∷ [])
    ++ (when o.overload (item 52 (o.overload ∷ []))
        ++ (when (o.flag 50) (item 50 (bytes_of o.requested_ip))
            ++ (when (o.flag 54) (item 54 (bytes_of o.server_id))
                ++ (when (length (requested 256 o.request_list 0))
                      (item 55 (requested 256 o.request_list 0))
                    ++ (when (o.flag 66) (item 66 (text_bytes o.tftp_server))
                        ++ (when (o.flag 67) (item 67 (text_bytes o.bootfile))
                            ++ when (o.flag 93) (item 93 (arch / 256 % 256 ∷ arch % 256 ∷ []))))))))

-- A structure that can be sent: a type that a client sends, flags that are 0 or 1, and texts and a
-- list of requests that fit in an option.
pub record CanEncode (o : DhcpOptions) : Type 0 where
  pub typed : is_request o.msg_type ≡ true
  pub flags : IsFlags o.request_list
  pub requests_fit : length (requested 256 o.request_list 0) < 256
  pub server_fits : strlen (elements 256 o.tftp_server 0) < 255
  pub file_fits : strlen (elements 256 o.bootfile 0) < 255

encode_overload-Writes :
    (o : DhcpOptions) (c : Cursor)
    → Writes c
        (if o.overload == 0 then c else encode_byte 52 o.overload c)
        (when o.overload (item 52 (o.overload ∷ [])))
encode_overload-Writes o c = elim (Bool-cases (o.overload == 0)) [
  | inl e ↦ rw e (Writes-none c)
  | inr e ↦ rw e (encode_byte-Writes 52 o.overload c (omega arith) (omega arith))
]

-- What stands in memory after `dhcp_encode_options`: the magic number, the options of the structure
-- and an end mark; nothing in front of them changes.
pub record Encoded (m m' : Memory) (a : ℕ) (items : List Item) : Type 0 where
  pub magic : (m' a ≡ 0x63) × (m' (a + 1) ≡ 0x82) × (m' (a + 2) ≡ 0x53) × (m' (a + 3) ≡ 0x63)
  pub options_at : OptionsAt m' (a + 4) items
  pub end_mark : m' (a + 4 + total items) ≡ 255
  pub below : (j : ℕ) → j < a → m' j ≡ m j

module _ (arch : ℕ) (m : Memory) (a : ℕ) (o : DhcpOptions) (c : CanEncode o) where
  abbrev magic_put : Cursor
  magic_put = cursor (put m a (0x63 ∷ 0x82 ∷ 0x53 ∷ 0x63 ∷ [])) (a + 4)

  done-Writes :
      (done : Cursor) × Writes magic_put done (items_of arch o)
      × (encode_options arch m a o ≡ (true, update done.memory done.options 0xff))
  unfolding encode_options items_of
  done-Writes =
      let typed = encode_byte 53 o.msg_type magic_put in
      let overloaded = if o.overload == 0 then typed else encode_byte 52 o.overload typed in
      let asked = encode_ip (o.flag 50) 50 o.requested_ip overloaded in
      let addressed = encode_ip (o.flag 54) 54 o.server_id asked in
      let listed = encode_requests o.request_list addressed in
      let served = encode_text (o.flag 66) 66 o.tftp_server listed in
      let named = encode_text (o.flag 67) 67 o.bootfile served in
      let done = encode_arch (o.flag 93) arch named in
      (
        done,
        Writes-trans magic_put typed done _ _
            (encode_byte-Writes 53 o.msg_type magic_put (omega arith) (omega arith))
            (Writes-trans typed overloaded done _ _ (encode_overload-Writes o typed) (
              Writes-trans overloaded asked done _ _
                (encode_ip-Writes (o.flag 50) 50 o.requested_ip overloaded (omega arith)
                  (omega arith))
                (Writes-trans asked addressed done _ _
                  (encode_ip-Writes (o.flag 54) 54 o.server_id asked (omega arith) (omega arith))
                  (Writes-trans addressed listed done _ _
                    (encode_requests-Writes o.request_list addressed c.flags c.requests_fit)
                    (Writes-trans listed served done _ _
                      (encode_text-Writes (o.flag 66) 66 o.tftp_server listed (omega arith)
                        (omega arith) c.server_fits)
                      (Writes-trans served named done _ _
                        (encode_text-Writes (o.flag 67) 67 o.bootfile served (omega arith)
                          (omega arith) c.file_fits)
                        (encode_arch-Writes (o.flag 93) arch named))))))),
        rw c.typed,
      )

  -- A structure that can be sent is packed: `dhcp_encode_options` succeeds and writes its options.
  pub encode_options-Encoded :
      (m' : Memory) × (encode_options arch m a o ≡ (true, m')) × Encoded m m' a (items_of arch o)
  unfolding put
  encode_options-Encoded =
      let (done, w, e) = done-Writes in
      (
        update done.memory done.options 0xff,
        e,
        record {
          magic = (
            ground (arith, w.next, w.below a),
            ground (arith, w.next, w.below (a + 1)),
            ground (arith, w.next, w.below (a + 2)),
            ground (arith, w.next, w.below (a + 3)),
          );
          options_at =
              OptionsAt-moved done.memory (update done.memory done.options 0xff) (a + 4) (a + 4)
                (items_of arch o) (λ i k. ground (arith, w.next)) w.options_at;
          end_mark = ground (arith, w.next);
          below = λ j k. ground (arith, w.next, w.below j);
        },
      )
