-- ===== src/Net/Dhcp/Message/Decoded.antt =====
-- lib/libnet/dhcp.c: what a server reads of a message of the client.
use slof.Prelude.{ℕ, ◌+◌, ◌%◌, ◌^◌, ◌≤◌, ◌<◌, ◌≡◌, ◌∙◌, ap, arith, refl, inl}
use slof.Prelude.{Bool, true, Option, none, some}
use slof.Libc.Compare.{strlen}
use slof.Libc.Memory.{Memory, update, memset}
use slof.Nvram.Store.{store}
use slof.Net.Dhcp.Options.{copy_array}
use slof.Net.Dhcp.Options.Layout.{total, OptionsAt-moved}
use slof.Net.Dhcp.Options.Combine.{copy_array-byte}
use slof.Net.Dhcp.Decode.{DhcpOptions, Decoded, decode_options}
use slof.Net.Dhcp.Encode.{is_request, elements, encode_options}
use slof.Net.Dhcp.Encode.Writes.{requested}
use slof.Net.Dhcp.Encode.Items.{items_of, CanEncode, Encoded, encode_options-Encoded}
use slof.Net.Dhcp.Encode.RoundTrip.{ReadBack, decode-Encoded}
use slof.Net.Dhcp.Client.{op_of, xid_of}
use slof.Net.Ipv4.Accept.{store-outside, load-same, load4-store4, fill_iphdr-above}
use slof.Net.Udp.{fill_udphdr}
use slof.Net.Dhcp.Message.{dhcparch, request_options, begin_message, end_message, request_message}

request_options-CanEncode :
    (arch : Option ℕ) (own_ip server_ip : ℕ) → CanEncode (request_options arch own_ip server_ip)
unfolding is_request requested elements strlen
request_options-CanEncode none own_ip server_ip = record {
  typed = refl;
  flags = λ i. ground arith;
  requests_fit = omega arith;
  server_fits = omega arith;
  file_fits = omega arith;
}
request_options-CanEncode (some arch) own_ip server_ip = record {
  typed = refl;
  flags = λ i. ground arith;
  requests_fit = omega arith;
  server_fits = omega arith;
  file_fits = omega arith;
}

-- The options of a request fit in the field of 64 bytes.
request_options-total :
    (arch : Option ℕ) (own_ip server_ip : ℕ)
    → 4 + total (items_of (dhcparch arch) (request_options arch own_ip server_ip)) < 64
unfolding items_of requested
request_options-total none own_ip server_ip = omega arith
request_options-total (some arch) own_ip server_ip = omega arith

fill_udphdr-above :
    (m : Memory) (packet size src dst j : ℕ)
    → packet + 8 ≤ j
    → fill_udphdr m packet size src dst j ≡ m j
unfolding fill_udphdr store
fill_udphdr-above m packet size src dst j l = ground arith

Encoded-kept :
    (m m' m'' : Memory) (a : ℕ) (o : DhcpOptions) (arch : ℕ)
    → Encoded m m' a (items_of arch o)
    → ((j : ℕ) → a ≤ j → m'' j ≡ m' j)
    → Encoded m'' m'' a (items_of arch o)
Encoded-kept m m' m'' a o arch w h = record {
  magic = (
    h a (omega arith) ∙ w.magic.0,
    h (a + 1) (omega arith) ∙ w.magic.1,
    h (a + 2) (omega arith) ∙ w.magic.2,
    h (a + 3) (omega arith) ∙ w.magic.3,
  );
  options_at =
      OptionsAt-moved m' m'' (a + 4) (a + 4) (items_of arch o) (λ j l. h (a + 4 + j) (omega arith))
        w.options_at;
  end_mark = h (a + 4 + total (items_of arch o)) (omega arith) ∙ w.end_mark;
  below = λ j l. refl;
}

-- The message behind the headers is as it was encoded.
end_message-above :
    (arch : Option ℕ) (m : Memory) (ether_packet : ℕ) (o : DhcpOptions) (src dst j : ℕ)
    → ether_packet + 28 ≤ j
    → end_message arch m ether_packet o src dst j
      ≡ (encode_options (dhcparch arch) m (ether_packet + 28 + 236) o).1 j
unfolding end_message
end_message-above arch m ether_packet o src dst j l =
    fill_iphdr-above _ ether_packet 328 17 src dst j (omega arith)
    ∙ fill_udphdr-above _ (ether_packet + 20) 308 68 67 j (omega arith)

begin_message-op :
    (m : Memory) (ether_packet xid : ℕ) (mac : ℕ → ℕ)
    → (op_of (begin_message m ether_packet xid mac) (ether_packet + 28) ≡ 1)
      × (xid_of (begin_message m ether_packet xid mac) (ether_packet + 28) ≡ xid % 2 ^ 32)
unfolding begin_message
begin_message-op m ether_packet xid mac = (
  copied (ether_packet + 28) (omega arith)
      ∙ store-outside 4 _ (ether_packet + 28 + 4) xid (ether_packet + 28) (inl (omega arith))
      ∙ ground arith,
  load-same 4 numbered _ (ether_packet + 28 + 4) (λ j l k. copied j (omega arith))
      ∙ load4-store4 typed (ether_packet + 28 + 4) xid,
)
  where
    typed : Memory
    typed =
        let op = update (memset m ether_packet 0 328) (ether_packet + 28) 1 in
        update (update op (ether_packet + 28 + 1) 1) (ether_packet + 28 + 2) 6

    numbered : Memory
    numbered = store 4 typed (ether_packet + 28 + 4) xid

    copied :
        (j : ℕ)
        → j < ether_packet + 28 + 28
        → copy_array 6 numbered (ether_packet + 28 + 28) mac 0 j ≡ numbered j
    copied j l = ground (arith, copy_array-byte 6 numbered (ether_packet + 28 + 28) mac 0 j)

-- What a server reads of a DHCPREQUEST, in whatever memory it was built and with or without an
-- architecture: it is a request (1) with the number of the exchange, and the options, which fit in
-- the field of 64 bytes, decode to the type 3, the own address and the address of the server.
pub request_message-decoded :
    (has_memory : ℕ → Bool) (arch : Option ℕ) (m : Memory) (ether_packet xid : ℕ) (mac : ℕ → ℕ)
    (own_ip server_ip : ℕ) (d : Decoded)
    → let m' = request_message arch m ether_packet xid mac own_ip server_ip in
      (op_of m' (ether_packet + 28) ≡ 1)
      × (xid_of m' (ether_packet + 28) ≡ xid % 2 ^ 32)
      × (r : Decoded) × (decode_options has_memory m' (ether_packet + 28 + 236) 64 d
          ≡ some (true, r))
      × (r.opt.msg_type ≡ 3)
      × (r.opt.requested_ip ≡ own_ip % 2 ^ 32)
      × (r.opt.server_id ≡ server_ip % 2 ^ 32)
unfolding request_message
request_message-decoded has_memory arch m ether_packet xid mac own_ip server_ip d = (
  kept (ether_packet + 28) (omega arith) (omega arith) ∙ begun.0,
  load-same 4 start sent (ether_packet + 28 + 4) (λ j l k. kept j (omega arith) (omega arith))
      ∙ begun.1,
  read.0,
  read.1,
  read.2.msg_type,
  read.2.requested_ip,
  read.2.server_id,
)
  where
    start : Memory
    start = begin_message m ether_packet xid mac

    asked : DhcpOptions
    asked = request_options arch own_ip server_ip

    sent : Memory
    sent = end_message arch start ether_packet asked 0 0xffffffff

    begun :
        (op_of start (ether_packet + 28) ≡ 1) × (xid_of start (ether_packet + 28) ≡ xid % 2 ^ 32)
    begun = begin_message-op m ether_packet xid mac

    encoded :
        (m' : Memory) × (encode_options (dhcparch arch) start (ether_packet + 28 + 236) asked
          ≡ (true, m'))
        × Encoded start m' (ether_packet + 28 + 236) (items_of (dhcparch arch) asked)
    encoded =
        encode_options-Encoded (dhcparch arch) start (ether_packet + 28 + 236) asked
          (request_options-CanEncode arch own_ip server_ip)

    above : (j : ℕ) → ether_packet + 28 ≤ j → sent j ≡ encoded.0 j
    above j l =
        end_message-above arch start ether_packet asked 0 0xffffffff j l ∙ ap (λ t. t.1 j) encoded.1

    kept : (j : ℕ) → ether_packet + 28 ≤ j → j < ether_packet + 28 + 236 → sent j ≡ start j
    kept j l k = above j l ∙ encoded.2.below j k

    read :
        (r : Decoded) × (decode_options has_memory sent (ether_packet + 28 + 236) 64 d
          ≡ some (true, r))
        × ReadBack asked r.opt
    read =
        decode-Encoded has_memory (dhcparch arch) sent sent (ether_packet + 28 + 236) 64 asked d
          (request_options-CanEncode arch own_ip server_ip) (omega arith)
          (request_options-total arch own_ip server_ip)
          (Encoded-kept start encoded.0 sent (ether_packet + 28 + 236) asked (dhcparch arch)
            encoded.2 (λ j l. above j (omega arith)))
