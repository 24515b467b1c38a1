-- ===== src/Net/Dhcp/Examples.antt =====
-- lib/libnet/dhcp.c: the theorems at short lists of options and small packets.
use slof.Prelude.{ℕ, zero, suc, ◌-◌, ◌<◌, ◌≡◌, ◌==◌, inl, inr, arith, refl, ltb, Bool, true, false}
use slof.Prelude.{some, none, List, [], ◌∷◌, get_or, if◌then◌else◌}
use slof.Libc.Compare.{strlen}
use slof.Libc.Memory.{Memory}
use slof.Nvram.Store.{load}
use slof.Net.Dhcp.Options.{merge_options}
use slof.Net.Dhcp.Options.Layout.{Item, pad, item, total}
use slof.Net.Dhcp.Options.Append.{Holds}
use slof.Net.Dhcp.Options.Merge.{merge_item, merge_items}
use slof.Net.Dhcp.Options.MergeAll.{merge_options-Holds}
use slof.Net.Dhcp.Decode.Ends.{IsBytes}
use slof.Net.Dhcp.Decode.{
  DhcpOptions, Decoded, no_options, store_option, leave_option, decode_from, decode_options,
  has_magic,
}
use slof.Net.Dhcp.Decode.Items.{apply_items, see_end, decode_options-items}
use slof.Net.Dhcp.Encode.{is_request, encode_options, elements}
use slof.Net.Dhcp.Encode.Items.{items_of, CanEncode}
use slof.Net.Dhcp.Encode.Writes.{requested}
use slof.Net.Dhcp.Encode.RoundTrip.{ReadBack, decode-encode}
use slof.Net.Dhcp.Client.{
  select, request, Client, send_request, take_dhcp, read_options, handle_dhcp,
}
use slof.Net.Dhcp.Client.Step.{Step, handle_dhcp-Step}
use slof.Net.Dhcp.Client.Ends.{NoOverload, handle_dhcp-ends}
use slof.Net.Dhcp.Client.{op_of, xid_of}
use slof.Net.Dhcp.Message.{request_message}
use slof.Net.Dhcp.Message.Decoded.{request_message-decoded}
use slof.Prelude.{◌%◌, ◌^◌, ◌+◌}
use slof.Net.Dhcp.Attempt.{Second, attempt}
use slof.Net.Dhcp.Attempt.Run.{is_success, SafeClient, attempt-SafeClient}

abbrev target : List Item
target = item 1 (7 ∷ []) ∷ []

abbrev source : List Item
source = item 1 (8 ∷ 9 ∷ []) ∷ pad ∷ item 2 [] ∷ []

-- The first list at 0, the second one at 100.
abbrev two_fields : Memory
two_fields a =
    if ltb a 100
    then get_or (1 ∷ 1 ∷ 7 ∷ []) a 0
    else get_or (1 ∷ 2 ∷ 8 ∷ 9 ∷ 0 ∷ 2 ∷ 0 ∷ 255 ∷ []) (a - 100) 0

merge_options-Holds_example :
    (m' : Memory) × (len : ℕ) × (merge_options two_fields 0 3 100 8 ≡ some (true, m', len))
    × Holds two_fields m' 0 len (merge_items target source)
unfolding merge_item
merge_options-Holds_example =
    merge_options-Holds two_fields 0 3 10 target 100 8 source
      ((refl, omega arith, omega arith, refl, (refl, tt)), tt) (inl refl)
      (
        (refl, omega arith, omega arith, refl, (refl, (refl, tt))),
        (refl, ((refl, omega arith, omega arith, refl, tt), tt)),
      )
      (inr (omega arith, refl)) (omega arith) (omega arith) (omega arith) (omega arith)
      (inl (omega arith)) ((λ e. omega arith, tt), ((λ e. omega arith, tt), tt))

-- An option 53 of type 2 behind the magic number.
abbrev offer_bytes : List ℕ
offer_bytes = 0x63 ∷ 0x82 ∷ 0x53 ∷ 0x63 ∷ 53 ∷ 1 ∷ 2 ∷ 255 ∷ []

abbrev offer_field : Memory
offer_field a = get_or offer_bytes a 0

abbrev nothing_decoded : Decoded
nothing_decoded = record { opt = no_options; pxelinux_cfgfile = none; pxelinux_prefix = none }

abbrev no_memory : ℕ → Bool
no_memory n = false

decode_options-items_example :
    decode_options no_memory offer_field 0 8 nothing_decoded
    ≡ some (true, see_end true (apply_items no_memory (item 53 (2 ∷ []) ∷ []) nothing_decoded))
unfolding has_magic
decode_options-items_example =
    decode_options-items no_memory offer_field 0 8 (item 53 (2 ∷ []) ∷ []) nothing_decoded true
      (omega arith) (omega arith) refl ((refl, omega arith, omega arith, refl, (refl, tt)), tt)
      ((λ e. omega arith, λ e. omega arith, λ e. omega arith, λ e. ground arith), tt)
      (omega arith, refl)

-- A DHCPREQUEST of address 192.168.0.2 to 192.168.0.1.
abbrev request_options : DhcpOptions
request_options = record no_options {
  flag = λ i. if i == 50 then 1 else if i == 54 then 1 else 0;
  msg_type = 3;
  requested_ip = 0xc0a80002;
  server_id = 0xc0a80001;
}

request-CanEncode : CanEncode request_options
unfolding is_request requested elements strlen
request-CanEncode = record {
  typed = refl;
  flags = λ i. omega arith;
  requests_fit = omega arith;
  server_fits = omega arith;
  file_fits = omega arith;
}

request-total : total (items_of 0 request_options) ≡ 15
unfolding items_of requested
request-total = refl

decode-encode_example :
    (m' : Memory) × (r : Decoded) × (encode_options 0 two_fields 200 request_options ≡ (true, m'))
    × (decode_options no_memory m' 200 64 nothing_decoded ≡ some (true, r))
    × ReadBack request_options r.opt
decode-encode_example =
    decode-encode no_memory 0 two_fields 200 64 request_options nothing_decoded request-CanEncode
      (omega arith) (omega (arith, request-total))

-- A DHCPOFFER of address 10.0.0.5 at 1000.
abbrev offer : Memory
offer a =
    if a == 1000
    then 2
    else if a == 1016
    then 10
    else if a == 1019
    then 5
    else if ltb a 1236
    then 0
    else get_or offer_bytes (a - 1236) 0

abbrev new_client : Client
new_client = record {
  state = select;
  xid = 0;
  own_ip = 0;
  server_ip = 0;
  siaddr_ip = 0;
  filename = λ i. 0;
  tftp_name = λ i. 0;
  pxelinux_cfgfile = none;
  pxelinux_prefix = none;
  has_response_buffer = false;
  effects = [];
}

abbrev asking_client : Client
asking_client = record new_client {
  own_ip = 0x0a000005;
  state = request;
  effects = send_request ∷ [];
}

handle_dhcp-offer : handle_dhcp no_memory offer 1000 244 5000 new_client ≡ some (0, asking_client)
unfolding handle_dhcp read_options decode_options decode_from take_dhcp has_magic store_option
    leave_option load
handle_dhcp-offer = refl

handle_dhcp-Step_example : Step no_memory offer 1000 244 5000 new_client asking_client
handle_dhcp-Step_example =
    handle_dhcp-Step no_memory offer 1000 244 5000 new_client asking_client 0 handle_dhcp-offer

offer_bytes-small : (i : ℕ) → get_or offer_bytes i 0 < 256
offer_bytes-small zero = omega arith
offer_bytes-small (suc zero) = omega arith
offer_bytes-small (suc (suc zero)) = omega arith
offer_bytes-small (suc (suc (suc zero))) = omega arith
offer_bytes-small (suc (suc (suc (suc zero)))) = omega arith
offer_bytes-small (suc (suc (suc (suc (suc zero))))) = omega arith
offer_bytes-small (suc (suc (suc (suc (suc (suc zero)))))) = omega arith
offer_bytes-small (suc (suc (suc (suc (suc (suc (suc zero))))))) = omega arith
offer_bytes-small (suc (suc (suc (suc (suc (suc (suc (suc i)))))))) = omega arith

offer-IsBytes : IsBytes offer
offer-IsBytes a = ground (arith, offer_bytes-small (a - 1236))

offer-NoOverload : NoOverload no_memory offer 1000 244
unfolding decode_options decode_from has_magic store_option leave_option load
offer-NoOverload c = refl

handle_dhcp-ends_example :
    (r : ℕ × Client) × (handle_dhcp no_memory offer 1000 244 5000 new_client ≡ some r)
handle_dhcp-ends_example =
    handle_dhcp-ends no_memory offer 1000 244 5000 new_client offer-IsBytes (omega arith)
      (omega arith) offer-NoOverload

-- A second in which nothing comes, and one with the offer.
abbrev quiet : Second
quiet = record { first = none; later = none ∷ [] }

abbrev offered : Second
offered = record {
  first = none;
  later = some (record { memory = offer; address = 1000; size = 244; options = 5000 }) ∷ none ∷ [];
}

attempt-SafeClient_example :
    (b : Bool) × (c' : Client) × (attempt no_memory quiet offered new_client ≡ some (b, c'))
    × (b ≡ is_success c'.state)
    × SafeClient c'
attempt-SafeClient_example =
    attempt-SafeClient no_memory quiet offered new_client
      (
        (tt, (tt, tt)),
        (
          (
            tt,
            (
              record {
                bytes = offer-IsBytes;
                long = omega arith;
                short = omega arith;
                plain = offer-NoOverload;
              },
              (tt, tt),
            ),
          ),
          tt,
        ),
      )
      refl

request_message-decoded_example :
    let m' = request_message (some 12) offer 2000 0x12345678 (λ i. i) 0x0a000005 0x0a000001 in
    (op_of m' (2000 + 28) ≡ 1)
    × (xid_of m' (2000 + 28) ≡ 0x12345678 % 2 ^ 32)
    × (r : Decoded) × (decode_options no_memory m' (2000 + 28 + 236) 64 nothing_decoded
        ≡ some (true, r))
    × (r.opt.msg_type ≡ 3)
    × (r.opt.requested_ip ≡ 0x0a000005 % 2 ^ 32)
    × (r.opt.server_id ≡ 0x0a000001 % 2 ^ 32)
request_message-decoded_example =
    request_message-decoded no_memory (some 12) offer 2000 0x12345678 (λ i. i) 0x0a000005 0x0a000001
      nothing_decoded
