-- ===== src/Net/Arp/Resolve.antt =====
-- lib/libnet/ipv4.c: two hosts find each other by ARP.
use slof.Prelude.{
  ℕ, ◌+◌, ◌*◌, ◌/◌, ◌%◌, ◌^◌, ◌<◌, ◌≡◌, ◌≢◌, ◌==◌, ◌∙◌, ap, arith, refl, inl, inr, Bool-cases,
}
use slof.Prelude.{true, false, none, some, List, [], ◌∷◌, ◌++◌, get_or}
use slof.Libc.Memory.{Memory}
use slof.Nvram.Store.{load}
use slof.Net.Arp.{
  Arp, ArpEntry, Frame, null_mac_addr, broadcast_mac, same_mac, mac_at, set_entry, lookup_mac_addr,
  fill_arphdr, arp_send_request, arp_send_reply, request_mac, take_reply, handle_arp,
}
use slof.Net.Arp.Table.{IsRing, lookup_from-same, lookup_mac_addr-request_mac}

-- A payload at 0.
abbrev pub received : List ℕ → Memory
received payload a = get_or payload a 0

-- The number that four bytes were made of.
abbrev word : ℕ → ℕ
word ip =
    ip / 16777216 % 256 * 16777216
    + (ip / 65536 % 256 * 65536 + (ip / 256 % 256 * 256 + (ip % 256 * 1 + 0)))

word-eq : (ip : ℕ) → ip < 2 ^ 32 → word ip ≡ ip
word-eq ip l = omega arith

same_mac_refl : (mac : List ℕ) → same_mac mac mac ≡ true
unfolding same_mac
same_mac_refl [] = refl
same_mac_refl (a ∷ mac) = ground (arith, same_mac_refl mac)

-- A request for the own address is answered.
handle_arp-request :
    (x y : ℕ → ℕ) (src_ip : ℕ) (s : Arp)
    → src_ip < 2 ^ 32
    → s.own_ip < 2 ^ 32
    → s.own_ip ≢ 0
    → handle_arp
        (mac_at y 0)
        (received (fill_arphdr 1 (mac_at x 0) src_ip broadcast_mac s.own_ip))
        0
        28
        s
      ≡ some (0, arp_send_reply (mac_at y 0) src_ip (mac_at x 0) s)
unfolding handle_arp fill_arphdr load
handle_arp-request x y src_ip s l l' n =
    let mine : (s.own_ip == s.own_ip) ≡ true = ground arith in
    let set : (s.own_ip == 0) ≡ false = ground arith in
    rw (word-eq s.own_ip l', word-eq src_ip l, mine, set) refl

-- An answer to a request that waits sets the MAC address and sends the packet.
handle_arp-reply :
    (x y : ℕ → ℕ) (src_ip i : ℕ) (s : Arp)
    → src_ip < 2 ^ 32
    → s.own_ip < 2 ^ 32
    → src_ip ≢ 0
    → lookup_mac_addr s src_ip ≡ some (some i)
    → (s.table i).mac_addr ≡ null_mac_addr
    → handle_arp
        (mac_at x 0)
        (received (fill_arphdr 2 (mac_at y 0) src_ip (mac_at x 0) s.own_ip))
        0
        28
        s
      ≡ some (take_reply (received (fill_arphdr 2 (mac_at y 0) src_ip (mac_at x 0) s.own_ip)) 0 i s)
unfolding handle_arp fill_arphdr load lookup_mac_addr
handle_arp-reply x y src_ip i s l l' n f e =
    let mine : (s.own_ip == s.own_ip) ≡ true = ground arith in
    let set : (src_ip == 0) ≡ false = ground arith in
    rw
      (
        word-eq s.own_ip l',
        word-eq src_ip l,
        mine,
        set,
        same_mac_refl (mac_at x 0),
        f,
        e,
        same_mac_refl null_mac_addr,
      )
      refl

-- The state after an answer for an entry with a packet that waits.
abbrev released : List ℕ → ℕ → Arp → Arp
released mac i s =
    let entry : ArpEntry = record (s.table i) {
      mac_addr = mac;
      pkt_pending = false;
      eth_len = 0;
    } in
    let frame : Frame = record s.pending { dest_mac = mac } in
    record s { table = set_entry s.table i entry; pending = frame; sent = s.sent ++ (frame ∷ []) }

take_reply-released :
    (m : Memory) (packet i : ℕ) (s : Arp)
    → (s.table i).pkt_pending ≡ true
    → take_reply m packet i s ≡ (0, released (mac_at m (packet + 8)) i s)
unfolding take_reply
take_reply-released m packet i s e = rw e refl

lookup_mac_addr-released :
    (mac : List ℕ) (i ip : ℕ) (s : Arp)
    → lookup_mac_addr (released mac i s) ip ≡ lookup_mac_addr s ip
unfolding lookup_mac_addr
lookup_mac_addr-released mac i ip s =
    lookup_from-same 10 s (released mac i s) s.consumer ip refl λ j. (elim (Bool-cases (i == j)) [
      | inl e ↦ let here : i ≡ j = ground arith in rw e (ap (λ t. (s.table t).ipv4_addr) here)
      | inr e ↦ rw e refl
    ])

released-mac : (mac : List ℕ) (i : ℕ) (s : Arp) → ((released mac i s).table i).mac_addr ≡ mac
released-mac mac i s = let here : (i == i) ≡ true = ground arith in rw here refl

-- The frame of a packet.
abbrev pub ip_frame : List ℕ → List ℕ → List ℕ → Frame
ip_frame dest_mac src_mac packet = record {
  dest_mac = dest_mac;
  src_mac = src_mac;
  ether_type = 0x800;
  payload = packet;
}

-- One host asked, another one answered, and the first one sent what it had kept.
pub record Resolved (mac_a mac_b packet : List ℕ) (a asked b : Arp) : Type 0 where
  pub request : Frame
  pub reply : Frame
  pub answered : Arp
  pub resolved : Arp
  pub asked_sent : asked.sent ≡ a.sent ++ (request ∷ [])
  pub request_handled : handle_arp mac_b (received request.payload) 0 28 b ≡ some (0, answered)
  pub answered_sent : answered.sent ≡ b.sent ++ (reply ∷ [])
  pub to_asker : reply.dest_mac ≡ mac_a
  pub reply_handled : handle_arp mac_a (received reply.payload) 0 28 asked ≡ some (0, resolved)
  pub resolved_sent : resolved.sent ≡ asked.sent ++ (ip_frame mac_b mac_a packet ∷ [])
  pub found : lookup_mac_addr resolved b.own_ip ≡ some (some a.producer)
  pub known : (resolved.table a.producer).mac_addr ≡ mac_b
  pub ring : IsRing resolved
  pub own_kept : resolved.own_ip ≡ a.own_ip

-- A host with a valid ring that has no entry of the address of another host, not 0, keeps a packet for
-- it and asks. The other host answers to the asker; the answer is handled, the packet goes to the MAC
-- address of the other host, and its entry is found in the table, which is valid, with that address.
pub request_mac-Resolved :
    (x y : ℕ → ℕ) (packet : List ℕ) (a b : Arp)
    → IsRing a
    → a.own_ip < 2 ^ 32
    → b.own_ip < 2 ^ 32
    → b.own_ip ≢ 0
    → lookup_mac_addr a b.own_ip ≡ some none
    → Resolved
        (mac_at x 0)
        (mac_at y 0)
        packet
        a
        (request_mac (mac_at x 0) b.own_ip false packet a)
        b
unfolding request_mac arp_send_request arp_send_reply fill_arphdr
request_mac-Resolved x y packet a b r l l' n f = record {
  request = record {
    dest_mac = broadcast_mac;
    src_mac = mac_at x 0;
    ether_type = 0x806;
    payload = fill_arphdr 1 (mac_at x 0) a.own_ip broadcast_mac b.own_ip;
  };
  reply = record {
    dest_mac = mac_at x 0;
    src_mac = mac_at y 0;
    ether_type = 0x806;
    payload = fill_arphdr 2 (mac_at y 0) b.own_ip (mac_at x 0) a.own_ip;
  };
  answered = arp_send_reply (mac_at y 0) a.own_ip (mac_at x 0) b;
  resolved = released (mac_at y 0) a.producer asked;
  asked_sent = refl;
  request_handled = handle_arp-request x y a.own_ip b l l' n;
  answered_sent = refl;
  to_asker = refl;
  reply_handled =
      handle_arp-reply x y b.own_ip a.producer asked l' l n
        (lookup_mac_addr-request_mac (mac_at x 0) b.own_ip packet a r f) unresolved
      ∙ ap some (take_reply-released answer 0 a.producer asked waits);
  resolved_sent = refl;
  found =
      lookup_mac_addr-released (mac_at y 0) a.producer b.own_ip asked
      ∙ lookup_mac_addr-request_mac (mac_at x 0) b.own_ip packet a r f;
  known = released-mac (mac_at y 0) a.producer asked;
  ring = record { consumer = ground (arith, r); producer = omega arith };
  own_kept = refl;
}
  where
    asked : Arp
    asked = request_mac (mac_at x 0) b.own_ip false packet a

    answer : Memory
    answer = received (fill_arphdr 2 (mac_at y 0) b.own_ip (mac_at x 0) a.own_ip)

    unresolved : (asked.table a.producer).mac_addr ≡ null_mac_addr
    unresolved = ground arith

    waits : (asked.table a.producer).pkt_pending ≡ true
    waits = ground arith
