-- ===== src/Net/Arp.antt =====
-- lib/libnet/ipv4.c: the ARP table, a ring of entries, and the handling of ARP packets. Addresses and
-- offsets are in the order of the network, which is that of the processor.
mod Examples
pub mod Resolve
pub mod Send
pub mod Table
use slof.Prelude.{
  ℕ, zero, suc, ◌+◌, ◌-◌, ◌*◌, ◌/◌, ◌%◌, ◌^◌, ◌==◌, ltb, Bool, true, false, not, ◌&&◌, ◌||◌,
}
use slof.Prelude.{Option, none, some, List, [], ◌∷◌, ◌++◌, if◌then◌else◌}
use slof.Libc.Memory.{Memory}
use slof.Nvram.Store.{load}
use slof.Nvram.Partition.{◌>>=◌}

-- A MAC address is a list of six bytes.
pub record ArpEntry : Type 0 where
  pub ipv4_addr : ℕ
  pub mac_addr : List ℕ
  pub eth_len : ℕ
  pub pkt_pending : Bool

-- An Ethernet frame that is sent, or that waits to be.
pub record Frame : Type 0 where
  pub dest_mac : List ℕ
  pub src_mac : List ℕ
  pub ether_type : ℕ
  pub payload : List ℕ

-- The static variables that ARP is about, and the frames that were sent.
pub record Arp : Type 0 where
  pub own_ip : ℕ
  pub consumer : ℕ
  pub producer : ℕ
  pub table : ℕ → ArpEntry
  pub pending : Frame
  pub sent : List Frame

abbrev pub arp_entries : ℕ
arp_entries = 10

abbrev pub null_mac_addr : List ℕ
null_mac_addr = 0 ∷ 0 ∷ 0 ∷ 0 ∷ 0 ∷ 0 ∷ []

abbrev pub broadcast_mac : List ℕ
broadcast_mac = 0xff ∷ 0xff ∷ 0xff ∷ 0xff ∷ 0xff ∷ 0xff ∷ []

-- `memcmp` of two addresses is 0.
unfoldable pub same_mac : List ℕ → List ℕ → Bool
same_mac [] [] = true
same_mac [] (b ∷ bs) = false
same_mac (a ∷ as') [] = false
same_mac (a ∷ as') (b ∷ bs) = a == b && same_mac as' bs

abbrev pub set_entry : (ℕ → ArpEntry) → ℕ → ArpEntry → ℕ → ArpEntry
set_entry table i e j = if i == j then e else table j

abbrev pub next_index : ℕ → ℕ
next_index i = (i + 1) % arp_entries

-- `ipv4_init` less the pointer to a function that it sets.
unfoldable pub ipv4_init : Arp → Arp
ipv4_init s = record s {
  consumer = 0;
  producer = 0;
  table = λ i.
      if ltb i arp_entries
      then record { ipv4_addr = 0; mac_addr = null_mac_addr; eth_len = 0; pkt_pending = false }
      else s.table i;
}

unfoldable pub set_ipv4_address : ℕ → Arp → Arp
set_ipv4_address ip s = ipv4_init (record s { own_ip = ip })

-- The loop over the entries in use. `none` means that the fuel ran out.
unfoldable pub lookup_from : ℕ → Arp → ℕ → ℕ → Option (Option ℕ)
lookup_from zero s i ip = none
lookup_from (suc fuel) s i ip =
    let rest = lookup_from fuel s (next_index i) ip in
    if i == s.producer
    then some none
    else if (s.table i).ipv4_addr == ip
    then some (some i)
    else rest

-- `lookup_mac_addr`: the index of the entry.
unfoldable pub lookup_mac_addr : Arp → ℕ → Option (Option ℕ)
lookup_mac_addr s ip = lookup_from arp_entries s s.consumer ip

abbrev pub bytes4 : ℕ → List ℕ
bytes4 ip = ip / 256 ^ 3 % 256 ∷ ip / 256 ^ 2 % 256 ∷ ip / 256 % 256 ∷ ip % 256 ∷ []

unfoldable pub fill_arphdr : ℕ → List ℕ → ℕ → List ℕ → ℕ → List ℕ
fill_arphdr opcode src_mac src_ip dest_mac dest_ip =
    (0 ∷ 1 ∷ 0x08 ∷ 0 ∷ 6 ∷ 4 ∷ opcode / 256 ∷ opcode % 256 ∷ [])
    ++ (src_mac ++ (bytes4 src_ip ++ (dest_mac ++ bytes4 dest_ip)))

-- `arp_send_request` and `arp_send_reply`; `mac` is that of `get_mac_address`.
unfoldable pub arp_send_request : List ℕ → ℕ → Arp → Arp
arp_send_request mac dest_ip s =
    let frame : Frame = record {
      dest_mac = broadcast_mac;
      src_mac = mac;
      ether_type = 0x806;
      payload = fill_arphdr 1 mac s.own_ip broadcast_mac dest_ip;
    } in
    record s { sent = s.sent ++ (frame ∷ []) }

unfoldable pub arp_send_reply : List ℕ → ℕ → List ℕ → Arp → Arp
arp_send_reply mac src_ip src_mac s =
    let frame : Frame = record {
      dest_mac = src_mac;
      src_mac = mac;
      ether_type = 0x806;
      payload = fill_arphdr 2 mac s.own_ip src_mac src_ip;
    } in
    record s { sent = s.sent ++ (frame ∷ []) }

-- What `send_ipv4` does where no MAC address is known, up to the wait: `found` tells that the table has
-- an entry of the address. The packet is dropped or kept.
unfoldable pub request_mac : List ℕ → ℕ → Bool → List ℕ → Arp → Arp
request_mac mac ip_dst found packet s =
    let asked = arp_send_request mac ip_dst s in
    let i = asked.producer in
    let next = next_index i in
    let entry : ArpEntry = record (asked.table i) {
      ipv4_addr = ip_dst;
      mac_addr = null_mac_addr;
      pkt_pending = true;
    } in
    let kept : Frame = record {
      dest_mac = null_mac_addr;
      src_mac = mac;
      ether_type = 0x800;
      payload = packet;
    } in
    if found then asked else record asked {
      producer = next;
      consumer = if asked.consumer == next then next_index asked.consumer else asked.consumer;
      table = set_entry asked.table i entry;
      pending = kept;
    }

-- Six bytes of memory.
abbrev pub mac_at : Memory → ℕ → List ℕ
mac_at m a = m a ∷ m (a + 1) ∷ m (a + 2) ∷ m (a + 3) ∷ m (a + 4) ∷ m (a + 5) ∷ []

-- The ARP_REPLY case for this host, where the table has an entry of the sender's address that is not
-- resolved.
unfoldable pub take_reply : Memory → ℕ → ℕ → Arp → ℕ × Arp
take_reply m packet i s =
    let known : ArpEntry = record (s.table i) { mac_addr = mac_at m (packet + 8) } in
    let released : ArpEntry = record known { pkt_pending = false; eth_len = 0 } in
    let frame : Frame = record s.pending { dest_mac = known.mac_addr } in
    if known.pkt_pending
    then (
      0,
      record s {
        table = set_entry s.table i released;
        pending = frame;
        sent = s.sent ++ (frame ∷ []);
      },
    )
    else (0, record s { table = set_entry s.table i known })

abbrev pub not_handled : ℕ
not_handled = 2 ^ 8 - 1

-- `handle_arp`: its result, an `int8_t`, and the state.
unfoldable pub handle_arp : List ℕ → Memory → ℕ → ℕ → Arp → Option (ℕ × Arp)
handle_arp mac m packet packetsize s =
    let opcode = load 2 m (packet + 6) in
    let src_ip = load 4 m (packet + 14) in
    let reply = do
      found ← lookup_from arp_entries s s.consumer src_ip
      elim found [
        | none ↦ some (not_handled, s)
        | some i ↦
            if same_mac (s.table i).mac_addr null_mac_addr
            then some (take_reply m packet i s)
            else some (not_handled, s)
      ]
    in let request : ℕ × Arp =
        if s.own_ip == 0
        then (0, s)
        else (0, arp_send_reply mac src_ip (mac_at m (packet + 8)) s) in
      if ltb packetsize 28
      then some (not_handled, s)
      else if not (load 2 m packet == 1) || not (load 2 m (packet + 2) == 0x800)
      then some (not_handled, s)
      else if not (load 4 m (packet + 24) == s.own_ip)
      then some (not_handled, s)
      else if opcode == 1
      then some request
      else if not (opcode == 2)
      then some (not_handled, s)
      else if not (same_mac mac (mac_at m (packet + 18)))
      then some (0, s)
      else if src_ip == 0
      then some (not_handled, s)
      else reply
