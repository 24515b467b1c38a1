-- ===== src/Net/Arp/Examples.antt =====
-- lib/libnet/ipv4.c: the theorem on ARP with two hosts.
use slof.Prelude.{ℕ, ◌+◌, ◌≡◌, arith, refl, [], ◌∷◌, ◌++◌, some, none, false}
use slof.Net.Arp.{Arp, null_mac_addr, mac_at, lookup_from, lookup_mac_addr, same_mac}
use slof.Net.Arp.Resolve.{Resolved, ip_frame}
use slof.Net.Arp.Send.{Route, is_broadcast, transmit, transmit-Resolved}

-- A host of an address with an empty table.
abbrev host : ℕ → Arp
host ip = record {
  own_ip = ip;
  consumer = 9;
  producer = 9;
  table = λ i. record { ipv4_addr = 0; mac_addr = null_mac_addr; eth_len = 0; pkt_pending = false };
  pending = record { dest_mac = []; src_mac = []; ether_type = 0; payload = [] };
  sent = [];
}

host-empty : lookup_mac_addr (host 0x0a000001) 0x0a000002 ≡ some none
unfolding lookup_mac_addr lookup_from
host-empty = refl

-- A subnet of 24 bits.
abbrev route : Route
route = record {
  subnet_mask = 0xffffff00;
  router_ip = 0x0a0000fe;
  multicast_ip = 0;
  multicast_mac = [];
}

transmit-Resolved_example :
    (asked : Arp) × (transmit route (mac_at (λ i. i) 0) 0x0a000002 (1 ∷ 2 ∷ []) (host 0x0a000001)
      ≡ some asked)
    × (z : Resolved
        (mac_at (λ i. i) 0)
        (mac_at (λ i. i + 7) 0)
        (1 ∷ 2 ∷ [])
        (host 0x0a000001)
        asked
        (host 0x0a000002))
    × (transmit route (mac_at (λ i. i) 0) 0x0a000002 (3 ∷ []) z.resolved
        ≡ some (record z.resolved {
          sent =
              z.resolved.sent
              ++ (ip_frame (mac_at (λ i. i + 7) 0) (mac_at (λ i. i) 0) (3 ∷ []) ∷ []);
        }))
unfolding is_broadcast same_mac
transmit-Resolved_example =
    transmit-Resolved route (λ i. i) (λ i. i + 7) (1 ∷ 2 ∷ []) (3 ∷ []) (host 0x0a000001)
      (host 0x0a000002) (omega arith) (omega arith)
      (record { consumer = omega arith; producer = omega arith }) (omega arith) (omega arith)
      (omega arith) (record { unicast = refl; single = omega arith; near = refl }) host-empty refl
