-- ===== src/Net/Arp/Send.antt =====
-- lib/libnet/ipv4.c: the choice of a MAC address in `send_ipv4`, and the frame that it sends.
use slof.Prelude.{
  ℕ, ◌+◌, ◌-◌, ◌^◌, ◌≤◌, ◌<◌, ◌≡◌, ◌≢◌, ◌==◌, ◌∙◌, ap, arith, refl, bit_and, Bool, true, false,
  ◌&&◌, ◌||◌, Option, none, some, List, [], ◌∷◌, ◌++◌, length, ltb, if◌then◌else◌,
}
use slof.Nvram.Partition.{◌>>=◌}
use slof.Net.Arp.{Arp, null_mac_addr, broadcast_mac, same_mac, mac_at, lookup_mac_addr, request_mac}
use slof.Net.Arp.Table.{IsRing}
use slof.Net.Arp.Resolve.{ip_frame, Resolved, request_mac-Resolved}

-- `subnet_mask`, `router_ip`, `multicast_ip` and `multicast_mac`.
pub record Route : Type 0 where
  pub subnet_mask : ℕ
  pub router_ip : ℕ
  pub multicast_ip : ℕ
  pub multicast_mac : List ℕ

-- The address, or the host to ask for and whether the table has an entry of it.
pub data Choice : Type 0 where
  known : List ℕ → Choice
  unknown : ℕ → Bool → Choice

-- All bits of the part behind the netmask are set.
unfoldable pub is_broadcast : Route → ℕ → ℕ → Bool
is_broadcast route own_ip dst =
    let hosts = 2 ^ 32 - 1 - route.subnet_mask in
    dst == 0xffffffff
    || (bit_and hosts dst == hosts
        && bit_and route.subnet_mask dst == bit_and route.subnet_mask own_ip)

unfoldable pub choose_mac : Route → Arp → ℕ → Option Choice
choose_mac route s dst =
    let near = bit_and route.subnet_mask s.own_ip == bit_and route.subnet_mask dst in
    let next = if near then dst else route.router_ip in
    let looked = do
      found ← lookup_mac_addr s next
      elim found [
        | none ↦ some (unknown next false)
        | some i ↦ some (
            if same_mac (s.table i).mac_addr null_mac_addr
            then unknown next true
            else known (s.table i).mac_addr)
      ]
    in if is_broadcast route s.own_ip dst
      then some (known broadcast_mac)
      else if dst == route.multicast_ip
      then some (known route.multicast_mac)
      else looked

-- The packet is sent, or its destination is asked for; one that does not fit into ETH_MTU_SIZE with its
-- Ethernet header is dropped.
unfoldable pub transmit : Route → List ℕ → ℕ → List ℕ → Arp → Option Arp
transmit route mac dst packet s =
    let passed = do
      choice ← choose_mac route s dst
      elim choice [
        | known dest_mac ↦ some (record s { sent = s.sent ++ (ip_frame dest_mac mac packet ∷ []) })
        | unknown next found ↦ some (request_mac mac next found packet s)
      ]
    in if ltb 1518 (length packet + 14) then some s else passed

-- A destination in the subnet that is neither a broadcast nor the multicast address.
pub record IsNear (route : Route) (own_ip dst : ℕ) : Type 0 where
  pub unicast : is_broadcast route own_ip dst ≡ false
  pub single : dst ≢ route.multicast_ip
  pub near : bit_and route.subnet_mask own_ip ≡ bit_and route.subnet_mask dst

transmit-unknown :
    (route : Route) (mac : List ℕ) (dst : ℕ) (packet : List ℕ) (s : Arp)
    → length packet ≤ 1504
    → IsNear route s.own_ip dst
    → lookup_mac_addr s dst ≡ some none
    → transmit route mac dst packet s ≡ some (request_mac mac dst false packet s)
unfolding transmit choose_mac
transmit-unknown route mac dst packet s fits n e =
    let small : ltb 1518 (length packet + 14) ≡ false = ground arith in
    let single : (dst == route.multicast_ip) ≡ false = ground (arith, n) in
    let near : (bit_and route.subnet_mask s.own_ip == bit_and route.subnet_mask dst) ≡ true =
      ground (arith, n) in
    let next : (if bit_and route.subnet_mask s.own_ip == bit_and route.subnet_mask dst
          then dst
          else route.router_ip)
        ≡ dst =
      rw near refl in
    rw (small, n.unicast, single, near, e) (ap (λ t. some (request_mac mac t false packet s)) next)

transmit-known :
    (route : Route) (mac : List ℕ) (dst i : ℕ) (packet : List ℕ) (s : Arp)
    → length packet ≤ 1504
    → IsNear route s.own_ip dst
    → lookup_mac_addr s dst ≡ some (some i)
    → same_mac (s.table i).mac_addr null_mac_addr ≡ false
    → transmit route mac dst packet s
      ≡ some (record s { sent = s.sent ++ (ip_frame (s.table i).mac_addr mac packet ∷ []) })
unfolding transmit choose_mac
transmit-known route mac dst i packet s fits n e f =
    let small : ltb 1518 (length packet + 14) ≡ false = ground arith in
    let single : (dst == route.multicast_ip) ≡ false = ground (arith, n) in
    let near : (bit_and route.subnet_mask s.own_ip == bit_and route.subnet_mask dst) ≡ true =
      ground (arith, n) in
    rw (small, n.unicast, single, near, e, f) refl

-- A host with a valid ring has no entry of another host in its subnet, whose address is not 0 and
-- neither a broadcast nor the multicast address, and whose MAC address is not the null address. It
-- keeps a packet of at most 1504 bytes for that host and asks. The other host answers to the asker; the
-- answer is handled, the packet goes to the MAC address of the other host, and its entry is found in
-- the table, which is valid, with that address. A further packet of at most 1504 bytes is sent to it at
-- once.
pub transmit-Resolved :
    (route : Route) (x y : ℕ → ℕ) (packet packet' : List ℕ) (a b : Arp)
    → length packet ≤ 1504
    → length packet' ≤ 1504
    → IsRing a
    → a.own_ip < 2 ^ 32
    → b.own_ip < 2 ^ 32
    → b.own_ip ≢ 0
    → IsNear route a.own_ip b.own_ip
    → lookup_mac_addr a b.own_ip ≡ some none
    → same_mac (mac_at y 0) null_mac_addr ≡ false
    → (asked : Arp) × (transmit route (mac_at x 0) b.own_ip packet a ≡ some asked)
      × (z : Resolved (mac_at x 0) (mac_at y 0) packet a asked b) × (transmit route
            (mac_at x 0)
            b.own_ip
            packet'
            z.resolved
          ≡ some (record z.resolved {
            sent = z.resolved.sent ++ (ip_frame (mac_at y 0) (mac_at x 0) packet' ∷ []);
          }))
transmit-Resolved route x y packet packet' a b fits fits' r l l' n near f g =
    let z = request_mac-Resolved x y packet a b r l l' n f in
    (
      request_mac (mac_at x 0) b.own_ip false packet a,
      transmit-unknown route (mac_at x 0) b.own_ip packet a fits near f,
      z,
      transmit-known route (mac_at x 0) b.own_ip a.producer packet' z.resolved fits'
            (rw z.own_kept near) z.found (rw z.known g)
          ∙ ap
              (λ t. some (record z.resolved {
                sent = z.resolved.sent ++ (ip_frame t (mac_at x 0) packet' ∷ []);
              }))
              z.known,
    )
