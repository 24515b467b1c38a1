-- ===== src/Net/Ipv4.antt =====
-- lib/libnet/ipv4.c: the header of an IPv4 packet, its checksums, and the handling of packets with the
-- reassembly of fragments. A packet stands in memory; the processor has the order of the network.
pub mod Accept
mod Examples
pub mod Checksum
pub mod Fragments
use slof.Prelude.{
  ℕ, zero, suc, ◌+◌, ◌-◌, ◌*◌, ◌/◌, ◌%◌, ◌^◌, ◌==◌, ltb, leb, Bool, true, false, not, ◌&&◌, ◌||◌,
}
use slof.Prelude.{Option, none, some, if◌then◌else◌}
use slof.Libc.Memory.{Memory, update}
use slof.Nvram.Store.{load, store}
use slof.Net.Dhcp.Options.{u32, copy_array}

-- `words` halfwords from `a` on, added up in an `unsigned long`.
unfoldable pub sum_words : ℕ → Memory → ℕ → ℕ → ℕ
sum_words zero m a sum = sum
sum_words (suc words) m a sum = sum_words words m (a + 2) (sum + load 2 m a)

-- The carries are added twice, and the lower 16 bits are inverted.
unfoldable pub fold_sum : ℕ → ℕ
fold_sum sum =
    let once = sum / 2 ^ 16 + sum % 2 ^ 16 in 2 ^ 16 - 1 - (once + once / 2 ^ 16) % 2 ^ 16

unfoldable pub checksum : Memory → ℕ → ℕ → ℕ
checksum m packet words = fold_sum (sum_words words m packet 0)

unfoldable pub fill_iphdr : Memory → ℕ → ℕ → ℕ → ℕ → ℕ → Memory
fill_iphdr m packet packetsize ip_proto ip_src ip_dst =
    let hlv = update m packet 0x45 in
    let tos = update hlv (packet + 1) 0x10 in
    let len = store 2 tos (packet + 2) packetsize in
    let id = store 2 len (packet + 4) 0 in
    let off = store 2 id (packet + 6) 0 in
    let ttl = update off (packet + 8) 0xff in
    let p = update ttl (packet + 9) (ip_proto % 256) in
    let src = store 4 p (packet + 12) ip_src in
    let dst = store 4 src (packet + 16) ip_dst in store 2 dst (packet + 10) 0

-- What `send_ipv4` puts in place of the addresses 0 and 1.
unfoldable pub patch_addresses : ℕ → ℕ → Memory → ℕ → Memory
patch_addresses own_ip multicast_ip m ip =
    let src = load 4 m (ip + 12) in
    let own = store 4 m (ip + 12) own_ip in
    if src == 0 then own else if src == 1 then store 4 own (ip + 16) multicast_ip else m

-- The checksum of the header as `send_ipv4` stores it.
unfoldable pub fill_checksum : Memory → ℕ → Memory
fill_checksum m ip =
    let cleared = store 2 m (ip + 10) 0 in store 2 cleared (ip + 10) (checksum cleared ip 10)

-- `fill_udp_checksum`, with `ip_hdr` as a memory of its own.
unfoldable pub fill_udp_checksum : Memory → ℕ → Memory
fill_udp_checksum m ip =
    let cleared = store 2 m (ip + 26) 0 in
    let uh_ulen = load 2 cleared (ip + 24) in
    let with_src = store 4 (λ _. 0) 12 (load 4 cleared (ip + 12)) in
    let with_dst = store 4 with_src 16 (load 4 cleared (ip + 16)) in
    let with_len = store 2 with_dst 2 uh_ulen in
    let ip_hdr = update with_len 9 (cleared (ip + 9)) in
    let body = sum_words ((uh_ulen + 1) / 2) cleared (ip + 20) 0 in
    let uh_sum = fold_sum (sum_words 10 ip_hdr 0 body) in
    store 2 cleared (ip + 26) (if uh_sum == 0 then 2 ^ 16 - 1 else uh_sum)

-- The packet as `send_ipv4` completes it.
unfoldable pub sum_packet : ℕ → ℕ → Memory → ℕ → Memory
sum_packet own_ip multicast_ip m ip =
    let summed = fill_checksum (patch_addresses own_ip multicast_ip m ip) ip in
    if summed (ip + 9) == 17 then fill_udp_checksum summed ip else summed

-- The packet that `send_ipv4` hands on, of `len` bytes; a packet that does not fit into ETH_MTU_SIZE
-- with its Ethernet header is dropped.
unfoldable pub prepare : ℕ → ℕ → Memory → (ip len : ℕ) → Option Memory
prepare own_ip multicast_ip m ip len =
    if ltb 1518 (len + 14) then none else some (sum_packet own_ip multicast_ip m ip)

-- What `handle_ipv4` returns, or calls with a memory, an address and a length.
pub data Handled : Type 0 where
  failed : Handled
  finished : Handled
  icmp : Memory → ℕ → ℕ → Handled
  udp : Memory → ℕ → ℕ → Handled
  tcp : Memory → ℕ → ℕ → Handled

-- The first test of `handle_ipv4`: the destination is neither broadcast nor this host.
unfoldable pub is_foreign : ℕ → ℕ → ℕ → Bool
is_foreign own_ip multicast_ip dst =
    (multicast_ip == 0 && (leb 0xe0000000 dst && leb dst 0xefffffff))
    || (not (multicast_ip == dst)
        && (not (dst == 0xffffffff) && (not (own_ip == 0) && not (dst == own_ip))))

-- The `switch` over the protocol.
unfoldable pub deliver : Memory → ℕ → Handled
deliver m ip =
    let n = u32 (load 2 m (ip + 2) + 2 ^ 32 - 20) in
    if m (ip + 9) == 1
    then icmp m (ip + 20) n
    else if m (ip + 9) == 17
    then udp m (ip + 20) n
    else if m (ip + 9) == 6
    then tcp m (ip + 20) n
    else failed

-- The fragment belongs to the packet that `ip_heap` holds.
unfoldable pub same_packet : Memory → Memory → ℕ → Bool
same_packet ip_heap m ip =
    load 2 ip_heap 4 == load 2 m (ip + 4)
    && ip_heap 9 == m (ip + 9)
    && load 4 ip_heap 12 == load 4 m (ip + 12)
    && load 4 ip_heap 16 == load 4 m (ip + 16)

-- A packet that passed the tests: the call, and `ip_heap`.
unfoldable pub reassemble : Memory → Memory → ℕ → Handled × Memory
reassemble ip_heap m ip =
    let ip_len = load 2 m (ip + 2) in
    let ip_off = load 2 m (ip + 6) in
    let offset = ip_off % 2 ^ 13 in
    let more = ip_off / 2 ^ 13 % 2 == 1 in
    let n = (ip_len + 2 ^ 64 - 20) % 2 ^ 64 in
    let joined = copy_array n ip_heap (20 + offset * 8) m (ip + 20) in
    let whole = store 2 joined 2 (ip_len + offset * 8) in
    if offset == 0
    then if more then (finished, copy_array ip_len ip_heap 0 m ip) else (deliver m ip, ip_heap)
    else if not (same_packet ip_heap m ip)
    then (finished, ip_heap)
    else if more
    then (finished, joined)
    else (deliver whole 0, whole)

-- `handle_ipv4`; the checksum of the packet is cleared in it.
unfoldable pub handle_ipv4 : ℕ → ℕ → Memory → Memory → ℕ → ℕ → Handled × Memory
handle_ipv4 own_ip multicast_ip ip_heap m ip packetsize =
    let old_sum = load 2 m (ip + 10) in
    let cleared = store 2 m (ip + 10) 0 in
    if ltb packetsize 20
    then (failed, ip_heap)
    else if is_foreign own_ip multicast_ip (load 4 m (ip + 16))
    then (failed, ip_heap)
    else if not (old_sum == checksum cleared ip 10)
    then (failed, ip_heap)
    else reassemble ip_heap cleared ip
