-- ===== src/Net/Udp.antt =====
-- lib/libnet/udp.c: the header of a UDP packet, and the handling of packets by their ports.
use slof.Prelude.{
  ℕ, ◌+◌, ◌-◌, ◌^◌, ◌%◌, ◌≤◌, ◌<◌, ◌≡◌, ◌==◌, arith, refl, false, ltb, if◌then◌else◌,
}
use slof.Libc.Memory.{Memory}
use slof.Nvram.Store.{load, store}

unfoldable pub fill_udphdr : Memory → ℕ → ℕ → ℕ → ℕ → Memory
fill_udphdr m packet packetsize src_port dest_port =
    let sport = store 2 m packet src_port in
    let dport = store 2 sport (packet + 2) dest_port in
    let ulen = store 2 dport (packet + 4) packetsize in store 2 ulen (packet + 6) 0

-- What `handle_udp` returns, or calls with an address and a length.
pub data UdpHandled : Type 0 where
  failed : UdpHandled
  dhcp : ℕ → ℕ → UdpHandled
  dns : ℕ → ℕ → UdpHandled
  dhcpv6 : ℕ → ℕ → UdpHandled
  tftp : ℕ → ℕ → UdpHandled

unfoldable pub handle_udp : Memory → ℕ → ℕ → UdpHandled
handle_udp m udp_packet packetsize =
    let sport = load 2 m udp_packet in
    let dport = load 2 m (udp_packet + 2) in
    let content = udp_packet + 8 in
    let n = packetsize - 8 in
    if ltb packetsize 8
    then failed
    else if dport == 68
    then (if sport == 67 then dhcp content n else failed)
    else if dport == 32769
    then (if sport == 53 then dns content n else failed)
    else if dport == 546
    then dhcpv6 content n
    else if dport == 2001
    then tftp udp_packet packetsize
    else failed

fill_udphdr-ports :
    (m : Memory) (packet n src_port dest_port : ℕ)
    → (load 2 (fill_udphdr m packet n src_port dest_port) packet ≡ src_port % 2 ^ 16)
      × (load 2 (fill_udphdr m packet n src_port dest_port) (packet + 2) ≡ dest_port % 2 ^ 16)
unfolding fill_udphdr load store
fill_udphdr-ports m packet n src_port dest_port = (ground arith, ground arith)

-- A packet is handed on by the ports that its header was filled with.
handle_udp-fill_udphdr :
    (m : Memory) (packet n src_port dest_port : ℕ)
    → src_port < 2 ^ 16
    → dest_port < 2 ^ 16
    → 8 ≤ n
    → handle_udp (fill_udphdr m packet n src_port dest_port) packet n ≡ (
        if dest_port == 68
        then (if src_port == 67 then dhcp (packet + 8) (n - 8) else failed)
        else if dest_port == 32769
        then (if src_port == 53 then dns (packet + 8) (n - 8) else failed)
        else if dest_port == 546
        then dhcpv6 (packet + 8) (n - 8)
        else if dest_port == 2001
        then tftp packet n
        else failed)
unfolding handle_udp
handle_udp-fill_udphdr m packet n src_port dest_port l k s =
    let ports = fill_udphdr-ports m packet n src_port dest_port in
    let long : ltb n 8 ≡ false = ground arith in
    let source : src_port % 2 ^ 16 ≡ src_port = omega arith in
    let to : dest_port % 2 ^ 16 ≡ dest_port = omega arith in
    rw (long, ports.0, ports.1, source, to) refl
