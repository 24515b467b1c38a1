-- ===== src/Net/Dhcp/Message.antt =====
-- lib/libnet/dhcp.c: the messages that the client sends, as they stand in `ether_packet`.
pub mod Decoded
use slof.Prelude.{ℕ, ◌+◌, ◌==◌, ◌||◌, Option, none, some, if◌then◌else◌}
use slof.Libc.Memory.{Memory, update, memset}
use slof.Nvram.Store.{store}
use slof.Net.Dhcp.Options.{copy_array}
use slof.Net.Dhcp.Decode.{DhcpOptions, no_options}
use slof.Net.Dhcp.Encode.{encode_options}
use slof.Net.Ipv4.{fill_iphdr}
use slof.Net.Udp.{fill_udphdr}

-- USE_DHCPARCH and DHCPARCH, where the build defines the latter or not.
abbrev pub use_dhcparch : Option ℕ → ℕ
use_dhcparch none = 0
use_dhcparch (some arch) = 1

abbrev pub dhcparch : Option ℕ → ℕ
dhcparch none = 0
dhcparch (some arch) = arch

abbrev pub discover_options : Option ℕ → DhcpOptions
discover_options arch = record no_options {
  msg_type = 1;
  request_list = λ i.
      if i == 1 || i == 6 || i == 3 || i == 66 || i == 67
      then 1
      else if i == 93
      then use_dhcparch arch
      else 0;
}

abbrev pub request_options : Option ℕ → ℕ → ℕ → DhcpOptions
request_options arch own_ip server_ip = record no_options {
  msg_type = 3;
  requested_ip = own_ip;
  server_id = server_ip;
  flag = λ i. if i == 50 || i == 54 then 1 else if i == 93 then use_dhcparch arch else 0;
  request_list = λ i.
      if i == 1 || i == 6 || i == 3 || i == 66 || i == 67 || i == 209 || i == 210
      then 1
      else if i == 93
      then use_dhcparch arch
      else 0;
}

abbrev pub release_options : ℕ → DhcpOptions
release_options server_ip = record no_options {
  msg_type = 7;
  server_id = server_ip;
  flag = λ i. if i == 54 then 1 else 0;
}

-- The packet is cleared, and the fields that all messages have are set.
unfoldable pub begin_message : Memory → ℕ → ℕ → (ℕ → ℕ) → Memory
begin_message m ether_packet xid mac =
    let btph = ether_packet + 28 in
    let cleared = memset m ether_packet 0 328 in
    let op = update cleared btph 1 in
    let htype = update op (btph + 1) 1 in
    let hlen = update htype (btph + 2) 6 in
    let xid_set = store 4 hlen (btph + 4) xid in copy_array 6 xid_set (btph + 28) mac 0

-- The options and the headers around them.
unfoldable pub end_message : Option ℕ → Memory → ℕ → DhcpOptions → ℕ → ℕ → Memory
end_message arch m ether_packet opt ip_src ip_dst =
    let encoded = encode_options (dhcparch arch) m (ether_packet + 28 + 236) opt in
    let udp = fill_udphdr encoded.1 (ether_packet + 20) 308 68 67 in
    fill_iphdr udp ether_packet 328 17 ip_src ip_dst

-- The packets that `dhcp_send_discover`, `dhcp_send_request` and `dhcp_send_release` give to
-- `send_ipv4`.
unfoldable pub discover_message : Option ℕ → Memory → ℕ → ℕ → (ℕ → ℕ) → ℕ → Memory
discover_message arch m ether_packet xid mac own_ip =
    end_message arch (begin_message m ether_packet xid mac) ether_packet (discover_options arch)
      own_ip 0xffffffff

unfoldable pub request_message : Option ℕ → Memory → ℕ → ℕ → (ℕ → ℕ) → ℕ → ℕ → Memory
request_message arch m ether_packet xid mac own_ip server_ip =
    end_message arch (begin_message m ether_packet xid mac) ether_packet
      (request_options arch own_ip server_ip) 0 0xffffffff

unfoldable pub release_message : Option ℕ → Memory → ℕ → ℕ → (ℕ → ℕ) → ℕ → ℕ → Memory
release_message arch m ether_packet xid mac own_ip server_ip =
    let btph = ether_packet + 28 in
    let begun = update (begin_message m ether_packet xid mac) (btph + 108) 0 in
    end_message arch (store 4 begun (btph + 12) own_ip) ether_packet (release_options server_ip)
      own_ip server_ip
