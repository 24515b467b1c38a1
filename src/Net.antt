-- ===== src/Net.antt =====
-- lib/libnet: the arguments of a network boot, the addresses in them, DHCP, DNS, TFTP, UDP, IPv4 and ARP.
pub mod Address
pub mod Args
pub mod Arp
pub mod Dhcp
pub mod Dns
pub mod Ipv4
pub mod Tftp
pub mod Udp
mod Examples
