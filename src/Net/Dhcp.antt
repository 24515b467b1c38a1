-- ===== src/Net/Dhcp.antt =====
-- lib/libnet/dhcp.c: the options of a DHCP message, their encoding, and the client's states.
mod Examples
pub mod Attempt
pub mod Client
pub mod Decode
pub mod Encode
pub mod Message
pub mod Options
