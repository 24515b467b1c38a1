-- ===== src/Net/Dhcp/Client.antt =====
-- lib/libnet/dhcp.c: `handle_dhcp`, by which a message changes the state of the client. The packet
-- stands in memory; `int8_t` results are 0 or -1.
pub mod Ends
pub mod Step
use slof.Prelude.{
  ℕ, zero, suc, ◌+◌, ◌-◌, ◌*◌, ◌%◌, ◌^◌, ◌==◌, ltb, leb, Bool, true, false, not, ◌&&◌, ◌||◌,
}
use slof.Prelude.{Option, none, some, List, [], ◌∷◌, ◌++◌, if◌then◌else◌}
use slof.Libc.Compare.{strlen}
use slof.Libc.Memory.{Memory, update, memcpy, copied}
use slof.Nvram.Store.{load}
use slof.Nvram.Partition.{◌>>=◌}
use slof.Net.Dhcp.Options.{u32, copy_array, merge_options}
use slof.Net.Dhcp.Decode.{DhcpOptions, Decoded, no_options, has_magic, decode_options}
use slof.Net.Dhcp.Encode.{elements}

-- `dhcp_state`; the variable starts as 0.
pub data ClientState : Type 0 where
  idle : ClientState
  select : ClientState
  request : ClientState
  success : ClientState
  fault : ClientState

-- Calls of other parts of the network code.
pub data Effect : Type 0 where
  send_discover : Effect
  send_request : Effect
  set_address : ℕ → Effect
  copy_response : ℕ → Effect
  set_router : ℕ → Effect
  set_netmask : ℕ → Effect
  start_dns : ℕ → Effect

-- The static variables that `handle_dhcp` reads or writes, and the calls that it made.
pub record Client : Type 0 where
  pub state : ClientState
  pub xid : ℕ
  pub own_ip : ℕ
  pub server_ip : ℕ
  pub siaddr_ip : ℕ
  pub filename : ℕ → ℕ
  pub tftp_name : ℕ → ℕ
  pub pxelinux_cfgfile : Option (ℕ → ℕ)
  pub pxelinux_prefix : Option (ℕ → ℕ)
  pub has_response_buffer : Bool
  pub effects : List Effect

-- Fields of `struct btphdr` at `packet`.
abbrev pub op_of : Memory → ℕ → ℕ
op_of m packet = m packet

abbrev pub xid_of : Memory → ℕ → ℕ
xid_of m packet = load 4 m (packet + 4)

abbrev pub yiaddr_of : Memory → ℕ → ℕ
yiaddr_of m packet = load 4 m (packet + 16)

abbrev pub siaddr_of : Memory → ℕ → ℕ
siaddr_of m packet = load 4 m (packet + 20)

-- `strncpy` of a field to an array, and a terminator behind it.
unfoldable pub copy_field : (ℕ → ℕ) → Memory → ℕ → ℕ → ℕ → ℕ
copy_field array m field n j = if ltb j n then copied m field j else if j == n then 0 else array j

-- `strcpy` between arrays of 256 bytes.
unfoldable pub copy_string : (ℕ → ℕ) → (ℕ → ℕ) → ℕ → ℕ
copy_string array source = copy_array (strlen (elements 256 source 0) + 1) array 0 source 0

-- `iph` stands 28 elements of 20 bytes in front of the packet; `ip_src` is its fourth word.
abbrev ip_src_of : Memory → ℕ → ℕ
ip_src_of m packet = load 4 m (packet - 28 * 20 + 12)

-- What both kinds of BootP reply set.
unfoldable pub take_bootp : Memory → ℕ → Client → Client
take_bootp m packet c =
    let siaddr = siaddr_of m packet in
    let unnamed = m (packet + 44) == 0 || not (siaddr == 0) in
    record c {
      own_ip = yiaddr_of m packet;
      siaddr_ip = siaddr;
      server_ip = ip_src_of m packet;
      tftp_name = if unnamed then c.tftp_name else copy_field c.tftp_name m (packet + 44) 64;
      filename =
          if m (packet + 108) == 0 then c.filename else copy_field c.filename m (packet + 108) 128;
      state = success;
    }

-- The DHCP-ACK case.
unfoldable pub take_ack : Memory → ℕ → DhcpOptions → Client → Client
take_ack m packet o c =
    let siaddr = siaddr_of m packet in
    let sname_used = o.overload == 2 || o.overload == 3 || not (siaddr == 0) in
    let file_used = o.overload == 1 || o.overload == 3 || m (packet + 108) == 0 in
    let emptied = update c.filename 0 0 in
    let named : Client =
      if o.flag 66 == 0
      then record c {
        filename = emptied;
        tftp_name = if sname_used then c.tftp_name else copy_field c.tftp_name m (packet + 44) 64;
      }
      else record c { tftp_name = copy_string c.tftp_name o.tftp_server } in
    let cleared = update named.filename 0 0 in
    record named {
      own_ip = yiaddr_of m packet;
      server_ip = o.server_id;
      siaddr_ip = siaddr;
      filename =
          if o.flag 67 == 0
          then if file_used then cleared else copy_field cleared m (packet + 108) 128
          else copy_string named.filename o.bootfile;
      state = success;
    }

-- The calls that follow where the state is SUCCESS in the end.
unfoldable pub configure : ℕ → DhcpOptions → Client → Client
configure packetsize o c =
    let response =
      if c.has_response_buffer
      then copy_response (if leb packetsize 1720 then packetsize else 1720) ∷ []
      else [] in
    let routed =
      if o.flag 1 == 0 || o.flag 3 == 0
      then []
      else set_router o.router_ip ∷ set_netmask o.subnet_mask ∷ [] in
    let named = if o.flag 6 == 0 then [] else start_dns o.dns_ip ∷ [] in
    record c { effects = c.effects ++ ((set_address c.own_ip ∷ response) ++ (routed ++ named)) }

abbrev pub minus_one : ℕ
minus_one = 2 ^ 8 - 1

-- The `switch` over the state for a DHCP message, up to the end of the function.
unfoldable pub take_dhcp : Memory → ℕ → ℕ → DhcpOptions → Client → ℕ × Client
take_dhcp m packet packetsize o c = elim c.state [
  | idle ↦ (minus_one, c)
  | select ↦
      if o.msg_type == 2
      then (
        0,
        record c {
          own_ip = yiaddr_of m packet;
          server_ip = o.server_id;
          state = request;
          effects = c.effects ++ (send_request ∷ []);
        },
      )
      else (0, c)
  | request ↦
      if o.msg_type == 6
      then (0, record c { own_ip = 0; server_ip = 0; state = fault })
      else if o.msg_type == 5
      then (0, configure packetsize o (take_ack m packet o c))
      else (0, c)
  | success ↦ (minus_one, c)
  | fault ↦ (minus_one, c)
]

-- A merge that stays in the 1024 bytes of `options`; one that grows beyond them overruns the array.
unfoldable pub in_buffer : Option (Bool × Memory × ℕ) → Option (Bool × Memory × ℕ)
in_buffer merged = do r ← merged; if ltb 1024 (r.2 + 4) then none else some r

-- The merge of the overloaded fields into the buffer `options`: its result and the buffer's length.
unfoldable pub merge_fields : Memory → ℕ → ℕ → ℕ → ℕ → Option (Bool × Memory × ℕ)
merge_fields m packet options opt_len overload =
    let file = in_buffer (merge_options m (options + 4) opt_len (packet + 108) 128) in
    let sname = in_buffer (merge_options m (options + 4) opt_len (packet + 44) 64) in
    let both = do
      first ← file
      let second = in_buffer (merge_options first.1 (options + 4) first.2 (packet + 44) 64)
      if first.0 then second else some first
    in if overload == 1
      then file
      else if overload == 2
      then sname
      else if overload == 3
      then both
      else some (false, m, opt_len)

-- What the options say, with those of overloaded fields. `options` is the address of the buffer of
-- 1024 bytes on the stack, which the copy must not overrun. The last component holds the globals that
-- decoding writes.
unfoldable pub read_options : (ℕ → Bool) → Memory → ℕ → ℕ → ℕ → Decoded → Option (Bool × Decoded)
read_options has_memory m packet packetsize options d = do
  let vend = packet + 236
  let opt_len = u32 (packetsize + 2 ^ 32 - 300 + 64)
  decoded ← decode_options has_memory m vend opt_len d
  let part_len = u32 (packetsize + 2 ^ 32 - 300 + 64 - 4)
  let buffered = memcpy m options vend (u32 (part_len + 4))
  let again = do
    merged ← merge_fields buffered packet options part_len decoded.1.opt.overload
    let decode = decode_options has_memory merged.1 options (u32 (merged.2 + 4)) decoded.1
    if merged.0 then decode else some (false, decoded.1)
  let merged = if ltb 1024 (u32 (part_len + 4)) then none else again
  if decoded.0 && not (decoded.1.opt.overload == 0) then merged else some decoded

-- `handle_dhcp`; `none` means that the fuel of a loop over options ran out, or that a merge of options
-- overruns `options` or `tmp_buffer`.
unfoldable pub handle_dhcp : (ℕ → Bool) → Memory → ℕ → ℕ → ℕ → Client → Option (ℕ × Client)
handle_dhcp has_memory m packet packetsize options c =
    let globals : Decoded = record {
      opt = no_options;
      pxelinux_cfgfile = c.pxelinux_cfgfile;
      pxelinux_prefix = c.pxelinux_prefix;
    } in
    let with_options = do
      read ← read_options has_memory m packet packetsize options globals
      let known : Client = record c {
        pxelinux_cfgfile = read.1.pxelinux_cfgfile;
        pxelinux_prefix = read.1.pxelinux_prefix;
      }
      let bootp = configure packetsize read.1.opt (take_bootp m packet known)
      let handled =
          if read.1.opt.msg_type == 0
          then (0, bootp)
          else take_dhcp m packet packetsize read.1.opt known
      some (if read.0 then handled else (minus_one, known))
    in if not (op_of m packet == 2) || not (xid_of m packet == c.xid)
      then some (minus_one, c)
      else if has_magic m (packet + 236)
      then with_options
      else some (0, take_bootp m packet c)
