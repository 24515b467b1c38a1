-- ===== src/Net/Dhcp/Decode.antt =====
-- lib/libnet/dhcp.c: `dhcp_decode_options` reads the options of a message into a structure.
pub mod Ends
pub mod Items
use slof.Prelude.{ℕ, zero, suc, ◌+◌, ◌-◌, ◌*◌, ◌%◌, ◌^◌, ◌==◌, ltb, Bool, true, false, ◌&&◌}
use slof.Prelude.{Option, none, some, List, [], ◌∷◌, if◌then◌else◌}
use slof.Libc.Memory.{Memory, update}
use slof.Nvram.Store.{load}
use slof.Net.Dhcp.Options.{u32, copy_array}

-- `dhcp_options_t`; its arrays are functions from indices.
pub record DhcpOptions : Type 0 where
  pub flag : ℕ → ℕ
  pub request_list : ℕ → ℕ
  pub server_id : ℕ
  pub requested_ip : ℕ
  pub dns_ip : ℕ
  pub router_ip : ℕ
  pub subnet_mask : ℕ
  pub msg_type : ℕ
  pub overload : ℕ
  pub tftp_server : ℕ → ℕ
  pub bootfile : ℕ → ℕ
  pub client_arch : ℕ

-- The structure, and what `pxelinux_cfgfile` and `pxelinux_prefix` point to.
pub record Decoded : Type 0 where
  pub opt : DhcpOptions
  pub pxelinux_cfgfile : Option (ℕ → ℕ)
  pub pxelinux_prefix : Option (ℕ → ℕ)

abbrev pub no_options : DhcpOptions
no_options = record {
  flag = λ _. 0;
  request_list = λ _. 0;
  server_id = 0;
  requested_ip = 0;
  dns_ip = 0;
  router_ip = 0;
  subnet_mask = 0;
  msg_type = 0;
  overload = 0;
  tftp_server = λ _. 0;
  bootfile = λ _. 0;
  client_arch = 0;
}

-- How a case of the `switch` ends: the function returns, or the loop goes on at an offset.
pub data Case : Type 0 where
  returns : Bool → Case
  goes_on : ℕ → Case

-- A `memcpy` of `n` bytes to an array and a terminator behind them.
unfoldable pub copy_text : (ℕ → ℕ) → Memory → ℕ → ℕ → ℕ → ℕ
copy_text array m src n = update (copy_array n array 0 m src) n 0

-- `malloc` of the text's size, which `has_memory` tells to succeed or not, and a copy to there.
unfoldable pub new_text : (ℕ → Bool) → Memory → ℕ → ℕ → Option (ℕ → ℕ)
new_text has_memory m src n = if has_memory (n + 1) then some (copy_text (λ _. 0) m src n) else none

-- The change of the structure by one case of the `switch`.
unfoldable pub store_option : (ℕ → Bool) → Memory → ℕ → Decoded → Decoded
store_option has_memory m at_option d =
    let code = m at_option in
    let n = m (at_option + 1) in
    let byte = m (at_option + 2) in
    let word = load 4 m (at_option + 2) in
    let o : DhcpOptions = record d.opt { flag = update d.opt.flag code 1 } in
    if code == 52
    then record d { opt = record o { overload = byte } }
    else if code == 50
    then record d { opt = record o { requested_ip = word } }
    else if code == 1
    then record d { opt = record o { subnet_mask = word } }
    else if code == 6
    then record d { opt = record o { dns_ip = word } }
    else if code == 3
    then record d { opt = record o { router_ip = word } }
    else if code == 53
    then (if ltb 0 byte && ltb byte 9
        then record d { opt = record o { msg_type = byte } }
        else record d { opt = o })
    else if code == 54
    then record d { opt = record o { server_id = word } }
    else if code == 66
    then record d { opt = record o { tftp_server = copy_text o.tftp_server m (at_option + 2) n } }
    else if code == 67
    then record d { opt = record o { bootfile = copy_text o.bootfile m (at_option + 2) n } }
    else if code == 93
    then record d { opt = record o { client_arch = byte * 256 + m (at_option + 3) } }
    else if code == 209
    then record d { opt = o; pxelinux_cfgfile = new_text has_memory m (at_option + 2) n }
    else if code == 210
    then record d { opt = o; pxelinux_prefix = new_text has_memory m (at_option + 2) n }
    else record d { opt = o }

-- The way that the case ends.
unfoldable pub leave_option : Memory → ℕ → ℕ → Case
leave_option m opt_field offset =
    let code = m (opt_field + offset) in
    let byte = m (opt_field + offset + 2) in
    let next = goes_on (u32 (offset + (2 + m (opt_field + offset + 1)))) in
    if code == 53
    then (if ltb 0 byte && ltb byte 9 then next else returns false)
    else if code == 93
    then goes_on (u32 (offset + 4))
    else if code == 0
    then goes_on (u32 (offset + 1))
    else if code == 255
    then returns true
    else next

-- The loop. `none` means that the fuel ran out.
unfoldable pub decode_from : ℕ → (ℕ → Bool) → Memory → ℕ → ℕ → ℕ → Decoded → Option (Bool × Decoded)
decode_from zero has_memory m opt_field opt_len offset d = none
decode_from (suc fuel) has_memory m opt_field opt_len offset d =
    let stored = store_option has_memory m (opt_field + offset) d in
    let round : Option (Bool × Decoded) = elim (leave_option m opt_field offset) [
      | returns b ↦ some (b, stored)
      | goes_on next ↦ decode_from fuel has_memory m opt_field opt_len next stored
    ] in
    if ltb offset opt_len then round else some (offset == opt_len, d)

-- `memcmp(opt_field, dhcp_magic, 4)` is 0.
unfoldable pub has_magic : Memory → ℕ → Bool
has_magic m a = m a == 0x63 && m (a + 1) == 0x82 && m (a + 2) == 0x53 && m (a + 3) == 0x63

-- `dhcp_decode_options`: its result and what it stores. Each round advances.
unfoldable pub decode_options : (ℕ → Bool) → Memory → ℕ → ℕ → Decoded → Option (Bool × Decoded)
decode_options has_memory m opt_field opt_len d =
    let cleared = record d { opt = no_options } in
    let decoded = decode_from (suc opt_len) has_memory m opt_field opt_len 4 cleared in
    if has_magic m opt_field then decoded else some (false, cleared)
