-- ===== src/Net/Tftp/Errors.antt =====
-- lib/libnet/tftp.c and lib/libnet/netload.c: what is reported of the result of `tftp`.
-- The result is the 32-bit pattern of an `int`.
pub mod Reported
use slof.Prelude.{
  ℕ, ◌+◌, ◌-◌, ◌^◌, ◌==◌, ltb, leb, Bool, true, false, ◌&&◌, Option, none, some, List,
  if◌then◌else◌,
}
use slof.Libc.Memory.{Memory}
use slof.Net.Tftp.{Tftp, TftpErr, Turn, minus, tftp}

-- `icmp_err_str`.
pub data IcmpErrStr : Type 0 where
  net_unreachable : IcmpErrStr
  host_unreachable : IcmpErrStr
  protocol_unreachable : IcmpErrStr
  port_unreachable : IcmpErrStr
  fragmentation_needed : IcmpErrStr
  source_route_failed : IcmpErrStr

-- The text at `errstr`, with the numbers that are printed into it; the file's name is not kept.
pub data ErrStr : Type 0 where
  unknown_error : ErrStr
  buffer_too_small : (len : ℕ) → ErrStr
  file_not_found : ErrStr
  access_violation : ErrStr
  illegal_operation : ErrStr
  unknown_transfer_id : ErrStr
  no_such_user : ErrStr
  blocksize_negotiation_failed : ErrStr
  file_too_large : ErrStr
  icmp_error : IcmpErrStr → ErrStr
  bad_packets : (count : ℕ) → ErrStr
  missing_responses : (count : ℕ) → ErrStr
  missing_block : (missing expected : ℕ) → ErrStr

-- The result, and `*ecode` and `*errstr` where they are set.
pub record ErrorInfo : Type 0 where
  pub rc : ℕ
  pub report : Option (ℕ × ErrStr)

abbrev reported : ℕ → ℕ → ErrStr → ErrorInfo
reported ecode rc errstr = record { rc = minus rc; report = some (ecode, errstr) }

-- The switch on the code, for a result from -15 to -10.
unfoldable pub icmp_err_str : ℕ → IcmpErrStr
icmp_err_str rc =
    if rc == minus 10
    then net_unreachable
    else if rc == minus 11
    then host_unreachable
    else if rc == minus 12
    then protocol_unreachable
    else if rc == minus 13
    then port_unreachable
    else if rc == minus 14
    then fragmentation_needed
    else source_route_failed

-- `tftp_get_error_info`; `len` is the static variable.
unfoldable pub tftp_get_error_info : ℕ → TftpErr → ℕ → ErrorInfo
tftp_get_error_info len tftperr rc =
    if rc == minus 1
    then reported 0x3003 103 unknown_error
    else if rc == minus 2
    then reported 0x3004 104 (buffer_too_small len)
    else if rc == minus 3
    then reported 0x3009 108 file_not_found
    else if rc == minus 4
    then reported 0x3010 109 access_violation
    else if rc == minus 5
    then reported 0x3011 110 illegal_operation
    else if rc == minus 6
    then reported 0x3012 111 unknown_transfer_id
    else if rc == minus 7
    then reported 0x3013 112 no_such_user
    else if rc == minus 8
    then reported 0x3017 116 blocksize_negotiation_failed
    else if rc == minus 9
    then reported 0x3018 117 file_too_large
    else if leb rc (minus 10) && leb (minus 15) rc
    then reported 0x3005 105 (icmp_error (icmp_err_str rc))
    else if rc == minus 40
    then reported 0x3014 113 (bad_packets tftperr.bad_tftp_packets)
    else if rc == minus 41
    then reported 0x3015 114 (missing_responses tftperr.no_packets)
    else if rc == minus 42
    then reported 0x3016 115 (missing_block tftperr.blocks_missed tftperr.blocks_received)
    else record { rc = rc; report = none }

-- `tftp_load`, behind its call of `tftp`.
unfoldable pub load_result : ℕ → ℕ × Tftp → ErrorInfo
load_result len (rc, s) =
    if ltb 0 rc && ltb rc (2 ^ 31)
    then record { rc = rc; report = none }
    else tftp_get_error_info len s.tftp_err rc

-- `tftp_load` of netload.c: its result, and what it gives to `netload_error`.
unfoldable pub tftp_load : Memory → ℕ → ℕ → TftpErr → List Turn → Option ErrorInfo
tftp_load buffer len retries tftp_err turns = elim (tftp buffer len retries tftp_err turns) [
  | none ↦ none
  | some result ↦ some (load_result len result)
]
