-- ===== src/Net/Tftp.antt =====
-- lib/libnet/tftp.c: loading a file by TFTP. What the network brings and when the timer runs out are
-- parameters; an `int` is kept as the bits of its pattern.
pub mod Data
pub mod Ends
pub mod Errors
pub mod Blksize
mod Examples
use slof.Prelude.{
  ℕ, zero, suc, ◌+◌, ◌-◌, ◌*◌, ◌%◌, ◌^◌, ◌==◌, ltb, leb, Bool, true, false, not, ◌&&◌, ◌||◌,
}
use slof.Prelude.{Option, none, some, List, [], ◌∷◌, ◌++◌, length, get_or, if◌then◌else◌}
use slof.Libc.Memory.{Memory}
use slof.Libc.Number.{strtoul}
use slof.Libc.Search.{strchr, drop}
use slof.Nvram.Store.{load}
use slof.Net.Dhcp.Options.{copy_array}

abbrev pub max_blocksize : ℕ
max_blocksize = 1428

-- `tftp_err_t`.
pub record TftpErr : Type 0 where
  pub bad_tftp_packets : ℕ
  pub no_packets : ℕ
  pub blocks_missed : ℕ
  pub blocks_received : ℕ

-- The messages that are sent: a read request, an acknowledgement and an error.
pub data TftpSent : Type 0 where
  rrq : TftpSent
  ack : (blckno dport : ℕ) → TftpSent
  error : (error_code dport : ℕ) → TftpSent

-- The static variables. `receiving` tells that `buffer` is not INVALID_BUFFER; `buffer` has the bytes
-- from the destination on. `overrun` tells that a DATA packet without its header made the size of a
-- `memcpy` negative; what a state says behind that means nothing.
pub record Tftp : Type 0 where
  pub receiving : Bool
  pub buffer : Memory
  pub block : ℕ
  pub blocksize : ℕ
  pub received_len : ℕ
  pub retries : ℕ
  pub huge_load : Bool
  pub len : ℕ
  pub tftp_finished : Bool
  pub lost_packets : ℕ
  pub tftp_errno : ℕ
  pub port_number : ℕ
  pub tftp_err : TftpErr
  pub sent : List TftpSent
  pub overrun : Bool

-- The pattern of -n.
abbrev pub minus : ℕ → ℕ
minus n = 2 ^ 32 - n

abbrev pub send : TftpSent → Tftp → Tftp
send message s = record s { sent = s.sent ++ (message ∷ []) }

-- `blksize` and a terminator.
abbrev pub blksize_name : List ℕ
blksize_name = b'b' ∷ b'l' ∷ b'k' ∷ b's' ∷ b'i' ∷ b'z' ∷ b'e' ∷ 0 ∷ []

-- `memcmp` of a text with the bytes of a packet is 0.
unfoldable pub starts_with : List ℕ → List ℕ → Bool
starts_with bytes [] = true
starts_with bytes (c ∷ text) = get_or bytes 0 0 == c && starts_with (drop 1 bytes) text

-- The loop of `get_blksize`, with `left` bytes of the packet left; the list goes on behind the packet.
unfoldable pub blksize_from : ℕ → ℕ → List ℕ → ℕ
blksize_from zero left buffer = 0
blksize_from (suc fuel) left buffer =
    let rest : ℕ = elim (strchr buffer 0) [
      | none ↦ 0
      | some i ↦ elim (strchr (drop (i + 1) buffer) 0) [
        | none ↦ 0
        | some j ↦ blksize_from fuel (left - (i + 1 + (j + 1))) (drop (i + 1 + (j + 1)) buffer)
      ]
    ] in
    if left == 0
    then 0
    else if starts_with buffer blksize_name
    then (strtoul (drop 8 buffer) 10).0 % 2 ^ 16
    else rest

-- The bytes of memory from an address on.
unfoldable pub bytes_from : ℕ → Memory → ℕ → List ℕ
bytes_from zero m a = []
bytes_from (suc n) m a = m a ∷ bytes_from n m (a + 1)

-- `get_blksize`: each round skips a byte at least. The strings are read in the packet and in the 1518
-- bytes of a frame's buffer behind it.
unfoldable pub get_blksize : Memory → ℕ → ℕ → ℕ
get_blksize m buffer len =
    blksize_from (len - 10 + 1) (len - 10) (bytes_from (len + 1518) m (buffer + 10))

-- `goto error`.
abbrev pub fail : ℕ → Tftp → ℕ × Tftp
fail errno s = (errno, record s { tftp_errno = errno; tftp_finished = true })

abbrev pub count_bad : Tftp → Tftp
count_bad s = record s {
  tftp_err = record s.tftp_err { bad_tftp_packets = (s.tftp_err.bad_tftp_packets + 1) % 2 ^ 32 };
}

unfoldable pub take_oack : Memory → ℕ → ℕ → Tftp → ℕ × Tftp
take_oack m pkt packetsize s =
    let size = get_blksize m pkt packetsize in
    let sized : Tftp = record s { blocksize = size } in
    if size == 0 || ltb max_blocksize size
    then fail (minus 8) (send (error 8 s.port_number) sized)
    else (0, send (ack 0 s.port_number) sized)

unfoldable pub error_errno : ℕ → ℕ
error_errno code =
    if code == 1
    then minus 3
    else if code == 2
    then minus 4
    else if code == 4
    then minus 5
    else if code == 5
    then minus 6
    else if code == 7
    then minus 7
    else minus 1

-- A block that is expected, from the reset of `bad_tftp_packets` on.
unfoldable pub store_block : Memory → ℕ → Tftp → ℕ × Tftp
store_block m pkt s =
    let ulen = load 2 m (pkt + 4) in
    let n = (ulen + 2 ^ 64 - 12) % 2 ^ 64 in
    let reset : Tftp = record s { tftp_err = record s.tftp_err { bad_tftp_packets = 0 } } in
    let stored : Tftp = record reset {
      buffer = copy_array n s.buffer s.received_len m (pkt + 12);
      sent = s.sent ++ (ack (load 2 m (pkt + 10)) s.port_number ∷ []);
      received_len = (s.received_len + ulen + 2 ^ 32 - 12) % 2 ^ 32;
    } in
    if ltb (s.len + 12) (s.received_len + ulen)
    then fail (minus 2) reset
    else if ltb ulen 12
    then (0, record reset { overrun = true })
    else if ltb ulen (s.blocksize + 12)
    then (0, record stored { tftp_finished = true })
    else if leb 0xffff s.block && not s.huge_load
    then fail (minus 9) stored
    else (0, stored)

-- A DATA packet.
unfoldable pub take_data : Memory → ℕ → Tftp → ℕ × Tftp
take_data m pkt s =
    let number = load 2 m (pkt + 10) in
    let repeated : Tftp = record (send (ack number s.port_number) s) {
      lost_packets = (s.lost_packets + 1) % 2 ^ 32;
    } in
    let missed : Tftp = record s {
      tftp_err = record s.tftp_err { blocks_missed = s.block + 1; blocks_received = number };
    } in
    if s.block + 1 == number || (s.block == 0xffff && s.huge_load && ltb number 2)
    then store_block m pkt (record s { block = number })
    else if number == s.block
    then (0, count_bad repeated)
    else if ltb number s.block
    then (0, count_bad s)
    else fail (minus 42) missed

-- `handle_tftp`: its result and the state.
unfoldable pub handle_tftp : Memory → ℕ → ℕ → Tftp → ℕ × Tftp
handle_tftp m pkt packetsize s =
    let opcode = load 2 m (pkt + 8) in
    let seen : Tftp = record s { port_number = load 2 m pkt } in
    let plain : Tftp = record seen { blocksize = 512 } in
    if not s.receiving
    then (0, s)
    else if opcode == 6
    then take_oack m pkt packetsize seen
    else if opcode == 4
    then (0, send (ack 0 seen.port_number) plain)
    else if opcode % 256 == 5
    then fail (error_errno (load 2 m (pkt + 10) % 256)) seen
    else if opcode == 3
    then take_data m pkt seen
    else (0, count_bad seen)

unfoldable pub handle_tftp_dun : ℕ → Tftp → Tftp
handle_tftp_dun err_code s = record s { tftp_errno = minus (err_code + 10); tftp_finished = true }

-- What a call of `receive_ether` brings: nothing, a packet, or an ICMP error.
pub data Input : Type 0 where
  nothing : Input
  packet : Memory → (pkt packetsize : ℕ) → Input
  unreachable : (err_code : ℕ) → Input

unfoldable pub receive_input : Input → Tftp → Tftp
receive_input nothing s = s
receive_input (packet m pkt packetsize) s = (handle_tftp m pkt packetsize s).1
receive_input (unreachable err_code) s = handle_tftp_dun err_code s

-- A round of the loop: whether the timer ran out, and what is received.
pub record Turn : Type 0 where
  pub timeout : Bool
  pub input : Input

-- What the loop does where the timer ran out.
unfoldable pub help_out : Tftp → Tftp
help_out s =
    let no_packets = s.tftp_err.no_packets in
    let helped : Tftp =
      if ltb 4 no_packets && not (s.port_number == 0xffff) && ltb 1 s.block
      then send (ack s.block s.port_number) s
      else if s.port_number == 0xffff && s.block == 0 && no_packets % 4 == 3
      then send rrq s
      else s in
    record helped { tftp_err = record s.tftp_err { no_packets = (no_packets + 1) % 2 ^ 32 } }

unfoldable pub run_turn : Turn → Tftp → Tftp
run_turn t s = receive_input t.input (if t.timeout then help_out s else s)

-- The loop; `none` means that it goes on behind the last of the turns.
unfoldable pub wait_turns : List Turn → Tftp → Option Tftp
wait_turns [] s = if s.tftp_finished then some s else none
wait_turns (t ∷ turns) s =
    let next = run_turn t s in
    let rest = wait_turns turns next in
    let bad : Tftp = record next { tftp_errno = minus 40 } in
    let silent : Tftp = record next { tftp_errno = minus 41 } in
    if s.tftp_finished
    then some s
    else if ltb next.retries next.tftp_err.bad_tftp_packets
    then some bad
    else if ltb next.retries next.tftp_err.no_packets
    then some silent
    else rest

-- The variables as `tftp` sets them, with the read request sent.
unfoldable pub start_tftp : Memory → ℕ → ℕ → TftpErr → Tftp
start_tftp buffer len retries tftp_err = record {
  receiving = true;
  buffer = buffer;
  block = 0;
  blocksize = 512;
  received_len = 0;
  retries = retries;
  huge_load = true;
  len = len;
  tftp_finished = false;
  lost_packets = 0;
  tftp_errno = 0;
  port_number = 0xffff;
  tftp_err = record tftp_err { bad_tftp_packets = 0; no_packets = 0 };
  sent = rrq ∷ [];
  overrun = false;
}

-- What `tftp` does behind the loop.
unfoldable pub leave_tftp : Tftp → ℕ × Tftp
leave_tftp s =
    let closed : Tftp = record s { receiving = false } in
    (if s.tftp_errno == 0 then s.received_len else s.tftp_errno, closed)

-- The end of `tftp` behind the loop; no result where a copy overran.
unfoldable pub end_tftp : Option Tftp → Option (ℕ × Tftp)
end_tftp none = none
end_tftp (some s) = if s.overrun then none else some (leave_tftp s)

-- `tftp`: its result and the state that it leaves. `none` means that the loop goes on behind the last of
-- the turns, or that a copy overran.
unfoldable pub tftp : Memory → ℕ → ℕ → TftpErr → List Turn → Option (ℕ × Tftp)
tftp buffer len retries tftp_err turns =
    end_tftp (wait_turns turns (start_tftp buffer len retries tftp_err))
