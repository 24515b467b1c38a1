-- ===== src/Net/Dns/Client.antt =====
-- lib/libnet/dns.c: the query, and the lookup of an address.
use slof.Prelude.{ℕ, zero, suc, ◌+◌, ◌==◌, ltb, false, not, ◌&&◌}
use slof.Prelude.{Option, none, some, List, [], ◌∷◌, ◌++◌, get_or, length, replicate, if◌then◌else◌}
use slof.Libc.Compare.{strlen}
use slof.Libc.Memory.{Memory, update}
use slof.Nvram.Store.{store}
use slof.Net.Dns.{Dns, Handled, returned, failed_copy, handle_dns}
use slof.Net.Dns.Url.{urltohost, hosttodomain}

-- `strcpy` of a string to an address.
unfoldable pub put_string : Memory → ℕ → List ℕ → Memory
put_string m a [] = update m a 0
put_string m a (c ∷ s) =
    let rest = put_string (update m a c) (a + 1) s in if c == 0 then update m a 0 else rest

-- `fill_dnshdr`
unfoldable pub fill_dnshdr : Memory → ℕ → List ℕ → ℕ → Memory
fill_dnshdr m packet domain_name ip_version =
    let id = store 2 m packet 0x1234 in
    let flags = store 2 id (packet + 2) 0x100 in
    let qdcount = store 2 flags (packet + 4) 1 in
    let question = put_string qdcount (packet + 12) domain_name in
    let qtype = packet + 12 + (strlen domain_name + 1) in
    store 2 (store 2 question qtype (if ip_version == 4 then 1 else 0x1c)) (qtype + 2) 1

-- What a call of `receive_ether` brings: nothing, or a message for `handle_dns`.
pub data Input : Type 0 where
  nothing : Input
  message : Memory → (packet : ℕ) → Input

-- The inputs until the timer runs out.
pub record Second : Type 0 where
  pub first : Input
  pub later : List Input

unfoldable pub receive_input : ℕ → Input → Dns → Option Handled
receive_input fuel nothing s = some (returned 0 s)
receive_input fuel (message m packet) s = handle_dns fuel m packet s

-- What an input leads to: `dns_get_ip` returns, a name overruns its array, or the loop goes on.
pub data Looked : Type 0 where
  stopped : (rc : ℕ) → Dns → Looked
  crashed : Looked
  waiting : Dns → Looked

unfoldable pub look : ℕ → Dns → Looked
look ip_version s =
    if s.error
    then stopped 0 s
    else if not (s.result_ip == 0) && ip_version == 4
    then stopped 1 s
    else if not (get_or s.result_ipv6 0 0 == 0) && ip_version == 6
    then stopped 1 s
    else waiting s

-- The loop until the timer runs out.
unfoldable pub wait_second : ℕ → ℕ → List Input → Dns → Option Looked
wait_second fuel ip_version [] s = some (waiting s)
wait_second fuel ip_version (i ∷ inputs) s = elim (receive_input fuel i s) [
  | none ↦ none
  | some failed_copy ↦ some crashed
  | some (returned rc s') ↦ elim (look ip_version s') [
    | stopped rc' s'' ↦ some (stopped rc' s'')
    | crashed ↦ some crashed
    | waiting s'' ↦ wait_second fuel ip_version inputs s''
  ]
]

-- `dns_send_query` of the canonical name where there is one; only the name is kept.
unfoldable pub send_query : Dns → Dns
send_query s =
    let name = if strlen s.domain_cname == 0 then s.domain_name else s.domain_cname in
    record s { queries = s.queries ++ (name ∷ []) }

-- The loop over the requests, `left` of which may still be sent.
unfoldable pub ask : ℕ → ℕ → (ℕ → Second) → ℕ → Dns → Option Looked
ask fuel ip_version seconds zero s = some (stopped 0 s)
ask fuel ip_version seconds (suc left) s =
    let second = seconds left in
    elim (wait_second fuel ip_version (second.first ∷ second.later) (send_query s)) [
      | none ↦ none
      | some (stopped rc s') ↦ some (stopped rc s')
      | some crashed ↦ some crashed
      | some (waiting s') ↦ ask fuel ip_version seconds left s'
    ]

-- The variables as `dns_get_ip` sets them for a domain name.
unfoldable pub start_lookup : ℕ → List ℕ → Dns → Dns
start_lookup ip_version domain_name s =
    let cleared : Dns =
      if ip_version == 6
      then record s { result_ipv6 = replicate 16 0 }
      else record s { result_ip = 0 } in
    record cleared { domain_name = domain_name; domain_cname = []; error = false }

-- `dns_get_ip`: its result, where the name fits in `dns_domain_name[0x100]`; the address is in the variables, from where it is copied. The seconds are
-- numbered down to 0.
unfoldable pub dns_get_ip : ℕ → List ℕ → ℕ → (ℕ → Second) → Dns → Option Looked
dns_get_ip fuel url ip_version seconds s = elim (urltohost url) [
  | none ↦ some (stopped 0 s)
  | some host_name ↦ elim (hosttodomain host_name) [
    | none ↦ some (stopped 0 (record s { domain_name = [] }))
    | some domain_name ↦
        if ltb 255 (length domain_name)
        then some crashed
        else if s.server_ip == 0
        then some (stopped 0 (record s { domain_name = domain_name }))
        else ask fuel ip_version seconds 30 (start_lookup ip_version domain_name s)
  ]
]
