-- ===== src/Net/Dns.antt =====
-- lib/libnet/dns.c: names in DNS messages, the answers of a server, and the lookup of an address.
-- A message lies in memory; a name is the list of its bytes, as they stand in a message without
-- compression and less the terminator. `Option` is for the fuel of `dns_extract_name`.
pub mod Url
pub mod Client
pub mod Names
pub mod Answers
pub mod Loops
pub mod Hosts
pub mod Lookup
pub mod Query
mod Examples
use slof.Prelude.{
  ℕ, zero, suc, ◌+◌, ◌-◌, ◌*◌, ◌/◌, ◌%◌, ◌^◌, ◌==◌, ltb, leb, Bool, true, false, not, ◌&&◌, ◌||◌,
}
use slof.Prelude.{Option, none, some, List, [], ◌∷◌, ◌++◌, length, get_or, replicate, if◌then◌else◌}
use slof.Prelude.Int.{is_zero}
use slof.Libc.Compare.{strlen, strcmp, prefix}
use slof.Libc.Memory.{Memory, update}
use slof.Libc.Search.{strstr, drop}
use slof.Nvram.Store.{load, store}
use slof.Net.Tftp.{bytes_from}

-- What `dns_extract_name` does: it returns a pointer and the name, or NULL, or it calls `memcpy` with a
-- negative number of bytes, as the length of a label is signed.
pub data Extracted : Type 0 where
  name : (next_section : ℕ) (domain_name : List ℕ) → Extracted
  too_long : Extracted
  overrun : Extracted

-- The loop of `dns_extract_name`; the name so far stands before `tail`.
unfoldable pub extract_from : ℕ → Memory → ℕ → ℕ → Option ℕ → List ℕ → Option Extracted
extract_from zero m dnsh ptr next_section before = none
extract_from (suc fuel) m dnsh ptr next_section before =
    let c = m ptr in
    let compressed = leb 0xc0 c in
    let ptr' = if compressed then dnsh + load 2 m ptr % 2 ^ 14 else ptr + (c + 1) in
    let next' = if compressed then some (ptr + 2) else next_section in
    let before' = if compressed then before else before ++ bytes_from (c + 1) m ptr in
    let rest = extract_from fuel m dnsh ptr' next' before' in
    let end = elim next_section as (λ _. ℕ) [ none ↦ ptr + 1 | some next ↦ next ] in
    if compressed
    then rest
    else if c == 0
    then some (name end before)
    else if leb 0x80 c
    then some overrun
    else if ltb 255 (length before + c + 1)
    then some too_long
    else rest

unfoldable pub extract_name : ℕ → Memory → ℕ → ℕ → Option Extracted
extract_name fuel m dnsh head = extract_from fuel m dnsh head none []

-- The static variables, the IPv6 addresses as lists of bytes, and the names that were asked for.
pub record Dns : Type 0 where
  pub server_ip : ℕ
  pub result_ip : ℕ
  pub result_ipv6 : List ℕ
  pub error : Bool
  pub domain_name : List ℕ
  pub domain_cname : List ℕ
  pub queries : List (List ℕ)

-- What `handle_dns` does: its result and the variables, or the overrun of a name.
pub data Handled : Type 0 where
  returned : (rc : ℕ) → Dns → Handled
  failed_copy : Handled

-- The 32-bit pattern of -1.
abbrev pub minus_one : ℕ
minus_one = 2 ^ 32 - 1

-- The loop over the question section: where the answers start, or how it fails.
unfoldable pub pass_questions : ℕ → Memory → ℕ → ℕ → ℕ → Option Extracted
pass_questions fuel m dnsh zero resp_section = some (name resp_section [])
pass_questions fuel m dnsh (suc n) resp_section = elim (extract_name fuel m dnsh resp_section) [
  | none ↦ none
  | some (name next domain_name) ↦ pass_questions fuel m dnsh n (next + 4)
  | some too_long ↦ some too_long
  | some overrun ↦ some overrun
]

-- What is done with a record of the answer section, once its name is read.
pub data Answered : Type 0 where
  handled : Handled → Answered
  go_on : (resp_section : ℕ) → Dns → Answered

-- A record of the class IN whose name is the one that was asked for.
unfoldable pub take_record : ℕ → Memory → ℕ → ℕ → Dns → Option Answered
take_record fuel m dnsh resp_section s =
    let qtype = load 2 m resp_section in
    let next = resp_section + (load 2 m (resp_section + 8) + 10) in
    let ip : Dns = record s { result_ip = load 4 m (resp_section + 10) } in
    let ipv6 : Dns = record s { result_ipv6 = bytes_from 16 m (resp_section + 10) } in
    let cname : Option Answered = elim (extract_name fuel m dnsh (resp_section + 10)) [
      | none ↦ none
      | some (name next' domain_name) ↦ some (go_on next (record s { domain_cname = domain_name }))
      | some too_long ↦ some (handled (returned minus_one (record s { domain_cname = [] })))
      | some overrun ↦ some (handled failed_copy)
    ] in
    if qtype == 1
    then some (handled (returned 0 ip))
    else if qtype == 5
    then cname
    else if qtype == 0x1c
    then some (handled (returned 0 ipv6))
    else some (go_on next s)

unfoldable pub answer : ℕ → Memory → ℕ → ℕ → List ℕ → Dns → Option Answered
answer fuel m dnsh resp_section domain_name s =
    let next = resp_section + (load 2 m (resp_section + 8) + 10) in
    let asked =
      is_zero (strcmp domain_name s.domain_name) || is_zero (strcmp domain_name s.domain_cname) in
    if not (load 2 m (resp_section + 2) == 1)
    then some (go_on resp_section s)
    else if asked
    then take_record fuel m dnsh resp_section s
    else some (go_on next s)

-- The loop over the answer section.
unfoldable pub take_answers : ℕ → Memory → ℕ → ℕ → ℕ → Dns → Option Handled
take_answers fuel m dnsh zero resp_section s = some (returned 0 s)
take_answers fuel m dnsh (suc n) resp_section s = elim (extract_name fuel m dnsh resp_section) [
  | none ↦ none
  | some too_long ↦ some (returned minus_one s)
  | some overrun ↦ some failed_copy
  | some (name next domain_name) ↦ elim (answer fuel m dnsh next domain_name s) [
    | none ↦ none
    | some (handled h) ↦ some h
    | some (go_on resp_section' s') ↦ take_answers fuel m dnsh n resp_section' s'
  ]
]

-- `handle_dns` behind its tests of the header.
unfoldable pub take_response : ℕ → Memory → ℕ → Dns → Option Handled
take_response fuel m packet s =
    elim (pass_questions fuel m packet (load 2 m (packet + 4)) (packet + 12)) [
      | none ↦ none
      | some too_long ↦ some (returned minus_one s)
      | some overrun ↦ some failed_copy
      | some (name resp_section domain_name) ↦
          take_answers fuel m packet (load 2 m (packet + 6)) resp_section s
    ]

-- `handle_dns`, which does not read the length of the packet.
unfoldable pub handle_dns : ℕ → Memory → ℕ → Dns → Option Handled
handle_dns fuel m packet s =
    let flags = load 2 m (packet + 2) in
    if not (load 2 m packet == 0x1234)
    then some (returned 0 s)
    else if not (flags / 2 ^ 11 == 16)
    then some (returned 0 s)
    else if not (flags % 16 == 0)
    then some (returned 0 (record s { error = true }))
    else take_response fuel m packet s
