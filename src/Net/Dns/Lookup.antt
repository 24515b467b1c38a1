-- ===== src/Net/Dns/Lookup.antt =====
-- lib/libnet/dns.c: `dns_get_ip` with a server that answers, and with one that is silent.
use slof.Prelude.{ℕ, zero, suc, ◌+◌, ◌≤◌, ◌≡◌, ◌≢◌, ◌==◌, ◌∙◌, ap, arith, refl, sym, inl, inr}
use slof.Prelude.{true, false, ltb, Bool-cases, some, List, [], ◌∷◌, ◌++◌, length, replicate}
use mathlib.Core.List.{append_assoc, append-nil}
use slof.Libc.Compare.{strlen}
use slof.Libc.Memory.{Memory}
use slof.Net.Dns.{Dns}
use slof.Net.Dns.Client.{
  Input, nothing, message, Second, receive_input, stopped, waiting, look, wait_second, send_query,
  ask, start_lookup, dns_get_ip,
}
use slof.Net.Dns.Url.{urltohost, hosttodomain}
use slof.Net.Dns.Names.{encode}
use slof.Net.Dns.Hosts.{join, IsHost, hosttodomain-join}
use slof.Net.Dns.Answers.{
  Record, Content, address, address6, alias, other, is_address, asked, said, resolve, ResponseAt,
  handle_dns-resolve,
}

said-error : (c : Content) (s : Dns) → (said c s).error ≡ s.error
said-error (address ip) s = refl
said-error (address6 ip) s = refl
said-error (alias target) s = refl
said-error other s = refl

resolve-error : (records : List Record) (s : Dns) → (resolve records s).error ≡ s.error
unfolding resolve
resolve-error [] s = refl
resolve-error (r ∷ records) s = elim (Bool-cases (asked (encode r.owner) s)) [
  | inr elsewhere ↦ rw elsewhere (resolve-error records s)
  | inl here ↦ rw here (elim (Bool-cases (is_address r.content)) [
    | inl found ↦ rw found (said-error r.content s)
    | inr more ↦ rw more (resolve-error records (said r.content s) ∙ said-error r.content s)
  ])
]

-- The state in which the first query is sent.
abbrev pub asking : ℕ → List ℕ → Dns → Dns
asking ip_version domain_name s = send_query (start_lookup ip_version domain_name s)

asking-error :
    (ip_version : ℕ) (domain_name : List ℕ) (s : Dns)
    → (asking ip_version domain_name s).error ≡ false
unfolding send_query start_lookup
asking-error ip_version domain_name s = refl

module _ (l : List ℕ) (ls : List (List ℕ)) (url : List ℕ) (s : Dns) (fuel : ℕ)
    (seconds : ℕ → Second) (host : urltohost url ≡ some (join l ls)) (is_host : IsHost (l ∷ ls))
    (short : strlen (join l ls) ≤ 254) (server : s.server_ip ≢ 0) where
  dns_get_ip-ask :
      (ip_version : ℕ)
      → dns_get_ip fuel url ip_version seconds s
        ≡ ask fuel ip_version seconds 30 (start_lookup ip_version (encode (l ∷ ls)) s)
  unfolding dns_get_ip
  dns_get_ip-ask ip_version = rw (dns_get_ip, host, named.0, in_array, present) refl
    where
      named :
          (hosttodomain (join l ls) ≡ some (encode (l ∷ ls)))
          × (length (encode (l ∷ ls)) ≡ strlen (join l ls) + 1)
      named = hosttodomain-join l ls is_host (omega (arith, short))

      in_array : ltb 255 (length (encode (l ∷ ls))) ≡ false
      in_array = ground (arith, named.1, short)

      present : (s.server_ip == 0) ≡ false
      present = ground (arith, server)

look-found : (s : Dns) → s.error ≡ false → s.result_ip ≢ 0 → look 4 s ≡ stopped 1 s
unfolding look
look-found s e h = ground (arith, e, h)

wait_second-answered :
    (fuel : ℕ) (m : Memory) (packet : ℕ) (names : List (List (List ℕ))) (records : List Record)
    (inputs : List Input) (s : Dns)
    → 130 ≤ fuel
    → ResponseAt m packet names records
    → s.error ≡ false
    → (resolve records s).result_ip ≢ 0
    → wait_second fuel 4 (message m packet ∷ inputs) s ≡ some (stopped 1 (resolve records s))
unfolding wait_second receive_input
wait_second-answered fuel m packet names records inputs s enough r e h =
    rw
      (
        wait_second,
        receive_input,
        handle_dns-resolve fuel m packet names records s r enough,
        look-found (resolve records s) (resolve-error records s ∙ e) h,
      )
      refl

-- Where urltohost finds a host name of at most 254 characters, made of labels of at most 63 with
-- dots between them, a DNS server is set, and the first call of receive_ether in the first second
-- brings a response whose lookup, after the query is sent, leaves an IPv4 address other than 0,
-- dns_get_ip for IPv4 returns 1 in the state that the lookup leaves. The fuel is 130 or more.
pub dns_get_ip-resolved :
    (l : List ℕ) (ls : List (List ℕ)) (url : List ℕ) (s : Dns) (fuel : ℕ) (seconds : ℕ → Second)
    (m : Memory) (packet : ℕ) (names : List (List (List ℕ))) (records : List Record)
    → urltohost url ≡ some (join l ls)
    → IsHost (l ∷ ls)
    → strlen (join l ls) ≤ 254
    → s.server_ip ≢ 0
    → 130 ≤ fuel
    → (seconds 29).first ≡ message m packet
    → ResponseAt m packet names records
    → (resolve records (asking 4 (encode (l ∷ ls)) s)).result_ip ≢ 0
    → dns_get_ip fuel url 4 seconds s
      ≡ some (stopped 1 (resolve records (asking 4 (encode (l ∷ ls)) s)))
unfolding ask resolve
dns_get_ip-resolved l ls url s fuel seconds m packet names records host is_host short server enough
      e r h =
    dns_get_ip-ask l ls url s fuel seconds host is_host short server 4
    ∙ rw
        (
          ask,
          e,
          wait_second-answered fuel m packet names records (seconds 29).later
              (asking 4 (encode (l ∷ ls)) s) enough r (asking-error 4 (encode (l ∷ ls)) s) h,
        )
        refl

-- Every second brings nothing.
abbrev pub AllNothing : List Input → Type 0
AllNothing [] = Unit {0}
AllNothing (i ∷ inputs) = (i ≡ nothing) × AllNothing inputs

look-waiting : (s : Dns) → s.error ≡ false → s.result_ip ≡ 0 → look 4 s ≡ waiting s
unfolding look
look-waiting s e z = ground (arith, e, z)

wait_second-silent :
    (fuel : ℕ) (inputs : List Input) (s : Dns)
    → AllNothing inputs
    → s.error ≡ false
    → s.result_ip ≡ 0
    → wait_second fuel 4 inputs s ≡ some (waiting s)
unfolding wait_second receive_input
wait_second-silent fuel [] s h e z = refl
wait_second-silent fuel (i ∷ inputs) s (n, h) e z =
    rw (wait_second, n, receive_input, look-waiting s e z) (wait_second-silent fuel inputs s h e z)

send_query-plain :
    (s : Dns)
    → s.domain_cname ≡ []
    → send_query s ≡ record s { queries = s.queries ++ (s.domain_name ∷ []) }
unfolding send_query strlen
send_query-plain s c =
    let no_alias : (strlen s.domain_cname == 0) ≡ true = ap (λ t. strlen t == 0) c in
    rw no_alias refl

-- A name that is not an alias is asked for again and again.
ask-silent :
    (fuel left : ℕ) (seconds : ℕ → Second) (s : Dns)
    → ((k : ℕ) → AllNothing ((seconds k).first ∷ (seconds k).later))
    → s.error ≡ false
    → s.result_ip ≡ 0
    → s.domain_cname ≡ []
    → ask fuel 4 seconds left s
      ≡ some (stopped 0 (record s { queries = s.queries ++ replicate left s.domain_name }))
unfolding ask
ask-silent fuel zero seconds s h e z c =
    ap (λ q. some (stopped 0 (record s { queries = q }))) (sym (append-nil s.queries))
ask-silent fuel (suc left) seconds s h e z c =
    rw
      (
        ask,
        send_query-plain s c,
        wait_second-silent fuel ((seconds left).first ∷ (seconds left).later) sent (h left) e z,
      )
      (ask-silent fuel left seconds sent h e z c
        ∙ ap (λ q. some (stopped 0 (record s { queries = q })))
            (append_assoc s.queries (s.domain_name ∷ []) (replicate left s.domain_name)))
  where
    sent : Dns
    sent = record s { queries = s.queries ++ (s.domain_name ∷ []) }

-- Where urltohost finds a host name of at most 254 characters, made of labels of at most 63 with
-- dots between them, a DNS server is set, and no message comes, dns_get_ip for IPv4 returns 0,
-- after 30 queries for that name and no other.
pub dns_get_ip-silent :
    (l : List ℕ) (ls : List (List ℕ)) (url : List ℕ) (s : Dns) (fuel : ℕ) (seconds : ℕ → Second)
    → urltohost url ≡ some (join l ls)
    → IsHost (l ∷ ls)
    → strlen (join l ls) ≤ 254
    → s.server_ip ≢ 0
    → ((k : ℕ) → AllNothing ((seconds k).first ∷ (seconds k).later))
    → dns_get_ip fuel url 4 seconds s
      ≡ some (
          stopped 0 (record (start_lookup 4 (encode (l ∷ ls)) s) {
            queries = s.queries ++ replicate 30 (encode (l ∷ ls));
          }))
unfolding start_lookup
dns_get_ip-silent l ls url s fuel seconds host is_host short server h =
    dns_get_ip-ask l ls url s fuel seconds host is_host short server 4
    ∙ ask-silent fuel 30 seconds (start_lookup 4 (encode (l ∷ ls)) s) h refl refl refl
