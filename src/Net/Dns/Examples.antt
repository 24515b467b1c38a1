-- ===== src/Net/Dns/Examples.antt =====
-- lib/libnet/dns.c: the lookup of `a.b`, which stands for `c`, whose address is 10.0.0.2.
use slof.Prelude.{ℕ, ◌+◌, ◌≤◌, ◌≡◌, ◌≢◌, arith, refl}
use slof.Prelude.{false, none, some, List, [], ◌∷◌, ◌++◌, length, get_or, replicate}
use slof.Libc.Compare.{strlen, strcmp, strncmp, strncmp_loop, prefix}
use slof.Libc.Search.{strstr, strstr_from}
use slof.Libc.Memory.{Memory}
use slof.Nvram.Store.{load}
use slof.Net.Dns.{name, extract_name, Dns, returned, handle_dns}
use slof.Net.Dns.Client.{
  nothing, message, Second, stopped, send_query, start_lookup, dns_get_ip, fill_dnshdr,
}
use slof.Net.Dns.Url.{urltohost, hosttodomain}
use slof.Net.Dns.Names.{encode, NameAt}
use slof.Net.Dns.Hosts.{join, IsHost, hosttodomain-join}
use slof.Net.Dns.Answers.{
  in_place, reference, no_more, question, address, alias, Record, resolve, no_record, record_at,
  ResponseAt, handle_dns-resolve,
}
use slof.Net.Dns.Loops.{extract_name-stuck, extract_name-second_reference}
use slof.Net.Dns.Query.{NoZero, QueryAt, fill_dnshdr-QueryAt}
use slof.Net.Dns.Lookup.{asking, dns_get_ip-resolved, dns_get_ip-silent}

abbrev in_memory : List ℕ → Memory
in_memory bytes i = get_or bytes i 0

abbrev response : Memory
response = in_memory (
    0x12 ∷ 0x34 ∷ 0x81 ∷ 0x80 ∷ 0 ∷ 1 ∷ 0 ∷ 2 ∷ 0 ∷ 0 ∷ 0 ∷ 0 ∷ 1 ∷ b'a' ∷ 1 ∷ b'b' ∷ 0 ∷ 0 ∷ 1 ∷ 0
    ∷ 1 ∷ 0xc0 ∷ 12 ∷ 0 ∷ 5 ∷ 0 ∷ 1 ∷ 0 ∷ 0 ∷ 0 ∷ 9 ∷ 0 ∷ 3 ∷ 1 ∷ b'c' ∷ 0 ∷ 0xc0 ∷ 33 ∷ 0 ∷ 1 ∷ 0
    ∷ 1 ∷ 0 ∷ 0 ∷ 0 ∷ 9 ∷ 0 ∷ 4 ∷ 10 ∷ 0 ∷ 0 ∷ 2 ∷ [])

abbrev ab : List (List ℕ)
ab = (b'a' ∷ []) ∷ (b'b' ∷ []) ∷ []

abbrev c : List (List ℕ)
c = (b'c' ∷ []) ∷ []

ab-NameAt : NameAt response 12 ab
unfolding encode
ab-NameAt = record {
  is_labels = (omega arith, omega arith, (omega arith, omega arith, tt));
  at = (refl, (refl, tt), (refl, (refl, tt), tt));
  terminated = refl;
  short = omega arith;
}

c-NameAt : NameAt response 33 c
unfolding encode
c-NameAt = record {
  is_labels = (omega arith, omega arith, tt);
  at = (refl, (refl, tt), tt);
  terminated = refl;
  short = omega arith;
}

abbrev records : List Record
records =
    record { owner = ab; content = alias c }
    ∷ record { owner = c; content = address 0x0a000002 }
    ∷ []

response-ResponseAt : ResponseAt response 0 (ab ∷ []) records
unfolding load encode
response-ResponseAt = record {
  id = refl;
  is_response = refl;
  no_error = refl;
  qdcount = refl;
  ancount = refl;
  answers = 21;
  questions_at = question 12 17 21 ab [] (in_place ab-NameAt) (no_more 21);
  records_at =
      record_at 21 23 _ _ (reference 12 refl (omega arith) (omega arith) ab-NameAt) refl
        (refl, (36, in_place c-NameAt))
        (record_at 36 38 _ [] (reference 33 refl (omega arith) (omega arith) c-NameAt) refl
          (refl, refl) (no_record 52));
}

abbrev at_start : Dns
at_start = record {
  server_ip = 0x0a000001;
  result_ip = 0;
  result_ipv6 = replicate 16 0;
  error = false;
  domain_name = [];
  domain_cname = [];
  queries = [];
}

abbrev asked_ab : Dns
asked_ab = record at_start { domain_name = 1 ∷ b'a' ∷ 1 ∷ b'b' ∷ [] }

handle_dns-resolve_example :
    handle_dns 130 response 0 asked_ab ≡ some (returned 0 (resolve records asked_ab))
handle_dns-resolve_example =
    handle_dns-resolve 130 response 0 (ab ∷ []) records asked_ab response-ResponseAt (omega arith)

abbrev url : List ℕ
url = b'a' ∷ b'.' ∷ b'b' ∷ []

url-host : urltohost url ≡ some (join (b'a' ∷ []) ((b'b' ∷ []) ∷ []))
unfolding urltohost join strstr strstr_from strncmp strncmp_loop strlen prefix
url-host = refl

url-IsHost : IsHost ab
url-IsHost = (
  (λ h. absurd (omega (arith, h)), λ h. absurd (omega (arith, h)), tt),
  omega arith,
  ((λ h. absurd (omega (arith, h)), λ h. absurd (omega (arith, h)), tt), omega arith, tt),
)

url-short : strlen (join (b'a' ∷ []) ((b'b' ∷ []) ∷ [])) ≤ 255
unfolding strlen join
url-short = omega arith

url-fits : strlen (join (b'a' ∷ []) ((b'b' ∷ []) ∷ [])) ≤ 254
unfolding strlen join
url-fits = omega arith

hosttodomain-join_example :
    (hosttodomain (join (b'a' ∷ []) ((b'b' ∷ []) ∷ [])) ≡ some (encode ab))
    × (length (encode ab) ≡ strlen (join (b'a' ∷ []) ((b'b' ∷ []) ∷ [])) + 1)
hosttodomain-join_example = hosttodomain-join (b'a' ∷ []) ((b'b' ∷ []) ∷ []) url-IsHost url-short

abbrev answered : ℕ → Second
answered k = record { first = message response 0; later = [] }

found : (resolve records (asking 4 (encode ab) at_start)).result_ip ≢ 0
unfolding resolve send_query start_lookup encode strcmp strlen
found h = absurd (omega (arith, h))

dns_get_ip-resolved_example :
    dns_get_ip 130 url 4 answered at_start
    ≡ some (stopped 1 (resolve records (asking 4 (encode ab) at_start)))
dns_get_ip-resolved_example =
    dns_get_ip-resolved (b'a' ∷ []) ((b'b' ∷ []) ∷ []) url at_start 130 answered response 0
      (ab ∷ []) records url-host url-IsHost url-fits (λ h. absurd (omega (arith, h))) (omega arith)
      refl response-ResponseAt found

abbrev silence : ℕ → Second
silence k = record { first = nothing; later = nothing ∷ [] }

dns_get_ip-silent_example :
    dns_get_ip 130 url 4 silence at_start
    ≡ some (
        stopped 0 (record (start_lookup 4 (encode ab) at_start) {
          queries = at_start.queries ++ replicate 30 (encode ab);
        }))
dns_get_ip-silent_example =
    dns_get_ip-silent (b'a' ∷ []) ((b'b' ∷ []) ∷ []) url at_start 130 silence url-host url-IsHost
      url-fits (λ h. absurd (omega (arith, h))) (λ k. (refl, (refl, tt)))

-- References at 4, which is to itself, at 6 to 8, and at 8 to the name at 10.
abbrev references : Memory
references = in_memory (0 ∷ 0 ∷ 0 ∷ 0 ∷ 0xc0 ∷ 4 ∷ 0xc0 ∷ 8 ∷ 0xc0 ∷ 10 ∷ 1 ∷ b'c' ∷ 0 ∷ [])

self : load 2 references (0 + 4) ≡ 0xc000 + 4
unfolding load
self = refl

extract_name-stuck_example : extract_name 1000 references 0 (0 + 4) ≡ none
extract_name-stuck_example = extract_name-stuck 1000 references 0 4 self (omega arith) (omega arith)

to_reference : load 2 references 6 ≡ 0xc000 + 8
unfolding load
to_reference = refl

to_name : load 2 references (0 + 8) ≡ 0xc000 + 10
unfolding load
to_name = refl

behind-NameAt : NameAt references (0 + 10) c
unfolding encode
behind-NameAt = record {
  is_labels = (omega arith, omega arith, tt);
  at = (refl, (refl, tt), tt);
  terminated = refl;
  short = omega arith;
}

extract_name-second_reference_example :
    extract_name 130 references 0 6 ≡ some (name (0 + 8 + 2) (encode c))
extract_name-second_reference_example =
    extract_name-second_reference 130 c references 0 6 8 10 to_reference (omega arith) (omega arith)
      to_name (omega arith) (omega arith) behind-NameAt (omega arith)

ab-NoZero : NoZero (encode ab)
unfolding encode
ab-NoZero = (
  λ h. absurd (omega (arith, h)),
  (
    λ h. absurd (omega (arith, h)),
    (λ h. absurd (omega (arith, h)), (λ h. absurd (omega (arith, h)), tt)),
  ),
)

fill_dnshdr-QueryAt_example : QueryAt (fill_dnshdr response 100 (encode ab) 4) 100 1 ab
fill_dnshdr-QueryAt_example =
    fill_dnshdr-QueryAt response 100 4 ab ab-NameAt.is_labels ab-NoZero ab-NameAt.short
