-- ===== src/Net/Dns/Loops.antt =====
-- lib/libnet/dns.c: references in a name, one behind another.
use slof.Prelude.{ℕ, zero, suc, ◌+◌, ◌^◌, ◌≤◌, ◌<◌, ◌≡◌, ◌∙◌, arith, refl}
use slof.Prelude.{Option, none, some, List, []}
use slof.Libc.Memory.{Memory}
use slof.Nvram.Store.{load}
use slof.Net.Dns.{name, extract_from, extract_name}
use slof.Net.Dns.Names.{encode, NameAt, two_each, extract_from-reference, extract_from-NameAt}

stuck_from :
    (fuel : ℕ) (m : Memory) (dnsh offset : ℕ) (next : Option ℕ) (before : List ℕ)
    → load 2 m (dnsh + offset) ≡ 0xc000 + offset
    → offset < 2 ^ 14
    → m (dnsh + offset + 1) < 256
    → extract_from fuel m dnsh (dnsh + offset) next before ≡ none
unfolding extract_from
stuck_from zero m dnsh offset next before e lt byte = refl
stuck_from (suc fuel) m dnsh offset next before e lt byte =
    extract_from-reference fuel m dnsh (dnsh + offset) next before offset e lt byte
    ∙ stuck_from fuel m dnsh offset (some (dnsh + offset + 2)) before e lt byte

-- Where a name is a reference to itself, dns_extract_name never ends: no fuel gives a result.
pub extract_name-stuck :
    (fuel : ℕ) (m : Memory) (dnsh offset : ℕ)
    → load 2 m (dnsh + offset) ≡ 0xc000 + offset
    → offset < 2 ^ 14
    → m (dnsh + offset + 1) < 256
    → extract_name fuel m dnsh (dnsh + offset) ≡ none
unfolding extract_name
extract_name-stuck fuel m dnsh offset e lt byte = stuck_from fuel m dnsh offset none [] e lt byte

-- Where a name is a reference to a reference to a name of labels of 1 to 63 characters and at most
-- 255 bytes, dns_extract_name, with fuel of 130 or more, reads that name, but the place that it
-- returns is behind the second reference, not behind the first one.
pub extract_name-second_reference :
    (fuel : ℕ) (ls : List (List ℕ)) (m : Memory) (dnsh ptr first second : ℕ)
    → load 2 m ptr ≡ 0xc000 + first
    → first < 2 ^ 14
    → m (ptr + 1) < 256
    → load 2 m (dnsh + first) ≡ 0xc000 + second
    → second < 2 ^ 14
    → m (dnsh + first + 1) < 256
    → NameAt m (dnsh + second) ls
    → 130 ≤ fuel
    → extract_name fuel m dnsh ptr ≡ some (name (dnsh + first + 2) (encode ls))
unfolding extract_name
extract_name-second_reference zero ls m dnsh ptr first second e lt byte e' lt' byte' h enough =
    absurd (omega (arith, enough))
extract_name-second_reference (suc zero) ls m dnsh ptr first second e lt byte e' lt' byte' h
      enough =
    absurd (omega (arith, enough))
extract_name-second_reference (suc (suc fuel)) ls m dnsh ptr first second e lt byte e' lt' byte' h
      enough =
    extract_from-reference (suc fuel) m dnsh ptr none [] first e lt byte
    ∙ extract_from-reference fuel m dnsh (dnsh + first) (some (ptr + 2)) [] second e' lt' byte'
    ∙ extract_from-NameAt ls fuel m dnsh (dnsh + second) (some (dnsh + first + 2)) h
        (omega (arith, enough, two_each ls h.is_labels, h.short))
