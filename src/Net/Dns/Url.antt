-- ===== src/Net/Dns/Url.antt =====
-- lib/libnet/dns.c: the host name of a URL, and its labels.
use slof.Prelude.{ℕ, ◌+◌, ◌%◌, ◌^◌, ◌==◌, ltb, leb, not, ◌||◌}
use slof.Prelude.{Option, none, some, List, [], ◌∷◌, ◌++◌, length, if◌then◌else◌}
use slof.Libc.Compare.{strlen, prefix}
use slof.Libc.Search.{strstr, drop}

-- `strstr` of a text in a URL, and of the text in front of it.
abbrev pub find : List ℕ → List ℕ → Option ℕ
find url text = strstr (some url) (some text)

-- The URL behind the first place of a text, where it has one.
abbrev pub behind : List ℕ → List ℕ → List ℕ
behind url text = elim (find url text) [ none ↦ url | some i ↦ drop (i + length text) url ]

-- The number of characters up to a text, in 16 bits.
abbrev pub length_up_to : List ℕ → List ℕ → ℕ
length_up_to url text = elim (find url text) as (λ _. ℕ) [ none ↦ strlen url | some i ↦ i ] % 2 ^ 16

-- `urltohost`: the host name, or 0.
unfoldable pub urltohost : List ℕ → Option (List ℕ)
urltohost url =
    let plain = elim (find url (b':' ∷ b'/' ∷ b'/' ∷ [])) as (λ _. List ℕ) [
      | none ↦ url
      | some i ↦ behind url (b'/' ∷ b'/' ∷ [])
    ] in
    let host = behind plain (b'@' ∷ []) in
    let length1 = length_up_to host (b'/' ∷ []) in
    let length2 = length_up_to host (b':' ∷ []) in
    let n = if ltb length2 length1 then length2 else length1 in
    if n == 0 then none else if leb 256 n then none else some (prefix n host)

-- The loop of `hosttodomain`: `label` has the characters from `host_name` to `host_iter`. The length
-- of a label is stored as a `char`.
unfoldable pub labels_from : List ℕ → List ℕ → Option (List ℕ)
labels_from label [] = let n = length label % 256 in if ltb 63 n then none else some (n ∷ label)
labels_from label (c ∷ host) =
    let n = length label % 256 in
    let is_end = c == b'.' || c == 0 in
    let rest = labels_from (if is_end then [] else label ++ (c ∷ [])) host in
    let behind_dot = elim rest as (λ _. Option (List ℕ)) [
      | none ↦ none
      | some domain ↦ some ((n ∷ label) ++ domain)
    ] in
    if not is_end
    then rest
    else if ltb 63 n
    then none
    else if c == 0
    then some (n ∷ label)
    else behind_dot

-- `hosttodomain`: the domain name less its terminator, or 0 and an empty one.
unfoldable pub hosttodomain : List ℕ → Option (List ℕ)
hosttodomain host_name = if ltb 255 (strlen host_name) then none else labels_from [] host_name
