-- ===== src/Net/Dns/Query.antt =====
-- lib/libnet/dns.c: what a server reads of the message that `fill_dnshdr` builds.
use slof.Prelude.{
  ℕ, suc, ◌+◌, ◌-◌, ◌^◌, ◌≤◌, ◌<◌, ◌≡◌, ◌≢◌, ◌==◌, ◌∙◌, ap, arith, refl, inl, ltb, leb,
}
use slof.Prelude.{◌&&◌, List, [], ◌∷◌, ◌++◌, length, get_or, if◌then◌else◌}
use slof.Libc.Compare.{strlen}
use slof.Libc.Memory.{Memory, update}
use slof.Nvram.Store.{load, store}
use slof.Net.Dhcp.Options.Layout.{BytesAt}
use slof.Net.Ipv4.Accept.{store-outside, load-same}
use slof.Net.Dns.Client.{put_string, fill_dnshdr}
use slof.Net.Dns.Names.{encode, IsLabels, LabelsAt, NameAt}

abbrev pub NoZero : List ℕ → Type 0
NoZero [] = Unit {0}
NoZero (c ∷ s) = (c ≢ 0) × NoZero s

put_string-byte :
    (m : Memory) (a : ℕ) (s : List ℕ) (j : ℕ)
    → NoZero s
    → put_string m a s j ≡ (
        if leb a j && ltb j (a + length s)
        then get_or s (j - a) 0
        else if j == a + length s
        then 0
        else m j)
unfolding put_string
put_string-byte m a [] j h = ground arith
put_string-byte m a (c ∷ s) j (nz, h) =
    ground (arith, nz, put_string-byte (update m a c) (a + 1) s j h, start, shift)
  where
    start : j ≡ a → get_or (c ∷ s) (j - a) 0 ≡ c
    start e = let index_eq : j - a ≡ 0 = omega (arith, e) in ap (λ i. get_or (c ∷ s) i 0) index_eq

    shift : a < j → get_or (c ∷ s) (j - a) 0 ≡ get_or s (j - (a + 1)) 0
    shift lt =
        let index_eq : j - a ≡ suc (j - (a + 1)) = omega (arith, lt) in
        ap (λ i. get_or (c ∷ s) i 0) index_eq

BytesAt-get_or :
    (m : Memory) (a : ℕ) (bytes : List ℕ)
    → ((i : ℕ) → i < length bytes → m (a + i) ≡ get_or bytes i 0)
    → BytesAt m a bytes
BytesAt-get_or m a [] h = tt
BytesAt-get_or m a (b ∷ bytes) h = (
  ap m (omega arith) ∙ h 0 (omega arith),
  BytesAt-get_or m (a + 1) bytes (λ i lt. ap m (omega arith) ∙ h (suc i) (omega (arith, lt))),
)

BytesAt-split :
    (m : Memory) (a : ℕ) (xs ys : List ℕ)
    → BytesAt m a (xs ++ ys)
    → BytesAt m a xs × BytesAt m (a + length xs) ys
BytesAt-split m a [] ys h = (tt, let p : a ≡ a + 0 = omega arith in rw p at h)
BytesAt-split m a (x ∷ xs) ys (e, h) =
    let (b, rest) = BytesAt-split m (a + 1) xs ys h in
    let p : a + 1 + length xs ≡ a + suc (length xs) = omega arith in ((e, b), rw p at rest)

LabelsAt-encode :
    (m : Memory) (a : ℕ) (ls : List (List ℕ)) → BytesAt m a (encode ls) → LabelsAt m a ls
unfolding encode
LabelsAt-encode m a [] h = tt
LabelsAt-encode m a (l ∷ ls) (e, h) =
    let (b, rest) = BytesAt-split m (a + 1) l (encode ls) h in
    let p : a + 1 + length l ≡ a + (length l + 1) = omega arith in
    (e, b, LabelsAt-encode m (a + (length l + 1)) ls (rw p at rest))

strlen-NoZero : (s : List ℕ) → NoZero s → strlen s ≡ length s
unfolding strlen
strlen-NoZero [] h = refl
strlen-NoZero (c ∷ s) (nz, h) = ground (arith, nz, strlen-NoZero s h)

-- The bytes that a server reads of a query.
pub record QueryAt (m : Memory) (packet qtype : ℕ) (ls : List (List ℕ)) : Type 0 where
  pub id : load 2 m packet ≡ 0x1234
  pub flags : load 2 m (packet + 2) ≡ 0x100
  pub qdcount : load 2 m (packet + 4) ≡ 1
  pub qname : NameAt m (packet + 12) ls
  pub qtype_eq : load 2 m (packet + 12 + (length (encode ls) + 1)) ≡ qtype
  pub qclass : load 2 m (packet + 12 + (length (encode ls) + 1) + 2) ≡ 1

load-store : (m : Memory) (a v : ℕ) → v < 2 ^ 16 → load 2 (store 2 m a v) a ≡ v
unfolding load store
load-store m a v h = ground (arith, h)

module _ (m : Memory) (packet ip_version : ℕ) (ls : List (List ℕ)) (is_labels : IsLabels ls)
    (no_zero : NoZero (encode ls)) (short : length (encode ls) ≤ 255) where
  abbrev header : Memory
  header = store 2 (store 2 (store 2 m packet 0x1234) (packet + 2) 0x100) (packet + 4) 1

  abbrev behind_name : ℕ
  behind_name = packet + 12 + (length (encode ls) + 1)

  abbrev kind : ℕ
  kind = if ip_version == 4 then 1 else 0x1c

  abbrev question : Memory
  question = put_string header (packet + 12) (encode ls)

  abbrev filled : Memory
  filled = store 2 (store 2 question behind_name kind) (behind_name + 2) 1

  fill_dnshdr-eq : fill_dnshdr m packet (encode ls) ip_version ≡ filled
  unfolding fill_dnshdr
  fill_dnshdr-eq = rw (strlen-NoZero (encode ls) no_zero) refl

  filled-before : (j : ℕ) → j < behind_name → filled j ≡ question j
  filled-before j h =
      store-outside 2 (store 2 question behind_name kind) (behind_name + 2) 1 j
        (inl (omega (arith, h)))
      ∙ store-outside 2 question behind_name kind j (inl h)

  filled-header : (j : ℕ) → j < packet + 12 → filled j ≡ header j
  filled-header j h =
      filled-before j (omega (arith, h))
      ∙ put_string-byte header (packet + 12) (encode ls) j no_zero
      ∙ ground (arith, h)

  filled-name : (i : ℕ) → i < length (encode ls) → filled (packet + 12 + i) ≡ get_or (encode ls) i 0
  filled-name i h =
      filled-before (packet + 12 + i) (omega (arith, h))
      ∙ put_string-byte header (packet + 12) (encode ls) (packet + 12 + i) no_zero
      ∙ ground (arith, h, back)
    where
      back : get_or (encode ls) (packet + 12 + i - (packet + 12)) 0 ≡ get_or (encode ls) i 0
      back =
          let index_eq : packet + 12 + i - (packet + 12) ≡ i = omega arith in
          ap (λ k. get_or (encode ls) k 0) index_eq

  filled-end : filled (packet + 12 + length (encode ls)) ≡ 0
  filled-end =
      filled-before (packet + 12 + length (encode ls)) (omega arith)
      ∙ put_string-byte header (packet + 12) (encode ls) (packet + 12 + length (encode ls)) no_zero
      ∙ ground arith

  load-filled : (a : ℕ) → a + 2 ≤ packet + 12 → load 2 filled a ≡ load 2 header a
  load-filled a h = load-same 2 header filled a (λ j l k. filled-header j (omega (arith, h, k)))

  header_fields :
      (load 2 header packet ≡ 0x1234)
      × (load 2 header (packet + 2) ≡ 0x100)
      × (load 2 header (packet + 4) ≡ 1)
  unfolding load store
  header_fields = (ground arith, ground arith, ground arith)

  kind_lt : kind < 2 ^ 16
  kind_lt = ground arith

  -- Of the message that fill_dnshdr builds in any memory for a name of labels of 1 to 63
  -- characters, none of them 0, of at most 255 bytes, a server reads the number 0x1234, a query
  -- with recursion desired, one question, that name, the type A for IPv4 and AAAA otherwise, and
  -- the class IN.
  pub fill_dnshdr-QueryAt : QueryAt (fill_dnshdr m packet (encode ls) ip_version) packet kind ls
  fill_dnshdr-QueryAt = rw (fill_dnshdr-eq) (record {
    id = load-filled packet (omega arith) ∙ header_fields.0;
    flags = load-filled (packet + 2) (omega arith) ∙ header_fields.1;
    qdcount = load-filled (packet + 4) (omega arith) ∙ header_fields.2;
    qname = record {
      is_labels = is_labels;
      at =
          LabelsAt-encode filled (packet + 12) ls
            (BytesAt-get_or filled (packet + 12) (encode ls) filled-name);
      terminated = filled-end;
      short = short;
    };
    qtype_eq =
        load-same 2 (store 2 question behind_name kind) filled behind_name (λ j l k.
          store-outside 2 (store 2 question behind_name kind) (behind_name + 2) 1 j
            (inl (omega (arith, k))))
        ∙ load-store question behind_name kind kind_lt;
    qclass = load-store (store 2 question behind_name kind) (behind_name + 2) 1 (omega arith);
  })
