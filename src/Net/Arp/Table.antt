-- ===== src/Net/Arp/Table.antt =====
-- lib/libnet/ipv4.c: the search of the ring of ARP entries.
use slof.Prelude.{ℕ, zero, suc, ◌<◌, ◌≡◌, ◌≢◌, ◌==◌, ◌∙◌, ap, arith, refl, inl, inr, Bool-cases}
use slof.Prelude.{true, false, Option, none, some, List}
use slof.Net.Arp.{Arp, next_index, lookup_from, lookup_mac_addr, arp_send_request, request_mac}

-- The indices are those of entries.
pub record IsRing (s : Arp) : Type 0 where
  pub consumer : s.consumer < 10
  pub producer : s.producer < 10

-- More fuel gives the same result.
pub lookup_from-more :
    (fuel : ℕ) (s : Arp) (i ip : ℕ) (r : Option ℕ)
    → lookup_from fuel s i ip ≡ some r
    → lookup_from (suc fuel) s i ip ≡ some r
unfolding lookup_from
lookup_from-more zero s i ip r e = absurd (cc (e))
lookup_from-more (suc fuel) s i ip r e = elim (Bool-cases (i == s.producer)) [
  | inl f ↦ rw f (rw f at e)
  | inr f ↦ rw f (elim (Bool-cases ((s.table i).ipv4_addr == ip)) [
    | inl g ↦ rw g (rw (f, g) at e)
    | inr g ↦ rw g (lookup_from-more fuel s (next_index i) ip r (rw (f, g) at e))
  ])
]

-- Where the addresses and the producer are the same, so is the result.
pub lookup_from-same :
    (fuel : ℕ) (s s' : Arp) (i ip : ℕ)
    → s'.producer ≡ s.producer
    → ((j : ℕ) → (s'.table j).ipv4_addr ≡ (s.table j).ipv4_addr)
    → lookup_from fuel s' i ip ≡ lookup_from fuel s i ip
unfolding lookup_from
lookup_from-same zero s s' i ip p h = refl
lookup_from-same (suc fuel) s s' i ip p h =
    let at_end : (i == s'.producer) ≡ (i == s.producer) = ap (λ t. i == t) p in
    let found : ((s'.table i).ipv4_addr == ip) ≡ ((s.table i).ipv4_addr == ip) =
      ap (λ t. t == ip) (h i) in
    rw (at_end, found, lookup_from-same fuel s s' (next_index i) ip p h) refl

-- A new entry behind those in use, of an address that none of them has, is found.
pub lookup_from-new :
    (fuel : ℕ) (s s' : Arp) (j ip : ℕ)
    → s'.producer ≡ next_index s.producer
    → (s'.table s.producer).ipv4_addr ≡ ip
    → ((k : ℕ) → k ≢ s.producer → (s'.table k).ipv4_addr ≡ (s.table k).ipv4_addr)
    → s.producer < 10
    → j < 10
    → j ≢ next_index s.producer
    → lookup_from fuel s j ip ≡ some none
    → lookup_from fuel s' j ip ≡ some (some s.producer)
unfolding lookup_from
lookup_from-new zero s s' j ip p e h q l n k = absurd (cc (k))
lookup_from-new (suc fuel) s s' j ip p e h q l n k = elim (Bool-cases (j == s.producer)) [
  | inl f ↦
      let here : j ≡ s.producer = ground arith in
      let ahead : (j == s'.producer) ≡ false = ground (arith, p) in
      let same : (s'.table j).ipv4_addr ≡ ip = ap (λ t. (s'.table t).ipv4_addr) here ∙ e in
      let found : ((s'.table j).ipv4_addr == ip) ≡ true = ground (arith, same) in
      rw (ahead, found) (ap (λ t. some (some t)) here)
  | inr f ↦ elim (Bool-cases ((s.table j).ipv4_addr == ip)) [
    | inl g ↦ absurd (cc (rw (f, g) at k))
    | inr g ↦
        let away : j ≢ s.producer = ground arith in
        let ahead : (j == s'.producer) ≡ false = ground (arith, p) in
        let missed : ((s'.table j).ipv4_addr == ip) ≡ false = ap (λ t. t == ip) (h j away) ∙ g in
        rw (ahead, missed)
          (lookup_from-new fuel s s' (next_index j) ip p e h q (omega arith) (omega arith)
            (rw (f, g) at k))
  ]
]

-- A search that misses goes on behind its first entry.
lookup_from-later :
    (fuel : ℕ) (s : Arp) (i ip : ℕ)
    → i ≢ s.producer
    → lookup_from (suc fuel) s i ip ≡ some none
    → lookup_from fuel s (next_index i) ip ≡ some none
unfolding lookup_from
lookup_from-later fuel s i ip n e =
    let away : (i == s.producer) ≡ false = ground arith in
    elim (Bool-cases ((s.table i).ipv4_addr == ip)) [
      | inl g ↦ absurd (cc (rw (away, g) at e))
      | inr g ↦ rw (away, g) at e
    ]

-- What `send_ipv4` adds for an address that the table does not have is found.
pub lookup_mac_addr-request_mac :
    (mac : List ℕ) (ip : ℕ) (packet : List ℕ) (s : Arp)
    → IsRing s
    → lookup_mac_addr s ip ≡ some none
    → lookup_mac_addr (request_mac mac ip false packet s) ip ≡ some (some s.producer)
unfolding lookup_mac_addr request_mac arp_send_request
lookup_mac_addr-request_mac mac ip packet s r k =
    elim (Bool-cases (s.consumer == next_index s.producer)) [
      | inl e ↦
          let moved : asked.consumer ≡ next_index s.consumer = rw e refl in
          let away : s.consumer ≢ s.producer = ground (arith, r) in
          ap (λ t. lookup_from 10 asked t ip) moved
          ∙ lookup_from-more 9 asked (next_index s.consumer) ip (some s.producer) (
              found 9 (next_index s.consumer) (omega arith) (ground (arith, r))
                (lookup_from-later 9 s s.consumer ip away k))
      | inr e ↦
          let kept : asked.consumer ≡ s.consumer = rw e refl in
          ap (λ t. lookup_from 10 asked t ip) kept ∙ found 10 s.consumer r.consumer (ground arith) k
    ]
  where
    asked : Arp
    asked = request_mac mac ip false packet s

    found :
        (fuel j : ℕ)
        → j < 10
        → j ≢ next_index s.producer
        → lookup_from fuel s j ip ≡ some none
        → lookup_from fuel asked j ip ≡ some (some s.producer)
    found fuel j l n e =
        lookup_from-new fuel s asked j ip refl (ground arith) (λ i m. ground arith) r.producer l n e
