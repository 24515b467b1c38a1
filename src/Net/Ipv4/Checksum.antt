-- ===== src/Net/Ipv4/Checksum.antt =====
-- lib/libnet/ipv4.c: the checksums of packets that are sent.
use slof.Prelude.{
  ℕ, zero, suc, ◌+◌, ◌*◌, ◌^◌, ◌≤◌, ◌<◌, ◌≡◌, ◌==◌, ◌∙◌, sym, arith, refl, inl, inr, Bool-cases,
}
use slof.Libc.Memory.{Memory}
use slof.Nvram.Store.{load, store}
use slof.Net.Ipv4.{
  sum_words, fold_sum, checksum, patch_addresses, fill_checksum, fill_udp_checksum, sum_packet,
}

-- The sum reads the bytes of its words only.
pub sum_words-same :
    (words : ℕ) (m m' : Memory) (a sum : ℕ)
    → ((j : ℕ) → a ≤ j → j < a + 2 * words → m' j ≡ m j)
    → sum_words words m' a sum ≡ sum_words words m a sum
unfolding sum_words load
sum_words-same zero m m' a sum h = refl
sum_words-same (suc words) m m' a sum h =
    rw (h a (omega arith) (omega arith), h (a + 1) (omega arith) (omega arith))
      (sum_words-same words m m' (a + 2) _ λ j l k. h j (omega arith) (omega arith))

checksum-small : (m : Memory) (a words : ℕ) → checksum m a words < 2 ^ 16
unfolding checksum fold_sum
checksum-small m a words = omega arith

-- A header whose checksum is that of the header with a checksum of 0.
abbrev pub IsSummed : Memory → ℕ → Type 0
IsSummed m ip = load 2 m (ip + 10) ≡ checksum (store 2 m (ip + 10) 0) ip 10

pub load-store : (m : Memory) (a v : ℕ) → v < 2 ^ 16 → load 2 (store 2 m a v) a ≡ v
unfolding load store
load-store m a v l = ground arith

-- Clearing the checksum again makes no difference.
clear-store : (m : Memory) (a v j : ℕ) → store 2 (store 2 m a v) a 0 j ≡ store 2 m a 0 j
unfolding store
clear-store m a v j = ground arith

checksum-same :
    (words : ℕ) (m m' : Memory) (a : ℕ)
    → ((j : ℕ) → a ≤ j → j < a + 2 * words → m' j ≡ m j)
    → checksum m' a words ≡ checksum m a words
unfolding checksum
checksum-same words m m' a h = rw (sum_words-same words m m' a 0 h) refl

fill_checksum-IsSummed : (m : Memory) (ip : ℕ) → IsSummed (fill_checksum m ip) ip
unfolding fill_checksum
fill_checksum-IsSummed m ip =
    load-store cleared (ip + 10) (checksum cleared ip 10) (checksum-small cleared ip 10)
    ∙ sym (
        checksum-same 10 cleared _ ip λ j l k.
          (clear-store cleared (ip + 10) (checksum cleared ip 10) j ∙ clear-store m (ip + 10) 0 j))
  where
    cleared : Memory
    cleared = store 2 m (ip + 10) 0

-- Bytes behind the header do not matter.
IsSummed-same :
    (m m' : Memory) (ip : ℕ)
    → ((j : ℕ) → ip ≤ j → j < ip + 20 → m' j ≡ m j)
    → IsSummed m ip
    → IsSummed m' ip
unfolding load store
IsSummed-same m m' ip h s =
    rw (h (ip + 10) (omega arith) (omega arith), h (ip + 10 + 1) (omega arith) (omega arith))
      (s
        ∙ sym (
            checksum-same 10 (store 2 m (ip + 10) 0) (store 2 m' (ip + 10) 0) ip
              λ j l k. ground (arith, h j l k)))

pub fill_udp_checksum-below :
    (m : Memory) (ip j : ℕ) → (j < ip + 26) → fill_udp_checksum m ip j ≡ m j
unfolding fill_udp_checksum store
fill_udp_checksum-below m ip j l = ground arith

pub sum_packet-IsSummed :
    (own_ip multicast_ip : ℕ) (m : Memory) (ip : ℕ)
    → IsSummed (sum_packet own_ip multicast_ip m ip) ip
unfolding sum_packet
sum_packet-IsSummed own_ip multicast_ip m ip = elim (Bool-cases (summed (ip + 9) == 17)) [
  | inl e ↦ rw e (
      IsSummed-same summed (fill_udp_checksum summed ip) ip
        (λ j l k. fill_udp_checksum-below summed ip j (omega arith))
        (fill_checksum-IsSummed (patch_addresses own_ip multicast_ip m ip) ip))
  | inr e ↦ rw e (fill_checksum-IsSummed (patch_addresses own_ip multicast_ip m ip) ip)
]
  where
    summed : Memory
    summed = fill_checksum (patch_addresses own_ip multicast_ip m ip) ip
