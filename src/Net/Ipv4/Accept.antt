-- ===== src/Net/Ipv4/Accept.antt =====
-- lib/libnet/ipv4.c: `handle_ipv4` takes what `send_ipv4` sends.
use slof.Prelude.{
  ℕ, zero, suc, ◌+◌, ◌-◌, ◌/◌, ◌%◌, ◌^◌, ◌≤◌, ◌<◌, ◌≡◌, ◌≢◌, ◌==◌, ◌⊎◌, ◌∙◌, ap, arith, refl, inl,
  inr, Bool-cases, ltb,
}
use slof.Prelude.{true, false, some}
use slof.Libc.Memory.{Memory, update}
use slof.Nvram.Store.{load, store}
use slof.Net.Dhcp.Options.{u32}
use slof.Net.Ipv4.{
  checksum, fill_iphdr, patch_addresses, fill_checksum, fill_udp_checksum, sum_packet, prepare, udp,
  is_foreign, deliver, reassemble, handle_ipv4,
}
use slof.Net.Ipv4.Checksum.{fill_udp_checksum-below, sum_packet-IsSummed}

-- The bytes that `send_ipv4` leaves alone.
sum_packet-kept :
    (own_ip multicast_ip : ℕ) (m : Memory) (ip j : ℕ)
    → (j < ip + 10) ⊎ (ip + 20 ≤ j)
    → j ≢ ip + 26
    → j ≢ ip + 27
    → sum_packet own_ip multicast_ip m ip j ≡ m j
unfolding sum_packet fill_udp_checksum fill_checksum patch_addresses store
sum_packet-kept own_ip multicast_ip m ip j (inl h) n n' = ground arith
sum_packet-kept own_ip multicast_ip m ip j (inr h) n n' = ground arith

-- The destination, where the source is not 1.
patch_addresses-dst :
    (own_ip multicast_ip : ℕ) (m : Memory) (ip j : ℕ)
    → load 4 m (ip + 12) ≢ 1
    → ip + 16 ≤ j
    → patch_addresses own_ip multicast_ip m ip j ≡ m j
unfolding patch_addresses store
patch_addresses-dst own_ip multicast_ip m ip j n l =
    let other : (load 4 m (ip + 12) == 1) ≡ false = ground arith in
    elim (Bool-cases (load 4 m (ip + 12) == 0)) [
      | inl e ↦ rw e (ground arith)
      | inr e ↦ rw (e, other) refl
    ]

fill_checksum-above : (m : Memory) (ip j : ℕ) → ip + 12 ≤ j → fill_checksum m ip j ≡ m j
unfolding fill_checksum store
fill_checksum-above m ip j l = ground arith

sum_packet-dst_byte :
    (own_ip multicast_ip : ℕ) (m : Memory) (ip j : ℕ)
    → load 4 m (ip + 12) ≢ 1
    → ip + 16 ≤ j
    → j < ip + 20
    → sum_packet own_ip multicast_ip m ip j ≡ m j
unfolding sum_packet
sum_packet-dst_byte own_ip multicast_ip m ip j n l k =
    let patched = patch_addresses own_ip multicast_ip m ip in
    let summed = fill_checksum patched ip in
    let same : summed j ≡ m j =
      fill_checksum-above patched ip j (omega arith)
      ∙ patch_addresses-dst own_ip multicast_ip m ip j n l in
    elim (Bool-cases (summed (ip + 9) == 17)) [
      | inl e ↦ rw e (fill_udp_checksum-below summed ip j (omega arith) ∙ same)
      | inr e ↦ rw e (same)
    ]

pub load-same :
    (k : ℕ) (m m' : Memory) (a : ℕ)
    → ((j : ℕ) → a ≤ j → j < a + k → m' j ≡ m j)
    → load k m' a ≡ load k m a
unfolding load
load-same zero m m' a h = refl
load-same (suc k) m m' a h =
    rw
      (
        h a (omega arith) (omega arith),
        load-same k m m' (a + 1) λ j l n. h j (omega arith) (omega arith),
      )
      refl

pub store-outside : (k : ℕ) (m : Memory) (a v j : ℕ) → (j < a) ⊎ (a + k ≤ j) → store k m a v j ≡ m j
unfolding store
store-outside zero m a v j h = refl
store-outside (suc k) m a v j (inl h) =
    store-outside k (update m a (v / 256 ^ k % 256)) (a + 1) v j (inl (omega arith)) ∙ ground arith
store-outside (suc k) m a v j (inr h) =
    store-outside k (update m a (v / 256 ^ k % 256)) (a + 1) v j (inr (omega arith)) ∙ ground arith

pub load4-store4 : (m : Memory) (a v : ℕ) → load 4 (store 4 m a v) a ≡ v % 2 ^ 32
unfolding load store
load4-store4 m a v = ground arith

-- The header that was filled in, after the checksum of a received packet was cleared.
record Header (m : Memory) (ip packetsize ip_proto ip_src ip_dst : ℕ) : Type 0 where
  len_eq : load 2 m (ip + 2) ≡ packetsize % 2 ^ 16
  off_eq : load 2 m (ip + 6) ≡ 0
  proto_eq : m (ip + 9) ≡ ip_proto % 256
  src_eq : load 4 m (ip + 12) ≡ ip_src % 2 ^ 32
  dst_eq : load 4 m (ip + 16) ≡ ip_dst % 2 ^ 32

fill_iphdr-Header :
    (m : Memory) (ip packetsize ip_proto ip_src ip_dst : ℕ)
    → Header
        (fill_iphdr m ip packetsize ip_proto ip_src ip_dst)
        ip
        packetsize
        ip_proto
        ip_src
        ip_dst
unfolding fill_iphdr store load
fill_iphdr-Header m ip packetsize ip_proto ip_src ip_dst = record {
  len_eq = ground arith;
  off_eq = ground arith;
  proto_eq = ground arith;
  src_eq =
      load-same 4 sourced _ (ip + 12) (λ j l k.
        store-outside 2 (store 4 sourced (ip + 16) ip_dst) (ip + 10) 0 j (inr (omega arith))
        ∙ store-outside 4 sourced (ip + 16) ip_dst j (inl (omega arith)))
      ∙ load4-store4 fixed (ip + 12) ip_src;
  dst_eq =
      load-same 4 (store 4 sourced (ip + 16) ip_dst) _ (ip + 16) (λ j l k.
        store-outside 2 (store 4 sourced (ip + 16) ip_dst) (ip + 10) 0 j (inr (omega arith)))
      ∙ load4-store4 sourced (ip + 16) ip_dst;
}
  where
    fixed : Memory
    fixed =
        let len = store 2 (update (update m ip 0x45) (ip + 1) 0x10) (ip + 2) packetsize in
        let off = store 2 (store 2 len (ip + 4) 0) (ip + 6) 0 in
        update (update off (ip + 8) 0xff) (ip + 9) (ip_proto % 256)

    sourced : Memory
    sourced = store 4 fixed (ip + 12) ip_src

pub fill_iphdr-above :
    (m : Memory) (ip packetsize ip_proto ip_src ip_dst j : ℕ)
    → ip + 20 ≤ j
    → fill_iphdr m ip packetsize ip_proto ip_src ip_dst j ≡ m j
unfolding fill_iphdr store
fill_iphdr-above m ip packetsize ip_proto ip_src ip_dst j l = ground arith

pub deliver-udp :
    (m : Memory) (ip n : ℕ)
    → load 2 m (ip + 2) ≡ n + 20
    → n + 20 < 2 ^ 16
    → m (ip + 9) ≡ 17
    → deliver m ip ≡ udp m (ip + 20) n
unfolding deliver
deliver-udp m ip n e l p =
    let size : u32 (n + 20 + 2 ^ 32 - 20) ≡ n = omega arith in rw (e, p, size) refl

reassemble-whole :
    (ip_heap m : Memory) (ip : ℕ)
    → load 2 m (ip + 6) ≡ 0
    → reassemble ip_heap m ip ≡ (deliver m ip, ip_heap)
unfolding reassemble
reassemble-whole ip_heap m ip e = rw e refl

-- A UDP packet of at most 1484 bytes, whose header `fill_iphdr` filled in for a source that is not 1,
-- passes through `send_ipv4` with any own and multicast address. `handle_ipv4` of the host whose
-- address is the destination, a unicast address other than 0, with a size of 20 bytes or more, then
-- hands its bytes on to `handle_udp` with their length, the same as before but for the UDP checksum, and
-- keeps no fragment.
pub handle_ipv4-prepare :
    (own_ip multicast_ip multicast_ip' : ℕ) (ip_heap m : Memory) (ip n src dst size : ℕ)
    → n + 34 ≤ 1518
    → src < 2 ^ 32
    → src ≢ 1
    → 0 < dst
    → dst < 0xe0000000
    → 20 ≤ size
    → (sent m' : Memory) × (prepare own_ip multicast_ip
          (fill_iphdr m ip (n + 20) 17 src dst)
          ip
          (n + 20)
        ≡ some sent)
      × (handle_ipv4 dst multicast_ip' ip_heap sent ip size ≡ (udp m' (ip + 20) n, ip_heap))
      × ((j : ℕ) → j < n → j ≢ 6 → j ≢ 7 → m' (ip + 20 + j) ≡ m (ip + 20 + j))
unfolding handle_ipv4 prepare
handle_ipv4-prepare own_ip multicast_ip multicast_ip' ip_heap m ip n src dst size l k o p q z = (
  sent,
  cleared,
  passed,
  accepted,
  λ j a b c.
      (store-outside 2 sent (ip + 10) 0 (ip + 20 + j) (inr (omega arith))
        ∙ sum_packet-kept own_ip multicast_ip filled ip (ip + 20 + j) (inr (omega arith))
            (omega arith) (omega arith)
        ∙ fill_iphdr-above m ip (n + 20) 17 src dst (ip + 20 + j) (omega arith)),
)
  where
    filled : Memory
    filled = fill_iphdr m ip (n + 20) 17 src dst

    header : Header filled ip (n + 20) 17 src dst
    header = fill_iphdr-Header m ip (n + 20) 17 src dst

    sent : Memory
    sent = sum_packet own_ip multicast_ip filled ip

    passed : prepare own_ip multicast_ip filled ip (n + 20) ≡ some sent
    passed = let fits : ltb 1518 (n + 20 + 14) ≡ false = ground arith in rw fits refl

    cleared : Memory
    cleared = store 2 sent (ip + 10) 0

    early : (j : ℕ) → j < ip + 10 → cleared j ≡ filled j
    early j a =
        store-outside 2 sent (ip + 10) 0 j (inl (omega arith))
        ∙ sum_packet-kept own_ip multicast_ip filled ip j (inl (omega arith)) (omega arith)
            (omega arith)

    source : load 4 filled (ip + 12) ≢ 1
    source e = o (omega (arith, header.src_eq, e))

    to : load 4 sent (ip + 16) ≡ dst
    to =
        load-same 4 filled sent (ip + 16)
          (λ j a b. sum_packet-dst_byte own_ip multicast_ip filled ip j source a (omega arith))
        ∙ header.dst_eq
        ∙ omega arith

    mine : is_foreign dst multicast_ip' dst ≡ false
    mine = unfold is_foreign in ground arith

    given : deliver cleared ip ≡ udp cleared (ip + 20) n
    given =
        deliver-udp cleared ip n
          (load-same 2 filled cleared (ip + 2) (λ j a b. early j (omega arith))
            ∙ header.len_eq
            ∙ omega (arith, l))
          (omega (arith, l)) (early (ip + 9) (omega arith) ∙ header.proto_eq)

    whole : reassemble ip_heap cleared ip ≡ (udp cleared (ip + 20) n, ip_heap)
    whole =
        reassemble-whole ip_heap cleared ip
          (load-same 2 filled cleared (ip + 6) (λ j a b. early j (omega arith)) ∙ header.off_eq)
        ∙ ap (λ t. (t, ip_heap)) given

    accepted :
        handle_ipv4 dst multicast_ip' ip_heap sent ip size ≡ (udp cleared (ip + 20) n, ip_heap)
    accepted =
        let long : ltb size 20 ≡ false = ground arith in
        let right : (load 2 sent (ip + 10) == checksum cleared ip 10) ≡ true =
          ground (arith, sum_packet-IsSummed own_ip multicast_ip filled ip) in
        rw (long, to, mine, right) whole
