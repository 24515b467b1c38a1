-- ===== src/Net/Ipv4/Fragments.antt =====
-- lib/libnet/ipv4.c: `handle_ipv4` joins the fragments of a packet.
use slof.Prelude.{
  ℕ, zero, suc, ◌+◌, ◌-◌, ◌*◌, ◌/◌, ◌%◌, ◌^◌, ◌≤◌, ◌<◌, ◌≡◌, ◌==◌, ◌∙◌, ap, arith, refl, inr,
}
use slof.Prelude.{true, false}
use slof.Libc.Memory.{Memory}
use slof.Nvram.Store.{load, store}
use slof.Net.Dhcp.Options.{copy_array}
use slof.Net.Dhcp.Options.Combine.{copy_array-byte}
use slof.Net.Ipv4.{finished, udp, deliver, same_packet, reassemble}
use slof.Net.Ipv4.Checksum.{load-store}
use slof.Net.Ipv4.Accept.{store-outside, deliver-udp}

load-moved :
    (k : ℕ) (m m' : Memory) (a b : ℕ)
    → ((j : ℕ) → j < k → m' (b + j) ≡ m (a + j))
    → load k m' b ≡ load k m a
unfolding load
load-moved zero m m' a b h = refl
load-moved (suc k) m m' a b h =
    let p : a + 0 ≡ a = omega arith in
    let q : b + 0 ≡ b = omega arith in
    rw (rw (p, q) at (h 0 (omega arith)), load-moved k m m' (a + 1) (b + 1) (λ j l. later j l)) refl
  where
    later : (j : ℕ) → j < k → m' (b + 1 + j) ≡ m (a + 1 + j)
    later j l =
        let p : a + 1 + j ≡ a + suc j = omega arith in
        let q : b + 1 + j ≡ b + suc j = omega arith in rw (p, q) (h (suc j) (omega arith))

-- Two packets of the same datagram.
pub record SameDatagram (m : Memory) (a : ℕ) (m' : Memory) (b : ℕ) : Type 0 where
  pub id_eq : load 2 m (a + 4) ≡ load 2 m' (b + 4)
  pub proto_eq : m (a + 9) ≡ m' (b + 9)
  pub src_eq : load 4 m (a + 12) ≡ load 4 m' (b + 12)
  pub dst_eq : load 4 m (a + 16) ≡ load 4 m' (b + 16)

-- The first fragment is kept.
kept-byte : (n : ℕ) (heap m : Memory) (a j : ℕ) → j < n → copy_array n heap 0 m a j ≡ m (a + j)
kept-byte n heap m a j l =
    let here : a + (j - 0) ≡ a + j = omega arith in
    ground (arith, copy_array-byte n heap 0 m a j, ap m here)

kept-same_packet :
    (n : ℕ) (heap m : Memory) (a : ℕ) (m' : Memory) (b : ℕ)
    → 20 ≤ n
    → SameDatagram m a m' b
    → same_packet (copy_array n heap 0 m a) m' b ≡ true
unfolding same_packet
kept-same_packet n heap m a m' b l s =
    let q : copy_array n heap 0 m a 9 ≡ m (a + 9) = kept-byte n heap m a 9 (omega arith) in
    ground
      (arith, field 2 4 (omega arith), q, field 4 12 (omega arith), field 4 16 (omega arith), s)
  where
    field : (k at' : ℕ) → at' + k ≤ 20 → load k (copy_array n heap 0 m a) at' ≡ load k m (a + at')
    field k at' h = load-moved k m (copy_array n heap 0 m a) (a + at') at' (λ j i.
        (let here : a + (at' + j) ≡ a + at' + j = omega arith in
          kept-byte n heap m a (at' + j) (omega arith) ∙ ap m here))

reassemble-first :
    (heap m : Memory) (a k : ℕ)
    → load 2 m (a + 2) ≡ k
    → load 2 m (a + 6) ≡ 2 ^ 13
    → reassemble heap m a ≡ (finished, copy_array k heap 0 m a)
unfolding reassemble
reassemble-first heap m a k e e' = rw (e, e') refl

-- The packet that `ip_heap` holds after its last fragment.
abbrev joined : Memory → Memory → ℕ → ℕ → ℕ → Memory
joined heap m ip units n = copy_array n heap (20 + units * 8) m (ip + 20)

abbrev whole_of : Memory → Memory → ℕ → ℕ → ℕ → Memory
whole_of heap m ip units n = store 2 (joined heap m ip units n) 2 (n + 20 + units * 8)

reassemble-last :
    (heap m : Memory) (ip units n : ℕ)
    → 0 < units
    → units < 2 ^ 13
    → n + 20 < 2 ^ 16
    → load 2 m (ip + 2) ≡ n + 20
    → load 2 m (ip + 6) ≡ units
    → same_packet heap m ip ≡ true
    → reassemble heap m ip ≡ (deliver (whole_of heap m ip units n) 0, whole_of heap m ip units n)
unfolding reassemble
reassemble-last heap m ip units n u v l e e' s =
    let offset : units % 2 ^ 13 ≡ units = omega arith in
    let later : (units == 0) ≡ false = ground arith in
    let last : (units / 2 ^ 13 % 2 == 1) ≡ false = ground arith in
    let size : (n + 20 + 2 ^ 64 - 20) % 2 ^ 64 ≡ n = omega arith in
    rw (e, e', offset, later, last, size, s) refl

-- Two fragments of a UDP datagram of less than 65536 bytes with its header have passed the tests of
-- `handle_ipv4`: the first one carries one or more units of eight bytes and only the flag that more
-- fragments follow, the second one comes right behind it, with no flag, and has the same number,
-- protocol and addresses. After the first one `handle_ipv4` returns 0, and after the second one it
-- hands on the bytes of both, in order and with their number, from the packet that it keeps.
pub reassemble-fragments :
    (heap m : Memory) (a : ℕ) (m' : Memory) (b units n : ℕ)
    → 0 < units
    → 20 + 8 * units + n < 2 ^ 16
    → load 2 m (a + 2) ≡ 20 + 8 * units
    → load 2 m (a + 6) ≡ 2 ^ 13
    → load 2 m' (b + 2) ≡ n + 20
    → load 2 m' (b + 6) ≡ units
    → m' (b + 9) ≡ 17
    → SameDatagram m a m' b
    → (whole : Memory) × ((reassemble heap m a).0 ≡ finished)
      × (reassemble (reassemble heap m a).1 m' b ≡ (udp whole 20 (8 * units + n), whole))
      × ((j : ℕ) → j < 8 * units → whole (20 + j) ≡ m (a + 20 + j))
      × ((j : ℕ) → j < n → whole (20 + 8 * units + j) ≡ m' (b + 20 + j))
reassemble-fragments heap m a m' b units n u l e1 e2 e3 e4 p s = (
  whole,
  ap (λ t. t.0) first,
  ap (λ t. reassemble t.1 m' b) first
      ∙ reassemble-last kept m' b units n u (omega arith) (omega arith) e3 e4
          (kept-same_packet (20 + 8 * units) heap m a m' b (omega arith) s)
      ∙ ap (λ t. (t, whole)) (deliver-udp whole 0 (8 * units + n) len (omega arith) proto),
  λ j h.
      (let here : a + (20 + j) ≡ a + 20 + j = omega arith in
        behind (20 + j) (omega arith)
        ∙ before (20 + j) (omega arith)
        ∙ kept-byte (20 + 8 * units) heap m a (20 + j) (omega arith)
        ∙ ap m here),
  λ j h.
      (let there : b + 20 + (20 + 8 * units + j - (20 + units * 8)) ≡ b + 20 + j = omega arith in
        behind (20 + 8 * units + j) (omega arith)
        ∙ ground (
          arith,
          copy_array-byte n kept (20 + units * 8) m' (b + 20) (20 + 8 * units + j),
          ap m' there,
        )),
)
  where
    kept : Memory
    kept = copy_array (20 + 8 * units) heap 0 m a

    whole : Memory
    whole = whole_of kept m' b units n

    first : reassemble heap m a ≡ (finished, kept)
    first = reassemble-first heap m a (20 + 8 * units) e1 e2

    behind : (j : ℕ) → 4 ≤ j → whole j ≡ joined kept m' b units n j
    behind j h =
        store-outside 2 (joined kept m' b units n) 2 (n + 20 + units * 8) j (inr (omega arith))

    before : (j : ℕ) → j < 20 + 8 * units → joined kept m' b units n j ≡ kept j
    before j h = ground (arith, copy_array-byte n kept (20 + units * 8) m' (b + 20) j)

    len : load 2 whole 2 ≡ 8 * units + n + 20
    len = load-store (joined kept m' b units n) 2 (n + 20 + units * 8) (omega arith) ∙ omega arith

    proto : whole 9 ≡ 17
    proto =
        behind 9 (omega arith)
        ∙ before 9 (omega arith)
        ∙ kept-byte (20 + 8 * units) heap m a 9 (omega arith)
        ∙ s.proto_eq
        ∙ p
