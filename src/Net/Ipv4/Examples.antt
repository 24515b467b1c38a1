-- ===== src/Net/Ipv4/Examples.antt =====
-- lib/libnet/ipv4.c: the theorems on packets that are sent and handled, at small packets.
use slof.Prelude.{some, ℕ, ◌+◌, ◌*◌, ◌%◌, ◌<◌, ◌≡◌, ◌≢◌, arith, refl, List, [], ◌∷◌, get_or}
use slof.Libc.Memory.{Memory}
use slof.Nvram.Store.{load}
use slof.Net.Ipv4.{finished, udp, fill_iphdr, prepare, reassemble, handle_ipv4}
use slof.Net.Ipv4.Accept.{handle_ipv4-prepare}
use slof.Net.Ipv4.Fragments.{reassemble-fragments}

abbrev counting : Memory
counting a = a % 256

abbrev empty : Memory
empty a = 0

handle_ipv4-prepare_example :
    (sent m' : Memory) × (prepare 0x0a000001 0
        (fill_iphdr counting 100 (9 + 20) 17 0 0x0a000002)
        100
        (9 + 20)
      ≡ some sent)
    × (handle_ipv4 0x0a000002 0 empty sent 100 29 ≡ (udp m' (100 + 20) 9, empty))
    × ((j : ℕ) → j < 9 → j ≢ 6 → j ≢ 7 → m' (100 + 20 + j) ≡ counting (100 + 20 + j))
handle_ipv4-prepare_example =
    handle_ipv4-prepare 0x0a000001 0 0 empty counting 100 9 0 0x0a000002 29 (omega arith)
      (omega arith) (omega arith) (omega arith) (omega arith) (omega arith)

-- A datagram of ten bytes in fragments of eight and two.
abbrev first_bytes : List ℕ
first_bytes =
    0x45 ∷ 0x10 ∷ 0 ∷ 28 ∷ 0 ∷ 7 ∷ 0x20 ∷ 0 ∷ 255 ∷ 17 ∷ 0 ∷ 0 ∷ 10 ∷ 0 ∷ 0 ∷ 1 ∷ 10 ∷ 0 ∷ 0 ∷ 2 ∷ 0
    ∷ 67 ∷ 0 ∷ 68 ∷ 0 ∷ 10 ∷ 0 ∷ 0 ∷ []

abbrev second_bytes : List ℕ
second_bytes =
    0x45 ∷ 0x10 ∷ 0 ∷ 22 ∷ 0 ∷ 7 ∷ 0 ∷ 1 ∷ 255 ∷ 17 ∷ 0 ∷ 0 ∷ 10 ∷ 0 ∷ 0 ∷ 1 ∷ 10 ∷ 0 ∷ 0 ∷ 2 ∷ 98
    ∷ 99 ∷ []

abbrev first_fragment : Memory
first_fragment a = get_or first_bytes a 0

abbrev second_fragment : Memory
second_fragment a = get_or second_bytes a 0

reassemble-fragments_example :
    (whole : Memory) × ((reassemble empty first_fragment 0).0 ≡ finished)
    × (reassemble (reassemble empty first_fragment 0).1 second_fragment 0
        ≡ (udp whole 20 (8 * 1 + 2), whole))
    × ((j : ℕ) → j < 8 * 1 → whole (20 + j) ≡ first_fragment (0 + 20 + j))
    × ((j : ℕ) → j < 2 → whole (20 + 8 * 1 + j) ≡ second_fragment (0 + 20 + j))
unfolding load
reassemble-fragments_example =
    reassemble-fragments empty first_fragment 0 second_fragment 0 1 2 (omega arith) (omega arith)
      refl refl refl refl refl
      (record { id_eq = refl; proto_eq = refl; src_eq = refl; dst_eq = refl })
