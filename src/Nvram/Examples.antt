-- ===== src/Nvram/Examples.antt =====
-- lib/libnvram/nvram.c: runs of the partition calls, and their theorems at a small memory.
use slof.Prelude.{ℕ, ◌+◌, ◌≡◌, ◌==◌, arith, refl, inr}
use slof.Prelude.{some, none, List, [], ◌∷◌, false, if◌then◌else◌}
use slof.Nvram.Store.{Nvram, read, write, load, store}
use slof.Nvram.Store.Laws.{IsSmall}
use slof.Nvram.Partition.{
  partition_type, header_checksum, calc_checksum, sum_from, partition_len, write_header, write_name,
  create, get_partition, find_from,
}
use slof.Nvram.Partition.Walk.{get_partition-stuck}
use slof.Nvram.Partition.Chain.{IsChain, IsEnd, find_entry, get_partition-chain}
use slof.Nvram.Partition.Header.{CanWrite, result-IsEntry, result-size, result-outside}
use slof.Nvram.Partition.Create.{space_for, entry_for, Created, create-Created}
use slof.Nvram.Partition.Lookup.{get_partition-create, EndsBehind, AllDiffer}
use slof.Libc.Compare.{strlen}

-- 128 bytes of zeros.
abbrev blank : Nvram
blank = record { size = 128; bytes = λ _. 0; buffer = λ _. 0; locked = false }

abbrev log_name : List ℕ
log_name = b'l' ∷ b'o' ∷ b'g' ∷ []

blank-IsSmall : IsSmall blank
blank-IsSmall = omega arith

blank-CanWrite : CanWrite blank 0 0x51 log_name 48
unfolding strlen
blank-CanWrite = record {
  small = blank-IsSmall;
  room = omega arith;
  typed = omega arith;
  fits = omega arith;
  blocks = omega arith;
  short = omega arith;
  plain = refl;
  chars = omega arith;
  clear = λ i h. refl;
}

-- One partition of three blocks.
abbrev one : Nvram
one = write_header blank 0 0x51 log_name 48

one-IsChain : IsChain one 0 (entry_for 0x51 log_name 32 ∷ []) 48
one-IsChain = (result-IsEntry blank-CanWrite, refl)

one-IsEnd : IsEnd one 48
unfolding write_header write_name write store partition_len read load strlen
one-IsEnd = inr (inr refl)

abbrev common_name : List ℕ
common_name = b'c' ∷ b'o' ∷ b'm' ∷ b'm' ∷ b'o' ∷ b'n' ∷ []

one-CanWrite : CanWrite one 48 0x70 common_name (space_for 20)
unfolding strlen
one-CanWrite = record {
  small = omega (arith, result-size blank-CanWrite);
  room = omega (arith, result-size blank-CanWrite);
  typed = omega arith;
  fits = omega (arith, result-size blank-CanWrite);
  blocks = omega arith;
  short = omega arith;
  plain = refl;
  chars = omega arith;
  clear = λ i h. result-outside blank-CanWrite (48 + 4 + i) (inr (omega arith));
}

behind : EndsBehind one 96
unfolding write_header write_name write store partition_len read load strlen
behind = inr (omega (arith, result-size blank-CanWrite), refl)

one-differs : AllDiffer (entry_for 0x51 log_name 32 ∷ []) 0x70 (some common_name)
one-differs = (refl, tt)

create-Created_example :
    (nv' : Nvram) × (create one 0x70 common_name 20 ≡ some (record { addr = 64; len = 20 }, nv'))
    × Created one (entry_for 0x51 log_name 32 ∷ []) 48 (entry_for 0x70 common_name 20) nv'
create-Created_example =
    create-Created (entry_for 0x51 log_name 32 ∷ []) 48 0x70 common_name 20 one-IsChain one-IsEnd
      (omega arith) (omega (arith, result-size blank-CanWrite)) one-CanWrite

get_partition-create_example :
    (nv' : Nvram) × (create one 0x70 common_name 20 ≡ some (record { addr = 64; len = 20 }, nv'))
    × (get_partition nv' 0x70 (some common_name) ≡ some (record { addr = 64; len = 32 }))
get_partition-create_example =
    get_partition-create (entry_for 0x51 log_name 32 ∷ []) 48 0x70 common_name 20 one-IsChain
      one-IsEnd one-differs (omega arith) (omega arith) (omega (arith, result-size blank-CanWrite))
      one-CanWrite behind

get_partition-chain_example :
    get_partition one 0x51 none ≡ some (find_entry (entry_for 0x51 log_name 32 ∷ []) 0x51 none 0)
get_partition-chain_example =
    get_partition-chain one one-CanWrite.small 0x51 none (entry_for 0x51 log_name 32 ∷ []) 48
      (omega arith) one-IsChain one-IsEnd

-- A type of 0x51 with its checksum, and a length of 0.
abbrev empty_header : Nvram
empty_header = record {
  size = 128;
  bytes = λ j. if j == 0 then 0x51 else if j == 1 then 0x51 else 0;
  buffer = λ _. 0;
  locked = false;
}

get_partition-stuck_example : find_from 1000 empty_header 0 none 0 ≡ none
unfolding header_checksum calc_checksum sum_from partition_len partition_type read load
get_partition-stuck_example =
    get_partition-stuck empty_header 1000 (omega arith) (omega arith) refl refl (omega arith)
