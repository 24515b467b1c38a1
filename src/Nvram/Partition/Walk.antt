-- ===== src/Nvram/Partition/Walk.antt =====
-- lib/libnvram/nvram.c: the walks along the chain of partitions end.
use slof.Prelude.{ℕ, zero, suc, ◌+◌, ◌-◌, ◌*◌, ◌^◌, ◌<◌, ◌≡◌, ◌≢◌, arith, refl}
use slof.Prelude.{Option, none, some, List, true}
use slof.Nvram.Store.{Nvram, u32}
use slof.Nvram.Store.Laws.{IsSmall, IsBytes, read_word-lt}
use slof.Nvram.Partition.{
  Partition, header_checksum, calc_checksum, partition_len, partition_type, mismatch,
}
use slof.Nvram.Partition.{used_from, used_space, find_from, get_partition}

pub partition_len-lt : (nv : Nvram) (walk : ℕ) → IsBytes nv → partition_len nv walk < 2 ^ 16
unfolding partition_len
partition_len-lt nv walk b = read_word-lt nv _ b

some_of : {A : Type 0} (o : Option A) → o ≢ none → (a : A) × (o ≡ some a)
some_of none h = absurd (h refl)
some_of (some a) h = (a, refl)

module _ (nv : Nvram) (s : IsSmall nv) (b : IsBytes nv) where
  used_from-total : (fuel walk : ℕ) → nv.size - walk < fuel → used_from fuel nv walk ≢ none
  unfolding used_from
  used_from-total zero walk h = absurd (omega arith)
  used_from-total (suc fuel) walk h = ground (
    arith,
    partition_len-lt nv walk b,
    used_from-total fuel (u32 (walk + partition_len nv walk * 16)),
  )

  -- `calc_used_nvram_space` ends, whatever the memory holds.
  pub used_space-total : (u : ℕ) × (used_space nv ≡ some u)
  unfolding used_space
  used_space-total = some_of _ (used_from-total (suc nv.size) 0 (omega arith))

  find_from-total :
      (type : ℕ) (name : Option (List ℕ)) (fuel walk : ℕ)
      → type ≢ 0
      → nv.size - walk < fuel
      → find_from fuel nv type name walk ≢ none
  unfolding find_from
  find_from-total type name zero walk t h = absurd (omega arith)
  find_from-total type name (suc fuel) walk t h = ground (
    arith,
    partition_len-lt nv walk b,
    find_from-total type name fuel (u32 (walk + partition_len nv walk * 16)),
  )

  -- `get_partition` ends for every type but 0, whatever the memory holds.
  pub get_partition-total :
      (type : ℕ) (name : Option (List ℕ))
      → type ≢ 0
      → (p : Partition) × (get_partition nv type name ≡ some p)
  unfolding get_partition
  get_partition-total type name t =
      some_of _ (find_from-total type name (suc nv.size) 0 t (omega arith))

-- A header of length 0 that is valid and does not match: the search for type 0, for free
-- unpartitioned space, stays at it whatever the fuel.
pub find_from-stuck :
    (nv : Nvram) (name : Option (List ℕ)) (walk fuel : ℕ)
    → walk < nv.size
    → nv.size < 2 ^ 32
    → header_checksum nv walk ≡ calc_checksum nv walk
    → partition_len nv walk ≡ 0
    → mismatch nv walk 0 name ≡ true
    → find_from fuel nv 0 name walk ≡ none
unfolding find_from
find_from-stuck nv name walk zero h l c e m = refl
find_from-stuck nv name walk (suc fuel) h l c e m =
    let stay : u32 (walk + partition_len nv walk * 16) ≡ walk = omega arith in
    let rest : find_from fuel nv 0 name (u32 (walk + partition_len nv walk * 16)) ≡ none =
      rw stay (find_from-stuck nv name walk fuel h l c e m) in
    ground arith

-- A valid header of length 0 at the start and a type other than 0: the search for type 0, for
-- free unpartitioned space, finds nothing with any fuel. The loop of `get_partition` never ends.
pub get_partition-stuck :
    (nv : Nvram) (fuel : ℕ)
    → 0 < nv.size
    → nv.size < 2 ^ 32
    → header_checksum nv 0 ≡ calc_checksum nv 0
    → partition_len nv 0 ≡ 0
    → partition_type nv 0 ≢ 0
    → find_from fuel nv 0 none 0 ≡ none
get_partition-stuck nv fuel pos h c e t = find_from-stuck nv none 0 fuel pos h c e other_type
  where
    other_type : mismatch nv 0 0 none ≡ true
    other_type = unfold mismatch in ground arith
