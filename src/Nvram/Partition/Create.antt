-- ===== src/Nvram/Partition/Create.antt =====
-- lib/libnvram/nvram.c: `create_nvram_partition` appends a partition to the chain.
use slof.Prelude.{ℕ, ◌+◌, ◌*◌, ◌/◌, ◌%◌, ◌^◌, ◌≤◌, ◌<◌, ◌≡◌, ◌⊎◌, inl, arith}
use slof.Prelude.{some, List, [], ◌∷◌, ◌++◌}
use slof.Nvram.Store.{Nvram, u32}
use slof.Nvram.Store.Laws.{IsSmall}
use slof.Nvram.Partition.{create, write_header, align16, header_size, pad_name}
use slof.Nvram.Partition.Frame.{Agree}
use slof.Nvram.Partition.Chain.{
  Entry, IsChain, IsEnd, used_space-chain, IsChain-Agree, IsChain-append,
}
use slof.Nvram.Partition.Header.{CanWrite, result-IsEntry, result-size, result-outside}

-- The bytes that a partition for `len` bytes takes.
abbrev pub space_for : ℕ → ℕ
space_for len = align16 (u32 (len + header_size))

abbrev pub entry_for : ℕ → List ℕ → ℕ → Entry
entry_for type name len = record {
  type = type % 256;
  name = pad_name 12 name;
  blocks = space_for len / 16;
}

-- What `create_nvram_partition` leaves when it succeeds at `e`.
pub record Created (nv : Nvram) (ps : List Entry) (e : ℕ) (p : Entry) (nv' : Nvram) : Type 0 where
  pub chain : IsChain nv' 0 (ps ++ (p ∷ [])) (e + p.blocks * 16)
  pub same_size : nv'.size ≡ nv.size
  pub outside : (j : ℕ) → (j < e) ⊎ (e + 16 ≤ j) → nv'.bytes j ≡ nv.bytes j

-- In a memory of 8 to 2 ^ 20 - 1 bytes, a valid chain of partitions ends with room for `len` bytes and
-- a header, where len + 31 is below 2 ^ 32 and the place for the name is clear. The name has at most 12
-- characters, none of them 0, and the lowest byte of the type is not 0. Then create_nvram_partition
-- returns the bytes behind the header, appends the entry, with that byte as its type, to the chain and
-- changes no byte outside the header.
pub create-Created :
    {nv : Nvram} (ps : List Entry) (e type : ℕ) (name : List ℕ) (len : ℕ)
    → IsChain nv 0 ps e
    → IsEnd nv e
    → len + 31 < 2 ^ 32
    → e + space_for len ≤ nv.size
    → CanWrite nv e type name (space_for len)
    → (nv' : Nvram) × (create nv type name len
        ≡ some (record { addr = e + header_size; len = len }, nv'))
      × Created nv ps e (entry_for type name len) nv'
unfolding create
create-Created {nv} ps e type name len chain end fits room c = (
  nv',
  computed,
  record {
    chain =
        IsChain-append nv' ps (entry_for type name len) 0 e (IsChain-Agree ps 0 agree chain)
          (result-IsEntry c);
    same_size = result-size c;
    outside = result-outside c;
  },
)
  where
    nv' : Nvram
    nv' = write_header nv e type name (space_for len)

    agree : Agree nv nv' 0 e
    agree = record {
      same_size = result-size c;
      small = c.small;
      within = omega (arith, c.room);
      same_bytes = λ j h k. result-outside c j (inl k);
    }

    computed : create nv type name len ≡ some (record { addr = e + header_size; len = len }, nv')
    computed = ground (arith, used_space-chain nv c.small ps e chain end, c.room, c.small)

-- Without room the call returns the pair of zeros and changes nothing.
pub create-full :
    {nv : Nvram} (ps : List Entry) (e type : ℕ) (name : List ℕ) (len : ℕ)
    → IsSmall nv
    → IsChain nv 0 ps e
    → IsEnd nv e
    → e ≤ nv.size
    → nv.size < e + space_for len
    → create nv type name len ≡ some (record { addr = 0; len = 0 }, nv)
unfolding create
create-full {nv} ps e type name len s chain end below full =
    ground (arith, used_space-chain nv s ps e chain end)
