-- ===== src/Nvram/Partition/Lookup.antt =====
-- lib/libnvram/nvram.c: `get_partition` finds what `create_nvram_partition` made.
use slof.Prelude.{ℕ, ◌+◌, ◌-◌, ◌*◌, ◌^◌, ◌≤◌, ◌<◌, ◌≡◌, ◌⊎◌, inl, inr, arith, ap, ◌∙◌}
use slof.Prelude.{Option, some, List, [], ◌∷◌, ◌++◌, true, false}
use slof.Prelude.Int.{is_zero}
use slof.Libc.Compare.{strncmp, strncmp-zero_iff}
use slof.Nvram.Store.{Nvram}
use slof.Nvram.Partition.{create, header_size, partition_len, pad_name, get_partition}
use slof.Nvram.Partition.Frame.{Agree, len_same}
use slof.Nvram.Partition.Chain.{Entry, IsChain, IsEnd, differs, find_entry, get_partition-chain}
use slof.Nvram.Partition.Header.{CanWrite, prefix-pad_name}
use slof.Nvram.Partition.Create.{space_for, entry_for, Created, create-Created}

-- No entry has the type and the name.
abbrev pub AllDiffer : List Entry → ℕ → Option (List ℕ) → Type 0
AllDiffer [] type name = Unit {0}
AllDiffer (p ∷ ps) type name = (differs p type name ≡ true) × AllDiffer ps type name

find_entry-append :
    (nv : Nvram) (ps : List Entry) (p : Entry) (type : ℕ) (name : Option (List ℕ)) (w e : ℕ)
    → AllDiffer ps type name
    → IsChain nv w ps e
    → differs p type name ≡ false
    → find_entry (ps ++ (p ∷ [])) type name w
      ≡ record { addr = e + header_size; len = p.blocks * 16 - header_size }
unfolding find_entry
find_entry-append nv [] p type name w e d c h = rw (h, c)
find_entry-append nv (q ∷ ps) p type name w e (d, ds) (c, cs) h =
    rw d (find_entry-append nv ps p type name (w + q.blocks * 16) e ds cs h)

same_name : (name : List ℕ) → is_zero (strncmp (pad_name 12 name) name 12) ≡ true
same_name name = (strncmp-zero_iff 12 (pad_name 12 name) name).1 (prefix-pad_name 12 name)

entry-matches :
    (type : ℕ) (name : List ℕ) (len : ℕ)
    → type < 256
    → differs (entry_for type name len) type (some name) ≡ false
entry-matches type name len h = ground (arith, same_name name)

-- Behind the new partition the memory ends, or a length of 0 stands.
abbrev pub EndsBehind : Nvram → ℕ → Type 0
EndsBehind nv e = (nv.size ≤ e) ⊎ ((e + 16 ≤ nv.size) × (partition_len nv e ≡ 0))

-- In a memory of 8 to 2 ^ 20 - 1 bytes, a valid chain of partitions ends with room for `len` bytes and
-- a header, where len + 31 is below 2 ^ 32 and the place for the name is clear; behind that room the
-- memory ends, or a header with the length 0 stands. The type is one from 1 to 255, the name has at most
-- 12 characters, none of them 0, and no earlier partition has both. Then creating the partition
-- succeeds, and get_partition by that type and name finds it, with the length of its blocks less the
-- header.
pub get_partition-create :
    {nv : Nvram} (ps : List Entry) (e type : ℕ) (name : List ℕ) (len : ℕ)
    → IsChain nv 0 ps e
    → IsEnd nv e
    → AllDiffer ps type (some name)
    → type < 256
    → len + 31 < 2 ^ 32
    → e + space_for len ≤ nv.size
    → CanWrite nv e type name (space_for len)
    → EndsBehind nv (e + space_for len)
    → (nv' : Nvram) × (create nv type name len
        ≡ some (record { addr = e + header_size; len = len }, nv'))
      × (get_partition nv' type (some name)
          ≡ some (record { addr = e + header_size; len = space_for len - header_size }))
get_partition-create {nv} ps e type name len chain end new small fits room c behind =
    found (create-Created ps e type name len chain end fits room c)
  where
    p : Entry
    p = entry_for type name len

    whole : p.blocks * 16 ≡ space_for len
    whole = omega arith

    still : (nv' : Nvram) → Created nv ps e p nv' → IsEnd nv' (e + p.blocks * 16)
    still nv' k = rw whole (ends behind)
      where
        agree : Agree nv nv' (e + space_for len) nv.size
        agree = record {
          same_size = k.same_size;
          small = c.small;
          within = omega arith;
          same_bytes = λ j a b. k.outside j (inr (omega (arith, c.blocks)));
        }

        ends : EndsBehind nv (e + space_for len) → IsEnd nv' (e + space_for len)
        ends (inl past) = inl (omega (arith, k.same_size))
        ends (inr (inside, zero_len)) =
            inr (inr (len_same agree (e + space_for len) (omega arith) inside ∙ zero_len))

    found :
        (nv' : Nvram) × (create nv type name len
            ≡ some (record { addr = e + header_size; len = len }, nv'))
          × Created nv ps e p nv'
        → (nv' : Nvram) × (create nv type name len
            ≡ some (record { addr = e + header_size; len = len }, nv'))
          × (get_partition nv' type (some name)
              ≡ some (record { addr = e + header_size; len = space_for len - header_size }))
    found (nv', made, k) = (nv', made, walked ∙ ap some (last ∙ ground (arith, whole)))
      where
        walked :
            get_partition nv' type (some name)
            ≡ some (find_entry (ps ++ (p ∷ [])) type (some name) 0)
        walked =
            get_partition-chain nv' (omega (arith, k.same_size, c.small)) type (some name)
              (ps ++ (p ∷ [])) (e + p.blocks * 16) (ground (arith, c.typed)) k.chain (still nv' k)

        last :
            find_entry (ps ++ (p ∷ [])) type (some name) 0
            ≡ record { addr = e + header_size; len = p.blocks * 16 - header_size }
        last =
            find_entry-append nv ps p type (some name) 0 e new chain
              (entry-matches type name len small)
