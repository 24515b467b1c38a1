-- ===== src/Nvram/Partition/Chain.antt =====
-- lib/libnvram/nvram.c: the partitions as a list of entries, and what the walks find in it.
use slof.Prelude.{ℕ, zero, suc, ◌+◌, ◌-◌, ◌*◌, ◌^◌, ◌≤◌, ◌<◌, ◌≡◌, ◌≢◌, ◌⊎◌, arith, refl, sym, ◌∙◌}
use slof.Prelude.{
  Option, none, some, List, [], ◌∷◌, ◌++◌, Bool, false, not, ◌==◌, ◌||◌, ◌&&◌, if◌then◌else◌,
}
use slof.Prelude.Int.{is_zero}
use slof.Libc.Compare.{strncmp}
use slof.Nvram.Store.{Nvram, u32}
use slof.Nvram.Store.Laws.{IsSmall}
use slof.Nvram.Partition.{Partition, partition_type, header_checksum, calc_checksum, partition_len}
use slof.Nvram.Partition.{
  partition_name, mismatch, not_found, used_from, used_space, find_from, get_partition, header_size,
}
use slof.Nvram.Partition.Frame.{Agree, type_same, checksum_same, len_same, name_same_at, calc_same}

-- A partition as its header describes it: `blocks` counts 16 bytes each, the header included.
pub record Entry : Type 0 where
  pub type : ℕ
  pub name : List ℕ
  pub blocks : ℕ

-- A valid header at `w`.
pub record IsEntry (nv : Nvram) (w : ℕ) (p : Entry) : Type 0 where
  pub below : w + 16 ≤ nv.size
  pub checked : header_checksum nv w ≡ calc_checksum nv w
  pub typed : partition_type nv w ≡ p.type
  pub named : partition_name nv w ≡ p.name
  pub sized : partition_len nv w ≡ p.blocks
  pub used : p.type ≢ 0
  pub pos : 0 < p.blocks
  pub few : p.blocks < 2 ^ 16

-- The entries `ps` stand one behind another from `w` to `e`.
abbrev pub IsChain : Nvram → ℕ → List Entry → ℕ → Type 0
IsChain nv w [] e = w ≡ e
IsChain nv w (p ∷ ps) e = IsEntry nv w p × IsChain nv (w + p.blocks * 16) ps e

-- Nothing follows: the end of the memory, a wrong checksum, or a length of 0.
abbrev pub IsEnd : Nvram → ℕ → Type 0
IsEnd nv e =
    (nv.size ≤ e) ⊎ ((header_checksum nv e ≢ calc_checksum nv e) ⊎ (partition_len nv e ≡ 0))

-- The first entry that has the type (any, for the pattern of -1) and the name (any, for none).
abbrev pub differs : Entry → ℕ → Option (List ℕ) → Bool
differs p type name = (not (type == 2 ^ 32 - 1) && not (type == p.type)) || other name
  where
    other : Option (List ℕ) → Bool
    other none = false
    other (some s) = not (is_zero (strncmp p.name s 12))

unfoldable pub find_entry : List Entry → ℕ → Option (List ℕ) → ℕ → Partition
find_entry [] type name w = not_found
find_entry (p ∷ ps) type name w =
    if differs p type name
    then find_entry ps type name (w + p.blocks * 16)
    else record { addr = w + header_size; len = p.blocks * 16 - header_size }

module _ (nv : Nvram) (s : IsSmall nv) where
  entry_next :
      (w : ℕ) (p : Entry) → IsEntry nv w p → u32 (w + partition_len nv w * 16) ≡ w + p.blocks * 16
  entry_next w p c = rw (c.sized) (omega (arith, c.below, c.few))

  mismatch_entry :
      (w : ℕ) (p : Entry)
      → IsEntry nv w p
      → (type : ℕ) (name : Option (List ℕ)) → mismatch nv w type name ≡ differs p type name
  unfolding mismatch
  mismatch_entry w p c type none = rw (c.typed)
  mismatch_entry w p c type (some s) = rw (c.typed, c.named)

  used_from-chain :
      (ps : List Entry) (w e fuel : ℕ)
      → IsChain nv w ps e
      → IsEnd nv e
      → nv.size - w < fuel
      → used_from fuel nv w ≡ some e
  unfolding used_from partition_type
  used_from-chain ps w e zero c h f = absurd (omega arith)
  used_from-chain [] w e (suc fuel) c h f = ground arith
  used_from-chain (p ∷ ps) w e (suc fuel) (c, cs) h f =
      let next = entry_next w p c in
      let rest = used_from-chain ps (w + p.blocks * 16) e fuel cs h (omega (arith, c.pos)) in
      rw (next, rest) (ground (arith, c.below, c.checked, c.typed, c.sized, c.used, c.pos))

  -- On a chain that ends at `e`, `calc_used_nvram_space` returns `e`.
  pub used_space-chain :
      (ps : List Entry) (e : ℕ) → IsChain nv 0 ps e → IsEnd nv e → used_space nv ≡ some e
  unfolding used_space
  used_space-chain ps e c h = used_from-chain ps 0 e (suc nv.size) c h (omega arith)

  find_from-chain :
      (type : ℕ) (name : Option (List ℕ)) (ps : List Entry) (w e fuel : ℕ)
      → type ≢ 0
      → IsChain nv w ps e
      → IsEnd nv e
      → nv.size - w < fuel
      → find_from fuel nv type name w ≡ some (find_entry ps type name w)
  unfolding find_from find_entry
  find_from-chain type name ps w e zero t c h f = absurd (omega arith)
  find_from-chain type name [] w e (suc fuel) t c h f = ground arith
  find_from-chain type name (p ∷ ps) w e (suc fuel) t (c, cs) h f =
      let next = entry_next w p c in
      let rest =
        find_from-chain type name ps (w + p.blocks * 16) e fuel t cs h (omega (arith, c.pos)) in
      rw (next, rest, mismatch_entry w p c type name)
        (ground (arith, c.below, c.checked, c.sized, c.pos, c.few))

  -- In a memory of 8 to 2 ^ 20 - 1 bytes, on a chain that ends at `e`, `get_partition` of a type other
  -- than 0 returns the first entry that has the type and the name that are asked for, or the pair of 0
  -- and -1.
  pub get_partition-chain :
      (type : ℕ) (name : Option (List ℕ)) (ps : List Entry) (e : ℕ)
      → type ≢ 0
      → IsChain nv 0 ps e
      → IsEnd nv e
      → get_partition nv type name ≡ some (find_entry ps type name 0)
  unfolding get_partition
  get_partition-chain type name ps e t c h =
      find_from-chain type name ps 0 e (suc nv.size) t c h (omega arith)

pub chain-le : (nv : Nvram) (ps : List Entry) (w e : ℕ) → IsChain nv w ps e → w ≤ e
chain-le nv [] w e c = omega arith
chain-le nv (p ∷ ps) w e (c, cs) = omega (arith, chain-le nv ps (w + p.blocks * 16) e cs)

-- A memory that agrees up to `e` has the same chain there.
pub IsChain-Agree :
    {nv nv' : Nvram} {e : ℕ} (ps : List Entry) (w : ℕ)
    → Agree nv nv' 0 e
    → IsChain nv w ps e
    → IsChain nv' w ps e
IsChain-Agree [] w a c = c
IsChain-Agree {nv} {nv'} {e} (p ∷ ps) w a (c, cs) =
    (entry, IsChain-Agree ps (w + p.blocks * 16) a cs)
  where
    inside : w + 16 ≤ e
    inside = omega (arith, chain-le nv ps (w + p.blocks * 16) e cs, c.pos)

    entry : IsEntry nv' w p
    entry = record {
      below = omega (arith, c.below, a.same_size);
      checked =
          checksum_same a w (omega arith) inside
          ∙ c.checked
          ∙ sym (calc_same a w (omega arith) inside);
      typed = type_same a w (omega arith) inside ∙ c.typed;
      named = name_same_at a w (omega arith) inside ∙ c.named;
      sized = len_same a w (omega arith) inside ∙ c.sized;
      used = c.used;
      pos = c.pos;
      few = c.few;
    }

pub IsChain-append :
    (nv : Nvram) (ps : List Entry) (p : Entry) (w e : ℕ)
    → IsChain nv w ps e
    → IsEntry nv e p
    → IsChain nv w (ps ++ (p ∷ [])) (e + p.blocks * 16)
IsChain-append nv [] p w e c h = rw c (h, refl)
IsChain-append nv (q ∷ ps) p w e (c, cs) h = (c, IsChain-append nv ps p (w + q.blocks * 16) e cs h)
