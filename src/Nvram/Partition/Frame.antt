-- ===== src/Nvram/Partition/Frame.antt =====
-- lib/libnvram/nvram.c: a header is read from the sixteen bytes at its offset, and no others.
use slof.Prelude.{ℕ, zero, suc, ◌+◌, ◌≤◌, ◌<◌, ◌≡◌, arith, refl, sym, ap, ◌∙◌, ◌∷◌}
use slof.Nvram.Store.{Nvram, u32, read_byte}
use slof.Nvram.Store.Laws.{IsSmall, read_byte-in, read_word-in}
use slof.Nvram.Partition.{
  partition_type, header_checksum, partition_len, name_from, partition_name, sum_from,
  calc_checksum,
}

-- Two memories of one size that agree from `lo` up to `hi`.
pub record Agree (nv nv' : Nvram) (lo hi : ℕ) : Type 0 where
  pub same_size : nv'.size ≡ nv.size
  pub small : IsSmall nv
  pub within : hi ≤ nv.size
  pub same_bytes : (j : ℕ) → lo ≤ j → j < hi → nv'.bytes j ≡ nv.bytes j

module _ {nv nv' : Nvram} {lo hi : ℕ} (a : Agree nv nv' lo hi) where
  small' : IsSmall nv'
  small' = omega (arith, a.same_size, a.small)

  pub byte_same : (j : ℕ) → lo ≤ j → j < hi → read_byte nv' (u32 j) ≡ read_byte nv (u32 j)
  byte_same j h k =
      let unwrap : u32 j ≡ j = omega (arith, a.small, a.within) in
      rw unwrap (
        read_byte-in nv' j small' (omega (arith, a.same_size, a.within))
        ∙ a.same_bytes j h k
        ∙ sym (read_byte-in nv j a.small (omega (arith, a.within))))

  pub sum_same :
      (left j s : ℕ)
      → lo ≤ j
      → j + left ≤ hi
      → sum_from left nv' (u32 j) s ≡ sum_from left nv (u32 j) s
  unfolding sum_from
  sum_same zero j s h k = refl
  sum_same (suc left) j s h k =
      let next : u32 (u32 j + 1) ≡ u32 (j + 1) = omega (arith, a.small, a.within) in
      rw (byte_same j h (omega arith), next) (sum_same left (j + 1) _ (omega arith) (omega arith))

  name_same :
      (left j : ℕ) → lo ≤ j → j + left ≤ hi → name_from left nv' (u32 j) ≡ name_from left nv (u32 j)
  unfolding name_from
  name_same zero j h k = refl
  name_same (suc left) j h k =
      let next : u32 (u32 j + 1) ≡ u32 (j + 1) = omega (arith, a.small, a.within) in
      rw (byte_same j h (omega arith), next)
        (ap (λ t. read_byte nv (u32 j) ∷ t) (name_same left (j + 1) (omega arith) (omega arith)))

  module _ (w : ℕ) (h : lo ≤ w) (k : w + 16 ≤ hi) where
    unwrapped : u32 w ≡ w
    unwrapped = omega (arith, a.small, a.within)

    pub type_same : partition_type nv' w ≡ partition_type nv w
    unfolding partition_type
    type_same = rw unwrapped at (byte_same w h (omega arith))

    pub checksum_same : header_checksum nv' w ≡ header_checksum nv w
    unfolding header_checksum
    checksum_same = byte_same (w + 1) (omega arith) (omega arith)

    pub len_same : partition_len nv' w ≡ partition_len nv w
    unfolding partition_len
    len_same =
        let here : u32 (w + 2) ≡ w + 2 = omega (arith, a.small, a.within) in
        rw here (
          omega (
            arith,
            read_word-in nv' (w + 2) small' (omega (arith, a.same_size, a.within)),
            read_word-in nv (w + 2) a.small (omega (arith, a.within)),
            a.same_bytes (w + 2) (omega arith) (omega arith),
            a.same_bytes (w + 2 + 1) (omega arith) (omega arith),
          ))

    pub name_same_at : partition_name nv' w ≡ partition_name nv w
    unfolding partition_name
    name_same_at = name_same 12 (w + 4) (omega arith) (omega arith)

    pub calc_same : calc_checksum nv' w ≡ calc_checksum nv w
    unfolding calc_checksum
    calc_same = rw (first, sum_same 14 (w + 2) (read_byte nv w) (omega arith) (omega arith))
      where
        first : read_byte nv' w ≡ read_byte nv w
        first = rw unwrapped at (byte_same w h (omega arith))
