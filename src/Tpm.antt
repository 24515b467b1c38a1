-- ===== src/Tpm.antt =====
-- lib/libtpm: the hash functions sha.c, sha256.c and sha512.c, on lists of bytes.
-- The processor is big-endian, so be32_to_cpu and cpu_to_be64 change nothing.
mod Lists
pub mod Padding
pub mod Standard
pub mod Sha1
pub mod Sha256
pub mod Sha512
mod Examples
use slof.Prelude.{ℕ, zero, suc, ◌+◌, ◌-◌, ◌*◌, ◌/◌, ◌%◌, ◌^◌, ltb, leb, bit_and}
use slof.Prelude.{List, [], ◌∷◌, ◌++◌, length, get_or, replicate, if◌then◌else◌}
use slof.Libc.Search.{drop}

abbrev pub take : ℕ → List ℕ → List ℕ
take zero s = []
take (suc n) [] = []
take (suc n) (x ∷ s) = x ∷ take n s

-- A list of bytes as a big-endian number, behind `high`; `n` such numbers of `k` bytes; the bytes of one.
unfoldable pub big_endian : ℕ → List ℕ → ℕ
big_endian high [] = high
big_endian high (b ∷ bytes) = big_endian (high * 256 + b) bytes

unfoldable pub words : ℕ → ℕ → List ℕ → List ℕ
words k zero bytes = []
words k (suc n) bytes = big_endian 0 (take k bytes) ∷ words k n (drop k bytes)

unfoldable pub bytes_of : ℕ → ℕ → List ℕ
bytes_of zero v = []
bytes_of (suc k) v = (v / 256 ^ k % 256) ∷ bytes_of k v

unfoldable pub bytes_of_words : ℕ → List ℕ → List ℕ
bytes_of_words k [] = []
bytes_of_words k (v ∷ words) = bytes_of k v ++ bytes_of_words k words

-- `rotlwi`, `rotrwi` and `rotrdi` on a word of `w` bits.
abbrev pub rotate_right : ℕ → ℕ → ℕ → ℕ
rotate_right w v n = v / 2 ^ n + v % 2 ^ n * 2 ^ (w - n)

-- What differs between the three hash functions: the bytes of a block, those in front of the number of
-- bits in the last one, those that are cleared for it, the bits of the variable that counts, and the
-- function on a block.
pub record Hash : Type 0 where
  pub block_len : ℕ
  pub limit : ℕ
  pub cleared : ℕ
  pub bits_width : ℕ
  pub do_block : List ℕ → List ℕ → List ℕ

-- The loop over the whole blocks of the data, with `h` and `bits`; it leaves the rest of the data.
unfoldable pub whole_blocks : ℕ → Hash → List ℕ → List ℕ → ℕ → List ℕ × ℕ × List ℕ
whole_blocks zero c rest h bits = (h, bits, rest)
whole_blocks (suc fuel) c rest h bits =
    let h' = c.do_block (take c.block_len rest) h in
    let bits' = (bits + c.block_len * 8) % 2 ^ c.bits_width in
    let later = whole_blocks fuel c (drop c.block_len rest) h' bits' in
    if leb c.block_len (length rest) then later else (h, bits, rest)

-- The last block, or the last two: `num` bytes are left.
unfoldable pub last_blocks : Hash → List ℕ → List ℕ → ℕ → List ℕ
last_blocks c rest h bits =
    let num = length rest in
    let total = (bits + num * 8) % 2 ^ c.bits_width in
    let w = rest ++ (0x80 ∷ replicate (c.block_len - (num + 1)) 0) in
    let emptied = replicate c.cleared 0 ++ drop c.cleared w in
    let end = c.block_len - 8 in
    if leb c.limit num
    then c.do_block (take end emptied ++ bytes_of 8 total) (c.do_block w h)
    else c.do_block (take end w ++ bytes_of 8 total) h

-- `sha1_do`, `sha256_do` and `sha512_do`: each round takes bytes of the data.
unfoldable pub sha_do : Hash → List ℕ → List ℕ → List ℕ
sha_do c data32 h =
    let blocks = whole_blocks (length data32) c data32 h 0 in
    last_blocks c (blocks.2) (blocks.0) (blocks.1)
