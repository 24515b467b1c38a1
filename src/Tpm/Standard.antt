-- ===== src/Tpm/Standard.antt =====
-- lib/libtpm: sha.c, sha256.c and sha512.c pad a message as FIPS 180-4 says.
use slof.Prelude.{ℕ, ◌^◌, ◌<◌, arith, refl, List, ◌++◌, length}
use slof.Tpm.Padding.{padding, Padded, sha_do-Padded}
use slof.Tpm.Sha1.{sha1_block, sha1_hash, sha1_do}
use slof.Tpm.Sha256.{sha256_block, sha256_hash, sha256_do}
use slof.Tpm.Sha512.{sha512_block, sha512_hash, sha512_do}

-- For less than 2 ^ 32 bytes, sha1_do hashes, one after another, blocks of 64 bytes that make up the data,
-- a bit, the fewest zeros that leave 8 bytes in the last block, and in these the number of bits.
pub sha1_do-Padded :
    (data32 h : List ℕ)
    → length data32 < 2 ^ 32
    → Padded 64 sha1_block (data32 ++ padding 64 8 (length data32)) h (sha1_do h data32)
unfolding sha1_do sha1_hash
sha1_do-Padded data32 h lt =
    sha_do-Padded 8 sha1_hash
      (record {
        field_le = omega arith;
        limit_pos = omega arith;
        limit_eq = refl;
        cleared_le = omega arith;
      })
      data32 h (omega (arith, lt))

-- For less than 2 ^ 29 bytes, sha256_do hashes, one after another, blocks of 64 bytes that make up the
-- data, a bit, the fewest zeros that leave 8 bytes in the last block, and in these the number of bits.
pub sha256_do-Padded :
    (data32 h : List ℕ)
    → length data32 < 2 ^ 29
    → Padded 64 sha256_block (data32 ++ padding 64 8 (length data32)) h (sha256_do h data32)
unfolding sha256_do sha256_hash
sha256_do-Padded data32 h lt =
    sha_do-Padded 8 sha256_hash
      (record {
        field_le = omega arith;
        limit_pos = omega arith;
        limit_eq = refl;
        cleared_le = omega arith;
      })
      data32 h (omega (arith, lt))

-- For less than 2 ^ 32 bytes, sha512_do, which sha384 and sha512 call, hashes, one after another, blocks
-- of 128 bytes that make up the data, a bit, the fewest zeros that leave 16 bytes in the last block, and
-- in these the number of bits.
pub sha512_do-Padded :
    (data32 h : List ℕ)
    → length data32 < 2 ^ 32
    → Padded 128 sha512_block (data32 ++ padding 128 16 (length data32)) h (sha512_do h data32)
unfolding sha512_do sha512_hash
sha512_do-Padded data32 h lt =
    sha_do-Padded 16 sha512_hash
      (record {
        field_le = omega arith;
        limit_pos = omega arith;
        limit_eq = refl;
        cleared_le = omega arith;
      })
      data32 h (omega (arith, lt))
