-- ===== src/Tpm/Examples.antt =====
-- lib/libtpm: the hashes of `abc` that FIPS 180-4 publishes, and the padding of a long message.
use slof.Prelude.{ℕ, ◌≡◌, arith, refl, List, [], ◌∷◌, ◌++◌, replicate}
use slof.Tpm.{big_endian, words, bytes_of, bytes_of_words, whole_blocks, last_blocks, sha_do}
use slof.Tpm.Padding.{padding, Padded}
use slof.Tpm.Sha1.{sha1, sha1_hash, sha1_do}
use slof.Tpm.Sha256.{sha256, sha256_hash, sha256_do}
use slof.Tpm.Sha512.{sha384, sha512, sha512_hash, sha512_do}
use slof.Tpm.Standard.{sha1_do-Padded, sha256_do-Padded, sha512_do-Padded}
use slof.Tpm.Sha1
use slof.Tpm.Sha256
use slof.Tpm.Sha512

abbrev abc : List ℕ
abc = b'a' ∷ b'b' ∷ b'c' ∷ []

sha1-abc : sha1 abc ≡ (
    0xa9 ∷ 0x99 ∷ 0x3e ∷ 0x36 ∷ 0x47 ∷ 0x06 ∷ 0x81 ∷ 0x6a ∷ 0xba ∷ 0x3e ∷ 0x25 ∷ 0x71 ∷ 0x78 ∷ 0x50
    ∷ 0xc2 ∷ 0x6c ∷ 0x9c ∷ 0xd0 ∷ 0xd8 ∷ 0x9d ∷ [])
unfolding sha1 sha1_do sha1_hash Sha1.sha1_block Sha1.extend Sha1.rounds Sha1.f Sha1.sha_ko sha_do
    whole_blocks last_blocks words big_endian bytes_of bytes_of_words
sha1-abc = refl

sha256-abc : sha256 abc ≡ (
    0xba ∷ 0x78 ∷ 0x16 ∷ 0xbf ∷ 0x8f ∷ 0x01 ∷ 0xcf ∷ 0xea ∷ 0x41 ∷ 0x41 ∷ 0x40 ∷ 0xde ∷ 0x5d ∷ 0xae
    ∷ 0x22 ∷ 0x23 ∷ 0xb0 ∷ 0x03 ∷ 0x61 ∷ 0xa3 ∷ 0x96 ∷ 0x17 ∷ 0x7a ∷ 0x9c ∷ 0xb4 ∷ 0x10 ∷ 0xff
    ∷ 0x61 ∷ 0xf2 ∷ 0x00 ∷ 0x15 ∷ 0xad ∷ [])
unfolding sha256 sha256_do sha256_hash Sha256.sha256_block Sha256.extend Sha256.rounds sha_do
    whole_blocks last_blocks words big_endian bytes_of bytes_of_words
sha256-abc = refl

sha384-abc : sha384 abc ≡ (
    0xcb ∷ 0x00 ∷ 0x75 ∷ 0x3f ∷ 0x45 ∷ 0xa3 ∷ 0x5e ∷ 0x8b ∷ 0xb5 ∷ 0xa0 ∷ 0x3d ∷ 0x69 ∷ 0x9a ∷ 0xc6
    ∷ 0x50 ∷ 0x07 ∷ 0x27 ∷ 0x2c ∷ 0x32 ∷ 0xab ∷ 0x0e ∷ 0xde ∷ 0xd1 ∷ 0x63 ∷ 0x1a ∷ 0x8b ∷ 0x60
    ∷ 0x5a ∷ 0x43 ∷ 0xff ∷ 0x5b ∷ 0xed ∷ 0x80 ∷ 0x86 ∷ 0x07 ∷ 0x2b ∷ 0xa1 ∷ 0xe7 ∷ 0xcc ∷ 0x23
    ∷ 0x58 ∷ 0xba ∷ 0xec ∷ 0xa1 ∷ 0x34 ∷ 0xc8 ∷ 0x25 ∷ 0xa7 ∷ [])
unfolding sha384 sha512_do sha512_hash Sha512.sha512_block Sha512.extend Sha512.rounds sha_do
    whole_blocks last_blocks words big_endian bytes_of bytes_of_words
sha384-abc = refl

sha512-abc : sha512 abc ≡ (
    0xdd ∷ 0xaf ∷ 0x35 ∷ 0xa1 ∷ 0x93 ∷ 0x61 ∷ 0x7a ∷ 0xba ∷ 0xcc ∷ 0x41 ∷ 0x73 ∷ 0x49 ∷ 0xae ∷ 0x20
    ∷ 0x41 ∷ 0x31 ∷ 0x12 ∷ 0xe6 ∷ 0xfa ∷ 0x4e ∷ 0x89 ∷ 0xa9 ∷ 0x7e ∷ 0xa2 ∷ 0x0a ∷ 0x9e ∷ 0xee
    ∷ 0xe6 ∷ 0x4b ∷ 0x55 ∷ 0xd3 ∷ 0x9a ∷ 0x21 ∷ 0x92 ∷ 0x99 ∷ 0x2a ∷ 0x27 ∷ 0x4f ∷ 0xc1 ∷ 0xa8
    ∷ 0x36 ∷ 0xba ∷ 0x3c ∷ 0x23 ∷ 0xa3 ∷ 0xfe ∷ 0xeb ∷ 0xbd ∷ 0x45 ∷ 0x4d ∷ 0x44 ∷ 0x23 ∷ 0x64
    ∷ 0x3c ∷ 0xe8 ∷ 0x0e ∷ 0x2a ∷ 0x9a ∷ 0xc9 ∷ 0x4f ∷ 0xa5 ∷ 0x4c ∷ 0xa4 ∷ 0x9f ∷ [])
unfolding sha512 sha512_do sha512_hash Sha512.sha512_block Sha512.extend Sha512.rounds sha_do
    whole_blocks last_blocks words big_endian bytes_of bytes_of_words
sha512-abc = refl

-- A message of 100 bytes.
abbrev long_message : List ℕ
long_message = replicate 100 b'x'

sha1_do-Padded_example :
    Padded 64 Sha1.sha1_block (long_message ++ padding 64 8 100) [] (sha1_do [] long_message)
sha1_do-Padded_example = sha1_do-Padded long_message [] (omega arith)

sha256_do-Padded_example :
    Padded 64 Sha256.sha256_block (long_message ++ padding 64 8 100) [] (sha256_do [] long_message)
sha256_do-Padded_example = sha256_do-Padded long_message [] (omega arith)

sha512_do-Padded_example :
    Padded 128 Sha512.sha512_block
      (long_message ++ padding 128 16 100)
      []
      (sha512_do [] long_message)
sha512_do-Padded_example = sha512_do-Padded long_message [] (omega arith)
