-- ===== src/Tpm/Sha512.antt =====
-- lib/libtpm/sha512.c
use slof.Prelude.{ℕ, zero, suc, ◌+◌, ◌-◌, ◌/◌, ◌%◌, ◌^◌, bit_and, bit_xor}
use slof.Prelude.{List, [], ◌∷◌, ◌++◌, length, get_or}
use slof.Tpm.{take, rotate_right, words, bytes_of_words, Hash, sha_do}

abbrev rotr : ℕ → ℕ → ℕ
rotr v n = rotate_right 64 v n

abbrev ch : ℕ → ℕ → ℕ → ℕ
ch x y z = bit_xor (bit_and x y) (bit_and (bit_xor x 0xffffffffffffffff) z)

abbrev maj : ℕ → ℕ → ℕ → ℕ
maj x y z = bit_xor (bit_xor (bit_and x y) (bit_and x z)) (bit_and y z)

abbrev sum0 : ℕ → ℕ
sum0 x = bit_xor (bit_xor (rotr x 28) (rotr x 34)) (rotr x 39)

abbrev sum1 : ℕ → ℕ
sum1 x = bit_xor (bit_xor (rotr x 14) (rotr x 18)) (rotr x 41)

abbrev sigma0 : ℕ → ℕ
sigma0 x = bit_xor (bit_xor (rotr x 1) (rotr x 8)) (x / 2 ^ 7)

abbrev sigma1 : ℕ → ℕ
sigma1 x = bit_xor (bit_xor (rotr x 19) (rotr x 61)) (x / 2 ^ 6)

abbrev sha_ko : List ℕ
sha_ko =
    0x428a2f98d728ae22 ∷ 0x7137449123ef65cd ∷ 0xb5c0fbcfec4d3b2f ∷ 0xe9b5dba58189dbbc
    ∷ 0x3956c25bf348b538 ∷ 0x59f111f1b605d019 ∷ 0x923f82a4af194f9b ∷ 0xab1c5ed5da6d8118
    ∷ 0xd807aa98a3030242 ∷ 0x12835b0145706fbe ∷ 0x243185be4ee4b28c ∷ 0x550c7dc3d5ffb4e2
    ∷ 0x72be5d74f27b896f ∷ 0x80deb1fe3b1696b1 ∷ 0x9bdc06a725c71235 ∷ 0xc19bf174cf692694
    ∷ 0xe49b69c19ef14ad2 ∷ 0xefbe4786384f25e3 ∷ 0x0fc19dc68b8cd5b5 ∷ 0x240ca1cc77ac9c65
    ∷ 0x2de92c6f592b0275 ∷ 0x4a7484aa6ea6e483 ∷ 0x5cb0a9dcbd41fbd4 ∷ 0x76f988da831153b5
    ∷ 0x983e5152ee66dfab ∷ 0xa831c66d2db43210 ∷ 0xb00327c898fb213f ∷ 0xbf597fc7beef0ee4
    ∷ 0xc6e00bf33da88fc2 ∷ 0xd5a79147930aa725 ∷ 0x06ca6351e003826f ∷ 0x142929670a0e6e70
    ∷ 0x27b70a8546d22ffc ∷ 0x2e1b21385c26c926 ∷ 0x4d2c6dfc5ac42aed ∷ 0x53380d139d95b3df
    ∷ 0x650a73548baf63de ∷ 0x766a0abb3c77b2a8 ∷ 0x81c2c92e47edaee6 ∷ 0x92722c851482353b
    ∷ 0xa2bfe8a14cf10364 ∷ 0xa81a664bbc423001 ∷ 0xc24b8b70d0f89791 ∷ 0xc76c51a30654be30
    ∷ 0xd192e819d6ef5218 ∷ 0xd69906245565a910 ∷ 0xf40e35855771202a ∷ 0x106aa07032bbd1b8
    ∷ 0x19a4c116b8d2d0c8 ∷ 0x1e376c085141ab53 ∷ 0x2748774cdf8eeb99 ∷ 0x34b0bcb5e19b48a8
    ∷ 0x391c0cb3c5c95a63 ∷ 0x4ed8aa4ae3418acb ∷ 0x5b9cca4f7763e373 ∷ 0x682e6ff3d6b2b8a3
    ∷ 0x748f82ee5defb2fc ∷ 0x78a5636f43172f60 ∷ 0x84c87814a1f0ab72 ∷ 0x8cc702081a6439ec
    ∷ 0x90befffa23631e28 ∷ 0xa4506cebde82bde9 ∷ 0xbef9a3f7b2c67915 ∷ 0xc67178f2e372532b
    ∷ 0xca273eceea26619c ∷ 0xd186b8c721c0c207 ∷ 0xeada7dd6cde0eb1e ∷ 0xf57d4f7fee6ed178
    ∷ 0x06f067aa72176fba ∷ 0x0a637dc5a2c898a6 ∷ 0x113f9804bef90dae ∷ 0x1b710b35131c471b
    ∷ 0x28db77f523047d84 ∷ 0x32caab7b40c72493 ∷ 0x3c9ebe0a15c9bebc ∷ 0x431d67c49c100d4c
    ∷ 0x4cc5d4becb3e42b6 ∷ 0x597f299cfc657e2a ∷ 0x5fcb6fab3ad6faec ∷ 0x6c44198c4a475817 ∷ []

-- The words from 16 on.
unfoldable pub extend : ℕ → List ℕ → List ℕ
extend zero w = w
extend (suc n) w =
    let t = length w in
    let word =
      sigma1 (get_or w (t - 2) 0)
      + get_or w (t - 7) 0
      + sigma0 (get_or w (t - 15) 0)
      + get_or w (t - 16) 0 in
    extend n (w ++ (word % 2 ^ 64 ∷ []))

pub record State : Type 0 where
  pub a : ℕ
  pub b : ℕ
  pub c : ℕ
  pub d : ℕ
  pub e : ℕ
  pub f : ℕ
  pub g : ℕ
  pub h : ℕ

-- The rounds, with the constants and the words from one on.
unfoldable pub rounds : List ℕ → List ℕ → State → State
rounds ko [] s = s
rounds [] (wt ∷ w) s = s
rounds (k ∷ ko) (wt ∷ w) s =
    let t1 = (s.h + sum1 s.e + ch s.e s.f s.g + k + wt) % 2 ^ 64 in
    let t2 = (sum0 s.a + maj s.a s.b s.c) % 2 ^ 64 in
    rounds ko w (record {
      a = (t1 + t2) % 2 ^ 64;
      b = s.a;
      c = s.b;
      d = s.c;
      e = (s.d + t1) % 2 ^ 64;
      f = s.e;
      g = s.f;
      h = s.g;
    })

-- `sha512_block` of the bytes of `w`.
unfoldable pub sha512_block : List ℕ → List ℕ → List ℕ
sha512_block w hs =
    let s = rounds sha_ko (extend 64 (words 8 16 w)) (record {
      a = get_or hs 0 0;
      b = get_or hs 1 0;
      c = get_or hs 2 0;
      d = get_or hs 3 0;
      e = get_or hs 4 0;
      f = get_or hs 5 0;
      g = get_or hs 6 0;
      h = get_or hs 7 0;
    }) in
    (get_or hs 0 0 + s.a) % 2 ^ 64
    ∷ (get_or hs 1 0 + s.b) % 2 ^ 64
    ∷ (get_or hs 2 0 + s.c) % 2 ^ 64
    ∷ (get_or hs 3 0 + s.d) % 2 ^ 64
    ∷ (get_or hs 4 0 + s.e) % 2 ^ 64
    ∷ (get_or hs 5 0 + s.f) % 2 ^ 64
    ∷ (get_or hs 6 0 + s.g) % 2 ^ 64
    ∷ (get_or hs 7 0 + s.h) % 2 ^ 64
    ∷ []

unfoldable pub sha512_hash : Hash
sha512_hash = record {
  block_len = 128;
  limit = 112;
  cleared = 128;
  bits_width = 64;
  do_block = sha512_block;
}

unfoldable pub sha512_do : List ℕ → List ℕ → List ℕ
sha512_do hs data32 = sha_do sha512_hash data32 hs

-- `sha384`: the bytes of the hash.
unfoldable pub sha384 : List ℕ → List ℕ
sha384 data32 = take 48 (
    bytes_of_words 8 (
      sha512_do
        (0xcbbb9d5dc1059ed8 ∷ 0x629a292a367cd507 ∷ 0x9159015a3070dd17 ∷ 0x152fecd8f70e5939
          ∷ 0x67332667ffc00b31 ∷ 0x8eb44a8768581511 ∷ 0xdb0c2e0d64f98fa7 ∷ 0x47b5481dbefa4fa4 ∷ [])
        data32))

-- `sha512`: the bytes of the hash.
unfoldable pub sha512 : List ℕ → List ℕ
sha512 data32 = bytes_of_words 8 (
    sha512_do
      (0x6a09e667f3bcc908 ∷ 0xbb67ae8584caa73b ∷ 0x3c6ef372fe94f82b ∷ 0xa54ff53a5f1d36f1
        ∷ 0x510e527fade682d1 ∷ 0x9b05688c2b3e6c1f ∷ 0x1f83d9abfb41bd6b ∷ 0x5be0cd19137e2179 ∷ [])
      data32)
