-- ===== src/Tpm/Sha256.antt =====
-- lib/libtpm/sha256.c
use slof.Prelude.{ℕ, zero, suc, ◌+◌, ◌-◌, ◌/◌, ◌%◌, ◌^◌, bit_and, bit_or, bit_xor}
use slof.Prelude.{List, [], ◌∷◌, ◌++◌, length, get_or}
use slof.Tpm.{rotate_right, words, bytes_of_words, Hash, sha_do}

abbrev rotr : ℕ → ℕ → ℕ
rotr v n = rotate_right 32 v n

abbrev ch : ℕ → ℕ → ℕ → ℕ
ch x y z = bit_or (bit_and x y) (bit_and (bit_xor x 0xffffffff) z)

abbrev maj : ℕ → ℕ → ℕ → ℕ
maj x y z = bit_or (bit_or (bit_and x y) (bit_and x z)) (bit_and y z)

abbrev sum0 : ℕ → ℕ
sum0 x = bit_xor (bit_xor (rotr x 2) (rotr x 13)) (rotr x 22)

abbrev sum1 : ℕ → ℕ
sum1 x = bit_xor (bit_xor (rotr x 6) (rotr x 11)) (rotr x 25)

abbrev sigma0 : ℕ → ℕ
sigma0 x = bit_xor (bit_xor (rotr x 7) (rotr x 18)) (x / 2 ^ 3)

abbrev sigma1 : ℕ → ℕ
sigma1 x = bit_xor (bit_xor (rotr x 17) (rotr x 19)) (x / 2 ^ 10)

abbrev sha_ko : List ℕ
sha_ko =
    0x428a2f98 ∷ 0x71374491 ∷ 0xb5c0fbcf ∷ 0xe9b5dba5 ∷ 0x3956c25b ∷ 0x59f111f1 ∷ 0x923f82a4
    ∷ 0xab1c5ed5 ∷ 0xd807aa98 ∷ 0x12835b01 ∷ 0x243185be ∷ 0x550c7dc3 ∷ 0x72be5d74 ∷ 0x80deb1fe
    ∷ 0x9bdc06a7 ∷ 0xc19bf174 ∷ 0xe49b69c1 ∷ 0xefbe4786 ∷ 0x0fc19dc6 ∷ 0x240ca1cc ∷ 0x2de92c6f
    ∷ 0x4a7484aa ∷ 0x5cb0a9dc ∷ 0x76f988da ∷ 0x983e5152 ∷ 0xa831c66d ∷ 0xb00327c8 ∷ 0xbf597fc7
    ∷ 0xc6e00bf3 ∷ 0xd5a79147 ∷ 0x06ca6351 ∷ 0x14292967 ∷ 0x27b70a85 ∷ 0x2e1b2138 ∷ 0x4d2c6dfc
    ∷ 0x53380d13 ∷ 0x650a7354 ∷ 0x766a0abb ∷ 0x81c2c92e ∷ 0x92722c85 ∷ 0xa2bfe8a1 ∷ 0xa81a664b
    ∷ 0xc24b8b70 ∷ 0xc76c51a3 ∷ 0xd192e819 ∷ 0xd6990624 ∷ 0xf40e3585 ∷ 0x106aa070 ∷ 0x19a4c116
    ∷ 0x1e376c08 ∷ 0x2748774c ∷ 0x34b0bcb5 ∷ 0x391c0cb3 ∷ 0x4ed8aa4a ∷ 0x5b9cca4f ∷ 0x682e6ff3
    ∷ 0x748f82ee ∷ 0x78a5636f ∷ 0x84c87814 ∷ 0x8cc70208 ∷ 0x90befffa ∷ 0xa4506ceb ∷ 0xbef9a3f7
    ∷ 0xc67178f2 ∷ []

-- The words from 16 on.
unfoldable pub extend : ℕ → List ℕ → List ℕ
extend zero w = w
extend (suc n) w =
    let t = length w in
    let word =
      sigma1 (get_or w (t - 2) 0)
      + get_or w (t - 7) 0
      + sigma0 (get_or w (t - 15) 0)
      + get_or w (t - 16) 0 in
    extend n (w ++ (word % 2 ^ 32 ∷ []))

pub record State : Type 0 where
  pub a : ℕ
  pub b : ℕ
  pub c : ℕ
  pub d : ℕ
  pub e : ℕ
  pub f : ℕ
  pub g : ℕ
  pub h : ℕ

-- The rounds, with the constants and the words from one on.
unfoldable pub rounds : List ℕ → List ℕ → State → State
rounds ko [] s = s
rounds [] (wt ∷ w) s = s
rounds (k ∷ ko) (wt ∷ w) s =
    let t1 = (s.h + sum1 s.e + ch s.e s.f s.g + k + wt) % 2 ^ 32 in
    let t2 = (sum0 s.a + maj s.a s.b s.c) % 2 ^ 32 in
    rounds ko w (record {
      a = (t1 + t2) % 2 ^ 32;
      b = s.a;
      c = s.b;
      d = s.c;
      e = (s.d + t1) % 2 ^ 32;
      f = s.e;
      g = s.f;
      h = s.g;
    })

-- `sha256_block` of the bytes of `w`.
unfoldable pub sha256_block : List ℕ → List ℕ → List ℕ
sha256_block w hs =
    let s = rounds sha_ko (extend 48 (words 4 16 w)) (record {
      a = get_or hs 0 0;
      b = get_or hs 1 0;
      c = get_or hs 2 0;
      d = get_or hs 3 0;
      e = get_or hs 4 0;
      f = get_or hs 5 0;
      g = get_or hs 6 0;
      h = get_or hs 7 0;
    }) in
    (get_or hs 0 0 + s.a) % 2 ^ 32
    ∷ (get_or hs 1 0 + s.b) % 2 ^ 32
    ∷ (get_or hs 2 0 + s.c) % 2 ^ 32
    ∷ (get_or hs 3 0 + s.d) % 2 ^ 32
    ∷ (get_or hs 4 0 + s.e) % 2 ^ 32
    ∷ (get_or hs 5 0 + s.f) % 2 ^ 32
    ∷ (get_or hs 6 0 + s.g) % 2 ^ 32
    ∷ (get_or hs 7 0 + s.h) % 2 ^ 32
    ∷ []

unfoldable pub sha256_hash : Hash
sha256_hash = record {
  block_len = 64;
  limit = 56;
  cleared = 60;
  bits_width = 32;
  do_block = sha256_block;
}

unfoldable pub sha256_do : List ℕ → List ℕ → List ℕ
sha256_do hs data32 = sha_do sha256_hash data32 hs

-- `sha256`: the bytes of the hash.
unfoldable pub sha256 : List ℕ → List ℕ
sha256 data32 = bytes_of_words 4 (
    sha256_do
      (0x6a09e667 ∷ 0xbb67ae85 ∷ 0x3c6ef372 ∷ 0xa54ff53a ∷ 0x510e527f ∷ 0x9b05688c ∷ 0x1f83d9ab
        ∷ 0x5be0cd19 ∷ [])
      data32)
