-- ===== src/Tpm/Sha1.antt =====
-- lib/libtpm/sha.c
use slof.Prelude.{ℕ, zero, suc, ◌+◌, ◌-◌, ◌%◌, ◌^◌, leb, bit_and, bit_or, bit_xor}
use slof.Prelude.{List, [], ◌∷◌, ◌++◌, length, get_or, if◌then◌else◌}
use slof.Tpm.{rotate_right, words, bytes_of_words, Hash, sha_do}

abbrev rol : ℕ → ℕ → ℕ
rol v n = rotate_right 32 v (32 - n)

-- The words from 16 on.
unfoldable pub extend : ℕ → List ℕ → List ℕ
extend zero w = w
extend (suc n) w =
    let i = length w in
    let tmp =
      bit_xor (bit_xor (bit_xor (get_or w (i - 3) 0) (get_or w (i - 8) 0)) (get_or w (i - 14) 0))
        (get_or w (i - 16) 0) in
    extend n (w ++ (rol tmp 1 ∷ []))

pub record State : Type 0 where
  pub a : ℕ
  pub b : ℕ
  pub c : ℕ
  pub d : ℕ
  pub e : ℕ

-- `f` and the constant of round `i`.
unfoldable pub f : ℕ → State → ℕ
f i s =
    if leb i 19
    then bit_or (bit_and s.b s.c) (bit_and (bit_xor s.b 0xffffffff) s.d)
    else if leb i 39
    then bit_xor (bit_xor s.b s.c) s.d
    else if leb i 59
    then bit_or (bit_or (bit_and s.b s.c) (bit_and s.b s.d)) (bit_and s.c s.d)
    else bit_xor (bit_xor s.b s.c) s.d

unfoldable pub sha_ko : ℕ → ℕ
sha_ko i =
    if leb i 19
    then 0x5a827999
    else if leb i 39
    then 0x6ed9eba1
    else if leb i 59
    then 0x8f1bbcdc
    else 0xca62c1d6

unfoldable pub rounds : List ℕ → ℕ → State → State
rounds [] i s = s
rounds (wi ∷ w) i s =
    let tmp = (rol s.a 5 + f i s + s.e + sha_ko i + wi) % 2 ^ 32 in
    rounds w (i + 1) (record { a = tmp; b = s.a; c = rol s.b 30; d = s.c; e = s.d })

-- `sha1_block` of the bytes of `w`.
unfoldable pub sha1_block : List ℕ → List ℕ → List ℕ
sha1_block w h =
    let s = rounds (extend 64 (words 4 16 w)) 0 (record {
      a = get_or h 0 0;
      b = get_or h 1 0;
      c = get_or h 2 0;
      d = get_or h 3 0;
      e = get_or h 4 0;
    }) in
    (get_or h 0 0 + s.a) % 2 ^ 32
    ∷ (get_or h 1 0 + s.b) % 2 ^ 32
    ∷ (get_or h 2 0 + s.c) % 2 ^ 32
    ∷ (get_or h 3 0 + s.d) % 2 ^ 32
    ∷ (get_or h 4 0 + s.e) % 2 ^ 32
    ∷ []

unfoldable pub sha1_hash : Hash
sha1_hash = record {
  block_len = 64;
  limit = 56;
  cleared = 60;
  bits_width = 64;
  do_block = sha1_block;
}

unfoldable pub sha1_do : List ℕ → List ℕ → List ℕ
sha1_do h data32 = sha_do sha1_hash data32 h

-- `sha1`: the 20 bytes of the hash.
unfoldable pub sha1 : List ℕ → List ℕ
sha1 data32 =
    bytes_of_words 4
      (sha1_do (0x67452301 ∷ 0xefcdab89 ∷ 0x98badcfe ∷ 0x10325476 ∷ 0xc3d2e1f0 ∷ []) data32)
