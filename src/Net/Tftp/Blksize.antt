-- ===== src/Net/Tftp/Blksize.antt =====
-- lib/libnet/tftp.c: which option of an OACK packet `get_blksize` finds.
use slof.Prelude.{ℕ, suc, ◌+◌, ◌-◌, ◌%◌, ◌^◌, ◌≡◌, ◌∙◌, ap, arith, refl, ltb}
use slof.Prelude.{◌&&◌, if◌then◌else◌, none, List, [], ◌∷◌}
use slof.Libc.Memory.{Memory}
use slof.Libc.Number.{strtoul}
use slof.Libc.Search.{strchr, strchr_from, drop}
use slof.Net.Tftp.{starts_with, blksize_name, blksize_from, bytes_from, get_blksize}

-- The library's `strchr` does not find the terminator.
strchr_from-zero : (s : List ℕ) (i : ℕ) → strchr_from s 0 i ≡ none
unfolding strchr_from
strchr_from-zero [] i = refl
strchr_from-zero (x ∷ s) i = ground (arith, strchr_from-zero s (i + 1))

strchr-zero : (s : List ℕ) → strchr s 0 ≡ none
unfolding strchr
strchr-zero s = strchr_from-zero s 0

blksize_from-first :
    (fuel left : ℕ) (buffer : List ℕ)
    → blksize_from (suc fuel) left buffer ≡ (
        if ltb 0 left && starts_with buffer blksize_name
        then (strtoul (drop 8 buffer) 10).0 % 2 ^ 16
        else 0)
unfolding blksize_from
blksize_from-first fuel left buffer = rw (strchr-zero buffer) (ground arith)

-- get_blksize returns the number behind blksize, cut to 16 bits, where the packet is longer than
-- 10 bytes and blksize is the first option, and 0 otherwise, whatever options follow.
pub get_blksize-first :
    (m : Memory) (buffer len : ℕ)
    → let options = bytes_from (len + 1518) m (buffer + 10) in
      get_blksize m buffer len ≡ (
        if ltb 10 len && starts_with options blksize_name
        then (strtoul (drop 8 options) 10).0 % 2 ^ 16
        else 0)
unfolding get_blksize
get_blksize-first m buffer len =
    ap (λ fuel. blksize_from fuel (len - 10) options) one_more
    ∙ blksize_from-first (len - 10) (len - 10) options
    ∙ ap
        (λ b.
          if b && starts_with options blksize_name
          then (strtoul (drop 8 options) 10).0 % 2 ^ 16
          else 0)
        not_empty
  where
    options : List ℕ
    options = bytes_from (len + 1518) m (buffer + 10)

    one_more : len - 10 + 1 ≡ suc (len - 10)
    one_more = omega arith

    not_empty : ltb 0 (len - 10) ≡ ltb 10 len
    not_empty = ground arith
