-- ===== src/Net/Dns/Hosts.antt =====
-- lib/libnet/dns.c: the labels of a host name, and the lookup of a host.
use slof.Prelude.{ℕ, suc, ◌+◌, ◌%◌, ◌≤◌, ◌<◌, ◌≡◌, ◌≢◌, ◌==◌, ◌∙◌, ap, arith, refl, sym, ltb}
use slof.Prelude.{false, ◌||◌, some, List, [], ◌∷◌, ◌++◌, length, length-append}
use mathlib.Core.List.{append_assoc, append-nil}
use slof.Libc.Compare.{strlen}
use slof.Net.Dns.Url.{labels_from, hosttodomain}
use slof.Net.Dns.Names.{encode}

-- The characters of a label: neither a dot nor a terminator.
abbrev pub IsPlain : List ℕ → Type 0
IsPlain [] = Unit {0}
IsPlain (c ∷ l) = (c ≢ b'.') × (c ≢ 0) × IsPlain l

-- Labels of at most 63 characters.
abbrev pub IsHost : List (List ℕ) → Type 0
IsHost [] = Unit {0}
IsHost (l ∷ ls) = IsPlain l × (length l < 64) × IsHost ls

-- Labels with dots between them, a first one and more.
unfoldable pub join : List ℕ → List (List ℕ) → List ℕ
join l [] = l
join l (l' ∷ ls) = l ++ (b'.' ∷ join l' ls)

labels_from-plain :
    (label l rest : List ℕ)
    → IsPlain l
    → labels_from label (l ++ rest) ≡ labels_from (label ++ l) rest
unfolding labels_from
labels_from-plain label [] rest h = ap (λ x. labels_from x rest) (sym (append-nil label))
labels_from-plain label (c ∷ l) rest (dot, zero', h) = rw (plain) (
    labels_from-plain (label ++ (c ∷ [])) l rest h
    ∙ ap (λ x. labels_from x rest) (append_assoc label (c ∷ []) l))
  where
    plain : (c == b'.' || c == 0) ≡ false
    plain = ground (arith, dot, zero')

labels_from-end : (l : List ℕ) → length l < 64 → labels_from l [] ≡ some (length l ∷ l)
unfolding labels_from
labels_from-end l h = ground (arith, h)

labels_from-dot :
    (l rest domain : List ℕ)
    → length l < 64
    → labels_from [] rest ≡ some domain
    → labels_from l (b'.' ∷ rest) ≡ some ((length l ∷ l) ++ domain)
unfolding labels_from
labels_from-dot l rest domain h e = rw (e, small, fits) refl
  where
    small : length l % 256 ≡ length l
    small = omega (arith, h)

    fits : ltb 63 (length l) ≡ false
    fits = ground (arith, h)

labels_from-join :
    (l : List ℕ) (ls : List (List ℕ))
    → IsHost (l ∷ ls)
    → labels_from [] (join l ls) ≡ some (encode (l ∷ ls))
unfolding join encode
labels_from-join l [] (p, lt, h) =
    ap (λ x. labels_from [] x) (sym (append-nil l))
    ∙ labels_from-plain [] l [] p
    ∙ labels_from-end l lt
    ∙ ap (λ x. some (length l ∷ x)) (sym (append-nil l))
labels_from-join l (l' ∷ ls) (p, lt, h) =
    labels_from-plain [] l (b'.' ∷ join l' ls) p
    ∙ labels_from-dot l (join l' ls) (encode (l' ∷ ls)) lt (labels_from-join l' ls h)

strlen-plain : (l rest : List ℕ) → IsPlain l → strlen (l ++ rest) ≡ length l + strlen rest
unfolding strlen
strlen-plain [] rest h = omega arith
strlen-plain (c ∷ l) rest (dot, zero', h) = ground (arith, zero', strlen-plain l rest h)

strlen-dot : (s : List ℕ) → strlen (b'.' ∷ s) ≡ suc (strlen s)
unfolding strlen
strlen-dot s = refl

strlen-empty : strlen [] ≡ 0
unfolding strlen
strlen-empty = refl

strlen-join :
    (l : List ℕ) (ls : List (List ℕ))
    → IsHost (l ∷ ls)
    → length (encode (l ∷ ls)) ≡ strlen (join l ls) + 1
unfolding join encode
strlen-join l [] (p, lt, h) = omega (
  arith,
  ap (λ x. strlen x) (append-nil l),
  strlen-plain l [] p,
  ap (λ x. length x) (append-nil l),
  strlen-empty,
)
strlen-join l (l' ∷ ls) (p, lt, h) = omega (
  arith,
  strlen-plain l (b'.' ∷ join l' ls) p,
  strlen-dot (join l' ls),
  strlen-join l' ls h,
  length-append l (encode (l' ∷ ls)),
)

-- For a host name of at most 255 characters, made of labels of at most 63 with dots between them
-- and without a 0, hosttodomain succeeds and returns the labels, each behind its length; less the
-- terminator, that is one byte more than the host name has characters.
pub hosttodomain-join :
    (l : List ℕ) (ls : List (List ℕ))
    → IsHost (l ∷ ls)
    → strlen (join l ls) ≤ 255
    → (hosttodomain (join l ls) ≡ some (encode (l ∷ ls)))
      × (length (encode (l ∷ ls)) ≡ strlen (join l ls) + 1)
unfolding hosttodomain
hosttodomain-join l ls h short = (rw (fits) (labels_from-join l ls h), strlen-join l ls h)
  where
    fits : ltb 255 (strlen (join l ls)) ≡ false
    fits = ground (arith, short)
