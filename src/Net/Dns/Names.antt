-- ===== src/Net/Dns/Names.antt =====
-- lib/libnet/dns.c: `dns_extract_name` on a name of a message.
use slof.Prelude.{
  ℕ, zero, suc, ◌+◌, ◌-◌, ◌*◌, ◌%◌, ◌^◌, ◌≤◌, ◌<◌, ◌≡◌, ◌==◌, ◌∙◌, ap, arith, refl, sym, ltb, leb,
}
use slof.Prelude.{true, false, Option, none, some, List, [], ◌∷◌, ◌++◌, length, length-append}
use mathlib.Core.List.{append_assoc, append-nil}
use slof.Libc.Memory.{Memory}
use slof.Nvram.Store.{load}
use slof.Net.Tftp.{bytes_from}
use slof.Net.Dhcp.Options.Layout.{BytesAt}
use slof.Net.Dns.{name, extract_from, extract_name}

-- A name as it stands in a message, less the terminator.
unfoldable pub encode : List (List ℕ) → List ℕ
encode [] = []
encode (l ∷ ls) = (length l ∷ l) ++ encode ls

-- Labels of 1 to 63 characters.
abbrev pub IsLabels : List (List ℕ) → Type 0
IsLabels [] = Unit {0}
IsLabels (l ∷ ls) = (0 < length l) × (length l < 64) × IsLabels ls

-- The labels stand one behind another from `a` on.
abbrev pub LabelsAt : Memory → ℕ → List (List ℕ) → Type 0
LabelsAt m a [] = Unit {0}
LabelsAt m a (l ∷ ls) = (m a ≡ length l) × BytesAt m (a + 1) l × LabelsAt m (a + (length l + 1)) ls

bytes_from-BytesAt :
    (m : Memory) (a : ℕ) (bytes : List ℕ)
    → BytesAt m a bytes
    → bytes_from (length bytes) m a ≡ bytes
unfolding bytes_from
bytes_from-BytesAt m a [] h = refl
bytes_from-BytesAt m a (b ∷ bytes) (e, h) =
    ap (λ x. x ∷ bytes_from (length bytes) m (a + 1)) e
    ∙ ap (λ l. b ∷ l) (bytes_from-BytesAt m (a + 1) bytes h)

-- One label.
extract_from-label :
    (fuel : ℕ) (m : Memory) (dnsh ptr : ℕ) (next : Option ℕ) (before l : List ℕ)
    → 0 < length l
    → length l < 64
    → m ptr ≡ length l
    → BytesAt m (ptr + 1) l
    → length before + length l + 1 ≤ 255
    → extract_from (suc fuel) m dnsh ptr next before
      ≡ extract_from fuel m dnsh (ptr + (length l + 1)) next (before ++ (length l ∷ l))
unfolding extract_from
extract_from-label fuel m dnsh ptr next before l pos lt e h fits =
    rw (got, not_compressed, not_zero, not_signed, not_long, e) refl
  where
    not_zero : (m ptr == 0) ≡ false
    not_zero = ground (arith, e, pos)

    not_signed : leb 0x80 (m ptr) ≡ false
    not_signed = ground (arith, e, lt)

    not_long : ltb 255 (length before + m ptr + 1) ≡ false
    not_long = ground (arith, e, fits)

    not_compressed : leb 0xc0 (m ptr) ≡ false
    not_compressed = ground (arith, e, lt)

    got : before ++ bytes_from (m ptr + 1) m ptr ≡ before ++ (length l ∷ l)
    got =
        ap (λ n. before ++ bytes_from n m ptr) (omega (arith, e))
        ∙ ap (λ bytes. before ++ bytes) (bytes_from-BytesAt m ptr (length l ∷ l) (e, h))

-- All labels.
extract_from-labels :
    (ls : List (List ℕ)) (fuel left : ℕ) (m : Memory) (dnsh ptr : ℕ) (next : Option ℕ)
    (before : List ℕ)
    → IsLabels ls
    → LabelsAt m ptr ls
    → length before + length (encode ls) ≤ 255
    → fuel ≡ length ls + left
    → extract_from fuel m dnsh ptr next before
      ≡ extract_from left m dnsh (ptr + length (encode ls)) next (before ++ encode ls)
unfolding encode
extract_from-labels [] fuel left m dnsh ptr next before v h fits e =
    ap (λ n. extract_from n m dnsh ptr next before) (omega (arith, e))
    ∙ ap (λ a. extract_from left m dnsh a next before) (omega arith)
    ∙ ap (λ l. extract_from left m dnsh (ptr + 0) next l) (sym (append-nil before))
extract_from-labels (l ∷ ls) zero left m dnsh ptr next before v h fits e = absurd (omega (arith, e))
extract_from-labels (l ∷ ls) (suc fuel) left m dnsh ptr next before (pos, lt, v) (e, b, h) fits f =
    extract_from-label fuel m dnsh ptr next before l pos lt e b
      (omega (arith, fits, length-append l (encode ls)))
    ∙ extract_from-labels ls fuel left m dnsh (ptr + (length l + 1)) next (before ++ (length l ∷ l))
        v h (omega (arith, fits, length-append l (encode ls), length-append before (length l ∷ l)))
        (omega (arith, f))
    ∙ ap (λ a. extract_from left m dnsh a next ((before ++ (length l ∷ l)) ++ encode ls))
        (omega (arith, length-append l (encode ls)))
    ∙ ap (λ x. extract_from left m dnsh (ptr + length (encode (l ∷ ls))) next x)
        (append_assoc before (length l ∷ l) (encode ls))

pub two_each : (ls : List (List ℕ)) → IsLabels ls → length ls * 2 ≤ length (encode ls)
unfolding encode
two_each [] v = omega arith
two_each (l ∷ ls) (pos, lt, v) = omega (arith, pos, two_each ls v, length-append l (encode ls))

-- A name in a message, its terminator included.
pub record NameAt (m : Memory) (ptr : ℕ) (ls : List (List ℕ)) : Type 0 where
  pub is_labels : IsLabels ls
  pub at : LabelsAt m ptr ls
  pub terminated : m (ptr + length (encode ls)) ≡ 0
  pub short : length (encode ls) ≤ 255

extract_from-end :
    (fuel : ℕ) (m : Memory) (dnsh ptr : ℕ) (next : Option ℕ) (before : List ℕ)
    → m ptr ≡ 0
    → extract_from (suc fuel) m dnsh ptr next before
      ≡ some (name (elim next as (λ _. ℕ) [ none ↦ ptr + 1 | some next ↦ next ]) before)
unfolding extract_from
extract_from-end fuel m dnsh ptr next before e = ground (arith, e)

pub extract_from-NameAt :
    (ls : List (List ℕ)) (fuel : ℕ) (m : Memory) (dnsh ptr : ℕ) (next : Option ℕ)
    → NameAt m ptr ls
    → length ls < fuel
    → extract_from fuel m dnsh ptr next []
      ≡ some (
          name
            (elim next as (λ _. ℕ) [ none ↦ ptr + length (encode ls) + 1 | some next ↦ next ])
            (encode ls))
extract_from-NameAt ls fuel m dnsh ptr next h lt =
    extract_from-labels ls fuel (suc (fuel - length ls - 1)) m dnsh ptr next [] h.is_labels h.at
      (omega (arith, h.short)) (omega (arith, lt))
    ∙ extract_from-end (fuel - length ls - 1) m dnsh (ptr + length (encode ls)) next (encode ls)
        h.terminated

pub extract_name-NameAt :
    (ls : List (List ℕ)) (fuel : ℕ) (m : Memory) (dnsh ptr : ℕ)
    → NameAt m ptr ls
    → length ls < fuel
    → extract_name fuel m dnsh ptr ≡ some (name (ptr + length (encode ls) + 1) (encode ls))
unfolding extract_name
extract_name-NameAt ls fuel m dnsh ptr h lt = extract_from-NameAt ls fuel m dnsh ptr none h lt

marked :
    (m : Memory) (ptr offset : ℕ)
    → load 2 m ptr ≡ 0xc000 + offset
    → m (ptr + 1) < 256
    → 0xc0 ≤ m ptr
unfolding load
marked m ptr offset e byte = omega (arith, e, byte)

pub extract_from-reference :
    (fuel : ℕ) (m : Memory) (dnsh ptr : ℕ) (next : Option ℕ) (before : List ℕ) (offset : ℕ)
    → load 2 m ptr ≡ 0xc000 + offset
    → offset < 2 ^ 14
    → m (ptr + 1) < 256
    → extract_from (suc fuel) m dnsh ptr next before
      ≡ extract_from fuel m dnsh (dnsh + offset) (some (ptr + 2)) before
unfolding extract_from
extract_from-reference fuel m dnsh ptr next before offset e lt byte = rw (compressed, target) refl
  where
    compressed : leb 0xc0 (m ptr) ≡ true
    compressed = ground (arith, marked m ptr offset e byte)

    target : load 2 m ptr % 2 ^ 14 ≡ offset
    target = omega (arith, e, lt)

-- A reference to a name.
pub extract_name-reference :
    (ls : List (List ℕ)) (fuel : ℕ) (m : Memory) (dnsh ptr offset : ℕ)
    → load 2 m ptr ≡ 0xc000 + offset
    → offset < 2 ^ 14
    → m (ptr + 1) < 256
    → NameAt m (dnsh + offset) ls
    → length ls < fuel
    → extract_name (suc fuel) m dnsh ptr ≡ some (name (ptr + 2) (encode ls))
unfolding extract_name
extract_name-reference ls fuel m dnsh ptr offset e lt byte h enough =
    extract_from-reference fuel m dnsh ptr none [] offset e lt byte
    ∙ extract_from-NameAt ls fuel m dnsh (dnsh + offset) (some (ptr + 2)) h enough
