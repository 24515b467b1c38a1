-- ===== src/Net/Dhcp/Encode/Writes.antt =====
-- lib/libnet/dhcp.c: each part of `dhcp_encode_options` writes an option.
use slof.Prelude.{
  ℕ, zero, suc, ◌+◌, ◌-◌, ◌/◌, ◌%◌, ◌^◌, ◌≤◌, ◌<◌, ◌≡◌, ◌==◌, ◌∙◌, ap, arith, refl, inl, inr,
  Bool-cases,
}
use slof.Prelude.{List, [], ◌∷◌, ◌++◌, length, if◌then◌else◌}
use slof.Libc.Compare.{strlen}
use slof.Libc.Memory.{Memory, update}
use slof.Nvram.Store.{store}
use slof.Net.Dhcp.Options.{copy_array}
use slof.Net.Dhcp.Options.Layout.{
  Item, item, total, total-append, OptionsAt, OptionsAt-moved, OptionsAt-append, BytesAt,
}
use slof.Net.Dhcp.Options.Combine.{copy_array-byte}
use slof.Net.Dhcp.Encode.{
  Cursor, cursor, put, encode_byte, encode_ip, sum_from, request_from, encode_requests, elements,
  encode_text, encode_arch,
}

-- The options are written from the pointer on, and it is moved behind them.
pub record Writes (c c' : Cursor) (items : List Item) : Type 0 where
  pub options_at : OptionsAt c'.memory c.options items
  pub next : c'.options ≡ c.options + total items
  pub below : (j : ℕ) → j < c.options → c'.memory j ≡ c.memory j

pub Writes-none : (c : Cursor) → Writes c c []
Writes-none c = record { options_at = tt; next = omega arith; below = λ j h. refl }

pub Writes-trans :
    (c c' c'' : Cursor) (xs ys : List Item)
    → Writes c c' xs
    → Writes c' c'' ys
    → Writes c c'' (xs ++ ys)
Writes-trans c c' c'' xs ys w v = record {
  options_at =
      OptionsAt-append c''.memory c.options xs ys
        (OptionsAt-moved c'.memory c''.memory c.options c.options xs
          (λ i k. v.below (c.options + i) (omega (arith, w.next))) w.options_at)
        (rw w.next at (v.options_at));
  next = omega (arith, w.next, v.next, total-append xs ys);
  below = λ j k. v.below j (omega (arith, w.next)) ∙ w.below j k;
}

Writes-item :
    (c c' : Cursor) (code : ℕ) (content : List ℕ)
    → 0 < code
    → code < 255
    → c'.memory c.options ≡ code
    → c'.memory (c.options + 1) ≡ length content
    → BytesAt c'.memory (c.options + 2) content
    → c'.options ≡ c.options + (2 + length content)
    → ((j : ℕ) → j < c.options → c'.memory j ≡ c.memory j)
    → Writes c c' (item code content ∷ [])
Writes-item c c' code content lo hi a b s n below = record {
  options_at = ((a, lo, hi, b, s), tt);
  next = omega (arith, n);
  below = below;
}

pub encode_byte-Writes :
    (code value : ℕ) (c : Cursor)
    → 0 < code
    → code < 255
    → Writes c (encode_byte code value c) (item code (value ∷ []) ∷ [])
unfolding encode_byte put
encode_byte-Writes code value c lo hi =
    Writes-item c (encode_byte code value c) code (value ∷ []) lo hi (ground arith) (ground arith)
      (ground arith, tt) (omega arith) (λ j h. ground arith)

-- The four bytes of a number, the top one first.
abbrev pub bytes_of : ℕ → List ℕ
bytes_of ip = ip / 256 ^ 3 % 256 ∷ ip / 256 ^ 2 % 256 ∷ ip / 256 % 256 ∷ ip % 256 ∷ []

abbrev pub when : ℕ → Item → List Item
when flag i = if flag == 0 then [] else i ∷ []

pub encode_ip-Writes :
    (flag code ip : ℕ) (c : Cursor)
    → 0 < code
    → code < 255
    → Writes c (encode_ip flag code ip c) (when flag (item code (bytes_of ip)))
unfolding encode_ip put store
encode_ip-Writes flag code ip c lo hi = elim (Bool-cases (flag == 0)) [
  | inl e ↦ rw e (Writes-none c)
  | inr e ↦ rw e (
      Writes-item c _ code (bytes_of ip) lo hi (ground arith) (ground arith)
        (ground arith, (ground arith, (ground arith, (ground arith, tt)))) (omega arith)
        (λ j h. ground arith))
]

pub encode_arch-Writes :
    (flag arch : ℕ) (c : Cursor)
    → Writes c (encode_arch flag arch c) (when flag (item 93 (arch / 256 % 256 ∷ arch % 256 ∷ [])))
unfolding encode_arch put
encode_arch-Writes flag arch c = elim (Bool-cases (flag == 0)) [
  | inl e ↦ rw e (Writes-none c)
  | inr e ↦ rw e (
      Writes-item c _ 93 (arch / 256 % 256 ∷ arch % 256 ∷ []) (omega arith) (omega arith)
        (ground arith) (ground arith) (ground arith, (ground arith, tt)) (omega arith)
        (λ j h. ground arith))
]

-- The indices from `i` on whose elements are set.
unfoldable pub requested : ℕ → (ℕ → ℕ) → ℕ → List ℕ
requested zero list i = []
requested (suc left) list i =
    if list i == 0 then requested left list (i + 1) else i ∷ requested left list (i + 1)

-- The elements of the list are 0 or 1.
abbrev pub IsFlags : (ℕ → ℕ) → Type 0
IsFlags list = (i : ℕ) → list i ≤ 1

sum_from-requested :
    (left : ℕ) (list : ℕ → ℕ) (i sum : ℕ)
    → IsFlags list
    → sum + left < 2 ^ 16
    → sum_from left list i sum ≡ sum + length (requested left list i)
unfolding sum_from requested
sum_from-requested zero list i sum f h = omega arith
sum_from-requested (suc left) list i sum f h =
    ground (arith, f i, sum_from-requested left list (i + 1) ((sum + list i) % 2 ^ 16) f)

length-requested : (left : ℕ) (list : ℕ → ℕ) (i : ℕ) → length (requested left list i) ≤ left
unfolding requested
length-requested zero list i = omega arith
length-requested (suc left) list i = ground (arith, length-requested left list (i + 1))

-- A loop that writes bytes from the pointer on.
record Puts (c c' : Cursor) (bytes : List ℕ) : Type 0 where
  bytes_at : BytesAt c'.memory c.options bytes
  next : c'.options ≡ c.options + length bytes
  below : (j : ℕ) → j < c.options → c'.memory j ≡ c.memory j

Puts-cons :
    (c c' : Cursor) (b : ℕ) (bytes : List ℕ)
    → Puts (cursor (update c.memory c.options b) (c.options + 1)) c' bytes
    → Puts c c' (b ∷ bytes)
Puts-cons c c' b bytes p = record {
  bytes_at = (ground (arith, p.below c.options), p.bytes_at);
  next = omega (arith, p.next);
  below = λ j h. ground (arith, p.below j);
}

request_from-Puts :
    (left : ℕ) (list : ℕ → ℕ) (i : ℕ) (c : Cursor)
    → i + left ≤ 256
    → Puts c (request_from left list i c) (requested left list i)
unfolding request_from requested
request_from-Puts zero list i c h = record {
  bytes_at = tt;
  next = omega arith;
  below = λ j k. refl;
}
request_from-Puts (suc left) list i c h = elim (Bool-cases (list i == 0)) [
  | inl e ↦ rw e (request_from-Puts left list (i + 1) c (omega arith))
  | inr e ↦
      let byte : i % 256 ≡ i = omega arith in
      rw (e, byte)
        (Puts-cons c _ i (requested left list (i + 1)) (
          request_from-Puts left list (i + 1) (cursor (update c.memory c.options i) (c.options + 1))
            (omega arith)))
]

pub encode_requests-Writes :
    (list : ℕ → ℕ) (c : Cursor)
    → IsFlags list
    → length (requested 256 list 0) < 256
    → Writes c
        (encode_requests list c)
        (when (length (requested 256 list 0)) (item 55 (requested 256 list 0)))
unfolding encode_requests put
encode_requests-Writes list c f h =
    let count : sum_from 256 list 0 0 ≡ length (requested 256 list 0) =
      sum_from-requested 256 list 0 0 f (omega arith) ∙ omega arith in
    let byte : length (requested 256 list 0) % 256 ≡ length (requested 256 list 0) = omega arith in
    rw (count, byte)
      (elim (Bool-cases (length (requested 256 list 0) == 0)) [
        | inl e ↦ rw e (Writes-none c)
        | inr e ↦
            let p =
              request_from-Puts 256 list 0
                (cursor
                  (update (update c.memory c.options 55) (c.options + 1)
                    (length (requested 256 list 0)))
                  (c.options + 2))
                (omega arith) in
            rw e (
              Writes-item c _ 55 (requested 256 list 0) (omega arith) (omega arith)
                (ground (arith, p.below c.options)) (ground (arith, p.below (c.options + 1)))
                p.bytes_at (omega (arith, p.next)) (λ j k. ground (arith, p.below j)))
      ])

elements-at :
    (n : ℕ) (array m : ℕ → ℕ) (i a : ℕ)
    → ((j : ℕ) → j < n → m (a + j) ≡ array (i + j))
    → BytesAt m a (elements n array i)
unfolding elements
elements-at zero array m i a h = tt
elements-at (suc n) array m i a h =
    let p : a + 0 ≡ a = omega arith in
    let q : i + 0 ≡ i = omega arith in
    (
      rw (p, q) at (h 0 (omega arith)),
      elements-at n array m (i + 1) (a + 1) λ j k.
          (let r : a + 1 + j ≡ a + suc j = omega arith in
            let s : i + 1 + j ≡ i + suc j = omega arith in rw (r, s) (h (suc j) (omega arith))),
    )

pub length-elements : (n : ℕ) (array : ℕ → ℕ) (i : ℕ) → length (elements n array i) ≡ n
unfolding elements
length-elements zero array i = refl
length-elements (suc n) array i = omega (arith, length-elements n array (i + 1))

-- The text of an array and its terminator.
abbrev pub text_bytes : (ℕ → ℕ) → List ℕ
text_bytes array = elements (strlen (elements 256 array 0) + 1) array 0

pub encode_text-Writes :
    (flag code : ℕ) (array : ℕ → ℕ) (c : Cursor)
    → 0 < code
    → code < 255
    → strlen (elements 256 array 0) < 255
    → Writes c (encode_text flag code array c) (when flag (item code (text_bytes array)))
unfolding encode_text put
encode_text-Writes flag code array c lo hi h = elim (Bool-cases (flag == 0)) [
  | inl e ↦ rw e (Writes-none c)
  | inr e ↦
      let n = strlen (elements 256 array 0) + 1 in
      let byte : n % 256 ≡ n = omega arith in
      let begun : Memory = update (update c.memory c.options code) (c.options + 1) n in
      let copy = λ (j : ℕ). copy_array-byte n begun (c.options + 2) array 0 j in
      rw (e, byte)
        (Writes-item c (cursor (copy_array n begun (c.options + 2) array 0) (c.options + (n + 2)))
          code (text_bytes array) lo hi (ground (arith, copy c.options))
          (ground (arith, copy (c.options + 1), length-elements n array 0))
          (elements-at n array _ 0 (c.options + 2)
            (λ j k. ground (arith, copy (c.options + 2 + j), ap array (there j c.options))))
          (omega (arith, length-elements n array 0)) (λ j k. ground (arith, copy j)))
]
  where
    there : (j a : ℕ) → 0 + (a + 2 + j - (a + 2)) ≡ 0 + j
    there j a = omega arith
