-- ===== src/Net/Dhcp/Options/Layout.antt =====
-- lib/libnet/dhcp.c: a region of memory that holds a list of options.
use slof.Prelude.{ℕ, suc, ◌+◌, ◌≤◌, ◌<◌, ◌≡◌, ◌∙◌, arith}
use slof.Prelude.{List, [], ◌∷◌, ◌++◌, length}
use slof.Libc.Memory.{Memory}

-- An option: padding, or a code with its bytes.
pub data Item : Type 0 where
  pad : Item
  item : (code : ℕ) (content : List ℕ) → Item

abbrev pub size : Item → ℕ
size pad = 1
size (item code content) = 2 + length content

abbrev pub total : List Item → ℕ
total [] = 0
total (i ∷ items) = size i + total items

abbrev pub BytesAt : Memory → ℕ → List ℕ → Type 0
BytesAt m a [] = Unit {0}
BytesAt m a (b ∷ bs) = (m a ≡ b) × BytesAt m (a + 1) bs

abbrev pub ItemAt : Memory → ℕ → Item → Type 0
ItemAt m a pad = m a ≡ 0
ItemAt m a (item code content) =
    (m a ≡ code)
    × (0 < code)
    × (code < 255)
    × (m (a + 1) ≡ length content)
    × BytesAt m (a + 2) content

-- The options stand one behind another from `a` on.
abbrev pub OptionsAt : Memory → ℕ → List Item → Type 0
OptionsAt m a [] = Unit {0}
OptionsAt m a (i ∷ items) = ItemAt m a i × OptionsAt m (a + size i) items

-- The `n` bytes from `b` on in the second memory are those from `a` on in the first.
abbrev pub Agree : Memory → Memory → ℕ → ℕ → ℕ → Type 0
Agree m m' a b n = (i : ℕ) → i < n → m' (b + i) ≡ m (a + i)

pub Agree-later :
    (m m' : Memory) (a b n k n' : ℕ) → Agree m m' a b n → k + n' ≤ n → Agree m m' (a + k) (b + k) n'
Agree-later m m' a b n k n' h l i j =
    let p : a + k + i ≡ a + (k + i) = omega arith in
    let q : b + k + i ≡ b + (k + i) = omega arith in rw (p, q) (h (k + i) (omega arith))

pub Agree-first : (m m' : Memory) (a b n : ℕ) → Agree m m' a b n → 0 < n → m' b ≡ m a
Agree-first m m' a b n h l =
    let p : a + 0 ≡ a = omega arith in let q : b + 0 ≡ b = omega arith in rw (p, q) at (h 0 l)

pub BytesAt-moved :
    (m m' : Memory) (a b : ℕ) (bs : List ℕ)
    → Agree m m' a b (length bs)
    → BytesAt m a bs
    → BytesAt m' b bs
BytesAt-moved m m' a b [] h s = tt
BytesAt-moved m m' a b (x ∷ bs) h (e, s) = (
  Agree-first m m' a b (suc (length bs)) h (omega arith) ∙ e,
  BytesAt-moved m m' (a + 1) (b + 1) bs
      (Agree-later m m' a b (suc (length bs)) 1 (length bs) h (omega arith)) s,
)

pub ItemAt-moved :
    (m m' : Memory) (a b : ℕ) (i : Item) → Agree m m' a b (size i) → ItemAt m a i → ItemAt m' b i
ItemAt-moved m m' a b pad h s = Agree-first m m' a b 1 h (omega arith) ∙ s
ItemAt-moved m m' a b (item code content) h (c, lo, hi, l, s) = (
  Agree-first m m' a b (2 + length content) h (omega arith) ∙ c,
  lo,
  hi,
  h 1 (omega arith) ∙ l,
  BytesAt-moved m m' (a + 2) (b + 2) content
      (Agree-later m m' a b (2 + length content) 2 (length content) h (omega arith)) s,
)

-- Options of another place, or of another memory, where their bytes are the same.
pub OptionsAt-moved :
    (m m' : Memory) (a b : ℕ) (items : List Item)
    → Agree m m' a b (total items)
    → OptionsAt m a items
    → OptionsAt m' b items
OptionsAt-moved m m' a b [] h s = tt
OptionsAt-moved m m' a b (i ∷ items) h (at_a, s) = (
  ItemAt-moved m m' a b i (λ j k. h j (omega arith)) at_a,
  OptionsAt-moved m m' (a + size i) (b + size i) items
      (Agree-later m m' a b (size i + total items) (size i) (total items) h (omega arith)) s,
)

pub total-append : (xs ys : List Item) → total (xs ++ ys) ≡ total xs + total ys
total-append [] ys = omega arith
total-append (x ∷ xs) ys = omega (arith, total-append xs ys)

pub OptionsAt-append :
    (m : Memory) (a : ℕ) (xs ys : List Item)
    → OptionsAt m a xs
    → OptionsAt m (a + total xs) ys
    → OptionsAt m a (xs ++ ys)
OptionsAt-append m a [] ys h k = let p : a + 0 ≡ a = omega arith in rw p at k
OptionsAt-append m a (x ∷ xs) ys (i, h) k = (
  i,
  OptionsAt-append m (a + size x) xs ys h
      (let p : a + (size x + total xs) ≡ a + size x + total xs = omega arith in rw p at k),
)

pub OptionsAt-split :
    (m : Memory) (a : ℕ) (xs ys : List Item)
    → OptionsAt m a (xs ++ ys)
    → OptionsAt m a xs × OptionsAt m (a + total xs) ys
OptionsAt-split m a [] ys h = (tt, let p : a + 0 ≡ a = omega arith in rw p h)
OptionsAt-split m a (x ∷ xs) ys (i, h) =
    let (first, second) = OptionsAt-split m (a + size x) xs ys h in
    let p : a + (size x + total xs) ≡ a + size x + total xs = omega arith in
    ((i, first), rw p second)

pub BytesAt-append :
    (m : Memory) (a : ℕ) (xs ys : List ℕ)
    → BytesAt m a xs
    → BytesAt m (a + length xs) ys
    → BytesAt m a (xs ++ ys)
BytesAt-append m a [] ys h k = let p : a + 0 ≡ a = omega arith in rw p at k
BytesAt-append m a (x ∷ xs) ys (e, h) k = (
  e,
  BytesAt-append m (a + 1) xs ys h
      (let p : a + suc (length xs) ≡ a + 1 + length xs = omega arith in rw p at k),
)
