-- ===== src/Nvram/Store/Laws.antt =====
-- lib/libnvram/nvram.c: what a write and an erasure change, and what is read back.
use slof.Prelude.{
  ℕ, zero, suc, ◌+◌, ◌*◌, ◌/◌, ◌%◌, ◌^◌, ◌≤◌, ◌<◌, ◌≡◌, ◌==◌, ltb, leb, arith, refl, sym, ap, ◌∙◌,
}
use slof.Prelude.{◌⊎◌, inl, inr, ◌&&◌, if◌then◌else◌}
use slof.Nvram.Store.{
  Nvram, update, load, store, read, write, read_byte, read_word, write_byte, write_word, erase_from,
  erase, u32,
}
use native.Mathlib.Nat.{
  pow-suc, one-le-pow, add-mul-mod_self_left, mod-eq_of_lt, div-add-mod, mod-lt, mul-le-mul_right,
}

-- The memory holds a `uint64_t`, and its length in 16-byte blocks fits a `uint16_t`.
abbrev pub IsSmall : Nvram → Type 0
IsSmall nv = (8 ≤ nv.size) × (nv.size < 2 ^ 20)

pub store-outside :
    (k : ℕ) (f : ℕ → ℕ) (offset value j : ℕ)
    → (j < offset) ⊎ (offset + k ≤ j)
    → store k f offset value j ≡ f j
unfolding store
store-outside zero f offset value j h = refl
store-outside (suc k) f offset value j (inl h) = ground (
  arith,
  store-outside k (update f offset (value / 256 ^ k % 256)) (offset + 1) value j
      (inl (omega arith)),
)
store-outside (suc k) f offset value j (inr h) = ground (
  arith,
  store-outside k (update f offset (value / 256 ^ k % 256)) (offset + 1) value j
      (inr (omega arith)),
)

pub load-ext :
    (k : ℕ) (f g : ℕ → ℕ) (offset : ℕ)
    → ((j : ℕ) → offset ≤ j → j < offset + k → f j ≡ g j)
    → load k f offset ≡ load k g offset
unfolding load
load-ext zero f g offset h = refl
load-ext (suc k) f g offset h = ground (
  arith,
  h offset (omega arith) (omega arith),
  load-ext k f g (offset + 1) (λ j a b. h j (omega arith) (omega arith)),
)

digit_step : (v p : ℕ) → 0 < p → v / p % 256 * p + v % p ≡ v % (256 * p)
digit_step v p h =
    sym (ap (λ t. t % (256 * p)) split ∙ add-mul-mod_self_left low (256 * p) q ∙ mod-eq_of_lt small)
  where
    q : ℕ
    q = v / p / 256

    low : ℕ
    low = v / p % 256 * p + v % p

    split : v ≡ low + 256 * p * q
    split = omega (arith, div-add-mod v p, ap (λ (t : ℕ). t * p) (div-add-mod (v / p) 256))

    top : v / p % 256 ≤ 255
    top = omega arith

    small : low < 256 * p
    small = omega (arith, mod-lt v h, mul-le-mul_right p top)

load-store :
    (k : ℕ) (f : ℕ → ℕ) (offset value : ℕ)
    → load k (store k f offset value) offset ≡ value % 256 ^ k
unfolding load store
load-store zero f offset value = omega arith
load-store (suc k) f offset value = ground (
  arith,
  store-outside k (update f offset (value / 256 ^ k % 256)) (offset + 1) value offset
      (inl (omega arith)),
  load-store k (update f offset (value / 256 ^ k % 256)) (offset + 1) value,
  digit_step value (256 ^ k) (one-le-pow k 256 (omega arith)),
  pow-suc 256 k,
)

-- A read gives back what a write to the same place stored, cut to the width.
pub read-write :
    (k : ℕ) (nv : Nvram) (offset value : ℕ)
    → offset + k ≤ nv.size
    → nv.size < 2 ^ 64
    → read k (write k nv offset value) offset ≡ value % 256 ^ k
unfolding read write
read-write k nv offset value h s = ground (arith, load-store k nv.bytes offset value)

-- A write changes no byte outside its own, and none at all past the end.
pub byte-write :
    (k : ℕ) (nv : Nvram) (offset value j : ℕ)
    → (j < offset) ⊎ (offset + k ≤ j)
    → (write k nv offset value).bytes j ≡ nv.bytes j
unfolding write
byte-write k nv offset value j h = ground (arith, store-outside k nv.bytes offset value j h)

pub size-write : (k : ℕ) (nv : Nvram) (offset value : ℕ) → (write k nv offset value).size ≡ nv.size
unfolding write
size-write k nv offset value = ground arith

-- A byte in range, and a word as its two bytes.
pub read_byte-in : (nv : Nvram) (j : ℕ) → IsSmall nv → j < nv.size → read_byte nv j ≡ nv.bytes j
unfolding read load
read_byte-in nv j s h = ground arith

pub read_word-in :
    (nv : Nvram) (j : ℕ)
    → IsSmall nv
    → j + 2 ≤ nv.size
    → read_word nv j ≡ nv.bytes j * 256 + nv.bytes (j + 1)
unfolding read load
read_word-in nv j s h = ground arith

pub byte-write_byte :
    (nv : Nvram) (i v j : ℕ)
    → IsSmall nv
    → (write_byte nv i v).bytes j ≡ (if i == j && ltb i nv.size then v % 256 else nv.bytes j)
unfolding write store
byte-write_byte nv i v j s = ground arith

pub byte-write_word :
    (nv : Nvram) (i v j : ℕ)
    → IsSmall nv
    → i + 2 ≤ nv.size
    → (write_word nv i v).bytes j
      ≡ (if i == j then v / 256 % 256 else if i + 1 == j then v % 256 else nv.bytes j)
unfolding write store
byte-write_word nv i v j s h = ground arith

pub size-erase_from : (left : ℕ) (nv : Nvram) (i : ℕ) → (erase_from left nv i).size ≡ nv.size
unfolding erase_from
size-erase_from zero nv i = refl
size-erase_from (suc left) nv i =
    ground (arith, size-erase_from left (write_byte nv i 0) (u32 (i + 1)), size-write 1 nv i 0)

pub byte-erase_from :
    (left : ℕ) (nv : Nvram) (i j : ℕ)
    → IsSmall nv
    → i + left < 2 ^ 32
    → (erase_from left nv i).bytes j
      ≡ (if leb i j && ltb j (i + left) && ltb j nv.size then 0 else nv.bytes j)
unfolding erase_from
byte-erase_from zero nv i j s h = ground arith
byte-erase_from (suc left) nv i j s h = ground (
  arith,
  size-write 1 nv i 0,
  byte-write_byte nv i 0 j s,
  byte-erase_from left (write_byte nv i 0) (u32 (i + 1)) j,
)

-- `erase_nvram` clears the bytes of its range that are in the memory, and no others.
pub byte-erase :
    (nv : Nvram) (offset len j : ℕ)
    → IsSmall nv
    → len < 2 ^ 31
    → offset < 2 ^ 31
    → (erase nv offset len).bytes j
      ≡ (if leb offset j && ltb j (offset + len) && ltb j nv.size then 0 else nv.bytes j)
unfolding erase
byte-erase nv offset len j s hl ho = ground (arith, byte-erase_from len nv offset j s (omega arith))

pub size-erase : (nv : Nvram) (offset len : ℕ) → (erase nv offset len).size ≡ nv.size
unfolding erase
size-erase nv offset len = size-erase_from _ nv offset

-- Every byte is one.
abbrev pub IsBytes : Nvram → Type 0
IsBytes nv = (j : ℕ) → nv.bytes j < 256

pub read_word-lt : (nv : Nvram) (offset : ℕ) → IsBytes nv → read_word nv offset < 2 ^ 16
unfolding read load
read_word-lt nv offset b = ground (arith, b offset, b (offset + 1))

store-IsBytes :
    (k : ℕ) (f : ℕ → ℕ) (offset value : ℕ)
    → ((j : ℕ) → f j < 256)
    → (j : ℕ) → store k f offset value j < 256
unfolding store
store-IsBytes zero f offset value h j = h j
store-IsBytes (suc k) f offset value h j =
    store-IsBytes k (update f offset (value / 256 ^ k % 256)) (offset + 1) value
      (λ i. ground (arith, h i)) j

pub write-IsBytes :
    (k : ℕ) (nv : Nvram) (offset value : ℕ) → IsBytes nv → IsBytes (write k nv offset value)
unfolding write
write-IsBytes k nv offset value b j = ground (arith, b j, store-IsBytes k nv.bytes offset value b j)
