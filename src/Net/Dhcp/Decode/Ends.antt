-- ===== src/Net/Dhcp/Decode/Ends.antt =====
-- lib/libnet/dhcp.c: `dhcp_decode_options` ends, whatever bytes the options are.
use slof.Prelude.{ℕ, zero, suc, ◌+◌, ◌^◌, ◌<◌, arith, inl, inr, Bool-cases, ltb}
use slof.Prelude.{Bool, Option, none, some}
use slof.Libc.Memory.{Memory}
use slof.Net.Dhcp.Decode.{
  Decoded, Case, returns, goes_on, no_options, store_option, leave_option, decode_from,
  decode_options, has_magic,
}

abbrev pub IsBytes : Memory → Type 0
IsBytes m = (a : ℕ) → m a < 256

-- A case that goes on advances.
abbrev Advances : ℕ → Case → Type 0
Advances offset (returns b) = Unit {0}
Advances offset (goes_on next) = offset < next

leave_option-Advances :
    (m : Memory) (opt_field offset : ℕ)
    → IsBytes m
    → offset < 2 ^ 31
    → Advances offset (leave_option m opt_field offset)
unfolding leave_option
leave_option-Advances m opt_field offset h l = ground (arith, h (opt_field + offset + 1))

abbrev pub Returns : Option (Bool × Decoded) → Type 0
Returns none = ⊥
Returns (some r) = Unit {0}

decode_from-Returns :
    (fuel : ℕ) (has_memory : ℕ → Bool) (m : Memory) (opt_field opt_len offset : ℕ) (d : Decoded)
    → IsBytes m
    → opt_len < 2 ^ 31
    → 0 < fuel
    → opt_len < offset + fuel
    → Returns (decode_from fuel has_memory m opt_field opt_len offset d)
unfolding decode_from
decode_from-Returns zero has_memory m opt_field opt_len offset d h s z f = absurd (omega arith)
decode_from-Returns (suc fuel) has_memory m opt_field opt_len offset d h s z f =
    elim (Bool-cases (ltb offset opt_len)) [
      | inr e ↦ rw e (tt)
      | inl e ↦
          let below : offset < opt_len = ground arith in
          rw e (
            go below
              (λ next g.
                decode_from-Returns fuel has_memory m opt_field opt_len next stored h s
                  (omega arith) g)
              (leave_option m opt_field offset)
              (leave_option-Advances m opt_field offset h (omega arith)))
    ]
  where
    stored : Decoded
    stored = store_option has_memory m (opt_field + offset) d

    go :
        offset < opt_len
        → ((next : ℕ)
            → opt_len < next + fuel
            → Returns (decode_from fuel has_memory m opt_field opt_len next stored))
        → (c : Case) → Advances offset c
        → Returns (elim c [
          | returns b ↦ some (b, stored)
          | goes_on next ↦ decode_from fuel has_memory m opt_field opt_len next stored
        ])
    go l rest (returns b) k = tt
    go l rest (goes_on next) k = rest next (omega arith)

pub decode_options-Returns :
    (has_memory : ℕ → Bool) (m : Memory) (opt_field opt_len : ℕ) (d : Decoded)
    → IsBytes m
    → opt_len < 2 ^ 31
    → Returns (decode_options has_memory m opt_field opt_len d)
unfolding decode_options
decode_options-Returns has_memory m opt_field opt_len d h s =
    elim (Bool-cases (has_magic m opt_field)) [
      | inl e ↦ rw e (
          decode_from-Returns (suc opt_len) has_memory m opt_field opt_len 4
            (record d { opt = no_options }) h s (omega arith) (omega arith))
      | inr e ↦ rw e (tt)
    ]
