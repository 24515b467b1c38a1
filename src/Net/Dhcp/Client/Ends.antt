-- ===== src/Net/Dhcp/Client/Ends.antt =====
-- lib/libnet/dhcp.c: `handle_dhcp` ends on packets without overloaded fields.
use slof.Prelude.{ℕ, ◌+◌, ◌-◌, ◌^◌, ◌≤◌, ◌<◌, ◌≡◌, ◌==◌, arith, refl, inl, inr, Bool-cases}
use slof.Prelude.{Bool, true, false, not, ◌&&◌, ◌||◌, Option, none, some, if◌then◌else◌}
use slof.Libc.Memory.{Memory}
use slof.Nvram.Partition.{◌>>=◌}
use slof.Net.Dhcp.Options.{u32}
use slof.Net.Dhcp.Decode.{Decoded, no_options, has_magic, decode_options}
use slof.Net.Dhcp.Decode.Ends.{IsBytes, Returns, decode_options-Returns}
use slof.Net.Dhcp.Client.{
  Client, op_of, xid_of, take_bootp, take_dhcp, configure, read_options, handle_dhcp,
}

-- What the variables hold when a packet comes.
abbrev pub globals_of : Client → Decoded
globals_of c = record {
  opt = no_options;
  pxelinux_cfgfile = c.pxelinux_cfgfile;
  pxelinux_prefix = c.pxelinux_prefix;
}

abbrev pub overload_of : Option (Bool × Decoded) → ℕ
overload_of none = 0
overload_of (some d) = d.1.opt.overload

-- The options of a packet are read without option 52.
abbrev pub NoOverload : (ℕ → Bool) → Memory → ℕ → ℕ → Type 0
NoOverload has_memory m packet size =
    (c : Client)
    → overload_of
        (decode_options has_memory m (packet + 236) (u32 (size + 2 ^ 32 - 300 + 64)) (globals_of c))
      ≡ 0

-- The options of a packet that ends behind the magic number are read.
read_options-Returns :
    (has_memory : ℕ → Bool) (m : Memory) (packet size options : ℕ) (c : Client)
    → IsBytes m
    → 240 ≤ size
    → size < 2 ^ 30
    → NoOverload has_memory m packet size
    → Returns (read_options has_memory m packet size options (globals_of c))
unfolding read_options
read_options-Returns has_memory m packet size options c h lo hi plain =
    first _
      (decode_options has_memory m (packet + 236) (u32 (size + 2 ^ 32 - 300 + 64)) (globals_of c))
      (decode_options-Returns has_memory m (packet + 236) (u32 (size + 2 ^ 32 - 300 + 64))
        (globals_of c) h (omega arith))
      (plain c)
  where
    first :
        (merged : Bool × Decoded → Option (Bool × Decoded)) (o : Option (Bool × Decoded))
        → Returns o
        → overload_of o ≡ 0
        → Returns (
            o >>= λ decoded.
            if decoded.0 && not (decoded.1.opt.overload == 0) then merged decoded else some decoded)
    first merged none k e = absurd k
    first merged (some (true, d)) k e = rw e tt
    first merged (some (false, d)) k e = tt

-- `handle_dhcp` ends on every packet of 240 to 2 ^ 30 - 1 bytes in a memory of bytes whose options are
-- read without an overload of other fields (option 52): the fuel of the model is enough, whatever the
-- options are.
pub handle_dhcp-ends :
    (has_memory : ℕ → Bool) (m : Memory) (packet size options : ℕ) (c : Client)
    → IsBytes m
    → 240 ≤ size
    → size < 2 ^ 30
    → NoOverload has_memory m packet size
    → (r : ℕ × Client) × (handle_dhcp has_memory m packet size options c ≡ some r)
unfolding handle_dhcp
handle_dhcp-ends has_memory m packet size options c h lo hi plain =
    elim (Bool-cases (not (op_of m packet == 2) || not (xid_of m packet == c.xid))) [
      | inl e ↦ rw e (_, refl)
      | inr e ↦ rw e (elim (Bool-cases (has_magic m (packet + 236))) [
        | inl f ↦
            rw f (go _ (read_options-Returns has_memory m packet size options c h lo hi plain))
        | inr f ↦ rw f (_, refl)
      ])
    ]
  where
    known : Decoded → Client
    known d = record c {
      pxelinux_cfgfile = d.pxelinux_cfgfile;
      pxelinux_prefix = d.pxelinux_prefix;
    }

    handled : Decoded → ℕ × Client
    handled d =
        if d.opt.msg_type == 0
        then (0, configure size d.opt (take_bootp m packet (known d)))
        else take_dhcp m packet size d.opt (known d)

    go :
        (o : Option (Bool × Decoded))
        → Returns o
        → (r : ℕ × Client) × ((o >>= λ read.
              some (if read.0 then handled read.1 else (255, known read.1)))
            ≡ some r)
    go none k = absurd k
    go (some d) k = (_, refl)
