-- ===== src/Net/Dhcp/Client/Step.antt =====
-- lib/libnet/dhcp.c: the states of the client as a step relation that `handle_dhcp` implements.
use slof.Prelude.{ℕ, suc, ◌+◌, ◌≡◌, ◌≢◌, ◌⊎◌, ◌==◌, ◌∙◌, ap, arith, refl, inl, inr, Bool-cases, leb}
use slof.Prelude.{
  Bool, true, false, not, ◌||◌, Option, none, some, List, [], ◌∷◌, ◌++◌, if◌then◌else◌,
}
use slof.Libc.Memory.{Memory}
use slof.Nvram.Partition.{◌>>=◌}
use slof.Net.Dhcp.Decode.{DhcpOptions, Decoded, has_magic}
use slof.Net.Dhcp.Client.Ends.{globals_of}
use slof.Net.Dhcp.Client.{
  ClientState, idle, select, request, success, fault, Effect, send_discover, send_request,
  set_address, copy_response, set_router, set_netmask, start_dns, Client, op_of, xid_of, yiaddr_of,
  take_bootp, take_ack, configure, take_dhcp, read_options, handle_dhcp,
}

-- How many DHCPREQUEST messages the calls send.
abbrev pub requests : List Effect → ℕ
requests [] = 0
requests (send_discover ∷ es) = requests es
requests (send_request ∷ es) = suc (requests es)
requests (set_address ip ∷ es) = requests es
requests (copy_response n ∷ es) = requests es
requests (set_router ip ∷ es) = requests es
requests (set_netmask ip ∷ es) = requests es
requests (start_dns ip ∷ es) = requests es

-- Nothing changes in the state, the own address and the calls.
abbrev pub Same : Client → Client → Type 0
Same c c' = (c'.state ≡ c.state) × (c'.own_ip ≡ c.own_ip) × (c'.effects ≡ c.effects)

-- A type of message that the client does not wait for.
abbrev pub IsUnexpected : ClientState → ℕ → Type 0
IsUnexpected idle msg_type = Unit {0}
IsUnexpected select msg_type = msg_type ≢ 2
IsUnexpected request msg_type = (msg_type ≢ 5) × (msg_type ≢ 6)
IsUnexpected success msg_type = Unit {0}
IsUnexpected fault msg_type = Unit {0}

-- What a reply with options of a message type changes.
pub data Change (msg_type yiaddr : ℕ) (c c' : Client) : Type 0 where
  unexpected :
      msg_type ≢ 0 → IsUnexpected c.state msg_type → Same c c' → Change msg_type yiaddr c c'
  replied_with_options :
      (calls : List Effect)
      → msg_type ≡ 0
      → c'.state ≡ success
      → c'.own_ip ≡ yiaddr
      → c'.effects ≡ c.effects ++ (set_address yiaddr ∷ calls)
      → requests calls ≡ 0
      → Change msg_type yiaddr c c'
  offered :
      msg_type ≡ 2
      → c.state ≡ select
      → c'.state ≡ request
      → c'.own_ip ≡ yiaddr
      → c'.effects ≡ c.effects ++ (send_request ∷ [])
      → Change msg_type yiaddr c c'
  acknowledged :
      (calls : List Effect)
      → msg_type ≡ 5
      → c.state ≡ request
      → c'.state ≡ success
      → c'.own_ip ≡ yiaddr
      → c'.effects ≡ c.effects ++ (set_address yiaddr ∷ calls)
      → requests calls ≡ 0
      → Change msg_type yiaddr c c'
  refused :
      msg_type ≡ 6
      → c.state ≡ request
      → c'.state ≡ fault
      → c'.own_ip ≡ 0
      → c'.effects ≡ c.effects
      → Change msg_type yiaddr c c'

-- A reply (2) with the number of the exchange.
abbrev pub IsReply : Memory → ℕ → Client → Type 0
IsReply m packet c = (op_of m packet ≡ 2) × (xid_of m packet ≡ c.xid)

-- A handled packet: what it is, and what it changes.
pub data Step (has_memory : ℕ → Bool) (m : Memory) (packet packetsize options : ℕ) (c c' : Client)
    : Type 0 where
  foreign :
      (op_of m packet ≢ 2) ⊎ (xid_of m packet ≢ c.xid)
      → Same c c'
      → Step has_memory m packet packetsize options c c'
  replied :
      IsReply m packet c
      → has_magic m (packet + 236) ≡ false
      → c'.state ≡ success
      → c'.own_ip ≡ yiaddr_of m packet
      → c'.effects ≡ c.effects
      → Step has_memory m packet packetsize options c c'
  unreadable :
      IsReply m packet c
      → has_magic m (packet + 236) ≡ true
      → (d : Decoded)
      → read_options has_memory m packet packetsize options (globals_of c) ≡ some (false, d)
      → Same c c'
      → Step has_memory m packet packetsize options c c'
  read :
      IsReply m packet c
      → has_magic m (packet + 236) ≡ true
      → (d : Decoded)
      → read_options has_memory m packet packetsize options (globals_of c) ≡ some (true, d)
      → Change d.opt.msg_type (yiaddr_of m packet) c c'
      → Step has_memory m packet packetsize options c c'

abbrev calls_of : ℕ → DhcpOptions → Client → List Effect
calls_of packetsize o c =
    (if c.has_response_buffer
      then copy_response (if leb packetsize 1720 then packetsize else 1720) ∷ []
      else [])
    ++ ((if o.flag 1 == 0 || o.flag 3 == 0
          then []
          else set_router o.router_ip ∷ set_netmask o.subnet_mask ∷ [])
        ++ (if o.flag 6 == 0 then [] else start_dns o.dns_ip ∷ []))

requests-calls_of :
    (packetsize : ℕ) (o : DhcpOptions) (c : Client) → requests (calls_of packetsize o c) ≡ 0
requests-calls_of packetsize o c = ground arith

configure-effects :
    (packetsize : ℕ) (o : DhcpOptions) (c : Client)
    → (configure packetsize o c).effects
      ≡ c.effects ++ (set_address c.own_ip ∷ calls_of packetsize o c)
unfolding configure
configure-effects packetsize o c = refl

take_ack-effects :
    (m : Memory) (packet : ℕ) (o : DhcpOptions) (c : Client)
    → (take_ack m packet o c).effects ≡ c.effects
unfolding take_ack
take_ack-effects m packet o c = elim (Bool-cases (o.flag 66 == 0)) [ inl e ↦ rw e | inr e ↦ rw e ]

acknowledged-Change :
    (m : Memory) (packet packetsize : ℕ) (o : DhcpOptions) (c : Client)
    → o.msg_type ≡ 5
    → c.state ≡ request
    → Change o.msg_type (yiaddr_of m packet) c (configure packetsize o (take_ack m packet o c))
unfolding configure take_ack
acknowledged-Change m packet packetsize o c t e =
    acknowledged (calls_of packetsize o (take_ack m packet o c)) t e refl refl
      (configure-effects packetsize o (take_ack m packet o c)
        ∙ ap
            (λ t.
              t
              ++ (set_address (yiaddr_of m packet) ∷ calls_of packetsize o (take_ack m packet o c)))
            (take_ack-effects m packet o c))
      (requests-calls_of packetsize o (take_ack m packet o c))

bootp-Change :
    (m : Memory) (packet packetsize : ℕ) (o : DhcpOptions) (c : Client)
    → o.msg_type ≡ 0
    → Change o.msg_type (yiaddr_of m packet) c (configure packetsize o (take_bootp m packet c))
unfolding configure take_bootp
bootp-Change m packet packetsize o c t =
    replied_with_options (calls_of packetsize o (take_bootp m packet c)) t refl refl
      (configure-effects packetsize o (take_bootp m packet c))
      (requests-calls_of packetsize o (take_bootp m packet c))

take_dhcp-Change :
    (m : Memory) (packet packetsize : ℕ) (o : DhcpOptions) (c : Client)
    → o.msg_type ≢ 0
    → Change o.msg_type (yiaddr_of m packet) c (take_dhcp m packet packetsize o c).1
unfolding take_dhcp
take_dhcp-Change m packet packetsize o c n = go c.state refl
  where
    go :
        (s : ClientState)
        → c.state ≡ s
        → Change o.msg_type (yiaddr_of m packet) c (take_dhcp m packet packetsize o c).1
    go idle e = rw e (unexpected n tt (refl, refl, refl))
    go select e = rw e (elim (Bool-cases (o.msg_type == 2)) [
      | inl f ↦ rw f (offered (ground arith) refl refl refl refl)
      | inr f ↦ rw f (unexpected n (ground arith) (refl, refl, refl))
    ])
    go request e = rw e (elim (Bool-cases (o.msg_type == 6)) [
      | inl f ↦ rw f (refused (ground arith) refl refl refl refl)
      | inr f ↦ elim (Bool-cases (o.msg_type == 5)) [
        | inl g ↦
            rw (f, g)
              (acknowledged-Change m packet packetsize o (record c { state = request })
                (ground arith) refl)
        | inr g ↦ rw (f, g) (unexpected n (ground arith, ground arith) (refl, refl, refl))
      ]
    ])
    go success e = rw e (unexpected n tt (refl, refl, refl))
    go fault e = rw e (unexpected n tt (refl, refl, refl))

Change-globals :
    (t y : ℕ) (c c' : Client) (cfgfile prefix : Option (ℕ → ℕ))
    → Change t y (record c { pxelinux_cfgfile = cfgfile; pxelinux_prefix = prefix }) c'
    → Change t y c c'
Change-globals t y c c' cfgfile prefix (unexpected a b d) = unexpected a b d
Change-globals t y c c' cfgfile prefix (replied_with_options es a b d e f) =
    replied_with_options es a b d e f
Change-globals t y c c' cfgfile prefix (offered a b d e f) = offered a b d e f
Change-globals t y c c' cfgfile prefix (acknowledged es a b d e f g) = acknowledged es a b d e f g
Change-globals t y c c' cfgfile prefix (refused a b d e f) = refused a b d e f

not_reply :
    (m : Memory) (packet : ℕ) (c : Client)
    → (not (op_of m packet == 2) || not (xid_of m packet == c.xid)) ≡ true
    → (op_of m packet ≢ 2) ⊎ (xid_of m packet ≢ c.xid)
not_reply m packet c e = ground arith

xid_of-IsReply :
    (m : Memory) (packet : ℕ) (c : Client)
    → (not (op_of m packet == 2) || not (xid_of m packet == c.xid)) ≡ false
    → IsReply m packet c
xid_of-IsReply m packet c e = (ground arith, ground arith)

module _ (has_memory : ℕ → Bool) (m : Memory) (packet packetsize options : ℕ) (c : Client) where
  -- The client of a result, where there is one, is reached by a step.
  abbrev AfterStep : Option (ℕ × Client) → Type 0
  AfterStep none = Unit {0}
  AfterStep (some p) = Step has_memory m packet packetsize options c p.1

  abbrev known : Decoded → Client
  known d = record c { pxelinux_cfgfile = d.pxelinux_cfgfile; pxelinux_prefix = d.pxelinux_prefix }

  abbrev handled : Decoded → ℕ × Client
  handled d =
      if d.opt.msg_type == 0
      then (0, configure packetsize d.opt (take_bootp m packet (known d)))
      else take_dhcp m packet packetsize d.opt (known d)

  handled-Change :
      (d : Decoded) → Change d.opt.msg_type (yiaddr_of m packet) (known d) (handled d).1
  handled-Change d = elim (Bool-cases (d.opt.msg_type == 0)) [
    | inl g ↦ rw g (bootp-Change m packet packetsize d.opt (known d) (ground arith))
    | inr g ↦ rw g (take_dhcp-Change m packet packetsize d.opt (known d) (ground arith))
  ]

  read-AfterStep :
      (o : Option (Bool × Decoded))
      → IsReply m packet c
      → has_magic m (packet + 236) ≡ true
      → read_options has_memory m packet packetsize options (globals_of c) ≡ o
      → AfterStep (o >>= λ read. some (if read.0 then handled read.1 else (255, known read.1)))
  read-AfterStep none h k e = tt
  read-AfterStep (some (true, d)) h k e =
      read h k d e (Change-globals _ _ c _ _ _ (handled-Change d))
  read-AfterStep (some (false, d)) h k e = unreadable h k d e (refl, refl, refl)

  plain-AfterStep :
      IsReply m packet c
      → has_magic m (packet + 236) ≡ false
      → AfterStep (some (0, take_bootp m packet c))
  unfolding take_bootp
  plain-AfterStep h k = replied h k refl refl refl

  handle_dhcp-AfterStep : AfterStep (handle_dhcp has_memory m packet packetsize options c)
  unfolding handle_dhcp
  handle_dhcp-AfterStep =
      elim (Bool-cases (not (op_of m packet == 2) || not (xid_of m packet == c.xid))) [
        | inl e ↦ rw e (foreign (not_reply m packet c e) (refl, refl, refl))
        | inr e ↦ elim (Bool-cases (has_magic m (packet + 236))) [
          | inl f ↦
              rw (e, f)
                (read-AfterStep (read_options has_memory m packet packetsize options (globals_of c))
                  (xid_of-IsReply m packet c e) f refl)
          | inr f ↦ rw (e, f) (plain-AfterStep (xid_of-IsReply m packet c e) f)
        ]
      ]

-- Where handle_dhcp handles a packet, without an overrun of its buffers, nothing changes in the state,
-- the own address and the calls for a packet that is not a reply with the number of the exchange, or
-- whose options cannot be read. A reply without options gives its address and the state SUCCESS; so does
-- one with options and no message type, and then the address is set. With a message type, an offer (2)
-- changes SELECT to REQUEST, takes the address and sends a DHCPREQUEST, a DHCPACK (5) changes REQUEST to
-- SUCCESS and sets the address, a DHCPNAK (6) changes REQUEST to FAULT and the address to 0, and all
-- else changes nothing. No call but that of the offer sends a DHCPREQUEST.
pub handle_dhcp-Step :
    (has_memory : ℕ → Bool) (m : Memory) (packet packetsize options : ℕ) (c c' : Client) (r : ℕ)
    → handle_dhcp has_memory m packet packetsize options c ≡ some (r, c')
    → Step has_memory m packet packetsize options c c'
handle_dhcp-Step has_memory m packet packetsize options c c' r e =
    rw e at (handle_dhcp-AfterStep has_memory m packet packetsize options c)
