-- ===== src/Net/Dhcp/Attempt/Run.antt =====
-- lib/libnet/dhcp.c: what holds of the client in and after `dhcp_attempt`.
use slof.Prelude.{ℕ, ◌+◌, ◌^◌, ◌≤◌, ◌<◌, ◌≡◌, ◌∙◌, ap, sym, arith, refl}
use slof.Prelude.{Bool, true, false, Option, none, some, List, [], ◌∷◌, ◌++◌}
use slof.Libc.Memory.{Memory}
use slof.Nvram.Partition.{◌>>=◌}
use slof.Net.Dhcp.Decode.Ends.{IsBytes}
use slof.Net.Dhcp.Client.{
  ClientState, idle, select, request, success, fault, Client, Effect, send_discover, send_request,
  set_address, copy_response, set_router, set_netmask, start_dns,
}
use slof.Net.Dhcp.Client.Ends.{NoOverload, handle_dhcp-ends}
use slof.Net.Dhcp.Client.Step.{
  requests, Same, Change, unexpected, replied_with_options, offered, acknowledged, refused, Step,
  foreign, replied, unreadable, read, handle_dhcp-Step,
}
use slof.Net.Dhcp.Attempt.{Packet, Second, receive, final, wait_from, attempt_from, attempt}

requests-append : (es fs : List Effect) → requests (es ++ fs) ≡ requests es + requests fs
requests-append [] fs = omega arith
requests-append (send_discover ∷ es) fs = requests-append es fs
requests-append (send_request ∷ es) fs = omega (arith, requests-append es fs)
requests-append (set_address ip ∷ es) fs = requests-append es fs
requests-append (copy_response n ∷ es) fs = requests-append es fs
requests-append (set_router ip ∷ es) fs = requests-append es fs
requests-append (set_netmask ip ∷ es) fs = requests-append es fs
requests-append (start_dns ip ∷ es) fs = requests-append es fs

-- At most one DHCPREQUEST was sent in the state of a client, and none while an offer is waited for.
abbrev pub IsSafe : ClientState → ℕ → ℕ → Type 0
IsSafe idle own_ip sent = ⊥
IsSafe select own_ip sent = sent ≡ 0
IsSafe request own_ip sent = sent ≡ 1
IsSafe success own_ip sent = sent ≤ 1
IsSafe fault own_ip sent = (sent ≤ 1) × (own_ip ≡ 0)

abbrev pub SafeClient : Client → Type 0
SafeClient c = IsSafe c.state c.own_ip (requests c.effects)

IsSafe-once : (s : ClientState) (own_ip sent : ℕ) → IsSafe s own_ip sent → sent ≤ 1
IsSafe-once idle own_ip sent h = absurd h
IsSafe-once select own_ip sent h = omega arith
IsSafe-once request own_ip sent h = omega arith
IsSafe-once success own_ip sent h = h
IsSafe-once fault own_ip sent h = h.0

selecting : (s : ClientState) (own_ip sent : ℕ) → s ≡ select → IsSafe s own_ip sent → sent ≡ 0
selecting s own_ip sent e h = rw e at h

Same-SafeClient : (c c' : Client) → Same c c' → SafeClient c → SafeClient c'
Same-SafeClient c c' (s, o, e) h = rw (s, o, e) h

Change-SafeClient : (t y : ℕ) (c c' : Client) → Change t y c c' → SafeClient c → SafeClient c'
Change-SafeClient t y c c' (unexpected n u same) h = Same-SafeClient c c' same h
Change-SafeClient t y c c' (replied_with_options calls n s o e q) h =
    rw (s, e, requests-append c.effects (set_address y ∷ calls), q)
      (omega (arith, IsSafe-once c.state c.own_ip (requests c.effects) h))
Change-SafeClient t y c c' (offered n f s o e) h =
    rw (s, e, requests-append c.effects (send_request ∷ []))
      (omega (arith, selecting c.state c.own_ip (requests c.effects) f h))
Change-SafeClient t y c c' (acknowledged calls n f s o e q) h =
    rw (s, e, requests-append c.effects (set_address y ∷ calls), q)
      (omega (arith, IsSafe-once c.state c.own_ip (requests c.effects) h))
Change-SafeClient t y c c' (refused n f s o e) h =
    rw (s, o, e) (IsSafe-once c.state c.own_ip (requests c.effects) h, refl)

Step-SafeClient :
    {has_memory : ℕ → Bool} {m : Memory} {packet packetsize options : ℕ} (c c' : Client)
    → Step has_memory m packet packetsize options c c'
    → SafeClient c
    → SafeClient c'
Step-SafeClient c c' (foreign n same) h = Same-SafeClient c c' same h
Step-SafeClient c c' (replied r k s o e) h =
    rw (s, e) (IsSafe-once c.state c.own_ip (requests c.effects) h)
Step-SafeClient c c' (unreadable r k d e same) h = Same-SafeClient c c' same h
Step-SafeClient c c' (read r k d e change) h = Change-SafeClient _ _ c c' change h

-- A packet that the client can hold: bytes, a size for which `handle_dhcp` ends, and no overload.
pub record IsPacket (has_memory : ℕ → Bool) (p : Packet) : Type 0 where
  pub bytes : IsBytes p.memory
  pub long : 240 ≤ p.size
  pub short : p.size < 2 ^ 30
  pub plain : NoOverload has_memory p.memory p.address p.size

abbrev pub IsReceived : (ℕ → Bool) → Option Packet → Type 0
IsReceived has_memory none = Unit {0}
IsReceived has_memory (some p) = IsPacket has_memory p

abbrev pub AllReceived : (ℕ → Bool) → List (Option Packet) → Type 0
AllReceived has_memory [] = Unit {0}
AllReceived has_memory (p ∷ ps) = IsReceived has_memory p × AllReceived has_memory ps

-- The client after a round.
receive-SafeClient :
    (has_memory : ℕ → Bool) (p : Option Packet) (c : Client)
    → IsReceived has_memory p
    → SafeClient c
    → (c' : Client) × (receive has_memory p c ≡ some c') × SafeClient c'
unfolding receive
receive-SafeClient has_memory none c k h = (c, refl, h)
receive-SafeClient has_memory (some p) c k h =
    let (r, e) =
      handle_dhcp-ends has_memory p.memory p.address p.size p.options c k.bytes k.long k.short
        k.plain in
    let step = handle_dhcp-Step has_memory p.memory p.address p.size p.options c r.1 r.0 e in
    (r.1, rw e refl, Step-SafeClient c r.1 step h)

-- What the inner loop returns fits the state of a client that is safe.
abbrev Waited : Option (Option Bool × Client) → Type 0
Waited none = ⊥
Waited (some r) = (r.0 ≡ final r.1.state) × SafeClient r.1

wait_from-Waited :
    (has_memory : ℕ → Bool) (first : Option Packet) (later : List (Option Packet)) (c : Client)
    → IsReceived has_memory first
    → AllReceived has_memory later
    → SafeClient c
    → Waited (wait_from has_memory first later c)
unfolding wait_from
wait_from-Waited has_memory first [] c k ks h =
    let (c', e, h') = receive-SafeClient has_memory first c k h in rw e (refl, h')
wait_from-Waited has_memory first (next ∷ later) c k (k', ks) h =
    let (c', e, h') = receive-SafeClient has_memory first c k h in
    rw e (go c' (final c'.state) refl h' (wait_from-Waited has_memory next later c' k' ks h'))
  where
    go :
        (c' : Client) (b : Option Bool)
        → final c'.state ≡ b
        → SafeClient c'
        → Waited (wait_from has_memory next later c')
        → Waited (elim b [ none ↦ wait_from has_memory next later c' | some b ↦ some (some b, c') ])
    go c' none e h rest = rest
    go c' (some b) e h rest = (sym e, h)

-- The seconds.
abbrev pub AllSeconds : (ℕ → Bool) → List Second → Type 0
AllSeconds has_memory [] = Unit {0}
AllSeconds has_memory (s ∷ seconds) =
    (IsReceived has_memory s.first × AllReceived has_memory s.later) × AllSeconds has_memory seconds

abbrev pub is_success : ClientState → Bool
is_success idle = false
is_success select = false
is_success request = false
is_success success = true
is_success fault = false

abbrev or_false : Option Bool → Bool
or_false none = false
or_false (some b) = b

final-is_success : (s : ClientState) → or_false (final s) ≡ is_success s
unfolding final
final-is_success idle = refl
final-is_success select = refl
final-is_success request = refl
final-is_success success = refl
final-is_success fault = refl

-- What `dhcp_attempt` returns fits the state.
abbrev Attempted : Option (Bool × Client) → Type 0
Attempted none = ⊥
Attempted (some r) = (r.0 ≡ is_success r.1.state) × SafeClient r.1

attempt_from-Attempted :
    (has_memory : ℕ → Bool) (seconds : List Second) (c : Client)
    → AllSeconds has_memory seconds
    → is_success c.state ≡ false
    → SafeClient c
    → Attempted (attempt_from has_memory seconds c)
unfolding attempt_from
attempt_from-Attempted has_memory [] c k e h = (sym e, h)
attempt_from-Attempted has_memory (s ∷ seconds) c ((f, l), k) e h =
    go (λ c' e h. attempt_from-Attempted has_memory seconds c' k e h)
      (wait_from has_memory s.first s.later c) (wait_from-Waited has_memory s.first s.later c f l h)
  where
    go :
        ((c' : Client)
          → is_success c'.state ≡ false
          → SafeClient c'
          → Attempted (attempt_from has_memory seconds c'))
        → (o : Option (Option Bool × Client)) → Waited o
        → Attempted (
            o >>= λ waited.
            let rest = attempt_from has_memory seconds waited.1 in
            elim waited.0 [ none ↦ rest | some b ↦ some (b, waited.1) ])
    go rest none w = absurd w
    go rest (some (none, c')) (e, h) =
        rest c' (sym (final-is_success c'.state) ∙ ap or_false (sym e)) h
    go rest (some (some b, c')) (e, h) = (ap or_false e ∙ final-is_success c'.state, h)

-- `dhcp_attempt` ends on packets of bytes, each of 240 to 2 ^ 30 - 1 bytes and without an overload of
-- other fields (option 52), in whatever number and order, where no DHCPREQUEST was sent before. It returns 1 exactly where the client is in SUCCESS. At
-- most one DHCPREQUEST was sent then, none in SELECT and one in REQUEST; in FAULT the own address is 0.
pub attempt-SafeClient :
    (has_memory : ℕ → Bool) (s1 s2 : Second) (c : Client)
    → AllSeconds has_memory (s1 ∷ s2 ∷ [])
    → requests c.effects ≡ 0
    → (b : Bool) × (c' : Client) × (attempt has_memory s1 s2 c ≡ some (b, c'))
      × (b ≡ is_success c'.state)
      × SafeClient c'
unfolding attempt
attempt-SafeClient has_memory s1 s2 c k e = go (attempt has_memory s1 s2 c) refl (
    attempt_from-Attempted has_memory (s1 ∷ s2 ∷ [])
      (record c { effects = c.effects ++ (send_discover ∷ []); state = select }) k refl
      (requests-append c.effects (send_discover ∷ []) ∙ omega (arith, e)))
  where
    go :
        (o : Option (Bool × Client))
        → attempt has_memory s1 s2 c ≡ o
        → Attempted o
        → (b : Bool) × (c' : Client) × (attempt has_memory s1 s2 c ≡ some (b, c'))
          × (b ≡ is_success c'.state)
          × SafeClient c'
    go none e w = absurd w
    go (some (b, c')) e (f, h) = (b, c', e, f, h)
