-- ===== src/Net/Dhcp/Attempt.antt =====
-- lib/libnet/dhcp.c: `dhcp_attempt`, which waits for the client to reach a final state. What
-- `receive_ether` hands to `handle_dhcp` is a parameter, as is the time that a round takes.
pub mod Run
use slof.Prelude.{ℕ, ◌+◌, Bool, true, false, Option, none, some, List, [], ◌∷◌, ◌++◌}
use slof.Libc.Memory.{Memory}
use slof.Nvram.Partition.{◌>>=◌}
use slof.Net.Dhcp.Client.{
  ClientState, idle, select, request, success, fault, Client, Effect, send_discover, handle_dhcp,
}

-- A packet for the client: the memory that holds it, where, its size, and where `handle_dhcp` has its
-- buffer.
pub record Packet : Type 0 where
  pub memory : Memory
  pub address : ℕ
  pub size : ℕ
  pub options : ℕ

-- One call of `receive_ether`, with a packet for `handle_dhcp` or without one.
unfoldable pub receive : (ℕ → Bool) → Option Packet → Client → Option Client
receive has_memory none c = some c
receive has_memory (some p) c = do
  handled ← handle_dhcp has_memory p.memory p.address p.size p.options c
  some handled.1

-- The rounds until the timer runs out: there is a first one, and then as many as there is time for.
pub record Second : Type 0 where
  pub first : Option Packet
  pub later : List (Option Packet)

-- The `switch` in the loop: what the function returns in a final state.
unfoldable pub final : ClientState → Option Bool
final idle = none
final select = none
final request = none
final success = some true
final fault = some false

-- The inner loop: what the function returns in it, if it does, and the client.
unfoldable pub wait_from :
    (ℕ → Bool) → Option Packet → List (Option Packet) → Client → Option (Option Bool × Client)
wait_from has_memory first [] c = do c' ← receive has_memory first c; some (final c'.state, c')
wait_from has_memory first (next ∷ later) c = do
  c' ← receive has_memory first c
  let rest = wait_from has_memory next later c'
  elim (final c'.state) [ none ↦ rest | some b ↦ some (some b, c') ]

-- The outer loop and the end of the function.
unfoldable pub attempt_from : (ℕ → Bool) → List Second → Client → Option (Bool × Client)
attempt_from has_memory [] c = some (false, c)
attempt_from has_memory (s ∷ seconds) c = do
  waited ← wait_from has_memory s.first s.later c
  let rest = attempt_from has_memory seconds waited.1
  elim waited.0 [ none ↦ rest | some b ↦ some (b, waited.1) ]

unfoldable pub attempt : (ℕ → Bool) → Second → Second → Client → Option (Bool × Client)
attempt has_memory s1 s2 c =
    attempt_from has_memory (s1 ∷ s2 ∷ [])
      (record c { effects = c.effects ++ (send_discover ∷ []); state = select })
